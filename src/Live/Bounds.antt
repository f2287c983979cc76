-- ===== src/Live/Bounds.antt =====
-- live_monitor.py: the memory of one generation's buffer stays bounded.
use turbohaul_manager_rocm.Prelude.{
  ℕ, zero, suc, ◌-◌, ◌≤◌, ◌<◌, false, Option, none, some, List, [], ◌∷◌, ◌++◌, map, ltb, eqb,
  length, length-append, drop, arith, ◌≡◌, inl, inr, Bool-cases, All,
}
use turbohaul_manager_rocm.Live.{Subscriber, GenBuf, reframe}
use turbohaul_manager_rocm.Live.Buffer.{put, last_bytes, append_piece, fed, consume, consume_frame}

length-drop-bytes : (n : ℕ) (xs : List ℕ) → length (drop n xs) ≡ length xs - n
length-drop-bytes zero xs = omega arith
length-drop-bytes (suc n) [] = omega arith
length-drop-bytes (suc n) (x ∷ xs) = omega (arith, length-drop-bytes n xs)

-- The tail is within its cap, and no subscriber's queue is over 512 items.
pub record IsBounded (tail_bytes : ℕ) (b : GenBuf) : Type 0 where
  pub short_tail : length b.tail ≤ tail_bytes
  pub short_queues : All (λ (s : Subscriber). length s.pending ≤ 512) b.subs

put_bounded :
    (x : Option (List ℕ)) (s : Subscriber) → length s.pending ≤ 512 → length (put x s).pending ≤ 512
put_bounded x s h = elim (Bool-cases (ltb (length s.pending) 512)) [
  | inl room ↦ rw room (ground (arith, length-append s.pending (x ∷ [])))
  | inr full ↦ rw full h
]

puts_bounded :
    (x : Option (List ℕ)) (ss : List Subscriber)
    → All (λ (s : Subscriber). length s.pending ≤ 512) ss
    → All (λ (s : Subscriber). length s.pending ≤ 512) (map (put x) ss)
puts_bounded x [] h = tt
puts_bounded x (s ∷ ss) (a, h) = (put_bounded x s a, puts_bounded x ss h)

last_bytes_bounded : (n : ℕ) (xs : List ℕ) → 0 < n → length (last_bytes n xs) ≤ n
last_bytes_bounded n xs h =
    let positive : eqb n 0 ≡ false = ground arith in
    rw positive (omega (arith, length-drop-bytes (length xs - n) xs))

appended :
    (n : ℕ) (piece : List ℕ) (b : GenBuf)
    → 0 < n
    → IsBounded n b
    → IsBounded n (append_piece n piece b)
unfolding append_piece
appended n piece b h v = record {
  short_tail = last_bytes_bounded n (b.tail ++ piece) h;
  short_queues = puts_bounded (some piece) b.subs v.short_queues;
}

module _ (text_of : List ℕ → Option (List ℕ)) where
  consumed :
      (n : ℕ) (fs : List (List ℕ)) (b : GenBuf)
      → 0 < n
      → IsBounded n b
      → IsBounded n (consume text_of n fs b)
  consumed n [] b h v = v
  consumed n (f ∷ fs) b h v = consumed n fs (consume_frame text_of n f b) h (one (text_of f))
    where
      one :
          (o : Option (List ℕ))
          → IsBounded n (elim o [ none ↦ b | some piece ↦ append_piece n piece b ])
      one none = v
      one (some piece) = appended n piece b h v

  -- Feeding any bytes keeps a buffer bounded, for a cap of the tail above 0: the tail is within its
  -- cap, each subscriber's queue holds at most 512 items, and at most 65536 bytes are carried over.
  pub fed-IsBounded :
      (n : ℕ) (bytes : List ℕ) (b : GenBuf)
      → 0 < n
      → IsBounded n b
      → IsBounded n (fed text_of n bytes b) × (length (fed text_of n bytes b).carry ≤ 65536)
  unfolding reframe
  fed-IsBounded n bytes b h v =
      let inner = consumed n (reframe b.carry bytes).0 b h v in
      (record { short_tail = inner.short_tail; short_queues = inner.short_queues }, ground arith)
