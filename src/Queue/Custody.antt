-- ===== src/Queue/Custody.antt =====
-- queue.py: the methods that take a slot out of the middle, and the shutdown, lose no slot.
use mathlib.Core.Option
use turbohaul_manager_rocm.Prelude.{
  suc, ◌≤◌, ◌<◌, ◌==◌, String, Bool, true, false, List, [], ◌∷◌, ◌++◌, Option, none, some, ok, err,
  arith, ◌≡◌, refl, ap, ◌∙◌, sym, ◌⊎◌, inl, inr, ◌≢◌, Bool-cases, subst, All, length, length-append,
  eq_iff,
}
use turbohaul_manager_rocm.Slot.{Slot, received}
use turbohaul_manager_rocm.Queue.{
  Queue, flag_evicted, enqueue, enqueue_head, queue_closed, keep_head,
}
use turbohaul_manager_rocm.Queue.Valid.{IsValid, ids, order}
use turbohaul_manager_rocm.Queue.Pops.{without-IsValid}
use turbohaul_manager_rocm.Queue.Arrivals.{entered}
use turbohaul_manager_rocm.Queue.Matching.{
  is_match, find_match, find_matched_thread, take_match, pop_matched_thread, take_id, close,
}

-- The first slot of the list that passes the test, taken out of the middle.
abbrev TakesFirst : (Slot → Bool) → (Slot → Slot) → List Slot → Option (Slot × List Slot) → Type 0
TakesFirst test mark st r =
    ((r ≡ none) × All (λ (s : Slot). test s ≡ false) st)
    ⊎ ((before : List Slot) × (s : Slot) × (after : List Slot) × (st ≡ before ++ s ∷ after)
        × (test s ≡ true)
        × All (λ (t : Slot). test t ≡ false) before
        × (r ≡ some (mark s, before ++ after)))

TakesFirst-keep_head :
    (test : Slot → Bool) (mark : Slot → Slot) (s : Slot) (st : List Slot)
    (r : Option (Slot × List Slot))
    → test s ≡ false
    → TakesFirst test mark st r
    → TakesFirst test mark (s ∷ st) (keep_head s r)
TakesFirst-keep_head test mark s st r h (inl (e, all)) = inl (rw e refl, (h, all))
TakesFirst-keep_head test mark s st r h (inr (b, t, a, e, m, all, f)) =
    inr (s ∷ b, t, a, ap (◌∷◌ s) e, m, (h, all), rw f refl)

take_match-TakesFirst :
    (thread model : String) (st : List Slot)
    → TakesFirst (is_match thread model) flag_evicted st (take_match thread model st)
unfolding take_match
take_match-TakesFirst thread model [] = inl (refl, tt)
take_match-TakesFirst thread model (s ∷ st) = elim (Bool-cases (is_match thread model s)) [
  | inl h ↦ inr ([], s, st, refl, h, tt, rw h)
  | inr h ↦
      let step : take_match thread model (s ∷ st) ≡ keep_head s (take_match thread model st) =
        rw h in
      subst (TakesFirst (is_match thread model) flag_evicted (s ∷ st)) (sym step) (
        TakesFirst-keep_head (is_match thread model) flag_evicted s st (take_match thread model st)
          h (take_match-TakesFirst thread model st))
]

take_id-TakesFirst :
    (i : String) (st : List Slot)
    → TakesFirst (λ (s : Slot). s.slot_id == i) (λ (s : Slot). s) st (take_id i st)
unfolding take_id
take_id-TakesFirst i [] = inl (refl, tt)
take_id-TakesFirst i (s ∷ st) = elim (Bool-cases (s.slot_id == i)) [
  | inl h ↦ inr ([], s, st, refl, h, tt, rw h)
  | inr h ↦
      let step : take_id i (s ∷ st) ≡ keep_head s (take_id i st) = rw h in
      subst (TakesFirst (λ (x : Slot). x.slot_id == i) (λ (x : Slot). x) (s ∷ st)) (sym step) (
        TakesFirst-keep_head (λ (x : Slot). x.slot_id == i) (λ (x : Slot). x) s st (take_id i st) h
          (take_id-TakesFirst i st))
]

-- The atomic pop finds what the read-only lookup finds, up to the eviction mark.
take_match-find :
    (thread model : String) (st : List Slot)
    → (find_match thread model st ≡ none) × (take_match thread model st ≡ none)
      ⊎ ((s : Slot) × (rest : List Slot) × (find_match thread model st ≡ some s)
          × (take_match thread model st ≡ some (flag_evicted s, rest)))
unfolding take_match find_match
take_match-find thread model [] = inl (refl, refl)
take_match-find thread model (s ∷ st) = elim (Bool-cases (is_match thread model s)) [
  | inl h ↦ inr (s, st, rw h, rw h)
  | inr h ↦ elim (take_match-find thread model st) [
    | inl (f, t) ↦ inl (rw (h, f), rw (h, t))
    | inr (x, rest, f, t) ↦ inr (x, s ∷ rest, rw (h, f), rw (h, t))
  ]
]

pub record Matched (thread model : String) (q : Queue) (o : Option Slot) (r : Queue) : Type 0 where
  pub before : List Slot
  pub taken : Slot
  pub after : List Slot
  pub splits : q.staging ≡ before ++ taken ∷ after
  pub matches : is_match thread model taken ≡ true
  pub first : All (λ (s : Slot). is_match thread model s ≡ false) before
  pub handed : o ≡ some (flag_evicted taken)
  pub left : r ≡ record q { staging = before ++ after }
  pub valid : IsValid r

-- `pop_matched_thread` for a thread id that is not empty, on a valid queue, either finds no slot of
-- the thread and the model in staging and changes nothing, or takes the first such slot out of
-- staging, marks it if its client has gone, and leaves the other slots valid and in their order.
pub pop_matched_thread-Matched :
    (thread model : String) (q : Queue)
    → IsValid q
    → thread ≢ ""
    → ((pop_matched_thread thread model q ≡ (none, q))
        × All (λ (s : Slot). is_match thread model s ≡ false) q.staging)
      ⊎ ((o : Option Slot) × (r : Queue) × (pop_matched_thread thread model q ≡ (o, r))
          × Matched thread model q o r)
unfolding pop_matched_thread
pop_matched_thread-Matched thread model q v named =
    let known : (thread == "") ≡ false = ground (arith, eq_iff thread "") in
    elim (take_match-TakesFirst thread model q.staging) [
      | inl (e, others) ↦ inl (rw (known, e), others)
      | inr (b, s, a, e, m, others, found) ↦ inr (
        some (flag_evicted s),
        record q { staging = b ++ a },
        rw (known, found),
        record {
          before = b;
          taken = s;
          after = a;
          splits = e;
          matches = m;
          first = others;
          handed = refl;
          left = refl;
          valid = without-IsValid q b a s e v;
        },
      )
    ]

-- The atomic pop and the read-only lookup agree: on the same queue both find nothing, or the pop
-- hands out the slot that the lookup finds, marked if its client has gone.
pub pop_matched_thread-find :
    (thread model : String) (q : Queue)
    → (pop_matched_thread thread model q).0
      ≡ Option.map flag_evicted (find_matched_thread thread model q)
unfolding pop_matched_thread find_matched_thread
pop_matched_thread-find thread model q = elim (Bool-cases (thread == "")) [
  | inl h ↦ rw h
  | inr h ↦ elim (take_match-find thread model q.staging) [
    | inl (f, t) ↦ rw (h, f, t)
    | inr (s, rest, f, t) ↦ rw (h, f, t)
  ]
]

Matched-length :
    {thread model : String} {q r : Queue} {o : Option Slot}
    → Matched thread model q o r
    → (suc (length r.staging) ≡ length q.staging)
      × (r.accept_buf ≡ q.accept_buf)
      × (r.staging_max ≡ q.staging_max)
Matched-length {q = q} {r = r} m = (
  omega (
    arith,
    ap (λ (x : Queue). length x.staging) m.left,
    ap length m.splits,
    length-append m.before (m.taken ∷ m.after),
    length-append m.before m.after,
  ),
  ap (λ (x : Queue). x.accept_buf) m.left,
  ap (λ (x : Queue). x.staging_max) m.left,
)

-- When staging holds no more than its cap, a `pop_matched_thread` that hands out a slot takes it from
-- staging and leaves the buffer as it is, with no refill: the next fresh slot to enter goes before every
-- slot that waits in the buffer, so before slots that came earlier.
pub enqueue_overtakes :
    (thread model : String) (q r t : Queue) (taken s : Slot)
    → IsValid q
    → thread ≢ ""
    → length q.staging ≤ q.staging_max
    → pop_matched_thread thread model q ≡ (some taken, r)
    → s.state ≡ received
    → enqueue s r ≡ ok t
    → (suc (length r.staging) ≡ length q.staging)
      × (r.accept_buf ≡ q.accept_buf)
      × (order t ≡ ids r.staging ++ s.slot_id ∷ ids q.accept_buf)
enqueue_overtakes thread model q r t taken s v named full popped fresh done =
    elim (pop_matched_thread-Matched thread model q v named) [
      | inl (nothing, others) ↦
          absurd (let clash : some taken ≡ none = ap (λ x. x.0) (sym popped ∙ nothing) in cc)
      | inr (o, r', popped', m') ↦
          let same : Path (Option Slot × Queue) (o, r') (some taken, r) = sym popped' ∙ popped in
          let m = subst (λ x. Matched thread model q x.0 x.1) same m' in
          let (fewer, same_buffer, same_max) = Matched-length m in
          let came = entered r t s m.valid fresh done in
          let room : length r.staging < r.staging_max = omega (arith, fewer, same_max) in
          (
            fewer,
            same_buffer,
            came.overtakes room
                ∙ ap (λ (b : List Slot). ids r.staging ++ s.slot_id ∷ ids b) same_buffer,
          )
    ]

-- `close` returns every waiting slot, in the order of service, and from then on both ways into the
-- queue raise QueueClosed.
pub close_lem :
    (q : Queue) (s : Slot)
    → (ids (close q).0 ≡ order q)
      × (order (close q).1 ≡ [])
      × (enqueue s (close q).1 ≡ err queue_closed)
      × (enqueue_head s (close q).1 ≡ err queue_closed)
unfolding close enqueue enqueue_head
close_lem q s = (refl, refl, refl, refl)
