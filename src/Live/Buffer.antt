-- ===== src/Live/Buffer.antt =====
-- live_monitor.py: the operations of `LiveOutputBuffer` that the tee and the subscribers call.
use turbohaul_manager_rocm.Prelude.{
  ℕ, ◌-◌, String, Bool, true, not, ◌&&◌, Option, none, some, List, [], ◌∷◌, ◌++◌, map,
  if◌then◌else◌, ltb, leb, eqb, length, drop,
}
use turbohaul_manager_rocm.Live.{
  Subscriber, GenBuf, LiveOutputBuffer, max_subs_per_gen, find, pop, replace, is_watched,
  move_to_end, create_buf, reframe,
}

-- `put_nowait` on a queue with room for 512; a full one drops the item.
abbrev pub put : Option (List ℕ) → Subscriber → Subscriber
put x s = if ltb (length s.pending) 512 then record s { pending = s.pending ++ x ∷ [] } else s

-- `xs[-n:]`, which is the whole list for 0 as well.
abbrev pub last_bytes : ℕ → List ℕ → List ℕ
last_bytes n xs = if eqb n 0 then xs else drop (length xs - n) xs

-- `_append`
unfoldable pub append_piece : ℕ → List ℕ → GenBuf → GenBuf
append_piece tail_bytes piece b = record b {
  tail = last_bytes tail_bytes (b.tail ++ piece);
  subs = map (put (some piece)) b.subs;
}

module _ (text_of : List ℕ → Option (List ℕ)) where
  -- `_consume_frame`
  abbrev pub consume_frame : ℕ → List ℕ → GenBuf → GenBuf
  consume_frame tail_bytes f b = elim (text_of f) [
    | none ↦ b
    | some piece ↦ append_piece tail_bytes piece b
  ]

  abbrev pub consume : ℕ → List (List ℕ) → GenBuf → GenBuf
  consume tail_bytes [] b = b
  consume tail_bytes (f ∷ fs) b = consume tail_bytes fs (consume_frame tail_bytes f b)

  abbrev pub fed : ℕ → List ℕ → GenBuf → GenBuf
  fed tail_bytes bytes b =
      let (fs, left) = reframe b.carry bytes in record (consume tail_bytes fs b) { carry = left }

  -- `feed`; `none` is the exception of `_get`, after which the dict is unchanged.
  unfoldable pub feed : String → List ℕ → LiveOutputBuffer → Option LiveOutputBuffer
  unfolding append_piece reframe create_buf
  feed k bytes l = elim (find k l.buffers) [
    | some b ↦ some (record l { buffers = move_to_end k (fed l.tail_bytes bytes b) l.buffers })
    | none ↦ elim (create_buf k l) [
      | none ↦ none
      | some bs ↦ elim (find k bs) [
        | none ↦ none
        | some b ↦ some (record l { buffers = replace k (fed l.tail_bytes bytes b) bs })
      ]
    ]
  ]

-- `subscribe` without creation: the queue's id, the tail and the end flag.
unfoldable pub subscribe :
    String → ℕ → LiveOutputBuffer → (Option ℕ × List ℕ × Bool) × LiveOutputBuffer
subscribe k queue_id l = elim (find k l.buffers) [
  | none ↦ ((none, [], true), l)
  | some b ↦
      if leb max_subs_per_gen (length b.subs)
      then ((none, b.tail, b.done), record l { buffers = move_to_end k b l.buffers })
      else (
        (some queue_id, b.tail, b.done),
        record l {
          buffers =
              move_to_end k
                (record b { subs = b.subs ++ record { queue_id = queue_id; pending = [] } ∷ [] })
                l.buffers;
        },
      )
]

abbrev pub discard : ℕ → List Subscriber → List Subscriber
discard q [] = []
discard q (s ∷ ss) = if eqb s.queue_id q then ss else s ∷ discard q ss

unfoldable pub unsubscribe : String → ℕ → LiveOutputBuffer → LiveOutputBuffer
unsubscribe k queue_id l = elim (find k l.buffers) [
  | none ↦ l
  | some b ↦
      let c = record b { subs = discard queue_id b.subs } in
      if b.done && not (is_watched c)
      then record l { buffers = pop k l.buffers }
      else record l { buffers = replace k c l.buffers }
]

unfoldable pub mark_done : String → LiveOutputBuffer → LiveOutputBuffer
mark_done k l = elim (find k l.buffers) [
  | none ↦ l
  | some b ↦ record l {
    buffers = replace k (record b { done = true; subs = map (put none) b.subs }) l.buffers;
  }
]
