-- ===== src/Queue/Arrivals.antt =====
-- queue.py, `enqueue` and `enqueue_head`: where a new slot stands in the order of service.
use mathlib.Core.List.{append-nil, append_assoc}
use turbohaul_manager_rocm.Prelude.{
  suc, ◌≤◌, ◌<◌, String, true, false, List, [], ◌∷◌, ◌++◌, ok, err, ltb, leb, length, All-append,
  arith, ◌≡◌, refl, ap, ◌∙◌, sym, ◌⊎◌, inl, inr, Bool-cases, length-append, subst, leb→le, ltb→lt,
}
use turbohaul_manager_rocm.Slot.{Slot, accept_buffer, staged, received}
use turbohaul_manager_rocm.Fsm.{transition}
use turbohaul_manager_rocm.Queue.{Queue, queue_closed, queue_full, enqueue, enqueue_head}
use turbohaul_manager_rocm.Queue.Valid.{IsValid, IsTight, ids, order}

-- A fresh slot may enter either tier.
fresh_to :
    (s : Slot)
    → s.state ≡ received
    → (transition s staged ≡ ok (record s { state = staged }))
      × (transition s accept_buffer ≡ ok (record s { state = accept_buffer }))
unfolding transition
fresh_to s e = (ground arith, ground arith)

abbrev staged_last : Queue → Slot → Queue
staged_last q s = record q { staging = q.staging ++ record s { state = staged } ∷ [] }

abbrev buffered_last : Queue → Slot → Queue
buffered_last q s = record q {
  accept_buf = q.accept_buf ++ record s { state = accept_buffer } ∷ [];
}

-- What a successful `enqueue` makes of the queue.
pub record Entered (q : Queue) (s : Slot) (r : Queue) : Type 0 where
  pub valid : IsValid r
  pub arrives_last : IsTight q → order r ≡ order q ++ s.slot_id ∷ []
  pub keeps_tight : IsTight q → IsTight r
  pub overtakes :
      length q.staging < q.staging_max → order r ≡ ids q.staging ++ s.slot_id ∷ ids q.accept_buf
  pub same_max : r.staging_max ≡ q.staging_max
  pub same_cap : r.max_consecutive_same_model ≡ q.max_consecutive_same_model
  pub same_run : r.consecutive_same_model ≡ q.consecutive_same_model
  pub same_last : r.last_popped_model_tag ≡ q.last_popped_model_tag

ids-append : (xs ys : List Slot) → ids (xs ++ ys) ≡ ids xs ++ ids ys
ids-append [] ys = refl
ids-append (x ∷ xs) ys = ap (◌∷◌ x.slot_id) (ids-append xs ys)

staged_last-order :
    (q : Queue) (s : Slot) → order (staged_last q s) ≡ ids q.staging ++ s.slot_id ∷ ids q.accept_buf
staged_last-order q s = simp (ids-append, append_assoc)

room_tight : (q : Queue) → length q.staging < q.staging_max → IsTight q → q.accept_buf ≡ []
room_tight q room (inl b) = b
room_tight q room (inr full) = absurd (omega arith)

last_of_empty :
    (xs ys : List Slot) (i : String) → ys ≡ [] → ids xs ++ i ∷ ids ys ≡ ids (xs ++ ys) ++ i ∷ []
last_of_empty xs ys i e = rw e (simp (ids-append, append-nil))

staged_last-Entered :
    (q : Queue) (s : Slot)
    → length q.staging < q.staging_max
    → IsValid q
    → Entered q s (staged_last q s)
staged_last-Entered q s room v = record {
  valid = record {
    staging_staged =
        All-append (λ (t : Slot). t.state ≡ staged) q.staging _ v.staging_staged (refl, tt);
    buffer_accepted = v.buffer_accepted;
    buffer_bounded = v.buffer_bounded;
  };
  arrives_last = λ t.
      staged_last-order q s ∙ last_of_empty q.staging q.accept_buf s.slot_id (room_tight q room t);
  keeps_tight = λ t. inl (room_tight q room t);
  overtakes = λ h. staged_last-order q s;
  same_max = refl;
  same_cap = refl;
  same_run = refl;
  same_last = refl;
}

buffered_last-Entered :
    (q : Queue) (s : Slot)
    → q.staging_max ≤ length q.staging
    → length q.accept_buf < q.acceptance_max
    → IsValid q
    → Entered q s (buffered_last q s)
buffered_last-Entered q s full room v = record {
  valid = record {
    staging_staged = v.staging_staged;
    buffer_accepted =
        All-append (λ (t : Slot). t.state ≡ accept_buffer) q.accept_buf _ v.buffer_accepted
          (refl, tt);
    buffer_bounded =
        omega (arith, length-append q.accept_buf (record s { state = accept_buffer } ∷ []));
  };
  arrives_last = λ t. simp (ids-append, append_assoc);
  keeps_tight = λ t. inr full;
  overtakes = λ h. absurd (omega arith);
  same_max = refl;
  same_cap = refl;
  same_run = refl;
  same_last = refl;
}

-- `enqueue` of a fresh slot into a valid queue raises QueueClosed exactly after `close`, else
-- QueueFull exactly when both tiers are at their caps, and otherwise yields a valid queue. If no
-- slot waits in the buffer while staging has room, the slot comes last in the order of service; if
-- staging has room, it comes before every slot of the buffer.
pub enqueue-Entered :
    (q : Queue) (s : Slot)
    → s.state ≡ received
    → IsValid q
    → ((q.closed ≡ true) × (enqueue s q ≡ err queue_closed))
      ⊎ ((q.closed ≡ false)
          × (q.staging_max ≤ length q.staging)
          × (q.acceptance_max ≤ length q.accept_buf)
          × (enqueue s q ≡ err queue_full))
      ⊎ ((q.closed ≡ false) × ((r : Queue) × (enqueue s q ≡ ok r) × Entered q s r))
unfolding enqueue
enqueue-Entered q s e v = elim (Bool-cases q.closed) [
  | inl c ↦ inl (c, rw (c, enqueue))
  | inr c ↦ elim (Bool-cases (ltb (length q.staging) q.staging_max)) [
    | inl h ↦ inr (
        inr (
          c,
          (staged_last q s, rw (c, h, (fresh_to s e).0), staged_last-Entered q s (ltb→lt _ _ h) v),
        ))
    | inr h ↦ elim (Bool-cases (leb q.acceptance_max (length q.accept_buf))) [
      | inl k ↦ inr (inl (c, ground arith, leb→le _ _ k, rw (c, h, k)))
      | inr k ↦ inr (
          inr (
            c,
            (
              buffered_last q s,
              rw (c, h, k, (fresh_to s e).1),
              buffered_last-Entered q s (ground arith) (ground arith) v,
            ),
          ))
    ]
  ]
]

-- The outcome of `enqueue` on success.
pub entered :
    (q r : Queue) (s : Slot) → IsValid q → s.state ≡ received → enqueue s q ≡ ok r → Entered q s r
entered q r s v e done = elim (enqueue-Entered q s e v) [
  | inl (_, failed) ↦ absurd (let x : err queue_closed ≡ ok r = sym failed ∙ done in cc)
  | inr (inl (_, _, _, failed)) ↦ absurd (let x : err queue_full ≡ ok r = sym failed ∙ done in cc)
  | inr (inr (_, (r', done', en))) ↦ let same : r' ≡ r = cc in subst (Entered q s) same en
]

-- `enqueue_head` on an open queue puts a slot that is fresh, buffered or already staged before all
-- others, whatever the caps, and the queue stays valid and stays tight.
pub enqueue_head_lem :
    (q : Queue) (s : Slot)
    → q.closed ≡ false
    → (s.state ≡ received) ⊎ (s.state ≡ accept_buffer) ⊎ (s.state ≡ staged)
    → IsValid q
    → (r : Queue) × (enqueue_head s q ≡ ok r)
      × IsValid r
      × (order r ≡ s.slot_id ∷ order q)
      × (length r.staging ≡ suc (length q.staging))
      × (IsTight q → IsTight r)
unfolding enqueue_head transition
enqueue_head_lem q s c e v = (
  record q { staging = record s { state = staged } ∷ q.staging },
  ground arith,
  record {
    staging_staged = (refl, v.staging_staged);
    buffer_accepted = v.buffer_accepted;
    buffer_bounded = v.buffer_bounded;
  },
  refl,
  refl,
  λ t. ground arith,
)
