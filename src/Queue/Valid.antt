-- ===== src/Queue/Valid.antt =====
-- queue.py: what holds of the two deques between two calls, and what each call keeps of it.
use turbohaul_manager_rocm.Prelude.{
  ◌≤◌, String, List, [], ◌∷◌, ◌++◌, map, ok, ltb, length, length-append, All, All-append, arith,
  ◌≡◌, refl, ap, ◌∙◌, sym, subst, ◌⊎◌, inl, inr, Bool-cases,
}
use turbohaul_manager_rocm.Slot.{Slot, SlotState, accept_buffer, staged}
use turbohaul_manager_rocm.Fsm.{transition}
use turbohaul_manager_rocm.Queue.{Queue, replenish, replenish_from, drain_into, drain_buffer}

abbrev pub AllIn : SlotState → List Slot → Type 0
AllIn state = All (λ (s : Slot). s.state ≡ state)

pub record IsValid (q : Queue) : Type 0 where
  pub staging_staged : AllIn staged q.staging
  pub buffer_accepted : AllIn accept_buffer q.accept_buf
  pub buffer_bounded : length q.accept_buf ≤ q.acceptance_max

-- The ids in the order of service: staging, then the acceptance buffer.
abbrev pub ids : List Slot → List String
ids = map λ (s : Slot). s.slot_id

abbrev pub order : Queue → List String
order q = ids (q.staging ++ q.accept_buf)

-- No slot waits in the buffer while staging has room.
abbrev pub IsTight : Queue → Type 0
IsTight q = (q.accept_buf ≡ []) ⊎ (q.staging_max ≤ length q.staging)

pub buffered_to_staged :
    (s : Slot) → s.state ≡ accept_buffer → transition s staged ≡ ok (record s { state = staged })
unfolding transition
buffered_to_staged s e = ground arith

-- What a refill of staging from the buffer keeps.
pub record Refill (q r : Queue) : Type 0 where
  pub valid : IsValid r
  pub same_order : order r ≡ order q
  pub same_max : r.staging_max ≡ q.staging_max
  pub same_acceptance : r.acceptance_max ≡ q.acceptance_max
  pub same_closed : r.closed ≡ q.closed
  pub same_cap : r.max_consecutive_same_model ≡ q.max_consecutive_same_model
  pub same_run : r.consecutive_same_model ≡ q.consecutive_same_model
  pub same_last : r.last_popped_model_tag ≡ q.last_popped_model_tag
  pub keeps_tight : IsTight q → IsTight r

Refill-refl : (q : Queue) → IsValid q → Refill q q
Refill-refl q v = record {
  valid = v;
  same_order = refl;
  same_max = refl;
  same_acceptance = refl;
  same_closed = refl;
  same_cap = refl;
  same_run = refl;
  same_last = refl;
  keeps_tight = λ t. t;
}

Refill-trans : {p q r : Queue} → Refill p q → Refill q r → Refill p r
Refill-trans a b = record {
  valid = b.valid;
  same_order = b.same_order ∙ a.same_order;
  same_max = b.same_max ∙ a.same_max;
  same_acceptance = b.same_acceptance ∙ a.same_acceptance;
  same_closed = b.same_closed ∙ a.same_closed;
  same_cap = b.same_cap ∙ a.same_cap;
  same_run = b.same_run ∙ a.same_run;
  same_last = b.same_last ∙ a.same_last;
  keeps_tight = λ t. b.keeps_tight (a.keeps_tight t);
}

-- One slot goes from the head of the buffer to the end of staging.
abbrev moved : Queue → Slot → List Slot → Queue
moved q t rest = record q {
  staging = q.staging ++ record t { state = staged } ∷ [];
  accept_buf = rest;
}

moved-order :
    (xs ys : List Slot) (t : Slot)
    → ids ((xs ++ record t { state = staged } ∷ []) ++ ys) ≡ ids (xs ++ t ∷ ys)
moved-order [] ys t = refl
moved-order (x ∷ xs) ys t = ap (◌∷◌ x.slot_id) (moved-order xs ys t)

moved-IsTight :
    (q : Queue) (t : Slot) (rest : List Slot)
    → q.accept_buf ≡ t ∷ rest
    → IsTight q
    → IsTight (moved q t rest)
moved-IsTight q t rest e (inl b) = absurd (let e' : [] ≡ t ∷ rest = sym b ∙ e in cc)
moved-IsTight q t rest e (inr full) =
    inr (omega (arith, length-append q.staging (record t { state = staged } ∷ [])))

moved-Refill :
    (q : Queue) (t : Slot) (rest : List Slot)
    → q.accept_buf ≡ t ∷ rest
    → IsValid q
    → Refill q (moved q t rest)
moved-Refill q t rest e v = record {
  valid = record {
    staging_staged =
        All-append (λ (s : Slot). s.state ≡ staged) q.staging _ v.staging_staged (refl, tt);
    buffer_accepted = accepted.1;
    buffer_bounded = omega (arith, ap length e);
  };
  same_order = moved-order q.staging rest t ∙ ap (λ (b : List Slot). ids (q.staging ++ b)) (sym e);
  same_max = refl;
  same_acceptance = refl;
  same_closed = refl;
  same_cap = refl;
  same_run = refl;
  same_last = refl;
  keeps_tight = moved-IsTight q t rest e;
}
  where
    accepted : AllIn accept_buffer (t ∷ rest)
    accepted = subst (AllIn accept_buffer) e v.buffer_accepted

head-accepted :
    (q : Queue) (t : Slot) (rest : List Slot)
    → q.accept_buf ≡ t ∷ rest
    → IsValid q
    → t.state ≡ accept_buffer
head-accepted q t rest e v = (subst (AllIn accept_buffer) e v.buffer_accepted).0

replenish_from_lem :
    (buf : List Slot) (q : Queue)
    → q.accept_buf ≡ buf
    → IsValid q
    → (r : Queue) × (replenish_from buf q ≡ ok r) × Refill q r
unfolding replenish_from
replenish_from_lem [] q e v = (q, refl, Refill-refl q v)
replenish_from_lem (t ∷ rest) q e v = elim (Bool-cases (ltb (length q.staging) q.staging_max)) [
  | inl h ↦ (
    moved q t rest,
    rw (h, buffered_to_staged t (head-accepted q t rest e v)),
    moved-Refill q t rest e v,
  )
  | inr h ↦ (q, rw h, Refill-refl q v)
]

-- In a valid queue the refill of one slot raises nothing.
pub replenish-Refill : (q : Queue) → IsValid q → (r : Queue) × (replenish q ≡ ok r) × Refill q r
unfolding replenish
replenish-Refill q v = replenish_from_lem q.accept_buf q refl v

-- What the drain of the whole buffer gives beyond a refill: it stops at an empty buffer or at the cap.
drain_into_lem :
    (buf : List Slot) (q : Queue)
    → q.accept_buf ≡ buf
    → IsValid q
    → (r : Queue) × (drain_into buf q ≡ ok r) × Refill q r × IsTight r
unfolding drain_into
drain_into_lem [] q e v = (q, refl, Refill-refl q v, inl e)
drain_into_lem (t ∷ rest) q e v = elim (Bool-cases (ltb (length q.staging) q.staging_max)) [
  | inl h ↦
      let step = moved-Refill q t rest e v in
      let (r, done, more, tight) = drain_into_lem rest (moved q t rest) refl step.valid in
      (
        r,
        rw (h, buffered_to_staged t (head-accepted q t rest e v)) done,
        Refill-trans step more,
        tight,
      )
  | inr h ↦ (q, rw h, Refill-refl q v, inr (ground arith))
]

pub drain_buffer-Refill :
    (q : Queue) → IsValid q → (r : Queue) × (drain_buffer q ≡ ok r) × Refill q r × IsTight r
unfolding drain_buffer
drain_buffer-Refill q v = drain_into_lem q.accept_buf q refl v
