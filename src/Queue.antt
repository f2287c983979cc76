-- ===== src/Queue.antt =====
-- queue.py, `TurbohaulQueue`: the capped staging queue behind a capped acceptance buffer. Both
-- deques are lists with the head on the left. Each method holds the queue's lock from its first
-- read to its last write, so a method is one function on the record; time is an argument.
pub mod Timers
pub mod Valid
pub mod Matching
pub mod Pops
pub mod Arrivals
pub mod Affinity
pub mod Fairness
pub mod Custody
mod Tests
use turbohaul_manager_rocm.Prelude.{
  ℕ, zero, suc, ◌+◌, ◌-◌, ◌==◌, String, Bool, true, false, not, ◌&&◌, ◌||◌, List, [], ◌∷◌, ◌++◌,
  Option, none, some, Result, ok, err, ◌>>=◌, if◌then◌else◌, ltb, leb, length,
}
use turbohaul_manager_rocm.Slot.{Slot, SlotState, accept_buffer, staged, state_eq, is_disconnected}
use turbohaul_manager_rocm.Fsm.{FsmError, transition}

pub record Queue : Type 0 where
  pub staging_max : ℕ
  pub acceptance_max : ℕ
  pub accept_buf : List Slot
  pub staging : List Slot
  pub closed : Bool
  pub max_consecutive_same_model : ℕ
  pub max_other_model_wait : ℕ
  pub consecutive_same_model : ℕ
  pub last_popped_model_tag : Option String

-- `QueueClosed`, `QueueFull`, and an `InvalidTransition` that passes through.
pub data QueueError : Type 0 where
  queue_closed queue_full : QueueError
  fsm : FsmError → QueueError

unfoldable pub init : ℕ → ℕ → ℕ → ℕ → Queue
init staging_max acceptance_max max_consecutive max_wait = record {
  staging_max = staging_max;
  acceptance_max = acceptance_max;
  accept_buf = [];
  staging = [];
  closed = false;
  max_consecutive_same_model = max_consecutive;
  max_other_model_wait = max_wait;
  consecutive_same_model = 0;
  last_popped_model_tag = none;
}

abbrev pub lift_fsm {ℓ} : {A : Type ℓ} → Result FsmError A → Result QueueError A
lift_fsm (ok a) = ok a
lift_fsm (err e) = err (fsm e)

pub enqueue : Slot → Queue → Result QueueError Queue
enqueue slot q =
    if q.closed
    then err queue_closed
    else if ltb (length q.staging) q.staging_max
    then (lift_fsm (transition slot staged) >>= λ s.
        ok (record q { staging = q.staging ++ s ∷ [] }))
    else if leb q.acceptance_max (length q.accept_buf)
    then err queue_full
    else (lift_fsm (transition slot accept_buffer) >>= λ s.
        ok (record q { accept_buf = q.accept_buf ++ s ∷ [] }))

-- `if disconnect_event is not None and disconnect_event.is_set(): slot.is_evicted = True`
pub flag_evicted : Slot → Slot
flag_evicted s = if is_disconnected s.disconnect_event then record s { is_evicted = true } else s

-- The first slot that the bounded loop examines is returned on either branch of its test, so the
-- loop ends in its first round. A result carries what is left of the buffer.
pub pop_first_non_evicted_from : ℕ → List Slot → Option (Slot × List Slot)
pop_first_non_evicted_from zero buf = none
pop_first_non_evicted_from (suc n) [] = none
pop_first_non_evicted_from (suc n) (s ∷ rest) = some (flag_evicted s, rest)

abbrev pub max_drain : ℕ
max_drain = 10

abbrev pub keep_head : Slot → Option (Slot × List Slot) → Option (Slot × List Slot)
keep_head s none = none
keep_head s (some (found, rest)) = some (found, s ∷ rest)

pub pop_first_matching_non_evicted_from : String → ℕ → List Slot → Option (Slot × List Slot)
pop_first_matching_non_evicted_from tag zero buf = none
pop_first_matching_non_evicted_from tag (suc n) [] = none
pop_first_matching_non_evicted_from tag (suc n) (s ∷ rest) =
    if s.model_tag == tag
    then some (flag_evicted s, rest)
    else keep_head s (pop_first_matching_non_evicted_from tag n rest)

-- `_update_run_length_locked`
abbrev pub tag_eq : Option String → String → Bool
tag_eq none t = false
tag_eq (some s) t = t == s

pub update_run_length : Option Slot → Queue → Queue
update_run_length none q = q
update_run_length (some s) q = record q {
  consecutive_same_model =
      if tag_eq q.last_popped_model_tag s.model_tag then q.consecutive_same_model + 1 else 1;
  last_popped_model_tag = some s.model_tag;
}

-- Moves one slot from the buffer to the end of staging, if there is one and there is room.
replenish_from : List Slot → Queue → Result QueueError Queue
replenish_from [] q = ok q
replenish_from (t ∷ rest) q =
    if ltb (length q.staging) q.staging_max
    then (lift_fsm (transition t staged) >>= λ s.
        ok (record q { staging = q.staging ++ s ∷ []; accept_buf = rest }))
    else ok q

pub replenish : Queue → Result QueueError Queue
unfolding replenish_from
replenish q = replenish_from q.accept_buf q

-- `while self._accept_buf and len(self._staging) < self.staging_max`
drain_into : List Slot → Queue → Result QueueError Queue
drain_into [] q = ok q
drain_into (t ∷ rest) q =
    let go = λ (s : Slot).
      drain_into rest (record q { staging = q.staging ++ s ∷ []; accept_buf = rest }) in
    if ltb (length q.staging) q.staging_max then (lift_fsm (transition t staged) >>= go) else ok q

pub drain_buffer : Queue → Result QueueError Queue
unfolding drain_into
drain_buffer q = drain_into q.accept_buf q

abbrev pub with_staging : Queue → List Slot → Queue
with_staging q rest = record q { staging = rest }

-- Returns the popped slot and finishes with the run length.
abbrev pub popped_from : Queue → Option (Slot × List Slot) → Option Slot × Queue
popped_from q none = (none, q)
popped_from q (some (s, rest)) = (some s, update_run_length (some s) (with_staging q rest))

abbrev pub after_pop : Queue → Slot → List Slot → Result QueueError (Option Slot × Queue)
after_pop q s rest =
    replenish (with_staging q rest) >>= λ r. ok (some s, update_run_length (some s) r)

-- The FIFO path of `pop_next`.
pub pop_fifo : Queue → Result QueueError (Option Slot × Queue)
pop_fifo q = elim (pop_first_non_evicted_from max_drain q.staging) [
  | some (s, rest) ↦ after_pop q s rest
  | none ↦
      drain_buffer q >>= λ d. ok (popped_from d (pop_first_non_evicted_from max_drain d.staging))
]

-- The model-affinity path of `pop_next`, from the choice of the slot on.
abbrev pub choose_affine : Queue → Bool → String → Option (Slot × List Slot)
choose_affine q forced warm =
    if forced
    then pop_first_non_evicted_from max_drain q.staging
    else elim (pop_first_matching_non_evicted_from warm q.staging_max q.staging) [
      | some r ↦ some r
      | none ↦ pop_first_non_evicted_from max_drain q.staging
    ]

pub head_starved : Queue → ℕ → String → Slot → Bool
head_starved q now warm head =
    not (head.model_tag == warm) && ltb q.max_other_model_wait (now - head.created_at)

pub batch_cap_hit : Queue → Bool
batch_cap_hit q = leb q.max_consecutive_same_model q.consecutive_same_model

pub pop_affine : Queue → Bool → String → Result QueueError (Option Slot × Queue)
pop_affine q forced warm = elim (choose_affine q forced warm) [
  | some (s, rest) ↦ after_pop q s rest
  | none ↦ ok (none, q)
]

pop_dispatch : ℕ → Option String → List Slot → Queue → Result QueueError (Option Slot × Queue)
pop_dispatch now none staging q = pop_fifo q
pop_dispatch now (some warm) [] q = pop_fifo q
pop_dispatch now (some warm) (head ∷ rest) q =
    pop_affine q (head_starved q now warm head || batch_cap_hit q) warm

unfoldable pub pop_next : ℕ → Option String → Queue → Result QueueError (Option Slot × Queue)
unfolding pop_dispatch
pop_next now warm_model_tag q = pop_dispatch now warm_model_tag q.staging q

unfoldable pub enqueue_head : Slot → Queue → Result QueueError Queue
enqueue_head slot q =
    if q.closed
    then err queue_closed
    else if state_eq slot.state staged
    then ok (record q { staging = slot ∷ q.staging })
    else (lift_fsm (transition slot staged) >>= λ s. ok (record q { staging = s ∷ q.staging }))
