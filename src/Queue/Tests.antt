-- ===== src/Queue/Tests.antt =====
-- The queue at concrete inputs: staging of two, full, and one slot in the buffer.
use turbohaul_manager_rocm.Prelude.{
  suc, ◌≤◌, String, true, false, [], ◌∷◌, Option, none, some, ok, err, arith, ◌≡◌, refl, ◌⊎◌,
  eq_iff, All, length, ◌≢◌,
}
use turbohaul_manager_rocm.Slot.{Slot, SlotState, received, staged, accept_buffer}
use turbohaul_manager_rocm.Fsm.{transition}
use turbohaul_manager_rocm.Queue.{
  Queue, queue_closed, queue_full, pop_fifo, pop_next, enqueue, flag_evicted, pop_dispatch,
  pop_affine, head_starved, batch_cap_hit, pop_first_matching_non_evicted_from, replenish,
  replenish_from, update_run_length,
}
use turbohaul_manager_rocm.Queue.Valid.{IsValid, order}
use turbohaul_manager_rocm.Queue.Pops.{FifoPop, pop_fifo-FifoPop}
use turbohaul_manager_rocm.Queue.Arrivals.{Entered, enqueue-Entered}
use turbohaul_manager_rocm.Queue.Affinity.{AffinePop, pop_next-AffinePop}
use turbohaul_manager_rocm.Queue.Fairness.{Skips, start, skip, skips_bounded}
use turbohaul_manager_rocm.Queue.Matching.{pop_matched_thread, is_match, take_match}
use turbohaul_manager_rocm.Queue.Custody.{Matched, pop_matched_thread-Matched, enqueue_overtakes}
use turbohaul_manager_rocm.Queue.Timers.{
  matches, followups, matches-followups_bounded, matches_iff, GraceTimer,
}
use turbohaul_manager_rocm.Queue.Timers

abbrev slot : String → String → String → SlotState → Slot
slot i model thread state = record {
  slot_id = i;
  model_tag = model;
  state = state;
  prompt = "hello";
  thread_id = thread;
  port = none;
  pid = none;
  extension_count = 0;
  created_at = 100;
  started_active_at = 0;
  grace_started_at = 0;
  completion_future = none;
  disconnect_event = some false;
  is_evicted = false;
}

-- A slot for model "b" at the head, one for "a" behind it, and one in the buffer.
abbrev busy : Queue
busy = record {
  staging_max = 2;
  acceptance_max = 5;
  accept_buf = slot "s3" "a" "t3" accept_buffer ∷ [];
  staging = slot "s1" "b" "t1" staged ∷ slot "s2" "a" "t2" staged ∷ [];
  closed = false;
  max_consecutive_same_model = 3;
  max_other_model_wait = 20;
  consecutive_same_model = 1;
  last_popped_model_tag = some "a";
}

busy-IsValid : IsValid busy
busy-IsValid = record {
  staging_staged = (refl, (refl, tt));
  buffer_accepted = (refl, tt);
  buffer_bounded = omega arith;
}

abbrev fresh : Slot
fresh = slot "s4" "a" "t4" received

pop_fifo-FifoPop_example :
    (o : Option Slot) × (r : Queue) × (pop_fifo busy ≡ ok (o, r)) × FifoPop busy o r
pop_fifo-FifoPop_example = pop_fifo-FifoPop busy (omega arith) busy-IsValid

enqueue-Entered_example :
    ((busy.closed ≡ true) × (enqueue fresh busy ≡ err queue_closed))
    ⊎ ((busy.closed ≡ false)
        × (2 ≤ length busy.staging)
        × (5 ≤ length busy.accept_buf)
        × (enqueue fresh busy ≡ err queue_full))
    ⊎ ((busy.closed ≡ false) × ((r : Queue) × (enqueue fresh busy ≡ ok r) × Entered busy fresh r))
enqueue-Entered_example = enqueue-Entered busy fresh refl busy-IsValid

pop_next-AffinePop_example :
    (o : Option Slot) × (r : Queue) × (pop_next 110 (some "a") busy ≡ ok (o, r))
    × AffinePop busy 110 "a" (slot "s1" "b" "t1" staged) o r
pop_next-AffinePop_example =
    pop_next-AffinePop busy 110 "a" (slot "s1" "b" "t1" staged) (slot "s2" "a" "t2" staged ∷ [])
      busy-IsValid refl

abbrev capped : Queue
capped = record busy { consecutive_same_model = 3 }

-- The queue after the slot for "a" was preferred.
abbrev preferred : Queue
preferred = record busy {
  staging = slot "s1" "b" "t1" staged ∷ slot "s3" "a" "t3" staged ∷ [];
  accept_buf = [];
  consecutive_same_model = 2;
}

prefers_warm : pop_next 110 (some "a") busy ≡ ok (some (slot "s2" "a" "t2" staged), preferred)
unfolding pop_next pop_dispatch pop_affine head_starved batch_cap_hit
    pop_first_matching_non_evicted_from flag_evicted replenish replenish_from transition
    update_run_length
prefers_warm = refl

one_skip : Skips "a" busy 1 preferred
one_skip =
    skip 110 (slot "s1" "b" "t1" staged) (slot "s2" "a" "t2" staged)
      (slot "s2" "a" "t2" staged ∷ []) preferred start refl refl prefers_warm refl

skips_bounded_example : 1 ≤ busy.max_consecutive_same_model
skips_bounded_example = skips_bounded busy-IsValid one_skip

t2_named : ◌≢◌ {A = String} "t2" ""
t2_named = ground (arith, eq_iff "t2" "")

pop_matched_thread-Matched_example :
    ((pop_matched_thread "t2" "a" busy ≡ (none, busy))
      × All (λ (s : Slot). is_match "t2" "a" s ≡ false) busy.staging)
    ⊎ ((o : Option Slot) × (r : Queue) × (pop_matched_thread "t2" "a" busy ≡ (o, r))
        × Matched "t2" "a" busy o r)
pop_matched_thread-Matched_example = pop_matched_thread-Matched "t2" "a" busy busy-IsValid t2_named

abbrev matched_away : Queue
matched_away = record busy { staging = slot "s1" "b" "t1" staged ∷ [] }

-- "s4" now stands before "s3", which came earlier.
abbrev overtaken : Queue
overtaken = record busy { staging = slot "s1" "b" "t1" staged ∷ slot "s4" "a" "t4" staged ∷ [] }

takes_s2 : pop_matched_thread "t2" "a" busy ≡ (some (slot "s2" "a" "t2" staged), matched_away)
unfolding pop_matched_thread take_match flag_evicted
takes_s2 = refl

enters_staging : enqueue fresh matched_away ≡ ok overtaken
unfolding enqueue transition
enters_staging = refl

enqueue_overtakes_example :
    (suc (length matched_away.staging) ≡ length busy.staging)
    × (matched_away.accept_buf ≡ busy.accept_buf)
    × (order overtaken ≡ "s1" ∷ "s4" ∷ "s3" ∷ [])
enqueue_overtakes_example =
    enqueue_overtakes "t2" "a" busy matched_away overtaken (slot "s2" "a" "t2" staged) fresh
      busy-IsValid t2_named (omega arith) takes_s2 refl enters_staging

abbrev grace : GraceTimer
grace = record {
  grace_seconds = 30;
  max_extensions = 2;
  started_at = none;
  thread_id = none;
  model_tag = none;
  extension_count = 0;
}

follow_up_matches :
    matches 70 "t1" "a" (followups "t1" "a" (Timers.start 20 "t1" "a" grace) (45 ∷ [])) ≡ true
unfolding matches followups Timers.followup Timers.start
follow_up_matches = refl
