-- ===== src/FanOut/Tests.antt =====
-- manager.py: a burst with two places.
use turbohaul_manager_rocm.Prelude.{
  ℕ, ◌+◌, true, false, List, [], ◌∷◌, if◌then◌else◌, eqb, ◌≡◌, refl, arith,
}
use turbohaul_manager_rocm.FanOut.{
  Rider, Burst, Ended, Wake, admit, end_tasks, round, rounds, begin, fan_out,
}
use turbohaul_manager_rocm.FanOut.Full.{IsFull, fan_out-IsFull}
use turbohaul_manager_rocm.FanOut.Custody.{held, heard, times_waiting, fan_out-held}

abbrev rider : ℕ → Rider
rider s = record { slot_id = s; is_evicted = false }

abbrev good : ℕ → Ended
good s = record { slot_id = s; raised = false }

-- Slot 3 waits, slot 4 was evicted, slot 5 arrives in the middle of the burst and its task raises.
abbrev waiting : List Rider
waiting = rider 2 ∷ rider 3 ∷ record { slot_id = 4; is_evicted = true } ∷ []

abbrev wakes : List Wake
wakes =
    record { arrivals = rider 5 ∷ []; done = good 1 ∷ [] }
    ∷ record { arrivals = []; done = good 2 ∷ good 3 ∷ [] }
    ∷ record { arrivals = []; done = record { slot_id = 5; raised = true } ∷ [] }
    ∷ []

abbrev over : Burst
over = record {
  tasks = [];
  inflight = [];
  inbox = [];
  served = 3 ∷ 2 ∷ 1 ∷ [];
  failed = 5 ∷ 4 ∷ [];
}

fan_out-over : fan_out 2 1 waiting wakes ≡ over
unfolding fan_out rounds begin round admit end_tasks
fan_out-over = refl

fan_out-IsFull_example : IsFull 2 (fan_out 2 1 waiting wakes)
fan_out-IsFull_example = fan_out-IsFull 2 1 waiting wakes (omega arith)

fan_out-held_example :
    held 5 (fan_out 2 1 waiting wakes)
    ≡ (if eqb 5 1 then 1 else 0)
      + times_waiting 5 waiting
      + times_waiting 5 (heard 2 wakes (begin 2 1 waiting))
fan_out-held_example = fan_out-held 2 1 5 waiting wakes
