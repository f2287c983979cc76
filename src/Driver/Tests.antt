-- ===== src/Driver/Tests.antt =====
-- manager.py: runs of one resident's life.
use turbohaul_manager_rocm.Prelude.{◌+◌, ◌≤◌, true, false, some, List, [], ◌∷◌, ◌≡◌, refl, ◌⊎◌}
use turbohaul_manager_rocm.Dispatch.{dead}
use turbohaul_manager_rocm.Driver.{
  Life, Event, run, run_from, run_event, step, drive, act, interrupted, step_reaper, done, gone,
  running, first_slot, spawn, set_booting, healthy, enter, finish_serving, idle_out, evict,
  teardown, reaper, drive_reap, sigterm, sigkill, finish, give_up, interrupt, claim, leave,
  supervise, exits,
}
use turbohaul_manager_rocm.Driver.Reaped.{run-signals, run-abandoned}

-- An idle resident is evicted; the teardown and the driver's `finally` race for its process, which needs
-- a SIGKILL.
abbrev eviction : List Event
eviction =
    first_slot
    ∷ spawn
    ∷ set_booting
    ∷ healthy
    ∷ enter
    ∷ finish_serving true
    ∷ evict
    ∷ idle_out
    ∷ enter
    ∷ teardown
    ∷ reaper sigterm
    ∷ claim
    ∷ reaper sigkill
    ∷ exits
    ∷ reaper finish
    ∷ supervise
    ∷ []

abbrev evicted : Life
evicted = record {
  phase = done;
  process = gone;
  state = dead;
  holds_handle = false;
  holds_booting = false;
  torn_down = true;
  registered = false;
  teardowns = 0;
  reapers = [];
  supervised = true;
  terms = 1;
  kills = 1;
  abandoned = 0;
  survived = 0;
  dropped = 0;
}

run_eviction : run eviction ≡ some evicted
unfolding run_from run_event step drive step_reaper act
run_eviction = refl

run-signals_example : (1 + 0 ≤ 1) × (1 ≤ 1)
run-signals_example = run-signals eviction evicted run_eviction

-- The driver is cancelled after the spawn, while it waits for the lock under which it would set
-- `booting_pid`: neither it nor the supervisor signals the process.
abbrev cancellation : List Event
cancellation = first_slot ∷ spawn ∷ interrupt ∷ claim ∷ leave ∷ supervise ∷ []

abbrev leaked : Life
leaked = record evicted { process = running; terms = 0; kills = 0; abandoned = 1 }

run_cancellation : run cancellation ≡ some leaked
unfolding run_from run_event step drive interrupted
run_cancellation = refl

run-abandoned_example : (leaked.abandoned + leaked.survived ≡ 1) ⊎ (1 ≤ leaked.dropped)
run-abandoned_example =
    run-abandoned cancellation leaked run_cancellation (refl, refl, refl, refl) refl

-- The signal of the driver's own reap is refused.
abbrev refusal : List Event
refusal =
    first_slot
    ∷ spawn
    ∷ set_booting
    ∷ interrupt
    ∷ claim
    ∷ drive_reap give_up
    ∷ leave
    ∷ supervise
    ∷ []

run_refusal :
    run refusal ≡ some (record evicted { process = running; terms = 0; kills = 0; survived = 1 })
unfolding run_from run_event step drive interrupted act
run_refusal = refl
