-- ===== src/Driver/Reaped.antt =====
-- manager.py: what the claim `torn_down` gives: no second SIGTERM or SIGKILL to a process, whichever reapers
-- race for it, and no process left running, except by a cancellation or by a reap that gave up.
use turbohaul_manager_rocm.Prelude.{
  ◌+◌, ◌≤◌, Bool, true, false, Option, some, List, [], ◌∷◌, arith, ◌≡◌, not, ◌&&◌, ◌⊎◌,
}
use turbohaul_manager_rocm.Driver.{
  Life, Event, give_up, done, is_running, run, drive_reap, interrupt, cut_teardown, cut_reaper,
  reaper,
}
use turbohaul_manager_rocm.Driver.Accounts.{After, run-IsAccounted}

-- A cancellation, or a reaper that gives up.
abbrev pub is_fault : Event → Bool
is_fault interrupt = true
is_fault cut_teardown = true
is_fault cut_reaper = true
is_fault (drive_reap give_up) = true
is_fault (reaper give_up) = true
is_fault _ = false

abbrev pub is_smooth : List Event → Bool
is_smooth [] = true
is_smooth (e ∷ es) = not (is_fault e) && is_smooth es

-- The events of the run left the process to nobody.
abbrev IsKept : Option Life → Type 0
IsKept = After (λ m. m.abandoned + m.survived + m.dropped ≡ 0)

-- Nothing is left to do for the resident: the driver and the supervisor are done, no teardown is to come,
-- and no reaper is at work.
abbrev pub IsAtRest : Life → Type 0
IsAtRest l = (l.phase ≡ done) × (l.supervised ≡ true) × (l.teardowns ≡ 0) × (l.reapers ≡ [])

-- In every order of the steps of the driver, the dispatcher, the teardown tasks, the supervisor and the
-- process, cancellations and reaps that give up included, the driver's process is sent at most one SIGTERM,
-- and at most one SIGKILL and that only after a SIGTERM; one that was abandoned is sent nothing.
pub run-signals :
    (es : List Event) (l : Life)
    → run es ≡ some l
    → (l.terms + l.abandoned ≤ 1) × (l.kills ≤ l.terms)
run-signals es l h = ground (arith, run-IsAccounted es l h)

-- At rest, a process that still runs was left by one cancellation before any signal, or by one reap that gave
-- up or was cancelled behind its SIGTERM; or a teardown was cancelled before its lock.
pub run-abandoned :
    (es : List Event) (l : Life)
    → run es ≡ some l
    → IsAtRest l
    → is_running l.process ≡ true
    → (l.abandoned + l.survived ≡ 1) ⊎ (1 ≤ l.dropped)
run-abandoned es l h r p = ground (arith, run-IsAccounted es l h)
