-- ===== src/Driver/Accounts.antt =====
-- manager.py: who holds the process of a resident, at each point of a run.
use turbohaul_manager_rocm.Prelude.{
  ℕ, ◌+◌, ◌≤◌, Bool, true, false, Option, none, some, List, [], ◌∷◌, arith, ◌≡◌, refl, subst,
}
use turbohaul_manager_rocm.Dispatch.{reserved_loading, dead, is_state}
use turbohaul_manager_rocm.Driver.{
  Life, Phase, Process, Event, Stage, Reap, Act, armed, termed, by_handle, by_pid, sigterm, sigkill,
  finish, give_up, waiting, gating, born, booting, condemned, published, serving, parked, finishing,
  done, reaping, unborn, is_running, drive, interrupted, act, step_reaper, cut_short, step,
  run_event, run_from, run, reserved, first_slot, refuse, spawn, set_booting, healthy, unhealthy,
  drive_reap, enter, next_slot, idle_out, interrupt, claim, leave, hit, evict, supervise, teardown,
  cut_teardown, cut_reaper, reaper, exits, finish_serving,
}

abbrev pub one_if : Bool → ℕ
one_if true = 1
one_if false = 0

abbrev pub stage_of : Reap → Stage
stage_of (by_handle stage) = stage
stage_of (by_pid stage) = stage

abbrev pub if_armed : Stage → ℕ
if_armed armed = 1
if_armed _ = 0

abbrev pub if_termed : Stage → ℕ
if_termed termed = 1
if_termed _ = 0

-- A count over the reapers of the driver's stack and the others.
abbrev pub of_phase : (Stage → ℕ) → Phase → ℕ
of_phase f (condemned stage) = f stage
of_phase f (reaping (some r)) = f (stage_of r)
of_phase f _ = 0

abbrev pub of_reapers : (Stage → ℕ) → List Reap → ℕ
of_reapers f [] = 0
of_reapers f (r ∷ rest) = f (stage_of r) + of_reapers f rest

abbrev pub is_born : Phase → Bool
is_born born = true
is_born _ = false

-- Who holds the process without having signalled it: the driver's stack behind the spawn, the fields.
abbrev pub unclaimed : Life → ℕ
unclaimed l = one_if (is_born l.phase) + one_if l.holds_handle + one_if l.holds_booting

abbrev pub reaping_in : (Stage → ℕ) → Life → ℕ
reaping_in f l = of_phase f l.phase + of_reapers f l.reapers

abbrev pub holders : Life → ℕ
holders l = unclaimed l + reaping_in (λ stage. 1) l

-- Before the sidecar is published nobody else can take the resident down.
abbrev pub is_early : Phase → Bool
is_early waiting = true
is_early gating = true
is_early born = true
is_early booting = true
is_early (condemned stage) = true
is_early _ = false

abbrev pub is_before_spawn : Phase → Bool
is_before_spawn waiting = true
is_before_spawn gating = true
is_before_spawn _ = false

abbrev pub is_closing : Phase → Bool
is_closing (reaping held) = true
is_closing _ = false

abbrev pub is_unborn : Process → Bool
is_unborn unborn = true
is_unborn _ = false

abbrev pub is_booting : Phase → Bool
is_booting booting = true
is_booting _ = false

-- The process is with one holder, was abandoned, or survived its reap: never two of these. Only a reaper that
-- took it signals it, once with each signal. The other parts say where the driver's phases stand to the fields
-- that the reapers read, and that a dead resident was torn down or has a teardown.
abbrev pub IsAccounted : Life → Type 0
IsAccounted l =
    (holders l + (l.abandoned + l.survived) ≤ 1)
    × (is_running l.process ≡ true → holders l + (l.abandoned + l.survived) ≡ 1)
    × (is_unborn l.process ≡ true
        → holders l + (l.abandoned + l.survived) + l.terms + reaping_in if_armed l ≡ 0)
    × (unclaimed l + reaping_in if_armed l + l.abandoned + l.terms ≤ 1)
    × (l.kills + reaping_in if_termed l ≤ l.terms)
    × (is_before_spawn l.phase ≡ true → is_unborn l.process ≡ true)
    × (is_early l.phase ≡ true → l.torn_down ≡ false)
    × (is_early l.phase ≡ true → l.teardowns ≡ 0)
    × (is_early l.phase ≡ true → l.state ≡ reserved_loading)
    × (is_booting l.phase ≡ true → l.holds_booting ≡ true)
    × (l.torn_down ≡ true → l.holds_handle ≡ false)
    × (l.torn_down ≡ true → l.holds_booting ≡ false)
    × (is_closing l.phase ≡ true → l.torn_down ≡ true)
    × (l.torn_down ≡ false → is_state l.state dead ≡ true → 1 ≤ l.teardowns + l.dropped)
    × (l.supervised ≡ true → is_state l.state dead ≡ true)

pub reserved-IsAccounted : IsAccounted reserved
reserved-IsAccounted = ground arith

-- Of an event that happens, the state after it.
abbrev pub After : (Life → Type 0) → Option Life → Type 0
After P none = Unit
After P (some m) = P m

-- The driver's steps, one by one.
drive-IsAccounted :
    (e : Event) (p : Phase) (l : Life)
    → l.phase ≡ p
    → IsAccounted l
    → After IsAccounted (drive e p l)
unfolding drive act
drive-IsAccounted first_slot waiting l p v = ground arith
drive-IsAccounted refuse gating l p v = ground arith
drive-IsAccounted spawn gating l p v = ground arith
drive-IsAccounted set_booting born l p v = ground arith
drive-IsAccounted healthy booting l p v = ground arith
drive-IsAccounted unhealthy booting l p v = ground arith
drive-IsAccounted (drive_reap sigterm) (condemned stage) l p v = ground arith
drive-IsAccounted (drive_reap sigkill) (condemned stage) l p v = ground arith
drive-IsAccounted (drive_reap finish) (condemned stage) l p v = ground arith
drive-IsAccounted (drive_reap give_up) (condemned stage) l p v = ground arith
drive-IsAccounted enter published l p v = ground arith
drive-IsAccounted (finish_serving keeps) serving l p v = ground arith
drive-IsAccounted next_slot parked l p v = ground arith
drive-IsAccounted idle_out parked l p v = ground arith
drive-IsAccounted claim finishing l p v = ground arith
drive-IsAccounted (drive_reap sigterm) (reaping (some (by_handle stage))) l p v = ground arith
drive-IsAccounted (drive_reap sigkill) (reaping (some (by_handle stage))) l p v = ground arith
drive-IsAccounted (drive_reap finish) (reaping (some (by_handle stage))) l p v = ground arith
drive-IsAccounted (drive_reap give_up) (reaping (some (by_handle stage))) l p v = ground arith
drive-IsAccounted (drive_reap sigterm) (reaping (some (by_pid stage))) l p v = ground arith
drive-IsAccounted (drive_reap sigkill) (reaping (some (by_pid stage))) l p v = ground arith
drive-IsAccounted (drive_reap finish) (reaping (some (by_pid stage))) l p v = ground arith
drive-IsAccounted (drive_reap give_up) (reaping (some (by_pid stage))) l p v = ground arith
drive-IsAccounted leave (reaping none) l p v = ground arith
drive-IsAccounted e q l p v = tt

interrupted-IsAccounted :
    (p : Phase) (l : Life) → l.phase ≡ p → IsAccounted l → After IsAccounted (interrupted p l)
unfolding interrupted
interrupted-IsAccounted waiting l p v = ground arith
interrupted-IsAccounted gating l p v = ground arith
interrupted-IsAccounted born l p v = ground arith
interrupted-IsAccounted booting l p v = ground arith
interrupted-IsAccounted (condemned stage) l p v = ground arith
interrupted-IsAccounted published l p v = ground arith
interrupted-IsAccounted serving l p v = ground arith
interrupted-IsAccounted parked l p v = ground arith
interrupted-IsAccounted finishing l p v = ground arith
interrupted-IsAccounted (reaping (some (by_handle stage))) l p v = ground arith
interrupted-IsAccounted (reaping (some (by_pid stage))) l p v = ground arith
interrupted-IsAccounted (reaping none) l p v = ground arith
interrupted-IsAccounted done l p v = tt

step_reaper-IsAccounted :
    (a : Act) (rs : List Reap) (l : Life)
    → l.reapers ≡ rs
    → IsAccounted l
    → After IsAccounted (step_reaper a rs l)
unfolding step_reaper act
step_reaper-IsAccounted a [] l r v = tt
step_reaper-IsAccounted a (by_handle stage ∷ rest) l r v = ground arith
step_reaper-IsAccounted a (by_pid stage ∷ rest) l r v = ground arith

cut_short-IsAccounted :
    (rs : List Reap) (l : Life)
    → l.reapers ≡ rs
    → IsAccounted l
    → After IsAccounted (cut_short rs l)
unfolding cut_short
cut_short-IsAccounted [] l r v = tt
cut_short-IsAccounted (by_handle stage ∷ rest) l r v = ground arith
cut_short-IsAccounted (by_pid stage ∷ rest) l r v = v

step-IsAccounted : (e : Event) (l : Life) → IsAccounted l → After IsAccounted (step e l)
unfolding step
step-IsAccounted interrupt l v = interrupted-IsAccounted l.phase l refl v
step-IsAccounted hit l v = ground arith
step-IsAccounted evict l v = ground arith
step-IsAccounted supervise l v = ground arith
step-IsAccounted teardown l v = ground arith
step-IsAccounted cut_teardown l v = ground arith
step-IsAccounted (reaper a) l v = step_reaper-IsAccounted a l.reapers l refl v
step-IsAccounted cut_reaper l v = cut_short-IsAccounted l.reapers l refl v
step-IsAccounted exits l v = ground arith
step-IsAccounted e l v = drive-IsAccounted e l.phase l refl v

run_event-IsAccounted :
    (e : Event) (o : Option Life) → After IsAccounted o → After IsAccounted (run_event e o)
unfolding run_event
run_event-IsAccounted e none v = tt
run_event-IsAccounted e (some l) v = step-IsAccounted e l v

run_from-IsAccounted :
    (es : List Event) (o : Option Life) → After IsAccounted o → After IsAccounted (run_from es o)
unfolding run_from
run_from-IsAccounted [] o v = v
run_from-IsAccounted (e ∷ es) o v =
    run_from-IsAccounted es (run_event e o) (run_event-IsAccounted e o v)

pub run-IsAccounted : (es : List Event) (l : Life) → run es ≡ some l → IsAccounted l
run-IsAccounted es l h =
    subst (After IsAccounted) h (run_from-IsAccounted es (some reserved) reserved-IsAccounted)
