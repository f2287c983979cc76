-- ===== src/Driver.antt =====
-- manager.py: the life of one resident's sidecar process, from `_spawn_for_resident` in its driver
-- (`_drive_resident`) to the reapers: the driver's `finally`, `_evict_teardown` and the supervisor
-- (`_on_driver_done`, `_reap_dead_resident`). An event is what one task does between two awaits; any
-- order of events that the guards allow is a run. The process is the only one that this driver spawns.
-- The slots of the inbox and the futures of the slots are no part of a `Life`.
pub mod Accounts
pub mod Reaped
mod Tests
use turbohaul_manager_rocm.Prelude.{
  ℕ, ◌+◌, ◌-◌, Bool, true, false, not, ◌&&◌, ◌||◌, Option, none, some, List, [], ◌∷◌, if◌then◌else◌,
  ltb, eqb,
}
use turbohaul_manager_rocm.Dispatch.{
  ResidentState, reserved_loading, active, grace, idle_evictable, dead, is_state,
}

pub data Process : Type 0 where
  unborn running gone : Process

-- How far a reaper is with the process that it took: it has sent nothing, SIGTERM, or SIGKILL too.
pub data Stage : Type 0 where
  armed termed killed : Stage

-- `_reap_resident_handle`, a coroutine, and `_reap_booting_pid`, which waits for a thread.
pub data Reap : Type 0 where
  by_handle by_pid : Stage → Reap

-- What a reaper does next. `finish`: it sees that the process is gone. `give_up`: it ends although the
-- process runs, as a signal was refused, something raised or SIGKILL had no effect yet.
pub data Act : Type 0 where
  sigterm sigkill finish give_up : Act

-- Where the driver stands: before the first slot; in the safety gate; after the spawn, before
-- `booting_pid` is set; in the wait for health; reaping the unhealthy sidecar; before the loop's test
-- for DEAD; serving; parked; before the lock of `finally`; in the rest of `finally`, with the process
-- that it claimed there as long as that is reaped; done.
pub data Phase : Type 0 where
  waiting gating born booting published serving parked finishing done : Phase
  condemned : Stage → Phase
  reaping : Option Reap → Phase

-- `holds_handle` and `holds_booting`: `r.handle` and `r.booting_pid` are set. `teardowns` are the runs of
-- `_evict_teardown` before their lock, `reapers` those that took a process, and the threads that still
-- reap for a driver that was cancelled. `terms` and `kills` count the signals sent to the process,
-- `abandoned` the cancellations that left it to nobody before a signal, `survived` the reaps that ended
-- or were cancelled behind their SIGTERM without an exit, `dropped`
-- the teardowns cancelled before their lock.
pub record Life : Type 0 where
  pub phase : Phase
  pub process : Process
  pub state : ResidentState
  pub holds_handle : Bool
  pub holds_booting : Bool
  pub torn_down : Bool
  pub registered : Bool
  pub teardowns : ℕ
  pub reapers : List Reap
  pub supervised : Bool
  pub terms : ℕ
  pub kills : ℕ
  pub abandoned : ℕ
  pub survived : ℕ
  pub dropped : ℕ

-- `drive_reap` is a step of the reap that the driver awaits, `reaper` one of the newest other reaper.
pub data Event : Type 0 where
  first_slot refuse spawn set_booting healthy unhealthy : Event
  enter next_slot idle_out interrupt claim leave : Event
  hit evict supervise teardown cut_teardown cut_reaper exits : Event
  finish_serving : Bool → Event
  drive_reap reaper : Act → Event

-- The placeholder that `_reserve_and_start_locked` registers, with its driver started.
abbrev pub reserved : Life
reserved = record {
  phase = waiting;
  process = unborn;
  state = reserved_loading;
  holds_handle = false;
  holds_booting = false;
  torn_down = false;
  registered = true;
  teardowns = 0;
  reapers = [];
  supervised = false;
  terms = 0;
  kills = 0;
  abandoned = 0;
  survived = 0;
  dropped = 0;
}

abbrev pub is_running : Process → Bool
is_running unborn = false
is_running running = true
is_running gone = false

-- One act of a reaper, with the stage it is at then: `none` behind its end.
unfoldable pub act : Act → Stage → Life → Option (Option Stage × Life)
act sigterm armed l =
    if is_running l.process then some (some termed, record l { terms = l.terms + 1 }) else none
act sigkill termed l =
    if is_running l.process then some (some killed, record l { kills = l.kills + 1 }) else none
act finish stage l = if is_running l.process then none else some (none, l)
act give_up stage l =
    if is_running l.process then some (none, record l { survived = l.survived + 1 }) else none
act _ _ l = none

-- The coroutine of a reaper is cancelled.
abbrev pub cut : Stage → Life → Life
cut armed l = record l { abandoned = l.abandoned + 1 }
cut termed l = record l { survived = l.survived + 1 }
cut killed l = record l { survived = l.survived + 1 }

-- `_begin_evict_locked`, apart from the inbox.
abbrev pub begin_evict : Life → Life
begin_evict l =
    if is_state l.state dead
    then l
    else record l { state = dead; registered = false; teardowns = l.teardowns + 1 }

abbrev pub no_longer_held : Life → Life
no_longer_held l = record l { holds_handle = false; holds_booting = false; torn_down = true }

-- What a claim takes: a handle whose process is alive, else the booting pid.
abbrev pub claimed : Life → Option Reap
claimed l =
    if l.holds_handle && is_running l.process
    then some (by_handle armed)
    else if l.holds_booting
    then some (by_pid armed)
    else none

abbrev pub in_condemned : Option (Option Stage × Life) → Option Life
in_condemned none = none
in_condemned (some (some stage, l)) = some (record l { phase = condemned stage })
in_condemned (some (none, l)) = some (record l { phase = finishing })

abbrev pub in_claimed : (Stage → Reap) → Option (Option Stage × Life) → Option Life
in_claimed via none = none
in_claimed via (some (some stage, l)) = some (record l { phase = reaping (some (via stage)) })
in_claimed via (some (none, l)) = some (record l { phase = reaping none })

-- The driver's steps. `none`: the event cannot happen there.
unfoldable pub drive : Event → Phase → Life → Option Life
unfolding act
drive first_slot waiting l = some (record l { phase = gating })
drive refuse gating l = some (record l { phase = finishing })
drive spawn gating l = some (record l { phase = born; process = running })
drive set_booting born l = some (record l { phase = booting; holds_booting = true })
drive healthy booting l =
    some
      (record l { phase = published; holds_handle = true; holds_booting = false; state = active })
drive unhealthy booting l = some (record l { phase = condemned armed; holds_booting = false })
drive (drive_reap a) (condemned stage) l = in_condemned (act a stage l)
drive enter published l = some (
    if is_state l.state dead
    then record l { phase = finishing }
    else record l { phase = serving; state = active })
drive (finish_serving keeps_idle) serving l = some (
    if is_state l.state dead
    then record l { phase = finishing }
    else if keeps_idle
    then record l { phase = parked; state = idle_evictable }
    else record (begin_evict l) { phase = finishing })
drive next_slot parked l = some (record l { phase = published })
drive idle_out parked l = some (
    if is_state l.state idle_evictable
    then record (begin_evict l) { phase = finishing }
    else record l { phase = published })
drive claim finishing l = some (
    if l.torn_down then record l { phase = done } else record (no_longer_held l) {
      phase = reaping (claimed l);
      registered = false;
      state = if l.registered then dead else l.state;
    })
drive (drive_reap a) (reaping (some (by_handle stage))) l = in_claimed by_handle (act a stage l)
drive (drive_reap a) (reaping (some (by_pid stage))) l = in_claimed by_pid (act a stage l)
drive leave (reaping none) l = some (record l { phase = done })
drive _ _ l = none

-- A cancellation or an exception at one of the driver's awaits, those of `finally` included. Before
-- `booting_pid` is set, and while it reaps by a handle, only the driver's stack knows of the process; a
-- thread that reaps by pid goes on.
unfoldable pub interrupted : Phase → Life → Option Life
interrupted waiting l = some (record l { phase = finishing })
interrupted gating l = some (record l { phase = finishing })
interrupted born l = some (record l { phase = finishing; abandoned = l.abandoned + 1 })
interrupted booting l = some (record l { phase = finishing })
interrupted (condemned stage) l = some (record (cut stage l) { phase = finishing })
interrupted published l = some (record l { phase = finishing })
interrupted serving l = some (record l { phase = finishing })
interrupted parked l = some (record l { phase = finishing })
interrupted finishing l = some (record l { phase = done })
interrupted (reaping (some (by_handle stage))) l = some (record (cut stage l) { phase = done })
interrupted (reaping (some (by_pid stage))) l =
    some (record l { phase = done; reapers = by_pid stage ∷ l.reapers })
interrupted (reaping none) l = some (record l { phase = done })
interrupted done l = none

abbrev pub is_done : Phase → Bool
is_done done = true
is_done _ = false

abbrev pub and_reaper : Option Reap → List Reap → List Reap
and_reaper none rs = rs
and_reaper (some r) rs = r ∷ rs

-- `_evict_teardown` up to the end of its lock.
abbrev pub take_over : Life → Life
take_over l =
    if l.torn_down
    then l
    else record (no_longer_held l) { reapers = and_reaper (claimed l) l.reapers }

abbrev pub in_reapers : (Stage → Reap) → List Reap → Option (Option Stage × Life) → Option Life
in_reapers via rest none = none
in_reapers via rest (some (some stage, l)) = some (record l { reapers = via stage ∷ rest })
in_reapers via rest (some (none, l)) = some (record l { reapers = rest })

unfoldable pub step_reaper : Act → List Reap → Life → Option Life
unfolding act
step_reaper a [] l = none
step_reaper a (by_handle stage ∷ rest) l = in_reapers by_handle rest (act a stage l)
step_reaper a (by_pid stage ∷ rest) l = in_reapers by_pid rest (act a stage l)

-- A teardown's task is cancelled while it reaps.
unfoldable pub cut_short : List Reap → Life → Option Life
cut_short [] l = none
cut_short (by_handle stage ∷ rest) l = some (record (cut stage l) { reapers = rest })
cut_short (by_pid stage ∷ rest) l = some l

-- The steps of the dispatcher, the supervisor, the teardown tasks and the process itself.
unfoldable pub step : Event → Life → Option Life
unfolding drive interrupted step_reaper cut_short
step interrupt l = interrupted l.phase l
step hit l =
    if l.registered && is_state l.state idle_evictable
    then some (record l { state = active })
    else none
step evict l =
    if l.registered && is_state l.state idle_evictable then some (begin_evict l) else none
step supervise l =
    if is_done l.phase && not l.supervised
    then some (record (begin_evict l) { supervised = true })
    else none
step teardown l =
    if ltb 0 l.teardowns then some (record (take_over l) { teardowns = l.teardowns - 1 }) else none
step cut_teardown l =
    if ltb 0 l.teardowns
    then some (record l { teardowns = l.teardowns - 1; dropped = l.dropped + 1 })
    else none
step (reaper a) l = step_reaper a l.reapers l
step cut_reaper l = cut_short l.reapers l
step exits l = if is_running l.process then some (record l { process = gone }) else none
step e l = drive e l.phase l

unfoldable pub run_event : Event → Option Life → Option Life
unfolding step
run_event e none = none
run_event e (some l) = step e l

unfoldable pub run_from : List Event → Option Life → Option Life
unfolding run_event
run_from [] o = o
run_from (e ∷ es) o = run_from es (run_event e o)

-- A run of the resident from its reservation.
abbrev pub run : List Event → Option Life
run es = run_from es (some reserved)
