-- ===== src/Lib.antt =====
-- Turbohaul, a manager of llama-server sidecars that share a host's GPUs (src/turbohaul).
--
-- A request becomes a slot, waits in a queue of two tiers, and is served by a sidecar for its model.
-- A spawn of a sidecar passes the safety gates. Events go to an audit log that clients page through.
-- With two or more sidecars a dispatcher pops slots and routes them to resident sidecars.
--
-- Slot: src/turbohaul/slot.py, the record `Slot` and its states.
-- Fsm: src/turbohaul/fsm.py, the transition table (`legal_targets`) and `transition`, which gives the
--   slot in its new state or the exception. Fsm.Graph has the paths of the table.
-- Queue: src/turbohaul/queue.py. `TurbohaulQueue` is the record `Queue`; `enqueue`, `pop_next` and the
--   others are functions of the clock and the queue, an exception is a `QueueError`. One call is one
--   step, since the lock is held all along. Queue.Matching has the lookups by thread and id and
--   `close`, Queue.Timers `GraceTimer` and `IdleHotTimer`.
-- AuditLog: src/turbohaul/api/logging.py. The table is a list of rows by id; `get_logging` is a page.
--   The length of an event's JSON text is a parameter. AuditLog.Redact is the scrub of payloads.
-- Safety: src/turbohaul/safety.py. What a probe reads is an argument; each gate gives a `GateResult`.
--   Safety.Kv is the KV-cache gate, Safety.Spawn all gates and `_run_spawn_safety_gate` of
--   src/turbohaul/manager.py. Fractions are compared by multiplying out; the scale of a KV quant is a
--   fraction of natural numbers.
-- Dispatch: the registry of residents and the dispatcher in src/turbohaul/manager.py: the choice of a
--   victim, `_begin_evict_locked`, `_route_or_reserve` (Dispatch.Route), `_vram_admits_locked`
--   (Dispatch.Admit), `_alloc_port` (Dispatch.Ports), `_read_model_footprint` (Dispatch.Footprint) and
--   the tasks that put slots back (Dispatch.Requeue). A coroutine that is started in the background is
--   a value in a list; the registry lock makes a call one step.
-- State: the table of slots in src/turbohaul/state.py, a list of rows; State.Reconcile and State.Settled
--   are about the reconciliation at boot.
-- Live: `LiveOutputBuffer` of src/turbohaul/live_monitor.py; what a frame's JSON says is a parameter.
--   Live.Buffer has the operations. The loops of `feed` and `_evict` have as fuel the length of what
--   they shorten in each round.
-- Driver: the process of one resident in src/turbohaul/manager.py: `_spawn_for_resident` and
--   `_drive_resident` (`drive`), a cancellation at any of its awaits (`interrupted`), `_evict_teardown`
--   (`take_over` and `step_reaper`), `_on_driver_done` and `_reap_dead_resident` (`supervise`). A reap
--   (`_reap_booting_pid`, or `drained_sigterm` of src/turbohaul/subprocess_mgr.py) is a sequence of acts
--   (`act`): SIGTERM, SIGKILL, and an end that has seen the exit or gives up; how long it waits between
--   them is left open. An event is what a task does between two awaits; `run` is any sequence of events
--   that the guards allow. A thread that reaps by pid goes on when its coroutine is cancelled.
-- Manifest: src/turbohaul/manifest.py. Manifest.Tables and Manifest.Names have the tables of flags, Manifest.Tags the tag's
--   pattern, Manifest.Checks the validators, Manifest.Argv `flags_to_argv`, Manifest.Store reading and
--   writing and the routes of src/turbohaul/api/manifests.py. Floats, YAML with the constructor's field
--   types, and the file system, which may fail before or behind the rename, are the fields of `Python` and
--   `Files`.
-- Ssrf: src/turbohaul/ssrf_guard.py, and Pull: `_double_resolve_check` and `_stream_with_redirects` of
--   src/turbohaul/api/pull.py. The resolver, the URL library and the HTTP client are the fields of `Net`
--   and `Client`, which may raise before a response or within its body; a resolver's answer depends on the
--   number of the query. Pull.Routes has `pull_url` and
--   `pull_hf`, which download into the blob store.
-- Orphans: the reapers of src/turbohaul/singleton.py and `_live_handle_pids` of src/turbohaul/manager.py. What
--   /proc shows and the answers of `kill` are arguments.
-- Blob: src/turbohaul/blob_store.py, `write_stream_atomic` and the check at stage time. The hash function
--   is a parameter, and so is what the file system lets pass (`Io`); behind the rename an error leaves the
--   blob stored.
-- FanOut: `_fan_out_on_resident` of src/turbohaul/manager.py, a loop over what happens between two waits.
-- Telemetry: `_RingBuffer` of src/turbohaul/telemetry.py.
--
-- Times and sizes are natural numbers, so a clock runs forward in whole units; no bound on the size of
-- integers is needed, since the program's are unbounded. Loops over lists are structural. The scan for
-- a port has fuel 100, the length of the program's range; the client's loop over pages has fuel, and
-- the number of matching rows and one more is enough. The loop over redirects has the hops that are left as
-- fuel; a number has at least as many units as digits, which is the fuel of its decimal text.
--
-- Not modelled: the worker loop of a single sidecar and the HTTP proxy (asyncio and network I/O), the
-- SQL engine, the configuration, and the poller of the live monitor. A split mode is taken in lower case,
-- as the manifest's checks leave it, so the `.lower()` of src/turbohaul/safety.py has no counterpart. The
-- arguments of the safety gates are given: that `_run_spawn_safety_gate` reads them from the manifest is
-- left out.
pub mod Orphans
pub mod Prelude
pub mod Json
pub mod Slot
pub mod FanOut
pub mod Fsm
pub mod Queue
pub mod AuditLog
pub mod Blob
pub mod Safety
pub mod Dispatch
pub mod Driver
pub mod State
pub mod Telemetry
pub mod Live
pub mod Ssrf
pub mod Manifest
pub mod Pull
