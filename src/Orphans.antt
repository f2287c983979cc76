-- ===== src/Orphans.antt =====
-- singleton.py: the reapers of sidecars that nobody holds, and `_live_handle_pids` of manager.py, which says who
-- is held. What /proc shows of a process is a value; `str.split`, `int`, the regular expression of the port and the
-- answers of `kill` are the fields of `Host`. A process is named by its pid.
pub mod Spared
mod Tests
use turbohaul_manager_rocm.Prelude.{
  ℕ, suc, ◌+◌, ◌==◌, String, Bool, true, false, not, ◌&&◌, ◌||◌, Option, none, some, List, [], ◌∷◌,
  ◌++◌, if◌then◌else◌, ltb, leb, eqb, includes,
}

-- An entry of /proc: `pid` is `none` where the name is no number.
pub record Entry : Type 0 where
  pub pid : Option ℕ
  pub cmdline : String
  pub ppid : Option ℕ

pub data Signal : Type 0 where
  sent vanished denied : Signal

pub record Host : Type 0 where
  pub split : String → List String
  pub int : String → Option ℕ
  pub search_port : String → Option ℕ
  pub kill : ℕ → Signal

abbrev pub contains_pid : ℕ → List ℕ → Bool
contains_pid p [] = false
contains_pid p (q ∷ qs) = eqb p q || contains_pid p qs

abbrev pub in_range : ℕ → ℕ → ℕ → Bool
in_range port_base size port = leb port_base port && ltb port (port_base + size)

-- `scanned`, `matched`, `reaped` and `errors`, and the pids that `kill` was called on, the latest first.
pub record Stats : Type 0 where
  pub scanned : ℕ
  pub matched : ℕ
  pub reaped : ℕ
  pub errors : ℕ
  pub signalled : List ℕ

abbrev pub no_stats : Stats
no_stats = record { scanned = 0; matched = 0; reaped = 0; errors = 0; signalled = [] }

abbrev pub count_signal : Signal → Stats → Stats
count_signal sent s = record s { reaped = s.reaped + 1 }
count_signal vanished s = s
count_signal denied s = record s { errors = s.errors + 1 }

-- The port of a sidecar of ours.
abbrev pub port_in_range : ℕ → ℕ → Option ℕ → Bool
port_in_range port_base size none = false
port_in_range port_base size (some port) = in_range port_base size port

abbrev pub is_candidate : Host → ℕ → ℕ → String → Bool
is_candidate host port_base size cmdline =
    includes cmdline "llama-server" && port_in_range port_base size (host.search_port cmdline)

abbrev pub terminate : Host → ℕ → Stats → Stats
terminate host pid s = count_signal (host.kill pid) (record s { signalled = pid ∷ s.signalled })

abbrev pub scan_process : Host → ℕ → List ℕ → ℕ → String → ℕ → Stats → Stats
scan_process host port_base known size cmdline pid s =
    let seen = record s { scanned = s.scanned + 1 } in
    if is_candidate host port_base size cmdline
    then if contains_pid pid known
      then record seen { matched = s.matched + 1 }
      else terminate host pid (record seen { matched = s.matched + 1 })
    else seen

abbrev pub scan_entry : Host → ℕ → List ℕ → ℕ → Entry → Option ℕ → Stats → Stats
scan_entry host port_base known size e none s = s
scan_entry host port_base known size e (some pid) s =
    scan_process host port_base known size e.cmdline pid s

unfoldable pub scan_entries : Host → ℕ → List ℕ → ℕ → List Entry → Stats → Stats
scan_entries host port_base known size [] s = s
scan_entries host port_base known size (e ∷ es) s =
    scan_entries host port_base known size es (scan_entry host port_base known size e e.pid s)

unfoldable pub intra_lifetime_orphan_scan : Host → ℕ → List ℕ → ℕ → List Entry → Stats
unfolding scan_entries
intra_lifetime_orphan_scan host port_base known size es =
    scan_entries host port_base known size es no_stats

-- The token behind the first `--port` or `-p`.
abbrev pub port_token : List String → Option String
port_token [] = none
port_token (t ∷ []) = none
port_token (t ∷ u ∷ ts) = if t == "--port" || t == "-p" then some u else port_token (u ∷ ts)

abbrev pub parsed_port : Host → Option String → Option ℕ
parsed_port host none = none
parsed_port host (some t) = host.int t

abbrev pub is_reaper : Option ℕ → Option ℕ → Bool
is_reaper subreaper none = false
is_reaper none (some ppid) = eqb ppid 1
is_reaper (some r) (some ppid) = eqb ppid 1 || eqb ppid r

abbrev pub is_orphan : Host → Option ℕ → ℕ → ℕ → Entry → Bool
is_orphan host subreaper port_base size e =
    includes e.cmdline "llama-server"
    && is_reaper subreaper e.ppid
    && port_in_range port_base size (parsed_port host (port_token (host.split e.cmdline)))

abbrev pub keep_orphan : Bool → Option ℕ → List ℕ → List ℕ
keep_orphan b none ps = ps
keep_orphan b (some pid) ps = if b then pid ∷ ps else ps

unfoldable pub find_orphan_llama_servers : Host → Option ℕ → ℕ → ℕ → List Entry → List ℕ
find_orphan_llama_servers host subreaper port_base size [] = []
find_orphan_llama_servers host subreaper port_base size (e ∷ es) =
    keep_orphan (is_orphan host subreaper port_base size e) e.pid
      (find_orphan_llama_servers host subreaper port_base size es)

-- A reaper's report: `reap_orphan` answers whether the process is gone.
pub record Report : Type 0 where
  pub skipped : List ℕ
  pub reaped : List ℕ
  pub failed : List ℕ

unfoldable pub reap_all : (ℕ → Bool) → List ℕ → List ℕ → Report
reap_all reap_orphan known [] = record { skipped = []; reaped = []; failed = [] }
reap_all reap_orphan known (p ∷ ps) =
    let r = reap_all reap_orphan known ps in
    if contains_pid p known
    then record r { skipped = p ∷ r.skipped }
    else if reap_orphan p
    then record r { reaped = p ∷ r.reaped }
    else record r { failed = p ∷ r.failed }

unfoldable pub boot_orphan_reaper : Host → (ℕ → Bool) → Option ℕ → ℕ → List ℕ → List Entry → Report
unfolding find_orphan_llama_servers reap_all
boot_orphan_reaper host reap_orphan subreaper port_base known es =
    reap_all reap_orphan known (find_orphan_llama_servers host subreaper port_base 100 es)

-- What `_live_handle_pids` reads of a resident: a handle with its pid and whether it is alive.
pub record Handle : Type 0 where
  pub pid : ℕ
  pub alive : Bool

pub record Held : Type 0 where
  pub handle : Option Handle
  pub idle_handle : Option Handle
  pub booting_pid : Option ℕ

abbrev pub alive_pid : Option Handle → List ℕ
alive_pid none = []
alive_pid (some h) = if h.alive then h.pid ∷ [] else []

abbrev pub pid_of : Option ℕ → List ℕ
pid_of none = []
pid_of (some p) = p ∷ []

abbrev pub held_pids : List Held → List ℕ
held_pids [] = []
held_pids (r ∷ rs) =
    alive_pid r.handle ++ alive_pid r.idle_handle ++ pid_of r.booting_pid ++ held_pids rs

unfoldable pub live_handle_pids : ℕ → List Held → Option Handle → Option Handle → List ℕ
live_handle_pids max_parallel_sidecars residents active_handle idle_handle =
    (if leb 2 max_parallel_sidecars then held_pids residents else [])
    ++ alive_pid active_handle
    ++ alive_pid idle_handle
