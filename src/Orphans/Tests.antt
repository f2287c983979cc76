-- ===== src/Orphans/Tests.antt =====
-- singleton.py: a scan that finds a resident's process and one that nobody holds.
use turbohaul_manager_rocm.Prelude.{
  ◌==◌, false, none, some, List, [], ◌∷◌, if◌then◌else◌, arith, ◌≡◌, refl,
}
use turbohaul_manager_rocm.Orphans.{
  Entry, Host, sent, Held, contains_pid, intra_lifetime_orphan_scan, scan_entries, live_handle_pids,
}
use turbohaul_manager_rocm.Orphans.Spared.{among, intra_lifetime_orphan_scan-spares}

abbrev host : Host
host = record {
  split = λ s. s ∷ [];
  int = λ s. none;
  search_port = λ s. if s == "llama-server --port 11501" then some 11501 else none;
  kill = λ p. sent;
}

abbrev entries : List Entry
entries =
    record { pid = some 7; cmdline = "llama-server --port 11501"; ppid = some 1 }
    ∷ record { pid = some 8; cmdline = "llama-server --port 11501"; ppid = some 1 }
    ∷ record { pid = some 9; cmdline = "bash"; ppid = some 1 }
    ∷ []

abbrev resident : Held
resident = record { handle = none; idle_handle = none; booting_pid = some 7 }

scan_run : (intra_lifetime_orphan_scan host 11500 (7 ∷ []) 100 entries).signalled ≡ 8 ∷ []
unfolding intra_lifetime_orphan_scan scan_entries
scan_run = refl

intra_lifetime_orphan_scan-spares_example :
    contains_pid 7
      (intra_lifetime_orphan_scan host 11500
        (live_handle_pids 2 (among [] resident []) none none)
        100
        entries).signalled
    ≡ false
intra_lifetime_orphan_scan-spares_example =
    intra_lifetime_orphan_scan-spares host 11500 100 7 2 entries [] [] resident none none
      (omega arith) refl
