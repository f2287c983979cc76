-- ===== src/Orphans/Spared.antt =====
-- singleton.py: which processes the scan signals, and that a resident's process is not among them.
use turbohaul_manager_rocm.Prelude.{
  ℕ, ◌+◌, ◌≤◌, Bool, true, false, not, ◌&&◌, ◌||◌, Option, none, some, List, [], ◌∷◌, ◌++◌,
  if◌then◌else◌, leb, eqb, length, arith, ◌≡◌, refl, sym, ap, ◌∙◌, inl, inr, Bool-cases,
}
use turbohaul_manager_rocm.Orphans.{
  Entry, Host, Signal, sent, vanished, denied, Stats, no_stats, contains_pid, is_candidate,
  count_signal, scan_entry, scan_entries, intra_lifetime_orphan_scan, reap_all, Handle, Held,
  alive_pid, pid_of, held_pids, live_handle_pids,
}

-- Some entry is a sidecar on a port of ours, with this pid.
abbrev pub has_pid : Option ℕ → ℕ → Bool
has_pid none p = false
has_pid (some q) p = eqb p q

abbrev pub is_listed : Host → ℕ → ℕ → ℕ → List Entry → Bool
is_listed host port_base size p [] = false
is_listed host port_base size p (e ∷ es) =
    has_pid e.pid p && is_candidate host port_base size e.cmdline
    || is_listed host port_base size p es

module _ (host : Host) (port_base size p : ℕ) (known : List ℕ) where
  count_signal-signalled : (g : Signal) (s : Stats) → (count_signal g s).signalled ≡ s.signalled
  count_signal-signalled sent s = refl
  count_signal-signalled vanished s = refl
  count_signal-signalled denied s = refl

  abbrev is_wanted : Bool → Bool
  is_wanted listed = listed && not (contains_pid p known)

  known_pid : (q : ℕ) → contains_pid q known ≡ true → is_wanted (eqb p q) ≡ false
  known_pid q h = elim (Bool-cases (eqb p q)) [
    | inl e ↦ let same : p ≡ q = ground (arith, e) in rw (e, same, h) refl
    | inr e ↦ rw e refl
  ]

  unknown_pid : (q : ℕ) → contains_pid q known ≡ false → is_wanted (eqb p q) ≡ eqb p q
  unknown_pid q h = elim (Bool-cases (eqb p q)) [
    | inl e ↦ let same : p ≡ q = ground (arith, e) in rw (e, same, h) refl
    | inr e ↦ rw e refl
  ]

  scan_entry-signalled :
      (e : Entry) (o : Option ℕ) (s : Stats)
      → contains_pid p (scan_entry host port_base known size e o s).signalled ≡ (
          is_wanted (has_pid o p && is_candidate host port_base size e.cmdline)
          || contains_pid p s.signalled)
  scan_entry-signalled e none s = refl
  scan_entry-signalled e (some q) s =
      elim (Bool-cases (is_candidate host port_base size e.cmdline)) [
        | inl c ↦ elim (Bool-cases (contains_pid q known)) [
          | inl k ↦ ground (arith, c, k, known_pid q k)
          | inr k ↦ ground (arith, c, k, unknown_pid q k, count_signal-signalled (host.kill q))
        ]
        | inr c ↦ ground (arith, c)
      ]

  scan_entries-signalled :
      (es : List Entry) (s : Stats)
      → contains_pid p (scan_entries host port_base known size es s).signalled
        ≡ (is_wanted (is_listed host port_base size p es) || contains_pid p s.signalled)
  unfolding scan_entries
  scan_entries-signalled [] s = refl
  scan_entries-signalled (e ∷ es) s =
      let here = scan_entry-signalled e e.pid s in
      let there = scan_entries-signalled es (scan_entry host port_base known size e e.pid s) in
      ground (arith, here, there)

  -- The scan signals exactly the processes that are a sidecar on a port of the range and that nobody is known to hold.
  pub intra_lifetime_orphan_scan-signalled :
      (es : List Entry)
      → contains_pid p (intra_lifetime_orphan_scan host port_base known size es).signalled
        ≡ (is_listed host port_base size p es && not (contains_pid p known))
  unfolding intra_lifetime_orphan_scan
  intra_lifetime_orphan_scan-signalled es = ground (arith, scan_entries-signalled es no_stats)

-- Residents before, this one, and others behind it.
abbrev pub among : List Held → Held → List Held → List Held
among before r after = before ++ r ∷ after

contains_pid-append :
    (p : ℕ) (ps qs : List ℕ) → contains_pid p (ps ++ qs) ≡ (contains_pid p ps || contains_pid p qs)
contains_pid-append p [] qs = refl
contains_pid-append p (q ∷ ps) qs = ground (arith, contains_pid-append p ps qs)

-- The process that a resident holds, once it is published or while it boots.
abbrev pub holds : Held → ℕ → Bool
holds r p = contains_pid p (alive_pid r.handle ++ alive_pid r.idle_handle ++ pid_of r.booting_pid)

held_pids-own :
    (p : ℕ) (r : Held) (rest : List ℕ)
    → contains_pid p (alive_pid r.handle ++ alive_pid r.idle_handle ++ pid_of r.booting_pid ++ rest)
      ≡ (holds r p || contains_pid p rest)
held_pids-own p r rest =
    contains_pid-append p (alive_pid r.handle ++ alive_pid r.idle_handle ++ pid_of r.booting_pid)
      rest

held_pids-holds :
    (p : ℕ) (before after : List Held) (r : Held)
    → holds r p ≡ true
    → contains_pid p (held_pids (among before r after)) ≡ true
held_pids-holds p [] after r h = ground (arith, h, held_pids-own p r (held_pids after))
held_pids-holds p (b ∷ before) after r h =
    ground (
      arith,
      held_pids-own p b (held_pids (before ++ r ∷ after)),
      held_pids-holds p before after r h,
    )

-- No process that a resident holds, with its handle, its idle handle or its pid while it boots, is signalled by the
-- scan, where more than one sidecar may run.
pub intra_lifetime_orphan_scan-spares :
    (host : Host) (port_base size p parallel : ℕ) (es : List Entry) (before after : List Held)
    (r : Held) (active idle : Option Handle)
    → 2 ≤ parallel
    → holds r p ≡ true
    → contains_pid p
        (intra_lifetime_orphan_scan host port_base
          (live_handle_pids parallel (among before r after) active idle)
          size
          es).signalled
      ≡ false
unfolding live_handle_pids
intra_lifetime_orphan_scan-spares host port_base size p parallel es before after r active idle c h =
    let rs = held_pids (among before r after) in
    let many : leb 2 parallel ≡ true = ground (arith, c) in
    let known : contains_pid p
          ((if leb 2 parallel then rs else []) ++ alive_pid active ++ alive_pid idle)
        ≡ true =
      rw many (
        ground (
          arith,
          contains_pid-append p (rs ++ alive_pid active) (alive_pid idle),
          contains_pid-append p rs (alive_pid active),
          held_pids-holds p before after r h,
        )) in
    intra_lifetime_orphan_scan-signalled host port_base size p
      (live_handle_pids parallel (among before r after) active idle) es
    ∙ ground (arith, known)

-- At boot, each orphan is skipped, reaped or reported as failed, and a known one is skipped.
pub reap_all-length :
    (reap_orphan : ℕ → Bool) (known ps : List ℕ)
    → let r = reap_all reap_orphan known ps in
      length r.skipped + length r.reaped + length r.failed ≡ length ps
unfolding reap_all
reap_all-length reap_orphan known [] = refl
reap_all-length reap_orphan known (q ∷ ps) = ground (arith, reap_all-length reap_orphan known ps)

pub reap_all-spares :
    (reap_orphan : ℕ → Bool) (p : ℕ) (known ps : List ℕ)
    → contains_pid p known ≡ true
    → (contains_pid p (reap_all reap_orphan known ps).reaped ≡ false)
      × (contains_pid p (reap_all reap_orphan known ps).failed ≡ false)
unfolding reap_all
reap_all-spares reap_orphan p known [] h = (refl, refl)
reap_all-spares reap_orphan p known (q ∷ ps) h = elim (Bool-cases (eqb p q)) [
  | inl e ↦
      let same : p ≡ q = ground (arith, e) in
      let k = ap (λ x. contains_pid x known) (sym same) ∙ h in
      ground (arith, k, reap_all-spares reap_orphan p known ps h)
  | inr e ↦ ground (arith, e, reap_all-spares reap_orphan p known ps h)
]
