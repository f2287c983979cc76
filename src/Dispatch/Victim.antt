-- ===== src/Dispatch/Victim.antt =====
-- manager.py: what `_lru_idle_evictable` chooses, and what the eviction leaves in the registry.
use turbohaul_manager_rocm.Prelude.{
  ◌≤◌, ◌==◌, String, true, false, Option, none, some, List, [], ◌∷◌, ltb, eqb, arith, ◌≡◌, refl,
  sym, ap, ◌∙◌, subst, ◌⊎◌, inl, inr, Bool-cases, eq_iff, eq_refl, All, ◌++◌, ◌≢◌,
}
use turbohaul_manager_rocm.Dispatch.{
  Resident, lookup, delete, is_live, model_residents, evictable, candidates, earliest,
  lru_idle_evictable, deregister, deregister_tag, delete_same, singleton_key, idle_evictable, dead,
}
use turbohaul_manager_rocm.Dispatch.Registry.{Registry, Keyed}

-- Some live entry of the registry is this resident.
abbrev pub Registered : Registry → Resident → Type 0
Registered rs v =
    (k : String) × (lookup k rs ≡ some v) × (is_live k v ≡ true) × (v.model_tag ≡ some k)

-- Evictable, and no evictable one of the residents is older.
abbrev Oldest : List Resident → Resident → Type 0
Oldest rs v =
    (evictable v ≡ true)
    × All (λ (c : Resident). evictable c ≡ true → v.last_active_monotonic ≤ c.last_active_monotonic)
        rs

-- `b` is the oldest evictable resident of `r` and `rs`, where `r` is evictable.
abbrev Best : Resident → List Resident → Resident → Type 0
Best r rs b = (b.last_active_monotonic ≤ r.last_active_monotonic) × Oldest rs b

earliest_lem :
    (r : Resident) (rs : List Resident)
    → evictable r ≡ true
    → Best r rs (earliest r (candidates rs))
earliest_lem r [] h = (omega arith, (h, tt))
earliest_lem r (s ∷ rs) h = elim (Bool-cases (evictable s)) [
  | inl e ↦ elim (Bool-cases (ltb s.last_active_monotonic r.last_active_monotonic)) [
    | inl l ↦
        let step : earliest r (candidates (s ∷ rs)) ≡ earliest s (candidates rs) = rw (e, l) refl in
        let (b, (a, c)) = earliest_lem s rs e in
        subst (Best r (s ∷ rs)) (sym step) (ground (arith, b), (a, ((λ x. b), c)))
    | inr l ↦
        let step : earliest r (candidates (s ∷ rs)) ≡ earliest r (candidates rs) = rw (e, l) refl in
        let (b, (a, c)) = earliest_lem r rs h in
        subst (Best r (s ∷ rs)) (sym step) (b, (a, ((λ x. ground (arith, b)), c)))
  ]
  | inr e ↦
      let step : earliest r (candidates (s ∷ rs)) ≡ earliest r (candidates rs) = rw e refl in
      let (b, (a, c)) = earliest_lem r rs h in
      subst (Best r (s ∷ rs)) (sym step)
        (b, (a, ((λ x. absurd (let clash : false ≡ true = sym e ∙ x in cc)), c)))
]

abbrev Choice : List Resident → Option Resident → Type 0
Choice rs o =
    ((o ≡ none) × All (λ (c : Resident). evictable c ≡ false) rs)
    ⊎ ((v : Resident) × (o ≡ some v) × Oldest rs v)

abbrev choose : List Resident → Option Resident
choose cands = elim cands [ [] ↦ none | r ∷ rest ↦ some (earliest r rest) ]

choose_lem : (rs : List Resident) → Choice rs (choose (candidates rs))
choose_lem [] = inl (refl, tt)
choose_lem (r ∷ rs) = elim (Bool-cases (evictable r)) [
  | inl e ↦
      let step : choose (candidates (r ∷ rs)) ≡ some (earliest r (candidates rs)) = rw e refl in
      let (b, (a, c)) = earliest_lem r rs e in
      subst (Choice (r ∷ rs)) (sym step)
        (inr (earliest r (candidates rs), refl, (a, ((λ x. b), c))))
  | inr e ↦
      let step : choose (candidates (r ∷ rs)) ≡ choose (candidates rs) = rw e refl in
      subst (Choice (r ∷ rs)) (sym step) (elim (choose_lem rs) [
        | inl (nothing, all) ↦ inl (nothing, (e, all))
        | inr (v, found, (a, c)) ↦
            inr (v, found, (a, ((λ x. absurd (let clash : false ≡ true = sym e ∙ x in cc)), c)))
      ])
]

earliest-All {κ} :
    (P : Resident → Type κ) (r : Resident) (rs : List Resident) → P r → All P rs → P (earliest r rs)
earliest-All P r [] h k = h
earliest-All P r (s ∷ rs) h (p, k) =
    elim (Bool-cases (ltb s.last_active_monotonic r.last_active_monotonic)) [
      | inl l ↦ rw l (earliest-All P s rs p k)
      | inr l ↦ rw l (earliest-All P r rs h k)
    ]

candidates-All {κ} : (P : Resident → Type κ) (rs : List Resident) → All P rs → All P (candidates rs)
candidates-All P [] h = tt
candidates-All P (r ∷ rs) (p, h) = elim (Bool-cases (evictable r)) [
  | inl e ↦ rw e (p, candidates-All P rs h)
  | inr e ↦ rw e (candidates-All P rs h)
]

choose-All {κ} :
    (P : Resident → Type κ) (rs : List Resident) (v : Resident)
    → All P rs
    → choose rs ≡ some v
    → P v
choose-All P [] v h e = absurd cc
choose-All P (r ∷ rs) v (p, h) e =
    let same : earliest r rs ≡ v = cc in subst P same (earliest-All P r rs p h)

All-map {κ μ} :
    {P : Resident → Type κ} {Q : Resident → Type μ} (f : (r : Resident) → P r → Q r)
    (rs : List Resident)
    → All P rs
    → All Q rs
All-map f [] h = tt
All-map f (r ∷ rs) (p, h) = (f r p, All-map f rs h)

-- The registry has this entry, under a key that is not the singleton's, and it is not dead.
abbrev pub Listed : Registry → Resident → Type 0
Listed rs v =
    (before : Registry) × (k : String) × (after : Registry) × (rs ≡ before ++ (k, v) ∷ after)
    × ((k == singleton_key) ≡ false)
    × (v.state ≢ dead)

-- Every resident of the registry that is not the singleton and not dead is such.
abbrev pub AllLive {κ} : (Resident → Type κ) → Registry → Type κ
AllLive P =
    All (λ (e : String × Resident). (e.0 == singleton_key) ≡ false → e.1.state ≢ dead → P e.1)

-- Parked idle, with no active slot and no rider in flight.
abbrev pub Evictable : Resident → Type 0
Evictable r = (r.state ≡ idle_evictable) × (r.active_slot ≡ none) × (r.inflight ≡ [])

-- Either nothing is chosen and no live resident can be evicted; or the choice is a live resident of the
-- registry that can be, and no other one that can be was active less recently.
abbrev pub Found : Registry → Option Resident → Type 0
Found rs o =
    ((o ≡ none) × AllLive (λ (c : Resident). Evictable c → ⊥) rs)
    ⊎ ((v : Resident) × (o ≡ some v)
        × Listed rs v
        × Evictable v
        × AllLive
            (λ (c : Resident). Evictable c → v.last_active_monotonic ≤ c.last_active_monotonic) rs)

evictable-Evictable : (r : Resident) → evictable r ≡ true → Evictable r
evictable-Evictable r h = ground arith

Evictable-evictable : (r : Resident) → Evictable r → evictable r ≡ true
Evictable-evictable r (s, a, i) = rw (s, a, i) refl

is_live_iff :
    (k : String) (r : Resident)
    → ((k == singleton_key) ≡ false → r.state ≢ dead → is_live k r ≡ true)
      × (is_live k r ≡ true → ((k == singleton_key) ≡ false) × (r.state ≢ dead))
is_live_iff k r = (ground arith, ground arith)

model_residents-AllLive {κ} :
    (P : Resident → Type κ) (rs : Registry) → All P (model_residents rs) → AllLive P rs
unfolding model_residents
model_residents-AllLive P [] h = tt
model_residents-AllLive P ((k, r) ∷ rs) h = elim (Bool-cases (is_live k r)) [
  | inl l ↦ let (p, rest) = rw l at h in ((λ e d. p), model_residents-AllLive P rs rest)
  | inr l ↦
      let rest = rw l at h in
      (
        (λ e d. absurd (let clash : false ≡ true = sym l ∙ (is_live_iff k r).0 e d in cc)),
        model_residents-AllLive P rs rest,
      )
]

Listed-later :
    (e : String × Resident) (rs : Registry) (v : Resident) → Listed rs v → Listed (e ∷ rs) v
Listed-later e rs v (b, k, a, splits, key, d) = (e ∷ b, k, a, ap (◌∷◌ e) splits, key, d)

All-Listed : (rs : Registry) → All (Listed rs) (model_residents rs)
unfolding model_residents
All-Listed [] = tt
All-Listed ((k, r) ∷ rs) =
    let rest = All-map (Listed-later (k, r) rs) (model_residents rs) (All-Listed rs) in
    elim (Bool-cases (is_live k r)) [
      | inl l ↦
          let (key, alive) = (is_live_iff k r).1 l in rw l (([], k, rs, refl, key, alive), rest)
      | inr l ↦ rw l rest
    ]

AllLive-map :
    (P Q : Resident → Type 0) (f : (r : Resident) → P r → Q r) (rs : Registry)
    → AllLive P rs
    → AllLive Q rs
AllLive-map P Q f [] h = tt
AllLive-map P Q f (e ∷ rs) (p, h) = ((λ k d. f e.1 (p k d)), AllLive-map P Q f rs h)

-- The choice of the victim. Either none is chosen and no live resident can be evicted (parked idle, with
-- no active slot and no rider in flight); or the chosen one is a live resident of the registry that can
-- be evicted, and no live resident that can be evicted was active less recently. Live is an entry that is
-- not the singleton's and not dead.
pub lru_idle_evictable-Found : (rs : Registry) → Found rs (lru_idle_evictable rs)
unfolding lru_idle_evictable
lru_idle_evictable-Found rs =
    let live = model_residents rs in
    elim (choose_lem live) [
      | inl (nothing, all) ↦
          let none_evictable =
            All-map {P = λ (c : Resident). evictable c ≡ false}
              {Q = λ (c : Resident). Evictable c → ⊥}
              (λ c e h. absurd (let clash : false ≡ true = sym e ∙ Evictable-evictable c h in cc))
              live all in
          inl (nothing, model_residents-AllLive (λ c. Evictable c → ⊥) rs none_evictable)
      | inr (v, found, (can, oldest)) ↦
          let among =
            choose-All (Listed rs) (candidates live) v
              (candidates-All (Listed rs) live (All-Listed rs)) found in
          let no_older =
            All-map
              {Q = λ (c : Resident).
                Evictable c → v.last_active_monotonic ≤ c.last_active_monotonic}
              (λ c f h. f (Evictable-evictable c h)) live oldest in
          inr (v, found, among, evictable-Evictable v can, model_residents-AllLive _ rs no_older)
    ]

Registered-later :
    (k : String) (r v : Resident) (rs : Registry)
    → lookup k rs ≡ none
    → Registered rs v
    → Registered ((k, r) ∷ rs) v
Registered-later k r v rs fresh (j, found, live, tagged) = elim (Bool-cases (k == j)) [
  | inl e ↦
      let same : k ≡ j = ground (arith, eq_iff k j) in
      absurd (
        let clash : none ≡ some v = sym fresh ∙ ap (λ (x : String). lookup x rs) same ∙ found in cc)
  | inr e ↦ (j, rw e found, live, tagged)
]

All-Registered : (rs : Registry) → Keyed rs → All (Registered rs) (model_residents rs)
unfolding model_residents
All-Registered [] h = tt
All-Registered ((k, r) ∷ rs) (good, fresh, h) =
    let rest =
      All-map {Q = Registered ((k, r) ∷ rs)} (λ v reg. Registered-later k r v rs fresh reg)
        (model_residents rs) (All-Registered rs h) in
    elim (Bool-cases (is_live k r)) [
      | inl l ↦
          let (tagged, xs, boxed) = good.1 (ground arith) in
          let mine : Registered ((k, r) ∷ rs) r = (k, rw (eq_refl k) refl, l, tagged) in
          rw l (mine, rest)
      | inr l ↦ rw l rest
    ]

-- The victim is an entry of the registry.
pub victim-Registered :
    (rs : Registry) (v : Resident) → Keyed rs → lru_idle_evictable rs ≡ some v → Registered rs v
unfolding lru_idle_evictable
victim-Registered rs v h e =
    choose-All (Registered rs) (candidates (model_residents rs)) v
      (candidates-All (Registered rs) (model_residents rs) (All-Registered rs h)) e

-- An eviction takes the entry of the victim out.
pub deregister-Registered :
    (rs : Registry) (k : String) (v : Resident)
    → lookup k rs ≡ some v
    → v.model_tag ≡ some k
    → deregister v rs ≡ delete k rs
deregister-Registered rs k v found tagged =
    let me : eqb v.uid v.uid ≡ true = ground arith in
    let step : delete_same k v.uid (some v) rs ≡ delete k rs = rw me refl in
    ap (λ (o : Option String). deregister_tag o v.uid rs) tagged
    ∙ ap (λ (o : Option Resident). delete_same k v.uid o rs) found
    ∙ step
