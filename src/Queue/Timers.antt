-- ===== src/Queue/Timers.antt =====
-- queue.py, `GraceTimer` and `IdleHotTimer`. A reading of the monotonic clock is an argument of each
-- method that reads it; a reading never precedes an earlier one, so `now - started` is exact.
use turbohaul_manager_rocm.Prelude.{
  ℕ, suc, ◌+◌, ◌-◌, ◌*◌, ◌≤◌, ◌<◌, ◌==◌, String, Bool, true, false, ◌&&◌, not, Option, none, some,
  List, [], ◌∷◌, ◌∙◌, if◌then◌else◌, leb, leb-false→lt, arith, ◌≡◌, refl, ◌↔◌, eq_iff, Bool-cases,
  inl, inr,
}
use mathlib.Core.Path.{ap₂}

pub record GraceTimer : Type 0 where
  pub grace_seconds : ℕ
  pub max_extensions : ℕ
  pub started_at : Option ℕ
  pub thread_id : Option String
  pub model_tag : Option String
  pub extension_count : ℕ

unfoldable pub new_grace : ℕ → ℕ → GraceTimer
new_grace grace_seconds max_extensions = record {
  grace_seconds = grace_seconds;
  max_extensions = max_extensions;
  started_at = none;
  thread_id = none;
  model_tag = none;
  extension_count = 0;
}

unfoldable pub start : ℕ → String → String → GraceTimer → GraceTimer
start now thread model g = record g {
  started_at = some now;
  thread_id = some thread;
  model_tag = some model;
  extension_count = 0;
}

unfoldable pub restart_for_followup : ℕ → GraceTimer → Bool × GraceTimer
restart_for_followup now g =
    if leb g.max_extensions g.extension_count
    then (false, g)
    else (true, record g { extension_count = g.extension_count + 1; started_at = some now })

-- `max(0.0, seconds - (now - started))`, and 0 for a timer that does not run.
unfoldable pub remaining : ℕ → ℕ → Option ℕ → ℕ
remaining now seconds none = 0
remaining now seconds (some started) = seconds - (now - started)

abbrev runs : Option ℕ → Bool
runs none = false
runs (some started) = true

unfoldable pub expired : ℕ → ℕ → Option ℕ → Bool
unfolding remaining
expired now seconds started = if runs started then leb (remaining now seconds started) 0 else true

abbrev is_some_text : Option String → String → Bool
is_some_text none t = false
is_some_text (some s) t = s == t

unfoldable pub matches : ℕ → String → String → GraceTimer → Bool
unfolding expired
matches now thread model g =
    runs g.started_at
    && is_some_text g.thread_id thread
    && is_some_text g.model_tag model
    && not (expired now g.grace_seconds g.started_at)

unfoldable pub reset : GraceTimer → GraceTimer
reset g = record g { started_at = none; thread_id = none; model_tag = none; extension_count = 0 }

pub record IdleHotTimer : Type 0 where
  pub idle_seconds : ℕ
  pub idle_started_at : Option ℕ
  pub idle_model_tag : Option String

unfoldable pub start_idle : ℕ → String → IdleHotTimer → IdleHotTimer
start_idle now model t = record t { idle_started_at = some now; idle_model_tag = some model }

unfoldable pub matches_same_model : ℕ → String → IdleHotTimer → Bool
unfolding expired
matches_same_model now model t =
    runs t.idle_started_at
    && is_some_text t.idle_model_tag model
    && not (expired now t.idle_seconds t.idle_started_at)

unfoldable pub reset_idle : IdleHotTimer → IdleHotTimer
reset_idle t = record t { idle_started_at = none; idle_model_tag = none }

-- The timer's part of `TurbohaulManager.submit`: a request that matches the open window restarts it.
unfoldable pub followup : String → String → GraceTimer → ℕ → GraceTimer
unfolding matches restart_for_followup
followup thread model g now =
    if matches now thread model g then (restart_for_followup now g).1 else g

unfoldable pub followups : String → String → GraceTimer → List ℕ → GraceTimer
followups thread model g [] = g
followups thread model g (now ∷ times) = followups thread model (followup thread model g now) times

-- The window matches exactly while the timer runs, for the thread and the model that started it,
-- until `grace_seconds` have passed.
pub matches_iff :
    (now : ℕ) (thread model : String) (g : GraceTimer)
    → (matches now thread model g ≡ true) ↔ (
        (started : ℕ) × (g.started_at ≡ some started)
        × (g.thread_id ≡ some thread)
        × (g.model_tag ≡ some model)
        × (now - started < g.grace_seconds))
unfolding matches
matches_iff now thread model g = by_fields g.started_at g.thread_id g.model_tag refl refl refl
  where
    by_fields :
        (s : Option ℕ) (t m : Option String)
        → g.started_at ≡ s
        → g.thread_id ≡ t
        → g.model_tag ≡ m
        → (matches now thread model g ≡ true) ↔ (
            (started : ℕ) × (g.started_at ≡ some started)
            × (g.thread_id ≡ some thread)
            × (g.model_tag ≡ some model)
            × (now - started < g.grace_seconds))
    by_fields none t m es et em = (λ h. ground arith, λ (x, a, b, c, d). ground arith)
    by_fields (some s) none m es et em = (λ h. ground arith, λ (x, a, b, c, d). ground arith)
    by_fields (some s) (some t) none es et em = (λ h. ground arith, λ (x, a, b, c, d). ground arith)
    by_fields (some s) (some t) (some m) es et em = (
      λ h. (s, es, ground (arith, eq_iff t thread), ground (arith, eq_iff m model), ground arith),
      λ (x, a, b, c, d). ground (arith, eq_iff t thread, eq_iff m model),
    )

-- What holds of a window that opened at `opened`, after any follow-ups.
record Window (opened : ℕ) (g : GraceTimer) : Type 0 where
  capped : g.extension_count ≤ g.max_extensions
  close_enough :
      (started : ℕ)
      → g.started_at ≡ some started
      → started ≤ opened + g.extension_count * g.grace_seconds

followup-Window :
    (opened : ℕ) (thread model : String) (g : GraceTimer) (now : ℕ)
    → Window opened g
    → Window opened (followup thread model g now)
unfolding followup
followup-Window opened thread model g now w = elim (Bool-cases (matches now thread model g)) [
  | inl h ↦ elim (Bool-cases (leb g.max_extensions g.extension_count)) [
    | inl k ↦ rw (h, k) w
    | inr k ↦
        let (s, es, et, em, lt) = (matches_iff now thread model g).0 h in
        rw (h, k)
          (record {
            capped = omega (arith, leb-false→lt _ _ k);
            close_enough = λ started e.
                let e' : now ≡ started = ground arith in ground (arith, w.close_enough s es);
          })
  ]
  | inr h ↦ rw h w
]

followup_keeps :
    (thread model : String) (g : GraceTimer) (now : ℕ)
    → ((followup thread model g now).grace_seconds ≡ g.grace_seconds)
      × ((followup thread model g now).max_extensions ≡ g.max_extensions)
unfolding followup
followup_keeps thread model g now = elim (Bool-cases (matches now thread model g)) [
  | inl h ↦ elim (Bool-cases (leb g.max_extensions g.extension_count)) [
    | inl k ↦ (rw (h, k), rw (h, k))
    | inr k ↦ (rw (h, k), rw (h, k))
  ]
  | inr h ↦ (rw h, rw h)
]

followups-Window :
    (opened : ℕ) (thread model : String) (times : List ℕ) (g : GraceTimer)
    → Window opened g
    → Window opened (followups thread model g times)
      × ((followups thread model g times).grace_seconds ≡ g.grace_seconds)
      × ((followups thread model g times).max_extensions ≡ g.max_extensions)
unfolding followups
followups-Window opened thread model [] g w = (w, refl, refl)
followups-Window opened thread model (now ∷ times) g w =
    let (w', a, b) =
      followups-Window opened thread model times (followup thread model g now)
        (followup-Window opened thread model g now w) in
    let (c, d) = followup_keeps thread model g now in (w', a ∙ c, b ∙ d)

product_le : (e m s : ℕ) → e ≤ m → e * s + s ≤ suc m * s
product_le e m s h = grind arith

started-Window :
    (opened : ℕ) (thread model : String) (g : GraceTimer)
    → Window opened (start opened thread model g)
unfolding start
started-Window opened thread model g = record {
  capped = omega arith;
  close_enough = λ started e. let e' : opened ≡ started = ground arith in omega arith;
}

-- A grace window that opens at `opened` matches no request from
-- `opened + (max_extensions + 1) * grace_seconds` on, whatever follow-ups restart it.
pub matches-followups_bounded :
    (opened now : ℕ) (thread model : String) (g : GraceTimer) (times : List ℕ)
    → matches now thread model (followups thread model (start opened thread model g) times) ≡ true
    → now < opened + suc g.max_extensions * g.grace_seconds
unfolding start
matches-followups_bounded opened now thread model g times h =
    let (w, same_s, same_m) =
      followups-Window opened thread model times (start opened thread model g)
        (started-Window opened thread model g) in
    let late = followups thread model (start opened thread model g) times in
    let (s, es, et, em, lt) = (matches_iff now thread model late).0 h in
    omega (
      arith,
      w.close_enough s es,
      product_le late.extension_count late.max_extensions late.grace_seconds w.capped,
      same_s,
      ap₂ (λ (a b : ℕ). suc a * b) same_m same_s,
    )
