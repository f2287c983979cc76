-- ===== src/AuditLog.antt =====
-- api/logging.py: one page of the audit events. The rows come from the table `audit_events`, whose
-- `event_id` is an ascending primary key. The length of an event's JSON text is a parameter, since
-- the encoder is the JSON library's.
pub mod Pages
pub mod Complete
pub mod Budget
pub mod Redact
mod Tests
use turbohaul_manager_rocm.Prelude.{
  ℕ, suc, ◌+◌, ◌==◌, String, Bool, true, false, ◌&&◌, ◌||◌, Option, none, some, List, [], ◌∷◌,
  if◌then◌else◌, ltb, leb, eqb, length, take,
}

pub record Row : Type 0 where
  pub event_id : ℕ
  pub slot_id : Option String
  pub event_type : String
  pub payload_json : Option String
  pub occurred_at : String

abbrev pub envelope_overhead_chars : ℕ
envelope_overhead_chars = 512

-- `EFFECTIVE_BUDGET`
abbrev pub effective_budget : ℕ
effective_budget = 79488

abbrev pub limit_min : ℕ
limit_min = 1

abbrev pub limit_max : ℕ
limit_max = 500

unfoldable pub clamp_limit : ℕ → ℕ
clamp_limit limit =
    if ltb limit limit_min then limit_min else if ltb limit_max limit then limit_max else limit

-- `(? IS NULL OR column = ?)`; a column that is NULL equals nothing.
abbrev pub passes : Option String → Option String → Bool
passes none column = true
passes (some wanted) none = false
passes (some wanted) (some value) = value == wanted

abbrev pub wanted : Option String → Option String → Row → Bool
wanted slot_id event_type r = passes slot_id r.slot_id && passes event_type (some r.event_type)

-- The WHERE clause of the query, over the table in ascending order.
unfoldable pub select : ℕ → Option String → Option String → List Row → List Row
select since slot_id event_type [] = []
select since slot_id event_type (r ∷ rs) =
    let rest = select since slot_id event_type rs in
    if leb since r.event_id && wanted slot_id event_type r then r ∷ rest else rest

pub record Page : Type 0 where
  pub events : List Row
  pub next_since : Option ℕ
  pub oversized : Bool

-- The id after the last event.
abbrev pub after_last : List Row → Option ℕ
after_last [] = none
after_last (r ∷ []) = some (suc r.event_id)
after_last (r ∷ s ∷ rs) = after_last (s ∷ rs)

-- The `else` of the loop, and the fallback for a first row that alone exceeds the budget.
abbrev pub finish : ℕ → List Row → List Row × Option ℕ → Page
finish limit [] (events, stopped) = record { events = []; next_since = none; oversized = false }
finish limit (r ∷ rs) ([], stopped) = record {
  events = r ∷ [];
  next_since = some (suc r.event_id);
  oversized = true;
}
finish limit (r ∷ rs) (e ∷ es, some n) = record {
  events = e ∷ es;
  next_since = some n;
  oversized = false;
}
finish limit (r ∷ rs) (e ∷ es, none) = record {
  events = e ∷ es;
  next_since = if eqb (length (r ∷ rs)) limit then after_last (e ∷ es) else none;
  oversized = false;
}

module _ (encoded_len : Row → ℕ) where
  -- The `for` loop: the events that fit, and the id at which it broke off.
  unfoldable pub collect : ℕ → List Row → List Row × Option ℕ
  collect used [] = ([], none)
  collect used (r ∷ rs) =
      let (events, stopped) = collect (used + encoded_len r) rs in
      if ltb effective_budget (used + encoded_len r)
      then ([], some r.event_id)
      else (r ∷ events, stopped)

  unfoldable pub get_logging : ℕ → Option String → Option String → ℕ → List Row → Page
  get_logging since slot_id event_type limit table =
      let rows = take (clamp_limit limit) (select since slot_id event_type table) in
      finish (clamp_limit limit) rows (collect 0 rows)
