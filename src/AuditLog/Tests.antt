-- ===== src/AuditLog/Tests.antt =====
-- The audit log at a table of three events.
use turbohaul_manager_rocm.Prelude.{ℕ, String, true, List, [], ◌∷◌, none, some, arith, ◌≡◌}
use turbohaul_manager_rocm.AuditLog.{Row, select}
use turbohaul_manager_rocm.AuditLog.Complete.{fetch_all, fetch_all-select}
use turbohaul_manager_rocm.Json.{Json, object, boolean, text, field, end}
use turbohaul_manager_rocm.AuditLog.Redact.{redact, is_clean, redact_lem}

abbrev event : ℕ → String → Row
event id event_type = record {
  event_id = id;
  slot_id = some "s1";
  event_type = event_type;
  payload_json = none;
  occurred_at = "2026-01-01T00:00:00+00:00";
}

abbrev table : List Row
table = event 1 "submit" ∷ event 4 "active" ∷ event 6 "submit" ∷ []

-- Two such events exceed the budget of a page.
abbrev large : Row → ℕ
large r = 50000

fetch_all-select_example :
    fetch_all large 4 none (some "submit") 200 table 0
    ≡ some (event 1 "submit" ∷ event 6 "submit" ∷ [])
unfolding select
fetch_all-select_example =
    fetch_all-select large 4 none (some "submit") 200 table 0
      (omega arith, (omega arith, (omega arith, tt))) (omega arith)

-- A payload with a prompt one level down.
abbrev payload : Json
payload =
    object
      (field "ok" (boolean true) (field "request" (object (field "prompt" (text "k") end)) end))

redact_example :
    (is_clean 0 (redact 0 payload) ≡ true)
    × (is_clean 0 payload ≡ true → redact 0 payload ≡ payload)
    × (redact 0 (redact 0 payload) ≡ redact 0 payload)
redact_example = redact_lem payload
