-- ===== src/State.antt =====
-- state.py: the table of slots in SQLite, as the list of its rows; `slot_id` is the primary key. The
-- time of a call (`utcnow_iso`) and the JSON text of the client's metadata come from outside.
pub mod Reconcile
pub mod Settled
pub mod Rows
mod Tests
use turbohaul_manager_rocm.Prelude.{
  ℕ, ◌+◌, ◌==◌, String, Bool, true, false, not, ◌&&◌, ◌||◌, Option, none, some, List, [], ◌∷◌, map,
  if◌then◌else◌, eqb, length,
}

pub record SlotRow : Type 0 where
  pub slot_id : String
  pub model_tag : String
  pub thread_id : Option String
  pub state : String
  pub port : Option ℕ
  pub pid : Option ℕ
  pub created_at : String
  pub updated_at : String
  pub ended_at : Option String
  pub end_reason : Option String
  pub extension_count : ℕ
  pub client_meta_json : String

-- The dict that `upsert_slot` takes.
pub record SlotEntry : Type 0 where
  pub slot_id : String
  pub model_tag : String
  pub thread_id : Option String
  pub state : String
  pub port : Option ℕ
  pub pid : Option ℕ
  pub created_at : Option String
  pub ended_at : Option String
  pub end_reason : Option String
  pub extension_count : Option ℕ
  pub client_meta_json : String

abbrev pub or_now : Option String → String → String
or_now none now = now
or_now (some t) now = if t == "" then now else t

abbrev pub or_zero : Option ℕ → ℕ
or_zero none = 0
or_zero (some n) = n

abbrev pub inserted : String → SlotEntry → SlotRow
inserted now e = record {
  slot_id = e.slot_id;
  model_tag = e.model_tag;
  thread_id = e.thread_id;
  state = e.state;
  port = e.port;
  pid = e.pid;
  created_at = or_now e.created_at now;
  updated_at = now;
  ended_at = e.ended_at;
  end_reason = e.end_reason;
  extension_count = or_zero e.extension_count;
  client_meta_json = e.client_meta_json;
}

-- `ON CONFLICT(slot_id) DO UPDATE` leaves the model and the time of creation.
abbrev pub updated : String → SlotEntry → SlotRow → SlotRow
updated now e r = record (inserted now e) {
  slot_id = r.slot_id;
  model_tag = r.model_tag;
  created_at = r.created_at;
}

unfoldable pub upsert_slot : String → SlotEntry → List SlotRow → List SlotRow
upsert_slot now e [] = inserted now e ∷ []
upsert_slot now e (r ∷ rs) =
    if r.slot_id == e.slot_id then updated now e r ∷ rs else r ∷ upsert_slot now e rs

-- `state NOT IN ('POPPED', 'COLD') AND ended_at IS NULL`
abbrev pub is_null : Option String → Bool
is_null none = true
is_null (some t) = false

abbrev pub is_open : SlotRow → Bool
is_open r = not (r.state == "POPPED") && not (r.state == "COLD") && is_null r.ended_at

abbrev pub with_pid : Option ℕ → List ℕ → List ℕ
with_pid none ps = ps
with_pid (some p) ps = if eqb p 0 then ps else p ∷ ps

-- The pids of the set, in the order of the rows.
unfoldable pub known_active_pids : List SlotRow → List ℕ
known_active_pids [] = []
known_active_pids (r ∷ rs) =
    if is_open r then with_pid r.pid (known_active_pids rs) else known_active_pids rs

abbrev pub ended : String → String → SlotRow → SlotRow
ended now reason r = record r {
  state = "COLD";
  ended_at = some now;
  end_reason = some reason;
  updated_at = now;
}

unfoldable pub mark_slot_ended : String → String → String → List SlotRow → List SlotRow
mark_slot_ended now i reason rs =
    map (λ (r : SlotRow). if r.slot_id == i then ended now reason r else r) rs

abbrev pub is_in : ℕ → List ℕ → Bool
is_in p [] = false
is_in p (q ∷ qs) = eqb q p || is_in p qs

-- The rows of the first pass: a pid that is not alive.
abbrev pub lost_pid : List ℕ → Option ℕ → Bool
lost_pid live none = false
lost_pid live (some p) = not (is_in p live)

abbrev pub is_orphaned : List ℕ → SlotRow → Bool
is_orphaned live r = is_open r && lost_pid live r.pid

-- The rows of the second pass: no pid, and not parked.
abbrev pub no_pid : Option ℕ → Bool
no_pid none = true
no_pid (some p) = false

abbrev pub is_pre_active : SlotRow → Bool
is_pre_active r = is_open r && no_pid r.pid && not (r.state == "IDLE_HOT")

abbrev pub select : (SlotRow → Bool) → List SlotRow → List String
select test [] = []
select test (r ∷ rs) = if test r then r.slot_id ∷ select test rs else select test rs

unfoldable pub mark_each : String → String → List String → List SlotRow → List SlotRow
unfolding mark_slot_ended
mark_each now reason [] rs = rs
mark_each now reason (i ∷ is) rs = mark_each now reason is (mark_slot_ended now i reason rs)

abbrev pub orphaned_pid : String
orphaned_pid = "boot-reconcile-orphaned-pid"

abbrev pub pre_active_orphan : String
pre_active_orphan = "boot-reconcile-pre-active-orphan"

-- The table, and the count of slots marked.
unfoldable pub reconcile_orphaned_slots : String → List ℕ → List SlotRow → List SlotRow × ℕ
unfolding mark_each
reconcile_orphaned_slots now live rs =
    let first = select (is_orphaned live) rs in
    let after_first = mark_each now orphaned_pid first rs in
    let second = select is_pre_active after_first in
    (mark_each now pre_active_orphan second after_first, length first + length second)
