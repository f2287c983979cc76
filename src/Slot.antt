-- ===== src/Slot.antt =====
-- slot.py: the states of a request slot, and the slot itself.
use turbohaul_manager_rocm.Prelude.{ℕ, eqb, String, Bool, false, Option, none, some}

pub data SlotState : Type 0 where
  received accept_buffer staged loading loading_fail active grace grace_busy active_match popped
        idle_hot cold :
      SlotState

-- The position of a state in the enumeration, by which states are compared.
abbrev pub ordinal : SlotState → ℕ
ordinal received = 0
ordinal accept_buffer = 1
ordinal staged = 2
ordinal loading = 3
ordinal loading_fail = 4
ordinal active = 5
ordinal grace = 6
ordinal grace_busy = 7
ordinal active_match = 8
ordinal popped = 9
ordinal idle_hot = 10
ordinal cold = 11

abbrev pub state_eq : SlotState → SlotState → Bool
state_eq a b = eqb (ordinal a) (ordinal b)

-- An `asyncio.Future`: pending, resolved with a result, or failed.
pub data Future : Type 0 where
  pending : Future
  resolved : Future
  failed : Future

-- The dataclass. Times are readings of the monotonic clock. `disconnect_event` is `none` for
-- a caller without one, and otherwise says whether the event is set.
pub record Slot : Type 0 where
  pub slot_id : String
  pub model_tag : String
  pub state : SlotState
  pub prompt : String
  pub thread_id : String
  pub port : Option ℕ
  pub pid : Option ℕ
  pub extension_count : ℕ
  pub created_at : ℕ
  pub started_active_at : ℕ
  pub grace_started_at : ℕ
  pub completion_future : Option Future
  pub disconnect_event : Option Bool
  pub is_evicted : Bool

-- `Slot.new`: the id and the time of creation come from outside.
unfoldable pub new : String → String → String → String → ℕ → Slot
new slot_id model_tag prompt thread_id now = record {
  slot_id = slot_id;
  model_tag = model_tag;
  state = received;
  prompt = prompt;
  thread_id = thread_id;
  port = none;
  pid = none;
  extension_count = 0;
  created_at = now;
  started_active_at = 0;
  grace_started_at = 0;
  completion_future = none;
  disconnect_event = none;
  is_evicted = false;
}

-- `slot.disconnect_event is not None and slot.disconnect_event.is_set()`
abbrev pub is_disconnected : Option Bool → Bool
is_disconnected none = false
is_disconnected (some b) = b
