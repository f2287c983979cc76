-- ===== src/Telemetry.antt =====
-- telemetry.py, `_RingBuffer`: the recent events, each with the number that it got on arrival.
pub mod Ring
pub mod Paging
mod Tests
use turbohaul_manager_rocm.Prelude.{
  ℕ, suc, ◌+◌, ◌-◌, ◌==◌, String, Bool, true, false, ◌&&◌, Option, none, some, List, [], ◌∷◌, ◌++◌,
  if◌then◌else◌, ltb, eqb, length, drop,
}

-- An event is its number, its type and the text of the rest.
pub record Event : Type 0 where
  pub seq : ℕ
  pub event_type : Option String
  pub body : String

pub record RingBuffer : Type 0 where
  pub capacity : ℕ
  pub buf : List Event
  pub last_id : ℕ

-- `xs[-n:]`, which is the whole list for 0 as well.
abbrev pub last_n : ℕ → List Event → List Event
last_n n xs = if eqb n 0 then xs else drop (length xs - n) xs

abbrev pub trimmed : ℕ → List Event → List Event
trimmed capacity xs = if ltb capacity (length xs) then last_n capacity xs else xs

-- The buffer, and the event's number.
unfoldable pub append : Option String → String → RingBuffer → RingBuffer × ℕ
append event_type body r =
    let n = r.last_id + 1 in
    let grown = r.buf ++ record { seq = n; event_type = event_type; body = body } ∷ [] in
    (record r { last_id = n; buf = trimmed r.capacity grown }, n)

abbrev pub is_type : Option String → Option String → Bool
is_type none t = true
is_type (some w) none = false
is_type (some w) (some t) = t == w

abbrev pub select : Option String → ℕ → List Event → List Event
select event_type since [] = []
select event_type since (e ∷ es) =
    if ltb since e.seq && is_type event_type e.event_type
    then e ∷ select event_type since es
    else select event_type since es

abbrev pub last_seq : List Event → Option ℕ
last_seq [] = none
last_seq (e ∷ []) = some e.seq
last_seq (e ∷ f ∷ es) = last_seq (f ∷ es)

abbrev pub newest : ℕ → List Event → List Event
newest limit asked = if ltb limit (length asked) then last_n limit asked else asked

abbrev pub page_of : ℕ → List Event → List Event × Option ℕ
page_of limit asked =
    let filtered = newest limit asked in
    (filtered, if eqb (length filtered) limit then last_seq filtered else none)

unfoldable pub get : ℕ → Option String → ℕ → RingBuffer → List Event × Option ℕ
get limit event_type since r = page_of limit (select event_type since r.buf)
