-- ===== src/Live.antt =====
-- live_monitor.py, `LiveOutputBuffer`: a bounded buffer of output text for each generation. Bytes and
-- text are lists of numbers. What a frame's JSON says is a parameter: `text_of` gives the joined
-- pieces of a frame, and nothing where there are none or the frame cannot be read.
pub mod Framing
pub mod Eviction
pub mod Buffer
pub mod Bounds
mod Tests
use turbohaul_manager_rocm.Prelude.{
  ℕ, zero, suc, ◌+◌, ◌-◌, ◌==◌, String, Bool, true, false, ◌&&◌, Option, none, some, List, [], ◌∷◌,
  ◌++◌, map, if◌then◌else◌, ltb, leb, eqb, length, drop,
}

-- A subscriber's queue; `none` in it is the sentinel for the end.
pub record Subscriber : Type 0 where
  pub queue_id : ℕ
  pub pending : List (Option (List ℕ))

pub record GenBuf : Type 0 where
  pub tail : List ℕ
  pub carry : List ℕ
  pub done : Bool
  pub subs : List Subscriber

-- The ordered dict, oldest first.
pub record LiveOutputBuffer : Type 0 where
  pub max_keys : ℕ
  pub tail_bytes : ℕ
  pub buffers : List (String × GenBuf)

abbrev pub max_subs_per_gen : ℕ
max_subs_per_gen = 32

abbrev pub carry_max_bytes : ℕ
carry_max_bytes = 65536

abbrev pub find : String → List (String × GenBuf) → Option GenBuf
find k [] = none
find k ((j, b) ∷ bs) = if j == k then some b else find k bs

abbrev pub pop : String → List (String × GenBuf) → List (String × GenBuf)
pop k [] = []
pop k ((j, b) ∷ bs) = if j == k then bs else (j, b) ∷ pop k bs

abbrev pub replace : String → GenBuf → List (String × GenBuf) → List (String × GenBuf)
replace k c [] = []
replace k c ((j, b) ∷ bs) = if j == k then (j, c) ∷ bs else (j, b) ∷ replace k c bs

abbrev pub is_watched : GenBuf → Bool
is_watched b = ltb 0 (length b.subs)

-- The `for` of `_evict`: the oldest buffer without subscribers goes; `none` is the `else`.
abbrev pub evict_one : List (String × GenBuf) → Option (List (String × GenBuf))
evict_one [] = none
evict_one ((k, b) ∷ bs) =
    if is_watched b
    then elim (evict_one bs) [ none ↦ none | some rest ↦ some ((k, b) ∷ rest) ]
    else some bs

-- The `while` of `_evict`, with fuel.
unfoldable pub evict_loop : ℕ → ℕ → List (String × GenBuf) → List (String × GenBuf)
evict_loop zero max_keys bs = bs
evict_loop (suc n) max_keys bs =
    if ltb max_keys (length bs)
    then elim (evict_one bs) [ none ↦ bs | some rest ↦ evict_loop n max_keys rest ]
    else bs

unfoldable pub evict : ℕ → List (String × GenBuf) → List (String × GenBuf)
unfolding evict_loop
evict max_keys bs = evict_loop (length bs) max_keys bs

abbrev pub fresh : GenBuf
fresh = record { tail = []; carry = []; done = false; subs = [] }

abbrev pub move_to_end : String → GenBuf → List (String × GenBuf) → List (String × GenBuf)
move_to_end k b bs = pop k bs ++ (k, b) ∷ []

-- `_get`. A buffer that was just created and that the eviction took at once is not in the dict when it
-- is moved to the end, which raises: `none`. The dict is then what it was before the call.
abbrev pub moved : String → List (String × GenBuf) → Option (List (String × GenBuf))
moved k bs = elim (find k bs) [ none ↦ none | some b ↦ some (move_to_end k b bs) ]

unfoldable pub create_buf : String → LiveOutputBuffer → Option (List (String × GenBuf))
unfolding evict
create_buf k l = moved k (evict l.max_keys (l.buffers ++ (k, fresh) ∷ []))

-- `split(b"\n\n", 1)`, where the separator is there.
abbrev pub split_once : List ℕ → Option (List ℕ × List ℕ)
split_once [] = none
split_once (b ∷ []) = none
split_once (b ∷ c ∷ bs) =
    if eqb b 10 && eqb c 10
    then some ([], bs)
    else elim (split_once (c ∷ bs)) [ none ↦ none | some (f, rest) ↦ some (b ∷ f, rest) ]

-- The frames of `feed`'s loop and the carry that is left, with fuel.
unfoldable pub frames : ℕ → List ℕ → List (List ℕ) × List ℕ
frames zero carry = ([], carry)
frames (suc n) carry = elim (split_once carry) [
  | none ↦ ([], carry)
  | some (f, rest) ↦ let (fs, left) = frames n rest in (f ∷ fs, left)
]

-- The loop of `feed` on the carry and the new bytes; what is left is dropped over the cap.
unfoldable pub reframe : List ℕ → List ℕ → List (List ℕ) × List ℕ
unfolding frames
reframe carry bytes =
    let (fs, left) = frames (length (carry ++ bytes)) (carry ++ bytes) in
    (fs, if ltb carry_max_bytes (length left) then [] else left)
