-- ===== src/FanOut.antt =====
-- manager.py: `_fan_out_on_resident`, which serves a burst of requests for one model at most `n_parallel` at a time.
-- A slot is its id. Between two waits the dispatcher may put riders in the inbox and some tasks may end:
-- that is a `Wake`. `asyncio.wait` gives tasks of its own set.
pub mod Full
pub mod Custody
mod Tests
use turbohaul_manager_rocm.Prelude.{
  ℕ, ◌+◌, Bool, true, false, List, [], ◌∷◌, ◌++◌, if◌then◌else◌, ltb, eqb, length,
}

pub record Rider : Type 0 where
  pub slot_id : ℕ
  pub is_evicted : Bool

-- `tasks`, with the slot of each, and `r.inflight`; `served` and `failed` are the slots whose task ended well, and
-- those whose future was failed, the latest first.
pub record Burst : Type 0 where
  pub tasks : List ℕ
  pub inflight : List ℕ
  pub inbox : List Rider
  pub served : List ℕ
  pub failed : List ℕ

-- A task that ended: its slot, and whether it raised.
pub record Ended : Type 0 where
  pub slot_id : ℕ
  pub raised : Bool

pub record Wake : Type 0 where
  pub arrivals : List Rider
  pub done : List Ended

abbrev pub launch : ℕ → Burst → Burst
launch s b = record b { tasks = b.tasks ++ s ∷ []; inflight = b.inflight ++ s ∷ [] }

abbrev pub fail : ℕ → Burst → Burst
fail s b = record b { failed = s ∷ b.failed }

abbrev pub take_rider : Rider → Burst → Burst
take_rider x b = if x.is_evicted then fail x.slot_id b else launch x.slot_id b

-- `_admit_from_inbox`, over the inbox's riders.
unfoldable pub admit : ℕ → List Rider → Burst → Burst
admit n [] b = record b { inbox = [] }
admit n (x ∷ xs) b =
    let rest = admit n xs (take_rider x b) in
    if ltb (length b.tasks) n then rest else record b { inbox = x ∷ xs }

abbrev pub admit_from_inbox : ℕ → Burst → Burst
admit_from_inbox n b = admit n b.inbox b

abbrev pub has : ℕ → List ℕ → Bool
has s [] = false
has s (t ∷ ts) = if eqb s t then true else has s ts

abbrev pub drop_one : ℕ → List ℕ → List ℕ
drop_one s [] = []
drop_one s (t ∷ ts) = if eqb s t then ts else t ∷ drop_one s ts

-- The body of `for t in done`.
abbrev pub end_task : Ended → Burst → Burst
end_task e b =
    if has e.slot_id b.tasks
    then record b {
      tasks = drop_one e.slot_id b.tasks;
      inflight = drop_one e.slot_id b.inflight;
      served = if e.raised then b.served else e.slot_id ∷ b.served;
      failed = if e.raised then e.slot_id ∷ b.failed else b.failed;
    }
    else b

unfoldable pub end_tasks : List Ended → Burst → Burst
end_tasks [] b = b
end_tasks (e ∷ es) b = end_tasks es (end_task e b)

unfoldable pub round : ℕ → Wake → Burst → Burst
unfolding admit end_tasks
round n w b = admit_from_inbox n (end_tasks w.done (record b { inbox = b.inbox ++ w.arrivals }))

abbrev pub is_over : List ℕ → Bool
is_over [] = true
is_over (t ∷ ts) = false

-- `while tasks`: the wakes that come after the last task ended find the loop left.
unfoldable pub rounds : ℕ → List Wake → Burst → Burst
unfolding round
rounds n [] b = b
rounds n (w ∷ ws) b = let rest = rounds n ws (round n w b) in if is_over b.tasks then b else rest

unfoldable pub begin : ℕ → ℕ → List Rider → Burst
unfolding admit
begin n anchor inbox =
    admit_from_inbox n
      (launch anchor record { tasks = []; inflight = []; inbox = inbox; served = []; failed = [] })

-- `finally`: an interrupted burst fails the slots whose tasks still run.
abbrev pub fail_all : List ℕ → Burst → Burst
fail_all ts b = record b { failed = ts ++ b.failed; tasks = []; inflight = [] }

unfoldable pub leave : Burst → Burst
leave b = fail_all b.tasks b

-- The burst after these wakes.
unfoldable pub fan_out : ℕ → ℕ → List Rider → List Wake → Burst
unfolding rounds begin
fan_out n anchor inbox ws = rounds n ws (begin n anchor inbox)
