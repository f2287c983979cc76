-- ===== src/FanOut/Custody.antt =====
-- manager.py: a burst loses no slot and serves none twice.
use turbohaul_manager_rocm.Prelude.{
  ℕ, ◌+◌, true, List, [], ◌∷◌, ◌++◌, if◌then◌else◌, ltb, eqb, length, arith, ◌≡◌, refl, ◌∙◌, inl,
  inr, Bool-cases,
}
use turbohaul_manager_rocm.FanOut.{
  Rider, Burst, Ended, Wake, launch, take_rider, admit, has, drop_one, end_task, end_tasks, round,
  is_over, rounds, begin, leave, fan_out,
}

-- How often a slot stands in a list.
abbrev pub times : ℕ → List ℕ → ℕ
times k [] = 0
times k (s ∷ ss) = (if eqb k s then 1 else 0) + times k ss

abbrev pub times_waiting : ℕ → List Rider → ℕ
times_waiting k [] = 0
times_waiting k (x ∷ xs) = (if eqb k x.slot_id then 1 else 0) + times_waiting k xs

-- A slot runs, was served, was failed, or waits.
abbrev pub held : ℕ → Burst → ℕ
held k b = times k b.tasks + times k b.served + times k b.failed + times_waiting k b.inbox

-- The riders of the wakes that found the burst not yet over.
abbrev pub heard : ℕ → List Wake → Burst → List Rider
heard n [] b = []
heard n (w ∷ ws) b =
    let rest = heard n ws (round n w b) in if is_over b.tasks then [] else w.arrivals ++ rest

times-append : (k : ℕ) (ss ts : List ℕ) → times k (ss ++ ts) ≡ times k ss + times k ts
times-append k [] ts = omega arith
times-append k (s ∷ ss) ts = omega (arith, times-append k ss ts)

times_waiting-append :
    (k : ℕ) (xs ys : List Rider)
    → times_waiting k (xs ++ ys) ≡ times_waiting k xs + times_waiting k ys
times_waiting-append k [] ys = omega arith
times_waiting-append k (x ∷ xs) ys = omega (arith, times_waiting-append k xs ys)

times-drop_one :
    (k s : ℕ) (ts : List ℕ)
    → has s ts ≡ true
    → times k (drop_one s ts) + (if eqb k s then 1 else 0) ≡ times k ts
times-drop_one k s [] h = absurd cc
times-drop_one k s (t ∷ ts) h = ground (arith, times-drop_one k s ts)

-- What leaves the inbox is launched or failed.
take_rider-held :
    (k : ℕ) (x : Rider) (xs : List Rider) (b : Burst)
    → held k (record (take_rider x b) { inbox = xs }) ≡ held k (record b { inbox = x ∷ xs })
take_rider-held k x xs b = elim (Bool-cases x.is_evicted) [
  | inl v ↦ rw v (omega arith)
  | inr v ↦ rw v (omega (arith, times-append k b.tasks (x.slot_id ∷ [])))
]

admit-held :
    (n k : ℕ) (xs : List Rider) (b : Burst)
    → held k (admit n xs b) ≡ held k (record b { inbox = xs })
unfolding admit
admit-held n k [] b = refl
admit-held n k (x ∷ xs) b = elim (Bool-cases (ltb (length b.tasks) n)) [
  | inl e ↦ rw e (admit-held n k xs (take_rider x b) ∙ take_rider-held k x xs b)
  | inr e ↦ rw e refl
]

end_task-held : (k : ℕ) (e : Ended) (b : Burst) → held k (end_task e b) ≡ held k b
end_task-held k e b = elim (Bool-cases (has e.slot_id b.tasks)) [
  | inl h ↦ rw h (ground (arith, times-drop_one k e.slot_id b.tasks h))
  | inr h ↦ rw h refl
]

end_tasks-held : (k : ℕ) (es : List Ended) (b : Burst) → held k (end_tasks es b) ≡ held k b
unfolding end_tasks
end_tasks-held k [] b = refl
end_tasks-held k (e ∷ es) b = end_tasks-held k es (end_task e b) ∙ end_task-held k e b

round-held :
    (n k : ℕ) (w : Wake) (b : Burst) → held k (round n w b) ≡ held k b + times_waiting k w.arrivals
unfolding round
round-held n k w b =
    let b' = record b { inbox = b.inbox ++ w.arrivals } in
    admit-held n k (end_tasks w.done b').inbox (end_tasks w.done b')
    ∙ end_tasks-held k w.done b'
    ∙ omega (arith, times_waiting-append k b.inbox w.arrivals)

rounds-held :
    (n k : ℕ) (ws : List Wake) (b : Burst)
    → held k (rounds n ws b) ≡ held k b + times_waiting k (heard n ws b)
unfolding rounds
rounds-held n k [] b = omega arith
rounds-held n k (w ∷ ws) b = elim (Bool-cases (is_over b.tasks)) [
  | inl e ↦ rw e (omega arith)
  | inr e ↦ rw e (
      omega (
        arith,
        rounds-held n k ws (round n w b),
        round-held n k w b,
        times_waiting-append k w.arrivals (heard n ws (round n w b)),
      ))
]

-- Each slot that came to a burst, as its anchor, in the inbox or at a wake before it was over, is there as often as it
-- came: it runs, was served, was failed or waits, and is in no two of these places at once.
pub fan_out-held :
    (n anchor k : ℕ) (inbox : List Rider) (ws : List Wake)
    → held k (fan_out n anchor inbox ws)
      ≡ (if eqb k anchor then 1 else 0)
        + times_waiting k inbox
        + times_waiting k (heard n ws (begin n anchor inbox))
unfolding fan_out begin
fan_out-held n anchor k inbox ws = omega (
  arith,
  rounds-held n k ws (begin n anchor inbox),
  admit-held n k inbox
      (launch anchor record { tasks = []; inflight = []; inbox = inbox; served = []; failed = [] }),
)

-- A burst that is interrupted fails each slot that still ran, and leaves none in flight.
pub leave-held :
    (k : ℕ) (b : Burst)
    → (held k (leave b) ≡ held k b) × ((leave b).tasks ≡ []) × ((leave b).inflight ≡ [])
unfolding leave
leave-held k b = (omega (arith, times-append k b.tasks b.failed), refl, refl)
