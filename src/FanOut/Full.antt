-- ===== src/FanOut/Full.antt =====
-- manager.py: a burst never serves more than `n_parallel` slots at once, and leaves no free place while a rider waits.
use turbohaul_manager_rocm.Prelude.{
  ℕ, ◌≤◌, ◌<◌, List, [], ◌∷◌, ◌++◌, ltb, length, length-append, arith, ◌≡◌, refl, ap, ◌∙◌, ◌⊎◌, inl,
  inr, Bool-cases,
}
use turbohaul_manager_rocm.FanOut.{
  Rider, Burst, Ended, Wake, take_rider, admit, has, drop_one, end_task, end_tasks, round, is_over,
  rounds, begin, fan_out,
}

-- The tasks are those of `r.inflight`, at most `n`, and all places are taken or no rider waits.
pub record IsFull (n : ℕ) (b : Burst) : Type 0 where
  pub same : b.inflight ≡ b.tasks
  pub capped : length b.tasks ≤ n
  pub full : (n ≤ length b.tasks) ⊎ (b.inbox ≡ [])

length-drop_one : (s : ℕ) (ts : List ℕ) → length (drop_one s ts) ≤ length ts
length-drop_one s [] = omega arith
length-drop_one s (t ∷ ts) = ground (arith, length-drop_one s ts)

take_rider-same :
    (n : ℕ) (x : Rider) (b : Burst)
    → b.inflight ≡ b.tasks
    → length b.tasks < n
    → ((take_rider x b).inflight ≡ (take_rider x b).tasks) × (length (take_rider x b).tasks ≤ n)
take_rider-same n x b s c = elim (Bool-cases x.is_evicted) [
  | inl v ↦ rw v (s, omega (arith, c))
  | inr v ↦
      rw v
        (ap (λ l. l ++ x.slot_id ∷ []) s, omega (arith, c, length-append b.tasks (x.slot_id ∷ [])))
]

admit-IsFull :
    (n : ℕ) (xs : List Rider) (b : Burst)
    → b.inflight ≡ b.tasks
    → length b.tasks ≤ n
    → IsFull n (admit n xs b)
unfolding admit
admit-IsFull n [] b s c = record { same = s; capped = c; full = inr refl }
admit-IsFull n (x ∷ xs) b s c = elim (Bool-cases (ltb (length b.tasks) n)) [
  | inl e ↦ rw e (
      let (s', c') = take_rider-same n x b s (ground (arith, e)) in
      admit-IsFull n xs (take_rider x b) s' c')
  | inr e ↦ rw e (record { same = s; capped = c; full = inl (ground (arith, e)) })
]

end_task-same :
    (n : ℕ) (e : Ended) (b : Burst)
    → b.inflight ≡ b.tasks
    → length b.tasks ≤ n
    → ((end_task e b).inflight ≡ (end_task e b).tasks) × (length (end_task e b).tasks ≤ n)
end_task-same n e b s c = elim (Bool-cases (has e.slot_id b.tasks)) [
  | inl h ↦ rw h (ap (drop_one e.slot_id) s, omega (arith, c, length-drop_one e.slot_id b.tasks))
  | inr h ↦ rw h (s, c)
]

end_tasks-same :
    (n : ℕ) (es : List Ended) (b : Burst)
    → b.inflight ≡ b.tasks
    → length b.tasks ≤ n
    → ((end_tasks es b).inflight ≡ (end_tasks es b).tasks) × (length (end_tasks es b).tasks ≤ n)
unfolding end_tasks
end_tasks-same n [] b s c = (s, c)
end_tasks-same n (e ∷ es) b s c =
    let (s', c') = end_task-same n e b s c in end_tasks-same n es (end_task e b) s' c'

round-IsFull : (n : ℕ) (w : Wake) (b : Burst) → IsFull n b → IsFull n (round n w b)
unfolding round
round-IsFull n w b v =
    let (s, c) =
      end_tasks-same n w.done (record b { inbox = b.inbox ++ w.arrivals }) v.same v.capped in
    admit-IsFull n _ (end_tasks w.done (record b { inbox = b.inbox ++ w.arrivals })) s c

rounds-IsFull : (n : ℕ) (ws : List Wake) (b : Burst) → IsFull n b → IsFull n (rounds n ws b)
unfolding rounds
rounds-IsFull n [] b v = v
rounds-IsFull n (w ∷ ws) b v = elim (Bool-cases (is_over b.tasks)) [
  | inl e ↦ rw e v
  | inr e ↦ rw e (rounds-IsFull n ws (round n w b) (round-IsFull n w b v))
]

-- Through every burst, whatever arrives and ends at each wake: `r.inflight` is the slots of the tasks, at most `n_parallel`
-- of them run, and all places are taken or no rider waits in the inbox.
pub fan_out-IsFull :
    (n anchor : ℕ) (inbox : List Rider) (ws : List Wake)
    → 1 ≤ n
    → IsFull n (fan_out n anchor inbox ws)
unfolding fan_out begin
fan_out-IsFull n anchor inbox ws h =
    rounds-IsFull n ws _ (admit-IsFull n inbox _ refl (omega arith))

-- When the last task has ended, nothing is in flight and the inbox is empty.
pub fan_out-drained :
    (n anchor : ℕ) (inbox : List Rider) (ws : List Wake)
    → 1 ≤ n
    → (fan_out n anchor inbox ws).tasks ≡ []
    → ((fan_out n anchor inbox ws).inflight ≡ []) × ((fan_out n anchor inbox ws).inbox ≡ [])
fan_out-drained n anchor inbox ws h over =
    let v = fan_out-IsFull n anchor inbox ws h in
    (v.same ∙ over, ground (arith, v.full, ap length over))
