-- ===== src/Queue/Affinity.antt =====
-- queue.py, the model-affinity path of `pop_next`: which slot may overtake, and for how long.
use turbohaul_manager_rocm.Prelude.{
  ℕ, zero, suc, ◌-◌, ◌≤◌, ◌<◌, ◌==◌, String, Bool, true, false, List, [], ◌∷◌, ◌++◌, Option, none,
  some, ok, All, arith, ◌≡◌, refl, ap, ◌∙◌, sym, ◌⊎◌, inl, inr, Bool-cases, ◌||◌, eq_iff, ◌≢◌,
}
use turbohaul_manager_rocm.Slot.{Slot}
use turbohaul_manager_rocm.Queue.{
  Queue, flag_evicted, pop_first_non_evicted_from, pop_first_matching_non_evicted_from, pop_fifo,
  pop_affine, pop_next, pop_dispatch, head_starved, batch_cap_hit, after_pop, choose_affine,
  max_drain,
}
use turbohaul_manager_rocm.Queue.Valid.{IsValid}
use turbohaul_manager_rocm.Queue.Pops.{Splits, Took, after_pop-Took}

-- The result of the scan for a model: the first slot of that model, out of the middle.
abbrev Finds : String → List Slot → Option (Slot × List Slot) → Type 0
Finds tag st r =
    (before : List Slot) × (taken : Slot) × (after : List Slot) × (st ≡ before ++ taken ∷ after)
    × (r ≡ some (flag_evicted taken, before ++ after))
    × ((taken.model_tag == tag) ≡ true)
    × All (λ (s : Slot). (s.model_tag == tag) ≡ false) before

scan-Finds :
    (tag : String) (n : ℕ) (st : List Slot)
    → (pop_first_matching_non_evicted_from tag n st ≡ none)
      ⊎ Finds tag st (pop_first_matching_non_evicted_from tag n st)
unfolding pop_first_matching_non_evicted_from
scan-Finds tag zero st = inl refl
scan-Finds tag (suc n) [] = inl refl
scan-Finds tag (suc n) (s ∷ st) = elim (Bool-cases (s.model_tag == tag)) [
  | inl h ↦ inr ([], s, st, refl, rw h, h, tt)
  | inr h ↦ elim (scan-Finds tag n st) [
    | inl m ↦ inl (rw (h, m))
    | inr (b, t, a, e, r, m, o) ↦ inr (s ∷ b, t, a, ap (◌∷◌ s) e, rw (h, r), m, (h, o))
  ]
]

-- Why a slot other than the head was taken: it is the first slot of the warm model, the head has
-- not waited too long, and the run of the warm model is below its cap.
pub record Overtakes (q : Queue) (now : ℕ) (warm : String) (head : Slot) (before : List Slot)
    (taken : Slot) : Type 0 where
  pub is_warm : (taken.model_tag == warm) ≡ true
  pub only_others : All (λ (s : Slot). (s.model_tag == warm) ≡ false) before
  pub patient : head_starved q now warm head ≡ false
  pub below_cap : batch_cap_hit q ≡ false

pub record AffinePop (q : Queue) (now : ℕ) (warm : String) (head : Slot) (o : Option Slot)
    (r : Queue) : Type 0 where
  pub before : List Slot
  pub taken : Slot
  pub after : List Slot
  pub splits : Splits q before taken after
  pub handed : o ≡ some (flag_evicted taken)
  pub took : Took q before after (flag_evicted taken) r
  pub fair : (before ≡ []) ⊎ Overtakes q now warm head before taken

abbrev Pops : Queue → ℕ → String → Slot → Type 0
Pops q now warm head =
    (o : Option Slot) × (r : Queue) × (pop_next now (some warm) q ≡ ok (o, r))
    × AffinePop q now warm head o r

-- Where `pop_next` decides on a slot of staging, the rest of the call is that of `after_pop`.
chosen :
    (q : Queue) (now : ℕ) (warm : String) (head : Slot) (before after : List Slot) (taken : Slot)
    → IsValid q
    → Splits q before taken after
    → pop_next now (some warm) q ≡ after_pop q (flag_evicted taken) (before ++ after)
    → (before ≡ []) ⊎ Overtakes q now warm head before taken
    → Pops q now warm head
chosen q now warm head before after taken v e step fair =
    let (r, done, took) = after_pop-Took q before after taken (flag_evicted taken) e v in
    (
      some (flag_evicted taken),
      r,
      step ∙ done,
      record {
        before = before;
        taken = taken;
        after = after;
        splits = e;
        handed = refl;
        took = took;
        fair = fair;
      },
    )

affine_path :
    (q : Queue) (now : ℕ) (warm : String) (head : Slot) (rest : List Slot)
    → q.staging ≡ head ∷ rest
    → pop_next now (some warm) q
      ≡ pop_affine q (head_starved q now warm head || batch_cap_hit q) warm
unfolding pop_next pop_dispatch
affine_path q now warm head rest e = ap (λ (st : List Slot). pop_dispatch now (some warm) st q) e

take_chosen :
    (q : Queue) (forced : Bool) (warm : String) (s : Slot) (rest : List Slot)
    → choose_affine q forced warm ≡ some (s, rest)
    → pop_affine q forced warm ≡ after_pop q s rest
unfolding pop_affine
take_chosen q forced warm s rest e = rw (e, pop_affine)

take_head :
    (q : Queue) (head : Slot) (rest : List Slot)
    → q.staging ≡ head ∷ rest
    → pop_first_non_evicted_from max_drain q.staging ≡ some (flag_evicted head, rest)
unfolding pop_first_non_evicted_from
take_head q head rest e = rw e refl

-- With a hint, and a slot in staging, `pop_next` on a valid queue raises nothing. It takes one slot
-- out of staging and keeps the order of the rest; a slot other than the head is taken only under
-- the conditions of `Overtakes`.
pub pop_next-AffinePop :
    (q : Queue) (now : ℕ) (warm : String) (head : Slot) (rest : List Slot)
    → IsValid q
    → q.staging ≡ head ∷ rest
    → (o : Option Slot) × (r : Queue) × (pop_next now (some warm) q ≡ ok (o, r))
      × AffinePop q now warm head o r
pop_next-AffinePop q now warm head rest v e =
    elim (Bool-cases (head_starved q now warm head || batch_cap_hit q)) [
      | inl forced ↦
          chosen q now warm head [] rest head v e
            (affine_path q now warm head rest e
              ∙ take_chosen q _ warm _ rest (rw forced (take_head q head rest e)))
            (inl refl)
      | inr free ↦ elim (scan-Finds warm q.staging_max q.staging) [
        | inl miss ↦
            chosen q now warm head [] rest head v e
              (affine_path q now warm head rest e
                ∙ take_chosen q _ warm _ rest (rw (free, miss) (take_head q head rest e)))
              (inl refl)
        | inr (b, t, a, split, found, m, others) ↦
            chosen q now warm head b a t v split
              (affine_path q now warm head rest e
                ∙ take_chosen q _ warm _ (b ++ a) (rw (free, found) refl))
              (inr (record {
                is_warm = m;
                only_others = others;
                patient = ground arith;
                below_cap = ground arith;
              }))
      ]
    ]

no_head :
    (q : Queue) (now : ℕ) (warm : String)
    → q.staging ≡ []
    → pop_next now (some warm) q ≡ pop_next now none q
unfolding pop_next pop_dispatch
no_head q now warm e = ap (λ (st : List Slot). pop_dispatch now (some warm) st q) e

fifo_of_head :
    (q : Queue) (now : ℕ) (head : Slot) (rest : List Slot)
    → q.staging ≡ head ∷ rest
    → pop_next now none q ≡ after_pop q (flag_evicted head) rest
unfolding pop_next pop_dispatch pop_fifo
fifo_of_head q now head rest e = rw (take_head q head rest e, pop_fifo)

forced_head :
    (q : Queue) (now : ℕ) (warm : String) (head : Slot) (rest : List Slot)
    → q.staging ≡ head ∷ rest
    → (head_starved q now warm head || batch_cap_hit q) ≡ true
    → pop_next now (some warm) q ≡ pop_next now none q
forced_head q now warm head rest e forced =
    affine_path q now warm head rest e
    ∙ take_chosen q _ warm _ rest (rw forced (take_head q head rest e))
    ∙ sym (fifo_of_head q now head rest e)

-- Once the run of the last model has reached the cap, the hint changes nothing: the pop has the
-- result of the FIFO path.
pub pop_next_capped :
    (q : Queue) (now : ℕ) (warm : String)
    → q.max_consecutive_same_model ≤ q.consecutive_same_model
    → pop_next now (some warm) q ≡ pop_next now none q
unfolding batch_cap_hit
pop_next_capped q now warm cap = by_staging q.staging refl
  where
    by_staging :
        (st : List Slot) → q.staging ≡ st → pop_next now (some warm) q ≡ pop_next now none q
    by_staging [] e = no_head q now warm e
    by_staging (head ∷ rest) e = forced_head q now warm head rest e (ground arith)

-- So it does when the head is for another model and has waited longer than the limit.
pub pop_next_starved :
    (q : Queue) (now : ℕ) (warm : String) (head : Slot) (rest : List Slot)
    → q.staging ≡ head ∷ rest
    → head.model_tag ≢ warm
    → q.max_other_model_wait < now - head.created_at
    → pop_next now (some warm) q ≡ pop_next now none q
unfolding head_starved
pop_next_starved q now warm head rest e other waited =
    forced_head q now warm head rest e (ground (arith, eq_iff head.model_tag warm))
