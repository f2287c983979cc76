-- ===== src/Queue/Fairness.antt =====
-- queue.py: how often in a row the head of staging can be passed over for one warm model.
use turbohaul_manager_rocm.Prelude.{
  ℕ, suc, ◌+◌, ◌≤◌, ◌==◌, String, true, false, List, [], ◌∷◌, ◌++◌, Option, none, some, ok,
  if◌then◌else◌, arith, ◌≡◌, refl, ap, ◌∙◌, sym, ◌⊎◌, inl, inr, subst, eq_iff, leb-false→lt, ◌≢◌,
  Result, err, ◌>>=◌, Bool,
}
use turbohaul_manager_rocm.Slot.{Slot, received, staged, state_eq}
use turbohaul_manager_rocm.Fsm.{FsmError, transition}
use turbohaul_manager_rocm.Queue.{
  Queue, pop_next, flag_evicted, enqueue, tag_eq, batch_cap_hit, enqueue_head, lift_fsm,
  queue_closed,
}
use turbohaul_manager_rocm.Queue.Valid.{IsValid}
use turbohaul_manager_rocm.Queue.Arrivals.{Entered, entered}
use turbohaul_manager_rocm.Queue.Affinity.{AffinePop, pop_next-AffinePop}

-- A history with one warm model: pops that pass over a head of another model, and between them slots that
-- `enqueue` lets in or `enqueue_head` puts first. The number counts the pops.
pub data Skips (warm : String) (p : Queue) : ℕ → Queue → Type 0 where
  start : Skips warm p 0 p
  arrival :
      {n : ℕ} {q : Queue} (s : Slot) (r : Queue)
      → Skips warm p n q
      → s.state ≡ received
      → enqueue s q ≡ ok r
      → Skips warm p n r
  head_insert :
      {n : ℕ} {q : Queue} (s : Slot) (r : Queue)
      → Skips warm p n q
      → enqueue_head s q ≡ ok r
      → Skips warm p n r
  skip :
      {n : ℕ} {q : Queue} (now : ℕ) (head s : Slot) (rest : List Slot) (r : Queue)
      → Skips warm p n q
      → q.staging ≡ head ∷ rest
      → (head.model_tag == warm) ≡ false
      → pop_next now (some warm) q ≡ ok (some s, r)
      → (s.model_tag == warm) ≡ true
      → Skips warm p (suc n) r

-- What is known after `n` skips.
record Counted (warm : String) (p : Queue) (n : ℕ) (q : Queue) : Type 0 where
  valid : IsValid q
  cap : q.max_consecutive_same_model ≡ p.max_consecutive_same_model
  at_least : n ≤ q.consecutive_same_model
  within : n ≤ p.max_consecutive_same_model
  last : (n ≡ 0) ⊎ (tag_eq q.last_popped_model_tag warm ≡ true)

flag_evicted-model_tag : (s : Slot) → (flag_evicted s).model_tag ≡ s.model_tag
unfolding flag_evicted
flag_evicted-model_tag s = ground arith

eq_flip : (a b : String) → (a == b) ≡ true → (b == a) ≡ true
eq_flip a b h = ground (arith, eq_iff a b, eq_iff b a)

Counted-arrival :
    (warm : String) (p q r : Queue) (n : ℕ) (s : Slot)
    → Counted warm p n q
    → Entered q s r
    → Counted warm p n r
Counted-arrival warm p q r n s c e = record {
  valid = e.valid;
  cap = e.same_cap ∙ c.cap;
  at_least = omega (arith, e.same_run);
  within = c.within;
  last = subst (λ (t : Option String). (n ≡ 0) ⊎ (tag_eq t warm ≡ true)) (sym e.same_last) c.last;
}

abbrev put_first : Queue → Slot → Queue
put_first q s = record q { staging = s ∷ q.staging }

-- What a successful `enqueue_head` keeps.
record Inserted (q r : Queue) : Type 0 where
  valid : IsValid r
  same_cap : r.max_consecutive_same_model ≡ q.max_consecutive_same_model
  same_run : r.consecutive_same_model ≡ q.consecutive_same_model
  same_last : r.last_popped_model_tag ≡ q.last_popped_model_tag

put_first-Inserted :
    (q : Queue) (s : Slot) → s.state ≡ staged → IsValid q → Inserted q (put_first q s)
put_first-Inserted q s e v = record {
  valid = record {
    staging_staged = (e, v.staging_staged);
    buffer_accepted = v.buffer_accepted;
    buffer_bounded = v.buffer_bounded;
  };
  same_cap = refl;
  same_run = refl;
  same_last = refl;
}

moved_first-Inserted :
    (q r : Queue) (t : Result FsmError Slot)
    → ((s : Slot) → t ≡ ok s → s.state ≡ staged)
    → IsValid q
    → (lift_fsm t >>= λ s. ok (put_first q s)) ≡ ok r
    → Inserted q r
moved_first-Inserted q r (ok s) staged_after v h =
    let same : put_first q s ≡ r = cc in
    subst (Inserted q) same (put_first-Inserted q s (staged_after s refl) v)
moved_first-Inserted q r (err e) staged_after v h = absurd cc

to_staged : (s t : Slot) → transition s staged ≡ ok t → t.state ≡ staged
unfolding transition
to_staged s t h = ground arith

cases-Inserted :
    (closed already : Bool) (q r : Queue) (s : Slot)
    → (already ≡ true → s.state ≡ staged)
    → IsValid q
    → (if closed
        then err queue_closed
        else if already
        then ok (put_first q s)
        else (lift_fsm (transition s staged) >>= λ t. ok (put_first q t)))
      ≡ ok r
    → Inserted q r
cases-Inserted true already q r s e v h = absurd cc
cases-Inserted false true q r s e v h =
    let same : put_first q s ≡ r = cc in subst (Inserted q) same (put_first-Inserted q s (e refl) v)
cases-Inserted false false q r s e v h =
    moved_first-Inserted q r (transition s staged) (to_staged s) v h

enqueue_head-Inserted :
    (q r : Queue) (s : Slot) → IsValid q → enqueue_head s q ≡ ok r → Inserted q r
unfolding enqueue_head
enqueue_head-Inserted q r s v h =
    cases-Inserted q.closed (state_eq s.state staged) q r s (λ e. ground arith) v h

Counted-head :
    (warm : String) (p q r : Queue) (n : ℕ) → Counted warm p n q → Inserted q r → Counted warm p n r
Counted-head warm p q r n c e = record {
  valid = e.valid;
  cap = e.same_cap ∙ c.cap;
  at_least = omega (arith, e.same_run);
  within = c.within;
  last = subst (λ (t : Option String). (n ≡ 0) ⊎ (tag_eq t warm ≡ true)) (sym e.same_last) c.last;
}

run_grows :
    (last : Option String) (n k : ℕ) (warm tag : String)
    → n ≤ k
    → (n ≡ 0) ⊎ (tag_eq last warm ≡ true)
    → (tag == warm) ≡ true
    → suc n ≤ (if tag_eq last tag then k + 1 else 1)
run_grows none n k warm tag le l w = ground arith
run_grows (some t) n k warm tag le l w =
    ground (arith, eq_iff tag warm, eq_iff warm t, eq_iff tag t)

module _ (warm : String) (q r : Queue) (now : ℕ) (head s : Slot) (rest : List Slot)
    (e : q.staging ≡ head ∷ rest) (other : (head.model_tag == warm) ≡ false)
    (warm_s : (s.model_tag == warm) ≡ true) (a : AffinePop q now warm head (some s) r) where
  taken_warm : ((flag_evicted a.taken).model_tag == warm) ≡ true
  taken_warm =
      let same : s ≡ flag_evicted a.taken = cc a.handed in
      ap (λ (t : Slot). t.model_tag == warm) (sym same) ∙ warm_s

  not_head : a.before ≢ []
  not_head nothing =
      let at_front : q.staging ≡ a.taken ∷ a.after =
        subst (λ (b : List Slot). q.staging ≡ b ++ a.taken ∷ a.after) nothing a.splits in
      let same : head ≡ a.taken = cc (e, at_front) in
      let tagged : (a.taken.model_tag == warm) ≡ true =
        ap (λ (t : String). t == warm) (sym (flag_evicted-model_tag a.taken)) ∙ taken_warm in
      let clash : false ≡ true = sym other ∙ ap (λ (t : Slot). t.model_tag == warm) same ∙ tagged in
      cc

  skip_below_cap : batch_cap_hit q ≡ false
  skip_below_cap = elim a.fair [ inl nothing ↦ absurd (not_head nothing) | inr ov ↦ ov.below_cap ]

Counted-skip :
    (warm : String) (p q r : Queue) (n now : ℕ) (head s : Slot) (rest : List Slot)
    → Counted warm p n q
    → q.staging ≡ head ∷ rest
    → (head.model_tag == warm) ≡ false
    → (s.model_tag == warm) ≡ true
    → AffinePop q now warm head (some s) r
    → Counted warm p (suc n) r
unfolding batch_cap_hit
Counted-skip warm p q r n now head s rest c e other warm_s a =
    let w = taken_warm warm q r now head s rest e other warm_s a in
    let below = skip_below_cap warm q r now head s rest e other warm_s a in
    record {
      valid = a.took.valid;
      cap = a.took.same_cap ∙ c.cap;
      at_least = omega (
        arith,
        a.took.run,
        run_grows q.last_popped_model_tag n q.consecutive_same_model warm _ c.at_least c.last w,
      );
      within = omega (arith, leb-false→lt _ _ below, c.cap, c.at_least);
      last = inr (ap (λ (t : Option String). tag_eq t warm) a.took.last ∙ eq_flip _ warm w);
    }

counted : {warm : String} {p q : Queue} {n : ℕ} → IsValid p → Skips warm p n q → Counted warm p n q
counted v start = record {
  valid = v;
  cap = refl;
  at_least = omega arith;
  within = omega arith;
  last = inl refl;
}
counted {warm} {p} v (arrival {n = n} {q = q} s r sk fresh done) =
    let c = counted v sk in Counted-arrival warm p q r n s c (entered q r s c.valid fresh done)
counted {warm} {p} v (head_insert {n = n} {q = q} s r sk done) =
    let c = counted v sk in Counted-head warm p q r n c (enqueue_head-Inserted q r s c.valid done)
counted {warm} {p} v (skip {n = n} {q = q} now head s rest r sk e other done warm_s) =
    let c = counted v sk in
    let (o, r', done', a) = pop_next-AffinePop q now warm head rest c.valid e in
    let same_o : o ≡ some s = cc in
    let same_r : r' ≡ r = cc in
    Counted-skip warm p q r n now head s rest c e other warm_s (
      subst (AffinePop q now warm head (some s)) same_r
        (subst (λ (x : Option Slot). AffinePop q now warm head x r') same_o a))

-- From a valid queue, whatever slots `enqueue` lets in or `enqueue_head` puts first in between, at most
-- `max_consecutive_same_model` pops in a row with one warm model pass over a head that is for another model.
pub skips_bounded :
    {warm : String} {p q : Queue} {n : ℕ}
    → IsValid p
    → Skips warm p n q
    → n ≤ p.max_consecutive_same_model
skips_bounded v sk = let c = counted v sk in c.within
