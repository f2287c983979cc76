-- ===== src/Queue/Pops.antt =====
-- queue.py, `pop_next`: it takes one slot out of the order of service and keeps the rest in order.
use turbohaul_manager_rocm.Prelude.{
  ◌+◌, ◌<◌, List, [], ◌∷◌, ◌++◌, Option, none, some, ok, if◌then◌else◌, length, All, arith, ◌≡◌,
  refl, ap, ◌∙◌, sym, inl, inr, subst,
}
use turbohaul_manager_rocm.Slot.{Slot, staged}
use turbohaul_manager_rocm.Queue.{
  Queue, flag_evicted, pop_first_non_evicted_from, pop_fifo, after_pop, with_staging,
  update_run_length, max_drain, popped_from, tag_eq,
}
use turbohaul_manager_rocm.Queue.Valid.{
  AllIn, IsValid, IsTight, ids, order, Refill, replenish-Refill, drain_buffer-Refill,
}

flag_evicted-slot_id : (s : Slot) → (flag_evicted s).slot_id ≡ s.slot_id
unfolding flag_evicted
flag_evicted-slot_id s = ground arith

All-remove {ℓ κ} :
    {A : Type ℓ} (P : A → Type κ) (xs ys : List A) (x : A) → All P (xs ++ x ∷ ys) → All P (xs ++ ys)
All-remove P [] ys x h = h.1
All-remove P (a ∷ xs) ys x h = (h.0, All-remove P xs ys x h.1)

-- The slot `s` stands in staging between `pre` and `post`.
abbrev pub Splits : Queue → List Slot → Slot → List Slot → Type 0
Splits q pre s post = q.staging ≡ pre ++ s ∷ post

pub without-IsValid :
    (q : Queue) (pre post : List Slot) (s : Slot)
    → Splits q pre s post
    → IsValid q
    → IsValid (with_staging q (pre ++ post))
without-IsValid q pre post s e v = record {
  staging_staged =
      All-remove (λ (t : Slot). t.state ≡ staged) pre post s
        (subst (AllIn staged) e v.staging_staged);
  buffer_accepted = v.buffer_accepted;
  buffer_bounded = v.buffer_bounded;
}

-- What a successful pop leaves: `s` is gone from the order, and nothing else.
pub record Took (q : Queue) (pre post : List Slot) (t : Slot) (r : Queue) : Type 0 where
  pub valid : IsValid r
  pub rest_order : order r ≡ ids ((pre ++ post) ++ q.accept_buf)
  pub same_max : r.staging_max ≡ q.staging_max
  pub same_cap : r.max_consecutive_same_model ≡ q.max_consecutive_same_model
  pub run :
      r.consecutive_same_model
      ≡ (if tag_eq q.last_popped_model_tag t.model_tag then q.consecutive_same_model + 1 else 1)
  pub last : r.last_popped_model_tag ≡ some t.model_tag

pub after_pop-Took :
    (q : Queue) (pre post : List Slot) (s t : Slot)
    → Splits q pre s post
    → IsValid q
    → (r : Queue) × (after_pop q t (pre ++ post) ≡ ok (some t, r)) × Took q pre post t r
unfolding update_run_length
after_pop-Took q pre post s t e v =
    let (r, done, refill) =
      replenish-Refill (with_staging q (pre ++ post)) (without-IsValid q pre post s e v) in
    (
      update_run_length (some t) r,
      rw done,
      record {
        valid = record {
          staging_staged = refill.valid.staging_staged;
          buffer_accepted = refill.valid.buffer_accepted;
          buffer_bounded = refill.valid.buffer_bounded;
        };
        rest_order = refill.same_order;
        same_max = refill.same_max;
        same_cap = refill.same_cap;
        run = rw (refill.same_run, refill.same_last) refl;
        last = refl;
      },
    )

-- `pop_next` without a hint: the head of the order of service, and the rest in order.
abbrev pub TakesHead : Option Slot → Queue → Queue → Type 0
TakesHead none q r = (order q ≡ []) × (order r ≡ [])
TakesHead (some s) q r = order q ≡ s.slot_id ∷ order r

pub record FifoPop (q : Queue) (o : Option Slot) (r : Queue) : Type 0 where
  pub valid : IsValid r
  pub takes : TakesHead o q r
  pub same_max : r.staging_max ≡ q.staging_max

fifo_head :
    (q : Queue) (s : Slot) (rest : List Slot)
    → q.staging ≡ s ∷ rest
    → IsValid q
    → (o : Option Slot) × (r : Queue) × (pop_fifo q ≡ ok (o, r)) × FifoPop q o r
unfolding pop_fifo pop_first_non_evicted_from
fifo_head q s rest e v =
    let (r, done, took) = after_pop-Took q [] rest s (flag_evicted s) e v in
    (
      some (flag_evicted s),
      r,
      rw (e, pop_first_non_evicted_from) done,
      record {
        valid = took.valid;
        takes = cc (
          ap (λ (b : List Slot). ids (b ++ q.accept_buf)) e,
          flag_evicted-slot_id s,
          took.rest_order,
        );
        same_max = took.same_max;
      },
    )

tight_empty : (d : Queue) → d.staging ≡ [] → 0 < d.staging_max → IsTight d → order d ≡ []
tight_empty d e room (inl b) = cc (ap (λ (x : List Slot). ids (x ++ d.accept_buf)) e, ap ids b)
tight_empty d e room (inr full) = absurd (omega (arith, ap length e))

drained_pop :
    (q d : Queue) (st : List Slot)
    → d.staging ≡ st
    → 0 < q.staging_max
    → Refill q d
    → IsTight d
    → (o : Option Slot) × (r : Queue) × (popped_from d (pop_first_non_evicted_from max_drain st)
        ≡ (o, r))
      × FifoPop q o r
unfolding pop_first_non_evicted_from update_run_length
drained_pop q d [] e room f t =
    let nothing = tight_empty d e (omega (arith, f.same_max)) t in
    (
      none,
      d,
      refl,
      record {
        valid = f.valid;
        takes = (sym f.same_order ∙ nothing, nothing);
        same_max = f.same_max;
      },
    )
drained_pop q d (s ∷ rest) e room f t =
    let left = without-IsValid d [] rest s e f.valid in
    (
      some (flag_evicted s),
      update_run_length (some (flag_evicted s)) (with_staging d rest),
      refl,
      record {
        valid = record {
          staging_staged = left.staging_staged;
          buffer_accepted = left.buffer_accepted;
          buffer_bounded = left.buffer_bounded;
        };
        takes = cc (
          ap (λ (b : List Slot). ids (b ++ d.accept_buf)) e,
          flag_evicted-slot_id s,
          f.same_order,
        );
        same_max = f.same_max;
      },
    )

fifo_empty :
    (q : Queue)
    → q.staging ≡ []
    → 0 < q.staging_max
    → IsValid q
    → (o : Option Slot) × (r : Queue) × (pop_fifo q ≡ ok (o, r)) × FifoPop q o r
unfolding pop_fifo pop_first_non_evicted_from
fifo_empty q e room v =
    let (d, done, f, t) = drain_buffer-Refill q v in
    let (o, r, popped, fifo) = drained_pop q d d.staging refl room f t in
    (o, r, rw (e, pop_first_non_evicted_from) (rw done (ap ok popped)), fifo)

-- In a valid queue with room for at least one staged slot, the pop of the FIFO path raises nothing.
-- It hands out the head of the order of service, with its id, leaves the rest in order, and returns
-- nothing exactly when no slot waits in either deque.
pub pop_fifo-FifoPop :
    (q : Queue)
    → 0 < q.staging_max
    → IsValid q
    → (o : Option Slot) × (r : Queue) × (pop_fifo q ≡ ok (o, r)) × FifoPop q o r
pop_fifo-FifoPop q room v = by_staging q.staging refl
  where
    by_staging :
        (st : List Slot)
        → q.staging ≡ st
        → (o : Option Slot) × (r : Queue) × (pop_fifo q ≡ ok (o, r)) × FifoPop q o r
    by_staging [] e = fifo_empty q e room v
    by_staging (s ∷ rest) e = fifo_head q s rest e v
