-- ===== src/Dispatch/Requeue.antt =====
-- manager.py: the background tasks that put slots back at the head of the queue.
use turbohaul_manager_rocm.Prelude.{
  true, false, String, List, [], ◌∷◌, ◌++◌, Result, ok, err, arith, ◌≡◌, refl, ap, All,
}
use turbohaul_manager_rocm.Slot.{Slot, staged}
use turbohaul_manager_rocm.Queue.{Queue, QueueError, queue_closed, enqueue_head}
use turbohaul_manager_rocm.Queue.Valid.{ids, order}

-- The queue after the task, and the slots whose future it fails.
abbrev pub put_back : Slot → Queue → Result QueueError Queue → Queue × List Slot
put_back s q (ok r) = (r, [])
put_back s q (err e) = (q, s ∷ [])

-- `_requeue_after_backoff`, after the pause.
unfoldable pub requeue_one : Slot → Queue → Queue × List Slot
unfolding enqueue_head
requeue_one s q = put_back s q (enqueue_head s q)

-- `_requeue_slots_or_fail`, when it is not cancelled.
unfoldable pub requeue_batch : List Slot → Queue → Queue × List Slot
unfolding requeue_one
requeue_batch [] q = (q, [])
requeue_batch (s ∷ ss) q =
    let (r, failed) = requeue_one s q in
    let (end, others) = requeue_batch ss r in (end, failed ++ others)

abbrev pub reverse_onto : List String → List String → List String
reverse_onto [] ys = ys
reverse_onto (x ∷ xs) ys = reverse_onto xs (x ∷ ys)

open_step :
    (s : Slot) (q : Queue)
    → s.state ≡ staged
    → q.closed ≡ false
    → requeue_one s q ≡ (record q { staging = s ∷ q.staging }, [])
unfolding requeue_one enqueue_head
open_step s q st o =
    let step : enqueue_head s q ≡ ok (record q { staging = s ∷ q.staging }) = ground arith in
    ap (put_back s q) step

closed_step : (s : Slot) (q : Queue) → q.closed ≡ true → requeue_one s q ≡ (q, s ∷ [])
unfolding requeue_one enqueue_head
closed_step s q c =
    let step : enqueue_head s q ≡ err queue_closed = ground arith in ap (put_back s q) step

-- A batch of staged slots that is put back in an open queue ends up at the head of the queue in the
-- reverse of its order; no future fails. A closed queue stays as it is, and every slot of the batch
-- fails, in order.
pub requeue_batch_reverses :
    (ss : List Slot) (q : Queue)
    → All (λ (s : Slot). s.state ≡ staged) ss
    → (q.closed ≡ false
        → ((requeue_batch ss q).1 ≡ [])
          × (order (requeue_batch ss q).0 ≡ reverse_onto (ids ss) (order q)))
      × (q.closed ≡ true → requeue_batch ss q ≡ (q, ss))
unfolding requeue_batch
requeue_batch_reverses [] q h = (λ o. (refl, refl), λ c. refl)
requeue_batch_reverses (s ∷ ss) q (st, h) = (
  λ o.
      let (none_failed, reversed) =
        (requeue_batch_reverses ss (record q { staging = s ∷ q.staging }) h).0 o in
      rw (open_step s q st o) (none_failed, reversed),
  λ c. rw (closed_step s q c, (requeue_batch_reverses ss q h).1 c) refl,
)
