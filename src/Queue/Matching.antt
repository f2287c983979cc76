-- ===== src/Queue/Matching.antt =====
-- queue.py, `TurbohaulQueue`: the methods that look for one slot, the snapshot and the shutdown.
use turbohaul_manager_rocm.Prelude.{
  ℕ, ◌==◌, String, Bool, true, ◌&&◌, List, [], ◌∷◌, ◌++◌, Option, none, some, if◌then◌else◌, length,
}
use turbohaul_manager_rocm.Slot.{Slot}
use turbohaul_manager_rocm.Queue.{Queue, flag_evicted, keep_head}

abbrev pub is_match : String → String → Slot → Bool
is_match thread_id model_tag s = s.thread_id == thread_id && s.model_tag == model_tag

unfoldable pub find_match : String → String → List Slot → Option Slot
find_match thread_id model_tag [] = none
find_match thread_id model_tag (s ∷ rest) =
    if is_match thread_id model_tag s then some s else find_match thread_id model_tag rest

unfoldable pub find_matched_thread : String → String → Queue → Option Slot
unfolding find_match
find_matched_thread thread_id model_tag q =
    if thread_id == "" then none else find_match thread_id model_tag q.staging

unfoldable pub take_match : String → String → List Slot → Option (Slot × List Slot)
take_match thread_id model_tag [] = none
take_match thread_id model_tag (s ∷ rest) =
    if is_match thread_id model_tag s
    then some (flag_evicted s, rest)
    else keep_head s (take_match thread_id model_tag rest)

abbrev pub put_staging : Queue → Option (Slot × List Slot) → Option Slot × Queue
put_staging q none = (none, q)
put_staging q (some (s, rest)) = (some s, record q { staging = rest })

unfoldable pub pop_matched_thread : String → String → Queue → Option Slot × Queue
unfolding take_match
pop_matched_thread thread_id model_tag q =
    if thread_id == "" then (none, q) else put_staging q (take_match thread_id model_tag q.staging)

unfoldable pub take_id : String → List Slot → Option (Slot × List Slot)
take_id slot_id [] = none
take_id slot_id (s ∷ rest) =
    if s.slot_id == slot_id then some (s, rest) else keep_head s (take_id slot_id rest)

-- Staging is searched first, then the acceptance buffer.
unfoldable pub remove : String → Queue → Option Slot × Queue
unfolding take_id
remove slot_id q = elim (take_id slot_id q.staging) [
  | some (s, rest) ↦ (some s, record q { staging = rest })
  | none ↦ elim (take_id slot_id q.accept_buf) [
    | some (s, rest) ↦ (some s, record q { accept_buf = rest })
    | none ↦ (none, q)
  ]
]

pub peek_staging : Queue → List Slot
peek_staging q = q.staging

pub record Depth : Type 0 where
  pub acceptance_buffer_depth : ℕ
  pub staging_queue_depth : ℕ
  pub staging_queue_max : ℕ
  pub acceptance_buffer_max : ℕ

pub depth : Queue → Depth
depth q = record {
  acceptance_buffer_depth = length q.accept_buf;
  staging_queue_depth = length q.staging;
  staging_queue_max = q.staging_max;
  acceptance_buffer_max = q.acceptance_max;
}

unfoldable pub close : Queue → List Slot × Queue
close q = (q.staging ++ q.accept_buf, record q { closed = true; accept_buf = []; staging = [] })
