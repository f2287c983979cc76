-- ===== src/Live/Tests.antt =====
-- The live buffers at a stream of two frames, and at a dict over its cap.
use turbohaul_manager_rocm.Prelude.{
  Option, some, ℕ, ◌≤◌, String, List, [], ◌∷◌, ◌++◌, length, arith, ◌≡◌, refl,
}
use turbohaul_manager_rocm.Live.{GenBuf, frames, reframe, evict, evict_loop, carry_max_bytes, fresh}
use turbohaul_manager_rocm.Live.Framing.{all_frames, then_more, reframe_chunks}
use turbohaul_manager_rocm.Live.Bounds.{IsBounded}

-- The second chunk starts with the second byte of a separator.
abbrev chunk_a : List ℕ
chunk_a = 97 ∷ 98 ∷ 10 ∷ []

abbrev chunk_b : List ℕ
chunk_b = 10 ∷ 99 ∷ 10 ∷ 10 ∷ 100 ∷ []

two_frames : reframe [] (chunk_a ++ chunk_b) ≡ ((97 ∷ 98 ∷ []) ∷ (99 ∷ []) ∷ [], 100 ∷ [])
unfolding reframe frames
two_frames = refl

first_within : length (all_frames ([] ++ chunk_a)).1 ≤ carry_max_bytes
unfolding frames
first_within = omega arith

all_within : length (all_frames ([] ++ (chunk_a ++ chunk_b))).1 ≤ carry_max_bytes
unfolding frames
all_within = omega arith

reframe_chunks_example :
    reframe [] (chunk_a ++ chunk_b)
    ≡ then_more (reframe [] chunk_a).0 (reframe (reframe [] chunk_a).1 chunk_b)
reframe_chunks_example = reframe_chunks [] chunk_a chunk_b first_within all_within

abbrev seen : GenBuf
seen = record fresh { subs = record { queue_id = 1; pending = [] } ∷ [] }

abbrev three : List (String × GenBuf)
three = ("g1", seen) ∷ ("g2", fresh) ∷ ("g3", fresh) ∷ []

-- The watched buffer stays, though it is the oldest.
oldest_goes : evict 2 three ≡ ("g1", seen) ∷ ("g3", fresh) ∷ []
unfolding evict evict_loop
oldest_goes = refl

seen-IsBounded : IsBounded 4 seen
seen-IsBounded = record { short_tail = omega arith; short_queues = (omega arith, tt) }

abbrev as_text : List ℕ → Option (List ℕ)
as_text f = some f
