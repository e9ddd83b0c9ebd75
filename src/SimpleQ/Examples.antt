-- ===== src/SimpleQ/Examples.antt =====
-- Runs of the queue on the platform of lists.
use s4_lib_lite.Prelude.{
  ℕ, ◌+◌, ◌*◌, ◌≤◌, ◌<◌, none, ◌≡◌, ◌≢◌, refl, [], ◌∷◌, some, true, false, arith,
}
use s4_lib_lite.SimpleQ.Pool.{
  Pool, handle, to_ptoc, to_pool, done, construct, P_get, destroy, malloc_particle, C_recv,
}
use s4_lib_lite.SimpleQ.ListPlatform.{lists, lists-IsLawful, lists-IsRoomy, lists-IsAllocator}
use s4_lib_lite.SimpleQ.Blocks.{Apart, Within}
use s4_lib_lite.SimpleQ.Frames.{run-Apart}
use s4_lib_lite.SimpleQ.ClassArray.{
  ClassArray, no_array, aborts, makes, init_array, get_base, get_base-Apart,
}
use s4_lib_lite.SimpleQ.Client.{system, nil, give, gets, ends, Reach, here, next}
use s4_lib_lite.SimpleQ.Lasting.{run-owned_once}
use s4_lib_lite.SimpleQ.Ownership.{owners, run-IsOwned}

-- A pool of two frames of 4096 bytes.
abbrev pub two_frames : Pool lists ℕ
two_frames = record {
  page_size = 4096;
  all_memalign = true;
  depth = 4;
  data_pool = 0 ∷ 1 ∷ [];
  data_ptoc = [];
  buffers = 8192 ∷ 4096 ∷ [];
  frames = λ a. 0;
  mem_hoster = (8192, 4096) ∷ (4096, 4096) ∷ [];
}

pub two_frames-made : construct {p = lists} 2 4096 true (λ a. 0) ≡ done two_frames
unfolding construct
two_frames-made = refl

-- The producer has taken frame 0.
abbrev one_taken : Pool lists ℕ
one_taken = record two_frames { data_pool = 1 ∷ [] }

abbrev one_sent : Pool lists ℕ
one_sent = record one_taken { data_ptoc = 0 ∷ [] }

taken : P_get two_frames ≡ (some (handle 0 to_ptoc), one_taken)
unfolding P_get
taken = refl

sent : destroy (handle 0 to_ptoc) one_taken ≡ one_sent
unfolding destroy
sent = refl

received : C_recv one_sent ≡ (some (handle 0 to_pool), record one_sent { data_ptoc = [] })
unfolding C_recv
received = refl

get_and_send : Reach (system two_frames []) (system (destroy (handle 0 to_ptoc) one_taken) [])
get_and_send =
    next (next here (gets (handle 0 to_ptoc) one_taken taken))
      (ends (handle 0 to_ptoc) [] (give (handle 0 to_ptoc) nil))

run-IsOwned_example : owners lists-IsLawful 0 (system (destroy (handle 0 to_ptoc) one_taken) []) ≤ 1
run-IsOwned_example =
    run-IsOwned lists-IsLawful 2 4096 true (λ a. 0) two_frames
      (system (destroy (handle 0 to_ptoc) one_taken) []) two_frames-made get_and_send 0

run-owned_once_example :
    owners lists-IsLawful 0 (system (destroy (handle 0 to_ptoc) one_taken) []) ≡ 1
run-owned_once_example =
    run-owned_once lists-IsLawful lists-IsRoomy 2 4096 true (λ a. 0) two_frames
      (system (destroy (handle 0 to_ptoc) one_taken) []) two_frames-made get_and_send 0
      (omega arith)

more_frames : (malloc_particle 3 two_frames).0 ≡ done (2 ∷ 3 ∷ 4 ∷ [])
unfolding malloc_particle
more_frames = refl

-- A pool of two frames of 1024 bytes in one block.
abbrev carved_frames : Pool lists ℕ
carved_frames = record {
  page_size = 1024;
  all_memalign = false;
  depth = 4;
  data_pool = 0 ∷ 1 ∷ [];
  data_ptoc = [];
  buffers = 5120 ∷ 4096 ∷ [];
  frames = λ a. 0;
  mem_hoster = (4096, 2048) ∷ [];
}

carved_frames-made : construct {p = lists} 2 1024 false (λ a. 0) ≡ done carved_frames
unfolding construct
carved_frames-made = refl

carved_taken :
    P_get carved_frames ≡ (some (handle 0 to_ptoc), record carved_frames { data_pool = 1 ∷ [] })
unfolding P_get
carved_taken = refl

run-Apart_example : Apart 5120 1024 4096 1024 × Within 1024 ((4096, 2048) ∷ []) 5120
run-Apart_example =
    run-Apart lists-IsAllocator 2 1024 false (λ a. 0) carved_frames
      (system (record carved_frames { data_pool = 1 ∷ [] }) (handle 0 to_ptoc ∷ [])) (omega arith)
      (omega arith) carved_frames-made
      (next here
        (gets (handle 0 to_ptoc) (record carved_frames { data_pool = 1 ∷ [] }) carved_taken))
      0 1 5120 4096 (omega arith) refl refl

get_base-Apart_example :
    (s : ClassArray) × (init_array 24 3 (some 4096) no_array ≡ makes true s)
    × (init_array 24 3 none s ≡ aborts)
    × ((i : ℕ) → 3 ≤ i → get_base i s ≡ none)
    × ((i : ℕ)
        → i < 3
        → (get_base i s ≡ some (4096 + i * 24)) × ((4096 + i * 24) + 24 ≤ 4096 + 3 * 24))
    × ((i j : ℕ) → i ≢ j → Apart (4096 + i * 24) 24 (4096 + j * 24) 24)
get_base-Apart_example = get_base-Apart 24 3 4096 none (omega arith) (omega arith)
