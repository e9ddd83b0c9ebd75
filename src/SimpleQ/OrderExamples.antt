-- ===== src/SimpleQ/OrderExamples.antt =====
-- A run of one producer and a consumer.
use s4_lib_lite.Prelude.{ℕ, ◌≡◌, refl, List, [], ◌∷◌, ◌++◌, some, true}
use s4_lib_lite.SimpleQ.Pool.{handle, to_pool, to_ptoc, Pool, C_get_bulk}
use s4_lib_lite.SimpleQ.ListPlatform.{lists, list_tokens, list_tokens-IsOrdered}
use s4_lib_lite.SimpleQ.Examples.{two_frames, two_frames-made}
use s4_lib_lite.SimpleQ.Single.{
  TokenHandle, with_token, without_token, run, single_get, single_destroy, gets, ends,
  receives_bulk, SingleReach, here, next,
}
use s4_lib_lite.SimpleQ.Order.{run-IsInOrder}

abbrev none_left : Pool lists ℕ
none_left = record two_frames { data_pool = [] }

abbrev later_sent : Pool lists ℕ
later_sent = record none_left { data_ptoc = 1 ∷ [] }

abbrev both_sent : Pool lists ℕ
both_sent = record none_left { data_ptoc = 1 ∷ 0 ∷ [] }

abbrev sender : ℕ → TokenHandle
sender a = with_token (handle a to_ptoc)

abbrev reader : ℕ → TokenHandle
reader a = without_token (handle a to_pool)

send_later : single_destroy list_tokens (sender 1) none_left ≡ some later_sent
unfolding single_destroy
send_later = refl

send_first : single_destroy list_tokens (sender 0) later_sent ≡ some both_sent
unfolding single_destroy
send_first = refl

-- Two frames are got, the later one is sent first, and both are received at once.
two_rounds :
    SingleReach list_tokens
      (run two_frames [] [] [])
      (run none_left (reader 1 ∷ reader 0 ∷ []) (1 ∷ 0 ∷ []) (1 ∷ 0 ∷ []))
unfolding single_get C_get_bulk
two_rounds =
    next
      (next
        (next (next (next here gets) gets)
          (ends [] (sender 0 ∷ []) (sender 1) later_sent refl send_later))
        (ends [] [] (sender 0) both_sent refl send_first))
      (receives_bulk 8)

run-IsInOrder_example : (pending : List ℕ) × ((1 ∷ 0 ∷ []) ++ pending ≡ 1 ∷ 0 ∷ [])
run-IsInOrder_example =
    run-IsInOrder list_tokens list_tokens-IsOrdered 2 4096 true (λ a. 0) two_frames
      (run none_left (reader 1 ∷ reader 0 ∷ []) (1 ∷ 0 ∷ []) (1 ∷ 0 ∷ [])) two_frames-made
      two_rounds
