-- ===== src/Tests/Searches.antt =====
-- The searches at concrete vectors, with whole numbers in place of floats.
use agent_aware.Prelude.{not, ◌&&◌, ◌==◌, ◌<◌, ◌≡◌, refl, none, some, List, [], ◌∷◌, All, arith}
use agent_aware.Prelude.TopK.{IsTopK}
use agent_aware.Distance.{
  is_nan, squared_l2, simd_loop, add_lanes, square_diff, sum_lanes, tail_loop,
}
use agent_aware.Search.{
  ScoredRecord, SearchResult, ids_of, select_neighbors, items_of, search_delta,
  merge_base_and_delta_l2,
}
use agent_aware.Search.TopK.{
  nearer, nearer_result, scored, keep, live_of, search_delta-IsTopK, select_neighbors-IsTopK,
}
use agent_aware.Search.Merged.{base_last, verdict, merge-verdict}
use agent_aware.BruteForce.{VectorSet, size, row_items, search_memory_fast}
use agent_aware.BruteForce.TopK.{search_memory_fast-IsTopK}
use agent_aware.Tests.{deletion, three_records, whole}

-- Three rows of two numbers.
abbrev rows : VectorSet
rows = record { dim = 2; values = 9 ∷ 9 ∷ 1 ∷ 2 ∷ 3 ∷ 3 ∷ [] }

some_rows : 0 < size rows
unfolding size
some_rows = omega arith

squared_l2_test : squared_l2 whole (1 ∷ 2 ∷ 3 ∷ []) (4 ∷ 2 ∷ 1 ∷ []) 3 ≡ 13
unfolding squared_l2 simd_loop add_lanes square_diff sum_lanes tail_loop
squared_l2_test = refl

search_memory_fast-IsTopK_example :
    (out : List SearchResult) × (search_memory_fast whole rows (some (0 ∷ 0 ∷ [])) 2 ≡ some out)
    × IsTopK (nearer_result whole) 2 (row_items whole rows (0 ∷ 0 ∷ []) 0 (size rows)) out
unfolding size row_items squared_l2 simd_loop add_lanes square_diff sum_lanes tail_loop is_nan
search_memory_fast-IsTopK_example =
    search_memory_fast-IsTopK whole rows (0 ∷ 0 ∷ []) 2 some_rows (refl, (refl, (refl, tt)))

search_delta-IsTopK_example :
    (out : List ScoredRecord) × (search_delta whole (some (0 ∷ 0 ∷ [])) 2 1 three_records
      ≡ items_of whole out)
    × IsTopK (nearer whole) 1 (scored whole (0 ∷ 0 ∷ []) 2 (keep (live_of 2) three_records)) out
unfolding squared_l2 simd_loop add_lanes square_diff sum_lanes tail_loop is_nan
search_delta-IsTopK_example =
    search_delta-IsTopK whole (0 ∷ 0 ∷ []) 2 1 three_records (omega arith) (omega arith)
      (refl, (refl, tt))

select_neighbors-IsTopK_example :
    (out : List ScoredRecord) × (select_neighbors whole 1 9 (0 ∷ 0 ∷ []) 2 three_records
      ≡ ids_of whole out)
    × IsTopK
        (nearer whole)
        1
        (scored whole
          (0 ∷ 0 ∷ [])
          2
          (keep (λ r. live_of 2 r && not (r.node_id == 9)) three_records))
        out
unfolding squared_l2 simd_loop add_lanes square_diff sum_lanes tail_loop is_nan
select_neighbors-IsTopK_example =
    select_neighbors-IsTopK whole 1 9 2 (0 ∷ 0 ∷ []) three_records (refl, (refl, tt))

-- Two base results, one of a node that the delta records delete.
abbrev base_results : List SearchResult
base_results = record { id = 7; distance = 1 } ∷ record { id = 8; distance = 6 } ∷ []

merge-verdict_example :
    All
      (λ (x : SearchResult).
        verdict whole (0 ∷ 0 ∷ []) 2 x.id (deletion ∷ []) (base_last x.id base_results none)
        ≡ some x)
      (merge_base_and_delta_l2 whole base_results (deletion ∷ []) (some (0 ∷ 0 ∷ [])) 2 5)
merge-verdict_example =
    merge-verdict whole base_results (deletion ∷ []) (0 ∷ 0 ∷ []) 2 5 (omega arith) (omega arith)
