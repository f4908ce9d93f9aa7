-- ===== src/BruteForce.antt =====
-- src/core/brute_force.cpp: the exact search in memory, and `VectorSet` of include/core/types.h.
-- A call that throws is `none`; a null query is `none`.
pub mod TopK
use agent_aware.Prelude.{
  ℕ, zero, suc, ◌+◌, ◌-◌, ◌*◌, ◌/◌, ◌%◌, ◌^◌, ◌<◌, ◌≤◌, ◌≡◌, ◌≢◌, refl, sym, ap, ◌∙◌, Bool, true,
  false, not, ◌&&◌, ◌||◌, Option, none, some, List, [], ◌∷◌, ◌++◌, append_assoc, append-nil, length,
  All, leb, ltb, ◌==◌, if◌then◌else◌, arith, length-append, take, drop, length-take,
  take-append-drop, length-drop, Bool-cases, Option-cases, inl, inr, min, max, ◌⊎◌, ◌↔◌,
}
use agent_aware.Prelude.Sort.{sort_by}
use agent_aware.Prelude.Heap.{fill}
use agent_aware.Distance.{FloatOps, squared_l2}
use agent_aware.Search.{SearchResult, search_result_less}

pub record VectorSet : Type 0 where
  pub dim : ℕ
  pub values : List ℕ

unfoldable pub size : VectorSet → ℕ
size s = if s.dim == 0 then 0 else length s.values / s.dim

-- `row(index)`: what the pointer leads to; out of range it throws.
unfoldable pub row : VectorSet → ℕ → Option (List ℕ)
row s index = if leb (size s) index then none else some (drop (index * s.dim) s.values)

module _ (ops : FloatOps) where
  -- The items of the loop over the rows, `n` of them from the `i`-th on.
  unfoldable pub row_items : VectorSet → List ℕ → ℕ → ℕ → List SearchResult
  row_items base query i zero = []
  row_items base query i (suc n) =
      record {
        id = i % 2 ^ 32;
        distance = squared_l2 ops query (drop (i * base.dim) base.values) base.dim;
      }
      ∷ row_items base query (i + 1) n

  -- The queue holds the best `effective_k` items seen; its content is sorted at the end.
  unfoldable pub search_memory_fast : VectorSet → Option (List ℕ) → ℕ → Option (List SearchResult)
  search_memory_fast base query k = if size base == 0 then none else elim query [
    | none ↦ none
    | some q ↦
        if k == 0
        then some []
        else some (
            sort_by (search_result_less ops) (
              fill (search_result_less ops) (min k (size base)) []
                (row_items base q 0 (size base))))
  ]

  -- The loop over the queries, `n` of them from the `i`-th on.
  unfoldable pub search_queries :
      VectorSet → VectorSet → ℕ → ℕ → ℕ → Option (List (List SearchResult))
  search_queries base queries k i zero = some []
  search_queries base queries k i (suc n) =
      let rest = search_queries base queries k (i + 1) n in
      elim (row queries i) [
        | none ↦ none
        | some q ↦ elim (search_memory_fast base (some q) k) [
          | none ↦ none
          | some found ↦ elim rest [ none ↦ none | some all ↦ some (found ∷ all) ]
        ]
      ]

  unfoldable pub search_memory_fast_batch :
      VectorSet → VectorSet → ℕ → Option (List (List SearchResult))
  search_memory_fast_batch base queries k =
      if not (queries.dim == base.dim) then none else search_queries base queries k 0 (size queries)
