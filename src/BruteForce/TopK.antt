-- ===== src/BruteForce/TopK.antt =====
-- What the exact search returns.
use agent_aware.Prelude.{
  All, ◌∙◌, ℕ, zero, suc, ◌+◌, ◌<◌, ◌≡◌, refl, ap, false, some, List, [], length, ◌==◌, arith, min,
}
use agent_aware.Prelude.Sort.{sort_by}
use agent_aware.Prelude.TopK.{IsTopK, take-sort_by-IsTopK}
use agent_aware.Prelude.Heap.{fill, sort_by-fill-IsTopK}
use agent_aware.Distance.{FloatOps}
use agent_aware.Search.{SearchResult, search_result_less}
use agent_aware.Search.TopK.{
  nearer_result, ResultHasNumber, nearer_result-IsStrictWeak, search_result_less-Agree,
}
use agent_aware.Search.Agree.{fill-Agree, sort_by-Agree}
use agent_aware.BruteForce.{VectorSet, size, row_items, search_memory_fast}

module _ (ops : FloatOps) where
  length-row_items :
      (base : VectorSet) (query : List ℕ) (i n : ℕ) → length (row_items ops base query i n) ≡ n
  unfolding row_items
  length-row_items base query i zero = refl
  length-row_items base query i (suc n) = ap suc (length-row_items base query (i + 1) n)

  -- For a set that is not empty, any query and any `k`, where no row's distance is NaN, the exact search does not
  -- throw: it returns the best `k` of all the rows, ascending by distance and then row number; it has all the rows,
  -- if `k` is greater than their number, and no row left out is nearer than one returned, or as near and before it.
  pub search_memory_fast-IsTopK :
      (base : VectorSet) (query : List ℕ) (k : ℕ)
      → 0 < size base
      → All (ResultHasNumber ops) (row_items ops base query 0 (size base))
      → (out : List SearchResult) × (search_memory_fast ops base (some query) k ≡ some out)
        × IsTopK (nearer_result ops) k (row_items ops base query 0 (size base)) out
  unfolding search_memory_fast
  search_memory_fast-IsTopK base query zero rows numbers =
      let e : size base == 0 ≡ false = ground arith in
      ([], rw e refl, take-sort_by-IsTopK (nearer_result ops) (nearer_result-IsStrictWeak ops) 0 _)
  search_memory_fast-IsTopK base query (suc k) rows numbers =
      let e : size base == 0 ≡ false = ground arith in
      let f : suc k == 0 ≡ false = ground arith in
      let items : List SearchResult = row_items ops base query 0 (size base) in
      let n : ℕ = min (suc k) (size base) in
      let (filled, kept) =
        fill-Agree (ResultHasNumber ops) (search_result_less ops) (nearer_result ops)
          (search_result_less-Agree ops) n [] items tt numbers in
      let sorted =
        sort_by-Agree (ResultHasNumber ops) (search_result_less ops) (nearer_result ops)
          (search_result_less-Agree ops) (fill (search_result_less ops) n [] items) kept in
      let t : IsTopK (nearer_result ops) n items _ =
        sort_by-fill-IsTopK (nearer_result ops) (nearer_result-IsStrictWeak ops) n items
          (ground arith) in
      (
        sort_by (nearer_result ops) (fill (nearer_result ops) n [] items),
        rw (e, f) (ap some (sorted ∙ ap (sort_by (nearer_result ops)) filled)),
        record {
          best = record {
            count = omega (arith, t.best.count, length-row_items base query 0 (size base));
            rest = t.best.rest;
            total = t.best.total;
            parts = t.best.parts;
            beaten = t.best.beaten;
          };
          sorted = t.sorted;
        },
      )
