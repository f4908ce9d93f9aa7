-- ===== src/Search/TopK.antt =====
-- What the searches over scored records return.
use agent_aware.Prelude.{
  Bool, not, ◌&&◌, if◌then◌else◌, ltb, ℕ, zero, suc, ◌<◌, ◌≡◌, refl, false, ◌||◌, some, List, [],
  ◌∷◌, length, All, ◌==◌, arith, take,
}
use agent_aware.Prelude.Sort.{sort_by, IsStrictWeak}
use agent_aware.Prelude.TopK.{IsTopK, take-sort_by-IsTopK}
use agent_aware.Records.{DynamicRecord}
use agent_aware.Distance.{FloatOps, is_nan, float_eq, float_less, squared_l2}
use agent_aware.Search.Agree.{Agree, sort_by-Agree}
use agent_aware.Search.{
  SearchResult, ScoredRecord, scored_less, search_result_less, score_candidates, ids_of,
  select_neighbors, score_all, items_of, search_delta,
}

-- The records that pass a test.
abbrev pub keep : (DynamicRecord → Bool) → List DynamicRecord → List DynamicRecord
keep test [] = []
keep test (r ∷ rs) = if test r then r ∷ keep test rs else keep test rs

-- The live records of a dimension.
abbrev pub live_of : ℕ → DynamicRecord → Bool
live_of dim r = not r.deleted && (r.dim == dim) && (length r.vector == dim)

module _ (ops : FloatOps) where
  -- The records, each at its distance from the query.
  abbrev pub scored : List ℕ → ℕ → List DynamicRecord → List ScoredRecord
  scored query dim [] = []
  scored query dim (r ∷ rs) =
      record { item = r; distance = squared_l2 ops query r.vector dim } ∷ scored query dim rs

  -- Nearer, or as near and of a smaller node.
  abbrev pub nearer : ScoredRecord → ScoredRecord → Bool
  nearer a b =
      ltb (ops.rank a.distance) (ops.rank b.distance)
      || ((ops.rank a.distance == ops.rank b.distance) && ltb a.item.node_id b.item.node_id)

  abbrev pub nearer_result : SearchResult → SearchResult → Bool
  nearer_result a b =
      ltb (ops.rank a.distance) (ops.rank b.distance)
      || ((ops.rank a.distance == ops.rank b.distance) && ltb a.id b.id)

  abbrev pub HasNumber : ScoredRecord → Type 0
  HasNumber c = is_nan c.distance ≡ false

  abbrev pub ResultHasNumber : SearchResult → Type 0
  ResultHasNumber c = is_nan c.distance ≡ false

  pub nearer_result-IsStrictWeak : IsStrictWeak nearer_result
  nearer_result-IsStrictWeak = record {
    asym = λ a b h. ground arith;
    not_trans = λ a b c h g. ground arith;
  }

  nearer-IsStrictWeak : IsStrictWeak nearer
  nearer-IsStrictWeak = record {
    asym = λ a b h. ground arith;
    not_trans = λ a b c h g. ground arith;
  }

  pub search_result_less-Agree : Agree ResultHasNumber (search_result_less ops) nearer_result
  unfolding search_result_less float_eq float_less
  search_result_less-Agree a b p q = ground (arith, p, q)

  scored_less-Agree : Agree HasNumber (scored_less ops) nearer
  unfolding scored_less float_eq float_less
  scored_less-Agree a b p q = ground (arith, p, q)

  sort_by-IsTopK :
      (k : ℕ) (items : List ScoredRecord)
      → All HasNumber items
      → IsTopK nearer k items (take k (sort_by (scored_less ops) items))
  sort_by-IsTopK k items numbers =
      rw (sort_by-Agree HasNumber (scored_less ops) nearer scored_less-Agree items numbers)
        (take-sort_by-IsTopK nearer nearer-IsStrictWeak k items)

  score_all-live :
      (query : List ℕ) (dim : ℕ) (records : List DynamicRecord)
      → score_all ops query dim records ≡ scored query dim (keep (live_of dim) records)
  unfolding score_all
  score_all-live query dim [] = refl
  score_all-live query dim (r ∷ rs) = ground (arith, score_all-live query dim rs)

  score_candidates-live :
      (node_id dim : ℕ) (vector : List ℕ) (records : List DynamicRecord)
      → score_candidates ops node_id vector dim records
        ≡ scored vector dim (keep (λ r. live_of dim r && not (r.node_id == node_id)) records)
  unfolding score_candidates
  score_candidates-live node_id dim vector [] = refl
  score_candidates-live node_id dim vector (r ∷ rs) =
      ground (arith, score_candidates-live node_id dim vector rs)

  -- For any query, positive dimension and positive count, and any records, where no distance of a live record of this
  -- dimension is NaN: the delta search returns the items of a list that is the best `topk` of all the live records
  -- of the dimension, each at its distance from the query: ascending by distance and then node, as many as asked
  -- for or all, and no record left out is nearer than one returned, or as near and of a smaller node.
  pub search_delta-IsTopK :
      (query : List ℕ) (dim topk : ℕ) (records : List DynamicRecord)
      → 0 < dim
      → 0 < topk
      → All HasNumber (scored query dim (keep (live_of dim) records))
      → (out : List ScoredRecord) × (search_delta ops (some query) dim topk records
          ≡ items_of ops out)
        × IsTopK nearer topk (scored query dim (keep (live_of dim) records)) out
  unfolding search_delta
  search_delta-IsTopK query dim topk records some_dim some_topk numbers =
      let e : (dim == 0) || (topk == 0) ≡ false = ground arith in
      (
        take topk (sort_by (scored_less ops) (scored query dim (keep (live_of dim) records))),
        rw (e, score_all-live query dim records) refl,
        sort_by-IsTopK topk _ numbers,
      )

  -- Where no distance of a candidate is NaN, a new record's neighbours are the best `degree` of the live records of its
  -- dimension and of other nodes, each at its distance from the new vector: ascending by distance and then node,
  -- and no candidate left out is nearer, or as near and of a smaller node. There are none for a degree of 0.
  pub select_neighbors-IsTopK :
      (degree node_id dim : ℕ) (vector : List ℕ) (records : List DynamicRecord)
      → let candidates =
          scored vector dim (keep (λ r. live_of dim r && not (r.node_id == node_id)) records) in
        All HasNumber candidates
        → (out : List ScoredRecord) × (select_neighbors ops degree node_id vector dim records
            ≡ ids_of ops out)
          × IsTopK nearer degree candidates out
  unfolding select_neighbors
  select_neighbors-IsTopK zero node_id dim vector records numbers =
      ([], refl, sort_by-IsTopK 0 _ numbers)
  select_neighbors-IsTopK (suc degree) node_id dim vector records numbers =
      let e : suc degree == 0 ≡ false = ground arith in
      (
        take (suc degree) (
            sort_by (scored_less ops) (
              scored vector dim (keep (λ r. live_of dim r && not (r.node_id == node_id)) records))),
        rw (e, score_candidates-live node_id dim vector records) refl,
        sort_by-IsTopK (suc degree) _ numbers,
      )
