-- ===== src/Search/Merged.antt =====
-- What the merge of base results and delta records returns.
use agent_aware.Prelude.{
  ℕ, ◌<◌, ◌≡◌, refl, sym, ap, ◌∙◌, false, ◌||◌, Option, none, some, List, [], ◌∷◌, All, All-imp,
  All-take, ◌==◌, if◌then◌else◌, arith, Bool-cases, inl, inr,
}
use agent_aware.Prelude.Assoc.{find, put, erase, values, find-put, find-erase}
use agent_aware.Prelude.Sort.{sort_by, All-sort_by}
use agent_aware.Records.{DynamicRecord}
use agent_aware.Distance.{FloatOps, squared_l2}
use agent_aware.Search.{
  SearchResult, search_result_less, wrong_size, base_map, overlay, merge_base_and_delta_l2,
}

-- Each entry stands under its own id, and no id stands twice.
IsById : List (ℕ × SearchResult) → Type 0
IsById [] = Unit
IsById ((k, x) ∷ m) = (x.id ≡ k) × (find k m ≡ none) × IsById m

put-IsById : (x : SearchResult) (m : List (ℕ × SearchResult)) → IsById m → IsById (put x.id x m)
unfolding IsById put find
put-IsById x [] h = (refl, refl, tt)
put-IsById x ((k, y) ∷ m) (e, fresh, h) = elim (Bool-cases (k == x.id)) [
  | inl same ↦ rw same (refl, ground (arith, fresh), h)
  | inr other ↦ rw other (e, ground (arith, fresh, find-put x.id k x m), put-IsById x m h)
]

erase-IsById : (id : ℕ) (m : List (ℕ × SearchResult)) → IsById m → IsById (erase id m)
unfolding IsById erase
erase-IsById id [] h = tt
erase-IsById id ((k, y) ∷ m) (e, fresh, h) = elim (Bool-cases (k == id)) [
  | inl same ↦ rw same (erase-IsById id m h)
  | inr other ↦ rw other (e, ground (arith, fresh, find-erase id k m), erase-IsById id m h)
]

values-found :
    (m : List (ℕ × SearchResult))
    → IsById m
    → All (λ (x : SearchResult). find x.id m ≡ some x) (values m)
unfolding IsById find
values-found [] h = tt
values-found ((k, y) ∷ m) (e, fresh, h) = (
  ground (arith, e),
  All-imp (λ (x : SearchResult). find x.id m ≡ some x) _ (values m)
      (λ x found. ground (arith, found, fresh)) (values-found m h),
)

-- The last base result for a node.
unfoldable pub base_last : ℕ → List SearchResult → Option SearchResult → Option SearchResult
base_last id [] o = o
base_last id (b ∷ bs) o = base_last id bs (if b.id == id then some b else o)

find-base_map :
    (id : ℕ) (base : List SearchResult) (m : List (ℕ × SearchResult)) (ops : FloatOps)
    → find id (base_map ops base m) ≡ base_last id base (find id m)
unfolding base_map base_last
find-base_map id [] m ops = refl
find-base_map id (b ∷ bs) m ops =
    find-base_map id bs (put b.id b m) ops ∙ ap (base_last id bs) (find-put b.id id b m)

base_map-IsById :
    (base : List SearchResult) (m : List (ℕ × SearchResult)) (ops : FloatOps)
    → IsById m
    → IsById (base_map ops base m)
unfolding base_map
base_map-IsById [] m ops h = h
base_map-IsById (b ∷ bs) m ops h = base_map-IsById bs (put b.id b m) ops (put-IsById b m h)

module _ (ops : FloatOps) where
  -- What one delta record makes of a node's result.
  unfoldable pub overlaid : List ℕ → ℕ → DynamicRecord → Option SearchResult → Option SearchResult
  overlaid query dim r o =
      if r.deleted
      then none
      else if wrong_size ops r dim
      then o
      else some (record { id = r.node_id; distance = squared_l2 ops query r.vector dim })

  -- A node's result, after its records among the delta records.
  unfoldable pub verdict :
      List ℕ → ℕ → ℕ → List DynamicRecord → Option SearchResult → Option SearchResult
  verdict query dim id [] o = o
  verdict query dim id (r ∷ rs) o =
      verdict query dim id rs (if r.node_id == id then overlaid query dim r o else o)

  find-overlay :
      (query : List ℕ) (dim id : ℕ) (delta : List DynamicRecord) (m : List (ℕ × SearchResult))
      → find id (overlay ops query dim delta m) ≡ verdict query dim id delta (find id m)
  unfolding overlay verdict overlaid
  find-overlay query dim id [] m = refl
  find-overlay query dim id (r ∷ rs) m =
      find-overlay query dim id rs _
      ∙ ap (verdict query dim id rs) (
          ground (
            arith,
            find-erase r.node_id id m,
            find-put r.node_id id
                (record { id = r.node_id; distance = squared_l2 ops query r.vector dim }) m,
          ))

  overlay-IsById :
      (query : List ℕ) (dim : ℕ) (delta : List DynamicRecord) (m : List (ℕ × SearchResult))
      → IsById m
      → IsById (overlay ops query dim delta m)
  unfolding overlay
  overlay-IsById query dim [] m h = h
  overlay-IsById query dim (r ∷ rs) m h =
      overlay-IsById query dim rs _ (elim (Bool-cases r.deleted) [
        | inl gone ↦ rw gone (erase-IsById r.node_id m h)
        | inr live ↦ elim (Bool-cases (wrong_size ops r dim)) [
          | inl wrong ↦ rw (live, wrong) h
          | inr right ↦ rw (live, right) (put-IsById _ m h)
        ]
      ])

  -- For any query, positive dimension and positive count, each result of the merge is what the delta
  -- records make, in their order, of the last base result of its node: a live record of the
  -- query's dimension replaces it, a deleted record removes it, another leaves it. In particular no
  -- node is returned whose last such record is a deletion, and none is returned at a distance to
  -- an older vector.
  pub merge-verdict :
      (base : List SearchResult) (delta : List DynamicRecord) (query : List ℕ) (dim topk : ℕ)
      → 0 < dim
      → 0 < topk
      → All
          (λ (x : SearchResult). verdict query dim x.id delta (base_last x.id base none) ≡ some x)
          (merge_base_and_delta_l2 ops base delta (some query) dim topk)
  unfolding merge_base_and_delta_l2 find
  merge-verdict base delta query dim topk some_dim some_topk =
      let e : (dim == 0) || (topk == 0) ≡ false = ground arith in
      let m : List (ℕ × SearchResult) = overlay ops query dim delta (base_map ops base []) in
      let by_id : IsById m =
        overlay-IsById query dim delta _ (base_map-IsById base [] ops (unfold IsById in tt)) in
      let found : All
          (λ (x : SearchResult). verdict query dim x.id delta (base_last x.id base none) ≡ some x)
          (values m) =
        All-imp (λ (x : SearchResult). find x.id m ≡ some x) _ (values m)
          (λ x h.
            sym (
              find-overlay query dim x.id delta (base_map ops base [])
              ∙ ap (verdict query dim x.id delta) (find-base_map x.id base [] ops))
            ∙ h)
          (values-found m by_id) in
      rw e (
        All-take _ topk (sort_by (search_result_less ops) (values m))
          (All-sort_by (search_result_less ops) _ (values m) found))
