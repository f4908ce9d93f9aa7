-- ===== src/Search.antt =====
-- The scored searches of src/dynamic/dynamic_write_manager.cpp: the neighbours of a new record, the
-- nearest delta records, and the merge of base results with them.
pub mod Agree
pub mod TopK
pub mod Merged
use agent_aware.Prelude.{
  ℕ, zero, suc, ◌+◌, ◌-◌, ◌*◌, ◌/◌, ◌%◌, ◌^◌, ◌<◌, ◌≤◌, ◌≡◌, ◌≢◌, refl, sym, ap, ◌∙◌, Bool, true,
  false, not, ◌&&◌, ◌||◌, Option, none, some, List, [], ◌∷◌, ◌++◌, append_assoc, append-nil, length,
  All, leb, ltb, ◌==◌, if◌then◌else◌, arith, length-append, take, drop, length-take,
  take-append-drop, length-drop, Bool-cases, Option-cases, inl, inr, min, max, ◌⊎◌, ◌↔◌,
}
use agent_aware.Prelude.Assoc.{put, erase, values}
use agent_aware.Prelude.Sort.{sort_by}
use agent_aware.Records.{DynamicRecord}
use agent_aware.Distance.{FloatOps, float_eq, float_less, squared_l2}

pub record ScoredRecord : Type 0 where
  pub item : DynamicRecord
  pub distance : ℕ

-- include/core/types.h
pub record SearchResult : Type 0 where
  pub id : ℕ
  pub distance : ℕ

module _ (ops : FloatOps) where
  unfoldable pub scored_less : ScoredRecord → ScoredRecord → Bool
  scored_less a b =
      if float_eq ops a.distance b.distance
      then ltb a.item.node_id b.item.node_id
      else float_less ops a.distance b.distance

  -- Also `WorseFirst`, the test of the loop and the order of the results in src/core/brute_force.cpp, which are
  -- the same on HeapItem and SearchResult.
  unfoldable pub search_result_less : SearchResult → SearchResult → Bool
  search_result_less a b =
      if float_eq ops a.distance b.distance
      then ltb a.id b.id
      else float_less ops a.distance b.distance

  -- `record.dim != dim || record.vector.size() != dim`
  abbrev pub wrong_size : DynamicRecord → ℕ → Bool
  wrong_size r dim = not (r.dim == dim) || not (length r.vector == dim)

  -- The candidates of `select_incremental_neighbors_locked`.
  unfoldable pub score_candidates : ℕ → List ℕ → ℕ → List DynamicRecord → List ScoredRecord
  score_candidates node_id vector dim [] = []
  score_candidates node_id vector dim (r ∷ rs) =
      let rest = score_candidates node_id vector dim rs in
      if r.deleted || (r.node_id == node_id) || wrong_size r dim
      then rest
      else record { item = r; distance = squared_l2 ops vector r.vector dim } ∷ rest

  abbrev pub ids_of : List ScoredRecord → List ℕ
  ids_of [] = []
  ids_of (c ∷ cs) = c.item.node_id ∷ ids_of cs

  -- `select_incremental_neighbors_locked`, over the newest record of each node.
  unfoldable pub select_neighbors : ℕ → ℕ → List ℕ → ℕ → List DynamicRecord → List ℕ
  select_neighbors degree node_id vector dim records =
      if degree == 0
      then []
      else ids_of (take degree (sort_by scored_less (score_candidates node_id vector dim records)))

  unfoldable pub score_all : List ℕ → ℕ → List DynamicRecord → List ScoredRecord
  score_all query dim [] = []
  score_all query dim (r ∷ rs) =
      let rest = score_all query dim rs in
      if r.deleted || wrong_size r dim
      then rest
      else record { item = r; distance = squared_l2 ops query r.vector dim } ∷ rest

  abbrev pub items_of : List ScoredRecord → List DynamicRecord
  items_of [] = []
  items_of (c ∷ cs) = c.item ∷ items_of cs

  -- `search_delta_l2_at`, over the newest record of each node. A null query is `none`.
  unfoldable pub search_delta : Option (List ℕ) → ℕ → ℕ → List DynamicRecord → List DynamicRecord
  search_delta none dim topk records = []
  search_delta (some query) dim topk records =
      if (dim == 0) || (topk == 0)
      then []
      else items_of (take topk (sort_by scored_less (score_all query dim records)))

  unfoldable pub base_map : List SearchResult → List (ℕ × SearchResult) → List (ℕ × SearchResult)
  base_map [] by_id = by_id
  base_map (b ∷ bs) by_id = base_map bs (put b.id b by_id)

  -- The loop over the delta records.
  unfoldable pub overlay :
      List ℕ → ℕ → List DynamicRecord → List (ℕ × SearchResult) → List (ℕ × SearchResult)
  overlay query dim [] by_id = by_id
  overlay query dim (r ∷ rs) by_id = overlay query dim rs (
      if r.deleted
      then erase r.node_id by_id
      else if wrong_size r dim
      then by_id
      else put r.node_id (record { id = r.node_id; distance = squared_l2 ops query r.vector dim })
          by_id)

  unfoldable pub merge_base_and_delta_l2 :
      List SearchResult → List DynamicRecord → Option (List ℕ) → ℕ → ℕ → List SearchResult
  merge_base_and_delta_l2 base delta none dim topk = []
  merge_base_and_delta_l2 base delta (some query) dim topk =
      if (dim == 0) || (topk == 0)
      then []
      else take topk
          (sort_by search_result_less (values (overlay query dim delta (base_map base []))))
