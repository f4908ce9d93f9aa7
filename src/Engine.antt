-- ===== src/Engine.antt =====
-- `PackedGraphEngine` of src/engine/storage_engine.cpp. The search of the graph index and the index's
-- dimension are fields; timings are not modelled.
pub mod Deletions
pub mod Current
use agent_aware.Prelude.{
  ℕ, Bool, true, false, not, Option, none, some, List, [], ◌∷◌, ◌++◌, if◌then◌else◌,
}
use agent_aware.Prelude.Assoc.{values}
use agent_aware.Distance.{FloatOps}
use agent_aware.Search.{SearchResult, merge_base_and_delta_l2}
use agent_aware.Manager.State.{Manager}
use agent_aware.Manager.Flush.{FlushDevice}
use agent_aware.Manager.Writes
use agent_aware.Manager.Reads.{current_sequence, latest_records_for, search_delta_l2_at}

pub record PackedGraphEngine : Type 0 where
  pub dynamic_manager : Option Manager
  pub dim : ℕ
  pub graph_search : Option (List ℕ) → ℕ → List SearchResult

unfoldable pub ids_of_results : List SearchResult → List ℕ
ids_of_results [] = []
ids_of_results (x ∷ xs) = x.id ∷ ids_of_results xs

module _ (ops : FloatOps) where
  -- The part of `search_one` with a manager, behind the search of the graph.
  unfoldable pub merge_dynamic :
      Manager → List SearchResult → Option (List ℕ) → ℕ → ℕ → ℕ → List SearchResult
  merge_dynamic m graph_topk query dim top_k read_sequence =
      let latest = latest_records_for m (ids_of_results graph_topk) read_sequence true in
      let delta = search_delta_l2_at ops m query dim top_k read_sequence in
      merge_base_and_delta_l2 ops graph_topk (delta ++ values latest) query dim top_k

  -- The results, and the read sequence of the statistics.
  unfoldable pub search_one : PackedGraphEngine → Option (List ℕ) → ℕ → List SearchResult × ℕ
  search_one e query top_k = elim e.dynamic_manager [
    | none ↦ (e.graph_search query top_k, 0)
    | some m ↦ (
      merge_dynamic m (e.graph_search query top_k) query e.dim top_k (current_sequence m),
      current_sequence m,
    )
  ]

-- The engine after a call, and whether the call returned rather than threw.
abbrev after : PackedGraphEngine → Manager × Bool → PackedGraphEngine × Bool
after e (m, ok) = (record e { dynamic_manager = some m }, ok)

unfoldable pub insert :
    FloatOps → FlushDevice → PackedGraphEngine → ℕ → Option (List ℕ) → PackedGraphEngine × Bool
insert ops device e id vector = elim e.dynamic_manager [
  | none ↦ (e, false)
  | some m ↦ after e (Writes.insert ops device m id vector e.dim)
]

unfoldable pub update :
    FloatOps → FlushDevice → PackedGraphEngine → ℕ → Option (List ℕ) → PackedGraphEngine × Bool
update ops device e id vector = elim e.dynamic_manager [
  | none ↦ (e, false)
  | some m ↦ after e (Writes.update ops device m id vector e.dim)
]

unfoldable pub erase : FlushDevice → PackedGraphEngine → ℕ → PackedGraphEngine × Bool
erase device e id = elim e.dynamic_manager [
  | none ↦ (e, false)
  | some m ↦ after e (Writes.erase device m id)
]
