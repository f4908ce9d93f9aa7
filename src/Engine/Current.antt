-- ===== src/Engine/Current.antt =====
-- The results of the engine's search are of nodes that are not deleted.
use agent_aware.Prelude.{
  ℕ, ◌<◌, ◌≡◌, refl, sym, ◌∙◌, Bool, true, false, Option, none, some, List, ◌++◌, All, All-imp,
  Bool-cases, Option-cases, inl, inr,
}
use agent_aware.Prelude.Assoc.{values}
use agent_aware.Records.{DynamicRecord}
use agent_aware.History.{
  deduplicate_newest_at, latest_record_from_history, latest_records_for_from_history,
}
use agent_aware.Distance.{FloatOps}
use agent_aware.Search.{SearchResult, search_delta}
use agent_aware.Search.Merged.{base_last, verdict, merge-verdict}
use agent_aware.Manager.State.{Manager}
use agent_aware.Manager.Reads.{
  view_records, current_sequence, latest_record, latest_records_for, collect_all_delta_records_at,
  search_delta_l2_at,
}
use agent_aware.Engine.{PackedGraphEngine, ids_of_results, merge_dynamic, search_one}
use agent_aware.Engine.Deletions.{verdict-deleted}

-- A record that marks its node as deleted.
unfoldable pub is_deleted : Option DynamicRecord → Bool
is_deleted none = false
is_deleted (some r) = r.deleted

module _ (ops : FloatOps) where
  -- What the manager's reads are over a view.
  view_reads :
      (m : Manager) (history : List DynamicRecord) (ids : List ℕ) (query : List ℕ)
      (dim top_k s id : ℕ)
      → view_records m ≡ some history
      → (latest_record m id s true ≡ latest_record_from_history history id s true)
        × (search_delta_l2_at ops m (some query) dim top_k s
            ≡ search_delta ops (some query) dim top_k (deduplicate_newest_at history s))
        × (latest_records_for m ids s true ≡ latest_records_for_from_history history ids s true)
  unfolding latest_record search_delta_l2_at collect_all_delta_records_at latest_records_for
  view_reads m history ids query dim top_k s id seen = (
    rw (latest_record, seen) refl,
    rw (search_delta_l2_at, collect_all_delta_records_at, seen) refl,
    rw (latest_records_for, seen) refl,
  )

  no_view : (m : Manager) (id s : ℕ) → view_records m ≡ none → latest_record m id s true ≡ none
  unfolding latest_record
  no_view m id s closed = rw (latest_record, closed) refl

  -- The merge over any manager, for one node.
  merge_dynamic-verdict :
      (m : Manager) (base : List SearchResult) (query : List ℕ) (dim top_k s id : ℕ)
      → (r : DynamicRecord) → latest_record m id s true ≡ some r
      → r.deleted ≡ true
      → verdict ops query dim id
          (search_delta_l2_at ops m (some query) dim top_k s
            ++ values (latest_records_for m (ids_of_results base) s true))
          (base_last id base none)
        ≡ none
  merge_dynamic-verdict m base query dim top_k s id r newest gone =
      elim (Option-cases (view_records m)) [
        | inl closed ↦ let absent : latest_record m id s true ≡ none = no_view m id s closed in cc
        | inr (history, seen) ↦
            let (same, near, found) =
              view_reads m history (ids_of_results base) query dim top_k s id seen in
            rw (near, found)
              (verdict-deleted ops query dim id base history top_k s r (sym same ∙ newest) gone)
      ]

  -- A node with a result left is not deleted.
  result-live :
      (m : Manager) (base : List SearchResult) (query : List ℕ) (dim top_k s : ℕ) (x : SearchResult)
      → verdict ops query dim x.id
          (search_delta_l2_at ops m (some query) dim top_k s
            ++ values (latest_records_for m (ids_of_results base) s true))
          (base_last x.id base none)
        ≡ some x
      → is_deleted (latest_record m x.id s true) ≡ false
  unfolding is_deleted
  result-live m base query dim top_k s x h = elim (Option-cases (latest_record m x.id s true)) [
    | inl absent ↦ rw absent refl
    | inr (r, newest) ↦ elim (Bool-cases r.deleted) [
      | inr live ↦ rw newest live
      | inl gone ↦
          let nothing = merge_dynamic-verdict m base query dim top_k s x.id r newest gone in cc
    ]
  ]

  -- For any engine with a manager, in whatever state the manager is, any query and a positive
  -- dimension and count: no result of `search_one` is of a node whose newest version in the
  -- manager, at the read sequence, is a deletion. This covers the results that the graph still has
  -- of nodes that were erased later.
  pub search_one-live :
      (e : PackedGraphEngine) (m : Manager) (query : List ℕ) (top_k : ℕ)
      → e.dynamic_manager ≡ some m
      → 0 < e.dim
      → 0 < top_k
      → All
          (λ (x : SearchResult).
            is_deleted (latest_record m x.id (current_sequence m) true) ≡ false)
          (search_one ops e (some query) top_k).0
  unfolding search_one merge_dynamic
  search_one-live e m query top_k has some_dim some_topk = rw has (
      All-imp _ _ _
        (result-live m (e.graph_search (some query) top_k) query e.dim top_k (current_sequence m))
        (merge-verdict ops (e.graph_search (some query) top_k) _ query e.dim top_k some_dim
          some_topk))
