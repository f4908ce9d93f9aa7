-- ===== src/Manager/OwnWrites.antt =====
-- What a reader gets after a write that reports success.
use agent_aware.Prelude.{
  ℕ, ◌+◌, ◌-◌, ◌<◌, ◌≡◌, refl, true, false, not, ◌||◌, none, some, List, ◌==◌, take, Bool-cases,
  inl, inr,
}
use agent_aware.History.{unless_deleted}
use agent_aware.Distance.{FloatOps}
use agent_aware.Search.{select_neighbors}
use agent_aware.Manager.State.{Manager, u64_mod}
use agent_aware.Manager.Flush.{FlushDevice}
use agent_aware.Manager.Writes.{collect_locked, insert, erase}
use agent_aware.Manager.Reads.{get}
use agent_aware.Manager.Visible.{IsConsistent}
use agent_aware.Manager.Answers.{append_record-get}

module _ (ops : FloatOps) where
  -- On an open manager whose view is consistent, with the next sequence number and its successor
  -- below 2 ^ 64, an `insert` that reports success makes `get` return the inserted record: the
  -- node, the first `dim` floats, the neighbours selected in the state before, the next sequence
  -- number, and not deleted.
  pub insert-get :
      (device : FlushDevice) (m : Manager) (node_id : ℕ) (vector : List ℕ) (dim : ℕ)
      → IsConsistent m
      → m.opened ≡ true
      → m.manifest.next_sequence_id + 1 < u64_mod
      → (insert ops device m node_id (some vector) dim).1 ≡ true
      → get (insert ops device m node_id (some vector) dim).0 node_id
        ≡ some (record {
          sequence_id = m.manifest.next_sequence_id;
          node_id = node_id;
          dim = dim;
          vector = take dim vector;
          neighbors =
              select_neighbors ops m.options.dynamic_graph_degree node_id vector dim
                (collect_locked m (u64_mod - 1));
          deleted = false;
        })
  unfolding insert unless_deleted
  insert-get device m node_id vector dim c o small =
      elim (Bool-cases ((dim == 0) || not m.opened)) [
        | inl guarded ↦ rw guarded (λ done. cc)
        | inr passed ↦ rw passed (λ done. append_record-get device m _ c o refl small done)
      ]

-- On an open manager whose view is consistent, with the next sequence number and its successor
-- below 2 ^ 64, an `erase` that reports success makes `get` return nothing for the node.
pub erase-get :
    (device : FlushDevice) (m : Manager) (node_id : ℕ)
    → IsConsistent m
    → m.opened ≡ true
    → m.manifest.next_sequence_id + 1 < u64_mod
    → (erase device m node_id).1 ≡ true
    → get (erase device m node_id).0 node_id ≡ none
unfolding erase unless_deleted
erase-get device m node_id c o small = elim (Bool-cases (not m.opened)) [
  | inl closed ↦ rw closed (λ done. cc)
  | inr ready ↦ rw ready (λ done. append_record-get device m _ c o refl small done)
]
