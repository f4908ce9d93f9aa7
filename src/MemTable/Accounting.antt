-- ===== src/MemTable/Accounting.antt =====
-- The running byte count of the table, and the version that it holds of each node.
use agent_aware.Prelude.{
  ℕ, ◌+◌, ◌-◌, ◌%◌, ◌<◌, ◌≡◌, refl, ap, ◌∙◌, some, List, [], ◌∷◌, leb, arith, Bool-cases,
  Option-cases, inl, inr,
}
use agent_aware.Prelude.Assoc.{find, put, total, total-put_new, total-put_old}
use agent_aware.Records.{DynamicRecord}
use agent_aware.History.{keep_newest, newest_map}
use agent_aware.MemTable.{MemTable, size_mod, estimate_record_bytes, insert}

-- The count is the sum of the estimates, as a `size_t` holds it.
abbrev pub IsCounted : MemTable → Type 0
IsCounted t = t.current_bytes ≡ total estimate_record_bytes t.records % size_mod

-- No estimate reaches 2 ^ 64.
abbrev pub IsSmall : MemTable → Type 0
IsSmall t =
    (id : ℕ) (q : DynamicRecord) → find id t.records ≡ some q → estimate_record_bytes q < size_mod

replaced_count :
    (c s t e new : ℕ)
    → c ≡ s % size_mod
    → e < size_mod
    → t + e ≡ s + new
    → ((c + size_mod - e) % size_mod + new) % size_mod ≡ t % size_mod
replaced_count c s t e new hc he h = omega arith

-- In a table whose records' estimates are each below the width of `size_t`, an insert, whether it
-- adds, replaces or refuses, keeps the byte count equal to the sum of the
-- estimates of what the table holds, modulo the width of `size_t`.
pub insert-IsCounted :
    (t : MemTable) (r : DynamicRecord) → IsSmall t → IsCounted t → IsCounted (insert t r).0
unfolding insert
insert-IsCounted t r small h = elim (Option-cases (find r.node_id t.records)) [
  | inl e ↦
      rw (e, insert) (ground (arith, total-put_new estimate_record_bytes r.node_id r t.records e))
  | inr (q, e) ↦ elim (Bool-cases (leb r.sequence_id q.sequence_id)) [
    | inl old ↦ rw (e, old, insert) h
    | inr newer ↦
        rw (e, newer, insert)
          (replaced_count t.current_bytes (total estimate_record_bytes t.records)
            (total estimate_record_bytes (put r.node_id r t.records)) (estimate_record_bytes q)
            (estimate_record_bytes r) h (small r.node_id q e)
            (total-put_old estimate_record_bytes r.node_id r q t.records e))
  ]
]

-- An insert keeps the newest version of each node.
pub insert-keep_newest :
    (t : MemTable) (r : DynamicRecord) → (insert t r).0.records ≡ keep_newest t.records r
unfolding insert keep_newest
insert-keep_newest t r = ground arith

-- The tables after inserting a list of records one by one.
unfoldable pub insert_all : MemTable → List DynamicRecord → MemTable
insert_all t [] = t
insert_all t (r ∷ rs) = insert_all (insert t r).0 rs

-- Inserting records one by one into any table leaves the newest version of each node, of those
-- that were there and those inserted: an earlier one wins among equally new ones.
pub insert_all-newest_map :
    (rs : List DynamicRecord) (t : MemTable) → (insert_all t rs).records ≡ newest_map rs t.records
unfolding insert_all newest_map
insert_all-newest_map [] t = refl
insert_all-newest_map (r ∷ rs) t =
    insert_all-newest_map rs (insert t r).0 ∙ ap (newest_map rs) (insert-keep_newest t r)
