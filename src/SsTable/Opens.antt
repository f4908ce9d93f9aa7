-- ===== src/SsTable/Opens.antt =====
-- The index that `open` builds from an index file that `write` left.
use agent_aware.Prelude.{
  ℕ, suc, ◌+◌, ◌-◌, ◌%◌, ◌^◌, ◌<◌, ◌≡◌, ◌≢◌, refl, ap, ◌∙◌, true, none, some, List, [], ◌∷◌, ◌++◌,
  append_assoc, append-nil, length, All, leb, arith, length-append,
}
use agent_aware.Prelude.Assoc.{find, put}
use agent_aware.Bytes.{IsU64, le_bytes, read_value, pure}
use agent_aware.Bytes.Laws.{read_value-le_bytes, bind_some}
use agent_aware.Bytes.Stream.{concat}
use agent_aware.Records.{DynamicRecord, IsStorable}
use agent_aware.History.Order.{IsAscending}
use agent_aware.SsTable.{
  IndexEntry, write_index_header, read_index_header, write_index_entry, read_entries, read_index,
}
use agent_aware.SsTable.Records.{table_bytes}
use agent_aware.SsTable.Writes.{index_row, index_rows, data_file}

-- The entries of records that start at an offset.
abbrev pub entries_of : ℕ → List DynamicRecord → List (ℕ × IndexEntry)
entries_of offset [] = []
entries_of offset (r ∷ rs) =
    (r.node_id, record { sequence_id = r.sequence_id; offset = offset })
    ∷ entries_of (offset + length (table_bytes r)) rs

module _ {ℓ} {V : Type ℓ} where
  put_new : (k : ℕ) (v : V) (m : List (ℕ × V)) → find k m ≡ none → put k v m ≡ m ++ (k, v) ∷ []
  unfolding find put
  put_new k v [] h = refl
  put_new k v ((j, w) ∷ m) h = ground (arith, put_new k v m)

  pub find-append_other :
      (k j : ℕ) (v : V) (m : List (ℕ × V))
      → j ≢ k
      → find j m ≡ none
      → find j (m ++ (k, v) ∷ []) ≡ none
  unfolding find
  find-append_other k j v [] ne h = ground arith
  find-append_other k j v ((i, w) ∷ m) ne h = ground (arith, find-append_other k j v m)

-- No record of the list has an entry yet.
abbrev Fresh : List (ℕ × IndexEntry) → List DynamicRecord → Type 0
Fresh index = All (λ (r : DynamicRecord). find r.node_id index ≡ none)

Fresh-put :
    (index : List (ℕ × IndexEntry)) (k : ℕ) (e : IndexEntry) (rs : List DynamicRecord)
    → All (λ (q : DynamicRecord). k < q.node_id) rs
    → Fresh index rs
    → Fresh (index ++ (k, e) ∷ []) rs
Fresh-put index k e [] low h = tt
Fresh-put index k e (r ∷ rs) (lt, low) (f, h) =
    (find-append_other k r.node_id e index (omega arith) f, Fresh-put index k e rs low h)

index_row_parts :
    (r : DynamicRecord) (offset : ℕ) (rest : List ℕ)
    → index_row r offset ++ rest
      ≡ le_bytes 8 r.node_id ++ (le_bytes 8 r.sequence_id ++ (le_bytes 8 offset ++ rest))
unfolding write_index_entry
index_row_parts r offset rest = simp append_assoc

node_id_small : (r : DynamicRecord) → IsStorable r → leb r.node_id (2 ^ 32 - 1) ≡ true
node_id_small r s = ground (arith, s.node_fits)

node_id_kept : (r : DynamicRecord) → IsStorable r → r.node_id % 2 ^ 32 ≡ r.node_id
node_id_kept r s = omega (arith, s.node_fits)

read_row :
    (r : DynamicRecord) (offset n : ℕ) (index : List (ℕ × IndexEntry)) (rest : List ℕ)
    → IsStorable r
    → IsU64 offset
    → read_entries (suc n) index (index_row r offset ++ rest)
      ≡ read_entries n
          (put r.node_id (record { sequence_id = r.sequence_id; offset = offset }) index)
          rest
unfolding read_entries
read_row r offset n index rest s fits =
    let x2 : List ℕ = le_bytes 8 offset ++ rest in
    let x1 : List ℕ = le_bytes 8 r.sequence_id ++ x2 in
    ap (read_entries (suc n) index) (index_row_parts r offset rest)
    ∙ bind_some (read_value 8) _ _ r.node_id x1
        (read_value-le_bytes 8 r.node_id x1 (omega (arith, s.node_fits)))
    ∙ bind_some (read_value 8) _ _ r.sequence_id x2
        (read_value-le_bytes 8 r.sequence_id x2 (omega (arith, s.sequence_fits)))
    ∙ bind_some (read_value 8) _ _ offset rest (read_value-le_bytes 8 offset rest (omega arith))
    ∙ rw (node_id_small r s) (rw (node_id_kept r s))

-- The rows of records with ascending ids add their entries, in order.
read_rows :
    (rs : List DynamicRecord) (offset : ℕ) (index : List (ℕ × IndexEntry)) (rest : List ℕ)
    → All IsStorable rs
    → IsAscending rs
    → Fresh index rs
    → IsU64 (offset + length (data_file rs))
    → read_entries (length rs) index (index_rows offset rs ++ rest)
      ≡ some (index ++ entries_of offset rs, rest)
read_rows [] offset index rest h asc f fits = unfold read_entries pure in rw append-nil
read_rows (r ∷ rs) offset index rest (s, h) (low, asc) (fr, f) fits =
    let e : IndexEntry = record { sequence_id = r.sequence_id; offset = offset } in
    let next : ℕ = offset + length (table_bytes r) in
    let size : length (data_file (r ∷ rs)) ≡ length (table_bytes r) + length (data_file rs) =
      length-append (table_bytes r) (data_file rs) in
    ap (read_entries (suc (length rs)) index)
      (append_assoc (index_row r offset) (index_rows next rs) rest)
    ∙ read_row r offset (length rs) index (index_rows next rs ++ rest) s (omega arith)
    ∙ ap (λ m. read_entries (length rs) m (index_rows next rs ++ rest))
        (put_new r.node_id e index fr)
    ∙ read_rows rs next (index ++ (r.node_id, e) ∷ []) rest h asc
        (Fresh-put index r.node_id e rs low f) (omega arith)
    ∙ ap (λ m. some (m, rest)) (append_assoc index ((r.node_id, e) ∷ []) (entries_of next rs))

Fresh-nil : (rs : List DynamicRecord) → Fresh [] rs
Fresh-nil [] = tt
Fresh-nil (r ∷ rs) = (unfold find in refl, Fresh-nil rs)

read_index_header-write :
    (count : ℕ) (rest : List ℕ)
    → IsU64 count
    → read_index_header (concat (write_index_header count) ++ rest) ≡ some (count, rest)
unfolding read_index_header write_index_header
read_index_header-write count rest fits =
    let x2 : List ℕ = le_bytes 8 count ++ rest in
    let x1 : List ℕ = le_bytes 2 1 ++ x2 in
    simp append_assoc (
      ground (
        arith,
        read_value-le_bytes 4 0x49535450 x1 (omega arith),
        read_value-le_bytes 2 1 x2 (omega arith),
        read_value-le_bytes 8 count rest (omega arith),
      ))

pub read_index-write :
    (rs : List DynamicRecord)
    → All IsStorable rs
    → IsAscending rs
    → IsU64 (length rs)
    → IsU64 (length (data_file rs))
    → read_index (length rs) (concat (write_index_header (length rs)) ++ index_rows 0 rs)
      ≡ some (entries_of 0 rs, [])
unfolding read_index
read_index-write rs h asc count_fits size_fits =
    let rows : read_entries (length rs) [] (index_rows 0 rs) ≡ some (entries_of 0 rs, []) =
      rw append-nil at (read_rows rs 0 [] [] h asc (Fresh-nil rs) (omega arith)) in
    ground (arith, read_index_header-write (length rs) (index_rows 0 rs) count_fits, rows)
