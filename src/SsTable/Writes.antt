-- ===== src/SsTable/Writes.antt =====
-- What `SSTableWriter::write` leaves in the files of a table.
use agent_aware.Prelude.{
  ℕ, ◌+◌, ◌-◌, ◌≤◌, ◌≡◌, true, List, [], ◌∷◌, ◌++◌, append_assoc, append-nil, length, All, arith,
  length-append,
}
use agent_aware.Bytes.Stream.{Stream, write_all_fits, concat}
use agent_aware.Records.{DynamicRecord, IsStorable}
use agent_aware.SsTable.{writable, data_writes, write_record, write_index_entry, write_entries}
use agent_aware.SsTable.Records.{table_bytes}

-- The data file, and the index of records that start at an offset.
abbrev pub data_file : List DynamicRecord → List ℕ
data_file [] = []
data_file (r ∷ rs) = table_bytes r ++ data_file rs

abbrev pub index_row : DynamicRecord → ℕ → List ℕ
index_row r offset = concat (write_index_entry r.node_id r.sequence_id offset)

abbrev pub index_rows : ℕ → List DynamicRecord → List ℕ
index_rows offset [] = []
index_rows offset (r ∷ rs) = index_row r offset ++ index_rows (offset + length (table_bytes r)) rs

pub storable-writable : (r : DynamicRecord) → IsStorable r → writable r ≡ true
unfolding writable
storable-writable r s = ground (arith, s.dim_is_size, s.vector_short, s.neighbors_short)

abbrev written : Stream → List ℕ → Stream
written s bytes = record s { written = s.written ++ bytes; room = s.room - length bytes }

-- With room for all, the loop appends the records and their index rows.
pub write_entries_fits :
    (rs : List DynamicRecord) (d i : Stream)
    → All IsStorable rs
    → d.good ≡ true
    → i.good ≡ true
    → length (data_file rs) ≤ d.room
    → length (index_rows (length d.written) rs) ≤ i.room
    → write_entries rs d i
      ≡ (written d (data_file rs), written i (index_rows (length d.written) rs), true)
unfolding write_entries write_record
write_entries_fits [] d i h gd gi fd fi = ground (arith, append-nil d.written, append-nil i.written)
write_entries_fits (r ∷ rs) d i (hr, hrs) gd gi fd fi =
    let row : List ℕ = index_row r (length d.written) in
    let d' : Stream = written d (table_bytes r) in
    let i' : Stream = written i row in
    let offset : length d'.written ≡ length d.written + length (table_bytes r) =
      length-append d.written (table_bytes r) in
    let more : List ℕ = index_rows (length d'.written) rs in
    ground (
      arith,
      storable-writable r hr,
      length-append (table_bytes r) (data_file rs),
      length-append row more,
      append_assoc d.written (table_bytes r) (data_file rs),
      append_assoc i.written row more,
      write_all_fits (data_writes r) d gd,
      write_all_fits (write_index_entry r.node_id r.sequence_id (length d.written)) i gi,
      write_entries_fits rs d' i' hrs,
      offset,
    )
