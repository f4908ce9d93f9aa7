-- ===== src/SsTable/Records.antt =====
-- A record that `write_record` writes is read back from its offset, whatever stands around it.
use agent_aware.Prelude.{
  ℕ, ◌^◌, ◌<◌, ◌≡◌, refl, true, some, List, [], ◌∷◌, ◌++◌, append_assoc, append-nil, length, arith,
  drop-append_eq,
}
use agent_aware.Bytes.{le_bytes, le_words}
use agent_aware.Bytes.Laws.{read_value-le_bytes, read_words-le_words}
use agent_aware.Bytes.Stream.{concat, concat-append}
use agent_aware.Records.{DynamicRecord, IsStorable}
use agent_aware.Records.Checksum.{checksum_payload-IsU32}
use agent_aware.SsTable.{
  DataRecordHeader, write_data_header, read_data_header, data_header_is_valid, data_header_of,
  vector_writes, data_writes, table_record_of, read_data_payload, read_data_record, read_record_at,
}

-- The bytes of a record in a table.
abbrev pub table_bytes : DynamicRecord → List ℕ
table_bytes r = concat (data_writes r)

record DataHeaderFits (h : DataRecordHeader) : Type 0 where
  magic : h.magic < 2 ^ 32
  version : h.version < 2 ^ 16
  deleted : h.deleted < 2 ^ 8
  sequence_id : h.sequence_id < 2 ^ 64
  node_id : h.node_id < 2 ^ 64
  dim : h.dim < 2 ^ 32
  vector_bytes : h.vector_bytes < 2 ^ 32
  neighbor_count : h.neighbor_count < 2 ^ 32
  payload_checksum : h.payload_checksum < 2 ^ 32

read_data_header-write_data_header :
    (h : DataRecordHeader) (rest : List ℕ)
    → DataHeaderFits h
    → read_data_header (concat (write_data_header h) ++ rest) ≡ some (h, rest)
unfolding read_data_header write_data_header
read_data_header-write_data_header h rest f =
    let x8 : List ℕ = le_bytes 4 h.payload_checksum ++ rest in
    let x7 : List ℕ = le_bytes 4 h.neighbor_count ++ x8 in
    let x6 : List ℕ = le_bytes 4 h.vector_bytes ++ x7 in
    let x5 : List ℕ = le_bytes 4 h.dim ++ x6 in
    let x4 : List ℕ = le_bytes 8 h.node_id ++ x5 in
    let x3 : List ℕ = le_bytes 8 h.sequence_id ++ x4 in
    let x2 : List ℕ = le_bytes 1 h.deleted ++ x3 in
    let x1 : List ℕ = le_bytes 2 h.version ++ x2 in
    simp append_assoc (
      ground (
        arith,
        read_value-le_bytes 4 h.magic x1 (omega arith),
        read_value-le_bytes 2 h.version x2 (omega arith),
        read_value-le_bytes 1 h.deleted x3 (omega arith),
        read_value-le_bytes 8 h.sequence_id x4 (omega arith),
        read_value-le_bytes 8 h.node_id x5 (omega arith),
        read_value-le_bytes 4 h.dim x6 (omega arith),
        read_value-le_bytes 4 h.vector_bytes x7 (omega arith),
        read_value-le_bytes 4 h.neighbor_count x8 (omega arith),
        read_value-le_bytes 4 h.payload_checksum rest (omega arith),
      ))

data_header_of-DataHeaderFits :
    (r : DynamicRecord) → IsStorable r → DataHeaderFits (data_header_of r)
unfolding data_header_of
data_header_of-DataHeaderFits r s = record {
  magic = omega arith;
  version = omega arith;
  deleted = ground arith;
  sequence_id = s.sequence_fits;
  node_id = omega (arith, s.node_fits);
  dim = omega (arith, s.dim_is_size, s.vector_short);
  vector_bytes = omega arith;
  neighbor_count = omega arith;
  payload_checksum = checksum_payload-IsU32 r.vector r.neighbors;
}

data_header_of_valid :
    (r : DynamicRecord) → IsStorable r → data_header_is_valid (data_header_of r) ≡ true
unfolding data_header_of data_header_is_valid
data_header_of_valid r s =
    ground (arith, s.dim_is_size, s.vector_short, s.neighbors_short, s.node_fits)

concat-vector_writes : (ws : List ℕ) → concat (vector_writes ws) ≡ le_words ws
unfolding vector_writes le_words
concat-vector_writes [] = refl
concat-vector_writes (w ∷ ws) = append-nil _

table_bytes_parts :
    (r : DynamicRecord) (rest : List ℕ)
    → table_bytes r ++ rest
      ≡ concat (write_data_header (data_header_of r))
        ++ (le_words r.vector ++ (le_words r.neighbors ++ rest))
unfolding data_writes
table_bytes_parts r rest = simp (concat-append, concat-vector_writes, append_assoc)

table_record_of-data_header_of :
    (r : DynamicRecord) → IsStorable r → table_record_of (data_header_of r) r.vector r.neighbors ≡ r
unfolding table_record_of data_header_of
table_record_of-data_header_of r s = ground (arith, s.node_fits)

read_data_payload-data_header_of :
    (r : DynamicRecord) (rest : List ℕ)
    → IsStorable r
    → read_data_payload (data_header_of r) (le_words r.vector ++ (le_words r.neighbors ++ rest))
      ≡ some (r, rest)
unfolding read_data_payload data_header_of
read_data_payload-data_header_of r rest s = ground (
  arith,
  s.dim_is_size,
  s.neighbors_short,
  read_words-le_words r.vector (le_words r.neighbors ++ rest) s.vector_fits,
  read_words-le_words r.neighbors rest s.neighbors_fit,
  table_record_of-data_header_of r s,
)

read_data_record-table_bytes :
    (r : DynamicRecord) (rest : List ℕ)
    → IsStorable r
    → read_data_record (table_bytes r ++ rest) ≡ some (r, rest)
unfolding read_data_record
read_data_record-table_bytes r rest s =
    let payload : List ℕ = le_words r.vector ++ (le_words r.neighbors ++ rest) in
    rw (table_bytes_parts r rest) (
      ground (
        arith,
        read_data_header-write_data_header (data_header_of r) payload
            (data_header_of-DataHeaderFits r s),
        data_header_of_valid r s,
        read_data_payload-data_header_of r rest s,
      ))

-- A record is read back from the offset at which it was written.
pub read_record_at-table_bytes :
    (front : List ℕ) (r : DynamicRecord) (back : List ℕ)
    → IsStorable r
    → read_record_at (front ++ (table_bytes r ++ back)) (length front) ≡ some r
unfolding read_record_at
read_record_at-table_bytes front r back s = ground (
  arith,
  drop-append_eq (length front) front (table_bytes r ++ back) refl,
  read_data_record-table_bytes r back s,
)
