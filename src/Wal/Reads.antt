-- ===== src/Wal/Reads.antt =====
-- A record that `append` writes is read back by one round of `replay`, whatever follows it.
use agent_aware.Prelude.{
  ℕ, ◌^◌, ◌<◌, ◌≡◌, refl, true, ◌&&◌, some, List, [], ◌∷◌, ◌++◌, append_assoc, append-nil, arith,
}
use agent_aware.Bytes.{le_bytes, le_words, ◌>>=◌}
use agent_aware.Bytes.Laws.{read_value-le_bytes, read_words-le_words}
use agent_aware.Bytes.Readers.{
  Reads, Reads-pure, Reads-fail, Reads-if, Reads-bind, Reads-read_value, Reads-read_words,
}
use agent_aware.Bytes.Stream.{concat, concat-append}
use agent_aware.Records.{DynamicRecord, IsStorable}
use agent_aware.Records.Checksum.{checksum_payload-IsU32}
use agent_aware.Wal.{
  WalRecordHeader, write_header, read_header, header_shape_is_valid, node_id_fits, header_of,
  write_payload, record_writes, encode, record_of, read_payload, read_record,
}

-- Each field fits its width.
record HeaderFits (h : WalRecordHeader) : Type 0 where
  magic : h.magic < 2 ^ 32
  version : h.version < 2 ^ 16
  op_type : h.op_type < 2 ^ 16
  sequence_id : h.sequence_id < 2 ^ 64
  node_id : h.node_id < 2 ^ 64
  dim : h.dim < 2 ^ 32
  vector_bytes : h.vector_bytes < 2 ^ 32
  neighbor_count : h.neighbor_count < 2 ^ 32
  deleted : h.deleted < 2 ^ 8
  payload_checksum : h.payload_checksum < 2 ^ 32

read_header-write_header :
    (h : WalRecordHeader) (rest : List ℕ)
    → HeaderFits h
    → read_header (concat (write_header h) ++ rest) ≡ some (h, rest)
unfolding read_header write_header ◌>>=◌
read_header-write_header h rest f =
    let x9 : List ℕ = le_bytes 4 h.payload_checksum ++ rest in
    let x8 : List ℕ = le_bytes 1 h.deleted ++ x9 in
    let x7 : List ℕ = le_bytes 4 h.neighbor_count ++ x8 in
    let x6 : List ℕ = le_bytes 4 h.vector_bytes ++ x7 in
    let x5 : List ℕ = le_bytes 4 h.dim ++ x6 in
    let x4 : List ℕ = le_bytes 8 h.node_id ++ x5 in
    let x3 : List ℕ = le_bytes 8 h.sequence_id ++ x4 in
    let x2 : List ℕ = le_bytes 2 h.op_type ++ x3 in
    let x1 : List ℕ = le_bytes 2 h.version ++ x2 in
    simp (append_assoc) (
      ground (
        arith,
        read_value-le_bytes 4 h.magic x1 (omega arith),
        read_value-le_bytes 2 h.version x2 (omega arith),
        read_value-le_bytes 2 h.op_type x3 (omega arith),
        read_value-le_bytes 8 h.sequence_id x4 (omega arith),
        read_value-le_bytes 8 h.node_id x5 (omega arith),
        read_value-le_bytes 4 h.dim x6 (omega arith),
        read_value-le_bytes 4 h.vector_bytes x7 (omega arith),
        read_value-le_bytes 4 h.neighbor_count x8 (omega arith),
        read_value-le_bytes 1 h.deleted x9 (omega arith),
        read_value-le_bytes 4 h.payload_checksum rest (omega arith),
      ))

header_of-HeaderFits : (r : DynamicRecord) → IsStorable r → HeaderFits (header_of r)
unfolding header_of
header_of-HeaderFits r s = record {
  magic = omega arith;
  version = omega arith;
  op_type = omega arith;
  sequence_id = s.sequence_fits;
  node_id = omega (arith, s.node_fits);
  dim = omega (arith, s.dim_is_size, s.vector_short);
  vector_bytes = omega arith;
  neighbor_count = omega arith;
  deleted = ground arith;
  payload_checksum = checksum_payload-IsU32 r.vector r.neighbors;
}

header_of_valid :
    (r : DynamicRecord)
    → IsStorable r
    → header_shape_is_valid (header_of r) && node_id_fits (header_of r).node_id ≡ true
unfolding header_of header_shape_is_valid node_id_fits
header_of_valid r s = ground (arith, s.dim_is_size, s.vector_short, s.neighbors_short, s.node_fits)

-- The bytes of a vector, whether it is empty or not.
concat-write_payload : (ws : List ℕ) → concat (write_payload ws) ≡ le_words ws
unfolding write_payload le_words
concat-write_payload [] = refl
concat-write_payload (w ∷ ws) = append-nil _

pub encode_parts :
    (r : DynamicRecord) (rest : List ℕ)
    → encode r ++ rest
      ≡ concat (write_header (header_of r)) ++ (le_words r.vector ++ (le_words r.neighbors ++ rest))
unfolding record_writes
encode_parts r rest = simp (concat-append, concat-write_payload, append_assoc)

record_of-header_of :
    (r : DynamicRecord) → IsStorable r → record_of (header_of r) r.vector r.neighbors ≡ r
unfolding record_of header_of
record_of-header_of r s = ground (arith, s.node_fits)

read_payload-header_of :
    (r : DynamicRecord) (rest : List ℕ)
    → IsStorable r
    → read_payload (header_of r) (le_words r.vector ++ (le_words r.neighbors ++ rest))
      ≡ some (r, rest)
unfolding read_payload header_of
read_payload-header_of r rest s = ground (
  arith,
  s.dim_is_size,
  s.neighbors_short,
  read_words-le_words r.vector (le_words r.neighbors ++ rest) s.vector_fits,
  read_words-le_words r.neighbors rest s.neighbors_fit,
  record_of-header_of r s,
)

pub read_record-encode :
    (r : DynamicRecord) (rest : List ℕ)
    → IsStorable r
    → read_record (encode r ++ rest) ≡ some (r, rest)
unfolding read_record
read_record-encode r rest s =
    let payload : List ℕ = le_words r.vector ++ (le_words r.neighbors ++ rest) in
    rw (encode_parts r rest) (
      ground (
        arith,
        read_header-write_header (header_of r) payload (header_of-HeaderFits r s),
        header_of_valid r s,
        read_payload-header_of r rest s,
      ))

-- Behind its header's 41 bytes a record is read in one piece.
pub Reads-read_header : Reads 41 read_header
unfolding read_header
Reads-read_header = Reads-bind 4 37 _ _ (Reads-read_value 4) λ _.
    Reads-bind 2 35 _ _ (Reads-read_value 2) λ _. Reads-bind 2 33 _ _ (Reads-read_value 2) λ _.
      Reads-bind 8 25 _ _ (Reads-read_value 8) λ _. Reads-bind 8 17 _ _ (Reads-read_value 8) λ _.
        Reads-bind 4 13 _ _ (Reads-read_value 4) λ _. Reads-bind 4 9 _ _ (Reads-read_value 4) λ _.
          Reads-bind 4 5 _ _ (Reads-read_value 4) λ _.
            Reads-bind 1 4 _ _ (Reads-read_value 1)
              λ _. Reads-bind 4 0 _ _ (Reads-read_value 4) λ _. Reads-pure _

Reads-read_payload : (h : WalRecordHeader) → Reads 0 (read_payload h)
unfolding read_payload
Reads-read_payload h = Reads-bind 0 0 _ _ (Reads-read_words h.dim) λ _.
    Reads-bind 0 0 _ _ (Reads-read_words h.neighbor_count)
      λ _. Reads-if _ _ _ (Reads-pure _) Reads-fail

pub Reads-read_record : Reads 41 read_record
unfolding read_record
Reads-read_record =
    Reads-bind 41 0 read_header _ Reads-read_header
      λ h. Reads-if _ _ _ (Reads-read_payload h) Reads-fail
