-- ===== src/Wal.antt =====
-- src/dynamic/wal.cpp: the write-ahead log of the dynamic layer. `WalWriter` appends to a stream,
-- `WalReader::replay` reads a whole file. A file that cannot be opened replays like an empty one.
pub mod Reads
pub mod Replay
pub mod Appends
pub mod Unsynced
pub mod Corrupt
use agent_aware.Prelude.{
  ℕ, zero, suc, ◌+◌, ◌-◌, ◌*◌, ◌/◌, ◌%◌, ◌^◌, ◌≡◌, Bool, true, false, not, ◌&&◌, ◌||◌, Option, none,
  some, List, [], ◌∷◌, ◌++◌, length, leb, ltb, ◌==◌, if◌then◌else◌,
}
use agent_aware.Bytes.{le_bytes, le_words, Reader, read_value, read_words, pure, fail, ◌>>=◌}
use agent_aware.Bytes.Stream.{Stream, flush_stream, write_ok, write_all, concat}
use agent_aware.Records.{DynamicRecord}
use agent_aware.Records.Checksum.{checksum_payload, is_empty}

abbrev pub wal_record_magic : ℕ
wal_record_magic = 0x41574c50

abbrev pub wal_record_version : ℕ
wal_record_version = 1

abbrev pub wal_insert_op : ℕ
wal_insert_op = 1

abbrev pub max_payload_bytes : ℕ
max_payload_bytes = 512 * 1024 * 1024

pub record WalRecordHeader : Type 0 where
  pub magic : ℕ
  pub version : ℕ
  pub op_type : ℕ
  pub sequence_id : ℕ
  pub node_id : ℕ
  pub dim : ℕ
  pub vector_bytes : ℕ
  pub neighbor_count : ℕ
  pub deleted : ℕ
  pub payload_checksum : ℕ

-- The writes of `write_header`, one for each field.
unfoldable pub write_header : WalRecordHeader → List (List ℕ)
write_header h =
    le_bytes 4 h.magic
    ∷ le_bytes 2 h.version
    ∷ le_bytes 2 h.op_type
    ∷ le_bytes 8 h.sequence_id
    ∷ le_bytes 8 h.node_id
    ∷ le_bytes 4 h.dim
    ∷ le_bytes 4 h.vector_bytes
    ∷ le_bytes 4 h.neighbor_count
    ∷ le_bytes 1 h.deleted
    ∷ le_bytes 4 h.payload_checksum
    ∷ []

unfoldable pub read_header : Reader WalRecordHeader
unfolding ◌>>=◌
read_header = do
  magic ← read_value 4
  version ← read_value 2
  op_type ← read_value 2
  sequence_id ← read_value 8
  node_id ← read_value 8
  dim ← read_value 4
  vector_bytes ← read_value 4
  neighbor_count ← read_value 4
  deleted ← read_value 1
  payload_checksum ← read_value 4
  pure (record {
    magic = magic;
    version = version;
    op_type = op_type;
    sequence_id = sequence_id;
    node_id = node_id;
    dim = dim;
    vector_bytes = vector_bytes;
    neighbor_count = neighbor_count;
    deleted = deleted;
    payload_checksum = payload_checksum;
  })

unfoldable pub header_shape_is_valid : WalRecordHeader → Bool
header_shape_is_valid h =
    (h.magic == wal_record_magic)
    && (h.version == wal_record_version)
    && (h.op_type == wal_insert_op)
    && leb h.deleted 1
    && leb h.dim ((2 ^ 32 - 1) / 4)
    && (h.vector_bytes == h.dim * 4)
    && leb (h.vector_bytes + h.neighbor_count * 4) max_payload_bytes

-- `node_id_fits(static_cast<NodeId>(value), value)`
unfoldable pub node_id_fits : ℕ → Bool
node_id_fits value = leb value (2 ^ 32 - 1) && (value % 2 ^ 32 == value)

-- The guards of `WalWriter::append`.
unfoldable pub appendable : DynamicRecord → Bool
appendable r =
    (r.dim == length r.vector)
    && leb (length r.vector) ((2 ^ 32 - 1) / 4)
    && leb (length r.neighbors) (2 ^ 32 - 1)

unfoldable pub header_of : DynamicRecord → WalRecordHeader
header_of r = record {
  magic = wal_record_magic;
  version = wal_record_version;
  op_type = wal_insert_op;
  sequence_id = r.sequence_id;
  node_id = r.node_id;
  dim = r.dim;
  vector_bytes = length r.vector * 4 % 2 ^ 32;
  neighbor_count = length r.neighbors % 2 ^ 32;
  deleted = if r.deleted then 1 else 0;
  payload_checksum = checksum_payload r.vector r.neighbors;
}

-- `if (!v.empty()) { output_.write(...); ... }`
unfoldable pub write_payload : List ℕ → List (List ℕ)
write_payload ws = if is_empty ws then [] else le_words ws ∷ []

-- All the writes of one `append`, in their order.
unfoldable pub record_writes : DynamicRecord → List (List ℕ)
record_writes r =
    write_header (header_of r) ++ (write_payload r.vector ++ write_payload r.neighbors)

-- The bytes of a record.
abbrev pub encode : DynamicRecord → List ℕ
encode r = concat (record_writes r)

pub record WalWriter : Type 0 where
  pub output : Stream
  pub closed : Bool

unfoldable pub append : WalWriter → DynamicRecord → WalWriter × Bool
append w r =
    if w.closed || not w.output.good
    then (w, false)
    else if not (appendable r)
    then (w, false)
    else let (s, fits) = write_all (record_writes r) w.output in (record w { output = s }, fits)

unfoldable pub sync : WalWriter → WalWriter × Bool
sync w =
    if w.closed || not w.output.good
    then (w, false)
    else let s = flush_stream w.output in (record w { output = s }, s.good)

unfoldable pub close : WalWriter → WalWriter × Bool
unfolding sync
close w = let (w', ok) = sync w in if w.closed then (w, true) else (record w' { closed = true }, ok)

unfoldable pub record_of : WalRecordHeader → List ℕ → List ℕ → DynamicRecord
record_of h vector neighbors = record {
  sequence_id = h.sequence_id;
  node_id = h.node_id % 2 ^ 32;
  dim = h.dim;
  vector = vector;
  neighbors = neighbors;
  deleted = not (h.deleted == 0);
}

-- What stands behind a header: the vector, the neighbours, and the test of the checksum.
unfoldable pub read_payload : WalRecordHeader → Reader DynamicRecord
unfolding ◌>>=◌ record_of
read_payload h = do
  vector ← read_words h.dim
  neighbors ← read_words h.neighbor_count
  if checksum_payload vector neighbors == h.payload_checksum
      then pure (record_of h vector neighbors)
      else fail

-- One round of the loop of `replay`: a failed read is its `break`.
unfoldable pub read_record : Reader DynamicRecord
unfolding ◌>>=◌
read_record = do
  h ← read_header
  if header_shape_is_valid h && node_id_fits h.node_id then read_payload h else fail

-- The loop of `replay`. Each round takes a header at least, so the length is enough fuel.
unfoldable pub replay_loop : ℕ → List ℕ → List DynamicRecord
replay_loop zero input = []
replay_loop (suc fuel) input = elim (read_record input) [
  | none ↦ []
  | some (r, rest) ↦ r ∷ replay_loop fuel rest
]

unfoldable pub replay : List ℕ → List DynamicRecord
replay input = replay_loop (length input) input
