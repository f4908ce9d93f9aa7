-- ===== src/SsTable.antt =====
-- src/dynamic/sstable.cpp: sorted tables. A table is three files: the records one after the other,
-- an index of node ids with their offsets, and a small text of counters. The text's fields are
-- modelled, its JSON form is not; all else is modelled to the byte.
pub mod Records
pub mod Writes
pub mod Opens
pub mod Scans
pub mod Built
pub mod LostMeta
use agent_aware.Prelude.{
  ℕ, zero, suc, ◌+◌, ◌-◌, ◌*◌, ◌/◌, ◌%◌, ◌^◌, ◌<◌, ◌≤◌, ◌≡◌, ◌≢◌, refl, sym, ap, ◌∙◌, Bool, true,
  false, not, ◌&&◌, ◌||◌, Option, none, some, List, [], ◌∷◌, ◌++◌, append_assoc, append-nil, length,
  All, leb, ltb, ◌==◌, if◌then◌else◌, arith, length-append, take, drop, length-take,
  take-append-drop, length-drop, Bool-cases, Option-cases, inl, inr, min, max, ◌⊎◌, ◌↔◌,
}
use agent_aware.Prelude.Assoc.{find, put, values}
use agent_aware.Bytes.{le_bytes, le_words, Reader, read_value, read_words, pure, fail, ◌>>=◌}
use agent_aware.Bytes.Stream.{flush_stream, in_file, Stream, write_all}
use agent_aware.Records.{DynamicRecord}
use agent_aware.Records.Checksum.{checksum_payload, is_empty}
use agent_aware.History.{sort_by_id, newest_map}

abbrev pub data_magic : ℕ
data_magic = 0x44535450

abbrev pub index_magic : ℕ
index_magic = 0x49535450

abbrev pub table_version : ℕ
table_version = 1

abbrev pub max_record_payload_bytes : ℕ
max_record_payload_bytes = 512 * 1024 * 1024

pub record DataRecordHeader : Type 0 where
  pub magic : ℕ
  pub version : ℕ
  pub deleted : ℕ
  pub sequence_id : ℕ
  pub node_id : ℕ
  pub dim : ℕ
  pub vector_bytes : ℕ
  pub neighbor_count : ℕ
  pub payload_checksum : ℕ

unfoldable pub write_data_header : DataRecordHeader → List (List ℕ)
write_data_header h =
    le_bytes 4 h.magic
    ∷ le_bytes 2 h.version
    ∷ le_bytes 1 h.deleted
    ∷ le_bytes 8 h.sequence_id
    ∷ le_bytes 8 h.node_id
    ∷ le_bytes 4 h.dim
    ∷ le_bytes 4 h.vector_bytes
    ∷ le_bytes 4 h.neighbor_count
    ∷ le_bytes 4 h.payload_checksum
    ∷ []

unfoldable pub read_data_header : Reader DataRecordHeader
unfolding ◌>>=◌
read_data_header = do
  magic ← read_value 4
  version ← read_value 2
  deleted ← read_value 1
  sequence_id ← read_value 8
  node_id ← read_value 8
  dim ← read_value 4
  vector_bytes ← read_value 4
  neighbor_count ← read_value 4
  payload_checksum ← read_value 4
  pure (record {
    magic = magic;
    version = version;
    deleted = deleted;
    sequence_id = sequence_id;
    node_id = node_id;
    dim = dim;
    vector_bytes = vector_bytes;
    neighbor_count = neighbor_count;
    payload_checksum = payload_checksum;
  })

unfoldable pub data_header_is_valid : DataRecordHeader → Bool
data_header_is_valid h =
    (h.magic == data_magic)
    && (h.version == table_version)
    && leb h.deleted 1
    && leb h.dim ((2 ^ 32 - 1) / 4)
    && (h.vector_bytes == h.dim * 4)
    && leb (h.vector_bytes + h.neighbor_count * 4) max_record_payload_bytes
    && leb h.node_id (2 ^ 32 - 1)

unfoldable pub writable : DynamicRecord → Bool
writable r =
    (r.dim == length r.vector)
    && leb (length r.vector) ((2 ^ 32 - 1) / 4)
    && leb (length r.neighbors) (2 ^ 32 - 1)

unfoldable pub data_header_of : DynamicRecord → DataRecordHeader
data_header_of r = record {
  magic = data_magic;
  version = table_version;
  deleted = if r.deleted then 1 else 0;
  sequence_id = r.sequence_id;
  node_id = r.node_id;
  dim = r.dim;
  vector_bytes = length r.vector * 4 % 2 ^ 32;
  neighbor_count = length r.neighbors % 2 ^ 32;
  payload_checksum = checksum_payload r.vector r.neighbors;
}

unfoldable pub vector_writes : List ℕ → List (List ℕ)
vector_writes ws = if is_empty ws then [] else le_words ws ∷ []

unfoldable pub data_writes : DynamicRecord → List (List ℕ)
data_writes r =
    write_data_header (data_header_of r) ++ (vector_writes r.vector ++ vector_writes r.neighbors)

unfoldable pub write_record : DynamicRecord → Stream → Stream × Bool
write_record r s = if not (writable r) then (s, false) else write_all (data_writes r) s

unfoldable pub table_record_of : DataRecordHeader → List ℕ → List ℕ → DynamicRecord
table_record_of h vector neighbors = record {
  sequence_id = h.sequence_id;
  node_id = h.node_id % 2 ^ 32;
  dim = h.dim;
  vector = vector;
  neighbors = neighbors;
  deleted = not (h.deleted == 0);
}

unfoldable pub read_data_payload : DataRecordHeader → Reader DynamicRecord
unfolding ◌>>=◌ table_record_of
read_data_payload h = do
  vector ← read_words h.dim
  neighbors ← read_words h.neighbor_count
  if checksum_payload vector neighbors == h.payload_checksum
      then pure (table_record_of h vector neighbors)
      else fail

unfoldable pub read_data_record : Reader DynamicRecord
unfolding ◌>>=◌
read_data_record = do
  h ← read_data_header
  if data_header_is_valid h then read_data_payload h else fail

-- `read_record_at`: a seek behind the end makes the read fail.
unfoldable pub read_record_at : List ℕ → ℕ → Option DynamicRecord
read_record_at bytes offset = elim (read_data_record (drop offset bytes)) [
  | none ↦ none
  | some (r, rest) ↦ some r
]

unfoldable pub deduplicate_records : List DynamicRecord → List DynamicRecord
deduplicate_records rs = sort_by_id (values (newest_map rs []))

unfoldable pub write_index_header : ℕ → List (List ℕ)
write_index_header count = le_bytes 4 index_magic ∷ le_bytes 2 table_version ∷ le_bytes 8 count ∷ []

unfoldable pub read_index_header : Reader ℕ
unfolding ◌>>=◌
read_index_header = do
  magic ← read_value 4
  version ← read_value 2
  count ← read_value 8
  if (magic == index_magic) && (version == table_version) then pure count else fail

unfoldable pub write_index_entry : ℕ → ℕ → ℕ → List (List ℕ)
write_index_entry node_id sequence_id offset =
    le_bytes 8 node_id ∷ le_bytes 8 sequence_id ∷ le_bytes 8 offset ∷ []

-- The fields of the `.meta` text.
pub record MetaData : Type 0 where
  pub version : ℕ
  pub sstable_id : ℕ
  pub level : ℕ
  pub record_count : ℕ
  pub min_sequence_id : ℕ
  pub max_sequence_id : ℕ

-- The tests of `load_meta`. Each field is parsed as an `int64_t`, and a larger number fails there.
unfoldable pub load_meta : Option MetaData → Option MetaData
load_meta none = none
load_meta (some m) =
    if (m.version == table_version)
      && leb m.sstable_id (2 ^ 63 - 1)
      && leb m.level (2 ^ 31 - 1)
      && leb m.record_count (2 ^ 63 - 1)
      && leb m.min_sequence_id (2 ^ 63 - 1)
      && leb m.max_sequence_id (2 ^ 63 - 1)
    then some m
    else none

-- A table's files; a `.meta` that is missing or cut short is `none`.
pub record TableFiles : Type 0 where
  pub bytes : List ℕ
  pub index : List ℕ
  pub meta : Option MetaData

abbrev pub no_files : TableFiles
no_files = record { bytes = []; index = []; meta = none }

unfoldable pub min_from : ℕ → List DynamicRecord → ℕ
min_from m [] = m
min_from m (r ∷ rs) = min_from (min m r.sequence_id) rs

unfoldable pub max_from : ℕ → List DynamicRecord → ℕ
max_from m [] = m
max_from m (r ∷ rs) = max_from (max m r.sequence_id) rs

unfoldable pub sequence_range : List DynamicRecord → ℕ × ℕ
unfolding min_from max_from
sequence_range [] = (0, 0)
sequence_range (r ∷ rs) = (min_from r.sequence_id (r ∷ rs), max_from r.sequence_id (r ∷ rs))

-- What the file system grants to one call of `write`.
pub record Device : Type 0 where
  pub dir_made : Bool
  pub files_opened : Bool
  pub data_room : ℕ
  pub data_capacity : ℕ
  pub index_room : ℕ
  pub index_capacity : ℕ
  pub passes : ℕ → ℕ
  pub meta_written : Bool
  pub meta_stored : Bool

-- The loop over the records: the streams, and whether every write went well.
unfoldable pub write_entries : List DynamicRecord → Stream → Stream → Stream × Stream × Bool
write_entries [] data_output index_output = (data_output, index_output, true)
write_entries (r ∷ rs) data_output index_output =
    let offset = length data_output.written in
    let (data_output', taken) = write_record r data_output in
    let (index_output', indexed) =
      write_all (write_index_entry r.node_id r.sequence_id offset) index_output in
    let rest = write_entries rs data_output' index_output' in
    if not taken
    then (data_output', index_output, false)
    else if not indexed
    then (data_output', index_output', false)
    else rest

abbrev pub opened_stream : ℕ → ℕ → (ℕ → ℕ) → Stream
opened_stream room capacity passes = record {
  written = [];
  flushed = 0;
  room = room;
  capacity = capacity;
  passes = passes;
  good = true;
}

-- The file that a stream leaves when it is closed: what it has kept back is flushed then.
abbrev pub closed_file : Stream → List ℕ
closed_file s = in_file (flush_stream s)

-- `write_meta`: it returns the state of a stream that is not flushed. A file that is cut short, then or when the
-- stream is closed, is `none`; the second the caller does not learn.
unfoldable pub write_meta : Device → MetaData → Option MetaData × Bool
write_meta device meta =
    (if device.meta_written && device.meta_stored then some meta else none, device.meta_written)

-- `SSTableWriter::write` over the table's files as they were.
unfoldable pub write : Device → ℕ → ℕ → TableFiles → List DynamicRecord → TableFiles × Bool
write device id level files records =
    let latest = deduplicate_records records in
    let (low, high) = sequence_range latest in
    let (index_output, headed) =
      write_all (write_index_header (length latest))
        (opened_stream device.index_room device.index_capacity device.passes) in
    let (data_output, index_output', done) =
      write_entries latest (opened_stream device.data_room device.data_capacity device.passes)
        index_output in
    let meta : MetaData = record {
      version = table_version;
      sstable_id = id;
      level = level;
      record_count = length latest;
      min_sequence_id = low;
      max_sequence_id = high;
    } in
    let (meta_file, meta_ok) = write_meta device meta in
    let bytes = closed_file data_output in
    let index = closed_file index_output' in
    if not (device.dir_made && device.files_opened)
    then (files, false)
    else if not headed
    then (record files { bytes = []; index = closed_file index_output }, false)
    else if not done
    then (record files { bytes = bytes; index = index }, false)
    else if not ((flush_stream data_output).good && (flush_stream index_output').good)
    then (record files { bytes = bytes; index = index }, false)
    else (record { bytes = bytes; index = index; meta = meta_file }, meta_ok)

pub record IndexEntry : Type 0 where
  pub sequence_id : ℕ
  pub offset : ℕ

-- A reader that is open; one that could not be opened is `none`.
pub record SsTableReader : Type 0 where
  pub bytes : List ℕ
  pub index : List (ℕ × IndexEntry)
  pub id : ℕ
  pub level : ℕ
  pub record_count : ℕ
  pub min_sequence_id : ℕ
  pub max_sequence_id : ℕ

unfoldable pub read_entries : ℕ → List (ℕ × IndexEntry) → Reader (List (ℕ × IndexEntry))
read_entries zero index = pure index
read_entries (suc n) index = do
  node_id ← read_value 8
  sequence_id ← read_value 8
  offset ← read_value 8
  if leb node_id (2 ^ 32 - 1)
      then read_entries n
          (put (node_id % 2 ^ 32) (record { sequence_id = sequence_id; offset = offset }) index)
      else fail

unfoldable pub read_index : ℕ → Reader (List (ℕ × IndexEntry))
unfolding ◌>>=◌
read_index record_count = do
  stored_count ← read_index_header
  if stored_count == record_count then read_entries stored_count [] else fail

unfoldable pub open_table : TableFiles → Option SsTableReader
open_table files = elim (load_meta files.meta) [
  | none ↦ none
  | some m ↦ elim (read_index m.record_count files.index) [
    | none ↦ none
    | some (index, rest) ↦ some (record {
      bytes = files.bytes;
      index = index;
      id = m.sstable_id;
      level = m.level;
      record_count = m.record_count;
      min_sequence_id = m.min_sequence_id;
      max_sequence_id = m.max_sequence_id;
    })
  ]
]

unfoldable pub get : SsTableReader → ℕ → Option DynamicRecord
get t node_id = elim (find node_id t.index) [
  | none ↦ none
  | some e ↦ elim (read_record_at t.bytes e.offset) [
    | none ↦ none
    | some r ↦ if (r.node_id == node_id) && (r.sequence_id == e.sequence_id) then some r else none
  ]
]

-- The loop of `scan_all` over the index.
unfoldable pub scan_entries : SsTableReader → List (ℕ × IndexEntry) → List DynamicRecord
scan_entries t [] = []
scan_entries t ((node_id, e) ∷ rest) = elim (get t node_id) [
  | none ↦ scan_entries t rest
  | some r ↦ r ∷ scan_entries t rest
]

unfoldable pub scan_all : SsTableReader → List DynamicRecord
scan_all t = sort_by_id (scan_entries t t.index)
