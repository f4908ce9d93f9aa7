-- ===== src/SsTable/Built.antt =====
-- From a write to a reader: a table that was written with enough room opens, and holds exactly the
-- newest version of each node among the records that were given.
use agent_aware.Prelude.{
  false, not, ◌&&◌, ℕ, ◌+◌, ◌-◌, ◌*◌, ◌^◌, ◌<◌, ◌≤◌, ◌≡◌, refl, true, some, List, [], ◌∷◌, ◌++◌,
  length, All, arith, length-append, min, max,
}
use agent_aware.Bytes.Stream.{write_all, in_file-flush_stream, Stream, write_all_fits, concat}
use agent_aware.Bytes.Laws.{length-le_bytes}
use agent_aware.Records.{DynamicRecord, IsStorable}
use agent_aware.History.{deduplicate_newest, find_id}
use agent_aware.History.Order.{deduplicate_newest-IsAscending}
use agent_aware.SsTable.{
  write_entries, write_meta, SsTableReader, deduplicate_records, Device, TableFiles, MetaData,
  load_meta, open_table, get, scan_all, write_index_header, write_index_entry, write,
  sequence_range, min_from, max_from, opened_stream, table_version,
}
use agent_aware.SsTable.Records.{table_bytes}
use agent_aware.SsTable.Writes.{data_file, index_row, index_rows, write_entries_fits}
use agent_aware.SsTable.Opens.{entries_of, read_index-write}
use agent_aware.SsTable.Scans.{IsReaderOf, All-deduplicate_newest, scan_all-IsReaderOf, get-find_id}

-- The limits within which a table of the records can be written and opened.
pub record IsWritable (device : Device) (id level : ℕ) (rs : List DynamicRecord) : Type 0 where
  pub dir_made : device.dir_made ≡ true
  pub files_opened : device.files_opened ≡ true
  pub meta_written : device.meta_written ≡ true
  pub meta_stored : device.meta_stored ≡ true
  pub data_fits : length (data_file (deduplicate_newest rs)) ≤ device.data_room
  pub data_holds : length (data_file (deduplicate_newest rs)) ≤ device.data_capacity
  pub data_short : length (data_file (deduplicate_newest rs)) < 2 ^ 64
  pub index_fits : 14 + 24 * length (deduplicate_newest rs) ≤ device.index_room
  pub index_holds : 14 + 24 * length (deduplicate_newest rs) ≤ device.index_capacity
  pub few_records : length (deduplicate_newest rs) < 2 ^ 63
  pub id_fits : id < 2 ^ 63
  pub level_fits : level < 2 ^ 31
  pub sequences_fit : All (λ (r : DynamicRecord). r.sequence_id < 2 ^ 63) rs
  pub storable : All IsStorable rs

length-index_row : (r : DynamicRecord) (offset : ℕ) → length (index_row r offset) ≡ 24
unfolding write_index_entry
length-index_row r offset = simp (length-append, length-le_bytes)

pub length-index_rows :
    (offset : ℕ) (rs : List DynamicRecord) → length (index_rows offset rs) ≡ 24 * length rs
length-index_rows offset [] = refl
length-index_rows offset (r ∷ rs) = omega (
  arith,
  length-append (index_row r offset) (index_rows (offset + length (table_bytes r)) rs),
  length-index_row r offset,
  length-index_rows (offset + length (table_bytes r)) rs,
)

pub length-write_index_header : (count : ℕ) → length (concat (write_index_header count)) ≡ 14
unfolding write_index_header
length-write_index_header count = simp (length-append, length-le_bytes)

min_from-lt :
    (b m : ℕ) (rs : List DynamicRecord)
    → m < b
    → All (λ (r : DynamicRecord). r.sequence_id < b) rs
    → min_from m rs < b
unfolding min_from
min_from-lt b m [] h a = h
min_from-lt b m (r ∷ rs) h (hr, a) = min_from-lt b (min m r.sequence_id) rs (omega arith) a

max_from-lt :
    (b m : ℕ) (rs : List DynamicRecord)
    → m < b
    → All (λ (r : DynamicRecord). r.sequence_id < b) rs
    → max_from m rs < b
unfolding max_from
max_from-lt b m [] h a = h
max_from-lt b m (r ∷ rs) h (hr, a) = max_from-lt b (max m r.sequence_id) rs (omega arith) a

pub sequence_range-lt :
    (b : ℕ) (rs : List DynamicRecord)
    → 0 < b
    → All (λ (r : DynamicRecord). r.sequence_id < b) rs
    → ((sequence_range rs).0 < b) × ((sequence_range rs).1 < b)
unfolding sequence_range
sequence_range-lt b [] pos a = (pos, pos)
sequence_range-lt b (r ∷ rs) pos (hr, a) =
    (min_from-lt b _ rs (omega arith) a, max_from-lt b _ rs (omega arith) a)

module _ (device : Device) (id level : ℕ) (files : TableFiles) (rs : List DynamicRecord)
    (w : IsWritable device id level rs) where
  abbrev latest : List DynamicRecord
  latest = deduplicate_newest rs

  abbrev meta_of : MetaData
  meta_of = record {
    version = table_version;
    sstable_id = id;
    level = level;
    record_count = length latest;
    min_sequence_id = (sequence_range latest).0;
    max_sequence_id = (sequence_range latest).1;
  }

  abbrev files_of : TableFiles
  files_of = record {
    bytes = data_file latest;
    index = concat (write_index_header (length latest)) ++ index_rows 0 latest;
    meta = some meta_of;
  }

  latest-IsStorable : All IsStorable latest
  latest-IsStorable = All-deduplicate_newest IsStorable rs w.storable

  deduplicated : deduplicate_records rs ≡ latest
  unfolding deduplicate_records deduplicate_newest
  deduplicated = refl

  write_fits : write device id level files rs ≡ (files_of, true)
  unfolding write
  write_fits =
      let head : List ℕ = concat (write_index_header (length latest)) in
      let headed : Stream =
        record (opened_stream device.index_room device.index_capacity device.passes) {
          written = head;
          room = device.index_room - length head;
        } in
      let d0 : Stream = opened_stream device.data_room device.data_capacity device.passes in
      let i0 : Stream = opened_stream device.index_room device.index_capacity device.passes in
      let entries : Stream = record d0 {
        written = data_file latest;
        room = device.data_room - length (data_file latest);
      } in
      let rows : Stream = record headed {
        written = head ++ index_rows 0 latest;
        room = headed.room - length (index_rows 0 latest);
      } in
      let start : length head ≡ 14 = length-write_index_header (length latest) in
      let more : length (index_rows 0 latest) ≡ 24 * length latest = length-index_rows 0 latest in
      let r1 : write_all (write_index_header (length latest)) i0 ≡ (headed, true) =
        write_all_fits (write_index_header (length latest)) i0 refl
          (omega (arith, start, w.index_fits)) in
      let r2 : write_entries latest d0 headed ≡ (entries, rows, true) =
        write_entries_fits latest d0 headed latest-IsStorable refl refl w.data_fits
          (omega (arith, start, more, w.index_fits)) in
      let (c1, g1) = in_file-flush_stream entries refl w.data_holds in
      let (c2, g2) =
        in_file-flush_stream rows refl
          (omega (arith, length-append head (index_rows 0 latest), start, more, w.index_holds)) in
      let granted : not (device.dir_made && device.files_opened) ≡ false =
        ground (arith, w.dir_made, w.files_opened) in
      let meta : write_meta device meta_of ≡ (some meta_of, true) =
        unfold write_meta in ground (arith, w.meta_written, w.meta_stored) in
      rw (deduplicated, r1, r2, granted, c1, c2, g1, g2, meta) refl

  load_meta_of : load_meta (some meta_of) ≡ some meta_of
  unfolding load_meta
  load_meta_of =
      let range : ((sequence_range latest).0 < 2 ^ 63) × ((sequence_range latest).1 < 2 ^ 63) =
        sequence_range-lt (2 ^ 63) latest (omega arith) (
          All-deduplicate_newest (λ (r : DynamicRecord). r.sequence_id < 2 ^ 63) rs
            w.sequences_fit) in
      ground (arith, range.0, range.1, w.id_fits, w.level_fits, w.few_records)

  abbrev reader_of : SsTableReader
  reader_of = record {
    bytes = data_file latest;
    index = entries_of 0 latest;
    id = id;
    level = level;
    record_count = length latest;
    min_sequence_id = (sequence_range latest).0;
    max_sequence_id = (sequence_range latest).1;
  }

  open_table-files_of : open_table files_of ≡ some reader_of
  unfolding open_table
  open_table-files_of = ground (
    arith,
    load_meta_of,
    w.few_records,
    read_index-write latest latest-IsStorable (deduplicate_newest-IsAscending rs)
        (omega (arith, w.few_records)) w.data_short,
  )

  -- Let the device grant the directory, the files, the meta file and room for the newest version of
  -- each node, the id and each sequence number be below 2 ^ 63, the level below 2 ^ 31, the number of
  -- these versions below 2 ^ 63, the data file below 2 ^ 64 bytes, and each record storable. Then a
  -- write succeeds and its files open to a table with the given id and the greatest sequence number
  -- of these versions, whose full scan is the newest version of each node among the records, in
  -- ascending order of ids, and whose look-up of a node finds what the scan has of it.
  pub write-open :
      ((write device id level files rs).1 ≡ true)
      × ((t : SsTableReader) × (open_table (write device id level files rs).0 ≡ some t)
          × (t.id ≡ id)
          × (t.max_sequence_id ≡ (sequence_range latest).1)
          × (scan_all t ≡ latest)
          × ((n : ℕ) → get t n ≡ find_id n latest))
  write-open =
      let held : IsReaderOf reader_of latest = record {
        bytes_are = refl;
        index_is = refl;
        ascending = deduplicate_newest-IsAscending rs;
        storable = latest-IsStorable;
      } in
      rw write_fits (
        refl,
        (
          reader_of,
          open_table-files_of,
          refl,
          refl,
          scan_all-IsReaderOf reader_of latest held,
          λ n. get-find_id reader_of latest n held,
        ),
      )
