-- ===== src/Tests/Histories.antt =====
-- The views of a history and the tables at concrete records.
use agent_aware.Prelude.{
  ℕ, ◌≡◌, refl, true, false, none, some, [], ◌∷◌, length, arith, if◌then◌else◌,
}
use agent_aware.Prelude.Assoc.{find, put, total}
use agent_aware.History.{
  deduplicate_newest, deduplicate_newest_at, unique_record_versions, latest_record_from_history,
  latest_records_for_from_history, contains, find_id, newest_map, keep_newest, sort_by_id,
  insert_by_id,
}
use agent_aware.History.Newest.{IsNewest, latest_record-IsNewest}
use agent_aware.History.Order.{IsAscending, deduplicate_newest-IsAscending}
use agent_aware.History.Views.{
  find_id-snapshot, find-latest_records_for, latest_record-unique_record_versions,
}
use agent_aware.MemTable.{fresh, insert}
use agent_aware.MemTable.Accounting.{IsCounted, insert-IsCounted, insert_all, insert_all-newest_map}
use agent_aware.Bytes.{le_bytes, le_words}
use agent_aware.SsTable.Writes.{data_file}
use agent_aware.SsTable.{
  data_writes, write_data_header, vector_writes, Device, SsTableReader, no_files, write, open_table,
  scan_all, get, sequence_range,
}
use agent_aware.SsTable.Built.{IsWritable, write-open}
use agent_aware.Tests.{
  first_version, three_records, first_version-IsStorable, deletion-IsStorable,
  other_node-IsStorable,
}

latest_record-IsNewest_example :
    IsNewest three_records 7 2 (latest_record_from_history three_records 7 2 true)
latest_record-IsNewest_example = latest_record-IsNewest three_records 7 2

find_id-snapshot_example :
    find_id 7 (deduplicate_newest_at three_records 1)
    ≡ latest_record_from_history three_records 7 1 true
find_id-snapshot_example = find_id-snapshot three_records 7 1

find-latest_records_for_example :
    find 7 (latest_records_for_from_history three_records (5 ∷ 7 ∷ []) 1 false)
    ≡ (if contains (5 ∷ 7 ∷ []) 7 then latest_record_from_history three_records 7 1 false else none)
find-latest_records_for_example = find-latest_records_for three_records (5 ∷ 7 ∷ []) 7 1 false

latest_record-unique_record_versions_example :
    latest_record_from_history (unique_record_versions three_records) 7 3 true
    ≡ latest_record_from_history three_records 7 3 true
latest_record-unique_record_versions_example =
    latest_record-unique_record_versions three_records 7 3 true

deduplicate_newest-IsAscending_example : IsAscending (deduplicate_newest three_records)
deduplicate_newest-IsAscending_example = deduplicate_newest-IsAscending three_records

insert-IsCounted_example : IsCounted (insert (fresh 100) first_version).0
unfolding find total
insert-IsCounted_example = insert-IsCounted (fresh 100) first_version (λ id q e. cc) refl

insert_all-newest_map_example :
    (insert_all (fresh 100) three_records).records ≡ newest_map three_records (fresh 100).records
insert_all-newest_map_example = insert_all-newest_map three_records (fresh 100)

-- A device with enough room.
abbrev roomy : Device
roomy = record {
  dir_made = true;
  files_opened = true;
  data_room = 1000;
  data_capacity = 1000;
  index_room = 1000;
  index_capacity = 1000;
  passes = λ n. 0;
  meta_written = true;
  meta_stored = true;
}

-- The bytes of the data file, of which the newest versions are two.
data_size : length (data_file (deduplicate_newest three_records)) ≡ 86
unfolding deduplicate_newest newest_map keep_newest find put sort_by_id insert_by_id data_writes
    write_data_header vector_writes le_bytes le_words
data_size = refl

newest_size : length (deduplicate_newest three_records) ≡ 2
unfolding deduplicate_newest newest_map keep_newest find put sort_by_id insert_by_id
newest_size = refl

three_records-IsWritable : IsWritable roomy 1 0 three_records
three_records-IsWritable = record {
  dir_made = refl;
  files_opened = refl;
  meta_written = refl;
  meta_stored = refl;
  data_holds = omega (arith, data_size);
  index_holds = omega (arith, newest_size);
  data_fits = omega (arith, data_size);
  data_short = omega (arith, data_size);
  index_fits = omega (arith, newest_size);
  few_records = omega (arith, newest_size);
  id_fits = omega arith;
  level_fits = omega arith;
  sequences_fit = (omega arith, (omega arith, (omega arith, tt)));
  storable = (first_version-IsStorable, (deletion-IsStorable, (other_node-IsStorable, tt)));
}

write-open_example :
    ((write roomy 1 0 no_files three_records).1 ≡ true)
    × ((t : SsTableReader) × (open_table (write roomy 1 0 no_files three_records).0 ≡ some t)
        × (t.id ≡ 1)
        × (t.max_sequence_id ≡ (sequence_range (deduplicate_newest three_records)).1)
        × (scan_all t ≡ deduplicate_newest three_records)
        × ((n : ℕ) → get t n ≡ find_id n (deduplicate_newest three_records)))
write-open_example = write-open roomy 1 0 no_files three_records three_records-IsWritable
