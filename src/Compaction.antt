-- ===== src/Compaction.antt =====
-- src/dynamic/compaction.cpp: the merge of tables into one.
use agent_aware.Prelude.{
  ℕ, ◌+◌, Bool, false, Option, none, some, List, [], ◌∷◌, ◌++◌, length, if◌then◌else◌,
}
use agent_aware.Prelude.Assoc.{values}
use agent_aware.Records.{DynamicRecord}
use agent_aware.History.{sort_by_id, newest_map}
use agent_aware.Records.Checksum.{is_empty}
use agent_aware.SsTable
use agent_aware.SsTable.{Device, TableFiles, SsTableReader, scan_all}

unfoldable pub deduplicate_newest : List DynamicRecord → List DynamicRecord
deduplicate_newest rs = sort_by_id (values (newest_map rs []))

-- A null table pointer is `none`.
pub record CompactionInput : Type 0 where
  pub input_tables : List (Option SsTableReader)
  pub output_sstable_id : ℕ
  pub output_level : ℕ

pub record CompactionResult : Type 0 where
  pub success : Bool
  pub input_record_count : ℕ
  pub output_record_count : ℕ

-- The loop over the tables; `none` is the early return at a null pointer, with the count so far.
unfoldable pub collect :
    List (Option SsTableReader) → ℕ → List DynamicRecord → ℕ × Option (List DynamicRecord)
collect [] count records = (count, some records)
collect (none ∷ tables) count records = (count, none)
collect (some t ∷ tables) count records =
    collect tables (count + length (scan_all t)) (records ++ scan_all t)

-- The part of `run` behind the loop.
unfoldable pub merged :
    Device
    → TableFiles
    → CompactionInput
    → ℕ × Option (List DynamicRecord)
    → TableFiles × CompactionResult
merged device files input (count, none) =
    (files, record { success = false; input_record_count = count; output_record_count = 0 })
merged device files input (count, some records) =
    let compacted = deduplicate_newest records in
    let (files', success) =
      SsTable.write device input.output_sstable_id input.output_level files compacted in
    (
      files',
      record {
        success = success;
        input_record_count = count;
        output_record_count = length compacted;
      },
    )

-- `run` over the output table's files as they were.
unfoldable pub run : Device → TableFiles → CompactionInput → TableFiles × CompactionResult
run device files input =
    if is_empty input.input_tables
    then (files, record { success = false; input_record_count = 0; output_record_count = 0 })
    else merged device files input (collect input.input_tables 0 [])
