-- ===== src/Manager/State.antt =====
-- The state of `DynamicWriteManager`, its constructor, and the view that it publishes.
use agent_aware.Prelude.{ℕ, ◌-◌, ◌^◌, Bool, false, Option, none, some, List, []}
use agent_aware.Records.{DynamicRecord}
use agent_aware.Wal.{WalWriter}
use agent_aware.History.{unique_record_versions}
use agent_aware.MemTable.{MemTable, fresh}
use agent_aware.SsTable.{TableFiles, SsTableReader}
use agent_aware.Manifest.{ManifestData, empty_manifest}

pub record DynamicWriteOptions : Type 0 where
  pub memtable_flush_bytes : ℕ
  pub dynamic_graph_degree : ℕ
  pub enable_wal : Bool
  pub enable_auto_flush : Bool

-- The dynamic directory. A table's files stand under its number.
pub record Disk : Type 0 where
  pub manifest_file : Option ManifestData
  pub wal_file : List ℕ
  pub table_files : List (ℕ × TableFiles)

pub record DynamicReadView : Type 0 where
  pub opened : Bool
  pub latest_sequence : ℕ
  pub history_records : List DynamicRecord

pub record Manager : Type 0 where
  pub options : DynamicWriteOptions
  pub disk : Disk
  pub manifest : ManifestData
  pub memtable : MemTable
  pub wal_writer : Option WalWriter
  pub sstables : List SsTableReader
  pub recent_records : List DynamicRecord
  pub read_view : Option DynamicReadView
  pub latest_sequence : ℕ
  pub opened : Bool

-- The constructor.
unfoldable pub new_manager : DynamicWriteOptions → Disk → Manager
new_manager options disk = record {
  options = options;
  disk = disk;
  manifest = empty_manifest;
  memtable = fresh options.memtable_flush_bytes;
  wal_writer = none;
  sstables = [];
  recent_records = [];
  read_view = none;
  latest_sequence = 0;
  opened = false;
}

abbrev pub u64_mod : ℕ
u64_mod = 2 ^ 64

-- `x == 0 ? 0 : x - 1`
abbrev pub before : ℕ → ℕ
before x = x - 1

unfoldable pub publish_read_view : Manager → Manager
publish_read_view m = record m {
  read_view = some (record {
    opened = m.opened;
    latest_sequence = before m.manifest.next_sequence_id;
    history_records = unique_record_versions m.recent_records;
  });
  latest_sequence = before m.manifest.next_sequence_id;
}
