-- ===== src/Manager/Lifecycle.antt =====
-- `open`, `close` and `compact_once`.
use agent_aware.Prelude.{
  ℕ, ◌+◌, ◌%◌, Bool, true, false, not, ◌&&◌, ◌||◌, Option, none, some, List, [], ◌∷◌, ◌++◌, length,
  ltb, ◌==◌, if◌then◌else◌, max,
}
use agent_aware.Prelude.Assoc.{find, put}
use agent_aware.Prelude.Assoc
use agent_aware.Records.{DynamicRecord}
use agent_aware.Wal
use agent_aware.Wal.{WalWriter, replay, sync}
use agent_aware.MemTable.{fresh}
use agent_aware.MemTable.Accounting.{insert_all}
use agent_aware.SsTable.{Device, TableFiles, no_files, SsTableReader, open_table, scan_all}
use agent_aware.Manifest.{ManifestData, ManifestSsTableEntry, SaveDevice, load, save}
use agent_aware.Compaction.{CompactionResult, run}
use agent_aware.Manager.State.{Manager, u64_mod, publish_read_view}
use agent_aware.Manager.Flush.{
  WalDevice, with_wal_file, closed_log, open_wal, files_at, with_table, with_manifest_file,
}

-- What the file system grants to one call of `open`.
pub record OpenDevice : Type 0 where
  pub dirs_made : Bool
  pub wal : WalDevice

unfoldable pub max_sequence : ℕ → List DynamicRecord → ℕ
max_sequence s [] = s
max_sequence s (r ∷ rs) = max_sequence (max s r.sequence_id) rs

-- What the loop over the manifest's tables builds up.
pub record Loaded : Type 0 where
  pub tables : List SsTableReader
  pub recent : List DynamicRecord
  pub max_loaded : ℕ

unfoldable pub load_table : Loaded → SsTableReader → Loaded
load_table l t = record {
  tables = l.tables ++ t ∷ [];
  recent = l.recent ++ scan_all t;
  max_loaded = max_sequence (max l.max_loaded t.max_sequence_id) (scan_all t);
}

-- The loop over the manifest's tables, and whether each of them opened.
unfoldable pub load_tables :
    List (ℕ × TableFiles) → List ManifestSsTableEntry → Loaded → Loaded × Bool
load_tables files [] l = (l, true)
load_tables files (e ∷ es) l =
    elim (open_table (elim (find e.base_path files) [ none ↦ no_files | some f ↦ f ])) [
      | none ↦ (l, false)
      | some t ↦ load_tables files es (load_table l t)
    ]

-- The end of `open`.
unfoldable pub finish_open : Manager → Manager
finish_open m = publish_read_view (record m { opened = true })

-- The part of `open` behind the tables.
unfoldable pub open_log : OpenDevice → Manager → ℕ → Manager × Bool
open_log device m max_loaded =
    let replayed = replay m.disk.wal_file in
    let next_with_wal =
      max m.manifest.next_sequence_id ((max max_loaded (max_sequence 0 replayed) + 1) % u64_mod) in
    let next = max m.manifest.next_sequence_id ((max_loaded + 1) % u64_mod) in
    let (w, synced) = open_wal device.wal m.disk.wal_file in
    let logged : Manager = record m {
      memtable = insert_all (fresh m.options.memtable_flush_bytes) replayed;
      recent_records = m.recent_records ++ replayed;
      manifest = record m.manifest { next_sequence_id = next_with_wal };
      wal_writer = some w;
    } in
    if not m.options.enable_wal
    then (
      finish_open (record m {
        memtable = fresh m.options.memtable_flush_bytes;
        manifest = record m.manifest { next_sequence_id = next };
      }),
      true,
    )
    else if not synced
    then (logged, false)
    else (finish_open logged, true)

-- The part of `open` behind the loop over the tables.
unfoldable pub open_tables : OpenDevice → Manager → Loaded × Bool → Manager × Bool
open_tables device m (l, all_opened) =
    let m1 : Manager = record m { sstables = l.tables; recent_records = l.recent } in
    if not all_opened then (m1, false) else open_log device m1 l.max_loaded

unfoldable pub open_manager : OpenDevice → Manager → Manager × Bool
open_manager device m =
    if m.opened
    then (m, true)
    else if not device.dirs_made
    then (m, false)
    else elim (load m.disk.manifest_file) [
      | none ↦ (m, false)
      | some d ↦
          open_tables device (record m { manifest = d })
            (load_tables m.disk.table_files d.sstables
              (record { tables = []; recent = []; max_loaded = 0 }))
    ]

-- `wal_writer_->close()`, if there is a writer.
unfoldable pub close_wal : Manager → Bool
close_wal m = elim m.wal_writer [ none ↦ true | some w ↦ (Wal.close w).1 ]

unfoldable pub close : SaveDevice → Manager → Manager × Bool
close device m =
    let (file, saved) = save device m.disk.manifest_file m.manifest in
    let saved_in : Manager = if m.opened then with_manifest_file m file else m in
    let m1 : Manager = with_wal_file saved_in (closed_log m) in
    (
      publish_read_view (record m1 { wal_writer = none; opened = false }),
      (not m.opened || saved) && close_wal m,
    )

pub record DynamicCompactionStats : Type 0 where
  pub attempted : Bool
  pub success : Bool
  pub input_table_count : ℕ
  pub input_record_count : ℕ
  pub output_record_count : ℕ
  pub output_sstable_id : ℕ

-- What the file system grants to one compaction.
pub record CompactDevice : Type 0 where
  pub table : Device
  pub manifest : SaveDevice

-- The removal of the old tables' files, but for one that has the new table's number.
unfoldable pub remove_tables :
    ℕ → List SsTableReader → List (ℕ × TableFiles) → List (ℕ × TableFiles)
remove_tables id [] files = files
remove_tables id (t ∷ ts) files =
    remove_tables id ts (if t.id == id then files else Assoc.erase t.id files)

abbrev pub compacted_manifest : ManifestData → ManifestData
compacted_manifest d = record d {
  next_sstable_id = (d.next_sstable_id + 1) % u64_mod;
  sstables = record { id = d.next_sstable_id; level = 1; base_path = d.next_sstable_id } ∷ [];
}

abbrev pub some_tables : List SsTableReader → List (Option SsTableReader)
some_tables [] = []
some_tables (t ∷ ts) = some t ∷ some_tables ts

-- The state after a compaction whose manifest was saved.
unfoldable pub install_compacted : Manager → SsTableReader → Manager
install_compacted m reader = record m {
  manifest = compacted_manifest m.manifest;
  sstables = reader ∷ [];
  disk = record m.disk {
    table_files = remove_tables m.manifest.next_sstable_id m.sstables m.disk.table_files;
  };
}

abbrev stats_of : Bool → Manager → CompactionResult → DynamicCompactionStats
stats_of success m result = record {
  attempted = true;
  success = success;
  input_table_count = length m.sstables;
  input_record_count = result.input_record_count;
  output_record_count = result.output_record_count;
  output_sstable_id = m.manifest.next_sstable_id;
}

-- `compact_once`: the manager, the result, and what `*stats` is set to.
unfoldable pub compact_once : CompactDevice → Manager → Manager × Bool × DynamicCompactionStats
compact_once device m =
    let id = m.manifest.next_sstable_id in
    let (files, result) = run device.table (files_at m id) (record {
      input_tables = some_tables m.sstables;
      output_sstable_id = id;
      output_level = 1;
    }) in
    let m1 = with_table m id files in
    let (file, saved) = save device.manifest m.disk.manifest_file (compacted_manifest m.manifest) in
    let m2 = with_manifest_file m1 file in
    let stats = λ (success : Bool). stats_of success m result in
    if not m.opened || ltb (length m.sstables) 2
    then (
      m,
      false,
      record {
        attempted = true;
        success = false;
        input_table_count = 0;
        input_record_count = 0;
        output_record_count = 0;
        output_sstable_id = 0;
      },
    )
    else if not result.success
    then (m1, false, stats false)
    else elim (open_table files) [
      | none ↦ (m1, false, stats false)
      | some reader ↦
          if not saved
          then (m2, false, stats false)
          else (install_compacted m2 reader, true, stats true)
    ]
