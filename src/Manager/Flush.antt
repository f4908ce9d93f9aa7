-- ===== src/Manager/Flush.antt =====
-- `flush`, `flush_locked` and `rotate_wal_locked`.
use agent_aware.Prelude.{
  ℕ, length, ◌+◌, ◌%◌, Bool, true, false, not, Option, none, some, List, [], ◌∷◌, ◌++◌,
  if◌then◌else◌,
}
use agent_aware.Prelude.Assoc.{find, put}
use agent_aware.Bytes.Stream.{in_file, flush_stream}
use agent_aware.Records.Checksum.{is_empty}
use agent_aware.Wal
use agent_aware.Wal.{WalWriter, replay, sync}
use agent_aware.MemTable
use agent_aware.MemTable.{MemTable, fresh, should_flush}
use agent_aware.SsTable
use agent_aware.SsTable.{Device, TableFiles, no_files, SsTableReader, open_table, scan_all}
use agent_aware.Manifest.{ManifestData, SaveDevice, save}
use agent_aware.Manager.State.{Manager, u64_mod}

-- What the file system grants to a log that is opened: whether an old file is removed, where one is to be,
-- whether the file opens, how much more the stream takes and the file holds, and what the stream passes on.
pub record WalDevice : Type 0 where
  pub removed : Bool
  pub opens : Bool
  pub room : ℕ
  pub free : ℕ
  pub passes : ℕ → ℕ

-- A writer that is opened to append to the log, and its first `sync`.
unfoldable pub open_wal : WalDevice → List ℕ → WalWriter × Bool
open_wal device file = sync (record {
  output = record {
    written = file;
    flushed = length file;
    room = device.room;
    capacity = length file + device.free;
    passes = device.passes;
    good = device.opens;
  };
  closed = false;
})

abbrev pub with_wal_file : Manager → List ℕ → Manager
with_wal_file m file = record m { disk = record m.disk { wal_file = file } }

-- What stands in the log when the writer is closed.
abbrev pub closed_log : Manager → List ℕ
closed_log m = elim m.wal_writer [
  | none ↦ m.disk.wal_file
  | some w ↦ if w.closed then m.disk.wal_file else in_file (flush_stream w.output)
]

-- `rotate_wal_locked`, with what the new log is granted. A `remove` that fails is not noticed, and the new writer
-- goes on with the old file.
unfoldable pub rotate_wal : WalDevice → Manager → Manager × Bool
rotate_wal device m =
    if not m.options.enable_wal
    then (m, true)
    else let closed : Bool = elim m.wal_writer [ none ↦ true | some w ↦ (Wal.close w).1 ] in
      let old : Option WalWriter = elim m.wal_writer [
        | none ↦ none
        | some w ↦ some (Wal.close w).0
      ] in
      let file = if device.removed then [] else closed_log m in
      let (w, synced) = open_wal device file in
      if not closed
      then (record (with_wal_file m (closed_log m)) { wal_writer = old }, false)
      else (record (with_wal_file m file) { wal_writer = some w }, synced)

-- What the file system grants to one flush.
pub record FlushDevice : Type 0 where
  pub table : Device
  pub manifest : SaveDevice
  pub wal : WalDevice

abbrev pub files_at : Manager → ℕ → TableFiles
files_at m id = elim (find id m.disk.table_files) [ none ↦ no_files | some f ↦ f ]

abbrev pub with_table : Manager → ℕ → TableFiles → Manager
with_table m id files = record m {
  disk = record m.disk { table_files = put id files m.disk.table_files };
}

abbrev pub with_manifest_file : Manager → Option ManifestData → Manager
with_manifest_file m file = record m { disk = record m.disk { manifest_file = file } }

-- The manifest with one more table.
abbrev pub flushed_manifest : ManifestData → ManifestData
flushed_manifest d = record d {
  next_sstable_id = (d.next_sstable_id + 1) % u64_mod;
  sstables =
      d.sstables
      ++ record { id = d.next_sstable_id; level = 0; base_path = d.next_sstable_id } ∷ [];
  wal_checkpoint = 0;
}

-- The part of `flush_locked` behind a reader that opened.
unfoldable pub install_table : FlushDevice → Manager → SsTableReader → Manager × Bool
install_table device m reader = rotate_wal device.wal (record m {
  manifest = flushed_manifest m.manifest;
  sstables = m.sstables ++ reader ∷ [];
  memtable = MemTable.clear m.memtable;
})

unfoldable pub flush_locked : FlushDevice → Manager → Manager × Bool
flush_locked device m =
    let id = m.manifest.next_sstable_id in
    let (files, written) =
      SsTable.write device.table id 0 (files_at m id) (MemTable.snapshot m.memtable) in
    let m1 = with_table m id files in
    let (file, saved) = save device.manifest m.disk.manifest_file (flushed_manifest m.manifest) in
    let m2 = with_manifest_file m1 file in
    if is_empty (MemTable.snapshot m.memtable)
    then (m, true)
    else if not written
    then (m1, false)
    else if not saved
    then (m2, false)
    else elim (open_table files) [
      | none ↦ (m2, false)
      | some reader ↦ install_table device m2 reader
    ]

unfoldable pub flush : FlushDevice → Manager → Manager × Bool
flush device m = if not m.opened then (m, false) else flush_locked device m
