-- ===== src/Manager/LostMeta.antt =====
-- A flush whose meta file is reported as written and does not reach the disk.
use agent_aware.Prelude.{
  ◌==◌, ℕ, ◌≡◌, refl, ◌∙◌, true, false, Option, none, some, List, [], ◌∷◌, ◌++◌, arith,
  Option-cases, inl, inr,
}
use agent_aware.Prelude.Assoc.{find, put, find-put}
use agent_aware.Records.Checksum.{is_empty}
use agent_aware.MemTable
use agent_aware.SsTable
use agent_aware.SsTable.{TableFiles, no_files, open_table}
use agent_aware.SsTable.LostMeta.{write_lost}
use agent_aware.Manifest.{SaveDevice, ManifestData, ManifestSsTableEntry, save, load}
use agent_aware.Manager.State.{Manager, Disk, DynamicWriteOptions, new_manager}
use agent_aware.Manager.Lifecycle.{
  OpenDevice, Loaded, load_table, load_tables, open_tables, open_manager,
}
use agent_aware.Manager.Flush.{FlushDevice, flush_locked, files_at, flushed_manifest}

load_tables-closed :
    (files : List (ℕ × TableFiles)) (es : List ManifestSsTableEntry) (e : ManifestSsTableEntry)
    (f : TableFiles) (l : Loaded)
    → find e.base_path files ≡ some f
    → open_table f ≡ none
    → (load_tables files (es ++ e ∷ []) l).1 ≡ false
unfolding load_tables
load_tables-closed files [] e f l found closed =
    let shut : open_table (elim (find e.base_path files) [ none ↦ no_files | some g ↦ g ]) ≡ none =
      rw found closed in
    rw (shut, load_tables) refl
load_tables-closed files (d ∷ es) e f l found closed =
    elim (Option-cases
      (open_table (elim (find d.base_path files) [ none ↦ no_files | some g ↦ g ]))) [
        | inl shut ↦ rw (shut, load_tables) refl
        | inr (t, opens) ↦
            rw (opens, load_tables) (load_tables-closed files es e f (load_table l t) found closed)
      ]

saved-is :
    (device : SaveDevice) (file : Option ManifestData) (d : ManifestData)
    → (save device file d).1 ≡ true
    → (save device file d).0 ≡ some (record d { version = 1 })
unfolding save
saved-is device file d ok = ground arith

open_manager-closed :
    (options : DynamicWriteOptions) (od : OpenDevice) (disk : Disk) (d : ManifestData)
    → disk.manifest_file ≡ some d
    → ((l : Loaded) → (load_tables disk.table_files d.sstables l).1 ≡ false)
    → (open_manager od (new_manager options disk)).1 ≡ false
unfolding open_manager new_manager open_tables load
open_manager-closed options od disk d is closed =
    rw is (ground (arith, closed (record { tables = []; recent = []; max_loaded = 0 })))

-- Take a manager whose table in memory is not empty, and a flush whose `write` and `save` report success although the
-- meta file does not reach the disk. Then the flush reports failure, but the manifest on the disk lists the new table
-- by now: every `open` of a new manager on this disk fails, whatever it is granted.
pub flush_locked-lost :
    (device : FlushDevice) (m : Manager) (options : DynamicWriteOptions) (od : OpenDevice)
    → is_empty (MemTable.snapshot m.memtable) ≡ false
    → device.table.meta_stored ≡ false
    → (SsTable.write device.table m.manifest.next_sstable_id 0
        (files_at m m.manifest.next_sstable_id)
        (MemTable.snapshot m.memtable)).1
      ≡ true
    → (save device.manifest m.disk.manifest_file (flushed_manifest m.manifest)).1 ≡ true
    → ((flush_locked device m).1 ≡ false)
      × ((open_manager od (new_manager options (flush_locked device m).0.disk)).1 ≡ false)
unfolding flush_locked
flush_locked-lost device m options od some_records lost reported saved =
    let id : ℕ = m.manifest.next_sstable_id in
    let files : TableFiles =
      (SsTable.write device.table id 0 (files_at m id) (MemTable.snapshot m.memtable)).0 in
    let closed : open_table files ≡ none =
      write_lost device.table id 0 (files_at m id) (MemTable.snapshot m.memtable) lost reported in
    let left : Disk = record m.disk {
      table_files = put id files m.disk.table_files;
      manifest_file = (save device.manifest m.disk.manifest_file (flushed_manifest m.manifest)).0;
    } in
    let found : find id left.table_files ≡ some files =
      find-put id id files m.disk.table_files
      ∙ (let e : id == id ≡ true = ground arith in rw e refl) in
    let fails : (open_manager od (new_manager options left)).1 ≡ false =
      open_manager-closed options od left (record (flushed_manifest m.manifest) { version = 1 })
        (saved-is device.manifest m.disk.manifest_file (flushed_manifest m.manifest) saved)
        (λ l. load_tables-closed left.table_files m.manifest.sstables _ files l found closed) in
    rw (some_records, reported, saved, closed) (refl, fails)
