-- ===== src/Recovery/Reopened.antt =====
-- `open` on the disk that a crash leaves.
use agent_aware.Prelude.{
  ℕ, ◌-◌, ◌^◌, ◌<◌, ◌≤◌, ◌≡◌, refl, sym, ap, ◌∙◌, true, false, Option, none, some, List, [], ◌++◌,
  All, All-imp, arith,
}
use agent_aware.Records.{DynamicRecord}
use agent_aware.Bytes.Stream.{flush_stream}
use agent_aware.Wal.{replay, sync}
use agent_aware.History.{latest_record_from_history, unless_deleted}
use agent_aware.History.Newest.{latest_scan-append}
use agent_aware.SsTable.{SsTableReader}
use agent_aware.Manifest.{ManifestData, load}
use agent_aware.Manager.State.{
  Manager, Disk, DynamicWriteOptions, new_manager, u64_mod, before, publish_read_view,
}
use agent_aware.Manager.Flush.{WalDevice, open_wal}
use agent_aware.Manager.Reads.{current_sequence, get}
use agent_aware.Manager.Lifecycle.{
  OpenDevice, Loaded, load_tables, finish_open, open_log, open_tables, open_manager,
}
use agent_aware.Manager.Visible.{IsConsistent, latest_record-recent}
use agent_aware.Manager.Answers.{scan_bound}
use agent_aware.Manager.Opening.{open_manager-IsConsistent}
use agent_aware.Recovery.Tables.{Opens, scans, load_tables-Opens, load_tables-Bounded}
use agent_aware.Recovery.Durable.{newest, IsStored, IsDurable}

-- What `get` returns, from the records that the manager has taken.
pub get-newest :
    (m : Manager) (id : ℕ)
    → IsConsistent m
    → m.opened ≡ true
    → m.manifest.next_sequence_id ≤ u64_mod
    → get m id ≡ unless_deleted false (newest m.recent_records id)
unfolding get current_sequence latest_record_from_history
get-newest m id c o small =
    latest_record-recent m id m.latest_sequence false c
    ∙ rw o (
        ap (unless_deleted false) (
          scan_bound m.recent_records id m.manifest.next_sequence_id m.latest_sequence (u64_mod - 1)
            none c.sequenced (omega (arith, c.latest_is)) (omega arith)))

load_next :
    (f : Option ManifestData) (d : ManifestData) → load f ≡ some d → d.next_sequence_id < u64_mod
unfolding load
load_next none d h = ground arith
load_next (some e) d h = ground arith

abbrev nothing : Loaded
nothing = record { tables = []; recent = []; max_loaded = 0 }

-- What `open` has of the tables when it comes to the log.
abbrev tables_read : DynamicWriteOptions → Disk → ManifestData → Manager
tables_read options disk d =
    let l : Loaded = (load_tables disk.table_files d.sstables nothing).0 in
    record (new_manager options disk) {
      manifest = d;
      sstables = l.tables;
      recent_records = l.recent;
    }

-- A log that can be opened is opened with success.
pub open_wal-ok :
    (device : WalDevice) (file : List ℕ) → device.opens ≡ true → (open_wal device file).1 ≡ true
unfolding open_wal sync flush_stream
open_wal-ok device file h = ground (arith, h)

module _ (options : DynamicWriteOptions) (od : OpenDevice) (logging : options.enable_wal ≡ true)
    (made : od.dirs_made ≡ true) (wal : od.wal.opens ≡ true) where
  open_log-ok :
      (m : Manager) (b : ℕ)
      → m.options ≡ options
      → ((open_log od m b).1 ≡ true)
        × ((open_log od m b).0.recent_records ≡ m.recent_records ++ replay m.disk.wal_file)
        × (m.manifest.next_sequence_id < u64_mod
            → (open_log od m b).0.manifest.next_sequence_id ≤ u64_mod)
  unfolding open_log finish_open publish_read_view
  open_log-ok m b e =
      let opened : (open_wal od.wal m.disk.wal_file).1 ≡ true =
        open_wal-ok od.wal m.disk.wal_file wal in
      rw (e, logging, opened) (refl, refl, λ h. ground arith)

  open_manager-log :
      (disk : Disk) (d : ManifestData) (ts : List SsTableReader)
      → load disk.manifest_file ≡ some d
      → Opens disk.table_files d.sstables ts
      → open_manager od (new_manager options disk)
        ≡ open_log od
            (tables_read options disk d)
            (load_tables disk.table_files d.sstables nothing).0.max_loaded
  unfolding open_manager open_tables new_manager
  open_manager-log disk d ts found o =
      let (done, recent, tables) = load_tables-Opens disk.table_files d.sstables ts nothing o in
      ground (arith, made, found, done)

  -- Take an open manager with a log whose view is consistent and whose state is durable, with the
  -- next sequence number below 2 ^ 63, and a crash: all that is left is the disk. A new manager's `open`
  -- on it, where the device grants the directories and the log, succeeds, the new manager's view is
  -- consistent, and `get` of every node returns what it returned before the crash.
  pub reopened-get :
      (m : Manager)
      → IsConsistent m
      → IsDurable m
      → m.opened ≡ true
      → m.manifest.next_sequence_id < 2 ^ 63
      → ((open_manager od (new_manager options m.disk)).1 ≡ true)
        × IsConsistent (open_manager od (new_manager options m.disk)).0
        × ((id : ℕ) → get (open_manager od (new_manager options m.disk)).0 id ≡ get m id)
  unfolding new_manager
  reopened-get m c (log, h) o small =
      let s : IsStored _ _ _ _ _ _ = h.stored in
      let (d, found, e) = s.listed in
      let tables : Opens m.disk.table_files d.sstables m.sstables = rw e s.opens in
      let (done, recent, loaded) =
        load_tables-Opens m.disk.table_files d.sstables m.sstables nothing tables in
      let b : ℕ = (load_tables m.disk.table_files d.sstables nothing).0.max_loaded in
      let bounded : b ≤ before m.manifest.next_sequence_id =
        load_tables-Bounded (before m.manifest.next_sequence_id) m.disk.table_files d.sstables
          m.sstables nothing tables s.tables_below (omega arith) in
      let same = open_manager-log m.disk d m.sstables found tables in
      let (ok, all, next) = open_log-ok (tables_read options m.disk d) b refl in
      let succeeds : (open_manager od (new_manager options m.disk)).1 ≡ true =
        ap (λ r. r.1) same ∙ ok in
      let below : All (λ (r : DynamicRecord). r.sequence_id < u64_mod - 1)
          (replay m.disk.wal_file) =
        rw s.replays (All-imp _ _ log (λ q lt. omega arith) s.log_below) in
      let (fresh, is_open, _) =
        open_manager-IsConsistent od (new_manager options m.disk) d refl found (omega arith) below
          succeeds in
      let records : (open_manager od (new_manager options m.disk)).0.recent_records
          ≡ scans m.sstables ++ log =
        ap (λ r. r.0.recent_records) same ∙ all ∙ rw (recent, s.replays) refl in
      let numbered : (open_manager od (new_manager options m.disk)).0.manifest.next_sequence_id
          ≤ u64_mod =
        rw same (next (load_next _ d found)) in
      (
        succeeds,
        fresh,
        λ id.
            get-newest _ id fresh is_open numbered
            ∙ ap (unless_deleted false) (
                ap (λ l. newest l id) records
                ∙ latest_scan-append (scans m.sstables) log id (u64_mod - 1)
                ∙ s.answers id)
            ∙ sym (get-newest m id c o (omega arith)),
      )
