-- ===== src/Manager/Visible.antt =====
-- What readers see before and after each write, flush and compaction.
use agent_aware.Prelude.{
  ℕ, ◌+◌, ◌<◌, ◌≤◌, ◌≡◌, refl, sym, ap, ◌∙◌, Bool, true, false, not, ◌&&◌, Option, none, some, List,
  [], ◌∷◌, ◌++◌, All, All-imp, if◌then◌else◌, arith, Bool-cases, inl, inr, ◌⊎◌,
}
use agent_aware.Records.{DynamicRecord}
use agent_aware.Wal.Appends.{All-snoc}
use agent_aware.Records.Checksum.{is_empty}
use agent_aware.History.{latest_record_from_history}
use agent_aware.History.Views.{latest_record-unique_record_versions}
use agent_aware.MemTable
use agent_aware.MemTable.{MemTable, fresh, should_flush}
use agent_aware.SsTable
use agent_aware.SsTable.{Device, TableFiles, no_files, SsTableReader, open_table, scan_all}
use agent_aware.Manifest.{ManifestData, save}
use agent_aware.Manager.State.{Manager, u64_mod, before, publish_read_view}
use agent_aware.Manager.Flush.{
  WalDevice, rotate_wal, FlushDevice, files_at, with_table, with_manifest_file, flushed_manifest,
  install_table, flush_locked,
}
use agent_aware.Manager.Writes.{log_record, take_record, append_record}
use agent_aware.Manager.Reads.{view_records, latest_record}

-- The published view is the one of the present state, and every version is below the next number.
pub record IsConsistent (m : Manager) : Type 0 where
  pub published : m.read_view ≡ (publish_read_view m).read_view
  pub latest_is : m.latest_sequence ≡ before m.manifest.next_sequence_id
  pub sequenced :
      All (λ (r : DynamicRecord). r.sequence_id < m.manifest.next_sequence_id) m.recent_records

-- The parts of the state that readers depend on.
pub record SameReads (m n : Manager) : Type 0 where
  pub recent : n.recent_records ≡ m.recent_records
  pub view : n.read_view ≡ m.read_view
  pub sequence : n.latest_sequence ≡ m.latest_sequence
  pub next : n.manifest.next_sequence_id ≡ m.manifest.next_sequence_id
  pub still : n.opened ≡ m.opened

pub SameReads-refl : (m : Manager) → SameReads m m
SameReads-refl m = record { recent = refl; view = refl; sequence = refl; next = refl; still = refl }

rotate_wal-SameReads : (device : WalDevice) (m : Manager) → SameReads m (rotate_wal device m).0
unfolding rotate_wal
rotate_wal-SameReads device m = ground arith

install_table-SameReads :
    (device : FlushDevice) (m : Manager) (t : SsTableReader)
    → SameReads m (install_table device m t).0
unfolding install_table
install_table-SameReads device m t =
    let h : SameReads _ _ = rotate_wal-SameReads device.wal (record m {
      manifest = flushed_manifest m.manifest;
      sstables = m.sstables ++ t ∷ [];
      memtable = MemTable.clear m.memtable;
    }) in
    record {
      recent = h.recent;
      view = h.view;
      sequence = h.sequence;
      next = h.next;
      still = h.still;
    }

-- The ways a flush can end, given what its parts return.
flush_end_SameReads :
    (m m1 m2 : Manager) (empty written saved : Bool) (ended : Manager × Bool)
    → SameReads m m1
    → SameReads m m2
    → SameReads m ended.0
    → SameReads m
        (if empty
          then (m, true)
          else if not written
          then (m1, false)
          else if not saved
          then (m2, false)
          else ended).0
flush_end_SameReads m m1 m2 true written saved ended h1 h2 he = SameReads-refl m
flush_end_SameReads m m1 m2 false false saved ended h1 h2 he = h1
flush_end_SameReads m m1 m2 false true false ended h1 h2 he = h2
flush_end_SameReads m m1 m2 false true true ended h1 h2 he = he

opened_SameReads :
    (device : FlushDevice) (m m2 : Manager) (o : Option SsTableReader)
    → SameReads m m2
    → SameReads m (
        let r : Manager × Bool = elim o [
          | none ↦ (m2, false)
          | some t ↦ install_table device m2 t
        ] in
        r.0)
opened_SameReads device m m2 none h = h
opened_SameReads device m m2 (some t) h =
    let g : SameReads m2 (install_table device m2 t).0 = install_table-SameReads device m2 t in
    record {
      recent = g.recent ∙ h.recent;
      view = g.view ∙ h.view;
      sequence = g.sequence ∙ h.sequence;
      next = g.next ∙ h.next;
      still = g.still ∙ h.still;
    }

pub flush_locked-SameReads :
    (device : FlushDevice) (m : Manager) → SameReads m (flush_locked device m).0
unfolding flush_locked
flush_locked-SameReads device m =
    let id : ℕ = m.manifest.next_sstable_id in
    let wrote : TableFiles × Bool =
      SsTable.write device.table id 0 (files_at m id) (MemTable.snapshot m.memtable) in
    let saved : Option ManifestData × Bool =
      save device.manifest m.disk.manifest_file (flushed_manifest m.manifest) in
    let m1 : Manager = with_table m id wrote.0 in
    let m2 : Manager = with_manifest_file m1 saved.0 in
    let same1 : SameReads m m1 = record {
      recent = refl;
      view = refl;
      sequence = refl;
      next = refl;
      still = refl;
    } in
    let same2 : SameReads m m2 = record {
      recent = refl;
      view = refl;
      sequence = refl;
      next = refl;
      still = refl;
    } in
    flush_end_SameReads m m1 m2 (is_empty (MemTable.snapshot m.memtable)) wrote.1 saved.1
      (elim (open_table wrote.0) [ none ↦ (m2, false) | some t ↦ install_table device m2 t ]) same1
      same2 (opened_SameReads device m m2 (open_table wrote.0) same2)

pub log_record-SameReads : (m : Manager) (r : DynamicRecord) → SameReads m (log_record m r).0
unfolding log_record
log_record-SameReads m r = ground arith

pub take_record-recent :
    (m : Manager) (r : DynamicRecord)
    → (take_record m r).recent_records ≡ m.recent_records ++ r ∷ []
unfolding take_record publish_read_view
take_record-recent m r = refl

All-weaken :
    (rs : List DynamicRecord) (a b : ℕ)
    → a ≤ b
    → All (λ (q : DynamicRecord). q.sequence_id < a) rs
    → All (λ (q : DynamicRecord). q.sequence_id < b) rs
All-weaken rs a b le h = All-imp _ _ rs (λ q lt. omega arith) h

pub take_record-IsConsistent :
    (m : Manager) (r : DynamicRecord)
    → r.sequence_id ≡ m.manifest.next_sequence_id
    → m.manifest.next_sequence_id + 1 < u64_mod
    → All (λ (q : DynamicRecord). q.sequence_id < m.manifest.next_sequence_id) m.recent_records
    → IsConsistent (take_record m r)
unfolding take_record publish_read_view
take_record-IsConsistent m r e small h = record {
  published = refl;
  latest_is = refl;
  sequenced =
      All-snoc _ m.recent_records r (All-weaken m.recent_records _ _ (omega arith) h) (omega arith);
}

pub SameReads-IsConsistent : (m n : Manager) → SameReads m n → IsConsistent m → IsConsistent n
unfolding publish_read_view
SameReads-IsConsistent m n s c = record {
  published = ground (arith, c.published);
  latest_is = s.sequence ∙ c.latest_is ∙ ap before (sym s.next);
  sequenced = rw (s.next, s.recent) c.sequenced;
}

-- How an append can end: refused with nothing that readers see changed, or taken.
pub append_record_cases :
    (device : FlushDevice) (m : Manager) (r : DynamicRecord)
    → (SameReads m (append_record device m r).0 × ((append_record device m r).1 ≡ false))
      ⊎ SameReads (take_record (log_record m r).0 r) (append_record device m r).0
unfolding append_record
append_record_cases device m r =
    let m1 : Manager = (log_record m r).0 in
    let m2 : Manager = take_record m1 r in
    elim (Bool-cases (log_record m r).1) [
      | inr failed ↦ rw failed (inl (log_record-SameReads m r, refl))
      | inl logged ↦ elim (Bool-cases (MemTable.insert m1.memtable r).1) [
        | inr refused ↦ rw (logged, refused) (inl (log_record-SameReads m r, refl))
        | inl taken ↦ elim (Bool-cases (m2.options.enable_auto_flush && should_flush m2.memtable)) [
          | inl full ↦ rw (logged, taken, full) (inr (flush_locked-SameReads device m2))
          | inr small ↦ rw (logged, taken, small) (inr (SameReads-refl m2))
        ]
      ]
    ]

-- The answer of a reader, from the records that the manager has taken.
pub latest_record-recent :
    (m : Manager) (id s : ℕ) (include_deleted : Bool)
    → IsConsistent m
    → latest_record m id s include_deleted ≡ (
        if m.opened then latest_record_from_history m.recent_records id s include_deleted else none)
unfolding latest_record view_records publish_read_view
latest_record-recent m id s include_deleted c =
    ground (
      arith,
      c.published,
      latest_record-unique_record_versions m.recent_records id s include_deleted,
    )
