-- ===== src/Manager/Writes.antt =====
-- `insert`, `update`, `erase` and `append_record_locked`.
use agent_aware.Prelude.{
  ℕ, ◌+◌, ◌-◌, ◌%◌, Bool, true, false, not, ◌&&◌, ◌||◌, Option, none, some, List, [], ◌∷◌, ◌++◌,
  ◌==◌, if◌then◌else◌, take,
}
use agent_aware.Records.{DynamicRecord}
use agent_aware.Wal
use agent_aware.Wal.{WalWriter, replay, sync}
use agent_aware.History.{deduplicate_newest, visible}
use agent_aware.MemTable
use agent_aware.MemTable.{MemTable, fresh, should_flush}
use agent_aware.Distance.{FloatOps}
use agent_aware.Search.{select_neighbors}
use agent_aware.Manager.State.{Manager, u64_mod, publish_read_view}
use agent_aware.Bytes.Stream.{in_file}
use agent_aware.Manager.Flush.{FlushDevice, with_wal_file, flush_locked}

-- `wal_writer_->append(record)`: the log, and whether it took the record.
unfoldable pub log_record : Manager → DynamicRecord → Manager × Bool
log_record m r = if not m.options.enable_wal then (m, true) else elim m.wal_writer [
  | none ↦ (m, false)
  | some w ↦ (
    record (with_wal_file m (in_file (Wal.append w r).0.output)) {
      wal_writer = some (Wal.append w r).0;
    },
    (Wal.append w r).1,
  )
]

-- The part of `append_record_locked` between the log and the flush.
unfoldable pub take_record : Manager → DynamicRecord → Manager
take_record m r = publish_read_view (record m {
  memtable = (MemTable.insert m.memtable r).0;
  recent_records = m.recent_records ++ r ∷ [];
  manifest = record m.manifest { next_sequence_id = (m.manifest.next_sequence_id + 1) % u64_mod };
})

unfoldable pub append_record : FlushDevice → Manager → DynamicRecord → Manager × Bool
append_record device m r =
    let (m1, logged) = log_record m r in
    let m2 = take_record m1 r in
    if not logged
    then (m1, false)
    else if not (MemTable.insert m1.memtable r).1
    then (m1, false)
    else if m2.options.enable_auto_flush && should_flush m2.memtable
    then flush_locked device m2
    else (m2, true)

-- `collect_all_delta_records_locked`
unfoldable pub collect_locked : Manager → ℕ → List DynamicRecord
collect_locked m read_sequence =
    if not m.opened then [] else deduplicate_newest (visible m.recent_records read_sequence)

-- The vector is what `dim` floats at the pointer are; a null pointer is `none`.
unfoldable pub insert : FloatOps → FlushDevice → Manager → ℕ → Option (List ℕ) → ℕ → Manager × Bool
insert ops device m node_id none dim = (m, false)
insert ops device m node_id (some vector) dim =
    if (dim == 0) || not m.opened
    then (m, false)
    else append_record device m (record {
      sequence_id = m.manifest.next_sequence_id;
      node_id = node_id;
      dim = dim;
      vector = take dim vector;
      neighbors =
          select_neighbors ops m.options.dynamic_graph_degree node_id vector dim
            (collect_locked m (u64_mod - 1));
      deleted = false;
    })

-- `update` is `insert`.
unfoldable pub update : FloatOps → FlushDevice → Manager → ℕ → Option (List ℕ) → ℕ → Manager × Bool
update = insert

unfoldable pub erase : FlushDevice → Manager → ℕ → Manager × Bool
erase device m node_id =
    if not m.opened
    then (m, false)
    else append_record device m (record {
      sequence_id = m.manifest.next_sequence_id;
      node_id = node_id;
      dim = 0;
      vector = [];
      neighbors = [];
      deleted = true;
    })
