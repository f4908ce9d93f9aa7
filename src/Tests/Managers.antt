-- ===== src/Tests/Managers.antt =====
-- The manager at a concrete state and calls.
use agent_aware.Prelude.{
  ◌++◌, ◌-◌, ◌≤◌, ◌≡◌, refl, Bool, true, false, none, some, [], ◌∷◌, arith, All,
}
use agent_aware.Wal
use agent_aware.Prelude.Assoc.{find, put}
use agent_aware.Bytes.{le_bytes, le_words}
use agent_aware.Bytes.Stream.{write, write_ok, write_all}
use agent_aware.Wal.{appendable, record_writes, write_header, header_of, write_payload}
use agent_aware.Wal.{replay, replay_loop, sync, read_record}
use agent_aware.Manifest.{empty_manifest, load, SaveDevice}
use agent_aware.SsTable.{Device}
use agent_aware.MemTable
use agent_aware.MemTable.{fresh, estimate_record_bytes, should_flush}
use agent_aware.Search.{select_neighbors}
use agent_aware.Manager.State.{
  Disk, DynamicWriteOptions, Manager, new_manager, u64_mod, publish_read_view,
}
use agent_aware.Manager.Flush.{WalDevice, FlushDevice, open_wal}
use agent_aware.Manager.Writes.{
  insert, erase, append_record, log_record, take_record, collect_locked,
}
use agent_aware.Manager.Reads.{get, latest_record}
use agent_aware.Manager.Lifecycle.{
  OpenDevice, load_tables, max_sequence, finish_open, open_log, open_tables, open_manager,
}
use agent_aware.Manager.Opening.{recovered, open_manager-IsConsistent}
use agent_aware.Manager.Visible.{IsConsistent}
use agent_aware.Manager.Runs.{
  inserting, flushing, perform, Run, start, then_call, run-latest_record, run-IsConsistent,
  run-snapshot,
}
use agent_aware.Prelude.Sort.{sort_by}
use agent_aware.Search.{score_candidates}
use agent_aware.History.{deduplicate_newest, newest_map, sort_by_id, visible}
use agent_aware.MemTable.Accounting.{insert_all}
use agent_aware.Search.{SearchResult}
use agent_aware.Manager.Reads.{current_sequence, snapshot, search_delta_l2_at}
use agent_aware.Manager.OwnWrites.{insert-get, erase-get}
use agent_aware.Engine.{PackedGraphEngine, search_one}
use agent_aware.Engine.Current.{is_deleted, search_one-live}
use agent_aware.Bytes.Stream.{flush_stream, in_file}
use agent_aware.Tests.{whole}

abbrev pub options : DynamicWriteOptions
options = record {
  memtable_flush_bytes = 1000;
  dynamic_graph_degree = 4;
  enable_wal = true;
  enable_auto_flush = true;
}

abbrev pub roomy_table : Device
roomy_table = record {
  dir_made = true;
  files_opened = true;
  data_room = 1000;
  data_capacity = 1000;
  index_room = 1000;
  index_capacity = 1000;
  passes = λ n. 0;
  meta_written = true;
  meta_stored = true;
}

abbrev pub empty_disk : Disk
empty_disk = record { manifest_file = none; wal_file = []; table_files = [] }

abbrev pub saves : SaveDevice
saves = record { dir_made = true; written = true; renamed = true; renamed_again = false }

-- A log whose stream passes nothing on before it is flushed.
abbrev pub granted_wal : WalDevice
granted_wal = record { removed = true; opens = true; room = 1000; free = 1000; passes = λ n. 0 }

abbrev pub device : FlushDevice
device = record { table = roomy_table; manifest = saves; wal = granted_wal }

abbrev pub open_device : OpenDevice
open_device = record { dirs_made = true; wal = granted_wal }

abbrev pub opened_manager : Manager
opened_manager = (open_manager open_device (new_manager options empty_disk)).0

open_manager-IsConsistent_example :
    IsConsistent (open_manager open_device (new_manager options empty_disk)).0
    × ((open_manager open_device (new_manager options empty_disk)).0.opened ≡ true)
    × ((open_manager open_device (new_manager options empty_disk)).0.recent_records
        ≡ (load_tables [] [] (record { tables = []; recent = []; max_loaded = 0 })).0.recent
          ++ recovered (new_manager options empty_disk))
unfolding new_manager load load_tables replay replay_loop max_sequence open_manager open_tables
    open_log open_wal flush_stream sync finish_open publish_read_view
open_manager-IsConsistent_example =
    open_manager-IsConsistent open_device (new_manager options empty_disk) empty_manifest refl refl
      (omega arith) tt refl

opened_manager-IsConsistent : IsConsistent opened_manager
unfolding new_manager load load_tables replay replay_loop max_sequence open_manager open_tables
    open_log open_wal flush_stream sync finish_open publish_read_view
opened_manager-IsConsistent =
    (open_manager-IsConsistent open_device (new_manager options empty_disk) empty_manifest refl refl
      (omega arith) tt refl).0

opened_manager-opened : opened_manager.opened ≡ true
unfolding new_manager load load_tables replay replay_loop max_sequence open_manager open_tables
    open_log open_wal flush_stream sync finish_open publish_read_view
opened_manager-opened = refl

pub first_number : opened_manager.manifest.next_sequence_id ≡ 1
unfolding new_manager load load_tables replay replay_loop max_sequence open_manager open_tables
    open_log open_wal flush_stream sync finish_open publish_read_view
first_number = refl

abbrev pub inserted : Manager × Bool
inserted = perform whole (inserting device 7 (some (3 ∷ 4 ∷ [])) 2) opened_manager

inserted-ok : (insert whole device opened_manager 7 (some (3 ∷ 4 ∷ [])) 2).1 ≡ true
unfolding new_manager load load_tables replay replay_loop max_sequence open_manager open_tables
    open_log open_wal flush_stream sync finish_open publish_read_view find put append_record
    log_record take_record appendable record_writes write_header header_of write_payload le_bytes
    le_words in_file write write_ok write_all estimate_record_bytes should_flush Wal.append
    MemTable.insert insert select_neighbors sort_by score_candidates collect_locked
    deduplicate_newest sort_by_id newest_map visible insert_all
inserted-ok = refl

pub next_number : inserted.0.manifest.next_sequence_id ≡ 2
unfolding new_manager load load_tables replay replay_loop max_sequence open_manager open_tables
    open_log open_wal flush_stream sync finish_open publish_read_view find put append_record
    log_record take_record appendable record_writes write_header header_of write_payload le_bytes
    le_words in_file write write_ok write_all estimate_record_bytes should_flush Wal.append
    MemTable.insert insert perform select_neighbors sort_by score_candidates collect_locked
    deduplicate_newest sort_by_id newest_map visible insert_all
next_number = refl

insert-get_example :
    get (insert whole device opened_manager 7 (some (3 ∷ 4 ∷ [])) 2).0 7
    ≡ some (record {
      sequence_id = opened_manager.manifest.next_sequence_id;
      node_id = 7;
      dim = 2;
      vector = 3 ∷ 4 ∷ [];
      neighbors =
          select_neighbors whole opened_manager.options.dynamic_graph_degree 7
            (3 ∷ 4 ∷ [])
            2
            (collect_locked opened_manager (u64_mod - 1));
      deleted = false;
    })
insert-get_example =
    insert-get whole device opened_manager 7 (3 ∷ 4 ∷ []) 2 opened_manager-IsConsistent
      opened_manager-opened (omega (arith, first_number)) inserted-ok

erased-ok : (erase device opened_manager 7).1 ≡ true
unfolding new_manager load load_tables replay replay_loop max_sequence open_manager open_tables
    open_log open_wal flush_stream sync finish_open publish_read_view find put append_record
    log_record take_record appendable record_writes write_header header_of write_payload le_bytes
    le_words in_file write write_ok write_all estimate_record_bytes should_flush Wal.append
    MemTable.insert erase insert_all
erased-ok = refl

erase-get_example : get (erase device opened_manager 7).0 7 ≡ none
erase-get_example =
    erase-get device opened_manager 7 opened_manager-IsConsistent opened_manager-opened
      (omega (arith, first_number)) erased-ok

abbrev two_calls : Run whole opened_manager (perform whole (flushing device) inserted.0).0
two_calls =
    then_call
      (then_call start (inserting device 7 (some (3 ∷ 4 ∷ [])) 2) (omega (arith, first_number)))
      (flushing device) (omega (arith, next_number))

run-latest_record_example :
    latest_record (perform whole (flushing device) inserted.0).0 7 0 true
    ≡ latest_record opened_manager 7 0 true
run-latest_record_example =
    run-latest_record whole opened_manager (perform whole (flushing device) inserted.0).0 7 0 true
      opened_manager-IsConsistent two_calls (omega (arith, first_number))

run-IsConsistent_example :
    IsConsistent (perform whole (flushing device) inserted.0).0
    × (opened_manager.manifest.next_sequence_id
        ≤ (perform whole (flushing device) inserted.0).0.manifest.next_sequence_id)
run-IsConsistent_example =
    run-IsConsistent whole opened_manager (perform whole (flushing device) inserted.0).0
      opened_manager-IsConsistent two_calls

run-snapshot_example :
    (snapshot (perform whole (flushing device) inserted.0).0 0 ≡ snapshot opened_manager 0)
    × (search_delta_l2_at whole
          (perform whole (flushing device) inserted.0).0
          (some (1 ∷ 1 ∷ []))
          2
          3
          0
        ≡ search_delta_l2_at whole opened_manager (some (1 ∷ 1 ∷ [])) 2 3 0)
run-snapshot_example =
    run-snapshot whole opened_manager (perform whole (flushing device) inserted.0).0
      (some (1 ∷ 1 ∷ [])) 2 3 0 opened_manager-IsConsistent two_calls (omega (arith, first_number))

-- A graph that still has the node 7, which was erased.
abbrev engine : PackedGraphEngine
engine = record {
  dynamic_manager = some (erase device opened_manager 7).0;
  dim = 2;
  graph_search =
      λ query top_k. record { id = 7; distance = 1 } ∷ record { id = 8; distance = 6 } ∷ [];
}

search_one-live_example :
    All
      (λ (x : SearchResult).
        is_deleted (
          latest_record
            (erase device opened_manager 7).0
            x.id
            (current_sequence (erase device opened_manager 7).0)
            true)
        ≡ false)
      (search_one whole engine (some (0 ∷ 0 ∷ [])) 3).0
search_one-live_example =
    search_one-live whole engine (erase device opened_manager 7).0 (0 ∷ 0 ∷ []) 3 refl (omega arith)
      (omega arith)
