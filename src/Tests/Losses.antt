-- ===== src/Tests/Losses.antt =====
-- A flush that loses the meta file of its table.
use agent_aware.Prelude.{◌≡◌, refl, true, false}
use agent_aware.Prelude.Assoc.{find, put}
use agent_aware.Bytes.{le_bytes, le_words}
use agent_aware.Bytes.Stream.{write, write_ok, write_all, flush_stream}
use agent_aware.History.{sort_by_id, newest_map, keep_newest, insert_by_id}
use agent_aware.Records.Checksum.{is_empty, checksum_payload}
use agent_aware.MemTable
use agent_aware.MemTable.{fresh}
use agent_aware.SsTable
use agent_aware.SsTable.{
  Device, TableFiles, write_index_header, write_entries, deduplicate_records, write_record,
  writable, data_writes, write_data_header, data_header_of, vector_writes, write_index_entry,
  write_meta,
}
use agent_aware.Manifest.{save}
use agent_aware.Manager.State.{Manager, new_manager}
use agent_aware.Manager.Flush.{FlushDevice, files_at, flushed_manifest, flush_locked}
use agent_aware.Manager.Lifecycle.{open_manager}
use agent_aware.Manager.LostMeta.{flush_locked-lost}
use agent_aware.Tests.{first_version}
use agent_aware.Tests.Managers.{options, empty_disk, device, roomy_table, open_device}

abbrev losing : FlushDevice
losing = record device { table = record roomy_table { meta_stored = false } }

abbrev one_in_memory : Manager
one_in_memory = record (new_manager options empty_disk) {
  memtable = (MemTable.insert (fresh 1000) first_version).0;
}

some_in_memory : is_empty (MemTable.snapshot one_in_memory.memtable) ≡ false
unfolding new_manager MemTable.snapshot MemTable.insert find put
some_in_memory = refl

write_reports :
    (SsTable.write losing.table one_in_memory.manifest.next_sstable_id 0
      (files_at one_in_memory one_in_memory.manifest.next_sstable_id)
      (MemTable.snapshot one_in_memory.memtable)).1
    ≡ true
unfolding new_manager SsTable.write write write_ok write_all write_index_header le_bytes le_words
    write_entries deduplicate_records sort_by_id newest_map MemTable.snapshot MemTable.insert find
    put keep_newest insert_by_id write_record writable data_writes write_data_header data_header_of
    vector_writes checksum_payload write_index_entry flush_stream write_meta
write_reports = refl

save_reports :
    (save losing.manifest one_in_memory.disk.manifest_file
      (flushed_manifest one_in_memory.manifest)).1
    ≡ true
unfolding save new_manager
save_reports = refl

flush_locked-lost_example :
    ((flush_locked losing one_in_memory).1 ≡ false)
    × ((open_manager open_device (new_manager options (flush_locked losing one_in_memory).0.disk)).1
        ≡ false)
flush_locked-lost_example =
    flush_locked-lost losing one_in_memory options open_device some_in_memory refl write_reports
      save_reports
