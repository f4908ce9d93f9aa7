-- ===== src/Tests/Crashes.antt =====
-- A manager that is opened on a log, and its disk opened again.
use agent_aware.Prelude.{ℕ, ◌≡◌, refl, true, none, some, [], ◌∷◌, arith}
use agent_aware.Prelude.Assoc.{find, put}
use agent_aware.Bytes.{le_bytes, le_words}
use agent_aware.Bytes.Stream.{flush_stream}
use agent_aware.Records.Checksum.{checksum_payload}
use agent_aware.Wal.{replay, sync, record_writes, write_header, header_of, write_payload}
use agent_aware.Wal.Replay.{encode_all, replay-encode_all}
use agent_aware.MemTable
use agent_aware.MemTable.{fresh, estimate_record_bytes}
use agent_aware.MemTable.Accounting.{insert_all}
use agent_aware.History.{latest_scan, unique_record_versions, unseen}
use agent_aware.History.Newest.{newer}
use agent_aware.Manifest.{empty_manifest, load}
use agent_aware.Manager.State.{Disk, Manager, new_manager, publish_read_view}
use agent_aware.Manager.Flush.{open_wal}
use mathlib.Core.Path.{subst, sym, ap}
use agent_aware.Manager.Reads.{get}
use agent_aware.Manager.Lifecycle.{
  load_tables, open_manager, open_tables, open_log, finish_open, max_sequence,
}
use agent_aware.Manager.Visible.{IsConsistent}
use agent_aware.Manager.Opening.{open_manager-IsConsistent}
use agent_aware.Recovery.Durable.{IsDurable}
use agent_aware.Recovery.Reopened.{open_wal-ok, reopened-get}
use agent_aware.Tests.{first_version, first_version-IsStorable}
use agent_aware.Tests.Managers.{options, open_device}

-- What a manager leaves that has taken one record and closed its log.
abbrev logged_disk : Disk
logged_disk = record {
  manifest_file = none;
  wal_file = encode_all (first_version ∷ []);
  table_files = [];
}

abbrev recovering : Manager
recovering = (open_manager open_device (new_manager options logged_disk)).0

log_replays : replay (encode_all (first_version ∷ [])) ≡ first_version ∷ []
log_replays = replay-encode_all (first_version ∷ []) (first_version-IsStorable, tt)

log_opens : (open_wal open_device.wal (encode_all (first_version ∷ []))).1 ≡ true
log_opens = open_wal-ok open_device.wal (encode_all (first_version ∷ [])) refl

abbrev recovered_state : Manager
recovered_state = finish_open (record (new_manager options logged_disk) {
  memtable = insert_all (fresh 1000) (first_version ∷ []);
  recent_records = first_version ∷ [];
  manifest = record empty_manifest { next_sequence_id = 2 };
  wal_writer = some (open_wal open_device.wal (encode_all (first_version ∷ []))).0;
})

recovering-is : recovering ≡ recovered_state
unfolding new_manager load load_tables open_manager open_tables open_log finish_open
    publish_read_view max_sequence open_wal record_writes insert_all unique_record_versions sync
    write_header MemTable.insert unseen flush_stream le_bytes find write_payload header_of
    estimate_record_bytes put le_words checksum_payload
recovering-is = rw (log_opens, log_replays) refl

recovering-ok : (open_manager open_device (new_manager options logged_disk)).1 ≡ true
unfolding new_manager load load_tables open_manager open_tables open_log finish_open
    publish_read_view
recovering-ok = rw log_opens refl

recovered_state-IsDurable : IsDurable recovered_state
unfolding new_manager load load_tables finish_open publish_read_view insert_all latest_scan newer
    find put MemTable.insert
recovered_state-IsDurable = (
  first_version ∷ [],
  record {
    stored = record {
      listed = (empty_manifest, refl, refl);
      opens = tt;
      replays = log_replays;
      tables_below = tt;
      log_below = (omega arith, tt);
      answers = λ id. refl;
    };
    logging = refl;
    degree_fits = omega arith;
    nodes_fit = (omega arith, tt);
    fresh_number = tt;
    some_number = omega arith;
    some_sequence = omega arith;
    checkpoint_fits = omega arith;
    in_memory = λ id. ground arith;
    keyed = (refl, tt);
    distinct = (refl, tt);
    memory_below = (omega arith, tt);
    memory_storable = (first_version-IsStorable, tt);
    tables_storable = tt;
  },
)

recovering-IsConsistent : IsConsistent recovering
unfolding new_manager load load_tables
recovering-IsConsistent =
    (open_manager-IsConsistent open_device (new_manager options logged_disk) empty_manifest refl
      refl (omega arith) (rw log_replays (omega arith, tt)) recovering-ok).0

recovering-opened : recovering.opened ≡ true
unfolding finish_open publish_read_view
recovering-opened = ap (λ (m : Manager). m.opened) recovering-is

recovering-number : recovering.manifest.next_sequence_id ≡ 2
unfolding finish_open publish_read_view
recovering-number = ap (λ (m : Manager). m.manifest.next_sequence_id) recovering-is

reopened-get_example :
    ((open_manager open_device (new_manager options recovering.disk)).1 ≡ true)
    × IsConsistent (open_manager open_device (new_manager options recovering.disk)).0
    × ((id : ℕ)
        → get (open_manager open_device (new_manager options recovering.disk)).0 id
          ≡ get recovering id)
reopened-get_example =
    reopened-get options open_device refl refl refl recovering recovering-IsConsistent
      (subst IsDurable (sym recovering-is) recovered_state-IsDurable) recovering-opened
      (omega (arith, recovering-number))
