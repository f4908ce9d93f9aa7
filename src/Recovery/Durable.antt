-- ===== src/Recovery/Durable.antt =====
-- The relation between a manager and its disk that makes a crash harmless.
use agent_aware.Prelude.{ℕ, ◌-◌, ◌^◌, ◌<◌, ◌≤◌, ◌≡◌, true, Option, none, some, List, All}
use agent_aware.Prelude.Assoc.{find, values}
use agent_aware.Bytes.{IsU32}
use agent_aware.Records.{DynamicRecord, IsStorable}
use agent_aware.Wal.{replay}
use agent_aware.History.{latest_scan}
use agent_aware.History.Newest.{newer}
use agent_aware.History.Order.{IsKeyed, DistinctKeys}
use agent_aware.SsTable.{SsTableReader}
use agent_aware.Manifest.{ManifestData, ManifestSsTableEntry, load}
use agent_aware.Manager.State.{Disk, Manager, u64_mod, before}
use agent_aware.Recovery.Tables.{Opens, scans, Bounded}

-- The newest version of a node, of any age.
abbrev pub newest : List DynamicRecord → ℕ → Option DynamicRecord
newest rs id = latest_scan rs id (u64_mod - 1) none

abbrev pub AllBelow : ℕ → List DynamicRecord → Type 0
AllBelow next rs = All (λ (r : DynamicRecord). r.sequence_id < next) rs

-- The disk has the tables `ts` of the entries `es`, and a log that replays to `log`; together they
-- hold the newest versions of `recent`, and none at or above `next`.
pub record IsStored (disk : Disk) (es : List ManifestSsTableEntry) (ts : List SsTableReader)
    (recent log : List DynamicRecord) (next : ℕ) : Type 0 where
  pub listed : (d : ManifestData) × (load disk.manifest_file ≡ some d) × (d.sstables ≡ es)
  pub opens : Opens disk.table_files es ts
  pub replays : replay disk.wal_file ≡ log
  pub tables_below : Bounded (before next) ts
  pub log_below : AllBelow next log
  pub answers : (id : ℕ) → newer (newest (scans ts) id) (newest log id) ≡ newest recent id

-- The disk is as `IsStored` says, and the table in memory holds all that is newer than the tables.
pub record IsDurableWith (m : Manager) (log : List DynamicRecord) : Type 0 where
  pub stored :
      IsStored m.disk m.manifest.sstables m.sstables m.recent_records log
        m.manifest.next_sequence_id
  pub logging : m.options.enable_wal ≡ true
  pub degree_fits : m.options.dynamic_graph_degree ≤ 2 ^ 26
  pub nodes_fit : All (λ (r : DynamicRecord). IsU32 r.node_id) m.recent_records
  pub fresh_number :
      All
        (λ (e : ManifestSsTableEntry). e.base_path < m.manifest.next_sstable_id)
        m.manifest.sstables
  pub some_number : 0 < m.manifest.next_sstable_id
  pub some_sequence : 0 < m.manifest.next_sequence_id
  pub checkpoint_fits : m.manifest.wal_checkpoint < 2 ^ 63
  pub in_memory :
      (id : ℕ)
      → newer (newest (scans m.sstables) id) (find id m.memtable.records)
        ≡ newest m.recent_records id
  pub keyed : IsKeyed m.memtable.records
  pub distinct : DistinctKeys m.memtable.records
  pub memory_below : AllBelow m.manifest.next_sequence_id (values m.memtable.records)
  pub memory_storable : All IsStorable (values m.memtable.records)
  pub tables_storable : All IsStorable (scans m.sstables)

abbrev pub IsDurable : Manager → Type 0
IsDurable m = (log : List DynamicRecord) × IsDurableWith m log
