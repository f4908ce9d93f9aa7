-- ===== src/MemTable.antt =====
-- src/dynamic/memtable.cpp: the table of the newest version of each node since the last flush.
-- The mutex of the class is not modelled: each method is one step.
pub mod Accounting
use agent_aware.Prelude.{
  ℕ, zero, suc, ◌+◌, ◌-◌, ◌*◌, ◌/◌, ◌%◌, ◌^◌, ◌<◌, ◌≤◌, ◌≡◌, ◌≢◌, refl, sym, ap, ◌∙◌, Bool, true,
  false, not, ◌&&◌, ◌||◌, Option, none, some, List, [], ◌∷◌, ◌++◌, append_assoc, append-nil, length,
  All, leb, ltb, ◌==◌, if◌then◌else◌, arith, length-append, take, drop, length-take,
  take-append-drop, length-drop, Bool-cases, Option-cases, inl, inr, min, max, ◌⊎◌, ◌↔◌,
}
use agent_aware.Prelude.Assoc.{find, put, values}
use agent_aware.Records.{DynamicRecord}
use agent_aware.History.{RecordMap}

-- `sizeof(DynamicRecord)` of a 64-bit build: 16 bytes of numbers, two vectors of 24, the flag padded.
abbrev pub sizeof_record : ℕ
sizeof_record = 72

abbrev pub size_mod : ℕ
size_mod = 2 ^ 64

unfoldable pub estimate_record_bytes : DynamicRecord → ℕ
estimate_record_bytes r = sizeof_record + length r.vector * 4 + length r.neighbors * 4

pub record MemTable : Type 0 where
  pub flush_threshold_bytes : ℕ
  pub current_bytes : ℕ
  pub records : RecordMap

abbrev pub fresh : ℕ → MemTable
fresh threshold = record { flush_threshold_bytes = threshold; current_bytes = 0; records = [] }

-- `current_bytes_` is a `size_t`, whose sums and differences wrap.
unfoldable pub insert : MemTable → DynamicRecord → MemTable × Bool
insert t r = elim (find r.node_id t.records) [
  | some q ↦ if leb r.sequence_id q.sequence_id then (t, false) else (
    record t {
      current_bytes =
          ((t.current_bytes + size_mod - estimate_record_bytes q) % size_mod
            + estimate_record_bytes r)
          % size_mod;
      records = put r.node_id r t.records;
    },
    true,
  )
  | none ↦ (
    record t {
      current_bytes = (t.current_bytes + estimate_record_bytes r) % size_mod;
      records = put r.node_id r t.records;
    },
    true,
  )
]

unfoldable pub get : MemTable → ℕ → Option DynamicRecord
get t id = find id t.records

unfoldable pub snapshot : MemTable → List DynamicRecord
snapshot t = values t.records

unfoldable pub clear : MemTable → MemTable
clear t = record t { current_bytes = 0; records = [] }

unfoldable pub should_flush : MemTable → Bool
should_flush t = leb t.flush_threshold_bytes t.current_bytes
