-- ===== src/Records.antt =====
-- include/dynamic/dynamic_record.h: the record of the dynamic layer, and its checksum as
-- src/dynamic/wal.cpp and src/dynamic/sstable.cpp both compute it.
pub mod Checksum
use agent_aware.Prelude.{ℕ, ◌*◌, ◌≤◌, ◌<◌, ◌≡◌, ◌^◌, Bool, List, length, All}
use agent_aware.Bytes.{IsU32, IsU64}

-- A float of the vector is its 32-bit pattern.
pub record DynamicRecord : Type 0 where
  pub sequence_id : ℕ
  pub node_id : ℕ
  pub dim : ℕ
  pub vector : List ℕ
  pub neighbors : List ℕ
  pub deleted : Bool

-- The values fit the C++ fields' types, and the payload the readers' limit of 512 MB.
pub record IsStorable (r : DynamicRecord) : Type 0 where
  pub sequence_fits : IsU64 r.sequence_id
  pub node_fits : IsU32 r.node_id
  pub dim_is_size : r.dim ≡ length r.vector
  pub vector_fits : All IsU32 r.vector
  pub neighbors_fit : All IsU32 r.neighbors
  pub vector_short : length r.vector ≤ 2 ^ 26
  pub neighbors_short : length r.neighbors ≤ 2 ^ 26
