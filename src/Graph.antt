-- ===== src/Graph.antt =====
-- The records of include/graph/disk_graph_index.h that the page codec and the page cache share.
pub mod Cache
pub mod PageCodec
use agent_aware.Prelude.{ℕ, List}

-- `PackedDiskGraphIndex::DiskNode`. Codes are bytes, floats 32-bit patterns.
pub record DiskNode : Type 0 where
  pub id : ℕ
  pub neighbors : List ℕ
  pub neighbor_pq_codes : List ℕ
  pub vector : List ℕ
  pub vector_offset : ℕ

pub record DecodedPage : Type 0 where
  pub page_id : ℕ
  pub bytes : List ℕ
  pub nodes : List DiskNode

pub record DiskGraphMetadata : Type 0 where
  pub vector_count : ℕ
  pub dim : ℕ
  pub degree : ℕ
  pub page_size : ℕ
  pub records_offset : ℕ
  pub directory_offset : ℕ
  pub page_count : ℕ
  pub nodes_per_page : ℕ
  pub neighbor_pq_code_bytes : ℕ
