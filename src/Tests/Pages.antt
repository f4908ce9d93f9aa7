-- ===== src/Tests/Pages.antt =====
-- The packed pages at a small graph.
use agent_aware.Prelude.{ℕ, ◌+◌, ◌*◌, ◌≤◌, ◌<◌, ◌≡◌, some, List, [], ◌∷◌, arith}
use agent_aware.BruteForce.{VectorSet, size}
use agent_aware.Graph.{DecodedPage, DiskGraphMetadata}
use agent_aware.Graph.PageCodec.{
  PqAdcModel, vector_count, pq_code_bytes, encode_packed_page, packed_nodes_per_page,
  graph_record_bytes,
}
use agent_aware.Graph.PageCodec.Decode.{decode_packed_page}
use agent_aware.Graph.PageCodec.Encoded.{IsPackable}
use agent_aware.Graph.PageCodec.RoundTrip.{with_layout, IsPackedAs}
use agent_aware.Graph.PageCodec.Inverse.{
  decode-encode_packed_page, packed_nodes_per_page-graph_record_bytes,
}

-- Three vectors of one float each.
abbrev vectors : VectorSet
vectors = record { dim = 1; values = 7 ∷ 9 ∷ 11 ∷ [] }

abbrev edges : List (List ℕ)
edges = (1 ∷ 2 ∷ []) ∷ (0 ∷ []) ∷ [] ∷ []

abbrev one_byte : PqAdcModel
one_byte = record { subspaces = 1; codes = 5 ∷ 6 ∷ 7 ∷ [] }

abbrev empty_layout : DiskGraphMetadata
empty_layout = record {
  vector_count = 3;
  dim = 0;
  degree = 0;
  page_size = 64;
  records_offset = 64;
  directory_offset = 256;
  page_count = 2;
  nodes_per_page = 0;
  neighbor_pq_code_bytes = 0;
}

two_pages-IsPackable : IsPackable 1 vectors edges (2 ∷ 0 ∷ 1 ∷ []) 2 64 2 (some one_byte)
unfolding size vector_count pq_code_bytes
two_pages-IsPackable = record {
  page_fits = omega arith;
  slots_fit = omega arith;
  degree_fits = omega arith;
  begins = omega arith;
  base_short = omega arith;
  floats = (omega arith, (omega arith, (omega arith, tt)));
  bytes = (omega arith, (omega arith, (omega arith, tt)));
  covered = λ coding. omega arith;
  in_base = (omega arith, tt);
  rows_fit = (record { row_short = omega arith; row_real = (omega arith, tt) }, tt);
  room = omega arith;
}

decode-encode_packed_page_example :
    let layout = with_layout empty_layout 1 2 2 (pq_code_bytes (some one_byte)) in
    (page : List ℕ) × (encode_packed_page 1 vectors edges (2 ∷ 0 ∷ 1 ∷ []) 2 64 2 (some one_byte)
      ≡ some page)
    × (p : DecodedPage) × (decode_packed_page layout 1 page ≡ some p)
    × (p.page_id ≡ 1)
    × (p.bytes ≡ page)
    × IsPackedAs layout p vectors edges (some one_byte) p.nodes (1 ∷ [])
decode-encode_packed_page_example =
    decode-encode_packed_page 1 vectors edges (2 ∷ 0 ∷ 1 ∷ []) 2 64 2 (some one_byte) empty_layout
      two_pages-IsPackable

packed_nodes_per_page-graph_record_bytes_example :
    (graph_record_bytes 1 2 1 ≡ 22)
    × (8 + packed_nodes_per_page 1 2 64 1 * graph_record_bytes 1 2 1 ≤ 64)
    × (64 < 8 + (packed_nodes_per_page 1 2 64 1 + 1) * graph_record_bytes 1 2 1)
packed_nodes_per_page-graph_record_bytes_example =
    packed_nodes_per_page-graph_record_bytes 1 2 64 1 (omega arith) (omega arith)
