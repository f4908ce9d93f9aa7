-- ===== src/Graph/PageCodec.antt =====
-- src/graph/disk_page_codec.cpp: the packed pages of the graph, with `put_bytes` of include/graph/disk_page_codec.h.
-- A call that throws is `none`. An index behind the end of `order`, `graph` or the codes is undefined in C++;
-- here the row is empty and the code is 0.
pub mod Decode
pub mod Buffer
pub mod Regions
pub mod Codes
pub mod Vectors
pub mod Body
pub mod Encoded
pub mod RoundTrip
pub mod Inverse
use agent_aware.Prelude.{
  ℕ, zero, suc, ◌+◌, ◌-◌, ◌*◌, ◌/◌, ◌%◌, ◌^◌, Bool, true, false, not, ◌&&◌, ◌||◌, Option, none,
  some, List, [], ◌∷◌, ◌++◌, length, take, drop, ltb, leb, ◌==◌, if◌then◌else◌, min,
}
use agent_aware.Bytes.{le_bytes, le_words, from_le, words_of}
use agent_aware.Records.Checksum.{is_empty}
use agent_aware.BruteForce.{VectorSet, size, row}
use agent_aware.Graph.{DiskNode, DecodedPage, DiskGraphMetadata}

-- `std::numeric_limits<std::uint32_t>::max()`
abbrev pub no_node : ℕ
no_node = 2 ^ 32 - 1

unfoldable pub graph_record_bytes : ℕ → ℕ → ℕ → ℕ
graph_record_bytes dim degree neighbor_pq_code_bytes =
    (4 * 2 + dim * 4 + degree * 4 + degree * neighbor_pq_code_bytes) % 2 ^ 64

-- A division by a size that wraps to 0 is undefined in C++.
unfoldable pub packed_nodes_per_page : ℕ → ℕ → ℕ → ℕ → ℕ
packed_nodes_per_page dim degree page_size neighbor_pq_code_bytes =
    if leb page_size (4 * 2)
    then 0
    else (page_size - 4 * 2)
      / ((4 * 2 + dim * 4 + degree * 4 + degree * neighbor_pq_code_bytes) % 2 ^ 64)

-- What the codec uses of a trained `PqAdcModel`.
pub record PqAdcModel : Type 0 where
  pub subspaces : ℕ
  pub codes : List ℕ

-- `pq_model->vector_count()`
unfoldable pub vector_count : PqAdcModel → ℕ
vector_count pq = if pq.subspaces == 0 then 0 else length pq.codes / pq.subspaces

-- `pq_model != nullptr && pq_model->enabled() ? pq_model->subspaces() : 0`
unfoldable pub pq_code_bytes : Option PqAdcModel → ℕ
pq_code_bytes none = 0
pq_code_bytes (some pq) = if is_empty pq.codes then 0 else pq.subspaces

-- `pq_model->vector_count()`, where there is a model.
abbrev pub covered_vectors : Option PqAdcModel → ℕ
covered_vectors none = 0
covered_vectors (some pq) = vector_count pq

-- A write at the offset of a page: bytes, a gap that keeps what is there, or an exception.
pub data PageWrite : Type 0 where
  put_write : List ℕ → PageWrite
  skip_write : ℕ → PageWrite
  throw_write : PageWrite

-- `put_bytes`: the page and the offset after it.
unfoldable pub put_bytes : List ℕ → List ℕ → ℕ → Option (List ℕ × ℕ)
put_bytes bytes page offset =
    if ltb (length page) (offset + length bytes)
    then none
    else some
        (take offset page ++ (bytes ++ drop (offset + length bytes) page), offset + length bytes)

unfoldable pub put_all : List PageWrite → List ℕ → ℕ → Option (List ℕ × ℕ)
put_all [] page offset = some (page, offset)
put_all (put_write bytes ∷ ws) page offset = elim (put_bytes bytes page offset) [
  | none ↦ none
  | some (page', offset') ↦ put_all ws page' offset'
]
put_all (skip_write n ∷ ws) page offset =
    let rest = put_all ws page (offset + n) in if ltb (length page) (offset + n) then none else rest
put_all (throw_write ∷ ws) page offset = none

-- The slots of a page: its nodes, and `none` behind them.
abbrev pub slots : ℕ → List ℕ → List (Option ℕ)
slots zero nodes = []
slots (suc n) [] = none ∷ slots n []
slots (suc n) (id ∷ nodes) = some id ∷ slots n nodes

abbrev pub row_at : List (List ℕ) → ℕ → List ℕ
row_at [] id = []
row_at (r ∷ rs) zero = r
row_at (r ∷ rs) (suc id) = row_at rs id

-- The first `n` values of a row, filled up by `d`.
abbrev pub pad : ℕ → ℕ → List ℕ → List ℕ
pad d zero xs = []
pad d (suc n) [] = d ∷ pad d n []
pad d (suc n) (x ∷ xs) = x ∷ pad d n xs

-- One `put_bytes` of `w` bytes for each value.
abbrev pub value_writes : ℕ → List ℕ → List PageWrite
value_writes w [] = []
value_writes w (v ∷ vs) = put_write (le_bytes w v) ∷ value_writes w vs

abbrev pub slot_ids : List (Option ℕ) → List ℕ
slot_ids [] = []
slot_ids (none ∷ ss) = no_node ∷ slot_ids ss
slot_ids (some id ∷ ss) = id ∷ slot_ids ss

abbrev pub slot_degrees : List (List ℕ) → List (Option ℕ) → List ℕ
slot_degrees graph [] = []
slot_degrees graph (none ∷ ss) = 0 ∷ slot_degrees graph ss
slot_degrees graph (some id ∷ ss) = length (row_at graph id) % 2 ^ 32 ∷ slot_degrees graph ss

-- The `memcpy` of a row, behind the test of the block.
abbrev pub vector_writes : VectorSet → List (Option ℕ) → List PageWrite
vector_writes base [] = []
vector_writes base (none ∷ ss) = skip_write (base.dim * 4) ∷ vector_writes base ss
vector_writes base (some id ∷ ss) =
    elim (row base id) [ none ↦ throw_write | some r ↦ put_write (le_words (take base.dim r)) ]
    ∷ vector_writes base ss

-- The neighbours that a slot has on the page.
abbrev pub padded_row : List (List ℕ) → ℕ → Option ℕ → List ℕ
padded_row graph degree none = pad no_node degree []
padded_row graph degree (some id) = pad no_node degree (row_at graph id)

abbrev pub slot_neighbors : List (List ℕ) → ℕ → List (Option ℕ) → List ℕ
slot_neighbors graph degree [] = []
slot_neighbors graph degree (s ∷ ss) = padded_row graph degree s ++ slot_neighbors graph degree ss

-- The codes of one neighbour, and of a row of them; `no_node` has none.
abbrev pub neighbor_codes : ℕ → List ℕ → ℕ → List ℕ
neighbor_codes code_bytes codes neighbor =
    if neighbor == no_node
    then pad 0 code_bytes []
    else pad 0 code_bytes (drop (neighbor * code_bytes) codes)

abbrev pub row_codes : ℕ → List ℕ → List ℕ → List ℕ
row_codes code_bytes codes [] = []
row_codes code_bytes codes (n ∷ ns) =
    neighbor_codes code_bytes codes n ++ row_codes code_bytes codes ns

abbrev pub slot_codes : List (List ℕ) → ℕ → ℕ → List ℕ → List (Option ℕ) → List ℕ
slot_codes graph degree code_bytes codes [] = []
slot_codes graph degree code_bytes codes (s ∷ ss) =
    row_codes code_bytes codes (padded_row graph degree s)
    ++ slot_codes graph degree code_bytes codes ss

abbrev pub codes_of : Option PqAdcModel → List ℕ
codes_of none = []
codes_of (some pq) = pq.codes

abbrev pub zero_bytes : ℕ → List ℕ
zero_bytes n = pad 0 n []

-- The nodes of a page: the piece of `order` from `page_id * nodes_per_page` on.
abbrev pub page_nodes : ℕ → List ℕ → ℕ → List ℕ
page_nodes page_id order nodes_per_page =
    let begin = page_id * nodes_per_page in
    let end_ = min (begin + nodes_per_page) (length order) in
    take ((end_ + 2 ^ 64 - begin) % 2 ^ 32) (drop begin order)

-- The writes of `encode_packed_page`, in their order.
unfoldable pub page_writes :
    ℕ → VectorSet → List (List ℕ) → List ℕ → ℕ → ℕ → ℕ → List ℕ → List PageWrite
page_writes page_id base graph nodes nodes_per_page degree code_bytes codes =
    let ss = slots nodes_per_page nodes in
    value_writes 4 (page_id ∷ length nodes ∷ [])
    ++ (value_writes 4 (slot_ids ss)
        ++ (value_writes 4 (slot_degrees graph ss)
            ++ (vector_writes base ss
                ++ (value_writes 4 (slot_neighbors graph degree ss)
                    ++ (if code_bytes == 0
                        then []
                        else value_writes 1 (slot_codes graph degree code_bytes codes ss))))))

unfoldable pub encode_packed_page :
    ℕ → VectorSet → List (List ℕ) → List ℕ → ℕ → ℕ → ℕ → Option PqAdcModel → Option (List ℕ)
encode_packed_page page_id base graph order nodes_per_page page_size degree pq =
    let code_bytes = pq_code_bytes pq in
    let nodes = page_nodes page_id order nodes_per_page in
    if ltb 0 code_bytes && ltb (covered_vectors pq) (size base)
    then none
    else elim (put_all
        (page_writes page_id base graph nodes nodes_per_page degree code_bytes (codes_of pq))
        (zero_bytes page_size) 0) [ none ↦ none | some (page, offset) ↦ some page ]
