-- ===== src/Graph/PageCodec/Decode.antt =====
-- src/graph/disk_page_codec.cpp: decode_packed_page, find_node and vector_data, with `get_bytes` of
-- include/graph/disk_page_codec.h. A call that throws is `none`.
use agent_aware.Prelude.{
  ℕ, zero, suc, ◌+◌, ◌-◌, ◌*◌, not, ◌||◌, Option, none, some, List, [], ◌∷◌, length, take, drop,
  ltb, ◌==◌, if◌then◌else◌,
}
use agent_aware.Bytes.{from_le, words_of}
use agent_aware.Graph.{DiskNode, DecodedPage, DiskGraphMetadata}
use agent_aware.Graph.PageCodec.{no_node, pad}

-- `get_bytes` of a `w`-byte value: the value and the cursor after it.
unfoldable pub get_bytes : ℕ → List ℕ → ℕ → Option (ℕ × ℕ)
get_bytes w page cursor =
    if ltb (length page) (cursor + w)
    then none
    else some (from_le (take w (drop cursor page)), cursor + w)

-- A loop of `n` calls of `get_bytes`.
unfoldable pub get_values : ℕ → ℕ → List ℕ → ℕ → Option (List ℕ × ℕ)
get_values w zero page cursor = some ([], cursor)
get_values w (suc n) page cursor = elim (get_bytes w page cursor) [
  | none ↦ none
  | some (v, c) ↦ elim (get_values w n page c) [ none ↦ none | some (vs, c') ↦ some (v ∷ vs, c') ]
]

-- A loop over the slots whose result counts for the first `count` of them.
abbrev pub keep_slot : {A : Type 0} → ℕ → A → List A × ℕ → List A × ℕ
keep_slot count a (rest, cursor) = (if ltb 0 count then a ∷ rest else rest, cursor)

-- The loop over the vector blocks.
unfoldable pub place_nodes : ℕ → List ℕ → List ℕ → ℕ → ℕ → Option (List DiskNode × ℕ)
place_nodes dim page [] count cursor = some ([], cursor)
place_nodes dim page (id ∷ ids) count cursor =
    let node : DiskNode = record {
      id = id;
      neighbors = [];
      neighbor_pq_codes = [];
      vector = [];
      vector_offset = cursor;
    } in
    let rest = place_nodes dim page ids (count - 1) (cursor + dim * 4) in
    if ltb (length page) (cursor + dim * 4)
    then none
    else elim rest [ none ↦ none | some r ↦ some (keep_slot count node r) ]

-- `neighbor != std::numeric_limits<std::uint32_t>::max()`
abbrev pub real_neighbors : List ℕ → List ℕ
real_neighbors [] = []
real_neighbors (n ∷ ns) = if n == no_node then real_neighbors ns else n ∷ real_neighbors ns

-- The loop over the slots' neighbours, given the slots' degrees.
unfoldable pub read_neighbors : ℕ → List ℕ → List ℕ → ℕ → ℕ → Option (List (List ℕ) × ℕ)
read_neighbors degree page [] count cursor = some ([], cursor)
read_neighbors degree page (d ∷ ds) count cursor = elim (get_values 4 degree page cursor) [
  | none ↦ none
  | some (ns, c) ↦ elim (read_neighbors degree page ds (count - 1) c) [
    | none ↦ none
    | some r ↦ some (keep_slot count (real_neighbors (take d ns)) r)
  ]
]

-- The loop over the slots' codes: a vector of `d * code_bytes` zeros is filled from the front.
unfoldable pub read_codes : ℕ → ℕ → List ℕ → List ℕ → ℕ → ℕ → Option (List (List ℕ) × ℕ)
read_codes degree code_bytes page [] count cursor = some ([], cursor)
read_codes degree code_bytes page (d ∷ ds) count cursor =
    elim (get_values 1 (degree * code_bytes) page cursor) [
      | none ↦ none
      | some (cs, c) ↦ elim (read_codes degree code_bytes page ds (count - 1) c) [
        | none ↦ none
        | some r ↦ some (keep_slot count (pad 0 (d * code_bytes) cs) r)
      ]
    ]

abbrev pub with_neighbors : List DiskNode → List (List ℕ) → List DiskNode
with_neighbors [] rows = []
with_neighbors (n ∷ ns) [] = n ∷ ns
with_neighbors (n ∷ ns) (r ∷ rs) = record n { neighbors = r } ∷ with_neighbors ns rs

abbrev pub with_codes : List DiskNode → List (List ℕ) → List DiskNode
with_codes [] codes = []
with_codes (n ∷ ns) [] = n ∷ ns
with_codes (n ∷ ns) (c ∷ cs) = record n { neighbor_pq_codes = c } ∷ with_codes ns cs

-- The part of `decode_packed_page` behind the header, with the node count.
unfoldable pub decode_slots : DiskGraphMetadata → List ℕ → ℕ → ℕ → Option (List DiskNode)
decode_slots metadata page count cursor =
    let npp = metadata.nodes_per_page in
    elim (get_values 4 npp page cursor) [
      | none ↦ none
      | some (ids, c1) ↦ elim (get_values 4 npp page c1) [
        | none ↦ none
        | some (degrees, c2) ↦ elim (place_nodes metadata.dim page ids count c2) [
          | none ↦ none
          | some (nodes, c3) ↦ elim (read_neighbors metadata.degree page degrees count c3) [
            | none ↦ none
            | some (rows, c4) ↦
                if metadata.neighbor_pq_code_bytes == 0
                then some (with_neighbors nodes rows)
                else elim (read_codes metadata.degree metadata.neighbor_pq_code_bytes page degrees
                    count c4) [
                      | none ↦ none
                      | some (codes, c5) ↦ some (with_codes (with_neighbors nodes rows) codes)
                    ]
          ]
        ]
      ]
    ]

unfoldable pub value_at : List ℕ → ℕ → ℕ
value_at [] i = 0
value_at (v ∷ vs) zero = v
value_at (v ∷ vs) (suc i) = value_at vs i

unfoldable pub decode_packed_page : DiskGraphMetadata → ℕ → List ℕ → Option DecodedPage
decode_packed_page metadata page_id page = elim (get_values 4 2 page 0) [
  | none ↦ none
  | some (header, cursor) ↦
      let found_id = value_at header 0 in
      let node_count = value_at header 1 in
      if not (found_id == page_id) || ltb metadata.nodes_per_page node_count
      then none
      else elim (decode_slots metadata page node_count cursor) [
        | none ↦ none
        | some nodes ↦ some (record { page_id = found_id; bytes = page; nodes = nodes })
      ]
]

-- The loop of `find_node`.
unfoldable pub find_in : List DiskNode → ℕ → Option DiskNode
find_in [] node_id = none
find_in (n ∷ ns) node_id = if n.id == node_id then some n else find_in ns node_id

unfoldable pub find_node : DecodedPage → ℕ → Option DiskNode
find_node page node_id = find_in page.nodes node_id

-- The floats at the pointer that is returned.
unfoldable pub vector_data : DiskGraphMetadata → DecodedPage → DiskNode → Option (List ℕ)
vector_data metadata page node =
    if ltb (length page.bytes) (node.vector_offset + metadata.dim * 4)
    then none
    else some (words_of metadata.dim (drop node.vector_offset page.bytes))
