-- ===== src/Graph/PageCodec/Inverse.antt =====
-- What `decode_packed_page` makes of the page that `encode_packed_page` returns.
use agent_aware.Prelude.{
  ℕ, ◌+◌, ◌-◌, ◌*◌, ◌%◌, ◌/◌, ◌^◌, ◌<◌, ◌≤◌, ◌≡◌, refl, sym, ap, ◌∙◌, false, not, ◌||◌, Option,
  some, List, [], ◌∷◌, ◌++◌, length, ltb, leb, ◌==◌, arith, inl, inr, Bool-cases, ◌⊎◌,
}
use mathlib.Core.Path.{subst}
use mathlib.Core.Option.{some-injective}
use agent_aware.BruteForce.{VectorSet}
use agent_aware.Graph.{DiskNode, DecodedPage, DiskGraphMetadata}
use agent_aware.Graph.PageCodec.{
  PqAdcModel, pq_code_bytes, codes_of, page_nodes, zero_bytes, slots, encode_packed_page,
  packed_nodes_per_page, graph_record_bytes, row_at,
}
use agent_aware.Graph.PageCodec.Decode.{
  value_at, decode_slots, decode_packed_page, find_in, find_node, vector_data,
}
use agent_aware.Graph.PageCodec.Buffer.{At, value_bytes}
use agent_aware.Graph.PageCodec.Vectors.{base_row, div-mul_le, lt_div_mul}
use agent_aware.Graph.PageCodec.Encoded.{IsPackable, length-page_nodes, encode-page_bytes}
use agent_aware.Graph.PageCodec.Body.{page_bytes}
use agent_aware.Graph.PageCodec.RoundTrip.{
  with_layout, IsPackedAs, values-At, finished, decode_slots-At, finished-IsPackedAs,
}

-- The header of a page: its id and the number of its nodes.
decode-header :
    (metadata : DiskGraphMetadata) (page_id count : ℕ) (page rest : List ℕ)
    → page_id < 2 ^ 32
    → count < 2 ^ 32
    → count ≤ metadata.nodes_per_page
    → At page 0 (value_bytes 4 (page_id ∷ count ∷ []) ++ rest)
    → (nodes : List DiskNode) → decode_slots metadata page count 8 ≡ some nodes
    → decode_packed_page metadata page_id page
      ≡ some (record { page_id = page_id; bytes = page; nodes = nodes })
unfolding value_at decode_packed_page
decode-header metadata page_id count page rest id_fits count_fits le here nodes decoded =
    let (r, h) =
      values-At (page_id ∷ count ∷ []) 2 rest page 0 refl (omega arith, (omega arith, tt)) here in
    let guard : (not (page_id == page_id) || ltb metadata.nodes_per_page count) ≡ false =
      ground arith in
    rw (decode_packed_page, r, guard, decoded) refl

-- Encoding what fits a page (IsPackable) gives a page, and decoding that page, with the layout it has been packed for, gives
-- its id, its bytes, and the nodes of its piece of `order`: in this order, each with its row of the graph as its
-- neighbours, with the codes of these neighbours where there is a model that codes, and with its row of the base
-- set as the vector that `vector_data` finds.
pub decode-encode_packed_page :
    (page_id : ℕ) (base : VectorSet) (graph : List (List ℕ)) (order : List ℕ)
    (nodes_per_page page_size degree : ℕ) (pq : Option PqAdcModel) (metadata : DiskGraphMetadata)
    → IsPackable page_id base graph order nodes_per_page page_size degree pq
    → let layout = with_layout metadata base.dim degree nodes_per_page (pq_code_bytes pq) in
      (page : List ℕ) × (encode_packed_page page_id base graph order nodes_per_page page_size degree
          pq
        ≡ some page)
      × (p : DecodedPage) × (decode_packed_page layout page_id page ≡ some p)
      × (p.page_id ≡ page_id)
      × (p.bytes ≡ page)
      × IsPackedAs layout p base graph pq p.nodes (page_nodes page_id order nodes_per_page)
decode-encode_packed_page page_id base graph order npp page_size degree pq metadata fit =
    let nodes : List ℕ = page_nodes page_id order npp in
    let code_bytes : ℕ = pq_code_bytes pq in
    let body : List ℕ = page_bytes base graph degree code_bytes (codes_of pq) page_id nodes npp in
    let zeros : List ℕ = zero_bytes (page_size - length body) in
    let page : List ℕ = body ++ zeros in
    let layout : DiskGraphMetadata = with_layout metadata base.dim degree npp code_bytes in
    let ss : List (Option ℕ) = slots npp nodes in
    let few : length nodes ≤ npp = length-page_nodes page_id order npp fit.begins fit.slots_fit in
    let here : At page 0 body = ([], zeros, refl, refl) in
    let count_fits : length nodes < 2 ^ 32 = omega (arith, few, fit.slots_fit) in
    let (_, behind) =
      values-At (page_id ∷ length nodes ∷ []) 2 _ page 0 refl
        (omega (arith, fit.page_fits), (omega arith, tt)) here in
    let (slots_read, block) =
      decode_slots-At base graph degree pq metadata page nodes npp few fit.degree_fits fit.floats
        fit.bytes fit.base_short fit.in_base fit.rows_fit 8 behind in
    let c : ℕ = 8 + 4 * npp + 4 * npp in
    let found : List DiskNode =
      finished base graph degree pq metadata page nodes npp few fit.degree_fits fit.floats fit.bytes
        fit.base_short fit.in_base fit.rows_fit c in
    let p : DecodedPage = record { page_id = page_id; bytes = page; nodes = found } in
    let header =
      decode-header layout page_id (length nodes) page _ fit.page_fits count_fits few here found
        slots_read in
    let packed =
      finished-IsPackedAs base graph degree pq metadata page nodes npp few fit.degree_fits
        fit.floats fit.bytes fit.base_short fit.in_base fit.rows_fit p c refl block in
    (
      page,
      encode-page_bytes page_id base graph order npp page_size degree pq fit,
      p,
      header,
      refl,
      refl,
      packed,
    )

-- Where the size of a record does not wrap at 2 ^ 64, `graph_record_bytes` is this size, and a page with room for its
-- header has room for as many records as `packed_nodes_per_page` says, and not for one more.
pub packed_nodes_per_page-graph_record_bytes :
    (dim degree page_size code_bytes : ℕ)
    → 8 ≤ page_size
    → 8 + dim * 4 + degree * 4 + degree * code_bytes < 2 ^ 64
    → let n = packed_nodes_per_page dim degree page_size code_bytes in
      (graph_record_bytes dim degree code_bytes ≡ 8 + dim * 4 + degree * 4 + degree * code_bytes)
      × (8 + n * graph_record_bytes dim degree code_bytes ≤ page_size)
      × (page_size < 8 + (n + 1) * graph_record_bytes dim degree code_bytes)
unfolding packed_nodes_per_page graph_record_bytes
packed_nodes_per_page-graph_record_bytes dim degree page_size code_bytes header small =
    let d : ℕ = 8 + dim * 4 + degree * 4 + degree * code_bytes in
    let size : d % 2 ^ 64 ≡ d = omega (arith, small) in
    let fits : (page_size - 8) / d * d ≤ page_size - 8 =
      div-mul_le (page_size - 8) d (omega arith) in
    let no_more : page_size - 8 < ((page_size - 8) / d + 1) * d =
      lt_div_mul (page_size - 8) d (omega arith) in
    elim (Bool-cases (leb page_size 8)) [
      | inl tight ↦ rw (tight, size) (refl, omega arith, ground (arith, tight))
      | inr large ↦ rw (large, size) (refl, omega (arith, fits), omega (arith, no_more))
    ]

-- The list has the number.
abbrev pub IsAmong : ℕ → List ℕ → Type 0
IsAmong id [] = ⊥
IsAmong id (x ∷ ids) = (x ≡ id) ⊎ IsAmong id ids

find_in-IsPackedAs :
    (layout : DiskGraphMetadata) (p : DecodedPage) (base : VectorSet) (graph : List (List ℕ))
    (pq : Option PqAdcModel) (found : List DiskNode) (ids : List ℕ) (id : ℕ)
    → IsPackedAs layout p base graph pq found ids
    → IsAmong id ids
    → (n : DiskNode) × (find_in found id ≡ some n)
      × (n.id ≡ id)
      × (n.neighbors ≡ row_at graph id)
      × (vector_data layout p n ≡ some (base_row base id))
unfolding find_in
find_in-IsPackedAs layout p base graph pq [] [] id h m = elim m [ ]
find_in-IsPackedAs layout p base graph pq [] (x ∷ ids) id h m = elim h [ ]
find_in-IsPackedAs layout p base graph pq (n ∷ found) [] id h m = elim h [ ]
find_in-IsPackedAs layout p base graph pq (n ∷ found) (x ∷ ids) id (same, rows, codes, vector, rest)
      m =
    elim (Bool-cases (n.id == id)) [
      | inl hit ↦
          let this : x ≡ id = ground (arith, same, hit) in
          rw hit (
            n,
            refl,
            ground (arith, hit),
            rows ∙ ap (row_at graph) this,
            vector ∙ ap (λ i. some (base_row base i)) this,
          )
      | inr miss ↦ rw miss (elim m [
        | inl this ↦ absurd (ground (arith, same, this, miss))
        | inr later ↦ find_in-IsPackedAs layout p base graph pq found ids id rest later
      ])
    ]

-- On a page that is decoded from what has been encoded, `find_node` finds every node of its piece of `order`, and
-- the node that it finds has this id, its row of the graph as its neighbours, and its row of the base set as the
-- vector that `vector_data` finds.
pub find_node-encode_packed_page :
    (page_id : ℕ) (base : VectorSet) (graph : List (List ℕ)) (order : List ℕ)
    (nodes_per_page page_size degree : ℕ) (pq : Option PqAdcModel) (metadata : DiskGraphMetadata)
    (page : List ℕ) (p : DecodedPage) (id : ℕ)
    → IsPackable page_id base graph order nodes_per_page page_size degree pq
    → encode_packed_page page_id base graph order nodes_per_page page_size degree pq ≡ some page
    → decode_packed_page
        (with_layout metadata base.dim degree nodes_per_page (pq_code_bytes pq))
        page_id
        page
      ≡ some p
    → IsAmong id (page_nodes page_id order nodes_per_page)
    → (n : DiskNode) × (find_node p id ≡ some n)
      × (n.id ≡ id)
      × (n.neighbors ≡ row_at graph id)
      × (vector_data (with_layout metadata base.dim degree nodes_per_page (pq_code_bytes pq)) p n
          ≡ some (base_row base id))
unfolding find_node
find_node-encode_packed_page page_id base graph order npp page_size degree pq metadata page p id fit
      encoded decoded on =
    let layout : DiskGraphMetadata = with_layout metadata base.dim degree npp (pq_code_bytes pq) in
    let (page', encoded', p', decoded', _, _, packed) =
      decode-encode_packed_page page_id base graph order npp page_size degree pq metadata fit in
    let same_page : page' ≡ page = some-injective page' page (sym encoded' ∙ encoded) in
    let same : p' ≡ p =
      some-injective p' p
        (sym decoded' ∙ ap (decode_packed_page layout page_id) same_page ∙ decoded) in
    find_in-IsPackedAs layout p base graph pq p.nodes (page_nodes page_id order npp) id
      (subst (λ q. IsPackedAs layout q base graph pq q.nodes (page_nodes page_id order npp)) same
        packed)
      on
