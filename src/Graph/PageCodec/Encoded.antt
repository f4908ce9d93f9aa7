-- ===== src/Graph/PageCodec/Encoded.antt =====
-- The page that `encode_packed_page` returns where everything fits.
use agent_aware.Prelude.{
  ℕ, ◌+◌, ◌-◌, ◌*◌, ◌%◌, ◌^◌, ◌<◌, ◌≤◌, ◌≡◌, refl, sym, ap, ◌∙◌, false, ◌&&◌, Option, some, List,
  [], ◌++◌, length, drop, ltb, arith, All, length-take, min, inl, inr, Bool-cases,
}
use mathlib.Core.Path.{subst}
use agent_aware.Bytes.{IsU32}
use agent_aware.BruteForce.{VectorSet, size}
use agent_aware.Graph.PageCodec.{
  PageWrite, PqAdcModel, pq_code_bytes, codes_of, covered_vectors, page_nodes, page_writes, put_all,
  zero_bytes, encode_packed_page,
}
use agent_aware.Graph.PageCodec.Buffer.{flat, put_all-flat, written}
use agent_aware.Graph.PageCodec.Regions.{RowFits}
use agent_aware.Graph.PageCodec.Body.{page_bytes, page_writes-bytes, length-page_bytes}

-- What a page must be given: nodes of the base set whose rows fit the degree, values that fit their fields,
-- codes for all vectors, and a page with room for all slots.
pub record IsPackable (page_id : ℕ) (base : VectorSet) (graph : List (List ℕ)) (order : List ℕ)
    (nodes_per_page page_size degree : ℕ) (pq : Option PqAdcModel) : Type 0 where
  pub page_fits : page_id < 2 ^ 32
  pub slots_fit : nodes_per_page < 2 ^ 32
  pub degree_fits : degree < 2 ^ 32
  pub begins : page_id * nodes_per_page ≤ length order
  pub base_short : size base ≤ 2 ^ 32
  pub floats : All IsU32 base.values
  pub bytes : All (λ x. x < 256) (codes_of pq)
  pub covered : 0 < pq_code_bytes pq → size base ≤ covered_vectors pq
  pub in_base : All (λ id. id < size base) (page_nodes page_id order nodes_per_page)
  pub rows_fit : All (RowFits graph degree) (page_nodes page_id order nodes_per_page)
  pub room :
      8 + nodes_per_page * (4 * 2 + base.dim * 4 + degree * 4 + degree * pq_code_bytes pq)
      ≤ page_size

pub length-page_nodes :
    (page_id : ℕ) (order : List ℕ) (nodes_per_page : ℕ)
    → page_id * nodes_per_page ≤ length order
    → nodes_per_page < 2 ^ 32
    → length (page_nodes page_id order nodes_per_page) ≤ nodes_per_page
length-page_nodes page_id order nodes_per_page begins small =
    let begin : ℕ = page_id * nodes_per_page in
    let count : ((min (begin + nodes_per_page) (length order) + 2 ^ 64 - begin) % 2 ^ 32)
        ≤ nodes_per_page =
      omega (arith, begins, small) in
    omega (
      arith,
      count,
      length-take ((min (begin + nodes_per_page) (length order) + 2 ^ 64 - begin) % 2 ^ 32)
          (drop begin order),
    )

covered_guard :
    (base : VectorSet) (pq : Option PqAdcModel)
    → (0 < pq_code_bytes pq → size base ≤ covered_vectors pq)
    → (ltb 0 (pq_code_bytes pq) && ltb (covered_vectors pq) (size base)) ≡ false
covered_guard base pq h = elim (Bool-cases (ltb 0 (pq_code_bytes pq))) [
  | inl coding ↦ let enough = h (ground (arith, coding)) in ground arith
  | inr plain ↦ rw plain refl
]

-- The page, behind the guards.
pub encode-page_bytes :
    (page_id : ℕ) (base : VectorSet) (graph : List (List ℕ)) (order : List ℕ)
    (nodes_per_page page_size degree : ℕ) (pq : Option PqAdcModel)
    → IsPackable page_id base graph order nodes_per_page page_size degree pq
    → encode_packed_page page_id base graph order nodes_per_page page_size degree pq
      ≡ some (
          let bytes =
            page_bytes base graph degree
              (pq_code_bytes pq)
              (codes_of pq)
              page_id
              (page_nodes page_id order nodes_per_page)
              nodes_per_page in
          bytes ++ zero_bytes (page_size - length bytes))
unfolding encode_packed_page
encode-page_bytes page_id base graph order nodes_per_page page_size degree pq p =
    let nodes : List ℕ = page_nodes page_id order nodes_per_page in
    let code_bytes : ℕ = pq_code_bytes pq in
    let bytes : List ℕ =
      page_bytes base graph degree code_bytes (codes_of pq) page_id nodes nodes_per_page in
    let ws : List PageWrite =
      page_writes page_id base graph nodes nodes_per_page degree code_bytes (codes_of pq) in
    let (safe, same) =
      page_writes-bytes base graph degree code_bytes (codes_of pq) page_id nodes nodes_per_page
        p.in_base in
    let short : length bytes ≤ page_size = omega (
      arith,
      length-page_bytes base graph degree code_bytes (codes_of pq) page_id nodes nodes_per_page
          p.in_base,
      p.room,
    ) in
    let fits : length (flat ws) ≤ page_size =
      subst (λ (l : List ℕ). length l ≤ page_size) (sym same) short in
    let done : put_all ws (zero_bytes page_size) 0 ≡ written bytes (page_size - length bytes) =
      put_all-flat ws [] page_size safe fits
      ∙ ap (λ (l : List ℕ). written l (page_size - length l)) same in
    rw (covered_guard base pq p.covered, done) refl
