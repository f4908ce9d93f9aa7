-- ===== src/Graph/PageCodec/RoundTrip.antt =====
-- The parts of `decode_packed_page` on the page that `encode_packed_page` returns.
use agent_aware.Prelude.{
  ℕ, zero, suc, ◌+◌, ◌*◌, ◌^◌, ◌<◌, ◌≤◌, ◌≡◌, refl, ap, ◌∙◌, true, false, Option, some, List, [],
  ◌∷◌, ◌++◌, length, ◌==◌, if◌then◌else◌, arith, All, All-imp, inl, inr, Bool-cases,
}
use mathlib.Core.Path.{subst}
use agent_aware.Bytes.{IsU32, le_words}
use agent_aware.BruteForce.{VectorSet, size}
use agent_aware.Graph.{DiskNode, DecodedPage, DiskGraphMetadata}
use agent_aware.Graph.PageCodec.{
  PqAdcModel, pq_code_bytes, codes_of, slots, slot_ids, slot_degrees, slot_neighbors, slot_codes,
  row_at, row_codes,
}
use agent_aware.Graph.PageCodec.Decode.{
  get_values, with_neighbors, with_codes, decode_slots, vector_data,
}
use agent_aware.Graph.PageCodec.Buffer.{
  At, At-front, At-back, value_bytes, length-value_bytes, get_values-At,
}
use agent_aware.Graph.PageCodec.Regions.{
  RowFits, length-slots, length-slot_ids, length-slot_degrees, rows, read_neighbors-At,
}
use agent_aware.Graph.PageCodec.Codes.{codes_of_rows, read_codes-At}
use agent_aware.Graph.PageCodec.Vectors.{
  base_row, blocks, length-blocks, placed, block-At, place_nodes-At, vector_data-At,
}
use agent_aware.Graph.PageCodec.Body.{code_region, length-slot_neighbors}

-- The metadata of an index with the layout of a page.
abbrev pub with_layout : DiskGraphMetadata → ℕ → ℕ → ℕ → ℕ → DiskGraphMetadata
with_layout metadata dim degree nodes_per_page code_bytes = record metadata {
  dim = dim;
  degree = degree;
  nodes_per_page = nodes_per_page;
  neighbor_pq_code_bytes = code_bytes;
}

-- The nodes of a decoded page are those given: ids, rows of the graph, codes of the neighbours, and vectors.
abbrev pub IsPackedAs :
    DiskGraphMetadata
    → DecodedPage
    → VectorSet
    → List (List ℕ)
    → Option PqAdcModel
    → List DiskNode
    → List ℕ
    → Type 0
IsPackedAs metadata p base graph pq [] [] = Unit
IsPackedAs metadata p base graph pq [] (id ∷ ids) = ⊥
IsPackedAs metadata p base graph pq (n ∷ ns) [] = ⊥
IsPackedAs metadata p base graph pq (n ∷ ns) (id ∷ ids) =
    (n.id ≡ id)
    × (n.neighbors ≡ row_at graph id)
    × (n.neighbor_pq_codes ≡ (
        if pq_code_bytes pq == 0
        then []
        else row_codes (pq_code_bytes pq) (codes_of pq) (row_at graph id)))
    × (vector_data metadata p n ≡ some (base_row base id))
    × IsPackedAs metadata p base graph pq ns ids

pub values-At :
    (vs : List ℕ) (n : ℕ) (rest page : List ℕ) (c : ℕ)
    → length vs ≡ n
    → All (λ v. v < 256 ^ 4) vs
    → At page c (value_bytes 4 vs ++ rest)
    → (get_values 4 n page c ≡ some (vs, c + 4 * n)) × At page (c + 4 * n) rest
values-At vs n rest page c count small here =
    let step : c + length (value_bytes 4 vs) ≡ c + 4 * n =
      omega (arith, length-value_bytes 4 vs, count) in
    (
      subst (λ k. get_values 4 k page c ≡ some (vs, c + 4 * k)) count
          (get_values-At 4 vs page c small (At-front page c (value_bytes 4 vs) rest here)),
      subst (λ j. At page j rest) step (At-back page c (value_bytes 4 vs) rest here),
    )

slot_ids-small :
    (npp : ℕ) (nodes : List ℕ)
    → All (λ id. id < 2 ^ 32) nodes
    → All (λ v. v < 256 ^ 4) (slot_ids (slots npp nodes))
slot_ids-small zero nodes h = tt
slot_ids-small (suc n) [] h = (omega arith, slot_ids-small n [] tt)
slot_ids-small (suc n) (id ∷ nodes) (small, h) = (omega arith, slot_ids-small n nodes h)

slot_degrees-small :
    (graph : List (List ℕ)) (npp : ℕ) (nodes : List ℕ)
    → All (λ v. v < 256 ^ 4) (slot_degrees graph (slots npp nodes))
slot_degrees-small graph zero nodes = tt
slot_degrees-small graph (suc n) [] = (omega arith, slot_degrees-small graph n [])
slot_degrees-small graph (suc n) (id ∷ nodes) = (omega arith, slot_degrees-small graph n nodes)

module _ (base : VectorSet) (graph : List (List ℕ)) (degree : ℕ) (pq : Option PqAdcModel)
    (metadata : DiskGraphMetadata) (page nodes : List ℕ) (npp : ℕ) (few : length nodes ≤ npp)
    (degree_fits : degree < 2 ^ 32) (floats : All IsU32 base.values)
    (bytes : All (λ x. x < 256) (codes_of pq)) (base_short : size base ≤ 2 ^ 32)
    (in_base : All (λ id. id < size base) nodes) (rows_fit : All (RowFits graph degree) nodes) where
  abbrev pub layout : DiskGraphMetadata
  layout = with_layout metadata base.dim degree npp (pq_code_bytes pq)

  abbrev pub ss : List (Option ℕ)
  ss = slots npp nodes

  -- The nodes behind all loops.
  abbrev pub finished : ℕ → List DiskNode
  finished c =
      if pq_code_bytes pq == 0
      then with_neighbors (placed base.dim nodes c) (rows graph page degree nodes)
      else with_codes (with_neighbors (placed base.dim nodes c) (rows graph page degree nodes))
          (codes_of_rows graph page degree (pq_code_bytes pq) (codes_of pq) bytes nodes)

  pub decode_slots-At :
      (c : ℕ)
      → At page c (
          value_bytes 4 (slot_ids ss)
          ++ (value_bytes 4 (slot_degrees graph ss)
              ++ (blocks base ss
                  ++ (value_bytes 4 (slot_neighbors graph degree ss)
                      ++ code_region base graph degree (pq_code_bytes pq) (codes_of pq) ss))))
      → decode_slots layout page (length nodes) c ≡ some (finished (c + 4 * npp + 4 * npp))
        × At page (c + 4 * npp + 4 * npp) (blocks base ss)
  unfolding decode_slots
  decode_slots-At c here =
      let ids_count : length (slot_ids ss) ≡ npp = length-slot_ids ss ∙ length-slots npp nodes in
      let degrees_count : length (slot_degrees graph ss) ≡ npp =
        length-slot_degrees graph ss ∙ length-slots npp nodes in
      let ids_fit : All (λ v. v < 256 ^ 4) (slot_ids ss) =
        slot_ids-small npp nodes (All-imp _ _ nodes (λ id lt. omega (arith, base_short)) in_base) in
      let codes : List ℕ = code_region base graph degree (pq_code_bytes pq) (codes_of pq) ss in
      let neighbors : List ℕ = value_bytes 4 (slot_neighbors graph degree ss) in
      let (r1, h1) = values-At (slot_ids ss) npp _ page c ids_count ids_fit here in
      let (r2, h2) =
        values-At (slot_degrees graph ss) npp _ page (c + 4 * npp) degrees_count
          (slot_degrees-small graph npp nodes) h1 in
      let c2 : ℕ = c + 4 * npp + 4 * npp in
      let first : At page c2 (blocks base ss) =
        At-front page c2 (blocks base ss) (neighbors ++ codes) h2 in
      let r3 = place_nodes-At base page floats npp nodes c2 few in_base first in
      let c3 : ℕ = c2 + base.dim * 4 * npp in
      let step3 : c2 + length (blocks base ss) ≡ c3 =
        omega (arith, length-blocks base npp nodes in_base) in
      let h3 : At page c3 (neighbors ++ codes) =
        subst (λ j. At page j (neighbors ++ codes)) step3
          (At-back page c2 (blocks base ss) (neighbors ++ codes) h2) in
      let r4 =
        read_neighbors-At graph page degree npp nodes c3 few degree_fits rows_fit
          (At-front page c3 neighbors codes h3) in
      elim (Bool-cases (pq_code_bytes pq == 0)) [
        | inl no_codes ↦ (rw (r1, decode_slots, r2, r3, r4, no_codes) refl, first)
        | inr some_codes ↦
            let c4 : ℕ = c3 + 4 * degree * npp in
            let total : length neighbors ≡ 4 * (degree * npp) =
              length-value_bytes 4 (slot_neighbors graph degree ss)
              ∙ ap (λ n. 4 * n)
                  (length-slot_neighbors base graph degree (pq_code_bytes pq) (codes_of pq) ss
                    ∙ ap (λ n. degree * n) (length-slots npp nodes)) in
            let step4 : c3 + length neighbors ≡ c4 = omega (arith, total) in
            let h4 : At page c4 codes =
              subst (λ j. At page j codes) step4 (At-back page c3 neighbors codes h3) in
            let there : codes
                ≡ value_bytes 1 (slot_codes graph degree (pq_code_bytes pq) (codes_of pq) ss) =
              ap
                (λ b.
                  if b
                  then []
                  else value_bytes 1 (slot_codes graph degree (pq_code_bytes pq) (codes_of pq) ss))
                some_codes in
            let (c5, r5) =
              read_codes-At graph page degree (pq_code_bytes pq) (codes_of pq) bytes npp nodes c4
                few degree_fits rows_fit (subst (At page c4) there h4) in
            (rw (r1, decode_slots, r2, r3, r4, some_codes, r5) refl, first)
      ]

  -- Each of the finished nodes is the node of its slot.
  placed-IsPackedAs :
      (p : DecodedPage) (n : ℕ) (ids : List ℕ) (c : ℕ)
      → p.bytes ≡ page
      → All (λ id. id < size base) ids
      → length ids ≤ n
      → At page c (blocks base (slots n ids))
      → (pq_code_bytes pq == 0 ≡ true
          → IsPackedAs layout p base graph pq
              (with_neighbors (placed base.dim ids c) (rows graph page degree ids))
              ids)
        × (pq_code_bytes pq == 0 ≡ false
            → IsPackedAs layout p base graph pq
                (with_codes
                  (with_neighbors (placed base.dim ids c) (rows graph page degree ids))
                  (codes_of_rows graph page degree (pq_code_bytes pq) (codes_of pq) bytes ids))
                ids)
  placed-IsPackedAs p n [] c same inside le here = (λ z. tt, λ z. tt)
  placed-IsPackedAs p zero (id ∷ ids) c same inside le here = absurd (omega arith)
  placed-IsPackedAs p (suc n) (id ∷ ids) c same (small, inside) le here =
      let (room, behind) =
        block-At base page floats (some id) (blocks base (slots n ids)) c small here in
      let (plain, coded) =
        placed-IsPackedAs p n ids (c + base.dim * 4) same inside (omega arith) behind in
      let mine : At page c (le_words (base_row base id)) =
        At-front page c (le_words (base_row base id)) (blocks base (slots n ids)) here in
      (
        λ z. (
          refl,
          refl,
          rw z refl,
          vector_data-At base page floats layout p _ id refl same small mine,
          plain z,
        ),
        λ z. (
          refl,
          refl,
          rw z refl,
          vector_data-At base page floats layout p _ id refl same small mine,
          coded z,
        ),
      )

  pub finished-IsPackedAs :
      (p : DecodedPage) (c : ℕ)
      → p.bytes ≡ page
      → At page c (blocks base ss)
      → IsPackedAs layout p base graph pq (finished c) nodes
  finished-IsPackedAs p c same here =
      let (plain, coded) = placed-IsPackedAs p npp nodes c same in_base few here in
      elim (Bool-cases (pq_code_bytes pq == 0)) [
        | inl none_there ↦ rw none_there (plain none_there)
        | inr there ↦ rw there (coded there)
      ]
