-- ===== src/Graph/PageCodec/Body.antt =====
-- The bytes that the writes of `encode_packed_page` leave, and how many they are.
use agent_aware.Prelude.{
  ℕ, ◌+◌, ◌*◌, ◌<◌, ◌≤◌, ◌≡◌, refl, ap, ◌∙◌, Option, List, [], ◌∷◌, ◌++◌, length, ◌==◌,
  if◌then◌else◌, arith, All, length-append, inl, inr, Bool-cases,
}
use mathlib.Core.Path.{subst}
use agent_aware.BruteForce.{VectorSet, size}
use agent_aware.Graph.PageCodec.{
  PageWrite, page_writes, value_writes, vector_writes, slots, slot_ids, slot_degrees,
  slot_neighbors, slot_codes, row_codes, padded_row,
}
use agent_aware.Graph.PageCodec.Buffer.{
  flat, flat-append, NoThrow, NoThrow-append, NoThrow-value_writes, flat-value_writes, value_bytes,
  length-value_bytes,
}
use agent_aware.Graph.PageCodec.Regions.{
  length-padded_row, length-row_codes, length-slots, length-slot_ids, length-slot_degrees,
}
use agent_aware.Graph.PageCodec.Vectors.{blocks, length-blocks, vector_writes-blocks}

flat_values :
    (w : ℕ) (vs : List ℕ) (rest : List PageWrite) (bytes : List ℕ)
    → flat rest ≡ bytes
    → flat (value_writes w vs ++ rest) ≡ value_bytes w vs ++ bytes
flat_values w vs rest bytes h =
    flat-append (value_writes w vs) rest
    ∙ ap (λ l. l ++ flat rest) (flat-value_writes w vs)
    ∙ ap (λ l. value_bytes w vs ++ l) h

module _ (base : VectorSet) (graph : List (List ℕ)) (degree code_bytes : ℕ) (codes : List ℕ) where
  abbrev pub code_region : List (Option ℕ) → List ℕ
  code_region ss =
      if code_bytes == 0 then [] else value_bytes 1 (slot_codes graph degree code_bytes codes ss)

  -- The bytes of a page, without the zeros behind them.
  abbrev pub page_bytes : ℕ → List ℕ → ℕ → List ℕ
  page_bytes page_id nodes npp =
      let ss = slots npp nodes in
      value_bytes 4 (page_id ∷ length nodes ∷ [])
      ++ (value_bytes 4 (slot_ids ss)
          ++ (value_bytes 4 (slot_degrees graph ss)
              ++ (blocks base ss
                  ++ (value_bytes 4 (slot_neighbors graph degree ss) ++ code_region ss))))

  code_writes-bytes :
      (ss : List (Option ℕ))
      → NoThrow (
          if code_bytes == 0
          then []
          else value_writes 1 (slot_codes graph degree code_bytes codes ss))
        × (flat (
              if code_bytes == 0
              then []
              else value_writes 1 (slot_codes graph degree code_bytes codes ss))
            ≡ code_region ss)
  code_writes-bytes ss = elim (Bool-cases (code_bytes == 0)) [
    | inl none_there ↦ rw none_there (tt, refl)
    | inr there ↦ rw there (
      NoThrow-value_writes 1 (slot_codes graph degree code_bytes codes ss),
      flat-value_writes 1 (slot_codes graph degree code_bytes codes ss),
    )
  ]

  pub page_writes-bytes :
      (page_id : ℕ) (nodes : List ℕ) (npp : ℕ)
      → All (λ id. id < size base) nodes
      → NoThrow (page_writes page_id base graph nodes npp degree code_bytes codes)
        × (flat (page_writes page_id base graph nodes npp degree code_bytes codes)
            ≡ page_bytes page_id nodes npp)
  unfolding page_writes
  page_writes-bytes page_id nodes npp inside =
      let ss : List (Option ℕ) = slots npp nodes in
      let last : List PageWrite =
        if code_bytes == 0
        then []
        else value_writes 1 (slot_codes graph degree code_bytes codes ss) in
      let w4 : List PageWrite = value_writes 4 (slot_neighbors graph degree ss) ++ last in
      let w3 : List PageWrite = vector_writes base ss ++ w4 in
      let w2 : List PageWrite = value_writes 4 (slot_degrees graph ss) ++ w3 in
      let w1 : List PageWrite = value_writes 4 (slot_ids ss) ++ w2 in
      let (safe_last, last_is) = code_writes-bytes ss in
      let (safe, vectors) = vector_writes-blocks base npp nodes inside in
      let s4 =
        NoThrow-append (value_writes 4 (slot_neighbors graph degree ss)) last
          (NoThrow-value_writes 4 (slot_neighbors graph degree ss)) safe_last in
      let s3 = NoThrow-append (vector_writes base ss) w4 safe s4 in
      let s2 =
        NoThrow-append (value_writes 4 (slot_degrees graph ss)) w3
          (NoThrow-value_writes 4 (slot_degrees graph ss)) s3 in
      let b4 = flat_values 4 (slot_neighbors graph degree ss) last (code_region ss) last_is in
      let b3 =
        flat-append (vector_writes base ss) w4
        ∙ ap (λ l. l ++ flat w4) vectors
        ∙ ap (λ l. blocks base ss ++ l) b4 in
      let b2 = flat_values 4 (slot_degrees graph ss) w3 _ b3 in
      let b1 = flat_values 4 (slot_ids ss) w2 _ b2 in
      (
        NoThrow-append (value_writes 4 (slot_ids ss)) w2 (NoThrow-value_writes 4 (slot_ids ss)) s2,
        flat_values 4 (page_id ∷ length nodes ∷ []) w1 _ b1,
      )

  pub length-slot_neighbors :
      (ss : List (Option ℕ)) → length (slot_neighbors graph degree ss) ≡ degree * length ss
  length-slot_neighbors [] = omega arith
  length-slot_neighbors (s ∷ ss) = omega (
    arith,
    length-append (padded_row graph degree s) (slot_neighbors graph degree ss),
    length-padded_row graph degree s,
    length-slot_neighbors ss,
  )

  length-slot_codes :
      (ss : List (Option ℕ))
      → length (slot_codes graph degree code_bytes codes ss) ≡ degree * code_bytes * length ss
  length-slot_codes [] = omega arith
  length-slot_codes (s ∷ ss) =
      let row : length (row_codes code_bytes codes (padded_row graph degree s))
          ≡ degree * code_bytes =
        length-row_codes code_bytes codes (padded_row graph degree s)
        ∙ ap (λ n. n * code_bytes) (length-padded_row graph degree s) in
      omega (
        arith,
        length-append (row_codes code_bytes codes (padded_row graph degree s))
            (slot_codes graph degree code_bytes codes ss),
        row,
        length-slot_codes ss,
      )

  length-code_region :
      (ss : List (Option ℕ)) → length (code_region ss) ≤ degree * code_bytes * length ss
  length-code_region ss = elim (Bool-cases (code_bytes == 0)) [
    | inl none_there ↦ rw none_there (omega arith)
    | inr there ↦ rw there (
        omega (
          arith,
          length-value_bytes 1 (slot_codes graph degree code_bytes codes ss),
          length-slot_codes ss,
        ))
  ]

  pub length-page_bytes :
      (page_id : ℕ) (nodes : List ℕ) (npp : ℕ)
      → All (λ id. id < size base) nodes
      → length (page_bytes page_id nodes npp)
        ≤ 8 + npp * (4 * 2 + base.dim * 4 + degree * 4 + degree * code_bytes)
  length-page_bytes page_id nodes npp inside =
      let ss : List (Option ℕ) = slots npp nodes in
      let header : List ℕ = value_bytes 4 (page_id ∷ length nodes ∷ []) in
      let ids : List ℕ = value_bytes 4 (slot_ids ss) in
      let degrees : List ℕ = value_bytes 4 (slot_degrees graph ss) in
      let neighbors : List ℕ = value_bytes 4 (slot_neighbors graph degree ss) in
      let count : length ss ≡ npp = length-slots npp nodes in
      let l1 : length header ≡ 8 = length-value_bytes 4 (page_id ∷ length nodes ∷ []) in
      let l2 : length ids ≡ 4 * npp =
        omega (arith, length-value_bytes 4 (slot_ids ss), length-slot_ids ss, count) in
      let l3 : length degrees ≡ 4 * npp = omega (
        arith,
        length-value_bytes 4 (slot_degrees graph ss),
        length-slot_degrees graph ss,
        count,
      ) in
      let l4 : length (blocks base ss) ≡ base.dim * 4 * npp = length-blocks base npp nodes inside in
      let l5 : length neighbors ≡ 4 * (degree * npp) =
        length-value_bytes 4 (slot_neighbors graph degree ss)
        ∙ ap (λ n. 4 * n) (length-slot_neighbors ss ∙ ap (λ n. degree * n) count) in
      let l6 : length (code_region ss) ≤ degree * code_bytes * npp =
        subst (λ n. length (code_region ss) ≤ degree * code_bytes * n) count
          (length-code_region ss) in
      let a1 =
        length-append header
          (ids ++ (degrees ++ (blocks base ss ++ (neighbors ++ code_region ss)))) in
      let a2 = length-append ids (degrees ++ (blocks base ss ++ (neighbors ++ code_region ss))) in
      let a3 = length-append degrees (blocks base ss ++ (neighbors ++ code_region ss)) in
      let a4 = length-append (blocks base ss) (neighbors ++ code_region ss) in
      let a5 = length-append neighbors (code_region ss) in
      omega (arith, l1, l2, l3, l4, l5, l6, a1, a2, a3, a4, a5)
