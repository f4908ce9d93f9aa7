-- ===== src/Graph/PageCodec/Codes.antt =====
-- Reading back the quantized codes of a packed page.
use agent_aware.Prelude.{
  ℕ, zero, suc, ◌+◌, ◌-◌, ◌*◌, ◌%◌, ◌^◌, ◌<◌, ◌≤◌, ◌≡◌, refl, ap, ◌∙◌, true, Option, none, some,
  List, [], ◌∷◌, ◌++◌, length, drop, ltb, ◌==◌, arith, All, All-append, All-drop, inl, inr,
  Bool-cases,
}
use mathlib.Core.Path.{subst}
use agent_aware.Graph.PageCodec.{
  no_node, slots, row_at, slot_degrees, padded_row, neighbor_codes, row_codes, slot_codes,
}
use agent_aware.Graph.PageCodec.Decode.{get_values, read_codes}
use agent_aware.Graph.PageCodec.Buffer.{
  At, At-front, At-back, value_bytes, value_bytes-append, length-value_bytes, get_values-At,
}
use agent_aware.Graph.PageCodec.Regions.{
  RowFits, All-pad, pad-row, length-padded_row, length-row_codes,
}

module _ (graph : List (List ℕ)) (page : List ℕ) (degree code_bytes : ℕ) (codes : List ℕ)
    (bytes : All (λ x. x < 256) codes) where
  row_codes-bytes : (ns : List ℕ) → All (λ x. x < 256 ^ 1) (row_codes code_bytes codes ns)
  row_codes-bytes [] = tt
  row_codes-bytes (n ∷ ns) =
      All-append _ (neighbor_codes code_bytes codes n) (row_codes code_bytes codes ns)
        (elim (Bool-cases (n == no_node)) [
          | inl none_there ↦ rw none_there (All-pad (256 ^ 1) 0 code_bytes [] (omega arith) tt)
          | inr real ↦ rw real (
              All-pad (256 ^ 1) 0 code_bytes (drop (n * code_bytes) codes) (omega arith)
                (All-drop (λ x. x < 256) (n * code_bytes) codes bytes))
        ])
        (row_codes-bytes ns)

  -- The codes of the nodes' rows.
  abbrev pub codes_of_rows : List ℕ → List (List ℕ)
  codes_of_rows [] = []
  codes_of_rows (id ∷ nodes) = row_codes code_bytes codes (row_at graph id) ∷ codes_of_rows nodes

  slot-At :
      (s : Option ℕ) (rest : List ℕ) (c : ℕ)
      → At page c (value_bytes 1 (row_codes code_bytes codes (padded_row graph degree s) ++ rest))
      → (get_values 1 (degree * code_bytes) page c
          ≡ some (row_codes code_bytes codes (padded_row graph degree s), c + degree * code_bytes))
        × At page (c + degree * code_bytes) (value_bytes 1 rest)
  slot-At s rest c here =
      let row : List ℕ = row_codes code_bytes codes (padded_row graph degree s) in
      let split : At page c (value_bytes 1 row ++ value_bytes 1 rest) =
        subst (At page c) (value_bytes-append 1 row rest) here in
      let count : length row ≡ degree * code_bytes =
        length-row_codes code_bytes codes (padded_row graph degree s)
        ∙ ap (λ n. n * code_bytes) (length-padded_row graph degree s) in
      let size : c + length (value_bytes 1 row) ≡ c + degree * code_bytes =
        omega (arith, length-value_bytes 1 row, count) in
      let one : c + 1 * length row ≡ c + degree * code_bytes = omega (arith, count) in
      (
        subst (λ n. get_values 1 n page c ≡ some (row, c + degree * code_bytes)) count
            (get_values-At 1 row page c (row_codes-bytes (padded_row graph degree s))
                (At-front page c (value_bytes 1 row) (value_bytes 1 rest) split)
              ∙ ap (λ j. some (row, j)) one),
        subst (λ j. At page j (value_bytes 1 rest)) size
            (At-back page c (value_bytes 1 row) (value_bytes 1 rest) split),
      )

  pub read_codes-At :
      (npp : ℕ) (nodes : List ℕ) (c : ℕ)
      → length nodes ≤ npp
      → degree < 2 ^ 32
      → All (RowFits graph degree) nodes
      → At page c (value_bytes 1 (slot_codes graph degree code_bytes codes (slots npp nodes)))
      → (d : ℕ) × (read_codes degree code_bytes page
            (slot_degrees graph (slots npp nodes))
            (length nodes)
            c
          ≡ some (codes_of_rows nodes, d))
  unfolding read_codes
  read_codes-At zero [] c le small fits here = (c, refl)
  read_codes-At zero (id ∷ nodes) c le small fits here = absurd (omega arith)
  read_codes-At (suc n) [] c le small fits here =
      let (first, behind) =
        slot-At none (slot_codes graph degree code_bytes codes (slots n [])) c here in
      let (d, rest) = read_codes-At n [] (c + degree * code_bytes) (omega arith) small tt behind in
      (d, rw (first, read_codes, rest) refl)
  read_codes-At (suc n) (id ∷ nodes) c le small (fit, fits) here =
      let (first, behind) =
        slot-At (some id) (slot_codes graph degree code_bytes codes (slots n nodes)) c here in
      let (d, rest) =
        read_codes-At n nodes (c + degree * code_bytes) (omega arith) small fits behind in
      let count : suc (length nodes) - 1 ≡ length nodes = omega arith in
      let kept : length (row_at graph id) % 2 ^ 32 ≡ length (row_at graph id) =
        omega (arith, fit.row_short) in
      let row = pad-row code_bytes degree codes (row_at graph id) fit.row_short in
      let positive : ltb 0 (suc (length nodes)) ≡ true = ground arith in
      (d, rw (first, read_codes, count, rest, kept, row, positive) refl)
