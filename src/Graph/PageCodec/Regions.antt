-- ===== src/Graph/PageCodec/Regions.antt =====
-- Reading back each region of a packed page.
use agent_aware.Prelude.{
  ℕ, zero, suc, ◌+◌, ◌-◌, ◌*◌, ◌%◌, ◌^◌, ◌<◌, ◌≤◌, ◌≡◌, refl, ap, ◌∙◌, true, false, Option, none,
  some, List, [], ◌∷◌, ◌++◌, length, take, drop, ltb, ◌==◌, arith, All, length-append, inl, inr,
  Bool-cases,
}
use mathlib.Core.Path.{subst}
use agent_aware.Graph.PageCodec.{
  no_node, pad, slots, row_at, slot_ids, slot_degrees, padded_row, slot_neighbors, neighbor_codes,
  row_codes,
}
use agent_aware.Graph.PageCodec.Decode.{get_values, read_neighbors, real_neighbors}
use agent_aware.Graph.PageCodec.Buffer.{
  At, At-front, At-back, value_bytes, value_bytes-append, length-value_bytes, get_values-At,
  length-pad,
}

-- The row of a node fits a slot, and no neighbour has the number that stands for none.
pub record RowFits (graph : List (List ℕ)) (degree id : ℕ) : Type 0 where
  pub row_short : length (row_at graph id) ≤ degree
  pub row_real : All (λ n. n < no_node) (row_at graph id)

pub length-slots : (npp : ℕ) (nodes : List ℕ) → length (slots npp nodes) ≡ npp
length-slots zero nodes = refl
length-slots (suc n) [] = ap suc (length-slots n [])
length-slots (suc n) (id ∷ nodes) = ap suc (length-slots n nodes)

pub length-slot_ids : (ss : List (Option ℕ)) → length (slot_ids ss) ≡ length ss
length-slot_ids [] = refl
length-slot_ids (none ∷ ss) = ap suc (length-slot_ids ss)
length-slot_ids (some id ∷ ss) = ap suc (length-slot_ids ss)

pub length-slot_degrees :
    (graph : List (List ℕ)) (ss : List (Option ℕ)) → length (slot_degrees graph ss) ≡ length ss
length-slot_degrees graph [] = refl
length-slot_degrees graph (none ∷ ss) = ap suc (length-slot_degrees graph ss)
length-slot_degrees graph (some id ∷ ss) = ap suc (length-slot_degrees graph ss)

-- A padded list of values below a bound, where the filling is too.
pub All-pad :
    (b d n : ℕ) (xs : List ℕ) → d < b → All (λ x. x < b) xs → All (λ x. x < b) (pad d n xs)
All-pad b d zero xs h a = tt
All-pad b d (suc n) [] h a = (h, All-pad b d n [] h tt)
All-pad b d (suc n) (x ∷ xs) h (hx, a) = (hx, All-pad b d n xs h a)

-- A row behind its padding.
real-pad :
    (n : ℕ) (xs : List ℕ)
    → length xs ≤ n
    → All (λ x. x < no_node) xs
    → real_neighbors (take (length xs) (pad no_node n xs)) ≡ xs
real-pad n [] h a = refl
real-pad zero (x ∷ xs) h a = absurd (omega arith)
real-pad (suc n) (x ∷ xs) h (lt, a) =
    let real : x == no_node ≡ false = ground arith in
    rw real (ap (λ l. x ∷ l) (real-pad n xs (omega arith) a))

pad-append : (m : ℕ) (a b : List ℕ) → pad 0 (length a + m) (a ++ b) ≡ a ++ pad 0 m b
pad-append m [] b = let e : 0 + m ≡ m = omega arith in ap (λ n. pad 0 n b) e
pad-append m (x ∷ a) b =
    let e : suc (length a) + m ≡ suc (length a + m) = omega arith in
    ap (λ n. pad 0 n (x ∷ a ++ b)) e ∙ ap (λ l. x ∷ l) (pad-append m a b)

pub length-neighbor_codes :
    (code_bytes : ℕ) (codes : List ℕ) (n : ℕ)
    → length (neighbor_codes code_bytes codes n) ≡ code_bytes
length-neighbor_codes code_bytes codes n = elim (Bool-cases (n == no_node)) [
  | inl none_there ↦ rw none_there (length-pad 0 code_bytes [])
  | inr real ↦ rw real (length-pad 0 code_bytes (drop (n * code_bytes) codes))
]

-- The codes of a row behind those of its padding.
pub pad-row :
    (code_bytes degree : ℕ) (codes xs : List ℕ)
    → length xs ≤ degree
    → pad 0 (length xs * code_bytes) (row_codes code_bytes codes (pad no_node degree xs))
      ≡ row_codes code_bytes codes xs
pad-row code_bytes degree codes [] h =
    let e : 0 * code_bytes ≡ 0 = omega arith in
    ap (λ n. pad 0 n (row_codes code_bytes codes (pad no_node degree []))) e
pad-row code_bytes zero codes (x ∷ xs) h = absurd (omega arith)
pad-row code_bytes (suc degree) codes (x ∷ xs) h =
    let first : List ℕ = neighbor_codes code_bytes codes x in
    let e : suc (length xs) * code_bytes ≡ length first + length xs * code_bytes =
      omega (arith, length-neighbor_codes code_bytes codes x) in
    ap (λ n. pad 0 n (first ++ row_codes code_bytes codes (pad no_node degree xs))) e
    ∙ pad-append (length xs * code_bytes) first (row_codes code_bytes codes (pad no_node degree xs))
    ∙ ap (λ l. first ++ l) (pad-row code_bytes degree codes xs (omega arith))

pub length-padded_row :
    (graph : List (List ℕ)) (degree : ℕ) (s : Option ℕ)
    → length (padded_row graph degree s) ≡ degree
length-padded_row graph degree none = length-pad no_node degree []
length-padded_row graph degree (some id) = length-pad no_node degree (row_at graph id)

pub length-row_codes :
    (code_bytes : ℕ) (codes ns : List ℕ)
    → length (row_codes code_bytes codes ns) ≡ length ns * code_bytes
length-row_codes code_bytes codes [] = omega arith
length-row_codes code_bytes codes (n ∷ ns) = omega (
  arith,
  length-append (neighbor_codes code_bytes codes n) (row_codes code_bytes codes ns),
  length-neighbor_codes code_bytes codes n,
  length-row_codes code_bytes codes ns,
)

module _ (graph : List (List ℕ)) (page : List ℕ) (degree : ℕ) where
  abbrev pub rows : List ℕ → List (List ℕ)
  rows [] = []
  rows (id ∷ nodes) = row_at graph id ∷ rows nodes

  abbrev SlotFits : Option ℕ → Type 0
  SlotFits none = Unit
  SlotFits (some id) = RowFits graph degree id

  padded_fit : (s : Option ℕ) → SlotFits s → All (λ n. n < 256 ^ 4) (padded_row graph degree s)
  padded_fit none h = All-pad (256 ^ 4) no_node degree [] (omega arith) tt
  padded_fit (some id) h =
      All-pad (256 ^ 4) no_node degree (row_at graph id) (omega arith)
        (weaken (row_at graph id) h.row_real)
    where
      weaken : (xs : List ℕ) → All (λ x. x < no_node) xs → All (λ x. x < 256 ^ 4) xs
      weaken [] a = tt
      weaken (x ∷ xs) (p, a) = (omega arith, weaken xs a)

  -- One slot's neighbours, and the cursor behind them.
  slot-At :
      (s : Option ℕ) (rest : List ℕ) (c : ℕ)
      → SlotFits s
      → At page c (value_bytes 4 (padded_row graph degree s ++ rest))
      → (get_values 4 degree page c ≡ some (padded_row graph degree s, c + 4 * degree))
        × At page (c + 4 * degree) (value_bytes 4 rest)
  slot-At s rest c fits here =
      let row : List ℕ = padded_row graph degree s in
      let split : At page c (value_bytes 4 row ++ value_bytes 4 rest) =
        subst (At page c) (value_bytes-append 4 row rest) here in
      let size : c + length (value_bytes 4 row) ≡ c + 4 * degree =
        omega (arith, length-value_bytes 4 row, length-padded_row graph degree s) in
      (
        subst (λ n. get_values 4 n page c ≡ some (row, c + 4 * n))
            (length-padded_row graph degree s)
            (get_values-At 4 row page c (padded_fit s fits)
              (At-front page c (value_bytes 4 row) (value_bytes 4 rest) split)),
        subst (λ j. At page j (value_bytes 4 rest)) size
            (At-back page c (value_bytes 4 row) (value_bytes 4 rest) split),
      )

  pub read_neighbors-At :
      (npp : ℕ) (nodes : List ℕ) (c : ℕ)
      → length nodes ≤ npp
      → degree < 2 ^ 32
      → All (RowFits graph degree) nodes
      → At page c (value_bytes 4 (slot_neighbors graph degree (slots npp nodes)))
      → read_neighbors degree page (slot_degrees graph (slots npp nodes)) (length nodes) c
        ≡ some (rows nodes, c + 4 * degree * npp)
  unfolding read_neighbors
  read_neighbors-At zero [] c le small fits here =
      let e : c ≡ c + 4 * degree * 0 = omega arith in ap (λ j. some ([], j)) e
  read_neighbors-At zero (id ∷ nodes) c le small fits here = absurd (omega arith)
  read_neighbors-At (suc n) [] c le small fits here =
      let (first, behind) = slot-At none (slot_neighbors graph degree (slots n [])) c tt here in
      let rest = read_neighbors-At n [] (c + 4 * degree) (omega arith) small tt behind in
      let total : c + 4 * degree + 4 * degree * n ≡ c + 4 * degree * suc n = omega arith in
      rw (first, read_neighbors, rest) (ap (λ j. some ([], j)) total)
  read_neighbors-At (suc n) (id ∷ nodes) c le small (fit, fits) here =
      let (first, behind) =
        slot-At (some id) (slot_neighbors graph degree (slots n nodes)) c fit here in
      let rest = read_neighbors-At n nodes (c + 4 * degree) (omega arith) small fits behind in
      let total : c + 4 * degree + 4 * degree * n ≡ c + 4 * degree * suc n = omega arith in
      let count : suc (length nodes) - 1 ≡ length nodes = omega arith in
      let kept : length (row_at graph id) % 2 ^ 32 ≡ length (row_at graph id) =
        omega (arith, fit.row_short) in
      let row : real_neighbors
            (take (length (row_at graph id)) (pad no_node degree (row_at graph id)))
          ≡ row_at graph id =
        real-pad degree (row_at graph id) fit.row_short fit.row_real in
      let positive : ltb 0 (suc (length nodes)) ≡ true = ground arith in
      rw (first, read_neighbors, count, rest, kept, row, positive)
        (ap (λ j. some (row_at graph id ∷ rows nodes, j)) total)
