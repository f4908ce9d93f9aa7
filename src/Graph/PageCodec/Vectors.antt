-- ===== src/Graph/PageCodec/Vectors.antt =====
-- Reading back the vectors of a packed page.
use agent_aware.Prelude.{
  ℕ, zero, suc, ◌+◌, ◌-◌, ◌*◌, ◌/◌, ◌<◌, ◌≤◌, ◌≡◌, refl, ap, true, false, Option, none, some, List,
  [], ◌∷◌, ◌++◌, length, take, drop, ltb, ◌==◌, arith, All, All-take, All-drop, length-append,
  length-take, length-drop, inl, inr, Bool-cases,
}
use mathlib.Core.Path.{subst}
use agent_aware.Bytes.{IsU32, le_words, words_of}
use agent_aware.Bytes.Laws.{length-le_words, words_of-le_words}
use agent_aware.BruteForce.{VectorSet, size, row}
use agent_aware.Graph.{DiskNode, DecodedPage, DiskGraphMetadata}
use agent_aware.Graph.PageCodec.{slots, slot_ids, vector_writes, zero_bytes}
use agent_aware.Graph.PageCodec.Decode.{place_nodes, vector_data}
use agent_aware.Graph.PageCodec.Buffer.{
  At, At-front, At-back, At-room, At-drop, flat, NoThrow, length-pad,
}

pub div-mul_le : (n d : ℕ) → 0 < d → (n / d) * d ≤ n
div-mul_le n d h = grind arith

pub lt_div_mul : (a d : ℕ) → 0 < d → a < (a / d + 1) * d
lt_div_mul a d h = grind arith

mul_suc_le : (a b d : ℕ) → a < b → a * d + d ≤ b * d
mul_suc_le a b d h = grind arith

-- A row of the base vectors.
abbrev pub base_row : VectorSet → ℕ → List ℕ
base_row base id = take base.dim (drop (id * base.dim) base.values)

row-size :
    (base : VectorSet) (id : ℕ)
    → id < size base
    → (row base id ≡ some (drop (id * base.dim) base.values))
      × (length (base_row base id) ≡ base.dim)
unfolding size row
row-size base id h = elim (Bool-cases (base.dim == 0)) [
  | inl empty ↦ absurd (ground (arith, empty, h))
  | inr some_dim ↦
      let positive : 0 < base.dim = ground arith in
      let count : id < length base.values / base.dim = ground (arith, some_dim, h) in
      let inside : id * base.dim + base.dim ≤ length base.values = omega (
        arith,
        mul_suc_le id (length base.values / base.dim) base.dim count,
        div-mul_le (length base.values) base.dim positive,
      ) in
      (
        ground (arith, some_dim, count),
        omega (
          arith,
          inside,
          length-take base.dim (drop (id * base.dim) base.values),
          length-drop (id * base.dim) base.values,
        ),
      )
]

-- The nodes as the loop over the vector blocks leaves them, from a cursor on.
abbrev pub placed : ℕ → List ℕ → ℕ → List DiskNode
placed dim [] c = []
placed dim (id ∷ nodes) c =
    record { id = id; neighbors = []; neighbor_pq_codes = []; vector = []; vector_offset = c }
    ∷ placed dim nodes (c + dim * 4)

module _ (base : VectorSet) where
  -- The bytes of a slot's block.
  abbrev block : Option ℕ → List ℕ
  block none = zero_bytes (base.dim * 4)
  block (some id) = le_words (base_row base id)

  -- The bytes of all blocks.
  abbrev pub blocks : List (Option ℕ) → List ℕ
  blocks [] = []
  blocks (s ∷ ss) = block s ++ blocks ss

  abbrev InBase : Option ℕ → Type 0
  InBase none = Unit
  InBase (some id) = id < size base

  length-block : (s : Option ℕ) → InBase s → length (block s) ≡ base.dim * 4
  length-block none h = length-pad 0 (base.dim * 4) []
  length-block (some id) h =
      omega (arith, length-le_words (base_row base id), (row-size base id h).1)

  pub length-blocks :
      (npp : ℕ) (nodes : List ℕ)
      → All (λ id. id < size base) nodes
      → length (blocks (slots npp nodes)) ≡ base.dim * 4 * npp
  length-blocks zero nodes h = omega arith
  length-blocks (suc n) [] h = omega (
    arith,
    length-append (block none) (blocks (slots n [])),
    length-block none tt,
    length-blocks n [] tt,
  )
  length-blocks (suc n) (id ∷ nodes) (small, h) = omega (
    arith,
    length-append (block (some id)) (blocks (slots n nodes)),
    length-block (some id) small,
    length-blocks n nodes h,
  )

  pub vector_writes-blocks :
      (npp : ℕ) (nodes : List ℕ)
      → All (λ id. id < size base) nodes
      → NoThrow (vector_writes base (slots npp nodes))
        × (flat (vector_writes base (slots npp nodes)) ≡ blocks (slots npp nodes))
  vector_writes-blocks zero nodes h = (tt, refl)
  vector_writes-blocks (suc n) [] h =
      let (safe, same) = vector_writes-blocks n [] tt in
      (safe, ap (λ l. zero_bytes (base.dim * 4) ++ l) same)
  vector_writes-blocks (suc n) (id ∷ nodes) (small, h) =
      let (safe, same) = vector_writes-blocks n nodes h in
      rw ((row-size base id small).0) (safe, ap (λ l. le_words (base_row base id) ++ l) same)

module _ (base : VectorSet) (page : List ℕ) (floats : All IsU32 base.values) where
  -- One block, and what is behind it.
  pub block-At :
      (s : Option ℕ) (rest : List ℕ) (c : ℕ)
      → InBase base s
      → At page c (block base s ++ rest)
      → (ltb (length page) (c + base.dim * 4) ≡ false) × At page (c + base.dim * 4) rest
  block-At s rest c inside here =
      let size_is = length-block base s inside in
      let step : c + length (block base s) ≡ c + base.dim * 4 = omega (arith, size_is) in
      (
        ground (
          arith,
          At-room page c (block base s) (At-front page c (block base s) rest here),
          size_is,
        ),
        subst (λ j. At page j rest) step (At-back page c (block base s) rest here),
      )

  pub place_nodes-At :
      (npp : ℕ) (nodes : List ℕ) (c : ℕ)
      → length nodes ≤ npp
      → All (λ id. id < size base) nodes
      → At page c (blocks base (slots npp nodes))
      → place_nodes base.dim page (slot_ids (slots npp nodes)) (length nodes) c
        ≡ some (placed base.dim nodes c, c + base.dim * 4 * npp)
  unfolding place_nodes
  place_nodes-At zero [] c le h here =
      let e : c ≡ c + base.dim * 4 * 0 = omega arith in ap (λ j. some ([], j)) e
  place_nodes-At zero (id ∷ nodes) c le h here = absurd (omega arith)
  place_nodes-At (suc n) [] c le h here =
      let (room, behind) = block-At none (blocks base (slots n [])) c tt here in
      let rest = place_nodes-At n [] (c + base.dim * 4) (omega arith) tt behind in
      let total : c + base.dim * 4 + base.dim * 4 * n ≡ c + base.dim * 4 * suc n = omega arith in
      rw (room, rest) (ap (λ j. some ([], j)) total)
  place_nodes-At (suc n) (id ∷ nodes) c le (small, h) here =
      let (room, behind) = block-At (some id) (blocks base (slots n nodes)) c small here in
      let rest = place_nodes-At n nodes (c + base.dim * 4) (omega arith) h behind in
      let count : suc (length nodes) - 1 ≡ length nodes = omega arith in
      let positive : ltb 0 (suc (length nodes)) ≡ true = ground arith in
      let total : c + base.dim * 4 + base.dim * 4 * n ≡ c + base.dim * 4 * suc n = omega arith in
      rw (room, count, rest, positive) (ap (λ j. some (placed base.dim (id ∷ nodes) c, j)) total)

  -- The pointer to a node's vector leads to its row.
  pub vector_data-At :
      (metadata : DiskGraphMetadata) (p : DecodedPage) (node : DiskNode) (id : ℕ)
      → metadata.dim ≡ base.dim
      → p.bytes ≡ page
      → id < size base
      → At page node.vector_offset (block base (some id))
      → vector_data metadata p node ≡ some (base_row base id)
  unfolding vector_data
  vector_data-At metadata p node id same bytes small here =
      let size_is = length-block base (some id) small in
      let count = (row-size base id small).1 in
      let words : words_of base.dim (le_words (base_row base id) ++ here.1) ≡ base_row base id =
        subst (λ n. words_of n (le_words (base_row base id) ++ here.1) ≡ base_row base id) count
          (words_of-le_words (base_row base id) here.1 (
            All-take IsU32 base.dim (drop (id * base.dim) base.values)
              (All-drop IsU32 (id * base.dim) base.values floats))) in
      ground (
        arith,
        same,
        bytes,
        size_is,
        At-room page node.vector_offset (block base (some id)) here,
        At-drop page node.vector_offset (block base (some id)) here,
        words,
      )
