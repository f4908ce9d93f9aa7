-- ===== src/Distance.antt =====
-- src/core/brute_force.cpp: `squared_l2`. Float arithmetic is the processor's: a parameter. A build
-- adds up in `lanes` lanes (8 with AVX, 4 with SSE2, none otherwise) and then one by one.
use agent_aware.Prelude.{
  ℕ, zero, suc, List, [], ◌∷◌, length, leb, ◌==◌, if◌then◌else◌, Bool, not, ◌&&◌, ltb, ◌%◌, ◌^◌,
  take, drop,
}

-- The operations of a `float`, on 32-bit patterns. Of the floats that are not NaN, `rank` gives the
-- place in their order.
pub record FloatOps : Type 0 where
  pub add : ℕ → ℕ → ℕ
  pub sub : ℕ → ℕ → ℕ
  pub mul : ℕ → ℕ → ℕ
  pub rank : ℕ → ℕ
  pub lanes : ℕ

-- All bits of the exponent, and one of the mantissa.
unfoldable pub is_nan : ℕ → Bool
is_nan x = ltb 0x7f800000 (x % 2 ^ 31)

module _ (ops : FloatOps) where
  -- `a == b` and `a < b`: a NaN is neither equal to nor less than anything.
  unfoldable pub float_eq : ℕ → ℕ → Bool
  float_eq a b = not (is_nan a) && not (is_nan b) && (ops.rank a == ops.rank b)

  unfoldable pub float_less : ℕ → ℕ → Bool
  float_less a b = not (is_nan a) && not (is_nan b) && ltb (ops.rank a) (ops.rank b)

  -- `diff * diff`
  unfoldable pub square_diff : ℕ → ℕ → ℕ
  square_diff a b = let diff = ops.sub a b in ops.mul diff diff

  -- One vector step: each lane adds the square of its difference.
  unfoldable pub add_lanes : List ℕ → List ℕ → List ℕ → List ℕ
  add_lanes [] l r = []
  add_lanes (a ∷ acc) [] r = a ∷ acc
  add_lanes (a ∷ acc) (x ∷ l) [] = a ∷ acc
  add_lanes (a ∷ acc) (x ∷ l) (y ∷ r) = ops.add a (square_diff x y) ∷ add_lanes acc l r

  -- `for (; i + lanes <= dim; i += lanes)`, on what is left of the vectors.
  unfoldable pub simd_loop : ℕ → List ℕ → List ℕ → List ℕ → List ℕ × List ℕ × List ℕ
  simd_loop zero acc l r = (acc, l, r)
  simd_loop (suc fuel) acc l r =
      let rest = simd_loop fuel (add_lanes acc l r) (drop ops.lanes l) (drop ops.lanes r) in
      if leb ops.lanes (length l) then rest else (acc, l, r)

  unfoldable pub sum_lanes : ℕ → List ℕ → ℕ
  sum_lanes distance [] = distance
  sum_lanes distance (lane ∷ acc) = sum_lanes (ops.add distance lane) acc

  -- `for (; i < dim; ++i)`
  unfoldable pub tail_loop : ℕ → List ℕ → List ℕ → ℕ
  tail_loop distance [] r = distance
  tail_loop distance (x ∷ l) [] = distance
  tail_loop distance (x ∷ l) (y ∷ r) = tail_loop (ops.add distance (square_diff x y)) l r

  abbrev pub zeros : ℕ → List ℕ
  zeros zero = []
  zeros (suc n) = 0 ∷ zeros n

  -- The pattern of 0.0f is 0.
  unfoldable pub squared_l2 : List ℕ → List ℕ → ℕ → ℕ
  squared_l2 lhs rhs dim =
      if ops.lanes == 0
      then tail_loop 0 (take dim lhs) (take dim rhs)
      else let (acc, l, r) = simd_loop dim (zeros ops.lanes) (take dim lhs) (take dim rhs) in
        tail_loop (sum_lanes 0 acc) l r
