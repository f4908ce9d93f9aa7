-- ===== src/Bytes/Xor.antt =====
-- Exclusive or stays within the width of its arguments.
use Prim.Native.Nat.{digits, differ, bit_xor-bitwise}
use agent_aware.Prelude.{ℕ, zero, suc, ◌/◌, ◌%◌, ◌^◌, ◌<◌, ◌≤◌, bit_xor, arith}

differ_digit : (x y : ℕ) → x ≤ 1 → y ≤ 1 → differ x y ≤ 1
differ_digit zero y hx hy = hy
differ_digit (suc x) zero hx hy = hx
differ_digit (suc zero) (suc zero) hx hy = omega arith
differ_digit (suc zero) (suc (suc y)) hx hy = absurd (omega arith)
differ_digit (suc (suc x)) (suc y) hx hy = absurd (omega arith)

digits-lt : (n w a b : ℕ) → a < 2 ^ w → b < 2 ^ w → digits (λ t. t) differ n a b < 2 ^ w
digits-lt zero w a b ha hb = hb
digits-lt (suc n) w zero b ha hb = hb
digits-lt (suc n) zero (suc a) b ha hb = absurd (omega arith)
digits-lt (suc n) (suc w) (suc a) b ha hb = omega (
  arith,
  digits-lt n w (suc a / 2) (b / 2) (omega arith) (omega arith),
  differ_digit (suc a % 2) (b % 2) (omega arith) (omega arith),
)

pub bit_xor-lt : (w a b : ℕ) → a < 2 ^ w → b < 2 ^ w → bit_xor a b < 2 ^ w
bit_xor-lt w a b ha hb = rw (bit_xor-bitwise a b) (digits-lt a w a b ha hb)
