-- ===== src/Bytes.antt =====
-- Values as bytes, the way `write_value` and `read_value` of src/dynamic/wal.cpp and
-- src/dynamic/sstable.cpp copy them: little endian, as on the machines that the program is built
-- for. A file is the list of its bytes. A float is its 32-bit pattern.
pub mod Laws
pub mod Readers
pub mod Stream
pub mod Xor
use agent_aware.Prelude.{
  ℕ, zero, suc, ◌+◌, ◌*◌, ◌/◌, ◌%◌, ◌^◌, ◌<◌, Option, none, some, List, [], ◌∷◌, ◌++◌, length, take,
  drop, ltb, if◌then◌else◌,
}

abbrev pub IsU32 : ℕ → Type 0
IsU32 n = n < 2 ^ 32

abbrev pub IsU64 : ℕ → Type 0
IsU64 n = n < 2 ^ 64

-- The `w` bytes of an unsigned value.
unfoldable pub le_bytes : ℕ → ℕ → List ℕ
le_bytes zero n = []
le_bytes (suc w) n = n % 256 ∷ le_bytes w (n / 256)

unfoldable pub from_le : List ℕ → ℕ
from_le [] = 0
from_le (b ∷ bs) = b + 256 * from_le bs

-- The bytes of a `std::vector` of 32-bit values.
unfoldable pub le_words : List ℕ → List ℕ
le_words [] = []
le_words (w ∷ ws) = le_bytes 4 w ++ le_words ws

unfoldable pub words_of : ℕ → List ℕ → List ℕ
words_of zero bs = []
words_of (suc n) bs = from_le (take 4 bs) ∷ words_of n (drop 4 bs)

-- Reading from a stream that is good: `none` is a failed read.
abbrev pub Reader : Type 0 → Type 0
Reader A = List ℕ → Option (A × List ℕ)

module _ {A : Type 0} where
  unfoldable pub pure : A → Reader A
  pure a input = some (a, input)

  unfoldable pub fail : Reader A
  fail input = none

module _ {A B : Type 0} where
  infixl 5 ◌>>=◌
  unfoldable pub ◌>>=◌ : Reader A → (A → Reader B) → Reader B
  unfolding pure fail
  ◌>>=◌ p f input = elim (p input) [ none ↦ none | some (a, rest) ↦ f a rest ]

-- `input.read(p, n)` that leaves the stream good: the bytes, and what is behind them.
unfoldable pub read_bytes : ℕ → Reader (List ℕ)
read_bytes n input = if ltb (length input) n then none else some (take n input, drop n input)

-- `read_value` of a `w`-byte value.
unfoldable pub read_value : ℕ → Reader ℕ
unfolding ◌>>=◌
read_value w = do bytes ← read_bytes w; pure (from_le bytes)

-- The read of a vector of `n` values of 32 bits.
unfoldable pub read_words : ℕ → Reader (List ℕ)
unfolding ◌>>=◌
read_words n = do bytes ← read_bytes (4 * n); pure (words_of n bytes)
