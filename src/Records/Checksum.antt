-- ===== src/Records/Checksum.antt =====
-- `checksum_bytes` and `checksum_payload`, on 32-bit words that wrap.
use agent_aware.Prelude.{
  ℕ, ◌+◌, ◌*◌, ◌/◌, ◌%◌, ◌^◌, bit_xor, Bool, true, false, List, [], ◌∷◌, arith, if◌then◌else◌,
}
use agent_aware.Bytes.{le_words, IsU32}
use agent_aware.Bytes.Xor.{bit_xor-lt}

-- FNV-1a, from a given start.
unfoldable pub fnv1a : ℕ → List ℕ → ℕ
fnv1a hash [] = hash
fnv1a hash (b ∷ bs) = fnv1a (bit_xor hash b * 16777619 % 2 ^ 32) bs

unfoldable pub checksum_bytes : List ℕ → ℕ
unfolding fnv1a
checksum_bytes = fnv1a 2166136261

-- `hash ^= neighbor_hash + 0x9e3779b9u + (hash << 6u) + (hash >> 2u)`
unfoldable pub mix : ℕ → ℕ → ℕ
mix hash h2 = bit_xor hash ((h2 + 0x9e3779b9 + hash * 64 % 2 ^ 32 + hash / 4) % 2 ^ 32)

-- `!v.empty()`
abbrev pub is_empty {ℓ} : {A : Type ℓ} → List A → Bool
is_empty [] = true
is_empty (x ∷ xs) = false

unfoldable pub checksum_payload : List ℕ → List ℕ → ℕ
unfolding checksum_bytes mix
checksum_payload vector neighbors =
    let hash = if is_empty vector then 2166136261 else checksum_bytes (le_words vector) in
    if is_empty neighbors then hash else mix hash (checksum_bytes (le_words neighbors))

fnv1a-IsU32 : (hash : ℕ) (bs : List ℕ) → IsU32 hash → IsU32 (fnv1a hash bs)
unfolding fnv1a
fnv1a-IsU32 hash [] h = h
fnv1a-IsU32 hash (b ∷ bs) h = fnv1a-IsU32 (bit_xor hash b * 16777619 % 2 ^ 32) bs (omega arith)

mix-IsU32 : (hash h2 : ℕ) → IsU32 hash → IsU32 (mix hash h2)
unfolding mix
mix-IsU32 hash h2 h = bit_xor-lt 32 hash _ h (omega arith)

pub checksum_payload-IsU32 : (vector neighbors : List ℕ) → IsU32 (checksum_payload vector neighbors)
unfolding checksum_payload
checksum_payload-IsU32 [] [] = omega arith
checksum_payload-IsU32 [] (n ∷ ns) =
    mix-IsU32 2166136261 (checksum_bytes (le_words (n ∷ ns))) (omega arith)
checksum_payload-IsU32 (v ∷ vs) [] = fnv1a-IsU32 2166136261 (le_words (v ∷ vs)) (omega arith)
checksum_payload-IsU32 (v ∷ vs) (n ∷ ns) =
    mix-IsU32 _ (checksum_bytes (le_words (n ∷ ns)))
      (fnv1a-IsU32 2166136261 (le_words (v ∷ vs)) (omega arith))
