-- ===== src/Bytes/Laws.antt =====
-- What is written is read back, and what is read does not depend on the bytes behind it.
use agent_aware.Prelude.{
  ℕ, zero, suc, ◌+◌, ◌*◌, ◌/◌, ◌^◌, ◌<◌, ◌≡◌, refl, ap, ◌∙◌, some, List, [], ◌∷◌, ◌++◌,
  append_assoc, length, length-append, length-drop, take-append_eq, drop-append_eq, take-append_le,
  drop-append_le, All, arith, append-nil, take-append-drop, take,
}
use agent_aware.Bytes.{
  Reader, ◌>>=◌, IsU32, le_bytes, from_le, le_words, words_of, read_bytes, read_value, read_words,
  ◌>>=◌,
}

pub length-le_bytes : (w n : ℕ) → length (le_bytes w n) ≡ w
unfolding le_bytes
length-le_bytes zero n = refl
length-le_bytes (suc w) n = ap suc (length-le_bytes w (n / 256))

pub length-le_words : (ws : List ℕ) → length (le_words ws) ≡ 4 * length ws
unfolding le_words
length-le_words [] = refl
length-le_words (w ∷ ws) =
    length-append (le_bytes 4 w) (le_words ws)
    ∙ omega (arith, length-le_bytes 4 w, length-le_words ws)

-- A value below 256 ^ w is read back from its `w` bytes.
pub from_le-le_bytes : (w n : ℕ) → n < 256 ^ w → from_le (le_bytes w n) ≡ n
unfolding le_bytes from_le
from_le-le_bytes zero n h = omega arith
from_le-le_bytes (suc w) n h = omega (arith, from_le-le_bytes w (n / 256) (omega arith))

pub words_of-le_words :
    (ws rest : List ℕ) → All IsU32 ws → words_of (length ws) (le_words ws ++ rest) ≡ ws
unfolding words_of le_words
words_of-le_words [] rest h = refl
words_of-le_words (w ∷ ws) rest (hw, hws) =
    let tail : List ℕ = le_words ws ++ rest in
    ground (
      arith,
      append_assoc (le_bytes 4 w) (le_words ws) rest,
      take-append_eq 4 (le_bytes 4 w) tail (length-le_bytes 4 w),
      drop-append_eq 4 (le_bytes 4 w) tail (length-le_bytes 4 w),
      from_le-le_bytes 4 w (omega arith),
      words_of-le_words ws rest hws,
    )

pub read_bytes-append :
    (n : ℕ) (bs rest : List ℕ) → length bs ≡ n → read_bytes n (bs ++ rest) ≡ some (bs, rest)
unfolding read_bytes
read_bytes-append n bs rest h =
    ground (arith, length-append bs rest, take-append_eq n bs rest h, drop-append_eq n bs rest h)

pub read_value-le_bytes :
    (w n : ℕ) (rest : List ℕ) → n < 256 ^ w → read_value w (le_bytes w n ++ rest) ≡ some (n, rest)
unfolding read_value
read_value-le_bytes w n rest h =
    ground
      (arith, read_bytes-append w (le_bytes w n) rest (length-le_bytes w n), from_le-le_bytes w n h)

pub read_words-le_words :
    (ws rest : List ℕ)
    → All IsU32 ws
    → read_words (length ws) (le_words ws ++ rest) ≡ some (ws, rest)
unfolding read_words
read_words-le_words ws rest h = ground (
  arith,
  read_bytes-append (4 * length ws) (le_words ws) rest (length-le_words ws),
  words_of-le_words ws [] h,
  append-nil (le_words ws),
)

-- A read takes its bytes from the front.
pub read_bytes-eq-some :
    (n : ℕ) (input bytes rest : List ℕ)
    → read_bytes n input ≡ some (bytes, rest)
    → (n + length rest ≡ length input) × (input ≡ bytes ++ rest)
unfolding read_bytes
read_bytes-eq-some n input bytes rest e =
    ground (arith, length-drop n input, take-append-drop n input)

-- More bytes behind the input stay behind what is read.
pub read_bytes-extend :
    (n : ℕ) (input more bytes rest : List ℕ)
    → read_bytes n input ≡ some (bytes, rest)
    → read_bytes n (input ++ more) ≡ some (bytes, rest ++ more)
unfolding read_bytes
read_bytes-extend n input more bytes rest e =
    ground
      (arith, length-append input more, take-append_le n input more, drop-append_le n input more)

pub read_bytes_front :
    (n : ℕ) (input bytes rest : List ℕ)
    → read_bytes n input ≡ some (bytes, rest)
    → bytes ≡ take n input
unfolding read_bytes
read_bytes_front n input bytes rest e = ground arith

-- A bind whose first part reads.
pub bind_some :
    {A B : Type 0} (p : Reader A) (f : A → Reader B) (input : List ℕ) (a : A) (rest : List ℕ)
    → p input ≡ some (a, rest)
    → (p >>= f) input ≡ f a rest
unfolding ◌>>=◌
bind_some p f input a rest e = rw (e, ◌>>=◌)
