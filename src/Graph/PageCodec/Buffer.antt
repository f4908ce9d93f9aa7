-- ===== src/Graph/PageCodec/Buffer.antt =====
-- Writes to a page of zeros one behind the other, and reads of what stands at a cursor.
use agent_aware.Prelude.{
  ℕ, zero, suc, ◌+◌, ◌-◌, ◌*◌, ◌^◌, ◌<◌, ◌≤◌, ◌≡◌, refl, sym, ap, ◌∙◌, false, Option, some, List,
  [], ◌∷◌, ◌++◌, length, drop, ltb, arith, All, append_assoc, append-nil, length-append,
  take-append_length, drop-append_length, take-append_eq,
}
use mathlib.Core.Path.{subst}
use agent_aware.Bytes.{le_bytes}
use agent_aware.Bytes.Laws.{length-le_bytes, from_le-le_bytes}
use agent_aware.Graph.PageCodec.{
  PageWrite, put_write, skip_write, throw_write, put_bytes, put_all, zero_bytes, value_writes, pad,
}
use agent_aware.Graph.PageCodec.Decode.{get_bytes, get_values}

-- What a list of writes leaves on a page of zeros.
abbrev pub flat : List PageWrite → List ℕ
flat [] = []
flat (put_write bytes ∷ ws) = bytes ++ flat ws
flat (skip_write n ∷ ws) = zero_bytes n ++ flat ws
flat (throw_write ∷ ws) = flat ws

-- No exception among the writes.
abbrev pub NoThrow : List PageWrite → Type 0
NoThrow [] = Unit
NoThrow (put_write bytes ∷ ws) = NoThrow ws
NoThrow (skip_write n ∷ ws) = NoThrow ws
NoThrow (throw_write ∷ ws) = ⊥

pub flat-append : (a b : List PageWrite) → flat (a ++ b) ≡ flat a ++ flat b
flat-append [] b = refl
flat-append (put_write bytes ∷ ws) b =
    ap (λ l. bytes ++ l) (flat-append ws b) ∙ sym (append_assoc bytes (flat ws) (flat b))
flat-append (skip_write n ∷ ws) b =
    ap (λ l. zero_bytes n ++ l) (flat-append ws b)
    ∙ sym (append_assoc (zero_bytes n) (flat ws) (flat b))
flat-append (throw_write ∷ ws) b = flat-append ws b

pub NoThrow-append : (a b : List PageWrite) → NoThrow a → NoThrow b → NoThrow (a ++ b)
NoThrow-append [] b h g = g
NoThrow-append (put_write bytes ∷ ws) b h g = NoThrow-append ws b h g
NoThrow-append (skip_write n ∷ ws) b h g = NoThrow-append ws b h g
NoThrow-append (throw_write ∷ ws) b h g = elim h [ ]

pub length-pad : (d n : ℕ) (xs : List ℕ) → length (pad d n xs) ≡ n
length-pad d zero xs = refl
length-pad d (suc n) [] = ap suc (length-pad d n [])
length-pad d (suc n) (x ∷ xs) = ap suc (length-pad d n xs)

drop-zero_bytes : (n k : ℕ) → drop n (zero_bytes k) ≡ zero_bytes (k - n)
drop-zero_bytes zero k = let e : k ≡ k - 0 = omega arith in ap zero_bytes e
drop-zero_bytes (suc n) zero = let e : 0 ≡ 0 - suc n = omega arith in ap zero_bytes e
drop-zero_bytes (suc n) (suc k) =
    let e : k - n ≡ suc k - suc n = omega arith in drop-zero_bytes n k ∙ ap zero_bytes e

split-zero_bytes : (n k : ℕ) → n ≤ k → zero_bytes n ++ zero_bytes (k - n) ≡ zero_bytes k
split-zero_bytes zero k h = let e : k - 0 ≡ k = omega arith in ap zero_bytes e
split-zero_bytes (suc n) zero h = absurd (omega arith)
split-zero_bytes (suc n) (suc k) h =
    let e : suc k - suc n ≡ k - n = omega arith in
    ap (λ j. 0 ∷ (zero_bytes n ++ zero_bytes j)) e
    ∙ ap (λ l. 0 ∷ l) (split-zero_bytes n k (omega arith))

pub drop-behind : (pre zs : List ℕ) (n : ℕ) → drop (length pre + n) (pre ++ zs) ≡ drop n zs
drop-behind [] zs n = let e : 0 + n ≡ n = omega arith in ap (λ j. drop j zs) e
drop-behind (x ∷ pre) zs n =
    let e : suc (length pre) + n ≡ suc (length pre + n) = omega arith in
    ap (λ j. drop j (x ∷ pre ++ zs)) e ∙ drop-behind pre zs n

put_bytes-zero_bytes :
    (bytes pre : List ℕ) (k : ℕ)
    → length bytes ≤ k
    → put_bytes bytes (pre ++ zero_bytes k) (length pre)
      ≡ some ((pre ++ bytes) ++ zero_bytes (k - length bytes), length (pre ++ bytes))
unfolding put_bytes
put_bytes-zero_bytes bytes pre k fits = ground (
  arith,
  length-append pre (zero_bytes k),
  length-pad 0 k [],
  length-append pre bytes,
  take-append_length pre (zero_bytes k),
  drop-behind pre (zero_bytes k) (length bytes),
  drop-zero_bytes (length bytes) k,
  append_assoc pre bytes (zero_bytes (k - length bytes)),
)

-- A page that is written up to an offset, and zeros behind.
abbrev pub written : List ℕ → ℕ → Option (List ℕ × ℕ)
written front k = some (front ++ zero_bytes k, length front)

regroup :
    (pre b c : List ℕ) (k : ℕ)
    → written ((pre ++ b) ++ c) (k - length b - length c)
      ≡ written (pre ++ (b ++ c)) (k - length (b ++ c))
regroup pre b c k =
    let left : k - length b - length c ≡ k - length (b ++ c) = omega (arith, length-append b c) in
    ap (λ l. written l (k - length b - length c)) (append_assoc pre b c)
    ∙ ap (written (pre ++ (b ++ c))) left

pub put_all-flat :
    (ws : List PageWrite) (pre : List ℕ) (k : ℕ)
    → NoThrow ws
    → length (flat ws) ≤ k
    → put_all ws (pre ++ zero_bytes k) (length pre)
      ≡ written (pre ++ flat ws) (k - length (flat ws))
unfolding put_all
put_all-flat [] pre k h fits = ground (arith, append-nil pre)
put_all-flat (put_write bytes ∷ ws) pre k h fits =
    let total = length-append bytes (flat ws) in
    rw (put_bytes-zero_bytes bytes pre k (omega (arith, fits, total)), put_all)
      (put_all-flat ws (pre ++ bytes) (k - length bytes) h (omega (arith, fits, total))
        ∙ regroup pre bytes (flat ws) k)
put_all-flat (skip_write n ∷ ws) pre k h fits =
    let total = length-append (zero_bytes n) (flat ws) in
    let blank = length-pad 0 n [] in
    let room : ltb (length (pre ++ zero_bytes k)) (length pre + n) ≡ false =
      ground (arith, length-append pre (zero_bytes k), length-pad 0 k [], total, blank, fits) in
    let page : pre ++ zero_bytes k ≡ (pre ++ zero_bytes n) ++ zero_bytes (k - n) =
      ap (λ l. pre ++ l) (sym (split-zero_bytes n k (omega (arith, fits, total, blank))))
      ∙ sym (append_assoc pre (zero_bytes n) (zero_bytes (k - n))) in
    let offset : length pre + n ≡ length (pre ++ zero_bytes n) =
      omega (arith, length-append pre (zero_bytes n), blank) in
    let left : k - n ≡ k - length (zero_bytes n) = omega (arith, blank) in
    rw room (
      ap (λ p. put_all ws p (length pre + n)) page
      ∙ ap (put_all ws _) offset
      ∙ put_all-flat ws (pre ++ zero_bytes n) (k - n) h (omega (arith, fits, total, blank))
      ∙ ap (λ j. written ((pre ++ zero_bytes n) ++ flat ws) (j - length (flat ws))) left
      ∙ regroup pre (zero_bytes n) (flat ws) k)
put_all-flat (throw_write ∷ ws) pre k h fits = elim h [ ]

-- The bytes of values of `w` bytes.
abbrev pub value_bytes : ℕ → List ℕ → List ℕ
value_bytes w [] = []
value_bytes w (v ∷ vs) = le_bytes w v ++ value_bytes w vs

pub flat-value_writes : (w : ℕ) (vs : List ℕ) → flat (value_writes w vs) ≡ value_bytes w vs
flat-value_writes w [] = refl
flat-value_writes w (v ∷ vs) = ap (λ l. le_bytes w v ++ l) (flat-value_writes w vs)

pub NoThrow-value_writes : (w : ℕ) (vs : List ℕ) → NoThrow (value_writes w vs)
NoThrow-value_writes w [] = tt
NoThrow-value_writes w (v ∷ vs) = NoThrow-value_writes w vs

pub value_bytes-append :
    (w : ℕ) (vs us : List ℕ) → value_bytes w (vs ++ us) ≡ value_bytes w vs ++ value_bytes w us
value_bytes-append w [] us = refl
value_bytes-append w (v ∷ vs) us =
    ap (λ l. le_bytes w v ++ l) (value_bytes-append w vs us)
    ∙ sym (append_assoc (le_bytes w v) (value_bytes w vs) (value_bytes w us))

-- The bytes stand on the page at the cursor.
abbrev pub At : List ℕ → ℕ → List ℕ → Type 0
At page cursor bytes =
    (pre : List ℕ) × (post : List ℕ) × (page ≡ pre ++ (bytes ++ post)) × (length pre ≡ cursor)

pub At-front : (page : List ℕ) (c : ℕ) (a b : List ℕ) → At page c (a ++ b) → At page c a
At-front page c a b (pre, post, e, l) =
    (pre, b ++ post, e ∙ ap (λ t. pre ++ t) (append_assoc a b post), l)

pub At-back : (page : List ℕ) (c : ℕ) (a b : List ℕ) → At page c (a ++ b) → At page (c + length a) b
At-back page c a b (pre, post, e, l) = (
  pre ++ a,
  post,
  e ∙ ap (λ t. pre ++ t) (append_assoc a b post) ∙ sym (append_assoc pre a (b ++ post)),
  omega (arith, length-append pre a, l),
)

pub At-room : (page : List ℕ) (c : ℕ) (a : List ℕ) → At page c a → c + length a ≤ length page
At-room page c a (pre, post, e, l) =
    omega (
      arith,
      ap (λ (t : List ℕ). length t) e,
      length-append pre (a ++ post),
      length-append a post,
      l,
    )

pub At-drop : (page : List ℕ) (c : ℕ) (a : List ℕ) → (h : At page c a) → drop c page ≡ a ++ h.1
At-drop page c a (pre, post, e, l) =
    ap (λ j. drop j page) (sym l) ∙ ap (drop (length pre)) e ∙ drop-append_length pre (a ++ post)

pub get_bytes-At :
    (w v : ℕ) (page : List ℕ) (c : ℕ)
    → v < 256 ^ w
    → At page c (le_bytes w v)
    → get_bytes w page c ≡ some (v, c + w)
unfolding get_bytes
get_bytes-At w v page c small here = ground (
  arith,
  At-room page c (le_bytes w v) here,
  length-le_bytes w v,
  At-drop page c (le_bytes w v) here,
  take-append_eq w (le_bytes w v) here.1 (length-le_bytes w v),
  from_le-le_bytes w v small,
)

pub length-value_bytes : (w : ℕ) (vs : List ℕ) → length (value_bytes w vs) ≡ w * length vs
length-value_bytes w [] = omega arith
length-value_bytes w (v ∷ vs) = omega (
  arith,
  length-append (le_bytes w v) (value_bytes w vs),
  length-le_bytes w v,
  length-value_bytes w vs,
)

pub get_values-At :
    (w : ℕ) (vs : List ℕ) (page : List ℕ) (c : ℕ)
    → All (λ v. v < 256 ^ w) vs
    → At page c (value_bytes w vs)
    → get_values w (length vs) page c ≡ some (vs, c + w * length vs)
unfolding get_values
get_values-At w [] page c h here = ground arith
get_values-At w (v ∷ vs) page c (small, h) here =
    let first =
      get_bytes-At w v page c small (At-front page c (le_bytes w v) (value_bytes w vs) here) in
    let step : c + length (le_bytes w v) ≡ c + w = omega (arith, length-le_bytes w v) in
    let behind : At page (c + w) (value_bytes w vs) =
      subst (λ j. At page j (value_bytes w vs)) step
        (At-back page c (le_bytes w v) (value_bytes w vs) here) in
    let rest = get_values-At w vs page (c + w) h behind in
    let total : c + w + w * length vs ≡ c + w * suc (length vs) = omega arith in
    rw (first, get_values, rest) (ap (λ j. some (v ∷ vs, j)) total)
