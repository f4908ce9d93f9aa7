-- ===== src/Bytes/Readers.antt =====
-- Readers look at no byte behind the one that they stop at, and give none back.
use mathlib.Core.Path.{subst}
use agent_aware.Prelude.{
  ℕ, ◌+◌, ◌*◌, ◌≤◌, ◌≡◌, Bool, true, false, none, some, List, ◌++◌, length, if◌then◌else◌, arith,
  Option-cases, inl, inr, refl, ap, Option, zero, suc, drop,
}
use agent_aware.Bytes.{Reader, words_of, pure, fail, ◌>>=◌, read_bytes, read_value, read_words}
use agent_aware.Bytes.Laws.{read_bytes-extend, read_bytes-eq-some}

-- `p` takes at least `least` bytes where it succeeds, and does not look at what follows them.
pub record Reads {A : Type 0} (least : ℕ) (p : Reader A) : Type 0 where
  pub extend :
      (input more : List ℕ) (a : A) (rest : List ℕ)
      → p input ≡ some (a, rest)
      → p (input ++ more) ≡ some (a, rest ++ more)
  pub shrinks :
      (input : List ℕ) (a : A) (rest : List ℕ)
      → p input ≡ some (a, rest)
      → least + length rest ≤ length input

pub Reads-read_bytes : (n : ℕ) → Reads n (read_bytes n)
Reads-read_bytes n = record {
  extend = read_bytes-extend n;
  shrinks = λ input bytes rest e. omega (arith, read_bytes-eq-some n input bytes rest e);
}

module _ {A : Type 0} where
  pub Reads-pure : (a : A) → Reads 0 (pure a)
  unfolding pure
  Reads-pure a = record {
    extend = λ input more b rest e. ground arith;
    shrinks = λ input b rest e. ground arith;
  }

  pub Reads-fail : Reads 0 (fail {A = A})
  unfolding fail
  Reads-fail = record { extend = λ input more b rest e. cc; shrinks = λ input b rest e. cc }

  pub Reads-if : (b : Bool) (p q : Reader A) → Reads 0 p → Reads 0 q → Reads 0 (if b then p else q)
  Reads-if true p q hp hq = hp
  Reads-if false p q hp hq = hq

module _ {A B : Type 0} where
  pub Reads-bind :
      (m n : ℕ) (p : Reader A) (f : A → Reader B)
      → Reads m p
      → ((a : A) → Reads n (f a))
      → Reads (m + n) (p >>= f)
  unfolding ◌>>=◌
  Reads-bind m n p f hp hf = record {
    extend = λ input more b rest e. elim (Option-cases (p input)) [
      | inl no_read ↦ cc
      | inr ((a, mid), read) ↦
          ground (arith, hp.extend input more a mid read, (hf a).extend mid more b rest)
    ];
    shrinks = λ input b rest e. elim (Option-cases (p input)) [
      | inl no_read ↦ cc
      | inr ((a, mid), read) ↦
          ground (arith, hp.shrinks input a mid read, (hf a).shrinks mid b rest)
    ];
  }

pub Reads-le : {A : Type 0} (k m : ℕ) (p : Reader A) → k ≤ m → Reads m p → Reads k p
Reads-le k m p h hp = record {
  extend = hp.extend;
  shrinks = λ input a rest e. omega (arith, hp.shrinks input a rest e);
}

pub Reads-read_value : (w : ℕ) → Reads w (read_value w)
unfolding read_value
Reads-read_value w =
    Reads-le w (w + 0) _ (omega arith)
      (Reads-bind w 0 (read_bytes w) _ (Reads-read_bytes w) (λ a. Reads-pure _))

pub Reads-read_words : (n : ℕ) → Reads 0 (read_words n)
unfolding read_words
Reads-read_words n =
    Reads-le 0 (4 * n + 0) _ (omega arith)
      (Reads-bind (4 * n) 0 (read_bytes (4 * n)) _ (Reads-read_bytes (4 * n)) (λ a. Reads-pure _))

-- Whatever the input, a result of `p` satisfies `P`.
pub record Returns {A : Type 0} (P : A → Type 0) (p : Reader A) : Type 0 where
  pub result : (input : List ℕ) (a : A) (rest : List ℕ) → p input ≡ some (a, rest) → P a

module _ {A : Type 0} (P : A → Type 0) where
  pub Returns-pure : (a : A) → P a → Returns P (pure a)
  unfolding pure
  Returns-pure a h = record {
    result = λ input b rest e. subst P (ap (λ (o : Option (A × List ℕ)). first o) e) h;
  }
    where
      first : Option (A × List ℕ) → A
      first none = a
      first (some (b, rest)) = b

  pub Returns-fail : Returns P fail
  unfolding fail
  Returns-fail = record { result = λ input b rest e. cc }

  pub Returns-if :
      (b : Bool) (p q : Reader A)
      → (b ≡ true → Returns P p)
      → (b ≡ false → Returns P q)
      → Returns P (if b then p else q)
  Returns-if true p q hp hq = hp refl
  Returns-if false p q hp hq = hq refl

module _ {A B : Type 0} (Q : A → Type 0) (P : B → Type 0) where
  pub Returns-bind :
      (p : Reader A) (f : A → Reader B)
      → Returns Q p
      → ((a : A) → Q a → Returns P (f a))
      → Returns P (p >>= f)
  unfolding ◌>>=◌
  Returns-bind p f hp hf = record {
    result = λ input b rest e. elim (Option-cases (p input)) [
      | inl no_read ↦ cc
      | inr ((a, mid), read) ↦
          (hf a (hp.result input a mid read)).result mid b rest (rw (read, ◌>>=◌) at e)
    ];
  }

-- A result of a bind and the first part's result, where they are related.
pub bind_result :
    {A B : Type 0} (P : A → B → Type 0) (p : Reader A) (f : A → Reader B) (input : List ℕ) (b : B)
    (rest : List ℕ)
    → ((a : A) → Returns (P a) (f a))
    → (p >>= f) input ≡ some (b, rest)
    → (a : A) × (mid : List ℕ) × (p input ≡ some (a, mid)) × P a b
unfolding ◌>>=◌
bind_result P p f input b rest h e = elim (Option-cases (p input)) [
  | inl no_read ↦ cc
  | inr ((a, mid), read) ↦ (a, mid, read, (h a).result mid b rest (rw (read, ◌>>=◌) at e))
]

pub Returns-any : {A : Type 0} (p : Reader A) → Returns (λ _. Unit {0}) p
Returns-any p = record { result = λ input a rest e. tt }

length-words_of : (n : ℕ) (bs : List ℕ) → length (words_of n bs) ≡ n
unfolding words_of
length-words_of zero bs = refl
length-words_of (suc n) bs = ap suc (length-words_of n (drop 4 bs))

pub Returns-read_words : (n : ℕ) → Returns (λ ws. length ws ≡ n) (read_words n)
unfolding read_words
Returns-read_words n =
    Returns-bind (λ _. Unit {0}) _ (read_bytes (4 * n)) _ (Returns-any _)
      (λ bytes _. Returns-pure _ (words_of n bytes) (length-words_of n bytes))
