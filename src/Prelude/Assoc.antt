-- ===== src/Prelude/Assoc.antt =====
-- `std::unordered_map` with number keys, as an association list: a write to a key that is there
-- replaces its value in place. The order of the entries is never used: each walk of the source
-- over a map is followed by a sort, or by one that does not depend on it.
use Prim.Native.Nat.{ℕ, ◌+◌, ◌≤◌, ◌<◌}
use mathlib.Core.Path.{◌≡◌, refl}
use mathlib.Core.Option.{Option, none, some}
use mathlib.Core.List.{List, [], ◌∷◌}
use native.Mathlib.Omega.{arith}
use mathlib.Core.Logic.{◌⊎◌, inl, inr}
use agent_aware.Prelude.Tests.{◌==◌, if◌then◌else◌, Bool-cases}
use agent_aware.Prelude.Lists.{length}

module _ {ℓ} {V : Type ℓ} where
  unfoldable pub find : ℕ → List (ℕ × V) → Option V
  find k [] = none
  find k ((j, v) ∷ m) = if j == k then some v else find k m

  unfoldable pub put : ℕ → V → List (ℕ × V) → List (ℕ × V)
  put k v [] = (k, v) ∷ []
  put k v ((j, w) ∷ m) = if j == k then (k, v) ∷ m else (j, w) ∷ put k v m

  unfoldable pub erase : ℕ → List (ℕ × V) → List (ℕ × V)
  erase k [] = []
  erase k ((j, w) ∷ m) = let rest = erase k m in if j == k then rest else (j, w) ∷ rest

  abbrev pub values : List (ℕ × V) → List V
  values [] = []
  values ((k, v) ∷ m) = v ∷ values m

  pub find-put :
      (k j : ℕ) (v : V) (m : List (ℕ × V))
      → find j (put k v m) ≡ (if k == j then some v else find j m)
  unfolding find put
  find-put k j v [] = refl
  find-put k j v ((i, w) ∷ m) = ground (arith, find-put k j v m)

  pub find-erase :
      (k j : ℕ) (m : List (ℕ × V)) → find j (erase k m) ≡ (if k == j then none else find j m)
  unfolding find erase
  find-erase k j [] = ground arith
  find-erase k j ((i, w) ∷ m) = ground (arith, find-erase k j m)

  pub find-erase_same : (k : ℕ) (m : List (ℕ × V)) → find k (erase k m) ≡ none
  unfolding find erase
  find-erase_same k [] = refl
  find-erase_same k ((i, w) ∷ m) = ground (arith, find-erase_same k m)

  -- No key stands twice.
  abbrev pub HasDistinctKeys : List (ℕ × V) → Type ℓ
  HasDistinctKeys [] = Unit
  HasDistinctKeys ((k, v) ∷ m) = (find k m ≡ none) × HasDistinctKeys m

  pub put-HasDistinctKeys :
      (k : ℕ) (v : V) (m : List (ℕ × V)) → HasDistinctKeys m → HasDistinctKeys (put k v m)
  unfolding put find
  put-HasDistinctKeys k v [] h = (refl, tt)
  put-HasDistinctKeys k v ((j, w) ∷ m) (fresh, h) = elim (Bool-cases (j == k)) [
    | inl same ↦ rw same (ground arith, h)
    | inr other ↦ rw other (ground (arith, find-put k j v m), put-HasDistinctKeys k v m h)
  ]

  pub erase-HasDistinctKeys :
      (k : ℕ) (m : List (ℕ × V)) → HasDistinctKeys m → HasDistinctKeys (erase k m)
  unfolding erase find
  erase-HasDistinctKeys k [] h = tt
  erase-HasDistinctKeys k ((j, w) ∷ m) (fresh, h) = elim (Bool-cases (j == k)) [
    | inl same ↦ rw same (erase-HasDistinctKeys k m h)
    | inr other ↦ rw other (ground (arith, find-erase k j m), erase-HasDistinctKeys k m h)
  ]

  pub length-put_old :
      (k : ℕ) (v w : V) (m : List (ℕ × V)) → find k m ≡ some w → length (put k v m) ≡ length m
  unfolding find put
  length-put_old k v w [] h = cc
  length-put_old k v w ((i, u) ∷ m) h = ground (arith, length-put_old k v w m)

  pub length-put_le : (k : ℕ) (v : V) (m : List (ℕ × V)) → length (put k v m) ≤ length m + 1
  unfolding put
  length-put_le k v [] = omega arith
  length-put_le k v ((i, u) ∷ m) = ground (arith, length-put_le k v m)

  length-erase_le : (k : ℕ) (m : List (ℕ × V)) → length (erase k m) ≤ length m
  unfolding erase
  length-erase_le k [] = omega arith
  length-erase_le k ((i, u) ∷ m) = ground (arith, length-erase_le k m)

  pub length-erase_lt :
      (k : ℕ) (w : V) (m : List (ℕ × V)) → find k m ≡ some w → length (erase k m) < length m
  unfolding find erase
  length-erase_lt k w [] h = cc
  length-erase_lt k w ((i, u) ∷ m) h = ground (arith, length-erase_lt k w m, length-erase_le k m)

module _ {V : Type 0} where
  -- A member of the list of entries.
  abbrev pub HasEntry : ℕ × V → List (ℕ × V) → Type 0
  HasEntry x [] = ⊥
  HasEntry x (y ∷ m) = (x ≡ y) ⊎ HasEntry x m

  pub find-HasEntry :
      (x : ℕ × V) (m : List (ℕ × V)) → HasDistinctKeys m → HasEntry x m → find x.0 m ≡ some x.1
  unfolding find
  find-HasEntry x [] h here = elim here [ ]
  find-HasEntry x ((k, v) ∷ m) (fresh, h) (inl e) = ground (arith, e)
  find-HasEntry x ((k, v) ∷ m) (fresh, h) (inr there) =
      let found : find x.0 m ≡ some x.1 = find-HasEntry x m h there in ground (arith, found, fresh)

  pub HasEntry-find : (k : ℕ) (v : V) (m : List (ℕ × V)) → find k m ≡ some v → HasEntry (k, v) m
  unfolding find
  HasEntry-find k v [] e = cc
  HasEntry-find k v ((j, w) ∷ m) e = elim (Bool-cases (j == k)) [
    | inl same ↦ inl (ground arith)
    | inr other ↦ inr (HasEntry-find k v m (ground arith))
  ]

-- Sums over the values of a map.
module _ {ℓ} {V : Type ℓ} (weight : V → ℕ) where
  unfoldable pub total : List (ℕ × V) → ℕ
  total [] = 0
  total ((k, v) ∷ m) = weight v + total m

  pub total-put_new :
      (k : ℕ) (v : V) (m : List (ℕ × V)) → find k m ≡ none → total (put k v m) ≡ total m + weight v
  unfolding find put total
  total-put_new k v [] h = omega arith
  total-put_new k v ((i, w) ∷ m) h = ground (arith, total-put_new k v m)

  pub total-put_old :
      (k : ℕ) (v w : V) (m : List (ℕ × V))
      → find k m ≡ some w
      → total (put k v m) + weight w ≡ total m + weight v
  unfolding find put total
  total-put_old k v w [] h = cc
  total-put_old k v w ((i, u) ∷ m) h = ground (arith, total-put_old k v w m)
