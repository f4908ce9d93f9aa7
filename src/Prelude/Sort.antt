-- ===== src/Prelude/Sort.antt =====
-- `std::sort` by a comparison, as a stable insertion sort, and what it promises for a comparison
-- that is a strict weak order. The source's comparisons break ties by ids.
use mathlib.Core.Path.{◌≡◌}
use mathlib.Core.Bool.{Bool, true, false}
use mathlib.Core.List.{List, [], ◌∷◌, Perm}
use mathlib.Core.List.Perm
use agent_aware.Prelude.Tests.{if◌then◌else◌, Bool-cases}
use agent_aware.Prelude.Lists.{All, All-imp}
use mathlib.Core.Logic.{inl, inr}

module _ {A : Type 0} (less : A → A → Bool) where
  unfoldable pub insert_by : A → List A → List A
  insert_by x [] = x ∷ []
  insert_by x (y ∷ ys) = if less y x then y ∷ insert_by x ys else x ∷ y ∷ ys

  unfoldable pub sort_by : List A → List A
  sort_by [] = []
  sort_by (x ∷ xs) = insert_by x (sort_by xs)

  -- No element comes before one that is less.
  abbrev pub IsSorted : List A → Type 0
  IsSorted [] = Unit
  IsSorted (x ∷ xs) = All (λ (y : A). less y x ≡ false) xs × IsSorted xs

  pub record IsStrictWeak : Type 0 where
    pub asym : (a b : A) → less a b ≡ true → less b a ≡ false
    pub not_trans : (a b c : A) → less b a ≡ false → less c b ≡ false → less c a ≡ false

  pub perm-insert_by : (x : A) (ys : List A) → Perm (insert_by x ys) (x ∷ ys)
  unfolding insert_by
  perm-insert_by x [] = Perm.refl _
  perm-insert_by x (y ∷ ys) = elim (Bool-cases (less y x)) [
    | inl lt ↦ rw lt (Perm.trans (Perm.cons y (perm-insert_by x ys)) (Perm.swap x y ys))
    | inr ge ↦ rw ge (Perm.refl _)
  ]

  -- A sort rearranges.
  pub perm-sort_by : (xs : List A) → Perm (sort_by xs) xs
  unfolding sort_by
  perm-sort_by [] = Perm.refl _
  perm-sort_by (x ∷ xs) = Perm.trans (perm-insert_by x (sort_by xs)) (Perm.cons x (perm-sort_by xs))

  pub All-insert_by :
      (P : A → Type 0) (x : A) (ys : List A) → P x → All P ys → All P (insert_by x ys)
  unfolding insert_by
  All-insert_by P x [] p h = (p, tt)
  All-insert_by P x (y ∷ ys) p (hy, h) = elim (Bool-cases (less y x)) [
    | inl lt ↦ rw lt (hy, All-insert_by P x ys p h)
    | inr ge ↦ rw ge (p, (hy, h))
  ]

  pub All-sort_by : (P : A → Type 0) (xs : List A) → All P xs → All P (sort_by xs)
  unfolding sort_by
  All-sort_by P [] h = tt
  All-sort_by P (x ∷ xs) (p, h) = All-insert_by P x (sort_by xs) p (All-sort_by P xs h)

  pub insert_by-IsSorted :
      IsStrictWeak → (x : A) (ys : List A) → IsSorted ys → IsSorted (insert_by x ys)
  unfolding insert_by
  insert_by-IsSorted w x [] h = (tt, tt)
  insert_by-IsSorted w x (y ∷ ys) (low, h) = elim (Bool-cases (less y x)) [
    | inl lt ↦ rw lt (
      All-insert_by (λ (z : A). less z y ≡ false) x ys (w.asym y x lt) low,
      insert_by-IsSorted w x ys h,
    )
    | inr ge ↦ rw ge (
      (ge, All-imp (λ (z : A). less z y ≡ false) _ ys (λ z f. w.not_trans x y z ge f) low),
      (low, h),
    )
  ]

  -- A sort sorts.
  pub sort_by-IsSorted : IsStrictWeak → (xs : List A) → IsSorted (sort_by xs)
  unfolding sort_by
  sort_by-IsSorted w [] = tt
  sort_by-IsSorted w (x ∷ xs) = insert_by-IsSorted w x (sort_by xs) (sort_by-IsSorted w xs)
