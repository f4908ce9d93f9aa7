-- ===== src/Prelude/TopK.antt =====
-- The best `k` elements of a list under a comparison, as a sort and a cut find them and as a bounded
-- priority queue finds them.
use Prim.Native.Nat.{ℕ, zero, suc, ◌+◌, min}
use mathlib.Core.Path.{◌≡◌, refl, sym, ap, ◌∙◌}
use mathlib.Core.Bool.{Bool, false}
use mathlib.Core.List.{List, [], ◌∷◌, ◌++◌, Perm}
use mathlib.Core.Logic.{inl, inr}
use native.Mathlib.Omega.{arith}
use agent_aware.Prelude.Tests.{Bool-cases}
use agent_aware.Prelude.Lists.{All, length, take, drop, length-take, length-drop, take-append-drop}
use agent_aware.Prelude.Sort.{
  insert_by, sort_by, IsSorted, IsStrictWeak, perm-sort_by, sort_by-IsSorted,
}
use mathlib.Core.Path.{subst}

module _ {A : Type 0} (less : A → A → Bool) where
  -- A cut of a rearrangement of `xs`: as many as asked for, and none of the others is less.
  pub record IsBest (k : ℕ) (xs out : List A) : Type 0 where
    pub count : length out ≡ min k (length xs)
    pub rest : List A
    pub total : length out + length rest ≡ length xs
    pub parts : Perm (out ++ rest) xs
    pub beaten : All (λ (y : A). All (λ (x : A). less y x ≡ false) out) rest

  -- The best `k` elements of `xs` are `out`, in ascending order.
  pub record IsTopK (k : ℕ) (xs out : List A) : Type 0 where
    pub best : IsBest k xs out
    pub sorted : IsSorted less out

  pub length-insert_by :
      (order : A → A → Bool) (x : A) (ys : List A) → length (insert_by order x ys) ≡ suc (length ys)
  unfolding insert_by
  length-insert_by order x [] = refl
  length-insert_by order x (y ∷ ys) = elim (Bool-cases (order y x)) [
    | inl lt ↦ rw lt (ap suc (length-insert_by order x ys))
    | inr ge ↦ rw ge refl
  ]

  pub length-sort_by : (xs : List A) → length (sort_by less xs) ≡ length xs
  unfolding sort_by
  length-sort_by [] = refl
  length-sort_by (x ∷ xs) = length-insert_by less x (sort_by less xs) ∙ ap suc (length-sort_by xs)

  IsSorted-cut :
      (k : ℕ) (xs : List A)
      → IsSorted less xs
      → IsSorted less (take k xs)
        × All (λ (y : A). All (λ (x : A). less y x ≡ false) (take k xs)) (drop k xs)
  IsSorted-cut zero xs h = (tt, no_bound xs)
    where
      no_bound : (ys : List A) → All (λ (y : A). All (λ (x : A). less y x ≡ false) []) ys
      no_bound [] = tt
      no_bound (y ∷ ys) = (tt, no_bound ys)
  IsSorted-cut (suc k) [] h = (tt, tt)
  IsSorted-cut (suc k) (x ∷ xs) (low, h) =
      let (s, b) = IsSorted-cut k xs h in
      let (l, r) = cut (λ (y : A). less y x ≡ false) k xs low in
      ((l, s), both (λ (y : A). less y x ≡ false) _ (drop k xs) r b)
    where
      cut :
          (P : A → Type 0) (k : ℕ) (ys : List A) → All P ys → All P (take k ys) × All P (drop k ys)
      cut P zero ys h = (tt, h)
      cut P (suc k) [] h = (tt, tt)
      cut P (suc k) (y ∷ ys) (p, h) = let (l, r) = cut P k ys h in ((p, l), r)

      both : (P Q : A → Type 0) (ys : List A) → All P ys → All Q ys → All (λ (y : A). P y × Q y) ys
      both P Q [] h g = tt
      both P Q (y ∷ ys) (p, h) (q, g) = ((p, q), both P Q ys h g)

  -- A sort and a cut find the best `k`.
  pub take-sort_by-IsTopK :
      IsStrictWeak less → (k : ℕ) (xs : List A) → IsTopK k xs (take k (sort_by less xs))
  take-sort_by-IsTopK w k xs =
      let (s, b) = IsSorted-cut k (sort_by less xs) (sort_by-IsSorted less w xs) in
      record {
        best = record {
          count = length-take k (sort_by less xs) ∙ ap (min k) (length-sort_by xs);
          rest = drop k (sort_by less xs);
          total = omega (
            arith,
            length-take k (sort_by less xs),
            length-drop k (sort_by less xs),
            length-sort_by xs,
          );
          parts =
              subst (λ l. Perm l xs) (sym (take-append-drop k (sort_by less xs)))
                (perm-sort_by less xs);
          beaten = b;
        };
        sorted = s;
      }
