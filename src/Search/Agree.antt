-- ===== src/Search/Agree.antt =====
-- Two comparisons that agree on the elements of a list sort it alike, and fill a bounded queue alike.
use agent_aware.Prelude.{
  ℕ, suc, ◌≡◌, refl, ap, ◌∙◌, Bool, List, [], ◌∷◌, length, All, ltb, if◌then◌else◌, Bool-cases, inl,
  inr,
}
use agent_aware.Prelude.Sort.{insert_by, sort_by, All-insert_by, All-sort_by}
use agent_aware.Prelude.Heap.{worse, push_bounded, fill}

module _ {A : Type 0} (P : A → Type 0) where
  -- The comparisons agree on elements of `P`.
  abbrev pub Agree : (A → A → Bool) → (A → A → Bool) → Type 0
  Agree f g = (a b : A) → P a → P b → f a b ≡ g a b

  insert_by-Agree :
      (f g : A → A → Bool)
      → Agree f g
      → (x : A) (ys : List A) → P x
      → All P ys
      → insert_by f x ys ≡ insert_by g x ys
  unfolding insert_by
  insert_by-Agree f g e x [] p h = refl
  insert_by-Agree f g e x (y ∷ ys) p (q, h) =
      ap (λ b. if b then y ∷ insert_by f x ys else x ∷ y ∷ ys) (e y x q p)
      ∙ ap (λ l. if g y x then y ∷ l else x ∷ y ∷ ys) (insert_by-Agree f g e x ys p h)

  pub sort_by-Agree :
      (f g : A → A → Bool) → Agree f g → (xs : List A) → All P xs → sort_by f xs ≡ sort_by g xs
  unfolding sort_by
  sort_by-Agree f g e [] h = refl
  sort_by-Agree f g e (x ∷ xs) (p, h) =
      insert_by-Agree f g e x (sort_by f xs) p (All-sort_by f P xs h)
      ∙ ap (insert_by g x) (sort_by-Agree f g e xs h)

  All-push_bounded :
      (f : A → A → Bool) (k : ℕ) (x : A) (heap : List A)
      → P x
      → All P heap
      → All P (push_bounded f k x heap)
  unfolding push_bounded
  All-push_bounded f k x [] p h = elim (Bool-cases (ltb 0 k)) [
    | inl room ↦ rw room (p, tt)
    | inr full ↦ rw full tt
  ]
  All-push_bounded f k x (w ∷ heap) p (q, h) = elim (Bool-cases (ltb (suc (length heap)) k)) [
    | inl room ↦ rw room (All-insert_by (worse f) P x (w ∷ heap) p (q, h))
    | inr full ↦ elim (Bool-cases (f x w)) [
      | inl better ↦ rw (full, better) (All-insert_by (worse f) P x heap p h)
      | inr not_better ↦ rw (full, not_better) (q, h)
    ]
  ]

  worse-Agree : (f g : A → A → Bool) → Agree f g → Agree (worse f) (worse g)
  unfolding worse
  worse-Agree f g e a b p q = e b a q p

  push_bounded-Agree :
      (f g : A → A → Bool)
      → Agree f g
      → (k : ℕ) (x : A) (heap : List A) → P x
      → All P heap
      → push_bounded f k x heap ≡ push_bounded g k x heap
  unfolding push_bounded
  push_bounded-Agree f g e k x [] p h = refl
  push_bounded-Agree f g e k x (w ∷ heap) p (q, h) =
      let grown = insert_by-Agree (worse f) (worse g) (worse-Agree f g e) x (w ∷ heap) p (q, h) in
      let swapped = insert_by-Agree (worse f) (worse g) (worse-Agree f g e) x heap p h in
      rw (grown, swapped, e x w p q) refl

  pub fill-Agree :
      (f g : A → A → Bool)
      → Agree f g
      → (k : ℕ) (heap xs : List A) → All P heap
      → All P xs
      → (fill f k heap xs ≡ fill g k heap xs) × All P (fill f k heap xs)
  unfolding fill
  fill-Agree f g e k heap [] h hs = (refl, h)
  fill-Agree f g e k heap (x ∷ xs) h (p, hs) =
      let (same, kept) =
        fill-Agree f g e k (push_bounded f k x heap) xs (All-push_bounded f k x heap p h) hs in
      (same ∙ ap (λ l. fill g k l xs) (push_bounded-Agree f g e k x heap p h), kept)
