-- ===== src/Prelude/Heap.antt =====
-- A bounded priority queue, as its content with the worst element first: `std::priority_queue` has
-- the greatest element on top. It ends with the best elements of what it has seen.
use Prim.Native.Nat.{ℕ, ◌+◌, ◌<◌, ◌≤◌}
use mathlib.Core.Path.{◌≡◌, refl, sym, ap, ◌∙◌, subst}
use mathlib.Core.Bool.{Bool, true, false}
use mathlib.Core.List.{List, [], ◌∷◌, ◌++◌, Perm, append-nil, perm_middle}
use mathlib.Core.List.Perm
use mathlib.Core.Logic.{inl, inr}
use native.Mathlib.Omega.{arith}
use agent_aware.Prelude.Tests.{if◌then◌else◌, Bool-cases, ltb}
use agent_aware.Prelude.Lists.{All, All-imp, length}
use agent_aware.Prelude.Sort.{
  insert_by, sort_by, IsSorted, IsStrictWeak, perm-insert_by, perm-sort_by, All-insert_by,
  All-sort_by, insert_by-IsSorted, sort_by-IsSorted,
}
use agent_aware.Prelude.TopK.{IsBest, IsTopK, length-insert_by, length-sort_by}

module _ {A : Type 0} (less : A → A → Bool) where
  -- The other direction: a priority queue has its worst element on top.
  unfoldable pub worse : A → A → Bool
  worse a b = less b a

  worse-IsStrictWeak : IsStrictWeak less → IsStrictWeak worse
  unfolding worse
  worse-IsStrictWeak w = record {
    asym = λ a b h. w.asym b a h;
    not_trans = λ a b c h g. w.not_trans c b a g h;
  }

  -- `heap.push` below the bound; else the top is replaced, if the element is less.
  unfoldable pub push_bounded : ℕ → A → List A → List A
  push_bounded k x [] = if ltb 0 k then x ∷ [] else []
  push_bounded k x (w ∷ heap) =
      if ltb (length (w ∷ heap)) k
      then insert_by worse x (w ∷ heap)
      else if less x w
      then insert_by worse x heap
      else w ∷ heap

  unfoldable pub fill : ℕ → List A → List A → List A
  fill k heap [] = heap
  fill k heap (x ∷ xs) = fill k (push_bounded k x heap) xs

  -- A bounded queue's content, worst first.
  pub record IsHeap (k : ℕ) (seen heap : List A) : Type 0 where
    pub best : IsBest less k seen heap
    pub worst_first : IsSorted worse heap

  no_rest : (l : List A) (n : ℕ) → n + length l ≡ n → l ≡ []
  no_rest [] n e = refl
  no_rest (x ∷ l) n e = ground (arith, e)

  push_grows :
      (k : ℕ) (x : A) (seen heap : List A)
      → IsStrictWeak less
      → length heap < k
      → IsHeap k seen heap
      → IsHeap k (x ∷ seen) (insert_by worse x heap)
  push_grows k x seen heap w room h =
      let b : IsBest less k seen heap = h.best in
      let none_lost : b.rest ≡ [] =
        no_rest b.rest (length heap) (omega (arith, b.count, b.total)) in
      record {
        best = record {
          count = omega (arith, length-insert_by less worse x heap, b.count);
          rest = [];
          total = omega (arith, length-insert_by less worse x heap, b.count);
          parts =
              subst (λ l. Perm l (x ∷ seen)) (sym (append-nil (insert_by worse x heap)))
                (Perm.trans (perm-insert_by worse x heap) (
                  Perm.cons x (
                    subst (λ l. Perm l seen) (ap (λ l. heap ++ l) none_lost ∙ append-nil heap)
                      b.parts)));
          beaten = tt;
        };
        worst_first = insert_by-IsSorted worse (worse-IsStrictWeak w) x heap h.worst_first;
      }

  push_replaces :
      (k : ℕ) (x top : A) (seen heap : List A)
      → IsStrictWeak less
      → k ≤ length (top ∷ heap)
      → less x top ≡ true
      → IsHeap k seen (top ∷ heap)
      → IsHeap k (x ∷ seen) (insert_by worse x heap)
  unfolding worse
  push_replaces k x top seen heap w full lt h =
      let b : IsBest less k seen (top ∷ heap) = h.best in
      record {
        best = record {
          count = omega (arith, length-insert_by less worse x heap, b.count);
          rest = top ∷ b.rest;
          total = omega (arith, length-insert_by less worse x heap, b.total);
          parts =
              Perm.trans (Perm.append_right (top ∷ b.rest) (perm-insert_by worse x heap))
                (Perm.cons x (Perm.trans (perm_middle heap b.rest) b.parts));
          beaten = (
            All-insert_by worse (λ (z : A). less top z ≡ false) x heap (w.asym x top lt)
                h.worst_first.0,
            All-imp (λ (y : A). All (λ (z : A). less y z ≡ false) (top ∷ heap)) _ b.rest
                (λ y hy.
                  All-insert_by worse (λ (z : A). less y z ≡ false) x heap
                    (w.not_trans x top y (w.asym x top lt) hy.0) hy.1)
                b.beaten,
          );
        };
        worst_first = insert_by-IsSorted worse (worse-IsStrictWeak w) x heap h.worst_first.1;
      }

  push_keeps :
      (k : ℕ) (x top : A) (seen heap : List A)
      → IsStrictWeak less
      → k ≤ length (top ∷ heap)
      → less x top ≡ false
      → IsHeap k seen (top ∷ heap)
      → IsHeap k (x ∷ seen) (top ∷ heap)
  unfolding worse
  push_keeps k x top seen heap w full ge h =
      let b : IsBest less k seen (top ∷ heap) = h.best in
      record {
        best = record {
          count = omega (arith, b.count);
          rest = x ∷ b.rest;
          total = omega (arith, b.total);
          parts = Perm.trans (perm_middle (top ∷ heap) b.rest) (Perm.cons x b.parts);
          beaten = (
            (
              ge,
              All-imp (λ (z : A). less top z ≡ false) (λ (z : A). less x z ≡ false) heap
                  (λ z tz. w.not_trans z top x tz ge) h.worst_first.0,
            ),
            b.beaten,
          );
        };
        worst_first = h.worst_first;
      }

  push_bounded-IsHeap :
      (k : ℕ) (x : A) (seen heap : List A)
      → IsStrictWeak less
      → 0 < k
      → IsHeap k seen heap
      → IsHeap k (x ∷ seen) (push_bounded k x heap)
  unfolding push_bounded insert_by
  push_bounded-IsHeap k x seen [] w some_room h =
      let e : ltb 0 k ≡ true = ground arith in rw e (push_grows k x seen [] w some_room h)
  push_bounded-IsHeap k x seen (top ∷ heap) w some_room h =
      elim (Bool-cases (ltb (length (top ∷ heap)) k)) [
        | inl room ↦ rw room (push_grows k x seen (top ∷ heap) w (ground arith) h)
        | inr full ↦ elim (Bool-cases (less x top)) [
          | inl lt ↦ rw (full, lt) (push_replaces k x top seen heap w (ground arith) lt h)
          | inr ge ↦ rw (full, ge) (push_keeps k x top seen heap w (ground arith) ge h)
        ]
      ]

  fill-IsHeap :
      (k : ℕ) (xs seen heap all : List A)
      → IsStrictWeak less
      → 0 < k
      → IsHeap k seen heap
      → Perm (xs ++ seen) all
      → length xs + length seen ≡ length all
      → IsHeap k all (fill k heap xs)
  unfolding fill
  fill-IsHeap k [] seen heap all w some_room h p e =
      let b : IsBest less k seen heap = h.best in
      record {
        best = record {
          count = omega (arith, b.count, e);
          rest = b.rest;
          total = omega (arith, b.total, e);
          parts = Perm.trans b.parts p;
          beaten = b.beaten;
        };
        worst_first = h.worst_first;
      }
  fill-IsHeap k (x ∷ xs) seen heap all w some_room h p e =
      fill-IsHeap k xs (x ∷ seen) (push_bounded k x heap) all w some_room
        (push_bounded-IsHeap k x seen heap w some_room h) (Perm.trans (perm_middle xs seen) p)
        (omega (arith, e))

  empty-IsHeap : (k : ℕ) → IsHeap k [] []
  empty-IsHeap k = record {
    best = record {
      count = omega arith;
      rest = [];
      total = refl;
      parts = Perm.refl [];
      beaten = tt;
    };
    worst_first = tt;
  }

  -- A queue with a positive bound that has seen `xs`, sorted, is the best of `xs`.
  pub sort_by-fill-IsTopK :
      IsStrictWeak less
      → (k : ℕ) (xs : List A) → 0 < k
      → IsTopK less k xs (sort_by less (fill k [] xs))
  sort_by-fill-IsTopK w k xs some_room =
      let heap : List A = fill k [] xs in
      let h : IsHeap k xs heap =
        fill-IsHeap k xs [] [] xs w some_room (empty-IsHeap k)
          (subst (λ l. Perm l xs) (sym (append-nil xs)) (Perm.refl xs)) (omega arith) in
      let b : IsBest less k xs heap = h.best in
      record {
        best = record {
          count = length-sort_by less heap ∙ b.count;
          rest = b.rest;
          total = omega (arith, length-sort_by less heap, b.total);
          parts = Perm.trans (Perm.append_right b.rest (perm-sort_by less heap)) b.parts;
          beaten =
              All-imp (λ (y : A). All (λ (x : A). less y x ≡ false) heap) _ b.rest
                (λ y hy. All-sort_by less (λ (x : A). less y x ≡ false) heap hy) b.beaten;
        };
        sorted = sort_by-IsSorted less w heap;
      }
