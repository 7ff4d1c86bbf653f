-- ===== src/Memory/Insertion.antt =====
-- Sorting by insertion, a stable sort that the examples use.
use datura.Prelude.{◌≡◌, Bool, false, List, [], ◌∷◌, All, Bool-cases, inl, inr, if◌then◌else◌}
use mathlib.Core.List.{Perm}
use mathlib.Core.List.Perm
use datura.Memory.Ranking.{WeakOrder, Ordered, SliceStable}

module _ {A : Type 0} where
  unfoldable pub insert : (A → A → Bool) → A → List A → List A
  insert less x [] = x ∷ []
  insert less x (y ∷ l) = let rest = insert less x l in if less y x then y ∷ rest else x ∷ y ∷ l

  unfoldable pub insertion_sort : (A → A → Bool) → List A → List A
  unfolding insert
  insertion_sort less [] = []
  insertion_sort less (x ∷ l) = insert less x (insertion_sort less l)

  insert-Perm : (less : A → A → Bool) (x : A) (l : List A) → Perm (x ∷ l) (insert less x l)
  unfolding insert
  insert-Perm less x [] = Perm.refl (x ∷ [])
  insert-Perm less x (y ∷ l) = elim (Bool-cases (less y x)) [
    | inl e ↦ rw (e) (Perm.trans (Perm.swap y x l) (Perm.cons y (insert-Perm less x l)))
    | inr e ↦ rw (e) (Perm.refl (x ∷ y ∷ l))
  ]

  insertion_sort-Perm : (less : A → A → Bool) (l : List A) → Perm l (insertion_sort less l)
  unfolding insertion_sort
  insertion_sort-Perm less [] = Perm.refl []
  insertion_sort-Perm less (x ∷ l) =
      Perm.trans (Perm.cons x (insertion_sort-Perm less l))
        (insert-Perm less x (insertion_sort less l))

  insert-All :
      (Q : A → Type 0) (less : A → A → Bool) (x : A) (l : List A)
      → Q x
      → All Q l
      → All Q (insert less x l)
  unfolding insert
  insert-All Q less x [] p a = (p, tt)
  insert-All Q less x (y ∷ l) p (q, a) = elim (Bool-cases (less y x)) [
    | inl e ↦ rw (e) (q, insert-All Q less x l p a)
    | inr e ↦ rw (e) (p, (q, a))
  ]

  insertion_sort-All :
      (Q : A → Type 0) (less : A → A → Bool) (l : List A) → All Q l → All Q (insertion_sort less l)
  unfolding insertion_sort
  insertion_sort-All Q less [] a = tt
  insertion_sort-All Q less (x ∷ l) (p, a) = insert-All Q less x _ p (insertion_sort-All Q less l a)

  module _ (P : A → Type 0) (less : A → A → Bool) (order : WeakOrder P less) where
    through_all :
        (x y : A) (l : List A)
        → P x
        → P y
        → All P l
        → less y x ≡ false
        → All (λ z. less z y ≡ false) l
        → All (λ z. less z x ≡ false) l
    through_all x y [] px py a h b = tt
    through_all x y (z ∷ l) px py (pz, a) h (k, b) =
        (order.through z y x pz py px k h, through_all x y l px py a h b)

    insert-Ordered :
        (x : A) (l : List A) → P x → All P l → Ordered less l → Ordered less (insert less x l)
    unfolding insert
    insert-Ordered x [] px a o = (tt, tt)
    insert-Ordered x (y ∷ l) px (py, a) (h, o) = elim (Bool-cases (less y x)) [
      | inl e ↦ rw (e) (
        insert-All (λ z. less z y ≡ false) less x l (order.asym y x py px e) h,
        insert-Ordered x l px a o,
      )
      | inr e ↦ rw (e) ((e, through_all x y l px py a e h), (h, o))
    ]

    insertion_sort-Ordered : (l : List A) → All P l → Ordered less (insertion_sort less l)
    unfolding insertion_sort
    insertion_sort-Ordered [] a = tt
    insertion_sort-Ordered (x ∷ l) (p, a) =
        insert-Ordered x _ p (insertion_sort-All P less l a) (insertion_sort-Ordered l a)

  pub insertion_sort-SliceStable : SliceStable {A = A} insertion_sort
  insertion_sort-SliceStable = record {
    moves = insertion_sort-Perm;
    sorts = λ P less order l a. insertion_sort-Ordered P less order l a;
  }
