-- ===== src/Prelude/Bytes.antt =====
-- Byte slices and strings as lists of numbers: Go's `bytes.Compare` and `bytes.Equal`, which on
-- strings are `<`, `>=` and `==`.
use Prim.Native.Nat.{ℕ, compare, Ordering}
use mathlib.Core.Path.{◌≡◌, refl}
use mathlib.Core.Bool.{Bool, true, false}
use mathlib.Core.List.{List, [], ◌∷◌}
use native.Mathlib.Omega.{arith}

abbrev pub Bytes : Type 0
Bytes = List ℕ

unfoldable pub bytes_compare : Bytes → Bytes → Ordering
bytes_compare [] [] = Ordering.eq
bytes_compare [] (y ∷ ys) = Ordering.lt
bytes_compare (x ∷ xs) [] = Ordering.gt
bytes_compare (x ∷ xs) (y ∷ ys) =
    let rest = bytes_compare xs ys in
    elim (compare x y) [
      | Ordering.lt ↦ Ordering.lt
      | Ordering.gt ↦ Ordering.gt
      | Ordering.eq ↦ rest
    ]

-- `bytes.Compare(a, b) < 0`
abbrev pub bytes_lt : Bytes → Bytes → Bool
bytes_lt a b = elim (bytes_compare a b) [ Ordering.lt ↦ true | _ ↦ false ]

abbrev pub bytes_equal : Bytes → Bytes → Bool
bytes_equal a b = elim (bytes_compare a b) [ Ordering.eq ↦ true | _ ↦ false ]

abbrev pub Before : Bytes → Bytes → Type 0
Before a b = bytes_compare a b ≡ Ordering.lt

pub bytes_compare_refl : (a : Bytes) → bytes_compare a a ≡ Ordering.eq
unfolding bytes_compare
bytes_compare_refl [] = refl
bytes_compare_refl (x ∷ xs) = ground (arith, bytes_compare_refl xs)

pub bytes_compare_eq : (a b : Bytes) → bytes_compare a b ≡ Ordering.eq → a ≡ b
unfolding bytes_compare
bytes_compare_eq [] [] h = refl
bytes_compare_eq [] (y ∷ ys) h = cc
bytes_compare_eq (x ∷ xs) [] h = cc
bytes_compare_eq (x ∷ xs) (y ∷ ys) h = ground (arith, bytes_compare_eq xs ys)

pub Before-trans : (a b c : Bytes) → Before a b → Before b c → Before a c
unfolding bytes_compare
Before-trans [] [] c p q = cc
Before-trans [] (y ∷ ys) [] p q = cc
Before-trans [] (y ∷ ys) (z ∷ zs) p q = refl
Before-trans (x ∷ xs) [] c p q = cc
Before-trans (x ∷ xs) (y ∷ ys) [] p q = cc
Before-trans (x ∷ xs) (y ∷ ys) (z ∷ zs) p q = ground (arith, Before-trans xs ys zs)

pub gt→Before : (a b : Bytes) → bytes_compare a b ≡ Ordering.gt → Before b a
unfolding bytes_compare
gt→Before [] [] h = cc
gt→Before [] (y ∷ ys) h = cc
gt→Before (x ∷ xs) [] h = refl
gt→Before (x ∷ xs) (y ∷ ys) h = ground (arith, gt→Before xs ys)

pub Before→gt : (a b : Bytes) → Before a b → bytes_compare b a ≡ Ordering.gt
unfolding bytes_compare
Before→gt [] [] h = cc
Before→gt [] (y ∷ ys) h = refl
Before→gt (x ∷ xs) [] h = cc
Before→gt (x ∷ xs) (y ∷ ys) h = ground (arith, Before→gt xs ys)

-- Go's three-way comparison, with what each answer says of the two slices.
pub data Compared (a b : Bytes) : Type 0 where
  below : bytes_compare a b ≡ Ordering.lt → bytes_compare b a ≡ Ordering.gt → Compared a b
  same : a ≡ b → bytes_compare a b ≡ Ordering.eq → Compared a b
  above : bytes_compare a b ≡ Ordering.gt → bytes_compare b a ≡ Ordering.lt → Compared a b

Compared-by : (a b : Bytes) (o : Ordering) → bytes_compare a b ≡ o → Compared a b
Compared-by a b Ordering.lt e = below e (Before→gt a b e)
Compared-by a b Ordering.eq e = same (bytes_compare_eq a b e) e
Compared-by a b Ordering.gt e = above e (gt→Before a b e)

pub bytes-Compared : (a b : Bytes) → Compared a b
bytes-Compared a b = Compared-by a b (bytes_compare a b) refl

pub bytes_equal→eq : (a b : Bytes) → bytes_equal a b ≡ true → a ≡ b
bytes_equal→eq a b h = ground (arith, bytes_compare_eq a b)

pub bytes_equal_refl : (a : Bytes) → bytes_equal a a ≡ true
bytes_equal_refl a = rw (bytes_compare_refl a, bytes_equal)
