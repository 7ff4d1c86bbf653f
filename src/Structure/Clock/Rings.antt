-- ===== src/Structure/Clock/Rings.antt =====
-- What a clock relies on in its rings, and windows of a list.
use datura.Prelude.{
  ℕ, ◌+◌, ◌-◌, ◌≤◌, suc, zero, ◌≡◌, refl, ap, ◌∙◌, sym, Bool, true, false, List, [], ◌∷◌, ◌++◌,
  length, drop, arith,
}
use datura.Structure.Clock.{RingOps}
use datura.Structure.Clock.Cuts.{filter}

-- The contents of a ring are its last `len` values, in their order. A walk visits them, and between
-- or behind them possibly the blank values of cells that no push has reached.
pub record RingLaws {A : Type 0} (ring : RingOps A) (blank : A) : Type 0 where
  pub contents : ring.State → List A
  pub len-push : (v : A) (s : ring.State) → ring.len (ring.push v s).1 ≡ ring.len s
  pub contents-push :
      (v : A) (s : ring.State)
      → (ring.push v s).0 ≡ true
      → contents (ring.push v s).1
        ≡ drop ((length (contents s) + 1) - ring.len s) (contents s ++ (v ∷ []))
  pub filter-walk :
      (p : A → Bool) (s : ring.State)
      → p blank ≡ false
      → filter p (ring.walk s) ≡ filter p (contents s)

module _ {ℓ} {A : Type ℓ} where
  pub drop-append : (n : ℕ) (xs ys : List A) → n ≤ length xs → drop n (xs ++ ys) ≡ drop n xs ++ ys
  drop-append zero xs ys h = refl
  drop-append (suc n) [] ys h = absurd (omega (arith, h))
  drop-append (suc n) (x ∷ xs) ys h = drop-append n xs ys (omega (arith, h))

  drop_nil : (n : ℕ) → drop {A = A} n [] ≡ []
  drop_nil zero = refl
  drop_nil (suc n) = refl

  pub drop-drop : (m n : ℕ) (xs : List A) → drop m (drop n xs) ≡ drop (n + m) xs
  drop-drop m zero xs = ap (λ k. drop k xs) (omega arith)
  drop-drop m (suc n) [] = drop_nil m ∙ sym (drop_nil (suc n + m))
  drop-drop m (suc n) (x ∷ xs) =
      drop-drop m n xs ∙ ap (λ k. drop k (x ∷ xs)) {x = suc (n + m)} (omega arith)

  pub drop_all : (n : ℕ) (xs : List A) → length xs ≤ n → drop n xs ≡ []
  drop_all n [] h = drop_nil n
  drop_all zero (x ∷ xs) h = absurd (omega (arith, h))
  drop_all (suc n) (x ∷ xs) h = drop_all n xs (omega (arith, h))
