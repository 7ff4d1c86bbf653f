-- ===== src/Dmt/Forest/Fastest.antt =====
-- `getFastestTree` finds the first tree of the least average.
use datura.Prelude.{
  ℕ, zero, suc, ◌+◌, ◌≤◌, ◌<◌, ◌≡◌, refl, ap, sym, some, none, List, ◌∷◌, [], get_elem?, ltb, arith,
  Bool-cases, inl, inr, ltb→lt,
}
use mathlib.Core.Path.{subst}
use datura.Dmt.Tree.{Radix, Tree, average}
use datura.Dmt.Forest.{fastest_from, fastest}

module _ (radix : Radix) where
  -- No tree is faster than the one at this position, and none before it is as fast.
  pub record IsFastest (trees : List (Tree radix)) (index : ℕ) : Type 0 where
    pub tree : Tree radix
    pub found : get_elem? trees index ≡ some tree
    pub least :
        (i : ℕ) (u : Tree radix) → get_elem? trees i ≡ some u → average radix tree ≤ average radix u
    pub first :
        (i : ℕ) (u : Tree radix)
        → get_elem? trees i ≡ some u
        → i < index
        → average radix tree < average radix u

  -- What the loop gives: the tree that it started with, or one of `trees`.
  data Picked (best best_avg index : ℕ) (trees : List (Tree radix)) (r : ℕ) : Type 0 where
    same :
        r ≡ best
        → ((i : ℕ) (u : Tree radix) → get_elem? trees i ≡ some u → best_avg ≤ average radix u)
        → Picked best best_avg index trees r
    other :
        (j : ℕ)
        → r ≡ index + j
        → (f : IsFastest trees j) → average radix f.tree < best_avg
        → Picked best best_avg index trees r

  here : {x y : Tree radix} → some x ≡ some y → average radix x ≡ average radix y
  here e = ap (λ o. elim o [ none ↦ 0 | some t ↦ average radix t ]) e

  IsFastest-cons :
      (tree : Tree radix) (trees : List (Tree radix)) (j : ℕ) (f : IsFastest trees j)
      → average radix f.tree < average radix tree
      → IsFastest (tree ∷ trees) (suc j)
  IsFastest-cons tree trees j f h = record {
    tree = f.tree;
    found = f.found;
    least = least_of;
    first = first_of;
  }
    where
      least_of :
          (i : ℕ) (u : Tree radix)
          → get_elem? (tree ∷ trees) i ≡ some u
          → average radix f.tree ≤ average radix u
      least_of zero u e = omega (arith, here e)
      least_of (suc i) u e = f.least i u e

      first_of :
          (i : ℕ) (u : Tree radix)
          → get_elem? (tree ∷ trees) i ≡ some u
          → i < suc j
          → average radix f.tree < average radix u
      first_of zero u e l = omega (arith, here e)
      first_of (suc i) u e l = f.first i u e (omega arith)

  IsFastest-head :
      (tree : Tree radix) (trees : List (Tree radix))
      → ((i : ℕ) (u : Tree radix)
          → get_elem? trees i ≡ some u
          → average radix tree ≤ average radix u)
      → IsFastest (tree ∷ trees) 0
  IsFastest-head tree trees h = record {
    tree = tree;
    found = refl;
    least = least_of;
    first = λ i u e l. absurd (omega arith);
  }
    where
      least_of :
          (i : ℕ) (u : Tree radix)
          → get_elem? (tree ∷ trees) i ≡ some u
          → average radix tree ≤ average radix u
      least_of zero u e = omega (arith, here e)
      least_of (suc i) u e = h i u e

  Picked-faster :
      (best best_avg index : ℕ) (tree : Tree radix) (trees : List (Tree radix)) (r : ℕ)
      → average radix tree < best_avg
      → Picked index (average radix tree) (suc index) trees r
      → Picked best best_avg index (tree ∷ trees) r
  unfolding IsFastest-head average IsFastest-cons
  Picked-faster best best_avg index tree trees r h (same e least) =
      other 0 (omega arith) (IsFastest-head tree trees least) h
  Picked-faster best best_avg index tree trees r h (other j e f l) =
      other (suc j) (omega arith) (IsFastest-cons tree trees j f l) (omega arith)

  Picked-slower :
      (best best_avg index : ℕ) (tree : Tree radix) (trees : List (Tree radix)) (r : ℕ)
      → best_avg ≤ average radix tree
      → Picked best best_avg (suc index) trees r
      → Picked best best_avg index (tree ∷ trees) r
  unfolding IsFastest-cons
  Picked-slower best best_avg index tree trees r h (same e least) = same e least_of
    where
      least_of :
          (i : ℕ) (u : Tree radix)
          → get_elem? (tree ∷ trees) i ≡ some u
          → best_avg ≤ average radix u
      least_of zero u e = omega (arith, here e)
      least_of (suc i) u e = least i u e
  Picked-slower best best_avg index tree trees r h (other j e f l) =
      other (suc j) (omega arith) (IsFastest-cons tree trees j f (omega arith)) l

  fastest_from_lem :
      (best best_avg index : ℕ) (trees : List (Tree radix))
      → Picked best best_avg index trees (fastest_from radix best best_avg index trees)
  unfolding fastest_from
  fastest_from_lem best best_avg index [] = same refl (λ i u e. absurd cc)
  fastest_from_lem best best_avg index (tree ∷ trees) =
      elim (Bool-cases (ltb (average radix tree) best_avg)) [
        | inl e ↦ rw (e) (
            Picked-faster best best_avg index tree trees _ (ltb→lt _ _ e)
              (fastest_from_lem index (average radix tree) (suc index) trees))
        | inr e ↦ rw (e) (
            Picked-slower best best_avg index tree trees _ (ground arith)
              (fastest_from_lem best best_avg (suc index) trees))
      ]

  Picked-fastest :
      (tree : Tree radix) (trees : List (Tree radix)) (r : ℕ)
      → Picked 0 (average radix tree) 1 trees r
      → IsFastest (tree ∷ trees) r
  Picked-fastest tree trees r (same e least) =
      subst (IsFastest (tree ∷ trees)) (sym e) (IsFastest-head tree trees least)
  Picked-fastest tree trees r (other j e f l) =
      subst (IsFastest (tree ∷ trees)) {x = suc j} {y = r} (omega (arith, e))
        (IsFastest-cons tree trees j f l)

  -- A forest with a tree in it reads from a tree of which no other tree has a lower average, and no
  -- tree before it the same.
  pub fastest_lem :
      (tree : Tree radix) (trees : List (Tree radix))
      → (index : ℕ) × (fastest radix (tree ∷ trees) ≡ some index) × IsFastest (tree ∷ trees) index
  unfolding fastest
  fastest_lem tree trees = (
    fastest_from radix 0 (average radix tree) 1 trees,
    refl,
    Picked-fastest tree trees _ (fastest_from_lem 0 (average radix tree) 1 trees),
  )
