-- ===== src/Dmt/Forest/Sources.antt =====
-- Which tree of a list is the source of a synchronization.
use datura.Prelude.{
  ℕ, zero, suc, ◌+◌, ◌<◌, ◌≡◌, refl, ap, ◌∙◌, sym, Bool, true, false, Option, none, some, List, [],
  ◌∷◌, get_elem?, ltb, arith, length, inl, inr, if◌then◌else◌, ◌⊎◌,
}
use datura.Dmt.Tree.{Radix, Tree}
use datura.Dmt.Forest.{append, fastest, is_filled, first_filled, filled_at, sync_reference_tree}
use datura.Dmt.Forest.Replicas.{Rooted}

module _ (radix : Radix) where
  -- Where the last of the trees stands, and where the others do.
  pub elem-append :
      (trees : List (Tree radix)) (tree : Tree radix) (i : ℕ) (u : Tree radix)
      → get_elem? (append radix trees tree) i ≡ some u
      → ((i ≡ length trees) × (u ≡ tree)) ⊎ ((i < length trees) × (get_elem? trees i ≡ some u))
  elem-append [] tree zero u e = inl (refl, ap (λ o. elim o [ none ↦ tree | some t ↦ t ]) (sym e))
  elem-append [] tree (suc i) u e = absurd cc
  elem-append (t ∷ trees) tree zero u e = inr (omega arith, e)
  elem-append (t ∷ trees) tree (suc i) u e = elim (elem-append trees tree i u e) [
    | inl (at_end, same) ↦ inl (ap suc at_end, same)
    | inr (before, at) ↦ inr (omega (arith, before), at)
  ]

  pub elem-last :
      (trees : List (Tree radix)) (tree : Tree radix)
      → get_elem? (append radix trees tree) (length trees) ≡ some tree
  elem-last [] tree = refl
  elem-last (t ∷ trees) tree = elem-last trees tree

  pub filled_of :
      (tree : Tree radix) (root : radix.Root)
      → tree.root ≡ root
      → is_filled radix tree ≡ ltb 0 (radix.len root)
  filled_of tree root h = ap (λ r. ltb 0 (radix.len r)) h

  pub first_filled-append :
      (index : ℕ) (trees : List (Tree radix)) (tree : Tree radix) (root : radix.Root)
      → Rooted radix root trees
      → ltb 0 (radix.len root) ≡ false
      → first_filled radix index (append radix trees tree)
        ≡ (if is_filled radix tree then some (index + length trees) else none)
  unfolding first_filled
  first_filled-append index [] tree root a e =
      ap (λ (n : ℕ). if is_filled radix tree then some n else none) (omega arith)
  first_filled-append index (t ∷ trees) tree root (h, a) e =
      rw (filled_of t root h, e)
        (first_filled-append (suc index) trees tree root a e
          ∙ ap (λ (n : ℕ). if is_filled radix tree then some n else none) (omega arith))

  pub is_filled_at :
      (trees : List (Tree radix)) (i : ℕ) (u : Tree radix) (filled : Bool)
      → get_elem? trees i ≡ some u
      → is_filled radix u ≡ filled
      → filled_at radix trees (some i) ≡ filled
  unfolding filled_at
  is_filled_at trees i u filled e h = rw (e, filled_at) h

  pub first_filled-head :
      (index : ℕ) (t : Tree radix) (trees : List (Tree radix))
      → is_filled radix t ≡ true
      → first_filled radix index (t ∷ trees) ≡ some index
  unfolding first_filled
  first_filled-head index t trees h = rw (h) refl

  pub sync_reference_tree-filled :
      (t : Tree radix) (trees : List (Tree radix)) (i : ℕ)
      → fastest radix (t ∷ trees) ≡ some i
      → filled_at radix (t ∷ trees) (some i) ≡ true
      → sync_reference_tree radix (t ∷ trees) ≡ some i
  unfolding sync_reference_tree
  sync_reference_tree-filled t trees i e h = rw (e, h) refl

  pub sync_reference_tree-empty :
      (t : Tree radix) (trees : List (Tree radix)) (i : ℕ) (o : Option ℕ)
      → fastest radix (t ∷ trees) ≡ some i
      → filled_at radix (t ∷ trees) (some i) ≡ false
      → first_filled radix 0 (t ∷ trees) ≡ o
      → sync_reference_tree radix (t ∷ trees) ≡ elim o [ none ↦ some 0 | some j ↦ some j ]
  unfolding sync_reference_tree
  sync_reference_tree-empty t trees i o e h f = rw (e, h, f) refl
