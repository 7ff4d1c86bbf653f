-- ===== src/Dmt/Forest/Adding.antt =====
-- `AddTree`: which root it leaves in all trees.
use datura.Prelude.{
  ℕ, ◌≤◌, ◌≡◌, refl, ap, ◌∙◌, sym, Bool, true, false, not, ◌&&◌, ◌||◌, Option, none, some, List, [],
  ◌∷◌, get_elem?, leb, ltb, arith, ◌==◌, length, Bool-cases, inl, inr, if◌then◌else◌, length-append,
}
use mathlib.Core.Path.{subst}
use datura.Dmt.Tree.{Radix, Tree}
use datura.Dmt.Forest.{
  append, fastest, is_filled, sync_reference_tree, catch_up_all, synchronize_trees,
}
use datura.Dmt.Forest.Fastest.{IsFastest, fastest_lem}
use datura.Dmt.Forest.Replicas.{RootLaws, Rooted, Rooted-elem, Rooted-catch_up_all}
use datura.Dmt.Forest.Sources.{
  elem-append, elem-last, filled_of, first_filled-append, is_filled_at, first_filled-head,
  sync_reference_tree-filled, sync_reference_tree-empty,
}

abbrev pub is_at : ℕ → Option ℕ → Bool
is_at i none = false
is_at i (some j) = j == i

module _ (radix : Radix) where
  -- The root that a tree leaves in a forest of this root when it is added: its own if it holds
  -- something, and the forest nothing or the tree is the fastest of them all.
  unfoldable pub root_after : List (Tree radix) → radix.Root → Tree radix → radix.Root
  root_after trees root tree =
      if is_filled radix tree
        && (not (ltb 0 (radix.len root))
            || is_at (length trees) (fastest radix (append radix trees tree)))
      then tree.root
      else root

  -- A reference with that root.
  record Referenced (trees : List (Tree radix)) (root : radix.Root) (tree : Tree radix)
      : Type 0 where
    ref : ℕ
    reference : Tree radix
    chosen : sync_reference_tree radix (append radix trees tree) ≡ some ref
    found : get_elem? (append radix trees tree) ref ≡ some reference
    its_root : reference.root ≡ root_after trees root tree

  -- Does the new tree's root replace the forest's?
  abbrev replaces : Bool → Bool → Bool → Bool
  replaces new held fastest_of_all = new && (not held || fastest_of_all)

  stays : (new held last : Bool) → held ≡ true → last ≡ false → replaces new held last ≡ false
  stays new held last h l = ground arith

  stays_without : (new held last : Bool) → new ≡ false → replaces new held last ≡ false
  stays_without new held last h = ground arith

  moves : (new held last : Bool) → new ≡ true → last ≡ true → replaces new held last ≡ true
  moves new held last h l = ground arith

  root_after-kept :
      (trees : List (Tree radix)) (root : radix.Root) (tree : Tree radix) (r : radix.Root)
      → replaces
          (is_filled radix tree)
          (ltb 0 (radix.len root))
          (is_at (length trees) (fastest radix (append radix trees tree)))
        ≡ false
      → r ≡ root
      → r ≡ root_after trees root tree
  unfolding root_after
  root_after-kept trees root tree r h e = rw (h) e

  root_after-new :
      (trees : List (Tree radix)) (root : radix.Root) (tree : Tree radix) (r : radix.Root)
      → replaces
          (is_filled radix tree)
          (ltb 0 (radix.len root))
          (is_at (length trees) (fastest radix (append radix trees tree)))
        ≡ true
      → r ≡ tree.root
      → r ≡ root_after trees root tree
  unfolding root_after
  root_after-new trees root tree r h e = rw (h) e

  at_last :
      (trees : List (Tree radix)) (tree : Tree radix) (i : ℕ)
      → fastest radix (append radix trees tree) ≡ some i
      → is_at (length trees) (fastest radix (append radix trees tree)) ≡ (i == length trees)
  at_last trees tree i e = rw (e) refl

  -- The fastest tree holds something.
  reference-filled :
      (first : Tree radix) (rest : List (Tree radix)) (root : radix.Root) (tree : Tree radix)
      (i : ℕ)
      → Rooted radix root (first ∷ rest)
      → fastest radix (append radix (first ∷ rest) tree) ≡ some i
      → (f : IsFastest radix (append radix (first ∷ rest) tree) i) → is_filled radix f.tree ≡ true
      → Referenced (first ∷ rest) root tree
  reference-filled first rest root tree i a e f filled = record {
    ref = i;
    reference = f.tree;
    chosen =
        sync_reference_tree-filled radix first (append radix rest tree) i e
          (is_filled_at radix _ i f.tree true f.found filled);
    found = f.found;
    its_root = elim (elem-append radix (first ∷ rest) tree i f.tree f.found) [
      | inl (at_end, same) ↦
          root_after-new (first ∷ rest) root tree f.tree.root
            (moves _ _ _ (ap (is_filled radix) (sym same) ∙ filled)
              (at_last (first ∷ rest) tree i e ∙ ground (arith, at_end)))
            (ap (λ (t : Tree radix). t.root) same)
      | inr (before, at) ↦
          let same_root = Rooted-elem radix root (first ∷ rest) i f.tree a at in
          root_after-kept (first ∷ rest) root tree f.tree.root
            (stays _ _ _ (sym (filled_of radix f.tree root same_root) ∙ filled)
              (at_last (first ∷ rest) tree i e ∙ ground (arith, before)))
            same_root
    ];
  }

  -- It does not, and the forest does.
  reference-held :
      (first : Tree radix) (rest : List (Tree radix)) (root : radix.Root) (tree : Tree radix)
      (i : ℕ)
      → Rooted radix root (first ∷ rest)
      → fastest radix (append radix (first ∷ rest) tree) ≡ some i
      → (f : IsFastest radix (append radix (first ∷ rest) tree) i) → is_filled radix f.tree ≡ false
      → ltb 0 (radix.len root) ≡ true
      → Referenced (first ∷ rest) root tree
  reference-held first rest root tree i a e f filled held = record {
    ref = 0;
    reference = first;
    chosen =
        sync_reference_tree-empty radix first (append radix rest tree) i (some 0) e
          (is_filled_at radix _ i f.tree false f.found filled)
          (first_filled-head radix 0 first (append radix rest tree)
            (filled_of radix first root a.0 ∙ held));
    found = refl;
    its_root =
        root_after-kept (first ∷ rest) root tree first.root
          (elim (elem-append radix (first ∷ rest) tree i f.tree f.found) [
            | inl (at_end, same) ↦
                stays_without _ (ltb 0 (radix.len root))
                  (is_at (length (first ∷ rest)) (fastest radix (append radix (first ∷ rest) tree)))
                  (ap (is_filled radix) (sym same) ∙ filled)
            | inr (before, at) ↦
                stays _ _ _ held (at_last (first ∷ rest) tree i e ∙ ground (arith, before))
          ])
          a.0;
  }

  -- Neither does.
  reference-empty :
      (first : Tree radix) (rest : List (Tree radix)) (root : radix.Root) (tree : Tree radix)
      (i : ℕ)
      → Rooted radix root (first ∷ rest)
      → fastest radix (append radix (first ∷ rest) tree) ≡ some i
      → (f : IsFastest radix (append radix (first ∷ rest) tree) i) → is_filled radix f.tree ≡ false
      → ltb 0 (radix.len root) ≡ false
      → Referenced (first ∷ rest) root tree
  reference-empty first rest root tree i a e f filled held =
      let fills = is_filled_at radix _ i f.tree false f.found filled in
      let none_before = first_filled-append radix 0 (first ∷ rest) tree root a held in
      elim (Bool-cases (is_filled radix tree)) [
        | inl new ↦ record {
          ref = length (first ∷ rest);
          reference = tree;
          chosen =
              sync_reference_tree-empty radix first (append radix rest tree) i _ e fills none_before
              ∙ rw (new) (ap (λ (n : ℕ). some n) (omega arith));
          found = elem-last radix (first ∷ rest) tree;
          its_root = root_after-new (first ∷ rest) root tree tree.root (rw (new, held) refl) refl;
        }
        | inr empty ↦ record {
          ref = 0;
          reference = first;
          chosen =
              sync_reference_tree-empty radix first (append radix rest tree) i _ e fills none_before
              ∙ rw (empty) refl;
          found = refl;
          its_root = root_after-kept (first ∷ rest) root tree first.root (rw (empty) refl) a.0;
        }
      ]

  same_root :
      (trees : List (Tree radix)) (i : ℕ) (u : Tree radix) (j : ℕ) (v : Tree radix)
      → get_elem? trees i ≡ some u
      → get_elem? trees j ≡ some v
      → i ≡ j
      → u.root ≡ v.root
  same_root trees i u j v e f h =
      ap (λ o. elim o [ none ↦ u.root | some t ↦ t.root ]) (sym e ∙ ap (get_elem? trees) h ∙ f)

  referenced :
      (first : Tree radix) (rest : List (Tree radix)) (root : radix.Root) (tree : Tree radix)
      → Rooted radix root (first ∷ rest)
      → Referenced (first ∷ rest) root tree
  referenced first rest root tree a =
      let (i, e, f) = fastest_lem radix first (append radix rest tree) in
      elim (Bool-cases (is_filled radix f.tree)) [
        | inl filled ↦ reference-filled first rest root tree i a e f filled
        | inr none_filled ↦ elim (Bool-cases (ltb 0 (radix.len root))) [
          | inl held ↦ reference-held first rest root tree i a e f none_filled held
          | inr empty ↦ reference-empty first rest root tree i a e f none_filled empty
        ]
      ]

  pub Rooted-synchronize_trees :
      RootLaws radix
      → (first : Tree radix) (rest : List (Tree radix)) (root : radix.Root) (tree : Tree radix)
      → Rooted radix root (first ∷ rest)
      → Rooted radix
          (root_after (first ∷ rest) root tree)
          (synchronize_trees radix (append radix (first ∷ rest) tree))
        × (1 ≤ length (synchronize_trees radix (append radix (first ∷ rest) tree)))
  unfolding synchronize_trees catch_up_all
  Rooted-synchronize_trees laws first rest root tree a =
      let r = referenced first rest root tree a in
      let several : leb (length (append radix (first ∷ rest) tree)) 1 ≡ false =
        ground (arith, length-append rest (tree ∷ [])) in
      rw (several, r.chosen, r.found)
        ((
          subst
              (λ root.
                Rooted radix root
                  (catch_up_all radix r.ref r.reference 0 (append radix (first ∷ rest) tree)))
              r.its_root
              (Rooted-catch_up_all radix laws r.ref r.reference 0 (append radix (first ∷ rest) tree)
                (λ i u e at_ref.
                  same_root (append radix (first ∷ rest) tree) i u r.ref r.reference e r.found
                    (ground (arith, at_ref)))),
          omega arith,
        ))

  -- A tree that holds nothing changes nothing.
  pub root_after-empty :
      (trees : List (Tree radix)) (root : radix.Root) (tree : Tree radix)
      → radix.len tree.root ≡ 0
      → root_after trees root tree ≡ root
  root_after-empty trees root tree h = sym (
      root_after-kept trees root tree root
        (stays_without _ (ltb 0 (radix.len root))
          (is_at (length trees) (fastest radix (append radix trees tree)))
          (ap (λ (n : ℕ). ltb 0 n) h))
        refl)
