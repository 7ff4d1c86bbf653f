-- ===== src/Dmt/Forest/Reads.antt =====
-- What a forest answers behind any sequence of its operations.
use datura.Prelude.{
  ℕ, ◌≤◌, ◌≡◌, refl, ap, ◌∙◌, sym, Option, none, some, List, [], ◌∷◌, arith, get_elem?, set, length,
  length-set,
}
use mathlib.Core.Path.{subst}
use datura.Prelude.Bytes.{Bytes}
use datura.Dmt.Guard.{guard_value, new_batch}
use datura.Dmt.Log.Replay.{LogError}
use datura.Dmt.Log.Store.{Answer}
use datura.Dmt.Tree.{Radix, Tree, get, seek, first_from}
use datura.Dmt.Forest.{
  Forest, fastest, synchronize_trees, read_fastest, get_forest, seek_forest, insert_forest,
  add_tree, append, new_forest, insert_all,
}
use datura.Dmt.Forest.Fastest.{fastest_lem}
use datura.Dmt.Forest.Replicas.{
  RootLaws, Rooted, Rooted-elem, Rooted-set, end_op-root, Rooted-insert_all,
}
use datura.Dmt.Forest.Adding.{root_after, Rooted-synchronize_trees}

module _ (radix : Radix) where
  pub data ForestOp : Type 0 where
    insert_op : (answers : ℕ → Answer) (nanos : ℕ → ℕ) (key value : Bytes) → ForestOp
    get_op : (nanos : ℕ) (key : Bytes) → ForestOp
    seek_op : (nanos : ℕ) (key : Bytes) → ForestOp
    add_op : (tree : Tree radix) → ForestOp

  unfoldable pub step : ForestOp → Forest radix → Forest radix
  step (insert_op answers nanos key value) forest =
      insert_forest radix answers nanos key value forest
  step (get_op nanos key) forest = (get_forest radix nanos key forest).1
  step (seek_op nanos key) forest = (seek_forest radix nanos key forest).1
  step (add_op tree) forest = add_tree radix tree forest

  unfoldable pub run_forest : List ForestOp → Forest radix → Forest radix
  unfolding step
  run_forest [] forest = forest
  run_forest (op ∷ ops) forest = run_forest ops (step op forest)

  -- A forest with a tree, whose trees all have this root.
  pub record Replicates (root : radix.Root) (forest : Forest radix) : Type 0 where
    pub first : Tree radix
    pub rest : List (Tree radix)
    pub its_trees : forest.trees ≡ first ∷ rest
    pub rooted : Rooted radix root (first ∷ rest)

  Replicates-of :
      (root : radix.Root) (forest : Forest radix) (trees : List (Tree radix))
      → forest.trees ≡ trees
      → Rooted radix root trees
      → 1 ≤ length trees
      → Replicates root forest
  Replicates-of root forest [] e a h = absurd (omega (arith, h))
  Replicates-of root forest (first ∷ rest) e a h = record {
    first = first;
    rest = rest;
    its_trees = e;
    rooted = a;
  }

  read_fastest_lem :
      {A : Type 0} (nothing : A) (read : Tree radix → A × Tree radix) (forest : Forest radix)
      (i : ℕ) (u : Tree radix)
      → fastest radix forest.trees ≡ some i
      → get_elem? forest.trees i ≡ some u
      → read_fastest radix nothing read forest
        ≡ ((read u).0, record forest { trees = set forest.trees i (read u).1 })
  unfolding read_fastest
  read_fastest_lem nothing read forest i u e found = rw (read_fastest, e, found) refl

  -- A read answers from the root, and leaves the trees with it.
  read_fastest-Replicates :
      {A : Type 0} (nothing answer : A) (read : Tree radix → A × Tree radix) (root : radix.Root)
      (forest : Forest radix)
      → ((tree : Tree radix)
          → tree.root ≡ root
          → ((read tree).0 ≡ answer) × ((read tree).1.root ≡ root))
      → Replicates root forest
      → ((read_fastest radix nothing read forest).0 ≡ answer)
        × Replicates root (read_fastest radix nothing read forest).1
  read_fastest-Replicates nothing answer read root forest reads r =
      let trees : List (Tree radix) = r.first ∷ r.rest in
      let (i, e, f) = fastest_lem radix r.first r.rest in
      let (answered, kept) =
        reads f.tree (Rooted-elem radix root trees i f.tree r.rooted f.found) in
      let same =
        read_fastest_lem nothing read forest i f.tree (ap (fastest radix) r.its_trees ∙ e)
          (ap (λ trees. get_elem? trees i) r.its_trees ∙ f.found) in
      subst (λ q. (q.0 ≡ answer) × Replicates root q.1) (sym same)
        (
          answered,
          Replicates-of root _ (set trees i (read f.tree).1)
              (ap (λ trees. set trees i (read f.tree).1) r.its_trees)
              (Rooted-set radix root trees i (read f.tree).1 r.rooted kept)
              (omega (arith, length-set trees i (read f.tree).1)),
        )

  pub get_forest-Replicates :
      (nanos : ℕ) (key : Bytes) (root : radix.Root) (forest : Forest radix)
      → Replicates root forest
      → ((get_forest radix nanos key forest).0 ≡ radix.get key root)
        × Replicates root (get_forest radix nanos key forest).1
  unfolding get_forest
  get_forest-Replicates nanos key root forest =
      read_fastest-Replicates none (radix.get key root) (get radix nanos key) root forest
        (λ tree h. (ap (radix.get key) h, end_op-root radix _ nanos tree ∙ h))

  pub seek_forest-Replicates :
      (nanos : ℕ) (key : Bytes) (root : radix.Root) (forest : Forest radix)
      → Replicates root forest
      → ((seek_forest radix nanos key forest).0 ≡ first_from radix key (radix.prefixed key root))
        × Replicates root (seek_forest radix nanos key forest).1
  unfolding seek_forest
  seek_forest-Replicates nanos key root forest =
      read_fastest-Replicates none (first_from radix key (radix.prefixed key root))
        (seek radix nanos key) root forest
        (λ tree h. (
          ap (λ r. first_from radix key (radix.prefixed key r)) h,
          end_op-root radix _ nanos tree ∙ h,
        ))

  module _ (laws : RootLaws radix) where
    pub insert_forest-Replicates :
        (answers : ℕ → Answer) (nanos : ℕ → ℕ) (key value : Bytes) (root : radix.Root)
        (forest : Forest radix)
        → Replicates root forest
        → Replicates
            (radix.insert key value root)
            (insert_forest radix answers nanos key value forest)
    unfolding insert_forest insert_all
    insert_forest-Replicates answers nanos key value root forest r =
        Replicates-of _ _ (insert_all radix answers nanos key value 0 (r.first ∷ r.rest))
          (ap (insert_all radix answers nanos key value 0) r.its_trees)
          (Rooted-insert_all radix laws answers nanos key value 0 root (r.first ∷ r.rest) r.rooted)
          (omega arith)

    -- The trees of a forest that has one at least, where all have one root, have one root again
    -- when `AddTree` adds a tree: the new tree's, if it holds something and the others nothing or
    -- it is the fastest of all, and else the one that they had.
    pub add_tree_lem :
        (tree : Tree radix) (root : radix.Root) (forest : Forest radix)
        → Replicates root forest
        → Replicates (root_after radix forest.trees root tree) (add_tree radix tree forest)
    unfolding add_tree
    add_tree_lem tree root forest r =
        Replicates-of _ _ (synchronize_trees radix (append radix (r.first ∷ r.rest) tree))
          (ap (λ trees. synchronize_trees radix (append radix trees tree)) r.its_trees)
          (subst
            (λ trees.
              Rooted radix (root_after radix trees root tree)
                (synchronize_trees radix (append radix (r.first ∷ r.rest) tree)))
            (sym r.its_trees)
            (Rooted-synchronize_trees radix laws r.first r.rest root tree r.rooted).0)
          (Rooted-synchronize_trees radix laws r.first r.rest root tree r.rooted).1

    -- Every sequence of operations leaves one root in all trees, whatever trees were added.
    run_forest-Replicates :
        (ops : List ForestOp) (root : radix.Root) (forest : Forest radix)
        → Replicates root forest
        → (root' : radix.Root) × Replicates root' (run_forest ops forest)
    unfolding run_forest step
    run_forest-Replicates [] root forest r = (root, r)
    run_forest-Replicates (insert_op answers nanos key value ∷ ops) root forest r =
        run_forest-Replicates ops _ _
          (insert_forest-Replicates answers nanos key value root forest r)
    run_forest-Replicates (get_op nanos key ∷ ops) root forest r =
        run_forest-Replicates ops root _ (get_forest-Replicates nanos key root forest r).1
    run_forest-Replicates (seek_op nanos key ∷ ops) root forest r =
        run_forest-Replicates ops root _ (seek_forest-Replicates nanos key root forest r).1
    run_forest-Replicates (add_op tree ∷ ops) root forest r =
        run_forest-Replicates ops _ _ (add_tree_lem tree root forest r)

    pub new_forest-Replicates :
        (made : Tree radix × Option LogError) → Replicates made.0.root (new_forest radix made).0
    unfolding new_forest add_tree synchronize_trees guard_value new_batch
    new_forest-Replicates made = record {
      first = made.0;
      rest = [];
      its_trees = refl;
      rooted = (refl, tt);
    }

    -- Behind any sequence of insertions, reads and additions of trees, to a forest that
    -- `NewForest` made, all trees have one root, and `Get` and `Seek` answer from it: the fastest
    -- tree's times, which choose the tree that answers, make no difference.
    pub run_forest-Rooted :
        (made : Tree radix × Option LogError) (ops : List ForestOp)
        → let forest = run_forest ops (new_forest radix made).0 in
          (root : radix.Root) × Rooted radix root forest.trees
          × ((nanos : ℕ) (key : Bytes) → (get_forest radix nanos key forest).0 ≡ radix.get key root)
          × ((nanos : ℕ) (key : Bytes)
              → (seek_forest radix nanos key forest).0
                ≡ first_from radix key (radix.prefixed key root))
    run_forest-Rooted made ops =
        let (root, r) = run_forest-Replicates ops made.0.root _ (new_forest-Replicates made) in
        (
          root,
          subst (Rooted radix root) (sym r.its_trees) r.rooted,
          λ nanos key. (get_forest-Replicates nanos key root _ r).0,
          λ nanos key. (seek_forest-Replicates nanos key root _ r).0,
        )
