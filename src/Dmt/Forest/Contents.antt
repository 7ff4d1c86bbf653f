-- ===== src/Dmt/Forest/Contents.antt =====
-- A forest as a map from keys to values.
use datura.Prelude.{
  ℕ, ◌≡◌, ◌≢◌, ap, ◌∙◌, true, false, Option, some, List, [], ◌∷◌, All, Bool-cases, inl, inr,
  if◌then◌else◌,
}
use mathlib.Core.Path.{subst}
use datura.Prelude.Bytes.{Bytes, bytes_equal, bytes_equal→eq, bytes_equal_refl}
use datura.Dmt.Log.Replay.{LogError}
use datura.Dmt.Tree.{Radix, Tree}
use datura.Dmt.Tree.Lookup.{RadixLaws}
use datura.Dmt.Forest.{Forest, get_forest, add_tree, new_forest}
use datura.Dmt.Forest.Replicas.{RootLaws}
use datura.Dmt.Forest.Adding.{root_after-empty}
use datura.Dmt.Forest.Reads.{
  ForestOp, insert_op, get_op, seek_op, add_op, step, run_forest, Replicates, get_forest-Replicates,
  seek_forest-Replicates, insert_forest-Replicates, new_forest-Replicates, add_tree_lem,
}

module _ (radix : Radix) where
  -- The value last inserted under a key, if its value was `before`.
  unfoldable pub last_put : Bytes → Option Bytes → List (ForestOp radix) → Option Bytes
  last_put key before [] = before
  last_put key before (insert_op answers nanos k value ∷ ops) =
      last_put key (if bytes_equal key k then some value else before) ops
  last_put key before (get_op nanos k ∷ ops) = last_put key before ops
  last_put key before (seek_op nanos k ∷ ops) = last_put key before ops
  last_put key before (add_op tree ∷ ops) = last_put key before ops

  -- An added tree holds nothing.
  abbrev pub AddsEmpty : ForestOp radix → Type 0
  AddsEmpty (add_op tree) = radix.len tree.root ≡ 0
  AddsEmpty (insert_op answers nanos key value) = Unit {0}
  AddsEmpty (get_op nanos key) = Unit {0}
  AddsEmpty (seek_op nanos key) = Unit {0}

  module _ (laws : RadixLaws radix) (root_laws : RootLaws radix) where
    get-insert_any :
        (key k value : Bytes) (root : radix.Root)
        → radix.get key (radix.insert k value root)
          ≡ (if bytes_equal key k then some value else radix.get key root)
    get-insert_any key k value root = elim (Bool-cases (bytes_equal key k)) [
      | inl e ↦ rw (e) (
          ap (λ other. radix.get other (radix.insert k value root)) (bytes_equal→eq key k e)
          ∙ laws.get-insert k value root)
      | inr e ↦ rw (e) (laws.get-insert_ne key k value root (differs e))
    ]
      where
        differs : bytes_equal key k ≡ false → key ≢ k
        differs h e =
            let equal : bytes_equal key k ≡ true =
              subst (λ other. bytes_equal key other ≡ true) e (bytes_equal_refl key) in
            cc

    get-run_forest :
        (nanos : ℕ) (key : Bytes) (ops : List (ForestOp radix)) (root : radix.Root)
        (forest : Forest radix)
        → All AddsEmpty ops
        → Replicates radix root forest
        → (get_forest radix nanos key (run_forest radix ops forest)).0
          ≡ last_put key (radix.get key root) ops
    unfolding run_forest step last_put
    get-run_forest nanos key [] root forest a r =
        (get_forest-Replicates radix nanos key root forest r).0
    get-run_forest nanos key (insert_op answers times k value ∷ ops) root forest (h, a) r =
        get-run_forest nanos key ops _ _ a
          (insert_forest-Replicates radix root_laws answers times k value root forest r)
        ∙ ap (λ v. last_put key v ops) (get-insert_any key k value root)
    get-run_forest nanos key (get_op time k ∷ ops) root forest (h, a) r =
        get-run_forest nanos key ops root _ a (get_forest-Replicates radix time k root forest r).1
    get-run_forest nanos key (seek_op time k ∷ ops) root forest (h, a) r =
        get-run_forest nanos key ops root _ a (seek_forest-Replicates radix time k root forest r).1
    get-run_forest nanos key (add_op tree ∷ ops) root forest (h, a) r =
        get-run_forest nanos key ops root _ a (
          subst (λ other. Replicates radix other (add_tree radix tree forest))
            (root_after-empty radix forest.trees root tree h)
            (add_tree_lem radix root_laws tree root forest r))

    -- Behind any sequence of insertions, reads and additions of empty trees, to a forest that
    -- `NewForest` made with a tree of its own, `Get` answers for every key with the value last
    -- inserted under it, and without an insertion as that first tree did, whatever the system
    -- answered the logs and whichever tree is the fastest.
    pub forest_refines :
        (made : Tree radix × Option LogError) (ops : List (ForestOp radix)) (nanos : ℕ)
        (key : Bytes)
        → All AddsEmpty ops
        → (get_forest radix nanos key (run_forest radix ops (new_forest radix made).0)).0
          ≡ last_put key (radix.get key made.0.root) ops
    forest_refines made ops nanos key a =
        get-run_forest nanos key ops made.0.root _ a (new_forest-Replicates radix root_laws made)
