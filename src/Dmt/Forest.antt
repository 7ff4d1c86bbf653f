-- ===== src/Dmt/Forest.antt =====
-- dmt/forest.go and dmt/snapshot.go: a forest, which writes to all of its trees and reads from the
-- fastest. The published snapshot is the list of trees, and a pointer to a tree is its position in
-- that list, so that a tree is added once. Left out: the network node, the context, a nil tree.
pub mod Fastest
pub mod Replicas
pub mod Sources
pub mod Adding
pub mod Reads
pub mod Contents
pub mod Closing
mod Tests
use datura.Prelude.{
  ℕ, suc, ◌+◌, Bool, true, false, Option, none, some, List, [], ◌∷◌, ◌++◌, ◌==◌, leb, ltb, length,
  get_elem?, set, if◌then◌else◌,
}
use datura.Prelude.Bytes.{Bytes}
use datura.Dmt.Guard.{Batch, new_batch, guard_value, guard_step}
use datura.Dmt.Log.Replay.{LogError}
use datura.Dmt.Log.Store.{Answer, WriteAnswer}
use datura.Dmt.Tree.{Radix, Tree, average, insert, get, seek, visited, close_tree}

module _ (radix : Radix) where
  pub record Forest : Type 0 where
    pub batch : Batch LogError
    pub trees : List (Tree radix)
    pub closed : Bool

  -- `Snapshot.Append`
  abbrev pub append : List (Tree radix) → Tree radix → List (Tree radix)
  append trees tree = trees ++ (tree ∷ [])

  -- The loop of `getFastestTree`: the fastest so far, its average, and the position of the next.
  unfoldable pub fastest_from : ℕ → ℕ → ℕ → List (Tree radix) → ℕ
  fastest_from best best_avg index [] = best
  fastest_from best best_avg index (tree ∷ trees) =
      let avg = average radix tree in
      let faster = ltb avg best_avg in
      fastest_from (if faster then index else best) (if faster then avg else best_avg) (suc index)
        trees

  unfoldable pub fastest : List (Tree radix) → Option ℕ
  unfolding fastest_from
  fastest [] = none
  fastest (tree ∷ trees) = some (fastest_from 0 (average radix tree) 1 trees)

  abbrev pub is_filled : Tree radix → Bool
  is_filled tree = ltb 0 (radix.len tree.root)

  -- The first tree, from this position on, that holds something.
  unfoldable pub first_filled : ℕ → List (Tree radix) → Option ℕ
  first_filled index [] = none
  first_filled index (tree ∷ trees) =
      let rest = first_filled (suc index) trees in if is_filled tree then some index else rest

  -- Is there a tree at this position that holds something?
  unfoldable pub filled_at : List (Tree radix) → Option ℕ → Bool
  filled_at trees none = false
  filled_at trees (some index) = elim (get_elem? trees index) [
    | none ↦ false
    | some tree ↦ is_filled tree
  ]

  unfoldable pub sync_reference_tree : List (Tree radix) → Option ℕ
  sync_reference_tree [] = none
  sync_reference_tree (tree ∷ trees) =
      let best = fastest (tree ∷ trees) in
      if filled_at (tree ∷ trees) best
      then best
      else elim (first_filled 0 (tree ∷ trees)) [ none ↦ some 0 | some index ↦ some index ]

  -- The body of the loop of `synchronizeTrees`.
  unfoldable pub catch_up : Tree radix → Tree radix → Tree radix
  catch_up reference tree = if radix.same tree.root reference.root then tree else record tree {
    root = reference.root;
    term = reference.term;
    log_index = reference.log_index;
  }

  -- The loop, which skips the reference, with the position of the next tree.
  unfoldable pub catch_up_all : ℕ → Tree radix → ℕ → List (Tree radix) → List (Tree radix)
  unfolding catch_up
  catch_up_all ref reference index [] = []
  catch_up_all ref reference index (tree ∷ trees) =
      (if index == ref then tree else catch_up reference tree)
      ∷ catch_up_all ref reference (suc index) trees

  unfoldable pub synchronize_trees : List (Tree radix) → List (Tree radix)
  synchronize_trees trees =
      if leb (length trees) 1 then trees else elim (sync_reference_tree trees) [
        | none ↦ trees
        | some ref ↦ elim (get_elem? trees ref) [
          | none ↦ trees
          | some reference ↦ catch_up_all ref reference 0 trees
        ]
      ]

  unfoldable pub add_tree : Tree radix → Forest → Forest
  unfolding synchronize_trees
  add_tree tree forest = record forest { trees = synchronize_trees (append forest.trees tree) }

  -- `NewForest` without a network, where `NewTree` returns `made`.
  unfoldable pub new_forest : Tree radix × Option LogError → Forest × Option LogError
  unfolding add_tree new_batch guard_value
  new_forest made =
      let (tree, batch, s) =
        guard_value made.0 (λ (s : Unit {0}). (made.0, made.1, s)) new_batch tt in
      let forest = add_tree tree (record { batch = batch; trees = []; closed = false }) in
      (forest, forest.batch.err)

  -- A read of the fastest tree, which counts the operation in that tree.
  unfoldable pub read_fastest :
      {A : Type 0} → A → (Tree radix → A × Tree radix) → Forest → A × Forest
  unfolding fastest
  read_fastest nothing read forest = elim (fastest forest.trees) [
    | none ↦ (nothing, forest)
    | some index ↦ elim (get_elem? forest.trees index) [
      | none ↦ (nothing, forest)
      | some tree ↦
          let (answer, tree') = read tree in
          (answer, record forest { trees = set forest.trees index tree' })
    ]
  ]

  unfoldable pub get_forest : ℕ → Bytes → Forest → Option Bytes × Forest
  unfolding read_fastest get
  get_forest nanos key forest = read_fastest none (get radix nanos key) forest

  unfoldable pub seek_forest : ℕ → Bytes → Forest → Option Bytes × Forest
  unfolding read_fastest seek
  seek_forest nanos key forest = read_fastest none (seek radix nanos key) forest

  -- The pairs that `fn` is called on; `Iterate` times nothing.
  unfoldable pub iterate : (Bytes → Bytes → Bool) → Forest → List (Bytes × Bytes)
  unfolding read_fastest visited
  iterate fn forest =
      (read_fastest [] (λ tree. (visited radix fn (radix.pairs tree.root), tree)) forest).0

  -- The tree at each position gets its own answer of the system and takes its own time.
  unfoldable pub insert_all :
      (ℕ → Answer) → (ℕ → ℕ) → Bytes → Bytes → ℕ → List (Tree radix) → List (Tree radix)
  unfolding insert
  insert_all answers nanos key value index [] = []
  insert_all answers nanos key value index (tree ∷ trees) =
      (insert radix (answers index) (nanos index) key value tree).0
      ∷ insert_all answers nanos key value (suc index) trees

  unfoldable pub insert_forest : (ℕ → Answer) → (ℕ → ℕ) → Bytes → Bytes → Forest → Forest
  unfolding insert_all
  insert_forest answers nanos key value forest = record forest {
    trees = insert_all answers nanos key value 0 forest.trees;
  }

  -- The loop of `Close`, with what the system answers the tree at each position.
  unfoldable pub close_all :
      (ℕ → WriteAnswer × Bool)
      → ℕ
      → Batch LogError
      → List (Tree radix)
      → Batch LogError × List (Tree radix)
  unfolding guard_step close_tree
  close_all answers index batch [] = (batch, [])
  close_all answers index batch (tree ∷ trees) =
      let answer = answers index in
      let (batch', tree') = guard_step (close_tree radix answer.0 answer.1) batch tree in
      let rest = close_all answers (suc index) batch' trees in (rest.0, tree' ∷ rest.1)

  unfoldable pub close_forest : (ℕ → WriteAnswer × Bool) → Forest → Option LogError × Forest
  unfolding close_all
  close_forest answers forest =
      if forest.closed
      then (forest.batch.err, forest)
      else (let (batch, trees) = close_all answers 0 forest.batch forest.trees in
          (batch.err, record { batch = batch; trees = trees; closed = true }))
