-- ===== src/Dmt/Forest/Tests.antt =====
-- Forests of trees over pairs, and the theorems on forests at concrete inputs.
use datura.Prelude.{ℕ, ◌≡◌, refl, true, false, none, some, List, [], ◌∷◌, ◌++◌, take, drop}
use datura.Prelude.Bytes.{Bytes, bytes_compare}
use datura.Dmt.Guard.{new_batch, guard_value}
use datura.Dmt.Log.Store.Exact.{done}
use datura.Dmt.Log.Replay.{io_failed}
use datura.Dmt.Log.Store.Open.{opened}
use datura.Dmt.Log.Store.{stored, torn}
use datura.Dmt.Tree.{Tree, memory_tree, new_tree, close_tree, first_from, average}
use datura.Dmt.Tree.Pairs.{Pairs, pairs_radix, pairs_laws, value_of}
use datura.Dmt.Forest.{
  Forest, add_tree, new_forest, get_forest, close_forest, fastest, sync_reference_tree, filled_at,
  first_filled, catch_up_all, seek_forest,
}
use datura.Dmt.Forest.Replicas.{RootLaws, Rooted}
use datura.Dmt.Forest.Adding.{root_after}
use datura.Dmt.Forest.Reads.{
  ForestOp, insert_op, add_op, run_forest, Replicates, add_tree_lem, run_forest-Rooted,
}
use datura.Dmt.Forest.Contents.{last_put, forest_refines}
use datura.Dmt.Forest.Closing.{close_each, up_to_failure, first_failure, close_forest_lem}

pairs_root_laws : RootLaws pairs_radix
pairs_root_laws = record { same→eq = λ a b h. absurd cc }

abbrev first_tree : Tree pairs_radix
first_tree = record (memory_tree pairs_radix) {
  root = (1 ∷ [], 7 ∷ []) ∷ [];
  op_count = 64;
  op_total_nanos = 10;
}

-- A tree that was opened just now, with another value.
abbrev older_tree : Tree pairs_radix
older_tree = record (memory_tree pairs_radix) { root = (1 ∷ [], 5 ∷ []) ∷ [] }

abbrev forest : Forest pairs_radix
forest = record { batch = new_batch; trees = first_tree ∷ []; closed = false }

forest-Replicates : Replicates pairs_radix ((1 ∷ [], 7 ∷ []) ∷ []) forest
forest-Replicates = record { first = first_tree; rest = []; its_trees = refl; rooted = (refl, tt) }

abbrev ops : List (ForestOp pairs_radix)
ops =
    insert_op (λ i. done) (λ i. 5) (2 ∷ []) (8 ∷ [])
    ∷ add_op (memory_tree pairs_radix)
    ∷ insert_op (λ i. done) (λ i. 5) (2 ∷ []) (9 ∷ [])
    ∷ []

forest_refines_example :
    (get_forest pairs_radix 3
      (2 ∷ [])
      (run_forest pairs_radix ops (new_forest pairs_radix (memory_tree pairs_radix, none)).0)).0
    ≡ some (9 ∷ [])
unfolding last_put value_of bytes_compare memory_tree
forest_refines_example =
    forest_refines pairs_radix pairs_laws pairs_root_laws (memory_tree pairs_radix, none) ops 3
      (2 ∷ []) (tt, (refl, (tt, tt)))

-- The opened tree is the fastest, and its value takes the place of the forest's in every tree.
add_tree_lem_example :
    Replicates pairs_radix ((1 ∷ [], 5 ∷ []) ∷ []) (add_tree pairs_radix older_tree forest)
unfolding root_after fastest average memory_tree
add_tree_lem_example =
    add_tree_lem pairs_radix pairs_root_laws older_tree ((1 ∷ [], 7 ∷ []) ∷ []) forest
      forest-Replicates

run_forest-Rooted_example :
    let behind =
      run_forest pairs_radix
        (add_op older_tree ∷ ops)
        (new_forest pairs_radix (memory_tree pairs_radix, none)).0 in
    (root : Pairs) × Rooted pairs_radix root behind.trees
    × ((nanos : ℕ) (key : Bytes) → (get_forest pairs_radix nanos key behind).0 ≡ value_of key root)
    × ((nanos : ℕ) (key : Bytes)
        → (seek_forest pairs_radix nanos key behind).0 ≡ first_from pairs_radix key root)
run_forest-Rooted_example =
    run_forest-Rooted pairs_radix pairs_root_laws (memory_tree pairs_radix, none)
      (add_op older_tree ∷ ops)

-- Behind a `Close` of a forest whose first tree's batch holds an error, the second is open.
abbrev broken_tree : Tree pairs_radix
broken_tree = record first_tree { batch = record { err = some io_failed } }

close_stops_run :
    (close_forest pairs_radix
      (λ i. (stored, true))
      (record forest {
        trees = broken_tree ∷ (new_tree pairs_radix true true opened []).0 ∷ [];
      })).1.trees
    ≡ broken_tree ∷ (new_tree pairs_radix true true opened []).0 ∷ []
unfolding close_forest close_tree new_tree memory_tree
close_stops_run = refl

-- The first of three trees closes, the second fails, and the third is not closed.
abbrev three : Forest pairs_radix
three = record {
  batch = new_batch;
  trees = first_tree ∷ broken_tree ∷ (new_tree pairs_radix true true opened []).0 ∷ [];
  closed = false;
}

close_forest_lem_example :
    let r = close_forest pairs_radix (λ i. (stored, true)) three in
    (r.1.trees
      ≡ close_each pairs_radix (λ i. (stored, true)) 0 (take 2 three.trees) ++ drop 2 three.trees)
    × (r.0 ≡ some io_failed)
    × (close_forest pairs_radix (λ i. (torn 3, false)) r.1 ≡ r)
unfolding up_to_failure first_failure close_tree memory_tree
close_forest_lem_example =
    close_forest_lem pairs_radix (λ i. (stored, true)) (λ i. (torn 3, false)) three refl

-- A tree with a log of its own that catches up has the forest's root, and an empty log.
caught_up_run :
    (add_tree pairs_radix (new_tree pairs_radix true true opened []).0 forest).trees
    ≡ first_tree
      ∷ (record (new_tree pairs_radix true true opened []).0 { root = (1 ∷ [], 7 ∷ []) ∷ [] })
      ∷ []
unfolding add_tree sync_reference_tree fastest average filled_at first_filled catch_up_all
    memory_tree new_tree guard_value
caught_up_run = refl
