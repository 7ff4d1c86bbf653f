-- ===== src/Dmt/Tree/Tests.antt =====
-- The theorems on trees at concrete inputs.
use datura.Prelude.{◌≡◌, true, none, some, List, [], ◌∷◌, arith, All}
use datura.Prelude.Bytes.{bytes_compare}
use datura.Dmt.Log.Records.{
  LogRecord, inserted, deleted, Fits, log_bytes, log_entries, last_index_of,
}
use datura.Dmt.Log.Store.{Store}
use datura.Dmt.Log.Store.Open.{opened}
use datura.Dmt.Tree.{new_tree, get, get_log_state}
use datura.Dmt.Tree.Pairs.{pairs_radix, pairs_laws}
use datura.Dmt.Tree.Restart.{put, set_term, TreeOp, run_tree, new_tree-run_tree}
use datura.Dmt.Tree.Lookup.{latest, get-new_tree}

abbrev records : List LogRecord
records =
    inserted (1 ∷ 2 ∷ []) (3 ∷ []) 1 1
    ∷ inserted (1 ∷ []) (4 ∷ []) 1 2
    ∷ deleted (1 ∷ 2 ∷ []) 2 3
    ∷ []

records-Fits : All Fits records
records-Fits = (
  (omega arith, omega arith, omega arith, omega arith),
  (
    (omega arith, omega arith, omega arith, omega arith),
    ((omega arith, omega arith, omega arith), tt),
  ),
)

get-new_tree_example :
    (get pairs_radix 5 (1 ∷ []) (new_tree pairs_radix true true opened (log_bytes records)).0).0
    ≡ some (4 ∷ [])
unfolding latest log_entries bytes_compare
get-new_tree_example = get-new_tree pairs_radix pairs_laws records 5 (1 ∷ []) records-Fits

abbrev ops : List (TreeOp pairs_radix)
ops = put 5 (7 ∷ []) (8 ∷ []) ∷ set_term 3 ∷ put 5 (1 ∷ []) (9 ∷ []) ∷ []

new_tree-run_tree_example :
    let tree =
      run_tree pairs_radix ops (new_tree pairs_radix true true opened (log_bytes records)).0 in
    (store : Store) × (tree.persist ≡ some store)
    × (store.scheduled ≡ 0)
    × ((new_tree pairs_radix true true opened store.wal).1 ≡ none)
    × ((new_tree pairs_radix true true opened store.wal).0.root ≡ tree.root)
    × (get_log_state pairs_radix (new_tree pairs_radix true true opened store.wal).0
        ≡ get_log_state pairs_radix tree)
unfolding last_index_of
new_tree-run_tree_example =
    new_tree-run_tree pairs_radix records ops records-Fits
      ((omega arith, omega arith), (omega arith, ((omega arith, omega arith), tt))) (omega arith)
      (omega arith)
