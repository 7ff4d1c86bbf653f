-- ===== src/Dmt/Log/Store/Reach.antt =====
-- Sequences of operations on the store: the records that they acknowledge.
use datura.Prelude.{ℕ, Option, none, some, List, [], ◌∷◌, ◌++◌}
use datura.Prelude.Bytes.{Bytes}
use datura.Dmt.Log.Replay.{LogError}
use datura.Dmt.Log.Records.{LogRecord, inserted, deleted, in_term}
use datura.Dmt.Log.Store.{Store, Answer, log_insert, log_delete, log_term}

pub data LogOp : Type 0 where
  insert_op : (answer : Answer) (key value : Bytes) (term index : ℕ) → LogOp
  delete_op : (answer : Answer) (key : Bytes) (term index : ℕ) → LogOp
  term_op : (answer : Answer) (term : ℕ) → LogOp

abbrev pub record_of : LogOp → LogRecord
record_of (insert_op answer key value term index) = inserted key value term index
record_of (delete_op answer key term index) = deleted key term index
record_of (term_op answer term) = in_term term

unfoldable pub run_op : LogOp → Store → Option LogError × Store
unfolding log_insert log_delete log_term
run_op (insert_op answer key value term index) s = log_insert answer key value term index s
run_op (delete_op answer key term index) s = log_delete answer key term index s
run_op (term_op answer term) s = log_term answer term s

-- The records so far, and one more if its operation returned no error.
abbrev pub acknowledged : Option LogError → List LogRecord → LogRecord → List LogRecord
acknowledged none rs r = rs ++ (r ∷ [])
acknowledged (some e) rs r = rs

-- The operations one after another: the records of those that returned no error, behind those that
-- there were.
unfoldable pub run_ops : List LogOp → List LogRecord → Store → List LogRecord × Store
unfolding run_op
run_ops [] rs s = (rs, s)
run_ops (op ∷ ops) rs s =
    let (e, s') = run_op op s in run_ops ops (acknowledged e rs (record_of op)) s'
