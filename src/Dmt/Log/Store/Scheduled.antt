-- ===== src/Dmt/Log/Store/Scheduled.antt =====
-- Operations that schedule no snapshot, and the writer behind any operations.
use datura.Prelude.{
  ◌≡◌, ◌≢◌, refl, ◌∙◌, Bool, true, false, Option, none, some, List, [], ◌∷◌, All, ◌%◌, ◌==◌, arith,
}
use datura.Dmt.Log.Replay.{LogError}
use datura.Dmt.Log.Records.{LogRecord, inserted, deleted, in_term, bytes_of}
use datura.Dmt.Log.Store.{
  Store, Answer, snap_count, append_record, finished, log_insert, log_delete, log_term,
}
use datura.Dmt.Log.Store.Reach.{
  LogOp, insert_op, delete_op, term_op, record_of, run_op, acknowledged, run_ops,
}
use datura.Dmt.Log.Store.Kept.{logged}
use datura.Dmt.Log.Store.Untouched.{SamePositions, append_record-positions}

-- An operation behind which `LogInsert` schedules no snapshot, whatever its result.
abbrev pub SchedulesNone : LogOp → Type 0
SchedulesNone (insert_op answer key value term index) = index % snap_count ≢ 0
SchedulesNone (delete_op answer key term index) = Unit {0}
SchedulesNone (term_op answer term) = Unit {0}

finished-scheduled :
    (e : Option LogError) (after : Store → Store) (s s' : Store)
    → SamePositions s s'
    → (after s').scheduled ≡ s'.scheduled
    → (finished e after s').1.scheduled ≡ s.scheduled
finished-scheduled (some x) after s s' (a, b, c, d) h = c
finished-scheduled none after s s' (a, b, c, d) h = h ∙ c

logged-scheduled :
    (closed : Bool) (answer : Answer) (r : LogRecord) (after : Store → Store) (s : Store)
    → ((x : Store) → (after x).scheduled ≡ x.scheduled)
    → (logged closed answer r after s).1.scheduled ≡ s.scheduled
logged-scheduled true answer r after s h = refl
logged-scheduled false answer r after s h =
    let s' = append_record answer (bytes_of r) s in
    finished-scheduled s'.batch.err after s s' (append_record-positions answer (bytes_of r) s)
      (h s')

pub run_op-scheduled :
    (op : LogOp) (s : Store) → SchedulesNone op → (run_op op s).1.scheduled ≡ s.scheduled
unfolding run_op log_insert log_delete log_term bytes_of
run_op-scheduled (insert_op answer key value term index) s h =
    let between : (index % snap_count == 0) ≡ false = ground (arith, h) in
    logged-scheduled s.closed answer (inserted key value term index) _ s (λ x. rw (between) refl)
run_op-scheduled (delete_op answer key term index) s h =
    logged-scheduled s.closed answer (deleted key term index) _ s (λ x. refl)
run_op-scheduled (term_op answer term) s h =
    logged-scheduled s.closed answer (in_term term) _ s (λ x. refl)

pub run_ops-scheduled :
    (ops : List LogOp) (rs : List LogRecord) (s : Store)
    → All SchedulesNone ops
    → (run_ops ops rs s).1.scheduled ≡ s.scheduled
unfolding run_ops
run_ops-scheduled [] rs s a = refl
run_ops-scheduled (op ∷ ops) rs s (h, a) =
    run_ops-scheduled ops (acknowledged (run_op op s).0 rs (record_of op)) (run_op op s).1 a
    ∙ run_op-scheduled op s h

finished-has_writer :
    (e : Option LogError) (after : Store → Store) (s s' : Store)
    → SamePositions s s'
    → (after s').has_writer ≡ s'.has_writer
    → (finished e after s').1.has_writer ≡ s.has_writer
finished-has_writer (some x) after s s' (a, b, c, d) h = d
finished-has_writer none after s s' (a, b, c, d) h = h ∙ d

logged-has_writer :
    (closed : Bool) (answer : Answer) (r : LogRecord) (after : Store → Store) (s : Store)
    → ((x : Store) → (after x).has_writer ≡ x.has_writer)
    → (logged closed answer r after s).1.has_writer ≡ s.has_writer
logged-has_writer true answer r after s h = refl
logged-has_writer false answer r after s h =
    let s' = append_record answer (bytes_of r) s in
    finished-has_writer s'.batch.err after s s' (append_record-positions answer (bytes_of r) s)
      (h s')

run_op-has_writer : (op : LogOp) (s : Store) → (run_op op s).1.has_writer ≡ s.has_writer
unfolding run_op log_insert log_delete log_term bytes_of
run_op-has_writer (insert_op answer key value term index) s =
    logged-has_writer s.closed answer (inserted key value term index) _ s (λ x. refl)
run_op-has_writer (delete_op answer key term index) s =
    logged-has_writer s.closed answer (deleted key term index) _ s (λ x. refl)
run_op-has_writer (term_op answer term) s =
    logged-has_writer s.closed answer (in_term term) _ s (λ x. refl)

pub run_ops-has_writer :
    (ops : List LogOp) (rs : List LogRecord) (s : Store)
    → (run_ops ops rs s).1.has_writer ≡ s.has_writer
unfolding run_ops
run_ops-has_writer [] rs s = refl
run_ops-has_writer (op ∷ ops) rs s =
    run_ops-has_writer ops (acknowledged (run_op op s).0 rs (record_of op)) (run_op op s).1
    ∙ run_op-has_writer op s
