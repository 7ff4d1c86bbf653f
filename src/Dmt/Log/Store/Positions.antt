-- ===== src/Dmt/Log/Store/Positions.antt =====
-- The last term and the last index of a store, and what an undisturbed run leaves.
use datura.Prelude.{
  ℕ, ◌≡◌, refl, ap, ap₂, ◌∙◌, sym, Bool, true, false, Option, none, some, List, [], ◌∷◌, ◌++◌, All,
}
use datura.Dmt.Guard.{new_batch}
use datura.Dmt.Log.Replay.{LogError}
use datura.Dmt.Log.Records.{
  LogRecord, inserted, deleted, in_term, bytes_of, Fits, log_bytes, last_term_of, last_index_of,
  term_after, index_after, read_log_lem,
}
use datura.Dmt.Log.Store.{
  Store, Answer, guarded, append_record, finished, log_insert, log_delete, log_term,
}
use datura.Dmt.Log.Store.Open.{
  replay, new_persistent_store, unopened, open_file, load_last_state, get_last_state,
}
use datura.Dmt.Log.Store.Reach.{
  LogOp, insert_op, delete_op, term_op, record_of, run_op, acknowledged, run_ops,
}
use datura.Dmt.Log.Store.Kept.{logged}
use datura.Dmt.Log.Store.Untouched.{SamePositions, append_record-positions}
use datura.Dmt.Log.Store.Durable.{restarted}

-- The two numbers are those of these records.
abbrev pub AtRecords : List LogRecord → ℕ → ℕ → Store → Type 0
AtRecords rs t i s = (s.last_term ≡ last_term_of rs t) × (s.last_index ≡ last_index_of rs i)

pub last_term_of-one :
    (rs : List LogRecord) (r : LogRecord) (t : ℕ)
    → last_term_of (rs ++ (r ∷ [])) t ≡ term_after r (last_term_of rs t)
unfolding last_term_of
last_term_of-one [] r t = refl
last_term_of-one (x ∷ rs) r t = last_term_of-one rs r (term_after x t)

pub last_index_of-one :
    (rs : List LogRecord) (r : LogRecord) (i : ℕ)
    → last_index_of (rs ++ (r ∷ [])) i ≡ index_after r (last_index_of rs i)
unfolding last_index_of
last_index_of-one [] r i = refl
last_index_of-one (x ∷ rs) r i = last_index_of-one rs r (index_after x i)

finished-positions :
    (e : Option LogError) (after : Store → Store) (r : LogRecord) (rs : List LogRecord) (t i : ℕ)
    (s s' : Store)
    → SamePositions s s'
    → ((after s').last_term ≡ term_after r s'.last_term)
    → ((after s').last_index ≡ index_after r s'.last_index)
    → AtRecords rs t i s
    → AtRecords (acknowledged (finished e after s').0 rs r) t i (finished e after s').1
finished-positions (some x) after r rs t i s s' (a, b, c, d) g g' (h, h') = (a ∙ h, b ∙ h')
finished-positions none after r rs t i s s' (a, b, c, d) g g' (h, h') = (
  g ∙ ap (term_after r) (a ∙ h) ∙ sym (last_term_of-one rs r t),
  g' ∙ ap (index_after r) (b ∙ h') ∙ sym (last_index_of-one rs r i),
)

logged-positions :
    (closed : Bool) (answer : Answer) (r : LogRecord) (after : Store → Store) (rs : List LogRecord)
    (t i : ℕ) (s : Store)
    → ((x : Store)
        → ((after x).last_term ≡ term_after r x.last_term)
          × ((after x).last_index ≡ index_after r x.last_index))
    → AtRecords rs t i s
    → AtRecords
        (acknowledged (logged closed answer r after s).0 rs r)
        t
        i
        (logged closed answer r after s).1
logged-positions true answer r after rs t i s g h = h
logged-positions false answer r after rs t i s g h =
    let s' = append_record answer (bytes_of r) s in
    finished-positions s'.batch.err after r rs t i s s'
      (append_record-positions answer (bytes_of r) s) (g s').0 (g s').1 h

pub run_op-positions :
    (op : LogOp) (rs : List LogRecord) (t i : ℕ) (s : Store)
    → AtRecords rs t i s
    → AtRecords (acknowledged (run_op op s).0 rs (record_of op)) t i (run_op op s).1
unfolding run_op log_insert log_delete log_term bytes_of
run_op-positions (insert_op answer key value term index) rs t i s h =
    logged-positions s.closed answer (inserted key value term index) _ rs t i s (λ x. (refl, refl))
      h
run_op-positions (delete_op answer key term index) rs t i s h =
    logged-positions s.closed answer (deleted key term index) _ rs t i s (λ x. (refl, refl)) h
run_op-positions (term_op answer term) rs t i s h =
    logged-positions s.closed answer (in_term term) _ rs t i s (λ x. (refl, refl)) h

pub positions_run :
    (ops : List LogOp) (rs : List LogRecord) (t i : ℕ) (s : Store)
    → AtRecords rs t i s
    → AtRecords (run_ops ops rs s).0 t i (run_ops ops rs s).1
unfolding run_ops
positions_run [] rs t i s h = h
positions_run (op ∷ ops) rs t i s h =
    positions_run ops (acknowledged (run_op op s).0 rs (record_of op)) t i (run_op op s).1
      (run_op-positions op rs t i s h)

pub restarted-positions :
    (rs : List LogRecord) → All Fits rs → AtRecords rs 0 0 (restarted (log_bytes rs))
unfolding new_persistent_store guarded unopened open_file load_last_state replay new_batch
restarted-positions rs a = (
  ap (λ p. p.1.last_term) (read_log_lem rs 0 0 a),
  ap (λ p. p.1.last_index) (read_log_lem rs 0 0 a),
)

-- A store that starts on a log of whole records, whose fields fit, and takes operations with any
-- answers of the system gives as its last term and index those of the acknowledged records: the ones
-- it started with and those of the operations that returned no error. A failed operation changes
-- neither number.
pub run_ops-get_last_state :
    (earlier : List LogRecord) (ops : List LogOp)
    → All Fits earlier
    → let (acks, s) = run_ops ops earlier (restarted (log_bytes earlier)) in
      get_last_state s ≡ (last_term_of acks 0, last_index_of acks 0)
run_ops-get_last_state earlier ops a =
    let (h, h') =
      positions_run ops earlier 0 0 (restarted (log_bytes earlier))
        (restarted-positions earlier a) in
    ap₂ (λ x y. (x, y)) h h'
