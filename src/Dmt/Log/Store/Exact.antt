-- ===== src/Dmt/Log/Store/Exact.antt =====
-- A run in which the system does what it is asked, and the store that a restart finds.
use datura.Prelude.{
  ℕ, ◌≡◌, refl, ap, ◌∙◌, sym, true, false, Option, none, List, [], ◌∷◌, ◌++◌, append-nil,
  append_assoc, All, map,
}
use mathlib.Core.Path.{subst}
use datura.Prelude.Bytes.{Bytes}
use datura.Dmt.Guard.{reset, new_batch}
use datura.Dmt.Log.Replay.{LogError, read_log}
use datura.Dmt.Log.Records.{
  LogRecord, inserted, deleted, in_term, bytes_of, Fits, log_bytes, log_entries, read_log_lem,
}
use datura.Dmt.Log.Store.{
  Store, current, stored, Answer, guarded, write, flush, sync, hand_over, append_record,
  reset_state, finished, log_insert, log_delete, log_term,
}
use datura.Dmt.Log.Store.Open.{
  opened, replay, new_persistent_store, unopened, open_file, load_last_state,
}
use datura.Dmt.Log.Store.Reach.{LogOp, insert_op, delete_op, term_op, record_of, run_op, run_ops}
use datura.Dmt.Log.Store.Kept.{bytes_of-starts, log_bytes-one, logged, All-append}
use datura.Dmt.Log.Store.Durable.{restarted, restarted-scheduled, OpFits}
use datura.Dmt.Log.Store.Scheduled.{SchedulesNone, run_ops-scheduled}

-- The system does what it is asked.
abbrev pub done : Answer
done = record { write = stored; synced = true }

abbrev pub Undisturbed : LogOp → Type 0
Undisturbed (insert_op answer key value term index) = answer ≡ done
Undisturbed (delete_op answer key term index) = answer ≡ done
Undisturbed (term_op answer term) = answer ≡ done

-- An open store whose log is this.
abbrev ready : Bytes → Store → Store
ready log s = record s {
  wal = log;
  target = current;
  has_file = true;
  pending = [];
  stuck = false;
  closed = false;
}

abbrev pub IsReady : Bytes → Store → Type 0
IsReady log s =
    (s.wal ≡ log)
    × (s.target ≡ current)
    × (s.has_file ≡ true)
    × (s.pending ≡ [])
    × (s.stuck ≡ false)
    × (s.closed ≡ false)

ready_eq : (log : Bytes) (s : Store) → IsReady log s → s ≡ ready log s
ready_eq log s (w, t, f, p, q, c) = λ i. record s {
  wal = w i;
  target = t i;
  has_file = f i;
  pending = p i;
  stuck = q i;
  closed = c i;
}

append_ready :
    (bytes log : Bytes) (s : Store)
    → (b : ℕ) (bs : Bytes) → bytes ≡ b ∷ bs
    → append_record done bytes (ready log s) ≡ record (ready (log ++ bytes) s) { batch = new_batch }
unfolding append_record guarded write flush sync hand_over reset_state reset new_batch
append_ready bytes log s b bs e =
    subst
      (λ (x : Bytes).
        append_record done x (ready log s) ≡ record (ready (log ++ x) s) { batch = new_batch })
      (sym e) refl

-- The result of an operation that has appended its record behind these.
abbrev pub Readied : List LogRecord → LogRecord → Option LogError × Store → Type 0
Readied rs r result = (result.0 ≡ none) × IsReady (log_bytes (rs ++ (r ∷ []))) result.1

-- An operation on such a store returns no error and appends its record.
logged_ready :
    (r : LogRecord) (after : Store → Store) (rs : List LogRecord) (s : Store)
    → ((log : Bytes) (x : Store) → IsReady log (after (ready log x)))
    → IsReady (log_bytes rs) s
    → Readied rs r (logged s.closed done r after s)
unfolding new_batch
logged_ready r after rs s h is =
    let (b, bs, e) = bytes_of-starts r in
    let same = append_ready (bytes_of r) (log_bytes rs) s b bs e in
    subst (λ (x : Store). Readied rs r (logged x.closed done r after x))
      (sym (ready_eq (log_bytes rs) s is))
      (subst (λ (x : Store). Readied rs r (finished x.batch.err after x)) (sym same)
        (
          refl,
          subst
              (λ (log : Bytes).
                IsReady log
                  (after (record (ready (log_bytes rs ++ bytes_of r) s) { batch = new_batch })))
              (sym (log_bytes-one rs r))
              (h (log_bytes rs ++ bytes_of r) (record s { batch = new_batch })),
        ))

pub run_op_ready :
    (op : LogOp) (rs : List LogRecord) (s : Store)
    → Undisturbed op
    → IsReady (log_bytes rs) s
    → Readied rs (record_of op) (run_op op s)
unfolding run_op log_insert log_delete log_term bytes_of
run_op_ready (insert_op answer key value term index) rs s u is =
    let r = inserted key value term index in
    subst (λ a. Readied rs r (log_insert a key value term index s)) (sym u)
      (logged_ready r _ rs s (λ log x. (refl, refl, refl, refl, refl, refl)) is)
run_op_ready (delete_op answer key term index) rs s u is =
    let r = deleted key term index in
    subst (λ a. Readied rs r (log_delete a key term index s)) (sym u)
      (logged_ready r _ rs s (λ log x. (refl, refl, refl, refl, refl, refl)) is)
run_op_ready (term_op answer term) rs s u is =
    subst (λ a. Readied rs (in_term term) (log_term a term s)) (sym u)
      (logged_ready (in_term term) _ rs s (λ log x. (refl, refl, refl, refl, refl, refl)) is)

pub run_ops-IsReady :
    (ops : List LogOp) (rs : List LogRecord) (s : Store)
    → All Undisturbed ops
    → All Fits rs
    → All OpFits ops
    → IsReady (log_bytes rs) s
    → ((run_ops ops rs s).0 ≡ rs ++ map record_of ops)
      × All Fits (run_ops ops rs s).0
      × IsReady (log_bytes (run_ops ops rs s).0) (run_ops ops rs s).1
unfolding run_ops
run_ops-IsReady [] rs s us fits fits' is = (sym (append-nil rs), fits, is)
run_ops-IsReady (op ∷ ops) rs s (u, us) fits (f, fits') is =
    let (e, is') = run_op_ready op rs s u is in
    let rest =
      run_ops-IsReady ops (rs ++ (record_of op ∷ [])) (run_op op s).1 us
        (All-append rs (record_of op) fits f) fits' is' in
    let whole = append_assoc rs (record_of op ∷ []) (map record_of ops) in
    rw (e, run_ops) (rest.0 ∙ whole, rest.1, rest.2)

-- What `Replay` reads from such a store.
pub IsReady-replay :
    (rs : List LogRecord) (s : Store)
    → All Fits rs
    → IsReady (log_bytes rs) s
    → ((replay opened s).0 ≡ log_entries rs) × ((replay opened s).1 ≡ none)
unfolding replay
IsReady-replay rs s fits is =
    let read =
      ap (λ (b : Bytes). read_log b s.last_term s.last_index) is.0
      ∙ read_log_lem rs s.last_term s.last_index fits in
    (ap (λ p. p.1.entries) read, ap (λ p. p.0) read)

pub restarted-IsReady : (rs : List LogRecord) → IsReady (log_bytes rs) (restarted (log_bytes rs))
unfolding new_persistent_store guarded unopened open_file load_last_state replay new_batch
restarted-IsReady rs = (refl, refl, refl, refl, refl, refl)

-- A store that starts on a log of whole records and takes operations that the system does not
-- disturb, of which no insertion has an index that is a multiple of 1000, acknowledges them all and
-- schedules no snapshot, and `Replay` gives, without an error, the entries that it started with and
-- behind them those of the operations, in their order. All fields fit in their bytes.
pub run_ops-replay_exact :
    (earlier : List LogRecord) (ops : List LogOp)
    → All Fits earlier
    → All OpFits ops
    → All Undisturbed ops
    → All SchedulesNone ops
    → let (acks, s) = run_ops ops earlier (restarted (log_bytes earlier)) in
      (acks ≡ earlier ++ map record_of ops)
      × (s.scheduled ≡ 0)
      × ((replay opened s).0 ≡ log_entries (earlier ++ map record_of ops))
      × ((replay opened s).1 ≡ none)
run_ops-replay_exact earlier ops a a' us b =
    let (e, fits, is) =
      run_ops-IsReady ops earlier (restarted (log_bytes earlier)) us a a'
        (restarted-IsReady earlier) in
    let read =
      IsReady-replay (run_ops ops earlier (restarted (log_bytes earlier))).0
        (run_ops ops earlier (restarted (log_bytes earlier))).1 fits is in
    (
      e,
      run_ops-scheduled ops earlier (restarted (log_bytes earlier)) b
          ∙ restarted-scheduled (log_bytes earlier),
      read.0 ∙ ap log_entries e,
      read.1,
    )
