-- ===== src/Dmt/Log/Store/Kept.antt =====
-- What is in the log after a sequence of operations, whatever the system answers.
use datura.Prelude.{
  ℕ, ◌≡◌, refl, ap, ◌∙◌, sym, Bool, true, false, Option, none, some, List, [], ◌∷◌, ◌++◌,
  append_assoc, append-nil, take, All, if◌then◌else◌,
}
use mathlib.Core.List.{Sublist, nil-sublist}
use mathlib.Core.List.Sublist
use mathlib.Core.Path.{subst}
use datura.Prelude.Bytes.{Bytes}
use datura.Dmt.Guard.{reset}
use datura.Dmt.Log.Frame.{insert_record, delete_record, term_record, snapshot_record}
use datura.Dmt.Log.Replay.{LogError, io_failed, store_closed}
use datura.Dmt.Log.Records.{
  LogRecord, inserted, deleted, in_term, snapshotted, bytes_of, Fits, log_bytes,
}
use datura.Dmt.Log.Store.{
  Store, current, WriteAnswer, stored, torn, Answer, guarded, write, flush, sync, hand_over,
  append_record, reset_state, finished, log_insert, log_delete, log_term,
}
use datura.Dmt.Log.Store.Reach.{
  LogOp, insert_op, delete_op, term_op, record_of, run_op, acknowledged,
}

-- A store whose writer works, and one whose writer has failed.
abbrev pub working : Store → Store
working s = record s { target = current; pending = []; stuck = false }

abbrev broken : Store → Store
broken s = record s { target = current; stuck = true }

abbrev pub IsWorking : Store → Type 0
IsWorking s = (s.target ≡ current) × (s.pending ≡ []) × (s.stuck ≡ false)

abbrev pub IsBroken : Store → Type 0
IsBroken s = (s.target ≡ current) × (s.stuck ≡ true)

pub working_eq : (s : Store) → IsWorking s → s ≡ working s
working_eq s (t, p, q) = λ i. record s { target = t i; pending = p i; stuck = q i }

broken_eq : (s : Store) → IsBroken s → s ≡ broken s
broken_eq s (t, q) = λ i. record s { target = t i; stuck = q i }

-- The log is whole records, in which the acknowledged ones stand in their order, and behind them
-- what a failed write left.
pub data Kept (acks : List LogRecord) (s : Store) : Type 0 where
  works :
      (rs : List LogRecord)
      → All Fits rs
      → Sublist acks rs
      → IsWorking s
      → s.wal ≡ log_bytes rs
      → Kept acks s
  failed_write :
      (rs : List LogRecord) (rest : Bytes)
      → All Fits rs
      → Sublist acks rs
      → IsBroken s
      → s.wal ≡ log_bytes rs ++ rest
      → Kept acks s

-- What an append does to a store whose writer works: the whole record is in the file, or a part of
-- it is and the batch has the error.
data Appended (bytes : Bytes) (s s' : Store) : Type 0 where
  whole : IsWorking s' → s'.wal ≡ s.wal ++ bytes → Appended bytes s s'
  part :
      (rest : Bytes)
      → IsBroken s'
      → s'.wal ≡ s.wal ++ rest
      → s'.batch.err ≡ some io_failed
      → Appended bytes s s'

append_working :
    (answer : Answer) (b : ℕ) (bs : Bytes) (s : Store)
    → Appended (b ∷ bs) s (append_record answer (b ∷ bs) (working s))
unfolding append_record guarded write flush sync hand_over reset_state reset
append_working answer b bs s = by_answer answer.write answer.synced s.has_file
  where
    by_answer :
        (w : WriteAnswer) (synced has_file : Bool)
        → Appended (b ∷ bs) s (
            append_record
              (record { write = w; synced = synced })
              (b ∷ bs)
              (working (record s { has_file = has_file })))
    by_answer stored true true = whole (refl, refl, refl) refl
    by_answer stored false true = whole (refl, refl, refl) refl
    by_answer stored synced false = whole (refl, refl, refl) refl
    by_answer (torn n) synced has_file = part (take n (b ∷ bs)) (refl, refl) refl refl

append_broken :
    (answer : Answer) (bytes : Bytes) (s : Store)
    → append_record answer bytes (broken s)
      ≡ record (broken s) { batch = record { err = some io_failed } }
unfolding append_record guarded write flush sync hand_over reset_state reset
append_broken answer bytes s = refl

pub bytes_of-starts : (r : LogRecord) → (b : ℕ) × (bs : Bytes) × (bytes_of r ≡ b ∷ bs)
unfolding bytes_of insert_record delete_record term_record snapshot_record
bytes_of-starts (inserted key value term index) = (_, _, refl)
bytes_of-starts (deleted key term index) = (_, _, refl)
bytes_of-starts (in_term term) = (_, _, refl)
bytes_of-starts (snapshotted term index) = (_, _, refl)

appended :
    (answer : Answer) (r : LogRecord) (s : Store)
    → Appended (bytes_of r) s (append_record answer (bytes_of r) (working s))
appended answer r s =
    let (b, bs, e) = bytes_of-starts r in
    subst (λ (x : Bytes). Appended x s (append_record answer x (working s))) (sym e)
      (append_working answer b bs s)

log_bytes-append : (rs rs' : List LogRecord) → log_bytes (rs ++ rs') ≡ log_bytes rs ++ log_bytes rs'
unfolding log_bytes
log_bytes-append [] rs' = refl
log_bytes-append (r ∷ rs) rs' =
    ap (bytes_of r ++◌) (log_bytes-append rs rs')
    ∙ sym (append_assoc (bytes_of r) (log_bytes rs) (log_bytes rs'))

pub log_bytes-one :
    (rs : List LogRecord) (r : LogRecord) → log_bytes (rs ++ (r ∷ [])) ≡ log_bytes rs ++ bytes_of r
unfolding log_bytes
log_bytes-one rs r = log_bytes-append rs (r ∷ []) ∙ ap (log_bytes rs ++◌) (append-nil (bytes_of r))

pub All-append :
    (rs : List LogRecord) (r : LogRecord) → All Fits rs → Fits r → All Fits (rs ++ (r ∷ []))
All-append [] r a h = (h, tt)
All-append (x ∷ rs) r (g, a) h = (g, All-append rs r a h)

-- It leaves what the writer and the file hold.
abbrev Quiet : (Store → Store) → Type 0
Quiet after =
    (s : Store)
    → ((after s).wal ≡ s.wal)
      × ((after s).target ≡ s.target)
      × ((after s).pending ≡ s.pending)
      × ((after s).stuck ≡ s.stuck)

unacknowledged :
    {acks rs : List LogRecord} (r : LogRecord) → Sublist acks rs → Sublist acks (rs ++ (r ∷ []))
unacknowledged {acks} {rs} r sub =
    subst (λ xs. Sublist xs (rs ++ (r ∷ []))) (append-nil acks)
      (Sublist.append sub (nil-sublist (r ∷ [])))

-- The store behind a whole record, and behind one that a write has cut.
finished-Kept :
    (e : Option LogError) (after : Store → Store) (acks : List LogRecord) (r : LogRecord)
    (s s' : Store) (rs : List LogRecord)
    → Quiet after
    → All Fits rs
    → Fits r
    → Sublist acks rs
    → s.wal ≡ log_bytes rs
    → Appended (bytes_of r) s s'
    → e ≡ s'.batch.err
    → Kept (acknowledged (finished e after s').0 acks r) (finished e after s').1
finished-Kept none after acks r s s' rs quiet a h sub e (whole (t, p, q) e') g =
    let (w, t', p', q') = quiet s' in
    works (rs ++ (r ∷ [])) (All-append rs r a h) (Sublist.append sub (Sublist.refl (r ∷ [])))
      (t' ∙ t, p' ∙ p, q' ∙ q)
      (w ∙ e' ∙ ap (λ (b : Bytes). b ++ bytes_of r) e ∙ sym (log_bytes-one rs r))
finished-Kept (some x) after acks r s s' rs quiet a h sub e (whole is e') g =
    works (rs ++ (r ∷ [])) (All-append rs r a h) (unacknowledged r sub) is
      (e' ∙ ap (λ (b : Bytes). b ++ bytes_of r) e ∙ sym (log_bytes-one rs r))
finished-Kept none after acks r s s' rs quiet a h sub e (part rest b e' failed) g = absurd (cc)
finished-Kept (some x) after acks r s s' rs quiet a h sub e (part rest b e' failed) g =
    failed_write rs rest a sub b (e' ∙ ap (λ (x : Bytes). x ++ rest) e)

-- An operation that appends the record `r` and then sets fields that are not the log's.
abbrev pub logged : Bool → Answer → LogRecord → (Store → Store) → Store → Option LogError × Store
logged closed answer r after s =
    if closed
    then (some store_closed, s)
    else (let s' = append_record answer (bytes_of r) s in finished s'.batch.err after s')

logged-Kept :
    (closed : Bool) (answer : Answer) (r : LogRecord) (after : Store → Store)
    (acks : List LogRecord) (s : Store)
    → Quiet after
    → Fits r
    → Kept acks s
    → Kept
        (acknowledged (logged closed answer r after s).0 acks r)
        (logged closed answer r after s).1
logged-Kept true answer r after acks s quiet h kept = kept
logged-Kept false answer r after acks s quiet h (works rs a sub is e) =
    finished-Kept _ after acks r s (append_record answer (bytes_of r) s) rs quiet a h sub e
      (subst (λ x. Appended (bytes_of r) s (append_record answer (bytes_of r) x))
        (sym (working_eq s is)) (appended answer r s))
      refl
logged-Kept false answer r after acks s quiet h (failed_write rs rest a sub is e) =
    subst
      (λ x.
        Kept (acknowledged (finished x.batch.err after x).0 acks r)
          (finished x.batch.err after x).1)
      (sym (
        ap (append_record answer (bytes_of r)) (broken_eq s is)
        ∙ append_broken answer (bytes_of r) s))
      (failed_write rs rest a sub (refl, refl) e)

pub run_op-Kept :
    (op : LogOp) (acks : List LogRecord) (s : Store)
    → Fits (record_of op)
    → Kept acks s
    → Kept (acknowledged (run_op op s).0 acks (record_of op)) (run_op op s).1
unfolding run_op log_insert log_delete log_term bytes_of
run_op-Kept (insert_op answer key value term index) acks s h kept =
    logged-Kept s.closed answer (inserted key value term index) _ acks s
      (λ x. (refl, refl, refl, refl)) h kept
run_op-Kept (delete_op answer key term index) acks s h kept =
    logged-Kept s.closed answer (deleted key term index) _ acks s (λ x. (refl, refl, refl, refl)) h
      kept
run_op-Kept (term_op answer term) acks s h kept =
    logged-Kept s.closed answer (in_term term) _ acks s (λ x. (refl, refl, refl, refl)) h kept
