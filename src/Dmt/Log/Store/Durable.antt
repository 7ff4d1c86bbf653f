-- ===== src/Dmt/Log/Store/Durable.antt =====
-- What a restart reads back after a sequence of operations, whatever the system answered.
use datura.Prelude.{ℕ, ◌≡◌, refl, ap, ◌∙◌, sym, true, List, [], ◌∷◌, ◌++◌, append-nil, All}
use mathlib.Core.List.{Sublist}
use mathlib.Core.List.Sublist
use datura.Prelude.Bytes.{Bytes}
use datura.Dmt.Guard.{new_batch}
use datura.Dmt.Log.Frame.{WalEntry}
use datura.Dmt.Log.Replay.{read_log}
use datura.Dmt.Log.Replay.Whole.{reading}
use datura.Dmt.Log.Replay.Grows.{replay_loop-Grows}
use datura.Dmt.Log.Records.{
  LogRecord, Fits, log_bytes, log_entries, last_term_of, last_index_of, read_log-rest, read_log_lem,
}
use datura.Dmt.Log.Store.{Store, guarded}
use datura.Dmt.Log.Store.Open.{
  opened, replay, new_persistent_store, unopened, open_file, load_last_state,
}
use datura.Dmt.Log.Store.Reach.{LogOp, record_of, run_op, acknowledged, run_ops}
use datura.Dmt.Log.Store.Scheduled.{SchedulesNone, run_ops-scheduled}
use datura.Dmt.Log.Store.Kept.{Kept, works, failed_write, run_op-Kept}

abbrev pub OpFits : LogOp → Type 0
OpFits op = Fits (record_of op)

pub run_ops-Kept :
    (ops : List LogOp) (acks : List LogRecord) (s : Store)
    → All OpFits ops
    → Kept acks s
    → Kept (run_ops ops acks s).0 (run_ops ops acks s).1
unfolding run_ops
run_ops-Kept [] acks s a kept = kept
run_ops-Kept (op ∷ ops) acks s (h, a) kept =
    run_ops-Kept ops (acknowledged (run_op op s).0 acks (record_of op)) (run_op op s).1 a
      (run_op-Kept op acks s h kept)

-- The store that a process starts with, on the log that another one has left.
abbrev pub restarted : Bytes → Store
restarted log = (new_persistent_store true true opened log).0

pub restarted-scheduled : (log : Bytes) → (restarted log).scheduled ≡ 0
unfolding new_persistent_store guarded unopened open_file load_last_state replay new_batch
restarted-scheduled log = refl

pub restarted-has_writer : (log : Bytes) → (restarted log).has_writer ≡ true
unfolding new_persistent_store guarded unopened open_file load_last_state replay new_batch
restarted-has_writer log = refl

restarted-Kept : (rs : List LogRecord) → All Fits rs → Kept rs (restarted (log_bytes rs))
unfolding new_persistent_store guarded unopened open_file load_last_state replay new_batch
restarted-Kept rs a = works rs a (Sublist.refl rs) (refl, refl, refl) refl

read-Grows :
    (rs : List LogRecord) (rest : Bytes) (t i : ℕ)
    → All Fits rs
    → (more : List WalEntry) × ((read_log (log_bytes rs ++ rest) t i).1.entries
        ≡ log_entries rs ++ more)
read-Grows rs rest t i a =
    let (fuel, enough, e) = read_log-rest rs rest t i a in
    let start = reading rest (log_entries rs) (last_term_of rs t) (last_index_of rs i) in
    let (more, e') = replay_loop-Grows fuel start in (more, ap (λ p. p.1.entries) e ∙ e')

Kept-replay :
    (acks : List LogRecord) (s : Store)
    → Kept acks s
    → (rs : List LogRecord) × (more : List WalEntry) × Sublist acks rs
      × ((replay opened s).0 ≡ log_entries rs ++ more)
unfolding replay
Kept-replay acks s (works rs a sub is e) = (
  rs,
  [],
  sub,
  ap (λ (b : Bytes). (read_log b s.last_term s.last_index).1.entries) e
      ∙ ap (λ p. p.1.entries) (read_log_lem rs s.last_term s.last_index a)
      ∙ sym (append-nil (log_entries rs)),
)
Kept-replay acks s (failed_write rs rest a sub is e) =
    let (more, e') = read-Grows rs rest s.last_term s.last_index a in
    (rs, more, sub, ap (λ (b : Bytes). (read_log b s.last_term s.last_index).1.entries) e ∙ e')

-- A store that starts on a log of whole records and takes operations, of which any may be refused,
-- be cut in its write or fail in its sync, and of which no insertion has an index that is a multiple
-- of 1000, schedules no snapshot and holds a log from which `Replay` gives the entries of some
-- records `rs` and possibly more behind them, and in `rs` there are, in their order, the records
-- that the store started with and those of the operations that returned no error. The fields of all
-- records fit in their bytes.
pub run_ops-replay :
    (earlier : List LogRecord) (ops : List LogOp)
    → All Fits earlier
    → All OpFits ops
    → All SchedulesNone ops
    → let (acks, s) = run_ops ops earlier (restarted (log_bytes earlier)) in
      (s.scheduled ≡ 0)
      × (rs : List LogRecord) × (more : List WalEntry) × Sublist acks rs
      × ((replay opened s).0 ≡ log_entries rs ++ more)
run_ops-replay earlier ops a a' b =
    let (rs, more, sub, e) =
      Kept-replay _ _
        (run_ops-Kept ops earlier (restarted (log_bytes earlier)) a' (restarted-Kept earlier a)) in
    (
      run_ops-scheduled ops earlier (restarted (log_bytes earlier)) b
          ∙ restarted-scheduled (log_bytes earlier),
      rs,
      more,
      sub,
      e,
    )
