-- ===== src/Dmt/Log/Store/Rotated.antt =====
-- The log across a scheduled snapshot.
use datura.Prelude.{
  ℕ, ◌-◌, ◌≤◌, ◌<◌, ◌^◌, ◌≡◌, arith, refl, ap, ◌∙◌, sym, true, none, some, List, [], ◌∷◌,
  append-nil, All, map,
}
use mathlib.Core.Path.{subst}
use datura.Dmt.Log.Records.{
  LogRecord, inserted, deleted, in_term, snapshotted, bytes_of, Fits, log_bytes, log_entries,
  last_term_of, last_index_of,
}
use datura.Dmt.Log.Store.{Store}
use datura.Dmt.Log.Store.Open.{opened, replay}
use datura.Dmt.Log.Store.Truncate.{minute, create_snapshot, run_scheduled}
use datura.Dmt.Log.Store.Snapshots.{open_store, snapped, snapped_store, create_snapshot-snapped}
use datura.Dmt.Log.Store.Reach.{LogOp, record_of, run_ops}
use datura.Dmt.Log.Store.Scheduled.{SchedulesNone, run_ops-scheduled, run_ops-has_writer}
use datura.Dmt.Log.Store.Durable.{restarted, restarted-has_writer, OpFits}
use datura.Dmt.Log.Store.Positions.{positions_run, restarted-positions}
use datura.Dmt.Log.Store.Exact.{
  Undisturbed, IsReady, run_ops-IsReady, restarted-IsReady, IsReady-replay,
}

last_term_of-bound :
    (rs : List LogRecord) (t : ℕ) → All Fits rs → t < 2 ^ 64 → last_term_of rs t < 2 ^ 64
unfolding last_term_of
last_term_of-bound [] t a h = h
last_term_of-bound (inserted key value term index ∷ rs) t (f, a) h =
    last_term_of-bound rs term a f.2
last_term_of-bound (deleted key term index ∷ rs) t (f, a) h = last_term_of-bound rs term a f.1
last_term_of-bound (in_term term ∷ rs) t (f, a) h = last_term_of-bound rs term a f
last_term_of-bound (snapshotted term index ∷ rs) t (f, a) h = last_term_of-bound rs term a f.0

last_index_of-bound :
    (rs : List LogRecord) (i : ℕ) → All Fits rs → i < 2 ^ 64 → last_index_of rs i < 2 ^ 64
unfolding last_index_of
last_index_of-bound [] i a h = h
last_index_of-bound (inserted key value term index ∷ rs) i (f, a) h =
    last_index_of-bound rs index a f.3
last_index_of-bound (deleted key term index ∷ rs) i (f, a) h = last_index_of-bound rs index a f.2
last_index_of-bound (in_term term ∷ rs) i (f, a) h = last_index_of-bound rs i a h
last_index_of-bound (snapshotted term index ∷ rs) i (f, a) h = last_index_of-bound rs index a f.1

open_store_eq : (s : Store) (log : _) → IsReady log s → s.has_writer ≡ true → s ≡ open_store s
open_store_eq s log (w, t, f, p, q, c) h = λ i. record s {
  target = t i;
  has_file = f i;
  has_writer = h i;
  pending = p i;
  stuck = q i;
  closed = c i;
}

snapped_store-IsReady :
    (now : ℕ) (s : Store)
    → IsReady (log_bytes (snapshotted s.last_term s.last_index ∷ [])) (snapped_store now s)
unfolding log_bytes bytes_of
snapped_store-IsReady now s = (sym (append-nil _), refl, refl, refl, refl, refl)

-- The goroutine of a snapshot on a store that is ready and was scheduled one.
run_scheduled-snapped :
    (now : ℕ) (s : Store) (log : _)
    → IsReady log s
    → s.has_writer ≡ true
    → s.scheduled ≡ 1
    → minute ≤ now - s.last_snap
    → run_scheduled snapped now s ≡ some (none, record (snapped_store now s) { scheduled = 0 })
unfolding run_scheduled
run_scheduled-snapped now s log is w one h =
    ap (λ (x : Store). create_snapshot snapped now (record x { scheduled = x.scheduled - 1 }))
      (open_store_eq s log is w)
    ∙ create_snapshot-snapped now (record s { scheduled = s.scheduled - 1 }) h
    ∙ ap (λ (n : ℕ). some (none, record (snapped_store now s) { scheduled = n }))
        {x = s.scheduled - 1} {y = 0} (omega (arith, one))

-- A store on a log of whole records takes operations, behind which one snapshot is scheduled; its
-- goroutine runs, a minute or more after the last one; and then come operations of which no
-- insertion has an index that is a multiple of 1000. The system disturbs none of this, and all
-- fields fit in their bytes. Then the snapshot returns no error, the later operations are all
-- acknowledged, `Replay` gives exactly their entries, without an error, and none of those before the
-- snapshot, and no further snapshot is scheduled.
pub run_scheduled-replay :
    (earlier : List LogRecord) (ops later : List LogOp) (now : ℕ)
    → All Fits earlier
    → All OpFits ops
    → All Undisturbed ops
    → All OpFits later
    → All Undisturbed later
    → All SchedulesNone later
    → (run_ops ops earlier (restarted (log_bytes earlier))).1.scheduled ≡ 1
    → minute ≤ now - (run_ops ops earlier (restarted (log_bytes earlier))).1.last_snap
    → let s = (run_ops ops earlier (restarted (log_bytes earlier))).1 in
      (s' : Store) × (run_scheduled snapped now s ≡ some (none, s'))
      × let (acks, s'') = run_ops later (snapshotted s.last_term s.last_index ∷ []) s' in
        (acks ≡ snapshotted s.last_term s.last_index ∷ map record_of later)
        × ((replay opened s'').0 ≡ log_entries (map record_of later))
        × ((replay opened s'').1 ≡ none)
        × (s''.scheduled ≡ 0)
unfolding log_entries
run_scheduled-replay earlier ops later now a a' us b us' none_due one h =
    let start = restarted (log_bytes earlier) in
    let (acks, s) = run_ops ops earlier start in
    let (e, fits, is) = run_ops-IsReady ops earlier start us a a' (restarted-IsReady earlier) in
    let (at_term, at_index) = positions_run ops earlier 0 0 start (restarted-positions earlier a) in
    let writer = run_ops-has_writer ops earlier start ∙ restarted-has_writer (log_bytes earlier) in
    let first = snapshotted s.last_term s.last_index in
    let first_fits : Fits first = (
      subst (λ n. n < 2 ^ 64) (sym at_term) (last_term_of-bound acks 0 fits (omega arith)),
      subst (λ n. n < 2 ^ 64) (sym at_index) (last_index_of-bound acks 0 fits (omega arith)),
    ) in
    let s' = record (snapped_store now s) { scheduled = 0 } in
    let (e', fits', is') =
      run_ops-IsReady later (first ∷ []) s' us' (first_fits, tt) b (snapped_store-IsReady now s) in
    let read =
      IsReady-replay (run_ops later (first ∷ []) s').0 (run_ops later (first ∷ []) s').1 fits'
        is' in
    (
      s',
      run_scheduled-snapped now s (log_bytes acks) is writer one h,
      (e', read.0 ∙ ap log_entries e', read.1, run_ops-scheduled later (first ∷ []) s' none_due),
    )
