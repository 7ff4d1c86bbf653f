-- ===== src/Dmt/Tree/Restart.antt =====
-- A tree that is closed and opened again is the tree that it was.
pub mod Opened
pub mod Steps
use datura.Prelude.{
  ℕ, suc, ◌≢◌, ◌+◌, ◌%◌, ◌^◌, ◌<◌, ◌==◌, ◌≡◌, refl, ap, ap₂, ◌∙◌, sym, ◌⊎◌, inl, inr, Bool, true,
  false, Option, none, some, List, [], ◌∷◌, ◌++◌, arith, All, append_assoc, append-nil, length,
  Bool-cases, if◌then◌else◌,
}
use mathlib.Core.Path.{subst}
use datura.Prelude.Bytes.{Bytes}
use datura.Dmt.Guard.{Batch, new_batch, kept, guard_value, guard_step}
use datura.Dmt.Log.Frame.{op_delete, op_insert, WalEntry}
use datura.Dmt.Log.Replay.{LogError, read_log}
use datura.Dmt.Log.Replay.Whole.{reading}
use datura.Dmt.Log.Records.{
  LogRecord, inserted, deleted, in_term, snapshotted, Fits, entries_of, term_after, index_after,
  log_bytes, log_entries, last_term_of, last_index_of, read_log_lem,
}
use datura.Dmt.Log.Store.{current, Store, Answer, log_insert, log_term, guarded, snap_count}
use datura.Dmt.Log.Store.Open.{
  opened, replay, new_persistent_store, unopened, open_file, load_last_state,
}
use datura.Dmt.Log.Store.Reach.{LogOp, insert_op, term_op, record_of, run_op, acknowledged}
use datura.Dmt.Log.Store.Kept.{All-append}
use datura.Dmt.Log.Store.Durable.{restarted}
use datura.Dmt.Log.Store.Positions.{
  AtRecords, last_term_of-one, last_index_of-one, run_op-positions, restarted-positions,
}
use datura.Dmt.Log.Store.Exact.{
  done, IsReady, Readied, Undisturbed, run_op_ready, restarted-IsReady,
}
use datura.Dmt.Tree.Restart.Opened.{
  root_of, root_of-one, opened_store, opened_tree, new_tree_lem, last_term_of-bound,
}
use datura.Dmt.Tree.{
  Radix, Tree, apply_entries, new_tree, persisted, insert, update_term, get_log_state, end_op,
  begin_op,
}
use datura.Dmt.Tree.Restart.Steps.{
  Synced, reopened, new_tree-Synced, insert-Synced, update_term-Synced, update_term-log_index,
}

module _ (radix : Radix) where
  -- Writes and new terms, none of which the system disturbs.
  pub data TreeOp : Type 0 where
    put : (nanos : ℕ) (key value : Bytes) → TreeOp
    set_term : (term : ℕ) → TreeOp

  abbrev pub TreeOpFits : TreeOp → Type 0
  TreeOpFits (put nanos key value) = (length key < 2 ^ 32) × (length value < 2 ^ 32)
  TreeOpFits (set_term term) = term < 2 ^ 64

  unfoldable pub run_tree : List TreeOp → Tree radix → Tree radix
  run_tree [] tree = tree
  run_tree (put nanos key value ∷ ops) tree =
      run_tree ops (insert radix done nanos key value tree).0
  run_tree (set_term term ∷ ops) tree = run_tree ops (update_term radix done term tree)

  -- The next `n` indexes are no multiples of 1000, and do not wrap.
  abbrev pub FarFromDue : ℕ → ℕ → Type 0
  FarFromDue n index = (index % snap_count + n < snap_count) × (index + n < 2 ^ 64)

  next_due : (n index : ℕ) → FarFromDue (suc n) index → (index + 1) % 2 ^ 64 % snap_count ≢ 0
  next_due n index (far, fits) h = omega (arith, far, fits, h)

  next_far :
      (n index index' : ℕ)
      → FarFromDue (suc n) index
      → (index' ≡ index) ⊎ (index' ≡ (index + 1) % 2 ^ 64)
      → FarFromDue n index'
  next_far n index index' (far, fits) (inl h) = (omega (arith, far, h), omega (arith, fits, h))
  next_far n index index' (far, fits) (inr h) =
      (omega (arith, far, fits, h), omega (arith, fits, h))

  run_tree-Synced :
      (ops : List TreeOp) (rs : List LogRecord) (tree : Tree radix)
      → All TreeOpFits ops
      → FarFromDue (length ops) tree.log_index
      → Synced radix rs tree
      → (rs' : List LogRecord) × Synced radix rs' (run_tree ops tree)
  unfolding run_tree
  run_tree-Synced [] rs tree a far y = (rs, y)
  run_tree-Synced (put nanos key value ∷ ops) rs tree (f, a) far y =
      let (rs', y', index) =
        insert-Synced radix nanos key value rs tree y f.0 f.1
          (next_due (length ops) tree.log_index far) in
      run_tree-Synced ops rs' (insert radix done nanos key value tree).0 a
        (next_far (length ops) tree.log_index _ far index) y'
  run_tree-Synced (set_term term ∷ ops) rs tree (f, a) far y =
      run_tree-Synced ops (rs ++ (in_term term ∷ [])) (update_term radix done term tree) a
        (next_far (length ops) tree.log_index _ far (inl (update_term-log_index radix term tree)))
        (update_term-Synced radix term rs tree y f)

  -- For every radix tree: a tree that starts on a log of whole records and takes writes and new
  -- terms, none of which the system disturbs, so few that the log index reaches no multiple of 1000
  -- and does not wrap, schedules no snapshot and leaves a log from which `NewTree` makes, without an
  -- error, a tree with the same root, the same term and the same log index. The keys, values and
  -- terms fit in the fields of a record.
  pub new_tree-run_tree :
      (earlier : List LogRecord) (ops : List TreeOp)
      → All Fits earlier
      → All TreeOpFits ops
      → last_index_of earlier 0 % 1000 + length ops < 1000
      → last_index_of earlier 0 + length ops < 2 ^ 64
      → let tree = run_tree ops (reopened radix (log_bytes earlier)) in
        (store : Store) × (tree.persist ≡ some store)
        × (store.scheduled ≡ 0)
        × ((new_tree radix true true opened store.wal).1 ≡ none)
        × ((reopened radix store.wal).root ≡ tree.root)
        × (get_log_state radix (reopened radix store.wal) ≡ get_log_state radix tree)
  new_tree-run_tree earlier ops a a' far fits =
      let start = new_tree-Synced radix earlier a in
      let (rs, y) =
        run_tree-Synced ops earlier (reopened radix (log_bytes earlier)) a'
          (omega (arith, start.same_index, far), omega (arith, start.same_index, fits)) start in
      let e = ap (new_tree radix true true opened) y.is_ready.0 ∙ new_tree_lem radix rs y.fits in
      (
        y.store,
        y.has_store,
        y.none_due,
        ap (λ r. r.1) e,
        ap (λ r. r.0.root) e ∙ sym y.same_root,
        ap (λ r. get_log_state radix r.0) e
            ∙ ap₂ (λ t i. (t, i)) (sym y.same_term) (sym y.same_index),
      )
