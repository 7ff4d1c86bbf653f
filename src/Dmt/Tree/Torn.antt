-- ===== src/Dmt/Tree/Torn.antt =====
-- `NewTree` on a log whose last record is cut off.
use datura.Prelude.{ℕ, ◌≤◌, ◌<◌, ◌≡◌, ap, some, List, [], ◌∷◌, ◌++◌, All, length, true, false}
use datura.Prelude.Bytes.{Bytes}
use datura.Dmt.Guard.{new_batch, kept, guard_value}
use datura.Dmt.Log.Frame.{op_term_update}
use datura.Dmt.Log.Replay.{short_read}
use datura.Dmt.Log.Records.{LogRecord, Fits, log_bytes, last_term_of, last_index_of}
use datura.Dmt.Log.Records.Torn.{header_size, read_log-short}
use datura.Dmt.Log.Store.{Store, current, guarded}
use datura.Dmt.Log.Store.Open.{
  opened, replay, new_persistent_store, unopened, open_file, load_last_state,
}
use datura.Dmt.Tree.{Radix, apply_entries, new_tree}

-- The store behind such a log, with the end of a reading.
abbrev torn_store : Bytes → Store
torn_store log = record {
  batch = new_batch;
  wal = log;
  target = current;
  has_file = true;
  has_writer = true;
  pending = [];
  stuck = false;
  last_term = 0;
  last_index = 0;
  closed = false;
  last_snap = 0;
  scheduled = 0;
  snapshots = [];
  new_wal = [];
}

module _ (rs : List LogRecord) (op : ℕ) (short : Bytes) (a : All Fits rs) (h : op ≤ op_term_update)
    (g : length short < header_size op) where
  -- The constructor of the store has an error when the last record of the log is cut off in its
  -- header, although `Replay` gives all records before it without one.
  new_persistent_store-short :
      new_persistent_store true true opened (log_bytes rs ++ (op ∷ short)) ≡ (
        record (torn_store (log_bytes rs ++ (op ∷ short))) {
          batch = record { err = some short_read };
          last_term = last_term_of rs 0;
          last_index = last_index_of rs 0;
        },
        some short_read,
      )
  unfolding new_persistent_store guarded unopened open_file load_last_state replay new_batch
  new_persistent_store-short =
      ap
        (λ r.
          let batch = kept r.1.batch r.0 in
          (
            record (torn_store (log_bytes rs ++ (op ∷ short))) {
              batch = batch;
              last_term = r.1.last_term;
              last_index = r.1.last_index;
            },
            batch.err,
          ))
        (read_log-short rs op short 0 0 a h g)

  -- `NewTree` on a log whose last record is cut off in its header returns an error, and the root of
  -- the tree that it returns beside it is empty, whatever records are before the cut one. The fields
  -- of the records fit.
  pub new_tree-short :
      (radix : Radix)
      → ((new_tree radix true true opened (log_bytes rs ++ (op ∷ short))).1 ≡ some short_read)
        × ((new_tree radix true true opened (log_bytes rs ++ (op ∷ short))).0.root ≡ radix.empty)
  unfolding new_tree guard_value apply_entries new_batch
  new_tree-short radix =
      let e =
        ap (λ r. guard_value [] (replay opened) (kept new_batch r.1) r.0)
          new_persistent_store-short in
      (ap (λ v. v.1.err) e, ap (λ v. apply_entries radix v.0 radix.empty) e)
