-- ===== src/Dmt/Tree/Restart/Steps.antt =====
-- A tree whose log says what the tree says, and the operations on it.
use datura.Prelude.{
  ℕ, ◌+◌, ◌%◌, ◌^◌, ◌<◌, ◌≡◌, ◌≢◌, ◌⊎◌, refl, ap, ◌∙◌, sym, inl, inr, Bool, true, false, Option,
  none, some, List, [], ◌∷◌, ◌++◌, arith, All, length, Bool-cases,
}
use mathlib.Core.Path.{subst}
use datura.Prelude.Bytes.{Bytes}
use datura.Dmt.Guard.{kept, guard_step}
use datura.Dmt.Log.Replay.{LogError}
use datura.Dmt.Log.Records.{
  LogRecord, inserted, in_term, Fits, entries_of, term_after, index_after, log_bytes, last_term_of,
  last_index_of,
}
use datura.Dmt.Log.Store.{Store, snap_count, log_insert}
use datura.Dmt.Log.Store.Scheduled.{SchedulesNone, run_op-scheduled}
use datura.Dmt.Log.Store.Open.{opened}
use datura.Dmt.Log.Store.Reach.{LogOp, insert_op, term_op, record_of, run_op, acknowledged}
use datura.Dmt.Log.Store.Kept.{All-append}
use datura.Dmt.Log.Store.Positions.{
  AtRecords, last_term_of-one, last_index_of-one, run_op-positions,
}
use datura.Dmt.Log.Store.Exact.{done, IsReady, Undisturbed, run_op_ready}
use datura.Dmt.Tree.Restart.Opened.{
  root_of, root_of-one, opened_store, new_tree_lem, last_term_of-bound,
}
use datura.Dmt.Tree.{
  Radix, Tree, apply_entries, new_tree, persisted, insert, update_term, end_op, begin_op,
}

module _ (radix : Radix) where
  -- The tree and its log say the same.
  pub record Synced (rs : List LogRecord) (tree : Tree radix) : Type 0 where
    pub fits : All Fits rs
    pub store : Store
    pub has_store : tree.persist ≡ some store
    pub none_due : store.scheduled ≡ 0
    pub is_ready : IsReady (log_bytes rs) store
    pub at_records : AtRecords rs 0 0 store
    pub no_error : tree.batch.err ≡ none
    pub same_root : tree.root ≡ root_of radix rs
    pub same_term : tree.term ≡ last_term_of rs 0
    pub same_index : tree.log_index ≡ last_index_of rs 0

  -- What `NewTree` reads from a log.
  abbrev pub reopened : Bytes → Tree radix
  reopened log = (new_tree radix true true opened log).0

  pub new_tree-Synced : (rs : List LogRecord) → All Fits rs → Synced rs (reopened (log_bytes rs))
  new_tree-Synced rs a =
      subst (λ r. Synced rs r.0) (sym (new_tree_lem radix rs a))
        (record {
          fits = a;
          store = opened_store rs;
          has_store = refl;
          none_due = refl;
          is_ready = (refl, refl, refl, refl, refl, refl);
          at_records = (refl, refl);
          no_error = refl;
          same_root = refl;
          same_term = refl;
          same_index = refl;
        })

  end_op-Synced :
      (track : Bool) (nanos : ℕ) (rs : List LogRecord) (tree : Tree radix)
      → Synced rs tree
      → Synced rs (end_op radix track nanos tree)
  unfolding end_op
  end_op-Synced true nanos rs tree y = record {
    fits = y.fits;
    store = y.store;
    has_store = y.has_store;
    none_due = y.none_due;
    is_ready = y.is_ready;
    at_records = y.at_records;
    no_error = y.no_error;
    same_root = y.same_root;
    same_term = y.same_term;
    same_index = y.same_index;
  }
  end_op-Synced false nanos rs tree y = record {
    fits = y.fits;
    store = y.store;
    has_store = y.has_store;
    none_due = y.none_due;
    is_ready = y.is_ready;
    at_records = y.at_records;
    no_error = y.no_error;
    same_root = y.same_root;
    same_term = y.same_term;
    same_index = y.same_index;
  }

  persisted_eq :
      (step : Store → Option LogError × Store) (tree : Tree radix) (store : Store)
      → tree.persist ≡ some store
      → tree.batch.err ≡ none
      → persisted radix step tree ≡ record tree {
        batch = kept (record { err = none }) (step store).0;
        persist = some (step store).1;
      }
  unfolding persisted guard_step
  persisted_eq step tree store p q =
      ap (persisted radix step) (λ i. record tree { persist = p i; batch = record { err = q i } })

  -- A guarded operation of the log brings the tree and the log to the next record.
  persisted-Synced :
      (op : LogOp) (rs : List LogRecord) (tree : Tree radix) (root : radix.Root) (term index : ℕ)
      → Synced rs tree
      → Undisturbed op
      → Fits (record_of op)
      → SchedulesNone op
      → root ≡ apply_entries radix (entries_of (record_of op)) tree.root
      → term ≡ term_after (record_of op) tree.term
      → index ≡ index_after (record_of op) tree.log_index
      → Synced (rs ++ (record_of op ∷ [])) (
          persisted radix (run_op op) (record tree { root = root; term = term; log_index = index }))
  persisted-Synced op rs tree root term index y u f due e e' e'' =
      let r = record_of op in
      let (ok, is) = run_op_ready op rs y.store u y.is_ready in
      let positions = run_op-positions op rs 0 0 y.store y.at_records in
      let published = record tree { root = root; term = term; log_index = index } in
      subst (Synced (rs ++ (r ∷ [])))
        (sym (persisted_eq (run_op op) published y.store y.has_store y.no_error))
        (record {
          fits = All-append rs r y.fits f;
          store = (run_op op y.store).1;
          has_store = refl;
          none_due = run_op-scheduled op y.store due ∙ y.none_due;
          is_ready = is;
          at_records =
              subst (λ x. AtRecords (acknowledged x rs r) 0 0 (run_op op y.store).1) ok positions;
          no_error = ap (λ x. (kept (record { err = none }) x).err) ok;
          same_root =
              e
              ∙ ap (apply_entries radix (entries_of r)) y.same_root
              ∙ sym (root_of-one radix rs r);
          same_term = e' ∙ ap (term_after r) y.same_term ∙ sym (last_term_of-one rs r 0);
          same_index = e'' ∙ ap (index_after r) y.same_index ∙ sym (last_index_of-one rs r 0);
        })

  end_op-log_index :
      (track : Bool) (nanos : ℕ) (tree : Tree radix)
      → (end_op radix track nanos tree).log_index ≡ tree.log_index
  unfolding end_op
  end_op-log_index true nanos tree = refl
  end_op-log_index false nanos tree = refl

  persisted-log_index :
      (step : Store → Option LogError × Store) (tree : Tree radix)
      → (persisted radix step tree).log_index ≡ tree.log_index
  unfolding persisted
  persisted-log_index step tree = by_store tree.persist
    where
      by_store :
          (o : Option Store)
          → (persisted radix step (record tree { persist = o })).log_index ≡ tree.log_index
      by_store none = refl
      by_store (some store) = refl

  -- An insertion whose index schedules no snapshot; the log index stays or is the next one.
  pub insert-Synced :
      (nanos : ℕ) (key value : Bytes) (rs : List LogRecord) (tree : Tree radix)
      → Synced rs tree
      → length key < 2 ^ 32
      → length value < 2 ^ 32
      → (tree.log_index + 1) % 2 ^ 64 % snap_count ≢ 0
      → let tree' = (insert radix done nanos key value tree).0 in
        (rs' : List LogRecord) × Synced rs' tree'
        × ((tree'.log_index ≡ tree.log_index) ⊎ (tree'.log_index ≡ (tree.log_index + 1) % 2 ^ 64))
  unfolding insert run_op apply_entries
  insert-Synced nanos key value rs tree y s s' due =
      elim (Bool-cases (radix.same (radix.insert key value tree.root) tree.root)) [
        | inl e ↦ rw (e) (
          rs,
          end_op-Synced (begin_op radix tree) nanos rs tree y,
          inl (end_op-log_index (begin_op radix tree) nanos tree),
        )
        | inr e ↦ rw (e) (
          rs ++ (op_of ∷ []),
          end_op-Synced (begin_op radix tree) nanos (rs ++ (op_of ∷ [])) _ (
              persisted-Synced (insert_op done key value tree.term next) rs tree
                (radix.insert key value tree.root) tree.term next y refl
                (
                  s,
                  s',
                  subst (λ t. t < 2 ^ 64) (sym y.same_term)
                      (last_term_of-bound rs 0 y.fits (omega arith)),
                  omega arith,
                )
                due refl refl refl),
          inr (
              end_op-log_index (begin_op radix tree) nanos _
              ∙ persisted-log_index (log_insert done key value tree.term next)
                  (record tree { root = radix.insert key value tree.root; log_index = next })),
        )
      ]
    where
      next : ℕ
      next = (tree.log_index + 1) % 2 ^ 64

      op_of : LogRecord
      op_of = inserted key value tree.term next

  pub update_term-Synced :
      (term : ℕ) (rs : List LogRecord) (tree : Tree radix)
      → Synced rs tree
      → term < 2 ^ 64
      → Synced (rs ++ (in_term term ∷ [])) (update_term radix done term tree)
  unfolding update_term run_op apply_entries
  update_term-Synced term rs tree y h =
      persisted-Synced (term_op done term) rs tree tree.root term tree.log_index y refl h tt refl
        refl refl

  pub update_term-log_index :
      (term : ℕ) (tree : Tree radix) → (update_term radix done term tree).log_index ≡ tree.log_index
  unfolding update_term
  update_term-log_index term tree = persisted-log_index _ (record tree { term = term })
