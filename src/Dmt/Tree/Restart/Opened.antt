-- ===== src/Dmt/Tree/Restart/Opened.antt =====
-- The tree that `NewTree` makes of a log of whole records.
use datura.Prelude.{
  ℕ, ◌^◌, ◌<◌, ◌==◌, ◌≡◌, refl, ap, ap₂, ◌∙◌, sym, ◌⊎◌, inl, inr, true, false, none, some, List, [],
  ◌∷◌, ◌++◌, All, append_assoc, append-nil, if◌then◌else◌,
}
use datura.Dmt.Guard.{new_batch, kept, guard_value}
use datura.Dmt.Log.Frame.{op_delete, WalEntry}
use datura.Dmt.Log.Records.{
  LogRecord, inserted, deleted, in_term, snapshotted, Fits, entries_of, log_bytes, log_entries,
  last_term_of, last_index_of, read_log_lem,
}
use datura.Dmt.Log.Store.{current, Store, guarded}
use datura.Dmt.Log.Store.Open.{
  opened, replay, new_persistent_store, unopened, open_file, load_last_state,
}
use datura.Dmt.Tree.{Radix, Tree, apply_entries, new_tree}

-- Two functions of a number that read the last position of some records: each keeps every number or
-- keeps none.
abbrev Settled : (ℕ → ℕ) → Type 0
Settled f = ((x : ℕ) → f x ≡ x) ⊎ ((x y : ℕ) → f x ≡ f y)

Settled-twice : (f : ℕ → ℕ) → Settled f → (x : ℕ) → f (f x) ≡ f x
Settled-twice f (inl h) x = h (f x)
Settled-twice f (inr h) x = h (f x) x

last_term_of-Settled : (rs : List LogRecord) → Settled (last_term_of rs)
unfolding last_term_of
last_term_of-Settled [] = inl (λ x. refl)
last_term_of-Settled (inserted key value term index ∷ rs) = inr (λ x y. refl)
last_term_of-Settled (deleted key term index ∷ rs) = inr (λ x y. refl)
last_term_of-Settled (in_term term ∷ rs) = inr (λ x y. refl)
last_term_of-Settled (snapshotted term index ∷ rs) = inr (λ x y. refl)

last_index_of-Settled : (rs : List LogRecord) → Settled (last_index_of rs)
unfolding last_index_of
last_index_of-Settled [] = inl (λ x. refl)
last_index_of-Settled (inserted key value term index ∷ rs) = inr (λ x y. refl)
last_index_of-Settled (deleted key term index ∷ rs) = inr (λ x y. refl)
last_index_of-Settled (in_term term ∷ rs) = last_index_of-Settled rs
last_index_of-Settled (snapshotted term index ∷ rs) = inr (λ x y. refl)

pub last_term_of-bound :
    (rs : List LogRecord) (t : ℕ) → All Fits rs → t < 2 ^ 64 → last_term_of rs t < 2 ^ 64
unfolding last_term_of
last_term_of-bound [] t a h = h
last_term_of-bound (inserted key value term index ∷ rs) t (f, a) h =
    last_term_of-bound rs term a f.2
last_term_of-bound (deleted key term index ∷ rs) t (f, a) h = last_term_of-bound rs term a f.1
last_term_of-bound (in_term term ∷ rs) t (f, a) h = last_term_of-bound rs term a f
last_term_of-bound (snapshotted term index ∷ rs) t (f, a) h = last_term_of-bound rs term a f.0

log_entries-append :
    (rs rs' : List LogRecord) → log_entries (rs ++ rs') ≡ log_entries rs ++ log_entries rs'
unfolding log_entries
log_entries-append [] rs' = refl
log_entries-append (r ∷ rs) rs' =
    ap (λ es. entries_of r ++ es) (log_entries-append rs rs')
    ∙ sym (append_assoc (entries_of r) (log_entries rs) (log_entries rs'))

-- The store that a restart finds on these records.
abbrev pub opened_store : List LogRecord → Store
opened_store rs = record {
  batch = record { err = none };
  wal = log_bytes rs;
  target = current;
  has_file = true;
  has_writer = true;
  pending = [];
  stuck = false;
  last_term = last_term_of rs 0;
  last_index = last_index_of rs 0;
  closed = false;
  last_snap = 0;
  scheduled = 0;
  snapshots = [];
  new_wal = [];
}

new_persistent_store_lem :
    (rs : List LogRecord)
    → All Fits rs
    → new_persistent_store true true opened (log_bytes rs) ≡ (opened_store rs, none)
unfolding new_persistent_store guarded unopened open_file load_last_state replay new_batch
new_persistent_store_lem rs a =
    ap
      (λ r.
        let batch = kept r.1.batch r.0 in
        (
          record (opened_store rs) {
            batch = batch;
            last_term = r.1.last_term;
            last_index = r.1.last_index;
          },
          batch.err,
        ))
      (read_log_lem rs 0 0 a)

replay-opened_store :
    (rs : List LogRecord)
    → All Fits rs
    → replay opened (opened_store rs) ≡ (log_entries rs, none, opened_store rs)
unfolding replay
replay-opened_store rs a =
    ap
      (λ r. (
        r.1.entries,
        r.0,
        record (opened_store rs) {
          batch = r.1.batch;
          last_term = r.1.last_term;
          last_index = r.1.last_index;
        },
      ))
      (read_log_lem rs (last_term_of rs 0) (last_index_of rs 0) a)
    ∙ ap₂
        (λ t i. (log_entries rs, none, record (opened_store rs) { last_term = t; last_index = i }))
        (Settled-twice (last_term_of rs) (last_term_of-Settled rs) 0)
        (Settled-twice (last_index_of rs) (last_index_of-Settled rs) 0)

module _ (radix : Radix) where
  -- What the log of a tree gives.
  abbrev pub root_of : List LogRecord → radix.Root
  root_of rs = apply_entries radix (log_entries rs) radix.empty

  apply_entries-append :
      (es es' : List WalEntry) (root : radix.Root)
      → apply_entries radix (es ++ es') root ≡ apply_entries radix es' (apply_entries radix es root)
  unfolding apply_entries
  apply_entries-append [] es' root = refl
  apply_entries-append (e ∷ es) es' root =
      apply_entries-append es es'
        (if e.op == op_delete then radix.delete e.key root else radix.insert e.key e.value root)

  pub root_of-one :
      (rs : List LogRecord) (r : LogRecord)
      → root_of (rs ++ (r ∷ [])) ≡ apply_entries radix (entries_of r) (root_of rs)
  unfolding log_entries
  root_of-one rs r =
      ap (λ es. apply_entries radix es radix.empty)
        (log_entries-append rs (r ∷ [])
          ∙ ap (λ es. log_entries rs ++ es) (append-nil (entries_of r)))
      ∙ apply_entries-append (log_entries rs) (entries_of r) radix.empty

  abbrev pub opened_tree : List LogRecord → Tree radix
  opened_tree rs = record {
    batch = record { err = none };
    root = root_of rs;
    persist = some (opened_store rs);
    term = last_term_of rs 0;
    log_index = last_index_of rs 0;
    op_count = 0;
    op_total_nanos = 0;
  }

  pub new_tree_lem :
      (rs : List LogRecord)
      → All Fits rs
      → new_tree radix true true opened (log_bytes rs) ≡ (opened_tree rs, none)
  unfolding new_tree guard_value new_batch
  new_tree_lem rs a =
      ap
        (λ r.
          let batch = kept new_batch r.1 in
          let v = guard_value [] (replay opened) batch r.0 in
          (
            record {
              batch = v.1;
              root = apply_entries radix v.0 radix.empty;
              persist = some v.2;
              term = v.2.last_term;
              log_index = v.2.last_index;
              op_count = 0;
              op_total_nanos = 0;
            },
            v.1.err,
          ))
        (new_persistent_store_lem rs a)
      ∙ ap
          (λ r. (
            record {
              batch = kept new_batch r.1;
              root = apply_entries radix r.0 radix.empty;
              persist = some r.2;
              term = r.2.last_term;
              log_index = r.2.last_index;
              op_count = 0;
              op_total_nanos = 0;
            },
            (kept new_batch r.1).err,
          ))
          (replay-opened_store rs a)
