-- ===== src/Dmt/Tree.antt =====
-- dmt/tree.go: a tree, which is the root of an immutable radix tree and the log behind it. The radix
-- tree is a parameter. Left out: the nil tree, and the cognitive state that shares the struct; a
-- write is one step, so that its compare-and-swap succeeds.
pub mod Restart
pub mod Lookup
pub mod Torn
pub mod Pairs
mod Tests
use datura.Prelude.{
  ℕ, ◌+◌, ◌*◌, ◌/◌, ◌%◌, ◌^◌, Bool, true, false, not, Option, none, some, List, [], ◌∷◌, ◌==◌,
  if◌then◌else◌,
}
use datura.Prelude.Bytes.{Bytes, bytes_lt}
use datura.Dmt.Guard.{Batch, new_batch, kept, guard_value, guard_step}
use datura.Dmt.Log.Frame.{op_delete, WalEntry}
use datura.Dmt.Log.Replay.{LogError}
use datura.Dmt.Log.Store.{Store, Answer, WriteAnswer, log_insert, log_term}
use datura.Dmt.Log.Store.Open.{OpenAnswer, new_persistent_store, replay, close}

-- The operations of iradix that a tree uses: `same` is the comparison of two pointers, `pairs` what
-- an iterator gives, and `prefixed` what it gives behind `SeekPrefix`.
pub record Radix : Type 1 where
  pub Root : Type 0
  pub empty : Root
  pub insert : Bytes → Bytes → Root → Root
  pub delete : Bytes → Root → Root
  pub get : Bytes → Root → Option Bytes
  pub same : Root → Root → Bool
  pub len : Root → ℕ
  pub pairs : Root → List (Bytes × Bytes)
  pub prefixed : Bytes → Root → List (Bytes × Bytes)

-- The 64 operations of which one is timed.
abbrev pub op_sample : ℕ
op_sample = 64

module _ (radix : Radix) where
  pub record Tree : Type 0 where
    pub batch : Batch LogError
    pub root : radix.Root
    pub persist : Option Store
    pub term : ℕ
    pub log_index : ℕ
    pub op_count : ℕ
    pub op_total_nanos : ℕ

  -- `beginOp`: is the operation timed?
  abbrev pub begin_op : Tree → Bool
  begin_op tree = tree.op_count % op_sample == 0

  -- `endOp`, for an operation that took this long.
  unfoldable pub end_op : Bool → ℕ → Tree → Tree
  end_op track nanos tree =
      let counted = record tree { op_count = (tree.op_count + 1) % 2 ^ 64 } in
      if track then record counted { op_total_nanos = tree.op_total_nanos + nanos } else counted

  -- `AVG`, with times whose sum, and its product, fit an int64.
  unfoldable pub average : Tree → ℕ
  average tree = if tree.op_count == 0 then 0 else tree.op_total_nanos * op_sample / tree.op_count

  -- The loop of `NewTree` over the entries of the log.
  unfoldable pub apply_entries : List WalEntry → radix.Root → radix.Root
  apply_entries [] root = root
  apply_entries (entry ∷ entries) root = apply_entries entries (
      if entry.op == op_delete
      then radix.delete entry.key root
      else radix.insert entry.key entry.value root)

  -- `NewTree` on a directory whose log is `log`: the answers are those of `os.MkdirAll`,
  -- `os.OpenFile` and `os.Open`.
  unfoldable pub new_tree : Bool → Bool → OpenAnswer → Bytes → Tree × Option LogError
  unfolding new_batch new_persistent_store replay apply_entries
  new_tree made_dir opened_file answer log =
      let (store, e) = new_persistent_store made_dir opened_file answer log in
      let batch = kept new_batch e in
      let (entries, batch', store') = guard_value [] (replay answer) batch store in
      (
        record {
          batch = batch';
          root = apply_entries entries radix.empty;
          persist = some store';
          term = store'.last_term;
          log_index = store'.last_index;
          op_count = 0;
          op_total_nanos = 0;
        },
        batch'.err,
      )

  -- `NewTree` without a directory.
  unfoldable pub memory_tree : Tree
  unfolding new_batch
  memory_tree = record {
    batch = new_batch;
    root = radix.empty;
    persist = none;
    term = 0;
    log_index = 0;
    op_count = 0;
    op_total_nanos = 0;
  }

  -- A guarded call of the store, if the tree has one.
  unfoldable pub persisted : (Store → Option LogError × Store) → Tree → Tree
  unfolding guard_step
  persisted step tree = elim tree.persist [
    | none ↦ tree
    | some store ↦
        let (batch, store') = guard_step step tree.batch store in
        record tree { batch = batch; persist = some store' }
  ]

  unfoldable pub insert : Answer → ℕ → Bytes → Bytes → Tree → Tree × Bool
  unfolding log_insert persisted end_op
  insert answer nanos key value tree =
      let track = begin_op tree in
      let new_root = radix.insert key value tree.root in
      if radix.same new_root tree.root
      then (end_op track nanos tree, false)
      else (let index = (tree.log_index + 1) % 2 ^ 64 in
          let published = record tree { root = new_root; log_index = index } in
          (
            end_op track nanos (persisted (log_insert answer key value tree.term index) published),
            true,
          ))

  unfoldable pub get : ℕ → Bytes → Tree → Option Bytes × Tree
  unfolding end_op
  get nanos key tree = (radix.get key tree.root, end_op (begin_op tree) nanos tree)

  -- The first of these pairs whose key is not below `key`.
  unfoldable pub first_from : Bytes → List (Bytes × Bytes) → Option Bytes
  first_from key [] = none
  first_from key ((k, value) ∷ pairs) =
      if not (bytes_lt k key) then some value else first_from key pairs

  unfoldable pub seek : ℕ → Bytes → Tree → Option Bytes × Tree
  unfolding first_from end_op
  seek nanos key tree =
      (first_from key (radix.prefixed key tree.root), end_op (begin_op tree) nanos tree)

  -- The pairs that `fn` is called on: up to the first that it answers false on.
  unfoldable pub visited : (Bytes → Bytes → Bool) → List (Bytes × Bytes) → List (Bytes × Bytes)
  visited fn [] = []
  visited fn ((key, value) ∷ pairs) =
      if fn key value then (key, value) ∷ visited fn pairs else (key, value) ∷ []

  unfoldable pub walk_prefix :
      ℕ → Bytes → (Bytes → Bytes → Bool) → Tree → List (Bytes × Bytes) × Tree
  unfolding visited end_op
  walk_prefix nanos prefix fn tree =
      (visited fn (radix.prefixed prefix tree.root), end_op (begin_op tree) nanos tree)

  unfoldable pub update_term : Answer → ℕ → Tree → Tree
  unfolding log_term persisted
  update_term answer term tree = persisted (log_term answer term) (record tree { term = term })

  abbrev pub get_log_state : Tree → ℕ × ℕ
  get_log_state tree = (tree.term, tree.log_index)

  unfoldable pub close_tree : WriteAnswer → Bool → Tree → Option LogError × Tree
  unfolding close persisted
  close_tree answer done tree =
      let tree' = persisted (close answer done) tree in (tree'.batch.err, tree')
