-- ===== src/Dmt/Tree/Lookup.antt =====
-- What a tree answers behind the entries of its log, for a radix tree that keeps the last value
-- of a key.
use datura.Prelude.{
  ℕ, ◌≡◌, ◌≢◌, refl, ap, ◌∙◌, Bool, true, false, Option, none, some, List, [], ◌∷◌, ◌==◌,
  if◌then◌else◌, All,
}
use mathlib.Core.Path.{subst}
use datura.Prelude.Bytes.{Bytes, bytes_equal, bytes_equal→eq, bytes_equal_refl}
use datura.Dmt.Log.Frame.{WalEntry, op_delete}
use datura.Dmt.Log.Records.{LogRecord, Fits, log_bytes, log_entries}
use datura.Dmt.Log.Store.Open.{opened}
use datura.Dmt.Tree.{Radix, apply_entries, new_tree, get}
use datura.Dmt.Tree.Restart.Opened.{new_tree_lem}

-- The documented behaviour of iradix.
pub record RadixLaws (radix : Radix) : Type 0 where
  pub get-empty : (key : Bytes) → radix.get key radix.empty ≡ none
  pub get-insert :
      (key value : Bytes) (root : radix.Root)
      → radix.get key (radix.insert key value root) ≡ some value
  pub get-insert_ne :
      (key key' value : Bytes) (root : radix.Root)
      → key ≢ key'
      → radix.get key (radix.insert key' value root) ≡ radix.get key root
  pub get-delete : (key : Bytes) (root : radix.Root) → radix.get key (radix.delete key root) ≡ none
  pub get-delete_ne :
      (key key' : Bytes) (root : radix.Root)
      → key ≢ key'
      → radix.get key (radix.delete key' root) ≡ radix.get key root

-- The value of a key behind these entries, if its value was `before`.
unfoldable pub latest : Bytes → Option Bytes → List WalEntry → Option Bytes
latest key before [] = before
latest key before (entry ∷ entries) =
    latest key
      (if bytes_equal key entry.key
        then (if entry.op == op_delete then none else some entry.value)
        else before)
      entries

module _ (radix : Radix) (laws : RadixLaws radix) where
  get-entry :
      (key : Bytes) (entry : WalEntry) (root : radix.Root)
      → radix.get key (
          if entry.op == op_delete
          then radix.delete entry.key root
          else radix.insert entry.key entry.value root)
        ≡ (if bytes_equal key entry.key
            then (if entry.op == op_delete then none else some entry.value)
            else radix.get key root)
  get-entry key entry root = by_tests (entry.op == op_delete) (bytes_equal key entry.key) refl
    where
      differs : bytes_equal key entry.key ≡ false → key ≢ entry.key
      differs h e =
          let equal : bytes_equal key entry.key ≡ true =
            subst (λ k. bytes_equal key k ≡ true) e (bytes_equal_refl key) in
          cc

      by_tests :
          (deletes equal : Bool)
          → bytes_equal key entry.key ≡ equal
          → radix.get key (
              if deletes
              then radix.delete entry.key root
              else radix.insert entry.key entry.value root)
            ≡ (if equal then (if deletes then none else some entry.value) else radix.get key root)
      by_tests true true h =
          ap (λ k. radix.get k (radix.delete entry.key root)) (bytes_equal→eq key entry.key h)
          ∙ laws.get-delete entry.key root
      by_tests false true h =
          ap (λ k. radix.get k (radix.insert entry.key entry.value root))
            (bytes_equal→eq key entry.key h)
          ∙ laws.get-insert entry.key entry.value root
      by_tests true false h = laws.get-delete_ne key entry.key root (differs h)
      by_tests false false h = laws.get-insert_ne key entry.key entry.value root (differs h)

  get-apply_entries :
      (key : Bytes) (entries : List WalEntry) (root : radix.Root)
      → radix.get key (apply_entries radix entries root) ≡ latest key (radix.get key root) entries
  unfolding apply_entries latest
  get-apply_entries key [] root = refl
  get-apply_entries key (entry ∷ entries) root =
      get-apply_entries key entries _ ∙ ap (λ v. latest key v entries) (get-entry key entry root)

  -- With a radix tree that keeps the last value of a key, a tree that `NewTree` makes from a log of
  -- whole records answers `Get`, for every key, with the value of the last insertion of that key in
  -- the log, and with none if a deletion is behind it or there is none. All fields fit.
  pub get-new_tree :
      (rs : List LogRecord) (nanos : ℕ) (key : Bytes)
      → All Fits rs
      → (get radix nanos key (new_tree radix true true opened (log_bytes rs)).0).0
        ≡ latest key none (log_entries rs)
  unfolding get
  get-new_tree rs nanos key a =
      ap (λ r. radix.get key r.0.root) (new_tree_lem radix rs a)
      ∙ get-apply_entries key (log_entries rs) radix.empty
      ∙ ap (λ v. latest key v (log_entries rs)) (laws.get-empty key)
