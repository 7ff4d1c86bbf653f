-- ===== src/Dmt/Merkle/Tree/Reported.antt =====
-- `GetDiff` reports real differences only, and all of them against a tree without a root.
use datura.Prelude.{
  ℕ, ◌≡◌, refl, ◌∙◌, true, false, none, some, List, [], ◌∷◌, ◌++◌, arith, length, All, inl, inr,
  ◌⊎◌, Option-cases, Bool-cases,
}
use datura.Prelude.Bytes.{Bytes, bytes_equal, bytes_equal→eq}
use datura.Dmt.SortedSlice.{find_key}
use datura.Dmt.Merkle.Nodes.{MerkleNode, leaf, pair, single, key_of, value_of, MerkleTree, verify}
use datura.Dmt.Merkle.Nodes.Laws.{Sorted, lookup_leaf_lem}
use datura.Dmt.Merkle.Build.Links.{In, In-All}
use datura.Dmt.Merkle.Diff.{DiffEntry, full_diff, diff_node, get_diff}
use datura.Dmt.Merkle.Diff.Full.{difference, diff_by_lookup, full_diff_lem}
use datura.Dmt.Merkle.Tree.{Made, IsValid}
use datura.Dmt.Merkle.Tree.Proofs.{verify-leaf, find_key-In}
use datura.Dmt.Merkle.Tree.Diffs.{
  leaves_of, Under, root-Under, Differs, Ours, diff_node-Differs, by_lookup-Differs, leaf-Ours,
  All-In,
}

get_diff-left_rootless :
    (t other : MerkleTree)
    → t.snapshot.root ≡ none
    → get_diff t other ≡ full_diff t.snapshot.leaves other.snapshot.leaves
unfolding get_diff
get_diff-left_rootless t other h = rw (h, get_diff)

get_diff-right_rootless :
    (t other : MerkleTree)
    → other.snapshot.root ≡ none
    → get_diff t other ≡ full_diff t.snapshot.leaves other.snapshot.leaves
unfolding get_diff
get_diff-right_rootless t other h = elim (Option-cases t.snapshot.root) [
  | inl e ↦ rw (e, get_diff)
  | inr (x, e) ↦ rw (e, get_diff) (rw h refl)
]

get_diff-rooted :
    (t other : MerkleTree) (left right : MerkleNode)
    → t.snapshot.root ≡ some left
    → other.snapshot.root ≡ some right
    → get_diff t other ≡ diff_node left right other.snapshot
unfolding get_diff
get_diff-rooted t other left right h k = ground arith

module _ (sha256 : Bytes → Bytes) where
  Made-Under :
      (P : MerkleNode → Type 0) (n : ℕ) (x : MerkleNode) → Made sha256 n x → P x → Under P x
  unfolding leaves_of
  Made-Under P n (leaf a k v h) m p = (p, tt)
  Made-Under P n (pair a l r h) m p = absurd m
  Made-Under P n (single a l h) m p = absurd m

  full_diff-Differs :
      (t other : MerkleTree)
      → IsValid sha256 t
      → Sorted other.snapshot
      → All (Differs t other) (full_diff t.snapshot.leaves other.snapshot.leaves)
  full_diff-Differs t other v s =
      rw (full_diff_lem t.snapshot.leaves other.snapshot.leaves v.sorted s) (
        by_lookup-Differs t other t.snapshot.leaves s
          (All-In (Ours t t) t.snapshot.leaves (λ x i. leaf-Ours t x v.sorted i)))

  -- For a valid tree with no change pending and any other tree with sorted leaves, every entry of
  -- `GetDiff` is a key and value that `Verify` accepts of this tree and not of the other, marked
  -- modified exactly if the other tree holds the key.
  pub get_diff_sound :
      (t other : MerkleTree)
      → IsValid sha256 t
      → t.snapshot.modified ≡ false
      → Sorted other.snapshot
      → All (Differs t other) (get_diff t other)
  get_diff_sound t other v current s = elim (Option-cases t.snapshot.root) [
    | inl e ↦ rw (get_diff-left_rootless t other e) (full_diff-Differs t other v s)
    | inr (left, e) ↦ elim (Option-cases other.snapshot.root) [
      | inl e' ↦ rw (get_diff-right_rootless t other e') (full_diff-Differs t other v s)
      | inr (right, e') ↦
          let b = v.built current in
          rw (get_diff-rooted t other left right e e') (
            diff_node-Differs t other left right (
              root-Under (Ours t t) sha256 (length t.snapshot.leaves) t.snapshot.leaves [] b.base
                (All-In (Under (Ours t t)) t.snapshot.leaves (λ x i.
                  Made-Under (Ours t t) t.next x
                    (In-All (Made sha256 t.next) x t.snapshot.leaves i v.made)
                    (leaf-Ours t x v.sorted i)))
                (b.rooted ∙ e)))
    ]
  ]

-- Some entry has the key and the value.
abbrev pub Listed : Bytes → Bytes → List DiffEntry → Type 0
Listed k v [] = ⊥
Listed k v (e ∷ es) = ((e.key ≡ k) × (e.value ≡ v)) ⊎ Listed k v es

Listed-append_right : (k v : Bytes) (xs ys : List DiffEntry) → Listed k v ys → Listed k v (xs ++ ys)
Listed-append_right k v [] ys h = h
Listed-append_right k v (x ∷ xs) ys h = inr (Listed-append_right k v xs ys h)

difference-Listed :
    (x : MerkleNode) (other : MerkleTree) (k : Bytes) (es : List DiffEntry)
    → key_of x ≡ k
    → Sorted other.snapshot
    → verify other k (value_of x) ≡ false
    → Listed k (value_of x) (difference x (find_key key_of k other.snapshot.leaves) ++ es)
unfolding verify
difference-Listed x other k es p s h =
    elim (Option-cases (find_key key_of k other.snapshot.leaves)) [
      | inl e ↦ rw e (inl (p, refl))
      | inr (r, e) ↦ elim (Bool-cases (bytes_equal (value_of x) (value_of r))) [
        | inl q ↦ absurd (
            ground (
              arith,
              e,
              q,
              lookup_leaf_lem other.snapshot k s,
              bytes_equal→eq (value_of x) (value_of r) q,
            ))
        | inr q ↦ rw e (rw q (inl (p, refl)))
      ]
    ]

by_lookup-Listed :
    (k : Bytes) (x : MerkleNode) (ls : List MerkleNode) (other : MerkleTree)
    → In x ls
    → key_of x ≡ k
    → Sorted other.snapshot
    → verify other k (value_of x) ≡ false
    → Listed k (value_of x) (diff_by_lookup ls other.snapshot.leaves)
unfolding diff_by_lookup
by_lookup-Listed k x [] other i p s h = absurd i
by_lookup-Listed k x (l ∷ ls) other (inl e) p s h =
    rw (← e, p) (difference-Listed x other k _ p s h)
by_lookup-Listed k x (l ∷ ls) other (inr i) p s h =
    Listed-append_right k (value_of x) (difference l _) _ (by_lookup-Listed k x ls other i p s h)

rootless_diff :
    (t other : MerkleTree)
    → (t.snapshot.root ≡ none) ⊎ (other.snapshot.root ≡ none)
    → get_diff t other ≡ full_diff t.snapshot.leaves other.snapshot.leaves
rootless_diff t other (inl h) = get_diff-left_rootless t other h
rootless_diff t other (inr h) = get_diff-right_rootless t other h

-- Where one of the two trees has no root, as a new tree has none, `GetDiff` misses nothing: every
-- key and value that `Verify` accepts of this tree and not of the other has an entry.
pub get_diff_complete :
    (t other : MerkleTree) (k v : Bytes)
    → Sorted t.snapshot
    → Sorted other.snapshot
    → (t.snapshot.root ≡ none) ⊎ (other.snapshot.root ≡ none)
    → verify t k v ≡ true
    → verify other k v ≡ false
    → Listed k v (get_diff t other)
get_diff_complete t other k v s s' r ours theirs =
    let (x, e, value_eq) = verify-leaf t k v s ours in
    let (i, key_eq) = find_key-In k t.snapshot.leaves e in
    rw
      (
        rootless_diff t other r,
        full_diff_lem t.snapshot.leaves other.snapshot.leaves s s',
        ← value_eq,
      )
      (by_lookup-Listed k x t.snapshot.leaves other i key_eq s' (rw value_eq theirs))
