-- ===== src/Dmt/Merkle/Tree/Diffs.antt =====
-- What `GetDiff` reports, between any two trees and against a tree without a root.
use datura.Prelude.{
  ℕ, zero, suc, ◌+◌, ◌≡◌, refl, Bool, true, false, none, some, List, [], ◌∷◌, ◌++◌, arith,
  if◌then◌else◌, length, All, inl, inr, Option-cases, Bool-cases,
}
use datura.Prelude.Bytes.{
  Bytes, bytes_equal, bytes_equal_refl, bytes-Compared, below, same, above, Before,
  bytes_compare_refl,
}
use datura.Dmt.SortedSlice.{IsSorted, find_key}
use datura.Dmt.Merkle.Nodes.{
  MerkleNode, leaf, pair, single, hash_of, key_of, value_of, MerkleTree, lookup_leaf, verify,
  Parents,
}
use datura.Dmt.Merkle.Nodes.Laws.{Sorted, lookup_leaf_lem}
use datura.Dmt.Merkle.Build.Levels.{level, links, levels}
use datura.Dmt.Merkle.Build.Links.{In, In-All}
use datura.Dmt.Merkle.Diff.{DiffEntry, has_key, diff_leaf, diff_node}
use datura.Dmt.Merkle.Diff.Full.{difference, diff_by_lookup}

-- The leaves under a node, from left to right.
unfoldable pub leaves_of : MerkleNode → List MerkleNode
leaves_of (leaf a k v h) = leaf a k v h ∷ []
leaves_of (pair a l r h) = leaves_of l ++ leaves_of r
leaves_of (single a l h) = leaves_of l

All-append : {A : Type 0} (P : A → Type 0) (xs ys : List A) → All P xs → All P ys → All P (xs ++ ys)
All-append P [] ys hx hy = hy
All-append P (x ∷ xs) ys hx hy = (hx.0, All-append P xs ys hx.1 hy)

module _ (P : MerkleNode → Type 0) where
  abbrev pub Under : MerkleNode → Type 0
  Under x = All P (leaves_of x)

  level-Under :
      (sha256 : Bytes → Bytes) (ns : List MerkleNode) (n : ℕ)
      → All Under ns
      → All Under (level sha256 ns n)
  unfolding level leaves_of
  level-Under sha256 [] n h = tt
  level-Under sha256 (l ∷ []) n h = h
  level-Under sha256 (l ∷ r ∷ ns) n h =
      (All-append P (leaves_of l) (leaves_of r) h.0 h.1.0, level-Under sha256 ns (suc n) h.1.1)

  pub root-Under :
      (sha256 : Bytes → Bytes) (f : ℕ) (ns : List MerkleNode) (m : Parents) (n : ℕ)
      {root : MerkleNode}
      → All Under ns
      → (levels sha256 f ns m n).0 ≡ some root
      → Under root
  unfolding levels
  root-Under sha256 zero ns m n h e = cc
  root-Under sha256 (suc f) [] m n h e = cc
  root-Under sha256 (suc f) (x ∷ []) m n {root} h e =
      let same : x ≡ root = ground arith in rw (← same) h.0
  root-Under sha256 (suc f) (l ∷ r ∷ ns) m n h e =
      let here = l ∷ r ∷ ns in
      let up = level sha256 here n in
      root-Under sha256 f up (links sha256 here m n) (n + length up) (level-Under sha256 here n h) e

bytes_equal_sym : (a b : Bytes) → bytes_equal a b ≡ bytes_equal b a
bytes_equal_sym a b = elim (bytes-Compared a b) [
  | below e g ↦ ground arith
  | same p e ↦ rw p refl
  | above e g ↦ ground arith
]

pub find_key_of_In :
    (x : MerkleNode) (xs : List MerkleNode)
    → IsSorted key_of xs
    → In x xs
    → find_key key_of (key_of x) xs ≡ some x
unfolding find_key
find_key_of_In x [] s i = absurd i
find_key_of_In x (y ∷ ys) s (inl e) = rw e (ground (arith, bytes_compare_refl (key_of y)))
find_key_of_In x (y ∷ ys) s (inr i) =
    ground (arith, In-All (λ z. Before (key_of y) (key_of z)) x ys i s.0, find_key_of_In x ys s.1 i)

-- Some leaf has the key.
abbrev pub holds : MerkleTree → Bytes → Bool
holds t key = elim (lookup_leaf t.snapshot key) [ none ↦ false | some _ ↦ true ]

-- The entry is of a key and value of `t`, which `other` does not hold so; it is marked modified
-- exactly if `other` holds the key.
pub record Differs (t other : MerkleTree) (e : DiffEntry) : Type 0 where
  pub ours : verify t e.key e.value ≡ true
  pub not_theirs : verify other e.key e.value ≡ false
  pub marked : e.modified ≡ holds other e.key

module _ (t other : MerkleTree) where
  abbrev pub Ours : MerkleNode → Type 0
  Ours x = verify t (key_of x) (value_of x) ≡ true

  diff_leaf-Differs :
      (node : MerkleNode) → Ours node → All (Differs t other) (diff_leaf node other.snapshot)
  unfolding diff_leaf verify
  diff_leaf-Differs node h = elim (Option-cases (lookup_leaf other.snapshot (key_of node))) [
    | inl e ↦
        rw (e, diff_leaf)
          (record { ours = h; not_theirs = ground arith; marked = ground arith }, tt)
    | inr (x, e) ↦ elim (Bool-cases (bytes_equal (value_of node) (value_of x))) [
      | inl q ↦ rw (e, diff_leaf) (rw q tt)
      | inr q ↦
          rw (e, diff_leaf)
            (rw q (
              record {
                ours = h;
                not_theirs = ground (arith, bytes_equal_sym (value_of x) (value_of node));
                marked = ground arith;
              },
              tt,
            ))
    ]
  ]

  unless :
      (b : Bool) (es : List DiffEntry)
      → All (Differs t other) es
      → All (Differs t other) (if b then [] else es)
  unless true es h = tt
  unless false es h = h

  when :
      (b : Bool) (es : List DiffEntry)
      → All (Differs t other) es
      → All (Differs t other) (if b then es else [])
  when true es h = h
  when false es h = tt

  All-split-left : (xs ys : List MerkleNode) → All Ours (xs ++ ys) → All Ours xs
  All-split-left [] ys h = tt
  All-split-left (x ∷ xs) ys h = (h.0, All-split-left xs ys h.1)

  All-split-right : (xs ys : List MerkleNode) → All Ours (xs ++ ys) → All Ours ys
  All-split-right [] ys h = h
  All-split-right (x ∷ xs) ys h = All-split-right xs ys h.1

  pub diff_node-Differs :
      (left right : MerkleNode)
      → All Ours (leaves_of left)
      → All (Differs t other) (diff_node left right other.snapshot)
  unfolding diff_node leaves_of
  diff_node-Differs (leaf a k v h) right o =
      unless (bytes_equal h (hash_of right)) _
        (when (has_key (leaf a k v h)) _ (diff_leaf-Differs (leaf a k v h) o.0))
  diff_node-Differs (pair a l r h) (pair a' l' r' h') o = unless (bytes_equal h h') _ (
      All-append (Differs t other) _ _
        (diff_node-Differs l l' (All-split-left (leaves_of l) (leaves_of r) o))
        (diff_node-Differs r r' (All-split-right (leaves_of l) (leaves_of r) o)))
  diff_node-Differs (pair a l r h) (single a' l' h') o =
      unless (bytes_equal h h') _
        (diff_node-Differs l l' (All-split-left (leaves_of l) (leaves_of r) o))
  diff_node-Differs (pair a l r h) (leaf a' k v h') o = tt
  diff_node-Differs (single a l h) (pair a' l' r' h') o =
      unless (bytes_equal h h') _ (diff_node-Differs l l' o)
  diff_node-Differs (single a l h) (single a' l' h') o =
      unless (bytes_equal h h') _ (diff_node-Differs l l' o)
  diff_node-Differs (single a l h) (leaf a' k v h') o = tt

  difference-eq :
      (l : MerkleNode)
      → difference l (lookup_leaf other.snapshot (key_of l)) ≡ diff_leaf l other.snapshot
  unfolding diff_leaf
  difference-eq l = ground arith

  pub by_lookup-Differs :
      (ls : List MerkleNode)
      → Sorted other.snapshot
      → All Ours ls
      → All (Differs t other) (diff_by_lookup ls other.snapshot.leaves)
  unfolding diff_by_lookup
  by_lookup-Differs [] s h = tt
  by_lookup-Differs (l ∷ ls) s h =
      All-append (Differs t other) _ _
        (rw (← lookup_leaf_lem other.snapshot (key_of l) s, difference-eq l)
          (diff_leaf-Differs l h.0))
        (by_lookup-Differs ls s h.1)

pub leaf-Ours :
    (t : MerkleTree) (x : MerkleNode) → Sorted t.snapshot → In x t.snapshot.leaves → Ours t t x
unfolding verify
leaf-Ours t x s i = ground (
  arith,
  lookup_leaf_lem t.snapshot (key_of x) s,
  find_key_of_In x t.snapshot.leaves s i,
  bytes_equal_refl (value_of x),
)

pub All-In :
    (P : MerkleNode → Type 0) (ns : List MerkleNode) → ((x : MerkleNode) → In x ns → P x) → All P ns
All-In P [] f = tt
All-In P (x ∷ xs) f = (f x (inl refl), All-In P xs (λ y i. f y (inr i)))
