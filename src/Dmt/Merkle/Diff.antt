-- ===== src/Dmt/Merkle/Diff.antt =====
-- `GetDiff`: the keys of one tree that another lacks or holds with a different value.
pub mod Full
use datura.Prelude.{
  ℕ, suc, Bool, true, false, Option, none, some, List, [], ◌∷◌, ◌++◌, if◌then◌else◌, Ordering,
}
use datura.Prelude.Bytes.{Bytes, bytes_equal, bytes_compare}
use datura.Dmt.Merkle.Nodes.{
  MerkleNode, leaf, pair, single, hash_of, key_of, value_of, MerkleSnapshot, MerkleTree,
  lookup_leaf,
}

pub record DiffEntry : Type 0 where
  pub key : Bytes
  pub value : Bytes
  pub modified : Bool

abbrev pub entry : MerkleNode → Bool → DiffEntry
entry node modified = record { key = key_of node; value = value_of node; modified = modified }

-- `leftNode.Key != nil`: `Insert` copies an empty key to nil.
abbrev pub has_key : MerkleNode → Bool
has_key (leaf a [] v h) = false
has_key (leaf a (b ∷ k) v h) = true
has_key (pair a l r h) = false
has_key (single a l h) = false

-- What `diffNode` appends for a leaf of the left tree.
unfoldable pub diff_leaf : MerkleNode → MerkleSnapshot → List DiffEntry
unfolding lookup_leaf
diff_leaf node other = elim (lookup_leaf other (key_of node)) [
  | none ↦ entry node false ∷ []
  | some theirs ↦ if bytes_equal (value_of node) (value_of theirs) then [] else entry node true ∷ []
]

-- `diffNode`, with what it appends as its value. The two trees are descended together, and a side
-- that has no counterpart is passed over.
unfoldable pub diff_node : MerkleNode → MerkleNode → MerkleSnapshot → List DiffEntry
unfolding diff_leaf
diff_node (leaf a k v h) right other =
    if bytes_equal h (hash_of right)
    then []
    else (if has_key (leaf a k v h) then diff_leaf (leaf a k v h) other else [])
diff_node (pair a l r h) (pair a' l' r' h') other =
    let down = diff_node l l' other ++ diff_node r r' other in if bytes_equal h h' then [] else down
diff_node (pair a l r h) (single a' l' h') other =
    let down = diff_node l l' other in if bytes_equal h h' then [] else down
diff_node (pair a l r h) (leaf a' k v h') other = []
diff_node (single a l h) (pair a' l' r' h') other =
    let down = diff_node l l' other in if bytes_equal h h' then [] else down
diff_node (single a l h) (single a' l' h') other =
    let down = diff_node l l' other in if bytes_equal h h' then [] else down
diff_node (single a l h) (leaf a' k v h') other = []

-- `fullDiff`: one pass over both sorted leaf slices.
unfoldable pub full_diff : List MerkleNode → List MerkleNode → List DiffEntry
full_diff [] rs = []
full_diff (l ∷ ls) [] = entry l false ∷ full_diff ls []
full_diff (l ∷ ls) (r ∷ rs) =
    let both = full_diff ls rs in
    let only_left = full_diff ls (r ∷ rs) in
    let only_right = full_diff (l ∷ ls) rs in
    elim (bytes_compare (key_of l) (key_of r)) [
      | Ordering.eq ↦ if bytes_equal (value_of l) (value_of r) then both else entry l true ∷ both
      | Ordering.lt ↦ entry l false ∷ only_left
      | Ordering.gt ↦ only_right
    ]

unfoldable pub get_diff : MerkleTree → MerkleTree → List DiffEntry
unfolding diff_node full_diff
get_diff t other =
    let left = t.snapshot in
    let right = other.snapshot in
    elim left.root [
      | none ↦ full_diff left.leaves right.leaves
      | some l ↦ elim right.root [
        | none ↦ full_diff left.leaves right.leaves
        | some r ↦ diff_node l r right
      ]
    ]
