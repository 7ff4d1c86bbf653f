-- ===== src/Dmt/Merkle/Nodes.antt =====
-- The nodes of the tree, its published snapshot, and the lookup and insertion of leaves.
pub mod Laws
use datura.Prelude.{ℕ, suc, ◌+◌, Bool, true, false, Option, none, some, List, [], ◌∷◌, ◌++◌, set}
use datura.Prelude.Bytes.{Bytes, bytes_equal}
use datura.Dmt.SortedSlice.{lower_bound, key_at, insert_at}

-- `MerkleNode`. The code makes three shapes of node: a leaf with its key and value, a node over two
-- children, and the node that closes a level of odd length, whose `Right` is nil. A *MerkleNode is
-- compared by address, so each node carries its own.
pub data MerkleNode : Type 0 where
  leaf : (address : ℕ) (key value hash : Bytes) → MerkleNode
  pair : (address : ℕ) (left right : MerkleNode) (hash : Bytes) → MerkleNode
  single : (address : ℕ) (left : MerkleNode) (hash : Bytes) → MerkleNode

abbrev pub address_of : MerkleNode → ℕ
address_of (leaf a k v h) = a
address_of (pair a l r h) = a
address_of (single a l h) = a

abbrev pub hash_of : MerkleNode → Bytes
hash_of (leaf a k v h) = h
hash_of (pair a l r h) = h
hash_of (single a l h) = h

-- `Key` and `Value` are nil in inner nodes; a nil slice reads as an empty one.
abbrev pub key_of : MerkleNode → Bytes
key_of (leaf a k v h) = k
key_of (pair a l r h) = []
key_of (single a l h) = []

abbrev pub value_of : MerkleNode → Bytes
value_of (leaf a k v h) = v
value_of (pair a l r h) = []
value_of (single a l h) = []

-- `map[*MerkleNode]*MerkleNode`, the last write first.
abbrev pub Parents : Type 0
Parents = List (ℕ × MerkleNode)

pub record MerkleSnapshot : Type 0 where
  pub root : Option MerkleNode
  pub leaves : List MerkleNode
  pub parent : Parents
  pub modified : Bool

unfoldable pub new_merkle_snapshot : MerkleSnapshot
new_merkle_snapshot = record { root = none; leaves = []; parent = []; modified = false }

-- The errors that `GetProof` records in the tree's batch.
pub data MerkleError : Type 0 where
  key_not_found invalid_tree_structure : MerkleError

-- `MerkleTree`: its batch keeps the first error. `next` is the address of the next allocated node.
pub record MerkleTree : Type 0 where
  pub state : Option MerkleError
  pub snapshot : MerkleSnapshot
  pub next : ℕ

unfoldable pub new_merkle_tree : MerkleTree
unfolding new_merkle_snapshot
new_merkle_tree = record { state = none; snapshot = new_merkle_snapshot; next = 0 }

unfoldable pub lookup_leaf : MerkleSnapshot → Bytes → Option MerkleNode
lookup_leaf s key = key_at key_of s.leaves (lower_bound key_of s.leaves key) key

-- The copy of the leaf slice with `node` at `index`: over the leaf with the same key, or before it.
unfoldable pub place_leaf : List MerkleNode → MerkleNode → ℕ → List MerkleNode
place_leaf leaves node index = elim (key_at key_of leaves index (key_of node)) [
  | some _ ↦ set leaves index node
  | none ↦ insert_at leaves index node
]

module _ (sha256 : Bytes → Bytes) where
  unfoldable pub hash_kv : Bytes → Bytes → Bytes
  hash_kv key value = sha256 (key ++ value)

  unfoldable pub hash_pair : MerkleNode → MerkleNode → Bytes
  hash_pair left right = sha256 (hash_of left ++ hash_of right)

  unfoldable pub hash_single : MerkleNode → Bytes
  hash_single left = sha256 (hash_of left)

  unfoldable pub new_leaf : ℕ → Bytes → Bytes → MerkleNode
  unfolding hash_kv
  new_leaf address key value = leaf address key value (hash_kv key value)

  unfoldable pub insert : MerkleTree → Bytes → Bytes → MerkleTree
  unfolding place_leaf new_leaf
  insert t key value =
      let node = new_leaf t.next key value in
      let leaves = t.snapshot.leaves in
      record t {
        snapshot = record {
          root = t.snapshot.root;
          leaves = place_leaf leaves node (lower_bound key_of leaves key);
          parent = t.snapshot.parent;
          modified = true;
        };
        next = suc t.next;
      }

-- `Verify`: the key is stored with this value.
unfoldable pub verify : MerkleTree → Bytes → Bytes → Bool
unfolding lookup_leaf
verify t key value = elim (lookup_leaf t.snapshot key) [
  | none ↦ false
  | some node ↦ bytes_equal (value_of node) value
]
