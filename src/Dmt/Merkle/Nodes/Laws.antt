-- ===== src/Dmt/Merkle/Nodes/Laws.antt =====
-- The leaf slice is a map from keys to leaves, sorted by key.
use datura.Prelude.{ℕ, ◌≡◌, ap, ◌∙◌, List, arith, if◌then◌else◌}
use datura.Prelude.Bytes.{Bytes, bytes_equal}
use datura.Dmt.SortedSlice.{IsSorted, find_key, put_key, lower_bound}
use datura.Dmt.SortedSlice.Laws.{rank, lower_bound-eq-rank, key_at-rank}
use datura.Dmt.SortedSlice.Update.{written-rank, find_key-put, put_key-IsSorted}
use datura.Dmt.Merkle.Nodes.{
  MerkleNode, MerkleSnapshot, MerkleTree, key_of, lookup_leaf, place_leaf, new_leaf, insert, verify,
}

abbrev pub Sorted : MerkleSnapshot → Type 0
Sorted s = IsSorted key_of s.leaves

lookup_at-rank :
    (leaves : List MerkleNode) (key : Bytes) {i : ℕ}
    → IsSorted key_of leaves
    → i ≡ rank key_of key leaves
    → datura.Dmt.SortedSlice.key_at key_of leaves i key ≡ find_key key_of key leaves
lookup_at-rank leaves key s e = rw e (key_at-rank key_of key leaves s)

pub lookup_leaf_lem :
    (s : MerkleSnapshot) (key : Bytes) → Sorted s → lookup_leaf s key ≡ find_key key_of key s.leaves
unfolding lookup_leaf
lookup_leaf_lem s key h = lookup_at-rank s.leaves key h (lower_bound-eq-rank key_of s.leaves key h)

place_leaf-rank :
    (leaves : List MerkleNode) (node : MerkleNode)
    → IsSorted key_of leaves
    → place_leaf leaves node (rank key_of (key_of node) leaves) ≡ put_key key_of node leaves
unfolding place_leaf
place_leaf-rank leaves node s = written-rank key_of node leaves s

module _ (sha256 : Bytes → Bytes) where
  pub leaves-insert :
      (t : MerkleTree) (key value : Bytes)
      → Sorted t.snapshot
      → (insert sha256 t key value).snapshot.leaves
        ≡ put_key key_of (new_leaf sha256 t.next key value) t.snapshot.leaves
  leaves-insert t key value s =
      let node = new_leaf sha256 t.next key value in
      unfold insert new_leaf in
      ap (place_leaf t.snapshot.leaves node) (lower_bound-eq-rank key_of t.snapshot.leaves key s)
      ∙ place_leaf-rank t.snapshot.leaves node s

  -- `Insert` keeps the leaves sorted by key, and after it `Verify` accepts exactly the inserted
  -- value under the inserted key, and answers under every other key as before.
  pub verify-insert :
      (t : MerkleTree) (key value k v : Bytes)
      → Sorted t.snapshot
      → (verify (insert sha256 t key value) k v
          ≡ (if bytes_equal key k then bytes_equal value v else verify t k v))
        × Sorted (insert sha256 t key value).snapshot
  verify-insert t key value k v s =
      let node = new_leaf sha256 t.next key value in
      let e = leaves-insert t key value s in
      let sorted : Sorted (insert sha256 t key value).snapshot =
        rw e (put_key-IsSorted key_of node t.snapshot.leaves s) in
      (
        unfold verify new_leaf in
            ground (
              arith,
              lookup_leaf_lem (insert sha256 t key value).snapshot k sorted,
              lookup_leaf_lem t.snapshot k s,
              ap (find_key key_of k) e,
              find_key-put key_of k node t.snapshot.leaves,
            ),
        sorted,
      )
