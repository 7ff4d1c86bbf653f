-- ===== src/Dmt/Merkle/Build.antt =====
-- `Rebuild` and the level by level construction of the tree over the sorted leaves.
pub mod Levels
pub mod Links
use datura.Prelude.{
  ℕ, zero, suc, Bool, true, false, Option, none, some, List, [], ◌∷◌, ◌++◌, length, drop,
  if◌then◌else◌,
}
use datura.Prelude.Bytes.{Bytes}
use datura.Dmt.Merkle.Nodes.{
  MerkleNode, pair, single, address_of, Parents, MerkleSnapshot, MerkleTree, hash_pair, hash_single,
}

module _ (sha256 : Bytes → Bytes) where
  -- The loop of one level: it appends the level's parents to the scratch buffer, and enters each
  -- child in the map. `next` is the address of the next node.
  unfoldable pub build_pairs :
      List MerkleNode → List MerkleNode → Parents → ℕ → List MerkleNode × Parents × ℕ
  build_pairs [] scratch parent next = (scratch, parent, next)
  build_pairs (left ∷ []) scratch parent next =
      let node = single next left (hash_single sha256 left) in
      (scratch ++ (node ∷ []), (address_of left, node) ∷ parent, suc next)
  build_pairs (left ∷ right ∷ nodes) scratch parent next =
      let node = pair next left right (hash_pair sha256 left right) in
      build_pairs nodes (scratch ++ (node ∷ []))
        ((address_of right, node) ∷ (address_of left, node) ∷ parent) (suc next)

  -- `buildLevelZeroAlloc`. A level of two or more nodes is longer than the one above it, so the
  -- number of nodes is fuel enough (`Levels`); without fuel the root is missing.
  unfoldable pub build_level :
      ℕ → List MerkleNode → List MerkleNode → Parents → ℕ → Option MerkleNode × Parents × ℕ
  build_level zero nodes scratch parent next = (none, parent, next)
  build_level (suc fuel) [] scratch parent next = (none, parent, next)
  build_level (suc fuel) (node ∷ []) scratch parent next = (some node, parent, next)
  build_level (suc fuel) (left ∷ right ∷ nodes) scratch parent next =
      let (scratch', parent', next') = build_pairs (left ∷ right ∷ nodes) scratch parent next in
      build_level fuel (drop (length scratch) scratch') scratch' parent' next'

  unfoldable pub rebuild : MerkleTree → MerkleTree
  unfolding build_level build_pairs
  rebuild t =
      let s = t.snapshot in
      let (root, parent, next) = build_level (length s.leaves) s.leaves [] [] t.next in
      if s.modified
      then record t {
        snapshot = record { root = root; leaves = s.leaves; parent = parent; modified = false };
        next = next;
      }
      else t
