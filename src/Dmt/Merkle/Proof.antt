-- ===== src/Dmt/Merkle/Proof.antt =====
-- `GetProof` and `VerifyProof`: the sibling hashes on the way from a leaf to the root.
pub mod Climb
use datura.Prelude.{
  ℕ, zero, suc, Bool, true, false, Option, none, some, List, [], ◌∷◌, ◌++◌, length, ◌==◌,
  if◌then◌else◌,
}
use datura.Prelude.Bytes.{Bytes, bytes_equal}
use datura.Dmt.Merkle.Nodes.{
  MerkleNode, leaf, pair, single, address_of, hash_of, Parents, MerkleSnapshot, MerkleError,
  key_not_found, invalid_tree_structure, MerkleTree, lookup_leaf, hash_kv,
}
use datura.Dmt.Merkle.Build.Levels.{parent_at}

-- How the loop of `GetProof` ends. `panicked` is a nil dereference, at a parent that has no left
-- child; `stuck` is no outcome of the code: the fuel ran out.
pub data Climbed : Type 0 where
  proof : List Bytes → Climbed
  no_parent panicked stuck : Climbed

-- `current != snapshot.root`, of pointers.
abbrev pub is_root : Option MerkleNode → MerkleNode → Bool
is_root none current = false
is_root (some root) current = address_of root == address_of current

-- What one round appends to the proof for `current` under its parent: the other child's hash, behind
-- 0x00 for a right sibling and 0x01 for a left one; nothing if the right sibling is nil.
unfoldable pub sibling : MerkleNode → MerkleNode → Option (List Bytes)
sibling (leaf a k v h) current = none
sibling (pair a l r h) current =
    some ((if address_of l == address_of current then 0x00 ∷ hash_of r else 0x01 ∷ hash_of l) ∷ [])
sibling (single a l h) current =
    some (if address_of l == address_of current then [] else (0x01 ∷ hash_of l) ∷ [])

-- The loop of `GetProof`. Each level is shorter than the one below, so the number of leaves is fuel
-- enough (`Climb`).
unfoldable pub climb : ℕ → Option MerkleNode → Parents → MerkleNode → List Bytes → Climbed
unfolding sibling
climb zero root m current entries = stuck
climb (suc fuel) root m current entries =
    let up : Climbed = elim (parent_at (address_of current) m) [
      | none ↦ no_parent
      | some p ↦ elim (sibling p current) [
        | none ↦ panicked
        | some more ↦ climb fuel root m p (entries ++ more)
      ]
    ] in
    if is_root root current then proof entries else up

-- `guardStep` with a step that fails: the batch keeps the error it has.
abbrev pub record_error : MerkleTree → MerkleError → MerkleTree
record_error t e = elim t.state [ none ↦ record t { state = some e } | some _ ↦ t ]

-- What `GetProof` returns: the proof, or the batch's error.
pub data ProofResult : Type 0 where
  found : List Bytes → ProofResult
  failed : Option MerkleError → ProofResult
  fault : ProofResult

abbrev pub answer : MerkleTree → Climbed → ProofResult × MerkleTree
answer t (proof entries) = (found entries, t)
answer t no_parent = let t' = record_error t invalid_tree_structure in (failed t'.state, t')
answer t panicked = (fault, t)
answer t stuck = (fault, t)

unfoldable pub get_proof : MerkleTree → Bytes → ProofResult × MerkleTree
unfolding lookup_leaf climb
get_proof t key = elim (lookup_leaf t.snapshot key) [
  | none ↦ let t' = record_error t key_not_found in (failed t'.state, t')
  | some node ↦
      answer t (climb (length t.snapshot.leaves) t.snapshot.root t.snapshot.parent node [])
]

module _ (sha256 : Bytes → Bytes) where
  -- What the hasher has read when it sums: nothing, if the entry's first byte is neither 0 nor 1.
  abbrev pub hasher_input : ℕ → Bytes → Bytes → Bytes
  hasher_input position hash sibling_hash =
      if position == 0x00
      then hash ++ sibling_hash
      else (if position == 0x01 then sibling_hash ++ hash else [])

  -- The loop of `VerifyProof`; `none` for an entry of at most one byte.
  unfoldable pub fold_proof : Bytes → List Bytes → Option Bytes
  fold_proof hash [] = some hash
  fold_proof hash ([] ∷ entries) = none
  fold_proof hash ((position ∷ []) ∷ entries) = none
  fold_proof hash ((position ∷ b ∷ bs) ∷ entries) =
      fold_proof (sha256 (hasher_input position hash (b ∷ bs))) entries

  unfoldable pub verify_proof : MerkleTree → Bytes → Bytes → List Bytes → Bool
  unfolding fold_proof hash_kv
  verify_proof t key value entries = elim t.snapshot.root [
    | none ↦ false
    | some root ↦ elim (fold_proof (hash_kv sha256 key value) entries) [
      | none ↦ false
      | some hash ↦ bytes_equal hash (hash_of root)
    ]
  ]
