-- ===== src/Dmt/Merkle/Tests.antt =====
-- Runs of the hash tree, and the theorems at concrete inputs. The digest of these runs is not
-- SHA-256, but 32 bytes that depend on the whole input.
use datura.Prelude.{
  ℕ, ◌+◌, ◌*◌, ◌%◌, ◌≡◌, refl, true, false, List, [], ◌∷◌, ◌++◌, length, replicate, inr, All,
}
use datura.Prelude.Bytes.{Bytes, bytes_compare, bytes_equal}
use datura.Dmt.SortedSlice.{lower_bound}
use datura.Dmt.Merkle.Nodes.{
  MerkleNode, MerkleTree, new_merkle_tree, insert, verify, lookup_leaf, hash_of, hash_pair,
  hash_single, leaf,
}
use datura.Dmt.Merkle.Build.{rebuild}
use datura.Dmt.Merkle.Build.Levels.{parent_at}
use datura.Dmt.Merkle.Diff.{get_diff, full_diff}
use datura.Dmt.Merkle.Diff.Full.{diff_by_lookup, full_diff_lem}
use datura.Dmt.Merkle.Proof.{found, get_proof, verify_proof}
use datura.Dmt.Merkle.Tree.{IsValid}
use datura.Dmt.Merkle.Tree.Rebuilding.{
  TreeOp, inserting, run_tree, run_stored, tree_refines, rebuild_lem,
}
use datura.Dmt.Merkle.Tree.Proofs.{get_proof_total, proof_verifies}
use datura.Dmt.Merkle.Tree.Diffs.{Differs}
use datura.Dmt.Merkle.Tree.Reported.{get_diff_sound, get_diff_complete, Listed}
use datura.Dmt.Merkle.Tree.Gaps.{odd_leaf_proof, diff_misses, verify_proof_unstored}

abbrev mix : Bytes → ℕ
mix [] = 7
mix (b ∷ bs) = (mix bs * 31 + b + 1) % 65521

abbrev digest : Bytes → Bytes
digest bs = mix bs ∷ replicate 31 0

digest_length : (b : Bytes) → length (digest b) ≡ 32
digest_length b = refl

abbrev key_a : Bytes
key_a = b'a' ∷ []

abbrev key_b : Bytes
key_b = b'b' ∷ []

abbrev key_c : Bytes
key_c = b'c' ∷ []

abbrev two_ops : List TreeOp
two_ops = inserting key_b (2 ∷ []) ∷ inserting key_a (1 ∷ []) ∷ []

abbrev three_ops : List TreeOp
three_ops = inserting key_c (3 ∷ []) ∷ two_ops

abbrev two : MerkleTree
two = run_tree digest two_ops new_merkle_tree

abbrev three : MerkleTree
three = run_tree digest three_ops new_merkle_tree

-- The proof for the last of three leaves is refused.
odd_proof_refused :
    let t = rebuild digest three in
    elim (get_proof t key_c).0 [ found es ↦ verify_proof digest t key_c (3 ∷ []) es | _ ↦ true ]
    ≡ false
unfolding run_tree insert new_merkle_tree rebuild get_proof verify_proof lower_bound bytes_compare
    parent_at hash_pair hash_single
odd_proof_refused = refl

two-IsValid : IsValid digest two
two-IsValid = (tree_refines digest two_ops [] []).1

three-IsValid : IsValid digest three
three-IsValid = (tree_refines digest three_ops [] []).1

tree_refines_example : (verify three key_b (2 ∷ []) ≡ true) × IsValid digest three
unfolding run_stored bytes_compare
tree_refines_example = tree_refines digest three_ops key_b (2 ∷ [])

two-stored : verify two key_b (2 ∷ []) ≡ true
unfolding run_stored bytes_compare
two-stored = (tree_refines digest two_ops key_b (2 ∷ [])).0

three-stored : verify three key_c (3 ∷ []) ≡ true
unfolding run_stored bytes_compare
three-stored = (tree_refines digest three_ops key_c (3 ∷ [])).0

get_proof_total_example :
    (entries : List Bytes) × (get_proof (rebuild digest three) key_c
      ≡ (found entries, rebuild digest three))
get_proof_total_example =
    get_proof_total digest digest_length three key_c (3 ∷ []) three-IsValid three-stored

proof_verifies_example :
    verify_proof digest (rebuild digest two) key_b (2 ∷ []) ((1 ∷ digest (b'a' ∷ 1 ∷ [])) ∷ [])
    ≡ true
proof_verifies_example =
    proof_verifies digest digest_length two key_b (2 ∷ []) ((1 ∷ digest (b'a' ∷ 1 ∷ [])) ∷ []) 1
      two-IsValid two-stored
      (unfold run_tree insert new_merkle_tree lower_bound bytes_compare in refl)
      (unfold run_tree insert new_merkle_tree rebuild get_proof lower_bound bytes_compare
          parent_at in
        refl)

-- The second tree has another value under "b", and no "c".
abbrev changed : MerkleTree
changed = run_tree digest (inserting key_b (5 ∷ []) ∷ inserting key_a (1 ∷ []) ∷ []) new_merkle_tree

changed-IsValid : IsValid digest changed
changed-IsValid =
    (tree_refines digest (inserting key_b (5 ∷ []) ∷ inserting key_a (1 ∷ []) ∷ []) [] []).1

get_diff_sound_example :
    All
      (Differs (rebuild digest two) (rebuild digest changed))
      (get_diff (rebuild digest two) (rebuild digest changed))
get_diff_sound_example =
    let (valid, _, current) = rebuild_lem digest two two-IsValid in
    get_diff_sound digest (rebuild digest two) (rebuild digest changed) valid current
      (rebuild_lem digest changed changed-IsValid).0.sorted

diff_two-changed :
    get_diff (rebuild digest two) (rebuild digest changed)
    ≡ record { key = key_b; value = 2 ∷ []; modified = true } ∷ []
unfolding run_tree insert new_merkle_tree rebuild get_diff lower_bound bytes_compare hash_pair
    hash_single
diff_two-changed = refl

-- Against a new tree, as `Sync` calls it.
get_diff_complete_example : Listed key_b (2 ∷ []) (get_diff two new_merkle_tree)
unfolding new_merkle_tree verify lookup_leaf
get_diff_complete_example =
    get_diff_complete two new_merkle_tree key_b (2 ∷ []) two-IsValid.sorted tt (inr refl) two-stored
      refl

full_diff_lem_example :
    full_diff two.snapshot.leaves changed.snapshot.leaves
    ≡ diff_by_lookup two.snapshot.leaves changed.snapshot.leaves
full_diff_lem_example =
    full_diff_lem two.snapshot.leaves changed.snapshot.leaves two-IsValid.sorted
      changed-IsValid.sorted

abbrev leaf_at : ℕ → Bytes → Bytes → MerkleNode
leaf_at address key value = leaf address key value (digest (key ++ value))

odd_leaf_proof_example :
    let p = digest (hash_of (leaf_at 2 key_a (1 ∷ [])) ++ hash_of (leaf_at 1 key_b (2 ∷ []))) in
    let h = hash_of (leaf_at 0 key_c (3 ∷ [])) in
    let t = rebuild digest three in
    (get_proof t key_c ≡ (found ((0x01 ∷ p) ∷ []), t))
    × (verify_proof digest t key_c (3 ∷ []) ((0x01 ∷ p) ∷ [])
        ≡ bytes_equal (digest (p ++ h)) (digest (p ++ digest h)))
odd_leaf_proof_example =
    odd_leaf_proof digest three (leaf_at 2 key_a (1 ∷ [])) (leaf_at 1 key_b (2 ∷ []))
      (leaf_at 0 key_c (3 ∷ [])) digest_length three-IsValid
      (unfold run_tree insert new_merkle_tree in refl)
      (unfold run_tree insert new_merkle_tree lower_bound bytes_compare in refl)

diff_misses_example : get_diff (rebuild digest three) (rebuild digest two) ≡ []
diff_misses_example =
    let (valid, _, current) = rebuild_lem digest three three-IsValid in
    let (valid', _, current') = rebuild_lem digest two two-IsValid in
    diff_misses digest (rebuild digest three) (rebuild digest two) (leaf_at 2 key_a (1 ∷ []))
      (leaf_at 1 key_b (2 ∷ [])) (leaf_at 0 key_c (3 ∷ [])) key_a (1 ∷ []) (digest (b'a' ∷ 1 ∷ []))
      key_b (2 ∷ []) (digest (b'b' ∷ 2 ∷ [])) 1 0 (valid.built current) (valid'.built current')
      (unfold run_tree insert new_merkle_tree rebuild lower_bound bytes_compare in refl)
      (unfold run_tree insert new_merkle_tree rebuild lower_bound bytes_compare in refl)

-- The pair that was stored, (b, 2), and the pair (b2, nothing).
verify_proof_unstored_example :
    (verify (rebuild digest two) (b'b' ∷ 2 ∷ []) [] ≡ false)
    × (verify_proof digest
          (rebuild digest two)
          (b'b' ∷ 2 ∷ [])
          []
          ((1 ∷ digest (b'a' ∷ 1 ∷ [])) ∷ [])
        ≡ true)
verify_proof_unstored_example =
    verify_proof_unstored digest digest_length two key_b (2 ∷ []) []
      ((1 ∷ digest (b'a' ∷ 1 ∷ [])) ∷ []) 1 two-IsValid two-stored
      (unfold run_tree insert new_merkle_tree verify lower_bound bytes_compare in refl)
      (unfold run_tree insert new_merkle_tree lower_bound bytes_compare in refl)
      (unfold run_tree insert new_merkle_tree rebuild get_proof lower_bound bytes_compare
          parent_at in
        refl)
