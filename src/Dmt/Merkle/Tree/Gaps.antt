-- ===== src/Dmt/Merkle/Tree/Gaps.antt =====
-- Where proofs and differences fall short: levels of odd length, trees of different shape, and keys
-- and values that are hashed without a boundary.
use datura.Prelude.{
  ℕ, suc, ◌+◌, ◌<◌, ◌≤◌, ◌≡◌, refl, ap, ◌∙◌, sym, true, false, ◌^◌, some, List, [], ◌∷◌, ◌++◌,
  arith, length, inl, inr, append_assoc,
}
use datura.Prelude.Bytes.{Bytes, bytes_equal}
use datura.Dmt.Merkle.Nodes.{
  MerkleNode, leaf, pair, single, address_of, hash_of, key_of, value_of, MerkleTree, hash_kv,
  hash_pair, hash_single, verify,
}
use datura.Dmt.Merkle.Nodes.Laws.{lookup_leaf_lem}
use datura.Dmt.Merkle.Build.{rebuild}
use datura.Dmt.Merkle.Build.Levels.{parent_at, Below, level, links, levels}
use datura.Dmt.Merkle.Diff.{diff_node, get_diff}
use datura.Dmt.Merkle.Proof.{proof, climb, sibling, found, get_proof, fold_proof, verify_proof}
use datura.Dmt.Merkle.Tree.{Built, IsValid, Made-Below}
use datura.Dmt.Merkle.Tree.Proofs.{get_proof-found, Made-hash, proof_verifies}
use datura.Dmt.Merkle.Tree.Diffs.{find_key_of_In}
use datura.Dmt.Merkle.Tree.Rebuilding.{rebuild_modified, published, verify-rebuild}

module _ (sha256 : Bytes → Bytes) where
  -- The tree over three leaves.
  abbrev pair_of : MerkleNode → MerkleNode → ℕ → MerkleNode
  pair_of x y n = pair n x y (hash_pair sha256 x y)

  abbrev three_root : MerkleNode → MerkleNode → MerkleNode → ℕ → MerkleNode
  three_root x y z n =
      let s = single (suc n) z (hash_single sha256 z) in
      pair (n + 2) (pair_of x y n) s (hash_pair sha256 (pair_of x y n) s)

  levels_three :
      (x y z : MerkleNode) (n : ℕ)
      → let s = single (suc n) z (hash_single sha256 z) in
        let root = three_root x y z n in (levels sha256 3 (x ∷ y ∷ z ∷ []) [] n).0 ≡ some root
  unfolding levels level
  levels_three x y z n = refl

  climb_three :
      (x y z : MerkleNode) (n : ℕ)
      → address_of x < n
      → address_of y < n
      → address_of z < n
      → climb 3 (some (three_root x y z n)) (levels sha256 3 (x ∷ y ∷ z ∷ []) [] n).1 z []
        ≡ proof ((0x01 ∷ sha256 (hash_of x ++ hash_of y)) ∷ [])
  unfolding levels level links climb sibling parent_at hash_pair hash_single
  climb_three x y z n hx hy hz = ground arith

  three_found :
      (t : MerkleTree) (x y z : MerkleNode)
      → IsValid sha256 t
      → t.snapshot.leaves ≡ x ∷ y ∷ z ∷ []
      → get_proof (published sha256 t) (key_of z)
        ≡ (found ((0x01 ∷ sha256 (hash_of x ++ hash_of y)) ∷ []), published sha256 t)
  unfolding levels climb level
  three_found t x y z v e =
      let low : Below t.next (x ∷ y ∷ z ∷ []) =
        rw e at (Made-Below sha256 t.next t.snapshot.leaves v.made) in
      get_proof-found (published sha256 t) (key_of z) z _
        (lookup_leaf_lem (published sha256 t).snapshot (key_of z) v.sorted
          ∙ find_key_of_In z t.snapshot.leaves v.sorted (rw e (inr (inr (inl refl)))))
        (ap
            (λ (leaves : List MerkleNode).
              let built = levels sha256 (length leaves) leaves [] t.next in
              climb (length leaves) built.0 built.1 z [])
            e
          ∙ climb_three x y z t.next low.0 low.1.0 low.1.1.0)

  three_verified :
      (t : MerkleTree) (x y z : MerkleNode) (k v p : Bytes)
      → t.snapshot.leaves ≡ x ∷ y ∷ z ∷ []
      → sha256 (hash_of x ++ hash_of y) ≡ p
      → 1 ≤ length p
      → verify_proof sha256 (published sha256 t) k v ((0x01 ∷ p) ∷ [])
        ≡ bytes_equal (sha256 (p ++ hash_kv sha256 k v)) (sha256 (p ++ sha256 (hash_of z)))
  unfolding verify_proof fold_proof
  three_verified t x y z k v [] e h n = absurd (omega arith)
  three_verified t x y z k v (b ∷ bs) e h n =
      rw e (rw (levels_three x y z t.next) (unfold hash_pair hash_single in rw h refl))

  -- For a valid tree of three leaves with a change pending, once rebuilt, `GetProof` of the last key
  -- returns the hash over the first two leaves alone; `VerifyProof` of that proof compares a hash
  -- over the last leaf's hash with one over the hash of that hash, and so accepts the stored value
  -- only if SHA-256 gives the same digest for the two.
  pub odd_leaf_proof :
      (t : MerkleTree) (x y z : MerkleNode)
      → ((b : Bytes) → length (sha256 b) ≡ 32)
      → IsValid sha256 t
      → t.snapshot.modified ≡ true
      → t.snapshot.leaves ≡ x ∷ y ∷ z ∷ []
      → let p = sha256 (hash_of x ++ hash_of y) in
        let t' = rebuild sha256 t in
        (get_proof t' (key_of z) ≡ (found ((0x01 ∷ p) ∷ []), t'))
        × (verify_proof sha256 t' (key_of z) (value_of z) ((0x01 ∷ p) ∷ [])
            ≡ bytes_equal (sha256 (p ++ hash_of z)) (sha256 (p ++ sha256 (hash_of z))))
  odd_leaf_proof t x y z digest_length v m e =
      let p = sha256 (hash_of x ++ hash_of y) in
      let made = rw e at v.made in
      rw (rebuild_modified sha256 t m) (
        three_found t x y z v e,
        three_verified t x y z (key_of z) (value_of z) p e refl
              (omega (arith, digest_length (hash_of x ++ hash_of y)))
            ∙ ap (λ h. bytes_equal (sha256 (p ++ h)) (sha256 (p ++ sha256 (hash_of z))))
                (sym (Made-hash sha256 t.next z made.1.1.0)),
      )

  Built-three :
      (t : MerkleTree) (x y z : MerkleNode)
      → Built sha256 t.snapshot
      → t.snapshot.leaves ≡ x ∷ y ∷ z ∷ []
      → (n : ℕ) × (t.snapshot.root ≡ some (three_root x y z n))
  Built-three t x y z b e = (b.base, sym b.rooted ∙ rw e (levels_three x y z b.base))

  Built-two :
      (t : MerkleTree) (x y : MerkleNode)
      → Built sha256 t.snapshot
      → t.snapshot.leaves ≡ x ∷ y ∷ []
      → (n : ℕ) × (t.snapshot.root ≡ some (pair_of x y n))
  unfolding levels level
  Built-two t x y b e = (b.base, sym b.rooted ∙ rw e refl)

  -- `GetDiff` of a rebuilt tree of three leaves against a rebuilt tree of two reports nothing, also
  -- where the keys and values differ.
  pub diff_misses :
      (t other : MerkleTree) (x y z : MerkleNode) (kx vx hx ky vy hy : Bytes) (ax ay : ℕ)
      → Built sha256 t.snapshot
      → Built sha256 other.snapshot
      → t.snapshot.leaves ≡ x ∷ y ∷ z ∷ []
      → other.snapshot.leaves ≡ leaf ax kx vx hx ∷ leaf ay ky vy hy ∷ []
      → get_diff t other ≡ []
  unfolding get_diff diff_node
  diff_misses t other x y z kx vx hx ky vy hy ax ay b b' e e' =
      let (n, root) = Built-three t x y z b e in
      let (n', root') = Built-two other (leaf ax kx vx hx) (leaf ay ky vy hy) b' e' in
      ground (arith, root, root')

  verify_proof_boundary :
      (t : MerkleTree) (k s v : Bytes) (entries : List Bytes)
      → verify_proof sha256 t (k ++ s) v entries ≡ verify_proof sha256 t k (s ++ v) entries
  unfolding verify_proof hash_kv
  verify_proof_boundary t k s v entries = ground (arith, append_assoc k s v)

module _ (sha256 : Bytes → Bytes) (digest_length : (b : Bytes) → length (sha256 b) ≡ 32) where
  -- A key and a value are hashed without a boundary between them. In a valid tree whose number of
  -- leaves is a power of two, once rebuilt, `VerifyProof` accepts with the proof of a stored key and
  -- value also the key and value with bytes moved from the front of the value to the end of the key,
  -- which `Verify` refuses where they are not stored.
  pub verify_proof_unstored :
      (t : MerkleTree) (k s v : Bytes) (entries : List Bytes) (n : ℕ)
      → IsValid sha256 t
      → verify t k (s ++ v) ≡ true
      → verify t (k ++ s) v ≡ false
      → length t.snapshot.leaves ≡ 2 ^ n
      → get_proof (rebuild sha256 t) k ≡ (found entries, rebuild sha256 t)
      → let t' = rebuild sha256 t in
        (verify t' (k ++ s) v ≡ false) × (verify_proof sha256 t' (k ++ s) v entries ≡ true)
  verify_proof_unstored t k s v entries n valid stored missing size got = (
    verify-rebuild sha256 t (k ++ s) v valid ∙ missing,
    verify_proof_boundary sha256 (rebuild sha256 t) k s v entries
        ∙ proof_verifies sha256 digest_length t k (s ++ v) entries n valid stored size got,
  )
