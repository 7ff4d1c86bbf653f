-- ===== src/Dmt/Merkle/Tree/Proofs.antt =====
-- `GetProof` on a rebuilt tree, and `VerifyProof` of what it returns.
use datura.Prelude.{
  ℕ, ◌^◌, ◌≡◌, refl, ap, ◌∙◌, sym, true, false, none, some, List, [], ◌∷◌, ◌++◌, arith, length, All,
  inl, inr, Option-cases, Bool-cases,
}
use datura.Prelude.Bytes.{Bytes, bytes_equal, bytes_equal→eq, bytes_equal_refl}
use datura.Dmt.SortedSlice.{find_key}
use datura.Dmt.Merkle.Nodes.{
  MerkleNode, leaf, pair, single, hash_of, key_of, value_of, MerkleTree, MerkleError, key_not_found,
  hash_kv, lookup_leaf, verify,
}
use datura.Dmt.Merkle.Nodes.Laws.{lookup_leaf_lem}
use datura.Dmt.Merkle.Build.{rebuild}
use datura.Dmt.Merkle.Build.Levels.{levels}
use datura.Dmt.Merkle.Build.Links.{In, In-All, Hashed}
use datura.Dmt.Merkle.Proof.{
  proof, climb, ProofResult, found, failed, get_proof, fold_proof, verify_proof,
}
use datura.Dmt.Merkle.Proof.Climb.{Reaches, climb_lem}
use datura.Dmt.Merkle.Tree.{Made, Built, IsValid}
use datura.Dmt.Merkle.Tree.Rebuilding.{rebuild_lem, verify-rebuild}

pub find_key-In :
    (key : Bytes) (xs : List MerkleNode) {x : MerkleNode}
    → find_key key_of key xs ≡ some x
    → In x xs × (key_of x ≡ key)
unfolding find_key
find_key-In key [] h = cc
find_key-In key (y ∷ ys) {x} h = elim (Bool-cases (bytes_equal (key_of y) key)) [
  | inl e ↦
      let same : y ≡ x = ground arith in
      (inl (sym same), rw (← same) (bytes_equal→eq (key_of y) key e))
  | inr e ↦ let (i, k) = find_key-In key ys {x = x} (rw e at h) in (inr i, k)
]

-- A key and value that `Verify` accepts are those of a leaf.
pub verify-leaf :
    (t : MerkleTree) (key value : Bytes)
    → datura.Dmt.Merkle.Nodes.Laws.Sorted t.snapshot
    → verify t key value ≡ true
    → (x : MerkleNode) × (find_key key_of key t.snapshot.leaves ≡ some x) × (value_of x ≡ value)
unfolding verify
verify-leaf t key value s h = elim (Option-cases (find_key key_of key t.snapshot.leaves)) [
  | inl e ↦ absurd (ground (arith, e, lookup_leaf_lem t.snapshot key s))
  | inr (x, e) ↦
      (x, e, ground (arith, e, lookup_leaf_lem t.snapshot key s, bytes_equal→eq (value_of x) value))
]

pub get_proof-found :
    (t : MerkleTree) (key : Bytes) (x : MerkleNode) (entries : List Bytes)
    → lookup_leaf t.snapshot key ≡ some x
    → climb (length t.snapshot.leaves) t.snapshot.root t.snapshot.parent x [] ≡ proof entries
    → get_proof t key ≡ (found entries, t)
unfolding get_proof
get_proof-found t key x entries e c = rw (e, get_proof) (rw c refl)

module _ (sha256 : Bytes → Bytes) where
  pub Made-hash :
      (n : ℕ) (x : MerkleNode)
      → Made sha256 n x
      → hash_of x ≡ hash_kv sha256 (key_of x) (value_of x)
  Made-hash n (leaf a k v h) (q, e) = e
  Made-hash n (pair a l r h) q = absurd q
  Made-hash n (single a l h) q = absurd q

module _ (sha256 : Bytes → Bytes) (digest_length : (b : Bytes) → length (sha256 b) ≡ 32) where
  Made-Hashed : (n : ℕ) (xs : List MerkleNode) → All (Made sha256 n) xs → Hashed xs
  unfolding hash_kv
  Made-Hashed n [] h = tt
  Made-Hashed n (x ∷ xs) h = (
    rw (Made-hash sha256 n x h.0) (omega (arith, digest_length (key_of x ++ value_of x))),
    Made-Hashed n xs h.1,
  )

  -- The climb over the leaves of a current tree.
  current-Reaches :
      (t : MerkleTree) (x : MerkleNode)
      → IsValid sha256 t
      → (b : Built sha256 t.snapshot) → In x t.snapshot.leaves
      → Reaches sha256 digest_length
          (length t.snapshot.leaves)
          (levels sha256 (length t.snapshot.leaves) t.snapshot.leaves [] b.base)
          x
          (length t.snapshot.leaves)
          []
  current-Reaches t x v b i =
      climb_lem sha256 digest_length (length t.snapshot.leaves) t.snapshot.leaves [] b.base x []
        v.distinct b.low (Made-Hashed t.next t.snapshot.leaves v.made) (omega arith) i

  verify_proof-true :
      (t : MerkleTree) (key value : Bytes) (root : MerkleNode) (entries : List Bytes)
      → t.snapshot.root ≡ some root
      → fold_proof sha256 (hash_kv sha256 key value) entries ≡ some (hash_of root)
      → verify_proof sha256 t key value entries ≡ true
  unfolding verify_proof
  verify_proof-true t key value root entries r f = ground (arith, bytes_equal_refl (hash_of root))

  -- The two halves of the headline, for a tree with no change pending.
  current_proof :
      (t : MerkleTree) (key value : Bytes)
      → IsValid sha256 t
      → t.snapshot.modified ≡ false
      → verify t key value ≡ true
      → (entries : List Bytes) × (get_proof t key ≡ (found entries, t))
        × ((k : ℕ)
            → length t.snapshot.leaves ≡ 2 ^ k
            → verify_proof sha256 t key value entries ≡ true)
  current_proof t key value v m h =
      let (x, e, value_eq) = verify-leaf t key value v.sorted h in
      let (i, key_eq) = find_key-In key t.snapshot.leaves e in
      let b = v.built m in
      let q = current-Reaches t x v b i in
      let hash_eq : hash_of x ≡ hash_kv sha256 key value =
        Made-hash sha256 t.next x (In-All (Made sha256 t.next) x t.snapshot.leaves i v.made)
        ∙ rw (key_eq, value_eq) refl in
      (
        q.entries,
        get_proof-found t key x q.entries (lookup_leaf_lem t.snapshot key v.sorted ∙ e)
            (rw (b.rooted, b.parented) at q.climbed),
        λ k p.
            verify_proof-true t key value q.root q.entries (sym b.rooted ∙ q.rooted)
              (ap (λ s. fold_proof sha256 s q.entries) (sym hash_eq) ∙ q.folded k p),
      )

  -- For every valid tree, as `Insert` and `Rebuild` make them, once rebuilt, `GetProof` of a stored
  -- key returns a proof and no error, whatever the number of leaves, and leaves the tree as it is.
  pub get_proof_total :
      (t : MerkleTree) (key value : Bytes)
      → IsValid sha256 t
      → verify t key value ≡ true
      → let t' = rebuild sha256 t in
        (entries : List Bytes) × (get_proof t' key ≡ (found entries, t'))
  get_proof_total t key value v h =
      let (v', leaves, current) = rebuild_lem sha256 t v in
      let (entries, got, good) =
        current_proof (rebuild sha256 t) key value v' current
          (verify-rebuild sha256 t key value v ∙ h) in
      (entries, got)

  found_inj :
      (entries more : List Bytes) (t : MerkleTree) (r : ProofResult × MerkleTree)
      → r ≡ (found entries, t)
      → r ≡ (found more, t)
      → more ≡ entries
  found_inj entries more t r p q = cc

  -- For every valid tree whose number of leaves is a power of two, once rebuilt, `VerifyProof`
  -- accepts a stored key and value with the proof that `GetProof` returns for the key.
  pub proof_verifies :
      (t : MerkleTree) (key value : Bytes) (entries : List Bytes) (k : ℕ)
      → IsValid sha256 t
      → verify t key value ≡ true
      → length t.snapshot.leaves ≡ 2 ^ k
      → get_proof (rebuild sha256 t) key ≡ (found entries, rebuild sha256 t)
      → verify_proof sha256 (rebuild sha256 t) key value entries ≡ true
  proof_verifies t key value entries k v h p g =
      let (v', leaves, current) = rebuild_lem sha256 t v in
      let (entries', got, good) =
        current_proof (rebuild sha256 t) key value v' current
          (verify-rebuild sha256 t key value v ∙ h) in
      let same = found_inj entries' entries (rebuild sha256 t) _ got g in
      rw same (good k (ap length leaves ∙ p))

-- `GetProof` of a key that no leaf has records the error in the tree's batch, if the batch has none
-- yet, and returns the error that the batch then holds, which is the first one.
pub get_proof_missing :
    (t : MerkleTree) (key : Bytes)
    → datura.Dmt.Merkle.Nodes.Laws.Sorted t.snapshot
    → find_key key_of key t.snapshot.leaves ≡ none
    → let t' = (get_proof t key).1 in
      ((get_proof t key).0 ≡ failed t'.state)
      × (t'.state ≡ elim t.state [ none ↦ some key_not_found | some e ↦ some e ])
      × (t'.snapshot ≡ t.snapshot)
unfolding get_proof
get_proof_missing t key s h = ground (arith, lookup_leaf_lem t.snapshot key s)
