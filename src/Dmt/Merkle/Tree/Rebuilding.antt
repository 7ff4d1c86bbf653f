-- ===== src/Dmt/Merkle/Tree/Rebuilding.antt =====
-- `Rebuild` publishes the tree over the present leaves; sequences of `Insert` and `Rebuild`.
use datura.Prelude.{
  ◌≡◌, refl, ap, ◌∙◌, Bool, true, false, none, List, [], ◌∷◌, if◌then◌else◌, length, Bool-cases,
  inl, inr,
}
use datura.Prelude.Bytes.{Bytes, bytes_equal}
use datura.Dmt.Merkle.Nodes.{MerkleNode, MerkleTree, new_merkle_tree, insert, verify, lookup_leaf}
use datura.Dmt.Merkle.Nodes.Laws.{verify-insert}
use datura.Dmt.Merkle.Build.{rebuild}
use datura.Dmt.Merkle.Build.Levels.{levels, build_level_lem}
use datura.Dmt.Merkle.Tree.{
  IsValid, Made-Below, All-Made_mono, levels-next, new_merkle_tree-IsValid, insert-IsValid,
}

module _ (sha256 : Bytes → Bytes) where
  -- The tree that `Rebuild` publishes, in terms of its levels.
  abbrev pub published : MerkleTree → MerkleTree
  published t =
      let built = levels sha256 (length t.snapshot.leaves) t.snapshot.leaves [] t.next in
      record t {
        snapshot = record {
          root = built.0;
          leaves = t.snapshot.leaves;
          parent = built.1;
          modified = false;
        };
        next = built.2;
      }

  pub rebuild_modified :
      (t : MerkleTree) → t.snapshot.modified ≡ true → rebuild sha256 t ≡ published t
  unfolding rebuild
  rebuild_modified t h =
      rw (h, build_level_lem sha256 (length t.snapshot.leaves) t.snapshot.leaves [] [] t.next)

  pub rebuild_current : (t : MerkleTree) → t.snapshot.modified ≡ false → rebuild sha256 t ≡ t
  unfolding rebuild
  rebuild_current t h = rw h

  published-IsValid : (t : MerkleTree) → IsValid sha256 t → IsValid sha256 (published t)
  published-IsValid t v = record {
    sorted = v.sorted;
    made =
        All-Made_mono sha256 t.next _ t.snapshot.leaves
          (levels-next sha256 (length t.snapshot.leaves) t.snapshot.leaves [] t.next) v.made;
    distinct = v.distinct;
    built = λ _. record {
      base = t.next;
      low = Made-Below sha256 t.next t.snapshot.leaves v.made;
      rooted = refl;
      parented = refl;
    };
  }

  -- `Rebuild` keeps the invariant and the leaves, and leaves no change pending.
  pub rebuild_lem :
      (t : MerkleTree)
      → IsValid sha256 t
      → IsValid sha256 (rebuild sha256 t)
        × ((rebuild sha256 t).snapshot.leaves ≡ t.snapshot.leaves)
        × ((rebuild sha256 t).snapshot.modified ≡ false)
  rebuild_lem t v = elim (Bool-cases t.snapshot.modified) [
    | inl h ↦ rw (rebuild_modified t h) (published-IsValid t v, refl, refl)
    | inr h ↦ rw (rebuild_current t h) (v, refl, h)
  ]

  pub verify-rebuild :
      (t : MerkleTree) (k v : Bytes)
      → IsValid sha256 t
      → verify (rebuild sha256 t) k v ≡ verify t k v
  unfolding verify lookup_leaf
  verify-rebuild t k v valid =
      ap
        (λ (leaves : List MerkleNode).
          verify
            (record t {
              snapshot = record { root = none; leaves = leaves; parent = []; modified = false };
            })
            k v)
        (rebuild_lem t valid).1

pub data TreeOp : Type 0 where
  inserting : Bytes → Bytes → TreeOp
  rebuilding : TreeOp

module _ (sha256 : Bytes → Bytes) where
  unfoldable pub run_tree : List TreeOp → MerkleTree → MerkleTree
  run_tree [] t = t
  run_tree (inserting k v ∷ ops) t = run_tree ops (insert sha256 t k v)
  run_tree (rebuilding ∷ ops) t = run_tree ops (rebuild sha256 t)

-- What the same operations store, as a test of key and value.
unfoldable pub run_stored : List TreeOp → (Bytes → Bytes → Bool) → Bytes → Bytes → Bool
run_stored [] m = m
run_stored (inserting k v ∷ ops) m =
    run_stored ops (λ k' v'. if bytes_equal k k' then bytes_equal v v' else m k' v')
run_stored (rebuilding ∷ ops) m = run_stored ops m

module _ (sha256 : Bytes → Bytes) where
  run_from :
      (ops : List TreeOp) (t : MerkleTree) (m : Bytes → Bytes → Bool) (k v : Bytes)
      → IsValid sha256 t
      → ((k' v' : Bytes) → verify t k' v' ≡ m k' v')
      → (verify (run_tree sha256 ops t) k v ≡ run_stored ops m k v)
        × IsValid sha256 (run_tree sha256 ops t)
  unfolding run_tree run_stored
  run_from [] t m k v valid e = (e k v, valid)
  run_from (inserting key value ∷ ops) t m k v valid e =
      run_from ops (insert sha256 t key value) _ k v (insert-IsValid sha256 t key value valid)
        (λ k' v'.
          (verify-insert sha256 t key value k' v' valid.sorted).0
          ∙ ap (λ b. if bytes_equal key k' then bytes_equal value v' else b) (e k' v'))
  run_from (rebuilding ∷ ops) t m k v valid e =
      run_from ops (rebuild sha256 t) m k v (rebuild_lem sha256 t valid).0
        (λ k' v'. verify-rebuild sha256 t k' v' valid ∙ e k' v')

  new_verifies : (k v : Bytes) → verify new_merkle_tree k v ≡ false
  unfolding verify lookup_leaf new_merkle_tree
  new_verifies k v = refl

  -- After any sequence of `Insert` and `Rebuild` on a new tree, `Verify` accepts exactly the value
  -- last inserted under a key, and the tree's invariant holds: sorted leaves with distinct keys and
  -- addresses, each with the hash of its own key and value, under a root and a parent map that are
  -- current whenever no change is pending.
  pub tree_refines :
      (ops : List TreeOp) (k v : Bytes)
      → (verify (run_tree sha256 ops new_merkle_tree) k v ≡ run_stored ops (λ _ _. false) k v)
        × IsValid sha256 (run_tree sha256 ops new_merkle_tree)
  tree_refines ops k v =
      run_from ops new_merkle_tree (λ _ _. false) k v (new_merkle_tree-IsValid sha256) new_verifies
