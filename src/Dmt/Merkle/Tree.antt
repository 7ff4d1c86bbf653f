-- ===== src/Dmt/Merkle/Tree.antt =====
-- What holds of a tree that was made by `Insert` and `Rebuild`, in any order.
pub mod Rebuilding
pub mod Proofs
pub mod Diffs
pub mod Reported
pub mod Gaps
use datura.Prelude.{
  ℕ, zero, suc, ◌+◌, ◌≤◌, ◌<◌, ◌≡◌, ◌≢◌, refl, ap, ◌∙◌, sym, Bool, true, false, Option, none, some,
  List, [], ◌∷◌, arith, if◌then◌else◌, length, All, Ordering,
}
use datura.Prelude.Bytes.{Bytes, bytes_compare, bytes_equal}
use datura.Dmt.SortedSlice.{IsSorted, put_key}
use datura.Dmt.Merkle.Nodes.{
  MerkleNode, leaf, pair, single, address_of, hash_of, key_of, value_of, MerkleSnapshot, MerkleTree,
  new_merkle_tree, hash_kv, new_leaf, insert, verify,
}
use datura.Dmt.Merkle.Nodes.Laws.{Sorted, leaves-insert, verify-insert}
use datura.Dmt.Merkle.Build.{rebuild}
use datura.Dmt.Merkle.Build.Levels.{Fresh, Distinct, Below, level, levels, build_level_lem}

module _ (P : MerkleNode → Type 0) where
  All-put : (v : MerkleNode) (xs : List MerkleNode) → P v → All P xs → All P (put_key key_of v xs)
  unfolding put_key
  All-put v [] p h = (p, tt)
  All-put v (x ∷ xs) p h = ground (arith, All-put v xs p h.1)

Distinct-put :
    (v : MerkleNode) (xs : List MerkleNode)
    → Fresh (address_of v) xs
    → Distinct xs
    → Distinct (put_key key_of v xs)
unfolding put_key
Distinct-put v [] f d = (tt, tt)
Distinct-put v (x ∷ xs) f d = ground (
  arith,
  Distinct-put v xs f.1 d.1,
  All-put (λ y. address_of y ≢ address_of x) v xs (λ e. f.0 (sym e)) d.0,
)

module _ (sha256 : Bytes → Bytes) where
  -- A leaf allocated below `n`, with the hash of its own key and value.
  abbrev pub Made : ℕ → MerkleNode → Type 0
  Made n (leaf a k v h) = (a < n) × (h ≡ hash_kv sha256 k v)
  Made n (pair a l r h) = ⊥
  Made n (single a l h) = ⊥

  -- The root and the parent map are those built over the leaves.
  pub record Built (s : MerkleSnapshot) : Type 0 where
    pub base : ℕ
    pub low : Below base s.leaves
    pub rooted : (levels sha256 (length s.leaves) s.leaves [] base).0 ≡ s.root
    pub parented : (levels sha256 (length s.leaves) s.leaves [] base).1 ≡ s.parent

  pub record IsValid (t : MerkleTree) : Type 0 where
    pub sorted : Sorted t.snapshot
    pub made : All (Made t.next) t.snapshot.leaves
    pub distinct : Distinct t.snapshot.leaves
    pub built : t.snapshot.modified ≡ false → Built t.snapshot

  Made-mono : (n k : ℕ) (x : MerkleNode) → n ≤ k → Made n x → Made k x
  Made-mono n k (leaf a key v h) p (q, e) = (omega arith, e)
  Made-mono n k (pair a l r h) p q = q
  Made-mono n k (single a l h) p q = q

  All-Made_mono : (n k : ℕ) (xs : List MerkleNode) → n ≤ k → All (Made n) xs → All (Made k) xs
  All-Made_mono n k [] p h = tt
  All-Made_mono n k (x ∷ xs) p h = (Made-mono n k x p h.0, All-Made_mono n k xs p h.1)

  Made-below : (n : ℕ) (x : MerkleNode) → Made n x → address_of x < n
  Made-below n (leaf a k v h) (q, e) = q
  Made-below n (pair a l r h) q = absurd q
  Made-below n (single a l h) q = absurd q

  pub Made-Below : (n : ℕ) (xs : List MerkleNode) → All (Made n) xs → Below n xs
  Made-Below n [] h = tt
  Made-Below n (x ∷ xs) h = (Made-below n x h.0, Made-Below n xs h.1)

  Below-Fresh : (n : ℕ) (xs : List MerkleNode) → Below n xs → Fresh n xs
  Below-Fresh n [] h = tt
  Below-Fresh n (x ∷ xs) h = (omega arith, Below-Fresh n xs h.1)

  pub new_merkle_tree-IsValid : IsValid new_merkle_tree
  unfolding new_merkle_tree levels
  new_merkle_tree-IsValid = record {
    sorted = tt;
    made = tt;
    distinct = tt;
    built = λ _. record { base = 0; low = tt; rooted = refl; parented = refl };
  }

  pub insert-IsValid :
      (t : MerkleTree) (key value : Bytes) → IsValid t → IsValid (insert sha256 t key value)
  insert-IsValid t key value v =
      let node = new_leaf sha256 t.next key value in
      let e = leaves-insert sha256 t key value v.sorted in
      record {
        sorted = (verify-insert sha256 t key value key value v.sorted).1;
        made = rw e (
            unfold insert new_leaf in
            All-put (Made (suc t.next)) node t.snapshot.leaves (omega arith, refl)
              (All-Made_mono t.next (suc t.next) t.snapshot.leaves (omega arith) v.made));
        distinct = rw e (
            unfold new_leaf in
            Distinct-put node t.snapshot.leaves
              (Below-Fresh t.next t.snapshot.leaves (Made-Below t.next t.snapshot.leaves v.made))
              v.distinct);
        built = unfold insert in λ h. absurd (cc);
      }

  levels-next :
      (f : ℕ) (ns : List MerkleNode) (m : datura.Dmt.Merkle.Nodes.Parents) (n : ℕ)
      → n ≤ (levels sha256 f ns m n).2
  unfolding levels
  levels-next zero ns m n = omega arith
  levels-next (suc f) [] m n = omega arith
  levels-next (suc f) (x ∷ []) m n = omega arith
  levels-next (suc f) (l ∷ r ∷ ns) m n =
      let up = level sha256 (l ∷ r ∷ ns) n in
      omega (
        arith,
        levels-next f up (datura.Dmt.Merkle.Build.Levels.links sha256 (l ∷ r ∷ ns) m n)
            (n + length up),
      )
