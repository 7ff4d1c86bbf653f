-- ===== src/Dmt/Merkle/Build/Links.antt =====
-- What the parent map holds for the nodes of a level.
use datura.Prelude.{
  ℕ, zero, suc, ◌+◌, ◌-◌, ◌≤◌, ◌<◌, ◌≡◌, ◌≢◌, refl, ◌∙◌, sym, ◌⊎◌, inl, inr, some, List, [], ◌∷◌,
  arith, length, All,
}
use datura.Prelude.Bytes.{Bytes}
use datura.Dmt.Merkle.Nodes.{
  MerkleNode, pair, single, address_of, hash_of, Parents, hash_pair, hash_single,
}
use datura.Dmt.Merkle.Build.Levels.{
  parent_at, Fresh, Distinct, Below, AtLeast, level, links, levels,
}

-- Membership, with the place kept.
abbrev pub In : MerkleNode → List MerkleNode → Type 0
In x [] = ⊥
In x (y ∷ ys) = (x ≡ y) ⊎ In x ys

pub In-All :
    (P : MerkleNode → Type 0) (x : MerkleNode) (ns : List MerkleNode) → In x ns → All P ns → P x
In-All P x [] i h = absurd i
In-All P x (y ∷ ys) (inl e) h = rw e h.0
In-All P x (y ∷ ys) (inr i) h = In-All P x ys i h.1

pub In-Below :
    (n : ℕ) (x : MerkleNode) (ns : List MerkleNode) → In x ns → Below n ns → address_of x < n
In-Below n x ns i h = In-All (λ y. address_of y < n) x ns i h

-- No node of the list has an empty hash.
abbrev pub Hashed : List MerkleNode → Type 0
Hashed ns = All (λ x. 1 ≤ length (hash_of x)) ns

module _ (sha256 : Bytes → Bytes) where
  links_keep :
      (a : ℕ) (ns : List MerkleNode) (m : Parents) (n : ℕ)
      → Fresh a ns
      → parent_at a (links sha256 ns m n) ≡ parent_at a m
  unfolding parent_at links
  links_keep a [] m n h = refl
  links_keep a (l ∷ []) m n h = ground (arith, h.0)
  links_keep a (l ∷ r ∷ ns) m n h =
      let p = pair n l r (hash_pair sha256 l r) in
      ground (
        arith,
        h.0,
        h.1.0,
        links_keep a ns ((address_of r, p) ∷ (address_of l, p) ∷ m) (suc n) h.1.1,
      )

  pub level-AtLeast : (ns : List MerkleNode) (n k : ℕ) → k ≤ n → AtLeast k (level sha256 ns n)
  unfolding level
  level-AtLeast [] n k h = tt
  level-AtLeast (l ∷ []) n k h = (h, tt)
  level-AtLeast (l ∷ r ∷ ns) n k h = (h, level-AtLeast ns (suc n) k (omega arith))

  Fresh-below : (a n : ℕ) (ns : List MerkleNode) → a < n → AtLeast n ns → Fresh a ns
  Fresh-below a n [] h s = tt
  Fresh-below a n (x ∷ xs) h s = (omega arith, Fresh-below a n xs h s.1)

  pub level-Fresh : (a n : ℕ) (ns : List MerkleNode) → a < n → Fresh a (level sha256 ns n)
  level-Fresh a n ns h = Fresh-below a n (level sha256 ns n) h (level-AtLeast ns n n (omega arith))

  pub level-Distinct : (ns : List MerkleNode) (n : ℕ) → Distinct (level sha256 ns n)
  unfolding level
  level-Distinct [] n = tt
  level-Distinct (l ∷ []) n = (tt, tt)
  level-Distinct (l ∷ r ∷ ns) n = (
    Fresh-below n (suc n) (level sha256 ns (suc n)) (omega arith)
        (level-AtLeast ns (suc n) (suc n) (omega arith)),
    level-Distinct ns (suc n),
  )

  pub level-Below :
      (ns : List MerkleNode) (n k : ℕ)
      → n + length (level sha256 ns n) ≤ k
      → Below k (level sha256 ns n)
  unfolding level
  level-Below [] n k h = tt
  level-Below (l ∷ []) n k h = (omega arith, tt)
  level-Below (l ∷ r ∷ ns) n k h = (omega arith, level-Below ns (suc n) k (omega arith))

  -- Levels above a node's own leave its entry in the map alone.
  pub levels_keep :
      (f a : ℕ) (ns : List MerkleNode) (m : Parents) (n : ℕ)
      → a < n
      → Fresh a ns
      → parent_at a (levels sha256 f ns m n).1 ≡ parent_at a m
  unfolding levels
  levels_keep zero a ns m n h s = refl
  levels_keep (suc f) a [] m n h s = refl
  levels_keep (suc f) a (x ∷ []) m n h s = refl
  levels_keep (suc f) a (l ∷ r ∷ ns) m n h s =
      let up = level sha256 (l ∷ r ∷ ns) n in
      levels_keep f a up (links sha256 (l ∷ r ∷ ns) m n) (n + length up) (omega arith)
        (level-Fresh a n (l ∷ r ∷ ns) h)
      ∙ links_keep a (l ∷ r ∷ ns) m n s

  -- Where a node stands under its parent, in a level of `len` nodes.
  pub data HasParent (m : Parents) (x : MerkleNode) (up : List MerkleNode) (len : ℕ) : Type 0 where
    on_left :
        (a : ℕ) (r p : MerkleNode)
        → p ≡ pair a x r (hash_pair sha256 x r)
        → 1 ≤ length (hash_of r)
        → parent_at (address_of x) m ≡ some p
        → In p up
        → HasParent m x up len
    on_right :
        (a : ℕ) (l p : MerkleNode)
        → p ≡ pair a l x (hash_pair sha256 l x)
        → 1 ≤ length (hash_of l)
        → address_of l ≢ address_of x
        → parent_at (address_of x) m ≡ some p
        → In p up
        → HasParent m x up len
    alone :
        (a : ℕ) (p : MerkleNode)
        → p ≡ single a x (hash_single sha256 x)
        → ((k : ℕ) → len ≢ k + k)
        → parent_at (address_of x) m ≡ some p
        → In p up
        → HasParent m x up len

  HasParent-tail :
      {m : Parents} {x p : MerkleNode} {up : List MerkleNode} {len : ℕ}
      → HasParent m x up len
      → HasParent m x (p ∷ up) (suc (suc len))
  HasParent-tail (on_left a r p e h q i) = on_left a r p e h q (inr i)
  HasParent-tail (on_right a l p e h d q i) = on_right a l p e h d q (inr i)
  HasParent-tail {len} (alone a p e o q i) = alone a p e (λ k h. o (k - 1) (omega arith)) q (inr i)

  -- A map that agrees with a level's links on the level's nodes holds the parent of each.
  pub has_parent :
      (x : MerkleNode) (ns : List MerkleNode) (m full : Parents) (n : ℕ)
      → Distinct ns
      → Hashed ns
      → In x ns
      → ((y : MerkleNode)
          → In y ns
          → parent_at (address_of y) full ≡ parent_at (address_of y) (links sha256 ns m n))
      → HasParent full x (level sha256 ns n) (length ns)
  unfolding links level
  has_parent x [] m full n d h i agree = absurd i
  has_parent x (l ∷ []) m full n d h (inl e) agree = rw e (
      alone n (single n l (hash_single sha256 l)) refl (λ k p. omega arith)
        (agree l (inl refl) ∙ unfold parent_at in ground arith) (inl refl))
  has_parent x (l ∷ []) m full n d h (inr i) agree = absurd i
  has_parent x (l ∷ r ∷ ns) m full n d h (inl e) agree =
      let p = pair n l r (hash_pair sha256 l r) in
      rw e (
        on_left n r p refl h.1.0
          (agree l (inl refl)
            ∙ links_keep (address_of l) ns ((address_of r, p) ∷ (address_of l, p) ∷ m) (suc n) d.0.1
            ∙ unfold parent_at in ground arith)
          (inl refl))
  has_parent x (l ∷ r ∷ ns) m full n d h (inr (inl e)) agree =
      let p = pair n l r (hash_pair sha256 l r) in
      rw e (
        on_right n l p refl h.0 (λ q. d.0.0 (sym q))
          (agree r (inr (inl refl))
            ∙ links_keep (address_of r) ns ((address_of r, p) ∷ (address_of l, p) ∷ m) (suc n) d.1.0
            ∙ unfold parent_at in ground arith)
          (inl refl))
  has_parent x (l ∷ r ∷ ns) m full n d h (inr (inr i)) agree =
      let p = pair n l r (hash_pair sha256 l r) in
      HasParent-tail (
        has_parent x ns ((address_of r, p) ∷ (address_of l, p) ∷ m) full (suc n) d.1.1 h.1.1 i
          (λ y j. agree y (inr (inr j))))
