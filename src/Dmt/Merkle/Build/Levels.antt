-- ===== src/Dmt/Merkle/Build/Levels.antt =====
-- The levels of the tree without the scratch buffer, and what the parent map records of them.
use datura.Prelude.{
  ℕ, zero, suc, ◌+◌, ◌-◌, ◌≤◌, ◌<◌, ◌≡◌, ◌≢◌, refl, Option, none, some, List, [], ◌∷◌, ◌++◌, arith,
  length, drop-length, append_assoc, append-nil, if◌then◌else◌, ◌==◌, All,
}
use datura.Prelude.Bytes.{Bytes}
use datura.Dmt.Merkle.Nodes.{MerkleNode, pair, single, address_of, Parents, hash_pair, hash_single}
use datura.Dmt.Merkle.Build.{build_pairs, build_level}

-- `snapshot.parent[node]`
unfoldable pub parent_at : ℕ → Parents → Option MerkleNode
parent_at a [] = none
parent_at a ((b, p) ∷ m) = if b == a then some p else parent_at a m

-- No node of the list has the address.
abbrev pub Fresh : ℕ → List MerkleNode → Type 0
Fresh a ns = All (λ x. address_of x ≢ a) ns

abbrev pub Distinct : List MerkleNode → Type 0
Distinct [] = Unit {0}
Distinct (x ∷ xs) = Fresh (address_of x) xs × Distinct xs

abbrev pub Below : ℕ → List MerkleNode → Type 0
Below n ns = All (λ x. address_of x < n) ns

abbrev pub AtLeast : ℕ → List MerkleNode → Type 0
AtLeast n ns = All (λ x. n ≤ address_of x) ns

module _ (sha256 : Bytes → Bytes) where
  -- The nodes over a level, from address `n` on.
  unfoldable pub level : List MerkleNode → ℕ → List MerkleNode
  level [] n = []
  level (l ∷ []) n = single n l (hash_single sha256 l) ∷ []
  level (l ∷ r ∷ ns) n = pair n l r (hash_pair sha256 l r) ∷ level ns (suc n)

  unfoldable pub links : List MerkleNode → Parents → ℕ → Parents
  links [] m n = m
  links (l ∷ []) m n = (address_of l, single n l (hash_single sha256 l)) ∷ m
  links (l ∷ r ∷ ns) m n =
      let p = pair n l r (hash_pair sha256 l r) in
      links ns ((address_of r, p) ∷ (address_of l, p) ∷ m) (suc n)

  pub build_pairs_lem :
      (ns scratch : List MerkleNode) (m : Parents) (n : ℕ)
      → build_pairs sha256 ns scratch m n
        ≡ (scratch ++ level ns n, links ns m n, n + length (level ns n))
  unfolding build_pairs level links
  build_pairs_lem [] scratch m n = ground (arith, append-nil scratch)
  build_pairs_lem (l ∷ []) scratch m n = ground arith
  build_pairs_lem (l ∷ r ∷ ns) scratch m n =
      let p = pair n l r (hash_pair sha256 l r) in
      ground (
        arith,
        build_pairs_lem ns (scratch ++ (p ∷ [])) ((address_of r, p) ∷ (address_of l, p) ∷ m)
            (suc n),
        append_assoc scratch (p ∷ []) (level ns (suc n)),
      )

  pub length-level :
      (ns : List MerkleNode) (n : ℕ) → length (level ns n) + length (level ns n) ≤ length ns + 1
  unfolding level
  length-level [] n = omega arith
  length-level (l ∷ []) n = omega arith
  length-level (l ∷ r ∷ ns) n = omega (arith, length-level ns (suc n))

  pub length-level_half :
      (ns : List MerkleNode) (n k : ℕ) → length ns ≡ k + k → length (level ns n) ≡ k
  unfolding level
  length-level_half [] n k h = omega arith
  length-level_half (l ∷ []) n k h = omega arith
  length-level_half (l ∷ r ∷ ns) n k h =
      omega (arith, length-level_half ns (suc n) (k - 1) (omega arith))

  -- The tree over a level without the scratch buffer.
  unfoldable pub levels : ℕ → List MerkleNode → Parents → ℕ → Option MerkleNode × Parents × ℕ
  levels zero ns m n = (none, m, n)
  levels (suc f) [] m n = (none, m, n)
  levels (suc f) (x ∷ []) m n = (some x, m, n)
  levels (suc f) (l ∷ r ∷ ns) m n =
      let up = level (l ∷ r ∷ ns) n in levels f up (links (l ∷ r ∷ ns) m n) (n + length up)

  pub build_level_lem :
      (f : ℕ) (ns scratch : List MerkleNode) (m : Parents) (n : ℕ)
      → build_level sha256 f ns scratch m n ≡ levels f ns m n
  unfolding build_level levels
  build_level_lem zero ns scratch m n = refl
  build_level_lem (suc f) [] scratch m n = refl
  build_level_lem (suc f) (x ∷ []) scratch m n = refl
  build_level_lem (suc f) (l ∷ r ∷ ns) scratch m n =
      let up = level (l ∷ r ∷ ns) n in
      rw (build_pairs_lem (l ∷ r ∷ ns) scratch m n, drop-length scratch up)
        (build_level_lem f up (scratch ++ up) (links (l ∷ r ∷ ns) m n) (n + length up))
