-- ===== src/Dmt/Merkle/Proof/Climb.antt =====
-- The climb of `GetProof` over a tree just built: it reaches the root from every leaf, and the proof
-- folds back to the root's hash where no level on the way has odd length.
use datura.Prelude.{
  ℕ, zero, suc, ◌+◌, ◌^◌, ◌≤◌, ◌<◌, ◌≡◌, ◌≢◌, refl, ap, ◌∙◌, sym, inl, inr, Option, some, List, [],
  ◌∷◌, ◌++◌, arith, length, append-nil, append_assoc,
}
use native.Mathlib.Nat.{pow-suc}
use datura.Prelude.Bytes.{Bytes}
use datura.Dmt.Merkle.Nodes.{MerkleNode, address_of, hash_of, Parents, hash_pair, hash_single}
use datura.Dmt.Merkle.Build.Levels.{
  parent_at, Distinct, Below, AtLeast, level, links, levels, length-level, length-level_half,
}
use datura.Dmt.Merkle.Build.Links.{
  In, Hashed, HasParent, on_left, on_right, alone, has_parent, level-AtLeast, level-Distinct,
  level-Below, levels_keep, In-Below, level-Fresh,
}
use datura.Dmt.Merkle.Proof.{proof, climb, sibling, fold_proof}

module _ (sha256 : Bytes → Bytes) (digest_length : (b : Bytes) → length (sha256 b) ≡ 32) where
  level-Hashed : (ns : List MerkleNode) (n : ℕ) → Hashed (level sha256 ns n)
  unfolding level hash_pair hash_single
  level-Hashed [] n = tt
  level-Hashed (l ∷ []) n = (omega (arith, digest_length (hash_of l)), tt)
  level-Hashed (l ∷ r ∷ ns) n =
      (omega (arith, digest_length (hash_of l ++ hash_of r)), level-Hashed ns (suc n))

  fold_right :
      (h s : Bytes) (es : List Bytes)
      → 1 ≤ length s
      → fold_proof sha256 h ((0x00 ∷ s) ∷ es) ≡ fold_proof sha256 (sha256 (h ++ s)) es
  unfolding fold_proof
  fold_right h [] es p = absurd (omega arith)
  fold_right h (b ∷ bs) es p = refl

  fold_left :
      (h s : Bytes) (es : List Bytes)
      → 1 ≤ length s
      → fold_proof sha256 h ((0x01 ∷ s) ∷ es) ≡ fold_proof sha256 (sha256 (s ++ h)) es
  unfolding fold_proof
  fold_left h [] es p = absurd (omega arith)
  fold_left h (b ∷ bs) es p = refl

  -- One round of the climb: the parent, what the proof gains, and what folding that does.
  record Round (m : Parents) (x : MerkleNode) (up : List MerkleNode) (len : ℕ) : Type 0 where
    above : MerkleNode
    more : List Bytes
    parent : parent_at (address_of x) m ≡ some above
    among : In above up
    appended : sibling above x ≡ some more
    folded :
        (k : ℕ)
        → len ≡ k + k
        → (es : List Bytes)
        → fold_proof sha256 (hash_of x) (more ++ es) ≡ fold_proof sha256 (hash_of above) es

  round :
      (m : Parents) (x : MerkleNode) (up : List MerkleNode) (len : ℕ)
      → HasParent sha256 m x up len
      → Round m x up len
  unfolding sibling hash_pair hash_single
  round m x up len (on_left a r p e h q i) = record {
    above = p;
    more = (0x00 ∷ hash_of r) ∷ [];
    parent = q;
    among = i;
    appended = rw e (ground arith);
    folded = λ k even es. rw e (fold_right (hash_of x) (hash_of r) es h);
  }
  round m x up len (on_right a l p e h d q i) = record {
    above = p;
    more = (0x01 ∷ hash_of l) ∷ [];
    parent = q;
    among = i;
    appended = rw e (ground arith);
    folded = λ k even es. rw e (fold_left (hash_of x) (hash_of l) es h);
  }
  round m x up len (alone a p e odd q i) = record {
    above = p;
    more = [];
    parent = q;
    among = i;
    appended = rw e (ground arith);
    folded = λ k even es. absurd (odd k even);
  }

  -- With as much fuel as nodes there is a root, and it is no node below the addresses of the level.
  root_of :
      (f : ℕ) (ns : List MerkleNode) (m : Parents) (n k : ℕ)
      → 1 ≤ length ns
      → length ns ≤ f
      → AtLeast k ns
      → k ≤ n
      → (r : MerkleNode) × ((levels sha256 f ns m n).0 ≡ some r) × (k ≤ address_of r)
  unfolding levels
  root_of zero ns m n k h hf s hk = absurd (omega arith)
  root_of (suc f) [] m n k h hf s hk = absurd (omega arith)
  root_of (suc f) (x ∷ []) m n k h hf s hk = (x, refl, s.0)
  root_of (suc f) (l ∷ r ∷ ns) m n k h hf s hk =
      let up = level sha256 (l ∷ r ∷ ns) n in
      let short = length-level sha256 (l ∷ r ∷ ns) n in
      root_of f up (links sha256 (l ∷ r ∷ ns) m n) (n + length up) k (unfold level in omega arith)
        (omega arith) (level-AtLeast sha256 (l ∷ r ∷ ns) n k hk) (omega arith)

  -- One step of the loop below the root.
  climb_step :
      (f : ℕ) (root x : MerkleNode) (m : Parents) (up : List MerkleNode) (len : ℕ)
      (acc : List Bytes)
      → address_of root ≢ address_of x
      → (q : Round m x up len)
      → climb (suc f) (some root) m x acc ≡ climb f (some root) m q.above (acc ++ q.more)
  unfolding climb
  climb_step f root x m up len acc ne q = ground (arith, q.parent, q.appended)

  -- From `x` the loop ends at the root with a proof behind `acc`.
  pub record Reaches (f : ℕ) (built : Option MerkleNode × Parents × ℕ) (x : MerkleNode) (len : ℕ)
      (acc : List Bytes) : Type 0 where
    pub root : MerkleNode
    pub entries : List Bytes
    pub rooted : built.0 ≡ some root
    pub climbed : climb f built.0 built.1 x acc ≡ proof (acc ++ entries)
    pub folded : (k : ℕ) → len ≡ 2 ^ k → fold_proof sha256 (hash_of x) entries ≡ some (hash_of root)

  at_root :
      (f : ℕ) (x y : MerkleNode) (m : Parents) (n : ℕ) (acc : List Bytes)
      → x ≡ y
      → Reaches (suc f) (some y, m, n) x 1 acc
  unfolding climb fold_proof
  at_root f x y m n acc e = record {
    root = y;
    entries = [];
    rooted = refl;
    climbed = rw (e, append-nil) (ground arith);
    folded = λ k h. rw e;
  }

  -- A level of two nodes or more, as many as a power of two, is even.
  halve : (k len : ℕ) → suc (suc len) ≡ 2 ^ k → (j : ℕ) × (suc (suc len) ≡ 2 ^ j + 2 ^ j)
  halve zero len h = absurd (omega arith)
  halve (suc k) len h = (k, omega (arith, pow-suc 2 k))

  root_ne :
      (o : Option MerkleNode) (r root x : MerkleNode) (n : ℕ)
      → o ≡ some r
      → o ≡ some root
      → n ≤ address_of r
      → address_of x < n
      → address_of root ≢ address_of x
  root_ne o r root x n p q h k = λ e. ground arith

  -- The round below the root, put before the rest of the climb.
  climb-Round :
      (f : ℕ) (built : Option MerkleNode × Parents × ℕ) (x : MerkleNode) (up : List MerkleNode)
      (len : ℕ) (acc : List Bytes)
      → (q : Round built.1 x up (suc (suc len)))
      → (rest : Reaches f built q.above (length up) (acc ++ q.more))
      → ((k : ℕ) → suc (suc len) ≡ k + k → length up ≡ k)
      → address_of rest.root ≢ address_of x
      → Reaches (suc f) built x (suc (suc len)) acc
  climb-Round f built x up len acc q rest half ne = record {
    root = rest.root;
    entries = q.more ++ rest.entries;
    rooted = rest.rooted;
    climbed =
        ap (λ o. climb (suc f) o built.1 x acc) rest.rooted
        ∙ climb_step f rest.root x built.1 up (suc (suc len)) acc ne q
        ∙ sym (ap (λ o. climb f o built.1 q.above (acc ++ q.more)) rest.rooted)
        ∙ rest.climbed
        ∙ ap proof (append_assoc acc q.more rest.entries);
    folded = λ k h.
        let (j, even) = halve k len h in
        q.folded (2 ^ j) even rest.entries ∙ rest.folded j (half (2 ^ j) even);
  }

  pub climb_lem :
      (f : ℕ) (ns : List MerkleNode) (m : Parents) (n : ℕ) (x : MerkleNode) (acc : List Bytes)
      → Distinct ns
      → Below n ns
      → Hashed ns
      → length ns ≤ f
      → In x ns
      → Reaches f (levels sha256 f ns m n) x (length ns) acc
  unfolding levels
  climb_lem zero [] m n x acc d b h hf i = absurd i
  climb_lem zero (y ∷ ns) m n x acc d b h hf i = absurd (omega arith)
  climb_lem (suc f) [] m n x acc d b h hf i = absurd i
  climb_lem (suc f) (y ∷ []) m n x acc d b h hf (inl e) = at_root f x y m n acc e
  climb_lem (suc f) (y ∷ []) m n x acc d b h hf (inr i) = absurd i
  climb_lem (suc f) (l ∷ r ∷ ns) m n x acc d b h hf i =
      let here = l ∷ r ∷ ns in
      let up = level sha256 here n in
      let m' = links sha256 here m n in
      let n' = n + length up in
      let short = length-level sha256 here n in
      let built = levels sha256 f up m' n' in
      let agree = λ (y : MerkleNode) (j : In y here).
        let low = In-Below n y here j b in
        levels_keep sha256 f (address_of y) up m' n' (omega arith)
          (level-Fresh sha256 (address_of y) n here low) in
      let q = round built.1 x up (length here) (has_parent sha256 x here m built.1 n d h i agree) in
      let rest =
        climb_lem f up m' n' q.above (acc ++ q.more) (level-Distinct sha256 here n)
          (level-Below sha256 here n n' (omega arith)) (level-Hashed here n) (omega arith)
          q.among in
      let (r, e, high) =
        root_of f up m' n' n (unfold level in omega arith) (omega arith)
          (level-AtLeast sha256 here n n (omega arith)) (omega arith) in
      climb-Round f built x up (length ns) acc q rest (length-level_half sha256 here n)
        (root_ne built.0 r rest.root x n e rest.rooted high (In-Below n x here i b))
