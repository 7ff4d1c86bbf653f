-- ===== src/Dmt/Merkle/Diff/Full.antt =====
-- The merge of two sorted leaf slices is a lookup of every left leaf among the right ones.
use datura.Prelude.{
  ◌≡◌, refl, ap, ap₂, ◌∙◌, true, false, Option, none, some, List, [], ◌∷◌, ◌++◌, arith,
  if◌then◌else◌, All, sym, Ordering,
}
use datura.Prelude.Bytes.{
  Bytes, bytes_equal, bytes_compare, Before, bytes-Compared, below, same, above, bytes_compare_eq,
  bytes_compare_refl,
}
use datura.Dmt.SortedSlice.{IsSorted, find_key}
use datura.Dmt.SortedSlice.Laws.{find_key_above, All-above}
use datura.Dmt.Merkle.Nodes.{MerkleNode, key_of, value_of}
use datura.Dmt.Merkle.Diff.{DiffEntry, entry, full_diff}

-- What a leaf contributes, given the other side's leaf under its key.
abbrev pub difference : MerkleNode → Option MerkleNode → List DiffEntry
difference l none = entry l false ∷ []
difference l (some r) = if bytes_equal (value_of l) (value_of r) then [] else entry l true ∷ []

unfoldable pub diff_by_lookup : List MerkleNode → List MerkleNode → List DiffEntry
diff_by_lookup [] rs = []
diff_by_lookup (l ∷ ls) rs = difference l (find_key key_of (key_of l) rs) ++ diff_by_lookup ls rs

find_key_later :
    (k : Bytes) (r : MerkleNode) (rs : List MerkleNode)
    → Before (key_of r) k
    → find_key key_of k (r ∷ rs) ≡ find_key key_of k rs
unfolding find_key
find_key_later k r rs h = ground arith

skip :
    (r : MerkleNode) (ls rs : List MerkleNode)
    → All (λ l. Before (key_of r) (key_of l)) ls
    → diff_by_lookup ls (r ∷ rs) ≡ diff_by_lookup ls rs
unfolding diff_by_lookup
skip r [] rs h = refl
skip r (l ∷ ls) rs h =
    ap₂ (λ o ds. difference l o ++ ds) (find_key_later (key_of l) r rs h.0) (skip r ls rs h.1)

find_key_nil : (k : Bytes) → find_key key_of k [] ≡ none
unfolding find_key
find_key_nil k = refl

find_key_here :
    (k : Bytes) (r : MerkleNode) (rs : List MerkleNode)
    → bytes_compare k (key_of r) ≡ Ordering.eq
    → find_key key_of k (r ∷ rs) ≡ some r
unfolding find_key
find_key_here k r rs h = ground (arith, bytes_compare_eq k (key_of r) h, bytes_compare_refl k)

step :
    (l : MerkleNode) (ls : List MerkleNode) (r : MerkleNode) (rs : List MerkleNode)
    → bytes_compare (key_of l) (key_of r) ≡ Ordering.gt
    → full_diff (l ∷ ls) (r ∷ rs) ≡ full_diff (l ∷ ls) rs
unfolding full_diff
step l ls r rs e = rw (e, full_diff)

full_diff_above :
    (l : MerkleNode) (ls : List MerkleNode) (r : MerkleNode) (rs : List MerkleNode)
    → bytes_compare (key_of l) (key_of r) ≡ Ordering.gt
    → full_diff (l ∷ ls) rs ≡ diff_by_lookup (l ∷ ls) rs
    → diff_by_lookup (l ∷ ls) (r ∷ rs) ≡ diff_by_lookup (l ∷ ls) rs
    → full_diff (l ∷ ls) (r ∷ rs) ≡ diff_by_lookup (l ∷ ls) (r ∷ rs)
full_diff_above l ls r rs e ih same_tail = step l ls r rs e ∙ ih ∙ sym same_tail

-- On sorted leaf slices `fullDiff` lists, in the order of the left leaves, exactly those that the
-- right side lacks, and, marked modified, those that it holds with another value.
pub full_diff_lem :
    (ls rs : List MerkleNode)
    → IsSorted key_of ls
    → IsSorted key_of rs
    → full_diff ls rs ≡ diff_by_lookup ls rs
unfolding full_diff diff_by_lookup
full_diff_lem [] rs s t = refl
full_diff_lem (l ∷ ls) [] s t =
    rw (find_key_nil (key_of l)) (ap (λ ds. entry l false ∷ ds) (full_diff_lem ls [] s.1 t))
full_diff_lem (l ∷ ls) (r ∷ rs) s t = elim (bytes-Compared (key_of l) (key_of r)) [
  | below e g ↦ ground (
    arith,
    e,
    full_diff_lem ls (r ∷ rs) s.1 t,
    find_key_above key_of (key_of l) (r ∷ rs) (e, All-above key_of (key_of l) (key_of r) rs e t.0),
  )
  | same p e ↦ ground (
    arith,
    e,
    full_diff_lem ls rs s.1 t.1,
    find_key_here (key_of l) r rs e,
    skip r ls rs (rw p at s.0),
  )
  | above e g ↦
      full_diff_above l ls r rs e (full_diff_lem (l ∷ ls) rs s t.1)
        (skip r (l ∷ ls) rs (g, All-above key_of (key_of r) (key_of l) ls g s.0))
]
