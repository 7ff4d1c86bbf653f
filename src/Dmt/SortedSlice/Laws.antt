-- ===== src/Dmt/SortedSlice/Laws.antt =====
-- Binary search over a sorted slice finds the key's rank.
use datura.Prelude.{
  ℕ, zero, suc, ◌+◌, ◌/◌, ◌≤◌, ◌<◌, ◌≡◌, refl, inl, inr, Bool, true, false, none, List, [], ◌∷◌,
  arith, if◌then◌else◌, length, All, Bool-cases,
}
use datura.Prelude.Bytes.{
  Bytes, bytes_lt, Before, Before-trans, Before→gt, bytes-Compared, below, same, above,
}
use datura.Dmt.SortedSlice.{
  search_loop, search_first, reached, lower_bound, key_at, IsSorted, find_key,
}

-- `sort.Search` on a predicate that turns from false to true at `r` returns `r`.
pub search_loop_lem :
    (fuel : ℕ) (f : ℕ → Bool) (i j r : ℕ)
    → j ≤ i + fuel
    → i ≤ r
    → r ≤ j
    → ((k : ℕ) → k < r → f k ≡ false)
    → ((k : ℕ) → r ≤ k → f k ≡ true)
    → search_loop fuel f i j ≡ r
unfolding search_loop
search_loop_lem zero f i j r hf hi hj lo hi' = omega arith
search_loop_lem (suc fuel) f i j r hf hi hj lo up = ground (
  arith,
  lo ((i + j) / 2),
  up ((i + j) / 2),
  search_loop_lem fuel f i ((i + j) / 2) r,
  search_loop_lem fuel f ((i + j) / 2 + 1) j r,
)

module _ {A : Type 0} (key : A → Bytes) where
  -- How many keys come before `k`.
  unfoldable pub rank : Bytes → List A → ℕ
  rank k [] = 0
  rank k (x ∷ xs) = let rest = rank k xs in if bytes_lt (key x) k then suc rest else 0

  rank-le : (k : Bytes) (xs : List A) → rank k xs ≤ length xs
  unfolding rank
  rank-le k [] = omega arith
  rank-le k (x ∷ xs) = ground (arith, rank-le k xs)

  before_rank : (k : Bytes) (xs : List A) (i : ℕ) → i < rank k xs → reached key xs k i ≡ false
  unfolding rank
  before_rank k [] i h = absurd (omega arith)
  before_rank k (x ∷ xs) zero h = ground arith
  before_rank k (x ∷ xs) (suc i) h = before_rank k xs i (ground arith)

  -- Past an element that is not below `k`, no element is.
  reached_above :
      (k : Bytes) (x : A) (xs : List A) (i : ℕ)
      → bytes_lt (key x) k ≡ false
      → All (λ y. Before (key x) (key y)) xs
      → reached key xs k i ≡ true
  reached_above k x [] i h s = refl
  reached_above k x (y ∷ ys) zero h s = ground (arith, Before-trans (key x) (key y) k)
  reached_above k x (y ∷ ys) (suc i) h s = reached_above k x ys i h s.1

  past_rank :
      (k : Bytes) (xs : List A) (i : ℕ)
      → IsSorted key xs
      → rank k xs ≤ i
      → reached key xs k i ≡ true
  unfolding rank
  past_rank k [] i s h = refl
  past_rank k (x ∷ xs) zero s h = ground arith
  past_rank k (x ∷ xs) (suc i) s h = elim (Bool-cases (bytes_lt (key x) k)) [
    | inl e ↦ past_rank k xs i s.1 (ground arith)
    | inr e ↦ reached_above k x xs i e s.0
  ]

  pub lower_bound-eq-rank :
      (xs : List A) (k : Bytes) → IsSorted key xs → lower_bound key xs k ≡ rank k xs
  unfolding lower_bound search_first
  lower_bound-eq-rank xs k s =
      search_loop_lem (length xs) (reached key xs k) 0 (length xs) (rank k xs) (omega arith)
        (omega arith) (rank-le k xs) (before_rank k xs) (λ i h. past_rank k xs i s h)

  -- A key below every element is not among them.
  pub find_key_above :
      (k : Bytes) (xs : List A) → All (λ y. Before k (key y)) xs → find_key key k xs ≡ none
  unfolding find_key
  find_key_above k [] h = refl
  find_key_above k (x ∷ xs) h = ground (arith, find_key_above k xs, Before→gt k (key x), h.0)

  pub All-above :
      (k l : Bytes) (xs : List A)
      → Before k l
      → All (λ y. Before l (key y)) xs
      → All (λ y. Before k (key y)) xs
  All-above k l [] h s = tt
  All-above k l (x ∷ xs) h s = (Before-trans k l (key x) h s.0, All-above k l xs h s.1)

  pub key_at-rank :
      (k : Bytes) (xs : List A) → IsSorted key xs → key_at key xs (rank k xs) k ≡ find_key key k xs
  unfolding rank find_key
  key_at-rank k [] s = refl
  key_at-rank k (x ∷ xs) s = elim (bytes-Compared (key x) k) [
    | below e _ ↦ ground (arith, key_at-rank k xs s.1)
    | same p e ↦ ground arith
    | above e g ↦ ground (arith, find_key_above k xs (All-above k (key x) xs g s.0))
  ]
