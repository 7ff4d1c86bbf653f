-- ===== src/Dmt/SortedSlice/Update.antt =====
-- The slice expressions at a key's rank are an ordered map's insertion and removal.
use datura.Prelude.{
  ℕ, suc, ◌≡◌, refl, true, none, some, List, [], ◌∷◌, arith, if◌then◌else◌, set, All,
}
use datura.Prelude.Bytes.{
  Bytes, bytes_equal, Before, bytes-Compared, below, same, above, bytes_equal→eq,
  bytes_compare_refl,
}
use datura.Dmt.SortedSlice.{key_at, IsSorted, find_key, put_key, remove_key, insert_at, remove_at}
use datura.Dmt.SortedSlice.Laws.{rank, find_key_above, All-above}

module _ {A : Type 0} (key : A → Bytes) where
  -- A copy with `v` written at its key's rank: over the element with that key, or before the next.
  abbrev pub written : List A → ℕ → A → List A
  written xs i v = elim (key_at key xs i (key v)) [ some _ ↦ set xs i v | none ↦ insert_at xs i v ]

  written_step : (x v : A) (xs : List A) (i : ℕ) → written (x ∷ xs) (suc i) v ≡ x ∷ written xs i v
  written_step x v xs i = ground arith

  rank_zero :
      (k : Bytes) (x : A) (xs : List A) → bytes_equal k (key x) ≡ true → rank key k (x ∷ xs) ≡ 0
  unfolding rank
  rank_zero k x xs h = ground (arith, bytes_equal→eq k (key x) h, bytes_compare_refl (key x))

  pub written-rank :
      (v : A) (xs : List A)
      → IsSorted key xs
      → written xs (rank key (key v) xs) v ≡ put_key key v xs
  unfolding rank put_key
  written-rank v [] s = refl
  written-rank v (x ∷ xs) s = elim (bytes-Compared (key x) (key v)) [
    | below e _ ↦ ground (arith, written_step x v xs (rank key (key v) xs), written-rank v xs s.1)
    | same p e ↦ ground arith
    | above e g ↦ ground arith
  ]

  pub find_key-put :
      (k : Bytes) (v : A) (xs : List A)
      → find_key key k (put_key key v xs)
        ≡ (if bytes_equal (key v) k then some v else find_key key k xs)
  unfolding find_key put_key
  find_key-put k v [] = refl
  find_key-put k v (x ∷ xs) = elim (bytes-Compared (key x) (key v)) [
    | below e _ ↦ ground (
      arith,
      find_key-put k v xs,
      bytes_equal→eq (key x) k,
      bytes_equal→eq (key v) k,
      bytes_compare_refl k,
    )
    | same p e ↦ ground arith
    | above e g ↦ ground arith
  ]

  All-put :
      (k : Bytes) (v : A) (xs : List A)
      → Before k (key v)
      → All (λ y. Before k (key y)) xs
      → All (λ y. Before k (key y)) (put_key key v xs)
  unfolding put_key
  All-put k v [] h s = (h, tt)
  All-put k v (x ∷ xs) h s = ground (arith, All-put k v xs h s.1)

  pub put_key-IsSorted : (v : A) (xs : List A) → IsSorted key xs → IsSorted key (put_key key v xs)
  unfolding put_key
  put_key-IsSorted v [] s = (tt, tt)
  put_key-IsSorted v (x ∷ xs) s = elim (bytes-Compared (key x) (key v)) [
    | below e _ ↦ rw (e, put_key) (All-put (key x) v xs e s.0, put_key-IsSorted v xs s.1)
    | same p e ↦ rw (e, put_key) (rw p at s)
    | above e g ↦ rw (e, put_key) ((g, All-above key (key v) (key x) xs g s.0), s)
  ]

  pub remove_at-rank :
      (k : Bytes) (xs : List A) {y : A}
      → IsSorted key xs
      → find_key key k xs ≡ some y
      → remove_at xs (rank key k xs) ≡ remove_key key k xs
  unfolding rank find_key remove_key
  remove_at-rank k [] s h = cc
  remove_at-rank k (x ∷ xs) {y} s h = elim (bytes-Compared (key x) k) [
    | below e _ ↦ ground (arith, remove_at-rank k xs {y = y} s.1)
    | same p e ↦ ground arith
    | above e g ↦ ground (arith, find_key_above key k xs (All-above key k (key x) xs g s.0))
  ]

  pub remove_absent :
      (k : Bytes) (xs : List A) → find_key key k xs ≡ none → remove_key key k xs ≡ xs
  unfolding find_key remove_key
  remove_absent k [] h = refl
  remove_absent k (x ∷ xs) h = ground (arith, remove_absent k xs)

  All-remove :
      (k l : Bytes) (xs : List A)
      → All (λ y. Before l (key y)) xs
      → All (λ y. Before l (key y)) (remove_key key k xs)
  unfolding remove_key
  All-remove k l [] s = tt
  All-remove k l (x ∷ xs) s = ground (arith, All-remove k l xs s.1)

  pub remove_key-IsSorted :
      (k : Bytes) (xs : List A) → IsSorted key xs → IsSorted key (remove_key key k xs)
  unfolding remove_key
  remove_key-IsSorted k [] s = tt
  remove_key-IsSorted k (x ∷ xs) s =
      ground (arith, All-remove k (key x) xs s.0, remove_key-IsSorted k xs s.1)

  pub find_key-remove :
      (k l : Bytes) (xs : List A)
      → IsSorted key xs
      → find_key key l (remove_key key k xs) ≡ (if bytes_equal k l then none else find_key key l xs)
  unfolding find_key remove_key
  find_key-remove k l [] s = ground arith
  find_key-remove k l (x ∷ xs) s = elim (bytes-Compared (key x) k) [
    | below e _ ↦ ground (
      arith,
      find_key-remove k l xs s.1,
      bytes_equal→eq (key x) l,
      bytes_equal→eq k l,
      bytes_compare_refl l,
    )
    | same p e ↦ ground (arith, bytes_equal→eq k l, find_key_above key k xs (rw p at s.0))
    | above e g ↦ ground (
      arith,
      find_key-remove k l xs s.1,
      bytes_equal→eq (key x) l,
      bytes_equal→eq k l,
      bytes_compare_refl l,
    )
  ]
