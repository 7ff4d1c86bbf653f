-- ===== src/Dmt/SortedSlice.antt =====
-- Slices kept in the order of their keys, as dmt/merkle_snapshot.go and dmt/peers.go keep theirs:
-- Go's `sort.Search`, and the slice expressions by which a copy gains or loses an element.
pub mod Laws
pub mod Update
use datura.Prelude.{
  ℕ, zero, suc, ◌+◌, ◌/◌, Bool, true, not, Option, none, some, List, [], ◌∷◌, ◌++◌, ltb,
  if◌then◌else◌, length, get_elem?, take, drop, All, Ordering,
}
use datura.Prelude.Bytes.{Bytes, bytes_compare, bytes_lt, bytes_equal, Before}

-- The loop of `sort.Search` over the half-open range from `i` to `j`. A round at least halves the
-- range, so the length of the range is fuel enough.
unfoldable pub search_loop : ℕ → (ℕ → Bool) → ℕ → ℕ → ℕ
search_loop zero f i j = i
search_loop (suc fuel) f i j =
    let h = (i + j) / 2 in
    let right = search_loop fuel f (h + 1) j in
    let left = search_loop fuel f i h in if ltb i j then (if f h then left else right) else i

unfoldable pub search_first : ℕ → (ℕ → Bool) → ℕ
unfolding search_loop
search_first n f = search_loop n f 0 n

module _ {A : Type 0} (key : A → Bytes) where
  -- The predicate handed to `sort.Search`: `bytes.Compare(xs[index].Key, k) >= 0`.
  abbrev pub reached : List A → Bytes → ℕ → Bool
  reached xs k i = elim (get_elem? xs i) [ none ↦ true | some x ↦ not (bytes_lt (key x) k) ]

  unfoldable pub lower_bound : List A → Bytes → ℕ
  unfolding search_first
  lower_bound xs k = search_first (length xs) (reached xs k)

  -- `index < len(xs) && xs[index].Key == k`
  abbrev pub key_at : List A → ℕ → Bytes → Option A
  key_at xs i k = elim (get_elem? xs i) [
    | none ↦ none
    | some x ↦ if bytes_equal (key x) k then some x else none
  ]

  abbrev pub IsSorted : List A → Type 0
  IsSorted [] = Unit {0}
  IsSorted (x ∷ xs) = All (λ y. Before (key x) (key y)) xs × IsSorted xs

  -- The element under a key, by a plain scan.
  unfoldable pub find_key : Bytes → List A → Option A
  find_key k [] = none
  find_key k (x ∷ xs) = if bytes_equal (key x) k then some x else find_key k xs

  -- An ordered map's insertion and removal, by a plain scan.
  unfoldable pub put_key : A → List A → List A
  put_key v [] = v ∷ []
  put_key v (x ∷ xs) =
      let rest = put_key v xs in
      elim (bytes_compare (key x) (key v)) [
        | Ordering.lt ↦ x ∷ rest
        | Ordering.eq ↦ v ∷ xs
        | Ordering.gt ↦ v ∷ x ∷ xs
      ]

  unfoldable pub remove_key : Bytes → List A → List A
  remove_key k [] = []
  remove_key k (x ∷ xs) =
      let rest = remove_key k xs in if bytes_equal (key x) k then xs else x ∷ rest

-- `copy(next[:i], xs[:i]); next[i] = v; copy(next[i+1:], xs[i:])`
abbrev pub insert_at : {A : Type 0} → List A → ℕ → A → List A
insert_at xs i v = take i xs ++ (v ∷ drop i xs)

-- `copy(next[:i], xs[:i]); copy(next[i:], xs[i+1:])`
abbrev pub remove_at : {A : Type 0} → List A → ℕ → List A
remove_at xs i = take i xs ++ drop (suc i) xs
