-- ===== src/Structure/Offline/Laws.antt =====
-- What the operations of an offline ring do to its values.
use native.Mathlib.Decide.{dec_lt}
use datura.Prelude.{
  ℕ, zero, suc, ◌+◌, ◌-◌, min, ◌≤◌, ◌<◌, ◌≡◌, refl, ap, ap₂, ◌∙◌, sym, List, [], ◌∷◌, ◌++◌,
  append_assoc, arith, length, set, length-append, length-drop, take, drop,
}
use datura.Prelude.Int.{pos}
use datura.Structure.Offline.{OfflineRing, push, slice, new_offline_ring}

module _ {A : Type 0} where
  -- One push after another.
  unfoldable pub push_each : OfflineRing A → List A → OfflineRing A
  push_each r [] = r
  push_each r (x ∷ xs) = push_each (push r x) xs

  length-take : (xs : List A) (n : ℕ) → n ≤ length xs → length (take n xs) ≡ n
  length-take xs zero h = refl
  length-take [] (suc n) h = absurd (omega arith)
  length-take (x ∷ xs) (suc n) h = ap suc (length-take xs n (omega arith))

  take-splice :
      (xs w : List A) (i : ℕ) (x : A)
      → i ≤ length xs
      → take (suc i) (take i xs ++ (x ∷ w)) ≡ take i xs ++ (x ∷ [])
  take-splice xs w zero x h = refl
  take-splice [] w (suc i) x h = absurd (omega arith)
  take-splice (y ∷ xs) w (suc i) x h = ap (λ t. y ∷ t) (take-splice xs w i x (omega arith))

  drop-splice :
      (xs : List A) (i j : ℕ) (x : A)
      → i ≤ length xs
      → i < j
      → drop j (take i xs ++ (x ∷ drop (suc i) xs)) ≡ drop j xs
  drop-splice xs i zero x h l = absurd (omega arith)
  drop-splice [] zero (suc zero) x h l = refl
  drop-splice [] zero (suc (suc j)) x h l = refl
  drop-splice (y ∷ xs) zero (suc j) x h l = refl
  drop-splice [] (suc i) (suc j) x h l = absurd (omega arith)
  drop-splice (y ∷ xs) (suc i) (suc j) x h l = drop-splice xs i j x (omega arith) (omega arith)

  take-all : (xs : List A) (n : ℕ) → length xs ≤ n → take n xs ≡ xs
  take-all [] zero h = refl
  take-all [] (suc n) h = refl
  take-all (x ∷ xs) zero h = absurd (omega arith)
  take-all (x ∷ xs) (suc n) h = ap (λ t. x ∷ t) (take-all xs n (omega arith))

  drop-all : (xs : List A) (n : ℕ) → length xs ≤ n → drop n xs ≡ []
  drop-all [] zero h = refl
  drop-all [] (suc n) h = refl
  drop-all (x ∷ xs) zero h = absurd (omega arith)
  drop-all (x ∷ xs) (suc n) h = drop-all xs n (omega arith)

  take-drop : (xs : List A) (n : ℕ) → take n xs ++ drop n xs ≡ xs
  take-drop xs zero = refl
  take-drop [] (suc n) = refl
  take-drop (x ∷ xs) (suc n) = ap (λ t. x ∷ t) (take-drop xs n)

  set-split :
      (xs : List A) (i : ℕ) (x : A)
      → i < length xs
      → set xs i x ≡ take i xs ++ (x ∷ drop (suc i) xs)
  set-split [] i x h = absurd (omega arith)
  set-split (y ∷ xs) zero x h = refl
  set-split (y ∷ xs) (suc i) x h = ap (λ t. y ∷ t) (set-split xs i x (omega arith))

  -- A push replaces the value under the cursor, or goes behind the last one; the cursor ends behind
  -- the pushed value.
  push_lem :
      (r : OfflineRing A) (x : A)
      → r.cursor ≤ length r.values
      → ((push r x).values ≡ take r.cursor r.values ++ (x ∷ drop (suc r.cursor) r.values))
        × ((push r x).cursor ≡ suc r.cursor)
  unfolding push
  push_lem r x h = elim (dec_lt r.cursor (length r.values)) [
    | yes l ↦ ground (arith, set-split r.values r.cursor x l)
    | no l ↦ ground (
      arith,
      take-all r.values r.cursor (omega arith),
      drop-all r.values (suc r.cursor) (omega arith),
      length-append r.values (x ∷ []),
    )
  ]

  splice :
      (v xs : List A) (c : ℕ) (x : A)
      → c ≤ length v
      → let v' = take c v ++ (x ∷ drop (suc c) v) in
        take (suc c) v' ++ (xs ++ drop (suc c + length xs) v')
        ≡ take c v ++ ((x ∷ xs) ++ drop (c + length (x ∷ xs)) v)
  splice v xs c x h =
      ap₂ (λ a b. a ++ (xs ++ b)) (take-splice v (drop (suc c) v) c x h)
        (drop-splice v c (suc c + length xs) x h (omega arith)
          ∙ ap (λ (n : ℕ). drop n v) (omega arith))
      ∙ append_assoc (take c v) (x ∷ []) (xs ++ drop (c + length (x ∷ xs)) v)

  -- Pushing values from a cursor within the ring on writes them over what stands there, past the
  -- end where they are more, and leaves the values before and behind them, and the cursor behind them.
  pub push_each-values :
      (r : OfflineRing A) (xs : List A)
      → r.cursor ≤ length r.values
      → ((push_each r xs).values
          ≡ take r.cursor r.values ++ (xs ++ drop (r.cursor + length xs) r.values))
        × ((push_each r xs).cursor ≡ r.cursor + length xs)
  unfolding push_each
  push_each-values r [] h = (
    sym (take-drop r.values r.cursor)
        ∙ ap (λ (n : ℕ). take r.cursor r.values ++ drop n r.values) (omega arith),
    omega arith,
  )
  push_each-values r (x ∷ xs) h =
      let (vs, at) = push_lem r x h in
      let vs' = take r.cursor r.values ++ (x ∷ drop (suc r.cursor) r.values) in
      let room : length vs' ≡ r.cursor + suc (length (drop (suc r.cursor) r.values)) =
        length-append (take r.cursor r.values) _
        ∙ ap (λ (n : ℕ). n + suc (length (drop (suc r.cursor) r.values)))
            (length-take r.values r.cursor h) in
      let (vs'', at') = push_each-values (push r x) xs (rw (vs, at) (omega arith)) in
      (vs'' ∙ rw (vs, at) (splice r.values xs r.cursor x h), at' ∙ omega arith)

  slice_within :
      (r : OfflineRing A) (count : ℕ)
      → r.cursor < length r.values
      → 0 < count
      → slice r (pos count)
        ≡ new_offline_ring
            (take (min (r.cursor + count) (length r.values) - r.cursor) (drop r.cursor r.values))
  unfolding slice
  slice_within r count l h = ground arith

  take-clamped :
      (xs : List A) (c n count : ℕ)
      → length xs ≡ n - c
      → c < n
      → take (min (c + count) n - c) xs ≡ take count xs
  take-clamped xs c n count e h = elim (dec_lt n (c + count)) [
    | no l ↦ ap (λ (k : ℕ). take k xs) (omega arith)
    | yes l ↦
        take-all xs (min (c + count) n - c) (omega arith) ∙ sym (take-all xs count (omega arith))
  ]

  -- `Slice` of a positive count is that many values from the cursor on, fewer where the ring ends
  -- before; a cursor past the end and a count of 0 give none.
  pub slice-take :
      (r : OfflineRing A) (count : ℕ)
      → slice r (pos count) ≡ new_offline_ring (take count (drop r.cursor r.values))
  unfolding slice
  slice-take r zero = refl
  slice-take r (suc count) = elim (dec_lt r.cursor (length r.values)) [
    | no l ↦ ground (arith, drop-all r.values r.cursor (omega arith))
    | yes l ↦
        slice_within r (suc count) l (omega arith)
        ∙ ap new_offline_ring (
            take-clamped (drop r.cursor r.values) r.cursor (length r.values) (suc count)
              (length-drop r.cursor r.values) (omega arith))
  ]
