-- ===== src/Dmt/Latency/Bounds.antt =====
-- The average lies between the least and the greatest latency that was recorded.
use datura.Prelude.{
  ℕ, zero, suc, ◌+◌, ◌-◌, ◌*◌, ◌/◌, ◌%◌, ◌^◌, ◌≤◌, ◌<◌, ◌≡◌, refl, ap, ◌∙◌, true, false, Option,
  none, some, List, [], ◌∷◌, length, set, replicate, length-set, length-replicate, ltb, ◌==◌,
  if◌then◌else◌, All, arith, Bool-cases, inl, inr, ◌⊎◌,
}
use native.Mathlib.Nat.{le-div_iff_mul-le, div-le_of_le-mul, mod-lt, suc-mul, add-mul, mul-add}
use datura.Prelude.Int.{pos}
use datura.Dmt.Latency.{Latency, new_latency, record_duration, add_slots, divide, average}

-- A latency between these, or an empty slot.
abbrev pub Within : ℕ → ℕ → ℕ → Type 0
Within low high v = (v ≡ 0) ⊎ ((low ≤ v) × (v ≤ high))

-- How many slots are not empty.
abbrev used : List ℕ → ℕ
used [] = 0
used (v ∷ slots) = if v == 0 then used slots else suc (used slots)

All-set : (P : ℕ → Type 0) (slots : List ℕ) (i v : ℕ) → All P slots → P v → All P (set slots i v)
All-set P [] i v a p = tt
All-set P (x ∷ slots) zero v (q, a) p = (p, a)
All-set P (x ∷ slots) (suc i) v (q, a) p = (q, All-set P slots i v a p)

used-set : (slots : List ℕ) (i v : ℕ) → i < length slots → 1 ≤ v → 1 ≤ used (set slots i v)
used-set [] i v l p = absurd (omega arith)
used-set (x ∷ slots) zero v l p = ground arith
used-set (x ∷ slots) (suc i) v l p = ground (arith, used-set slots i v (omega arith) p)

used-length : (slots : List ℕ) → used slots ≤ length slots
used-length [] = omega arith
used-length (x ∷ slots) = ground (arith, used-length slots)

-- The sum does not wrap, and lies between the multiples of the count.
add_slots_lem :
    (low high : ℕ) (slots : List ℕ) (sum count : ℕ)
    → All (Within low high) slots
    → sum + length slots * high < 2 ^ 63
    → low * count ≤ sum
    → sum ≤ count * high
    → let r = add_slots slots sum count in
      (r.1 ≡ count + used slots) × (r.0 < 2 ^ 63) × (low * r.1 ≤ r.0) × (r.0 ≤ r.1 * high)
unfolding add_slots
add_slots_lem low high [] sum count a b l h = (omega arith, omega arith, l, h)
add_slots_lem low high (v ∷ slots) sum count (w, a) b l h = elim (Bool-cases (v == 0)) [
  | inl e ↦
      rw (e, add_slots)
        (add_slots_lem low high slots sum count a (omega (arith, b, suc-mul (length slots) high)) l
          h)
  | inr e ↦
      let (least, most) = bounded w e in
      let fits : (sum + v) % 2 ^ 64 ≡ sum + v =
        omega (arith, b, suc-mul (length slots) high, most) in
      let (n, small, above, below) =
        add_slots_lem low high slots (sum + v) (count + 1) a
          (omega (arith, b, suc-mul (length slots) high, most))
          (omega (arith, l, least, mul-add low count 1))
          (omega (arith, h, most, add-mul count 1 high)) in
      rw (e, add_slots, fits) (omega (arith, n), small, above, below)
]
  where
    bounded : Within low high v → (v == 0) ≡ false → (low ≤ v) × (v ≤ high)
    bounded (inl z) e = absurd (ground arith)
    bounded (inr bounds) e = bounds

-- Durations that are all between these.
abbrev pub Between : ℕ → ℕ → ℕ → Type 0
Between low high d = (low ≤ d) × (d ≤ high)

unfoldable pub record_all : List ℕ → Latency → Option Latency
record_all [] latency = some latency
record_all (d ∷ ds) latency = elim (record_duration d latency) [
  | none ↦ none
  | some latency' ↦ record_all ds latency'
]

-- The window behind some recordings.
record Filled (low high size : ℕ) (latency : Latency) : Type 0 where
  its_size : latency.size ≡ size
  its_length : length latency.slots ≡ size
  within : All (Within low high) latency.slots

record_duration-Filled :
    (low high size d : ℕ) (latency : Latency)
    → Between low high d
    → 1 ≤ low
    → Filled low high (suc size) latency
    → (latency' : Latency) × (record_duration d latency ≡ some latency')
      × Filled low high (suc size) latency'
      × (1 ≤ used latency'.slots)
unfolding record_duration
record_duration-Filled low high size d latency bounds positive f =
    let index : ℕ = (((latency.head + 1) % 2 ^ 64 + 2 ^ 64) - 1) % 2 ^ 64 in
    let slot : ℕ = index % latency.size in
    let inside : slot < length latency.slots = omega (
      arith,
      mod-lt index {m = latency.size} (omega (arith, f.its_size)),
      f.its_size,
      f.its_length,
    ) in
    let some_size : (latency.size == 0) ≡ false = ground (arith, f.its_size) in
    (
      record latency { slots = set latency.slots slot d; head = (latency.head + 1) % 2 ^ 64 },
      rw (record_duration, some_size) refl,
      record {
        its_size = f.its_size;
        its_length = length-set latency.slots slot d ∙ f.its_length;
        within = All-set (Within low high) latency.slots slot d f.within (inr bounds);
      },
      used-set latency.slots slot d inside (omega (arith, bounds.0)),
    )

record_all-Filled :
    (low high size : ℕ) (ds : List ℕ) (latency : Latency)
    → All (Between low high) ds
    → 1 ≤ low
    → Filled low high (suc size) latency
    → 1 ≤ used latency.slots + length ds
    → (latency' : Latency) × (record_all ds latency ≡ some latency')
      × Filled low high (suc size) latency'
      × (1 ≤ used latency'.slots)
unfolding record_all
record_all-Filled low high size [] latency a p f u = (latency, refl, f, omega (arith, u))
record_all-Filled low high size (d ∷ ds) latency (b, a) p f u =
    let (latency', done, f', u') = record_duration-Filled low high size d latency b p f in
    let (out, all_done, rest, used_out) =
      record_all-Filled low high size ds latency' a p f' (omega (arith, u')) in
    (out, rw (record_all, done) all_done, rest, used_out)

average_lem :
    (low high size : ℕ) (latency : Latency)
    → suc size * high < 2 ^ 63
    → Filled low high (suc size) latency
    → 1 ≤ used latency.slots
    → (m : ℕ) × (average latency ≡ pos m) × (low ≤ m) × (m ≤ high)
unfolding average divide
average_lem low high size latency bound f u =
    let (n, small, above, below) =
      add_slots_lem low high latency.slots 0 0 f.within
        (omega (arith, bound, ap (λ (n : ℕ). n * high) f.its_length)) (omega arith) (omega arith) in
    let sum : ℕ = (add_slots latency.slots 0 0).0 in
    let count : ℕ = (add_slots latency.slots 0 0).1 in
    let counted : (count == 0) ≡ false = ground (arith, n, u) in
    let positive : ltb sum (2 ^ 63) ≡ true = ground (arith, small) in
    (
      sum / count,
      rw (average, counted, positive) refl,
      (le-div_iff_mul-le {k = count} {x = low} {y = sum} (omega (arith, n, u))).1 above,
      div-le_of_le-mul count below,
    )

replicate-Within : (low high n : ℕ) → All (Within low high) (replicate n 0)
replicate-Within low high zero = tt
replicate-Within low high (suc n) = (inl refl, replicate-Within low high n)

-- A window of a positive size records every latency, and behind at least one of them, all from
-- `low` to `high`, of which the first is positive, the average is from `low` to `high` too. The
-- size times `high` fits an int64.
pub record_all-average :
    (low high size : ℕ) (ds : List ℕ)
    → All (Between low high) ds
    → 1 ≤ low
    → 1 ≤ length ds
    → suc size * high < 2 ^ 63
    → (latency : Latency) × (m : ℕ) × (record_all ds (new_latency (suc size)) ≡ some latency)
      × (average latency ≡ pos m)
      × (low ≤ m)
      × (m ≤ high)
unfolding new_latency
record_all-average low high size ds a positive some_ds bound =
    let fresh : Filled low high (suc size) (new_latency (suc size)) = record {
      its_size = refl;
      its_length = length-replicate (suc size) 0;
      within = replicate-Within low high (suc size);
    } in
    let (latency, done, f, u) =
      record_all-Filled low high size ds (new_latency (suc size)) a positive fresh
        (omega (arith, some_ds)) in
    let (m, is, least, most) = average_lem low high size latency bound f u in
    (latency, m, done, is, least, most)
