-- ===== src/Structure/Spsc/Moves.antt =====
-- The operations of structure/spsc.go that move values between rings.
pub mod Laws
pub mod Drains
use datura.Prelude.{
  ℕ, zero, suc, ◌+◌, ◌-◌, ◌/◌, ◌^◌, max, Bool, true, false, Option, none, some, List, [], ◌∷◌,
  length, ltb, leb, ◌==◌, if◌then◌else◌,
}
use datura.Prelude.Int.{ℤ, pos, negsuc}
use datura.Structure.Spsc.{SpscRing, new_spsc_ring, push, pop, len, drain_into}

-- `bits.Len`: the number of bits of `n`. Each round halves `n`, so `n` is fuel enough.
unfoldable pub bits_len_from : ℕ → ℕ → ℕ
bits_len_from zero n = 0
bits_len_from (suc fuel) n = let rest = bits_len_from fuel (n / 2) in if n == 0 then 0 else suc rest

-- `1 << uint(bits.Len(uint(max(n, 2))))`
unfoldable pub grown_capacity : ℕ → ℕ
unfolding bits_len_from
grown_capacity n = 2 ^ bits_len_from (max n 2) (max n 2)

module _ {A : Type 0} (zero_value : A) where
  unfoldable pub adopt : SpscRing A → SpscRing A → SpscRing A
  adopt r grown = record r {
    slots = grown.slots;
    mask = grown.mask;
    head = grown.head;
    tail = grown.tail;
  }

  -- How many rounds `drainInto` makes at most.
  abbrev pub rounds : SpscRing A → ℕ
  rounds r = suc (r.head - r.tail)

  -- `mergeSPSC`, on two rings that are not the same: the result, the ring and the other ring.
  unfoldable pub merge_spsc : SpscRing A → SpscRing A → Bool × SpscRing A × SpscRing A
  unfolding adopt grown_capacity
  merge_spsc r other =
      let combined = len zero_value r + len zero_value other in
      if ltb (length r.slots) combined
      then (elim (new_spsc_ring zero_value (pos (grown_capacity combined)) r.drop_oldest_on_full) [
        | none ↦ (false, r, other)
        | some fresh ↦
            let (_, r', fresh') = drain_into zero_value (rounds r) r fresh in
            let (_, other', fresh'') = drain_into zero_value (rounds other) other fresh' in
            (true, adopt r' fresh'', other')
      ])
      else (let (ok, other', r') = drain_into zero_value (rounds other) other r in (ok, r', other'))

  -- The default case of `Merge`: a push of each value that the other ring's `Do` visits.
  unfoldable pub push_all : SpscRing A → List A → Bool × SpscRing A
  push_all r [] = (true, r)
  push_all r (x ∷ xs) =
      let (ok, r') = push zero_value r x in
      let (rest, r'') = push_all r' xs in (if ok then rest else false, r'')

  -- The loop of `Slice`.
  unfoldable pub slice_loop : ℕ → SpscRing A → SpscRing A → SpscRing A × SpscRing A
  slice_loop zero r sliced = (sliced, r)
  slice_loop (suc count) r sliced =
      let (x, r') = pop zero_value r in
      elim x [ none ↦ (sliced, r') | some v ↦ slice_loop count r' (push zero_value sliced v).1 ]

  -- `Slice`: the detached ring, nil for a count that is not positive, and the ring.
  unfoldable pub slice : SpscRing A → ℤ → Option (SpscRing A) × SpscRing A
  unfolding slice_loop grown_capacity
  slice r (negsuc n) = (none, r)
  slice r (pos count) =
      if leb count 0
      then (none, r)
      else (elim (new_spsc_ring zero_value (pos (grown_capacity count)) false) [
        | none ↦ (none, r)
        | some fresh ↦ let (sliced, r') = slice_loop count r fresh in (some sliced, r')
      ])
