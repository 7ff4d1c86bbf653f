-- ===== src/Structure/Mpmc/Moves.antt =====
-- The operations of structure/mpmc.go that move values between rings. `none` is a loop of `Push` or
-- `Pop` that starts over, which with no other caller never ends; the fuel of a drain is one round more
-- than the ring has values.
use datura.Prelude.{
  ℕ, zero, suc, ◌+◌, ◌^◌, ◌<◌, ◌≡◌, refl, ap, Bool, true, false, Option, none, some, List, [], ◌∷◌,
  length, ltb, leb, if◌then◌else◌, arith,
}
use datura.Prelude.Int.{ℤ, pos, negsuc}
use datura.Structure.Spsc.Moves.{grown_capacity}
use datura.Structure.Spsc.Queue.Refine.{pop_queue}
use datura.Structure.Mpmc.{MpmcRing, consume, new_mpmc_ring, push, pop, len}
use datura.Structure.Mpmc.Cells.{Holds}
use datura.Structure.Mpmc.Refine.{pop_value, mpmc_pop_refines}

module _ {A : Type 0} where
  -- How many rounds a drain makes at most.
  abbrev pub rounds : MpmcRing A → ℕ
  rounds r = suc (len r)

  unfoldable pub adopt : MpmcRing A → MpmcRing A → MpmcRing A
  adopt r grown = record r {
    mask = grown.mask;
    buffer = grown.buffer;
    enqueue_pos = grown.enqueue_pos;
    dequeue_pos = grown.dequeue_pos;
  }

  -- A value in front of those that a drain visits behind it.
  abbrev visit : A → Option (List A × MpmcRing A) → Option (List A × MpmcRing A)
  visit x none = none
  visit x (some (xs, r)) = some (x ∷ xs, r)

  -- `Do`: the values that the visitor gets.
  unfoldable pub drain : ℕ → MpmcRing A → Option (List A × MpmcRing A)
  drain zero r = none
  drain (suc fuel) r = elim (pop r) [
    | none ↦ none
    | some (none, r') ↦ some ([], r')
    | some (some x, r') ↦ visit x (drain fuel r')
  ]

  unfoldable pub do_all : MpmcRing A → Option (List A × MpmcRing A)
  unfolding drain
  do_all r = drain (rounds r) r

  -- `drainInto`: the result, the ring and the target.
  unfoldable pub drain_into : ℕ → MpmcRing A → MpmcRing A → Option (Bool × MpmcRing A × MpmcRing A)
  drain_into zero r target = none
  drain_into (suc fuel) r target = elim (pop r) [
    | none ↦ none
    | some (none, r') ↦ some (true, r', target)
    | some (some x, r') ↦ elim (push target x) [
      | none ↦ none
      | some (false, target') ↦ some (false, r', target')
      | some (true, target') ↦ drain_into fuel r' target'
    ]
  ]

  -- `mergeMPMC`, on two rings that are not the same: the result, the ring and the other ring.
  unfoldable pub merge_mpmc : MpmcRing A → MpmcRing A → Option (Bool × MpmcRing A × MpmcRing A)
  unfolding drain_into adopt
  merge_mpmc r other =
      let combined = len r + len other in
      if ltb (length r.buffer) combined
      then elim (new_mpmc_ring (pos (grown_capacity combined))) [
        | none ↦ some (false, r, other)
        | some fresh ↦ elim (drain_into (rounds r) r fresh) [
          | none ↦ none
          | some (_, r', fresh') ↦ elim (drain_into (rounds other) other fresh') [
            | none ↦ none
            | some (_, other', fresh'') ↦ some (true, adopt r' fresh'', other')
          ]
        ]
      ]
      else elim (drain_into (rounds other) other r) [
        | none ↦ none
        | some (ok, other', r') ↦ some (ok, r', other')
      ]

  -- The loop of `Slice`: the detached ring and the ring.
  unfoldable pub slice_loop : ℕ → MpmcRing A → MpmcRing A → Option (MpmcRing A × MpmcRing A)
  slice_loop zero r sliced = some (sliced, r)
  slice_loop (suc count) r sliced = elim (pop r) [
    | none ↦ none
    | some (none, r') ↦ some (sliced, r')
    | some (some x, r') ↦ elim (push sliced x) [
      | none ↦ none
      | some (ok, sliced') ↦ slice_loop count r' sliced'
    ]
  ]

  -- `Slice`, with a nil ring for a count that is not positive.
  unfoldable pub slice : MpmcRing A → ℤ → Option (Option (MpmcRing A) × MpmcRing A)
  unfolding slice_loop
  slice r (negsuc n) = some (none, r)
  slice r (pos count) =
      if leb count 0 then some (none, r) else elim (new_mpmc_ring (pos (grown_capacity count))) [
        | none ↦ some (none, r)
        | some fresh ↦ elim (slice_loop count r fresh) [
          | none ↦ none
          | some (sliced, r') ↦ some (some sliced, r')
        ]
      ]

  -- A drain of a ring that holds a queue, with a round more than the queue has values, visits the
  -- queue and leaves a ring without a value.
  drain_lem :
      (bits fuel : ℕ) (r : MpmcRing A) (values : List A)
      → Holds bits r values
      → r.dequeue_pos + length values + 2 ^ bits + 1 < 2 ^ 63
      → length values < fuel
      → (r' : MpmcRing A) × (drain fuel r ≡ some (values, r')) × Holds bits r' []
  unfolding drain pop_queue consume
  drain_lem bits zero r values h w f = absurd (omega (arith, f))
  drain_lem bits (suc fuel) r [] h w f =
      let (r', e, h') = mpmc_pop_refines bits r [] h (omega (arith, w)) in
      (r', rw (e, drain) refl, h')
  drain_lem bits (suc fuel) r (x ∷ values) h w f =
      let (e, h') = pop_value bits r x values h (omega (arith, w)) in
      let (r', e', h'') =
        drain_lem bits fuel (consume r) values h' (omega (arith, w)) (omega (arith, f)) in
      (r', rw (e, drain) (ap (visit x) e'), h'')

  len_lem :
      (bits : ℕ) (r : MpmcRing A) (values : List A) → Holds bits r values → len r ≡ length values
  unfolding len
  len_lem bits r values h = ground (arith, h.count, h.within, h.no_wrap, h.room)

  -- On a ring that holds a queue, whose positions do not reach 2 ^ 63, and with no other caller, the
  -- loops of `Pop` and `Do` end: `Pop` takes the oldest value, if there is one, and the ring holds the
  -- rest; `Do` hands its visitor the whole queue in its order and leaves a ring without a value.
  pub mpmc_pop-do_all :
      (bits : ℕ) (r : MpmcRing A) (values : List A)
      → Holds bits r values
      → r.dequeue_pos + length values + 2 ^ bits + 1 < 2 ^ 63
      → let out = pop_queue values in
        ((r' : MpmcRing A) × (pop r ≡ some (out.0, r')) × Holds bits r' out.1)
        × ((r' : MpmcRing A) × (do_all r ≡ some (values, r')) × Holds bits r' [])
  unfolding do_all
  mpmc_pop-do_all bits r values h w = (
    mpmc_pop_refines bits r values h (omega (arith, w)),
    drain_lem bits (rounds r) r values h w (omega (arith, len_lem bits r values h)),
  )
