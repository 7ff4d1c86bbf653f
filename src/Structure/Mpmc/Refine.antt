-- ===== src/Structure/Mpmc/Refine.antt =====
-- `Push` and `Pop` of the ring, run one at a time, are those of a bounded queue.
use native.Mathlib.Decide.{dec_lt}
use datura.Prelude.{
  ℕ, suc, ◌+◌, ◌^◌, ◌<◌, ◌≡◌, refl, ap, ◌∙◌, sym, Bool, true, false, Option, none, some, List, [],
  ◌∷◌, ◌++◌, arith, length, leb, Bool-cases, inl, inr,
}
use datura.Structure.Spsc.{u64_add}
use datura.Structure.Spsc.Queue.Refine.{push_queue, pop_queue}
use datura.Structure.Mpmc.{
  Round, returns_nil, starts_over, claims, round_of, MpmcRing, cell_at, produce, consume, push, pop,
}
use datura.Structure.Mpmc.Cells.{
  Holds, head-Published, head-Free, full_cell, produced, consumed, behind, level, empty_round,
  ready_round,
}

-- The branches of the queue that keeps its values.
queue_closed :
    {A : Type 0} (cap : ℕ) (closed : Bool) (q : List A) (x : A)
    → closed ≡ true
    → push_queue cap closed false q x ≡ (false, q)
unfolding push_queue
queue_closed cap closed q x c = rw (c, push_queue) refl

queue_room :
    {A : Type 0} (cap : ℕ) (closed : Bool) (q : List A) (x : A)
    → closed ≡ false
    → leb cap (length q) ≡ false
    → push_queue cap closed false q x ≡ (true, q ++ (x ∷ []))
unfolding push_queue
queue_room cap closed q x c f = rw (c, push_queue) (rw f refl)

queue_full :
    {A : Type 0} (cap : ℕ) (closed : Bool) (q : List A) (x : A)
    → closed ≡ false
    → leb cap (length q) ≡ true
    → push_queue cap closed false q x ≡ (false, q)
unfolding push_queue
queue_full cap closed q x c f = rw (c, push_queue) (rw f refl)

module _ {A : Type 0} (bits : ℕ) where
  push_closed : (r : MpmcRing A) (x : A) → r.closed ≡ true → push r x ≡ some (false, r)
  unfolding push
  push_closed r x c = rw (c, push) refl

  push_open :
      (r : MpmcRing A) (x : A) (round : Round)
      → r.closed ≡ false
      → round_of (cell_at r r.enqueue_pos).sequence r.enqueue_pos ≡ round
      → push r x ≡ elim round as (λ t. Option (Bool × MpmcRing A)) [
        | returns_nil ↦ some (false, r)
        | starts_over ↦ none
        | claims ↦ some (true, produce r x)
      ]
  unfolding push
  push_open r x round c e = rw (c, push) (rw e refl)

  pop_round :
      (r : MpmcRing A) (round : Round)
      → round_of (cell_at r r.dequeue_pos).sequence (u64_add r.dequeue_pos 1) ≡ round
      → pop r ≡ elim round as (λ t. Option (Option A × MpmcRing A)) [
        | returns_nil ↦ some (none, r)
        | starts_over ↦ none
        | claims ↦ some ((cell_at r r.dequeue_pos).data_pointer, consume r)
      ]
  unfolding pop
  pop_round r round e = rw (e, pop) refl

  -- On a ring that holds a queue, and with no other caller, the loop of `Push` ends: the value is
  -- refused when the ring is closed or holds as many values as it has cells, and goes behind the queue
  -- otherwise, and the ring holds the queue that results.
  pub mpmc_push_refines :
      (r : MpmcRing A) (values : List A) (x : A)
      → Holds bits r values
      → let out = push_queue (2 ^ bits) r.closed false values x in
        (r' : MpmcRing A) × (push r x ≡ some (out.0, r')) × Holds bits r' out.1
  mpmc_push_refines r values x h = elim (Bool-cases r.closed) [
    | inl c ↦ rw (queue_closed (2 ^ bits) r.closed values x c) (r, push_closed r x c, h)
    | inr c ↦ elim (dec_lt (length values) (2 ^ bits)) [
      | yes l ↦
          let room : leb (2 ^ bits) (length values) ≡ false = ground arith in
          let (sequence, _) = head-Free bits r values h l in
          rw (queue_room (2 ^ bits) r.closed values x c room) (
            produce r x,
            push_open r x claims c (
                ap (λ (s : ℕ). round_of s r.enqueue_pos) sequence
                ∙ level r.enqueue_pos (omega (arith, h.count, h.no_wrap))),
            produced bits r values x h l,
          )
      | no l ↦
          let full : leb (2 ^ bits) (length values) ≡ true = ground arith in
          let most : length values ≡ 2 ^ bits = omega (arith, h.within) in
          rw (queue_full (2 ^ bits) r.closed values x c full) (
            r,
            push_open r x returns_nil c (
                ap (λ (s : ℕ). round_of s r.enqueue_pos) (full_cell bits r values h most)
                ∙ ap (λ (p : ℕ). round_of (suc r.dequeue_pos) p)
                    (h.count ∙ ap (λ (n : ℕ). r.dequeue_pos + n) most)
                ∙ behind r.dequeue_pos (2 ^ bits) h.wide h.no_wrap),
            h,
          )
    ]
  ]

  pub pop_value :
      (r : MpmcRing A) (x : A) (xs : List A)
      → Holds bits r (x ∷ xs)
      → r.dequeue_pos + 2 ^ bits + 1 < 2 ^ 63
      → (pop r ≡ some (some x, consume r)) × Holds bits (consume r) xs
  pop_value r x xs h w =
      let (sequence, data_eq, _) = head-Published bits r x xs h in
      (
        pop_round r claims (
              ap (λ (s : ℕ). round_of s (u64_add r.dequeue_pos 1)) sequence
              ∙ ready_round r.dequeue_pos (omega arith))
            ∙ ap (λ (o : Option A). some (o, consume r)) data_eq,
        consumed bits r x xs h w,
      )

  pub mpmc_pop_refines :
      (r : MpmcRing A) (values : List A)
      → Holds bits r values
      → r.dequeue_pos + 2 ^ bits + 1 < 2 ^ 63
      → let out = pop_queue values in
        (r' : MpmcRing A) × (pop r ≡ some (out.0, r')) × Holds bits r' out.1
  unfolding pop_queue
  mpmc_pop_refines r [] h w =
      let (sequence, _) = head-Free bits r [] h (omega (arith, h.wide)) in
      let same : r.dequeue_pos ≡ r.enqueue_pos = omega (arith, h.count) in
      (
        r,
        pop_round r returns_nil (
            ap (λ (p : ℕ). round_of (cell_at r p).sequence (u64_add r.dequeue_pos 1)) same
            ∙ ap (λ (s : ℕ). round_of s (u64_add r.dequeue_pos 1)) (sequence ∙ sym same)
            ∙ empty_round r.dequeue_pos (omega arith)),
        h,
      )
  mpmc_pop_refines r (x ∷ xs) h w = let (e, h') = pop_value r x xs h w in (consume r, e, h')
