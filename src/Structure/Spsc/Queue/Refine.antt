-- ===== src/Structure/Spsc/Queue/Refine.antt =====
-- `Push` and `Pop` on a ring are those of a bounded queue, with its two policies for a full one.
use Prim.Native.Nat.{bit_and}
use native.Mathlib.Decide.{dec_lt}
use datura.Prelude.{
  ℕ, zero, suc, ◌+◌, ◌-◌, ◌%◌, ◌^◌, ◌≤◌, ◌<◌, ◌≡◌, refl, ap, ap₂, ◌∙◌, sym, Bool, true, false, not,
  Option, none, some, List, [], ◌∷◌, ◌++◌, map, arith, length, get_or, set, length-set, All, leb,
  if◌then◌else◌, Bool-cases, inl, inr, leb-false, leb-true,
}
use datura.Prelude.Bits.{one-le-pow}
use datura.Structure.Spsc.{
  SpscRing, u64_mod, u64_add, u64_sub, empty_slot, slot_at, evict, enqueue, push, pop,
}
use datura.Structure.Spsc.Window.{slots_in, length-slots_in}
use datura.Structure.Spsc.Queue.{
  value_of, capacity, used, contents, IsValid, enqueue_lem, cleared, used-cleared,
}

abbrev pub rest_of : {A : Type 0} → List A → List A
rest_of [] = []
rest_of (x ∷ q) = q

-- A queue of at most `cap` values, oldest first: whether the push is taken, and the queue after it.
unfoldable pub push_queue : {A : Type 0} → ℕ → Bool → Bool → List A → A → Bool × List A
push_queue cap closed drop q x =
    if closed
    then (false, q)
    else (if leb cap (length q)
        then (if drop then (true, rest_of q ++ (x ∷ [])) else (false, q))
        else (true, q ++ (x ∷ [])))

unfoldable pub pop_queue : {A : Type 0} → List A → Option A × List A
pop_queue [] = (none, [])
pop_queue (x ∷ q) = (some x, q)

module _ {A : Type 0} (zero_value : A) (bits : ℕ) where
  pub length-contents :
      (r : SpscRing A)
      → IsValid zero_value bits r
      → length (contents zero_value bits r) ≡ r.head - r.tail
  length-contents r v =
      datura.Prelude.length-map (used zero_value bits r) value_of
      ∙ length-slots_in (capacity bits) (empty_slot zero_value) r.slots r.tail (r.head - r.tail)

  -- The slots with the oldest value cleared are a valid ring of the rest of the queue.
  cleared_lem :
      (r r' : SpscRing A)
      → IsValid zero_value bits r
      → r.tail < r.head
      → r'.slots ≡ cleared zero_value bits r
      → r'.tail ≡ suc r.tail
      → r'.head ≡ r.head
      → r'.mask ≡ r.mask
      → IsValid zero_value bits r'
        × (contents zero_value bits r
            ≡ (slot_at zero_value r r.tail).value ∷ contents zero_value bits r')
        × ((slot_at zero_value r r.tail).ready ≡ true)
  cleared_lem r r' v h s t e m =
      let blank = empty_slot zero_value in
      let split = used-cleared zero_value bits r v h in
      let tail_used : used zero_value bits r'
          ≡ slots_in (capacity bits) blank (cleared zero_value bits r) (suc r.tail)
              (r.head - suc r.tail) =
        rw (s, t, e) refl in
      let ready = rw split at v.all_ready in
      (
        record {
          room = rw s (length-set r.slots (bit_and r.tail r.mask) blank ∙ v.room);
          masked = m ∙ v.masked;
          ordered = omega arith;
          within = omega (arith, v.within);
          no_wrap = omega (arith, v.no_wrap);
          all_ready = rw tail_used ready.1;
        },
        ap (map value_of) split ∙ rw tail_used refl,
        ready.0,
      )

  pub evict_lem :
      (r : SpscRing A)
      → IsValid zero_value bits r
      → r.tail < r.head
      → IsValid zero_value bits (evict zero_value r)
        × (contents zero_value bits (evict zero_value r) ≡ rest_of (contents zero_value bits r))
  unfolding evict
  evict_lem r v h =
      let (v', split, _) =
        cleared_lem r (evict zero_value r) v h refl (omega (arith, v.no_wrap)) refl refl in
      (v', ap rest_of (sym split))

  -- The branches of `push`, its parts shut.
  pub push_closed : (r : SpscRing A) (x : A) → r.closed ≡ true → push zero_value r x ≡ (false, r)
  unfolding push
  push_closed r x c = rw (c, push)

  push_room :
      (r : SpscRing A) (x : A)
      → r.closed ≡ false
      → leb (length r.slots) (u64_sub r.head r.tail) ≡ false
      → push zero_value r x ≡ (true, enqueue zero_value r x)
  unfolding push
  push_room r x c f = rw (c, push) (rw f refl)

  push_evicts :
      (r : SpscRing A) (x : A)
      → r.closed ≡ false
      → leb (length r.slots) (u64_sub r.head r.tail) ≡ true
      → r.drop_oldest_on_full ≡ true
      → push zero_value r x ≡ (true, enqueue zero_value (evict zero_value r) x)
  unfolding push
  push_evicts r x c f d = rw (c, push) (rw f (rw d refl))

  push_refused :
      (r : SpscRing A) (x : A)
      → r.closed ≡ false
      → leb (length r.slots) (u64_sub r.head r.tail) ≡ true
      → r.drop_oldest_on_full ≡ false
      → push zero_value r x ≡ (false, record r { rejected = u64_add r.rejected 1 })
  unfolding push
  push_refused r x c f d = rw (c, push) (rw f (rw d refl))

  full_test :
      (r : SpscRing A)
      → IsValid zero_value bits r
      → leb (length r.slots) (u64_sub r.head r.tail)
        ≡ leb (2 ^ bits) (length (contents zero_value bits r))
  full_test r v = ap₂ leb v.room (omega (arith, v.ordered, v.no_wrap) ∙ sym (length-contents r v))

  -- A push that finds room.
  pub push_taken :
      (r : SpscRing A) (x : A)
      → IsValid zero_value bits r
      → r.closed ≡ false
      → length (contents zero_value bits r) < 2 ^ bits
      → push zero_value r x ≡ (true, enqueue zero_value r x)
  push_taken r x v c h = push_room r x c (full_test r v ∙ ground arith)

  rejected_lem :
      (r : SpscRing A)
      → IsValid zero_value bits r
      → IsValid zero_value bits (record r { rejected = u64_add r.rejected 1 })
  rejected_lem r v = record {
    room = v.room;
    masked = v.masked;
    ordered = v.ordered;
    within = v.within;
    no_wrap = v.no_wrap;
    all_ready = v.all_ready;
  }

  -- On a valid ring whose head counter does not wrap, `Push` keeps the ring valid, and takes the value
  -- or refuses it as the bounded queue does: refused when closed, or when full without eviction;
  -- behind the rest of the queue when full with eviction; behind the queue otherwise.
  pub push_refines :
      (r : SpscRing A) (x : A)
      → IsValid zero_value bits r
      → r.head + 1 < u64_mod
      → (((push zero_value r x).0, contents zero_value bits (push zero_value r x).1)
          ≡ push_queue (2 ^ bits) r.closed r.drop_oldest_on_full (contents zero_value bits r) x)
        × IsValid zero_value bits (push zero_value r x).1
  unfolding push_queue
  push_refines r x v w = elim (Bool-cases r.closed) [
    | inl c ↦ rw (push_closed r x c) (rw (c, push_queue) refl, v)
    | inr c ↦ elim (Bool-cases (leb (2 ^ bits) (length (contents zero_value bits r)))) [
      | inr f ↦
          let (v', e) =
            enqueue_lem zero_value bits r x v
              (omega (
                arith,
                leb-false (2 ^ bits) (length (contents zero_value bits r)) f,
                length-contents r v,
                v.ordered,
              ))
              w in
          rw (push_room r x c (full_test r v ∙ f)) (rw e (rw (c, push_queue) (rw f refl)), v')
      | inl f ↦
          let full : 2 ^ bits ≤ r.head - r.tail =
            omega (arith, leb-true (2 ^ bits) _ f, length-contents r v) in
          elim (Bool-cases r.drop_oldest_on_full) [
            | inl d ↦
                let (v', e) = evict_lem r v (omega (arith, one-le-pow bits)) in
                let (v'', e') =
                  enqueue_lem zero_value bits (evict zero_value r) x v'
                    (unfold evict in omega (arith, v.within, v.no_wrap, w)) (unfold evict in w) in
                rw (push_evicts r x c (full_test r v ∙ f) d)
                  (rw (e', e) (rw (c, push_queue) (rw f (rw d refl))), v'')
            | inr d ↦
                rw (push_refused r x c (full_test r v ∙ f) d)
                  (rw (c, push_queue) (rw f (rw d refl)), rejected_lem r v)
          ]
    ]
  ]

  -- `pop` where a value is queued.
  popped : SpscRing A → SpscRing A
  popped r = record r { slots = cleared zero_value bits r; tail = u64_add r.tail 1 }

  pop_ready :
      (r : SpscRing A)
      → r.tail < r.head
      → (slot_at zero_value r r.tail).ready ≡ true
      → pop zero_value r ≡ (some (slot_at zero_value r r.tail).value, popped r)
  unfolding pop popped
  pop_ready r h k = ground arith

  pub pop_empty : (r : SpscRing A) → r.head ≤ r.tail → pop zero_value r ≡ (none, r)
  unfolding pop
  pop_empty r h = ground arith

  pub pop-some :
      (r : SpscRing A)
      → IsValid zero_value bits r
      → r.tail < r.head
      → (x : A) × (r' : SpscRing A) × (pop zero_value r ≡ (some x, r'))
        × (contents zero_value bits r ≡ x ∷ contents zero_value bits r')
        × IsValid zero_value bits r'
        × (r'.tail ≡ suc r.tail)
        × (r'.head ≡ r.head)
        × (r'.closed ≡ r.closed)
  pop-some r v h =
      let (v', split, ready) =
        cleared_lem r (popped r) v h (unfold popped in refl)
          (unfold popped in omega (arith, v.no_wrap)) (unfold popped in refl)
          (unfold popped in refl) in
      (
        (slot_at zero_value r r.tail).value,
        popped r,
        pop_ready r h ready,
        split,
        v',
        unfold popped in omega (arith, v.no_wrap),
        unfold popped in refl,
        unfold popped in refl,
      )

  pub contents-empty : (r : SpscRing A) → r.head ≤ r.tail → contents zero_value bits r ≡ []
  contents-empty r h =
      ap
        (λ (n : ℕ).
          map value_of (slots_in (capacity bits) (empty_slot zero_value) r.slots r.tail n))
        {y = 0} (omega arith)

  -- On a valid ring, `Pop` keeps the ring valid and takes the oldest value of the queue, if any.
  pub pop_refines :
      (r : SpscRing A)
      → IsValid zero_value bits r
      → (((pop zero_value r).0, contents zero_value bits (pop zero_value r).1)
          ≡ pop_queue (contents zero_value bits r))
        × IsValid zero_value bits (pop zero_value r).1
  unfolding pop_queue
  pop_refines r v = elim (dec_lt r.tail r.head) [
    | yes h ↦ let (x, r', e, split, v', _, _, _) = pop-some r v h in rw (e, split) (refl, v')
    | no h ↦ rw (pop_empty r (omega arith)) (rw (contents-empty r (omega arith)) refl, v)
  ]
