-- ===== src/Structure/Spsc/Moves/Laws.antt =====
-- Construction, length and snapshot of a ring, in terms of the queue that it stands for.
use native.Mathlib.Decide.{dec_lt}
use datura.Prelude.{
  ℕ, zero, suc, ◌-◌, ◌^◌, ◌<◌, ◌≡◌, refl, ap, ◌∙◌, sym, Bool, true, false, none, some, [], ◌∷◌, map,
  arith, length, replicate, length-replicate, All, ◌==◌,
}
use datura.Prelude.Bits.{power_of_test, test_of_power, one-le-pow}
use datura.Prelude.Int.{pos}
use datura.Structure.Offline.{new_offline_ring}
use datura.Structure.Spsc.{
  SpscRing, empty_slot, new_spsc_ring, push, pop, len, empty, snapshot_from, snapshot, drain,
  do_all, close,
}
use datura.Structure.Spsc.Window.{slots_in}
use datura.Structure.Spsc.Queue.{IsReady, value_of, capacity, contents, IsValid, index_lem}
use datura.Structure.Spsc.Queue.Refine.{
  length-contents, pop-some, pop_empty, contents-empty, push_closed,
}

module _ {A : Type 0} (zero_value : A) where
  -- The ring that the constructor allocates.
  abbrev pub fresh_ring : ℕ → Bool → SpscRing A
  fresh_ring c drop = record {
    slots = replicate c (empty_slot zero_value);
    mask = c - 1;
    head = 0;
    tail = 0;
    dropped = 0;
    rejected = 0;
    closed = false;
    drop_oldest_on_full = drop;
  }

  pub fresh_ring-IsValid :
      (bits : ℕ) (drop : Bool) → IsValid zero_value bits (fresh_ring (2 ^ bits) drop)
  fresh_ring-IsValid bits drop = record {
    room = length-replicate (2 ^ bits) (empty_slot zero_value);
    masked = refl;
    ordered = omega arith;
    within = omega arith;
    no_wrap = omega arith;
    all_ready = tt;
  }

  pub new_spsc_ring_fresh :
      (bits : ℕ) (drop : Bool)
      → new_spsc_ring zero_value (pos (2 ^ bits)) drop ≡ some (fresh_ring (2 ^ bits) drop)
  new_spsc_ring_fresh bits drop =
      unfold new_spsc_ring in ground (arith, one-le-pow bits, test_of_power bits)

  -- `NewSPSCRing` accepts every power of two, and gives an open, empty and valid ring of that many
  -- slots with the chosen policy.
  pub new_spsc_ring_power :
      (bits : ℕ) (drop : Bool)
      → (r : SpscRing A) × (new_spsc_ring zero_value (pos (2 ^ bits)) drop ≡ some r)
        × IsValid zero_value bits r
        × (contents zero_value bits r ≡ [])
        × (r.closed ≡ false)
        × (r.drop_oldest_on_full ≡ drop)
  new_spsc_ring_power bits drop = (
    fresh_ring (2 ^ bits) drop,
    new_spsc_ring_fresh bits drop,
    fresh_ring-IsValid bits drop,
    refl,
    refl,
    refl,
  )

  -- What it accepts is a power of two.
  pub new_spsc_ring_accepts :
      (c : ℕ) (drop : Bool) {r : SpscRing A}
      → new_spsc_ring zero_value (pos c) drop ≡ some r
      → (bits : ℕ) × (c ≡ 2 ^ bits)
  new_spsc_ring_accepts c drop {r} e =
      power_of_test c (unfold new_spsc_ring in ground arith) (unfold new_spsc_ring in ground arith)

  -- The loop of `Snapshot` reads the slots in use.
  snapshot_from_lem :
      (bits : ℕ) (r : SpscRing A) (p n : ℕ)
      → IsValid zero_value bits r
      → All IsReady (slots_in (capacity bits) (empty_slot zero_value) r.slots p n)
      → snapshot_from zero_value r p n
        ≡ map value_of (slots_in (capacity bits) (empty_slot zero_value) r.slots p n)
  unfolding snapshot_from
  snapshot_from_lem bits r p zero v a = refl
  snapshot_from_lem bits r p (suc n) v a =
      let rest = snapshot_from_lem bits r (suc p) n v a.1 in
      rw (index_lem zero_value bits r p v, a.0, rest) refl

  pub snapshot-contents :
      (bits : ℕ) (r : SpscRing A)
      → IsValid zero_value bits r
      → ((snapshot zero_value r).values ≡ contents zero_value bits r)
        × (len zero_value r ≡ length (contents zero_value bits r))
        × (empty zero_value r ≡ length (contents zero_value bits r) == 0)
  unfolding snapshot new_offline_ring len empty
  snapshot-contents bits r v =
      let n = length-contents zero_value bits r v in
      (
        snapshot_from_lem bits r r.tail (r.head - r.tail) v v.all_ready,
        ground (arith, v.room, v.within, v.ordered, v.no_wrap, n),
        ground (arith, v.ordered, n),
      )

  drain-some :
      (fuel : ℕ) (r : SpscRing A) {r' : SpscRing A} {x : A}
      → pop zero_value r ≡ (some x, r')
      → drain zero_value (suc fuel) r
        ≡ (x ∷ (drain zero_value fuel r').0, (drain zero_value fuel r').1)
  unfolding drain
  drain-some fuel r e = rw (ap (λ p. p.0) e, drain) (rw (ap (λ p. p.1) e) refl)

  drain-none :
      (fuel : ℕ) (r : SpscRing A) {r' : SpscRing A}
      → pop zero_value r ≡ (none, r')
      → drain zero_value (suc fuel) r ≡ ([], r')
  unfolding drain
  drain-none fuel r e = rw (ap (λ p. p.0) e, drain) (rw (ap (λ p. p.1) e) refl)

  -- Popping until nothing is left hands out the whole queue, in order.
  drain_lem :
      (bits fuel : ℕ) (r : SpscRing A)
      → IsValid zero_value bits r
      → r.head - r.tail < fuel
      → ((drain zero_value fuel r).0 ≡ contents zero_value bits r)
        × (contents zero_value bits (drain zero_value fuel r).1 ≡ [])
        × IsValid zero_value bits (drain zero_value fuel r).1
        × ((drain zero_value fuel r).1.closed ≡ r.closed)
  drain_lem bits zero r v h = absurd (omega arith)
  drain_lem bits (suc fuel) r v h = elim (dec_lt r.tail r.head) [
    | yes l ↦
        let (x, r', e, split, v', t, hd, c) = pop-some zero_value bits r v l in
        let (vs, none_left, v'', c') = drain_lem bits fuel r' v' (omega arith) in
        rw (drain-some fuel r e, split) (ap (λ q. x ∷ q) vs, none_left, v'', c' ∙ c)
    | no l ↦
        let none_left = contents-empty zero_value bits r (omega arith) in
        rw (drain-none fuel r (pop_empty zero_value bits r (omega arith)))
          (sym none_left, none_left, v, refl)
  ]

  closed_lem :
      (bits : ℕ) (r : SpscRing A)
      → IsValid zero_value bits r
      → IsValid zero_value bits (record r { closed = true })
  closed_lem bits r v = record {
    room = v.room;
    masked = v.masked;
    ordered = v.ordered;
    within = v.within;
    no_wrap = v.no_wrap;
    all_ready = v.all_ready;
  }

  pub do_all_lem :
      (bits : ℕ) (r : SpscRing A)
      → IsValid zero_value bits r
      → ((do_all zero_value r).0 ≡ contents zero_value bits r)
        × (contents zero_value bits (do_all zero_value r).1 ≡ [])
        × IsValid zero_value bits (do_all zero_value r).1
  unfolding do_all
  do_all_lem bits r v =
      let (vs, none_left, v', _) = drain_lem bits (suc (r.head - r.tail)) r v (omega arith) in
      (vs, none_left, v')

  -- On a valid ring, `Snapshot` gives the queue, `Len` its length, and `Empty` whether it has none;
  -- `Do` hands its visitor the values of the snapshot in their order and leaves the ring valid and
  -- without a value.
  pub snapshot-do_all :
      (bits : ℕ) (r : SpscRing A)
      → IsValid zero_value bits r
      → ((snapshot zero_value r).values ≡ contents zero_value bits r)
        × (len zero_value r ≡ length (contents zero_value bits r))
        × (empty zero_value r ≡ length (contents zero_value bits r) == 0)
        × ((do_all zero_value r).0 ≡ (snapshot zero_value r).values)
        × (contents zero_value bits (do_all zero_value r).1 ≡ [])
        × IsValid zero_value bits (do_all zero_value r).1
  snapshot-do_all bits r v =
      let (values_eq, len_eq, empty_eq) = snapshot-contents bits r v in
      let (visited_eq, none_left, v') = do_all_lem bits r v in
      (values_eq, len_eq, empty_eq, visited_eq ∙ sym values_eq, none_left, v')

  -- A closed ring is empty, valid, and refuses every value.
  pub close_lem :
      (bits : ℕ) (r : SpscRing A) (x : A)
      → IsValid zero_value bits r
      → (contents zero_value bits (close zero_value r) ≡ [])
        × IsValid zero_value bits (close zero_value r)
        × (push zero_value (close zero_value r) x ≡ (false, close zero_value r))
  unfolding close do_all
  close_lem bits r x v =
      let (_, none_left, v', c) =
        drain_lem bits (suc (r.head - r.tail)) (record r { closed = true }) (closed_lem bits r v)
          (omega arith) in
      (none_left, v', push_closed zero_value bits (close zero_value r) x c)
