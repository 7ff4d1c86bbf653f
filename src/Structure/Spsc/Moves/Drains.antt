-- ===== src/Structure/Spsc/Moves/Drains.antt =====
-- Moving one ring into another: `drainInto`, and the merge of two rings.
use native.Mathlib.Decide.{dec_lt}
use datura.Prelude.{
  ℕ, zero, suc, ◌+◌, ◌-◌, ◌*◌, ◌/◌, ◌^◌, max, ◌≤◌, ◌<◌, ◌≡◌, refl, ap, ◌∙◌, sym, true, false, none,
  some, [], ◌∷◌, ◌++◌, append-nil, append_assoc, arith, length, ltb, Bool-cases, inl, inr,
}
use datura.Prelude.Bits.{one-le-pow}
use datura.Prelude.Int.{pos}
use datura.Structure.Spsc.{SpscRing, u64_mod, enqueue, new_spsc_ring, push, pop, len, drain_into}
use datura.Structure.Spsc.Queue.{contents, IsValid, enqueue_lem}
use datura.Structure.Spsc.Queue.Refine.{
  length-contents, pop-some, pop_empty, contents-empty, push_taken,
}
use datura.Structure.Spsc.Moves.{bits_len_from, grown_capacity, adopt, rounds, merge_spsc}
use datura.Structure.Spsc.Moves.Laws.{
  fresh_ring, fresh_ring-IsValid, new_spsc_ring_fresh, snapshot-contents,
}

double : (k : ℕ) → 2 ^ suc k ≡ 2 * 2 ^ k
double k = omega arith

bits_len_suc :
    (fuel n : ℕ) → bits_len_from (suc fuel) (suc n) ≡ suc (bits_len_from fuel (suc n / 2))
unfolding bits_len_from
bits_len_suc fuel n = ground arith

bits_len_step :
    (fuel n : ℕ) → n / 2 < 2 ^ bits_len_from fuel (n / 2) → n < 2 ^ bits_len_from (suc fuel) n
unfolding bits_len_from
bits_len_step fuel zero h = omega arith
bits_len_step fuel (suc n) h =
    omega
      (arith, double (bits_len_from fuel (suc n / 2)), ap (λ (k : ℕ). 2 ^ k) (bits_len_suc fuel n))

bits_len_from_lem : (fuel n : ℕ) → n ≤ fuel → n < 2 ^ bits_len_from fuel n
bits_len_from_lem zero n h = omega (arith, one-le-pow (bits_len_from 0 n))
bits_len_from_lem (suc fuel) n h =
    bits_len_step fuel n (bits_len_from_lem fuel (n / 2) (omega arith))

-- The capacity that a merge allocates is a power of two beyond what it has to hold.
pub grown_capacity_lem : (n : ℕ) → (k : ℕ) × (grown_capacity n ≡ 2 ^ k) × (n < 2 ^ k)
unfolding grown_capacity
grown_capacity_lem n = (
  bits_len_from (max n 2) (max n 2),
  refl,
  omega (arith, bits_len_from_lem (max n 2) (max n 2) (omega arith)),
)

module _ {A : Type 0} (zero_value : A) where
  drain_into-none :
      (fuel : ℕ) (r t : SpscRing A) {r' : SpscRing A}
      → pop zero_value r ≡ (none, r')
      → drain_into zero_value (suc fuel) r t ≡ (true, r', t)
  unfolding drain_into
  drain_into-none fuel r t e = rw (ap (λ p. p.0) e, drain_into) (rw (ap (λ p. p.1) e) refl)

  drain_into-some :
      (fuel : ℕ) (r t : SpscRing A) {r' t' : SpscRing A} {x : A}
      → pop zero_value r ≡ (some x, r')
      → push zero_value t x ≡ (true, t')
      → drain_into zero_value (suc fuel) r t ≡ drain_into zero_value fuel r' t'
  unfolding drain_into
  drain_into-some fuel r t e f =
      rw (ap (λ p. p.0) e, drain_into)
        (rw (ap (λ p. p.0) f) (rw (ap (λ p. p.1) e, ap (λ p. p.1) f) refl))

  -- On two valid rings, an open target with room for every value takes them all behind its own, in
  -- order, and the source is left without a value.
  pub drain_into_lem :
      (bits bits' fuel : ℕ) (r t : SpscRing A)
      → IsValid zero_value bits r
      → IsValid zero_value bits' t
      → t.closed ≡ false
      → r.head - r.tail < fuel
      → t.head + (r.head - r.tail) ≤ t.tail + 2 ^ bits'
      → t.head + (r.head - r.tail) < u64_mod
      → let out = drain_into zero_value fuel r t in
        (out.0 ≡ true)
        × (contents zero_value bits out.1 ≡ [])
        × IsValid zero_value bits out.1
        × (contents zero_value bits' out.2
            ≡ contents zero_value bits' t ++ contents zero_value bits r)
        × IsValid zero_value bits' out.2
        × (out.2.closed ≡ false)
        × (out.2.head ≡ t.head + (r.head - r.tail))
        × (out.2.tail ≡ t.tail)
  drain_into_lem bits bits' zero r t v u c h room w = absurd (omega arith)
  drain_into_lem bits bits' (suc fuel) r t v u c h room w = elim (dec_lt r.tail r.head) [
    | no l ↦
        let none_left = contents-empty zero_value bits r (omega arith) in
        rw (drain_into-none fuel r t (pop_empty zero_value bits r (omega arith)))
          (refl, none_left, v, rw none_left (sym (append-nil _)), u, c, omega arith, refl)
    | yes l ↦
        let (x, r', e, split, v', tl, hd, _) = pop-some zero_value bits r v l in
        let (u', grown) = enqueue_lem zero_value bits' t x u (omega arith) (omega arith) in
        let t' = enqueue zero_value t x in
        let hd' : t'.head ≡ suc t.head = unfold enqueue in omega arith in
        let tl' : t'.tail ≡ t.tail = unfold enqueue in refl in
        let taken =
          push_taken zero_value bits' t x u c
            (omega (arith, length-contents zero_value bits' t u, u.ordered)) in
        let (ok, none_left, v'', all, u'', c'', hd'', tl'') =
          drain_into_lem bits bits' fuel r' t' v' u' (unfold enqueue in c) (omega arith)
            (omega arith) (omega arith) in
        rw (drain_into-some fuel r t e taken) (
          ok,
          none_left,
          v'',
          all
              ∙ rw (grown, split)
                  (append_assoc (contents zero_value bits' t) (x ∷ [])
                    (contents zero_value bits r')),
          u'',
          c'',
          omega arith,
          tl'' ∙ tl',
        )
  ]

  adopt_lem :
      (k : ℕ) (r grown : SpscRing A)
      → IsValid zero_value k grown
      → IsValid zero_value k (adopt zero_value r grown)
        × (contents zero_value k (adopt zero_value r grown) ≡ contents zero_value k grown)
  unfolding adopt
  adopt_lem k r grown v = (
    record {
      room = v.room;
      masked = v.masked;
      ordered = v.ordered;
      within = v.within;
      no_wrap = v.no_wrap;
      all_ready = v.all_ready;
    },
    refl,
  )

  -- The two branches of the merge.
  merge_in_place :
      (r other : SpscRing A)
      → ltb (length r.slots) (len zero_value r + len zero_value other) ≡ false
      → let out = drain_into zero_value (rounds zero_value other) other r in
        merge_spsc zero_value r other ≡ (out.0, out.2, out.1)
  unfolding merge_spsc
  merge_in_place r other h = rw (h, merge_spsc) refl

  merge_grown :
      (r other : SpscRing A) {fresh : SpscRing A}
      → ltb (length r.slots) (len zero_value r + len zero_value other) ≡ true
      → new_spsc_ring zero_value
          (pos (grown_capacity (len zero_value r + len zero_value other)))
          r.drop_oldest_on_full
        ≡ some fresh
      → let out = drain_into zero_value (rounds zero_value r) r fresh in
        let out' = drain_into zero_value (rounds zero_value other) other out.2 in
        merge_spsc zero_value r other ≡ (true, adopt zero_value out.1 out'.2, out'.1)
  unfolding merge_spsc
  merge_grown r other h e = rw (h, merge_spsc) (rw e refl)

  count_lem :
      (bits : ℕ) (r : SpscRing A) → IsValid zero_value bits r → len zero_value r ≡ r.head - r.tail
  count_lem bits r v =
      (snapshot-contents zero_value bits r v).1 ∙ length-contents zero_value bits r v

  -- Merging one valid ring into another, open one moves every value of it behind the other's, in
  -- order, whether or not the ring has to grow: the result is true, the ring that took them is valid,
  -- at a capacity of a power of two, and the ring that gave them is valid and empty. The counters
  -- are assumed not to wrap.
  pub merge_spsc_lem :
      (bits bits' : ℕ) (r other : SpscRing A)
      → IsValid zero_value bits r
      → IsValid zero_value bits' other
      → r.closed ≡ false
      → r.head + (other.head - other.tail) < u64_mod
      → let out = merge_spsc zero_value r other in
        (k : ℕ) × (out.0 ≡ true)
        × (contents zero_value k out.1
            ≡ contents zero_value bits r ++ contents zero_value bits' other)
        × IsValid zero_value k out.1
        × (contents zero_value bits' out.2 ≡ [])
        × IsValid zero_value bits' out.2
  merge_spsc_lem bits bits' r other v u c w =
      let n = count_lem bits r v in
      let n' = count_lem bits' other u in
      elim (Bool-cases (ltb (length r.slots) (len zero_value r + len zero_value other))) [
        | inr f ↦
            let (ok, none_left, u', all, v', _, _, _) =
              drain_into_lem bits' bits (rounds zero_value other) other r u v c (omega arith)
                (ground (arith, v.room, v.ordered)) w in
            rw (merge_in_place r other f) (bits, ok, all, v', none_left, u')
        | inl t ↦
            let total = len zero_value r + len zero_value other in
            let (k, cap, room) = grown_capacity_lem total in
            let fresh = fresh_ring zero_value (2 ^ k) r.drop_oldest_on_full in
            let (_, none_left, _, all, v', c', hd, tl) =
              drain_into_lem bits k (rounds zero_value r) r fresh v
                (fresh_ring-IsValid zero_value k r.drop_oldest_on_full) refl (omega arith)
                (omega arith) (omega (arith, v.no_wrap)) in
            let (_, none_left', u', all', v'', _, _, _) =
              drain_into_lem bits' k (rounds zero_value other) other _ u v' c' (omega arith)
                (omega arith) (omega (arith, v.ordered)) in
            let (w', kept) =
              adopt_lem k (drain_into zero_value (rounds zero_value r) r fresh).1 _ v'' in
            rw
              (merge_grown r other {fresh = fresh} t
                (rw cap (new_spsc_ring_fresh zero_value k r.drop_oldest_on_full)))
              (
                k,
                refl,
                kept ∙ all' ∙ ap (λ q. q ++ contents zero_value bits' other) all,
                w',
                none_left',
                u',
              )
      ]
