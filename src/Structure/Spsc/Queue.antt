-- ===== src/Structure/Spsc/Queue.antt =====
-- A ring holds a bounded queue: what it stands for, and each operation on it.
pub mod Refine
use Prim.Native.Nat.{bit_and}
use mathlib.Core.List.{map-append}
use datura.Prelude.{
  ℕ, zero, suc, ◌+◌, ◌-◌, ◌%◌, ◌^◌, ◌≤◌, ◌<◌, ◌≡◌, refl, ap, ap₂, ◌∙◌, sym, Bool, true, false, List,
  [], ◌∷◌, ◌++◌, map, arith, length, get_or, set, length-set, All,
}
use datura.Prelude.Bits.{bit_and_mask, one-le-pow}
use datura.Structure.Spsc.{Slot, SpscRing, u64_mod, empty_slot, evict, enqueue}
use datura.Structure.Spsc.Window.{slots_in, slots_in-set_end, slots_in-set_behind}

abbrev pub IsReady : {A : Type 0} → Slot A → Type 0
IsReady s = s.ready ≡ true

abbrev pub value_of : {A : Type 0} → Slot A → A
value_of s = s.value

abbrev pub capacity : ℕ → ℕ
capacity bits = 2 ^ bits

module _ {A : Type 0} (zero_value : A) (bits : ℕ) where
  -- The slots in use, oldest first.
  abbrev pub used : SpscRing A → List (Slot A)
  used r = slots_in (capacity bits) (empty_slot zero_value) r.slots r.tail (r.head - r.tail)

  -- The queue that the ring stands for.
  abbrev pub contents : SpscRing A → List A
  contents r = map value_of (used r)

  -- A ring of 2 ^ bits slots whose counters have not wrapped.
  pub record IsValid (r : SpscRing A) : Type 0 where
    pub room : length r.slots ≡ capacity bits
    pub masked : r.mask ≡ capacity bits - 1
    pub ordered : r.tail ≤ r.head
    pub within : r.head ≤ r.tail + capacity bits
    pub no_wrap : r.head < u64_mod
    pub all_ready : All IsReady (used r)

  pub index_lem : (r : SpscRing A) (p : ℕ) → IsValid r → bit_and p r.mask ≡ p % capacity bits
  index_lem r p v = ap (bit_and p) v.masked ∙ bit_and_mask bits p

  All-snoc :
      (xs : List (Slot A)) (s : Slot A) → All IsReady xs → IsReady s → All IsReady (xs ++ (s ∷ []))
  All-snoc [] s h k = (k, tt)
  All-snoc (x ∷ xs) s h k = (h.0, All-snoc xs s h.1 k)

  -- What `enqueue` leaves in use.
  used-enqueue :
      (r : SpscRing A) (x : A)
      → IsValid r
      → r.head < r.tail + capacity bits
      → r.head + 1 < u64_mod
      → used (enqueue zero_value r x) ≡ used r ++ (record { value = x; ready = true } ∷ [])
  unfolding enqueue
  used-enqueue r x v h w =
      let blank = empty_slot zero_value in
      let s : Slot A = record { value = x; ready = true } in
      let n = r.head - r.tail in
      ap₂ (λ (i : ℕ) (k : ℕ). slots_in (capacity bits) blank (set r.slots i s) r.tail k) {v = suc n}
        (index_lem r r.head v
          ∙ ap (λ (p : ℕ). p % capacity bits) {y = r.tail + n} (omega (arith, v.ordered)))
        (omega (arith, v.ordered))
      ∙ slots_in-set_end (capacity bits) blank r.slots r.tail n s (one-le-pow bits)
          (omega (arith, v.room)) (omega (arith, v.ordered))

  pub enqueue_lem :
      (r : SpscRing A) (x : A)
      → IsValid r
      → r.head < r.tail + capacity bits
      → r.head + 1 < u64_mod
      → IsValid (enqueue zero_value r x)
        × (contents (enqueue zero_value r x) ≡ contents r ++ (x ∷ []))
  enqueue_lem r x v h w =
      let s : Slot A = record { value = x; ready = true } in
      let e = used-enqueue r x v h w in
      (
        record {
          room = unfold enqueue in length-set r.slots (bit_and r.head r.mask) s ∙ v.room;
          masked = unfold enqueue in v.masked;
          ordered = unfold enqueue in omega (arith, v.ordered);
          within = unfold enqueue in omega arith;
          no_wrap = unfold enqueue in omega arith;
          all_ready = rw e (All-snoc (used r) s v.all_ready refl);
        },
        ap (map value_of) e ∙ map-append value_of (used r) (s ∷ []),
      )

  -- The ring without its oldest value, as `pop` and the eviction of `push` leave its slots.
  abbrev pub cleared : SpscRing A → List (Slot A)
  cleared r = set r.slots (bit_and r.tail r.mask) (empty_slot zero_value)

  pub used-cleared :
      (r : SpscRing A)
      → IsValid r
      → r.tail < r.head
      → used r
        ≡ get_or r.slots (bit_and r.tail r.mask) (empty_slot zero_value)
          ∷ slots_in
              (capacity bits)
              (empty_slot zero_value)
              (cleared r)
              (suc r.tail)
              (r.head - suc r.tail)
  used-cleared r v h =
      let blank = empty_slot zero_value in
      let n = r.head - suc r.tail in
      ap (slots_in (capacity bits) blank r.slots r.tail) {y = suc n} (omega arith)
      ∙ ap₂ ◌∷◌ (ap (λ (i : ℕ). get_or r.slots i blank) (sym (index_lem r r.tail v))) (
          sym (
            ap (λ (i : ℕ). slots_in (capacity bits) blank (set r.slots i blank) (suc r.tail) n)
              (index_lem r r.tail v)
            ∙ slots_in-set_behind (capacity bits) blank r.slots r.tail n blank
                (omega (arith, v.within))))
