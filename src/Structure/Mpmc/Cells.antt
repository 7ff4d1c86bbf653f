-- ===== src/Structure/Mpmc/Cells.antt =====
-- A ring holds a bounded queue: the cells between the two positions are published, the others free.
use Prim.Native.Nat.{bit_and}
use native.Mathlib.Nat.{add-mod_right}
use datura.Prelude.{
  ℕ, zero, suc, ◌+◌, ◌-◌, ◌*◌, ◌/◌, ◌%◌, ◌^◌, ◌≤◌, ◌<◌, ◌≡◌, refl, ap, ap₂, ◌∙◌, sym, Bool, true,
  false, Option, none, some, List, [], ◌∷◌, ◌++◌, arith, length, get_or, set, length-set, leb, ◌==◌,
  if◌then◌else◌, Bool-cases, inl, inr,
}
use datura.Prelude.Bits.{bit_and_mask, one-le-pow}
use datura.Structure.Spsc.{u64_add}
use datura.Structure.Spsc.Window.{slots_in, slots_in-set_end, slots_in-set_behind, length-slots_in}
use datura.Structure.Mpmc.{
  Cell, MpmcRing, empty_cell, returns_nil, claims, round_of, cell_at, produce, consume,
}

-- Cells with a value each, at positions from `p` on, and those values.
abbrev pub Published : {A : Type 0} → ℕ → List (Cell A) → List A → Type 0
Published p [] [] = Unit
Published p [] (x ∷ xs) = ⊥
Published p (c ∷ cs) [] = ⊥
Published p (c ∷ cs) (x ∷ xs) =
    (c.sequence ≡ suc p) × (c.data_pointer ≡ some x) × Published (suc p) cs xs

-- Cells without a value that wait for the positions from `p` on.
abbrev pub Free : {A : Type 0} → ℕ → List (Cell A) → Type 0
Free p [] = Unit
Free p (c ∷ cs) = (c.sequence ≡ p) × (c.data_pointer ≡ none) × Free (suc p) cs

Free-at : {A : Type 0} (p q : ℕ) (cs ds : List (Cell A)) → p ≡ q → cs ≡ ds → Free q ds → Free p cs
Free-at p q cs ds e f h = rw (e, f) h

Published-at :
    {A : Type 0} (p q : ℕ) (cs ds : List (Cell A)) (xs : List A)
    → p ≡ q
    → cs ≡ ds
    → Published q ds xs
    → Published p cs xs
Published-at p q cs ds xs e f h = rw (e, f) h

-- The rounds of the loop.
pub behind : (d n : ℕ) → 2 ≤ n → d + n < 2 ^ 63 → round_of (suc d) (d + n) ≡ returns_nil
behind d n w b = ground arith

pub level : (d : ℕ) → d < 2 ^ 63 → round_of d d ≡ claims
level d b = ground arith

pub empty_round : (d : ℕ) → d + 1 < 2 ^ 63 → round_of d (u64_add d 1) ≡ returns_nil
empty_round d b = ground arith

pub ready_round : (d : ℕ) → d + 1 < 2 ^ 63 → round_of (suc d) (u64_add d 1) ≡ claims
ready_round d b = ground arith

module _ {A : Type 0} (bits : ℕ) where
  abbrev pub cells : MpmcRing A → ℕ → ℕ → List (Cell A)
  cells r = slots_in (2 ^ bits) (empty_cell 0) r.buffer

  -- A ring of 2 ^ bits cells, at least two, whose positions have not wrapped, with its values.
  pub record Holds (r : MpmcRing A) (values : List A) : Type 0 where
    pub wide : 2 ≤ 2 ^ bits
    pub room : length r.buffer ≡ 2 ^ bits
    pub masked : r.mask ≡ 2 ^ bits - 1
    pub count : r.enqueue_pos ≡ r.dequeue_pos + length values
    pub within : length values ≤ 2 ^ bits
    pub no_wrap : r.dequeue_pos + 2 ^ bits < 2 ^ 63
    pub published : Published r.dequeue_pos (cells r r.dequeue_pos (length values)) values
    pub free : Free r.enqueue_pos (cells r r.enqueue_pos (2 ^ bits - length values))

  Published-snoc :
      (p : ℕ) (cs : List (Cell A)) (xs : List A) (c : Cell A) (x : A)
      → Published p cs xs
      → c.sequence ≡ suc (p + length xs)
      → c.data_pointer ≡ some x
      → Published p (cs ++ (c ∷ [])) (xs ++ (x ∷ []))
  Published-snoc p [] [] c x h s d = (omega arith, d, tt)
  Published-snoc p [] (y ∷ ys) c x h s d = absurd h
  Published-snoc p (b ∷ cs) [] c x h s d = absurd h
  Published-snoc p (b ∷ cs) (y ∷ ys) c x h s d =
      (h.0, h.1, Published-snoc (suc p) cs ys c x h.2 (omega arith) d)

  Free-snoc :
      (p : ℕ) (cs : List (Cell A)) (c : Cell A)
      → Free p cs
      → c.sequence ≡ p + length cs
      → c.data_pointer ≡ none
      → Free p (cs ++ (c ∷ []))
  Free-snoc p [] c h s d = (omega arith, d, tt)
  Free-snoc p (b ∷ cs) c h s d = (h.0, h.1, Free-snoc (suc p) cs c h.2 (omega arith) d)

  index_lem : (r : MpmcRing A) (p : ℕ) → r.mask ≡ 2 ^ bits - 1 → bit_and p r.mask ≡ p % 2 ^ bits
  index_lem r p m = ap (bit_and p) m ∙ bit_and_mask bits p

  cell_lem :
      (r : MpmcRing A) (p : ℕ)
      → r.mask ≡ 2 ^ bits - 1
      → cell_at r p ≡ get_or r.buffer (p % 2 ^ bits) (empty_cell 0)
  cell_lem r p m = ap (λ (i : ℕ). get_or r.buffer i (empty_cell 0)) (index_lem r p m)

  pub head-Published :
      (r : MpmcRing A) (x : A) (xs : List A)
      → Holds r (x ∷ xs)
      → ((cell_at r r.dequeue_pos).sequence ≡ suc r.dequeue_pos)
        × ((cell_at r r.dequeue_pos).data_pointer ≡ some x)
        × Published (suc r.dequeue_pos) (cells r (suc r.dequeue_pos) (length xs)) xs
  head-Published r x xs h =
      let c = cell_lem r r.dequeue_pos h.masked in
      let p = h.published in
      (ap (λ (k : Cell A). k.sequence) c ∙ p.0, ap (λ (k : Cell A). k.data_pointer) c ∙ p.1, p.2)

  pub head-Free :
      (r : MpmcRing A) (values : List A)
      → Holds r values
      → length values < 2 ^ bits
      → ((cell_at r r.enqueue_pos).sequence ≡ r.enqueue_pos)
        × Free (suc r.enqueue_pos) (cells r (suc r.enqueue_pos) (2 ^ bits - suc (length values)))
  head-Free r values h l =
      let more : 2 ^ bits - length values ≡ suc (2 ^ bits - suc (length values)) = omega arith in
      let f : Free r.enqueue_pos (cells r r.enqueue_pos (suc (2 ^ bits - suc (length values)))) =
        rw more at h.free in
      (ap (λ (k : Cell A). k.sequence) (cell_lem r r.enqueue_pos h.masked) ∙ f.0, f.2)

  pub full_cell :
      (r : MpmcRing A) (values : List A)
      → Holds r values
      → length values ≡ 2 ^ bits
      → (cell_at r r.enqueue_pos).sequence ≡ suc r.dequeue_pos
  full_cell r [] h l = absurd (omega (arith, h.wide))
  full_cell r (x ∷ xs) h l =
      ap (λ (k : Cell A). k.sequence)
        (cell_lem r r.enqueue_pos h.masked
          ∙ ap (λ (i : ℕ). get_or r.buffer i (empty_cell 0))
              (ap (λ (i : ℕ). i % 2 ^ bits) {y = r.dequeue_pos + 2 ^ bits} (omega (arith, h.count))
                ∙ add-mod_right r.dequeue_pos (2 ^ bits)))
      ∙ h.published.0

  pub produced :
      (r : MpmcRing A) (values : List A) (x : A)
      → Holds r values
      → length values < 2 ^ bits
      → Holds (produce r x) (values ++ (x ∷ []))
  unfolding produce
  produced r values x h l =
      let n = length values in
      let c : Cell A = record { sequence = u64_add r.enqueue_pos 1; data_pointer = some x } in
      let (_, free) = head-Free r values h l in
      let i = index_lem r r.enqueue_pos h.masked in
      let len : length (values ++ (x ∷ [])) ≡ suc n =
        datura.Prelude.length-append values (x ∷ []) ∙ omega arith in
      let blank : Cell A = empty_cell 0 in
      let used : cells (produce r x) r.dequeue_pos (length (values ++ (x ∷ [])))
          ≡ cells r r.dequeue_pos n ++ (c ∷ []) =
        ap₂ (λ (j : ℕ) (k : ℕ). slots_in (2 ^ bits) blank (set r.buffer j c) r.dequeue_pos k)
          (i ∙ ap (λ (j : ℕ). j % 2 ^ bits) h.count) len
        ∙ slots_in-set_end (2 ^ bits) blank r.buffer r.dequeue_pos n c (one-le-pow bits)
            (omega (arith, h.room)) l in
      let step : u64_add r.enqueue_pos 1 ≡ suc r.enqueue_pos = omega (arith, h.count, h.no_wrap) in
      let rest : cells (produce r x) (suc r.enqueue_pos) (2 ^ bits - suc n)
          ≡ cells r (suc r.enqueue_pos) (2 ^ bits - suc n) =
        ap
          (λ (j : ℕ).
            slots_in (2 ^ bits) blank (set r.buffer j c) (suc r.enqueue_pos) (2 ^ bits - suc n))
          i
        ∙ slots_in-set_behind (2 ^ bits) blank r.buffer r.enqueue_pos (2 ^ bits - suc n) c
            (omega arith) in
      record {
        wide = h.wide;
        room = length-set r.buffer _ c ∙ h.room;
        masked = h.masked;
        count = omega (arith, h.count);
        within = omega arith;
        no_wrap = h.no_wrap;
        published = rw used (
            Published-snoc r.dequeue_pos (cells r r.dequeue_pos n) values c x h.published
              (omega (arith, h.count)) refl);
        free =
            Free-at _ _ _ _ step
              (ap₂ (λ (p : ℕ) (k : ℕ). cells (produce r x) p k) step
                  (ap (λ (k : ℕ). 2 ^ bits - k) len)
                ∙ rest)
              free;
      }

  pub consumed :
      (r : MpmcRing A) (x : A) (xs : List A)
      → Holds r (x ∷ xs)
      → r.dequeue_pos + 2 ^ bits + 1 < 2 ^ 63
      → Holds (consume r) xs
  unfolding consume
  consumed r x xs h w =
      let n = length xs in
      let k = 2 ^ bits - suc n in
      let c : Cell A = record {
        sequence = u64_add (u64_add r.dequeue_pos r.mask) 1;
        data_pointer = none;
      } in
      let blank : Cell A = empty_cell 0 in
      let i = index_lem r r.dequeue_pos h.masked in
      let (_, _, used) = head-Published r x xs h in
      let step : u64_add r.dequeue_pos 1 ≡ suc r.dequeue_pos = omega arith in
      let kept : cells (consume r) (suc r.dequeue_pos) n ≡ cells r (suc r.dequeue_pos) n =
        ap (λ (j : ℕ). slots_in (2 ^ bits) blank (set r.buffer j c) (suc r.dequeue_pos) n) i
        ∙ slots_in-set_behind (2 ^ bits) blank r.buffer r.dequeue_pos n c
            (omega (arith, h.within)) in
      let place : r.dequeue_pos % 2 ^ bits ≡ (r.enqueue_pos + k) % 2 ^ bits =
        sym (add-mod_right r.dequeue_pos (2 ^ bits))
        ∙ ap (λ (j : ℕ). j % 2 ^ bits) (omega (arith, h.count, h.within)) in
      let freed : cells (consume r) r.enqueue_pos (2 ^ bits - n)
          ≡ cells r r.enqueue_pos k ++ (c ∷ []) =
        ap₂ (λ (j : ℕ) (m : ℕ). slots_in (2 ^ bits) blank (set r.buffer j c) r.enqueue_pos m)
          {v = suc k} (i ∙ place) (omega (arith, h.within))
        ∙ slots_in-set_end (2 ^ bits) blank r.buffer r.enqueue_pos k c (one-le-pow bits)
            (omega (arith, h.room)) (omega (arith, h.within)) in
      record {
        wide = h.wide;
        room = length-set r.buffer _ c ∙ h.room;
        masked = h.masked;
        count = omega (arith, h.count);
        within = omega (arith, h.within);
        no_wrap = omega arith;
        published =
            Published-at _ _ _ _ xs step (ap (λ (p : ℕ). cells (consume r) p n) step ∙ kept) used;
        free = rw freed (
            Free-snoc r.enqueue_pos (cells r r.enqueue_pos k) c h.free
              (omega (
                arith,
                h.masked,
                h.wide,
                h.count,
                h.within,
                length-slots_in (2 ^ bits) blank r.buffer r.enqueue_pos k,
              ))
              refl);
      }
