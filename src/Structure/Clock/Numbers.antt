-- ===== src/Structure/Clock/Numbers.antt =====
-- The slots of a cut, in a list whose ingest sequences count up.
use datura.Prelude.{
  ℕ, zero, suc, ◌+◌, ◌-◌, ◌≤◌, ◌≡◌, refl, ap, ◌∙◌, sym, Bool, true, false, List, [], ◌∷◌, ◌++◌,
  length, take, drop, ltb, leb, arith, Bool-cases, inl, inr,
}
use mathlib.Core.Path.{subst}
use datura.Structure.Clock.{RingOps, ClockSlot}
use datura.Structure.Clock.Cuts.{ClockCut, filter, in_cut}
use datura.Structure.Clock.Rings.{drop_all}

take_nil {ℓ} : {A : Type ℓ} (n : ℕ) → take {A = A} n [] ≡ []
take_nil zero = refl
take_nil (suc n) = refl

module _ {K T : Type 0} where
  -- The ingest sequences count up behind `n`.
  abbrev pub Numbered : ℕ → List (ClockSlot K T) → Type 0
  Numbered n [] = Unit {0}
  Numbered n (slot ∷ slots) = (slot.ingest_sequence ≡ suc n) × Numbered (suc n) slots

  pub Numbered-append :
      (n : ℕ) (slots : List (ClockSlot K T)) (slot : ClockSlot K T)
      → Numbered n slots
      → slot.ingest_sequence ≡ suc (n + length slots)
      → Numbered n (slots ++ (slot ∷ []))
  Numbered-append n [] slot a h = (h ∙ omega arith, tt)
  Numbered-append n (x ∷ slots) slot (e, a) h =
      (e, Numbered-append (suc n) slots slot a (h ∙ omega arith))

  pub drop-Numbered :
      (m n : ℕ) (slots : List (ClockSlot K T)) → Numbered n slots → Numbered (n + m) (drop m slots)
  drop-Numbered zero n slots a = subst (λ k. Numbered k slots) {x = n} (omega arith) a
  drop-Numbered (suc m) n [] a = tt
  drop-Numbered (suc m) n (x ∷ slots) (e, a) =
      subst (λ k. Numbered k (drop m slots)) {x = suc n + m} (omega arith)
        (drop-Numbered m (suc n) slots a)

module _ {K T : Type 0} (same_key : K → K → Bool) (ring : RingOps (ClockSlot K T)) where
  abbrev pub cut_out : ℕ → ClockCut → List (ClockSlot K T) → List (ClockSlot K T)
  cut_out after cut = filter (in_cut K T same_key ring after cut)

  -- The slots behind the cursor.
  filter-behind :
      (n after : ℕ) (cut : ClockCut) (slots : List (ClockSlot K T))
      → after ≤ n
      → Numbered n slots
      → cut_out after cut slots ≡ take (cut.through - n) slots
  unfolding filter
  filter-behind n after cut [] h a = sym (take_nil (cut.through - n))
  filter-behind n after cut (x ∷ slots) h (e, a) =
      let rest = filter-behind (suc n) after cut slots (omega arith) a in
      elim (Bool-cases (leb cut.through n)) [
        | inl end ↦
            let test : in_cut K T same_key ring after cut x ≡ false = ground (arith, e, end) in
            rw (test, filter)
              (rest
                ∙ ap (λ k. take k slots) {y = 0} (ground (arith, end))
                ∙ ap (λ k. take k (x ∷ slots)) {x = 0} (ground (arith, end)))
        | inr more ↦
            let test : in_cut K T same_key ring after cut x ≡ true = ground (arith, e, more) in
            rw (test, filter)
              (ap (λ xs. x ∷ xs) rest
                ∙ ap (λ k. take k (x ∷ slots)) {x = suc (cut.through - suc n)}
                    (ground (arith, more)))
      ]

  -- The slots of a cut are consecutive.
  pub filter-in_cut :
      (n after : ℕ) (cut : ClockCut) (slots : List (ClockSlot K T))
      → n ≤ after
      → Numbered n slots
      → cut_out after cut slots ≡ take (cut.through - after) (drop (after - n) slots)
  unfolding filter
  filter-in_cut n after cut [] h a = sym (
      ap (take (cut.through - after)) (drop_all (after - n) [] (omega arith))
      ∙ take_nil (cut.through - after))
  filter-in_cut n after cut (x ∷ slots) h (e, a) = elim (Bool-cases (ltb n after)) [
    | inr last ↦
        filter-behind n after cut (x ∷ slots) (ground (arith, last)) (e, a)
        ∙ ap (λ m. take (cut.through - n) (drop m (x ∷ slots))) {x = 0} {y = after - n}
            (ground (arith, last))
        ∙ ap (λ k. take k (drop (after - n) (x ∷ slots))) {y = cut.through - after}
            (ground (arith, h, last))
    | inl before ↦
        let test : in_cut K T same_key ring after cut x ≡ false = ground (arith, e, before) in
        rw (test, filter)
          (filter-in_cut (suc n) after cut slots (ground (arith, before)) a
            ∙ ap (λ k. take (cut.through - after) (drop k (x ∷ slots))) {x = suc (after - suc n)}
                (ground (arith, before)))
  ]
