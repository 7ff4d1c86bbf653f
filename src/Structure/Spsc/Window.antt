-- ===== src/Structure/Spsc/Window.antt =====
-- The slots between two counters of a ring, and what writing a slot does to them.
use native.Mathlib.Nat.{div-add-mod}
use native.Mathlib.Decide.{dec_lt}
use datura.Prelude.{
  ℕ, zero, suc, ◌+◌, ◌-◌, ◌*◌, ◌/◌, ◌%◌, ◌≤◌, ◌<◌, ◌≡◌, ◌≢◌, refl, ap, ap₂, ◌∙◌, sym, List, [], ◌∷◌,
  ◌++◌, arith, length, get_or, set, get_or-set_self, get_or-set_ne,
}

no_lap : (c p q d : ℕ) → 0 < d → d < c → c * q ≡ c * p + d → ⊥
no_lap c p q d h k e = elim (dec_lt p q) [
  | yes l ↦ above (q - suc p) (e' (omega arith))
  | no l ↦ below (p - q) (omega arith) e
]
  where
    e' : q ≡ suc p + (q - suc p) → c * (suc p + (q - suc p)) ≡ c * p + d
    e' s = rw (← s) e

    above : (u : ℕ) → c * (suc p + u) ≡ c * p + d → ⊥
    above u s = omega arith

    below : (u : ℕ) → p ≡ q + u → c * q ≡ c * p + d → ⊥
    below u s t = omega (arith, ap (λ (x : ℕ). c * x) s)

-- Two counters less than a lap apart have different slots.
pub mod_ne : (c a d : ℕ) → 0 < d → d < c → (a + d) % c ≢ a % c
mod_ne c a d h k e =
    no_lap c (a / c) ((a + d) / c) d h k (omega (arith, div-add-mod a c, div-add-mod (a + d) c, e))

module _ {A : Type 0} (cap : ℕ) (blank : A) where
  -- The `n` slots from counter `p` on.
  abbrev pub slots_in : List A → ℕ → ℕ → List A
  slots_in slots p zero = []
  slots_in slots p (suc n) = get_or slots (p % cap) blank ∷ slots_in slots (suc p) n

  pub length-slots_in : (slots : List A) (p n : ℕ) → length (slots_in slots p n) ≡ n
  length-slots_in slots p zero = refl
  length-slots_in slots p (suc n) = ap suc (length-slots_in slots (suc p) n)

  slots_in-set_ne :
      (slots : List A) (i p n : ℕ) (s : A)
      → ((j : ℕ) → j < n → i ≢ (p + j) % cap)
      → slots_in (set slots i s) p n ≡ slots_in slots p n
  slots_in-set_ne slots i p zero s h = refl
  slots_in-set_ne slots i p (suc n) s h =
      ap₂ ◌∷◌
        (get_or-set_ne slots s blank
          (λ e. h 0 (omega arith) (e ∙ ap (λ (t : ℕ). t % cap) (omega arith))))
        (slots_in-set_ne slots i (suc p) n s
          (λ j l e. h (suc j) (omega arith) (e ∙ ap (λ (t : ℕ). t % cap) (omega arith))))

  slots_in-snoc :
      (slots : List A) (p n : ℕ)
      → slots_in slots p (suc n) ≡ slots_in slots p n ++ (get_or slots ((p + n) % cap) blank ∷ [])
  slots_in-snoc slots p zero = ap (λ (t : ℕ). get_or slots (t % cap) blank ∷ []) (omega arith)
  slots_in-snoc slots p (suc n) =
      ap (λ xs. get_or slots (p % cap) blank ∷ xs)
        (slots_in-snoc slots (suc p) n
          ∙ ap (λ (t : ℕ). slots_in slots (suc p) n ++ (get_or slots (t % cap) blank ∷ []))
              (omega arith))

  -- A write just past a window extends it.
  pub slots_in-set_end :
      (slots : List A) (p n : ℕ) (s : A)
      → 0 < cap
      → cap ≤ length slots
      → n < cap
      → slots_in (set slots ((p + n) % cap) s) p (suc n) ≡ slots_in slots p n ++ (s ∷ [])
  slots_in-set_end slots p n s pos room h =
      slots_in-snoc (set slots ((p + n) % cap) s) p n
      ∙ ap₂ (λ xs x. xs ++ (x ∷ []))
          (slots_in-set_ne slots ((p + n) % cap) p n s (λ j l e.
            mod_ne cap (p + j) (n - j) (omega arith) (omega arith)
              (ap (λ (t : ℕ). t % cap) (omega arith) ∙ e)))
          (get_or-set_self slots ((p + n) % cap) s blank (omega arith))

  -- A write just behind a window leaves it alone.
  pub slots_in-set_behind :
      (slots : List A) (p n : ℕ) (s : A)
      → n < cap
      → slots_in (set slots (p % cap) s) (suc p) n ≡ slots_in slots (suc p) n
  slots_in-set_behind slots p n s h = slots_in-set_ne slots (p % cap) (suc p) n s (λ j l e.
      mod_ne cap p (suc j) (omega arith) (omega arith)
        (ap (λ (t : ℕ). t % cap) (omega arith) ∙ sym e))
