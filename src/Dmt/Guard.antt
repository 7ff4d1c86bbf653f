-- ===== src/Dmt/Guard.antt =====
-- dmt/guard.go: the batch that keeps the first error of a sequence of guarded steps. A step is a
-- function of the state that it works on. The operation's name, which errnie adds to an error, is
-- left out.
pub mod Laws
mod Tests
use datura.Prelude.{Bool, true, false, Option, none, some, List, [], ◌∷◌}

pub record Batch (E : Type 0) : Type 0 where
  pub err : Option E

unfoldable pub new_batch : {E : Type 0} → Batch E
new_batch = record { err = none }

unfoldable pub reset : {E : Type 0} → Batch E → Batch E
reset batch = record batch { err = none }

unfoldable pub failed : {E : Type 0} → Batch E → Bool
failed batch = elim batch.err [ none ↦ false | some _ ↦ true ]

-- The batch after a step that returned this error.
abbrev pub kept : {E : Type 0} → Batch E → Option E → Batch E
kept batch none = batch
kept batch (some e) = record { err = some e }

module _ {E S : Type 0} where
  -- `guardValue`, with the zero value of the result.
  unfoldable pub guard_value {ℓ} :
      {A : Type ℓ} → A → (S → A × Option E × S) → Batch E → S → A × Batch E × S
  guard_value zero_value step batch s = elim batch.err [
    | some _ ↦ (zero_value, batch, s)
    | none ↦ let (value, e, s') = step s in (value, kept batch e, s')
  ]

  unfoldable pub guard_step : (S → Option E × S) → Batch E → S → Batch E × S
  guard_step step batch s = elim batch.err [
    | some _ ↦ (batch, s)
    | none ↦ let (e, s') = step s in (kept batch e, s')
  ]

  -- One guarded step after another, with one batch.
  unfoldable pub guard_steps : List (S → Option E × S) → Batch E → S → Batch E × S
  guard_steps [] batch s = (batch, s)
  guard_steps (step ∷ steps) batch s =
      let (batch', s') = guard_step step batch s in guard_steps steps batch' s'
