-- ===== src/Dmt/Guard/Laws.antt =====
-- A batch runs its steps up to the first that fails.
use datura.Prelude.{◌≡◌, refl, ap, Option, none, some, List, [], ◌∷◌}
use datura.Dmt.Guard.{new_batch, kept, guard_step, guard_steps}

module _ {E S : Type 0} where
  -- Steps that stop at the first error.
  unfoldable pub run_until_error : List (S → Option E × S) → S → Option E × S
  run_until_error [] s = (none, s)
  run_until_error (step ∷ steps) s =
      let (e, s') = step s in elim e [ none ↦ run_until_error steps s' | some x ↦ (some x, s') ]

  failed_steps :
      (steps : List (S → Option E × S)) (e : E) (s : S)
      → guard_steps steps (record { err = some e }) s ≡ (record { err = some e }, s)
  unfolding guard_steps guard_step
  failed_steps [] e s = refl
  failed_steps (step ∷ steps) e s = failed_steps steps e s

  -- A batch that starts without an error runs its steps up to the first that fails and none behind
  -- it: its error is that step's, and the state is the one that this step left.
  pub guard_steps_lem :
      (steps : List (S → Option E × S)) (s : S)
      → ((guard_steps steps new_batch s).0.err ≡ (run_until_error steps s).0)
        × ((guard_steps steps new_batch s).1 ≡ (run_until_error steps s).1)
  unfolding guard_steps guard_step run_until_error new_batch
  guard_steps_lem [] s = (refl, refl)
  guard_steps_lem (step ∷ steps) s =
      after_step (step s).0 (step s).1 (guard_steps_lem steps (step s).1)
    where
      after_step :
          (e : Option E) (t : S)
          → ((guard_steps steps (record { err = none }) t).0.err ≡ (run_until_error steps t).0)
            × ((guard_steps steps (record { err = none }) t).1 ≡ (run_until_error steps t).1)
          → ((guard_steps steps (kept (record { err = none }) e) t).0.err
              ≡ (elim e as (λ x. Option E × S) [
                | none ↦ run_until_error steps t
                | some x ↦ (some x, t)
              ]).0)
            × ((guard_steps steps (kept (record { err = none }) e) t).1
                ≡ (elim e as (λ x. Option E × S) [
                  | none ↦ run_until_error steps t
                  | some x ↦ (some x, t)
                ]).1)
      after_step none t ih = ih
      after_step (some e) t ih =
          (ap (λ p. p.0.err) (failed_steps steps e t), ap (λ p. p.1) (failed_steps steps e t))
