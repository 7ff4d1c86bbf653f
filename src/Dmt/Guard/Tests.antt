-- ===== src/Dmt/Guard/Tests.antt =====
-- A batch at concrete steps.
use datura.Prelude.{ℕ, ◌+◌, ◌*◌, ◌≡◌, refl, Option, none, some, List, [], ◌∷◌}
use datura.Dmt.Guard.{new_batch, guard_step, guard_steps}

-- The second of three steps fails with the error 7, and has changed the state.
abbrev steps : List (ℕ → Option ℕ × ℕ)
steps = (λ n. (none, n + 1)) ∷ (λ n. (some 7, n * 10)) ∷ (λ n. (none, n + 5)) ∷ []

steps_run : guard_steps steps new_batch 2 ≡ (record { err = some 7 }, 30)
unfolding guard_steps guard_step new_batch
steps_run = refl
