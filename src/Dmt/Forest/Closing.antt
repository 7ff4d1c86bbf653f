-- ===== src/Dmt/Forest/Closing.antt =====
-- `Close` of a forest: which trees it closes, and a second call.
use datura.Prelude.{
  ℕ, suc, ◌≡◌, refl, ap, Bool, false, Option, none, some, List, [], ◌∷◌, ◌++◌, take, drop,
  Option-cases, inl, inr,
}
use datura.Dmt.Guard.{guard_step}
use datura.Dmt.Log.Replay.{LogError}
use datura.Dmt.Log.Store.{WriteAnswer}
use datura.Dmt.Tree.{Radix, Tree, close_tree}
use datura.Dmt.Forest.{Forest, close_all, close_forest}

module _ (radix : Radix) where
  -- Every tree closed.
  unfoldable pub close_each : (ℕ → WriteAnswer × Bool) → ℕ → List (Tree radix) → List (Tree radix)
  close_each answers index [] = []
  close_each answers index (tree ∷ trees) =
      (close_tree radix (answers index).0 (answers index).1 tree).1
      ∷ close_each answers (suc index) trees

  -- How many trees there are up to the first whose `Close` returns an error, that one included, or
  -- all of them; and that error.
  unfoldable pub up_to_failure : (ℕ → WriteAnswer × Bool) → ℕ → List (Tree radix) → ℕ
  up_to_failure answers index [] = 0
  up_to_failure answers index (tree ∷ trees) =
      let rest = up_to_failure answers (suc index) trees in
      elim (close_tree radix (answers index).0 (answers index).1 tree).0 [
        | none ↦ suc rest
        | some e ↦ 1
      ]

  unfoldable pub first_failure : (ℕ → WriteAnswer × Bool) → ℕ → List (Tree radix) → Option LogError
  first_failure answers index [] = none
  first_failure answers index (tree ∷ trees) =
      let rest = first_failure answers (suc index) trees in
      elim (close_tree radix (answers index).0 (answers index).1 tree).0 [
        | none ↦ rest
        | some e ↦ some e
      ]

  close_all-failed :
      (answers : ℕ → WriteAnswer × Bool) (index : ℕ) (e : LogError) (trees : List (Tree radix))
      → close_all radix answers index (record { err = some e }) trees
        ≡ (record { err = some e }, trees)
  unfolding close_all guard_step
  close_all-failed answers index e [] = refl
  close_all-failed answers index e (tree ∷ trees) =
      ap (λ r. (r.0, tree ∷ r.1)) (close_all-failed answers (suc index) e trees)

  -- The first step that fails is the last one that runs.
  close_all-open :
      (answers : ℕ → WriteAnswer × Bool) (index : ℕ) (trees : List (Tree radix))
      → let r = close_all radix answers index (record { err = none }) trees in
        let n = up_to_failure answers index trees in
        (r.1 ≡ close_each answers index (take n trees) ++ drop n trees)
        × (r.0.err ≡ first_failure answers index trees)
  unfolding close_all guard_step close_each up_to_failure first_failure
  close_all-open answers index [] = (refl, refl)
  close_all-open answers index (tree ∷ trees) =
      elim (Option-cases (close_tree radix (answers index).0 (answers index).1 tree).0) [
        | inl e ↦
            let (closed, failure) = close_all-open answers (suc index) trees in
            rw (e, up_to_failure, first_failure)
              (
                ap (λ rest. (close_tree radix (answers index).0 (answers index).1 tree).1 ∷ rest)
                    closed,
                failure,
              )
        | inr (error, e) ↦
            rw (e, up_to_failure, first_failure, close_all-failed answers (suc index) error trees)
              (refl, refl)
      ]

  close_all_lem :
      (answers : ℕ → WriteAnswer × Bool) (index : ℕ) (err : Option LogError)
      (trees : List (Tree radix))
      → let r = close_all radix answers index (record { err = err }) trees in
        let n : ℕ = elim err [ none ↦ up_to_failure answers index trees | some e ↦ 0 ] in
        (r.1 ≡ close_each answers index (take n trees) ++ drop n trees)
        × (r.0.err ≡ elim err [ none ↦ first_failure answers index trees | some e ↦ some e ])
  unfolding close_each
  close_all_lem answers index none trees = close_all-open answers index trees
  close_all_lem answers index (some e) trees =
      rw (close_all-failed answers index e trees) (refl, refl)

  -- `Close` of an open forest whose batch has no error closes its trees in their order, up to and
  -- with the first whose `Close` fails, or all of them, leaves those behind it as they were, and
  -- returns that failure's error or none. Where the batch has an error already it closes no tree
  -- and returns that error. A second `Close` returns the same as the first and changes nothing.
  pub close_forest_lem :
      (answers later : ℕ → WriteAnswer × Bool) (forest : Forest radix)
      → forest.closed ≡ false
      → let r = close_forest radix answers forest in
        let n : ℕ = elim forest.batch.err [
          | none ↦ up_to_failure answers 0 forest.trees
          | some e ↦ 0
        ] in
        (r.1.trees ≡ close_each answers 0 (take n forest.trees) ++ drop n forest.trees)
        × (r.0 ≡ elim forest.batch.err [
          | none ↦ first_failure answers 0 forest.trees
          | some e ↦ some e
        ])
        × (close_forest radix later r.1 ≡ r)
  unfolding close_forest
  close_forest_lem answers later forest e =
      let (closed, failure) = close_all_lem answers 0 forest.batch.err forest.trees in
      rw (e) (closed, failure, refl)
