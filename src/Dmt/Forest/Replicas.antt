-- ===== src/Dmt/Forest/Replicas.antt =====
-- The trees of a forest hold one root: what `AddTree` and `Insert` leave in them.
use datura.Prelude.{
  ℕ, zero, suc, ◌+◌, ◌≡◌, refl, ap, ◌∙◌, sym, Bool, true, false, Option, none, some, List, [], ◌∷◌,
  get_elem?, set, arith, ◌==◌, All, Bool-cases, Option-cases, inl, inr,
}
use datura.Prelude.Bytes.{Bytes}
use datura.Dmt.Log.Store.{Answer, Store}
use datura.Dmt.Log.Replay.{LogError}
use datura.Dmt.Tree.{Radix, Tree, insert, end_op, persisted}
use datura.Dmt.Forest.{catch_up, catch_up_all, insert_all}

-- What a forest relies on in iradix: one pointer is one tree.
pub record RootLaws (radix : Radix) : Type 0 where
  pub same→eq : (a b : radix.Root) → radix.same a b ≡ true → a ≡ b

module _ (radix : Radix) where
  -- All trees have this root.
  abbrev pub Rooted : radix.Root → List (Tree radix) → Type 0
  Rooted root trees = All (λ tree. tree.root ≡ root) trees

  pub Rooted-elem :
      (root : radix.Root) (trees : List (Tree radix)) (i : ℕ) (u : Tree radix)
      → Rooted root trees
      → get_elem? trees i ≡ some u
      → u.root ≡ root
  Rooted-elem root [] i u a e = absurd cc
  Rooted-elem root (tree ∷ trees) zero u (h, a) e =
      ap (λ o. elim o [ none ↦ tree.root | some t ↦ t.root ]) (sym e) ∙ h
  Rooted-elem root (tree ∷ trees) (suc i) u (h, a) e = Rooted-elem root trees i u a e

  pub Rooted-set :
      (root : radix.Root) (trees : List (Tree radix)) (i : ℕ) (u : Tree radix)
      → Rooted root trees
      → u.root ≡ root
      → Rooted root (set trees i u)
  Rooted-set root [] i u a e = tt
  Rooted-set root (tree ∷ trees) zero u (h, a) e = (e, a)
  Rooted-set root (tree ∷ trees) (suc i) u (h, a) e = (h, Rooted-set root trees i u a e)

  pub end_op-root :
      (track : Bool) (nanos : ℕ) (tree : Tree radix)
      → (end_op radix track nanos tree).root ≡ tree.root
  unfolding end_op
  end_op-root true nanos tree = refl
  end_op-root false nanos tree = refl

  persisted-root :
      (step : Store → Option LogError × Store) (tree : Tree radix)
      → (persisted radix step tree).root ≡ tree.root
  unfolding persisted
  persisted-root step tree = elim (Option-cases tree.persist) [
    | inl e ↦ rw (e) refl
    | inr (store, e) ↦ rw (e) refl
  ]

  module _ (laws : RootLaws radix) where
    insert-root :
        (answer : Answer) (nanos : ℕ) (key value : Bytes) (tree : Tree radix)
        → (insert radix answer nanos key value tree).0.root ≡ radix.insert key value tree.root
    unfolding insert
    insert-root answer nanos key value tree =
        elim (Bool-cases (radix.same (radix.insert key value tree.root) tree.root)) [
          | inl e ↦ rw (e) (end_op-root _ nanos tree ∙ sym (laws.same→eq _ _ e))
          | inr e ↦ rw (e) (end_op-root _ nanos _ ∙ persisted-root _ _)
        ]

    pub Rooted-insert_all :
        (answers : ℕ → Answer) (nanos : ℕ → ℕ) (key value : Bytes) (index : ℕ) (root : radix.Root)
        (trees : List (Tree radix))
        → Rooted root trees
        → Rooted
            (radix.insert key value root)
            (insert_all radix answers nanos key value index trees)
    unfolding insert_all
    Rooted-insert_all answers nanos key value index root [] a = tt
    Rooted-insert_all answers nanos key value index root (tree ∷ trees) (h, a) = (
      insert-root (answers index) (nanos index) key value tree ∙ ap (radix.insert key value) h,
      Rooted-insert_all answers nanos key value (suc index) root trees a,
    )

    catch_up-root :
        (reference tree : Tree radix) → (catch_up radix reference tree).root ≡ reference.root
    unfolding catch_up
    catch_up-root reference tree = elim (Bool-cases (radix.same tree.root reference.root)) [
      | inl e ↦ rw (e) (laws.same→eq _ _ e)
      | inr e ↦ rw (e) refl
    ]

    pub Rooted-catch_up_all :
        (ref : ℕ) (reference : Tree radix) (index : ℕ) (trees : List (Tree radix))
        → ((i : ℕ) (u : Tree radix)
            → get_elem? trees i ≡ some u
            → index + i ≡ ref
            → u.root ≡ reference.root)
        → Rooted reference.root (catch_up_all radix ref reference index trees)
    unfolding catch_up_all
    Rooted-catch_up_all ref reference index [] h = tt
    Rooted-catch_up_all ref reference index (tree ∷ trees) h = (
      elim (Bool-cases (index == ref)) [
        | inl e ↦ rw (e) (h 0 tree refl (ground arith))
        | inr e ↦ rw (e) (catch_up-root reference tree)
      ],
      Rooted-catch_up_all ref reference (suc index) trees
          (λ i u e at_ref. h (suc i) u e (omega (arith, at_ref))),
    )
