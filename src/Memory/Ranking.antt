-- ===== src/Memory/Ranking.antt =====
-- The order of the hits, and what a stable sort makes of them.
use datura.Prelude.{
  ◌≡◌, refl, ap, ◌∙◌, sym, Bool, true, false, List, [], ◌∷◌, All, arith, Bool-cases, inl, inr,
}
use mathlib.Core.List.{Perm}
use datura.Prelude.Bytes.{Bytes, bytes_lt, bytes-Compared, below, same, above, Before-trans}
use datura.Memory.{Strings, Floats, ScoredDocument, precedes}

-- A number, which equals itself, as a NaN does not.
abbrev pub IsNumber : (floats : Floats) → floats.Double → Type 0
IsNumber floats a = floats.equal a a ≡ true

-- IEEE 754 comparisons, on float64 with its NaNs.
pub record FloatLaws (floats : Floats) : Type 0 where
  pub equal-sym : (a b : floats.Double) → floats.equal a b ≡ floats.equal b a
  pub equal-trans :
      (a b c : floats.Double)
      → floats.equal a b ≡ true
      → floats.equal b c ≡ true
      → floats.equal a c ≡ true
  pub equal_less : (a b : floats.Double) → floats.equal a b ≡ true → floats.less a b ≡ false
  pub less-asym : (a b : floats.Double) → floats.less a b ≡ true → floats.less b a ≡ false
  pub less_through :
      (a b c : floats.Double)
      → IsNumber floats b
      → floats.less a b ≡ false
      → floats.less b c ≡ false
      → floats.less a c ≡ false
  pub total :
      (a b : floats.Double)
      → IsNumber floats a
      → IsNumber floats b
      → floats.less a b ≡ false
      → floats.less b a ≡ false
      → floats.equal a b ≡ true

-- A comparison that is a strict weak order on the elements that are `P`.
pub record WeakOrder {A : Type 0} (P : A → Type 0) (less : A → A → Bool) : Type 0 where
  pub asym : (a b : A) → P a → P b → less a b ≡ true → less b a ≡ false
  pub through :
      (a b c : A) → P a → P b → P c → less a b ≡ false → less b c ≡ false → less a c ≡ false

-- No element is less than one in front of it.
abbrev pub Ordered : {A : Type 0} → (A → A → Bool) → List A → Type 0
Ordered less [] = Unit {0}
Ordered less (x ∷ l) = All (λ y. less y x ≡ false) l × Ordered less l

-- `sort.SliceStable` on elements of a type: it moves them, and sorts by a strict weak order.
pub record SliceStable {A : Type 0} (sort : (A → A → Bool) → List A → List A) : Type 1 where
  pub moves : (less : A → A → Bool) (l : List A) → Perm l (sort less l)
  pub sorts :
      (P : A → Type 0) (less : A → A → Bool)
      → WeakOrder P less
      → (l : List A) → All P l
      → Ordered less (sort less l)

bytes_lt-asym : (a b : Bytes) → bytes_lt a b ≡ true → bytes_lt b a ≡ false
bytes_lt-asym a b h = elim (bytes-Compared a b) [
  | below e f ↦ ground (arith, f)
  | same p e ↦ absurd (ground arith)
  | above e f ↦ absurd (ground arith)
]

bytes_lt_through :
    (a b c : Bytes) → bytes_lt a b ≡ false → bytes_lt b c ≡ false → bytes_lt a c ≡ false
bytes_lt_through a b c h k = elim (bytes-Compared a b) [
  | below e f ↦ absurd (ground arith)
  | same p e ↦ ap (λ x. bytes_lt x c) p ∙ k
  | above e f ↦ elim (bytes-Compared b c) [
    | below e' f' ↦ absurd (ground arith)
    | same p e' ↦ ap (bytes_lt a) (sym p) ∙ h
    | above e' f' ↦ ground (arith, bytes_lt-asym c a, Before-trans c b a f' f)
  ]
]

module _ (strings : Strings) (floats : Floats) (Metadata : Type 0) where
  abbrev pub Hit : Type 0
  Hit = ScoredDocument strings floats Metadata

  abbrev pub HasNumber : Hit → Type 0
  HasNumber hit = IsNumber floats hit.score

  -- The hit may stand in front of the other: its score is not less, and where the two are equal its
  -- identifier is not greater.
  abbrev pub MayLead : Hit → Hit → Type 0
  MayLead a b =
      (floats.less a.score b.score ≡ false)
      × (floats.equal a.score b.score ≡ true → bytes_lt b.document.id a.document.id ≡ false)

  -- Each hit may stand in front of all behind it.
  abbrev pub Ranked : List Hit → Type 0
  Ranked [] = Unit {0}
  Ranked (x ∷ hits) = All (MayLead x) hits × Ranked hits

  abbrev pub before : Hit → Hit → Bool
  before a b = precedes strings floats Metadata a b

  module _ (laws : FloatLaws floats) where
    before-equal :
        (a b : Hit)
        → floats.equal a.score b.score ≡ true
        → before a b ≡ bytes_lt a.document.id b.document.id
    before-equal a b e = rw (before, e) refl

    before-other :
        (a b : Hit)
        → floats.equal a.score b.score ≡ false
        → before a b ≡ floats.less b.score a.score
    before-other a b e = rw (before, e) refl

    before-asym : (a b : Hit) → before a b ≡ true → before b a ≡ false
    before-asym a b h = elim (Bool-cases (floats.equal a.score b.score)) [
      | inl e ↦
          before-equal b a (laws.equal-sym b.score a.score ∙ e)
          ∙ bytes_lt-asym a.document.id b.document.id (sym (before-equal a b e) ∙ h)
      | inr e ↦
          before-other b a (laws.equal-sym b.score a.score ∙ e)
          ∙ laws.less-asym b.score a.score (sym (before-other a b e) ∙ h)
    ]

    before_through :
        (a b c : Hit)
        → HasNumber a
        → HasNumber b
        → HasNumber c
        → before a b ≡ false
        → before b c ≡ false
        → before a c ≡ false
    before_through a b c na nb nc h k = elim (Bool-cases (floats.equal a.score b.score)) [
      | inl e ↦ elim (Bool-cases (floats.equal b.score c.score)) [
        | inl f ↦
            before-equal a c (laws.equal-trans a.score b.score c.score e f)
            ∙ bytes_lt_through a.document.id b.document.id c.document.id
                (sym (before-equal a b e) ∙ h) (sym (before-equal b c f) ∙ k)
        | inr f ↦ elim (Bool-cases (floats.equal a.score c.score)) [
          | inl g ↦
              let same_scores : floats.equal b.score c.score ≡ true =
                laws.equal-trans b.score a.score c.score (laws.equal-sym b.score a.score ∙ e) g in
              absurd cc
          | inr g ↦
              before-other a c g
              ∙ laws.less_through c.score b.score a.score nb (sym (before-other b c f) ∙ k)
                  (laws.equal_less b.score a.score (laws.equal-sym b.score a.score ∙ e))
        ]
      ]
      | inr e ↦ elim (Bool-cases (floats.equal a.score c.score)) [
        | inl g ↦
            let ab : floats.less b.score a.score ≡ false = sym (before-other a b e) ∙ h in
            elim (Bool-cases (floats.equal b.score c.score)) [
              | inl f ↦
                  let same_scores : floats.equal a.score b.score ≡ true =
                    laws.equal-trans a.score c.score b.score g
                      (laws.equal-sym c.score b.score ∙ f) in
                  absurd cc
              | inr f ↦
                  let cb : floats.less c.score b.score ≡ false = sym (before-other b c f) ∙ k in
                  let ab' : floats.less a.score b.score ≡ false =
                    laws.less_through a.score c.score b.score nc (laws.equal_less a.score c.score g)
                      cb in
                  let same_scores : floats.equal a.score b.score ≡ true =
                    laws.total a.score b.score na nb ab' ab in
                  absurd cc
            ]
        | inr g ↦
            let ab : floats.less b.score a.score ≡ false = sym (before-other a b e) ∙ h in
            let cb : floats.less c.score b.score ≡ false =
              elim (Bool-cases (floats.equal b.score c.score)) [
                | inl f ↦ laws.equal_less c.score b.score (laws.equal-sym c.score b.score ∙ f)
                | inr f ↦ sym (before-other b c f) ∙ k
              ] in
            before-other a c g ∙ laws.less_through c.score b.score a.score nb cb ab
      ]
    ]

    before-WeakOrder : WeakOrder HasNumber before
    before-WeakOrder = record { asym = λ a b na nb h. before-asym a b h; through = before_through }

    before-MayLead : (a b : Hit) → before b a ≡ false → MayLead a b
    before-MayLead a b h = elim (Bool-cases (floats.equal b.score a.score)) [
      | inl e ↦ (
        laws.equal_less a.score b.score (laws.equal-sym a.score b.score ∙ e),
        λ k. sym (before-equal b a e) ∙ h,
      )
      | inr e ↦ (
        sym (before-other b a e) ∙ h,
        λ k. absurd (absurd_equal (sym (laws.equal-sym a.score b.score) ∙ k) e),
      )
    ]
      where
        absurd_equal : {x : Bool} → x ≡ true → x ≡ false → ⊥
        absurd_equal p q = cc

    All-MayLead :
        (a : Hit) (hits : List Hit) → All (λ b. before b a ≡ false) hits → All (MayLead a) hits
    All-MayLead a [] h = tt
    All-MayLead a (b ∷ hits) (h, rest) = (before-MayLead a b h, All-MayLead a hits rest)

    Ordered-Ranked : (hits : List Hit) → Ordered before hits → Ranked hits
    Ordered-Ranked [] h = tt
    Ordered-Ranked (a ∷ hits) (h, rest) = (All-MayLead a hits h, Ordered-Ranked hits rest)

    -- A stable sort ranks hits whose scores are numbers.
    pub sort-Ranked :
        (sort : (Hit → Hit → Bool) → List Hit → List Hit) (hits : List Hit)
        → SliceStable sort
        → All HasNumber hits
        → Ranked (sort (precedes strings floats Metadata) hits)
    sort-Ranked sort hits stable numbers =
        Ordered-Ranked _ (stable.sorts HasNumber before before-WeakOrder hits numbers)
