-- ===== src/Structure/ListRing/Circle.antt =====
-- Circles of linked nodes, and the writes that leave them.
use datura.Prelude.{
  ℕ, zero, suc, ◌≤◌, ◌≡◌, ◌≢◌, refl, ap, ◌∙◌, sym, ap₂, append_assoc, map, Bool, true, false, some,
  List, [], ◌∷◌, ◌++◌, ◌==◌, length, arith, if◌then◌else◌, ◌||◌, Bool-cases, ==_iff, length-append,
  inl, inr,
}
use mathlib.Core.Path.{subst}
use datura.Structure.ListRing.{Pointer, Heap, set_next, set_prev, set_value, nodes_to, nodes_of}

abbrev pub has : ℕ → List ℕ → Bool
has a [] = false
has a (x ∷ xs) = (x == a) || has a xs

abbrev pub Distinct : List ℕ → Type 0
Distinct [] = Unit {0}
Distinct (x ∷ xs) = (has x xs ≡ false) × Distinct xs

abbrev pub last : ℕ → List ℕ → ℕ
last a [] = a
last a (x ∷ xs) = last x xs

pub has-last : (a : ℕ) (xs : List ℕ) → has (last a xs) (a ∷ xs) ≡ true
has-last a [] = ground arith
has-last a (x ∷ xs) = ground (arith, has-last x xs)

pub has-append : (a : ℕ) (xs ys : List ℕ) → has a (xs ++ ys) ≡ (has a xs || has a ys)
has-append a [] ys = refl
has-append a (x ∷ xs) ys = ground (arith, has-append a xs ys)

pub last-append : (a : ℕ) (xs ys : List ℕ) → last a (xs ++ ys) ≡ last (last a xs) ys
last-append a [] ys = refl
last-append a (x ∷ xs) ys = last-append x xs ys

pub Distinct-append :
    (xs ys : List ℕ)
    → Distinct xs
    → Distinct ys
    → ((b : ℕ) → has b xs ≡ true → has b ys ≡ false)
    → Distinct (xs ++ ys)
Distinct-append [] ys d e apart = e
Distinct-append (x ∷ xs) ys (out, d) e apart = (
  rw (has-append x xs ys, out) (apart x (ground arith)),
  Distinct-append xs ys d e (λ b i. apart b (ground arith)),
)

pub apart-one :
    (a b : ℕ) (xs : List ℕ) → has a xs ≡ false → has b xs ≡ true → has b (a ∷ []) ≡ false
apart-one a b xs out i = elim (Bool-cases (a == b)) [
  | inl e ↦
      let inside : has a xs ≡ true = ap (λ (c : ℕ). has c xs) ((==_iff a b).0 e) ∙ i in absurd cc
  | inr e ↦ rw (e) refl
]

pub if-same : {B : Type 0} (a b : ℕ) (x y : B) → a ≡ b → (if a == b then x else y) ≡ x
if-same a b x y e = rw ((==_iff a b).1 e) refl

pub if-other : {B : Type 0} (a b : ℕ) (x y : B) → a ≢ b → (if a == b then x else y) ≡ y
if-other a b x y ne = elim (Bool-cases (a == b)) [
  | inl e ↦ absurd (ne ((==_iff a b).0 e))
  | inr e ↦ rw (e) refl
]

pub other_than : (a b : ℕ) (xs : List ℕ) → has a xs ≡ false → has b xs ≡ true → b ≢ a
other_than a b xs out i e =
    let inside : has a xs ≡ true = ap (λ (c : ℕ). has c xs) (sym e) ∙ i in cc

pub map-ext :
    {B C : Type 0} (f g : B → C) (xs : List B) → ((b : B) → f b ≡ g b) → map f xs ≡ map g xs
map-ext f g [] e = refl
map-ext f g (x ∷ xs) e = ap₂ (λ y ys. y ∷ ys) (e x) (map-ext f g xs e)

module _ {A : Type 0} where
  abbrev pub next_of : Heap A → ℕ → Pointer
  next_of h a = (h.nodes a).next

  abbrev pub prev_of : Heap A → ℕ → Pointer
  prev_of h a = (h.nodes a).prev

  -- The two nodes point at each other.
  abbrev pub Linked : Heap A → ℕ → ℕ → Type 0
  Linked h a b = (next_of h a ≡ some b) × (prev_of h b ≡ some a)

  -- From `a` the links lead through these nodes, in their order.
  abbrev pub Line : Heap A → ℕ → List ℕ → Type 0
  Line h a [] = Unit {0}
  Line h a (x ∷ xs) = Linked h a x × Line h x xs

  -- The links lead through distinct nodes and back.
  pub record Circle (h : Heap A) (a : ℕ) (xs : List ℕ) : Type 0 where
    pub line : Line h a xs
    pub closes : Linked h (last a xs) a
    pub distinct : Distinct (a ∷ xs)
    pub inside : length (a ∷ xs) ≤ h.used

  pub next_of-set_next :
      (a : ℕ) (p : Pointer) (h : Heap A) (b : ℕ)
      → next_of (set_next a p h) b ≡ (if b == a then p else next_of h b)
  unfolding set_next
  next_of-set_next a p h b = ground arith

  pub prev_of-set_next :
      (a : ℕ) (p : Pointer) (h : Heap A) (b : ℕ) → prev_of (set_next a p h) b ≡ prev_of h b
  unfolding set_next
  prev_of-set_next a p h b = ground arith

  pub next_of-set_prev :
      (a : ℕ) (p : Pointer) (h : Heap A) (b : ℕ) → next_of (set_prev a p h) b ≡ next_of h b
  unfolding set_prev
  next_of-set_prev a p h b = ground arith

  pub prev_of-set_prev :
      (a : ℕ) (p : Pointer) (h : Heap A) (b : ℕ)
      → prev_of (set_prev a p h) b ≡ (if b == a then p else prev_of h b)
  unfolding set_prev
  prev_of-set_prev a p h b = ground arith

  pub next_of-set_value :
      (a : ℕ) (v : A) (h : Heap A) (b : ℕ) → next_of (set_value a v h) b ≡ next_of h b
  unfolding set_value
  next_of-set_value a v h b = ground arith

  pub prev_of-set_value :
      (a : ℕ) (v : A) (h : Heap A) (b : ℕ) → prev_of (set_value a v h) b ≡ prev_of h b
  unfolding set_value
  prev_of-set_value a v h b = ground arith

  pub value-set_value :
      (a : ℕ) (v : A) (h : Heap A) (b : ℕ)
      → ((set_value a v h).nodes b).value ≡ (if b == a then v else (h.nodes b).value)
  unfolding set_value
  value-set_value a v h b = ground arith

  pub Line-append :
      (h : Heap A) (a : ℕ) (xs ys : List ℕ)
      → Line h a xs
      → Line h (last a xs) ys
      → Line h a (xs ++ ys)
  Line-append h a [] ys l m = m
  Line-append h a (x ∷ xs) ys (k, l) m = (k, Line-append h x xs ys l m)

  -- A line survives writes to other nodes, to the first one's `prev` and to the last one's `next`.
  pub Line-frame :
      (h g : Heap A) (a : ℕ) (xs : List ℕ)
      → Line h a xs
      → Distinct (a ∷ xs)
      → ((b : ℕ) → has b (a ∷ xs) ≡ true → b ≢ last a xs → next_of g b ≡ next_of h b)
      → ((b : ℕ) → has b xs ≡ true → prev_of g b ≡ prev_of h b)
      → Line g a xs
  Line-frame h g a [] l d same_next same_prev = tt
  Line-frame h g a (x ∷ xs) ((forth, back), l) (out, d) same_next same_prev = (
    (
      same_next a (ground arith) (λ e.
            let inside : has a (x ∷ xs) ≡ true = ap (λ (b : ℕ). has b (x ∷ xs)) e ∙ has-last x xs in
            cc)
          ∙ forth,
      same_prev x (ground arith) ∙ back,
    ),
    Line-frame h g x xs l d (λ b i ne. same_next b (ground arith) ne)
        (λ b i. same_prev b (ground arith)),
  )

  -- The test for the start, whatever the fuel.
  nodes_to_here : (fuel : ℕ) (a : ℕ) (h : Heap A) → nodes_to fuel (some a) a h ≡ some []
  unfolding nodes_to
  nodes_to_here zero a h = ground arith
  nodes_to_here (suc fuel) a h = ground arith

  nodes_to-Line :
      (fuel : ℕ) (h : Heap A) (x : ℕ) (xs : List ℕ) (stop : ℕ)
      → Line h x xs
      → next_of h (last x xs) ≡ some stop
      → has stop (x ∷ xs) ≡ false
      → length (x ∷ xs) ≤ fuel
      → nodes_to fuel (some x) stop h ≡ some (x ∷ xs)
  unfolding nodes_to
  nodes_to-Line zero h x xs stop l c out enough = absurd (omega arith)
  nodes_to-Line (suc fuel) h x [] stop l c out enough =
      let other : (x == stop) ≡ false = ground arith in
      rw (other, c, nodes_to_here fuel stop h) refl
  nodes_to-Line (suc fuel) h x (y ∷ ys) stop (k, l) c out enough =
      let other : (x == stop) ≡ false = ground arith in
      rw (other, k.0, nodes_to-Line fuel h y ys stop l c (ground arith) (omega (arith, enough)))
        refl

  pub nodes_of-Circle :
      (h : Heap A) (a : ℕ) (xs : List ℕ) → Circle h a xs → nodes_of a h ≡ some (a ∷ xs)
  unfolding nodes_of
  nodes_of-Circle h a [] c = rw (nodes_of, c.closes.0, nodes_to_here h.used a h) refl
  nodes_of-Circle h a (x ∷ xs) c =
      rw
        (
          nodes_of,
          c.line.0.0,
          nodes_to-Line h.used h x xs a c.line.1 c.closes.0 c.distinct.0 (omega (arith, c.inside)),
        )
        refl

  -- A circle from its next node on.
  pub Circle-rotate :
      (h : Heap A) (a x : ℕ) (xs : List ℕ) → Circle h a (x ∷ xs) → Circle h x (xs ++ (a ∷ []))
  Circle-rotate h a x xs c = record {
    line = Line-append h x xs (a ∷ []) c.line.1 (c.closes, tt);
    closes = subst (λ (b : ℕ). Linked h b x) (sym (last-append x xs (a ∷ []))) c.line.0;
    distinct =
        Distinct-append (x ∷ xs) (a ∷ []) c.distinct.1 (refl, tt)
          (λ b i. apart-one a b (x ∷ xs) c.distinct.0 i);
    inside = omega (arith, c.inside, length-append xs (a ∷ []));
  }

  -- Writes that keep all links keep a circle.
  pub Circle-frame :
      (h g : Heap A) (a : ℕ) (xs : List ℕ)
      → Circle h a xs
      → ((b : ℕ) → next_of g b ≡ next_of h b)
      → ((b : ℕ) → prev_of g b ≡ prev_of h b)
      → g.used ≡ h.used
      → Circle g a xs
  Circle-frame h g a xs c same_next same_prev used = record {
    line = Line-frame h g a xs c.line c.distinct (λ b i ne. same_next b) (λ b i. same_prev b);
    closes = (same_next _ ∙ c.closes.0, same_prev _ ∙ c.closes.1);
    distinct = c.distinct;
    inside = omega (arith, c.inside, used);
  }

  -- The links from the last node of a line to its first make it a circle.
  pub Circle-closing :
      (h : Heap A) (a : ℕ) (xs : List ℕ) (t : ℕ)
      → Line h a xs
      → Distinct (a ∷ xs)
      → length (a ∷ xs) ≤ h.used
      → t ≡ last a xs
      → Circle (set_prev a (some t) (set_next t (some a) h)) a xs
  unfolding set_prev set_next
  Circle-closing h a xs t l d inside e =
      let g = set_prev a (some t) (set_next t (some a) h) in
      let nexts : (b : ℕ) → next_of g b ≡ (if b == t then some a else next_of h b) = λ b.
        next_of-set_prev a (some t) (set_next t (some a) h) b ∙ next_of-set_next t (some a) h b in
      let prevs : (b : ℕ) → prev_of g b ≡ (if b == a then some t else prev_of h b) = λ b.
        prev_of-set_prev a (some t) (set_next t (some a) h) b
        ∙ ap (λ p. if b == a then some t else p) (prev_of-set_next t (some a) h b) in
      record {
        line =
            Line-frame h g a xs l d
              (λ b i ne. nexts b ∙ if-other b t (some a) (next_of h b) (λ p. ne (p ∙ e)))
              (λ b i. prevs b ∙ if-other b a (some t) (prev_of h b) (other_than a b xs d.0 i));
        closes = (
          ap (next_of g) (sym e) ∙ nexts t ∙ if-same t t (some a) (next_of h t) refl,
          prevs a ∙ if-same a a (some t) (prev_of h a) refl ∙ ap (λ (b : ℕ). some b) e,
        );
        distinct = d;
        inside = inside;
      }

  pub value-closing :
      (h : Heap A) (a t : ℕ) (b : ℕ)
      → ((set_prev a (some t) (set_next t (some a) h)).nodes b).value ≡ (h.nodes b).value
  unfolding set_prev set_next
  value-closing h a t b = ground arith

  -- A step from a node of a circle to the next one.
  pub Circle-step :
      (h : Heap A) (c : ℕ) (xs : List ℕ)
      → Circle h c xs
      → (g : ℕ) × (gs : List ℕ) × (xs ++ (c ∷ []) ≡ g ∷ gs) × (next_of h c ≡ some g) × Circle h g gs
  Circle-step h c [] k = (c, [], refl, k.closes.0, k)
  Circle-step h c (x ∷ xs) k = (x, xs ++ (c ∷ []), refl, k.line.0.0, Circle-rotate h c x xs k)

  -- A circle from another of its nodes on.
  pub Circle-from :
      (h : Heap A) (a : ℕ) (xs : List ℕ) (y : ℕ) (ys : List ℕ)
      → Circle h a (xs ++ (y ∷ ys))
      → Circle h y (ys ++ (a ∷ xs))
  Circle-from h a [] y ys k = Circle-rotate h a y ys k
  Circle-from h a (x ∷ xs) y ys k = subst (Circle h y) (append_assoc ys (a ∷ []) (x ∷ xs)) (
      Circle-from h x xs y (ys ++ (a ∷ [])) (
        subst (Circle h x) (append_assoc xs (y ∷ ys) (a ∷ []))
          (Circle-rotate h a x (xs ++ (y ∷ ys)) k)))
