-- ===== src/Structure/ListRing/Build.antt =====
-- `NewListRing` makes a circle of blank nodes.
use datura.Prelude.{
  ℕ, zero, suc, ◌+◌, ◌<◌, ◌≡◌, ◌≢◌, refl, ap, ◌∙◌, ap₂, false, Option, none, some, List, [], ◌∷◌,
  ◌==◌, length, map, replicate, arith, if◌then◌else◌,
}
use datura.Prelude.Int.{pos}
use datura.Structure.ListRing.{
  Node, Heap, ListRing, set_next, allocate, append_nodes, new_list_ring,
}
use datura.Structure.ListRing.Circle.{
  has, Distinct, last, next_of, prev_of, Line, Circle, Circle-closing, value-closing, map-ext,
  if-same,
}

-- `count` addresses from `from` on.
abbrev pub span : ℕ → ℕ → List ℕ
span from zero = []
span from (suc count) = from ∷ span (suc from) count

pub length-span : (from count : ℕ) → length (span from count) ≡ count
length-span from zero = refl
length-span from (suc count) = ap suc (length-span (suc from) count)

pub has-span : (from count b : ℕ) → b < from → has b (span from count) ≡ false
has-span from zero b h = refl
has-span from (suc count) b h = ground (arith, has-span (suc from) count b)

pub Distinct-span : (from count : ℕ) → Distinct (span from count)
Distinct-span from zero = tt
Distinct-span from (suc count) =
    (has-span (suc from) count from (omega arith), Distinct-span (suc from) count)

module _ {A : Type 0} where
  value_of : Heap A → ℕ → A
  value_of h a = (h.nodes a).value

  -- What the loop leaves: the nodes behind `tail`, each with the blank value, and the others as
  -- they were, but for the `next` of `tail`.
  record Appended (blank : A) (count tail : ℕ) (h : Heap A) (out : ℕ × Heap A) : Type 0 where
    its_last : out.0 ≡ last tail (span h.used count)
    its_used : out.1.used ≡ h.used + count
    line : Line out.1 tail (span h.used count)
    blanks : map (λ a. (out.1.nodes a).value) (span h.used count) ≡ replicate count blank
    next_below : (b : ℕ) → b < h.used → b ≢ tail → next_of out.1 b ≡ next_of h b
    prev_below : (b : ℕ) → b < h.used → prev_of out.1 b ≡ prev_of h b
    value_below : (b : ℕ) → b < h.used → (out.1.nodes b).value ≡ (h.nodes b).value

  -- The store behind one round.
  abbrev grown : A → ℕ → Heap A → Heap A
  grown blank tail h =
      let made = allocate (record { next = none; prev = some tail; value = blank }) h in
      set_next tail (some made.0) made.1

  next_of-grown :
      (blank : A) (tail : ℕ) (h : Heap A) (b : ℕ)
      → b < h.used
      → next_of (grown blank tail h) b ≡ (if b == tail then some h.used else next_of h b)
  unfolding allocate set_next
  next_of-grown blank tail h b l = ground arith

  prev_of-grown :
      (blank : A) (tail : ℕ) (h : Heap A) (b : ℕ)
      → tail < h.used
      → prev_of (grown blank tail h) b ≡ (if b == h.used then some tail else prev_of h b)
  unfolding allocate set_next
  prev_of-grown blank tail h b l = ground arith

  value-grown :
      (blank : A) (tail : ℕ) (h : Heap A) (b : ℕ)
      → tail < h.used
      → ((grown blank tail h).nodes b).value ≡ (if b == h.used then blank else (h.nodes b).value)
  unfolding allocate set_next
  value-grown blank tail h b l = ground arith

  used-grown : (blank : A) (tail : ℕ) (h : Heap A) → (grown blank tail h).used ≡ suc h.used
  unfolding allocate set_next
  used-grown blank tail h = refl

  append_nodes_lem :
      (blank : A) (count tail : ℕ) (h : Heap A)
      → tail < h.used
      → Appended blank count tail h (append_nodes blank count tail h)
  unfolding append_nodes allocate set_next
  append_nodes_lem blank zero tail h below = record {
    its_last = refl;
    its_used = omega arith;
    line = tt;
    blanks = refl;
    next_below = λ b l ne. refl;
    prev_below = λ b l. refl;
    value_below = λ b l. refl;
  }
  append_nodes_lem blank (suc count) tail h below =
      let a = append_nodes_lem blank count h.used (grown blank tail h) (omega arith) in
      record {
        its_last = a.its_last;
        its_used = omega (arith, a.its_used);
        line = (
          (
            a.next_below tail (omega arith) (λ e. absurd (omega arith))
                ∙ next_of-grown blank tail h tail below
                ∙ ground arith,
            a.prev_below h.used (omega arith)
                ∙ prev_of-grown blank tail h h.used below
                ∙ ground arith,
          ),
          a.line,
        );
        blanks =
            ap₂ (λ x y. x ∷ y)
              (a.value_below h.used (omega arith)
                ∙ value-grown blank tail h h.used below
                ∙ ground arith)
              a.blanks;
        next_below = λ b l ne.
            a.next_below b (omega arith) (λ e. absurd (omega arith))
            ∙ next_of-grown blank tail h b l
            ∙ ground arith;
        prev_below =
            λ b l. a.prev_below b (omega arith) ∙ prev_of-grown blank tail h b below ∙ ground arith;
        value_below =
            λ b l. a.value_below b (omega arith) ∙ value-grown blank tail h b below ∙ ground arith;
      }

  -- A ring of `suc count` nodes: a circle of fresh nodes with the blank value, behind a store whose
  -- nodes keep their links and values.
  pub record Made (blank : A) (count : ℕ) (h : Heap A) (out : Option ListRing × Heap A)
      : Type 0 where
    pub ring :
        out.0
        ≡ some (record { cursor = some h.used; first = some h.used; writes = 0; size = suc count })
    pub circle : Circle out.1 h.used (span (suc h.used) count)
    pub blanks :
        map (λ a. (out.1.nodes a).value) (span h.used (suc count)) ≡ replicate (suc count) blank

  pub new_list_ring_lem :
      (blank : A) (count : ℕ) (h : Heap A)
      → Made blank count h (new_list_ring blank (pos (suc count)) h)
  unfolding new_list_ring allocate
  new_list_ring_lem blank count h =
      let head : ℕ × Heap A = allocate (record { next = none; prev = none; value = blank }) h in
      let a = append_nodes_lem blank count h.used head.1 (omega arith) in
      let a_store : Heap A = (append_nodes blank count h.used head.1).1 in
      record {
        ring = refl;
        circle =
            Circle-closing (append_nodes blank count h.used head.1).1 h.used
              (span (suc h.used) count) (append_nodes blank count h.used head.1).0 a.line
              (Distinct-span h.used (suc count))
              (omega (arith, a.its_used, length-span (suc h.used) count)) a.its_last;
        blanks =
            map-ext (λ b. _) (λ b. (a_store.nodes b).value) (span h.used (suc count))
              (λ b. value-closing a_store h.used (append_nodes blank count h.used head.1).0 b)
            ∙ ap₂ (λ x y. x ∷ y)
                (a.value_below h.used (omega arith)
                  ∙ ap (λ (n : Node A). n.value)
                      (if-same h.used h.used (record { next = none; prev = none; value = blank })
                        (h.nodes h.used) refl))
                a.blanks;
      }
