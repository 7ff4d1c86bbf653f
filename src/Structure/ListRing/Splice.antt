-- ===== src/Structure/ListRing/Splice.antt =====
-- `Merge` of two rings that share no node: `link` makes one circle of the two.
use datura.Prelude.{
  ℕ, suc, ◌+◌, ◌≤◌, ◌≡◌, ◌≢◌, refl, ap, ◌∙◌, sym, true, false, some, List, [], ◌∷◌, ◌++◌, ◌==◌, min,
  length, length-append, arith, if◌then◌else◌, Bool-cases, inl, inr,
}
use mathlib.Core.Path.{subst}
use datura.Structure.ListRing.{
  ◌>>=◌, Heap, ListRing, set_next, set_prev, link, measure, measured, merge,
}
use datura.Structure.ListRing.Circle.{
  has, Distinct, last, next_of, prev_of, Linked, Line, Circle, has-last, has-append, last-append,
  Distinct-append, Line-append, Line-frame, if-same, if-other, other_than, nodes_of-Circle,
}
use datura.Structure.ListRing.Push.{initialized_lem}

module _ {A : Type 0} (h : Heap A) (c o t n : ℕ) where
  -- The store behind the four writes of `link`.
  abbrev pub spliced : Heap A
  spliced = set_next t (some n) (set_prev n (some t) (set_prev o (some c) (set_next c (some o) h)))

  next_of-spliced :
      (b : ℕ)
      → next_of spliced b ≡ (if b == t then some n else (if b == c then some o else next_of h b))
  unfolding set_next set_prev
  next_of-spliced b = ground arith

  prev_of-spliced :
      (b : ℕ)
      → prev_of spliced b ≡ (if b == n then some t else (if b == o then some c else prev_of h b))
  unfolding set_next set_prev
  prev_of-spliced b = ground arith

  pub value-spliced : (b : ℕ) → (spliced.nodes b).value ≡ (h.nodes b).value
  unfolding set_next set_prev
  value-spliced b = ground arith

  used-spliced : spliced.used ≡ h.used
  unfolding set_next set_prev
  used-spliced = refl

  next_at_tail : next_of spliced t ≡ some n
  next_at_tail = next_of-spliced t ∙ if-same t t (some n) _ refl

  next_at_cursor : c ≢ t → next_of spliced c ≡ some o
  next_at_cursor ne =
      next_of-spliced c ∙ if-other c t (some n) _ ne ∙ if-same c c (some o) (next_of h c) refl

  next_elsewhere : (b : ℕ) → b ≢ t → b ≢ c → next_of spliced b ≡ next_of h b
  next_elsewhere b ne ne' =
      next_of-spliced b ∙ if-other b t (some n) _ ne ∙ if-other b c (some o) (next_of h b) ne'

  prev_at_next : prev_of spliced n ≡ some t
  prev_at_next = prev_of-spliced n ∙ if-same n n (some t) _ refl

  prev_at_other : o ≢ n → prev_of spliced o ≡ some c
  prev_at_other ne =
      prev_of-spliced o ∙ if-other o n (some t) _ ne ∙ if-same o o (some c) (prev_of h o) refl

  prev_elsewhere : (b : ℕ) → b ≢ n → b ≢ o → prev_of spliced b ≡ prev_of h b
  prev_elsewhere b ne ne' =
      prev_of-spliced b ∙ if-other b n (some t) _ ne ∙ if-other b o (some c) (prev_of h b) ne'

-- No node is in both lists.
abbrev pub Apart : List ℕ → List ℕ → Type 0
Apart xs ys = (b : ℕ) → has b xs ≡ true → has b ys ≡ false

-- The node behind the cursor.
abbrev pub behind : ℕ → List ℕ → ℕ
behind c [] = c
behind c (x ∷ xs) = x

has-behind : (c : ℕ) (cs : List ℕ) → has (behind c cs) (c ∷ cs) ≡ true
has-behind c [] = ground arith
has-behind c (x ∷ xs) = ground arith

Apart-sym : (xs ys : List ℕ) → Apart xs ys → Apart ys xs
Apart-sym xs ys apart b i = elim (Bool-cases (has b xs)) [
  | inl e ↦ (let out = apart b e in absurd cc)
  | inr e ↦ e
]

Distinct-splice :
    (c : ℕ) (cs : List ℕ) (o : ℕ) (os : List ℕ)
    → Distinct (c ∷ cs)
    → Distinct (o ∷ os)
    → Apart (c ∷ cs) (o ∷ os)
    → Distinct (c ∷ o ∷ (os ++ cs))
Distinct-splice c cs o os d d' apart = (
  rw (has-append c (o ∷ os) cs, apart c (ground arith)) d.0,
  Distinct-append (o ∷ os) cs d' d.1
      (λ b i. let out = Apart-sym (c ∷ cs) (o ∷ os) apart b i in ground arith),
)

module _ {A : Type 0} where
  module _ (h : Heap A) (c : ℕ) (cs : List ℕ) (o : ℕ) (os : List ℕ) (k : Circle h c cs)
      (k' : Circle h o os) (apart : Apart (c ∷ cs) (o ∷ os)) where
    -- The store behind `link`.
    abbrev pub joined : Heap A
    joined = spliced h c o (last o os) (behind c cs)

    not_own : (a b : ℕ) → has a (c ∷ cs) ≡ true → has b (o ∷ os) ≡ true → b ≢ a
    not_own a b i j = other_than a b (o ∷ os) (apart a i) j

    not_other : (a b : ℕ) → has a (o ∷ os) ≡ true → has b (c ∷ cs) ≡ true → b ≢ a
    not_other a b i j e = not_own b a j i (sym e)

    -- The links inside the other circle, and from the cursor to it.
    other-Line : Line joined o os
    other-Line =
        Line-frame h joined o os k'.line k'.distinct
          (λ b i ne.
            next_elsewhere h c o (last o os) (behind c cs) b ne (not_own c b (ground arith) i))
          (λ b i.
            prev_elsewhere h c o (last o os) (behind c cs) b
              (not_own (behind c cs) b (has-behind c cs) (ground arith))
              (other_than o b os k'.distinct.0 i))

    to_other : Linked joined c o
    to_other = (
      next_at_cursor h c o (last o os) (behind c cs)
          (not_other (last o os) c (has-last o os) (ground arith)),
      prev_at_other h c o (last o os) (behind c cs)
          (not_own (behind c cs) o (has-behind c cs) (ground arith)),
    )

    from_other : Linked joined (last o os) (behind c cs)
    from_other =
        (next_at_tail h c o (last o os) (behind c cs), prev_at_next h c o (last o os) (behind c cs))

  Circle-splice :
      (h : Heap A) (c : ℕ) (cs : List ℕ) (o : ℕ) (os : List ℕ) (k : Circle h c cs)
      (k' : Circle h o os) (apart : Apart (c ∷ cs) (o ∷ os))
      → length (c ∷ cs) + length (o ∷ os) ≤ h.used
      → Circle (joined h c cs o os k k' apart) c (o ∷ (os ++ cs))
  Circle-splice h c [] o os k k' apart inside = record {
    line = (
      to_other h c [] o os k k' apart,
      Line-append (joined h c [] o os k k' apart) o os [] (other-Line h c [] o os k k' apart) tt,
    );
    closes =
        subst (λ (b : ℕ). Linked (joined h c [] o os k k' apart) b c) (sym (last-append o os []))
          (from_other h c [] o os k k' apart);
    distinct = Distinct-splice c [] o os k.distinct k'.distinct apart;
    inside = omega (arith, inside, length-append os [], used-spliced h c o (last o os) c);
  }
  Circle-splice h c (n ∷ ns) o os k k' apart inside = record {
    line = (
      to_other h c (n ∷ ns) o os k k' apart,
      Line-append (joined h c (n ∷ ns) o os k k' apart) o os (n ∷ ns)
          (other-Line h c (n ∷ ns) o os k k' apart)
          (from_other h c (n ∷ ns) o os k k' apart, own-Line),
    );
    closes =
        subst (λ (b : ℕ). Linked (joined h c (n ∷ ns) o os k k' apart) b c)
          (sym (last-append o os (n ∷ ns))) own_end;
    distinct = Distinct-splice c (n ∷ ns) o os k.distinct k'.distinct apart;
    inside = omega (arith, inside, length-append os (n ∷ ns), used-spliced h c o (last o os) n);
  }
    where
      not_tail : (b : ℕ) → has b (c ∷ n ∷ ns) ≡ true → b ≢ last o os
      not_tail b i = not_other h c (n ∷ ns) o os k k' apart (last o os) b (has-last o os) i

      own-Line : Line (joined h c (n ∷ ns) o os k k' apart) n ns
      own-Line =
          Line-frame h (joined h c (n ∷ ns) o os k k' apart) n ns k.line.1 k.distinct.1
            (λ b i ne.
              next_elsewhere h c o (last o os) n b (not_tail b (ground arith))
                (other_than c b (n ∷ ns) k.distinct.0 i))
            (λ b i.
              prev_elsewhere h c o (last o os) n b (other_than n b ns k.distinct.1.0 i)
                (not_other h c (n ∷ ns) o os k k' apart o b (ground arith) (ground arith)))

      own_end : Linked (joined h c (n ∷ ns) o os k k' apart) (last n ns) c
      own_end = (
        next_elsewhere h c o (last o os) n (last n ns)
              (not_tail (last n ns) (ground (arith, has-last n ns)))
              (other_than c (last n ns) (n ∷ ns) k.distinct.0 (has-last n ns))
            ∙ k.closes.0,
        prev_elsewhere h c o (last o os) n c
              (λ e. other_than c n (n ∷ ns) k.distinct.0 (ground arith) (sym e))
              (not_other h c (n ∷ ns) o os k k' apart o c (ground arith) (ground arith))
            ∙ k.closes.1,
      )

  next_of-behind :
      (h : Heap A) (c : ℕ) (cs : List ℕ) → Circle h c cs → next_of h c ≡ some (behind c cs)
  next_of-behind h c [] k = k.closes.0
  next_of-behind h c (n ∷ ns) k = k.line.0.0

  link_lem :
      (h : Heap A) (c : ℕ) (cs : List ℕ) (o : ℕ) (os : List ℕ)
      → Circle h c cs
      → Circle h o os
      → link c (some o) h ≡ some (some (behind c cs), spliced h c o (last o os) (behind c cs))
  unfolding link
  link_lem h c cs o os k k' = rw (link, next_of-behind h c cs k, k'.closes.1) refl

  measured_lem :
      (r : ListRing) (h : Heap A) (c : ℕ) (cs : List ℕ)
      → r.cursor ≡ some c
      → Circle h c cs
      → measured r h
        ≡ some (record r { writes = min r.writes (suc (length cs)); size = suc (length cs) })
  unfolding measured measure
  measured_lem r h c cs e k = rw (measured, measure, e, nodes_of-Circle h c cs k) refl

  merge_linked :
      (r other : ListRing) (h : Heap A) (c : ℕ) (cs : List ℕ) (o : ℕ) (os : List ℕ)
      → r.cursor ≡ some c
      → other.cursor ≡ some o
      → Circle h c cs
      → Circle h o os
      → let h' = spliced h c o (last o os) (behind c cs) in
        merge r (some other) h ≡ (
          measured (record r { writes = r.writes + other.writes }) h' >>= λ r'. some (true, r', h'))
  unfolding merge
  merge_linked r other h c cs o os e e' k k' =
      rw
        (
          merge,
          e,
          e',
          initialized_lem c (behind c cs) h (next_of-behind h c cs k),
          link_lem h c cs o os k k',
        )
        refl

  -- Merging a ring with one on nodes of its own returns true and puts the other's nodes, from its
  -- cursor on, behind the first one's cursor, in one circle through all of them. The values stay,
  -- the cursor and the first position too; the ring is as long as both were, and counts the writes
  -- of both, as far as it has nodes.
  pub merge-Circle :
      (r other : ListRing) (h : Heap A) (c : ℕ) (cs : List ℕ) (o : ℕ) (os : List ℕ)
      → r.cursor ≡ some c
      → other.cursor ≡ some o
      → Circle h c cs
      → Circle h o os
      → Apart (c ∷ cs) (o ∷ os)
      → length (c ∷ cs) + length (o ∷ os) ≤ h.used
      → let n = length (c ∷ cs) + length (o ∷ os) in
        (h' : Heap A) × (merge r (some other) h
          ≡ some (true, record r { writes = min (r.writes + other.writes) n; size = n }, h'))
        × Circle h' c (o ∷ (os ++ cs))
        × ((b : ℕ) → (h'.nodes b).value ≡ (h.nodes b).value)
  merge-Circle r other h c cs o os e e' k k' apart inside =
      let h' = joined h c cs o os k k' apart in
      let whole = Circle-splice h c cs o os k k' apart inside in
      let size : suc (length (o ∷ (os ++ cs))) ≡ length (c ∷ cs) + length (o ∷ os) =
        omega (arith, length-append os cs) in
      (
        h',
        merge_linked r other h c cs o os e e' k k'
            ∙ ap (λ m. m >>= λ r'. some (true, r', h'))
                (measured_lem (record r { writes = r.writes + other.writes }) h' c (o ∷ (os ++ cs))
                  e whole)
            ∙ ap
                (λ (m : ℕ).
                  some (true, record r { writes = min (r.writes + other.writes) m; size = m }, h'))
                size,
        whole,
        value-spliced h c o (last o os) (behind c cs),
      )
