-- ===== src/Structure/ListRing/Push.antt =====
-- What `Push` leaves in a ring that `NewListRing` made.
use datura.Prelude.{
  ℕ, suc, ◌+◌, ◌-◌, ◌≡◌, refl, ap, ap₂, ◌∙◌, sym, true, false, some, List, [], ◌∷◌, ◌++◌, length,
  length-append, length-map, map, replicate, drop, ltb, arith, if◌then◌else◌, append_assoc,
}
use mathlib.Core.Path.{subst}
use datura.Structure.ListRing.{Heap, ListRing, initialized, set_value, push}
use datura.Structure.ListRing.Circle.{
  has, next_of, Circle, Circle-step, Circle-frame, next_of-set_value, prev_of-set_value,
  value-set_value, if-same, if-other, has-append,
}

abbrev pub head_or : List ℕ → ℕ → ℕ
head_or [] c = c
head_or (x ∷ xs) c = x

abbrev pub ring_of : ℕ → ℕ → ℕ → ℕ → ListRing
ring_of cursor first writes size = record {
  cursor = some cursor;
  first = some first;
  writes = writes;
  size = size;
}

pub ring_eq :
    {c f w s : ℕ} (c' f' w' s' : ℕ)
    → c ≡ c'
    → f ≡ f'
    → w ≡ w'
    → s ≡ s'
    → ring_of c f w s ≡ ring_of c' f' w' s'
ring_eq c' f' w' s' p q u v = λ i. ring_of (p i) (q i) (u i) (v i)

head_or-order :
    (done : List ℕ) (c g : ℕ) (gs : List ℕ) → done ++ (c ∷ []) ≡ g ∷ gs → head_or done c ≡ g
head_or-order [] c g gs e = ap (λ l. head_or l c) e
head_or-order (d ∷ done) c g gs e = ap (λ l. head_or l c) e

head_or-append : (done : List ℕ) (c x : ℕ) → head_or done c ≡ head_or (done ++ (c ∷ [])) x
head_or-append [] c x = refl
head_or-append (d ∷ done) c x = refl

pub map-append :
    {B C : Type 0} (f : B → C) (xs ys : List B) → map f (xs ++ ys) ≡ map f xs ++ map f ys
map-append f [] ys = refl
map-append f (x ∷ xs) ys = ap (λ zs. f x ∷ zs) (map-append f xs ys)

module _ {A : Type 0} where
  abbrev pub values_of : Heap A → List ℕ → List A
  values_of h xs = map (λ a. (h.nodes a).value) xs

  abbrev Around : Heap A → List ℕ → Type 0
  Around h [] = Unit {0}
  Around h (x ∷ xs) = Circle h x xs

  -- What a ring holds that values are pushed to: still blank nodes from the cursor on, or the
  -- cursor at the oldest value.
  pub data Shows (blank : A) (h : Heap A) (r : ListRing) (vs : List A) : Type 0 where
    filling :
        (done : List ℕ) (c : ℕ) (rest : List ℕ)
        → r ≡ ring_of c (head_or done c) (length done) (length done + suc (length rest))
        → Circle h c (rest ++ done)
        → values_of h done ≡ vs
        → values_of h (c ∷ rest) ≡ replicate (suc (length rest)) blank
        → Shows blank h r vs
    full :
        (f : ℕ) (fs : List ℕ)
        → r ≡ ring_of f f (suc (length fs)) (suc (length fs))
        → Circle h f fs
        → values_of h (f ∷ fs) ≡ vs
        → Shows blank h r vs

  -- The written node has the value, and the others theirs.
  values_of-set_value :
      (c : ℕ) (v : A) (h : Heap A) (xs : List ℕ)
      → has c xs ≡ false
      → values_of (set_value c v h) xs ≡ values_of h xs
  values_of-set_value c v h [] out = refl
  values_of-set_value c v h (x ∷ xs) out =
      ap₂ (λ y ys. y ∷ ys)
        (value-set_value c v h x
          ∙ if-other x c v (h.nodes x).value
              (λ e. let inside : has c (x ∷ xs) ≡ true = ground (arith, e) in cc))
        (values_of-set_value c v h xs (ground arith))

  value_here : (c : ℕ) (v : A) (h : Heap A) → ((set_value c v h).nodes c).value ≡ v
  value_here c v h = value-set_value c v h c ∙ if-same c c v (h.nodes c).value refl

  Circle-set_value :
      (h : Heap A) (a : ℕ) (xs : List ℕ) (c : ℕ) (v : A)
      → Circle h a xs
      → Circle (set_value c v h) a xs
  unfolding set_value
  Circle-set_value h a xs c v k =
      Circle-frame h (set_value c v h) a xs k (next_of-set_value c v h) (prev_of-set_value c v h)
        refl

  pub initialized_lem : (c g : ℕ) (h : Heap A) → next_of h c ≡ some g → initialized c h ≡ h
  unfolding initialized
  initialized_lem c g h n = rw (initialized, n) refl

  -- `Push` at a cursor whose `next` is set.
  push_lem :
      (r : ListRing) (v : A) (h : Heap A) (c g : ℕ)
      → r.cursor ≡ some c
      → next_of h c ≡ some g
      → push r v h
        ≡ some (
          if ltb r.writes r.size
              then record { cursor = some g; first = r.first; writes = r.writes + 1; size = r.size }
              else record { cursor = some g; first = some g; writes = r.writes; size = r.size },
          set_value c v h,
        )
  unfolding push
  push_lem r v h c g e n =
      rw (push, e, initialized_lem c g h n, next_of-set_value c v h c ∙ n, n) refl

  -- What a push leaves: the last values, as many as the ring has nodes.
  pub record Pushed (blank : A) (r : ListRing) (v : A) (h : Heap A) (vs : List A) : Type 0 where
    pub ring : ListRing
    pub heap : Heap A
    pub done : push r v h ≡ some (ring, heap)
    pub size : ring.size ≡ r.size
    pub shows : Shows blank heap ring (drop ((length vs + 1) - r.size) (vs ++ (v ∷ [])))

  -- The values of a written node behind others.
  values_behind :
      (c : ℕ) (v : A) (h : Heap A) (xs : List ℕ)
      → has c xs ≡ false
      → values_of (set_value c v h) (xs ++ (c ∷ [])) ≡ values_of h xs ++ (v ∷ [])
  values_behind c v h xs out =
      map-append (λ a. ((set_value c v h).nodes a).value) xs (c ∷ [])
      ∙ ap₂ (λ ys z. ys ++ (z ∷ [])) (values_of-set_value c v h xs out) (value_here c v h)

  push-full :
      (blank : A) (v : A) (h : Heap A) (f : ℕ) (fs : List ℕ)
      → Circle h f fs
      → Pushed blank (ring_of f f (suc (length fs)) (suc (length fs))) v h (values_of h (f ∷ fs))
  push-full blank v h f fs k =
      let (g, gs, order, n, k') = Circle-step h f fs k in
      let size : suc (length fs) ≡ suc (length gs) =
        omega (arith, ap (λ (l : List ℕ). length l) order, length-append fs (f ∷ [])) in
      let whole : ltb (suc (length fs)) (suc (length fs)) ≡ false = ground arith in
      record {
        ring = ring_of g g (suc (length fs)) (suc (length fs));
        heap = set_value f v h;
        done = push_lem _ v h f g refl n ∙ rw (whole) refl;
        size = refl;
        shows =
            full g gs (ring_eq g g (suc (length gs)) (suc (length gs)) refl refl size size)
              (Circle-set_value h g gs f v k')
              (ap (values_of (set_value f v h)) (sym order)
                ∙ values_behind f v h fs k.distinct.0
                ∙ ap (λ (m : ℕ). drop m (values_of h (f ∷ fs) ++ (v ∷ []))) {x = 1}
                    (omega (arith, length-map fs (λ a. (h.nodes a).value))));
      }

  push-filling :
      (blank : A) (v : A) (h : Heap A) (done : List ℕ) (c : ℕ) (rest : List ℕ)
      → Circle h c (rest ++ done)
      → values_of h (c ∷ rest) ≡ replicate (suc (length rest)) blank
      → Pushed blank
          (ring_of c (head_or done c) (length done) (length done + suc (length rest)))
          v
          h
          (values_of h done)
  push-filling blank v h done c rest k blanks =
      let (g, gs, order, n, k') = Circle-step h c (rest ++ done) k in
      let room : ltb (length done) (length done + suc (length rest)) ≡ true = ground arith in
      let out : has c rest ≡ false × (has c done ≡ false) =
        (ground (arith, has-append c rest done), ground (arith, has-append c rest done)) in
      record {
        ring = ring_of g (head_or done c) (length done + 1) (length done + suc (length rest));
        heap = set_value c v h;
        done = push_lem _ v h c g refl n ∙ rw (room) refl;
        size = refl;
        shows =
            subst (Shows blank (set_value c v h) _)
              (values_behind c v h done out.1
                ∙ ap (λ (m : ℕ). drop m (values_of h done ++ (v ∷ []))) {x = 0}
                    (omega (arith, length-map done (λ a. (h.nodes a).value))))
              (shown g gs rest order k' blanks out.0);
      }
    where
      shown :
          (g : ℕ) (gs : List ℕ) (rest : List ℕ)
          → (rest ++ done) ++ (c ∷ []) ≡ g ∷ gs
          → Circle h g gs
          → values_of h (c ∷ rest) ≡ replicate (suc (length rest)) blank
          → has c rest ≡ false
          → Shows blank
              (set_value c v h)
              (ring_of g (head_or done c) (length done + 1) (length done + suc (length rest)))
              (values_of (set_value c v h) (done ++ (c ∷ [])))
      shown g gs [] order k blanks out =
          let size : length done + 1 ≡ suc (length gs) =
            omega (arith, ap (λ (l : List ℕ). length l) order, length-append done (c ∷ [])) in
          full g gs
            (ring_eq g g (suc (length gs)) (suc (length gs)) refl (head_or-order done c g gs order)
              size size)
            (Circle-set_value h g gs c v k) (ap (values_of (set_value c v h)) (sym order))
      shown g gs (x ∷ rest) order k blanks out =
          let around : Circle h x ((rest ++ done) ++ (c ∷ [])) = subst (Around h) (sym order) k in
          filling (done ++ (c ∷ [])) x rest
            (ring_eq x (head_or (done ++ (c ∷ [])) x) (length (done ++ (c ∷ [])))
              (length (done ++ (c ∷ [])) + suc (length rest)) (sym (ap (λ l. head_or l g) order))
              (head_or-append done c x) (omega (arith, length-append done (c ∷ [])))
              (omega (arith, length-append done (c ∷ []))))
            (Circle-set_value h x (rest ++ (done ++ (c ∷ []))) c v
              (subst (Circle h x) (append_assoc rest done (c ∷ [])) around))
            refl (values_of-set_value c v h (x ∷ rest) out ∙ ap (drop 1) blanks)

  pub push-Shows :
      (blank : A) (r : ListRing) (v : A) (h : Heap A) (vs : List A)
      → Shows blank h r vs
      → Pushed blank r v h vs
  push-Shows blank r v h vs (full f fs e k vals) =
      subst (λ us. Pushed blank r v h us) vals
        (subst (λ q. Pushed blank q v h (values_of h (f ∷ fs))) (sym e)
          (push-full blank v h f fs k))
  push-Shows blank r v h vs (filling done c rest e k vals blanks) =
      subst (λ us. Pushed blank r v h us) vals
        (subst (λ q. Pushed blank q v h (values_of h done)) (sym e)
          (push-filling blank v h done c rest k blanks))
