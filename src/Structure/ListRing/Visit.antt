-- ===== src/Structure/ListRing/Visit.antt =====
-- What `Do` visits in a ring that `NewListRing` made, behind pushes: the last values.
use datura.Prelude.{
  ℕ, suc, ◌+◌, ◌-◌, ◌≡◌, refl, ap, ap₂, ◌∙◌, sym, Option, some, List, [], ◌∷◌, ◌++◌, length,
  length-append, length-map, length-drop, replicate, drop, arith, append_assoc, append-nil,
}
use mathlib.Core.Path.{subst}
use datura.Structure.Clock.Rings.{drop-append, drop-drop}
use datura.Structure.ListRing.{◌>>=◌, Heap, ListRing, push, visit, ring_len, new_list_ring}
use datura.Prelude.Int.{pos}
use datura.Structure.ListRing.Build.{span, length-span, new_list_ring_lem}
use datura.Structure.ListRing.Circle.{Circle, Circle-from, nodes_of-Circle}
use datura.Structure.ListRing.Push.{
  ring_of, ring_eq, map-append, values_of, Shows, filling, full, push-Shows,
}

module _ {A : Type 0} where
  visit-Circle :
      (r : ListRing) (h : Heap A) (f : ℕ) (fs : List ℕ)
      → r.first ≡ some f
      → Circle h f fs
      → visit r h ≡ some (values_of h (f ∷ fs))
  unfolding visit
  visit-Circle r h f fs e k = rw (visit, e, nodes_of-Circle h f fs k) refl

  -- What `Do` visits: the values, and the blank ones of the nodes that no push has reached.
  pub visit-Shows :
      (blank : A) (r : ListRing) (h : Heap A) (vs : List A)
      → Shows blank h r vs
      → visit r h ≡ some (vs ++ replicate (r.size - length vs) blank)
  visit-Shows blank r h vs (full f fs e k vals) =
      let none_left : 0 ≡ r.size - length vs = omega (
        arith,
        ap (λ (r : ListRing). r.size) e,
        ap (λ (l : List A). length l) vals,
        length-map fs (λ a. (h.nodes a).value),
      ) in
      visit-Circle r h f fs (ap (λ (r : ListRing). r.first) e) k
      ∙ ap (λ l. some l)
          (vals ∙ sym (append-nil vs) ∙ ap (λ (m : ℕ). vs ++ replicate m blank) none_left)
  visit-Shows blank r h vs (filling [] c rest e k vals blanks) =
      let all_left : suc (length rest) ≡ r.size - length vs =
        omega (arith, ap (λ (r : ListRing). r.size) e, ap (λ (l : List A). length l) vals) in
      visit-Circle r h c rest (ap (λ (r : ListRing). r.first) e)
        (subst (Circle h c) (append-nil rest) k)
      ∙ ap (λ l. some l)
          (blanks ∙ ap₂ (λ (us : List A) (m : ℕ). us ++ replicate m blank) vals all_left)
  visit-Shows blank r h vs (filling (d ∷ done) c rest e k vals blanks) =
      let left : suc (length rest) ≡ r.size - length vs = omega (
        arith,
        ap (λ (r : ListRing). r.size) e,
        ap (λ (l : List A). length l) vals,
        length-map done (λ a. (h.nodes a).value),
      ) in
      visit-Circle r h d (done ++ (c ∷ rest)) (ap (λ (r : ListRing). r.first) e)
        (Circle-from h c rest d done k)
      ∙ ap (λ l. some l)
          (map-append (λ a. (h.nodes a).value) (d ∷ done) (c ∷ rest)
            ∙ ap₂ (λ (us ws : List A). us ++ ws) vals blanks
            ∙ ap (λ (m : ℕ). vs ++ replicate m blank) left)

  unfoldable pub push_all : List A → ListRing × Heap A → Option (ListRing × Heap A)
  push_all [] s = some s
  push_all (v ∷ vs) s = push s.0 v s.1 >>= push_all vs

  -- The last `n` of a list.
  abbrev pub last_of : ℕ → List A → List A
  last_of n vs = drop (length vs - n) vs

  last_of-append : (n : ℕ) (vs ws : List A) → last_of n (last_of n vs ++ ws) ≡ last_of n (vs ++ ws)
  last_of-append n vs ws =
      let k : ℕ = length vs - n in
      ap (λ us. drop (length us - n) us) (sym (drop-append k vs ws (omega arith)))
      ∙ drop-drop (length (drop k (vs ++ ws)) - n) k (vs ++ ws)
      ∙ ap (λ (m : ℕ). drop m (vs ++ ws))
          (omega (arith, length-drop k (vs ++ ws), length-append vs ws))

  push_all-Shows :
      (blank : A) (us vs : List A) (r : ListRing) (h : Heap A)
      → Shows blank h r (last_of r.size us)
      → (r' : ListRing) × (h' : Heap A) × (push_all vs (r, h) ≡ some (r', h'))
        × Shows blank h' r' (last_of r.size (us ++ vs))
        × (r'.size ≡ r.size)
  unfolding push_all
  push_all-Shows blank us [] r h s =
      (r, h, refl, subst (λ l. Shows blank h r (last_of r.size l)) (sym (append-nil us)) s, refl)
  push_all-Shows blank us (v ∷ vs) r h s =
      let p = push-Shows blank r v h (last_of r.size us) s in
      let held : List A = last_of r.size us in
      let shows : Shows blank p.heap p.ring (last_of p.ring.size (us ++ (v ∷ []))) =
        subst (Shows blank p.heap p.ring)
          (ap (λ (m : ℕ). drop m (held ++ (v ∷ []))) {x = (length held + 1) - r.size}
              {y = length (held ++ (v ∷ [])) - r.size} (omega (arith, length-append held (v ∷ [])))
            ∙ last_of-append r.size us (v ∷ [])
            ∙ ap (λ (n : ℕ). last_of n (us ++ (v ∷ []))) (sym p.size))
          p.shows in
      let (r', h', done, shows', size) =
        push_all-Shows blank (us ++ (v ∷ [])) vs p.ring p.heap shows in
      (
        r',
        h',
        rw (p.done) done,
        subst (Shows blank h' r')
            (ap₂ (λ (n : ℕ) (l : List A). last_of n l) p.size (append_assoc us (v ∷ []) vs)) shows',
        size ∙ p.size,
      )

  pub new-Shows :
      (blank : A) (count : ℕ) (h : Heap A)
      → let made = new_list_ring blank (pos (suc count)) h in
        Shows blank made.1 (ring_of h.used h.used 0 (suc count)) []
  new-Shows blank count h =
      let m = new_list_ring_lem blank count h in
      let size : count ≡ length (span (suc h.used) count) =
        omega (arith, length-span (suc h.used) count) in
      filling [] h.used (span (suc h.used) count)
        (ring_eq h.used h.used 0 (0 + suc (length (span (suc h.used) count))) refl refl refl
          (omega (arith, size)))
        (subst (Circle _ h.used) (sym (append-nil (span (suc h.used) count))) m.circle) refl
        (m.blanks ∙ ap (λ (n : ℕ). replicate n blank) (ap suc size))

  -- A ring that `NewListRing` makes with a positive number of nodes takes every value that is
  -- pushed, and `Do` then visits the last values, as many as the ring has nodes, in their order,
  -- and behind them the blank values of the nodes that no push has reached. `Len` is still the
  -- number of nodes.
  pub push_all-visit :
      (blank : A) (count : ℕ) (vs : List A) (h : Heap A)
      → let n = suc count in
        (start r : ListRing) × (h' : Heap A) × ((new_list_ring blank (pos n) h).0 ≡ some start)
        × (push_all vs (start, (new_list_ring blank (pos n) h).1) ≡ some (r, h'))
        × (visit r h'
            ≡ some
                (drop (length vs - n) vs ++ replicate (n - length (drop (length vs - n) vs)) blank))
        × (ring_len r ≡ n)
  unfolding ring_len
  push_all-visit blank count vs h =
      let start = ring_of h.used h.used 0 (suc count) in
      let (r, h', done, shows, size) =
        push_all-Shows blank [] vs start (new_list_ring blank (pos (suc count)) h).1 (
          subst (Shows blank _ start)
            (ap (λ (m : ℕ). drop {A = A} m []) {x = 0} {y = 0 - suc count} (omega arith))
            (new-Shows blank count h)) in
      (
        start,
        r,
        h',
        (new_list_ring_lem blank count h).ring,
        done,
        visit-Shows blank r h' _ shows
            ∙ ap
                (λ (n : ℕ).
                  some (
                    last_of (suc count) vs
                    ++ replicate (n - length (last_of (suc count) vs)) blank))
                size,
        size,
      )
