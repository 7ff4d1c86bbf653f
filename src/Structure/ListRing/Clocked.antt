-- ===== src/Structure/ListRing/Clocked.antt =====
-- A clock whose rings are rings of linked nodes: `RingOps` from `Push`, `Select`, `Pop`, `Do` and
-- `Len`.
use datura.Prelude.{
  ℕ, zero, suc, ◌+◌, ◌-◌, ◌^◌, ◌≤◌, ◌<◌, max, ◌≡◌, refl, ap, ◌∙◌, Bool-cases, inl, inr, Bool, true,
  false, Option, none, some, List, [], ◌∷◌, ◌++◌, length, drop, take, replicate, append-nil,
}
use datura.Prelude.Int.{ℤ, pos, negsuc}
use datura.Structure.Clock.{RingOps, ClockSlot, Clock}
use datura.Structure.Clock.Cuts.{filter, ClockCut, events_after}
use datura.Structure.Clock.Rings.{RingLaws}
use datura.Structure.Clock.Events.{Reach, events_after-history}
use datura.Structure.ListRing.{Heap, ListRing, push, select, pop, visit, ring_len}
use datura.Structure.ListRing.Push.{Shows, push-Shows}
use datura.Structure.ListRing.Visit.{visit-Shows}

-- `-step`
abbrev pub minus : ℕ → ℤ
minus zero = pos 0
minus (suc n) = negsuc n

module _ {A : Type 0} where
  filter-append : (p : A → Bool) (xs ys : List A) → filter p (xs ++ ys) ≡ filter p xs ++ filter p ys
  unfolding filter
  filter-append p [] ys = refl
  filter-append p (x ∷ xs) ys = elim (Bool-cases (p x)) [
    | inl e ↦ rw (e) (ap (λ zs. x ∷ zs) (filter-append p xs ys))
    | inr e ↦ rw (e) (filter-append p xs ys)
  ]

  filter-replicate :
      (p : A → Bool) (n : ℕ) (blank : A) → p blank ≡ false → filter p (replicate n blank) ≡ []
  unfolding filter
  filter-replicate p zero blank h = refl
  filter-replicate p (suc n) blank h = rw (h) (filter-replicate p n blank h)

  -- A ring in its store, with the values that it holds.
  pub record Held (blank : A) : Type 0 where
    pub ring : ListRing
    pub heap : Heap A
    pub held : List A
    pub shows : Shows blank heap ring held

  module _ (blank : A) where
    unfoldable pub push_held : A → Held blank → Held blank
    push_held v s =
        let p = push-Shows blank s.ring v s.heap s.held s.shows in
        record {
          ring = p.ring;
          heap = p.heap;
          held = drop ((length s.held + 1) - s.ring.size) (s.held ++ (v ∷ []));
          shows = p.shows;
        }

    unfoldable pub peek_held : ℕ → Held blank → Option A
    peek_held step s = elim (select s.ring (minus step) s.heap) [
      | none ↦ none
      | some out ↦ (pop (some out.0) out.1).0
    ]

    unfoldable pub walk_held : Held blank → List A
    walk_held s = elim (visit s.ring s.heap) [ none ↦ [] | some values ↦ values ]

    abbrev pub list_ring_ops : RingOps A
    list_ring_ops = record {
      State = Held blank;
      push = λ v s. (true, push_held v s);
      peek = peek_held;
      walk = walk_held;
      len = λ s. ring_len s.ring;
    }

    pub filter-walk_held :
        (p : A → Bool) (s : Held blank) → p blank ≡ false → filter p (walk_held s) ≡ filter p s.held
    unfolding walk_held
    filter-walk_held p s h =
        rw (walk_held, visit-Shows blank s.ring s.heap s.held s.shows)
          (filter-append p s.held _
            ∙ ap (λ ys. filter p s.held ++ ys) (filter-replicate p _ blank h)
            ∙ append-nil _)

    pub len-push_held : (v : A) (s : Held blank) → ring_len (push_held v s).ring ≡ ring_len s.ring
    unfolding push_held ring_len
    len-push_held v s = (push-Shows blank s.ring v s.heap s.held s.shows).size

    pub contents-push_held :
        (v : A) (s : Held blank)
        → (push_held v s).held ≡ drop ((length s.held + 1) - ring_len s.ring) (s.held ++ (v ∷ []))
    unfolding push_held ring_len
    contents-push_held v s = refl

    -- The values are those that the code's `Push` leaves.
    pub push-push_held :
        (v : A) (s : Held blank)
        → push s.ring v s.heap ≡ some ((push_held v s).ring, (push_held v s).heap)
    unfolding push_held
    push-push_held v s = (push-Shows blank s.ring v s.heap s.held s.shows).done

    abbrev pub list_ring_laws : RingLaws list_ring_ops blank
    list_ring_laws = record {
      contents = λ s. s.held;
      len-push = len-push_held;
      contents-push = λ v s h. contents-push_held v s;
      filter-walk = filter-walk_held;
    }

module _ {K T : Type 0} (same_key : K → K → Bool) (blank : ClockSlot K T) where
  -- On rings of linked nodes, each in a store of its own, a clock that pushes lead to, fewer than
  -- 2 ^ 64 of them, gives a consumer whose cursor is before its cut, which does not exceed the
  -- clock, the slots of the history from the cursor to the cut, all of them and in their order, or,
  -- if the cursor is further behind than the timeline's ring has nodes, from the oldest slot that
  -- it holds. The blank slot has no ingest sequence.
  pub events_after-list_ring :
      (history : List (ClockSlot K T)) (clock : Clock K T same_key (list_ring_ops blank))
      (after : ℕ) (cut : ClockCut)
      → blank.ingest_sequence ≡ 0
      → Reach same_key (list_ring_ops blank) blank (list_ring_laws blank) history clock
      → length history < 2 ^ 64
      → after < cut.through
      → cut.through ≤ length history
      → let from = max after (length history - ring_len clock.timeline.ring) in
        events_after K T same_key (list_ring_ops blank) after cut clock
        ≡ (take (cut.through - from) (drop from history), cut.through, none)
  events_after-list_ring history clock after cut z reach bound before within =
      events_after-history same_key (list_ring_ops blank) blank (list_ring_laws blank) history clock
        after cut z reach bound before within
