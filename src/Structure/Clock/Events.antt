-- ===== src/Structure/Clock/Events.antt =====
-- What a consumer reads from a clock: a part of the history of its pushes.
use datura.Prelude.{
  ℕ, ◌+◌, ◌-◌, ◌%◌, ◌^◌, ◌≤◌, ◌<◌, min, max, ◌≡◌, refl, ap, ap₂, ◌∙◌, sym, Bool, true, false, ◌&&◌,
  Option, none, List, [], ◌∷◌, ◌++◌, length, take, drop, ltb, leb, if◌then◌else◌, arith,
  length-append, length-drop,
}
use mathlib.Core.Path.{subst}
use datura.Structure.Clock.{RingOps, ClockSlot, Clock, new_clock, push}
use datura.Structure.Clock.Cuts.{ClockCut, in_cut, resumed, events_after}
use datura.Structure.Clock.Rings.{RingLaws, drop-append, drop-drop}
use datura.Structure.Clock.Push.{Grown, taken_slot, push-Grown}
use datura.Structure.Clock.Numbers.{
  Numbered, Numbered-append, drop-Numbered, cut_out, filter-in_cut,
}

module _ {K T : Type 0} (same_key : K → K → Bool) (ring : RingOps (ClockSlot K T))
    (blank : ClockSlot K T) (laws : RingLaws ring blank) where
  -- The clocks that pushes lead to, with the slots that they put into the timeline. The first clock
  -- has an empty timeline that holds at least one slot.
  pub data Reach : List (ClockSlot K T) → Clock K T same_key ring → Type 0 where
    started :
        (timeline : ring.State)
        → laws.contents timeline ≡ []
        → 0 < ring.len timeline
        → Reach [] (new_clock K T same_key ring timeline)
    pushed :
        {history : List (ClockSlot K T)} {clock : Clock K T same_key ring}
        (fresh : Option ring.State) (slot : ClockSlot K T)
        → Reach history clock
        → (push K T same_key ring fresh slot clock).0 ≡ true
        → Reach
            (history ++ (taken_slot K T same_key ring fresh slot clock ∷ []))
            (push K T same_key ring fresh slot clock).1

  -- The timeline is the end of the history.
  record Recorded (history : List (ClockSlot K T)) (clock : Clock K T same_key ring) : Type 0 where
    no_error : clock.err ≡ none
    not_rewritten : clock.rewritten ≡ false
    numbered : Numbered 0 history
    all_counted : clock.sequence ≡ length history
    holds : laws.contents clock.timeline ≡ drop (length history - clock.timeline_size) history
    size_eq : clock.timeline_size ≡ min (ring.len clock.timeline) (length history)
    room : 0 < ring.len clock.timeline

  -- The arithmetic of a window that a slot enters.
  size_next : (l s : ℕ) → (if ltb l (s + 1) then l else s + 1) ≡ min l (s + 1)
  size_next l s = ground arith

  Grown-Recorded :
      (history : List (ClockSlot K T)) (slot : ClockSlot K T)
      (clock clock' : Clock K T same_key ring)
      → Recorded history clock
      → length history + 1 < 2 ^ 64
      → slot.ingest_sequence ≡ (clock.sequence + 1) % 2 ^ 64
      → Grown K T same_key ring slot clock clock'
      → Recorded (history ++ (slot ∷ [])) clock'
  Grown-Recorded history slot clock clock' r h e g =
      let n = length-append history (slot ∷ []) in
      let kept = laws.len-push slot clock.timeline in
      let same_len : ring.len clock'.timeline ≡ ring.len clock.timeline =
        ap ring.len g.timeline_eq ∙ kept in
      let size : clock'.timeline_size ≡ min (ring.len clock.timeline) (clock.timeline_size + 1) =
        g.timeline_size_eq ∙ size_next _ _ ∙ ap (λ l. min l (clock.timeline_size + 1)) kept in
      let count = r.all_counted in
      let old = length history - clock.timeline_size in
      let held : length (laws.contents clock.timeline) ≡ clock.timeline_size =
        ap length r.holds ∙ length-drop old history ∙ omega (arith, r.size_eq) in
      record {
        no_error = g.err_eq ∙ r.no_error;
        not_rewritten = g.rewritten_eq ∙ r.not_rewritten;
        numbered = Numbered-append 0 history slot r.numbered (e ∙ omega (arith, count, h));
        all_counted = g.sequence_eq ∙ omega (arith, count, h, n);
        holds =
            ap laws.contents g.timeline_eq
            ∙ laws.contents-push slot clock.timeline g.was_pushed
            ∙ ap₂
                (λ k (xs : List (ClockSlot K T)).
                  drop ((k + 1) - ring.len clock.timeline) (xs ++ (slot ∷ [])))
                held r.holds
            ∙ ap (drop ((clock.timeline_size + 1) - ring.len clock.timeline))
                (sym (drop-append old history (slot ∷ []) (omega arith)))
            ∙ drop-drop ((clock.timeline_size + 1) - ring.len clock.timeline) old
                (history ++ (slot ∷ []))
            ∙ ap (λ k. drop k (history ++ (slot ∷ [])))
                {y = length (history ++ (slot ∷ [])) - clock'.timeline_size}
                (omega (arith, size, n, r.size_eq));
        size_eq = omega (arith, size, same_len, n, r.size_eq);
        room = omega (arith, same_len, r.room);
      }

  Reach-Recorded :
      (history : List (ClockSlot K T)) (clock : Clock K T same_key ring)
      → Reach history clock
      → length history < 2 ^ 64
      → Recorded history clock
  unfolding new_clock
  Reach-Recorded _ _ (started timeline e room) h = record {
    no_error = refl;
    not_rewritten = refl;
    numbered = tt;
    all_counted = refl;
    holds = e;
    size_eq = omega arith;
    room = room;
  }
  Reach-Recorded _ _ (pushed {history} {clock} fresh slot reach ok) h =
      let n = length-append history (taken_slot K T same_key ring fresh slot clock ∷ []) in
      let r = Reach-Recorded history clock reach (omega (arith, h, n)) in
      let (e, g) = push-Grown K T same_key ring fresh slot clock r.no_error ok in
      Grown-Recorded history (taken_slot K T same_key ring fresh slot clock) clock _ r
        (omega (arith, h, n)) e g

  events_after_open :
      (after : ℕ) (cut : ClockCut) (clock : Clock K T same_key ring)
      → after < cut.through
      → cut.through ≤ clock.sequence
      → clock.err ≡ none
      → clock.rewritten ≡ false
      → events_after K T same_key ring after cut clock ≡ (
        cut_out same_key ring
            (resumed K T same_key ring after clock)
            cut
            (ring.walk clock.timeline),
        cut.through,
        none,
      )
  unfolding events_after
  events_after_open after cut clock before within e r =
      subst
        (λ c. events_after K T same_key ring after cut c ≡ (
          cut_out same_key ring (resumed K T same_key ring after c) cut (ring.walk c.timeline),
          cut.through,
          none,
        ))
        (λ i. record clock { err = sym e i; rewritten = sym r i })
        (rw (not_over, not_done, events_after) refl)
    where
      not_over : ltb clock.sequence cut.through ≡ false
      not_over = ground (arith, within)

      not_done : leb cut.through after ≡ false
      not_done = ground (arith, before)

  resumed-max :
      (history : List (ClockSlot K T)) (clock : Clock K T same_key ring) (after : ℕ)
      → Recorded history clock
      → resumed K T same_key ring after clock ≡ max after (length history - ring.len clock.timeline)
  unfolding resumed
  resumed-max history clock after r =
      by_numbers clock.sequence clock.timeline_size (length history) (ring.len clock.timeline)
        r.all_counted r.size_eq r.room
    where
      by_numbers :
          (seq size n len : ℕ)
          → seq ≡ n
          → size ≡ min len n
          → 0 < len
          → (if ltb 0 size && ltb after (((seq - size) + 1) - 1)
              then ((seq - size) + 1) - 1
              else after)
            ≡ max after (n - len)
      by_numbers seq size n len e e' l = ground (arith, e, e', l)

  -- A clock that pushes lead to, fewer than 2 ^ 64 of them, gives a consumer whose cursor is before
  -- its cut, which does not exceed the clock, the slots of the history from the cursor to the cut,
  -- all of them and in their order, or, if the cursor is further behind than the timeline holds,
  -- from the oldest slot that it holds. The new cursor is the cut. The rings keep their last values,
  -- and a blank cell has no ingest sequence.
  pub events_after-history :
      (history : List (ClockSlot K T)) (clock : Clock K T same_key ring) (after : ℕ)
      (cut : ClockCut)
      → blank.ingest_sequence ≡ 0
      → Reach history clock
      → length history < 2 ^ 64
      → after < cut.through
      → cut.through ≤ length history
      → let from = max after (length history - ring.len clock.timeline) in
        events_after K T same_key ring after cut clock
        ≡ (take (cut.through - from) (drop from history), cut.through, none)
  events_after-history history clock after cut blank_zero reach h before within =
      let r = Reach-Recorded history clock reach h in
      let from = max after (length history - ring.len clock.timeline) in
      let old = length history - clock.timeline_size in
      let blank_out : in_cut K T same_key ring from cut blank ≡ false =
        ground (arith, blank_zero) in
      events_after_open after cut clock before (omega (arith, r.all_counted, within)) r.no_error
        r.not_rewritten
      ∙ ap (λ events. (events, cut.through, none))
          (ap (λ a. cut_out same_key ring a cut (ring.walk clock.timeline))
              (resumed-max history clock after r)
            ∙ laws.filter-walk (in_cut K T same_key ring from cut) clock.timeline blank_out
            ∙ ap (cut_out same_key ring from cut) r.holds
            ∙ filter-in_cut same_key ring old from cut (drop old history) (omega (arith, r.size_eq))
                (subst (λ k. Numbered k (drop old history)) {x = 0 + old} (omega arith)
                  (drop-Numbered old 0 history r.numbered))
            ∙ ap (take (cut.through - from)) (
                drop-drop (from - old) old history
                ∙ ap (λ k. drop k history) (omega (arith, r.size_eq))))
