-- ===== src/Structure/Clock/Cuts.antt =====
-- The reading side of a clock: cuts, frames and events.
use datura.Prelude.{
  ℕ, ◌+◌, ◌-◌, suc, zero, Bool, ◌&&◌, ◌||◌, not, Option, none, some, List, [], ◌∷◌, ltb, leb, ◌==◌,
  if◌then◌else◌,
}
use datura.Structure.Clock.{
  ClockError, clock_time, clock_empty, cut_exceeds, RingOps, ClockSlot, ClockTrack, Clock,
}

pub record ClockCut : Type 0 where
  pub through : ℕ
  pub at : ℕ

unfoldable pub filter {ℓ} : {A : Type ℓ} → (A → Bool) → List A → List A
filter p [] = []
filter p (x ∷ xs) = let rest = filter p xs in if p x then x ∷ rest else rest

module _ (K T : Type 0) (same_key : K → K → Bool) (ring : RingOps (ClockSlot K T)) where
  -- The track and the clock of these parameters.
  abbrev Track : Type 0
  Track = ClockTrack K T same_key ring

  abbrev ClockRing : Type 0
  ClockRing = Clock K T same_key ring

  unfoldable pub cut : ℕ → ClockRing → ClockCut × Option ClockError
  cut at clock =
      if at == 0 then (record { through = 0; at = 0 }, some clock_time) else elim clock.err [
        | some e ↦ (record { through = 0; at = 0 }, some e)
        | none ↦ (record { through = clock.sequence; at = at }, none)
      ]

  -- One visit of the walk in `at`.
  unfoldable pub newer :
      ℕ → ClockCut → Option (ClockSlot K T) → ClockSlot K T → Option (ClockSlot K T)
  newer first cut selected slot =
      if ltb slot.ingest_sequence first
        || (ltb cut.through slot.ingest_sequence || ltb cut.at slot.wall)
      then selected
      else elim selected [
        | none ↦ some slot
        | some s ↦
            if ltb slot.wall s.wall
              || (slot.wall == s.wall && ltb slot.ingest_sequence s.ingest_sequence)
            then some s
            else some slot
      ]

  unfoldable pub newest :
      ℕ → ClockCut → Option (ClockSlot K T) → List (ClockSlot K T) → Option (ClockSlot K T)
  unfolding newer
  newest first cut selected [] = selected
  newest first cut selected (slot ∷ slots) = newest first cut (newer first cut selected slot) slots

  unfoldable pub track_at : ClockCut → Track → Option (ClockSlot K T)
  unfolding newest
  track_at cut track = newest track.first cut none (ring.walk track.values)

  -- The entry of a track in a frame.
  unfoldable pub frame_entry : ClockCut → ℕ → Track → Option (ClockSlot K T)
  unfolding track_at
  frame_entry cut sequence track = elim (track_at cut track) [
    | some slot ↦ some slot
    | none ↦
        if leb track.first cut.through
        then track_at (record { through = sequence; at = cut.at }) track
        else none
  ]

  unfoldable pub frame_entries : ClockCut → ℕ → List (K × Track) → List (K × ClockSlot K T)
  unfolding frame_entry
  frame_entries cut sequence [] = []
  frame_entries cut sequence ((key, track) ∷ tracks) =
      let rest = frame_entries cut sequence tracks in
      elim (frame_entry cut sequence track) [ none ↦ rest | some slot ↦ (key, slot) ∷ rest ]

  unfoldable pub frame : ClockCut → ClockRing → List (K × ClockSlot K T) × Option ClockError
  unfolding frame_entries
  frame cut clock = elim clock.err [
    | some e ↦ ([], some e)
    | none ↦
        if ltb clock.sequence cut.through
        then ([], some (cut_exceeds cut.through clock.sequence))
        else (frame_entries cut clock.sequence clock.tracks, none)
  ]

  -- `Frame` and `FrameThrough`
  unfoldable pub frame_at : ℕ → ClockRing → List (K × ClockSlot K T) × Option ClockError
  unfolding frame
  frame_at wall clock =
      if wall == 0
      then ([], some clock_time)
      else frame (record { through = clock.sequence; at = wall }) clock

  unfoldable pub frame_through : ClockCut → ClockRing → List (K × ClockSlot K T) × Option ClockError
  unfolding frame
  frame_through cut clock = if cut.at == 0 then ([], some clock_time) else frame cut clock

  -- The least of the latest times of the tracks that have a slot, and 0 if none has.
  unfoldable pub watermark : ℕ → List (K × Track) → ℕ
  watermark mark [] = mark
  watermark mark ((key, track) ∷ tracks) =
      watermark
        (if track.count == 0 || (not (mark == 0) && not (ltb track.latest mark))
          then mark
          else track.latest)
        tracks

  unfoldable pub aligned : ClockRing → List (K × ClockSlot K T) × Option ClockError
  unfolding watermark frame
  aligned clock =
      let mark = watermark 0 clock.tracks in
      if mark == 0
      then ([], some clock_empty)
      else frame (record { through = clock.sequence; at = mark }) clock

  -- The slots of the timeline that `Select` reaches: `step` of them.
  unfoldable pub retained_from : ℕ → ring.State → List (ClockSlot K T)
  retained_from zero timeline = []
  retained_from (suc step) timeline =
      let rest = retained_from step timeline in
      elim (ring.peek (suc step) timeline) [ none ↦ rest | some slot ↦ slot ∷ rest ]

  unfoldable pub retained : ClockRing → List (ClockSlot K T)
  unfolding retained_from
  retained clock = retained_from clock.timeline_size clock.timeline

  -- The cursor from which events are read: not before the window of the timeline.
  unfoldable pub resumed : ℕ → ClockRing → ℕ
  resumed after clock =
      let oldest = (clock.sequence - clock.timeline_size) + 1 in
      if ltb 0 clock.timeline_size && ltb after (oldest - 1) then oldest - 1 else after

  -- `appendSlot`
  abbrev pub in_cut : ℕ → ClockCut → ClockSlot K T → Bool
  in_cut after cut slot =
      not (leb slot.ingest_sequence after || ltb cut.through slot.ingest_sequence)

  -- `EventsAfter`: the slots, the cursor and the error.
  unfoldable pub events_after :
      ℕ → ClockCut → ClockRing → List (ClockSlot K T) × ℕ × Option ClockError
  unfolding resumed retained filter
  events_after after cut clock = elim clock.err [
    | some e ↦ ([], after, some e)
    | none ↦
        if ltb clock.sequence cut.through
        then ([], after, some (cut_exceeds cut.through clock.sequence))
        else (if leb cut.through after
            then ([], after, none)
            else (let from = resumed after clock in
                let slots = if clock.rewritten then retained clock else ring.walk clock.timeline in
                (filter (in_cut from cut) slots, cut.through, none)))
  ]
