-- ===== src/Structure/Clock/Tests.antt =====
-- A ring that keeps its last values, and the theorems on a clock at concrete inputs.
use datura.Prelude.{
  ℕ, ◌+◌, ◌-◌, ◌≡◌, refl, true, false, none, some, List, [], ◌∷◌, ◌++◌, length, drop, arith, ◌==◌,
}
use datura.Structure.Clock.{
  RingOps, ClockSlot, ClockTrack, Clock, new_clock, new_clock_track, track_in, store_track,
  register_track, sequenced, observed, push_slot, push,
}
use datura.Structure.Clock.Cuts.{events_after, newer, newest, track_at}
use datura.Structure.Clock.Rings.{RingLaws}
use datura.Structure.Clock.Push.{taken_slot}
use datura.Structure.Clock.Events.{Reach, started, pushed, events_after-history}
use datura.Structure.Clock.Newest.{Best, track_at-Best}

-- The capacity and the values.
abbrev Window : Type 0 → Type 0
Window A = ℕ × List A

abbrev window : (A : Type 0) → RingOps A
window A = record {
  State = Window A;
  push = λ v s. (true, (s.0, drop ((length s.1 + 1) - s.0) (s.1 ++ (v ∷ []))));
  peek = λ step s. none;
  walk = λ s. s.1;
  len = λ s. s.0;
}

window_laws : {A : Type 0} (blank : A) → RingLaws (window A) blank
window_laws blank = record {
  contents = λ s. s.1;
  len-push = λ v s. refl;
  contents-push = λ v s h. refl;
  filter-walk = λ p s h. refl;
}

abbrev Slot : Type 0
Slot = ClockSlot ℕ ℕ

abbrev slots : RingOps Slot
slots = window Slot

abbrev slot : ℕ → ℕ → Slot
slot wall payload = record {
  track = 7;
  wall = wall;
  ingest_sequence = 0;
  sequence = 0;
  payload = payload;
}

abbrev zero_slot : Slot
zero_slot = record { track = 0; wall = 0; ingest_sequence = 0; sequence = 0; payload = 0 }

abbrev start : Clock ℕ ℕ ◌==◌ slots
start = record {
  timeline = (2, []);
  tracks = [];
  err = none;
  sequence = 0;
  timeline_size = 0;
  rewritten = false;
}

abbrev next : Slot → Clock ℕ ℕ ◌==◌ slots → Clock ℕ ℕ ◌==◌ slots
next s clock = (push ℕ ℕ ◌==◌ slots (some (2, [])) s clock).1

-- Three pushes into a timeline of two.
abbrev clock3 : Clock ℕ ℕ ◌==◌ slots
clock3 = next (slot 30 3) (next (slot 20 2) (next (slot 10 1) start))

abbrev taken : Slot → Clock ℕ ℕ ◌==◌ slots → Slot
taken s clock = taken_slot ℕ ℕ ◌==◌ slots (some (2, [])) s clock

abbrev history3 : List Slot
history3 =
    taken (slot 10 1) start
    ∷ taken (slot 20 2) (next (slot 10 1) start)
    ∷ taken (slot 30 3) (next (slot 20 2) (next (slot 10 1) start))
    ∷ []

clock3-Reach : Reach ◌==◌ slots zero_slot (window_laws zero_slot) history3 clock3
unfolding new_clock push register_track push_slot sequenced observed track_in store_track
    new_clock_track window_laws
clock3-Reach =
    pushed (some (2, [])) (slot 30 3)
      (pushed (some (2, [])) (slot 20 2)
        (pushed (some (2, [])) (slot 10 1) (started (2, []) refl (omega arith)) refl) refl)
      refl

events_after-history_example :
    events_after ℕ ℕ ◌==◌ slots 0 (record { through = 3; at = 40 }) clock3
    ≡ (drop 1 history3, 3, none)
unfolding push register_track push_slot sequenced observed track_in store_track new_clock_track
events_after-history_example =
    events_after-history ◌==◌ slots zero_slot (window_laws zero_slot) history3 clock3 0
      (record { through = 3; at = 40 }) refl clock3-Reach (omega arith) (omega arith) (omega arith)

abbrev track2 : ClockTrack ℕ ℕ ◌==◌ slots
track2 = record {
  values = (
    4,
    record (slot 30 1) { ingest_sequence = 5 } ∷ record (slot 20 2) { ingest_sequence = 6 } ∷ [],
  );
  count = 2;
  sequence = 2;
  first = 5;
  latest = 30;
}

track_at-Best_example :
    Best ◌==◌ slots 5
      (record { through = 6; at = 25 })
      track2.values.1
      (some (record (slot 20 2) { ingest_sequence = 6 }))
unfolding track_at newest newer
track_at-Best_example = track_at-Best ◌==◌ slots (record { through = 6; at = 25 }) track2
