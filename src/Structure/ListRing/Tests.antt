-- ===== src/Structure/ListRing/Tests.antt =====
-- Runs of rings of linked nodes, and the theorems at concrete inputs.
use datura.Prelude.{
  ℕ, ◌≡◌, refl, true, none, some, List, [], ◌∷◌, ◌==◌, if◌then◌else◌, arith, max, take, drop, ◌-◌,
}
use datura.Prelude.Int.{pos}
use datura.Structure.Clock
use datura.Structure.Clock.{
  ClockSlot, Clock, new_clock, new_clock_track, track_in, store_track, register_track, sequenced,
  observed, push_slot,
}
use datura.Structure.Clock.Push.{taken_slot}
use datura.Structure.Clock.Cuts.{events_after}
use datura.Structure.Clock.Events.{Reach, started, pushed}
use datura.Structure.ListRing.{
  Heap, ListRing, new_list_ring, push, merge, slice, visit, ring_len, ◌>>=◌, move, set_value,
  initialized, walk_next, link, measured, measure, nodes_of, nodes_to,
}
use datura.Structure.ListRing.Circle.{Circle}
use datura.Structure.ListRing.Push.{ring_of}
use datura.Structure.ListRing.Visit.{push_all, push_all-visit, new-Shows}
use datura.Structure.ListRing.Splice.{merge-Circle}
use datura.Structure.ListRing.Clocked.{
  Held, push_held, list_ring_ops, list_ring_laws, events_after-list_ring,
}

abbrev empty_heap : Heap ℕ
empty_heap = record { nodes = λ a. record { next = none; prev = none; value = 0 }; used = 0 }

abbrev three : ListRing × Heap ℕ
three = (ring_of 0 0 0 3, (new_list_ring 0 (pos 3) empty_heap).1)

push_all-visit_example :
    (start r : ListRing) × (h : Heap ℕ) × ((new_list_ring 0 (pos 3) empty_heap).0 ≡ some start)
    × (push_all (5 ∷ 6 ∷ 7 ∷ 8 ∷ []) (start, (new_list_ring 0 (pos 3) empty_heap).1) ≡ some (r, h))
    × (visit r h ≡ some (6 ∷ 7 ∷ 8 ∷ []))
    × (ring_len r ≡ 3)
push_all-visit_example = push_all-visit 0 2 (5 ∷ 6 ∷ 7 ∷ 8 ∷ []) empty_heap

-- Two circles, of two and of three nodes.
abbrev two_rings : Heap ℕ
two_rings = record {
  nodes = λ b.
      if b == 0
      then record { next = some 1; prev = some 1; value = 10 }
      else (if b == 1
          then record { next = some 0; prev = some 0; value = 11 }
          else (if b == 2
              then record { next = some 3; prev = some 4; value = 12 }
              else (if b == 3
                  then record { next = some 4; prev = some 2; value = 13 }
                  else record { next = some 2; prev = some 3; value = 14 })));
  used = 5;
}

first-Circle : Circle two_rings 0 (1 ∷ [])
first-Circle = record {
  line = ((refl, refl), tt);
  closes = (refl, refl);
  distinct = (refl, (refl, tt));
  inside = omega arith;
}

second-Circle : Circle two_rings 2 (3 ∷ 4 ∷ [])
second-Circle = record {
  line = ((refl, refl), ((refl, refl), tt));
  closes = (refl, refl);
  distinct = (refl, (refl, (refl, tt)));
  inside = omega arith;
}

merge-Circle_example :
    (h : Heap ℕ) × (merge (ring_of 0 0 2 2) (some (ring_of 2 3 1 3)) two_rings
      ≡ some (true, ring_of 0 0 3 5, h))
    × Circle h 0 (2 ∷ 3 ∷ 4 ∷ 1 ∷ [])
    × ((b : ℕ) → (h.nodes b).value ≡ (two_rings.nodes b).value)
merge-Circle_example =
    merge-Circle (ring_of 0 0 2 2) (ring_of 2 3 1 3) two_rings 0 (1 ∷ []) 2 (3 ∷ 4 ∷ []) refl refl
      first-Circle second-Circle (λ b i. ground arith) (omega arith)

-- The first position of a ring that is not full is behind its cursor, and `Slice` removes it: `Do`
-- then visits the removed nodes instead of the one that is left.
slice_first_run :
    (push (ring_of 0 0 0 3) 5 three.1 >>= λ pushed.
    slice pushed.0 (pos 2) pushed.1 >>= λ out. visit out.0 out.2)
    ≡ some (5 ∷ 0 ∷ [])
unfolding new_list_ring push slice visit move set_value initialized walk_next link measured measure
    nodes_of nodes_to
slice_first_run = refl

-- `Slice` of a whole round removes nothing, and returns a ring over all nodes.
slice_round_run :
    (push_all (5 ∷ 6 ∷ 7 ∷ []) three >>= λ s. slice s.0 (pos 3) s.1 >>= λ out. out.1)
    ≡ some (ring_of 1 1 3 3)
unfolding new_list_ring push push_all slice move set_value initialized walk_next link measured
    measure nodes_of nodes_to
slice_round_run = refl

abbrev zero_slot : ClockSlot ℕ ℕ
zero_slot = record { track = 0; wall = 0; ingest_sequence = 0; sequence = 0; payload = 0 }

abbrev slot : ℕ → ℕ → ClockSlot ℕ ℕ
slot wall payload = record zero_slot { track = 7; wall = wall; payload = payload }

abbrev slot_heap : Heap (ClockSlot ℕ ℕ)
slot_heap = record { nodes = λ a. record { next = none; prev = none; value = zero_slot }; used = 0 }

abbrev ring_of_two : Held zero_slot
ring_of_two = record {
  ring = ring_of 0 0 0 2;
  heap = (new_list_ring zero_slot (pos 2) slot_heap).1;
  held = [];
  shows = new-Shows zero_slot 1 slot_heap;
}

abbrev start : Clock ℕ ℕ ◌==◌ (list_ring_ops zero_slot)
start = new_clock ℕ ℕ ◌==◌ (list_ring_ops zero_slot) ring_of_two

abbrev next :
    ClockSlot ℕ ℕ
    → Clock ℕ ℕ ◌==◌ (list_ring_ops zero_slot)
    → Clock ℕ ℕ ◌==◌ (list_ring_ops zero_slot)
next s clock = (Clock.push ℕ ℕ ◌==◌ (list_ring_ops zero_slot) (some ring_of_two) s clock).1

abbrev taken : ClockSlot ℕ ℕ → Clock ℕ ℕ ◌==◌ (list_ring_ops zero_slot) → ClockSlot ℕ ℕ
taken s clock = taken_slot ℕ ℕ ◌==◌ (list_ring_ops zero_slot) (some ring_of_two) s clock

abbrev clock2 : Clock ℕ ℕ ◌==◌ (list_ring_ops zero_slot)
clock2 = next (slot 20 2) (next (slot 10 1) start)

abbrev history2 : List (ClockSlot ℕ ℕ)
history2 = taken (slot 10 1) start ∷ taken (slot 20 2) (next (slot 10 1) start) ∷ []

clock2-Reach :
    Reach ◌==◌ (list_ring_ops zero_slot) zero_slot (list_ring_laws zero_slot) history2 clock2
unfolding new_clock Clock.push register_track push_slot sequenced observed track_in store_track
    new_clock_track ring_len push_held
clock2-Reach =
    pushed (some ring_of_two) (slot 20 2)
      (pushed (some ring_of_two) (slot 10 1) (started ring_of_two refl (omega arith)) refl) refl

events_after-list_ring_example :
    events_after ℕ ℕ ◌==◌ (list_ring_ops zero_slot) 0 (record { through = 2; at = 40 }) clock2 ≡ (
      take
          (2 - max 0 (2 - ring_len clock2.timeline.ring))
          (drop (max 0 (2 - ring_len clock2.timeline.ring)) history2),
      2,
      none,
    )
events_after-list_ring_example =
    events_after-list_ring ◌==◌ zero_slot history2 clock2 0 (record { through = 2; at = 40 }) refl
      clock2-Reach (omega arith) (omega arith) (omega arith)
