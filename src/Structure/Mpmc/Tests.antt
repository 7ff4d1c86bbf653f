-- ===== src/Structure/Mpmc/Tests.antt =====
-- Runs of the multi-producer multi-consumer ring, and the theorems at concrete inputs.
use datura.Prelude.{
  ℕ, ◌≡◌, refl, true, false, Bool, Option, none, some, List, [], ◌∷◌, length, arith,
}
use datura.Prelude.Int.{pos}
use datura.Structure.Spsc.Queue.Refine.{push_queue, pop_queue}
use mathlib.Core.Option
use datura.Structure.Mpmc.{MpmcRing, new_mpmc_ring, push, pop, len, snapshot}
use datura.Structure.Mpmc.Moves.{do_all, merge_mpmc, slice, mpmc_pop-do_all}
use datura.Structure.Spsc.Moves.{grown_capacity}
use datura.Structure.Offline.{new_offline_ring}
use datura.Structure.Mpmc.Cells.{Holds}
use datura.Structure.Mpmc.Refine.{mpmc_push_refines}

abbrev fresh : MpmcRing ℕ
fresh = record {
  mask = 1;
  buffer =
      record { sequence = 0; data_pointer = none }
      ∷ record { sequence = 1; data_pointer = none }
      ∷ [];
  enqueue_pos = 0;
  dequeue_pos = 0;
  closed = false;
}

fresh_run : new_mpmc_ring (pos 2) ≡ some fresh
unfolding new_mpmc_ring
fresh_run = refl

-- The ring after a push of 20.
abbrev one_value : MpmcRing ℕ
one_value = record {
  mask = 1;
  buffer =
      record { sequence = 1; data_pointer = some 20 }
      ∷ record { sequence = 1; data_pointer = none }
      ∷ [];
  enqueue_pos = 1;
  dequeue_pos = 0;
  closed = false;
}

push_run : push fresh 20 ≡ some (true, one_value)
unfolding push
push_run = refl

one_value-Holds : Holds 1 one_value (20 ∷ [])
one_value-Holds = record {
  wide = omega arith;
  room = refl;
  masked = refl;
  count = refl;
  within = omega arith;
  no_wrap = omega arith;
  published = (refl, refl, tt);
  free = (refl, refl, tt);
}

mpmc_push_refines_example :
    (r' : MpmcRing ℕ) × (push one_value 30 ≡ some (true, r')) × Holds 1 r' (20 ∷ 30 ∷ [])
unfolding push_queue
mpmc_push_refines_example = mpmc_push_refines 1 one_value (20 ∷ []) 30 one_value-Holds

-- The ring after a push of 20 and one of 30.
abbrev two_values : MpmcRing ℕ
two_values = record {
  mask = 1;
  buffer =
      record { sequence = 1; data_pointer = some 20 }
      ∷ record { sequence = 2; data_pointer = some 30 }
      ∷ [];
  enqueue_pos = 2;
  dequeue_pos = 0;
  closed = false;
}

mpmc_pop-do_all_example :
    ((r' : MpmcRing ℕ) × (pop one_value ≡ some (some 20, r')) × Holds 1 r' [])
    × ((r' : MpmcRing ℕ) × (do_all one_value ≡ some (20 ∷ [], r')) × Holds 1 r' [])
unfolding pop_queue
mpmc_pop-do_all_example = mpmc_pop-do_all 1 one_value (20 ∷ []) one_value-Holds (omega arith)

-- The result, the number of cells and the values behind a merge.
abbrev merged : Bool × MpmcRing ℕ × MpmcRing ℕ → Bool × ℕ × List ℕ
unfolding snapshot
merged (ok, r, other) = (ok, length r.buffer, (snapshot r).values)

-- Three values do not fit in two cells: the ring grows.
merge_run : Option.map merged (merge_mpmc two_values one_value) ≡ some (true, 4, 20 ∷ 30 ∷ 20 ∷ [])
unfolding merge_mpmc len new_mpmc_ring push pop merged grown_capacity new_offline_ring
merge_run = refl

-- The values that stay behind a slice.
abbrev kept : Option (MpmcRing ℕ) × MpmcRing ℕ → List ℕ
unfolding snapshot
kept (sliced, r) = (snapshot r).values

slice_run : Option.map kept (slice two_values (pos 1)) ≡ some (30 ∷ [])
unfolding slice len new_mpmc_ring push pop kept grown_capacity new_offline_ring
slice_run = refl
