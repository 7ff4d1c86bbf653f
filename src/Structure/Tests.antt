-- ===== src/Structure/Tests.antt =====
-- Runs of the rings, and the theorems at concrete inputs.
use datura.Prelude.{ℕ, ◌≡◌, refl, Bool, true, false, List, [], ◌∷◌, arith}
use datura.Structure.Offline.{OfflineRing}
use datura.Structure.Spsc.{SpscRing, push}
use datura.Structure.Spsc.Queue.{contents, IsValid}
use datura.Structure.Spsc.Queue.Refine.{push_refines, push_queue}
use datura.Structure.Spsc.Moves.{merge_spsc}
use datura.Structure.Spsc.Moves.Laws.{fresh_ring, fresh_ring-IsValid}
use datura.Structure.Spsc.Moves.Drains.{merge_spsc_lem}

-- A full ring of two slots, its counters past the first lap, that evicts when full.
abbrev full_ring : SpscRing ℕ
full_ring = record {
  slots = record { value = 30; ready = true } ∷ record { value = 20; ready = true } ∷ [];
  mask = 1;
  head = 3;
  tail = 1;
  dropped = 0;
  rejected = 0;
  closed = false;
  drop_oldest_on_full = true;
}

full_ring-IsValid : IsValid 0 1 full_ring
full_ring-IsValid = record {
  room = refl;
  masked = refl;
  ordered = omega arith;
  within = omega arith;
  no_wrap = omega arith;
  all_ready = (refl, (refl, tt));
}

abbrev other_ring : SpscRing ℕ
other_ring = record {
  slots = record { value = 50; ready = true } ∷ record { value = 0; ready = false } ∷ [];
  mask = 1;
  head = 1;
  tail = 0;
  dropped = 0;
  rejected = 0;
  closed = true;
  drop_oldest_on_full = false;
}

other_ring-IsValid : IsValid 0 1 other_ring
other_ring-IsValid = record {
  room = refl;
  masked = refl;
  ordered = omega arith;
  within = omega arith;
  no_wrap = omega arith;
  all_ready = (refl, tt);
}

abbrev wide_ring : SpscRing ℕ
wide_ring = fresh_ring 0 4 false

wide_ring-IsValid : IsValid 0 2 wide_ring
wide_ring-IsValid = fresh_ring-IsValid 0 2 false

push_evicts_run : contents 0 1 (push 0 full_ring 40).1 ≡ 30 ∷ 40 ∷ []
unfolding push
push_evicts_run = refl

abbrev ring_of_two : OfflineRing ℕ
ring_of_two = record { values = 7 ∷ 8 ∷ []; cursor = 1 }

push_refines_example :
    (◌≡◌ {A = Bool × List ℕ} (true, contents 0 1 (push 0 full_ring 40).1) (true, 30 ∷ 40 ∷ []))
    × IsValid 0 1 (push 0 full_ring 40).1
unfolding push push_queue
push_refines_example = push_refines 0 1 full_ring 40 full_ring-IsValid (omega arith)

merge_spsc_lem_example :
    let out = merge_spsc 0 full_ring other_ring in
    (k : ℕ) × (out.0 ≡ true)
    × (contents 0 k out.1 ≡ 20 ∷ 30 ∷ 50 ∷ [])
    × IsValid 0 k out.1
    × (contents 0 1 out.2 ≡ [])
    × IsValid 0 1 out.2
merge_spsc_lem_example =
    merge_spsc_lem 0 1 1 full_ring other_ring full_ring-IsValid other_ring-IsValid refl
      (omega arith)
