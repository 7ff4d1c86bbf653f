-- ===== src/Dmt/Latency/Tests.antt =====
-- A run of a window of latencies, and the theorem at a concrete input.
use datura.Prelude.{ℕ, ◌≡◌, ◌≤◌, refl, some, [], ◌∷◌, arith}
use datura.Prelude.Int.{pos, negsuc}
use datura.Dmt.Latency.{Latency, new_latency, average, add_slots, divide}
use datura.Dmt.Latency.Bounds.{record_all, record_all-average}

record_all-average_example :
    (latency : Latency) × (m : ℕ) × (record_all (5 ∷ 9 ∷ 7 ∷ []) (new_latency 2) ≡ some latency)
    × (average latency ≡ pos m)
    × (5 ≤ m)
    × (m ≤ 9)
record_all-average_example =
    record_all-average 5 9 1 (5 ∷ 9 ∷ 7 ∷ [])
      ((omega arith, omega arith), ((omega arith, omega arith), ((omega arith, omega arith), tt)))
      (omega arith) (omega arith) (omega arith)

-- Two latencies whose sum does not fit an int64.
average_wraps_run :
    average
      (record { slots = (0x4000_0000_0000_0000 ∷ 0x4000_0000_0000_0000 ∷ []); size = 2; head = 2 })
    ≡ negsuc 0x3fff_ffff_ffff_ffff
unfolding average add_slots divide
average_wraps_run = refl
