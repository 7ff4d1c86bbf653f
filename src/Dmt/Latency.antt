-- ===== src/Dmt/Latency.antt =====
-- dmt/latency.go: a rolling window of latencies. A duration is an int64 of nanoseconds, which stands in
-- its slot as the uint64 of the same bits; the durations recorded here are not negative.
pub mod Bounds
mod Tests
use datura.Prelude.{
  ℕ, zero, suc, ◌+◌, ◌-◌, ◌/◌, ◌%◌, ◌^◌, Bool, true, false, Option, none, some, List, [], ◌∷◌,
  length, set, replicate, ltb, ◌==◌, if◌then◌else◌,
}
use datura.Prelude.Int.{ℤ, pos, negsuc}

pub record Latency : Type 0 where
  pub slots : List ℕ
  pub size : ℕ
  pub head : ℕ

unfoldable pub new_latency : ℕ → Latency
new_latency size = record { slots = replicate size 0; size = size; head = 0 }

-- `none` is the panic of a division by a size of 0.
unfoldable pub record_duration : ℕ → Latency → Option Latency
record_duration duration latency =
    let head = (latency.head + 1) % 2 ^ 64 in
    let index = ((head + 2 ^ 64) - 1) % 2 ^ 64 in
    if latency.size == 0
    then none
    else some
        (record latency { slots = set latency.slots (index % latency.size) duration; head = head })

-- The int64 of these 64 bits.
abbrev pub signed : ℕ → ℤ
signed bits = if ltb bits (2 ^ 63) then pos bits else negsuc ((2 ^ 64 - 1) - bits)

-- The loop of `Average`: the sum, which wraps, and the count.
unfoldable pub add_slots : List ℕ → ℕ → ℕ → ℕ × ℕ
add_slots [] sum count = (sum, count)
add_slots (value ∷ slots) sum count =
    let empty = value == 0 in
    add_slots slots (if empty then sum else (sum + value) % 2 ^ 64)
      (if empty then count else count + 1)

-- Go's division of an int64 by a positive number, towards 0.
unfoldable pub divide : ℤ → ℕ → ℤ
divide (pos n) count = pos (n / count)
divide (negsuc n) count = elim ((n + 1) / count) [ zero ↦ pos 0 | suc m ↦ negsuc m ]

unfoldable pub average : Latency → ℤ
average latency =
    let (sum, count) = add_slots latency.slots 0 0 in
    if count == 0 then pos 0 else divide (signed sum) count
