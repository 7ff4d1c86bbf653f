-- ===== src/Structure/Mpmc.antt =====
-- structure/mpmc.go: the multi-producer multi-consumer ring, one operation at a time. The positions and
-- sequences are uint64 and wrap; a cell's index is a position masked by the capacity, a power of two.
pub mod Cells
pub mod Refine
pub mod Moves
mod Tests
use Prim.Native.Nat.{bit_and}
use datura.Prelude.{
  ℕ, zero, suc, ◌+◌, ◌-◌, ◌^◌, Bool, true, false, Option, none, some, List, [], ◌∷◌, length, get_or,
  set, ltb, leb, ◌==◌, if◌then◌else◌,
}
use datura.Prelude.Int.{ℤ, pos, negsuc}
use datura.Structure.Offline.{OfflineRing, new_offline_ring, select}
use datura.Structure.Spsc.{u64_mod, u64_add, u64_sub}

-- `data` is a pointer, nil for `none`.
pub record Cell (A : Type 0) : Type 0 where
  pub sequence : ℕ
  pub data_pointer : Option A

-- The contexts, the stored error, which is never set, and the artifact are left out.
pub record MpmcRing (A : Type 0) : Type 0 where
  pub mask : ℕ
  pub buffer : List (Cell A)
  pub enqueue_pos : ℕ
  pub dequeue_pos : ℕ
  pub closed : Bool

abbrev pub empty_cell : {A : Type 0} → ℕ → Cell A
empty_cell index = record { sequence = index; data_pointer = none }

-- `n` cells from `index` on, each with its index for a sequence.
abbrev pub fresh_cells : {A : Type 0} → ℕ → ℕ → List (Cell A)
fresh_cells index zero = []
fresh_cells index (suc n) = empty_cell index ∷ fresh_cells (suc index) n

-- What one round of the loop of `pushpop` does: it returns nil, starts over, or has the position.
pub data Round : Type 0 where
  returns_nil starts_over claims : Round

-- The sign of the difference, an int64.
abbrev pub round_of : ℕ → ℕ → Round
round_of sequence wanted =
    if leb (2 ^ 63) (u64_sub sequence wanted)
    then returns_nil
    else (if u64_sub sequence wanted == 0 then claims else starts_over)

module _ {A : Type 0} where
  -- `NewMPMCRing`; `none` for its validation error.
  unfoldable pub new_mpmc_ring : ℤ → Option (MpmcRing A)
  new_mpmc_ring (negsuc n) = none
  new_mpmc_ring (pos capacity) =
      if ltb capacity 2
      then none
      else (if bit_and capacity (capacity - 1) == 0
          then some (record {
            mask = capacity - 1;
            buffer = fresh_cells 0 capacity;
            enqueue_pos = 0;
            dequeue_pos = 0;
            closed = false;
          })
          else none)

  abbrev pub cell_at : MpmcRing A → ℕ → Cell A
  cell_at r position = get_or r.buffer (bit_and position r.mask) (empty_cell 0)

  -- What `pushpop` does with a position that it has, as the producer and as the consumer.
  unfoldable pub produce : MpmcRing A → A → MpmcRing A
  produce r x = record r {
    buffer =
        set r.buffer (bit_and r.enqueue_pos r.mask)
          (record { sequence = u64_add r.enqueue_pos 1; data_pointer = some x });
    enqueue_pos = u64_add r.enqueue_pos 1;
  }

  unfoldable pub consume : MpmcRing A → MpmcRing A
  consume r = record r {
    buffer =
        set r.buffer (bit_and r.dequeue_pos r.mask)
          (record { sequence = u64_add (u64_add r.dequeue_pos r.mask) 1; data_pointer = none });
    dequeue_pos = u64_add r.dequeue_pos 1;
  }

  -- `Push`; `none` where the loop starts over, and with no other caller never ends.
  unfoldable pub push : MpmcRing A → A → Option (Bool × MpmcRing A)
  unfolding produce
  push r x =
      if r.closed
      then some (false, r)
      else (elim (round_of (cell_at r r.enqueue_pos).sequence r.enqueue_pos) [
        | returns_nil ↦ some (false, r)
        | starts_over ↦ none
        | claims ↦ some (true, produce r x)
      ])

  -- `Pop`, with `none` in the same place.
  unfoldable pub pop : MpmcRing A → Option (Option A × MpmcRing A)
  unfolding consume
  pop r = elim (round_of (cell_at r r.dequeue_pos).sequence (u64_add r.dequeue_pos 1)) [
    | returns_nil ↦ some (none, r)
    | starts_over ↦ none
    | claims ↦ some ((cell_at r r.dequeue_pos).data_pointer, consume r)
  ]

  -- The loop of `Snapshot` over `n` positions.
  unfoldable pub snapshot_from : MpmcRing A → ℕ → ℕ → List A
  snapshot_from r position zero = []
  snapshot_from r position (suc n) =
      let rest = snapshot_from r (suc position) n in
      elim (cell_at r position).data_pointer [ none ↦ rest | some x ↦ x ∷ rest ]

  unfoldable pub snapshot : MpmcRing A → OfflineRing A
  unfolding snapshot_from
  snapshot r = new_offline_ring (snapshot_from r r.dequeue_pos (r.enqueue_pos - r.dequeue_pos))

  unfoldable pub select_at : MpmcRing A → ℤ → OfflineRing A
  unfolding snapshot
  select_at r step = select (snapshot r) step

  unfoldable pub len : MpmcRing A → ℕ
  len r =
      if ltb (length r.buffer) (u64_sub r.enqueue_pos r.dequeue_pos)
      then length r.buffer
      else u64_sub r.enqueue_pos r.dequeue_pos

  unfoldable pub close : MpmcRing A → MpmcRing A
  close r = record r { closed = true }
