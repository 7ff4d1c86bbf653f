-- ===== src/Structure/Spsc.antt =====
-- structure/spsc.go: the single-producer single-consumer ring, one operation at a time. The counters
-- are uint64 and wrap; a slot index is a counter masked by the capacity, a power of two.
pub mod Window
pub mod Queue
pub mod Moves
use Prim.Native.Nat.{bit_and}
use datura.Prelude.{
  ℕ, zero, suc, ◌+◌, ◌-◌, ◌/◌, ◌%◌, ◌^◌, max, Bool, true, false, not, ◌&&◌, Option, none, some,
  List, [], ◌∷◌, ◌++◌, length, get_or, set, replicate, ltb, leb, ◌==◌, if◌then◌else◌,
}
use datura.Prelude.Int.{ℤ, pos, negsuc}
use datura.Structure.Offline.{OfflineRing, new_offline_ring, select}

abbrev pub u64_mod : ℕ
u64_mod = 2 ^ 64

abbrev pub u64_add : ℕ → ℕ → ℕ
u64_add a b = (a + b) % u64_mod

abbrev pub u64_sub : ℕ → ℕ → ℕ
u64_sub a b = (a + u64_mod - b) % u64_mod

pub record Slot (A : Type 0) : Type 0 where
  pub value : A
  pub ready : Bool

-- The stored error is never set in the source, and is left out.
pub record SpscRing (A : Type 0) : Type 0 where
  pub slots : List (Slot A)
  pub mask : ℕ
  pub head : ℕ
  pub tail : ℕ
  pub dropped : ℕ
  pub rejected : ℕ
  pub closed : Bool
  pub drop_oldest_on_full : Bool

-- `zero_value` is the zero value of the element type.
module _ {A : Type 0} (zero_value : A) where
  abbrev pub empty_slot : Slot A
  empty_slot = record { value = zero_value; ready = false }

  -- `NewSPSCRing`: nil unless the capacity is a positive power of two.
  unfoldable pub new_spsc_ring : ℤ → Bool → Option (SpscRing A)
  new_spsc_ring (negsuc n) drop = none
  new_spsc_ring (pos capacity) drop =
      if ltb capacity 1
      then none
      else (if bit_and capacity (capacity - 1) == 0
          then some (record {
            slots = replicate capacity empty_slot;
            mask = capacity - 1;
            head = 0;
            tail = 0;
            dropped = 0;
            rejected = 0;
            closed = false;
            drop_oldest_on_full = drop;
          })
          else none)

  -- The branch of a full ring that drops its oldest value.
  unfoldable pub evict : SpscRing A → SpscRing A
  evict r = record r {
    slots = set r.slots (bit_and r.tail r.mask) empty_slot;
    tail = u64_add r.tail 1;
    dropped = u64_add r.dropped 1;
  }

  -- The end of `Push`.
  unfoldable pub enqueue : SpscRing A → A → SpscRing A
  enqueue r x = record r {
    slots = set r.slots (bit_and r.head r.mask) (record { value = x; ready = true });
    head = u64_add r.head 1;
  }

  unfoldable pub push : SpscRing A → A → Bool × SpscRing A
  unfolding evict enqueue
  push r x =
      if r.closed
      then (false, r)
      else (if leb (length r.slots) (u64_sub r.head r.tail)
          then (if not r.drop_oldest_on_full
              then (false, record r { rejected = u64_add r.rejected 1 })
              else (true, enqueue (evict r) x))
          else (true, enqueue r x))

  abbrev pub slot_at : SpscRing A → ℕ → Slot A
  slot_at r position = get_or r.slots (bit_and position r.mask) empty_slot

  unfoldable pub pop : SpscRing A → Option A × SpscRing A
  pop r =
      if leb r.head r.tail
      then (none, r)
      else (if not (slot_at r r.tail).ready then (none, r) else (
        some (slot_at r r.tail).value,
        record r {
          slots = set r.slots (bit_and r.tail r.mask) empty_slot;
          tail = u64_add r.tail 1;
        },
      ))

  unfoldable pub empty : SpscRing A → Bool
  empty r = leb r.head r.tail

  unfoldable pub len : SpscRing A → ℕ
  len r =
      if ltb (length r.slots) (u64_sub r.head r.tail) then length r.slots else u64_sub r.head r.tail

  -- The loop of `Snapshot` over `n` positions.
  unfoldable pub snapshot_from : SpscRing A → ℕ → ℕ → List A
  snapshot_from r position zero = []
  snapshot_from r position (suc n) =
      let rest = snapshot_from r (suc position) n in
      if (slot_at r position).ready then (slot_at r position).value ∷ rest else rest

  unfoldable pub snapshot : SpscRing A → OfflineRing A
  unfolding snapshot_from
  snapshot r = new_offline_ring (snapshot_from r r.tail (r.head - r.tail))

  unfoldable pub select_at : SpscRing A → ℤ → OfflineRing A
  unfolding snapshot
  select_at r (pos step) = select (snapshot r) (pos step)
  select_at r (negsuc k) = record (snapshot r) { cursor = length (snapshot r).values - (k + 1) }

  -- `Do`: what the visitor is handed, and the drained ring. Each round takes a value, so the number
  -- of values queued is fuel enough (`Moves`).
  unfoldable pub drain : ℕ → SpscRing A → List A × SpscRing A
  drain zero r = ([], r)
  drain (suc fuel) r =
      let (x, r') = pop r in
      elim x [ none ↦ ([], r') | some v ↦ let (vs, r'') = drain fuel r' in (v ∷ vs, r'') ]

  unfoldable pub do_all : SpscRing A → List A × SpscRing A
  unfolding drain
  do_all r = drain (suc (r.head - r.tail)) r

  unfoldable pub close : SpscRing A → SpscRing A
  unfolding do_all
  close r = (do_all (record r { closed = true })).1

  -- `drainInto`, with the source ring and the target.
  unfoldable pub drain_into : ℕ → SpscRing A → SpscRing A → Bool × SpscRing A × SpscRing A
  drain_into zero r target = (true, r, target)
  drain_into (suc fuel) r target =
      let (x, r') = pop r in
      elim x [
        | none ↦ (true, r', target)
        | some v ↦
            let (ok, target') = push target v in
            elim ok [ true ↦ drain_into fuel r' target' | false ↦ (false, r', target') ]
      ]
