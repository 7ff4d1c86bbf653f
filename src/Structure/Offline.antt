-- ===== src/Structure/Offline.antt =====
-- structure/offline.go: a ring over a copied slice. A view made by `Select` shares the slice in the
-- source; here every ring has its own values, so an overwrite through one view is not seen by
-- another.
pub mod Laws
use datura.Prelude.{
  ℕ, suc, ◌+◌, ◌-◌, min, Bool, true, Option, none, some, List, [], ◌∷◌, ◌++◌, length, get_elem?,
  set, take, drop, ltb, leb, if◌then◌else◌,
}
use datura.Prelude.Int.{ℤ, pos, negsuc, add_clamped}

-- The stored error is never set in the source, and is left out.
pub record OfflineRing (A : Type 0) : Type 0 where
  pub values : List A
  pub cursor : ℕ

module _ {A : Type 0} where
  unfoldable pub new_offline_ring : List A → OfflineRing A
  new_offline_ring values = record { values = values; cursor = 0 }

  -- `Push` always returns true.
  unfoldable pub push : OfflineRing A → A → OfflineRing A
  push r value =
      if ltb r.cursor (length r.values)
      then record { values = set r.values r.cursor value; cursor = suc r.cursor }
      else record { values = r.values ++ (value ∷ []); cursor = length (r.values ++ (value ∷ [])) }

  unfoldable pub pop : OfflineRing A → Option A
  pop r = get_elem? r.values r.cursor

  -- The sum is clamped below at 0 and above at the length.
  unfoldable pub select : OfflineRing A → ℤ → OfflineRing A
  select r step = record r { cursor = min (add_clamped r.cursor step) (length r.values) }

  -- `visited` is what the other ring's `Do` hands to its visitor; `none` is a nil ring.
  unfoldable pub merge : OfflineRing A → Option (List A) → Bool × OfflineRing A
  merge r none = (Bool.false, r)
  merge r (some visited) = (true, record r { values = r.values ++ visited })

  unfoldable pub slice : OfflineRing A → ℤ → OfflineRing A
  unfolding new_offline_ring
  slice r (negsuc count) = new_offline_ring []
  slice r (pos count) =
      if leb count 0
      then new_offline_ring []
      else (if leb (length r.values) r.cursor
          then new_offline_ring []
          else new_offline_ring
              (take (min (r.cursor + count) (length r.values) - r.cursor) (drop r.cursor r.values)))

  unfoldable pub len : OfflineRing A → ℕ
  len r = length r.values

  -- What `Do` hands to its visitor, in order.
  unfoldable pub visit : OfflineRing A → List A
  visit r = r.values
