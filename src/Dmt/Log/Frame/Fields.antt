-- ===== src/Dmt/Log/Frame/Fields.antt =====
-- The fields of a record read back.
use native.Mathlib.Nat.{pow-suc}
use datura.Prelude.{
  ℕ, zero, suc, ◌/◌, ◌^◌, ◌<◌, ◌≡◌, refl, ap, [], ◌∷◌, ◌++◌, arith, length, take, drop,
}
use datura.Prelude.Bytes.{Bytes}
use datura.Dmt.Log.Frame.{le_bytes, le_value}

pub length-le_bytes : (n v : ℕ) → length (le_bytes n v) ≡ n
unfolding le_bytes
length-le_bytes zero v = refl
length-le_bytes (suc n) v = ap suc (length-le_bytes n (v / 256))

-- A number that fits in `n` bytes is read back from them.
pub le_value-le_bytes : (n v : ℕ) → v < 256 ^ n → le_value (le_bytes n v) ≡ v
unfolding le_bytes le_value
le_value-le_bytes zero v h = omega arith
le_value-le_bytes (suc n) v h =
    omega (arith, le_value-le_bytes n (v / 256) (omega (arith, pow-suc 256 n)))

pub take-length : (a b : Bytes) (n : ℕ) → length a ≡ n → take n (a ++ b) ≡ a
take-length [] b zero h = refl
take-length [] b (suc n) h = absurd (omega arith)
take-length (x ∷ a) b zero h = absurd (omega arith)
take-length (x ∷ a) b (suc n) h = ap (λ t. x ∷ t) (take-length a b n (omega arith))

pub drop-length_eq : (a b : Bytes) (n : ℕ) → length a ≡ n → drop n (a ++ b) ≡ b
drop-length_eq [] b zero h = refl
drop-length_eq [] b (suc n) h = absurd (omega arith)
drop-length_eq (x ∷ a) b zero h = absurd (omega arith)
drop-length_eq (x ∷ a) b (suc n) h = drop-length_eq a b n (omega arith)

-- The first field of a header, and what is behind it.
pub first_field : (n v : ℕ) (rest : Bytes) → take n (le_bytes n v ++ rest) ≡ le_bytes n v
first_field n v rest = take-length (le_bytes n v) rest n (length-le_bytes n v)

pub behind_field : (n v : ℕ) (rest : Bytes) → drop n (le_bytes n v ++ rest) ≡ rest
behind_field n v rest = drop-length_eq (le_bytes n v) rest n (length-le_bytes n v)
