-- ===== src/Prelude/Bits.antt =====
-- `&` with a mask of low bits, and the test that tells powers of two, as arithmetic.
use Prim.Native.Nat.{
  ℕ, zero, suc, ◌+◌, ◌-◌, ◌*◌, ◌/◌, ◌%◌, ◌^◌, ◌≤◌, ◌<◌, min, bit_and, digits, bit_and-bitwise,
}
use mathlib.Core.Path.{◌≡◌, refl, ap, ◌∙◌}
use native.Mathlib.Nat.{pow-suc, div-add-mod, mod-lt, mod_self}
use native.Mathlib.Decide.{ℕ_discrete}
use native.Mathlib.Omega.{arith}

-- What `bit_and` runs, with the fuel shown.
abbrev run_and : ℕ → ℕ → ℕ → ℕ
run_and fuel x y = digits (λ rest. zero) min fuel x y

-- Fuel past the first number changes nothing.
enough_fuel : (x y fuel more : ℕ) → x ≤ fuel → fuel ≤ more → run_and more x y ≡ run_and fuel x y
enough_fuel zero y fuel zero h l = ap (λ (n : ℕ). run_and n 0 y) {x = 0} {y = fuel} (omega arith)
enough_fuel zero y zero (suc more) h l = refl
enough_fuel zero y (suc fuel) (suc more) h l = refl
enough_fuel (suc x) y fuel zero h l = absurd (omega arith)
enough_fuel (suc x) y zero (suc more) h l = absurd (omega arith)
enough_fuel (suc x) y (suc fuel) (suc more) h l =
    omega (arith, enough_fuel (suc x / 2) (y / 2) fuel more (omega arith) (omega arith))

-- The lowest digit, and `&` of the halves.
pub bit_and_step : (x y : ℕ) → bit_and x y ≡ bit_and (x / 2) (y / 2) * 2 + min (x % 2) (y % 2)
bit_and_step zero y = omega (arith, bit_and-bitwise 0 (y / 2), bit_and-bitwise 0 y)
bit_and_step (suc x) y =
    let halves = enough_fuel (suc x / 2) (y / 2) (suc x / 2) x (omega arith) (omega arith) in
    omega (arith, halves, bit_and-bitwise (suc x / 2) (y / 2), bit_and-bitwise (suc x) y)

and_nothing : (fuel x : ℕ) → x ≤ fuel → bit_and x 0 ≡ 0
and_nothing zero x h = ap (λ (t : ℕ). bit_and t 0) {y = 0} (omega arith)
and_nothing (suc fuel) x h = elim (ℕ_discrete x 0) [
  | yes e ↦ ap (λ (t : ℕ). bit_and t 0) e
  | no ne ↦ omega (arith, and_nothing fuel (x / 2) (omega arith), bit_and_step x 0)
]

pub one-le-pow : (k : ℕ) → 1 ≤ 2 ^ k
one-le-pow zero = omega arith
one-le-pow (suc k) = omega (arith, one-le-pow k, pow-suc 2 k)

-- A number below 2 ^ k and a number of multiples of it.
mask_split : (k q r : ℕ) → r < 2 ^ k → bit_and (2 ^ k * q + r) (2 ^ k - 1) ≡ r
mask_split zero q r h = omega (arith, and_nothing (2 ^ 0 * q + r) (2 ^ 0 * q + r) (omega arith))
mask_split (suc k) q r h =
    let double : 2 ^ suc k * q ≡ 2 * (2 ^ k * q) =
      omega (arith, ap (λ (t : ℕ). t * q) (pow-suc 2 k)) in
    omega (
      arith,
      one-le-pow k,
      pow-suc 2 k,
      double,
      bit_and_step (2 ^ suc k * q + r) (2 ^ suc k - 1),
      mask_split k q (r / 2) (omega (arith, pow-suc 2 k)),
      ap (λ (t : ℕ). bit_and t (2 ^ k - 1)) (half_sum k q r double),
      ap (bit_and ((2 ^ suc k * q + r) / 2)) (half_mask k),
    )
  where
    half_sum :
        (k q r : ℕ) → 2 ^ suc k * q ≡ 2 * (2 ^ k * q) → (2 ^ suc k * q + r) / 2 ≡ 2 ^ k * q + r / 2
    half_sum k q r e = omega arith

    half_mask : (k : ℕ) → (2 ^ suc k - 1) / 2 ≡ 2 ^ k - 1
    half_mask k = omega (arith, one-le-pow k, pow-suc 2 k)

-- `x & (2^k - 1)` is the remainder by `2 ^ k`.
pub bit_and_mask : (k x : ℕ) → bit_and x (2 ^ k - 1) ≡ x % 2 ^ k
bit_and_mask k x =
    let small : x % 2 ^ k < 2 ^ k = mod-lt x (one-le-pow k) in
    ap (λ (t : ℕ). bit_and t (2 ^ k - 1)) (omega (arith, div-add-mod x (2 ^ k)))
    ∙ mask_split k (x / 2 ^ k) (x % 2 ^ k) small

bit_and_self : (n a : ℕ) → a ≤ n → bit_and a a ≡ a
bit_and_self n zero h = refl
bit_and_self zero (suc a) h = absurd (omega arith)
bit_and_self (suc n) (suc a) h =
    omega (arith, bit_and_step (suc a) (suc a), bit_and_self n (suc a / 2) (omega arith))

-- A positive number whose `&` with its predecessor is zero is a power of two.
power_fuel : (n c : ℕ) → c ≤ n → 1 ≤ c → bit_and c (c - 1) ≡ 0 → (k : ℕ) × (c ≡ 2 ^ k)
power_fuel zero c h p e = absurd (omega arith)
power_fuel (suc n) c h p e = elim (ℕ_discrete (c % 2) 0) [
  | yes even ↦
      let less : (c - 1) / 2 ≡ c / 2 - 1 = omega arith in
      let (k, q) =
        power_fuel n (c / 2) (omega arith) (omega arith)
          (omega (arith, bit_and_step c (c - 1), ap (bit_and (c / 2)) less)) in
      (suc k, omega (arith, q, pow-suc 2 k))
  | no odd ↦
      let same : (c - 1) / 2 ≡ c / 2 = omega arith in
      (
        0,
        omega (
          arith,
          bit_and_step c (c - 1),
          ap (bit_and (c / 2)) same,
          bit_and_self (c / 2) (c / 2) (omega arith),
        ),
      )
]

-- The test `c & (c-1) == 0` passes on exactly the powers of two, among the positive numbers.
pub power_of_test : (c : ℕ) → 1 ≤ c → bit_and c (c - 1) ≡ 0 → (k : ℕ) × (c ≡ 2 ^ k)
power_of_test c p e = power_fuel c c (omega arith) p e

pub test_of_power : (k : ℕ) → bit_and (2 ^ k) (2 ^ k - 1) ≡ 0
test_of_power k = bit_and_mask k (2 ^ k) ∙ mod_self (2 ^ k)
