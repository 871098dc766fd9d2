-- ===== src/Base/Bits.antt =====
-- `a & m` never exceeds the mask, at every width.
use Prim.Native.Nat.{
  ℕ, zero, suc, ◌+◌, ◌-◌, ◌^◌, ◌*◌, ◌/◌, ◌%◌, ◌≤◌, min, bit_and, digits, bit_and-bitwise,
}
use mathlib.Core.Path.{◌≡◌, refl, ap₂}
use native.Mathlib.Nat.{pow-suc, one-le-pow}
use native.Mathlib.Omega.{arith}

-- the digits of `x & y`, with fuel
abbrev anded : ℕ → ℕ → ℕ → ℕ
anded fuel x y = digits (λ _. zero) min fuel x y

-- More fuel than `x` changes nothing.
anded_settles :
    (x y fuel : ℕ) → x ≤ fuel → (more : ℕ) → fuel ≤ more → anded more x y ≡ anded fuel x y
anded_settles zero y zero h zero k = refl
anded_settles zero y zero h (suc more) k = refl
anded_settles zero y (suc fuel) h zero k = absurd (omega arith)
anded_settles zero y (suc fuel) h (suc more) k = refl
anded_settles (suc x) y zero h more k = absurd (omega arith)
anded_settles (suc x) y (suc fuel) h zero k = absurd (omega arith)
anded_settles (suc x) y (suc fuel) h (suc more) k =
    let rest = anded_settles (suc x / 2) (y / 2) fuel (omega arith) more (omega arith) in
    omega (arith, rest)

zero-bit_and : (y : ℕ) → bit_and 0 y ≡ 0
zero-bit_and = bit_and-bitwise 0

bit_and_step : (x y : ℕ) → bit_and x y ≡ min (x % 2) (y % 2) + bit_and (x / 2) (y / 2) * 2
bit_and_step zero y =
    let here = zero-bit_and y in let below = zero-bit_and (y / 2) in omega (arith, here, below)
bit_and_step (suc x) y =
    let rest = anded_settles (suc x / 2) (y / 2) (suc x / 2) (omega arith) x (omega arith) in
    let whole = bit_and-bitwise (suc x) y in
    omega (arith, rest, whole, bit_and-bitwise (suc x / 2) (y / 2))

bit_and-le_fuel : (n a m : ℕ) → a ≤ n → bit_and a m ≤ m
bit_and-le_fuel zero zero m h = omega (arith, zero-bit_and m)
bit_and-le_fuel zero (suc a) m h = absurd (omega arith)
bit_and-le_fuel (suc n) zero m h = omega (arith, zero-bit_and m)
bit_and-le_fuel (suc n) (suc a) m h =
    omega (arith, bit_and_step (suc a) m, bit_and-le_fuel n (suc a / 2) (m / 2) (omega arith))

pub bit_and-le : (a m : ℕ) → bit_and a m ≤ m
bit_and-le a m = bit_and-le_fuel a a m (omega arith)

-- the test for a power of two
pub bit_and_pow2 : (k : ℕ) → bit_and (2 ^ k - 1) (2 ^ k) ≡ 0
bit_and_pow2 zero = refl
bit_and_pow2 (suc k) =
    let double : 2 ^ suc k ≡ 2 ^ k * 2 = pow-suc 2 k in
    let positive = one-le-pow k 2 in
    let half : (2 ^ suc k - 1) / 2 ≡ 2 ^ k - 1 = omega arith in
    let whole : 2 ^ suc k / 2 ≡ 2 ^ k = omega arith in
    omega (arith, bit_and_step (2 ^ suc k - 1) (2 ^ suc k), ap₂ bit_and half whole, bit_and_pow2 k)
