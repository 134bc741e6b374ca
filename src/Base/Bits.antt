-- ===== src/Base/Bits.antt =====
-- `bit_and` by a mask of ones, and `bit_or` of numbers that share no bit, at variables. Both
-- operations are read from the recursion on binary digits that defines them.
use Prim.Native.Nat.{
  ℕ, zero, suc, ◌+◌, ◌-◌, ◌*◌, ◌/◌, ◌%◌, ◌^◌, ◌≤◌, ◌<◌, min, max, bit_and, bit_or, digits,
  bit_and-bitwise, bit_or-bitwise,
}
use mathlib.Core.Path.{◌≡◌, refl, sym, ◌∙◌}
use native.Mathlib.Nat.{pow-suc}
use native.Mathlib.Omega.{arith}

-- An operation on binary digits: `join` on a pair of digits, `tail` where the left number has
-- ended.
module _ (tail : ℕ → ℕ) (join : ℕ → ℕ → ℕ) where
  digits-ended : (fuel y : ℕ) → digits tail join fuel 0 y ≡ tail y
  digits-ended zero y = refl
  digits-ended (suc fuel) y = refl

  -- More fuel than the left number changes nothing.
  digits_spare :
      (fuel more x y : ℕ)
      → x ≤ fuel
      → fuel ≤ more
      → digits tail join more x y ≡ digits tail join fuel x y
  digits_spare zero more x y le up =
      let ended : x ≡ 0 = omega arith in rw ended (digits-ended more y ∙ sym (digits-ended zero y))
  digits_spare (suc fuel) zero x y le up = absurd (omega arith)
  digits_spare (suc fuel) (suc more) zero y le up = refl
  digits_spare (suc fuel) (suc more) (suc x) y le up =
      let halves = digits_spare fuel more (suc x / 2) (y / 2) (omega arith) (omega arith) in
      omega (arith, halves)

  module _ (op : ℕ → ℕ → ℕ) (bitwise : (x y : ℕ) → op x y ≡ digits tail join x x y) where
    op-ended : (y : ℕ) → op 0 y ≡ tail y
    op-ended y = bitwise 0 y ∙ digits-ended 0 y

    op_halves : (x y : ℕ) → op (suc x) y ≡ op (suc x / 2) (y / 2) * 2 + join (suc x % 2) (y % 2)
    op_halves x y =
        let spare = digits_spare (suc x / 2) x (suc x / 2) (y / 2) (omega arith) (omega arith) in
        omega (arith, bitwise (suc x) y, bitwise (suc x / 2) (y / 2), spare)

and_ended : (y : ℕ) → bit_and 0 y ≡ 0
and_ended = op-ended (λ y. zero) min bit_and bit_and-bitwise

or_ended : (y : ℕ) → bit_or 0 y ≡ y
or_ended = op-ended (λ y. y) max bit_or bit_or-bitwise

and_halves : (x y : ℕ) → bit_and x y ≡ bit_and (x / 2) (y / 2) * 2 + min (x % 2) (y % 2)
and_halves zero y = omega (arith, and_ended y, and_ended (y / 2))
and_halves (suc x) y = op_halves (λ y. zero) min bit_and bit_and-bitwise x y

or_halves : (x y : ℕ) → bit_or x y ≡ bit_or (x / 2) (y / 2) * 2 + max (x % 2) (y % 2)
or_halves zero y = omega (arith, or_ended y, or_ended (y / 2))
or_halves (suc x) y = op_halves (λ y. y) max bit_or bit_or-bitwise x y

-- With 0 on the right, for every left number up to a bound.
and_nothing : (bound x : ℕ) → x ≤ bound → bit_and x 0 ≡ 0
and_nothing zero x le = let none_left : x ≡ 0 = omega arith in rw none_left (and_ended 0)
and_nothing (suc bound) zero le = and_ended 0
and_nothing (suc bound) (suc x) le =
    let half = and_nothing bound (suc x / 2) (omega arith) in
    omega (arith, and_halves (suc x) 0, half)

or_nothing : (bound x : ℕ) → x ≤ bound → bit_or x 0 ≡ x
or_nothing zero x le = let none_left : x ≡ 0 = omega arith in rw none_left (or_ended 0)
or_nothing (suc bound) zero le = or_ended 0
or_nothing (suc bound) (suc x) le =
    let half = or_nothing bound (suc x / 2) (omega arith) in
    omega (arith, or_halves (suc x) 0, half)

pow_pos : (k : ℕ) → 1 ≤ 2 ^ k
pow_pos zero = omega arith
pow_pos (suc k) = omega (arith, pow-suc 2 k, pow_pos k)

mod_twice : (a p : ℕ) → 1 ≤ p → a % (p * 2) ≡ a / 2 % p * 2 + a % 2
mod_twice a p h = grind arith

-- A mask of `k` ones keeps the low `k` bits.
pub and_mask : (k a : ℕ) → bit_and a (2 ^ k - 1) ≡ a % 2 ^ k
and_mask zero a = omega (arith, and_nothing a a)
and_mask (suc k) a =
    let p : 2 ^ suc k ≡ 2 ^ k * 2 = pow-suc 2 k in
    let half : (2 ^ k * 2 - 1) / 2 ≡ 2 ^ k - 1 = omega (arith, pow_pos k) in
    rw (p, and_halves a (2 ^ k * 2 - 1), half, and_mask k (a / 2))
      (omega (arith, mod_twice a (2 ^ k) (pow_pos k), pow_pos k))

-- Numbers that share no bit are joined by `bit_or` as by a sum.
pub or_disjoint : (k a b : ℕ) → b < 2 ^ k → bit_or (a * 2 ^ k) b ≡ a * 2 ^ k + b
or_disjoint zero a b h =
    let e : b ≡ 0 = omega arith in
    let one : a * 2 ^ 0 ≡ a = omega arith in rw (e, one, or_nothing a a (omega arith)) (omega arith)
or_disjoint (suc k) a b h =
    let p : 2 ^ suc k ≡ 2 ^ k * 2 = pow-suc 2 k in
    let x : a * (2 ^ k * 2) ≡ a * 2 ^ k * 2 = grind arith in
    let half : a * 2 ^ k * 2 / 2 ≡ a * 2 ^ k = omega arith in
    rw (p, x, or_halves (a * 2 ^ k * 2) b, half, or_disjoint k a (b / 2) (omega (arith, p)))
      (omega arith)
