-- ===== src/Prelude/Masks.antt =====
-- Masks and shifts by a power of two as arithmetic, for every width.
use Prim.Native.Nat.{ℕ, zero, suc, ◌+◌, ◌-◌, ◌*◌, ◌/◌, ◌%◌, ◌^◌, ◌<◌, bit_and, bit_or}
use mathlib.Core.Path.{◌≡◌, sym, ap, ◌∙◌}
use native.Mathlib.Nat.{
  pow-succ', one-le-pow, div-div-eq-div-mul, div-add-mod, mod-lt, mul-add-mod_self_left,
  mod-eq_of_lt, div-one,
}
use native.Mathlib.Omega.{arith}
use sphone.Prelude.Bits.{
  bit_and-even, bit_and-odd, bit_and-zero, bit_or-zero, bit_or_low, zero-bit_or,
}

two_pow_pos : (k : ℕ) → 0 < 2 ^ k
two_pow_pos k = one-le-pow k 2 (omega arith)

div_two_pow : (a k : ℕ) → a / 2 / 2 ^ k ≡ a / 2 ^ suc k
div_two_pow a k = div-div-eq-div-mul a 2 (2 ^ k) ∙ ap (λ p. a / p) (sym (pow-succ' 2 k))

mod_twice : (a p : ℕ) → 0 < p → a / 2 % p * 2 + a % 2 ≡ a % (2 * p)
mod_twice a p h = sym (
    ap (λ n. n % (2 * p)) whole
    ∙ mul-add-mod_self_left (2 * p) (a / 2 / p) (a / 2 % p * 2 + a % 2)
    ∙ mod-eq_of_lt (omega (arith, mod-lt (a / 2) h)))
  where
    whole : a ≡ 2 * p * (a / 2 / p) + (a / 2 % p * 2 + a % 2)
    whole = omega (arith, div-add-mod (a / 2) p)

-- `x & (m << k)`
pub bit_and-shift : (k a m : ℕ) → bit_and a (m * 2 ^ k) ≡ bit_and (a / 2 ^ k) m * 2 ^ k
bit_and-shift zero a m = let e : m * 2 ^ 0 ≡ m = omega arith in rw (e, div-one) (omega arith)
bit_and-shift (suc k) a m =
    let e : m * 2 ^ suc k ≡ m * 2 ^ k * 2 = rw pow-succ' (omega arith) in
    rw (e, bit_and-even a (m * 2 ^ k), bit_and-shift k (a / 2) m, div_two_pow a k)
      (rw pow-succ' (omega arith))

-- `x & (2 ^ k - 1)`
pub bit_and-ones : (k a : ℕ) → bit_and a (2 ^ k - 1) ≡ a % 2 ^ k
bit_and-ones zero a = omega (arith, bit_and-zero a)
bit_and-ones (suc k) a =
    let e : 2 ^ suc k - 1 ≡ (2 ^ k - 1) * 2 + 1 = omega (arith, pow-succ' 2 k, two_pow_pos k) in
    rw (e, bit_and-odd a (2 ^ k - 1), bit_and-ones k (a / 2), pow-succ')
      (mod_twice a (2 ^ k) (two_pow_pos k))

-- `(a << k) | b` and `b | (a << k)`, where `b` has `k` bits
pub bit_or-shift : (k a b : ℕ) → b < 2 ^ k → bit_or (a * 2 ^ k) b ≡ a * 2 ^ k + b
bit_or-shift zero a zero h = omega (arith, bit_or-zero (a * 1))
bit_or-shift zero a (suc b) h = absurd (omega arith)
bit_or-shift (suc k) a b h =
    let e : a * 2 ^ suc k ≡ a * 2 ^ k * 2 = rw pow-succ' (omega arith) in
    let half : a * 2 ^ suc k / 2 ≡ a * 2 ^ k = omega (arith, e) in
    rw (bit_or_low (a * 2 ^ suc k) b, half, bit_or-shift k a (b / 2) (omega (arith, pow-succ' 2 k)))
      (omega (arith, e))

pub bit_or_shift_right : (k a b : ℕ) → b < 2 ^ k → bit_or b (a * 2 ^ k) ≡ a * 2 ^ k + b
bit_or_shift_right zero a zero h = omega (arith, zero-bit_or (a * 1))
bit_or_shift_right zero a (suc b) h = absurd (omega arith)
bit_or_shift_right (suc k) a b h =
    let e : a * 2 ^ suc k ≡ a * 2 ^ k * 2 = rw pow-succ' (omega arith) in
    let half : a * 2 ^ suc k / 2 ≡ a * 2 ^ k = omega (arith, e) in
    rw
      (
        bit_or_low b (a * 2 ^ suc k),
        half,
        bit_or_shift_right k a (b / 2) (omega (arith, pow-succ' 2 k)),
      )
      (omega (arith, e))
