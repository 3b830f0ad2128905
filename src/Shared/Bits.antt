-- ===== src/Shared/Bits.antt =====
-- Single bits of a number, and what `&` and `|` do to them, at every width.
use Prim.Native.Nat.{ℕ, zero, suc, ◌+◌, ◌-◌, ◌*◌, ◌/◌, ◌%◌, ◌^◌, ◌≤◌, ◌<◌, min, max}
use Prim.Native.Nat.{bit_and, bit_or, digits, bitwise, bit_and-bitwise, bit_or-bitwise}
use mathlib.Core.Path.{◌≡◌, refl, ap, sym, ◌∙◌}
use mathlib.Core.Bool.{Bool, true, false, not, ◌&&◌, ◌||◌}
use native.Mathlib.Nat.{one-le-pow, pow-suc}
use native.Mathlib.Omega.{arith}
use retro_cpu_emu.Shared.Tests.{◌==◌, if◌then◌else◌}

-- The digit recursion of two numbers, for any fuel that reaches the first of them.
module _ (z : ℕ → ℕ) (f : ℕ → ℕ → ℕ) where
  digits-zero : (fuel y : ℕ) → digits z f fuel 0 y ≡ z y
  digits-zero zero y = refl
  digits-zero (suc fuel) y = refl

  digits-enough : (k l x y : ℕ) → x ≤ k → x ≤ l → digits z f k x y ≡ digits z f l x y
  digits-enough k l zero y hk hl = digits-zero k y ∙ sym (digits-zero l y)
  digits-enough zero l (suc x) y hk hl = absurd (omega arith)
  digits-enough (suc k) zero (suc x) y hk hl = absurd (omega arith)
  digits-enough (suc k) (suc l) (suc x) y hk hl =
      let half = digits-enough k l (suc x / 2) (y / 2) (omega arith) (omega arith) in
      ap (λ (t : ℕ). t * 2 + f (suc x % 2) (y % 2)) half

  bitwise-halves :
      (x y : ℕ)
      → bitwise z f (suc x) y ≡ bitwise z f (suc x / 2) (y / 2) * 2 + f (suc x % 2) (y % 2)
  bitwise-halves x y =
      let h = suc x / 2 in
      ap (λ (t : ℕ). t * 2 + f (suc x % 2) (y % 2))
        (digits-enough x h h (y / 2) (omega arith) (omega arith))

pub or_step : (x y : ℕ) → bit_or x y ≡ bit_or (x / 2) (y / 2) * 2 + max (x % 2) (y % 2)
or_step zero y = simp bit_or-bitwise (omega arith)
or_step (suc w) y = simp bit_or-bitwise (bitwise-halves (λ v. v) max w y)

pub and_step : (x y : ℕ) → bit_and x y ≡ bit_and (x / 2) (y / 2) * 2 + min (x % 2) (y % 2)
and_step zero y = simp bit_and-bitwise (omega arith)
and_step (suc w) y = simp bit_and-bitwise (bitwise-halves (λ v. 0) min w y)

-- Bit `k` of `x`, counted from the lowest.
abbrev pub bit : ℕ → ℕ → ℕ
bit x zero = x % 2
bit x (suc k) = bit (x / 2) k

pub bit-or : (k a b : ℕ) → bit (bit_or a b) k ≡ max (bit a k) (bit b k)
bit-or zero a b = omega (arith, or_step a b)
bit-or (suc k) a b =
    let e : bit_or a b / 2 ≡ bit_or (a / 2) (b / 2) = omega (arith, or_step a b) in
    rw e (bit-or k (a / 2) (b / 2))

pub bit-and : (k a b : ℕ) → bit (bit_and a b) k ≡ min (bit a k) (bit b k)
bit-and zero a b = omega (arith, and_step a b)
bit-and (suc k) a b =
    let e : bit_and a b / 2 ≡ bit_and (a / 2) (b / 2) = omega (arith, and_step a b) in
    rw e (bit-and k (a / 2) (b / 2))

pub bit-lt : (k x : ℕ) → bit x k < 2
bit-lt zero x = omega arith
bit-lt (suc k) x = bit-lt k (x / 2)

lt_two_pow : (x : ℕ) → x < 2 ^ x
lt_two_pow zero = omega arith
lt_two_pow (suc x) = omega (arith, lt_two_pow x, pow-suc 2 x)

-- `x & 0` is 0, below a power of 2 to recur on.
and_zero_pow : (k x : ℕ) → x < 2 ^ k → bit_and x 0 ≡ 0
and_zero_pow zero x h = let e : x ≡ 0 = omega arith in rw e refl
and_zero_pow (suc k) x h =
    omega (arith, pow-suc 2 k, and_step x 0, and_zero_pow k (x / 2) (omega (arith, pow-suc 2 k)))

pub and_zero : (x : ℕ) → bit_and x 0 ≡ 0
and_zero x = and_zero_pow x x (lt_two_pow x)

-- `x & (1 << k)` is the bit, in its place.
pub and_pow : (k x : ℕ) → bit_and x (2 ^ k) ≡ bit x k * 2 ^ k
and_pow zero x = omega (arith, and_step x 1, and_zero (x / 2))
and_pow (suc k) x = ground (
  arith,
  and_step x (2 ^ suc k),
  pow-suc 2 k,
  ap (λ (t : ℕ). bit (x / 2) k * t) (pow-suc 2 k),
  and_pow k (x / 2),
)

-- The code's test `(x & mask) !== 0`.
unfoldable pub has : ℕ → ℕ → Bool
has x mask = not (bit_and x mask == 0)

scaled_bit : (b p : ℕ) → b < 2 → 0 < p → not (b * p == 0) ≡ (b == 1)
scaled_bit zero p h q = ground arith
scaled_bit (suc zero) p h q = ground arith
scaled_bit (suc (suc b)) p h q = absurd (omega arith)

pub has_bit : (k x : ℕ) → has x (2 ^ k) ≡ (bit x k == 1)
unfolding has
has_bit k x =
    rw (and_pow k x) (scaled_bit (bit x k) (2 ^ k) (bit-lt k x) (one-le-pow k 2 (omega arith)))

-- Setting and masking bits, as the test sees them; at numerals the last parts compute.
pub has-or : (k a m : ℕ) → has (bit_or a m) (2 ^ k) ≡ (has a (2 ^ k) || bit m k == 1)
has-or k a m =
    rw (has_bit k (bit_or a m), has_bit k a) (ground (arith, bit-or k a m, bit-lt k a, bit-lt k m))

pub has-and : (k a m : ℕ) → has (bit_and a m) (2 ^ k) ≡ (has a (2 ^ k) && bit m k == 1)
has-and k a m =
    rw (has_bit k (bit_and a m), has_bit k a)
      (ground (arith, bit-and k a m, bit-lt k a, bit-lt k m))

pub has-if :
    (t : Bool) (a b mask : ℕ)
    → has (if t then a else b) mask ≡ (if t then has a mask else has b mask)
has-if true a b mask = refl
has-if false a b mask = refl

mod_double : (x p : ℕ) → 0 < p → x % (p * 2) ≡ x / 2 % p * 2 + x % 2
mod_double x p h = grind arith

half_mod : (x p : ℕ) → 0 < p → x % (p * 2) / 2 ≡ x / 2 % p
half_mod x p h = omega (arith, mod_double x p h)

or-half : (a b : ℕ) → bit_or a b / 2 ≡ bit_or (a / 2) (b / 2)
or-half a b = omega (arith, or_step a b)

and-half : (a b : ℕ) → bit_and a b / 2 ≡ bit_and (a / 2) (b / 2)
and-half a b = omega (arith, and_step a b)

-- The low `k` bits of `a | b` and `a & b` are made of the low bits of `a` and `b`.
pub low-or : (k a b : ℕ) → bit_or a b % 2 ^ k ≡ bit_or (a % 2 ^ k) (b % 2 ^ k)
low-or zero a b = ground arith
low-or (suc k) a b =
    let p = one-le-pow k 2 (omega arith) in
    rw
      (
        or_step (a % 2 ^ suc k) (b % 2 ^ suc k),
        pow-suc 2 k,
        half_mod a (2 ^ k) p,
        half_mod b (2 ^ k) p,
        ← low-or k (a / 2) (b / 2),
        ← or-half a b,
      )
      (omega (
        arith,
        or_step a b,
        mod_double (bit_or a b) (2 ^ k) p,
        mod_double a (2 ^ k) p,
        mod_double b (2 ^ k) p,
      ))

pub low-and : (k a b : ℕ) → bit_and a b % 2 ^ k ≡ bit_and (a % 2 ^ k) (b % 2 ^ k)
low-and zero a b = ground arith
low-and (suc k) a b =
    let p = one-le-pow k 2 (omega arith) in
    rw
      (
        and_step (a % 2 ^ suc k) (b % 2 ^ suc k),
        pow-suc 2 k,
        half_mod a (2 ^ k) p,
        half_mod b (2 ^ k) p,
        ← low-and k (a / 2) (b / 2),
        ← and-half a b,
      )
      (omega (
        arith,
        and_step a b,
        mod_double (bit_and a b) (2 ^ k) p,
        mod_double a (2 ^ k) p,
        mod_double b (2 ^ k) p,
      ))

or_zero_pow : (k x : ℕ) → x < 2 ^ k → bit_or x 0 ≡ x
or_zero_pow zero x h = let e : x ≡ 0 = omega arith in rw e refl
or_zero_pow (suc k) x h =
    omega (arith, pow-suc 2 k, or_step x 0, or_zero_pow k (x / 2) (omega (arith, pow-suc 2 k)))

pub or_zero : (x : ℕ) → bit_or x 0 ≡ x
or_zero x = or_zero_pow x x (lt_two_pow x)

-- A mask of `k` ones is the remainder.
pub and_ones : (k a : ℕ) → bit_and a (2 ^ k - 1) ≡ a % 2 ^ k
and_ones zero a = rw and_zero (omega arith)
and_ones (suc k) a =
    let p = one-le-pow k 2 (omega arith) in
    let e : (2 ^ k * 2 - 1) / 2 ≡ 2 ^ k - 1 = omega (arith, p) in
    rw (pow-suc 2 k) (
      omega (
        arith,
        and_step a (2 ^ k * 2 - 1),
        ap (λ (t : ℕ). bit_and (a / 2) t) e,
        and_ones k (a / 2),
        mod_double a (2 ^ k) p,
        p,
      ))

-- Fields that do not overlap are a sum: `r` below `2 ^ k`, and `q` shifted above it.
pub or_fields : (k q r : ℕ) → r < 2 ^ k → bit_or (q * 2 ^ k) r ≡ q * 2 ^ k + r
or_fields zero q r h = let e : r ≡ 0 = omega arith in rw (e, or_zero) (omega arith)
or_fields (suc k) q r h =
    let e : q * (2 ^ k * 2) / 2 ≡ q * 2 ^ k = omega arith in
    let h' : r < 2 ^ k * 2 = rw pow-suc at h in
    rw (pow-suc 2 k, or_step (q * (2 ^ k * 2)) r, e, or_fields k q (r / 2) (omega arith))
      (omega arith)

or_comm_below : (n a b : ℕ) → a ≤ n → b ≤ n → bit_or a b ≡ bit_or b a
or_comm_below zero a b h k = let e : a ≡ 0 = omega arith in let f : b ≡ 0 = omega arith in rw (e, f)
or_comm_below (suc n) a b h k =
    omega
      (arith, or_step a b, or_step b a, or_comm_below n (a / 2) (b / 2) (omega arith) (omega arith))

pub or_comm : (a b : ℕ) → bit_or a b ≡ bit_or b a
or_comm a b = or_comm_below (a + b) a b (omega arith) (omega arith)
