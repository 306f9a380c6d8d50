-- ===== src/Words/Bits.antt =====
-- The bit operations at variables: what `|`, `&` and `^` are on the fields of a machine word.
use Prim.Native.Nat.{digits, bitwise, differ, bit_and-bitwise, bit_or-bitwise, bit_xor-bitwise}
use native.Mathlib.Nat.{pow-suc, one-le-pow}
use pipeline_lab.Prelude.{
  ℕ, zero, suc, ◌+◌, ◌-◌, ◌*◌, ◌/◌, ◌%◌, ◌^◌, ◌≤◌, ◌<◌, min, max, bit_and, bit_or, bit_xor, ◌≡◌,
  refl, ap, arith, ltb, if◌then◌else◌,
}

-- One binary digit at a time: `f` on the lowest digits, and the operation on the halves.
module _ (z : ℕ → ℕ) (f : ℕ → ℕ → ℕ) where
  digits_enough : (n m a b : ℕ) → a ≤ n → a ≤ m → digits z f n a b ≡ digits z f m a b
  digits_enough zero zero a b hn hm = refl
  digits_enough zero (suc m) zero b hn hm = refl
  digits_enough (suc n) zero zero b hn hm = refl
  digits_enough (suc n) (suc m) zero b hn hm = refl
  digits_enough zero _ (suc a) b hn hm = absurd (omega arith)
  digits_enough (suc n) zero (suc a) b hn hm = absurd (omega arith)
  digits_enough (suc n) (suc m) (suc a) b hn hm =
      ap (λ t. t * 2 + f (suc a % 2) (b % 2))
        (digits_enough n m (suc a / 2) (b / 2) (omega arith) (omega arith))

  bitwise_step :
      ((b : ℕ) → z b ≡ z (b / 2) * 2 + f 0 (b % 2))
      → (a b : ℕ) → bitwise z f a b ≡ bitwise z f (a / 2) (b / 2) * 2 + f (a % 2) (b % 2)
  bitwise_step base zero b = base b
  bitwise_step base (suc a) b =
      ap (λ t. t * 2 + f (suc a % 2) (b % 2))
        (digits_enough a (suc a / 2) (suc a / 2) (b / 2) (omega arith) (omega arith))

pub bit_and_step : (a b : ℕ) → bit_and a b ≡ bit_and (a / 2) (b / 2) * 2 + min (a % 2) (b % 2)
bit_and_step a b = simp bit_and-bitwise (bitwise_step (λ b'. 0) min (λ b'. omega arith) a b)

pub bit_or_step : (a b : ℕ) → bit_or a b ≡ bit_or (a / 2) (b / 2) * 2 + max (a % 2) (b % 2)
bit_or_step a b = simp bit_or-bitwise (bitwise_step (λ b'. b') max (λ b'. omega arith) a b)

differ_digits : (x y : ℕ) → x < 2 → y < 2 → differ x y ≡ (x + y) % 2
differ_digits zero zero hx hy = refl
differ_digits zero (suc zero) hx hy = refl
differ_digits (suc zero) zero hx hy = refl
differ_digits (suc zero) (suc zero) hx hy = refl
differ_digits (suc (suc x)) y hx hy = absurd (omega arith)
differ_digits zero (suc (suc y)) hx hy = absurd (omega arith)
differ_digits (suc zero) (suc (suc y)) hx hy = absurd (omega arith)

pub bit_xor_step : (a b : ℕ) → bit_xor a b ≡ bit_xor (a / 2) (b / 2) * 2 + (a + b) % 2
bit_xor_step a b = simp bit_xor-bitwise (
    omega (
      arith,
      bitwise_step (λ b'. b') differ (λ b'. omega arith) a b,
      differ_digits (a % 2) (b % 2) (omega arith) (omega arith),
    ))

-- A zero on the right, for all numbers up to a bound.
bit_or-zero_upto : (n a : ℕ) → a ≤ n → bit_or a 0 ≡ a
bit_or-zero_upto n zero h = bit_or-bitwise 0 0
bit_or-zero_upto zero (suc a) h = absurd (omega arith)
bit_or-zero_upto (suc n) (suc a) h =
    omega (arith, bit_or_step (suc a) 0, bit_or-zero_upto n (suc a / 2) (omega arith))

bit_and-zero_upto : (n a : ℕ) → a ≤ n → bit_and a 0 ≡ 0
bit_and-zero_upto n zero h = bit_and-bitwise 0 0
bit_and-zero_upto zero (suc a) h = absurd (omega arith)
bit_and-zero_upto (suc n) (suc a) h =
    omega (arith, bit_and_step (suc a) 0, bit_and-zero_upto n (suc a / 2) (omega arith))

bit_xor-zero_upto : (n a : ℕ) → a ≤ n → bit_xor a 0 ≡ a
bit_xor-zero_upto n zero h = bit_xor-bitwise 0 0
bit_xor-zero_upto zero (suc a) h = absurd (omega arith)
bit_xor-zero_upto (suc n) (suc a) h =
    omega (arith, bit_xor_step (suc a) 0, bit_xor-zero_upto n (suc a / 2) (omega arith))

pub double_pow : (q k : ℕ) → q * 2 ^ suc k ≡ 2 * (q * 2 ^ k)
double_pow q k = omega (arith, ap (λ (t : ℕ). q * t) (pow-suc 2 k))

-- `(q << k) | r` is a sum where `r` fits into `k` bits.
pub bit_or-fields : (k q r : ℕ) → r < 2 ^ k → bit_or (q * 2 ^ k) r ≡ q * 2 ^ k + r
bit_or-fields zero q r fits = ground (arith, bit_or-zero_upto q q (omega arith))
bit_or-fields (suc k) q r fits =
    let halves = bit_or-fields k q (r / 2) (omega (arith, pow-suc 2 k)) in
    ground (arith, bit_or_step (q * 2 ^ suc k) r, double_pow q k, halves)

bit_and-low_fields : (k q r : ℕ) → r < 2 ^ k → bit_and (q * 2 ^ k + r) (2 ^ k - 1) ≡ r
bit_and-low_fields zero q r fits =
    ground (arith, bit_and-zero_upto (q * 1 + r) (q * 1 + r) (omega arith))
bit_and-low_fields (suc k) q r fits = ground (
  arith,
  bit_and_step (q * 2 ^ suc k + r) (2 ^ suc k - 1),
  double_pow q k,
  pow-suc 2 k,
  one-le-pow k 2,
  bit_and-low_fields k q (r / 2) (omega (arith, pow-suc 2 k)),
)

-- `a & (2 ^ k - 1)` keeps the `k` low bits.
pub bit_and-mask : (k a : ℕ) → bit_and a (2 ^ k - 1) ≡ a % 2 ^ k
bit_and-mask k a = ground (arith, one-le-pow k 2, bit_and-low_fields k (a / 2 ^ k) (a % 2 ^ k))

-- `v ^ (1 << k)` flips bit `k`.
pub bit_xor-pow :
    (k v : ℕ) → v < 2 ^ suc k → bit_xor v (2 ^ k) ≡ (if ltb v (2 ^ k) then v + 2 ^ k else v - 2 ^ k)
bit_xor-pow zero zero fits = refl
bit_xor-pow zero (suc zero) fits = refl
bit_xor-pow zero (suc (suc v)) fits = absurd (omega arith)
bit_xor-pow (suc k) v fits = ground (
  arith,
  bit_xor_step v (2 ^ suc k),
  pow-suc 2 k,
  pow-suc 2 (suc k),
  bit_xor-pow k (v / 2) (omega (arith, pow-suc 2 (suc k))),
)

-- `w | r` is a sum where the `k` low bits of `w` are free and `r` fits into them.
pub bit_or-sum : (k w r : ℕ) → w % 2 ^ k ≡ 0 → r < 2 ^ k → bit_or w r ≡ w + r
bit_or-sum k w r free fits =
    let whole : w ≡ w / 2 ^ k * 2 ^ k = ground arith in
    ground (arith, bit_or-fields k (w / 2 ^ k) r fits)

-- The bit operations stay within any number of bits.
pub bit_and-lt : (k a b : ℕ) → a < 2 ^ k → b < 2 ^ k → bit_and a b < 2 ^ k
bit_and-lt zero a b ha hb = let za : a ≡ 0 = omega arith in rw (za, bit_and-bitwise) (omega arith)
bit_and-lt (suc k) a b ha hb =
    let half =
      bit_and-lt k (a / 2) (b / 2) (omega (arith, pow-suc 2 k)) (omega (arith, pow-suc 2 k)) in
    omega (arith, bit_and_step a b, pow-suc 2 k, half)

pub bit_or-lt : (k a b : ℕ) → a < 2 ^ k → b < 2 ^ k → bit_or a b < 2 ^ k
bit_or-lt zero a b ha hb = let za : a ≡ 0 = omega arith in rw (za, bit_or-bitwise) (omega arith)
bit_or-lt (suc k) a b ha hb =
    let half =
      bit_or-lt k (a / 2) (b / 2) (omega (arith, pow-suc 2 k)) (omega (arith, pow-suc 2 k)) in
    omega (arith, bit_or_step a b, pow-suc 2 k, half)

pub bit_xor-lt : (k a b : ℕ) → a < 2 ^ k → b < 2 ^ k → bit_xor a b < 2 ^ k
bit_xor-lt zero a b ha hb = let za : a ≡ 0 = omega arith in rw (za, bit_xor-bitwise) (omega arith)
bit_xor-lt (suc k) a b ha hb =
    let half =
      bit_xor-lt k (a / 2) (b / 2) (omega (arith, pow-suc 2 k)) (omega (arith, pow-suc 2 k)) in
    omega (arith, bit_xor_step a b, pow-suc 2 k, half)
