-- ===== src/Rlp/Minimal.antt =====
-- `_int_bytes` writes a number in as few bytes as hold it.
use native.Mathlib.Nat.{pow-suc, one-le-pow, pow-le-pow_right}
use native.Mathlib.Decide.{dec_le}
use base_arb_bot.Prelude.{
  ◌↔◌, ℕ, zero, suc, ◌+◌, ◌*◌, ◌/◌, ◌^◌, ◌≤◌, ◌<◌, ◌≡◌, refl, ap, ◌∙◌, length, arith,
}
use base_arb_bot.Prelude.Bytes.{
  to_bytes, from_bytes, from_bytes-to_bytes, length-to_bytes, pow_bytes,
}
use base_arb_bot.Rlp.{count_bits, bit_length, nat_bytes}

count_bits-zero : (fuel : ℕ) → count_bits fuel 0 ≡ 0
unfolding count_bits
count_bits-zero zero = refl
count_bits-zero (suc fuel) = refl

doubled :
    (fuel n : ℕ)
    → 0 < n
    → (0 < n / 2 → 2 ^ count_bits fuel (n / 2) ≤ 2 * (n / 2))
    → 2 ^ suc (count_bits fuel (n / 2)) ≤ 2 * n
doubled fuel n p hi = elim (dec_le 1 (n / 2)) [
  | yes q ↦ omega (arith, pow-suc 2 (count_bits fuel (n / 2)), hi q)
  | no q ↦
      let e : n / 2 ≡ 0 = omega arith in
      rw (ap (count_bits fuel) e ∙ count_bits-zero fuel) (omega arith)
]

-- With enough fuel the count is the exponent of the least power of 2 above `n`.
count_bits_bounds :
    (fuel n : ℕ) → n ≤ fuel → (n < 2 ^ count_bits fuel n) × (0 < n → 2 ^ count_bits fuel n ≤ 2 * n)
unfolding count_bits
count_bits_bounds zero n h = (omega arith, λ p. absurd (omega arith))
count_bits_bounds (suc fuel) zero h = (omega arith, λ p. absurd (omega arith))
count_bits_bounds (suc fuel) (suc m) h =
    let (lo, hi) = count_bits_bounds fuel (suc m / 2) (omega arith) in
    (omega (arith, lo, pow-suc 2 (count_bits fuel (suc m / 2))), λ p. doubled fuel (suc m) p hi)

pub bit_length_bounds : (n : ℕ) → (n < 2 ^ bit_length n) × (0 < n → 2 ^ bit_length n ≤ 2 * n)
unfolding bit_length
bit_length_bounds n = count_bits_bounds n n (omega arith)

abbrev size_of : ℕ → ℕ
size_of n = (bit_length n + 7) / 8

lt-size : (n : ℕ) → n < 256 ^ size_of n
lt-size n =
    let le : bit_length n ≤ size_of n * 8 = omega arith in
    rw (← pow_bytes (size_of n))
      (omega (arith, bit_length_bounds n, pow-le-pow_right {n = 2} (omega arith) le))

nat_bytes-pos : (n : ℕ) → 0 < n → nat_bytes n ≡ to_bytes (size_of n) n
unfolding nat_bytes
nat_bytes-pos n h = ground arith

-- `int.from_bytes` reads back what `_int_bytes` wrote.
pub from_bytes-nat_bytes : (n : ℕ) → from_bytes (nat_bytes n) ≡ n
from_bytes-nat_bytes zero = unfold nat_bytes from_bytes in refl
from_bytes-nat_bytes (suc n) =
    rw (nat_bytes-pos (suc n) (omega arith))
      (from_bytes-to_bytes (size_of (suc n)) (suc n) (lt-size (suc n)))

length-nat_bytes : (n : ℕ) → 0 < n → length (nat_bytes n) ≡ size_of n
length-nat_bytes n h = rw (nat_bytes-pos n h) (length-to_bytes (size_of n) n)

size-le : (n k : ℕ) → 0 < n → n < 256 ^ k → size_of n ≤ k
size-le n k p h =
    let top : 2 ^ (k * 8) ≡ 256 ^ k = pow_bytes k in
    let le : bit_length n ≤ k * 8 = elim (dec_le (suc (k * 8)) (bit_length n)) [
      | yes q ↦ absurd (
          omega (
            arith,
            (bit_length_bounds n).1 p,
            pow-le-pow_right {n = 2} (omega arith) q,
            pow-suc 2 (k * 8),
            top,
          ))
      | no q ↦ omega arith
    ] in
    omega arith

-- `_int_bytes` writes at most `k` bytes exactly when the number is below 256 ^ k.
pub length-nat_bytes_le : (n k : ℕ) → (length (nat_bytes n) ≤ k) ↔ (n < 256 ^ k)
length-nat_bytes_le zero k =
    (λ h. one-le-pow k 256 (omega arith), λ h. unfold nat_bytes in omega arith)
length-nat_bytes_le (suc n) k = (
  λ h.
      let le : size_of (suc n) ≤ k = omega (arith, length-nat_bytes (suc n)) in
      omega (arith, lt-size (suc n), pow-le-pow_right {n = 256} (omega arith) le),
  λ h. rw (length-nat_bytes (suc n) (omega arith)) (size-le (suc n) k (omega arith) h),
)
