-- ===== src/Prelude/Bytes.antt =====
-- Byte strings as lists of numbers: `int.to_bytes`, `int.from_bytes` (big endian), `bytes.hex` and
-- `bytes.fromhex`.
use base_arb_bot.Prelude.Tests.{ltb, leb, ◌==◌, if◌then◌else◌}
use base_arb_bot.Prelude.Lists.{length, All, All-append, length-append}
use base_arb_bot.Prelude.Text.{Text, lower, lower_code}
use Prim.Native.Nat.{ℕ, zero, suc, ◌+◌, ◌-◌, ◌*◌, ◌/◌, ◌%◌, ◌^◌, ◌≤◌, ◌<◌}
use mathlib.Core.Path.{◌≡◌, refl, ap, ap₂, ◌∙◌}
use mathlib.Core.Bool.{◌&&◌, ◌||◌}
use mathlib.Core.Option
use mathlib.Core.Option.{Option, none, some}
use mathlib.Core.List.{List, [], ◌∷◌, ◌++◌}
use native.Mathlib.Omega.{arith}
use native.Mathlib.Numerals.{towards_suc}
use native.Mathlib.Nat.{pow-suc, mul-le-mul_right}

abbrev pub IsByte : ℕ → Type 0
IsByte b = b < 256

-- `value.to_bytes(size, "big")` for a value that fits
unfoldable pub to_bytes : ℕ → ℕ → List ℕ
to_bytes zero value = []
to_bytes (suc size) value = to_bytes size (value / 256) ++ value % 256 ∷ []

unfoldable pub from_bytes_acc : ℕ → List ℕ → ℕ
from_bytes_acc acc [] = acc
from_bytes_acc acc (b ∷ bs) = from_bytes_acc (acc * 256 + b) bs

-- `int.from_bytes(bs, "big")`
unfoldable pub from_bytes : List ℕ → ℕ
unfolding from_bytes_acc
from_bytes bs = from_bytes_acc 0 bs

abbrev pub hex_digit : ℕ → ℕ
hex_digit n = if ltb n 10 then 48 + n else 87 + n

-- `bs.hex()`
unfoldable pub to_hex : List ℕ → Text
to_hex [] = []
to_hex (b ∷ bs) = hex_digit (b / 16) ∷ hex_digit (b % 16) ∷ to_hex bs

abbrev pub hex_value : ℕ → Option ℕ
hex_value c =
    if leb 48 c && leb c 57
    then some (c - 48)
    else if leb 97 c && leb c 102
    then some (c - 87)
    else if leb 65 c && leb c 70
    then some (c - 55)
    else none

-- `bytes.fromhex` reads a character after `top`, the upper digit of a byte if one is waiting. Blanks
-- may stand between bytes, and not inside one.
hex_step : Option ℕ → ℕ → Option (Option ℕ × List ℕ)
hex_step none c =
    if (leb 9 c && leb c 13) || c == 32
    then some (none, [])
    else Option.map (λ v. (some v, [])) (hex_value c)
hex_step (some top) c = Option.map (λ v. (none, (top * 16 + v) ∷ [])) (hex_value c)

from_hex_after : Option ℕ → Text → Option (List ℕ)
from_hex_after none [] = some []
from_hex_after (some top) [] = none
from_hex_after top (c ∷ s) = elim (hex_step top c) [
  | none ↦ none
  | some (top', out) ↦ Option.map (λ bs. out ++ bs) (from_hex_after top' s)
]

-- `bytes.fromhex(s)`; `none` is its ValueError
unfoldable pub from_hex : Text → Option (List ℕ)
unfolding from_hex_after hex_step
from_hex s = from_hex_after none s

pub pow_bytes : (size : ℕ) → 2 ^ (size * 8) ≡ 256 ^ size
pow_bytes zero = refl
pow_bytes (suc size) =
    let e : suc size * 8 ≡ size * 8 + 8 = omega arith in
    rw e (simp towards_suc (omega (arith, pow_bytes size, pow-suc 256 size)))

-- What `to_bytes` writes.
pub length-to_bytes : (size value : ℕ) → length (to_bytes size value) ≡ size
unfolding to_bytes
length-to_bytes zero value = refl
length-to_bytes (suc size) value = omega (
  arith,
  length-append (to_bytes size (value / 256)) (value % 256 ∷ []),
  length-to_bytes size (value / 256),
)

from_bytes_acc-append :
    (acc : ℕ) (xs ys : List ℕ)
    → from_bytes_acc acc (xs ++ ys) ≡ from_bytes_acc (from_bytes_acc acc xs) ys
unfolding from_bytes_acc
from_bytes_acc-append acc [] ys = refl
from_bytes_acc-append acc (x ∷ xs) ys = from_bytes_acc-append (acc * 256 + x) xs ys

pub from_bytes-to_bytes :
    (size value : ℕ) → value < 256 ^ size → from_bytes (to_bytes size value) ≡ value
unfolding from_bytes to_bytes
from_bytes-to_bytes zero value h = omega arith
from_bytes-to_bytes (suc size) value h =
    from_bytes_acc-append 0 (to_bytes size (value / 256)) (value % 256 ∷ [])
    ∙ rw (from_bytes-to_bytes size (value / 256) (omega (arith, pow-suc 256 size))) (omega arith)

from_bytes_acc_injective :
    (a b : ℕ) (xs ys : List ℕ)
    → All IsByte xs
    → All IsByte ys
    → length xs ≡ length ys
    → from_bytes_acc a xs ≡ from_bytes_acc b ys
    → (a ≡ b) × (xs ≡ ys)
unfolding from_bytes_acc
from_bytes_acc_injective a b [] [] hx hy hl e = (e, refl)
from_bytes_acc_injective a b [] (y ∷ ys) hx hy hl e = absurd (omega arith)
from_bytes_acc_injective a b (x ∷ xs) [] hx hy hl e = absurd (omega arith)
from_bytes_acc_injective a b (x ∷ xs) (y ∷ ys) hx hy hl e =
    let (f, g) =
      from_bytes_acc_injective (a * 256 + x) (b * 256 + y) xs ys hx.1 hy.1 (omega arith) e in
    (omega arith, ap₂ (λ z zs. z ∷ zs) (omega arith) g)

-- A byte string is determined by its length and its value.
pub from_bytes-injective :
    (xs ys : List ℕ)
    → All IsByte xs
    → All IsByte ys
    → length xs ≡ length ys
    → from_bytes xs ≡ from_bytes ys
    → xs ≡ ys
unfolding from_bytes
from_bytes-injective xs ys hx hy hl e = (from_bytes_acc_injective 0 0 xs ys hx hy hl e).1

pub to_bytes-IsByte : (size value : ℕ) → All IsByte (to_bytes size value)
unfolding to_bytes
to_bytes-IsByte zero value = tt
to_bytes-IsByte (suc size) value =
    All-append IsByte (to_bytes size (value / 256)) (value % 256 ∷ [])
      (to_bytes-IsByte size (value / 256)) (omega arith)

lt_of_shift :
    (p q v acc x : ℕ) → q ≡ p * 256 → x < 256 → v < (acc * 256 + x + 1) * p → v < (acc + 1) * q
lt_of_shift p q v acc x hq hx hv =
    let le : acc * 256 + x + 1 ≤ (acc + 1) * 256 = omega arith in
    omega (arith, mul-le-mul_right p le, ap (λ (t : ℕ). (acc + 1) * t) hq)

from_bytes_acc-lt :
    (acc : ℕ) (xs : List ℕ) → All IsByte xs → from_bytes_acc acc xs < (acc + 1) * 256 ^ length xs
unfolding from_bytes_acc
from_bytes_acc-lt acc [] h = omega arith
from_bytes_acc-lt acc (x ∷ xs) h =
    lt_of_shift (256 ^ length xs) _ _ acc x (pow-suc 256 (length xs)) h.0
      (from_bytes_acc-lt (acc * 256 + x) xs h.1)

pub from_bytes-lt : (xs : List ℕ) → All IsByte xs → from_bytes xs < 256 ^ length xs
unfolding from_bytes
from_bytes-lt xs h = omega (arith, from_bytes_acc-lt 0 xs h)

pub to_bytes-from_bytes : (xs : List ℕ) → All IsByte xs → to_bytes (length xs) (from_bytes xs) ≡ xs
to_bytes-from_bytes xs h =
    from_bytes-injective (to_bytes (length xs) (from_bytes xs)) xs
      (to_bytes-IsByte (length xs) (from_bytes xs)) h (length-to_bytes (length xs) (from_bytes xs))
      (from_bytes-to_bytes (length xs) (from_bytes xs) (from_bytes-lt xs h))

hex_value-hex_digit : (n : ℕ) → n < 16 → hex_value (hex_digit n) ≡ some n
hex_value-hex_digit n h = ground arith

hex_step-upper : (n : ℕ) → n < 16 → hex_step none (hex_digit n) ≡ some (some n, [])
unfolding hex_step
hex_step-upper n h = ground (arith, hex_value-hex_digit n h)

hex_step-lower :
    (top n : ℕ) → n < 16 → hex_step (some top) (hex_digit n) ≡ some (none, (top * 16 + n) ∷ [])
unfolding hex_step
hex_step-lower top n h = rw (hex_value-hex_digit n h)

from_hex_after_lem :
    (top : Option ℕ) (c : ℕ) (s : Text) {next : Option ℕ} {out : List ℕ}
    → hex_step top c ≡ some (next, out)
    → from_hex_after top (c ∷ s) ≡ Option.map (λ bs. out ++ bs) (from_hex_after next s)
unfolding from_hex_after
from_hex_after_lem none c s e = rw (e, from_hex_after)
from_hex_after_lem (some top) c s e = rw (e, from_hex_after)

from_hex_after-to_hex : (bs : List ℕ) → All IsByte bs → from_hex_after none (to_hex bs) ≡ some bs
unfolding to_hex
from_hex_after-to_hex [] h = unfold from_hex_after in refl
from_hex_after-to_hex (b ∷ bs) h =
    rw
      (
        from_hex_after_lem none _ (hex_digit (b % 16) ∷ to_hex bs)
            (hex_step-upper (b / 16) (omega arith)),
        from_hex_after_lem (some (b / 16)) _ (to_hex bs)
            (hex_step-lower (b / 16) (b % 16) (omega arith)),
        from_hex_after-to_hex bs h.1,
      )
      (ap (λ c. some (c ∷ bs)) (omega arith))

-- `bytes.fromhex` reads back what `bytes.hex` wrote.
pub from_hex-to_hex : (bs : List ℕ) → All IsByte bs → from_hex (to_hex bs) ≡ some bs
unfolding from_hex
from_hex-to_hex bs h = from_hex_after-to_hex bs h

lower_code-hex_digit : (n : ℕ) → n < 16 → lower_code (hex_digit n) ≡ hex_digit n
lower_code-hex_digit n h = ground arith

pub lower-to_hex : (bs : List ℕ) → All IsByte bs → lower (to_hex bs) ≡ to_hex bs
unfolding lower to_hex
lower-to_hex [] h = refl
lower-to_hex (b ∷ bs) h = cc (
  lower_code-hex_digit (b / 16) (omega arith),
  lower_code-hex_digit (b % 16) (omega arith),
  lower-to_hex bs h.1,
)

pub length-to_hex : (bs : List ℕ) → length (to_hex bs) ≡ 2 * length bs
unfolding to_hex
length-to_hex [] = refl
length-to_hex (b ∷ bs) = omega (arith, length-to_hex bs)
