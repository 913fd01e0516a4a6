-- ===== src/Prelude/Numeral.antt =====
-- `int(s, 16)`: blanks around, a sign, a prefix `0x`, and single underscores between digits are
-- accepted.
use base_arb_bot.Prelude.Tests.{◌==◌, if◌then◌else◌}
use base_arb_bot.Prelude.Text.{Text, strip}
use base_arb_bot.Prelude.Bytes.{hex_value}
use base_arb_bot.Prelude.Int.{ℤ, pos, sub_ℕ}
use Prim.Native.Nat.{ℕ, ◌+◌, ◌*◌}
use mathlib.Core.Bool.{Bool, true, false, ◌||◌}
use mathlib.Core.Option
use mathlib.Core.Option.{Option, none, some}
use mathlib.Core.List.{[], ◌∷◌}

-- One character behind the value `acc`; the flag says that the last character was a digit.
digit_step : ℕ × Bool → ℕ → Option (ℕ × Bool)
digit_step (acc, digit) c =
    if c == b'_'
    then (if digit then some (acc, false) else none)
    else Option.map (λ v. (acc * 16 + v, true)) (hex_value c)

-- The value of the digits, if the last character is one.
read_digits : ℕ × Bool → Text → Option ℕ
read_digits (acc, digit) [] = if digit then some acc else none
read_digits s (c ∷ rest) = elim (digit_step s c) [ none ↦ none | some s' ↦ read_digits s' rest ]

-- One underscore may follow the prefix.
skip_underscore : Text → Text
skip_underscore [] = []
skip_underscore (c ∷ rest) = if c == b'_' then rest else c ∷ rest

skip_prefix : Text → Text
unfolding skip_underscore
skip_prefix [] = []
skip_prefix (a ∷ []) = a ∷ []
skip_prefix (a ∷ x ∷ rest) =
    if a == b'0'
    then (if x == b'x' || x == b'X' then skip_underscore rest else a ∷ x ∷ rest)
    else a ∷ x ∷ rest

magnitude : Text → Option ℕ
unfolding read_digits digit_step skip_prefix
magnitude s = read_digits (0, false) (skip_prefix s)

signed : Text → Option ℤ
unfolding magnitude
signed [] = none
signed (c ∷ rest) =
    if c == b'-'
    then Option.map (λ n. sub_ℕ 0 n) (magnitude rest)
    else if c == b'+'
    then Option.map (λ n. pos n) (magnitude rest)
    else Option.map (λ n. pos n) (magnitude (c ∷ rest))

-- `none` is the ValueError
unfoldable pub int_16 : Text → Option ℤ
unfolding signed
int_16 s = signed (strip s)
