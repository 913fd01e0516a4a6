-- ===== src/Rlp/Tests.antt =====
-- Concrete transactions for the theorems on the signed size (python/src/arb_bot/execution.py).
use base_arb_bot.Rlp.{
  count_bits, bit_length, nat_bytes, int_bytes, rlp_bytes, rlp_list, rlp, rlp_items, unhex,
  signed_size, conservative_eip1559_signed_size,
}
use base_arb_bot.Rlp.Bound.{signed_size-le-conservative}
use base_arb_bot.Rlp.Minimal.{from_bytes-nat_bytes, length-nat_bytes_le}
use base_arb_bot.Prelude.{ℕ, ◌^◌, ◌≤◌, ◌<◌, ◌↔◌, ok, ◌≡◌, refl, arith, length}
use base_arb_bot.Prelude.Text.{codes, starts_with}
use base_arb_bot.Prelude.Bytes.{to_bytes, from_bytes, from_hex}
use base_arb_bot.Prelude.Int.{pos}

from_bytes-nat_bytes_example : from_bytes (nat_bytes 8453) ≡ 8453
from_bytes-nat_bytes_example = from_bytes-nat_bytes 8453

length-nat_bytes_le_example : (length (nat_bytes 8453) ≤ 2) ↔ (8453 < 256 ^ 2)
length-nat_bytes_le_example = length-nat_bytes_le 8453 2

sized :
    conservative_eip1559_signed_size
      (pos 8453)
      (pos 3)
      (pos 100)
      (pos 200)
      (pos 21000)
      (codes "0x1111")
      (codes "0xabcdef")
    ≡ ok 89
unfolding conservative_eip1559_signed_size signed_size unhex rlp rlp_items rlp_bytes rlp_list
    int_bytes nat_bytes bit_length count_bits to_bytes from_hex starts_with
sized = refl

-- The signature (1, 5, 7) on the sample transaction.
signed_size-le-conservative_example :
    (actual : ℕ) × (signed_size
        (pos 8453)
        (pos 3)
        (pos 100)
        (pos 200)
        (pos 21000)
        (codes "0x1111")
        (codes "0xabcdef")
        (pos 1)
        (pos 5)
        (pos 7)
      ≡ ok actual)
    × (actual ≤ 89)
signed_size-le-conservative_example =
    signed_size-le-conservative (pos 8453) (pos 3) (pos 100) (pos 200) (pos 21000) (codes "0x1111")
      (codes "0xabcdef") 1 5 7 89 (omega arith) (omega arith) (omega arith) sized
