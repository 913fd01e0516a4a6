-- ===== src/Rlp.antt =====
-- RLP and the size of a signed EIP-1559 transaction (`_int_bytes`, `_rlp` and
-- `conservative_eip1559_signed_size` of python/src/arb_bot/execution.py).
pub mod Minimal
pub mod Bound
mod Tests
use base_arb_bot.Prelude.{
  ℕ, zero, suc, ◌+◌, ◌-◌, ◌/◌, ◌^◌, ◌&&◌, List, [], ◌∷◌, ◌++◌, length, drop, get_or, ltb, leb, ◌==◌,
  if◌then◌else◌, Result, ok, err, ◌>>=◌, none, some,
}
use base_arb_bot.Prelude.Text.{Text, codes, starts_with}
use base_arb_bot.Prelude.Bytes.{to_bytes, from_hex}
use base_arb_bot.Prelude.Int.{ℤ, pos, negsuc}

-- OverflowError of `int.to_bytes` on a negative number, and ValueError of `bytes.fromhex`
pub data RlpError : Type 0 where
  negative_int not_hex : RlpError

-- Halvings until 0. A number has fewer bits than its value, so the value is fuel enough.
unfoldable pub count_bits : ℕ → ℕ → ℕ
count_bits zero n = 0
count_bits (suc fuel) zero = 0
count_bits (suc fuel) (suc m) = suc (count_bits fuel (suc m / 2))

-- `value.bit_length()`
unfoldable pub bit_length : ℕ → ℕ
unfolding count_bits
bit_length n = count_bits n n

-- `_int_bytes` on a number that is not negative
unfoldable pub nat_bytes : ℕ → List ℕ
nat_bytes value = if value == 0 then [] else to_bytes ((bit_length value + 7) / 8) value

unfoldable pub int_bytes : ℤ → Result RlpError (List ℕ)
int_bytes (pos value) = ok (nat_bytes value)
int_bytes (negsuc n) = err negative_int

-- The branch of `_rlp` for bytes.
unfoldable pub rlp_bytes : List ℕ → List ℕ
rlp_bytes item =
    if length item == 1 && ltb (get_or item 0 0) 0x80
    then item
    else if leb (length item) 55
    then (0x80 + length item) ∷ item
    else let size = nat_bytes (length item) in (0xB7 + length size) ∷ size ++ item

-- The branch of `_rlp` for lists, from the joined items on.
unfoldable pub rlp_list : List ℕ → List ℕ
rlp_list payload =
    if leb (length payload) 55
    then (0xC0 + length payload) ∷ payload
    else let size = nat_bytes (length payload) in (0xF7 + length size) ∷ size ++ payload

-- What `_rlp` takes; a text is ASCII.
mutual
  pub data Item : Type 0 where
    int : ℤ → Item
    text : Text → Item
    bytes : List ℕ → Item
    list : Items → Item

  pub data Items : Type 0 where
    nil : Items
    cons : Item → Items → Items

-- `bytes.fromhex(value[2:])`
unfoldable pub unhex : Text → Result RlpError (List ℕ)
unhex value = elim (from_hex (drop 2 value)) [ none ↦ err not_hex | some raw ↦ ok raw ]

unfoldable mutual
  pub rlp : Item → Result RlpError (List ℕ)
  rlp (int value) = do raw ← int_bytes value; ok (rlp_bytes raw)
  rlp (text value) =
      if starts_with value (codes "0x")
      then (do raw ← unhex value; ok (rlp_bytes raw))
      else ok (rlp_bytes value)
  rlp (bytes raw) = ok (rlp_bytes raw)
  rlp (list items) = do payload ← rlp_items items; ok (rlp_list payload)

  pub rlp_items : Items → Result RlpError (List ℕ)
  rlp_items nil = ok []
  rlp_items (cons item items) = do head ← rlp item; rest ← rlp_items items; ok (head ++ rest)

-- The twelve fields of a signed transaction with the signature (y, r, s).
abbrev pub signed_fields :
    (chain_id nonce max_priority_fee max_fee gas_limit : ℤ) (to calldata : List ℕ) (y r s : ℤ)
    → Items
signed_fields chain_id nonce max_priority_fee max_fee gas_limit to calldata y r s =
    cons (int chain_id) (
      cons (int nonce) (
        cons (int max_priority_fee) (
          cons (int max_fee) (
            cons (int gas_limit) (
              cons (bytes to) (
                cons (int (pos 0)) (
                  cons (bytes calldata)
                    (cons (list nil) (cons (int y) (cons (int r) (cons (int s) nil)))))))))))

abbrev pub max_scalar : ℕ
max_scalar = 2 ^ 256 - 1

-- The length with the type byte in front, for a given signature.
unfoldable pub signed_size :
    (chain_id nonce max_priority_fee max_fee gas_limit : ℤ) (to calldata : Text) (y r s : ℤ)
    → Result RlpError ℕ
signed_size chain_id nonce max_priority_fee max_fee gas_limit to calldata y r s = do
  to_bytes ← unhex to
  data_bytes ← unhex calldata
  raw ← rlp (
      list
        (signed_fields chain_id nonce max_priority_fee max_fee gas_limit to_bytes data_bytes y r s))
  ok (1 + length raw)

unfoldable pub conservative_eip1559_signed_size :
    (chain_id nonce max_priority_fee max_fee gas_limit : ℤ) (to calldata : Text) → Result RlpError ℕ
conservative_eip1559_signed_size chain_id nonce max_priority_fee max_fee gas_limit to calldata =
    signed_size chain_id nonce max_priority_fee max_fee gas_limit to calldata (pos 1)
      (pos max_scalar) (pos max_scalar)
