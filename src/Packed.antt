-- ===== src/Packed.antt =====
-- The packed candidate batch (python/src/arb_bot/packed_batch.py): its data, the encoder and the
-- decoder. Python's ints are signed and unbounded; texts and byte strings are lists of numbers.
pub mod Fields
pub mod Encode
pub mod Size
pub mod RoundTrip
pub mod LegForm
pub mod CandidateForm
pub mod Canonical
mod Tests
use base_arb_bot.Prelude.{
  ℕ, zero, suc, ◌+◌, ◌-◌, ◌*◌, ◌^◌, Bool, not, ◌&&◌, List, [], ◌∷◌, ◌++◌, length, take, drop, leb,
  ltb, ◌==◌, if◌then◌else◌, Result, ok, err, ◌>>=◌, ◌>>◌, guard, Option, none, some, get_or,
}
use base_arb_bot.Prelude.Text.{Text, codes, text_eq, starts_with, lower}
use base_arb_bot.Prelude.Bytes.{to_bytes, from_bytes, to_hex, from_hex}
use base_arb_bot.Prelude.Int.{ℤ, pos, negsuc}

abbrev pub packed_version : ℕ
packed_version = 1

abbrev pub max_packed_candidates : ℕ
max_packed_candidates = 8

abbrev pub max_packed_legs : ℕ
max_packed_legs = 4

abbrev pub max_packed_leg_data : ℕ
max_packed_leg_data = 2048

-- The ValueErrors of the module; those of `_hex_bytes` and `_u` carry the field's label.
pub data PackedError : Type 0 where
  not_prefixed not_hex wrong_size does_not_fit : Text → PackedError
  candidate_count leg_count same_tokens leg_data_too_large : PackedError
  truncated unsupported_version trailing_bytes : PackedError

abbrev pub Packed : Type 0 → Type 0
Packed = Result PackedError

abbrev pub prefix_0x : Text
prefix_0x = codes "0x"

unfoldable pub fromhex : Text → Text → Packed (List ℕ)
fromhex value label = elim (from_hex value) [ none ↦ err (not_hex label) | some raw ↦ ok raw ]

unfoldable pub hex_bytes : Text → ℕ → Text → Packed (List ℕ)
unfolding fromhex
hex_bytes value size label = do
  guard (starts_with value prefix_0x) (not_prefixed label)
  raw ← fromhex (drop 2 value) label
  guard (length raw == size) (wrong_size label)
  ok raw

-- `_u`
unfoldable pub uint_bytes : ℤ → ℕ → Text → Packed (List ℕ)
uint_bytes (negsuc n) size label = err (does_not_fit label)
uint_bytes (pos n) size label =
    if leb (2 ^ (size * 8)) n then err (does_not_fit label) else ok (to_bytes size n)

pub record PackedLeg : Type 0 where
  pub adapter : Text
  pub token_in : Text
  pub token_out : Text
  pub min_out : ℤ
  pub leg_data : List ℕ

pub record PackedCandidate : Type 0 where
  pub candidate_id : Text
  pub min_profit : ℤ
  pub legs : List PackedLeg

pub record PackedBatch : Type 0 where
  pub asset : Text
  pub amount : ℤ
  pub target_block : ℤ
  pub deadline : ℤ
  pub candidates : List PackedCandidate

-- The body of the loop over a candidate's legs: what it adds to `out`.
unfoldable pub encode_leg : PackedLeg → Packed (List ℕ)
encode_leg leg = do
  guard (not (text_eq (lower leg.token_in) (lower leg.token_out))) same_tokens
  guard (leb (length leg.leg_data) max_packed_leg_data) leg_data_too_large
  adapter ← hex_bytes leg.adapter 20 (codes "adapter")
  token_in ← hex_bytes leg.token_in 20 (codes "token_in")
  token_out ← hex_bytes leg.token_out 20 (codes "token_out")
  min_out ← uint_bytes leg.min_out 32 (codes "min_out")
  data_len ← uint_bytes (pos (length leg.leg_data)) 2 (codes "data_len")
  ok (adapter ++ (token_in ++ (token_out ++ (min_out ++ (data_len ++ leg.leg_data)))))

unfoldable pub encode_legs : List PackedLeg → Packed (List ℕ)
encode_legs [] = ok []
encode_legs (leg ∷ legs) = do out ← encode_leg leg; rest ← encode_legs legs; ok (out ++ rest)

unfoldable pub encode_candidate : PackedCandidate → Packed (List ℕ)
encode_candidate candidate = do
  guard (leb 2 (length candidate.legs) && leb (length candidate.legs) max_packed_legs) leg_count
  id ← hex_bytes candidate.candidate_id 32 (codes "candidate_id")
  min_profit ← uint_bytes candidate.min_profit 32 (codes "min_profit")
  count ← uint_bytes (pos (length candidate.legs)) 1 (codes "leg_count")
  legs ← encode_legs candidate.legs
  ok (id ++ (min_profit ++ (count ++ legs)))

unfoldable pub encode_candidates : List PackedCandidate → Packed (List ℕ)
encode_candidates [] = ok []
encode_candidates (candidate ∷ candidates) = do
  out ← encode_candidate candidate
  rest ← encode_candidates candidates
  ok (out ++ rest)

unfoldable pub encode_packed_batch : PackedBatch → Packed (List ℕ)
encode_packed_batch batch = do
  let count = length batch.candidates
  guard (leb 1 count && leb count max_packed_candidates) candidate_count
  version ← uint_bytes (pos packed_version) 1 (codes "version")
  counted ← uint_bytes (pos count) 1 (codes "candidate_count")
  asset ← hex_bytes batch.asset 20 (codes "asset")
  amount ← uint_bytes batch.amount 32 (codes "amount")
  target_block ← uint_bytes batch.target_block 8 (codes "target_block")
  deadline ← uint_bytes batch.deadline 8 (codes "deadline")
  candidates ← encode_candidates batch.candidates
  ok (version ++ (counted ++ (asset ++ (amount ++ (target_block ++ (deadline ++ candidates))))))

-- `_take`: the bytes from `offset` on, and the offset behind them
unfoldable pub take_bytes : List ℕ → ℕ → ℕ → Packed (List ℕ × ℕ)
take_bytes raw offset size =
    let end = offset + size in
    if ltb (length raw) end then err truncated else ok (take (end - offset) (drop offset raw), end)

-- `"0x" + b.hex()`
abbrev pub hex_text : List ℕ → Text
hex_text b = prefix_0x ++ to_hex b

-- `b[0]`, of a byte string of length 1
abbrev pub first_byte : List ℕ → ℕ
first_byte b = get_or b 0 0

unfoldable pub decode_leg : List ℕ → ℕ → Packed (PackedLeg × ℕ)
decode_leg raw offset = do
  (adapter, offset) ← take_bytes raw offset 20
  (token_in, offset) ← take_bytes raw offset 20
  (token_out, offset) ← take_bytes raw offset 20
  (min_out, offset) ← take_bytes raw offset 32
  (counted, offset) ← take_bytes raw offset 2
  let data_len = from_bytes counted
  guard (leb data_len max_packed_leg_data) leg_data_too_large
  (leg_data, offset) ← take_bytes raw offset data_len
  ok (
    record {
      adapter = hex_text adapter;
      token_in = hex_text token_in;
      token_out = hex_text token_out;
      min_out = pos (from_bytes min_out);
      leg_data = leg_data;
    },
    offset,
  )

unfoldable pub decode_legs : ℕ → List ℕ → ℕ → Packed (List PackedLeg × ℕ)
decode_legs zero raw offset = ok ([], offset)
decode_legs (suc n) raw offset = do
  (leg, offset) ← decode_leg raw offset
  (legs, offset) ← decode_legs n raw offset
  ok (leg ∷ legs, offset)

unfoldable pub decode_candidate : List ℕ → ℕ → Packed (PackedCandidate × ℕ)
decode_candidate raw offset = do
  (id, offset) ← take_bytes raw offset 32
  (min_profit, offset) ← take_bytes raw offset 32
  (counted, offset) ← take_bytes raw offset 1
  let count = first_byte counted
  guard (leb 2 count && leb count max_packed_legs) leg_count
  (legs, offset) ← decode_legs count raw offset
  ok (
    record { candidate_id = hex_text id; min_profit = pos (from_bytes min_profit); legs = legs },
    offset,
  )

unfoldable pub decode_candidates : ℕ → List ℕ → ℕ → Packed (List PackedCandidate × ℕ)
decode_candidates zero raw offset = ok ([], offset)
decode_candidates (suc n) raw offset = do
  (candidate, offset) ← decode_candidate raw offset
  (candidates, offset) ← decode_candidates n raw offset
  ok (candidate ∷ candidates, offset)

unfoldable pub decode_packed_batch : List ℕ → Packed PackedBatch
decode_packed_batch raw = do
  (version, offset) ← take_bytes raw 0 1
  guard (first_byte version == packed_version) unsupported_version
  (counted, offset) ← take_bytes raw offset 1
  let count = first_byte counted
  guard (leb 1 count && leb count max_packed_candidates) candidate_count
  (asset, offset) ← take_bytes raw offset 20
  (amount, offset) ← take_bytes raw offset 32
  (target_block, offset) ← take_bytes raw offset 8
  (deadline, offset) ← take_bytes raw offset 8
  (candidates, offset) ← decode_candidates count raw offset
  guard (offset == length raw) trailing_bytes
  ok record {
    asset = hex_text asset;
    amount = pos (from_bytes amount);
    target_block = pos (from_bytes target_block);
    deadline = pos (from_bytes deadline);
    candidates = candidates;
  }
