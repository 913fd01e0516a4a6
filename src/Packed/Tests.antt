-- ===== src/Packed/Tests.antt =====
-- Concrete batches for the theorems on the packed batch (python/src/arb_bot/packed_batch.py).
use base_arb_bot.Packed.{
  PackedBatch, encode_leg, encode_legs, encode_candidate, encode_candidates, encode_packed_batch,
  decode_leg, decode_legs, decode_candidate, decode_candidates, decode_packed_batch, hex_bytes,
  fromhex, uint_bytes, take_bytes,
}
use base_arb_bot.Packed.Size.{length-encode_packed_batch, candidates_size}
use base_arb_bot.Packed.RoundTrip.{decode-encode, reprint_batch}
use base_arb_bot.Packed.Canonical.{encode-decode}
use base_arb_bot.Packed.LegForm.{DistinctLegs}
use base_arb_bot.Prelude.{
  ℕ, zero, suc, ◌+◌, ◌≤◌, Bool, true, false, ◌≢◌, ◌&&◌, ltb, List, [], ◌∷◌, ◌++◌, length, ok, ◌≡◌,
  refl, arith, All,
}
use base_arb_bot.Prelude.Text.{Text, text_eq, text_eq_iff, starts_with, lower}
use base_arb_bot.Prelude.Bytes.{IsByte, to_bytes, from_bytes, from_hex, to_hex}
use base_arb_bot.Prelude.Int.{pos}

abbrev repeat : ℕ → ℕ → List ℕ
repeat zero x = []
repeat (suc n) x = x ∷ repeat n x

-- The hexadecimal text of `n` bytes whose digits are all `digit`.
abbrev hex_of : ℕ → ℕ → Text
hex_of n digit = 48 ∷ 120 ∷ repeat (n + n) (48 + digit)

abbrev sample_batch : PackedBatch
sample_batch = record {
  asset = hex_of 20 1;
  amount = pos 1000;
  target_block = pos 7;
  deadline = pos 9;
  candidates =
      record {
        candidate_id = hex_of 32 2;
        min_profit = pos 5;
        legs =
            record {
              adapter = hex_of 20 3;
              token_in = hex_of 20 1;
              token_out = hex_of 20 4;
              min_out = pos 6;
              leg_data = 1 ∷ 2 ∷ [];
            }
            ∷ record {
              adapter = hex_of 20 3;
              token_in = hex_of 20 4;
              token_out = hex_of 20 1;
              min_out = pos 8;
              leg_data = [];
            }
            ∷ [];
      }
      ∷ [];
}

abbrev sample_bytes : List ℕ
sample_bytes =
    1 ∷ 1 ∷ repeat 20 17
    ++ repeat 30 0
    ++ (3 ∷ 232 ∷ [])
    ++ repeat 7 0
    ++ (7 ∷ [])
    ++ repeat 7 0
    ++ (9 ∷ [])
    ++ repeat 32 34
    ++ repeat 31 0
    ++ (5 ∷ 2 ∷ [])
    ++ repeat 20 51
    ++ repeat 20 17
    ++ repeat 20 68
    ++ repeat 31 0
    ++ (6 ∷ 0 ∷ 2 ∷ 1 ∷ 2 ∷ [])
    ++ repeat 20 51
    ++ repeat 20 68
    ++ repeat 20 17
    ++ repeat 31 0
    ++ (8 ∷ 0 ∷ 0 ∷ [])

sample_batch-encoded : encode_packed_batch sample_batch ≡ ok sample_bytes
unfolding encode_packed_batch encode_candidates encode_candidate encode_legs encode_leg hex_bytes
    fromhex uint_bytes text_eq starts_with lower to_bytes from_hex
sample_batch-encoded = refl

decode-encode_example : decode_packed_batch sample_bytes ≡ ok (reprint_batch sample_batch)
decode-encode_example = decode-encode sample_batch sample_bytes sample_batch-encoded

length-encode_packed_batch_example :
    (length sample_bytes ≡ 70 + candidates_size (sample_batch.candidates))
    × (length sample_bytes ≤ 69134)
length-encode_packed_batch_example =
    length-encode_packed_batch sample_batch sample_bytes sample_batch-encoded

are_bytes : List ℕ → Bool
are_bytes [] = true
are_bytes (x ∷ xs) = ltb x 256 && are_bytes xs

All-IsByte : (xs : List ℕ) → are_bytes xs ≡ true → All IsByte xs
unfolding are_bytes
All-IsByte [] h = tt
All-IsByte (x ∷ xs) h = (ground (arith), All-IsByte xs (ground (arith)))

sample_bytes-decoded : decode_packed_batch sample_bytes ≡ ok sample_batch
unfolding decode_packed_batch decode_candidates decode_candidate decode_legs decode_leg take_bytes
    from_bytes to_hex
sample_bytes-decoded = refl

sample_bytes-IsByte : All IsByte sample_bytes
unfolding are_bytes
sample_bytes-IsByte = All-IsByte sample_bytes refl

apart : (s t : Text) → text_eq s t ≡ false → s ≢ t
apart s t h = λ e. ground (arith, text_eq_iff s t)

sample_batch-DistinctLegs : All DistinctLegs (sample_batch.candidates)
unfolding text_eq
sample_batch-DistinctLegs = ((apart _ _ refl, (apart _ _ refl, tt)), tt)

encode-decode_example : encode_packed_batch sample_batch ≡ ok sample_bytes
encode-decode_example =
    encode-decode sample_bytes sample_batch sample_bytes-IsByte sample_batch-DistinctLegs
      sample_bytes-decoded
