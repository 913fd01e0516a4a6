-- ===== src/Batch/Tests.antt =====
-- A concrete run of the packed batch finalizer (python/src/arb_bot/batch_execution.py).
use base_arb_bot.Batch.{
  LegDict, CandidateDict, Row, Kept, PackedBatchPlan, kept_rows, same_group, add_to_groups,
  group_rows, before, insert_row, sort_rows, insert_group, sort_groups, compatible_groups,
}
use base_arb_bot.Batch.Trim.{
  paid, candidate_id, to_legs, to_candidates, on_gas, on_simulated, try_rows, trim_from,
  finalize_group, finalize_groups, finalize_packed,
}
use base_arb_bot.Batch.Profit.{IsProfitable, finalize_packed-IsProfitable}
use base_arb_bot.Finalize.{SimulationResult, Settings, Reply, Outside}
use base_arb_bot.Finalize.Converter.{convert}
use base_arb_bot.Graph.{empty_graph}
use base_arb_bot.Packed.{
  PackedLeg, PackedBatch, encode_leg, encode_legs, encode_candidate, encode_candidates,
  encode_packed_batch, hex_bytes, fromhex, uint_bytes,
}
use base_arb_bot.Rlp.{
  count_bits, bit_length, nat_bytes, int_bytes, rlp_bytes, rlp_list, rlp, rlp_items, unhex,
  signed_size, conservative_eip1559_signed_size,
}
use base_arb_bot.Prelude.{ℕ, zero, suc, ◌+◌, true, List, [], ◌∷◌, ok, none, some, ◌≡◌, refl}
use base_arb_bot.Prelude.Text.{Text, codes, text_eq, text_ltb, starts_with, lower, strip, lstrip}
use base_arb_bot.Prelude.Bytes.{to_bytes, from_hex}
use base_arb_bot.Prelude.Int.{pos, ◌-ℤ◌}

abbrev repeat : ℕ → ℕ → Text
repeat zero x = []
repeat (suc n) x = x ∷ repeat n x

abbrev hex_of : ℕ → ℕ → Text
hex_of n digit = 48 ∷ 120 ∷ repeat (n + n) (48 + digit)

abbrev sample_leg : ℕ → ℕ → LegDict
sample_leg t u = record {
  adapter = hex_of 20 3;
  token_in = hex_of 20 t;
  token_out = hex_of 20 u;
  min_out = pos 6;
  leg_data = codes "0x01";
}

abbrev sample_candidate : CandidateDict
sample_candidate = record {
  asset = hex_of 20 1;
  amount = pos 1000;
  target_block = pos 7;
  deadline = pos 9;
  min_profit = pos 600;
  legs = sample_leg 1 2 ∷ sample_leg 2 1 ∷ [];
}

abbrev sample_row : Row
sample_row = record {
  route_id = hex_of 32 4;
  submission_eligible = true;
  packed_candidate = some sample_candidate;
  net_profit = some (pos 155);
}

abbrev sample_kept : Kept
sample_kept = record { route_id = hex_of 32 4; candidate = sample_candidate; net_profit = pos 155 }

abbrev sample_simulation : SimulationResult
sample_simulation = record { success = true; gas_used = some 100; error = none }

abbrev sample_outside : Outside
sample_outside = record {
  open_runtime = ok tt;
  chain_id = ok 8453;
  verify_contract = λ address. ok tt;
  aave_snapshot = λ pool asset.
      ok (record { premium_bps = 5; available_liquidity = 0; flashloan_enabled = true });
  block_number = ok 41;
  checksum = λ address. ok address;
  encode_fee = λ fee. ok [];
  encode_stable = λ stable. ok [];
  encode_start = λ executor asset amount min_profit target_block deadline legs. ok ([], []);
  simulate = λ call. ok sample_simulation;
  estimate_gas = λ call. ok 120;
  gas_price = ok 3;
  nonce = λ owner. ok 9;
  priority_fee = ok 1;
  pending_base_fee = ok 2;
  l1_fee_upper_bound = λ oracle size. ok size;
  has_adapter = λ venue. true;
  quote_exact_input = λ pool weth asset amount. ok amount;
}

abbrev sample_settings : Settings
sample_settings = record {
  chain_id = 8453;
  executor_address = codes "0xee";
  executor_owner_address = codes "0x0e";
  aave_pool = codes "0xaa";
  base_weth = hex_of 20 1;
  gas_price_oracle = codes "0x0f";
  uniswap_v3_adapter_address = codes "0xad";
  aerodrome_adapter_address = codes "";
}

abbrev sample_encode : Text → List ℕ → Reply (Text × Text)
sample_encode executor packed = ok (codes "0xabcdef", codes "0x77")

abbrev sample_sha256 : Text → Text
sample_sha256 t = t

abbrev packed_leg : ℕ → ℕ → PackedLeg
packed_leg t u = record {
  adapter = hex_of 20 3;
  token_in = hex_of 20 t;
  token_out = hex_of 20 u;
  min_out = pos 6;
  leg_data = 1 ∷ [];
}

abbrev sample_batch : PackedBatch
sample_batch = record {
  asset = hex_of 20 1;
  amount = pos 1000;
  target_block = pos 7;
  deadline = pos 9;
  candidates =
      record {
        candidate_id = hex_of 32 4;
        min_profit = pos 600;
        legs = packed_leg 1 2 ∷ packed_leg 2 1 ∷ [];
      }
      ∷ [];
}

abbrev sample_plan : PackedBatchPlan
sample_plan =
    paid (codes "0xabcdef", codes "0x77") sample_batch (sample_kept ∷ []) sample_simulation
      (some 120) 445 (pos 155) []

sample-planned :
    finalize_packed sample_outside sample_sha256 sample_encode sample_settings empty_graph 8
      (sample_row ∷ [])
    ≡ ok sample_plan
unfolding finalize_packed finalize_groups finalize_group compatible_groups sort_groups insert_group
    sort_rows insert_row before group_rows add_to_groups same_group kept_rows try_rows trim_from
    to_candidates to_legs candidate_id on_simulated on_gas convert encode_packed_batch
    encode_candidates encode_candidate encode_legs encode_leg hex_bytes fromhex uint_bytes
    conservative_eip1559_signed_size signed_size unhex rlp rlp_items rlp_bytes rlp_list int_bytes
    nat_bytes bit_length count_bits to_bytes from_hex text_eq text_ltb starts_with lower strip
    lstrip ◌-ℤ◌
sample-planned = refl

sample-eligible : sample_plan.submission_eligible ≡ true
unfolding paid
sample-eligible = refl

finalize_packed-IsProfitable_example :
    IsProfitable sample_outside sample_sha256 sample_encode sample_settings empty_graph 8
      (sample_row ∷ [])
      sample_plan
finalize_packed-IsProfitable_example =
    finalize_packed-IsProfitable sample_outside sample_sha256 sample_encode sample_settings
      empty_graph 8 (sample_row ∷ []) sample_plan sample-planned sample-eligible
