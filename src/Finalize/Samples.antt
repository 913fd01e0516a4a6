-- ===== src/Finalize/Samples.antt =====
-- A cycle, the settings and a node where every call succeeds, for the tests that run the finalizer
-- (python/src/arb_bot/execution.py).
use base_arb_bot.Finalize.{AaveSnapshot, SimulationResult, Settings, Outside}
use base_arb_bot.Graph.{PoolMetadata, Cycle}
use base_arb_bot.Prelude.{true, [], ◌∷◌, ok, none, some}
use base_arb_bot.Prelude.Text.{Text, codes}
use base_arb_bot.Prelude.Int.{pos}

abbrev pub pool_between : Text → Text → Text → PoolMetadata
pool_between address token0 token1 = record {
  address = address;
  token0 = token0;
  token1 = token1;
  venue = codes "uniswap-v3";
  pool_type = codes "v3";
  fee = some (pos 500);
  stable = none;
}

abbrev pub sample_cycle : Cycle
sample_cycle = record {
  pools =
      pool_between (codes "0x5") (codes "0x1") (codes "0x2")
      ∷ pool_between (codes "0x6") (codes "0x1") (codes "0x2")
      ∷ [];
  tokens = codes "0x1" ∷ codes "0x2" ∷ codes "0x1" ∷ [];
}

abbrev pub sample_settings : Settings
sample_settings = record {
  chain_id = 8453;
  executor_address = codes "0xee";
  executor_owner_address = codes "0x0e";
  aave_pool = codes "0xaa";
  base_weth = codes "0x1";
  gas_price_oracle = codes "0x0f";
  uniswap_v3_adapter_address = codes "0xad";
  aerodrome_adapter_address = codes "";
}

abbrev pub sample_aave : AaveSnapshot
sample_aave = record { premium_bps = 5; available_liquidity = 1000000; flashloan_enabled = true }

abbrev pub sample_simulation : SimulationResult
sample_simulation = record { success = true; gas_used = some 100; error = none }

-- A node where every call succeeds.
abbrev pub sample_outside : Outside
sample_outside = record {
  open_runtime = ok tt;
  chain_id = ok 8453;
  verify_contract = λ address. ok tt;
  aave_snapshot = λ pool asset. ok sample_aave;
  block_number = ok 41;
  checksum = λ address. ok address;
  encode_fee = λ fee. ok (1 ∷ []);
  encode_stable = λ stable. ok (2 ∷ []);
  encode_start = λ executor asset amount min_profit target_block deadline legs.
      ok (codes "0xabcdef", codes "0x77");
  simulate = λ call. ok sample_simulation;
  estimate_gas = λ call. ok 120;
  gas_price = ok 3;
  nonce = λ owner. ok 9;
  priority_fee = ok 1;
  pending_base_fee = ok 2;
  l1_fee_upper_bound = λ oracle size. ok size;
  has_adapter = λ venue. true;
  quote_exact_input = λ pool weth asset amount. ok amount;
}
