-- ===== src/Finalize.antt =====
-- The execution finalizer (python/src/arb_bot/execution.py): the deterministic gate between a
-- quoted cycle and a transaction. The RPC node, the contracts and the ABI encoder are the replies
-- of an `Outside`; a reply is a value or the name of the exception's type. Amounts and fees that
-- the chain reports are not negative; profits are signed.
pub mod Converter
pub mod Run
pub mod Fees
pub mod Charged
pub mod Eligible
pub mod Gates
pub mod Samples
mod Tests
use base_arb_bot.Graph.{PoolMetadata, Cycle}
use base_arb_bot.Prelude.{
  ℕ, ◌+◌, ◌*◌, Bool, true, false, not, ◌&&◌, ◌||◌, List, [], ◌∷◌, ◌++◌, get_elem?, if◌then◌else◌,
  Result, ok, err, ◌>>=◌, ◌>>◌, guard, Option, none, some, max,
}
use base_arb_bot.Prelude.Text.{Text, codes, text_eq, contains, lower, strip, is_empty}
use base_arb_bot.Prelude.Int.{ℤ}

pub record AaveSnapshot : Type 0 where
  pub premium_bps : ℕ
  pub available_liquidity : ℕ
  pub flashloan_enabled : Bool

pub record SimulationResult : Type 0 where
  pub success : Bool
  pub gas_used : Option ℕ
  pub error : Option Text

pub record ExecutionFinalization : Type 0 where
  pub calldata : Option Text
  pub route_hash : Option Text
  pub target_block : Option ℕ
  pub deadline : Option ℕ
  pub simulation_gas_units : Option ℕ
  pub estimate_gas_units : Option ℕ
  pub gas_price_wei : Option ℕ
  pub l2_fee_wei : Option ℕ
  pub l1_fee_upper_bound_wei : Option ℕ
  pub total_native_fee_wei : Option ℕ
  pub gas_cost_asset_units : Option ℕ
  pub flashloan_premium_bps : Option ℕ
  pub flashloan_premium_units : Option ℕ
  pub available_flash_liquidity : Option ℕ
  pub deterministic_net_profit_units : Option ℤ
  pub simulation_success : Bool
  pub submission_eligible : Bool
  pub blockers : List Text

pub record Leg : Type 0 where
  pub adapter : Text
  pub token_in : Text
  pub token_out : Text
  pub min_out : ℕ
  pub leg_data : List ℕ

-- The settings that the finalizer reads.
pub record Settings : Type 0 where
  pub chain_id : ℕ
  pub executor_address : Text
  pub executor_owner_address : Text
  pub aave_pool : Text
  pub base_weth : Text
  pub gas_price_oracle : Text
  pub uniswap_v3_adapter_address : Text
  pub aerodrome_adapter_address : Text

-- A call of the code outside: its value, or the exception's type name.
abbrev pub Reply : Type 0 → Type 0
Reply = Result Text

-- The transaction that is simulated; its value is "0x0".
pub record Call : Type 0 where
  pub sender : Text
  pub to : Text
  pub call_data : Text

pub record Outside : Type 0 where
  pub open_runtime : Reply (Unit {0})
  pub chain_id : Reply ℕ
  pub verify_contract : Text → Reply (Unit {0})
  pub aave_snapshot : Text → Text → Reply AaveSnapshot
  pub block_number : Reply ℕ
  pub checksum : Text → Reply Text
  pub encode_fee : ℤ → Reply (List ℕ)
  pub encode_stable : Bool → Reply (List ℕ)
  pub encode_start : Text → Text → ℕ → ℤ → ℕ → ℕ → List Leg → Reply (Text × Text)
  pub simulate : Call → Reply SimulationResult
  pub estimate_gas : Call → Reply ℕ
  pub gas_price : Reply ℕ
  pub nonce : Text → Reply ℕ
  pub priority_fee : Reply ℕ
  pub pending_base_fee : Reply ℕ
  pub l1_fee_upper_bound : Text → ℕ → Reply ℕ
  pub has_adapter : Text → Bool
  pub quote_exact_input : PoolMetadata → Text → Text → ℕ → Reply ℕ

unfoldable pub canonical_venue : Text → Text
canonical_venue venue =
    let v = lower (strip venue) in
    if contains v (codes "slipstream")
    then codes "aerodrome-slipstream"
    else (if contains v (codes "uniswap")
        then codes "uniswap-v3"
        else (if contains v (codes "aerodrome") then codes "aerodrome" else v))

-- The reply, or the exception where the value is None.
abbrev pub required : {A : Type 0} → Option A → Text → Reply A
required none e = err e
required (some a) e = ok a

unfoldable pub adapter_data : Outside → PoolMetadata → Reply (List ℕ)
adapter_data outside pool =
    let venue = lower (pool.venue) in
    if contains venue (codes "uniswap")
    then (do fee ← required (pool.fee) (codes "RuntimeError"); outside.encode_fee fee)
    else (if contains venue (codes "aerodrome") && not (contains venue (codes "slipstream"))
        then (do
          stable ← required (pool.stable) (codes "RuntimeError")
          outside.encode_stable stable)
        else err (codes "RuntimeError"))

unfoldable pub missing_config : List (Text × Text) → List Text
missing_config [] = []
missing_config ((key, value) ∷ config) =
    let rest = missing_config config in
    if is_empty (strip value) then (codes "missing_config:" ++ key) ∷ rest else rest

-- `configured`: the settings that are missing.
unfoldable pub configured : Settings → List Text
configured settings = missing_config (
    (codes "EXECUTOR_ADDRESS", settings.executor_address)
    ∷ (codes "EXECUTOR_OWNER_ADDRESS", settings.executor_owner_address)
    ∷ (codes "AAVE_POOL", settings.aave_pool)
    ∷ (codes "BASE_WETH", settings.base_weth)
    ∷ [])

unfoldable pub adapter_for : Settings → PoolMetadata → Reply Text
adapter_for settings pool =
    let canonical = canonical_venue (pool.venue) in
    if text_eq canonical (codes "uniswap-v3")
    then ok (settings.uniswap_v3_adapter_address)
    else (if text_eq canonical (codes "aerodrome")
        then ok (settings.aerodrome_adapter_address)
        else err (codes "RuntimeError"))

-- A finalization that stopped before the transaction was built, with what was known by then.
unfoldable pub stopped :
    Option ℕ → Option ℕ → Option ℕ → Option ℤ → List Text → ExecutionFinalization
stopped premium_bps premium_units liquidity net blockers = record {
  calldata = none;
  route_hash = none;
  target_block = none;
  deadline = none;
  simulation_gas_units = none;
  estimate_gas_units = none;
  gas_price_wei = none;
  l2_fee_wei = none;
  l1_fee_upper_bound_wei = none;
  total_native_fee_wei = none;
  gas_cost_asset_units = none;
  flashloan_premium_bps = premium_bps;
  flashloan_premium_units = premium_units;
  available_flash_liquidity = liquidity;
  deterministic_net_profit_units = net;
  simulation_success = false;
  submission_eligible = false;
  blockers = blockers;
}

unfoldable pub empty_finalization : List Text → ExecutionFinalization
empty_finalization blockers = stopped none none none none blockers
