-- ===== src/Finalize/Run.antt =====
-- `ExecutionFinalizer.finalize` (python/src/arb_bot/execution.py): a
-- function for what follows each awaited reply.
use base_arb_bot.Finalize.{
  AaveSnapshot, SimulationResult, ExecutionFinalization, Leg, Settings, Reply, Call, Outside,
  canonical_venue, required, adapter_data, configured, adapter_for, stopped, empty_finalization,
}
use base_arb_bot.Finalize.Converter.{convert}
use base_arb_bot.Graph.{PoolMetadata, Cycle, LivePoolGraph}
use base_arb_bot.Rlp.{bit_length, conservative_eip1559_signed_size, RlpError, negative_int, not_hex}
use base_arb_bot.Prelude.{
  ℕ, zero, suc, ◌+◌, ◌-◌, ◌*◌, ◌/◌, ◌%◌, ◌^◌, Bool, true, false, List, [], ◌∷◌, ◌++◌, get_elem?,
  ltb, ◌==◌, if◌then◌else◌, Result, ok, err, ◌>>=◌, ◌>>◌, Option, none, some, max,
}
use base_arb_bot.Prelude.Text.{Text, codes, is_empty}
use base_arb_bot.Prelude.Int.{ℤ, pos, ◌-ℤ◌, leb_ℤ, ltb_ℤ}
use base_arb_bot.Prelude.Dict.{unique, sorted}

unfoldable pub digits : ℕ → ℕ → Text
digits zero n = []
digits (suc fuel) n =
    let rest = digits fuel (n / 10) in
    if ltb n 10 then (48 + n) ∷ [] else rest ++ ((48 + n % 10) ∷ [])

-- `str(n)`; a number has no more decimal digits than bits.
unfoldable pub decimal : ℕ → Text
decimal n = digits (suc (bit_length n)) n

-- The addresses of the cycle's adapters, and a blocker for each that is not configured.
unfoldable pub adapters_for : Settings → List PoolMetadata → Reply (List Text × List Text)
adapters_for settings [] = ok ([], [])
adapters_for settings (pool ∷ pools) = do
  adapter ← adapter_for settings pool
  rest ← adapters_for settings pools
  ok (
    adapter ∷ rest.0,
    (if is_empty adapter
        then (codes "missing_execution_adapter:" ++ canonical_venue (pool.venue)) ∷ rest.1
        else rest.1),
  )

unfoldable pub verify_all : Outside → List Text → Reply (Unit {0})
verify_all outside [] = ok tt
verify_all outside (address ∷ addresses) = do
  outside.verify_contract address
  verify_all outside addresses

unfoldable pub verify_contracts : Outside → Settings → List Text → Reply (Unit {0})
verify_contracts outside settings adapters =
    verify_all outside
      (settings.executor_address ∷ settings.aave_pool ∷ settings.gas_price_oracle ∷ unique adapters)

-- `list[i]`
abbrev pub item : {A : Type 0} → List A → ℕ → Reply A
item xs i = required (get_elem? xs i) (codes "IndexError")

unfoldable pub build_legs :
    Outside → Cycle → List Text → List ℕ → ℕ → List PoolMetadata → Reply (List Leg)
build_legs outside cycle adapters quotes index [] = ok []
build_legs outside cycle adapters quotes index (pool ∷ pools) = do
  adapter ← item adapters index
  token_in ← item (cycle.tokens) index
  token_out ← item (cycle.tokens) (index + 1)
  min_out ← item quotes index
  encoded ← adapter_data outside pool
  rest ← build_legs outside cycle adapters quotes (index + 1) pools
  ok (
      record {
        adapter = adapter;
        token_in = token_in;
        token_out = token_out;
        min_out = min_out;
        leg_data = encoded;
      }
      ∷ rest)

unfoldable pub flashloan_premium : ℕ → ℕ → ℕ
flashloan_premium amount premium_bps = (amount * premium_bps + 5000) / 10000

unfoldable pub loan_blockers : ℕ → AaveSnapshot → List Text
loan_blockers amount_in aave =
    (if aave.flashloan_enabled then [] else codes "aave_flashloan_disabled_for_asset" ∷ [])
    ++ (if ltb (aave.available_liquidity) amount_in
        then codes "insufficient_aave_flash_liquidity" ∷ []
        else [])

-- `max(observed_block or (latest + 1), latest + 1)`
unfoldable pub choose_target_block : Option ℕ → ℕ → ℕ
choose_target_block none latest = latest + 1
choose_target_block (some observed) latest =
    if observed == 0 then latest + 1 else max observed (latest + 1)

-- `max(x for x in (simulated, estimated) if x is not None)`
abbrev pub larger_gas : Option ℕ → Option ℕ → Reply ℕ
larger_gas none none = err (codes "ValueError")
larger_gas (some x) none = ok x
larger_gas none (some y) = ok y
larger_gas (some x) (some y) = ok (max x y)

-- `try: ... except Exception: None`
abbrev pub or_none : {A : Type 0} → Reply A → Option A
or_none (ok a) = some a
or_none (err e) = none

abbrev pub size_reply : Result RlpError ℕ → Reply ℕ
size_reply (ok n) = ok n
size_reply (err negative_int) = err (codes "OverflowError")
size_reply (err not_hex) = err (codes "ValueError")

-- `error or 'unknown'`
abbrev pub error_text : Option Text → Text
error_text none = codes "unknown"
error_text (some []) = codes "unknown"
error_text (some (c ∷ e)) = c ∷ e

abbrev pub deadline_never : ℕ
deadline_never = 2 ^ 64 - 1

module _ (outside : Outside) (settings : Settings) (graph : LivePoolGraph) (cycle : Cycle)
    (amount_in amount_out : ℕ) (quotes : List ℕ) (observed_block : Option ℕ) where
  unfoldable pub premium_units : AaveSnapshot → ℕ
  unfolding flashloan_premium
  premium_units aave = flashloan_premium amount_in (aave.premium_bps)

  unfoldable pub pre_gas_profit : AaveSnapshot → ℤ
  pre_gas_profit aave = pos amount_out -ℤ pos amount_in -ℤ pos (premium_units aave)

  -- The finalization of a transaction whose simulation succeeded, with its fees.
  unfoldable pub charged :
      AaveSnapshot
      → ℕ
      → Text × Text
      → SimulationResult
      → Option ℕ
      → (gas_used gas_price l1_fee gas_asset_units : ℕ) → ExecutionFinalization
  charged aave target_block encoded simulation estimate gas_used gas_price l1_fee gas_asset_units =
      let net = pre_gas_profit aave -ℤ pos gas_asset_units in
      record {
        calldata = some (encoded.0);
        route_hash = some (encoded.1);
        target_block = some target_block;
        deadline = some deadline_never;
        simulation_gas_units = simulation.gas_used;
        estimate_gas_units = estimate;
        gas_price_wei = some gas_price;
        l2_fee_wei = some (gas_used * gas_price);
        l1_fee_upper_bound_wei = some l1_fee;
        total_native_fee_wei = some (gas_used * gas_price + l1_fee);
        gas_cost_asset_units = some gas_asset_units;
        flashloan_premium_bps = some (aave.premium_bps);
        flashloan_premium_units = some (premium_units aave);
        available_flash_liquidity = some (aave.available_liquidity);
        deterministic_net_profit_units = some net;
        simulation_success = true;
        submission_eligible = ltb_ℤ (pos 0) net;
        blockers =
            (if leb_ℤ net (pos 0)
              then codes "non_positive_profit_after_full_transaction_cost" ∷ []
              else []);
      }

  -- The fees of the transaction that was simulated, and what is left of the profit.
  unfoldable pub charge :
      AaveSnapshot → Text → ℕ → Text × Text → Call → SimulationResult → Reply ExecutionFinalization
  charge aave asset target_block encoded call simulation =
      let estimate = or_none (outside.estimate_gas call) in
      do
        gas_used ← larger_gas (simulation.gas_used) estimate
        gas_price ← outside.gas_price
        nonce ← outside.nonce (settings.executor_owner_address)
        priority_fee ← outside.priority_fee
        pending_base_fee ← outside.pending_base_fee
        tx_size ← size_reply (
            conservative_eip1559_signed_size (pos (settings.chain_id)) (pos nonce)
              (pos priority_fee) (pos (pending_base_fee + priority_fee)) (pos gas_used)
              (settings.executor_address) (encoded.0))
        l1_fee ← outside.l1_fee_upper_bound (settings.gas_price_oracle) tx_size
        gas_asset_units ← convert outside settings graph asset (gas_used * gas_price + l1_fee)
        ok (
            charged aave target_block encoded simulation estimate gas_used gas_price l1_fee
              gas_asset_units)

  unfoldable pub simulation_failed :
      AaveSnapshot → ℕ → Text × Text → SimulationResult → ExecutionFinalization
  simulation_failed aave target_block encoded simulation = record {
    calldata = some (encoded.0);
    route_hash = some (encoded.1);
    target_block = some target_block;
    deadline = some deadline_never;
    simulation_gas_units = simulation.gas_used;
    estimate_gas_units = none;
    gas_price_wei = none;
    l2_fee_wei = none;
    l1_fee_upper_bound_wei = none;
    total_native_fee_wei = none;
    gas_cost_asset_units = none;
    flashloan_premium_bps = some (aave.premium_bps);
    flashloan_premium_units = some (premium_units aave);
    available_flash_liquidity = some (aave.available_liquidity);
    deterministic_net_profit_units = none;
    simulation_success = false;
    submission_eligible = false;
    blockers = (codes "executor_simulation_failed:" ++ error_text (simulation.error)) ∷ [];
  }

  -- The transaction: its legs, its calldata, its simulation and its fees.
  unfoldable pub settle : AaveSnapshot → List Text → Reply ExecutionFinalization
  settle aave adapters = do
    latest ← outside.block_number
    legs ← build_legs outside cycle adapters quotes 0 (cycle.pools)
    asset ← item (cycle.tokens) 0
    encoded ←
        outside.encode_start (settings.executor_address) asset amount_in (pre_gas_profit aave)
          (choose_target_block observed_block latest) deadline_never legs
    sender ← outside.checksum (settings.executor_owner_address)
    to ← outside.checksum (settings.executor_address)
    simulation ← outside.simulate (record { sender = sender; to = to; call_data = encoded.0 })
    if simulation.success
        then charge aave asset (choose_target_block observed_block latest) encoded
            (record { sender = sender; to = to; call_data = encoded.0 }) simulation
        else ok
            (simulation_failed aave (choose_target_block observed_block latest) encoded simulation)

  unfoldable pub on_settled : AaveSnapshot → Reply ExecutionFinalization → ExecutionFinalization
  on_settled aave (ok final) = final
  on_settled aave (err e) =
      stopped (some (aave.premium_bps)) (some (premium_units aave))
        (some (aave.available_liquidity)) none ((codes "execution_finalization_failed:" ++ e) ∷ [])

  unfoldable pub on_profit : AaveSnapshot → List Text → Bool → ExecutionFinalization
  on_profit aave adapters true =
      stopped (some (aave.premium_bps)) (some (premium_units aave))
        (some (aave.available_liquidity)) (some (pre_gas_profit aave))
        (codes "non_positive_profit_after_flashloan_premium" ∷ [])
  on_profit aave adapters false = on_settled aave (settle aave adapters)

  unfoldable pub on_loan : AaveSnapshot → List Text → List Text → ExecutionFinalization
  on_loan aave adapters [] = on_profit aave adapters (leb_ℤ (pre_gas_profit aave) (pos 0))
  on_loan aave adapters (b ∷ blockers) =
      stopped (some (aave.premium_bps)) none (some (aave.available_liquidity)) none (b ∷ blockers)

  unfoldable pub on_snapshot : List Text → Reply AaveSnapshot → ExecutionFinalization
  on_snapshot adapters (ok aave) = on_loan aave adapters (loan_blockers amount_in aave)
  on_snapshot adapters (err e) = empty_finalization ((codes "aave_snapshot_failed:" ++ e) ∷ [])

  unfoldable pub snapshot_reply : Reply AaveSnapshot
  snapshot_reply = do
    asset ← item (cycle.tokens) 0
    outside.aave_snapshot (settings.aave_pool) asset

  unfoldable pub on_verified : List Text → Reply (Unit {0}) → ExecutionFinalization
  on_verified adapters (ok u) = on_snapshot adapters snapshot_reply
  on_verified adapters (err e) =
      empty_finalization ((codes "contract_verification_failed:" ++ e) ∷ [])

  unfoldable pub on_adapters : Reply (List Text × List Text) → ExecutionFinalization
  on_adapters (ok (adapters, [])) =
      on_verified adapters (verify_contracts outside settings adapters)
  on_adapters (ok (adapters, b ∷ blockers)) = empty_finalization (sorted (unique (b ∷ blockers)))
  on_adapters (err e) = empty_finalization ((codes "contract_verification_failed:" ++ e) ∷ [])

  unfoldable pub on_chain : Reply ℕ → ExecutionFinalization
  on_chain (ok chain_id) =
      if chain_id == settings.chain_id
      then on_adapters (adapters_for settings (cycle.pools))
      else empty_finalization ((codes "wrong_chain:" ++ decimal chain_id) ∷ [])
  on_chain (err e) = empty_finalization ((codes "chain_id_query_failed:" ++ e) ∷ [])

  unfoldable pub on_configured : List Text → Reply ExecutionFinalization
  on_configured [] = do outside.open_runtime; ok (on_chain (outside.chain_id))
  on_configured (m ∷ missing) = ok (empty_finalization (m ∷ missing))

  unfoldable pub finalize : Reply ExecutionFinalization
  finalize = on_configured (configured settings)
