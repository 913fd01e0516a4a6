-- ===== src/Finalize/Charged.antt =====
-- The fees of `finalize` (python/src/arb_bot/execution.py): the part from the gas estimate on.
use base_arb_bot.Finalize.{
  AaveSnapshot, SimulationResult, ExecutionFinalization, Settings, Call, Outside,
}
use base_arb_bot.Finalize.Run.{larger_gas, or_none, size_reply, pre_gas_profit, charged, charge}
use base_arb_bot.Finalize.Converter.{convert}
use base_arb_bot.Finalize.Fees.{IsFee}
use base_arb_bot.Graph.{Cycle, LivePoolGraph}
use base_arb_bot.Rlp.{conservative_eip1559_signed_size}
use base_arb_bot.Prelude.{
  ℕ, ◌+◌, ◌*◌, true, false, List, [], ◌∷◌, if◌then◌else◌, ok, Option, some, ◌≡◌, refl, sym, ap, ◌∙◌,
  arith, bind-eq-ok, ok-injective,
}
use base_arb_bot.Prelude.Text.{Text, codes}
use base_arb_bot.Prelude.Int.{ℤ, pos, negsuc, ◌-ℤ◌, leb_ℤ, ltb_ℤ}

-- What the fees left of the profit, for the transaction that was simulated: the gas at the node's
-- price, and the most that the L1 can charge for a signed transaction of its size.
pub record IsCharged (outside : Outside) (settings : Settings) (graph : LivePoolGraph)
    (asset : Text) (profit : ℤ) (target_block : ℕ) (encoded : Text × Text) (call : Call)
    (simulation : SimulationResult) (final : ExecutionFinalization) : Type 0 where
  pub gas_used : ℕ
  pub gas_price : ℕ
  pub l1_fee : ℕ
  pub gas_asset_units : ℕ
  pub gas_eq : larger_gas (simulation.gas_used) (or_none (outside.estimate_gas call)) ≡ ok gas_used
  pub fee : IsFee outside settings graph asset (encoded.0) gas_used gas_price l1_fee gas_asset_units
  pub gas_price_wei_eq : final.gas_price_wei ≡ some gas_price
  pub l1_fee_wei_eq : final.l1_fee_upper_bound_wei ≡ some l1_fee
  pub gas_cost_eq : final.gas_cost_asset_units ≡ some gas_asset_units
  pub calldata_eq : final.calldata ≡ some (encoded.0)
  pub route_hash_eq : final.route_hash ≡ some (encoded.1)
  pub target_block_eq : final.target_block ≡ some target_block
  pub total_fee_eq : final.total_native_fee_wei ≡ some (gas_used * gas_price + l1_fee)
  pub net_eq : final.deterministic_net_profit_units ≡ some (profit -ℤ pos gas_asset_units)
  pub net_positive : ltb_ℤ (pos 0) (profit -ℤ pos gas_asset_units) ≡ true
  pub no_blockers : final.blockers ≡ []

leb-of-ltb : (z : ℤ) → ltb_ℤ (pos 0) z ≡ true → leb_ℤ z (pos 0) ≡ false
leb-of-ltb (pos n) h = ground (arith)
leb-of-ltb (negsuc n) h = ground (arith)

module _ (outside : Outside) (settings : Settings) (graph : LivePoolGraph) (cycle : Cycle)
    (amount_in amount_out : ℕ) (quotes : List ℕ) (observed_block : Option ℕ) where
  charged-IsCharged :
      (aave : AaveSnapshot) (asset : Text) (target_block : ℕ) (encoded : Text × Text) (call : Call)
      (simulation : SimulationResult) (gas_used gas_price l1_fee gas_asset_units : ℕ)
      (final : ExecutionFinalization)
      → larger_gas (simulation.gas_used) (or_none (outside.estimate_gas call)) ≡ ok gas_used
      → IsFee outside settings graph asset (encoded.0) gas_used gas_price l1_fee gas_asset_units
      → charged outside settings graph cycle amount_in amount_out quotes observed_block aave
          target_block encoded simulation
          (or_none (outside.estimate_gas call))
          gas_used
          gas_price
          l1_fee
          gas_asset_units
        ≡ final
      → final.submission_eligible ≡ true
      → IsCharged outside settings graph asset
          (pre_gas_profit outside settings graph cycle amount_in amount_out quotes observed_block
            aave)
          target_block
          encoded
          call
          simulation
          final
  unfolding charged
  charged-IsCharged aave asset target_block encoded call simulation gas_used gas_price l1_fee
        gas_asset_units final gas_eq fee e h =
      record {
        gas_used = gas_used;
        gas_price = gas_price;
        l1_fee = l1_fee;
        gas_asset_units = gas_asset_units;
        gas_eq = gas_eq;
        fee = fee;
        gas_price_wei_eq = ap (λ f. f.gas_price_wei) (sym e);
        l1_fee_wei_eq = ap (λ f. f.l1_fee_upper_bound_wei) (sym e);
        gas_cost_eq = ap (λ f. f.gas_cost_asset_units) (sym e);
        calldata_eq = ap (λ f. f.calldata) (sym e);
        route_hash_eq = ap (λ f. f.route_hash) (sym e);
        target_block_eq = ap (λ f. f.target_block) (sym e);
        total_fee_eq = ap (λ f. f.total_native_fee_wei) (sym e);
        net_eq = ap (λ f. f.deterministic_net_profit_units) (sym e);
        net_positive = ap (λ f. f.submission_eligible) e ∙ h;
        no_blockers =
            ap (λ f. f.blockers) (sym e) ∙ cleared _ (ap (λ f. f.submission_eligible) e ∙ h);
      }
    where
      cleared :
          (net : ℤ)
          → ltb_ℤ (pos 0) net ≡ true
          → (if leb_ℤ net (pos 0)
              then codes "non_positive_profit_after_full_transaction_cost" ∷ []
              else [])
            ≡ []
      cleared net p = rw (leb-of-ltb net p) refl

  pub charge-IsCharged :
      (aave : AaveSnapshot) (asset : Text) (target_block : ℕ) (encoded : Text × Text) (call : Call)
      (simulation : SimulationResult) (final : ExecutionFinalization)
      → charge outside settings graph cycle amount_in amount_out quotes observed_block aave asset
          target_block encoded call simulation
        ≡ ok final
      → final.submission_eligible ≡ true
      → IsCharged outside settings graph asset
          (pre_gas_profit outside settings graph cycle amount_in amount_out quotes observed_block
            aave)
          target_block
          encoded
          call
          simulation
          final
  unfolding charge
  charge-IsCharged aave asset target_block encoded call simulation final e h =
      let (gas_used, gas_eq, e1) =
        bind-eq-ok (larger_gas (simulation.gas_used) (or_none (outside.estimate_gas call))) _ e in
      let (gas_price, e2', e2) = bind-eq-ok (outside.gas_price) _ e1 in
      let (nonce, e3', e3) = bind-eq-ok (outside.nonce (settings.executor_owner_address)) _ e2 in
      let (priority_fee, e4', e4) = bind-eq-ok (outside.priority_fee) _ e3 in
      let (base_fee, e5', e5) = bind-eq-ok (outside.pending_base_fee) _ e4 in
      let (tx_size, e6', e6) =
        bind-eq-ok
          (size_reply (
            conservative_eip1559_signed_size (pos (settings.chain_id)) (pos nonce)
              (pos priority_fee) (pos (base_fee + priority_fee)) (pos gas_used)
              (settings.executor_address) (encoded.0)))
          _ e5 in
      let (l1_fee, e7', e7) =
        bind-eq-ok (outside.l1_fee_upper_bound (settings.gas_price_oracle) tx_size) _ e6 in
      let (gas_asset_units, converted, e8) =
        bind-eq-ok (convert outside settings graph asset (gas_used * gas_price + l1_fee)) _ e7 in
      charged-IsCharged aave asset target_block encoded call simulation gas_used gas_price l1_fee
        gas_asset_units final gas_eq
        (record {
          nonce = nonce;
          priority_fee = priority_fee;
          base_fee = base_fee;
          tx_size = tx_size;
          gas_price_eq = e2';
          nonce_eq = e3';
          priority_fee_eq = e4';
          base_fee_eq = e5';
          tx_size_eq = e6';
          l1_fee_eq = e7';
          converted = converted;
        })
        (ok-injective e8) h
