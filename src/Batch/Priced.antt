-- ===== src/Batch/Priced.antt =====
-- The fees of a packed batch (python/src/arb_bot/batch_execution.py), from its simulation on.
use base_arb_bot.Batch.{Kept, PackedBatchPlan, least_profit}
use base_arb_bot.Batch.Trim.{
  Pass, finished, trimmed, route_ids, refused, paid, on_gas, on_simulated,
}
use base_arb_bot.Finalize.{SimulationResult, Settings, Reply, Call, Outside}
use base_arb_bot.Finalize.Converter.{convert}
use base_arb_bot.Finalize.Fees.{IsFee}
use base_arb_bot.Finalize.Run.{or_none, larger_gas, size_reply, error_text}
use base_arb_bot.Rlp.{conservative_eip1559_signed_size}
use base_arb_bot.Graph.{LivePoolGraph}
use base_arb_bot.Packed.{PackedBatch}
use base_arb_bot.Prelude.{
  ℕ, ◌+◌, ◌*◌, Bool, true, false, List, ◌∷◌, ◌++◌, if◌then◌else◌, ok, err, Option, none, some, ◌≡◌,
  refl, subst, bind-eq-ok, ok-injective,
}
use base_arb_bot.Prelude.Text.{Text, codes}
use base_arb_bot.Prelude.Int.{pos, ◌-ℤ◌, ltb_ℤ}

-- A pass that ends with a plan that may be submitted ends with one that has the property.
abbrev pub Pays : (PackedBatchPlan → Type 0) → Pass → Type 0
Pays P (finished plan) = plan.submission_eligible ≡ true → P plan
Pays P trimmed = Unit

pub Pays-map :
    {P Q : PackedBatchPlan → Type 0} (pass : Pass)
    → ((plan : PackedBatchPlan) → P plan → Q plan)
    → Pays P pass
    → Pays Q pass
Pays-map (finished plan) f h = λ eligible. f plan (h eligible)
Pays-map trimmed f h = tt

module _ (outside : Outside) (sha256 : Text → Text)
    (encode_start_packed : Text → List ℕ → Reply (Text × Text)) (settings : Settings)
    (graph : LivePoolGraph) where
  -- The call was simulated with success, and the least profit of the rows exceeds its whole fee.
  pub record IsPriced (row : Kept) (rows : List Kept) (asset : Text) (encoded : Text × Text)
      (call : Call) (plan : PackedBatchPlan) : Type 0 where
    pub simulation : SimulationResult
    pub gas_used : ℕ
    pub gas_price : ℕ
    pub l1_fee : ℕ
    pub gas_asset : ℕ
    pub simulated : outside.simulate call ≡ ok simulation
    pub success : simulation.success ≡ true
    pub gas_used_eq :
        larger_gas (simulation.gas_used) (or_none (outside.estimate_gas call)) ≡ ok gas_used
    pub fee : IsFee outside settings graph asset (encoded.0) gas_used gas_price l1_fee gas_asset
    pub calldata_eq : plan.calldata ≡ some (encoded.0)
    pub batch_hash_eq : plan.batch_hash ≡ some (encoded.1)
    pub ids_eq : plan.candidate_route_ids ≡ route_ids (row ∷ rows)
    pub gas_eq : plan.gas_cost_asset_units ≡ some gas_asset
    pub net_eq : plan.deterministic_net_profit_units ≡ some (least_profit row rows -ℤ pos gas_asset)
    pub net_positive : ltb_ℤ (pos 0) (least_profit row rows -ℤ pos gas_asset) ≡ true
    pub reported : plan.simulation_success ≡ true

  refused-Pays :
      (P : PackedBatchPlan → Type 0) (encoded : Text × Text) (batch : PackedBatch)
      (rows : List Kept) (success : Bool) (gas_used : Option ℕ) (blocker : Text)
      → Pays P (finished (refused encoded batch rows success gas_used blocker))
  unfolding refused
  refused-Pays P encoded batch rows success gas_used blocker h = absurd cc

  choice-Pays :
      (encoded : Text × Text) (batch : PackedBatch) (row : Kept) (rows : List Kept)
      (blockers : List Text) (call : Call) (simulation : SimulationResult)
      (gas_used gas_price l1_fee gas_asset : ℕ) (pass : Pass) (b : Bool)
      → outside.simulate call ≡ ok simulation
      → simulation.success ≡ true
      → larger_gas (simulation.gas_used) (or_none (outside.estimate_gas call)) ≡ ok gas_used
      → IsFee outside settings graph (batch.asset) (encoded.0) gas_used gas_price l1_fee gas_asset
      → ltb_ℤ (pos 0) (least_profit row rows -ℤ pos gas_asset) ≡ b
      → ◌≡◌ {A = Reply Pass}
          (if b
            then ok (
                finished (
                  paid encoded batch
                    (row ∷ rows)
                    simulation
                    (or_none (outside.estimate_gas call))
                    gas_asset
                    (least_profit row rows -ℤ pos gas_asset)
                    blockers))
            else ok trimmed)
          (ok pass)
      → Pays (IsPriced row rows (batch.asset) encoded call) pass
  unfolding paid
  choice-Pays encoded batch row rows blockers call simulation gas_used gas_price l1_fee gas_asset
        pass true simulated success gas_used_eq fee positive e =
      subst (Pays (IsPriced row rows (batch.asset) encoded call)) (ok-injective e) (λ h. record {
        simulation = simulation;
        gas_used = gas_used;
        gas_price = gas_price;
        l1_fee = l1_fee;
        gas_asset = gas_asset;
        simulated = simulated;
        success = success;
        gas_used_eq = gas_used_eq;
        fee = fee;
        calldata_eq = refl;
        batch_hash_eq = refl;
        ids_eq = refl;
        gas_eq = refl;
        net_eq = refl;
        net_positive = positive;
        reported = refl;
      })
  choice-Pays encoded batch row rows blockers call simulation gas_used gas_price l1_fee gas_asset
        pass false simulated success gas_used_eq fee positive e =
      subst (Pays (IsPriced row rows (batch.asset) encoded call)) (ok-injective e) tt

  on_gas-Pays :
      (encoded : Text × Text) (batch : PackedBatch) (row : Kept) (rows : List Kept)
      (blockers : List Text) (call : Call) (simulation : SimulationResult) (gas : Reply ℕ)
      (pass : Pass)
      → outside.simulate call ≡ ok simulation
      → simulation.success ≡ true
      → larger_gas (simulation.gas_used) (or_none (outside.estimate_gas call)) ≡ gas
      → on_gas outside sha256 encode_start_packed settings graph encoded batch row rows blockers
          simulation
          (or_none (outside.estimate_gas call))
          gas
        ≡ ok pass
      → Pays (IsPriced row rows (batch.asset) encoded call) pass
  unfolding on_gas
  on_gas-Pays encoded batch row rows blockers call simulation (err x) pass simulated success q e =
      subst (Pays (IsPriced row rows (batch.asset) encoded call)) (ok-injective e) (
        refused-Pays (IsPriced row rows (batch.asset) encoded call) encoded batch (row ∷ rows) true
          none (codes "packed_gas_measurement_missing"))
  on_gas-Pays encoded batch row rows blockers call simulation (ok gas_used) pass simulated success q
        e =
      let (gas_price, q1, e1) = bind-eq-ok (outside.gas_price) _ e in
      let (nonce, q2, e2) = bind-eq-ok (outside.nonce (settings.executor_owner_address)) _ e1 in
      let (priority, q3, e3) = bind-eq-ok (outside.priority_fee) _ e2 in
      let (base_fee, q4, e4) = bind-eq-ok (outside.pending_base_fee) _ e3 in
      let (tx_size, q5, e5) =
        bind-eq-ok
          (size_reply (
            conservative_eip1559_signed_size (pos (settings.chain_id)) (pos nonce) (pos priority)
              (pos (base_fee + priority)) (pos gas_used) (settings.executor_address) (encoded.0)))
          _ e4 in
      let (l1_fee, q6, e6) =
        bind-eq-ok (outside.l1_fee_upper_bound (settings.gas_price_oracle) tx_size) _ e5 in
      let (gas_asset, q7, e7) =
        bind-eq-ok (convert outside settings graph (batch.asset) (gas_used * gas_price + l1_fee)) _
          e6 in
      choice-Pays encoded batch row rows blockers call simulation gas_used gas_price l1_fee
        gas_asset pass (ltb_ℤ (pos 0) (least_profit row rows -ℤ pos gas_asset)) simulated success q
        (record {
          nonce = nonce;
          priority_fee = priority;
          base_fee = base_fee;
          tx_size = tx_size;
          gas_price_eq = q1;
          nonce_eq = q2;
          priority_fee_eq = q3;
          base_fee_eq = q4;
          tx_size_eq = q5;
          l1_fee_eq = q6;
          converted = q7;
        })
        refl e7

  pub on_simulated-Pays :
      (encoded : Text × Text) (batch : PackedBatch) (row : Kept) (rows : List Kept)
      (blockers : List Text) (call : Call) (reply : Reply SimulationResult) (pass : Pass)
      → outside.simulate call ≡ reply
      → on_simulated outside sha256 encode_start_packed settings graph encoded batch row rows
          blockers call reply
        ≡ ok pass
      → Pays (IsPriced row rows (batch.asset) encoded call) pass
  unfolding on_simulated
  on_simulated-Pays encoded batch row rows blockers call (err x) pass s e =
      subst (Pays (IsPriced row rows (batch.asset) encoded call)) (ok-injective e) (
        refused-Pays (IsPriced row rows (batch.asset) encoded call) encoded batch (row ∷ rows) false
          none _)
  on_simulated-Pays encoded batch row rows blockers call (ok simulation) pass s e =
      either (simulation.success) refl
        (on_gas outside sha256 encode_start_packed settings graph encoded batch row rows blockers
          simulation (or_none (outside.estimate_gas call))
          (larger_gas (simulation.gas_used) (or_none (outside.estimate_gas call))))
        (refused encoded batch (row ∷ rows) false (simulation.gas_used)
          (codes "packed_executor_simulation_failed:" ++ error_text (simulation.error)))
        e (λ t q. on_gas-Pays encoded batch row rows blockers call simulation _ pass s t refl q)
        (refused-Pays (IsPriced row rows (batch.asset) encoded call) encoded batch (row ∷ rows)
          false (simulation.gas_used) _)
    where
      either :
          (b : Bool)
          → simulation.success ≡ b
          → (priced : Reply Pass) (plan : PackedBatchPlan)
          → (if b then priced else ok (finished plan)) ≡ ok pass
          → (simulation.success ≡ true
              → priced ≡ ok pass
              → Pays (IsPriced row rows (batch.asset) encoded call) pass)
          → Pays (IsPriced row rows (batch.asset) encoded call) (finished plan)
          → Pays (IsPriced row rows (batch.asset) encoded call) pass
      either true t priced plan q pays refuses = pays t q
      either false t priced plan q pays refuses =
          subst (Pays (IsPriced row rows (batch.asset) encoded call)) (ok-injective q) refuses
