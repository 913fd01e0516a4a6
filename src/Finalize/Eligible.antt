-- ===== src/Finalize/Eligible.antt =====
-- What `submission_eligible` of `finalize` (python/src/arb_bot/execution.py) promises.
use base_arb_bot.Finalize.{
  AaveSnapshot, SimulationResult, ExecutionFinalization, Leg, Settings, Call, Outside, configured,
}
use base_arb_bot.Finalize.Run.{
  adapters_for, verify_contracts, item, build_legs, flashloan_premium, loan_blockers,
  choose_target_block, deadline_never, premium_units, pre_gas_profit, charge, simulation_failed,
  settle, snapshot_reply,
}
use base_arb_bot.Finalize.Charged.{IsCharged, charge-IsCharged}
use base_arb_bot.Graph.{Cycle, LivePoolGraph}
use base_arb_bot.Prelude.{
  ℕ, Bool, true, false, List, [], if◌then◌else◌, ok, Option, ◌≡◌, refl, ap, ◌∙◌, bind-eq-ok,
  ok-injective,
}
use base_arb_bot.Prelude.Text.{Text}
use base_arb_bot.Prelude.Int.{pos, ◌-ℤ◌}

-- The gates before the transaction is built: the chain, the adapters, the contracts and the loan.
pub record IsCleared (outside : Outside) (settings : Settings) (graph : LivePoolGraph)
    (cycle : Cycle) (amount_in amount_out : ℕ) (quotes : List ℕ) (observed_block : Option ℕ)
    (adapters : List Text) (aave : AaveSnapshot) : Type 0 where
  pub configuration : configured settings ≡ []
  pub on_chain_id : outside.chain_id ≡ ok (settings.chain_id)
  pub adapters_eq : adapters_for settings (cycle.pools) ≡ ok (adapters, [])
  pub verified : verify_contracts outside settings adapters ≡ ok tt
  pub snapshot :
      snapshot_reply outside settings graph cycle amount_in amount_out quotes observed_block
      ≡ ok aave
  pub lent : loan_blockers amount_in aave ≡ []

-- The transaction passed every gate, it was simulated with the exact calldata, and the profit left
-- after the flash-loan premium and the whole fee is positive.
pub record IsPaid (outside : Outside) (settings : Settings) (graph : LivePoolGraph) (cycle : Cycle)
    (amount_in amount_out : ℕ) (quotes : List ℕ) (observed_block : Option ℕ)
    (final : ExecutionFinalization) : Type 0 where
  pub adapters : List Text
  pub aave : AaveSnapshot
  pub latest : ℕ
  pub legs : List Leg
  pub asset : Text
  pub encoded : Text × Text
  pub call : Call
  pub simulation : SimulationResult
  pub cleared :
      IsCleared outside settings graph cycle amount_in amount_out quotes observed_block adapters
        aave
  pub latest_eq : outside.block_number ≡ ok latest
  pub legs_eq : build_legs outside cycle adapters quotes 0 (cycle.pools) ≡ ok legs
  pub asset_eq : item (cycle.tokens) 0 ≡ ok asset
  pub encoded_eq :
      outside.encode_start
        (settings.executor_address)
        asset
        amount_in
        (pos amount_out -ℤ pos amount_in -ℤ pos (flashloan_premium amount_in (aave.premium_bps)))
        (choose_target_block observed_block latest)
        deadline_never
        legs
      ≡ ok encoded
  pub call_data_eq : call.call_data ≡ encoded.0
  pub simulated : outside.simulate call ≡ ok simulation
  pub success : simulation.success ≡ true
  pub fees :
      IsCharged outside settings graph asset
        (pos amount_out -ℤ pos amount_in -ℤ pos (flashloan_premium amount_in (aave.premium_bps)))
        (choose_target_block observed_block latest)
        encoded
        call
        simulation
        final

module _ (outside : Outside) (settings : Settings) (graph : LivePoolGraph) (cycle : Cycle)
    (amount_in amount_out : ℕ) (quotes : List ℕ) (observed_block : Option ℕ) where
  abbrev pub Paid : ExecutionFinalization → Type 0
  Paid = IsPaid outside settings graph cycle amount_in amount_out quotes observed_block

  simulated-IsPaid :
      (aave : AaveSnapshot) (adapters : List Text) (final : ExecutionFinalization)
      → IsCleared outside settings graph cycle amount_in amount_out quotes observed_block adapters
          aave
      → (latest : ℕ) (legs : List Leg) (asset : Text) (encoded : Text × Text) (call : Call)
        (simulation : SimulationResult) (success : Bool)
      → simulation.success ≡ success
      → outside.block_number ≡ ok latest
      → build_legs outside cycle adapters quotes 0 (cycle.pools) ≡ ok legs
      → item (cycle.tokens) 0 ≡ ok asset
      → outside.encode_start
          (settings.executor_address)
          asset
          amount_in
          (pre_gas_profit outside settings graph cycle amount_in amount_out quotes observed_block
            aave)
          (choose_target_block observed_block latest)
          deadline_never
          legs
        ≡ ok encoded
      → call.call_data ≡ encoded.0
      → outside.simulate call ≡ ok simulation
      → (if success
          then charge outside settings graph cycle amount_in amount_out quotes observed_block aave
              asset
              (choose_target_block observed_block latest)
              encoded
              call
              simulation
          else ok (
              simulation_failed outside settings graph cycle amount_in amount_out quotes
                observed_block aave
                (choose_target_block observed_block latest)
                encoded
                simulation))
        ≡ ok final
      → final.submission_eligible ≡ true
      → Paid final
  unfolding pre_gas_profit premium_units simulation_failed
  simulated-IsPaid aave adapters final cleared latest legs asset encoded call simulation true
        success latest_eq legs_eq asset_eq encoded_eq data_eq simulated e h =
      record {
        adapters = adapters;
        aave = aave;
        latest = latest;
        legs = legs;
        asset = asset;
        encoded = encoded;
        call = call;
        simulation = simulation;
        cleared = cleared;
        latest_eq = latest_eq;
        legs_eq = legs_eq;
        asset_eq = asset_eq;
        encoded_eq = encoded_eq;
        call_data_eq = data_eq;
        simulated = simulated;
        success = success;
        fees =
            charge-IsCharged outside settings graph cycle amount_in amount_out quotes observed_block
              aave asset (choose_target_block observed_block latest) encoded call simulation final e
              h;
      }
  simulated-IsPaid aave adapters final cleared latest legs asset encoded call simulation false
        success latest_eq legs_eq asset_eq encoded_eq data_eq simulated e h =
      absurd_eligible (ap (λ f. f.submission_eligible) (ok-injective e) ∙ h)
    where
      absurd_eligible : false ≡ true → Paid final
      absurd_eligible x = cc

  pub settle-IsPaid :
      (aave : AaveSnapshot) (adapters : List Text) (final : ExecutionFinalization)
      → IsCleared outside settings graph cycle amount_in amount_out quotes observed_block adapters
          aave
      → settle outside settings graph cycle amount_in amount_out quotes observed_block aave adapters
        ≡ ok final
      → final.submission_eligible ≡ true
      → Paid final
  unfolding settle
  settle-IsPaid aave adapters final cleared e h =
      let (latest, latest_eq, e1) = bind-eq-ok (outside.block_number) _ e in
      let (legs, legs_eq, e2) =
        bind-eq-ok (build_legs outside cycle adapters quotes 0 (cycle.pools)) _ e1 in
      let (asset, asset_eq, e3) = bind-eq-ok (item (cycle.tokens) 0) _ e2 in
      let (encoded, encoded_eq, e4) =
        bind-eq-ok
          (outside.encode_start (settings.executor_address) asset amount_in
            (pre_gas_profit outside settings graph cycle amount_in amount_out quotes observed_block
              aave)
            (choose_target_block observed_block latest) deadline_never legs)
          _ e3 in
      let (sender, sender_eq, e5) =
        bind-eq-ok (outside.checksum (settings.executor_owner_address)) _ e4 in
      let (to, to_eq, e6) = bind-eq-ok (outside.checksum (settings.executor_address)) _ e5 in
      let (simulation, simulated, e7) =
        bind-eq-ok (outside.simulate (record { sender = sender; to = to; call_data = encoded.0 })) _
          e6 in
      simulated-IsPaid aave adapters final cleared latest legs asset encoded
        (record { sender = sender; to = to; call_data = encoded.0 }) simulation (simulation.success)
        refl latest_eq legs_eq asset_eq encoded_eq refl simulated e7 h
