-- ===== src/Finalize/Gates.antt =====
-- `finalize` (python/src/arb_bot/execution.py): an eligible result passed each gate in turn.
use base_arb_bot.Finalize.{
  AaveSnapshot, ExecutionFinalization, Settings, Reply, Outside, configured, stopped,
  empty_finalization,
}
use base_arb_bot.Finalize.Run.{
  adapters_for, decimal, verify_contracts, loan_blockers, settle, on_settled, on_profit, on_loan,
  on_snapshot, snapshot_reply, on_verified, on_adapters, on_chain, on_configured, finalize,
}
use base_arb_bot.Finalize.Eligible.{IsCleared, IsPaid, settle-IsPaid}
use base_arb_bot.Graph.{Cycle, LivePoolGraph}
use base_arb_bot.Prelude.{
  ℕ, Bool, true, false, List, [], ◌∷◌, ◌++◌, ◌==◌, if◌then◌else◌, ok, err, Option, none, ◌≡◌, refl,
  ap, subst, ◌∙◌, bind-eq-ok, ok-injective, ==_iff,
}
use base_arb_bot.Prelude.Text.{Text, codes}
use base_arb_bot.Prelude.Int.{ℤ}

module _ (outside : Outside) (settings : Settings) (graph : LivePoolGraph) (cycle : Cycle)
    (amount_in amount_out : ℕ) (quotes : List ℕ) (observed_block : Option ℕ) where
  stopped-refused :
      (bps units liquidity : Option ℕ) (net : Option ℤ) (blockers : List Text)
      → (stopped bps units liquidity net blockers).submission_eligible ≡ true
      → IsPaid outside settings graph cycle amount_in amount_out quotes observed_block
          (stopped bps units liquidity net blockers)
  unfolding stopped
  stopped-refused bps units liquidity net blockers h = cc

  on_settled-IsPaid :
      (aave : AaveSnapshot) (adapters : List Text) (r : Reply ExecutionFinalization)
      → settle outside settings graph cycle amount_in amount_out quotes observed_block aave adapters
        ≡ r
      → IsCleared outside settings graph cycle amount_in amount_out quotes observed_block adapters
          aave
      → (on_settled outside settings graph cycle amount_in amount_out quotes observed_block aave
          r).submission_eligible
        ≡ true
      → IsPaid outside settings graph cycle amount_in amount_out quotes observed_block (
          on_settled outside settings graph cycle amount_in amount_out quotes observed_block aave r)
  unfolding on_settled
  on_settled-IsPaid aave adapters (err e) settled cleared h = stopped-refused _ _ _ _ _ h
  on_settled-IsPaid aave adapters (ok final) settled cleared h =
      settle-IsPaid outside settings graph cycle amount_in amount_out quotes observed_block aave
        adapters final cleared settled h

  on_profit-IsPaid :
      (aave : AaveSnapshot) (adapters : List Text) (b : Bool)
      → IsCleared outside settings graph cycle amount_in amount_out quotes observed_block adapters
          aave
      → (on_profit outside settings graph cycle amount_in amount_out quotes observed_block aave
          adapters b).submission_eligible
        ≡ true
      → IsPaid outside settings graph cycle amount_in amount_out quotes observed_block (
          on_profit outside settings graph cycle amount_in amount_out quotes observed_block aave
            adapters b)
  unfolding on_profit
  on_profit-IsPaid aave adapters true cleared h = stopped-refused _ _ _ _ _ h
  on_profit-IsPaid aave adapters false cleared h =
      on_settled-IsPaid aave adapters
        (settle outside settings graph cycle amount_in amount_out quotes observed_block aave
          adapters)
        refl cleared h

  on_loan-IsPaid :
      (aave : AaveSnapshot) (adapters blockers : List Text)
      → (blockers ≡ []
          → IsCleared outside settings graph cycle amount_in amount_out quotes observed_block
              adapters aave)
      → (on_loan outside settings graph cycle amount_in amount_out quotes observed_block aave
          adapters blockers).submission_eligible
        ≡ true
      → IsPaid outside settings graph cycle amount_in amount_out quotes observed_block (
          on_loan outside settings graph cycle amount_in amount_out quotes observed_block aave
            adapters blockers)
  unfolding on_loan
  on_loan-IsPaid aave adapters [] clear h = on_profit-IsPaid aave adapters _ (clear refl) h
  on_loan-IsPaid aave adapters (b ∷ blockers) clear h = stopped-refused _ _ _ _ _ h

  on_snapshot-IsPaid :
      (adapters : List Text) (r : Reply AaveSnapshot)
      → ((aave : AaveSnapshot)
          → r ≡ ok aave
          → loan_blockers amount_in aave ≡ []
          → IsCleared outside settings graph cycle amount_in amount_out quotes observed_block
              adapters aave)
      → (on_snapshot outside settings graph cycle amount_in amount_out quotes observed_block
          adapters r).submission_eligible
        ≡ true
      → IsPaid outside settings graph cycle amount_in amount_out quotes observed_block (
          on_snapshot outside settings graph cycle amount_in amount_out quotes observed_block
            adapters r)
  unfolding on_snapshot empty_finalization
  on_snapshot-IsPaid adapters (ok aave) clear h =
      on_loan-IsPaid aave adapters (loan_blockers amount_in aave) (clear aave refl) h
  on_snapshot-IsPaid adapters (err e) clear h = stopped-refused _ _ _ _ _ h

  on_verified-IsPaid :
      (adapters : List Text) (r : Reply (Unit {0}))
      → verify_contracts outside settings adapters ≡ r
      → configured settings ≡ []
      → outside.chain_id ≡ ok (settings.chain_id)
      → adapters_for settings (cycle.pools) ≡ ok (adapters, [])
      → (on_verified outside settings graph cycle amount_in amount_out quotes observed_block
          adapters r).submission_eligible
        ≡ true
      → IsPaid outside settings graph cycle amount_in amount_out quotes observed_block (
          on_verified outside settings graph cycle amount_in amount_out quotes observed_block
            adapters r)
  unfolding on_verified empty_finalization
  on_verified-IsPaid adapters (ok u) verified configuration chain adapters_eq h =
      on_snapshot-IsPaid adapters
        (snapshot_reply outside settings graph cycle amount_in amount_out quotes observed_block)
        (λ aave snapshot lent. record {
          configuration = configuration;
          on_chain_id = chain;
          adapters_eq = adapters_eq;
          verified = verified;
          snapshot = snapshot;
          lent = lent;
        })
        h
  on_verified-IsPaid adapters (err e) verified configuration chain adapters_eq h =
      stopped-refused _ _ _ _ _ h

  on_adapters-IsPaid :
      (r : Reply (List Text × List Text))
      → adapters_for settings (cycle.pools) ≡ r
      → configured settings ≡ []
      → outside.chain_id ≡ ok (settings.chain_id)
      → (on_adapters outside settings graph cycle amount_in amount_out quotes observed_block
          r).submission_eligible
        ≡ true
      → IsPaid outside settings graph cycle amount_in amount_out quotes observed_block
          (on_adapters outside settings graph cycle amount_in amount_out quotes observed_block r)
  unfolding on_adapters empty_finalization
  on_adapters-IsPaid (ok (adapters, [])) e configuration chain h =
      on_verified-IsPaid adapters (verify_contracts outside settings adapters) refl configuration
        chain e h
  on_adapters-IsPaid (ok (adapters, b ∷ blockers)) e configuration chain h =
      stopped-refused _ _ _ _ _ h
  on_adapters-IsPaid (err x) e configuration chain h = stopped-refused _ _ _ _ _ h

  on_chain-IsPaid :
      (r : Reply ℕ)
      → outside.chain_id ≡ r
      → configured settings ≡ []
      → (on_chain outside settings graph cycle amount_in amount_out quotes observed_block
          r).submission_eligible
        ≡ true
      → IsPaid outside settings graph cycle amount_in amount_out quotes observed_block
          (on_chain outside settings graph cycle amount_in amount_out quotes observed_block r)
  unfolding on_chain empty_finalization
  on_chain-IsPaid (err x) e configuration h = stopped-refused _ _ _ _ _ h
  on_chain-IsPaid (ok n) e configuration h = by_test (n == settings.chain_id) refl h
    where
      by_test :
          (b : Bool)
          → (n == settings.chain_id) ≡ b
          → (if b
              then on_adapters outside settings graph cycle amount_in amount_out quotes
                  observed_block
                  (adapters_for settings (cycle.pools))
              else stopped none none none none
                  ((codes "wrong_chain:" ++ decimal n) ∷ [])).submission_eligible
            ≡ true
          → IsPaid outside settings graph cycle amount_in amount_out quotes observed_block (
              if b
              then on_adapters outside settings graph cycle amount_in amount_out quotes
                  observed_block
                  (adapters_for settings (cycle.pools))
              else stopped none none none none ((codes "wrong_chain:" ++ decimal n) ∷ []))
      by_test true t h' =
          on_adapters-IsPaid (adapters_for settings (cycle.pools)) refl configuration
            (e ∙ ap ok ((==_iff n (settings.chain_id)).0 t)) h'
      by_test false t h' = stopped-refused _ _ _ _ _ h'

  -- A finalization that says it may be submitted went through every gate: the configuration, the
  -- chain, the adapters, the contracts and the loan; its legs were encoded with the profit after
  -- the premium as the minimum, the call with that calldata was simulated with success, and the
  -- profit left after the premium and the converted fee, which it reports, is positive, where the
  -- fee is the gas at the node's price and the oracle's bound of the L1 fee for a signed transaction
  -- of the conservative size; and it has no blockers.
  pub finalize-IsPaid :
      (final : ExecutionFinalization)
      → finalize outside settings graph cycle amount_in amount_out quotes observed_block ≡ ok final
      → final.submission_eligible ≡ true
      → IsPaid outside settings graph cycle amount_in amount_out quotes observed_block final
  unfolding finalize on_configured empty_finalization
  finalize-IsPaid final e h = by_missing (configured settings) refl e
    where
      by_missing :
          (missing : List Text)
          → configured settings ≡ missing
          → on_configured outside settings graph cycle amount_in amount_out quotes observed_block
              missing
            ≡ ok final
          → IsPaid outside settings graph cycle amount_in amount_out quotes observed_block final
      by_missing (m ∷ missing) c q =
          subst
            (λ f. IsPaid outside settings graph cycle amount_in amount_out quotes observed_block f)
            (ok-injective q)
            (stopped-refused _ _ _ _ _ (ap (λ f. f.submission_eligible) (ok-injective q) ∙ h))
      by_missing [] c q =
          let (u, opened, q1) = bind-eq-ok (outside.open_runtime) _ q in
          subst
            (λ f. IsPaid outside settings graph cycle amount_in amount_out quotes observed_block f)
            (ok-injective q1)
            (on_chain-IsPaid (outside.chain_id) refl c
              (ap (λ f. f.submission_eligible) (ok-injective q1) ∙ h))
