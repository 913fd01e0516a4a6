-- ===== src/Scoring/Tests.antt =====
-- A concrete candidate (python/src/arb_bot/scoring.py), with decimals in whole units.
use base_arb_bot.Scoring.{
  Decimals, RouteCandidate, RiskGate, net_profit, expected_value, age, probability_mass, reasons_of,
  score, choose, same_score, same_bool, same_texts, ExecutionEnvelope, Payload, ExecutorError,
  execute,
}
use base_arb_bot.Scoring.Submitted.{
  IsAcceptable, IsSubmitted, score-IsAcceptable, execute-IsSubmitted,
}
use base_arb_bot.Prelude.{ℕ, suc, ◌*◌, ◌&&◌, true, [], ok, some, Result, ◌≡◌, ◌↔◌, refl}
use base_arb_bot.Prelude.Text.{codes, text_eq}
use base_arb_bot.Prelude.Int.{ℤ, pos, negsuc, ◌+ℤ◌, ◌-ℤ◌, ltb_ℤ, leb_ℤ}

abbrev product : ℤ → ℤ → ℤ
product (pos a) (pos b) = pos (a * b)
product (pos a) (negsuc b) = pos 0 -ℤ pos (a * suc b)
product (negsuc a) (pos b) = pos 0 -ℤ pos (suc a * b)
product (negsuc a) (negsuc b) = pos (suc a * suc b)

abbrev sample_decimals : Decimals
sample_decimals = record {
  Decimal = ℤ;
  sub = λ a b. a -ℤ b;
  plus = λ a b. a +ℤ b;
  times = product;
  less = ltb_ℤ;
  same = λ a b. leb_ℤ a b && leb_ℤ b a;
  zero_decimal = pos 0;
  mass_limit = pos 1;
  high_probability = pos 1;
  fair_probability = pos 1;
  full_value = pos 2;
}

abbrev sample_candidate : RouteCandidate sample_decimals
sample_candidate = record {
  opportunity_id = codes "one";
  chain_id = pos 8453;
  target_block = pos 12;
  observed_block = pos 11;
  asset = codes "0x1";
  amount_in = codes "100";
  gross_profit_usd = pos 20;
  gas_cost_usd = pos 3;
  hedge_cost_usd = pos 1;
  inventory_risk_usd = pos 0;
  success_probability = pos 1;
  revert_probability = pos 0;
  stale_probability = pos 0;
  leakage_probability = pos 0;
  revert_cost_usd = pos 5;
  stale_loss_usd = pos 5;
  opportunity_loss_usd = pos 5;
  route_hops = 2;
  route_hash = codes "0x2";
}

abbrev sample_gate : RiskGate sample_decimals
sample_gate = record {
  min_profit_usd = some (pos 1);
  max_gas_usd = some (pos 10);
  max_hops = 3;
  max_state_age_blocks = 2;
}

score-IsAcceptable_example :
    ((score sample_decimals sample_gate sample_candidate).approved ≡ true)
    ↔ IsAcceptable sample_decimals sample_gate sample_candidate
score-IsAcceptable_example = score-IsAcceptable sample_decimals sample_gate sample_candidate

abbrev sample_envelope : ExecutionEnvelope sample_decimals
sample_envelope = record {
  candidate = sample_candidate;
  claimed = record {
    opportunity_id = codes "one";
    approved = true;
    net_profit_usd = pos 16;
    expected_value_usd = pos 16;
    state_age_blocks = 1;
    reasons = [];
  };
  calldata = codes "0x";
}

abbrev sample_submit : Payload sample_decimals → Result ExecutorError ℕ
sample_submit payload = ok (payload.percent)

sample-executed : execute sample_decimals sample_gate sample_submit sample_envelope ≡ ok 100
unfolding execute score reasons_of choose same_score same_bool same_texts net_profit expected_value
    age probability_mass text_eq ◌+ℤ◌ ◌-ℤ◌
sample-executed = refl

execute-IsSubmitted_example :
    IsSubmitted sample_decimals sample_gate sample_submit sample_envelope 100
execute-IsSubmitted_example =
    execute-IsSubmitted sample_decimals sample_gate sample_submit sample_envelope 100
      sample-executed
