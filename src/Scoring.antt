-- ===== src/Scoring.antt =====
-- The risk gate (python/src/arb_bot/scoring.py), the size of a trade (rl_gate.py), and the handler
-- of api.py that submits a candidate. The decimals and the Rust executor are arguments.
pub mod Submitted
mod Tests
use base_arb_bot.Prelude.{
  ℕ, Bool, true, false, not, ◌&&◌, List, [], ◌∷◌, ◌++◌, ltb, leb, ◌==◌, if◌then◌else◌, Result, ok,
  err, ◌>>=◌, ◌>>◌, guard, Option, none, some,
}
use base_arb_bot.Prelude.Text.{Text, codes, text_eq}
use base_arb_bot.Prelude.Int.{ℤ, pos, negsuc, ◌-ℤ◌, pos_part, leb_ℤ}

-- The operations of `Decimal`, and the constants that the code compares with.
pub record Decimals : Type 1 where
  pub Decimal : Type 0
  pub sub : Decimal → Decimal → Decimal
  pub plus : Decimal → Decimal → Decimal
  pub times : Decimal → Decimal → Decimal
  pub less : Decimal → Decimal → Bool
  pub same : Decimal → Decimal → Bool
  pub zero_decimal : Decimal
  pub mass_limit : Decimal
  pub high_probability : Decimal
  pub fair_probability : Decimal
  pub full_value : Decimal

abbrev pub reason_if : Bool → Text → List Text
reason_if true reason = reason ∷ []
reason_if false reason = []

abbrev pub no_reasons : List Text → Bool
no_reasons [] = true
no_reasons (r ∷ reasons) = false

unfoldable pub same_texts : List Text → List Text → Bool
same_texts [] [] = true
same_texts [] (u ∷ us) = false
same_texts (t ∷ ts) [] = false
same_texts (t ∷ ts) (u ∷ us) = text_eq t u && same_texts ts us

pub data SizeAction : Type 0 where
  skip quarter half full : SizeAction

abbrev pub size_percent : SizeAction → ℕ
size_percent skip = 0
size_percent quarter = 25
size_percent half = 50
size_percent full = 100

-- What a call of the executor may raise.
pub data ExecutorError : Type 0 where
  http_error other_error : Text → ExecutorError

-- The responses of the handler that are not a body.
pub data Rejection : Type 0 where
  score_mismatch : Rejection
  not_approved : List Text → Rejection
  executor_unavailable uncaught : Text → Rejection

module _ (decimals : Decimals) where
  abbrev pub D : Type 0
  D = decimals.Decimal

  pub record RouteCandidate : Type 0 where
    pub opportunity_id : Text
    pub chain_id : ℤ
    pub target_block : ℤ
    pub observed_block : ℤ
    pub asset : Text
    pub amount_in : Text
    pub gross_profit_usd : D
    pub gas_cost_usd : D
    pub hedge_cost_usd : D
    pub inventory_risk_usd : D
    pub success_probability : D
    pub revert_probability : D
    pub stale_probability : D
    pub leakage_probability : D
    pub revert_cost_usd : D
    pub stale_loss_usd : D
    pub opportunity_loss_usd : D
    pub route_hops : ℕ
    pub route_hash : Text

  pub record ScoreResult : Type 0 where
    pub opportunity_id : Text
    pub approved : Bool
    pub net_profit_usd : D
    pub expected_value_usd : D
    pub state_age_blocks : ℕ
    pub reasons : List Text

  pub record RiskGate : Type 0 where
    pub min_profit_usd : Option D
    pub max_gas_usd : Option D
    pub max_hops : ℕ
    pub max_state_age_blocks : ℕ

  unfoldable pub net_profit : RouteCandidate → D
  net_profit c =
      decimals.sub
        (decimals.sub (decimals.sub (c.gross_profit_usd) (c.gas_cost_usd)) (c.hedge_cost_usd))
        (c.inventory_risk_usd)

  unfoldable pub expected_value : RouteCandidate → D
  expected_value c =
      decimals.sub
        (decimals.sub
          (decimals.sub (decimals.times (c.success_probability) (net_profit c))
            (decimals.times (c.revert_probability) (c.revert_cost_usd)))
          (decimals.times (c.stale_probability) (c.stale_loss_usd)))
        (decimals.times (c.leakage_probability) (c.opportunity_loss_usd))

  -- `max(0, target_block - observed_block)`
  unfoldable pub age : RouteCandidate → ℕ
  age c = pos_part (c.target_block -ℤ c.observed_block)

  unfoldable pub probability_mass : RouteCandidate → D
  probability_mass c =
      decimals.plus
        (decimals.plus (decimals.plus (c.success_probability) (c.revert_probability))
          (c.stale_probability))
        (c.leakage_probability)

  abbrev pub is_base : ℤ → Bool
  is_base (pos n) = n == 8453
  is_base (negsuc n) = false

  -- `limit is not None and value < limit`, and the same with `>`.
  abbrev pub below_floor : Option D → D → Bool
  below_floor none value = false
  below_floor (some limit) value = decimals.less value limit

  abbrev pub above_limit : Option D → D → Bool
  above_limit none value = false
  above_limit (some limit) value = decimals.less limit value

  module _ (gate : RiskGate) where
    unfoldable pub reasons_of : RouteCandidate → List Text
    reasons_of c =
        reason_if (not (is_base (c.chain_id))) (codes "unsupported_chain")
        ++ reason_if (below_floor (gate.min_profit_usd) (net_profit c))
            (codes "net_profit_below_floor")
        ++ reason_if (not (decimals.less (decimals.zero_decimal) (expected_value c)))
            (codes "non_positive_expected_value")
        ++ reason_if (above_limit (gate.max_gas_usd) (c.gas_cost_usd)) (codes "gas_above_limit")
        ++ reason_if (ltb (gate.max_hops) (c.route_hops)) (codes "too_many_route_hops")
        ++ reason_if (ltb (gate.max_state_age_blocks) (age c)) (codes "stale_state")
        ++ reason_if (decimals.less (decimals.mass_limit) (probability_mass c))
            (codes "invalid_probability_mass")

    -- `RiskGate.score`
    unfoldable pub score : RouteCandidate → ScoreResult
    score c = record {
      opportunity_id = c.opportunity_id;
      approved = no_reasons (reasons_of c);
      net_profit_usd = net_profit c;
      expected_value_usd = expected_value c;
      state_age_blocks = age c;
      reasons = reasons_of c;
    }

  -- `DeterministicPolicy.choose`
  unfoldable pub choose : RouteCandidate → ScoreResult → SizeAction
  choose c s =
      if not (s.approved)
      then skip
      else (if not (decimals.less (c.success_probability) (decimals.high_probability))
            && not (decimals.less (s.expected_value_usd) (decimals.full_value))
          then full
          else (if not (decimals.less (c.success_probability) (decimals.fair_probability))
              then half
              else quarter))

  unfoldable pub same_bool : Bool → Bool → Bool
  same_bool true b = b
  same_bool false b = not b

  -- `fresh == envelope.score`
  unfoldable pub same_score : ScoreResult → ScoreResult → Bool
  same_score s t =
      text_eq (s.opportunity_id) (t.opportunity_id)
      && (same_bool (s.approved) (t.approved)
          && (decimals.same (s.net_profit_usd) (t.net_profit_usd)
              && (decimals.same (s.expected_value_usd) (t.expected_value_usd)
                  && ((s.state_age_blocks == t.state_age_blocks)
                      && same_texts (s.reasons) (t.reasons)))))

  pub record ExecutionEnvelope : Type 0 where
    pub candidate : RouteCandidate
    pub claimed : ScoreResult
    pub calldata : Text

  -- The payload of a submission: the envelope and its size.
  pub record Payload : Type 0 where
    pub envelope : ExecutionEnvelope
    pub percent : ℕ

  abbrev pub or_rejection : {A : Type 0} → Result ExecutorError A → Result Rejection A
  or_rejection (ok body) = ok body
  or_rejection (err (http_error e)) = err (executor_unavailable e)
  or_rejection (err (other_error e)) = err (uncaught e)

  module _ {Body : Type 0} (gate : RiskGate) (submit : Payload → Result ExecutorError Body) where
    -- `execute`; what the database does is ignored, as in the code.
    unfoldable pub execute : ExecutionEnvelope → Result Rejection Body
    execute envelope =
        let fresh = score gate (envelope.candidate) in
        let percent = size_percent (choose (envelope.candidate) fresh) in
        do
          guard (same_score fresh (envelope.claimed)) score_mismatch
          guard (not (percent == 0)) (not_approved (fresh.reasons))
          or_rejection (submit record { envelope = envelope; percent = percent })
