-- ===== src/Scoring/Submitted.antt =====
-- What the risk gate (python/src/arb_bot/scoring.py) approves, and what the handler of
-- python/src/arb_bot/api.py submits.
use base_arb_bot.Scoring.{
  Decimals, skip, quarter, half, full, size_percent, reason_if, no_reasons, RouteCandidate,
  ScoreResult, RiskGate, net_profit, expected_value, age, probability_mass, is_base, below_floor,
  above_limit, reasons_of, score, choose, same_score, ExecutionEnvelope, Payload, ExecutorError,
  http_error, other_error, score_mismatch, not_approved, or_rejection, execute,
}
use base_arb_bot.Prelude.{
  ℕ, ◌≤◌, Bool, true, false, not, ◌&&◌, ◌++◌, ltb, ◌==◌, if◌then◌else◌, Result, ok, err, ◌≡◌, ◌≢◌,
  ◌↔◌, refl, ap, ==_iff, guard-eq-ok, ok-injective, arith,
}
use base_arb_bot.Prelude.Text.{Text}
use base_arb_bot.Prelude.Int.{ℤ, pos, negsuc}

module _ (decimals : Decimals) (gate : RiskGate decimals) where
  -- The conditions of the gate.
  pub record IsAcceptable (c : RouteCandidate decimals) : Type 0 where
    pub chain : c.chain_id ≡ pos 8453
    pub profit : below_floor decimals (gate.min_profit_usd) (net_profit decimals c) ≡ false
    pub value : decimals.less (decimals.zero_decimal) (expected_value decimals c) ≡ true
    pub gas : above_limit decimals (gate.max_gas_usd) (c.gas_cost_usd) ≡ false
    pub hops : c.route_hops ≤ gate.max_hops
    pub fresh : age decimals c ≤ gate.max_state_age_blocks
    pub mass : decimals.less (decimals.mass_limit) (probability_mass decimals c) ≡ false

  -- When no reason is given, no test holds.
  no_reason :
      (b1 b2 b3 b4 b5 b6 b7 : Bool) (r1 r2 r3 r4 r5 r6 r7 : Text)
      → no_reasons (
          reason_if b1 r1
          ++ reason_if b2 r2
          ++ reason_if b3 r3
          ++ reason_if b4 r4
          ++ reason_if b5 r5
          ++ reason_if b6 r6
          ++ reason_if b7 r7)
        ≡ true
      → (b1 ≡ false)
        × (b2 ≡ false)
        × (b3 ≡ false)
        × (b4 ≡ false)
        × (b5 ≡ false)
        × (b6 ≡ false)
        × (b7 ≡ false)
  no_reason true b2 b3 b4 b5 b6 b7 r1 r2 r3 r4 r5 r6 r7 h = absurd cc
  no_reason false true b3 b4 b5 b6 b7 r1 r2 r3 r4 r5 r6 r7 h = absurd cc
  no_reason false false true b4 b5 b6 b7 r1 r2 r3 r4 r5 r6 r7 h = absurd cc
  no_reason false false false true b5 b6 b7 r1 r2 r3 r4 r5 r6 r7 h = absurd cc
  no_reason false false false false true b6 b7 r1 r2 r3 r4 r5 r6 r7 h = absurd cc
  no_reason false false false false false true b7 r1 r2 r3 r4 r5 r6 r7 h = absurd cc
  no_reason false false false false false false true r1 r2 r3 r4 r5 r6 r7 h = absurd cc
  no_reason false false false false false false false r1 r2 r3 r4 r5 r6 r7 h =
      (refl, refl, refl, refl, refl, refl, refl)

  undo_not : (b : Bool) → not b ≡ false → b ≡ true
  undo_not true h = refl
  undo_not false h = absurd cc

  base_chain : (n : ℤ) → is_base decimals n ≡ true → n ≡ pos 8453
  base_chain (pos n) h = ap pos ((==_iff n 8453).0 h)
  base_chain (negsuc n) h = absurd cc

  accepted :
      (c : RouteCandidate decimals) → (score decimals gate c).approved ≡ true → IsAcceptable c
  unfolding score reasons_of
  accepted c h =
      let (h1, h2, h3, h4, h5, h6, h7) =
        no_reason (not (is_base decimals (c.chain_id)))
          (below_floor decimals (gate.min_profit_usd) (net_profit decimals c))
          (not (decimals.less (decimals.zero_decimal) (expected_value decimals c)))
          (above_limit decimals (gate.max_gas_usd) (c.gas_cost_usd))
          (ltb (gate.max_hops) (c.route_hops)) (ltb (gate.max_state_age_blocks) (age decimals c))
          (decimals.less (decimals.mass_limit) (probability_mass decimals c)) _ _ _ _ _ _ _ h in
      record {
        chain = base_chain (c.chain_id) (undo_not _ h1);
        profit = h2;
        value = undo_not _ h3;
        gas = h4;
        hops = ground (arith);
        fresh = ground (arith);
        mass = h7;
      }

  refused : (c : RouteCandidate decimals) → IsAcceptable c → (score decimals gate c).approved ≡ true
  unfolding score reasons_of net_profit expected_value age probability_mass
  refused c a =
      rw (a.chain, a.profit, a.value, a.gas, within _ _ a.hops, within _ _ a.fresh, a.mass) refl
    where
      within : (m n : ℕ) → m ≤ n → ltb n m ≡ false
      within m n l = ground (arith)

  -- The gate approves a candidate exactly when it is for Base, its net profit reaches the floor,
  -- its expected value is positive, its gas cost, hops and age are within the limits, and its
  -- probabilities are within the limit of their sum.
  pub score-IsAcceptable :
      (c : RouteCandidate decimals) → ((score decimals gate c).approved ≡ true) ↔ IsAcceptable c
  score-IsAcceptable c = (accepted c, refused c)

  chosen :
      (c : RouteCandidate decimals) (s : ScoreResult decimals)
      → (size_percent (choose decimals c s) == 0) ≡ false
      → s.approved ≡ true
  unfolding choose
  chosen c s h = by_test (s.approved) refl h
    where
      by_test :
          (b : Bool)
          → s.approved ≡ b
          → (size_percent (
                if not b
                then skip
                else (if not (decimals.less (c.success_probability) (decimals.high_probability))
                      && not (decimals.less (s.expected_value_usd) (decimals.full_value))
                    then full
                    else (if not (decimals.less (c.success_probability) (decimals.fair_probability))
                        then half
                        else quarter)))
              == 0)
            ≡ false
          → s.approved ≡ true
      by_test true q h' = q
      by_test false q h' = absurd (cc)

  module _ {Body : Type 0} (submit : Payload decimals → Result ExecutorError Body) where
    -- A submission.
    pub record IsSubmitted (envelope : ExecutionEnvelope decimals) (body : Body) : Type 0 where
      pub same :
          same_score decimals (score decimals gate (envelope.candidate)) (envelope.claimed) ≡ true
      pub acceptable : IsAcceptable (envelope.candidate)
      pub payload : Payload decimals
      pub sent : payload.envelope ≡ envelope
      pub sized :
          payload.percent
          ≡ size_percent
              (choose decimals (envelope.candidate) (score decimals gate (envelope.candidate)))
      pub nonzero : payload.percent ≢ 0
      pub answered : submit payload ≡ ok body

    or_rejection-ok :
        (m : Result ExecutorError Body) (body : Body)
        → or_rejection decimals m ≡ ok body
        → m ≡ ok body
    or_rejection-ok (ok b) body e = ap ok (ok-injective e)
    or_rejection-ok (err (http_error x)) body e = absurd cc
    or_rejection-ok (err (other_error x)) body e = absurd cc

    -- If the handler returns a body, then the score that came with the candidate is the one that
    -- the gate gives it now, the candidate meets every condition of the gate, and the body is the
    -- executor's answer to the envelope with the chosen size, which is not zero.
    pub execute-IsSubmitted :
        (envelope : ExecutionEnvelope decimals) (body : Body)
        → execute decimals gate submit envelope ≡ ok body
        → IsSubmitted envelope body
    unfolding execute
    execute-IsSubmitted envelope body e =
        let fresh = score decimals gate (envelope.candidate) in
        let percent = size_percent (choose decimals (envelope.candidate) fresh) in
        let (same, e1) =
          guard-eq-ok (same_score decimals fresh (envelope.claimed)) score_mismatch _ e in
        let (sized, e2) = guard-eq-ok (not (percent == 0)) (not_approved (fresh.reasons)) _ e1 in
        record {
          same = same;
          acceptable =
              accepted (envelope.candidate)
                (chosen (envelope.candidate) fresh (positive percent sized));
          payload = record { envelope = envelope; percent = percent };
          sent = refl;
          sized = refl;
          nonzero = λ z. absurd (cc (z, sized));
          answered = or_rejection-ok _ body e2;
        }
      where
        positive : (n : ℕ) → not (n == 0) ≡ true → (n == 0) ≡ false
        positive n h = ground (arith)
