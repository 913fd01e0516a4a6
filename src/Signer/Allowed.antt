-- ===== src/Signer/Allowed.antt =====
-- What a request that the policy (signer-gateway/src/signer_gateway/policy.py) accepts satisfies.
use base_arb_bot.Signer.{
  PolicyConfig, Request, Normalized, Reviewed, ReviewedDeploymentPlan, PolicyError, is_chain,
  parse_hex_quantity, validate_hex_data, or_default, text_or_empty, same_to, reviewed_at, present,
  common_fields, normalize_address, validate_common, validate_execution, normalize_to,
  validate_deployment, wrong_chain, wrong_sender, gas_exceeds, fee_exceeds, priority_exceeds,
  value_not_zero, no_plan, unknown_nonce, execution_disabled, wrong_destination, wrong_selector,
  wrong_route_id, deployment_disabled, wrong_identity, wrong_plan_hash, other_destination,
  other_calldata, other_purpose,
}
use base_arb_bot.Prelude.{
  ℕ, ◌≤◌, ◌<◌, Bool, true, false, not, ◌&&◌, ◌||◌, take, length, ltb, ◌==◌, ok, Option, none, some,
  ◌≡◌, refl, sym, ap, subst, ◌∙◌, ◌⊎◌, inl, inr, arith, bind-eq-ok, guard-eq-ok, ok-injective,
  ==_iff,
}
use base_arb_bot.Prelude.Text.{Text, codes, text_eq, text_eq_iff, lower}
use base_arb_bot.Prelude.Int.{ℤ, pos, negsuc}

is_chain-eq : (z : ℤ) (n : ℕ) → is_chain z n ≡ true → z ≡ pos n
unfolding is_chain
is_chain-eq (pos m) n h = ap pos ((==_iff m n).0 h)
is_chain-eq (negsuc m) n h = cc

present-eq : {A : Type 0} (o : Option A) (e : PolicyError) {a : A} → present o e ≡ ok a → o ≡ some a
present-eq none e h = cc
present-eq (some a) e h = ap some (ok-injective h)

pub same_to-eq : (a b : Option Text) → same_to a b ≡ true → a ≡ b
same_to-eq none none h = refl
same_to-eq none (some b) h = cc
same_to-eq (some a) none h = cc
same_to-eq (some a) (some b) h = ap some ((text_eq_iff a b).0 h)

-- The limits of the policy, and that what is signed is what was asked for.
pub record IsCommon (checksum : Text → Option Text) (tx : Request) (policy : PolicyConfig)
    (gas_cap : ℕ) (n : Normalized) : Type 0 where
  pub chain : tx.chain_id ≡ pos (policy.chain_id)
  pub chain_kept : n.chain_id ≡ policy.chain_id
  pub sender_asked : normalize_address checksum (tx.sender) (codes "from") ≡ ok (n.sender)
  pub sender_eq : n.sender ≡ policy.signer_address
  pub nonce_asked : parse_hex_quantity (tx.nonce) (codes "nonce") ≡ ok (n.nonce)
  pub gas_asked : parse_hex_quantity (tx.gas) (codes "gas") ≡ ok (n.gas)
  pub fee_asked :
      parse_hex_quantity (tx.max_fee_per_gas) (codes "max_fee_per_gas") ≡ ok (n.max_fee_per_gas)
  pub data_asked : validate_hex_data (tx.calldata) (codes "data") ≡ ok (n.calldata)
  pub gas_positive : 0 < n.gas
  pub gas_capped : n.gas ≤ gas_cap
  pub fee_positive : 0 < n.max_fee_per_gas
  pub fee_capped : n.max_fee_per_gas ≤ policy.max_fee_per_gas_wei
  pub priority_capped : n.max_priority_fee_per_gas ≤ n.max_fee_per_gas
  pub value_zero : n.value ≡ 0

module _ (checksum : Text → Option Text) (tx : Request) (policy : PolicyConfig) where
  common_fields-IsCommon :
      (gas_cap : ℕ) (sender : Text) (nonce gas priority max_fee value : ℕ) (calldata : Text)
      → is_chain (tx.chain_id) (policy.chain_id) ≡ true
      → normalize_address checksum (tx.sender) (codes "from") ≡ ok sender
      → text_eq sender (policy.signer_address) ≡ true
      → parse_hex_quantity (tx.nonce) (codes "nonce") ≡ ok nonce
      → parse_hex_quantity (tx.gas) (codes "gas") ≡ ok gas
      → parse_hex_quantity (tx.max_fee_per_gas) (codes "max_fee_per_gas") ≡ ok max_fee
      → validate_hex_data (tx.calldata) (codes "data") ≡ ok calldata
      → not (gas == 0 || ltb gas_cap gas) ≡ true
      → not (max_fee == 0 || ltb (policy.max_fee_per_gas_wei) max_fee) ≡ true
      → not (ltb max_fee priority) ≡ true
      → (value == 0) ≡ true
      → IsCommon checksum tx policy gas_cap
          (common_fields policy sender nonce gas priority max_fee value calldata)
  common_fields-IsCommon gas_cap sender nonce gas priority max_fee value calldata chain asked same n
        g f d tg tf tp tv =
      record {
        chain = is_chain-eq _ _ chain;
        chain_kept = refl;
        sender_asked = asked;
        sender_eq = (text_eq_iff sender (policy.signer_address)).0 same;
        nonce_asked = n;
        gas_asked = g;
        fee_asked = f;
        data_asked = d;
        gas_positive = ground (arith, tg);
        gas_capped = ground (arith, tg);
        fee_positive = ground (arith, tf);
        fee_capped = ground (arith, tf);
        priority_capped = ground (arith, tp);
        value_zero = ground (arith, tv);
      }

  validate_common-IsCommon :
      (gas_cap : Option ℕ) (n : Normalized)
      → validate_common checksum tx policy gas_cap ≡ ok n
      → IsCommon checksum tx policy (or_default gas_cap (policy.max_gas)) n
  unfolding validate_common
  validate_common-IsCommon gas_cap n e =
      let (chain, e1) = guard-eq-ok (is_chain (tx.chain_id) (policy.chain_id)) wrong_chain _ e in
      let (sender, asked, e2) =
        bind-eq-ok (normalize_address checksum (tx.sender) (codes "from")) _ e1 in
      let (same, e3) = guard-eq-ok (text_eq sender (policy.signer_address)) wrong_sender _ e2 in
      let (nonce, qn, e4) = bind-eq-ok (parse_hex_quantity (tx.nonce) (codes "nonce")) _ e3 in
      let (gas, qg, e5) = bind-eq-ok (parse_hex_quantity (tx.gas) (codes "gas")) _ e4 in
      let (priority, qp, e6) =
        bind-eq-ok
          (parse_hex_quantity (tx.max_priority_fee_per_gas) (codes "max_priority_fee_per_gas")) _
          e5 in
      let (max_fee, qf, e7) =
        bind-eq-ok (parse_hex_quantity (tx.max_fee_per_gas) (codes "max_fee_per_gas")) _ e6 in
      let (value, qv, e8) = bind-eq-ok (parse_hex_quantity (tx.value) (codes "value")) _ e7 in
      let (calldata, qd, e9) = bind-eq-ok (validate_hex_data (tx.calldata) (codes "data")) _ e8 in
      let (tg, e10) =
        guard-eq-ok (not (gas == 0 || ltb (or_default gas_cap (policy.max_gas)) gas)) gas_exceeds _
          e9 in
      let (tf, e11) =
        guard-eq-ok (not (max_fee == 0 || ltb (policy.max_fee_per_gas_wei) max_fee)) fee_exceeds _
          e10 in
      let (tp, e12) = guard-eq-ok (not (ltb max_fee priority)) priority_exceeds _ e11 in
      let (tv, e13) = guard-eq-ok (value == 0) value_not_zero _ e12 in
      subst (IsCommon checksum tx policy (or_default gas_cap (policy.max_gas))) (ok-injective e13) (
        common_fields-IsCommon (or_default gas_cap (policy.max_gas)) sender nonce gas priority
          max_fee value calldata chain asked same qn qg qf qd tg tf tp tv)

  -- The destination is added afterwards.
  IsCommon-to :
      (gas_cap : ℕ) (n : Normalized) (to : Option Text)
      → IsCommon checksum tx policy gas_cap n
      → IsCommon checksum tx policy gas_cap (record n { to = to })
  IsCommon-to gas_cap n to c = record {
    chain = c.chain;
    chain_kept = c.chain_kept;
    sender_asked = c.sender_asked;
    sender_eq = c.sender_eq;
    nonce_asked = c.nonce_asked;
    gas_asked = c.gas_asked;
    fee_asked = c.fee_asked;
    data_asked = c.data_asked;
    gas_positive = c.gas_positive;
    gas_capped = c.gas_capped;
    fee_positive = c.fee_positive;
    fee_capped = c.fee_capped;
    priority_capped = c.priority_capped;
    value_zero = c.value_zero;
  }

  -- If an execution request is accepted, then execution signing is enabled; the result is for the
  -- policy's chain and signer, with gas and fee that are positive and within the policy's limits, a
  -- priority fee of at most the fee, and no value; its nonce, gas, fee and calldata are the ones
  -- requested; it goes to the executor; and its calldata starts with one of the two selectors.
  pub validate_execution-IsCommon :
      (start_selector start_packed_selector : Text) (n : Normalized)
      → validate_execution checksum start_selector start_packed_selector tx policy ≡ ok n
      → (policy.allow_execution_signing ≡ true)
        × IsCommon checksum tx policy (policy.max_gas) n
        × (n.to ≡ some (policy.executor_address))
        × ((take 10 (n.calldata) ≡ start_selector) ⊎ (take 10 (n.calldata) ≡ start_packed_selector))
  unfolding validate_execution
  validate_execution-IsCommon start_selector start_packed_selector n e =
      let (allowed, e1) = guard-eq-ok (policy.allow_execution_signing) execution_disabled _ e in
      let (m, common, e2) = bind-eq-ok (validate_common checksum tx policy none) _ e1 in
      let (destination, qd, e3) =
        bind-eq-ok (normalize_address checksum (text_or_empty (tx.to)) (codes "to")) _ e2 in
      let (same, e4) =
        guard-eq-ok (text_eq destination (policy.executor_address)) wrong_destination _ e3 in
      let (selected, e5) =
        guard-eq-ok
          (text_eq (take 10 (m.calldata)) start_selector
            || text_eq (take 10 (m.calldata)) start_packed_selector)
          wrong_selector _ e4 in
      let (route_id, qr, e6) =
        bind-eq-ok (validate_hex_data (tx.route_id) (codes "route_id")) _ e5 in
      let (sized, e7) = guard-eq-ok (length route_id == 66) wrong_route_id _ e6 in
      let (asset, qa, e8) =
        bind-eq-ok (normalize_address checksum (tx.asset) (codes "asset")) _ e7 in
      let destination_eq = ap some ((text_eq_iff destination (policy.executor_address)).0 same) in
      subst Accepted (ok-injective e8) (
        allowed,
        IsCommon-to (policy.max_gas) m (some destination) (validate_common-IsCommon none m common),
        destination_eq,
        one_of (text_eq (take 10 (m.calldata)) start_selector)
            (text_eq (take 10 (m.calldata)) start_packed_selector) refl refl selected,
      )
    where
      Accepted : Normalized → Type 0
      Accepted k =
          (policy.allow_execution_signing ≡ true)
          × IsCommon checksum tx policy (policy.max_gas) k
          × (k.to ≡ some (policy.executor_address))
          × ((take 10 (k.calldata) ≡ start_selector)
              ⊎ (take 10 (k.calldata) ≡ start_packed_selector))

      one_of :
          {s : Text} (a b : Bool)
          → text_eq s start_selector ≡ a
          → text_eq s start_packed_selector ≡ b
          → (a || b) ≡ true
          → (s ≡ start_selector) ⊎ (s ≡ start_packed_selector)
      one_of {s} true b ea eb h = inl ((text_eq_iff s start_selector).0 ea)
      one_of {s} false true ea eb h = inr ((text_eq_iff s start_packed_selector).0 eb)
      one_of {s} false false ea eb h = cc

  -- If a deployment request is accepted, then there is a reviewed plan, for the policy's chain and
  -- signer and with the hash requested; the result keeps every limit of the policy; and the plan
  -- has a transaction of its nonce, whose calldata it has, whose destination, normalized, is its
  -- own, and whose purpose is the one requested.
  pub validate_deployment-IsCommon :
      (configured : Option ReviewedDeploymentPlan) (n : Normalized)
      → validate_deployment checksum tx policy configured ≡ ok n
      → (plan : ReviewedDeploymentPlan) × (reviewed : Reviewed) × (configured ≡ some plan)
        × (plan.chain_id ≡ policy.chain_id)
        × (plan.deployer ≡ policy.signer_address)
        × (lower (tx.plan_hash) ≡ plan.sha256)
        × IsCommon checksum tx policy (policy.max_deployment_gas) n
        × (reviewed_at (n.nonce) (plan.transactions) ≡ some reviewed)
        × (n.calldata ≡ lower (reviewed.calldata))
        × (normalize_to checksum (reviewed.to) (codes "reviewed to") ≡ ok (n.to))
        × (tx.purpose ≡ reviewed.purpose)
  unfolding validate_deployment
  validate_deployment-IsCommon configured n e =
      let (allowed, e1) = guard-eq-ok (policy.allow_deployment_signing) deployment_disabled _ e in
      let (plan, qp, e2) = bind-eq-ok (present configured no_plan) _ e1 in
      let (m, common, e3) =
        bind-eq-ok (validate_common checksum tx policy (some (policy.max_deployment_gas))) _ e2 in
      let (identity, e4) =
        guard-eq-ok
          ((plan.chain_id == policy.chain_id) && text_eq (plan.deployer) (policy.signer_address))
          wrong_identity _ e3 in
      let (hash, e5) =
        guard-eq-ok (text_eq (lower (tx.plan_hash)) (plan.sha256)) wrong_plan_hash _ e4 in
      let (reviewed, qr, e6) =
        bind-eq-ok (present (reviewed_at (m.nonce) (plan.transactions)) unknown_nonce) _ e5 in
      let (requested_to, qt, e7) = bind-eq-ok (normalize_to checksum (tx.to) (codes "to")) _ e6 in
      let (reviewed_to, qv, e8) =
        bind-eq-ok (normalize_to checksum (reviewed.to) (codes "reviewed to")) _ e7 in
      let (to_same, e9) = guard-eq-ok (same_to requested_to reviewed_to) other_destination _ e8 in
      let (data_same, e10) =
        guard-eq-ok (text_eq (m.calldata) (lower (reviewed.calldata))) other_calldata _ e9 in
      let (purpose_same, e11) =
        guard-eq-ok (text_eq (tx.purpose) (reviewed.purpose)) other_purpose _ e10 in
      subst Accepted (ok-injective e11) (
        plan,
        reviewed,
        present-eq configured no_plan qp,
        ground (arith, identity),
        (text_eq_iff (plan.deployer) (policy.signer_address)).0 (ground (arith, identity)),
        (text_eq_iff (lower (tx.plan_hash)) (plan.sha256)).0 hash,
        IsCommon-to (policy.max_deployment_gas) m requested_to
            (validate_common-IsCommon (some (policy.max_deployment_gas)) m common),
        present-eq (reviewed_at (m.nonce) (plan.transactions)) unknown_nonce qr,
        (text_eq_iff (m.calldata) (lower (reviewed.calldata))).0 data_same,
        qv ∙ ap ok (sym (same_to-eq requested_to reviewed_to to_same)),
        (text_eq_iff (tx.purpose) (reviewed.purpose)).0 purpose_same,
      )
    where
      Accepted : Normalized → Type 0
      Accepted k =
          (plan : ReviewedDeploymentPlan) × (reviewed : Reviewed) × (configured ≡ some plan)
          × (plan.chain_id ≡ policy.chain_id)
          × (plan.deployer ≡ policy.signer_address)
          × (lower (tx.plan_hash) ≡ plan.sha256)
          × IsCommon checksum tx policy (policy.max_deployment_gas) k
          × (reviewed_at (k.nonce) (plan.transactions) ≡ some reviewed)
          × (k.calldata ≡ lower (reviewed.calldata))
          × (normalize_to checksum (reviewed.to) (codes "reviewed to") ≡ ok (k.to))
          × (tx.purpose ≡ reviewed.purpose)
