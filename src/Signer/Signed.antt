-- ===== src/Signer/Signed.antt =====
-- What the signer gateway (signer-gateway/src/signer_gateway/app.py) returns: a transaction that
-- the policy allows, and that was checked after Clef signed it.
use base_arb_bot.Signer.{
  Request, Normalized, Reviewed, ReviewedDeploymentPlan, SignedFields, Checked, VerifyError,
  policy_error, library_error, validate_execution, validate_deployment, verify_signed_transaction,
  reviewed_at, validate_hex_data, first_byte_is, raw_or,
}
use base_arb_bot.Signer.Allowed.{
  IsCommon, validate_execution-IsCommon, validate_deployment-IsCommon,
}
use base_arb_bot.Signer.Verified.{IsExpected, verify_signed_transaction-IsExpected}
use base_arb_bot.Signer.Gateway.{
  Gateway, ClefTransaction, uncaught, or_http, or_bad_gateway, secret_text, supplied_token,
  is_ascii, deployment_method_signature, authenticate, clef_transaction, clef_raw, sign_with_clef,
  sign, sign_deployment,
}
use base_arb_bot.Prelude.{
  ℕ, true, ◌&&◌, drop, Result, ok, err, Option, none, some, ◌≡◌, ap, ◌∙◌, subst, bind-eq-ok,
  guard-eq-ok, ok-injective,
}
use base_arb_bot.Prelude.Text.{Text, codes, text_eq, text_eq_iff, lower}
use base_arb_bot.Prelude.Bytes.{from_hex}

module _ (gateway : Gateway) where
  -- The text is Clef's signature of the transaction: its bytes begin with the type 2, the rest
  -- decodes to twelve fields with an empty access list, which are the transaction's; and the sender
  -- that is recovered from it is the transaction's.
  pub record IsSigned (n : Normalized) (method_signature : Option Text) (raw : Text) : Type 0 where
    pub transaction : ClefTransaction
    pub asked : clef_transaction gateway n ≡ ok transaction
    pub answered : clef_raw gateway (gateway.clef transaction method_signature) ≡ ok raw
    pub value : Text
    pub fields : SignedFields
    pub value_eq : validate_hex_data raw (codes "raw_transaction") ≡ ok value
    pub type_two : first_byte_is 2 (raw_or (from_hex (drop 2 value))) ≡ true
    pub decoded : gateway.rlp_decode (drop 1 (raw_or (from_hex (drop 2 value)))) ≡ ok fields
    pub twelve : fields.field_count ≡ 12
    pub no_access_list : fields.access_list_empty ≡ true
    pub expected : IsExpected fields n
    pub sender : Text
    pub recovered : gateway.recover raw ≡ ok sender
    pub from_sender : lower sender ≡ n.sender

  -- The caller showed the secret.
  pub record IsAuthorized (authorization : Option Text) : Type 0 where
    pub secret : Text
    pub kept : gateway.secret ≡ ok secret
    pub shown : supplied_token authorization ≡ secret

  or_http-ok :
      {A : Type 0} (status : ℕ) (m : Checked A) (a : A) → or_http status m ≡ ok a → m ≡ ok a
  or_http-ok status (ok b) a e = ap ok (ok-injective e)
  or_http-ok status (err b) a e = absurd cc

  or_bad_gateway-ok :
      {A : Type 0} (m : Result VerifyError A) (a : A) → or_bad_gateway m ≡ ok a → m ≡ ok a
  or_bad_gateway-ok (ok b) a e = ap ok (ok-injective e)
  or_bad_gateway-ok (err (policy_error b)) a e = absurd cc
  or_bad_gateway-ok (err (library_error b)) a e = absurd cc

  secret_text-ok : (m : Result Text Text) (a : Text) → secret_text m ≡ ok a → m ≡ ok a
  secret_text-ok (ok b) a e = ap ok (ok-injective e)
  secret_text-ok (err b) a e = absurd cc

  authenticate-IsAuthorized :
      (authorization : Option Text) (u : Unit {0})
      → authenticate gateway authorization ≡ ok u
      → IsAuthorized authorization
  unfolding authenticate
  authenticate-IsAuthorized authorization u e =
      let (secret, q, e1) = bind-eq-ok (secret_text (gateway.secret)) _ e in
      let (ascii, e2) =
        guard-eq-ok (is_ascii (supplied_token authorization) && is_ascii secret)
          (uncaught (codes "TypeError")) _ e1 in
      let (same, e3) = guard-eq-ok (text_eq (supplied_token authorization) secret) _ _ e2 in
      record {
        secret = secret;
        kept = secret_text-ok (gateway.secret) secret q;
        shown = (text_eq_iff (supplied_token authorization) secret).0 same;
      }

  sign_with_clef-IsSigned :
      (n : Normalized) (method_signature : Option Text) (raw : Text)
      → sign_with_clef gateway n method_signature ≡ ok raw
      → IsSigned n method_signature raw
  unfolding sign_with_clef
  sign_with_clef-IsSigned n method_signature raw e =
      let (t, q1, e1) = bind-eq-ok (clef_transaction gateway n) _ e in
      let (r, q2, e2) = bind-eq-ok (clef_raw gateway (gateway.clef t method_signature)) _ e1 in
      let (u, q3, e3) =
        bind-eq-ok
          (or_bad_gateway (verify_signed_transaction (gateway.rlp_decode) (gateway.recover) r n)) _
          e2 in
      signed t r q1 q2 (or_bad_gateway-ok _ u q3) (ok-injective e3)
    where
      signed :
          (t : ClefTransaction) (r : Text)
          → clef_transaction gateway n ≡ ok t
          → clef_raw gateway (gateway.clef t method_signature) ≡ ok r
          → verify_signed_transaction (gateway.rlp_decode) (gateway.recover) r n ≡ ok tt
          → r ≡ raw
          → IsSigned n method_signature raw
      signed t r q1 q2 q3 q4 =
          let (value, fields, sender, h1, h2, h3, h4, h5, expected, recovered, from_sender) =
            verify_signed_transaction-IsExpected (gateway.rlp_decode) (gateway.recover) r n q3 in
          record {
            transaction = t;
            asked = q1;
            answered = q2 ∙ ap ok q4;
            value = value;
            fields = fields;
            value_eq = subst (λ x. validate_hex_data x (codes "raw_transaction") ≡ ok value) q4 h1;
            type_two = h2;
            decoded = h3;
            twelve = h4;
            no_access_list = h5;
            expected = expected;
            sender = sender;
            recovered = subst (λ x. gateway.recover x ≡ ok sender) q4 recovered;
            from_sender = from_sender;
          }

  -- A call of `/sign` that returned.
  pub record IsExecution (authorization : Option Text) (request : Request) (raw : Text)
      : Type 0 where
    pub authorized : IsAuthorized authorization
    pub enabled : gateway.policy.allow_execution_signing ≡ true
    pub normalized : Normalized
    pub common :
        IsCommon (gateway.checksum) request (gateway.policy) (gateway.policy.max_gas) normalized
    pub destination : normalized.to ≡ some (gateway.policy.executor_address)
    pub signed : IsSigned normalized none raw

  -- If `/sign` returns a transaction, then the caller showed the secret; execution signing is
  -- enabled; the request was normalized to a transaction for the executor within the limits of the
  -- policy; and what is returned is Clef's signature of it, a type-2 text whose bytes
  -- decode to its fields and from which its sender is recovered.
  pub sign-IsExecution :
      (authorization : Option Text) (request : Request) (raw : Text)
      → sign gateway authorization request ≡ ok raw
      → IsExecution authorization request raw
  unfolding sign
  sign-IsExecution authorization request raw e =
      let (u, q1, e1) = bind-eq-ok (authenticate gateway authorization) _ e in
      let validated =
        validate_execution (gateway.checksum) (gateway.start_selector)
          (gateway.start_packed_selector) request (gateway.policy) in
      let (n, q2, e2) = bind-eq-ok (or_http 422 validated) _ e1 in
      let (enabled, common, to, selector) =
        validate_execution-IsCommon (gateway.checksum) request (gateway.policy)
          (gateway.start_selector) (gateway.start_packed_selector) n
          (or_http-ok 422 validated n q2) in
      record {
        authorized = authenticate-IsAuthorized authorization u q1;
        enabled = enabled;
        normalized = n;
        common = common;
        destination = to;
        signed = sign_with_clef-IsSigned n none raw e2;
      }

  -- A call of `/sign-deployment` that returned.
  pub record IsDeployment (authorization : Option Text) (request : Request) (raw : Text)
      : Type 0 where
    pub authorized : IsAuthorized authorization
    pub plan : ReviewedDeploymentPlan
    pub reviewed : Reviewed
    pub configured : gateway.plan ≡ some plan
    pub normalized : Normalized
    pub common :
        IsCommon
          (gateway.checksum)
          request
          (gateway.policy)
          (gateway.policy.max_deployment_gas)
          normalized
    pub planned : reviewed_at (normalized.nonce) (plan.transactions) ≡ some reviewed
    pub same_data : normalized.calldata ≡ lower (reviewed.calldata)
    pub method_signature : Option Text
    pub known :
        deployment_method_signature (gateway.method_signatures) normalized ≡ ok method_signature
    pub signed : IsSigned normalized method_signature raw

  -- If `/sign-deployment` returns a transaction, then the caller showed the secret; the request was
  -- normalized to a transaction within the limits of the policy, whose nonce and calldata are those
  -- of a transaction of the reviewed plan; it creates a contract or has a reviewed method; and what
  -- is returned is Clef's signature of it, which decodes to its fields and from which its sender is
  -- recovered.
  pub sign_deployment-IsDeployment :
      (authorization : Option Text) (request : Request) (raw : Text)
      → sign_deployment gateway authorization request ≡ ok raw
      → IsDeployment authorization request raw
  unfolding sign_deployment
  sign_deployment-IsDeployment authorization request raw e =
      let (u, q1, e1) = bind-eq-ok (authenticate gateway authorization) _ e in
      let validated =
        validate_deployment (gateway.checksum) request (gateway.policy) (gateway.plan) in
      let (n, q2, e2) = bind-eq-ok (or_http 422 validated) _ e1 in
      let method = deployment_method_signature (gateway.method_signatures) n in
      let (m, q3, e3) = bind-eq-ok (or_http 422 method) _ e2 in
      let (plan, reviewed, configured, h1, h2, h3, common, planned, same_data, h4, h5) =
        validate_deployment-IsCommon (gateway.checksum) request (gateway.policy) (gateway.plan) n
          (or_http-ok 422 validated n q2) in
      record {
        authorized = authenticate-IsAuthorized authorization u q1;
        plan = plan;
        reviewed = reviewed;
        configured = configured;
        normalized = n;
        common = common;
        planned = planned;
        same_data = same_data;
        method_signature = m;
        known = or_http-ok 422 method m q3;
        signed = sign_with_clef-IsSigned n m raw e3;
      }
