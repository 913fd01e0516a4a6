-- ===== src/Signer/Gateway.antt =====
-- The handlers of the signer gateway (signer-gateway/src/signer_gateway/app.py), with
-- `deployment_method_signature` and `clef_transaction` of policy.py. Clef, the secret file and the
-- table of reviewed signatures, whose keys are hashes, are arguments.
use base_arb_bot.Rlp.{bit_length}
use base_arb_bot.Signer.{
  PolicyError, PolicyConfig, Request, Normalized, ReviewedDeploymentPlan, SignedFields, Checked,
  validate_execution, validate_deployment, verify_signed_transaction, no_signature, VerifyError,
  policy_error, library_error,
}
use base_arb_bot.Prelude.{
  ℕ, zero, suc, ◌+◌, ◌/◌, ◌%◌, Bool, true, ◌&&◌, List, [], ◌∷◌, ◌++◌, drop, take, ltb,
  if◌then◌else◌, Result, ok, err, ◌>>=◌, ◌>>◌, guard, Option, none, some,
}
use base_arb_bot.Prelude.Text.{Text, codes, text_eq, starts_with}

-- The detail of an HTTPException.
pub data Detail : Type 0 where
  message : Text → Detail
  refused : PolicyError → Detail

-- An HTTPException, or another exception of a handler, by its type.
pub data HttpError : Type 0 where
  http_exception : ℕ → Detail → HttpError
  uncaught : Text → HttpError

abbrev pub Http : Type 0 → Type 0
Http = Result HttpError

-- What Clef is asked to sign; the numbers are hexadecimal.
pub record ClefTransaction : Type 0 where
  pub sender : Text
  pub gas : Text
  pub max_priority_fee_per_gas : Text
  pub max_fee_per_gas : Text
  pub value : Text
  pub calldata : Text
  pub nonce : Text
  pub to : Option Text

-- The answer of Clef: the message of its error if it has one, and `result.raw`, or "".
pub record ClefBody : Type 0 where
  pub error : Option Text
  pub raw : Text

abbrev pub hex_character : ℕ → ℕ
hex_character d = if ltb d 10 then 48 + d else 87 + d

unfoldable pub hex_digits : ℕ → ℕ → Text
hex_digits zero n = []
hex_digits (suc fuel) n =
    let rest = hex_digits fuel (n / 16) in
    if ltb n 16 then hex_character n ∷ [] else rest ++ (hex_character (n % 16) ∷ [])

-- `hex(n)`; a number has no more hexadecimal digits than bits.
unfoldable pub hex : ℕ → Text
hex n = codes "0x" ++ hex_digits (suc (bit_length n)) n

pub record Gateway : Type 0 where
  pub policy : PolicyConfig
  pub plan : Option ReviewedDeploymentPlan
  pub start_selector : Text
  pub start_packed_selector : Text
  pub method_signatures : Text → Option Text
  pub checksum : Text → Option Text
  pub rlp_decode : List ℕ → Result Text SignedFields
  pub recover : Text → Result Text Text
  pub secret : Result Text Text
  pub clef : ClefTransaction → Option Text → Option ClefBody

-- `to_checksum_address`, which raises a ValueError.
abbrev pub checksummed : Option Text → Http Text
checksummed none = err (uncaught (codes "ValueError"))
checksummed (some address) = ok address

abbrev pub secret_text : Result Text Text → Http Text
secret_text (ok secret) = ok secret
secret_text (err e) = err (uncaught e)

-- `raise HTTPException(status, str(exc)) from exc`
abbrev pub or_http : {A : Type 0} → ℕ → Checked A → Http A
or_http status (ok a) = ok a
or_http status (err e) = err (http_exception status (refused e))

-- Only a PolicyError of the verification is caught.
abbrev pub or_bad_gateway : {A : Type 0} → Result VerifyError A → Http A
or_bad_gateway (ok a) = ok a
or_bad_gateway (err (policy_error e)) = err (http_exception 502 (refused e))
or_bad_gateway (err (library_error e)) = err (uncaught e)

-- `authorization.removeprefix("Bearer ") if authorization else ""`
unfoldable pub supplied_token : Option Text → Text
supplied_token none = []
supplied_token (some authorization) =
    if starts_with authorization (codes "Bearer ") then drop 7 authorization else authorization

-- `hmac.compare_digest` compares ASCII texts only.
unfoldable pub is_ascii : Text → Bool
is_ascii [] = true
is_ascii (c ∷ s) = ltb c 128 && is_ascii s

-- `deployment_method_signature`; none for a contract creation.
unfoldable pub deployment_method_signature :
    (Text → Option Text) → Normalized → Checked (Option Text)
deployment_method_signature signatures tx = by_destination (tx.to)
  where
    known : Option Text → Checked (Option Text)
    known none = err no_signature
    known (some signature) = ok (some signature)

    by_destination : Option Text → Checked (Option Text)
    by_destination none = ok none
    by_destination (some to) = known (signatures (take 10 (tx.calldata)))

module _ (gateway : Gateway) where
  unfoldable pub authenticate : Option Text → Http (Unit {0})
  authenticate authorization = do
    expected ← secret_text (gateway.secret)
    guard (is_ascii (supplied_token authorization) && is_ascii expected)
        (uncaught (codes "TypeError"))
    guard (text_eq (supplied_token authorization) expected)
        (http_exception 401 (message (codes "invalid signer gateway authorization")))
    ok tt

  unfoldable pub checksum_destination : Option Text → Http (Option Text)
  checksum_destination none = ok none
  checksum_destination (some to) = do address ← checksummed (gateway.checksum to); ok (some address)

  abbrev pub clef_fields : Normalized → Text → Option Text → ClefTransaction
  clef_fields tx sender to = record {
    sender = sender;
    gas = hex (tx.gas);
    max_priority_fee_per_gas = hex (tx.max_priority_fee_per_gas);
    max_fee_per_gas = hex (tx.max_fee_per_gas);
    value = hex (tx.value);
    calldata = tx.calldata;
    nonce = hex (tx.nonce);
    to = to;
  }

  unfoldable pub clef_transaction : Normalized → Http ClefTransaction
  clef_transaction tx = do
    sender ← checksummed (gateway.checksum (tx.sender))
    to ← checksum_destination (tx.to)
    ok (clef_fields tx sender to)

  -- Clef's answer without an error.
  abbrev pub clef_raw : Option ClefBody → Http Text
  clef_raw none = err (http_exception 502 (message (codes "Clef request failed")))
  clef_raw (some body) = raw_of (body.error) (body.raw)
    where
      raw_of : Option Text → Text → Http Text
      raw_of (some e) raw =
          err (http_exception 502 (message (codes "Clef rejected signing request: " ++ e)))
      raw_of none raw = ok raw

  unfoldable pub sign_with_clef : Normalized → Option Text → Http Text
  sign_with_clef normalized method_signature = do
    transaction ← clef_transaction normalized
    raw ← clef_raw (gateway.clef transaction method_signature)
    or_bad_gateway (verify_signed_transaction (gateway.rlp_decode) (gateway.recover) raw normalized)
    ok raw

  -- The two endpoints, each behind `authenticate`.
  unfoldable pub sign : Option Text → Request → Http Text
  sign authorization request = do
    authenticate authorization
    normalized ← or_http 422 (
        validate_execution (gateway.checksum) (gateway.start_selector)
          (gateway.start_packed_selector) request (gateway.policy))
    sign_with_clef normalized none

  unfoldable pub sign_deployment : Option Text → Request → Http Text
  sign_deployment authorization request = do
    authenticate authorization
    normalized ←
        or_http 422 (validate_deployment (gateway.checksum) request (gateway.policy) (gateway.plan))
    method_signature ←
        or_http 422 (deployment_method_signature (gateway.method_signatures) normalized)
    sign_with_clef normalized method_signature
