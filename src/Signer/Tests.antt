-- ===== src/Signer/Tests.antt =====
-- Concrete requests for the theorems on the signer's policy
-- (signer-gateway/src/signer_gateway/policy.py).
use base_arb_bot.Signer.{
  PolicyConfig, Request, Normalized, Reviewed, ReviewedDeploymentPlan, SignedFields, is_chain,
  parse_hex_quantity, validate_hex_data, reviewed_at, common_fields, normalize_address,
  validate_common, validate_execution, normalize_to, validate_deployment, same_fields,
  verify_signed_transaction, raw_or, first_byte_is,
}
use base_arb_bot.Signer.Allowed.{
  IsCommon, validate_execution-IsCommon, validate_deployment-IsCommon,
}
use base_arb_bot.Signer.Gateway.{
  Gateway, supplied_token, is_ascii, deployment_method_signature, authenticate,
  checksum_destination, clef_transaction, sign_with_clef, sign, sign_deployment,
}
use base_arb_bot.Signer.Signed.{
  IsExecution, IsDeployment, sign-IsExecution, sign_deployment-IsDeployment,
}
use base_arb_bot.Signer.Plan.{PlanFile, IsLoaded, load_from, load_plan, load_plan-IsLoaded}
use base_arb_bot.Signer.Verified.{IsExpected, verify_signed_transaction-IsExpected}
use base_arb_bot.Prelude.{
  none, ℕ, zero, suc, true, List, [], ◌∷◌, ◌++◌, take, drop, Result, ok, Option, some, ◌≡◌, refl,
  ◌⊎◌,
}
use base_arb_bot.Prelude.Text.{Text, codes, text_eq, starts_with, lower, strip, lstrip}
use base_arb_bot.Prelude.Bytes.{from_bytes, from_hex, to_hex}
use base_arb_bot.Prelude.Numeral.{int_16}
use base_arb_bot.Prelude.Int.{pos}

abbrev digits_of : ℕ → Text
digits_of zero = []
digits_of (suc n) = 49 ∷ digits_of n

abbrev sample_policy : PolicyConfig
sample_policy = record {
  chain_id = 8453;
  signer_address = codes "0xaa";
  executor_address = codes "0xee";
  max_gas = 1000;
  max_deployment_gas = 5000;
  max_fee_per_gas_wei = 100;
  allow_execution_signing = true;
  allow_deployment_signing = true;
}

abbrev sample_request : Request
sample_request = record {
  chain_id = pos 8453;
  sender = codes "0xAA";
  to = some (codes "0xEE");
  nonce = codes "0x7";
  gas = codes "0x3e8";
  max_priority_fee_per_gas = codes "0x1";
  max_fee_per_gas = codes "0x64";
  value = codes "0x0";
  calldata = codes "0xABCDEF0102";
  route_id = codes "0x" ++ digits_of 64;
  asset = codes "0x12";
  plan_hash = codes "0x99";
  purpose = codes "deploy";
}

abbrev sample_normalized : Normalized
sample_normalized =
    record (common_fields sample_policy (codes "0xaa") 7 1000 1 100 0 (codes "0xabcdef0102")) {
      to = some (codes "0xee");
    }

abbrev sample_checksum : Text → Option Text
sample_checksum address = some address

sample-accepted :
    validate_execution sample_checksum
      (codes "0xabcdef01")
      (codes "0x00000000")
      sample_request
      sample_policy
    ≡ ok sample_normalized
unfolding validate_execution validate_common is_chain normalize_address int_16 parse_hex_quantity
    validate_hex_data starts_with strip lstrip lower text_eq from_hex
sample-accepted = refl

validate_execution-IsCommon_example :
    (true ≡ true)
    × IsCommon sample_checksum sample_request sample_policy 1000 sample_normalized
    × (some (codes "0xee") ≡ some (codes "0xee"))
    × ((take 10 (codes "0xabcdef0102") ≡ codes "0xabcdef01")
        ⊎ (take 10 (codes "0xabcdef0102") ≡ codes "0x00000000"))
validate_execution-IsCommon_example =
    validate_execution-IsCommon sample_checksum sample_request sample_policy (codes "0xabcdef01")
      (codes "0x00000000") sample_normalized sample-accepted

abbrev sample_reviewed : Reviewed
sample_reviewed = record {
  nonce = 7;
  to = some (codes "0xEE");
  calldata = codes "0xABCDEF0102";
  purpose = codes "deploy";
}

abbrev sample_plan : ReviewedDeploymentPlan
sample_plan = record {
  sha256 = codes "0x99";
  deployer = codes "0xaa";
  chain_id = 8453;
  transactions = sample_reviewed ∷ [];
}

sample-reviewed :
    validate_deployment sample_checksum sample_request sample_policy (some sample_plan)
    ≡ ok sample_normalized
unfolding validate_deployment validate_common is_chain normalize_address int_16 parse_hex_quantity
    validate_hex_data starts_with strip lstrip lower text_eq from_hex reviewed_at normalize_to
sample-reviewed = refl

validate_deployment-IsCommon_example :
    (plan : ReviewedDeploymentPlan) × (reviewed : Reviewed) × (some sample_plan ≡ some plan)
    × (plan.chain_id ≡ 8453)
    × (plan.deployer ≡ codes "0xaa")
    × (lower (codes "0x99") ≡ plan.sha256)
    × IsCommon sample_checksum sample_request sample_policy 5000 sample_normalized
    × (reviewed_at 7 (plan.transactions) ≡ some reviewed)
    × (codes "0xabcdef0102" ≡ lower (reviewed.calldata))
    × (normalize_to sample_checksum (reviewed.to) (codes "reviewed to") ≡ ok (some (codes "0xee")))
    × (codes "deploy" ≡ reviewed.purpose)
validate_deployment-IsCommon_example =
    validate_deployment-IsCommon sample_checksum sample_request sample_policy (some sample_plan)
      sample_normalized sample-reviewed

abbrev sample_fields : SignedFields
sample_fields = record {
  field_count = 12;
  access_list_empty = true;
  chain_id = 33 ∷ 5 ∷ [];
  nonce = 7 ∷ [];
  max_priority_fee_per_gas = 1 ∷ [];
  max_fee_per_gas = 100 ∷ [];
  gas = 3 ∷ 232 ∷ [];
  to = 238 ∷ [];
  value = [];
  calldata = 171 ∷ 205 ∷ 239 ∷ 1 ∷ 2 ∷ [];
}

abbrev sample_decode : List ℕ → Result Text SignedFields
sample_decode raw = ok sample_fields

abbrev sample_recover : Text → Result Text Text
sample_recover raw = ok (codes "0xAA")

sample-verified :
    verify_signed_transaction sample_decode sample_recover (codes "0x02c0") sample_normalized
    ≡ ok tt
unfolding verify_signed_transaction validate_hex_data starts_with lower text_eq from_hex same_fields
    from_bytes to_hex
sample-verified = refl

verify_signed_transaction-IsExpected_example :
    (value : Text) × (fields : SignedFields) × (sender : Text) × (validate_hex_data
        (codes "0x02c0")
        (codes "raw_transaction")
      ≡ ok value)
    × (first_byte_is 2 (raw_or (from_hex (drop 2 value))) ≡ true)
    × (sample_decode (drop 1 (raw_or (from_hex (drop 2 value)))) ≡ ok fields)
    × (fields.field_count ≡ 12)
    × (fields.access_list_empty ≡ true)
    × IsExpected fields sample_normalized
    × (sample_recover (codes "0x02c0") ≡ ok sender)
    × (lower sender ≡ codes "0xaa")
verify_signed_transaction-IsExpected_example =
    verify_signed_transaction-IsExpected sample_decode sample_recover (codes "0x02c0")
      sample_normalized sample-verified

abbrev sample_gateway : Gateway
sample_gateway = record {
  policy = sample_policy;
  plan = some sample_plan;
  start_selector = codes "0xabcdef01";
  start_packed_selector = codes "0x00000000";
  method_signatures = λ selector. some (codes "setToken(address,bool)");
  checksum = sample_checksum;
  rlp_decode = sample_decode;
  recover = sample_recover;
  secret = ok (codes "secret");
  clef = λ transaction method_signature. some record { error = none; raw = codes "0x02c0" };
}

sample-signed :
    sign sample_gateway (some (codes "Bearer secret")) sample_request ≡ ok (codes "0x02c0")
unfolding sign authenticate supplied_token is_ascii sign_with_clef clef_transaction
    checksum_destination validate_execution validate_common is_chain normalize_address int_16
    parse_hex_quantity validate_hex_data starts_with strip lstrip lower text_eq from_hex
    verify_signed_transaction same_fields from_bytes to_hex
sample-signed = refl

sign-IsExecution_example :
    IsExecution sample_gateway (some (codes "Bearer secret")) sample_request (codes "0x02c0")
sign-IsExecution_example =
    sign-IsExecution sample_gateway (some (codes "Bearer secret")) sample_request (codes "0x02c0")
      sample-signed

sample-deployed :
    sign_deployment sample_gateway (some (codes "Bearer secret")) sample_request
    ≡ ok (codes "0x02c0")
unfolding sign_deployment authenticate supplied_token is_ascii sign_with_clef clef_transaction
    checksum_destination deployment_method_signature validate_deployment validate_common is_chain
    normalize_address int_16 parse_hex_quantity validate_hex_data starts_with strip lstrip lower
    text_eq from_hex reviewed_at normalize_to verify_signed_transaction same_fields from_bytes
    to_hex
sample-deployed = refl

sign_deployment-IsDeployment_example :
    IsDeployment sample_gateway (some (codes "Bearer secret")) sample_request (codes "0x02c0")
sign_deployment-IsDeployment_example =
    sign_deployment-IsDeployment sample_gateway (some (codes "Bearer secret")) sample_request
      (codes "0x02c0") sample-deployed

abbrev sample_file : PlanFile
sample_file = record {
  st_mode = 33152;
  st_uid = 1000;
  sha256 = codes "0x99";
  deployer = codes "0xAA";
  chain_id = 8453;
  transactions = sample_reviewed ∷ record sample_reviewed { nonce = 8 } ∷ [];
}

sample-loaded :
    load_plan sample_checksum 1000 sample_file
    ≡ ok (record sample_plan {
      transactions = sample_reviewed ∷ record sample_reviewed { nonce = 8 } ∷ [];
    })
unfolding load_plan load_from reviewed_at normalize_address int_16 starts_with strip lstrip lower
sample-loaded = refl

load_plan-IsLoaded_example : IsLoaded sample_checksum 1000 sample_file (record sample_plan {
  transactions = sample_reviewed ∷ record sample_reviewed { nonce = 8 } ∷ [];
})
load_plan-IsLoaded_example = load_plan-IsLoaded sample_checksum 1000 sample_file _ sample-loaded
