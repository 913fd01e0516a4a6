-- ===== src/Signer.antt =====
-- The policy of the signer gateway (signer-gateway/src/signer_gateway/policy.py): what a request
-- must satisfy before it is signed, and what a signed transaction must satisfy before it is given
-- out. The checksum of an address, the decoding of RLP and the recovery of the sender belong to
-- libraries, and are arguments, as are the two selectors, which are hashes.
pub mod Allowed
pub mod Verified
pub mod Gateway
pub mod Signed
pub mod Plan
mod Tests
use base_arb_bot.Prelude.{
  ℕ, zero, suc, Bool, true, false, not, ◌&&◌, ◌||◌, List, [], ◌∷◌, length, take, drop, ltb, leb,
  ◌==◌, ◌%◌, if◌then◌else◌, Result, ok, err, ◌>>=◌, ◌>>◌, guard, Option, none, some, ◌++◌,
}
use base_arb_bot.Prelude.Text.{Text, codes, text_eq, starts_with, lower, is_empty}
use base_arb_bot.Prelude.Bytes.{from_bytes, from_hex, to_hex}
use base_arb_bot.Prelude.Int.{ℤ, pos, negsuc}
use base_arb_bot.Prelude.Numeral.{int_16}

-- The PolicyErrors; the ones of a field carry its label.
pub data PolicyError : Type 0 where
  not_an_address zero_address not_a_quantity negative_quantity not_hex_data : Text → PolicyError
  wrong_chain wrong_sender gas_exceeds fee_exceeds priority_exceeds value_not_zero : PolicyError
  execution_disabled wrong_destination wrong_selector wrong_route_id : PolicyError
  duplicate_nonce : ℕ → PolicyError
  plan_empty plan_accessible plan_not_owned : PolicyError
  deployment_disabled no_plan wrong_identity wrong_plan_hash unknown_nonce : PolicyError
  other_destination other_calldata other_purpose no_signature : PolicyError
  wrong_type wrong_fields access_list changed_field wrong_recovery : PolicyError

abbrev pub Checked : Type 0 → Type 0
Checked = Result PolicyError

pub record PolicyConfig : Type 0 where
  pub chain_id : ℕ
  pub signer_address : Text
  pub executor_address : Text
  pub max_gas : ℕ
  pub max_deployment_gas : ℕ
  pub max_fee_per_gas_wei : ℕ
  pub allow_execution_signing : Bool
  pub allow_deployment_signing : Bool

-- A request of either kind: an execution has a route and an asset, a deployment has a plan and a
-- purpose. A text that is missing is the empty one, as `tx.get` has it.
pub record Request : Type 0 where
  pub chain_id : ℤ
  pub sender : Text
  pub to : Option Text
  pub nonce : Text
  pub gas : Text
  pub max_priority_fee_per_gas : Text
  pub max_fee_per_gas : Text
  pub value : Text
  pub calldata : Text
  pub route_id : Text
  pub asset : Text
  pub plan_hash : Text
  pub purpose : Text

-- The dict that the validations return.
pub record Normalized : Type 0 where
  pub chain_id : ℕ
  pub sender : Text
  pub to : Option Text
  pub nonce : ℕ
  pub gas : ℕ
  pub max_priority_fee_per_gas : ℕ
  pub max_fee_per_gas : ℕ
  pub value : ℕ
  pub calldata : Text

-- A transaction of the reviewed plan.
pub record Reviewed : Type 0 where
  pub nonce : ℕ
  pub to : Option Text
  pub calldata : Text
  pub purpose : Text

pub record ReviewedDeploymentPlan : Type 0 where
  pub sha256 : Text
  pub deployer : Text
  pub chain_id : ℕ
  pub transactions : List Reviewed

unfoldable pub is_chain : ℤ → ℕ → Bool
is_chain (pos n) m = n == m
is_chain (negsuc n) m = false

abbrev pub nonzero : Option ℤ → Text → Text → Checked Text
nonzero none result label = err (not_an_address label)
nonzero (some (pos zero)) result label = err (zero_address label)
nonzero (some (pos (suc n))) result label = ok (lower result)
nonzero (some (negsuc n)) result label = ok (lower result)

abbrev pub nonnegative : Option ℤ → Text → Checked ℕ
nonnegative none label = err (not_a_quantity label)
nonnegative (some (pos n)) label = ok n
nonnegative (some (negsuc n)) label = err (negative_quantity label)

unfoldable pub parse_hex_quantity : Text → Text → Checked ℕ
parse_hex_quantity value label = do
  guard (starts_with value (codes "0x") && leb 3 (length value)) (not_a_quantity label)
  nonnegative (int_16 value) label

abbrev pub is_hex : Option (List ℕ) → Bool
is_hex none = false
is_hex (some raw) = true

unfoldable pub validate_hex_data : Text → Text → Checked Text
validate_hex_data value label = do
  guard (starts_with value (codes "0x") && (length value % 2 == 0)) (not_hex_data label)
  guard (is_hex (from_hex (drop 2 value))) (not_hex_data label)
  ok (lower value)

abbrev pub or_default : Option ℕ → ℕ → ℕ
or_default none n = n
or_default (some m) n = m

abbrev pub text_or_empty : Option Text → Text
text_or_empty none = []
text_or_empty (some t) = t

-- `x in (None, "", "0x")`
abbrev pub is_absent : Option Text → Bool
is_absent none = true
is_absent (some t) = is_empty t || text_eq t (codes "0x")

abbrev pub same_to : Option Text → Option Text → Bool
same_to none none = true
same_to none (some b) = false
same_to (some a) none = false
same_to (some a) (some b) = text_eq a b

-- `transactions.get(nonce)`; the plan has one transaction for a nonce.
unfoldable pub reviewed_at : ℕ → List Reviewed → Option Reviewed
reviewed_at nonce [] = none
reviewed_at nonce (r ∷ plan) = if r.nonce == nonce then some r else reviewed_at nonce plan

abbrev pub present : {A : Type 0} → Option A → PolicyError → Checked A
present none e = err e
present (some a) e = ok a

-- The dict that `validate_common` returns; the destination is not in it yet.
abbrev pub common_fields :
    PolicyConfig → Text → (nonce gas priority max_fee value : ℕ) → Text → Normalized
common_fields policy sender nonce gas priority max_fee value calldata = record {
  chain_id = policy.chain_id;
  sender = sender;
  to = none;
  nonce = nonce;
  gas = gas;
  max_priority_fee_per_gas = priority;
  max_fee_per_gas = max_fee;
  value = value;
  calldata = calldata;
}

module _ (checksum : Text → Option Text) where
  unfoldable pub normalize_address : Text → Text → Checked Text
  normalize_address value label = do
    result ← present (checksum value) (not_an_address label)
    nonzero (int_16 result) result label

  unfoldable pub validate_common : Request → PolicyConfig → Option ℕ → Checked Normalized
  validate_common tx policy gas_cap = do
    guard (is_chain (tx.chain_id) (policy.chain_id)) wrong_chain
    sender ← normalize_address (tx.sender) (codes "from")
    guard (text_eq sender (policy.signer_address)) wrong_sender
    nonce ← parse_hex_quantity (tx.nonce) (codes "nonce")
    gas ← parse_hex_quantity (tx.gas) (codes "gas")
    priority ← parse_hex_quantity (tx.max_priority_fee_per_gas) (codes "max_priority_fee_per_gas")
    max_fee ← parse_hex_quantity (tx.max_fee_per_gas) (codes "max_fee_per_gas")
    value ← parse_hex_quantity (tx.value) (codes "value")
    calldata ← validate_hex_data (tx.calldata) (codes "data")
    guard (not (gas == 0 || ltb (or_default gas_cap (policy.max_gas)) gas)) gas_exceeds
    guard (not (max_fee == 0 || ltb (policy.max_fee_per_gas_wei) max_fee)) fee_exceeds
    guard (not (ltb max_fee priority)) priority_exceeds
    guard (value == 0) value_not_zero
    ok (common_fields policy sender nonce gas priority max_fee value calldata)

  unfoldable pub validate_execution : Text → Text → Request → PolicyConfig → Checked Normalized
  validate_execution start_selector start_packed_selector tx policy = do
    guard (policy.allow_execution_signing) execution_disabled
    normalized ← validate_common tx policy none
    destination ← normalize_address (text_or_empty (tx.to)) (codes "to")
    guard (text_eq destination (policy.executor_address)) wrong_destination
    guard
        (text_eq (take 10 (normalized.calldata)) start_selector
          || text_eq (take 10 (normalized.calldata)) start_packed_selector)
        wrong_selector
    route_id ← validate_hex_data (tx.route_id) (codes "route_id")
    guard (length route_id == 66) wrong_route_id
    asset ← normalize_address (tx.asset) (codes "asset")
    ok (record normalized { to = some destination })

  -- None for an absent destination, and the normalized address for another.
  unfoldable pub normalize_to : Option Text → Text → Checked (Option Text)
  normalize_to to label =
      if is_absent to
      then ok none
      else (do address ← normalize_address (text_or_empty to) label; ok (some address))

  unfoldable pub validate_deployment :
      Request → PolicyConfig → Option ReviewedDeploymentPlan → Checked Normalized
  validate_deployment tx policy configured = do
    guard (policy.allow_deployment_signing) deployment_disabled
    plan ← present configured no_plan
    normalized ← validate_common tx policy (some (policy.max_deployment_gas))
    guard ((plan.chain_id == policy.chain_id) && text_eq (plan.deployer) (policy.signer_address))
        wrong_identity
    guard (text_eq (lower (tx.plan_hash)) (plan.sha256)) wrong_plan_hash
    reviewed ← present (reviewed_at (normalized.nonce) (plan.transactions)) unknown_nonce
    requested_to ← normalize_to (tx.to) (codes "to")
    reviewed_to ← normalize_to (reviewed.to) (codes "reviewed to")
    guard (same_to requested_to reviewed_to) other_destination
    guard (text_eq (normalized.calldata) (lower (reviewed.calldata))) other_calldata
    guard (text_eq (tx.purpose) (reviewed.purpose)) other_purpose
    ok (record normalized { to = requested_to })

-- The fields of a signed transaction, once decoded; `access_list_empty` says `fields[8] == []`.
pub record SignedFields : Type 0 where
  pub field_count : ℕ
  pub access_list_empty : Bool
  pub chain_id : List ℕ
  pub nonce : List ℕ
  pub max_priority_fee_per_gas : List ℕ
  pub max_fee_per_gas : List ℕ
  pub gas : List ℕ
  pub to : List ℕ
  pub value : List ℕ
  pub calldata : List ℕ

abbrev pub first_byte_is : ℕ → List ℕ → Bool
first_byte_is n [] = false
first_byte_is n (b ∷ raw) = b == n

abbrev pub raw_or : Option (List ℕ) → List ℕ
raw_or none = []
raw_or (some raw) = raw

abbrev pub destination_of : List ℕ → Option Text
destination_of [] = none
destination_of (b ∷ raw) = some (codes "0x" ++ to_hex (b ∷ raw))

-- The fields that are compared with what was asked for.
unfoldable pub same_fields : SignedFields → Normalized → Bool
same_fields fields expected =
    (from_bytes (fields.chain_id) == expected.chain_id)
    && (from_bytes (fields.nonce) == expected.nonce)
    && (from_bytes (fields.max_priority_fee_per_gas) == expected.max_priority_fee_per_gas)
    && (from_bytes (fields.max_fee_per_gas) == expected.max_fee_per_gas)
    && (from_bytes (fields.gas) == expected.gas)
    && same_to (destination_of (fields.to)) (expected.to)
    && (from_bytes (fields.value) == expected.value)
    && text_eq (codes "0x" ++ to_hex (fields.calldata)) (expected.calldata)

-- What the verification raises: a PolicyError, or an exception of the RLP decoder or of the
-- recovery, by its type.
pub data VerifyError : Type 0 where
  policy_error : PolicyError → VerifyError
  library_error : Text → VerifyError

abbrev pub by_policy : {A : Type 0} → Checked A → Result VerifyError A
by_policy (ok a) = ok a
by_policy (err e) = err (policy_error e)

abbrev pub by_library : {A : Type 0} → Result Text A → Result VerifyError A
by_library (ok a) = ok a
by_library (err e) = err (library_error e)

unfoldable pub verify_signed_transaction :
    (List ℕ → Result Text SignedFields)
    → (Text → Result Text Text)
    → Text
    → Normalized
    → Result VerifyError (Unit {0})
verify_signed_transaction rlp_decode recover raw_transaction expected = do
  value ← by_policy (validate_hex_data raw_transaction (codes "raw_transaction"))
  let raw = raw_or (from_hex (drop 2 value))
  guard (first_byte_is 2 raw) (policy_error wrong_type)
  fields ← by_library (rlp_decode (drop 1 raw))
  guard (fields.field_count == 12) (policy_error wrong_fields)
  guard (fields.access_list_empty) (policy_error access_list)
  guard (same_fields fields expected) (policy_error changed_field)
  recovered ← by_library (recover raw_transaction)
  guard (text_eq (lower recovered) (expected.sender)) (policy_error wrong_recovery)
  ok tt
