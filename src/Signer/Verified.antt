-- ===== src/Signer/Verified.antt =====
-- `verify_signed_transaction` (signer-gateway/src/signer_gateway/policy.py): what is given out is
-- what was asked for.
use base_arb_bot.Signer.{
  Normalized, SignedFields, Checked, validate_hex_data, first_byte_is, raw_or, destination_of,
  same_to, same_fields, policy_error, by_policy, by_library, verify_signed_transaction, wrong_type,
  wrong_fields, access_list, changed_field, wrong_recovery,
}
use base_arb_bot.Signer.Allowed.{same_to-eq}
use base_arb_bot.Prelude.{
  ℕ, Bool, true, false, ◌&&◌, List, drop, ◌++◌, ◌==◌, Result, ok, err, ◌≡◌, refl, ap, ok-injective,
  bind-eq-ok, guard-eq-ok, ==_iff,
}
use base_arb_bot.Prelude.Text.{Text, codes, text_eq, text_eq_iff, lower}
use base_arb_bot.Prelude.Bytes.{from_bytes, from_hex, to_hex}

-- The decoded fields are the ones expected, field by field.
pub record IsExpected (fields : SignedFields) (expected : Normalized) : Type 0 where
  pub chain_id : from_bytes (fields.chain_id) ≡ expected.chain_id
  pub nonce : from_bytes (fields.nonce) ≡ expected.nonce
  pub priority : from_bytes (fields.max_priority_fee_per_gas) ≡ expected.max_priority_fee_per_gas
  pub max_fee : from_bytes (fields.max_fee_per_gas) ≡ expected.max_fee_per_gas
  pub gas : from_bytes (fields.gas) ≡ expected.gas
  pub to : destination_of (fields.to) ≡ expected.to
  pub value : from_bytes (fields.value) ≡ expected.value
  pub calldata : codes "0x" ++ to_hex (fields.calldata) ≡ expected.calldata

all_true :
    (a b c d e f g h : Bool)
    → (a && b && c && d && e && f && g && h) ≡ true
    → (a ≡ true)
      × (b ≡ true)
      × (c ≡ true)
      × (d ≡ true)
      × (e ≡ true)
      × (f ≡ true)
      × (g ≡ true)
      × (h ≡ true)
all_true true true true true true true true true q =
    (refl, refl, refl, refl, refl, refl, refl, refl)
all_true true true true true true true true false q = cc
all_true true true true true true true false h q = cc
all_true true true true true true false g h q = cc
all_true true true true true false f g h q = cc
all_true true true true false e f g h q = cc
all_true true true false d e f g h q = cc
all_true true false c d e f g h q = cc
all_true false b c d e f g h q = cc

same_fields-IsExpected :
    (fields : SignedFields) (expected : Normalized)
    → same_fields fields expected ≡ true
    → IsExpected fields expected
unfolding same_fields
same_fields-IsExpected fields expected h =
    let (c, n, p, m, g, t, v, d) =
      all_true (from_bytes (fields.chain_id) == expected.chain_id)
        (from_bytes (fields.nonce) == expected.nonce)
        (from_bytes (fields.max_priority_fee_per_gas) == expected.max_priority_fee_per_gas)
        (from_bytes (fields.max_fee_per_gas) == expected.max_fee_per_gas)
        (from_bytes (fields.gas) == expected.gas)
        (same_to (destination_of (fields.to)) (expected.to))
        (from_bytes (fields.value) == expected.value)
        (text_eq (codes "0x" ++ to_hex (fields.calldata)) (expected.calldata)) h in
    record {
      chain_id = (==_iff (from_bytes (fields.chain_id)) (expected.chain_id)).0 c;
      nonce = (==_iff (from_bytes (fields.nonce)) (expected.nonce)).0 n;
      priority =
          (==_iff (from_bytes (fields.max_priority_fee_per_gas))
              (expected.max_priority_fee_per_gas)).0
            p;
      max_fee = (==_iff (from_bytes (fields.max_fee_per_gas)) (expected.max_fee_per_gas)).0 m;
      gas = (==_iff (from_bytes (fields.gas)) (expected.gas)).0 g;
      to = same_to-eq (destination_of (fields.to)) (expected.to) t;
      value = (==_iff (from_bytes (fields.value)) (expected.value)).0 v;
      calldata = (text_eq_iff (codes "0x" ++ to_hex (fields.calldata)) (expected.calldata)).0 d;
    }

by_policy-ok : {A : Type 0} (m : Checked A) (a : A) → by_policy m ≡ ok a → m ≡ ok a
by_policy-ok (ok b) a e = ap ok (ok-injective e)
by_policy-ok (err b) a e = absurd cc

by_library-ok : {A : Type 0} (m : Result Text A) (a : A) → by_library m ≡ ok a → m ≡ ok a
by_library-ok (ok b) a e = ap ok (ok-injective e)
by_library-ok (err b) a e = absurd cc

-- If the check of a signed transaction returns, then the text is hexadecimal, its bytes decode to
-- twelve fields with an empty access list that are the expected ones, and the sender that is
-- recovered from it is the expected one.
pub verify_signed_transaction-IsExpected :
    (rlp_decode : List ℕ → Result Text SignedFields) (recover : Text → Result Text Text)
    (raw_transaction : Text) (expected : Normalized)
    → verify_signed_transaction rlp_decode recover raw_transaction expected ≡ ok tt
    → (value : Text) × (fields : SignedFields) × (sender : Text) × (validate_hex_data
          raw_transaction
          (codes "raw_transaction")
        ≡ ok value)
      × (first_byte_is 2 (raw_or (from_hex (drop 2 value))) ≡ true)
      × (rlp_decode (drop 1 (raw_or (from_hex (drop 2 value)))) ≡ ok fields)
      × (fields.field_count ≡ 12)
      × (fields.access_list_empty ≡ true)
      × IsExpected fields expected
      × (recover raw_transaction ≡ ok sender)
      × (lower sender ≡ expected.sender)
unfolding verify_signed_transaction
verify_signed_transaction-IsExpected rlp_decode recover raw_transaction expected e =
    let (value, qv, e1) =
      bind-eq-ok (by_policy (validate_hex_data raw_transaction (codes "raw_transaction"))) _ e in
    let (typed, e2) =
      guard-eq-ok (first_byte_is 2 (raw_or (from_hex (drop 2 value)))) (policy_error wrong_type) _
        e1 in
    let (fields, qf, e3) =
      bind-eq-ok (by_library (rlp_decode (drop 1 (raw_or (from_hex (drop 2 value)))))) _ e2 in
    let (twelve, e4) = guard-eq-ok (fields.field_count == 12) (policy_error wrong_fields) _ e3 in
    let (listed, e5) = guard-eq-ok (fields.access_list_empty) (policy_error access_list) _ e4 in
    let (same, e6) = guard-eq-ok (same_fields fields expected) (policy_error changed_field) _ e5 in
    let (sender, qs, e7) = bind-eq-ok (by_library (recover raw_transaction)) _ e6 in
    let (recovered, e8) =
      guard-eq-ok (text_eq (lower sender) (expected.sender)) (policy_error wrong_recovery) _ e7 in
    (
      value,
      fields,
      sender,
      by_policy-ok _ value qv,
      typed,
      by_library-ok _ fields qf,
      (==_iff _ _).0 twelve,
      listed,
      same_fields-IsExpected fields expected same,
      by_library-ok _ sender qs,
      (text_eq_iff (lower sender) (expected.sender)).0 recovered,
    )
