-- ===== src/Deploy.antt =====
-- The deployment through the signer gateway (scripts_deploy_via_signer.py). The chain and the
-- gateway are an argument: their state is passed on explicitly, and a reply is a value or the name
-- of the exception's type. A SystemExit is the exception of that name.
pub mod Resume
pub mod Sent
pub mod Reported
mod Tests
use base_arb_bot.Finalize.{Reply}
use base_arb_bot.Prelude.{
  ℕ, ◌+◌, ◌*◌, ◌/◌, Bool, true, false, not, ◌&&◌, ◌||◌, List, [], ◌∷◌, ◌++◌, ltb, ◌==◌,
  if◌then◌else◌, Result, ok, err, ◌>>=◌, ◌>>◌, guard, Option, none, some,
}
use base_arb_bot.Prelude.Text.{Text, codes, text_eq, starts_with, lower, strip, is_empty}
use base_arb_bot.Prelude.Dict.{Dict, mem}

-- A transaction of the plan.
pub record Planned : Type 0 where
  pub nonce : ℕ
  pub to : Option Text
  pub value : Text
  pub calldata : Text
  pub purpose : Text

pub record DeploymentPlan : Type 0 where
  pub plan_hash : Text
  pub chain_id : ℕ
  pub deployer : Text
  pub starting_nonce : ℕ
  pub transactions : List Planned
  pub predicted_addresses : Dict Text

-- What is posted to the gateway; the numbers are written in hexadecimal there.
pub record Prepared : Type 0 where
  pub plan_hash : Text
  pub purpose : Text
  pub chain_id : ℕ
  pub sender : Text
  pub to : Option Text
  pub nonce : ℕ
  pub gas : ℕ
  pub max_fee_per_gas : ℕ
  pub max_priority_fee_per_gas : ℕ
  pub value : Text
  pub calldata : Text

-- The transaction whose gas is estimated.
pub record Estimated : Type 0 where
  pub sender : Text
  pub value : Text
  pub calldata : Text
  pub to : Option Text

-- The environment variables that are read, none where one is not set.
pub record Environment : Type 0 where
  pub dry_run : Option Text
  pub live_trading : Option Text
  pub broadcast_ack : Option Text
  pub rpc_url : Option Text
  pub token_file : Option Text

-- The node and the gateway, over the states `W` of the world. `polls` are the answers to the
-- requests for a receipt until the time is out: none, or its status and the world by then.
pub record Node (W : Type 0) : Type 0 where
  pub checksum : Text → Reply Text
  pub chain_id : W → Reply ℕ
  pub pending_nonce : Text → W → Reply ℕ
  pub priority_fee : W → Reply ℕ
  pub pending_base_fee : W → Reply ℕ
  pub estimate_gas : Estimated → W → Reply ℕ
  pub call_word : Text → Text → W → Reply Text
  pub code_at : Text → W → Reply Text
  pub read_token : Text → Reply (Unit {0})
  pub sign : Prepared → W → Reply (Text × W)
  pub send_raw : Text → W → Reply (Text × W)
  pub signer_url : Reply (Unit {0})
  pub polls : Text → W → List (Reply (Option (ℕ × W)))

abbrev pub or_text : Option Text → Text → Text
or_text none t = t
or_text (some s) t = s

abbrev pub exits : {A : Type 0} → Reply A
exits = err (codes "SystemExit")

-- `text.lower() in {"1", "true", "yes", "on"}`
unfoldable pub is_on : Text → Bool
is_on text = mem (lower text) (codes "1" ∷ codes "true" ∷ codes "yes" ∷ codes "on" ∷ [])

unfoldable pub acknowledged : Option Text → Bool
acknowledged none = false
acknowledged (some t) = text_eq t (codes "I_UNDERSTAND_BASE_DEPLOYMENT")

abbrev pub system_exit : Text
system_exit = codes "SystemExit"

abbrev pub runtime_error : Text
runtime_error = codes "RuntimeError"

-- The first tests of `main`.
unfoldable pub check_environment : Environment → Bool → Reply (Unit {0})
check_environment env broadcast = do
  guard (is_on (or_text (env.dry_run) (codes "true"))) system_exit
  guard (not (is_on (or_text (env.live_trading) (codes "false")))) system_exit
  guard (not broadcast || acknowledged (env.broadcast_ack)) system_exit
  guard (not (is_empty (strip (or_text (env.rpc_url) [])))) system_exit
  ok tt

-- `transaction.get("to")`, if it is not empty.
abbrev pub present_to : Option Text → Option Text
present_to none = none
present_to (some []) = none
present_to (some (c ∷ to)) = some (c ∷ to)

-- `code in ("0x", "0x0")`
unfoldable pub no_code : Text → Bool
no_code code = text_eq code (codes "0x") || text_eq code (codes "0x0")

abbrev pub padded_gas : ℕ → ℕ
padded_gas estimated = (estimated * 120 + 99) / 100

module _ {W : Type 0} (node : Node W) (plan : DeploymentPlan) where
  abbrev pub estimated_of : Text → Planned → Estimated
  estimated_of deployer t = record {
    sender = deployer;
    value = t.value;
    calldata = t.calldata;
    to = present_to (t.to);
  }

  abbrev pub prepared_of : Text → ℕ → ℕ → Planned → ℕ → Prepared
  prepared_of deployer max_fee priority t estimated = record {
    plan_hash = plan.plan_hash;
    purpose = t.purpose;
    chain_id = 8453;
    sender = deployer;
    to = t.to;
    nonce = t.nonce;
    gas = padded_gas estimated;
    max_fee_per_gas = max_fee;
    max_priority_fee_per_gas = priority;
    value = t.value;
    calldata = t.calldata;
  }

  abbrev pub unless_mined :
      Bool → Reply (List Prepared) → Reply (List Prepared) → Reply (List Prepared)
  unless_mined true skip prepare = skip
  unless_mined false skip prepare = prepare

  -- The loop that prepares the transactions from the pending nonce on.
  unfoldable pub prepare_all : Text → ℕ → ℕ → ℕ → W → List Planned → Reply (List Prepared)
  prepare_all deployer pending max_fee priority w [] = ok []
  prepare_all deployer pending max_fee priority w (t ∷ transactions) =
      let rest = prepare_all deployer pending max_fee priority w transactions in
      unless_mined (ltb (t.nonce) pending) rest (do
        estimated ← node.estimate_gas (estimated_of deployer t) w
        items ← rest
        ok (prepared_of deployer max_fee priority t estimated ∷ items))

  unfoldable pub wait_for : List (Reply (Option (ℕ × W))) → Reply W
  wait_for [] = err runtime_error
  wait_for (err e ∷ polls) = err e
  wait_for (ok none ∷ polls) = wait_for polls
  wait_for (ok (some (status, w)) ∷ polls) = do guard (status == 1) runtime_error; ok w

  -- One turn of the loop that sends: its hash and the world after its receipt.
  unfoldable pub send_one : Text → Prepared → W → Reply (Text × W)
  send_one deployer item w = do
    current ← node.pending_nonce deployer w
    guard (current == item.nonce) runtime_error
    signed ← node.sign item w
    guard (starts_with (signed.0) (codes "0x")) runtime_error
    sent ← node.send_raw (signed.0) (signed.1)
    after ← wait_for (node.polls (sent.0) (sent.1))
    ok (sent.0, after)

  unfoldable pub send_all : Text → List Prepared → W → Reply (List Text × W)
  send_all deployer [] w = ok ([], w)
  send_all deployer (item ∷ items) w = do
    sent ← send_one deployer item w
    rest ← send_all deployer items (sent.1)
    ok (sent.0 ∷ rest.0, rest.1)

  -- Every predicted address has code.
  unfoldable pub check_code : W → Dict Text → Reply (Unit {0})
  check_code w [] = ok tt
  check_code w ((label, address) ∷ addresses) = do
    code ← node.code_at address w
    guard (not (no_code code)) runtime_error
    check_code w addresses
