-- ===== src/Deploy/Tests.antt =====
-- A concrete deployment (scripts_deploy_via_signer.py), where the world is the next nonce.
use base_arb_bot.Deploy.{
  Planned, DeploymentPlan, Environment, Node, is_on, acknowledged, check_environment, no_code,
  prepare_all, wait_for, send_one, send_all, check_code,
}
use base_arb_bot.Deploy.Resume.{sent_report, check_nonce, send_plan, deploy}
use base_arb_bot.Deploy.Reported.{IsReported, deploy-IsReported}
use base_arb_bot.Prelude.{ℕ, ◌+◌, ◌++◌, true, [], ◌∷◌, ok, none, some, ◌≡◌, refl}
use base_arb_bot.Prelude.Text.{Text, codes, text_eq, starts_with, lower, strip, lstrip}
use base_arb_bot.Prelude.Numeral.{int_16}
use base_arb_bot.Prelude.Dict.{get, mem}

abbrev sample_environment : Environment
sample_environment = record {
  dry_run = none;
  live_trading = some (codes "false");
  broadcast_ack = some (codes "I_UNDERSTAND_BASE_DEPLOYMENT");
  rpc_url = some (codes "http");
  token_file = some (codes "token");
}

abbrev planned_at : ℕ → Planned
planned_at nonce = record {
  nonce = nonce;
  to = none;
  value = codes "0x0";
  calldata = codes "0xab";
  purpose = codes "deploy";
}

abbrev sample_plan : DeploymentPlan
sample_plan = record {
  plan_hash = codes "0x99";
  chain_id = 8453;
  deployer = codes "0xaa";
  starting_nonce = 5;
  transactions = planned_at 5 ∷ planned_at 6 ∷ [];
  predicted_addresses = (codes "executor", codes "0xee") ∷ [];
}

abbrev sample_node : Node ℕ
sample_node = record {
  checksum = λ address. ok address;
  chain_id = λ w. ok 8453;
  pending_nonce = λ deployer w. ok w;
  priority_fee = λ w. ok 1;
  pending_base_fee = λ w. ok 10;
  estimate_gas = λ tx w. ok 1001;
  call_word = λ contract calldata w. ok (codes "0x1");
  code_at = λ address w. ok (codes "0x60");
  read_token = λ path. ok tt;
  sign = λ item w. ok (codes "0x02", w);
  send_raw = λ raw w. ok (codes "0x7" ++ raw, w + 1);
  signer_url = ok tt;
  polls = λ tx_hash w. ok none ∷ ok (some (1, w)) ∷ [];
}

abbrev sample_selector : Text → Text
sample_selector signature = codes "0x5c975abb"

sample-deployed :
    deploy sample_node sample_selector sample_environment sample_plan none true 5
    ≡ ok (sent_report (codes "0x70x02" ∷ codes "0x70x02" ∷ []) 7)
unfolding deploy check_environment is_on acknowledged check_nonce prepare_all send_plan send_all
    send_one wait_for check_code no_code int_16 text_eq starts_with lower strip lstrip get mem
sample-deployed = refl

deploy-IsReported_example :
    IsReported sample_node sample_selector sample_environment sample_plan none 5
      (codes "0x70x02" ∷ codes "0x70x02" ∷ [])
      7
deploy-IsReported_example =
    deploy-IsReported sample_node sample_selector sample_environment sample_plan none 5
      (codes "0x70x02" ∷ codes "0x70x02" ∷ []) 7 sample-deployed
