-- ===== src/Deploy/Reported.antt =====
-- When `main` of scripts_deploy_via_signer.py reports a deployment, all of it happened.
use base_arb_bot.Finalize.{Reply, required}
use base_arb_bot.Deploy.{
  DeploymentPlan, Prepared, Environment, Node, or_text, is_on, acknowledged, check_environment,
  prepare_all, send_all, check_code,
}
use base_arb_bot.Deploy.Resume.{
  Report, sent_report, verify_deployed_prefix, check_nonce, send_plan, deploy, int_reply, is_int,
}
use base_arb_bot.Deploy.Sent.{ArePrepared, AreSent, prepare_all-ArePrepared, send_all-AreSent}
use base_arb_bot.Prelude.{
  ℕ, ◌+◌, ◌*◌, ◌==◌, Bool, true, false, not, List, [], ok, Option, none, some, ◌≡◌, subst, refl, ap,
  ◌∙◌, bind-eq-ok, guard-eq-ok, ok-injective, ==_iff,
}
use base_arb_bot.Prelude.Text.{Text, codes, strip, is_empty}
use base_arb_bot.Prelude.Int.{ℤ}
use base_arb_bot.Prelude.Numeral.{int_16}
use base_arb_bot.Prelude.Dict.{get}

module _ {W : Type 0} (node : Node W) (selector : Text → Text) (env : Environment)
    (plan : DeploymentPlan) where
  -- The deployment began at the plan's nonce, or was resumed at one after a verified prefix.
  abbrev pub BeginsAt : Option ℕ → ℕ → W → Type 0
  BeginsAt none pending w = pending ≡ plan.starting_nonce
  BeginsAt (some resume) pending w =
      (pending ≡ resume) × (verify_deployed_prefix node selector plan w resume ≡ ok tt)

  -- A deployment that was reported.
  pub record IsReported (resume : Option ℕ) (w : W) (hashes : List Text) (after : W) : Type 0 where
    pub dry_run_on : is_on (or_text (env.dry_run) (codes "true")) ≡ true
    pub live_trading_off : is_on (or_text (env.live_trading) (codes "false")) ≡ false
    pub confirmed : acknowledged (env.broadcast_ack) ≡ true
    pub chain : node.chain_id w ≡ ok 8453
    pub planned_chain : plan.chain_id ≡ 8453
    pub deployer : Text
    pub checksummed : node.checksum (plan.deployer) ≡ ok deployer
    pub pending : ℕ
    pub has_pending : node.pending_nonce deployer w ≡ ok pending
    pub begins : BeginsAt resume pending w
    pub items : List Prepared
    pub prepared : ArePrepared node plan deployer pending (plan.transactions) items
    pub sent : AreSent node plan deployer items w hashes after
    pub has_code : check_code node plan after (plan.predicted_addresses) ≡ ok tt
    pub executor : Text
    pub has_executor : get (codes "executor") (plan.predicted_addresses) ≡ some executor
    pub word : Text
    pub paused : node.call_word executor (selector (codes "paused()")) after ≡ ok word
    pub flag : ℤ
    pub read : int_reply (int_16 word) ≡ ok flag
    pub is_one : is_int flag 1 ≡ true

  environment_gates :
      (u : Unit {0})
      → check_environment env true ≡ ok u
      → (is_on (or_text (env.dry_run) (codes "true")) ≡ true)
        × (is_on (or_text (env.live_trading) (codes "false")) ≡ false)
        × (acknowledged (env.broadcast_ack) ≡ true)
  unfolding check_environment
  environment_gates u e =
      let (dry, e1) = guard-eq-ok (is_on (or_text (env.dry_run) (codes "true"))) _ _ e in
      let (live, e2) =
        guard-eq-ok (not (is_on (or_text (env.live_trading) (codes "false")))) _ _ e1 in
      let (ack, e3) = guard-eq-ok (acknowledged (env.broadcast_ack)) _ _ e2 in
      (dry, is_off _ live, ack)
    where
      is_off : (b : Bool) → not b ≡ true → b ≡ false
      is_off true h = absurd cc
      is_off false h = refl

  begins_at :
      (resume : Option ℕ) (pending : ℕ) (w : W) (u : Unit {0})
      → check_nonce node selector plan w resume pending ≡ ok u
      → BeginsAt resume pending w
  unfolding check_nonce
  begins_at none pending w u e =
      (==_iff pending (plan.starting_nonce)).0
        ((guard-eq-ok (pending == plan.starting_nonce) _ _ e).0)
  begins_at (some resume) pending w u e =
      let (same, e1) = guard-eq-ok (pending == resume) _ _ e in ((==_iff pending resume).0 same, e1)

  required-ok : (o : Option Text) (e x : Text) → required o e ≡ ok x → o ≡ some x
  required-ok none e x h = absurd cc
  required-ok (some y) e x h = ap some (ok-injective h)

  sent_injective :
      {h k : List Text} {v u : W}
      → ◌≡◌ {A = Reply (Report W)} (ok (sent_report h v)) (ok (sent_report k u))
      → (h ≡ k) × (v ≡ u)
  sent_injective e = (cc, cc)

  -- What happens after the transactions are prepared.
  record IsFinished (deployer : Text) (items : List Prepared) (w : W) (hashes : List Text)
      (after : W) : Type 0 where
    sent : AreSent node plan deployer items w hashes after
    has_code : check_code node plan after (plan.predicted_addresses) ≡ ok tt
    executor : Text
    has_executor : get (codes "executor") (plan.predicted_addresses) ≡ some executor
    word : Text
    paused : node.call_word executor (selector (codes "paused()")) after ≡ ok word
    flag : ℤ
    read : int_reply (int_16 word) ≡ ok flag
    is_one : is_int flag 1 ≡ true

  send_plan-IsFinished :
      (deployer : Text) (items : List Prepared) (w : W) (hashes : List Text) (after : W)
      → send_plan node selector env plan deployer items w ≡ ok (sent_report hashes after)
      → IsFinished deployer items w hashes after
  unfolding send_plan
  send_plan-IsFinished deployer items w hashes after e =
      let (token, e1) = guard-eq-ok (not (is_empty (strip (or_text (env.token_file) [])))) _ _ e in
      let (u, q2, e2) = bind-eq-ok (node.read_token (strip (or_text (env.token_file) []))) _ e1 in
      let (v, q3, e3) = bind-eq-ok (node.signer_url) _ e2 in
      let (sent, q4, e4) = bind-eq-ok (send_all node plan deployer items w) _ e3 in
      let (x, q5, e5) =
        bind-eq-ok (check_code node plan (sent.1) (plan.predicted_addresses)) _ e4 in
      let (executor, q6, e6) =
        bind-eq-ok (required (get (codes "executor") (plan.predicted_addresses)) (codes "KeyError"))
          _ e5 in
      let (word, q7, e7) =
        bind-eq-ok (node.call_word executor (selector (codes "paused()")) (sent.1)) _ e6 in
      let (paused, q8, e8) = bind-eq-ok (int_reply (int_16 word)) _ e7 in
      let (is_paused, e9) = guard-eq-ok (is_int paused 1) _ _ e8 in
      finished sent (send_all-AreSent node plan deployer items w sent q4) q5 executor
        (required-ok _ _ executor q6) word q7 paused q8 is_paused (sent_injective e9)
    where
      finished :
          (s : List Text × W)
          → AreSent node plan deployer items w (s.0) (s.1)
          → check_code node plan (s.1) (plan.predicted_addresses) ≡ ok tt
          → (executor : Text) → get (codes "executor") (plan.predicted_addresses) ≡ some executor
          → (word : Text) → node.call_word executor (selector (codes "paused()")) (s.1) ≡ ok word
          → (flag : ℤ) → int_reply (int_16 word) ≡ ok flag
          → is_int flag 1 ≡ true
          → (s.0 ≡ hashes) × (s.1 ≡ after)
          → IsFinished deployer items w hashes after
      finished s a c executor x word p flag r o (h, k) = record {
        sent =
            subst (λ l. AreSent node plan deployer items w l after) h
              (subst (λ v. AreSent node plan deployer items w (s.0) v) k a);
        has_code = subst (λ v. check_code node plan v (plan.predicted_addresses) ≡ ok tt) k c;
        executor = executor;
        has_executor = x;
        word = word;
        paused = subst (λ v. node.call_word executor (selector (codes "paused()")) v ≡ ok word) k p;
        flag = flag;
        read = r;
        is_one = o;
      }

  -- If a run with `--broadcast` reports the hashes of its transactions, then DRY_RUN was on,
  -- LIVE_TRADING off and the acknowledgement given; the chain is the plan's and 8453; the
  -- deployer's pending nonce was the plan's first one, or the one to resume at after its prefix was
  -- verified; the transactions from that nonce on were prepared in the plan's order, and each was
  -- signed and sent when its nonce was the next, and received; and afterwards every predicted
  -- address has code and the executor says that it is paused.
  pub deploy-IsReported :
      (resume : Option ℕ) (w : W) (hashes : List Text) (after : W)
      → deploy node selector env plan resume true w ≡ ok (sent_report hashes after)
      → IsReported resume w hashes after
  unfolding deploy
  deploy-IsReported resume w hashes after e =
      let (u, q0, e0) = bind-eq-ok (check_environment env true) _ e in
      let (dry, live, ack) = environment_gates u q0 in
      let (chain, q1, e1) = bind-eq-ok (node.chain_id w) _ e0 in
      let (same, e2) = guard-eq-ok (chain == plan.chain_id) _ _ e1 in
      let (base, e3) = guard-eq-ok (plan.chain_id == 8453) _ _ e2 in
      let (deployer, q4, e4) = bind-eq-ok (node.checksum (plan.deployer)) _ e3 in
      let (pending, q5, e5) = bind-eq-ok (node.pending_nonce deployer w) _ e4 in
      let (v, q6, e6) = bind-eq-ok (check_nonce node selector plan w resume pending) _ e5 in
      let (priority, q7, e7) = bind-eq-ok (node.priority_fee w) _ e6 in
      let (base_fee, q8, e8) = bind-eq-ok (node.pending_base_fee w) _ e7 in
      let (items, q9, e9) =
        bind-eq-ok
          (prepare_all node plan deployer pending (base_fee * 2 + priority) priority w
            (plan.transactions))
          _ e8 in
      let f = send_plan-IsFinished deployer items w hashes after e9 in
      let planned : plan.chain_id ≡ 8453 = (==_iff (plan.chain_id) 8453).0 base in
      record {
        dry_run_on = dry;
        live_trading_off = live;
        confirmed = ack;
        chain = q1 ∙ ap ok ((==_iff chain (plan.chain_id)).0 same ∙ planned);
        planned_chain = planned;
        deployer = deployer;
        checksummed = q4;
        pending = pending;
        has_pending = q5;
        begins = begins_at resume pending w v q6;
        items = items;
        prepared =
            prepare_all-ArePrepared node plan deployer pending (base_fee * 2 + priority) priority w
              (plan.transactions) items q9;
        sent = f.sent;
        has_code = f.has_code;
        executor = f.executor;
        has_executor = f.has_executor;
        word = f.word;
        paused = f.paused;
        flag = f.flag;
        read = f.read;
        is_one = f.is_one;
      }
