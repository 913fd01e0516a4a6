-- ===== src/Deploy/Sent.antt =====
-- What a deployment that reports its transactions has done (scripts_deploy_via_signer.py).
use base_arb_bot.Finalize.{Reply}
use base_arb_bot.Deploy.{
  Planned, DeploymentPlan, Prepared, Node, estimated_of, prepared_of, unless_mined, prepare_all,
  wait_for, send_one, send_all,
}
use base_arb_bot.Prelude.{
  ℕ, ◌*◌, ◌<◌, ◌≤◌, Bool, true, false, List, [], ◌∷◌, ltb, ◌==◌, ok, ◌>>=◌, ◌≡◌, refl, ap, ◌∙◌,
  subst, bind-eq-ok, guard-eq-ok, ok-injective, arith, ==_iff,
}
use base_arb_bot.Prelude.Text.{Text, codes, starts_with}

module _ {W : Type 0} (node : Node W) (plan : DeploymentPlan) (deployer : Text) where
  -- The item asks the gateway for the planned transaction, with a fifth more gas than estimated.
  pub record IsItem (t : Planned) (item : Prepared) : Type 0 where
    pub nonce : item.nonce ≡ t.nonce
    pub to : item.to ≡ t.to
    pub value : item.value ≡ t.value
    pub calldata : item.calldata ≡ t.calldata
    pub purpose : item.purpose ≡ t.purpose
    pub plan_hash : item.plan_hash ≡ plan.plan_hash
    pub sender : item.sender ≡ deployer
    pub world : W
    pub estimated : ℕ
    pub estimate : node.estimate_gas (estimated_of node plan deployer t) world ≡ ok estimated
    pub enough : estimated * 120 ≤ item.gas * 100

  -- The items are those of the transactions from the pending nonce on, in their order.
  pub data ArePrepared (pending : ℕ) : List Planned → List Prepared → Type 0 where
    all_prepared : ArePrepared pending [] []
    mined :
        {t : Planned} {ts : List Planned} {items : List Prepared}
        → t.nonce < pending
        → ArePrepared pending ts items
        → ArePrepared pending (t ∷ ts) items
    to_send :
        {t : Planned} {item : Prepared} {ts : List Planned} {items : List Prepared}
        → pending ≤ t.nonce
        → IsItem t item
        → ArePrepared pending ts items
        → ArePrepared pending (t ∷ ts) (item ∷ items)

  -- The item was sent when its nonce was the next, and its receipt was a success.
  pub record IsSent (item : Prepared) (w : W) (tx_hash : Text) (after : W) : Type 0 where
    pub next_nonce : node.pending_nonce deployer w ≡ ok (item.nonce)
    pub raw : Text
    pub signed_at : W
    pub signed : node.sign item w ≡ ok (raw, signed_at)
    pub sent_at : W
    pub sent : node.send_raw raw signed_at ≡ ok (tx_hash, sent_at)
    pub received : wait_for node plan (node.polls tx_hash sent_at) ≡ ok after

  pub data AreSent : List Prepared → W → List Text → W → Type 0 where
    all_sent : {w : W} → AreSent [] w [] w
    then_send :
        {item : Prepared} {items : List Prepared} {w v u : W} {tx_hash : Text} {hashes : List Text}
        → IsSent item w tx_hash v
        → AreSent items v hashes u
        → AreSent (item ∷ items) w (tx_hash ∷ hashes) u

  pub prepare_all-ArePrepared :
      (pending max_fee priority : ℕ) (w : W) (ts : List Planned) (items : List Prepared)
      → prepare_all node plan deployer pending max_fee priority w ts ≡ ok items
      → ArePrepared pending ts items
  unfolding prepare_all
  prepare_all-ArePrepared pending max_fee priority w [] items e =
      subst (ArePrepared pending []) (ok-injective e) all_prepared
  prepare_all-ArePrepared pending max_fee priority w (t ∷ ts) items e =
      by_test (ltb (t.nonce) pending) refl e (prepare_all-ArePrepared pending max_fee priority w ts)
    where
      rest : Reply (List Prepared)
      rest = prepare_all node plan deployer pending max_fee priority w ts

      by_test :
          (b : Bool)
          → ltb (t.nonce) pending ≡ b
          → unless_mined node plan b rest (do
            estimated ← node.estimate_gas (estimated_of node plan deployer t) w
            more ← rest
            ok (prepared_of node plan deployer max_fee priority t estimated ∷ more))
            ≡ ok items
          → ((is : List Prepared) → rest ≡ ok is → ArePrepared pending ts is)
          → ArePrepared pending (t ∷ ts) items
      by_test true q e' k = mined (ground (arith)) (k items e')
      by_test false q e' k =
          let (estimated, q1, e1) =
            bind-eq-ok (node.estimate_gas (estimated_of node plan deployer t) w) _ e' in
          let (more, q2, e2) = bind-eq-ok rest _ e1 in
          subst (ArePrepared pending (t ∷ ts)) (ok-injective e2) (
            to_send (ground (arith))
              (record {
                nonce = refl;
                to = refl;
                value = refl;
                calldata = refl;
                purpose = refl;
                plan_hash = refl;
                sender = refl;
                world = w;
                estimated = estimated;
                estimate = q1;
                enough = omega arith;
              })
              (k more q2))

  send_one-IsSent :
      (item : Prepared) (w : W) (r : Text × W)
      → send_one node plan deployer item w ≡ ok r
      → IsSent item w (r.0) (r.1)
  unfolding send_one
  send_one-IsSent item w r e =
      let (current, q1, e1) = bind-eq-ok (node.pending_nonce deployer w) _ e in
      let (same, e2) = guard-eq-ok (current == item.nonce) _ _ e1 in
      let (signed, q2, e3) = bind-eq-ok (node.sign item w) _ e2 in
      let (hex_text, e4) = guard-eq-ok (starts_with (signed.0) (codes "0x")) _ _ e3 in
      let (sent, q3, e5) = bind-eq-ok (node.send_raw (signed.0) (signed.1)) _ e4 in
      let (after, q4, e6) = bind-eq-ok (wait_for node plan (node.polls (sent.0) (sent.1))) _ e5 in
      subst (λ (x : Text × W). IsSent item w (x.0) (x.1)) (ok-injective e6)
        (record {
          next_nonce = q1 ∙ ap ok ((==_iff current (item.nonce)).0 same);
          raw = signed.0;
          signed_at = signed.1;
          signed = q2;
          sent_at = sent.1;
          sent = q3;
          received = q4;
        })

  pub send_all-AreSent :
      (items : List Prepared) (w : W) (r : List Text × W)
      → send_all node plan deployer items w ≡ ok r
      → AreSent items w (r.0) (r.1)
  unfolding send_all
  send_all-AreSent [] w r e =
      subst (λ (x : List Text × W). AreSent [] w (x.0) (x.1)) (ok-injective e) all_sent
  send_all-AreSent (item ∷ items) w r e =
      let (sent, q1, e1) = bind-eq-ok (send_one node plan deployer item w) _ e in
      let (rest, q2, e2) = bind-eq-ok (send_all node plan deployer items (sent.1)) _ e1 in
      subst (λ (x : List Text × W). AreSent (item ∷ items) w (x.0) (x.1)) (ok-injective e2)
        (then_send (send_one-IsSent item w sent q1) (send_all-AreSent items (sent.1) rest q2))
