-- ===== src/Batch/Profit.antt =====
-- A packed batch that may be submitted pays (python/src/arb_bot/batch_execution.py).
use base_arb_bot.Batch.{Row, Kept, PackedBatchPlan, compatible_groups, packed_reply}
use base_arb_bot.Batch.Trim.{
  Pass, finished, trimmed, no_plan, try_rows, trimmed_blocker, trim_from, finalize_group,
  finalize_groups, finalize_packed, batch_of, to_candidates,
}
use base_arb_bot.Finalize.{Settings, Reply, Outside}
use base_arb_bot.Graph.{LivePoolGraph}
use base_arb_bot.Packed.{PackedCandidate, encode_packed_batch}
use base_arb_bot.Prelude.{
  ℕ, zero, suc, true, List, [], ◌∷◌, ◌++◌, length, take, take-length, ok, min, max, ◌≡◌, refl, sym,
  ap, subst, ◌∙◌, bind-eq-ok, ok-injective,
}
use base_arb_bot.Prelude.Text.{Text}
use base_arb_bot.Batch.Priced.{IsPriced, Pays, Pays-map, on_simulated-Pays}

module _ (outside : Outside) (sha256 : Text → Text)
    (encode_start_packed : Text → List ℕ → Reply (Text × Text)) (settings : Settings)
    (graph : LivePoolGraph) where
  -- The plan's calldata is the encoded batch of the rows, and its call is priced.
  pub record IsSent (row : Kept) (rows : List Kept) (plan : PackedBatchPlan) : Type 0 where
    pub candidates : List PackedCandidate
    pub packed : List ℕ
    pub encoded : Text × Text
    pub sender : Text
    pub to : Text
    pub candidates_eq :
        to_candidates outside sha256 encode_start_packed settings graph (row ∷ rows) ≡ ok candidates
    pub packed_eq :
        packed_reply (
          encode_packed_batch
            (batch_of outside sha256 encode_start_packed settings graph (row.candidate) candidates))
        ≡ ok packed
    pub encoded_eq : encode_start_packed (settings.executor_address) packed ≡ ok encoded
    pub sender_eq : outside.checksum (settings.executor_owner_address) ≡ ok sender
    pub to_eq : outside.checksum (settings.executor_address) ≡ ok to
    pub priced :
        IsPriced outside sha256 encode_start_packed settings graph row rows
          (row.candidate.asset)
          encoded
          (record { sender = sender; to = to; call_data = encoded.0 })
          plan

  -- The rows are the first of the first compatible group, and the plan is for them.
  pub record IsProfitable (packed_max_candidates : ℕ) (evaluations : List Row)
      (plan : PackedBatchPlan) : Type 0 where
    pub group : List Kept
    pub groups : List (List Kept)
    pub row : Kept
    pub rows : List Kept
    pub kept : ℕ
    pub grouped : compatible_groups evaluations ≡ group ∷ groups
    pub first_rows : take (max 1 (min packed_max_candidates 8)) group ≡ row ∷ rows
    pub sent : IsSent row (take kept rows) plan

  try_rows-Pays :
      (row : Kept) (rows : List Kept) (blockers : List Text) (pass : Pass)
      → try_rows outside sha256 encode_start_packed settings graph row rows blockers ≡ ok pass
      → Pays (IsSent row rows) pass
  unfolding try_rows
  try_rows-Pays row rows blockers pass e =
      let (candidates, q1, e1) =
        bind-eq-ok (to_candidates outside sha256 encode_start_packed settings graph (row ∷ rows)) _
          e in
      let (packed, q2, e2) =
        bind-eq-ok
          (packed_reply (
            encode_packed_batch (
              batch_of outside sha256 encode_start_packed settings graph (row.candidate)
                candidates)))
          _ e1 in
      let (encoded, q3, e3) =
        bind-eq-ok (encode_start_packed (settings.executor_address) packed) _ e2 in
      let (sender, q4, e4) = bind-eq-ok (outside.checksum (settings.executor_owner_address)) _ e3 in
      let (to, q5, e5) = bind-eq-ok (outside.checksum (settings.executor_address)) _ e4 in
      Pays-map pass
        (λ plan priced. record {
          candidates = candidates;
          packed = packed;
          encoded = encoded;
          sender = sender;
          to = to;
          candidates_eq = q1;
          packed_eq = q2;
          encoded_eq = q3;
          sender_eq = q4;
          to_eq = q5;
          priced = priced;
        })
        (on_simulated-Pays outside sha256 encode_start_packed settings graph encoded
          (batch_of outside sha256 encode_start_packed settings graph (row.candidate) candidates)
          row rows blockers (record { sender = sender; to = to; call_data = encoded.0 }) _ pass refl
          e5)

  refused_plan :
      (P : PackedBatchPlan → Type 0) (blockers : List Text) (plan : PackedBatchPlan)
      → ◌≡◌ {A = Reply PackedBatchPlan} (ok (no_plan blockers)) (ok plan)
      → plan.submission_eligible ≡ true
      → P plan
  unfolding no_plan
  refused_plan P blockers plan e h =
      absurd (cc (ap (λ q. q.submission_eligible) (ok-injective {E = Text} e), h))

  -- A plan for some of the first of the rows.
  record IsTrimmed (row : Kept) (rows : List Kept) (plan : PackedBatchPlan) : Type 0 where
    count : ℕ
    trimmed_sent : IsSent row (take count rows) plan

  trim_from-IsTrimmed :
      (n : ℕ) (row : Kept) (rows : List Kept) (blockers : List Text) (pass : Pass)
      (plan : PackedBatchPlan)
      → Pays (IsTrimmed row rows) pass
      → trim_from outside sha256 encode_start_packed settings graph n row rows blockers pass
        ≡ ok plan
      → plan.submission_eligible ≡ true
      → IsTrimmed row rows plan
  unfolding trim_from
  trim_from-IsTrimmed n row rows blockers (finished p) plan pays e h =
      subst (IsTrimmed row rows) (ok-injective e)
        (pays (ap (λ q. q.submission_eligible) (ok-injective e) ∙ h))
  trim_from-IsTrimmed zero row rows blockers trimmed plan pays e h =
      refused_plan (IsTrimmed row rows) _ plan e h
  trim_from-IsTrimmed (suc n) row rows blockers trimmed plan pays e h =
      let kept =
        blockers
        ++ (trimmed_blocker outside sha256 encode_start_packed settings graph row
              (take (suc n) rows)
            ∷ []) in
      let (pass, q, e1) =
        bind-eq-ok
          (try_rows outside sha256 encode_start_packed settings graph row (take n rows) (
            blockers
            ++ (trimmed_blocker outside sha256 encode_start_packed settings graph row
                  (take (suc n) rows)
                ∷ [])))
          _ e in
      trim_from-IsTrimmed n row rows kept pass plan
        (Pays-map pass (λ p s. record { count = n; trimmed_sent = s })
          (try_rows-Pays row (take n rows) kept pass q))
        e1 h

  group-IsTrimmed :
      (row : Kept) (rows : List Kept) (plan : PackedBatchPlan)
      → finalize_group outside sha256 encode_start_packed settings graph (row ∷ rows) ≡ ok plan
      → plan.submission_eligible ≡ true
      → IsTrimmed row rows plan
  unfolding finalize_group
  group-IsTrimmed row rows plan e h =
      let (pass, q, e1) =
        bind-eq-ok (try_rows outside sha256 encode_start_packed settings graph row rows []) _ e in
      trim_from-IsTrimmed (length rows) row rows [] pass plan
        (Pays-map pass
          (λ p s. record {
            count = length rows;
            trimmed_sent = subst (λ rs. IsSent row rs p) (sym (take-length rows)) s;
          })
          (try_rows-Pays row rows [] pass q))
        e1 h

  -- If the packed finalizer returns a plan that may be submitted, then the plan is for the first
  -- rows of the first compatible group, at least one and at most the configured number or 8; its
  -- calldata is the encoded batch of their candidates, and the call with it was simulated with
  -- success; and the least of their minimum profits less the converted fee, gas at the node's price
  -- and the bound of the L1 fee, which it reports as its net profit, is positive.
  pub finalize_packed-IsProfitable :
      (packed_max_candidates : ℕ) (evaluations : List Row) (plan : PackedBatchPlan)
      → finalize_packed outside sha256 encode_start_packed settings graph packed_max_candidates
          evaluations
        ≡ ok plan
      → plan.submission_eligible ≡ true
      → IsProfitable packed_max_candidates evaluations plan
  unfolding finalize_packed finalize_groups finalize_group
  finalize_packed-IsProfitable packed_max_candidates evaluations plan e h =
      by_groups (compatible_groups evaluations) refl e
    where
      by_rows :
          (group : List Kept) (groups : List (List Kept)) (rows : List Kept)
          → compatible_groups evaluations ≡ group ∷ groups
          → take (max 1 (min packed_max_candidates 8)) group ≡ rows
          → finalize_group outside sha256 encode_start_packed settings graph rows ≡ ok plan
          → IsProfitable packed_max_candidates evaluations plan
      by_rows group groups [] g t q =
          refused_plan (IsProfitable packed_max_candidates evaluations) _ plan q h
      by_rows group groups (row ∷ rows) g t q =
          let trim = group-IsTrimmed row rows plan q h in
          record {
            group = group;
            groups = groups;
            row = row;
            rows = rows;
            kept = trim.count;
            grouped = g;
            first_rows = t;
            sent = trim.trimmed_sent;
          }

      by_groups :
          (groups : List (List Kept))
          → compatible_groups evaluations ≡ groups
          → finalize_groups outside sha256 encode_start_packed settings graph packed_max_candidates
              groups
            ≡ ok plan
          → IsProfitable packed_max_candidates evaluations plan
      by_groups [] g q = refused_plan (IsProfitable packed_max_candidates evaluations) _ plan q h
      by_groups (rows ∷ groups) g q =
          let (u, opened, q1) = bind-eq-ok (outside.open_runtime) _ q in
          by_rows rows groups (take (max 1 (min packed_max_candidates 8)) rows) g refl q1
