-- ===== src/Route/Traded.antt =====
-- An evaluation that may be submitted is of a profitable cycle that the finalizer accepted.
use base_arb_bot.Finalize.{Reply, ExecutionFinalization}
use base_arb_bot.Finalize.Run.{finalize}
use base_arb_bot.Finalize.Eligible.{IsPaid}
use base_arb_bot.Finalize.Gates.{finalize-IsPaid}
use base_arb_bot.Graph.{Cycle}
use base_arb_bot.Batch.{CandidateDict}
use base_arb_bot.Route.Quotes.{Quote}
use base_arb_bot.Route.Optimize.{BalanceMap, optimize_size}
use base_arb_bot.Route.Candidate.{Finalizer, packed_candidate_dict}
use base_arb_bot.Route.Evaluate.{
  RouteEvaluation, Engine, amount_out_of, evaluation, finalized, execute, on_amounts, on_blockers,
  evaluate_cycle, cycle_blockers,
}
use base_arb_bot.Prelude.{
  ℕ, ◌<◌, Bool, true, false, List, [], ◌∷◌, ◌++◌, map, if◌then◌else◌, ok, Option, none, some, ◌≡◌,
  refl, sym, ap, ◌∙◌, bind-eq-ok, ok-injective, arith,
}
use base_arb_bot.Prelude.Text.{Text, codes}
use base_arb_bot.Prelude.Int.{pos, ◌-ℤ◌, leb_ℤ}

module _ (engine : Engine) (cycle : Cycle) where
  -- The trade that an evaluation stands for.
  pub record IsTraded (ev : RouteEvaluation) : Type 0 where
    pub finalizer : Finalizer
    pub amount_in : ℕ
    pub amount_out : ℕ
    pub quotes : List Quote
    pub final : ExecutionFinalization
    pub packed : Option CandidateDict
    pub enabled : engine.finalizer ≡ some finalizer
    pub gain : amount_in < amount_out
    pub reported_in : ev.amount_in ≡ some amount_in
    pub reported_out : ev.amount_out ≡ some amount_out
    pub paid :
        IsPaid
          (finalizer.outside)
          (finalizer.settings)
          (finalizer.graph)
          cycle
          amount_in
          amount_out
          (map amount_out_of quotes)
          (engine.observed_block)
          final
    pub returned :
        finalize
          (finalizer.outside)
          (finalizer.settings)
          (finalizer.graph)
          cycle
          amount_in
          amount_out
          (map amount_out_of quotes)
          (engine.observed_block)
        ≡ ok final
    pub candidate :
        packed_candidate_dict finalizer cycle amount_in amount_out quotes final ≡ ok packed
    pub executed : ev.execution ≡ some record { final = final; packed_candidate = packed }

  pos_gain : (a b : ℕ) → leb_ℤ (pos b -ℤ pos a) (pos 0) ≡ false → a < b
  unfolding ◌-ℤ◌
  pos_gain a b h = ground (arith)

  execute-IsTraded :
      (f : Option Finalizer) (amount_in amount_out : ℕ) (quotes : List Quote) (blockers : List Text)
      (ev : RouteEvaluation)
      → engine.finalizer ≡ f
      → amount_in < amount_out
      → execute engine cycle f amount_in amount_out quotes blockers ≡ ok ev
      → ev.submission_eligible ≡ true
      → IsTraded ev
  unfolding execute
  execute-IsTraded none amount_in amount_out quotes blockers ev q g e h =
      absurd (cc (ap (λ (x : RouteEvaluation). x.submission_eligible) (ok-injective e), h))
  execute-IsTraded (some f) amount_in amount_out quotes blockers ev q g e h =
      let (final, e1, e2) =
        bind-eq-ok
          (finalize (f.outside) (f.settings) (f.graph) cycle amount_in amount_out
            (map amount_out_of quotes) (engine.observed_block))
          _ e in
      let (packed, e3, e4) =
        bind-eq-ok (packed_candidate_dict f cycle amount_in amount_out quotes final) _ e2 in
      traded final packed e1 e3 (ok-injective e4)
    where
      traded :
          (final : ExecutionFinalization) (packed : Option CandidateDict)
          → finalize
              (f.outside)
              (f.settings)
              (f.graph)
              cycle
              amount_in
              amount_out
              (map amount_out_of quotes)
              (engine.observed_block)
            ≡ ok final
          → packed_candidate_dict f cycle amount_in amount_out quotes final ≡ ok packed
          → finalized engine cycle amount_in amount_out quotes blockers final packed ≡ ev
          → IsTraded ev
      traded final packed e1 e3 e4 = record {
        finalizer = f;
        amount_in = amount_in;
        amount_out = amount_out;
        quotes = quotes;
        final = final;
        packed = packed;
        enabled = q;
        gain = g;
        reported_in = ap (λ (x : RouteEvaluation). x.amount_in) (sym e4);
        reported_out = ap (λ (x : RouteEvaluation). x.amount_out) (sym e4);
        paid =
            finalize-IsPaid (f.outside) (f.settings) (f.graph) cycle amount_in amount_out
              (map amount_out_of quotes) (engine.observed_block) final e1
              (ap (λ (x : RouteEvaluation). x.submission_eligible) e4 ∙ h);
        returned = e1;
        candidate = e3;
        executed = ap (λ (x : RouteEvaluation). x.execution) (sym e4);
      }

  refused :
      (x ev : RouteEvaluation)
      → x.submission_eligible ≡ false
      → ◌≡◌ {A = Reply RouteEvaluation} (ok x) (ok ev)
      → ev.submission_eligible ≡ true
      → IsTraded ev
  refused x ev n e h =
      absurd
        (cc (ap (λ (y : RouteEvaluation). y.submission_eligible) (ok-injective {E = Text} e), n, h))

  on_amounts-IsTraded :
      (amounts : Option (ℕ × ℕ)) (quotes : List Quote) (blockers : List Text) (ev : RouteEvaluation)
      → on_amounts engine cycle amounts quotes blockers ≡ ok ev
      → ev.submission_eligible ≡ true
      → IsTraded ev
  unfolding on_amounts
  on_amounts-IsTraded none quotes blockers ev e h = refused _ ev refl e h
  on_amounts-IsTraded (some (a, b)) quotes blockers ev e h =
      by_test (leb_ℤ (pos b -ℤ pos a) (pos 0)) refl e
    where
      by_test :
          (t : Bool)
          → leb_ℤ (pos b -ℤ pos a) (pos 0) ≡ t
          → (if t
              then ok (
                  evaluation engine cycle a b quotes false false
                    (blockers ++ (codes "non_positive_gross_profit" ∷ []))
                    none)
              else execute engine cycle (engine.finalizer) a b quotes blockers)
            ≡ ok ev
          → IsTraded ev
      by_test true q e' = refused _ ev refl e' h
      by_test false q e' =
          execute-IsTraded (engine.finalizer) a b quotes blockers ev refl (pos_gain a b q) e' h

  on_blockers-IsTraded :
      (blockers : List Text) (balances : BalanceMap) (ev : RouteEvaluation)
      → on_blockers engine cycle blockers balances ≡ ok ev
      → ev.submission_eligible ≡ true
      → IsTraded ev
  unfolding on_blockers
  on_blockers-IsTraded (b ∷ blockers) balances ev e h = refused _ ev refl e h
  on_blockers-IsTraded [] balances ev e h =
      let (sized, e1, e2) = bind-eq-ok (optimize_size (engine.optimizer) cycle balances) _ e in
      on_amounts-IsTraded (sized.amounts) (sized.quotes) (sized.blockers) ev e2 h

  -- An evaluation that says it may be submitted has a finalizer; the amount out that it reports is
  -- more than the amount in; and the finalizer, called with the cycle and these amounts, went
  -- through every gate and returned the execution that it reports, with its packed candidate.
  pub evaluate_cycle-IsTraded :
      (balances : BalanceMap) (ev : RouteEvaluation)
      → evaluate_cycle engine cycle balances ≡ ok ev
      → ev.submission_eligible ≡ true
      → IsTraded ev
  unfolding evaluate_cycle
  evaluate_cycle-IsTraded balances ev e h =
      on_blockers-IsTraded (cycle_blockers engine (cycle.pools)) balances ev e h
