-- ===== src/Route/About.antt =====
-- Which cycle a row of python/src/arb_bot/route_engine.py is about.
use base_arb_bot.Finalize.{Reply}
use base_arb_bot.Finalize.Run.{finalize}
use base_arb_bot.Graph.{Cycle, address_of, cycle_key}
use base_arb_bot.Route.Quotes.{Quote}
use base_arb_bot.Route.Optimize.{BalanceMap, optimize_size}
use base_arb_bot.Route.Candidate.{Finalizer, packed_candidate_dict}
use base_arb_bot.Route.Evaluate.{
  RouteEvaluation, Engine, amount_out_of, evaluation, execute, on_amounts, on_blockers,
  evaluate_cycle, cycle_blockers,
}
use base_arb_bot.Route.Affected.{within_time}
use base_arb_bot.Prelude.{
  ℕ, Bool, true, false, List, [], ◌∷◌, ◌++◌, map, if◌then◌else◌, ok, Option, none, some, ◌≡◌, refl,
  subst, bind-eq-ok, ok-injective,
}
use base_arb_bot.Prelude.Text.{Text, codes}
use base_arb_bot.Prelude.Int.{pos, ◌-ℤ◌, leb_ℤ}

module _ (engine : Engine) (cycle : Cycle) where
  -- The row names the cycle: its digest, its pools and its tokens.
  pub record IsAbout (row : RouteEvaluation) : Type 0 where
    pub route_id_eq : row.route_id ≡ codes "0x" ++ engine.sha256_hex (cycle_key cycle)
    pub pools_eq : row.pools ≡ map address_of (cycle.pools)
    pub tokens_eq : row.tokens ≡ cycle.tokens

  -- A row that was returned.
  returned-IsAbout :
      (x row : RouteEvaluation)
      → IsAbout x
      → ◌≡◌ {A = Reply RouteEvaluation} (ok x) (ok row)
      → IsAbout row
  returned-IsAbout x row h e = subst IsAbout (ok-injective {E = Text} e) h

  execute-IsAbout :
      (f : Option Finalizer) (amount_in amount_out : ℕ) (quotes : List Quote) (blockers : List Text)
      (row : RouteEvaluation)
      → execute engine cycle f amount_in amount_out quotes blockers ≡ ok row
      → IsAbout row
  unfolding execute
  execute-IsAbout none amount_in amount_out quotes blockers row e =
      returned-IsAbout _ row (record { route_id_eq = refl; pools_eq = refl; tokens_eq = refl }) e
  execute-IsAbout (some f) amount_in amount_out quotes blockers row e =
      let (final, e1, e2) =
        bind-eq-ok
          (finalize (f.outside) (f.settings) (f.graph) cycle amount_in amount_out
            (map amount_out_of quotes) (engine.observed_block))
          _ e in
      let (packed, e3, e4) =
        bind-eq-ok (packed_candidate_dict f cycle amount_in amount_out quotes final) _ e2 in
      returned-IsAbout _ row (record { route_id_eq = refl; pools_eq = refl; tokens_eq = refl }) e4

  on_amounts-IsAbout :
      (amounts : Option (ℕ × ℕ)) (quotes : List Quote) (blockers : List Text)
      (row : RouteEvaluation)
      → on_amounts engine cycle amounts quotes blockers ≡ ok row
      → IsAbout row
  unfolding on_amounts
  on_amounts-IsAbout none quotes blockers row e =
      returned-IsAbout _ row (record { route_id_eq = refl; pools_eq = refl; tokens_eq = refl }) e
  on_amounts-IsAbout (some (a, b)) quotes blockers row e =
      by_test (leb_ℤ (pos b -ℤ pos a) (pos 0)) e
    where
      by_test :
          (t : Bool)
          → (if t
              then ok (
                  evaluation engine cycle a b quotes false false
                    (blockers ++ (codes "non_positive_gross_profit" ∷ []))
                    none)
              else execute engine cycle (engine.finalizer) a b quotes blockers)
            ≡ ok row
          → IsAbout row
      by_test true e' =
          returned-IsAbout _ row (record { route_id_eq = refl; pools_eq = refl; tokens_eq = refl })
            e'
      by_test false e' = execute-IsAbout (engine.finalizer) a b quotes blockers row e'

  on_blockers-IsAbout :
      (blockers : List Text) (balances : BalanceMap) (row : RouteEvaluation)
      → on_blockers engine cycle blockers balances ≡ ok row
      → IsAbout row
  unfolding on_blockers
  on_blockers-IsAbout (b ∷ blockers) balances row e =
      returned-IsAbout _ row (record { route_id_eq = refl; pools_eq = refl; tokens_eq = refl }) e
  on_blockers-IsAbout [] balances row e =
      let (sized, e1, e2) = bind-eq-ok (optimize_size (engine.optimizer) cycle balances) _ e in
      on_amounts-IsAbout (sized.amounts) (sized.quotes) (sized.blockers) row e2

  pub within_time-IsAbout :
      (late : Bool) (balances : BalanceMap) (row : RouteEvaluation)
      → within_time late engine cycle (evaluate_cycle engine cycle balances) ≡ ok row
      → IsAbout row
  unfolding evaluate_cycle
  within_time-IsAbout true balances row e =
      returned-IsAbout _ row (record { route_id_eq = refl; pools_eq = refl; tokens_eq = refl }) e
  within_time-IsAbout false balances row e =
      on_blockers-IsAbout (cycle_blockers engine (cycle.pools)) balances row e
