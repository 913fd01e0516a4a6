-- ===== src/Route/Rows.antt =====
-- The rows of `evaluate_affected` (python/src/arb_bot/route_engine.py) and the cycles that they
-- stand for.
use base_arb_bot.Finalize.{Reply}
use base_arb_bot.Graph.{Cycle, LivePoolGraph, GraphError}
use base_arb_bot.Graph.Cycles.{cycles_for_affected}
use base_arb_bot.Route.Optimize.{BalanceMap}
use base_arb_bot.Route.Rings.{dedup_cycles}
use base_arb_bot.Route.Dedup.{IsDeduped, deduped}
use base_arb_bot.Route.Evaluate.{RouteEvaluation, Engine, evaluate_cycle, hops_or}
use base_arb_bot.Route.About.{IsAbout, within_time-IsAbout}
use base_arb_bot.Route.Traded.{IsTraded, evaluate_cycle-IsTraded}
use base_arb_bot.Route.Affected.{
  prefetch_balances, within_time, evaluate_all, evaluate_cycles, of_graph, of_reply,
  evaluate_affected,
}
use base_arb_bot.Prelude.{
  ℕ, Bool, true, false, List, [], ◌∷◌, Result, ok, err, Option, ◌≡◌, ap, subst, bind-eq-ok,
  ok-injective,
}
use base_arb_bot.Prelude.Text.{Text}

of_graph-ok : {A : Type 0} (m : Result GraphError A) (a : A) → of_graph m ≡ ok a → m ≡ ok a
of_graph-ok (ok b) a e = ap ok (ok-injective e)
of_graph-ok (err b) a e = absurd cc

of_reply-ok : {A : Type 0} (m : Reply A) (a : A) → of_reply m ≡ ok a → m ≡ ok a
of_reply-ok (ok b) a e = ap ok (ok-injective e)
of_reply-ok (err b) a e = absurd cc

module _ (engine : Engine) where
  -- The rows name the cycles, one for one and in their order, and those that may be submitted
  -- stand for a trade of their cycle.
  abbrev pub AreRows : List Cycle → List RouteEvaluation → Type 0
  AreRows [] [] = Unit
  AreRows [] (row ∷ rows) = ⊥
  AreRows (cycle ∷ cycles) [] = ⊥
  AreRows (cycle ∷ cycles) (row ∷ rows) =
      IsAbout engine cycle row
      × (row.submission_eligible ≡ true → IsTraded engine cycle row)
      × AreRows cycles rows

  within_time-IsTraded :
      (late : Bool) (cycle : Cycle) (balances : BalanceMap) (row : RouteEvaluation)
      → within_time late engine cycle (evaluate_cycle engine cycle balances) ≡ ok row
      → row.submission_eligible ≡ true
      → IsTraded engine cycle row
  within_time-IsTraded true cycle balances row e h =
      absurd (cc (ap (λ (y : RouteEvaluation). y.submission_eligible) (ok-injective e), h))
  within_time-IsTraded false cycle balances row e h =
      evaluate_cycle-IsTraded engine cycle balances row e h

  evaluate_all-AreRows :
      (times_out : Cycle → Bool) (balances : BalanceMap) (cycles : List Cycle)
      (rows : List RouteEvaluation)
      → evaluate_all engine times_out balances cycles ≡ ok rows
      → AreRows cycles rows
  unfolding evaluate_all
  evaluate_all-AreRows times_out balances [] rows e = subst (AreRows []) (ok-injective e) tt
  evaluate_all-AreRows times_out balances (cycle ∷ cycles) rows e =
      let (row, e1, e2) =
        bind-eq-ok
          (within_time (times_out cycle) engine cycle (evaluate_cycle engine cycle balances)) _ e in
      let (rest, e3, e4) = bind-eq-ok (evaluate_all engine times_out balances cycles) _ e2 in
      subst (AreRows (cycle ∷ cycles)) (ok-injective e4) (
        within_time-IsAbout engine cycle (times_out cycle) balances row e1,
        within_time-IsTraded (times_out cycle) cycle balances row e1,
        evaluate_all-AreRows times_out balances cycles rest e3,
      )

  -- What the rows of affected pools are.
  pub record AreAffected (graph : LivePoolGraph) (affected : List Text) (max_hops : Option ℕ)
      (rows : List RouteEvaluation) : Type 0 where
    pub cycles : List Cycle
    pub kept : List Cycle
    pub enumerated :
        cycles_for_affected graph affected (hops_or max_hops (engine.max_route_hops)) ≡ ok cycles
    pub dedup : IsDeduped cycles kept
    pub evaluated : AreRows kept rows

  by_cycles :
      (times_out : Cycle → Bool) (graph : LivePoolGraph) (affected : List Text)
      (max_hops : Option ℕ) (rows : List RouteEvaluation) (cycles : List Cycle)
      → cycles_for_affected graph affected (hops_or max_hops (engine.max_route_hops)) ≡ ok cycles
      → evaluate_cycles engine times_out cycles ≡ ok rows
      → AreAffected graph affected max_hops rows
  unfolding evaluate_cycles
  by_cycles times_out graph affected max_hops rows cycles q e =
      let (kept, e1, e2) = bind-eq-ok (dedup_cycles cycles) _ e in
      let (balances, e3, e4) = bind-eq-ok (prefetch_balances (engine.optimizer) kept) _ e2 in
      record {
        cycles = cycles;
        kept = kept;
        enumerated = q;
        dedup = deduped cycles kept e1;
        evaluated = evaluate_all-AreRows times_out balances kept rows e4;
      }

  -- If the evaluation of the affected pools returns, then its rows are those of the affected
  -- cycles without repeated rings, one for one and in their order: each row has the digest, the
  -- pools and the tokens of its cycle, also when its evaluation ran out of time, and each row that
  -- may be submitted stands for a trade of its cycle, which the finalizer accepted.
  pub evaluate_affected-AreAffected :
      (times_out : Cycle → Bool) (graph : LivePoolGraph) (affected : List Text)
      (max_hops : Option ℕ) (rows : List RouteEvaluation)
      → evaluate_affected engine times_out graph affected max_hops ≡ ok rows
      → AreAffected graph affected max_hops rows
  unfolding evaluate_affected
  evaluate_affected-AreAffected times_out graph affected max_hops rows e =
      let enumeration =
        cycles_for_affected graph affected (hops_or max_hops (engine.max_route_hops)) in
      let (cycles, e1, e2) = bind-eq-ok (of_graph enumeration) _ e in
      by_cycles times_out graph affected max_hops rows cycles (of_graph-ok enumeration cycles e1)
        (of_reply-ok (evaluate_cycles engine times_out cycles) rows e2)
