-- ===== src/Route/Optimize.antt =====
-- The size of a cycle: `RouteOptimizer._optimize_size` of python/src/arb_bot/route_engine.py, with
-- a function for what follows each awaited reply.
use base_arb_bot.Finalize.{Reply}
use base_arb_bot.Finalize.Run.{item}
use base_arb_bot.Graph.{PoolMetadata, Cycle}
use base_arb_bot.Route.Sizing.{Choice, candidate_amounts, refine_amounts, pick_best}
use base_arb_bot.Route.Quotes.{
  Quote, QuoteAdapter, Chain, Quoted, quote_cycle, parallel_quotes, supports_batching,
  batched_quotes,
}
use base_arb_bot.Prelude.{
  ℕ, Bool, true, false, ◌&&◌, List, [], ◌∷◌, ◌++◌, ltb, ◌==◌, if◌then◌else◌, ok, err, ◌>>=◌, Option,
  none, some,
}
use base_arb_bot.Prelude.Text.{Text, codes, text_eq}
use base_arb_bot.Prelude.Dict.{Dict, unique, sorted}
use base_arb_bot.Prelude.Numbers.{number_get, number_update}

-- The optimizer's fields, the settings it reads, and the live balances.
pub record Optimizer : Type 0 where
  pub adapters : Dict QuoteAdapter
  pub chain : Chain
  pub max_quote_evaluations : ℕ
  pub size_refinement_points : ℕ
  pub token_balance : Text → Text → Reply ℕ

-- `balance_map`, by token and account.
abbrev pub BalanceMap : Type 0
BalanceMap = List ((Text × Text) × ℕ)

unfoldable pub balance_of : Text → Text → BalanceMap → Option ℕ
balance_of token account [] = none
balance_of token account (((t, a), n) ∷ balances) =
    if text_eq token t && text_eq account a then some n else balance_of token account balances

-- What the optimizer returns: the size with its output if there is one.
pub record Sized : Type 0 where
  pub amounts : Option (ℕ × ℕ)
  pub quotes : List Quote
  pub blockers : List Text

abbrev pub unsized : List Text → Sized
unsized blockers = record { amounts = none; quotes = []; blockers = blockers }

unfoldable pub sorted_set : List Text → List Text
sorted_set xs = sorted (unique xs)

module _ (optimizer : Optimizer) (cycle : Cycle) where
  unfoldable pub live_balance : Option ℕ → Text → PoolMetadata → Reply ℕ
  live_balance none token pool = optimizer.token_balance token (pool.address)
  live_balance (some n) token pool = ok n

  unfoldable pub batching : Bool
  batching = supports_batching (optimizer.adapters) (cycle.pools)

  unfoldable pub batch : List ℕ → Reply (Quoted × List Text)
  batch = batched_quotes (optimizer.adapters) (optimizer.chain) cycle

  unfoldable pub first_round : Bool → List ℕ → Reply (Quoted × List Text)
  first_round true amounts = batch amounts
  first_round false amounts = ok (parallel_quotes (optimizer.adapters) cycle amounts)

  -- The second round over the refined sizes.
  unfoldable pub refine_round : List ℕ → Quoted × List Text → Reply (Quoted × List Text)
  refine_round [] round = ok round
  refine_round (amount ∷ amounts) (quoted, blockers) = do
    extra ← batch (amount ∷ amounts)
    ok (number_update (extra.0) quoted, blockers ++ extra.1)

  unfoldable pub second_round :
      Bool → List ℕ → Option Choice → Quoted × List Text → Reply (Quoted × List Text)
  second_round false amounts best round = ok round
  second_round true amounts none round = ok round
  second_round true amounts (some best) round =
      let points = optimizer.size_refinement_points in
      if ltb 0 points
      then refine_round (refine_amounts amounts (best.amount) points) round
      else ok round

  abbrev pub no_quotes : List Text → List Text
  no_quotes [] = codes "no_live_quotes_returned" ∷ []
  no_quotes (b ∷ blockers) = b ∷ blockers

  abbrev pub sized : ℕ → ℕ × List Quote → List Text → Sized
  sized amount r blockers = record {
    amounts = some (amount, r.0);
    quotes = r.1;
    blockers = sorted_set blockers;
  }

  abbrev pub on_requoted : ℕ → List Text → List Text → Option (ℕ × List Quote) → Sized
  on_requoted amount blockers requote_blockers none =
      unsized
        (sorted_set (blockers ++ requote_blockers ++ (codes "pending_resimulation_failed" ∷ [])))
  on_requoted amount blockers requote_blockers (some r) = sized amount r blockers

  abbrev pub on_resimulated : ℕ → List Text → Reply (ℕ × List Quote) → Sized
  on_resimulated amount blockers (ok r) = sized amount r blockers
  on_resimulated amount blockers (err e) =
      unsized ((codes "pending_resimulation_failed:" ++ e) ∷ [])

  -- The chosen size is quoted again.
  unfoldable pub requote : Bool → Option Choice → List Text → Reply Sized
  requote batched none blockers = ok (unsized (sorted_set (no_quotes blockers)))
  requote true (some best) blockers = do
    again ← batch (best.amount ∷ [])
    ok (on_requoted (best.amount) blockers (again.1) (number_get (best.amount) (again.0)))
  requote false (some best) blockers =
      ok (
        on_resimulated (best.amount) blockers
          (quote_cycle (optimizer.adapters) cycle (best.amount)))

  -- The rounds for a positive balance.
  unfoldable pub quote_rounds : ℕ → Reply Sized
  quote_rounds upper =
      let amounts = candidate_amounts (optimizer.max_quote_evaluations) upper in
      do
        first ← first_round batching amounts
        second ← second_round batching amounts (pick_best (first.0)) first
        requote batching (pick_best (second.0)) (second.1)

  unfoldable pub on_balance : Reply ℕ → Reply Sized
  on_balance (err e) = ok (unsized ((codes "live_balance_query_failed:" ++ e) ∷ []))
  on_balance (ok upper) =
      if upper == 0
      then ok (unsized (codes "first_pool_has_zero_pending_token_balance" ∷ []))
      else quote_rounds upper

  unfoldable pub optimize_size : BalanceMap → Reply Sized
  optimize_size balances = do
    token_in ← item (cycle.tokens) 0
    first_pool ← item (cycle.pools) 0
    on_balance
        (live_balance (balance_of token_in (first_pool.address) balances) token_in first_pool)
