-- ===== src/Route/Evaluate.antt =====
-- The evaluation of a cycle: `RouteOptimizer.evaluate_cycle` and `reject_affected` of
-- python/src/arb_bot/route_engine.py.
use base_arb_bot.Finalize.{Reply, canonical_venue, ExecutionFinalization}
use base_arb_bot.Finalize.Run.{finalize}
use base_arb_bot.Graph.{PoolMetadata, Cycle, LivePoolGraph, Graph, address_of, cycle_key}
use base_arb_bot.Graph.Cycles.{cycles_for_affected}
use base_arb_bot.Batch.{CandidateDict}
use base_arb_bot.Route.Quotes.{Scalar, Quote, find_adapter}
use base_arb_bot.Route.Optimize.{Optimizer, BalanceMap, sorted_set, optimize_size}
use base_arb_bot.Prelude.{
  ℕ, zero, suc, ◌+◌, Bool, true, false, ◌&&◌, List, [], ◌∷◌, ◌++◌, map, if◌then◌else◌, ok, ◌>>=◌,
  Option, none, some,
}
use base_arb_bot.Prelude.Text.{Text, codes, text_eq}
use base_arb_bot.Prelude.Int.{ℤ, pos, ◌-ℤ◌, leb_ℤ}
use base_arb_bot.Prelude.Dict.{Dict}
use base_arb_bot.Route.Candidate.{Finalizer, packed_candidate_dict}

-- `execution`: what the finalizer returned, and the packed candidate.
pub record Execution : Type 0 where
  pub final : ExecutionFinalization
  pub packed_candidate : Option CandidateDict

pub record RouteEvaluation : Type 0 where
  pub route_id : Text
  pub pools : List Text
  pub tokens : List Text
  pub amount_in : Option ℕ
  pub amount_out : Option ℕ
  pub gross_profit_units : Option ℤ
  pub quote_block_numbers : List (Option ℕ)
  pub quote_gas_units : Option ℕ
  pub ev_ready : Bool
  pub submission_eligible : Bool
  pub blockers : List Text
  pub quote_metadata : List (Dict Scalar)
  pub execution : Option Execution

-- `sha256_hex` is the digest of a text, in hexadecimal.
pub record Engine : Type 0 where
  pub sha256_hex : Text → Text
  pub optimizer : Optimizer
  pub finalizer : Option Finalizer
  pub observed_block : Option ℕ
  pub max_route_hops : ℕ

abbrev pub amount_out_of : Quote → ℕ
amount_out_of quote = quote.amount_out

abbrev pub block_number_of : Quote → Option ℕ
block_number_of quote = quote.block_number

abbrev pub metadata_of : Quote → Dict Scalar
metadata_of quote = quote.metadata

-- An evaluation without quotes.
abbrev pub rejected : Engine → Cycle → List Text → RouteEvaluation
rejected engine cycle blockers = record {
  route_id = codes "0x" ++ engine.sha256_hex (cycle_key cycle);
  pools = map address_of (cycle.pools);
  tokens = cycle.tokens;
  amount_in = none;
  amount_out = none;
  gross_profit_units = none;
  quote_block_numbers = [];
  quote_gas_units = none;
  ev_ready = false;
  submission_eligible = false;
  blockers = blockers;
  quote_metadata = [];
  execution = none;
}

-- The blockers of a pool, in front of the rest.
unfoldable pub pool_blockers : Engine → PoolMetadata → List Text
pool_blockers engine pool =
    let canonical = canonical_venue (pool.venue) in
    missing_adapter canonical (find_adapter (engine.optimizer.adapters) (pool.venue))
    ++ (if text_eq canonical (codes "uniswap-v3")
        then missing_flag (codes "missing_pool_fee:") (pool.fee)
        else [])
    ++ (if text_eq canonical (codes "aerodrome")
        then missing_flag (codes "missing_stable_flag:") (pool.stable)
        else [])
  where
    missing_adapter : {A : Type 0} → Text → Option A → List Text
    missing_adapter canonical none = (codes "missing_adapter:" ++ canonical) ∷ []
    missing_adapter canonical (some adapter) = []

    missing_flag : {A : Type 0} → Text → Option A → List Text
    missing_flag reason none = (reason ++ pool.address) ∷ []
    missing_flag reason (some flag) = []

unfoldable pub cycle_blockers : Engine → List PoolMetadata → List Text
cycle_blockers engine [] = []
cycle_blockers engine (pool ∷ pools) = pool_blockers engine pool ++ cycle_blockers engine pools

abbrev pub add_gas : Option ℕ → Option ℕ → Option ℕ
add_gas none total = none
add_gas (some gas) none = none
add_gas (some gas) (some total) = some (gas + total)

-- The sum of the quotes' gas, where each is known.
unfoldable pub gas_units : List Quote → Option ℕ
gas_units [] = some 0
gas_units (quote ∷ quotes) = add_gas (quote.gas_estimate) (gas_units quotes)

module _ (engine : Engine) (cycle : Cycle) where
  -- The evaluation of quoted amounts, with what the execution says.
  abbrev pub evaluation :
      ℕ → ℕ → List Quote → Bool → Bool → List Text → Option Execution → RouteEvaluation
  evaluation amount_in amount_out quotes ev_ready submission_eligible blockers execution = record {
    route_id = codes "0x" ++ engine.sha256_hex (cycle_key cycle);
    pools = map address_of (cycle.pools);
    tokens = cycle.tokens;
    amount_in = some amount_in;
    amount_out = some amount_out;
    gross_profit_units = some (pos amount_out -ℤ pos amount_in);
    quote_block_numbers = map block_number_of quotes;
    quote_gas_units = gas_units quotes;
    ev_ready = ev_ready;
    submission_eligible = submission_eligible;
    blockers = sorted_set blockers;
    quote_metadata = map metadata_of quotes;
    execution = execution;
  }

  abbrev pub is_some : {A : Type 0} → Option A → Bool
  is_some none = false
  is_some (some a) = true

  abbrev pub finalized :
      ℕ
      → ℕ
      → List Quote
      → List Text
      → ExecutionFinalization
      → Option CandidateDict
      → RouteEvaluation
  finalized amount_in amount_out quotes blockers final packed =
      evaluation amount_in amount_out quotes
        (is_some (final.deterministic_net_profit_units) && final.simulation_success)
        (final.submission_eligible) (blockers ++ final.blockers)
        (some record { final = final; packed_candidate = packed })

  unfoldable pub execute : Option Finalizer → ℕ → ℕ → List Quote → List Text → Reply RouteEvaluation
  execute none amount_in amount_out quotes blockers = ok (
      evaluation amount_in amount_out quotes false false
        (blockers ++ (codes "execution_finalizer_unavailable" ∷ [])) none)
  execute (some f) amount_in amount_out quotes blockers = do
    final ←
        finalize (f.outside) (f.settings) (f.graph) cycle amount_in amount_out
          (map amount_out_of quotes) (engine.observed_block)
    packed ← packed_candidate_dict f cycle amount_in amount_out quotes final
    ok (finalized amount_in amount_out quotes blockers final packed)

  unfoldable pub on_amounts : Option (ℕ × ℕ) → List Quote → List Text → Reply RouteEvaluation
  on_amounts none quotes blockers = ok (rejected engine cycle (sorted_set blockers))
  on_amounts (some (amount_in, amount_out)) quotes blockers =
      if leb_ℤ (pos amount_out -ℤ pos amount_in) (pos 0)
      then ok (
          evaluation amount_in amount_out quotes false false
            (blockers ++ (codes "non_positive_gross_profit" ∷ [])) none)
      else execute (engine.finalizer) amount_in amount_out quotes blockers

  unfoldable pub on_blockers : List Text → BalanceMap → Reply RouteEvaluation
  on_blockers (b ∷ blockers) balances = ok (rejected engine cycle (sorted_set (b ∷ blockers)))
  on_blockers [] balances = do
    sized ← optimize_size (engine.optimizer) cycle balances
    on_amounts (sized.amounts) (sized.quotes) (sized.blockers)

  unfoldable pub evaluate_cycle : BalanceMap → Reply RouteEvaluation
  evaluate_cycle = on_blockers (cycle_blockers engine (cycle.pools))

-- `max_hops or settings.max_route_hops`
abbrev pub hops_or : Option ℕ → ℕ → ℕ
hops_or none setting = setting
hops_or (some zero) setting = setting
hops_or (some (suc n)) setting = suc n

unfoldable pub reject_affected :
    Engine → LivePoolGraph → List Text → List Text → Option ℕ → Graph (List RouteEvaluation)
reject_affected engine graph affected blockers max_hops = do
  cycles ← cycles_for_affected graph affected (hops_or max_hops (engine.max_route_hops))
  ok (map (λ cycle. rejected engine cycle (sorted_set blockers)) cycles)
