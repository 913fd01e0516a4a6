-- ===== src/Route/Affected.antt =====
-- The evaluation of the cycles that changed pools affect: `_prefetch_balances` and
-- `evaluate_affected` of python/src/arb_bot/route_engine.py. Which evaluations run out of time is
-- an argument.
use base_arb_bot.Finalize.{Reply}
use base_arb_bot.Finalize.Run.{item}
use base_arb_bot.Graph.{Cycle, LivePoolGraph, GraphError}
use base_arb_bot.Graph.Cycles.{cycles_for_affected}
use base_arb_bot.Route.Quotes.{RawCall, supports_batching}
use base_arb_bot.Route.Optimize.{Optimizer, BalanceMap}
use base_arb_bot.Route.Rings.{dedup_cycles}
use base_arb_bot.Route.Evaluate.{RouteEvaluation, Engine, rejected, evaluate_cycle, hops_or}
use base_arb_bot.Prelude.{
  ℕ, zero, suc, ◌-◌, Bool, true, false, ◌&&◌, ◌||◌, List, [], ◌∷◌, ◌++◌, length, take, drop, leb,
  if◌then◌else◌, Result, ok, err, ◌>>=◌, Option, none, some, ◌⊎◌, inl, inr,
}
use base_arb_bot.Prelude.Text.{Text, codes, text_eq, starts_with, lower}
use base_arb_bot.Prelude.Bytes.{from_hex, from_bytes}

abbrev pub Pair : Type 0
Pair = Text × Text

unfoldable pub pair_eq : Pair → Pair → Bool
pair_eq (t, a) (u, b) = text_eq t u && text_eq a b

unfoldable pub mem_pair : Pair → List Pair → Bool
mem_pair p [] = false
mem_pair p (q ∷ pairs) = pair_eq p q || mem_pair p pairs

-- The set of the first tokens and pools; its order does not matter.
unfoldable pub first_pairs : List Cycle → Reply (List Pair)
first_pairs [] = ok []
first_pairs (cycle ∷ cycles) = do
  token ← item (cycle.tokens) 0
  pool ← item (cycle.pools) 0
  pairs ← first_pairs cycles
  ok (if mem_pair (token, pool.address) pairs then pairs else (token, pool.address) ∷ pairs)

unfoldable pub zeros : ℕ → Text
zeros zero = []
zeros (suc n) = 48 ∷ zeros n

-- `text.rjust(width, "0")`
unfoldable pub rjust : ℕ → Text → Text
rjust width text = zeros (width - length text) ++ text

-- `text.removeprefix("0x")`
unfoldable pub remove_0x : Text → Text
remove_0x text = if starts_with text (codes "0x") then drop 2 text else text

-- `bytes.fromhex(text)`, or its ValueError.
abbrev pub from_hex_reply : Option (List ℕ) → Reply (List ℕ)
from_hex_reply none = err (codes "ValueError")
from_hex_reply (some bytes) = ok bytes

unfoldable pub balance_calls : List Pair → Reply (List RawCall)
balance_calls [] = ok []
balance_calls ((token, pool) ∷ pairs) = do
  data_bytes ← from_hex_reply (from_hex (codes "70a08231" ++ rjust 64 (remove_0x (lower pool))))
  calls ← balance_calls pairs
  ok ((token, data_bytes) ∷ calls)

-- The loop over `zip(pairs, results)`.
unfoldable pub read_balances : List Pair → List (Bool × List ℕ) → BalanceMap
read_balances [] results = []
read_balances (pair ∷ pairs) [] = []
read_balances (pair ∷ pairs) ((success, return_data) ∷ results) =
    let rest = read_balances pairs results in
    if success && leb 32 (length return_data)
    then (pair, from_bytes (take 32 return_data)) ∷ rest
    else rest

abbrev pub balances_or_none : List Pair → Reply (List (Bool × List ℕ)) → BalanceMap
balances_or_none pairs (ok results) = read_balances pairs results
balances_or_none pairs (err e) = []

abbrev pub when : Bool → Reply BalanceMap → Reply BalanceMap
when true balances = balances
when false balances = ok []

unfoldable pub prefetch_balances : Optimizer → List Cycle → Reply BalanceMap
prefetch_balances optimizer [] = ok []
prefetch_balances optimizer (cycle ∷ cycles) =
    when (supports_batching (optimizer.adapters) (cycle.pools)) (do
      pairs ← first_pairs (cycle ∷ cycles)
      calls ← balance_calls pairs
      ok (balances_or_none pairs (optimizer.chain.aggregate3 calls)))

abbrev pub within_time : Bool → Engine → Cycle → Reply RouteEvaluation → Reply RouteEvaluation
within_time true engine cycle evaluated =
    ok (rejected engine cycle (codes "route_evaluation_timeout" ∷ []))
within_time false engine cycle evaluated = evaluated

-- The two kinds of exceptions, side by side.
abbrev pub of_graph : {A : Type 0} → Result GraphError A → Result (GraphError ⊎ Text) A
of_graph (ok a) = ok a
of_graph (err e) = err (inl e)

abbrev pub of_reply : {A : Type 0} → Reply A → Result (GraphError ⊎ Text) A
of_reply (ok a) = ok a
of_reply (err e) = err (inr e)

module _ (engine : Engine) (times_out : Cycle → Bool) where
  unfoldable pub evaluate_all : BalanceMap → List Cycle → Reply (List RouteEvaluation)
  evaluate_all balances [] = ok []
  evaluate_all balances (cycle ∷ cycles) = do
    row ← within_time (times_out cycle) engine cycle (evaluate_cycle engine cycle balances)
    rows ← evaluate_all balances cycles
    ok (row ∷ rows)

  unfoldable pub evaluate_cycles : List Cycle → Reply (List RouteEvaluation)
  evaluate_cycles cycles = do
    kept ← dedup_cycles cycles
    balances ← prefetch_balances (engine.optimizer) kept
    evaluate_all balances kept

  unfoldable pub evaluate_affected :
      LivePoolGraph → List Text → Option ℕ → Result (GraphError ⊎ Text) (List RouteEvaluation)
  evaluate_affected graph affected max_hops = do
    cycles ←
        of_graph (cycles_for_affected graph affected (hops_or max_hops (engine.max_route_hops)))
    of_reply (evaluate_cycles cycles)
