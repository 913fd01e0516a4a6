-- ===== src/Graph/Cycles.antt =====
-- `LivePoolGraph.cycles_for_affected` and `load_configured_pools`
-- (python/src/arb_bot/event_graph.py), a function for each of the nested loops.
use base_arb_bot.Graph.{
  PoolMetadata, Graph, duplicate_pool, watchlist_differs, not_an_array, not_an_object,
  normalize_address, create, Cycle, cycle_key, LivePoolGraph, listed, pool_at, other_token,
}
use base_arb_bot.Prelude.{
  ℕ, Bool, true, false, not, ◌&&◌, ◌||◌, List, [], ◌∷◌, ltb, ◌==◌, if◌then◌else◌, ok, err, ◌>>=◌,
  ◌>>◌, guard, Option, none, some,
}
use base_arb_bot.Prelude.Text.{Text, text_eq, is_empty, strip}
use base_arb_bot.Prelude.Int.{ℤ}
use base_arb_bot.Prelude.Dict.{Dict, get, put, values, mem, add, unique, sorted}
use base_arb_bot.Prelude.Loop.{for_each}

-- `[normalize_address(a) for a in addresses]`
unfoldable pub normalize_all : List Text → Graph (List Text)
normalize_all [] = ok []
normalize_all (a ∷ addresses) = do
  x ← normalize_address a
  xs ← normalize_all addresses
  ok (x ∷ xs)

-- `cycles[c.key] = c`
unfoldable pub record_cycle : Cycle → Dict Cycle → Dict Cycle
record_cycle c cycles = put (cycle_key c) c cycles

abbrev pub two_hops : PoolMetadata → PoolMetadata → Text → Text → Cycle
two_hops p1 p2 start mid = record { pools = p1 ∷ p2 ∷ []; tokens = start ∷ mid ∷ start ∷ [] }

abbrev pub three_hops : PoolMetadata → PoolMetadata → PoolMetadata → Text → Text → Text → Cycle
three_hops p1 p2 p3 start mid third = record {
  pools = p1 ∷ p2 ∷ p3 ∷ [];
  tokens = start ∷ mid ∷ third ∷ start ∷ [];
}

-- `self._other_token(pool, token) == start`
unfoldable pub leads_to : PoolMetadata → Text → Text → Bool
leads_to pool token start = elim (other_token pool token) [
  | none ↦ false
  | some t ↦ text_eq t start
]

module _ (pools : Dict PoolMetadata) (token_to_pools : Dict (List Text)) where
  unfoldable pub close_two : PoolMetadata → Text → Text → Text → Dict Cycle → Graph (Dict Cycle)
  close_two p1 start mid p2_addr cycles = if text_eq p2_addr (p1.address) then ok cycles else (do
    p2 ← pool_at pools p2_addr
    ok (if leads_to p2 mid start then record_cycle (two_hops p1 p2 start mid) cycles else cycles))

  unfoldable pub close_three :
      PoolMetadata → PoolMetadata → Text → Text → Text → Text → Dict Cycle → Graph (Dict Cycle)
  close_three p1 p2 start mid third p3_addr cycles =
      if text_eq p3_addr (p1.address) || text_eq p3_addr (p2.address) then ok cycles else (do
        p3 ← pool_at pools p3_addr
        ok (
            if leads_to p3 third start
            then record_cycle (three_hops p1 p2 p3 start mid third) cycles
            else cycles))

  -- The second hop of the 3-hop search: the token it leads to, unless that closes the cycle.
  unfoldable pub extend_from :
      PoolMetadata → PoolMetadata → Text → Text → Option Text → Dict Cycle → Graph (Dict Cycle)
  extend_from p1 p2 start mid none cycles = ok cycles
  extend_from p1 p2 start mid (some third) cycles =
      if is_empty third || text_eq third start
      then ok cycles
      else for_each (sorted (listed token_to_pools third)) (close_three p1 p2 start mid third)
          cycles

  unfoldable pub extend_hop : PoolMetadata → Text → Text → Text → Dict Cycle → Graph (Dict Cycle)
  extend_hop p1 start mid p2_addr cycles =
      if text_eq p2_addr (p1.address)
      then ok cycles
      else (do p2 ← pool_at pools p2_addr; extend_from p1 p2 start mid (other_token p2 mid) cycles)

  unfoldable pub from_mid : ℕ → PoolMetadata → Text → Option Text → Dict Cycle → Graph (Dict Cycle)
  from_mid max_hops p1 start none cycles = ok cycles
  from_mid max_hops p1 start (some mid) cycles = if is_empty mid then ok cycles else (do
    found ← for_each (sorted (listed token_to_pools mid)) (close_two p1 start mid) cycles
    if ltb max_hops 3
        then ok found
        else for_each (sorted (listed token_to_pools mid)) (extend_hop p1 start mid) found)

  unfoldable pub from_token : ℕ → PoolMetadata → Text → Dict Cycle → Graph (Dict Cycle)
  from_token max_hops p1 start cycles = from_mid max_hops p1 start (other_token p1 start) cycles

  unfoldable pub from_start : ℕ → Option PoolMetadata → Dict Cycle → Graph (Dict Cycle)
  from_start max_hops none cycles = ok cycles
  from_start max_hops (some p1) cycles =
      for_each (p1.token0 ∷ p1.token1 ∷ []) (from_token max_hops p1) cycles

  unfoldable pub from_pool : ℕ → Text → Dict Cycle → Graph (Dict Cycle)
  from_pool max_hops address cycles = from_start max_hops (get address pools) cycles

unfoldable pub cycles_for_affected : LivePoolGraph → List Text → ℕ → Graph (List Cycle)
cycles_for_affected graph affected_addresses max_hops = do
  affected ← normalize_all affected_addresses
  cycles ←
      for_each (sorted (unique affected)) (from_pool (graph.pools) (graph.token_to_pools) max_hops)
        []
  ok (values cycles)

-- An entry of the parsed WATCHED_POOLS_JSON: an object with its fields after `str`, or another
-- JSON value. `json.loads` itself is the argument of `load_configured_pools`.
pub data ConfiguredItem : Type 0 where
  object : Text → Text → Text → Text → Text → Option ℤ → Option Bool → ConfiguredItem
  another_value : ConfiguredItem

unfoldable pub load_items : List ConfiguredItem → List Text → Graph (List PoolMetadata × List Text)
load_items [] seen = ok ([], seen)
load_items (another_value ∷ items) seen = err not_an_object
load_items (object address token0 token1 venue pool_type fee stable ∷ items) seen = do
  pool ← create address token0 token1 venue pool_type fee stable
  guard (not (mem (pool.address) seen)) (duplicate_pool (pool.address))
  rest ← load_items items (add (pool.address) seen)
  ok (pool ∷ rest.0, rest.1)

-- `[value for value in values if value.strip()]`
unfoldable pub nonblank : List Text → List Text
nonblank [] = []
nonblank (x ∷ xs) = let rest = nonblank xs in if is_empty (strip x) then rest else x ∷ rest

-- `text.split(",")`
unfoldable pub split_commas : Text → List Text
split_commas [] = [] ∷ []
split_commas (c ∷ s) = let rest = split_commas s in if c == 44 then [] ∷ rest else onto rest
  where
    onto : List Text → List Text
    onto [] = (c ∷ []) ∷ []
    onto (w ∷ ws) = (c ∷ w) ∷ ws

-- `a - b` on sets
unfoldable pub difference : List Text → List Text → List Text
difference [] b = []
difference (x ∷ a) b = let rest = difference a b in if mem x b then rest else x ∷ rest

unfoldable pub load_configured_pools :
    (Text → Graph (Option (List ConfiguredItem))) → Text → Text → Graph (List PoolMetadata)
load_configured_pools loads raw_json watched_addresses =
    if is_empty (strip raw_json) then ok [] else (do
      parsed ← loads raw_json
      items ← array parsed
      loaded ← load_items items []
      watched ← normalize_all (nonblank (split_commas watched_addresses))
      let missing = difference (unique watched) (loaded.1)
      let unwatched = difference (loaded.1) (unique watched)
      guard (is_nil watched || (is_nil missing && is_nil unwatched))
          (watchlist_differs (sorted missing) (sorted unwatched))
      ok (loaded.0))
  where
    array : Option (List ConfiguredItem) → Graph (List ConfiguredItem)
    array none = err not_an_array
    array (some items) = ok items

    is_nil : List Text → Bool
    is_nil [] = true
    is_nil (x ∷ xs) = false
