-- ===== src/Graph.antt =====
-- The live pool graph (python/src/arb_bot/event_graph.py): pool metadata, the pool and token
-- indexes, and the enumeration of cycles. Sets of addresses are lists that `add` keeps free of
-- duplicates; the code sorts a set wherever its order could be seen.
pub mod Cycles
pub mod Index
pub mod Lookup
pub mod Walk
pub mod Search
pub mod Sound
pub mod Reach
pub mod Complete
pub mod CompleteThree
pub mod Samples
mod Tests
use base_arb_bot.Prelude.{
  ℕ, ◌+◌, Bool, true, false, not, ◌&&◌, ◌||◌, List, [], ◌∷◌, ◌++◌, length, take, drop, leb, ltb,
  ◌==◌, if◌then◌else◌, Result, ok, err, ◌>>=◌, ◌>>◌, guard, Option, none, some, map,
}
use base_arb_bot.Prelude.Text.{
  Text, codes, text_eq, starts_with, lower, strip, is_blank, is_empty, text_ltb,
}
use base_arb_bot.Prelude.Int.{ℤ}
use base_arb_bot.Prelude.Numeral.{int_16}
use base_arb_bot.Prelude.Dict.{Dict, get, put, values, mem, add, discard, unique, sorted}
use base_arb_bot.Prelude.Loop.{for_each}

pub record PoolMetadata : Type 0 where
  pub address : Text
  pub token0 : Text
  pub token1 : Text
  pub venue : Text
  pub pool_type : Text
  pub fee : Option ℤ
  pub stable : Option Bool

abbrev pub address_of : PoolMetadata → Text
address_of pool = pool.address

-- The exceptions of the module: its ValueErrors, that of `int`, and the KeyError of `pools[p]`.
pub data GraphError : Type 0 where
  invalid_address invalid_literal key_error duplicate_pool : Text → GraphError
  watchlist_differs : List Text → List Text → GraphError
  not_an_array not_an_object : GraphError

abbrev pub Graph : Type 0 → Type 0
Graph = Result GraphError

unfoldable pub normalize_address : Text → Graph Text
normalize_address value =
    let v = lower (strip value) in
    do
      guard (starts_with v (codes "0x") && (length v == 42)) (invalid_address v)
      elim (int_16 (drop 2 v)) [ none ↦ err (invalid_literal v) | some n ↦ ok v ]

unfoldable pub create :
    Text → Text → Text → Text → Text → Option ℤ → Option Bool → Graph PoolMetadata
create address token0 token1 venue pool_type fee stable = do
  a ← normalize_address address
  t0 ← normalize_address token0
  t1 ← normalize_address token1
  ok (record {
    address = a;
    token0 = t0;
    token1 = t1;
    venue = lower (strip venue);
    pool_type = lower (strip pool_type);
    fee = fee;
    stable = stable;
  })

pub record Cycle : Type 0 where
  pub pools : List PoolMetadata
  pub tokens : List Text

unfoldable pub hops : Cycle → ℕ
hops c = length (c.pools)

-- `"|".join(parts)`
unfoldable pub join_bars : List Text → Text
join_bars [] = []
join_bars (x ∷ []) = x
join_bars (x ∷ y ∷ xs) = x ++ codes "|" ++ join_bars (y ∷ xs)

unfoldable pub cycle_key : Cycle → Text
cycle_key c = join_bars (map address_of (c.pools)) ++ codes ":" ++ join_bars (c.tokens)

pub record LivePoolGraph : Type 0 where
  pub pools : Dict PoolMetadata
  pub token_to_pools : Dict (List Text)

unfoldable pub empty_graph : LivePoolGraph
empty_graph = record { pools = []; token_to_pools = [] }

abbrev pub or_empty : Option (List Text) → List Text
or_empty none = []
or_empty (some addresses) = addresses

-- `token_to_pools.get(token, set())`
unfoldable pub listed : Dict (List Text) → Text → List Text
listed index token = or_empty (get token index)

abbrev pub unlist_found : Option (List Text) → Text → Text → Dict (List Text) → Dict (List Text)
unlist_found none address token index = index
unlist_found (some addresses) address token index = put token (discard address addresses) index

-- `token_to_pools.get(token, set()).discard(address)`
unfoldable pub unlist : Text → Text → Dict (List Text) → Dict (List Text)
unlist address token index = unlist_found (get token index) address token index

-- `token_to_pools.setdefault(token, set()).add(address)`
unfoldable pub enlist : Text → Text → Dict (List Text) → Dict (List Text)
enlist address token index = put token (add address (listed index token)) index

-- The index after the entries of the pool that `register` replaces are discarded.
unfoldable pub unlist_pool : Option PoolMetadata → Dict (List Text) → Dict (List Text)
unlist_pool none index = index
unlist_pool (some previous) index =
    unlist (previous.address) (previous.token1) (unlist (previous.address) (previous.token0) index)

unfoldable pub register : PoolMetadata → LivePoolGraph → LivePoolGraph
register pool graph =
    let cleared = unlist_pool (get (pool.address) (graph.pools)) (graph.token_to_pools) in
    record {
      pools = put (pool.address) pool (graph.pools);
      token_to_pools =
          enlist (pool.address) (pool.token1) (enlist (pool.address) (pool.token0) cleared);
    }

unfoldable pub graph_get : LivePoolGraph → Text → Option PoolMetadata
graph_get graph pool_address = elim (normalize_address pool_address) [
  | ok key ↦ get key (graph.pools)
  | err e ↦ none
]

unfoldable pub graph_contains : LivePoolGraph → Text → Bool
graph_contains graph pool_address = elim (graph_get graph pool_address) [
  | none ↦ false
  | some p ↦ true
]

abbrev pub found_at : Text → Option PoolMetadata → Graph PoolMetadata
found_at address none = err (key_error address)
found_at address (some p) = ok p

-- `pools[address]`
unfoldable pub pool_at : Dict PoolMetadata → Text → Graph PoolMetadata
pool_at pools address = found_at address (get address pools)

-- `[pools[p] for p in addresses]`
unfoldable pub pools_at : Dict PoolMetadata → List Text → Graph (List PoolMetadata)
pools_at pools [] = ok []
pools_at pools (a ∷ addresses) = do p ← pool_at pools a; ps ← pools_at pools addresses; ok (p ∷ ps)

unfoldable pub pools_for_token : LivePoolGraph → Text → Graph (List PoolMetadata)
pools_for_token graph token = do
  key ← normalize_address token
  pools_at (graph.pools) (sorted (listed (graph.token_to_pools) key))

unfoldable pub pools_by_addresses : LivePoolGraph → List Text → List PoolMetadata
pools_by_addresses graph [] = []
pools_by_addresses graph (raw ∷ addresses) =
    let rest = pools_by_addresses graph addresses in
    elim (graph_get graph raw) [ none ↦ rest | some p ↦ p ∷ rest ]

-- The dict that `affected_subgraph` returns.
pub record Subgraph : Type 0 where
  pub known_pool : Bool
  pub changed_pool : Text
  pub affected_tokens : List Text
  pub affected_pools : List Text

-- `s.update(xs)`
unfoldable pub update : List Text → List Text → List Text
update [] s = s
update (x ∷ xs) s = update xs (add x s)

unfoldable pub subgraph_of : LivePoolGraph → Text → Option PoolMetadata → Subgraph
subgraph_of graph key none = record {
  known_pool = false;
  changed_pool = key;
  affected_tokens = [];
  affected_pools = [];
}
subgraph_of graph key (some pool) = record {
  known_pool = true;
  changed_pool = key;
  affected_tokens = sorted (unique (pool.token0 ∷ pool.token1 ∷ []));
  affected_pools = sorted (
      update (listed (graph.token_to_pools) (pool.token1))
        (update (listed (graph.token_to_pools) (pool.token0)) (key ∷ [])));
}

unfoldable pub affected_subgraph : LivePoolGraph → Text → Graph Subgraph
affected_subgraph graph changed_pool = do
  key ← normalize_address changed_pool
  ok (subgraph_of graph key (get key (graph.pools)))

-- `_other_token`
unfoldable pub other_token : PoolMetadata → Text → Option Text
other_token pool token =
    if text_eq (pool.token0) token
    then some (pool.token1)
    else (if text_eq (pool.token1) token then some (pool.token0) else none)
