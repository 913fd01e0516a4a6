-- ===== src/Graph/Lookup.antt =====
-- The lookups of the graph (python/src/arb_bot/event_graph.py): by token, and the subgraph that a
-- changed pool affects.
use base_arb_bot.Graph.{
  PoolMetadata, address_of, LivePoolGraph, listed, found_at, pool_at, pools_at, pools_for_token,
  normalize_address, affected_subgraph, subgraph_of, update,
}
use base_arb_bot.Graph.Index.{IsIndexed, trades_at}
use base_arb_bot.Prelude.{
  true, false, ◌||◌, List, [], ◌∷◌, map, ok, Option, none, some, ◌≡◌, refl, sym, ap, ap₂, ◌∙◌,
  arith, All,
}
use base_arb_bot.Prelude.Text.{Text, text_eq}
use base_arb_bot.Prelude.Dict.{
  Dict, get, mem, add, sorted, unique, mem-add, mem-unique, mem-sorted, All-of-mem,
}
use base_arb_bot.Prelude.Loop.{Returns, returns, Returns-map, bind-Returns}

-- A pool is stored under the address.
abbrev pub IsStored : Dict PoolMetadata → Text → Type 0
IsStored pools a = (p : PoolMetadata) × (get a pools ≡ some p)

pub IsStored-of-trades :
    (pools : Dict PoolMetadata) (a u : Text) → trades_at (get a pools) u ≡ true → IsStored pools a
IsStored-of-trades pools a u = by_entry (get a pools)
  where
    by_entry : (o : Option PoolMetadata) → trades_at o u ≡ true → (p : PoolMetadata) × (o ≡ some p)
    by_entry none h = absurd_false (unfold trades_at in h)
      where
        absurd_false : false ≡ true → (p : PoolMetadata) × (none ≡ some p)
        absurd_false e = cc
    by_entry (some p) h = (p, refl)

pub pool_at-Returns :
    (pools : Dict PoolMetadata) (a : Text)
    → IsStored pools a
    → Returns (λ p. get a pools ≡ some p) (pool_at pools a)
unfolding pool_at
pool_at-Returns pools a (p, e) = record {
  value = p;
  returned = ap (λ o. found_at a o) e;
  holds = e;
}

-- The listed addresses of a token are stored.
pub listed-IsStored :
    (graph : LivePoolGraph) (u : Text)
    → IsIndexed graph
    → All (IsStored (graph.pools)) (sorted (listed (graph.token_to_pools) u))
listed-IsStored graph u inv =
    All-of-mem (IsStored (graph.pools)) (sorted (listed (graph.token_to_pools) u)) (λ a m.
      IsStored-of-trades (graph.pools) a u
        (sym (inv.indexed a u) ∙ sym (mem-sorted a (listed (graph.token_to_pools) u)) ∙ m))

pub pools_at-Returns :
    (graph : LivePoolGraph) (xs : List Text)
    → IsIndexed graph
    → All (IsStored (graph.pools)) xs
    → Returns
        (λ ps. All (λ p. get (p.address) (graph.pools) ≡ some p) ps × (map address_of ps ≡ xs))
        (pools_at (graph.pools) xs)
unfolding pools_at
pools_at-Returns graph [] inv stored = returns _ [] (tt, refl)
pools_at-Returns graph (a ∷ xs) inv stored =
    bind-Returns _ (pool_at-Returns (graph.pools) a stored.0) (λ p e.
      bind-Returns _ (pools_at-Returns graph xs inv stored.1) (λ ps h. returns _ (p ∷ ps) (
        (ap (λ x. get x (graph.pools)) (inv.keyed a p e) ∙ e, h.0),
        ap₂ (λ x y. x ∷ y) (inv.keyed a p e) h.1,
      )))

-- In an indexed graph, for a token whose address is well formed, `pools_for_token` returns (it
-- raises no KeyError): pools of the graph, and the ones that trade the token and no others.
pub pools_for_token-trades :
    (graph : LivePoolGraph) (token key : Text)
    → IsIndexed graph
    → normalize_address token ≡ ok key
    → Returns
        (λ ps.
          All (λ p. get (p.address) (graph.pools) ≡ some p) ps
          × ((a : Text) → mem a (map address_of ps) ≡ trades_at (get a (graph.pools)) key))
        (pools_for_token graph token)
unfolding pools_for_token
pools_for_token-trades graph token key inv e = rw e (
    Returns-map
      (λ ps h.
        (h.0, λ a. rw (h.1, mem-sorted a (listed (graph.token_to_pools) key)) (inv.indexed a key)))
      (pools_at-Returns graph (sorted (listed (graph.token_to_pools) key)) inv
        (listed-IsStored graph key inv)))

mem-update : (a : Text) (xs s : List Text) → mem a (update xs s) ≡ (mem a s || mem a xs)
unfolding mem update
mem-update a [] s = ground (arith)
mem-update a (x ∷ xs) s = ground (arith, mem-update a xs (add x s), mem-add x a s)

-- In an indexed graph, the subgraph that a registered pool affects is the pool itself and
-- the pools that trade one of its two tokens, and its tokens are the pool's two.
pub affected_subgraph-known :
    (graph : LivePoolGraph) (changed key : Text) (pool : PoolMetadata)
    → IsIndexed graph
    → normalize_address changed ≡ ok key
    → get key (graph.pools) ≡ some pool
    → Returns
        (λ s.
          (s.known_pool ≡ true)
          × (s.changed_pool ≡ key)
          × ((t : Text)
              → mem t (s.affected_tokens) ≡ (text_eq (pool.token0) t || text_eq (pool.token1) t))
          × ((a : Text)
              → mem a (s.affected_pools) ≡ (
                  text_eq key a
                  || trades_at (get a (graph.pools)) (pool.token0)
                  || trades_at (get a (graph.pools)) (pool.token1))))
        (affected_subgraph graph changed)
unfolding affected_subgraph subgraph_of
affected_subgraph-known graph changed key pool inv norm known =
    rw (norm, known)
      (returns _ _ (
        refl,
        refl,
        (λ t. mem-sorted t (unique (pool.token0 ∷ pool.token1 ∷ [])) ∙ mem-unique t _ ∙ pair t),
        (λ a.
            rw
              (
                mem-sorted a (
                    update (listed (graph.token_to_pools) (pool.token1))
                      (update (listed (graph.token_to_pools) (pool.token0)) (key ∷ []))),
                mem-update a (listed (graph.token_to_pools) (pool.token1))
                    (update (listed (graph.token_to_pools) (pool.token0)) (key ∷ [])),
                mem-update a (listed (graph.token_to_pools) (pool.token0)) (key ∷ []),
                inv.indexed a (pool.token0),
                inv.indexed a (pool.token1),
              )
              (unfold mem in ground (arith))),
      ))
  where
    pair :
        (t : Text)
        → mem t (pool.token0 ∷ pool.token1 ∷ [])
          ≡ (text_eq (pool.token0) t || text_eq (pool.token1) t)
    pair t = unfold mem in ground (arith)
