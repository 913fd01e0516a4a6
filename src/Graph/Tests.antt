-- ===== src/Graph/Tests.antt =====
-- A concrete graph for the theorems on the live pool graph (python/src/arb_bot/event_graph.py).
use base_arb_bot.Graph.{
  PoolMetadata, address_of, normalize_address, hops, cycle_key, LivePoolGraph, empty_graph,
  register, pools_for_token, affected_subgraph, other_token,
}
use base_arb_bot.Graph.Cycles.{normalize_all, two_hops, three_hops, cycles_for_affected}
use base_arb_bot.Graph.Samples.{address_of_digit}
use base_arb_bot.Graph.Walk.{IsCycle}
use base_arb_bot.Graph.Index.{IsIndexed, trades_at, empty-IsIndexed, register-IsIndexed}
use base_arb_bot.Graph.Lookup.{pools_for_token-trades, affected_subgraph-known}
use base_arb_bot.Graph.Sound.{cycles_for_affected-AreCycles}
use base_arb_bot.Graph.Reach.{HasKey}
use base_arb_bot.Graph.Complete.{cycles_for_affected-two_hops}
use base_arb_bot.Graph.CompleteThree.{cycles_for_affected-three_hops}
use base_arb_bot.Prelude.{
  ℕ, true, false, ◌||◌, List, [], ◌∷◌, map, All, ok, none, some, ◌≡◌, refl, inl, inr,
}
use base_arb_bot.Prelude.Text.{Text, codes, text_eq, starts_with, lower, strip, lstrip}
use base_arb_bot.Prelude.Numeral.{int_16}
use base_arb_bot.Prelude.Dict.{get, put, mem}
use base_arb_bot.Prelude.Loop.{Returns}

abbrev pool_of : ℕ → ℕ → ℕ → PoolMetadata
pool_of a t u = record {
  address = address_of_digit a;
  token0 = address_of_digit t;
  token1 = address_of_digit u;
  venue = codes "uniswap-v3";
  pool_type = codes "v3";
  fee = none;
  stable = none;
}

-- Two pools between the tokens 1 and 2, one between 2 and 3 and one between 3 and 1.
abbrev sample_graph : LivePoolGraph
sample_graph =
    register (pool_of 8 3 1)
      (register (pool_of 7 2 3) (register (pool_of 6 1 2) (register (pool_of 5 1 2) empty_graph)))

sample_graph-IsIndexed : IsIndexed sample_graph
sample_graph-IsIndexed = register-IsIndexed (pool_of 8 3 1) _ (
    register-IsIndexed (pool_of 7 2 3) _ (
      register-IsIndexed (pool_of 6 1 2) _
        (register-IsIndexed (pool_of 5 1 2) empty_graph empty-IsIndexed)))

register-IsIndexed_example : IsIndexed (register (pool_of 5 2 3) sample_graph)
register-IsIndexed_example = register-IsIndexed (pool_of 5 2 3) sample_graph sample_graph-IsIndexed

abbrev affected_addresses : List Text
affected_addresses = address_of_digit 5 ∷ []

normalized : normalize_address (address_of_digit 5) ≡ ok (address_of_digit 5)
unfolding normalize_address starts_with lower strip lstrip int_16
normalized = refl

token_normalized : normalize_address (address_of_digit 1) ≡ ok (address_of_digit 1)
unfolding normalize_address starts_with lower strip lstrip int_16
token_normalized = refl

all_normalized : normalize_all affected_addresses ≡ ok affected_addresses
unfolding normalize_all normalize_address starts_with lower strip lstrip int_16
all_normalized = refl

cycles_for_affected-AreCycles_example :
    Returns
      (λ cs. All (IsCycle (sample_graph.pools) affected_addresses 3) cs)
      (cycles_for_affected sample_graph affected_addresses 3)
cycles_for_affected-AreCycles_example =
    cycles_for_affected-AreCycles sample_graph affected_addresses affected_addresses 3
      sample_graph-IsIndexed all_normalized

two_hops-sample :
    IsCycle
      (sample_graph.pools)
      affected_addresses
      3
      (two_hops (pool_of 5 1 2) (pool_of 6 1 2) (address_of_digit 1) (address_of_digit 2))
unfolding other_token text_eq get put mem hops register empty_graph
two_hops-sample = record {
  walks = (refl, (refl, refl));
  closes = refl;
  stored = (refl, (refl, tt));
  distinct = refl;
  hop_count = inl refl;
  starts = (address_of_digit 5, refl, refl);
}

cycles_for_affected-two_hops_example :
    Returns
      (HasKey (
        cycle_key
          (two_hops (pool_of 5 1 2) (pool_of 6 1 2) (address_of_digit 1) (address_of_digit 2))))
      (cycles_for_affected sample_graph affected_addresses 3)
cycles_for_affected-two_hops_example =
    cycles_for_affected-two_hops sample_graph sample_graph-IsIndexed affected_addresses 3
      affected_addresses (pool_of 5 1 2) (pool_of 6 1 2) (address_of_digit 1) (address_of_digit 2)
      all_normalized two_hops-sample refl

three_hops-sample : IsCycle (sample_graph.pools) affected_addresses 3 (
    three_hops
      (pool_of 5 1 2)
      (pool_of 7 2 3)
      (pool_of 8 3 1)
      (address_of_digit 1)
      (address_of_digit 2)
      (address_of_digit 3))
unfolding other_token text_eq get put mem hops register empty_graph
three_hops-sample = record {
  walks = (refl, (refl, (refl, refl)));
  closes = refl;
  stored = (refl, (refl, (refl, tt)));
  distinct = refl;
  hop_count = inr (refl, refl);
  starts = (address_of_digit 5, refl, refl);
}

turns : text_eq (address_of_digit 3) (address_of_digit 1) ≡ false
unfolding text_eq
turns = refl

cycles_for_affected-three_hops_example :
    Returns
      (HasKey (
        cycle_key (
          three_hops
            (pool_of 5 1 2)
            (pool_of 7 2 3)
            (pool_of 8 3 1)
            (address_of_digit 1)
            (address_of_digit 2)
            (address_of_digit 3))))
      (cycles_for_affected sample_graph affected_addresses 3)
cycles_for_affected-three_hops_example =
    cycles_for_affected-three_hops sample_graph sample_graph-IsIndexed affected_addresses 3
      affected_addresses (pool_of 5 1 2) (pool_of 7 2 3) (pool_of 8 3 1) (address_of_digit 1)
      (address_of_digit 2) (address_of_digit 3) all_normalized three_hops-sample refl refl turns
      refl

pools_for_token-trades_example :
    Returns
      (λ ps.
        All (λ p. get (p.address) (sample_graph.pools) ≡ some p) ps
        × ((a : Text)
            → mem a (map address_of ps)
              ≡ trades_at (get a (sample_graph.pools)) (address_of_digit 1)))
      (pools_for_token sample_graph (address_of_digit 1))
pools_for_token-trades_example =
    pools_for_token-trades sample_graph (address_of_digit 1) (address_of_digit 1)
      sample_graph-IsIndexed token_normalized

pool_stored : get (address_of_digit 5) (sample_graph.pools) ≡ some (pool_of 5 1 2)
unfolding get put text_eq register empty_graph
pool_stored = refl

affected_subgraph-known_example :
    Returns
      (λ s.
        (s.known_pool ≡ true)
        × (s.changed_pool ≡ address_of_digit 5)
        × ((t : Text)
            → mem t (s.affected_tokens)
              ≡ (text_eq (address_of_digit 1) t || text_eq (address_of_digit 2) t))
        × ((a : Text)
            → mem a (s.affected_pools) ≡ (
                text_eq (address_of_digit 5) a
                || trades_at (get a (sample_graph.pools)) (address_of_digit 1)
                || trades_at (get a (sample_graph.pools)) (address_of_digit 2))))
      (affected_subgraph sample_graph (address_of_digit 5))
affected_subgraph-known_example =
    affected_subgraph-known sample_graph (address_of_digit 5) (address_of_digit 5) (pool_of 5 1 2)
      sample_graph-IsIndexed normalized pool_stored
