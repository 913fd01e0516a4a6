-- ===== src/Graph/Complete.antt =====
-- `cycles_for_affected` (python/src/arb_bot/event_graph.py) misses no cycle.
use base_arb_bot.Graph.{PoolMetadata, Cycle, cycle_key, LivePoolGraph, listed, pool_at, other_token}
use base_arb_bot.Graph.Cycles.{normalize_all, two_hops, close_two, from_mid, cycles_for_affected}
use base_arb_bot.Graph.Walk.{IsCycle}
use base_arb_bot.Graph.Search.{IsStart, is_start, close_two-Returns, extend_hop-Returns}
use base_arb_bot.Graph.Reach.{
  HasKey, Holds, Holds-record_cycle, leads_to-other_token, watched-of-starts, Finds, keeps_any,
  keeps_found, neighbours-Finds, cycles_for_affected-HasKey,
}
use base_arb_bot.Graph.Index.{IsIndexed}
use base_arb_bot.Graph.Lookup.{IsStored, listed-IsStored}
use base_arb_bot.Prelude.{ℕ, true, false, List, ltb, ok, some, ◌≡◌, inl, inr, arith, Bool-cases}
use base_arb_bot.Prelude.Text.{Text, text_eq, text_eq_iff, is_empty}
use base_arb_bot.Prelude.Dict.{Dict, get, mem, sorted}
use base_arb_bot.Prelude.Loop.{Returns, returns, bind-Returns, for_each, for_each-Returns}

module _ (graph : LivePoolGraph) (inv : IsIndexed graph) (affected : List Text) (max_hops : ℕ) where
  close_two-Finds :
      (p1 p2 : PoolMetadata) (start mid : Text) (cycles : Dict Cycle)
      → get (p2.address) (graph.pools) ≡ some p2
      → text_eq (p2.address) (p1.address) ≡ false
      → other_token p2 mid ≡ some start
      → Returns
          (λ d. Unit {0} × Holds (cycle_key (two_hops p1 p2 start mid)) d)
          (close_two (graph.pools) (graph.token_to_pools) p1 start mid (p2.address) cycles)
  unfolding close_two pool_at
  close_two-Finds p1 p2 start mid cycles stored apart hop =
      rw (apart, stored, leads_to-other_token p2 mid start hop)
        (returns _ _ (tt, Holds-record_cycle (two_hops p1 p2 start mid) cycles))

  -- In an indexed graph, for affected addresses that are well formed: the key of every two-hop
  -- cycle, through a token that is not empty, is among those of the cycles returned.
  pub cycles_for_affected-two_hops :
      (addresses : List Text) (p1 p2 : PoolMetadata) (start mid : Text)
      → normalize_all addresses ≡ ok affected
      → IsCycle (graph.pools) affected max_hops (two_hops p1 p2 start mid)
      → is_empty mid ≡ false
      → Returns
          (HasKey (cycle_key (two_hops p1 p2 start mid)))
          (cycles_for_affected graph addresses max_hops)
  unfolding from_mid
  cycles_for_affected-two_hops addresses p1 p2 start mid norm cycle filled =
      cycles_for_affected-HasKey graph inv affected max_hops k addresses p1 start mid norm
        (cycle.stored.0) watched (cycle.walks.0)
        (λ c. rw (filled) (
          bind-Returns _ (first_loop c) (λ found h. elim (Bool-cases (ltb max_hops 3)) [
            | inl two ↦ rw (two) (returns _ found h)
            | inr three ↦ rw (three) (
                for_each-Returns (IsStored (graph.pools)) (λ d. Unit {0} × Holds k d) _
                  (λ a d st hd.
                    extend_hop-Returns graph inv affected max_hops (λ e. Unit {0} × Holds k e)
                      (keeps_found graph inv affected max_hops k) p1 start mid a d s (cycle.walks.0)
                      three st hd)
                  (sorted (listed (graph.token_to_pools) mid)) found (listed-IsStored graph mid inv)
                  h)
          ])))
    where
      k : Text
      k = cycle_key (two_hops p1 p2 start mid)

      watched : mem (p1.address) affected ≡ true
      watched = watched-of-starts (p1.address) affected (cycle.starts)

      apart : text_eq (p2.address) (p1.address) ≡ false
      apart =
          unfold mem in
          ground (
            arith,
            cycle.distinct,
            text_eq_iff (p1.address) (p2.address),
            text_eq_iff (p2.address) (p1.address),
          )

      s : IsStart (graph.pools) affected p1
      s = is_start (graph.pools) affected p1 (cycle.stored.0) watched

      first_loop :
          (c : Dict Cycle)
          → Finds graph inv affected max_hops k (
              for_each
                (sorted (listed (graph.token_to_pools) mid))
                (close_two (graph.pools) (graph.token_to_pools) p1 start mid)
                c)
      first_loop c =
          neighbours-Finds graph inv affected max_hops k mid start p2 _ c
            (λ a d st u.
              close_two-Returns graph inv affected max_hops (λ e. Unit {0})
                (keeps_any graph inv affected max_hops k) p1 start mid a d s (cycle.walks.0) st tt)
            (λ a d st u h.
              close_two-Returns graph inv affected max_hops (λ e. Unit {0} × Holds k e)
                (keeps_found graph inv affected max_hops k) p1 start mid a d s (cycle.walks.0) st
                (tt, h))
            (λ d. close_two-Finds p1 p2 start mid d (cycle.stored.1.0) apart (cycle.walks.1.0))
            (cycle.stored.1.0) (cycle.walks.1.0)
