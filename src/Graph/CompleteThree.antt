-- ===== src/Graph/CompleteThree.antt =====
-- `cycles_for_affected` (python/src/arb_bot/event_graph.py) misses no cycle.
use base_arb_bot.Graph.{PoolMetadata, Cycle, cycle_key, LivePoolGraph, listed, pool_at, other_token}
use base_arb_bot.Graph.Cycles.{
  normalize_all, three_hops, close_two, close_three, extend_from, extend_hop, from_mid,
  cycles_for_affected,
}
use base_arb_bot.Graph.Walk.{IsCycle}
use base_arb_bot.Graph.Search.{
  IsStart, is_start, close_two-Returns, close_three-Returns, extend_hop-Returns,
}
use base_arb_bot.Graph.Reach.{
  HasKey, Holds, Holds-record_cycle, leads_to-other_token, watched-of-starts, Finds, keeps_any,
  keeps_found, neighbours-Finds, cycles_for_affected-HasKey,
}
use base_arb_bot.Graph.Index.{IsIndexed}
use base_arb_bot.Graph.Lookup.{IsStored, listed-IsStored}
use base_arb_bot.Prelude.{ℕ, true, false, ◌||◌, List, ltb, ok, some, ◌≡◌, arith}
use base_arb_bot.Prelude.Text.{Text, text_eq, text_eq_iff, is_empty}
use base_arb_bot.Prelude.Dict.{Dict, get, mem, sorted}
use base_arb_bot.Prelude.Loop.{Returns, returns, bind-Returns, for_each, for_each-Returns}

module _ (graph : LivePoolGraph) (inv : IsIndexed graph) (affected : List Text) (max_hops : ℕ) where
  close_three-Finds :
      (p1 p2 p3 : PoolMetadata) (start mid third : Text) (cycles : Dict Cycle)
      → get (p3.address) (graph.pools) ≡ some p3
      → (text_eq (p3.address) (p1.address) || text_eq (p3.address) (p2.address)) ≡ false
      → other_token p3 third ≡ some start
      → Returns
          (λ d. Unit {0} × Holds (cycle_key (three_hops p1 p2 p3 start mid third)) d)
          (close_three
            (graph.pools)
            (graph.token_to_pools)
            p1
            p2
            start
            mid
            third
            (p3.address)
            cycles)
  unfolding close_three pool_at
  close_three-Finds p1 p2 p3 start mid third cycles stored apart hop =
      rw (apart, stored, leads_to-other_token p3 third start hop)
        (returns _ _ (tt, Holds-record_cycle (three_hops p1 p2 p3 start mid third) cycles))

  -- The second hop of the search goes on to the third, whose loop finds the cycle.
  extend_hop-Finds :
      (p1 p2 p3 : PoolMetadata) (start mid third : Text) (cycles : Dict Cycle)
      → IsStart (graph.pools) affected p1
      → IsCycle (graph.pools) affected max_hops (three_hops p1 p2 p3 start mid third)
      → is_empty third ≡ false
      → text_eq third start ≡ false
      → ltb max_hops 3 ≡ false
      → Finds graph inv affected max_hops
          (cycle_key (three_hops p1 p2 p3 start mid third))
          (extend_hop (graph.pools) (graph.token_to_pools) p1 start mid (p2.address) cycles)
  unfolding extend_hop pool_at extend_from mem
  extend_hop-Finds p1 p2 p3 start mid third cycles s cycle filled turns three =
      rw (d21, cycle.stored.1.0, cycle.walks.1.0, filled, turns)
        (neighbours-Finds graph inv affected max_hops k third start p3 _ cycles
          (λ a d st u.
            close_three-Returns graph inv affected max_hops (λ e. Unit {0})
              (keeps_any graph inv affected max_hops k) p1 p2 start mid third a d s
              (cycle.stored.1.0) d21 (cycle.walks.0) (cycle.walks.1.0) three st tt)
          (λ a d st u h.
            close_three-Returns graph inv affected max_hops (λ e. Unit {0} × Holds k e)
              (keeps_found graph inv affected max_hops k) p1 p2 start mid third a d s
              (cycle.stored.1.0) d21 (cycle.walks.0) (cycle.walks.1.0) three st (tt, h))
          (λ d.
            close_three-Finds p1 p2 p3 start mid third d (cycle.stored.1.1.0) d3
              (cycle.walks.1.1.0))
          (cycle.stored.1.1.0) (cycle.walks.1.1.0))
    where
      k : Text
      k = cycle_key (three_hops p1 p2 p3 start mid third)

      d21 : text_eq (p2.address) (p1.address) ≡ false
      d21 = ground (
        arith,
        cycle.distinct,
        text_eq_iff (p1.address) (p2.address),
        text_eq_iff (p2.address) (p1.address),
      )

      d3 : (text_eq (p3.address) (p1.address) || text_eq (p3.address) (p2.address)) ≡ false
      d3 = ground (
        arith,
        cycle.distinct,
        text_eq_iff (p1.address) (p3.address),
        text_eq_iff (p3.address) (p1.address),
        text_eq_iff (p2.address) (p3.address),
        text_eq_iff (p3.address) (p2.address),
      )

  -- In an indexed graph, for affected addresses that are well formed and `max_hops` of three or
  -- more: the key of every three-hop cycle, through tokens that are not empty and do not turn back
  -- to the first before the end, is among those of the cycles returned.
  pub cycles_for_affected-three_hops :
      (addresses : List Text) (p1 p2 p3 : PoolMetadata) (start mid third : Text)
      → normalize_all addresses ≡ ok affected
      → IsCycle (graph.pools) affected max_hops (three_hops p1 p2 p3 start mid third)
      → is_empty mid ≡ false
      → is_empty third ≡ false
      → text_eq third start ≡ false
      → ltb max_hops 3 ≡ false
      → Returns
          (HasKey (cycle_key (three_hops p1 p2 p3 start mid third)))
          (cycles_for_affected graph addresses max_hops)
  unfolding from_mid
  cycles_for_affected-three_hops addresses p1 p2 p3 start mid third norm cycle full filled turns
        three =
      cycles_for_affected-HasKey graph inv affected max_hops k addresses p1 start mid norm
        (cycle.stored.0) watched (cycle.walks.0)
        (λ c. rw (full) (
          bind-Returns _ (first_loop c) (λ found h. rw (three) (
            neighbours-Finds graph inv affected max_hops k mid third p2 _ found
              (λ a d st u.
                extend_hop-Returns graph inv affected max_hops (λ e. Unit {0})
                  (keeps_any graph inv affected max_hops k) p1 start mid a d s (cycle.walks.0) three
                  st tt)
              (λ a d st u j.
                extend_hop-Returns graph inv affected max_hops (λ e. Unit {0} × Holds k e)
                  (keeps_found graph inv affected max_hops k) p1 start mid a d s (cycle.walks.0)
                  three st (tt, j))
              (λ d. extend_hop-Finds p1 p2 p3 start mid third d s cycle filled turns three)
              (cycle.stored.1.0) (cycle.walks.1.0)))))
    where
      k : Text
      k = cycle_key (three_hops p1 p2 p3 start mid third)

      watched : mem (p1.address) affected ≡ true
      watched = watched-of-starts (p1.address) affected (cycle.starts)

      s : IsStart (graph.pools) affected p1
      s = is_start (graph.pools) affected p1 (cycle.stored.0) watched

      first_loop :
          (c : Dict Cycle)
          → Returns
              (λ d. Unit {0})
              (for_each
                (sorted (listed (graph.token_to_pools) mid))
                (close_two (graph.pools) (graph.token_to_pools) p1 start mid)
                c)
      first_loop c =
          for_each-Returns (IsStored (graph.pools)) (λ d. Unit {0}) _
            (λ a d st u.
              close_two-Returns graph inv affected max_hops (λ e. Unit {0})
                (keeps_any graph inv affected max_hops k) p1 start mid a d s (cycle.walks.0) st tt)
            (sorted (listed (graph.token_to_pools) mid)) c (listed-IsStored graph mid inv) tt
