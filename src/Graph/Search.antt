-- ===== src/Graph/Search.antt =====
-- The search for cycles (python/src/arb_bot/event_graph.py): its loops return, and keep what
-- each cycle found keeps.
use base_arb_bot.Graph.{PoolMetadata, Cycle, hops, LivePoolGraph, listed, other_token}
use base_arb_bot.Graph.Cycles.{
  record_cycle, two_hops, three_hops, leads_to, close_two, close_three, extend_from, extend_hop,
  from_mid, from_token, from_start, from_pool,
}
use base_arb_bot.Graph.Walk.{IsCycle}
use base_arb_bot.Graph.Index.{IsIndexed}
use base_arb_bot.Graph.Lookup.{IsStored, pool_at-Returns, listed-IsStored}
use base_arb_bot.Prelude.{
  ℕ, true, false, ◌||◌, List, [], ◌∷◌, ltb, Option, none, some, ◌≡◌, refl, ap, ◌∙◌, inl, inr, arith,
  Bool-cases,
}
use base_arb_bot.Prelude.Text.{Text, text_eq, text_eq_iff, is_empty}
use base_arb_bot.Prelude.Dict.{Dict, get, mem, sorted}
use base_arb_bot.Prelude.Loop.{Returns, returns, bind-Returns, for_each-Returns}

-- A first hop: an affected registered pool.
pub record IsStart (pools : Dict PoolMetadata) (affected : List Text) (p1 : PoolMetadata)
    : Type 0 where
  pub stored : get (p1.address) pools ≡ some p1
  pub watched : mem (p1.address) affected ≡ true

module _ (graph : LivePoolGraph) (inv : IsIndexed graph) (affected : List Text) (max_hops : ℕ) where
  leads_to-token :
      (p : PoolMetadata) (t u : Text) → leads_to p t u ≡ true → other_token p t ≡ some u
  unfolding leads_to
  leads_to-token p t u = by_token (other_token p t)
    where
      by_token :
          (o : Option Text) → elim o [ none ↦ false | some v ↦ text_eq v u ] ≡ true → o ≡ some u
      by_token none h = cc
      by_token (some v) h = ap some ((text_eq_iff v u).0 h)

  two_hops-IsCycle :
      (p1 p2 : PoolMetadata) (start mid : Text)
      → IsStart (graph.pools) affected p1
      → get (p2.address) (graph.pools) ≡ some p2
      → text_eq (p2.address) (p1.address) ≡ false
      → other_token p1 start ≡ some mid
      → leads_to p2 mid start ≡ true
      → IsCycle (graph.pools) affected max_hops (two_hops p1 p2 start mid)
  unfolding mem hops
  two_hops-IsCycle p1 p2 start mid s stored apart hop1 hop2 = record {
    walks = (hop1, (leads_to-token p2 mid start hop2, refl));
    closes = refl;
    stored = (s.stored, (stored, tt));
    distinct =
        ground
          (arith, text_eq_iff (p1.address) (p2.address), text_eq_iff (p2.address) (p1.address));
    hop_count = inl refl;
    starts = (p1.address, refl, s.watched);
  }

  restored :
      (a : Text) (p : PoolMetadata)
      → get a (graph.pools) ≡ some p
      → get (p.address) (graph.pools) ≡ some p
  restored a p e = ap (λ x. get x (graph.pools)) (inv.keyed a p e) ∙ e

  another :
      (a : Text) (p q : PoolMetadata)
      → get a (graph.pools) ≡ some p
      → text_eq a (q.address) ≡ false
      → text_eq (p.address) (q.address) ≡ false
  another a p q e apart = ap (λ x. text_eq x (q.address)) (inv.keyed a p e) ∙ apart

  three_hops-IsCycle :
      (p1 p2 p3 : PoolMetadata) (start mid third : Text)
      → IsStart (graph.pools) affected p1
      → get (p2.address) (graph.pools) ≡ some p2
      → get (p3.address) (graph.pools) ≡ some p3
      → text_eq (p2.address) (p1.address) ≡ false
      → text_eq (p3.address) (p1.address) ≡ false
      → text_eq (p3.address) (p2.address) ≡ false
      → other_token p1 start ≡ some mid
      → other_token p2 mid ≡ some third
      → leads_to p3 third start ≡ true
      → ltb max_hops 3 ≡ false
      → IsCycle (graph.pools) affected max_hops (three_hops p1 p2 p3 start mid third)
  unfolding mem hops
  three_hops-IsCycle p1 p2 p3 start mid third s stored2 stored3 d21 d31 d32 hop1 hop2 hop3 three =
      record {
        walks = (hop1, (hop2, (leads_to-token p3 third start hop3, refl)));
        closes = refl;
        stored = (s.stored, (stored2, (stored3, tt)));
        distinct = ground (
          arith,
          text_eq_iff (p1.address) (p2.address),
          text_eq_iff (p2.address) (p1.address),
          text_eq_iff (p1.address) (p3.address),
          text_eq_iff (p3.address) (p1.address),
          text_eq_iff (p2.address) (p3.address),
          text_eq_iff (p3.address) (p2.address),
        );
        hop_count = inr (refl, three);
        starts = (p1.address, refl, s.watched);
      }

pub is_start :
    (pools : Dict PoolMetadata) (affected : List Text) (p1 : PoolMetadata)
    → get (p1.address) pools ≡ some p1
    → mem (p1.address) affected ≡ true
    → IsStart pools affected p1
is_start pools affected p1 e m = record { stored = e; watched = m }

-- Whatever holds of the dict of cycles, and that a further cycle keeps, the search keeps; and the
-- search returns.
module _ {κ} (graph : LivePoolGraph) (inv : IsIndexed graph) (affected : List Text) (max_hops : ℕ)
    (I : Dict Cycle → Type κ)
    (keeps : (c : Cycle) (cycles : Dict Cycle)
      → IsCycle (graph.pools) affected max_hops c
      → I cycles
      → I (record_cycle c cycles)) where
  pub close_two-Returns :
      (p1 : PoolMetadata) (start mid a : Text) (cycles : Dict Cycle)
      → IsStart (graph.pools) affected p1
      → other_token p1 start ≡ some mid
      → IsStored (graph.pools) a
      → I cycles
      → Returns I (close_two (graph.pools) (graph.token_to_pools) p1 start mid a cycles)
  unfolding close_two
  close_two-Returns p1 start mid a cycles s hop1 stored i =
      elim (Bool-cases (text_eq a (p1.address))) [
        | inl same ↦ rw (same) (returns I cycles i)
        | inr apart ↦ rw (apart) (
            bind-Returns _ (pool_at-Returns (graph.pools) a stored) (λ p2 e.
              elim (Bool-cases (leads_to p2 mid start)) [
                | inl closed ↦ rw (closed) (
                    returns I (record_cycle (two_hops p1 p2 start mid) cycles) (
                      keeps (two_hops p1 p2 start mid) cycles
                        (two_hops-IsCycle graph inv affected max_hops p1 p2 start mid s
                          (restored graph inv affected max_hops a p2 e)
                          (another graph inv affected max_hops a p2 p1 e apart) hop1 closed)
                        i))
                | inr ends ↦ rw (ends) (returns I cycles i)
              ]))
      ]

  pub close_three-Returns :
      (p1 p2 : PoolMetadata) (start mid third a : Text) (cycles : Dict Cycle)
      → IsStart (graph.pools) affected p1
      → get (p2.address) (graph.pools) ≡ some p2
      → text_eq (p2.address) (p1.address) ≡ false
      → other_token p1 start ≡ some mid
      → other_token p2 mid ≡ some third
      → ltb max_hops 3 ≡ false
      → IsStored (graph.pools) a
      → I cycles
      → Returns I (close_three (graph.pools) (graph.token_to_pools) p1 p2 start mid third a cycles)
  unfolding close_three
  close_three-Returns p1 p2 start mid third a cycles s stored2 d21 hop1 hop2 three stored i =
      elim (Bool-cases (text_eq a (p1.address) || text_eq a (p2.address))) [
        | inl same ↦ rw (same) (returns I cycles i)
        | inr apart ↦ rw (apart) (
            bind-Returns _ (pool_at-Returns (graph.pools) a stored) (λ p3 e.
              elim (Bool-cases (leads_to p3 third start)) [
                | inl closed ↦ rw (closed) (
                    returns I (record_cycle (three_hops p1 p2 p3 start mid third) cycles) (
                      keeps (three_hops p1 p2 p3 start mid third) cycles
                        (three_hops-IsCycle graph inv affected max_hops p1 p2 p3 start mid third s
                          stored2 (restored graph inv affected max_hops a p3 e) d21
                          (another graph inv affected max_hops a p3 p1 e (ground arith))
                          (another graph inv affected max_hops a p3 p2 e (ground arith)) hop1 hop2
                          closed three)
                        i))
                | inr ends ↦ rw (ends) (returns I cycles i)
              ]))
      ]

  pub extend_from-Returns :
      (p1 p2 : PoolMetadata) (start mid : Text) (o : Option Text) (cycles : Dict Cycle)
      → IsStart (graph.pools) affected p1
      → get (p2.address) (graph.pools) ≡ some p2
      → text_eq (p2.address) (p1.address) ≡ false
      → other_token p1 start ≡ some mid
      → other_token p2 mid ≡ o
      → ltb max_hops 3 ≡ false
      → I cycles
      → Returns I (extend_from (graph.pools) (graph.token_to_pools) p1 p2 start mid o cycles)
  unfolding extend_from
  extend_from-Returns p1 p2 start mid none cycles s stored2 d21 hop1 hop2 three i =
      returns I cycles i
  extend_from-Returns p1 p2 start mid (some third) cycles s stored2 d21 hop1 hop2 three i =
      elim (Bool-cases (is_empty third || text_eq third start)) [
        | inl stop ↦ rw (stop) (returns I cycles i)
        | inr go ↦ rw (go) (
            for_each-Returns (IsStored (graph.pools)) I _
              (λ a c st ic.
                close_three-Returns p1 p2 start mid third a c s stored2 d21 hop1 hop2 three st ic)
              (sorted (listed (graph.token_to_pools) third)) cycles
              (listed-IsStored graph third inv) i)
      ]

  pub extend_hop-Returns :
      (p1 : PoolMetadata) (start mid a : Text) (cycles : Dict Cycle)
      → IsStart (graph.pools) affected p1
      → other_token p1 start ≡ some mid
      → ltb max_hops 3 ≡ false
      → IsStored (graph.pools) a
      → I cycles
      → Returns I (extend_hop (graph.pools) (graph.token_to_pools) p1 start mid a cycles)
  unfolding extend_hop
  extend_hop-Returns p1 start mid a cycles s hop1 three stored i =
      elim (Bool-cases (text_eq a (p1.address))) [
        | inl same ↦ rw (same) (returns I cycles i)
        | inr apart ↦ rw (apart) (
            bind-Returns _ (pool_at-Returns (graph.pools) a stored) (λ p2 e.
              extend_from-Returns p1 p2 start mid (other_token p2 mid) cycles s
                (restored graph inv affected max_hops a p2 e)
                (another graph inv affected max_hops a p2 p1 e apart) hop1 refl three i))
      ]

  pub from_mid-Returns :
      (p1 : PoolMetadata) (start : Text) (o : Option Text) (cycles : Dict Cycle)
      → IsStart (graph.pools) affected p1
      → other_token p1 start ≡ o
      → I cycles
      → Returns I (from_mid (graph.pools) (graph.token_to_pools) max_hops p1 start o cycles)
  unfolding from_mid
  from_mid-Returns p1 start none cycles s hop1 i = returns I cycles i
  from_mid-Returns p1 start (some mid) cycles s hop1 i = elim (Bool-cases (is_empty mid)) [
    | inl stop ↦ rw (stop) (returns I cycles i)
    | inr go ↦ rw (go) (
        bind-Returns _
          (for_each-Returns (IsStored (graph.pools)) I _
            (λ a c st ic. close_two-Returns p1 start mid a c s hop1 st ic)
            (sorted (listed (graph.token_to_pools) mid)) cycles (listed-IsStored graph mid inv) i)
          (λ found j. elim (Bool-cases (ltb max_hops 3)) [
            | inl two ↦ rw (two) (returns I found j)
            | inr three ↦ rw (three) (
                for_each-Returns (IsStored (graph.pools)) I _
                  (λ a c st ic. extend_hop-Returns p1 start mid a c s hop1 three st ic)
                  (sorted (listed (graph.token_to_pools) mid)) found (listed-IsStored graph mid inv)
                  j)
          ]))
  ]

  pub from_pool-Returns :
      (a : Text) (cycles : Dict Cycle)
      → mem a affected ≡ true
      → I cycles
      → Returns I (from_pool (graph.pools) (graph.token_to_pools) max_hops a cycles)
  unfolding from_pool from_start from_token
  from_pool-Returns a cycles m i = by_entry (get a (graph.pools)) refl
    where
      by_entry :
          (o : Option PoolMetadata)
          → get a (graph.pools) ≡ o
          → Returns I (from_start (graph.pools) (graph.token_to_pools) max_hops o cycles)
      by_entry none e = returns I cycles i
      by_entry (some p1) e =
          for_each-Returns (λ t. t ≡ t) I _
            (λ t c q ic. from_mid-Returns p1 t (other_token p1 t) c start refl ic)
            (p1.token0 ∷ p1.token1 ∷ []) cycles (refl, (refl, tt)) i
        where
          start : IsStart (graph.pools) affected p1
          start = record {
            stored = restored graph inv affected max_hops a p1 e;
            watched = ap (λ x. mem x affected) (inv.keyed a p1 e) ∙ m;
          }
