-- ===== src/Graph/Reach.antt =====
-- The search of python/src/arb_bot/event_graph.py reaches what a loop lists: lemmas on the keys
-- of the cycles found.
use base_arb_bot.Graph.{PoolMetadata, Graph, Cycle, cycle_key, LivePoolGraph, listed, other_token}
use base_arb_bot.Graph.Cycles.{
  normalize_all, record_cycle, leads_to, from_mid, from_token, from_start, from_pool,
  cycles_for_affected,
}
use base_arb_bot.Graph.Walk.{IsCycle}
use base_arb_bot.Graph.Search.{IsStart, is_start, from_mid-Returns, from_pool-Returns}
use base_arb_bot.Graph.Index.{IsIndexed, trades_at, trades}
use base_arb_bot.Graph.Lookup.{IsStored, listed-IsStored}
use base_arb_bot.Prelude.{
  ℕ, Bool, true, false, ◌||◌, List, [], ◌∷◌, if◌then◌else◌, ok, Option, none, some, ◌≡◌, refl, sym,
  ap, ◌∙◌, ◌⊎◌, inl, inr, arith, Bool-cases,
}
use base_arb_bot.Prelude.Text.{Text, text_eq, text_eq_iff, text_eq_refl}
use base_arb_bot.Prelude.Dict.{
  Dict, get, get-put, values, mem, sorted, unique, mem-sorted, mem-unique, All-of-mem,
}
use base_arb_bot.Prelude.Loop.{Returns, returns, bind-Returns, for_each, for_each-reaches}

-- A cycle with the key is in the list.
abbrev pub HasKey : Text → List Cycle → Type 0
HasKey k [] = true ≡ false
HasKey k (c ∷ cycles) = (cycle_key c ≡ k) ⊎ HasKey k cycles

-- A cycle with the key is stored under it.
abbrev pub Holds : Text → Dict Cycle → Type 0
Holds k cycles = (c : Cycle) × (get k cycles ≡ some c) × (cycle_key c ≡ k)

pub Holds-put :
    (k : Text) (c : Cycle) (cycles : Dict Cycle) → Holds k cycles → Holds k (record_cycle c cycles)
unfolding record_cycle
Holds-put k c cycles (d, e, kd) = elim (Bool-cases (text_eq (cycle_key c) k)) [
  | inl hit ↦
      (c, rw (get-put (cycle_key c) k c cycles, hit) refl, (text_eq_iff (cycle_key c) k).0 hit)
  | inr miss ↦ (d, rw (get-put (cycle_key c) k c cycles, miss) e, kd)
]

pub Holds-record_cycle :
    (c : Cycle) (cycles : Dict Cycle) → Holds (cycle_key c) (record_cycle c cycles)
unfolding record_cycle
Holds-record_cycle c cycles =
    (c, rw (get-put (cycle_key c) (cycle_key c) c cycles, text_eq_refl (cycle_key c)) refl, refl)

pub HasKey-values : (k : Text) (cycles : Dict Cycle) → Holds k cycles → HasKey k (values cycles)
unfolding values get
HasKey-values k [] (d, e, kd) = cc
HasKey-values k ((j, c) ∷ cycles) (d, e, kd) =
    by_test (text_eq j k) e (λ e'. HasKey-values k cycles (d, e', kd))
  where
    by_test :
        (b : Bool)
        → (if b then some c else get k cycles) ≡ some d
        → (get k cycles ≡ some d → HasKey k (values cycles))
        → (cycle_key c ≡ k) ⊎ HasKey k (values cycles)
    by_test true e rest = inl (ap (λ o. key_or o) e ∙ kd)
      where
        key_or : Option Cycle → Text
        key_or none = k
        key_or (some x) = cycle_key x
    by_test false e rest = inr (rest e)

pub trades-other_token :
    (p : PoolMetadata) (t u : Text) → other_token p t ≡ some u → trades p t ≡ true
unfolding trades other_token
trades-other_token p t u e = by_tests (text_eq (p.token0) t) (text_eq (p.token1) t) e
  where
    by_tests :
        (a b : Bool)
        → (if a then some (p.token1) else (if b then some (p.token0) else none)) ≡ some u
        → (a || b) ≡ true
    by_tests true b h = refl
    by_tests false true h = refl
    by_tests false false h = cc

pub leads_to-other_token :
    (p : PoolMetadata) (t u : Text) → other_token p t ≡ some u → leads_to p t u ≡ true
unfolding leads_to
leads_to-other_token p t u e =
    ap (λ o. elim o as (λ x. Bool) [ none ↦ false | some v ↦ text_eq v u ]) e ∙ text_eq_refl u

pub watched-of-starts :
    (a : Text) (affected : List Text)
    → (x : Text) × (some a ≡ some x) × (mem x affected ≡ true)
    → mem a affected ≡ true
watched-of-starts a affected (x, e, m) = ap (λ o. mem (text_or o) affected) e ∙ m
  where
    text_or : Option Text → Text
    text_or none = a
    text_or (some y) = y

module _ (graph : LivePoolGraph) (inv : IsIndexed graph) (affected : List Text) (max_hops : ℕ) where
  pub listed-other_token :
      (p : PoolMetadata) (t u : Text)
      → get (p.address) (graph.pools) ≡ some p
      → other_token p t ≡ some u
      → mem (p.address) (sorted (listed (graph.token_to_pools) t)) ≡ true
  listed-other_token p t u stored hop =
      mem-sorted (p.address) (listed (graph.token_to_pools) t)
      ∙ inv.indexed (p.address) t
      ∙ ap (λ o. trades_at o t) stored
      ∙ (unfold trades_at in trades-other_token p t u hop)

  -- The loops over the neighbours of a token, over the tokens of a pool, and over the pools: the
  -- one that finds the key is reached, and the others keep it.
  module _ (k : Text) where
    abbrev pub Finds : Graph (Dict Cycle) → Type 0
    Finds = Returns (λ cycles. Unit {0} × Holds k cycles)

    pub keeps_any :
        (c : Cycle) (cycles : Dict Cycle)
        → IsCycle (graph.pools) affected max_hops c
        → Unit {0}
        → Unit {0}
    keeps_any c cycles p u = tt

    pub keeps_found :
        (c : Cycle) (cycles : Dict Cycle)
        → IsCycle (graph.pools) affected max_hops c
        → Unit {0} × Holds k cycles
        → Unit {0} × Holds k (record_cycle c cycles)
    keeps_found c cycles p (u, h) = (tt, Holds-put k c cycles h)

    -- A pool that the index lists for a token is reached by the loop over the token's pools.
    pub neighbours-Finds :
        (t u : Text) (p : PoolMetadata) (body : Text → Dict Cycle → Graph (Dict Cycle))
        (cycles : Dict Cycle)
        → ((a : Text) (c : Dict Cycle)
            → IsStored (graph.pools) a
            → Unit {0}
            → Returns (λ d. Unit {0}) (body a c))
        → ((a : Text) (c : Dict Cycle)
            → IsStored (graph.pools) a
            → Unit {0}
            → Holds k c
            → Finds (body a c))
        → ((c : Dict Cycle) → Finds (body (p.address) c))
        → get (p.address) (graph.pools) ≡ some p
        → other_token p t ≡ some u
        → Finds (for_each (sorted (listed (graph.token_to_pools) t)) body cycles)
    neighbours-Finds t u p body cycles keeps stays finds stored hop =
        for_each-reaches (IsStored (graph.pools)) (λ c. Unit {0}) (Holds k) body keeps stays
          (p.address) (sorted (listed (graph.token_to_pools) t)) cycles (λ c q. finds c)
          (listed-other_token p t u stored hop) (listed-IsStored graph t inv) tt

    pub from_pool-Finds :
        (p1 : PoolMetadata) (start mid : Text) (cycles : Dict Cycle)
        → get (p1.address) (graph.pools) ≡ some p1
        → mem (p1.address) affected ≡ true
        → other_token p1 start ≡ some mid
        → ((c : Dict Cycle)
            → Finds (from_mid (graph.pools) (graph.token_to_pools) max_hops p1 start (some mid) c))
        → Finds (from_pool (graph.pools) (graph.token_to_pools) max_hops (p1.address) cycles)
    unfolding from_pool from_start from_token
    from_pool-Finds p1 start mid cycles stored watched hop finds = rw (stored) (
        for_each-reaches (λ t. t ≡ t) (λ c. Unit {0}) (Holds k) _
          (λ t c q u.
            from_mid-Returns graph inv affected max_hops (λ d. Unit {0}) keeps_any p1 t
              (other_token p1 t) c s refl tt)
          (λ t c q u h.
            from_mid-Returns graph inv affected max_hops (λ d. Unit {0} × Holds k d) keeps_found p1
              t (other_token p1 t) c s refl (tt, h))
          start (p1.token0 ∷ p1.token1 ∷ []) cycles (λ c u. rw (hop) (finds c)) in_tokens
          (refl, (refl, tt)) tt)
      where
        s : IsStart (graph.pools) affected p1
        s = is_start (graph.pools) affected p1 stored watched

        in_tokens : mem start (p1.token0 ∷ p1.token1 ∷ []) ≡ true
        in_tokens = unfold mem in ground (arith, traded)
          where
            traded : (text_eq (p1.token0) start || text_eq (p1.token1) start) ≡ true
            traded = unfold trades in trades-other_token p1 start mid hop

    pub cycles_for_affected-HasKey :
        (addresses : List Text) (p1 : PoolMetadata) (start mid : Text)
        → normalize_all addresses ≡ ok affected
        → get (p1.address) (graph.pools) ≡ some p1
        → mem (p1.address) affected ≡ true
        → other_token p1 start ≡ some mid
        → ((c : Dict Cycle)
            → Finds (from_mid (graph.pools) (graph.token_to_pools) max_hops p1 start (some mid) c))
        → Returns (HasKey k) (cycles_for_affected graph addresses max_hops)
    unfolding cycles_for_affected
    cycles_for_affected-HasKey addresses p1 start mid norm stored watched hop finds = rw (norm) (
        bind-Returns _
          (for_each-reaches (λ a. mem a affected ≡ true) (λ c. Unit {0}) (Holds k) _
            (λ a c m u.
              from_pool-Returns graph inv affected max_hops (λ d. Unit {0}) keeps_any a c m tt)
            (λ a c m u h.
              from_pool-Returns graph inv affected max_hops (λ d. Unit {0} × Holds k d) keeps_found
                a c m (tt, h))
            (p1.address) (sorted (unique affected)) []
            (λ c u. from_pool-Finds p1 start mid c stored watched hop finds)
            (mem-sorted (p1.address) (unique affected) ∙ mem-unique (p1.address) affected ∙ watched)
            (All-of-mem (λ a. mem a affected ≡ true) (sorted (unique affected))
              (λ a m. sym (mem-unique a affected) ∙ sym (mem-sorted a (unique affected)) ∙ m))
            tt)
          (λ cycles h. returns (HasKey k) (values cycles) (HasKey-values k cycles h.1)))
