-- ===== src/Graph/Index.antt =====
-- The token index of the graph (python/src/arb_bot/event_graph.py) lists exactly the pools that
-- trade a token: `register` keeps that, whatever it replaces.
use base_arb_bot.Graph.{
  PoolMetadata, LivePoolGraph, empty_graph, or_empty, listed, unlist_found, unlist, enlist,
  unlist_pool, register,
}
use base_arb_bot.Prelude.{
  Bool, true, false, not, ◌&&◌, ◌||◌, List, if◌then◌else◌, Option, none, some, ◌≡◌, refl, sym, ap,
  ◌∙◌, inl, inr, arith, Bool-cases,
}
use base_arb_bot.Prelude.Text.{Text, text_eq, text_eq_iff}
use base_arb_bot.Prelude.Dict.{Dict, get, put, get-put, mem, add, discard, mem-add, mem-discard}

-- The pool is an edge of the token.
unfoldable pub trades : PoolMetadata → Text → Bool
trades pool token = text_eq (pool.token0) token || text_eq (pool.token1) token

-- A pool is stored under the address, and is an edge of the token.
unfoldable pub trades_at : Option PoolMetadata → Text → Bool
trades_at none token = false
trades_at (some pool) token = trades pool token

-- Pools are stored under their own addresses, and the index agrees with them.
pub record IsIndexed (graph : LivePoolGraph) : Type 0 where
  pub keyed : (a : Text) (p : PoolMetadata) → get a (graph.pools) ≡ some p → p.address ≡ a
  pub indexed :
      (a token : Text)
      → mem a (listed (graph.token_to_pools) token) ≡ trades_at (get a (graph.pools)) token

address_or : Text → Option PoolMetadata → Text
address_or a none = a
address_or a (some p) = p.address

pub empty-IsIndexed : IsIndexed empty_graph
unfolding empty_graph listed get mem trades_at
empty-IsIndexed = record { keyed = λ a p e. cc; indexed = λ a token. refl }

listed-put :
    (t u : Text) (v : List Text) (index : Dict (List Text))
    → listed (put t v index) u ≡ (if text_eq t u then v else listed index u)
unfolding listed
listed-put t u v index = ap or_empty (get-put t u v index) ∙ or_empty-if (text_eq t u)
  where
    or_empty-if :
        (b : Bool)
        → or_empty (if b then some v else get u index) ≡ (if b then v else or_empty (get u index))
    or_empty-if true = refl
    or_empty-if false = refl

mem-enlist :
    (x t a u : Text) (index : Dict (List Text))
    → mem a (listed (enlist x t index) u) ≡ (mem a (listed index u) || text_eq x a && text_eq t u)
unfolding enlist
mem-enlist x t a u index =
    rw (listed-put t u (add x (listed index t)) index)
      (ground (arith, mem-add x a (listed index t), text_eq_iff t u, same_token))
  where
    same_token : t ≡ u → mem a (listed index t) ≡ mem a (listed index u)
    same_token e = ap (λ v. mem a (listed index v)) e

mem-unlist :
    (x t a u : Text) (index : Dict (List Text))
    → mem a (listed (unlist x t index) u)
      ≡ (mem a (listed index u) && not (text_eq x a && text_eq t u))
unfolding unlist
mem-unlist x t a u index = by_entry (get t index) refl
  where
    same_token : t ≡ u → mem a (listed index t) ≡ mem a (listed index u)
    same_token e = ap (λ v. mem a (listed index v)) e

    by_entry :
        (o : Option (List Text))
        → get t index ≡ o
        → mem a (listed (unlist_found o x t index) u)
          ≡ (mem a (listed index u) && not (text_eq x a && text_eq t u))
    by_entry none e = ground (arith, text_eq_iff t u, same_token, unlisted)
      where
        unlisted : mem a (listed index t) ≡ false
        unlisted = unfold listed in unfold mem in rw e refl
    by_entry (some addresses) e =
        rw (listed-put t u (discard x addresses) index)
          (ground (arith, mem-discard x a addresses, text_eq_iff t u, same_token, entry))
      where
        entry : mem a (listed index t) ≡ mem a addresses
        entry = unfold listed in rw e refl

-- What is left of the index once the entries of the pool to replace are discarded.
mem-unlist_pool :
    (graph : LivePoolGraph) (x a u : Text)
    → IsIndexed graph
    → mem a (listed (unlist_pool (get x (graph.pools)) (graph.token_to_pools)) u)
      ≡ (trades_at (get a (graph.pools)) u && not (text_eq x a))
mem-unlist_pool graph x a u inv = by_entry (get x (graph.pools)) refl
  where
    index : Dict (List Text)
    index = graph.token_to_pools

    same_address : x ≡ a → get x (graph.pools) ≡ get a (graph.pools)
    same_address e = ap (λ v. get v (graph.pools)) e

    by_entry :
        (o : Option PoolMetadata)
        → get x (graph.pools) ≡ o
        → mem a (listed (unlist_pool o index) u)
          ≡ (trades_at (get a (graph.pools)) u && not (text_eq x a))
    by_entry none e = elim (Bool-cases (text_eq x a)) [
      | inl hit ↦
          unfold unlist_pool in
          unfold trades_at in
          rw (inv.indexed a u, hit, sym (same_address ((text_eq_iff x a).0 hit)), e) refl
      | inr miss ↦ unfold unlist_pool in rw (inv.indexed a u) (ground (arith))
    ]
    by_entry (some p) e =
        unfold unlist_pool in
        rw
          (
            mem-unlist (p.address) (p.token1) a u (unlist (p.address) (p.token0) index),
            mem-unlist (p.address) (p.token0) a u index,
            inv.indexed a u,
            inv.keyed x p e,
          )
          (ground (arith, trades_p))
      where
        trades_p :
            text_eq x a ≡ true
            → trades_at (get a (graph.pools)) u ≡ (text_eq (p.token0) u || text_eq (p.token1) u)
        trades_p hit =
            unfold trades_at in
            unfold trades in rw (sym (same_address ((text_eq_iff x a).0 hit)), e) refl

trades_at-put :
    (pool : PoolMetadata) (a u : Text) (pools : Dict PoolMetadata)
    → trades_at (get a (put (pool.address) pool pools)) u
      ≡ (if text_eq (pool.address) a then trades pool u else trades_at (get a pools) u)
unfolding trades_at
trades_at-put pool a u pools =
    ap (λ o. trades_at o u) (get-put (pool.address) a pool pools)
    ∙ either (text_eq (pool.address) a)
  where
    either :
        (b : Bool)
        → trades_at (if b then some pool else get a pools) u
          ≡ (if b then trades pool u else trades_at (get a pools) u)
    either true = refl
    either false = refl

-- If pools are stored under their own addresses and the token index lists exactly the pools that
-- trade each token, then both still hold after a pool is registered, also when it replaces another
-- of the same address.
pub register-IsIndexed :
    (pool : PoolMetadata) (graph : LivePoolGraph)
    → IsIndexed graph
    → IsIndexed (register pool graph)
unfolding register address_or
register-IsIndexed pool graph inv = record {
  keyed = λ a p e.
      by_key a p (text_eq (pool.address) a) refl
        (sym (get-put (pool.address) a pool (graph.pools)) ∙ e);
  indexed = by_token;
}
  where
    cleared : Dict (List Text)
    cleared = unlist_pool (get (pool.address) (graph.pools)) (graph.token_to_pools)

    by_key :
        (a : Text) (p : PoolMetadata) (b : Bool)
        → text_eq (pool.address) a ≡ b
        → (if b then some pool else get a (graph.pools)) ≡ some p
        → p.address ≡ a
    by_key a p true hit e = ap (λ q. address_or a q) (sym e) ∙ (text_eq_iff (pool.address) a).0 hit
    by_key a p false miss e = inv.keyed a p e

    by_token :
        (a u : Text)
        → mem a (
            listed
              (enlist (pool.address) (pool.token1) (enlist (pool.address) (pool.token0) cleared))
              u)
          ≡ trades_at (get a (put (pool.address) pool (graph.pools))) u
    by_token a u =
        rw
          (
            mem-enlist (pool.address) (pool.token1) a u
                (enlist (pool.address) (pool.token0) cleared),
            mem-enlist (pool.address) (pool.token0) a u cleared,
            mem-unlist_pool graph (pool.address) a u inv,
            trades_at-put pool a u (graph.pools),
          )
          (unfold trades in ground arith)
