-- ===== src/Route/Batching.antt =====
-- `_batched_quotes` of python/src/arb_bot/route_engine.py finds the outputs that quoting each size
-- alone finds.
use base_arb_bot.Finalize.{Reply}
use base_arb_bot.Graph.{PoolMetadata, Cycle}
use base_arb_bot.Route.Quotes.{
  RawCall, Quote, QuoteAdapter, Quoted, Chain, pool_kwargs, quote_from, quote_cycle,
  parallel_quotes, Entry, start_entries, while_surviving, quote_hops, batched_quotes,
}
use base_arb_bot.Route.Outs.{
  out_at, out_of, outcome, settled, out_at-keep_quoted, out_at-parallel_quotes,
}
use base_arb_bot.Prelude.{
  ℕ, suc, ◌+◌, ◌<◌, Bool, List, [], ◌∷◌, map, length, ok, err, some, none, subst, ◌≡◌, refl, sym,
  ap, ◌∙◌, All, arith,
}
use base_arb_bot.Prelude.Text.{Text}
use base_arb_bot.Prelude.Dict.{Dict}
use base_arb_bot.Prelude.Loop.{Returns, returns, Returns-map}
use base_arb_bot.Prelude.Numbers.{number_get}
use base_arb_bot.Route.Hops.{
  IsAlike, AreAlike, uint256_limit, then_out, hop, taken, taken_bounded, encode_entries-calls,
  settled-taken, one_quote_more, outcome-quote_from,
}

-- The multicall contract answers each call on its own, in their order.
module _ (adapters : Dict QuoteAdapter) (chain : Chain) (cycle : Cycle)
    (answer : RawCall → Bool × List ℕ)
    (aggregates : (calls : List RawCall) → chain.aggregate3 calls ≡ ok (map answer calls)) where
  -- The outputs are those that the rest of the hops gives each entry alone.
  abbrev FindsOuts : ℕ → List PoolMetadata → List Entry → Quoted × List Text → Type 0
  FindsOuts index pools entries r =
      (a : ℕ)
      → out_at a (r.0)
        ≡ settled (λ x. outcome (quote_from adapters (cycle.tokens) index x pools)) entries a none

  surviving-FindsOuts :
      (index : ℕ) (pools : List PoolMetadata) (entries : List Entry) (blockers : List Text)
      (r : Reply (Quoted × List Text))
      → Returns (FindsOuts index pools entries) r
      → Returns (FindsOuts index pools entries) (while_surviving entries (ok ([], blockers)) r)
  unfolding number_get settled
  surviving-FindsOuts index pools [] blockers r h = returns _ _ (λ a. refl)
  surviving-FindsOuts index pools (e ∷ entries) blockers r h = h

  -- The entries have as many quotes as hops so far, and an amount that the ABI holds.
  abbrev AreReady : ℕ → List Entry → Type 0
  AreReady left entries =
      All (λ (e : Entry). length (e.quotes) + left ≡ length (cycle.pools)) entries
      × All (λ (e : Entry). e.current < uint256_limit) entries

  All-under :
      {P Q : Entry → Type 0} (entries : List Entry)
      → ((e : Entry) → P e → Q e)
      → All P entries
      → All Q entries
  All-under [] f h = tt
  All-under (e ∷ entries) f h = (f e h.0, All-under entries f h.1)

  module _ (index : ℕ) (pool : PoolMetadata) (pools : List PoolMetadata)
      (alike : IsAlike adapters (chain.observed_block) answer (cycle.tokens) index pool) where
    abbrev survivors : List Entry → List Entry × List Text
    survivors =
        taken (alike.adapter) (chain.observed_block) (alike.token_in) (alike.token_out)
          (pool_kwargs pool) answer (alike.call_of)

    hop_bounded :
        (e : Entry)
        → e.current < uint256_limit
        → (n : ℕ)
        → hop
            (alike.adapter)
            (chain.observed_block)
            (alike.token_in)
            (alike.token_out)
            (pool_kwargs pool)
            answer
            (alike.call_of)
            e
          ≡ some n
        → n < uint256_limit
    hop_bounded e l n q =
        by_quote
          (alike.adapter.quote_exact_input (alike.token_in) (alike.token_out) (e.current)
            (pool_kwargs pool))
          refl (alike.same_out e l ∙ q)
      where
        by_quote :
            (r : Reply Quote)
            → alike.adapter.quote_exact_input
                (alike.token_in)
                (alike.token_out)
                (e.current)
                (pool_kwargs pool)
              ≡ r
            → out_of r ≡ some n
            → n < uint256_limit
        by_quote (err x) r q' = absurd cc
        by_quote (ok quote) r q' =
            let same : quote.amount_out ≡ n = cc in
            subst (λ m. m < uint256_limit) same ((alike.same_in (e.current) quote l r).1)

    hop_FindsOuts :
        (entries : List Entry) (r : Quoted × List Text)
        → All (λ (e : Entry). e.current < uint256_limit) entries
        → FindsOuts (index + 1) pools ((survivors entries).0) r
        → FindsOuts index (pool ∷ pools) entries r
    hop_FindsOuts entries r l h a =
        h a
        ∙ sym (
            settled-taken (alike.adapter) (chain.observed_block) (alike.token_in) (alike.token_out)
              (pool_kwargs pool) answer (alike.call_of)
              (λ x. outcome (quote_from adapters (cycle.tokens) index x (pool ∷ pools)))
              (λ x. outcome (quote_from adapters (cycle.tokens) (index + 1) x pools)) a entries none
              (All-under entries
                (λ e under.
                  outcome-quote_from adapters (cycle.tokens) index pool pools (alike.adapter)
                    (alike.token_in) (alike.token_out) (e.current) (alike.found) (alike.has_in)
                    (alike.has_out) (λ quote q. (alike.same_in (e.current) quote under q).0)
                  ∙ ap
                      (λ o.
                        then_out o
                          (λ n. outcome (quote_from adapters (cycle.tokens) (index + 1) n pools)))
                      (alike.same_out e under))
                l))

    survivors-AreReady :
        (entries : List Entry)
        → AreReady (suc (length pools)) entries
        → AreReady (length pools) ((survivors entries).0)
    survivors-AreReady entries h = (
      one_quote_more (alike.adapter) (chain.observed_block) (alike.token_in) (alike.token_out)
          (pool_kwargs pool) answer (alike.call_of) (length pools) (length (cycle.pools)) entries
          h.0,
      taken_bounded (alike.adapter) (chain.observed_block) (alike.token_in) (alike.token_out)
          (pool_kwargs pool) answer (alike.call_of) (λ n. n < uint256_limit) entries
          (All-under entries hop_bounded h.1),
    )

    hop_Returns :
        (entries : List Entry) (blockers : List Text)
        → ((es : List Entry) (bs : List Text)
            → AreReady (length pools) es
            → Returns
                (FindsOuts (index + 1) pools es)
                (quote_hops adapters chain cycle (index + 1) pools es bs))
        → AreReady (suc (length pools)) entries
        → Returns
            (FindsOuts index (pool ∷ pools) entries)
            (quote_hops adapters chain cycle index (pool ∷ pools) entries blockers)
    unfolding quote_hops
    hop_Returns entries blockers k h =
        rw
          (
            alike.has_in,
            alike.has_out,
            alike.found,
            encode_entries-calls (alike.adapter) (chain.observed_block) (alike.token_in)
                (alike.token_out) (pool_kwargs pool) answer (alike.call_of) entries
                (All-under entries (alike.encodes) h.1),
            aggregates (map (λ (e : Entry). alike.call_of (e.current)) entries),
          )
          (Returns-map (λ r f. hop_FindsOuts entries r h.1 f)
            (surviving-FindsOuts (index + 1) pools ((survivors entries).0) _ _
              (k ((survivors entries).0) _ (survivors-AreReady entries h))))

  complete :
      (entries : List Entry)
      → All (λ e. length (e.quotes) + 0 ≡ length (cycle.pools)) entries
      → All (λ e. length (e.quotes) ≡ length (cycle.pools)) entries
  complete [] h = tt
  complete (e ∷ entries) h = (omega (arith, h.0), complete entries h.1)

  no_hops-FindsOuts :
      (index : ℕ) (entries : List Entry) (blockers : List Text)
      → All (λ e. length (e.quotes) + 0 ≡ length (cycle.pools)) entries
      → Returns
          (FindsOuts index [] entries)
          (quote_hops adapters chain cycle index [] entries blockers)
  unfolding quote_hops quote_from number_get
  no_hops-FindsOuts index entries blockers n =
      returns _ _ (λ a. out_at-keep_quoted (length (cycle.pools)) a entries [] (complete entries n))

  quote_hops-FindsOuts :
      (pools : List PoolMetadata) (index : ℕ) (entries : List Entry) (blockers : List Text)
      → AreAlike adapters (chain.observed_block) answer (cycle.tokens) index pools
      → AreReady (length pools) entries
      → Returns
          (FindsOuts index pools entries)
          (quote_hops adapters chain cycle index pools entries blockers)
  quote_hops-FindsOuts [] index entries blockers h n = no_hops-FindsOuts index entries blockers n.0
  quote_hops-FindsOuts (pool ∷ pools) index entries blockers h n =
      hop_Returns index pool pools h.0 entries blockers
        (λ es bs m. quote_hops-FindsOuts pools (index + 1) es bs h.1 m) n

  start-AreReady :
      (amounts : List ℕ)
      → All (λ amount. amount < uint256_limit) amounts
      → AreReady (length (cycle.pools)) (start_entries amounts)
  unfolding start_entries
  start-AreReady [] h = (tt, tt)
  start-AreReady (amount ∷ amounts) h =
      let rest = start-AreReady amounts h.1 in ((omega arith, rest.0), (h.0, rest.1))

  -- Suppose that multicall answers each call on its own and in their order; that every pool of the
  -- cycle has an adapter, which encodes the quotes of amounts below 2 ^ 256 for the tokens of its
  -- hop, and whose own quotes are what the answers to the encoded calls decode to, with outputs
  -- below 2 ^ 256; and that the sizes are below 2 ^ 256. Then the batched quotes return, and for
  -- every size they have the output that quoting the sizes one by one has, or none where that has
  -- none.
  pub batched_quotes-SameOuts :
      (amounts : List ℕ)
      → AreAlike adapters (chain.observed_block) answer (cycle.tokens) 0 (cycle.pools)
      → All (λ amount. amount < uint256_limit) amounts
      → Returns
          (λ r. (a : ℕ) → out_at a (r.0) ≡ out_at a ((parallel_quotes adapters cycle amounts).0))
          (batched_quotes adapters chain cycle amounts)
  unfolding batched_quotes quote_cycle
  batched_quotes-SameOuts amounts h l =
      Returns-map (λ r k a. k a ∙ sym (out_at-parallel_quotes adapters cycle a amounts))
        (quote_hops-FindsOuts (cycle.pools) 0 (start_entries amounts) [] h
          (start-AreReady amounts l))
