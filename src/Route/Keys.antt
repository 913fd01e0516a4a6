-- ===== src/Route/Keys.antt =====
-- The sizes that are quoted (python/src/arb_bot/route_engine.py) are sizes that were asked for.
use base_arb_bot.Finalize.{Reply}
use base_arb_bot.Finalize.Run.{item}
use base_arb_bot.Graph.{PoolMetadata, Cycle}
use base_arb_bot.Route.Sizing.{Choice, profit, choice_of, better, pick_from, pick_best}
use base_arb_bot.Route.Quotes.{
  Quote, QuoteAdapter, QuoteKwargs, Quoted, Chain, find_adapter, pool_kwargs, quote_cycle, settle,
  settle_all, parallel_quotes, Entry, start_entries, encode_entries, with_quote, take_answers,
  keep_quoted, read_answers, while_surviving, quote_hops, batched_quotes,
}
use base_arb_bot.Prelude.{
  ℕ, ◌+◌, ◌==◌, Bool, true, false, List, [], ◌∷◌, length, if◌then◌else◌, ok, err, Option, none,
  some, ◌≡◌, subst, All, bind-eq-ok, ok-injective,
}
use base_arb_bot.Prelude.Text.{Text}
use base_arb_bot.Prelude.Dict.{Dict}
use base_arb_bot.Prelude.Int.{ltb_ℤ}
use base_arb_bot.Prelude.Numbers.{number_put, number_update, All-number_put}

module _ (P : ℕ → Type 0) where
  abbrev pub AllKeys : Quoted → Type 0
  AllKeys quoted = All (λ (e : ℕ × (ℕ × List Quote)). P (e.0)) quoted

  abbrev AllAmounts : List Entry → Type 0
  AllAmounts entries = All (λ (e : Entry). P (e.amount)) entries

  pub number_update-AllKeys : (e d : Quoted) → AllKeys e → AllKeys d → AllKeys (number_update e d)
  unfolding number_update
  number_update-AllKeys [] d h k = k
  number_update-AllKeys ((x, v) ∷ e) d h k =
      number_update-AllKeys e (number_put x v d) h.1
        (All-number_put (λ (e : ℕ × (ℕ × List Quote)). P (e.0)) x v d h.0 k)

  keep_quoted-AllKeys :
      (hops : ℕ) (entries : List Entry) (quoted : Quoted)
      → AllAmounts entries
      → AllKeys quoted
      → AllKeys (keep_quoted hops entries quoted)
  keep_quoted-AllKeys hops [] quoted h k = k
  keep_quoted-AllKeys hops (e ∷ entries) quoted h k =
      keep_quoted-AllKeys hops entries _ h.1 (by_test (length (e.quotes) == hops))
    where
      by_test :
          (t : Bool)
          → AllKeys (if t then number_put (e.amount) (e.current, e.quotes) quoted else quoted)
      by_test true =
          All-number_put (λ (x : ℕ × (ℕ × List Quote)). P (x.0)) (e.amount) (e.current, e.quotes)
            quoted h.0 k
      by_test false = k

  take_answers-AllAmounts :
      (adapter : Option QuoteAdapter) (observed_block : Option ℕ) (token_in token_out : Text)
      (kwargs : QuoteKwargs) (entries : List Entry) (results : List (Bool × List ℕ))
      → AllAmounts entries
      → AllAmounts
          ((take_answers adapter observed_block token_in token_out kwargs entries results).0)
  unfolding take_answers
  take_answers-AllAmounts adapter ob ti to kwargs [] results h = tt
  take_answers-AllAmounts adapter ob ti to kwargs (e ∷ entries) [] h = tt
  take_answers-AllAmounts adapter ob ti to kwargs (e ∷ entries) ((success, return_data) ∷ results)
        h =
      by_answer _ _ _ _ (take_answers-AllAmounts adapter ob ti to kwargs entries results h.1)
    where
      by_answer :
          (refused : Bool) (r : Reply Quote) (blocker : Text) (rest : List Entry × List Text)
          → AllAmounts (rest.0)
          → AllAmounts ((if refused then (rest.0, blocker ∷ rest.1) else with_quote e r rest).0)
      by_answer true r blocker rest k = k
      by_answer false (ok q) blocker rest k = (h.0, k)
      by_answer false (err x) blocker rest k = k

  settle_all-AllKeys :
      (adapters : Dict QuoteAdapter) (cycle : Cycle) (amounts : List ℕ) (s : Quoted × List Text)
      → All P amounts
      → AllKeys (s.0)
      → AllKeys ((settle_all adapters cycle amounts s).0)
  unfolding settle_all
  settle_all-AllKeys adapters cycle [] s h k = k
  settle_all-AllKeys adapters cycle (amount ∷ amounts) s h k =
      settle_all-AllKeys adapters cycle amounts _ h.1 (by_reply (quote_cycle adapters cycle amount))
    where
      by_reply : (r : Reply (ℕ × List Quote)) → AllKeys ((settle amount r s).0)
      by_reply (ok r) = All-number_put (λ (x : ℕ × (ℕ × List Quote)). P (x.0)) amount r (s.0) h.0 k
      by_reply (err e) = k

  pub parallel_quotes-AllKeys :
      (adapters : Dict QuoteAdapter) (cycle : Cycle) (amounts : List ℕ)
      → All P amounts
      → AllKeys ((parallel_quotes adapters cycle amounts).0)
  unfolding parallel_quotes
  parallel_quotes-AllKeys adapters cycle amounts h =
      settle_all-AllKeys adapters cycle amounts ([], []) h tt

  start-AllAmounts : (amounts : List ℕ) → All P amounts → AllAmounts (start_entries amounts)
  unfolding start_entries
  start-AllAmounts [] h = tt
  start-AllAmounts (amount ∷ amounts) h = (h.0, start-AllAmounts amounts h.1)

  module _ (adapters : Dict QuoteAdapter) (chain : Chain) (cycle : Cycle) where
    on_results :
        (results : Reply (List (Bool × List ℕ)))
        (continue : List (Bool × List ℕ) → Reply (Quoted × List Text)) (r : Quoted × List Text)
        → ((rs : List (Bool × List ℕ)) → continue rs ≡ ok r → AllKeys (r.0))
        → read_answers results continue [] ≡ ok r
        → AllKeys (r.0)
    on_results (ok rs) continue r k e = k rs e
    on_results (err x) continue r k e =
        subst (λ (q : Quoted × List Text). AllKeys (q.0)) (ok-injective e) tt

    on_surviving :
        (entries : List Entry) (blockers : List Text) (m : Reply (Quoted × List Text))
        (r : Quoted × List Text)
        → (m ≡ ok r → AllKeys (r.0))
        → while_surviving entries (ok ([], blockers)) m ≡ ok r
        → AllKeys (r.0)
    on_surviving [] blockers m r k e =
        subst (λ (q : Quoted × List Text). AllKeys (q.0)) (ok-injective e) tt
    on_surviving (x ∷ entries) blockers m r k e = k e

    quote_hops-AllKeys :
        (index : ℕ) (pools : List PoolMetadata) (entries : List Entry) (blockers : List Text)
        (r : Quoted × List Text)
        → AllAmounts entries
        → quote_hops adapters chain cycle index pools entries blockers ≡ ok r
        → AllKeys (r.0)
    unfolding quote_hops
    quote_hops-AllKeys index [] entries blockers r h e =
        subst (λ (q : Quoted × List Text). AllKeys (q.0)) (ok-injective e)
          (keep_quoted-AllKeys (length (cycle.pools)) entries [] h tt)
    quote_hops-AllKeys index (pool ∷ pools) entries blockers r h e =
        let (ti, q1, e1) = bind-eq-ok (item (cycle.tokens) index) _ e in
        let (to, q2, e2) = bind-eq-ok (item (cycle.tokens) (index + 1)) _ e1 in
        let adapter = find_adapter adapters (pool.venue) in
        let (calls, q3, e3) =
          bind-eq-ok (encode_entries adapter ti to (pool_kwargs pool) entries) _ e2 in
        on_results (chain.aggregate3 calls) _ r
          (λ rs e4.
            let t =
              take_answers adapter (chain.observed_block) ti to (pool_kwargs pool) entries rs in
            on_surviving (t.0) _ _ r
              (quote_hops-AllKeys (index + 1) pools (t.0) _ r (
                take_answers-AllAmounts adapter (chain.observed_block) ti to (pool_kwargs pool)
                  entries rs h))
              e4)
          e3

    pub batched_quotes-AllKeys :
        (amounts : List ℕ) (r : Quoted × List Text)
        → All P amounts
        → batched_quotes adapters chain cycle amounts ≡ ok r
        → AllKeys (r.0)
    unfolding batched_quotes
    batched_quotes-AllKeys amounts r h e =
        quote_hops-AllKeys 0 (cycle.pools) (start_entries amounts) [] r (start-AllAmounts amounts h)
          e

  -- The best size so far has the property.
  abbrev pub Chosen : Option Choice → Type 0
  Chosen none = Unit
  Chosen (some c) = P (c.amount)

  pick_from-Chosen :
      (best : Option Choice) (d : Quoted) → Chosen best → AllKeys d → Chosen (pick_from best d)
  unfolding pick_from
  pick_from-Chosen best [] b h = b
  pick_from-Chosen best (e ∷ d) b h =
      pick_from-Chosen (better best (choice_of e)) d (chosen best b) h.1
    where
      chosen : (o : Option Choice) → Chosen o → Chosen (better o (choice_of e))
      chosen none p = h.0
      chosen (some c) p = by_test (ltb_ℤ (profit c) (profit (choice_of e)))
        where
          by_test : (t : Bool) → Chosen (if t then some (choice_of e) else some c)
          by_test true = h.0
          by_test false = p

  pub pick_best-Chosen : (d : Quoted) → AllKeys d → Chosen (pick_best d)
  unfolding pick_best
  pick_best-Chosen d h = pick_from-Chosen none d tt h
