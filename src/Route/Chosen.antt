-- ===== src/Route/Chosen.antt =====
-- The size that `_optimize_size` of python/src/arb_bot/route_engine.py chooses is within the live
-- balance, and was quoted again.
use base_arb_bot.Finalize.{Reply}
use base_arb_bot.Finalize.Run.{item}
use base_arb_bot.Graph.{PoolMetadata, Cycle}
use base_arb_bot.Route.Sizing.{Choice, candidate_amounts, refine_amounts, pick_best}
use base_arb_bot.Route.Bounds.{candidate_amounts-AreSizes}
use base_arb_bot.Route.Refine.{IsRefined, refine_amounts-AreRefined}
use base_arb_bot.Route.Quotes.{Quote, Quoted, quote_cycle}
use base_arb_bot.Route.Keys.{
  AllKeys, Chosen, number_update-AllKeys, parallel_quotes-AllKeys, batched_quotes-AllKeys,
  pick_best-Chosen,
}
use base_arb_bot.Route.Optimize.{
  Optimizer, BalanceMap, balance_of, Sized, unsized, live_balance, batching, batch, first_round,
  refine_round, second_round, on_requoted, on_resimulated, requote, quote_rounds, on_balance,
  optimize_size,
}
use base_arb_bot.Prelude.{
  ℕ, ◌≤◌, ◌==◌, Bool, true, false, List, [], ◌∷◌, ltb, if◌then◌else◌, ok, err, Option, none, some,
  ◌≡◌, refl, ap, subst, All, bind-eq-ok, ok-injective, arith,
}
use base_arb_bot.Prelude.Text.{Text, codes}
use base_arb_bot.Prelude.Numbers.{number_get}

module _ (optimizer : Optimizer) (cycle : Cycle) where
  -- The quote of the chosen size, in the way that the cycle supports.
  abbrev pub Requoted : Bool → ℕ → ℕ × List Quote → Type 0
  Requoted true a r =
      (again : Quoted × List Text) × (batch optimizer cycle (a ∷ []) ≡ ok again)
      × (number_get a (again.0) ≡ some r)
  Requoted false a r = quote_cycle (optimizer.adapters) cycle a ≡ ok r

  -- The size returned, if there is one.
  abbrev FitsAmounts : ℕ → Bool → Option (ℕ × ℕ) → List Quote → Type 0
  FitsAmounts upper batched none quotes = Unit
  FitsAmounts upper batched (some (a, out)) quotes =
      ((1 ≤ a) × (a ≤ upper)) × Requoted batched a (out, quotes)

  module _ (upper : ℕ) (positive : 1 ≤ upper) where
    abbrev IsWithin : ℕ → Type 0
    IsWithin a = (1 ≤ a) × (a ≤ upper)

    returned_keys :
        {q r : Quoted × List Text}
        → ◌≡◌ {A = Reply (Quoted × List Text)} (ok q) (ok r)
        → AllKeys IsWithin (q.0)
        → AllKeys IsWithin (r.0)
    returned_keys e k =
        subst (λ (x : Quoted × List Text). AllKeys IsWithin (x.0)) (ok-injective e) k

    first_round-AllKeys :
        (batched : Bool) (amounts : List ℕ) (r : Quoted × List Text)
        → All IsWithin amounts
        → first_round optimizer cycle batched amounts ≡ ok r
        → AllKeys IsWithin (r.0)
    unfolding first_round batch
    first_round-AllKeys true amounts r h e =
        batched_quotes-AllKeys IsWithin (optimizer.adapters) (optimizer.chain) cycle amounts r h e
    first_round-AllKeys false amounts r h e =
        returned_keys e (parallel_quotes-AllKeys IsWithin (optimizer.adapters) cycle amounts h)

    refine_round-AllKeys :
        (amounts : List ℕ) (round r : Quoted × List Text)
        → All IsWithin amounts
        → AllKeys IsWithin (round.0)
        → refine_round optimizer cycle amounts round ≡ ok r
        → AllKeys IsWithin (r.0)
    unfolding refine_round batch
    refine_round-AllKeys [] round r h k e = returned_keys e k
    refine_round-AllKeys (amount ∷ amounts) round r h k e =
        let (extra, e1, e2) = bind-eq-ok (batch optimizer cycle (amount ∷ amounts)) _ e in
        returned_keys e2 (
          number_update-AllKeys IsWithin (extra.0) (round.0)
            (batched_quotes-AllKeys IsWithin (optimizer.adapters) (optimizer.chain) cycle
              (amount ∷ amounts) extra h e1)
            k)

    refined-IsWithin : (best : ℕ) (xs : List ℕ) → All (IsRefined upper best) xs → All IsWithin xs
    refined-IsWithin best [] h = tt
    refined-IsWithin best (x ∷ xs) ((a, b, c), hs) = ((a, omega arith), refined-IsWithin best xs hs)

    second_round-AllKeys :
        (batched : Bool) (amounts : List ℕ) (best : Option Choice) (round r : Quoted × List Text)
        → All IsWithin amounts
        → AllKeys IsWithin (round.0)
        → second_round optimizer cycle batched amounts best round ≡ ok r
        → AllKeys IsWithin (r.0)
    unfolding second_round
    second_round-AllKeys false amounts best round r h k e = returned_keys e k
    second_round-AllKeys true amounts none round r h k e = returned_keys e k
    second_round-AllKeys true amounts (some best) round r h k e =
        by_test (ltb 0 (optimizer.size_refinement_points)) e
      where
        by_test :
            (t : Bool)
            → (if t
                then refine_round optimizer cycle
                    (refine_amounts amounts (best.amount) (optimizer.size_refinement_points))
                    round
                else ok round)
              ≡ ok r
            → AllKeys IsWithin (r.0)
        by_test false e' = returned_keys e' k
        by_test true e' =
            let a =
              refine_amounts-AreRefined upper (best.amount) (optimizer.size_refinement_points)
                amounts h in
            refine_round-AllKeys _ round r (refined-IsWithin (best.amount) _ a.refined) k e'

    abbrev Fits : Bool → Sized → Type 0
    Fits batched s = FitsAmounts upper batched (s.amounts) (s.quotes)

    returned-Fits :
        (batched : Bool) {q r : Sized}
        → ◌≡◌ {A = Reply Sized} (ok q) (ok r)
        → Fits batched q
        → Fits batched r
    returned-Fits batched e k = subst (Fits batched) (ok-injective e) k

    requote-Fits :
        (batched : Bool) (best : Option Choice) (blockers : List Text) (r : Sized)
        → Chosen IsWithin best
        → requote optimizer cycle batched best blockers ≡ ok r
        → Fits batched r
    unfolding requote
    requote-Fits batched none blockers r h e = returned-Fits batched e tt
    requote-Fits true (some best) blockers r h e =
        let (again, e1, e2) = bind-eq-ok (batch optimizer cycle (best.amount ∷ [])) _ e in
        returned-Fits true e2 (by_found again e1 (number_get (best.amount) (again.0)) refl)
      where
        by_found :
            (again : Quoted × List Text)
            → batch optimizer cycle (best.amount ∷ []) ≡ ok again
            → (found : Option (ℕ × List Quote)) → number_get (best.amount) (again.0) ≡ found
            → Fits true (on_requoted optimizer cycle (best.amount) blockers (again.1) found)
        by_found again e1 none q = tt
        by_found again e1 (some x) q = (h, (again, e1, q))
    requote-Fits false (some best) blockers r h e =
        returned-Fits false e (by_reply (quote_cycle (optimizer.adapters) cycle (best.amount)) refl)
      where
        by_reply :
            (m : Reply (ℕ × List Quote))
            → quote_cycle (optimizer.adapters) cycle (best.amount) ≡ m
            → Fits false (on_resimulated optimizer cycle (best.amount) blockers m)
        by_reply (ok x) q = (h, q)
        by_reply (err x) q = tt

    quote_rounds-Fits :
        (r : Sized) → quote_rounds optimizer cycle upper ≡ ok r → Fits (batching optimizer cycle) r
    unfolding quote_rounds
    quote_rounds-Fits r e =
        let amounts = candidate_amounts (optimizer.max_quote_evaluations) upper in
        let s = candidate_amounts-AreSizes (optimizer.max_quote_evaluations) upper positive in
        let (first, e1, e2) =
          bind-eq-ok (first_round optimizer cycle (batching optimizer cycle) amounts) _ e in
        let (second, e3, e4) =
          bind-eq-ok
            (second_round optimizer cycle (batching optimizer cycle) amounts (pick_best (first.0))
              first)
            _ e2 in
        let k = first_round-AllKeys (batching optimizer cycle) amounts first s.bounded e1 in
        let l =
          second_round-AllKeys (batching optimizer cycle) amounts _ first second s.bounded k e3 in
        requote-Fits (batching optimizer cycle) (pick_best (second.0)) (second.1) r
          (pick_best-Chosen IsWithin (second.0) l) e4

  -- A size that the optimizer chose: it is within the balance of the cycle's first pool.
  pub record IsChosen (balances : BalanceMap) (a : ℕ) (r : ℕ × List Quote) : Type 0 where
    pub token : Text
    pub pool : PoolMetadata
    pub upper : ℕ
    pub first_token : item (cycle.tokens) 0 ≡ ok token
    pub first_pool : item (cycle.pools) 0 ≡ ok pool
    pub balance :
        live_balance optimizer cycle (balance_of token (pool.address) balances) token pool
        ≡ ok upper
    pub at_least : 1 ≤ a
    pub at_most : a ≤ upper
    pub requoted : Requoted (batching optimizer cycle) a r

  module _ (balances : BalanceMap) (a out : ℕ) (s : Sized) (h : s.amounts ≡ some (a, out))
      (token : Text) (pool : PoolMetadata) (qt : item (cycle.tokens) 0 ≡ ok token)
      (qp : item (cycle.pools) 0 ≡ ok pool) where
    of_Fits :
        (upper : ℕ) (batched : Bool) (amounts : Option (ℕ × ℕ)) (quotes : List Quote)
        → FitsAmounts upper batched amounts quotes
        → amounts ≡ some (a, out)
        → (1 ≤ a) × (a ≤ upper) × Requoted batched a (out, quotes)
    of_Fits upper batched none quotes k e = absurd cc
    of_Fits upper batched (some x) quotes ((l, u), q) e =
        subst (λ (y : ℕ × ℕ). (1 ≤ y.0) × (y.0 ≤ upper) × Requoted batched (y.0) (y.1, quotes))
          (some_injective e) (l, u, q)
      where
        some_injective : {x y : ℕ × ℕ} → ◌≡◌ {A = Option (ℕ × ℕ)} (some x) (some y) → x ≡ y
        some_injective q' = cc

    on_balance-IsChosen :
        (m : Reply ℕ)
        → live_balance optimizer cycle (balance_of token (pool.address) balances) token pool ≡ m
        → on_balance optimizer cycle m ≡ ok s
        → IsChosen balances a (out, s.quotes)
    unfolding on_balance
    on_balance-IsChosen (err x) q e =
        absurd (cc (ap (λ (y : Sized). y.amounts) (ok-injective e), h))
    on_balance-IsChosen (ok upper) q e = by_test (upper == 0) refl e
      where
        by_test :
            (t : Bool)
            → (upper == 0) ≡ t
            → (if t
                then ok (unsized (codes "first_pool_has_zero_pending_token_balance" ∷ []))
                else quote_rounds optimizer cycle upper)
              ≡ ok s
            → IsChosen balances a (out, s.quotes)
        by_test true z e' = absurd (cc (ap (λ (y : Sized). y.amounts) (ok-injective e'), h))
        by_test false z e' =
            let (l, u, r) =
              of_Fits upper (batching optimizer cycle) (s.amounts) (s.quotes)
                (quote_rounds-Fits upper (ground (arith)) s e') h in
            record {
              token = token;
              pool = pool;
              upper = upper;
              first_token = qt;
              first_pool = qp;
              balance = q;
              at_least = l;
              at_most = u;
              requoted = r;
            }

  -- If the optimizer returns a size with an output, then the size is at least 1 and at most the
  -- balance of the cycle's first token in its first pool, and the output and the quotes returned
  -- are those of quoting that size again.
  pub optimize_size-IsChosen :
      (balances : BalanceMap) (a out : ℕ) (s : Sized)
      → optimize_size optimizer cycle balances ≡ ok s
      → s.amounts ≡ some (a, out)
      → IsChosen balances a (out, s.quotes)
  unfolding optimize_size
  optimize_size-IsChosen balances a out s e h =
      let (token, qt, e1) = bind-eq-ok (item (cycle.tokens) 0) _ e in
      let (pool, qp, e2) = bind-eq-ok (item (cycle.pools) 0) _ e1 in
      on_balance-IsChosen balances a out s h token pool qt qp _ refl e2
