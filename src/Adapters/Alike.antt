-- ===== src/Adapters/Alike.antt =====
-- The adapters of python/src/arb_bot/adapters are what the batched quotes need.
use base_arb_bot.Adapters.UniswapV3 as UniswapV3
use base_arb_bot.Adapters.UniswapV3.{UniswapV3Quoter, QuoteParams, QuoteOutputs}
use base_arb_bot.Adapters.Aerodrome as Aerodrome
use base_arb_bot.Adapters.Aerodrome.{AerodromeRouter, RouteParams, last_amount}
use base_arb_bot.Finalize.{Reply}
use base_arb_bot.Finalize.Run.{item}
use base_arb_bot.Graph.{PoolMetadata}
use base_arb_bot.Route.Quotes.{
  RawCall, Quote, QuoteAdapter, find_adapter, pool_kwargs, with_fee, with_stable,
}
use base_arb_bot.Route.Hops.{IsAlike, uint256_limit}
use base_arb_bot.Route.Outs.{out_of}
use base_arb_bot.Prelude.{
  ℕ, ◌+◌, ◌<◌, ◌==◌, ◌||◌, not, Bool, true, false, List, length, if◌then◌else◌, ok, err, ◌>>=◌,
  Option, none, some, ◌≡◌, refl, sym, ap, ◌∙◌, subst, ok-injective, bind-eq-ok,
}
use base_arb_bot.Prelude.Text.{Text}
use base_arb_bot.Prelude.Int.{ℤ}
use base_arb_bot.Prelude.Dict.{Dict}

-- What web3 makes of a node's answer: a call that reverted or that returned nothing raises an
-- error, and anything else is decoded.
abbrev pub answered : {A : Type 0} → Text → (List ℕ → Reply A) → Bool × List ℕ → Reply A
answered error decode (success, return_data) =
    if not success || (length return_data == 0) then err error else decode return_data

answered-ok :
    {A : Type 0} (error : Text) (decode : List ℕ → Reply A) (r : Bool × List ℕ) (x : A)
    → answered error decode r ≡ ok x
    → decode (r.1) ≡ ok x
answered-ok error decode (success, return_data) x e =
    by_test (not success || (length return_data == 0)) e
  where
    by_test :
        (t : Bool)
        → (if t then err error else decode return_data) ≡ ok x
        → decode return_data ≡ ok x
    by_test true e' = absurd cc
    by_test false e' = e'

-- What an answer decodes to does not depend on the block number.
out_of-answered :
    {A : Type 0} (error : Text) (decode : List ℕ → Reply A) (r : Bool × List ℕ)
    (f g : A → Reply Quote)
    → ((x : A) → out_of (f x) ≡ out_of (g x))
    → out_of (answered error decode r >>= f)
      ≡ (if not (r.0) || (length (r.1) == 0) then none else out_of (decode (r.1) >>= g))
out_of-answered {A = A} error decode (success, return_data) f g same =
    by_test (not success || (length return_data == 0)) (decode return_data)
  where
    by_test :
        (t : Bool) (d : Reply A)
        → out_of ((if t then err error else d) >>= f) ≡ (if t then none else out_of (d >>= g))
    by_test true d = refl
    by_test false (ok x) = same x
    by_test false (err x) = refl

-- web3 encodes the parameters as a call; calling the contract is decoding the node's answer to it;
-- and the decoder gives amounts that the ABI holds.
pub record IsUniswapServed (quoter : UniswapV3Quoter) (answer : RawCall → Bool × List ℕ)
    (a b : Text) (fee : ℤ) : Type 0 where
  pub data_of : ℕ → List ℕ
  pub error_of : ℕ → Text
  pub encodes :
      (amount : ℕ)
      → amount < uint256_limit
      → quoter.encode_data record { token_in = a; token_out = b; amount_in = amount; fee = fee }
        ≡ ok (data_of amount)
  pub calls :
      (amount : ℕ)
      → amount < uint256_limit
      → quoter.call record { token_in = a; token_out = b; amount_in = amount; fee = fee }
        ≡ answered (error_of amount) (quoter.decode) (answer (quoter.address, data_of amount))
  pub bounded :
      (return_data : List ℕ) (outputs : QuoteOutputs)
      → quoter.decode return_data ≡ ok outputs
      → outputs.0 < uint256_limit

module _ (adapters : Dict QuoteAdapter) (observed_block : Option ℕ)
    (answer : RawCall → Bool × List ℕ) (tokens : List Text) (index : ℕ) (pool : PoolMetadata) where
  -- Suppose that the registry has the Uniswap adapter for a pool whose fee is known, that the tokens
  -- of the hop have checksums, that the node has a block, and that web3 encodes amounts below
  -- 2 ^ 256, decodes the node's answer to the encoded call when it calls the contract, and decodes
  -- to amounts below 2 ^ 256. Then the adapter encodes the quote of every amount below 2 ^ 256 as a
  -- call; its own quote has the output that its decoder finds in the answer to that call, and none
  -- where that finds none; and that quote is for the amount asked, with an output below 2 ^ 256.
  pub uniswap-IsAlike :
      (quoter : UniswapV3Quoter) (fee : ℤ) (token_in token_out a b : Text) (block : Option ℕ)
      → find_adapter adapters (pool.venue) ≡ some (UniswapV3.adapter quoter)
      → pool_kwargs pool ≡ with_fee (some fee)
      → item tokens index ≡ ok token_in
      → item tokens (index + 1) ≡ ok token_out
      → quoter.web3.to_checksum_address token_in ≡ some a
      → quoter.web3.to_checksum_address token_out ≡ some b
      → quoter.web3.block_number ≡ ok block
      → IsUniswapServed quoter answer a b fee
      → IsAlike adapters observed_block answer tokens index pool
  unfolding UniswapV3.params UniswapV3.encode_quote UniswapV3.decode_quote
      UniswapV3.quote_exact_input
  uniswap-IsAlike quoter fee token_in token_out a b block found kwargs i j checks_in checks_out
        has_block served =
      record {
        adapter = UniswapV3.adapter quoter;
        found = found;
        token_in = token_in;
        token_out = token_out;
        has_in = i;
        has_out = j;
        call_of = λ amount. (quoter.address, served.data_of amount);
        encodes = λ e l. rw (kwargs, checks_in, checks_out, served.encodes (e.current) l) refl;
        same_out = λ e l.
            rw (kwargs, checks_in, checks_out, served.calls (e.current) l, has_block)
              (out_of-answered (served.error_of (e.current)) (quoter.decode)
                (answer (quoter.address, served.data_of (e.current))) _ _ (λ outputs. refl));
        same_in = λ amount quote l e. quoted amount quote l e;
      }
    where
      quoted :
          (amount : ℕ) (quote : Quote)
          → amount < uint256_limit
          → UniswapV3.quote_exact_input quoter token_in token_out amount (pool_kwargs pool)
            ≡ ok quote
          → (quote.amount_in ≡ amount) × (quote.amount_out < uint256_limit)
      quoted amount quote l e =
          let params_eq : UniswapV3.params quoter token_in token_out amount
                (UniswapV3.fee_of (pool_kwargs pool))
              ≡ ok record { token_in = a; token_out = b; amount_in = amount; fee = fee } =
            rw (kwargs, checks_in, checks_out) refl in
          let (p, e1, e2) =
            bind-eq-ok
              (UniswapV3.params quoter token_in token_out amount
                (UniswapV3.fee_of (pool_kwargs pool)))
              _ e in
          let (outputs, e3, e4) = bind-eq-ok (quoter.call p) _ e2 in
          let (n, e5, e6) = bind-eq-ok (quoter.web3.block_number) _ e4 in
          let called =
            sym (served.calls amount l)
            ∙ subst (λ x. quoter.call x ≡ ok outputs) (ok-injective (sym e1 ∙ params_eq)) e3 in
          (
            sym (ap (λ (q : Quote). q.amount_in) (ok-injective e6)),
            subst (λ (q : Quote). q.amount_out < uint256_limit) (ok-injective e6)
                (served.bounded ((answer (quoter.address, served.data_of amount)).1) outputs (
                  answered-ok (served.error_of amount) (quoter.decode)
                    (answer (quoter.address, served.data_of amount)) outputs called)),
          )

-- The same for the router, with the flag and the factory of the route.
pub record IsAerodromeServed (router : AerodromeRouter) (answer : RawCall → Bool × List ℕ)
    (a b : Text) (stable : Bool) : Type 0 where
  pub data_of : ℕ → List ℕ
  pub error_of : ℕ → Text
  pub encodes :
      (amount : ℕ)
      → amount < uint256_limit
      → router.encode_data (Aerodrome.route_of router a b stable amount) ≡ ok (data_of amount)
  pub calls :
      (amount : ℕ)
      → amount < uint256_limit
      → router.call (Aerodrome.route_of router a b stable amount)
        ≡ answered (error_of amount) (router.decode) (answer (router.address, data_of amount))
  pub bounded :
      (return_data : List ℕ) (amounts : List ℕ) (n : ℕ)
      → router.decode return_data ≡ ok amounts
      → last_amount amounts ≡ ok n
      → n < uint256_limit

module _ (adapters : Dict QuoteAdapter) (observed_block : Option ℕ)
    (answer : RawCall → Bool × List ℕ) (tokens : List Text) (index : ℕ) (pool : PoolMetadata) where
  -- Suppose that the registry has the Aerodrome adapter for a pool whose stable flag is known, that
  -- the tokens of the hop have checksums, that the node has a block, and that web3 encodes amounts
  -- below 2 ^ 256, decodes the node's answer to the encoded call when it calls the contract, and
  -- decodes to lists whose last amount is below 2 ^ 256. Then the adapter encodes the quote of every
  -- amount below 2 ^ 256 as a call; its own quote has the output that its decoder finds in the
  -- answer to that call, and none where that finds none; and that quote is for the amount asked,
  -- with an output below 2 ^ 256.
  pub aerodrome-IsAlike :
      (router : AerodromeRouter) (stable : Bool) (token_in token_out a b : Text) (block : Option ℕ)
      → find_adapter adapters (pool.venue) ≡ some (Aerodrome.adapter router)
      → pool_kwargs pool ≡ with_stable (some stable)
      → item tokens index ≡ ok token_in
      → item tokens (index + 1) ≡ ok token_out
      → router.web3.to_checksum_address token_in ≡ some a
      → router.web3.to_checksum_address token_out ≡ some b
      → router.web3.block_number ≡ ok block
      → IsAerodromeServed router answer a b stable
      → IsAlike adapters observed_block answer tokens index pool
  unfolding Aerodrome.route Aerodrome.encode_quote Aerodrome.decode_quote
      Aerodrome.quote_exact_input Aerodrome.quote_of
  aerodrome-IsAlike router stable token_in token_out a b block found kwargs i j checks_in checks_out
        has_block served =
      record {
        adapter = Aerodrome.adapter router;
        found = found;
        token_in = token_in;
        token_out = token_out;
        has_in = i;
        has_out = j;
        call_of = λ amount. (router.address, served.data_of amount);
        encodes = λ e l. rw (kwargs, checks_in, checks_out, served.encodes (e.current) l) refl;
        same_out = λ e l.
            rw (kwargs, checks_in, checks_out, served.calls (e.current) l, has_block)
              (out_of-answered (served.error_of (e.current)) (router.decode)
                (answer (router.address, served.data_of (e.current))) _ _
                (λ amounts. same_last (e.current) block observed_block (last_amount amounts)));
        same_in = λ amount quote l e. quoted amount quote l e;
      }
    where
      same_last :
          (amount : ℕ) (m n : Option ℕ) (r : Reply ℕ)
          → out_of (do
            amount_out ← r
            ok (Aerodrome.quote_with router token_in token_out amount m amount_out stable))
            ≡ out_of (do
              amount_out ← r
              ok (Aerodrome.quote_with router token_in token_out amount n amount_out stable))
      same_last amount m n (ok x) = refl
      same_last amount m n (err x) = refl

      quoted :
          (amount : ℕ) (quote : Quote)
          → amount < uint256_limit
          → Aerodrome.quote_exact_input router token_in token_out amount (pool_kwargs pool)
            ≡ ok quote
          → (quote.amount_in ≡ amount) × (quote.amount_out < uint256_limit)
      quoted amount quote l e =
          let params_eq : Aerodrome.route router token_in token_out amount (pool_kwargs pool)
              ≡ ok (Aerodrome.route_of router a b stable amount) =
            rw (kwargs, checks_in, checks_out) refl in
          let (p, e1, e2) =
            bind-eq-ok (Aerodrome.route router token_in token_out amount (pool_kwargs pool)) _ e in
          let (amounts, e3, e4) = bind-eq-ok (router.call p) _ e2 in
          let (n, e5, e6) = bind-eq-ok (router.web3.block_number) _ e4 in
          let (out, e7, e8) = bind-eq-ok (last_amount amounts) _ e6 in
          let (flag, e9, e10) = bind-eq-ok (Aerodrome.stable_flag (pool_kwargs pool)) _ e8 in
          let called =
            sym (served.calls amount l)
            ∙ subst (λ x. router.call x ≡ ok amounts) (ok-injective (sym e1 ∙ params_eq)) e3 in
          (
            sym (ap (λ (q : Quote). q.amount_in) (ok-injective e10)),
            subst (λ (q : Quote). q.amount_out < uint256_limit) (ok-injective e10)
                (served.bounded ((answer (router.address, served.data_of amount)).1) amounts out
                  (answered-ok (served.error_of amount) (router.decode)
                    (answer (router.address, served.data_of amount)) amounts called)
                  e7),
          )
