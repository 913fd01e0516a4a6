-- ===== src/Adapters/Tests.antt =====
-- Concrete adapters (python/src/arb_bot/adapters).
use base_arb_bot.Adapters.{Web3}
use base_arb_bot.Adapters.UniswapV3 as UniswapV3
use base_arb_bot.Adapters.UniswapV3.{UniswapV3Quoter, QuoteOutputs}
use base_arb_bot.Adapters.Aerodrome as Aerodrome
use base_arb_bot.Adapters.Aerodrome.{AerodromeRouter, last_amount}
use base_arb_bot.Adapters.Alike.{
  IsUniswapServed, IsAerodromeServed, uniswap-IsAlike, aerodrome-IsAlike,
}
use base_arb_bot.Finalize.{Reply, canonical_venue}
use base_arb_bot.Graph.{PoolMetadata}
use base_arb_bot.Route.Hops.{IsAlike}
use base_arb_bot.Route.Quotes.{
  RawCall, QuoteAdapter, find_adapter, pool_kwargs, with_fee, with_stable,
}
use base_arb_bot.Prelude.{
  ℕ, ◌%◌, ◌^◌, ◌<◌, Bool, true, List, [], ◌∷◌, ok, err, some, none, ◌≡◌, refl, sym, subst,
  ok-injective, arith,
}
use base_arb_bot.Prelude.Text.{codes, text_eq, contains, starts_with, lower, strip, lstrip}
use base_arb_bot.Prelude.Int.{pos}
use base_arb_bot.Prelude.Dict.{Dict, get}

abbrev sample_web3 : Web3
sample_web3 = record { to_checksum_address = λ address. some address; block_number = ok (some 41) }

-- A contract that gives the amount back.
abbrev sample_answer : RawCall → Bool × List ℕ
sample_answer call = (true, call.1)

abbrev decode_single : List ℕ → Reply QuoteOutputs
decode_single [] = err (codes "InsufficientDataBytes")
decode_single (n ∷ return_data) = ok (n % 2 ^ 256, 7, 1, 90)

abbrev sample_quoter : UniswapV3Quoter
sample_quoter = record {
  web3 = sample_web3;
  address = codes "0xq";
  venue = codes "uniswap-v3";
  encode_data = λ p. ok (p.amount_in ∷ []);
  call = λ p. ok (p.amount_in % 2 ^ 256, 7, 1, 90);
  decode = decode_single;
}

decode_single_bounded :
    (return_data : List ℕ) (outputs : QuoteOutputs)
    → decode_single return_data ≡ ok outputs
    → outputs.0 < 2 ^ 256
decode_single_bounded [] outputs e = absurd cc
decode_single_bounded (n ∷ return_data) outputs e =
    subst (λ (o : QuoteOutputs). o.0 < 2 ^ 256) (ok-injective e) (omega arith)

sample-IsUniswapServed :
    IsUniswapServed sample_quoter sample_answer (codes "0x1") (codes "0x2") (pos 500)
sample-IsUniswapServed = record {
  data_of = λ amount. amount ∷ [];
  error_of = λ amount. codes "ContractLogicError";
  encodes = λ amount l. refl;
  calls = λ amount l. refl;
  bounded = decode_single_bounded;
}

abbrev decode_amounts : List ℕ → Reply (List ℕ)
decode_amounts [] = err (codes "InsufficientDataBytes")
decode_amounts (n ∷ return_data) = ok (n ∷ (n % 2 ^ 256) ∷ [])

abbrev sample_router : AerodromeRouter
sample_router = record {
  web3 = sample_web3;
  address = codes "0xr";
  factory = codes "0xf";
  venue = codes "aerodrome";
  encode_data = λ p. ok (p.amount_in ∷ []);
  call = λ p. ok (p.amount_in ∷ (p.amount_in % 2 ^ 256) ∷ []);
  decode = decode_amounts;
}

decode_amounts_bounded :
    (return_data amounts : List ℕ) (n : ℕ)
    → decode_amounts return_data ≡ ok amounts
    → last_amount amounts ≡ ok n
    → n < 2 ^ 256
unfolding last_amount
decode_amounts_bounded [] amounts n e h = absurd cc
decode_amounts_bounded (m ∷ return_data) amounts n e h =
    let last : last_amount (m ∷ (m % 2 ^ 256) ∷ []) ≡ ok n =
      subst (λ x. last_amount x ≡ ok n) (sym (ok-injective e)) h in
    subst (λ x. x < 2 ^ 256) (ok-injective last) (omega arith)

sample-IsAerodromeServed :
    IsAerodromeServed sample_router sample_answer (codes "0x1") (codes "0x2") true
sample-IsAerodromeServed = record {
  data_of = λ amount. amount ∷ [];
  error_of = λ amount. codes "ContractLogicError";
  encodes = λ amount l. refl;
  calls = λ amount l. refl;
  bounded = decode_amounts_bounded;
}

abbrev sample_adapters : Dict QuoteAdapter
sample_adapters =
    (codes "uniswap-v3", UniswapV3.adapter sample_quoter)
    ∷ (codes "aerodrome", Aerodrome.adapter sample_router)
    ∷ []

abbrev fee_pool : PoolMetadata
fee_pool = record {
  address = codes "0x5";
  token0 = codes "0x1";
  token1 = codes "0x2";
  venue = codes "uniswap-v3";
  pool_type = codes "concentrated";
  fee = some (pos 500);
  stable = none;
}

abbrev stable_pool : PoolMetadata
stable_pool = record fee_pool {
  venue = codes "aerodrome";
  pool_type = codes "xyk";
  fee = none;
  stable = some true;
}

sample-found :
    (find_adapter sample_adapters (codes "uniswap-v3") ≡ some (UniswapV3.adapter sample_quoter))
    × (find_adapter sample_adapters (codes "aerodrome") ≡ some (Aerodrome.adapter sample_router))
unfolding find_adapter canonical_venue text_eq contains starts_with lower strip lstrip get
sample-found = (refl, refl)

sample-kwargs :
    (pool_kwargs fee_pool ≡ with_fee (some (pos 500)))
    × (pool_kwargs stable_pool ≡ with_stable (some true))
unfolding pool_kwargs canonical_venue text_eq contains starts_with lower strip lstrip
sample-kwargs = (refl, refl)

uniswap-IsAlike_example :
    IsAlike sample_adapters (some 41) sample_answer (codes "0x1" ∷ codes "0x2" ∷ []) 0 fee_pool
uniswap-IsAlike_example =
    uniswap-IsAlike sample_adapters (some 41) sample_answer (codes "0x1" ∷ codes "0x2" ∷ []) 0
      fee_pool sample_quoter (pos 500) (codes "0x1") (codes "0x2") (codes "0x1") (codes "0x2")
      (some 41) (sample-found.0) (sample-kwargs.0) refl refl refl refl refl sample-IsUniswapServed

aerodrome-IsAlike_example :
    IsAlike sample_adapters (some 41) sample_answer (codes "0x1" ∷ codes "0x2" ∷ []) 0 stable_pool
aerodrome-IsAlike_example =
    aerodrome-IsAlike sample_adapters (some 41) sample_answer (codes "0x1" ∷ codes "0x2" ∷ []) 0
      stable_pool sample_router true (codes "0x1") (codes "0x2") (codes "0x1") (codes "0x2")
      (some 41) (sample-found.1) (sample-kwargs.1) refl refl refl refl refl sample-IsAerodromeServed
