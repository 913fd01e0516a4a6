-- ===== src/Adapters/Aerodrome.antt =====
-- `AerodromeRouter` of python/src/arb_bot/adapters/aerodrome.py.
use base_arb_bot.Adapters.{Web3, checksummed}
use base_arb_bot.Finalize.{Reply, required}
use base_arb_bot.Route.Quotes.{
  RawCall, Quote, QuoteAdapter, QuoteKwargs, str, bool, with_fee, with_stable, block_only,
}
use base_arb_bot.Prelude.{ℕ, Bool, false, List, [], ◌∷◌, ok, err, ◌>>=◌, Option, none, some}
use base_arb_bot.Prelude.Text.{Text, codes}

-- One route of `_route`, with the amount.
pub record RouteParams : Type 0 where
  pub amount_in : ℕ
  pub token_in : Text
  pub token_out : Text
  pub stable : Bool
  pub factory : Text

pub record AerodromeRouter : Type 0 where
  pub web3 : Web3
  pub address : Text
  pub factory : Text
  pub venue : Text
  pub encode_data : RouteParams → Reply (List ℕ)
  pub call : RouteParams → Reply (List ℕ)
  pub decode : List ℕ → Reply (List ℕ)

-- `kwargs.get("stable")`
abbrev pub stable_of : QuoteKwargs → Option Bool
stable_of (with_fee fee) = none
stable_of (with_stable stable) = stable
stable_of block_only = none

-- `bool(kwargs["stable"])`
abbrev pub stable_flag : QuoteKwargs → Reply Bool
stable_flag (with_fee fee) = err (codes "KeyError")
stable_flag (with_stable none) = ok false
stable_flag (with_stable (some stable)) = ok stable
stable_flag block_only = err (codes "KeyError")

-- `amounts[-1]`
unfoldable pub last_amount : List ℕ → Reply ℕ
last_amount [] = err (codes "IndexError")
last_amount (n ∷ []) = ok n
last_amount (n ∷ m ∷ amounts) = last_amount (m ∷ amounts)

module _ (router : AerodromeRouter) where
  abbrev pub route_of : Text → Text → Bool → ℕ → RouteParams
  route_of a b stable amount_in = record {
    amount_in = amount_in;
    token_in = a;
    token_out = b;
    stable = stable;
    factory = router.factory;
  }

  unfoldable pub route : Text → Text → ℕ → QuoteKwargs → Reply RouteParams
  route token_in token_out amount_in kwargs = do
    stable ← required (stable_of kwargs) (codes "ValueError")
    a ← checksummed (router.web3) token_in
    b ← checksummed (router.web3) token_out
    ok (route_of a b stable amount_in)

  unfoldable pub encode_quote : Text → Text → ℕ → QuoteKwargs → Reply RawCall
  encode_quote token_in token_out amount_in kwargs = do
    p ← route token_in token_out amount_in kwargs
    data_bytes ← router.encode_data p
    ok (router.address, data_bytes)

  abbrev pub quote_with : Text → Text → ℕ → Option ℕ → ℕ → Bool → Quote
  quote_with token_in token_out amount_in block_number amount_out stable = record {
    venue = router.venue;
    token_in = token_in;
    token_out = token_out;
    amount_in = amount_in;
    amount_out = amount_out;
    gas_estimate = none;
    block_number = block_number;
    metadata =
        (codes "stable", bool stable) ∷ (codes "block_identifier", str (codes "pending")) ∷ [];
  }

  unfoldable pub quote_of : Text → Text → ℕ → Option ℕ → QuoteKwargs → List ℕ → Reply Quote
  quote_of token_in token_out amount_in block_number kwargs amounts = do
    amount_out ← last_amount amounts
    stable ← stable_flag kwargs
    ok (quote_with token_in token_out amount_in block_number amount_out stable)

  unfoldable pub decode_quote : List ℕ → Text → Text → ℕ → Option ℕ → QuoteKwargs → Reply Quote
  decode_quote return_data token_in token_out amount_in block_number kwargs = do
    amounts ← router.decode return_data
    quote_of token_in token_out amount_in block_number kwargs amounts

  unfoldable pub quote_exact_input : Text → Text → ℕ → QuoteKwargs → Reply Quote
  quote_exact_input token_in token_out amount_in kwargs = do
    p ← route token_in token_out amount_in kwargs
    amounts ← router.call p
    block_number ← router.web3.block_number
    quote_of token_in token_out amount_in block_number kwargs amounts

  abbrev pub adapter : QuoteAdapter
  adapter = record {
    quote_exact_input = quote_exact_input;
    encode_quote = some encode_quote;
    decode_quote = some decode_quote;
  }
