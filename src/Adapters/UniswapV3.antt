-- ===== src/Adapters/UniswapV3.antt =====
-- `UniswapV3Quoter` of python/src/arb_bot/adapters/uniswap_v3.py.
use base_arb_bot.Adapters.{Web3, checksummed}
use base_arb_bot.Finalize.{Reply, required}
use base_arb_bot.Route.Quotes.{
  RawCall, Quote, QuoteAdapter, QuoteKwargs, Scalar, str, int, null, with_fee, with_stable,
  block_only,
}
use base_arb_bot.Prelude.{ℕ, List, [], ◌∷◌, ok, ◌>>=◌, Option, none, some}
use base_arb_bot.Prelude.Text.{Text, codes}
use base_arb_bot.Prelude.Int.{ℤ, pos}

-- The tuple of `_params`; the price limit is 0.
pub record QuoteParams : Type 0 where
  pub token_in : Text
  pub token_out : Text
  pub amount_in : ℕ
  pub fee : ℤ

-- The outputs: the amount, the price after, the crossed ticks and the gas.
abbrev pub QuoteOutputs : Type 0
QuoteOutputs = ℕ × ℕ × ℕ × ℕ

pub record UniswapV3Quoter : Type 0 where
  pub web3 : Web3
  pub address : Text
  pub venue : Text
  pub encode_data : QuoteParams → Reply (List ℕ)
  pub call : QuoteParams → Reply QuoteOutputs
  pub decode : List ℕ → Reply QuoteOutputs

-- `kwargs.get("fee")`
abbrev pub fee_of : QuoteKwargs → Option ℤ
fee_of (with_fee fee) = fee
fee_of (with_stable stable) = none
fee_of block_only = none

abbrev pub fee_scalar : Option ℤ → Scalar
fee_scalar none = null
fee_scalar (some fee) = int fee

module _ (quoter : UniswapV3Quoter) where
  unfoldable pub params : Text → Text → ℕ → Option ℤ → Reply QuoteParams
  params token_in token_out amount_in fee = do
    known_fee ← required fee (codes "ValueError")
    a ← checksummed (quoter.web3) token_in
    b ← checksummed (quoter.web3) token_out
    ok record { token_in = a; token_out = b; amount_in = amount_in; fee = known_fee }

  unfoldable pub encode_quote : Text → Text → ℕ → QuoteKwargs → Reply RawCall
  encode_quote token_in token_out amount_in kwargs = do
    p ← params token_in token_out amount_in (fee_of kwargs)
    data_bytes ← quoter.encode_data p
    ok (quoter.address, data_bytes)

  abbrev pub quote_of : Text → Text → ℕ → Option ℕ → QuoteKwargs → QuoteOutputs → Quote
  quote_of token_in token_out amount_in block_number kwargs outputs = record {
    venue = quoter.venue;
    token_in = token_in;
    token_out = token_out;
    amount_in = amount_in;
    amount_out = outputs.0;
    gas_estimate = some (outputs.3);
    block_number = block_number;
    metadata =
        (codes "fee", fee_scalar (fee_of kwargs))
        ∷ (codes "ticks_crossed", int (pos (outputs.2)))
        ∷ (codes "sqrt_after", int (pos (outputs.1)))
        ∷ (codes "block_identifier", str (codes "pending"))
        ∷ [];
  }

  unfoldable pub decode_quote : List ℕ → Text → Text → ℕ → Option ℕ → QuoteKwargs → Reply Quote
  decode_quote return_data token_in token_out amount_in block_number kwargs = do
    outputs ← quoter.decode return_data
    ok (quote_of token_in token_out amount_in block_number kwargs outputs)

  unfoldable pub quote_exact_input : Text → Text → ℕ → QuoteKwargs → Reply Quote
  quote_exact_input token_in token_out amount_in kwargs = do
    p ← params token_in token_out amount_in (fee_of kwargs)
    outputs ← quoter.call p
    block_number ← quoter.web3.block_number
    ok (quote_of token_in token_out amount_in block_number kwargs outputs)

  abbrev pub adapter : QuoteAdapter
  adapter = record {
    quote_exact_input = quote_exact_input;
    encode_quote = some encode_quote;
    decode_quote = some decode_quote;
  }
