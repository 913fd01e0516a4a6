-- ===== src/Adapters.antt =====
-- The adapters of the venues (python/src/arb_bot/adapters/uniswap_v3.py and aerodrome.py). What
-- web3 does is an argument: checksums, the encoding of a call's data, the call of the contract in
-- the pending block, the ABI decoder, and the number of that block. A reply is a value or the name
-- of the exception's type.
pub mod UniswapV3
pub mod Aerodrome
pub mod Alike
mod Tests
use base_arb_bot.Finalize.{Reply, required}
use base_arb_bot.Route.Quotes.{
  RawCall, Quote, QuoteAdapter, QuoteKwargs, Scalar, str, int, bool, null, with_fee, with_stable,
  block_only,
}
use base_arb_bot.Prelude.{ℕ, Bool, true, false, List, [], ◌∷◌, ok, err, ◌>>=◌, Option, none, some}
use base_arb_bot.Prelude.Text.{Text, codes}
use base_arb_bot.Prelude.Int.{ℤ, pos}
use base_arb_bot.Prelude.Dict.{Dict}

pub record Web3 : Type 0 where
  pub to_checksum_address : Text → Option Text
  pub block_number : Reply (Option ℕ)

abbrev pub checksummed : Web3 → Text → Reply Text
checksummed web3 address = required (web3.to_checksum_address address) (codes "ValueError")
