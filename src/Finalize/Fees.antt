-- ===== src/Finalize/Fees.antt =====
-- The whole fee of a transaction, as `finalize` of python/src/arb_bot/execution.py and of
-- python/src/arb_bot/batch_execution.py reckon it.
use base_arb_bot.Finalize.{Settings, Outside}
use base_arb_bot.Finalize.Run.{size_reply}
use base_arb_bot.Finalize.Converter.{convert}
use base_arb_bot.Graph.{LivePoolGraph}
use base_arb_bot.Rlp.{conservative_eip1559_signed_size}
use base_arb_bot.Prelude.{ℕ, ◌+◌, ◌*◌, ok, ◌≡◌}
use base_arb_bot.Prelude.Text.{Text}
use base_arb_bot.Prelude.Int.{pos}

-- The gas has the node's price; the L1 fee is the oracle's bound for a signed transaction of the
-- conservative size; and their sum, converted to the asset, is the units.
pub record IsFee (outside : Outside) (settings : Settings) (graph : LivePoolGraph)
    (asset calldata : Text) (gas_used gas_price l1_fee units : ℕ) : Type 0 where
  pub nonce : ℕ
  pub priority_fee : ℕ
  pub base_fee : ℕ
  pub tx_size : ℕ
  pub gas_price_eq : outside.gas_price ≡ ok gas_price
  pub nonce_eq : outside.nonce (settings.executor_owner_address) ≡ ok nonce
  pub priority_fee_eq : outside.priority_fee ≡ ok priority_fee
  pub base_fee_eq : outside.pending_base_fee ≡ ok base_fee
  pub tx_size_eq :
      size_reply (
        conservative_eip1559_signed_size
          (pos (settings.chain_id))
          (pos nonce)
          (pos priority_fee)
          (pos (base_fee + priority_fee))
          (pos gas_used)
          (settings.executor_address)
          calldata)
      ≡ ok tx_size
  pub l1_fee_eq : outside.l1_fee_upper_bound (settings.gas_price_oracle) tx_size ≡ ok l1_fee
  pub converted : convert outside settings graph asset (gas_used * gas_price + l1_fee) ≡ ok units
