-- ===== src/Finalize/Tests.antt =====
-- A concrete run of the finalizer (python/src/arb_bot/execution.py).
use base_arb_bot.Finalize.{
  ExecutionFinalization, canonical_venue, adapter_data, missing_config, configured, adapter_for,
}
use base_arb_bot.Finalize.Converter.{convert}
use base_arb_bot.Finalize.Run.{
  adapters_for, verify_all, verify_contracts, build_legs, flashloan_premium, loan_blockers,
  choose_target_block, premium_units, pre_gas_profit, charged, charge, settle, on_settled,
  on_profit, on_loan, on_snapshot, snapshot_reply, on_verified, on_adapters, on_chain,
  on_configured, finalize,
}
use base_arb_bot.Finalize.Eligible.{IsPaid}
use base_arb_bot.Finalize.Gates.{finalize-IsPaid}
use base_arb_bot.Graph.{empty_graph}
use base_arb_bot.Rlp.{
  count_bits, bit_length, nat_bytes, int_bytes, rlp_bytes, rlp_list, rlp, rlp_items, unhex,
  signed_size, conservative_eip1559_signed_size,
}
use base_arb_bot.Prelude.{true, [], ◌∷◌, ok, none, some, ◌≡◌, refl}
use base_arb_bot.Prelude.Text.{codes, text_eq, contains, starts_with, lower, strip, lstrip}
use base_arb_bot.Prelude.Bytes.{to_bytes, from_hex}
use base_arb_bot.Prelude.Int.{◌-ℤ◌}
use base_arb_bot.Prelude.Dict.{mem, add, unique}
use base_arb_bot.Finalize.Samples.{
  sample_cycle, sample_settings, sample_aave, sample_simulation, sample_outside,
}

abbrev sample_final : ExecutionFinalization
sample_final =
    charged sample_outside sample_settings empty_graph sample_cycle 10000 11000 (20000 ∷ 11000 ∷ [])
      none sample_aave 42 (codes "0xabcdef", codes "0x77") sample_simulation (some 120) 120 3 85 445

sample-finalized :
    finalize sample_outside sample_settings empty_graph sample_cycle 10000 11000
      (20000 ∷ 11000 ∷ [])
      none
    ≡ ok sample_final
unfolding finalize on_configured configured missing_config strip lstrip on_chain on_adapters
    adapters_for adapter_for canonical_venue text_eq contains starts_with lower on_verified
    verify_contracts verify_all unique add mem on_snapshot snapshot_reply on_loan loan_blockers
    on_profit pre_gas_profit premium_units flashloan_premium on_settled settle build_legs ◌-ℤ◌
    adapter_data choose_target_block charge convert conservative_eip1559_signed_size signed_size
    unhex rlp rlp_items rlp_bytes rlp_list int_bytes nat_bytes bit_length count_bits to_bytes
    from_hex
sample-finalized = refl

sample-eligible : sample_final.submission_eligible ≡ true
unfolding charged pre_gas_profit premium_units flashloan_premium ◌-ℤ◌
sample-eligible = refl

finalize-IsPaid_example :
    IsPaid sample_outside sample_settings empty_graph sample_cycle 10000 11000
      (20000 ∷ 11000 ∷ [])
      none
      sample_final
finalize-IsPaid_example =
    finalize-IsPaid sample_outside sample_settings empty_graph sample_cycle 10000 11000
      (20000 ∷ 11000 ∷ []) none sample_final sample-finalized sample-eligible
