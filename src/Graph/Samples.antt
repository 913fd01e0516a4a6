-- ===== src/Graph/Samples.antt =====
-- Addresses for the tests (python/src/arb_bot/event_graph.py).
use base_arb_bot.Prelude.{ℕ, zero, suc, ◌+◌, ◌∷◌, []}
use base_arb_bot.Prelude.Text.{Text}

abbrev pub digits_of : ℕ → ℕ → Text
digits_of zero d = []
digits_of (suc n) d = (48 + d) ∷ digits_of n d

-- The address whose digits are all `d`.
abbrev pub address_of_digit : ℕ → Text
address_of_digit d = 48 ∷ 120 ∷ digits_of 40 d
