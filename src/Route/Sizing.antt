-- ===== src/Route/Sizing.antt =====
-- The sizes that the optimizer quotes, and its choice among them: `_candidate_amounts`,
-- `_refine_amounts` and `_pick_best` of python/src/arb_bot/route_engine.py.
use base_arb_bot.Prelude.{
  ℕ, zero, suc, ◌+◌, ◌-◌, ◌*◌, ◌/◌, max, true, false, not, ◌&&◌, ◌||◌, List, [], ◌∷◌, length,
  get_or, ltb, leb, ◌==◌, if◌then◌else◌, Option, none, some,
}
use base_arb_bot.Prelude.Numbers.{add_number, number_set, mem_number, NumberDict}
use base_arb_bot.Prelude.Int.{ℤ, pos, ◌-ℤ◌, ltb_ℤ}
use base_arb_bot.Rlp.{bit_length}

-- The loop of `_candidate_amounts`; each round halves `x`, so its bits are rounds enough.
unfoldable pub halve : ℕ → ℕ → ℕ → List ℕ → List ℕ
halve limit zero x values = values
halve limit (suc fuel) x values = elim (ltb 1 x && ltb (length values) limit) [
  | true ↦ halve limit fuel (x / 2) (add_number (max 1 (x / 2)) values)
  | false ↦ values
]

-- `_candidate_amounts` for a balance, with the limit `max_quote_evaluations`.
unfoldable pub candidate_amounts : ℕ → ℕ → List ℕ
candidate_amounts limit upper =
    if upper == 0 then [] else halve limit (bit_length upper) upper (number_set (upper ∷ 1 ∷ []))

-- `xs.index(x)`
unfoldable pub index_of : ℕ → List ℕ → ℕ
index_of x [] = 0
index_of x (y ∷ ys) = if x == y then 0 else suc (index_of x ys)

-- The loop over `k`, from the last to the first.
unfoldable pub between : (lo span points best k : ℕ) → List ℕ
between lo span points best zero = []
between lo span points best (suc k) =
    let rest = between lo span points best k in
    let candidate = lo + span * suc k / (points + 1) in
    if ltb 0 candidate && not (candidate == best) then add_number candidate rest else rest

unfoldable pub lower_neighbour : List ℕ → ℕ → ℕ
lower_neighbour ordered best =
    let i = index_of best ordered in if ltb 0 i then get_or ordered (i - 1) 0 else max 1 (best / 2)

unfoldable pub upper_neighbour : List ℕ → ℕ → ℕ
upper_neighbour ordered best =
    let i = index_of best ordered in
    if ltb (i + 1) (length ordered) then get_or ordered (i + 1) 0 else best

unfoldable pub refine_amounts : List ℕ → ℕ → ℕ → List ℕ
refine_amounts grid best points =
    let ordered = number_set grid in
    let lo = lower_neighbour ordered best in
    let hi = upper_neighbour ordered best in
    if (points == 0) || not (mem_number best ordered) || leb hi lo
    then []
    else between lo (hi - lo) points best points

-- The best size so far, what it returns, and the profit.
pub record Choice : Type 0 where
  pub amount : ℕ
  pub out : ℕ

unfoldable pub profit : Choice → ℤ
profit c = pos (c.out) -ℤ pos (c.amount)

abbrev pub better : Option Choice → Choice → Option Choice
better none c = some c
better (some b) c = if ltb_ℤ (profit b) (profit c) then some c else some b

module _ {ℓ} {Q : Type ℓ} where
  abbrev pub choice_of : ℕ × (ℕ × Q) → Choice
  choice_of (amount, (out, quotes)) = record { amount = amount; out = out }

  unfoldable pub pick_from : Option Choice → NumberDict (ℕ × Q) → Option Choice
  pick_from best [] = best
  pick_from best (e ∷ candidates) = pick_from (better best (choice_of e)) candidates

  -- `_pick_best`
  unfoldable pub pick_best : NumberDict (ℕ × Q) → Option Choice
  pick_best candidates = pick_from none candidates
