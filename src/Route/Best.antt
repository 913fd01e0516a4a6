-- ===== src/Route/Best.antt =====
-- `_pick_best` of python/src/arb_bot/route_engine.py chooses the most profitable size, and the
-- smallest of them.
use base_arb_bot.Prelude.{
  ℕ, ◌<◌, ◌≡◌, refl, ◌⊎◌, inl, inr, Bool, true, false, [], ◌∷◌, length, Option, none, some, All,
  if◌then◌else◌, arith,
}
use base_arb_bot.Prelude.Numbers.{NumberDict, AreAscending}
use base_arb_bot.Prelude.Int.{◌≤ℤ◌, ◌<ℤ◌, ltb_ℤ}
use base_arb_bot.Route.Sizing.{Choice, profit, choice_of, pick_from, pick_best}

-- `r` has at least the profit of `c`, and more if `c` is smaller.
abbrev pub Beats : Choice → Choice → Type 0
Beats r c = (profit c ≤ℤ profit r) × (c.amount < r.amount → profit c <ℤ profit r)

module _ {ℓ} {Q : Type ℓ} where
  abbrev pub IsOneOf : Choice → NumberDict (ℕ × Q) → Type 0
  IsOneOf r [] = ⊥
  IsOneOf r (e ∷ candidates) = (choice_of e ≡ r) ⊎ IsOneOf r candidates

  -- What the choice among the candidates must be.
  abbrev pub Picks : NumberDict (ℕ × Q) → Option Choice → Type 0
  Picks candidates none = length candidates ≡ 0
  Picks candidates (some r) = IsOneOf r candidates × All (λ e. Beats r (choice_of e)) candidates

  -- The same, of the loop with a best size so far.
  abbrev Keeps : Choice → NumberDict (ℕ × Q) → Option Choice → Type 0
  Keeps b candidates none = ⊥
  Keeps b candidates (some r) =
      ((b ≡ r) ⊎ IsOneOf r candidates) × Beats r b × All (λ e. Beats r (choice_of e)) candidates

  after_better :
      (b : Choice) (e : ℕ × (ℕ × Q)) (d : NumberDict (ℕ × Q)) (o : Option Choice)
      → profit b <ℤ profit (choice_of e)
      → Keeps (choice_of e) d o
      → Keeps b (e ∷ d) o
  after_better b e d none l k = k
  after_better b e d (some r) l (found, first, others) =
      (inr found, (omega (arith, first.0), λ h. omega (arith, first.0)), (first, others))

  after_worse :
      (b : Choice) (e : ℕ × (ℕ × Q)) (d : NumberDict (ℕ × Q)) (o : Option Choice)
      → b.amount < e.0
      → profit (choice_of e) ≤ℤ profit b
      → Keeps b d o
      → Keeps b (e ∷ d) o
  after_worse b e d none a l k = k
  after_worse b e d (some r) a l (found, first, others) = (
    found_later found,
    first,
    ((omega (arith, first.0), λ h. omega (arith, first.1 (omega (arith, h)))), others),
  )
    where
      found_later : (b ≡ r) ⊎ IsOneOf r d → (b ≡ r) ⊎ ((choice_of e ≡ r) ⊎ IsOneOf r d)
      found_later (inl h) = inl h
      found_later (inr h) = inr (inr h)

  pick_from-Keeps :
      (b : Choice) (d : NumberDict (ℕ × Q))
      → All (λ e. b.amount < e.0) d
      → AreAscending d
      → Keeps b d (pick_from (some b) d)
  unfolding pick_from
  pick_from-Keeps b [] h a = (inl refl, (omega arith, λ l. absurd (omega arith)), tt)
  pick_from-Keeps b (e ∷ d) h a =
      by_test (ltb_ℤ (profit b) (profit (choice_of e))) refl
        (pick_from-Keeps (choice_of e) d a.0 a.1) (pick_from-Keeps b d h.1 a.1)
    where
      by_test :
          (t : Bool)
          → ltb_ℤ (profit b) (profit (choice_of e)) ≡ t
          → Keeps (choice_of e) d (pick_from (some (choice_of e)) d)
          → Keeps b d (pick_from (some b) d)
          → Keeps b (e ∷ d) (pick_from (if t then some (choice_of e) else some b) d)
      by_test true q k l = after_better b e d _ (ground (arith)) k
      by_test false q k l = after_worse b e d _ h.0 (ground (arith)) l

  of_Keeps :
      (e : ℕ × (ℕ × Q)) (d : NumberDict (ℕ × Q)) (o : Option Choice)
      → Keeps (choice_of e) d o
      → Picks (e ∷ d) o
  of_Keeps e d none k = absurd k
  of_Keeps e d (some r) (found, first, others) = (found, (first, others))

  -- The choice is none only when there are no candidates; otherwise it is one of them, with at
  -- least the profit of every other, and more than that of every smaller size.
  pub pick_best-Picks : (d : NumberDict (ℕ × Q)) → AreAscending d → Picks d (pick_best d)
  unfolding pick_best pick_from
  pick_best-Picks [] a = refl
  pick_best-Picks (e ∷ d) a = of_Keeps e d _ (pick_from-Keeps (choice_of e) d a.0 a.1)
