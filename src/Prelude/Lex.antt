-- ===== src/Prelude/Lex.antt =====
-- Strict total orders with Boolean tests, and the lexicographic ones that Python uses to compare
-- tuples and lists.
use base_arb_bot.Prelude.Tests.{ltb, ◌==◌, if◌then◌else◌, ==_refl, ==_iff}
use base_arb_bot.Prelude.Text.{Text, text_eq, text_ltb, text_eq_refl, text_eq_iff}
use Prim.Native.Nat.{ℕ}
use mathlib.Core.Path.{◌≡◌, refl, sym, subst, ◌∙◌}
use mathlib.Core.Bool.{Bool, true, false, ◌&&◌, ◌||◌}
use mathlib.Core.List.{[], ◌∷◌}
use native.Mathlib.Omega.{arith}

pub record IsOrder {ℓ} {A : Type ℓ} (eq lt : A → A → Bool) : Type ℓ where
  pub eq_refl : (a : A) → eq a a ≡ true
  pub eq_sound : (a b : A) → eq a b ≡ true → a ≡ b
  pub irreflexive : (a : A) → lt a a ≡ false
  pub transitive : (a b c : A) → lt a b ≡ true → lt b c ≡ true → lt a c ≡ true
  pub total : (a b : A) → eq a b ≡ false → lt a b ≡ false → lt b a ≡ true

pub number-IsOrder : IsOrder ◌==◌ ltb
number-IsOrder = record {
  eq_refl = ==_refl;
  eq_sound = λ a b h. (==_iff a b).0 h;
  irreflexive = λ a. ground (arith);
  transitive = λ a b c h k. ground (arith);
  total = λ a b h k. ground (arith);
}

-- One step of a comparison: the heads, and where they are equal the result for the tails.
module _ {ℓ} {A : Type ℓ} (eq lt : A → A → Bool) (o : IsOrder eq lt) where
  abbrev pub step : A → A → Bool → Bool
  step a b rest = if eq a b then rest else lt a b

  eq_at : (a b : A) → a ≡ b → eq a b ≡ true
  eq_at a b q = subst (λ x. eq a x ≡ true) q (o.eq_refl a)

  eq_swap : (a b : A) → eq a b ≡ false → eq b a ≡ false
  eq_swap a b h = by_test (eq b a) refl
    where
      by_test : (t : Bool) → eq b a ≡ t → t ≡ false
      by_test false q = refl
      by_test true q = sym (eq_at a b (sym (o.eq_sound b a q))) ∙ h

  pub step_trans :
      (a b c : A) (r s t : Bool)
      → (r ≡ true → s ≡ true → t ≡ true)
      → step a b r ≡ true
      → step b c s ≡ true
      → step a c t ≡ true
  step_trans a b c r s t f h k = by_tests (eq a b) (eq b c) refl refl h k
    where
      far :
          lt a b ≡ true → lt b c ≡ true → (e : Bool) → eq a c ≡ e → (if e then t else lt a c) ≡ true
      far h' k' false q = o.transitive a b c h' k'
      far h' k' true q = absurd (
          cc (
            o.irreflexive a,
            o.transitive a b a h' (subst (λ x. lt b x ≡ true) (sym (o.eq_sound a c q)) k'),
          ))

      by_tests :
          (u v : Bool)
          → eq a b ≡ u
          → eq b c ≡ v
          → (if u then r else lt a b) ≡ true
          → (if v then s else lt b c) ≡ true
          → step a c t ≡ true
      by_tests true true p q h' k' = rw (eq_at a c (o.eq_sound a b p ∙ o.eq_sound b c q)) (f h' k')
      by_tests true false p q h' k' =
          subst (λ x. step x c t ≡ true) (sym (o.eq_sound a b p)) (rw q k')
      by_tests false true p q h' k' = subst (λ x. step a x t ≡ true) (o.eq_sound b c q) (rw p h')
      by_tests false false p q h' k' = far h' k' (eq a c) refl

  pub step-irreflexive : (a : A) (r : Bool) → r ≡ false → step a a r ≡ false
  step-irreflexive a r h = rw (o.eq_refl a) h

  pub step-total :
      (a b : A) (e r s : Bool)
      → (e ≡ false → r ≡ false → s ≡ true)
      → (eq a b && e) ≡ false
      → step a b r ≡ false
      → step b a s ≡ true
  step-total a b e r s f h k = by_test (eq a b) refl h k
    where
      by_test :
          (t : Bool)
          → eq a b ≡ t
          → (t && e) ≡ false
          → (if t then r else lt a b) ≡ false
          → step b a s ≡ true
      by_test true p h' k' = rw (eq_at b a (sym (o.eq_sound a b p))) (f h' k')
      by_test false p h' k' = rw (eq_swap a b p) (o.total a b p k')

text_step : (c d : ℕ) (r : Bool) → (ltb c d || (c == d && r)) ≡ step ◌==◌ ltb number-IsOrder c d r
text_step c d r = ground (arith)

text-irreflexive : (s : Text) → text_ltb s s ≡ false
unfolding text_ltb
text-irreflexive [] = refl
text-irreflexive (c ∷ s) =
    text_step c c (text_ltb s s)
    ∙ step-irreflexive ◌==◌ ltb number-IsOrder c (text_ltb s s) (text-irreflexive s)

text-transitive : (s t u : Text) → text_ltb s t ≡ true → text_ltb t u ≡ true → text_ltb s u ≡ true
unfolding text_ltb
text-transitive [] [] u h k = absurd cc
text-transitive [] (d ∷ t) [] h k = absurd cc
text-transitive [] (d ∷ t) (e ∷ u) h k = refl
text-transitive (c ∷ s) [] u h k = absurd cc
text-transitive (c ∷ s) (d ∷ t) [] h k = absurd cc
text-transitive (c ∷ s) (d ∷ t) (e ∷ u) h k =
    text_step c e (text_ltb s u)
    ∙ step_trans ◌==◌ ltb number-IsOrder c d e (text_ltb s t) (text_ltb t u) (text_ltb s u)
        (text-transitive s t u) (sym (text_step c d (text_ltb s t)) ∙ h)
        (sym (text_step d e (text_ltb t u)) ∙ k)

text-total : (s t : Text) → text_eq s t ≡ false → text_ltb s t ≡ false → text_ltb t s ≡ true
unfolding text_ltb text_eq
text-total [] [] h k = absurd cc
text-total [] (d ∷ t) h k = absurd cc
text-total (c ∷ s) [] h k = refl
text-total (c ∷ s) (d ∷ t) h k =
    text_step d c (text_ltb t s)
    ∙ step-total ◌==◌ ltb number-IsOrder c d (text_eq s t) (text_ltb s t) (text_ltb t s)
        (text-total s t) h (sym (text_step c d (text_ltb s t)) ∙ k)

pub text-IsOrder : IsOrder text_eq text_ltb
text-IsOrder = record {
  eq_refl = text_eq_refl;
  eq_sound = λ s t h. (text_eq_iff s t).0 h;
  irreflexive = text-irreflexive;
  transitive = text-transitive;
  total = text-total;
}
