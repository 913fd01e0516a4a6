-- ===== src/Prelude/Loop.antt =====
-- `for x in xs` over a state, with a body that may raise; and rules for its result.
use base_arb_bot.Prelude.Tests.{Bool-cases}
use base_arb_bot.Prelude.Raises.{Result, ok, ◌>>=◌, bind-eq-ok, ok-injective}
use base_arb_bot.Prelude.Lists.{All}
use base_arb_bot.Prelude.Text.{Text, text_eq, text_eq_iff}
use base_arb_bot.Prelude.Dict.{mem}
use mathlib.Core.Path.{◌≡◌, refl, sym, subst}
use mathlib.Core.Bool.{true}
use mathlib.Core.Logic.{inl, inr}
use mathlib.Core.List.{List, [], ◌∷◌, Memᴰ}
use native.Mathlib.Omega.{arith}

-- The call returns, and its value has the property.
pub record Returns {ℓ κ μ} {E : Type ℓ} {A : Type κ} (P : A → Type μ) (r : Result E A)
    : Type (ℓ ⊔ κ ⊔ μ) where
  pub value : A
  pub returned : r ≡ ok value
  pub holds : P value

module _ {ℓ κ} {E : Type ℓ} {A : Type κ} where
  pub returns {μ} : (P : A → Type μ) (a : A) → P a → Returns {E = E} P (ok a)
  returns P a p = record { value = a; returned = refl; holds = p }

  pub Returns-map {μ ν} :
      {P : A → Type μ} {Q : A → Type ν} {r : Result E A}
      → ((a : A) → P a → Q a)
      → Returns P r
      → Returns Q r
  Returns-map f r = record { value = r.value; returned = r.returned; holds = f r.value r.holds }

  pub bind-Returns {μ ν ξ} :
      {B : Type μ} {P : A → Type ν} {Q : B → Type ξ} {m : Result E A} (f : A → Result E B)
      → Returns P m
      → ((a : A) → P a → Returns Q (f a))
      → Returns Q (m >>= f)
  bind-Returns f r k = rw (r.returned) (k r.value r.holds)

  unfoldable pub for_each {μ} : {S : Type μ} → List A → (A → S → Result E S) → S → Result E S
  for_each [] body s = ok s
  for_each (x ∷ xs) body s = do s' ← body x s; for_each xs body s'

-- A loop invariant: when the body keeps it on each element, the loop returns and keeps it.
module _ {ℓ κ μ ν ξ} {E : Type ℓ} {A : Type κ} {S : Type μ} (Q : A → Type ν) (I : S → Type ξ)
    (body : A → S → Result E S) (keeps : (x : A) (s : S) → Q x → I s → Returns I (body x s)) where
  pub for_each-Returns : (xs : List A) (s : S) → All Q xs → I s → Returns I (for_each xs body s)
  unfolding for_each
  for_each-Returns [] s q i = returns I s i
  for_each-Returns (x ∷ xs) s q i =
      bind-Returns (λ s'. for_each xs body s') (keeps x s q.0 i)
        (λ s' i'. for_each-Returns xs s' q.1 i')

-- The element `a` is reached: its turn of the loop establishes R, and the others keep it.
module _ {ℓ μ ν ξ} {E : Type ℓ} {S : Type μ} (Q : Text → Type ν) (I R : S → Type ξ)
    (body : Text → S → Result E S) (keeps : (x : Text) (s : S) → Q x → I s → Returns I (body x s))
    (stays : (x : Text) (s : S) → Q x → I s → R s → Returns (λ s'. I s' × R s') (body x s)) where
  pub for_each-reaches :
      (a : Text) (xs : List Text) (s : S)
      → ((s' : S) → I s' → Returns (λ t. I t × R t) (body a s'))
      → mem a xs ≡ true
      → All Q xs
      → I s
      → Returns (λ t. I t × R t) (for_each xs body s)
  unfolding for_each mem
  for_each-reaches a [] s reach h q i = cc
  for_each-reaches a (x ∷ xs) s reach h q i = elim (Bool-cases (text_eq x a)) [
    | inl hit ↦
        bind-Returns (λ s'. for_each xs body s')
          (subst (λ y. Returns (λ t. I t × R t) (body y s)) (sym ((text_eq_iff x a).0 hit))
            (reach s i))
          (λ s' ir.
            for_each-Returns Q (λ t. I t × R t) body (λ y t qy it. stays y t qy it.0 it.1) xs s' q.1
              ir)
    | inr miss ↦
        bind-Returns (λ s'. for_each xs body s') (keeps x s q.0 i)
          (λ s' i'. for_each-reaches a xs s' reach (ground arith) q.1 i')
  ]

-- A loop that returned keeps what each turn that returns keeps.
module _ {ℓ κ μ ξ} {E : Type ℓ} {A : Type κ} {S : Type μ} (I : S → Type ξ)
    (body : A → S → Result E S) (keeps : (x : A) (s t : S) → body x s ≡ ok t → I s → I t) where
  pub for_each_keeps : (xs : List A) (s t : S) → for_each xs body s ≡ ok t → I s → I t
  unfolding for_each
  for_each_keeps [] s t e i = subst I (ok-injective e) i
  for_each_keeps (x ∷ xs) s t e i =
      let (s', e1, e2) = bind-eq-ok (body x s) _ e in for_each_keeps xs s' t e2 (keeps x s s' e1 i)

-- The same, of what each turn on an element of the list keeps.
module _ {ℓ κ μ ξ} {E : Type ℓ} {A : Type κ} {S : Type μ} (I : S → Type ξ)
    (body : A → S → Result E S) where
  pub for_each_keeps_on :
      (xs : List A) (s t : S)
      → ((x : A) (s t : S) → Memᴰ x xs → body x s ≡ ok t → I s → I t)
      → for_each xs body s ≡ ok t
      → I s
      → I t
  unfolding for_each
  for_each_keeps_on [] s t keeps e i = subst I (ok-injective e) i
  for_each_keeps_on (x ∷ xs) s t keeps e i =
      let (s', e1, e2) = bind-eq-ok (body x s) _ e in
      for_each_keeps_on xs s' t (λ y u v m. keeps y u v (Memᴰ.tail m)) e2
        (keeps x s s' (Memᴰ.head refl) e1 i)
