-- ===== src/Prelude/Dict.antt =====
-- Python's `dict` with text keys, in insertion order, and sets of texts as lists.
use base_arb_bot.Prelude.Tests.{if◌then◌else◌}
use base_arb_bot.Prelude.Lists.{All}
use base_arb_bot.Prelude.Text.{Text, text_eq, text_ltb, text_eq_iff, text_eq_refl}
use mathlib.Core.Path.{◌≡◌, refl, ap}
use mathlib.Core.Bool.{Bool, true, false, not, ◌&&◌, ◌||◌}
use mathlib.Core.Option.{Option, none, some}
use mathlib.Core.List.{List, [], ◌∷◌}
use native.Mathlib.Omega.{arith}

abbrev pub Dict {ℓ} : Type ℓ → Type ℓ
Dict V = List (Text × V)

module _ {ℓ} {V : Type ℓ} where
  -- `d.get(key)`
  unfoldable pub get : Text → Dict V → Option V
  get key [] = none
  get key ((k, v) ∷ d) = if text_eq k key then some v else get key d

  -- `d[key] = value`
  unfoldable pub put : Text → V → Dict V → Dict V
  put key value [] = (key, value) ∷ []
  put key value ((k, v) ∷ d) = if text_eq k key then (key, value) ∷ d else (k, v) ∷ put key value d

  -- `list(d.values())`
  unfoldable pub values : Dict V → List V
  values [] = []
  values ((k, v) ∷ d) = v ∷ values d

  pub get-put :
      (key j : Text) (value : V) (d : Dict V)
      → get j (put key value d) ≡ (if text_eq key j then some value else get j d)
  unfolding get put
  get-put key j value [] = refl
  get-put key j value ((k, v) ∷ d) =
      ground (arith, text_eq_iff key j, text_eq_iff k key, text_eq_iff k j, get-put key j value d)

  module _ {κ} (P : V → Type κ) where
    pub All-put :
        (key : Text) (value : V) (d : Dict V)
        → P value
        → All P (values d)
        → All P (values (put key value d))
    unfolding values put
    All-put key value [] p h = (p, h)
    All-put key value ((k, v) ∷ d) p h = either_way (text_eq k key) (All-put key value d p h.1)
      where
        either_way :
            (b : Bool)
            → All P (values (put key value d))
            → All P (values (if b then (key, value) ∷ d else (k, v) ∷ put key value d))
        either_way true rest = (p, h.1)
        either_way false rest = (h.0, rest)

-- `a in xs`
unfoldable pub mem : Text → List Text → Bool
mem a [] = false
mem a (x ∷ xs) = text_eq x a || mem a xs

-- `s.add(a)`
unfoldable pub add : Text → List Text → List Text
add a xs = if mem a xs then xs else a ∷ xs

-- `s.discard(a)`
unfoldable pub discard : Text → List Text → List Text
discard a [] = []
discard a (x ∷ xs) = let rest = discard a xs in if text_eq x a then rest else x ∷ rest

-- `set(xs)`
unfoldable pub unique : List Text → List Text
unique [] = []
unique (x ∷ xs) = add x (unique xs)

unfoldable pub insert_sorted : Text → List Text → List Text
insert_sorted a [] = a ∷ []
insert_sorted a (x ∷ xs) = if text_ltb x a then x ∷ insert_sorted a xs else a ∷ x ∷ xs

-- `sorted(xs)`
unfoldable pub sorted : List Text → List Text
sorted [] = []
sorted (x ∷ xs) = insert_sorted x (sorted xs)

pub mem-add : (a b : Text) (xs : List Text) → mem b (add a xs) ≡ (text_eq a b || mem b xs)
unfolding mem add
mem-add a b xs = ground (arith, text_eq_iff a b, mem-congruent)
  where
    mem-congruent : a ≡ b → mem a xs ≡ mem b xs
    mem-congruent e = ap (λ c. mem c xs) e

pub mem-discard :
    (a b : Text) (xs : List Text) → mem b (discard a xs) ≡ (mem b xs && not (text_eq a b))
unfolding mem discard
mem-discard a b [] = refl
mem-discard a b (x ∷ xs) =
    ground (arith, mem-discard a b xs, text_eq_iff x a, text_eq_iff x b, text_eq_iff a b)

pub mem-unique : (a : Text) (xs : List Text) → mem a (unique xs) ≡ mem a xs
unfolding mem unique
mem-unique a [] = refl
mem-unique a (x ∷ xs) = ground (arith, mem-add x a (unique xs), mem-unique a xs)

mem-insert_sorted :
    (a b : Text) (xs : List Text) → mem b (insert_sorted a xs) ≡ (text_eq a b || mem b xs)
unfolding mem insert_sorted
mem-insert_sorted a b [] = refl
mem-insert_sorted a b (x ∷ xs) = ground (arith, mem-insert_sorted a b xs)

pub mem-sorted : (a : Text) (xs : List Text) → mem a (sorted xs) ≡ mem a xs
unfolding mem sorted
mem-sorted a [] = refl
mem-sorted a (x ∷ xs) = ground (arith, mem-insert_sorted x a (sorted xs), mem-sorted a xs)

pub All-of-mem {ℓ} :
    (P : Text → Type ℓ) (xs : List Text) → ((a : Text) → mem a xs ≡ true → P a) → All P xs
unfolding mem
All-of-mem P [] h = tt
All-of-mem P (x ∷ xs) h =
    (h x (ground (arith, text_eq_refl x)), All-of-mem P xs (λ a e. h a (ground arith)))
