-- ===== src/Prelude/Numbers.antt =====
-- Python's sets of numbers and dicts with number keys, wherever the code reads them in ascending
-- order only: a set is an increasing list, which is what `sorted` makes of it.
use base_arb_bot.Prelude.Tests.{ltb, ◌==◌, ==_iff, if◌then◌else◌}
use base_arb_bot.Prelude.Lists.{All, length}
use Prim.Native.Nat.{ℕ, suc, ◌≤◌, ◌<◌}
use mathlib.Core.Path.{◌≡◌, refl, sym, subst}
use mathlib.Core.Bool.{Bool, true, false, ◌||◌}
use mathlib.Core.Option.{Option, none, some}
use mathlib.Core.List.{List, [], ◌∷◌}
use native.Mathlib.Omega.{arith}

-- `s.add(x)`
unfoldable pub add_number : ℕ → List ℕ → List ℕ
add_number x [] = x ∷ []
add_number x (y ∷ ys) =
    if ltb x y then x ∷ y ∷ ys else (if x == y then y ∷ ys else y ∷ add_number x ys)

-- `set(xs)`
unfoldable pub number_set : List ℕ → List ℕ
number_set [] = []
number_set (x ∷ xs) = add_number x (number_set xs)

-- `x in s`
unfoldable pub mem_number : ℕ → List ℕ → Bool
mem_number x [] = false
mem_number x (y ∷ ys) = (x == y) || mem_number x ys

abbrev pub IsIncreasing : List ℕ → Type 0
IsIncreasing [] = Unit
IsIncreasing (x ∷ xs) = All (λ y. x < y) xs × IsIncreasing xs

All-above : (x y : ℕ) (ys : List ℕ) → x < y → All (λ z. y < z) ys → All (λ z. x < z) ys
All-above x y [] h k = tt
All-above x y (z ∷ ys) h k = (omega arith, All-above x y ys h k.1)

module _ {κ} (P : ℕ → Type κ) where
  pub All-add_number : (x : ℕ) (ys : List ℕ) → P x → All P ys → All P (add_number x ys)
  unfolding add_number
  All-add_number x [] p h = (p, tt)
  All-add_number x (y ∷ ys) p h = by_tests (ltb x y) (x == y) (All-add_number x ys p h.1)
    where
      by_tests :
          (a b : Bool)
          → All P (add_number x ys)
          → All P (if a then x ∷ y ∷ ys else (if b then y ∷ ys else y ∷ add_number x ys))
      by_tests true b r = (p, h)
      by_tests false true r = h
      by_tests false false r = (h.0, r)

pub add_number-IsIncreasing :
    (x : ℕ) (ys : List ℕ) → IsIncreasing ys → IsIncreasing (add_number x ys)
unfolding add_number
add_number-IsIncreasing x [] h = (tt, tt)
add_number-IsIncreasing x (y ∷ ys) h =
    by_order (ltb x y) (x == y) refl refl (add_number-IsIncreasing x ys h.1)
  where
    by_order :
        (a b : Bool)
        → ltb x y ≡ a
        → (x == y) ≡ b
        → IsIncreasing (add_number x ys)
        → IsIncreasing (if a then x ∷ y ∷ ys else (if b then y ∷ ys else y ∷ add_number x ys))
    by_order true b ea eb r = ((ground (arith), All-above x y ys (ground (arith)) h.0), h)
    by_order false true ea eb r = h
    by_order false false ea eb r = (All-add_number (λ z. y < z) x ys (ground (arith)) h.0, r)

pub mem-add_number :
    (x z : ℕ) (ys : List ℕ) → mem_number z (add_number x ys) ≡ ((z == x) || mem_number z ys)
unfolding mem_number add_number
mem-add_number x z [] = refl
mem-add_number x z (y ∷ ys) = ground (arith, mem-add_number x z ys)

pub length-add_number_le : (x : ℕ) (ys : List ℕ) → length (add_number x ys) ≤ suc (length ys)
unfolding add_number
length-add_number_le x [] = omega arith
length-add_number_le x (y ∷ ys) = ground (arith, length-add_number_le x ys)

pub length-le-add_number : (x : ℕ) (ys : List ℕ) → length ys ≤ length (add_number x ys)
unfolding add_number
length-le-add_number x [] = omega arith
length-le-add_number x (y ∷ ys) = ground (arith, length-le-add_number x ys)

pub number_set-IsIncreasing : (xs : List ℕ) → IsIncreasing (number_set xs)
unfolding number_set
number_set-IsIncreasing [] = tt
number_set-IsIncreasing (x ∷ xs) =
    add_number-IsIncreasing x (number_set xs) (number_set-IsIncreasing xs)

pub All-number_set {κ} : (P : ℕ → Type κ) (xs : List ℕ) → All P xs → All P (number_set xs)
unfolding number_set
All-number_set P [] h = tt
All-number_set P (x ∷ xs) h = All-add_number P x (number_set xs) h.0 (All-number_set P xs h.1)

pub All-mem_number {κ} :
    (P : ℕ → Type κ) (x : ℕ) (xs : List ℕ) → mem_number x xs ≡ true → All P xs → P x
unfolding mem_number
All-mem_number P x [] m h = absurd cc
All-mem_number P x (y ∷ ys) m h = by_test (x == y) refl m (λ m'. All-mem_number P x ys m' h.1)
  where
    by_test :
        (b : Bool)
        → (x == y) ≡ b
        → (b || mem_number x ys) ≡ true
        → (mem_number x ys ≡ true → P x)
        → P x
    by_test true e m' r = subst P (sym ((==_iff x y).0 e)) h.0
    by_test false e m' r = r m'

-- A dict whose keys are numbers, in ascending order.
abbrev pub NumberDict {ℓ} : Type ℓ → Type ℓ
NumberDict V = List (ℕ × V)

module _ {ℓ} {V : Type ℓ} where
  -- `d.get(key)`
  unfoldable pub number_get : ℕ → NumberDict V → Option V
  number_get key [] = none
  number_get key ((k, v) ∷ d) = if key == k then some v else number_get key d

  -- `d[key] = value`
  unfoldable pub number_put : ℕ → V → NumberDict V → NumberDict V
  number_put key value [] = (key, value) ∷ []
  number_put key value ((k, v) ∷ d) =
      if ltb key k
      then (key, value) ∷ (k, v) ∷ d
      else (if key == k then (key, value) ∷ d else (k, v) ∷ number_put key value d)

  -- `d.update(e)`
  unfoldable pub number_update : NumberDict V → NumberDict V → NumberDict V
  number_update [] d = d
  number_update ((k, v) ∷ e) d = number_update e (number_put k v d)

  abbrev pub AreAscending : NumberDict V → Type 0
  AreAscending [] = Unit
  AreAscending ((k, v) ∷ d) = All (λ (e : ℕ × V). k < e.0) d × AreAscending d

  keys-above :
      (x y : ℕ) (d : NumberDict V)
      → x < y
      → All (λ (e : ℕ × V). y < e.0) d
      → All (λ (e : ℕ × V). x < e.0) d
  keys-above x y [] h k = tt
  keys-above x y (e ∷ d) h k = (omega arith, keys-above x y d h k.1)

  module _ {κ} (P : ℕ × V → Type κ) where
    pub All-number_put :
        (key : ℕ) (value : V) (d : NumberDict V)
        → P (key, value)
        → All P d
        → All P (number_put key value d)
    unfolding number_put
    All-number_put key value [] p h = (p, tt)
    All-number_put key value ((k, v) ∷ d) p h =
        by_tests (ltb key k) (key == k) (All-number_put key value d p h.1)
      where
        by_tests :
            (a b : Bool)
            → All P (number_put key value d)
            → All P (
                if a
                then (key, value) ∷ (k, v) ∷ d
                else (if b then (key, value) ∷ d else (k, v) ∷ number_put key value d))
        by_tests true b r = (p, h)
        by_tests false true r = (p, h.1)
        by_tests false false r = (h.0, r)

  pub number_put-AreAscending :
      (key : ℕ) (value : V) (d : NumberDict V)
      → AreAscending d
      → AreAscending (number_put key value d)
  unfolding number_put
  number_put-AreAscending key value [] h = (tt, tt)
  number_put-AreAscending key value ((k, v) ∷ d) h =
      by_order (ltb key k) (key == k) refl refl (number_put-AreAscending key value d h.1)
    where
      by_order :
          (a b : Bool)
          → ltb key k ≡ a
          → (key == k) ≡ b
          → AreAscending (number_put key value d)
          → AreAscending (
              if a
              then (key, value) ∷ (k, v) ∷ d
              else (if b then (key, value) ∷ d else (k, v) ∷ number_put key value d))
      by_order true b ea eb r = ((ground (arith), keys-above key k d (ground (arith)) h.0), h)
      by_order false true ea eb r = (keys_at k key d (ground (arith)) h.0, h.1)
        where
          keys_at :
              (x y : ℕ) (e : NumberDict V)
              → x ≡ y
              → All (λ (p : ℕ × V). x < p.0) e
              → All (λ (p : ℕ × V). y < p.0) e
          keys_at x y e q g = rw (← q) g
      by_order false false ea eb r =
          (All-number_put (λ e. k < e.0) key value d (ground (arith)) h.0, r)

  pub get-number_put :
      (key j : ℕ) (value : V) (d : NumberDict V)
      → number_get j (number_put key value d) ≡ (if j == key then some value else number_get j d)
  unfolding number_get number_put
  get-number_put key j value [] = refl
  get-number_put key j value ((k, v) ∷ d) = ground (arith, get-number_put key j value d)
