-- ===== src/Route/Rotations.antt =====
-- `_dedup_cycles` of python/src/arb_bot/route_engine.py gives two rings the same representative
-- exactly when one is a rotation of the other.
use base_arb_bot.Prelude.{
  ℕ, zero, suc, ◌≤◌, Bool, true, false, [], ◌∷◌, ◌++◌, length, take, drop, take-append-drop,
  take-append, drop-append, length-append, append_nil, append_assoc, if◌then◌else◌, ◌≡◌, ◌⊎◌, inl,
  inr, ◌↔◌, refl, sym, ap, ap₂, ◌∙◌, subst, arith, Bool-cases,
}
use native.Mathlib.Decide.{dec_le}
use base_arb_bot.Route.Rings.{Edge, Ring, ring_eq, ring_ltb, least_rotation, canonical}
use base_arb_bot.Route.RingOrder.{ring-IsOrder}

-- `s` begins later in the ring `r`.
pub record IsRotation (s r : Ring) : Type 0 where
  pub front : Ring
  pub back : Ring
  pub whole : r ≡ front ++ back
  pub turned : s ≡ back ++ front

IsRotation-sym : {s r : Ring} → IsRotation s r → IsRotation r s
IsRotation-sym x = record { front = x.back; back = x.front; whole = x.turned; turned = x.whole }

-- Two ways to split a list: one front goes on where the other ends.
split_twice :
    (a b c d : Ring)
    → a ++ b ≡ c ++ d
    → ((x : Ring) × (a ≡ c ++ x) × (d ≡ x ++ b)) ⊎ ((y : Ring) × (c ≡ a ++ y) × (b ≡ y ++ d))
split_twice [] b c d e = inr (c, refl, e)
split_twice (u ∷ a) b [] d e = inl (u ∷ a, refl, sym e)
split_twice (u ∷ a) b (v ∷ c) d e = by_tail (split_twice a b c d (tail_eq e))
  where
    tail_eq : {x y : Edge} {l m : Ring} → ◌≡◌ {A = Ring} (x ∷ l) (y ∷ m) → l ≡ m
    tail_eq q = cc

    head_eq : {x y : Edge} {l m : Ring} → ◌≡◌ {A = Ring} (x ∷ l) (y ∷ m) → x ≡ y
    head_eq q = cc

    by_tail :
        ((x : Ring) × (a ≡ c ++ x) × (d ≡ x ++ b)) ⊎ ((y : Ring) × (c ≡ a ++ y) × (b ≡ y ++ d))
        → ((x : Ring) × (u ∷ a ≡ (v ∷ c) ++ x) × (d ≡ x ++ b))
          ⊎ ((y : Ring) × (v ∷ c ≡ (u ∷ a) ++ y) × (b ≡ y ++ d))
    by_tail (inl (x, p, q)) = inl (x, ap₂ (λ h l. h ∷ l) (head_eq e) p, q)
    by_tail (inr (y, p, q)) = inr (y, ap₂ (λ h l. h ∷ l) (sym (head_eq e)) p, q)

IsRotation-trans : {t s r : Ring} → IsRotation t s → IsRotation s r → IsRotation t r
IsRotation-trans {t} {s} {r} x y =
    by_split (split_twice (y.back) (y.front) (x.front) (x.back) (sym y.turned ∙ x.whole))
  where
    by_split :
        ((z : Ring) × (y.back ≡ x.front ++ z) × (x.back ≡ z ++ y.front))
          ⊎ ((z : Ring) × (x.front ≡ y.back ++ z) × (y.front ≡ z ++ x.back))
        → IsRotation t r
    by_split (inl (z, p, q)) = record {
      front = y.front ++ x.front;
      back = z;
      whole = y.whole ∙ ap (λ l. y.front ++ l) p ∙ sym (append_assoc (y.front) (x.front) z);
      turned = x.turned ∙ ap (λ l. l ++ x.front) q ∙ append_assoc z (y.front) (x.front);
    }
    by_split (inr (z, p, q)) = record {
      front = z;
      back = x.back ++ y.back;
      whole = y.whole ∙ ap (λ l. l ++ y.back) q ∙ append_assoc z (x.back) (y.back);
      turned = x.turned ∙ ap (λ l. x.back ++ l) p ∙ sym (append_assoc (x.back) (y.back) z);
    }

abbrev rotated : ℕ → Ring → Ring
rotated k r = drop k r ++ take k r

rotated-IsRotation : (k : ℕ) (r : Ring) → IsRotation (rotated k r) r
rotated-IsRotation k r = record {
  front = take k r;
  back = drop k r;
  whole = sym (take-append-drop k r);
  turned = refl;
}

least-IsRotation : (r : Ring) (k : ℕ) → IsRotation (least_rotation r k) r
unfolding least_rotation
least-IsRotation r zero = record { front = []; back = r; whole = refl; turned = sym (append_nil r) }
least-IsRotation r (suc k) =
    by_test (ring_ltb (rotated (suc k) r) (least_rotation r k)) (least-IsRotation r k)
  where
    by_test :
        (b : Bool)
        → IsRotation (least_rotation r k) r
        → IsRotation (if b then rotated (suc k) r else least_rotation r k) r
    by_test true h = rotated-IsRotation (suc k) r
    by_test false h = h

-- No rotation that was considered is less.
not_less : (r : Ring) (k j : ℕ) → j ≤ k → ring_ltb (rotated j r) (least_rotation r k) ≡ false
unfolding least_rotation
not_less r zero j l = subst (λ i. ring_ltb (rotated i r) r ≡ false) zero_j base
  where
    zero_j : 0 ≡ j
    zero_j = omega (arith, l)

    base : ring_ltb (rotated 0 r) r ≡ false
    base = rw (append_nil r) (ring-IsOrder.irreflexive r)
not_less r (suc k) j l = elim (dec_le j k) [
  | yes m ↦ earlier _ refl (not_less r k j m)
  | no m ↦
      subst (λ i. ring_ltb (rotated i r) (least_rotation r (suc k)) ≡ false) (last m)
        (latest _ refl)
]
  where
    last : (j ≤ k → ⊥) → suc k ≡ j
    last m = omega (arith, l, m)

    latest :
        (b : Bool)
        → ring_ltb (rotated (suc k) r) (least_rotation r k) ≡ b
        → ring_ltb (rotated (suc k) r) (if b then rotated (suc k) r else least_rotation r k) ≡ false
    latest true q = ring-IsOrder.irreflexive (rotated (suc k) r)
    latest false q = q

    earlier :
        (b : Bool)
        → ring_ltb (rotated (suc k) r) (least_rotation r k) ≡ b
        → ring_ltb (rotated j r) (least_rotation r k) ≡ false
        → ring_ltb (rotated j r) (if b then rotated (suc k) r else least_rotation r k) ≡ false
    earlier false q f = f
    earlier true q f = elim (Bool-cases (ring_ltb (rotated j r) (rotated (suc k) r))) [
      | inl t ↦ absurd (cc (ring-IsOrder.transitive _ _ _ t q, f))
      | inr t ↦ t
    ]

canonical-IsRotation : (r : Ring) → IsRotation (canonical r) r
unfolding canonical
canonical-IsRotation [] = record { front = []; back = []; whole = refl; turned = refl }
canonical-IsRotation (e ∷ r) = least-IsRotation (e ∷ r) (length r)

-- A rotation of a ring that is not empty is one of those that were considered.
considered :
    (e : Edge) (r front back : Ring)
    → e ∷ r ≡ front ++ back
    → (j : ℕ) × (j ≤ length r) × (back ++ front ≡ rotated j (e ∷ r))
considered e r front [] q = (0, omega arith, sym (q ∙ append_nil front) ∙ sym (append_nil (e ∷ r)))
considered e r front (f ∷ back) q = (
  length front,
  omega (arith, ap (length {A = Edge}) q, length-append front (f ∷ back)),
  ap₂ (λ a b. a ++ b) (sym (drop-append front (f ∷ back))) (sym (take-append front (f ∷ back)))
      ∙ ap (λ l. rotated (length front) l) (sym q),
)

canonical-least : (t r : Ring) → IsRotation t r → ring_ltb t (canonical r) ≡ false
unfolding canonical ring_ltb
canonical-least [] [] x = refl
canonical-least (f ∷ t) [] x = refl
canonical-least t (e ∷ r) x =
    let (j, l, q) = considered e r (x.front) (x.back) x.whole in
    subst (λ s. ring_ltb s (least_rotation (e ∷ r) (length r)) ≡ false) (sym (x.turned ∙ q))
      (not_less (e ∷ r) (length r) j l)

same_canonical : (s r : Ring) → IsRotation s r → canonical s ≡ canonical r
same_canonical s r x =
    let below =
      canonical-least (canonical r) s
        (IsRotation-trans (canonical-IsRotation r) (IsRotation-sym x)) in
    let above = canonical-least (canonical s) r (IsRotation-trans (canonical-IsRotation s) x) in
    by_test (ring_eq (canonical s) (canonical r)) refl below above
  where
    by_test :
        (b : Bool)
        → ring_eq (canonical s) (canonical r) ≡ b
        → ring_ltb (canonical r) (canonical s) ≡ false
        → ring_ltb (canonical s) (canonical r) ≡ false
        → canonical s ≡ canonical r
    by_test true q below above = ring-IsOrder.eq_sound _ _ q
    by_test false q below above =
        absurd (cc (ring-IsOrder.total (canonical s) (canonical r) q above, below))

-- Two rings have the same canonical form exactly when one is a rotation of the other.
pub canonical-IsRotation_iff : (s r : Ring) → (canonical s ≡ canonical r) ↔ IsRotation s r
canonical-IsRotation_iff s r = (
  λ q.
      IsRotation-trans (IsRotation-sym (canonical-IsRotation s))
        (subst (λ c. IsRotation c r) (sym q) (canonical-IsRotation r)),
  same_canonical s r,
)
