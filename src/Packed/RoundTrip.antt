-- ===== src/Packed/RoundTrip.antt =====
-- Decoding what was encoded.
use base_arb_bot.Prelude.{
  ℕ, ◌+◌, ◌≡◌, refl, sym, ap, ◌∙◌, List, [], ◌∷◌, ◌++◌, map, length, length-append, ok, bind-eq-ok,
  ok-injective, arith, ==_refl,
}
use mathlib.Core.List.{append_assoc, append-nil}
use base_arb_bot.Prelude.Bytes.{from_bytes}
use base_arb_bot.Prelude.Int.{pos, pos_part}
use base_arb_bot.Packed.{
  PackedLeg, PackedCandidate, PackedBatch, take_bytes, encode_leg, encode_legs, encode_candidate,
  encode_candidates, encode_packed_batch, decode_leg, decode_legs, decode_candidate,
  decode_candidates, decode_packed_batch, first_byte, Packed,
}
use base_arb_bot.Packed.Fields.{At, At-next, take_bytes-At, reprint, hex_bytes-ok, uint_bytes-ok}
use base_arb_bot.Packed.Size.{
  length-leg, length-candidate, length-encode_legs, length-encode_candidates,
  length-encode_packed_batch,
}
use base_arb_bot.Packed.Encode.{
  LegPieces, CandidatePieces, encode_leg-pieces, encode_candidate-pieces,
  encode_packed_batch-pieces,
}

-- A value with its hexadecimal texts as a decoder writes them.
pub reprint_leg : PackedLeg → PackedLeg
reprint_leg leg = record leg {
  adapter = reprint leg.adapter;
  token_in = reprint leg.token_in;
  token_out = reprint leg.token_out;
}

pub reprint_candidate : PackedCandidate → PackedCandidate
unfolding reprint_leg
reprint_candidate c = record c {
  candidate_id = reprint c.candidate_id;
  legs = map reprint_leg c.legs;
}

pub reprint_batch : PackedBatch → PackedBatch
unfolding reprint_candidate
reprint_batch b = record b {
  asset = reprint b.asset;
  candidates = map reprint_candidate b.candidates;
}

-- A reader of a part stops behind that part, and has read `value`.
abbrev pub Reads : {A : Type 0} → (List ℕ → ℕ → Packed (A × ℕ)) → A → List ℕ → Type 0
Reads read value out =
    (raw : List ℕ) (offset : ℕ) (rest : List ℕ)
    → At raw offset (out ++ rest)
    → read raw offset ≡ ok (value, offset + length out)

-- One `_take` of a block: the bytes of the next field, and what follows them.
take_step :
    (raw : List ℕ) (offset size : ℕ) (xs rest : List ℕ)
    → At raw offset (xs ++ rest)
    → length xs ≡ size
    → (take_bytes raw offset size ≡ ok (xs, offset + size)) × At raw (offset + size) rest
take_step raw offset size xs rest at e =
    rw (← e) (take_bytes-At raw offset xs rest at, At-next raw offset xs rest at)

stop_at : {A : Type 0} (a : A) {i j : ℕ} → i ≡ j → ◌≡◌ {A = Packed (A × ℕ)} (ok (a, i)) (ok (a, j))
stop_at a e = cc

At-leg :
    (raw : List ℕ) (offset : ℕ) (a i o m n d rest : List ℕ)
    → At raw offset ((a ++ (i ++ (o ++ (m ++ (n ++ d))))) ++ rest)
    → At raw offset (a ++ (i ++ (o ++ (m ++ (n ++ (d ++ rest))))))
At-leg raw offset a i o m n d rest = simp append_assoc (λ h. h)

Reads-leg :
    (leg : PackedLeg) (out : List ℕ) → LegPieces leg out → Reads decode_leg (reprint_leg leg) out
unfolding decode_leg reprint_leg
Reads-leg leg out p raw offset rest at0 =
    let at1 = rw p.out_eq at at0 in
    let at2 =
      At-leg raw offset p.adapter p.token_in p.token_out p.min_out p.data_len leg.leg_data rest
        at1 in
    let (la, ta) = hex_bytes-ok leg.adapter 20 _ p.adapter p.adapter_eq in
    let (li, ti) = hex_bytes-ok leg.token_in 20 _ p.token_in p.token_in_eq in
    let (lo, to) = hex_bytes-ok leg.token_out 20 _ p.token_out p.token_out_eq in
    let (lm, vm) = uint_bytes-ok leg.min_out 32 _ p.min_out p.min_out_eq in
    let (ln, vn) = uint_bytes-ok (pos (length leg.leg_data)) 2 _ p.data_len p.data_len_eq in
    let (ea, aa) = take_step raw offset 20 p.adapter _ at2 la in
    let (ei, ai) = take_step raw (offset + 20) 20 p.token_in _ aa li in
    let (eo, ao) = take_step raw (offset + 20 + 20) 20 p.token_out _ ai lo in
    let (em, am) = take_step raw (offset + 20 + 20 + 20) 32 p.min_out _ ao lm in
    let (en, an) = take_step raw (offset + 20 + 20 + 20 + 32) 2 p.data_len _ am ln in
    let (ed, ad) =
      take_step raw (offset + 20 + 20 + 20 + 32 + 2) (length leg.leg_data) leg.leg_data rest an
        refl in
    rw (ea, ei, eo, em, en, ap pos_part vn, p.data_fits, ed, ta, ti, to, vm)
      (stop_at _ (omega (arith, length-leg p)))

split-At :
    (raw : List ℕ) (offset : ℕ) (a b rest : List ℕ)
    → At raw offset ((a ++ b) ++ rest)
    → At raw offset (a ++ (b ++ rest))
split-At raw offset a b rest = rw (append_assoc a b rest) (λ h. h)

Reads-legs :
    (legs : List PackedLeg) (out : List ℕ)
    → encode_legs legs ≡ ok out
    → Reads (decode_legs (length legs)) (map reprint_leg legs) out
unfolding encode_legs decode_legs
Reads-legs [] out e raw offset rest at = rw (← ok-injective e) (stop_at [] (omega arith))
Reads-legs (leg ∷ legs) out e raw offset rest at =
    let (a, ea, e1) = bind-eq-ok (encode_leg leg) _ e in
    let (b, eb, e2) = bind-eq-ok (encode_legs legs) _ e1 in
    let at1 = split-At raw offset a b rest (rw (← ok-injective e2) at at) in
    let head = Reads-leg leg a (encode_leg-pieces leg a ea) raw offset (b ++ rest) at1 in
    let tail =
      Reads-legs legs b eb raw (offset + length a) rest (At-next raw offset a (b ++ rest) at1) in
    rw (head, tail) (stop_at _ (omega (arith, ap length (ok-injective e2), length-append a b)))

At-candidate :
    (raw : List ℕ) (offset : ℕ) (i m n l rest : List ℕ)
    → At raw offset ((i ++ (m ++ (n ++ l))) ++ rest)
    → At raw offset (i ++ (m ++ (n ++ (l ++ rest))))
At-candidate raw offset i m n l rest = simp append_assoc (λ h. h)

-- A byte that holds a count.
pub first_byte-count : (b : List ℕ) → length b ≡ 1 → first_byte b ≡ from_bytes b
unfolding from_bytes
first_byte-count [] h = absurd (omega arith)
first_byte-count (x ∷ []) h = omega arith
first_byte-count (x ∷ y ∷ b) h = absurd (omega arith)

Reads-candidate :
    (c : PackedCandidate) (out : List ℕ)
    → CandidatePieces c out
    → Reads decode_candidate (reprint_candidate c) out
unfolding decode_candidate reprint_candidate
Reads-candidate c out p raw offset rest at0 =
    let at1 = At-candidate raw offset p.id p.min_profit p.count p.legs rest (rw p.out_eq at at0) in
    let (li, ti) = hex_bytes-ok c.candidate_id 32 _ p.id p.id_eq in
    let (lm, vm) = uint_bytes-ok c.min_profit 32 _ p.min_profit p.min_profit_eq in
    let (ln, vn) = uint_bytes-ok (pos (length c.legs)) 1 _ p.count p.count_eq in
    let (ei, ai) = take_step raw offset 32 p.id _ at1 li in
    let (em, am) = take_step raw (offset + 32) 32 p.min_profit _ ai lm in
    let (en, an) = take_step raw (offset + 32 + 32) 1 p.count _ am ln in
    let el = Reads-legs c.legs p.legs p.legs_eq raw (offset + 32 + 32 + 1) rest an in
    let count = first_byte-count p.count ln ∙ ap pos_part vn in
    let sizes = length-encode_legs c.legs p.legs p.legs_eq in
    rw (ei, em, en, count, p.count_fits, el, ti, vm)
      (stop_at _ (omega (arith, length-candidate p, sizes)))

Reads-candidates :
    (cs : List PackedCandidate) (out : List ℕ)
    → encode_candidates cs ≡ ok out
    → Reads (decode_candidates (length cs)) (map reprint_candidate cs) out
unfolding encode_candidates decode_candidates
Reads-candidates [] out e raw offset rest at = rw (← ok-injective e) (stop_at [] (omega arith))
Reads-candidates (c ∷ cs) out e raw offset rest at =
    let (a, ea, e1) = bind-eq-ok (encode_candidate c) _ e in
    let (b, eb, e2) = bind-eq-ok (encode_candidates cs) _ e1 in
    let at1 = split-At raw offset a b rest (rw (← ok-injective e2) at at) in
    let head = Reads-candidate c a (encode_candidate-pieces c a ea) raw offset (b ++ rest) at1 in
    let tail =
      Reads-candidates cs b eb raw (offset + length a) rest
        (At-next raw offset a (b ++ rest) at1) in
    rw (head, tail) (stop_at _ (omega (arith, ap length (ok-injective e2), length-append a b)))

-- The decoder reads back every batch that the encoder accepts, with its hexadecimal texts reprinted.
pub decode-encode :
    (batch : PackedBatch) (out : List ℕ)
    → encode_packed_batch batch ≡ ok out
    → decode_packed_batch out ≡ ok (reprint_batch batch)
unfolding decode_packed_batch reprint_batch
decode-encode b out e =
    let p = encode_packed_batch-pieces b out e in
    let whole : At out 0 (
        p.version
        ++ (p.count
            ++ (p.asset
                ++ (p.amount ++ (p.target_block ++ (p.deadline ++ (p.candidates ++ []))))))) =
      (rw append-nil p.out_eq, omega arith) in
    let (lv, vv) = uint_bytes-ok (pos 1) 1 _ p.version p.version_eq in
    let (ln, vn) = uint_bytes-ok (pos (length b.candidates)) 1 _ p.count p.count_eq in
    let (la, ta) = hex_bytes-ok b.asset 20 _ p.asset p.asset_eq in
    let (lm, vm) = uint_bytes-ok b.amount 32 _ p.amount p.amount_eq in
    let (lt, vt) = uint_bytes-ok b.target_block 8 _ p.target_block p.target_block_eq in
    let (ld, vd) = uint_bytes-ok b.deadline 8 _ p.deadline p.deadline_eq in
    let (ev, av) = take_step out 0 1 p.version _ whole lv in
    let (en, an) = take_step out 1 1 p.count _ av ln in
    let (ea, aa) = take_step out 2 20 p.asset _ an la in
    let (em, am) = take_step out 22 32 p.amount _ aa lm in
    let (et, at) = take_step out 54 8 p.target_block _ am lt in
    let (ed, ad) = take_step out 62 8 p.deadline _ at ld in
    let ec = Reads-candidates b.candidates p.candidates p.candidates_eq out 70 [] ad in
    let version = first_byte-count p.version lv ∙ ap pos_part vv in
    let count = first_byte-count p.count ln ∙ ap pos_part vn in
    let sizes = length-encode_candidates b.candidates p.candidates p.candidates_eq in
    let total : length out ≡ 70 + length p.candidates =
      (length-encode_packed_batch b out e).0 ∙ ap (λ k. 70 + k) (sym sizes) in
    rw (
      ev,
      version,
      en,
      count,
      p.count_fits,
      ea,
      em,
      et,
      ed,
      ec,
      total,
      ==_refl (70 + length p.candidates),
      ta,
      vm,
      vt,
      vd,
    )
