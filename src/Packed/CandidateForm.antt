-- ===== src/Packed/CandidateForm.antt =====
-- Encoding the candidates that were read: the wire form of a candidate is canonical.
use base_arb_bot.Prelude.{
  ℕ, zero, suc, ◌≡◌, ◌≢◌, refl, sym, ap, subst, ◌∙◌, true, List, [], ◌∷◌, ◌++◌, ◌&&◌, length, drop,
  All, ok, bind-eq-ok, guard-eq-ok, ok-injective, leb,
}
use mathlib.Core.List.{append_assoc}
use base_arb_bot.Prelude.Bytes.{IsByte, from_bytes}
use base_arb_bot.Prelude.Int.{pos}
use base_arb_bot.Packed.{
  PackedLeg, PackedCandidate, take_bytes, encode_legs, encode_candidates, decode_legs,
  decode_candidate, decode_candidates, first_byte, hex_text, max_packed_legs,
}
use base_arb_bot.Packed.Fields.{hex_bytes-hex_text, uint_bytes-from_bytes}
use base_arb_bot.Packed.RoundTrip.{first_byte-count}
use base_arb_bot.Packed.LegForm.{DistinctLegs, taken, legs_encode}
use base_arb_bot.Packed.Encode.{CandidatePieces, encode_candidate_of_pieces}

-- The reads of a `decode_candidate` that returned.
record CandidateReads (raw : List ℕ) (offset : ℕ) (c : PackedCandidate) (end : ℕ) : Type 0 where
  id : List ℕ × ℕ
  min_profit : List ℕ × ℕ
  counted : List ℕ × ℕ
  legs : List PackedLeg × ℕ
  id_eq : take_bytes raw offset 32 ≡ ok id
  min_profit_eq : take_bytes raw id.1 32 ≡ ok min_profit
  counted_eq : take_bytes raw min_profit.1 1 ≡ ok counted
  fits : (leb 2 (first_byte counted.0) && leb (first_byte counted.0) max_packed_legs) ≡ true
  legs_eq : decode_legs (first_byte counted.0) raw counted.1 ≡ ok legs
  result :
      ◌≡◌ {A = PackedCandidate × ℕ}
        (
          record {
            candidate_id = hex_text id.0;
            min_profit = pos (from_bytes min_profit.0);
            legs = legs.0;
          },
          legs.1,
        )
        (c, end)

candidate_reads :
    (raw : List ℕ) (offset : ℕ) (c : PackedCandidate) (end : ℕ)
    → decode_candidate raw offset ≡ ok (c, end)
    → CandidateReads raw offset c end
unfolding decode_candidate
candidate_reads raw offset c end e =
    let (i, ei, e1) = bind-eq-ok (take_bytes raw offset 32) _ e in
    let (m, em, e2) = bind-eq-ok (take_bytes raw i.1 32) _ e1 in
    let (n, en, e3) = bind-eq-ok (take_bytes raw m.1 1) _ e2 in
    let (f, e4) = guard-eq-ok _ _ _ e3 in
    let (l, el, e5) = bind-eq-ok (decode_legs (first_byte n.0) raw n.1) _ e4 in
    record {
      id = i;
      min_profit = m;
      counted = n;
      legs = l;
      id_eq = ei;
      min_profit_eq = em;
      counted_eq = en;
      fits = f;
      legs_eq = el;
      result = ok-injective e5;
    }

pieces_of_candidate :
    (i m n l : List ℕ) (legs : List PackedLeg)
    → All IsByte i × All IsByte m × All IsByte n
    → (length i ≡ 32) × (length m ≡ 32) × (length n ≡ 1)
    → length legs ≡ first_byte n
    → (leb 2 (first_byte n) && leb (first_byte n) max_packed_legs) ≡ true
    → encode_legs legs ≡ ok l
    → CandidatePieces
        (record { candidate_id = hex_text i; min_profit = pos (from_bytes m); legs = legs })
        (i ++ (m ++ (n ++ l)))
pieces_of_candidate i m n l legs (bi, bm, bn) (li, lm, ln) count fits el = record {
  id = i;
  min_profit = m;
  count = n;
  legs = l;
  count_fits = rw count fits;
  id_eq = hex_bytes-hex_text i 32 _ bi li;
  min_profit_eq = uint_bytes-from_bytes m 32 _ bm lm;
  count_eq = rw (count, first_byte-count n ln) (uint_bytes-from_bytes n 1 _ bn ln);
  legs_eq = el;
  out_eq = refl;
}

candidate_pieces :
    (raw : List ℕ) (offset : ℕ) (c : PackedCandidate) (end : ℕ)
    → All IsByte raw
    → DistinctLegs c
    → CandidateReads raw offset c end
    → (out : List ℕ) × CandidatePieces c out × (drop offset raw ≡ out ++ drop end raw)
candidate_pieces raw offset c end h ne r =
    let ti = taken offset 32 r.id h r.id_eq in
    let tm = taken r.id.1 32 r.min_profit h r.min_profit_eq in
    let tn = taken r.min_profit.1 1 r.counted h r.counted_eq in
    let candidate_eq = ap (λ (p : PackedCandidate × ℕ). p.0) r.result in
    let end_eq = ap (λ (p : PackedCandidate × ℕ). p.1) r.result in
    let distinct = subst (λ (p : PackedCandidate). DistinctLegs p) (sym candidate_eq) ne in
    let (l, el, count, split) =
      legs_encode raw (first_byte r.counted.0) r.counted.1 r.legs.0 r.legs.1 h distinct r.legs_eq in
    let out = r.id.0 ++ (r.min_profit.0 ++ (r.counted.0 ++ l)) in
    (
      out,
      subst (λ (p : PackedCandidate). CandidatePieces p out) candidate_eq
          (pieces_of_candidate r.id.0 r.min_profit.0 r.counted.0 l r.legs.0
            (ti.bytes, tm.bytes, tn.bytes) (ti.size_eq, tm.size_eq, tn.size_eq) count r.fits el),
      rw (← end_eq, ti.split, tm.split, tn.split, split) (simp append_assoc),
    )

decode_candidates-cons :
    (raw : List ℕ) (n offset : ℕ) (c : PackedCandidate) (cs : List PackedCandidate) (end : ℕ)
    → decode_candidates (suc n) raw offset ≡ ok (c ∷ cs, end)
    → (mid : ℕ) × (decode_candidate raw offset ≡ ok (c, mid))
      × (decode_candidates n raw mid ≡ ok (cs, end))
unfolding decode_candidates
decode_candidates-cons raw n offset c cs end e =
    let (x, ex, e1) = bind-eq-ok (decode_candidate raw offset) _ e in
    let (r, er, e2) = bind-eq-ok (decode_candidates n raw x.1) _ e1 in
    (x.1, ex ∙ cc (e2), er ∙ cc (e2))

decode_candidates-nil :
    (raw : List ℕ) (n offset end : ℕ) → decode_candidates (suc n) raw offset ≢ ok ([], end)
unfolding decode_candidates
decode_candidates-nil raw n offset end e =
    let (x, ex, e1) = bind-eq-ok (decode_candidate raw offset) _ e in
    let (r, er, e2) = bind-eq-ok (decode_candidates n raw x.1) _ e1 in cc (e2)

pub candidates_encode :
    (raw : List ℕ) (n offset : ℕ) (cs : List PackedCandidate) (end : ℕ)
    → All IsByte raw
    → All DistinctLegs cs
    → decode_candidates n raw offset ≡ ok (cs, end)
    → (out : List ℕ) × (encode_candidates cs ≡ ok out)
      × (length cs ≡ n)
      × (drop offset raw ≡ out ++ drop end raw)
unfolding encode_candidates
candidates_encode raw zero offset [] end h ne e =
    ([], refl, refl, ap (λ k. drop k raw) (unfold decode_candidates in cc))
candidates_encode raw zero offset (c ∷ cs) end h ne e = unfold decode_candidates in cc
candidates_encode raw (suc n) offset [] end h ne e =
    absurd (decode_candidates-nil raw n offset end e)
candidates_encode raw (suc n) offset (c ∷ cs) end h ne e =
    let (mid, ec, er) = decode_candidates-cons raw n offset c cs end e in
    let (a, p, sa) =
      candidate_pieces raw offset c mid h ne.0 (candidate_reads raw offset c mid ec) in
    let (b, eb, lb, sb) = candidates_encode raw n mid cs end h ne.1 er in
    (
      a ++ b,
      rw (encode_candidate_of_pieces p, eb),
      ap suc lb,
      sa ∙ ap (λ t. a ++ t) sb ∙ sym (append_assoc a b (drop end raw)),
    )
