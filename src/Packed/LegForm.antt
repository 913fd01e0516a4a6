-- ===== src/Packed/LegForm.antt =====
-- Encoding the legs that were read: the wire form of a leg is canonical.
use base_arb_bot.Prelude.{
  ℕ, zero, suc, ◌≡◌, ◌≢◌, refl, sym, ap, subst, ◌∙◌, true, List, [], ◌∷◌, ◌++◌, length, drop, All,
  All-append_left, All-drop, ok, bind-eq-ok, guard-eq-ok, ok-injective, leb,
}
use mathlib.Core.List.{append_assoc}
use base_arb_bot.Prelude.Text.{codes, text_eq_ne, lower}
use base_arb_bot.Prelude.Bytes.{IsByte, from_bytes, lower-to_hex}
use base_arb_bot.Prelude.Int.{pos}
use base_arb_bot.Packed.{
  PackedLeg, PackedCandidate, take_bytes, encode_legs, decode_leg, decode_legs, hex_text,
  max_packed_leg_data,
}
use base_arb_bot.Packed.Fields.{take_bytes-ok, hex_bytes-hex_text, uint_bytes-from_bytes}
use base_arb_bot.Packed.Encode.{LegPieces, encode_leg_of_pieces}

-- The decoder, unlike the encoder, does not ask that a leg trade two different tokens.
abbrev pub DistinctLegs : PackedCandidate → Type 0
DistinctLegs c = All (λ (leg : PackedLeg). leg.token_in ≢ leg.token_out) c.legs

-- What one `_take` that returned says of a byte string.
pub record Taken (raw : List ℕ) (offset size : ℕ) (b : List ℕ) (end : ℕ) : Type 0 where
  pub split : drop offset raw ≡ b ++ drop end raw
  pub size_eq : length b ≡ size
  pub bytes : All IsByte b

pub taken :
    {raw : List ℕ} (offset size : ℕ) (r : List ℕ × ℕ)
    → All IsByte raw
    → take_bytes raw offset size ≡ ok r
    → Taken raw offset size r.0 r.1
taken {raw} offset size r h e =
    let (s, n, _, _) = take_bytes-ok raw offset size r.0 r.1 e in
    record {
      split = s;
      size_eq = n;
      bytes = All-append_left IsByte r.0 (drop r.1 raw) (rw s at (All-drop IsByte offset raw h));
    }

lower-hex_text : (b : List ℕ) → All IsByte b → lower (hex_text b) ≡ hex_text b
unfolding lower
lower-hex_text b h = ap (λ t. codes "0x" ++ t) (lower-to_hex b h)

-- The reads of a `decode_leg` that returned.
record LegReads (raw : List ℕ) (offset : ℕ) (leg : PackedLeg) (end : ℕ) : Type 0 where
  adapter : List ℕ × ℕ
  token_in : List ℕ × ℕ
  token_out : List ℕ × ℕ
  min_out : List ℕ × ℕ
  counted : List ℕ × ℕ
  leg_data : List ℕ × ℕ
  adapter_eq : take_bytes raw offset 20 ≡ ok adapter
  token_in_eq : take_bytes raw adapter.1 20 ≡ ok token_in
  token_out_eq : take_bytes raw token_in.1 20 ≡ ok token_out
  min_out_eq : take_bytes raw token_out.1 32 ≡ ok min_out
  counted_eq : take_bytes raw min_out.1 2 ≡ ok counted
  fits : leb (from_bytes counted.0) max_packed_leg_data ≡ true
  leg_data_eq : take_bytes raw counted.1 (from_bytes counted.0) ≡ ok leg_data
  result :
      ◌≡◌ {A = PackedLeg × ℕ}
        (
          record {
            adapter = hex_text adapter.0;
            token_in = hex_text token_in.0;
            token_out = hex_text token_out.0;
            min_out = pos (from_bytes min_out.0);
            leg_data = leg_data.0;
          },
          leg_data.1,
        )
        (leg, end)

leg_reads :
    (raw : List ℕ) (offset : ℕ) (leg : PackedLeg) (end : ℕ)
    → decode_leg raw offset ≡ ok (leg, end)
    → LegReads raw offset leg end
unfolding decode_leg
leg_reads raw offset leg end e =
    let (a, ea, e1) = bind-eq-ok (take_bytes raw offset 20) _ e in
    let (i, ei, e2) = bind-eq-ok (take_bytes raw a.1 20) _ e1 in
    let (o, eo, e3) = bind-eq-ok (take_bytes raw i.1 20) _ e2 in
    let (m, em, e4) = bind-eq-ok (take_bytes raw o.1 32) _ e3 in
    let (n, en, e5) = bind-eq-ok (take_bytes raw m.1 2) _ e4 in
    let (f, e6) = guard-eq-ok _ _ _ e5 in
    let (d, ed, e7) = bind-eq-ok (take_bytes raw n.1 (from_bytes n.0)) _ e6 in
    record {
      adapter = a;
      token_in = i;
      token_out = o;
      min_out = m;
      counted = n;
      leg_data = d;
      adapter_eq = ea;
      token_in_eq = ei;
      token_out_eq = eo;
      min_out_eq = em;
      counted_eq = en;
      fits = f;
      leg_data_eq = ed;
      result = ok-injective e7;
    }

pieces_of_leg :
    (a i o m n d : List ℕ)
    → All IsByte a × All IsByte i × All IsByte o × All IsByte m × All IsByte n
    → (length a ≡ 20) × (length i ≡ 20) × (length o ≡ 20) × (length m ≡ 32) × (length n ≡ 2)
    → length d ≡ from_bytes n
    → leb (from_bytes n) max_packed_leg_data ≡ true
    → hex_text i ≢ hex_text o
    → LegPieces
        (record {
          adapter = hex_text a;
          token_in = hex_text i;
          token_out = hex_text o;
          min_out = pos (from_bytes m);
          leg_data = d;
        })
        (a ++ (i ++ (o ++ (m ++ (n ++ d)))))
pieces_of_leg a i o m n d (ba, bi, bo, bm, bn) (la, li, lo, lm, ln) ld fits ne = record {
  adapter = a;
  token_in = i;
  token_out = o;
  min_out = m;
  data_len = n;
  distinct =
      rw (lower-hex_text i bi, lower-hex_text o bo) (text_eq_ne (hex_text i) (hex_text o) ne);
  data_fits = rw ld fits;
  adapter_eq = hex_bytes-hex_text a 20 _ ba la;
  token_in_eq = hex_bytes-hex_text i 20 _ bi li;
  token_out_eq = hex_bytes-hex_text o 20 _ bo lo;
  min_out_eq = uint_bytes-from_bytes m 32 _ bm lm;
  data_len_eq = rw ld (uint_bytes-from_bytes n 2 _ bn ln);
  out_eq = refl;
}

-- Encoding a leg that was read gives back the bytes that it was read from.
leg_pieces :
    (raw : List ℕ) (offset : ℕ) (leg : PackedLeg) (end : ℕ)
    → All IsByte raw
    → leg.token_in ≢ leg.token_out
    → LegReads raw offset leg end
    → (out : List ℕ) × LegPieces leg out × (drop offset raw ≡ out ++ drop end raw)
leg_pieces raw offset leg end h ne r =
    let ta = taken offset 20 r.adapter h r.adapter_eq in
    let ti = taken r.adapter.1 20 r.token_in h r.token_in_eq in
    let to = taken r.token_in.1 20 r.token_out h r.token_out_eq in
    let tm = taken r.token_out.1 32 r.min_out h r.min_out_eq in
    let tn = taken r.min_out.1 2 r.counted h r.counted_eq in
    let td = taken r.counted.1 (from_bytes r.counted.0) r.leg_data h r.leg_data_eq in
    let leg_eq = ap (λ (p : PackedLeg × ℕ). p.0) r.result in
    let end_eq = ap (λ (p : PackedLeg × ℕ). p.1) r.result in
    let out =
      r.adapter.0
      ++ (r.token_in.0 ++ (r.token_out.0 ++ (r.min_out.0 ++ (r.counted.0 ++ r.leg_data.0)))) in
    (
      out,
      subst (λ (l : PackedLeg). l.token_in ≢ l.token_out → LegPieces l out) leg_eq
          (pieces_of_leg r.adapter.0 r.token_in.0 r.token_out.0 r.min_out.0 r.counted.0 r.leg_data.0
            (ta.bytes, ti.bytes, to.bytes, tm.bytes, tn.bytes)
            (ta.size_eq, ti.size_eq, to.size_eq, tm.size_eq, tn.size_eq) td.size_eq r.fits)
          ne,
      rw (← end_eq, ta.split, ti.split, to.split, tm.split, tn.split, td.split) (simp append_assoc),
    )

decode_legs-cons :
    (raw : List ℕ) (n offset : ℕ) (leg : PackedLeg) (legs : List PackedLeg) (end : ℕ)
    → decode_legs (suc n) raw offset ≡ ok (leg ∷ legs, end)
    → (mid : ℕ) × (decode_leg raw offset ≡ ok (leg, mid)) × (decode_legs n raw mid ≡ ok (legs, end))
unfolding decode_legs
decode_legs-cons raw n offset leg legs end e =
    let (l, el, e1) = bind-eq-ok (decode_leg raw offset) _ e in
    let (r, er, e2) = bind-eq-ok (decode_legs n raw l.1) _ e1 in (l.1, el ∙ cc (e2), er ∙ cc (e2))

decode_legs-nil : (raw : List ℕ) (n offset end : ℕ) → decode_legs (suc n) raw offset ≢ ok ([], end)
unfolding decode_legs
decode_legs-nil raw n offset end e =
    let (l, el, e1) = bind-eq-ok (decode_leg raw offset) _ e in
    let (r, er, e2) = bind-eq-ok (decode_legs n raw l.1) _ e1 in cc (e2)

pub legs_encode :
    (raw : List ℕ) (n offset : ℕ) (legs : List PackedLeg) (end : ℕ)
    → All IsByte raw
    → All (λ (leg : PackedLeg). leg.token_in ≢ leg.token_out) legs
    → decode_legs n raw offset ≡ ok (legs, end)
    → (out : List ℕ) × (encode_legs legs ≡ ok out)
      × (length legs ≡ n)
      × (drop offset raw ≡ out ++ drop end raw)
unfolding encode_legs
legs_encode raw zero offset [] end h ne e =
    ([], refl, refl, ap (λ k. drop k raw) (unfold decode_legs in cc))
legs_encode raw zero offset (leg ∷ legs) end h ne e = unfold decode_legs in cc
legs_encode raw (suc n) offset [] end h ne e = absurd (decode_legs-nil raw n offset end e)
legs_encode raw (suc n) offset (leg ∷ legs) end h ne e =
    let (mid, el, er) = decode_legs-cons raw n offset leg legs end e in
    let (a, p, sa) = leg_pieces raw offset leg mid h ne.0 (leg_reads raw offset leg mid el) in
    let (b, eb, lb, sb) = legs_encode raw n mid legs end h ne.1 er in
    (
      a ++ b,
      rw (encode_leg_of_pieces p, eb),
      ap suc lb,
      sa ∙ ap (λ t. a ++ t) sb ∙ sym (append_assoc a b (drop end raw)),
    )
