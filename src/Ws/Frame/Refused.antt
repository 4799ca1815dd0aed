-- ===== src/Ws/Frame/Refused.antt =====
-- What `ParseHeader` refuses stays refused, whatever arrives behind it.
use camera_player.Prelude.{
  Bool-cases, ==_iff, ◌%◌, inl, inr, ℕ, ◌≤◌, ◌<◌, bit_and, true, not, ◌||◌, ◌==◌, ◌≡◌, ◌≢◌, arith,
  [], ◌∷◌, ◌++◌, length, length-append, get_or, get_or-append, All, All-get_or, Bytes, IsByte,
}
use camera_player.Ws.Types.{is_valid_op_code}
use camera_player.Ws.Frame.{Header, parse_header, read_header_len, u64_max}
use camera_player.Ws.Frame.Accepted.{fixed_part, fixed_part-payload_len, past_first_byte}
use camera_player.Ws.Frame.Fields.{two_bytes, word_of_bytes, eight_of_length}

-- The verdict of `read_header_len`, by the seven bits of the length.
short_not_refused :
    (d : Bytes) (len7 : ℕ) (hdr : Header)
    → len7 ≤ 125
    → hdr.payload_len ≡ 0
    → (read_header_len d len7 hdr).1.payload_len ≢ u64_max
unfolding read_header_len
short_not_refused d len7 hdr h h0 e = ground arith

refused_two :
    (a b : ℕ) (t more : Bytes) (hdr : Header)
    → All IsByte t
    → hdr.payload_len ≡ 0
    → (read_header_len (a ∷ b ∷ t) 126 hdr).1.payload_len ≡ u64_max
    → (read_header_len (a ∷ b ∷ (t ++ more)) 126 hdr).1.payload_len ≡ u64_max
unfolding read_header_len
refused_two a b t more hdr bs h0 e =
    let at = λ (i : ℕ). All-get_or IsByte t i 0 bs (omega arith) in
    ground (
      arith,
      length-append t more,
      get_or-append t more 0 0,
      get_or-append t more 1 0,
      two_bytes (get_or t 0 0) (get_or t 1 0) (at 1),
      at 0,
      at 1,
    )

refused_there :
    (d : Bytes) (hdr : Header)
    → hdr.payload_len ≡ 0
    → (read_header_len d 127 hdr).1.payload_len ≡ u64_max
    → 10 ≤ length d
unfolding read_header_len
refused_there d hdr h0 e = ground arith

refused_eight_at :
    (p q x y z w a b c d : ℕ) (u more : Bytes) (hdr : Header)
    → IsByte a
    → IsByte b
    → IsByte c
    → IsByte d
    → hdr.payload_len ≡ 0
    → (read_header_len (p ∷ q ∷ x ∷ y ∷ z ∷ w ∷ a ∷ b ∷ c ∷ d ∷ u) 127 hdr).1.payload_len ≡ u64_max
    → (read_header_len (p ∷ q ∷ x ∷ y ∷ z ∷ w ∷ a ∷ b ∷ c ∷ d ∷ (u ++ more)) 127 hdr).1.payload_len
      ≡ u64_max
unfolding read_header_len
refused_eight_at p q x y z w a b c d u more hdr ha hb hc hd h0 e =
    ground (arith, length-append u more, word_of_bytes a b c d)

refused_eight :
    (p q : ℕ) (t more : Bytes) (hdr : Header)
    → All IsByte t
    → hdr.payload_len ≡ 0
    → (read_header_len (p ∷ q ∷ t) 127 hdr).1.payload_len ≡ u64_max
    → (read_header_len (p ∷ q ∷ (t ++ more)) 127 hdr).1.payload_len ≡ u64_max
refused_eight p q t more hdr bs h0 e =
    let (x, y, z, w, a, b, c, d, u, s) =
      eight_of_length t (omega (arith, refused_there (p ∷ q ∷ t) hdr h0 e)) in
    let bs' : All IsByte (x ∷ y ∷ z ∷ w ∷ a ∷ b ∷ c ∷ d ∷ u) = rw s at bs in
    let (hx, (hy, (hz, (hw, (ha, (hb, (hc, (hd, hu)))))))) = bs' in
    rw s (refused_eight_at p q x y z w a b c d u more hdr ha hb hc hd h0 (rw s at e))

refused_len :
    (p q : ℕ) (t more : Bytes) (len7 : ℕ) (hdr : Header)
    → len7 < 128
    → All IsByte t
    → hdr.payload_len ≡ 0
    → (read_header_len (p ∷ q ∷ t) len7 hdr).1.payload_len ≡ u64_max
    → (read_header_len (p ∷ q ∷ (t ++ more)) len7 hdr).1.payload_len ≡ u64_max
refused_len p q t more len7 hdr h7 bs h0 e = elim (Bool-cases (len7 == 126)) [
  | inl f ↦
      let f' : len7 ≡ 126 = (==_iff _ _).0 f in
      rw f' (refused_two p q t more hdr bs h0 (rw f' at e))
  | inr f ↦ elim (Bool-cases (len7 == 127)) [
    | inl g ↦
        let g' : len7 ≡ 127 = (==_iff _ _).0 g in
        rw g' (refused_eight p q t more hdr bs h0 (rw g' at e))
    | inr g ↦ absurd (short_not_refused (p ∷ q ∷ t) len7 hdr (ground arith) h0 e)
  ]
]

first_byte_refused :
    (p q : ℕ) (t : Bytes)
    → (not (bit_and p 0x70 == 0) || not (is_valid_op_code (bit_and p 0x0F))) ≡ true
    → (parse_header (p ∷ q ∷ t)).1.payload_len ≡ u64_max
unfolding parse_header
first_byte_refused p q t bad = simp bad (ground arith)

-- A header that `ParseHeader` refuses is refused whatever arrives behind it.
pub parse_header_refused_stable :
    (d more : Bytes)
    → All IsByte d
    → (parse_header d).1.payload_len ≡ u64_max
    → (parse_header (d ++ more)).1.payload_len ≡ u64_max
parse_header_refused_stable [] more bs e = absurd (unfold parse_header in cc e)
parse_header_refused_stable (p ∷ []) more bs e = absurd (unfold parse_header in cc e)
parse_header_refused_stable (p ∷ q ∷ t) more (hp, (hq, bs)) e =
    elim (Bool-cases (not (bit_and p 0x70 == 0) || not (is_valid_op_code (bit_and p 0x0F)))) [
      | inl bad ↦ first_byte_refused p q (t ++ more) bad
      | inr ok ↦
          let refused = rw (past_first_byte p q t ok) at e in
          rw (past_first_byte p q (t ++ more) ok) (
            refused_len p q t more (q % 128) (fixed_part p q) (omega arith) bs
              (fixed_part-payload_len p q) refused)
    ]
