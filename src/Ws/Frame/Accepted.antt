-- ===== src/Ws/Frame/Accepted.antt =====
-- What `ParseHeader` accepts: nothing but the layout of `Wire`.
use camera_player.Prelude.{
  ℕ, ◌+◌, ◌*◌, ◌%◌, ◌^◌, ◌≤◌, ◌<◌, bit_and, Bool, true, false, not, ◌||◌, ◌==◌, ==_iff, leb,
  Bool-cases, append_assoc, append-nil, if◌then◌else◌, ◌≡◌, ◌≢◌, refl, sym, ap, ◌∙◌, arith, [], ◌∷◌,
  ◌++◌, length, length-append, All, Bytes, IsByte, inl, inr,
}
use mathlib.Core.Path.{subst}
use camera_player.Ws.Types.{OpCode, is_valid_op_code, cast_op_code}
use camera_player.Ws.Frame.{Header, empty_header, parse_header, read_header_len, top_bit_set}
use camera_player.Ws.Frame.Fields.{
  top_bit_set-leb, low_seven, two_bytes, first_byte_is, word_of_bytes, eight_of_length,
}
use camera_player.Ws.Frame.Wire.{
  len_seven, len_bytes, key_bytes, header_bytes, IsWire, parse_header-header_bytes,
}

pub record Extended (hdr : Header) (len7 : ℕ) (t : Bytes) : Type 0 where
  n : ℕ
  behind : Bytes
  n_fits : n < 2 ^ 32
  n_seven : len_seven n ≡ len7
  splits : t ≡ len_bytes n ++ behind
  bytes_behind : All IsByte behind
  key_there : hdr.masked ≡ true → 4 ≤ length behind

Extended-short :
    (hdr : Header) (b0 b1 len7 : ℕ) (t : Bytes)
    → len7 ≤ 125
    → All IsByte t
    → (read_header_len (b0 ∷ b1 ∷ t) len7 hdr).0 ≢ 0
    → Extended hdr len7 t
unfolding read_header_len
Extended-short hdr b0 b1 len7 t h bs ne = record {
  n = len7;
  behind = t;
  n_fits = omega arith;
  n_seven = ground arith;
  splits = ground arith;
  bytes_behind = bs;
  key_there = ground arith;
}

Extended-two :
    (hdr : Header) (b0 b1 : ℕ) (t : Bytes)
    → All IsByte t
    → (read_header_len (b0 ∷ b1 ∷ t) 126 hdr).0 ≢ 0
    → Extended hdr 126 t
unfolding read_header_len
Extended-two hdr b0 b1 [] bs ne = absurd (ground arith)
Extended-two hdr b0 b1 (x ∷ []) bs ne = absurd (ground arith)
Extended-two hdr b0 b1 (x ∷ y ∷ u) bs ne = record {
  n = x * 256 + y;
  behind = u;
  n_fits = omega arith;
  n_seven = ground (arith, two_bytes x y);
  splits = ground (arith, two_bytes x y);
  bytes_behind = bs.1.1;
  key_there = ground (arith, two_bytes x y);
}

Extended-eight_at :
    (hdr : Header) (b0 b1 x y z w a b c d : ℕ) (u : Bytes)
    → All IsByte (x ∷ y ∷ z ∷ w ∷ a ∷ b ∷ c ∷ d ∷ u)
    → (read_header_len (b0 ∷ b1 ∷ x ∷ y ∷ z ∷ w ∷ a ∷ b ∷ c ∷ d ∷ u) 127 hdr).0 ≢ 0
    → Extended hdr 127 (x ∷ y ∷ z ∷ w ∷ a ∷ b ∷ c ∷ d ∷ u)
unfolding read_header_len
Extended-eight_at hdr b0 b1 x y z w a b c d u (hx, (hy, (hz, (hw, (ha, (hb, (hc, (hd, hu))))))))
      ne =
    record {
      n = a * 2 ^ 24 + b * 2 ^ 16 + c * 2 ^ 8 + d;
      behind = u;
      n_fits = omega arith;
      n_seven = ground (arith, word_of_bytes a b c d);
      splits = ground (arith, word_of_bytes a b c d);
      bytes_behind = hu;
      key_there = ground (arith, word_of_bytes a b c d);
    }

header_there :
    (hdr : Header) (d : Bytes) (len7 : ℕ)
    → (read_header_len d len7 hdr).0 ≢ 0
    → len7 ≡ 127
    → 10 ≤ length d
unfolding read_header_len
header_there hdr d len7 ne e = ground arith

Extended-eight :
    (hdr : Header) (b0 b1 : ℕ) (t : Bytes)
    → All IsByte t
    → (read_header_len (b0 ∷ b1 ∷ t) 127 hdr).0 ≢ 0
    → Extended hdr 127 t
Extended-eight hdr b0 b1 t bs ne =
    let (x, y, z, w, a, b, c, d, u, e) =
      eight_of_length t (omega (arith, header_there hdr (b0 ∷ b1 ∷ t) 127 ne refl)) in
    rw e (Extended-eight_at hdr b0 b1 x y z w a b c d u (rw e at bs) (rw e at ne))

extended :
    (hdr : Header) (b0 b1 : ℕ) (t : Bytes)
    → All IsByte t
    → (read_header_len (b0 ∷ b1 ∷ t) (b1 % 128) hdr).0 ≢ 0
    → Extended hdr (b1 % 128) t
extended hdr b0 b1 t bs ne = elim (Bool-cases (b1 % 128 == 126)) [
  | inl e ↦
      let e' : b1 % 128 ≡ 126 = (==_iff _ _).0 e in
      rw e' (Extended-two hdr b0 b1 t bs (rw e' at ne))
  | inr e ↦ elim (Bool-cases (b1 % 128 == 127)) [
    | inl f ↦
        let f' : b1 % 128 ≡ 127 = (==_iff _ _).0 f in
        rw f' (Extended-eight hdr b0 b1 t bs (rw f' at ne))
    | inr f ↦ Extended-short hdr b0 b1 (b1 % 128) t (ground arith) bs ne
  ]
]

record Keyed (m : Bool) (u : Bytes) : Type 0 where
  key : ℕ
  rest : Bytes
  key_fits : key < 2 ^ 32
  no_key : m ≡ false → key ≡ 0
  splits : u ≡ key_bytes m key ++ rest

keyed : (m : Bool) (u : Bytes) → All IsByte u → (m ≡ true → 4 ≤ length u) → Keyed m u
keyed false u bs h = record {
  key = 0;
  rest = u;
  key_fits = omega arith;
  no_key = λ e. refl;
  splits = refl;
}
keyed true (a ∷ b ∷ c ∷ d ∷ r) (ha, (hb, (hc, (hd, hr)))) h = record {
  key = a * 2 ^ 24 + b * 2 ^ 16 + c * 2 ^ 8 + d;
  rest = r;
  key_fits = omega arith;
  no_key = λ e. absurd (cc);
  splits = ground arith;
}
keyed true _ bs h = absurd (omega (arith, h refl))

-- The header that the pieces spell.
spelt : Bool → OpCode → Bool → ℕ → ℕ → Header
spelt fin op m n k = record {
  fin = fin;
  opcode = op;
  masked = m;
  header_len = 2 + length (len_bytes n ++ key_bytes m k);
  payload_len = n;
  mask_key = k;
}

second_byte_is :
    (n b1 : ℕ)
    → IsByte b1
    → len_seven n ≡ b1 % 128
    → len_seven n + (if leb 128 b1 then 128 else 0) ≡ b1
second_byte_is n b1 h e = ground arith

-- The pieces found, joined.
spelt_bytes :
    (b0 b1 : ℕ) (t : Bytes) (hdr : Header)
    → IsByte b0
    → IsByte b1
    → (not (bit_and b0 0x70 == 0) || not (is_valid_op_code (bit_and b0 0x0F))) ≡ false
    → hdr.masked ≡ leb 128 b1
    → (x : Extended hdr (b1 % 128) t) → (y : Keyed (leb 128 b1) x.behind)
    → b0 ∷ b1 ∷ t
      ≡ header_bytes
          (spelt (top_bit_set b0) (cast_op_code (bit_and b0 0x0F)) (leb 128 b1) x.n y.key)
        ++ y.rest
unfolding spelt
spelt_bytes b0 b1 t hdr h0 h1 ok m x y =
    rw (first_byte_is b0 h0 ok, second_byte_is x.n b1 h1 x.n_seven)
      (rw (x.splits, y.splits) (rw append_assoc refl))

spelt-IsWire :
    (fin m : Bool) (op : OpCode) (n k : ℕ)
    → n < 2 ^ 32
    → k < 2 ^ 32
    → (m ≡ false → k ≡ 0)
    → IsWire (spelt fin op m n k)
unfolding spelt
spelt-IsWire fin m op n k hn hk none = record {
  payload_fits = hn;
  key_fits = hk;
  unmasked_key = none;
  header_len_is = omega arith;
}

-- What a byte string is that `ParseHeader` takes a header off.
pub record StartsWithHeader (d : Bytes) : Type 0 where
  pub header : Header
  pub rest : Bytes
  pub wire : IsWire header
  pub splits : d ≡ header_bytes header ++ rest

-- The header with what the first two bytes say.
pub fixed_part : ℕ → ℕ → Header
fixed_part b0 b1 = record empty_header {
  fin = top_bit_set b0;
  opcode = cast_op_code (bit_and b0 0x0F);
  masked = top_bit_set b1;
}

first_byte_ok :
    (b0 b1 : ℕ) (t : Bytes)
    → (parse_header (b0 ∷ b1 ∷ t)).0 ≢ 0
    → (not (bit_and b0 0x70 == 0) || not (is_valid_op_code (bit_and b0 0x0F))) ≡ false
unfolding parse_header
first_byte_ok b0 b1 t ne = ground arith

pub past_first_byte :
    (b0 b1 : ℕ) (t : Bytes)
    → (not (bit_and b0 0x70 == 0) || not (is_valid_op_code (bit_and b0 0x0F))) ≡ false
    → parse_header (b0 ∷ b1 ∷ t) ≡ read_header_len (b0 ∷ b1 ∷ t) (b1 % 128) (fixed_part b0 b1)
unfolding parse_header fixed_part
past_first_byte b0 b1 t ok = ground (arith, low_seven b1)

pub fixed_part-payload_len : (p q : ℕ) → (fixed_part p q).payload_len ≡ 0
unfolding fixed_part
fixed_part-payload_len p q = refl

started :
    (b0 b1 : ℕ) (t : Bytes)
    → All IsByte (b0 ∷ b1 ∷ t)
    → (parse_header (b0 ∷ b1 ∷ t)).0 ≢ 0
    → StartsWithHeader (b0 ∷ b1 ∷ t)
unfolding fixed_part
started b0 b1 t (h0, (h1, bs)) ne =
    let ok = first_byte_ok b0 b1 t ne in
    let masked_is = top_bit_set-leb b1 h1 in
    let x =
      extended (fixed_part b0 b1) b0 b1 t bs
        (λ e. ne (ap (λ (r : ℕ × Header). r.0) (past_first_byte b0 b1 t ok) ∙ e)) in
    let y = keyed (leb 128 b1) x.behind x.bytes_behind (λ e. x.key_there (masked_is ∙ e)) in
    record {
      header = spelt (top_bit_set b0) (cast_op_code (bit_and b0 0x0F)) (leb 128 b1) x.n y.key;
      rest = y.rest;
      wire = spelt-IsWire _ _ _ _ _ x.n_fits y.key_fits y.no_key;
      splits = spelt_bytes b0 b1 t (fixed_part b0 b1) h0 h1 ok masked_is x y;
    }

starts : (d : Bytes) → All IsByte d → (parse_header d).0 ≢ 0 → StartsWithHeader d
starts [] bs ne = absurd (ne (unfold parse_header in refl))
starts (b0 ∷ []) bs ne = absurd (ne (unfold parse_header in refl))
starts (b0 ∷ b1 ∷ t) bs ne = started b0 b1 t bs ne

parsed_as :
    (d more : Bytes) (s : StartsWithHeader d)
    → parse_header (d ++ more) ≡ (s.header.header_len, s.header)
parsed_as d more s =
    rw (s.splits, append_assoc) (parse_header-header_bytes s.header (s.rest ++ more) s.wire)

-- Where `ParseHeader` takes a header off a string of bytes, it is a header in the layout of RFC
-- 6455, with the shortest form of its length, and the rest of the string stands behind it.
pub parse_header_sound :
    (d : Bytes)
    → All IsByte d
    → (parse_header d).0 ≢ 0
    → (rest : Bytes) × IsWire (parse_header d).1
      × ((parse_header d).0 ≡ (parse_header d).1.header_len)
      × (d ≡ header_bytes (parse_header d).1 ++ rest)
parse_header_sound d bs ne =
    let s = starts d bs ne in
    let parsed : parse_header d ≡ (s.header.header_len, s.header) =
      rw append-nil at (parsed_as d [] s) in
    subst
      (λ (r : ℕ × Header).
        (rest : Bytes) × IsWire r.1 × (r.0 ≡ r.1.header_len) × (d ≡ header_bytes r.1 ++ rest))
      (sym parsed) (s.rest, s.wire, refl, s.splits)

-- A header that was parsed lies within the buffer, and bytes that arrive behind it change nothing.
pub parse_header_stable :
    (d more : Bytes)
    → All IsByte d
    → (parse_header d).0 ≢ 0
    → ((parse_header d).0 ≤ length d) × (parse_header (d ++ more) ≡ parse_header d)
parse_header_stable d more bs ne =
    let s = starts d bs ne in
    let parsed : parse_header d ≡ (s.header.header_len, s.header) =
      rw append-nil at (parsed_as d [] s) in
    (
      omega (
        arith,
        ap (λ (r : ℕ × Header). r.0) parsed,
        s.wire.header_len_is,
        ap length s.splits,
        length-append (header_bytes s.header) s.rest,
      ),
      parsed_as d more s ∙ sym parsed,
    )
