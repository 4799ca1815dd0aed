-- ===== src/Ws/Frame/Wire.antt =====
-- The layout of RFC 6455, section 5.2, as a description of its own, and `ParseHeader` against it.
use camera_player.Prelude.{
  ℕ, ◌+◌, ◌*◌, ◌/◌, ◌%◌, ◌^◌, ◌<◌, bit_or, Bool, true, false, leb, if◌then◌else◌, ◌≡◌, ◌∙◌, arith,
  [], ◌∷◌, ◌++◌, length, Bytes, IsByte,
}
use camera_player.Ws.Types.{OpCode, text, op_byte}
use camera_player.Ws.Frame.{Header, empty_header, parse_header, read_header_len, shift_in}
use camera_player.Ws.Frame.Fields.{top_bit_set-leb, low_seven, two_bytes, shift_in_lem}
use camera_player.Prelude.Bits.{bit_or_bytes}

-- The seven bits of the second byte, and the bytes of the extended length.
abbrev pub len_seven : ℕ → ℕ
len_seven n = if leb n 125 then n else if leb n 65535 then 126 else 127

abbrev pub len_bytes : ℕ → Bytes
len_bytes n =
    if leb n 125
    then []
    else if leb n 65535
    then n / 256 ∷ n % 256 ∷ []
    else 0 ∷ 0 ∷ 0 ∷ 0 ∷ n / 2 ^ 24 ∷ n / 2 ^ 16 % 256 ∷ n / 256 % 256 ∷ n % 256 ∷ []

abbrev pub key_bytes : Bool → ℕ → Bytes
key_bytes masked k =
    if masked then k / 2 ^ 24 ∷ k / 2 ^ 16 % 256 ∷ k / 256 % 256 ∷ k % 256 ∷ [] else []

-- The bytes of a header. The lengths of 2 ^ 32 and more have no layout here.
abbrev pub header_bytes : Header → Bytes
header_bytes h =
    (op_byte h.opcode + (if h.fin then 128 else 0))
    ∷ (len_seven h.payload_len + (if h.masked then 128 else 0))
    ∷ (len_bytes h.payload_len ++ key_bytes h.masked h.mask_key)

-- What a header that was parsed satisfies.
pub record IsWire (h : Header) : Type 0 where
  pub payload_fits : h.payload_len < 2 ^ 32
  pub key_fits : h.mask_key < 2 ^ 32
  pub unmasked_key : h.masked ≡ false → h.mask_key ≡ 0
  pub header_len_is : h.header_len ≡ length (header_bytes h)

first_byte_step :
    (op : OpCode) (fin : Bool) (b1 : ℕ) (t : Bytes)
    → IsByte b1
    → parse_header ((op_byte op + (if fin then 128 else 0)) ∷ b1 ∷ t)
      ≡ read_header_len
          ((op_byte op + (if fin then 128 else 0)) ∷ b1 ∷ t)
          (b1 % 128)
          (record empty_header { fin = fin; opcode = op; masked = leb 128 b1 })
unfolding parse_header
first_byte_step text true b1 t h = ground (arith, top_bit_set-leb b1 h, low_seven b1)
first_byte_step text false b1 t h = ground (arith, top_bit_set-leb b1 h, low_seven b1)
first_byte_step _ true b1 t h = ground (arith, top_bit_set-leb b1 h, low_seven b1)
first_byte_step _ false b1 t h = ground (arith, top_bit_set-leb b1 h, low_seven b1)

second_byte_len : (n : ℕ) (m : Bool) → (len_seven n + (if m then 128 else 0)) % 128 ≡ len_seven n
second_byte_len n m = ground arith

second_byte_mask : (n : ℕ) (m : Bool) → leb 128 (len_seven n + (if m then 128 else 0)) ≡ m
second_byte_mask n m = ground arith

key_of_bytes :
    (k : ℕ)
    → k < 2 ^ 32
    → bit_or
        (bit_or (bit_or (k / 2 ^ 24 * 2 ^ 24) (k / 2 ^ 16 % 256 * 2 ^ 16)) (k / 256 % 256 * 2 ^ 8))
        (k % 256)
      ≡ k
key_of_bytes k h = omega (
  arith,
  bit_or_bytes (k / 2 ^ 24) (k / 2 ^ 16 % 256) (k / 256 % 256) (k % 256) (omega arith) (omega arith)
      (omega arith),
)

len_of_bytes :
    (n : ℕ)
    → n < 2 ^ 32
    → shift_in
        (shift_in (shift_in (shift_in 0 (n / 2 ^ 24)) (n / 2 ^ 16 % 256)) (n / 256 % 256))
        (n % 256)
      ≡ n
len_of_bytes n h =
    rw
      (
        shift_in_lem 0 (n / 2 ^ 24) (omega arith) (omega arith),
        shift_in_lem (0 * 256 + n / 2 ^ 24) (n / 2 ^ 16 % 256) (omega arith) (omega arith),
        shift_in_lem ((0 * 256 + n / 2 ^ 24) * 256 + n / 2 ^ 16 % 256) (n / 256 % 256) (omega arith)
            (omega arith),
        shift_in_lem (((0 * 256 + n / 2 ^ 24) * 256 + n / 2 ^ 16 % 256) * 256 + n / 256 % 256)
            (n % 256) (omega arith) (omega arith),
      )
      (omega arith)

-- The rest of the header, behind any two bytes.
header_rest :
    (fin m : Bool) (op : OpCode) (n k a b : ℕ) (rest : Bytes)
    → n < 2 ^ 32
    → k < 2 ^ 32
    → read_header_len
        (a ∷ b ∷ ((len_bytes n ++ key_bytes m k) ++ rest))
        (len_seven n)
        (record empty_header { fin = fin; opcode = op; masked = m })
      ≡ (
        2 + length (len_bytes n ++ key_bytes m k),
        record {
          fin = fin;
          opcode = op;
          masked = m;
          header_len = 2 + length (len_bytes n ++ key_bytes m k);
          payload_len = n;
          mask_key = if m then k else 0;
        },
      )
unfolding read_header_len
header_rest fin true op n k a b rest hn hk =
    ground (arith, key_of_bytes k hk, len_of_bytes n hn, two_bytes (n / 256) (n % 256))
header_rest fin false op n k a b rest hn hk =
    ground (arith, len_of_bytes n hn, two_bytes (n / 256) (n % 256))

-- `ParseHeader` reads back every header that satisfies `IsWire` from the bytes of its layout,
-- whatever follows them.
pub parse_header-header_bytes :
    (h : Header) (rest : Bytes)
    → IsWire h
    → parse_header (header_bytes h ++ rest) ≡ (h.header_len, h)
parse_header-header_bytes h rest w =
    first_byte_step h.opcode h.fin _ _ (ground arith)
    ∙ rw (second_byte_len h.payload_len h.masked, second_byte_mask h.payload_len h.masked)
        (header_rest h.fin h.masked h.opcode h.payload_len h.mask_key _ _ rest w.payload_fits
            w.key_fits
          ∙ ground arith)
