-- ===== src/Ws/Frame/Fields.antt =====
-- The two fixed bytes of a header, and the bytes of a length: what the masks and shifts of
-- `ParseHeader` and `EncodeServerFrame` give in plain arithmetic.
use camera_player.Prelude.{
  ℕ, ◌+◌, ◌*◌, ◌%◌, ◌^◌, ◌≤◌, ◌<◌, bit_and, bit_or, true, false, not, ◌||◌, ◌==◌, ==_iff,
  every_under, every_under_lem, leb, if◌then◌else◌, ◌≡◌, refl, arith, IsByte, Bytes, ◌∷◌, length,
}
use camera_player.Prelude.Bits.{bit_and_mask, bit_or_fields}
use camera_player.Ws.Types.{op_byte, is_valid_op_code, cast_op_code}
use camera_player.Ws.Frame.{top_bit_set, shift_in}

top_bit_table : every_under (λ x. bit_and x 0x80 == (if leb 128 x then 128 else 0)) 256 ≡ true
unfolding every_under
top_bit_table = refl

pub top_bit_set-leb : (b : ℕ) → IsByte b → top_bit_set b ≡ leb 128 b
top_bit_set-leb b h = ground (
  arith,
  (==_iff (bit_and b 0x80) (if leb 128 b then 128 else 0)).0
      (every_under_lem _ 256 b top_bit_table h),
)

-- A first byte that `ParseHeader` takes is the operation's number, with 128 for FIN.
first_byte_table :
    every_under
      (λ b.
        not (bit_and b 0x70 == 0)
        || not (is_valid_op_code (bit_and b 0x0F))
        || (op_byte (cast_op_code (bit_and b 0x0F)) + (if top_bit_set b then 128 else 0) == b))
      256
    ≡ true
unfolding every_under
first_byte_table = refl

pub first_byte_is :
    (b : ℕ)
    → IsByte b
    → (not (bit_and b 0x70 == 0) || not (is_valid_op_code (bit_and b 0x0F))) ≡ false
    → op_byte (cast_op_code (bit_and b 0x0F)) + (if top_bit_set b then 128 else 0) ≡ b
first_byte_is b h e = ground (
  arith,
  every_under_lem _ 256 b first_byte_table h,
  ==_iff (op_byte (cast_op_code (bit_and b 0x0F)) + (if top_bit_set b then 128 else 0)) b,
)

pub low_seven : (b : ℕ) → bit_and b 0x7F ≡ b % 128
low_seven b = bit_and_mask 7 b

pub low_byte : (n : ℕ) → bit_and n 0xFF ≡ n % 256
low_byte n = bit_and_mask 8 n

pub two_bytes : (a b : ℕ) → IsByte b → bit_or (a * 2 ^ 8) b ≡ a * 256 + b
two_bytes a b h = bit_or_fields 8 a b h

pub shift_in_lem : (a b : ℕ) → a < 2 ^ 56 → IsByte b → shift_in a b ≡ a * 256 + b
shift_in_lem a b k h =
    let fits : (a * 2 ^ 8) % 2 ^ 64 ≡ a * 2 ^ 8 = omega arith in rw fits (two_bytes a b h)

-- The four low bytes of a 64-bit length, as `ParseHeader` joins them.
pub word_of_bytes :
    (a b c d : ℕ)
    → IsByte a
    → IsByte b
    → IsByte c
    → IsByte d
    → shift_in (shift_in (shift_in (shift_in 0 a) b) c) d ≡ a * 2 ^ 24 + b * 2 ^ 16 + c * 2 ^ 8 + d
word_of_bytes a b c d ha hb hc hd =
    rw
      (
        shift_in_lem 0 a (omega arith) ha,
        shift_in_lem (0 * 256 + a) b (omega arith) hb,
        shift_in_lem ((0 * 256 + a) * 256 + b) c (omega arith) hc,
        shift_in_lem (((0 * 256 + a) * 256 + b) * 256 + c) d (omega arith) hd,
      )
      (omega arith)

pub eight_of_length :
    (t : Bytes)
    → 8 ≤ length t
    → (x : ℕ) × (y : ℕ) × (z : ℕ) × (w : ℕ) × (a : ℕ) × (b : ℕ) × (c : ℕ) × (d : ℕ) × (u : Bytes)
      × (t ≡ x ∷ y ∷ z ∷ w ∷ a ∷ b ∷ c ∷ d ∷ u)
eight_of_length (x ∷ y ∷ z ∷ w ∷ a ∷ b ∷ c ∷ d ∷ u) h = (x, y, z, w, a, b, c, d, u, refl)
eight_of_length _ h = absurd (omega arith)
