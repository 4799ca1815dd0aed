-- ===== src/Tools/BitWriter.antt =====
-- `BitWriter` of tools/gen_test_h264.cpp: bits that are put together to bytes, and Exp-Golomb codes.
use native.Mathlib.Nat.{pow-suc}
use camera_player.Prelude.{
  ℕ, zero, suc, ◌+◌, ◌-◌, ◌*◌, ◌/◌, ◌%◌, ◌^◌, ◌≤◌, ◌<◌, bit_and, bit_or, ◌==◌, if◌then◌else◌,
  if_cases, [], ◌∷◌, ◌++◌, Bytes, ◌>>>◌, ◌<<<◌, ◌≡◌, ◌≢◌, refl, arith, Bool-cases, inl, inr,
}
use camera_player.Prelude.Numbers.{ℤ, pos, negsuc}
use camera_player.Prelude.Bits.{bit_or_fields, bit_and_mask}

pub record BitWriter : Type 0 where
  pub bytes : Bytes
  pub buf : ℕ
  pub bits_in_buf : ℕ

-- The constructor, and `clear`.
abbrev pub empty_writer : BitWriter
empty_writer = record { bytes = []; buf = 0; bits_in_buf = 0 }

-- `write_bit`; `buf` is a uint8_t.
unfoldable pub write_bit : ℕ → BitWriter → BitWriter
write_bit bit w =
    let buf = bit_or (w.buf <<< 1) (bit_and bit 1) % 2 ^ 8 in
    if w.bits_in_buf + 1 == 8
    then record { bytes = w.bytes ++ buf ∷ []; buf = 0; bits_in_buf = 0 }
    else record w { buf = buf; bits_in_buf = w.bits_in_buf + 1 }

-- `write_bits`, the highest of the `n` bits first.
unfoldable pub write_bits : ℕ → ℕ → BitWriter → BitWriter
unfolding write_bit
write_bits value zero w = w
write_bits value (suc i) w = write_bits value i (write_bit (bit_and (value >>> i) 1) w)

-- `n` zeros.
unfoldable pub write_zeros : ℕ → BitWriter → BitWriter
unfolding write_bit
write_zeros zero w = w
write_zeros (suc n) w = write_zeros n (write_bit 0 w)

-- `while (tmp >>= 1) ++leading_zeros;` on an unsigned int, which has 32 bits: so many rounds are
-- enough.
unfoldable pub shifts : ℕ → ℕ → ℕ
shifts zero tmp = 0
shifts (suc fuel) tmp = let more = suc (shifts fuel (tmp / 2)) in if tmp / 2 == 0 then 0 else more

-- `write_ue`.
unfoldable pub write_ue : ℕ → BitWriter → BitWriter
unfolding write_bits write_zeros shifts
write_ue value w =
    let v = (value + 1) % 2 ^ 32 in
    let leading_zeros = shifts 32 v in
    write_bits v (leading_zeros + 1) (write_zeros leading_zeros w)

-- `write_se`.
unfoldable pub write_se : ℤ → BitWriter → BitWriter
unfolding write_ue
write_se (pos zero) w = write_ue 0 w
write_se (pos (suc n)) w = write_ue (suc n * 2 - 1) w
write_se (negsuc n) w = write_ue (suc n * 2) w

-- `while (bits_in_buf != 0) write_bit(0);`, which makes fewer than 8 rounds.
unfoldable pub pad : ℕ → BitWriter → BitWriter
unfolding write_bit
pad zero w = w
pad (suc fuel) w = let more = pad fuel (write_bit 0 w) in if w.bits_in_buf == 0 then w else more

-- `flush`.
unfoldable pub flush : BitWriter → BitWriter
unfolding write_bit pad
flush w = pad 8 (write_bit 1 w)

-- The buffer holds its bits.
pub record IsWriter (w : BitWriter) : Type 0 where
  pub few_bits : w.bits_in_buf < 8
  pub in_bits : w.buf < 2 ^ w.bits_in_buf

-- The last byte, or another number where there is none.
abbrev pub last_or : ℕ → Bytes → ℕ
last_or p [] = p
last_or p (b ∷ bs) = last_or b bs

last_or-append : (p : ℕ) (bs : Bytes) (b : ℕ) → last_or p (bs ++ b ∷ []) ≡ b
last_or-append p [] b = refl
last_or-append p (c ∷ bs) b = last_or-append c bs b

-- The bit is put below the others.
buf_lem : (buf bit : ℕ) → bit_or (buf <<< 1) (bit_and bit 1) ≡ buf * 2 + bit % 2
buf_lem buf bit =
    let low : bit_and bit 1 ≡ bit % 2 = bit_and_mask 1 bit in
    rw low (bit_or_fields 1 buf (bit % 2) (omega arith))

pow-lt : (k : ℕ) → k < 8 → 2 ^ k ≤ 128
pow-lt zero h = omega arith
pow-lt (suc zero) h = omega arith
pow-lt (suc (suc zero)) h = omega arith
pow-lt (suc (suc (suc zero))) h = omega arith
pow-lt (suc (suc (suc (suc zero)))) h = omega arith
pow-lt (suc (suc (suc (suc (suc zero))))) h = omega arith
pow-lt (suc (suc (suc (suc (suc (suc zero)))))) h = omega arith
pow-lt (suc (suc (suc (suc (suc (suc (suc zero))))))) h = omega arith
pow-lt (suc (suc (suc (suc (suc (suc (suc (suc k)))))))) h = absurd (omega arith)

-- What a bit makes of the buffer, which is below 2 ^ 8 then.
written : ℕ → BitWriter → ℕ
written bit w = w.buf * 2 + bit % 2

write_bit_lem :
    (bit : ℕ) (w : BitWriter)
    → IsWriter w
    → write_bit bit w ≡ (
        if w.bits_in_buf + 1 == 8
        then record { bytes = w.bytes ++ written bit w ∷ []; buf = 0; bits_in_buf = 0 }
        else record w { buf = written bit w; bits_in_buf = w.bits_in_buf + 1 })
unfolding write_bit written
write_bit_lem bit w h =
    let fits : (w.buf * 2 + bit % 2) % 256 ≡ w.buf * 2 + bit % 2 =
      omega (arith, h.few_bits, h.in_bits, pow-lt w.bits_in_buf h.few_bits) in
    rw (buf_lem w.buf bit, fits) refl

pub write_bit-IsWriter : (bit : ℕ) (w : BitWriter) → IsWriter w → IsWriter (write_bit bit w)
unfolding written
write_bit-IsWriter bit w h =
    let up : w.bits_in_buf + 1 ≡ suc w.bits_in_buf = omega arith in
    rw (write_bit_lem bit w h) (
      if_cases IsWriter (w.bits_in_buf + 1 == 8)
        (λ e. record { few_bits = omega arith; in_bits = omega arith })
        (λ e. record {
          few_bits = ground (arith, h.few_bits);
          in_bits = rw up (omega (arith, h.in_bits, pow-suc 2 w.bits_in_buf));
        }))

-- The buffer has a bit that is set, or it is empty and the last byte has.
record EndsSet (w : BitWriter) : Type 0 where
  is_writer : IsWriter w
  set_byte : w.bits_in_buf ≡ 0 → last_or 0 w.bytes ≢ 0
  set_buf : w.bits_in_buf ≢ 0 → w.buf ≢ 0

write_bit-EndsSet :
    (bit : ℕ) (w : BitWriter) → IsWriter w → written bit w ≢ 0 → EndsSet (write_bit bit w)
write_bit-EndsSet bit w h set = record {
  is_writer = write_bit-IsWriter bit w h;
  set_byte = rw (write_bit_lem bit w h) (
      if_cases (λ (v : BitWriter). v.bits_in_buf ≡ 0 → last_or 0 v.bytes ≢ 0)
        (w.bits_in_buf + 1 == 8) (λ e z. rw (last_or-append 0 w.bytes (written bit w)) set)
        (λ e z. absurd (omega arith)));
  set_buf = rw (write_bit_lem bit w h) (
      if_cases (λ (v : BitWriter). v.bits_in_buf ≢ 0 → v.buf ≢ 0) (w.bits_in_buf + 1 == 8)
        (λ e z. absurd (z refl)) (λ e z. set));
}

bits_in_buf-write_bit :
    (bit : ℕ) (w : BitWriter)
    → (write_bit bit w).bits_in_buf ≡ (if w.bits_in_buf + 1 == 8 then 0 else w.bits_in_buf + 1)
unfolding write_bit
bits_in_buf-write_bit bit w = elim (Bool-cases (w.bits_in_buf + 1 == 8)) [
  | inl e ↦ rw e refl
  | inr e ↦ rw e refl
]

-- The rounds are enough, and the last byte keeps a bit that is set.
pad-EndsSet :
    (fuel : ℕ) (w : BitWriter)
    → EndsSet w
    → (w.bits_in_buf ≢ 0 → 8 ≤ w.bits_in_buf + fuel)
    → EndsSet (pad fuel w) × ((pad fuel w).bits_in_buf ≡ 0)
unfolding pad written
pad-EndsSet zero w h enough = (h, grind arith)
pad-EndsSet (suc fuel) w h enough = elim (Bool-cases (w.bits_in_buf == 0)) [
  | inl e ↦ rw e (h, ground arith)
  | inr e ↦
      let nonzero : w.bits_in_buf ≢ 0 = ground arith in
      rw e (
        pad-EndsSet fuel (write_bit 0 w)
          (write_bit-EndsSet 0 w h.is_writer (ground (arith, h.set_buf nonzero)))
          (ground (arith, enough nonzero, bits_in_buf-write_bit 0 w)))
]

-- What is flushed ends in a byte that is not 0.
pub flush-last_or : (w : BitWriter) → IsWriter w → last_or 0 (flush w).bytes ≢ 0
unfolding flush written
flush-last_or w h =
    let (ends, empty) =
      pad-EndsSet 8 (write_bit 1 w) (write_bit-EndsSet 1 w h (ground arith)) (λ z. omega arith) in
    ends.set_byte empty
