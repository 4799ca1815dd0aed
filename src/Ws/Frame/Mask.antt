-- ===== src/Ws/Frame/Mask.antt =====
-- `ApplyMask`: it undoes itself, keeps the length, and leaves bytes.
use camera_player.Prelude.{
  ℕ, ◌+◌, ◌^◌, ◌<◌, ◌/◌, suc, ◌≡◌, refl, ap, arith, [], ◌∷◌, length, All, Bytes, IsByte,
}
use camera_player.Prelude.Bits.{bit_xor-bit_xor, bit_xor-lt}
use camera_player.Ws.Frame.{mask_from, mask_byte, apply_mask}
use camera_player.Ws.Frame.Fields.{low_byte}

mask_from_twice : (key i : ℕ) (bs : Bytes) → mask_from key i (mask_from key i bs) ≡ bs
unfolding mask_from
mask_from_twice key i [] = refl
mask_from_twice key i (b ∷ bs) =
    rw (bit_xor-bit_xor b (mask_byte key i), mask_from_twice key (i + 1) bs)

length-mask_from : (key i : ℕ) (bs : Bytes) → length (mask_from key i bs) ≡ length bs
unfolding mask_from
length-mask_from key i [] = refl
length-mask_from key i (b ∷ bs) = ap suc (length-mask_from key (i + 1) bs)

-- Masking twice with one key gives the payload back, and masking keeps the length.
pub apply_mask_twice :
    (payload : Bytes) (key : ℕ)
    → (apply_mask (apply_mask payload key) key ≡ payload)
      × (length (apply_mask payload key) ≡ length payload)
unfolding apply_mask
apply_mask_twice payload key = (mask_from_twice key 0 payload, length-mask_from key 0 payload)

mask_byte-lt : (key i : ℕ) → mask_byte key i < 2 ^ 8
mask_byte-lt key i =
    ground (
      arith,
      low_byte key,
      low_byte (key / 2 ^ 8),
      low_byte (key / 2 ^ 16),
      low_byte (key / 2 ^ 24),
    )

mask_from-IsByte : (key i : ℕ) (bs : Bytes) → All IsByte bs → All IsByte (mask_from key i bs)
unfolding mask_from
mask_from-IsByte key i [] h = h
mask_from-IsByte key i (b ∷ bs) h =
    (bit_xor-lt 8 b (mask_byte key i) h.0 (mask_byte-lt key i), mask_from-IsByte key (i + 1) bs h.1)

pub apply_mask-IsByte :
    (payload : Bytes) (key : ℕ) → All IsByte payload → All IsByte (apply_mask payload key)
unfolding apply_mask
apply_mask-IsByte payload key h = mask_from-IsByte key 0 payload h
