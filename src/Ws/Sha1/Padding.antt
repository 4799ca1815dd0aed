-- ===== src/Ws/Sha1/Padding.antt =====
-- `Final` against the padding of RFC 3174, section 4.
use camera_player.Prelude.{
  ℕ, zero, suc, ◌+◌, ◌-◌, ◌*◌, ◌%◌, ◌^◌, ◌≤◌, ◌<◌, true, false, ◌==◌, ◌≡◌, refl, sym, ap, ◌∙◌,
  arith, [], ◌∷◌, ◌++◌, length, length-append, Bytes,
}
use camera_player.Ws.Sha1.{
  Words, Sha1, new_sha1, update, pad_zeros, length_bytes, digest_bytes, final, hash,
}
use camera_player.Ws.Sha1.Update.{
  take_byte, absorb, absorb-append, absorb_block, absorb-lt, update-absorb,
}

abbrev pub zeros : ℕ → Bytes
zeros zero = []
zeros (suc k) = 0 ∷ zeros k

-- What processing goes on from.
abbrev progress : Sha1 → Words × Bytes
progress s = (s.h, s.buffer)

-- How many zeros fill a block up to its last eight bytes.
abbrev pub missing : ℕ → ℕ
missing n = (120 - n % 64) % 64

length-take_byte :
    (x : ℕ) (s : Words × Bytes) → length s.1 < 64 → length (take_byte x s).1 ≡ (length s.1 + 1) % 64
unfolding take_byte
length-take_byte x (h, buffer) l = ground (arith, length-append buffer (x ∷ []))

length-absorb :
    (d : Bytes) (s : Words × Bytes)
    → length s.1 < 64
    → length (absorb d s).1 ≡ (length s.1 + length d) % 64
length-absorb [] s l = omega arith
length-absorb (x ∷ xs) s l =
    let one = length-take_byte x s l in
    length-absorb xs (take_byte x s) (omega arith) ∙ omega (arith, one)

update-progress :
    (d : Bytes) (s : Sha1)
    → length s.buffer < 64
    → s.total_bits < 2 ^ 64
    → progress (update d s) ≡ absorb d (progress s)
update-progress d s l t = ap progress (update-absorb d s l t)

update-bits :
    (d : Bytes) (s : Sha1)
    → length s.buffer < 64
    → s.total_bits < 2 ^ 64
    → (update d s).total_bits ≡ (s.total_bits + length d * 8) % 2 ^ 64
update-bits d s l t = ap (λ (u : Sha1). u.total_bits) (update-absorb d s l t)

-- The loop of `Final` adds as many zeros as are missing.
pad_zeros-absorb :
    (fuel k : ℕ) (s : Sha1)
    → length s.buffer < 64
    → s.total_bits < 2 ^ 64
    → missing (length s.buffer) ≡ k
    → k ≤ fuel
    → progress (pad_zeros fuel s) ≡ absorb (zeros k) (progress s)
unfolding pad_zeros
pad_zeros-absorb zero zero s l t e h = refl
pad_zeros-absorb zero (suc k) s l t e h = absurd (omega arith)
pad_zeros-absorb (suc fuel) zero s l t e h =
    let there : (length s.buffer % 64 == 56) ≡ true = ground arith in rw there refl
pad_zeros-absorb (suc fuel) (suc k) s l t e h =
    let not_there : (length s.buffer % 64 == 56) ≡ false = ground arith in
    let one = update-progress (0 ∷ []) s l t in
    let size : length (update (0 ∷ []) s).buffer ≡ (length s.buffer + 1) % 64 =
      ap (λ (p : Words × Bytes). length p.1) one ∙ length-absorb (0 ∷ []) (progress s) l in
    let bits = update-bits (0 ∷ []) s l t in
    rw not_there (
      pad_zeros-absorb fuel k (update (0 ∷ []) s) (omega arith) (omega arith) (omega arith)
        (omega arith)
      ∙ ap (absorb (zeros k)) one)

-- The message with its padding: the bit 1, zeros up to the last eight bytes of a block, and the
-- number of bits.
abbrev pub padded : Bytes → Bytes
padded d = d ++ (0x80 ∷ (zeros (missing (length d + 1)) ++ length_bytes 8 (length d * 8)))

length-length_bytes : (i n : ℕ) → length (length_bytes i n) ≡ i
unfolding length_bytes
length-length_bytes zero n = refl
length-length_bytes (suc i) n = ap suc (length-length_bytes i n)

length-zeros : (k : ℕ) → length (zeros k) ≡ k
length-zeros zero = refl
length-zeros (suc k) = ap suc (length-zeros k)

final-padded :
    (s : Sha1)
    → length s.buffer < 64
    → s.total_bits < 2 ^ 64
    → let k = missing (length s.buffer + 1) in
      final s
      ≡ digest_bytes (absorb (0x80 ∷ (zeros k ++ length_bytes 8 s.total_bits)) (progress s)).0
unfolding final
final-padded s l t =
    let k = missing (length s.buffer + 1) in
    let s1 = update (0x80 ∷ []) s in
    let one = update-progress (0x80 ∷ []) s l t in
    let size : length s1.buffer ≡ (length s.buffer + 1) % 64 =
      ap (λ (p : Words × Bytes). length p.1) one ∙ length-absorb (0x80 ∷ []) (progress s) l in
    let bits = update-bits (0x80 ∷ []) s l t in
    let zeroed =
      pad_zeros-absorb 64 k s1 (omega arith) (omega arith) (omega arith) (omega arith)
      ∙ ap (absorb (zeros k)) one in
    let room : length (pad_zeros 64 s1).buffer ≡ 56 =
      ap (λ (p : Words × Bytes). length p.1) zeroed
      ∙ length-absorb (zeros k) (absorb (0x80 ∷ []) (progress s))
          (absorb-lt (0x80 ∷ []) (progress s) l)
      ∙ omega (arith, length-absorb (0x80 ∷ []) (progress s) l, length-zeros k) in
    ap (λ (p : Words × Bytes). digest_bytes p.0)
      (sym (
          absorb_block (length_bytes 8 s.total_bits) (pad_zeros 64 s1).buffer (pad_zeros 64 s1).h
            (omega (arith, length-length_bytes 8 s.total_bits, room))
            (omega (arith, length-length_bytes 8 s.total_bits)))
        ∙ ap (absorb (length_bytes 8 s.total_bits)) zeroed
        ∙ sym (
            absorb-append (zeros k) (length_bytes 8 s.total_bits)
              (absorb (0x80 ∷ []) (progress s))))

-- On fewer than 2 ^ 64 bits, `Hash` processes the message with the padding of RFC 3174, whose
-- length is a multiple of a block, from the initial words; the digest has 20 bytes.
pub hash-padded :
    (d : Bytes)
    → length d * 8 < 2 ^ 64
    → (hash d ≡ digest_bytes (absorb (padded d) (new_sha1.h, [])).0)
      × (length (padded d) % 64 ≡ 0)
      × (length (hash d) ≡ 20)
unfolding hash
hash-padded d h =
    let s = update d new_sha1 in
    let state : progress s ≡ absorb d (new_sha1.h, []) =
      update-progress d new_sha1 (omega arith) (omega arith) in
    let size : length s.buffer ≡ (0 + length d) % 64 =
      ap (λ (p : Words × Bytes). length p.1) state
      ∙ length-absorb d (new_sha1.h, []) (omega arith) in
    let bits : s.total_bits ≡ length d * 8 =
      update-bits d new_sha1 (omega arith) (omega arith) ∙ omega arith in
    let gap : missing (length s.buffer + 1) ≡ missing (length d + 1) = omega (arith, size) in
    let digest : hash d ≡ digest_bytes (absorb (padded d) (new_sha1.h, [])).0 =
      final-padded s (omega (arith, size)) (omega (arith, bits))
      ∙ ap
          (λ k.
            digest_bytes (absorb (0x80 ∷ (zeros k ++ length_bytes 8 s.total_bits)) (progress s)).0)
          gap
      ∙ ap
          (λ n.
            digest_bytes
              (absorb (0x80 ∷ (zeros (missing (length d + 1)) ++ length_bytes 8 n)) (progress s)).0)
          bits
      ∙ ap
          (λ (p : Words × Bytes).
            digest_bytes
              (absorb (0x80 ∷ (zeros (missing (length d + 1)) ++ length_bytes 8 (length d * 8)))
                p).0)
          state
      ∙ ap (λ (p : Words × Bytes). digest_bytes p.0) (sym (absorb-append d _ (new_sha1.h, []))) in
    (
      digest,
      omega (
        arith,
        length-append d (0x80 ∷ (zeros (missing (length d + 1)) ++ length_bytes 8 (length d * 8))),
        length-append (zeros (missing (length d + 1))) (length_bytes 8 (length d * 8)),
        length-zeros (missing (length d + 1)),
        length-length_bytes 8 (length d * 8),
      ),
      ap length digest,
    )
