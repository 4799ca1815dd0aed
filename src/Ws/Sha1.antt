-- ===== src/Ws/Sha1.antt =====
-- `ws::crypto::Sha1` of include/ws/sha1.h and src/ws/sha1.cpp. Words are uint32_t: they wrap at
-- 2 ^ 32. Of `buffer_` the model holds the first `buffer_len_` bytes; the others are never read.
pub mod Update
pub mod Padding
mod Examples
use camera_player.Prelude.{
  ℕ, zero, suc, ◌+◌, ◌-◌, ◌*◌, ◌%◌, ◌^◌, bit_and, bit_or, bit_xor, Bool, true, false, ltb, leb,
  ◌==◌, if◌then◌else◌, List, [], ◌∷◌, ◌++◌, length, take, drop, get_or, Bytes, ◌<<<◌, ◌>>>◌,
}

-- The five words `h_`, and the variables `a` to `e`.
pub record Words : Type 0 where
  pub a : ℕ
  pub b : ℕ
  pub c : ℕ
  pub d : ℕ
  pub e : ℕ

pub record Sha1 : Type 0 where
  pub h : Words
  pub total_bits : ℕ
  pub buffer : Bytes

-- The constructor.
abbrev pub new_sha1 : Sha1
new_sha1 = record {
  h = record { a = 0x67452301; b = 0xEFCDAB89; c = 0x98BADCFE; d = 0x10325476; e = 0xC3D2E1F0 };
  total_bits = 0;
  buffer = [];
}

-- A 32-bit word, and its complement.
abbrev pub word : ℕ → ℕ
word n = n % 2 ^ 32

abbrev pub complement : ℕ → ℕ
complement n = 2 ^ 32 - 1 - n

-- `LeftRotate`.
abbrev pub left_rotate : ℕ → ℕ → ℕ
left_rotate value bits = bit_or (word (value <<< bits)) (value >>> (32 - bits))

-- Word `i` of a block, highest byte first.
abbrev pub block_word : Bytes → ℕ → ℕ
block_word block i =
    bit_or
      (bit_or (bit_or (get_or block (i * 4) 0 <<< 24) (get_or block (i * 4 + 1) 0 <<< 16))
        (get_or block (i * 4 + 2) 0 <<< 8))
      (get_or block (i * 4 + 3) 0)

-- The words of a block from word `16 - n` on.
pub block_words : ℕ → Bytes → List ℕ
block_words zero block = []
block_words (suc n) block = block_word block (16 - suc n) ∷ block_words n block

-- The words from `i` on are added, `n` of them, each from words 3, 8, 14 and 16 places before.
pub extend_words : ℕ → ℕ → List ℕ → List ℕ
extend_words zero i w = w
extend_words (suc n) i w = extend_words n (i + 1) (
    w
    ++ left_rotate
        (bit_xor (bit_xor (bit_xor (get_or w (i - 3) 0) (get_or w (i - 8) 0)) (get_or w (i - 14) 0))
          (get_or w (i - 16) 0))
        1
      ∷ [])

-- `f` and `k` of round `i`.
abbrev pub round_f : ℕ → Words → ℕ
round_f i s =
    if ltb i 20
    then bit_or (bit_and s.b s.c) (bit_and (complement s.b) s.d)
    else if ltb i 40
    then bit_xor (bit_xor s.b s.c) s.d
    else if ltb i 60
    then bit_or (bit_or (bit_and s.b s.c) (bit_and s.b s.d)) (bit_and s.c s.d)
    else bit_xor (bit_xor s.b s.c) s.d

abbrev pub round_k : ℕ → ℕ
round_k i =
    if ltb i 20
    then 0x5A827999
    else if ltb i 40
    then 0x6ED9EBA1
    else if ltb i 60
    then 0x8F1BBCDC
    else 0xCA62C1D6

-- The rounds on the words from word `i` on.
pub rounds : ℕ → List ℕ → Words → Words
rounds i [] s = s
rounds i (w ∷ ws) s = rounds (i + 1) ws (record {
  a = word (left_rotate s.a 5 + round_f i s + s.e + round_k i + w);
  b = s.a;
  c = left_rotate s.b 30;
  d = s.c;
  e = s.d;
})

-- `ProcessBlock`.
unfoldable pub process_block : Bytes → Words → Words
unfolding block_words extend_words rounds
process_block block h =
    let s = rounds 0 (extend_words 64 16 (block_words 16 block)) h in
    record {
      a = word (h.a + s.a);
      b = word (h.b + s.b);
      c = word (h.c + s.c);
      d = word (h.d + s.d);
      e = word (h.e + s.e);
    }

-- The loop over whole blocks in `Update`, and what it leaves for the buffer. It takes fuel.
pub process_blocks : ℕ → Bytes → Words → Words × Bytes
process_blocks zero p h = (h, p)
process_blocks (suc fuel) p h =
    let rest = process_blocks fuel (drop 64 p) (process_block (take 64 p) h) in
    if leb 64 (length p) then rest else (h, p)

-- The end of `Update`: whole blocks, and the rest into the buffer, if there is a rest.
abbrev pub update_rest : Bytes → Sha1 → Sha1
update_rest p s =
    let (h, rest) = process_blocks (length p) p s.h in
    if length rest == 0 then record s { h = h } else record s { h = h; buffer = rest }

-- `Update`, once the buffer was filled up.
abbrev pub after_fill : Bytes → Sha1 → Sha1
after_fill p s =
    if length s.buffer == 64
    then update_rest p (record s { h = process_block s.buffer s.h; buffer = [] })
    else update_rest p s

-- `Update`.
unfoldable pub update : Bytes → Sha1 → Sha1
unfolding process_blocks
update data_ s =
    let s' = record s { total_bits = (s.total_bits + length data_ * 8) % 2 ^ 64 } in
    if length data_ == 0
    then s
    else if ltb 0 (length s.buffer)
    then (let need = 64 - length s.buffer in
        let taken = if ltb (length data_) need then length data_ else need in
        after_fill (drop taken data_) (record s' { buffer = s.buffer ++ take taken data_ }))
    else update_rest data_ s'

-- The padding loop of `Final`: at most 64 zeros.
pub pad_zeros : ℕ → Sha1 → Sha1
unfolding update
pad_zeros zero s = s
pad_zeros (suc fuel) s =
    let more = pad_zeros fuel (update (0 ∷ []) s) in if length s.buffer % 64 == 56 then s else more

-- The bytes of the length, highest first.
pub length_bytes : ℕ → ℕ → Bytes
length_bytes zero n = []
length_bytes (suc i) n = bit_and (n >>> (i * 8)) 0xFF ∷ length_bytes i n

abbrev pub word_bytes : ℕ → Bytes
word_bytes n =
    bit_and (n >>> 24) 0xFF ∷ bit_and (n >>> 16) 0xFF ∷ bit_and (n >>> 8) 0xFF ∷ bit_and n 0xFF ∷ []

abbrev pub digest_bytes : Words → Bytes
digest_bytes h =
    word_bytes h.a ++ (word_bytes h.b ++ (word_bytes h.c ++ (word_bytes h.d ++ word_bytes h.e)))

-- `Final`.
unfoldable pub final : Sha1 → Bytes
unfolding update pad_zeros length_bytes
final s =
    let padded = pad_zeros 64 (update (0x80 ∷ []) s) in
    digest_bytes (process_block (padded.buffer ++ length_bytes 8 s.total_bits) padded.h)

-- `Hash`.
unfoldable pub hash : Bytes → Bytes
unfolding final
hash data_ = final (update data_ new_sha1)
