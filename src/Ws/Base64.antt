-- ===== src/Ws/Base64.antt =====
-- `Base64Encode` of src/ws/sha1.cpp, and a decoder of its own.
mod Examples
use camera_player.Prelude.{
  ℕ, zero, suc, ◌+◌, ◌*◌, ◌/◌, ◌%◌, ◌^◌, ◌≤◌, ◌<◌, bit_and, bit_or, Bool, true, false, not, ◌&&◌,
  ◌==◌, ==_iff, every_under, every_under_lem, if◌then◌else◌, Option, none, some, ◌≡◌, refl, sym, ap,
  ◌∙◌, arith, List, [], ◌∷◌, ◌++◌, length, get_or, All, Bytes, IsByte, codes, ◌<<<◌, ◌>>>◌,
}
use camera_player.Prelude.Bits.{bit_or_fields, bit_and_mask}

-- `kTable`.
abbrev pub table : Bytes
table = codes "ABCDEFGHIJKLMNOPQRSTUVWXYZabcdefghijklmnopqrstuvwxyz0123456789+/"

-- `kTable[n & 0x3F]`.
symbol : ℕ → ℕ
symbol n = get_or table (bit_and n 0x3F) 0

-- `Base64Encode`: the loop over three bytes, and the one or two that remain.
unfoldable pub base64_encode : Bytes → Bytes
unfolding symbol
base64_encode (a ∷ b ∷ c ∷ rest) =
    let n = bit_or (bit_or (a <<< 16) (b <<< 8)) c in
    symbol (n >>> 18) ∷ symbol (n >>> 12) ∷ symbol (n >>> 6) ∷ symbol n ∷ base64_encode rest
base64_encode (a ∷ []) =
    let n = a <<< 16 in symbol (n >>> 18) ∷ symbol (n >>> 12) ∷ 0x3D ∷ 0x3D ∷ []
base64_encode (a ∷ b ∷ []) =
    let n = bit_or (a <<< 16) (b <<< 8) in
    symbol (n >>> 18) ∷ symbol (n >>> 12) ∷ symbol (n >>> 6) ∷ 0x3D ∷ []
base64_encode [] = []

-- The place of a symbol in a table.
abbrev pub place : Bytes → ℕ → ℕ
place [] x = 0
place (y ∷ ys) x = if y == x then 0 else suc (place ys x)

-- Four symbols give three bytes, or two or one where the end is filled up with '='.
value : ℕ → ℕ
value x = place table x

pub base64_decode : Bytes → Bytes
base64_decode (w ∷ x ∷ y ∷ z ∷ rest) =
    let rest' = base64_decode rest in
    let p = value w in
    let q = value x in
    let r = value y in
    let first = p * 4 + q / 16 in
    let second = q % 16 * 16 + r / 4 in
    if y == 0x3D
    then first ∷ []
    else if z == 0x3D
    then first ∷ second ∷ []
    else first ∷ second ∷ (r % 4 * 64 + value z) ∷ rest'
base64_decode _ = []

symbol_test : ℕ → Bool
symbol_test i = (value (symbol i) == i) && not (symbol i == 0x3D)

symbol_table : every_under symbol_test 64 ≡ true
unfolding symbol_test every_under symbol value
symbol_table = refl

symbol_mask : (n : ℕ) → symbol n ≡ symbol (n % 64)
unfolding symbol
symbol_mask n =
    ap (λ k. get_or table k 0) (bit_and_mask 6 n ∙ (omega arith) ∙ sym (bit_and_mask 6 (n % 64)))

-- A symbol gives its six bits back, and is not the filler.
symbol_read : (n : ℕ) → (value (symbol n) ≡ n % 64) × ((symbol n == 0x3D) ≡ false)
unfolding symbol_test
symbol_read n =
    let read = every_under_lem symbol_test 64 (n % 64) symbol_table (omega arith) in
    rw (symbol_mask n) (ground (arith, ==_iff (value (symbol (n % 64))) (n % 64)))

decode_three :
    (n : ℕ) (rest : Bytes)
    → base64_decode (symbol (n >>> 18) ∷ symbol (n >>> 12) ∷ symbol (n >>> 6) ∷ symbol n ∷ rest)
      ≡ (n >>> 16) % 256 ∷ (n >>> 8) % 256 ∷ n % 256 ∷ base64_decode rest
unfolding base64_decode
decode_three n rest =
    let p = symbol_read (n >>> 18) in
    let q = symbol_read (n >>> 12) in
    let r = symbol_read (n >>> 6) in
    let s = symbol_read n in
    let e1 : (n >>> 18) % 64 * 4 + (n >>> 12) % 64 / 16 ≡ (n >>> 16) % 256 = omega arith in
    let e2 : (n >>> 12) % 64 % 16 * 16 + (n >>> 6) % 64 / 4 ≡ (n >>> 8) % 256 = omega arith in
    let e3 : (n >>> 6) % 64 % 4 * 64 + n % 64 ≡ n % 256 = omega arith in
    rw (r.1, s.1, p.0, q.0, r.0, s.0, e1, e2, e3) refl

decode_two :
    (n : ℕ)
    → base64_decode (symbol (n >>> 18) ∷ symbol (n >>> 12) ∷ symbol (n >>> 6) ∷ 0x3D ∷ [])
      ≡ (n >>> 16) % 256 ∷ (n >>> 8) % 256 ∷ []
unfolding base64_decode
decode_two n =
    let p = symbol_read (n >>> 18) in
    let q = symbol_read (n >>> 12) in
    let r = symbol_read (n >>> 6) in
    let e1 : (n >>> 18) % 64 * 4 + (n >>> 12) % 64 / 16 ≡ (n >>> 16) % 256 = omega arith in
    let e2 : (n >>> 12) % 64 % 16 * 16 + (n >>> 6) % 64 / 4 ≡ (n >>> 8) % 256 = omega arith in
    rw (r.1, p.0, q.0, r.0, e1, e2) refl

decode_one :
    (n : ℕ)
    → base64_decode (symbol (n >>> 18) ∷ symbol (n >>> 12) ∷ 0x3D ∷ 0x3D ∷ [])
      ≡ (n >>> 16) % 256 ∷ []
unfolding base64_decode
decode_one n =
    let p = symbol_read (n >>> 18) in
    let q = symbol_read (n >>> 12) in
    let e1 : (n >>> 18) % 64 * 4 + (n >>> 12) % 64 / 16 ≡ (n >>> 16) % 256 = omega arith in
    rw (p.0, q.0, e1) refl

word_of :
    (a b c : ℕ)
    → IsByte b
    → IsByte c
    → bit_or (bit_or (a <<< 16) (b <<< 8)) c ≡ a * 65536 + b * 256 + c
word_of a b c hb hc =
    let high = bit_or_fields 16 a (b * 256) (omega arith) in
    let low = bit_or_fields 8 (a * 256 + b) c hc in
    ap (λ n. bit_or n c) (high ∙ omega arith) ∙ low ∙ omega arith

-- Every string of bytes is decoded from its Base64 form.
pub base64_decode-base64_encode :
    (bytes : Bytes) → All IsByte bytes → base64_decode (base64_encode bytes) ≡ bytes
unfolding base64_encode base64_decode
base64_decode-base64_encode [] h = refl
base64_decode-base64_encode (a ∷ []) h =
    let e : (a <<< 16 >>> 16) % 256 ≡ a = omega (arith, h.0) in
    decode_one (a <<< 16) ∙ ap (λ x. x ∷ []) e
base64_decode-base64_encode (a ∷ b ∷ []) h =
    let n = bit_or (a <<< 16) (b <<< 8) in
    let word : n ≡ a * 65536 + b * 256 = bit_or_fields 16 a (b * 256) (omega (arith, h.1.0)) in
    let e1 : (n >>> 16) % 256 ≡ a = omega (arith, word, h.0, h.1.0) in
    let e2 : (n >>> 8) % 256 ≡ b = omega (arith, word, h.0, h.1.0) in
    decode_two n ∙ ap (λ x. x ∷ (n >>> 8) % 256 ∷ []) e1 ∙ ap (λ x. a ∷ x ∷ []) e2
base64_decode-base64_encode (a ∷ b ∷ c ∷ rest) h =
    let n = bit_or (bit_or (a <<< 16) (b <<< 8)) c in
    let word : n ≡ a * 65536 + b * 256 + c = word_of a b c h.1.0 h.1.1.0 in
    let e1 : (n >>> 16) % 256 ≡ a = omega (arith, word, h.0, h.1.0, h.1.1.0) in
    let e2 : (n >>> 8) % 256 ≡ b = omega (arith, word, h.0, h.1.0, h.1.1.0) in
    let e3 : n % 256 ≡ c = omega (arith, word, h.0, h.1.0, h.1.1.0) in
    decode_three n (base64_encode rest)
    ∙ ap (λ x. x ∷ (n >>> 8) % 256 ∷ n % 256 ∷ base64_decode (base64_encode rest)) e1
    ∙ ap (λ x. a ∷ x ∷ n % 256 ∷ base64_decode (base64_encode rest)) e2
    ∙ ap (λ x. a ∷ b ∷ x ∷ base64_decode (base64_encode rest)) e3
    ∙ ap (λ l. a ∷ b ∷ c ∷ l) (base64_decode-base64_encode rest h.1.1.1)
