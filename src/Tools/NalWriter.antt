-- ===== src/Tools/NalWriter.antt =====
-- `write_nal` of tools/gen_test_h264.cpp: emulation prevention.
use camera_player.Prelude.{
  ℕ, zero, suc, ◌+◌, ◌≤◌, Bool, true, false, ◌&&◌, ◌==◌, if◌then◌else◌, Bool-cases, inl, inr, ◌≡◌,
  ◌≢◌, refl, ap, sym, ◌∙◌, arith, List, [], ◌∷◌, ◌++◌, map, All, drop, Bytes, bit_and, some,
}
use camera_player.Tools.BitWriter.{BitWriter, IsWriter, last_or, flush, flush-last_or}
use camera_player.Rtp.RawH264.{NalData, extract_nal_units}
use camera_player.Rtp.RawH264.Extract.{IsNal, annex_b, nal_data, extract_nal_units-annex_b}

-- `count == 2 && (b & 0xFC) == 0x00`.
abbrev pub is_forbidden : ℕ → ℕ → Bool
is_forbidden count b = count == 2 && bit_and b 0xFC == 0

-- The loop of `write_nal` over the bytes of the payload, from what it has counted.
unfoldable pub escape : ℕ → Bytes → Bytes
escape count [] = []
escape count (b ∷ bs) =
    let forbidden = is_forbidden count b in
    let counted = if forbidden then 0 else count in
    let rest = b ∷ escape (if b == 0 then counted + 1 else 0) bs in
    if forbidden then 3 ∷ rest else rest

-- `write_nal`: what it writes. The count is 0 at the header, which is never behind a 3 then.
unfoldable pub write_nal : ℕ → Bytes → Bytes
unfolding escape
write_nal nal_header payload =
    0 ∷ 0 ∷ 0 ∷ 1 ∷ nal_header ∷ escape (if nal_header == 0 then 1 else 0) payload

-- One unit after the other, as `main` writes them.
unfoldable pub write_nals : List (ℕ × BitWriter) → Bytes
unfolding write_nal
write_nals [] = []
write_nals ((nal_header, bw) ∷ units) = write_nal nal_header bw.bytes ++ write_nals units

-- What a decoder drops: a 3 behind two zeros.
unfoldable pub unescape : ℕ → Bytes → Bytes
unescape count [] = []
unescape count (b ∷ bs) =
    let dropped = count == 2 && b == 3 in
    let rest = unescape (if dropped then 0 else if b == 0 then count + 1 else 0) bs in
    if dropped then rest else b ∷ rest

not_three : (b : ℕ) → (bit_and b 0xFC == 0) ≡ false → (b == 3) ≡ false
not_three b e = elim (Bool-cases (b == 3)) [
  | inl h ↦
      let three : b ≡ 3 = ground arith in h ∙ sym (ap (λ (n : ℕ). bit_and n 0xFC == 0) three) ∙ e
  | inr h ↦ h
]

suc-zero : (b : ℕ) → (suc b == 0) ≡ false
suc-zero b = ground arith

-- The payload is read as it was written.
pub unescape-escape :
    (count : ℕ) (payload : Bytes) → count ≤ 2 → unescape count (escape count payload) ≡ payload
unfolding escape unescape
unescape-escape count [] h = refl
unescape-escape zero (zero ∷ bs) h = ap (λ (r : Bytes). 0 ∷ r) (unescape-escape 1 bs (omega arith))
unescape-escape zero (suc b ∷ bs) h =
    rw (suc-zero b) (ap (λ (r : Bytes). suc b ∷ r) (unescape-escape 0 bs (omega arith)))
unescape-escape (suc zero) (zero ∷ bs) h =
    ap (λ (r : Bytes). 0 ∷ r) (unescape-escape 2 bs (omega arith))
unescape-escape (suc zero) (suc b ∷ bs) h =
    rw (suc-zero b) (ap (λ (r : Bytes). suc b ∷ r) (unescape-escape 0 bs (omega arith)))
unescape-escape (suc (suc zero)) (zero ∷ bs) h =
    ap (λ (r : Bytes). 0 ∷ r) (unescape-escape 1 bs (omega arith))
unescape-escape (suc (suc zero)) (suc b ∷ bs) h =
    let rest = ap (λ (r : Bytes). suc b ∷ r) (unescape-escape 0 bs (omega arith)) in
    elim (Bool-cases (bit_and (suc b) 0xFC == 0)) [
      | inl e ↦ rw (e, suc-zero b) rest
      | inr e ↦ rw (e, not_three (suc b) e, suc-zero b) rest
    ]
unescape-escape (suc (suc (suc count))) (b ∷ bs) h = absurd (omega arith)

cons-IsNal : (p : ℕ) (nal : Bytes) → p ≢ 0 → IsNal nal → IsNal (p ∷ nal)
cons-IsNal p [] h i = h
cons-IsNal p (b ∷ []) h i = i
cons-IsNal p (b ∷ c ∷ ds) h i = (ground arith, i)

zero-IsNal : (b : ℕ) (bs : Bytes) → b ≢ 0 → IsNal (b ∷ bs) → IsNal (0 ∷ b ∷ bs)
zero-IsNal b [] h i = h
zero-IsNal b (c ∷ ds) h i = (ground arith, i)

zeros-IsNal : (d : ℕ) (ds : Bytes) → 2 ≤ d → IsNal (0 ∷ d ∷ ds) → IsNal (0 ∷ 0 ∷ d ∷ ds)
zeros-IsNal d ds h i = (ground arith, i)

ge_two : (b : ℕ) → (bit_and (suc b) 0xFC == 0) ≡ false → 2 ≤ suc b
ge_two zero e = ground arith
ge_two (suc b) e = omega arith

-- Behind one byte that is not 0, behind a 0, and behind two of them: what is written is a unit.
escape-IsNal :
    (bs : Bytes)
    → ((p : ℕ) → p ≢ 0 → last_or p bs ≢ 0 → IsNal (p ∷ escape 0 bs))
      × (last_or 0 bs ≢ 0 → IsNal (0 ∷ escape 1 bs))
      × (last_or 0 bs ≢ 0 → IsNal (0 ∷ 0 ∷ escape 2 bs))
unfolding escape
escape-IsNal [] = ((λ p h i. h), (λ h. absurd (h refl)), (λ h. absurd (h refl)))
escape-IsNal (zero ∷ bs) =
    let (start, one, two) = escape-IsNal bs in
    (
      (λ p h i. cons-IsNal p (0 ∷ escape 1 bs) h (one i)),
      two,
      (λ h. zeros-IsNal 3 (0 ∷ escape 1 bs) (omega arith) (
          zero-IsNal 3 (0 ∷ escape 1 bs) (omega arith)
            (cons-IsNal 3 (0 ∷ escape 1 bs) (omega arith) (one h)))),
    )
escape-IsNal (suc b ∷ bs) =
    let (start, one, two) = escape-IsNal bs in
    let plain : last_or (suc b) bs ≢ 0 → IsNal (suc b ∷ escape 0 bs) =
      start (suc b) (omega arith) in
    (
      (λ p h i. rw (suc-zero b) (cons-IsNal p (suc b ∷ escape 0 bs) h (plain i))),
      (λ h. rw (suc-zero b) (zero-IsNal (suc b) (escape 0 bs) (omega arith) (plain h))),
      (λ h. elim (Bool-cases (bit_and (suc b) 0xFC == 0)) [
        | inl e ↦
            rw (e, suc-zero b)
              (zeros-IsNal 3 (suc b ∷ escape 0 bs) (omega arith) (
                zero-IsNal 3 (suc b ∷ escape 0 bs) (omega arith)
                  (cons-IsNal 3 (suc b ∷ escape 0 bs) (omega arith) (plain h))))
        | inr e ↦
            rw (e, suc-zero b)
              (zeros-IsNal (suc b) (escape 0 bs) (ge_two b e)
                (zero-IsNal (suc b) (escape 0 bs) (omega arith) (plain h)))
      ]),
    )

-- The unit that is written for a header that is not 0.
abbrev escaped : ℕ × BitWriter → Bytes
escaped (nal_header, w) = nal_header ∷ escape 0 (flush w).bytes

-- A decoder's reading of a unit: its type and its payload.
abbrev pub decoded : NalData → ℕ × Bytes
decoded nal = (nal.nal_type, unescape 0 (drop 1 nal.bytes))

-- What a unit is to be read as.
abbrev pub content : ℕ × BitWriter → ℕ × Bytes
content (nal_header, w) = (bit_and nal_header 0x1F, (flush w).bytes)

abbrev pub flushed : ℕ × BitWriter → ℕ × BitWriter
flushed (nal_header, w) = (nal_header, flush w)

abbrev pub IsUnit : ℕ × BitWriter → Type 0
IsUnit (nal_header, w) = (nal_header ≢ 0) × IsWriter w

last_or-nonzero : (p : ℕ) (bs : Bytes) → last_or 0 bs ≢ 0 → last_or p bs ≢ 0
last_or-nonzero p [] h = absurd (h refl)
last_or-nonzero p (b ∷ bs) h = h

escaped-IsNal : (unit : ℕ × BitWriter) → IsUnit unit → IsNal (escaped unit)
escaped-IsNal (nal_header, w) (nonzero, h) =
    (escape-IsNal (flush w).bytes).0 nal_header nonzero
      (last_or-nonzero nal_header (flush w).bytes (flush-last_or w h))

long_code : ℕ × BitWriter → Bool × Bytes
long_code unit = (true, escaped unit)

write_nals-annex_b :
    (units : List (ℕ × BitWriter))
    → All IsUnit units
    → write_nals (map flushed units) ≡ annex_b (map long_code units)
unfolding write_nals write_nal long_code
write_nals-annex_b [] h = refl
write_nals-annex_b ((nal_header, w) ∷ units) ((nonzero, h), hs) =
    let start : (nal_header == 0) ≡ false = ground arith in
    rw (start, write_nals-annex_b units hs) refl

long_code-IsNal :
    (units : List (ℕ × BitWriter))
    → All IsUnit units
    → All (λ (u : Bool × Bytes). IsNal u.1) (map long_code units)
unfolding long_code
long_code-IsNal [] h = h
long_code-IsNal (unit ∷ units) (h, hs) = (escaped-IsNal unit h, long_code-IsNal units hs)

map-decoded :
    (units : List (ℕ × BitWriter))
    → map decoded (map (λ (u : Bool × Bytes). nal_data u.1) (map long_code units))
      ≡ map content units
unfolding long_code
map-decoded [] = refl
map-decoded ((nal_header, w) ∷ units) =
    rw (unescape-escape 0 (flush w).bytes (omega arith), map-decoded units) refl

-- A file that the generator writes, where each unit's header is not 0 and its bits, in a writer that has
-- fewer than 8 of them in its buffer and no others, are flushed: `ExtractNALUnits` cuts it into units, and
-- these have the types that were written and, for a decoder that drops the emulation prevention, the
-- bytes that were written.
pub write_nals-extract :
    (units : List (ℕ × BitWriter))
    → All IsUnit units
    → (nals : List NalData) × (extract_nal_units (write_nals (map flushed units)) ≡ some nals)
      × (map decoded nals ≡ map content units)
write_nals-extract units h =
    let nals = map (λ (u : Bool × Bytes). nal_data u.1) (map long_code units) in
    (
      nals,
      ap extract_nal_units (write_nals-annex_b units h)
          ∙ extract_nal_units-annex_b (map long_code units) (long_code-IsNal units h),
      map-decoded units,
    )
