-- ===== src/Rtp/RawH264/Extract.antt =====
-- `ExtractNALUnits` on a file in Annex B form.
use camera_player.Prelude.{
  ℕ, zero, suc, ◌≤◌, ◌<◌, Bool, true, false, ◌&&◌, leb, ◌==◌, some, ◌≡◌, ◌≢◌, refl, ap, ◌∙◌, arith,
  List, [], ◌∷◌, ◌++◌, map, All, length, length-append, length-drop, Bool-cases, inl, inr, drop,
  Bytes, bit_and,
}
use camera_player.Rtp.RawH264.{
  NalData, start_code_size, before_byte, take_nal, push_nal, push_found, extract_loop,
  extract_nal_units,
}

-- A start code, of four bytes or of three.
abbrev pub start_code : Bool → Bytes
start_code true = 0 ∷ 0 ∷ 0 ∷ 1 ∷ []
start_code false = 0 ∷ 0 ∷ 1 ∷ []

-- A NAL unit as the encoder writes it: it has bytes, the last of them is not 0, and two zeros are
-- followed by neither 0 nor 1.
abbrev pub IsNal : Bytes → Type 0
IsNal [] = ⊥
IsNal (b ∷ []) = b ≢ 0
IsNal (b ∷ c ∷ []) = c ≢ 0
IsNal (b ∷ c ∷ d ∷ ds) = ((b == 0 && c == 0 && leb d 1) ≡ false) × IsNal (c ∷ d ∷ ds)

-- A file: each unit behind its start code.
abbrev pub annex_b : List (Bool × Bytes) → Bytes
annex_b [] = []
annex_b ((long, nal) ∷ units) = start_code long ++ (nal ++ annex_b units)

-- The entry of a unit.
abbrev pub nal_data : Bytes → NalData
nal_data nal = record { bytes = nal; nal_type = elim nal [ [] ↦ 0 | b ∷ bs ↦ bit_and b 0x1F ] }

no_code_one : (b : ℕ) (rest : Bytes) → b ≢ 0 → start_code_size (b ∷ rest) ≡ 0
no_code_one b [] h = refl
no_code_one b (c ∷ []) h = refl
no_code_one b (c ∷ d ∷ []) h = ground arith
no_code_one b (c ∷ d ∷ e ∷ rest) h = ground arith

no_code_two : (b c : ℕ) (rest : Bytes) → c ≢ 0 → start_code_size (b ∷ c ∷ rest) ≡ 0
no_code_two b c [] h = refl
no_code_two b c (d ∷ []) h = ground arith
no_code_two b c (d ∷ e ∷ rest) h = ground arith

no_code_three :
    (b c d : ℕ) (rest : Bytes)
    → (b == 0 && c == 0 && leb d 1) ≡ false
    → start_code_size (b ∷ c ∷ d ∷ rest) ≡ 0
no_code_three b c d [] h = ground arith
no_code_three b c d (e ∷ rest) h = ground arith

take_nal_step :
    (b : ℕ) (bs : Bytes)
    → start_code_size (b ∷ bs) ≡ 0
    → take_nal (b ∷ bs) ≡ before_byte b (take_nal bs)
unfolding take_nal
take_nal_step b bs e = rw e refl

-- A unit is taken whole, up to the next start code or the end.
take_nal-append :
    (nal rest : Bytes)
    → IsNal nal
    → take_nal rest ≡ ([], rest)
    → take_nal (nal ++ rest) ≡ (nal, rest)
take_nal-append [] rest h e = elim h [ ]
take_nal-append (b ∷ []) rest h e =
    take_nal_step b rest (no_code_one b rest h) ∙ ap (before_byte b) e
take_nal-append (b ∷ c ∷ []) rest h e =
    take_nal_step b (c ∷ rest) (no_code_two b c rest h)
    ∙ ap (before_byte b) (take_nal_step c rest (no_code_one c rest h) ∙ ap (before_byte c) e)
take_nal-append (b ∷ c ∷ d ∷ ds) rest (h, hs) e =
    take_nal_step b (c ∷ d ∷ (ds ++ rest)) (no_code_three b c d (ds ++ rest) h)
    ∙ ap (before_byte b) (take_nal-append (c ∷ d ∷ ds) rest hs e)

take_nal-annex_b : (units : List (Bool × Bytes)) → take_nal (annex_b units) ≡ ([], annex_b units)
unfolding take_nal
take_nal-annex_b [] = refl
take_nal-annex_b ((true, nal) ∷ units) = refl
take_nal-annex_b ((false, nal) ∷ units) = short_code (nal ++ annex_b units)
  where
    short_code : (rest : Bytes) → take_nal (0 ∷ 0 ∷ 1 ∷ rest) ≡ ([], 0 ∷ 0 ∷ 1 ∷ rest)
    short_code [] = refl
    short_code (b ∷ bs) = refl

push_nal-IsNal :
    (nal : Bytes) (nals : List NalData) → IsNal nal → push_nal nal nals ≡ nal_data nal ∷ nals
push_nal-IsNal [] nals h = elim h [ ]
push_nal-IsNal (b ∷ bs) nals h = refl

-- The loop at a start code.
extract_loop_code :
    (fuel : ℕ) (long : Bool) (rest : Bytes)
    → extract_loop (suc fuel) (start_code long ++ rest)
      ≡ push_found (take_nal rest).0 (extract_loop fuel (take_nal rest).1)
unfolding extract_loop
extract_loop_code fuel true rest = refl
extract_loop_code fuel false [] = refl
extract_loop_code fuel false (b ∷ bs) = refl

extract_loop-annex_b :
    (fuel : ℕ) (units : List (Bool × Bytes))
    → All (λ (u : Bool × Bytes). IsNal u.1) units
    → length units ≤ fuel
    → extract_loop fuel (annex_b units) ≡ some (map (λ (u : Bool × Bytes). nal_data u.1) units)
unfolding extract_loop
extract_loop-annex_b fuel [] h l = refl
extract_loop-annex_b zero (u ∷ units) h l = absurd (omega arith)
extract_loop-annex_b (suc fuel) ((long, nal) ∷ units) (h, hs) l =
    extract_loop_code fuel long (nal ++ annex_b units)
    ∙ ap (λ (r : Bytes × Bytes). push_found r.0 (extract_loop fuel r.1))
        (take_nal-append nal (annex_b units) h (take_nal-annex_b units))
    ∙ ap (push_found nal) (extract_loop-annex_b fuel units hs (omega arith))
    ∙ ap some (push_nal-IsNal nal _ h)

length-annex_b : (units : List (Bool × Bytes)) → length units ≤ length (annex_b units)
length-annex_b [] = omega arith
length-annex_b ((true, nal) ∷ units) =
    omega (arith, length-append nal (annex_b units), length-annex_b units)
length-annex_b ((false, nal) ∷ units) =
    omega (arith, length-append nal (annex_b units), length-annex_b units)

-- From a file in which each NAL unit stands behind a start code, of three bytes or of four, the units
-- are taken one by one and whole, each with its type, if each has bytes, none ends in 0, and in none
-- two zeros are followed by 0 or 1.
pub extract_nal_units-annex_b :
    (units : List (Bool × Bytes))
    → All (λ (u : Bool × Bytes). IsNal u.1) units
    → extract_nal_units (annex_b units) ≡ some (map (λ (u : Bool × Bytes). nal_data u.1) units)
unfolding extract_nal_units
extract_nal_units-annex_b units h =
    extract_loop-annex_b (length (annex_b units)) units h (length-annex_b units)

length-take_nal : (bytes : Bytes) → length (take_nal bytes).1 ≤ length bytes
unfolding take_nal
length-take_nal [] = omega arith
length-take_nal (b ∷ bs) = ground (arith, length-take_nal bs)

extract_loop_total :
    (fuel : ℕ) (bytes : Bytes)
    → length bytes ≤ fuel
    → (nals : List NalData) × (extract_loop fuel bytes ≡ some nals)
unfolding extract_loop
extract_loop_total fuel [] h = ([], refl)
extract_loop_total zero (b ∷ bs) h = absurd (omega arith)
extract_loop_total (suc fuel) (b ∷ bs) h = elim (Bool-cases (start_code_size (b ∷ bs) == 0)) [
  | inl e ↦ rw e (extract_loop_total fuel bs (omega arith))
  | inr e ↦
      let rest = drop (start_code_size (b ∷ bs)) (b ∷ bs) in
      let shorter : length rest < suc (length bs) =
        ground (arith, length-drop (start_code_size (b ∷ bs)) (b ∷ bs)) in
      let (nals, found) =
        extract_loop_total fuel (take_nal rest).1 (omega (arith, length-take_nal rest)) in
      (push_nal (take_nal rest).0 nals, rw (e, found) refl)
]

-- `ExtractNALUnits` ends on every file.
extract_nal_units_total :
    (bytes : Bytes) → (nals : List NalData) × (extract_nal_units bytes ≡ some nals)
unfolding extract_nal_units
extract_nal_units_total bytes = extract_loop_total (length bytes) bytes (omega arith)
