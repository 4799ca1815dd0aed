-- ===== src/Rtp/RawH264/Examples.antt =====
-- A short file of five units, and its frames.
use camera_player.Prelude.{Bool, true, false, some, ◌≡◌, refl, arith, List, [], ◌∷◌, map, Bytes}
use camera_player.Rtp.RawH264.{RawH264NalSource, closed_source, extract_nal_units, read_next_frame}
use camera_player.Rtp.RawH264.Extract.{annex_b, nal_data, extract_nal_units-annex_b}
use camera_player.Rtp.RawH264.Frames.{IsFrame, read_next_frame-IsFrame}

-- A parameter set, a key frame, a delimiter and two more frames.
abbrev units : List (Bool × Bytes)
units =
    (true, 0x67 ∷ 1 ∷ [])
    ∷ (false, 0x65 ∷ 0 ∷ 0 ∷ 5 ∷ [])
    ∷ (true, 0x09 ∷ 16 ∷ [])
    ∷ (true, 0x41 ∷ 2 ∷ [])
    ∷ (false, 0x41 ∷ 3 ∷ [])
    ∷ []

extract_nal_units-annex_b_example :
    extract_nal_units (annex_b units) ≡ some (map (λ (u : Bool × Bytes). nal_data u.1) units)
extract_nal_units-annex_b_example = extract_nal_units-annex_b units (ground arith)

abbrev opened : RawH264NalSource
opened = record closed_source {
  cached_nals = map (λ (u : Bool × Bytes). nal_data u.1) units;
  is_opened = true;
}

read_next_frame-IsFrame_example : IsFrame opened (read_next_frame opened)
read_next_frame-IsFrame_example = read_next_frame-IsFrame opened refl
