-- ===== src/Tools/Examples.antt =====
-- The test video.
use camera_player.Prelude.{ℕ, ◌≡◌, refl, arith, List, [], ◌∷◌, map, All, some, length}
use camera_player.Rtp.RawH264.{NalData, extract_nal_units}
use camera_player.Tools.BitWriter.{
  BitWriter, write_bit, write_bits, write_zeros, shifts, write_ue, write_se, pad, flush,
}
use camera_player.Tools.NalWriter.{
  write_nals, write_nals-extract, IsUnit, flushed, decoded, content,
}
use camera_player.Tools.TestVideo.{
  sps_fields, build_sps, pps_prediction, pps_fields, build_pps, write_macroblocks, slice_header,
  slice_fields, build_idr_slice,
}
use camera_player.Tools.Writers.{sps_fields-IsWriter, pps_fields-IsWriter, slice_fields-IsWriter}

sps_test : build_sps.bytes ≡ 0x42 ∷ 0x80 ∷ 0x0B ∷ 0xF4 ∷ 0x16 ∷ 0x27 ∷ 0x20 ∷ []
unfolding build_sps write_bit write_bits write_ue write_zeros shifts pad flush sps_fields
sps_test = refl

pps_test : build_pps.bytes ≡ 0xCE ∷ 0x38 ∷ 0x80 ∷ []
unfolding build_pps write_bit write_bits write_ue write_se write_zeros shifts pad flush
    pps_prediction pps_fields
pps_test = refl

slice_test : length (build_idr_slice 0).bytes ≡ 88
unfolding build_idr_slice write_bit write_bits write_ue write_zeros shifts pad flush slice_header
    slice_fields write_macroblocks
slice_test = refl

-- A video as `main` writes it, of one frame.
abbrev video : List (ℕ × BitWriter)
video = (0x67, sps_fields) ∷ (0x68, pps_fields) ∷ (0x65, slice_fields 0) ∷ []

video-IsUnit : All IsUnit video
video-IsUnit = (
  (omega arith, sps_fields-IsWriter),
  ((omega arith, pps_fields-IsWriter), ((omega arith, slice_fields-IsWriter 0), tt)),
)

write_nals-extract_example :
    (nals : List NalData) × (extract_nal_units (write_nals (map flushed video)) ≡ some nals)
    × (map decoded nals ≡ map content video)
write_nals-extract_example = write_nals-extract video video-IsUnit
