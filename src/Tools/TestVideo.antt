-- ===== src/Tools/TestVideo.antt =====
-- `build_sps`, `build_pps`, `build_idr_slice` and `main` of tools/gen_test_h264.cpp.
use camera_player.Prelude.{
  ℕ, zero, suc, Option, none, some, List, [], ◌∷◌, Bytes, true, false, Bool,
}
use camera_player.Prelude.Numbers.{pos}
use camera_player.Tools.BitWriter.{
  BitWriter, empty_writer, write_bit, write_bits, write_ue, write_se, flush,
}
use camera_player.Tools.NalWriter.{write_nals}

-- What `build_sps` writes before it flushes.
unfoldable pub sps_fields : BitWriter
unfolding write_bit write_bits write_ue
sps_fields =
    let profile = write_bits 11 8 (write_bits 0x80 8 (write_bits 66 8 empty_writer)) in
    let counts = write_ue 1 (write_ue 0 (write_ue 0 (write_ue 0 (write_ue 0 profile)))) in
    let size = write_ue 8 (write_ue 10 (write_bit 0 counts)) in
    write_bit 0 (write_bit 0 (write_bit 1 (write_bit 1 size)))

-- `build_sps`.
unfoldable pub build_sps : BitWriter
unfolding sps_fields
build_sps = flush sps_fields

-- What `build_pps` writes up to `weighted_bipred_idc`.
unfoldable pub pps_prediction : BitWriter
unfolding write_bit write_bits write_ue
pps_prediction =
    let flags = write_bit 0 (write_bit 0 (write_ue 0 (write_ue 0 empty_writer))) in
    let counts = write_ue 0 (write_ue 0 (write_ue 0 flags)) in write_bits 0 2 (write_bit 0 counts)

-- What `build_pps` writes before it flushes.
unfoldable pub pps_fields : BitWriter
unfolding write_bit write_se pps_prediction
pps_fields =
    let quantisers = write_se (pos 0) (write_se (pos 0) (write_se (pos 0) pps_prediction)) in
    write_bit 0 (write_bit 0 (write_bit 0 quantisers))

-- `build_pps`.
unfoldable pub build_pps : BitWriter
unfolding pps_fields
build_pps = flush pps_fields

-- The loop of `build_idr_slice` over the macroblocks.
unfoldable pub write_macroblocks : ℕ → BitWriter → BitWriter
unfolding write_bit write_ue
write_macroblocks zero bw = bw
write_macroblocks (suc i) bw =
    write_macroblocks i (write_bit 1 (write_bit 1 (write_bit 1 (write_ue 0 (write_ue 1 bw)))))

-- The slice's header.
unfoldable pub slice_header : ℕ → BitWriter
unfolding write_bit write_bits write_ue
slice_header frame_num =
    let types = write_ue 0 (write_ue 2 (write_ue 0 empty_writer)) in
    let numbers = write_bits 0 1 (write_ue 0 (write_bits frame_num 1 types)) in
    write_bit 0 (write_bit 1 numbers)

-- What `build_idr_slice` writes before it flushes.
unfoldable pub slice_fields : ℕ → BitWriter
unfolding slice_header write_macroblocks
slice_fields frame_num = write_macroblocks 99 (slice_header frame_num)

-- `build_idr_slice`.
unfoldable pub build_idr_slice : ℕ → BitWriter
unfolding slice_fields
build_idr_slice frame_num = flush (slice_fields frame_num)

-- The loop of `main` over the frames.
abbrev pub slices : ℕ → List (ℕ × BitWriter)
slices zero = []
slices (suc frames) = (0x65, build_idr_slice 0) ∷ slices frames

-- `main`: what is in the file, if it can be opened.
unfoldable pub main : Bool → Option Bytes
unfolding write_nals build_sps build_pps build_idr_slice
main false = none
main true = some (write_nals ((0x67, build_sps) ∷ (0x68, build_pps) ∷ slices 12))
