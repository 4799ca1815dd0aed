-- ===== src/Tools/Writers.antt =====
-- Each operation of a `BitWriter` leaves bits in the buffer that it holds.
use camera_player.Prelude.{ℕ, zero, suc, ◌%◌, ◌^◌, ◌+◌, ◌-◌, ◌*◌, bit_and, ◌>>>◌, arith}
use camera_player.Prelude.Numbers.{ℤ, pos, negsuc}
use camera_player.Tools.BitWriter.{
  BitWriter, empty_writer, write_bits, write_zeros, shifts, write_ue, write_se, IsWriter,
  write_bit-IsWriter,
}
use camera_player.Tools.TestVideo.{
  sps_fields, pps_prediction, pps_fields, write_macroblocks, slice_header, slice_fields,
}

pub empty_writer-IsWriter : IsWriter empty_writer
empty_writer-IsWriter = record { few_bits = omega arith; in_bits = omega arith }

pub write_bits-IsWriter :
    (value n : ℕ) (w : BitWriter) → IsWriter w → IsWriter (write_bits value n w)
unfolding write_bits
write_bits-IsWriter value zero w h = h
write_bits-IsWriter value (suc i) w h =
    write_bits-IsWriter value i _ (write_bit-IsWriter (bit_and (value >>> i) 1) w h)

write_zeros-IsWriter : (n : ℕ) (w : BitWriter) → IsWriter w → IsWriter (write_zeros n w)
unfolding write_zeros
write_zeros-IsWriter zero w h = h
write_zeros-IsWriter (suc n) w h = write_zeros-IsWriter n _ (write_bit-IsWriter 0 w h)

pub write_ue-IsWriter : (value : ℕ) (w : BitWriter) → IsWriter w → IsWriter (write_ue value w)
unfolding write_ue
write_ue-IsWriter value w h =
    write_bits-IsWriter ((value + 1) % 2 ^ 32) (shifts 32 ((value + 1) % 2 ^ 32) + 1) _
      (write_zeros-IsWriter (shifts 32 ((value + 1) % 2 ^ 32)) w h)

pub write_se-IsWriter : (value : ℤ) (w : BitWriter) → IsWriter w → IsWriter (write_se value w)
unfolding write_se
write_se-IsWriter (pos zero) w h = write_ue-IsWriter 0 w h
write_se-IsWriter (pos (suc n)) w h = write_ue-IsWriter (suc n * 2 - 1) w h
write_se-IsWriter (negsuc n) w h = write_ue-IsWriter (suc n * 2) w h

ruleset writers = (
  empty_writer-IsWriter, write_bit-IsWriter, write_bits-IsWriter, write_ue-IsWriter,
  write_se-IsWriter,
)

pub sps_fields-IsWriter : IsWriter sps_fields
unfolding sps_fields
sps_fields-IsWriter = search writers depth 25 fits 20000

pps_prediction-IsWriter : IsWriter pps_prediction
unfolding pps_prediction
pps_prediction-IsWriter = search writers depth 25 fits 20000

pub pps_fields-IsWriter : IsWriter pps_fields
unfolding pps_fields
pps_fields-IsWriter = search (writers, pps_prediction-IsWriter) depth 25

write_macroblocks-IsWriter : (i : ℕ) (w : BitWriter) → IsWriter w → IsWriter (write_macroblocks i w)
unfolding write_macroblocks
write_macroblocks-IsWriter zero w h = h
write_macroblocks-IsWriter (suc i) w h = write_macroblocks-IsWriter i _ (search writers)

slice_header-IsWriter : (frame_num : ℕ) → IsWriter (slice_header frame_num)
unfolding slice_header
slice_header-IsWriter frame_num = search writers depth 25

pub slice_fields-IsWriter : (frame_num : ℕ) → IsWriter (slice_fields frame_num)
unfolding slice_fields
slice_fields-IsWriter frame_num =
    write_macroblocks-IsWriter 99 (slice_header frame_num) (slice_header-IsWriter frame_num)
