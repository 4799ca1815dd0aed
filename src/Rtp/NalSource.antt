-- ===== src/Rtp/NalSource.antt =====
-- The tests on NAL types of `NALSource` in src/rtp/nalsource.cpp.
use camera_player.Prelude.{ℕ, bit_and, Bool, ◌||◌, ◌==◌, ◌≡◌, refl, [], ◌∷◌, Bytes, ◌>>>◌}
use camera_player.Rtp.RawH264.Extract.{nal_data}

-- `GetH264NALType` and `GetH265NALType`.
abbrev pub get_h264_nal_type : Bytes → ℕ
get_h264_nal_type [] = 0
get_h264_nal_type (b ∷ bs) = bit_and b 0x1F

abbrev pub get_h265_nal_type : Bytes → ℕ
get_h265_nal_type [] = 0
get_h265_nal_type (b ∷ bs) = bit_and (b >>> 1) 0x3F

-- `IsH264IDR` and `IsH265IDR`.
abbrev pub is_h264_idr : ℕ → Bool
is_h264_idr nal_type = nal_type == 5

abbrev pub is_h265_idr : ℕ → Bool
is_h265_idr nal_type = nal_type == 19 || nal_type == 20

-- The file source gives a unit the type that `GetH264NALType` finds.
nal_data-get_h264_nal_type : (nal : Bytes) → (nal_data nal).nal_type ≡ get_h264_nal_type nal
nal_data-get_h264_nal_type [] = refl
nal_data-get_h264_nal_type (b ∷ bs) = refl
