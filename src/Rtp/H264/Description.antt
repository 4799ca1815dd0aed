-- ===== src/Rtp/H264/Description.antt =====
-- What `H264Source` of src/rtp/h264source.cpp says of itself in SDP.
use camera_player.Prelude.{ℕ, ◌∷◌, ◌++◌, Bytes, codes}
use camera_player.Prelude.Numbers.{to_decimal}

-- `H264Source`: its payload type and its clock rate. Its callback is an argument of `handle_frame`.
pub record H264Source : Type 0 where
  pub payload : ℕ
  pub clock_rate : ℕ

-- `GetMediaDescription`.
abbrev pub get_media_description : ℕ → H264Source → Bytes
get_media_description port s =
    codes "m=video " ++ (to_decimal port ++ (codes " RTP/AVP " ++ to_decimal s.payload))

-- `GetAttribute`.
abbrev pub get_attribute : H264Source → Bytes
get_attribute s =
    codes "a=rtpmap:"
    ++ (to_decimal s.payload
        ++ (codes " H264/"
            ++ (to_decimal s.clock_rate
                ++ (13
                    ∷ 10
                    ∷ (codes "a=fmtp:"
                        ++ (to_decimal s.payload
                            ++ codes
                                ";packetization-mode=1;profile-level-id=64001f;sprop-parameter-sets=Z00AKpZQFAe2AtwEBAaQeJQ==,aO48gA=="))))))
