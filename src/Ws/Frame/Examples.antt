-- ===== src/Ws/Frame/Examples.antt =====
-- Frames with concrete bytes.
use camera_player.Prelude.{
  ◌≤◌, true, ◌≡◌, ◌≢◌, refl, arith, [], ◌∷◌, ◌++◌, length, drop, All, Bytes, IsByte,
}
use camera_player.Ws.Types.{text}
use camera_player.Ws.Frame.{
  Header, parse_header, apply_mask, encode_server_frame, frame_total_size, u64_max,
}
use camera_player.Ws.Frame.Wire.{header_bytes, IsWire}
use camera_player.Ws.Frame.Accepted.{parse_header_sound, parse_header_stable}
use camera_player.Ws.Frame.Encode.{server_header, parse_header-encode_server_frame}

-- The masked "Hello" of RFC 6455, section 5.7: the header, and its bytes.
abbrev hello_header : Header
hello_header = record {
  fin = true;
  opcode = text;
  masked = true;
  header_len = 6;
  payload_len = 5;
  mask_key = 0x37FA213D;
}

abbrev hello_header_bytes : Bytes
hello_header_bytes = 0x81 ∷ 0x85 ∷ 0x37 ∷ 0xFA ∷ 0x21 ∷ 0x3D ∷ []

abbrev hello_payload : Bytes
hello_payload = 0x48 ∷ 0x65 ∷ 0x6C ∷ 0x6C ∷ 0x6F ∷ []

hello_masked : apply_mask hello_payload 0x37FA213D ≡ 0x7F ∷ 0x9F ∷ 0x4D ∷ 0x51 ∷ 0x58 ∷ []
unfolding apply_mask
hello_masked = refl

hello_parsed : parse_header hello_header_bytes ≡ (6, hello_header)
unfolding parse_header
hello_parsed = refl

hello_header-IsWire : IsWire hello_header
hello_header-IsWire = record {
  payload_fits = omega arith;
  key_fits = omega arith;
  unmasked_key = λ e. absurd (cc);
  header_len_is = refl;
}

hello_header_bytes-All : All IsByte hello_header_bytes
hello_header_bytes-All =
    (omega arith, (omega arith, (omega arith, (omega arith, (omega arith, (omega arith, _))))))

hello_taken : (parse_header hello_header_bytes).0 ≢ 0
unfolding parse_header
hello_taken = λ e. omega (arith, e)

-- A frame that claims a reserved bit.
reserved_bit_refused : (parse_header (0xF1 ∷ 0x80 ∷ [])).1.payload_len ≡ u64_max
unfolding parse_header
reserved_bit_refused = refl

parse_header_sound_example :
    (rest : Bytes) × IsWire (parse_header hello_header_bytes).1
    × ((parse_header hello_header_bytes).0 ≡ (parse_header hello_header_bytes).1.header_len)
    × (hello_header_bytes ≡ header_bytes (parse_header hello_header_bytes).1 ++ rest)
parse_header_sound_example =
    parse_header_sound hello_header_bytes hello_header_bytes-All hello_taken

parse_header_stable_example :
    ((parse_header hello_header_bytes).0 ≤ length hello_header_bytes)
    × (parse_header (hello_header_bytes ++ hello_payload) ≡ parse_header hello_header_bytes)
parse_header_stable_example =
    parse_header_stable hello_header_bytes hello_payload hello_header_bytes-All hello_taken

parse_header-encode_server_frame_example :
    (parse_header (encode_server_frame true text hello_payload ++ 0x88 ∷ [])
      ≡ (2, server_header true text 5))
    × (drop 2 (encode_server_frame true text hello_payload ++ 0x88 ∷ [])
        ≡ hello_payload ++ 0x88 ∷ [])
    × (frame_total_size (server_header true text 5)
        ≡ length (encode_server_frame true text hello_payload))
parse_header-encode_server_frame_example =
    parse_header-encode_server_frame true text hello_payload (0x88 ∷ []) (omega arith)
