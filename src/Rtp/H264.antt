-- ===== src/Rtp/H264.antt =====
-- `H264Source::HandleFrame` of src/rtp/h264source.cpp: a NAL unit as one packet or as FU-A fragments.
--
-- The callback that sends is a step on the state of whoever installed it. Each packet's array is new
-- and not initialised: `memory i` is what the array of packet `i` holds.
pub mod Description
pub mod Fragments
pub mod Receiver
pub mod Bounds
use camera_player.Prelude.{
  ℕ, zero, suc, ◌+◌, ◌-◌, ◌%◌, ◌^◌, bit_and, bit_or, Bool, true, false, not, ltb, leb, ◌==◌,
  if◌then◌else◌, Option, none, some, List, [], ◌∷◌, ◌++◌, take, drop, get_or, Bytes,
}
use camera_player.Rtp.Packet.{
  RtpPacket, NalFrame, new_packet, write_at, rtp_header_size, rtp_tcp_head_size,
  max_rtp_payload_size,
}

-- A frame that fits into one packet.
abbrev pub single_packet : Bytes → NalFrame → ℕ → RtpPacket
single_packet memory frame timestamp = record {
  bytes = write_at (rtp_header_size + rtp_tcp_head_size) (take frame.size frame.buffer) memory;
  size = frame.size + rtp_tcp_head_size + rtp_header_size;
  timestamp = timestamp;
  kind = frame.kind;
  last = 1;
}

-- A fragment before the last one.
abbrev pub fragment_packet : Bytes → ℕ → ℕ → ℕ → ℕ → Bytes → RtpPacket
fragment_packet memory kind timestamp fu0 fu1 frame_buf = record {
  bytes =
      write_at (rtp_header_size + rtp_tcp_head_size + 2) (take (max_rtp_payload_size - 2) frame_buf)
        (write_at (rtp_header_size + rtp_tcp_head_size) (fu0 ∷ fu1 ∷ []) memory);
  size = rtp_tcp_head_size + rtp_header_size + max_rtp_payload_size;
  timestamp = timestamp;
  kind = kind;
  last = 0;
}

-- The last fragment.
abbrev pub last_packet : Bytes → ℕ → ℕ → ℕ → ℕ → Bytes → ℕ → RtpPacket
last_packet memory kind timestamp fu0 fu1 frame_buf frame_size = record {
  bytes =
      write_at (rtp_tcp_head_size + rtp_header_size + 2) (take frame_size frame_buf)
        (write_at (rtp_tcp_head_size + rtp_header_size) (fu0 ∷ bit_or fu1 0x40 ∷ []) memory);
  size = 4 + rtp_header_size + 2 + frame_size;
  timestamp = timestamp;
  kind = kind;
  last = 1;
}

-- The two bytes `FU_A` for the first byte of a frame.
abbrev pub fu_indicator : ℕ → ℕ
fu_indicator b = bit_or (bit_and b 0xE0) 28

abbrev pub fu_header : ℕ → ℕ
fu_header b = bit_or (bit_and b 0x1F) 0x80

module _ {State : Type 0} (send_frame_callback : Option (RtpPacket → State → Bool × State)) where
  -- The callback is called if it is set.
  abbrev pub send_packet : RtpPacket → State → Bool × State
  send_packet p s = elim send_frame_callback [ none ↦ (true, s) | some f ↦ f p s ]

  -- Sending goes on after a success only.
  abbrev pub go_on : Bool × State → (State → Option (Bool × State)) → Option (Bool × State)
  go_on (ok, s) next = if ok then next s else some (false, s)

  -- The loop over the fragments and the last one behind it: packet `i` carries what `frame_buf`
  -- points to. It takes fuel: `none` would mean that it ran out.
  unfoldable pub send_fragments :
      ℕ → (ℕ → Bytes) → ℕ → ℕ → ℕ → ℕ → ℕ → Bytes → ℕ → State → Option (Bool × State)
  send_fragments zero memory kind timestamp i fu0 fu1 frame_buf frame_size s = none
  send_fragments (suc fuel) memory kind timestamp i fu0 fu1 frame_buf frame_size s =
      let more =
        send_fragments fuel memory kind timestamp (i + 1) fu0 (bit_and fu1 0x7F)
          (drop (max_rtp_payload_size - 2) frame_buf) (frame_size - (max_rtp_payload_size - 2)) in
      if ltb max_rtp_payload_size ((frame_size + 2) % 2 ^ 32)
      then go_on (send_packet (fragment_packet (memory i) kind timestamp fu0 fu1 frame_buf) s) more
      else some (send_packet (last_packet (memory i) kind timestamp fu0 fu1 frame_buf frame_size) s)

  -- `HandleFrame`; `now` is what `GetTimestamp` gives.
  unfoldable pub handle_frame : (ℕ → Bytes) → ℕ → NalFrame → State → Option (Bool × State)
  unfolding send_fragments
  handle_frame memory now frame s =
      let timestamp = if frame.timestamp == 0 then now else frame.timestamp in
      if leb frame.size max_rtp_payload_size
      then some (send_packet (single_packet (memory 0) frame timestamp) s)
      else send_fragments frame.size memory frame.kind timestamp 0
          (fu_indicator (get_or frame.buffer 0 0)) (fu_header (get_or frame.buffer 0 0))
          (drop 1 frame.buffer) (frame.size - 1) s
