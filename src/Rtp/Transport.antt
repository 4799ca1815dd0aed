-- ===== src/Rtp/Transport.antt =====
-- `AsioRtpTransport::FillRtpHeader` and `SendRtpPacket` of src/rtp/rtptransport.cpp, and
-- `AsioTcpRtpSender::Send` of src/rtp/rtpsender.cpp.
use camera_player.Prelude.{
  ℕ, ◌+◌, ◌-◌, ◌%◌, ◌^◌, bit_and, bit_or, Bool, true, false, leb, ◌==◌, if◌then◌else◌, Option, none,
  some, [], ◌∷◌, ◌++◌, take, drop, Bytes, ◌>>>◌,
}
use camera_player.Rtp.Packet.{RtpPacket, write_at, rtp_tcp_head_size}

-- The fields of `MediaChannelInfo` that sending reads or changes.
pub record MediaChannelInfo : Type 0 where
  pub payload : ℕ
  pub seq : ℕ
  pub ssrc : ℕ
  pub packet_count : ℕ
  pub octet_count : ℕ

-- `htons` and `htonl` store a number highest byte first.
abbrev pub net16 : ℕ → Bytes
net16 n = bit_and (n >>> 8) 0xFF ∷ bit_and n 0xFF ∷ []

abbrev pub net32 : ℕ → Bytes
net32 n =
    bit_and (n >>> 24) 0xFF ∷ bit_and (n >>> 16) 0xFF ∷ bit_and (n >>> 8) 0xFF ∷ bit_and n 0xFF ∷ []

-- The bytes of `RtpHeader`: version 2, no padding, no extension, no sources; then the marker and the
-- payload type, a field of seven bits.
abbrev pub rtp_header_bytes : MediaChannelInfo → RtpPacket → Bytes
rtp_header_bytes info p =
    0x80
    ∷ bit_or (bit_and info.payload 0x7F) (if p.last == 0 then 0 else 0x80)
    ∷ (net16 info.seq ++ (net32 p.timestamp ++ net32 info.ssrc))

-- `FillRtpHeader` on the packet.
abbrev pub fill_rtp_header : MediaChannelInfo → RtpPacket → RtpPacket
fill_rtp_header info p = record p {
  bytes = write_at rtp_tcp_head_size (rtp_header_bytes info p) p.bytes;
}

-- `FillRtpHeader` on the channel: the sequence number is a uint16_t.
abbrev pub next_seq : MediaChannelInfo → MediaChannelInfo
next_seq info = record info { seq = (info.seq + 1) % 2 ^ 16 }

-- What `AsioTcpRtpSender::Send` writes: '$', the channel and the size, then the packet behind its
-- first four bytes. A packet with no more than those is refused.
abbrev pub tcp_frame : ℕ → RtpPacket → Option Bytes
tcp_frame channel p =
    if leb p.size rtp_tcp_head_size
    then none
    else (let payload_size = p.size - rtp_tcp_head_size in
        some (
          0x24
          ∷ channel % 256
          ∷ (bit_and payload_size 0xFF00 >>> 8)
          ∷ bit_and payload_size 0xFF
          ∷ take payload_size (drop rtp_tcp_head_size p.bytes)))

-- The socket that is written to: a step on the state of whoever holds it, with its success.
module _ {State : Type 0} (write : Bytes → State → Bool × State) where
  -- `AsioTcpRtpSender::Send`.
  unfoldable pub tcp_send : ℕ → RtpPacket → State → Bool × State
  tcp_send channel p s = elim (tcp_frame channel p) [
    | none ↦ (false, s)
    | some bytes ↦ write bytes s
  ]

  -- `SendRtpPacket` and `SendRtp` with a TCP sender. The sequence number goes on even where the write
  -- fails; the counts do not.
  unfoldable pub send_rtp_packet :
      Bool → ℕ → RtpPacket → MediaChannelInfo → State → Bool × MediaChannelInfo × State
  unfolding tcp_send
  send_rtp_packet is_closed channel p info s =
      if is_closed
      then (false, info, s)
      else (let (ok, t) = tcp_send channel (fill_rtp_header info p) s in
          let sent = next_seq info in
          if ok
          then (
            true,
            record sent {
              packet_count = (info.packet_count + 1) % 2 ^ 64;
              octet_count = (info.octet_count + p.size) % 2 ^ 64;
            },
            t,
          )
          else (false, sent, t))
