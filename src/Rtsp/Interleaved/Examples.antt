-- ===== src/Rtsp/Interleaved/Examples.antt =====
-- One large video frame on its way to a client.
use camera_player.Prelude.{
  ℕ, zero, suc, ◌≤◌, Bool, true, false, some, ◌≡◌, refl, ap, arith, List, [], ◌∷◌, map, All, length,
  take, drop, Bytes,
}
use camera_player.Rtp.Packet.{RtpPacket, NalFrame, rtp_payload, length-write_at}
use camera_player.Rtp.H264.{handle_frame}
use camera_player.Rtp.H264.Fragments.{stamp, packets, send_each, handle_frame-send_each}
use camera_player.Rtp.H264.Receiver.{receive, receive-packets}
use camera_player.Rtp.H264.Bounds.{IsSendable, MarksLast, packets-IsSendable}
use camera_player.Rtp.Transport.{MediaChannelInfo, rtp_header_bytes}
use camera_player.Rtsp.Interleaved.{rtp_data, process_interleaved_data}
use camera_player.Rtsp.Interleaved.Stream.{IsFramable, tcp_stream}
use camera_player.Rtsp.Interleaved.Video.{fill_all, nal_unit_carried}
use camera_player.Rtsp.Interleaved.Sending.{send_all, carried_seq, send_all-tcp_stream}

zeros : ℕ → Bytes
zeros zero = []
zeros (suc n) = 0 ∷ zeros n

length-zeros : (n : ℕ) → length (zeros n) ≡ n
unfolding zeros
length-zeros zero = refl
length-zeros (suc n) = ap suc (length-zeros n)

abbrev memory : ℕ → Bytes
memory i = zeros 1600

-- An IDR picture of 3001 bytes: three fragments.
abbrev picture : NalFrame
picture = record { buffer = 0x65 ∷ zeros 3000; size = 3001; kind = 1; timestamp = 0 }

abbrev channel_info : MediaChannelInfo
channel_info = record { payload = 96; seq = 65535; ssrc = 7; packet_count = 0; octet_count = 0 }

abbrev small_packet : RtpPacket
small_packet = record { bytes = zeros 1600; size = 20; timestamp = 5; kind = 1; last = 1 }

-- A callback that takes two packets and then fails.
abbrev two_only : RtpPacket → ℕ → Bool × ℕ
two_only p zero = (false, zero)
two_only p (suc n) = (true, n)

three_fragments : length (packets memory 7 picture) ≡ 3
three_fragments = refl

picture_whole : 3001 ≤ length (0x65 ∷ zeros 3000)
picture_whole = omega (arith, length-zeros 3000)

small_packet-IsFramable : IsFramable small_packet
small_packet-IsFramable = record {
  not_empty = omega arith;
  size_fits = omega arith;
  in_array = omega (arith, length-zeros 1600);
}

handle_frame-send_each_example :
    handle_frame (some two_only) memory 7 picture 2
    ≡ some (send_each (some two_only) (packets memory 7 picture) 2)
handle_frame-send_each_example =
    handle_frame-send_each (some two_only) memory 7 picture 2 (omega arith)

receive-packets_example :
    receive (map rtp_payload (packets memory 7 picture)) ≡ some (take 3001 (0x65 ∷ zeros 3000))
receive-packets_example =
    receive-packets memory 7 picture (λ j. length-zeros 1600) (omega arith) picture_whole
      (omega arith) refl

packets-IsSendable_example :
    All (IsSendable (stamp 7 picture)) (packets memory 7 picture)
    × MarksLast (packets memory 7 picture)
packets-IsSendable_example =
    packets-IsSendable memory 7 picture (λ j. length-zeros 1600) (omega arith) picture_whole

nal_unit_carried_example :
    (bodies : List Bytes) × (process_interleaved_data 0 1
        (tcp_stream 0 (fill_all channel_info (packets memory 7 picture)))
      ≡ some ([], map rtp_data bodies))
    × (receive (map (drop 12) bodies) ≡ some (take 3001 (0x65 ∷ zeros 3000)))
nal_unit_carried_example =
    nal_unit_carried memory 7 picture channel_info 0 1 (λ j. length-zeros 1600) (omega arith)
      picture_whole (omega arith) refl (omega arith) (λ e. omega (arith, e))

filled-IsFramable : All IsFramable (fill_all channel_info (small_packet ∷ []))
filled-IsFramable = (
  record {
    not_empty = omega arith;
    size_fits = omega arith;
    in_array = omega (
      arith,
      length-zeros 1600,
      length-write_at 4 (rtp_header_bytes channel_info small_packet) (zeros 1600)
          (omega (arith, length-zeros 1600)),
    );
  },
  _,
)

send_all-tcp_stream_example :
    ((send_all 0 (small_packet ∷ []) channel_info []).1
      ≡ tcp_stream 0 (fill_all channel_info (small_packet ∷ [])))
    × (map carried_seq (fill_all channel_info (small_packet ∷ [])) ≡ 65535 ∷ [])
    × ((send_all 0 (small_packet ∷ []) channel_info []).0.seq ≡ 0)
    × ((send_all 0 (small_packet ∷ []) channel_info []).0.packet_count ≡ 1)
send_all-tcp_stream_example =
    send_all-tcp_stream 0 (small_packet ∷ []) channel_info [] filled-IsFramable
      (omega (arith, length-zeros 1600), _) (omega arith) (omega arith)
