-- ===== src/Rtp/MediaSession/Copies.antt =====
-- The copies of a packet on a client's TCP connection.
use camera_player.Prelude.{
  ℕ, zero, suc, ◌+◌, ◌-◌, ◌%◌, ◌≤◌, ◌<◌, false, leb, ◌==◌, if◌then◌else◌, none, some, ◌≡◌, refl,
  sym, ap, ◌∙◌, arith, List, [], ◌∷◌, ◌++◌, append-nil, append_assoc, map, All, length,
  length-append, length-take, take, drop, take-add, take-drop, take-append_self, Bytes, bit_and,
  ◌>>>◌,
}
use camera_player.Rtp.Packet.{RtpPacket, rtp_payload, packet_capacity, split_there, length-write_at}
use camera_player.Rtp.H264.Bounds.{IsSendable}
use camera_player.Rtp.Transport.{
  MediaChannelInfo, rtp_header_bytes, fill_rtp_header, next_seq, tcp_frame,
}
use camera_player.Rtp.Senders.{tcp, send, sender_output}
use camera_player.Rtp.Channels.{Transport}
use camera_player.Rtp.Channels.Timer.{transport_send, send_on}
use camera_player.Rtp.MediaSession.Deliver.{client_packet}
use camera_player.Rtp.MediaSession.Dispatch.{Peer, send_peer}
use camera_player.Rtsp.Interleaved.Stream.{framed, tcp_stream}
use camera_player.Rtsp.Interleaved.Sending.{SameHeader, fill_all-SameHeader}
use camera_player.Rtsp.Interleaved.Video.{fill_all}

-- What is framed of a packet with its header: the header and the payload.
framed-fill_rtp_header :
    (info : MediaChannelInfo) (p : RtpPacket)
    → 16 ≤ p.size
    → 16 ≤ length p.bytes
    → framed (fill_rtp_header info p) ≡ rtp_header_bytes info p ++ rtp_payload p
framed-fill_rtp_header info p h k =
    let header = rtp_header_bytes info p in
    let there : 4 ≡ length (take 4 p.bytes ++ []) =
      omega (arith, length-append (take 4 p.bytes) [], length-take 4 p.bytes) in
    let size : p.size - 4 ≡ 12 + (p.size - 16) = omega arith in
    ap (take (p.size - 4)) (split_there 4 (take 4 p.bytes) [] (header ++ drop 16 p.bytes) there).1
    ∙ ap (λ n. take n (header ++ drop 16 p.bytes)) size
    ∙ take-add 12 (p.size - 16) (header ++ drop 16 p.bytes)
    ∙ ap (λ l. header ++ l) (take-drop 16 p.size p.bytes h)

rtp_payload-client_packet :
    (memory : Bytes) (p : RtpPacket)
    → p.size ≤ length p.bytes
    → rtp_payload (client_packet memory p) ≡ rtp_payload p
rtp_payload-client_packet memory p h =
    let copied = take p.size p.bytes in
    let whole : p.size ≡ length copied = omega (arith, length-take p.size p.bytes) in
    ap (drop 16) (
      ap (λ n. take n (copied ++ drop (0 + length copied) memory)) whole
      ∙ take-append_self copied (drop (0 + length copied) memory))

tcp_frame-size :
    (channel : ℕ) (p : RtpPacket)
    → 4 < p.size
    → tcp_frame channel p
      ≡ some (
          0x24
          ∷ channel % 256
          ∷ (bit_and (p.size - 4) 0xFF00 >>> 8)
          ∷ bit_and (p.size - 4) 0xFF
          ∷ framed p)
tcp_frame-size channel p h = let big : leb p.size 4 ≡ false = ground arith in rw big refl

-- A copy goes out as the packet itself would.
tcp_frame-client_packet :
    (channel timestamp : ℕ) (info : MediaChannelInfo) (memory : Bytes) (p : RtpPacket)
    → IsSendable timestamp p
    → length memory ≡ packet_capacity
    → tcp_frame channel (fill_rtp_header info (client_packet memory p))
      ≡ tcp_frame channel (fill_rtp_header info p)
tcp_frame-client_packet channel timestamp info memory p h m =
    let copy = client_packet memory p in
    let array =
      length-write_at 0 (take p.size p.bytes) memory
        (omega (arith, h.payload_fits, length-take p.size p.bytes)) in
    let same =
      framed-fill_rtp_header info copy (omega (arith, h.not_empty)) (omega (arith, array))
      ∙ ap (λ l. rtp_header_bytes info p ++ l)
          (rtp_payload-client_packet memory p (omega (arith, h.payload_fits, h.whole_array)))
      ∙ sym (
          framed-fill_rtp_header info p (omega (arith, h.not_empty))
            (omega (arith, h.whole_array))) in
    let big : 4 < p.size = omega (arith, h.not_empty) in
    tcp_frame-size channel (fill_rtp_header info copy) big
    ∙ ap
        (λ (l : Bytes). some (
          0x24
          ∷ channel % 256
          ∷ (bit_and (p.size - 4) 0xFF00 >>> 8)
          ∷ bit_and (p.size - 4) 0xFF
          ∷ l))
        same
    ∙ sym (tcp_frame-size channel (fill_rtp_header info p) big)

tcp_stream-copies :
    (channel timestamp : ℕ) (info : MediaChannelInfo) (memory : Bytes) (ps : List RtpPacket)
    → All (IsSendable timestamp) ps
    → length memory ≡ packet_capacity
    → tcp_stream channel (fill_all info (map (client_packet memory) ps))
      ≡ tcp_stream channel (fill_all info ps)
tcp_stream-copies channel timestamp info memory [] h m = refl
tcp_stream-copies channel timestamp info memory (p ∷ ps) (f, h) m =
    rw
      (
        tcp_frame-client_packet channel timestamp info memory p f m,
        tcp_stream-copies channel timestamp (next_seq info) memory ps h m,
      )
      refl

-- The channel of an id below 2.
abbrev pub info_of : ℕ → Transport Bytes → MediaChannelInfo
info_of channel t = if channel == 0 then t.channel_0.info else t.channel_1.info

-- A client that is sent to over its RTSP connection.
pub record IsOnTcp (v : Peer) : Type 0 where
  pub is_open : v.transport.is_closed ≡ false
  pub sends_tcp : v.transport.sender ≡ some tcp

abbrev frame_of : ℕ → MediaChannelInfo → RtpPacket → Bytes
frame_of channel info p = elim (tcp_frame channel (fill_rtp_header info p)) [
  | none ↦ []
  | some frame ↦ frame
]

send_peer_lem :
    (channel : ℕ) (p : RtpPacket) (v : Peer)
    → channel < 2
    → 4 < p.size
    → IsOnTcp v
    → IsOnTcp (send_peer channel p v)
      × SameHeader
          (info_of channel (send_peer channel p v).transport)
          (next_seq (info_of channel v.transport))
      × ((send_peer channel p v).sent ≡ v.sent ++ frame_of channel (info_of channel v.transport) p)
unfolding send_peer transport_send send_on send sender_output
send_peer_lem zero p v c h on = ground arith
send_peer_lem (suc zero) p v c h on = ground arith
send_peer_lem (suc (suc n)) p v c h on = absurd (omega arith)

-- A transport that is sent some packets, one after the other.
abbrev pub send_peers : ℕ → List RtpPacket → Peer → Peer
send_peers channel [] v = v
send_peers channel (p ∷ ps) v = send_peers channel ps (send_peer channel p v)

send_peers-tcp_stream :
    (channel : ℕ) (ps : List RtpPacket) (v : Peer)
    → channel < 2
    → All (λ p. 4 < p.size) ps
    → IsOnTcp v
    → (send_peers channel ps v).sent
      ≡ v.sent ++ tcp_stream channel (fill_all (info_of channel v.transport) ps)
send_peers-tcp_stream channel [] v c h on = sym (append-nil v.sent)
send_peers-tcp_stream channel (p ∷ ps) v c (f, h) on =
    let (on', same, one) = send_peer_lem channel p v c f on in
    let info = info_of channel v.transport in
    send_peers-tcp_stream channel ps (send_peer channel p v) c h on'
    ∙ ap (λ l. (send_peer channel p v).sent ++ tcp_stream channel l)
        (fill_all-SameHeader ps (info_of channel (send_peer channel p v).transport) (next_seq info)
          same)
    ∙ ap (λ l. l ++ tcp_stream channel (fill_all (next_seq info) ps)) one
    ∙ append_assoc v.sent (frame_of channel info p)
        (tcp_stream channel (fill_all (next_seq info) ps))

copies-fit :
    (timestamp : ℕ) (memory : Bytes) (ps : List RtpPacket)
    → All (IsSendable timestamp) ps
    → All (λ p. 4 < p.size) (map (client_packet memory) ps)
copies-fit timestamp memory [] h = h
copies-fit timestamp memory (p ∷ ps) (f, h) =
    (omega (arith, f.not_empty), copies-fit timestamp memory ps h)

-- The copies of the packets of a frame stand on the connection as the packets themselves would.
pub send_peers-copies :
    (channel timestamp : ℕ) (memory : Bytes) (ps : List RtpPacket) (v : Peer)
    → channel < 2
    → All (IsSendable timestamp) ps
    → length memory ≡ packet_capacity
    → IsOnTcp v
    → (send_peers channel (map (client_packet memory) ps) v).sent
      ≡ v.sent ++ tcp_stream channel (fill_all (info_of channel v.transport) ps)
send_peers-copies channel timestamp memory ps v c h m on =
    send_peers-tcp_stream channel (map (client_packet memory) ps) v c
      (copies-fit timestamp memory ps h) on
    ∙ ap (λ l. v.sent ++ l)
        (tcp_stream-copies channel timestamp (info_of channel v.transport) memory ps h m)
