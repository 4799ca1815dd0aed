-- ===== src/Rtsp/Interleaved/Video.antt =====
-- A video frame on its whole way: `HandleFrame`, `FillRtpHeader`, the TCP sender, and the reader of
-- the connection.
use camera_player.Prelude.{
  take-drop, drop-drop, ℕ, ◌+◌, ◌-◌, ◌≤◌, ◌<◌, false, some, ◌≡◌, ◌≢◌, refl, sym, ap, ◌∙◌, arith,
  List, [], ◌∷◌, append-nil, map, All, length, length-append, length-take, take, drop, get_or,
  Bytes, IsByte,
}
use camera_player.Rtp.Packet.{
  RtpPacket, NalFrame, write_at, rtp_payload, packet_capacity, length-write_at, split_there,
}
use camera_player.Rtp.H264.Fragments.{stamp, packets}
use camera_player.Rtp.H264.Receiver.{is_fragment, receive, receive-packets}
use camera_player.Rtp.H264.Bounds.{IsSendable, packets-IsSendable}
use camera_player.Rtp.Transport.{MediaChannelInfo, rtp_header_bytes, fill_rtp_header, next_seq}
use camera_player.Rtsp.Interleaved.{rtp_data, process_interleaved_data}
use camera_player.Rtsp.Interleaved.Stream.{
  IsFramable, framed, tcp_stream, process_interleaved_data-tcp_stream,
}

-- The packets with their RTP headers, each with the next sequence number.
abbrev pub fill_all : MediaChannelInfo → List RtpPacket → List RtpPacket
fill_all info [] = []
fill_all info (p ∷ ps) = fill_rtp_header info p ∷ fill_all (next_seq info) ps

behind_header :
    (header bytes : Bytes)
    → length header ≡ 12
    → 16 ≤ length bytes
    → drop 16 (write_at 4 header bytes) ≡ drop 16 bytes
behind_header header bytes n h =
    let there : 4 + length header ≡ 16 = omega arith in
    (split_there 16 (take 4 bytes) header (drop (4 + length header) bytes)
      (omega (arith, length-append (take 4 bytes) header, length-take 4 bytes))).1
    ∙ ap (λ k. drop k bytes) there

-- The header leaves the payload alone.
payload_kept :
    (info : MediaChannelInfo) (p : RtpPacket)
    → length p.bytes ≡ packet_capacity
    → 16 ≤ p.size
    → drop 12 (framed (fill_rtp_header info p)) ≡ rtp_payload p
payload_kept info p n l =
    let header = rtp_header_bytes info p in
    let filled = write_at 4 header p.bytes in
    ap (drop 12) (take-drop 4 p.size filled (omega arith))
    ∙ drop-drop 4 12 (take p.size filled)
    ∙ sym (take-drop 16 p.size filled l)
    ∙ ap (take (p.size - 16)) (behind_header header p.bytes refl (omega arith))
    ∙ take-drop 16 p.size p.bytes l

payloads_kept :
    (timestamp : ℕ) (info : MediaChannelInfo) (ps : List RtpPacket)
    → All (IsSendable timestamp) ps
    → map (drop 12) (map framed (fill_all info ps)) ≡ map rtp_payload ps
payloads_kept timestamp info [] h = refl
payloads_kept timestamp info (p ∷ ps) (f, h) =
    ap (λ b. b ∷ map (drop 12) (map framed (fill_all (next_seq info) ps)))
      (payload_kept info p f.whole_array (omega (arith, f.not_empty)))
    ∙ ap (◌∷◌ (rtp_payload p)) (payloads_kept timestamp (next_seq info) ps h)

pub fill_all-IsFramable :
    (timestamp : ℕ) (info : MediaChannelInfo) (ps : List RtpPacket)
    → All (IsSendable timestamp) ps
    → All IsFramable (fill_all info ps)
fill_all-IsFramable timestamp info [] h = h
fill_all-IsFramable timestamp info (p ∷ ps) (f, h) = (
  record {
    not_empty = omega (arith, f.not_empty);
    size_fits = omega (arith, f.payload_fits);
    in_array = omega (
      arith,
      f.payload_fits,
      f.whole_array,
      length-write_at 4 (rtp_header_bytes info p) p.bytes (omega (arith, f.whole_array)),
    );
  },
  fill_all-IsFramable timestamp (next_seq info) ps h,
)

map-map : (ps : List RtpPacket) → map (λ p. rtp_data (framed p)) ps ≡ map rtp_data (map framed ps)
map-map [] = refl
map-map (p ∷ ps) = ap (◌∷◌ (rtp_data (framed p))) (map-map ps)

-- A NAL unit that lies within its buffer and is not itself of the type that stands for a fragment
-- is cut into packets, the packets get their headers and are written to the connection, on a
-- channel below 256 that is that of RTP and not that of RTCP: what `ProcessInterleavedData` takes
-- off the connection are the RTP packets in order, and behind their headers is what a receiver
-- puts together to the same NAL unit.
pub nal_unit_carried :
    (memory : ℕ → Bytes) (now : ℕ) (frame : NalFrame) (info : MediaChannelInfo)
    (channel rtcp_channel : ℕ)
    → ((j : ℕ) → length (memory j) ≡ packet_capacity)
    → 0 < frame.size
    → frame.size ≤ length frame.buffer
    → IsByte (get_or frame.buffer 0 0)
    → is_fragment (get_or frame.buffer 0 0) ≡ false
    → channel < 256
    → channel ≢ rtcp_channel
    → (bodies : List Bytes) × (process_interleaved_data channel rtcp_channel
          (tcp_stream channel (fill_all info (packets memory now frame)))
        ≡ some ([], map rtp_data bodies))
      × (receive (map (drop 12) bodies) ≡ some (take frame.size frame.buffer))
nal_unit_carried memory now frame info channel rtcp hm hp hl hb f hc ne =
    let ps = packets memory now frame in
    let (sendable, marks) = packets-IsSendable memory now frame hm hp hl in
    (
      map framed (fill_all info ps),
      ap (process_interleaved_data channel rtcp)
            (sym (append-nil (tcp_stream channel (fill_all info ps))))
          ∙ process_interleaved_data-tcp_stream channel rtcp (fill_all info ps) [] hc ne
              (fill_all-IsFramable (stamp now frame) info ps sendable) _
          ∙ ap (λ l. some ([], l)) (map-map (fill_all info ps)),
      ap receive (payloads_kept (stamp now frame) info ps sendable)
          ∙ receive-packets memory now frame hm hp hl hb f,
    )
