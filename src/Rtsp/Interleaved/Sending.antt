-- ===== src/Rtsp/Interleaved/Sending.antt =====
-- `SendRtpPacket` packet by packet, and the loop of the reader on any bytes.
use camera_player.Prelude.{
  if_cases, ℕ, zero, suc, ◌+◌, ◌%◌, ◌^◌, ◌≤◌, ◌<◌, Bool, true, false, ◌==◌, ltb, leb, bit_or, ◌<<<◌,
  Option, none, some, ◌≡◌, refl, sym, ap, ◌∙◌, arith, List, [], ◌∷◌, ◌++◌, append_assoc, append-nil,
  All, length, length-drop, drop, take, Bytes, map, get_or, bit_and, ◌>>>◌, ◌*◌, ◌/◌,
}
use mathlib.Core.Path.{subst}
use camera_player.Prelude.Bits.{bit_and_mask}
use camera_player.Rtp.Packet.{RtpPacket, write_at}
use camera_player.Rtp.Transport.{
  MediaChannelInfo, rtp_header_bytes, fill_rtp_header, next_seq, tcp_frame, tcp_send,
  send_rtp_packet,
}
use camera_player.Rtsp.Interleaved.{
  Received, rtsp_request, hand_on, begins_request, interleaved_loop, process_interleaved_data,
}
use camera_player.Rtsp.Interleaved.Stream.{IsFramable, tcp_stream}
use camera_player.Rtsp.Interleaved.Video.{fill_all}

-- A connection that takes all bytes, and collects them.
abbrev pub collect_bytes : Bytes → Bytes → Bool × Bytes
collect_bytes bytes sent = (true, sent ++ bytes)

-- Packets sent on an open transport, one after the other.
abbrev pub send_all : ℕ → List RtpPacket → MediaChannelInfo → Bytes → MediaChannelInfo × Bytes
send_all channel [] info sent = (info, sent)
send_all channel (p ∷ ps) info sent =
    let (ok, next, t) = send_rtp_packet collect_bytes false channel p info sent in
    send_all channel ps next t

-- The headers take the sequence numbers in turn, so the counts do not matter to them.
pub record SameHeader (i j : MediaChannelInfo) : Type 0 where
  pub same_payload : i.payload ≡ j.payload
  pub same_seq : i.seq ≡ j.seq
  pub same_ssrc : i.ssrc ≡ j.ssrc

pub fill_all-SameHeader :
    (ps : List RtpPacket) (i j : MediaChannelInfo) → SameHeader i j → fill_all i ps ≡ fill_all j ps
fill_all-SameHeader [] i j h = refl
fill_all-SameHeader (p ∷ ps) i j h =
    let head : rtp_header_bytes i p ≡ rtp_header_bytes j p =
      simp (h.same_payload, h.same_seq, h.same_ssrc) in
    ap (λ b. record p { bytes = write_at 4 b p.bytes } ∷ fill_all (next_seq i) ps) head
    ∙ ap (λ qs. fill_rtp_header j p ∷ qs)
        (fill_all-SameHeader ps (next_seq i) (next_seq j) (record {
          same_payload = h.same_payload;
          same_seq = ap (λ n. (n + 1) % 2 ^ 16) h.same_seq;
          same_ssrc = h.same_ssrc;
        }))

send_one :
    (channel : ℕ) (p : RtpPacket) (info : MediaChannelInfo) (sent : Bytes)
    → IsFramable (fill_rtp_header info p)
    → send_rtp_packet collect_bytes false channel p info sent ≡ (
      true,
      record (next_seq info) {
        packet_count = (info.packet_count + 1) % 2 ^ 64;
        octet_count = (info.octet_count + p.size) % 2 ^ 64;
      },
      sent ++ elim (tcp_frame channel (fill_rtp_header info p)) [ none ↦ [] | some x ↦ x ],
    )
unfolding send_rtp_packet tcp_send
send_one channel p info sent f =
    let big : leb p.size 4 ≡ false = ground (arith, f.not_empty) in
    rw (big, send_rtp_packet, tcp_send) refl

-- The sequence number that stands in the header of a packet, highest byte first.
abbrev pub carried_seq : RtpPacket → ℕ
carried_seq p = get_or p.bytes 6 0 * 256 + get_or p.bytes 7 0

-- So many numbers of 16 bits from one on.
abbrev pub seqs_from : ℕ → ℕ → List ℕ
seqs_from seq zero = []
seqs_from seq (suc n) = seq ∷ seqs_from ((seq + 1) % 2 ^ 16) n

seq_bytes : (seq : ℕ) → seq < 2 ^ 16 → bit_and (seq >>> 8) 0xFF * 256 + bit_and seq 0xFF ≡ seq
seq_bytes seq h = omega (arith, bit_and_mask 8 (seq / 256), bit_and_mask 8 seq)

carried_seq-fill :
    (info : MediaChannelInfo) (memory : Bytes) (p : RtpPacket)
    → 16 ≤ length memory
    → p.bytes ≡ memory
    → info.seq < 2 ^ 16
    → carried_seq (fill_rtp_header info p) ≡ info.seq
carried_seq-fill info (a ∷ b ∷ c ∷ d ∷ memory) p h e l = rw e (seq_bytes info.seq l)
carried_seq-fill info [] p h e l = absurd (omega arith)
carried_seq-fill info (_ ∷ []) p h e l = absurd (omega arith)
carried_seq-fill info (_ ∷ _ ∷ []) p h e l = absurd (omega arith)
carried_seq-fill info (_ ∷ _ ∷ _ ∷ []) p h e l = absurd (omega arith)

map-carried_seq :
    (info : MediaChannelInfo) (ps : List RtpPacket)
    → All (λ (p : RtpPacket). 16 ≤ length p.bytes) ps
    → info.seq < 2 ^ 16
    → map carried_seq (fill_all info ps) ≡ seqs_from info.seq (length ps)
map-carried_seq info [] h l = refl
map-carried_seq info (p ∷ ps) (r, h) l =
    rw
      (carried_seq-fill info p.bytes p r refl l, map-carried_seq (next_seq info) ps h (omega arith))
      refl

-- Packets that are sent on an open transport, from arrays with room for a header, stand on the
-- connection in order, each as a frame, and what stands in their headers, highest byte first, are the
-- sequence numbers from the channel's one on, by one for each packet and wrapping at 2 ^ 16. The channel
-- goes on behind the last of them, and its count of packets by one for each.
pub send_all-tcp_stream :
    (channel : ℕ) (ps : List RtpPacket) (info : MediaChannelInfo) (sent : Bytes)
    → All IsFramable (fill_all info ps)
    → All (λ (p : RtpPacket). 16 ≤ length p.bytes) ps
    → info.seq < 2 ^ 16
    → info.packet_count < 2 ^ 64
    → let (after, bytes) = send_all channel ps info sent in
      (bytes ≡ sent ++ tcp_stream channel (fill_all info ps))
      × (map carried_seq (fill_all info ps) ≡ seqs_from info.seq (length ps))
      × (after.seq ≡ (info.seq + length ps) % 2 ^ 16)
      × (after.packet_count ≡ (info.packet_count + length ps) % 2 ^ 64)
send_all-tcp_stream channel [] info sent h hr hs hc =
    (sym (append-nil sent), refl, omega arith, omega arith)
send_all-tcp_stream channel (p ∷ ps) info sent (f, h) hr hs hc =
    let next : MediaChannelInfo = record (next_seq info) {
      packet_count = (info.packet_count + 1) % 2 ^ 64;
      octet_count = (info.octet_count + p.size) % 2 ^ 64;
    } in
    let frame : Bytes = elim (tcp_frame channel (fill_rtp_header info p)) [
      | none ↦ []
      | some x ↦ x
    ] in
    let same =
      fill_all-SameHeader ps (next_seq info) next
        (record { same_payload = refl; same_seq = refl; same_ssrc = refl }) in
    let (bytes, carried, seq, count) =
      send_all-tcp_stream channel ps next (sent ++ frame) (subst (All IsFramable) same h) hr.1
        (omega arith) (omega arith) in
    let step = send_one channel p info sent f in
    let rest : MediaChannelInfo × Bytes = send_all channel ps next (sent ++ frame) in
    let go : send_all channel (p ∷ ps) info sent ≡ rest =
      ap (λ (r : Bool × MediaChannelInfo × Bytes). send_all channel ps r.1 r.2) step in
    (
      ap (λ (r : MediaChannelInfo × Bytes). r.1) go
          ∙ bytes
          ∙ ap (λ l. (sent ++ frame) ++ tcp_stream channel l) (sym same)
          ∙ append_assoc sent frame _,
      map-carried_seq info (p ∷ ps) hr hs,
      ap (λ (r : MediaChannelInfo × Bytes). r.0.seq) go ∙ seq ∙ omega arith,
      ap (λ (r : MediaChannelInfo × Bytes). r.0.packet_count) go ∙ count ∙ omega arith,
    )

-- The loop ends on every buffer of bytes.
interleaved_loop_total :
    (fuel rtp_channel rtcp_channel : ℕ) (bytes : Bytes) (done : List Received)
    → length bytes ≤ fuel
    → (r : Bytes × List Received) × (interleaved_loop fuel rtp_channel rtcp_channel bytes done
        ≡ some r)
unfolding interleaved_loop
interleaved_loop_total fuel rtp rtcp [] done h = (([], done), refl)
interleaved_loop_total fuel rtp rtcp (a ∷ []) done h = ((a ∷ [], done), refl)
interleaved_loop_total fuel rtp rtcp (a ∷ b ∷ []) done h = ((a ∷ b ∷ [], done), refl)
interleaved_loop_total fuel rtp rtcp (a ∷ b ∷ c ∷ []) done h = ((a ∷ b ∷ c ∷ [], done), refl)
interleaved_loop_total zero rtp rtcp (a ∷ b ∷ c ∷ d ∷ rest) done h = absurd (omega arith)
interleaved_loop_total (suc fuel) rtp rtcp (a ∷ b ∷ c ∷ d ∷ rest) done h =
    let Done : Option (Bytes × List Received) → Type 0 =
      λ o. (r : Bytes × List Received) × (o ≡ some r) in
    let size = bit_or (c <<< 8) d in
    if_cases Done (a == 0x24)
      (λ e.
        if_cases Done (ltb (length rest) size) (λ f. ((a ∷ b ∷ c ∷ d ∷ rest, done), refl))
          (λ f.
            interleaved_loop_total fuel rtp rtcp (drop size rest)
              (done ++ hand_on rtp rtcp b (take size rest)) (omega (arith, length-drop size rest))))
      (λ e.
        if_cases Done (begins_request a)
          (λ f. (([], done ++ rtsp_request (a ∷ b ∷ c ∷ d ∷ rest) ∷ []), refl))
          (λ f. (([], done), refl)))

-- `ProcessInterleavedData` ends on every buffer.
pub process_interleaved_data_total :
    (rtp_channel rtcp_channel : ℕ) (read_buffer : Bytes)
    → (r : Bytes × List Received) × (process_interleaved_data rtp_channel rtcp_channel read_buffer
        ≡ some r)
unfolding process_interleaved_data
process_interleaved_data_total rtp rtcp read_buffer =
    interleaved_loop_total (length read_buffer) rtp rtcp read_buffer [] (omega arith)
