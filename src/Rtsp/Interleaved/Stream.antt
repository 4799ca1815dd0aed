-- ===== src/Rtsp/Interleaved/Stream.antt =====
-- What the TCP sender writes, read by `ProcessInterleavedData`.
use camera_player.Prelude.{
  ℕ, zero, suc, ◌+◌, ◌-◌, ◌/◌, ◌%◌, ◌^◌, ◌≤◌, ◌<◌, bit_and, bit_or, true, false, leb, ltb, none,
  some, ◌≡◌, ◌≢◌, refl, sym, ap, ◌∙◌, arith, List, [], ◌∷◌, ◌++◌, append_assoc, append-nil, map,
  All, length, length-append, length-take, length-drop, take, drop, take-append_self,
  drop-append_self, Bytes, ◌<<<◌, ◌>>>◌,
}
use camera_player.Prelude.Bits.{bit_or_fields, bit_and_mask, bit_and_high_byte}
use camera_player.Rtp.Packet.{RtpPacket}
use camera_player.Rtp.Transport.{tcp_frame}
use camera_player.Rtsp.Interleaved.{
  Received, rtp_data, hand_on, interleaved_loop, process_interleaved_data,
}

-- The packet has a payload that a frame's 16-bit size can tell, and its array holds it.
pub record IsFramable (p : RtpPacket) : Type 0 where
  pub not_empty : 4 < p.size
  pub size_fits : p.size < 4 + 2 ^ 16
  pub in_array : p.size ≤ length p.bytes

-- What stands behind the four bytes for the frame's own header.
abbrev pub framed : RtpPacket → Bytes
framed p = take (p.size - 4) (drop 4 p.bytes)

-- The frames of some packets, one after the other, where none is refused.
abbrev pub tcp_stream : ℕ → List RtpPacket → Bytes
tcp_stream channel [] = []
tcp_stream channel (p ∷ ps) =
    elim (tcp_frame channel p) [ none ↦ [] | some frame ↦ frame ] ++ tcp_stream channel ps

size_read : (n : ℕ) → n < 2 ^ 16 → bit_or ((bit_and n 0xFF00 >>> 8) <<< 8) (bit_and n 0xFF) ≡ n
size_read n h =
    rw (bit_and_high_byte n, bit_and_mask 8 n)
      (bit_or_fields 8 (n / 256 % 256) (n % 256) (omega arith) ∙ omega arith)

framed-length : (p : RtpPacket) → IsFramable p → length (framed p) ≡ p.size - 4
framed-length p f = omega (
  arith,
  length-take (p.size - 4) (drop 4 p.bytes),
  length-drop 4 p.bytes,
  f.in_array,
  f.not_empty,
)

pub tcp_frame-framed :
    (channel : ℕ) (p : RtpPacket)
    → IsFramable p
    → tcp_frame channel p
      ≡ some (
          0x24
          ∷ channel % 256
          ∷ (bit_and (p.size - 4) 0xFF00 >>> 8)
          ∷ bit_and (p.size - 4) 0xFF
          ∷ framed p)
tcp_frame-framed channel p f =
    let big : leb p.size 4 ≡ false = ground (arith, f.not_empty) in rw big refl

-- A whole frame at the front is handed on.
loop_frame :
    (fuel rtp_channel rtcp_channel channel size hi lo : ℕ) (body rest : Bytes)
    (done : List Received)
    → bit_or (hi <<< 8) lo ≡ size
    → length body ≡ size
    → interleaved_loop
        (suc fuel)
        rtp_channel
        rtcp_channel
        (0x24 ∷ channel ∷ hi ∷ lo ∷ (body ++ rest))
        done
      ≡ interleaved_loop fuel rtp_channel rtcp_channel rest
          (done ++ hand_on rtp_channel rtcp_channel channel body)
unfolding interleaved_loop
loop_frame fuel rtp rtcp channel size hi lo body rest done e n =
    let fits : ltb (length (body ++ rest)) (length body) ≡ false =
      ground (arith, length-append body rest) in
    rw (e ∙ sym n, fits, take-append_self body rest, drop-append_self body rest) refl

-- Bytes that the loop waits with: too few for a frame's header, or the front of a frame.
abbrev pub IsPartial : Bytes → Type 0
IsPartial (a ∷ b ∷ c ∷ d ∷ rest) = (a ≡ 0x24) × (length rest < bit_or (c <<< 8) d)
IsPartial _ = Unit {0}

loop_waits :
    (fuel rtp_channel rtcp_channel : ℕ) (tail : Bytes) (done : List Received)
    → IsPartial tail
    → length tail ≤ fuel
    → interleaved_loop fuel rtp_channel rtcp_channel tail done ≡ some (tail, done)
unfolding interleaved_loop
loop_waits fuel rtp rtcp [] done h l = refl
loop_waits fuel rtp rtcp (a ∷ []) done h l = refl
loop_waits fuel rtp rtcp (a ∷ b ∷ []) done h l = refl
loop_waits fuel rtp rtcp (a ∷ b ∷ c ∷ []) done h l = refl
loop_waits zero rtp rtcp (a ∷ b ∷ c ∷ d ∷ rest) done h l = absurd (omega arith)
loop_waits (suc fuel) rtp rtcp (a ∷ b ∷ c ∷ d ∷ rest) done (e, short) l =
    let waits : ltb (length rest) (bit_or (c <<< 8) d) ≡ true = ground arith in rw (e, waits) refl

loop_stream :
    (fuel channel rtcp_channel : ℕ) (ps : List RtpPacket) (tail : Bytes) (done : List Received)
    → channel < 256
    → channel ≢ rtcp_channel
    → All IsFramable ps
    → IsPartial tail
    → length ps + length tail ≤ fuel
    → interleaved_loop fuel channel rtcp_channel (tcp_stream channel ps ++ tail) done
      ≡ some (tail, done ++ map (λ p. rtp_data (framed p)) ps)
loop_stream fuel channel rtcp [] tail done b ne h w l =
    loop_waits fuel channel rtcp tail done w (omega arith)
    ∙ ap (λ d. some (tail, d)) (sym (append-nil done))
loop_stream zero channel rtcp (p ∷ ps) tail done b ne h w l = absurd (omega arith)
loop_stream (suc fuel) channel rtcp (p ∷ ps) tail done b ne (f, h) w l =
    ap
      (λ frame.
        interleaved_loop (suc fuel) channel rtcp
          ((elim frame [ none ↦ [] | some x ↦ x ] ++ tcp_stream channel ps) ++ tail) done)
      (tcp_frame-framed channel p f)
    ∙ ap
        (λ (l : Bytes).
          interleaved_loop (suc fuel) channel rtcp
            (0x24
              ∷ channel % 256
              ∷ (bit_and (p.size - 4) 0xFF00 >>> 8)
              ∷ bit_and (p.size - 4) 0xFF
              ∷ l)
            done)
        (append_assoc (framed p) (tcp_stream channel ps) tail)
    ∙ loop_frame fuel channel rtcp (channel % 256) (p.size - 4) (bit_and (p.size - 4) 0xFF00 >>> 8)
        (bit_and (p.size - 4) 0xFF) (framed p) (tcp_stream channel ps ++ tail) done
        (size_read (p.size - 4) (omega (arith, f.size_fits))) (framed-length p f)
    ∙ ap (λ e. interleaved_loop fuel channel rtcp (tcp_stream channel ps ++ tail) (done ++ e))
        to_rtp
    ∙ loop_stream fuel channel rtcp ps tail (done ++ rtp_data (framed p) ∷ []) b ne h w
        (omega arith)
    ∙ ap (λ d. some (tail, d)) (append_assoc done (rtp_data (framed p) ∷ []) _)
  where
    to_rtp : hand_on channel rtcp (channel % 256) (framed p) ≡ rtp_data (framed p) ∷ []
    to_rtp = ground arith

length-tcp_stream :
    (channel : ℕ) (ps : List RtpPacket)
    → All IsFramable ps
    → length ps ≤ length (tcp_stream channel ps)
length-tcp_stream channel [] h = omega arith
length-tcp_stream channel (p ∷ ps) (f, h) =
    let e =
      ap (λ frame. length (elim frame [ none ↦ [] | some x ↦ x ] ++ tcp_stream channel ps))
        (tcp_frame-framed channel p f) in
    omega
      (arith, e, length-append (framed p) (tcp_stream channel ps), length-tcp_stream channel ps h)

-- The frames that the TCP sender writes for packets of 5 to 65539 bytes, on a channel below 256
-- that is that of RTP and not that of RTCP, are taken off the connection one by one and handed on
-- in order, each with its packet behind the first four bytes. The front of a frame that follows
-- stays in the buffer.
pub process_interleaved_data-tcp_stream :
    (channel rtcp_channel : ℕ) (ps : List RtpPacket) (tail : Bytes)
    → channel < 256
    → channel ≢ rtcp_channel
    → All IsFramable ps
    → IsPartial tail
    → process_interleaved_data channel rtcp_channel (tcp_stream channel ps ++ tail)
      ≡ some (tail, map (λ p. rtp_data (framed p)) ps)
unfolding process_interleaved_data
process_interleaved_data-tcp_stream channel rtcp ps tail b ne h w =
    loop_stream (length (tcp_stream channel ps ++ tail)) channel rtcp ps tail [] b ne h w
      (omega (arith, length-append (tcp_stream channel ps) tail, length-tcp_stream channel ps h))
