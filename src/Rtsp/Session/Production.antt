-- ===== src/Rtsp/Session/Production.antt =====
-- The units and the packets of a loaded video.
use camera_player.Prelude.{
  ℕ, zero, suc, ◌+◌, ◌-◌, ◌≤◌, ◌<◌, ◌^◌, leb, true, false, not, if◌then◌else◌, ◌||◌, ◌==◌, if_cases,
  Option, none, some, ◌≡◌, refl, sym, ap, ◌∙◌, arith, List, [], ◌∷◌, ◌++◌, append_assoc, append-nil,
  length, take, All, Bytes,
}
use camera_player.Rtp.Packet.{RtpPacket, NalFrame}
use camera_player.Rtp.H264.Fragments.{fragments, full_fragments, packets, send_each}
use camera_player.Rtp.RawH264.{NalData, NalUnit, RawH264NalSource, has_more_data, read_next_frame}
use camera_player.Rtp.RawH264.Frames.{units_from, frame_units}
use camera_player.Rtsp.Session.{RtspSession}
use camera_player.Rtsp.Session.Media.{push, feed_read, feed_next_nal_frame}

-- A unit that `HandleFrame` can cut: below 2 ^ 32 - 1 bytes.
abbrev pub IsSmall : Bytes → Type 0
IsSmall bytes = length bytes < 2 ^ 32 - 1

pub send_each-push : (ps q : List RtpPacket) → send_each (some push) ps q ≡ (true, q ++ ps)
send_each-push [] q = ap (λ l. (true, l)) (sym (append-nil q))
send_each-push (p ∷ ps) q =
    send_each-push ps (q ++ p ∷ []) ∙ ap (λ l. (true, l)) (append_assoc q (p ∷ []) ps)

fragments-nonempty :
    (n : ℕ) (memory : ℕ → Bytes) (kind timestamp i fu0 fu1 : ℕ) (buf : Bytes) (size : ℕ)
    → 1 ≤ length (fragments n memory kind timestamp i fu0 fu1 buf size)
fragments-nonempty zero memory kind timestamp i fu0 fu1 buf size = omega arith
fragments-nonempty (suc n) memory kind timestamp i fu0 fu1 buf size = omega arith

pub packets-nonempty :
    (memory : ℕ → Bytes) (now : ℕ) (frame : NalFrame) → 1 ≤ length (packets memory now frame)
packets-nonempty memory now frame =
    if_cases (λ (ps : List RtpPacket). 1 ≤ length ps) (leb frame.size 1420) (λ e. omega arith)
      (λ e. fragments-nonempty (full_fragments (frame.size - 1)) memory frame.kind _ 0 _ _ _ _)

-- The units of a frame are as small as those of the file.
pub All-take :
    (k : ℕ) (ns : List NalData)
    → All (λ (n : NalData). IsSmall n.bytes) ns
    → All (λ (n : NalData). IsSmall n.bytes) (take k ns)
All-take zero ns h = _
All-take (suc k) [] h = _
All-take (suc k) (n ∷ ns) (l, h) = (l, All-take k ns h)

units_from-All :
    (i : ℕ) (ns : List NalData)
    → All (λ (n : NalData). IsSmall n.bytes) ns
    → All (λ (u : NalUnit). IsSmall u.bytes) (units_from i ns)
units_from-All i [] h = _
units_from-All i (n ∷ ns) (l, h) =
    if_cases (All (λ (u : NalUnit). IsSmall u.bytes)) (n.nal_type == 9)
      (λ e. units_from-All (i + 1) ns h) (λ e. (l, units_from-All (i + 1) ns h))

pub frame_units-All :
    (i : ℕ) (ns : List NalData)
    → All (λ (n : NalData). IsSmall n.bytes) ns
    → All (λ (u : NalUnit). IsSmall u.bytes) (frame_units i ns)
frame_units-All i [] h = _
frame_units-All i (n ∷ ns) (l, h) = (l, units_from-All (i + 1) ns h)

pub frame_units-nonempty :
    (i : ℕ) (ns : List NalData) → 1 ≤ length ns → 1 ≤ length (frame_units i ns)
frame_units-nonempty i [] h = h
frame_units-nonempty i (n ∷ ns) h = omega arith

-- A source with no more data reads nothing.
pub read_next_frame-none :
    (n : RawH264NalSource)
    → has_more_data n ≡ false
    → read_next_frame n ≡ (none, record n { eof_reached = true })
unfolding read_next_frame
read_next_frame-none n h =
    let g : (not n.is_opened || n.eof_reached || leb (length n.cached_nals) n.nal_index) ≡ true =
      ground arith in
    rw g refl

pub feed_next_nal_frame-read :
    (memory : ℕ → ℕ → Bytes) (now : ℕ) (s : RtspSession) (n : RawH264NalSource)
    → s.nal_source ≡ some n
    → s.has_h264_source ≡ true
    → feed_next_nal_frame memory now s ≡ feed_read memory now (read_next_frame n) s
unfolding feed_next_nal_frame
feed_next_nal_frame-read memory now s n e h =
    let fed = feed_read memory now (read_next_frame n) s in
    ap
      (λ o. elim o as (λ x. Option RtspSession) [
        | none ↦ some s
        | some m ↦
            if not s.has_h264_source then some s else feed_read memory now (read_next_frame m) s
      ])
      e
    ∙ ap (λ b. if not b then some s else fed) h
