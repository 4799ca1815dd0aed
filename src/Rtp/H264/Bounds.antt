-- ===== src/Rtp/H264/Bounds.antt =====
-- What the packets of a frame have in common: they stay within their arrays, they have the frame's
-- timestamp, and the last one is marked.
use camera_player.Prelude.{
  ℕ, zero, suc, ◌+◌, ◌-◌, ◌*◌, ◌≤◌, ◌<◌, bit_and, bit_or, leb, Bool-cases, inl, inr, ◌≡◌, refl, ◌∙◌,
  arith, List, [], ◌∷◌, All, take, drop, length, length-take, length-drop, get_or, Bytes,
}
use camera_player.Rtp.Packet.{RtpPacket, NalFrame, write_at, packet_capacity, length-write_at}
use camera_player.Rtp.H264.{fu_indicator, fu_header}
use camera_player.Rtp.H264.Fragments.{fragments, full_fragments, stamp, packets}

-- A packet has a payload, stays within its array and within 1420 bytes of payload, and has the
-- timestamp.
pub record IsSendable (timestamp : ℕ) (p : RtpPacket) : Type 0 where
  pub whole_array : length p.bytes ≡ packet_capacity
  pub not_empty : 16 < p.size
  pub payload_fits : p.size ≤ 16 + 1420
  pub same_timestamp : p.timestamp ≡ timestamp

-- The last packet is marked, and no other one is.
abbrev pub MarksLast : List RtpPacket → Type 0
MarksLast [] = ⊥
MarksLast (p ∷ []) = p.last ≡ 1
MarksLast (p ∷ q ∷ ps) = (p.last ≡ 0) × MarksLast (q ∷ ps)

two_writes :
    (fu0 fu1 : ℕ) (body memory : Bytes)
    → length memory ≡ packet_capacity
    → length body ≤ 1418
    → length (write_at 18 body (write_at 16 (fu0 ∷ fu1 ∷ []) memory)) ≡ packet_capacity
two_writes fu0 fu1 body memory hm hb =
    let first = length-write_at 16 (fu0 ∷ fu1 ∷ []) memory (omega arith) in
    length-write_at 18 body (write_at 16 (fu0 ∷ fu1 ∷ []) memory) (omega (arith, first, hm))
    ∙ first
    ∙ hm

fragments-IsSendable :
    (n : ℕ) (memory : ℕ → Bytes) (kind timestamp i fu0 fu1 : ℕ) (buf : Bytes) (size : ℕ)
    → ((j : ℕ) → length (memory j) ≡ packet_capacity)
    → size ≤ length buf
    → 1418 * n < size
    → size ≤ 1418 * n + 1418
    → All (IsSendable timestamp) (fragments n memory kind timestamp i fu0 fu1 buf size)
fragments-IsSendable zero memory kind timestamp i fu0 fu1 buf size hm l lo hi = (
  record {
    whole_array =
        two_writes fu0 (bit_or fu1 0x40) (take size buf) (memory i) (hm i)
          (omega (arith, length-take size buf));
    not_empty = omega arith;
    payload_fits = omega arith;
    same_timestamp = refl;
  },
  _,
)
fragments-IsSendable (suc n) memory kind timestamp i fu0 fu1 buf size hm l lo hi = (
  record {
    whole_array =
        two_writes fu0 fu1 (take 1418 buf) (memory i) (hm i) (omega (arith, length-take 1418 buf));
    not_empty = omega arith;
    payload_fits = omega arith;
    same_timestamp = refl;
  },
  fragments-IsSendable n memory kind timestamp (i + 1) fu0 (bit_and fu1 0x7F) (drop 1418 buf)
      (size - 1418) hm (omega (arith, length-drop 1418 buf)) (omega arith) (omega arith),
)

fragments-MarksLast :
    (n : ℕ) (memory : ℕ → Bytes) (kind timestamp i fu0 fu1 : ℕ) (buf : Bytes) (size : ℕ)
    → MarksLast (fragments n memory kind timestamp i fu0 fu1 buf size)
fragments-MarksLast zero memory kind timestamp i fu0 fu1 buf size = refl
fragments-MarksLast (suc zero) memory kind timestamp i fu0 fu1 buf size = (refl, refl)
fragments-MarksLast (suc (suc n)) memory kind timestamp i fu0 fu1 buf size = (
  refl,
  fragments-MarksLast (suc n) memory kind timestamp (i + 1) fu0 (bit_and fu1 0x7F) (drop 1418 buf)
      (size - 1418),
)

-- Each packet of a frame that has bytes and lies within its buffer has a payload of at most 1420
-- bytes, is written within its array of 1600, and has the timestamp of the frame, or the time
-- where that is 0. The last packet is marked, and no other.
pub packets-IsSendable :
    (memory : ℕ → Bytes) (now : ℕ) (frame : NalFrame)
    → ((j : ℕ) → length (memory j) ≡ packet_capacity)
    → 0 < frame.size
    → frame.size ≤ length frame.buffer
    → All (IsSendable (stamp now frame)) (packets memory now frame)
      × MarksLast (packets memory now frame)
packets-IsSendable memory now frame hm hp hl = elim (Bool-cases (leb frame.size 1420)) [
  | inl e ↦
      let small : frame.size ≤ 1420 = ground arith in
      rw e (
        (
          record {
            whole_array =
                length-write_at 16 (take frame.size frame.buffer) (memory 0)
                  (omega (arith, hm 0, length-take frame.size frame.buffer))
                ∙ hm 0;
            not_empty = omega arith;
            payload_fits = omega arith;
            same_timestamp = refl;
          },
          _,
        ),
        refl,
      )
  | inr e ↦
      let large : 1420 < frame.size = ground arith in
      rw e (
        fragments-IsSendable (full_fragments (frame.size - 1)) memory frame.kind (stamp now frame) 0
            (fu_indicator (get_or frame.buffer 0 0)) (fu_header (get_or frame.buffer 0 0))
            (drop 1 frame.buffer) (frame.size - 1) hm (omega (arith, length-drop 1 frame.buffer))
            (omega arith) (omega arith),
        fragments-MarksLast (full_fragments (frame.size - 1)) memory frame.kind (stamp now frame) 0
            (fu_indicator (get_or frame.buffer 0 0)) (fu_header (get_or frame.buffer 0 0))
            (drop 1 frame.buffer) (frame.size - 1),
      )
]
