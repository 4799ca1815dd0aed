-- ===== src/Rtp/H264/Fragments.antt =====
-- The packets of a frame as a list, and `HandleFrame` as the sending of that list.
use camera_player.Prelude.{
  ℕ, zero, suc, ◌+◌, ◌-◌, ◌*◌, ◌/◌, ◌%◌, ◌^◌, ◌≤◌, ◌<◌, bit_and, Bool, true, false, ltb, leb, ◌==◌,
  if◌then◌else◌, Bool-cases, inl, inr, Option, some, ◌≡◌, refl, sym, ap, arith, List, [], ◌∷◌, drop,
  get_or, Bytes,
}
use camera_player.Rtp.Packet.{RtpPacket, NalFrame}
use camera_player.Rtp.H264.{
  single_packet, fragment_packet, last_packet, fu_indicator, fu_header, send_packet, go_on,
  send_fragments, handle_frame,
}

-- The fragments, `n` full ones and the last one.
abbrev pub fragments : ℕ → (ℕ → Bytes) → ℕ → ℕ → ℕ → ℕ → ℕ → Bytes → ℕ → List RtpPacket
fragments zero memory kind timestamp i fu0 fu1 frame_buf frame_size =
    last_packet (memory i) kind timestamp fu0 fu1 frame_buf frame_size ∷ []
fragments (suc n) memory kind timestamp i fu0 fu1 frame_buf frame_size =
    fragment_packet (memory i) kind timestamp fu0 fu1 frame_buf
    ∷ fragments n memory kind timestamp (i + 1) fu0 (bit_and fu1 0x7F) (drop 1418 frame_buf)
        (frame_size - 1418)

-- How many full fragments come before the last one: so many that 1 to 1418 bytes are left.
abbrev pub full_fragments : ℕ → ℕ
full_fragments frame_size = (frame_size - 1) / 1418

abbrev pub stamp : ℕ → NalFrame → ℕ
stamp now frame = if frame.timestamp == 0 then now else frame.timestamp

-- The packets of a frame.
abbrev pub packets : (ℕ → Bytes) → ℕ → NalFrame → List RtpPacket
packets memory now frame =
    if leb frame.size 1420
    then single_packet (memory 0) frame (stamp now frame) ∷ []
    else fragments (full_fragments (frame.size - 1)) memory frame.kind (stamp now frame) 0
        (fu_indicator (get_or frame.buffer 0 0)) (fu_header (get_or frame.buffer 0 0))
        (drop 1 frame.buffer) (frame.size - 1)

module _ {State : Type 0} (callback : Option (RtpPacket → State → Bool × State)) where
  -- Packets are sent in order, up to the first one that the callback fails on.
  abbrev pub send_each : List RtpPacket → State → Bool × State
  send_each [] s = (true, s)
  send_each (p ∷ ps) s =
      let (ok, t) = send_packet callback p s in if ok then send_each ps t else (false, t)

  send_each-single : (p : RtpPacket) (s : State) → send_each (p ∷ []) s ≡ send_packet callback p s
  send_each-single p s = only (send_packet callback p s)
    where
      only : (r : Bool × State) → (if r.0 then (true, r.1) else (false, r.1)) ≡ r
      only (true, t) = refl
      only (false, t) = refl

  go_on-some :
      (r : Bool × State) (next : State → Option (Bool × State)) (rest : State → Bool × State)
      → ((t : State) → next t ≡ some (rest t))
      → go_on callback r next ≡ some (if r.0 then rest r.1 else (false, r.1))
  go_on-some (true, t) next rest k = k t
  go_on-some (false, t) next rest k = refl

  send_fragments-send_each :
      (fuel n : ℕ) (memory : ℕ → Bytes) (kind timestamp i fu0 fu1 : ℕ) (frame_buf : Bytes)
      (frame_size : ℕ) (s : State)
      → n < fuel
      → 1418 * n < frame_size
      → frame_size ≤ 1418 * n + 1418
      → frame_size + 2 < 2 ^ 32
      → send_fragments callback fuel memory kind timestamp i fu0 fu1 frame_buf frame_size s
        ≡ some (send_each (fragments n memory kind timestamp i fu0 fu1 frame_buf frame_size) s)
  unfolding send_fragments
  send_fragments-send_each zero n memory kind timestamp i fu0 fu1 buf size s l a b c =
      absurd (omega arith)
  send_fragments-send_each (suc fuel) zero memory kind timestamp i fu0 fu1 buf size s l a b c =
      let small : ltb 1420 ((size + 2) % 2 ^ 32) ≡ false = ground arith in
      rw small (ap some (sym (send_each-single _ s)))
  send_fragments-send_each (suc fuel) (suc n) memory kind timestamp i fu0 fu1 buf size s l a b c =
      let large : ltb 1420 ((size + 2) % 2 ^ 32) ≡ true = ground arith in
      rw large (
        go_on-some _ _ _ (λ t.
          send_fragments-send_each fuel n memory kind timestamp (i + 1) fu0 (bit_and fu1 0x7F)
            (drop 1418 buf) (size - 1418) t (omega arith) (omega arith) (omega arith)
            (omega arith)))

  -- `HandleFrame` ends on a frame of fewer than 2 ^ 32 - 1 bytes, and it sends the packets of the
  -- frame, in order and up to the first failure of the callback, which is its result.
  pub handle_frame-send_each :
      (memory : ℕ → Bytes) (now : ℕ) (frame : NalFrame) (s : State)
      → frame.size < 2 ^ 32 - 1
      → handle_frame callback memory now frame s ≡ some (send_each (packets memory now frame) s)
  unfolding handle_frame
  handle_frame-send_each memory now frame s h = elim (Bool-cases (leb frame.size 1420)) [
    | inl e ↦ rw e (ap some (sym (send_each-single _ s)))
    | inr e ↦ rw e (
        send_fragments-send_each frame.size (full_fragments (frame.size - 1)) memory frame.kind
          (stamp now frame) 0 (fu_indicator (get_or frame.buffer 0 0))
          (fu_header (get_or frame.buffer 0 0)) (drop 1 frame.buffer) (frame.size - 1) s
          (ground arith) (ground arith) (ground arith) (ground arith))
  ]
