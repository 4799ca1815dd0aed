-- ===== src/Rtsp/Session/Frames.antt =====
-- Which packets `FeedNextNALFrame` makes: those of one frame of the file, which is read in a circle.
use camera_player.Prelude.{
  ℕ, ◌+◌, ◌*◌, ◌/◌, ◌%◌, ◌^◌, ◌≤◌, true, false, if◌then◌else◌, Bool-cases, inl, inr, Option, none,
  some, ◌≡◌, refl, sym, ap, ◌∙◌, arith, List, [], ◌∷◌, ◌++◌, append_assoc, append-nil, length,
  length-append, take, drop, length-drop, length-take, All, All-drop, Bytes,
}
use camera_player.Rtp.Packet.{RtpPacket}
use camera_player.Rtp.H264.{handle_frame}
use camera_player.Rtp.H264.Fragments.{packets, handle_frame-send_each}
use camera_player.Rtp.RawH264.{NalData, NalUnit, RawH264NalSource, has_more_data, read_next_frame}
use camera_player.Rtp.RawH264.Frames.{frame_units, IsFrame, read_next_frame-IsFrame}
use camera_player.Rtsp.Session.{RtspSession}
use camera_player.Rtsp.Session.Media.{
  push, nal_frame, feed_units, feed_frame, frame_timestamp, feed_read, feed_again,
  feed_next_nal_frame, pop_packet, produce_next_packet,
}
use camera_player.Rtsp.Session.Production.{
  IsSmall, send_each-push, packets-nonempty, All-take, frame_units-All, frame_units-nonempty,
  read_next_frame-none, feed_next_nal_frame-read,
}

-- Where the file is read: at its front again, once it is at its end. The frames are counted anew then.
abbrev pub reading : RawH264NalSource → RawH264NalSource
reading n = if has_more_data n then n else record n { nal_index = 0; eof_reached = false }

abbrev pub frames_read : RawH264NalSource → ℕ → ℕ
frames_read n count = if has_more_data n then count else 0

-- The packets of some units, with the timestamp of their frame.
abbrev pub units_packets : (ℕ → ℕ → Bytes) → ℕ → ℕ → ℕ → List NalUnit → List RtpPacket
units_packets memory now timestamp i [] = []
units_packets memory now timestamp i (u ∷ us) =
    packets (memory i) now (nal_frame timestamp u) ++ units_packets memory now timestamp (i + 1) us

feed_units-packets :
    (memory : ℕ → ℕ → Bytes) (now ts i : ℕ) (us : List NalUnit) (q : List RtpPacket)
    → All (λ (u : NalUnit). IsSmall u.bytes) us
    → feed_units memory now ts i us q ≡ some (q ++ units_packets memory now ts i us)
unfolding feed_units
feed_units-packets memory now ts i [] q h = ap some (sym (append-nil q))
feed_units-packets memory now ts i (u ∷ us) q (l, h) =
    let ps = packets (memory i) now (nal_frame ts u) in
    let sent : handle_frame (some push) (memory i) now (nal_frame ts u) q ≡ some (true, q ++ ps) =
      handle_frame-send_each (some push) (memory i) now (nal_frame ts u) q l
      ∙ ap some (send_each-push ps q) in
    rw (feed_units, sent)
      (feed_units-packets memory now ts (i + 1) us (q ++ ps) h ∙ ap some (append_assoc q ps _))

units_packets-nonempty :
    (memory : ℕ → ℕ → Bytes) (now ts i : ℕ) (us : List NalUnit)
    → 1 ≤ length us
    → 1 ≤ length (units_packets memory now ts i us)
units_packets-nonempty memory now ts i [] h = h
units_packets-nonempty memory now ts i (u ∷ us) h =
    let ps = packets (memory i) now (nal_frame ts u) in
    omega (
      arith,
      packets-nonempty (memory i) now (nal_frame ts u),
      length-append ps (units_packets memory now ts (i + 1) us),
    )

-- What comes of reading a frame: its packets, the first of which is taken, with the source behind it.
pub record IsProduced (memory : ℕ → ℕ → Bytes) (now : ℕ) (s : RtspSession) (n : RawH264NalSource)
    (count : ℕ) (r : Option (Option RtpPacket × RtspSession)) : Type 0 where
  pub is_frame : IsFrame n (read_next_frame n)
  pub packet : RtpPacket
  pub after : RtspSession
  pub result : r ≡ some (some packet, after)
  pub source : after.nal_source ≡ some (record n { nal_index = n.nal_index + is_frame.k })
  pub all_packets :
      packet ∷ after.packet_queue
      ≡ units_packets memory now
          ((s.context.rtp_timestamp + count * (90000 / s.nal_frame_rate)) % 2 ^ 32)
          0
          (frame_units n.nal_index (take is_frame.k (drop n.nal_index n.cached_nals)))
  pub counted : after.frame_index ≡ (count + 1) % 2 ^ 32

-- The frame is fed, and its first packet taken.
abbrev pop_fed : Option RtspSession → Option (Option RtpPacket × RtspSession)
pop_fed o = elim o [ none ↦ none | some t ↦ some (pop_packet t) ]

popped_first :
    (t : RtspSession) (q : List RtpPacket)
    → t.packet_queue ≡ q
    → 1 ≤ length q
    → (p : RtpPacket) × (ps : List RtpPacket) × (pop_packet t
        ≡ (some p, record t { packet_queue = ps }))
      × (p ∷ ps ≡ q)
popped_first t [] e h = absurd (omega arith)
popped_first t (p ∷ ps) e h = (p, ps, rw (pop_packet, e) refl, refl)

frame-IsProduced :
    (memory : ℕ → ℕ → Bytes) (now : ℕ) (s : RtspSession) (n : RawH264NalSource) (count : ℕ)
    (r : Option (Option RtpPacket × RtspSession))
    → s.packet_queue ≡ []
    → has_more_data n ≡ true
    → All (λ (x : NalData). IsSmall x.bytes) n.cached_nals
    → ((units : List NalUnit) (m : RawH264NalSource)
        → read_next_frame n ≡ (some units, m)
        → r
          ≡ pop_fed
              (feed_frame memory now units (record s { nal_source = some m; frame_index = count })))
    → IsProduced memory now s n count r
frame-IsProduced memory now s n count r empty more small fed =
    let f = read_next_frame-IsFrame n more in
    let taken = take f.k (drop n.nal_index n.cached_nals) in
    let units = frame_units n.nal_index taken in
    let m = record n { nal_index = n.nal_index + f.k } in
    let read : read_next_frame n ≡ (some units, m) =
      ap (λ u. (u, (read_next_frame n).1)) f.frame ∙ ap (λ t. (some units, t)) f.behind in
    let s' = record s { nal_source = some m; frame_index = count } in
    let ps = units_packets memory now (frame_timestamp s') 0 units in
    let some_unit = frame_units-nonempty n.nal_index taken (
      omega (
        arith,
        f.progress,
        f.within,
        length-take f.k (drop n.nal_index n.cached_nals),
        length-drop n.nal_index n.cached_nals,
      )) in
    let all_small = frame_units-All n.nal_index taken (
      All-take f.k (drop n.nal_index n.cached_nals)
        (All-drop (λ (x : NalData). IsSmall x.bytes) n.nal_index n.cached_nals small)) in
    let t = record s' { packet_queue = ps; frame_index = (count + 1) % 2 ^ 32 } in
    let queued : feed_units memory now (frame_timestamp s') 0 units s.packet_queue ≡ some ps =
      feed_units-packets memory now (frame_timestamp s') 0 units s.packet_queue all_small
      ∙ ap (λ q. some (q ++ ps)) empty in
    let frame_fed : feed_frame memory now units s' ≡ some t = rw (feed_frame, queued) refl in
    let (p, rest, popped, whole) =
      popped_first t ps refl
        (units_packets-nonempty memory now (frame_timestamp s') 0 units some_unit) in
    record {
      is_frame = f;
      packet = p;
      after = record t { packet_queue = rest };
      result = fed units m read ∙ ap pop_fed frame_fed ∙ ap some popped;
      source = refl;
      all_packets = whole;
      counted = refl;
    }

produce-empty :
    (memory : ℕ → ℕ → Bytes) (now : ℕ) (s : RtspSession) (n : RawH264NalSource)
    → s.nal_source ≡ some n
    → s.has_h264_source ≡ true
    → s.packet_queue ≡ []
    → produce_next_packet memory now s ≡ pop_fed (feed_read memory now (read_next_frame n) s)
unfolding produce_next_packet
produce-empty memory now s n e h empty =
    let asked : produce_next_packet memory now s ≡ pop_fed (feed_next_nal_frame memory now s) =
      ap
        (λ q. elim q as (λ x. Option (Option RtpPacket × RtspSession)) [
          | [] ↦ pop_fed (feed_next_nal_frame memory now s)
          | p ∷ ps ↦ some (some p, record s { packet_queue = ps })
        ])
        empty in
    asked ∙ ap pop_fed (feed_next_nal_frame-read memory now s n e h)

-- A session with no packet in its queue, an H.264 source and an opened file of at least one unit, each of
-- fewer than 2 ^ 32 - 1 bytes, produces a packet: it reads one frame of the file, from the index, or from
-- the front and with the count of frames at 0 again where the file is at its end; the packet and those in
-- the queue behind it are the packets of all units of that frame in order, with the frame's timestamp; and
-- the source is left behind the frame, which is counted.
pub produce_next_packet-IsProduced :
    (memory : ℕ → ℕ → Bytes) (now : ℕ) (s : RtspSession) (n : RawH264NalSource)
    → s.nal_source ≡ some n
    → s.has_h264_source ≡ true
    → s.packet_queue ≡ []
    → n.is_opened ≡ true
    → 1 ≤ length n.cached_nals
    → All (λ (x : NalData). IsSmall x.bytes) n.cached_nals
    → IsProduced memory now s
        (reading n)
        (frames_read n s.frame_index)
        (produce_next_packet memory now s)
produce_next_packet-IsProduced memory now s n e h empty o g l =
    let start = produce-empty memory now s n e h empty in
    elim (Bool-cases (has_more_data n)) [
      | inl more ↦ rw more (
          frame-IsProduced memory now s n s.frame_index _ empty more l
            (λ units m read. start ∙ ap (λ r. pop_fed (feed_read memory now r s)) read))
      | inr over ↦
          let front = record n { nal_index = 0; eof_reached = false } in
          rw over (
            frame-IsProduced memory now s front 0 _ empty (ground arith) l (λ units m read.
              start
              ∙ ap (λ r. pop_fed (feed_read memory now r s)) (read_next_frame-none n over)
              ∙ ap (λ r. pop_fed (feed_again memory now r s)) read))
    ]
