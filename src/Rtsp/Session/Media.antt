-- ===== src/Rtsp/Session/Media.antt =====
-- The video of a session: `LoadVideoFile`, `FeedNextNALFrame` and `ProduceNextPacket`, with the queue
-- `RtpPacketQueue`, and what `H264Source` says of itself.
use camera_player.Prelude.{
  ℕ, ◌+◌, ◌*◌, ◌/◌, ◌%◌, ◌^◌, Bool, true, false, not, ◌==◌, if◌then◌else◌, Option, none, some, List,
  [], ◌∷◌, ◌++◌, length, Bytes,
}
use camera_player.Rtp.Packet.{RtpPacket, NalFrame}
use camera_player.Rtp.H264.{handle_frame}
use camera_player.Rtp.H264.Description.{H264Source, get_media_description, get_attribute}
use camera_player.Rtp.RawH264.{
  NalUnit, RawH264NalSource, closed_source, open_source, read_next_frame, reset_source,
}
use camera_player.Rtsp.Protocol.{RtpSource}
use camera_player.Rtsp.Session.{RtspSession}

-- `GetMediaDescription(0)` and `GetAttribute` of `H264Source`.
abbrev pub h264_media : ℕ → ℕ → RtpSource
h264_media payload clock_rate =
    let source : H264Source = record { payload = payload; clock_rate = clock_rate } in
    record { media_description = get_media_description 0 source; attribute = get_attribute source }

-- The last parameter sets of the first frame.
abbrev pub sets_of : List NalUnit → Bytes × Bytes → Bytes × Bytes
sets_of [] sets = sets
sets_of (u ∷ us) (sps, pps) =
    sets_of us
      (if u.kind == 7 then (u.bytes, pps) else if u.kind == 8 then (sps, u.bytes) else (sps, pps))

-- The parameter sets of the file, and the source behind it: rewound if it had a frame.
abbrev pub take_sets : Option (List NalUnit) × RawH264NalSource → (Bytes × Bytes) × RawH264NalSource
take_sets (none, n) = (([], []), n)
take_sets (some units, n) = (sets_of units ([], []), reset_source n)

abbrev pub use_source : RawH264NalSource → RtspSession → RtspSession
use_source n s =
    let ((sps, pps), n') = take_sets (read_next_frame n) in
    record s {
      nal_source = some n';
      nal_frame_rate = 25;
      has_h264_source = true;
      real_sps = sps;
      real_pps = pps;
      media_sources = some (h264_media 96 90000) ∷ [];
    }

-- `LoadVideoFile`, with what the file has.
unfoldable pub load_video_file : Bytes → RtspSession → Option RtspSession
load_video_file file s = elim (open_source file closed_source) [
  | none ↦ none
  | some (true, n) ↦ some (use_source n s)
  | some (false, n) ↦ some (record s { nal_source = none })
]

-- `RtpPacketQueue`: `Push`, as the callback of the H.264 source, and `Pop`.
abbrev pub push : RtpPacket → List RtpPacket → Bool × List RtpPacket
push p queue = (true, queue ++ p ∷ [])

abbrev pub pop_packet : RtspSession → Option RtpPacket × RtspSession
pop_packet s = elim s.packet_queue [
  | [] ↦ (none, s)
  | p ∷ ps ↦ (some p, record s { packet_queue = ps })
]

-- The frame that a unit is handed to the H.264 source in.
abbrev pub nal_frame : ℕ → NalUnit → NalFrame
nal_frame timestamp u = record {
  buffer = u.bytes;
  size = length u.bytes;
  kind = if u.is_keyframe then 1 else 2;
  timestamp = timestamp;
}

-- The loop of `FeedNextNALFrame`: `memory i` is what the arrays of the packets of unit `i` hold.
unfoldable pub feed_units :
    (ℕ → ℕ → Bytes) → ℕ → ℕ → ℕ → List NalUnit → List RtpPacket → Option (List RtpPacket)
feed_units memory now timestamp i [] queue = some queue
feed_units memory now timestamp i (u ∷ us) queue =
    elim (handle_frame (some push) (memory i) now (nal_frame timestamp u) queue) [
      | none ↦ none
      | some (ok, queue') ↦ feed_units memory now timestamp (i + 1) us queue'
    ]

-- The frame that was read is fed, and counted.
abbrev pub frame_timestamp : RtspSession → ℕ
frame_timestamp s = (s.context.rtp_timestamp + s.frame_index * (90000 / s.nal_frame_rate)) % 2 ^ 32

abbrev pub feed_frame : (ℕ → ℕ → Bytes) → ℕ → List NalUnit → RtspSession → Option RtspSession
feed_frame memory now units s =
    elim (feed_units memory now (frame_timestamp s) 0 units s.packet_queue) [
      | none ↦ none
      | some queue ↦
          some (record s { packet_queue = queue; frame_index = (s.frame_index + 1) % 2 ^ 32 })
    ]

-- The file is read again from its front.
abbrev pub feed_again :
    (ℕ → ℕ → Bytes)
    → ℕ
    → Option (List NalUnit) × RawH264NalSource
    → RtspSession
    → Option RtspSession
feed_again memory now (none, n) s = some (record s { nal_source = some n; frame_index = 0 })
feed_again memory now (some units, n) s =
    feed_frame memory now units (record s { nal_source = some n; frame_index = 0 })

abbrev pub feed_read :
    (ℕ → ℕ → Bytes)
    → ℕ
    → Option (List NalUnit) × RawH264NalSource
    → RtspSession
    → Option RtspSession
feed_read memory now (none, n) s = feed_again memory now (read_next_frame (reset_source n)) s
feed_read memory now (some units, n) s =
    feed_frame memory now units (record s { nal_source = some n })

-- `FeedNextNALFrame`.
unfoldable pub feed_next_nal_frame : (ℕ → ℕ → Bytes) → ℕ → RtspSession → Option RtspSession
unfolding feed_units
feed_next_nal_frame memory now s = elim s.nal_source [
  | none ↦ some s
  | some n ↦
      (let fed = feed_read memory now (read_next_frame n) s in
        if not s.has_h264_source then some s else fed)
]

-- `ProduceNextPacket`.
unfoldable pub produce_next_packet :
    (ℕ → ℕ → Bytes) → ℕ → RtspSession → Option (Option RtpPacket × RtspSession)
unfolding feed_next_nal_frame
produce_next_packet memory now s = elim s.packet_queue [
  | p ∷ ps ↦ some (some p, record s { packet_queue = ps })
  | [] ↦ elim (feed_next_nal_frame memory now s) [ none ↦ none | some t ↦ some (pop_packet t) ]
]
