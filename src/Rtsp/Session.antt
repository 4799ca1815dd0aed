-- ===== src/Rtsp/Session.antt =====
-- `RtspSession` of include/ai-camera/rtsp/rtspsession.h and src/rtsp/rtspsession.cpp: the requests of
-- a client and the state they drive. `Setup` has `HandleSetup`, `Requests` what dispatches.
pub mod Setup
pub mod Requests
pub mod Consistent
pub mod Keeping
pub mod Reachable
pub mod Transitions
pub mod Answers
pub mod Media
pub mod Channels
pub mod Production
pub mod Frames
mod Examples
use camera_player.Prelude.{
  ℕ, zero, suc, ◌+◌, ◌*◌, ◌/◌, ◌%◌, ◌^◌, Bool, true, false, not, ◌&&◌, ◌==◌, if◌then◌else◌, Option,
  none, some, List, [], ◌∷◌, ◌++◌, length, Bytes, codes,
}
use camera_player.Prelude.Text.{insert, is_empty_text}
use camera_player.Prelude.Numbers.{ℤ, pos, to_decimal}
use camera_player.Rtp.Packet.{RtpPacket, write_at, rtp_header_size}
use camera_player.Rtp.RawH264.{RawH264NalSource, has_more_data, reset_source}
use camera_player.Rtsp.Protocol.{RtspResponse, RtpSource, generate_sdp}

-- `enum class RtspState`.
pub data RtspState : Type 0 where
  init ready playing paused torn_down : RtspState

abbrev pub is_ready : RtspState → Bool
is_ready ready = true
is_ready _ = false

abbrev pub is_playing : RtspState → Bool
is_playing playing = true
is_playing _ = false

-- `enum class TransportMode`.
pub data TransportMode : Type 0 where
  rtp_over_tcp rtp_over_udp rtp_over_multicast : TransportMode

pub record RtspContext : Type 0 where
  pub session_id : Bytes
  pub state : RtspState
  pub cseq : Bytes
  pub url : Bytes
  pub client_rtp_port : ℕ
  pub client_rtcp_port : ℕ
  pub rtp_timestamp : ℕ
  pub rtp_seq_num : ℕ
  pub mode : TransportMode
  pub rtp_channel : ℤ
  pub rtcp_channel : ℤ

-- What the session sets on its RTP transport: the two channels or ports, the frame rate, whether it
-- plays, and the packets of parameter sets that it was given to send.
pub record RtpTransport : Type 0 where
  pub over : TransportMode
  pub rtp_port : ℕ
  pub rtcp_port : ℕ
  pub frame_rate : ℕ
  pub is_playing : Bool
  pub sent_sets : List RtpPacket

pub record RtspSession : Type 0 where
  pub context : RtspContext
  pub rtp_transport : Option RtpTransport
  pub media_sources : List (Option RtpSource)
  pub nal_source : Option RawH264NalSource
  pub nal_frame_rate : ℕ
  pub has_h264_source : Bool
  pub packet_queue : List RtpPacket
  pub real_sps : Bytes
  pub real_pps : Bytes
  pub frame_index : ℕ
  pub read_buffer : Bytes
  pub sent : List Bytes

-- What the base class, asio, the clock and `std::rand` answer, the array of a new packet, and what the
-- memory of a new transport holds where `is_playing` is.
pub record Environment : Type 0 where
  pub own_session_id : Bytes
  pub local_address : Bytes
  pub local_port : ℕ
  pub millis : ℕ
  pub random : ℕ
  pub memory : Bytes
  pub playing_memory : Bool

-- The member initialisers.
abbrev pub new_session : RtspSession
new_session = record {
  context = record {
    session_id = [];
    state = init;
    cseq = [];
    url = [];
    client_rtp_port = 0;
    client_rtcp_port = 0;
    rtp_timestamp = 0;
    rtp_seq_num = 0;
    mode = rtp_over_tcp;
    rtp_channel = pos 0;
    rtcp_channel = pos 1;
  };
  rtp_transport = none;
  media_sources = [];
  nal_source = none;
  nal_frame_rate = 25;
  has_h264_source = false;
  packet_queue = [];
  real_sps = [];
  real_pps = [];
  frame_index = 0;
  read_buffer = [];
  sent = [];
}

-- A response of a status, with no headers and no body.
abbrev pub plain_response : ℕ → Bytes → RtspResponse
plain_response status_code status_reason = record {
  status_code = status_code;
  status_reason = status_reason;
  headers = [];
  body = [];
  content_type = codes "application/sdp";
}

abbrev pub bad_request : RtspResponse
bad_request = plain_response 400 (codes "Bad Request")

abbrev pub with_header : Bytes → Bytes → RtspResponse → RtspResponse
with_header k v r = record r { headers = insert k v r.headers }

-- 200, with the session's id.
abbrev pub session_ok : RtspSession → RtspResponse
session_ok s = with_header (codes "Session") s.context.session_id (plain_response 200 (codes "OK"))

abbrev pub set_state : RtspState → RtspSession → RtspSession
set_state state s = record s { context = record s.context { state = state } }

-- The session has an id from `DESCRIBE` or `SETUP` on.
abbrev pub ensure_session_id : Environment → RtspSession → RtspSession
ensure_session_id env s =
    if is_empty_text s.context.session_id
    then record s { context = record s.context { session_id = env.own_session_id } }
    else s

-- `SetPlaying` on the transport, if there is one.
abbrev pub set_playing : Bool → RtspSession → RtspSession
set_playing on s = elim s.rtp_transport [
  | none ↦ s
  | some t ↦ record s { rtp_transport = some (record t { is_playing = on }) }
]

-- `HandleOptions`.
abbrev pub handle_options : RtspSession → RtspResponse
handle_options s =
    with_header (codes "Public")
      (codes "OPTIONS, DESCRIBE, SETUP, PLAY, TEARDOWN, PAUSE, GET_PARAMETER, SET_PARAMETER")
      (plain_response 200 (codes "OK"))

-- `HandleDescribe`.
unfoldable pub handle_describe : Environment → RtspSession → RtspResponse × RtspSession
handle_describe env s =
    let s' = ensure_session_id env s in
    (
      record (plain_response 200 (codes "OK")) {
        body = generate_sdp env.local_address s'.context.session_id s'.media_sources;
      },
      s',
    )

-- One packet of `SendSpsPps`: the unit stands behind the 12 bytes of the header.
abbrev pub set_packet : Environment → ℕ → Bytes → RtpPacket
set_packet env timestamp nal = record {
  bytes = write_at rtp_header_size nal env.memory;
  size = rtp_header_size + length nal;
  timestamp = timestamp;
  kind = 0;
  last = 1;
}

abbrev pub set_packets : Environment → ℕ → Bytes → List RtpPacket
set_packets env timestamp [] = []
set_packets env timestamp (b ∷ bs) = set_packet env timestamp (b ∷ bs) ∷ []

-- `SendSpsPps`.
abbrev pub send_sps_pps : Environment → RtspSession → RtpTransport → RtpTransport
send_sps_pps env s t = record t {
  sent_sets =
      t.sent_sets
      ++ (set_packets env s.context.rtp_timestamp s.real_sps
          ++ set_packets env s.context.rtp_timestamp s.real_pps);
}

-- A time and a sequence number are drawn when there is no time yet.
abbrev pub stamp_context : Environment → RtspContext → RtspContext
stamp_context env c =
    if c.rtp_timestamp == 0
    then record c {
      rtp_timestamp = (env.millis % 864000000 * 90 / 1000) % 2 ^ 32;
      rtp_seq_num = env.random % 65536;
    }
    else c

abbrev pub rewind : Option RawH264NalSource → Option RawH264NalSource
rewind none = none
rewind (some n) = some (if has_more_data n then reset_source n else n)

-- `SetFrameRate` of the transport.
abbrev pub set_frame_rate : ℕ → RtpTransport → RtpTransport
set_frame_rate fps t = record t { frame_rate = if fps == 0 then 25 else fps }

-- What `HandlePlay` does with the transport.
abbrev pub start_transport : Environment → RtspSession → RtspSession
start_transport env s = elim s.rtp_transport [
  | none ↦ s
  | some t ↦
      (let s' = record s {
        has_h264_source = true;
        nal_source = rewind s.nal_source;
        frame_index = 0;
      } in
        let t' = set_frame_rate (elim s.nal_source [ none ↦ 25 | some n ↦ s.nal_frame_rate ]) t in
        record s' { rtp_transport = some (record (send_sps_pps env s' t') { is_playing = true }) })
]

abbrev pub rtp_info : RtspContext → Bytes
rtp_info c =
    codes "url="
    ++ (c.url
        ++ (codes ";seq="
            ++ (to_decimal c.rtp_seq_num ++ (codes ";rtptime=" ++ to_decimal c.rtp_timestamp))))

-- `HandlePlay`.
unfoldable pub handle_play : Environment → RtspSession → RtspResponse × RtspSession
handle_play env s =
    if not (is_ready s.context.state)
    then (bad_request, s)
    else (let s' = record s {
      context = stamp_context env (record s.context { state = playing });
    } in
        (
          with_header (codes "RTP-Info") (rtp_info s'.context) (session_ok s'),
          start_transport env s',
        ))

-- `HandleTeardown`.
unfoldable pub handle_teardown : RtspSession → RtspResponse × RtspSession
handle_teardown s = (session_ok s, set_playing false (set_state torn_down s))

-- `HandlePause`.
unfoldable pub handle_pause : RtspSession → RtspResponse × RtspSession
handle_pause s =
    if not (is_playing s.context.state)
    then (bad_request, s)
    else (session_ok s, set_playing false (set_state paused s))
