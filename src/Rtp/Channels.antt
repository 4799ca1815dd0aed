-- ===== src/Rtp/Channels.antt =====
-- `AsioRtpTransport` of include/ai-camera/rtp/rtptransport.h and src/rtp/rtptransport.cpp, with
-- `MediaChannelInfo` of include/ai-camera/rtp/rtp.h: two channels, each with a timer that sends what
-- a frame provider gives.
--
-- What asio holds for a channel's timer is part of the channel: the interval it is armed with, and
-- the handlers that are ready to run, each with its error flag. The callbacks of one transport run one
-- at a time. `State` is the world behind the network and the frame providers.
pub mod Timer
pub mod Live
pub mod Playing
pub mod Machine
mod Examples
use camera_player.Prelude.{
  ℕ, ◌+◌, ◌*◌, ◌/◌, ◌%◌, ◌^◌, Bool, true, false, not, ◌&&◌, ◌||◌, ltb, ◌==◌, if◌then◌else◌, Option,
  none, some, List, [], ◌∷◌, ◌++◌, Bytes, bit_and, codes,
}
use camera_player.Prelude.Text.{c_string, is_empty_text, print_into}
use camera_player.Prelude.Numbers.{to_decimal}
use camera_player.Rtp.Packet.{RtpPacket}
use camera_player.Rtp.Transport.{MediaChannelInfo, fill_rtp_header, next_seq}
use camera_player.Rtp.Senders.{Sender, Sent, Endpoint, get_local_port, send}

-- The variant `transport_info`, which names the mode too.
pub data TransportInfo : Type 0 where
  tcp_info : ℕ → ℕ → TransportInfo
  udp_info : ℕ → ℕ → ℕ → ℕ → TransportInfo
  multicast_info : Bytes → ℕ → TransportInfo

module _ (State : Type 0) where
  abbrev pub FrameProvider : Type 0
  FrameProvider = State → Option RtpPacket × State

  -- A channel: its `MediaChannelInfo`, its provider, its frame rate and its loop. `armed` is the
  -- interval of the wait under way, `due` are the handlers that are ready.
  pub record Channel : Type 0 where
    pub info : MediaChannelInfo
    pub clock_rate : ℕ
    pub is_setup : Bool
    pub is_playing : Bool
    pub transport_info : TransportInfo
    pub provider : Option FrameProvider
    pub frame_rate : ℕ
    pub is_loop_running : Bool
    pub armed : Option ℕ
    pub due : List Bool

  pub record Transport : Type 0 where
    pub sender : Option Sender
    pub is_multicast : Bool
    pub is_closed : Bool
    pub channel_0 : Channel
    pub channel_1 : Channel

module _ {State : Type 0} where
  -- The constructor's channel. `MediaChannelInfo` has no initialisers for what is an argument here.
  abbrev pub new_channel : MediaChannelInfo → ℕ → Bool → Bool → Channel State
  new_channel info clock_rate is_setup is_playing = record {
    info = info;
    clock_rate = clock_rate;
    is_setup = is_setup;
    is_playing = is_playing;
    transport_info = tcp_info 0 1;
    provider = none;
    frame_rate = 25;
    is_loop_running = false;
    armed = none;
    due = [];
  }

  abbrev pub new_transport : Channel State → Channel State → Transport State
  new_transport c d = record {
    sender = none;
    is_multicast = false;
    is_closed = false;
    channel_0 = c;
    channel_1 = d;
  }

  -- `SetSender`.
  abbrev pub set_sender : Option Sender → Transport State → Transport State
  set_sender sender t = record t { sender = sender }

  -- A change of one channel; of an id that is out of range, none.
  abbrev pub update_channel :
      ℕ → (Channel State → Channel State) → Transport State → Transport State
  update_channel i f t =
      if i == 0
      then record t { channel_0 = f t.channel_0 }
      else if i == 1
      then record t { channel_1 = f t.channel_1 }
      else t

  abbrev pub get_channel : ℕ → Transport State → Option (Channel State)
  get_channel i t = if i == 0 then some t.channel_0 else if i == 1 then some t.channel_1 else none

  -- `SetClockRate`, `SetPayloadType` and `SetSsrc`.
  abbrev pub set_clock_rate : ℕ → ℕ → Transport State → Transport State
  set_clock_rate i clock_rate = update_channel i λ c. record c { clock_rate = clock_rate }

  abbrev pub set_payload_type : ℕ → ℕ → Transport State → Transport State
  set_payload_type i payload =
      update_channel i λ c. record c { info = record c.info { payload = bit_and payload 0x7F } }

  abbrev pub set_ssrc : ℕ → ℕ → Transport State → Transport State
  set_ssrc i ssrc = update_channel i λ c. record c { info = record c.info { ssrc = ssrc } }

  -- `IsSetup`.
  abbrev pub channel_is_setup : ℕ → Transport State → Bool
  channel_is_setup i t = elim (get_channel i t) [ none ↦ false | some c ↦ c.is_setup ]

  -- `SetTcpMode`, `SetUdpMode` and `SetMulticastMode`.
  abbrev pub set_mode : TransportInfo → Channel State → Channel State
  set_mode info c = record c { transport_info = info; is_setup = true }

  -- `SetRtpOverTcp`, with its result.
  abbrev pub set_rtp_over_tcp : ℕ → ℕ → ℕ → Transport State → Bool × Transport State
  set_rtp_over_tcp i rtp_channel rtcp_channel t =
      (ltb i 2, update_channel i (set_mode (tcp_info rtp_channel rtcp_channel)) t)

  -- `SetRtpOverUdp`, with the near end of the sender's socket.
  abbrev pub set_rtp_over_udp :
      Option Endpoint → ℕ → ℕ → ℕ → Transport State → Bool × Transport State
  set_rtp_over_udp local_end i peer_rtp_port peer_rtcp_port t = (
    ltb i 2,
    update_channel i
        (set_mode (
          udp_info (get_local_port local_end) ((get_local_port local_end + 1) % 2 ^ 16)
            peer_rtp_port peer_rtcp_port))
        t,
  )

  -- `SetRtpOverMulticast`.
  abbrev pub set_rtp_over_multicast : ℕ → Bytes → ℕ → Transport State → Bool × Transport State
  set_rtp_over_multicast i peer_ip peer_port t =
      if ltb i 2
      then (
        true,
        update_channel i (set_mode (multicast_info peer_ip peer_port))
            (record t { is_multicast = true }),
      )
      else (false, t)

  -- One part of `GetRtpInfo`, in a buffer of 256 bytes; `millis` is the steady clock.
  abbrev pub track_info : Bytes → ℕ → ℕ → Channel State → Bytes
  track_info rtsp_url millis i c = print_into 256 (
      codes "url="
      ++ (c_string rtsp_url
          ++ (codes "/track"
              ++ (to_decimal i
                  ++ (codes ";seq=0;rtptime="
                      ++ to_decimal (millis * c.clock_rate / 1000 % 2 ^ 32))))))

  -- One round of the loop of `GetRtpInfo`: a part is added behind a comma, unless it is the first.
  abbrev pub add_track : Bytes → ℕ → ℕ → Channel State → ℕ × Bytes → ℕ × Bytes
  add_track rtsp_url millis i c (num, rtp_info) =
      if c.is_setup
      then (
        num + 1,
        rtp_info ++ ((if num == 0 then [] else codes ",") ++ track_info rtsp_url millis i c),
      )
      else (num, rtp_info)

  -- `GetRtpInfo`.
  unfoldable pub get_rtp_info : Bytes → ℕ → Transport State → Bytes
  get_rtp_info rtsp_url millis t =
      let (num, rtp_info) =
        add_track rtsp_url millis 1 t.channel_1 (add_track rtsp_url millis 0 t.channel_0 (0, [])) in
      rtp_info

  -- `expires_after` and `async_wait`: the wait under way is cancelled, and its handler is ready with an
  -- error. The interval is in milliseconds.
  abbrev pub cancel_wait : Channel State → Channel State
  cancel_wait c = elim c.armed [
    | none ↦ c
    | some interval ↦ record c { armed = none; due = c.due ++ true ∷ [] }
  ]

  abbrev pub wait_for_frame : Channel State → Channel State
  wait_for_frame c = let c' = cancel_wait c in record c' { armed = some (1000 / c.frame_rate) }

  -- `StartEventLoop` and `StopEventLoop`.
  abbrev pub start_event_loop : Channel State → Channel State
  start_event_loop c =
      if c.is_loop_running then c else wait_for_frame (record c { is_loop_running = true })

  abbrev pub stop_event_loop : Channel State → Channel State
  stop_event_loop c = cancel_wait (record c { is_loop_running = false })

  -- `SetPlaying`.
  unfoldable pub play_channel : Bool → Channel State → Channel State
  play_channel playing c =
      if playing
      then (if c.is_playing then c else start_event_loop (record c { is_playing = true }))
      else if c.is_playing
      then stop_event_loop (record c { is_playing = false })
      else c

  abbrev pub set_playing : ℕ → Bool → Transport State → Transport State
  set_playing i playing = update_channel i (play_channel playing)

  -- `SetFrameRate`.
  abbrev pub set_frame_rate : ℕ → ℕ → Transport State → Transport State
  set_frame_rate i fps =
      update_channel i λ c. record c { frame_rate = (if ltb 0 fps then fps else 25) }

  -- `SetFrameProvider`.
  abbrev pub set_frame_provider :
      ℕ → Option (FrameProvider State) → Transport State → Transport State
  set_frame_provider i provider = update_channel i λ c. record c { provider = provider }

  -- `Start` and `Stop`.
  unfoldable pub start : Transport State → Transport State
  start t = record t { is_closed = false }

  unfoldable pub stop : Transport State → Transport State
  stop t = if t.is_closed then t else record t {
    is_closed = true;
    channel_0 = stop_event_loop t.channel_0;
    channel_1 = stop_event_loop t.channel_1;
  }
