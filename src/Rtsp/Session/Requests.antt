-- ===== src/Rtsp/Session/Requests.antt =====
-- `HandleRtspRequest` and `OnBytes`. A request that makes a number conversion throw is `none`.
use camera_player.Prelude.{
  ℕ, ◌||◌, if◌then◌else◌, Option, none, some, List, [], ◌∷◌, ◌++◌, Bytes, codes,
}
use camera_player.Prelude.Text.{lookup, lines}
use camera_player.Prelude.Numbers.{ℤ, pos, negsuc}
use camera_player.Rtsp.Protocol.{
  RtspMethod, options, describe, setup, play, pause, teardown, get_parameter, set_parameter,
  RtspResponse, build_response, parse_rtsp_request_line, parse_headers, first_line,
}
use camera_player.Rtsp.Interleaved.{
  Received, rtcp_data, rtp_data, rtsp_request, process_interleaved_data,
}
use camera_player.Rtsp.Session.{
  RtspSession, Environment, is_ready, is_playing, plain_response, bad_request, with_header,
  session_ok, handle_options, handle_describe, handle_play, handle_teardown, handle_pause,
}
use camera_player.Rtsp.Session.Setup.{handle_setup}

-- The switch on the method.
unfoldable pub dispatch :
    Environment
    → RtspMethod
    → List (Bytes × Bytes)
    → RtspSession
    → Option (RtspResponse × RtspSession)
dispatch env options headers s = some (handle_options s, s)
dispatch env describe headers s = some (handle_describe env s)
dispatch env setup headers s = handle_setup env headers s
dispatch env play headers s = some (handle_play env s)
dispatch env teardown headers s = some (handle_teardown s)
dispatch env pause headers s = some (handle_pause s)
dispatch env get_parameter headers s =
    some (with_header (codes "Content-Length") (codes "0") (session_ok s), s)
dispatch env set_parameter headers s = some (session_ok s, s)
dispatch env _ headers s = some (plain_response 405 (codes "Method Not Allowed"), s)

-- `Send`.
abbrev pub send_response : RtspResponse → Bytes → RtspSession → RtspSession
send_response r cseq s = record s { sent = s.sent ++ build_response r cseq ∷ [] }

-- The sequence number of the request, if it has one, and its URL.
abbrev pub note_request : Bytes → List (Bytes × Bytes) → RtspSession → RtspSession
note_request url headers s =
    let cseq : Bytes = elim (lookup (codes "CSeq") headers) [
      | none ↦ s.context.cseq
      | some n ↦ n
    ] in
    record s { context = record s.context { cseq = cseq; url = url } }

abbrev pub respond : Option (RtspResponse × RtspSession) → Option RtspSession
respond none = none
respond (some (r, s)) = some (send_response r s.context.cseq s)

-- `HandleRtspRequest`.
unfoldable pub handle_rtsp_request : Environment → Bytes → RtspSession → Option RtspSession
unfolding dispatch
handle_rtsp_request env request s = elim (parse_rtsp_request_line (first_line (lines request))) [
  | none ↦ some (send_response bad_request (codes "-1") s)
  | some (method, url, version) ↦
      respond
        (dispatch env method (parse_headers request) (note_request url (parse_headers request) s))
]

-- What `ProcessInterleavedData` hands on: data is only logged.
unfoldable pub handle_received : Environment → List Received → RtspSession → Option RtspSession
handle_received env [] s = some s
handle_received env (rtsp_request request ∷ rest) s = elim (handle_rtsp_request env request s) [
  | none ↦ none
  | some t ↦ handle_received env rest t
]
handle_received env (rtcp_data bytes ∷ rest) s = handle_received env rest s
handle_received env (rtp_data bytes ∷ rest) s = handle_received env rest s

-- A channel as a frame's channel byte, an `uint8_t`, is compared with it: one below 0 equals none.
abbrev pub channel_number : ℤ → ℕ
channel_number (pos n) = n
channel_number (negsuc n) = 256

-- The interleaved data of the buffer.
abbrev pub on_interleaved : Environment → RtspSession → Option RtspSession
on_interleaved env s =
    elim (process_interleaved_data (channel_number s.context.rtp_channel)
      (channel_number s.context.rtcp_channel) s.read_buffer) [
        | none ↦ none
        | some (rest, received) ↦ elim (handle_received env received s) [
          | none ↦ none
          | some t ↦ some (record t { read_buffer = rest })
        ]
      ]

-- A request before the session is set up: all the bytes are taken as one.
abbrev pub on_request : Environment → RtspSession → Option RtspSession
on_request env s = elim (handle_rtsp_request env s.read_buffer s) [
  | none ↦ none
  | some t ↦ some (record t { read_buffer = [] })
]

-- `OnBytes`.
unfoldable pub on_bytes : Environment → Bytes → RtspSession → Option RtspSession
unfolding handle_rtsp_request handle_received
on_bytes env bytes s =
    let s' = record s { read_buffer = s.read_buffer ++ bytes } in
    let interleaved = on_interleaved env s' in
    let request = on_request env s' in
    if is_playing s.context.state || is_ready s.context.state then interleaved else request
