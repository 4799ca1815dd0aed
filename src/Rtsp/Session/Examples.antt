-- ===== src/Rtsp/Session/Examples.antt =====
-- A client that sets up, plays and pauses.
use camera_player.Prelude.{
  false, ℕ, true, arith, some, ◌≡◌, refl, inl, List, [], ◌∷◌, ◌++◌, Bytes, codes,
}
use camera_player.Prelude.Text.{lines, words, lookup, insert, split_at, pop_cr, behind}
use camera_player.Prelude.Numbers.{pos, stoi, to_decimal}
use camera_player.Rtsp.Protocol.{
  RtspResponse, options, setup, parse_rtsp_request_line, parse_headers, first_line, build_response,
}
use camera_player.Rtsp.Session.{
  ready, rtp_over_tcp, RtspSession, Environment, new_session, plain_response, with_header,
}
use camera_player.Rtsp.Session.Setup.{new_transport, handle_setup}
use camera_player.Rtsp.Session.Requests.{dispatch, on_bytes, handle_rtsp_request}
use camera_player.Rtsp.Session.Channels.{tcp_header, channel_range, handle_setup-channels}
use camera_player.Rtp.RawH264.{RawH264NalSource, closed_source}
use camera_player.Rtsp.Session.Media.{produce_next_packet}
use camera_player.Rtsp.Session.Frames.{IsProduced, produce_next_packet-IsProduced}
use camera_player.Rtsp.Session.Consistent.{IsConsistent}
use camera_player.Rtsp.Session.Reachable.{bytes_come, here, next, Reach-IsConsistent}
use camera_player.Rtsp.Session.Transitions.{Allowed, dispatch-Allowed}
use camera_player.Rtsp.Session.Answers.{IsAnswered, handle_rtsp_request-IsAnswered}

abbrev environment : Environment
environment = record {
  own_session_id = codes "1";
  local_address = codes "10.0.0.1";
  local_port = 5000;
  millis = 1000;
  random = 7;
  memory = [];
  playing_memory = false;
}

abbrev crlf : Bytes
crlf = 13 ∷ 10 ∷ []

new_session-IsConsistent : IsConsistent (codes "1") new_session
new_session-IsConsistent = record { silent = refl; heard = _; identified = inl refl }

abbrev options_request : Bytes
options_request = codes "OPTIONS rtsp://a RTSP/1.0" ++ (crlf ++ (codes "CSeq: 2" ++ (crlf ++ crlf)))

line_read :
    parse_rtsp_request_line (first_line (lines options_request))
    ≡ some (options, codes "rtsp://a", codes "RTSP/1.0")
unfolding parse_rtsp_request_line lines words
line_read = refl

number_read : lookup (codes "CSeq") (parse_headers options_request) ≡ some (codes "2")
unfolding parse_headers lines lookup insert split_at pop_cr
number_read = refl

handle_rtsp_request-IsAnswered_example :
    IsAnswered (codes "2") new_session (handle_rtsp_request environment options_request new_session)
handle_rtsp_request-IsAnswered_example =
    handle_rtsp_request-IsAnswered environment options_request new_session options
      (codes "rtsp://a") (codes "RTSP/1.0") (codes "2") line_read number_read

abbrev setup_headers : List (Bytes × Bytes)
setup_headers = (codes "Transport", codes "RTP/AVP/TCP;interleaved=0-1") ∷ []

dispatch-Allowed_example :
    Allowed setup new_session (dispatch environment setup setup_headers new_session)
dispatch-Allowed_example = dispatch-Allowed environment setup setup_headers new_session

-- The session after a `SETUP` request.
abbrev setup_request : Bytes
setup_request =
    codes "SETUP a RTSP/1.0"
    ++ (crlf ++ (codes "Transport: RTP/AVP/TCP;interleaved=0-1" ++ (crlf ++ crlf)))

abbrev set_up : RtspSession
set_up = record new_session {
  context = record new_session.context { session_id = codes "1"; state = ready; url = codes "a" };
  rtp_transport = some (new_transport false rtp_over_tcp 0 1);
  sent =
      build_response
        (with_header (codes "Transport") (codes "RTP/AVP/TCP;interleaved=0-1")
          (with_header (codes "Session") (codes "1") (plain_response 200 (codes "OK"))))
        []
      ∷ [];
}

setup_read : on_bytes environment setup_request new_session ≡ some set_up
unfolding on_bytes parse_rtsp_request_line words lines handle_setup lookup parse_headers split_at
    pop_cr insert behind stoi to_decimal
setup_read = refl

Reach-IsConsistent_example : IsConsistent (codes "1") set_up
Reach-IsConsistent_example =
    Reach-IsConsistent new_session-IsConsistent
      (next here (bytes_come environment setup_request refl setup_read))

-- Channels as numbers of two digits and of one.
abbrev asked : List (Bytes × Bytes)
asked = (codes "Transport", tcp_header 10 7) ∷ []

asked_there : lookup (codes "Transport") asked ≡ some (tcp_header 10 7)
unfolding lookup
asked_there = refl

handle_setup-channels_example :
    (r : RtspResponse) × (t : RtspSession) × (handle_setup environment asked new_session
      ≡ some (r, t))
    × (r.status_code ≡ 200)
    × (lookup (codes "Transport") r.headers
        ≡ some (codes "RTP/AVP/TCP;interleaved=" ++ channel_range 10 7))
    × (t.context.state ≡ ready)
    × (t.context.rtp_channel ≡ pos 10)
    × (t.context.rtcp_channel ≡ pos 7)
    × (t.rtp_transport ≡ some (new_transport false rtp_over_tcp 10 7))
handle_setup-channels_example =
    handle_setup-channels environment asked new_session 10 7 asked_there (omega arith) (omega arith)

-- A session with a file of one unit, at whose end it is.
abbrev file_source : RawH264NalSource
file_source = record closed_source {
  cached_nals = record { bytes = 0x65 ∷ 1 ∷ []; nal_type = 5 } ∷ [];
  nal_index = 1;
  is_opened = true;
}

abbrev streaming : RtspSession
streaming = record new_session { nal_source = some file_source; has_h264_source = true }

abbrev no_memory : ℕ → ℕ → Bytes
no_memory unit packet = []

-- The source is at its end, and is read from the front.
produce_next_packet-IsProduced_example :
    IsProduced no_memory 3 streaming
      (record file_source { nal_index = 0 })
      0
      (produce_next_packet no_memory 3 streaming)
produce_next_packet-IsProduced_example =
    produce_next_packet-IsProduced no_memory 3 streaming file_source refl refl refl refl
      (omega arith) (omega arith, _)
