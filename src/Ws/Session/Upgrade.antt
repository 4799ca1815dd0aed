-- ===== src/Ws/Session/Upgrade.antt =====
-- `DoReadHandshake`: what the completion of a read does before the session is active. What the server
-- supports is an argument, `none` where there is no server; so is whether `asio::write` of the
-- response fails.
use camera_player.Prelude.{
  ℕ, Bool, not, ltb, if◌then◌else◌, Option, none, some, List, [], ◌∷◌, ◌++◌, length, drop, Bytes,
  codes,
}
use camera_player.Prelude.Text.{lookup_or_empty}
use camera_player.Ws.CloseCode.{protocol_error, abnormal_closure}
use camera_player.Ws.Handshake.{
  HttpRequest, ParseResult, incomplete, failed, parsed, parse_http_request, is_web_socket_upgrade,
  negotiate_sub_protocol, build_handshake_response, crlf,
}
use camera_player.Ws.Session.State.{
  active, Session, Handlers, started_read, wrote_response, opened, emit, run_calls, do_close,
}
use camera_player.Ws.Session.Receive.{refresh_heartbeat, process_frame_buffer}
use camera_player.Ws.Session.Heartbeat.{arm_heartbeat_timer}

abbrev pub bad_request : Bytes
bad_request =
    codes "HTTP/1.1 400 Bad Request" ++ (crlf ++ (codes "Connection: close" ++ (crlf ++ crlf)))

-- The subprotocol that the server takes.
abbrev pub choose_sub_protocol : Option (List Bytes) → HttpRequest → Bytes
choose_sub_protocol none req = []
choose_sub_protocol (some supported) req = negotiate_sub_protocol req supported

module _ (h : Handlers) where
  -- The answer to a bad request; whether its write fails is not looked at.
  abbrev pub refuse : Session → Session
  refuse s = do_close h protocol_error (emit (wrote_response bad_request) s)

  abbrev pub notify_open : Session → Session
  notify_open s = elim h.open_handler [ none ↦ s | some f ↦ run_calls (f s) (emit opened s) ]

  -- The end of the handshake: frames behind it are handled, or the next ones are read.
  abbrev pub after_open : ℕ → Session → Option Session
  after_open now s = elim s.frame_buf [
    | [] ↦ some (emit started_read s)
    | b ∷ bs ↦ process_frame_buffer h now s
  ]

  -- The session is active, and has the bytes behind the request as its first frames.
  abbrev pub activate : ℕ → ℕ → Session → Session
  activate now consumed s =
      let s' = arm_heartbeat_timer (refresh_heartbeat now (record s { state = active })) in
      record s' { frame_buf = s'.frame_buf ++ drop consumed s'.handshake_buf; handshake_buf = [] }

  -- A request for an upgrade is answered.
  unfoldable pub accept :
      Option (List Bytes) → Bool → ℕ → ℕ → HttpRequest → Session → Option Session
  accept supported ec_wr now consumed req s =
      let key = lookup_or_empty (codes "sec-websocket-key") req.headers in
      let protocol = choose_sub_protocol supported req in
      let s' =
        emit (wrote_response (build_handshake_response key protocol))
          (record s { subprotocol = protocol }) in
      if ec_wr
      then some (do_close h abnormal_closure s')
      else after_open now (notify_open (activate now consumed s'))

  unfoldable pub on_request :
      Option (List Bytes) → Bool → ℕ → ParseResult → Session → Option Session
  unfolding accept
  on_request supported ec_wr now incomplete s = some (emit started_read s)
  on_request supported ec_wr now failed s = some (refuse s)
  on_request supported ec_wr now (parsed consumed req) s =
      let accepted = accept supported ec_wr now consumed req s in
      if not (is_web_socket_upgrade req) then some (refuse s) else accepted

  -- The handler of `DoReadHandshake`, with the error flag of the read and the bytes read.
  unfoldable pub on_handshake_data :
      Option (List Bytes) → Bool → Bool → Bytes → ℕ → Session → Option Session
  unfolding on_request
  on_handshake_data supported ec ec_wr bytes now s =
      let s' = record s { handshake_buf = s.handshake_buf ++ bytes } in
      let answered = on_request supported ec_wr now (parse_http_request s'.handshake_buf) s' in
      if ec
      then some (do_close h abnormal_closure s)
      else if ltb s.options.max_handshake_bytes (length s'.handshake_buf)
      then some (refuse s')
      else answered
