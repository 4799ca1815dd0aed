-- ===== src/Ws/Session/UpgradeExamples.antt =====
-- Handshakes of concrete clients.
use camera_player.Prelude.{
  ℕ, true, false, none, some, ◌≡◌, refl, inl, inr, arith, List, [], ◌∷◌, ◌++◌, Bytes, codes,
}
use camera_player.Prelude.Text.{behind, insert, lookup, lines, pop_cr, words}
use camera_player.Ws.Types.{default_options}
use camera_player.Ws.CloseCode.{protocol_error}
use camera_player.Ws.Handshake.{is_web_socket_upgrade, parse_http_request, failed, head_end}
use camera_player.Ws.Handshake.Request.{print_request}
use camera_player.Ws.Session.State.{
  closed, Session, Call, Event, wrote_response, Handlers, new_session,
}
use camera_player.Ws.Session.Closing.{reports}
use camera_player.Ws.Session.Upgrade.{notify_open, after_open, on_handshake_data}
use camera_player.Ws.Session.Upgraded.{
  request_of, upgraded, on_handshake_data-upgraded, on_handshake_data-refuse,
}

abbrev on_close : Session → ℕ → List Call
on_close s code = []

abbrev handlers : Handlers
handlers = record {
  open_handler = none;
  message_handler = none;
  ping_handler = none;
  close_handler = some on_close;
}

abbrev sent : List (Bytes × Bytes)
sent =
    (codes "Upgrade", codes "websocket")
    ∷ (codes "Connection", codes "Upgrade")
    ∷ (codes "Sec-WebSocket-Key", codes "x")
    ∷ []

abbrev connected : Session
connected = new_session default_options

request_upgrades :
    is_web_socket_upgrade (request_of (codes "GET") (codes "/") (codes "HTTP/1.1") sent) ≡ true
unfolding is_web_socket_upgrade behind lookup insert
request_upgrades = refl

abbrev request : Bytes
request = print_request (codes "GET") (codes "/") (codes "HTTP/1.1") sent

on_handshake_data-upgraded_example :
    on_handshake_data handlers none false false (request ++ (head_end ++ 0x89 ∷ [])) 3 connected
    ≡ after_open handlers 3 (
        notify_open handlers (
          upgraded none 3
            (request_of (codes "GET") (codes "/") (codes "HTTP/1.1") sent)
            (0x89 ∷ [])
            connected))
on_handshake_data-upgraded_example =
    on_handshake_data-upgraded handlers none (request ++ (head_end ++ 0x89 ∷ [])) 3 connected
      (codes "GET") (codes "/") (codes "HTTP/1.1") sent (0x89 ∷ []) refl (omega arith)
      (ground arith) (ground arith) (ground arith) request_upgrades

no_request : parse_http_request (codes "GET" ++ head_end) ≡ failed
unfolding parse_http_request lines words pop_cr
no_request = refl

on_handshake_data-refuse_example :
    (t : Session) × (on_handshake_data handlers none false false
        (codes "GET" ++ head_end)
        3
        connected
      ≡ some t)
    × ((events : List Event) × (t.log
          ≡ connected.log
            ++ wrote_response (
                codes "HTTP/1.1 400 Bad Request"
                ++ 13 ∷ 10 ∷ (codes "Connection: close" ++ 13 ∷ 10 ∷ 13 ∷ 10 ∷ []))
              ∷ events))
    × (t.state ≡ closed)
    × (reports t.log ≡ protocol_error ∷ [])
on_handshake_data-refuse_example =
    on_handshake_data-refuse handlers none false (codes "GET" ++ head_end) 3 connected refl
      (inr (inl no_request))
