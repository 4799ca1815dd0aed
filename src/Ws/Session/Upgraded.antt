-- ===== src/Ws/Session/Upgraded.antt =====
-- What the completion of a read does in the handshake, from the bytes to the session.
use camera_player.Prelude.{
  ℕ, ◌+◌, ◌≤◌, ◌<◌, Bool, true, false, Option, some, ◌≡◌, refl, ap, sym, ◌∙◌, ◌⊎◌, inl, inr, arith,
  List, [], ◌∷◌, ◌++◌, length, drop, drop-append_self, drop-drop, append-nil, append_assoc, All,
  Bytes, codes, ltb,
}
use camera_player.Prelude.Text.{lookup_or_empty}
use camera_player.Prelude.Lines.{IsLine}
use camera_player.Ws.CloseCode.{protocol_error}
use camera_player.Ws.Handshake.{
  HttpRequest, failed, parsed, parse_http_request, is_web_socket_upgrade, head_end,
  build_handshake_response,
}
use camera_player.Ws.Handshake.Request.{
  IsWords, IsHeader, request_line, print_request, store_headers, parse_http_request-print_request,
}
use camera_player.Ws.Session.State.{
  active, closed, Session, Handlers, Call, Event, wrote_response, emit,
}
use camera_player.Ws.Session.Effects.{do_close-Extends}
use camera_player.Ws.Session.Closing.{reports, reports-append, do_close-reports}
use camera_player.Ws.Session.Upgrade.{
  choose_sub_protocol, notify_open, after_open, on_request, on_handshake_data, refuse, bad_request,
}

-- The request that a head stands for.
abbrev pub request_of : Bytes → Bytes → Bytes → List (Bytes × Bytes) → HttpRequest
request_of m p v xs = record { method = m; path = p; version = v; headers = store_headers xs [] }

-- The session once the response is written, with the bytes behind the request.
abbrev pub upgraded : Option (List Bytes) → ℕ → HttpRequest → Bytes → Session → Session
upgraded supported now req rest s =
    let protocol = choose_sub_protocol supported req in
    record s {
      state = active;
      handshake_buf = [];
      frame_buf = s.frame_buf ++ rest;
      last_activity = now;
      awaiting_pong = false;
      timer_armed = true;
      subprotocol = protocol;
      log =
          s.log
          ++ wrote_response (
              build_handshake_response (lookup_or_empty (codes "sec-websocket-key") req.headers)
                protocol)
            ∷ [];
    }

-- A read after which the bytes are over the size limit, or no request, or no request for an upgrade.
abbrev pub IsRefused : Session → Bytes → Type 0
IsRefused s bytes =
    (s.options.max_handshake_bytes < length (s.handshake_buf ++ bytes))
    ⊎ ((parse_http_request (s.handshake_buf ++ bytes) ≡ failed)
        ⊎ ((n : ℕ) × (req : HttpRequest) × (parse_http_request (s.handshake_buf ++ bytes)
              ≡ parsed n req)
            × (is_web_socket_upgrade req ≡ false)))

-- What stands behind a head.
drop-head : (text rest : Bytes) → drop (length text + 4) (text ++ (head_end ++ rest)) ≡ rest
drop-head text rest =
    sym (drop-drop (length text) 4 (text ++ (head_end ++ rest)))
    ∙ ap (drop 4) (drop-append_self text (head_end ++ rest))

module _ (h : Handlers) where
  on_request-parsed :
      (supported : Option (List Bytes)) (now n : ℕ) (req : HttpRequest) (s : Session)
      → is_web_socket_upgrade req ≡ true
      → on_request h supported false now (parsed n req) s
        ≡ after_open h now (notify_open h (upgraded supported now req (drop n s.handshake_buf) s))
  unfolding on_request
  on_request-parsed supported now n req s u = rw u refl

  -- A client whose bytes so far make up a request for an upgrade, of three words and headers that can
  -- be sent, within the size limit, is upgraded, if the write succeeds: the response has the accept
  -- key for its key and the subprotocol that is negotiated, the session is active, its timer armed,
  -- and the bytes behind the request come to its frames; then the handler for opening is called,
  -- and the frames are handled, if there are any.
  pub on_handshake_data-upgraded :
      (supported : Option (List Bytes)) (bytes : Bytes) (now : ℕ) (s : Session) (m p v : Bytes)
      (xs : List (Bytes × Bytes)) (rest : Bytes)
      → s.handshake_buf ++ bytes ≡ print_request m p v xs ++ (head_end ++ rest)
      → length (s.handshake_buf ++ bytes) ≤ s.options.max_handshake_bytes
      → IsWords m p v
      → IsLine (request_line m p v)
      → All IsHeader xs
      → is_web_socket_upgrade (request_of m p v xs) ≡ true
      → on_handshake_data h supported false false bytes now s
        ≡ after_open h now (notify_open h (upgraded supported now (request_of m p v xs) rest s))
  unfolding on_handshake_data
  on_handshake_data-upgraded supported bytes now s m p v xs rest e small w l g u =
      let text = print_request m p v xs in
      let s' = record s { handshake_buf = s.handshake_buf ++ bytes } in
      let fits : ltb s.options.max_handshake_bytes (length (s.handshake_buf ++ bytes)) ≡ false =
        ground arith in
      let found : parse_http_request (s.handshake_buf ++ bytes)
          ≡ parsed (length text + 4) (request_of m p v xs) =
        ap parse_http_request e ∙ parse_http_request-print_request m p v xs rest w l g in
      let left : drop (length text + 4) (s.handshake_buf ++ bytes) ≡ rest =
        ap (drop (length text + 4)) e ∙ drop-head text rest in
      rw (fits) (
        ap (λ r. on_request h supported false now r s') found
        ∙ on_request-parsed supported now (length text + 4) (request_of m p v xs) s' u
        ∙ ap
            (λ b.
              after_open h now (notify_open h (upgraded supported now (request_of m p v xs) b s)))
            left)

  on_handshake_data-IsRefused :
      (supported : Option (List Bytes)) (ec_wr : Bool) (bytes : Bytes) (now : ℕ) (s : Session)
      → IsRefused s bytes
      → on_handshake_data h supported false ec_wr bytes now s
        ≡ some (refuse h (record s { handshake_buf = s.handshake_buf ++ bytes }))
  unfolding on_handshake_data on_request
  on_handshake_data-IsRefused supported ec_wr bytes now s (inl big) =
      let b : ltb s.options.max_handshake_bytes (length (s.handshake_buf ++ bytes)) ≡ true =
        ground arith in
      rw b refl
  on_handshake_data-IsRefused supported ec_wr bytes now s (inr (inl e)) = rw e (ground arith)
  on_handshake_data-IsRefused supported ec_wr bytes now s (inr (inr (n, req, e, u))) =
      rw (e, u) (ground arith)

  -- With a close handler set, a read that brings the bytes over the size limit, or after which they are
  -- no request or no request for an upgrade, is answered with 400, which is the next event; the session
  -- is closed, and 1002 is reported once.
  pub on_handshake_data-refuse :
      (supported : Option (List Bytes)) (ec_wr : Bool) (bytes : Bytes) (now : ℕ) (s : Session)
      {f : Session → ℕ → List Call}
      → h.close_handler ≡ some f
      → IsRefused s bytes
      → (t : Session) × (on_handshake_data h supported false ec_wr bytes now s ≡ some t)
        × ((events : List Event) × (t.log
              ≡ s.log
                ++ wrote_response (
                    codes "HTTP/1.1 400 Bad Request"
                    ++ 13 ∷ 10 ∷ (codes "Connection: close" ++ 13 ∷ 10 ∷ 13 ∷ 10 ∷ []))
                  ∷ events))
        × (t.state ≡ closed)
        × (reports t.log ≡ reports s.log ++ protocol_error ∷ [])
  unfolding on_handshake_data on_request
  on_handshake_data-refuse supported ec_wr bytes now s {f} g r =
      let s' = record s { handshake_buf = s.handshake_buf ++ bytes } in
      let written = emit (wrote_response bad_request) s' in
      let (shut, told) = do_close-reports h protocol_error written g in
      let extends = do_close-Extends h protocol_error written in
      let same : reports (s.log ++ wrote_response bad_request ∷ []) ≡ reports s.log =
        reports-append s.log (wrote_response bad_request ∷ []) ∙ append-nil (reports s.log) in
      (
        refuse h s',
        on_handshake_data-IsRefused supported ec_wr bytes now s r,
        (
          extends.new_events,
          extends.log_grows
              ∙ append_assoc s.log (wrote_response bad_request ∷ []) extends.new_events,
        ),
        shut,
        told ∙ ap (λ l. l ++ protocol_error ∷ []) same,
      )
