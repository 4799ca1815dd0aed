-- ===== src/Ws/Session/Answers.antt =====
-- What a session answers to control frames, and how the heartbeat ends a silent connection.
use camera_player.Prelude.{
  ℕ, ◌+◌, ◌-◌, ◌*◌, ◌/◌, ◌≤◌, ◌<◌, true, false, none, some, ◌≡◌, refl, ap, ◌∙◌, arith, List, [],
  ◌∷◌, ◌++◌, length, Bytes, IsByte,
}
use camera_player.Prelude.Bits.{bit_or_fields, bit_and_mask}
use camera_player.Ws.Types.{close, ping, pong}
use camera_player.Ws.CloseCode.{abnormal_closure}
use camera_player.Ws.Frame.{encode_server_frame}
use camera_player.Ws.Session.State.{
  active, closing, closed, started_read, emit, Session, Handlers, Call, code_bytes, enqueue_frame,
  do_close, send_frame,
}
use camera_player.Ws.Session.Receive.{
  close_code, handle_close, handle_control_frame, handle_frame, notify_ping, on_frame_data,
  refresh_heartbeat, end_of_buffer,
}
use camera_player.Ws.Session.Receive.Frames.{
  client_frame, client_header, Admits, settle, on_frame_data-client_frame,
}
use camera_player.Ws.Session.Heartbeat.{on_heartbeat_timer}
use camera_player.Ws.Session.Closing.{reports, do_close-reports}

-- The two bytes of a code are read back from the answer.
code_bytes-close_code :
    (b c : ℕ) (reason : Bytes)
    → IsByte b
    → IsByte c
    → code_bytes (close_code (b ∷ c ∷ reason)) ≡ b ∷ c ∷ []
code_bytes-close_code b c reason hb hc = ground (
  arith,
  bit_or_fields 8 b c hc,
  bit_and_mask 8 (b * 256 + c),
  bit_and_mask 8 ((b * 256 + c) / 256),
)

-- The session that a Close frame with this answer leaves.
abbrev pub closing_with : Bytes → ℕ → Session → Session
closing_with reply now s =
    enqueue_frame (record { bytes = encode_server_frame true close reply; is_close = true })
      (record s { state = closing; frame_buf = []; last_activity = now; awaiting_pong = false })

-- The session after the timer has sent a Ping.
abbrev probing : Session → Session
probing s = record s {
  timer_armed = true;
  awaiting_pong = true;
  posted = s.posted ++ record { bytes = encode_server_frame true ping []; is_close = false } ∷ [];
}

module _ (h : Handlers) where
  handled_close :
      (now key b c : ℕ) (reason : Bytes) (t : Session)
      → length reason ≤ 123
      → IsByte b
      → IsByte c
      → t.state ≡ active
      → settle h (
          handle_frame h
            (client_header true close key (length (b ∷ c ∷ reason)))
            (b ∷ c ∷ reason)
            (refresh_heartbeat now t))
        ≡ closing_with (b ∷ c ∷ []) now t
  unfolding handle_frame handle_control_frame handle_close end_of_buffer
  handled_close now key b c reason t l hb hc act =
      simp act (ground (arith, code_bytes-close_code b c reason hb hc))

  handled_ping :
      (now key : ℕ) (payload : Bytes) (t : Session)
      → length payload ≤ 125
      → h.ping_handler ≡ none
      → t.state ≡ active
      → settle h (
          handle_frame h
            (client_header true ping key (length payload))
            payload
            (refresh_heartbeat now t))
        ≡ emit started_read (
            enqueue_frame
              (record { bytes = encode_server_frame true pong payload; is_close = false })
              (record t { frame_buf = []; last_activity = now; awaiting_pong = false }))
  unfolding handle_frame handle_control_frame notify_ping end_of_buffer
  handled_ping now key payload t l np act = simp act (ground arith)

  -- An active session with an empty buffer that reads a Close frame, with a code and a reason of
  -- at most 123 bytes that the options admit, answers with the frame's own two code bytes and
  -- becomes closing; the reason is not sent back. It reads no further.
  pub close_is_answered :
      (now : ℕ) (s : Session) (key b c : ℕ) (reason : Bytes)
      → Admits s close key (b ∷ c ∷ reason)
      → length reason ≤ 123
      → IsByte b
      → IsByte c
      → s.state ≡ active
      → s.frame_buf ≡ []
      → on_frame_data h false (client_frame true close key (b ∷ c ∷ reason)) now s
        ≡ some (closing_with (b ∷ c ∷ []) now s)
  close_is_answered now s key b c reason a l hb hc act e =
      on_frame_data-client_frame h now s true close key (b ∷ c ∷ reason) a e
      ∙ ap some (
          handled_close now key b c reason
            (record s { frame_buf = client_frame true close key (b ∷ c ∷ reason) }) l hb hc act)

  -- An active session with an empty buffer and no ping handler answers a Ping of at most 125
  -- bytes, which the options admit, with a Pong that has its payload, and reads on.
  pub ping_is_answered :
      (now : ℕ) (s : Session) (key : ℕ) (payload : Bytes)
      → Admits s ping key payload
      → length payload ≤ 125
      → h.ping_handler ≡ none
      → s.state ≡ active
      → s.frame_buf ≡ []
      → on_frame_data h false (client_frame true ping key payload) now s
        ≡ some (
            emit started_read (
              enqueue_frame
                (record { bytes = encode_server_frame true pong payload; is_close = false })
                (record s { frame_buf = []; last_activity = now; awaiting_pong = false })))
  ping_is_answered now s key payload a l np act e =
      on_frame_data-client_frame h now s true ping key payload a e
      ∙ ap some (
          handled_ping now key payload (record s { frame_buf = client_frame true ping key payload })
            l np act)

  first_fire :
      (t1 : ℕ) (s : Session)
      → s.state ≡ active
      → s.awaiting_pong ≡ false
      → s.options.heartbeat_interval ≤ t1 - s.last_activity
      → on_heartbeat_timer h false t1 s ≡ probing s
  unfolding on_heartbeat_timer send_frame
  first_fire t1 s act aw h1 = simp (act, aw) (ground arith)

  second_fire :
      (t2 : ℕ) (s : Session)
      → s.state ≡ active
      → s.awaiting_pong ≡ true
      → s.options.heartbeat_timeout ≤ t2 - s.last_activity
      → on_heartbeat_timer h false t2 s
        ≡ do_close h abnormal_closure (record s { timer_armed = false })
  unfolding on_heartbeat_timer
  second_fire t2 s act aw h2 = simp (act, aw) (ground arith)

  early_fire :
      (t : ℕ) (s : Session)
      → s.state ≡ active
      → s.awaiting_pong ≡ true
      → t - s.last_activity < s.options.heartbeat_timeout
      → on_heartbeat_timer h false t s ≡ record s { timer_armed = true }
  unfolding on_heartbeat_timer
  early_fire t s act aw h3 = simp (act, aw) (ground arith)

  -- The timer sends a Ping to an active session that awaits no pong and was idle for the interval.
  -- While nothing is received, the timer only arms itself again when it fires before the timeout has
  -- passed since the last activity, not since the Ping; once it has passed, which may be at once, the
  -- session closes as abnormal and tells a close handler that is set.
  pub heartbeat_times_out :
      (t1 early t2 : ℕ) (s : Session) {f : Session → ℕ → List Call}
      → s.state ≡ active
      → s.awaiting_pong ≡ false
      → s.options.heartbeat_interval ≤ t1 - s.last_activity
      → early - s.last_activity < s.options.heartbeat_timeout
      → s.options.heartbeat_timeout ≤ t2 - s.last_activity
      → h.close_handler ≡ some f
      → let s1 = on_heartbeat_timer h false t1 s in
        let s2 = on_heartbeat_timer h false t2 s1 in
        (s1.posted
          ≡ s.posted ++ record { bytes = encode_server_frame true ping []; is_close = false } ∷ [])
        × (s1.timer_armed ≡ true)
        × (on_heartbeat_timer h false early s1 ≡ s1)
        × (s2.state ≡ closed)
        × (reports s2.log ≡ reports s.log ++ abnormal_closure ∷ [])
  heartbeat_times_out t1 early t2 s act aw h1 h3 h2 g =
      let (shut, told) =
        do_close-reports h abnormal_closure (record (probing s) { timer_armed = false }) g in
      let last = second_fire t2 (probing s) act refl h2 in
      rw (first_fire t1 s act aw h1) (
        refl,
        refl,
        early_fire early (probing s) act refl h3,
        ap (λ (t : Session). t.state) last ∙ shut,
        ap (λ (t : Session). reports t.log) last ∙ told,
      )
