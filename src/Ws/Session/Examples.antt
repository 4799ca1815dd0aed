-- ===== src/Ws/Session/Examples.antt =====
-- Sessions that run on concrete frames.
use camera_player.Prelude.{
  ℕ, true, false, none, some, ◌≡◌, refl, arith, List, [], ◌∷◌, ◌++◌, Bytes, inl,
}
use camera_player.Ws.Types.{OpCode, text, close, ping, Message, default_options}
use camera_player.Ws.CloseCode.{abnormal_closure}
use camera_player.Ws.Frame.{apply_mask, encode_server_frame}
use camera_player.Ws.Session.State.{
  active, closed, message, Session, Call, send_text, Handlers, new_session, emit, run_calls,
}
use camera_player.Ws.Session.Send.{run_strand}
use camera_player.Ws.Session.Receive.{
  handle_frame, process_frame_buffer, on_frame_data, refresh_heartbeat,
}
use camera_player.Ws.Session.Receive.Frames.{client_header, client_frame, Admits, settle}
use camera_player.Ws.Session.Receive.Handled.{IsDone, on_frame_data-handled}
use camera_player.Ws.Session.Receive.Buffer.{process_frame_buffer_total}
use camera_player.Ws.Session.Receive.Assembly.{feed, feed_delivers}
use camera_player.Ws.Session.Heartbeat.{on_heartbeat_timer}
use camera_player.Ws.Session.Machine.{strand, called, Reach, here, next}
use camera_player.Ws.Session.Front.{IsFrontWritten, Reach-IsFrontWritten}
use camera_player.Ws.Session.Order.{IsSerial, outbox, Reach-outbox}
use camera_player.Ws.Session.Closing.{reports}
use camera_player.Ws.Session.Answers.{closing_with, close_is_answered, heartbeat_times_out}

-- An application that echoes messages.
abbrev echo : Session → Message → List Call
echo s m = send_text m.payload ∷ []

abbrev on_close : Session → ℕ → List Call
on_close s code = []

abbrev handlers : Handlers
handlers = record {
  open_handler = none;
  message_handler = some echo;
  ping_handler = none;
  close_handler = some on_close;
}

abbrev idle : Session
idle = record (new_session default_options) { state = active }

abbrev hello : Bytes
hello = 72 ∷ 105 ∷ []

idle-Admits : (op : OpCode) → Admits idle op 7 hello
idle-Admits op = record {
  payload_fits = omega arith;
  key_fits = omega arith;
  buffer_fits = omega arith;
  message_fits = λ e. omega arith;
  options_fit = omega arith;
}

idle-IsSerial : IsSerial idle
idle-IsSerial = _

-- A message is echoed: the application's call is enqueued, and the strand begins its write.
abbrev after_call : Session
after_call = run_calls (send_text hello ∷ []) idle

echo_runs : Reach handlers idle (run_strand after_call.posted after_call)
unfolding run_calls
echo_runs = next (next here (called (send_text hello))) strand

hello_front : client_frame true text 7 hello ≡ (0x81 ∷ 0x82 ∷ 0 ∷ []) ++ 0 ∷ 0 ∷ 7 ∷ 72 ∷ 105 ∷ []
unfolding apply_mask
hello_front = refl

on_frame_data-handled_example :
    (t : Session) × (on_frame_data handlers false (client_frame true text 7 hello) 3 idle ≡ some t)
    × (t
        ≡ settle handlers (
            handle_frame handlers
              (client_header true text 7 2)
              hello
              (refresh_heartbeat 3 (record idle { frame_buf = client_frame true text 7 hello }))))
    × IsDone t
on_frame_data-handled_example =
    on_frame_data-handled handlers 3 idle true text 7 hello (idle-Admits text) refl

process_frame_buffer_total_example :
    (u : Session) × (process_frame_buffer handlers 3 (record idle { frame_buf = 0x81 ∷ 0x80 ∷ [] })
      ≡ some u)
process_frame_buffer_total_example =
    process_frame_buffer_total handlers 3 (record idle { frame_buf = 0x81 ∷ 0x80 ∷ [] })
      (omega arith, (omega arith, _))

feed_delivers_example :
    let m : Message = record { opcode = text; payload = 72 ∷ 105 ∷ 72 ∷ 105 ∷ 33 ∷ [] } in
    let s' = record idle { msg_started = true; msg_opcode = text; msg_payload = [] } in
    feed handlers text hello (hello ∷ (33 ∷ []) ∷ []) idle
    ≡ record (run_calls (echo s' m) (emit (message m) s')) { msg_started = false; msg_payload = [] }
feed_delivers_example =
    feed_delivers handlers text hello (hello ∷ (33 ∷ []) ∷ []) idle (inl refl) refl (omega arith)
      refl

Reach-IsFrontWritten_example :
    IsSerial (run_strand after_call.posted after_call)
    × IsFrontWritten (run_strand after_call.posted after_call)
Reach-IsFrontWritten_example = Reach-IsFrontWritten handlers idle-IsSerial _ echo_runs

Reach-outbox_example :
    (new : List Bytes) × (outbox (run_strand after_call.posted after_call) ≡ outbox idle ++ new)
Reach-outbox_example = Reach-outbox handlers idle-IsSerial echo_runs

close_is_answered_example :
    on_frame_data handlers false (client_frame true close 7 (3 ∷ 232 ∷ [])) 3 idle
    ≡ some (closing_with (3 ∷ 232 ∷ []) 3 idle)
close_is_answered_example =
    close_is_answered handlers 3 idle 7 3 232 []
      (record {
        payload_fits = omega arith;
        key_fits = omega arith;
        buffer_fits = omega arith;
        message_fits = λ e. omega arith;
        options_fit = omega arith;
      })
      (omega arith) (omega arith) (omega arith) refl refl

heartbeat_times_out_example :
    let s1 = on_heartbeat_timer handlers false 20 idle in
    let s2 = on_heartbeat_timer handlers false 60 s1 in
    (s1.posted ≡ record { bytes = encode_server_frame true ping []; is_close = false } ∷ [])
    × (s1.timer_armed ≡ true)
    × (on_heartbeat_timer handlers false 30 s1 ≡ s1)
    × (s2.state ≡ closed)
    × (reports s2.log ≡ abnormal_closure ∷ [])
heartbeat_times_out_example =
    heartbeat_times_out handlers 20 30 60 idle refl refl (omega arith) (omega arith) (omega arith)
      refl
