-- ===== src/Ws/Session/Receive.antt =====
-- The reading side: `OnFrameData`, `ProcessFrameBuffer`, `HandleControlFrame`, `HandleDataFrame` and
-- `DeliverMessage`. Times are ticks of the steady clock, an argument of what reads it.
pub mod Extends
pub mod Buffer
pub mod Frames
pub mod Handled
pub mod Assembly
use camera_player.Prelude.{
  ℕ, zero, suc, ◌+◌, ◌*◌, ◌%◌, ◌^◌, Bool, true, false, not, ◌&&◌, ◌||◌, ◌==◌, ltb, leb,
  if◌then◌else◌, Option, none, some, List, [], ◌∷◌, ◌++◌, length, take, drop, get_or, Bytes, bit_or,
  ◌<<<◌, codes,
}
use camera_player.Ws.Types.{
  OpCode, continuation, text, binary, close, ping, pong, Message, is_control_frame,
}
use camera_player.Ws.CloseCode.{
  protocol_error, no_status_received, abnormal_closure, message_too_big,
}
use camera_player.Ws.Frame.{
  Header, parse_header, frame_total_size, apply_mask, encode_server_frame, u64_max,
}
use camera_player.Ws.Session.State.{
  Session, State, closing, closed, is_active, is_closed, Handlers, started_read, message, pinged,
  emit, enqueue_frame, code_bytes, close_session, run_calls, do_close,
}

-- `RefreshHeartbeat`.
abbrev pub refresh_heartbeat : ℕ → Session → Session
refresh_heartbeat now s = record s { last_activity = now; awaiting_pong = false }

-- The status code of a Close frame: the first two bytes, if there are two.
abbrev pub close_code : Bytes → ℕ
close_code payload =
    if leb 2 (length payload)
    then bit_or (get_or payload 0 0 <<< 8) (get_or payload 1 0)
    else no_status_received

-- How the loop of `ProcessFrameBuffer` goes on after a frame: an early return leaves the function
-- with the buffer as it was.
pub data Flow : Type 0 where
  returned next_frame : Session → Flow

-- What one round of the loop does.
pub data Round : Type 0 where
  -- An early return.
  leave : Session → Round
  -- `break`: more bytes are needed.
  wait : Round
  -- A frame of this many bytes was handled.
  advance : ℕ → Session → Round

abbrev pub after_frame : ℕ → Flow → Round
after_frame total (returned s) = leave s
after_frame total (next_frame s) = advance total s

-- The payload of the frame at the front of the bytes left, unmasked.
abbrev pub frame_payload : Header → Bytes → Bytes
frame_payload hdr rest =
    if ltb 0 hdr.payload_len
    then (let raw = take hdr.payload_len (drop hdr.header_len rest) in
        if hdr.masked then apply_mask raw hdr.mask_key else raw)
    else []

-- The bytes of the message so far that a data frame is added to.
abbrev accumulated : Header → Session → ℕ
accumulated hdr s = elim hdr.opcode [ continuation ↦ length s.msg_payload | _ ↦ 0 ]

-- The end of `ProcessFrameBuffer`: what was handled is erased, and the next read is started.
unfoldable pub end_of_buffer : Bytes → Session → Session
end_of_buffer rest s =
    let s' = record s { frame_buf = rest } in
    elim s.state [ closing ↦ s' | closed ↦ s' | _ ↦ emit started_read s' ]

-- What follows a round: leave the function, leave the loop, or go on behind the frame.
abbrev pub after_round : Bytes → Session → (ℕ → Session → Option Session) → Round → Option Session
after_round rest s next (leave s') = some s'
after_round rest s next wait = some (end_of_buffer rest s)
after_round rest s next (advance total s') = next total s'

module _ (h : Handlers) where
  -- `DeliverMessage`; the payload is moved out before the handler runs.
  unfoldable pub deliver_message : Session → Session
  deliver_message s = elim h.message_handler [
    | none ↦ s
    | some f ↦
        let m : Message = record { opcode = s.msg_opcode; payload = s.msg_payload } in
        let s' = record s { msg_payload = [] } in run_calls (f s' m) (emit (message m) s')
  ]

  -- The end of `HandleDataFrame`.
  unfoldable pub finish_data : Bool → Session → Session
  unfolding deliver_message
  finish_data fin s =
      if fin then record (deliver_message s) { msg_started = false; msg_payload = [] } else s

  -- `HandleDataFrame`, a first fragment.
  unfoldable pub first_fragment : OpCode → Bool → Bytes → Session → Session
  unfolding finish_data
  first_fragment op fin payload s =
      if s.msg_started
      then do_close h protocol_error s
      else (let s' = record s { msg_started = true; msg_opcode = op; msg_payload = [] } in
          if ltb 0 (length payload) && ltb s.options.max_message_bytes (length payload)
          then close_session message_too_big (codes "message too large") s'
          else finish_data fin (record s' { msg_payload = payload }))

  -- `HandleDataFrame`, a later fragment.
  unfoldable pub next_fragment : Bool → Bytes → Session → Session
  unfolding finish_data
  next_fragment fin payload s =
      if not s.msg_started
      then do_close h protocol_error s
      else if ltb 0 (length payload)
          && ltb s.options.max_message_bytes (length s.msg_payload + length payload)
      then close_session message_too_big (codes "message too large") s
      else finish_data fin (record s { msg_payload = s.msg_payload ++ payload })

  -- `HandleDataFrame`.
  unfoldable pub handle_data_frame : OpCode → Bool → Bytes → Session → Session
  unfolding first_fragment next_fragment
  handle_data_frame text fin payload s = first_fragment text fin payload s
  handle_data_frame binary fin payload s = first_fragment binary fin payload s
  handle_data_frame continuation fin payload s = next_fragment fin payload s
  handle_data_frame _ fin payload s = do_close h protocol_error s

  -- The Close branch of `HandleControlFrame`: an active session answers with the same code.
  unfoldable pub handle_close : Bytes → Session → Session
  handle_close payload s =
      if is_active s.state
      then enqueue_frame
          (record {
            bytes = encode_server_frame true close (code_bytes (close_code payload));
            is_close = true;
          })
          (record s { state = closing })
      else s

  -- The call of the ping handler.
  unfoldable pub notify_ping : Bytes → Session → Session
  notify_ping payload s = elim h.ping_handler [
    | none ↦ s
    | some f ↦ run_calls (f s payload) (emit (pinged payload) s)
  ]

  -- `HandleControlFrame`.
  unfoldable pub handle_control_frame : OpCode → Bytes → Session → Session
  unfolding handle_close notify_ping
  handle_control_frame close payload s = handle_close payload s
  handle_control_frame ping payload s =
      enqueue_frame (record { bytes = encode_server_frame true pong payload; is_close = false })
        (notify_ping payload s)
  handle_control_frame _ payload s = s

  -- Steps 3 and 4 of the loop, on a frame that is whole.
  unfoldable pub handle_frame : Header → Bytes → Session → Flow
  unfolding handle_control_frame handle_data_frame
  handle_frame hdr payload s =
      if is_control_frame hdr.opcode
      then (if not hdr.fin || ltb 125 hdr.payload_len
          then returned (do_close h protocol_error s)
          else (let s' = handle_control_frame hdr.opcode payload s in
              if is_closed s'.state then returned s' else next_frame s'))
      else next_frame (handle_data_frame hdr.opcode hdr.fin payload s)

  -- The round, once the header is read and the sizes are in bounds.
  unfoldable pub round_body : ℕ → Header → Bytes → Session → Round
  round_body now hdr rest s =
      if ltb s.options.max_frame_buffer_bytes (frame_total_size hdr)
      then leave (close_session message_too_big (codes "frame too large") s)
      else if ltb (length rest) (frame_total_size hdr)
      then wait
      else after_frame (frame_total_size hdr)
          (handle_frame hdr (frame_payload hdr rest) (refresh_heartbeat now s))

  unfoldable pub round_checks : ℕ → ℕ → Header → Bytes → Session → Round
  round_checks now header_len hdr rest s =
      if hdr.payload_len == u64_max
      then leave (do_close h protocol_error s)
      else if header_len == 0
      then wait
      else if not hdr.masked
      then leave (do_close h protocol_error s)
      else if not (is_control_frame hdr.opcode)
          && ltb s.options.max_message_bytes ((accumulated hdr s + hdr.payload_len) % 2 ^ 64)
      then leave (close_session message_too_big (codes "message too large") s)
      else round_body now hdr rest s

  -- One round of the loop, on the bytes at `base`.
  unfoldable pub round : ℕ → Bytes → Session → Round
  round now rest s =
      let (header_len, hdr) = parse_header rest in round_checks now header_len hdr rest s

  -- The loop, on the bytes that are left. It takes fuel: `none` would mean that it ran out.
  unfoldable pub process_loop : ℕ → ℕ → Bytes → Session → Option Session
  unfolding end_of_buffer
  process_loop fuel now [] s = some (end_of_buffer [] s)
  process_loop zero now (b ∷ bs) s = none
  process_loop (suc fuel) now (b ∷ bs) s =
      after_round (b ∷ bs) s (λ total s'. process_loop fuel now (drop total (b ∷ bs)) s')
        (round now (b ∷ bs) s)

  -- `ProcessFrameBuffer`. Each round takes two bytes or more, so their number is fuel enough.
  unfoldable pub process_frame_buffer : ℕ → Session → Option Session
  process_frame_buffer now s = process_loop (length s.frame_buf) now s.frame_buf s

  -- `OnFrameData`, with the error flag and the bytes read.
  unfoldable pub on_frame_data : Bool → Bytes → ℕ → Session → Option Session
  unfolding process_frame_buffer
  on_frame_data ec bytes now s =
      let s' = record s { frame_buf = s.frame_buf ++ bytes } in
      if ec
      then some (do_close h abnormal_closure s)
      else if ltb s.options.max_frame_buffer_bytes (length s'.frame_buf)
      then some (close_session message_too_big (codes "frame buffer too large") s')
      else process_frame_buffer now s'
