-- ===== src/Ws/Session/Receive/Extends.antt =====
-- Every step of the reading side extends the session: it touches the writes only by `EnqueueFrame`.
use camera_player.Prelude.{
  if_cases, ℕ, ◌+◌, ◌%◌, ◌^◌, ◌==◌, zero, suc, Bool, true, false, not, ◌&&◌, ◌||◌, ltb, Option,
  none, some, Option-cases, Bool-cases, refl, arith, [], ◌∷◌, ◌++◌, length, drop, Bytes, inl, inr,
  codes,
}
use camera_player.Ws.Types.{
  OpCode, continuation, text, binary, close, ping, Message, is_control_frame,
}
use camera_player.Ws.CloseCode.{protocol_error, abnormal_closure, message_too_big}
use camera_player.Ws.Frame.{Header, parse_header, frame_total_size, u64_max}
use camera_player.Ws.Session.State.{
  Session, State, handshaking, active, closing, closed, is_active, is_closed, Handlers, message,
  pinged, started_read, emit,
}
use camera_player.Ws.Session.Receive.{
  deliver_message, finish_data, first_fragment, next_fragment, handle_data_frame, handle_close,
  notify_ping, handle_control_frame, Flow, returned, next_frame, handle_frame, Round, leave, wait,
  advance, after_frame, round_body, round_checks, round, end_of_buffer, after_round, process_loop,
  process_frame_buffer, on_frame_data, refresh_heartbeat, frame_payload, accumulated,
}
use camera_player.Ws.Session.Effects.{
  Extends, Extends-refl, Extends-trans, Extends-untouched, emit-Extends, enqueue_frame-Extends,
  close_session-Extends, notified-Extends, do_close-Extends,
}

abbrev FlowExtends : Session → Flow → Type 0
FlowExtends s (returned t) = Extends s t
FlowExtends s (next_frame t) = Extends s t

abbrev RoundExtends : Session → Round → Type 0
RoundExtends s (leave t) = Extends s t
RoundExtends s wait = Unit
RoundExtends s (advance n t) = Extends s t

abbrev pub OptionExtends : Session → Option Session → Type 0
OptionExtends s (some t) = Extends s t
OptionExtends s none = Unit

OptionExtends-trans :
    (s t : Session) → Extends s t → (r : Option Session) → OptionExtends t r → OptionExtends s r
OptionExtends-trans s t x (some u) y = Extends-trans x y
OptionExtends-trans s t x none y = tt

after_frame-RoundExtends :
    (n : ℕ) (s : Session) (r : Flow) → FlowExtends s r → RoundExtends s (after_frame n r)
after_frame-RoundExtends n s (returned t) x = x
after_frame-RoundExtends n s (next_frame t) x = x

FlowExtends-trans : (s t : Session) → Extends s t → (r : Flow) → FlowExtends t r → FlowExtends s r
FlowExtends-trans s t x (returned u) y = Extends-trans x y
FlowExtends-trans s t x (next_frame u) y = Extends-trans x y

refresh_heartbeat-Extends : (now : ℕ) (s : Session) → Extends s (refresh_heartbeat now s)
refresh_heartbeat-Extends now s =
    Extends-untouched s (refresh_heartbeat now s) refl refl refl refl (λ x. x) refl refl

end_of_buffer-Extends : (rest : Bytes) (s : Session) → Extends s (end_of_buffer rest s)
unfolding end_of_buffer
end_of_buffer-Extends rest s =
    Extends-trans
      (Extends-untouched s (record s { frame_buf = rest }) refl refl refl refl (λ x. x) refl refl)
      (by_state s.state)
  where
    by_state :
        (st : State)
        → Extends
            (record s { frame_buf = rest })
            (elim st [
              | closing ↦ record s { frame_buf = rest }
              | closed ↦ record s { frame_buf = rest }
              | _ ↦ emit started_read (record s { frame_buf = rest })
            ])
    by_state closing = Extends-refl _
    by_state closed = Extends-refl _
    by_state handshaking = emit-Extends started_read _ refl
    by_state active = emit-Extends started_read _ refl

module _ (h : Handlers) where
  deliver_message-Extends : (s : Session) → Extends s (deliver_message h s)
  unfolding deliver_message
  deliver_message-Extends s = elim (Option-cases h.message_handler) [
    | inl e ↦ rw e (Extends-refl s)
    | inr (f, e) ↦
        let m : Message = record { opcode = s.msg_opcode; payload = s.msg_payload } in
        let s' = record s { msg_payload = [] } in
        rw e (
          Extends-trans (Extends-untouched s s' refl refl refl refl (λ x. x) refl refl)
            (notified-Extends (message m) (f s' m) s' refl))
  ]

  finish_data-Extends : (fin : Bool) (s : Session) → Extends s (finish_data h fin s)
  unfolding finish_data
  finish_data-Extends true s =
      Extends-trans (deliver_message-Extends s)
        (Extends-untouched (deliver_message h s) _ refl refl refl refl (λ x. x) refl refl)
  finish_data-Extends false s = Extends-refl s

  first_fragment-Extends :
      (op : OpCode) (fin : Bool) (payload : Bytes) (s : Session)
      → Extends s (first_fragment h op fin payload s)
  unfolding first_fragment
  first_fragment-Extends op fin payload s =
      let s' = record s { msg_started = true; msg_opcode = op; msg_payload = [] } in
      let s'' = record s' { msg_payload = payload } in
      if_cases (Extends s) s.msg_started (λ e. do_close-Extends h protocol_error s)
        (λ e.
          if_cases (Extends s)
            (ltb 0 (length payload) && ltb s.options.max_message_bytes (length payload))
            (λ f.
              Extends-trans (Extends-untouched s s' refl refl refl refl (λ y. y) refl refl)
                (close_session-Extends message_too_big (codes "message too large") s'))
            (λ f.
              Extends-trans (Extends-untouched s s'' refl refl refl refl (λ y. y) refl refl)
                (finish_data-Extends fin s'')))

  next_fragment-Extends :
      (fin : Bool) (payload : Bytes) (s : Session) → Extends s (next_fragment h fin payload s)
  unfolding next_fragment
  next_fragment-Extends fin payload s =
      let s' = record s { msg_payload = s.msg_payload ++ payload } in
      if_cases (Extends s) (not s.msg_started) (λ e. do_close-Extends h protocol_error s)
        (λ e.
          if_cases (Extends s)
            (ltb 0 (length payload)
              && ltb s.options.max_message_bytes (length s.msg_payload + length payload))
            (λ f. close_session-Extends message_too_big (codes "message too large") s)
            (λ f.
              Extends-trans (Extends-untouched s s' refl refl refl refl (λ y. y) refl refl)
                (finish_data-Extends fin s')))

  handle_data_frame-Extends :
      (op : OpCode) (fin : Bool) (payload : Bytes) (s : Session)
      → Extends s (handle_data_frame h op fin payload s)
  unfolding handle_data_frame
  handle_data_frame-Extends text fin payload s = first_fragment-Extends text fin payload s
  handle_data_frame-Extends binary fin payload s = first_fragment-Extends binary fin payload s
  handle_data_frame-Extends continuation fin payload s = next_fragment-Extends fin payload s
  handle_data_frame-Extends _ fin payload s = do_close-Extends h protocol_error s

  handle_close-Extends : (payload : Bytes) (s : Session) → Extends s (handle_close h payload s)
  unfolding handle_close
  handle_close-Extends payload s = elim (Bool-cases (is_active s.state)) [
    | inl e ↦ rw e (
        Extends-trans
          (Extends-untouched s (record s { state = closing }) refl refl refl refl
            (λ x. absurd (ground arith)) refl refl)
          (enqueue_frame-Extends _ (record s { state = closing })))
    | inr e ↦ rw e (Extends-refl s)
  ]

  notify_ping-Extends : (payload : Bytes) (s : Session) → Extends s (notify_ping h payload s)
  unfolding notify_ping
  notify_ping-Extends payload s = elim (Option-cases h.ping_handler) [
    | inl e ↦ rw e (Extends-refl s)
    | inr (f, e) ↦ rw e (notified-Extends (pinged payload) (f s payload) s refl)
  ]

  handle_control_frame-Extends :
      (op : OpCode) (payload : Bytes) (s : Session)
      → Extends s (handle_control_frame h op payload s)
  unfolding handle_control_frame
  handle_control_frame-Extends close payload s = handle_close-Extends payload s
  handle_control_frame-Extends ping payload s =
      Extends-trans (notify_ping-Extends payload s)
        (enqueue_frame-Extends _ (notify_ping h payload s))
  handle_control_frame-Extends _ payload s = Extends-refl s

  handle_frame-FlowExtends :
      (hdr : Header) (payload : Bytes) (s : Session) → FlowExtends s (handle_frame h hdr payload s)
  unfolding handle_frame
  handle_frame-FlowExtends hdr payload s =
      let s' = handle_control_frame h hdr.opcode payload s in
      if_cases (FlowExtends s) (is_control_frame hdr.opcode)
        (λ e.
          if_cases (FlowExtends s) (not hdr.fin || ltb 125 hdr.payload_len)
            (λ f. do_close-Extends h protocol_error s)
            (λ f.
              if_cases (FlowExtends s) (is_closed s'.state)
                (λ g. handle_control_frame-Extends hdr.opcode payload s)
                (λ g. handle_control_frame-Extends hdr.opcode payload s)))
        (λ e. handle_data_frame-Extends hdr.opcode hdr.fin payload s)

  round_body-RoundExtends :
      (now : ℕ) (hdr : Header) (rest : Bytes) (s : Session)
      → RoundExtends s (round_body h now hdr rest s)
  unfolding round_body
  round_body-RoundExtends now hdr rest s =
      let s' = refresh_heartbeat now s in
      if_cases (RoundExtends s) (ltb s.options.max_frame_buffer_bytes (frame_total_size hdr))
        (λ e. close_session-Extends message_too_big (codes "frame too large") s)
        (λ e.
          if_cases (RoundExtends s) (ltb (length rest) (frame_total_size hdr)) (λ f. tt)
            (λ f.
              after_frame-RoundExtends (frame_total_size hdr) s
                (handle_frame h hdr (frame_payload hdr rest) s')
                (FlowExtends-trans s s' (refresh_heartbeat-Extends now s)
                  (handle_frame h hdr (frame_payload hdr rest) s')
                  (handle_frame-FlowExtends hdr (frame_payload hdr rest) s'))))

  round_checks-RoundExtends :
      (now header_len : ℕ) (hdr : Header) (rest : Bytes) (s : Session)
      → RoundExtends s (round_checks h now header_len hdr rest s)
  unfolding round_checks
  round_checks-RoundExtends now header_len hdr rest s =
      if_cases (RoundExtends s) (hdr.payload_len == u64_max)
        (λ e. do_close-Extends h protocol_error s)
        (λ e.
          if_cases (RoundExtends s) (header_len == 0) (λ f. tt)
            (λ f.
              if_cases (RoundExtends s) (not hdr.masked) (λ g. do_close-Extends h protocol_error s)
                (λ g.
                  if_cases (RoundExtends s)
                    (not (is_control_frame hdr.opcode)
                      && ltb s.options.max_message_bytes
                          ((accumulated hdr s + hdr.payload_len) % 2 ^ 64))
                    (λ i. close_session-Extends message_too_big (codes "message too large") s)
                    (λ i. round_body-RoundExtends now hdr rest s))))

  pub round-RoundExtends :
      (now : ℕ) (rest : Bytes) (s : Session) → RoundExtends s (round h now rest s)
  unfolding round
  round-RoundExtends now rest s =
      round_checks-RoundExtends now (parse_header rest).0 (parse_header rest).1 rest s

  after_round-Extends :
      (rest : Bytes) (s : Session) (next : ℕ → Session → Option Session) (r : Round)
      → RoundExtends s r
      → ((n : ℕ) (t : Session) → OptionExtends t (next n t))
      → OptionExtends s (after_round rest s next r)
  after_round-Extends rest s next (leave t) x k = x
  after_round-Extends rest s next wait x k = end_of_buffer-Extends rest s
  after_round-Extends rest s next (advance n t) x k = OptionExtends-trans s t x (next n t) (k n t)

  process_loop-Extends :
      (fuel now : ℕ) (rest : Bytes) (s : Session) → OptionExtends s (process_loop h fuel now rest s)
  unfolding process_loop
  process_loop-Extends fuel now [] s = end_of_buffer-Extends [] s
  process_loop-Extends zero now (b ∷ bs) s = tt
  process_loop-Extends (suc fuel) now (b ∷ bs) s =
      after_round-Extends (b ∷ bs) s (λ n t. process_loop h fuel now (drop n (b ∷ bs)) t)
        (round h now (b ∷ bs) s) (round-RoundExtends now (b ∷ bs) s)
        (λ n t. process_loop-Extends fuel now (drop n (b ∷ bs)) t)

  pub on_frame_data-Extends :
      (ec : Bool) (bytes : Bytes) (now : ℕ) (s : Session)
      → OptionExtends s (on_frame_data h ec bytes now s)
  unfolding on_frame_data
  on_frame_data-Extends ec bytes now s =
      let s' = record s { frame_buf = s.frame_buf ++ bytes } in
      let x = Extends-untouched s s' refl refl refl refl (λ y. y) refl refl in
      if_cases (OptionExtends s) ec (λ e. do_close-Extends h abnormal_closure s)
        (λ e.
          if_cases (OptionExtends s) (ltb s.options.max_frame_buffer_bytes (length s'.frame_buf))
            (λ f.
              Extends-trans x
                (close_session-Extends message_too_big (codes "frame buffer too large") s'))
            (λ f.
              OptionExtends-trans s s' x (process_frame_buffer h now s')
                (process_loop-Extends (length s'.frame_buf) now s'.frame_buf s')))
