-- ===== src/Ws/Session/State.antt =====
-- The state of a session, the calls that the application makes on it, and how it closes.
--
-- What asio holds for the session is part of the state: the closures posted to the strand, the
-- completion handlers of writes that were started, and whether the timer is armed. What the session
-- does to the outside is a log, oldest first. The application is a record of handlers: each sees the
-- session and answers with public calls on it, which run at that place.
use camera_player.Prelude.{
  ℕ, Bool, true, false, not, if◌then◌else◌, Option, none, some, List, [], ◌∷◌, ◌++◌, Bytes, bit_and,
  ◌>>>◌,
}
use camera_player.Ws.Types.{OpCode, text, binary, close, ping, Message, SessionOptions}
use camera_player.Ws.Frame.{encode_server_frame}

-- `enum class State`.
pub data State : Type 0 where
  handshaking active closing closed : State

abbrev pub is_closed : State → Bool
is_closed closed = true
is_closed _ = false

abbrev pub is_active : State → Bool
is_active active = true
is_active _ = false

-- `struct OutgoingItem`; `data` is reserved in the model's language.
pub record OutgoingItem : Type 0 where
  pub bytes : Bytes
  pub is_close : Bool

pub data Event : Type 0 where
  started_read : Event
  started_write : Bytes → Event
  wrote_response : Bytes → Event
  opened : Event
  message : Message → Event
  pinged : Bytes → Event
  socket_closed : Event
  closed_with : ℕ → Event
  removed : Event

pub record Session : Type 0 where
  pub state : State
  pub options : SessionOptions
  pub handshake_buf : Bytes
  pub frame_buf : Bytes
  pub msg_opcode : OpCode
  pub msg_payload : Bytes
  pub msg_started : Bool
  pub posted : List OutgoingItem
  pub send_queue : List OutgoingItem
  pub writing : Bool
  pub pending : List Bool
  pub last_activity : ℕ
  pub awaiting_pong : Bool
  pub timer_armed : Bool
  pub subprotocol : Bytes
  pub log : List Event

-- The public calls that send or close. `close_call` has the code and the reason.
pub data Call : Type 0 where
  send_text send_binary send_ping : Bytes → Call
  close_call : ℕ → Bytes → Call

-- The four handlers, each of which may be unset.
pub record Handlers : Type 0 where
  pub open_handler : Option (Session → List Call)
  pub message_handler : Option (Session → Message → List Call)
  pub ping_handler : Option (Session → Bytes → List Call)
  pub close_handler : Option (Session → ℕ → List Call)

-- The constructor's state.
abbrev pub new_session : SessionOptions → Session
new_session options = record {
  state = handshaking;
  options = options;
  handshake_buf = [];
  frame_buf = [];
  msg_opcode = text;
  msg_payload = [];
  msg_started = false;
  posted = [];
  send_queue = [];
  writing = false;
  pending = [];
  last_activity = 0;
  awaiting_pong = false;
  timer_armed = false;
  subprotocol = [];
  log = [];
}

abbrev pub emit : Event → Session → Session
emit e s = record s { log = s.log ++ e ∷ [] }

-- `EnqueueFrame`: the push is posted to the strand.
abbrev pub enqueue_frame : OutgoingItem → Session → Session
enqueue_frame item s = record s { posted = s.posted ++ item ∷ [] }

-- The two bytes of a status code, highest first.
abbrev pub code_bytes : ℕ → Bytes
code_bytes code = bit_and (code >>> 8) 0xFF ∷ bit_and code 0xFF ∷ []

-- `Close`.
unfoldable pub close_session : ℕ → Bytes → Session → Session
close_session code reason s =
    if not (is_active s.state)
    then s
    else enqueue_frame
        (record {
          bytes = encode_server_frame true close (code_bytes code ++ reason);
          is_close = true;
        })
        (record s { state = closing })

-- `SendText`, `SendBinary` and `SendPing`, which share their body but for the operation.
unfoldable pub send_frame : OpCode → Bytes → Session → Session
send_frame op payload s =
    enqueue_frame (record { bytes = encode_server_frame true op payload; is_close = false }) s

unfoldable pub run_call : Call → Session → Session
unfolding send_frame close_session
run_call (send_text b) s = send_frame text b s
run_call (send_binary b) s = send_frame binary b s
run_call (send_ping b) s = send_frame ping b s
run_call (close_call code reason) s = close_session code reason s

unfoldable pub run_calls : List Call → Session → Session
run_calls [] s = s
run_calls (c ∷ cs) s = run_calls cs (run_call c s)

module _ (h : Handlers) where
  -- A handler is called if it is set: the call is logged, and what it does to the session is done.
  unfoldable pub notify_close : ℕ → Session → Session
  notify_close code s = elim h.close_handler [
    | none ↦ s
    | some f ↦ run_calls (f s code) (emit (closed_with code) s)
  ]

  -- The end of `DoClose`: the timer is cancelled, the socket closed, the handler called, and the
  -- server told.
  unfoldable pub finish_close : ℕ → Session → Session
  unfolding notify_close
  finish_close code s =
      emit removed (notify_close code (emit socket_closed (record s { timer_armed = false })))

  -- `DoClose`. The compare-and-exchange expects `Closed` and stores `Closed`, so it succeeds on a
  -- session that is closed, and then the exchange and its early return are skipped.
  unfoldable pub do_close : ℕ → Session → Session
  unfolding finish_close
  do_close code s =
      if is_closed s.state
      then finish_close code s
      else (let s' = record s { state = closed } in
          if is_closed s.state then s' else finish_close code s')
