-- ===== src/Ws/Server.antt =====
-- `WsServer` of include/server/ws/ws_server.hpp and src/server/ws/ws_server.cpp: the sessions it has
-- accepted and its table of them.
--
-- Every session that was made stays in `conns`, in the order of accepting, as asio's callbacks keep it
-- alive; the table has the place of a session there. `pending` counts the accepts under way. The
-- server's lock makes each access of the table one step. `GenerateId` is random: an id is an argument.
pub mod Table
pub mod Machine
pub mod Live
pub mod Tracked
pub mod Broadcast
mod Examples
use camera_player.Prelude.{
  ℕ, zero, suc, ◌+◌, ◌-◌, Bool, true, false, not, ◌||◌, ltb, if◌then◌else◌, Option, none, some,
  List, [], ◌∷◌, ◌++◌, length, Bytes,
}
use camera_player.Prelude.Text.{lookup, insert, erase}
use camera_player.Ws.Types.{OpCode, text, binary, Message, SessionOptions, default_options}
use camera_player.Ws.CloseCode.{going_away}
use camera_player.Ws.Session.State.{
  Session, Handlers, Call, Event, started_read, removed, is_active, new_session, emit, send_frame,
  close_session,
}

-- A session with its id, its handlers, and whether it has called `RemoveSession`.
pub record Conn : Type 0 where
  pub id : Bytes
  pub handlers : Handlers
  pub session : Session
  pub told : Bool

pub record Server : Type 0 where
  pub running : Bool
  pub pending : ℕ
  pub conns : List Conn
  pub sessions : List (Bytes × ℕ)
  pub handlers : Handlers
  pub session_options : SessionOptions
  pub supported_subprotocols : List Bytes

-- The constructor.
abbrev pub new_server : Server
new_server = record {
  running = false;
  pending = 0;
  conns = [];
  sessions = [];
  handlers = record {
    open_handler = none;
    message_handler = none;
    ping_handler = none;
    close_handler = none;
  };
  session_options = default_options;
  supported_subprotocols = [];
}

-- `SetOnOpen`, `SetOnMessage`, `SetOnPing` and `SetOnClose` set a handler each; sessions that were
-- accepted before keep theirs.
abbrev pub set_handlers : Handlers → Server → Server
set_handlers h s = record s { handlers = h }

-- `SetSessionOptions`, which keeps the timeout from being shorter than the interval.
unfoldable pub set_session_options : SessionOptions → Server → Server
set_session_options o s = record s {
  session_options =
      if ltb o.heartbeat_timeout o.heartbeat_interval
      then record o { heartbeat_timeout = o.heartbeat_interval }
      else o;
}

-- `SetSupportedSubProtocols`.
abbrev pub set_supported_sub_protocols : List Bytes → Server → Server
set_supported_sub_protocols protocols s = record s { supported_subprotocols = protocols }

-- `DoAccept`, but for the handler.
abbrev pub do_accept : Server → Server
do_accept s = if not s.running then s else record s { pending = s.pending + 1 }

-- `Start`, but for the thread of a server of its own.
unfoldable pub start : Server → Server
start s = if s.running then s else do_accept (record s { running = true })

-- The end of the handler of `DoAccept`.
abbrev pub accept_next : Server → Server
accept_next s = if s.running then do_accept s else s

-- The session that is made for a connection, once `Start` has begun to read.
abbrev pub new_conn : Bytes → Server → Conn
new_conn id s = record {
  id = id;
  handlers = s.handlers;
  session = emit started_read (new_session s.session_options);
  told = false;
}

-- `AddSession` of a session that is made now.
abbrev pub add_session : Conn → Server → Server
add_session c s = record s {
  conns = s.conns ++ c ∷ [];
  sessions = insert c.id (length s.conns) s.sessions;
}

-- The handler of `DoAccept` on a connection, and on an error.
unfoldable pub on_accept : Bytes → Server → Server
on_accept id s = accept_next (add_session (new_conn id s) (record s { pending = s.pending - 1 }))

unfoldable pub on_accept_error : Server → Server
on_accept_error s = accept_next (record s { pending = s.pending - 1 })

-- A change of the session at a place.
abbrev pub update_at : ℕ → (Conn → Conn) → List Conn → List Conn
update_at i f [] = []
update_at zero f (c ∷ cs) = f c ∷ cs
update_at (suc i) f (c ∷ cs) = c ∷ update_at i f cs

abbrev pub conn_at : ℕ → List Conn → Option Conn
conn_at i [] = none
conn_at zero (c ∷ cs) = some c
conn_at (suc i) (c ∷ cs) = conn_at i cs

abbrev pub with_session : (Session → Session) → Conn → Conn
with_session f c = record c { session = f c.session }

-- A change of every session in the table, in the table's order.
unfoldable pub for_each : (Session → Session) → List (Bytes × ℕ) → List Conn → List Conn
for_each f [] conns = conns
for_each f ((id, i) ∷ table) conns = for_each f table (update_at i (with_session f) conns)

-- `Stop`. The accepts under way end with an error.
unfoldable pub stop : Server → Server
unfolding for_each
stop s = if not s.running then s else record s {
  running = false;
  conns = for_each (close_session going_away []) s.sessions s.conns;
  sessions = [];
}

-- `BroadcastText` and `BroadcastBinary`, which differ in the operation.
abbrev pub send_if_open : OpCode → Bytes → Session → Session
send_if_open op payload s = if is_active s.state then send_frame op payload s else s

unfoldable pub broadcast : OpCode → Bytes → Server → Server
unfolding for_each
broadcast op payload s = record s { conns = for_each (send_if_open op payload) s.sessions s.conns }

-- `GetSessionCount`.
abbrev pub get_session_count : Server → ℕ
get_session_count s = length s.sessions

-- How often a session has called `RemoveSession`.
abbrev pub removals : List Event → ℕ
removals [] = 0
removals (removed ∷ es) = suc (removals es)
removals (_ ∷ es) = removals es

-- A callback of the session at a place, which goes on to another state: where it calls `RemoveSession`,
-- its id is taken from the table.
unfoldable pub on_session : ℕ → Session → Server → Server
on_session i t s = elim (conn_at i s.conns) [
  | none ↦ s
  | some c ↦
      let tells = ltb (removals c.session.log) (removals t.log) in
      record s {
        conns = update_at i (λ c. record c { session = t; told = c.told || tells }) s.conns;
        sessions = (if tells then erase c.id s.sessions else s.sessions);
      }
]
