-- ===== src/Ws/Server/Machine.antt =====
-- The server with its sessions as a step relation, while it is not stopped.
use camera_player.Prelude.{ℕ, Bool, false, some, ◌≡◌, List, [], ◌∷◌, ◌||◌, Bytes}
use camera_player.Prelude.Text.{same}
use camera_player.Ws.Types.{OpCode, SessionOptions}
use camera_player.Ws.Session.State.{Session, Handlers}
use camera_player.Ws.Session.Upgrade.{on_handshake_data}
use camera_player.Ws.Session.Machine as SessionMachine
use camera_player.Ws.Server.{
  Conn, Server, set_handlers, set_session_options, set_supported_sub_protocols, start, on_accept,
  on_accept_error, conn_at, broadcast, on_session,
}

-- A callback of a session: of its handshake, or of what comes behind it.
pub data SessionStep (h : Handlers) (supported : List Bytes) : Session → Session → Type 0 where
  handshake_data :
      {s t : Session} (ec ec_wr : Bool) (bytes : Bytes) (now : ℕ)
      → on_handshake_data h (some supported) ec ec_wr bytes now s ≡ some t
      → SessionStep h supported s t
  goes_on : {s t : Session} → SessionMachine.Step h s t → SessionStep h supported s t

-- Whether a session has the id.
abbrev pub taken : Bytes → List Conn → Bool
taken id [] = false
taken id (c ∷ cs) = same id c.id || taken id cs

pub data Step : Server → Server → Type 0 where
  started : {s : Server} → Step s (start s)
  -- The random id is a new one.
  accepted : {s : Server} (id : Bytes) → taken id s.conns ≡ false → Step s (on_accept id s)
  accept_failed : {s : Server} → Step s (on_accept_error s)
  broadcasted : {s : Server} (op : OpCode) (payload : Bytes) → Step s (broadcast op payload s)
  handlers_set : {s : Server} (h : Handlers) → Step s (set_handlers h s)
  options_set : {s : Server} (o : SessionOptions) → Step s (set_session_options o s)
  protocols_set :
      {s : Server} (protocols : List Bytes) → Step s (set_supported_sub_protocols protocols s)
  session_ran :
      {s : Server} (i : ℕ) (c : Conn) (t : Session)
      → conn_at i s.conns ≡ some c
      → SessionStep c.handlers s.supported_subprotocols c.session t
      → Step s (on_session i t s)

pub data Reach (s : Server) : Server → Type 0 where
  here : Reach s s
  next : {t u : Server} → Reach s t → Step t u → Reach s u
