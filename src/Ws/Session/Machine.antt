-- ===== src/Ws/Session/Machine.antt =====
-- A session from its handshake on, as a step relation: asio runs one callback of the session at a
-- time, and which one comes next is open.
use camera_player.Prelude.{ℕ, Bool, some, ◌≡◌, Bytes}
use camera_player.Ws.Session.State.{Session, Handlers, Call, run_call}
use camera_player.Ws.Session.Send.{run_strand, finish_write}
use camera_player.Ws.Session.Receive.{on_frame_data}
use camera_player.Ws.Session.Heartbeat.{on_heartbeat_timer}

pub data Step (h : Handlers) : Session → Session → Type 0 where
  -- A read completes.
  frame_data :
      {s t : Session} (ec : Bool) (bytes : Bytes) (now : ℕ)
      → on_frame_data h ec bytes now s ≡ some t
      → Step h s t
  -- The strand runs the first closure that is posted, if there is one.
  strand : {s : Session} → Step h s (run_strand s.posted s)
  -- The write that was started first completes, if one is pending.
  written : {s : Session} (ec : Bool) → Step h s (finish_write h ec s.pending s)
  -- The heartbeat timer fires or is cancelled.
  timer : {s : Session} (ec : Bool) (now : ℕ) → Step h s (on_heartbeat_timer h ec now s)
  -- The application makes a public call.
  called : {s : Session} (c : Call) → Step h s (run_call c s)

pub data Reach (h : Handlers) (s : Session) : Session → Type 0 where
  here : Reach h s s
  next : {t u : Session} → Reach h s t → Step h t u → Reach h s u
