-- ===== src/Ws/Session/Heartbeat.antt =====
-- The heartbeat: `ArmHeartbeatTimer` and `OnHeartbeatTimer`. Times are ticks of the steady clock,
-- which does not go back, so an idle time is a plain difference.
use camera_player.Prelude.{ℕ, ◌-◌, Bool, true, false, not, ◌||◌, leb, if◌then◌else◌, []}
use camera_player.Ws.Types.{ping}
use camera_player.Ws.CloseCode.{abnormal_closure}
use camera_player.Ws.Session.State.{Session, Handlers, is_active, send_frame, do_close}

-- `ArmHeartbeatTimer`.
abbrev pub arm_heartbeat_timer : Session → Session
arm_heartbeat_timer s = record s { timer_armed = true }

-- `OnHeartbeatTimer`, with its error flag. The timer that called it is no longer armed.
unfoldable pub on_heartbeat_timer : Handlers → Bool → ℕ → Session → Session
on_heartbeat_timer h ec now s =
    let s' = record s { timer_armed = false } in
    let idle = now - s.last_activity in
    if ec || not (is_active s.state)
    then s'
    else if s.awaiting_pong
    then (if leb s.options.heartbeat_timeout idle
        then do_close h abnormal_closure s'
        else arm_heartbeat_timer s')
    else if leb s.options.heartbeat_interval idle
    then arm_heartbeat_timer (send_frame ping [] (record s' { awaiting_pong = true }))
    else arm_heartbeat_timer s'
