-- ===== src/Ws/Server/Examples.antt =====
-- A server that accepts two connections, of which one is lost.
use camera_player.Prelude.{some, arith, ◌∷◌, [], true, false, ◌≡◌, refl, Bytes, codes}
use camera_player.Prelude.Text.{lookup, insert, erase}
use camera_player.Ws.Types.{default_options, text}
use camera_player.Ws.CloseCode.{abnormal_closure}
use camera_player.Ws.Session.State.{
  Session, finish_close, notify_close, do_close, close_session, active, send_frame,
}
use camera_player.Ws.Session.Upgrade.{on_handshake_data}
use camera_player.Ws.Server.{
  Conn, conn_at, Server, new_server, start, stop, on_accept, on_session, new_conn,
  get_session_count, set_session_options, for_each, broadcast, with_session,
}
use camera_player.Ws.Server.Machine.{here, next, started, accepted, session_ran, handshake_data}
use camera_player.Ws.Server.Live.{live, count_live}
use camera_player.Ws.Server.Broadcast.{broadcast-conn_at}
use camera_player.Ws.Server.Tracked.{IsTracked, Reach-IsTracked}

abbrev two : Server
two = on_accept (codes "b") (on_accept (codes "a") (start new_server))

abbrev lost : Session
lost = do_close new_server.handlers abnormal_closure (new_conn (codes "a") new_server).session

-- The read of the first one's request fails.
abbrev one_left : Server
one_left = on_session 0 lost two

new_server-IsTracked : IsTracked new_server
unfolding lookup
new_server-IsTracked = record { unique = tt; nodup = tt; tracked = λ id. refl; counted = refl }

Reach-IsTracked_example :
    ((id : Bytes) → lookup id one_left.sessions ≡ live id 0 one_left.conns)
    × (get_session_count one_left ≡ count_live one_left.conns)
unfolding start on_accept on_handshake_data
Reach-IsTracked_example =
    Reach-IsTracked {s = new_server}
      (next
        (next (next (next here started) (accepted (codes "a") refl)) (accepted (codes "b") refl))
        (session_ran 0 (new_conn (codes "a") new_server) lost refl
          (handshake_data true false [] 0 refl)))
      new_server-IsTracked

one_left_test : get_session_count one_left ≡ 1
unfolding start on_accept on_session insert erase do_close finish_close notify_close
one_left_test = refl

-- Nothing is sent to a session in its handshake, and `Stop` leaves it open, though not in the table.
stop_test : (stop two).conns ≡ two.conns
unfolding start on_accept stop insert for_each close_session
stop_test = refl

timeout_test :
    (set_session_options
      (record default_options { heartbeat_timeout = 3 })
      new_server).session_options.heartbeat_timeout
    ≡ 15
unfolding set_session_options
timeout_test = refl

abbrev open_conn : Conn
open_conn = record (new_conn (codes "a") new_server) {
  session = record (new_conn (codes "a") new_server).session { state = active };
}

abbrev one_open : Server
one_open = record new_server { conns = open_conn ∷ []; sessions = (codes "a", 0) ∷ [] }

one_open-IsTracked : IsTracked one_open
unfolding lookup
one_open-IsTracked = record {
  unique = (refl, tt);
  nodup = (refl, tt);
  tracked = λ id. ground arith;
  counted = refl;
}

broadcast-conn_at_example :
    conn_at 0 (broadcast text (codes "hi") one_open).conns
    ≡ some (with_session (send_frame text (codes "hi")) open_conn)
broadcast-conn_at_example =
    broadcast-conn_at text (codes "hi") one_open 0 open_conn one_open-IsTracked refl
