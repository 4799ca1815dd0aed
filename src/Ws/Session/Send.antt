-- ===== src/Ws/Session/Send.antt =====
-- The writing side: `EnqueueFrame`'s closure on the strand, `DoWrite` and its completion handler.
use camera_player.Prelude.{Bool, true, false, not, ◌&&◌, if◌then◌else◌, List, [], ◌∷◌, ◌++◌}
use camera_player.Ws.CloseCode.{normal_closure, abnormal_closure}
use camera_player.Ws.Session.State.{Session, Handlers, OutgoingItem, started_write, emit, do_close}

abbrev pub is_empty {ℓ} : {A : Type ℓ} → List A → Bool
is_empty [] = true
is_empty (_ ∷ _) = false

abbrev pub pop {ℓ} : {A : Type ℓ} → List A → List A
pop [] = []
pop (_ ∷ xs) = xs

-- `DoWrite` on the queue that it finds.
unfoldable pub write_front : List OutgoingItem → Session → Session
write_front [] s = record s { writing = false }
write_front (item ∷ rest) s =
    emit (started_write item.bytes)
      (record s { writing = true; pending = s.pending ++ item.is_close ∷ [] })

-- `DoWrite`.
unfoldable pub do_write : Session → Session
unfolding write_front
do_write s = write_front s.send_queue s

-- The strand runs the closure of `EnqueueFrame` for an item.
unfoldable pub push_item : OutgoingItem → Session → Session
unfolding do_write
push_item item s =
    let s' = record s { send_queue = s.send_queue ++ item ∷ [] } in
    if is_empty s.send_queue && not s.writing then do_write s' else s'

-- The strand takes the first closure that was posted.
unfoldable pub run_strand : List OutgoingItem → Session → Session
unfolding push_item
run_strand [] s = s
run_strand (item ∷ rest) s = push_item item (record s { posted = rest })

-- The completion handler of a write, with its error flag and the `is_close` that it captured.
unfoldable pub on_written : Handlers → Bool → Bool → Session → Session
unfolding do_write
on_written h ec is_close s =
    let s' = record s { send_queue = pop s.send_queue } in
    if ec
    then do_close h abnormal_closure (record s' { writing = false })
    else if is_close
    then do_close h normal_closure (record s' { writing = false })
    else if not (is_empty s'.send_queue)
    then do_write s'
    else record s' { writing = false }

-- A write ends: its handler runs, and is no longer pending.
unfoldable pub finish_write : Handlers → Bool → List Bool → Session → Session
unfolding on_written
finish_write h ec [] s = s
finish_write h ec (is_close ∷ rest) s = on_written h ec is_close (record s { pending = rest })
