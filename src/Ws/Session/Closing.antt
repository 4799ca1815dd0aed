-- ===== src/Ws/Session/Closing.antt =====
-- How a session ends: `DoClose`, the answer to a Close frame, frames that break the protocol, and the
-- heartbeat's timeout.
use camera_player.Prelude.{
  ℕ, ◌^◌, ◌<◌, Bool, true, false, if◌then◌else◌, some, ◌≡◌, refl, ap, ◌∙◌, arith, List, [], ◌∷◌,
  ◌++◌, append_assoc, length, Bytes,
}
use camera_player.Ws.Types.{OpCode}
use camera_player.Ws.CloseCode.{protocol_error}
use camera_player.Ws.Frame.{Header, encode_server_frame}
use camera_player.Ws.Frame.Encode.{parse_header-encode_server_frame}
use camera_player.Ws.Session.State.{
  closed, is_closed, Event, started_read, started_write, wrote_response, opened, message, pinged,
  socket_closed, closed_with, removed, Session, Handlers, Call, send_text, send_binary, send_ping,
  close_call, run_call, run_calls, notify_close, finish_close, do_close,
}
use camera_player.Ws.Session.Receive.{leave, round, round_checks}
use camera_player.Ws.Session.Effects.{do_close_closes}

-- The codes that the close handler was called with, oldest first.
abbrev pub reports : List Event → List ℕ
reports [] = []
reports (closed_with c ∷ es) = c ∷ reports es
reports (started_read ∷ es) = reports es
reports (started_write b ∷ es) = reports es
reports (wrote_response b ∷ es) = reports es
reports (opened ∷ es) = reports es
reports (message m ∷ es) = reports es
reports (pinged b ∷ es) = reports es
reports (socket_closed ∷ es) = reports es
reports (removed ∷ es) = reports es

pub reports-append : (es fs : List Event) → reports (es ++ fs) ≡ reports es ++ reports fs
reports-append [] fs = refl
reports-append (closed_with c ∷ es) fs = ap (◌∷◌ c) (reports-append es fs)
reports-append (started_read ∷ es) fs = reports-append es fs
reports-append (_ ∷ es) fs = reports-append es fs

run_call-log : (c : Call) (s : Session) → (run_call c s).log ≡ s.log
unfolding run_call
run_call-log (send_text b) s = refl
run_call-log (send_binary b) s = refl
run_call-log (send_ping b) s = refl
run_call-log (close_call code reason) s = ground arith

run_calls-log : (cs : List Call) (s : Session) → (run_calls cs s).log ≡ s.log
unfolding run_calls
run_calls-log [] s = refl
run_calls-log (c ∷ cs) s = run_calls-log cs (run_call c s) ∙ run_call-log c s

module _ (h : Handlers) where
  finish_close-reports :
      (code : ℕ) (s : Session) {f : Session → ℕ → List Call}
      → h.close_handler ≡ some f
      → reports (finish_close h code s).log ≡ reports s.log ++ code ∷ []
  unfolding finish_close
  finish_close-reports code s {f} g =
      simp (g, notify_close, run_calls-log, reports-append, append_assoc)

  -- What a session reports after `DoClose`, whichever way the state is set.
  reports_if :
      (b : Bool) (code : ℕ) (s : Session) {f : Session → ℕ → List Call}
      → h.close_handler ≡ some f
      → reports
          (if b
            then finish_close h code s
            else finish_close h code (record s { state = closed })).log
        ≡ reports s.log ++ code ∷ []
  reports_if true code s g = finish_close-reports code s g
  reports_if false code s g = finish_close-reports code (record s { state = closed }) g

  do_close-if :
      (code : ℕ) (s : Session)
      → do_close h code s ≡ (
          if is_closed s.state
          then finish_close h code s
          else finish_close h code (record s { state = closed }))
  unfolding do_close
  do_close-if code s = ground arith

  -- With a close handler set, each `DoClose` closes the session and calls the handler once, with
  -- its own code: also on a session that is closed already.
  pub do_close-reports :
      (code : ℕ) (s : Session) {f : Session → ℕ → List Call}
      → h.close_handler ≡ some f
      → ((do_close h code s).state ≡ closed)
        × (reports (do_close h code s).log ≡ reports s.log ++ code ∷ [])
  do_close-reports code s g = (
    do_close_closes h code s,
    ap (λ (t : Session). reports t.log) (do_close-if code s)
        ∙ reports_if (is_closed s.state) code s g,
  )

  -- A frame with no mask, as a server sends it, with a payload below 2 ^ 32 bytes, ends the
  -- session with a protocol error at once.
  pub unmasked_frame_closes :
      (now : ℕ) (s : Session) (fin : Bool) (op : OpCode) (payload rest : Bytes)
      → length payload < 2 ^ 32
      → round h now (encode_server_frame fin op payload ++ rest) s
        ≡ leave (do_close h protocol_error s)
  unfolding round
  unmasked_frame_closes now s fin op payload rest l =
      ap
        (λ (r : ℕ × Header).
          round_checks h now r.0 r.1 (encode_server_frame fin op payload ++ rest) s)
        (parse_header-encode_server_frame fin op payload rest l).0
      ∙ (unfold round_checks in ground arith)
