-- ===== src/Ws/Session/Receive/Handled.antt =====
-- What stays in the buffer behind one frame.
use camera_player.Prelude.{
  ℕ, if_cases, Bool, true, false, not, ◌||◌, ltb, some, ◌≡◌, refl, ◌⊎◌, inl, inr, [], length, Bytes,
  arith,
}
use camera_player.Ws.Types.{OpCode, is_control_frame}
use camera_player.Ws.CloseCode.{protocol_error}
use camera_player.Ws.Frame.{Header}
use camera_player.Ws.Session.State.{State, closed, closing, is_closed, Session, Handlers}
use camera_player.Ws.Session.Effects.{do_close_closes}
use camera_player.Ws.Session.Receive.{
  Flow, end_of_buffer, handle_frame, handle_control_frame, on_frame_data, refresh_heartbeat,
}
use camera_player.Ws.Session.Receive.Frames.{
  client_frame, client_header, Admits, settle, on_frame_data-client_frame,
}

-- The buffer is empty, or the session is closed.
abbrev pub IsDone : Session → Type 0
IsDone t = (t.frame_buf ≡ []) ⊎ (t.state ≡ closed)

is_closed-eq : (st : State) → is_closed st ≡ true → st ≡ closed
is_closed-eq closed e = refl
is_closed-eq _ e = ground arith

end_of_buffer-IsDone : (t : Session) (st : State) → t.state ≡ st → IsDone (end_of_buffer [] t)
unfolding end_of_buffer
end_of_buffer-IsDone t closed e = inl (rw e refl)
end_of_buffer-IsDone t closing e = inl (rw e refl)
end_of_buffer-IsDone t _ e = inl (rw e refl)

module _ (h : Handlers) where
  handle_frame-IsDone :
      (hdr : Header) (payload : Bytes) (s : Session)
      → IsDone (settle h (handle_frame h hdr payload s))
  unfolding handle_frame
  handle_frame-IsDone hdr payload s =
      let Settled : Flow → Type 0 = λ r. IsDone (settle h r) in
      let s' = handle_control_frame h hdr.opcode payload s in
      if_cases Settled (is_control_frame hdr.opcode)
        (λ e.
          if_cases Settled (not hdr.fin || ltb 125 hdr.payload_len)
            (λ f. inr (do_close_closes h protocol_error s))
            (λ f.
              if_cases Settled (is_closed s'.state) (λ g. inr (is_closed-eq s'.state g))
                (λ g. end_of_buffer-IsDone s' s'.state refl)))
        (λ e. end_of_buffer-IsDone _ _ refl)

  -- One whole frame of the client that the options admit, read on an empty buffer, is unmasked and
  -- handled with its own flags and operation. `settle` says how the read goes on: it is over where the
  -- handling returns early, and otherwise the buffer is emptied, and read again unless the session is
  -- closing or closed. Behind it the buffer is empty, or the session is closed.
  pub on_frame_data-handled :
      (now : ℕ) (s : Session) (fin : Bool) (op : OpCode) (key : ℕ) (payload : Bytes)
      → Admits s op key payload
      → s.frame_buf ≡ []
      → let frame = client_frame fin op key payload in
        (t : Session) × (on_frame_data h false frame now s ≡ some t)
        × (t
            ≡ settle h (
                handle_frame h
                  (client_header fin op key (length payload))
                  payload
                  (refresh_heartbeat now (record s { frame_buf = frame }))))
        × IsDone t
  on_frame_data-handled now s fin op key payload a e =
      let frame = client_frame fin op key payload in
      let header = client_header fin op key (length payload) in
      let heard = refresh_heartbeat now (record s { frame_buf = frame }) in
      (
        settle h (handle_frame h header payload heard),
        on_frame_data-client_frame h now s fin op key payload a e,
        refl,
        handle_frame-IsDone header payload heard,
      )
