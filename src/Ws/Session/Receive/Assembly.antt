-- ===== src/Ws/Session/Receive/Assembly.antt =====
-- Fragments put together: `HandleDataFrame` on the frames of one message.
use camera_player.Prelude.{
  ◌+◌, ◌≤◌, Bool, true, false, ◌&&◌, ltb, some, ◌≡◌, refl, sym, ap, ◌∙◌, arith, ◌⊎◌, inl, inr, List,
  [], ◌∷◌, ◌++◌, append_assoc, append-nil, length, length-append, Bytes,
}
use camera_player.Ws.Types.{OpCode, continuation, text, binary, Message}
use camera_player.Ws.Session.State.{Session, Handlers, Call, message, emit, run_calls}
use camera_player.Ws.Session.Receive.{
  deliver_message, finish_data, first_fragment, next_fragment, handle_data_frame,
}

abbrev pub concat : List Bytes → Bytes
concat [] = []
concat (p ∷ ps) = p ++ concat ps

module _ (h : Handlers) where
  -- The frames of a message: the first with its operation, the rest as continuations, FIN on the
  -- last one.
  abbrev pub feed_rest : List Bytes → Session → Session
  feed_rest [] s = s
  feed_rest (q ∷ []) s = handle_data_frame h continuation true q s
  feed_rest (q ∷ r ∷ rs) s = feed_rest (r ∷ rs) (handle_data_frame h continuation false q s)

  abbrev pub feed : OpCode → Bytes → List Bytes → Session → Session
  feed op p [] s = handle_data_frame h op true p s
  feed op p (q ∷ qs) s = feed_rest (q ∷ qs) (handle_data_frame h op false p s)

  next_fragment-started :
      (fin : Bool) (q : Bytes) (s : Session)
      → s.msg_started ≡ true
      → length s.msg_payload + length q ≤ s.options.max_message_bytes
      → handle_data_frame h continuation fin q s
        ≡ finish_data h fin (record s { msg_payload = s.msg_payload ++ q })
  unfolding handle_data_frame next_fragment
  next_fragment-started fin q s e l =
      let fits : (ltb 0 (length q)
            && ltb s.options.max_message_bytes (length s.msg_payload + length q))
          ≡ false =
        ground arith in
      simp (e, fits)

  first_fragment-fresh :
      (op : OpCode) (fin : Bool) (p : Bytes) (s : Session)
      → (op ≡ text) ⊎ (op ≡ binary)
      → s.msg_started ≡ false
      → length p ≤ s.options.max_message_bytes
      → handle_data_frame h op fin p s
        ≡ finish_data h fin (record s { msg_started = true; msg_opcode = op; msg_payload = p })
  unfolding handle_data_frame first_fragment
  first_fragment-fresh op fin p s d e l =
      let fits : (ltb 0 (length p) && ltb s.options.max_message_bytes (length p)) ≡ false =
        ground arith in
      elim d [ inl t ↦ simp (t, e, fits) | inr b ↦ simp (b, e, fits) ]

  finish_data_more : (s : Session) → finish_data h false s ≡ s
  unfolding finish_data
  finish_data_more s = refl

  finish_data_last :
      (s : Session) {f : Session → Message → List Call}
      → h.message_handler ≡ some f
      → let m : Message = record { opcode = s.msg_opcode; payload = s.msg_payload } in
        let s' = record s { msg_payload = [] } in
        finish_data h true s ≡ record (run_calls (f s' m) (emit (message m) s')) {
          msg_started = false;
          msg_payload = [];
        }
  unfolding finish_data
  finish_data_last s g = rw (g, deliver_message)

  feed_rest-started :
      (q : Bytes) (qs : List Bytes) (s : Session)
      → s.msg_started ≡ true
      → length s.msg_payload + length (concat (q ∷ qs)) ≤ s.options.max_message_bytes
      → feed_rest (q ∷ qs) s
        ≡ finish_data h true (record s { msg_payload = s.msg_payload ++ concat (q ∷ qs) })
  feed_rest-started q [] s e l =
      next_fragment-started true q s e (omega (arith, length-append q []))
      ∙ ap (λ b. finish_data h true (record s { msg_payload = s.msg_payload ++ b }))
          (sym (append-nil q))
  feed_rest-started q (r ∷ rs) s e l =
      let s' = record s { msg_payload = s.msg_payload ++ q } in
      ap (feed_rest (r ∷ rs)) (
        next_fragment-started false q s e (omega (arith, length-append q (concat (r ∷ rs))))
        ∙ finish_data_more _)
      ∙ feed_rest-started r rs s' e
          (omega (arith, length-append q (concat (r ∷ rs)), length-append s.msg_payload q))
      ∙ ap (λ b. finish_data h true (record s { msg_payload = b }))
          (append_assoc s.msg_payload q (concat (r ∷ rs)))

  -- However a message is cut into frames, it is put together as if it had come in one.
  feed-whole :
      (op : OpCode) (p : Bytes) (qs : List Bytes) (s : Session)
      → (op ≡ text) ⊎ (op ≡ binary)
      → s.msg_started ≡ false
      → length (p ++ concat qs) ≤ s.options.max_message_bytes
      → feed op p qs s
        ≡ finish_data h true
            (record s { msg_started = true; msg_opcode = op; msg_payload = p ++ concat qs })
  feed-whole op p [] s d e l =
      first_fragment-fresh op true p s d e (omega (arith, length-append p []))
      ∙ ap
          (λ b.
            finish_data h true (record s { msg_started = true; msg_opcode = op; msg_payload = b }))
          (sym (append-nil p))
  feed-whole op p (q ∷ qs) s d e l =
      ap (feed_rest (q ∷ qs)) (
        first_fragment-fresh op false p s d e (omega (arith, length-append p (concat (q ∷ qs))))
        ∙ finish_data_more _)
      ∙ feed_rest-started q qs (record s { msg_started = true; msg_opcode = op; msg_payload = p })
          refl (omega (arith, length-append p (concat (q ∷ qs))))

  -- In a session with a message handler and no message begun, a text or binary message within the
  -- session's limit, however it is cut into frames, is handed to the handler once and whole: the
  -- handler's calls run, and the session is ready for the next message.
  pub feed_delivers :
      (op : OpCode) (p : Bytes) (qs : List Bytes) (s : Session) {f : Session → Message → List Call}
      → (op ≡ text) ⊎ (op ≡ binary)
      → s.msg_started ≡ false
      → length (p ++ concat qs) ≤ s.options.max_message_bytes
      → h.message_handler ≡ some f
      → let m : Message = record { opcode = op; payload = p ++ concat qs } in
        let s' = record s { msg_started = true; msg_opcode = op; msg_payload = [] } in
        feed op p qs s ≡ record (run_calls (f s' m) (emit (message m) s')) {
          msg_started = false;
          msg_payload = [];
        }
  feed_delivers op p qs s d e l g =
      feed-whole op p qs s d e l
      ∙ finish_data_last
          (record s { msg_started = true; msg_opcode = op; msg_payload = p ++ concat qs }) g
