-- ===== src/Ws/Session/Effects.antt =====
-- What the receiving side, the timer and the application leave alone: the strand's queue and the
-- writes. They reach the writing side through `EnqueueFrame` only.
use camera_player.Prelude.{
  ℕ, false, Option-cases, ◌≡◌, refl, ap, ◌∙◌, sym, arith, List, [], ◌∷◌, ◌++◌, append_assoc,
  append-nil, Bytes, inl, inr, Bool-cases,
}
use camera_player.Ws.Types.{OpCode, text, binary, ping}
use camera_player.Ws.Session.State.{
  closed, OutgoingItem, Event, started_read, started_write, wrote_response, opened, message, pinged,
  socket_closed, closed_with, removed, closing, is_active, is_closed, Session, Handlers, Call,
  send_text, send_binary, send_ping, close_call, emit, enqueue_frame, close_session, send_frame,
  run_call, run_calls, notify_close, finish_close, do_close,
}

-- The bytes of the writes in a log, oldest first.
abbrev pub writes : List Event → List Bytes
writes [] = []
writes (started_write b ∷ es) = b ∷ writes es
writes (started_read ∷ es) = writes es
writes (wrote_response b ∷ es) = writes es
writes (opened ∷ es) = writes es
writes (message m ∷ es) = writes es
writes (pinged b ∷ es) = writes es
writes (socket_closed ∷ es) = writes es
writes (closed_with c ∷ es) = writes es
writes (removed ∷ es) = writes es

pub writes-append : (es fs : List Event) → writes (es ++ fs) ≡ writes es ++ writes fs
writes-append [] fs = refl
writes-append (started_write b ∷ es) fs = ap (◌∷◌ b) (writes-append es fs)
writes-append (started_read ∷ es) fs = writes-append es fs
writes-append (_ ∷ es) fs = writes-append es fs

pub record Extends (s t : Session) : Type 0 where
  pub options_same : t.options ≡ s.options
  pub queue_same : t.send_queue ≡ s.send_queue
  pub writing_same : t.writing ≡ s.writing
  pub pending_same : t.pending ≡ s.pending
  pub closed_stays : s.state ≡ closed → t.state ≡ closed
  pub new_posted : List OutgoingItem
  pub posted_grows : t.posted ≡ s.posted ++ new_posted
  pub new_events : List Event
  pub log_grows : t.log ≡ s.log ++ new_events
  pub no_write : writes new_events ≡ []

pub Extends-refl : (s : Session) → Extends s s
Extends-refl s = record {
  options_same = refl;
  queue_same = refl;
  writing_same = refl;
  pending_same = refl;
  closed_stays = λ e. e;
  new_posted = [];
  posted_grows = sym (append-nil _);
  new_events = [];
  log_grows = sym (append-nil _);
  no_write = refl;
}

pub Extends-trans : {s t u : Session} → Extends s t → Extends t u → Extends s u
Extends-trans {s} x y = record {
  options_same = y.options_same ∙ x.options_same;
  queue_same = y.queue_same ∙ x.queue_same;
  writing_same = y.writing_same ∙ x.writing_same;
  pending_same = y.pending_same ∙ x.pending_same;
  closed_stays = λ e. y.closed_stays (x.closed_stays e);
  new_posted = x.new_posted ++ y.new_posted;
  posted_grows =
      y.posted_grows
      ∙ ap (λ l. l ++ y.new_posted) x.posted_grows
      ∙ append_assoc s.posted x.new_posted y.new_posted;
  new_events = x.new_events ++ y.new_events;
  log_grows =
      y.log_grows
      ∙ ap (λ l. l ++ y.new_events) x.log_grows
      ∙ append_assoc s.log x.new_events y.new_events;
  no_write = writes-append x.new_events y.new_events ∙ cc (x.no_write, y.no_write);
}

-- Changes outside the fields that `Extends` follows.
pub Extends-untouched :
    (s t : Session)
    → t.options ≡ s.options
    → t.send_queue ≡ s.send_queue
    → t.writing ≡ s.writing
    → t.pending ≡ s.pending
    → (s.state ≡ closed → t.state ≡ closed)
    → t.posted ≡ s.posted
    → t.log ≡ s.log
    → Extends s t
Extends-untouched s t o q w p c po l = record {
  options_same = o;
  queue_same = q;
  writing_same = w;
  pending_same = p;
  closed_stays = c;
  new_posted = [];
  posted_grows = po ∙ sym (append-nil _);
  new_events = [];
  log_grows = l ∙ sym (append-nil _);
  no_write = refl;
}

pub emit-Extends : (e : Event) (s : Session) → writes (e ∷ []) ≡ [] → Extends s (emit e s)
emit-Extends e s h = record {
  options_same = refl;
  queue_same = refl;
  writing_same = refl;
  pending_same = refl;
  closed_stays = λ x. x;
  new_posted = [];
  posted_grows = sym (append-nil _);
  new_events = e ∷ [];
  log_grows = refl;
  no_write = h;
}

pub enqueue_frame-Extends : (item : OutgoingItem) (s : Session) → Extends s (enqueue_frame item s)
enqueue_frame-Extends item s = record {
  options_same = refl;
  queue_same = refl;
  writing_same = refl;
  pending_same = refl;
  closed_stays = λ x. x;
  new_posted = item ∷ [];
  posted_grows = refl;
  new_events = [];
  log_grows = sym (append-nil _);
  no_write = refl;
}

pub close_session-Extends :
    (code : ℕ) (reason : Bytes) (s : Session) → Extends s (close_session code reason s)
unfolding close_session
close_session-Extends code reason s = elim (Bool-cases (is_active s.state)) [
  | inl e ↦ rw e (
      Extends-trans
        (Extends-untouched s (record s { state = closing }) refl refl refl refl
          (λ x. absurd (ground arith)) refl refl)
        (enqueue_frame-Extends _ (record s { state = closing })))
  | inr e ↦ rw e (Extends-refl s)
]

pub send_frame-Extends : (op : OpCode) (b : Bytes) (s : Session) → Extends s (send_frame op b s)
unfolding send_frame
send_frame-Extends op b s = enqueue_frame-Extends _ s

pub run_call-Extends : (c : Call) (s : Session) → Extends s (run_call c s)
unfolding run_call
run_call-Extends (send_text b) s = send_frame-Extends text b s
run_call-Extends (send_binary b) s = send_frame-Extends binary b s
run_call-Extends (send_ping b) s = send_frame-Extends ping b s
run_call-Extends (close_call code reason) s = close_session-Extends code reason s

pub run_calls-Extends : (cs : List Call) (s : Session) → Extends s (run_calls cs s)
unfolding run_calls
run_calls-Extends [] s = Extends-refl s
run_calls-Extends (c ∷ cs) s =
    Extends-trans (run_call-Extends c s) (run_calls-Extends cs (run_call c s))

-- A handler's call: an event, and what the handler answers.
pub notified-Extends :
    (e : Event) (cs : List Call) (s : Session)
    → writes (e ∷ []) ≡ []
    → Extends s (run_calls cs (emit e s))
notified-Extends e cs s h = Extends-trans (emit-Extends e s h) (run_calls-Extends cs (emit e s))

module _ (h : Handlers) where
  notify_close-Extends : (code : ℕ) (s : Session) → Extends s (notify_close h code s)
  unfolding notify_close
  notify_close-Extends code s = elim (Option-cases h.close_handler) [
    | inl e ↦ rw e (Extends-refl s)
    | inr (f, e) ↦ rw e (notified-Extends (closed_with code) (f s code) s refl)
  ]

  pub finish_close-Extends : (code : ℕ) (s : Session) → Extends s (finish_close h code s)
  unfolding finish_close
  finish_close-Extends code s =
      let s' = record s { timer_armed = false } in
      Extends-trans (Extends-untouched s s' refl refl refl refl (λ x. x) refl refl) (
        Extends-trans (emit-Extends socket_closed s' refl) (
          Extends-trans (notify_close-Extends code (emit socket_closed s'))
            (emit-Extends removed (notify_close h code (emit socket_closed s')) refl)))

  pub do_close-Extends : (code : ℕ) (s : Session) → Extends s (do_close h code s)
  unfolding do_close
  do_close-Extends code s = elim (Bool-cases (is_closed s.state)) [
    | inl e ↦ rw e (finish_close-Extends code s)
    | inr e ↦ rw e (
        Extends-trans
          (Extends-untouched s (record s { state = closed }) refl refl refl refl (λ x. refl) refl
            refl)
          (finish_close-Extends code (record s { state = closed })))
  ]

  -- `DoClose` leaves the session closed, whatever its handler does.
  pub do_close_closes : (code : ℕ) (s : Session) → (do_close h code s).state ≡ closed
  unfolding do_close
  do_close_closes code s = elim (Bool-cases (is_closed s.state)) [
    | inl e ↦ rw e ((finish_close-Extends code s).closed_stays (ground arith))
    | inr e ↦ rw e ((finish_close-Extends code (record s { state = closed })).closed_stays refl)
  ]
