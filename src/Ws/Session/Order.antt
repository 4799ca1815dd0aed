-- ===== src/Ws/Session/Order.antt =====
-- The strand's queue: one write at a time, and every frame once, in the order of `EnqueueFrame`.
use camera_player.Prelude.{
  if_cases, ℕ, ◌-◌, Bool, true, false, not, ◌||◌, leb, if◌then◌else◌, some, ◌≡◌, refl, ap, ◌∙◌, sym,
  arith, List, [], ◌∷◌, ◌++◌, append_assoc, append-nil, map, Bytes,
}
use mathlib.Core.Path.{subst}
use mathlib.Core.List.{map-append}
use camera_player.Ws.Types.{ping}
use camera_player.Ws.CloseCode.{normal_closure, abnormal_closure}
use camera_player.Ws.Session.State.{
  State, closed, is_active, Session, Handlers, OutgoingItem, send_frame, do_close,
}
use camera_player.Ws.Session.Send.{is_empty, pop, do_write, push_item, run_strand, finish_write}
use camera_player.Ws.Session.Heartbeat.{on_heartbeat_timer, arm_heartbeat_timer}
use camera_player.Ws.Session.Effects.{
  writes, writes-append, Extends, Extends-trans, Extends-untouched, send_frame-Extends,
  run_call-Extends, do_close-Extends, do_close_closes,
}
use camera_player.Ws.Session.Receive.{on_frame_data}
use camera_player.Ws.Session.Receive.Extends.{OptionExtends, on_frame_data-Extends}
use camera_player.Ws.Session.Machine.{
  Step, frame_data, strand, written, timer, called, Reach, here, next,
}

-- Whether a write is under way, the handlers that wait for one, the queue, and the state.
abbrev pub WriteState : Bool → List Bool → List OutgoingItem → State → Type 0
WriteState true (c ∷ []) (item ∷ rest) st = c ≡ item.is_close
WriteState false [] [] st = Unit {0}
WriteState false [] (item ∷ rest) st = st ≡ closed
WriteState _ _ _ st = ⊥

-- At most one write is under way, its handler knows whether the queue's front is a Close frame, and the
-- queue waits for nothing only if it is empty or the session closed.
abbrev pub IsSerial : Session → Type 0
IsSerial s = WriteState s.writing s.pending s.send_queue s.state

WriteState-closed :
    (w : Bool) (p : List Bool) (q : List OutgoingItem) (st st' : State)
    → (st ≡ closed → st' ≡ closed)
    → WriteState w p q st
    → WriteState w p q st'
WriteState-closed true (c ∷ []) (item ∷ rest) st st' k x = x
WriteState-closed false [] [] st st' k x = x
WriteState-closed false [] (item ∷ rest) st st' k x = k x
WriteState-closed true [] [] st st' k x = absurd x
WriteState-closed true [] (_ ∷ _) st st' k x = absurd x
WriteState-closed true (_ ∷ []) [] st st' k x = absurd x
WriteState-closed true (_ ∷ _ ∷ _) [] st st' k x = absurd x
WriteState-closed true (_ ∷ _ ∷ _) (_ ∷ _) st st' k x = absurd x
WriteState-closed false (_ ∷ _) [] st st' k x = absurd x
WriteState-closed false (_ ∷ _) (_ ∷ _) st st' k x = absurd x

pub Extends-IsSerial : {s t : Session} → Extends s t → IsSerial s → IsSerial t
Extends-IsSerial {s} {t} x v =
    rw (x.writing_same, x.pending_same, x.queue_same)
      (WriteState-closed s.writing s.pending s.send_queue s.state t.state x.closed_stays v)

push_item-IsSerial : (item : OutgoingItem) (s : Session) → IsSerial s → IsSerial (push_item item s)
unfolding push_item
push_item-IsSerial item s v = ground arith

run_strand-IsSerial : (p : List OutgoingItem) (s : Session) → IsSerial s → IsSerial (run_strand p s)
unfolding run_strand
run_strand-IsSerial [] s v = v
run_strand-IsSerial (item ∷ rest) s v = push_item-IsSerial item (record s { posted = rest }) v

idle_closed : (t : Session) → t.writing ≡ false → t.pending ≡ [] → t.state ≡ closed → IsSerial t
idle_closed t w p e = ground arith

module _ (h : Handlers) where
  -- A session that closes has no write under way.
  closing-IsSerial :
      (code : ℕ) (s : Session) → s.writing ≡ false → s.pending ≡ [] → IsSerial (do_close h code s)
  closing-IsSerial code s w p =
      let x = do_close-Extends h code s in
      idle_closed (do_close h code s) (x.writing_same ∙ w) (x.pending_same ∙ p)
        (do_close_closes h code s)

  finish_write-IsSerial :
      (ec : Bool) (p : List Bool) (s : Session)
      → s.pending ≡ p
      → IsSerial s
      → IsSerial (finish_write h ec p s)
  unfolding finish_write
  finish_write-IsSerial ec [] s e v = v
  finish_write-IsSerial ec (c ∷ rest) s e v =
      let alone : rest ≡ [] = ground arith in
      let s' = record s { pending = rest; send_queue = pop s.send_queue; writing = false } in
      if_cases IsSerial ec (λ x. closing-IsSerial abnormal_closure s' refl alone)
        (λ x.
          if_cases IsSerial c (λ y. closing-IsSerial normal_closure s' refl alone)
            (λ y. ground arith))

  pub on_heartbeat_timer-Extends :
      (ec : Bool) (now : ℕ) (s : Session) → Extends s (on_heartbeat_timer h ec now s)
  unfolding on_heartbeat_timer
  on_heartbeat_timer-Extends ec now s =
      let s' = record s { timer_armed = false } in
      let x = Extends-untouched s s' refl refl refl refl (λ y. y) refl refl in
      let armed = λ (t : Session).
        Extends-untouched t (arm_heartbeat_timer t) refl refl refl refl (λ y. y) refl refl in
      let idle = now - s.last_activity in
      if_cases (Extends s) (ec || not (is_active s.state)) (λ e. x)
        (λ e.
          if_cases (Extends s) s.awaiting_pong
            (λ f.
              if_cases (Extends s) (leb s.options.heartbeat_timeout idle)
                (λ g. Extends-trans x (do_close-Extends h abnormal_closure s'))
                (λ g. Extends-trans x (armed s')))
            (λ f.
              if_cases (Extends s) (leb s.options.heartbeat_interval idle)
                (λ g.
                  let s'' = record s' { awaiting_pong = true } in
                  Extends-trans (Extends-untouched s s'' refl refl refl refl (λ y. y) refl refl) (
                    Extends-trans (send_frame-Extends ping [] s'')
                      (armed (send_frame ping [] s''))))
                (λ g. Extends-trans x (armed s'))))

  pub frame_data-Extends :
      (ec : Bool) (bytes : Bytes) (now : ℕ) (s t : Session)
      → on_frame_data h ec bytes now s ≡ some t
      → Extends s t
  frame_data-Extends ec bytes now s t e =
      subst (OptionExtends s) e (on_frame_data-Extends h ec bytes now s)

  Step-IsSerial : {s t : Session} → Step h s t → IsSerial s → IsSerial t
  Step-IsSerial (frame_data {s} {t} ec bytes now e) v =
      Extends-IsSerial (frame_data-Extends ec bytes now s t e) v
  Step-IsSerial (strand {s}) v = run_strand-IsSerial s.posted s v
  Step-IsSerial (written {s} ec) v = finish_write-IsSerial ec s.pending s refl v
  Step-IsSerial (timer {s} ec now) v = Extends-IsSerial (on_heartbeat_timer-Extends ec now s) v
  Step-IsSerial (called {s} c) v = Extends-IsSerial (run_call-Extends c s) v

  -- A serial session stays one.
  pub Reach-IsSerial : {s t : Session} → IsSerial s → Reach h s t → IsSerial t
  Reach-IsSerial v here = v
  Reach-IsSerial v (next r st) = Step-IsSerial st (Reach-IsSerial v r)

-- The frames of the queue whose write has not begun.
abbrev pub unstarted : Bool → List OutgoingItem → List OutgoingItem
unstarted w q = if w then pop q else q

abbrev pub frames : List OutgoingItem → List Bytes
frames items = map (λ i. i.bytes) items

-- Every frame that was ever enqueued, in the order of its write: the writes begun, the queue behind
-- the front, and what is posted to the strand.
abbrev pub outbox : Session → List Bytes
outbox s = writes s.log ++ (frames (unstarted s.writing s.send_queue) ++ frames s.posted)

-- A step adds frames at the end of the outbox only.
abbrev Grows : Session → Session → Type 0
Grows s t = (new : List Bytes) × (outbox t ≡ outbox s ++ new)

Extends-Grows : {s t : Session} → Extends s t → Grows s t
Extends-Grows {s} {t} x = (
  frames x.new_posted,
  simp (
    x.log_grows, x.queue_same, x.writing_same, x.posted_grows, writes-append, x.no_write,
    map-append, append_assoc, append-nil,
  ),
)

push_item-outbox :
    (item : OutgoingItem) (s : Session) (rest : List OutgoingItem)
    → IsSerial s
    → outbox (push_item item (record s { posted = rest }))
      ≡ writes s.log ++ (frames (unstarted s.writing s.send_queue) ++ frames (item ∷ rest))
unfolding push_item
push_item-outbox item s rest v = by_fields s.writing s.pending s.send_queue refl refl refl
  where
    by_fields :
        (w : Bool) (p : List Bool) (q : List OutgoingItem)
        → s.writing ≡ w
        → s.pending ≡ p
        → s.send_queue ≡ q
        → outbox (push_item item (record s { posted = rest }))
          ≡ writes s.log ++ (frames (unstarted s.writing s.send_queue) ++ frames (item ∷ rest))
    by_fields true p (x ∷ q) ew ep eq = simp (ew, eq, map-append, append_assoc)
    by_fields false [] [] ew ep eq = simp (ew, eq, writes-append, append_assoc)
    by_fields false p (x ∷ q) ew ep eq = simp (ew, eq, map-append, append_assoc)
    by_fields _ _ _ ew ep eq = absurd (ground arith)

run_strand-Grows :
    (p : List OutgoingItem) (s : Session) → s.posted ≡ p → IsSerial s → Grows s (run_strand p s)
unfolding run_strand
run_strand-Grows [] s e v = ([], sym (append-nil _))
run_strand-Grows (item ∷ rest) s e v = ([], push_item-outbox item s rest v ∙ simp (e, append-nil))

-- A write that ends takes its frame off the queue; the outbox had it among the writes.
popped : List Bool → Session → Session
popped rest s = record s { pending = rest; send_queue = pop s.send_queue; writing = false }

popped-outbox :
    (c : Bool) (rest : List Bool) (s : Session)
    → s.pending ≡ c ∷ rest
    → IsSerial s
    → outbox (popped rest s) ≡ outbox s
unfolding popped
popped-outbox c rest s e v = simp under_way
  where
    under_way : s.writing ≡ true
    under_way = ground arith

-- The next write takes the front of what is left.
next_write-outbox :
    (rest : List Bool) (s : Session) (q : List OutgoingItem)
    → pop s.send_queue ≡ q
    → outbox (
        if not (is_empty q)
        then do_write (record s { pending = rest; send_queue = pop s.send_queue })
        else popped rest s)
      ≡ outbox (popped rest s)
unfolding do_write popped
next_write-outbox rest s [] e = refl
next_write-outbox rest s (item ∷ q) e = simp (e, writes-append, append_assoc)

module _ (h : Handlers) where
  closed-Grows : (code : ℕ) (s t : Session) → outbox t ≡ outbox s → Grows s (do_close h code t)
  closed-Grows code s t e =
      let (new, g) = Extends-Grows (do_close-Extends h code t) in (new, g ∙ ap (λ l. l ++ new) e)

  finish_write-Grows :
      (ec : Bool) (p : List Bool) (s : Session)
      → s.pending ≡ p
      → IsSerial s
      → Grows s (finish_write h ec p s)
  unfolding finish_write popped
  finish_write-Grows ec [] s e v = ([], sym (append-nil _))
  finish_write-Grows ec (c ∷ rest) s e v =
      let same = popped-outbox c rest s e v in
      if_cases (Grows s) ec (λ x. closed-Grows abnormal_closure s (popped rest s) same)
        (λ x.
          if_cases (Grows s) c (λ y. closed-Grows normal_closure s (popped rest s) same)
            (λ y.
              ([], next_write-outbox rest s (pop s.send_queue) refl ∙ same ∙ sym (append-nil _))))

  Step-Grows : {s t : Session} → Step h s t → IsSerial s → Grows s t
  Step-Grows (frame_data {s} {t} ec bytes now e) v =
      Extends-Grows (frame_data-Extends h ec bytes now s t e)
  Step-Grows (strand {s}) v = run_strand-Grows s.posted s refl v
  Step-Grows (written {s} ec) v = finish_write-Grows ec s.pending s refl v
  Step-Grows (timer {s} ec now) v = Extends-Grows (on_heartbeat_timer-Extends h ec now s)
  Step-Grows (called {s} c) v = Extends-Grows (run_call-Extends c s)

  -- However a session goes on, no frame that was enqueued is lost, doubled or overtaken: the writes
  -- begun, the rest of the queue and what is posted stay one list, and frames join it at its end.
  pub Reach-outbox :
      {s t : Session} → IsSerial s → Reach h s t → (new : List Bytes) × (outbox t ≡ outbox s ++ new)
  Reach-outbox v here = ([], sym (append-nil _))
  Reach-outbox {s} v (next r st) =
      let (a, e) = Reach-outbox v r in
      let (b, f) = Step-Grows st (Reach-IsSerial h v r) in
      (a ++ b, f ∙ ap (λ l. l ++ b) e ∙ append_assoc (outbox s) a b)
