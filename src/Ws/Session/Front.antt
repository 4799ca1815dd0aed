-- ===== src/Ws/Session/Front.antt =====
-- The write under way is that of the frame at the front of the queue.
use camera_player.Prelude.{
  ℕ, if_cases, if◌then◌else◌, Bool, true, false, not, ◌≡◌, refl, ap, ◌∙◌, List, [], ◌∷◌, ◌++◌,
  append-nil, Bytes,
}
use camera_player.Ws.CloseCode.{normal_closure, abnormal_closure}
use camera_player.Ws.Session.State.{Session, Handlers, OutgoingItem, started_write, do_close}
use camera_player.Ws.Session.Send.{is_empty, pop, do_write, push_item, run_strand, finish_write}
use camera_player.Ws.Session.Effects.{
  writes, writes-append, Extends, run_call-Extends, do_close-Extends,
}
use camera_player.Ws.Session.Machine.{
  Step, frame_data, strand, written, timer, called, Reach, here, next,
}
use camera_player.Ws.Session.Order.{
  IsSerial, frame_data-Extends, on_heartbeat_timer-Extends, Reach-IsSerial,
}

-- Whether a write is under way, the queue, and the bytes of the writes so far: while one is under way,
-- the last bytes written are those of the queue's front.
abbrev pub FrontWritten : Bool → List OutgoingItem → List Bytes → Type 0
FrontWritten false q written_bytes = Unit {0}
FrontWritten true [] written_bytes = ⊥
FrontWritten true (item ∷ rest) written_bytes =
    (before : List Bytes) × (written_bytes ≡ before ++ item.bytes ∷ [])

abbrev pub IsFrontWritten : Session → Type 0
IsFrontWritten s = FrontWritten s.writing s.send_queue (writes s.log)

Extends-IsFrontWritten : {s t : Session} → Extends s t → IsFrontWritten s → IsFrontWritten t
Extends-IsFrontWritten {s} {t} x f =
    let same : writes t.log ≡ writes s.log =
      ap writes x.log_grows
      ∙ writes-append s.log x.new_events
      ∙ ap (λ l. writes s.log ++ l) x.no_write
      ∙ append-nil (writes s.log) in
    rw (x.writing_same, x.queue_same, same) f

-- `DoWrite` on a queue that is not empty.
do_write-IsFrontWritten :
    (item : OutgoingItem) (rest : List OutgoingItem) (s : Session)
    → s.send_queue ≡ item ∷ rest
    → IsFrontWritten (do_write s)
unfolding do_write
do_write-IsFrontWritten item rest s e =
    rw (e) (writes s.log, writes-append s.log (started_write item.bytes ∷ []))

push_item-IsFrontWritten :
    (item : OutgoingItem) (w : Bool) (q : List OutgoingItem) (s : Session)
    → s.writing ≡ w
    → s.send_queue ≡ q
    → FrontWritten w q (writes s.log)
    → IsFrontWritten (push_item item s)
unfolding push_item
push_item-IsFrontWritten item true [] s ew eq f = absurd f
push_item-IsFrontWritten item false [] s ew eq f =
    rw (eq, ew) (do_write-IsFrontWritten item [] (record s { send_queue = item ∷ [] }) refl)
push_item-IsFrontWritten item true (x ∷ q) s ew eq f = rw (eq, ew) f
push_item-IsFrontWritten item false (x ∷ q) s ew eq f = rw (eq, ew) _

idle_front : (t : Session) → t.writing ≡ false → IsFrontWritten t
idle_front t e = rw e _

module _ (h : Handlers) where
  closing-IsFrontWritten :
      (code : ℕ) (s : Session) → s.writing ≡ false → IsFrontWritten (do_close h code s)
  closing-IsFrontWritten code s w =
      idle_front (do_close h code s) ((do_close-Extends h code s).writing_same ∙ w)

  next-IsFrontWritten :
      (q : List OutgoingItem) (s : Session)
      → s.send_queue ≡ q
      → IsFrontWritten (if not (is_empty q) then do_write s else record s { writing = false })
  next-IsFrontWritten [] s e = _
  next-IsFrontWritten (item ∷ rest) s e = do_write-IsFrontWritten item rest s e

  finish_write-IsFrontWritten :
      (ec : Bool) (p : List Bool) (s : Session)
      → IsFrontWritten s
      → IsFrontWritten (finish_write h ec p s)
  unfolding finish_write
  finish_write-IsFrontWritten ec [] s f = f
  finish_write-IsFrontWritten ec (c ∷ rest) s f =
      let s' = record s { pending = rest; send_queue = pop s.send_queue } in
      let idle = record s' { writing = false } in
      if_cases IsFrontWritten ec (λ x. closing-IsFrontWritten abnormal_closure idle refl)
        (λ x.
          if_cases IsFrontWritten c (λ y. closing-IsFrontWritten normal_closure idle refl)
            (λ y. next-IsFrontWritten (pop s.send_queue) s' refl))

  run_strand-IsFrontWritten :
      (p : List OutgoingItem) (s : Session) → IsFrontWritten s → IsFrontWritten (run_strand p s)
  unfolding run_strand
  run_strand-IsFrontWritten [] s f = f
  run_strand-IsFrontWritten (item ∷ rest) s f =
      push_item-IsFrontWritten item s.writing s.send_queue (record s { posted = rest }) refl refl f

  Step-IsFrontWritten : {s t : Session} → Step h s t → IsFrontWritten s → IsFrontWritten t
  Step-IsFrontWritten (frame_data {s} {t} ec bytes now e) f =
      Extends-IsFrontWritten (frame_data-Extends h ec bytes now s t e) f
  Step-IsFrontWritten (strand {s}) f = run_strand-IsFrontWritten s.posted s f
  Step-IsFrontWritten (written {s} ec) f = finish_write-IsFrontWritten ec s.pending s f
  Step-IsFrontWritten (timer {s} ec now) f =
      Extends-IsFrontWritten (on_heartbeat_timer-Extends h ec now s) f
  Step-IsFrontWritten (called {s} c) f = Extends-IsFrontWritten (run_call-Extends c s) f

  -- From a session that is serial and whose write under way, if there is one, is the last one begun and
  -- has the bytes of the frame at the front of the queue, as of a new session, only such sessions are
  -- reached: at most one write is under way, it is that of the frame at the front of the queue, and its
  -- handler knows whether that is a Close frame; where none is under way, the queue is empty or the
  -- session is closed.
  pub Reach-IsFrontWritten :
      {s t : Session} → IsSerial s → IsFrontWritten s → Reach h s t → IsSerial t × IsFrontWritten t
  Reach-IsFrontWritten v f here = (v, f)
  Reach-IsFrontWritten v f (next r st) =
      let (w, g) = Reach-IsFrontWritten v f r in
      (Reach-IsSerial h v (next r st), Step-IsFrontWritten st g)
