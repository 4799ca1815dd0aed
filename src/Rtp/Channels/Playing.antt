-- ===== src/Rtp/Channels/Playing.antt =====
-- A channel that plays keeps its timer going.
use camera_player.Prelude.{
  ℕ, bit_and, zero, suc, ◌+◌, ◌%◌, ◌^◌, ltb, Bool, true, false, not, if_cases, Option, none, some,
  ◌≡◌, refl, arith, List, [], ◌∷◌,
}
use camera_player.Rtp.Packet.{RtpPacket}
use camera_player.Rtp.Transport.{MediaChannelInfo}
use camera_player.Rtp.Senders.{Sender, Sent, get_local_port}
use camera_player.Rtp.Channels.{
  FrameProvider, tcp_info, udp_info, multicast_info, Channel, Transport, update_channel,
  play_channel, stop, start, set_playing,
}
use camera_player.Rtp.Channels.Timer.{
  send_on, send_by, transport_send, send_frame, provide_frame, is_looping, on_timer,
}
use camera_player.Rtp.Channels.Machine.{
  run_due, ready, Step, sender_set, clock_rate_set, payload_type_set, ssrc_set, over_tcp, over_udp,
  over_multicast, playing_set, frame_rate_set, provider_set, stopped, sent, expired, timer, Reach,
  here, next,
}
use camera_player.Rtp.Channels.Live.{
  has_expired, has_expired-append, IsLive, IsWoken, play_channel-IsLive, stop_event_loop-IsLive,
  expire-IsLive, wait_again-IsLive, woken, asleep-IsLive, cancelled-IsLive, IsLive-info,
  IsWoken-info, set_mode-IsLive, IsLive-clock_rate, IsLive-provider, IsLive-frame_rate,
}

module _ {State : Type 0} where
  -- A predicate of each channel.
  abbrev pub Both : (Channel State → Type 0) → (Channel State → Type 0) → Transport State → Type 0
  Both P Q t = P t.channel_0 × Q t.channel_1

  update_channel-Both :
      (P : Channel State → Type 0) (i : ℕ) (f : Channel State → Channel State) (t : Transport State)
      → ((c : Channel State) → P c → P (f c))
      → Both P P t
      → Both P P (update_channel i f t)
  update_channel-Both P i f t k h = ground (arith, k t.channel_0, k t.channel_1)

  update_channel-is_closed :
      (i : ℕ) (f : Channel State → Channel State) (t : Transport State)
      → (update_channel i f t).is_closed ≡ t.is_closed
  update_channel-is_closed i f t = ground arith

  module _ (write : Sent → State → Bool × State) (P Q : Channel State → Type 0)
      (keeps : (c : Channel State) (info : MediaChannelInfo) → P c → P (record c { info = info }))
      (keeps' : (c : Channel State) (info : MediaChannelInfo)
        → Q c
        → Q (record c { info = info })) where
    send_by-Q :
        (sender : Option Sender) (i : ℕ) (p : RtpPacket) (c : Channel State) (s : State)
        → Q c
        → Q (send_by write sender i p c s).1
    send_by-Q none i p c s h = h
    send_by-Q (some sender) i p c s h = keeps' c (send_on write sender i p c.info s).1 h

    send_by-P :
        (sender : Option Sender) (i : ℕ) (p : RtpPacket) (c : Channel State) (s : State)
        → P c
        → P (send_by write sender i p c s).1
    send_by-P none i p c s h = h
    send_by-P (some sender) i p c s h = keeps c (send_on write sender i p c.info s).1 h

    -- Sending changes what a channel counts, and nothing else of the transport.
    transport_send-Both :
        (i : ℕ) (p : RtpPacket) (t : Transport State) (s : State)
        → Both P Q t
        → ((transport_send write i p t s).1.is_closed ≡ t.is_closed)
          × Both P Q (transport_send write i p t s).1
    unfolding transport_send
    transport_send-Both i p t s h =
        ground (
          arith,
          send_by-P t.sender i p t.channel_0 s h.0,
          send_by-Q t.sender i p t.channel_1 s h.1,
        )

    provide_frame-Both :
        (i : ℕ) (provider : Option (FrameProvider State)) (t : Transport State) (s : State)
        → Both P Q t
        → ((provide_frame write i provider t s).0.is_closed ≡ t.is_closed)
          × Both P Q (provide_frame write i provider t s).0
    provide_frame-Both i none t s h = (refl, h)
    provide_frame-Both i (some provider) t s h = sent_one (provider s)
      where
        sent_one :
            (r : Option RtpPacket × State)
            → ((send_frame write i r t).0.is_closed ≡ t.is_closed)
              × Both P Q (send_frame write i r t).0
        sent_one (none, s') = (refl, h)
        sent_one (some p, s') = transport_send-Both i p t s' h

  -- Every channel of the transport keeps its timer going.
  abbrev pub AreLive : Transport State → Type 0
  AreLive t = Both (IsLive t.is_closed) (IsLive t.is_closed) t

  update_channel-AreLive :
      (i : ℕ) (f : Channel State → Channel State) (t : Transport State)
      → ((c : Channel State) → IsLive t.is_closed c → IsLive t.is_closed (f c))
      → AreLive t
      → AreLive (update_channel i f t)
  update_channel-AreLive i f t k h =
      rw (update_channel-is_closed i f t) (update_channel-Both (IsLive t.is_closed) i f t k h)

  stop-AreLive : (t : Transport State) → AreLive t → AreLive (stop t)
  unfolding stop
  stop-AreLive t h =
      if_cases AreLive t.is_closed (λ e. h)
        (λ e. (
          stop_event_loop-IsLive t.is_closed t.channel_0 h.0,
          stop_event_loop-IsLive t.is_closed t.channel_1 h.1,
        ))

  module _ (write : Sent → State → Bool × State) where
    transport_send-AreLive :
        (i : ℕ) (p : RtpPacket) (t : Transport State) (s : State)
        → AreLive t
        → AreLive (transport_send write i p t s).1
    transport_send-AreLive i p t s h =
        let (closed, both) =
          transport_send-Both write (IsLive t.is_closed) (IsLive t.is_closed)
            (IsLive-info t.is_closed) (IsLive-info t.is_closed) i p t s h in
        rw closed both

    -- The handler that is taken off was cancelled, or wakes a channel.
    run_due-AreLive :
        (due : List Bool) (i : ℕ) (t : Transport State) (s : State)
        → ready write i t ≡ due
        → AreLive t
        → AreLive (run_due write due i t s).0
    unfolding on_timer
    run_due-AreLive [] i t s e h = h
    run_due-AreLive (true ∷ due) zero t s e h =
        (cancelled-IsLive t.is_closed t.channel_0 due h.0 (ground arith), h.1)
    run_due-AreLive (true ∷ due) (suc zero) t s e h =
        (h.0, cancelled-IsLive t.is_closed t.channel_1 due h.1 (ground arith))
    run_due-AreLive (true ∷ due) (suc (suc i)) t s e h = ground arith
    run_due-AreLive (false ∷ due) zero t s e h =
        let c = record t.channel_0 { due = due } in
        let w : IsWoken t.is_closed c = woken t.is_closed t.channel_0 due h.0 in
        if_cases (λ (r : Transport State × State). AreLive r.0) (not (is_looping c))
          (λ q. (asleep-IsLive t.is_closed c w (ground arith), h.1))
          (λ q.
            let (closed, both) =
              provide_frame-Both write (IsWoken t.is_closed) (IsLive t.is_closed)
                (IsWoken-info t.is_closed) (IsLive-info t.is_closed) 0 c.provider
                (record t { channel_0 = c }) s (w, h.1) in
            rw closed (wait_again-IsLive t.is_closed _ both.0, both.1))
    run_due-AreLive (false ∷ due) (suc zero) t s e h =
        let c = record t.channel_1 { due = due } in
        let w : IsWoken t.is_closed c = woken t.is_closed t.channel_1 due h.1 in
        if_cases (λ (r : Transport State × State). AreLive r.0) (not (is_looping c))
          (λ q. (h.0, asleep-IsLive t.is_closed c w (ground arith)))
          (λ q.
            let (closed, both) =
              provide_frame-Both write (IsLive t.is_closed) (IsWoken t.is_closed)
                (IsLive-info t.is_closed) (IsWoken-info t.is_closed) 1 c.provider
                (record t { channel_1 = c }) s (h.0, w) in
            rw closed (both.0, wait_again-IsLive t.is_closed _ both.1))
    run_due-AreLive (false ∷ due) (suc (suc i)) t s e h = ground arith

    Step-AreLive :
        {t : Transport State} {s : State} {u : Transport State} {r : State}
        → Step write t s u r
        → AreLive t
        → AreLive u
    Step-AreLive (sender_set sender) h = h
    Step-AreLive (clock_rate_set {t} i rate) h =
        update_channel-AreLive i _ t (λ c k. IsLive-clock_rate t.is_closed c rate k) h
    Step-AreLive (payload_type_set {t} i payload) h =
        update_channel-AreLive i _ t
          (λ c k. IsLive-info t.is_closed c (record c.info { payload = bit_and payload 0x7F }) k) h
    Step-AreLive (ssrc_set {t} i ssrc) h =
        update_channel-AreLive i _ t
          (λ c k. IsLive-info t.is_closed c (record c.info { ssrc = ssrc }) k) h
    Step-AreLive (over_tcp {t} i rtp rtcp) h =
        update_channel-AreLive i _ t (λ c k. set_mode-IsLive t.is_closed (tcp_info rtp rtcp) c k) h
    Step-AreLive (over_udp {t} local_end i rtp rtcp) h =
        let near = get_local_port local_end in
        update_channel-AreLive i _ t
          (λ c k. set_mode-IsLive t.is_closed (udp_info near ((near + 1) % 2 ^ 16) rtp rtcp) c k) h
    Step-AreLive (over_multicast {t} i ip port) h =
        if_cases (λ (r : Bool × Transport State). AreLive r.1) (ltb i 2)
          (λ e.
            update_channel-AreLive i _ (record t { is_multicast = true })
              (λ c k. set_mode-IsLive t.is_closed (multicast_info ip port) c k) h)
          (λ e. h)
    Step-AreLive (playing_set {t} i playing) h =
        update_channel-AreLive i _ t (λ c k. play_channel-IsLive t.is_closed playing c k) h
    Step-AreLive (frame_rate_set {t} i fps) h =
        update_channel-AreLive i _ t (λ c k. IsLive-frame_rate t.is_closed c fps k) h
    Step-AreLive (provider_set {t} i provider) h =
        update_channel-AreLive i _ t (λ c k. IsLive-provider t.is_closed c provider k) h
    Step-AreLive (stopped {t}) h = stop-AreLive t h
    Step-AreLive (sent {t} {s} i p) h = transport_send-AreLive i p t s h
    Step-AreLive (expired {t} i) h =
        update_channel-AreLive i _ t (λ c k. expire-IsLive t.is_closed c k) h
    Step-AreLive (timer {t} {s} i) h = run_due-AreLive (ready write i t) i t s refl h

    -- However a transport is used, as long as `Start` does not open it again, this stays so of both
    -- its channels: on a transport that is not closed, a channel that plays has its loop running; a
    -- loop that runs has a wait under way or a handler that is ready and was not cancelled; a loop
    -- only runs on a channel that plays, and a wait is only under way for a loop that runs; and the
    -- frame rate is not zero.
    pub Reach-AreLive :
        {t : Transport State} {s : State} {u : Transport State} {r : State}
        → Reach write t s u r
        → AreLive t
        → AreLive u
    Reach-AreLive here h = h
    Reach-AreLive (next r st) h = Step-AreLive st (Reach-AreLive r h)

  -- A transport that is open and whose first channel plays, with no handler ready but cancelled
  -- ones, is stopped, started again and told to play the channel: it is open and the channel counts
  -- as playing, but its loop does not run, no wait is under way, and no handler is ready but
  -- cancelled ones.
  pub restart-stuck :
      (t : Transport State)
      → t.is_closed ≡ false
      → t.channel_0.is_playing ≡ true
      → has_expired t.channel_0.due ≡ false
      → let u = set_playing 0 true (start (stop t)) in
        (u.is_closed ≡ false)
        × (u.channel_0.is_playing ≡ true)
        × (u.channel_0.is_loop_running ≡ false)
        × (u.channel_0.armed ≡ none)
        × (has_expired u.channel_0.due ≡ false)
  unfolding stop start play_channel
  restart-stuck t e p d = ground (arith, has_expired-append t.channel_0.due true)
