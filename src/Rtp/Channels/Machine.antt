-- ===== src/Rtp/Channels/Machine.antt =====
-- The calls and callbacks of a transport as a step relation, on the transport and the world behind it.
-- `Start`, which only opens a transport again that `Stop` has closed, is left out.
use camera_player.Prelude.{ℕ, Bool, false, Option, none, some, List, [], ◌∷◌, ◌++◌, Bytes}
use camera_player.Rtp.Packet.{RtpPacket}
use camera_player.Rtp.Senders.{Sender, Sent, Endpoint}
use camera_player.Rtp.Channels.{
  FrameProvider, Channel, Transport, update_channel, get_channel, set_sender, set_clock_rate,
  set_payload_type, set_ssrc, set_rtp_over_tcp, set_rtp_over_udp, set_rtp_over_multicast,
  set_playing, set_frame_rate, set_frame_provider, stop,
}
use camera_player.Rtp.Channels.Timer.{transport_send, on_timer}

-- The interval of a wait has passed: its handler is ready.
abbrev pub expire : {State : Type 0} → Channel State → Channel State
expire c = elim c.armed [
  | none ↦ c
  | some interval ↦ record c { armed = none; due = c.due ++ false ∷ [] }
]

module _ {State : Type 0} (write : Sent → State → Bool × State) where
  -- The first handler that is ready for a channel runs, if there is one.
  abbrev pub run_due : List Bool → ℕ → Transport State → State → Transport State × State
  run_due [] i t s = (t, s)
  run_due (ec ∷ rest) i t s =
      on_timer write ec i (update_channel i (λ c. record c { due = rest }) t) s

  abbrev pub ready : ℕ → Transport State → List Bool
  ready i t = elim (get_channel i t) [ none ↦ [] | some c ↦ c.due ]

  pub data Step : Transport State → State → Transport State → State → Type 0 where
    sender_set :
        {t : Transport State} {s : State} (sender : Option Sender)
        → Step t s (set_sender sender t) s
    clock_rate_set :
        {t : Transport State} {s : State} (i rate : ℕ) → Step t s (set_clock_rate i rate t) s
    payload_type_set :
        {t : Transport State} {s : State} (i payload : ℕ)
        → Step t s (set_payload_type i payload t) s
    ssrc_set : {t : Transport State} {s : State} (i ssrc : ℕ) → Step t s (set_ssrc i ssrc t) s
    over_tcp :
        {t : Transport State} {s : State} (i rtp rtcp : ℕ)
        → Step t s (set_rtp_over_tcp i rtp rtcp t).1 s
    over_udp :
        {t : Transport State} {s : State} (local_end : Option Endpoint) (i rtp rtcp : ℕ)
        → Step t s (set_rtp_over_udp local_end i rtp rtcp t).1 s
    over_multicast :
        {t : Transport State} {s : State} (i : ℕ) (ip : Bytes) (port : ℕ)
        → Step t s (set_rtp_over_multicast i ip port t).1 s
    playing_set :
        {t : Transport State} {s : State} (i : ℕ) (playing : Bool)
        → Step t s (set_playing i playing t) s
    frame_rate_set :
        {t : Transport State} {s : State} (i fps : ℕ) → Step t s (set_frame_rate i fps t) s
    provider_set :
        {t : Transport State} {s : State} (i : ℕ) (provider : Option (FrameProvider State))
        → Step t s (set_frame_provider i provider t) s
    stopped : {t : Transport State} {s : State} → Step t s (stop t) s
    sent :
        {t : Transport State} {s : State} (i : ℕ) (p : RtpPacket)
        → Step t s (transport_send write i p t s).1 (transport_send write i p t s).2
    expired : {t : Transport State} {s : State} (i : ℕ) → Step t s (update_channel i expire t) s
    timer :
        {t : Transport State} {s : State} (i : ℕ)
        → Step t s (run_due (ready i t) i t s).0 (run_due (ready i t) i t s).1

  pub data Reach (t : Transport State) (s : State) : Transport State → State → Type 0 where
    here : Reach t s t s
    next : {u v : Transport State} {r q : State} → Reach t s u r → Step u r v q → Reach t s v q
