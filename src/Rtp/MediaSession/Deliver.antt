-- ===== src/Rtp/MediaSession/Deliver.antt =====
-- `DispatchToClients` and `HandleFrame` of src/rtp/mediasession.cpp.
use camera_player.Prelude.{
  ℕ, Bool, true, false, not, ◌||◌, if◌then◌else◌, Option, none, some, [], ◌∷◌, take, Bytes,
}
use camera_player.Prelude.Numbers.{ℤ}
use camera_player.Rtp.Packet.{RtpPacket, NalFrame, write_at}
use camera_player.Rtp.H264.{handle_frame}
use camera_player.Rtp.MediaSession.{Clients, MediaSession, is_handle, get_source}

-- The packet that a client is sent: a new one, whose array is not initialised, with the bytes of the
-- packet that is dispatched.
abbrev pub client_packet : Bytes → RtpPacket → RtpPacket
client_packet memory p = record p { bytes = write_at 0 (take p.size p.bytes) memory }

-- The store of transports: whether one is alive, and `SendRtpPacket` on it.
module _ {World : Type 0} (alive : ℕ → World → Bool)
    (send_rtp_packet : ℕ → ℕ → RtpPacket → World → World) where
  -- The loop of `DispatchToClients`. Each handle stands once in the map, so the local map of packets
  -- never has one for it yet; `memory` is what the arrays of the new packets hold.
  unfoldable pub dispatch_loop : (ℤ → Bytes) → ℕ → RtpPacket → Bool → Clients → World → World
  dispatch_loop memory channel p is_multicast [] w = w
  dispatch_loop memory channel p is_multicast ((k, c) ∷ cs) w =
      let next = dispatch_loop memory channel p is_multicast cs in
      if not c.is_active || not (alive c.client w) || not (is_handle k)
      then next w
      else (let sent = send_rtp_packet c.client channel (client_packet (memory k) p) w in
          if is_multicast then sent else next sent)

  unfoldable pub dispatch_to_clients : (ℤ → Bytes) → ℕ → RtpPacket → MediaSession → World → World
  unfolding dispatch_loop
  dispatch_to_clients memory channel p m w =
      dispatch_loop memory channel p m.is_multicast_started m.clients w

  -- `HandleFrame`: the source of the channel cuts the frame, and its callback dispatches each packet
  -- and answers true. `none` would mean that the fuel of `handle_frame` ran out.
  abbrev pub on_packet : (ℤ → Bytes) → ℕ → MediaSession → RtpPacket → World → Bool × World
  on_packet client_memory channel m p w = (true, dispatch_to_clients client_memory channel p m w)

  unfoldable pub handle_session_frame :
      (ℤ → Bytes) → (ℕ → Bytes) → ℕ → ℕ → NalFrame → MediaSession → World → Option (Bool × World)
  handle_session_frame client_memory memory now channel frame m w = elim (get_source channel m) [
    | none ↦ some (false, w)
    | some source ↦ handle_frame (some (on_packet client_memory channel m)) memory now frame w
  ]
