-- ===== src/Rtp/MediaSession/Dispatch.antt =====
-- `DispatchToClients` as the delivery of copies, seen from one transport.
use camera_player.Prelude.{
  ℕ, Bool, true, false, not, ◌||◌, ◌==◌, ==_iff, if◌then◌else◌, Bool-cases, inl, inr, ◌≡◌, refl,
  sym, ap, ◌∙◌, arith, List, [], ◌∷◌, ◌++◌, Bytes,
}
use camera_player.Prelude.Numbers.{ℤ}
use camera_player.Rtp.Packet.{RtpPacket}
use camera_player.Rtp.Senders.{Sent, stream, datagram}
use camera_player.Rtp.Channels.{Transport}
use camera_player.Rtp.Channels.Timer.{transport_send}
use camera_player.Rtp.MediaSession.{Clients, MediaSession, is_handle}
use camera_player.Rtp.MediaSession.Deliver.{client_packet, dispatch_loop, dispatch_to_clients}

-- A transport in the store, with the bytes on its connection, and whether anyone holds it.
pub record Peer : Type 0 where
  pub transport : Transport Bytes
  pub sent : Bytes
  pub is_alive : Bool

abbrev pub Store : Type 0
Store = ℕ → Peer

abbrev pub alive : ℕ → Store → Bool
alive r w = (w r).is_alive

-- A connection that takes all bytes; a datagram does not go there.
abbrev pub collect : Sent → Bytes → Bool × Bytes
collect (stream bytes) sent = (true, sent ++ bytes)
collect (datagram bytes ip port) sent = (true, sent)

unfoldable pub send_peer : ℕ → RtpPacket → Peer → Peer
send_peer channel p v =
    let (ok, transport, sent) = transport_send collect channel p v.transport v.sent in
    record v { transport = transport; sent = sent }

-- `SendRtpPacket` on a transport of the store.
abbrev pub send_to : ℕ → ℕ → RtpPacket → Store → Store
send_to r channel p w = λ q. if q == r then send_peer channel p (w r) else w q

-- Whom a packet goes to: the handle and the transport of each client that is active, alive and has a
-- valid handle, in the order of the handles; the first one alone by multicast.
abbrev pub recipients : Bool → Store → Clients → List (ℤ × ℕ)
recipients is_multicast w [] = []
recipients is_multicast w ((k, c) ∷ cs) =
    let rest = recipients is_multicast w cs in
    if not c.is_active || not (alive c.client w) || not (is_handle k)
    then rest
    else (k, c.client) ∷ (if is_multicast then [] else rest)

-- The handles behind which the recipients have one transport.
abbrev pub addressed : ℕ → List (ℤ × ℕ) → List ℤ
addressed q [] = []
addressed q ((k, r) ∷ rs) = if q == r then k ∷ addressed q rs else addressed q rs

-- A transport that is sent a copy for each of some handles.
abbrev pub send_copies : (ℤ → Bytes) → ℕ → RtpPacket → List ℤ → Peer → Peer
send_copies memory channel p [] v = v
send_copies memory channel p (k ∷ ks) v =
    send_copies memory channel p ks (send_peer channel (client_packet (memory k) p) v)

send_to-alive :
    (r channel q : ℕ) (p : RtpPacket) (w : Store) → alive q (send_to r channel p w) ≡ alive q w
unfolding send_peer
send_to-alive r channel q p w = ground (arith, ==_iff q r)

pub recipients-alive :
    (is_multicast : Bool) (w v : Store) (cs : Clients)
    → ((q : ℕ) → alive q v ≡ alive q w)
    → recipients is_multicast v cs ≡ recipients is_multicast w cs
recipients-alive is_multicast w v [] h = refl
recipients-alive is_multicast w v ((k, c) ∷ cs) h =
    rw (h c.client, recipients-alive is_multicast w v cs h) refl

-- One delivery, seen from any transport.
send_to-addressed :
    (memory : ℤ → Bytes) (channel : ℕ) (p : RtpPacket) (k : ℤ) (r q : ℕ) (rs : List (ℤ × ℕ))
    (w : Store)
    → send_copies memory channel p
        (addressed q rs)
        (send_to r channel (client_packet (memory k) p) w q)
      ≡ send_copies memory channel p (addressed q ((k, r) ∷ rs)) (w q)
send_to-addressed memory channel p k r q rs w = elim (Bool-cases (q == r)) [
  | inl e ↦
      let there : r ≡ q = sym ((==_iff q r).0 e) in
      rw e (
        ap
          (λ n.
            send_copies memory channel p (addressed q rs)
              (send_peer channel (client_packet (memory k) p) (w n)))
          there)
  | inr e ↦ rw e refl
]

dispatch_loop-send_copies :
    (memory : ℤ → Bytes) (channel : ℕ) (p : RtpPacket) (is_multicast : Bool) (cs : Clients)
    (w : Store) (q : ℕ)
    → dispatch_loop alive send_to memory channel p is_multicast cs w q
      ≡ send_copies memory channel p (addressed q (recipients is_multicast w cs)) (w q)
unfolding dispatch_loop
dispatch_loop-send_copies memory channel p is_multicast [] w q = refl
dispatch_loop-send_copies memory channel p is_multicast ((k, c) ∷ cs) w q =
    elim (Bool-cases (not c.is_active || not (alive c.client w) || not (is_handle k))) [
      | inl e ↦
          rw (e, dispatch_loop) (dispatch_loop-send_copies memory channel p is_multicast cs w q)
      | inr e ↦
          rw (e, dispatch_loop)
            (delivered is_multicast (
              dispatch_loop-send_copies memory channel p is_multicast cs
                (send_to c.client channel (client_packet (memory k) p) w) q))
    ]
  where
    sent : Store
    sent = send_to c.client channel (client_packet (memory k) p) w

    delivered :
        (is_multicast : Bool)
        → dispatch_loop alive send_to memory channel p is_multicast cs sent q
          ≡ send_copies memory channel p (addressed q (recipients is_multicast sent cs)) (sent q)
        → (if is_multicast
              then sent
              else dispatch_loop alive send_to memory channel p is_multicast cs sent)
            q
          ≡ send_copies memory channel p
              (addressed q
                ((k, c.client) ∷ (if is_multicast then [] else recipients is_multicast w cs)))
              (w q)
    delivered true ih = send_to-addressed memory channel p k c.client q [] w
    delivered false ih =
        ih
        ∙ ap (λ rs. send_copies memory channel p (addressed q rs) (sent q))
            (recipients-alive false w sent cs
              (λ r. send_to-alive c.client channel r (client_packet (memory k) p) w))
        ∙ send_to-addressed memory channel p k c.client q (recipients false w cs) w

-- Whatever transport one looks at: dispatching a packet sends it a copy, in a new array, for each
-- handle behind which it is a recipient, in the order of the handles, and does nothing else to it.
pub dispatch-send_copies :
    (memory : ℤ → Bytes) (channel : ℕ) (p : RtpPacket) (m : MediaSession) (w : Store) (q : ℕ)
    → dispatch_to_clients alive send_to memory channel p m w q
      ≡ send_copies memory channel p
          (addressed q (recipients m.is_multicast_started w m.clients))
          (w q)
unfolding dispatch_to_clients
dispatch-send_copies memory channel p m w q =
    dispatch_loop-send_copies memory channel p m.is_multicast_started m.clients w q
