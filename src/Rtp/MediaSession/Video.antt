-- ===== src/Rtp/MediaSession/Video.antt =====
-- A frame on its way from the media session to the readers of its clients.
use camera_player.Prelude.{
  ℕ, ◌-◌, ◌^◌, ◌≤◌, ◌<◌, true, false, some, ◌≡◌, ◌≢◌, refl, ap, ◌∙◌, arith, List, [], ◌∷◌, ◌++◌,
  map, length, drop, take, get_or, Bytes, IsByte,
}
use camera_player.Prelude.Numbers.{ℤ}
use camera_player.Rtp.Packet.{RtpPacket, NalFrame, packet_capacity}
use camera_player.Rtp.H264.Description.{H264Source}
use camera_player.Rtp.H264.Fragments.{stamp, packets, send_each, handle_frame-send_each}
use camera_player.Rtp.H264.Bounds.{packets-IsSendable}
use camera_player.Rtp.H264.Receiver.{is_fragment, receive}
use camera_player.Rtp.MediaSession.{MediaSession, get_source}
use camera_player.Rtp.MediaSession.Deliver.{
  client_packet, dispatch_to_clients, on_packet, handle_session_frame,
}
use camera_player.Rtp.MediaSession.Dispatch.{
  Peer, Store, alive, send_to, send_peer, recipients, addressed, send_copies, recipients-alive,
  dispatch-send_copies,
}
use camera_player.Rtp.MediaSession.Copies.{IsOnTcp, info_of, send_peers, send_peers-copies}
use camera_player.Rtsp.Interleaved.{rtp_data, process_interleaved_data}
use camera_player.Rtsp.Interleaved.Video.{nal_unit_carried}

module _ (memory : ℤ → Bytes) (channel : ℕ) (m : MediaSession) where
  -- The store behind the packets of a frame.
  abbrev dispatch_all : List RtpPacket → Store → Store
  dispatch_all [] w = w
  dispatch_all (p ∷ ps) w = dispatch_all ps (dispatch_to_clients alive send_to memory channel p m w)

  send_each-dispatch_all :
      (ps : List RtpPacket) (w : Store)
      → send_each (some (on_packet alive send_to memory channel m)) ps w ≡ (true, dispatch_all ps w)
  send_each-dispatch_all [] w = refl
  send_each-dispatch_all (p ∷ ps) w = send_each-dispatch_all ps _

  -- A transport that is sent copies of each packet.
  abbrev deliver : List RtpPacket → List ℤ → Peer → Peer
  deliver [] ks v = v
  deliver (p ∷ ps) ks v = deliver ps ks (send_copies memory channel p ks v)

  send_copies-is_alive :
      (p : RtpPacket) (ks : List ℤ) (v : Peer)
      → (send_copies memory channel p ks v).is_alive ≡ v.is_alive
  unfolding send_peer
  send_copies-is_alive p [] v = refl
  send_copies-is_alive p (k ∷ ks) v =
      send_copies-is_alive p ks (send_peer channel (client_packet (memory k) p) v)

  whom : Store → ℕ → List ℤ
  whom w q = addressed q (recipients m.is_multicast_started w m.clients)

  dispatch_all-deliver :
      (ps : List RtpPacket) (w : Store) (q : ℕ) → dispatch_all ps w q ≡ deliver ps (whom w q) (w q)
  unfolding whom
  dispatch_all-deliver [] w q = refl
  dispatch_all-deliver (p ∷ ps) w q =
      let next = dispatch_to_clients alive send_to memory channel p m w in
      let same : whom next q ≡ whom w q = ap (addressed q) (
        recipients-alive m.is_multicast_started w next m.clients (λ r.
          ap (λ (v : Peer). v.is_alive) (dispatch-send_copies memory channel p m w r)
          ∙ send_copies-is_alive p (whom w r) (w r))) in
      dispatch_all-deliver ps next q
      ∙ ap (λ ks. deliver ps ks (next q)) same
      ∙ ap (deliver ps (whom w q)) (dispatch-send_copies memory channel p m w q)

  deliver-none : (ps : List RtpPacket) (v : Peer) → deliver ps [] v ≡ v
  deliver-none [] v = refl
  deliver-none (p ∷ ps) v = deliver-none ps v

  deliver-one :
      (ps : List RtpPacket) (k : ℤ) (v : Peer)
      → deliver ps (k ∷ []) v ≡ send_peers channel (map (client_packet (memory k)) ps) v
  deliver-one [] k v = refl
  deliver-one (p ∷ ps) k v = deliver-one ps k (send_peer channel (client_packet (memory k) p) v)

-- A frame of 1 to 2 ^ 32 - 2 bytes that lies within its buffer, begins with a byte and is not of
-- the type that stands for a fragment, on a channel that has a source and is not the reader's
-- channel of RTCP, where new arrays have 1600 bytes: `HandleFrame` returns true; a transport that
-- is not behind any recipient is as before; and one that is behind one recipient, is open and sends
-- over TCP has bytes added to its connection of which `ProcessInterleavedData`, on the same
-- channel, takes packets that a receiver puts together to the same NAL unit.
pub frame_reaches_clients :
    (client_memory : ℤ → Bytes) (memory : ℕ → Bytes) (now channel rtcp_channel : ℕ)
    (frame : NalFrame) (m : MediaSession) (w : Store) (source : H264Source) (q other : ℕ) (k : ℤ)
    → get_source channel m ≡ some source
    → channel < 2
    → channel ≢ rtcp_channel
    → ((j : ℤ) → length (client_memory j) ≡ packet_capacity)
    → ((j : ℕ) → length (memory j) ≡ packet_capacity)
    → 0 < frame.size
    → frame.size < 2 ^ 32 - 1
    → frame.size ≤ length frame.buffer
    → IsByte (get_or frame.buffer 0 0)
    → is_fragment (get_or frame.buffer 0 0) ≡ false
    → addressed q (recipients m.is_multicast_started w m.clients) ≡ k ∷ []
    → IsOnTcp (w q)
    → addressed other (recipients m.is_multicast_started w m.clients) ≡ []
    → (after : Store) × (bytes : Bytes) × (bodies : List Bytes) × (handle_session_frame alive
          send_to client_memory memory now channel frame m w
        ≡ some (true, after))
      × (after other ≡ w other)
      × ((after q).sent ≡ (w q).sent ++ bytes)
      × (process_interleaved_data channel rtcp_channel bytes ≡ some ([], map rtp_data bodies))
      × (receive (map (drop 12) bodies) ≡ some (take frame.size frame.buffer))
unfolding handle_session_frame whom
frame_reaches_clients cm memory now channel rtcp frame m w source q r k e c ne hc hm hp hs hl hb f
      one on nobody =
    let ps = packets memory now frame in
    let at = dispatch_all-deliver cm channel m ps w in
    let info = info_of channel (w q).transport in
    let (bodies, taken, received) =
      nal_unit_carried memory now frame info channel rtcp hm hp hl hb f (omega arith) ne in
    let (sendable, marks) = packets-IsSendable memory now frame hm hp hl in
    let sent =
      ap (λ (v : Peer). v.sent)
        (at q
          ∙ ap (λ ks. deliver cm channel m ps ks (w q)) one
          ∙ deliver-one cm channel m ps k (w q))
      ∙ send_peers-copies channel (stamp now frame) (cm k) ps (w q) c sendable (hc k) on in
    (
      dispatch_all cm channel m ps w,
      _,
      bodies,
      rw (e, handle_session_frame)
          (handle_frame-send_each (some (on_packet alive send_to cm channel m)) memory now frame w
              hs
            ∙ ap some (send_each-dispatch_all cm channel m ps w)),
      at r
          ∙ ap (λ ks. deliver cm channel m ps ks (w r)) nobody
          ∙ deliver-none cm channel m ps (w r),
      sent,
      taken,
      received,
    )
