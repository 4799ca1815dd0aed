-- ===== src/Rtp/MediaSession/Examples.antt =====
-- A session with two clients over TCP, and addresses that are lent.
use camera_player.Prelude.{
  ℕ, zero, suc, ◌+◌, ◌≡◌, true, false, some, refl, arith, List, [], ◌∷◌, ◌++◌, map, length, take,
  drop, Bytes, codes,
}
use camera_player.Prelude.Numbers.{ℤ, pos, to_decimal}
use camera_player.Rtp.Packet.{RtpPacket, NalFrame, packet_capacity}
use camera_player.Rtp.H264.Description.{H264Source}
use camera_player.Rtp.H264.Receiver.{receive}
use camera_player.Rtp.Transport.{MediaChannelInfo}
use camera_player.Rtp.Senders.{Endpoint, tcp}
use camera_player.Rtp.Channels.{Transport, new_channel, new_transport, set_sender}
use camera_player.Rtp.MediaSession.{
  MediaSession, connected, new_session, add_source, add_client, get_client, find_client,
  start_multicast,
}
use camera_player.Rtp.MediaSession.Deliver.{handle_session_frame, dispatch_to_clients}
use camera_player.Rtp.MediaSession.Generate.{generate_sdp_message}
use camera_player.Rtp.MediaSession.Clients.{add_client_lem}
use camera_player.Rtp.MediaSession.Dispatch.{
  Store, alive, send_to, recipients, send_copies, dispatch-send_copies,
}
use camera_player.Rtp.MediaSession.Sdp.{sdp_text, generate_sdp_message-sdp_text}
use camera_player.Rtp.MediaSession.Video.{frame_reaches_clients}
use camera_player.Rtsp.Interleaved.{rtp_data, process_interleaved_data}

abbrev info : MediaChannelInfo
info = record { payload = 96; seq = 7; ssrc = 1; packet_count = 0; octet_count = 0 }

abbrev peer_transport : Transport Bytes
peer_transport =
    set_sender (some tcp)
      (new_transport (new_channel info 90000 false false) (new_channel info 8000 false false))

-- Every transport of the store is alive, open, and has sent nothing.
abbrev store : Store
store r = record { transport = peer_transport; sent = []; is_alive = true }

abbrev where_peer : ℕ → Store → Endpoint
where_peer r w = record { address = codes "10.0.0.2"; port = 4000 + r }

abbrev source : H264Source
source = record { payload = 96; clock_rate = 90000 }

-- A session with a source, a callback, and two active clients behind transports 5 and 6.
abbrev live : MediaSession
live = record (new_session 1 (codes "live")) {
  source_0 = some source;
  notify_connect_callbacks = 9 ∷ [];
  clients =
      (pos 3, record { client = 5; is_active = true })
      ∷ (pos 4, record { client = 6; is_active = true })
      ∷ [];
}

zeros : ℕ → Bytes
zeros zero = []
zeros (suc n) = 0 ∷ zeros n

length-zeros : (n : ℕ) → length (zeros n) ≡ n
unfolding zeros
length-zeros zero = refl
length-zeros (suc n) = omega (arith, length-zeros n)

abbrev frame : NalFrame
frame = record { buffer = 0x65 ∷ 1 ∷ 2 ∷ []; size = 3; kind = 1; timestamp = 5 }

abbrev both : List (ℤ × ℕ)
both = recipients false store live.clients

frame_reaches_clients_example :
    (after : Store) × (bytes : Bytes) × (bodies : List Bytes) × (handle_session_frame alive send_to
        (λ k. zeros packet_capacity)
        (λ j. zeros packet_capacity)
        0
        0
        frame
        live
        store
      ≡ some (true, after))
    × (after 8 ≡ store 8)
    × ((after 5).sent ≡ (store 5).sent ++ bytes)
    × (process_interleaved_data 0 1 bytes ≡ some ([], map rtp_data bodies))
    × (receive (map (drop 12) bodies) ≡ some (take 3 frame.buffer))
frame_reaches_clients_example =
    frame_reaches_clients (λ k. zeros packet_capacity) (λ j. zeros packet_capacity) 0 0 1 frame live
      store source 5 8 (pos 3) refl (omega arith) (λ e. omega arith)
      (λ k. length-zeros packet_capacity) (λ j. length-zeros packet_capacity) (omega arith)
      (omega arith) (omega arith) (omega arith) refl refl
      (record { is_open = refl; sends_tcp = refl }) refl

abbrev packet : RtpPacket
packet = record { bytes = zeros 40; size = 20; timestamp = 5; kind = 1; last = 1 }

dispatch-send_copies_example :
    dispatch_to_clients alive send_to (λ k. zeros 40) 0 packet live store 6
    ≡ send_copies (λ k. zeros 40) 0 packet (pos 4 ∷ []) (store 6)
dispatch-send_copies_example = dispatch-send_copies (λ k. zeros 40) 0 packet live store 6

-- By multicast the first client is sent to alone.
multicast_test : recipients true store live.clients ≡ (pos 3, 5) ∷ []
multicast_test = refl

add_client_lem_example :
    get_client alive where_peer
      (pos 7)
      store
      (add_client alive where_peer true (pos 7) 8 store live).1
    ≡ some 8
unfolding find_client
add_client_lem_example = (add_client_lem where_peer true (pos 7) 8 store live refl).0

-- The callback is called with the peer of the new client, and a second one on the socket is refused.
connected_test :
    (add_client alive where_peer true (pos 7) 8 store live).1.log
    ≡ connected 9 1 (codes "10.0.0.2") 4008 ∷ []
unfolding add_client find_client
connected_test = refl

refused_test : add_client alive where_peer true (pos 3) 8 store live ≡ (false, live)
unfolding add_client find_client
refused_test = refl

generate_sdp_message-sdp_text_example :
    (generate_sdp_message (codes "10.0.0.1") (codes "77") [] live).0
    ≡ take 2047 (sdp_text (codes "77") [] live)
generate_sdp_message-sdp_text_example =
    (generate_sdp_message-sdp_text (codes "10.0.0.1") (codes "10.0.0.9") (codes "77") (codes "78")
      [] [] live refl refl).0

sdp_test :
    take 58 (sdp_text (codes "77") [] live)
    ≡ codes "v=0\r\no=- a=control:*\r\n 1 IN IP4 77\r\nt=0 0\r\nm=video 0 RTP/A"
unfolding to_decimal
sdp_test = refl

-- A random number whose ninth bit is set gives an odd port.
odd_port_test : (start_multicast (codes "232.0.1.5") 0x0100 0x0002 live).1.multicast_port_0 ≡ 1
unfolding start_multicast
odd_port_test = refl

third_source_test : add_source 2 (some source) live ≡ (false, live)
unfolding add_source
third_source_test = refl
