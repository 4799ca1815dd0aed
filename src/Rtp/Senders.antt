-- ===== src/Rtp/Senders.antt =====
-- The senders of src/rtp/rtpsender.cpp and include/ai-camera/rtp/rtpsender.h: what each puts on its
-- socket for a packet, and what it answers about its peer.
--
-- A sender is the data that it was made with. The network is a step on a state of its own, with its
-- success. `make_address` throws on text that is no address; such a sender is outside the model.
use camera_player.Prelude.{
  ℕ, ◌+◌, ◌-◌, ◌%◌, ◌^◌, Bool, false, leb, ◌==◌, if◌then◌else◌, Option, none, some, [], take, drop,
  Bytes,
}
use camera_player.Rtp.Packet.{RtpPacket}
use camera_player.Rtp.Transport.{tcp_frame}

-- `AsioTcpRtpSender` on the connection of the RTSP session, `AsioUdpRtpSender` with the peer's
-- address and its two ports, `AsioMulticastRtpSender` with the group and its port.
pub data Sender : Type 0 where
  tcp : Sender
  udp : Bytes → ℕ → ℕ → Sender
  multicast : Bytes → ℕ → Sender

-- What goes out: bytes on the connection, or a datagram with its address and port.
pub data Sent : Type 0 where
  stream : Bytes → Sent
  datagram : Bytes → Bytes → ℕ → Sent

-- The buffer that `AsioUdpRtpSender::Send` sends.
abbrev pub udp_datagram : RtpPacket → Option Bytes
udp_datagram p = if leb p.size 4 then none else some (take (p.size - 4) (drop 4 p.bytes))

-- The buffer that `AsioMulticastRtpSender::Send` sends: four bytes fewer than the packet's size, from
-- its first byte on. The difference is a size_t; below 4 it is larger than any array.
abbrev pub multicast_datagram : RtpPacket → Option Bytes
multicast_datagram p =
    if p.size == 0 then none else some (take ((p.size + 2 ^ 64 - 4) % 2 ^ 64) p.bytes)

-- What `Send` puts out, unless it refuses the packet.
unfoldable pub sender_output : Sender → ℕ → RtpPacket → Option Sent
sender_output tcp channel p = elim (tcp_frame channel p) [
  | none ↦ none
  | some bytes ↦ some (stream bytes)
]
sender_output (udp ip rtp_port rtcp_port) channel p = elim (udp_datagram p) [
  | none ↦ none
  | some bytes ↦ some (datagram bytes ip rtp_port)
]
sender_output (multicast ip port) channel p = elim (multicast_datagram p) [
  | none ↦ none
  | some bytes ↦ some (datagram bytes ip port)
]

-- An address and a port, as asio answers for an end of a socket; `none` where it fails.
pub record Endpoint : Type 0 where
  pub address : Bytes
  pub port : ℕ

abbrev pub address_or_empty : Option Endpoint → Bytes
address_or_empty none = []
address_or_empty (some e) = e.address

abbrev pub port_or_zero : Option Endpoint → ℕ
port_or_zero none = 0
port_or_zero (some e) = e.port

-- `GetPeerIp` and `GetPeerPort`, with the far end of the connection.
unfoldable pub get_peer_ip : Sender → Option Endpoint → Bytes
get_peer_ip tcp remote = address_or_empty remote
get_peer_ip (udp ip rtp_port rtcp_port) remote = ip
get_peer_ip (multicast ip port) remote = ip

unfoldable pub get_peer_port : Sender → Option Endpoint → ℕ
get_peer_port tcp remote = port_or_zero remote
get_peer_port (udp ip rtp_port rtcp_port) remote = rtp_port
get_peer_port (multicast ip port) remote = port

-- `GetLocalPort` of each sender, with the near end of its own socket.
abbrev pub get_local_port : Option Endpoint → ℕ
get_local_port local_end = port_or_zero local_end

module _ {State : Type 0} (write : Sent → State → Bool × State) where
  -- `Send` of each sender.
  unfoldable pub send : Sender → ℕ → RtpPacket → State → Bool × State
  unfolding sender_output
  send sender channel p s = elim (sender_output sender channel p) [
    | none ↦ (false, s)
    | some out ↦ write out s
  ]
