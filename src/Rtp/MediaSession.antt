-- ===== src/Rtp/MediaSession.antt =====
-- `AsioMediaSession` of include/ai-camera/rtp/mediasession.h and src/rtp/mediasession.cpp: the media
-- sources of a session, its clients, and the packets that are handed to them.
--
-- A client is held by a weak pointer: the transports live in a store of their own, `World`, and a
-- client has the number of its transport there. Calls of the notification callbacks are a log. The
-- session's locks make each call one step; random numbers and the lent multicast address are arguments.
pub mod Generate
pub mod Deliver
pub mod Clients
pub mod Dispatch
pub mod Copies
pub mod Sdp
pub mod Video
mod Examples
use camera_player.Prelude.{
  ℕ, ◌+◌, ◌*◌, ◌/◌, ◌%◌, Bool, true, false, not, ◌&&◌, ◌||◌, ltb, leb, ◌==◌, if◌then◌else◌, Option,
  none, some, List, [], ◌∷◌, ◌++◌, length, take, get_or, Bytes, codes, bit_and,
}
use camera_player.Prelude.Text.{is_empty_text, print_format, print_behind}
use camera_player.Prelude.Numbers.{ℤ, pos, negsuc, to_decimal}
use camera_player.Rtp.Packet.{RtpPacket, NalFrame, write_at}
use camera_player.Rtp.H264.{handle_frame}
use camera_player.Rtp.H264.Description.{H264Source, get_media_description, get_attribute}
use camera_player.Rtp.Senders.{Endpoint}

-- The order and the equality of socket handles, which are of type int.
abbrev pub same_handle : ℤ → ℤ → Bool
same_handle (pos m) (pos n) = m == n
same_handle (negsuc m) (negsuc n) = m == n
same_handle _ _ = false

abbrev pub handle_before : ℤ → ℤ → Bool
handle_before (pos m) (pos n) = ltb m n
handle_before (negsuc m) (negsuc n) = ltb n m
handle_before (negsuc m) (pos n) = true
handle_before (pos m) (negsuc n) = false

abbrev pub is_handle : ℤ → Bool
is_handle (pos m) = true
is_handle (negsuc m) = false

-- `struct ClientInfo`; the key of the map is `socket_handle`.
pub record ClientInfo : Type 0 where
  pub client : ℕ
  pub is_active : Bool

abbrev pub Clients : Type 0
Clients = List (ℤ × ClientInfo)

-- `clients_`, a std::map: `find`, `[] =` and `erase`.
unfoldable pub find_client : ℤ → Clients → Option ClientInfo
find_client k [] = none
find_client k ((j, c) ∷ cs) = if same_handle k j then some c else find_client k cs

unfoldable pub insert_client : ℤ → ClientInfo → Clients → Clients
insert_client k c [] = (k, c) ∷ []
insert_client k c ((j, d) ∷ cs) =
    if same_handle k j
    then (k, c) ∷ cs
    else if handle_before k j
    then (k, c) ∷ (j, d) ∷ cs
    else (j, d) ∷ insert_client k c cs

unfoldable pub erase_client : ℤ → Clients → Clients
erase_client k [] = []
erase_client k ((j, c) ∷ cs) = if same_handle k j then cs else (j, c) ∷ erase_client k cs

-- A call of a notification callback: the callback, and what it is given.
pub data Notification : Type 0 where
  connected disconnected : ℕ → ℕ → Bytes → ℕ → Notification

pub record MediaSession : Type 0 where
  pub session_id : ℕ
  pub url_suffix : Bytes
  pub sdp : Bytes
  pub source_0 : Option H264Source
  pub source_1 : Option H264Source
  pub clients : Clients
  pub notify_connect_callbacks : List ℕ
  pub notify_disconnect_callbacks : List ℕ
  pub multicast_ip : Bytes
  pub multicast_port_0 : ℕ
  pub multicast_port_1 : ℕ
  pub is_multicast_started : Bool
  pub has_new_client : Bool
  pub log : List Notification

-- The constructor, with the number of the session.
abbrev pub new_session : ℕ → Bytes → MediaSession
new_session session_id url_suffix = record {
  session_id = session_id;
  url_suffix = url_suffix;
  sdp = [];
  source_0 = none;
  source_1 = none;
  clients = [];
  notify_connect_callbacks = [];
  notify_disconnect_callbacks = [];
  multicast_ip = [];
  multicast_port_0 = 5000;
  multicast_port_1 = 5001;
  is_multicast_started = false;
  has_new_client = false;
  log = [];
}

-- `GetSource`, `HasSource`.
abbrev pub get_source : ℕ → MediaSession → Option H264Source
get_source i m = if i == 0 then m.source_0 else if i == 1 then m.source_1 else none

abbrev pub has_source : ℕ → MediaSession → Bool
has_source i m = elim (get_source i m) [ none ↦ false | some s ↦ true ]

abbrev pub put_source : ℕ → Option H264Source → MediaSession → MediaSession
put_source i source m =
    if i == 0 then record m { source_0 = source } else record m { source_1 = source }

-- `AddSource`, which installs `DispatchToClients` as the source's callback, and `RemoveSource`, with
-- their results.
unfoldable pub add_source : ℕ → Option H264Source → MediaSession → Bool × MediaSession
add_source i none m = (false, m)
add_source i (some s) m = if leb 2 i then (false, m) else (true, put_source i (some s) m)

unfoldable pub remove_source : ℕ → MediaSession → Bool × MediaSession
remove_source i m = if leb 2 i then (false, m) else (true, put_source i none m)

-- `AddNotifyConnectedCallback` and `AddNotifyDisconnectedCallback`.
abbrev pub add_notify_connected : ℕ → MediaSession → MediaSession
add_notify_connected f m = record m {
  notify_connect_callbacks = m.notify_connect_callbacks ++ f ∷ [];
}

abbrev pub add_notify_disconnected : ℕ → MediaSession → MediaSession
add_notify_disconnected f m = record m {
  notify_disconnect_callbacks = m.notify_disconnect_callbacks ++ f ∷ [];
}

-- The calls of some callbacks, in order.
abbrev pub calls : (ℕ → ℕ → Bytes → ℕ → Notification) → List ℕ → ℕ → Endpoint → List Notification
calls kind [] session_id peer = []
calls kind (f ∷ fs) session_id peer =
    kind f session_id peer.address peer.port ∷ calls kind fs session_id peer

-- `htons` on a little-endian machine, and a port that `StartMulticast` draws.
abbrev pub swap16 : ℕ → ℕ
swap16 n = n % 256 * 256 + n / 256 % 256

abbrev pub draw_port : ℕ → ℕ
draw_port random = swap16 (bit_and random 0xFFFE)

-- `StartMulticast`, with the address that `GetMulticastIp` gives if it is called, and two random
-- numbers.
unfoldable pub start_multicast : Bytes → ℕ → ℕ → MediaSession → Bool × MediaSession
start_multicast ip random_0 random_1 m =
    if m.is_multicast_started
    then (true, m)
    else if is_empty_text ip
    then (false, record m { multicast_ip = ip })
    else (
      true,
      record m {
        multicast_ip = ip;
        multicast_port_0 = draw_port random_0;
        multicast_port_1 = draw_port random_1;
        is_multicast_started = true;
      },
    )

-- `GetMulticastPort`.
abbrev pub get_multicast_port : ℕ → MediaSession → ℕ
get_multicast_port i m =
    if i == 0 then m.multicast_port_0 else if i == 1 then m.multicast_port_1 else 0

-- `SetRtspUrlSuffix`.
abbrev pub set_rtsp_url_suffix : Bytes → MediaSession → MediaSession
set_rtsp_url_suffix url_suffix m = record m { url_suffix = url_suffix }

-- The store of transports: whether one is alive, where its peer is, and `SendRtpPacket` on it.
module _ {World : Type 0} (alive : ℕ → World → Bool) (peer : ℕ → World → Endpoint) where
  -- `AddClient` on a socket, with what `is_active` of the new `ClientInfo` holds, which nothing sets.
  unfoldable pub add_client : Bool → ℤ → ℕ → World → MediaSession → Bool × MediaSession
  add_client uninitialised handle client w m = elim (find_client handle m.clients) [
    | some c ↦ (false, m)
    | none ↦ (
      true,
      record m {
        clients =
            insert_client handle (record { client = client; is_active = uninitialised }) m.clients;
        log = m.log ++ calls connected m.notify_connect_callbacks m.session_id (peer client w);
        has_new_client = true;
      },
    )
  ]

  -- `RemoveClient`.
  unfoldable pub remove_client : ℤ → World → MediaSession → MediaSession
  remove_client handle w m = elim (find_client handle m.clients) [
    | none ↦ m
    | some c ↦ record m {
      clients = erase_client handle m.clients;
      log =
          m.log
          ++ (if alive c.client w
              then calls disconnected m.notify_disconnect_callbacks m.session_id (peer c.client w)
              else []);
    }
  ]

  -- `GetClient`.
  unfoldable pub get_client : ℤ → World → MediaSession → Option ℕ
  get_client handle w m = elim (find_client handle m.clients) [
    | none ↦ none
    | some c ↦ if alive c.client w then some c.client else none
  ]

  -- `GetClientCount`.
  unfoldable pub count_clients : World → Clients → ℕ
  count_clients w [] = 0
  count_clients w ((k, c) ∷ cs) =
      (if alive c.client w && c.is_active then 1 else 0) + count_clients w cs
