-- ===== src/Rtp/MediaSession/Clients.antt =====
-- The table of clients: `AddClient`, `RemoveClient` and `GetClient`.
use camera_player.Prelude.{
  ℕ, Bool, true, false, if◌then◌else◌, none, some, ◌≡◌, refl, ap, ◌∙◌, arith, [], ◌∷◌,
}
use camera_player.Prelude.Numbers.{ℤ, pos, negsuc}
use camera_player.Rtp.Senders.{Endpoint}
use camera_player.Rtp.MediaSession.{
  ClientInfo, Clients, MediaSession, same_handle, find_client, insert_client, erase_client,
  add_client, remove_client, get_client, count_clients,
}
use camera_player.Rtp.MediaSession.Dispatch.{Store, alive, recipients}

same_handle_refl : (k : ℤ) → same_handle k k ≡ true
same_handle_refl (pos n) = ground arith
same_handle_refl (negsuc n) = ground arith

module _ (k : ℤ) (c : ClientInfo) where
  find_client-insert_client : (cs : Clients) → find_client k (insert_client k c cs) ≡ some c
  unfolding find_client insert_client
  find_client-insert_client [] = ground (arith, same_handle_refl k)
  find_client-insert_client ((j, d) ∷ cs) =
      ground (arith, same_handle_refl k, find_client-insert_client cs)

  erase_client-insert_client :
      (cs : Clients) → find_client k cs ≡ none → erase_client k (insert_client k c cs) ≡ cs
  unfolding find_client insert_client erase_client
  erase_client-insert_client [] h = ground (arith, same_handle_refl k)
  erase_client-insert_client ((j, d) ∷ cs) h =
      ground (arith, same_handle_refl k, erase_client-insert_client cs)

  recipients-insert_client :
      (is_multicast : Bool) (w : Store) (cs : Clients)
      → c.is_active ≡ false
      → find_client k cs ≡ none
      → recipients is_multicast w (insert_client k c cs) ≡ recipients is_multicast w cs
  unfolding find_client insert_client
  recipients-insert_client is_multicast w [] i h = ground arith
  recipients-insert_client is_multicast w ((j, d) ∷ cs) i h =
      ground (arith, recipients-insert_client is_multicast w cs i)

  count_clients-insert_client :
      (peer : ℕ → Store → Endpoint) (w : Store) (cs : Clients)
      → c.is_active ≡ false
      → find_client k cs ≡ none
      → count_clients alive peer w (insert_client k c cs) ≡ count_clients alive peer w cs
  unfolding find_client insert_client count_clients
  count_clients-insert_client peer w [] i h = ground arith
  count_clients-insert_client peer w ((j, d) ∷ cs) i h =
      ground (arith, count_clients-insert_client peer w cs i)

add_client-clients :
    (peer : ℕ → Store → Endpoint) (memory : Bool) (handle : ℤ) (client : ℕ) (w : Store)
    (m : MediaSession)
    → find_client handle m.clients ≡ none
    → (add_client alive peer memory handle client w m).1.clients
      ≡ insert_client handle (record { client = client; is_active = memory }) m.clients
unfolding add_client
add_client-clients peer memory handle client w m free = rw (free, add_client) refl

-- A client that is added on a socket that has none is the one that `GetClient` gives, if its
-- transport is alive, and `RemoveClient` puts the table back. Where the memory of the new
-- `ClientInfo` makes `is_active` false, which nothing sets, the clients that are counted and the
-- recipients of packets stay as they were.
pub add_client_lem :
    (peer : ℕ → Store → Endpoint) (memory : Bool) (handle : ℤ) (client : ℕ) (w : Store)
    (m : MediaSession)
    → find_client handle m.clients ≡ none
    → let after = (add_client alive peer memory handle client w m).1 in
      let unseen = (add_client alive peer false handle client w m).1 in
      (get_client alive peer handle w after ≡ (if alive client w then some client else none))
      × ((remove_client alive peer handle w after).clients ≡ m.clients)
      × (recipients m.is_multicast_started w unseen.clients
          ≡ recipients m.is_multicast_started w m.clients)
      × (count_clients alive peer w unseen.clients ≡ count_clients alive peer w m.clients)
unfolding get_client remove_client
add_client_lem peer memory handle client w m free =
    let info : ClientInfo = record { client = client; is_active = memory } in
    let idle : ClientInfo = record { client = client; is_active = false } in
    let put = add_client-clients peer memory handle client w m free in
    let found = ap (find_client handle) put ∙ find_client-insert_client handle info m.clients in
    let unseen = add_client-clients peer false handle client w m free in
    (
      rw (found, get_client) refl,
      rw (found, remove_client)
          (ap (erase_client handle) put ∙ erase_client-insert_client handle info m.clients free),
      ap (recipients m.is_multicast_started w) unseen
          ∙ recipients-insert_client handle idle m.is_multicast_started w m.clients refl free,
      ap (count_clients alive peer w) unseen
          ∙ count_clients-insert_client handle idle peer w m.clients refl free,
    )
