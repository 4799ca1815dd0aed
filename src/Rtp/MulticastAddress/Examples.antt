-- ===== src/Rtp/MulticastAddress/Examples.antt =====
-- Addresses that are lent, with an `inet_ntoa` that writes the number's low bytes.
use camera_player.Prelude.{ℕ, ◌%◌, ◌/◌, ◌≡◌, ◌⊎◌, refl, [], ◌∷◌, Bytes}
use camera_player.Rtp.MulticastAddress.{
  get_multicast_ip, ten_draws, AllTaken, IsLent, get_multicast_ip-IsLent,
}

abbrev low_bytes : ℕ → Bytes
low_bytes a = a / 256 % 256 ∷ a % 256 ∷ []

abbrev always_five : ℕ → ℕ
always_five n = 5

get_multicast_ip-IsLent_example :
    ((get_multicast_ip low_bytes always_five [] ≡ ([], []))
      × AllTaken low_bytes (ten_draws always_five) [])
    ⊎ IsLent low_bytes []
        (get_multicast_ip low_bytes always_five []).0
        (get_multicast_ip low_bytes always_five []).1
get_multicast_ip-IsLent_example = get_multicast_ip-IsLent low_bytes always_five []

first_test : get_multicast_ip low_bytes always_five [] ≡ (1 ∷ 5 ∷ [], (1 ∷ 5 ∷ []) ∷ [])
unfolding get_multicast_ip
first_test = refl

-- When ten draws meet the same lent address, none is given.
none_test : get_multicast_ip low_bytes always_five ((1 ∷ 5 ∷ []) ∷ []) ≡ ([], (1 ∷ 5 ∷ []) ∷ [])
unfolding get_multicast_ip
none_test = refl
