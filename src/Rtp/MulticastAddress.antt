-- ===== src/Rtp/MulticastAddress.antt =====
-- `MulticastAddress` of include/ai-camera/rtp/mediasession.h: the multicast addresses that are lent.
--
-- `inet_ntoa`, with the `htonl` before it, is a parameter; the random numbers are a list. The
-- unordered set is a list.
mod Examples
use camera_player.Prelude.{
  ℕ, ◌+◌, ◌-◌, ◌%◌, ◌≤◌, ◌<◌, Bool, true, false, if_cases, inl, inr, ◌⊎◌, if◌then◌else◌, ◌≡◌, refl,
  sym, ◌∙◌, ap, arith, List, [], ◌∷◌, length, Bytes,
}
use camera_player.Prelude.Text.{same, same_refl, member}

-- The first address of the range and the one behind it.
abbrev pub first_address : ℕ
first_address = 0xE8000100

abbrev pub address_range : ℕ
address_range = 0xE8FFFFFF - 0xE8000100

abbrev pub drawn_address : ℕ → ℕ
drawn_address random = random % address_range + first_address

-- `addrs_.erase(ip)`; a set has an address once.
unfoldable pub release : Bytes → List Bytes → List Bytes
release ip [] = []
release ip (a ∷ addrs) = if same ip a then addrs else a ∷ release ip addrs

-- The random numbers of ten tries.
abbrev pub ten_draws : (ℕ → ℕ) → List ℕ
ten_draws rd = rd 0 ∷ rd 1 ∷ rd 2 ∷ rd 3 ∷ rd 4 ∷ rd 5 ∷ rd 6 ∷ rd 7 ∷ rd 8 ∷ rd 9 ∷ []

module _ (inet_ntoa : ℕ → Bytes) where
  -- The loop of `GetMulticastIp`, with a random number for each try that it makes.
  unfoldable pub try_addresses : List ℕ → List Bytes → Bytes × List Bytes
  try_addresses [] addrs = ([], addrs)
  try_addresses (random ∷ randoms) addrs =
      let ip = inet_ntoa (drawn_address random) in
      let again = try_addresses randoms addrs in if member ip addrs then again else (ip, ip ∷ addrs)

  -- `GetMulticastIp`, which makes ten tries at most.
  unfoldable pub get_multicast_ip : (ℕ → ℕ) → List Bytes → Bytes × List Bytes
  unfolding try_addresses
  get_multicast_ip rd addrs = try_addresses (ten_draws rd) addrs

  -- Every candidate is lent already.
  abbrev pub AllTaken : List ℕ → List Bytes → Type 0
  AllTaken [] addrs = Unit {0}
  AllTaken (random ∷ randoms) addrs =
      (member (inet_ntoa (drawn_address random)) addrs ≡ true) × AllTaken randoms addrs

  -- An address of the range that was not lent, and is lent now.
  pub record IsLent (addrs : List Bytes) (ip : Bytes) (after : List Bytes) : Type 0 where
    pub address : ℕ
    pub is_text : ip ≡ inet_ntoa address
    pub from_first : first_address ≤ address
    pub below_end : address < 0xE8FFFFFF
    pub was_free : member ip addrs ≡ false
    pub is_taken : after ≡ ip ∷ addrs
    pub comes_back : release ip after ≡ addrs

  add_taken :
      (random : ℕ) (randoms : List ℕ) {addrs : List Bytes} {r : Bytes × List Bytes}
      → member (inet_ntoa (drawn_address random)) addrs ≡ true
      → ((r ≡ ([], addrs)) × AllTaken randoms addrs) ⊎ IsLent addrs r.0 r.1
      → ((r ≡ ([], addrs)) × AllTaken (random ∷ randoms) addrs) ⊎ IsLent addrs r.0 r.1
  add_taken random randoms e (inl (a, b)) = inl (a, (e, b))
  add_taken random randoms e (inr l) = inr l

  try_addresses-IsLent :
      (randoms : List ℕ) (addrs : List Bytes)
      → ((try_addresses randoms addrs ≡ ([], addrs)) × AllTaken randoms addrs)
        ⊎ IsLent addrs (try_addresses randoms addrs).0 (try_addresses randoms addrs).1
  unfolding try_addresses release
  try_addresses-IsLent [] addrs = inl (refl, tt)
  try_addresses-IsLent (random ∷ randoms) addrs =
      let ip = inet_ntoa (drawn_address random) in
      if_cases
        (λ (r : Bytes × List Bytes).
          ((r ≡ ([], addrs)) × AllTaken (random ∷ randoms) addrs) ⊎ IsLent addrs r.0 r.1)
        (member ip addrs) (λ e. add_taken random randoms e (try_addresses-IsLent randoms addrs))
        (λ e. inr (record {
          address = drawn_address random;
          is_text = refl;
          from_first = omega arith;
          below_end = omega arith;
          was_free = e;
          is_taken = refl;
          comes_back = rw (same_refl ip) refl;
        }))

  -- `GetMulticastIp` gives no address, and lends none, while all its ten candidates are lent
  -- already; or else it gives one from 232.0.1.0 on and below 232.255.255.255 that was not lent,
  -- which then is, and `Release` takes that back.
  pub get_multicast_ip-IsLent :
      (rd : ℕ → ℕ) (addrs : List Bytes)
      → ((get_multicast_ip rd addrs ≡ ([], addrs)) × AllTaken (ten_draws rd) addrs)
        ⊎ IsLent addrs (get_multicast_ip rd addrs).0 (get_multicast_ip rd addrs).1
  unfolding get_multicast_ip
  get_multicast_ip-IsLent rd addrs = try_addresses-IsLent (ten_draws rd) addrs
