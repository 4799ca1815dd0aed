-- ===== src/Ws/Handshake/Negotiate.antt =====
-- The choice of a subprotocol, and the accept key.
use camera_player.Prelude.{
  ◌+◌, ◌*◌, ◌/◌, true, false, ◌≡◌, refl, ap, ◌∙◌, ◌⊎◌, inl, inr, arith, if_cases, List, [], ◌∷◌,
  ◌++◌, length, All, Bytes,
}
use camera_player.Prelude.Text.{member}
use camera_player.Ws.Handshake.{
  HttpRequest, parse_sub_protocols, first_requested, negotiate_sub_protocol, compute_accept_key,
  magic_guid,
}
use camera_player.Ws.Sha1.{hash, final}
use camera_player.Ws.Base64.{base64_encode}

-- A subprotocol of the list that the client did not ask for.
abbrev pub IsUnwanted : List Bytes → Bytes → Type 0
IsUnwanted requested p = member p requested ≡ false

-- The first of a list that the client asked for, with those before it and behind it.
pub record IsFirst (supported requested : List Bytes) (p : Bytes) : Type 0 where
  pub earlier : List Bytes
  pub later : List Bytes
  pub place : supported ≡ earlier ++ p ∷ later
  pub passed_over : All (IsUnwanted requested) earlier
  pub wanted : member p requested ≡ true

abbrev pub IsChoice : List Bytes → List Bytes → Bytes → Type 0
IsChoice supported requested p =
    IsFirst supported requested p ⊎ (p ≡ [] × All (IsUnwanted requested) supported)

IsChoice-cons :
    (x : Bytes) (supported requested : List Bytes) (p : Bytes)
    → IsUnwanted requested x
    → IsChoice supported requested p
    → IsChoice (x ∷ supported) requested p
IsChoice-cons x supported requested p u (inl f) = inl (record {
  earlier = x ∷ f.earlier;
  later = f.later;
  place = ap (◌∷◌ x) f.place;
  passed_over = (u, f.passed_over);
  wanted = f.wanted;
})
IsChoice-cons x supported requested p u (inr (e, a)) = inr (e, (u, a))

first_requested-IsChoice :
    (supported requested : List Bytes)
    → IsChoice supported requested (first_requested supported requested)
unfolding first_requested
first_requested-IsChoice [] requested = inr (refl, _)
first_requested-IsChoice (x ∷ xs) requested =
    if_cases (IsChoice (x ∷ xs) requested) (member x requested)
      (λ e. inl (record { earlier = []; later = xs; place = refl; passed_over = _; wanted = e }))
      (λ e.
        IsChoice-cons x xs requested (first_requested xs requested) e
          (first_requested-IsChoice xs requested))

-- The subprotocol that is negotiated is the first one in the server's list that the client asked for,
-- or the empty string if the client asked for none of them.
pub negotiate_sub_protocol-IsChoice :
    (req : HttpRequest) (supported : List Bytes)
    → IsChoice supported (parse_sub_protocols req) (negotiate_sub_protocol req supported)
unfolding negotiate_sub_protocol
negotiate_sub_protocol-IsChoice req supported =
    first_requested-IsChoice supported (parse_sub_protocols req)

-- Three bytes, or what is left of them, give four characters.
length-base64_encode : (bytes : Bytes) → length (base64_encode bytes) ≡ 4 * ((length bytes + 2) / 3)
unfolding base64_encode
length-base64_encode (a ∷ b ∷ c ∷ rest) = omega (arith, length-base64_encode rest)
length-base64_encode (a ∷ []) = refl
length-base64_encode (a ∷ b ∷ []) = refl
length-base64_encode [] = refl

length-hash : (bytes : Bytes) → length (hash bytes) ≡ 20
unfolding hash final
length-hash bytes = refl

-- The accept key has 28 characters, whatever the client's key is.
length-compute_accept_key : (key : Bytes) → length (compute_accept_key key) ≡ 28
unfolding compute_accept_key
length-compute_accept_key key =
    length-base64_encode (hash (key ++ magic_guid))
    ∙ ap (λ n. 4 * ((n + 2) / 3)) (length-hash (key ++ magic_guid))
