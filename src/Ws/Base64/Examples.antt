-- ===== src/Ws/Base64/Examples.antt =====
-- The vectors of RFC 4648.
use camera_player.Prelude.{◌≡◌, refl, arith, codes}
use camera_player.Ws.Base64.{base64_encode, base64_decode, base64_decode-base64_encode}

encoded_fooba : base64_encode (codes "fooba") ≡ codes "Zm9vYmE="
unfolding base64_encode
encoded_fooba = refl

base64_decode-base64_encode_example : base64_decode (base64_encode (codes "fo")) ≡ codes "fo"
base64_decode-base64_encode_example =
    base64_decode-base64_encode (codes "fo") (omega arith, (omega arith, _))
