-- ===== src/Ws/Sha1/Examples.antt =====
-- Test vectors of RFC 3174.
use camera_player.Prelude.{◌%◌, ◌<◌, ◌≡◌, refl, arith, [], ◌∷◌, ◌++◌, length, codes}
use camera_player.Ws.Sha1.{new_sha1, hash, update, process_block, digest_bytes}
use camera_player.Ws.Sha1.Update.{absorb, update-update}
use camera_player.Ws.Sha1.Padding.{padded, hash-padded}

hash_abc :
    hash (codes "abc")
    ≡ 0xA9 ∷ 0x99 ∷ 0x3E ∷ 0x36 ∷ 0x47 ∷ 0x06 ∷ 0x81 ∷ 0x6A ∷ 0xBA ∷ 0x3E ∷ 0x25 ∷ 0x71 ∷ 0x78
      ∷ 0x50 ∷ 0xC2 ∷ 0x6C ∷ 0x9C ∷ 0xD0 ∷ 0xD8 ∷ 0x9D ∷ []
unfolding hash process_block
hash_abc = refl

update-update_example :
    (update (codes "c") (update (codes "ab") new_sha1) ≡ update (codes "ab" ++ codes "c") new_sha1)
    × (length (update (codes "ab") new_sha1).buffer < 64)
update-update_example = update-update (codes "ab") (codes "c") new_sha1 (omega arith) (omega arith)

hash-padded_example :
    (hash (codes "abc") ≡ digest_bytes (absorb (padded (codes "abc")) (new_sha1.h, [])).0)
    × (length (padded (codes "abc")) % 64 ≡ 0)
    × (length (hash (codes "abc")) ≡ 20)
hash-padded_example = hash-padded (codes "abc") (omega arith)
