-- ===== src/Ws/Sha1/Update.antt =====
-- `Update` against a description that takes one byte at a time: how the input is cut does not matter.
use camera_player.Prelude.{
  ℕ, zero, suc, ◌+◌, ◌-◌, ◌*◌, ◌%◌, ◌^◌, ◌≤◌, ◌<◌, true, false, ltb, leb, ◌==◌, if◌then◌else◌,
  Bool-cases, inl, inr, ◌≡◌, refl, sym, ap, ◌∙◌, arith, [], ◌∷◌, ◌++◌, append_assoc, append-nil,
  length, length-append, length-take, length-drop, take, drop, take-append-drop, drop-length, Bytes,
}
use mathlib.Core.Path.{subst}
use camera_player.Ws.Sha1.{
  Words, Sha1, process_block, process_blocks, update_rest, after_fill, update,
}

-- One byte: the block that it fills up is processed.
unfoldable pub take_byte : ℕ → Words × Bytes → Words × Bytes
take_byte x (h, buffer) =
    if length buffer == 63 then (process_block (buffer ++ x ∷ []) h, []) else (h, buffer ++ x ∷ [])

abbrev pub absorb : Bytes → Words × Bytes → Words × Bytes
absorb [] s = s
absorb (x ∷ xs) s = absorb xs (take_byte x s)

pub absorb-append : (a b : Bytes) (s : Words × Bytes) → absorb (a ++ b) s ≡ absorb b (absorb a s)
absorb-append [] b s = refl
absorb-append (x ∷ xs) b s = absorb-append xs b (take_byte x s)

absorb_some :
    (p buffer : Bytes) (h : Words)
    → length buffer + length p < 64
    → absorb p (h, buffer) ≡ (h, buffer ++ p)
unfolding take_byte
absorb_some [] buffer h l = ap (λ b. (h, b)) (sym (append-nil buffer))
absorb_some (x ∷ xs) buffer h l =
    let room : (length buffer == 63) ≡ false = ground arith in
    let step : take_byte x (h, buffer) ≡ (h, buffer ++ x ∷ []) = rw room refl in
    ap (absorb xs) step
    ∙ absorb_some xs (buffer ++ x ∷ []) h (omega (arith, length-append buffer (x ∷ [])))
    ∙ ap (λ b. (h, b)) (append_assoc buffer (x ∷ []) xs)

pub absorb_block :
    (p buffer : Bytes) (h : Words)
    → length buffer + length p ≡ 64
    → 0 < length p
    → absorb p (h, buffer) ≡ (process_block (buffer ++ p) h, [])
unfolding take_byte
absorb_block [] buffer h e l = absurd (omega arith)
absorb_block (x ∷ []) buffer h e l =
    let full : (length buffer == 63) ≡ true = ground arith in rw full refl
absorb_block (x ∷ y ∷ ys) buffer h e l =
    let room : (length buffer == 63) ≡ false = ground arith in
    let step : take_byte x (h, buffer) ≡ (h, buffer ++ x ∷ []) = rw room refl in
    ap (absorb (y ∷ ys)) step
    ∙ absorb_block (y ∷ ys) (buffer ++ x ∷ []) h (omega (arith, length-append buffer (x ∷ [])))
        (omega arith)
    ∙ ap (λ b. (process_block b h, [])) (append_assoc buffer (x ∷ []) (y ∷ ys))

process_blocks-absorb :
    (fuel : ℕ) (p : Bytes) (h : Words)
    → length p ≤ fuel
    → (process_blocks fuel p h ≡ absorb p (h, [])) × (length (process_blocks fuel p h).1 < 64)
unfolding process_blocks
process_blocks-absorb zero [] h l = (refl, omega arith)
process_blocks-absorb zero (x ∷ xs) h l = absurd (omega arith)
process_blocks-absorb (suc fuel) p h l = elim (Bool-cases (leb 64 (length p))) [
  | inl e ↦
      let long : 64 ≤ length p = ground arith in
      let block : length (take 64 p) ≡ 64 = omega (arith, length-take 64 p) in
      let (same, less) =
        process_blocks-absorb fuel (drop 64 p) (process_block (take 64 p) h)
          (omega (arith, length-drop 64 p)) in
      rw e (
        same
            ∙ ap (absorb (drop 64 p))
                (sym (absorb_block (take 64 p) [] h (omega arith) (omega arith)))
            ∙ sym (absorb-append (take 64 p) (drop 64 p) (h, []))
            ∙ ap (λ l. absorb l (h, [])) (take-append-drop 64 p),
        less,
      )
  | inr e ↦
      (let short : length p < 64 = ground arith in
        rw e (sym (absorb_some p [] h (omega arith)), omega arith))
]

abbrev pub sha1_of : ℕ → Words × Bytes → Sha1
sha1_of total_bits (h, buffer) = record { h = h; total_bits = total_bits; buffer = buffer }

update_rest-absorb :
    (p : Bytes) (total : ℕ) (h : Words)
    → update_rest p (sha1_of total (h, [])) ≡ sha1_of total (absorb p (h, []))
update_rest-absorb p total h =
    stored (process_blocks (length p) p h)
    ∙ ap (sha1_of total) (process_blocks-absorb (length p) p h (omega arith)).0
  where
    stored :
        (r : Words × Bytes)
        → (if length r.1 == 0
            then record (sha1_of total (h, [])) { h = r.0 }
            else record (sha1_of total (h, [])) { h = r.0; buffer = r.1 })
          ≡ sha1_of total r
    stored (k, []) = refl
    stored (k, x ∷ xs) = ground arith

after_fill-short :
    (total : ℕ) (h : Words) (buffer : Bytes)
    → length buffer < 64
    → after_fill [] (sha1_of total (h, buffer)) ≡ sha1_of total (h, buffer)
unfolding process_blocks
after_fill-short total h buffer l =
    let short : (length buffer == 64) ≡ false = ground arith in rw short refl

after_fill-full :
    (p : Bytes) (total : ℕ) (h : Words) (buffer : Bytes)
    → length buffer ≡ 64
    → after_fill p (sha1_of total (h, buffer))
      ≡ sha1_of total (absorb p (process_block buffer h, []))
after_fill-full p total h buffer l =
    let full : (length buffer == 64) ≡ true = ground arith in
    rw full (update_rest-absorb p total (process_block buffer h))

take-length : (d : Bytes) → take (length d) d ≡ d
take-length [] = refl
take-length (x ∷ xs) = ap (◌∷◌ x) (take-length xs)

-- The way through a buffer that has bytes, by whether the input fills it up.
fill_up :
    (d : Bytes) (total : ℕ) (h : Words) (buffer : Bytes)
    → 0 < length d
    → 0 < length buffer
    → length buffer < 64
    → let need = 64 - length buffer in
      let taken = if ltb (length d) need then length d else need in
      after_fill (drop taken d) (sha1_of total (h, buffer ++ take taken d))
      ≡ sha1_of total (absorb d (h, buffer))
fill_up d total h buffer ld lb l = elim (Bool-cases (ltb (length d) (64 - length buffer))) [
  | inl e ↦
      let short : length d < 64 - length buffer = ground arith in
      rw (e, drop-length d, take-length d)
        (after_fill-short total h (buffer ++ d) (omega (arith, length-append buffer d))
          ∙ ap (sha1_of total) (sym (absorb_some d buffer h (omega arith))))
  | inr e ↦
      let long : 64 - length buffer ≤ length d = ground arith in
      let need = 64 - length buffer in
      let size : length (take need d) ≡ need = omega (arith, length-take need d) in
      rw e (
        after_fill-full (drop need d) total h (buffer ++ take need d)
          (omega (arith, length-append buffer (take need d), size))
        ∙ ap (λ s. sha1_of total (absorb (drop need d) s))
            (sym (absorb_block (take need d) buffer h (omega (arith, size)) (omega (arith, size))))
        ∙ ap (sha1_of total) (sym (absorb-append (take need d) (drop need d) (h, buffer)))
        ∙ ap (λ x. sha1_of total (absorb x (h, buffer))) (take-append-drop need d))
]

update-absorb_of :
    (d : Bytes) (total : ℕ) (h : Words) (buffer : Bytes)
    → length buffer < 64
    → total < 2 ^ 64
    → update d (sha1_of total (h, buffer))
      ≡ sha1_of ((total + length d * 8) % 2 ^ 64) (absorb d (h, buffer))
unfolding update
update-absorb_of [] total h buffer l t = ap (λ n. sha1_of n (h, buffer)) (omega arith)
update-absorb_of (x ∷ xs) total h [] l t =
    let some_data : (length (x ∷ xs) == 0) ≡ false = ground arith in
    rw some_data (update_rest-absorb (x ∷ xs) ((total + length (x ∷ xs) * 8) % 2 ^ 64) h)
update-absorb_of (x ∷ xs) total h (b ∷ bs) l t =
    let some_data : (length (x ∷ xs) == 0) ≡ false = ground arith in
    let some_buffer : ltb 0 (length (b ∷ bs)) ≡ true = ground arith in
    rw (some_data, some_buffer)
      (fill_up (x ∷ xs) ((total + length (x ∷ xs) * 8) % 2 ^ 64) h (b ∷ bs) (omega arith)
        (omega arith) l)

-- `Update` processes the bytes as if they came one at a time, and counts their bits.
pub update-absorb :
    (d : Bytes) (s : Sha1)
    → length s.buffer < 64
    → s.total_bits < 2 ^ 64
    → update d s ≡ sha1_of ((s.total_bits + length d * 8) % 2 ^ 64) (absorb d (s.h, s.buffer))
update-absorb d s l t = update-absorb_of d s.total_bits s.h s.buffer l t

pub take_byte-lt : (x : ℕ) (s : Words × Bytes) → length s.1 < 64 → length (take_byte x s).1 < 64
unfolding take_byte
take_byte-lt x (h, buffer) l = ground (arith, length-append buffer (x ∷ []))

pub absorb-lt : (d : Bytes) (s : Words × Bytes) → length s.1 < 64 → length (absorb d s).1 < 64
absorb-lt [] s l = l
absorb-lt (x ∷ xs) s l = absorb-lt xs (take_byte x s) (take_byte-lt x s l)

-- From a state with fewer than 64 bytes in the buffer and a count below 2 ^ 64, two calls of
-- `Update` are one on the bytes together, wherever the input is cut, and the buffer keeps fewer
-- than 64 bytes.
pub update-update :
    (a b : Bytes) (s : Sha1)
    → length s.buffer < 64
    → s.total_bits < 2 ^ 64
    → (update b (update a s) ≡ update (a ++ b) s) × (length (update a s).buffer < 64)
update-update a b s l t =
    let first = update-absorb a s l t in
    let less = absorb-lt a (s.h, s.buffer) l in
    let bits : ((s.total_bits + length a * 8) % 2 ^ 64 + length b * 8) % 2 ^ 64
        ≡ (s.total_bits + length (a ++ b) * 8) % 2 ^ 64 =
      omega (arith, length-append a b) in
    (
      ap (update b) first
          ∙ update-absorb b
              (sha1_of ((s.total_bits + length a * 8) % 2 ^ 64) (absorb a (s.h, s.buffer))) less
              (omega arith)
          ∙ ap (λ n. sha1_of n (absorb b (absorb a (s.h, s.buffer)))) bits
          ∙ ap (sha1_of ((s.total_bits + length (a ++ b) * 8) % 2 ^ 64))
              (sym (absorb-append a b (s.h, s.buffer)))
          ∙ sym (update-absorb (a ++ b) s l t),
      subst (λ (u : Sha1). length u.buffer < 64) (sym first) less,
    )
