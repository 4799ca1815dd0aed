-- ===== src/Ws/Session/Receive/Buffer.antt =====
-- The loop of `ProcessFrameBuffer` over the bytes: it ends, it takes whole frames off the front, and
-- it waits for the rest of a frame that is not whole.
use camera_player.Prelude.{
  if_cases, ℕ, zero, suc, ◌+◌, ◌%◌, ◌^◌, ◌≤◌, ◌<◌, not, ◌&&◌, ◌==◌, ltb, Option, some, ◌≡◌, ◌≢◌,
  refl, arith, [], ◌∷◌, length, drop, length-drop, All, All-drop, Bytes, IsByte,
}
use camera_player.Ws.Types.{is_control_frame}
use camera_player.Ws.Frame.{Header, parse_header, frame_total_size, u64_max}
use camera_player.Ws.Frame.Wire.{IsWire}
use camera_player.Ws.Frame.Accepted.{parse_header_sound}
use camera_player.Ws.Session.State.{Session, Handlers}
use camera_player.Ws.Session.Receive.{
  Flow, returned, next_frame, Round, leave, wait, advance, after_frame, after_round, accumulated,
  round_body, round_checks, round, end_of_buffer, process_loop, process_frame_buffer,
}

-- A round that goes on takes a byte or more, and no more than there are.
abbrev RoundFits : Bytes → Round → Type 0
RoundFits rest (leave t) = Unit
RoundFits rest wait = Unit
RoundFits rest (advance n t) = (0 < n) × (n ≤ length rest)

after_frame-RoundFits :
    (n : ℕ) (rest : Bytes) (r : Flow) → 0 < n → n ≤ length rest → RoundFits rest (after_frame n r)
after_frame-RoundFits n rest (returned t) p q = tt
after_frame-RoundFits n rest (next_frame t) p q = (p, q)

module _ (h : Handlers) where
  round_body-RoundFits :
      (now : ℕ) (hdr : Header) (rest : Bytes) (s : Session)
      → 0 < frame_total_size hdr
      → RoundFits rest (round_body h now hdr rest s)
  unfolding round_body
  round_body-RoundFits now hdr rest s p =
      if_cases (RoundFits rest) (ltb s.options.max_frame_buffer_bytes (frame_total_size hdr))
        (λ e. tt)
        (λ e.
          if_cases (RoundFits rest) (ltb (length rest) (frame_total_size hdr)) (λ f. tt)
            (λ f. after_frame-RoundFits (frame_total_size hdr) rest _ p (ground arith)))

  round_checks-RoundFits :
      (now header_len : ℕ) (hdr : Header) (rest : Bytes) (s : Session)
      → (header_len ≢ 0 → 0 < frame_total_size hdr)
      → RoundFits rest (round_checks h now header_len hdr rest s)
  unfolding round_checks
  round_checks-RoundFits now header_len hdr rest s p =
      if_cases (RoundFits rest) (hdr.payload_len == u64_max) (λ e. tt)
        (λ e.
          if_cases (RoundFits rest) (header_len == 0) (λ f. tt)
            (λ f.
              if_cases (RoundFits rest) (not hdr.masked) (λ g. tt)
                (λ g.
                  if_cases (RoundFits rest)
                    (not (is_control_frame hdr.opcode)
                      && ltb s.options.max_message_bytes
                          ((accumulated hdr s + hdr.payload_len) % 2 ^ 64))
                    (λ i. tt) (λ i. round_body-RoundFits now hdr rest s (p (ground arith))))))

  IsWire-total :
      (hdr : Header)
      → IsWire hdr
      → (0 < frame_total_size hdr) × (frame_total_size hdr ≡ hdr.header_len + hdr.payload_len)
  IsWire-total hdr w = ground (arith, w.header_len_is, w.payload_fits)

  round-RoundFits :
      (now : ℕ) (rest : Bytes) (s : Session) → All IsByte rest → RoundFits rest (round h now rest s)
  unfolding round
  round-RoundFits now rest s bs =
      round_checks-RoundFits now (parse_header rest).0 (parse_header rest).1 rest s
        (λ ne. (IsWire-total (parse_header rest).1 (parse_header_sound rest bs ne).1).0)

  after_round_total :
      (rest : Bytes) (s : Session) (next : ℕ → Session → Option Session) (r : Round)
      → RoundFits rest r
      → ((n : ℕ) (t : Session) → 0 < n → n ≤ length rest → (u : Session) × (next n t ≡ some u))
      → (u : Session) × (after_round rest s next r ≡ some u)
  after_round_total rest s next (leave t) x k = (t, refl)
  after_round_total rest s next wait x k = (end_of_buffer rest s, refl)
  after_round_total rest s next (advance n t) x k = k n t x.0 x.1

  process_loop_total :
      (fuel now : ℕ) (rest : Bytes) (s : Session)
      → length rest ≤ fuel
      → All IsByte rest
      → (u : Session) × (process_loop h fuel now rest s ≡ some u)
  unfolding process_loop
  process_loop_total fuel now [] s p bs = (end_of_buffer [] s, refl)
  process_loop_total zero now (b ∷ bs) s p hs = absurd (omega arith)
  process_loop_total (suc fuel) now (b ∷ bs) s p hs =
      after_round_total (b ∷ bs) s _ (round h now (b ∷ bs) s) (round-RoundFits now (b ∷ bs) s hs)
        (λ n t q r.
          process_loop_total fuel now (drop n (b ∷ bs)) t (omega (arith, length-drop n (b ∷ bs)))
            (All-drop IsByte n (b ∷ bs) hs))

  -- `ProcessFrameBuffer` ends on every buffer of bytes.
  pub process_frame_buffer_total :
      (now : ℕ) (s : Session)
      → All IsByte s.frame_buf
      → (u : Session) × (process_frame_buffer h now s ≡ some u)
  unfolding process_frame_buffer
  process_frame_buffer_total now s bs =
      process_loop_total (length s.frame_buf) now s.frame_buf s (omega arith) bs
