-- ===== src/Ws/Session/Receive/Frames.antt =====
-- Whole client frames, as RFC 6455 lays them out, through the loop of `ProcessFrameBuffer`.
use camera_player.Prelude.{
  Bool-cases, ==_iff, ℕ, suc, ◌+◌, ◌^◌, ◌≤◌, ◌<◌, Bool, true, false, ◌==◌, ltb, if◌then◌else◌,
  Option, some, ◌≡◌, ◌≢◌, refl, sym, ap, ◌∙◌, arith, [], ◌∷◌, ◌++◌, append_assoc, append-nil,
  length, length-append, take, drop, drop-length, take-append_self, drop-append_self, All, Bytes,
  codes, IsByte, inl, inr,
}
use camera_player.Ws.Types.{OpCode, is_control_frame, continuation, text, binary}
use camera_player.Ws.Frame.{Header, parse_header, frame_total_size, apply_mask, u64_max}
use camera_player.Ws.Frame.Wire.{
  len_bytes, key_bytes, header_bytes, IsWire, parse_header-header_bytes,
}
use camera_player.Ws.Frame.Mask.{apply_mask_twice}
use camera_player.Ws.Frame.Accepted.{parse_header_stable}
use camera_player.Ws.Frame.Refused.{parse_header_refused_stable}
use camera_player.Ws.CloseCode.{message_too_big}
use camera_player.Ws.Session.State.{Session, Handlers, close_session}
use camera_player.Ws.Session.Receive.{
  Flow, returned, next_frame, wait, after_frame, after_round, handle_frame, frame_payload,
  round_body, round_checks, round, end_of_buffer, process_loop, process_frame_buffer, on_frame_data,
  refresh_heartbeat,
}

-- A frame that a client sends: masked, with its length in the shortest form.
abbrev pub client_header : Bool → OpCode → ℕ → ℕ → Header
client_header fin op key n = record {
  fin = fin;
  opcode = op;
  masked = true;
  header_len = 2 + length (len_bytes n ++ key_bytes true key);
  payload_len = n;
  mask_key = key;
}

abbrev pub client_frame : Bool → OpCode → ℕ → Bytes → Bytes
client_frame fin op key payload =
    header_bytes (client_header fin op key (length payload)) ++ apply_mask payload key

-- The frame is within what the session's options let through.
pub record Admits (s : Session) (op : OpCode) (key : ℕ) (payload : Bytes) : Type 0 where
  pub payload_fits : length payload < 2 ^ 32
  pub key_fits : key < 2 ^ 32
  pub buffer_fits : 14 + length payload ≤ s.options.max_frame_buffer_bytes
  pub message_fits :
      is_control_frame op ≡ false
      → length s.msg_payload + length payload ≤ s.options.max_message_bytes
  pub options_fit : s.options.max_message_bytes < 2 ^ 64

client_header-IsWire :
    (fin : Bool) (op : OpCode) (key n : ℕ)
    → n < 2 ^ 32
    → key < 2 ^ 32
    → IsWire (client_header fin op key n)
client_header-IsWire fin op key n hn hk = record {
  payload_fits = hn;
  key_fits = hk;
  unmasked_key = λ e. absurd (cc);
  header_len_is = omega arith;
}

client_total :
    (fin : Bool) (op : OpCode) (key : ℕ) (payload : Bytes)
    → length payload < 2 ^ 32
    → (frame_total_size (client_header fin op key (length payload))
        ≡ length (client_frame fin op key payload))
      × (length (client_frame fin op key payload) ≤ 14 + length payload)
client_total fin op key payload h =
    let hdr = client_header fin op key (length payload) in
    let len = length-append (header_bytes hdr) (apply_mask payload key) in
    let body = (apply_mask_twice payload key).1 in
    (ground (arith, len, body), ground (arith, len, body))

middle :
    (front mid rest : Bytes) (n m : ℕ)
    → n ≡ length front
    → m ≡ length mid
    → take m (drop n ((front ++ mid) ++ rest)) ≡ mid
middle front mid rest n m e f =
    rw (e, f, append_assoc, drop-append_self front (mid ++ rest)) (take-append_self mid rest)

unmask_middle :
    (fin : Bool) (op : OpCode) (key : ℕ) (payload rest : Bytes)
    → apply_mask
        (take (length payload) (
          drop
            (client_header fin op key (length payload)).header_len
            (client_frame fin op key payload ++ rest)))
        key
      ≡ payload
unmask_middle fin op key payload rest =
    let hdr = client_header fin op key (length payload) in
    let (back, same) = apply_mask_twice payload key in
    ap (λ b. apply_mask b key)
      (middle (header_bytes hdr) (apply_mask payload key) rest hdr.header_len (length payload)
        (omega arith) (sym same))
    ∙ back

client_payload :
    (fin : Bool) (op : OpCode) (key : ℕ) (payload rest : Bytes)
    → frame_payload
        (client_header fin op key (length payload))
        (client_frame fin op key payload ++ rest)
      ≡ payload
client_payload fin op key [] rest = refl
client_payload fin op key (b ∷ bs) rest = ground (arith, unmask_middle fin op key (b ∷ bs) rest)

module _ (h : Handlers) where
  checks_pass :
      (now : ℕ) (rest : Bytes) (s : Session) (fin : Bool) (op : OpCode) (key : ℕ) (payload : Bytes)
      → Admits s op key payload
      → round_checks h now
          (client_header fin op key (length payload)).header_len
          (client_header fin op key (length payload))
          rest
          s
        ≡ round_body h now (client_header fin op key (length payload)) rest s
  unfolding round_checks
  checks_pass now rest s fin continuation key payload a = ground (arith, a.message_fits refl)
  checks_pass now rest s fin text key payload a = ground (arith, a.message_fits refl)
  checks_pass now rest s fin binary key payload a = ground (arith, a.message_fits refl)
  checks_pass now rest s fin _ key payload a = ground arith

  -- A round on bytes whose header is read and in bounds.
  round_on_header :
      (now : ℕ) (rest : Bytes) (s : Session) (fin : Bool) (op : OpCode) (key : ℕ) (payload : Bytes)
      → Admits s op key payload
      → parse_header rest ≡ (
        (client_header fin op key (length payload)).header_len,
        client_header fin op key (length payload),
      )
      → round h now rest s ≡ round_body h now (client_header fin op key (length payload)) rest s
  unfolding round
  round_on_header now rest s fin op key payload a e =
      ap (λ (r : ℕ × Header). round_checks h now r.0 r.1 rest s) e
      ∙ checks_pass now rest s fin op key payload a

  client_header_read :
      (fin : Bool) (op : OpCode) (key : ℕ) (payload rest : Bytes)
      → length payload < 2 ^ 32
      → key < 2 ^ 32
      → parse_header (client_frame fin op key payload ++ rest) ≡ (
        (client_header fin op key (length payload)).header_len,
        client_header fin op key (length payload),
      )
  client_header_read fin op key payload rest hp hk =
      let hdr = client_header fin op key (length payload) in
      ap parse_header (append_assoc (header_bytes hdr) (apply_mask payload key) rest)
      ∙ parse_header-header_bytes hdr (apply_mask payload key ++ rest)
          (client_header-IsWire fin op key (length payload) hp hk)

  -- A whole client frame at the front of the bytes, which the options admit, is unmasked and
  -- handled, and as many bytes as it has are taken.
  pub round-client_frame :
      (now : ℕ) (s : Session) (fin : Bool) (op : OpCode) (key : ℕ) (payload rest : Bytes)
      → Admits s op key payload
      → round h now (client_frame fin op key payload ++ rest) s
        ≡ after_frame (length (client_frame fin op key payload)) (
            handle_frame h
              (client_header fin op key (length payload))
              payload
              (refresh_heartbeat now s))
  unfolding round_body
  round-client_frame now s fin op key payload rest a =
      let (total, most) = client_total fin op key payload a.payload_fits in
      round_on_header now _ s fin op key payload a
        (client_header_read fin op key payload rest a.payload_fits a.key_fits)
      ∙ simp (client_payload fin op key payload rest, total)
          (ground (arith, length-append (client_frame fin op key payload) rest))

  -- Bytes whose header is neither whole nor refused.
  round_header_short :
      (now : ℕ) (rest : Bytes) (s : Session)
      → (parse_header rest).0 ≡ 0
      → (parse_header rest).1.payload_len ≢ u64_max
      → round h now rest s ≡ wait
  unfolding round round_checks
  round_header_short now rest s e ne = ground arith

  -- Where the bytes left are only the front of a client frame that the options admit, the round
  -- waits for more.
  pub round-client_frame_front :
      (now : ℕ) (s : Session) (fin : Bool) (op : OpCode) (key : ℕ) (payload front : Bytes) (b : ℕ)
      (back : Bytes)
      → Admits s op key payload
      → All IsByte front
      → client_frame fin op key payload ≡ front ++ b ∷ back
      → round h now front s ≡ wait
  round-client_frame_front now s fin op key payload front b back a bs e =
      elim (Bool-cases ((parse_header front).0 == 0)) [
        | inl z ↦ round_header_short now front s ((==_iff _ _).0 z) not_refused
        | inr nz ↦
            round_on_header now front s fin op key payload a
              (sym (parse_header_stable front (b ∷ back) bs (ground arith)).1 ∙ whole)
            ∙ body_waits
      ]
    where
      whole : parse_header (front ++ b ∷ back) ≡ (
        (client_header fin op key (length payload)).header_len,
        client_header fin op key (length payload),
      )
      whole =
          rw (append-nil, e) at (client_header_read fin op key payload [] a.payload_fits a.key_fits)

      not_refused : (parse_header front).1.payload_len ≢ u64_max
      not_refused r = omega (
        arith,
        parse_header_refused_stable front (b ∷ back) bs r,
        ap (λ (x : ℕ × Header). x.1.payload_len) whole,
        a.payload_fits,
      )

      body_waits : round_body h now (client_header fin op key (length payload)) front s ≡ wait
      body_waits =
          unfold round_body in
          ground (
            arith,
            client_total fin op key payload a.payload_fits,
            ap length e,
            length-append front (b ∷ back),
          )

  -- A session whose buffer is empty and that reads one whole frame handles it, and goes on as
  -- `settle` says.
  abbrev pub settle : Flow → Session
  settle (returned t) = t
  settle (next_frame t) = end_of_buffer [] t

  after_last_frame :
      (rest : Bytes) (s : Session) (next : ℕ → Session → Option Session) (n : ℕ) (r : Flow)
      → ((t : Session) → next n t ≡ some (end_of_buffer [] t))
      → after_round rest s next (after_frame n r) ≡ some (settle r)
  after_last_frame rest s next n (returned t) k = refl
  after_last_frame rest s next n (next_frame t) k = k t

  process_loop-client_frame :
      (fuel now : ℕ) (s : Session) (fin : Bool) (op : OpCode) (key : ℕ) (payload : Bytes)
      → Admits s op key payload
      → process_loop h (suc fuel) now (client_frame fin op key payload) s
        ≡ some (
            settle (
              handle_frame h
                (client_header fin op key (length payload))
                payload
                (refresh_heartbeat now s)))
  unfolding process_loop
  process_loop-client_frame fuel now s fin op key payload a =
      let frame = client_frame fin op key payload in
      let e = rw append-nil at (round-client_frame now s fin op key payload [] a) in
      ap (after_round frame s (λ total t. process_loop h fuel now (drop total frame) t)) e
      ∙ after_last_frame frame s (λ total t. process_loop h fuel now (drop total frame) t)
          (length frame) _ (λ t. ap (λ l. process_loop h fuel now l t) (drop-length frame))

  -- On an empty buffer, one whole frame of the client that the options admit is unmasked and handled
  -- with its own flags and operation, and the read goes on as `settle` says.
  pub on_frame_data-client_frame :
      (now : ℕ) (s : Session) (fin : Bool) (op : OpCode) (key : ℕ) (payload : Bytes)
      → Admits s op key payload
      → s.frame_buf ≡ []
      → let frame = client_frame fin op key payload in
        on_frame_data h false frame now s
        ≡ some (
            settle (
              handle_frame h
                (client_header fin op key (length payload))
                payload
                (refresh_heartbeat now (record s { frame_buf = frame }))))
  unfolding on_frame_data process_frame_buffer
  on_frame_data-client_frame now s fin op key payload a e =
      let frame = client_frame fin op key payload in
      let (total, most) = client_total fin op key payload a.payload_fits in
      let fits : ltb s.options.max_frame_buffer_bytes (length frame) ≡ false = ground arith in
      ap
        (λ buf.
          if ltb s.options.max_frame_buffer_bytes (length buf)
          then some (
              close_session message_too_big (codes "frame buffer too large")
                (record s { frame_buf = buf }))
          else process_frame_buffer h now (record s { frame_buf = buf }))
        (ap (λ l. l ++ frame) e)
      ∙ simp fits (
          process_loop-client_frame _ now (record s { frame_buf = frame }) fin op key payload
            (record {
              payload_fits = a.payload_fits;
              key_fits = a.key_fits;
              buffer_fits = a.buffer_fits;
              message_fits = a.message_fits;
              options_fit = a.options_fit;
            }))
