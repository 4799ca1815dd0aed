-- ===== src/Http/Parser/Chunks.antt =====
-- The parser does not see how the bytes of a request are cut into reads.
use mathlib.Core.Path.{subst}
use camera_player.Prelude.{
  ℕ, Bool, true, false, not, ◌&&◌, ltb, if◌then◌else◌, Option, none, some, ◌≡◌, ◌⊎◌, refl, sym, ap,
  ◌∙◌, arith, if_cases, inl, inr, List, [], ◌∷◌, ◌++◌, append_assoc, length, Bytes, codes,
}
use camera_player.Prelude.Text.{words, same, lookup, split_at, pop_cr}
use camera_player.Prelude.Lines.{FoundAt, split_at-FoundAt, split_at-append}
use camera_player.Prelude.Numbers.{stoul}
use camera_player.Http.Parser.{
  set_line, consumed, take_body, ParseState, at_method, at_uri, at_version, at_header_key,
  at_header_value, at_body, at_done, at_error, Parser, Headers, unfinished, malformed, ended,
  headers_loop, after_headers, run_body, has_error, run_headers, run_words, run_line, run, is_over,
  feed, set_headers,
}
use camera_player.Http.Parser.Loop.{carry, headers_loop-append}

-- What a parser shows: the state, the request and the bytes it holds, but for the bytes of one that
-- has failed, which are not looked at again.
abbrev pub shown : Option (ℕ × Parser) → Option Parser
shown none = none
shown (some (n, p)) = some (if has_error p then record p { buffer = [] } else p)

-- A run on the bytes so far, then on more of them, against one on all of them.
abbrev pub Continues : Bytes → Option (ℕ × Parser) → Option (ℕ × Parser) → Type 0
Continues b none whole = shown whole ≡ none
Continues b (some (n, q)) whole = is_over q.state ≡ false → shown whole ≡ shown (feed b q)

-- The body is read alike, whatever the state is and whatever the buffer had.
run_body-shown :
    (v : Bytes) (p : Parser) (st st' : ParseState) (w w' : Bytes)
    → shown (run_body v (record p { state = st; buffer = w }))
      ≡ shown (run_body v (record p { state = st'; buffer = w' }))
run_body-shown v p st st' w w' = ground arith

after_headers-shown :
    (o : Option Headers) (p : Parser) (hs : List (Bytes × Bytes)) (w w' : Bytes)
    → shown (after_headers o (record p { buffer = w }))
      ≡ shown (after_headers o (record p { req = record p.req { headers = hs }; buffer = w' }))
after_headers-shown none p hs w w' = refl
after_headers-shown (some (unfinished v xs)) p hs w w' = refl
after_headers-shown (some (malformed v xs)) p hs w w' = refl
after_headers-shown (some (ended v xs)) p hs w w' =
    run_body-shown v (set_headers xs p) p.state p.state w w'

abbrev length_key : Bytes
length_key = codes "content-length"

run_body-length :
    (v : Bytes) (p : Parser) (value : Bytes) (n : ℕ)
    → lookup length_key p.req.headers ≡ some value
    → stoul value ≡ some n
    → run_body v p ≡ some (take_body n v p)
run_body-length v p value n e f = ground arith

run_body-throws :
    (v : Bytes) (p : Parser) (value : Bytes)
    → lookup length_key p.req.headers ≡ some value
    → stoul value ≡ none
    → run_body v p ≡ none
run_body-throws v p value e f = ground arith

run_body-plain :
    (v : Bytes) (p : Parser)
    → lookup length_key p.req.headers ≡ none
    → run_body v p ≡ some (consumed v p, record p { state = at_done; buffer = v })
run_body-plain v p e = ground arith

take_body-Continues :
    (b v : Bytes) (p : Parser) (w w' value : Bytes) (n : ℕ)
    → lookup length_key p.req.headers ≡ some value
    → stoul value ≡ some n
    → Continues b
        (some (take_body n v (record p { buffer = w })))
        (run_body (v ++ b) (record p { buffer = w' }))
unfolding feed run
take_body-Continues b v p w w' value n e f =
    if_cases
      (λ (x : ℕ × Parser). Continues b (some x) (run_body (v ++ b) (record p { buffer = w' })))
      (ltb (length v) n) (λ g h. run_body-shown (v ++ b) p p.state at_body w' (v ++ b))
      (λ g h. absurd (ground arith))

by_value :
    (b v : Bytes) (p : Parser) (w w' value : Bytes) (m : Option ℕ)
    → lookup length_key p.req.headers ≡ some value
    → stoul value ≡ m
    → Continues b
        (run_body v (record p { buffer = w }))
        (run_body (v ++ b) (record p { buffer = w' }))
by_value b v p w w' value none e f =
    subst (λ x. Continues b x (run_body (v ++ b) (record p { buffer = w' })))
      (sym (run_body-throws v (record p { buffer = w }) value e f))
      (ap shown (run_body-throws (v ++ b) (record p { buffer = w' }) value e f))
by_value b v p w w' value (some n) e f =
    subst (λ x. Continues b x (run_body (v ++ b) (record p { buffer = w' })))
      (sym (run_body-length v (record p { buffer = w }) value n e f))
      (take_body-Continues b v p w w' value n e f)

by_lookup :
    (b v : Bytes) (p : Parser) (w w' : Bytes) (o : Option Bytes)
    → lookup length_key p.req.headers ≡ o
    → Continues b
        (run_body v (record p { buffer = w }))
        (run_body (v ++ b) (record p { buffer = w' }))
by_lookup b v p w w' none e =
    subst (λ x. Continues b x (run_body (v ++ b) (record p { buffer = w' })))
      (sym (run_body-plain v (record p { buffer = w }) e)) (λ h. absurd (ground arith))
by_lookup b v p w w' (some value) e = by_value b v p w w' value (stoul value) e refl

run_body-Continues :
    (b v : Bytes) (p : Parser) (w w' : Bytes)
    → Continues b
        (run_body v (record p { buffer = w }))
        (run_body (v ++ b) (record p { buffer = w' }))
run_body-Continues b v p w w' = by_lookup b v p w w' (lookup length_key p.req.headers) refl

-- The headers are read on where they were left.
after_headers-Continues :
    (b : Bytes) (p : Parser) (w w' : Bytes) (o : Option Headers)
    → is_over p.state ≡ false
    → ((x : Parser) → run p.state x ≡ run_headers x.buffer x)
    → Continues b
        (after_headers o (record p { buffer = w }))
        (after_headers (carry b o) (record p { buffer = w' }))
unfolding feed carry run_headers
after_headers-Continues b p w w' none going k = refl
after_headers-Continues b p w w' (some (malformed v hs)) going k = λ h. absurd (ground arith)
after_headers-Continues b p w w' (some (ended v hs)) going k =
    run_body-Continues b v (set_headers hs p) w w'
after_headers-Continues b p w w' (some (unfinished v hs)) going k = λ h.
    let q = record p { req = record p.req { headers = hs }; buffer = v ++ b } in
    let fed : feed b (record q { buffer = v }) ≡ run_headers (v ++ b) q = rw (feed, going) (k q) in
    after_headers-shown (headers_loop (length (v ++ b)) (v ++ b) hs) p hs w' (v ++ b)
    ∙ ap shown (sym fed)

run_headers-Continues :
    (b v : Bytes) (p : Parser) (w w' : Bytes)
    → is_over p.state ≡ false
    → ((x : Parser) → run p.state x ≡ run_headers x.buffer x)
    → Continues b
        (run_headers v (record p { buffer = w }))
        (run_headers (v ++ b) (record p { buffer = w' }))
unfolding run_headers
run_headers-Continues b v p w w' going k =
    subst
      (λ o.
        Continues b (run_headers v (record p { buffer = w }))
          (after_headers o (record p { buffer = w' })))
      (sym (
        headers_loop-append b (length v) (length (v ++ b)) v p.req.headers (omega arith)
          (omega arith)))
      (after_headers-Continues b p w w' (headers_loop (length v) v p.req.headers) going k)

either_way :
    (b : Bytes) (c : Bool) (x y x' y' : Option (ℕ × Parser))
    → Continues b x x'
    → Continues b y y'
    → Continues b (if c then x else y) (if c then x' else y')
either_way b true x y x' y' h g = h
either_way b false x y x' y' h g = g

run_words-Continues :
    (b v : Bytes) (ls : List Bytes) (p : Parser) (w w' : Bytes)
    → Continues b
        (run_words ls v (record p { buffer = w }))
        (run_words ls (v ++ b) (record p { buffer = w' }))
unfolding run
run_words-Continues b v [] p w w' = λ h. absurd (ground arith)
run_words-Continues b v (m ∷ []) p w w' = λ h. absurd (ground arith)
run_words-Continues b v (m ∷ u ∷ []) p w w' = λ h. absurd (ground arith)
run_words-Continues b v (m ∷ u ∷ t ∷ more) p w w' =
    either_way b (not (same t (codes "HTTP/1.0")) && not (same t (codes "HTTP/1.1"))) _ _ _ _
      (λ h. absurd (ground arith))
      (run_headers-Continues b v (record (set_line m u t p) { state = at_header_key }) w w' refl
        (λ x. refl))

run_line-words :
    (p : Parser) (front rest : Bytes)
    → split_at 10 p.buffer ≡ some (front, rest)
    → run_line p ≡ run_words (words (pop_cr front)) rest p
run_line-words p front rest e = rw (run_line, e) refl

run_line-waits : (p : Parser) → split_at 10 p.buffer ≡ none → run_line p ≡ some (0, p)
run_line-waits p e = rw (run_line, e) refl

run_line-Continues :
    (b w : Bytes) (p : Parser)
    → is_over p.state ≡ false
    → ((x : Parser) → run p.state x ≡ run_line x)
    → (split_at 10 w ≡ none) ⊎ FoundAt 10 w
    → Continues b (run_line (record p { buffer = w })) (run_line (record p { buffer = w ++ b }))
unfolding feed
run_line-Continues b w p going k (inl e) =
    let fed : feed b (record p { buffer = w }) ≡ run_line (record p { buffer = w ++ b }) =
      rw (feed, going) (k (record p { buffer = w ++ b })) in
    subst (λ x. Continues b x (run_line (record p { buffer = w ++ b })))
      (sym (run_line-waits (record p { buffer = w }) e)) (λ h. ap shown (sym fed))
run_line-Continues b w p going k (inr x) =
    let more : split_at 10 (w ++ b) ≡ some (x.front, x.rest ++ b) =
      ap (λ v. split_at 10 (v ++ b)) x.parts
      ∙ ap (split_at 10) (append_assoc x.front (10 ∷ x.rest) b)
      ∙ split_at-append 10 x.front (x.rest ++ b) x.first in
    subst (λ r. Continues b r (run_line (record p { buffer = w ++ b })))
      (sym (run_line-words (record p { buffer = w }) x.front x.rest x.found))
      (subst (Continues b (run_words (words (pop_cr x.front)) x.rest (record p { buffer = w })))
        (sym (run_line-words (record p { buffer = w ++ b }) x.front (x.rest ++ b) more))
        (run_words-Continues b x.rest (words (pop_cr x.front)) p w (w ++ b)))

run-Continues :
    (b w : Bytes) (p : Parser) (st : ParseState)
    → p.state ≡ st
    → is_over st ≡ false
    → Continues b (run st (record p { buffer = w })) (run st (record p { buffer = w ++ b }))
unfolding run
run-Continues b w p at_done e h = absurd (ground arith)
run-Continues b w p at_error e h = absurd (ground arith)
run-Continues b w p at_body e h = run_body-Continues b w p w (w ++ b)
run-Continues b w p at_header_key e h =
    run_headers-Continues b w p w (w ++ b) (rw e refl) (λ x. rw e refl)
run-Continues b w p at_header_value e h =
    run_headers-Continues b w p w (w ++ b) (rw e refl) (λ x. rw e refl)
run-Continues b w p at_method e h =
    run_line-Continues b w p (rw e refl) (λ x. rw e refl) (split_at-FoundAt 10 w)
run-Continues b w p at_uri e h =
    run_line-Continues b w p (rw e refl) (λ x. rw e refl) (split_at-FoundAt 10 w)
run-Continues b w p at_version e h =
    run_line-Continues b w p (rw e refl) (λ x. rw e refl) (split_at-FoundAt 10 w)

feed-run :
    (b : Bytes) (p : Parser)
    → is_over p.state ≡ false
    → feed b p ≡ run p.state (record p { buffer = p.buffer ++ b })
unfolding feed
feed-run b p h = rw (feed, h) refl

-- A parser that is not at its end, fed some bytes that do not bring it there either, and then others,
-- shows what it shows when it is fed all of them at once: the state, the request and, unless it has
-- failed, the bytes it holds; or that a number conversion threw.
pub feed-append :
    (a b : Bytes) (p q : Parser) (n : ℕ)
    → is_over p.state ≡ false
    → feed a p ≡ some (n, q)
    → is_over q.state ≡ false
    → shown (feed (a ++ b) p) ≡ shown (feed b q)
feed-append a b p q n h e g =
    let whole : feed (a ++ b) p ≡ run p.state (record p { buffer = p.buffer ++ a ++ b }) =
      feed-run (a ++ b) p h
      ∙ ap (λ w. run p.state (record p { buffer = w })) (sym (append_assoc p.buffer a b)) in
    let first : run p.state (record p { buffer = p.buffer ++ a }) ≡ some (n, q) =
      sym (feed-run a p h) ∙ e in
    ap shown whole
    ∙ subst (λ r. Continues b r (run p.state (record p { buffer = p.buffer ++ a ++ b }))) first
        (run-Continues b (p.buffer ++ a) p p.state refl h) g
