-- ===== src/Ws/Handshake/Request.antt =====
-- A request that is printed is read back.
use camera_player.Prelude.{
  ℕ, ◌+◌, ◌==◌, true, false, ◌≡◌, refl, ap, ◌∙◌, arith, some, List, [], ◌∷◌, ◌++◌, map, length,
  append_assoc, append-nil, All, Bytes,
}
use camera_player.Prelude.Text.{to_lower, lines, words, insert, pop_cr, split_at, starts_with}
use camera_player.Prelude.Lines.{
  is_plain, IsLine, IsWord, Lacks, lines-crlf, lines-last, pop_cr-crlf, pop_cr-line, words-last,
  words-space, split_at-append,
}
use camera_player.Ws.Handshake.{
  parsed, find_head, head_end, is_blank, strip_front, parse_header_lines, parse_lines,
  parse_http_request,
}

-- A header line, and the header lines of a request, each behind the end of the line before it.
abbrev pub header_line : Bytes × Bytes → Bytes
header_line (k, v) = k ++ 0x3A ∷ 0x20 ∷ v

abbrev pub header_text : List (Bytes × Bytes) → Bytes
header_text [] = []
header_text (x ∷ xs) = 13 ∷ 10 ∷ (header_line x ++ header_text xs)

-- The request line.
abbrev pub request_line : Bytes → Bytes → Bytes → Bytes
request_line m p v = m ++ 32 ∷ (p ++ 32 ∷ v)

-- A header that can be sent: the key has no colon, and the value begins with no blank and is not empty.
abbrev pub StartsPlain : Bytes → Type 0
StartsPlain [] = false ≡ true
StartsPlain (c ∷ cs) = is_blank c ≡ false

abbrev pub IsHeader : Bytes × Bytes → Type 0
IsHeader (k, v) = (IsLine k × Lacks 0x3A k) × (IsLine v × StartsPlain v)

-- The headers as the parser keeps them, the later ones over the earlier ones.
abbrev pub store_headers : List (Bytes × Bytes) → List (Bytes × Bytes) → List (Bytes × Bytes)
store_headers [] headers = headers
store_headers ((k, v) ∷ xs) headers = store_headers xs (insert (map to_lower k) v headers)

IsLine-append : (a b : Bytes) → IsLine a → IsLine b → IsLine (a ++ b)
IsLine-append [] b h g = g
IsLine-append (c ∷ cs) b (e, h) g = (e, IsLine-append cs b h g)

header_line-IsLine : (x : Bytes × Bytes) → IsHeader x → IsLine (header_line x)
header_line-IsLine (k, v) ((a, b), (c, d)) = IsLine-append k (0x3A ∷ 0x20 ∷ v) a (refl, (refl, c))

-- A head does not end where the blank line does not begin.
find_head-cons :
    (c : ℕ) (rest text : Bytes)
    → starts_with head_end (c ∷ rest) ≡ false
    → find_head rest ≡ some text
    → find_head (c ∷ rest) ≡ some (c ∷ text)
unfolding find_head
find_head-cons c rest text g e = rw (g, e) refl

-- No head ends within a line.
find_head-line :
    (l rest text : Bytes)
    → IsLine l
    → find_head rest ≡ some text
    → find_head (l ++ rest) ≡ some (l ++ text)
find_head-line [] rest text h e = e
find_head-line (c ∷ cs) rest text (p, h) e =
    let g : 13 == c ≡ false = ground arith in
    find_head-cons c (cs ++ rest) (cs ++ text) (rw g refl) (find_head-line cs rest text h e)

-- It does not end at a line's end that a line follows, either.
abbrev StartsLine : Bytes → Type 0
StartsLine [] = false ≡ true
StartsLine (c ∷ cs) = is_plain c ≡ true

find_head-crlf :
    (rest text : Bytes)
    → StartsLine rest
    → find_head rest ≡ some text
    → find_head (13 ∷ 10 ∷ rest) ≡ some (13 ∷ 10 ∷ text)
find_head-crlf [] text p e = ground arith
find_head-crlf (c ∷ cs) text p e =
    let g : 13 == c ≡ false = ground arith in
    find_head-cons 13 (10 ∷ c ∷ cs) (10 ∷ text) (rw g refl) (find_head-cons 10 (c ∷ cs) text refl e)

header_line-StartsLine :
    (x : Bytes × Bytes) (rest : Bytes) → IsHeader x → StartsLine (header_line x ++ rest)
header_line-StartsLine ([], v) rest h = refl
header_line-StartsLine (c ∷ cs, v) rest h = h.0.0.0

find_head-header_text :
    (xs : List (Bytes × Bytes)) (rest : Bytes)
    → All IsHeader xs
    → find_head (header_text xs ++ (head_end ++ rest)) ≡ some (header_text xs)
unfolding find_head
find_head-header_text [] rest h = refl
find_head-header_text (x ∷ xs) rest (g, h) =
    let e : find_head (header_line x ++ (header_text xs ++ (head_end ++ rest)))
        ≡ some (header_line x ++ header_text xs) =
      find_head-line (header_line x) (header_text xs ++ (head_end ++ rest)) (header_text xs)
        (header_line-IsLine x g) (find_head-header_text xs rest h) in
    ap (λ t. find_head (13 ∷ 10 ∷ t))
      (append_assoc (header_line x) (header_text xs) (head_end ++ rest))
    ∙ find_head-crlf (header_line x ++ (header_text xs ++ (head_end ++ rest)))
        (header_line x ++ header_text xs)
        (header_line-StartsLine x (header_text xs ++ (head_end ++ rest)) g) e

-- The lines of the head behind a line.
line_list : Bytes → List (Bytes × Bytes) → List Bytes
line_list l [] = l ∷ []
line_list l (x ∷ xs) = (l ++ 13 ∷ []) ∷ line_list (header_line x) xs

abbrev HasBytes : Bytes → Type 0
HasBytes [] = false ≡ true
HasBytes (c ∷ cs) = Unit {0}

header_line-HasBytes : (x : Bytes × Bytes) → HasBytes (header_line x)
header_line-HasBytes ([], v) = _
header_line-HasBytes (c ∷ cs, v) = _

lines-line_list :
    (l : Bytes) (xs : List (Bytes × Bytes))
    → IsLine l
    → HasBytes l
    → All IsHeader xs
    → lines (l ++ header_text xs) ≡ line_list l xs
unfolding line_list
lines-line_list [] [] h b g = ground arith
lines-line_list (c ∷ cs) [] h b g = ap (λ t. lines (c ∷ t)) (append-nil cs) ∙ lines-last c cs h
lines-line_list l (x ∷ xs) h b (g, gs) =
    lines-crlf l (header_line x ++ header_text xs) h
    ∙ ap (◌∷◌ (l ++ 13 ∷ []))
        (lines-line_list (header_line x) xs (header_line-IsLine x g) (header_line-HasBytes x) gs)

strip_front-value : (v : Bytes) → StartsPlain v → strip_front (0x20 ∷ v) ≡ v
strip_front-value [] h = ground arith
strip_front-value (c ∷ cs) h = rw (strip_front, h) refl

-- A header line is stored.
step :
    (line : Bytes) (x : Bytes × Bytes) (rest : List Bytes) (headers : List (Bytes × Bytes))
    → IsHeader x
    → pop_cr line ≡ header_line x
    → parse_header_lines (line ∷ rest) headers
      ≡ parse_header_lines rest (store_headers (x ∷ []) headers)
unfolding parse_header_lines split_at insert
step line ([], v) rest headers (k, (l, h)) e =
    rw (parse_header_lines, e, strip_front-value v h) refl
step line (c ∷ cs, v) rest headers ((k, n), (l, h)) e =
    rw (parse_header_lines, e, split_at-append 0x3A (c ∷ cs) (0x20 ∷ v) n, strip_front-value v h)
      refl

parse_header_lines-line_list :
    (line : Bytes) (xs : List (Bytes × Bytes)) (x : Bytes × Bytes) (headers : List (Bytes × Bytes))
    → IsHeader x
    → All IsHeader xs
    → parse_header_lines (line_list (header_line x) xs) headers ≡ store_headers (x ∷ xs) headers
unfolding line_list parse_header_lines
parse_header_lines-line_list line [] x headers g h =
    step (header_line x) x [] headers g (pop_cr-line (header_line x) (header_line-IsLine x g))
parse_header_lines-line_list line (y ∷ ys) x headers g (h, hs) =
    step (header_line x ++ 13 ∷ []) x (line_list (header_line y) ys) headers g
      (pop_cr-crlf (header_line x))
    ∙ parse_header_lines-line_list line ys y (store_headers (x ∷ []) headers) h hs

-- The request as it is sent, without what follows it.
abbrev pub print_request : Bytes → Bytes → Bytes → List (Bytes × Bytes) → Bytes
print_request m p v xs = request_line m p v ++ header_text xs

abbrev pub IsWords : Bytes → Bytes → Bytes → Type 0
IsWords m p v = IsWord m × (IsWord p × IsWord v)

words-request_line : (m p v : Bytes) → IsWords m p v → words (request_line m p v) ≡ m ∷ p ∷ v ∷ []
words-request_line m p v (hm, (hp, hv)) =
    words-space m (p ++ 32 ∷ v) hm ∙ ap (◌∷◌ m) (words-space p v hp ∙ ap (◌∷◌ p) (words-last v hv))

parse_lines-words :
    (consumed : ℕ) (m p v line : Bytes) (rest : List Bytes)
    → words (pop_cr line) ≡ m ∷ p ∷ v ∷ []
    → parse_lines consumed (line ∷ rest)
      ≡ parsed consumed
          (record { method = m; path = p; version = v; headers = parse_header_lines rest [] })
parse_lines-words consumed m p v line rest e = rw (parse_lines, e) refl

-- The lines of a head, the first of which is the request line.
parse_lines-line_list :
    (consumed : ℕ) (m p v : Bytes) (xs : List (Bytes × Bytes))
    → IsWords m p v
    → IsLine (request_line m p v)
    → All IsHeader xs
    → parse_lines consumed (line_list (request_line m p v) xs)
      ≡ parsed consumed
          (record { method = m; path = p; version = v; headers = store_headers xs [] })
unfolding line_list parse_header_lines
parse_lines-line_list consumed m p v [] w l g =
    parse_lines-words consumed m p v (request_line m p v) []
      (ap words (pop_cr-line (request_line m p v) l) ∙ words-request_line m p v w)
parse_lines-line_list consumed m p v (x ∷ xs) w l (g, gs) =
    parse_lines-words consumed m p v (request_line m p v ++ 13 ∷ []) (line_list (header_line x) xs)
      (ap words (pop_cr-crlf (request_line m p v)) ∙ words-request_line m p v w)
    ∙ ap (λ hs. parsed consumed (record { method = m; path = p; version = v; headers = hs }))
        (parse_header_lines-line_list (request_line m p v) xs x [] g gs)

request_line-HasBytes : (m p v : Bytes) → IsWord m → HasBytes (request_line m p v)
request_line-HasBytes [] p v h = ground arith
request_line-HasBytes (c ∷ cs) p v h = _

parse_http_request-head :
    (bytes text : Bytes) (ls : List Bytes)
    → find_head bytes ≡ some text
    → lines text ≡ ls
    → parse_http_request bytes ≡ parse_lines (length text + 4) ls
unfolding parse_http_request
parse_http_request-head bytes text ls e g = rw (parse_http_request, e, g) refl

-- A request of three words and headers that can be sent, with the blank line behind it, is read
-- back, whatever bytes follow it: the words as they are, each value under its key in lower case, the
-- last one where a key occurs twice; and it counts the bytes up to the end of the blank line.
pub parse_http_request-print_request :
    (m p v : Bytes) (xs : List (Bytes × Bytes)) (rest : Bytes)
    → IsWords m p v
    → IsLine (request_line m p v)
    → All IsHeader xs
    → parse_http_request (print_request m p v xs ++ (head_end ++ rest))
      ≡ parsed
          (length (print_request m p v xs) + 4)
          (record { method = m; path = p; version = v; headers = store_headers xs [] })
parse_http_request-print_request m p v xs rest w l g =
    let line = request_line m p v in
    let found : find_head (print_request m p v xs ++ (head_end ++ rest))
        ≡ some (print_request m p v xs) =
      ap find_head (append_assoc line (header_text xs) (head_end ++ rest))
      ∙ find_head-line line (header_text xs ++ (head_end ++ rest)) (header_text xs) l
          (find_head-header_text xs rest g) in
    parse_http_request-head (print_request m p v xs ++ (head_end ++ rest)) (print_request m p v xs)
      (line_list line xs) found (lines-line_list line xs l (request_line-HasBytes m p v w.0) g)
    ∙ parse_lines-line_list (length (print_request m p v xs) + 4) m p v xs w l g
