-- ===== src/Http/Parser/Loop.antt =====
-- The loop over the header lines, on bytes that come in two parts.
use camera_player.Prelude.{
  map, ℕ, zero, suc, ◌≤◌, ◌<◌, Option, none, some, ◌≡◌, ◌⊎◌, refl, sym, ap, ◌∙◌, arith, inl, inr,
  List, [], ◌∷◌, ◌++◌, append_assoc, length, length-append, Bytes,
}
use camera_player.Prelude.Text.{insert, to_lower, is_space, skip, split_at, pop_cr}
use camera_player.Prelude.Lines.{FoundAt, split_at-FoundAt, split_at-append}
use camera_player.Http.Parser.{Headers, unfinished, malformed, ended, header_line, headers_loop}

-- What a header line does depends on the loop behind it only through its results.
header_line-next :
    (line rest : Bytes) (headers : List (Bytes × Bytes))
    (next next' : List (Bytes × Bytes) → Option Headers)
    → ((hs : List (Bytes × Bytes)) → next hs ≡ next' hs)
    → header_line line rest headers next ≡ header_line line rest headers next'
header_line-next [] rest headers next next' k = refl
header_line-next (c ∷ cs) rest headers next next' k = by_colon (split_at-FoundAt 0x3A (c ∷ cs))
  where
    by_colon :
        (split_at 0x3A (c ∷ cs) ≡ none) ⊎ FoundAt 0x3A (c ∷ cs)
        → header_line (c ∷ cs) rest headers next ≡ header_line (c ∷ cs) rest headers next'
    by_colon (inl e) = rw (header_line, e) refl
    by_colon (inr x) = rw (header_line, x.found) (k _)

by_line :
    (f g : ℕ) (view : Bytes) (headers : List (Bytes × Bytes))
    → ((rest : Bytes) (hs : List (Bytes × Bytes))
        → length rest < length view
        → headers_loop f rest hs ≡ headers_loop g rest hs)
    → (split_at 10 view ≡ none) ⊎ FoundAt 10 view
    → headers_loop (suc f) view headers ≡ headers_loop (suc g) view headers
unfolding headers_loop
by_line f g view headers k (inl e) = rw (headers_loop, e) refl
by_line f g view headers k (inr x) =
    let shorter : length x.rest < length view =
      omega (arith, ap (λ l. length l) x.parts, length-append x.front (10 ∷ x.rest)) in
    rw (headers_loop, x.found)
      (header_line-next (pop_cr x.front) x.rest headers (λ hs. headers_loop f x.rest hs)
        (λ hs. headers_loop g x.rest hs) (λ hs. k x.rest hs shorter))

-- The loop does not depend on the fuel, if it is enough.
headers_loop_fuel :
    (f g : ℕ) (view : Bytes) (headers : List (Bytes × Bytes))
    → length view ≤ f
    → length view ≤ g
    → headers_loop f view headers ≡ headers_loop g view headers
unfolding headers_loop split_at
headers_loop_fuel zero zero view headers a b = refl
headers_loop_fuel zero (suc g) [] headers a b = refl
headers_loop_fuel zero (suc g) (c ∷ cs) headers a b = absurd (omega arith)
headers_loop_fuel (suc f) zero [] headers a b = refl
headers_loop_fuel (suc f) zero (c ∷ cs) headers a b = absurd (omega arith)
headers_loop_fuel (suc f) (suc g) view headers a b =
    by_line f g view headers
      (λ rest hs l. headers_loop_fuel f g rest hs (omega arith) (omega arith))
      (split_at-FoundAt 10 view)

header_line_total :
    (line rest : Bytes) (headers : List (Bytes × Bytes))
    (next : List (Bytes × Bytes) → Option Headers)
    → ((hs : List (Bytes × Bytes)) → (r : Headers) × (next hs ≡ some r))
    → (r : Headers) × (header_line line rest headers next ≡ some r)
header_line_total [] rest headers next k = (ended rest headers, refl)
header_line_total (c ∷ cs) rest headers next k = by_colon (split_at-FoundAt 0x3A (c ∷ cs))
  where
    by_colon :
        (split_at 0x3A (c ∷ cs) ≡ none) ⊎ FoundAt 0x3A (c ∷ cs)
        → (r : Headers) × (header_line (c ∷ cs) rest headers next ≡ some r)
    by_colon (inl e) = (malformed rest headers, rw (header_line, e) refl)
    by_colon (inr x) =
        let (r, e) = k (insert (map to_lower x.front) (skip is_space x.rest) headers) in
        (r, rw (header_line, x.found) e)

total_by_line :
    (f : ℕ) (view : Bytes) (headers : List (Bytes × Bytes))
    → ((rest : Bytes) (hs : List (Bytes × Bytes))
        → length rest < length view
        → (r : Headers) × (headers_loop f rest hs ≡ some r))
    → (split_at 10 view ≡ none) ⊎ FoundAt 10 view
    → (r : Headers) × (headers_loop (suc f) view headers ≡ some r)
unfolding headers_loop
total_by_line f view headers k (inl e) = (unfinished view headers, rw (headers_loop, e) refl)
total_by_line f view headers k (inr x) =
    let shorter : length x.rest < length view =
      omega (arith, ap (λ l. length l) x.parts, length-append x.front (10 ∷ x.rest)) in
    let (r, e) =
      header_line_total (pop_cr x.front) x.rest headers (λ hs. headers_loop f x.rest hs)
        (λ hs. k x.rest hs shorter) in
    (r, rw (headers_loop, x.found) e)

-- The loop over the header lines ends, on fuel for the bytes of the input.
pub headers_loop_total :
    (f : ℕ) (view : Bytes) (headers : List (Bytes × Bytes))
    → length view ≤ f
    → (r : Headers) × (headers_loop f view headers ≡ some r)
unfolding headers_loop split_at
headers_loop_total zero [] headers l = (unfinished [] headers, refl)
headers_loop_total zero (c ∷ cs) headers l = absurd (omega arith)
headers_loop_total (suc f) view headers l =
    total_by_line f view headers (λ rest hs n. headers_loop_total f rest hs (omega arith))
      (split_at-FoundAt 10 view)

-- What is left over goes on with more bytes behind it.
unfoldable pub carry : Bytes → Option Headers → Option Headers
carry b none = none
carry b (some (unfinished view headers)) = headers_loop (length (view ++ b)) (view ++ b) headers
carry b (some (malformed view headers)) = some (malformed (view ++ b) headers)
carry b (some (ended view headers)) = some (ended (view ++ b) headers)

header_line-carry :
    (b line rest : Bytes) (headers : List (Bytes × Bytes))
    (next next' : List (Bytes × Bytes) → Option Headers)
    → ((hs : List (Bytes × Bytes)) → next hs ≡ carry b (next' hs))
    → header_line line (rest ++ b) headers next ≡ carry b (header_line line rest headers next')
unfolding carry
header_line-carry b [] rest headers next next' k = refl
header_line-carry b (c ∷ cs) rest headers next next' k = by_colon (split_at-FoundAt 0x3A (c ∷ cs))
  where
    by_colon :
        (split_at 0x3A (c ∷ cs) ≡ none) ⊎ FoundAt 0x3A (c ∷ cs)
        → header_line (c ∷ cs) (rest ++ b) headers next
          ≡ carry b (header_line (c ∷ cs) rest headers next')
    by_colon (inl e) = rw (header_line, e) refl
    by_colon (inr x) = rw (header_line, x.found) (k _)

carry_by_line :
    (b : Bytes) (f g : ℕ) (view : Bytes) (headers : List (Bytes × Bytes))
    → length view ≤ suc f
    → length (view ++ b) ≤ suc g
    → ((rest : Bytes) (hs : List (Bytes × Bytes))
        → length rest < length view
        → headers_loop g (rest ++ b) hs ≡ carry b (headers_loop f rest hs))
    → (split_at 10 view ≡ none) ⊎ FoundAt 10 view
    → headers_loop (suc g) (view ++ b) headers ≡ carry b (headers_loop (suc f) view headers)
unfolding headers_loop carry
carry_by_line b f g view headers l m k (inl e) =
    let same : headers_loop (suc f) view headers ≡ some (unfinished view headers) =
      rw (headers_loop, e) refl in
    headers_loop_fuel (suc g) (length (view ++ b)) (view ++ b) headers m (omega arith)
    ∙ ap (carry b) (sym same)
carry_by_line b f g view headers l m k (inr x) =
    let shorter : length x.rest < length view =
      omega (arith, ap (λ l. length l) x.parts, length-append x.front (10 ∷ x.rest)) in
    let more : view ++ b ≡ x.front ++ 10 ∷ (x.rest ++ b) =
      ap (λ v. v ++ b) x.parts ∙ append_assoc x.front (10 ∷ x.rest) b in
    let found : split_at 10 (view ++ b) ≡ some (x.front, x.rest ++ b) =
      ap (split_at 10) more ∙ split_at-append 10 x.front (x.rest ++ b) x.first in
    let left : headers_loop (suc g) (view ++ b) headers
        ≡ header_line (pop_cr x.front) (x.rest ++ b) headers
            (λ hs. headers_loop g (x.rest ++ b) hs) =
      rw (headers_loop, found) refl in
    let right : headers_loop (suc f) view headers
        ≡ header_line (pop_cr x.front) x.rest headers (λ hs. headers_loop f x.rest hs) =
      rw (headers_loop, x.found) refl in
    left
    ∙ header_line-carry b (pop_cr x.front) x.rest headers (λ hs. headers_loop g (x.rest ++ b) hs)
        (λ hs. headers_loop f x.rest hs) (λ hs. k x.rest hs shorter)
    ∙ ap (carry b) (sym right)

pub headers_loop-append :
    (b : Bytes) (f g : ℕ) (view : Bytes) (headers : List (Bytes × Bytes))
    → length view ≤ f
    → length (view ++ b) ≤ g
    → headers_loop g (view ++ b) headers ≡ carry b (headers_loop f view headers)
unfolding headers_loop carry split_at
headers_loop-append b zero g [] headers l m =
    headers_loop_fuel g (length b) b headers m (omega arith)
headers_loop-append b zero g (c ∷ cs) headers l m = absurd (omega arith)
headers_loop-append b (suc f) zero [] headers l m =
    headers_loop_fuel zero (length b) b headers m (omega arith)
headers_loop-append b (suc f) zero (c ∷ cs) headers l m = absurd (omega arith)
headers_loop-append b (suc f) (suc g) view headers l m =
    carry_by_line b f g view headers l m
      (λ rest hs n.
        headers_loop-append b f g rest hs (omega arith)
          (omega (arith, length-append rest b, length-append view b)))
      (split_at-FoundAt 10 view)
