-- ===== src/Prelude/Text.antt =====
-- Text as bytes: what the programs take from `std::string`, `std::map`, the string streams and
-- <cctype>.
use Prim.Native.Nat.{ℕ, ◌+◌, ◌-◌}
use mathlib.Core.Path.{◌≡◌, refl, sym, ap, ◌∙◌}
use mathlib.Core.Logic.{inl, inr}
use mathlib.Core.Bool.{Bool, true, false, ◌&&◌, ◌||◌}
use mathlib.Core.Option.{Option, none, some}
use mathlib.Core.List.{List, [], ◌∷◌, ◌++◌}
use native.Mathlib.Omega.{arith}
use camera_player.Prelude.Tests.{ltb, leb, ◌==◌, if◌then◌else◌, Bool-cases}
use camera_player.Prelude.Lists.{length, take, drop}

-- `==` on strings.
abbrev pub same : List ℕ → List ℕ → Bool
same [] [] = true
same [] (y ∷ ys) = false
same (x ∷ xs) [] = false
same (x ∷ xs) (y ∷ ys) = x == y && same xs ys

pub same-eq : (xs ys : List ℕ) → same xs ys ≡ true → xs ≡ ys
same-eq [] [] h = refl
same-eq [] (y ∷ ys) h = cc
same-eq (x ∷ xs) [] h = cc
same-eq (x ∷ xs) (y ∷ ys) h = ground (arith, same-eq xs ys)

pub same_refl : (xs : List ℕ) → same xs xs ≡ true
same_refl [] = refl
same_refl (x ∷ xs) = ground (arith, same_refl xs)

-- The order of `std::map`'s keys.
abbrev pub before : List ℕ → List ℕ → Bool
before [] [] = false
before [] (y ∷ ys) = true
before (x ∷ xs) [] = false
before (x ∷ xs) (y ∷ ys) = ltb x y || (x == y && before xs ys)

-- A map from strings, in the order of its keys.
module _ {ℓ} {V : Type ℓ} where
  unfoldable pub lookup : List ℕ → List (List ℕ × V) → Option V
  lookup k [] = none
  lookup k ((j, w) ∷ m) = if same k j then some w else lookup k m

  -- `m[k] = v`.
  unfoldable pub insert : List ℕ → V → List (List ℕ × V) → List (List ℕ × V)
  insert k v [] = (k, v) ∷ []
  insert k v ((j, w) ∷ m) =
      if same k j
      then (k, v) ∷ m
      else if before k j
      then (k, v) ∷ (j, w) ∷ m
      else (j, w) ∷ insert k v m

  -- `m.erase(k)`.
  unfoldable pub erase : List ℕ → List (List ℕ × V) → List (List ℕ × V)
  erase k [] = []
  erase k ((j, w) ∷ m) = if same k j then m else (j, w) ∷ erase k m

  pub lookup-insert_self :
      (k : List ℕ) (v : V) (m : List (List ℕ × V)) → lookup k (insert k v m) ≡ some v
  unfolding lookup insert
  lookup-insert_self k v [] = ground (arith, same_refl k)
  lookup-insert_self k v ((j, w) ∷ m) = ground (arith, same_refl k, lookup-insert_self k v m)

  pub lookup-insert_other :
      (k j : List ℕ) (v : V) (m : List (List ℕ × V))
      → same j k ≡ false
      → lookup j (insert k v m) ≡ lookup j m
  unfolding lookup insert
  lookup-insert_other k j v [] h = ground arith
  lookup-insert_other k j v ((i, w) ∷ m) h = elim (Bool-cases (same k i)) [
    | inl e ↦ let f : same j i ≡ false = ap (same j) (sym (same-eq k i e)) ∙ h in ground arith
    | inr e ↦ ground (arith, lookup-insert_other k j v m h)
  ]

-- `std::isspace`, `std::tolower` and `::toupper` in the C locale.
abbrev pub is_space : ℕ → Bool
is_space c = c == 32 || (leb 9 c && leb c 13)

abbrev pub to_lower : ℕ → ℕ
to_lower c = if leb 65 c && leb c 90 then c + 32 else c

abbrev pub to_upper : ℕ → ℕ
to_upper c = if leb 97 c && leb c 122 then c - 32 else c

-- A byte before the first of some strings.
abbrev pub prepend : ℕ → List (List ℕ) → List (List ℕ)
prepend c [] = (c ∷ []) ∷ []
prepend c (l ∷ ls) = (c ∷ l) ∷ ls

-- What `std::getline` yields until it fails.
unfoldable pub lines : List ℕ → List (List ℕ)
lines [] = []
lines (c ∷ cs) = let rest = lines cs in if c == 10 then [] ∷ rest else prepend c rest

abbrev pub ends_word : List ℕ → Bool
ends_word [] = true
ends_word (c ∷ cs) = is_space c

-- What `>>` on a stream yields until it fails.
unfoldable pub words : List ℕ → List (List ℕ)
words [] = []
words (c ∷ cs) =
    let rest = words cs in
    if is_space c then rest else if ends_word cs then (c ∷ []) ∷ rest else prepend c rest

-- `find` of a byte: the strings before and behind the first one.
unfoldable pub split_at : ℕ → List ℕ → Option (List ℕ × List ℕ)
split_at d [] = none
split_at d (c ∷ cs) =
    if c == d
    then some ([], cs)
    else elim (split_at d cs) [ none ↦ none | some (a, b) ↦ some (c ∷ a, b) ]

-- `if (!line.empty() && line.back() == '\r') line.pop_back();`
unfoldable pub pop_cr : List ℕ → List ℕ
pop_cr [] = []
pop_cr (c ∷ []) = if c == 13 then [] else c ∷ []
pop_cr (c ∷ d ∷ ds) = c ∷ pop_cr (d ∷ ds)

abbrev pub starts_with : List ℕ → List ℕ → Bool
starts_with [] s = true
starts_with (p ∷ ps) [] = false
starts_with (p ∷ ps) (c ∷ cs) = p == c && starts_with ps cs

-- `find` of a string: what stands behind the first place where it occurs.
unfoldable pub behind : List ℕ → List ℕ → Option (List ℕ)
behind p [] = if starts_with p [] then some [] else none
behind p (c ∷ cs) = if starts_with p (c ∷ cs) then some (drop (length p) (c ∷ cs)) else behind p cs

-- Whether a string occurs, `find(p) != npos`.
abbrev pub contains : List ℕ → List ℕ → Bool
contains p s = elim (behind p s) [ none ↦ false | some rest ↦ true ]

-- What is left behind the bytes at the front that pass a test.
abbrev pub skip : (ℕ → Bool) → List ℕ → List ℕ
skip test [] = []
skip test (c ∷ cs) = if test c then skip test cs else c ∷ cs

-- The string without the bytes at its end that pass a test.
abbrev pub add_kept : (ℕ → Bool) → ℕ → List ℕ → List ℕ
add_kept test c [] = if test c then [] else c ∷ []
add_kept test c (d ∷ ds) = c ∷ d ∷ ds

abbrev pub skip_end : (ℕ → Bool) → List ℕ → List ℕ
skip_end test [] = []
skip_end test (c ∷ cs) = add_kept test c (skip_end test cs)

-- The parts between the places of a byte.
unfoldable pub split_all : ℕ → List ℕ → List (List ℕ)
split_all d [] = [] ∷ []
split_all d (c ∷ cs) = let rest = split_all d cs in if c == d then [] ∷ rest else prepend c rest

-- `empty()`.
abbrev pub is_empty_text : List ℕ → Bool
is_empty_text [] = true
is_empty_text (c ∷ cs) = false

-- The value of a key, or the empty string.
abbrev pub lookup_or_empty : List ℕ → List (List ℕ × List ℕ) → List ℕ
lookup_or_empty k m = elim (lookup k m) [ none ↦ [] | some v ↦ v ]

-- Whether a string is in a list.
abbrev pub member : List ℕ → List (List ℕ) → Bool
member k [] = false
member k (x ∷ xs) = same k x || member k xs

-- What `c_str()` shows to `%s`: the bytes in front of the first zero.
abbrev pub c_string : List ℕ → List ℕ
c_string [] = []
c_string (c ∷ cs) = if c == 0 then [] else c ∷ c_string cs

-- `snprintf` into an empty buffer of some size, a zero byte included: what stands in front of it.
abbrev pub print_into : ℕ → List ℕ → List ℕ
print_into size text = take (size - 1) text

-- The text that a format of `printf` makes: `%s`, `%u` and `%d` take an argument each, given as its
-- text; arguments that are left are not used.
unfoldable pub print_format : List ℕ → List (List ℕ) → List ℕ
print_format [] args = []
print_format (c ∷ []) args = c ∷ []
print_format (c ∷ d ∷ format) [] = c ∷ print_format (d ∷ format) []
print_format (c ∷ d ∷ format) (a ∷ args) =
    let filled = c_string a ++ print_format format args in
    let plain = c ∷ print_format (d ∷ format) (a ∷ args) in if c == 37 then filled else plain

-- `snprintf(buf + strlen(buf), size - strlen(buf), …)` on a buffer of a size: the text in it then.
abbrev pub print_behind : ℕ → List ℕ → List ℕ → List (List ℕ) → List ℕ
print_behind size buf format args = buf ++ take (size - length buf - 1) (print_format format args)
