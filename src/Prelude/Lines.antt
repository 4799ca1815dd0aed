-- ===== src/Prelude/Lines.antt =====
-- Lines and words that are read back from the text that they were put into.
use Prim.Native.Nat.{ℕ}
use mathlib.Core.Path.{◌≡◌, refl, ap}
use mathlib.Core.Logic.{◌⊎◌, inl, inr}
use mathlib.Core.Bool.{Bool, true, false, not, ◌&&◌}
use mathlib.Core.Option.{none, some}
use mathlib.Core.List.{List, [], ◌∷◌, ◌++◌}
use native.Mathlib.Omega.{arith}
use camera_player.Prelude.Tests.{◌==◌, ==_iff, Bool-cases}
use camera_player.Prelude.Lists.{All}
use camera_player.Prelude.Text.{is_space, lines, words, split_at, pop_cr}

-- A byte that does not end a line.
abbrev pub is_plain : ℕ → Bool
is_plain c = not (c == 10) && not (c == 13)

abbrev pub IsLine : List ℕ → Type 0
IsLine l = All (λ c. is_plain c ≡ true) l

-- A word: it has bytes, none of which is a space.
abbrev pub IsWord : List ℕ → Type 0
IsWord [] = false ≡ true
IsWord (c ∷ cs) = All (λ c. is_space c ≡ false) (c ∷ cs)

abbrev pub Lacks : ℕ → List ℕ → Type 0
Lacks d l = All (λ c. c == d ≡ false) l

pub lines-crlf :
    (l rest : List ℕ) → IsLine l → lines (l ++ 13 ∷ 10 ∷ rest) ≡ (l ++ 13 ∷ []) ∷ lines rest
unfolding lines
lines-crlf [] rest h = refl
lines-crlf (c ∷ cs) rest h = ground (arith, lines-crlf cs rest h.1)

pub lines-last : (c : ℕ) (cs : List ℕ) → IsLine (c ∷ cs) → lines (c ∷ cs) ≡ (c ∷ cs) ∷ []
unfolding lines
lines-last c [] h = ground arith
lines-last c (d ∷ ds) h = ground (arith, lines-last d ds h.1)

pub pop_cr-crlf : (l : List ℕ) → pop_cr (l ++ 13 ∷ []) ≡ l
unfolding pop_cr
pop_cr-crlf [] = refl
pop_cr-crlf (c ∷ []) = refl
pop_cr-crlf (c ∷ d ∷ ds) = ap (◌∷◌ c) (pop_cr-crlf (d ∷ ds))

pub pop_cr-line : (l : List ℕ) → IsLine l → pop_cr l ≡ l
unfolding pop_cr
pop_cr-line [] h = refl
pop_cr-line (c ∷ []) h = ground arith
pop_cr-line (c ∷ d ∷ ds) h = ap (◌∷◌ c) (pop_cr-line (d ∷ ds) h.1)

pub words-last : (w : List ℕ) → IsWord w → words w ≡ w ∷ []
unfolding words
words-last [] h = ground arith
words-last (c ∷ []) h = ground arith
words-last (c ∷ d ∷ ds) h = ground (arith, words-last (d ∷ ds) h.1)

pub words-space : (w rest : List ℕ) → IsWord w → words (w ++ 32 ∷ rest) ≡ w ∷ words rest
unfolding words
words-space [] rest h = ground arith
words-space (c ∷ []) rest h = ground arith
words-space (c ∷ d ∷ ds) rest h = ground (arith, words-space (d ∷ ds) rest h.1)

pub split_at-append : (d : ℕ) (a b : List ℕ) → Lacks d a → split_at d (a ++ d ∷ b) ≡ some (a, b)
unfolding split_at
split_at-append d [] b h = ground arith
split_at-append d (c ∷ cs) b (e, h) = rw (e, split_at-append d cs b h) refl

-- What `find` of a byte finds: the first place of the byte.
pub record FoundAt (d : ℕ) (a : List ℕ) : Type 0 where
  pub front : List ℕ
  pub rest : List ℕ
  pub found : split_at d a ≡ some (front, rest)
  pub parts : a ≡ front ++ d ∷ rest
  pub first : Lacks d front

FoundAt-cons :
    (d c : ℕ) (cs : List ℕ)
    → c == d ≡ false
    → (split_at d cs ≡ none) ⊎ FoundAt d cs
    → (split_at d (c ∷ cs) ≡ none) ⊎ FoundAt d (c ∷ cs)
unfolding split_at
FoundAt-cons d c cs e (inl f) = inl (rw (e, f) refl)
FoundAt-cons d c cs e (inr f) = inr (record {
  front = c ∷ f.front;
  rest = f.rest;
  found = rw (e, f.found) refl;
  parts = ap (◌∷◌ c) f.parts;
  first = (e, f.first);
})

pub split_at-FoundAt : (d : ℕ) (a : List ℕ) → (split_at d a ≡ none) ⊎ FoundAt d a
unfolding split_at
split_at-FoundAt d [] = inl refl
split_at-FoundAt d (c ∷ cs) = elim (Bool-cases (c == d)) [
  | inl e ↦ inr (record {
    front = [];
    rest = cs;
    found = rw e refl;
    parts = ground (arith, ==_iff c d);
    first = _;
  })
  | inr e ↦ FoundAt-cons d c cs e (split_at-FoundAt d cs)
]
