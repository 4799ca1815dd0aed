-- ===== src/Prelude/Numbers.antt =====
-- Numbers in text: `std::stoul`, `std::stoi` and `std::to_string`. What throws is `none`.
use Prim.Native.Nat.{◌<◌, ℕ, zero, suc, ◌+◌, ◌-◌, ◌*◌, ◌/◌, ◌%◌, ◌^◌}
use mathlib.Core.Path.{◌∙◌, ◌≡◌, refl}
use mathlib.Core.Logic.{inl, inr}
use mathlib.Core.Bool.{Bool, true, false, ◌&&◌}
use mathlib.Core.Option.{Option, none, some}
use mathlib.Core.List.{List, [], ◌∷◌}
use native.Mathlib.Omega.{arith}
use camera_player.Prelude.Tests.{if_cases, Bool-cases, ◌==◌, ltb, leb, if◌then◌else◌}
use camera_player.Prelude.Lists.{All}
use camera_player.Prelude.Text.{is_space, skip}

-- The integers, of which an `int` is one.
pub data ℤ : Type 0 where
  pos negsuc : ℕ → ℤ

abbrev pub is_digit : ℕ → Bool
is_digit c = leb 48 c && leb c 57

abbrev pub starts_digit : List ℕ → Bool
starts_digit [] = false
starts_digit (c ∷ cs) = is_digit c

-- The number that the digits in front stand for, behind those that were read.
unfoldable pub read_digits : ℕ → List ℕ → ℕ
read_digits acc [] = acc
read_digits acc (c ∷ cs) =
    let rest = read_digits (acc * 10 + (c - 48)) cs in if is_digit c then rest else acc

-- The digits behind the blanks and the sign, and whether the sign is a minus.
abbrev pub unsign : List ℕ → Bool × List ℕ
unsign [] = (false, [])
unsign (c ∷ cs) = if c == 45 then (true, cs) else if c == 43 then (false, cs) else (false, c ∷ cs)

-- `std::stoul`: a number below 2 ^ 64, negated modulo that behind a minus.
abbrev pub unsigned_number : Bool → ℕ → Option ℕ
unsigned_number minus n =
    if leb (2 ^ 64) n then none else if minus then some ((2 ^ 64 - n) % 2 ^ 64) else some n

unfoldable pub stoul : List ℕ → Option ℕ
unfolding read_digits
stoul s =
    let (minus, digits) = unsign (skip is_space s) in
    if starts_digit digits then unsigned_number minus (read_digits 0 digits) else none

-- `std::stoi`: a number from -(2 ^ 31) to 2 ^ 31 - 1.
abbrev pub negated : ℕ → ℤ
negated zero = pos 0
negated (suc n) = negsuc n

abbrev pub int_number : Bool → ℕ → Option ℤ
int_number true n = if ltb (2 ^ 31) n then none else some (negated n)
int_number false n = if leb (2 ^ 31) n then none else some (pos n)

unfoldable pub stoi : List ℕ → Option ℤ
unfolding read_digits
stoi s =
    let (minus, digits) = unsign (skip is_space s) in
    if starts_digit digits then int_number minus (read_digits 0 digits) else none

-- `static_cast<uint16_t>` of an `int`.
abbrev pub to_uint16 : ℤ → ℕ
to_uint16 (pos n) = n % 2 ^ 16
to_uint16 (negsuc n) = 2 ^ 16 - 1 - n % 2 ^ 16

-- The decimal digits in front of others. It takes fuel.
unfoldable pub digits_onto : ℕ → ℕ → List ℕ → List ℕ
digits_onto zero n rest = rest
digits_onto (suc fuel) n rest =
    let more = digits_onto fuel (n / 10) ((48 + n % 10) ∷ rest) in
    if ltb n 10 then (48 + n) ∷ rest else more

-- `std::to_string`. A number has no more digits than it has ones, and 0 has one.
unfoldable pub to_decimal : ℕ → List ℕ
unfolding digits_onto
to_decimal n = digits_onto (suc n) n []

abbrev pub int_to_decimal : ℤ → List ℕ
int_to_decimal (pos n) = to_decimal n
int_to_decimal (negsuc n) = 45 ∷ to_decimal (suc n)

-- Where no digit follows, the number is there.
read_digits-stop :
    (acc : ℕ) (rest : List ℕ) → starts_digit rest ≡ false → read_digits acc rest ≡ acc
unfolding read_digits
read_digits-stop acc [] h = refl
read_digits-stop acc (c ∷ cs) h = ground arith

next_digit :
    (n : ℕ) (rest : List ℕ) → read_digits (n / 10) ((48 + n % 10) ∷ rest) ≡ read_digits n rest
unfolding read_digits
next_digit n rest =
    let d : is_digit (48 + n % 10) ≡ true = ground arith in
    let v : n / 10 * 10 + (48 + n % 10 - 48) ≡ n = omega arith in rw (d, v) refl

one_digit :
    (n : ℕ) (rest : List ℕ) → ltb n 10 ≡ true → read_digits 0 ((48 + n) ∷ rest) ≡ read_digits n rest
unfolding read_digits
one_digit n rest e =
    let d : is_digit (48 + n) ≡ true = ground arith in
    let v : 0 * 10 + (48 + n - 48) ≡ n = omega arith in rw (d, v) refl

-- The digits of a number, in front of what is no digit, are read back behind those before them.
read_digits-digits_onto :
    (fuel n : ℕ) (rest : List ℕ)
    → n < fuel
    → read_digits 0 (digits_onto fuel n rest) ≡ read_digits n rest
unfolding read_digits digits_onto
read_digits-digits_onto zero n rest h = elim h [ ]
read_digits-digits_onto (suc fuel) n rest h = elim (Bool-cases (ltb n 10)) [
  | inl e ↦ rw e (one_digit n rest e)
  | inr e ↦ rw e (
      read_digits-digits_onto fuel (n / 10) ((48 + n % 10) ∷ rest) (ground arith)
      ∙ next_digit n rest)
]

-- A number's digits, with no digit behind them, are read back as the number.
pub read_digits-to_decimal :
    (n : ℕ) (rest : List ℕ)
    → starts_digit rest ≡ false
    → read_digits 0 (digits_onto (suc n) n rest) ≡ n
read_digits-to_decimal n rest h =
    read_digits-digits_onto (suc n) n rest (omega arith) ∙ read_digits-stop n rest h

-- A number's text has digits only, and at least one.
abbrev pub IsDigits : List ℕ → Type 0
IsDigits s = All (λ c. is_digit c ≡ true) s

digits_onto-IsDigits :
    (fuel n : ℕ) (rest : List ℕ) → IsDigits rest → IsDigits (digits_onto fuel n rest)
unfolding digits_onto
digits_onto-IsDigits zero n rest h = h
digits_onto-IsDigits (suc fuel) n rest h =
    if_cases IsDigits (ltb n 10) (λ e. (ground arith, h))
      (λ e. digits_onto-IsDigits fuel (n / 10) ((48 + n % 10) ∷ rest) (ground arith, h))

pub to_decimal-IsDigits : (n : ℕ) → IsDigits (to_decimal n)
unfolding to_decimal
to_decimal-IsDigits n = digits_onto-IsDigits (suc n) n [] _

digits_onto-starts_digit :
    (fuel n : ℕ) (rest : List ℕ)
    → starts_digit rest ≡ true
    → starts_digit (digits_onto fuel n rest) ≡ true
unfolding digits_onto
digits_onto-starts_digit zero n rest h = h
digits_onto-starts_digit (suc fuel) n rest h =
    if_cases (λ s. starts_digit s ≡ true) (ltb n 10) (λ e. ground arith)
      (λ e. digits_onto-starts_digit fuel (n / 10) ((48 + n % 10) ∷ rest) (ground arith))

to_decimal-starts_digit : (n : ℕ) → starts_digit (to_decimal n) ≡ true
unfolding to_decimal digits_onto
to_decimal-starts_digit n =
    if_cases (λ s. starts_digit s ≡ true) (ltb n 10) (λ e. ground arith)
      (λ e. digits_onto-starts_digit n (n / 10) ((48 + n % 10) ∷ []) (ground arith))

-- `std::stoi` of text that begins with a digit.
unsign-digit :
    (c : ℕ) (cs : List ℕ) → is_digit c ≡ true → unsign (skip is_space (c ∷ cs)) ≡ (false, c ∷ cs)
unsign-digit c cs h = ground arith

stoi-unsign :
    (s t : List ℕ) (n : ℕ)
    → unsign (skip is_space s) ≡ (false, t)
    → starts_digit t ≡ true
    → read_digits 0 t ≡ n
    → stoi s ≡ int_number false n
unfolding stoi
stoi-unsign s t n u d e = rw (stoi, u, d, e) refl

stoi-digits :
    (s : List ℕ) (n : ℕ)
    → starts_digit s ≡ true
    → read_digits 0 s ≡ n
    → n < 2 ^ 31
    → stoi s ≡ some (pos n)
stoi-digits [] n h e l = ground arith
stoi-digits (c ∷ cs) n h e l =
    stoi-unsign (c ∷ cs) (c ∷ cs) n (unsign-digit c cs h) h e ∙ ground arith

-- A number below 2 ^ 31 that `std::to_string` wrote is read back by `std::stoi`.
pub stoi-to_decimal : (n : ℕ) → n < 2 ^ 31 → stoi (to_decimal n) ≡ some (pos n)
unfolding to_decimal
stoi-to_decimal n l =
    stoi-digits (to_decimal n) n (to_decimal-starts_digit n) (read_digits-to_decimal n [] refl) l
