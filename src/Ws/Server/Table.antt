-- ===== src/Ws/Server/Table.antt =====
-- The table of sessions beside the sessions that have not called `RemoveSession`.
use camera_player.Prelude.{
  ℕ, suc, ◌+◌, true, false, if◌then◌else◌, Bool-cases, inl, inr, Option, none, some, ◌≡◌, refl, ap,
  ◌∙◌, arith, List, [], ◌∷◌, length, Bytes,
}
use camera_player.Prelude.Text.{
  same, same-eq, same_refl, lookup, insert, erase, lookup-insert_self, lookup-insert_other,
}

-- The keys of a table are different.
abbrev pub NodupKeys : List (Bytes × ℕ) → Type 0
NodupKeys [] = Unit {0}
NodupKeys ((k, i) ∷ m) = (lookup k m ≡ none) × NodupKeys m

pub lookup-insert :
    (k j : Bytes) (i : ℕ) (m : List (Bytes × ℕ))
    → lookup j (insert k i m) ≡ (if same j k then some i else lookup j m)
lookup-insert k j i m = elim (Bool-cases (same j k)) [
  | inl e ↦
      let f : j ≡ k = same-eq j k e in
      rw e (ap (λ l. lookup l (insert k i m)) f ∙ lookup-insert_self k i m)
  | inr e ↦ rw e (lookup-insert_other k j i m e)
]

pub lookup-erase :
    (k j : Bytes) (m : List (Bytes × ℕ))
    → NodupKeys m
    → lookup j (erase k m) ≡ (if same j k then none else lookup j m)
unfolding lookup erase
lookup-erase k j [] h = ground arith
lookup-erase k j ((a, i) ∷ m) h = elim (Bool-cases (same k a)) [
  | inl e ↦
      let alike : same j k ≡ same j a = ap (same j) (same-eq k a e) in
      elim (Bool-cases (same j a)) [
        | inl f ↦
            let gone : lookup j m ≡ none = ap (λ l. lookup l m) (same-eq j a f) ∙ h.0 in
            ground arith
        | inr f ↦ ground arith
      ]
  | inr e ↦ elim (Bool-cases (same j k)) [
    | inl f ↦
        let apart : same j a ≡ false = ap (λ l. same l a) (same-eq j k f) ∙ e in
        ground (arith, lookup-erase k j m h.1)
    | inr f ↦ ground (arith, lookup-erase k j m h.1)
  ]
]

pub same_flip : (a b : Bytes) → same a b ≡ false → same b a ≡ false
same_flip a b h = elim (Bool-cases (same b a)) [
  | inl e ↦ let f : same a b ≡ true = ap (same a) (same-eq b a e) ∙ same_refl a in cc
  | inr e ↦ e
]

pub insert-NodupKeys :
    (k : Bytes) (i : ℕ) (m : List (Bytes × ℕ))
    → lookup k m ≡ none
    → NodupKeys m
    → NodupKeys (insert k i m)
unfolding lookup insert
insert-NodupKeys k i [] f h = (refl, tt)
insert-NodupKeys k i ((a, j) ∷ m) f h = elim (Bool-cases (same k a)) [
  | inl e ↦ ground arith
  | inr e ↦
      let apart : same a k ≡ false = same_flip k a e in
      ground (arith, insert-NodupKeys k i m, lookup-insert k a i m)
]

pub erase-NodupKeys : (k : Bytes) (m : List (Bytes × ℕ)) → NodupKeys m → NodupKeys (erase k m)
unfolding lookup erase
erase-NodupKeys k [] h = h
erase-NodupKeys k ((a, i) ∷ m) h = ground (arith, erase-NodupKeys k m h.1, lookup-erase k a m h.1)

pub length-insert :
    (k : Bytes) (i : ℕ) (m : List (Bytes × ℕ))
    → lookup k m ≡ none
    → length (insert k i m) ≡ suc (length m)
unfolding lookup insert
length-insert k i [] f = refl
length-insert k i ((a, j) ∷ m) f = ground (arith, length-insert k i m)

abbrev pub one_if_found : Option ℕ → ℕ
one_if_found none = 0
one_if_found (some i) = 1

-- What is erased was there, or nothing is.
pub length-erase :
    (k : Bytes) (m : List (Bytes × ℕ)) → length m ≡ one_if_found (lookup k m) + length (erase k m)
unfolding lookup erase
length-erase k [] = omega arith
length-erase k ((a, i) ∷ m) = ground (arith, length-erase k m)
