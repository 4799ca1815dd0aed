-- ===== src/Ws/Server/Live.antt =====
-- The sessions that have not called `RemoveSession`, looked up by their ids and counted.
use camera_player.Prelude.{
  ℕ, zero, suc, ◌+◌, Bool, true, false, not, ◌&&◌, ◌||◌, if◌then◌else◌, Bool-cases, inl, inr,
  Option, none, some, ◌≡◌, refl, ap, ◌∙◌, arith, List, [], ◌∷◌, ◌++◌, length, Bytes,
}
use camera_player.Prelude.Text.{same, same-eq, same_refl}
use camera_player.Ws.Session.State.{Session}
use camera_player.Ws.Server.{Conn, update_at, conn_at}
use camera_player.Ws.Server.Machine.{taken}
use camera_player.Ws.Server.Table.{same_flip, one_if_found}

-- The place of the session with an id that has not called `RemoveSession`; `n` is the first place.
abbrev pub live : Bytes → ℕ → List Conn → Option ℕ
live id n [] = none
live id n (c ∷ cs) = if same id c.id && not c.told then some n else live id (suc n) cs

abbrev pub count_live : List Conn → ℕ
count_live [] = 0
count_live (c ∷ cs) = (if c.told then 0 else 1) + count_live cs

-- The ids are different.
abbrev pub Unique : List Conn → Type 0
Unique [] = Unit {0}
Unique (c ∷ cs) = (taken c.id cs ≡ false) × Unique cs

-- A session that has called `RemoveSession` now, or as before.
abbrev pub ran : Session → Bool → Conn → Conn
ran t tells c = record c { session = t; told = c.told || tells }

pub live-taken : (id : Bytes) (n : ℕ) (cs : List Conn) → taken id cs ≡ false → live id n cs ≡ none
live-taken id n [] h = refl
live-taken id n (c ∷ cs) h = ground (arith, live-taken id (suc n) cs)

taken-append :
    (id : Bytes) (cs : List Conn) (c : Conn)
    → taken id (cs ++ c ∷ []) ≡ (taken id cs || same id c.id)
taken-append id [] c = ground arith
taken-append id (d ∷ cs) c = ground (arith, taken-append id cs c)

taken-update_at :
    (id : Bytes) (i : ℕ) (t : Session) (tells : Bool) (cs : List Conn)
    → taken id (update_at i (ran t tells) cs) ≡ taken id cs
taken-update_at id i t tells [] = refl
taken-update_at id zero t tells (c ∷ cs) = refl
taken-update_at id (suc i) t tells (c ∷ cs) =
    ap (λ b. same id c.id || b) (taken-update_at id i t tells cs)

pub append-Unique :
    (cs : List Conn) (c : Conn) → taken c.id cs ≡ false → Unique cs → Unique (cs ++ c ∷ [])
append-Unique [] c h u = (refl, tt)
append-Unique (d ∷ cs) c h u =
    ground (arith, append-Unique cs c, taken-append d.id cs c, same_flip c.id d.id)

pub update_at-Unique :
    (i : ℕ) (t : Session) (tells : Bool) (cs : List Conn)
    → Unique cs
    → Unique (update_at i (ran t tells) cs)
update_at-Unique i t tells [] u = u
update_at-Unique zero t tells (c ∷ cs) u = u
update_at-Unique (suc i) t tells (c ∷ cs) (h, u) =
    (taken-update_at c.id i t tells cs ∙ h, update_at-Unique i t tells cs u)

-- A new session is found at its place.
pub live-append :
    (id : Bytes) (n : ℕ) (cs : List Conn) (c : Conn)
    → taken c.id cs ≡ false
    → c.told ≡ false
    → live id n (cs ++ c ∷ []) ≡ (if same id c.id then some (n + length cs) else live id n cs)
live-append id n [] c h new = ground arith
live-append id n (d ∷ cs) c h new = elim (Bool-cases (same id c.id)) [
  | inl e ↦
      let apart : same id d.id ≡ same c.id d.id = ap (λ l. same l d.id) (same-eq id c.id e) in
      ground (arith, live-append id (suc n) cs c)
  | inr e ↦ ground (arith, live-append id (suc n) cs c)
]

pub count_live-append :
    (cs : List Conn) (c : Conn) → c.told ≡ false → count_live (cs ++ c ∷ []) ≡ suc (count_live cs)
count_live-append [] c new = ground arith
count_live-append (d ∷ cs) c new = ground (arith, count_live-append cs c new)

-- A session that did not call it is found as before.
pub live-update_at_same :
    (id : Bytes) (n i : ℕ) (t : Session) (cs : List Conn)
    → live id n (update_at i (ran t false) cs) ≡ live id n cs
live-update_at_same id n i t [] = refl
live-update_at_same id n zero t (c ∷ cs) = ground arith
live-update_at_same id n (suc i) t (c ∷ cs) = ground (arith, live-update_at_same id (suc n) i t cs)

only : (d c : Conn) → ◌≡◌ {A = Option Conn} (some d) (some c) → c ≡ d
only d c e = cc

-- A session at some place has not an id that none has.
pub same-conn_at :
    (id : Bytes) (i : ℕ) (c : Conn) (cs : List Conn)
    → conn_at i cs ≡ some c
    → taken id cs ≡ false
    → same id c.id ≡ false
same-conn_at id i c [] e h = cc
same-conn_at id zero c (d ∷ cs) e h = ap (λ (x : Conn). same id x.id) (only d c e) ∙ (ground arith)
same-conn_at id (suc i) c (d ∷ cs) e h = same-conn_at id i c cs e (ground arith)

-- One that did is not found any more.
pub live-update_at :
    (id : Bytes) (n i : ℕ) (t : Session) (c : Conn) (cs : List Conn)
    → conn_at i cs ≡ some c
    → Unique cs
    → live id n (update_at i (ran t true) cs) ≡ (if same id c.id then none else live id n cs)
live-update_at id n i t c [] e u = cc
live-update_at id n zero t c (d ∷ cs) e u =
    let there : same id c.id ≡ same id d.id = ap (λ (x : Conn). same id x.id) (only d c e) in
    elim (Bool-cases (same id d.id)) [
      | inl f ↦
          let alone : taken id cs ≡ false = ap (λ l. taken l cs) (same-eq id d.id f) ∙ u.0 in
          ground (arith, live-taken id (suc n) cs)
      | inr f ↦ ground arith
    ]
live-update_at id n (suc i) t c (d ∷ cs) e (h, u) =
    let ih = live-update_at id (suc n) i t c cs e u in
    elim (Bool-cases (same id d.id)) [
      | inl f ↦
          let apart : same id c.id ≡ false =
            ap (λ l. same l c.id) (same-eq id d.id f) ∙ same-conn_at d.id i c cs e h in
          ground arith
      | inr f ↦ ground arith
    ]

pub count_live-update_at_same :
    (i : ℕ) (t : Session) (cs : List Conn)
    → count_live (update_at i (ran t false) cs) ≡ count_live cs
count_live-update_at_same i t [] = refl
count_live-update_at_same zero t (c ∷ cs) = ground arith
count_live-update_at_same (suc i) t (c ∷ cs) = ground (arith, count_live-update_at_same i t cs)

pub count_live-update_at :
    (n i : ℕ) (t : Session) (c : Conn) (cs : List Conn)
    → conn_at i cs ≡ some c
    → Unique cs
    → count_live cs ≡ one_if_found (live c.id n cs) + count_live (update_at i (ran t true) cs)
count_live-update_at n i t c [] e u = cc
count_live-update_at n zero t c (d ∷ cs) e (h, u) =
    let found = ap (λ (x : Conn). live x.id n (d ∷ cs)) (only d c e) in
    rw found (ground (arith, same_refl d.id, live-taken d.id (suc n) cs h))
count_live-update_at n (suc i) t c (d ∷ cs) e (h, u) =
    let apart : same c.id d.id ≡ false = same_flip d.id c.id (same-conn_at d.id i c cs e h) in
    ground (arith, count_live-update_at (suc n) i t c cs e u)
