-- ===== src/Ws/Server/Broadcast.antt =====
-- `BroadcastText` and `BroadcastBinary`, seen from each session.
use mathlib.Core.Option
use camera_player.Prelude.{
  ℕ, zero, suc, ◌+◌, ◌≤◌, ◌==◌, ==_iff, Bool, true, false, not, ◌&&◌, if◌then◌else◌, Bool-cases,
  inl, inr, Option, none, some, ◌≡◌, refl, sym, ap, ◌∙◌, arith, List, [], ◌∷◌, Bytes,
}
use camera_player.Prelude.Text.{same, same-eq, same_refl, lookup}
use camera_player.Ws.Types.{OpCode}
use camera_player.Ws.Session.State.{Session, is_active, send_frame}
use camera_player.Ws.Server.{
  Conn, Server, update_at, conn_at, with_session, for_each, send_if_open, broadcast,
}
use camera_player.Ws.Server.Table.{NodupKeys, same_flip}
use camera_player.Ws.Server.Live.{live, Unique, live-taken, same-conn_at}
use camera_player.Ws.Server.Tracked.{IsTracked}

live_from : (id : Bytes) (n j : ℕ) (cs : List Conn) → live id n cs ≡ some j → n ≤ j
live_from id n j [] e = cc
live_from id n j (c ∷ cs) e = ground (arith, live_from id (suc n) j cs)

-- What is found at a place has the id that was looked for.
live-id :
    (id : Bytes) (n i : ℕ) (c : Conn) (cs : List Conn)
    → live id n cs ≡ some (n + i)
    → conn_at i cs ≡ some c
    → same id c.id ≡ true
live-id id n i c [] e f = cc
live-id id n zero c (d ∷ cs) e f = ground (arith, live_from id (suc n) (n + 0) cs)
live-id id n (suc i) c (d ∷ cs) e f =
    let further : suc n + i ≡ n + suc i = omega arith in ground (arith, live-id id (suc n) i c cs)

live-conn_at :
    (n i : ℕ) (c : Conn) (cs : List Conn)
    → Unique cs
    → conn_at i cs ≡ some c
    → live c.id n cs ≡ (if c.told then none else some (n + i))
live-conn_at n i c [] u e = cc
live-conn_at n zero c (d ∷ cs) (h, u) e = ground (arith, same_refl c.id, live-taken c.id (suc n) cs)
live-conn_at n (suc i) c (d ∷ cs) (h, u) e =
    let apart : same c.id d.id ≡ false = same_flip d.id c.id (same-conn_at d.id i c cs e h) in
    ground (arith, live-conn_at (suc n) i c cs u e)

-- How often a table has a place.
abbrev count_at : ℕ → List (Bytes × ℕ) → ℕ
count_at i [] = 0
count_at i ((k, j) ∷ m) = (if j == i then 1 else 0) + count_at i m

abbrev one_at : ℕ → Option ℕ → ℕ
one_at i none = 0
one_at i (some j) = if j == i then 1 else 0

lookup-tail :
    (k l : Bytes) (i j : ℕ) (m : List (Bytes × ℕ))
    → lookup k m ≡ none
    → lookup l m ≡ some i
    → lookup l ((k, j) ∷ m) ≡ some i
unfolding lookup
lookup-tail k l i j m f e = elim (Bool-cases (same l k)) [
  | inl g ↦ let gone : lookup l m ≡ none = ap (λ b. lookup b m) (same-eq l k g) ∙ f in cc
  | inr g ↦ rw g e
]

other_place :
    (k id : Bytes) (i j : ℕ) (m : List (Bytes × ℕ))
    → same k id ≡ false
    → (lookup k ((k, j) ∷ m) ≡ some i → same k id ≡ true)
    → (j == i) ≡ false
unfolding lookup
other_place k id i j m e h = elim (Bool-cases (j == i)) [
  | inl g ↦ let found : same k id ≡ true = h (rw (same_refl k) (ap some ((==_iff j i).0 g))) in cc
  | inr g ↦ g
]

-- A place that only one key has.
count_at-one_at :
    (i : ℕ) (id : Bytes) (m : List (Bytes × ℕ))
    → NodupKeys m
    → ((k : Bytes) → lookup k m ≡ some i → same k id ≡ true)
    → count_at i m ≡ one_at i (lookup id m)
unfolding lookup
count_at-one_at i id [] u h = refl
count_at-one_at i id ((k, j) ∷ m) (f, u) h =
    let ih = count_at-one_at i id m u (λ l e. h l (lookup-tail k l i j m f e)) in
    elim (Bool-cases (same id k)) [
      | inl e ↦
          let gone : lookup id m ≡ none = ap (λ l. lookup l m) (same-eq id k e) ∙ f in
          ground (arith, ap (one_at i) gone)
      | inr e ↦
          let apart : (j == i) ≡ false = other_place k id i j m (same_flip id k e) (h k) in
          ground arith
    ]

times : ℕ → (Session → Session) → Session → Session
times zero f s = s
times (suc n) f s = times n f (f s)

update_at_self :
    (i j : ℕ) (g : Conn → Conn) (c : Conn) (cs : List Conn)
    → j ≡ i
    → conn_at i cs ≡ some c
    → conn_at i (update_at j g cs) ≡ some (g c)
update_at_self i j g c cs h e = rw h (at_place i cs e)
  where
    at_place :
        (i : ℕ) (cs : List Conn) → conn_at i cs ≡ some c → conn_at i (update_at i g cs) ≡ some (g c)
    at_place i [] e = cc
    at_place zero (d ∷ cs) e = ap (Option.map g) e
    at_place (suc i) (d ∷ cs) e = at_place i cs e

update_at_other :
    (i j : ℕ) (g : Conn → Conn) (c : Conn) (cs : List Conn)
    → (j == i) ≡ false
    → conn_at i cs ≡ some c
    → conn_at i (update_at j g cs) ≡ some c
update_at_other i j g c [] h e = e
update_at_other zero zero g c (d ∷ cs) h e = ground arith
update_at_other zero (suc j) g c (d ∷ cs) h e = e
update_at_other (suc i) zero g c (d ∷ cs) h e = e
update_at_other (suc i) (suc j) g c (d ∷ cs) h e = update_at_other i j g c cs (ground arith) e

conn_at-for_each :
    (i : ℕ) (f : Session → Session) (m : List (Bytes × ℕ)) (c : Conn) (cs : List Conn)
    → conn_at i cs ≡ some c
    → conn_at i (for_each f m cs) ≡ some (with_session (times (count_at i m) f) c)
unfolding for_each times
conn_at-for_each i f [] c cs e = e
conn_at-for_each i f ((k, j) ∷ m) c cs e = elim (Bool-cases (j == i)) [
  | inl g ↦
      let one : 1 + count_at i m ≡ suc (count_at i m) = omega arith in
      rw (g, one)
        (conn_at-for_each i f m (with_session f c) (update_at j (with_session f) cs)
          (update_at_self i j (with_session f) c cs ((==_iff j i).0 g) e))
  | inr g ↦
      let none_here : 0 + count_at i m ≡ count_at i m = omega arith in
      rw (g, none_here)
        (conn_at-for_each i f m c (update_at j (with_session f) cs)
          (update_at_other i j (with_session f) c cs g e))
]

sent_once :
    (op : OpCode) (payload : Bytes) (i : ℕ) (told : Bool) (c : Conn)
    → ◌≡◌ {A = Option Conn}
        (some (
          with_session
            (times (one_at i (if told then none else some (0 + i))) (send_if_open op payload))
            c))
        (some (
          if not told && is_active c.session.state
          then with_session (send_frame op payload) c
          else c))
unfolding times
sent_once op payload i true c = refl
sent_once op payload i false c =
    let here : (0 + i == i) ≡ true = ground arith in
    rw here
      (elim (Bool-cases (is_active c.session.state)) [ inl e ↦ rw e refl | inr e ↦ rw e refl ])

-- On a server whose table is as it should be, a broadcast has each session that is active and has
-- not called `RemoveSession` send the payload once, and leaves every other session alone.
pub broadcast-conn_at :
    (op : OpCode) (payload : Bytes) (s : Server) (i : ℕ) (c : Conn)
    → IsTracked s
    → conn_at i s.conns ≡ some c
    → conn_at i (broadcast op payload s).conns
      ≡ some (
          if not c.told && is_active c.session.state
          then with_session (send_frame op payload) c
          else c)
unfolding broadcast times
broadcast-conn_at op payload s i c v e =
    let found = v.tracked c.id ∙ live-conn_at 0 i c s.conns v.unique e in
    let at_start : i ≡ 0 + i = omega arith in
    let count =
      count_at-one_at i c.id s.sessions v.nodup
        (λ k f. live-id k 0 i c s.conns (sym (v.tracked k) ∙ f ∙ ap some at_start) e)
      ∙ ap (one_at i) found in
    conn_at-for_each i (send_if_open op payload) s.sessions c s.conns e
    ∙ ap (λ n. some (with_session (times n (send_if_open op payload)) c)) count
    ∙ sent_once op payload i c.told c
