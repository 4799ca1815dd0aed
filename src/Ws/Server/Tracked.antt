-- ===== src/Ws/Server/Tracked.antt =====
-- The table of a server that is not stopped has the sessions that have not called `RemoveSession`.
use mathlib.Core.Path.{subst}
use camera_player.Prelude.{
  ℕ, zero, suc, ◌+◌, ltb, Bool, true, false, ◌||◌, if◌then◌else◌, Option-cases, inl, inr, none,
  some, ◌≡◌, refl, sym, ap, ◌∙◌, arith, List, [], ◌∷◌, ◌++◌, length, Bytes,
}
use camera_player.Prelude.Text.{same, lookup, insert, erase}
use camera_player.Ws.Session.State.{Session}
use camera_player.Ws.Server.{
  Conn, Server, start, new_conn, on_accept, on_accept_error, update_at, conn_at, with_session,
  for_each, send_if_open, broadcast, get_session_count, removals, on_session, set_session_options,
}
use camera_player.Ws.Server.Machine.{
  taken, Step, started, accepted, accept_failed, broadcasted, handlers_set, options_set,
  protocols_set, session_ran, Reach, here, next,
}
use camera_player.Ws.Server.Table.{
  NodupKeys, lookup-insert, lookup-erase, insert-NodupKeys, erase-NodupKeys, length-insert,
  one_if_found, length-erase,
}
use camera_player.Ws.Server.Live.{
  live, count_live, Unique, ran, live-taken, append-Unique, update_at-Unique, live-append,
  count_live-append, live-update_at_same, live-update_at, count_live-update_at_same,
  count_live-update_at,
}

-- The ids differ, and so do the table's keys; a look into the table finds what looking through the
-- sessions does, and it has as many entries as there are such sessions.
pub record Tracks (table : List (Bytes × ℕ)) (conns : List Conn) : Type 0 where
  pub unique : Unique conns
  pub nodup : NodupKeys table
  pub tracked : (id : Bytes) → lookup id table ≡ live id 0 conns
  pub counted : length table ≡ count_live conns

add-Tracks :
    (table : List (Bytes × ℕ)) (conns : List Conn) (c : Conn)
    → taken c.id conns ≡ false
    → c.told ≡ false
    → Tracks table conns
    → Tracks (insert c.id (length conns) table) (conns ++ c ∷ [])
add-Tracks table conns c fresh new v =
    let free = v.tracked c.id ∙ live-taken c.id 0 conns fresh in
    let at_end : length conns ≡ 0 + length conns = omega arith in
    record {
      unique = append-Unique conns c fresh v.unique;
      nodup = insert-NodupKeys c.id (length conns) table free v.nodup;
      tracked = λ id.
          lookup-insert c.id id (length conns) table
          ∙ ap (λ o. if same id c.id then some (length conns) else o) (v.tracked id)
          ∙ ap (λ n. if same id c.id then some n else live id 0 conns) at_end
          ∙ sym (live-append id 0 conns c fresh new);
      counted =
          length-insert c.id (length conns) table free
          ∙ ap suc v.counted
          ∙ sym (count_live-append conns c new);
    }

run-Tracks :
    (table : List (Bytes × ℕ)) (conns : List Conn) (i : ℕ) (t : Session) (c : Conn) (tells : Bool)
    → conn_at i conns ≡ some c
    → Tracks table conns
    → Tracks (if tells then erase c.id table else table) (update_at i (ran t tells) conns)
run-Tracks table conns i t c false e v = record {
  unique = update_at-Unique i t false conns v.unique;
  nodup = v.nodup;
  tracked = λ id. v.tracked id ∙ sym (live-update_at_same id 0 i t conns);
  counted = v.counted ∙ sym (count_live-update_at_same i t conns);
}
run-Tracks table conns i t c true e v = record {
  unique = update_at-Unique i t true conns v.unique;
  nodup = erase-NodupKeys c.id table v.nodup;
  tracked = λ id.
      lookup-erase c.id id table v.nodup
      ∙ ap (λ o. if same id c.id then none else o) (v.tracked id)
      ∙ sym (live-update_at id 0 i t c conns e v.unique);
  counted = omega (
    arith,
    length-erase c.id table,
    count_live-update_at 0 i t c conns e v.unique,
    ap one_if_found (v.tracked c.id),
    v.counted,
  );
}

update_at-none :
    (i : ℕ) (f : Conn → Conn) (cs : List Conn) → conn_at i cs ≡ none → update_at i f cs ≡ cs
update_at-none i f [] e = refl
update_at-none zero f (c ∷ cs) e = cc
update_at-none (suc i) f (c ∷ cs) e = ap (◌∷◌ c) (update_at-none i f cs e)

with_session-ran :
    (i : ℕ) (f : Session → Session) (c : Conn) (cs : List Conn)
    → conn_at i cs ≡ some c
    → update_at i (with_session f) cs ≡ update_at i (ran (f c.session) false) cs
with_session-ran i f c [] e = refl
with_session-ran zero f c (d ∷ cs) e =
    let same_one : d ≡ c = ground arith in
    let told : d.told ≡ (d.told || false) = ground arith in
    ap (λ b. record d { session = f d.session; told = b } ∷ cs) told
    ∙ ap (λ (x : Conn). record d { session = f x.session; told = d.told || false } ∷ cs) same_one
with_session-ran (suc i) f c (d ∷ cs) e = ap (◌∷◌ d) (with_session-ran i f c cs e)

-- What only changes sessions leaves the table as it should be.
with_session-Tracks :
    (table : List (Bytes × ℕ)) (conns : List Conn) (i : ℕ) (f : Session → Session)
    → Tracks table conns
    → Tracks table (update_at i (with_session f) conns)
with_session-Tracks table conns i f v = elim (Option-cases (conn_at i conns)) [
  | inl e ↦ subst (Tracks table) (sym (update_at-none i (with_session f) conns e)) v
  | inr (c, e) ↦
      subst (Tracks table) (sym (with_session-ran i f c conns e))
        (run-Tracks table conns i (f c.session) c false e v)
]

for_each-Tracks :
    (table m : List (Bytes × ℕ)) (conns : List Conn) (f : Session → Session)
    → Tracks table conns
    → Tracks table (for_each f m conns)
unfolding for_each
for_each-Tracks table [] conns f v = v
for_each-Tracks table ((id, i) ∷ m) conns f v =
    for_each-Tracks table m (update_at i (with_session f) conns) f
      (with_session-Tracks table conns i f v)

abbrev pub IsTracked : Server → Type 0
IsTracked s = Tracks s.sessions s.conns

Step-IsTracked : {s t : Server} → Step s t → IsTracked s → IsTracked t
unfolding start on_accept on_accept_error broadcast on_session set_session_options
Step-IsTracked (started {s}) v = ground arith
Step-IsTracked (accepted {s} id fresh) v =
    let added = add-Tracks s.sessions s.conns (new_conn id s) fresh refl v in ground arith
Step-IsTracked (accept_failed {s}) v = ground arith
Step-IsTracked (broadcasted {s} op payload) v =
    for_each-Tracks s.sessions s.sessions s.conns (send_if_open op payload) v
Step-IsTracked (handlers_set h) v = v
Step-IsTracked (options_set o) v = v
Step-IsTracked (protocols_set protocols) v = v
Step-IsTracked (session_ran {s} i c t e st) v =
    rw (e, on_session)
      (run-Tracks s.sessions s.conns i t c (ltb (removals c.session.log) (removals t.log)) e v)

-- However a server runs, as long as it is not stopped and the ids are new ones, if its table is as
-- it should be at first: looking up an id gives the place of the session with that id that has not
-- called `RemoveSession`, and nothing if there is none; and `GetSessionCount` is the number of such
-- sessions.
pub Reach-IsTracked :
    {s t : Server}
    → Reach s t
    → IsTracked s
    → ((id : Bytes) → lookup id t.sessions ≡ live id 0 t.conns)
      × (get_session_count t ≡ count_live t.conns)
Reach-IsTracked r v = let w = tracked_there r v in (w.tracked, w.counted)
  where
    tracked_there : {s t : Server} → Reach s t → IsTracked s → IsTracked t
    tracked_there here v = v
    tracked_there (next r st) v = Step-IsTracked st (tracked_there r v)
