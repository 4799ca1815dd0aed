-- ===== src/Rtsp/Session/Consistent.antt =====
-- What every session that is reached satisfies, and how the parts of the handlers keep it.
use camera_player.Prelude.{
  if◌then◌else◌, Bool, true, false, Option, none, some, ◌≡◌, refl, ap, ◌⊎◌, inr, arith, if_cases,
  [], ◌∷◌, Bytes,
}
use camera_player.Prelude.Text.{is_empty_text}
use camera_player.Rtsp.Protocol.{RtspResponse}
use camera_player.Rtsp.Session.{
  RtspState, init, ready, playing, paused, torn_down, RtspContext, RtpTransport, RtspSession,
  Environment, ensure_session_id, set_state, set_playing, start_transport, is_ready, is_playing,
}
use camera_player.Rtsp.Session.Setup.{setup_tcp, setup_udp, choose_transport, open_transport}

-- Whether the transport plays; none does not.
abbrev pub transport_plays : RtspSession → Bool
transport_plays s = elim s.rtp_transport [ none ↦ false | some t ↦ t.is_playing ]

-- The transport plays in no state but the two in which it may.
abbrev pub IsSilent : RtspState → Bool → Type 0
IsSilent playing p = Unit {0}
IsSilent ready p = Unit {0}
IsSilent init p = p ≡ false
IsSilent paused p = p ≡ false
IsSilent torn_down p = p ≡ false

-- A transport plays if the session does.
abbrev pub IsHeard : RtspState → Option RtpTransport → Type 0
IsHeard playing (some t) = t.is_playing ≡ true
IsHeard _ t = Unit {0}

-- A session that is set up has the id of the connection.
abbrev pub HasId : Bytes → RtspState → Bytes → Type 0
HasId own init session_id = (session_id ≡ []) ⊎ (session_id ≡ own)
HasId own torn_down session_id = (session_id ≡ []) ⊎ (session_id ≡ own)
HasId own _ session_id = session_id ≡ own

pub record IsConsistent (own : Bytes) (s : RtspSession) : Type 0 where
  pub silent : IsSilent s.context.state (transport_plays s)
  pub heard : IsHeard s.context.state s.rtp_transport
  pub identified : HasId own s.context.state s.context.session_id

-- What holds of the session once a request is handled, if that does not throw.
abbrev pub Afterwards : (RtspSession → Type 0) → Option (RtspResponse × RtspSession) → Type 0
Afterwards P none = Unit {0}
Afterwards P (some (r, t)) = P t

pub ensured :
    (own : Bytes) (state : RtspState) (id : Bytes)
    → HasId own state id
    → (if is_empty_text id then own else id) ≡ own
ensured own state [] h = refl
ensured own init (c ∷ cs) h = ground arith
ensured own torn_down (c ∷ cs) h = ground arith
ensured own ready (c ∷ cs) h = h
ensured own playing (c ∷ cs) h = h
ensured own paused (c ∷ cs) h = h

-- The session with the id of the connection.
abbrev pub with_id : Bytes → RtspSession → RtspSession
with_id own s = record s { context = record s.context { session_id = own } }

pub ensure_session_id-with_id :
    (env : Environment) (s : RtspSession)
    → HasId env.own_session_id s.context.state s.context.session_id
    → ensure_session_id env s ≡ with_id env.own_session_id s
ensure_session_id-with_id env s h =
    if_cases (λ t. t ≡ with_id env.own_session_id s) (is_empty_text s.context.session_id)
      (λ g. refl)
      (λ g.
        let e : (if is_empty_text s.context.session_id
              then env.own_session_id
              else s.context.session_id)
            ≡ env.own_session_id =
          ensured env.own_session_id s.context.state s.context.session_id h in
        ap (λ i. record s { context = record s.context { session_id = i } }) (ground arith))

HasId-own : (own : Bytes) (state : RtspState) → HasId own state own
HasId-own own init = inr refl
HasId-own own torn_down = inr refl
HasId-own own ready = refl
HasId-own own playing = refl
HasId-own own paused = refl

pub with_id-IsConsistent :
    (own : Bytes) (s : RtspSession) → IsConsistent own s → IsConsistent own (with_id own s)
with_id-IsConsistent own s c = record {
  silent = c.silent;
  heard = c.heard;
  identified = HasId-own own s.context.state;
}

-- The choice of a transport keeps the state, the id and the request's number.
abbrev pub Keeps : RtspContext → Option (Bool × RtspContext) → Type 0
Keeps c none = Unit {0}
Keeps c (some (b, d)) = (d.state ≡ c.state) × (d.session_id ≡ c.session_id) × (d.cseq ≡ c.cseq)

pub choose_transport-Keeps :
    (header : Bytes) (c : RtspContext) → Keeps c (choose_transport header c)
unfolding choose_transport setup_tcp setup_udp
choose_transport-Keeps header c = ground arith

pub open_transport-context :
    (env : Environment) (s : RtspSession) → (open_transport env s).1.context ≡ s.context
open_transport-context env s = ground arith

-- In the states `ready` and `playing`, less has to be shown.
pub ready-IsConsistent :
    (own : Bytes) (s : RtspSession)
    → s.context.state ≡ ready
    → s.context.session_id ≡ own
    → IsConsistent own s
ready-IsConsistent own s e i = record { silent = rw e _; heard = rw e _; identified = rw e i }

pub playing-IsConsistent :
    (own : Bytes) (s : RtspSession)
    → s.context.state ≡ playing
    → s.context.session_id ≡ own
    → IsHeard playing s.rtp_transport
    → IsConsistent own s
playing-IsConsistent own s e i h = record { silent = rw e _; heard = rw e h; identified = rw e i }

pub is_ready-eq : (state : RtspState) → is_ready state ≡ true → state ≡ ready
is_ready-eq ready h = refl
is_ready-eq _ h = ground arith

pub is_playing-eq : (state : RtspState) → is_playing state ≡ true → state ≡ playing
is_playing-eq playing h = refl
is_playing-eq _ h = ground arith

pub start_transport-IsHeard :
    (env : Environment) (s : RtspSession) → IsHeard playing (start_transport env s).rtp_transport
start_transport-IsHeard env s = ground arith

pub start_transport-context :
    (env : Environment) (s : RtspSession) → (start_transport env s).context ≡ s.context
start_transport-context env s = ground arith

-- The transport is told to stop.
pub set_playing-silent : (s : RtspSession) → transport_plays (set_playing false s) ≡ false
set_playing-silent s = ground arith

pub set_playing-context : (on : Bool) (s : RtspSession) → (set_playing on s).context ≡ s.context
set_playing-context on s = ground arith

pub torn_down-IsConsistent :
    (own : Bytes) (s : RtspSession)
    → HasId own torn_down s.context.session_id
    → IsConsistent own (set_playing false (set_state torn_down s))
torn_down-IsConsistent own s i =
    let t = set_state torn_down s in
    record {
      silent = rw (set_playing-context false t) (set_playing-silent t);
      heard = rw (set_playing-context false t) _;
      identified = rw (set_playing-context false t) i;
    }

pub paused-IsConsistent :
    (own : Bytes) (s : RtspSession)
    → s.context.session_id ≡ own
    → IsConsistent own (set_playing false (set_state paused s))
paused-IsConsistent own s i =
    let t = set_state paused s in
    record {
      silent = rw (set_playing-context false t) (set_playing-silent t);
      heard = rw (set_playing-context false t) _;
      identified = rw (set_playing-context false t) i;
    }

-- An id of any state will do when the session is torn down.
pub HasId-torn_down :
    (own : Bytes) (state : RtspState) (id : Bytes) → HasId own state id → HasId own torn_down id
HasId-torn_down own init id h = h
HasId-torn_down own torn_down id h = h
HasId-torn_down own ready id h = inr h
HasId-torn_down own playing id h = inr h
HasId-torn_down own paused id h = inr h
