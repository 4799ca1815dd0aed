-- ===== src/Rtsp/Session/Transitions.antt =====
-- The state machine of a session: which request leads from which state to which, and how it is
-- answered.
use camera_player.Prelude.{
  ℕ, Bool, true, false, not, Option, none, some, ◌≡◌, refl, sym, ap, ◌∙◌, arith, if_cases, List,
  Bytes, codes,
}
use mathlib.Core.Path.{subst}
use camera_player.Prelude.Text.{lookup}
use camera_player.Rtsp.Protocol.{
  RtspMethod, options, describe, setup, play, pause, teardown, get_parameter, set_parameter,
  recording, unknown, RtspResponse,
}
use camera_player.Rtsp.Session.{
  RtspState, ready, playing, paused, torn_down, RtspContext, RtspSession, Environment, bad_request,
  handle_describe, handle_play, handle_teardown, handle_pause, ensure_session_id, session_ok,
  stamp_context, start_transport, set_playing, set_state, is_ready, is_playing,
}
use camera_player.Rtsp.Session.Consistent.{
  Keeps, choose_transport-Keeps, open_transport-context, is_ready-eq, is_playing-eq,
  start_transport-context, set_playing-context,
}
use camera_player.Rtsp.Session.Keeping.{after_choice, handle_setup-choice}
use camera_player.Rtsp.Session.Setup.{handle_setup, choose_transport, open_transport}
use camera_player.Rtsp.Session.Requests.{dispatch}

-- The requests that change no state.
abbrev pub informs : RtspMethod → Bool
informs options = true
informs describe = true
informs get_parameter = true
informs set_parameter = true
informs _ = false

abbrev pub is_unserved : RtspMethod → Bool
is_unserved recording = true
is_unserved unknown = true
is_unserved _ = false

-- From a state, a request leads with a status to a state.
pub data Moves : RtspState → RtspMethod → ℕ → RtspState → Type 0 where
  informed : {state : RtspState} {m : RtspMethod} → informs m ≡ true → Moves state m 200 state
  not_allowed :
      {state : RtspState} {m : RtspMethod} → is_unserved m ≡ true → Moves state m 405 state
  set_up : {state : RtspState} → Moves state setup 200 ready
  setup_refused : {state : RtspState} → Moves state setup 400 state
  played : Moves ready play 200 playing
  play_refused : {state : RtspState} → is_ready state ≡ false → Moves state play 400 state
  held : Moves playing pause 200 paused
  pause_refused : {state : RtspState} → is_playing state ≡ false → Moves state pause 400 state
  ended : {state : RtspState} → Moves state teardown 200 torn_down

-- The state machine allows what a handler does, and the handler leaves what was sent and the number
-- of the request alone; if it throws there is nothing to ask.
pub record Follows (m : RtspMethod) (s : RtspSession) (r : RtspResponse) (t : RtspSession)
    : Type 0 where
  pub moves : Moves s.context.state m r.status_code t.context.state
  pub same_sent : t.sent ≡ s.sent
  pub same_cseq : t.context.cseq ≡ s.context.cseq

abbrev pub Allowed : RtspMethod → RtspSession → Option (RtspResponse × RtspSession) → Type 0
Allowed m s none = Unit {0}
Allowed m s (some (r, t)) = Follows m s r t

same-Follows :
    (m : RtspMethod) (s : RtspSession) (r : RtspResponse) (t : RtspSession)
    → Moves s.context.state m r.status_code s.context.state
    → t.context.state ≡ s.context.state
    → t.sent ≡ s.sent
    → t.context.cseq ≡ s.context.cseq
    → Follows m s r t
same-Follows m s r t k e f g = record { moves = rw e k; same_sent = f; same_cseq = g }

handle_describe-Follows :
    (env : Environment) (s : RtspSession)
    → Follows describe s (handle_describe env s).0 (handle_describe env s).1
unfolding handle_describe
handle_describe-Follows env s =
    same-Follows describe s (handle_describe env s).0 (ensure_session_id env s) (informed refl)
      (ground arith) (ground arith) (ground arith)

-- A move that ends in the state of a context.
Moves-to :
    {a b : RtspState} {m : RtspMethod} {n : ℕ} (c : RtspState)
    → c ≡ b
    → Moves a m n b
    → Moves a m n c
Moves-to {a} {b} {m} {n} c e k = subst (Moves a m n) (sym e) k

Moves-from :
    {a b : RtspState} {m : RtspMethod} {n : ℕ} (c : RtspState)
    → c ≡ a
    → Moves a m n b
    → Moves c m n b
Moves-from {a} {b} {m} {n} c e k = subst (λ x. Moves x m n b) (sym e) k

start_transport-sent : (env : Environment) (s : RtspSession) → (start_transport env s).sent ≡ s.sent
start_transport-sent env s = ground arith

handle_play-Follows :
    (env : Environment) (s : RtspSession)
    → Follows play s (handle_play env s).0 (handle_play env s).1
unfolding handle_play
handle_play-Follows env s =
    if_cases (λ (x : RtspResponse × RtspSession). Follows play s x.0 x.1)
      (not (is_ready s.context.state))
      (λ g. record { moves = play_refused (ground arith); same_sent = refl; same_cseq = refl })
      (λ g.
        let s' = record s { context = stamp_context env (record s.context { state = playing }) } in
        let kept : (start_transport env s').context ≡ s'.context = start_transport-context env s' in
        record {
          moves = Moves-from s.context.state (is_ready-eq s.context.state (ground arith)) (
              Moves-to (start_transport env s').context.state
                (ap (λ (x : RtspContext). x.state) kept ∙ ground arith) played);
          same_sent = start_transport-sent env s';
          same_cseq = ap (λ (x : RtspContext). x.cseq) kept ∙ ground arith;
        })

set_playing-sent : (on : Bool) (s : RtspSession) → (set_playing on s).sent ≡ s.sent
set_playing-sent on s = ground arith

-- The transport is told to stop, and the session goes to a state.
stopped-Follows :
    (m : RtspMethod) (s : RtspSession) (state : RtspState) (r : RtspResponse)
    → Moves s.context.state m r.status_code state
    → Follows m s r (set_playing false (set_state state s))
stopped-Follows m s state r k =
    let kept : (set_playing false (set_state state s)).context ≡ (set_state state s).context =
      set_playing-context false (set_state state s) in
    record {
      moves =
          Moves-to (set_playing false (set_state state s)).context.state
            (ap (λ (x : RtspContext). x.state) kept) k;
      same_sent = set_playing-sent false (set_state state s);
      same_cseq = ap (λ (x : RtspContext). x.cseq) kept;
    }

handle_pause-Follows : (s : RtspSession) → Follows pause s (handle_pause s).0 (handle_pause s).1
unfolding handle_pause
handle_pause-Follows s =
    if_cases (λ (x : RtspResponse × RtspSession). Follows pause s x.0 x.1)
      (not (is_playing s.context.state))
      (λ g. record { moves = pause_refused (ground arith); same_sent = refl; same_cseq = refl })
      (λ g.
        stopped-Follows pause s paused (session_ok s)
          (Moves-from s.context.state (is_playing-eq s.context.state (ground arith)) held))

handle_teardown-Follows :
    (s : RtspSession) → Follows teardown s (handle_teardown s).0 (handle_teardown s).1
unfolding handle_teardown
handle_teardown-Follows s = stopped-Follows teardown s torn_down (session_ok s) ended

open_transport-Follows :
    (env : Environment) (s : RtspSession)
    → ((open_transport env s).0.status_code ≡ 200) × ((open_transport env s).1.sent ≡ s.sent)
open_transport-Follows env s = ground arith

after_choice-Follows :
    (env : Environment) (s t : RtspSession) (o : Option (Bool × RtspContext))
    → t.context.state ≡ s.context.state
    → t.sent ≡ s.sent
    → t.context.cseq ≡ s.context.cseq
    → Keeps t.context o
    → Allowed setup s (after_choice env t o)
unfolding after_choice
after_choice-Follows env s t none a b c k = _
after_choice-Follows env s t (some (true, d)) a b c (e, f, g) =
    let t' = set_state ready (record t { context = d }) in
    let (ok, same) = open_transport-Follows env t' in
    let kept : (open_transport env t').1.context ≡ t'.context = open_transport-context env t' in
    record {
      moves =
          subst (λ n. Moves s.context.state setup n (open_transport env t').1.context.state)
            (sym ok)
            (Moves-to (open_transport env t').1.context.state
              (ap (λ (x : RtspContext). x.state) kept) set_up);
      same_sent = same ∙ b;
      same_cseq = ap (λ (x : RtspContext). x.cseq) kept ∙ g ∙ c;
    }
after_choice-Follows env s t (some (false, d)) a b c (e, f, g) =
    same-Follows setup s bad_request (record t { context = d }) setup_refused (e ∙ a) b (g ∙ c)

ensured_fields :
    (env : Environment) (s : RtspSession)
    → ((ensure_session_id env s).context.state ≡ s.context.state)
      × ((ensure_session_id env s).sent ≡ s.sent)
      × ((ensure_session_id env s).context.cseq ≡ s.context.cseq)
ensured_fields env s = ground arith

setup_by_header :
    (env : Environment) (headers : List (Bytes × Bytes)) (s : RtspSession) (o : Option Bytes)
    → lookup (codes "Transport") headers ≡ o
    → Allowed setup s (handle_setup env headers s)
unfolding handle_setup
setup_by_header env headers s none e =
    let same : handle_setup env headers s ≡ some (bad_request, s) = ground arith in
    subst (Allowed setup s) (sym same)
      (same-Follows setup s bad_request s setup_refused refl refl refl)
setup_by_header env headers s (some header) e =
    let s' = ensure_session_id env s in
    let (a, b, c) = ensured_fields env s in
    subst (Allowed setup s) (sym (handle_setup-choice env headers s header e)) (
      after_choice-Follows env s s' (choose_transport header s'.context) a b c
        (choose_transport-Keeps header s'.context))

-- Whatever a request is, and whatever its headers: if handling it does not throw, the session goes
-- from its state to the next one, and answers with the status, as the state machine allows it; and it
-- leaves what it has sent and the number of the request for the response to be sent.
pub dispatch-Allowed :
    (env : Environment) (m : RtspMethod) (headers : List (Bytes × Bytes)) (s : RtspSession)
    → Allowed m s (dispatch env m headers s)
unfolding dispatch
dispatch-Allowed env options headers s = record {
  moves = informed refl;
  same_sent = refl;
  same_cseq = refl;
}
dispatch-Allowed env describe headers s = handle_describe-Follows env s
dispatch-Allowed env setup headers s =
    setup_by_header env headers s (lookup (codes "Transport") headers) refl
dispatch-Allowed env play headers s = handle_play-Follows env s
dispatch-Allowed env pause headers s = handle_pause-Follows s
dispatch-Allowed env teardown headers s = handle_teardown-Follows s
dispatch-Allowed env get_parameter headers s = record {
  moves = informed refl;
  same_sent = refl;
  same_cseq = refl;
}
dispatch-Allowed env set_parameter headers s = record {
  moves = informed refl;
  same_sent = refl;
  same_cseq = refl;
}
dispatch-Allowed env recording headers s = record {
  moves = not_allowed refl;
  same_sent = refl;
  same_cseq = refl;
}
dispatch-Allowed env unknown headers s = record {
  moves = not_allowed refl;
  same_sent = refl;
  same_cseq = refl;
}
