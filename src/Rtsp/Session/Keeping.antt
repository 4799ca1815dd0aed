-- ===== src/Rtsp/Session/Keeping.antt =====
-- The handlers of requests keep a session consistent.
use mathlib.Core.Path.{subst}
use camera_player.Prelude.{
  Bool, true, false, not, Option, none, some, ◌≡◌, refl, sym, ap, ◌∙◌, arith, if_cases, List, Bytes,
  codes,
}
use camera_player.Prelude.Text.{lookup}
use camera_player.Rtsp.Protocol.{
  RtspMethod, options, describe, setup, play, pause, teardown, get_parameter, set_parameter,
  recording, unknown, RtspResponse,
}
use camera_player.Rtsp.Session.{
  ready, playing, RtspContext, RtspSession, Environment, bad_request, handle_describe, handle_play,
  handle_teardown, handle_pause, ensure_session_id, set_state, start_transport, stamp_context,
  is_ready, is_playing,
}
use camera_player.Rtsp.Session.Setup.{handle_setup, choose_transport, open_transport}
use camera_player.Rtsp.Session.Requests.{dispatch}
use camera_player.Rtsp.Session.Consistent.{
  HasId-torn_down, HasId, IsConsistent, Afterwards, with_id, ensure_session_id-with_id,
  with_id-IsConsistent, Keeps, choose_transport-Keeps, open_transport-context, ready-IsConsistent,
  playing-IsConsistent, is_ready-eq, is_playing-eq, start_transport-IsHeard,
  start_transport-context, torn_down-IsConsistent, paused-IsConsistent,
}

module _ (env : Environment) where
  handle_play-IsConsistent :
      (s : RtspSession)
      → IsConsistent env.own_session_id s
      → IsConsistent env.own_session_id (handle_play env s).1
  unfolding handle_play
  handle_play-IsConsistent s c =
      if_cases (λ (x : RtspResponse × RtspSession). IsConsistent env.own_session_id x.1)
        (not (is_ready s.context.state)) (λ g. c)
        (λ g.
          let s' = record s {
            context = stamp_context env (record s.context { state = playing });
          } in
          let e : s.context.state ≡ ready = is_ready-eq s.context.state (ground arith) in
          let i : s.context.session_id ≡ env.own_session_id =
            subst (λ st. HasId env.own_session_id st s.context.session_id) e c.identified in
          playing-IsConsistent env.own_session_id (start_transport env s')
            (ap (λ (x : RtspContext). x.state) (start_transport-context env s') ∙ ground arith)
            (ap (λ (x : RtspContext). x.session_id) (start_transport-context env s') ∙ ground arith)
            (start_transport-IsHeard env s'))

  -- What a transport header leads to.
  unfoldable pub after_choice :
      RtspSession → Option (Bool × RtspContext) → Option (RtspResponse × RtspSession)
  after_choice s none = none
  after_choice s (some (true, c)) =
      some (open_transport env (set_state ready (record s { context = c })))
  after_choice s (some (false, c)) = some (bad_request, record s { context = c })

  after_choice-IsConsistent :
      (s : RtspSession) (o : Option (Bool × RtspContext))
      → IsConsistent env.own_session_id s
      → s.context.session_id ≡ env.own_session_id
      → Keeps s.context o
      → Afterwards (IsConsistent env.own_session_id) (after_choice s o)
  unfolding after_choice
  after_choice-IsConsistent s none k i h = _
  after_choice-IsConsistent s (some (true, c)) k i (e, f, g) =
      let t = set_state ready (record s { context = c }) in
      ready-IsConsistent env.own_session_id (open_transport env t).1
        (ap (λ (x : RtspContext). x.state) (open_transport-context env t))
        (ap (λ (x : RtspContext). x.session_id) (open_transport-context env t) ∙ f ∙ i)
  after_choice-IsConsistent s (some (false, c)) k i (e, f, g) = record {
    silent = rw e k.silent;
    heard = rw e k.heard;
    identified = rw (e, f) k.identified;
  }

  pub handle_setup-choice :
      (headers : List (Bytes × Bytes)) (s : RtspSession) (header : Bytes)
      → lookup (codes "Transport") headers ≡ some header
      → handle_setup env headers s
        ≡ after_choice
            (ensure_session_id env s)
            (choose_transport header (ensure_session_id env s).context)
  unfolding handle_setup after_choice
  handle_setup-choice headers s header e = ground arith

  by_header :
      (headers : List (Bytes × Bytes)) (s : RtspSession) (o : Option Bytes)
      → IsConsistent env.own_session_id s
      → lookup (codes "Transport") headers ≡ o
      → Afterwards (IsConsistent env.own_session_id) (handle_setup env headers s)
  unfolding handle_setup
  by_header headers s none c e =
      let same : handle_setup env headers s ≡ some (bad_request, s) = ground arith in
      subst (Afterwards (IsConsistent env.own_session_id)) (sym same) c
  by_header headers s (some header) c e =
      let s' = with_id env.own_session_id s in
      let same : ensure_session_id env s ≡ s' = ensure_session_id-with_id env s c.identified in
      subst (Afterwards (IsConsistent env.own_session_id))
        (sym (handle_setup-choice headers s header e))
        (subst
          (λ t.
            Afterwards (IsConsistent env.own_session_id)
              (after_choice t (choose_transport header t.context)))
          (sym same)
          (after_choice-IsConsistent s' (choose_transport header s'.context)
            (with_id-IsConsistent env.own_session_id s c) refl
            (choose_transport-Keeps header s'.context)))

  handle_setup-IsConsistent :
      (headers : List (Bytes × Bytes)) (s : RtspSession)
      → IsConsistent env.own_session_id s
      → Afterwards (IsConsistent env.own_session_id) (handle_setup env headers s)
  handle_setup-IsConsistent headers s c =
      by_header headers s (lookup (codes "Transport") headers) c refl

  pub dispatch-IsConsistent :
      (m : RtspMethod) (headers : List (Bytes × Bytes)) (s : RtspSession)
      → IsConsistent env.own_session_id s
      → Afterwards (IsConsistent env.own_session_id) (dispatch env m headers s)
  unfolding dispatch handle_describe handle_teardown handle_pause
  dispatch-IsConsistent options headers s c = c
  dispatch-IsConsistent describe headers s c =
      subst (IsConsistent env.own_session_id) (sym (ensure_session_id-with_id env s c.identified))
        (with_id-IsConsistent env.own_session_id s c)
  dispatch-IsConsistent setup headers s c = handle_setup-IsConsistent headers s c
  dispatch-IsConsistent play headers s c = handle_play-IsConsistent s c
  dispatch-IsConsistent teardown headers s c =
      torn_down-IsConsistent env.own_session_id s
        (HasId-torn_down env.own_session_id s.context.state s.context.session_id c.identified)
  dispatch-IsConsistent pause headers s c =
      if_cases (λ (x : RtspResponse × RtspSession). IsConsistent env.own_session_id x.1)
        (not (is_playing s.context.state)) (λ g. c)
        (λ g.
          let e : s.context.state ≡ playing = is_playing-eq s.context.state (ground arith) in
          paused-IsConsistent env.own_session_id s
            (subst (λ st. HasId env.own_session_id st s.context.session_id) e c.identified))
  dispatch-IsConsistent get_parameter headers s c = c
  dispatch-IsConsistent set_parameter headers s c = c
  dispatch-IsConsistent recording headers s c = c
  dispatch-IsConsistent unknown headers s c = c
