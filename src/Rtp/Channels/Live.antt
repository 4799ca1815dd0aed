-- ===== src/Rtp/Channels/Live.antt =====
-- What holds of a channel that keeps its timer going while it plays, and which calls keep it.
use camera_player.Prelude.{
  ℕ, ◌<◌, ltb, Bool, true, false, not, ◌||◌, if◌then◌else◌, Option, none, some, ◌≡◌, arith, List,
  [], ◌∷◌, ◌++◌,
}
use camera_player.Rtp.Transport.{MediaChannelInfo}
use camera_player.Rtp.Channels.{
  FrameProvider, TransportInfo, Channel, set_mode, stop_event_loop, play_channel,
}
use camera_player.Rtp.Channels.Timer.{is_looping, wait_again}
use camera_player.Rtp.Channels.Machine.{expire}

-- A handler that is ready and was not cancelled.
abbrev pub has_expired : List Bool → Bool
has_expired [] = false
has_expired (ec ∷ due) = not ec || has_expired due

abbrev pub is_armed : Option ℕ → Bool
is_armed none = false
is_armed (some interval) = true

pub has_expired-append :
    (due : List Bool) (ec : Bool) → has_expired (due ++ ec ∷ []) ≡ (has_expired due || not ec)
has_expired-append [] ec = ground arith
has_expired-append (d ∷ due) ec = ground (arith, has_expired-append due ec)

module _ {State : Type 0} where
  -- On a transport that is closed or not.
  pub record IsLive (closed : Bool) (c : Channel State) : Type 0 where
    pub runs_playing : c.is_loop_running ≡ true → c.is_playing ≡ true
    pub waits_running : is_armed c.armed ≡ true → c.is_loop_running ≡ true
    pub has_rate : 0 < c.frame_rate
    pub plays_running : c.is_playing ≡ true → closed ≡ false → c.is_loop_running ≡ true
    pub runs_waiting : c.is_loop_running ≡ true → (is_armed c.armed || has_expired c.due) ≡ true

  -- What holds of a channel whose handler is taken off to run.
  pub record IsWoken (closed : Bool) (c : Channel State) : Type 0 where
    pub runs_playing : c.is_loop_running ≡ true → c.is_playing ≡ true
    pub waits_running : is_armed c.armed ≡ true → c.is_loop_running ≡ true
    pub has_rate : 0 < c.frame_rate
    pub plays_running : c.is_playing ≡ true → closed ≡ false → c.is_loop_running ≡ true

  pub play_channel-IsLive :
      (closed playing : Bool) (c : Channel State)
      → IsLive closed c
      → IsLive closed (play_channel playing c)
  unfolding play_channel
  play_channel-IsLive closed playing c h = ground (arith, has_expired-append c.due true)

  pub stop_event_loop-IsLive :
      (closed : Bool) (c : Channel State) → IsLive closed c → IsLive true (stop_event_loop c)
  stop_event_loop-IsLive closed c h = ground arith

  pub expire-IsLive :
      (closed : Bool) (c : Channel State) → IsLive closed c → IsLive closed (expire c)
  expire-IsLive closed c h = ground (arith, has_expired-append c.due false)

  pub wait_again-IsLive :
      (closed : Bool) (c : Channel State) → IsWoken closed c → IsLive closed (wait_again c)
  wait_again-IsLive closed c h = ground arith

  pub woken :
      (closed : Bool) (c : Channel State) (due : List Bool)
      → IsLive closed c
      → IsWoken closed (record c { due = due })
  woken closed c due h = ground arith

  pub asleep-IsLive :
      (closed : Bool) (c : Channel State)
      → IsWoken closed c
      → is_looping c ≡ false
      → IsLive closed c
  asleep-IsLive closed c h e = ground arith

  -- The handler of a wait that was cancelled.
  pub cancelled-IsLive :
      (closed : Bool) (c : Channel State) (due : List Bool)
      → IsLive closed c
      → c.due ≡ true ∷ due
      → IsLive closed (record c { due = due })
  cancelled-IsLive closed c due h e = ground arith

  pub IsLive-info :
      (closed : Bool) (c : Channel State) (info : MediaChannelInfo)
      → IsLive closed c
      → IsLive closed (record c { info = info })
  IsLive-info closed c info h = ground arith

  pub IsWoken-info :
      (closed : Bool) (c : Channel State) (info : MediaChannelInfo)
      → IsWoken closed c
      → IsWoken closed (record c { info = info })
  IsWoken-info closed c info h = ground arith

  pub set_mode-IsLive :
      (closed : Bool) (info : TransportInfo) (c : Channel State)
      → IsLive closed c
      → IsLive closed (set_mode info c)
  set_mode-IsLive closed info c h = ground arith

  pub IsLive-clock_rate :
      (closed : Bool) (c : Channel State) (rate : ℕ)
      → IsLive closed c
      → IsLive closed (record c { clock_rate = rate })
  IsLive-clock_rate closed c rate h = ground arith

  pub IsLive-provider :
      (closed : Bool) (c : Channel State) (provider : Option (FrameProvider State))
      → IsLive closed c
      → IsLive closed (record c { provider = provider })
  IsLive-provider closed c provider h = ground arith

  pub IsLive-frame_rate :
      (closed : Bool) (c : Channel State) (fps : ℕ)
      → IsLive closed c
      → IsLive closed (record c { frame_rate = (if ltb 0 fps then fps else 25) })
  IsLive-frame_rate closed c fps h = ground arith
