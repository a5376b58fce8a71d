-- ===== src/Client/Command/Standby.antt =====
-- client/efikampd.c: the state of the player as the client sees it, with no menu open.
use efika_mpd.Base.{
  ◌≡◌, refl, sym, Bool, true, false, Option, none, inl, inr, List, [], ◌∷◌, ◌++◌, arith,
  if◌then◌else◌, Returns, Returns->>=, Bool-cases,
}
use efika_mpd.Client.{
  PlayState, state_stdby, state_idle, state_play, state_pause, state_stopped, cmd_stdby, cmd_tuner,
  cmd_dim, cmd_bright,
}
use efika_mpd.Client.Mpd.{
  Player, player_play, player_pause, player_stop, player_unknown, Mpd, Call, stop,
}
use efika_mpd.Client.State.{Daemon, ask}
use efika_mpd.Client.Display.{lcd_update_status, lcd_update}
use efika_mpd.Client.Loop.{write_line, write_lcd}
use efika_mpd.Client.Command.{
  is_stdby, player_state, on_stdby, dim, handle_command, handle_state_change, Changes, if_changed,
  status_changed,
}

-- The client in state `s` with no menu open, after it asked for `cs`.
pub record IsClosed (s : PlayState) (cs : List Call) (d : Daemon) : Type 0 where
  pub closed : d.pmenu ≡ none
  pub state : d.state ≡ s
  pub calls : d.calls ≡ cs

lcd_update-IsClosed :
    (s : PlayState) (cs : List Call) (mpd : Mpd) (d : Daemon)
    → IsClosed s cs d
    → Returns (IsClosed s cs) (lcd_update mpd d)
unfolding lcd_update lcd_update_status
lcd_update-IsClosed s cs mpd d v =
    rw (v.closed, lcd_update) (record { closed = v.closed; state = v.state; calls = v.calls })

-- The standby key, and the tuner key with it, takes the client into standby, closes the menu and
-- stops the player, and out of standby, where no menu is open, into the idle state, with no call
-- of the player.
pub stdby_lem :
    (mpd : Mpd) (d : Daemon)
    → (is_stdby d.state ≡ true → d.pmenu ≡ none)
    → let after = if is_stdby d.state then state_idle else state_stdby in
      let calls = if is_stdby d.state then d.calls else d.calls ++ stop ∷ [] in
      Returns (IsClosed after calls) (handle_command cmd_stdby mpd d)
      × Returns (IsClosed after calls) (handle_command cmd_tuner mpd d)
unfolding handle_command on_stdby
stdby_lem mpd d h = elim (Bool-cases (is_stdby d.state)) [
  | inl e ↦
      let p =
        lcd_update-IsClosed state_idle d.calls mpd (record d { state = state_idle })
          (record { closed = h e; state = refl; calls = refl }) in
      rw e (p, p)
  | inr e ↦
      let p =
        lcd_update-IsClosed state_stdby (d.calls ++ stop ∷ []) mpd
          (ask (stop ∷ []) (record d { state = state_stdby; pmenu = none }))
          (record { closed = refl; state = refl; calls = refl }) in
      rw e (p, p)
]

handle_state_change-IsClosed :
    (s : PlayState) (cs : List Call) (mpd : Mpd) (d : Daemon)
    → IsClosed s cs d
    → Returns
        (IsClosed (if is_stdby s then s else player_state mpd.player s) cs)
        (handle_state_change mpd d)
unfolding handle_state_change
handle_state_change-IsClosed s cs mpd d v =
    lcd_update-IsClosed _ cs mpd _ (ground (arith, v.closed, v.state, v.calls))

if_changed-IsClosed :
    (b : Bool) (f : Daemon → Option Daemon) (s s' : PlayState) (cs : List Call) (d : Daemon)
    → (IsClosed s cs d → Returns (IsClosed s' cs) (f d))
    → IsClosed s cs d
    → Returns (IsClosed (if b then s' else s) cs) (if_changed b f d)
if_changed-IsClosed true f s s' cs d h v = h v
if_changed-IsClosed false f s s' cs d h v = v

-- The state that shows what the player reports, or `s` if it reports nothing that the client knows.
abbrev pub reported : Player → PlayState → PlayState
reported player_play s = state_play
reported player_pause s = state_pause
reported player_stop s = state_stopped
reported player_unknown s = s

-- The state after a change, where `changed` says whether it is one of the player's state.
abbrev pub followed : Bool → Player → PlayState → PlayState
followed changed p state_stdby = state_stdby
followed false p s = s
followed true p s = reported p s

player_state-reported : (p : Player) (s : PlayState) → player_state p s ≡ reported p s
player_state-reported player_play s = refl
player_state-reported player_pause s = refl
player_state-reported player_stop s = refl
player_state-reported player_unknown s = refl

followed-new :
    (changed : Bool) (p : Player) (s : PlayState)
    → followed changed p s ≡ (if changed then (if is_stdby s then s else player_state p s) else s)
followed-new true p state_stdby = refl
followed-new true p state_idle = sym (player_state-reported p state_idle)
followed-new true p state_play = sym (player_state-reported p state_play)
followed-new true p state_pause = sym (player_state-reported p state_pause)
followed-new true p state_stopped = sym (player_state-reported p state_stopped)
followed-new false p state_stdby = refl
followed-new false p state_idle = refl
followed-new false p state_play = refl
followed-new false p state_pause = refl
followed-new false p state_stopped = refl

-- A change with no menu open and the library as it was. If the player's state is among what
-- changed and the client is not in standby, it goes to play, pause or stopped as the player does,
-- and keeps its state if the player reports none of these; otherwise it keeps its state. It opens
-- no menu and asks the player for nothing.
pub status_changed_lem :
    (c : Changes) (mpd : Mpd) (d : Daemon)
    → d.pmenu ≡ none
    → c.database ≡ false
    → Returns (IsClosed (followed c.state mpd.player d.state) d.calls) (status_changed c mpd d)
unfolding status_changed
status_changed_lem c mpd d e f =
    rw (f, e, f_state)
      (Returns->>= (IsClosed d.state d.calls) (IsClosed new d.calls) _ _
        (same c.songid d.state d (record { closed = e; state = refl; calls = refl }))
        λ d2 v2.
          Returns->>= (IsClosed new d.calls) (IsClosed new d.calls) _ _
            (if_changed-IsClosed c.state (handle_state_change mpd) d.state _ d.calls d2
              (λ v. handle_state_change-IsClosed d.state d.calls mpd d2 v) v2)
            λ d3 v3.
              Returns->>= (IsClosed new d.calls) (IsClosed new d.calls) _ _
                (same c.playlist new d3 v3) λ d4 v4. same c.elapsed_time new d4 v4)
  where
    new : PlayState
    new =
        if c.state
        then (if is_stdby d.state then d.state else player_state mpd.player d.state)
        else d.state

    f_state : followed c.state mpd.player d.state ≡ new
    f_state = followed-new c.state mpd.player d.state

    same :
        (b : Bool) (s : PlayState) (d' : Daemon)
        → IsClosed s d.calls d'
        → Returns (IsClosed s d.calls) (if_changed b (lcd_update mpd) d')
    same true s d' v = lcd_update-IsClosed s d.calls mpd d' v
    same false s d' v = v

-- DIM and BRIGHT take the place of what was due: nothing of the rows is written after them, even
-- where they had changed, and the brightness is written twice.
pub dim_lem :
    (mpd : Mpd) (d : Daemon)
    → Returns (λ d'. write_lcd d'.lcd ≡ 48 ∷ 2 ∷ 48 ∷ 2 ∷ []) (handle_command cmd_dim mpd d)
      × Returns (λ d'. write_lcd d'.lcd ≡ 48 ∷ 0 ∷ 48 ∷ 0 ∷ []) (handle_command cmd_bright mpd d)
unfolding handle_command dim write_lcd write_line
dim_lem mpd d = (refl, refl)
