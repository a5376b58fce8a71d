-- ===== src/Client/Command.antt =====
-- client/efikampd.c: the commands of the remote, and what follows a change of the player.
pub mod Framed
pub mod Moves
pub mod Standby
pub mod Renew
pub mod Sound
use efika_mpd.Base.{
  ℕ, suc, Bool, true, false, not, ◌&&◌, Option, none, some, List, [], ◌∷◌, ◌==◌, if◌then◌else◌,
  ◌>>=◌,
}
use efika_mpd.Client.{
  Cmd, cmd_play, cmd_next, cmd_prev, cmd_up, cmd_down, cmd_tuner, cmd_stdby, cmd_menu, cmd_dim,
  cmd_bright, cmd_quit, cmd_stop, cmd_random, cmd_select, PlayState, state_stdby, state_idle,
  state_play, state_pause, state_stopped, Lcd, Menu, Handler,
}
use efika_mpd.Client.Heap.{load}
use efika_mpd.Client.Mpd.{
  Player, player_play, player_pause, player_stop, player_unknown, Mpd, play, pause, next, prev,
  stop, set_random,
}
use efika_mpd.Client.State.{Daemon, ask, put_lcd}
use efika_mpd.Client.Menus.{menu_free}
use efika_mpd.Client.Menus.Fetch.{put_heap, run_handler, menu_init}
use efika_mpd.Client.Display.{lcd_clear, lcd_update}

abbrev pub is_play : PlayState → Bool
is_play state_play = true
is_play s = false

abbrev pub is_stdby : PlayState → Bool
is_stdby state_stdby = true
is_stdby s = false

abbrev pub same : Option ℕ → Option ℕ → Bool
same none none = true
same (some p) (some q) = p == q
same none (some q) = false
same (some p) none = false

abbrev pub mark : ℕ → Daemon → Daemon
mark pos d = put_lcd d (record (d.lcd) { marker_pos = pos })

abbrev pub go : Option ℕ → Daemon → Daemon
go p d = record d { pmenu = p }

-- `ctx->pmenu = ctx->pmenu->child` if the handler says that the menu stays open.
unfoldable pub open_child : Option Handler → Mpd → Daemon → Option Daemon
open_child none mpd d = some d
open_child (some f) mpd d = run_handler f mpd d >>= λ r.
    if r.0 then (load r.1.pmenu r.1.heap >>= λ m. some (go m.child r.1)) else some (go none r.1)

unfoldable pub menu_select : Mpd → Daemon → Option Daemon
menu_select mpd d = load d.pmenu d.heap >>= λ m.
    open_child m.handler_select mpd (put_lcd d (lcd_clear d.lcd)) >>= λ d'. some (mark 0 d')

unfoldable pub play_entry : Option Handler → Mpd → Daemon → Option Daemon
play_entry none mpd d = some d
play_entry (some f) mpd d = run_handler f mpd d >>= λ r. some (if r.0 then r.1 else go none r.1)

unfoldable pub menu_play : Mpd → Daemon → Option Daemon
menu_play mpd d = load d.pmenu d.heap >>= λ m.
    play_entry m.handler_play mpd (put_lcd d (lcd_clear d.lcd)) >>= λ d'. some (mark 0 d')

unfoldable pub on_prev : Mpd → Daemon → Option Daemon
on_prev mpd d = elim d.pmenu [
  | none ↦ lcd_update mpd (ask (prev ∷ []) d)
  | some p ↦ load (some p) d.heap >>= λ m. lcd_update mpd (go m.parent (mark 0 d))
]

unfoldable pub on_play : Mpd → Daemon → Option Daemon
on_play mpd d = elim d.pmenu [
  | none ↦ some (ask ((if is_play d.state then pause else play) ∷ []) d)
  | some p ↦ menu_play mpd d
]

unfoldable pub on_stdby : Mpd → Daemon → Option Daemon
on_stdby mpd d = lcd_update mpd (
    if is_stdby d.state
    then record d { state = state_idle }
    else ask (stop ∷ []) (record d { state = state_stdby; pmenu = none }))

unfoldable pub on_menu : Mpd → Daemon → Option Daemon
on_menu mpd d = lcd_update mpd (if same d.pmenu d.top_menu then d else mark 0 (go d.top_menu d))

unfoldable pub on_select : Mpd → Daemon → Option Daemon
on_select mpd d = elim d.pmenu [
  | none ↦ some d
  | some p ↦ menu_select mpd d >>= λ d'. lcd_update mpd d'
]

-- Where the marker goes from position `a`, if it stands there.
abbrev pub move_mark : ℕ → ℕ → Daemon → Daemon
move_mark a b d = if d.lcd.marker_pos == a then mark b d else d

unfoldable pub on_up : Mpd → Daemon → Option Daemon
on_up mpd d = elim d.pmenu [
  | none ↦ some d
  | some p ↦ load (some p) d.heap >>= λ m. elim m.prev [
    | none ↦ some d
    | some q ↦ lcd_update mpd (move_mark 1 0 (go (some q) d))
  ]
]

unfoldable pub on_down : Mpd → Daemon → Option Daemon
on_down mpd d = elim d.pmenu [
  | none ↦ some d
  | some p ↦ load (some p) d.heap >>= λ m. elim m.next [
    | none ↦ some d
    | some q ↦ lcd_update mpd (move_mark 0 1 (go (some q) d))
  ]
]

-- `update_flags = BV(LCD_UPDATE_DIM)`
unfoldable pub dim : ℕ → Lcd → Lcd
dim value l = record l { dim_value = value; update_flags = 8 }

unfoldable pub handle_command : Cmd → Mpd → Daemon → Option Daemon
handle_command cmd_next mpd d = elim d.pmenu [ none ↦ some (ask (next ∷ []) d) | some p ↦ some d ]
handle_command cmd_prev mpd d = on_prev mpd d
handle_command cmd_play mpd d = on_play mpd d
handle_command cmd_tuner mpd d = on_stdby mpd d
handle_command cmd_stdby mpd d = on_stdby mpd d
handle_command cmd_stop mpd d = some (ask (stop ∷ []) (record d { state = state_stopped }))
handle_command cmd_quit mpd d = some (record d { run = false })
handle_command cmd_random mpd d = some (ask (set_random (not mpd.random) ∷ []) d)
handle_command cmd_menu mpd d = on_menu mpd d
handle_command cmd_select mpd d = on_select mpd d
handle_command cmd_up mpd d = on_up mpd d
handle_command cmd_down mpd d = on_down mpd d
handle_command cmd_dim mpd d = some (put_lcd d (dim 2 d.lcd))
handle_command cmd_bright mpd d = some (put_lcd d (dim 0 d.lcd))
handle_command c mpd d = some d

-- The state after a report of the player.
abbrev pub player_state : Player → PlayState → PlayState
player_state player_play s = state_play
player_state player_pause s = state_pause
player_state player_stop s = state_stopped
player_state player_unknown s = s

unfoldable pub handle_state_change : Mpd → Daemon → Option Daemon
handle_state_change mpd d =
    lcd_update mpd
      (if is_stdby d.state then d else record d { state = player_state mpd.player d.state })

-- The bits of `ChangedStatusType` that `status_changed` looks at, but for RANDOM, which it logs.
pub record Changes : Type 0 where
  pub database : Bool
  pub songid : Bool
  pub state : Bool
  pub playlist : Bool
  pub elapsed_time : Bool

-- `menu_free(top_menu); top_menu = menu_init(); ctx.pmenu = NULL;`
unfoldable pub renew_menu : Daemon → Option Daemon
renew_menu d = d.top_menu >>= λ p. menu_free (suc d.heap.fresh) p d.heap >>= λ r.
    menu_init r.1 >>= λ s. some (record d { heap = s.1; top_menu = some s.0; pmenu = none })

abbrev pub if_changed : Bool → (Daemon → Option Daemon) → Daemon → Option Daemon
if_changed true f d = f d
if_changed false f d = some d

unfoldable pub status_changed : Changes → Mpd → Daemon → Option Daemon
status_changed c mpd d = if_changed c.database renew_menu d >>= λ d1. elim d1.pmenu [
  | some p ↦ some d1
  | none ↦ if_changed c.songid (lcd_update mpd) d1 >>= λ d2.
      if_changed c.state (handle_state_change mpd) d2 >>= λ d3.
      if_changed c.playlist (lcd_update mpd) d3 >>= λ d4.
      if_changed c.elapsed_time (lcd_update mpd) d4
]
