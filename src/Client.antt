-- ===== src/Client.antt =====
-- The daemon client/efikampd.c and its header client/efika.h. This file has the header's types.
pub mod Mpd
pub mod Text
pub mod Keymap
pub mod Heap
pub mod State
pub mod Menus
pub mod Display
pub mod Command
pub mod Loop
pub mod Start
pub mod Ir
pub mod Tests
use efika_mpd.Base.{ℕ, Option, List}

abbrev pub line_length : ℕ
line_length = 40

-- `cmd_t`.
pub data Cmd : Type 0 where
  cmd_unknown cmd_lcd_update cmd_lcd_flags cmd_lcd_dim cmd_play cmd_pause cmd_next cmd_prev : Cmd
  cmd_up cmd_down cmd_aux cmd_tuner cmd_stdby cmd_menu : Cmd
  cmd_1 cmd_2 cmd_3 cmd_4 cmd_5 cmd_6 cmd_7 cmd_8 cmd_9 cmd_0 : Cmd
  cmd_dim cmd_bright cmd_quit cmd_stop cmd_random cmd_repeat cmd_info cmd_select : Cmd

-- `state_t`.
pub data PlayState : Type 0 where
  state_stdby state_idle state_play state_pause state_stopped : PlayState

-- `lcd_update_flags_t`: the bits of `update_flags`.
abbrev pub lcd_update_line1 : ℕ
lcd_update_line1 = 0

abbrev pub lcd_update_line2 : ℕ
lcd_update_line2 = 1

abbrev pub lcd_update_flags : ℕ
lcd_update_flags = 2

abbrev pub lcd_update_dim : ℕ
lcd_update_dim = 3

-- `lcd_t`; the two rows of `buffer` are two fields.
pub record Lcd : Type 0 where
  pub update_flags : ℕ
  pub mode_flags : ℕ
  pub marker_pos : ℕ
  pub dim_value : ℕ
  pub buffer0 : List ℕ
  pub buffer1 : List ℕ

-- The functions that `handler_select` and `handler_play` point to.
pub data Handler : Type 0 where
  select_song play_album fetch_songs fetch_albums fetch_artists fetch_radio : Handler

-- `menu_t`; a pointer is the number of a cell of the heap, and `none` is null. A text is without
-- its terminator.
pub record Menu : Type 0 where
  pub file : Option (List ℕ)
  pub text : Option (List ℕ)
  pub next : Option ℕ
  pub prev : Option ℕ
  pub child : Option ℕ
  pub parent : Option ℕ
  pub handler_select : Option Handler
  pub handler_play : Option Handler

pub record ShortTime : Type 0 where
  pub hrs : ℕ
  pub min : ℕ
  pub sec : ℕ
