-- ===== src/Client/Keymap.antt =====
-- client/efikampd.c: `remote_key_map` and `map_command`.
pub mod Lookup
use efika_mpd.Base.{ℕ, ◌≡◌, List, [], ◌∷◌, ◌==◌, if◌then◌else◌, arith}
use efika_mpd.Client.{
  Cmd, cmd_unknown, cmd_play, cmd_next, cmd_prev, cmd_up, cmd_down, cmd_aux, cmd_tuner, cmd_stdby,
  cmd_menu, cmd_1, cmd_2, cmd_3, cmd_4, cmd_5, cmd_6, cmd_7, cmd_8, cmd_9, cmd_0, cmd_dim,
  cmd_bright, cmd_info, cmd_select,
}

-- `map_entry_t`.
pub record MapEntry : Type 0 where
  pub code : ℕ
  pub cmd : Cmd

abbrev pub entry : ℕ → Cmd → MapEntry
entry code cmd = record { code = code; cmd = cmd }

abbrev pub remote_key_map : List MapEntry
remote_key_map =
    entry 70 cmd_play
    ∷ entry 77 cmd_next
    ∷ entry 78 cmd_prev
    ∷ entry 106 cmd_up
    ∷ entry 107 cmd_down
    ∷ entry 113 cmd_aux
    ∷ entry 114 cmd_tuner
    ∷ entry 66 cmd_stdby
    ∷ entry 72 cmd_menu
    ∷ entry 91 cmd_1
    ∷ entry 92 cmd_2
    ∷ entry 93 cmd_3
    ∷ entry 94 cmd_4
    ∷ entry 95 cmd_5
    ∷ entry 96 cmd_6
    ∷ entry 97 cmd_7
    ∷ entry 98 cmd_8
    ∷ entry 99 cmd_9
    ∷ entry 100 cmd_0
    ∷ entry 76 cmd_dim
    ∷ entry 75 cmd_bright
    ∷ entry 121 cmd_info
    ∷ entry 87 cmd_select
    ∷ []

-- The loop of `map_command`, over the rest of the table.
unfoldable pub map_command : List MapEntry → ℕ → Cmd
map_command [] code = cmd_unknown
map_command (e ∷ es) code = if e.code == code then e.cmd else map_command es code
