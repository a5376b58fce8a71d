-- ===== src/Client/Keymap/Lookup.antt =====
-- client/efikampd.c: `map_command` as a lookup, and the table of the remote.
use efika_mpd.Base.{
  ℕ, suc, ◌≡◌, refl, ◌≢◌, ◌⊎◌, inl, inr, some, List, [], ◌∷◌, arith, take, get_elem?, All,
  All-get_elem?, Bool-cases, ◌==◌,
}
use efika_mpd.Client.{cmd_unknown}
use efika_mpd.Client.Keymap.{MapEntry, remote_key_map, map_command}

-- `map_command` finds the command of the first entry with the code, and CMD_UNKNOWN if there is
-- none.
pub map_command_lem :
    (es : List MapEntry) (code : ℕ)
    → (All (λ e. e.code ≢ code) es × (map_command es code ≡ cmd_unknown))
      ⊎ ((i : ℕ) × (e : MapEntry) × (get_elem? es i ≡ some e)
          × (e.code ≡ code)
          × All (λ e'. e'.code ≢ code) (take i es)
          × (map_command es code ≡ e.cmd))
unfolding map_command
map_command_lem [] code = inl (tt, refl)
map_command_lem (e ∷ es) code = elim (Bool-cases (e.code == code)) [
  | inl h ↦ inr (0, e, refl, ground arith, tt, ground arith)
  | inr h ↦ elim (map_command_lem es code) [
    | inl (all, f) ↦ inl ((ground arith, all), ground arith)
    | inr (i, x, at, c, before, f) ↦ inr (suc i, x, at, c, (ground arith, before), ground arith)
  ]
]

keys_found : All (λ e. map_command remote_key_map e.code ≡ e.cmd) remote_key_map
unfolding map_command
keys_found = ground arith

-- Every key of the table has its own command: no entry hides behind an earlier one.
pub map_command-remote_key_map :
    (i : ℕ) (e : MapEntry)
    → get_elem? remote_key_map i ≡ some e
    → map_command remote_key_map e.code ≡ e.cmd
map_command-remote_key_map i e at =
    All-get_elem? (λ e. map_command remote_key_map e.code ≡ e.cmd) remote_key_map i keys_found at
