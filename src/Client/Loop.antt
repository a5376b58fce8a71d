-- ===== src/Client/Loop.antt =====
-- client/efikampd.c: `loop`. What the clock, the serial line and libmpd give in one round is an
-- `Input`; a read is taken to give both bytes of a key. What is written to the serial line is the
-- second result.
pub mod Spoken
pub mod Closed
use efika_mpd.Base.{
  ℕ, suc, ◌+◌, Bool, true, false, Option, none, some, List, [], ◌∷◌, ◌++◌, ◌==◌, if◌then◌else◌,
  ◌>>=◌, bit_is_set,
}
use efika_mpd.Client.{
  Cmd, cmd_unknown, state_idle, Lcd, ShortTime, lcd_update_line1, lcd_update_line2, lcd_update_dim,
}
use efika_mpd.Client.Keymap.{remote_key_map, map_command}
use efika_mpd.Client.Mpd.{Mpd}
use efika_mpd.Client.State.{Daemon, put_lcd}
use efika_mpd.Client.Menus.{menu_free}
use efika_mpd.Client.Display.{lcd_update, update_time}
use efika_mpd.Client.Command.{handle_command, Changes, status_changed}

-- The pairs of bytes that are read, each with what libmpd answers to its command.
pub record Input : Type 0 where
  pub now : ShortTime
  pub mpd : Mpd
  pub keys : List ((ℕ × ℕ) × Mpd)
  pub writable : Bool
  pub changed : Option (Changes × Mpd)

abbrev pub is_unknown : Cmd → Bool
is_unknown cmd_unknown = true
is_unknown c = false

-- A key that is not in the map is only logged.
unfoldable pub handle_keys : List ((ℕ × ℕ) × Mpd) → Daemon → Option Daemon
handle_keys [] d = some d
handle_keys (((addr, code), mpd) ∷ ks) d =
    let cmd = map_command remote_key_map code in
    let handled = handle_command cmd mpd d in
    (if is_unknown cmd then some d else handled) >>= handle_keys ks

-- What the loop over `line` writes for one line.
unfoldable pub write_line : ℕ → List ℕ → Lcd → List ℕ
write_line line buffer l =
    (if bit_is_set l.update_flags line then (16 + line) ∷ buffer else [])
    ++ (if bit_is_set l.update_flags lcd_update_dim then 48 ∷ l.dim_value ∷ [] else [])

unfoldable pub write_lcd : Lcd → List ℕ
write_lcd l = write_line 0 l.buffer0 l ++ write_line 1 l.buffer1 l

unfoldable pub flush : Bool → Daemon → Daemon × List ℕ
flush writable d =
    if writable then (put_lcd d (record (d.lcd) { update_flags = 0 }), write_lcd d.lcd) else (d, [])

-- The body of the loop.
unfoldable pub round : Input → Daemon → Option (Daemon × List ℕ)
round i d = (if i.now.sec == d.time.sec then some d else update_time i.now i.mpd d) >>= λ d1.
    handle_keys i.keys d1 >>= λ d2.
    let (d3, out) = flush i.writable d2 in
    elim i.changed [
      | none ↦ some (d3, out)
      | some c ↦ status_changed c.0 c.1 d3 >>= λ d4. some (d4, out)
    ]

-- The loop, over the inputs of its rounds; it ends early when `run` is cleared.
unfoldable pub rounds : List Input → Daemon → Option (Daemon × List ℕ)
rounds [] d = some (d, [])
rounds (i ∷ is) d = round i d >>= λ r.
    let more = rounds is r.0 >>= λ s. some (s.0, r.1 ++ s.1) in if r.0.run then more else some r

unfoldable pub loop : Mpd → List Input → Daemon → Option (Daemon × List ℕ)
loop mpd is d = lcd_update mpd (record d { state = state_idle; run = true }) >>= λ d1.
    rounds is d1 >>= λ r. r.0.top_menu >>= λ p.
    menu_free (suc r.0.heap.fresh) p r.0.heap >>= λ s. some (record (r.0) { heap = s.1 }, r.1)
