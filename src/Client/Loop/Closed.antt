-- ===== src/Client/Loop/Closed.antt =====
-- client/efikampd.c: `loop` while no menu is open.
use efika_mpd.Base.{
  ℕ, ◌≡◌, refl, ◌≢◌, false, Option, none, some, List, [], ◌∷◌, ◌==◌, if◌then◌else◌, ◌>>=◌, if-cases,
  Returns, Returns->>=, Returns-map, Returns-both,
}
use efika_mpd.Client.{
  Cmd, cmd_unknown, cmd_lcd_update, cmd_lcd_flags, cmd_lcd_dim, cmd_play, cmd_pause, cmd_next,
  cmd_prev, cmd_up, cmd_down, cmd_aux, cmd_tuner, cmd_stdby, cmd_menu, cmd_1, cmd_2, cmd_3, cmd_4,
  cmd_5, cmd_6, cmd_7, cmd_8, cmd_9, cmd_0, cmd_dim, cmd_bright, cmd_quit, cmd_stop, cmd_random,
  cmd_repeat, cmd_info, cmd_select,
}
use efika_mpd.Client.Keymap.{remote_key_map, map_command}
use efika_mpd.Client.Mpd.{Mpd, prev}
use efika_mpd.Client.State.{Daemon, ask}
use efika_mpd.Client.Display.{lcd_update_status, lcd_update, update_time}
use efika_mpd.Client.Display.Rows.{Framed}
use efika_mpd.Client.Command.{
  on_prev, on_play, on_select, on_up, on_down, handle_command, Changes, status_changed,
}
use efika_mpd.Client.Command.Standby.{stdby_lem, status_changed_lem}
use efika_mpd.Client.Loop.{Input, is_unknown, handle_keys, flush, round, rounds}
use efika_mpd.Client.Loop.Spoken.{IsSpoken, Speaks, rounds-Speaks}

abbrev pub Closed : Daemon → Type 0
Closed d = d.pmenu ≡ none

lcd_update-Closed : (mpd : Mpd) (d : Daemon) → Closed d → Returns Closed (lcd_update mpd d)
unfolding lcd_update lcd_update_status
lcd_update-Closed mpd d e = rw (e, lcd_update) e

update_time-Closed :
    (i : Input) (d : Daemon) → Closed d → Returns Closed (update_time i.now i.mpd d)
unfolding update_time
update_time-Closed i d e = lcd_update-Closed i.mpd (record d { time = i.now }) e

handle_command-Closed :
    (c : Cmd) (mpd : Mpd) (d : Daemon)
    → c ≢ cmd_menu
    → Closed d
    → Returns Closed (handle_command c mpd d)
unfolding handle_command on_prev on_play on_select on_up on_down
handle_command-Closed cmd_menu mpd d h e = absurd (h refl)
handle_command-Closed cmd_next mpd d h e = rw (e, handle_command) e
handle_command-Closed cmd_prev mpd d h e =
    rw (e, on_prev) (lcd_update-Closed mpd (ask (prev ∷ []) d) e)
handle_command-Closed cmd_play mpd d h e = rw (e, on_play) e
handle_command-Closed cmd_select mpd d h e = rw (e, on_select) e
handle_command-Closed cmd_up mpd d h e = rw (e, on_up) e
handle_command-Closed cmd_down mpd d h e = rw (e, on_down) e
handle_command-Closed cmd_stdby mpd d h e =
    Returns-map _ Closed (handle_command cmd_stdby mpd d) (stdby_lem mpd d (λ s. e)).0
      (λ d' v. v.closed)
handle_command-Closed cmd_tuner mpd d h e =
    Returns-map _ Closed (handle_command cmd_tuner mpd d) (stdby_lem mpd d (λ s. e)).1
      (λ d' v. v.closed)
handle_command-Closed cmd_unknown mpd d h e = e
handle_command-Closed cmd_lcd_update mpd d h e = e
handle_command-Closed cmd_lcd_flags mpd d h e = e
handle_command-Closed cmd_lcd_dim mpd d h e = e
handle_command-Closed cmd_pause mpd d h e = e
handle_command-Closed cmd_aux mpd d h e = e
handle_command-Closed cmd_1 mpd d h e = e
handle_command-Closed cmd_2 mpd d h e = e
handle_command-Closed cmd_3 mpd d h e = e
handle_command-Closed cmd_4 mpd d h e = e
handle_command-Closed cmd_5 mpd d h e = e
handle_command-Closed cmd_6 mpd d h e = e
handle_command-Closed cmd_7 mpd d h e = e
handle_command-Closed cmd_8 mpd d h e = e
handle_command-Closed cmd_9 mpd d h e = e
handle_command-Closed cmd_0 mpd d h e = e
handle_command-Closed cmd_dim mpd d h e = e
handle_command-Closed cmd_bright mpd d h e = e
handle_command-Closed cmd_quit mpd d h e = e
handle_command-Closed cmd_stop mpd d h e = e
handle_command-Closed cmd_random mpd d h e = e
handle_command-Closed cmd_repeat mpd d h e = e
handle_command-Closed cmd_info mpd d h e = e

-- Keys other than MENU.
abbrev pub NoMenu : List ((ℕ × ℕ) × Mpd) → Type 0
NoMenu [] = Unit {0}
NoMenu (((addr, code), mpd) ∷ ks) = (map_command remote_key_map code ≢ cmd_menu) × NoMenu ks

-- No change of the player's library.
abbrev pub SameLibrary : Option (Changes × Mpd) → Type 0
SameLibrary none = Unit {0}
SameLibrary (some (c, mpd)) = c.database ≡ false

abbrev pub AllQuiet : List Input → Type 0
AllQuiet [] = Unit {0}
AllQuiet (i ∷ is) = (NoMenu i.keys × SameLibrary i.changed) × AllQuiet is

handle_keys-Closed :
    (ks : List ((ℕ × ℕ) × Mpd)) (d : Daemon)
    → NoMenu ks
    → Closed d
    → Returns Closed (handle_keys ks d)
unfolding handle_keys
handle_keys-Closed [] d h e = e
handle_keys-Closed (((addr, code), mpd) ∷ ks) d h e =
    let c = map_command remote_key_map code in
    Returns->>= Closed Closed (if is_unknown c then some d else handle_command c mpd d) _
      (if-cases (Returns Closed) (is_unknown c) (λ _. e) (λ _. handle_command-Closed c mpd d h.0 e))
      (λ d' e'. handle_keys-Closed ks d' h.1 e')

abbrev After : Daemon × List ℕ → Type 0
After r = Closed r.0

round-Closed :
    (i : Input) (d : Daemon)
    → NoMenu i.keys
    → SameLibrary i.changed
    → Closed d
    → Returns After (round i d)
unfolding round flush
round-Closed i d h k e =
    Returns->>= Closed After (if i.now.sec == d.time.sec then some d else update_time i.now i.mpd d)
      _
      (if-cases (Returns Closed) (i.now.sec == d.time.sec) (λ _. e) (λ _. update_time-Closed i d e))
      λ d1 e1.
        Returns->>= Closed After (handle_keys i.keys d1) _ (handle_keys-Closed i.keys d1 h e1)
          λ d2 e2.
            changes (flush i.writable d2) (if-cases After i.writable (λ _. e2) (λ _. e2)) i.changed
              k
  where
    changes :
        (r : Daemon × List ℕ)
        → Closed r.0
        → (o : Option (Changes × Mpd)) → SameLibrary o
        → Returns After (elim o [
          | none ↦ some r
          | some c ↦ status_changed c.0 c.1 r.0 >>= λ d4. some (d4, r.1)
        ])
    changes r e' none s = e'
    changes r e' (some (c, mpd)) s =
        Returns->>= _ After (status_changed c mpd r.0) _ (status_changed_lem c mpd r.0 e' s)
          (λ d4 v. v.closed)

rounds-Closed :
    (is : List Input) (d : Daemon) → AllQuiet is → Closed d → Returns After (rounds is d)
unfolding rounds
rounds-Closed [] d h e = e
rounds-Closed (i ∷ is) d h e =
    Returns->>= After After (round i d) _ (round-Closed i d h.0.0 h.0.1 e) λ r e'.
      if-cases (Returns After) r.0.run
        (λ _. Returns->>= After After (rounds is r.0) _ (rounds-Closed is r.0 h.1 e') (λ q w. w))
        (λ _. e')

-- While no menu is open, and from a context in form (rows of forty bytes, a marker on one of the
-- two lines, a brightness below four and flags of four bits), the client runs without a fault, however many rounds there are: whatever
-- keys come in but MENU, and whatever changes of the player but of its library, it follows no null
-- or freed pointer, opens no menu, and writes whole commands of the firmware.
pub rounds_lem :
    (is : List Input) (d : Daemon)
    → Framed d
    → Closed d
    → AllQuiet is
    → Returns (λ r. (r.0.pmenu ≡ none) × IsSpoken r.1) (rounds is d)
rounds_lem is d v e h =
    Returns-both Speaks After _ (rounds is d) (rounds-Speaks is d v) (rounds-Closed is d h e)
      (λ r s w. (w, s.1))
