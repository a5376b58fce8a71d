-- ===== src/Client/Command/Framed.antt =====
-- client/efikampd.c: the form of `lcd_t`, under every command and every change of the player.
use efika_mpd.Base.{
  ℕ, suc, ◌≤◌, ◌<◌, ◌≡◌, Bool, true, false, Option, none, some, arith, Leaves, Leaves->>=,
  Leaves-then, ◌==◌, ◌>>=◌, if-cases,
}
use efika_mpd.Client.{
  Cmd, cmd_unknown, cmd_lcd_update, cmd_lcd_flags, cmd_lcd_dim, cmd_play, cmd_pause, cmd_next,
  cmd_prev, cmd_up, cmd_down, cmd_aux, cmd_tuner, cmd_stdby, cmd_menu, cmd_1, cmd_2, cmd_3, cmd_4,
  cmd_5, cmd_6, cmd_7, cmd_8, cmd_9, cmd_0, cmd_dim, cmd_bright, cmd_quit, cmd_stop, cmd_random,
  cmd_repeat, cmd_info, cmd_select, Lcd, Menu, Handler,
}
use efika_mpd.Client.Heap.{load}
use efika_mpd.Client.Mpd.{Mpd}
use efika_mpd.Client.State.{Daemon, put_lcd}
use efika_mpd.Client.Menus.{menu_free}
use efika_mpd.Client.Menus.Fetch.{run_handler, menu_init}
use efika_mpd.Client.Display.{lcd_clear, lcd_update}
use efika_mpd.Client.Display.Rows.{IsFramed, Framed, lcd_clear-IsFramed, lcd_update-Framed}
use efika_mpd.Client.Command.{
  open_child, menu_select, play_entry, menu_play, mark, go, on_prev, on_play, on_stdby, on_menu,
  on_select, move_mark, on_up, on_down, dim, handle_command, is_stdby, same, handle_state_change,
  Changes, renew_menu, if_changed, status_changed,
}
use efika_mpd.Client.Menus.Same.{Same, run_handler-Same}

mark-Framed : (pos : ℕ) (d : Daemon) → pos ≤ 1 → Framed d → Framed (mark pos d)
mark-Framed pos d h v = record {
  row0 = v.row0;
  row1 = v.row1;
  marker = h;
  dim = v.dim;
  flags = v.flags;
}

dim-IsFramed : (value : ℕ) (l : Lcd) → value < 4 → IsFramed l → IsFramed (dim value l)
unfolding dim
dim-IsFramed value l h v = record {
  row0 = v.row0;
  row1 = v.row1;
  marker = v.marker;
  dim = h;
  flags = omega arith;
}

same-Framed : (d d' : Daemon) → d'.lcd ≡ d.lcd → Framed d → Framed d'
same-Framed d d' e v = rw e v

open_child-Framed :
    (o : Option Handler) (mpd : Mpd) (d : Daemon) → Framed d → Leaves Framed (open_child o mpd d)
unfolding open_child
open_child-Framed none mpd d v = v
open_child-Framed (some f) mpd d v =
    Leaves-then (Same d) Framed (run_handler f mpd d) _ (run_handler-Same f mpd d) λ r e.
      if-cases (Leaves Framed) r.0
        (λ _. Leaves->>= Framed (load r.1.pmenu r.1.heap) _ λ m. same-Framed d r.1 e v)
        (λ _. same-Framed d r.1 e v)

play_entry-Framed :
    (o : Option Handler) (mpd : Mpd) (d : Daemon) → Framed d → Leaves Framed (play_entry o mpd d)
unfolding play_entry
play_entry-Framed none mpd d v = v
play_entry-Framed (some f) mpd d v =
    Leaves-then (Same d) Framed (run_handler f mpd d) _ (run_handler-Same f mpd d)
      λ r e. if-cases Framed r.0 (λ _. same-Framed d r.1 e v) (λ _. same-Framed d r.1 e v)

cleared : (d : Daemon) → Framed d → Framed (put_lcd d (lcd_clear d.lcd))
cleared d v = lcd_clear-IsFramed d.lcd v

menu_select-Framed : (mpd : Mpd) (d : Daemon) → Framed d → Leaves Framed (menu_select mpd d)
unfolding menu_select
menu_select-Framed mpd d v = Leaves->>= Framed (load d.pmenu d.heap) _ λ m.
    Leaves-then Framed Framed (open_child m.handler_select mpd (put_lcd d (lcd_clear d.lcd))) _
      (open_child-Framed m.handler_select mpd _ (cleared d v))
      (λ d' w. mark-Framed 0 d' (omega arith) w)

menu_play-Framed : (mpd : Mpd) (d : Daemon) → Framed d → Leaves Framed (menu_play mpd d)
unfolding menu_play
menu_play-Framed mpd d v = Leaves->>= Framed (load d.pmenu d.heap) _ λ m.
    Leaves-then Framed Framed (play_entry m.handler_play mpd (put_lcd d (lcd_clear d.lcd))) _
      (play_entry-Framed m.handler_play mpd _ (cleared d v))
      (λ d' w. mark-Framed 0 d' (omega arith) w)

-- By the current entry of the menus, if there is one.
by_entry :
    (o : Option ℕ) (x : Option Daemon) (f : ℕ → Option Daemon)
    → Leaves Framed x
    → ((p : ℕ) → Leaves Framed (f p))
    → Leaves Framed (elim o [ none ↦ x | some p ↦ f p ])
by_entry none x f h k = h
by_entry (some p) x f h k = k p

move_mark-Framed : (a b : ℕ) (d : Daemon) → b ≤ 1 → Framed d → Framed (move_mark a b d)
move_mark-Framed a b d h v =
    if-cases Framed (d.lcd.marker_pos == a) (λ _. mark-Framed b d h v) (λ _. v)

on_stdby-Framed : (mpd : Mpd) (d : Daemon) → Framed d → Leaves Framed (on_stdby mpd d)
unfolding on_stdby
on_stdby-Framed mpd d v =
    lcd_update-Framed mpd _ (if-cases Framed (is_stdby d.state) (λ _. v) (λ _. v))

on_menu-Framed : (mpd : Mpd) (d : Daemon) → Framed d → Leaves Framed (on_menu mpd d)
unfolding on_menu
on_menu-Framed mpd d v = lcd_update-Framed mpd _ (
    if-cases Framed (same d.pmenu d.top_menu) (λ _. v)
      (λ _. mark-Framed 0 (go d.top_menu d) (omega arith) v))

on_prev-Framed : (mpd : Mpd) (d : Daemon) → Framed d → Leaves Framed (on_prev mpd d)
unfolding on_prev
on_prev-Framed mpd d v = by_entry d.pmenu _ _ (lcd_update-Framed mpd _ v) (λ p.
    Leaves->>= Framed (load (some p) d.heap) _
      λ m. lcd_update-Framed mpd (go m.parent (mark 0 d)) (mark-Framed 0 d (omega arith) v))

on_play-Framed : (mpd : Mpd) (d : Daemon) → Framed d → Leaves Framed (on_play mpd d)
unfolding on_play
on_play-Framed mpd d v = by_entry d.pmenu _ _ v (λ p. menu_play-Framed mpd d v)

on_select-Framed : (mpd : Mpd) (d : Daemon) → Framed d → Leaves Framed (on_select mpd d)
unfolding on_select
on_select-Framed mpd d v = by_entry d.pmenu _ _ v (λ p.
    Leaves-then Framed Framed (menu_select mpd d) _ (menu_select-Framed mpd d v)
      (λ d' w. lcd_update-Framed mpd d' w))

-- A step to a neighbour of the current entry.
on_step-Framed :
    (a b : ℕ) (neighbour : Menu → Option ℕ) (mpd : Mpd) (d : Daemon)
    → b ≤ 1
    → Framed d
    → Leaves Framed (elim d.pmenu [
      | none ↦ some d
      | some p ↦ load (some p) d.heap >>= λ m. elim (neighbour m) [
        | none ↦ some d
        | some q ↦ lcd_update mpd (move_mark a b (go (some q) d))
      ]
    ])
on_step-Framed a b neighbour mpd d h v = by_entry d.pmenu _ _ v (λ p.
    Leaves->>= Framed (load (some p) d.heap) _ λ m.
      by_entry (neighbour m) _ _ v
        (λ q. lcd_update-Framed mpd _ (move_mark-Framed a b (go (some q) d) h v)))

pub handle_command-Framed :
    (c : Cmd) (mpd : Mpd) (d : Daemon) → Framed d → Leaves Framed (handle_command c mpd d)
unfolding handle_command on_up on_down
handle_command-Framed cmd_next mpd d v = by_entry d.pmenu _ _ v (λ p. v)
handle_command-Framed cmd_prev mpd d v = on_prev-Framed mpd d v
handle_command-Framed cmd_play mpd d v = on_play-Framed mpd d v
handle_command-Framed cmd_stdby mpd d v = on_stdby-Framed mpd d v
handle_command-Framed cmd_menu mpd d v = on_menu-Framed mpd d v
handle_command-Framed cmd_select mpd d v = on_select-Framed mpd d v
handle_command-Framed cmd_tuner mpd d v = on_stdby-Framed mpd d v
handle_command-Framed cmd_up mpd d v = on_step-Framed 1 0 (λ m. m.prev) mpd d (omega arith) v
handle_command-Framed cmd_down mpd d v = on_step-Framed 0 1 (λ m. m.next) mpd d (omega arith) v
handle_command-Framed cmd_dim mpd d v = dim-IsFramed 2 d.lcd (omega arith) v
handle_command-Framed cmd_bright mpd d v = dim-IsFramed 0 d.lcd (omega arith) v
handle_command-Framed cmd_unknown mpd d v = v
handle_command-Framed cmd_lcd_update mpd d v = v
handle_command-Framed cmd_lcd_flags mpd d v = v
handle_command-Framed cmd_lcd_dim mpd d v = v
handle_command-Framed cmd_pause mpd d v = v
handle_command-Framed cmd_aux mpd d v = v
handle_command-Framed cmd_1 mpd d v = v
handle_command-Framed cmd_2 mpd d v = v
handle_command-Framed cmd_3 mpd d v = v
handle_command-Framed cmd_4 mpd d v = v
handle_command-Framed cmd_5 mpd d v = v
handle_command-Framed cmd_6 mpd d v = v
handle_command-Framed cmd_7 mpd d v = v
handle_command-Framed cmd_8 mpd d v = v
handle_command-Framed cmd_9 mpd d v = v
handle_command-Framed cmd_0 mpd d v = v
handle_command-Framed cmd_quit mpd d v = v
handle_command-Framed cmd_stop mpd d v = v
handle_command-Framed cmd_random mpd d v = v
handle_command-Framed cmd_repeat mpd d v = v
handle_command-Framed cmd_info mpd d v = v

handle_state_change-Framed :
    (mpd : Mpd) (d : Daemon) → Framed d → Leaves Framed (handle_state_change mpd d)
unfolding handle_state_change
handle_state_change-Framed mpd d v =
    lcd_update-Framed mpd _ (if-cases Framed (is_stdby d.state) (λ _. v) (λ _. v))

renew_menu-Framed : (d : Daemon) → Framed d → Leaves Framed (renew_menu d)
unfolding renew_menu
renew_menu-Framed d v = Leaves->>= Framed d.top_menu _ λ p.
    Leaves->>= Framed (menu_free (suc d.heap.fresh) p d.heap) _
      λ r. Leaves->>= Framed (menu_init r.1) _ λ s. v

if_changed-Framed :
    (b : Bool) (f : Daemon → Option Daemon) (d : Daemon)
    → ((d : Daemon) → Framed d → Leaves Framed (f d))
    → Framed d
    → Leaves Framed (if_changed b f d)
if_changed-Framed true f d h v = h d v
if_changed-Framed false f d h v = v

pub status_changed-Framed :
    (c : Changes) (mpd : Mpd) (d : Daemon) → Framed d → Leaves Framed (status_changed c mpd d)
unfolding status_changed
status_changed-Framed c mpd d v =
    Leaves-then Framed Framed (if_changed c.database renew_menu d) _
      (if_changed-Framed c.database renew_menu d renew_menu-Framed v)
      λ d1 v1.
        by_entry d1.pmenu _ _
          (Leaves-then Framed Framed (if_changed c.songid (lcd_update mpd) d1) _
            (if_changed-Framed c.songid _ d1 (lcd_update-Framed mpd) v1)
            λ d2 v2.
              Leaves-then Framed Framed (if_changed c.state (handle_state_change mpd) d2) _
                (if_changed-Framed c.state _ d2 (handle_state_change-Framed mpd) v2)
                λ d3 v3.
                  Leaves-then Framed Framed (if_changed c.playlist (lcd_update mpd) d3) _
                    (if_changed-Framed c.playlist _ d3 (lcd_update-Framed mpd) v3)
                    λ d4 v4. if_changed-Framed c.elapsed_time _ d4 (lcd_update-Framed mpd) v4)
          (λ p. v1)
