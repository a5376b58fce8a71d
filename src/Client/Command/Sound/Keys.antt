-- ===== src/Client/Command/Sound/Keys.antt =====
-- client/efikampd.c: the commands of the remote on menus that are sound.
use efika_mpd.Base.{
  ℕ, ◌≤◌, ◌≡◌, refl, ◌≢◌, Bool, Option, none, some, arith, ◌==◌, subst, sym, ap, ◌∙◌, Returns,
  Returns->>=, if-cases,
}
use efika_mpd.Client.{
  Cmd, cmd_unknown, cmd_lcd_update, cmd_lcd_flags, cmd_lcd_dim, cmd_play, cmd_pause, cmd_next,
  cmd_prev, cmd_up, cmd_down, cmd_aux, cmd_tuner, cmd_stdby, cmd_menu, cmd_1, cmd_2, cmd_3, cmd_4,
  cmd_5, cmd_6, cmd_7, cmd_8, cmd_9, cmd_0, cmd_dim, cmd_bright, cmd_quit, cmd_stop, cmd_random,
  cmd_repeat, cmd_info, cmd_select, Menu, Handler, fetch_songs,
}
use efika_mpd.Client.Heap.{load}
use efika_mpd.Client.Mpd.{Mpd}
use efika_mpd.Client.State.{Daemon, put_lcd}
use efika_mpd.Client.Menus.Fetch.{run_handler}
use efika_mpd.Client.Display.{lcd_clear}
use efika_mpd.Client.Menus.Tree.{Inside, Into, Into-Inside, IsClosed}
use efika_mpd.Client.Menus.Tree.Placed.{IsFull, IsPlaced, Handled, IsAt, bind_some, load-IsAt}
use efika_mpd.Client.Menus.Tree.Handlers.{run_handler-Handled}
use efika_mpd.Client.Command.{
  open_child, menu_select, play_entry, menu_play, go, on_prev, on_play, on_stdby, on_menu,
  on_select, move_mark, on_up, on_down, dim, handle_command, is_stdby, same,
}
use efika_mpd.Client.Command.Sound.{
  IsSoundIn, IsSound, by_pointer, stand, go-IsPlaced, first_line-IsSoundIn, same-IsSoundIn,
  lcd_update-IsSound,
}

abbrev IsSomewhere : Daemon → Type 0
IsSomewhere d = (s : ℕ → Bool) × IsPlaced s d

open_child-IsSomewhere :
    (o : Option Handler) (mpd : Mpd) (s : ℕ → Bool) (d : Daemon) (p : ℕ) (m : Menu)
    → IsFull mpd
    → IsAt s d p m
    → (m.parent ≡ none → o ≢ some fetch_songs)
    → Returns IsSomewhere (open_child o mpd d)
unfolding open_child
open_child-IsSomewhere none mpd s d p m u w n = (s, w.placed)
open_child-IsSomewhere (some f) mpd s d p m u w n =
    Returns->>= (Handled d) IsSomewhere (run_handler f mpd d) _
      (run_handler-Handled f mpd s d p m u w (λ e z. n e (ap some z)))
      λ r h.
        let (s', v) = h.0 in
        let (m', w') = stand p v (h.1 ∙ w.here) in
        if-cases (Returns IsSomewhere) r.0
          (λ _.
            bind_some IsSomewhere (load r.1.pmenu r.1.heap) _ (load-IsAt w')
              (s', go-IsPlaced m'.child v w'.held.child))
          (λ _. (s', go-IsPlaced none v tt))

play_entry-IsSomewhere :
    (o : Option Handler) (mpd : Mpd) (s : ℕ → Bool) (d : Daemon) (p : ℕ) (m : Menu)
    → IsFull mpd
    → IsAt s d p m
    → (m.parent ≡ none → o ≢ some fetch_songs)
    → Returns IsSomewhere (play_entry o mpd d)
unfolding play_entry
play_entry-IsSomewhere none mpd s d p m u w n = (s, w.placed)
play_entry-IsSomewhere (some f) mpd s d p m u w n =
    Returns->>= (Handled d) IsSomewhere (run_handler f mpd d) _
      (run_handler-Handled f mpd s d p m u w (λ e z. n e (ap some z)))
      λ r h. if-cases IsSomewhere r.0 (λ _. h.0) (λ _. (h.0.0, go-IsPlaced none h.0.1 tt))

-- The entry is the same when the rows are cleared.
cleared_IsAt :
    {s : ℕ → Bool} {d : Daemon} {p : ℕ} {m : Menu}
    → IsAt s d p m
    → IsAt s (put_lcd d (lcd_clear d.lcd)) p m
cleared_IsAt w = record {
  placed = record { closed = w.placed.closed; pmenu = w.placed.pmenu; top = w.placed.top };
  here = w.here;
  member = w.member;
  cell = w.cell;
  held = w.held;
}

menu_select-IsSound :
    (mpd : Mpd) (s : ℕ → Bool) (d : Daemon) (p : ℕ) (m : Menu)
    → IsFull mpd
    → IsAt s d p m
    → Returns IsSound (menu_select mpd d)
unfolding menu_select
menu_select-IsSound mpd s d p m u w = bind_some IsSound (load d.pmenu d.heap) _ (load-IsAt w) (
    Returns->>= IsSomewhere IsSound (open_child m.handler_select mpd (put_lcd d (lcd_clear d.lcd)))
      _
      (open_child-IsSomewhere m.handler_select mpd s _ p m u (cleared_IsAt w)
        (λ e. (w.held.above e).0))
      λ d' v. (v.0, first_line-IsSoundIn v.1))

menu_play-IsSound :
    (mpd : Mpd) (s : ℕ → Bool) (d : Daemon) (p : ℕ) (m : Menu)
    → IsFull mpd
    → IsAt s d p m
    → Returns IsSound (menu_play mpd d)
unfolding menu_play
menu_play-IsSound mpd s d p m u w = bind_some IsSound (load d.pmenu d.heap) _ (load-IsAt w) (
    Returns->>= IsSomewhere IsSound (play_entry m.handler_play mpd (put_lcd d (lcd_clear d.lcd))) _
      (play_entry-IsSomewhere m.handler_play mpd s _ p m u (cleared_IsAt w)
        (λ e. (w.held.above e).1))
      λ d' v. (v.0, first_line-IsSoundIn v.1))

on_prev-IsSound :
    (mpd : Mpd) (s : ℕ → Bool) (d : Daemon) → IsSoundIn s d → Returns IsSound (on_prev mpd d)
unfolding on_prev
on_prev-IsSound mpd s d v =
    by_pointer IsSound d.pmenu _ _
      (λ _.
        lcd_update-IsSound s mpd _
          (same-IsSoundIn (record { heap = refl; pmenu = refl; top = refl; marker = refl }) v))
      (λ p e.
        let (m, w) = stand p v.placed e in
        bind_some IsSound (load (some p) d.heap) _ (ap (λ o. load o d.heap) (sym e) ∙ load-IsAt w) (
          lcd_update-IsSound s mpd _
            (first_line-IsSoundIn (go-IsPlaced m.parent v.placed w.held.parent))))

on_play-IsSound :
    (mpd : Mpd) (s : ℕ → Bool) (d : Daemon)
    → IsFull mpd
    → IsSoundIn s d
    → Returns IsSound (on_play mpd d)
unfolding on_play
on_play-IsSound mpd s d u v =
    by_pointer IsSound d.pmenu _ _
      (λ _. (s, same-IsSoundIn (record { heap = refl; pmenu = refl; top = refl; marker = refl }) v))
      (λ p e. let (m, w) = stand p v.placed e in menu_play-IsSound mpd s d p m u w)

on_select-IsSound :
    (mpd : Mpd) (s : ℕ → Bool) (d : Daemon)
    → IsFull mpd
    → IsSoundIn s d
    → Returns IsSound (on_select mpd d)
unfolding on_select
on_select-IsSound mpd s d u v =
    by_pointer IsSound d.pmenu _ _ (λ _. (s, v))
      (λ p e.
        let (m, w) = stand p v.placed e in
        Returns->>= IsSound IsSound (menu_select mpd d) _ (menu_select-IsSound mpd s d p m u w)
          λ d' v'. lcd_update-IsSound v'.0 mpd d' v'.1)

-- With no menu open, wherever the marker is.
closed-IsSoundIn :
    {s : ℕ → Bool} {d d' : Daemon}
    → IsSoundIn s d
    → d'.heap ≡ d.heap
    → d'.top_menu ≡ d.top_menu
    → d'.lcd ≡ d.lcd
    → d'.pmenu ≡ none
    → IsSoundIn s d'
closed-IsSoundIn {s = s} v h t l e = record {
  placed = record {
    closed = subst (IsClosed s) (sym h) v.placed.closed;
    pmenu = subst (Inside s) (sym e) tt;
    top = subst (Into s) (sym t) v.placed.top;
  };
  low = subst (λ x. x.marker_pos ≤ 1) (sym l) v.low;
  above = λ p m a b n. ground (arith, a, e);
}

on_stdby-IsSound :
    (mpd : Mpd) (s : ℕ → Bool) (d : Daemon) → IsSoundIn s d → Returns IsSound (on_stdby mpd d)
unfolding on_stdby
on_stdby-IsSound mpd s d v = lcd_update-IsSound s mpd _ (
    if-cases (IsSoundIn s) (is_stdby d.state)
      (λ _. same-IsSoundIn (record { heap = refl; pmenu = refl; top = refl; marker = refl }) v)
      (λ _. closed-IsSoundIn v refl refl refl refl))

on_menu-IsSound :
    (mpd : Mpd) (s : ℕ → Bool) (d : Daemon) → IsSoundIn s d → Returns IsSound (on_menu mpd d)
unfolding on_menu
on_menu-IsSound mpd s d v = lcd_update-IsSound s mpd _ (
    if-cases (IsSoundIn s) (same d.pmenu d.top_menu) (λ _. v)
      (λ _.
        first_line-IsSoundIn
          (go-IsPlaced d.top_menu v.placed (Into-Inside s d.top_menu v.placed.top))))

up-IsSoundIn :
    (s : ℕ → Bool) (d : Daemon) (q : ℕ)
    → IsSoundIn s d
    → Inside s (some q)
    → IsSoundIn s (move_mark 1 0 (go (some q) d))
up-IsSoundIn s d q v h = record {
  placed =
      if-cases (IsPlaced s) (d.lcd.marker_pos == 1)
        (λ _. (first_line-IsSoundIn (go-IsPlaced (some q) v.placed h)).placed)
        (λ _. go-IsPlaced (some q) v.placed h);
  low = ground (arith, v.low);
  above = λ p m a b n. absurd (ground (arith, v.low, n));
}

down-IsSoundIn :
    (s : ℕ → Bool) (d : Daemon) (p q : ℕ) (m : Menu)
    → IsSoundIn s d
    → IsAt s d p m
    → m.next ≡ some q
    → IsSoundIn s (move_mark 0 1 (go (some q) d))
down-IsSoundIn s d p q m v w e =
    let moved = go-IsPlaced (some q) v.placed (subst (Inside s) e w.held.next) in
    record {
      placed =
          if-cases (IsPlaced s) (d.lcd.marker_pos == 0)
            (λ _. record { closed = moved.closed; pmenu = moved.pmenu; top = moved.top })
            (λ _. moved);
      low = ground (arith, v.low);
      above = λ k n a b z. w.placed.closed.back p q m n w.member w.cell e (ground (arith, a, b));
    }

on_up-IsSound :
    (mpd : Mpd) (s : ℕ → Bool) (d : Daemon) → IsSoundIn s d → Returns IsSound (on_up mpd d)
unfolding on_up
on_up-IsSound mpd s d v =
    by_pointer IsSound d.pmenu _ _ (λ _. (s, v))
      (λ p e.
        let (m, w) = stand p v.placed e in
        bind_some IsSound (load (some p) d.heap) _ (ap (λ o. load o d.heap) (sym e) ∙ load-IsAt w) (
          by_pointer IsSound m.prev _ _ (λ _. (s, v))
            (λ q f.
              lcd_update-IsSound s mpd _ (up-IsSoundIn s d q v (subst (Inside s) f w.held.prev)))))

on_down-IsSound :
    (mpd : Mpd) (s : ℕ → Bool) (d : Daemon) → IsSoundIn s d → Returns IsSound (on_down mpd d)
unfolding on_down
on_down-IsSound mpd s d v =
    by_pointer IsSound d.pmenu _ _ (λ _. (s, v))
      (λ p e.
        let (m, w) = stand p v.placed e in
        bind_some IsSound (load (some p) d.heap) _ (ap (λ o. load o d.heap) (sym e) ∙ load-IsAt w) (
          by_pointer IsSound m.next _ _ (λ _. (s, v))
            (λ q f. lcd_update-IsSound s mpd _ (down-IsSoundIn s d p q m v w f))))

-- A part of the daemon that has nothing to do with the menus is another.
pub kept-IsSound :
    {d : Daemon} (d' : Daemon)
    → IsSound d
    → d'.heap ≡ d.heap
    → d'.pmenu ≡ d.pmenu
    → d'.top_menu ≡ d.top_menu
    → d'.lcd.marker_pos ≡ d.lcd.marker_pos
    → IsSound d'
kept-IsSound d' (s, v) h p t k =
    (s, same-IsSoundIn (record { heap = h; pmenu = p; top = t; marker = k }) v)

-- While libmpd gives full answers, every command of the remote runs without a fault on sound
-- menus, and leaves them sound: the links of the menus lead to live entries, whatever has been
-- opened, and the marker is on the second line only below another entry.
pub handle_command-IsSound :
    (c : Cmd) (mpd : Mpd) (d : Daemon)
    → IsFull mpd
    → IsSound d
    → Returns IsSound (handle_command c mpd d)
unfolding handle_command dim
handle_command-IsSound cmd_next mpd d u v =
    by_pointer IsSound d.pmenu _ _ (λ _. kept-IsSound _ v refl refl refl refl) (λ p e. v)
handle_command-IsSound cmd_prev mpd d u v = on_prev-IsSound mpd v.0 d v.1
handle_command-IsSound cmd_play mpd d u v = on_play-IsSound mpd v.0 d u v.1
handle_command-IsSound cmd_stdby mpd d u v = on_stdby-IsSound mpd v.0 d v.1
handle_command-IsSound cmd_menu mpd d u v = on_menu-IsSound mpd v.0 d v.1
handle_command-IsSound cmd_select mpd d u v = on_select-IsSound mpd v.0 d u v.1
handle_command-IsSound cmd_tuner mpd d u v = on_stdby-IsSound mpd v.0 d v.1
handle_command-IsSound cmd_up mpd d u v = on_up-IsSound mpd v.0 d v.1
handle_command-IsSound cmd_down mpd d u v = on_down-IsSound mpd v.0 d v.1
handle_command-IsSound cmd_dim mpd d u v = kept-IsSound _ v refl refl refl refl
handle_command-IsSound cmd_bright mpd d u v = kept-IsSound _ v refl refl refl refl
handle_command-IsSound cmd_quit mpd d u v = kept-IsSound _ v refl refl refl refl
handle_command-IsSound cmd_stop mpd d u v = kept-IsSound _ v refl refl refl refl
handle_command-IsSound cmd_random mpd d u v = kept-IsSound _ v refl refl refl refl
handle_command-IsSound cmd_unknown mpd d u v = v
handle_command-IsSound cmd_lcd_update mpd d u v = v
handle_command-IsSound cmd_lcd_flags mpd d u v = v
handle_command-IsSound cmd_lcd_dim mpd d u v = v
handle_command-IsSound cmd_pause mpd d u v = v
handle_command-IsSound cmd_aux mpd d u v = v
handle_command-IsSound cmd_1 mpd d u v = v
handle_command-IsSound cmd_2 mpd d u v = v
handle_command-IsSound cmd_3 mpd d u v = v
handle_command-IsSound cmd_4 mpd d u v = v
handle_command-IsSound cmd_5 mpd d u v = v
handle_command-IsSound cmd_6 mpd d u v = v
handle_command-IsSound cmd_7 mpd d u v = v
handle_command-IsSound cmd_8 mpd d u v = v
handle_command-IsSound cmd_9 mpd d u v = v
handle_command-IsSound cmd_0 mpd d u v = v
handle_command-IsSound cmd_repeat mpd d u v = v
handle_command-IsSound cmd_info mpd d u v = v
