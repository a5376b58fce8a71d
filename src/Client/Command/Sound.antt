-- ===== src/Client/Command/Sound.antt =====
-- client/efikampd.c: what `ctx`, the menus and the marker have in common between two commands.
pub mod Keys
pub mod Renewed
pub mod Rounds
pub mod Form
use efika_mpd.Base.{
  ℕ, suc, ◌≤◌, ◌≡◌, refl, ◌≢◌, ◌<◌, Bool, true, false, Option, none, some, inl, inr, List, arith,
  ◌==◌, ◌>>=◌, Bool-cases, Option-cases, subst, sym, ap, Returns, Returns->>=, Returns-map,
  if-cases, ◌∙◌, if◌then◌else◌,
}
use efika_mpd.Client.{
  PlayState, state_stdby, state_idle, state_play, state_pause, state_stopped, Lcd, Menu, ShortTime,
}
use efika_mpd.Client.Heap.{Heap, load}
use efika_mpd.Client.Mpd.{Song, Mpd}
use efika_mpd.Client.State.{Daemon, put_lcd}
use efika_mpd.Client.Display.{
  show_song, show_status, lcd_update_status, shown_entries, show_entries, lcd_update,
}
use efika_mpd.Client.Command.{mark, go}
use efika_mpd.Client.Menus.Tree.{Inside, Into, IsHeld, IsClosed}
use efika_mpd.Client.Menus.Tree.Placed.{IsPlaced, IsAt, bind_some}

-- The pointers lead into a closed set, and where the marker is on the second line, there is an
-- entry to show on the first.
pub record IsSoundIn (s : ℕ → Bool) (d : Daemon) : Type 0 where
  pub placed : IsPlaced s d
  pub low : d.lcd.marker_pos ≤ 1
  pub above :
      (p : ℕ) (m : Menu)
      → d.pmenu ≡ some p
      → d.heap.cell p ≡ some m
      → d.lcd.marker_pos ≢ 0
      → m.prev ≢ none

abbrev pub IsSound : Daemon → Type 0
IsSound d = (s : ℕ → Bool) × IsSoundIn s d

pub by_pointer :
    {A : Type 0} (Q : A → Type 0) (o : Option ℕ) (x : Option A) (f : ℕ → Option A)
    → (o ≡ none → Returns Q x)
    → ((p : ℕ) → o ≡ some p → Returns Q (f p))
    → Returns Q (elim o [ none ↦ x | some p ↦ f p ])
by_pointer Q none x f h k = h refl
by_pointer Q (some p) x f h k = k p refl

-- The entry at a pointer into a closed set.
pub stand :
    {s : ℕ → Bool} {d : Daemon} (p : ℕ)
    → IsPlaced s d
    → d.pmenu ≡ some p
    → (m : Menu) × IsAt s d p m
stand {s = s} p v e =
    let member = subst (Inside s) e v.pmenu in
    let (m, at, held) = v.closed.entry p member in
    (m, record { placed = v; here = e; member = member; cell = at; held = held })

pub go-IsPlaced :
    {s : ℕ → Bool} {d : Daemon} (o : Option ℕ) → IsPlaced s d → Inside s o → IsPlaced s (go o d)
go-IsPlaced o v h = record { closed = v.closed; pmenu = h; top = v.top }

-- With the marker on the first line.
pub first_line-IsSoundIn : {s : ℕ → Bool} {d : Daemon} → IsPlaced s d → IsSoundIn s (mark 0 d)
first_line-IsSoundIn v = record {
  placed = record { closed = v.closed; pmenu = v.pmenu; top = v.top };
  low = omega arith;
  above = λ p m e a n. absurd (n refl);
}

-- Two daemons with the same menus and marker.
pub record IsSame (d d' : Daemon) : Type 0 where
  pub heap : d'.heap ≡ d.heap
  pub pmenu : d'.pmenu ≡ d.pmenu
  pub top : d'.top_menu ≡ d.top_menu
  pub marker : d'.lcd.marker_pos ≡ d.lcd.marker_pos

pub same-IsSoundIn : {s : ℕ → Bool} {d d' : Daemon} → IsSame d d' → IsSoundIn s d → IsSoundIn s d'
same-IsSoundIn {s = s} {d = d} {d' = d'} e v = record {
  placed = record {
    closed = subst (IsClosed s) (sym e.heap) v.placed.closed;
    pmenu = subst (Inside s) (sym e.pmenu) v.placed.pmenu;
    top = subst (Into s) (sym e.top) v.placed.top;
  };
  low = omega (arith, e.marker, v.low);
  above = λ p m a b n.
      v.above p m (sym e.pmenu ∙ a) (ap (λ h. h.cell p) (sym e.heap) ∙ b) (λ z. n (e.marker ∙ z));
}

show_song_marker :
    (mpd : Mpd) (o : Option Song) (l : Lcd) → (show_song mpd o l).marker_pos ≡ l.marker_pos
unfolding show_song
show_song_marker mpd none l = refl
show_song_marker mpd (some s) l = refl

show_status_marker :
    (s : PlayState) (mpd : Mpd) (time : ShortTime) (l : Lcd)
    → (show_status s mpd time l).marker_pos ≡ l.marker_pos
unfolding show_status
show_status_marker state_play mpd time l = show_song_marker mpd mpd.current_song l
show_status_marker state_pause mpd time l = refl
show_status_marker state_idle mpd time l = refl
show_status_marker state_stopped mpd time l = refl
show_status_marker state_stdby mpd time l = refl

status_IsSame : (mpd : Mpd) (d : Daemon) → IsSame d (lcd_update_status mpd d)
unfolding lcd_update_status
status_IsSame mpd d = record {
  heap = refl;
  pmenu = refl;
  top = refl;
  marker = show_status_marker d.state mpd d.time d.lcd;
}

entries_IsSame :
    (a b : Option (List ℕ)) (d : Daemon) → IsSame d (put_lcd d (show_entries a b d.lcd))
unfolding show_entries
entries_IsSame a b d = record { heap = refl; pmenu = refl; top = refl; marker = refl }

load_at : (h : Heap) (q : ℕ) (n : Menu) → h.cell q ≡ some n → load (some q) h ≡ some n
unfolding load
load_at h q n e = e

neighbour-Returns :
    (s : ℕ → Bool) (d : Daemon) (p : ℕ) (m : Menu)
    → IsSoundIn s d
    → IsAt s d p m
    → Returns (λ r. Unit {0}) (shown_entries m d)
unfolding shown_entries
neighbour-Returns s d p m v w =
    if-cases (Returns (λ r. Unit {0})) (d.lcd.marker_pos == 0)
      (λ e.
        by_pointer (λ r. Unit {0}) m.next _ _ (λ _. tt)
          (λ q f.
            let (n, at, held) = w.placed.closed.entry q (subst (Inside s) f w.held.next) in
            bind_some (λ r. Unit {0}) (load (some q) d.heap) _ (load_at d.heap q n at) tt))
      (λ e. elim (Option-cases m.prev) [
        | inl f ↦ absurd (v.above p m w.here w.cell (λ z. ground (arith, z, e)) f)
        | inr (q, f) ↦
            let (n, at, held) = w.placed.closed.entry q (subst (Inside s) f w.held.prev) in
            bind_some (λ r. Unit {0}) (load m.prev d.heap) _
              (ap (λ o. load o d.heap) f ∙ load_at d.heap q n at) tt
      ])

-- The display can be drawn, and nothing of the menus changes.
pub lcd_update-IsSame :
    (s : ℕ → Bool) (mpd : Mpd) (d : Daemon) → IsSoundIn s d → Returns (IsSame d) (lcd_update mpd d)
unfolding lcd_update
lcd_update-IsSame s mpd d v =
    by_pointer (IsSame d) d.pmenu _ _ (λ _. status_IsSame mpd d)
      (λ p e.
        let (m, w) = stand p v.placed e in
        bind_some (IsSame d) (load (some p) d.heap) _ (load_at d.heap p m w.cell) (
          Returns->>= (λ r. Unit {0}) (IsSame d) (shown_entries m d) _
            (neighbour-Returns s d p m v w) λ r u. entries_IsSame r.0 r.1 d))

pub lcd_update-IsSound :
    (s : ℕ → Bool) (mpd : Mpd) (d : Daemon) → IsSoundIn s d → Returns IsSound (lcd_update mpd d)
lcd_update-IsSound s mpd d v =
    Returns-map (IsSame d) IsSound (lcd_update mpd d) (lcd_update-IsSame s mpd d v)
      λ d' e. (s, same-IsSoundIn e v)
