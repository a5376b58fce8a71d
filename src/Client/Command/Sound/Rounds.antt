-- ===== src/Client/Command/Sound/Rounds.antt =====
-- client/efikampd.c: the menus over the rounds of `loop`, from `menu_init` on.
use efika_mpd.Base.{
  ℕ, refl, Bool, true, false, Option, none, some, List, [], ◌∷◌, ◌==◌, ◌>>=◌, All, Returns,
  Returns->>=, if-cases, if◌then◌else◌,
}
use efika_mpd.Client.Heap.{Heap}
use efika_mpd.Client.Mpd.{Mpd}
use efika_mpd.Client.State.{Daemon}
use efika_mpd.Client.Menus.Fetch.{menu_init}
use efika_mpd.Client.Menus.Tree.Placed.{IsFull}
use efika_mpd.Client.Display.{lcd_update, update_time}
use efika_mpd.Client.Keymap.{remote_key_map, map_command}
use efika_mpd.Client.Command.{
  is_stdby, handle_command, handle_state_change, Changes, if_changed, status_changed, renew_menu,
}
use efika_mpd.Client.Command.Sound.{IsSound, by_pointer, lcd_update-IsSound}
use efika_mpd.Client.Command.Sound.Keys.{kept-IsSound, handle_command-IsSound}
use efika_mpd.Client.Loop.{Input, is_unknown, handle_keys, flush, round, rounds}
use efika_mpd.Client.Command.Sound.Renewed.{menu_init-IsSound, renew_menu-IsSound}
use efika_mpd.Client.Display.Rows.{Framed}
use efika_mpd.Client.{state_idle}
use efika_mpd.Client.Command.Sound.Renewed.{free_top}
use efika_mpd.Client.Loop.{loop}
use efika_mpd.Client.Loop.Spoken.{IsSpoken, loop-IsSpoken}
use efika_mpd.Base.{Returns-both}

update-IsSound : (mpd : Mpd) (d : Daemon) → IsSound d → Returns IsSound (lcd_update mpd d)
update-IsSound mpd d v = lcd_update-IsSound v.0 mpd d v.1

if_changed-IsSound :
    (b : Bool) (f : Daemon → Option Daemon) (d : Daemon)
    → ((d : Daemon) → IsSound d → Returns IsSound (f d))
    → IsSound d
    → Returns IsSound (if_changed b f d)
if_changed-IsSound true f d h v = h d v
if_changed-IsSound false f d h v = v

handle_state_change-IsSound :
    (mpd : Mpd) (d : Daemon) → IsSound d → Returns IsSound (handle_state_change mpd d)
unfolding handle_state_change
handle_state_change-IsSound mpd d v =
    update-IsSound mpd _
      (if-cases IsSound (is_stdby d.state) (λ _. v) (λ _. kept-IsSound _ v refl refl refl refl))

status_changed-IsSound :
    (c : Changes) (mpd : Mpd) (d : Daemon) → IsSound d → Returns IsSound (status_changed c mpd d)
unfolding status_changed
status_changed-IsSound c mpd d v =
    Returns->>= IsSound IsSound (if_changed c.database renew_menu d) _
      (if_changed-IsSound c.database renew_menu d renew_menu-IsSound v)
      λ d1 v1.
        by_pointer IsSound d1.pmenu _ _
          (λ _.
            Returns->>= IsSound IsSound (if_changed c.songid (lcd_update mpd) d1) _
              (if_changed-IsSound c.songid _ d1 (update-IsSound mpd) v1)
              λ d2 v2.
                Returns->>= IsSound IsSound (if_changed c.state (handle_state_change mpd) d2) _
                  (if_changed-IsSound c.state _ d2 (handle_state_change-IsSound mpd) v2)
                  λ d3 v3.
                    Returns->>= IsSound IsSound (if_changed c.playlist (lcd_update mpd) d3) _
                      (if_changed-IsSound c.playlist _ d3 (update-IsSound mpd) v3)
                      λ d4 v4. if_changed-IsSound c.elapsed_time _ d4 (update-IsSound mpd) v4)
          (λ p f. v1)

handle_keys-IsSound :
    (ks : List ((ℕ × ℕ) × Mpd)) (d : Daemon)
    → All (λ k. IsFull k.1) ks
    → IsSound d
    → Returns IsSound (handle_keys ks d)
unfolding handle_keys
handle_keys-IsSound [] d a v = v
handle_keys-IsSound (((addr, code), mpd) ∷ ks) d a v =
    Returns->>= IsSound IsSound
      (if is_unknown (map_command remote_key_map code)
        then some d
        else handle_command (map_command remote_key_map code) mpd d)
      _
      (if-cases (Returns IsSound) (is_unknown (map_command remote_key_map code)) (λ _. v)
        (λ _. handle_command-IsSound (map_command remote_key_map code) mpd d a.0 v))
      λ d' v'. handle_keys-IsSound ks d' a.1 v'

-- The round gets full answers to its keys.
abbrev pub IsAnswered : Input → Type 0
IsAnswered i = All (λ k. IsFull k.1) i.keys

flush-IsSound : (b : Bool) (d : Daemon) → IsSound d → IsSound (flush b d).0
unfolding flush
flush-IsSound true d v = kept-IsSound _ v refl refl refl refl
flush-IsSound false d v = v

change-IsSound :
    (o : Option (Changes × Mpd)) (d : Daemon) (out : List ℕ)
    → IsSound d
    → Returns
        (λ (r : Daemon × List ℕ). IsSound r.0)
        (elim o [
          | none ↦ some (d, out)
          | some c ↦ status_changed c.0 c.1 d >>= λ d4. some (d4, out)
        ])
change-IsSound none d out v = v
change-IsSound (some c) d out v =
    Returns->>= IsSound (λ (r : Daemon × List ℕ). IsSound r.0) (status_changed c.0 c.1 d) _
      (status_changed-IsSound c.0 c.1 d v) λ d' v'. v'

round-IsSound :
    (i : Input) (d : Daemon)
    → IsAnswered i
    → IsSound d
    → Returns (λ (r : Daemon × List ℕ). IsSound r.0) (round i d)
unfolding round update_time
round-IsSound i d a v =
    Returns->>= IsSound (λ (r : Daemon × List ℕ). IsSound r.0)
      (if i.now.sec == d.time.sec then some d else lcd_update i.mpd (record d { time = i.now })) _
      (if-cases (Returns IsSound) (i.now.sec == d.time.sec) (λ _. v)
        (λ _. update-IsSound i.mpd _ (kept-IsSound _ v refl refl refl refl)))
      λ d1 v1.
        Returns->>= IsSound (λ (r : Daemon × List ℕ). IsSound r.0) (handle_keys i.keys d1) _
          (handle_keys-IsSound i.keys d1 a v1)
          λ d2 v2.
            change-IsSound i.changed (flush i.writable d2).0 (flush i.writable d2).1
              (flush-IsSound i.writable d2 v2)

-- While libmpd gives full answers to the keys, any number of rounds of the loop runs without a
-- fault from sound menus, whatever the keys and the changes of the player and of its library, and
-- leaves them sound: the links lead to live entries, and the marker is on the second line only
-- below another entry.
pub rounds-IsSound :
    (is : List Input) (d : Daemon)
    → All IsAnswered is
    → IsSound d
    → Returns (λ (r : Daemon × List ℕ). IsSound r.0) (rounds is d)
unfolding rounds
rounds-IsSound [] d a v = v
rounds-IsSound (i ∷ is) d a v =
    Returns->>= (λ (r : Daemon × List ℕ). IsSound r.0) (λ (r : Daemon × List ℕ). IsSound r.0)
      (round i d) _ (round-IsSound i d a.0 v)
      λ r w.
        if-cases (Returns (λ (r : Daemon × List ℕ). IsSound r.0)) r.0.run
          (λ _.
            Returns->>= (λ (r : Daemon × List ℕ). IsSound r.0)
              (λ (r : Daemon × List ℕ). IsSound r.0) (rounds is r.0) _ (rounds-IsSound is r.0 a.1 w)
              λ s x. x)
          (λ _. w)

loop-Returns :
    (mpd : Mpd) (is : List Input) (d : Daemon)
    → All IsAnswered is
    → IsSound d
    → Returns (λ r. Unit {0}) (loop mpd is d)
unfolding loop
loop-Returns mpd is d a v =
    Returns->>= IsSound (λ r. Unit {0})
      (lcd_update mpd (record d { state = state_idle; run = true })) _
      (update-IsSound mpd _ (kept-IsSound _ v refl refl refl refl))
      λ d1 v1.
        Returns->>= (λ (r : Daemon × List ℕ). IsSound r.0) (λ r. Unit {0}) (rounds is d1) _
          (rounds-IsSound is d1 a v1) λ r w. free_top r.0 _ (λ r. Unit {0}) w (λ p s f. tt)

-- From `menu_init` on, with the rows and the marker in form, and to the end of `loop`, which frees
-- the top menu, the client runs without a fault and with enough fuel while libmpd gives full
-- answers to the keys, whatever the keys and the changes of the player and of its library. What it
-- writes is a sequence of whole commands.
pub loop-menu_init :
    (mpd : Mpd) (is : List Input) (h : Heap) (d : Daemon)
    → All IsAnswered is
    → Framed d
    → Returns
        (λ (r : Daemon × List ℕ). IsSpoken r.1)
        (menu_init h >>= λ r.
          loop mpd is (record d { heap = r.1; top_menu = some r.0; pmenu = none }))
loop-menu_init mpd is h d a v =
    Returns->>= (λ r. IsSound (record d { heap = r.1; top_menu = some r.0; pmenu = none }))
      (λ (r : Daemon × List ℕ). IsSpoken r.1) (menu_init h) _ (menu_init-IsSound h d v.marker)
      λ r w.
        let d1 = record d { heap = r.1; top_menu = some r.0; pmenu = none } in
        Returns-both (λ (r : Daemon × List ℕ). IsSpoken r.1) (λ r. Unit {0})
          (λ (r : Daemon × List ℕ). IsSpoken r.1) (loop mpd is d1) (loop-IsSpoken mpd is d1 v)
          (loop-Returns mpd is d1 a w) λ r x y. x
