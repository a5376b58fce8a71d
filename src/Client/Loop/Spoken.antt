-- ===== src/Client/Loop/Spoken.antt =====
-- client/efikampd.c: the bytes that `loop` writes, as commands of the firmware.
use efika_mpd.Base.{
  ℕ, suc, ◌+◌, ◌<◌, ◌≡◌, subst, Bool, Option, none, some, List, [], ◌∷◌, ◌++◌, arith, append_assoc,
  append-nil, length, bit_is_set, Leaves, Leaves->>=, Leaves-then, ◌==◌, if◌then◌else◌, ◌>>=◌,
  if-cases,
}
use efika_mpd.Client.{Lcd, line_length}
use efika_mpd.Client.Keymap.{remote_key_map, map_command}
use efika_mpd.Client.Mpd.{Mpd}
use efika_mpd.Client.State.{Daemon}
use efika_mpd.Client.Display.{lcd_update, update_time}
use efika_mpd.Client.Display.Rows.{IsFramed, Framed, lcd_update-Framed, update_time-Framed}
use efika_mpd.Client.Menus.{menu_free}
use efika_mpd.Client.Command.{handle_command, Changes, status_changed}
use efika_mpd.Client.Command.Framed.{handle_command-Framed, status_changed-Framed}
use efika_mpd.Client.Loop.{
  Input, is_unknown, handle_keys, write_line, write_lcd, flush, round, rounds, loop,
}

-- A sequence of whole commands: a line of the display with its forty bytes, or a brightness.
pub data IsSpoken : List ℕ → Type 0 where
  nothing : IsSpoken []
  a_line :
      (n : ℕ) (buffer rest : List ℕ)
      → n < 2
      → length buffer ≡ line_length
      → IsSpoken rest
      → IsSpoken ((16 + n) ∷ buffer ++ rest)
  a_dim : (v : ℕ) (rest : List ℕ) → v < 4 → IsSpoken rest → IsSpoken (48 ∷ v ∷ rest)

append-IsSpoken : {xs ys : List ℕ} → IsSpoken xs → IsSpoken ys → IsSpoken (xs ++ ys)
append-IsSpoken nothing s = s
append-IsSpoken {ys = ys} (a_line n buffer rest h w r) s =
    rw (append_assoc buffer rest ys) (a_line n buffer (rest ++ ys) h w (append-IsSpoken r s))
append-IsSpoken {ys = ys} (a_dim v rest h r) s = a_dim v (rest ++ ys) h (append-IsSpoken r s)

one_line :
    (n : ℕ) (buffer : List ℕ) → n < 2 → length buffer ≡ line_length → IsSpoken ((16 + n) ∷ buffer)
one_line n buffer h w =
    subst (λ b. IsSpoken ((16 + n) ∷ b)) (append-nil buffer) (a_line n buffer [] h w nothing)

write_line-IsSpoken :
    (n : ℕ) (buffer : List ℕ) (l : Lcd)
    → n < 2
    → length buffer ≡ line_length
    → l.dim_value < 4
    → IsSpoken (write_line n buffer l)
unfolding write_line
write_line-IsSpoken n buffer l h w v =
    append-IsSpoken
      (if-cases IsSpoken (bit_is_set l.update_flags n) (λ _. one_line n buffer h w) (λ _. nothing))
      (if-cases IsSpoken (bit_is_set l.update_flags 3) (λ _. a_dim l.dim_value [] v nothing)
        (λ _. nothing))

write_lcd-IsSpoken : (l : Lcd) → IsFramed l → IsSpoken (write_lcd l)
unfolding write_lcd
write_lcd-IsSpoken l v =
    append-IsSpoken (write_line-IsSpoken 0 l.buffer0 l (omega arith) v.row0 v.dim)
      (write_line-IsSpoken 1 l.buffer1 l (omega arith) v.row1 v.dim)

handle_keys-Framed :
    (ks : List ((ℕ × ℕ) × Mpd)) (d : Daemon) → Framed d → Leaves Framed (handle_keys ks d)
unfolding handle_keys
handle_keys-Framed [] d v = v
handle_keys-Framed (((addr, code), mpd) ∷ ks) d v =
    let c = map_command remote_key_map code in
    Leaves-then Framed Framed (if is_unknown c then some d else handle_command c mpd d) _
      (if-cases (Leaves Framed) (is_unknown c) (λ _. v) (λ _. handle_command-Framed c mpd d v))
      (λ d' w. handle_keys-Framed ks d' w)

-- A context in form, and whole commands.
abbrev pub Speaks : Daemon × List ℕ → Type 0
Speaks r = Framed r.0 × IsSpoken r.1

flush-Speaks : (b : Bool) (d : Daemon) → Framed d → Speaks (flush b d)
unfolding flush
flush-Speaks b d v =
    if-cases Speaks b
      (λ _. (
        record {
          row0 = v.row0;
          row1 = v.row1;
          marker = v.marker;
          dim = v.dim;
          flags = omega arith;
        },
        write_lcd-IsSpoken d.lcd v,
      ))
      (λ _. (v, nothing))

round-Speaks : (i : Input) (d : Daemon) → Framed d → Leaves Speaks (round i d)
unfolding round
round-Speaks i d v =
    Leaves-then Framed Speaks
      (if i.now.sec == d.time.sec then some d else update_time i.now i.mpd d) _
      (if-cases (Leaves Framed) (i.now.sec == d.time.sec) (λ _. v)
        (λ _. update_time-Framed i.now i.mpd d v))
      λ d1 v1.
        Leaves-then Framed Speaks (handle_keys i.keys d1) _ (handle_keys-Framed i.keys d1 v1)
          λ d2 v2. after _ (flush-Speaks i.writable d2 v2) i.changed
  where
    after :
        (r : Daemon × List ℕ)
        → Speaks r
        → (o : Option (Changes × Mpd))
        → Leaves Speaks (elim o [
          | none ↦ some r
          | some c ↦ status_changed c.0 c.1 r.0 >>= λ d4. some (d4, r.1)
        ])
    after r s none = s
    after r s (some c) =
        Leaves-then Framed Speaks (status_changed c.0 c.1 r.0) _
          (status_changed-Framed c.0 c.1 r.0 s.0) (λ d4 v4. (v4, s.1))

pub rounds-Speaks : (is : List Input) (d : Daemon) → Framed d → Leaves Speaks (rounds is d)
unfolding rounds
rounds-Speaks [] d v = (v, nothing)
rounds-Speaks (i ∷ is) d v = Leaves-then Speaks Speaks (round i d) _ (round-Speaks i d v) λ r s.
    if-cases (Leaves Speaks) r.0.run
      (λ _.
        Leaves-then Speaks Speaks (rounds is r.0) _ (rounds-Speaks is r.0 s.0)
          (λ q t. (t.0, append-IsSpoken s.1 t.1)))
      (λ _. s)

-- From a context in form, whatever keys, changes and times come in, all that the client has
-- written to the serial line while it ran without a fault are whole commands of the firmware:
-- lines of forty bytes with a number that the display has, and brightnesses that the firmware
-- accepts.
pub loop-IsSpoken :
    (mpd : Mpd) (is : List Input) (d : Daemon)
    → Framed d
    → Leaves (λ r. IsSpoken r.1) (loop mpd is d)
unfolding loop
loop-IsSpoken mpd is d v =
    Leaves-then Framed (λ r. IsSpoken r.1) (lcd_update mpd _) _ (lcd_update-Framed mpd _ v)
      λ d1 v1.
        Leaves-then Speaks (λ r. IsSpoken r.1) (rounds is d1) _ (rounds-Speaks is d1 v1)
          λ r s.
            Leaves->>= (λ r. IsSpoken r.1) r.0.top_menu _
              λ p.
                Leaves->>= (λ r. IsSpoken r.1) (menu_free (suc r.0.heap.fresh) p r.0.heap) _
                  λ q. s.1
