-- ===== src/Firmware/Board/Bounds/Link.antt =====
-- firmware/main.c: the bounds of the lines' buffers, under `uart_handle_data`.
use efika_mpd.Base.{
  ℕ, ◌+◌, ◌-◌, ◌%◌, ◌≤◌, ◌<◌, ◌≡◌, refl, ◌≢◌, ◌⊎◌, none, some, inl, inr, arith, ltb, ◌==◌, ◌>>=◌,
  if-cases, Option-cases, get_elem?, set, length-set, get_elem?-set_found, get_elem?-below,
  get_elem?-beyond, All-get_elem?, Returns, Returns->>=,
}
use efika_mpd.Firmware.Timers.{Timers}
use efika_mpd.Firmware.Board.{
  Line, State, st_idle, st_data, Pdata, Callback, Panel, Board, buffer_length, line_count,
}
use efika_mpd.Firmware.Board.Display.{lcd_update, put_line}
use efika_mpd.Firmware.Board.Link.{
  high_nibble, low_nibble, check_cmd, strlen, store, complete, collect_update, uart_collect,
  handle_idle, count_byte, handle_data, handle, uart_handle_data,
}
use efika_mpd.Firmware.Board.Link.Frame.{strlen-lt}
use efika_mpd.Firmware.Board.Bounds.{
  IsInside, IsInBounds, Acceptable, put_line-IsInBounds, emit-IsInBounds, Kept, lcd_update-Kept,
}

store-IsInside :
    (l : Line) (cnt k : ℕ)
    → IsInside l
    → 0 < cnt
    → cnt ≤ buffer_length
    → (store l cnt k ≡ some (record l { buffer = set l.buffer (40 - cnt) k }))
      × IsInside (record l { buffer = set l.buffer (40 - cnt) k })
unfolding store
store-IsInside l cnt k v h b = (
  ground (arith, v.full),
  record {
    full = omega (arith, length-set l.buffer (40 - cnt) k, v.full);
    fits = v.fits;
    window = v.window;
    null = v.null;
  },
)

complete-IsInside :
    (l : Line)
    → IsInside l
    → strlen l.buffer ≢ none
    → (m : ℕ) × (complete l ≡ some (record l { size = m; sp = some 0 }))
      × IsInside (record l { size = m; sp = some 0 })
unfolding complete
complete-IsInside l v n = elim (Option-cases (strlen l.buffer)) [
  | inl e ↦ absurd (n e)
  | inr (m, e) ↦
      let b = strlen-lt l.buffer m e in
      let small : m % 256 ≡ m = omega (arith, b, v.full) in
      (
        m,
        rw (e, small),
        record {
          full = v.full;
          fits = omega (arith, b, v.full);
          window = λ k f h. ground arith;
          null = λ f. ground arith;
        },
      )
]

-- The branch of an update, once its line is at hand.
finish_update-Kept :
    (p : Panel) (n k : ℕ) (l : Line)
    → IsInBounds p
    → get_elem? p.lcd.line n ≡ some l
    → IsInside (record l { buffer = set l.buffer 39 k })
    → strlen (set l.buffer 39 k) ≢ none
    → Returns (Kept p.ctx) (
        complete (record l { buffer = set l.buffer 39 k }) >>= λ l''.
        lcd_update n (put_line p n l''))
finish_update-Kept p n k l v e w t =
    let (m, c, w') = complete-IsInside (record l { buffer = set l.buffer 39 k }) w t in
    rw c (
      lcd_update-Kept n (put_line p n _)
        (record l { buffer = set l.buffer 39 k; size = m; sp = some 0 }) 0
        (put_line-IsInBounds p n _ v w') (get_elem?-set_found p.lcd.line n l _ e) refl
        (omega arith))

update_line-Kept :
    (k : ℕ) (p : Panel) (l : Line)
    → IsInBounds p
    → get_elem? p.lcd.line (low_nibble p.ctx.cmd) ≡ some l
    → p.ctx.state ≡ st_data
    → 0 < p.ctx.cnt
    → high_nibble p.ctx.cmd ≡ 1
    → Acceptable st_data k p
    → Returns (Kept p.ctx) (collect_update k p)
unfolding collect_update
update_line-Kept k p l v e s c h a =
    let n = low_nibble p.ctx.cmd in
    let (st, w) =
      store-IsInside l p.ctx.cnt k (All-get_elem? IsInside p.lcd.line n v.each e) c (v.left s) in
    rw (e, st)
      (if-cases (Returns (Kept p.ctx)) (p.ctx.cnt == 1)
        (λ last.
          let end : 40 - p.ctx.cnt ≡ 39 = ground arith in
          rw end (finish_update-Kept p n k l v e (rw end at w) (a l h (ground arith) e)))
        (λ _. (put_line-IsInBounds p n _ v w, refl)))

uart_collect-Kept :
    (k : ℕ) (p : Panel)
    → IsInBounds p
    → p.ctx.state ≡ st_data
    → 0 < p.ctx.cnt
    → Acceptable st_data k p
    → Returns (Kept p.ctx) (uart_collect k p)
unfolding uart_collect
uart_collect-Kept k p v s c a =
    if-cases (Returns (Kept p.ctx)) (high_nibble p.ctx.cmd == 1)
      (λ update.
        let h : high_nibble p.ctx.cmd ≡ 1 = ground arith in
        let (l, e) =
          get_elem?-below p.lcd.line (low_nibble p.ctx.cmd)
            (omega (arith, v.lines, v.addressed s h)) in
        update_line-Kept k p l v e s c h a)
      (λ _.
        if-cases (Returns (Kept p.ctx)) (high_nibble p.ctx.cmd == 2)
          (λ _. (
            record { lines = v.lines; each = v.each; left = v.left; addressed = v.addressed },
            refl,
          ))
          (λ _.
            if-cases (Returns (Kept p.ctx)) (high_nibble p.ctx.cmd == 3)
              (λ _.
                if-cases (Kept p.ctx) (ltb k 4) (λ _. (emit-IsInBounds _ p v, refl))
                  (λ _. (v, refl)))
              (λ _. (v, refl))))

count_byte-IsInBounds : (b : Board) → IsInBounds b.1 → IsInBounds (count_byte b).1
unfolding count_byte
count_byte-IsInBounds (t, p) v = ground arith

check_cmd-cases :
    (k : ℕ) → (check_cmd k ≡ none) ⊎ ((n : ℕ) × (check_cmd k ≡ some (k, n)) × (n ≤ buffer_length))
unfolding check_cmd
check_cmd-cases k =
    if-cases (λ o. (o ≡ none) ⊎ ((n : ℕ) × (o ≡ some (k, n)) × (n ≤ buffer_length)))
      (high_nibble k == 1) (λ _. inr (40, refl, omega arith))
      (λ _.
        if-cases (λ o. (o ≡ none) ⊎ ((n : ℕ) × (o ≡ some (k, n)) × (n ≤ buffer_length)))
          (high_nibble k == 2) (λ _. inr (1, refl, omega arith))
          (λ _.
            if-cases (λ o. (o ≡ none) ⊎ ((n : ℕ) × (o ≡ some (k, n)) × (n ≤ buffer_length)))
              (high_nibble k == 3) (λ _. inr (1, refl, omega arith)) (λ _. inl refl)))

handle_idle-IsInBounds :
    (k : ℕ) (b : Board)
    → IsInBounds b.1
    → Acceptable st_idle k b.1
    → Returns (λ b'. IsInBounds b'.1) (handle_idle k b)
unfolding handle_idle
handle_idle-IsInBounds k (t, p) v a = elim (check_cmd-cases k) [
  | inl e ↦ rw (e, handle_idle) v
  | inr (n, e, h) ↦
      rw (e, handle_idle)
        (record { lines = v.lines; each = v.each; left = λ _. h; addressed = λ _ u. a u })
]

handle_data-IsInBounds :
    (k : ℕ) (b : Board)
    → IsInBounds b.1
    → b.1.ctx.state ≡ st_data
    → Acceptable st_data k b.1
    → Returns (λ b'. IsInBounds b'.1) (handle_data k b)
unfolding handle_data
handle_data-IsInBounds k (t, p) v s a =
    if-cases (Returns (λ b'. IsInBounds b'.1)) (ltb 0 p.ctx.cnt)
      (λ c.
        Returns->>= (Kept p.ctx) (λ b'. IsInBounds b'.1) _ _
          (uart_collect-Kept k p v s (ground arith) a)
          (λ p' v'. count_byte-IsInBounds (t, p') v'.0))
      (λ _. v)

handle-IsInBounds :
    (s : State) (k : ℕ) (b : Board)
    → b.1.ctx.state ≡ s
    → IsInBounds b.1
    → Acceptable s k b.1
    → Returns (λ b'. IsInBounds b'.1) (handle s k b)
unfolding handle
handle-IsInBounds st_idle k b e v a = handle_idle-IsInBounds k b v a
handle-IsInBounds st_data k b e v a = handle_data-IsInBounds k b v e a

-- A byte that the client may send is handled without an access out of bounds, and keeps them.
pub uart_handle_data-IsInBounds :
    (k : ℕ) (b : Board)
    → IsInBounds b.1
    → Acceptable b.1.ctx.state k b.1
    → Returns (λ b'. IsInBounds b'.1) (uart_handle_data k b)
unfolding uart_handle_data
uart_handle_data-IsInBounds k b v a = handle-IsInBounds b.1.ctx.state k b refl v a

-- An update of a line that the display does not have passes `check_cmd`, and its first byte is
-- written out of bounds.
pub bad_line :
    (t : Timers Pdata Callback) (p : Panel) (n k : ℕ)
    → IsInBounds p
    → p.ctx.state ≡ st_idle
    → line_count ≤ n
    → n < 16
    → (uart_handle_data (16 + n) (t, p) >>= uart_handle_data k) ≡ none
unfolding uart_handle_data handle handle_idle handle_data check_cmd uart_collect collect_update
bad_line t p n k v s h b = ground (arith, get_elem?-beyond p.lcd.line n, v.lines)
