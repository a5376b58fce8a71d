-- ===== src/Firmware/Board/Bounds.antt =====
-- firmware/main.c: the bounds of the lines' buffers, under `lcd_scroll_cb`.
pub mod Link
use efika_mpd.Base.{
  ℕ, zero, suc, ◌+◌, ◌-◌, ◌%◌, ◌≤◌, ◌<◌, ◌≡◌, refl, subst, ◌≢◌, ◌⊎◌, none, some, inl, inr, List,
  arith, ltb, ◌==◌, if◌then◌else◌, ◌>>=◌, if-cases, Option-cases, length, get_elem?, set,
  length-set, get_elem?-set_found, get_elem?-below, get_elem?-beyond, All, All-set, All-get_elem?,
  Returns, Returns->>=, bit_is_set,
}
use efika_mpd.Firmware.Timers.{Timers}
use efika_mpd.Firmware.Board.{
  Line, State, st_idle, st_data, Ctx, Pdata, Callback, Panel, Board, emit, buffer_length,
  line_length, line_count,
}
use efika_mpd.Firmware.Board.Display.{lcd_update, put_line, advance, scroll_from, scroll}
use efika_mpd.Firmware.Board.Display.Window.{lcd_update_lem}
use efika_mpd.Firmware.Board.Link.{
  high_nibble, low_nibble, check_cmd, strlen, store, complete, collect_update, uart_collect,
  handle_idle, count_byte, handle_data, handle, uart_handle_data,
}
use efika_mpd.Firmware.Board.Link.Frame.{strlen-lt}

-- A line whose window can be moved and shown.
pub record IsInside (l : Line) : Type 0 where
  pub full : length l.buffer ≡ buffer_length
  pub fits : l.size ≤ buffer_length
  pub window : (k : ℕ) → l.sp ≡ some k → line_length < l.size → k + line_length ≤ l.size
  pub null : l.sp ≡ none → l.size ≤ line_length

-- The command in progress addresses a line and its buffer.
pub record IsInBounds (p : Panel) : Type 0 where
  pub lines : length p.lcd.line ≡ line_count
  pub each : All IsInside p.lcd.line
  pub left : p.ctx.state ≡ st_data → p.ctx.cnt ≤ buffer_length
  pub addressed :
      p.ctx.state ≡ st_data → high_nibble p.ctx.cmd ≡ 1 → low_nibble p.ctx.cmd < line_count

-- What the client must keep to: it updates no other line than the two, and the last byte of an
-- update leaves the end of a string in the buffer.
abbrev pub Acceptable : State → ℕ → Panel → Type 0
Acceptable st_idle k p = high_nibble k ≡ 1 → low_nibble k < line_count
Acceptable st_data k p =
    (l : Line)
    → high_nibble p.ctx.cmd ≡ 1
    → p.ctx.cnt ≡ 1
    → get_elem? p.lcd.line (low_nibble p.ctx.cmd) ≡ some l
    → strlen (set l.buffer 39 k) ≢ none

pub put_line-IsInBounds :
    (p : Panel) (n : ℕ) (l : Line) → IsInBounds p → IsInside l → IsInBounds (put_line p n l)
put_line-IsInBounds p n l v w = record {
  lines = omega (arith, length-set p.lcd.line n l, v.lines);
  each = All-set IsInside p.lcd.line n l v.each w;
  left = v.left;
  addressed = v.addressed;
}

pub emit-IsInBounds : (es : List _) (p : Panel) → IsInBounds p → IsInBounds (emit es p)
emit-IsInBounds es p v = record {
  lines = v.lines;
  each = v.each;
  left = v.left;
  addressed = v.addressed;
}

-- Bounds kept, with the link as it was.
abbrev pub Kept : Ctx → Panel → Type 0
Kept c p = IsInBounds p × (p.ctx ≡ c)

-- A line with its window at the start of the buffer, or inside a long text, can be shown.
pub lcd_update-Kept :
    (n : ℕ) (p : Panel) (l : Line) (k : ℕ)
    → IsInBounds p
    → get_elem? p.lcd.line n ≡ some l
    → l.sp ≡ some k
    → k + line_length ≤ buffer_length
    → Returns (Kept p.ctx) (lcd_update n p)
lcd_update-Kept n p l k v e f h =
    rw
      ((lcd_update_lem n p l k e f
        (omega (arith, (All-get_elem? IsInside p.lcd.line n v.each e).full))).0)
      (emit-IsInBounds _ p v, refl)

advance-IsInside :
    (l : Line) (k : ℕ)
    → IsInside l
    → l.sp ≡ some k
    → line_length < l.size
    → (j : ℕ) × (advance l ≡ some (record l { sp = some j }))
      × IsInside (record l { sp = some j })
      × (j + line_length ≤ buffer_length)
unfolding advance
advance-IsInside l k v e h =
    let w = v.window k e h in
    let j = if ltb k (l.size - line_length) then k + 1 else 0 in
    let b : j + 20 ≤ l.size = ground arith in
    (
      j,
      ground arith,
      record {
        full = v.full;
        fits = v.fits;
        window = λ i e' _. ground arith;
        null = λ e'. ground arith;
      },
      omega (arith, b, v.fits),
    )

scroll_line-Kept :
    (i : ℕ) (p : Panel) (l : Line)
    → IsInBounds p
    → get_elem? p.lcd.line i ≡ some l
    → line_length < l.size
    → Returns (Kept p.ctx) (advance l >>= λ l'. lcd_update i (put_line p i l'))
scroll_line-Kept i p l v e h = elim (Option-cases l.sp) [
  | inl none_sp ↦ absurd (omega (arith, w.null none_sp))
  | inr (k, f) ↦
      let (j, a, w', b) = advance-IsInside l k w f h in
      rw a (
        lcd_update-Kept i (put_line p i (record l { sp = some j })) _ j
          (put_line-IsInBounds p i _ v w') (get_elem?-set_found p.lcd.line i l _ e) refl b)
]
  where
    w : IsInside l
    w = All-get_elem? IsInside p.lcd.line i v.each e

scroll_from-Kept :
    (rounds i : ℕ) (p : Panel)
    → IsInBounds p
    → rounds + i ≤ line_count
    → Returns (Kept p.ctx) (scroll_from rounds i p)
unfolding scroll_from
scroll_from-Kept zero i p v h = (v, refl)
scroll_from-Kept (suc rounds) i p v h =
    let (l, e) = get_elem?-below p.lcd.line i (omega (arith, v.lines)) in
    rw e (
      Returns->>= (Kept p.ctx) (Kept p.ctx) _ _
        (if-cases (Returns (Kept p.ctx)) (ltb line_length l.size)
          (λ long. scroll_line-Kept i p l v e (ground arith)) (λ _. (v, refl)))
        (λ p' v'.
          subst (λ c. Returns (Kept c) (scroll_from rounds (i + 1) p')) v'.1
            (scroll_from-Kept rounds (i + 1) p' v'.0 (omega arith))))

-- `lcd_scroll_cb` reads only inside the buffers, and keeps the bounds and the link.
pub scroll-Kept : (p : Panel) → IsInBounds p → Returns (Kept p.ctx) (scroll p)
unfolding scroll
scroll-Kept p v =
    if-cases (Returns (Kept p.ctx)) (bit_is_set p.lcd.flags 0)
      (λ _. scroll_from-Kept 1 0 p v (omega arith)) (λ _. (v, refl))
