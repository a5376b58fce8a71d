-- ===== src/Firmware/Board/Display/Window.antt =====
-- firmware/main.c: what `lcd_update` shows of a line, and where `lcd_scroll_cb` moves the window.
use native.Mathlib.Nat.{mod-eq_of_lt, mod_self, mod-lt, mod-add-mod, mod-mod}
use efika_mpd.Base.{
  ℕ, zero, suc, ◌+◌, ◌-◌, ◌%◌, ◌≤◌, ◌<◌, ◌≡◌, refl, sym, ◌∙◌, ap, true, Option, some, inl, inr,
  List, [], ◌∷◌, map, arith, ltb, ◌==◌, ◌>>=◌, if◌then◌else◌, Bool-cases, length, get_elem?, drop,
  replicate, ◌++◌, append_assoc, append-nil, ap₂, Returns-map, get_elem?-below, drop-get_elem?,
  get_elem?-set_found, bit_is_set, Returns,
}
use efika_mpd.Firmware.Board.{Line, Effect, gotoxy, putc, Panel, emit, line_length, lcd_auto_scroll}
use efika_mpd.Firmware.Board.Display.{
  char_at, show, lcd_update, put_line, advance, scroll_from, scroll,
}

-- The C string at the start of some bytes.
abbrev pub c_string : List ℕ → List ℕ
c_string [] = []
c_string (c ∷ cs) = if c == 0 then [] else c ∷ c_string cs

-- A row of `n` positions that starts with a text.
abbrev pub row : ℕ → List ℕ → List ℕ
row zero s = []
row (suc n) [] = 32 ∷ row n []
row (suc n) (c ∷ cs) = c ∷ row n cs

-- What the display shows of a line whose window starts at offset `k`.
abbrev pub window : Line → ℕ → List ℕ
window l k = row line_length (c_string (drop k l.buffer))

length-row : (n : ℕ) (s : List ℕ) → length (row n s) ≡ n
length-row zero s = refl
length-row (suc n) [] = ap suc (length-row n [])
length-row (suc n) (c ∷ cs) = ap suc (length-row n cs)

row-nil : (n : ℕ) → map putc (row n []) ≡ replicate n (putc 32)
row-nil zero = refl
row-nil (suc n) = ap (◌∷◌ (putc 32)) (row-nil n)

show-suc :
    (l : Line) (n i k c : ℕ)
    → l.sp ≡ some k
    → get_elem? l.buffer (k + i) ≡ some c
    → show l n (i + 1) ≡ some (map putc (row n (c_string (drop (k + (i + 1)) l.buffer))))
    → show l (suc n) i ≡ some (map putc (row (suc n) (c_string (drop (k + i) l.buffer))))
unfolding show char_at
show-suc l n i k c e at ih =
    let next : k + (i + 1) ≡ k + i + 1 = omega arith in
    rw (drop-get_elem? l.buffer (k + i) c at) (ground (arith, rw next at ih, row-nil n))

show-row :
    (l : Line) (n i k : ℕ)
    → l.sp ≡ some k
    → k + i + n ≤ length l.buffer
    → show l n i ≡ some (map putc (row n (c_string (drop (k + i) l.buffer))))
unfolding show
show-row l zero i k e h = refl
show-row l (suc n) i k e h =
    let (c, at) = get_elem?-below l.buffer (k + i) (omega arith) in
    show-suc l n i k c e at (show-row l n (i + 1) k e (omega arith))

-- `lcd_update` moves the cursor to the start of a line of the display and writes exactly its
-- twenty positions: the string at the window of the line, cut off or filled with spaces. It does
-- so without a fault if the window lies inside the buffer.
pub lcd_update_lem :
    (n : ℕ) (p : Panel) (l : Line) (k : ℕ)
    → get_elem? p.lcd.line n ≡ some l
    → l.sp ≡ some k
    → k + line_length ≤ length l.buffer
    → (lcd_update n p ≡ some (emit (gotoxy 0 n ∷ map putc (window l k)) p))
      × (length (window l k) ≡ line_length)
unfolding lcd_update
lcd_update_lem n p l k e f h = (
  ground (arith, show-row l line_length 0 k f (omega arith)),
  length-row line_length (c_string (drop k l.buffer)),
)

-- The window goes round the `size - 19` offsets at which it lies inside the text.
wrap_step : (k m : ℕ) → k < m → (if ltb k (m - 1) then k + 1 else 0) ≡ (k + 1) % m
wrap_step k m h = elim (Bool-cases (ltb k (m - 1))) [
  | inl e ↦ rw e (sym (mod-eq_of_lt (ground arith)))
  | inr e ↦ let last : k + 1 ≡ m = ground arith in rw (e, last, mod_self)
]

advance-mod :
    (l : Line) (k : ℕ)
    → l.sp ≡ some k
    → line_length < l.size
    → k + line_length ≤ l.size
    → advance l ≡ some (record l { sp = some ((k + 1) % (l.size - 19)) })
unfolding advance
advance-mod l k e h w =
    let same : l.size - line_length ≡ l.size - 19 - 1 = omega arith in
    rw (e, same, wrap_step k (l.size - 19) (omega arith))

-- `n` calls of `lcd_scroll_cb`.
unfoldable pub scrolls : ℕ → Panel → Option Panel
scrolls zero p = some p
scrolls (suc n) p = scroll p >>= scrolls n

-- A panel whose first line has been moved to offset `k` and shown.
abbrev scrolled : Panel → Line → ℕ → Panel
scrolled p l k =
    let l' : Line = record l { sp = some k } in
    emit (gotoxy 0 0 ∷ map putc (window l' k)) (put_line p 0 l')

scroll_step :
    (p : Panel) (l : Line) (k : ℕ)
    → bit_is_set p.lcd.flags lcd_auto_scroll ≡ true
    → get_elem? p.lcd.line 0 ≡ some l
    → l.sp ≡ some k
    → line_length < l.size
    → l.size ≤ length l.buffer
    → k + line_length ≤ l.size
    → scroll p ≡ some (scrolled p l ((k + 1) % (l.size - 19)))
unfolding scroll scroll_from
scroll_step p l k a e f h b w = ground (
  arith,
  advance-mod l k f h w,
  (lcd_update_lem 0 (put_line p 0 moved) moved _ (get_elem?-set_found p.lcd.line 0 l moved e) refl
      (omega (arith, mod-lt (k + 1) {m = l.size - 19} (omega arith)))).0,
)
  where
    moved : Line
    moved = record l { sp = some ((k + 1) % (l.size - 19)) }

-- What the display is sent while the window goes on from offset `i` by `n` offsets, round the
-- `size - 19` at which it lies inside the text: the row at each of them, from the first position on.
abbrev pub frames : List ℕ → ℕ → ℕ → ℕ → List Effect
frames buffer size i zero = []
frames buffer size i (suc n) =
    (gotoxy 0 0 ∷ map putc (row 20 (c_string (drop ((i + 1) % (size - 19)) buffer))))
    ++ frames buffer size (i + 1) n

frames-mod :
    (buffer : List ℕ) (size i j n : ℕ)
    → i % (size - 19) ≡ j % (size - 19)
    → frames buffer size i n ≡ frames buffer size j n
frames-mod buffer size i j zero e = refl
frames-mod buffer size i j (suc n) e =
    let m = size - 19 in
    let next : (i + 1) % m ≡ (j + 1) % m =
      sym (mod-add-mod i m 1) ∙ ap (λ x. (x + 1) % m) e ∙ mod-add-mod j m 1 in
    ap₂ (λ k es. (gotoxy 0 0 ∷ map putc (row 20 (c_string (drop k buffer)))) ++ es) next
      (frames-mod buffer size (i + 1) (j + 1) n next)

-- With scrolling on, `n` calls of `lcd_scroll_cb` run without a fault. They move the window of a
-- text that is longer than the display by `n` offsets round the `size - 19` at which it lies
-- inside the text, and keep the text. At each of the `n` offsets that the window comes to, the row
-- of twenty positions that it shows, and nothing else, is sent to the display.
pub scrolls_lem :
    (n : ℕ) (p : Panel) (l : Line) (k : ℕ)
    → bit_is_set p.lcd.flags lcd_auto_scroll ≡ true
    → get_elem? p.lcd.line 0 ≡ some l
    → l.sp ≡ some k
    → line_length < l.size
    → l.size ≤ length l.buffer
    → k + line_length ≤ l.size
    → Returns
        (λ p'.
          (get_elem? p'.lcd.line 0 ≡ some (record l { sp = some ((k + n) % (l.size - 19)) }))
          × (p'.effects ≡ p.effects ++ frames l.buffer l.size k n))
        (scrolls n p)
unfolding scrolls
scrolls_lem zero p l k a e f h b w =
    let same : (k + 0) % (l.size - 19) ≡ k =
      omega (arith, mod-eq_of_lt {n = k + 0} {m = l.size - 19} (omega arith)) in
    (rw same (ground arith), sym (append-nil p.effects))
scrolls_lem (suc n) p l k a e f h b w =
    let m = l.size - 19 in
    let k' = (k + 1) % m in
    let same : (k' + n) % m ≡ (k + suc n) % m =
      mod-add-mod (k + 1) m n ∙ ap (λ i. i % m) (omega arith) in
    let q = scrolled p l k' in
    rw (scroll_step p l k a e f h b w) (
      Returns-map _ _ (scrolls n q)
        (scrolls_lem n q (record l { sp = some k' }) k' a (get_elem?-set_found p.lcd.line 0 l _ e)
          refl h b (omega (arith, mod-lt (k + 1) {m = m} (omega arith))))
        λ p' (line, shown). (
          line ∙ ap (λ i. some (record l { sp = some i })) same,
          shown
              ∙ append_assoc p.effects (gotoxy 0 0 ∷ map putc (window l k'))
                  (frames l.buffer l.size k' n)
              ∙ ap (λ es. p.effects ++ ((gotoxy 0 0 ∷ map putc (window l k')) ++ es))
                  (frames-mod l.buffer l.size k' (k + 1) n (mod-mod (k + 1) m)),
        ))
