-- ===== src/Firmware/Board/Link/Frame.antt =====
-- firmware/main.c: a whole command from the client, byte by byte.
use efika_mpd.Base.{
  ℕ, suc, ◌+◌, ◌-◌, ◌<◌, ◌≡◌, refl, Option, none, some, List, [], ◌∷◌, ◌++◌, map, append_assoc,
  arith, ◌>>=◌, length, get_elem?, set, length-append, get_elem?-set_found, set-set, set-middle,
  set-same,
}
use efika_mpd.Firmware.Timers.{Timers, timer_enable, timer_disable}
use efika_mpd.Firmware.Board.{
  Line, st_idle, st_data, gotoxy, putc, Pdata, Callback, Panel, Board, emit, buffer_length,
  line_length,
}
use efika_mpd.Firmware.Board.Display.{put_line}
use efika_mpd.Firmware.Board.Display.Window.{c_string, row, lcd_update_lem}
use efika_mpd.Firmware.Board.Link.{
  check_cmd, strlen, store, complete, collect_update, uart_collect, handle_idle, count_byte,
  handle_data, handle, uart_handle_data,
}

-- The bytes that `main` takes from the UART, with no timer running out in between.
unfoldable pub receive_all : List ℕ → Board → Option Board
receive_all [] b = some b
receive_all (k ∷ ks) b = uart_handle_data k b >>= receive_all ks

pub strlen-lt : (xs : List ℕ) (m : ℕ) → strlen xs ≡ some m → m < length xs
unfolding strlen
strlen-lt [] m e = absurd (ground arith)
strlen-lt (x ∷ xs) m e = ground (arith, strlen-lt xs (m - 1))

-- The panel in the middle of an update of line `n`: `cnt` bytes are to come.
abbrev pub midway : Panel → ℕ → Line → ℕ → List ℕ → Panel
midway p n l cnt buf = record p {
  lcd = record (p.lcd) { line = set p.lcd.line n (record l { buffer = buf }) };
  ctx = record (p.ctx) { cmd = 16 + n; cnt = cnt; state = st_data };
}

-- The panel after the last byte.
abbrev pub updated : Panel → ℕ → Line → ℕ → List ℕ → Panel
updated p n l size buf = emit (gotoxy 0 n ∷ map putc (row line_length (c_string buf))) (record p {
  lcd = record (p.lcd) {
    line = set p.lcd.line n (record l { buffer = buf; size = size; sp = some 0 });
  };
  ctx = record (p.ctx) { cmd = 16 + n; cnt = 0; state = st_idle };
})

store-middle :
    (l : Line) (before rest : List ℕ) (m r k : ℕ)
    → length before + suc m ≡ buffer_length
    → store (record l { buffer = before ++ r ∷ rest }) (suc m) k
      ≡ some (record l { buffer = before ++ k ∷ rest })
unfolding store
store-middle l before rest m r k h =
    let at : buffer_length - suc m ≡ length before = omega arith in
    rw (at, set-middle before rest r k) (ground (arith, length-append before (r ∷ rest)))

handle-midway :
    (t : Timers Pdata Callback) (p : Panel) (n : ℕ) (l : Line) (before rest : List ℕ) (m r k : ℕ)
    → n < 2
    → get_elem? p.lcd.line n ≡ some l
    → length before + suc (suc m) ≡ buffer_length
    → uart_handle_data k (t, midway p n l (suc (suc m)) (before ++ r ∷ rest))
      ≡ some (t, midway p n l (suc m) (before ++ k ∷ rest))
unfolding uart_handle_data handle handle_data uart_collect collect_update count_byte
handle-midway t p n l before rest m r k h e w = ground (
  arith,
  get_elem?-set_found p.lcd.line n l (record l { buffer = before ++ r ∷ rest }) e,
  store-middle l before rest (suc m) r k w,
  set-set p.lcd.line n (record l { buffer = before ++ r ∷ rest })
      (record l { buffer = before ++ k ∷ rest }),
)

handle-last :
    (t : Timers Pdata Callback) (p : Panel) (n : ℕ) (l : Line) (before : List ℕ) (r k size : ℕ)
    → n < 2
    → get_elem? p.lcd.line n ≡ some l
    → length before + 1 ≡ buffer_length
    → strlen (before ++ k ∷ []) ≡ some size
    → uart_handle_data k (t, midway p n l 1 (before ++ r ∷ []))
      ≡ some ((timer_disable p.ctx.uart_timeout_timer t).0, updated p n l size (before ++ k ∷ []))
unfolding uart_handle_data handle handle_data uart_collect collect_update count_byte complete
handle-last t p n l before r k size h e w s =
    let old : Line = record l { buffer = before ++ r ∷ [] } in
    let new : Line = record l { buffer = before ++ k ∷ []; size = size; sp = some 0 } in
    let full : length (before ++ k ∷ []) ≡ 40 = omega (arith, length-append before (k ∷ [])) in
    let at : get_elem? (set (set p.lcd.line n old) n new) n ≡ some new =
      get_elem?-set_found _ n old new (get_elem?-set_found p.lcd.line n l old e) in
    ground (
      arith,
      get_elem?-set_found p.lcd.line n l old e,
      store-middle l before [] 0 r k w,
      strlen-lt (before ++ k ∷ []) size s,
      full,
      set-set p.lcd.line n old new,
      (lcd_update_lem n (put_line (midway p n l 1 (before ++ r ∷ [])) n new) new 0 at refl
          (omega (arith, full))).0,
    )

-- The remaining bytes of an update.
receive-midway :
    (t : Timers Pdata Callback) (p : Panel) (n : ℕ) (l : Line) (before rest : List ℕ) (k : ℕ)
    (ks : List ℕ) (r size : ℕ)
    → n < 2
    → get_elem? p.lcd.line n ≡ some l
    → length before + length (k ∷ ks) ≡ buffer_length
    → length rest ≡ length ks
    → strlen (before ++ k ∷ ks) ≡ some size
    → receive_all (k ∷ ks) (t, midway p n l (length (k ∷ ks)) (before ++ r ∷ rest))
      ≡ some ((timer_disable p.ctx.uart_timeout_timer t).0, updated p n l size (before ++ k ∷ ks))
unfolding receive_all
receive-midway t p n l before [] k [] r size h e w o s =
    rw (handle-last t p n l before r k size h e w s)
receive-midway t p n l before (r' ∷ rest) k (k' ∷ ks) r size h e w o s =
    rw (handle-midway t p n l before (r' ∷ rest) (length ks) r k h e w) (
      simp append_assoc at (
        receive-midway t p n l (before ++ k ∷ []) rest k' ks r' size h e
          (omega (arith, length-append before (k ∷ []))) (omega arith)
          (rw (append_assoc before (k ∷ []) (k' ∷ ks)) s)))
receive-midway t p n l before [] k (k' ∷ ks) r size h e w o s = absurd (omega arith)
receive-midway t p n l before (r' ∷ rest) k [] r size h e w o s = absurd (omega arith)

-- The first byte of an update of line `n`.
handle-command :
    (t : Timers Pdata Callback) (p : Panel) (n : ℕ) (l : Line)
    → n < 2
    → p.ctx.state ≡ st_idle
    → get_elem? p.lcd.line n ≡ some l
    → uart_handle_data (16 + n) (t, p)
      ≡ some ((timer_enable p.ctx.uart_timeout_timer t).0, midway p n l 40 l.buffer)
unfolding uart_handle_data handle handle_idle check_cmd
handle-command t p n l h i e = ground (arith, set-same p.lcd.line n l e)

receive_bytes :
    (t : Timers Pdata Callback) (p : Panel) (n : ℕ) (l : Line) (buf ks : List ℕ) (size : ℕ)
    → n < 2
    → get_elem? p.lcd.line n ≡ some l
    → length buf ≡ buffer_length
    → length ks ≡ buffer_length
    → strlen ks ≡ some size
    → receive_all ks (t, midway p n l 40 buf)
      ≡ some ((timer_disable p.ctx.uart_timeout_timer t).0, updated p n l size ks)
receive_bytes t p n l [] ks size h e b w s = absurd (omega arith)
receive_bytes t p n l (r ∷ rest) [] size h e b w s = absurd (omega arith)
receive_bytes t p n l (r ∷ rest) (k ∷ ks) size h e b w s =
    rw (← w) (receive-midway t p n l [] rest k ks r size h e (omega arith) (omega arith) s)

-- An update of a line that is received whole puts its forty bytes in the buffer of that line and
-- shows the start of the string in it, and the link is ready for the next command with its timeout
-- stopped: whatever the line held before, if the bytes hold the end of a string.
pub receive_update :
    (t : Timers Pdata Callback) (p : Panel) (n : ℕ) (l : Line) (ks : List ℕ) (size : ℕ)
    → n < 2
    → p.ctx.state ≡ st_idle
    → get_elem? p.lcd.line n ≡ some l
    → length l.buffer ≡ buffer_length
    → length ks ≡ buffer_length
    → strlen ks ≡ some size
    → receive_all ((16 + n) ∷ ks) (t, p)
      ≡ some (
        (timer_disable p.ctx.uart_timeout_timer (timer_enable p.ctx.uart_timeout_timer t).0).0,
        updated p n l size ks,
      )
unfolding receive_all
receive_update t p n l ks size h i e b w s =
    rw (handle-command t p n l h i e)
      (receive_bytes (timer_enable p.ctx.uart_timeout_timer t).0 p n l l.buffer ks size h e b w s)

-- The last byte of an update without the end of a string.
last_unterminated :
    (t : Timers Pdata Callback) (p : Panel) (n : ℕ) (l : Line) (before : List ℕ) (k : ℕ) (r : ℕ)
    → n < 2
    → get_elem? p.lcd.line n ≡ some l
    → length before + 1 ≡ buffer_length
    → strlen (before ++ k ∷ []) ≡ none
    → uart_handle_data k (t, midway p n l 1 (before ++ r ∷ [])) ≡ none
unfolding uart_handle_data handle handle_data uart_collect collect_update complete
last_unterminated t p n l before k r h e w s = ground (
  arith,
  get_elem?-set_found p.lcd.line n l (record l { buffer = before ++ r ∷ [] }) e,
  store-middle l before [] 0 r k w,
)

rest_unterminated :
    (t : Timers Pdata Callback) (p : Panel) (n : ℕ) (l : Line) (before rest : List ℕ) (k : ℕ)
    (ks : List ℕ) (r : ℕ)
    → n < 2
    → get_elem? p.lcd.line n ≡ some l
    → length before + length (k ∷ ks) ≡ buffer_length
    → length rest ≡ length ks
    → strlen (before ++ k ∷ ks) ≡ none
    → receive_all (k ∷ ks) (t, midway p n l (length (k ∷ ks)) (before ++ r ∷ rest)) ≡ none
unfolding receive_all
rest_unterminated t p n l before [] k [] r h e w o s =
    rw (last_unterminated t p n l before k r h e w s) refl
rest_unterminated t p n l before (r' ∷ rest) k (k' ∷ ks) r h e w o s =
    rw (handle-midway t p n l before (r' ∷ rest) (length ks) r k h e w) (
      simp append_assoc at (
        rest_unterminated t p n l (before ++ k ∷ []) rest k' ks r' h e
          (omega (arith, length-append before (k ∷ []))) (omega arith)
          (rw (append_assoc before (k ∷ []) (k' ∷ ks)) s)))
rest_unterminated t p n l before [] k (k' ∷ ks) r h e w o s = absurd (omega arith)
rest_unterminated t p n l before (r' ∷ rest) k [] r h e w o s = absurd (omega arith)

bytes_unterminated :
    (t : Timers Pdata Callback) (p : Panel) (n : ℕ) (l : Line) (buf ks : List ℕ)
    → n < 2
    → get_elem? p.lcd.line n ≡ some l
    → length buf ≡ buffer_length
    → length ks ≡ buffer_length
    → strlen ks ≡ none
    → receive_all ks (t, midway p n l 40 buf) ≡ none
bytes_unterminated t p n l [] ks h e b w s = absurd (omega arith)
bytes_unterminated t p n l (r ∷ rest) [] h e b w s = absurd (omega arith)
bytes_unterminated t p n l (r ∷ rest) (k ∷ ks) h e b w s =
    rw (← w) (rest_unterminated t p n l [] rest k ks r h e (omega arith) (omega arith) s)

-- An update whose forty bytes hold no end of a string ends in a fault, whatever the line held
-- before: `strlen` reads on behind the buffer of the line.
pub receive_unterminated :
    (t : Timers Pdata Callback) (p : Panel) (n : ℕ) (l : Line) (ks : List ℕ)
    → n < 2
    → p.ctx.state ≡ st_idle
    → get_elem? p.lcd.line n ≡ some l
    → length l.buffer ≡ buffer_length
    → length ks ≡ buffer_length
    → strlen ks ≡ none
    → receive_all ((16 + n) ∷ ks) (t, p) ≡ none
unfolding receive_all
receive_unterminated t p n l ks h i e b w s =
    rw (handle-command t p n l h i e)
      (bytes_unterminated (timer_enable p.ctx.uart_timeout_timer t).0 p n l l.buffer ks h e b w s)
