-- ===== src/Firmware/Board/Main/Rounds.antt =====
-- firmware/main.c: the main loop between interrupts, for any length of time.
use efika_mpd.Base.{
  ℕ, ◌%◌, ◌<◌, ◌≡◌, refl, ◌∙◌, false, Option, none, some, List, [], ◌∷◌, arith, ◌==◌, ◌>>=◌,
  if-cases, bit_is_set, get_elem?, All-get_elem?, Option-cases, inl, inr, Returns, Returns->>=,
}
use efika_mpd.Firmware.Timers.{
  Timer, Timers, timer_init, timer_add, add_from, timer_set, timer_at, put_timer, rearm,
}
use efika_mpd.Firmware.Timers.Invariant.{
  IsValid, IsWellFormed, timer_init-IsValid, timer_add-IsValid, timer_set-IsValid,
  put_timer-IsValid, rearm-IsWellFormed,
}
use efika_mpd.Firmware.Timers.Links.{links, links-rearm, links-clear}
use efika_mpd.Firmware.Timers.Update.{Guarded, timer_update-Returns}
use efika_mpd.Firmware.Rc5.{Rc5, rc5_get}
use efika_mpd.Firmware.Board.{
  Callback, lcd_scroll_cb, uart_timeout_cb, debounce_cb, ps_cb, Pdata, Board,
}
use efika_mpd.Firmware.Board.Bounds.{IsInside, IsInBounds, Acceptable}
use efika_mpd.Firmware.Board.Main.{
  run_callback, add_timer, cleared_line, forward_key, pulse_power, handle_key, uart_no_data,
  receive, round, Event, timer1_isr, timer0_isr, int0_isr, loops, step, start,
}
use efika_mpd.Firmware.Board.Main.Safety.{
  board_links, IsSetUp, IsSafe, run_callback-IsSafe, uart_handle_data-IsSafe, enable-IsSetUp,
  timer_interrupt-IsSetUp,
}

rearm-IsSetUp :
    (t : Timers Pdata Callback) (id : ℕ) (x : Timer Pdata Callback)
    → get_elem? t.timers id ≡ some x
    → IsSetUp t
    → IsSetUp (put_timer t id (rearm x))
rearm-IsSetUp t id x e v = record {
  valid =
      put_timer-IsValid t id _ v.valid
        (rearm-IsWellFormed (All-get_elem? IsWellFormed t.timers id v.valid.each e));
  linked = links-rearm t id x e ∙ v.linked;
}

pub board_guarded : Guarded run_callback IsSafe
board_guarded = record {
  valid = λ b v. v.timers.valid;
  rearms = λ t p id x e v. record { timers = rearm-IsSetUp t id x e v.timers; bounds = v.bounds };
  clears = λ t p v. record {
    timers = record {
      valid = record { size = v.timers.valid.size; each = v.timers.valid.each };
      linked = links-clear t ∙ v.timers.linked;
    };
    bounds = v.bounds;
  };
  calls = run_callback-IsSafe;
}

forward_key-IsSafe : (addr code : ℕ) (b : Board) → IsSafe b → IsSafe (forward_key addr code b)
unfolding forward_key
forward_key-IsSafe addr code (t, p) v =
    if-cases IsSafe (bit_is_set p.ctx.flags 0) (λ _. v)
      λ _. record {
        timers = enable-IsSetUp _ t v.timers;
        bounds = record { lines = w.lines; each = w.each; left = w.left; addressed = w.addressed };
      }
  where
    w : IsInBounds p
    w = v.bounds

pulse_power-IsSafe : (code : ℕ) (b : Board) → IsSafe b → IsSafe (pulse_power code b)
unfolding pulse_power
pulse_power-IsSafe code (t, p) v =
    if-cases IsSafe (code == 66)
      (λ _. record {
        timers = enable-IsSetUp _ t v.timers;
        bounds = record { lines = w.lines; each = w.each; left = w.left; addressed = w.addressed };
      })
      (λ _. v)
  where
    w : IsInBounds p
    w = v.bounds

-- The decoder's words are no part of what has to be safe.
rc5-IsSafe : (b : Board) (d : Rc5) → IsSafe b → IsSafe (b.0, record (b.1) { rc5 = d })
rc5-IsSafe (t, p) d v = record {
  timers = v.timers;
  bounds = record {
    lines = v.bounds.lines;
    each = v.bounds.each;
    left = v.bounds.left;
    addressed = v.bounds.addressed;
  };
}

handle_key-IsSafe : (b : Board) → IsSafe b → IsSafe (handle_key b)
unfolding handle_key
handle_key-IsSafe (t, p) v =
    if-cases IsSafe (bit_is_set p.rc5.rc5_data 15)
      (λ _.
        let (addr, code) = rc5_get p.rc5.rc5_data in
        rc5-IsSafe _ _ (pulse_power-IsSafe code _ (forward_key-IsSafe addr code (t, p) v)))
      (λ _. v)

-- The byte that a round takes from the UART is one that the client may send.
abbrev AcceptableIn : ℕ → Board → Type 0
AcceptableIn c b = bit_is_set c uart_no_data ≡ false → Acceptable b.1.ctx.state (c % 256) b.1

receive-IsSafe : (c : ℕ) (b : Board) → IsSafe b → AcceptableIn c b → Returns IsSafe (receive c b)
unfolding receive
receive-IsSafe c b v a =
    if-cases (Returns IsSafe) (bit_is_set c 8) (λ _. v)
      (λ e. uart_handle_data-IsSafe (c % 256) b v (a e))

abbrev pub AcceptableEvent : Event → Board → Type 0
AcceptableEvent timer1_isr b = Unit {0}
AcceptableEvent timer0_isr b = Unit {0}
AcceptableEvent (int0_isr pin) b = Unit {0}
AcceptableEvent (loops c) b = AcceptableIn c (handle_key b)

step-IsSafe : (e : Event) (b : Board) → IsSafe b → AcceptableEvent e b → Returns IsSafe (step e b)
unfolding step round
step-IsSafe timer1_isr (t, p) v a = record {
  timers = timer_interrupt-IsSetUp t v.timers;
  bounds = v.bounds;
}
step-IsSafe timer0_isr b v a = rc5-IsSafe b _ v
step-IsSafe (int0_isr pin) b v a = rc5-IsSafe b _ v
step-IsSafe (loops c) b v a =
    Returns->>= IsSafe IsSafe (receive c (handle_key b)) _
      (receive-IsSafe c (handle_key b) (handle_key-IsSafe b v) a)
      (λ b' v'. timer_update-Returns run_callback IsSafe board_guarded b' v')

unfoldable pub run : List Event → Board → Option Board
run [] b = some b
run (e ∷ es) b = step e b >>= run es

-- Every byte on the way is one that the client may send.
abbrev pub AllAcceptable : List Event → Board → Type 0
AllAcceptable [] b = Unit {0}
AllAcceptable (e ∷ es) b =
    AcceptableEvent e b × ((b' : Board) → step e b ≡ some b' → AllAcceptable es b')

run-IsSafe :
    (es : List Event) (b : Board) → IsSafe b → AllAcceptable es b → Returns IsSafe (run es b)
unfolding run
run-IsSafe [] b v a = v
run-IsSafe (e ∷ es) b v a = elim (Option-cases (step e b)) [
  | inl f ↦ absurd (rw f at (step-IsSafe e b v a.0))
  | inr (b', f) ↦ rw f (run-IsSafe es b' (rw f at (step-IsSafe e b v a.0)) (a.1 b' f))
]

start-links : (b : Board) → links (start b).0 ≡ board_links
unfolding links start timer_init timer_add add_from timer_set timer_at
start-links b = refl

add_timer-IsValid :
    (c : Callback) (ticks flags : ℕ) (pdata : Option Pdata) (t : Timers Pdata Callback)
    → flags < 256
    → IsValid t
    → IsValid (add_timer c ticks flags pdata t).0
add_timer-IsValid c ticks flags pdata t h v =
    timer_set-IsValid _ ticks flags pdata h (timer_add-IsValid (some c) (λ e. ground arith) v)

cleared_line-IsInside : IsInside cleared_line
cleared_line-IsInside = record {
  full = refl;
  fits = omega arith;
  window = λ k e h. absurd (omega arith);
  null = λ e. omega arith;
}

pub start-IsSafe : (b : Board) → IsSafe (start b)
unfolding start
start-IsSafe b = record {
  timers = record {
    valid = add_timer-IsValid ps_cb 500 0 (some tt) _ (omega arith) (
        add_timer-IsValid debounce_cb 200 0 (some tt) _ (omega arith) (
          add_timer-IsValid uart_timeout_cb 1000 0 (some tt) _ (omega arith) (
            add_timer-IsValid lcd_scroll_cb 1000 3 none _ (omega arith) (timer_init-IsValid b.0))));
    linked = start-links b;
  };
  bounds = record {
    lines = refl;
    each = (cleared_line-IsInside, (cleared_line-IsInside, tt));
    left = λ e. cc;
    addressed = λ e. cc;
  };
}

-- From power-up on, whatever interrupts and rounds of the main loop come in whatever order, the
-- firmware never accesses a buffer out of bounds, follows no null pointer and calls no null
-- callback, and its timers stay as they were set up, as long as the client's bytes are acceptable.
pub run-start-IsSafe :
    (es : List Event) (b : Board) → AllAcceptable es (start b) → Returns IsSafe (run es (start b))
run-start-IsSafe es b a = run-IsSafe es (start b) (start-IsSafe b) a
