-- ===== src/Firmware/Board/Main/Safety.antt =====
-- firmware/main.c: the whole board, from power-up on.
use efika_mpd.Base.{
  ℕ, zero, suc, ◌<◌, ◌≡◌, sym, ap, ◌∙◌, ◌≢◌, ◌-◌, Option, none, some, inl, inr, List, ◌∷◌, arith,
  ltb, ◌==◌, ◌>>=◌, if-cases, get_elem?, get_elem?-replicate, Option-cases, replicate, Returns,
  Returns->>=, Leaves, Leaves->>=, Returns-both,
}
use efika_mpd.Firmware.Timers.{
  Timers, timers_max, timer_interrupt, timer_enable, timer_disable, timer_get_pdata,
}
use efika_mpd.Firmware.Timers.Invariant.{
  IsValid, timer_interrupt-IsValid, timer_enable-IsValid, timer_disable-IsValid,
}
use efika_mpd.Firmware.Timers.Links.{
  links, links-timer_interrupt, links-timer_enable, links-timer_disable, timer_get_pdata-links,
}
use efika_mpd.Firmware.Board.{
  State, st_idle, st_data, Callback, lcd_scroll_cb, uart_timeout_cb, debounce_cb, ps_cb, Pdata,
  Board,
}
use efika_mpd.Firmware.Board.Display.{scroll}
use efika_mpd.Firmware.Board.Link.{
  check_cmd, handle_idle, count_byte, handle_data, handle, uart_handle_data, uart_collect,
}
use efika_mpd.Firmware.Board.Bounds.{IsInBounds, Acceptable, scroll-Kept}
use efika_mpd.Firmware.Board.Bounds.Link.{uart_handle_data-IsInBounds}
use efika_mpd.Firmware.Board.Main.{on_uart_timeout, on_debounce, run_callback}

-- The four timers that `main` sets up, with their user data and callbacks.
abbrev pub board_links : List (Option Pdata × Option Callback)
board_links =
    (none, some lcd_scroll_cb)
    ∷ (some tt, some uart_timeout_cb)
    ∷ (some tt, some debounce_cb)
    ∷ (some tt, some ps_cb)
    ∷ replicate 6 (none, none)

-- The timers are as `main` set them up.
pub record IsSetUp (t : Timers Pdata Callback) : Type 0 where
  pub valid : IsValid t
  pub linked : links t ≡ board_links

pub record IsSafe (b : Board) : Type 0 where
  pub timers : IsSetUp b.0
  pub bounds : IsInBounds b.1

linked_pdata :
    (id : ℕ) (p : Option Pdata) (c : Callback)
    → get_elem? board_links id ≡ some (p, some c)
    → c ≢ lcd_scroll_cb
    → p ≡ some tt
linked_pdata zero p c e h = absurd (h (ground arith))
linked_pdata (suc zero) p c e h = ground arith
linked_pdata (suc (suc zero)) p c e h = ground arith
linked_pdata (suc (suc (suc zero))) p c e h = ground arith
linked_pdata (suc (suc (suc (suc n)))) p c e h =
    absurd (ground (arith, get_elem?-replicate 6 n (none, none) (p, some c) e))

pub timer_interrupt-IsSetUp : (t : Timers Pdata Callback) → IsSetUp t → IsSetUp (timer_interrupt t)
timer_interrupt-IsSetUp t v = record {
  valid = timer_interrupt-IsValid v.valid;
  linked = links-timer_interrupt t ∙ v.linked;
}

pub enable-IsSetUp :
    (id : ℕ) (t : Timers Pdata Callback) → IsSetUp t → IsSetUp (timer_enable id t).0
enable-IsSetUp id t v = record {
  valid = timer_enable-IsValid id v.valid;
  linked = links-timer_enable id t ∙ v.linked;
}

disable-IsSetUp : (id : ℕ) (t : Timers Pdata Callback) → IsSetUp t → IsSetUp (timer_disable id t).0
disable-IsSetUp id t v = record {
  valid = timer_disable-IsValid id v.valid;
  linked = links-timer_disable id t ∙ v.linked;
}

-- The link to the client starts and stops its timeout, and touches no other timer.
handle-IsSetUp :
    (s : State) (k : ℕ) (b : Board) → IsSetUp b.0 → Leaves (λ b'. IsSetUp b'.0) (handle s k b)
unfolding handle handle_idle handle_data count_byte
handle-IsSetUp st_idle k (t, p) v = elim (Option-cases (check_cmd k)) [
  | inl e ↦ rw (e, handle_idle) v
  | inr (r, e) ↦ rw (e, handle_idle) (enable-IsSetUp _ t v)
]
handle-IsSetUp st_data k (t, p) v =
    if-cases (Leaves (λ b'. IsSetUp b'.0)) (ltb 0 p.ctx.cnt)
      (λ _.
        Leaves->>= (λ b'. IsSetUp b'.0) (uart_collect k p) _
          (λ p'.
            if-cases {A = Board} (λ b'. IsSetUp b'.0) (p'.ctx.cnt - 1 == 0)
              (λ _. disable-IsSetUp _ t v) (λ _. v)))
      (λ _. v)

pub uart_handle_data-IsSafe :
    (k : ℕ) (b : Board)
    → IsSafe b
    → Acceptable b.1.ctx.state k b.1
    → Returns IsSafe (uart_handle_data k b)
unfolding uart_handle_data
uart_handle_data-IsSafe k b v a =
    Returns-both (λ b'. IsSetUp b'.0) (λ b'. IsInBounds b'.1) IsSafe _
      (handle-IsSetUp b.1.ctx.state k b v.timers) (uart_handle_data-IsInBounds k b v.bounds a)
      (λ b' t w. record { timers = t; bounds = w })

scroll-IsSafe : (b : Board) → IsSafe b → Returns IsSafe (scroll b.1 >>= λ p'. some (b.0, p'))
scroll-IsSafe (t, p) v =
    Returns->>= _ IsSafe (scroll p) _ (scroll-Kept p v.bounds)
      (λ p' k. record { timers = v.timers; bounds = k.0 })

pdata_at :
    (id : ℕ) (p : Option Pdata) (c : Callback) (b : Board)
    → id < timers_max
    → get_elem? (links b.0) id ≡ some (p, some c)
    → c ≢ lcd_scroll_cb
    → IsSafe b
    → timer_get_pdata id b.0 ≡ some tt
pdata_at id p c b h e n v =
    timer_get_pdata-links b.0 id (p, some c) h e
    ∙ linked_pdata id p c (ap (λ l. get_elem? l id) (sym v.timers.linked) ∙ e) n

-- A callback that is called for its own timer finds its user data, and keeps the board safe.
pub run_callback-IsSafe :
    (c : Callback) (id : ℕ) (p : Option Pdata) (b : Board)
    → id < timers_max
    → get_elem? (links b.0) id ≡ some (p, some c)
    → IsSafe b
    → Returns IsSafe (run_callback c id b)
unfolding run_callback on_uart_timeout on_debounce
run_callback-IsSafe lcd_scroll_cb id p b h e v = scroll-IsSafe b v
run_callback-IsSafe uart_timeout_cb id p b h e v =
    rw (pdata_at id p uart_timeout_cb b h e (λ q. cc) v) (record {
      timers = v.timers;
      bounds = record {
        lines = v.bounds.lines;
        each = v.bounds.each;
        left = λ q. cc;
        addressed = λ q. cc;
      };
    })
run_callback-IsSafe debounce_cb id p b h e v =
    rw (pdata_at id p debounce_cb b h e (λ q. cc) v) (record {
      timers = v.timers;
      bounds = record {
        lines = v.bounds.lines;
        each = v.bounds.each;
        left = v.bounds.left;
        addressed = v.bounds.addressed;
      };
    })
run_callback-IsSafe ps_cb id p b h e v = record {
  timers = v.timers;
  bounds = record {
    lines = v.bounds.lines;
    each = v.bounds.each;
    left = v.bounds.left;
    addressed = v.bounds.addressed;
  };
}
