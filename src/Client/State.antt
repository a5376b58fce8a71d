-- ===== src/Client/State.antt =====
-- client/efikampd.c: the variables `ctx` and `top_menu`, with the heap and the calls of libmpd.
use efika_mpd.Base.{ℕ, Bool, Option, List, ◌++◌}
use efika_mpd.Client.{PlayState, Lcd, ShortTime}
use efika_mpd.Client.Heap.{Heap}
use efika_mpd.Client.Mpd.{Call}

-- `efikampd_ctx_t`, without its members `artist` and `album`, which nothing uses, and without the
-- handles `mi` and `tty_fd`, which never change.
pub record Daemon : Type 0 where
  pub state : PlayState
  pub lcd : Lcd
  pub pmenu : Option ℕ
  pub run : Bool
  pub time : ShortTime
  pub top_menu : Option ℕ
  pub heap : Heap
  pub calls : List Call

abbrev pub ask : List Call → Daemon → Daemon
ask cs d = record d { calls = d.calls ++ cs }

abbrev pub put_lcd : Daemon → Lcd → Daemon
put_lcd d l = record d { lcd = l }
