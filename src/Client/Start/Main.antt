-- ===== src/Client/Start/Main.antt =====
-- client/efikampd.c: when `main` comes to its loop, and what `cleanup` does.
use efika_mpd.Base.{
  ℕ, ◌≡◌, ◌≢◌, ◌↔◌, ◌>>=◌, Bool, true, false, not, ◌&&◌, Option, none, some, List, [], ◌∷◌, arith,
  if◌then◌else◌, Returns,
}
use efika_mpd.Client.Heap.{store, menu_create_entry}
use efika_mpd.Client.Menus.{is_some}
use efika_mpd.Client.Menus.Fetch.{menu_init}
use efika_mpd.Client.Start.{
  Fork, fork_failed, parent, child, System, Request, at_exit_cleanup, set_umask, catch_term,
  new_session, close_std, set_serial, set_user, new_mpd, connect_signals, connect, send_password,
  run_loop, Process, dbg_printf, dbg_printf_opened, init_dbg, init_serial_port, create_mpd_obj,
  init_ctx, change_user, close_log, free_mpd, cleanup, Outcome, exits, to_cleanup, connect_and_loop,
  child_main, main, run_exit, finish, handle_term_signal,
}

-- Whether `loop` was called.
abbrev pub looped : List Request → Bool
looped [] = false
looped (run_loop ∷ rs) = true
looped (at_exit_cleanup ∷ rs) = looped rs
looped (set_umask ∷ rs) = looped rs
looped (catch_term ∷ rs) = looped rs
looped (new_session ∷ rs) = looped rs
looped (close_std ∷ rs) = looped rs
looped (set_serial fd ∷ rs) = looped rs
looped (set_user ∷ rs) = looped rs
looped (new_mpd h p w ∷ rs) = looped rs
looped (connect_signals ∷ rs) = looped rs
looped (connect ∷ rs) = looped rs
looped (send_password ∷ rs) = looped rs

-- The outcome has status `status`, or none if the process goes on to `cleanup`, and `loop` was
-- called or not.
abbrev pub Ends : Option ℕ → Bool → Outcome → Type 0
Ends status l (exits n p) = (status ≡ some n) × (looped p.requests ≡ l)
Ends status l (to_cleanup p) = (status ≡ none) × (looped p.requests ≡ l) × (p.top_menu ≢ none)

-- The status with which `main` exits on its own.
abbrev pub status : System → Option ℕ
status s = elim s.fork [
  | fork_failed ↦ some 1
  | parent ↦ some 0
  | child ↦ if is_some s.tty && s.session then none else some 1
]

abbrev pub is_child : Fork → Bool
is_child fork_failed = false
is_child parent = false
is_child child = true

-- `cleanup` never comes to its end without a fault: it writes to the log after it has closed it.
pub cleanup_lem : (p : Process) → cleanup p ≡ none
unfolding cleanup dbg_printf close_log free_mpd
cleanup_lem p = ground arith

-- The child process comes to its end by a fault on every way out: where the port or a session
-- cannot be had, and behind the loop; so it does at SIGTERM, once `cleanup` is registered. A
-- process that is not the child ends without a fault. `main` is taken with a log that can be opened
-- and with nothing registered for the end before.
pub finish_lem :
    (s : System) (p : Process)
    → s.log_opens ≡ true
    → p.cleanups ≡ 0
    → (((main s p >>= finish) ≡ none) ↔ (s.fork ≡ child))
      × ((handle_term_signal (record p { cleanups = 1 }) >>= finish) ≡ none)
unfolding main init_dbg dbg_printf dbg_printf_opened child_main init_serial_port change_user
    connect_and_loop init_ctx create_mpd_obj menu_init menu_create_entry store finish run_exit
    cleanup close_log free_mpd handle_term_signal
finish_lem s p l n = ground (arith, l, n)

-- `main` comes to its loop exactly in the child process, with the serial port opened, a new
-- session and a connection to the player, and then with a top menu. The parent exits with success,
-- and a process that cannot fork, open the port or start a session exits with a failure. All this
-- if the log can be opened, nothing was asked of the system before, and the log message of the
-- opened port, which lacks its argument, finds something in its place that can be read as a string;
-- if it does not, the child faults exactly where the port is opened, before its loop, and all else
-- is the same. Whether or not the user can be changed makes no difference.
pub main_lem :
    (s : System) (p : Process)
    → s.log_opens ≡ true
    → p.requests ≡ []
    → if is_child s.fork && (is_some s.tty && not s.stray)
      then main s p ≡ none
      else Returns
          (Ends (status s) (is_child s.fork && (is_some s.tty && (s.session && s.connected))))
          (main s p)
unfolding main init_dbg dbg_printf dbg_printf_opened child_main init_serial_port change_user
    connect_and_loop init_ctx create_mpd_obj menu_init menu_create_entry store
main_lem s p l e = ground arith
