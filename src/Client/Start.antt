-- ===== src/Client/Start.antt =====
-- client/efikampd.c: `main` around its loop, with `init_serial_port`, `create_mpd_obj`, `init_ctx`,
-- `change_user`, the log and `cleanup`. What the operating system and libmpd answer is a value of
-- `System`, and what is asked of them is recorded in order.
pub mod Main
use efika_mpd.Base.{
  ℕ, zero, suc, Bool, true, false, Option, none, some, List, [], ◌∷◌, ◌++◌, if◌then◌else◌, ◌>>=◌,
}
use efika_mpd.Client.Heap.{Heap}
use efika_mpd.Client.Text.{codes}
use efika_mpd.Client.State.{Daemon}
use efika_mpd.Client.Menus.Fetch.{menu_init}

-- What `fork` returns: a negative number, the child's, or zero.
pub data Fork : Type 0 where
  fork_failed parent child : Fork

-- `tty` is what `open` returns for the serial port, `user` whether there is an entry for the user
-- and whether `setuid` succeeds, and `connected` whether `mpd_connect` returns zero. `port` is what
-- `atoi` reads in MPD_PORT. `stray` is what C leaves undefined in the call
-- `dbg_printf("Serial port %s opened\n")`, which passes no argument for its `%s`: whether what
-- `vfprintf` takes for the argument can be read as a string.
pub record System : Type 0 where
  pub fork : Fork
  pub log_opens : Bool
  pub tty : Option ℕ
  pub session : Bool
  pub user : Option Bool
  pub host : Option (List ℕ)
  pub port : Option ℕ
  pub password : Option (List ℕ)
  pub connected : Bool
  pub stray : Bool

pub data Request : Type 0 where
  at_exit_cleanup set_umask catch_term new_session close_std : Request
  set_serial : ℕ → Request
  set_user : Request
  new_mpd : List ℕ → ℕ → Option (List ℕ) → Request
  connect_signals connect send_password : Request
  run_loop : Request

-- `dbg_file`: null, open, or closed and not reset.
pub data Log : Type 0 where
  no_log open_log closed_log : Log

-- `ctx.mi`: null, an object, or one that has been freed.
pub data Object : Type 0 where
  no_object live freed : Object

-- `cleanups` counts the registrations with `atexit`.
pub record Process : Type 0 where
  pub log : Log
  pub mi : Object
  pub cleanups : ℕ
  pub heap : Heap
  pub top_menu : Option ℕ
  pub requests : List Request

abbrev pub request : List Request → Process → Process
request rs p = record p { requests = p.requests ++ rs }

-- `dbg_printf` writes to `dbg_file`, a fault unless that is open.
unfoldable pub dbg_printf : Process → Option Process
dbg_printf p = elim p.log [ no_log ↦ none | open_log ↦ some p | closed_log ↦ none ]

-- The call that lacks an argument.
unfoldable pub dbg_printf_opened : System → Process → Option Process
dbg_printf_opened s p = if s.stray then dbg_printf p else none

unfoldable pub init_dbg : System → Process → Process
init_dbg s p = record p { log = if s.log_opens then open_log else no_log }

-- The result is the file descriptor, if the port can be opened.
unfoldable pub init_serial_port : System → Process → Option (Option ℕ × Process)
init_serial_port s p = elim s.tty [
  | none ↦ dbg_printf p >>= λ q. some (none, q)
  | some fd ↦ some (some fd, request (set_serial fd ∷ []) p)
]

abbrev pub or_default {ℓ} : {A : Type ℓ} → Option A → A → A
or_default none d = d
or_default (some a) d = a

unfoldable pub create_mpd_obj : System → Process → Process
create_mpd_obj s p =
    request
      (new_mpd (or_default s.host (codes "localhost")) (or_default s.port 6600) s.password ∷ [])
      (record p { mi = live })

unfoldable pub init_ctx : System → Process → Option Process
init_ctx s p =
    let q = create_mpd_obj s p in
    menu_init q.heap >>= λ r. some (record q { heap = r.1; top_menu = some r.0 })

-- Whether `change_user` succeeds, which `main` does not look at.
unfoldable pub change_user : System → Process → Option (Bool × Process)
change_user s p = elim s.user [
  | none ↦ dbg_printf p >>= λ q. some (false, q)
  | some ok ↦ dbg_printf (request (set_user ∷ []) p) >>= λ q. some (ok, q)
]

-- `if (dbg_file) fclose(dbg_file);`, which leaves the pointer as it is.
unfoldable pub close_log : Process → Option Process
close_log p = elim p.log [
  | no_log ↦ some p
  | open_log ↦ some (record p { log = closed_log })
  | closed_log ↦ none
]

-- libmpd says nothing of `mpd_free` of a null pointer, which counts as a fault, as it does of an
-- object that has been freed.
unfoldable pub free_mpd : Process → Option Process
free_mpd p = elim p.mi [ no_object ↦ none | live ↦ some (record p { mi = freed }) | freed ↦ none ]

unfoldable pub cleanup : Process → Option Process
cleanup p = dbg_printf p >>= λ p1. close_log p1 >>= λ p2. free_mpd p2 >>= λ p3. dbg_printf p3

-- How the process comes to its end: `exit` with a status, before or after `loop` could run.
pub data Outcome : Type 0 where
  exits : ℕ → Process → Outcome
  to_cleanup : Process → Outcome

abbrev pub exit_success : ℕ
exit_success = 0

abbrev pub exit_failure : ℕ
exit_failure = 1

-- A callback of libmpd, and the handler of SIGTERM up to its `exit`.
unfoldable pub error_callback : Process → Option Process
error_callback p = dbg_printf p

unfoldable pub handle_term_signal : Process → Option Outcome
handle_term_signal p = dbg_printf p >>= λ q. some (exits exit_success q)

-- From `init_ctx` on, up to the call of `cleanup`.
unfoldable pub connect_and_loop : System → Process → Option Outcome
connect_and_loop s p = init_ctx s p >>= λ p1.
    let p2 = request (connect_signals ∷ connect ∷ []) p1 in
    dbg_printf p2 >>= λ p3.
    some (to_cleanup (if s.connected then request (send_password ∷ run_loop ∷ []) p3 else p3))

-- From `init_serial_port` on.
unfoldable pub child_main : System → Process → Option Outcome
child_main s p = init_serial_port s p >>= λ r. elim r.0 [
  | none ↦ dbg_printf r.1 >>= λ q. some (exits exit_failure q)
  | some fd ↦ dbg_printf_opened s r.1 >>= λ q.
      let q1 = request (new_session ∷ []) q in
      if s.session
      then (change_user s q1 >>= λ u. connect_and_loop s (request (close_std ∷ []) u.1))
      else (dbg_printf q1 >>= λ q2. some (exits exit_failure q2))
]

unfoldable pub main : System → Process → Option Outcome
main s p =
    let p1 = init_dbg s p in
    elim s.fork [
      | fork_failed ↦ some (exits exit_failure p1)
      | parent ↦ some (exits exit_success p1)
      | child ↦
          let p2 = record (request (at_exit_cleanup ∷ set_umask ∷ catch_term ∷ []) p1) {
            cleanups = 1;
          } in
          dbg_printf p2 >>= λ p3. child_main s p3
    ]

-- `exit` calls what `atexit` has registered, here `cleanup`, so many times.
unfoldable pub run_exit : ℕ → Process → Option Process
run_exit zero p = some p
run_exit (suc n) p = cleanup p >>= run_exit n

-- What the process does from its outcome on: the call of `cleanup` at the end of `main`, and `exit`.
unfoldable pub finish : Outcome → Option Process
finish (exits status p) = run_exit p.cleanups p
finish (to_cleanup p) = cleanup p >>= λ q. run_exit q.cleanups q
