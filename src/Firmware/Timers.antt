-- ===== src/Firmware/Timers.antt =====
-- firmware/timers.c and timers.h: a table of ten software timers, counted down by the interrupt of
-- hardware timer 1 and fired from the main loop. The writes of `timer_init` to the registers of
-- hardware timer 1 are left out. `P` is what `pdata` points to, and `C` stands for the callbacks.
pub mod Invariant
pub mod Links
pub mod Update
pub mod Slots
pub mod Expiry
pub mod Dispatch
mod Tests
use efika_mpd.Base.{
  ℕ, zero, suc, ◌+◌, ◌-◌, ◌%◌, ◌^◌, Bool, true, false, not, ◌&&◌, Option, none, some, List, [], ◌∷◌,
  map, ltb, ◌==◌, if◌then◌else◌, ◌>>=◌, get_elem?, set, replicate, bit_is_set, set_bit, clear_bit,
}

abbrev pub timers_max : ℕ
timers_max = 0x0A

abbrev pub timers_ok : ℕ
timers_ok = 0xFF

abbrev pub timers_no_free : ℕ
timers_no_free = 0xFE

abbrev pub timers_error : ℕ
timers_error = 0xFD

-- The bits of a timer's `flags`.
abbrev pub enabled : ℕ
enabled = 0

abbrev pub auto : ℕ
auto = 1

abbrev pub valid : ℕ
valid = 2

-- `none` is the null pointer.
pub record Timer (P C : Type 0) : Type 0 where
  pub flags : ℕ
  pub ticks : ℕ
  pub counter : ℕ
  pub pdata : Option P
  pub callback : Option C

-- The module's variables: `timers`, `clock.s`, `clock.ms` and `irq`.
pub record Timers (P C : Type 0) : Type 0 where
  pub timers : List (Timer P C)
  pub s : ℕ
  pub ms : ℕ
  pub irq : ℕ

module _ {P C : Type 0} where
  abbrev pub blank_timer : Timer P C
  blank_timer = record { flags = 0; ticks = 0; counter = 0; pdata = none; callback = none }

  unfoldable pub timer_init : Timers P C → Timers P C
  timer_init t = record t { timers = replicate timers_max blank_timer; s = 0; ms = 0 }

  unfoldable pub count_down : Timer P C → Timer P C
  count_down t =
      if bit_is_set t.flags enabled && not (t.counter == 0)
      then record t { counter = t.counter - 1 }
      else t

  -- `if (clock.ms++ == 1000)` compares the value before the increment.
  unfoldable pub timer_interrupt : Timers P C → Timers P C
  timer_interrupt t =
      let second = t.ms == 1000 in
      record {
        timers = map count_down t.timers;
        s = if second then (t.s + 1) % 2 ^ 32 else t.s;
        ms = if second then 0 else (t.ms + 1) % 2 ^ 16;
        irq = 1;
      }

  -- The interrupt of hardware timer 1.
  abbrev pub timer1_compa_vect : Timers P C → Timers P C
  timer1_compa_vect t = timer_interrupt t

  -- The loop of `timer_add` from index `id` on; the function pointer can be null.
  unfoldable pub add_from : Option C → List (Timer P C) → ℕ → List (Timer P C) × ℕ
  add_from callback [] id = ([], timers_no_free)
  add_from callback (t ∷ ts) id =
      let (ts', id') = add_from callback ts (id + 1) in
      let t' : Timer P C = record {
        flags = set_bit t.flags valid;
        ticks = 0;
        counter = 0;
        pdata = none;
        callback = callback;
      } in
      if bit_is_set t.flags valid then (t ∷ ts', id') else (t' ∷ ts, id % 256)

  unfoldable pub timer_add : Option C → Timers P C → Timers P C × ℕ
  timer_add callback t =
      let (ts, id) = add_from callback t.timers 0 in (record t { timers = ts }, id)

  -- An index that is too large selects no timer.
  unfoldable pub timer_at : Timers P C → ℕ → Option (Timer P C)
  timer_at t id = if ltb id timers_max then get_elem? t.timers id else none

  abbrev pub put_timer : Timers P C → ℕ → Timer P C → Timers P C
  put_timer t id x = record t { timers = set t.timers id x }

  unfoldable pub timer_set : ℕ → ℕ → ℕ → Option P → Timers P C → Timers P C × ℕ
  timer_set id ticks flags pdata t = elim (timer_at t id) [
    | none ↦ (t, timers_error)
    | some x ↦
        if bit_is_set x.flags valid
        then (
          put_timer t id (record x {
            flags = set_bit flags valid;
            ticks = ticks;
            counter = ticks;
            pdata = pdata;
          }),
          timers_ok,
        )
        else (t, timers_error)
  ]

  unfoldable pub timer_remove : ℕ → Timers P C → Timers P C × ℕ
  timer_remove id t = elim (timer_at t id) [
    | none ↦ (t, timers_error)
    | some x ↦ (
      put_timer t id (record x {
        flags = clear_bit (clear_bit x.flags valid) enabled;
        ticks = 0;
        counter = 0;
      }),
      timers_ok,
    )
  ]

  unfoldable pub timer_enable : ℕ → Timers P C → Timers P C × ℕ
  timer_enable id t = elim (timer_at t id) [
    | none ↦ (t, timers_error)
    | some x ↦ if x.ticks == 0 then (t, timers_error) else (
      put_timer t id (record x { flags = set_bit x.flags enabled; counter = x.ticks }),
      timers_ok,
    )
  ]

  unfoldable pub timer_disable : ℕ → Timers P C → Timers P C × ℕ
  timer_disable id t = elim (timer_at t id) [
    | none ↦ (t, timers_error)
    | some x ↦ (put_timer t id (record x { flags = clear_bit x.flags enabled }), timers_ok)
  ]

  unfoldable pub timer_get_pdata : ℕ → Timers P C → Option P
  timer_get_pdata id t = elim (timer_at t id) [ none ↦ none | some x ↦ x.pdata ]

  -- What a timer that has run out becomes, before its callback is called.
  unfoldable pub rearm : Timer P C → Timer P C
  rearm x =
      if bit_is_set x.flags auto
      then record x { counter = x.ticks }
      else record x { flags = clear_bit x.flags enabled }

  abbrev pub due : Timer P C → Bool
  due x = bit_is_set x.flags enabled && x.counter == 0

-- The state that callbacks work on: the timers, and the rest of the program's in `W`.
module _ {P C W : Type 0} (run : C → ℕ → Timers P C × W → Option (Timers P C × W)) where
  -- A call through a null function pointer is a fault.
  unfoldable pub call : Option C → ℕ → Timers P C × W → Option (Timers P C × W)
  call none id s = none
  call (some c) id s = run c id s

  unfoldable pub fire : Timer P C → ℕ → Timers P C × W → Option (Timers P C × W)
  fire x id (t, w) =
      if due x then call x.callback (id % 256) (put_timer t id (rearm x), w) else some (t, w)

  -- The loop of `timer_update`: `rounds` timers from index `id` on.
  unfoldable pub update_from : ℕ → ℕ → Timers P C × W → Option (Timers P C × W)
  update_from zero id s = some s
  update_from (suc rounds) id s =
      get_elem? s.0.timers id >>= λ x. fire x id s >>= λ s'. update_from rounds (id + 1) s'

  unfoldable pub timer_update : Timers P C × W → Option (Timers P C × W)
  timer_update s =
      if ltb 0 s.0.irq
      then (update_from timers_max 0 s >>= λ s'. some (record (s'.0) { irq = 0 }, s'.1))
      else some s
