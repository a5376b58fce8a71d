-- ===== src/Firmware/Timers/Tests.antt =====
-- Tests of firmware/timers.c on small tables.
use efika_mpd.Base.{
  ℕ, ◌%◌, ◌^◌, ◌≤◌, ◌≡◌, refl, ◌↔◌, ◌⊎◌, true, false, none, some, List, [], ◌∷◌, map, arith,
  replicate, take, All, All-replicate, bit_is_set,
}
use efika_mpd.Firmware.Timers.{
  Timer, Timers, blank_timer, timers_ok, timers_no_free, add_from, timer_init, timer_interrupt,
  timer_add, timer_at, put_timer, timer_set, timer_remove, timer_enable, timer_disable, due,
  timer_update,
}
use efika_mpd.Firmware.Timers.Invariant.{IsWellFormed, IsValid, operations-IsValid}
use efika_mpd.Firmware.Timers.Slots.{IsTaken, added, timer_add_lem}
use efika_mpd.Firmware.Timers.Expiry.{interrupts, timer_enable-due, clock_second}
use efika_mpd.Firmware.Timers.Dispatch.{passed, quiet, timer_update_lem}

-- User data and callbacks are numbers.
abbrev armed : Timer ℕ ℕ
armed = record { flags = 5; ticks = 3; counter = 0; pdata = some 9; callback = some 7 }

abbrev periodic : Timer ℕ ℕ
periodic = record { flags = 7; ticks = 2; counter = 0; pdata = none; callback = some 8 }

abbrev table : Timers ℕ ℕ
table = record {
  timers = armed ∷ blank_timer ∷ periodic ∷ replicate 7 blank_timer;
  s = 0;
  ms = 0;
  irq = 1;
}

armed-IsWellFormed : IsWellFormed armed
armed-IsWellFormed = ground arith

periodic-IsWellFormed : IsWellFormed periodic
periodic-IsWellFormed = ground arith

blank-IsWellFormed : IsWellFormed (blank_timer {P = ℕ} {C = ℕ})
blank-IsWellFormed = ground arith

table-IsValid : IsValid table
table-IsValid = record {
  size = refl;
  each = (
    armed-IsWellFormed,
    (
      blank-IsWellFormed,
      (periodic-IsWellFormed, All-replicate IsWellFormed 7 blank_timer blank-IsWellFormed),
    ),
  );
}

-- The second entry is the first that is free.
add_takes_second : (timer_add (some 6) table).1 ≡ 1
unfolding timer_add add_from
add_takes_second = refl

operations_example :
    IsValid (timer_init table)
    × IsValid (timer_interrupt table)
    × IsValid (timer_add (some 6) table).0
    × IsValid (timer_set 2 100 3 none table).0
    × IsValid (timer_remove 2 table).0
    × IsValid (timer_enable 2 table).0
    × IsValid (timer_disable 2 table).0
operations_example =
    operations-IsValid table (some 6) 2 100 3 none (λ e. ground arith) (omega arith) table-IsValid

timer_add_example :
    let (t', id) = timer_add (some 6) table in
    (All IsTaken table.timers × (t' ≡ table) × (id ≡ timers_no_free))
    ⊎ ((x : Timer ℕ ℕ) × (timer_at table id ≡ some x)
        × (bit_is_set x.flags 2 ≡ false)
        × All IsTaken (take id table.timers)
        × (t' ≡ put_timer table id (added (some 6) x)))
timer_add_example = timer_add_lem (some 6) table table-IsValid

table_first : timer_at table 0 ≡ some armed
unfolding timer_at
table_first = refl

timer_enable_example :
    (y : Timer ℕ ℕ) × (timer_at (interrupts 3 (timer_enable 0 table).0) 0 ≡ some y)
    × ((due y ≡ true) ↔ (3 ≤ 3))
    × ((timer_enable 0 table).1 ≡ timers_ok)
timer_enable_example =
    timer_enable-due table 0 3 armed table_first (λ e. ground arith) table-IsValid

clock_example :
    ((interrupts 1000 table).s ≡ 0)
    × ((interrupts 1001 table).s ≡ 1 % 2 ^ 32)
    × ((interrupts 1001 table).ms ≡ 0)
clock_example = clock_second table refl

-- The callbacks write down themselves and the number of their timer.
abbrev note : ℕ → ℕ → List (ℕ × ℕ) → List (ℕ × ℕ)
note c id w = (c, id) ∷ w

timer_update_example :
    timer_update (quiet note) (table, [])
    ≡ some (record table { timers = map passed table.timers; irq = 0 }, (8, 2) ∷ (7, 0) ∷ [])
timer_update_example = timer_update_lem note table [] (λ e. ground arith) table-IsValid
