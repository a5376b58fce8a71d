-- ===== src/Firmware/Timers/Expiry.antt =====
-- firmware/timers.c under the timer interrupt: how long a timer runs, and the clock.
use efika_mpd.Base.{
  ℕ, zero, suc, ◌+◌, ◌-◌, ◌%◌, ◌^◌, ◌≤◌, ◌≡◌, refl, ◌≢◌, ◌↔◌, true, some, arith, bit_is_set,
  set_bit, get_elem?-map, get_elem?-set_self,
}
use efika_mpd.Firmware.Timers.{
  Timer, Timers, timers_ok, enabled, timer_at, put_timer, timer_enable, count_down, timer_interrupt,
  due,
}
use efika_mpd.Firmware.Timers.Invariant.{IsValid}

module _ {P C : Type 0} where
  -- `n` interrupts in a row, with no call from the main loop between them.
  unfoldable pub interrupts : ℕ → Timers P C → Timers P C
  interrupts zero t = t
  interrupts (suc n) t = interrupts n (timer_interrupt t)

  count_down-enabled :
      (x : Timer P C)
      → bit_is_set x.flags enabled ≡ true
      → count_down x ≡ record x { counter = x.counter - 1 }
  unfolding count_down
  count_down-enabled x h = ground arith

  timer_at-interrupt :
      (t : Timers P C) (id : ℕ) (x : Timer P C)
      → timer_at t id ≡ some x
      → bit_is_set x.flags enabled ≡ true
      → timer_at (timer_interrupt t) id ≡ some (record x { counter = x.counter - 1 })
  unfolding timer_at timer_interrupt
  timer_at-interrupt t id x e h =
      ground (arith, get_elem?-map count_down t.timers id {a = x}, count_down-enabled x h)

  timer_at-interrupts :
      (n : ℕ) (t : Timers P C) (id : ℕ) (x : Timer P C)
      → timer_at t id ≡ some x
      → bit_is_set x.flags enabled ≡ true
      → timer_at (interrupts n t) id ≡ some (record x { counter = x.counter - n })
  unfolding interrupts
  timer_at-interrupts zero t id x e h = ground arith
  timer_at-interrupts (suc n) t id x e h = ground (
    arith,
    timer_at-interrupts n (timer_interrupt t) id (record x { counter = x.counter - 1 })
        (timer_at-interrupt t id x e h) h,
  )

  abbrev started : Timer P C → Timer P C
  started x = record x { flags = set_bit x.flags enabled; counter = x.ticks }

  timer_enable-started :
      (t : Timers P C) (id : ℕ) (x : Timer P C)
      → timer_at t id ≡ some x
      → x.ticks ≢ 0
      → timer_enable id t ≡ (put_timer t id (started x), timers_ok)
  unfolding timer_enable
  timer_enable-started t id x e h = rw (e, timer_enable) (ground arith)

  timer_at-put_timer :
      (t : Timers P C) (id : ℕ) (x y : Timer P C)
      → timer_at t id ≡ some x
      → IsValid t
      → timer_at (put_timer t id y) id ≡ some y
  unfolding timer_at
  timer_at-put_timer t id x y e v = ground (arith, get_elem?-set_self t.timers id y, v.size)

  -- A timer that `timer_enable` starts is due after `n` interrupts exactly when `n` is at least
  -- its `ticks`, whatever it was doing before.
  pub timer_enable-due :
      (t : Timers P C) (id n : ℕ) (x : Timer P C)
      → timer_at t id ≡ some x
      → x.ticks ≢ 0
      → IsValid t
      → (y : Timer P C) × (timer_at (interrupts n (timer_enable id t).0) id ≡ some y)
        × ((due y ≡ true) ↔ (x.ticks ≤ n))
        × ((timer_enable id t).1 ≡ timers_ok)
  timer_enable-due t id n x e h v = rw (timer_enable-started t id x e h) (
    record (started x) { counter = x.ticks - n },
    timer_at-interrupts n _ id (started x) (timer_at-put_timer t id x _ e v) (ground arith),
    ground arith,
    refl,
  )

  clock_ms :
      (n : ℕ) (t : Timers P C)
      → t.ms + n ≤ 1000
      → ((interrupts n t).ms ≡ t.ms + n) × ((interrupts n t).s ≡ t.s)
  unfolding interrupts timer_interrupt
  clock_ms zero t h = omega arith
  clock_ms (suc n) t h = ground (arith, clock_ms n (timer_interrupt t))

  interrupts-suc :
      (n : ℕ) (t : Timers P C) → interrupts (suc n) t ≡ timer_interrupt (interrupts n t)
  unfolding interrupts
  interrupts-suc zero t = refl
  interrupts-suc (suc n) t = interrupts-suc n (timer_interrupt t)

  interrupt_second :
      (t : Timers P C)
      → t.ms ≡ 1000
      → ((timer_interrupt t).s ≡ (t.s + 1) % 2 ^ 32) × ((timer_interrupt t).ms ≡ 0)
  unfolding timer_interrupt
  interrupt_second t h = ground arith

  -- The clock counts a second after 1001 interrupts, not before.
  pub clock_second :
      (t : Timers P C)
      → t.ms ≡ 0
      → ((interrupts 1000 t).s ≡ t.s)
        × ((interrupts 1001 t).s ≡ (t.s + 1) % 2 ^ 32)
        × ((interrupts 1001 t).ms ≡ 0)
  clock_second t h =
      let (m, u) = clock_ms 1000 t (omega arith) in
      let (s', m') = interrupt_second (interrupts 1000 t) (omega arith) in
      (u, rw (interrupts-suc 1000 t, s', u), rw (interrupts-suc 1000 t) m')
