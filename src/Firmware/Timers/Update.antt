-- ===== src/Firmware/Timers/Update.antt =====
-- firmware/timers.c: `timer_update` with callbacks that keep an invariant of the program.
use efika_mpd.Base.{
  ℕ, zero, suc, ◌+◌, ◌%◌, ◌≤◌, ◌<◌, ◌≡◌, refl, ◌≢◌, ◌∙◌, Option, none, some, arith, get_elem?,
  Returns, Returns->>=, if-cases, All-get_elem?, get_elem?-below, ap, ltb,
}
use efika_mpd.Firmware.Timers.{
  Timer, Timers, timers_max, put_timer, rearm, due, call, fire, update_from, timer_update,
}
use efika_mpd.Firmware.Timers.Invariant.{IsValid, IsWellFormed}
use efika_mpd.Firmware.Timers.Links.{links, links-rearm, get_elem?-links}

module _ {P C W : Type 0} (run : C → ℕ → Timers P C × W → Option (Timers P C × W))
    (I : Timers P C × W → Type 0) where
  -- What `timer_update` needs of an invariant `I` and of the callbacks: `I` has the table well
  -- formed and survives what `timer_update` itself changes, and a callback that is called from
  -- an entry of its own runs without a fault and keeps `I`.
  pub record Guarded : Type 0 where
    pub valid : (s : Timers P C × W) → I s → IsValid s.0
    pub rearms :
        (t : Timers P C) (w : W) (id : ℕ) (x : Timer P C)
        → get_elem? t.timers id ≡ some x
        → I (t, w)
        → I (put_timer t id (rearm x), w)
    pub clears : (t : Timers P C) (w : W) → I (t, w) → I (record t { irq = 0 }, w)
    pub calls :
        (c : C) (id : ℕ) (p : Option P) (s : Timers P C × W)
        → id < timers_max
        → get_elem? (links s.0) id ≡ some (p, some c)
        → I s
        → Returns I (run c id s)

module _ {P C W : Type 0} (run : C → ℕ → Timers P C × W → Option (Timers P C × W))
    (I : Timers P C × W → Type 0) (g : Guarded run I) where
  call-Returns :
      (o : Option C) (id : ℕ) (p : Option P) (s : Timers P C × W)
      → id < timers_max
      → o ≢ none
      → get_elem? (links s.0) id ≡ some (p, o)
      → I s
      → Returns I (call run o (id % 256) s)
  unfolding call
  call-Returns none id p s h n e i = absurd (n refl)
  call-Returns (some c) id p s h n e i =
      let small : id % 256 ≡ id = omega arith in rw small (g.calls c id p s h e i)

  fire-Returns :
      (x : Timer P C) (id : ℕ) (s : Timers P C × W)
      → id < timers_max
      → get_elem? s.0.timers id ≡ some x
      → IsWellFormed x
      → I s
      → Returns I (fire run x id s)
  unfolding fire
  fire-Returns x id (t, w) h e v i =
      if-cases (Returns I) (due x)
        (λ d.
          call-Returns x.callback id x.pdata _ h (v.valid_callback (v.enabled_valid (ground arith)))
            (ap (λ l. get_elem? l id) (links-rearm t id x e) ∙ get_elem?-links t id x e)
            (g.rearms t w id x e i))
        (λ _. i)

  update_from-Returns :
      (rounds id : ℕ) (s : Timers P C × W)
      → rounds + id ≤ timers_max
      → I s
      → Returns I (update_from run rounds id s)
  unfolding update_from
  update_from-Returns zero id s h i = i
  update_from-Returns (suc rounds) id s h i =
      let v = g.valid s i in
      let (x, e) = get_elem?-below s.0.timers id (omega (arith, v.size)) in
      rw e (
        Returns->>= I I _ _
          (fire-Returns x id s (omega arith) e (All-get_elem? IsWellFormed s.0.timers id v.each e)
            i)
          (λ s' i'. update_from-Returns rounds (id + 1) s' (omega arith) i'))

  -- `timer_update` calls no null pointer and reads no timer out of range, and keeps the invariant
  -- of the program, if each callback keeps it.
  pub timer_update-Returns : (s : Timers P C × W) → I s → Returns I (timer_update run s)
  unfolding timer_update
  timer_update-Returns s i =
      if-cases (Returns I) (ltb 0 s.0.irq)
        (λ _.
          Returns->>= I I _ _ (update_from-Returns timers_max 0 s (omega arith) i)
            (λ s' i'. g.clears s'.0 s'.1 i'))
        (λ _. i)
