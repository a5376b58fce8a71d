-- ===== src/Firmware/Timers/Dispatch.antt =====
-- firmware/timers.c: which callbacks `timer_update` calls.
use efika_mpd.Base.{
  ℕ, ◌+◌, ◌-◌, ◌/◌, ◌%◌, ◌≡◌, Bool, true, ◌&&◌, ◌==◌, sym, ap, ◌∙◌, refl, ◌≢◌, Option, none, some,
  List, [], ◌∷◌, ◌++◌, map, append_assoc, arith, length, length-append, get_elem?-middle,
  set-middle, All, if◌then◌else◌, Bool-cases, Option-cases, inl, inr,
}
use efika_mpd.Firmware.Timers.{
  Timer, Timers, rearm, due, call, fire, update_from, timer_update, put_timer,
}
use efika_mpd.Firmware.Timers.Invariant.{IsValid, IsWellFormed}

module _ {P C : Type 0} where
  -- Bit 0 of the flags says that a timer counts, bit 1 that it starts again by itself.
  abbrev pub runs_out : Timer P C → Bool
  runs_out x = x.flags % 2 == 1 && x.counter == 0

  abbrev pub repeats : Timer P C → Bool
  repeats x = x.flags / 2 % 2 == 1

  -- What a pass makes of one entry: a timer that repeats counts from its ticks again, and any
  -- other loses bit 0.
  abbrev pub passed : Timer P C → Timer P C
  passed x =
      if runs_out x
      then (if repeats x then record x { counter = x.ticks } else record x { flags = x.flags - 1 })
      else x

  due-runs_out : (x : Timer P C) → due x ≡ runs_out x
  due-runs_out x = ground arith

  rearm-passed : (x : Timer P C) → runs_out x ≡ true → rearm x ≡ passed x
  unfolding rearm
  rearm-passed x e = ground arith

  -- The work of the callbacks of the due timers, in the order of the table from index `id` on.
  abbrev pub called {ℓ} : {W : Type ℓ} → (C → ℕ → W → W) → ℕ → List (Timer P C) → W → W
  called act id [] w = w
  called act id (x ∷ xs) w =
      called act (id + 1) xs
        (if runs_out x then (elim x.callback [ none ↦ w | some c ↦ act c (id % 256) w ]) else w)

module _ {P C W : Type 0} (act : C → ℕ → W → W) where
  abbrev pub quiet : C → ℕ → Timers P C × W → Option (Timers P C × W)
  quiet c id (t, w) = some (t, act c id w)

  called-one :
      (id : ℕ) (x : Timer P C) (w : W) (c : C)
      → runs_out x ≡ true
      → x.callback ≡ some c
      → called act id (x ∷ []) w ≡ act c (id % 256) w
  called-one id x w c d e = ground (arith, d, e)

  fire-due :
      (x : Timer P C) (id : ℕ) (t : Timers P C) (w : W) (c : C)
      → runs_out x ≡ true
      → x.callback ≡ some c
      → fire quiet x id (t, w) ≡ some (put_timer t id (passed x), act c (id % 256) w)
  unfolding fire call
  fire-due x id t w c d e = rw (due-runs_out x ∙ d) (
      ap (λ o. call quiet o (id % 256) (put_timer t id (rearm x), w)) e
      ∙ ap (λ y. some (put_timer t id y, act c (id % 256) w)) (rearm-passed x d))

  -- One round of the loop, at the entry behind `before`.
  fire-passed :
      (before xs : List (Timer P C)) (x : Timer P C) (t : Timers P C) (w : W)
      → IsWellFormed x
      → fire quiet x (length before) (record t { timers = before ++ x ∷ xs }, w)
        ≡ some
            (record t { timers = before ++ passed x ∷ xs }, called act (length before) (x ∷ []) w)
  unfolding fire
  fire-passed before xs x t w h = elim (Bool-cases (runs_out x)) [
    | inl d ↦ elim (Option-cases x.callback) [
      | inl e ↦ absurd (h.valid_callback (h.enabled_valid (ground (arith, d))) e)
      | inr (c, e) ↦
          fire-due x (length before) (record t { timers = before ++ x ∷ xs }) w c d e
          ∙ ap (λ ts. some (record t { timers = ts }, act c (length before % 256) w))
              (set-middle before xs x (passed x))
          ∙ ap (λ v. some (record t { timers = before ++ passed x ∷ xs }, v))
              (sym (called-one (length before) x w c d e))
    ]
    | inr d ↦ ground (arith, due-runs_out x ∙ d, d)
  ]

  update_from-passed :
      (before xs : List (Timer P C)) (t : Timers P C) (w : W)
      → All IsWellFormed xs
      → update_from quiet (length xs) (length before) (record t { timers = before ++ xs }, w)
        ≡ some (record t { timers = before ++ map passed xs }, called act (length before) xs w)
  unfolding update_from
  update_from-passed before [] t w h = refl
  update_from-passed before (x ∷ xs) t w h =
      rw (get_elem?-middle before xs x, fire-passed before xs x t w h.0)
        (simp (length-append, append_assoc) at
          (update_from-passed (before ++ passed x ∷ []) xs t (called act (length before) (x ∷ []) w)
            h.1))

  -- One call of `timer_update` after an interrupt, with callbacks that leave the timers alone, on
  -- a table that is well formed. Every timer that counts and has come to zero gets its ticks as its
  -- counter again if its bit for automatic restart is set, and loses its bit for counting
  -- otherwise; nothing else of the table changes. The callbacks of these timers, and no others,
  -- are called in the order of the table, each once, with the number of their timer.
  pub timer_update_lem :
      (t : Timers P C) (w : W)
      → t.irq ≢ 0
      → IsValid t
      → timer_update quiet (t, w)
        ≡ some (record t { timers = map passed t.timers; irq = 0 }, called act 0 t.timers w)
  unfolding timer_update
  timer_update_lem t w h v =
      ground (arith, let p = update_from-passed [] t.timers t w v.each in rw v.size at p)
