-- ===== src/Firmware/Timers/Invariant.antt =====
-- firmware/timers.c: the invariant of the table, under each operation but `timer_update`.
use efika_mpd.Base.{
  ℕ, ◌+◌, ◌≤◌, ◌<◌, ◌≡◌, refl, ◌≢◌, inl, inr, true, Option, none, some, List, [], ◌∷◌, map, arith,
  bit_is_set, length, All, length-set, length-map, All-set, All-get_elem?, Option-cases, if-cases,
  All-replicate, ◌==◌,
}
use efika_mpd.Firmware.Timers.{
  Timer, Timers, timers_max, timers_error, enabled, valid, blank_timer, timer_init, count_down,
  timer_interrupt, add_from, timer_add, timer_at, put_timer, timer_set, timer_remove, timer_enable,
  timer_disable, rearm,
}

module _ {P C : Type 0} where
  -- A timer that counts is in use, one in use has a callback, and the fields keep to their widths.
  pub record IsWellFormed (x : Timer P C) : Type 0 where
    pub enabled_valid : bit_is_set x.flags enabled ≡ true → bit_is_set x.flags valid ≡ true
    pub valid_callback : bit_is_set x.flags valid ≡ true → x.callback ≢ none
    pub ticks_valid : x.ticks ≢ 0 → bit_is_set x.flags valid ≡ true
    pub counter_le : x.counter ≤ x.ticks
    pub flags_byte : x.flags < 256

  pub record IsValid (t : Timers P C) : Type 0 where
    pub size : length t.timers ≡ timers_max
    pub each : All IsWellFormed t.timers

  count_down-IsWellFormed : {x : Timer P C} → IsWellFormed x → IsWellFormed (count_down x)
  unfolding count_down
  count_down-IsWellFormed v = ground arith

  pub rearm-IsWellFormed : {x : Timer P C} → IsWellFormed x → IsWellFormed (rearm x)
  unfolding rearm
  rearm-IsWellFormed v = ground arith

  All-count_down :
      (xs : List (Timer P C)) → All IsWellFormed xs → All IsWellFormed (map count_down xs)
  All-count_down [] h = tt
  All-count_down (x ∷ xs) h = (count_down-IsWellFormed h.0, All-count_down xs h.1)

  -- A write of a well-formed entry keeps the table valid.
  pub put_timer-IsValid :
      (t : Timers P C) (id : ℕ) (x : Timer P C)
      → IsValid t
      → IsWellFormed x
      → IsValid (put_timer t id x)
  put_timer-IsValid t id x v w = record {
    size = omega (arith, length-set t.timers id x, v.size);
    each = All-set IsWellFormed t.timers id x v.each w;
  }

  pub timer_at-IsWellFormed :
      (t : Timers P C) (id : ℕ) {x : Timer P C}
      → IsValid t
      → timer_at t id ≡ some x
      → IsWellFormed x
  unfolding timer_at
  timer_at-IsWellFormed t id {x} v e = All-get_elem? IsWellFormed t.timers id v.each (ground arith)

  blank_timer-IsWellFormed : IsWellFormed (blank_timer {P = P} {C = C})
  blank_timer-IsWellFormed = ground arith

  pub timer_init-IsValid : (t : Timers P C) → IsValid (timer_init t)
  unfolding timer_init
  timer_init-IsValid t = record {
    size = refl;
    each = All-replicate IsWellFormed timers_max blank_timer blank_timer-IsWellFormed;
  }

  pub timer_interrupt-IsValid : {t : Timers P C} → IsValid t → IsValid (timer_interrupt t)
  unfolding timer_interrupt
  timer_interrupt-IsValid {t} v = record {
    size = omega (arith, length-map count_down t.timers, v.size);
    each = All-count_down t.timers v.each;
  }

  add_from-length :
      (c : Option C) (xs : List (Timer P C)) (id : ℕ) → length (add_from c xs id).0 ≡ length xs
  unfolding add_from
  add_from-length c [] id = refl
  add_from-length c (x ∷ xs) id = ground (arith, add_from-length c xs (id + 1))

  add_from-IsWellFormed :
      (c : Option C) (xs : List (Timer P C)) (id : ℕ)
      → c ≢ none
      → All IsWellFormed xs
      → All IsWellFormed (add_from c xs id).0
  unfolding add_from
  add_from-IsWellFormed c [] id n h = tt
  add_from-IsWellFormed c (x ∷ xs) id n h =
      ground (arith, add_from-IsWellFormed c xs (id + 1) n h.1)

  pub timer_add-IsValid :
      (c : Option C) {t : Timers P C} → c ≢ none → IsValid t → IsValid (timer_add c t).0
  unfolding timer_add
  timer_add-IsValid c {t} n v = record {
    size = omega (arith, add_from-length c t.timers 0, v.size);
    each = add_from-IsWellFormed c t.timers 0 n v.each;
  }

  -- What `timer_set`, `timer_remove`, `timer_enable` and `timer_disable` do to the table: nothing,
  -- or a write of an entry that is made from the old one.
  entry-cases :
      (id : ℕ) (t : Timers P C) (f : Timer P C → Timers P C × ℕ)
      → IsValid t
      → ((x : Timer P C) → IsWellFormed x → IsValid (f x).0)
      → IsValid
          (let r : Timers P C × ℕ = elim (timer_at t id) [
            | none ↦ (t, timers_error)
            | some x ↦ f x
          ] in
            r).0
  entry-cases id t f v k = elim (Option-cases (timer_at t id)) [
    | inl e ↦ rw e v
    | inr (x, e) ↦ rw e (k x (timer_at-IsWellFormed t id v e))
  ]

  pub timer_set-IsValid :
      (id ticks flags : ℕ) (pdata : Option P) {t : Timers P C}
      → flags < 256
      → IsValid t
      → IsValid (timer_set id ticks flags pdata t).0
  unfolding timer_set
  timer_set-IsValid id ticks flags pdata {t} h v = entry-cases id t _ v λ x w.
      if-cases {A = Timers P C × ℕ} (λ r. IsValid r.0) (bit_is_set x.flags valid)
        (λ u. put_timer-IsValid t id _ v (ground arith)) (λ _. v)

  pub timer_remove-IsValid : (id : ℕ) {t : Timers P C} → IsValid t → IsValid (timer_remove id t).0
  unfolding timer_remove
  timer_remove-IsValid id {t} v =
      entry-cases id t _ v λ x w. put_timer-IsValid t id _ v (ground arith)

  pub timer_enable-IsValid : (id : ℕ) {t : Timers P C} → IsValid t → IsValid (timer_enable id t).0
  unfolding timer_enable
  timer_enable-IsValid id {t} v = entry-cases id t _ v λ x w.
      if-cases {A = Timers P C × ℕ} (λ r. IsValid r.0) (x.ticks == 0) (λ _. v)
        (λ u. put_timer-IsValid t id _ v (ground arith))

  pub timer_disable-IsValid : (id : ℕ) {t : Timers P C} → IsValid t → IsValid (timer_disable id t).0
  unfolding timer_disable
  timer_disable-IsValid id {t} v =
      entry-cases id t _ v λ x w. put_timer-IsValid t id _ v (ground arith)

module _ {P C : Type 0} where
  -- Every operation of timers.c but `timer_update` keeps the table well formed, as long as the
  -- flags given to `timer_set` are a byte and the callback given to `timer_add` is not null,
  -- whatever the other arguments.
  pub operations-IsValid :
      (t : Timers P C) (c : Option C) (id ticks flags : ℕ) (pdata : Option P)
      → c ≢ none
      → flags < 256
      → IsValid t
      → IsValid (timer_init t)
        × IsValid (timer_interrupt t)
        × IsValid (timer_add c t).0
        × IsValid (timer_set id ticks flags pdata t).0
        × IsValid (timer_remove id t).0
        × IsValid (timer_enable id t).0
        × IsValid (timer_disable id t).0
  operations-IsValid t c id ticks flags pdata n h v = (
    timer_init-IsValid t,
    timer_interrupt-IsValid v,
    timer_add-IsValid c n v,
    timer_set-IsValid id ticks flags pdata h v,
    timer_remove-IsValid id v,
    timer_enable-IsValid id v,
    timer_disable-IsValid id v,
  )
