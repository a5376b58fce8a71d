-- ===== src/Firmware/Timers/Slots.antt =====
-- firmware/timers.c: which entry `timer_add` takes.
use efika_mpd.Base.{
  ℕ, suc, ◌+◌, ◌%◌, ◌<◌, ◌≡◌, refl, ◌⊎◌, inl, inr, true, false, Option, none, some, List, [], ◌∷◌,
  arith, bit_is_set, set_bit, length, take, All, get_elem?, set, Bool-cases,
}
use efika_mpd.Firmware.Timers.{
  Timer, Timers, timers_no_free, valid, add_from, timer_add, timer_at, put_timer,
}
use efika_mpd.Firmware.Timers.Invariant.{IsValid}

module _ {P C : Type 0} where
  abbrev pub IsTaken : Timer P C → Type 0
  IsTaken x = bit_is_set x.flags valid ≡ true

  -- The entry that `timer_add` writes over a free one.
  abbrev pub added : Option C → Timer P C → Timer P C
  added c x = record {
    flags = set_bit x.flags valid;
    ticks = 0;
    counter = 0;
    pdata = none;
    callback = c;
  }

  -- The loop stops at the first free entry `k`, or finds every entry taken.
  abbrev Added : Option C → List (Timer P C) → ℕ → List (Timer P C) × ℕ → Type 0
  Added c xs id r =
      (All IsTaken xs × (r ≡ (xs, timers_no_free)))
      ⊎ ((k : ℕ) × (x : Timer P C) × (get_elem? xs k ≡ some x)
          × (bit_is_set x.flags valid ≡ false)
          × All IsTaken (take k xs)
          × (k < length xs)
          × (r ≡ (set xs k (added c x), (id + k) % 256)))

  add_from-Added :
      (c : Option C) (xs : List (Timer P C)) (id : ℕ) → Added c xs id (add_from c xs id)
  unfolding add_from
  add_from-Added c [] id = inl (tt, refl)
  add_from-Added c (x ∷ xs) id = elim (Bool-cases (bit_is_set x.flags valid)) [
    | inr free ↦ inr (0, x, refl, free, tt, omega arith, ground arith)
    | inl taken ↦ elim (add_from-Added c xs (id + 1)) [
      | inl (rest, e) ↦ inl ((taken, rest), ground arith)
      | inr (k, y, at, free, before, lt, e) ↦
          inr (suc k, y, at, free, (taken, before), omega arith, ground arith)
    ]
  ]

  -- `timer_add` takes the first entry that is free, and fails exactly when none is.
  pub timer_add_lem :
      (c : Option C) (t : Timers P C)
      → IsValid t
      → let (t', id) = timer_add c t in
        (All IsTaken t.timers × (t' ≡ t) × (id ≡ timers_no_free))
        ⊎ ((x : Timer P C) × (timer_at t id ≡ some x)
            × (bit_is_set x.flags valid ≡ false)
            × All IsTaken (take id t.timers)
            × (t' ≡ put_timer t id (added c x)))
  unfolding timer_add timer_at
  timer_add_lem c t v = elim (add_from-Added c t.timers 0) [
    | inl (all, e) ↦ inl (all, ground arith, ground arith)
    | inr (k, y, at, free, before, lt, e) ↦
        let same : k % 256 ≡ k = omega (arith, v.size) in
        inr (y, ground (arith, v.size), free, ground (arith, v.size), ground (arith, v.size))
  ]
