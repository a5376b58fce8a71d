-- ===== src/Firmware/Timers/Links.antt =====
-- firmware/timers.c: the callbacks and user data of the timers.
use efika_mpd.Base.{
  ℕ, zero, suc, ◌<◌, ◌≡◌, refl, ap, Option, some, inl, inr, List, [], ◌∷◌, map, arith, get_elem?,
  set, Option-cases, get_elem?-map, ◌==◌, if-cases,
}
use efika_mpd.Firmware.Timers.{
  Timer, Timers, count_down, timer_interrupt, timer_at, put_timer, timer_enable, timer_disable,
  rearm, timers_max, timer_get_pdata,
}

module _ {P C : Type 0} where
  abbrev pub link : Timer P C → Option P × Option C
  link x = (x.pdata, x.callback)

  unfoldable pub links : Timers P C → List (Option P × Option C)
  links t = map link t.timers

  map-link-set :
      (xs : List (Timer P C)) (id : ℕ) (x y : Timer P C)
      → get_elem? xs id ≡ some x
      → link y ≡ link x
      → map link (set xs id y) ≡ map link xs
  map-link-set [] id x y e h = refl
  map-link-set (z ∷ xs) zero x y e h = ap (λ l. l ∷ map link xs) (ground arith)
  map-link-set (z ∷ xs) (suc id) x y e h = ap (◌∷◌ (link z)) (map-link-set xs id x y e h)

  pub links-put_timer :
      (t : Timers P C) (id : ℕ) (x y : Timer P C)
      → get_elem? t.timers id ≡ some x
      → link y ≡ link x
      → links (put_timer t id y) ≡ links t
  unfolding links
  links-put_timer t id x y e h = map-link-set t.timers id x y e h

  timer_at-get_elem? :
      (t : Timers P C) (id : ℕ) (x : Timer P C)
      → timer_at t id ≡ some x
      → get_elem? t.timers id ≡ some x
  unfolding timer_at
  timer_at-get_elem? t id x e = ground arith

  map-link-count_down : (xs : List (Timer P C)) → map link (map count_down xs) ≡ map link xs
  unfolding count_down
  map-link-count_down [] = refl
  map-link-count_down (x ∷ xs) = ground (arith, map-link-count_down xs)

  pub links-timer_interrupt : (t : Timers P C) → links (timer_interrupt t) ≡ links t
  unfolding links timer_interrupt
  links-timer_interrupt t = map-link-count_down t.timers

  pub links-timer_enable : (id : ℕ) (t : Timers P C) → links (timer_enable id t).0 ≡ links t
  unfolding timer_enable
  links-timer_enable id t = elim (Option-cases (timer_at t id)) [
    | inl e ↦ rw (e, timer_enable)
    | inr (x, e) ↦
        rw (e, timer_enable)
          (if-cases {A = Timers P C × ℕ} (λ r. links r.0 ≡ links t) (x.ticks == 0) (λ _. refl)
            (λ _. links-put_timer t id x _ (timer_at-get_elem? t id x e) refl))
  ]

  pub links-timer_disable : (id : ℕ) (t : Timers P C) → links (timer_disable id t).0 ≡ links t
  unfolding timer_disable
  links-timer_disable id t = elim (Option-cases (timer_at t id)) [
    | inl e ↦ rw (e, timer_disable)
    | inr (x, e) ↦
        rw (e, timer_disable) (links-put_timer t id x _ (timer_at-get_elem? t id x e) refl)
  ]

  pub links-rearm :
      (t : Timers P C) (id : ℕ) (x : Timer P C)
      → get_elem? t.timers id ≡ some x
      → links (put_timer t id (rearm x)) ≡ links t
  unfolding rearm
  links-rearm t id x e = links-put_timer t id x _ e (ground arith)

  pub get_elem?-links :
      (t : Timers P C) (id : ℕ) (x : Timer P C)
      → get_elem? t.timers id ≡ some x
      → get_elem? (links t) id ≡ some (link x)
  unfolding links
  get_elem?-links t id x e = get_elem?-map link t.timers id e

  get_pdata-map :
      (xs : List (Timer P C)) (id : ℕ) (l : Option P × Option C)
      → get_elem? (map link xs) id ≡ some l
      → (x : Timer P C) × (get_elem? xs id ≡ some x) × (x.pdata ≡ l.0)
  get_pdata-map [] id l e = absurd (ground arith)
  get_pdata-map (x ∷ xs) zero l e = (x, refl, ground arith)
  get_pdata-map (x ∷ xs) (suc id) l e = get_pdata-map xs id l e

  -- What `timer_get_pdata` finds is what the links say.
  pub timer_get_pdata-links :
      (t : Timers P C) (id : ℕ) (l : Option P × Option C)
      → id < timers_max
      → get_elem? (links t) id ≡ some l
      → timer_get_pdata id t ≡ l.0
  unfolding links timer_get_pdata timer_at
  timer_get_pdata-links t id l h e = let (x, f, p) = get_pdata-map t.timers id l e in ground arith

  pub links-clear : (t : Timers P C) → links (record t { irq = 0 }) ≡ links t
  unfolding links
  links-clear t = refl
