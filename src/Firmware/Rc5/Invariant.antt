-- ===== src/Firmware/Rc5/Invariant.antt =====
-- firmware/rc5_x.c: what every sequence of its two interrupts keeps.
use native.Mathlib.Nat.{pow-suc}
use native.Mathlib.Numerals.{towards_suc}
use efika_mpd.Base.{
  ℕ, zero, suc, ◌+◌, ◌*◌, ◌^◌, ◌≤◌, ◌<◌, ◌≡◌, refl, ◌≢◌, ◌⊎◌, inl, inr, Bool, List, [], ◌∷◌, arith,
}
use efika_mpd.Firmware.Rc5.{
  State, idle, start, sync, finish, Rc5, rc5_timer_isr, sample, isr_start, hand_over, isr_sync,
  dispatch, rc5_isr, rc5_init,
}

-- How many levels each state can have shifted in.
abbrev Counted : State → ℕ → Type 0
Counted idle n = n ≡ 0
Counted start n = n ≡ 0
Counted sync n = n ≤ 12
Counted finish n = n ≡ 13

pub record IsValid (d : Rc5) : Type 0 where
  pub counted : Counted d.r_state d.r_bit_cnt
  pub fits : d.r_data < 2 ^ d.r_bit_cnt
  pub fresh : d.r_state ≢ idle → d.r_tick_cnt ≤ 20
  pub byte : d.r_tick_cnt < 256

rc5_timer_isr-IsValid : (d : Rc5) → IsValid d → IsValid (rc5_timer_isr d)
unfolding rc5_timer_isr
rc5_timer_isr-IsValid d v = ground arith

isr_start-IsValid :
    (pin : Bool) (d : Rc5) → d.r_state ≡ start → IsValid d → IsValid (isr_start pin d)
unfolding isr_start sample
isr_start-IsValid pin d e v = ground arith

pub pow_step : (n : ℕ) → 2 ^ (n + 1) ≡ 2 ^ n * 2
pow_step n = simp towards_suc (pow-suc 2 n)

isr_sync-IsValid : (pin : Bool) (d : Rc5) → d.r_state ≡ sync → IsValid d → IsValid (isr_sync pin d)
unfolding isr_sync sample hand_over
isr_sync-IsValid pin d e v = ground (arith, pow_step d.r_bit_cnt)

dispatch-IsValid :
    (s : State) (pin : Bool) (d : Rc5) → d.r_state ≡ s → IsValid d → IsValid (dispatch s pin d)
unfolding dispatch
dispatch-IsValid idle pin d e v = ground arith
dispatch-IsValid start pin d e v = isr_start-IsValid pin d e v
dispatch-IsValid sync pin d e v = isr_sync-IsValid pin d e v
dispatch-IsValid finish pin d e v = ground arith

rc5_isr-IsValid : (pin : Bool) (d : Rc5) → IsValid d → IsValid (rc5_isr pin d)
unfolding rc5_isr
rc5_isr-IsValid pin d v = dispatch-IsValid d.r_state pin d refl v

-- What the hardware can do to the decoder.
pub data Interrupt : Type 0 where
  tick : Interrupt
  edge : Bool → Interrupt

unfoldable pub run : List Interrupt → Rc5 → Rc5
run [] d = d
run (tick ∷ is) d = run is (rc5_timer_isr d)
run (edge pin ∷ is) d = run is (rc5_isr pin d)

run-IsValid : (is : List Interrupt) (d : Rc5) → IsValid d → IsValid (run is d)
unfolding run
run-IsValid [] d v = v
run-IsValid (tick ∷ is) d v = run-IsValid is _ (rc5_timer_isr-IsValid d v)
run-IsValid (edge pin ∷ is) d v = run-IsValid is _ (rc5_isr-IsValid pin d v)

init-IsValid : (d : Rc5) → d.r_tick_cnt < 256 → IsValid (rc5_init d)
unfolding rc5_init
init-IsValid d h = ground arith

-- Whatever the receiver sends after `rc5_init`, the decoder never holds more than 13 levels, its
-- data fit the levels that it holds, and outside IDLE less than 21 ticks have passed since the
-- last edge that counted.
pub run-rc5_init-IsValid :
    (is : List Interrupt) (d : Rc5) → d.r_tick_cnt < 256 → IsValid (run is (rc5_init d))
run-rc5_init-IsValid is d h = run-IsValid is _ (init-IsValid d h)

abbrev pub ticks : ℕ → List Interrupt
ticks zero = []
ticks (suc n) = tick ∷ ticks n

ticks_idle : (n : ℕ) (d : Rc5) → d.r_state ≡ idle → (run (ticks n) d).r_state ≡ idle
unfolding run rc5_timer_isr
ticks_idle zero d e = e
ticks_idle (suc n) d e = ticks_idle n _ (ground arith)

ticks_away :
    (n : ℕ) (d : Rc5) → d.r_tick_cnt < 21 → 20 < d.r_tick_cnt + n → (run (ticks n) d).r_state ≡ idle
unfolding run rc5_timer_isr
ticks_away zero d h k = absurd (omega arith)
ticks_away (suc n) d h k =
    ground (arith, ticks_away n (rc5_timer_isr d), ticks_idle n (rc5_timer_isr d))

idle-cases : (s : State) → (s ≡ idle) ⊎ (s ≢ idle)
idle-cases idle = inl refl
idle-cases start = inr (λ e. cc)
idle-cases sync = inr (λ e. cc)
idle-cases finish = inr (λ e. cc)

ticks-rest : (n : ℕ) (d : Rc5) → IsValid d → 20 < n → (run (ticks n) d).r_state ≡ idle
ticks-rest n d v h = elim (idle-cases d.r_state) [
  | inl e ↦ ticks_idle n d e
  | inr away ↦ ticks_away n d (omega (arith, v.fresh away)) (omega arith)
]

cleared : (d : Rc5) → IsValid d → d.r_state ≡ idle → (d.r_bit_cnt ≡ 0) × (d.r_data ≡ 0)
cleared d v e = ground arith

-- A transmission that breaks off is forgotten: 21 ticks without an edge bring every valid decoder
-- back to IDLE with no level shifted in.
pub run-ticks_idle :
    (n : ℕ) (d : Rc5)
    → IsValid d
    → 20 < n
    → let d' = run (ticks n) d in (d'.r_state ≡ idle) × (d'.r_bit_cnt ≡ 0) × (d'.r_data ≡ 0)
run-ticks_idle n d v h =
    let e = ticks-rest n d v h in let (c, z) = cleared _ (run-IsValid (ticks n) d v) e in (e, c, z)
