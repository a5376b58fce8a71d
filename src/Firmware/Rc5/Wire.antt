-- ===== src/Firmware/Rc5/Wire.antt =====
-- firmware/rc5_x.c: a frame on the wire, and what its edges and ticks do to the decoder.
use efika_mpd.Base.{
  ℕ, zero, suc, ◌+◌, ◌*◌, ◌≤◌, ◌<◌, ◌≡◌, refl, ap, Bool, List, [], ◌∷◌, ◌++◌, arith, set_bit,
  if◌then◌else◌,
}
use efika_mpd.Firmware.Rc5.{
  State, start, sync, Rc5, rc5_timer_isr, sample, isr_start, hand_over, isr_sync, dispatch, rc5_isr,
}
use efika_mpd.Firmware.Rc5.Invariant.{Interrupt, tick, edge, run, ticks}

run-append : (is js : List Interrupt) (d : Rc5) → run (is ++ js) d ≡ run js (run is d)
unfolding run
run-append [] js d = refl
run-append (tick ∷ is) js d = run-append is js (rc5_timer_isr d)
run-append (edge pin ∷ is) js d = run-append is js (rc5_isr pin d)

-- Ticks that stay within the timeout only count.
run-ticks :
    (n : ℕ) (d : Rc5)
    → d.r_tick_cnt + n ≤ 20
    → run (ticks n) d ≡ record d { r_tick_cnt = d.r_tick_cnt + n }
unfolding run rc5_timer_isr
run-ticks zero d h = ground arith
run-ticks (suc n) d h = ground (arith, run-ticks n (record d { r_tick_cnt = d.r_tick_cnt + 1 }))

-- One bit on the wire, from one middle of a bit to the next: the level `pin` after the edge in
-- the middle, `gap` ticks after the last one, or with an edge on the boundary `early` ticks after
-- the last middle, and then the one in the middle.
pub data Cell : Type 0 where
  direct : (gap : ℕ) (pin : Bool) → Cell
  split : (early : ℕ) (level : Bool) (gap : ℕ) (pin : Bool) → Cell

unfoldable pub interrupts : Cell → List Interrupt
interrupts (direct gap pin) = ticks gap ++ edge pin ∷ []
interrupts (split early level gap pin) = ticks early ++ edge level ∷ (ticks gap ++ edge pin ∷ [])

-- The timing that the decoder tolerates.
abbrev pub OnTime : Cell → Type 0
OnTime (direct gap pin) = (12 ≤ gap) × (gap ≤ 20)
OnTime (split early level gap pin) = (early < 12) × (12 ≤ early + gap) × (early + gap ≤ 20)

-- For the first bit, which follows the edge that starts the frame.
abbrev pub StartsOnTime : Cell → Type 0
StartsOnTime (direct gap pin) = (12 < gap) × (gap ≤ 20)
StartsOnTime (split early level gap pin) =
    (7 ≤ early) × (early < 12) × (12 ≤ early + gap) × (early + gap ≤ 20)

-- A low level is a one.
abbrev pub bit : Cell → ℕ
bit (direct gap pin) = if pin then 0 else 1
bit (split early level gap pin) = if pin then 0 else 1

unfoldable pub transmission : List Cell → List Interrupt
transmission [] = []
transmission (c ∷ cs) = interrupts c ++ transmission cs

-- The number that bits stand for, the most significant first, behind the number `acc`.
abbrev pub value : ℕ → List Cell → ℕ
value acc [] = acc
value acc (c ∷ cs) = value (acc * 2 + bit c) cs

abbrev pub AllOnTime : List Cell → Type 0
AllOnTime [] = Unit {0}
AllOnTime (c ∷ cs) = OnTime c × AllOnTime cs

-- `n` ticks after the last middle of a bit, with `k` levels shifted in, as the number `acc`.
abbrev pub waiting : State → ℕ → ℕ → ℕ → ℕ → Rc5
waiting s k acc n word = record {
  r_state = s;
  r_bit_cnt = k;
  r_tick_cnt = n;
  r_data = acc;
  rc5_data = word;
}

-- Ticks in front of other interrupts.
pub run-ticks-append :
    (s : State) (k acc n m word : ℕ) (is : List Interrupt)
    → n + m ≤ 20
    → run (ticks m ++ is) (waiting s k acc n word) ≡ run is (waiting s k acc (n + m) word)
run-ticks-append s k acc n m word is h =
    rw (run-append (ticks m) is, run-ticks m (waiting s k acc n word) h)

-- An edge on the boundary between two bits is passed over.
pub sync_early :
    (level : Bool) (k acc n word : ℕ) (is : List Interrupt)
    → n < 12
    → run (edge level ∷ is) (waiting sync k acc n word) ≡ run is (waiting sync k acc n word)
unfolding run rc5_isr dispatch isr_sync
sync_early level k acc n word is h = ap (run is) (ground arith)

-- One in the middle of a bit, but not of the last, is shifted in.
pub sync_sample :
    (pin : Bool) (k acc n word : ℕ) (is : List Interrupt)
    → 12 ≤ n
    → k < 12
    → acc < 4096
    → run (edge pin ∷ is) (waiting sync k acc n word)
      ≡ run is (waiting sync (k + 1) (acc * 2 + (if pin then 0 else 1)) 0 word)
unfolding run rc5_isr dispatch isr_sync sample
sync_sample pin k acc n word is h b l = ap (run is) (ground arith)

-- The last is handed over.
pub sync_last :
    (pin : Bool) (acc n word : ℕ)
    → 12 ≤ n
    → acc < 4096
    → (run (edge pin ∷ []) (waiting sync 12 acc n word)).rc5_data
      ≡ set_bit (acc * 2 + (if pin then 0 else 1)) 15
unfolding run rc5_isr dispatch isr_sync sample hand_over
sync_last pin acc n word h l = ground arith

pub start_late :
    (pin : Bool) (n word : ℕ) (is : List Interrupt)
    → 12 < n
    → run (edge pin ∷ is) (waiting start 0 0 n word)
      ≡ run is (waiting sync 1 (if pin then 0 else 1) 0 word)
unfolding run rc5_isr dispatch isr_start sample
start_late pin n word is h = ap (run is) (ground arith)

pub start_early :
    (level : Bool) (n word : ℕ) (is : List Interrupt)
    → 7 ≤ n
    → n < 12
    → run (edge level ∷ is) (waiting start 0 0 n word) ≡ run is (waiting sync 0 0 n word)
unfolding run rc5_isr dispatch isr_start
start_early level n word is h l = ap (run is) (ground arith)
