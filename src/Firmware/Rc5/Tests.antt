-- ===== src/Firmware/Rc5/Tests.antt =====
-- Tests of firmware/rc5_x.c on one frame: address 3 and code 66, with the toggle bit set.
use efika_mpd.Base.{
  ◌+◌, ◌^◌, if◌then◌else◌, ◌≡◌, refl, Bool, true, false, List, [], ◌∷◌, arith, set_bit,
}
use efika_mpd.Firmware.Rc5.{
  idle, sync, Rc5, rc5_timer_isr, rc5_isr, dispatch, isr_start, isr_sync, sample, hand_over,
  rc5_init,
}
use efika_mpd.Firmware.Rc5.Invariant.{
  tick, edge, IsValid, run, ticks, run-rc5_init-IsValid, run-ticks_idle,
}
use efika_mpd.Firmware.Rc5.Wire.{Cell, direct, split, transmission, value, interrupts}
use efika_mpd.Firmware.Rc5.Frame.{run-frame}
use efika_mpd.Firmware.Rc5.Key.{key_word}

abbrev at_rest : Rc5
at_rest = record { r_state = idle; r_bit_cnt = 0; r_tick_cnt = 200; r_data = 0; rc5_data = 0 }

-- The first three levels of a frame have been shifted in.
abbrev broken_off : Rc5
broken_off = record { r_state = sync; r_bit_cnt = 3; r_tick_cnt = 5; r_data = 3; rc5_data = 0 }

-- A bit that is equal to the one before has an edge on the boundary between them.
abbrev again : Bool → Cell
again pin = split 8 (if pin then false else true) 8 pin

abbrev first : Cell
first = direct 16 true

abbrev rest : List Cell
rest =
    direct 16 false
    ∷ direct 16 true
    ∷ again true
    ∷ again true
    ∷ direct 16 false
    ∷ again false
    ∷ direct 16 true
    ∷ again true
    ∷ again true
    ∷ again true
    ∷ direct 16 false
    ∷ direct 16 true
    ∷ []

run-rc5_init_example : IsValid (run (edge false ∷ tick ∷ edge true ∷ []) (rc5_init at_rest))
run-rc5_init_example =
    run-rc5_init-IsValid (edge false ∷ tick ∷ edge true ∷ []) at_rest (omega arith)

broken_off-IsValid : IsValid broken_off
broken_off-IsValid = ground arith

run-ticks_example :
    let d' = run (ticks 21) broken_off in (d'.r_state ≡ idle) × (d'.r_bit_cnt ≡ 0) × (d'.r_data ≡ 0)
run-ticks_example = run-ticks_idle 21 broken_off broken_off-IsValid (omega arith)

frame_example :
    (run (edge false ∷ transmission (first ∷ rest)) at_rest).rc5_data
    ≡ set_bit (value 0 (first ∷ rest)) 15
frame_example = run-frame false first rest at_rest refl refl refl (omega arith) (ground arith) refl

-- The decoder itself, on the same interrupts.
frame_word :
    (run (edge false ∷ transmission (first ∷ rest)) at_rest).rc5_data ≡ key_word 1 3 66 + 2 ^ 15
unfolding transmission interrupts run rc5_isr rc5_timer_isr dispatch isr_start isr_sync sample
    hand_over
frame_word = refl
