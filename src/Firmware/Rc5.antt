-- ===== src/Firmware/Rc5.antt =====
-- firmware/rc5_x.c and rc5_x.h: the decoder of the infrared remote's RC5 code. It is driven by two
-- interrupts: an edge of the receiver's pin, and hardware timer 0, which ticks about eight times in
-- half a bit. The registers of the pin and of the timer are left out, and the level of the pin is
-- an argument, `true` for high.
pub mod Invariant
pub mod Wire
pub mod Frame
pub mod Key
mod Tests
use efika_mpd.Base.{
  ℕ, zero, suc, ◌+◌, ◌*◌, ◌/◌, ◌%◌, ◌^◌, Bool, true, false, ltb, leb, ◌==◌, if◌then◌else◌,
  bit_is_set, set_bit,
}

abbrev pub rc5_flag_valid : ℕ
rc5_flag_valid = 15

abbrev pub rc5_bit_s2 : ℕ
rc5_bit_s2 = 12

abbrev pub rc5_pulse_duration : ℕ
rc5_pulse_duration = 7

abbrev pub rc5_start_treshold : ℕ
rc5_start_treshold = 12

abbrev pub rc5_toggle_timeout : ℕ
rc5_toggle_timeout = 20

pub data State : Type 0 where
  idle start sync finish : State

-- The fields of `rc5_ctx`, and the variable `rc5_data` through which a frame is handed over.
pub record Rc5 : Type 0 where
  pub r_state : State
  pub r_bit_cnt : ℕ
  pub r_tick_cnt : ℕ
  pub r_data : ℕ
  pub rc5_data : ℕ

abbrev pub rc5_reset_ctx : Rc5 → Rc5
rc5_reset_ctx d = record d { r_state = idle; r_bit_cnt = 0; r_data = 0 }

abbrev pub rc5_reset_timer : Rc5 → Rc5
rc5_reset_timer d = record d { r_tick_cnt = 0 }

unfoldable pub rc5_timer_isr : Rc5 → Rc5
rc5_timer_isr d =
    let ticked = record d { r_tick_cnt = (d.r_tick_cnt + 1) % 256 } in
    if ltb rc5_toggle_timeout ticked.r_tick_cnt then rc5_reset_ctx ticked else ticked

-- The lines that START and SYNC share: the timer restarts, and the level is shifted in.
unfoldable pub sample : Bool → Rc5 → Rc5
sample pin d =
    let shifted = d.r_data * 2 % 2 ^ 16 in
    record (rc5_reset_timer d) {
      r_data = if pin then shifted else set_bit shifted 0;
      r_bit_cnt = (d.r_bit_cnt + 1) % 256;
    }

unfoldable pub isr_start : Bool → Rc5 → Rc5
isr_start pin d =
    if leb rc5_pulse_duration d.r_tick_cnt
    then (let d' = if ltb rc5_start_treshold d.r_tick_cnt then sample pin d else d in
        record d' { r_state = sync })
    else rc5_reset_ctx d

-- The end of SYNC, once the level has been shifted in.
unfoldable pub hand_over : Bool → Rc5 → Rc5
hand_over pin d =
    let given = record d { rc5_data = set_bit d.r_data rc5_flag_valid } in
    if pin then rc5_reset_ctx given else record given { r_state = finish }

unfoldable pub isr_sync : Bool → Rc5 → Rc5
isr_sync pin d =
    if leb rc5_start_treshold d.r_tick_cnt
    then (let d' = sample pin d in if d'.r_bit_cnt == 13 then hand_over pin d' else d')
    else d

unfoldable pub dispatch : State → Bool → Rc5 → Rc5
dispatch idle pin d = record (rc5_reset_timer d) { r_state = start }
dispatch start pin d = isr_start pin d
dispatch sync pin d = isr_sync pin d
dispatch finish pin d = rc5_reset_ctx d

unfoldable pub rc5_isr : Bool → Rc5 → Rc5
rc5_isr pin d = dispatch d.r_state pin d

-- The interrupts of hardware timer 0 and of the receiver's pin.
abbrev pub timer0_ovf_vect : Rc5 → Rc5
timer0_ovf_vect d = rc5_timer_isr d

abbrev pub int0_vect : Bool → Rc5 → Rc5
int0_vect pin d = rc5_isr pin d

-- The two results go through the pointers `addr` and `cmd`.
unfoldable pub rc5_get : ℕ → ℕ × ℕ
rc5_get word =
    let cmd = word % 2 ^ 6 in
    (word / 2 ^ 6 % 2 ^ 5, if bit_is_set word rc5_bit_s2 then cmd else set_bit cmd 6)

-- The two counters are zero at reset, as static variables are.
unfoldable pub rc5_init : Rc5 → Rc5
rc5_init d = rc5_reset_ctx d
