-- ===== src/Firmware/Board/Main/Keys.antt =====
-- firmware/main.c: what the main loop does with a key of the remote.
use efika_mpd.Base.{
  ℕ, ◌<◌, ◌≡◌, refl, Bool, true, false, some, List, [], ◌∷◌, ◌++◌, map, arith, ◌==◌, ◌^◌,
  if◌then◌else◌, length, bit_is_set, set_bit, Returns, ◌>>=◌, Option-cases, inl, inr,
}
use efika_mpd.Firmware.Timers.{timer_enable, timer_update}
use efika_mpd.Firmware.Rc5.{Rc5, idle, rc5_get, rc5_timer_isr, rc5_isr}
use efika_mpd.Firmware.Rc5.Invariant
use efika_mpd.Firmware.Rc5.Invariant.{Interrupt, tick, edge}
use efika_mpd.Firmware.Rc5.Wire.{Cell, StartsOnTime, AllOnTime, transmission, value}
use efika_mpd.Firmware.Rc5.Frame.{run-frame}
use efika_mpd.Firmware.Rc5.Key.{key_word, receive_key}
use efika_mpd.Firmware.Board.{send, Board, stb_code, flag_debounce}
use efika_mpd.Firmware.Board.Main.{
  forward_key, pulse_power, handle_key, Event, timer0_isr, int0_isr, loops, step, round, receive,
  uart_no_data,
}
use efika_mpd.Firmware.Board.Main.Rounds.{run}

-- A key that has been received is used up. It is sent to the client, the address before the code,
-- exactly if the debounce flag is clear, which is set afterwards in any case, and the pin of the
-- power supply goes high exactly for the standby key.
pub handle_key_lem :
    (b : Board) (addr code : ℕ)
    → bit_is_set b.1.rc5.rc5_data 15 ≡ true
    → rc5_get b.1.rc5.rc5_data ≡ (addr, code)
    → let p' = (handle_key b).1 in
      (p'.rc5.rc5_data ≡ 0)
      × (p'.effects ≡ (
          if bit_is_set b.1.ctx.flags flag_debounce
          then b.1.effects
          else b.1.effects ++ send addr ∷ send code ∷ []))
      × (bit_is_set p'.ctx.flags flag_debounce ≡ true)
      × (p'.ps_pin ≡ (if code == stb_code then true else b.1.ps_pin))
unfolding handle_key pulse_power forward_key
handle_key_lem (t, p) addr code v e = ground arith

-- The interrupts of the decoder, as events of the board.
abbrev pub event : Interrupt → Event
event tick = timer0_isr
event (edge pin) = int0_isr pin

-- They work on the decoder alone.
run-event :
    (is : List Interrupt) (b : Board)
    → run (map event is) b
      ≡ some (b.0, record (b.1) { rc5 = efika_mpd.Firmware.Rc5.Invariant.run is b.1.rc5 })
unfolding run step efika_mpd.Firmware.Rc5.Invariant.run
run-event [] b = refl
run-event (tick ∷ is) (t, p) = run-event is (t, record p { rc5 = rc5_timer_isr p.rc5 })
run-event (edge pin ∷ is) (t, p) = run-event is (t, record p { rc5 = rc5_isr pin p.rc5 })

run-append : (es fs : List Event) (b : Board) → run (es ++ fs) b ≡ (run es b >>= run fs)
unfolding run
run-append [] fs b = refl
run-append (e ∷ es) fs b = elim (Option-cases (step e b)) [
  | inl f ↦ rw f refl
  | inr (b', f) ↦ rw f (run-append es fs b')
]

flagged : (v : ℕ) → v < 2 ^ 15 → bit_is_set (set_bit v 15) 15 ≡ true
flagged v h = ground arith

key_word-lt :
    (toggle addr code : ℕ)
    → toggle < 2
    → addr < 32
    → code < 128
    → key_word toggle addr code < 2 ^ 15
key_word-lt toggle addr code t a c = ground arith

handle_key_irq : (b : Board) → (handle_key b).0.irq ≡ b.0.irq
unfolding handle_key pulse_power forward_key timer_enable
handle_key_irq (t, p) = ground arith

-- A round in which no byte comes in, with no interrupt of the timers before it.
quiet_round :
    (w : ℕ) (b : Board)
    → bit_is_set w uart_no_data ≡ true
    → b.0.irq ≡ 0
    → round w b ≡ some (handle_key b)
unfolding round receive timer_update
quiet_round w b n q = ground (arith, n, handle_key_irq b, q)

-- A key that is pressed reaches the client. A frame comes in on time, of which the thirteen bits
-- spell a key's word, to a decoder at rest, with the debounce flag clear and no interrupt of the
-- timers pending, and nothing but the decoder's interrupts happens until its end. Then the next
-- round of the main loop, if no byte comes in from the client, sends the key's address and its code,
-- and nothing else: it ends without a fault, and the two bytes are all that the frame and the round
-- have any of the drivers do.
pub key_sent :
    (pin : Bool) (c : Cell) (cs : List Cell) (b : Board) (toggle addr code uart : ℕ)
    → b.1.rc5.r_state ≡ idle
    → b.1.rc5.r_bit_cnt ≡ 0
    → b.1.rc5.r_data ≡ 0
    → bit_is_set b.1.ctx.flags flag_debounce ≡ false
    → b.0.irq ≡ 0
    → StartsOnTime c
    → AllOnTime cs
    → length cs ≡ 12
    → value 0 (c ∷ cs) ≡ key_word toggle addr code
    → toggle < 2
    → addr < 32
    → code < 128
    → bit_is_set uart uart_no_data ≡ true
    → Returns
        (λ b'. b'.1.effects ≡ b.1.effects ++ send addr ∷ send code ∷ [])
        (run (map event (edge pin ∷ transmission (c ∷ cs)) ++ loops uart ∷ []) b)
unfolding run step
key_sent pin c cs b toggle addr code uart e k z f q t ts l w ht ha hc n =
    rw (run-append (map event (edge pin ∷ transmission (c ∷ cs))) (loops uart ∷ []) b) (
      rw (run-event (edge pin ∷ transmission (c ∷ cs)) b) (
        rw (quiet_round uart (b.0, record (b.1) { rc5 = d }) n q)
          (rw f at (handle_key_lem (b.0, record (b.1) { rc5 = d }) addr code valid received).1)))
  where
    d : Rc5
    d = efika_mpd.Firmware.Rc5.Invariant.run (edge pin ∷ transmission (c ∷ cs)) b.1.rc5

    valid : bit_is_set d.rc5_data 15 ≡ true
    valid =
        rw (run-frame pin c cs b.1.rc5 e k z t ts l)
          (flagged (value 0 (c ∷ cs)) (rw w (key_word-lt toggle addr code ht ha hc)))

    received : rc5_get d.rc5_data ≡ (addr, code)
    received = receive_key pin c cs b.1.rc5 toggle addr code e k z t ts l w ht ha hc
