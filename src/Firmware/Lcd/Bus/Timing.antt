-- ===== src/Firmware/Lcd/Bus/Timing.antt =====
-- firmware/lcd.c: the waits of `delay`.
use efika_mpd.Base.{ℕ, ◌*◌, ◌/◌, ◌≤◌, ◌<◌, ◌≡◌, arith, ◌==◌, if◌then◌else◌}
use efika_mpd.Firmware.Lcd.{xtal}
use efika_mpd.Firmware.Lcd.Bus.{delay_count, delay_four_cycles}

abbrev pub cycles_per_us : ℕ
cycles_per_us = xtal / 1_000_000

-- For a wait of up to 32767 microseconds, the count that `delay` computes fits the 16 bits of the
-- counter, and the loops take the cycles of that time at the clock that the code is built for; a
-- wait of no microseconds takes two cycles.
pub delay_lem :
    (us : ℕ)
    → us ≤ 32767
    → (delay_count us < 65536)
      × (delay_four_cycles (delay_count us) ≡ (if us == 0 then 2 else us * cycles_per_us))
unfolding delay_count delay_four_cycles
delay_lem us h = ground (arith, h)
