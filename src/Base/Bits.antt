-- ===== src/Base/Bits.antt =====
-- Single bits of a byte or word: `_BV(m)`, and the macros SET_BIT, CLEAR_BIT and BIT_IS_SET of
-- firmware/defines.h. `&` with a run of low ones is `%`, and a shift is `/` or `*`.
use Prim.Native.Nat.{ℕ, ◌+◌, ◌-◌, ◌/◌, ◌%◌, ◌^◌}
use mathlib.Core.Bool.{Bool}
use efika_mpd.Base.Tests.{◌==◌, if◌then◌else◌}

abbrev pub bit_is_set : ℕ → ℕ → Bool
bit_is_set p m = p / 2 ^ m % 2 == 1

abbrev pub set_bit : ℕ → ℕ → ℕ
set_bit p m = if bit_is_set p m then p else p + 2 ^ m

abbrev pub clear_bit : ℕ → ℕ → ℕ
clear_bit p m = if bit_is_set p m then p - 2 ^ m else p
