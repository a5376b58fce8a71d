-- ===== src/Firmware/Rc5/Key.antt =====
-- firmware/rc5_x.c: from a key of the remote to the address and code of `rc5_get`.
use efika_mpd.Base.{
  ℕ, ◌+◌, ◌*◌, ◌%◌, ◌<◌, ◌≡◌, ◌∙◌, ap, Bool, List, ◌∷◌, arith, length, leb, set_bit, if◌then◌else◌,
}
use efika_mpd.Firmware.Rc5.{idle, Rc5, rc5_get}
use efika_mpd.Firmware.Rc5.Invariant.{edge, run}
use efika_mpd.Firmware.Rc5.Wire.{Cell, StartsOnTime, AllOnTime, transmission, value}
use efika_mpd.Firmware.Rc5.Frame.{run-frame}

-- The thirteen bits that a remote sends for a key: the second start bit, which is the complement
-- of the code's seventh bit, the toggle bit, five bits of address and six of code.
abbrev pub key_word : ℕ → ℕ → ℕ → ℕ
key_word toggle addr code =
    (if leb 64 code then 0 else 1) * 4096 + toggle * 2048 + addr * 64 + code % 64

rc5_get-key_word :
    (toggle addr code : ℕ)
    → toggle < 2
    → addr < 32
    → code < 128
    → rc5_get (set_bit (key_word toggle addr code) 15) ≡ (addr, code)
unfolding rc5_get
rc5_get-key_word toggle addr code t a c = ground arith

-- A key whose frame is received on time comes out of `rc5_get` as its address and its code of
-- seven bits, whatever the toggle bit is.
pub receive_key :
    (pin : Bool) (c : Cell) (cs : List Cell) (d : Rc5) (toggle addr code : ℕ)
    → d.r_state ≡ idle
    → d.r_bit_cnt ≡ 0
    → d.r_data ≡ 0
    → StartsOnTime c
    → AllOnTime cs
    → length cs ≡ 12
    → value 0 (c ∷ cs) ≡ key_word toggle addr code
    → toggle < 2
    → addr < 32
    → code < 128
    → rc5_get (run (edge pin ∷ transmission (c ∷ cs)) d).rc5_data ≡ (addr, code)
receive_key pin c cs d toggle addr code e k z t ts l w ht ha hc =
    ap rc5_get (run-frame pin c cs d e k z t ts l ∙ ap (λ v. set_bit v 15) w)
    ∙ rc5_get-key_word toggle addr code ht ha hc
