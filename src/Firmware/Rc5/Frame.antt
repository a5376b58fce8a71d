-- ===== src/Firmware/Rc5/Frame.antt =====
-- firmware/rc5_x.c: the decoding of a frame of thirteen bits.
use native.Mathlib.Nat.{le_trans, pow-le-pow_right}
use efika_mpd.Base.{
  ℕ, ◌+◌, ◌*◌, ◌^◌, ◌≤◌, ◌<◌, ◌≡◌, ◌∙◌, ap, Bool, List, [], ◌∷◌, ◌++◌, arith, length, set_bit,
  append_assoc,
}
use efika_mpd.Firmware.Rc5.{idle, start, sync, Rc5, dispatch, rc5_isr}
use efika_mpd.Firmware.Rc5.Invariant.{Interrupt, edge, run, ticks, pow_step}
use efika_mpd.Firmware.Rc5.Wire.{
  Cell, direct, split, interrupts, OnTime, StartsOnTime, bit, transmission, value, AllOnTime,
  waiting, run-ticks-append, sync_early, sync_sample, sync_last, start_late, start_early,
}

-- A bit that is not the last.
run-interrupts :
    (c : Cell) (k acc word : ℕ) (is : List Interrupt)
    → OnTime c
    → k < 12
    → acc < 4096
    → run (interrupts c ++ is) (waiting sync k acc 0 word)
      ≡ run is (waiting sync (k + 1) (acc * 2 + bit c) 0 word)
unfolding interrupts
run-interrupts (direct gap pin) k acc word is t h b =
    rw
      (
        append_assoc (ticks gap),
        run-ticks-append sync k acc 0 gap word (edge pin ∷ is) (omega arith),
      )
      (sync_sample pin k acc (0 + gap) word is (omega arith) h b)
run-interrupts (split early level gap pin) k acc word is t h b =
    rw
      (
        append_assoc (ticks early),
        run-ticks-append sync k acc 0 early word (edge level ∷ (ticks gap ++ edge pin ∷ []) ++ is)
            (omega arith),
        sync_early level k acc (0 + early) word ((ticks gap ++ edge pin ∷ []) ++ is) (omega arith),
        append_assoc (ticks gap),
        run-ticks-append sync k acc (0 + early) gap word (edge pin ∷ is) (omega arith),
      )
      (sync_sample pin k acc (0 + early + gap) word is (omega arith) h b)

-- The last bit.
run-interrupts_last :
    (c : Cell) (acc word : ℕ)
    → OnTime c
    → acc < 4096
    → (run (interrupts c ++ []) (waiting sync 12 acc 0 word)).rc5_data
      ≡ set_bit (acc * 2 + bit c) 15
unfolding interrupts
run-interrupts_last (direct gap pin) acc word t b =
    rw
      (
        append_assoc (ticks gap),
        run-ticks-append sync 12 acc 0 gap word (edge pin ∷ []) (omega arith),
      )
      (sync_last pin acc (0 + gap) word (omega arith) b)
run-interrupts_last (split early level gap pin) acc word t b =
    rw
      (
        append_assoc (ticks early),
        run-ticks-append sync 12 acc 0 early word (edge level ∷ (ticks gap ++ edge pin ∷ []) ++ [])
            (omega arith),
        sync_early level 12 acc (0 + early) word ((ticks gap ++ edge pin ∷ []) ++ []) (omega arith),
        append_assoc (ticks gap),
        run-ticks-append sync 12 acc (0 + early) gap word (edge pin ∷ []) (omega arith),
      )
      (sync_last pin acc (0 + early + gap) word (omega arith) b)

-- The first bit, in START.
run-interrupts_first :
    (c : Cell) (word : ℕ) (is : List Interrupt)
    → StartsOnTime c
    → run (interrupts c ++ is) (waiting start 0 0 0 word) ≡ run is (waiting sync 1 (bit c) 0 word)
unfolding interrupts
run-interrupts_first (direct gap pin) word is t =
    rw
      (
        append_assoc (ticks gap),
        run-ticks-append start 0 0 0 gap word (edge pin ∷ is) (omega arith),
      )
      (start_late pin (0 + gap) word is (omega arith))
run-interrupts_first (split early level gap pin) word is t =
    rw
      (
        append_assoc (ticks early),
        run-ticks-append start 0 0 0 early word (edge level ∷ (ticks gap ++ edge pin ∷ []) ++ is)
            (omega arith),
        start_early level (0 + early) word ((ticks gap ++ edge pin ∷ []) ++ is) (omega arith)
            (omega arith),
        append_assoc (ticks gap),
        run-ticks-append sync 0 0 (0 + early) gap word (edge pin ∷ is) (omega arith),
      )
      (sync_sample pin 0 0 (0 + early + gap) word is (omega arith) (omega arith) (omega arith)
        ∙ ap (λ b. run is (waiting sync 1 b 0 word)) (omega arith))

bit-le : (c : Cell) → bit c ≤ 1
bit-le (direct gap pin) = ground arith
bit-le (split early level gap pin) = ground arith

small : (k acc : ℕ) → k ≤ 12 → acc < 2 ^ k → acc < 4096
small k acc h b = le_trans b (pow-le-pow_right {n = 2} (omega arith) h)

-- The bits from number `k` on.
run-transmission :
    (cs : List Cell) (k acc word : ℕ)
    → AllOnTime cs
    → length cs + k ≡ 13
    → k ≤ 12
    → acc < 2 ^ k
    → (run (transmission cs) (waiting sync k acc 0 word)).rc5_data ≡ set_bit (value acc cs) 15
unfolding transmission
run-transmission [] k acc word t l h b = absurd (omega arith)
run-transmission (c ∷ []) k acc word t l h b =
    let e : k ≡ 12 = omega arith in rw e (run-interrupts_last c acc word t.0 (ground arith))
run-transmission (c ∷ c' ∷ cs) k acc word t l h b =
    rw (run-interrupts c k acc word (transmission (c' ∷ cs)) t.0 (omega arith) (small k acc h b)) (
      run-transmission (c' ∷ cs) (k + 1) (acc * 2 + bit c) word t.1 (omega arith) (omega arith)
        (omega (arith, pow_step k, bit-le c)))

idle_edge :
    (pin : Bool) (d : Rc5) (is : List Interrupt)
    → d.r_state ≡ idle
    → d.r_bit_cnt ≡ 0
    → d.r_data ≡ 0
    → run (edge pin ∷ is) d ≡ run is (waiting start 0 0 0 d.rc5_data)
unfolding run rc5_isr dispatch
idle_edge pin d is e k z = ap (run is) (ground arith)

-- A frame on time is decoded: an edge out of IDLE, a first bit that START accepts and twelve more
-- bits leave in `rc5_data` the number that the thirteen bits spell, with the valid flag set, also
-- where edges on the boundaries between bits come in between, and whatever word was there before.
pub run-frame :
    (pin : Bool) (c : Cell) (cs : List Cell) (d : Rc5)
    → d.r_state ≡ idle
    → d.r_bit_cnt ≡ 0
    → d.r_data ≡ 0
    → StartsOnTime c
    → AllOnTime cs
    → length cs ≡ 12
    → (run (edge pin ∷ transmission (c ∷ cs)) d).rc5_data ≡ set_bit (value 0 (c ∷ cs)) 15
unfolding transmission
run-frame pin c cs d e k z t ts l =
    rw
      (
        idle_edge pin d (interrupts c ++ transmission cs) e k z,
        run-interrupts_first c d.rc5_data (transmission cs) t,
      )
      (run-transmission cs 1 (bit c) d.rc5_data ts (omega arith) (omega arith)
          (omega (arith, bit-le c))
        ∙ ap (λ b. set_bit (value b cs) 15) (omega arith))
