-- ===== src/Firmware/Lcd/Bus/Busy.antt =====
-- firmware/lcd.c: `lcd_waitbusy` and how it ends.
use efika_mpd.Base.{
  ℕ, zero, suc, ◌+◌, ◌<◌, ◌≤◌, ◌≡◌, refl, ◌∙◌, true, false, List, [], ◌∷◌, arith, ap, Returns,
  Returns->>=, Returns-map, All, length,
}
use efika_mpd.Firmware.Lcd.Bus.{Reg, wait, Bus, delay, wait_ready, lcd_waitbusy, delay_count}
use efika_mpd.Firmware.Lcd.Bus.Protocol.{decode}
use efika_mpd.Firmware.Lcd.Bus.Transfer.{IsSetUp, Gave, Gave-trans, shown, Answered, lcd_read_lem}

-- What PINC reads while the display gives its answers.
abbrev pub answers : List (Reg × Reg) → List Reg → List Reg
answers [] rest = rest
answers (a ∷ qs) rest = a.0 ∷ a.1 ∷ answers qs rest

abbrev pub IsBusy : Reg × Reg → Type 0
IsBusy a = (shown a).p7 ≡ true

abbrev pub IsIdle : Reg × Reg → Type 0
IsIdle a = (shown a).p7 ≡ false

abbrev pub Waited : Bus → List Reg → Bus → Type 0
Waited b rest b' = (b'.input ≡ rest) × Gave b [] b'

wait_ready_lem :
    (busy : List (Reg × Reg)) (idle : Reg × Reg) (rest : List Reg) (fuel : ℕ) (b : Bus)
    → IsSetUp b
    → All IsBusy busy
    → IsIdle idle
    → length busy < fuel
    → b.input ≡ answers busy (idle.0 ∷ idle.1 ∷ rest)
    → Returns (Waited b rest) (wait_ready fuel b)
unfolding wait_ready
wait_ready_lem busy idle rest zero b s v w h e = absurd (omega (arith, h))
wait_ready_lem [] idle rest (suc fuel) b s v w h e =
    Returns->>= (Answered b idle rest) (Waited b rest) _ _ (lcd_read_lem idle b rest s e)
      λ r o. rw (ap (λ (c : Reg). c.p7) o.0 ∙ w) (o.1, o.2)
wait_ready_lem (a ∷ busy) idle rest (suc fuel) b s v w h e =
    Returns->>= (Answered b a _) (Waited b rest) _ _ (lcd_read_lem a b _ s e) λ r o.
      rw (ap (λ (c : Reg). c.p7) o.0 ∙ v.0) (
        Returns-map (Waited (r.1) rest) (Waited b rest) _
          (wait_ready_lem busy idle rest fuel (r.1) o.2.4 v.1 w (omega (arith, h)) o.1)
          λ b' q. (q.0, Gave-trans b (r.1) b' [] [] o.2 q.1))

length-answers :
    (busy : List (Reg × Reg)) (rest : List Reg)
    → length busy + length rest ≤ length (answers busy rest)
length-answers [] rest = omega arith
length-answers (a ∷ busy) rest = omega (arith, length-answers busy rest)

pub delay-Gave : (us : ℕ) (b : Bus) → IsSetUp b → Gave b [] (delay us b)
unfolding delay decode
delay-Gave us b s = (
  wait (delay_count us) ∷ [],
  refl,
  refl,
  refl,
  record { rs_out = s.rs_out; rw_out = s.rw_out; e_out = s.e_out },
)

pub delay-input : (us : ℕ) (b : Bus) → (delay us b).input ≡ b.input
unfolding delay
delay-input us b = refl

-- However often the display answers that it is busy, `lcd_waitbusy` ends with its first answer
-- that it is not: it returns the answer after that one, has taken just these answers, gives the
-- display no byte, and leaves the data lines to the display while it answers. The control lines
-- have to be outputs.
pub lcd_waitbusy_lem :
    (busy : List (Reg × Reg)) (idle address : Reg × Reg) (rest : List Reg) (b : Bus)
    → IsSetUp b
    → All IsBusy busy
    → IsIdle idle
    → b.input ≡ answers busy (idle.0 ∷ idle.1 ∷ address.0 ∷ address.1 ∷ rest)
    → Returns (Answered b address rest) (lcd_waitbusy b)
unfolding lcd_waitbusy
lcd_waitbusy_lem busy idle address rest b s v w e =
    let fuel : length busy < suc (length b.input) =
      omega (
        arith,
        ap length e,
        length-answers busy (idle.0 ∷ idle.1 ∷ address.0 ∷ address.1 ∷ rest),
      ) in
    Returns->>= (Waited b (address.0 ∷ address.1 ∷ rest)) (Answered b address rest) _ _
      (wait_ready_lem busy idle _ _ b s v w fuel e)
      λ b1 q.
        Returns-map (Answered (delay 2 b1) address rest) (Answered b address rest) _
          (lcd_read_lem address (delay 2 b1) rest (delay-Gave 2 b1 q.1.4).4
            (delay-input 2 b1 ∙ q.0))
          λ r o. (
            o.0,
            o.1,
            Gave-trans b (delay 2 b1) (r.1) [] []
                (Gave-trans b b1 (delay 2 b1) [] [] q.1 (delay-Gave 2 b1 q.1.4)) o.2,
          )
