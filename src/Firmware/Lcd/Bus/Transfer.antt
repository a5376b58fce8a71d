-- ===== src/Firmware/Lcd/Bus/Transfer.antt =====
-- firmware/lcd.c: what `lcd_write` and `lcd_read` put on the lines.
use efika_mpd.Base.{
  ℕ, ◌<◌, ◌≡◌, refl, sym, subst, ◌∙◌, Bool, true, false, some, List, [], ◌∷◌, ◌++◌, ap,
  append_assoc, Returns,
}
use efika_mpd.Firmware.Lcd.Bus.{
  Reg, Act, strobe, Bus, toggle_e, lcd_e_high, lcd_e_low, lcd_rw_high, lcd_rw_low, lcd_rs_high,
  lcd_rs_low, write_pins, lcd_write, read_pins, lcd_read,
}
use efika_mpd.Firmware.Lcd.Bus.Protocol.{
  Write, decode, high_half, low_half, question, decode-append, decode-halves, decode-questions,
}

-- The control lines are outputs, as `lcd_init` leaves them.
pub record IsSetUp (b : Bus) : Type 0 where
  pub rs_out : b.ddr_d.p3 ≡ true
  pub rw_out : b.ddr_c.p1 ≡ true
  pub e_out : b.ddr_c.p0 ≡ true

-- What the driver has no business with: the other pins of the two ports.
abbrev pub others : Bus → List Bool
others b =
    b.out_c.p6 ∷ b.out_c.p7 ∷ b.ddr_c.p6 ∷ b.ddr_c.p7 ∷ b.out_d.p0 ∷ b.out_d.p1 ∷ b.out_d.p2
    ∷ b.out_d.p4 ∷ b.out_d.p5 ∷ b.out_d.p6 ∷ b.out_d.p7 ∷ b.ddr_d.p0 ∷ b.ddr_d.p1 ∷ b.ddr_d.p2
    ∷ b.ddr_d.p4 ∷ b.ddr_d.p5 ∷ b.ddr_d.p6 ∷ b.ddr_d.p7 ∷ []

-- A bus whose control lines are outputs is this one.
abbrev pub driven : Bus → Bus
driven b = record b {
  ddr_c = record (b.ddr_c) { p0 = true; p1 = true };
  ddr_d = record (b.ddr_d) { p3 = true };
}

pub driven-IsSetUp : (b : Bus) → IsSetUp b → b ≡ driven b
driven-IsSetUp b s = λ i. record b {
  ddr_c = record (b.ddr_c) { p0 = s.e_out i; p1 = s.rw_out i };
  ddr_d = record (b.ddr_d) { p3 = s.rs_out i };
}

-- The driver gave the display the bytes `ws`, kept to the protocol, and left the other pins alone.
abbrev pub Gave : Bus → List Write → Bus → Type 0
Gave b ws b' =
    (acts : List Act) × (b'.trace ≡ b.trace ++ acts)
    × (decode acts ≡ some ws)
    × (others b' ≡ others b)
    × IsSetUp b'

pub Gave-trans :
    (b b1 b2 : Bus) (ws vs : List Write) → Gave b ws b1 → Gave b1 vs b2 → Gave b (ws ++ vs) b2
Gave-trans b b1 b2 ws vs g h = (
  g.0 ++ h.0,
  h.1 ∙ ap (λ x. x ++ h.0) g.1 ∙ append_assoc b.trace g.0 h.0,
  decode-append g.0 h.0 ws vs g.2 h.2,
  h.3 ∙ g.3,
  h.4,
)

write_driven :
    (d : ℕ) (rs : Bool) (b : Bus) → d < 256 → Gave b ((rs, d) ∷ []) (lcd_write d rs (driven b))
unfolding lcd_write write_pins toggle_e lcd_e_high lcd_e_low lcd_rw_low lcd_rs_high lcd_rs_low
write_driven d true b h = (
  strobe (high_half true d) ∷ strobe (low_half true d) ∷ [],
  append_assoc b.trace (strobe (high_half true d) ∷ []) (strobe (low_half true d) ∷ []),
  decode-halves true d h,
  refl,
  record { rs_out = refl; rw_out = refl; e_out = refl },
)
write_driven d false b h = (
  strobe (high_half false d) ∷ strobe (low_half false d) ∷ [],
  append_assoc b.trace (strobe (high_half false d) ∷ []) (strobe (low_half false d) ∷ []),
  decode-halves false d h,
  refl,
  record { rs_out = refl; rw_out = refl; e_out = refl },
)

-- A byte that `lcd_write` writes is the one that the display takes, in one transfer, and the
-- driver touches no pin that is not the display's. The control lines have to be outputs.
pub lcd_write_lem :
    (d : ℕ) (rs : Bool) (b : Bus) → IsSetUp b → d < 256 → Gave b ((rs, d) ∷ []) (lcd_write d rs b)
lcd_write_lem d rs b s h =
    subst (λ x. Gave b ((rs, d) ∷ []) (lcd_write d rs x)) (sym (driven-IsSetUp b s))
      (write_driven d rs b h)

pub lcd_write-input : (d : ℕ) (rs : Bool) (b : Bus) → (lcd_write d rs b).input ≡ b.input
unfolding lcd_write write_pins toggle_e lcd_e_high lcd_e_low lcd_rw_low lcd_rs_high lcd_rs_low
lcd_write-input d true b = refl
lcd_write-input d false b = refl

-- The byte that the display shows in two pulses, the high half first.
abbrev pub shown : Reg × Reg → Reg
shown (hi, lo) = record {
  p0 = lo.p2;
  p1 = lo.p3;
  p2 = lo.p4;
  p3 = lo.p5;
  p4 = hi.p2;
  p5 = hi.p3;
  p6 = hi.p4;
  p7 = hi.p5;
}

-- The display answers a reading, and that gives it no byte.
abbrev pub Answered : Bus → Reg × Reg → List Reg → Reg × Bus → Type 0
Answered b a rest r = (r.0 ≡ shown a) × (r.1.input ≡ rest) × Gave b [] r.1

read_driven :
    (a : Reg × Reg) (b : Bus) (rest : List Reg)
    → Returns (Answered b a rest) (lcd_read false (driven (record b { input = a.0 ∷ a.1 ∷ rest })))
unfolding lcd_read read_pins toggle_e lcd_e_high lcd_e_low lcd_rw_high lcd_rs_high lcd_rs_low
read_driven a b rest = (
  refl,
  refl,
  (
    strobe question ∷ strobe question ∷ [],
    append_assoc b.trace (strobe question ∷ []) (strobe question ∷ []),
    decode-questions,
    refl,
    record { rs_out = refl; rw_out = refl; e_out = refl },
  ),
)

pub lcd_read_lem :
    (a : Reg × Reg) (b : Bus) (rest : List Reg)
    → IsSetUp b
    → b.input ≡ a.0 ∷ a.1 ∷ rest
    → Returns (Answered b a rest) (lcd_read false b)
lcd_read_lem a b rest s h =
    subst (λ x. Returns (Answered b a rest) (lcd_read false x)) (sym (driven-input b s h))
      (read_driven a b rest)
  where
    driven-input :
        (b : Bus) {is : List Reg} → IsSetUp b → b.input ≡ is → b ≡ driven (record b { input = is })
    driven-input b s e = λ i. record b {
      ddr_c = record (b.ddr_c) { p0 = s.e_out i; p1 = s.rw_out i };
      ddr_d = record (b.ddr_d) { p3 = s.rs_out i };
      input = e i;
    }
