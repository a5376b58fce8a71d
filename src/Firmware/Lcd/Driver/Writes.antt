-- ===== src/Firmware/Lcd/Driver/Writes.antt =====
-- firmware/lcd.c: the bytes that each operation gives to the display, when it answers.
use efika_mpd.Base.{
  ℕ, ◌+◌, ◌%◌, ◌<◌, ◌≡◌, true, false, Option, List, [], ◌∷◌, ◌++◌, ltb, ◌==◌, if◌then◌else◌, ◌>>=◌,
  arith, Returns, Returns->>=, Returns-map, All, ◌∙◌, sym, subst, Bool-cases, inl, inr,
}
use efika_mpd.Firmware.Lcd.Bus.{Reg, Bus, lcd_write, lcd_waitbusy}
use efika_mpd.Firmware.Lcd.Bus.Protocol.{Write}
use efika_mpd.Firmware.Lcd.Bus.Transfer.{
  IsSetUp, Gave, Gave-trans, Answered, shown, lcd_write_lem, lcd_write-input,
}
use efika_mpd.Firmware.Lcd.Bus.Busy.{answers, IsBusy, IsIdle, lcd_waitbusy_lem}
use efika_mpd.Firmware.Lcd.Driver.{
  value, lcd_command, lcd_newline, lcd_gotoxy, lcd_putc, lcd_brightness,
}

-- What the display answers to one call of `lcd_waitbusy`.
pub record Answer : Type 0 where
  pub busy : List (Reg × Reg)
  pub idle : Reg × Reg
  pub address : Reg × Reg

pub record IsAnswer (a : Answer) : Type 0 where
  pub busy_all : All IsBusy a.busy
  pub idle_last : IsIdle a.idle

-- The inputs of an answer, before others.
abbrev pub spoken : Answer → List Reg → List Reg
spoken a rest = answers a.busy (a.idle.0 ∷ a.idle.1 ∷ a.address.0 ∷ a.address.1 ∷ rest)

-- The display was given the bytes `ws`, and what it will answer is `rest`.
abbrev pub Went : Bus → List Write → List Reg → Bus → Type 0
Went b ws rest b' = (b'.input ≡ rest) × Gave b ws b'

-- One call behind another.
pub Went->>= :
    (b : Bus) (ws vs : List Write) (mid rest : List Reg) (m : Option Bus) (f : Bus → Option Bus)
    → Returns (Went b ws mid) m
    → ((b' : Bus) → IsSetUp b' → b'.input ≡ mid → Returns (Went b' vs rest) (f b'))
    → Returns (Went b (ws ++ vs) rest) (m >>= f)
Went->>= b ws vs mid rest m f h k =
    Returns->>= (Went b ws mid) (Went b (ws ++ vs) rest) m f h λ b1 q.
      Returns-map (Went b1 vs rest) (Went b (ws ++ vs) rest) (f b1) (k b1 q.1.4 q.0)
        λ b2 r. (r.0, Gave-trans b b1 b2 ws vs q.1 r.1)

pub write_Went :
    (w : Write) (rest : List Reg) (b : Bus)
    → w.1 < 256
    → IsSetUp b
    → b.input ≡ rest
    → Went b (w ∷ []) rest (lcd_write (w.1) (w.0) b)
write_Went w rest b h s e = (lcd_write-input (w.1) (w.0) b ∙ e, lcd_write_lem (w.1) (w.0) b s h)

pub ask_Went :
    (f : Reg × Bus → Option Bus) (a : Answer) (w : Write) (after rest : List Reg) (b : Bus)
    → IsSetUp b
    → IsAnswer a
    → b.input ≡ spoken a after
    → ((b' : Bus)
        → IsSetUp b'
        → b'.input ≡ after
        → Returns (Went b' (w ∷ []) rest) (f (shown a.address, b')))
    → Returns (Went b (w ∷ []) rest) (lcd_waitbusy b >>= f)
ask_Went f a w after rest b s v e k =
    Returns->>= (Answered b a.address after) (Went b (w ∷ []) rest) (lcd_waitbusy b) f
      (lcd_waitbusy_lem a.busy a.idle a.address after b s v.busy_all v.idle_last e)
      λ r o.
        subst (λ (c : Reg). Returns (Went b (w ∷ []) rest) (f (c, r.1))) (sym o.0)
          (Returns-map (Went (r.1) (w ∷ []) rest) (Went b (w ∷ []) rest) _ (k (r.1) o.2.4 o.1)
            λ b2 q. (q.0, Gave-trans b (r.1) b2 [] (w ∷ []) o.2 q.1))

pub lcd_command_lem :
    (cmd : ℕ) (a : Answer) (rest : List Reg) (b : Bus)
    → IsSetUp b
    → IsAnswer a
    → b.input ≡ spoken a rest
    → Returns (Went b ((false, cmd % 256) ∷ []) rest) (lcd_command cmd b)
unfolding lcd_command
lcd_command_lem cmd a rest b s v e =
    ask_Went _ a (false, cmd % 256) rest rest b s v e
      λ b' s' e'. write_Went (false, cmd % 256) rest b' (omega arith) s' e'

-- The address of a position. Every line but the first is the second.
abbrev pub position : ℕ → ℕ → ℕ
position x y = (128 + (if y == 0 then 0 else 64) + x) % 256

pub lcd_gotoxy_lem :
    (x y : ℕ) (a : Answer) (rest : List Reg) (b : Bus)
    → IsSetUp b
    → IsAnswer a
    → b.input ≡ spoken a rest
    → Returns (Went b ((false, position x y) ∷ []) rest) (lcd_gotoxy x y b)
unfolding lcd_gotoxy
lcd_gotoxy_lem x y a rest b s v e = elim (Bool-cases (y == 0)) [
  | inl h ↦ rw h (lcd_command_lem (128 + x) a rest b s v e)
  | inr h ↦ rw h (lcd_command_lem (192 + x) a rest b s v e)
]

-- The address of the line behind the one that the display answered with.
abbrev pub next_line : Answer → ℕ
next_line a = if ltb (value (shown a.address)) 64 then 192 else 128

lcd_newline_lem :
    (a a' : Answer) (rest : List Reg) (b : Bus)
    → IsSetUp b
    → IsAnswer a'
    → b.input ≡ spoken a' rest
    → Returns (Went b ((false, next_line a) ∷ []) rest) (lcd_newline (value (shown a.address)) b)
unfolding lcd_newline
lcd_newline_lem a a' rest b s v e = elim (Bool-cases (ltb (value (shown a.address)) 64)) [
  | inl h ↦ rw h (lcd_command_lem 192 a' rest b s v e)
  | inr h ↦ rw h (lcd_command_lem 128 a' rest b s v e)
]

pub lcd_putc_character :
    (c : ℕ) (a : Answer) (rest : List Reg) (b : Bus)
    → (c == 10) ≡ false
    → IsSetUp b
    → IsAnswer a
    → b.input ≡ spoken a rest
    → Returns (Went b ((true, c % 256) ∷ []) rest) (lcd_putc c b)
unfolding lcd_putc
lcd_putc_character c a rest b h s v e =
    ask_Went _ a (true, c % 256) rest rest b s v e
      λ b' s' e'. rw h (write_Went (true, c % 256) rest b' (omega arith) s' e')

pub lcd_putc_newline :
    (c : ℕ) (a a' : Answer) (rest : List Reg) (b : Bus)
    → (c == 10) ≡ true
    → IsSetUp b
    → IsAnswer a
    → IsAnswer a'
    → b.input ≡ spoken a (spoken a' rest)
    → Returns (Went b ((false, next_line a) ∷ []) rest) (lcd_putc c b)
unfolding lcd_putc
lcd_putc_newline c a a' rest b h s v v' e =
    ask_Went _ a (false, next_line a) (spoken a' rest) rest b s v e
      λ b' s' e'. rw h (lcd_newline_lem a a' rest b' s' v' e')

pub lcd_brightness_lem :
    (n : ℕ) (rest : List Reg) (b : Bus)
    → IsSetUp b
    → b.input ≡ rest
    → Went b ((false, 0x28) ∷ (true, n % 256) ∷ []) rest (lcd_brightness n b)
unfolding lcd_brightness
lcd_brightness_lem n rest b s e =
    let first = write_Went (false, 0x28) rest b (omega arith) s e in
    let b1 = lcd_write 0x28 false b in
    let second = write_Went (true, n % 256) rest b1 (omega arith) first.1.4 first.0 in
    (second.0, Gave-trans b b1 _ ((false, 0x28) ∷ []) ((true, n % 256) ∷ []) first.1 second.1)
