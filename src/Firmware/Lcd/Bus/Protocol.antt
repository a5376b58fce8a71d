-- ===== src/Firmware/Lcd/Bus/Protocol.antt =====
-- What a display with four data lines understands of the lines of firmware/lcd.c: two strobes make
-- a transfer, the high half of the byte first. This is a description apart from the driver.
use efika_mpd.Base.{
  ℕ, ◌+◌, ◌*◌, ◌/◌, ◌%◌, ◌^◌, ◌<◌, ◌≡◌, refl, Bool, true, false, not, ◌&&◌, Option, none, some,
  List, [], ◌∷◌, ◌++◌, if◌then◌else◌, ◌>>=◌, arith, ap, bit_is_set, append_assoc,
}
use mathlib.Core.Option
use efika_mpd.Firmware.Lcd.Bus.{Strobe, Act, strobe, wait}

-- A byte for the display, an instruction or, where `rs` is set, a character.
abbrev pub Write : Type 0
Write = Bool × ℕ

abbrev pub digit : Bool → ℕ
digit b = if b then 1 else 0

-- The number that four data lines show, if the microcontroller drives all of them.
abbrev pub nibble : Strobe → Option ℕ
nibble s = s.d3 >>= λ b3. s.d2 >>= λ b2.
    s.d1 >>= λ b1. s.d0 >>= λ b0. some (8 * digit b3 + 4 * digit b2 + 2 * digit b1 + digit b0)

abbrev pub is_free : Option Bool → Bool
is_free none = true
is_free (some b) = false

-- In a strobe that reads, the microcontroller has to leave the data lines to the display.
abbrev pub leaves_lines : Strobe → Bool
leaves_lines s = is_free s.d3 && is_free s.d2 && is_free s.d1 && is_free s.d0

abbrev pub agree : Bool → Bool → Bool
agree true b = b
agree false b = not b

-- The bytes that two strobes give to the display: one, or none if it is read. `none` stands for a
-- breach of the protocol.
abbrev pub transfer : Strobe → Strobe → Option (List Write)
transfer s t = s.rs >>= λ a. t.rs >>= λ b. s.rw >>= λ reads. t.rw >>= λ again.
    if agree a b && agree reads again
    then (if reads
        then (if leaves_lines s && leaves_lines t then some [] else none)
        else (nibble s >>= λ hi. nibble t >>= λ lo. some ((a, 16 * hi + lo) ∷ [])))
    else none

-- All bytes that the display is given.
unfoldable pub decode : List Act → Option (List Write)
decode [] = some []
decode (wait n ∷ acts) = decode acts
decode (strobe s ∷ []) = none
decode (strobe s ∷ wait n ∷ acts) = none
decode (strobe s ∷ strobe t ∷ acts) = transfer s t >>= λ ws. Option.map (λ r. ws ++ r) (decode acts)

join :
    (o : Option (List Write)) (d e : Option (List Write)) (ws vs : List Write)
    → (o >>= λ x. Option.map (λ r. x ++ r) d) ≡ some ws
    → ((us : List Write) → d ≡ some us → e ≡ some (us ++ vs))
    → (o >>= λ x. Option.map (λ r. x ++ r) e) ≡ some (ws ++ vs)
join none d e ws vs h k = absurd (ground (arith, h))
join (some x) none e ws vs h k = absurd (ground (arith, h))
join (some x) (some us) e ws vs h k = ground (arith, h, k us refl, append_assoc x us vs)

pub decode-append :
    (xs ys : List Act) (ws vs : List Write)
    → decode xs ≡ some ws
    → decode ys ≡ some vs
    → decode (xs ++ ys) ≡ some (ws ++ vs)
unfolding decode
decode-append [] ys ws vs h k = ground (arith, h, k)
decode-append (wait n ∷ xs) ys ws vs h k = decode-append xs ys ws vs h k
decode-append (strobe s ∷ []) ys ws vs h k = absurd (ground (arith, h))
decode-append (strobe s ∷ wait n ∷ xs) ys ws vs h k = absurd (ground (arith, h))
decode-append (strobe s ∷ strobe t ∷ xs) ys ws vs h k =
    join (transfer s t) (decode xs) (decode (xs ++ ys)) ws vs h
      λ us e. decode-append xs ys us vs e k

-- The two halves of a byte on the lines, and a strobe that asks whether the display is busy.
abbrev pub high_half : Bool → ℕ → Strobe
high_half a n = record {
  rs = some a;
  rw = some false;
  d0 = some (bit_is_set n 4);
  d1 = some (bit_is_set n 5);
  d2 = some (bit_is_set n 6);
  d3 = some (bit_is_set n 7);
}

abbrev pub low_half : Bool → ℕ → Strobe
low_half a n = record {
  rs = some a;
  rw = some false;
  d0 = some (bit_is_set n 0);
  d1 = some (bit_is_set n 1);
  d2 = some (bit_is_set n 2);
  d3 = some (bit_is_set n 3);
}

abbrev pub question : Strobe
question = record { rs = some false; rw = some true; d0 = none; d1 = none; d2 = none; d3 = none }

digit-bit : (n m : ℕ) → digit (bit_is_set n m) ≡ n / 2 ^ m % 2
digit-bit n m = ground arith

halves :
    (n : ℕ)
    → n < 256
    → 16
          * (8 * digit (bit_is_set n 7)
              + 4 * digit (bit_is_set n 6)
              + 2 * digit (bit_is_set n 5)
              + digit (bit_is_set n 4))
        + (8 * digit (bit_is_set n 3)
            + 4 * digit (bit_is_set n 2)
            + 2 * digit (bit_is_set n 1)
            + digit (bit_is_set n 0))
      ≡ n
halves n h = omega (
  arith,
  h,
  digit-bit n 7,
  digit-bit n 6,
  digit-bit n 5,
  digit-bit n 4,
  digit-bit n 3,
  digit-bit n 2,
  digit-bit n 1,
  digit-bit n 0,
)

pub decode-halves :
    (a : Bool) (n : ℕ)
    → n < 256
    → decode (strobe (high_half a n) ∷ strobe (low_half a n) ∷ []) ≡ some ((a, n) ∷ [])
unfolding decode
decode-halves true n h = ap (λ k. some ((true, k) ∷ [])) (halves n h)
decode-halves false n h = ap (λ k. some ((false, k) ∷ [])) (halves n h)

pub decode-questions : decode (strobe question ∷ strobe question ∷ []) ≡ some []
unfolding decode
decode-questions = refl
