-- ===== src/Client/Text/Strings.antt =====
-- client/efikampd.c: what a buffer holds after `snprintf`.
use efika_mpd.Base.{
  ℕ, zero, suc, ◌+◌, ◌-◌, ◌≤◌, ◌<◌, ◌≡◌, refl, ◌≢◌, ◌∙◌, ap, min, some, List, [], ◌∷◌, ◌++◌, arith,
  length, take, drop, All, length-append, length-take, length-drop,
}
use efika_mpd.Firmware.Board.Link.{strlen}
use efika_mpd.Firmware.Board.Display.Window.{c_string}
use efika_mpd.Client.Text.{snprintf}

-- A text without terminators.
abbrev pub IsText : List ℕ → Type 0
IsText s = All (λ c. c ≢ 0) s

pub take-IsText : (n : ℕ) (s : List ℕ) → IsText s → IsText (take n s)
take-IsText zero s h = tt
take-IsText (suc n) [] h = tt
take-IsText (suc n) (c ∷ s) h = (h.0, take-IsText n s h.1)

pub strlen-text : (s rest : List ℕ) → IsText s → strlen (s ++ 0 ∷ rest) ≡ some (length s)
unfolding strlen
strlen-text [] rest h = refl
strlen-text (c ∷ s) rest h = ground (arith, strlen-text s rest h.1, h.0)

c_string-text : (s rest : List ℕ) → IsText s → c_string (s ++ 0 ∷ rest) ≡ s
c_string-text [] rest h = refl
c_string-text (c ∷ s) rest h = ground (arith, c_string-text s rest h.1, h.0)

pub length-snprintf :
    (buffer : List ℕ) (size : ℕ) (text : List ℕ)
    → 0 < size
    → size ≤ length buffer
    → length (snprintf buffer size text) ≡ length buffer
unfolding snprintf
length-snprintf buffer size text h b =
    let rest = drop (min (size - 1) (length text) + 1) buffer in
    omega (
      arith,
      length-append (take (size - 1) text) (0 ∷ rest),
      length-take (size - 1) text,
      length-drop (min (size - 1) (length text) + 1) buffer,
    )

-- `snprintf` stays inside the buffer and leaves in it a string: the text, cut off at one byte less
-- than the size.
pub snprintf_lem :
    (buffer : List ℕ) (size : ℕ) (text : List ℕ)
    → 0 < size
    → size ≤ length buffer
    → IsText text
    → let after = snprintf buffer size text in
      (length after ≡ length buffer)
      × (c_string after ≡ take (size - 1) text)
      × (strlen after ≡ some (min (size - 1) (length text)))
unfolding snprintf
snprintf_lem buffer size text h b t =
    let kept = take-IsText (size - 1) text t in
    let rest = drop (min (size - 1) (length text) + 1) buffer in
    (
      length-snprintf buffer size text h b,
      c_string-text (take (size - 1) text) rest kept,
      strlen-text (take (size - 1) text) rest kept ∙ ap some (length-take (size - 1) text),
    )
