-- ===== src/Client/Text.antt =====
-- The string functions of the C library that client/efikampd.c calls, over lists of bytes.
pub mod Strings
use Prim.Native.Char.{code}
use Prim.Native.String.{String}
use efika_mpd.Base.{
  ℕ, zero, suc, ◌+◌, ◌-◌, ◌/◌, ◌%◌, min, Bool, true, false, Option, none, some, List, [], ◌∷◌, ◌++◌,
  ltb, ◌==◌, if◌then◌else◌, length, take, drop,
}

abbrev pub codes : String → List ℕ
codes String.[] = []
codes (String.◌∷◌ c s) = code c ∷ codes s

-- `snprintf(buffer, size, ...)` for a text that the format stands for: at most `size - 1` bytes
-- and a terminator; the rest of the buffer stays.
unfoldable pub snprintf : List ℕ → ℕ → List ℕ → List ℕ
snprintf buffer size text =
    take (size - 1) text ++ 0 ∷ drop (min (size - 1) (length text) + 1) buffer

-- What `%s` prints.
unfoldable pub text_or_null : Option (List ℕ) → List ℕ
text_or_null none = codes "(null)"
text_or_null (some s) = s

-- The decimal digits of `n`, with fuel, in front of `rest`.
unfoldable pub digits_of : ℕ → ℕ → List ℕ → List ℕ
digits_of zero n rest = rest
digits_of (suc fuel) n rest =
    let more = digits_of fuel (n / 10) ((48 + n % 10) ∷ rest) in
    if ltb n 10 then (48 + n) ∷ rest else more

-- `%i`.
unfoldable pub decimal : ℕ → List ℕ
decimal n = digits_of (suc n) n []

-- `%02i`.
unfoldable pub decimal2 : ℕ → List ℕ
decimal2 n = if ltb n 10 then 48 ∷ decimal n else decimal n

-- `strcmp(s, t) < 0`.
unfoldable pub str_ltb : List ℕ → List ℕ → Bool
str_ltb [] [] = false
str_ltb [] (b ∷ t) = true
str_ltb (a ∷ s) [] = false
str_ltb (a ∷ s) (b ∷ t) =
    let rest = str_ltb s t in if ltb a b then true else (if a == b then rest else false)

-- Drops leading separators, as `strtok` does.
unfoldable pub skip_commas : List ℕ → List ℕ
skip_commas [] = []
skip_commas (c ∷ s) = if c == b',' then skip_commas s else c ∷ s

-- The text up to a separator, and what follows it.
unfoldable pub token : List ℕ → List ℕ × List ℕ
token [] = ([], [])
token (c ∷ s) = let (t, rest) = token s in if c == b',' then ([], s) else (c ∷ t, rest)

-- `strtok` with the separator `,`: the next token and the text behind it.
unfoldable pub strtok : List ℕ → Option (List ℕ × List ℕ)
strtok s = elim (skip_commas s) [ [] ↦ none | c ∷ r ↦ some (token (c ∷ r)) ]
