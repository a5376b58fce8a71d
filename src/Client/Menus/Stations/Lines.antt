-- ===== src/Client/Menus/Stations/Lines.antt =====
-- client/efikampd.c: which station a line of radio.csv names, and that `strtok` finds it.
use efika_mpd.Base.{
  ℕ, suc, ◌-◌, ◌≡◌, refl, sym, ap, ◌∙◌, ◌≢◌, ◌⊎◌, inl, inr, true, false, Option, none, some, List,
  [], ◌∷◌, arith, ◌==◌, if◌then◌else◌, ◌>>=◌, length, take, Bool-cases,
}
use efika_mpd.Client.Text.{skip_commas, token, strtok}
use efika_mpd.Client.Menus.Fetch.{split_line}
use efika_mpd.Client.Menus.Stations.{Station}

abbrev extend : ℕ → List (List ℕ) → List (List ℕ)
extend c [] = (c ∷ []) ∷ []
extend c (p ∷ ps) = (c ∷ p) ∷ ps

-- A text cut at each comma, and what is not empty of it.
unfoldable pub pieces : List ℕ → List (List ℕ)
pieces [] = [] ∷ []
pieces (c ∷ s) = let ps = pieces s in if c == 44 then [] ∷ ps else extend c ps

abbrev pub filled : List (List ℕ) → List (List ℕ)
filled [] = []
filled ([] ∷ ps) = filled ps
filled ((c ∷ p) ∷ ps) = (c ∷ p) ∷ filled ps

abbrev pub fields : List ℕ → List (List ℕ)
fields s = filled (pieces s)

abbrev pub first_two : List (List ℕ) → Option Station
first_two [] = none
first_two (name ∷ []) = none
first_two (name ∷ path ∷ rest) = some (name, path)

-- The name and the path in a line, whose last character ends it.
unfoldable pub station_line : List ℕ → Option Station
station_line line = first_two (fields (take (length line - 1) line))

token-pieces :
    (s : List ℕ)
    → (ps : List (List ℕ)) × (pieces s ≡ (token s).0 ∷ ps) × (filled ps ≡ fields (token s).1)
unfolding token pieces
token-pieces [] = ([], refl, refl)
token-pieces (c ∷ s) = elim (Bool-cases (c == 44)) [
  | inl e ↦ (pieces s, ground (arith, e), ground (arith, e))
  | inr e ↦ let (ps, at, rest) = token-pieces s in (ps, rw (e, at) refl, rw e rest)
]

fields-comma : (c : ℕ) (s : List ℕ) → (c == 44) ≡ true → fields (c ∷ s) ≡ fields s
unfolding pieces
fields-comma c s e = rw e refl

fields-other :
    (c : ℕ) (s : List ℕ)
    → (c == 44) ≡ false
    → fields (c ∷ s) ≡ (c ∷ (token s).0) ∷ fields (token s).1
unfolding pieces
fields-other c s e =
    let (ps, at, rest) = token-pieces s in rw (e, at) (ap (◌∷◌ (c ∷ (token s).0)) rest)

strtok-comma : (c : ℕ) (s : List ℕ) → (c == 44) ≡ true → strtok (c ∷ s) ≡ strtok s
unfolding strtok skip_commas
strtok-comma c s e = ground (arith, e)

strtok-other :
    (c : ℕ) (s : List ℕ) → (c == 44) ≡ false → strtok (c ∷ s) ≡ some (c ∷ (token s).0, (token s).1)
unfolding strtok skip_commas token
strtok-other c s e = ground (arith, e)

-- What `strtok` gives of a text.
abbrev Cut : List ℕ → Type 0
Cut s =
    ((strtok s ≡ none) × (fields s ≡ []))
    ⊎ ((t : List ℕ) × (rest : List ℕ) × (strtok s ≡ some (t, rest)) × (fields s ≡ t ∷ fields rest))

strtok-Cut : (s : List ℕ) → Cut s
unfolding strtok skip_commas pieces
strtok-Cut [] = inl (refl, refl)
strtok-Cut (c ∷ s) = elim (Bool-cases (c == 44)) [
  | inl e ↦ elim (strtok-Cut s) [
    | inl (x, y) ↦ inl (strtok-comma c s e ∙ x, fields-comma c s e ∙ y)
    | inr (t, rest, x, y) ↦ inr (t, rest, strtok-comma c s e ∙ x, fields-comma c s e ∙ y)
  ]
  | inr e ↦ inr (_, _, strtok-other c s e, fields-other c s e)
]

strtok_twice :
    (s : List ℕ)
    → (strtok s >>= λ name. strtok name.1 >>= λ path. some (name.0, path.0)) ≡ first_two (fields s)
strtok_twice s = elim (strtok-Cut s) [
  | inl (x, y) ↦ rw (x, y) refl
  | inr (t, rest, x, y) ↦ elim (strtok-Cut rest) [
    | inl (u, v) ↦ rw (x, y, u, v) refl
    | inr (t', rest', u, v) ↦ rw (x, y, u, v) refl
  ]
]

-- A line with a character is read as its fields say.
pub split_line-station_line : (l : List ℕ) → l ≢ [] → split_line l ≡ some (station_line l)
unfolding split_line station_line
split_line-station_line [] n = absurd (n refl)
split_line-station_line (c ∷ s) n =
    let one : suc (length s) - 1 ≡ length s = omega arith in
    ap some (
      strtok_twice (take (length s) (c ∷ s))
      ∙ ap (λ k. first_two (fields (take k (c ∷ s)))) (sym one))
