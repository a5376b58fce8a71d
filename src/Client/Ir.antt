-- ===== src/Client/Ir.antt =====
-- client/ir.c: the tool that prints the keys of the remote. What each round of its loop reads is an
-- argument, a list of pairs of bytes, and the numbers that it prints are the result. `run` is never
-- cleared, so that the loop goes on as long as there are rounds.
use efika_mpd.Client.Text.{codes}
use efika_mpd.Base.{
  Option, none, some, ℕ, ◌+◌, ◌*◌, ◌/◌, ◌%◌, ◌<◌, ◌≡◌, refl, List, [], ◌∷◌, ◌++◌, map, arith, ap,
  ap₂, All, ◌∙◌, append-nil,
}

-- `result = rc5[1]; result <<= 8; result += rc5[0];`
unfoldable pub result : ℕ × ℕ → ℕ
result (rc5_0, rc5_1) = rc5_1 * 256 + rc5_0

-- The inner loop of `loop`.
unfoldable pub print_keys : List (ℕ × ℕ) → List ℕ
print_keys [] = []
print_keys (k ∷ ks) = result k ∷ print_keys ks

-- The rounds of `loop`.
unfoldable pub print_rounds : List (List (ℕ × ℕ)) → List ℕ
print_rounds [] = []
print_rounds (ks ∷ rounds) = print_keys ks ++ print_rounds rounds

-- What `open` returns for standard input and for the port whose name is the argument: a file
-- descriptor, or `none` for a failure.
pub record Files : Type 0 where
  pub stdin : Option ℕ
  pub tty : Option ℕ

-- What the tool does: it prints a text or a number, sets a port up for 19200 baud, closes a file.
pub data Deed : Type 0 where
  say : List ℕ → Deed
  print : ℕ → Deed
  set_port : ℕ → Deed
  close : ℕ → Deed

-- The status that the process ends with, and its deeds. `rounds` are those up to the one in which
-- `usleep` fails.
unfoldable pub main : List ℕ → Files → List (List (ℕ × ℕ)) → ℕ × List Deed
main path f rounds = elim f.stdin [
  | none ↦ (0, say (codes "Could not open stdin") ∷ [])
  | some stdin_fd ↦ elim f.tty [
    | none ↦ (0, say (codes "Cannot open " ++ path ++ codes "\n") ∷ [])
    | some tty_fd ↦
        (1, set_port tty_fd ∷ map print (print_rounds rounds) ++ close stdin_fd ∷ close tty_fd ∷ [])
  ]
]

-- The bytes of a key from the number that was printed.
abbrev pub key_of : ℕ → ℕ × ℕ
key_of n = (n % 256, n / 256)

-- All keys that are read, one round behind the other.
abbrev pub all_keys : List (List (ℕ × ℕ)) → List (ℕ × ℕ)
all_keys [] = []
all_keys (ks ∷ rounds) = ks ++ all_keys rounds

abbrev pub IsByte : ℕ × ℕ → Type 0
IsByte k = (k.0 < 256) × (k.1 < 256)

key_of-result : (k : ℕ × ℕ) → IsByte k → key_of (result k) ≡ k
unfolding result
key_of-result (a, b) h = ap₂ (λ x y. (x, y)) (omega (arith, h.0)) (omega (arith, h.0))

map-key_of-append :
    (ks : List (ℕ × ℕ)) (ns : List ℕ)
    → All IsByte ks
    → map key_of (print_keys ks ++ ns) ≡ ks ++ map key_of ns
unfolding print_keys
map-key_of-append [] ns h = refl
map-key_of-append (k ∷ ks) ns h = ap₂ ◌∷◌ (key_of-result k h.0) (map-key_of-append ks ns h.1)

abbrev pub AllBytes : List (List (ℕ × ℕ)) → Type 0
AllBytes [] = Unit {0}
AllBytes (ks ∷ rounds) = All IsByte ks × AllBytes rounds

-- What the tool prints tells all keys that it has read, in order, whatever the rounds were: the
-- two bytes of each can be had back from its number.
print_rounds_lem :
    (rounds : List (List (ℕ × ℕ)))
    → AllBytes rounds
    → map key_of (print_rounds rounds) ≡ all_keys rounds
unfolding print_rounds
print_rounds_lem [] h = refl
print_rounds_lem (ks ∷ rounds) h =
    map-key_of-append ks (print_rounds rounds) h.0 ∙ ap (λ r. ks ++ r) (print_rounds_lem rounds h.1)

-- The numbers that were printed, and the files that were closed.
abbrev pub numbers : List Deed → List ℕ
numbers [] = []
numbers (print n ∷ ds) = n ∷ numbers ds
numbers (say t ∷ ds) = numbers ds
numbers (set_port fd ∷ ds) = numbers ds
numbers (close fd ∷ ds) = numbers ds

abbrev pub closed : List Deed → List ℕ
closed [] = []
closed (close fd ∷ ds) = fd ∷ closed ds
closed (say t ∷ ds) = closed ds
closed (set_port fd ∷ ds) = closed ds
closed (print n ∷ ds) = closed ds

numbers-print : (ns : List ℕ) (ds : List Deed) → numbers (map print ns ++ ds) ≡ ns ++ numbers ds
numbers-print [] ds = refl
numbers-print (n ∷ ns) ds = ap (◌∷◌ n) (numbers-print ns ds)

closed-print : (ns : List ℕ) (ds : List Deed) → closed (map print ns ++ ds) ≡ closed ds
closed-print [] ds = refl
closed-print (n ∷ ns) ds = closed-print ns ds

-- The tool's result by the two answers of `open`.
abbrev pub Tells : Files → List (List (ℕ × ℕ)) → ℕ × List Deed → Type 0
Tells f rounds r = elim f.stdin [
  | none ↦ (r.0 ≡ 0) × (numbers r.1 ≡ []) × (closed r.1 ≡ [])
  | some a ↦ elim f.tty [
    | none ↦ (r.0 ≡ 0) × (numbers r.1 ≡ []) × (closed r.1 ≡ [])
    | some b ↦ (r.0 ≡ 1) × (map key_of (numbers r.1) ≡ all_keys rounds) × (closed r.1 ≡ a ∷ b ∷ [])
  ]
]

tells :
    (path : List ℕ) (stdin tty : Option ℕ) (rounds : List (List (ℕ × ℕ)))
    → AllBytes rounds
    → (let f : Files = record { stdin = stdin; tty = tty } in Tells f rounds (main path f rounds))
unfolding main
tells path none tty rounds h = (refl, refl, refl)
tells path (some a) none rounds h = (refl, refl, refl)
tells path (some a) (some b) rounds h =
    let ns = print_rounds rounds in
    let ends = close a ∷ close b ∷ [] in
    (
      refl,
      ap (map key_of) (numbers-print ns ends ∙ append-nil ns) ∙ print_rounds_lem rounds h,
      closed-print ns ends,
    )

-- With both files opened the tool's numbers tell all keys that it has read, in order and whatever
-- the rounds were, since the two bytes of each can be had back from its number; it closes both
-- files and ends with status 1. If one cannot be opened it prints no number, closes nothing, also
-- not the one that it has opened, and ends with status 0. The keys are pairs of bytes.
pub main-Tells :
    (path : List ℕ) (f : Files) (rounds : List (List (ℕ × ℕ)))
    → AllBytes rounds
    → Tells f rounds (main path f rounds)
main-Tells path f rounds h = tells path f.stdin f.tty rounds h
