-- ===== src/Client/Menus/Stations/Read.antt =====
-- client/efikampd.c: `menu_fetch_radio` on the lines of a whole file.
use efika_mpd.Base.{
  ℕ, zero, suc, ◌+◌, ◌-◌, ◌≤◌, ◌<◌, ◌≡◌, refl, sym, ◌∙◌, ◌≢◌, ◌⊎◌, Option, none, some, inl, inr,
  List, [], ◌∷◌, ◌++◌, arith, ap, length, subst, ◌>>=◌, Returns, Returns->>=, Returns-map,
  Option-cases, All, append_assoc, append-nil,
}
use efika_mpd.Client.{Menu}
use efika_mpd.Client.Heap.{Heap, store}
use efika_mpd.Client.Menus.Fetch.{add_station, add_stations, rewind, read_stations}
use efika_mpd.Client.Menus.Stations.Lines.{station_line, split_line-station_line}
use efika_mpd.Client.Menus.Stations.{Station, Linked, Built, grow-Built, first-Built}

-- The stations of a file, from the lines that hold a name and a path.
abbrev pub or_skip : Option Station → List Station → List Station
or_skip none ss = ss
or_skip (some s) ss = s ∷ ss

unfoldable pub stations_of : List (List ℕ) → List Station
stations_of [] = []
stations_of (line ∷ lines) = or_skip (station_line line) (stations_of lines)

-- `fgets` gives no line without a character.
abbrev pub IsLine : List ℕ → Type 0
IsLine l = l ≢ []

abbrev Added : Heap → ℕ → ℕ → List Station → Option ℕ × Heap → Type 0
Added h0 pmenu c ss r = (l : ℕ) × (r.0 ≡ some l) × Built h0 pmenu c ss l r.1

add_stations-Added :
    (lines : List (List ℕ)) (h0 h : Heap) (pmenu c l : ℕ) (ss : List Station)
    → All IsLine lines
    → Built h0 pmenu c ss l h
    → Returns (Added h0 pmenu c (ss ++ stations_of lines)) (add_stations pmenu lines (some l) h)
unfolding add_stations stations_of
add_stations-Added [] h0 h pmenu c l ss a b =
    (l, refl, subst (λ x. Built h0 pmenu c x l h) (sym (append-nil ss)) b)
add_stations-Added (line ∷ lines) h0 h pmenu c l ss a b =
    let e = split_line-station_line line a.0 in
    elim (Option-cases (station_line line)) [
      | inl f ↦ rw (e, f) (add_stations-Added lines h0 h pmenu c l ss a.1 b)
      | inr (s, f) ↦
          rw (e, f)
            (Returns->>= (λ r. Built h0 pmenu c (ss ++ s ∷ []) r.0 r.1) _
              (add_station pmenu s.0 s.1 (some l) h) _ (grow-Built h0 h pmenu c l ss s b)
              (λ r b'.
                rw (append_assoc ss (s ∷ []) (stations_of lines)) at
                  (add_stations-Added lines h0 r.1 pmenu c r.0 (ss ++ s ∷ []) a.1 b')))
    ]

-- From no station on.
add_stations-first :
    (lines : List (List ℕ)) (h : Heap) (pmenu : ℕ)
    → All IsLine lines
    → Returns
        (λ r.
          ((stations_of lines ≡ []) × (r ≡ (none, h)))
          ⊎ Added h pmenu h.fresh (stations_of lines) r)
        (add_stations pmenu lines none h)
unfolding add_stations stations_of
add_stations-first [] h pmenu a = inl (refl, refl)
add_stations-first (line ∷ lines) h pmenu a =
    let e = split_line-station_line line a.0 in
    elim (Option-cases (station_line line)) [
      | inl f ↦ rw (e, f) (add_stations-first lines h pmenu a.1)
      | inr (s, f) ↦
          rw (e, f)
            (Returns->>= (λ r. Built h pmenu h.fresh (s ∷ []) r.0 r.1) _
              (add_station pmenu s.0 s.1 none h) _ (first-Built h pmenu s)
              (λ r b'.
                Returns-map _ _ (add_stations pmenu lines (some r.0) r.1)
                  (add_stations-Added lines h r.1 pmenu h.fresh r.0 (s ∷ []) a.1 b')
                  (λ q x. inr x)))
    ]

-- The entry at distance `i` from the first has a predecessor, but for the first.
prev_at :
    (h : Heap) (pmenu c i : ℕ) (prev : Option ℕ) (ss : List Station)
    → Linked h pmenu c prev ss
    → i < length ss
    → (m : Menu) × (h.cell (c + i) ≡ some m)
      × (m.prev ≡ (elim i as (λ _. Option ℕ) [ zero ↦ prev | suc j ↦ some (c + j) ]))
prev_at h pmenu c i prev [] k n = absurd (omega arith)
prev_at h pmenu c zero prev (s ∷ ss) k n =
    let same : c + 0 ≡ c = omega arith in (_, ap h.cell same ∙ k.0, refl)
prev_at h pmenu c (suc zero) prev (s ∷ ss) k n =
    let (m, e, f) = prev_at h pmenu (suc c) zero (some c) ss k.1 (omega arith) in
    let same : c + 1 ≡ suc c + 0 = omega arith in
    let here : c ≡ c + 0 = omega arith in (m, ap h.cell same ∙ e, f ∙ ap some here)
prev_at h pmenu c (suc (suc j)) prev (s ∷ ss) k n =
    let (m, e, f) = prev_at h pmenu (suc c) (suc j) (some c) ss k.1 (omega arith) in
    let same : c + suc (suc j) ≡ suc c + suc j = omega arith in
    let here : suc c + j ≡ c + suc j = omega arith in (m, ap h.cell same ∙ e, f ∙ ap some here)

rewind-Linked :
    (i fuel : ℕ) (h : Heap) (pmenu c : ℕ) (ss : List Station)
    → Linked h pmenu c none ss
    → i < length ss
    → i < fuel
    → rewind fuel (c + i) h ≡ some c
unfolding rewind
rewind-Linked i zero h pmenu c ss k n f = absurd (omega arith)
rewind-Linked zero (suc fuel) h pmenu c ss k n f =
    let (m, e, g) = prev_at h pmenu c 0 none ss k n in ground (arith, e, g)
rewind-Linked (suc i) (suc fuel) h pmenu c ss k n f =
    let (m, e, g) = prev_at h pmenu c (suc i) none ss k n in
    ground (arith, e, g, rewind-Linked i fuel h pmenu c ss k (omega arith) (omega arith))

kept-Linked :
    (h h' : Heap) (pmenu c : ℕ) (prev : Option ℕ) (ss : List Station)
    → ((k : ℕ) → c ≤ k → h'.cell k ≡ h.cell k)
    → Linked h pmenu c prev ss
    → Linked h' pmenu c prev ss
kept-Linked h h' pmenu c prev [] f k = tt
kept-Linked h h' pmenu c prev (s ∷ ss) f k = (
  f c (omega arith) ∙ k.0,
  kept-Linked h h' pmenu (suc c) (some c) ss (λ j l. f j (omega arith)) k.1,
)

store_child :
    (h : Heap) (pmenu first : ℕ) (m : Menu)
    → h.cell pmenu ≡ some m
    → Returns
        (λ h'.
          (h'.cell pmenu ≡ some (record m { child = some first }))
          × (h'.fresh ≡ h.fresh)
          × ((k : ℕ) → k ≢ pmenu → h'.cell k ≡ h.cell k))
        (store pmenu (record m { child = some first }) h)
unfolding store
store_child h pmenu first m e = ground arith

finish_Built :
    (h0 h : Heap) (pmenu l : ℕ) (m : Menu) (ss : List Station)
    → pmenu < h0.fresh
    → h0.cell pmenu ≡ some m
    → Built h0 pmenu h0.fresh ss l h
    → Returns
        (λ h'.
          (h'.cell pmenu ≡ some (record m { child = some h0.fresh }))
          × Linked h' pmenu h0.fresh none ss
          × (h'.fresh ≡ h0.fresh + length ss)
          × ((k : ℕ) → k < h0.fresh → k ≢ pmenu → h'.cell k ≡ h0.cell k))
        (rewind (suc h.fresh) l h >>= λ first.
          h.cell pmenu >>= λ x. store pmenu (record x { child = some first }) h)
finish_Built h0 h pmenu l m ss lt e b =
    rw (back, b.kept pmenu lt ∙ e)
      (Returns-map _ _ (store pmenu (record m { child = some h0.fresh }) h)
        (store_child h pmenu h0.fresh m (b.kept pmenu lt ∙ e))
        (λ h' (child, fresh, others). (
          child,
          kept-Linked h h' pmenu h0.fresh none ss (λ k g. others k (λ z. absurd (omega arith)))
              b.linked,
          omega (arith, fresh, b.count),
          λ k kc kp. others k kp ∙ b.kept k kc,
        )))
  where
    back : rewind (suc h.fresh) l h ≡ some h0.fresh
    back =
        let i = l - h0.fresh in
        let same : l ≡ h0.fresh + i = omega (arith, b.count, b.last, b.filled) in
        ap (λ x. rewind (suc h.fresh) x h) same
        ∙ rewind-Linked i (suc h.fresh) h pmenu h0.fresh ss b.linked
            (omega (arith, b.count, b.last, b.filled)) (omega (arith, b.last))

-- The stations of radio.csv become the children of the menu's entry. A line, without its last
-- character and cut at each comma, holds a name and a path if two of its pieces are not empty: the
-- first is the name and the second the path. If at least one line does, the first child stands at the next free cell, and from there one entry follows
-- the other, one for each such line, in the order of the file, linked in both directions, with
-- the name, the path and the handlers of a station; no older cell but the menu's is written. The
-- loops come to their end in the fuel that they are given. A file with no such line ends in a fault.
pub read_stations_lem :
    (lines : List (List ℕ)) (h : Heap) (pmenu : ℕ) (m : Menu)
    → All IsLine lines
    → pmenu < h.fresh
    → h.cell pmenu ≡ some m
    → ((stations_of lines ≡ []) × (read_stations pmenu lines h ≡ none))
      ⊎ Returns
          (λ h'.
            (h'.cell pmenu ≡ some (record m { child = some h.fresh }))
            × Linked h' pmenu h.fresh none (stations_of lines)
            × (h'.fresh ≡ h.fresh + length (stations_of lines))
            × ((k : ℕ) → k < h.fresh → k ≢ pmenu → h'.cell k ≡ h.cell k))
          (read_stations pmenu lines h)
unfolding read_stations
read_stations_lem lines h pmenu m a lt e = elim (Option-cases (add_stations pmenu lines none h)) [
  | inl f ↦ absurd (rw f at (add_stations-first lines h pmenu a))
  | inr (r, f) ↦ elim (rw f at (add_stations-first lines h pmenu a)) [
    | inl (x, y) ↦ inl (x, rw (f, y) refl)
    | inr (l, x, b) ↦ inr (rw (f, x) (finish_Built h r.1 pmenu l m (stations_of lines) lt e b))
  ]
]
