-- ===== src/Client/Menus/Stations.antt =====
-- client/efikampd.c: `menu_fetch_radio` builds the list of the stations in radio.csv.
pub mod Lines
pub mod Read
use efika_mpd.Base.{
  ℕ, zero, suc, ◌+◌, ◌-◌, ◌≤◌, ◌<◌, ◌≡◌, refl, sym, ◌∙◌, ◌≢◌, Bool, true, false, Option, none, some,
  inl, inr, List, [], ◌∷◌, ◌++◌, arith, ap, length, length-append, ◌==◌, if◌then◌else◌, ◌>>=◌,
  Returns, Returns->>=, Returns-map, Option-cases, All, append_assoc,
}
use efika_mpd.Client.{Menu, Handler, select_song}
use efika_mpd.Client.Heap.{Heap, store, menu_create_entry}
use efika_mpd.Client.Menus.{set_next}
use efika_mpd.Client.Menus.Fetch.{split_line, add_station, add_stations, rewind, read_stations}

abbrev pub Station : Type 0
Station = List ℕ × List ℕ

-- The entry of a station, a name and a path.
abbrev pub station : ℕ → Station → Option ℕ → Option ℕ → Menu
station pmenu s prev next = record {
  file = some s.1;
  text = some s.0;
  next = next;
  prev = prev;
  child = none;
  parent = some pmenu;
  handler_select = some select_song;
  handler_play = some select_song;
}

abbrev pub following : ℕ → List Station → Option ℕ
following c [] = none
following c (s ∷ ss) = some (suc c)

-- From cell `c` on stand the entries of these stations, one cell behind the other, linked in both
-- directions, the first to `prev`.
abbrev pub Linked : Heap → ℕ → ℕ → Option ℕ → List Station → Type 0
Linked h pmenu c prev [] = Unit {0}
Linked h pmenu c prev (s ∷ ss) =
    (h.cell c ≡ some (station pmenu s prev (following c ss))) × Linked h pmenu (suc c) (some c) ss

-- The last of `n` cells from `c` on.
abbrev pub last_of : ℕ → ℕ → Option ℕ
last_of c zero = none
last_of c (suc n) = some (c + n)

-- The heap with one more station at the end of a list, which ends at `p`.
abbrev Grown : Heap → ℕ → Station → Option ℕ → Heap → Type 0
Grown h pmenu s p h' =
    (h'.fresh ≡ suc h.fresh)
    × (h'.cell h.fresh ≡ some (station pmenu s p none))
    × ((k : ℕ) → k < h.fresh → p ≢ some k → h'.cell k ≡ h.cell k)
    × ((k : ℕ) (m : Menu)
        → k < h.fresh
        → p ≡ some k
        → h.cell k ≡ some m
        → h'.cell k ≡ some (record m { next = some h.fresh }))

add_first :
    (pmenu : ℕ) (s : Station) (h : Heap)
    → Returns (λ r. (r.0 ≡ h.fresh) × Grown h pmenu s none r.1) (add_station pmenu s.0 s.1 none h)
unfolding add_station menu_create_entry store set_next
add_first pmenu s h = ground arith

add_next :
    (pmenu : ℕ) (s : Station) (h : Heap) (p : ℕ) (m : Menu)
    → p < h.fresh
    → h.cell p ≡ some m
    → Returns
        (λ r. (r.0 ≡ h.fresh) × Grown h pmenu s (some p) r.1)
        (add_station pmenu s.0 s.1 (some p) h)
unfolding add_station menu_create_entry store set_next
add_next pmenu s h p m l e = ground arith

last_cell :
    (h : Heap) (pmenu c : ℕ) (prev : Option ℕ) (ss : List Station) (l : ℕ)
    → Linked h pmenu c prev ss
    → c + length ss ≡ suc l
    → 0 < length ss
    → (m : Menu) × (h.cell l ≡ some m)
last_cell h pmenu c prev [] l k e n = absurd (omega arith)
last_cell h pmenu c prev (s ∷ []) l k e n =
    let same : l ≡ c = omega arith in (_, ap h.cell same ∙ k.0)
last_cell h pmenu c prev (s ∷ t ∷ ss) l k e n =
    last_cell h pmenu (suc c) (some c) (t ∷ ss) l k.1 (omega arith) (omega arith)

grow-Linked :
    (h h' : Heap) (pmenu c l : ℕ) (prev : Option ℕ) (ss : List Station) (s : Station)
    → c + length ss ≡ h.fresh
    → suc l ≡ h.fresh
    → 0 < length ss
    → Linked h pmenu c prev ss
    → Grown h pmenu s (some l) h'
    → Linked h' pmenu c prev (ss ++ s ∷ [])
grow-Linked h h' pmenu c l prev [] s e f n k g = absurd (omega arith)
grow-Linked h h' pmenu c l prev (x ∷ []) s e f n k (g0, g1, g2, g3) =
    let here : l ≡ c = omega arith in
    let after : suc c ≡ h.fresh = omega arith in
    (
      g3 c _ (omega arith) (ap some here) k.0
          ∙ ap (λ q. some (station pmenu x prev (some q))) (sym after),
      (ap h'.cell after ∙ g1 ∙ ap (λ q. some (station pmenu s (some q) none)) here, tt),
    )
grow-Linked h h' pmenu c l prev (x ∷ y ∷ ss) s e f n k g = (
  g.2 c (omega arith) (λ z. ground arith) ∙ k.0,
  grow-Linked h h' pmenu (suc c) l (some c) (y ∷ ss) s (omega arith) f (omega arith) k.1 g,
)

-- The stations `ss` have been added from cell `c` on, the last at `l`, to the heap `h0`.
pub record Built (h0 : Heap) (pmenu c : ℕ) (ss : List Station) (l : ℕ) (h : Heap) : Type 0 where
  pub count : c + length ss ≡ h.fresh
  pub last : suc l ≡ h.fresh
  pub filled : 0 < length ss
  pub linked : Linked h pmenu c none ss
  pub kept : (k : ℕ) → k < c → h.cell k ≡ h0.cell k

pub grow-Built :
    (h0 h : Heap) (pmenu c l : ℕ) (ss : List Station) (s : Station)
    → Built h0 pmenu c ss l h
    → Returns (λ r. Built h0 pmenu c (ss ++ s ∷ []) r.0 r.1) (add_station pmenu s.0 s.1 (some l) h)
grow-Built h0 h pmenu c l ss s b =
    let (m, e) = last_cell h pmenu c none ss l b.linked (omega (arith, b.count, b.last)) b.filled in
    Returns-map _ _ (add_station pmenu s.0 s.1 (some l) h)
      (add_next pmenu s h l m (omega (arith, b.last)) e)
      (λ r (at, g). record {
        count = omega (arith, length-append ss (s ∷ []), b.count, g.0);
        last = omega (arith, g.0);
        filled = omega (arith, length-append ss (s ∷ []));
        linked = grow-Linked h r.1 pmenu c l none ss s b.count b.last b.filled b.linked g;
        kept = λ k lt.
            g.2 k (omega (arith, b.count)) (λ z. ground (arith, b.last, b.count, b.filled))
            ∙ b.kept k lt;
      })

pub first-Built :
    (h : Heap) (pmenu : ℕ) (s : Station)
    → Returns (λ r. Built h pmenu h.fresh (s ∷ []) r.0 r.1) (add_station pmenu s.0 s.1 none h)
first-Built h pmenu s =
    Returns-map _ _ (add_station pmenu s.0 s.1 none h) (add_first pmenu s h) (λ r (at, g). record {
      count = omega (arith, g.0);
      last = omega (arith, g.0);
      filled = omega arith;
      linked = (g.1, tt);
      kept = λ k lt. g.2 k lt (λ z. ground arith);
    })
