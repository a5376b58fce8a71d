-- ===== src/Client/Menus/Chain/Place.antt =====
-- client/efikampd.c: where `menu_populate` puts a new entry.
use efika_mpd.Base.{
  ℕ, zero, suc, ◌<◌, ◌≡◌, refl, sym, ◌∙◌, ◌≢◌, inl, inr, Bool, true, false, Option, none, some,
  List, [], ◌∷◌, ◌++◌, arith, ap, length, ◌==◌, if◌then◌else◌, Returns, Returns-map, Bool-cases,
}
use efika_mpd.Client.{Menu}
use efika_mpd.Client.Heap.{Heap}
use efika_mpd.Client.Text.{str_ltb}
use efika_mpd.Client.Menus.{seek, link_before}
use efika_mpd.Client.Menus.Chain.{
  Row, first_cell, Chain, Apart, Distinct, splice_first, splice_later,
}
use efika_mpd.Client.Menus.Chain.Splice.{
  last_prev, Apart-first, Apart-last, splice_Chain, Inherits, Spliced-Inherits_first,
  Spliced-Inherits_later,
}

-- A row in front of the first that is not less than it.
unfoldable pub insert : Row → List Row → List Row
insert r [] = r ∷ []
insert r (x ∷ rs) = if str_ltb x.1 r.1 then x ∷ insert r rs else r ∷ x ∷ rs

abbrev pub place : Bool → Row → List Row → List Row
place sort r rs = if sort then insert r rs else r ∷ rs

-- The rows before and behind a place.
pub record Split (n : ℕ) (t : List ℕ) (rs placed : List Row) : Type 0 where
  pub before : List Row
  pub after : List Row
  pub whole : rs ≡ before ++ after
  pub put : placed ≡ before ++ (n, t) ∷ after

pub seek_lem :
    (fuel : ℕ) (h : Heap) (prev : Option ℕ) (rs : List Row) (g n : ℕ) (t : List ℕ) (new : Menu)
    → Chain h prev rs g
    → h.cell n ≡ some new
    → new.text ≡ some t
    → length rs < fuel
    → (s : Split n t rs (insert (n, t) rs)) × (seek fuel n (first_cell rs g) h
        ≡ some (first_cell s.after g))
unfolding seek insert
seek_lem zero h prev rs g n t new c e x l = absurd (omega arith)
seek_lem (suc fuel) h prev [] g n t new c e x l =
    (record { before = []; after = []; whole = refl; put = refl }, ground (arith, c.here, c.text))
seek_lem (suc fuel) h prev (r ∷ rs) g n t new (c, cs) e x l = elim (Bool-cases (str_ltb r.1 t)) [
  | inl less ↦
      let (s, f) = seek_lem fuel h (some r.0) rs g n t new cs e x (omega arith) in
      (
        record {
          before = r ∷ s.before;
          after = s.after;
          whole = ap (◌∷◌ r) s.whole;
          put = rw less (ap (◌∷◌ r) s.put);
        },
        ground (arith, c.here, c.text, c.forth, less, f),
      )
  | inr more ↦ (
    record { before = []; after = r ∷ rs; whole = refl; put = rw more refl },
    ground (arith, c.here, c.text, c.forth, more),
  )
]

Chain-first_cell :
    (h : Heap) (prev : Option ℕ) (before after : List Row) (g : ℕ)
    → Chain h prev (before ++ after) g
    → (m : Menu) × (h.cell (first_cell after g) ≡ some m) × (m.prev ≡ last_prev prev before)
Chain-first_cell h prev [] [] g c = (c.menu, c.here, c.back)
Chain-first_cell h prev [] (r ∷ after) g c = (c.0.menu, c.0.here, c.0.back)
Chain-first_cell h prev (r ∷ rs) after g c = Chain-first_cell h (some r.0) rs after g c.1

-- The row in front of a place that is not the first.
last_row :
    (h : Heap) (prev : Option ℕ) (r : Row) (rs after : List Row) (g n : ℕ)
    → Chain h prev (r ∷ rs ++ after) g
    → Apart n (r ∷ rs ++ after) g
    → Distinct (r ∷ rs ++ after) g
    → (q : ℕ) × (mq : Menu) × (last_prev prev (r ∷ rs) ≡ some q)
      × (h.cell q ≡ some mq)
      × (n ≢ q)
      × (first_cell after g ≢ q)
last_row h prev r [] after g n c a d =
    (r.0, c.0.menu, refl, c.0.here, a.0, λ z. Apart-first r.0 [] after g d.0 (sym z))
last_row h prev r (x ∷ rs) after g n c a d = last_row h (some r.0) x rs after g n c.1 a.1 d.1

pub put_Apart :
    (k n : ℕ) (t : List ℕ) (before after : List Row) (g : ℕ)
    → k ≢ n
    → Apart k (before ++ after) g
    → Apart k (before ++ (n, t) ∷ after) g
put_Apart k n t [] after g h a = (h, a)
put_Apart k n t (r ∷ rs) after g h a = (a.0, put_Apart k n t rs after g h a.1)

pub put_Distinct :
    (n : ℕ) (t : List ℕ) (before after : List Row) (g : ℕ)
    → Apart n (before ++ after) g
    → Distinct (before ++ after) g
    → Distinct (before ++ (n, t) ∷ after) g
put_Distinct n t [] after g a d = (a, d)
put_Distinct n t (r ∷ rs) after g a d =
    (put_Apart r.0 n t rs after g (λ z. a.0 (sym z)) d.0, put_Distinct n t rs after g a.1 d.1)

-- `link_before` in front of `after`; an unsorted list has nothing before that place.
pub link_at :
    (sort : Bool) (h : Heap) (pmenu n g : ℕ) (t : List ℕ) (new : Menu) (before after : List Row)
    → Chain h none (before ++ after) g
    → Apart n (before ++ after) g
    → Distinct (before ++ after) g
    → h.cell n ≡ some new
    → new.prev ≡ none
    → new.text ≡ some t
    → (sort ≡ false → before ≡ [])
    → Returns
        (λ h'.
          Chain h' none (before ++ (n, t) ∷ after) g
          × (h'.fresh ≡ h.fresh)
          × ((k : ℕ) → k ≢ n → Apart k (before ++ after) g → h'.cell k ≡ h.cell k)
          × Inherits h pmenu n new h')
        (link_before sort pmenu n (first_cell after g) h)
link_at sort h pmenu n g t new [] after c a d e np x u =
    let (m, em, mp) = Chain-first_cell h none [] after g c in
    Returns-map _ _ (link_before sort pmenu n (first_cell after g) h)
      (splice_first sort h pmenu n (first_cell after g) new m e em (Apart-first n [] after g a) np
        mp)
      (λ h' s. (
        splice_Chain none t [] after g s em x a d (λ q z. ground arith) c,
        s.fresh,
        λ k kn ka. s.others k kn (Apart-first k [] after g ka) (λ z. ground arith),
        Spliced-Inherits_first s em,
      ))
link_at false h pmenu n g t new (r ∷ rs) after c a d e np x u = ground (arith, u refl)
link_at true h pmenu n g t new (r ∷ rs) after c a d e np x u =
    let (m, em, mp) = Chain-first_cell h none (r ∷ rs) after g c in
    let (q, mq, lq, eq, nq, pq) = last_row h none r rs after g n c a d in
    Returns-map _ _ (link_before true pmenu n (first_cell after g) h)
      (splice_later h pmenu n (first_cell after g) q new m mq e em eq
        (Apart-first n (r ∷ rs) after g a) nq pq (mp ∙ lq))
      (λ h' s. (
        splice_Chain none t (r ∷ rs) after g (rw (sym lq) at s) em x a d (λ z w. ground arith) c,
        s.fresh,
        λ k kn ka.
            s.others k kn (Apart-first k (r ∷ rs) after g ka)
              (λ z. Apart-last k none r rs after g ka (lq ∙ z)),
        Spliced-Inherits_later s em eq,
      ))

-- The new head of the list.
pub head_at :
    (n g : ℕ) (t : List ℕ) (before after : List Row)
    → Distinct (before ++ after) g
    → (if first_cell after g == first_cell (before ++ after) g
        then n
        else first_cell (before ++ after) g)
      ≡ first_cell (before ++ (n, t) ∷ after) g
head_at n g t [] after d = ground arith
head_at n g t (r ∷ rs) after d = ground (arith, Apart-first r.0 rs after g d.0)
