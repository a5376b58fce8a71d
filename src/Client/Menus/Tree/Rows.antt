-- ===== src/Client/Menus/Tree/Rows.antt =====
-- client/efikampd.c: the entries of a finished menu as cells of a closed set.
use efika_mpd.Base.{
  ℕ, suc, ◌<◌, ◌≤◌, ◌≡◌, refl, sym, ap, ◌∙◌, ◌≢◌, Bool, true, false, ◌||◌, Option, none, some, inl,
  inr, List, [], ◌∷◌, arith, ◌==◌, Bool-cases, length, subst,
}
use efika_mpd.Client.{Menu}
use efika_mpd.Client.Heap.{Heap}
use efika_mpd.Client.Menus.Chain.{Row}
use efika_mpd.Client.Menus.Chain.Insert.{Below}
use efika_mpd.Client.Menus.Chain.Populate.{Listed, next_cell, Children}
use efika_mpd.Client.Menus.Chain.{Apart, Distinct}
use efika_mpd.Client.Menus.Chain.Insert.{Beyond}
use efika_mpd.Client.Menus.Tree.{Inside, IsHeld, head, NotIn, Family, HasFamily}

abbrev pub in_rows : ℕ → List Row → Bool
in_rows k [] = false
in_rows k (r ∷ rs) = (k == r.0) || in_rows k rs

abbrev pub with_rows : (ℕ → Bool) → List Row → ℕ → Bool
with_rows s rs k = s k || in_rows k rs

pub next_cell-Inside :
    (s : ℕ → Bool) (rs : List Row)
    → ((k : ℕ) → in_rows k rs ≡ true → s k ≡ true)
    → Inside s (next_cell rs)
next_cell-Inside s [] f = tt
next_cell-Inside s (r ∷ rs) f = f r.0 (ground arith)

-- An entry of a finished menu.
pub row_IsHeld :
    (s : ℕ → Bool) (h : Heap) (pmenu k : ℕ) (prev : Option ℕ) (rs : List Row)
    → ((k : ℕ) → in_rows k rs ≡ true → s k ≡ true)
    → Inside s prev
    → s pmenu ≡ true
    → Listed h prev rs
    → Children h pmenu rs
    → in_rows k rs ≡ true
    → (m : Menu) × (h.cell k ≡ some m) × IsHeld s m
row_IsHeld s h pmenu k prev [] f p t l c e = absurd (ground arith)
row_IsHeld s h pmenu k prev (r ∷ rs) f p t (x, l) (y, c) e = elim (Bool-cases (k == r.0)) [
  | inl kr ↦
      let here : k ≡ r.0 = ground arith in
      let (leaf, up) = y x.menu x.here in
      (
        x.menu,
        ap h.cell here ∙ x.here,
        record {
          next = subst (Inside s) (sym x.forth) (next_cell-Inside s rs (λ q z. f q (ground arith)));
          prev = subst (Inside s) (sym x.back) p;
          child = subst (Inside s) (sym leaf) tt;
          parent = subst (Inside s) (sym up) t;
          above = λ z. absurd (ground arith);
        },
      )
  | inr kr ↦
      row_IsHeld s h pmenu k (some r.0) rs (λ q z. f q (ground arith)) (f r.0 (ground arith)) t l c
        (ground arith)
]

pub row_back :
    (h : Heap) (k q : ℕ) (m n : Menu) (prev : Option ℕ) (rs : List Row)
    → Listed h prev rs
    → in_rows k rs ≡ true
    → h.cell k ≡ some m
    → m.next ≡ some q
    → h.cell q ≡ some n
    → n.prev ≢ none
row_back h k q m n prev [] l e em en eq = absurd (ground arith)
row_back h k q m n prev (r ∷ []) (x, l) e em en eq = elim (Bool-cases (k == r.0)) [
  | inl kr ↦ λ z. ground (arith, x.here, x.forth, em, en, kr)
  | inr kr ↦ absurd (ground (arith, e, kr))
]
row_back h k q m n prev (r ∷ y ∷ rs) (x, l) e em en eq = elim (Bool-cases (k == r.0)) [
  | inl kr ↦ λ z. ground (arith, x.here, x.forth, em, en, kr, eq, l.0.here, l.0.back)
  | inr kr ↦ row_back h k q m n (some r.0) (y ∷ rs) l (ground (arith, e, kr)) em en eq
]

pub row-Below : (k f g : ℕ) (rs : List Row) → Below f rs g → in_rows k rs ≡ true → k < f
row-Below k f g [] b e = absurd (ground arith)
row-Below k f g (r ∷ rs) b e = elim (Bool-cases (k == r.0)) [
  | inl kr ↦ ground (arith, b.0)
  | inr kr ↦ row-Below k f g rs b.1 (ground arith)
]

abbrev pub cells : List Row → List ℕ
cells [] = []
cells (r ∷ rs) = r.0 ∷ cells rs

pub head-cells : (rs : List Row) → next_cell rs ≡ head (cells rs)
head-cells [] = refl
head-cells (r ∷ rs) = refl

pub cells-NotIn : (k : ℕ) (rs : List Row) (g : ℕ) → Apart k rs g → NotIn k (cells rs)
cells-NotIn k [] g a = tt
cells-NotIn k (r ∷ rs) g a = (a.0, cells-NotIn k rs g a.1)

pub cells-length : (rs : List Row) → length (cells rs) ≡ length rs
cells-length [] = refl
cells-length (r ∷ rs) = ap suc (cells-length rs)

-- The entries of a finished menu are a family.
pub rows-Family :
    (s : ℕ → Bool) (h : Heap) (pmenu g : ℕ) (prev : Option ℕ) (rs : List Row)
    → pmenu ≤ g
    → ((k : ℕ) → in_rows k rs ≡ true → s k ≡ true)
    → Listed h prev rs
    → Children h pmenu rs
    → Beyond g rs
    → Distinct rs g
    → Family s h pmenu (cells rs)
rows-Family s h pmenu g prev [] lt f l c b d = tt
rows-Family s h pmenu g prev (r ∷ rs) lt f (x, l) (y, c) b d = (
  omega (arith, lt, b.0),
  f r.0 (ground arith),
  (x.menu, x.here, x.forth ∙ head-cells rs, (y x.menu x.here).1),
  cells-NotIn r.0 rs g d.0,
  rows-Family s h pmenu g (some r.0) rs lt (λ q z. f q (ground arith)) l c b.1 d.1,
)

pub row-HasFamily :
    (s : ℕ → Bool) (h : Heap) (pmenu g k : ℕ) (m : Menu) (rs : List Row)
    → pmenu ≤ g
    → k < h.fresh
    → Children h pmenu rs
    → Beyond g rs
    → in_rows k rs ≡ true
    → h.cell k ≡ some m
    → HasFamily s h k m
row-HasFamily s h pmenu g k m [] lt kf c b e em = absurd (ground arith)
row-HasFamily s h pmenu g k m (r ∷ rs) lt kf (y, c) b e em = elim (Bool-cases (k == r.0)) [
  | inl kr ↦
      let here : k ≡ r.0 = ground arith in
      let (leaf, up) = y m (ap h.cell (sym here) ∙ em) in
      record { kids = []; first = leaf; family = tt; count = omega (arith, kf) }
  | inr kr ↦ row-HasFamily s h pmenu g k m rs lt kf c b.1 (ground (arith, e, kr)) em
]
