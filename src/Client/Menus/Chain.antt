-- ===== src/Client/Menus/Chain.antt =====
-- client/efikampd.c: `menu_populate` as insertion into a doubly linked list.
pub mod Splice
pub mod Place
pub mod Insert
pub mod Populate
use efika_mpd.Base.{
  ℕ, zero, suc, ◌+◌, ◌≤◌, ◌<◌, ◌≡◌, refl, sym, ◌∙◌, ◌≢◌, Bool, true, false, Option, none, some, inl,
  inr, List, [], ◌∷◌, ◌++◌, arith, ap, length, ◌==◌, if◌then◌else◌, ◌>>=◌, Returns, Returns->>=,
  Returns-map, Option-cases, Bool-cases, All,
}
use efika_mpd.Client.{Menu, Handler}
use efika_mpd.Client.Heap.{Heap, store}
use efika_mpd.Client.Text.{str_ltb}
use efika_mpd.Client.Menus.{seek, set_next, link_before}

-- A cell and the text of its entry.
abbrev pub Row : Type 0
Row = ℕ × List ℕ

abbrev pub first_cell : List Row → ℕ → ℕ
first_cell [] guard = guard
first_cell (r ∷ rs) guard = r.0

-- An entry of a list, and the guard at its end.
pub record IsRow (h : Heap) (prev : Option ℕ) (r : Row) (next : ℕ) : Type 0 where
  pub menu : Menu
  pub here : h.cell r.0 ≡ some menu
  pub text : menu.text ≡ some r.1
  pub back : menu.prev ≡ prev
  pub forth : menu.next ≡ some next

pub record IsGuard (h : Heap) (prev : Option ℕ) (guard : ℕ) : Type 0 where
  pub menu : Menu
  pub here : h.cell guard ≡ some menu
  pub text : menu.text ≡ none
  pub back : menu.prev ≡ prev
  pub leaf : menu.child ≡ none

-- The rows are linked in both directions, the first to `prev`, with the guard behind them.
abbrev pub Chain : Heap → Option ℕ → List Row → ℕ → Type 0
Chain h prev [] guard = IsGuard h prev guard
Chain h prev (r ∷ rs) guard = IsRow h prev r (first_cell rs guard) × Chain h (some r.0) rs guard

-- A cell is none of the rows' nor the guard's.
abbrev pub Apart : ℕ → List Row → ℕ → Type 0
Apart k [] guard = k ≢ guard
Apart k (r ∷ rs) guard = (k ≢ r.0) × Apart k rs guard

abbrev pub Distinct : List Row → ℕ → Type 0
Distinct [] guard = Unit {0}
Distinct (r ∷ rs) guard = Apart r.0 rs guard × Distinct rs guard

-- What `link_before` does to the heap: `n` stands in front of `p`, behind `o`.
pub record Spliced (h : Heap) (pmenu n p : ℕ) (o : Option ℕ) (new m : Menu) (h' : Heap)
    : Type 0 where
  pub fresh : h'.fresh ≡ h.fresh
  pub at_n : h'.cell n ≡ some (record new { next = some p; parent = some pmenu; prev = o })
  pub at_p : h'.cell p ≡ some (record m { prev = some n })
  pub at_q :
      (q : ℕ) (mq : Menu)
      → o ≡ some q
      → h.cell q ≡ some mq
      → h'.cell q ≡ some (record mq { next = some n })
  pub others : (k : ℕ) → k ≢ n → k ≢ p → o ≢ some k → h'.cell k ≡ h.cell k

pub splice_first :
    (sort : Bool) (h : Heap) (pmenu n p : ℕ) (new m : Menu)
    → h.cell n ≡ some new
    → h.cell p ≡ some m
    → n ≢ p
    → new.prev ≡ none
    → m.prev ≡ none
    → Returns (Spliced h pmenu n p none new m) (link_before sort pmenu n p h)
unfolding link_before set_next store
splice_first sort h pmenu n p new m en ep d np mp = ground arith

pub splice_later :
    (h : Heap) (pmenu n p q : ℕ) (new m mq : Menu)
    → h.cell n ≡ some new
    → h.cell p ≡ some m
    → h.cell q ≡ some mq
    → n ≢ p
    → n ≢ q
    → p ≢ q
    → m.prev ≡ some q
    → Returns (Spliced h pmenu n p (some q) new m) (link_before true pmenu n p h)
unfolding link_before set_next store
splice_later h pmenu n p q new m mq en ep eq d dq dp mp = ground arith
