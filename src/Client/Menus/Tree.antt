-- ===== src/Client/Menus/Tree.antt =====
-- client/efikampd.c: the menus as a set of live cells that no pointer leaves.
pub mod Rows
pub mod Grown
pub mod Placed
pub mod Radio
pub mod Handlers
pub mod Freed
use efika_mpd.Base.{
  ℕ, suc, ◌+◌, ◌<◌, ◌≤◌, ◌≡◌, refl, sym, ap, ◌∙◌, ◌≢◌, Bool, true, false, ◌||◌, Option, none, some,
  inl, inr, List, [], ◌∷◌, arith, ◌==◌, Bool-cases, Option-cases, length, subst, All,
}
use efika_mpd.Client.{Menu, Handler, fetch_songs}
use efika_mpd.Client.Heap.{Heap}
use efika_mpd.Client.Menus.Chain.{Row, first_cell}
use efika_mpd.Client.Menus.Chain.Insert.{Below}
use efika_mpd.Client.Menus.Chain.Populate.{IsEntry, Listed, next_cell, Children, Populated}

-- A pointer is null or leads into the set.
abbrev pub Inside : (ℕ → Bool) → Option ℕ → Type 0
Inside s none = Unit {0}
Inside s (some q) = s q ≡ true

-- The pointers of an entry, and that `menu_fetch_songs` finds an artist above it.
pub record IsHeld (s : ℕ → Bool) (m : Menu) : Type 0 where
  pub next : Inside s m.next
  pub prev : Inside s m.prev
  pub child : Inside s m.child
  pub parent : Inside s m.parent
  pub above :
      m.parent ≡ none → (m.handler_select ≢ some fetch_songs) × (m.handler_play ≢ some fetch_songs)

-- Pointers to the first of some cells.
abbrev pub head : List ℕ → Option ℕ
head [] = none
head (c ∷ cs) = some c

abbrev pub NotIn : ℕ → List ℕ → Type 0
NotIn c cs = All (λ d. c ≢ d) cs

-- The entry in a cell has this neighbour and this parent.
abbrev pub IsKid : Heap → ℕ → ℕ → Option ℕ → Type 0
IsKid h k c next = (x : Menu) × (h.cell c ≡ some x) × (x.next ≡ next) × (x.parent ≡ some k)

-- The cells hold a list of children of the entry in cell `k`, no cell twice, all behind `k`.
abbrev pub Family : (ℕ → Bool) → Heap → ℕ → List ℕ → Type 0
Family s h k [] = Unit {0}
Family s h k (c ∷ cs) =
    (k < c) × (s c ≡ true) × IsKid h k c (head cs) × NotIn c cs × Family s h k cs

-- The children of the entry `m` in cell `k`.
pub record HasFamily (s : ℕ → Bool) (h : Heap) (k : ℕ) (m : Menu) : Type 0 where
  pub kids : List ℕ
  pub first : m.child ≡ head kids
  pub family : Family s h k kids
  pub count : length kids + k < h.fresh

pub record IsClosed (s : ℕ → Bool) (h : Heap) : Type 0 where
  pub entry : (k : ℕ) → s k ≡ true → (m : Menu) × (h.cell k ≡ some m) × IsHeld s m
  pub back :
      (k q : ℕ) (m n : Menu)
      → s k ≡ true
      → h.cell k ≡ some m
      → m.next ≡ some q
      → h.cell q ≡ some n
      → n.prev ≢ none
  pub below : (k : ℕ) → s k ≡ true → k < h.fresh
  pub tree : (k : ℕ) (m : Menu) → s k ≡ true → h.cell k ≡ some m → HasFamily s h k m

-- A pointer that is not null.
abbrev pub Into : (ℕ → Bool) → Option ℕ → Type 0
Into s none = ⊥
Into s (some q) = s q ≡ true

pub Into-Inside : (s : ℕ → Bool) (o : Option ℕ) → Into s o → Inside s o
Into-Inside s none h = absurd h
Into-Inside s (some q) h = h

pub grow-Inside :
    (s s' : ℕ → Bool) (o : Option ℕ)
    → ((k : ℕ) → s k ≡ true → s' k ≡ true)
    → Inside s o
    → Inside s' o
grow-Inside s s' none f h = tt
grow-Inside s s' (some q) f h = f q h

pub grow-IsHeld :
    (s s' : ℕ → Bool) (m : Menu) → ((k : ℕ) → s k ≡ true → s' k ≡ true) → IsHeld s m → IsHeld s' m
grow-IsHeld s s' m f v = record {
  next = grow-Inside s s' m.next f v.next;
  prev = grow-Inside s s' m.prev f v.prev;
  child = grow-Inside s s' m.child f v.child;
  parent = grow-Inside s s' m.parent f v.parent;
  above = v.above;
}

pub grow-Into :
    (s s' : ℕ → Bool) (o : Option ℕ) → ((k : ℕ) → s k ≡ true → s' k ≡ true) → Into s o → Into s' o
grow-Into s s' none f h = h
grow-Into s s' (some q) f h = f q h
