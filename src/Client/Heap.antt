-- ===== src/Client/Heap.antt =====
-- The heap of client/efikampd.c: the cells that `menu_create_entry` allocates. `calloc` and
-- `malloc` are taken to succeed.
use efika_mpd.Base.{ℕ, suc, Option, none, some, List, ◌==◌, if◌then◌else◌, ◌>>=◌}
use efika_mpd.Client.{Menu, Handler}

-- `cell` holds what has been allocated and not freed; all of it is below `fresh`.
pub record Heap : Type 0 where
  pub fresh : ℕ
  pub cell : ℕ → Option Menu

abbrev pub empty : Heap
empty = record { fresh = 0; cell = λ _. none }

abbrev pub update : (ℕ → Option Menu) → ℕ → Option Menu → ℕ → Option Menu
update f p v q = if p == q then v else f q

-- `*p`, a fault through a null or dangling pointer.
unfoldable pub load : Option ℕ → Heap → Option Menu
load none h = none
load (some p) h = h.cell p

-- `*p = m`.
unfoldable pub store : ℕ → Menu → Heap → Option Heap
store p m h = h.cell p >>= λ _. some (record h { cell = update h.cell p (some m) })

-- `free(p)`.
unfoldable pub release : ℕ → Heap → Option Heap
release p h = h.cell p >>= λ _. some (record h { cell = update h.cell p none })

-- `menu_create_entry`: the new cell and the heap with it.
unfoldable pub menu_create_entry :
    Option (List ℕ) → Option (List ℕ) → Option Handler → Option Handler → Heap → ℕ × Heap
menu_create_entry text file hs hp h =
    let m : Menu = record {
      file = file;
      text = text;
      next = none;
      prev = none;
      child = none;
      parent = none;
      handler_select = hs;
      handler_play = hp;
    } in
    (h.fresh, record { fresh = suc h.fresh; cell = update h.cell h.fresh (some m) })
