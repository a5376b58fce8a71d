-- ===== src/Client/Command/Sound/Renewed.antt =====
-- client/efikampd.c: a new top menu, and the old one freed.
use efika_mpd.Base.{
  ℕ, suc, ◌≤◌, ◌≡◌, Bool, ◌||◌, Option, none, some, inl, inr, [], arith, ◌==◌, ◌>>=◌, Bool-cases,
  ap, ◌∙◌, Returns, Returns->>=, Returns-map,
}
use efika_mpd.Client.Heap.{Heap}
use efika_mpd.Client.State.{Daemon}
use efika_mpd.Client.Menus.Fetch.{menu_init}
use efika_mpd.Client.Menus.Top.{library_entry, radio_entry, menu_init_lem}
use efika_mpd.Client.Menus.Tree.{IsClosed}
use efika_mpd.Client.Command.{renew_menu}
use efika_mpd.Client.Command.Sound.{IsSound}
use efika_mpd.Client.Menus.{menu_free}
use efika_mpd.Client.Menus.Tree.{Into}
use efika_mpd.Client.Menus.Tree.Freed.{Freed, menu_free-Freed, closed-Tree}

-- The two entries of the top menu are a closed set.
abbrev pub pair : ℕ → ℕ → Bool
pair p k = (k == p) || (k == suc p)

pub pair-IsClosed :
    (h : Heap) (p : ℕ)
    → h.cell p ≡ some (library_entry (suc p))
    → h.cell (suc p) ≡ some (radio_entry p)
    → h.fresh ≡ suc (suc p)
    → IsClosed (pair p) h
pair-IsClosed h p a b f = record {
  entry = λ k e. elim (Bool-cases (k == p)) [
    | inl z ↦
        let here : k ≡ p = ground arith in
        (
          library_entry (suc p),
          ap h.cell here ∙ a,
          record {
            next = ground arith;
            prev = tt;
            child = tt;
            parent = tt;
            above = λ _. (λ x. ground (arith, x), λ x. ground (arith, x));
          },
        )
    | inr z ↦
        let here : k ≡ suc p = ground (arith, e, z) in
        (
          radio_entry p,
          ap h.cell here ∙ b,
          record {
            next = tt;
            prev = ground arith;
            child = tt;
            parent = tt;
            above = λ _. (λ x. ground (arith, x), λ x. ground (arith, x));
          },
        )
  ];
  back = λ k q m n e em en eq z. elim (Bool-cases (k == p)) [
    | inl y ↦ ground (arith, y, em, a, en, eq, b, z)
    | inr y ↦ ground (arith, e, y, em, b, en)
  ];
  below = λ k e. ground (arith, e, f);
  tree = λ k m e em. elim (Bool-cases (k == p)) [
    | inl y ↦ record {
      kids = [];
      first = ground (arith, y, em, a);
      family = tt;
      count = ground (arith, y, f);
    }
    | inr y ↦ record {
      kids = [];
      first = ground (arith, e, y, em, b);
      family = tt;
      count = ground (arith, e, y, f);
    }
  ];
}

-- The menus are sound right after `menu_init`, on any heap, with no menu open and the marker on
-- one of the two lines.
pub menu_init-IsSound :
    (h : Heap) (d : Daemon)
    → d.lcd.marker_pos ≤ 1
    → Returns
        (λ r. IsSound (record d { heap = r.1; top_menu = some r.0; pmenu = none }))
        (menu_init h)
menu_init-IsSound h d low =
    Returns-map _ (λ r. IsSound (record d { heap = r.1; top_menu = some r.0; pmenu = none }))
      (menu_init h)
      (menu_init_lem h (suc (suc h.fresh)) (λ e. omega (arith, e)) (λ e. omega (arith, e)))
      λ r v. (
        pair r.0,
        record {
          placed = record {
            closed = pair-IsClosed r.1 r.0 v.1 v.2 (ground (arith, v.0, v.3));
            pmenu = tt;
            top = ground arith;
          };
          low = low;
          above = λ p m e a n. ground (arith, e);
        },
      )

-- The top menu can be freed.
pub free_top :
    {B : Type 0} (d : Daemon) (f : ℕ → Option ℕ × Heap → Option B) (Q : B → Type 0)
    → IsSound d
    → ((p : ℕ) (r : Option ℕ × Heap) → Freed d.heap p r → Returns Q (f p r))
    → Returns Q (d.top_menu >>= λ p. menu_free (suc d.heap.fresh) p d.heap >>= λ r. f p r)
free_top d f Q (s, v) g = at d.top_menu v.placed.top
  where
    at :
        (o : Option ℕ)
        → Into s o
        → Returns Q (o >>= λ p. menu_free (suc d.heap.fresh) p d.heap >>= λ r. f p r)
    at none h = absurd h
    at (some p) h =
        Returns->>= (Freed d.heap p) Q (menu_free (suc d.heap.fresh) p d.heap) _
          (menu_free-Freed (suc d.heap.fresh) d.heap p
            (closed-Tree s d.heap (suc d.heap.fresh) p v.placed.closed h (omega arith)))
          λ r w. g p r w

-- A change of the library.
pub renew_menu-IsSound : (d : Daemon) → IsSound d → Returns IsSound (renew_menu d)
unfolding renew_menu
renew_menu-IsSound d v = free_top d _ IsSound v λ p r w.
    Returns->>= (λ s. IsSound (record d { heap = s.1; top_menu = some s.0; pmenu = none })) IsSound
      (menu_init r.1) _ (menu_init-IsSound r.1 d v.1.low) λ s x. x
