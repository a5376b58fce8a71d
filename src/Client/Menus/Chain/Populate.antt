-- ===== src/Client/Menus/Chain/Populate.antt =====
-- client/efikampd.c: `menu_populate` as a whole.
use efika_mpd.Base.{
  Bool-cases, inl, inr, ◌==◌, subst, ℕ, zero, suc, ◌<◌, ◌+◌, ◌≡◌, refl, sym, ◌∙◌, ◌≢◌, Bool, true,
  false, Option, none, some, List, [], ◌∷◌, arith, ap, length, ◌>>=◌, Returns, Returns->>=,
  Returns-map,
}
use efika_mpd.Client.{Menu, Handler}
use efika_mpd.Client.Heap.{Heap, store, release, menu_create_entry}
use efika_mpd.Client.Mpd.{Entry}
use efika_mpd.Client.Menus.{free_list, menu_free, seek_guard, drop_guard, menu_populate}
use efika_mpd.Client.Menus.Chain.{Row, first_cell, IsGuard, Chain, Apart, Distinct}
use efika_mpd.Client.Menus.Chain.Splice.{last_prev}
use efika_mpd.Client.Menus.Chain.Place.{insert, place}
use efika_mpd.Client.Menus.Chain.Insert.{
  HaveTexts, place_all, Good, insert_all_lem, Beyond, Below, Beyond-Apart,
}
use efika_mpd.Client.Menus.Chain.Splice.{IsChild}

abbrev pub next_cell : List Row → Option ℕ
next_cell [] = none
next_cell (r ∷ rs) = some r.0

-- An entry of a finished menu.
pub record IsEntry (h : Heap) (prev : Option ℕ) (r : Row) (next : Option ℕ) : Type 0 where
  pub menu : Menu
  pub here : h.cell r.0 ≡ some menu
  pub text : menu.text ≡ some r.1
  pub back : menu.prev ≡ prev
  pub forth : menu.next ≡ next

-- The rows are linked in both directions, the first to `prev`, and nothing follows them.
abbrev pub Listed : Heap → Option ℕ → List Row → Type 0
Listed h prev [] = Unit {0}
Listed h prev (r ∷ rs) = IsEntry h prev r (next_cell rs) × Listed h (some r.0) rs

seek_guard_lem :
    (fuel : ℕ) (h : Heap) (prev : Option ℕ) (rs : List Row) (g : ℕ)
    → Chain h prev rs g
    → length rs < fuel
    → seek_guard fuel (first_cell rs g) h ≡ some g
unfolding seek_guard
seek_guard_lem zero h prev rs g c l = absurd (omega arith)
seek_guard_lem (suc fuel) h prev [] g c l = ground (arith, c.here, c.text)
seek_guard_lem (suc fuel) h prev (r ∷ rs) g (c, cs) l =
    ground (arith, c.here, c.text, c.forth, seek_guard_lem fuel h (some r.0) rs g cs (omega arith))

-- The guard, and the last row, to which it is linked back.
Chain-IsGuard :
    (h : Heap) (prev : Option ℕ) (rs : List Row) (g : ℕ)
    → Chain h prev rs g
    → IsGuard h (last_prev prev rs) g
Chain-IsGuard h prev [] g c = c
Chain-IsGuard h prev (r ∷ rs) g c = Chain-IsGuard h (some r.0) rs g c.1

last_of :
    (h : Heap) (prev : Option ℕ) (r : Row) (rs : List Row) (g : ℕ)
    → Chain h prev (r ∷ rs) g
    → Distinct (r ∷ rs) g
    → (q : ℕ) × (mq : Menu) × (last_prev prev (r ∷ rs) ≡ some q) × (h.cell q ≡ some mq) × (g ≢ q)
last_of h prev r [] g c d = (r.0, c.0.menu, refl, c.0.here, λ z. d.0 (sym z))
last_of h prev r (x ∷ rs) g c d = last_of h (some r.0) x rs g c.1 d.1

-- What `drop_guard` does to the heap.
record Dropped (h : Heap) (q g : ℕ) (mq : Menu) (h' : Heap) : Type 0 where
  at_q : h'.cell q ≡ some (record mq { next = none })
  others : (k : ℕ) → k ≢ q → k ≢ g → h'.cell k ≡ h.cell k
  fresh : h'.fresh ≡ h.fresh

drop_Dropped :
    (h : Heap) (q g : ℕ) (m mq : Menu)
    → h.cell g ≡ some m
    → h.cell q ≡ some mq
    → m.prev ≡ some q
    → m.child ≡ none
    → g ≢ q
    → Returns (Dropped h q g mq) (drop_guard g h)
unfolding drop_guard menu_free free_list release store
drop_Dropped h q g m mq eg eq p c n = ground arith

Apart-guard : (k : ℕ) (rs : List Row) (g : ℕ) → Apart k rs g → k ≢ g
Apart-guard k [] g a = a
Apart-guard k (r ∷ rs) g a = Apart-guard k rs g a.1

Apart-end :
    (k : ℕ) (prev : Option ℕ) (r : Row) (rs : List Row) (g : ℕ)
    → Apart k (r ∷ rs) g
    → last_prev prev (r ∷ rs) ≢ some k
Apart-end k prev r [] g a = λ z. a.0 (ground arith)
Apart-end k prev r (x ∷ rs) g a = Apart-end k (some r.0) x rs g a.1

Dropped-Listed :
    {h h' : Heap} {q g : ℕ} {mq : Menu} (prev : Option ℕ) (rs : List Row)
    → Dropped h q g mq h'
    → h.cell q ≡ some mq
    → last_prev prev rs ≡ some q
    → Distinct rs g
    → Chain h prev rs g
    → Listed h' prev rs
Dropped-Listed prev [] s e l d c = tt
Dropped-Listed {h' = h'} {mq = mq} prev (r ∷ []) s e l d (c, cs) = (
  record {
    menu = record mq { next = none };
    here = ground (arith, s.at_q, l);
    text = ground (arith, c.here, c.text, e, l);
    back = ground (arith, c.here, c.back, e, l);
    forth = refl;
  },
  tt,
)
Dropped-Listed {g = g} prev (r ∷ x ∷ rs) s e l d (c, cs) = (
  record {
    menu = c.menu;
    here =
        s.others r.0 (λ z. Apart-end r.0 (some r.0) x rs g d.0 (l ∙ ap some (sym z)))
          (Apart-guard r.0 (x ∷ rs) g d.0)
        ∙ c.here;
    text = c.text;
    back = c.back;
    forth = c.forth;
  },
  Dropped-Listed (some r.0) (x ∷ rs) s e l d.1 cs,
)

-- The cells behind the guard's hold entries of the menu.
abbrev Owns : Heap → ℕ → ℕ → Type 0
Owns h pmenu g = (k : ℕ) (m : Menu) → g < k → k < h.fresh → h.cell k ≡ some m → IsChild pmenu m

-- The last row loses its link to the guard, and no more.
Dropped-own :
    {h h' : Heap} {q g pmenu : ℕ} {mq : Menu}
    → Dropped h q g mq h'
    → h.cell q ≡ some mq
    → Owns h pmenu g
    → Owns h' pmenu g
Dropped-own {h = h} {q = q} {mq = mq} d eq f k m gk kf e = elim (Bool-cases (k == q)) [
  | inl kq ↦
      let here : k ≡ q = ground arith in
      ground (arith, d.at_q, e, f k mq gk (omega (arith, d.fresh, kf)) (ap h.cell here ∙ eq))
  | inr kq ↦
      f k m gk (omega (arith, d.fresh, kf))
        (sym (d.others k (λ z. ground arith) (λ z. absurd (omega (arith, z, gk)))) ∙ e)
]

-- A write elsewhere.
kept_Listed :
    (h h' : Heap) (pmenu : ℕ) (prev : Option ℕ) (rs : List Row) (g : ℕ)
    → ((k : ℕ) → k ≢ pmenu → h'.cell k ≡ h.cell k)
    → Apart pmenu rs g
    → Listed h prev rs
    → Listed h' prev rs
kept_Listed h h' pmenu prev [] g f a l = tt
kept_Listed h h' pmenu prev (r ∷ rs) g f a (c, cs) = (
  record {
    menu = c.menu;
    here = f r.0 (λ z. a.0 (sym z)) ∙ c.here;
    text = c.text;
    back = c.back;
    forth = c.forth;
  },
  kept_Listed h h' pmenu (some r.0) rs g f a.1 cs,
)

store_child :
    (h : Heap) (pmenu first : ℕ) (m : Menu)
    → h.cell pmenu ≡ some m
    → Returns
        (λ h'.
          (h'.cell pmenu ≡ some (record m { child = some first }))
          × ((k : ℕ) → k ≢ pmenu → h'.cell k ≡ h.cell k)
          × (h'.fresh ≡ h.fresh))
        (h.cell pmenu >>= λ x. store pmenu (record x { child = some first }) h)
unfolding store
store_child h pmenu first m e = ground arith

-- Each entry is a child of `pmenu` with no children.
abbrev pub Children : Heap → ℕ → List Row → Type 0
Children h pmenu [] = Unit {0}
Children h pmenu (r ∷ rs) =
    ((m : Menu) → h.cell r.0 ≡ some m → IsChild pmenu m) × Children h pmenu rs

-- The finished menu, filled in the heap `h0`.
abbrev pub Populated : Heap → ℕ → Menu → List Row → ℕ → Heap → Type 0
Populated h0 pmenu m0 rs g h =
    Listed h none rs
    × (h.cell pmenu ≡ some (record m0 { child = some (first_cell rs g) }))
    × Children h pmenu rs
    × ((k : ℕ) → k < g → k ≢ pmenu → h.cell k ≡ h0.cell k)
    × Below h.fresh rs g
    × Beyond g rs
    × Distinct rs g
    × (length rs + g < h.fresh)

all-Children :
    (h : Heap) (pmenu g : ℕ) (rs : List Row)
    → Beyond g rs
    → Below h.fresh rs g
    → Owns h pmenu g
    → Children h pmenu rs
all-Children h pmenu g [] b l f = tt
all-Children h pmenu g (r ∷ rs) b l f =
    (λ m e. f r.0 m b.0 l.0 e, all-Children h pmenu g rs b.1 l.1 f)

-- The steps of `menu_populate` behind its loop.
finish_Good :
    (h0 : Heap) (pmenu g : ℕ) (m0 : Menu) (rs : List Row) (h : Heap)
    → Good h0 pmenu m0 g rs h
    → 0 < length rs
    → pmenu < g
    → Returns (Populated h0 pmenu m0 rs g) (
        seek_guard (suc h.fresh) (first_cell rs g) h >>= λ p. drop_guard p h >>= λ h1.
        h1.cell pmenu >>= λ x. store pmenu (record x { child = some (first_cell rs g) }) h1)
finish_Good h0 pmenu g m0 [] h v n lt = absurd (omega arith)
finish_Good h0 pmenu g m0 (r ∷ rs) h v n lt =
    let gd = Chain-IsGuard h none (r ∷ rs) g v.chain in
    let (q, mq, lq, eq, nq) = last_of h none r rs g v.chain v.distinct in
    rw (seek_guard_lem (suc h.fresh) h none (r ∷ rs) g v.chain (omega (arith, v.count))) (
      Returns->>= (Dropped h q g mq) _ (drop_guard g h) _
        (drop_Dropped h q g gd.menu mq gd.here eq (gd.back ∙ lq) gd.leaf nq)
        (λ h1 d.
          let away : pmenu ≢ q = λ z. Apart-end pmenu none r rs g v.apart (lq ∙ ap some (sym z)) in
          Returns-map _ _ (h1.cell pmenu >>= λ x. store pmenu (record x { child = some r.0 }) h1)
            (store_child h1 pmenu r.0 m0
              (d.others pmenu away (Apart-guard pmenu (r ∷ rs) g v.apart) ∙ v.held))
            (λ h2 (child, others, fresh). (
              kept_Listed h1 h2 pmenu none (r ∷ rs) g others v.apart
                  (Dropped-Listed none (r ∷ rs) d eq lq v.distinct v.chain),
              child,
              all-Children h2 pmenu g (r ∷ rs) v.beyond
                  (subst (λ f. Below f (r ∷ rs) g) (sym (fresh ∙ d.fresh)) v.below)
                  (λ k m gk kf e.
                    Dropped-own d eq v.own k m gk (omega (arith, fresh, kf))
                      (sym (others k (λ z. absurd (omega (arith, z, gk, lt)))) ∙ e)),
              λ k kg kp.
                  others k kp
                  ∙ d.others k
                      (λ z.
                        Apart-end k none r rs g (Beyond-Apart k (r ∷ rs) g kg v.beyond)
                          (lq ∙ ap some (sym z)))
                      (λ z. absurd (omega (arith, z, kg)))
                  ∙ v.kept k kg,
              subst (λ f. Below f (r ∷ rs) g) (sym (fresh ∙ d.fresh)) v.below,
              v.beyond,
              v.distinct,
              omega (arith, fresh, d.fresh, v.count),
            ))))

pub place-length : (sort : Bool) (r : Row) (rs : List Row) → 0 < length (place sort r rs)
unfolding insert
place-length false r rs = omega arith
place-length true r [] = omega arith
place-length true r (x ∷ rs) = ground arith

pub place_all-length :
    (sort : Bool) (ts : List (List ℕ)) (n : ℕ) (rs : List Row)
    → 0 < length rs
    → 0 < length (place_all sort ts n rs)
place_all-length sort [] n rs h = h
place_all-length sort (t ∷ ts) n rs h =
    place_all-length sort ts (suc n) (place sort (n, t) rs) (place-length sort (n, t) rs)

-- The list with nothing but the guard.
guard_Good :
    (h : Heap) (pmenu : ℕ) (m0 : Menu)
    → pmenu < h.fresh
    → h.cell pmenu ≡ some m0
    → Good h pmenu m0 h.fresh [] (menu_create_entry none none none none h).1
unfolding menu_create_entry
guard_Good h pmenu m0 lt e = record {
  chain = record {
    menu = record {
      file = none;
      text = none;
      next = none;
      prev = none;
      child = none;
      parent = none;
      handler_select = none;
      handler_play = none;
    };
    here = ground arith;
    text = refl;
    back = refl;
    leaf = refl;
  };
  distinct = tt;
  below = omega arith;
  count = omega arith;
  apart = λ z. absurd (omega arith);
  held = ground arith;
  old = omega arith;
  beyond = tt;
  own = λ k m gk kf e. absurd (omega (arith, gk, kf));
  kept = λ k kg. ground arith;
}

-- `menu_populate` fills a menu from an answer of libmpd that has at least one entry, each with a
-- text: it runs without a fault and its loops end in the fuel that they are given. The children
-- of the menu are then one entry for each text, in new cells, linked in both directions, with the
-- guard gone, each with the menu as its parent and without children; no older cell but the menu's
-- is written. A sorted menu has each text inserted in front of the first that is not less; one
-- that is not sorted has each in front of all that came before it.
pub menu_populate_lem :
    (pmenu : ℕ) (m0 : Menu) (es : List Entry) (t : List ℕ) (ts : List (List ℕ))
    (hs hp : Option Handler) (sort : Bool) (h : Heap)
    → HaveTexts es (t ∷ ts)
    → pmenu < h.fresh
    → h.cell pmenu ≡ some m0
    → Returns
        (Populated h pmenu m0 (place_all sort (t ∷ ts) (suc h.fresh) []) h.fresh)
        (menu_populate pmenu es hs hp sort h)
unfolding menu_populate menu_create_entry
menu_populate_lem pmenu m0 es t ts hs hp sort h a lt e =
    let rs = place_all sort (t ∷ ts) (suc h.fresh) [] in
    Returns->>= (λ r. Good h pmenu m0 h.fresh rs r.1 × (r.0 ≡ first_cell rs h.fresh))
      (Populated h pmenu m0 rs h.fresh) _ _
      (insert_all_lem sort h pmenu h.fresh m0 hs hp es (t ∷ ts) [] none
        (menu_create_entry none none none none h).1 a (guard_Good h pmenu m0 lt e))
      (λ r v. rw v.1 (
        finish_Good h pmenu h.fresh m0 rs r.1 v.0
          (place_all-length sort ts (suc (suc h.fresh)) (place sort (suc h.fresh, t) [])
            (place-length sort (suc h.fresh, t) []))
          lt))
