-- ===== src/Client/Menus/Tree/Freed.antt =====
-- client/efikampd.c: `menu_free` on a tree of menus.
use efika_mpd.Base.{
  ℕ, zero, suc, ◌+◌, ◌≤◌, ◌<◌, ◌≡◌, refl, sym, ap, ◌∙◌, ◌≢◌, Bool, true, Option, none, some, inl,
  inr, List, [], ◌∷◌, arith, ◌==◌, Bool-cases, length, subst, All, Returns, Returns->>=,
  Returns-map,
}
use efika_mpd.Client.{Menu}
use efika_mpd.Client.Heap.{Heap, release, update}
use efika_mpd.Client.Menus.{free_list, menu_free}
use efika_mpd.Client.Menus.Tree.{head, NotIn, IsKid, Family, IsClosed}
use efika_mpd.Client.Menus.Tree.Placed.{bind_some}

-- Cell `e` is `d`, or its parents lead to `d`, through lower and lower cells.
pub data Under (h : Heap) (d : ℕ) : ℕ → Type 0 where
  here : (e : ℕ) → e ≡ d → Under h d e
  step :
      (e q : ℕ) (m : Menu)
      → h.cell e ≡ some m
      → m.parent ≡ some q
      → q < e
      → Under h d q
      → Under h d e

Under-le : (h : Heap) (d e : ℕ) → Under h d e → d ≤ e
Under-le h d _ (here e x) = omega (arith, x)
Under-le h d _ (step e q m c p l u) = omega (arith, l, Under-le h d q u)

Under-trans : (h : Heap) (p c e : ℕ) → Under h p c → Under h c e → Under h p e
Under-trans h p c _ u (here e x) = subst (Under h p) (sym x) u
Under-trans h p c _ u (step e q m a b l v) = step e q m a b l (Under-trans h p c q u v)

-- A heap with fewer entries.
abbrev IsLess : Heap → Heap → Type 0
IsLess h' h = (e : ℕ) (m : Menu) → h'.cell e ≡ some m → h.cell e ≡ some m

less-Under : (h h' : Heap) (d e : ℕ) → IsLess h' h → Under h' d e → Under h d e
less-Under h h' d _ f (here e x) = here e x
less-Under h h' d _ f (step e q m a b l v) = step e q m (f e m a) b l (less-Under h h' d q f v)

-- Nothing is under two children of one entry.
under_one :
    (h : Heap) (p c d e : ℕ) (x y : Menu)
    → h.cell c ≡ some x
    → x.parent ≡ some p
    → p < c
    → h.cell d ≡ some y
    → y.parent ≡ some p
    → p < d
    → c ≢ d
    → Under h d e
    → Under h c e
    → ⊥
under_one h p c d _ x y ex px lc ey py ld n (here e z) (here _ w) = n (sym w ∙ z)
under_one h p c d _ x y ex px lc ey py ld n (here e z) (step _ q m a b l v) =
    let qp : q ≡ p = ground (arith, z, a, ey, b, py) in
    absurd (omega (arith, qp, lc, Under-le h c q v))
under_one h p c d _ x y ex px lc ey py ld n (step e q m a b l u) (here _ w) =
    let qp : q ≡ p = ground (arith, w, a, ex, b, px) in
    absurd (omega (arith, qp, ld, Under-le h d q u))
under_one h p c d _ x y ex px lc ey py ld n (step e q m a b l u) (step _ q' m' a' b' l' v) =
    let qq : q' ≡ q = ground (arith, a, a', b, b') in
    under_one h p c d q x y ex px lc ey py ld n u (subst (Under h c) qq v)

abbrev Kids : (ℕ → Type 0) → Heap → ℕ → List ℕ → Type 0
Kids T h p [] = Unit {0}
Kids T h p (c ∷ cs) = (p < c) × IsKid h p c (head cs) × NotIn c cs × T c × Kids T h p cs

-- The entry in cell `p` with all that is below it, for `n` levels of `menu_free`.
abbrev pub Tree : ℕ → Heap → ℕ → Type 0
Tree zero h p = ⊥
Tree (suc n) h p =
    (m : Menu) × (cs : List ℕ) × (h.cell p ≡ some m)
    × (m.child ≡ head cs)
    × Kids (Tree n h) h p cs
    × (length cs ≤ suc n)

abbrev Unchanged : Heap → Heap → ℕ → Type 0
Unchanged h h' c = (e : ℕ) → Under h c e → h'.cell e ≡ h.cell e

-- Children of which nothing has changed; `Q` holds of each.
kept_Kids :
    (T T' Q : ℕ → Type 0) (h h' : Heap) (p : ℕ) (cs : List ℕ)
    → ((d : ℕ) (y : Menu) → p < d → h.cell d ≡ some y → y.parent ≡ some p → Q d → Unchanged h h' d)
    → ((d : ℕ) → Unchanged h h' d → T d → T' d)
    → All Q cs
    → Kids T h p cs
    → Kids T' h' p cs
kept_Kids T T' Q h h' p [] f k a ks = tt
kept_Kids T T' Q h h' p (d ∷ cs) f k a (lt, (y, ey, ny, py), n, t, ks) =
    let same = f d y lt ey py a.0 in
    (
      lt,
      (y, same d (here d refl) ∙ ey, ny, py),
      n,
      k d same t,
      kept_Kids T T' Q h h' p cs f k a.1 ks,
    )

trivially : (cs : List ℕ) → All (λ c. Unit {0}) cs
trivially [] = tt
trivially (c ∷ cs) = (tt, trivially cs)

kid-Under :
    (h : Heap) (p d : ℕ) (y : Menu) → p < d → h.cell d ≡ some y → y.parent ≡ some p → Under h p d
kid-Under h p d y lt ey py = step d p y ey py lt (here p refl)

kept_Tree : (n : ℕ) (h h' : Heap) (p : ℕ) → Unchanged h h' p → Tree n h p → Tree n h' p
kept_Tree zero h h' p f t = t
kept_Tree (suc n) h h' p f (m, cs, at, first, ks, long) = (
  m,
  cs,
  f p (here p refl) ∙ at,
  first,
  kept_Kids (Tree n h) (Tree n h') (λ c. Unit {0}) h h' p cs
      (λ d y lt ey py u e v. f e (Under-trans h p d e (kid-Under h p d y lt ey py) v))
      (λ d g t. kept_Tree n h h' d g t) (trivially cs) ks,
  long,
)

-- The entry in cell `p` has been freed, with nothing but what is under it.
pub record Freed (h : Heap) (p : ℕ) (r : Option ℕ × Heap) : Type 0 where
  pub next : (m : Menu) → h.cell p ≡ some m → r.0 ≡ m.next
  pub fresh : r.1.fresh ≡ h.fresh
  pub less : (e : ℕ) (m : Menu) → r.1.cell e ≡ some m → h.cell e ≡ some m
  pub kept : (d : ℕ) → (Under h p d → ⊥) → r.1.cell d ≡ h.cell d

record FreedAll (h : Heap) (cs : List ℕ) (h' : Heap) : Type 0 where
  fresh : h'.fresh ≡ h.fresh
  less : IsLess h' h
  kept : (d : ℕ) → All (λ c. Under h c d → ⊥) cs → h'.cell d ≡ h.cell d

none_under :
    (h h' : Heap) (d : ℕ) (cs : List ℕ)
    → IsLess h' h
    → All (λ c. Under h c d → ⊥) cs
    → All (λ c. Under h' c d → ⊥) cs
none_under h h' d [] f a = tt
none_under h h' d (c ∷ cs) f a = ((λ u. a.0 (less-Under h h' c d f u)), none_under h h' d cs f a.1)

free-Kids :
    (free : ℕ → Heap → Option (Option ℕ × Heap)) (T : Heap → ℕ → Type 0)
    → ((c : ℕ) (h : Heap) → T h c → Returns (Freed h c) (free c h))
    → ((h h' : Heap) (c : ℕ) → Unchanged h h' c → T h c → T h' c)
    → (fuel : ℕ) (h : Heap) (p : ℕ) (cs : List ℕ) → length cs ≤ fuel
    → Kids (T h) h p cs
    → Returns (FreedAll h cs) (free_list free fuel (head cs) h)
unfolding free_list
free-Kids free T spec keep zero h p [] l ks = record {
  fresh = refl;
  less = λ e m z. z;
  kept = λ d a. refl;
}
free-Kids free T spec keep (suc fuel) h p [] l ks = record {
  fresh = refl;
  less = λ e m z. z;
  kept = λ d a. refl;
}
free-Kids free T spec keep zero h p (c ∷ cs) l ks = absurd (omega (arith, l))
free-Kids free T spec keep (suc fuel) h p (c ∷ cs) l (lt, (x, ex, nx, px), n, t, ks) =
    Returns->>= (Freed h c) (FreedAll h (c ∷ cs)) (free c h) _ (spec c h t) λ r f.
      subst (λ o. Returns (FreedAll h (c ∷ cs)) (free_list free fuel o r.1))
        (sym (f.next x ex ∙ nx))
        (Returns-map (FreedAll r.1 cs) (FreedAll h (c ∷ cs)) (free_list free fuel (head cs) r.1)
          (free-Kids free T spec keep fuel r.1 p cs (omega (arith, l)) (
            kept_Kids (T h) (T r.1) (λ d. c ≢ d) h r.1 p cs
              (λ d y ld ey py cd e u.
                f.kept e (λ v. under_one h p c d e x y ex px lt ey py ld cd u v))
              (λ d g s. keep h r.1 d g s) n ks))
          λ h' g. record {
            fresh = g.fresh ∙ f.fresh;
            less = λ e m z. f.less e m (g.less e m z);
            kept = λ d a. g.kept d (none_under h r.1 d cs f.less a.1) ∙ f.kept d a.0;
          })

release-some :
    (h : Heap) (p : ℕ) (m : Menu)
    → h.cell p ≡ some m
    → release p h ≡ some (record h { cell = update h.cell p none })
unfolding release
release-some h p m e = ground (arith, e)

not_under-Kids :
    (T : ℕ → Type 0) (h : Heap) (p d : ℕ) (cs : List ℕ)
    → ((c : ℕ) → p < c → Under h p c → Under h c d → ⊥)
    → Kids T h p cs
    → All (λ c. Under h c d → ⊥) cs
not_under-Kids T h p d [] f ks = tt
not_under-Kids T h p d (c ∷ cs) f (lt, (y, ey, ny, py), n, t, ks) =
    ((λ u. f c lt (kid-Under h p c y lt ey py) u), not_under-Kids T h p d cs f ks)

released-Freed :
    (h h1 : Heap) (p : ℕ) (m : Menu) (cs : List ℕ) (T : ℕ → Type 0)
    → h.cell p ≡ some m
    → Kids T h p cs
    → FreedAll h cs h1
    → Freed h p (m.next, record h1 { cell = update h1.cell p none })
released-Freed h h1 p m cs T at ks f = record {
  next = λ m' e. let same : m ≡ m' = ground (arith, at, e) in ap (λ z. z.next) same;
  fresh = f.fresh;
  less = λ e m' z. elim (Bool-cases (p == e)) [
    | inl pe ↦ absurd (ground (arith, z, pe))
    | inr pe ↦ f.less e m' (ground (arith, z, pe))
  ];
  kept = λ d nu. elim (Bool-cases (p == d)) [
    | inl pd ↦ absurd (nu (here d (ground arith)))
    | inr pd ↦ ground (
      arith,
      pd,
      f.kept d (not_under-Kids T h p d cs (λ c lt u v. nu (Under-trans h p c d u v)) ks),
    )
  ];
}

-- `menu_free` frees a tree with fuel for its levels.
pub menu_free-Freed :
    (n : ℕ) (h : Heap) (p : ℕ) → Tree n h p → Returns (Freed h p) (menu_free n p h)
unfolding menu_free
menu_free-Freed zero h p t = absurd t
menu_free-Freed (suc n) h p (m, cs, at, first, ks, long) = bind_some (Freed h p) (h.cell p) _ at (
    Returns->>= (FreedAll h cs) (Freed h p) (free_list (menu_free n) (suc n) m.child h) _
      (subst (λ o. Returns (FreedAll h cs) (free_list (menu_free n) (suc n) o h)) (sym first)
        (free-Kids (menu_free n) (Tree n) (λ c h t. menu_free-Freed n h c t)
          (λ h h' c f t. kept_Tree n h h' c f t) (suc n) h p cs long ks))
      λ h1 f.
        bind_some (Freed h p) (release p h1) _
          (release-some h1 p m (
            f.kept p (
              not_under-Kids (Tree n h) h p p cs
                (λ c lt u v. absurd (omega (arith, lt, Under-le h c p v))) ks)
            ∙ at))
          (released-Freed h h1 p m cs (Tree n h) at ks f))

Family-Kids :
    (s : ℕ → Bool) (h : Heap) (T : ℕ → Type 0) (p : ℕ) (cs : List ℕ)
    → ((c : ℕ) → p < c → s c ≡ true → T c)
    → Family s h p cs
    → Kids T h p cs
Family-Kids s h T p [] f k = tt
Family-Kids s h T p (c ∷ cs) f (lt, sc, kid, n, k) =
    (lt, kid, n, f c lt sc, Family-Kids s h T p cs f k)

-- Every entry of a closed set is a tree.
pub closed-Tree :
    (s : ℕ → Bool) (h : Heap) (n p : ℕ) → IsClosed s h → s p ≡ true → h.fresh ≤ p + n → Tree n h p
closed-Tree s h zero p v e l = absurd (omega (arith, v.below p e, l))
closed-Tree s h (suc n) p v e l =
    let (m, at, held) = v.entry p e in
    let t = v.tree p m e at in
    (
      m,
      t.kids,
      at,
      t.first,
      Family-Kids s h (Tree n h) p t.kids
          (λ c lt sc. closed-Tree s h n c v sc (omega (arith, lt, l))) t.family,
      omega (arith, t.count, l),
    )
