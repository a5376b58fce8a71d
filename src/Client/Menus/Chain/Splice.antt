-- ===== src/Client/Menus/Chain/Splice.antt =====
-- client/efikampd.c: the list of a menu around a new entry.
use efika_mpd.Base.{
  none, Bool-cases, inl, inr, ap, ◌⊎◌, ◌==◌, ℕ, ◌≡◌, refl, sym, ◌∙◌, ◌≢◌, Option, some, List, [],
  ◌∷◌, ◌++◌, arith,
}
use efika_mpd.Client.{Menu}
use efika_mpd.Client.Heap.{Heap}
use efika_mpd.Client.Menus.Chain.{Row, first_cell, Chain, Apart, Distinct, Spliced}

-- What the first of some more rows is linked back to.
abbrev pub last_prev : Option ℕ → List Row → Option ℕ
last_prev prev [] = prev
last_prev prev (r ∷ rs) = last_prev (some r.0) rs

pub Apart-first :
    (k : ℕ) (rs after : List Row) (g : ℕ) → Apart k (rs ++ after) g → k ≢ first_cell after g
Apart-first k [] [] g a = a
Apart-first k [] (r ∷ after) g a = a.0
Apart-first k (r ∷ rs) after g a = Apart-first k rs after g a.1

pub Apart-last :
    (k : ℕ) (prev : Option ℕ) (r : Row) (rs after : List Row) (g : ℕ)
    → Apart k (r ∷ rs ++ after) g
    → last_prev prev (r ∷ rs) ≢ some k
Apart-last k prev r [] after g a = λ z. a.0 (ground arith)
Apart-last k prev r (x ∷ rs) after g a = Apart-last k (some r.0) x rs after g a.1

-- Rows apart from all that is written stay as they are.
kept_Chain :
    {h h' : Heap} {pmenu n p : ℕ} {o : Option ℕ} {new m : Menu} (prev : Option ℕ) (rs : List Row)
    (g : ℕ)
    → Spliced h pmenu n p o new m h'
    → Apart n rs g
    → Apart p rs g
    → ((q : ℕ) → o ≡ some q → Apart q rs g)
    → Chain h prev rs g
    → Chain h' prev rs g
kept_Chain prev [] g s an ap_ aq c = record {
  menu = c.menu;
  here = s.others g (λ z. an (sym z)) (λ z. ap_ (sym z)) (λ z. aq g z refl) ∙ c.here;
  text = c.text;
  back = c.back;
  leaf = c.leaf;
}
kept_Chain prev (r ∷ rs) g s an ap_ aq (c, cs) = (
  record {
    menu = c.menu;
    here = s.others r.0 (λ z. an.0 (sym z)) (λ z. ap_.0 (sym z)) (λ z. (aq r.0 z).0 refl) ∙ c.here;
    text = c.text;
    back = c.back;
    forth = c.forth;
  },
  kept_Chain (some r.0) rs g s an.1 ap_.1 (λ q z. (aq q z).1) cs,
)

-- In front of the first of some rows.
splice_front :
    {h h' : Heap} {pmenu n : ℕ} {new m : Menu} (o : Option ℕ) (t : List ℕ) (after : List Row)
    (g : ℕ)
    → Spliced h pmenu n (first_cell after g) o new m h'
    → h.cell (first_cell after g) ≡ some m
    → new.text ≡ some t
    → Apart n after g
    → Distinct after g
    → ((q : ℕ) → o ≡ some q → Apart q after g)
    → Chain h o after g
    → Chain h' o ((n, t) ∷ after) g
splice_front {n = n} {new = new} {m = m} o t [] g s e x an d aq c = (
  record { menu = _; here = s.at_n; text = x; back = refl; forth = refl },
  record {
    menu = _;
    here = s.at_p;
    text = ground (arith, c.here, c.text, e);
    back = refl;
    leaf = ground (arith, c.here, c.leaf, e);
  },
)
splice_front {n = n} {new = new} {m = m} o t (r ∷ rs) g s e x an d aq (c, cs) = (
  record { menu = _; here = s.at_n; text = x; back = refl; forth = refl },
  (
    record {
      menu = _;
      here = s.at_p;
      text = ground (arith, c.here, c.text, e);
      back = refl;
      forth = ground (arith, c.here, c.forth, e);
    },
    kept_Chain (some r.0) rs g s an.1 d.0 (λ q z. (aq q z).1) cs,
  ),
)

-- At any place of a list.
pub splice_Chain :
    {h h' : Heap} {pmenu n : ℕ} {new m : Menu} (prev : Option ℕ) (t : List ℕ)
    (before after : List Row) (g : ℕ)
    → Spliced h pmenu n (first_cell after g) (last_prev prev before) new m h'
    → h.cell (first_cell after g) ≡ some m
    → new.text ≡ some t
    → Apart n (before ++ after) g
    → Distinct (before ++ after) g
    → ((q : ℕ) → prev ≡ some q → Apart q (before ++ after) g)
    → Chain h prev (before ++ after) g
    → Chain h' prev (before ++ (n, t) ∷ after) g
splice_Chain prev t [] after g s e x an d aq c = splice_front prev t after g s e x an d aq c
splice_Chain prev t (r ∷ []) after g s e x an d aq (c, cs) = (
  record {
    menu = _;
    here = s.at_q r.0 c.menu refl c.here;
    text = c.text;
    back = c.back;
    forth = refl;
  },
  splice_Chain (some r.0) t [] after g s e x an.1 d.1 (λ q z. ground (arith, d.0)) cs,
)
splice_Chain prev t (r ∷ y ∷ rs) after g s e x an d aq (c, cs) = (
  record {
    menu = c.menu;
    here =
        s.others r.0 (λ z. an.0 (sym z)) (Apart-first r.0 (y ∷ rs) after g d.0)
          (Apart-last r.0 (some r.0) y rs after g d.0)
        ∙ c.here;
    text = c.text;
    back = c.back;
    forth = c.forth;
  },
  splice_Chain (some r.0) t (y ∷ rs) after g s e x an.1 d.1 (λ q z. ground (arith, d.0)) cs,
)

-- An entry of the menu of `pmenu`, with no children.
abbrev pub IsChild : ℕ → Menu → Type 0
IsChild pmenu m = (m.child ≡ none) × (m.parent ≡ some pmenu)

-- A cell holds an entry of the menu if it is the new one, or if it held one before.
abbrev pub Inherits : Heap → ℕ → ℕ → Menu → Heap → Type 0
Inherits h pmenu n new h' =
    (k : ℕ) (m' : Menu)
    → h'.cell k ≡ some m'
    → new.child ≡ none
    → ((m : Menu) → k ≢ n → h.cell k ≡ some m → IsChild pmenu m)
    → IsChild pmenu m'

-- The cells that are written, and all others.
inherit :
    {h h' : Heap} {pmenu n p : ℕ} {o : Option ℕ} {new m : Menu}
    → Spliced h pmenu n p o new m h'
    → h.cell p ≡ some m
    → ((k : ℕ) → (o ≢ some k) ⊎ ((mq : Menu) × (o ≡ some k) × (h.cell k ≡ some mq)))
    → Inherits h pmenu n new h'
inherit {h = h} {n = n} {p = p} {m = m} s em at k m' e c f = elim (Bool-cases (k == n)) [
  | inl kn ↦ ground (arith, s.at_n, e, c)
  | inr kn ↦
      let away : k ≢ n = λ z. ground arith in
      elim (Bool-cases (k == p)) [
        | inl kp ↦
            let here : k ≡ p = ground arith in
            ground (arith, s.at_p, e, f m away (ap h.cell here ∙ em))
        | inr kp ↦ elim (at k) [
          | inl ko ↦ f m' away (sym (s.others k away (λ z. ground arith) ko) ∙ e)
          | inr (mq, ok, eq) ↦ ground (arith, s.at_q k mq ok eq, e, f mq away eq)
        ]
      ]
]

pub Spliced-Inherits_first :
    {h h' : Heap} {pmenu n p : ℕ} {new m : Menu}
    → Spliced h pmenu n p none new m h'
    → h.cell p ≡ some m
    → Inherits h pmenu n new h'
Spliced-Inherits_first s em = inherit s em (λ k. inl (λ z. ground arith))

pub Spliced-Inherits_later :
    {h h' : Heap} {pmenu n p q : ℕ} {new m mq : Menu}
    → Spliced h pmenu n p (some q) new m h'
    → h.cell p ≡ some m
    → h.cell q ≡ some mq
    → Inherits h pmenu n new h'
Spliced-Inherits_later {h = h} {q = q} {mq = mq} s em eq = inherit s em at
  where
    at : (k : ℕ) → (some q ≢ some k) ⊎ ((mq : Menu) × (some q ≡ some k) × (h.cell k ≡ some mq))
    at k = elim (Bool-cases (k == q)) [
      | inl kq ↦
          let here : k ≡ q = ground arith in inr (mq, ap some (sym here), ap h.cell here ∙ eq)
      | inr kq ↦ inl (λ z. ground arith)
    ]
