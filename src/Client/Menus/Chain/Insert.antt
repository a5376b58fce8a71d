-- ===== src/Client/Menus/Chain/Insert.antt =====
-- client/efikampd.c: the loop of `menu_populate`.
use efika_mpd.Base.{
  ℕ, suc, ◌<◌, ◌+◌, ◌≡◌, refl, sym, ◌∙◌, ◌≢◌, Bool, true, false, Option, none, some, List, [], ◌∷◌,
  ◌++◌, arith, length, length-append, take, ◌==◌, if◌then◌else◌, Returns, Returns->>=, Returns-map,
  subst,
}
use efika_mpd.Client.{Menu, Handler}
use efika_mpd.Client.Heap.{Heap, menu_create_entry}
use efika_mpd.Client.Text.{codes, text_or_null}
use efika_mpd.Client.Mpd.{Entry, tag, song, other}
use efika_mpd.Client.Menus.{seek, link_before, entry_cell, insert_all}
use efika_mpd.Client.Menus.Chain.{Row, first_cell, Chain, Apart, Distinct}
use efika_mpd.Client.Menus.Chain.Splice.{IsChild}
use efika_mpd.Client.Menus.Chain.Place.{
  place, Split, seek_lem, put_Distinct, put_Apart, link_at, head_at,
}

-- The text of the entry that is made for an answer of libmpd.
abbrev pub entry_text : Entry → Option (List ℕ)
entry_text (tag t) = t
entry_text (song s) = some (take 39 (text_or_null s.track ++ codes ". " ++ text_or_null s.title))
entry_text other = none

abbrev pub HaveTexts : List Entry → List (List ℕ) → Type 0
HaveTexts [] [] = Unit {0}
HaveTexts (e ∷ es) (t ∷ ts) = (entry_text e ≡ some t) × HaveTexts es ts
HaveTexts [] (t ∷ ts) = ⊥
HaveTexts (e ∷ es) [] = ⊥

-- The rows after all texts have been put in their places, in cells from `n` on.
abbrev pub place_all : Bool → List (List ℕ) → ℕ → List Row → List Row
place_all sort [] n rs = rs
place_all sort (t ∷ ts) n rs = place_all sort ts (suc n) (place sort (n, t) rs)

-- All cells of a list are below `f`.
abbrev pub Below : ℕ → List Row → ℕ → Type 0
Below f [] g = g < f
Below f (r ∷ rs) g = (r.0 < f) × Below f rs g

Below-Apart : (f : ℕ) (rs : List Row) (g : ℕ) → Below f rs g → Apart f rs g
Below-Apart f [] g b = λ z. absurd (omega arith)
Below-Apart f (r ∷ rs) g b = ((λ z. absurd (omega (arith, b.0))), Below-Apart f rs g b.1)

Below-suc : (f : ℕ) (rs : List Row) (g : ℕ) → Below f rs g → Below (suc f) rs g
Below-suc f [] g b = omega arith
Below-suc f (r ∷ rs) g b = (omega (arith, b.0), Below-suc f rs g b.1)

put_Below :
    (f n : ℕ) (t : List ℕ) (before after : List Row) (g : ℕ)
    → n < f
    → Below f (before ++ after) g
    → Below f (before ++ (n, t) ∷ after) g
put_Below f n t [] after g h b = (h, b)
put_Below f n t (r ∷ rs) after g h b = (b.0, put_Below f n t rs after g h b.1)

alloc-Chain :
    (h h' : Heap) (prev : Option ℕ) (rs : List Row) (g : ℕ)
    → ((k : ℕ) → k ≢ h.fresh → h'.cell k ≡ h.cell k)
    → Apart h.fresh rs g
    → Chain h prev rs g
    → Chain h' prev rs g
alloc-Chain h h' prev [] g f a c = record {
  menu = c.menu;
  here = f g (λ z. a (sym z)) ∙ c.here;
  text = c.text;
  back = c.back;
  leaf = c.leaf;
}
alloc-Chain h h' prev (r ∷ rs) g f a (c, cs) = (
  record {
    menu = c.menu;
    here = f r.0 (λ z. a.0 (sym z)) ∙ c.here;
    text = c.text;
    back = c.back;
    forth = c.forth;
  },
  alloc-Chain h h' (some r.0) rs g f a.1 cs,
)

-- A heap with an entry of its own for a text.
pub record Created (h : Heap) (t : List ℕ) (h' : Heap) : Type 0 where
  pub new : Menu
  pub here : h'.cell h.fresh ≡ some new
  pub text : new.text ≡ some t
  pub back : new.prev ≡ none
  pub leaf : new.child ≡ none
  pub fresh : h'.fresh ≡ suc h.fresh
  pub others : (k : ℕ) → k ≢ h.fresh → h'.cell k ≡ h.cell k

create-Created :
    (text file : Option (List ℕ)) (hs hp : Option Handler) (h : Heap) (t : List ℕ)
    → text ≡ some t
    → Created h t (menu_create_entry text file hs hp h).1
unfolding menu_create_entry
create-Created text file hs hp h t e = record {
  new = record {
    file = file;
    text = text;
    next = none;
    prev = none;
    child = none;
    parent = none;
    handler_select = hs;
    handler_play = hp;
  };
  here = ground arith;
  text = e;
  back = refl;
  leaf = refl;
  fresh = refl;
  others = λ k z. ground arith;
}

entry_cell-Created :
    (hs hp : Option Handler) (e : Entry) (n : Option ℕ) (h : Heap) (t : List ℕ)
    → entry_text e ≡ some t
    → ((entry_cell hs hp e n h).0 ≡ some h.fresh) × Created h t (entry_cell hs hp e n h).1
unfolding entry_cell menu_create_entry
entry_cell-Created hs hp (tag x) n h t e = (refl, create-Created x none hs hp h t e)
entry_cell-Created hs hp (song s) n h t e = (refl, create-Created _ s.file hs hp h t e)
entry_cell-Created hs hp other n h t e = absurd (ground arith)

-- All rows stand in cells behind the guard's.
abbrev pub Beyond : ℕ → List Row → Type 0
Beyond g [] = Unit {0}
Beyond g (r ∷ rs) = (g < r.0) × Beyond g rs

put_Beyond :
    (n : ℕ) (t : List ℕ) (before after : List Row) (g : ℕ)
    → g < n
    → Beyond g (before ++ after)
    → Beyond g (before ++ (n, t) ∷ after)
put_Beyond n t [] after g h b = (h, b)
put_Beyond n t (r ∷ rs) after g h b = (b.0, put_Beyond n t rs after g h b.1)

pub Beyond-Apart : (k : ℕ) (rs : List Row) (g : ℕ) → k < g → Beyond g rs → Apart k rs g
Beyond-Apart k [] g h b = λ z. absurd (omega (arith, z, h))
Beyond-Apart k (r ∷ rs) g h b =
    ((λ z. absurd (omega (arith, z, h, b.0))), Beyond-Apart k rs g h b.1)

pub Below-guard : (f : ℕ) (rs : List Row) (g : ℕ) → Below f rs g → g < f
Below-guard f [] g b = b
Below-guard f (r ∷ rs) g b = Below-guard f rs g b.1

-- The list in the middle of the loop; `pmenu` is the entry whose children it will be, and `h0` the
-- heap at the start.
pub record Good (h0 : Heap) (pmenu : ℕ) (m0 : Menu) (g : ℕ) (rs : List Row) (h : Heap)
    : Type 0 where
  pub chain : Chain h none rs g
  pub distinct : Distinct rs g
  pub below : Below h.fresh rs g
  pub count : length rs + g < h.fresh
  pub apart : Apart pmenu rs g
  pub held : h.cell pmenu ≡ some m0
  pub old : pmenu < h.fresh
  pub beyond : Beyond g rs
  pub own : (k : ℕ) (m : Menu) → g < k → k < h.fresh → h.cell k ≡ some m → IsChild pmenu m
  pub kept : (k : ℕ) → k < g → h.cell k ≡ h0.cell k

-- Once the new entry stands in its place.
placed_Good :
    (sort : Bool) (h0 : Heap) (pmenu g : ℕ) (m0 new : Menu) (t : List ℕ) (before after : List Row)
    (h h1 : Heap)
    → Good h0 pmenu m0 g (before ++ after) h
    → Created h t h1
    → (sort ≡ false → before ≡ [])
    → Returns
        (λ h2. Good h0 pmenu m0 g (before ++ (h.fresh, t) ∷ after) h2 × (h2.fresh ≡ suc h.fresh))
        (link_before sort pmenu h.fresh (first_cell after g) h1)
placed_Good sort h0 pmenu g m0 new t before after h h1 v c u =
    let a = Below-Apart h.fresh (before ++ after) g v.below in
    let lt : h.fresh < suc h.fresh = omega arith in
    let gn = Below-guard h.fresh (before ++ after) g v.below in
    let pn : pmenu ≢ h.fresh = λ z. absurd (omega (arith, v.old)) in
    Returns-map _ _ (link_before sort pmenu h.fresh (first_cell after g) h1)
      (link_at sort h1 pmenu h.fresh g t c.new before after
        (alloc-Chain h h1 none (before ++ after) g c.others a v.chain) a v.distinct c.here c.back
        c.text u)
      (λ h2 (chain, fresh, others, inherits). (
        record {
          chain = chain;
          distinct = put_Distinct h.fresh t before after g a v.distinct;
          below =
              subst (λ f. Below f (before ++ (h.fresh, t) ∷ after) g) (sym (fresh ∙ c.fresh))
                (put_Below (suc h.fresh) h.fresh t before after g lt
                  (Below-suc h.fresh (before ++ after) g v.below));
          count = omega (
            arith,
            length-append before ((h.fresh, t) ∷ after),
            length-append before after,
            v.count,
            fresh,
            c.fresh,
          );
          apart = put_Apart pmenu h.fresh t before after g pn v.apart;
          held = others pmenu pn v.apart ∙ c.others pmenu pn ∙ v.held;
          old = omega (arith, fresh, c.fresh, v.old);
          beyond = put_Beyond h.fresh t before after g gn v.beyond;
          own = λ k m gk kf e. inherits k m e c.leaf (λ m1 kn e1.
              v.own k m1 gk (omega (arith, kf, kn, fresh, c.fresh)) (sym (c.others k kn) ∙ e1));
          kept = λ k kg.
              let kn : k ≢ h.fresh = λ z. absurd (omega (arith, z, gn, kg)) in
              others k kn (Beyond-Apart k (before ++ after) g kg v.beyond)
              ∙ c.others k kn
              ∙ v.kept k kg;
        },
        fresh ∙ c.fresh,
      ))

-- The place that the loop finds.
abbrev Found : Bool → ℕ → List ℕ → List Row → ℕ → ℕ → Type 0
Found sort n t rs g p =
    (s : Split n t rs (place sort (n, t) rs)) × (p ≡ first_cell s.after g)
    × (sort ≡ false → s.before ≡ [])

find_Found :
    (sort : Bool) (h h1 : Heap) (t : List ℕ) (rs : List Row) (g : ℕ)
    → Chain h1 none rs g
    → Created h t h1
    → length rs < h.fresh
    → Returns
        (Found sort h.fresh t rs g)
        (if sort then seek (suc h1.fresh) h.fresh (first_cell rs g) h1 else some (first_cell rs g))
find_Found false h h1 t rs g c k l =
    (record { before = []; after = rs; whole = refl; put = refl }, refl, λ z. refl)
find_Found true h h1 t rs g c k l =
    let (s, e) =
      seek_lem (suc h1.fresh) h1 none rs g h.fresh t k.new c k.here k.text
        (omega (arith, k.fresh, l)) in
    rw e (s, refl, λ z. ground arith)

-- The entry in the place that was found, and the head of the list.
Found-Good :
    (sort : Bool) (h0 : Heap) (pmenu g p : ℕ) (m0 : Menu) (t : List ℕ) (rs : List Row) (h h1 : Heap)
    → Good h0 pmenu m0 g rs h
    → Created h t h1
    → Found sort h.fresh t rs g p
    → Returns
        (λ h2. Good h0 pmenu m0 g (place sort (h.fresh, t) rs) h2 × (h2.fresh ≡ suc h.fresh))
        (link_before sort pmenu h.fresh p h1)
      × ((if p == first_cell rs g then h.fresh else first_cell rs g)
          ≡ first_cell (place sort (h.fresh, t) rs) g)
Found-Good sort h0 pmenu g p m0 t rs h h1 v c (s, e, u) =
    let w = subst (λ x. Good h0 pmenu m0 g x h) s.whole v in
    rw (e, s.put)
      (
        placed_Good sort h0 pmenu g m0 c.new t s.before s.after h h1 w c u,
        rw s.whole (head_at h.fresh g t s.before s.after w.distinct),
      )

pub insert_all_lem :
    (sort : Bool) (h0 : Heap) (pmenu g : ℕ) (m0 : Menu) (hs hp : Option Handler) (es : List Entry)
    (ts : List (List ℕ)) (rs : List Row) (n : Option ℕ) (h : Heap)
    → HaveTexts es ts
    → Good h0 pmenu m0 g rs h
    → Returns
        (λ r.
          Good h0 pmenu m0 g (place_all sort ts h.fresh rs) r.1
          × (r.0 ≡ first_cell (place_all sort ts h.fresh rs) g))
        (insert_all sort pmenu hs hp es (first_cell rs g) n h)
unfolding insert_all
insert_all_lem sort h0 pmenu g m0 hs hp [] [] rs n h t v = (v, refl)
insert_all_lem sort h0 pmenu g m0 hs hp [] (t ∷ ts) rs n h a v = absurd a
insert_all_lem sort h0 pmenu g m0 hs hp (e ∷ es) [] rs n h a v = absurd a
insert_all_lem sort h0 pmenu g m0 hs hp (e ∷ es) (t ∷ ts) rs n h a v =
    let (cell, c) = entry_cell-Created hs hp e n h t a.0 in
    let h1 = (entry_cell hs hp e n h).1 in
    rw cell (
      Returns->>= (Found sort h.fresh t rs g) _ _ _
        (find_Found sort h h1 t rs g
          (alloc-Chain h h1 none rs g c.others (Below-Apart h.fresh rs g v.below) v.chain) c
          (omega (arith, v.count)))
        (λ p f.
          let (linked, head) = Found-Good sort h0 pmenu g p m0 t rs h h1 v c f in
          Returns->>= _ _ (link_before sort pmenu h.fresh p h1) _ linked (λ h2 (w, fresh).
            rw (head, ← fresh)
              (insert_all_lem sort h0 pmenu g m0 hs hp es ts (place sort (h.fresh, t) rs)
                (some h.fresh) h2 a.1 w))))
