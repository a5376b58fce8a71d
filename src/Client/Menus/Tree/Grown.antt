-- ===== src/Client/Menus/Tree/Grown.antt =====
-- client/efikampd.c: a closed set of cells with one more menu.
use efika_mpd.Base.{
  ℕ, ◌+◌, ◌<◌, ◌≤◌, ◌≡◌, refl, sym, ap, ◌∙◌, ◌≢◌, Bool, true, none, some, inl, inr, List, [], ◌∷◌,
  arith, ◌==◌, Bool-cases, length, subst,
}
use efika_mpd.Client.{Menu}
use efika_mpd.Client.Heap.{Heap}
use efika_mpd.Client.Menus.Chain.{Row}
use efika_mpd.Client.Menus.Chain.Insert.{Below}
use efika_mpd.Client.Menus.Chain.Populate.{Listed, next_cell, Children}
use efika_mpd.Client.Menus.Chain.{Distinct}
use efika_mpd.Client.Menus.Chain.Insert.{Beyond, Below-guard}
use efika_mpd.Client.Menus.Tree.{Inside, IsHeld, IsClosed, Family, HasFamily, grow-IsHeld}
use efika_mpd.Client.Menus.Tree.Rows.{
  in_rows, with_rows, row_IsHeld, row_back, row-Below, cells, cells-length, rows-Family,
  row-HasFamily,
}

-- A menu is filled with new rows, all of them behind `g`, in the heap `h`.
abbrev pub Filled : ℕ → Heap → ℕ → Menu → List Row → Heap → Type 0
Filled g h pmenu m0 rs h' =
    Listed h' none rs
    × (h'.cell pmenu ≡ some (record m0 { child = next_cell rs }))
    × Children h' pmenu rs
    × ((k : ℕ) → k < h.fresh → k ≢ pmenu → h'.cell k ≡ h.cell k)
    × Below h'.fresh rs h.fresh
    × Beyond g rs
    × Distinct rs g
    × (length rs + g < h'.fresh)
    × (pmenu ≤ g)

-- A menu that is filled leaves the set closed, with its new entries.
module _ (s : ℕ → Bool) (h h' : Heap) (pmenu g : ℕ) (m0 : Menu) (r : Row) (rs : List Row) where
  abbrev pub grown : ℕ → Bool
  grown = with_rows s (r ∷ rs)

  pub old-grown : (k : ℕ) → s k ≡ true → grown k ≡ true
  old-grown k e = ground arith

  new-grown : (k : ℕ) → in_rows k (r ∷ rs) ≡ true → grown k ≡ true
  new-grown k e = elim (Bool-cases (s k)) [ inl z ↦ ground arith | inr z ↦ ground arith ]

  module _ (v : IsClosed s h) (at : h.cell pmenu ≡ some m0) (inside : s pmenu ≡ true)
      (filled : Filled g h pmenu m0 (r ∷ rs) h') where
    old_entry :
        (k : ℕ)
        → s k ≡ true
        → (m : Menu) × (m' : Menu) × (h.cell k ≡ some m)
          × (h'.cell k ≡ some m')
          × (m'.next ≡ m.next)
          × (m'.prev ≡ m.prev)
          × (m'.parent ≡ m.parent)
          × IsHeld grown m'
    old_entry k e = elim (Bool-cases (k == pmenu)) [
      | inl kp ↦
          let here : k ≡ pmenu = ground arith in
          let (m, em, w) = v.entry pmenu inside in
          let same : m ≡ m0 = ground (arith, em, at) in
          let w' = grow-IsHeld s grown m0 old-grown (subst (IsHeld s) same w) in
          (
            m0,
            record m0 { child = some r.0 },
            ap h.cell here ∙ at,
            ap h'.cell here ∙ filled.1,
            refl,
            refl,
            refl,
            record {
              next = w'.next;
              prev = w'.prev;
              child = new-grown r.0 (ground arith);
              parent = w'.parent;
              above = w'.above;
            },
          )
      | inr kp ↦
          let (m, em, w) = v.entry k e in
          (
            m,
            m,
            em,
            filled.3 k (v.below k e) (λ z. ground (arith, z, kp)) ∙ em,
            refl,
            refl,
            refl,
            grow-IsHeld s grown m old-grown w,
          )
    ]

    new_entry :
        (k : ℕ) → in_rows k (r ∷ rs) ≡ true → (m : Menu) × (h'.cell k ≡ some m) × IsHeld grown m
    new_entry k e =
        row_IsHeld grown h' pmenu k none (r ∷ rs) new-grown tt (old-grown pmenu inside) filled.0
          filled.2 e

    old_back :
        (k q : ℕ) (m n : Menu)
        → s k ≡ true
        → h'.cell k ≡ some m
        → m.next ≡ some q
        → h'.cell q ≡ some n
        → n.prev ≢ none
    old_back k q m n e em en eq =
        let (m1, m2, a, b, c, d, par, w) = old_entry k e in
        let next1 : m1.next ≡ some q = ground (arith, b, em, c, en) in
        let (x, ex, held) = v.entry k e in
        let to_q : x.next ≡ some q = ground (arith, ex, a, next1) in
        let sq : s q ≡ true = subst (Inside s) to_q held.next in
        let (n1, n2, a', b', c', d', par', w') = old_entry q sq in
        λ z. v.back k q m1 n1 e a next1 a' (ground (arith, b', eq, d', z))

    kept_Family : (k : ℕ) (cs : List ℕ) → Family s h k cs → Family grown h' k cs
    kept_Family k [] f = tt
    kept_Family k (c ∷ cs) (lt, sc, (x, ex, nx, px), n, f) =
        let (m, m', a, b, next, prev, par, w) = old_entry c sc in
        let same : m ≡ x = ground (arith, a, ex) in
        (
          lt,
          old-grown c sc,
          (m', b, next ∙ ap (λ z. z.next) same ∙ nx, par ∙ ap (λ z. z.parent) same ∙ px),
          n,
          kept_Family k cs f,
        )

    old-HasFamily : (k : ℕ) (m : Menu) → s k ≡ true → h'.cell k ≡ some m → HasFamily grown h' k m
    old-HasFamily k m e em = elim (Bool-cases (k == pmenu)) [
      | inl kp ↦
          let here : k ≡ pmenu = ground arith in
          let same : m ≡ record m0 { child = some r.0 } = ground (arith, here, em, filled.1) in
          subst (λ x. HasFamily grown h' x m) (sym here)
            (subst (HasFamily grown h' pmenu) (sym same) (record {
              kids = cells (r ∷ rs);
              first = refl;
              family =
                  rows-Family grown h' pmenu g none (r ∷ rs) filled.8 new-grown filled.0 filled.2
                    filled.5 filled.6;
              count = omega (arith, cells-length (r ∷ rs), filled.7, filled.8);
            }))
      | inr kp ↦
          let before : h.cell k ≡ some m =
            sym (filled.3 k (v.below k e) (λ z. ground (arith, z, kp))) ∙ em in
          let t = v.tree k m e before in
          record {
            kids = t.kids;
            first = t.first;
            family = kept_Family k t.kids t.family;
            count = omega (arith, t.count, Below-guard h'.fresh (r ∷ rs) h.fresh filled.4);
          }
    ]

    pub grown-IsClosed : IsClosed grown h'
    grown-IsClosed = record {
      entry = λ k e. elim (Bool-cases (s k)) [
        | inl sk ↦ let (m, m', a, b, c, d, par, w) = old_entry k sk in (m', b, w)
        | inr sk ↦ new_entry k (ground (arith, e, sk))
      ];
      back = λ k q m n e em en eq. elim (Bool-cases (s k)) [
        | inl sk ↦ old_back k q m n sk em en eq
        | inr sk ↦ row_back h' k q m n none (r ∷ rs) filled.0 (ground (arith, e, sk)) em en eq
      ];
      below = λ k e. elim (Bool-cases (s k)) [
        | inl sk ↦ omega (arith, v.below k sk, Below-guard h'.fresh (r ∷ rs) h.fresh filled.4)
        | inr sk ↦ row-Below k h'.fresh h.fresh (r ∷ rs) filled.4 (ground (arith, e, sk))
      ];
      tree = λ k m e em. elim (Bool-cases (s k)) [
        | inl sk ↦ old-HasFamily k m sk em
        | inr sk ↦
            row-HasFamily grown h' pmenu g k m (r ∷ rs) filled.8
              (row-Below k h'.fresh h.fresh (r ∷ rs) filled.4 (ground (arith, e, sk))) filled.2
              filled.5 (ground (arith, e, sk)) em
      ];
    }
