-- ===== src/Env/Window.antt =====
-- A window of pages in a directory: the loops of `env_setup_vm`.
use raspberry_pi_3_jos.Prelude.{
  ℕ, zero, suc, ◌+◌, ◌*◌, ◌^◌, ◌≤◌, ◌<◌, ◌≡◌, refl, sym, ap, ◌∙◌, ◌≢◌, ◌⊎◌, inr, false, Option,
  none, some, List, arith, length,
}
use mathlib.Core.Path.{subst}
use raspberry_pi_3_jos.Prelude.State.{and_then}
use raspberry_pi_3_jos.Queue.Chain.{elem}
use raspberry_pi_3_jos.Mmu.{by2pg, npage, attrib_ap_ro_all, kaddr, page2pa}
use raspberry_pi_3_jos.Mmu.Fields.{pa2page-page2pa}
use raspberry_pi_3_jos.Pmap.{Pmap, entry_perm, page_insert}
use raspberry_pi_3_jos.Pmap.Tables.{word, IsPaged, IsTree}
use raspberry_pi_3_jos.Pmap.Insert.{Inserted, page_insert-page_lookup}
use raspberry_pi_3_jos.Pmap.Maps.{Maps, vpn, inserted-Maps, inserted_other-Maps, page_insert-kaddr}
use raspberry_pi_3_jos.Env.{map_window}

-- The attributes of a window.
abbrev pub read_only : ℕ
read_only = entry_perm attrib_ap_ro_all

-- The address `va'` of the directory `p'` is not among the `n` pages from `va` on of `p`.
abbrev pub Outside : (p va n p' va' : ℕ) → Type 0
Outside p va n p' va' = (i : ℕ) → i < n → (p' ≢ p) ⊎ (vpn va' ≢ vpn (va + i * by2pg))

-- What a window of `n` pages leaves behind.
pub record Windowed (s : Pmap) (level : ℕ → ℕ) (xs : List ℕ) (p va pp n : ℕ) (t : Pmap)
    : Type 0 where
  pub levels : ℕ → ℕ
  pub free : List ℕ
  pub paged : IsPaged t levels free
  pub tree : IsTree t.mem levels
  pub keeps_level : (r : ℕ) → level r ≢ 0 → levels r ≡ level r
  pub used : length xs ≤ 3 * n + length free
  pub fewer : (y : ℕ) → elem y xs ≡ false → elem y free ≡ false
  pub stays : (y : ℕ) → elem y xs ≡ false → level y ≡ 0 → levels y ≡ 0
  pub keeps_data :
      (q i : ℕ)
      → q < npage
      → i < 512
      → elem q xs ≡ false
      → level q ≡ 0
      → t.mem (word q i) ≡ s.mem (word q i)
  pub window : (i : ℕ) → i < n → Maps t.mem levels p (va + i * by2pg) (pp + i) read_only
  pub others :
      (p' va' pp' perm' : ℕ)
      → level p' ≡ 1
      → pp' < npage
      → perm' < 4096
      → Outside p va n p' va'
      → Maps s.mem level p' va' pp' (entry_perm perm')
      → Maps t.mem levels p' va' pp' (entry_perm perm')

next_page : (pp : ℕ) → page2pa pp + by2pg ≡ page2pa (pp + 1)
unfolding page2pa
next_page pp = omega arith

module _ (s : Pmap) (level : ℕ → ℕ) (xs : List ℕ) (p va pp n : ℕ) (tree : IsTree s.mem level)
    (v : IsPaged s level xs) (top : level p ≡ 1) (few : n < 2 ^ 27) (t : Pmap)
    (i : Inserted s level xs p pp va attrib_ap_ro_all t) (u : Pmap)
    (w : Windowed t i.levels i.free p (va + by2pg) (pp + 1) n u) (in_range : pp < npage) where
  vpn_later : (j : ℕ) → j < n → vpn va ≢ vpn (va + by2pg + j * by2pg)
  vpn_later j h e = omega arith

  shifted : (j : ℕ) → va + by2pg + j * by2pg ≡ va + suc j * by2pg
  shifted j = omega arith

  widened : Windowed s level xs p va pp (suc n) u
  widened = record {
    levels = w.levels;
    free = w.free;
    paged = w.paged;
    tree = w.tree;
    keeps_level = λ r h. w.keeps_level r (rw (i.keeps_level r h) h) ∙ i.keeps_level r h;
    used = omega (arith, i.used, w.used);
    fewer = λ y h. w.fewer y (i.fewer y h);
    stays = λ y h z. w.stays y (i.fewer y h) (i.stays y h z);
    keeps_data = λ q j b k h z.
        w.keeps_data q j b k (i.fewer q h) (i.stays q h z) ∙ i.keeps_data q j b k (i.stays q h z);
    window = at;
    others = λ p' va' pp' perm' top' k small far m.
        w.others p' va' pp' perm' (i.keeps_level p' (λ z. omega arith) ∙ top') k small
          (λ j h.
            subst (λ a. (p' ≢ p) ⊎ (vpn va' ≢ vpn a)) (sym (shifted j)) (far (suc j) (omega arith)))
          (inserted_other-Maps v tree top i p' va' pp' perm' top' k small
            (subst (λ a. (p' ≢ p) ⊎ (vpn va' ≢ vpn a)) (omega arith) (far 0 (omega arith))) m);
  }
    where
      at : (j : ℕ) → j < suc n → Maps u.mem w.levels p (va + j * by2pg) (pp + j) read_only
      at zero h =
          let here : va + 0 * by2pg ≡ va = omega arith in
          let first : pp + 0 ≡ pp = omega arith in
          rw (here, first)
            (w.others p va pp attrib_ap_ro_all (i.keeps_level p (λ z. omega arith) ∙ top) in_range
              (omega arith) (λ j g. inr (vpn_later j g)) (inserted-Maps v tree top i))
      at (suc j) h =
          let place : pp + suc j ≡ pp + 1 + j = omega arith in
          rw (sym (shifted j), place) (w.window j (omega arith))

map_window_step :
    (n pgdir pp va : ℕ) (s : Pmap)
    → pp < npage
    → map_window (suc n) pgdir (page2pa pp) va s
      ≡ and_then
          (page_insert pgdir pp va attrib_ap_ro_all s)
          (λ _. map_window n pgdir (page2pa (pp + 1)) (va + by2pg))
unfolding map_window
map_window_step n pgdir pp va s h =
    let rest = map_window n pgdir (page2pa pp + by2pg) (va + by2pg) in
    ap
      (λ (o : Option ℕ). elim o as (λ _. Option (Unit {0} × Pmap)) [
        | none ↦ none
        | some q ↦ and_then (page_insert pgdir q va attrib_ap_ro_all s) (λ _. rest)
      ])
      (pa2page-page2pa pp h)
    ∙ ap
        (λ a.
          and_then (page_insert pgdir pp va attrib_ap_ro_all s)
            (λ _. map_window n pgdir a (va + by2pg)))
        (next_page pp)

pub map_window-Windowed :
    (n : ℕ) (s : Pmap) (level : ℕ → ℕ) (xs : List ℕ) (p va pp : ℕ)
    → IsPaged s level xs
    → IsTree s.mem level
    → level p ≡ 1
    → 3 * n ≤ length xs
    → pp + n ≤ npage
    → (t : Pmap) × (map_window n (kaddr (page2pa p)) (page2pa pp) va s ≡ some (tt, t))
      × Windowed s level xs p va pp n t
unfolding map_window
map_window-Windowed zero s level xs p va pp v tree top room h = (
  s,
  refl,
  record {
    levels = level;
    free = xs;
    paged = v;
    tree = tree;
    keeps_level = λ r k. refl;
    used = omega arith;
    fewer = λ y k. k;
    stays = λ y k z. z;
    keeps_data = λ q i b k o z. refl;
    window = λ i k. absurd (omega arith);
    others = λ p' va' pp' perm' top' k small far m. m;
  },
)
map_window-Windowed (suc n) s level xs p va pp v tree top room h =
    let bound : p < npage = v.tables p (λ z. omega arith) in
    let (t, runs, i) =
      page_insert-page_lookup s level xs p pp va attrib_ap_ro_all v top (omega arith) (omega arith)
        (omega arith) in
    let (u, rest, w) =
      map_window-Windowed n t i.levels i.free p (va + by2pg) (pp + 1) i.paged (i.keeps_tree tree)
        (i.keeps_level p (λ z. omega arith) ∙ top) (omega (arith, i.used)) (omega arith) in
    (
      u,
      map_window_step n (kaddr (page2pa p)) pp va s (omega arith)
          ∙ ap
              (λ r.
                and_then r (λ _. map_window n (kaddr (page2pa p)) (page2pa (pp + 1)) (va + by2pg)))
              (page_insert-kaddr p pp va attrib_ap_ro_all s bound ∙ runs)
          ∙ rest,
      widened s level xs p va pp n tree v top (omega arith) t i u w (omega arith),
    )
