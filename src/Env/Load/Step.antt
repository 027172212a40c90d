-- ===== src/Env/Load/Step.antt =====
-- One page of a segment: `map_page` and `load_page`.
use raspberry_pi_3_jos.Prelude.{
  ℕ, ◌+◌, ◌*◌, ◌%◌, ◌^◌, ◌≤◌, ◌<◌, ◌≡◌, refl, ap, ◌∙◌, ◌≢◌, ◌⊎◌, false, some, List, ◌∷◌, arith,
  length, ltb, if◌then◌else◌,
}
use mathlib.Core.Path.{subst}
use raspberry_pi_3_jos.Prelude.State.{pure, modify, bind_some, and_then, ◌>>◌}
use raspberry_pi_3_jos.Queue.Chain.{elem}
use raspberry_pi_3_jos.Mmu.{by2pg, npage, attrib_ap_rw_all, page2pa, page2kva}
use raspberry_pi_3_jos.Mmu.Fields.{page2kva-eq}
use raspberry_pi_3_jos.Pmap.{Pmap, page_alloc, page_insert, raise_ref, bcopy}
use raspberry_pi_3_jos.Pmap.Alloc.{taken, page_alloc-taken}
use raspberry_pi_3_jos.Pmap.Tables.{word, word_outside, IsPaged, IsTree}
use raspberry_pi_3_jos.Pmap.Bytes.{Holds, Holds-zero, bcopy-Holds, bcopy-bytes, bcopy_bytes-word}
use raspberry_pi_3_jos.Pmap.Insert.{Inserted, page_insert-page_lookup}
use raspberry_pi_3_jos.Pmap.Maps.{vpn, inserted-Maps, inserted_other-Maps}
use raspberry_pi_3_jos.Queue.{update}
use raspberry_pi_3_jos.Pmap.Same.{
  based, SameTables, same-IsPaged, same-IsTree, same-Maps, fresh-level, fresh-bound, fresh-distinct,
  fresh-new, fresh-other, fresh-SameTables, fresh-IsPaged,
}
use raspberry_pi_3_jos.Env.Load.{map_page, load_page}
use raspberry_pi_3_jos.Env.Window.{Outside}
use raspberry_pi_3_jos.Env.Load.Frame.{Frame, Loaded}
use raspberry_pi_3_jos.Env.Load.Segment.{Segment}

-- A new page with the count `r x` was mapped; `mem'` is the memory of `t` with other bytes, `f`, in the page.
module _ {s : Pmap} {level : ℕ → ℕ} {x : ℕ} {xs : List ℕ} (v : IsPaged s level (x ∷ xs)) (r : ℕ → ℕ)
    (kept : (q : ℕ) → q ≢ x → r q ≡ s.pp_ref q) (tree : IsTree s.mem level) {p va : ℕ}
    (top : level p ≡ 1) {t : Pmap} (i : Inserted (based r x s) level xs p x va attrib_ap_rw_all t)
    (mem' f : ℕ → ℕ)
    (outside : (q j : ℕ) → q < npage → j < 512 → q ≢ x → mem' (word q j) ≡ t.mem (word q j))
    (holds : Holds mem' x f) where
  abbrev filled : Pmap
  filled = record t { mem = mem' }

  plain : i.levels x ≡ 0
  plain = i.stays x (fresh-distinct v) (fresh-level v)

  tables : SameTables t.mem i.levels mem'
  tables q j h k = outside q j (i.paged.tables q h) k (λ e. h (ap i.levels e ∙ plain))

  based-IsTree : IsTree (based r x s).mem level
  based-IsTree = same-IsTree s.mem level (based r x s).mem (fresh-SameTables v r) tree

  top' : i.levels p ≡ 1
  top' = i.keeps_level p (λ z. omega arith) ∙ top

  not_listed : (y : ℕ) → elem y (x ∷ xs) ≡ false → elem y xs ≡ false
  not_listed y h = ground arith

  not_page : (y : ℕ) → elem y (x ∷ xs) ≡ false → y ≢ x
  not_page y h = ground arith

  loaded :
      Loaded filled i.levels i.free ((r x + 1) % 2 ^ 16) p (va + 0 * by2pg) (λ k. f (0 * by2pg + k))
  loaded =
      let here : va + 0 * by2pg ≡ va = omega arith in
      record {
        page = x;
        bound = fresh-bound v;
        maps = rw here (
            same-Maps t.mem i.levels mem' p va x _ tables top'
              (inserted-Maps (fresh-IsPaged v r) based-IsTree top i));
        count = i.count plain;
        holds = λ k h. holds k h ∙ ap f (omega arith);
        used = i.fewer x (fresh-distinct v);
        plain = plain;
      }

  page-frame : Frame s level (x ∷ xs) 1 (Outside p va 1) filled
  page-frame = record {
    levels = i.levels;
    free = i.free;
    paged =
        same-IsPaged t filled i.levels i.free i.free i.paged tables
          (record { queue = i.paged.alloc.queue; bounds = i.paged.alloc.bounds }) (λ y h. h);
    tree = same-IsTree t.mem i.levels mem' tables (i.keeps_tree based-IsTree);
    keeps_level = i.keeps_level;
    used = omega (arith, i.used);
    fewer = λ y h. i.fewer y (not_listed y h);
    stays = λ y h z. i.stays y (not_listed y h) z;
    keeps_data = λ q j b k h z.
        outside q j b k (not_page q h)
        ∙ i.keeps_data q j b k (i.stays q (not_listed q h) z)
        ∙ fresh-other v r q j b k (not_page q h);
    keeps_ref = λ q h z.
        i.keeps_ref q (i.stays q (not_listed q h) z) (not_page q h) ∙ kept q (not_page q h);
    others = λ p' va' pp' perm' one k small far m.
        same-Maps t.mem i.levels mem' p' va' pp' _ tables
          (i.keeps_level p' (λ z. omega arith) ∙ one)
          (inserted_other-Maps (fresh-IsPaged v r) based-IsTree top i p' va' pp' perm' one k small
            (subst (λ a. (p' ≢ p) ⊎ (vpn va' ≢ vpn a)) (omega arith) (far 0 (omega arith)))
            (same-Maps s.mem level (based r x s).mem p' va' pp' _ (fresh-SameTables v r) one m));
  }

  pub page-Segment : Segment s level (x ∷ xs) ((r x + 1) % 2 ^ 16) p va 1 f filled
  unfolding page-frame
  page-Segment = record {
    frame = page-frame;
    pages = λ j h. let first : j ≡ 0 = omega arith in rw first loaded;
  }

-- The counts after `pp_ref++` of a new page.
once : ℕ → Pmap → ℕ → ℕ
once x s = update (update s.pp_ref x 0) x ((update s.pp_ref x 0 x + 1) % 2 ^ 16)

once-new : (x : ℕ) (s : Pmap) → once x s x ≡ 1
unfolding once
once-new x s = ground arith

once-other : (x : ℕ) (s : Pmap) (q : ℕ) → q ≢ x → once x s q ≡ s.pp_ref q
unfolding once
once-other x s q ne = ground arith

twice :
    (x : ℕ) (s : Pmap) {level : ℕ → ℕ} {xs : List ℕ} {p va n : ℕ} {f : ℕ → ℕ} {t : Pmap}
    → Segment s level xs ((once x s x + 1) % 2 ^ 16) p va n f t
    → Segment s level xs 2 p va n f t
twice x s {level} {xs} {p} {va} {n} {f} {t} a =
    subst (λ c. Segment s level xs c p va n f t) (omega (arith, once-new x s)) a

-- The new page is empty.
Inserted-Holds :
    {s : Pmap} {level : ℕ → ℕ} {x : ℕ} {xs : List ℕ} (v : IsPaged s level (x ∷ xs)) (r : ℕ → ℕ)
    {p va : ℕ} {t : Pmap} (i : Inserted (based r x s) level xs p x va attrib_ap_rw_all t)
    → Holds t.mem x (λ _. 0)
Inserted-Holds {s} {level} {x} {xs} v r {p} {va} {t} i = Holds-zero t.mem x (fresh-bound v) (λ j k.
    i.keeps_data x j (fresh-bound v) k (i.stays x (fresh-distinct v) (fresh-level v))
    ∙ fresh-new v r j k)

map_page-runs :
    {s : Pmap} {level : ℕ → ℕ} {x : ℕ} {xs : List ℕ} (v : IsPaged s level (x ∷ xs)) (pgdir va : ℕ)
    {t : Pmap}
    → page_insert pgdir x va attrib_ap_rw_all (based (once x s) x s) ≡ some (tt, t)
    → map_page pgdir va s ≡ some (x, t)
unfolding map_page raise_ref once
map_page-runs {s} {x} v pgdir va runs =
    bind_some page_alloc
      (λ p. do modify (raise_ref p); page_insert pgdir p va attrib_ap_rw_all; pure p) s
      (page_alloc-taken v.alloc)
    ∙ ap (λ r. and_then r (λ _. pure x)) runs

-- `map_page` with four free pages maps an empty page.
pub map_page-Segment :
    (s : Pmap) (level : ℕ → ℕ) (x : ℕ) (xs : List ℕ) (p va : ℕ)
    → IsPaged s level (x ∷ xs)
    → IsTree s.mem level
    → level p ≡ 1
    → 3 ≤ length xs
    → (t : Pmap) × (map_page (page2pa p) va s ≡ some (x, t))
      × Segment s level (x ∷ xs) 2 p va 1 (λ _. 0) t
map_page-Segment s level x xs p va v tree top room =
    let (t, runs, i) =
      page_insert-page_lookup (based (once x s) x s) level xs p x va attrib_ap_rw_all
        (fresh-IsPaged v (once x s)) top room (fresh-bound v) (omega arith) in
    (
      t,
      map_page-runs v (page2pa p) va runs,
      twice x s (
          page-Segment v (once x s) (once-other x s) tree top i t.mem (λ _. 0) (λ q j b k ne. refl)
            (Inserted-Holds v (once x s) i)),
    )

-- `load_page` with four free pages maps a page that begins with the `n` bytes.
pub load_page-Segment :
    (image : ℕ → ℕ) (src n : ℕ) (s : Pmap) (level : ℕ → ℕ) (x : ℕ) (xs : List ℕ) (p va : ℕ)
    → IsPaged s level (x ∷ xs)
    → IsTree s.mem level
    → level p ≡ 1
    → 3 ≤ length xs
    → n ≤ by2pg
    → (t : Pmap) × (load_page image (page2pa p) va 0 src n s ≡ some (tt, t))
      × Segment s level (x ∷ xs) 2 p va 1 (λ k. if ltb k n then image (src + k) % 256 else 0) t
unfolding load_page
load_page-Segment image src n s level x xs p va v tree top room fits =
    let (t, runs, i) =
      page_insert-page_lookup (based (once x s) x s) level xs p x va attrib_ap_rw_all
        (fresh-IsPaged v (once x s)) top room (fresh-bound v) (omega arith) in
    let start : page2kva x + 0 ≡ page2kva x = omega arith in
    let copied = bcopy image src (page2kva x) n t.mem in
    (
      record t { mem = copied },
      bind_some (map_page (page2pa p) va)
            (λ q. modify (λ u. record u { mem = bcopy image src (page2kva q + 0) n u.mem })) s
            (map_page-runs v (page2pa p) va runs)
          ∙ rw start refl,
      twice x s (
          page-Segment v (once x s) (once-other x s) tree top i copied
            (λ k. if ltb k n then image (src + k) % 256 else 0)
            (λ q j b k ne.
              ap (λ (m : ℕ → ℕ). m (word q j)) (bcopy-bytes image src (page2kva x) n t.mem)
              ∙ bcopy_bytes-word n image src (page2kva x) t.mem (word q j)
                  (omega (
                    arith,
                    word_outside q x j b (fresh-bound v) k ne,
                    page2kva-eq q (omega arith),
                    page2kva-eq x (omega (arith, fresh-bound v)),
                  ))
                  (omega (arith, page2kva-eq q (omega arith))))
            (bcopy-Holds image src x n t.mem (Inserted-Holds v (once x s) i))),
    )

-- The page of the stack, which `load_icode` does not count before it is mapped.
pub stack_page-Segment :
    (s : Pmap) (level : ℕ → ℕ) (x : ℕ) (xs : List ℕ) (p va : ℕ)
    → IsPaged s level (x ∷ xs)
    → IsTree s.mem level
    → level p ≡ 1
    → 3 ≤ length xs
    → (t : Pmap) × (page_insert (page2pa p) x va attrib_ap_rw_all (taken x s) ≡ some (tt, t))
      × Segment s level (x ∷ xs) 1 p va 1 (λ _. 0) t
stack_page-Segment s level x xs p va v tree top room =
    let r : ℕ → ℕ = update s.pp_ref x 0 in
    let (t, runs, i) =
      page_insert-page_lookup (taken x s) level xs p x va attrib_ap_rw_all (fresh-IsPaged v r) top
        room (fresh-bound v) (omega arith) in
    let once_counted : (r x + 1) % 2 ^ 16 ≡ 1 = ground arith in
    (
      t,
      runs,
      subst (λ c. Segment s level (x ∷ xs) c p va 1 (λ _. 0) t) once_counted
          (page-Segment v r (λ q ne. ground arith) tree top i t.mem (λ _. 0) (λ q j b k ne. refl)
            (Inserted-Holds v r i)),
    )
