-- ===== src/Syscall/Fork.antt =====
-- A round of the loop of `sys_fork`.
pub mod Round
pub mod Loop
use raspberry_pi_3_jos.Prelude.{
  ℕ, zero, suc, ◌+◌, ◌*◌, ◌≤◌, ◌<◌, ◌≡◌, ◌≢◌, ◌⊎◌, refl, ap, ◌∙◌, false, some, List, ◌∷◌, arith,
  length,
}
use mathlib.Core.Path.{subst}
use raspberry_pi_3_jos.Prelude.State.{get, modify, ◌>>=◌, ◌>>◌, bind_some}
use raspberry_pi_3_jos.Queue.{update}
use raspberry_pi_3_jos.Queue.Chain.{elem}
use raspberry_pi_3_jos.Mmu.{by2pg, npage, attrib_ap_rw_all, kaddr, page2pa, page2kva}
use raspberry_pi_3_jos.Mmu.Fields.{page2kva-eq}
use raspberry_pi_3_jos.Pmap.{Pmap, page_alloc, page_insert}
use raspberry_pi_3_jos.Pmap.Alloc.{taken, page_alloc-taken, taken-IsFree}
use raspberry_pi_3_jos.Pmap.Tables.{word, word_outside, IsPaged, IsTree}
use raspberry_pi_3_jos.Pmap.Bytes.{Holds, Holds-copy}
use raspberry_pi_3_jos.Pmap.Maps.{vpn}
use raspberry_pi_3_jos.Pmap.Absent.{Absent, same-Absent, inserted-Absent}
use raspberry_pi_3_jos.Pmap.Same.{
  SameTables, same-IsPaged, same-IsTree, same-Maps, fresh-level, fresh-bound, fresh-distinct,
  fresh-other,
}
use raspberry_pi_3_jos.Env.{Kernel, on_pmap}
use raspberry_pi_3_jos.Env.Setup.{on_pmap-some}
use raspberry_pi_3_jos.Env.Window.{Outside}
use raspberry_pi_3_jos.Env.Load.Frame.{Frame, Loaded}
use raspberry_pi_3_jos.Env.Load.Segment.{Segment}
use raspberry_pi_3_jos.Syscall.Memory.{Added, insert-Added}
use raspberry_pi_3_jos.Syscall.{copy_words, copy_page}

copy_words-outside :
    (n src dst : ℕ) (mem : ℕ → ℕ) (a : ℕ)
    → (a < dst) ⊎ (dst + 8 * n ≤ a)
    → copy_words n src dst mem a ≡ mem a
unfolding copy_words
copy_words-outside zero src dst mem a h = refl
copy_words-outside (suc n) src dst mem a h =
    copy_words-outside n (src + 8) (dst + 8) (update mem dst (mem src)) a (omega arith)
    ∙ ground arith

copy_words-inside :
    (n src dst : ℕ) (mem : ℕ → ℕ) (i : ℕ)
    → (src + 8 * n ≤ dst) ⊎ (dst + 8 * n ≤ src)
    → i < n
    → copy_words n src dst mem (dst + 8 * i) ≡ mem (src + 8 * i)
unfolding copy_words
copy_words-inside zero src dst mem i apart h = absurd (omega arith)
copy_words-inside (suc n) src dst mem zero apart h =
    let here : dst + 8 * 0 ≡ dst = omega arith in
    let there : src + 8 * 0 ≡ src = omega arith in
    rw (here, there)
      (copy_words-outside n (src + 8) (dst + 8) (update mem dst (mem src)) dst (omega arith)
        ∙ ground arith)
copy_words-inside (suc n) src dst mem (suc i) apart h =
    let here : dst + 8 * suc i ≡ dst + 8 + 8 * i = omega arith in
    let there : src + 8 * suc i ≡ src + 8 + 8 * i = omega arith in
    rw (here, there)
      (copy_words-inside n (src + 8) (dst + 8) (update mem dst (mem src)) i (omega arith)
          (omega arith)
        ∙ ground arith)

-- The page `x` was allocated and got the words of the page `pp`.
copied : (pp x : ℕ) → Pmap → Pmap
copied pp x s = record (taken x s) {
  mem = copy_words 512 (page2kva pp) (page2kva x) (taken x s).mem;
}

module _ {s : Pmap} {level : ℕ → ℕ} {x : ℕ} {xs : List ℕ} (v : IsPaged s level (x ∷ xs))
    (tree : IsTree s.mem level) (pp : ℕ) (bound : pp < npage) (used : elem pp (x ∷ xs) ≡ false)
    (f : ℕ → ℕ) (holds : Holds s.mem pp f) where
  not_fresh : pp ≢ x
  not_fresh = ground (arith, used)

  counts : ℕ → ℕ
  counts = update s.pp_ref x 0

  copied-other :
      (q i : ℕ) → q < npage → i < 512 → q ≢ x → (copied pp x s).mem (word q i) ≡ s.mem (word q i)
  unfolding copied
  copied-other q i b h ne =
      copy_words-outside 512 (page2kva pp) (page2kva x) (taken x s).mem (word q i)
        (word_outside q x i b (fresh-bound v) h ne)
      ∙ fresh-other v counts q i b h ne

  copied-new : (i : ℕ) → i < 512 → (copied pp x s).mem (word x i) ≡ s.mem (word pp i)
  unfolding copied
  copied-new i h =
      copy_words-inside 512 (page2kva pp) (page2kva x) (taken x s).mem i
        (omega (
          arith,
          not_fresh,
          page2kva-eq pp (omega (arith, bound)),
          page2kva-eq x (omega (arith, fresh-bound v)),
        ))
        h
      ∙ fresh-other v counts pp i bound h not_fresh

  copied-SameTables : SameTables s.mem level (copied pp x s).mem
  copied-SameTables q i h k =
      copied-other q i (v.tables q h) k (λ e. h (ap level e ∙ fresh-level v))

  copied-IsPaged : IsPaged (copied pp x s) level xs
  unfolding copied
  copied-IsPaged =
      let t = taken-IsFree v.alloc in
      same-IsPaged s (copied pp x s) level (x ∷ xs) xs v copied-SameTables
        (record { queue = t.queue; bounds = t.bounds }) (λ y h. ground arith)

  copied-IsTree : IsTree (copied pp x s).mem level
  copied-IsTree = same-IsTree s.mem level (copied pp x s).mem copied-SameTables tree

  module _ {q va : ℕ} (top : level q ≡ 1) {t : Pmap}
      (a : Added (copied pp x s) level xs q x va attrib_ap_rw_all t) where
    plain : a.inserted.levels x ≡ 0
    plain = a.inserted.stays x (fresh-distinct v) (fresh-level v)

    child_page :
        Loaded t a.inserted.levels a.inserted.free 1 q (va + 0 * by2pg) (λ k. f (0 * by2pg + k))
    unfolding copied
    child_page =
        let here : va + 0 * by2pg ≡ va = omega arith in
        record {
          page = x;
          bound = fresh-bound v;
          maps = rw here a.maps;
          count = a.inserted.count plain ∙ ground arith;
          holds = λ k h.
              Holds-copy s.mem t.mem pp x f bound (fresh-bound v)
                (λ j small.
                  a.inserted.keeps_data x j (fresh-bound v) small plain ∙ copied-new j small)
                holds k h
              ∙ ap f (omega arith);
          used = a.inserted.fewer x (fresh-distinct v);
          plain = plain;
        }

    not_listed : (y : ℕ) → elem y (x ∷ xs) ≡ false → elem y xs ≡ false
    not_listed y h = ground arith

    not_page : (y : ℕ) → elem y (x ∷ xs) ≡ false → y ≢ x
    not_page y h = ground arith

    child_frame : Frame s level (x ∷ xs) 1 (Outside q va 1) t
    unfolding copied
    child_frame = record {
      levels = a.inserted.levels;
      free = a.inserted.free;
      paged = a.inserted.paged;
      tree = a.tree;
      keeps_level = a.inserted.keeps_level;
      used = omega (arith, a.inserted.used);
      fewer = λ y h. a.inserted.fewer y (not_listed y h);
      stays = λ y h z. a.inserted.stays y (not_listed y h) z;
      keeps_data = λ r j b k h z.
          a.inserted.keeps_data r j b k (a.inserted.stays r (not_listed r h) z)
          ∙ copied-other r j b k (not_page r h);
      keeps_ref = λ r h z.
          a.inserted.keeps_ref r (a.inserted.stays r (not_listed r h) z) (not_page r h)
          ∙ ground (arith, not_page r h);
      others = λ p' va' pp' perm' one k small far m.
          a.others p' va' pp' perm' one k small
            (subst (λ b. (p' ≢ q) ⊎ (vpn va' ≢ vpn b)) (omega arith) (far 0 (omega arith)))
            (same-Maps s.mem level (copied pp x s).mem p' va' pp' _ copied-SameTables one m);
    }

    child-Segment : Segment s level (x ∷ xs) 1 q va 1 f t
    unfolding child_frame
    child-Segment = record {
      frame = child_frame;
      pages = λ j h. let first : j ≡ 0 = omega arith in rw first child_page;
    }

abbrev pub Kept : (s : Pmap) → (level : ℕ → ℕ) → (q : ℕ) → (t : Pmap) → (levels : ℕ → ℕ) → Type 0
Kept s level q t levels =
    (p va : ℕ) → level p ≡ 1 → p ≢ q → Absent s.mem level p va → Absent t.mem levels p va

-- One round of the loop of `sys_fork`, for an address where the parent maps the page `pp`: with four
-- free pages it returns, and the child has a page of its own there, counted once, with the bytes of
-- `pp`; every other mapping of every directory stays, and no other directory maps more.
pub copy_page-Segment :
    (s : Kernel) (e q va pp pte x : ℕ) (f level : ℕ → ℕ) (xs : List ℕ)
    → (s.envs e).env_pgdir ≡ page2pa q
    → IsPaged s.pmap level (x ∷ xs)
    → IsTree s.pmap.mem level
    → level q ≡ 1
    → 3 ≤ length xs
    → pp < npage
    → elem pp (x ∷ xs) ≡ false
    → Holds s.pmap.mem pp f
    → (t : Pmap) × (copy_page (some (pp, pte)) e va s ≡ some (tt, record s { pmap = t }))
      × (w : Segment s.pmap level (x ∷ xs) 1 q va 1 f t) × Kept s.pmap level q t w.frame.levels
unfolding copy_page copied child-Segment child_frame
copy_page-Segment s e q va pp pte x f level xs dir v tree top room bound used holds =
    let k = record s { pmap = copied pp x s.pmap } in
    let (t, runs, a) =
      insert-Added k (s.envs e).env_pgdir q x va attrib_ap_rw_all level xs dir
        (copied-IsPaged v tree pp bound used f holds) (copied-IsTree v tree pp bound used f holds)
        top room (fresh-bound v) (omega arith) in
    (
      t,
      bind_some (on_pmap page_alloc)
            (λ y. do
              on_pmap
                  (modify (λ m. record m { mem = copy_words 512 (page2kva pp) (page2kva y) m.mem }))
              w ← get
              on_pmap (page_insert (kaddr (w.envs e).env_pgdir) y va attrib_ap_rw_all))
            s (on_pmap-some page_alloc s (page_alloc-taken v.alloc))
          ∙ runs,
      child-Segment v tree pp bound used f holds top a,
      λ p va' one ne gone.
          inserted-Absent (copied-IsPaged v tree pp bound used f holds) top a.inserted a.tree p va'
            one ne
            (same-Absent s.pmap.mem level (copied pp x s.pmap).mem p va' one
              (copied-SameTables v tree pp bound used f holds) gone),
    )
