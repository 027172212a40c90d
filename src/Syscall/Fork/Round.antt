-- ===== src/Syscall/Fork/Round.antt =====
-- What the parent shows at an address, and a round of the loop there.
use raspberry_pi_3_jos.Prelude.{
  ℕ, ◌+◌, ◌*◌, ◌≤◌, ◌<◌, ◌≡◌, ◌≢◌, refl, ap, ◌∙◌, inl, false, Option, none, some, List, [], ◌∷◌,
  arith, length,
}
use mathlib.Core.Path.{subst, fun_ext}
use raspberry_pi_3_jos.Queue.Chain.{elem}
use raspberry_pi_3_jos.Mmu.{by2pg, npage, kaddr, page2pa}
use raspberry_pi_3_jos.Pmap.{Pmap, entry_perm, page_lookup}
use raspberry_pi_3_jos.Pmap.Tables.{IsPaged, IsTree}
use raspberry_pi_3_jos.Pmap.Bytes.{Holds, Holds-keep}
use raspberry_pi_3_jos.Pmap.Maps.{Maps, page_lookup-Maps, page_lookup-kaddr}
use raspberry_pi_3_jos.Pmap.Absent.{Absent, page_lookup-Absent}
use raspberry_pi_3_jos.Env.{Kernel, on_pmap}
use raspberry_pi_3_jos.Env.Setup.{on_pmap-some}
use raspberry_pi_3_jos.Env.Window.{Outside}
use raspberry_pi_3_jos.Env.Load.Frame.{Frame, Frame-refl, Loaded}
use raspberry_pi_3_jos.Syscall.Fork.{Kept, copy_page-Segment}
use raspberry_pi_3_jos.Syscall.{copy_page}

-- The directory `p` maps `va` to a page with the bytes `f`, which is neither a table nor free.
pub record Page (s : Pmap) (level : ℕ → ℕ) (xs : List ℕ) (p va : ℕ) (f : ℕ → ℕ) : Type 0 where
  pub page : ℕ
  pub perm : ℕ
  pub bound : page < npage
  pub small : perm < 4096
  pub maps : Maps s.mem level p va page (entry_perm perm)
  pub holds : Holds s.mem page f
  pub used : elem page xs ≡ false
  pub plain : level page ≡ 0

-- What the directory shows at `va`: no page, or one with these bytes.
abbrev pub View :
    (s : Pmap) → (level : ℕ → ℕ) → (xs : List ℕ) → (p va : ℕ) → Option (ℕ → ℕ) → Type 0
View s level xs p va none = Absent s.mem level p va
View s level xs p va (some f) = Page s level xs p va f

pub View-keep :
    {s : Pmap} {level : ℕ → ℕ} {xs : List ℕ} {n p q : ℕ} (a m : ℕ) {t : Pmap}
    (w : Frame s level xs n (Outside q a m) t)
    → Kept s level q t w.levels
    → level p ≡ 1
    → p ≢ q
    → (va : ℕ) (o : Option (ℕ → ℕ)) → View s level xs p va o
    → View t w.levels w.free p va o
View-keep a m w kept top ne va none gone = kept _ va top ne gone
View-keep {s} a m {t} w kept top ne va (some f) v = record {
  page = v.page;
  perm = v.perm;
  bound = v.bound;
  small = v.small;
  maps = w.others _ va v.page v.perm top v.bound v.small (λ j h. inl ne) v.maps;
  holds =
      Holds-keep s.mem t.mem v.page f v.bound
        (λ j k. w.keeps_data v.page j v.bound k v.used v.plain) v.holds;
  used = w.fewer v.page v.used;
  plain = w.stays v.page v.used v.plain;
}

-- What one round leaves behind where the parent shows `o` at `va`.
pub record Round (s : Kernel) (level : ℕ → ℕ) (xs : List ℕ) (dir e q va : ℕ) (o : Option (ℕ → ℕ))
    : Type 0 where
  pub state : Pmap
  pub found : Option (ℕ × ℕ)
  pub looks : on_pmap (page_lookup (kaddr dir) va) s ≡ some (found, s)
  pub copies : copy_page found e va s ≡ some (tt, record s { pmap = state })
  pub pages : ℕ
  pub few : pages ≤ 1
  pub frame : Frame s.pmap level xs pages (Outside q va 1) state
  pub child : (f : ℕ → ℕ) → o ≡ some f → Loaded state frame.levels frame.free 1 q va f
  pub kept : Kept s.pmap level q state frame.levels

bytes_of_some : (f : ℕ → ℕ) → Option (ℕ → ℕ) → ℕ → ℕ
bytes_of_some f none = f
bytes_of_some f (some g) = g

child_at :
    {t : Pmap} {level : ℕ → ℕ} {free : List ℕ} {q va : ℕ} (f g : ℕ → ℕ)
    → ◌≡◌ {A = Option (ℕ → ℕ)} (some f) (some g)
    → Loaded t level free 1 q (va + 0 * by2pg) (λ k. f (0 * by2pg + k))
    → Loaded t level free 1 q va g
unfolding bytes_of_some
child_at {t} {level} {free} {q} {va} f g e l =
    let bytes : (λ (k : ℕ). f (0 * by2pg + k)) ≡ g =
      fun_ext (λ k. ap f (omega arith)) ∙ ap (bytes_of_some f) e in
    subst (λ b. Loaded t level free 1 q va b) bytes
      (subst (λ a. Loaded t level free 1 q a (λ k. f (0 * by2pg + k))) (omega arith) l)

lookup-from :
    (s : Kernel) (dir p va : ℕ) (found : Option (ℕ × ℕ))
    → dir ≡ page2pa p
    → p < npage
    → page_lookup (page2pa p) va s.pmap ≡ some (found, s.pmap)
    → on_pmap (page_lookup (kaddr dir) va) s ≡ some (found, s)
lookup-from s dir p va found same bound looks = on_pmap-some (page_lookup (kaddr dir) va) s (
    ap (λ (d : ℕ). page_lookup (kaddr d) va s.pmap) same
    ∙ page_lookup-kaddr p va s.pmap bound
    ∙ looks)

module _ (s : Kernel) (dir e p q va : ℕ) (level : ℕ → ℕ) (xs : List ℕ) (dir_p : dir ≡ page2pa p)
    (dir_q : (s.envs e).env_pgdir ≡ page2pa q) (v : IsPaged s.pmap level xs)
    (tree : IsTree s.pmap.mem level) (top_p : level p ≡ 1) (top_q : level q ≡ 1)
    (room : 4 ≤ length xs) where
  parent_bound : p < npage
  parent_bound = v.tables p (λ z. omega (arith, z, top_p))

  Absent-Round : Absent s.pmap.mem level p va → Round s level xs dir e q va none
  unfolding copy_page Frame-refl
  Absent-Round gone = record {
    state = s.pmap;
    found = none;
    looks =
        lookup-from s dir p va none dir_p parent_bound
          (page_lookup-Absent s.pmap level p va parent_bound gone);
    copies = refl;
    pages = 0;
    few = omega arith;
    frame = Frame-refl s.pmap level xs (Outside q va 1) v tree;
    child = λ f e. absurd (cc);
    kept = λ p va one ne gone. gone;
  }

Page-Round :
    (s : Kernel) (dir e p q va : ℕ) (level : ℕ → ℕ) (xs : List ℕ) (f : ℕ → ℕ)
    → dir ≡ page2pa p
    → (s.envs e).env_pgdir ≡ page2pa q
    → IsPaged s.pmap level xs
    → IsTree s.pmap.mem level
    → level p ≡ 1
    → level q ≡ 1
    → 4 ≤ length xs
    → Page s.pmap level xs p va f
    → Round s level xs dir e q va (some f)
Page-Round s dir e p q va level [] f dir_p dir_q v tree top_p top_q room page = absurd (omega arith)
Page-Round s dir e p q va level (x ∷ xs) f dir_p dir_q v tree top_p top_q room page =
    let bound : p < npage = v.tables p (λ z. omega (arith, z, top_p)) in
    let look =
      page_lookup-Maps s.pmap level p va page.page page.perm bound page.bound page.small
        page.maps in
    let (t, runs, w, kept) =
      copy_page-Segment s e q va page.page _ x f level xs dir_q v tree top_q (omega arith)
        page.bound page.used page.holds in
    record {
      state = t;
      found = some (page.page, _);
      looks = lookup-from s dir p va _ dir_p bound look;
      copies = runs;
      pages = 1;
      few = omega arith;
      frame = w.frame;
      child = λ g same. child_at f g same (w.pages 0 (omega arith));
      kept = kept;
    }

pub View-Round :
    (s : Kernel) (dir e p q va : ℕ) (level : ℕ → ℕ) (xs : List ℕ) (o : Option (ℕ → ℕ))
    → dir ≡ page2pa p
    → (s.envs e).env_pgdir ≡ page2pa q
    → IsPaged s.pmap level xs
    → IsTree s.pmap.mem level
    → level p ≡ 1
    → level q ≡ 1
    → 4 ≤ length xs
    → View s.pmap level xs p va o
    → Round s level xs dir e q va o
View-Round s dir e p q va level xs none dir_p dir_q v tree top_p top_q room gone =
    Absent-Round s dir e p q va level xs dir_p dir_q v tree top_p top_q room gone
View-Round s dir e p q va level xs (some f) dir_p dir_q v tree top_p top_q room page =
    Page-Round s dir e p q va level xs f dir_p dir_q v tree top_p top_q room page
