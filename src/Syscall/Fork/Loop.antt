-- ===== src/Syscall/Fork/Loop.antt =====
-- The loop of `sys_fork`.
use raspberry_pi_3_jos.Prelude.{
  ℕ, zero, suc, ◌+◌, ◌*◌, ◌^◌, ◌≤◌, ◌<◌, ◌≡◌, ◌≢◌, ◌⊎◌, refl, sym, ap, ◌∙◌, inr, Option, some, List,
  arith, length,
}
use mathlib.Core.Path.{subst}
use raspberry_pi_3_jos.Prelude.State.{Cmd, and_then}
use raspberry_pi_3_jos.Mmu.{by2pg, kaddr, page2pa}
use raspberry_pi_3_jos.Pmap.{Pmap, page_lookup}
use raspberry_pi_3_jos.Pmap.Tables.{IsPaged, IsTree}
use raspberry_pi_3_jos.Pmap.Maps.{vpn}
use raspberry_pi_3_jos.Env.{Kernel, on_pmap}
use raspberry_pi_3_jos.Env.Window.{Outside}
use raspberry_pi_3_jos.Env.Load.Frame.{Frame, Frame-refl, Frame-trans, Loaded, Loaded-keep}
use raspberry_pi_3_jos.Syscall.Ipc.{current-eq}
use raspberry_pi_3_jos.Syscall.Fork.{Kept}
use raspberry_pi_3_jos.Syscall.{copy_page, copy_pages}
use raspberry_pi_3_jos.Syscall.Fork.Round.{View, View-keep, Round, View-Round}

-- What `n` rounds from `va` on leave behind.
pub record Copied (s : Pmap) (level : ℕ → ℕ) (xs : List ℕ) (q va n : ℕ) (space : ℕ → Option (ℕ → ℕ))
    (t : Pmap) : Type 0 where
  pub pages : ℕ
  pub few : pages ≤ n
  pub frame : Frame s level xs pages (Outside q va n) t
  pub child :
      (i : ℕ)
      → i < n
      → (f : ℕ → ℕ) → space i ≡ some f
      → Loaded t frame.levels frame.free 1 q (va + i * by2pg) f
  pub kept : Kept s level q t frame.levels

module _ {s : Kernel} {level : ℕ → ℕ} {xs : List ℕ} {dir e q va : ℕ} (space : ℕ → Option (ℕ → ℕ))
    (a : Round s level xs dir e q va (space 0)) {n : ℕ} {u : Pmap}
    (b : Copied a.state a.frame.levels a.frame.free q (va + by2pg) n (λ i. space (suc i)) u)
    (top : level q ≡ 1) (few : n < 2 ^ 27) where
  apart : (j : ℕ) → j < n → vpn va ≢ vpn (va + by2pg + j * by2pg)
  apart j h e = omega arith

  both : (r w : ℕ) → Outside q va (suc n) r w → Outside q va 1 r w × Outside q (va + by2pg) n r w
  both r w far = (
    λ j h. far j (omega arith),
    λ j h. subst (λ x. (r ≢ q) ⊎ (vpn w ≢ vpn x)) (omega arith) (far (suc j) (omega arith)),
  )

  copied_child :
      (i : ℕ)
      → i < suc n
      → (f : ℕ → ℕ) → space i ≡ some f
      → Loaded u b.frame.levels b.frame.free 1 q (va + i * by2pg) f
  copied_child zero h f shown =
      let here : va + 0 * by2pg ≡ va = omega arith in
      rw here (
        Loaded-keep b.frame 1 q va f (a.frame.keeps_level q (λ z. omega arith) ∙ top)
          (λ j k. inr (apart j k)) (a.child f shown))
  copied_child (suc j) h f shown =
      let place : va + by2pg + j * by2pg ≡ va + suc j * by2pg = omega arith in
      rw (sym place) (b.child j (omega arith) f shown)

  cons-Copied : Copied s.pmap level xs q va (suc n) space u
  unfolding Frame-trans
  cons-Copied = record {
    pages = a.pages + b.pages;
    few = omega (arith, a.few, b.few);
    frame = Frame-trans a.frame b.frame (Outside q va (suc n)) both;
    child = copied_child;
    kept = λ p w one ne gone.
        b.kept p w (a.frame.keeps_level p (λ z. omega arith) ∙ one) ne (a.kept p w one ne gone);
  }

copy_pages-round :
    (n e va c : ℕ) (s : Kernel) (found : Option (ℕ × ℕ)) (t : Pmap)
    → s.curenv ≡ some c
    → on_pmap (page_lookup (kaddr (s.envs c).env_pgdir) va) s ≡ some (found, s)
    → copy_page found e va s ≡ some (tt, record s { pmap = t })
    → copy_pages (suc n) e va s ≡ copy_pages n e (va + by2pg) (record s { pmap = t })
unfolding copy_pages
copy_pages-round n e va c s found t running looks copies =
    let rest : Cmd Kernel (Unit {0}) = copy_pages n e (va + by2pg) in
    ap
      (λ r. and_then r (λ d k.
        and_then (on_pmap (page_lookup (kaddr (k.envs d).env_pgdir) va) k)
          (λ found u. and_then (copy_page found e va u) (λ _. rest))))
      (current-eq s c running)
    ∙ ap (λ r. and_then r (λ found u. and_then (copy_page found e va u) (λ _. rest))) looks
    ∙ ap (λ r. and_then r (λ _. rest)) copies

-- The loop of `sys_fork` over `n` pages of addresses, at each of which the parent shows either no page
-- or a page in use with known bytes: with four free pages for each it returns; the child has a page
-- of its own, counted once, with the same bytes wherever the parent shows one, and the mappings of
-- all other directories and addresses stay.
pub copy_pages-Copied :
    (n : ℕ) (s : Kernel) (c e p q va : ℕ) (level : ℕ → ℕ) (xs : List ℕ) (space : ℕ → Option (ℕ → ℕ))
    → s.curenv ≡ some c
    → (s.envs c).env_pgdir ≡ page2pa p
    → (s.envs e).env_pgdir ≡ page2pa q
    → p ≢ q
    → IsPaged s.pmap level xs
    → IsTree s.pmap.mem level
    → level p ≡ 1
    → level q ≡ 1
    → 4 * n ≤ length xs
    → n < 2 ^ 27
    → ((i : ℕ) → i < n → View s.pmap level xs p (va + i * by2pg) (space i))
    → (t : Pmap) × (copy_pages n e va s ≡ some (tt, record s { pmap = t }))
      × Copied s.pmap level xs q va n space t
unfolding copy_pages Frame-refl
copy_pages-Copied zero s c e p q va level xs space running dir_p dir_q ne v tree top_p top_q room
      few view =
    (
      s.pmap,
      refl,
      record {
        pages = 0;
        few = omega arith;
        frame = Frame-refl s.pmap level xs (Outside q va 0) v tree;
        child = λ i h f shown. absurd (omega (arith, h));
        kept = λ p va one ne gone. gone;
      },
    )
copy_pages-Copied (suc n) s c e p q va level xs space running dir_p dir_q ne v tree top_p top_q room
      few view =
    let first : View s.pmap level xs p va (space 0) =
      subst (λ a. View s.pmap level xs p a (space 0)) (omega arith) (view 0 (omega arith)) in
    let a : Round s level xs (s.envs c).env_pgdir e q va (space 0) =
      View-Round s (s.envs c).env_pgdir e p q va level xs (space 0) dir_p dir_q v tree top_p top_q
        (omega arith) first in
    let (t, runs, b) =
      copy_pages-Copied n (record s { pmap = a.state }) c e p q (va + by2pg) a.frame.levels
        a.frame.free (λ i. space (suc i)) running dir_p dir_q ne a.frame.paged a.frame.tree
        (a.frame.keeps_level p (λ z. omega arith) ∙ top_p)
        (a.frame.keeps_level q (λ z. omega arith) ∙ top_q) (omega (arith, a.frame.used, a.few))
        (omega arith)
        (λ i h.
          subst (λ w. View a.state a.frame.levels a.frame.free p w (space (suc i))) (omega arith)
            (View-keep va 1 a.frame a.kept top_p ne (va + suc i * by2pg) (space (suc i))
              (view (suc i) (omega arith)))) in
    (
      t,
      copy_pages-round n e va c s a.found a.state running a.looks a.copies ∙ runs,
      cons-Copied space a b top_q (omega arith),
    )
