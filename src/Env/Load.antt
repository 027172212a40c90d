-- ===== src/Env/Load.antt =====
-- Programs: `load_icode_mapper`, `load_icode` and `env_create` of OS/lib/env.c. Addresses are not cut to
-- 64 bits: the tables read only their low 40 bits. The image lies outside the pages that are
-- allocated.
pub mod Frame
pub mod Segment
pub mod Step
pub mod Loops
pub mod Program
pub mod Create
pub mod Keeps
use raspberry_pi_3_jos.Prelude.{
  ℕ, zero, suc, ◌+◌, ◌-◌, ◌*◌, ◌/◌, ◌%◌, none, some, min, ltb, if◌then◌else◌,
}
use raspberry_pi_3_jos.Prelude.State.{
  Cmd, Result, ok, err, pure, and_then, ◌>>=◌, ◌>>◌, get, modify,
}
use raspberry_pi_3_jos.Mmu.{by2pg, attrib_ap_rw_all, ustacktop, page2kva}
use raspberry_pi_3_jos.Pmap.{Pmap, page_alloc, page_insert, raise_ref, bcopy}
use raspberry_pi_3_jos.Elf.{load_elf}
use raspberry_pi_3_jos.Env.{Kernel, edit, on_pmap, env_alloc}

-- A page at `va`: both loops begin so. The page is counted here and by `page_insert`.
unfoldable pub map_page : (pgdir va : ℕ) → Cmd Pmap ℕ
map_page pgdir va = do
  p ← page_alloc
  modify (raise_ref p)
  page_insert pgdir p va attrib_ap_rw_all
  pure p

-- One round of the first loop, with `n` bytes.
unfoldable pub load_page : (image : ℕ → ℕ) → (pgdir va offset src n : ℕ) → Cmd Pmap (Unit {0})
load_page image pgdir va offset src n = do
  p ← map_page pgdir va
  modify (λ t. record t { mem = bcopy image src (page2kva p + offset) n t.mem })

-- `for (i = 0; i < bin_size; i += BY2PG)`, over the rounds left; `start` is `va - offset`.
unfoldable pub load_pages :
    (rounds : ℕ) → (image : ℕ → ℕ) → (pgdir start offset bin bin_size i : ℕ) → Cmd Pmap (Unit {0})
load_pages zero image pgdir start offset bin bin_size i s = some (tt, s)
load_pages (suc rounds) image pgdir start offset bin bin_size i s =
    let rest = load_pages rounds image pgdir start offset bin bin_size (i + by2pg) in
    and_then (load_page image pgdir (start + i) offset (bin + i) (min by2pg (bin_size - i)) s)
      (λ _. rest)

-- `while (i < sgsize)`, over the rounds left.
unfoldable pub zero_pages : (rounds pgdir start i : ℕ) → Cmd Pmap (Unit {0})
zero_pages zero pgdir start i s = some (tt, s)
zero_pages (suc rounds) pgdir start i s =
    let rest = zero_pages rounds pgdir start (i + by2pg) in
    and_then (map_page pgdir (start + i) s) (λ _. rest)

-- The pages that hold `n` bytes: the rounds of a loop in steps of BY2PG.
abbrev pub pages_of : ℕ → ℕ
pages_of n = (n + by2pg - 1) / by2pg

-- What the two loops do in the directory `pgdir`.
unfoldable pub load_segment :
    (image : ℕ → ℕ) → (pgdir va sgsize bin bin_size : ℕ) → Cmd Pmap (Unit {0})
load_segment image pgdir va sgsize bin bin_size =
    let offset = va % by2pg in
    let read = pages_of bin_size in
    load_pages read image pgdir (va - offset) offset bin bin_size 0
    >> zero_pages (pages_of (sgsize - read * by2pg)) pgdir (va - offset) (read * by2pg)

pub load_icode_mapper :
    (image : ℕ → ℕ) → (e va sgsize bin bin_size : ℕ) → Cmd Kernel (Result (Unit {0}))
load_icode_mapper image e va sgsize bin bin_size s =
    (on_pmap (load_segment image (s.envs e).env_pgdir va sgsize bin bin_size) >> pure (ok tt)) s

-- `r` is a u_long, so `r < 0` does not hold after a failed `load_elf`: the environment starts at
-- the value that the variable `entry_point` has, which nobody set.
pub load_icode : (entry_point : ℕ) → (e : ℕ) → (image : ℕ → ℕ) → (size : ℕ) → Cmd Kernel (Unit {0})
load_icode entry_point e image size = do
  p ← on_pmap page_alloc
  s ← get
  on_pmap (page_insert (s.envs e).env_pgdir p (ustacktop - by2pg) attrib_ap_rw_all)
  r ← load_elf (load_icode_mapper image e) image size
  modify (
      edit e (λ v. record v {
        env_tf = record v.env_tf { elr = elim r [ err _ ↦ entry_point | ok entry ↦ entry ] };
      }))

pub env_create : (entry_point : ℕ) → (image : ℕ → ℕ) → (size : ℕ) → Cmd Kernel (Unit {0})
env_create entry_point image size = do e ← env_alloc 0; load_icode entry_point e image size
