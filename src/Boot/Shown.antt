-- ===== src/Boot/Shown.antt =====
-- What the directory of a program shows: its stack and its segments, also after a later `env_create`.
use raspberry_pi_3_jos.Prelude.{ℕ, ◌+◌, ◌*◌, ◌<◌, ◌≡◌, false, List, [], ◌∷◌, arith, All}
use mathlib.Core.Path.{subst}
use raspberry_pi_3_jos.Queue.Chain.{elem}
use raspberry_pi_3_jos.Mmu.{npage, by2pg, attrib_ap_rw_all}
use raspberry_pi_3_jos.Pmap.{Pmap}
use raspberry_pi_3_jos.Pmap.Bytes.{Holds, Holds-keep}
use raspberry_pi_3_jos.Pmap.Maps.{Maps}
use raspberry_pi_3_jos.Elf.{Phdr}
use raspberry_pi_3_jos.Elf.Segments.{segments}
use raspberry_pi_3_jos.Env.{Kernel}
use raspberry_pi_3_jos.Env.Load.Frame.{Loaded, read_write}
use raspberry_pi_3_jos.Env.Load.Program.{size_of, bytes_of}
use raspberry_pi_3_jos.Env.Load.Create.{Created, stack_page}

-- A page with the bytes `f` is mapped at `va` in the directory `p`, to be read and written.
pub record Shown (s : Pmap) (level : ℕ → ℕ) (p va : ℕ) (f : ℕ → ℕ) : Type 0 where
  pub shown : ℕ
  pub bound : shown < npage
  pub maps : Maps s.mem level p va shown read_write
  pub holds : Holds s.mem shown f

-- The stack and every page of the segments of the image are in the directory `p`.
pub record Shows (s : Pmap) (level : ℕ → ℕ) (p : ℕ) (image : ℕ → ℕ) : Type 0 where
  pub stack : Shown s level p stack_page (λ _. 0)
  pub segments_shown :
      All
        (λ (h : Phdr).
          (i : ℕ)
          → i < size_of h
          → Shown s level p (h.p_vaddr + i * by2pg) (λ k. bytes_of image h (i * by2pg + k)))
        (segments image)

-- What a later `env_create` leaves of a page that was loaded.
module _ {s : Kernel} {level : ℕ → ℕ} {y : ℕ} {ys : List ℕ} {e : ℕ} {es : List ℕ} {image : ℕ → ℕ}
    {u : Kernel} (w : Created s level y ys e es image u) (p : ℕ) (top : level p ≡ 1) {free : List ℕ}
    (split : free ≡ y ∷ ys) where
  pub later-Shown :
      (c va : ℕ) (f : ℕ → ℕ)
      → Loaded s.pmap level free c p va f
      → Shown u.pmap w.image_loaded.frame.levels p va f
  later-Shown c va f l =
      let listed = subst (λ xs. elem l.page xs ≡ false) split l.used in
      record {
        shown = l.page;
        bound = l.bound;
        maps = w.mappings p va l.page attrib_ap_rw_all top l.bound (omega arith) l.maps;
        holds =
            Holds-keep s.pmap.mem u.pmap.mem l.page f l.bound
              (λ j k. w.keeps_data l.page j l.bound k listed l.plain) l.holds;
      }

  pub later-All :
      (image : ℕ → ℕ) (hs : List Phdr)
      → All
          (λ (h : Phdr).
            (i : ℕ)
            → i < size_of h
            → Loaded s.pmap level free 2 p
                (h.p_vaddr + i * by2pg)
                (λ k. bytes_of image h (i * by2pg + k)))
          hs
      → All
          (λ (h : Phdr).
            (i : ℕ)
            → i < size_of h
            → Shown u.pmap w.image_loaded.frame.levels p
                (h.p_vaddr + i * by2pg)
                (λ k. bytes_of image h (i * by2pg + k)))
          hs
  later-All image [] loaded = tt
  later-All image (h ∷ hs) loaded = (
    λ i small.
        later-Shown 2 (h.p_vaddr + i * by2pg) (λ k. bytes_of image h (i * by2pg + k))
          (loaded.0 i small),
    later-All image hs loaded.1,
  )
