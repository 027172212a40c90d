-- ===== src/Env/Load/Program.antt =====
-- A program: every segment of an image in the directory of an environment.
use raspberry_pi_3_jos.Prelude.{
  ℕ, ◌+◌, ◌*◌, ◌%◌, ◌^◌, ◌≤◌, ◌<◌, ◌≡◌, refl, ap, ◌∙◌, ◌≢◌, inr, true, some, List, [], ◌∷◌, arith,
  length, max, All,
}
use raspberry_pi_3_jos.Prelude.State.{ok, err, pure, and_then}
use raspberry_pi_3_jos.Mmu.{by2pg, page2pa}
use raspberry_pi_3_jos.Pmap.{Pmap}
use raspberry_pi_3_jos.Pmap.Tables.{IsPaged, IsTree}
use raspberry_pi_3_jos.Pmap.Maps.{vpn}
use raspberry_pi_3_jos.Elf.{Phdr, ehdr, is_elf_format, load_elf}
use raspberry_pi_3_jos.Elf.Segments.{segments, map_all, load_elf-map_all}
use raspberry_pi_3_jos.Env.{Kernel, on_pmap}
use raspberry_pi_3_jos.Env.Window.{Outside}
use raspberry_pi_3_jos.Env.Setup.{on_pmap-some}
use raspberry_pi_3_jos.Env.Load.{pages_of, load_segment, load_icode_mapper}
use raspberry_pi_3_jos.Env.Load.Frame.{Frame, Frame-refl, Frame-trans, Loaded, Loaded-keep}
use raspberry_pi_3_jos.Env.Load.Segment.{Segment}
use raspberry_pi_3_jos.Env.Load.Loops.{segment_bytes, load_segment-Segment}

-- The pages of a segment, and its bytes.
abbrev pub size_of : Phdr → ℕ
size_of h = pages_of (max (h.p_filesz % 2 ^ 32) (h.p_memsz % 2 ^ 32))

abbrev pub total : List Phdr → ℕ
total [] = 0
total (h ∷ hs) = size_of h + total hs

abbrev pub bytes_of : (ℕ → ℕ) → Phdr → ℕ → ℕ
bytes_of image h = segment_bytes image h.p_offset (h.p_filesz % 2 ^ 32)

-- Two segments share no page.
abbrev pub Disjoint : (h h' : Phdr) → Type 0
Disjoint h h' =
    (i j : ℕ)
    → i < size_of h
    → j < size_of h'
    → vpn (h.p_vaddr + i * by2pg) ≢ vpn (h'.p_vaddr + j * by2pg)

-- The segments begin at page boundaries and share no page.
abbrev pub IsLayout : List Phdr → Type 0
IsLayout [] = Unit {0}
IsLayout (h ∷ hs) = (h.p_vaddr % by2pg ≡ 0) × All (Disjoint h) hs × IsLayout hs

abbrev pub OutsideAll : (p : ℕ) → List Phdr → (q v : ℕ) → Type 0
OutsideAll p hs q v = All (λ h. Outside p h.p_vaddr (size_of h) q v) hs

-- Every segment is in the directory `p`.
pub record Program (s : Pmap) (level : ℕ → ℕ) (xs : List ℕ) (p : ℕ) (image : ℕ → ℕ) (hs : List Phdr)
    (t : Pmap) : Type 0 where
  pub frame : Frame s level xs (total hs) (OutsideAll p hs) t
  pub pages :
      All
        (λ (h : Phdr).
          (i : ℕ)
          → i < size_of h
          → Loaded t frame.levels frame.free 2 p
              (h.p_vaddr + i * by2pg)
              (λ k. bytes_of image h (i * by2pg + k)))
        hs

far_later :
    (p : ℕ) (h : Phdr) (hs : List Phdr)
    → All (Disjoint h) hs
    → (i : ℕ) → i < size_of h
    → OutsideAll p hs p (h.p_vaddr + i * by2pg)
far_later p h [] apart i small = tt
far_later p h (h' ∷ hs) apart i small =
    (λ j k. inr (apart.0 i j small k), far_later p h hs apart.1 i small)

cons-Program :
    (s : Pmap) (level : ℕ → ℕ) (xs : List ℕ) (p : ℕ) (image : ℕ → ℕ) (h : Phdr) (hs : List Phdr)
    (t u : Pmap)
    → level p ≡ 1
    → All (Disjoint h) hs
    → (a : Segment s level xs 2 p h.p_vaddr (size_of h) (bytes_of image h) t)
    → Program t a.frame.levels a.frame.free p image hs u
    → Program s level xs p image (h ∷ hs) u
unfolding Frame-trans
cons-Program s level xs p image h hs t u top apart a b = record {
  frame = Frame-trans a.frame b.frame (OutsideAll p (h ∷ hs)) (λ q v far. far);
  pages = (
    λ i small.
        Loaded-keep b.frame 2 p (h.p_vaddr + i * by2pg) (λ k. bytes_of image h (i * by2pg + k))
          (a.frame.keeps_level p (λ z. omega arith) ∙ top) (far_later p h hs apart i small)
          (a.pages i small),
    b.pages,
  );
}

module _ (image : ℕ → ℕ) (e p : ℕ) where
  mapper-Segment :
      (va sgsize bin bin_size : ℕ) (s : Kernel) (level : ℕ → ℕ) (xs : List ℕ)
      → (s.envs e).env_pgdir ≡ page2pa p
      → IsPaged s.pmap level xs
      → IsTree s.pmap.mem level
      → level p ≡ 1
      → va % by2pg ≡ 0
      → 4 * pages_of (max bin_size sgsize) ≤ length xs
      → pages_of (max bin_size sgsize) < 2 ^ 26
      → (t : Pmap) × (load_icode_mapper image e va sgsize bin bin_size s
          ≡ some (ok tt, record s { pmap = t }))
        × Segment s.pmap level xs 2 p va
            (pages_of (max bin_size sgsize))
            (segment_bytes image bin bin_size)
            t
  unfolding load_icode_mapper
  mapper-Segment va sgsize bin bin_size s level xs dir v tree top aligned room few =
      let (t, runs, seg) =
        load_segment-Segment p image va sgsize bin bin_size s.pmap level xs v tree top aligned room
          few in
      (
        t,
        ap
              (λ (d : ℕ).
                and_then (on_pmap (load_segment image d va sgsize bin bin_size) s)
                  (λ _. pure (ok tt)))
              dir
            ∙ ap (λ r. and_then r (λ _. pure (ok tt)))
                (on_pmap-some (load_segment image (page2pa p) va sgsize bin bin_size) s runs),
        seg,
      )

  map_all-Program :
      (hs : List Phdr) (s : Kernel) (level : ℕ → ℕ) (xs : List ℕ)
      → (s.envs e).env_pgdir ≡ page2pa p
      → IsPaged s.pmap level xs
      → IsTree s.pmap.mem level
      → level p ≡ 1
      → IsLayout hs
      → 4 * total hs ≤ length xs
      → (t : Pmap) × (map_all (load_icode_mapper image e) hs s
          ≡ some (ok tt, record s { pmap = t }))
        × Program s.pmap level xs p image hs t
  unfolding map_all Frame-refl
  map_all-Program [] s level xs dir v tree top apart room = (
    s.pmap,
    refl,
    record { frame = Frame-refl s.pmap level xs (OutsideAll p []) v tree; pages = tt },
  )
  map_all-Program (h ∷ hs) s level xs dir v tree top apart room =
      let bin_size = h.p_filesz % 2 ^ 32 in
      let (t, runs, a) =
        mapper-Segment h.p_vaddr (h.p_memsz % 2 ^ 32) h.p_offset bin_size s level xs dir v tree top
          apart.0 (omega arith) (omega arith) in
      let (u, rest, b) =
        map_all-Program hs (record s { pmap = t }) a.frame.levels a.frame.free dir a.frame.paged
          a.frame.tree (a.frame.keeps_level p (λ z. omega arith) ∙ top) apart.2
          (omega (arith, a.frame.used)) in
      (
        u,
        ap
              (λ r. and_then r (λ r. elim r [
                | err code ↦ pure (err code)
                | ok _ ↦ map_all (load_icode_mapper image e) hs
              ]))
              runs
            ∙ rest,
        cons-Program s.pmap level xs p image h hs t u top apart.1 a b,
      )

  -- With four free pages for each page of the segments an ELF file whose segments begin at page
  -- boundaries and share no page is loaded into the directory of the environment: `load_elf`, for a
  -- size of at least 4, returns the entry point, every page of every segment is
  -- mapped and holds the bytes of the file with zeros behind them, and every other mapping stays.
  pub load_elf-Program :
      (size : ℕ) (s : Kernel) (level : ℕ → ℕ) (xs : List ℕ)
      → (s.envs e).env_pgdir ≡ page2pa p
      → IsPaged s.pmap level xs
      → IsTree s.pmap.mem level
      → level p ≡ 1
      → 4 ≤ size
      → is_elf_format image ≡ true
      → IsLayout (segments image)
      → 4 * total (segments image) ≤ length xs
      → (t : Pmap) × (load_elf (load_icode_mapper image e) image size s
          ≡ some (ok (ehdr image).e_entry, record s { pmap = t }))
        × Program s.pmap level xs p image (segments image) t
  load_elf-Program size s level xs dir v tree top long elf apart room =
      let (t, runs, program) =
        map_all-Program (segments image) s level xs dir v tree top apart room in
      (
        t,
        load_elf-map_all (load_icode_mapper image e) image size s long elf
            ∙ ap
                (λ r. and_then r (λ r. elim r [
                  | err code ↦ pure (err code)
                  | ok _ ↦ pure (ok (ehdr image).e_entry)
                ]))
                runs,
        program,
      )
