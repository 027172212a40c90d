-- ===== src/Env/Load/Loops.antt =====
-- The loops of `load_icode_mapper`.
use raspberry_pi_3_jos.Prelude.{
  ℕ, zero, suc, ◌+◌, ◌-◌, ◌*◌, ◌%◌, ◌^◌, ◌≤◌, ◌<◌, ◌≡◌, refl, ap, ◌∙◌, some, List, [], ◌∷◌, arith,
  length, ltb, if◌then◌else◌, min, max,
}
use mathlib.Core.Path.{subst}
use raspberry_pi_3_jos.Prelude.State.{and_then}
use raspberry_pi_3_jos.Mmu.{by2pg, page2pa}
use raspberry_pi_3_jos.Pmap.{Pmap}
use raspberry_pi_3_jos.Pmap.Tables.{IsPaged, IsTree}
use raspberry_pi_3_jos.Env.Load.{load_pages, zero_pages, pages_of, load_segment}
use raspberry_pi_3_jos.Env.Load.Segment.{Segment, empty-Segment, append-Segment, recast-Segment}
use raspberry_pi_3_jos.Env.Load.Step.{map_page-Segment, load_page-Segment}

-- The bytes of a segment in memory: those of the file, then zeros.
abbrev pub segment_bytes : (image : ℕ → ℕ) → (bin bin_size : ℕ) → ℕ → ℕ
segment_bytes image bin bin_size k = if ltb k bin_size then image (bin + k) % 256 else 0

page_bytes :
    (image : ℕ → ℕ) (bin bin_size i k : ℕ)
    → k < by2pg
    → (if ltb k (min by2pg (bin_size - i)) then image (bin + i + k) % 256 else 0)
      ≡ segment_bytes image bin bin_size (i + k)
page_bytes image bin bin_size i k h =
    let place : bin + i + k ≡ bin + (i + k) = omega arith in rw place (ground arith)

-- The two loops of a segment share its pages.
abbrev more_of : (bin_size sgsize : ℕ) → ℕ
more_of bin_size sgsize = pages_of (sgsize - pages_of bin_size * by2pg)

shared : (a b : ℕ) → pages_of a + more_of a b ≡ pages_of (max a b)
shared a b = omega arith

module _ (a b n : ℕ) where
  read_fits : 4 * pages_of (max a b) ≤ n → 4 * pages_of a ≤ n
  read_fits h = omega (arith, shared a b)

  read_few : pages_of (max a b) < n → pages_of a < n
  read_few h = omega (arith, shared a b)

  more_fits : (m : ℕ) → 4 * pages_of (max a b) ≤ n → n ≤ 4 * pages_of a + m → 4 * more_of a b ≤ m
  more_fits m h k = omega (arith, shared a b)

  more_few : pages_of (max a b) < n → more_of a b < n
  more_few h = omega (arith, shared a b)

load_segment-aligned :
    (image : ℕ → ℕ) (pgdir va sgsize bin bin_size : ℕ) (s : Pmap)
    → va % by2pg ≡ 0
    → load_segment image pgdir va sgsize bin bin_size s
      ≡ and_then (load_pages (pages_of bin_size) image pgdir va 0 bin bin_size 0 s) (λ _.
        zero_pages
          (pages_of (sgsize - pages_of bin_size * by2pg))
          pgdir
          va
          (pages_of bin_size * by2pg))
unfolding load_segment
load_segment-aligned image pgdir va sgsize bin bin_size s aligned =
    let start : va - 0 ≡ va = omega arith in rw (aligned, start) refl

module _ (p : ℕ) where
  load_pages-Segment :
      (rounds : ℕ) (image : ℕ → ℕ) (start bin bin_size i : ℕ) (s : Pmap) (level : ℕ → ℕ)
      (xs : List ℕ)
      → IsPaged s level xs
      → IsTree s.mem level
      → level p ≡ 1
      → 4 * rounds ≤ length xs
      → rounds < 2 ^ 26
      → (t : Pmap) × (load_pages rounds image (page2pa p) start 0 bin bin_size i s ≡ some (tt, t))
        × Segment s level xs 2 p
            (start + i)
            rounds
            (λ k. segment_bytes image bin bin_size (i + k))
            t
  unfolding load_pages
  load_pages-Segment zero image start bin bin_size i s level xs v tree top room few = (
    s,
    refl,
    empty-Segment s level xs 2 p (start + i) (λ k. segment_bytes image bin bin_size (i + k)) v tree,
  )
  load_pages-Segment (suc n) image start bin bin_size i s level [] v tree top room few =
      absurd (omega arith)
  load_pages-Segment (suc n) image start bin bin_size i s level (x ∷ xs) v tree top room few =
      let bytes : ℕ → ℕ = λ k. segment_bytes image bin bin_size (i + k) in
      let (t, runs, first) =
        load_page-Segment image (bin + i) (min by2pg (bin_size - i)) s level x xs p (start + i) v
          tree top (omega arith) (omega arith) in
      let a =
        recast-Segment first (start + i) bytes refl
          (λ k h. page_bytes image bin bin_size i k (omega arith)) in
      let (u, rest, later) =
        load_pages-Segment n image start bin bin_size (i + by2pg) t a.frame.levels a.frame.free
          a.frame.paged a.frame.tree (a.frame.keeps_level p (λ z. omega arith) ∙ top)
          (omega (arith, a.frame.used)) (omega arith) in
      let b =
        recast-Segment later (start + i + 1 * by2pg) (λ k. bytes (1 * by2pg + k)) (omega arith)
          (λ k h. ap (segment_bytes image bin bin_size) (omega arith)) in
      let count : 1 + n ≡ suc n = omega arith in
      (
        u,
        ap (λ r. and_then r (λ _. load_pages n image (page2pa p) start 0 bin bin_size (i + by2pg)))
              runs
            ∙ rest,
        subst (λ k. Segment s level (x ∷ xs) 2 p (start + i) k bytes u) count
            (append-Segment a b top (omega arith)),
      )

  zero_pages-Segment :
      (rounds start i : ℕ) (s : Pmap) (level : ℕ → ℕ) (xs : List ℕ)
      → IsPaged s level xs
      → IsTree s.mem level
      → level p ≡ 1
      → 4 * rounds ≤ length xs
      → rounds < 2 ^ 26
      → (t : Pmap) × (zero_pages rounds (page2pa p) start i s ≡ some (tt, t))
        × Segment s level xs 2 p (start + i) rounds (λ _. 0) t
  unfolding zero_pages
  zero_pages-Segment zero start i s level xs v tree top room few =
      (s, refl, empty-Segment s level xs 2 p (start + i) (λ _. 0) v tree)
  zero_pages-Segment (suc n) start i s level [] v tree top room few = absurd (omega arith)
  zero_pages-Segment (suc n) start i s level (x ∷ xs) v tree top room few =
      let (t, runs, a) = map_page-Segment s level x xs p (start + i) v tree top (omega arith) in
      let (u, rest, later) =
        zero_pages-Segment n start (i + by2pg) t a.frame.levels a.frame.free a.frame.paged
          a.frame.tree (a.frame.keeps_level p (λ z. omega arith) ∙ top)
          (omega (arith, a.frame.used)) (omega arith) in
      let b = recast-Segment later (start + i + 1 * by2pg) (λ _. 0) (omega arith) (λ k h. refl) in
      let count : 1 + n ≡ suc n = omega arith in
      (
        u,
        ap (λ r. and_then r (λ _. zero_pages n (page2pa p) start (i + by2pg))) runs ∙ rest,
        subst (λ k. Segment s level (x ∷ xs) 2 p (start + i) k (λ _. 0) u) count
            (append-Segment a b top (omega arith)),
      )

  -- A segment at a page boundary is mapped in as many new pages as its bytes in the file and its size
  -- in memory take: they hold the bytes of the file and zeros behind them.
  pub load_segment-Segment :
      (image : ℕ → ℕ) (va sgsize bin bin_size : ℕ) (s : Pmap) (level : ℕ → ℕ) (xs : List ℕ)
      → IsPaged s level xs
      → IsTree s.mem level
      → level p ≡ 1
      → va % by2pg ≡ 0
      → 4 * pages_of (max bin_size sgsize) ≤ length xs
      → pages_of (max bin_size sgsize) < 2 ^ 26
      → (t : Pmap) × (load_segment image (page2pa p) va sgsize bin bin_size s ≡ some (tt, t))
        × Segment s level xs 2 p va
            (pages_of (max bin_size sgsize))
            (segment_bytes image bin bin_size)
            t
  load_segment-Segment image va sgsize bin bin_size s level xs v tree top aligned room few =
      let bytes : ℕ → ℕ = segment_bytes image bin bin_size in
      let read = pages_of bin_size in
      let more = more_of bin_size sgsize in
      let (t, runs, first) =
        load_pages-Segment read image va bin bin_size 0 s level xs v tree top
          (read_fits bin_size sgsize (length xs) room) (read_few bin_size sgsize (2 ^ 26) few) in
      let start : va + 0 ≡ va = omega arith in
      let a : Segment s level xs 2 p va read bytes t =
        recast-Segment first va bytes start (λ k h. ap bytes (omega arith)) in
      let top' : a.frame.levels p ≡ 1 = a.frame.keeps_level p (λ z. omega arith) ∙ top in
      let (u, rest, later) =
        zero_pages-Segment more va (read * by2pg) t a.frame.levels a.frame.free a.frame.paged
          a.frame.tree top'
          (more_fits bin_size sgsize (length xs) (length a.frame.free) room a.frame.used)
          (more_few bin_size sgsize (2 ^ 26) few) in
      let b =
        recast-Segment later (va + read * by2pg) (λ k. bytes (read * by2pg + k)) refl
          (λ k h. ground arith) in
      (
        u,
        load_segment-aligned image (page2pa p) va sgsize bin bin_size s aligned
            ∙ ap (λ r. and_then r (λ _. zero_pages more (page2pa p) va (read * by2pg))) runs
            ∙ rest,
        subst (λ k. Segment s level xs 2 p va k bytes u) (shared bin_size sgsize)
            (append-Segment a b top (omega (arith, few, shared bin_size sgsize))),
      )
