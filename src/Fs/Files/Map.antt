-- ===== src/Fs/Files/Map.antt =====
-- Which disk block stands behind a block of a file.
use raspberry_pi_3_jos.Prelude.{
  ℕ, zero, suc, ◌+◌, ◌-◌, ◌*◌, ◌/◌, ◌%◌, ◌^◌, ◌≤◌, ◌<◌, ◌≡◌, refl, ap, ◌∙◌, ◌≢◌, ◌⊎◌, inl, inr,
  Bool, true, false, not, some, arith, ◌==◌, ltb, leb, if◌then◌else◌, Bool-cases,
}
use raspberry_pi_3_jos.Prelude.State.{ok, err}
use raspberry_pi_3_jos.Fs.{
  Fs, fill, mem_alloc, e_no_disk, poke, s_nblocks, place, marked, claim_block, diskaddr,
  block_is_mapped, map_block, va_is_mapped, alloc_block, diskmap, by2blk,
}
use raspberry_pi_3_jos.Fs.Bitmap.{alloc_block_num-Search}
use raspberry_pi_3_jos.Fs.Files.{
  ndirect, nindirect, f_size, f_direct, f_indirect, enter_indirect, file_block_walk, map_entry,
  file_map_block, file_clear_block, clear_blocks, blocks_of, file_truncate,
}

-- The server has read the superblock, and the bitmap does not overlap the number of blocks.
pub record IsMounted (s : Fs) : Type 0 where
  pub there : s.super ≢ 0
  pub room : 3 ≤ s_nblocks s
  pub apart : (b : ℕ) → b < s_nblocks s → place b s ≢ s.super + 4

abbrev block_va : ℕ → ℕ
block_va b = (diskmap + b * by2blk) % 2 ^ 32

diskaddr-below : (s : Fs) (b : ℕ) → b < s_nblocks s → diskaddr b s ≡ some (block_va b, s)
unfolding diskaddr
diskaddr-below s b h =
    let below : leb (s_nblocks s) b ≡ false = ground arith in ground (arith, below)

mem_alloc-block_va :
    (s : Fs) (b : ℕ) → mem_alloc (block_va b) s ≡ some (ok tt, fill (block_va b) (λ _. 0) s)
mem_alloc-block_va s b = ground arith

map_block_runs : (s : Fs) (b : ℕ) → b < s_nblocks s → (t : Fs) × (map_block b s ≡ some (ok tt, t))
unfolding map_block block_is_mapped
map_block_runs s b h =
    elim (Bool-cases (not ((if va_is_mapped (block_va b) s then block_va b else 0) == 0))) [
      | inl e ↦ (s, rw (diskaddr-below s b h, e) refl)
      | inr e ↦ (
        fill (block_va b) (λ _. 0) s,
        rw (diskaddr-below s b h, e, diskaddr-below s b h) (mem_alloc-block_va s b),
      )
    ]

claim_block-nblocks :
    (s : Fs) (b : ℕ) → IsMounted s → b < s_nblocks s → s_nblocks (claim_block b s) ≡ s_nblocks s
unfolding claim_block
claim_block-nblocks s b m h = ground (arith, m.apart b h)

-- `alloc_block` returns: a block that was flagged, or -E_NO_DISK with nothing changed.
pub alloc_block_lem :
    (s : Fs)
    → IsMounted s
    → ((b : ℕ) × (t : Fs) × (alloc_block s ≡ some (ok b, t))
        × (3 ≤ b)
        × (b < s_nblocks s)
        × (marked b s ≡ true))
      ⊎ (alloc_block s ≡ some (err e_no_disk, s))
        × ((c : ℕ) → 3 ≤ c → c < s_nblocks s → marked c s ≡ false)
unfolding alloc_block
alloc_block_lem s m = elim (alloc_block_num-Search s m.room) [
  | inl (b, runs, lo, hi, free, before) ↦
      let bound : b < s_nblocks (claim_block b s) =
        omega (arith, claim_block-nblocks s b m (omega arith), m.room) in
      let (t, maps) = map_block_runs (claim_block b s) b bound in
      inl (b, t, rw (runs, maps) refl, lo, omega (arith, m.room), free)
  | inr (runs, full) ↦ inr (rw runs refl, λ c lo hi. full c lo (omega (arith, m.room)))
]

map_entry-set :
    (s : Fs) (alloc : Bool) (ptr : ℕ)
    → s.words ptr ≢ 0
    → map_entry alloc ptr s ≡ some (ok (s.words ptr), s)
unfolding map_entry
map_entry-set s alloc ptr h =
    let set_already : (s.words ptr == 0) ≡ false = ground arith in rw set_already

direct_walk :
    (s : Fs) (f n : ℕ) (alloc : Bool)
    → n < ndirect
    → file_map_block f n alloc s ≡ map_entry alloc (f_direct f n) s
unfolding file_map_block file_block_walk
direct_walk s f n alloc h = let small : ltb n ndirect ≡ true = ground arith in rw small

-- For a block of a file that has its number in `f_direct`, `file_map_block` that may allocate
-- returns: a block that a second call, which may not allocate, finds again without a change; or
-- -E_NO_DISK where the file has no block there and no block of the disk is flagged.
pub file_map_block-again :
    (s : Fs) (f n : ℕ)
    → IsMounted s
    → n < ndirect
    → ((b : ℕ) × (t : Fs) × (file_map_block f n true s ≡ some (ok b, t))
        × (b ≢ 0)
        × (file_map_block f n false t ≡ some (ok b, t)))
      ⊎ (file_map_block f n true s ≡ some (err e_no_disk, s))
        × (s.words (f_direct f n) ≡ 0)
        × ((c : ℕ) → 3 ≤ c → c < s_nblocks s → marked c s ≡ false)
file_map_block-again s f n m h =
    let ptr = f_direct f n in
    elim (Bool-cases (s.words ptr == 0)) [
      | inl e ↦ elim (alloc_block_lem s m) [
        | inl (b, t, runs, lo, hi, free) ↦
            let u = poke ptr b t in
            let here : u.words ptr ≡ b = ground arith in
            inl (
              b,
              u,
              direct_walk s f n true h ∙ (unfold map_entry in rw (e, runs) refl),
              (λ z. omega arith),
              direct_walk u f n false h
                  ∙ map_entry-set u false ptr (λ z. omega (arith, here))
                  ∙ ap (λ (c : ℕ). some (ok c, u)) here,
            )
        | inr (runs, full) ↦
            inr (
              direct_walk s f n true h ∙ (unfold map_entry in rw (e, runs) refl),
              ground arith,
              full,
            )
      ]
      | inr e ↦
          let nonzero : s.words ptr ≢ 0 = ground arith in
          inl (
            s.words ptr,
            s,
            direct_walk s f n true h ∙ map_entry-set s true ptr nonzero,
            nonzero,
            direct_walk s f n false h ∙ map_entry-set s false ptr nonzero,
          )
    ]

-- Without its indirect block a file has no block from 10 on.
clear_blocks-no_indirect :
    (rounds : ℕ) (s : Fs) (f bno : ℕ)
    → s.words (f_indirect f) ≡ 0
    → ndirect ≤ bno
    → bno + rounds ≤ nindirect
    → clear_blocks rounds f bno s ≡ some (tt, s)
unfolding clear_blocks file_clear_block file_block_walk enter_indirect
clear_blocks-no_indirect zero s f bno gone lo hi = refl
clear_blocks-no_indirect (suc rounds) s f bno gone lo hi =
    let direct : ltb bno ndirect ≡ false = ground arith in
    let indirect : ltb bno nindirect ≡ true = ground arith in
    let none_there : (s.words (f_indirect f) == 0) ≡ true = ground arith in
    rw (direct, indirect, none_there)
      (clear_blocks-no_indirect rounds s f (bno + 1) gone (omega arith) (omega arith))

-- A file of at most 1024 blocks that is cut to ten blocks loses its indirect block and its new size
-- is stored, and nothing else changes: no block that it gives up is freed.
pub file_truncate_leaks :
    (s : Fs) (f newsize : ℕ)
    → blocks_of newsize ≡ ndirect
    → s.words (f_size f) / by2blk + 1 ≤ nindirect
    → file_truncate f newsize s ≡ some (tt, poke (f_size f) newsize (poke (f_indirect f) 0 s))
unfolding file_truncate
file_truncate_leaks s f newsize ten small =
    let cut = poke (f_indirect f) 0 s in
    let old = s.words (f_size f) / by2blk + 1 in
    rw
      (
        ten,
        clear_blocks-no_indirect (old - ndirect) cut f ndirect (ground arith) (omega arith)
            (omega arith),
      )
      refl
