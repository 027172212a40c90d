-- ===== src/Fs.antt =====
-- Blocks of the file system server: OS/user/fs.c up to `fs_init`, with OS/user/filesystem.h.
-- The server reads and writes u_ints at user addresses, multiples of four; `mapped` says at which
-- pages its table has an entry, and `disk` holds the u_ints of the SD card. `writef` is left out.
pub mod Bitmap
pub mod Files
pub mod Paths
use raspberry_pi_3_jos.Prelude.{
  ℕ, zero, suc, ◌+◌, ◌-◌, ◌*◌, ◌/◌, ◌%◌, ◌^◌, Bool, true, false, not, ◌&&◌, ◌||◌, Option, none,
  some, bit_and, bit_or, bit_xor, ◌==◌, ltb, leb, if◌then◌else◌,
}
use raspberry_pi_3_jos.Prelude.State.{
  Cmd, Result, ok, err, pure, panic, and_then, ◌>>=◌, ◌>>◌, get, modify,
}
use raspberry_pi_3_jos.Queue.{update}

abbrev pub by2blk : ℕ
by2blk = 4096

abbrev pub bit2blk : ℕ
bit2blk = by2blk * 8

abbrev pub sect2blk : ℕ
sect2blk = 8

abbrev pub diskmap : ℕ
diskmap = 0xb000_0000

abbrev pub diskmax : ℕ
diskmax = 0xf000_0000

abbrev pub fs_magic : ℕ
fs_magic = 0x6828_6097

abbrev pub e_no_disk : ℕ
e_no_disk = 7

pub record Fs : Type 0 where
  pub words : ℕ → ℕ
  pub mapped : ℕ → Bool
  pub disk : ℕ → ℕ
  -- The pointers `super` and `bitmap`, 0 for NULL, and the number of blocks of the bitmap.
  pub super : ℕ
  pub bitmap : ℕ
  pub nbitmap : ℕ

-- `*addr = value`
abbrev pub poke : ℕ → ℕ → Fs → Fs
poke addr value s = record s { words = update s.words addr value }

abbrev pub s_nblocks : Fs → ℕ
s_nblocks s = s.words (s.super + 4)

abbrev pub page_of : ℕ → ℕ
page_of va = va / by2blk * by2blk

-- The page at `va` holds `contents`.
pub fill : ℕ → (ℕ → ℕ) → Fs → Fs
fill va contents s = record s {
  words = λ a. if page_of a == page_of va then contents (a - page_of va) else s.words a;
  mapped = update s.mapped (page_of va) true;
}

-- The system calls as their caller sees them: a page of zeroes, a page read from the card, where
-- the image of the file system begins at sector 54000, and a page that is mapped no more.
abbrev pub mem_alloc : ℕ → Cmd Fs (Result (Unit {0}))
mem_alloc va s = if ltb 0xffff_ffff va then some (err 1, s) else some (ok tt, fill va (λ _. 0) s)

abbrev pub emmc_read : ℕ → ℕ → Fs → Fs
emmc_read sector va s = fill va (λ offset. s.disk ((54000 + sector) * 128 + offset / 4)) s

abbrev pub mem_unmap : ℕ → Fs → Fs
mem_unmap va s = record s { mapped = update s.mapped (page_of va) false }

pub diskaddr : ℕ → Cmd Fs ℕ
diskaddr blockno s =
    if not (s.super == 0) && leb (s_nblocks s) blockno
    then panic s
    else some ((diskmap + blockno * by2blk) % 2 ^ 32, s)

pub va_is_mapped : ℕ → Fs → Bool
va_is_mapped va s = s.mapped (page_of va)

-- The address, or 0.
pub block_is_mapped : ℕ → Cmd Fs ℕ
block_is_mapped blockno = do
  va ← diskaddr blockno
  s ← get
  pure (if va_is_mapped va s then va else 0)

-- `va_is_dirty` is always 0.
pub block_is_dirty : ℕ → Cmd Fs Bool
block_is_dirty blockno = do va ← diskaddr blockno; s ← get; pure (va_is_mapped va s && false)

pub map_block : ℕ → Cmd Fs (Result (Unit {0}))
map_block blockno = do
  there ← block_is_mapped blockno
  if not (there == 0) then pure (ok tt) else do va ← diskaddr blockno; mem_alloc va

-- `1 << (blockno % 32)`, and its place.
abbrev pub flag : ℕ → ℕ
flag blockno = 2 ^ (blockno % 32)

abbrev pub place : ℕ → Fs → ℕ
place blockno s = s.bitmap + 4 * (blockno / 32)

abbrev pub marked : ℕ → Fs → Bool
marked blockno s = not (bit_and (s.words (place blockno s)) (flag blockno) == 0)

unfoldable pub block_is_free : ℕ → Fs → Bool
block_is_free blockno s =
    if s.super == 0 || leb (s_nblocks s) blockno then false else marked blockno s

unfoldable pub free_block : ℕ → Cmd Fs (Unit {0})
free_block blockno s =
    if blockno == 0
    then panic s
    else some (tt, poke (place blockno s) (bit_or (s.words (place blockno s)) (flag blockno)) s)

-- The warning about a dirty block is a message, and no block is ever dirty.
pub unmap_block : ℕ → Cmd Fs (Unit {0})
unmap_block blockno = do
  there ← block_is_mapped blockno
  if there == 0 then pure tt else do
    block_is_dirty blockno
    va ← diskaddr blockno
    modify (mem_unmap va)
    still ← block_is_mapped blockno
    if still == 0 then pure tt else panic

-- `*blk`: every caller drops `*isnew`.
pub read_block : ℕ → Cmd Fs ℕ
read_block blockno s =
    if not (s.super == 0) && leb (s_nblocks s) blockno
    then panic s
    else if not (s.bitmap == 0) && block_is_free blockno s
    then panic s
    else (do
      va ← diskaddr blockno
      there ← block_is_mapped blockno
      modify (λ t. if there == 0 then emmc_read (blockno * sect2blk) va t else t)
      pure va)
        s

-- `write_block` returns at once: writing is not supported.
pub write_block : ℕ → Cmd Fs (Unit {0})
write_block blockno = pure tt

-- `bitmap[blockno / 32] &= ~(1 << (blockno % 32))`; `~` takes a u_int from 2 ^ 32 - 1.
unfoldable pub claim_block : ℕ → Fs → Fs
claim_block blockno s =
    poke (place blockno s) (bit_and (s.words (place blockno s)) (2 ^ 32 - 1 - flag blockno)) s

-- The loop of `alloc_block_num`, over the rounds left.
unfoldable pub search_block : ℕ → ℕ → Cmd Fs (Result ℕ)
search_block zero blockno s = some (err e_no_disk, s)
search_block (suc rounds) blockno s =
    let later = search_block rounds (blockno + 1) s in
    if marked blockno s then some (ok blockno, claim_block blockno s) else later

unfoldable pub alloc_block_num : Cmd Fs (Result ℕ)
alloc_block_num s = search_block (s_nblocks s - 3) 3 s

pub alloc_block : Cmd Fs (Result ℕ)
alloc_block = do
  r ← alloc_block_num
  elim r [
    | err code ↦ pure (err code)
    | ok bno ↦ (do
      m ← map_block bno
      elim m [ ok _ ↦ pure (ok bno) | err code ↦ (do free_block bno; pure (err code)) ])
  ]

pub read_super : Cmd Fs (Unit {0})
read_super = do
  blk ← read_block 1
  modify (λ s. record s { super = blk })
  s ← get
  if not (s.words s.super == fs_magic) || ltb (diskmax / by2blk) (s_nblocks s)
      then panic
      else pure tt

-- `for (i = 0; i < nbitmap; i++) read_block(i + 2, &blk, 0)`, over the rounds left.
read_blocks : ℕ → ℕ → Cmd Fs (Unit {0})
read_blocks zero i s = some (tt, s)
read_blocks (suc rounds) i s =
    let rest = read_blocks rounds (i + 1) in and_then (read_block (i + 2) s) (λ _. rest)

-- The assertions that the blocks from `i` on are in use.
assert_used : ℕ → ℕ → Cmd Fs (Unit {0})
assert_used zero i s = some (tt, s)
assert_used (suc rounds) i s =
    let rest = assert_used rounds (i + 1) s in if block_is_free i s then panic s else rest

-- The blocks 0 and 1 are asserted first, then those of the bitmap.
pub read_bitmap : Cmd Fs (Unit {0})
unfolding read_blocks assert_used
read_bitmap = do
  modify (λ s. record s { nbitmap = s_nblocks s / bit2blk + 1 })
  s ← get
  read_blocks s.nbitmap 0
  va ← diskaddr 2
  modify (λ t. record t { bitmap = va })
  assert_used 2 0
  assert_used s.nbitmap 2

pub fs_init : Cmd Fs (Unit {0})
fs_init = read_super >> read_bitmap
