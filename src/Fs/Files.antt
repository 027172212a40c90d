-- ===== src/Fs/Files.antt =====
-- The blocks of a file: OS/user/fs.c from `file_block_walk` to `file_dirty`, and from
-- `file_truncate` to `file_close`. A `struct File *` is its address; the fields stand at the
-- offsets that OS/user/filesystem.h gives them.
pub mod Map
use raspberry_pi_3_jos.Prelude.{
  ℕ, zero, suc, ◌+◌, ◌-◌, ◌*◌, ◌/◌, ◌%◌, ◌^◌, Bool, true, false, not, ◌&&◌, ◌||◌, Option, none,
  some, ◌==◌, ltb, leb, if◌then◌else◌,
}
use raspberry_pi_3_jos.Prelude.State.{
  Cmd, Result, ok, err, pure, panic, and_then, ◌>>=◌, ◌>>◌, get, modify,
}
use raspberry_pi_3_jos.Queue.{update}
use raspberry_pi_3_jos.Fs.{
  Fs, by2blk, poke, s_nblocks, block_is_dirty, free_block, read_block, write_block, alloc_block,
}

abbrev pub ndirect : ℕ
ndirect = 10

abbrev pub nindirect : ℕ
nindirect = by2blk / 4

abbrev pub e_inval : ℕ
e_inval = 3

abbrev pub e_not_found : ℕ
e_not_found = 9

-- The addresses of the fields of `struct File`; `f_dir` is aligned to eight bytes.
abbrev pub f_size : ℕ → ℕ
f_size f = f + 128

abbrev pub f_type : ℕ → ℕ
f_type f = f + 132

abbrev pub f_direct : ℕ → ℕ → ℕ
f_direct f i = f + 136 + 4 * i

abbrev pub f_indirect : ℕ → ℕ
f_indirect f = f + 176

abbrev pub f_dir : ℕ → ℕ
f_dir f = f + 184

-- `if (f->f_indirect == 0) { ... }`
pub enter_indirect : (f : ℕ) → Bool → Cmd Fs (Result (Unit {0}))
enter_indirect f alloc s =
    if not (s.words (f_indirect f) == 0)
    then some (ok tt, s)
    else if not alloc
    then some (err e_not_found, s)
    else (do
      r ← alloc_block
      elim r [
        | err code ↦ pure (err code)
        | ok b ↦ (do modify (poke (f_indirect f) b); pure (ok tt))
      ])
        s

-- `*ppdiskbno`: the address of the block number.
pub file_block_walk : (f filebno : ℕ) → Bool → Cmd Fs (Result ℕ)
file_block_walk f filebno alloc =
    if ltb filebno ndirect
    then pure (ok (f_direct f filebno))
    else if ltb filebno nindirect
    then (do
      r ← enter_indirect f alloc
      elim r [
        | err code ↦ pure (err code)
        | ok _ ↦ (do
          s ← get
          blk ← read_block (s.words (f_indirect f))
          pure (ok (blk + 4 * filebno)))
      ])
    else pure (err e_inval)

-- What `file_map_block` does with the address of the block number.
pub map_entry : Bool → (ptr : ℕ) → Cmd Fs (Result ℕ)
map_entry alloc ptr s =
    if not (s.words ptr == 0)
    then some (ok (s.words ptr), s)
    else if not alloc
    then some (err e_not_found, s)
    else (do
      r ← alloc_block
      elim r [ err code ↦ pure (err code) | ok b ↦ (do modify (poke ptr b); pure (ok b)) ])
        s

-- `*diskbno`
pub file_map_block : (f filebno : ℕ) → Bool → Cmd Fs (Result ℕ)
file_map_block f filebno alloc = do
  r ← file_block_walk f filebno alloc
  elim r [ err code ↦ pure (err code) | ok ptr ↦ map_entry alloc ptr ]

-- `if (*ptr) { free_block(*ptr); *ptr = 0; }`
pub clear_entry : (ptr : ℕ) → Cmd Fs (Result (Unit {0}))
clear_entry ptr = do
  s ← get
  if s.words ptr == 0
      then pure (ok tt)
      else do free_block (s.words ptr); modify (poke ptr 0); pure (ok tt)

pub file_clear_block : (f filebno : ℕ) → Cmd Fs (Result (Unit {0}))
file_clear_block f filebno = do
  r ← file_block_walk f filebno false
  elim r [ err code ↦ pure (err code) | ok ptr ↦ clear_entry ptr ]

-- `*blk`
pub file_get_block : (f filebno : ℕ) → Cmd Fs (Result ℕ)
file_get_block f filebno = do
  r ← file_map_block f filebno true
  elim r [ err code ↦ pure (err code) | ok diskbno ↦ (do blk ← read_block diskbno; pure (ok blk)) ]

-- The byte that is written is the one that stands there.
pub file_dirty : (f offset : ℕ) → Cmd Fs (Result (Unit {0}))
file_dirty f offset = do
  r ← file_get_block f (offset / by2blk)
  elim r [ err code ↦ pure (err code) | ok _ ↦ pure (ok tt) ]

-- `for (bno = new_nblocks; bno < old_nblocks; bno++) file_clear_block(f, bno)`, over the rounds left.
pub clear_blocks : (rounds f bno : ℕ) → Cmd Fs (Unit {0})
clear_blocks zero f bno s = some (tt, s)
clear_blocks (suc rounds) f bno s =
    let rest = clear_blocks rounds f (bno + 1) in and_then (file_clear_block f bno s) (λ _. rest)

-- The number of blocks that a size takes for `file_truncate`.
unfoldable pub blocks_of : ℕ → ℕ
blocks_of newsize = if newsize == 0 then 0 else newsize / by2blk + 1

pub file_truncate : (f newsize : ℕ) → Cmd Fs (Unit {0})
file_truncate f newsize = do
  s ← get
  let old = s.words (f_size f) / by2blk + 1
  let kept = blocks_of newsize
  modify (λ t. if leb kept ndirect then poke (f_indirect f) 0 t else t)
  clear_blocks (old - kept) f kept
  modify (poke (f_size f) newsize)

-- The rounds of `file_flush`: a block that is not mapped is passed over.
pub flush_blocks : (rounds f bno : ℕ) → Cmd Fs (Unit {0})
flush_blocks zero f bno s = some (tt, s)
flush_blocks (suc rounds) f bno s =
    let rest = flush_blocks rounds f (bno + 1) in
    and_then (file_map_block f bno false s) λ r t. elim r [
      | err _ ↦ rest t
      | ok diskno ↦
          and_then (block_is_dirty diskno t)
            λ dirty u. and_then ((if dirty then write_block diskno else pure tt) u) (λ _. rest)
    ]

pub file_flush : ℕ → Cmd Fs (Unit {0})
file_flush f s = flush_blocks (s.words (f_size f) / by2blk + 1) f 0 s

-- `if (f->f_dir) file_flush(f->f_dir)`, for an address below 2 ^ 64.
pub flush_dir : ℕ → Cmd Fs (Unit {0})
flush_dir f s =
    let dir = s.words (f_dir f) + s.words (f_dir f + 4) * 2 ^ 32 in
    if dir == 0 then some (tt, s) else file_flush dir s

pub file_set_size : (f newsize : ℕ) → Cmd Fs (Result (Unit {0}))
file_set_size f newsize = do
  s ← get
  if ltb newsize (s.words (f_size f)) then file_truncate f newsize else pure tt
  modify (poke (f_size f) newsize)
  flush_dir f
  pure (ok tt)

pub file_close : ℕ → Cmd Fs (Unit {0})
file_close f = do file_flush f; flush_dir f

-- `for (i = 0; i < super->s_nblocks; i++)`, over the rounds left.
pub sync_blocks : (rounds i : ℕ) → Cmd Fs (Unit {0})
sync_blocks zero i s = some (tt, s)
sync_blocks (suc rounds) i s =
    let rest = sync_blocks rounds (i + 1) in
    and_then (block_is_dirty i s)
      λ dirty t. and_then ((if dirty then write_block i else pure tt) t) (λ _. rest)

pub fs_sync : Cmd Fs (Unit {0})
fs_sync s = sync_blocks (s_nblocks s) 0 s
