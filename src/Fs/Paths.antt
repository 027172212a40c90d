-- ===== src/Fs/Paths.antt =====
-- Directories and paths: OS/user/fs.c from `dir_lookup` to `file_create`, and `file_remove`. A
-- string is the list of its characters without the NUL; a name in memory is read byte by byte.
pub mod Walks
use raspberry_pi_3_jos.Prelude.{
  ℕ, zero, suc, ◌+◌, ◌-◌, ◌*◌, ◌/◌, ◌%◌, ◌^◌, Bool, true, false, not, ◌&&◌, ◌||◌, Option, none,
  some, List, [], ◌∷◌, ◌==◌, ltb, leb, if◌then◌else◌, length,
}
use raspberry_pi_3_jos.Prelude.State.{
  Cmd, Result, ok, err, pure, panic, and_then, ◌>>=◌, ◌>>◌, get, modify,
}
use raspberry_pi_3_jos.Queue.{update}
use raspberry_pi_3_jos.Fs.{Fs, by2blk, poke}
use raspberry_pi_3_jos.Fs.Files.{
  e_not_found, f_size, f_type, f_dir, file_get_block, file_truncate, file_flush, flush_dir,
}

abbrev pub maxnamelen : ℕ
maxnamelen = 128

abbrev pub by2file : ℕ
by2file = 256

-- The entries of a directory block.
abbrev pub file2blk : ℕ
file2blk = by2blk / by2file

abbrev pub ftype_dir : ℕ
ftype_dir = 1

abbrev pub e_bad_path : ℕ
e_bad_path = 10

abbrev pub e_file_exists : ℕ
e_file_exists = 11

abbrev pub slash : ℕ
slash = 0x2f

-- A char of memory, the lowest byte of a u_int first, and its change.
pub byte : ℕ → Fs → ℕ
byte a s = s.words (a / 4 * 4) / 2 ^ (8 * (a % 4)) % 2 ^ 8

pub poke_byte : (a c : ℕ) → Fs → Fs
poke_byte a c s =
    let w = s.words (a / 4 * 4) in
    poke (a / 4 * 4) (w + c * 2 ^ (8 * (a % 4)) - byte a s * 2 ^ (8 * (a % 4))) s

-- `strcmp((char *)f->f_name, name) == 0`
unfoldable pub same_name : (a : ℕ) → List ℕ → Fs → Bool
same_name a [] s = byte a s == 0
same_name a (c ∷ cs) s = (byte a s == c) && same_name (a + 1) cs s

-- `strcpy` into memory.
pub copy_name : (a : ℕ) → List ℕ → Fs → Fs
copy_name a [] s = poke_byte a 0 s
copy_name a (c ∷ cs) s = copy_name (a + 1) cs (poke_byte a c s)

-- The entry of a directory block that has the name, over the entries left.
unfoldable pub find_entry : (rounds f : ℕ) → List ℕ → Fs → Option ℕ
find_entry zero f name s = none
find_entry (suc rounds) f name s =
    let later = find_entry rounds (f + by2file) name s in
    if same_name f name s then some f else later

-- `f[j].f_dir = dir`, a pointer of eight bytes.
pub set_dir : (f dir : ℕ) → Fs → Fs
set_dir f dir s = poke (f_dir f + 4) (dir / 2 ^ 32) (poke (f_dir f) (dir % 2 ^ 32) s)

-- The loop of `dir_lookup` over the blocks left.
pub lookup_blocks : (rounds dir : ℕ) → List ℕ → ℕ → Cmd Fs (Result ℕ)
lookup_blocks zero dir name i s = some (err e_not_found, s)
lookup_blocks (suc rounds) dir name i s =
    let rest = lookup_blocks rounds dir name (i + 1) in
    and_then (file_get_block dir i s) λ r t. elim r [
      | err code ↦ some (err code, t)
      | ok blk ↦ elim (find_entry file2blk blk name t) [
        | none ↦ rest t
        | some f ↦ some (ok f, set_dir f dir t)
      ]
    ]

pub dir_lookup : (dir : ℕ) → List ℕ → Cmd Fs (Result ℕ)
dir_lookup dir name s = lookup_blocks (s.words (f_size dir) / by2blk) dir name 0 s

-- The first entry without a name.
pub blank_entry : (rounds f : ℕ) → Fs → Option ℕ
blank_entry zero f s = none
blank_entry (suc rounds) f s =
    let later = blank_entry rounds (f + by2file) s in if byte f s == 0 then some f else later

-- `dir_alloc_file` over the blocks left; `i` ends as the number of the block that is added.
pub alloc_blocks : (rounds dir i : ℕ) → Cmd Fs (Result ℕ)
alloc_blocks zero dir i s =
    file_get_block dir i (poke (f_size dir) ((s.words (f_size dir) + by2blk) % 2 ^ 32) s)
alloc_blocks (suc rounds) dir i s =
    let rest = alloc_blocks rounds dir (i + 1) in
    and_then (file_get_block dir i s) λ r t. elim r [
      | err code ↦ some (err code, t)
      | ok blk ↦ elim (blank_entry file2blk blk t) [ none ↦ rest t | some f ↦ some (ok f, t) ]
    ]

pub dir_alloc_file : ℕ → Cmd Fs (Result ℕ)
dir_alloc_file dir s = alloc_blocks (s.words (f_size dir) / by2blk) dir 0 s

unfoldable pub skip_slash : List ℕ → List ℕ
skip_slash [] = []
skip_slash (c ∷ cs) = if c == slash then skip_slash cs else c ∷ cs

-- The characters up to the next slash, and what follows them.
unfoldable pub first_name : List ℕ → List ℕ × List ℕ
first_name [] = ([], [])
first_name (c ∷ cs) =
    if c == slash then ([], c ∷ cs) else (c ∷ (first_name cs).0, (first_name cs).1)

-- How a walk ends: at a file in a directory (0 for the root's), before a last element that its
-- directory does not have, or with a code and `*pdir` left at 0.
pub data Walk : Type 0 where
  found : (dir file : ℕ) → Walk
  missing : (dir : ℕ) → (lastelem : List ℕ) → Walk
  failed : ℕ → Walk

-- `if (r == -E_NOT_FOUND && *path == '\0')`
pub lookup_failed : (code : ℕ) → (path : List ℕ) → (dir : ℕ) → (name : List ℕ) → Walk
lookup_failed code [] dir name = if code == e_not_found then missing dir name else failed code
lookup_failed code (c ∷ cs) dir name = failed code

-- The loop of `walk_path`, on fuel; a round takes at least one character.
unfoldable pub walk_names : (fuel : ℕ) → (path : List ℕ) → (dir file : ℕ) → Cmd Fs Walk
walk_names fuel [] dir file s = some (found dir file, s)
walk_names zero (c ∷ cs) dir file s = none
walk_names (suc fuel) (c ∷ cs) dir file s =
    let name = (first_name (c ∷ cs)).0 in
    let path = skip_slash (first_name (c ∷ cs)).1 in
    let rest = walk_names fuel path file in
    if leb maxnamelen (length name)
    then some (failed e_bad_path, s)
    else if not (s.words (f_type file) == ftype_dir)
    then some (failed e_not_found, s)
    else and_then (dir_lookup file name s) λ r t. elim r [
      | err code ↦ some (lookup_failed code path file name, t)
      | ok next ↦ rest next t
    ]

-- `&super->s_root`
abbrev pub s_root : Fs → ℕ
s_root s = s.super + 8

unfoldable pub walk_path : List ℕ → Cmd Fs Walk
walk_path path s = walk_names (length path) (skip_slash path) 0 (s_root s) s

pub file_open : List ℕ → Cmd Fs (Result ℕ)
file_open path = do
  w ← walk_path path
  elim w [
    | found dir file ↦ pure (ok file)
    | missing dir lastelem ↦ pure (err e_not_found)
    | failed code ↦ pure (err code)
  ]

-- Where no entry can be made, the code of the walk is returned.
pub create_entry : (dir : ℕ) → (name : List ℕ) → Cmd Fs (Result ℕ)
create_entry dir name = do
  r ← dir_alloc_file dir
  elim r [ err _ ↦ pure (err e_not_found) | ok f ↦ (do modify (copy_name f name); pure (ok f)) ]

pub file_create : List ℕ → Cmd Fs (Result ℕ)
file_create path = do
  w ← walk_path path
  elim w [
    | found dir file ↦ pure (err e_file_exists)
    | missing dir lastelem ↦ create_entry dir lastelem
    | failed code ↦ pure (err code)
  ]

pub file_remove : List ℕ → Cmd Fs (Result (Unit {0}))
file_remove path = do
  r ← file_open path
  elim r [
    | err code ↦ pure (err code)
    | ok f ↦ (do file_truncate f 0; modify (poke_byte f 0); file_flush f; flush_dir f; pure (ok tt))
  ]
