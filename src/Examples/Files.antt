-- ===== src/Examples/Files.antt =====
-- A small disk: 40 blocks, the bitmap in block 2, of which the blocks 5 and 33 are flagged, and a
-- file whose first block is number 7.
use raspberry_pi_3_jos.Prelude.{
  ℕ, ◌+◌, ◌*◌, ◌≤◌, ◌<◌, ◌≡◌, refl, ◌≢◌, ◌⊎◌, true, false, none, some, List, [], ◌∷◌, arith, ◌==◌,
  if◌then◌else◌,
}
use raspberry_pi_3_jos.Prelude.State.{ok, err}
use raspberry_pi_3_jos.Fs.{Fs, e_no_disk, poke, s_nblocks, marked, alloc_block_num}
use raspberry_pi_3_jos.Fs.Bitmap.{alloc_block_num_lem}
use raspberry_pi_3_jos.Fs.Files.{
  f_size, f_direct, f_indirect, file_map_block, file_truncate, blocks_of,
}
use raspberry_pi_3_jos.Fs.Files.Map.{IsMounted, file_map_block-again, file_truncate_leaks}
use raspberry_pi_3_jos.Fs.Paths.{by2file, slash, same_name, find_entry, walk_names}
use raspberry_pi_3_jos.Fs.Paths.Walks.{walk_names_fuel, find_entry_lem}

abbrev file : ℕ
file = 0xb000_4000

abbrev memory : ℕ → ℕ
memory a =
    if a == 0xb000_1004
    then 40
    else if a == 0xb000_2000
    then 32
    else if a == 0xb000_2004
    then 2
    else if a == file + 128
    then 50000
    else if a == file + 136
    then 7
    else 0

abbrev pub small : Fs
small = record {
  words = memory;
  mapped = λ _. true;
  disk = λ _. 0;
  super = 0xb000_1000;
  bitmap = 0xb000_2000;
  nbitmap = 1;
}

small-IsMounted : IsMounted small
small-IsMounted = record {
  there = λ e. omega arith;
  room = omega arith;
  apart = λ b h e. omega arith;
}

alloc_block_num_example :
    ((b : ℕ) × (t : Fs) × (alloc_block_num small ≡ some (ok b, t))
      × (3 ≤ b)
      × (b < s_nblocks small)
      × (marked b small ≡ true)
      × ((c : ℕ) → 3 ≤ c → c < b → marked c small ≡ false)
      × (marked b t ≡ false)
      × ((c : ℕ) → c ≢ b → marked c t ≡ marked c small))
    ⊎ ((alloc_block_num small ≡ some (err e_no_disk, small))
        × ((c : ℕ) → 3 ≤ c → c < s_nblocks small → marked c small ≡ false))
alloc_block_num_example = alloc_block_num_lem small (omega arith)

file_map_block_example :
    ((b : ℕ) × (t : Fs) × (file_map_block file 1 true small ≡ some (ok b, t))
      × (b ≢ 0)
      × (file_map_block file 1 false t ≡ some (ok b, t)))
    ⊎ (file_map_block file 1 true small ≡ some (err e_no_disk, small))
      × (small.words (f_direct file 1) ≡ 0)
      × ((c : ℕ) → 3 ≤ c → c < s_nblocks small → marked c small ≡ false)
file_map_block_example = file_map_block-again small file 1 small-IsMounted (omega arith)

file_truncate_example :
    file_truncate file 40000 small
    ≡ some (tt, poke (f_size file) 40000 (poke (f_indirect file) 0 small))
file_truncate_example =
    file_truncate_leaks small file 40000 (unfold blocks_of in refl) (omega arith)

-- "ab/c"
abbrev path : List ℕ
path = 97 ∷ 98 ∷ slash ∷ 99 ∷ []

walk_names_example : walk_names 4 path 0 file small ≡ walk_names 9 path 0 file small
walk_names_example = walk_names_fuel 4 9 path 0 file small (omega arith) (omega arith)

find_entry_example :
    ((j : ℕ) × (find_entry 16 file path small ≡ some (file + j * by2file))
      × (j < 16)
      × (same_name (file + j * by2file) path small ≡ true)
      × ((i : ℕ) → i < j → same_name (file + i * by2file) path small ≡ false))
    ⊎ (find_entry 16 file path small ≡ none)
      × ((i : ℕ) → i < 16 → same_name (file + i * by2file) path small ≡ false)
find_entry_example = find_entry_lem 16 file path small
