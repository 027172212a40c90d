-- ===== src/Pmap.antt =====
-- Physical pages and page tables: OS/mm/pmap.c.
-- Memory is read and written in u_longs through the kernel's addresses (`KADDR`); the page list
-- and the table `pages` stand beside it. `printf`, `tlb_invalidate` and the waits by `usleep` do
-- not change this state and are left out.
pub mod Alloc
pub mod Tables
pub mod Grown
pub mod Enter
pub mod Walk
pub mod Leaf
pub mod Insert
pub mod Maps
pub mod Absent
pub mod Root
pub mod Same
pub mod Bytes
pub mod Remove
use raspberry_pi_3_jos.Prelude.{
  ℕ, zero, suc, ◌+◌, ◌-◌, ◌*◌, ◌/◌, ◌%◌, ◌^◌, Bool, true, false, not, Option, none, some, bit_or,
  ◌==◌, ltb, if◌then◌else◌,
}
use raspberry_pi_3_jos.Prelude.State.{Cmd, pure, panic, and_then, ◌>>=◌, ◌>>◌, get, modify}
use raspberry_pi_3_jos.Queue.{Queue, update, list_init, list_first, list_insert_head, list_remove}
use raspberry_pi_3_jos.Mmu.{
  by2pg, npage, pte_v, attrindx_normal, attrib_sh_inner_shareable, af, pgx, pdx, pmx, ptx, pte_addr,
  kaddr, is_valid, page2pa, page2kva, pa2page,
}

pub record Pmap : Type 0 where
  pub mem : ℕ → ℕ
  pub pp_ref : ℕ → ℕ
  pub page_free_list : Queue

-- `for (i = used_index; i < MAXPA / BY2PG; i++) LIST_INSERT_HEAD(...)`, over the rounds left.
insert_pages : ℕ → ℕ → Queue → Queue
insert_pages zero i q = q
insert_pages (suc rounds) i q = insert_pages rounds (i + 1) (list_insert_head i q)

-- VPN(ROUND(KTOP, BY2PG)): the kernel ends at the physical address 0x02000000.
abbrev pub used_index : ℕ
used_index = 0x2000

-- The pages in use are counted once; the others keep their count, 0 in a fresh table.
pub page_init : Pmap → Pmap
unfolding insert_pages
page_init s = record s {
  pp_ref = λ i. if ltb i used_index then 1 else s.pp_ref i;
  page_free_list = insert_pages (npage - used_index) used_index (list_init s.page_free_list);
}

-- `bzero` on whole words, as for every page: its loop over single bytes has no round then.
bzero_words : ℕ → ℕ → (ℕ → ℕ) → ℕ → ℕ
bzero_words zero b mem = mem
bzero_words (suc n) b mem = bzero_words n (b + 8) (update mem b 0)

pub bzero : ℕ → ℕ → (ℕ → ℕ) → ℕ → ℕ
unfolding bzero_words
bzero b len = bzero_words (len / 8) b

-- Byte `k` of a u_long, and the u_long with another byte `k`: the processor is little-endian.
unfoldable pub lane : (k w : ℕ) → ℕ
lane zero w = w % 256
lane (suc k) w = lane k (w / 256)

unfoldable pub put_lane : (k v w : ℕ) → ℕ
put_lane zero v w = w / 256 * 256 + v % 256
put_lane (suc k) v w = put_lane k v (w / 256) * 256 + w % 256

-- `*(char *) a`, read and written.
unfoldable pub byte_at : (ℕ → ℕ) → ℕ → ℕ
byte_at mem a = lane (a % 8) (mem (a / 8 * 8))

pub put_byte : (a v : ℕ) → (ℕ → ℕ) → ℕ → ℕ
unfolding put_lane
put_byte a v mem = update mem (a / 8 * 8) (put_lane (a % 8) v (mem (a / 8 * 8)))

-- `bcopy` from bytes that are not in this memory: first whole ints, then the bytes that are left.
unfoldable pub bcopy_bytes : (n : ℕ) → (image : ℕ → ℕ) → (src dst : ℕ) → (ℕ → ℕ) → ℕ → ℕ
bcopy_bytes zero image src dst mem = mem
bcopy_bytes (suc n) image src dst mem =
    bcopy_bytes n image (src + 1) (dst + 1) (put_byte dst (image src) mem)

bcopy_ints : (n : ℕ) → (image : ℕ → ℕ) → (src dst : ℕ) → (ℕ → ℕ) → ℕ → ℕ
bcopy_ints zero image src dst mem = mem
bcopy_ints (suc n) image src dst mem =
    bcopy_ints n image (src + 4) (dst + 4) (bcopy_bytes 4 image src dst mem)

pub bcopy : (image : ℕ → ℕ) → (src dst len : ℕ) → (ℕ → ℕ) → ℕ → ℕ
unfolding bcopy_bytes bcopy_ints
bcopy image src dst len mem =
    let whole = len / 4 * 4 in
    bcopy_bytes (len % 4) image (src + whole) (dst + whole) (bcopy_ints (len / 4) image src dst mem)

-- The code panics before it can return -E_NO_MEM, so the only result is the page.
pub page_alloc : Cmd Pmap ℕ
unfolding bzero
page_alloc s = elim (list_first s.page_free_list) [
  | none ↦ panic s
  | some page ↦ some (
    page,
    record s {
      mem = bzero (page2kva page) by2pg s.mem;
      pp_ref = update s.pp_ref page 0;
      page_free_list = list_remove page s.page_free_list;
    },
  )
]

pub page_free : ℕ → Pmap → Pmap
page_free pp s =
    if ltb 0 (s.pp_ref pp)
    then s
    else record s { page_free_list = list_insert_head pp s.page_free_list }

-- `pp->pp_ref--` and `pp->pp_ref++` on a u_short.
unfoldable pub lower_ref : ℕ → Pmap → Pmap
lower_ref pp s = record s { pp_ref = update s.pp_ref pp ((s.pp_ref pp + 0xffff) % 2 ^ 16) }

unfoldable pub raise_ref : ℕ → Pmap → Pmap
raise_ref pp s = record s { pp_ref = update s.pp_ref pp ((s.pp_ref pp + 1) % 2 ^ 16) }

pub page_decref : ℕ → Pmap → Pmap
unfolding lower_ref page_free
page_decref pp s = let s' = lower_ref pp s in if s'.pp_ref pp == 0 then page_free pp s' else s'

-- The block `if (!(*entry & PTE_V)) { ... }` of each level; `false` is the return with NULL.
pub enter_table : ℕ → Bool → Cmd Pmap Bool
enter_table entry create s =
    if is_valid (s.mem entry)
    then some (true, s)
    else if create
    then (do
      page ← page_alloc
      modify (λ t. record t { mem = update t.mem entry (bit_or (page2pa page) pte_v) })
      modify (λ t. record t { pp_ref = update t.pp_ref page 1 })
      pure true)
        s
    else some (false, s)

-- One level: the address of the entry `index` in the table that `*entry` names.
pub next_entry : ℕ → ℕ → Bool → Cmd Pmap (Option ℕ)
next_entry entry index create = do
  entered ← enter_table entry create
  s ← get
  pure (if entered then some (kaddr (pte_addr (s.mem entry)) + 8 * index) else none)

-- A level is skipped where the one above returned NULL.
pub next_of_level : Option ℕ → ℕ → Bool → Cmd Pmap (Option ℕ)
next_of_level none index create = pure none
next_of_level (some entry) index create = next_entry entry index create

-- The result is `*ppte`, `none` for NULL; the code returns 0 in every case.
pub pgdir_walk : ℕ → ℕ → Bool → Cmd Pmap (Option ℕ)
pgdir_walk pgdir va create = do
  pde ← next_entry (kaddr (pgdir + 8 * pgx va)) (pdx va) create
  pme ← next_of_level pde (pmx va) create
  next_of_level pme (ptx va) create

-- PERM, a u_int.
unfoldable pub entry_perm : ℕ → ℕ
entry_perm perm =
    bit_or
      (bit_or (bit_or (bit_or (perm % 2 ^ 32) pte_v) attrindx_normal) attrib_sh_inner_shareable) af

-- With `create` the walk returns an entry; the warning about a page that was there is a message.
pub write_entry : Option ℕ → ℕ → ℕ → Cmd Pmap (Unit {0})
write_entry none pp perm = panic
write_entry (some pte) pp perm =
    modify (λ t. record t { mem = update t.mem pte (bit_or (pte_addr (page2pa pp)) perm) })

pub page_insert : ℕ → ℕ → ℕ → ℕ → Cmd Pmap (Unit {0})
page_insert pgdir pp va perm = do
  pte ← pgdir_walk pgdir va true
  write_entry pte pp (entry_perm perm)
  modify (raise_ref pp)

-- The page and the address of its entry, `none` for NULL; `pa2page` panics on a bad address.
pub read_entry : Option ℕ → Cmd Pmap (Option (ℕ × ℕ))
read_entry none s = some (none, s)
read_entry (some pte) s =
    if is_valid (s.mem pte)
    then elim (pa2page (pte_addr (s.mem pte))) [
      | none ↦ panic s
      | some page ↦ some (some (page, pte), s)
    ]
    else some (none, s)

pub page_lookup : ℕ → ℕ → Cmd Pmap (Option (ℕ × ℕ))
page_lookup pgdir va = do pte ← pgdir_walk pgdir va false; read_entry pte

-- What `page_remove` does with what it found.
pub drop_entry : Option (ℕ × ℕ) → Cmd Pmap (Unit {0})
drop_entry none = pure tt
drop_entry (some (page, pte)) = do
  modify (page_decref page)
  modify (λ t. record t { mem = update t.mem pte 0 })

pub page_remove : ℕ → ℕ → Cmd Pmap (Unit {0})
page_remove pgdir va = do found ← page_lookup pgdir va; drop_entry found

-- `map_segment`, over the rounds left.
pub map_pages : ℕ → ℕ → ℕ → ℕ → ℕ → Cmd Pmap (Unit {0})
map_pages zero pgdir va pa perm s = some (tt, s)
map_pages (suc rounds) pgdir va pa perm s =
    let rest = map_pages rounds pgdir (va + by2pg) (pa + by2pg) perm in
    and_then (pgdir_walk pgdir va true s) λ pte t. elim pte [
      | none ↦ panic t
      | some e ↦ rest (record t { mem = update t.mem e (bit_or (bit_or (pte_addr pa) perm) pte_v) })
    ]

-- `for (i = 0; i < size; i += BY2PG)` has a round for every page begun.
pub map_segment : ℕ → ℕ → ℕ → ℕ → ℕ → Cmd Pmap (Unit {0})
map_segment pgdir va size pa perm = map_pages ((size + by2pg - 1) / by2pg) pgdir va pa perm
