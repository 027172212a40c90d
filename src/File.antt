-- ===== src/File.antt =====
-- The file device of user programs: OS/user/file.c. A descriptor is its number; memory is bytes.
-- The requests of OS/user/fsipc.c and the unmapping of a page are an interface, since the file
-- server, another environment, answers them: each gives its reply and the state behind it, and a
-- reply to `fsipc_map` has the bytes of the page that the program's memory gets at the address. The
-- bytes of a page that is unmapped stay in the model, where no function reads them.
-- `open`, `read_map`, `file_stat`, `remove` and `sync` are left out, as are messages by `writef`.
pub mod Sizes
pub mod Data
use raspberry_pi_3_jos.Prelude.{
  ℕ, zero, suc, ◌+◌, ◌-◌, ◌*◌, ◌/◌, ◌%◌, ◌^◌, Option, none, some, ltb, leb, ◌==◌, if◌then◌else◌,
  not, ◌&&◌,
}
use raspberry_pi_3_jos.Prelude.State.{Cmd, Result, ok, err, pure, panic, and_then}
use raspberry_pi_3_jos.Queue.{update}
use raspberry_pi_3_jos.Strings.{user_bcopy}
use raspberry_pi_3_jos.Fd.{maxfd, index2data}

abbrev pub maxfilesize : ℕ
maxfilesize = 1024 * 4096

abbrev pub e_no_disk : ℕ
e_no_disk = 7

abbrev pub e_inval : ℕ
e_inval = 3

-- `struct Filefd`, the fields that the client uses.
pub record Filefd : Type 0 where
  pub fd_dev_id : ℕ
  pub f_fileid : ℕ
  pub f_size : ℕ

abbrev pub devfile_id : ℕ
devfile_id = 0x66

-- The requests, on the state `W` of the server.
pub record Fsipc (W : Type 0) : Type 0 where
  pub fsipc_map : (fileid offset dstva : ℕ) → W → Result (ℕ → ℕ) × W
  pub fsipc_set_size : (fileid size : ℕ) → W → Result (Unit {0}) × W
  pub fsipc_dirty : (fileid offset : ℕ) → W → Result (Unit {0}) × W
  pub fsipc_close : (fileid : ℕ) → W → Result (Unit {0}) × W
  pub mem_unmap : (va : ℕ) → W → Result (Unit {0}) × W

pub record Client (W : Type 0) : Type 0 where
  pub files : ℕ → Option Filefd
  pub mem : ℕ → ℕ
  pub world : W

-- ROUND(a, BY2PG), in pages.
abbrev pub pages_up : ℕ → ℕ
pages_up a = (a + 4095) / 4096

-- A u_int that is returned as an int: from 2 ^ 31 on it is negative, as the codes of errors are.
abbrev pub as_int : ℕ → Result ℕ
as_int n = if ltb n (2 ^ 31) then ok n else err (2 ^ 32 - n)

-- The memory when `page` stands at `va`.
abbrev pub with_page : (va : ℕ) → (page mem : ℕ → ℕ) → ℕ → ℕ
with_page va page mem a = if leb va a && ltb a (va + 4096) then page (a - va) else mem a

-- The result and the memory.
unfoldable pub file_read : (f : Filefd) → (va buf n offset : ℕ) → (ℕ → ℕ) → Result ℕ × (ℕ → ℕ)
file_read f va buf n offset mem =
    let count = if ltb f.f_size ((offset + n) % 2 ^ 32) then f.f_size - offset else n in
    if ltb f.f_size offset
    then (ok 0, mem)
    else (as_int count, user_bcopy (va + offset) buf count mem)

module _ {W : Type 0} (server : Fsipc W) where
  -- The loop that maps the pages that a file gains, over the rounds left.
  unfoldable pub map_more : (rounds i fileid va : ℕ) → Client W → Result (Unit {0}) × Client W
  map_more zero i fileid va s = (ok tt, s)
  map_more (suc rounds) i fileid va s =
      let asked = server.fsipc_map fileid i (va + i) s.world in
      elim asked.0 [
        | err code ↦ (err code, record s { world = asked.1 })
        | ok page ↦
            map_more rounds (i + 4096) fileid va
              (record s { mem = with_page (va + i) page s.mem; world = asked.1 })
      ]

  -- The loop that unmaps the pages that a file loses; an error ends the program.
  unfoldable pub unmap_rest : (rounds i va : ℕ) → W → Option (Unit {0} × W)
  unmap_rest zero i va w = some (tt, w)
  unmap_rest (suc rounds) i va w =
      let asked = server.mem_unmap (va + i) w in
      let rest = unmap_rest rounds (i + 4096) va asked.1 in
      elim asked.0 [ err code ↦ none | ok _ ↦ rest ]

  -- What `ftruncate` does once the server has set the size.
  unfoldable pub move_pages : (f : Filefd) → (fdnum size : ℕ) → Cmd (Client W) (Result (Unit {0}))
  move_pages f fdnum size s =
      let va = index2data fdnum in
      let before = pages_up f.f_size in
      let after = pages_up size in
      let mapped = map_more (after - before) (before * 4096) f.f_fileid va s in
      let t = mapped.1 in
      elim mapped.0 [
        | err code ↦
            some
              (err code, record t { world = (server.fsipc_set_size f.f_fileid f.f_size t.world).1 })
        | ok _ ↦ elim (unmap_rest (before - after) (after * 4096) va t.world) [
          | none ↦ panic s
          | some (_, w) ↦ some (ok tt, record t { world = w })
        ]
      ]

  -- With a file: its size is set before the server is asked, and stays if the server refuses.
  unfoldable pub resize : (f : Filefd) → (fdnum size : ℕ) → Cmd (Client W) (Result (Unit {0}))
  resize f fdnum size s =
      let asked = server.fsipc_set_size f.f_fileid size s.world in
      let s' = record s {
        files = update s.files fdnum (some (record f { f_size = size }));
        world = asked.1;
      } in
      let moved = move_pages f fdnum size s' in
      elim asked.0 [ err code ↦ some (err code, s') | ok _ ↦ moved ]

  unfoldable pub ftruncate : (fdnum size : ℕ) → Cmd (Client W) (Result (Unit {0}))
  ftruncate fdnum size s =
      if ltb maxfilesize size
      then some (err e_no_disk, s)
      else elim (if leb maxfd fdnum then none else s.files fdnum) [
        | none ↦ some (err e_inval, s)
        | some f ↦
            if f.fd_dev_id == devfile_id then resize f fdnum size s else some (err e_inval, s)
      ]

  -- `f` is what the descriptor holds.
  unfoldable pub file_write : (f : Filefd) → (fdnum buf n offset : ℕ) → Cmd (Client W) (Result ℕ)
  file_write f fdnum buf n offset s =
      let tot = (offset + n) % 2 ^ 32 in
      let copied : Cmd (Client W) (Result ℕ) = λ t.
        some (as_int n, record t { mem = user_bcopy buf (index2data fdnum + offset) n t.mem }) in
      let grown =
        and_then (ftruncate fdnum tot s)
          (λ r. elim r [ err code ↦ pure (err code) | ok _ ↦ copied ]) in
      if ltb maxfilesize tot
      then some (err e_no_disk, s)
      else if ltb f.f_size tot
      then grown
      else copied s

  -- The two loops of `file_close`, over the rounds left.
  mark_dirty : (rounds i fileid : ℕ) → W → W
  mark_dirty zero i fileid w = w
  mark_dirty (suc rounds) i fileid w =
      mark_dirty rounds (i + 4096) fileid (server.fsipc_dirty fileid i w).1

  unmap_all : (rounds i va : ℕ) → W → Result (Unit {0}) × W
  unmap_all zero i va w = (ok tt, w)
  unmap_all (suc rounds) i va w =
      let asked = server.mem_unmap (va + i) w in
      let rest = unmap_all rounds (i + 4096) va asked.1 in
      elim asked.0 [ err code ↦ (err code, asked.1) | ok _ ↦ rest ]

  pub devfile_close : (f : Filefd) → (fdnum : ℕ) → W → Result (Unit {0}) × W
  unfolding mark_dirty unmap_all
  devfile_close f fdnum w =
      let closed = server.fsipc_close f.f_fileid (mark_dirty (pages_up f.f_size) 0 f.f_fileid w) in
      let unmapped = unmap_all (pages_up f.f_size) 0 (index2data fdnum) closed.1 in
      elim closed.0 [
        | err code ↦ (err code, closed.1)
        | ok _ ↦ if f.f_size == 0 then (ok tt, closed.1) else unmapped
      ]
