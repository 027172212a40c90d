-- ===== src/Serve.antt =====
-- The file server's requests: OS/user/serv.c from `struct Open` to `serve`, on the state of Fs. The
-- server's table has 1024 entries. `refs` is what `pageref` reads during a request: the number of
-- references to the page at an address, 0 where none is mapped; other environments change it
-- between requests. A reply by `ipc_send` is added in front of `sent`. `fs_test` is left out.
pub mod Table
use raspberry_pi_3_jos.Prelude.{
  ℕ, zero, suc, ◌+◌, ◌-◌, ◌*◌, ◌/◌, ◌%◌, ◌^◌, Bool, true, false, not, ◌&&◌, ◌||◌, Option, none,
  some, List, [], ◌∷◌, ◌==◌, ltb, leb, if◌then◌else◌, bit_and,
}
use raspberry_pi_3_jos.Prelude.State.{
  Cmd, Result, ok, err, pure, panic, and_then, ◌>>=◌, ◌>>◌, get, modify,
}
use raspberry_pi_3_jos.Queue.{update}
use raspberry_pi_3_jos.Fs.{Fs, by2blk, page_of, va_is_mapped, mem_alloc, mem_unmap, poke}
use raspberry_pi_3_jos.Fs.Files.{file_get_block, file_set_size, file_close, file_dirty, fs_sync}
use raspberry_pi_3_jos.Fs.Paths.{byte, poke_byte, file_open, file_remove}

abbrev pub maxopen : ℕ
maxopen = 1024

abbrev pub fileva : ℕ
fileva = 0x6000_0000

abbrev pub reqva : ℕ
reqva = 0x0fff_f000

abbrev pub maxpathlen : ℕ
maxpathlen = 1024

abbrev pub e_inval : ℕ
e_inval = 3

abbrev pub e_max_open : ℕ
e_max_open = 8

-- `devfile.dev_id`
abbrev pub devfile_id : ℕ
devfile_id = 0x66

-- `ipc_send(whom, val, srcva, perm)`; a negative value is `err`.
pub record Reply : Type 0 where
  pub whom : ℕ
  pub val : Result ℕ
  pub srcva : ℕ

-- The fields of `opentab`, by index, with the file system.
pub record Server : Type 0 where
  pub fs : Fs
  pub o_file : ℕ → ℕ
  pub o_fileid : ℕ → ℕ
  pub o_mode : ℕ → ℕ
  pub o_ff : ℕ → ℕ
  pub sent : List Reply

abbrev pub on_fs : {A : Type 0} → Cmd Fs A → Cmd Server A
on_fs m s = elim (m s.fs) [ none ↦ panic s | some (a, f) ↦ some (a, record s { fs = f }) ]

unfoldable pub ipc_send : (whom : ℕ) → (val : Result ℕ) → (srcva : ℕ) → Cmd Server (Unit {0})
ipc_send whom val srcva s =
    some (tt, record s { sent = record { whom = whom; val = val; srcva = srcva } ∷ s.sent })

-- `for (i = 0; i < MAXOPEN; i++)`, over the rounds left.
unfoldable pub init_open : (rounds i va : ℕ) → Server → Server
init_open zero i va s = s
init_open (suc rounds) i va s =
    init_open rounds (i + 1) (va + by2blk)
      (record s { o_fileid = update s.o_fileid i i; o_ff = update s.o_ff i va })

unfoldable pub serve_init : Server → Server
serve_init = init_open maxopen 0 fileva

-- `user_bzero` of a page.
pub zero_page : ℕ → Fs → Fs
zero_page va s = record s { words = λ a. if page_of a == page_of va then 0 else s.words a }

-- What `case 1` does: a new id of entry `i`, and an empty page.
unfoldable pub take_open : ℕ → Server → Server
take_open i s = record s {
  fs = zero_page (s.o_ff i) s.fs;
  o_fileid = update s.o_fileid i ((s.o_fileid i + maxopen) % 2 ^ 32);
}

-- `case 0` allocates the page and falls through.
unfoldable pub claim_open : ℕ → Cmd Server (Result ℕ)
claim_open i s =
    and_then (on_fs (mem_alloc (s.o_ff i)) s)
      λ r t. elim r [ err code ↦ some (err code, t) | ok _ ↦ some (ok i, take_open i t) ]

-- The loop of `open_alloc`, over the rounds left: the index of the entry.
unfoldable pub search_open : (refs : ℕ → ℕ) → (rounds i : ℕ) → Cmd Server (Result ℕ)
search_open refs zero i s = some (err e_max_open, s)
search_open refs (suc rounds) i s =
    let rest = search_open refs rounds (i + 1) s in
    if refs (s.o_ff i) == 0
    then claim_open i s
    else if refs (s.o_ff i) == 1
    then some (ok i, take_open i s)
    else rest

unfoldable pub open_alloc : (refs : ℕ → ℕ) → Cmd Server (Result ℕ)
open_alloc refs = search_open refs maxopen 0

-- The index of the entry.
unfoldable pub open_lookup : (refs : ℕ → ℕ) → (fileid : ℕ) → Server → Result ℕ
open_lookup refs fileid s =
    let o = fileid % maxopen in
    if refs (s.o_ff o) == 1 || not (s.o_fileid o == fileid) then err e_inval else ok o

-- `if ((r = open_lookup(...)) < 0) { ipc_send(envid, r, 0, 0); return; }`
abbrev with_open :
    (refs : ℕ → ℕ) → (envid fileid : ℕ) → (ℕ → Cmd Server (Unit {0})) → Cmd Server (Unit {0})
with_open refs envid fileid k s = elim (open_lookup refs fileid s) [
  | err code ↦ ipc_send envid (err code) 0 s
  | ok o ↦ k o s
]

-- The last step of a handler: the code of an error, or 0.
abbrev answer : (envid : ℕ) → Result (Unit {0}) → Cmd Server (Unit {0})
answer envid r = elim r [ err code ↦ ipc_send envid (err code) 0 | ok _ ↦ ipc_send envid (ok 0) 0 ]

-- The string at `a`, at most `n` characters.
read_path : (n a : ℕ) → Fs → List ℕ
read_path zero a s = []
read_path (suc n) a s =
    let rest = read_path n (a + 1) s in if byte a s == 0 then [] else byte a s ∷ rest

-- `ff->f_file = *f`, as u_ints.
copy_file : (n dst src : ℕ) → Fs → Fs
copy_file zero dst src s = s
copy_file (suc n) dst src s = copy_file n (dst + 4) (src + 4) (poke dst (s.words src) s)

-- The assignments of `serve_open`; `f` is 0 after a failed `file_open`, which is read all the same.
finish_open : (envid o f : ℕ) → Cmd Server (Unit {0})
finish_open envid o f s =
    let ff = s.o_ff o in
    let mode = s.fs.words (reqva + maxpathlen) in
    if not (va_is_mapped f s.fs)
    then panic s
    else ipc_send envid (ok 0) ff (record s {
      fs =
          poke ff devfile_id
            (poke (ff + 8) mode (poke (ff + 12) (s.o_fileid o) (copy_file 64 (ff + 16) f s.fs)));
      o_file = update s.o_file o f;
      o_mode = update s.o_mode o mode;
    })

-- `open_alloc` returns the id as an int, so one from 2 ^ 31 on is taken for an error and sent.
refuse_id : (envid id : ℕ) → Cmd Server (Unit {0})
refuse_id envid id =
    if leb (2 ^ 31) id then ipc_send envid (ok (2 ^ 64 - 2 ^ 32 + id)) 0 else pure tt

-- After a failure of `open_alloc` the pointer `o` has no value.
pub serve_open : (refs : ℕ → ℕ) → (envid : ℕ) → Cmd Server (Unit {0})
unfolding finish_open refuse_id
serve_open refs envid s =
    let path = read_path (maxpathlen - 1) reqva s.fs in
    and_then (open_alloc refs s) λ r t. elim r [
      | err _ ↦ panic t
      | ok o ↦ and_then (refuse_id envid (t.o_fileid o) t) λ _ t'.
          and_then (on_fs (file_open path) t') λ opened u. elim opened [
            | err code ↦ and_then (ipc_send envid (err code) 0 u) (λ _. finish_open envid o 0)
            | ok f ↦ finish_open envid o f u
          ]
    ]

-- `rq->req_fileid` and the u_int behind it.
abbrev req_fileid : Server → ℕ
req_fileid s = s.fs.words reqva

abbrev req_number : Server → ℕ
req_number s = s.fs.words (reqva + 4)

unfoldable pub serve_map : (refs : ℕ → ℕ) → (envid : ℕ) → Cmd Server (Unit {0})
serve_map refs envid s =
    with_open refs envid (req_fileid s)
      (λ o. on_fs (file_get_block (s.o_file o) (req_number s / by2blk)) >>= λ r. elim r [
        | err code ↦ ipc_send envid (err code) 0
        | ok blk ↦ ipc_send envid (ok 0) blk
      ])
      s

unfoldable pub serve_set_size : (refs : ℕ → ℕ) → (envid : ℕ) → Cmd Server (Unit {0})
serve_set_size refs envid s =
    with_open refs envid (req_fileid s)
      (λ o. on_fs (file_set_size (s.o_file o) (req_number s)) >>= answer envid) s

unfoldable pub serve_close : (refs : ℕ → ℕ) → (envid : ℕ) → Cmd Server (Unit {0})
serve_close refs envid s =
    with_open refs envid (req_fileid s)
      (λ o. on_fs (file_close (s.o_file o)) >>= λ _. ipc_send envid (ok 0) 0) s

unfoldable pub serve_dirty : (refs : ℕ → ℕ) → (envid : ℕ) → Cmd Server (Unit {0})
serve_dirty refs envid s =
    with_open refs envid (req_fileid s)
      (λ o. on_fs (file_dirty (s.o_file o) (req_number s)) >>= answer envid) s

pub serve_remove : (envid : ℕ) → Cmd Server (Unit {0})
serve_remove envid s =
    let cut = record s { fs = poke_byte (reqva + maxpathlen - 1) 0 s.fs } in
    and_then (on_fs (file_remove (read_path (maxpathlen - 1) reqva cut.fs)) cut) (answer envid)

unfoldable pub serve_sync : (envid : ℕ) → Cmd Server (Unit {0})
serve_sync envid = on_fs fs_sync >>= λ _. ipc_send envid (ok 0) 0

-- The `switch` of `serve`.
handle : (refs : ℕ → ℕ) → (req whom : ℕ) → Cmd Server (Unit {0})
handle refs req whom s =
    if req == 1
    then serve_open refs whom s
    else if req == 2
    then serve_map refs whom s
    else if req == 3
    then serve_set_size refs whom s
    else if req == 4
    then serve_close refs whom s
    else if req == 5
    then serve_dirty refs whom s
    else if req == 6
    then serve_remove whom s
    else if req == 7
    then serve_sync whom s
    else some (tt, s)

-- One round of `serve`, for the message that `ipc_recv` got.
pub serve_round : (refs : ℕ → ℕ) → (req whom perm : ℕ) → Cmd Server (Unit {0})
unfolding handle
serve_round refs req whom perm s =
    if bit_and perm 3 == 0
    then some (tt, s)
    else and_then (handle refs req whom s) λ _ t. some (tt, record t { fs = mem_unmap reqva t.fs })
