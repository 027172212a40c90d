-- ===== src/Examples/Device.antt =====
-- The file of descriptor 0, of 100 bytes, and a server that has the file 1024 open.
use raspberry_pi_3_jos.Prelude.{
  ℕ, ◌+◌, ◌-◌, ◌^◌, ◌<◌, ◌≡◌, refl, none, some, arith, ◌==◌, if◌then◌else◌, ◌&&◌, ltb, leb,
}
use raspberry_pi_3_jos.Prelude.State.{ok, err}
use raspberry_pi_3_jos.Strings.{user_bcopy}
use raspberry_pi_3_jos.Fd.{index2data}
use raspberry_pi_3_jos.File.{Filefd, Fsipc, Client, file_read, file_write}
use raspberry_pi_3_jos.File.Sizes.{Grants}
use raspberry_pi_3_jos.File.Data.{file_write-file_read, file_read_overruns}

-- Its state is the number of requests.
generous : Fsipc ℕ
generous = record {
  fsipc_map = λ fileid offset dstva w.
      if fileid == 1024 && ltb offset 0x40_0000 then (ok (λ i. 0), w + 1) else (err 3, w);
  fsipc_set_size =
      λ fileid size w. if fileid == 1024 && leb size 0x40_0000 then (ok tt, w + 1) else (err 3, w);
  fsipc_dirty = λ fileid offset w. (ok tt, w + 1);
  fsipc_close = λ fileid w. (ok tt, w + 1);
  mem_unmap = λ va w. (ok tt, w + 1);
}

-- The server has the file 1024 open in every state.
abbrev OpenFile : ℕ → Type 0
OpenFile w = Unit {0}

generous-Grants : Grants generous 1024 OpenFile
unfolding generous
generous-Grants = record {
  maps = λ offset dstva w still below. (λ i. 0, ground arith, tt);
  sizes = λ size w still fits. (ground arith, tt);
}

letter : Filefd
letter = record { fd_dev_id = 0x66; f_fileid = 1024; f_size = 100 }

client : Client ℕ
client = record { files = λ i. if i == 0 then some letter else none; mem = λ a. a; world = 0 }

file_write-file_read_example :
    (t : Client ℕ) × (h : Filefd) × (mem' : ℕ → ℕ) × (file_write generous letter 0 0x1000 5000 50
        client
      ≡ some (ok 5000, t))
    × (t.files 0 ≡ some h)
    × (file_read h (index2data 0) 0x4000 5000 50 t.mem ≡ (ok 5000, mem'))
    × ((i : ℕ) → i < 5000 → mem' (0x4000 + i) ≡ client.mem (0x1000 + i))
    × ((i : ℕ)
        → i < 50
        → i < letter.f_size
        → t.mem (index2data 0 + i) ≡ client.mem (index2data 0 + i))
unfolding client letter
file_write-file_read_example =
    file_write-file_read generous letter OpenFile client 0 0x1000 0x4000 5000 50 generous-Grants tt
      (omega arith) refl refl (omega arith) (omega arith) (omega arith)

file_read_overruns_example :
    (file_read letter 0x6000_0000 0x1000 (2 ^ 32 - 1) 1 client.mem
      ≡ (err (2 ^ 32 - (2 ^ 32 - 1)), user_bcopy (0x6000_0000 + 1) 0x1000 (2 ^ 32 - 1) client.mem))
    × (letter.f_size - 1 < 2 ^ 32 - 1)
unfolding letter
file_read_overruns_example =
    file_read_overruns letter 0x6000_0000 0x1000 (2 ^ 32 - 1) 1 client.mem (omega arith)
      (omega arith) (omega arith) (omega arith)
