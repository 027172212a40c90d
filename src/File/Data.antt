-- ===== src/File/Data.antt =====
-- What is written to a file is read again.
use raspberry_pi_3_jos.Prelude.{
  ℕ, ◌+◌, ◌-◌, ◌%◌, ◌^◌, ◌≤◌, ◌<◌, ◌≡◌, refl, ap, ◌∙◌, inl, inr, false, Option, some, arith, ltb,
  Bool-cases,
}
use raspberry_pi_3_jos.Prelude.State.{ok, err}
use raspberry_pi_3_jos.Strings.{user_bcopy}
use raspberry_pi_3_jos.Strings.Copy.{user_bcopy-IsCopy}
use raspberry_pi_3_jos.Fd.{maxfd, index2data}
use raspberry_pi_3_jos.File.Sizes.{Grants, Outside, ftruncate-grows}
use raspberry_pi_3_jos.File.{
  Filefd, Fsipc, Client, maxfilesize, devfile_id, as_int, file_read, file_write,
}

module _ {W : Type 0} (server : Fsipc W) (f : Filefd) (Open : W → Type 0)
    (g : Grants server f.f_fileid Open) where
  -- What a write within the limit leaves: its bytes, and what the file held before them.
  record Stored (s : Client W) (fdnum buf n offset : ℕ) : Type 0 where
    state : Client W
    file : Filefd
    runs : file_write server f fdnum buf n offset s ≡ some (ok n, state)
    now : state.files fdnum ≡ some file
    large : offset + n ≤ file.f_size
    stored : (i : ℕ) → i < n → state.mem (index2data fdnum + offset + i) ≡ s.mem (buf + i)
    before :
        (i : ℕ)
        → i < offset
        → i < f.f_size
        → state.mem (index2data fdnum + i) ≡ s.mem (index2data fdnum + i)

  file_write-Stored :
      (s : Client W) (fdnum buf n offset : ℕ)
      → Open s.world
      → fdnum < maxfd
      → s.files fdnum ≡ some f
      → f.fd_dev_id ≡ devfile_id
      → offset + n ≤ maxfilesize
      → Outside fdnum buf n
      → Stored s fdnum buf n offset
  unfolding file_write
  file_write-Stored s fdnum buf n offset held_open low held file fits apart =
      let va = index2data fdnum in
      let whole : (offset + n) % 2 ^ 32 ≡ offset + n = omega arith in
      let small : ltb maxfilesize (offset + n) ≡ false = ground arith in
      let signed : as_int n ≡ ok n = ground arith in
      elim (Bool-cases (ltb f.f_size (offset + n))) [
        | inl e ↦
            let (t, runs, files, same) =
              ftruncate-grows server f Open g s fdnum (offset + n) held_open low held file
                (ground arith) fits in
            let (inside, outside) = user_bcopy-IsCopy buf (va + offset) n t.mem (omega arith) in
            record {
              state = record t { mem = user_bcopy buf (va + offset) n t.mem };
              file = record f { f_size = offset + n };
              runs = rw (whole, small, e, runs, signed) refl;
              now = ap (λ (k : ℕ → Option Filefd). k fdnum) files ∙ ground arith;
              large = omega arith;
              stored = λ i lt. inside i lt ∙ same (buf + i) (omega arith);
              before = λ i lt old. outside (va + i) (omega arith) ∙ same (va + i) (omega arith);
            }
        | inr e ↦
            let (inside, outside) = user_bcopy-IsCopy buf (va + offset) n s.mem (omega arith) in
            record {
              state = record s { mem = user_bcopy buf (va + offset) n s.mem };
              file = f;
              runs = rw (whole, small, e, signed) refl;
              now = held;
              large = ground arith;
              stored = inside;
              before = λ i lt old. outside (va + i) (omega arith);
            }
      ]

pub file_write-file_read :
    {W : Type 0} (server : Fsipc W) (f : Filefd) (Open : W → Type 0) (s : Client W)
    (fdnum buf buf' n offset : ℕ)
    → Grants server f.f_fileid Open
    → Open s.world
    → fdnum < maxfd
    → s.files fdnum ≡ some f
    → f.fd_dev_id ≡ devfile_id
    → offset + n ≤ maxfilesize
    → Outside fdnum buf n
    → Outside fdnum buf' n
    → (t : Client W) × (h : Filefd) × (mem' : ℕ → ℕ) × (file_write server f fdnum buf n offset s
        ≡ some (ok n, t))
      × (t.files fdnum ≡ some h)
      × (file_read h (index2data fdnum) buf' n offset t.mem ≡ (ok n, mem'))
      × ((i : ℕ) → i < n → mem' (buf' + i) ≡ s.mem (buf + i))
      × ((i : ℕ)
          → i < offset
          → i < f.f_size
          → t.mem (index2data fdnum + i) ≡ s.mem (index2data fdnum + i))
unfolding file_read
file_write-file_read server f Open s fdnum buf buf' n offset g held_open low held file fits apart
      apart' =
    let w =
      file_write-Stored server f Open g s fdnum buf n offset held_open low held file fits apart in
    let va = index2data fdnum + offset in
    let whole : (offset + n) % 2 ^ 32 ≡ offset + n = omega arith in
    let large = w.large in
    let all : ltb w.file.f_size (offset + n) ≡ false = ground arith in
    let inside : ltb w.file.f_size offset ≡ false = ground arith in
    let signed : as_int n ≡ ok n = ground arith in
    (
      w.state,
      w.file,
      user_bcopy va buf' n w.state.mem,
      w.runs,
      w.now,
      rw (whole, all, inside, signed) refl,
      λ i lt. (user_bcopy-IsCopy va buf' n w.state.mem (omega arith)).0 i lt ∙ w.stored i lt,
      w.before,
    )

-- From an offset within the file, with a count that wraps around with the offset, the count is not cut
-- to the file: `file_read` copies all of it, more than the bytes of the file that are left, and the
-- int that it returns is negative, the count less 2 ^ 32.
pub file_read_overruns :
    (f : Filefd) (va buf n offset : ℕ) (mem : ℕ → ℕ)
    → f.f_size ≤ maxfilesize
    → n < 2 ^ 32
    → offset ≤ f.f_size
    → 2 ^ 32 ≤ offset + n
    → (file_read f va buf n offset mem ≡ (err (2 ^ 32 - n), user_bcopy (va + offset) buf n mem))
      × (f.f_size - offset < n)
unfolding file_read
file_read_overruns f va buf n offset mem size count within wraps =
    let small : ltb f.f_size ((offset + n) % 2 ^ 32) ≡ false = ground arith in
    let inside : ltb f.f_size offset ≡ false = ground arith in
    let signed : as_int n ≡ err (2 ^ 32 - n) = ground arith in
    (rw (small, inside, signed) refl, omega arith)
