-- ===== src/File/Sizes.antt =====
-- What a file that grows leaves: `ftruncate` and the pages that the server maps.
use raspberry_pi_3_jos.Prelude.{
  ℕ, zero, suc, ◌+◌, ◌-◌, ◌*◌, ◌≤◌, ◌<◌, ◌≡◌, refl, ap, ◌∙◌, ◌⊎◌, true, false, Option, none, some,
  arith, ltb, leb, ◌==◌,
}
use raspberry_pi_3_jos.Prelude.State.{Result, ok, err}
use raspberry_pi_3_jos.Queue.{update}
use raspberry_pi_3_jos.Fd.{maxfd, index2data}
use raspberry_pi_3_jos.File.{
  Filefd, Fsipc, Client, maxfilesize, devfile_id, pages_up, with_page, map_more, unmap_rest,
  move_pages, resize, ftruncate,
}

-- The server has the file `fileid` open in the states `Open`, with room for as many blocks as a file
-- can have: there it grants its pages and sizes up to the limit, and stays in such a state.
pub record Grants {W : Type 0} (server : Fsipc W) (fileid : ℕ) (Open : W → Type 0) : Type 0 where
  pub maps :
      (offset dstva : ℕ) (w : W)
      → Open w
      → offset < maxfilesize
      → (page : ℕ → ℕ) × ((server.fsipc_map fileid offset dstva w).0 ≡ ok page)
        × Open (server.fsipc_map fileid offset dstva w).1
  pub sizes :
      (size : ℕ) (w : W)
      → Open w
      → size ≤ maxfilesize
      → ((server.fsipc_set_size fileid size w).0 ≡ ok tt)
        × Open (server.fsipc_set_size fileid size w).1

-- The `n` bytes at `a` lie outside the region of the descriptor's file.
abbrev pub Outside : (fdnum a n : ℕ) → Type 0
Outside fdnum a n = (a + n ≤ index2data fdnum) ⊎ (index2data fdnum + maxfilesize ≤ a)

-- The memory that stays when the region of a file at `va` is mapped from `from` on.
abbrev pub Same : (va from : ℕ) → (mem mem' : ℕ → ℕ) → Type 0
Same va from mem mem' = (a : ℕ) → (a < va + from) ⊎ (va + maxfilesize ≤ a) → mem' a ≡ mem a

module _ {W : Type 0} (server : Fsipc W) (f : Filefd) (Open : W → Type 0)
    (g : Grants server f.f_fileid Open) where
  -- The pages that a file gains, up to the limit.
  map_more-ok :
      (rounds i va : ℕ) (s : Client W)
      → Open s.world
      → i + rounds * 4096 ≤ maxfilesize
      → (t : Client W) × (map_more server rounds i f.f_fileid va s ≡ (ok tt, t))
        × (t.files ≡ s.files)
        × Same va i s.mem t.mem
  unfolding map_more
  map_more-ok zero i va s held_open fits = (s, refl, refl, λ a h. refl)
  map_more-ok (suc n) i va s held_open fits =
      let (page, reply, still) = g.maps i (va + i) s.world held_open (omega arith) in
      let asked = server.fsipc_map f.f_fileid i (va + i) s.world in
      let s' : Client W = record s { mem = with_page (va + i) page s.mem; world = asked.1 } in
      let (t, runs, files, same) = map_more-ok n (i + 4096) va s' still (omega arith) in
      (
        t,
        ap
              (λ (o : Result (ℕ → ℕ)). elim o as (λ _. Result (Unit {0}) × Client W) [
                | err code ↦ (err code, record s { world = asked.1 })
                | ok page ↦
                    map_more server n (i + 4096) f.f_fileid va
                      (record s { mem = with_page (va + i) page s.mem; world = asked.1 })
              ])
              reply
            ∙ runs,
        files,
        λ a h. same a (omega arith) ∙ ground arith,
      )

  -- Where a file loses no page.
  move_pages-grows :
      (s : Client W) (fdnum size : ℕ)
      → Open s.world
      → f.f_size ≤ size
      → size ≤ maxfilesize
      → (t : Client W) × (move_pages server f fdnum size s ≡ some (ok tt, t))
        × (t.files ≡ s.files)
        × Same (index2data fdnum) f.f_size s.mem t.mem
  unfolding move_pages unmap_rest
  move_pages-grows s fdnum size held_open more fits =
      let va = index2data fdnum in
      let before = pages_up f.f_size in
      let (t, runs, files, same) =
        map_more-ok (pages_up size - before) (before * 4096) va s held_open (omega arith) in
      let none_less : before - pages_up size ≡ 0 = omega arith in
      let finish : Client W → Option (Unit {0} × W) → Option (Result (Unit {0}) × Client W) = λ t u.
        elim u as (λ _. Option (Result (Unit {0}) × Client W)) [
          | none ↦ none
          | some (_, w) ↦ some (ok tt, record t { world = w })
        ] in
      (
        t,
        ap
              (λ (m : Result (Unit {0}) × Client W).
                elim m.0 as (λ _. Option (Result (Unit {0}) × Client W)) [
                  | err code ↦ some (
                    err code,
                    record m.1 { world = (server.fsipc_set_size f.f_fileid f.f_size m.1.world).1 },
                  )
                  | ok _ ↦ finish m.1 (
                      unmap_rest server (before - pages_up size) (pages_up size * 4096) va
                        m.1.world)
                ])
              runs
            ∙ ap (λ (k : ℕ). finish t (unmap_rest server k (pages_up size * 4096) va t.world))
                none_less,
        files,
        λ a h. same a (omega arith),
      )

  -- A file that grows within the limit has its new size; memory changes in its new pages only.
  pub ftruncate-grows :
      (s : Client W) (fdnum size : ℕ)
      → Open s.world
      → fdnum < maxfd
      → s.files fdnum ≡ some f
      → f.fd_dev_id ≡ devfile_id
      → f.f_size ≤ size
      → size ≤ maxfilesize
      → (t : Client W) × (ftruncate server fdnum size s ≡ some (ok tt, t))
        × (t.files ≡ update s.files fdnum (some (record f { f_size = size })))
        × Same (index2data fdnum) f.f_size s.mem t.mem
  unfolding ftruncate resize
  ftruncate-grows s fdnum size held_open low held file more fits =
      let asked = server.fsipc_set_size f.f_fileid size s.world in
      let s' : Client W = record s {
        files = update s.files fdnum (some (record f { f_size = size }));
        world = asked.1;
      } in
      let granted = g.sizes size s.world held_open fits in
      let (t, runs, files, same) = move_pages-grows s' fdnum size granted.1 more fits in
      let small : ltb maxfilesize size ≡ false = ground arith in
      let in_table : leb maxfd fdnum ≡ false = ground arith in
      let is_file : (f.fd_dev_id == devfile_id) ≡ true = ground (arith, file) in
      (
        t,
        rw (small, in_table, held, is_file)
            (ap
                (λ (o : Result (Unit {0})). elim o as (λ _. Option (Result (Unit {0}) × Client W)) [
                  | err code ↦ some (err code, s')
                  | ok _ ↦ move_pages server f fdnum size s'
                ])
                granted.0
              ∙ runs),
        files,
        same,
      )
