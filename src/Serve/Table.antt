-- ===== src/Serve/Table.antt =====
-- The table of open files: `serve_init`, `open_alloc` and `open_lookup`.
use raspberry_pi_3_jos.Prelude.{
  ℕ, zero, suc, ◌+◌, ◌*◌, ◌%◌, ◌^◌, ◌≤◌, ◌<◌, ◌≡◌, refl, ap, ◌∙◌, ◌≢◌, ◌⊎◌, inl, inr, true, false,
  Option, none, some, arith, ◌==◌, Bool-cases,
}
use mathlib.Core.Path.{subst}
use raspberry_pi_3_jos.Prelude.State.{Result, ok, err, and_then, panic}
use raspberry_pi_3_jos.Queue.{update}
use raspberry_pi_3_jos.Fs.{Fs, by2blk, fill, mem_alloc}
use raspberry_pi_3_jos.Serve.{
  Server, maxopen, fileva, e_inval, e_max_open, init_open, serve_init, take_open, claim_open,
  search_open, open_alloc, open_lookup,
}

-- Each id names its entry, and each entry has a page of its own, from FILEVA on in their order.
pub record IsTable (s : Server) : Type 0 where
  pub ids : (i : ℕ) → i < maxopen → s.o_fileid i % maxopen ≡ i
  pub pages : (i : ℕ) → i < maxopen → s.o_ff i ≡ fileva + i * by2blk

init_open-below :
    (rounds i va : ℕ) (s : Server) (j : ℕ)
    → j < i
    → ((init_open rounds i va s).o_fileid j ≡ s.o_fileid j)
      × ((init_open rounds i va s).o_ff j ≡ s.o_ff j)
unfolding init_open
init_open-below zero i va s j h = (refl, refl)
init_open-below (suc rounds) i va s j h =
    let t = record s { o_fileid = update s.o_fileid i i; o_ff = update s.o_ff i va } in
    let rest = init_open-below rounds (i + 1) (va + by2blk) t j (omega arith) in
    (rest.0 ∙ ground arith, rest.1 ∙ ground arith)

init_open-at :
    (rounds i va : ℕ) (s : Server) (j : ℕ)
    → j < rounds
    → ((init_open rounds i va s).o_fileid (i + j) ≡ i + j)
      × ((init_open rounds i va s).o_ff (i + j) ≡ va + j * by2blk)
unfolding init_open
init_open-at zero i va s j h = absurd (omega arith)
init_open-at (suc rounds) i va s zero h =
    let t = record s { o_fileid = update s.o_fileid i i; o_ff = update s.o_ff i va } in
    let here : i + 0 ≡ i = omega arith in
    let kept = init_open-below rounds (i + 1) (va + by2blk) t i (omega arith) in
    rw here (kept.0 ∙ ground arith, kept.1 ∙ ground arith)
init_open-at (suc rounds) i va s (suc j) h =
    let t = record s { o_fileid = update s.o_fileid i i; o_ff = update s.o_ff i va } in
    let rest = init_open-at rounds (i + 1) (va + by2blk) t j (omega arith) in
    let here : i + suc j ≡ i + 1 + j = omega arith in rw here (rest.0, rest.1 ∙ omega arith)

serve_init-at :
    (s : Server) (i : ℕ)
    → i < maxopen
    → ((serve_init s).o_fileid i ≡ i) × ((serve_init s).o_ff i ≡ fileva + i * by2blk)
unfolding serve_init
serve_init-at s i h =
    let t = init_open maxopen 0 fileva s in
    subst (λ (k : ℕ). (t.o_fileid k ≡ k) × (t.o_ff k ≡ fileva + i * by2blk)) (omega arith)
      (init_open-at maxopen 0 fileva s i h)

-- `serve_init` makes a table in which each id names its entry and each entry has a page of its own,
-- from FILEVA on in their order.
pub serve_init-IsTable : (s : Server) → IsTable (serve_init s)
serve_init-IsTable s = record {
  ids = λ i h. omega (arith, (serve_init-at s i h).0);
  pages = λ i h. (serve_init-at s i h).1;
}

-- What an entry that was taken differs in.
record Taken (s : Server) (o : ℕ) (t : Server) : Type 0 where
  renamed : t.o_fileid o ≡ (s.o_fileid o + maxopen) % 2 ^ 32
  other_ids : (j : ℕ) → j ≢ o → t.o_fileid j ≡ s.o_fileid j
  same_pages : (j : ℕ) → t.o_ff j ≡ s.o_ff j

take_open-Taken : (s : Server) (o : ℕ) → Taken s o (take_open o s)
unfolding take_open
take_open-Taken s o = record {
  renamed = ground arith;
  other_ids = λ j ne. ground arith;
  same_pages = λ j. refl;
}

claim_open_runs :
    (s : Server) (o : ℕ)
    → s.o_ff o ≤ 0xffff_ffff
    → (t : Server) × (claim_open o s ≡ some (ok o, t)) × Taken s o t
unfolding claim_open
claim_open_runs s o h =
    let page_given : mem_alloc (s.o_ff o) s.fs ≡ some (ok tt, fill (s.o_ff o) (λ _. 0) s.fs) =
      ground arith in
    let u = record s { fs = fill (s.o_ff o) (λ _. 0) s.fs } in
    let taken = take_open-Taken u o in
    (
      take_open o u,
      ap
          (λ (r : Option (Result (Unit {0}) × Server)).
            and_then r
              (λ a w. elim a [ err code ↦ some (err code, w) | ok _ ↦ some (ok o, take_open o w) ]))
          (ap
            (λ (r : Option (Result (Unit {0}) × Fs)). elim r [
              | none ↦ panic s
              | some (a, f) ↦ some (a, record s { fs = f })
            ])
            page_given),
      record {
        renamed = taken.renamed;
        other_ids = taken.other_ids;
        same_pages = taken.same_pages;
      },
    )

-- How a search over entries from `i` on ends.
abbrev Search : (refs : ℕ → ℕ) → (i limit : ℕ) → Server → Option (Result ℕ × Server) → Type 0
Search refs i limit s r =
    ((o : ℕ) × (t : Server) × (i ≤ o) × (o < limit) × (r ≡ some (ok o, t)) × Taken s o t)
    ⊎ (r ≡ some (err e_max_open, s)) × ((j : ℕ) → i ≤ j → j < limit → 1 < refs (s.o_ff j))

search_open-Search :
    (refs : ℕ → ℕ) (rounds i : ℕ) (s : Server)
    → ((j : ℕ) → j < i + rounds → s.o_ff j ≤ 0xffff_ffff)
    → Search refs i (i + rounds) s (search_open refs rounds i s)
unfolding search_open
search_open-Search refs zero i s pages = inr (refl, λ j lo hi. absurd (omega arith))
search_open-Search refs (suc rounds) i s pages = elim (Bool-cases (refs (s.o_ff i) == 0)) [
  | inl e ↦
      let (t, runs, taken) = claim_open_runs s i (pages i (omega arith)) in
      inl (i, t, omega arith, omega arith, rw e runs, taken)
  | inr e ↦ elim (Bool-cases (refs (s.o_ff i) == 1)) [
    | inl e' ↦
        inl (i, take_open i s, omega arith, omega arith, rw (e, e') refl, take_open-Taken s i)
    | inr e' ↦ elim (search_open-Search refs rounds (i + 1) s (λ j h. pages j (omega arith))) [
      | inl (o, t, lo, hi, runs, taken) ↦
          inl (o, t, omega arith, omega arith, rw (e, e') runs, taken)
      | inr (runs, busy) ↦ inr (
        rw (e, e') runs,
        λ j lo hi. elim (Bool-cases (j == i)) [
          | inl same ↦ let at : j ≡ i = ground arith in rw at (ground arith)
          | inr other ↦ busy j (ground arith) (omega arith)
        ],
      )
    ]
  ]
]

lookup_found :
    (refs : ℕ → ℕ) (t : Server) (o id : ℕ)
    → id % maxopen ≡ o
    → t.o_fileid o ≡ id
    → refs (t.o_ff o) ≢ 1
    → open_lookup refs id t ≡ ok o
unfolding open_lookup
lookup_found refs t o id slot named shared =
    let named' : (t.o_fileid o == id) ≡ true = ground arith in
    let shared' : (refs (t.o_ff o) == 1) ≡ false = ground arith in rw (slot, named', shared') refl

lookup_stale :
    (refs : ℕ → ℕ) (t : Server) (o id : ℕ)
    → id % maxopen ≡ o
    → t.o_fileid o ≢ id
    → open_lookup refs id t ≡ err e_inval
unfolding open_lookup
lookup_stale refs t o id slot renamed =
    let renamed' : (t.o_fileid o == id) ≡ false = ground arith in rw (slot, renamed') (ground arith)

-- In a well-formed table `open_alloc` returns: an entry under a new id, in a table that is well-formed
-- again, where `open_lookup` finds the entry by the new id as soon as its page is shared, and refuses
-- the old id; or -E_MAX_OPEN, with nothing changed, where every entry's page is shared.
pub open_alloc-open_lookup :
    (refs : ℕ → ℕ) (s : Server)
    → IsTable s
    → ((o : ℕ) × (t : Server) × (open_alloc refs s ≡ some (ok o, t))
        × (o < maxopen)
        × IsTable t
        × ((refs' : ℕ → ℕ) → refs' (t.o_ff o) ≢ 1 → open_lookup refs' (t.o_fileid o) t ≡ ok o)
        × ((refs' : ℕ → ℕ) → open_lookup refs' (s.o_fileid o) t ≡ err e_inval))
      ⊎ (open_alloc refs s ≡ some (err e_max_open, s))
        × ((j : ℕ) → j < maxopen → 1 < refs (s.o_ff j))
unfolding open_alloc
open_alloc-open_lookup refs s v =
    elim (search_open-Search refs maxopen 0 s (λ j h. omega (arith, v.pages j (omega arith)))) [
      | inl (o, t, lo, hi, runs, taken) ↦
          let at = v.ids o (omega arith) in
          inl (
            o,
            t,
            runs,
            omega arith,
            record {
              ids = λ i h. elim (Bool-cases (i == o)) [
                | inl e ↦
                    let same : i ≡ o = ground arith in rw same (omega (arith, taken.renamed, at))
                | inr e ↦ ap (λ (x : ℕ). x % maxopen) (taken.other_ids i (ground arith)) ∙ v.ids i h
              ];
              pages = λ i h. taken.same_pages i ∙ v.pages i h;
            },
            λ refs' shared.
                lookup_found refs' t o (t.o_fileid o) (omega (arith, taken.renamed, at)) refl
                  shared,
            λ refs'.
                lookup_stale refs' t o (s.o_fileid o) at (λ e. omega (arith, taken.renamed, at, e)),
          )
      | inr (runs, busy) ↦ inr (runs, λ j h. busy j (omega arith) (omega arith))
    ]
