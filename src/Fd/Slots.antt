-- ===== src/Fd/Slots.antt =====
-- `fd_alloc`: which descriptor is given.
use raspberry_pi_3_jos.Prelude.{
  ℕ, zero, suc, ◌+◌, ◌-◌, ◌≤◌, ◌<◌, ◌≡◌, refl, sym, ap, ◌∙◌, ◌≢◌, ◌⊎◌, inl, inr, Option, none, some,
  arith, Option-cases, ◌==◌, Bool-cases,
}
use raspberry_pi_3_jos.Prelude.State.{Result, ok, err}
use raspberry_pi_3_jos.Fd.{Fd, Files, maxfd, e_max_open, search_fd, fd_alloc}

abbrev Search : {D : Type 0} → (i limit : ℕ) → Files D → Result ℕ → Type 0
Search i limit s r =
    ((n : ℕ) × (r ≡ ok n)
      × (i ≤ n)
      × (n < limit)
      × (s.table n ≡ none)
      × ((j : ℕ) → i ≤ j → j < n → s.table j ≢ none))
    ⊎ (r ≡ err e_max_open) × ((j : ℕ) → i ≤ j → j < limit → s.table j ≢ none)

passed :
    {D : Type 0} (s : Files D) (i n : ℕ) (fd : Fd)
    → s.table i ≡ some fd
    → ((j : ℕ) → i + 1 ≤ j → j < n → s.table j ≢ none)
    → (j : ℕ) → i ≤ j
    → j < n
    → s.table j ≢ none
passed s i n fd here later j lo hi free = elim (Bool-cases (j == i)) [
  | inl e ↦
      let at : j ≡ i = ground arith in
      absurd (ground (arith, sym here ∙ ap s.table (sym at) ∙ free))
  | inr e ↦ later j (ground arith) hi free
]

search_free :
    {D : Type 0} (rounds i : ℕ) (s : Files D) → s.table i ≡ none → search_fd (suc rounds) i s ≡ ok i
unfolding search_fd
search_free rounds i s e =
    ap (λ (r : Option Fd). elim r [ none ↦ ok i | some _ ↦ search_fd rounds (i + 1) s ]) e

search_used :
    {D : Type 0} (rounds i : ℕ) (s : Files D) (fd : Fd)
    → s.table i ≡ some fd
    → search_fd (suc rounds) i s ≡ search_fd rounds (i + 1) s
unfolding search_fd
search_used rounds i s fd e =
    ap (λ (r : Option Fd). elim r [ none ↦ ok i | some _ ↦ search_fd rounds (i + 1) s ]) e

search_fd-Search :
    {D : Type 0} (rounds i : ℕ) (s : Files D) → Search i (i + rounds) s (search_fd rounds i s)
search_fd-Search zero i s = inr (unfold search_fd in refl, λ j lo hi. absurd (omega arith))
search_fd-Search (suc rounds) i s = elim (Option-cases (s.table i)) [
  | inl e ↦
      inl
        (i, search_free rounds i s e, omega arith, omega arith, e, λ j lo hi. absurd (omega arith))
  | inr (fd, e) ↦ elim (search_fd-Search rounds (i + 1) s) [
    | inl (n, runs, lo, hi, free, before) ↦ inl (
      n,
      search_used rounds i s fd e ∙ runs,
      omega arith,
      omega arith,
      free,
      passed s i n fd e before,
    )
    | inr (runs, full) ↦ inr (
      search_used rounds i s fd e ∙ runs,
      λ j lo hi. passed s i (i + 1 + rounds) fd e full j lo (omega arith),
    )
  ]
]

-- `fd_alloc` gives the first free descriptor below 31, or -E_MAX_OPEN if none of these is free; the
-- last descriptor of the table, 31, is never given.
pub fd_alloc_lem :
    {D : Type 0} (s : Files D)
    → ((n : ℕ) × (fd_alloc s ≡ ok n)
        × (n < maxfd - 1)
        × (s.table n ≡ none)
        × ((j : ℕ) → j < n → s.table j ≢ none))
      ⊎ (fd_alloc s ≡ err e_max_open) × ((j : ℕ) → j < maxfd - 1 → s.table j ≢ none)
unfolding fd_alloc
fd_alloc_lem s = elim (search_fd-Search (maxfd - 1) 0 s) [
  | inl (n, runs, lo, hi, free, before) ↦
      inl (n, runs, omega arith, free, λ j h. before j (omega arith) h)
  | inr (runs, full) ↦ inr (runs, λ j h. full j (omega arith) (omega arith))
]
