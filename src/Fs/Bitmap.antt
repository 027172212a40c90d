-- ===== src/Fs/Bitmap.antt =====
-- The bitmap of free blocks: `block_is_free`, `free_block` and `alloc_block_num`.
use native.Mathlib.Nat.{one-le-pow}
use raspberry_pi_3_jos.Prelude.{
  ℕ, zero, suc, ◌+◌, ◌-◌, ◌*◌, ◌/◌, ◌%◌, ◌^◌, ◌≤◌, ◌<◌, ◌≡◌, refl, sym, ap, ◌∙◌, ◌≢◌, ◌⊎◌, inl, inr,
  true, false, not, Option, some, arith, bit_and, bit_or, ◌==◌, Bool-cases,
}
use raspberry_pi_3_jos.Prelude.Bits.{
  bit, bit-lt, bit-bit_and, bit-bit_or, bit_and_pow, bit-pow_self, bit-pow_ne, bit-complement_self,
  bit-complement_ne,
}
use raspberry_pi_3_jos.Prelude.State.{Result, ok, err}
use raspberry_pi_3_jos.Fs.{
  Fs, e_no_disk, poke, s_nblocks, flag, place, marked, free_block, claim_block, search_block,
  alloc_block_num,
}

digit_test : (d m : ℕ) → d < 2 → 0 < m → not (d * m == 0) ≡ (d == 1)
digit_test zero m h g = ground arith
digit_test (suc zero) m h g = ground arith
digit_test (suc (suc d)) m h g = absurd (omega arith)

marked-eq : (b : ℕ) (s : Fs) → marked b s ≡ (bit (s.words (place b s)) (b % 32) == 1)
marked-eq b s =
    let w = s.words (place b s) in
    ap (λ (t : ℕ). not (t == 0)) (bit_and_pow w (b % 32))
    ∙ digit_test (bit w (b % 32)) (2 ^ (b % 32)) (bit-lt w (b % 32))
        (one-le-pow (b % 32) 2 (omega arith))

-- What a changed word means for the block `c`.
marked-same :
    (b c v : ℕ) (s : Fs)
    → ((c / 32 ≡ b / 32) → (bit v (c % 32) ≡ bit (s.words (place b s)) (c % 32)))
    → marked c (poke (place b s) v s) ≡ marked c s
marked-same b c v s same = elim (Bool-cases (c / 32 == b / 32)) [
  | inl e ↦
      let here : (poke (place b s) v s).words (place c s) ≡ v = ground arith in
      let at : place c s ≡ place b s = ground arith in
      marked-eq c (poke (place b s) v s)
      ∙ ap (λ (t : ℕ). bit t (c % 32) == 1) here
      ∙ ap (λ (t : ℕ). t == 1) (same (ground arith))
      ∙ ap (λ (a : ℕ). bit (s.words a) (c % 32) == 1) (sym at)
      ∙ sym (marked-eq c s)
  | inr e ↦
      let here : (poke (place b s) v s).words (place c s) ≡ s.words (place c s) = ground arith in
      ap (λ (t : ℕ). not (bit_and t (flag c) == 0)) here
]

marked-here : (b v : ℕ) (s : Fs) → marked b (poke (place b s) v s) ≡ (bit v (b % 32) == 1)
marked-here b v s =
    let here : (poke (place b s) v s).words (place b s) ≡ v = ground arith in
    marked-eq b (poke (place b s) v s) ∙ ap (λ (t : ℕ). bit t (b % 32) == 1) here

claim_block-marked : (b : ℕ) (s : Fs) → marked b (claim_block b s) ≡ false
unfolding claim_block
claim_block-marked b s =
    let w = s.words (place b s) in
    let k = b % 32 in
    let cleared : bit (bit_and w (2 ^ 32 - 1 - 2 ^ k)) k ≡ 0 =
      omega (arith, bit-bit_and w (2 ^ 32 - 1 - 2 ^ k) k, bit-complement_self 32 k (omega arith)) in
    marked-here b (bit_and w (2 ^ 32 - 1 - 2 ^ k)) s ∙ ap (λ (t : ℕ). t == 1) cleared

claim_block-other : (b c : ℕ) (s : Fs) → c ≢ b → marked c (claim_block b s) ≡ marked c s
unfolding claim_block
claim_block-other b c s ne =
    let w = s.words (place b s) in
    let k = b % 32 in
    marked-same b c (bit_and w (2 ^ 32 - 1 - 2 ^ k)) s (λ e. omega (
      arith,
      bit-bit_and w (2 ^ 32 - 1 - 2 ^ k) (c % 32),
      bit-lt w (c % 32),
      bit-complement_ne 32 k (c % 32) (omega arith) (omega arith) (omega arith),
    ))

-- `free_block` of a block other than 0 sets its flag and no other one.
pub free_block_lem :
    (b : ℕ) (s : Fs)
    → b ≢ 0
    → (t : Fs) × (free_block b s ≡ some (tt, t))
      × (marked b t ≡ true)
      × ((c : ℕ) → c ≢ b → marked c t ≡ marked c s)
unfolding free_block
free_block_lem b s nonzero =
    let w = s.words (place b s) in
    let k = b % 32 in
    let flagged : (b == 0) ≡ false = ground arith in
    let set_here : bit (bit_or w (2 ^ k)) k ≡ 1 =
      omega (arith, bit-bit_or w (2 ^ k) k, bit-pow_self k, bit-lt w k) in
    (
      poke (place b s) (bit_or w (flag b)) s,
      rw flagged,
      marked-here b (bit_or w (2 ^ k)) s ∙ ap (λ (t : ℕ). t == 1) set_here,
      λ c ne.
          marked-same b c (bit_or w (2 ^ k)) s (λ e.
            omega (arith, bit-bit_or w (2 ^ k) (c % 32), bit-pow_ne k (c % 32) (omega arith))),
    )

-- What a search from `from` on, below `limit`, gives.
abbrev pub Search : (from limit : ℕ) → Fs → Option (Result ℕ × Fs) → Type 0
Search from limit s r =
    ((b : ℕ) × (r ≡ some (ok b, claim_block b s))
      × (from ≤ b)
      × (b < limit)
      × (marked b s ≡ true)
      × ((c : ℕ) → from ≤ c → c < b → marked c s ≡ false))
    ⊎ ((r ≡ some (err e_no_disk, s)) × ((c : ℕ) → from ≤ c → c < limit → marked c s ≡ false))

skipped :
    (from : ℕ) (s : Fs) (limit : ℕ)
    → marked from s ≡ false
    → ((c : ℕ) → from + 1 ≤ c → c < limit → marked c s ≡ false)
    → (c : ℕ) → from ≤ c
    → c < limit
    → marked c s ≡ false
skipped from s limit h above c lo hi = elim (Bool-cases (c == from)) [
  | inl e ↦ ap (λ (t : ℕ). marked t s) (ground arith) ∙ h
  | inr e ↦ above c (ground arith) hi
]

search_block-Search :
    (rounds from : ℕ) (s : Fs) → Search from (from + rounds) s (search_block rounds from s)
unfolding search_block
search_block-Search zero from s = inr (refl, λ c lo hi. absurd (omega arith))
search_block-Search (suc rounds) from s = elim (Bool-cases (marked from s)) [
  | inl e ↦ inl (from, rw e refl, omega arith, omega arith, e, λ c lo hi. absurd (omega arith))
  | inr e ↦ elim (search_block-Search rounds (from + 1) s) [
    | inl (b, runs, lo, hi, free, before) ↦
        inl (b, rw e runs, omega arith, omega arith, free, skipped from s b e before)
    | inr (runs, full) ↦
        inr (rw e runs, λ c lo hi. skipped from s (from + 1 + rounds) e full c lo (omega arith))
  ]
]

pub alloc_block_num-Search :
    (s : Fs) → 3 ≤ s_nblocks s → Search 3 (3 + (s_nblocks s - 3)) s (alloc_block_num s)
unfolding alloc_block_num
alloc_block_num-Search s room = search_block-Search (s_nblocks s - 3) 3 s

-- `alloc_block_num` takes the first flagged block from 3 on below the number of blocks: it clears
-- the flag of that block and no other one. If no such block is flagged, it returns -E_NO_DISK and
-- changes nothing.
pub alloc_block_num_lem :
    (s : Fs)
    → 3 ≤ s_nblocks s
    → ((b : ℕ) × (t : Fs) × (alloc_block_num s ≡ some (ok b, t))
        × (3 ≤ b)
        × (b < s_nblocks s)
        × (marked b s ≡ true)
        × ((c : ℕ) → 3 ≤ c → c < b → marked c s ≡ false)
        × (marked b t ≡ false)
        × ((c : ℕ) → c ≢ b → marked c t ≡ marked c s))
      ⊎ ((alloc_block_num s ≡ some (err e_no_disk, s))
          × ((c : ℕ) → 3 ≤ c → c < s_nblocks s → marked c s ≡ false))
alloc_block_num_lem s room = elim (alloc_block_num-Search s room) [
  | inl (b, runs, lo, hi, free, before) ↦ inl (
    b,
    claim_block b s,
    runs,
    lo,
    omega arith,
    free,
    before,
    claim_block-marked b s,
    λ c ne. claim_block-other b c s ne,
  )
  | inr (runs, full) ↦ inr (runs, λ c lo hi. full c lo (omega arith))
]
