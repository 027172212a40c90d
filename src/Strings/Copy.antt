-- ===== src/Strings/Copy.antt =====
-- `memcpy`, `strcpy`, `user_bcopy` and `user_bzero` on regions that do not overlap.
use raspberry_pi_3_jos.Prelude.{
  ℕ, zero, suc, ◌+◌, ◌-◌, ◌*◌, ◌/◌, ◌%◌, ◌≤◌, ◌<◌, ◌≡◌, refl, ap, ◌∙◌, true, false, some, List, [],
  ◌∷◌, arith, ◌==◌, ltb, length, Bool-cases, inl, inr, ◌⊎◌,
}
use raspberry_pi_3_jos.Queue.{update}
use raspberry_pi_3_jos.Strings.{strcpy, memcpy, copy_int, copy_ints, user_bcopy}
use raspberry_pi_3_jos.Strings.Scan.{IsString}

-- The regions of `n` bytes at `a` and at `b` do not overlap.
abbrev pub Apart : (a b n : ℕ) → Type 0
Apart a b n = (a + n ≤ b) ⊎ (b + n ≤ a)

-- `mem'` is `mem` but for the `n` bytes from `dst` on, which are those from `src` on.
abbrev pub IsCopy : (dst src n : ℕ) → (mem mem' : ℕ → ℕ) → Type 0
IsCopy dst src n mem mem' =
    ((i : ℕ) → i < n → mem' (dst + i) ≡ mem (src + i))
    × ((a : ℕ) → (a < dst) ⊎ (dst + n ≤ a) → mem' a ≡ mem a)

memcpy_outside :
    (n dst src : ℕ) (mem : ℕ → ℕ) (a : ℕ)
    → (a < dst) ⊎ (dst + n ≤ a)
    → memcpy n dst src mem a ≡ mem a
unfolding memcpy
memcpy_outside zero dst src mem a h = refl
memcpy_outside (suc n) dst src mem a h =
    memcpy_outside n (dst + 1) (src + 1) (update mem dst (mem src)) a (omega arith) ∙ ground arith

memcpy_inside :
    (n dst src : ℕ) (mem : ℕ → ℕ) (i : ℕ)
    → Apart dst src n
    → i < n
    → memcpy n dst src mem (dst + i) ≡ mem (src + i)
unfolding memcpy
memcpy_inside zero dst src mem i h lt = absurd (omega arith)
memcpy_inside (suc n) dst src mem zero h lt =
    let here : dst + 0 ≡ dst = omega arith in
    let there : src + 0 ≡ src = omega arith in
    rw (here, there)
      (memcpy_outside n (dst + 1) (src + 1) (update mem dst (mem src)) dst (omega arith)
        ∙ ground arith)
memcpy_inside (suc n) dst src mem (suc i) h lt =
    let here : dst + suc i ≡ dst + 1 + i = omega arith in
    let there : src + suc i ≡ src + 1 + i = omega arith in
    rw (here, there)
      (memcpy_inside n (dst + 1) (src + 1) (update mem dst (mem src)) i (omega arith) (omega arith)
        ∙ ground arith)

-- `memcpy` between regions that do not overlap copies the bytes and changes no other byte.
pub memcpy-IsCopy :
    (n dst src : ℕ) (mem : ℕ → ℕ) → Apart dst src n → IsCopy dst src n mem (memcpy n dst src mem)
memcpy-IsCopy n dst src mem h =
    (λ i lt. memcpy_inside n dst src mem i h lt, λ a out. memcpy_outside n dst src mem a out)

IsString-frame :
    (mem mem' : ℕ → ℕ) (s : ℕ) (cs : List ℕ)
    → ((a : ℕ) → s ≤ a → a ≤ s + length cs → mem' a ≡ mem a)
    → IsString mem s cs
    → IsString mem' s cs
IsString-frame mem mem' s [] same h = same s (omega arith) (omega arith) ∙ h
IsString-frame mem mem' s (c ∷ cs) same h = (
  same s (omega arith) (omega arith) ∙ h.0,
  h.1,
  IsString-frame mem mem' (s + 1) cs (λ a lo hi. same a (omega arith) (omega arith)) h.2,
)

-- `strcpy` of a string to a place that does not overlap it returns, and is the `memcpy` of its
-- characters and the NUL.
pub strcpy-memcpy :
    (fuel : ℕ) (dst src : ℕ) (mem : ℕ → ℕ) (cs : List ℕ)
    → IsString mem src cs
    → Apart dst src (suc (length cs))
    → length cs < fuel
    → strcpy fuel dst src mem ≡ some (memcpy (suc (length cs)) dst src mem)
unfolding strcpy memcpy
strcpy-memcpy zero dst src mem cs h far lt = absurd (omega arith)
strcpy-memcpy (suc fuel) dst src mem [] h far lt =
    let nul : (mem src == 0) ≡ true = ground (arith, h) in rw nul refl
strcpy-memcpy (suc fuel) dst src mem (c ∷ cs) h far lt =
    let more : (mem src == 0) ≡ false = ground (arith, h.0, h.1) in
    let mem' = update mem dst (mem src) in
    rw more (
      strcpy-memcpy fuel (dst + 1) (src + 1) mem' cs
        (IsString-frame mem mem' (src + 1) cs (λ a lo hi. ground arith) h.2) (omega arith)
        (omega arith))

copy_int_outside :
    (src dst : ℕ) (mem : ℕ → ℕ) (a : ℕ) → (a < dst) ⊎ (dst + 4 ≤ a) → copy_int src dst mem a ≡ mem a
unfolding copy_int
copy_int_outside src dst mem a h = ground arith

copy_ints_outside :
    (n src dst : ℕ) (mem : ℕ → ℕ) (a : ℕ)
    → (a < dst) ⊎ (dst + 4 * n ≤ a)
    → copy_ints n src dst mem a ≡ mem a
unfolding copy_ints
copy_ints_outside zero src dst mem a h = refl
copy_ints_outside (suc n) src dst mem a h =
    copy_ints_outside n (src + 4) (dst + 4) (copy_int src dst mem) a (omega arith)
    ∙ copy_int_outside src dst mem a (omega arith)

copy_int_here :
    (src dst : ℕ) (mem : ℕ → ℕ) (i : ℕ) → i < 4 → copy_int src dst mem (dst + i) ≡ mem (src + i)
unfolding copy_int
copy_int_here src dst mem zero h = ground arith
copy_int_here src dst mem (suc zero) h = ground arith
copy_int_here src dst mem (suc (suc zero)) h = ground arith
copy_int_here src dst mem (suc (suc (suc zero))) h = ground arith
copy_int_here src dst mem (suc (suc (suc (suc i)))) h = absurd (omega arith)

copy_ints_inside :
    (n src dst : ℕ) (mem : ℕ → ℕ) (i : ℕ)
    → Apart dst src (4 * n)
    → i < 4 * n
    → copy_ints n src dst mem (dst + i) ≡ mem (src + i)
unfolding copy_ints
copy_ints_inside zero src dst mem i far lt = absurd (omega arith)
copy_ints_inside (suc n) src dst mem i far lt = elim (Bool-cases (ltb i 4)) [
  | inl e ↦
      copy_ints_outside n (src + 4) (dst + 4) (copy_int src dst mem) (dst + i) (ground arith)
      ∙ copy_int_here src dst mem i (ground arith)
  | inr e ↦
      let here : dst + i ≡ dst + 4 + (i - 4) = ground arith in
      let there : src + 4 + (i - 4) ≡ src + i = ground arith in
      let untouched : copy_int src dst mem (src + 4 + (i - 4)) ≡ mem (src + 4 + (i - 4)) =
        copy_int_outside src dst mem (src + 4 + (i - 4)) (ground arith) in
      ap (copy_ints n (src + 4) (dst + 4) (copy_int src dst mem)) here
      ∙ copy_ints_inside n (src + 4) (dst + 4) (copy_int src dst mem) (i - 4) (omega arith)
          (ground arith)
      ∙ untouched
      ∙ ap mem there
]

-- `user_bcopy`, four bytes at a time, copies what `memcpy` copies between regions that do not
-- overlap.
pub user_bcopy-IsCopy :
    (src dst len : ℕ) (mem : ℕ → ℕ)
    → Apart dst src len
    → IsCopy dst src len mem (user_bcopy src dst len mem)
unfolding user_bcopy
user_bcopy-IsCopy src dst len mem far =
    let whole = len / 4 in
    let mem' = copy_ints whole src dst mem in
    (
      λ i lt. elim (Bool-cases (ltb i (4 * whole))) [
        | inl e ↦
            memcpy_outside (len % 4) (dst + 4 * whole) (src + 4 * whole) mem' (dst + i)
              (ground arith)
            ∙ copy_ints_inside whole src dst mem i (omega arith) (ground arith)
        | inr e ↦
            let j = i - 4 * whole in
            let here : dst + i ≡ dst + 4 * whole + j = ground arith in
            let there : src + 4 * whole + j ≡ src + i = ground arith in
            ap (memcpy (len % 4) (dst + 4 * whole) (src + 4 * whole) mem') here
            ∙ memcpy_inside (len % 4) (dst + 4 * whole) (src + 4 * whole) mem' j (omega arith)
                (ground arith)
            ∙ copy_ints_outside whole src dst mem (src + 4 * whole + j) (ground arith)
            ∙ ap mem there
      ],
      λ a out.
          memcpy_outside (len % 4) (dst + 4 * whole) (src + 4 * whole) mem' a (omega arith)
          ∙ copy_ints_outside whole src dst mem a (omega arith),
    )
