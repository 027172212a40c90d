-- ===== src/Fs/Paths/Walks.antt =====
-- What `walk_path` and the search of a directory block give.
use raspberry_pi_3_jos.Prelude.{
  ℕ, zero, suc, ◌+◌, ◌*◌, ◌≤◌, ◌<◌, ◌≡◌, refl, sym, ap, ◌∙◌, ◌⊎◌, inl, inr, true, false, not,
  Option, none, some, List, [], ◌∷◌, arith, ◌==◌, leb, if◌then◌else◌, length, Bool-cases,
}
use raspberry_pi_3_jos.Prelude.State.{Cmd, Result, ok, err, and_then}
use raspberry_pi_3_jos.Fs.{Fs}
use raspberry_pi_3_jos.Fs.Files.{f_type, e_not_found}
use raspberry_pi_3_jos.Fs.Paths.{
  maxnamelen, ftype_dir, e_bad_path, by2file, slash, same_name, find_entry, skip_slash, first_name,
  dir_lookup, lookup_failed, Walk, failed, walk_names, s_root, walk_path,
}

skip_slash-length : (cs : List ℕ) → length (skip_slash cs) ≤ length cs
unfolding skip_slash
skip_slash-length [] = omega arith
skip_slash-length (c ∷ cs) = elim (Bool-cases (c == slash)) [
  | inl e ↦ rw e (omega (arith, skip_slash-length cs))
  | inr e ↦ rw e (omega arith)
]

first_name-length : (cs : List ℕ) → length (first_name cs).1 ≤ length cs
unfolding first_name
first_name-length [] = omega arith
first_name-length (c ∷ cs) = elim (Bool-cases (c == slash)) [
  | inl e ↦ rw e (omega arith)
  | inr e ↦ rw e (omega (arith, first_name-length cs))
]

-- A round of the loop leaves a shorter path.
next-length : (c : ℕ) (cs : List ℕ) → length (skip_slash (first_name (c ∷ cs)).1) ≤ length cs
unfolding first_name
next-length c cs = elim (Bool-cases (c == slash)) [
  | inl e ↦ rw e (unfold skip_slash in rw e (skip_slash-length cs))
  | inr e ↦ rw e (omega (arith, skip_slash-length (first_name cs).1, first_name-length cs))
]

-- The lookup is the same whatever follows, if that is the same where it succeeds.
looked_up :
    (r : Option (Result ℕ × Fs)) (lost : ℕ → Cmd Fs Walk) (f g : ℕ → Cmd Fs Walk)
    → ((a : ℕ) (s : Fs) → f a s ≡ g a s)
    → and_then r (λ x t. elim x [ err code ↦ lost code t | ok next ↦ f next t ])
      ≡ and_then r (λ x t. elim x [ err code ↦ lost code t | ok next ↦ g next t ])
looked_up none lost f g same = refl
looked_up (some (err code, s)) lost f g same = refl
looked_up (some (ok a, s)) lost f g same = same a s

-- Fuel for each character of the path is enough: more changes nothing.
pub walk_names_fuel :
    (fuel fuel' : ℕ) (path : List ℕ) (dir file : ℕ) (s : Fs)
    → length path ≤ fuel
    → length path ≤ fuel'
    → walk_names fuel path dir file s ≡ walk_names fuel' path dir file s
unfolding walk_names
walk_names_fuel zero zero [] dir file s h h' = refl
walk_names_fuel zero (suc m) [] dir file s h h' = refl
walk_names_fuel (suc n) zero [] dir file s h h' = refl
walk_names_fuel (suc n) (suc m) [] dir file s h h' = refl
walk_names_fuel zero m (c ∷ cs) dir file s h h' = absurd (omega arith)
walk_names_fuel (suc n) zero (c ∷ cs) dir file s h h' = absurd (omega arith)
walk_names_fuel (suc n) (suc m) (c ∷ cs) dir file s h h' =
    let name = (first_name (c ∷ cs)).0 in
    let path = skip_slash (first_name (c ∷ cs)).1 in
    let shorter = next-length c cs in
    ap
      (λ (looked : Option (Walk × Fs)).
        if leb maxnamelen (length name)
        then some (failed e_bad_path, s)
        else if not (s.words (f_type file) == ftype_dir)
        then some (failed e_not_found, s)
        else looked)
      (looked_up (dir_lookup file name s) (λ code t. some (lookup_failed code path file name, t))
        (walk_names n path file) (walk_names m path file)
        (λ next t. walk_names_fuel n m path file next t (omega arith) (omega arith)))

-- Slashes in front of a path do not matter.
pub walk_path-slash : (path : List ℕ) (s : Fs) → walk_path (slash ∷ path) s ≡ walk_path path s
unfolding walk_path skip_slash
walk_path-slash path s =
    walk_names_fuel (suc (length path)) (length path) (skip_slash path) 0 (s_root s) s
      (omega (arith, skip_slash-length path)) (skip_slash-length path)

shift : (f j : ℕ) → f + by2file + j * by2file ≡ f + suc j * by2file
shift f j = omega arith

missed :
    (f : ℕ) (name : List ℕ) (s : Fs) (n : ℕ)
    → same_name f name s ≡ false
    → ((i : ℕ) → i < n → same_name (f + by2file + i * by2file) name s ≡ false)
    → (i : ℕ) → i < suc n
    → same_name (f + i * by2file) name s ≡ false
missed f name s n e later zero h = ap (λ (a : ℕ). same_name a name s) (omega arith) ∙ e
missed f name s n e later (suc i) h =
    ap (λ (a : ℕ). same_name a name s) (sym (shift f i)) ∙ later i (omega arith)

-- The search of a directory block finds the first of its entries that has the name; it fails if no
-- entry has it.
pub find_entry_lem :
    (rounds f : ℕ) (name : List ℕ) (s : Fs)
    → ((j : ℕ) × (find_entry rounds f name s ≡ some (f + j * by2file))
        × (j < rounds)
        × (same_name (f + j * by2file) name s ≡ true)
        × ((i : ℕ) → i < j → same_name (f + i * by2file) name s ≡ false))
      ⊎ (find_entry rounds f name s ≡ none)
        × ((i : ℕ) → i < rounds → same_name (f + i * by2file) name s ≡ false)
unfolding find_entry
find_entry_lem zero f name s = inr (refl, λ i h. absurd (omega arith))
find_entry_lem (suc rounds) f name s = elim (Bool-cases (same_name f name s)) [
  | inl e ↦
      let here : f + 0 * by2file ≡ f = omega arith in
      inl (
        0,
        rw (e, here) refl,
        omega arith,
        ap (λ (a : ℕ). same_name a name s) here ∙ e,
        λ i h. absurd (omega arith),
      )
  | inr e ↦ elim (find_entry_lem rounds (f + by2file) name s) [
    | inl (j, runs, lt, hit, before) ↦ inl (
      suc j,
      rw e (runs ∙ ap (λ (a : ℕ). some a) (shift f j)),
      omega arith,
      ap (λ (a : ℕ). same_name a name s) (sym (shift f j)) ∙ hit,
      missed f name s j e before,
    )
    | inr (runs, misses) ↦ inr (rw e runs, missed f name s rounds e misses)
  ]
]
