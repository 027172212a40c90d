-- ===== src/Pmap/Same.antt =====
-- A state in which every table is what it was: after a page was allocated for data, and after data
-- was written.
use raspberry_pi_3_jos.Prelude.{ℕ, ◌<◌, ◌≡◌, refl, ap, ◌∙◌, ◌≢◌, true, false, List, ◌∷◌, arith}
use raspberry_pi_3_jos.Queue.Chain.{elem}
use raspberry_pi_3_jos.Mmu.{npage, ptx, page2kva}
use raspberry_pi_3_jos.Pmap.{Pmap}
use raspberry_pi_3_jos.Pmap.Alloc.{taken, IsFree, taken-IsFree, bzero_page}
use raspberry_pi_3_jos.Pmap.Tables.{word, word_outside, IsPaged, IsTree}
use raspberry_pi_3_jos.Pmap.Walk.{ptx-lt}
use raspberry_pi_3_jos.Pmap.Maps.{Maps, kept-Maps}

-- The words of every table are the same.
abbrev pub SameTables : (mem level mem' : ℕ → ℕ) → Type 0
SameTables mem level mem' = (q i : ℕ) → level q ≢ 0 → i < 512 → mem' (word q i) ≡ mem (word q i)

pub same-IsPaged :
    (s t : Pmap) (level : ℕ → ℕ) (ys xs : List ℕ)
    → IsPaged s level ys
    → SameTables s.mem level t.mem
    → IsFree t xs
    → ((y : ℕ) → elem y xs ≡ true → elem y ys ≡ true)
    → IsPaged t level xs
same-IsPaged s t level ys xs v same free within = record {
  alloc = free;
  tables = v.tables;
  free = λ y h. v.free y (within y h);
  entries = λ p i lo hi h valid.
      let kept = same p i (λ z. omega arith) h in
      let old = v.entries p i lo hi h (rw kept at valid) in (old.0, rw kept old.1, old.2);
}

pub same-IsTree :
    (mem level mem' : ℕ → ℕ) → SameTables mem level mem' → IsTree mem level → IsTree mem' level
same-IsTree mem level mem' same tree p i p' i' q a b a' b' h h' n n' =
    let kept = same p i a h in
    let kept' = same p' i' a' h' in
    tree p i p' i' q a b a' b' h h'
      (record { valid = rw kept at n.valid; target = rw kept at n.target })
      (record { valid = rw kept' at n'.valid; target = rw kept' at n'.target })

pub same-Maps :
    (mem level mem' : ℕ → ℕ) (p va pp r : ℕ)
    → SameTables mem level mem'
    → level p ≡ 1
    → Maps mem level p va pp r
    → Maps mem' level p va pp r
same-Maps mem level mem' p va pp r same top m =
    kept-Maps mem level mem' level p va top (λ q h. refl) (λ q j a b h e. same q j a h) pp r m
      (same m.leads.table (ptx va) (λ z. omega (arith, m.leads.table_level)) (ptx-lt va))

-- The state after the page `x` was allocated for data and the counts became `r`.
abbrev pub based : (ℕ → ℕ) → ℕ → Pmap → Pmap
based r x s = record (taken x s) { pp_ref = r }

module _ {s : Pmap} {level : ℕ → ℕ} {x : ℕ} {xs : List ℕ} (v : IsPaged s level (x ∷ xs)) where
  pub fresh-level : level x ≡ 0
  fresh-level = v.free x (ground arith)

  pub fresh-bound : x < npage
  fresh-bound = v.alloc.bounds.0

  pub fresh-distinct : elem x xs ≡ false
  fresh-distinct = v.alloc.queue.distinct.0

  module _ (r : ℕ → ℕ) where
    pub fresh-new : (i : ℕ) → i < 512 → (based r x s).mem (word x i) ≡ 0
    fresh-new i h = (bzero_page (page2kva x) s.mem).0 i h

    pub fresh-other :
        (q i : ℕ) → q < npage → i < 512 → q ≢ x → (based r x s).mem (word q i) ≡ s.mem (word q i)
    fresh-other q i b h ne =
        (bzero_page (page2kva x) s.mem).1 (word q i) (word_outside q x i b fresh-bound h ne)

    pub fresh-SameTables : SameTables s.mem level (based r x s).mem
    fresh-SameTables q i h k = fresh-other q i (v.tables q h) k (λ e. h (ap level e ∙ fresh-level))

    pub fresh-IsPaged : IsPaged (based r x s) level xs
    fresh-IsPaged =
        let t = taken-IsFree v.alloc in
        same-IsPaged s (based r x s) level (x ∷ xs) xs v fresh-SameTables
          (record { queue = t.queue; bounds = t.bounds }) (λ y h. ground arith)
