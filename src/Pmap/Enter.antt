-- ===== src/Pmap/Enter.antt =====
-- One level of the walk: `next_entry`.
use raspberry_pi_3_jos.Prelude.{
  ℕ, suc, ◌+◌, ◌*◌, ◌≤◌, ◌<◌, ◌≡◌, ◌≢◌, refl, ap, ◌∙◌, inl, inr, Bool, true, false, some, List, [],
  ◌∷◌, arith, Bool-cases, length,
}
use raspberry_pi_3_jos.Queue.{update}
use raspberry_pi_3_jos.Queue.Chain.{elem}
use raspberry_pi_3_jos.Mmu.{kaddr, is_valid, page2pa, page2kva}
use raspberry_pi_3_jos.Pmap.{Pmap, enter_table, next_entry}
use raspberry_pi_3_jos.Pmap.Alloc.{page_alloc-taken}
use raspberry_pi_3_jos.Pmap.Tables.{word, Names, IsPaged, Grows, Grows-refl, kaddr_page}
use raspberry_pi_3_jos.Pmap.Grown.{grown, grown-only, grown-Names, grown-Grows, grown-IsPaged}

-- What one level of the walk gives: the entry is valid and names a table of the next level, the
-- address of its entry `j` is returned, and at most one free page was used.
pub record Entered (s : Pmap) (level : ℕ → ℕ) (xs : List ℕ) (p i j : ℕ) : Type 0 where
  pub state : Pmap
  pub levels : ℕ → ℕ
  pub free : List ℕ
  pub table : ℕ
  pub runs : next_entry (word p i) j true s ≡ some (some (word table j), state)
  pub paged : IsPaged state levels free
  pub grows : Grows s level state levels
  pub names : Names state.mem p i table
  pub deeper : levels table ≡ suc (level p)
  pub used : length xs ≤ suc (length free)
  pub fewer : (y : ℕ) → elem y xs ≡ false → elem y free ≡ false
  pub stays : (y : ℕ) → elem y xs ≡ false → level y ≡ 0 → levels y ≡ 0
  pub only :
      (q k : ℕ)
      → level q ≢ 0
      → k < 512
      → word q k ≢ word p i
      → state.mem (word q k) ≡ s.mem (word q k)

pub next_entry-valid :
    (s : Pmap) (p i q j : ℕ) (create : Bool)
    → Names s.mem p i q
    → next_entry (word p i) j create s ≡ some (some (word q j), s)
unfolding next_entry enter_table page2kva page2pa
next_entry-valid s p i q j create n = rw (n.valid, n.target)

module _ {s : Pmap} {level : ℕ → ℕ} {x : ℕ} {xs : List ℕ} (v : IsPaged s level (x ∷ xs)) (p i : ℕ)
    (blank : is_valid (s.mem (word p i)) ≡ false) where
  enter_table-new : enter_table (word p i) true s ≡ some (true, grown x (word p i) s)
  unfolding enter_table
  enter_table-new = rw (blank, page_alloc-taken v.alloc)

  next_entry-new :
      (j : ℕ)
      → Names (grown x (word p i) s).mem p i x
      → next_entry (word p i) j true s ≡ some (some (word x j), grown x (word p i) s)
  unfolding next_entry
  next_entry-new j n = rw enter_table-new (
      ap (λ (a : ℕ). some (some (a + 8 * j), grown x (word p i) s))
        (ap kaddr n.target ∙ kaddr_page x))

pub next_entry-Entered :
    {s : Pmap} {level : ℕ → ℕ} {xs : List ℕ} (v : IsPaged s level xs) (p i j : ℕ)
    → 1 ≤ level p
    → level p ≤ 3
    → i < 512
    → 1 ≤ length xs
    → Entered s level xs p i j
next_entry-Entered {s} {level} {xs = []} v p i j lo hi k enough = absurd (omega arith)
next_entry-Entered {s} {level} {xs = x ∷ xs} v p i j lo hi k enough =
    elim (Bool-cases (is_valid (s.mem (word p i)))) [
      | inl e ↦
          let old = v.entries p i lo hi k e in
          let n : Names s.mem p i old.0 = record { valid = e; target = old.1 } in
          record {
            state = s;
            levels = level;
            free = x ∷ xs;
            table = old.0;
            runs = next_entry-valid s p i old.0 j true n;
            paged = v;
            grows = Grows-refl s level;
            names = n;
            deeper = old.2;
            used = omega arith;
            fewer = λ y h. h;
            stays = λ y h z. z;
            only = λ q j h b ne. refl;
          }
      | inr e ↦ record {
        state = grown x (word p i) s;
        levels = update level x (suc (level p));
        free = xs;
        table = x;
        runs = next_entry-new v p i e j (grown-Names v p i lo hi k);
        paged = grown-IsPaged v p i lo hi k;
        grows = grown-Grows v p i lo hi k e;
        names = grown-Names v p i lo hi k;
        deeper = ground arith;
        used = omega arith;
        fewer = λ y h. ground arith;
        stays = λ y h z. ground arith;
        only = grown-only v p i lo hi k;
      }
    ]
