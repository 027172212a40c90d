-- ===== src/Pmap/Tables.antt =====
-- The tables in memory. `level` names the pages that hold tables: 1 for a page directory, up to 4
-- for a table of pages; every other page has level 0.
use raspberry_pi_3_jos.Prelude.{
  ℕ, suc, ◌+◌, ◌*◌, ◌≤◌, ◌<◌, ◌≡◌, refl, sym, ◌∙◌, ◌≢◌, ◌⊎◌, inl, inr, true, List, arith, ◌==◌,
  Bool-cases,
}
use raspberry_pi_3_jos.Queue.Chain.{elem}
use raspberry_pi_3_jos.Mmu.{npage, pte_addr, kaddr, is_valid, page2pa, page2kva}
use raspberry_pi_3_jos.Mmu.Fields.{page2kva-eq}
use raspberry_pi_3_jos.Pmap.{Pmap}
use raspberry_pi_3_jos.Pmap.Alloc.{IsFree}

-- The kernel's address of entry `i` in the page `p`.
abbrev pub word : ℕ → ℕ → ℕ
word p i = page2kva p + 8 * i

-- Entry `i` of table `p` is valid and names the page `q`.
pub record Names (mem : ℕ → ℕ) (p i q : ℕ) : Type 0 where
  pub valid : is_valid (mem (word p i)) ≡ true
  pub target : pte_addr (mem (word p i)) ≡ page2pa q

pub record IsPaged (s : Pmap) (level : ℕ → ℕ) (xs : List ℕ) : Type 0 where
  pub alloc : IsFree s xs
  pub tables : (p : ℕ) → level p ≢ 0 → p < npage
  pub free : (x : ℕ) → elem x xs ≡ true → level x ≡ 0
  pub entries :
      (p i : ℕ)
      → 1 ≤ level p
      → level p ≤ 3
      → i < 512
      → is_valid (s.mem (word p i)) ≡ true
      → (q : ℕ) × (pte_addr (s.mem (word p i)) ≡ page2pa q) × (level q ≡ suc (level p))

-- No two entries above the last level name the same table.
abbrev pub IsTree : (mem level : ℕ → ℕ) → Type 0
IsTree mem level =
    (p i p' i' q : ℕ)
    → level p ≢ 0
    → level p ≤ 3
    → level p' ≢ 0
    → level p' ≤ 3
    → i < 512
    → i' < 512
    → Names mem p i q
    → Names mem p' i' q
    → (p ≡ p') × (i ≡ i')

-- Tables may have been added; the valid entries are what they were, and so are the counts of the
-- tables that were there and the counts and the words of the pages that are no tables.
pub record Grows (s : Pmap) (level : ℕ → ℕ) (t : Pmap) (level' : ℕ → ℕ) : Type 0 where
  pub keeps_level : (p : ℕ) → level p ≢ 0 → level' p ≡ level p
  pub keeps_entry :
      (p i : ℕ)
      → level p ≢ 0
      → i < 512
      → is_valid (s.mem (word p i)) ≡ true
      → t.mem (word p i) ≡ s.mem (word p i)
  pub keeps_ref : (x : ℕ) → level' x ≡ 0 → t.pp_ref x ≡ s.pp_ref x
  pub keeps_table_ref : (x : ℕ) → level x ≢ 0 → t.pp_ref x ≡ s.pp_ref x
  pub keeps_data :
      (q i : ℕ) → q < npage → i < 512 → level' q ≡ 0 → t.mem (word q i) ≡ s.mem (word q i)
  pub keeps_tree : IsTree s.mem level → IsTree t.mem level'

pub Grows-refl : (s : Pmap) (level : ℕ → ℕ) → Grows s level s level
Grows-refl s level = record {
  keeps_level = λ p h. refl;
  keeps_entry = λ p i h k e. refl;
  keeps_ref = λ x h. refl;
  keeps_table_ref = λ x h. refl;
  keeps_data = λ q i h k z. refl;
  keeps_tree = λ h. h;
}

still_zero :
    (s : Pmap) (l : ℕ → ℕ) (t : Pmap) (m : ℕ → ℕ) (u : Pmap) (n : ℕ → ℕ)
    → Grows s l t m
    → Grows t m u n
    → (x : ℕ) → n x ≡ 0
    → m x ≡ 0
still_zero s l t m u n g h x e = elim (Bool-cases (m x == 0)) [
  | inl zero ↦ ground arith
  | inr more ↦
      let table : m x ≢ 0 = ground arith in absurd (table (sym (h.keeps_level x table) ∙ e))
]

pub Grows-trans :
    (s : Pmap) (l : ℕ → ℕ) (t : Pmap) (m : ℕ → ℕ) (u : Pmap) (n : ℕ → ℕ)
    → Grows s l t m
    → Grows t m u n
    → Grows s l u n
Grows-trans s l t m u n g h = record {
  keeps_level = λ p e. h.keeps_level p (rw (g.keeps_level p e) e) ∙ g.keeps_level p e;
  keeps_entry = λ p i e k v.
      let same = g.keeps_entry p i e k v in
      h.keeps_entry p i (rw (g.keeps_level p e) e) k (rw same v) ∙ same;
  keeps_ref = λ x e. h.keeps_ref x e ∙ g.keeps_ref x (still_zero s l t m u n g h x e);
  keeps_table_ref = λ x e. h.keeps_table_ref x (rw (g.keeps_level x e) e) ∙ g.keeps_table_ref x e;
  keeps_data =
      λ q i b k e. h.keeps_data q i b k e ∙ g.keeps_data q i b k (still_zero s l t m u n g h q e);
  keeps_tree = λ tree. h.keeps_tree (g.keeps_tree tree);
}

pub Names-grow :
    (s : Pmap) (l : ℕ → ℕ) (t : Pmap) (m : ℕ → ℕ) (p i q : ℕ)
    → Grows s l t m
    → l p ≢ 0
    → i < 512
    → Names s.mem p i q
    → Names t.mem p i q
Names-grow s l t m p i q g e k n =
    let same = g.keeps_entry p i e k n.valid in
    record { valid = rw same n.valid; target = rw same n.target }

pub kaddr_page : (p : ℕ) → kaddr (page2pa p) ≡ page2kva p
unfolding page2kva page2pa
kaddr_page p = refl

pub page2pa-injective : (p q : ℕ) → page2pa p ≡ page2pa q → p ≡ q
unfolding page2pa
page2pa-injective p q e = omega arith

-- Distinct pages in range have distinct words.
pub word_apart :
    (p q i j : ℕ) → p < npage → q < npage → i < 512 → j < 512 → p ≢ q → word p i ≢ word q j
word_apart p q i j hp hq hi hj ne e =
    ne (omega (arith, page2kva-eq p (omega arith), page2kva-eq q (omega arith)))

pub word_outside :
    (p x i : ℕ)
    → p < npage
    → x < npage
    → i < 512
    → p ≢ x
    → (word p i < page2kva x) ⊎ (page2kva x + 4096 ≤ word p i)
word_outside p x i hp hx hi ne =
    omega (arith, page2kva-eq p (omega arith), page2kva-eq x (omega arith))
