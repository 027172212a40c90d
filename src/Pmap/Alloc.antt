-- ===== src/Pmap/Alloc.antt =====
-- The page allocator: `page_init`, `page_alloc` and `page_free`.
use raspberry_pi_3_jos.Prelude.{
  ℕ, zero, suc, ◌+◌, ◌-◌, ◌*◌, ◌/◌, ◌≤◌, ◌<◌, ◌≡◌, refl, ◌∙◌, ◌⊎◌, inl, inr, true, false, none,
  some, List, [], ◌∷◌, arith, ◌==◌, ltb, if◌then◌else◌, All, Bool-cases, ==_iff,
}
use mathlib.Core.Path.{subst, sym, fun_ext}
use native.Mathlib.Nat.{add-zero}
use raspberry_pi_3_jos.Queue.{Queue, update, list_init, list_insert_head, list_remove}
use raspberry_pi_3_jos.Queue.Chain.{elem, erase, IsQueue}
use raspberry_pi_3_jos.Queue.Refine.{
  list_init-IsQueue, list_insert_head-IsQueue, list_remove-IsQueue,
}
use raspberry_pi_3_jos.Mmu.{by2pg, npage, page2kva}
use raspberry_pi_3_jos.Pmap.{
  Pmap, insert_pages, used_index, page_init, bzero_words, bzero, page_alloc, page_free,
}

bzero_words_outside :
    (n b : ℕ) (mem : ℕ → ℕ) (a : ℕ) → (a < b) ⊎ (b + 8 * n ≤ a) → bzero_words n b mem a ≡ mem a
unfolding bzero_words
bzero_words_outside zero b mem a h = refl
bzero_words_outside (suc n) b mem a h =
    bzero_words_outside n (b + 8) (update mem b 0) a (omega arith) ∙ ground arith

bzero_words_inside : (n b : ℕ) (mem : ℕ → ℕ) (i : ℕ) → i < n → bzero_words n b mem (b + 8 * i) ≡ 0
unfolding bzero_words
bzero_words_inside zero b mem i h = absurd (omega arith)
bzero_words_inside (suc n) b mem zero h =
    let here : b + 8 * 0 ≡ b = omega arith in
    rw here (bzero_words_outside n (b + 8) (update mem b 0) b (omega arith) ∙ ground arith)
bzero_words_inside (suc n) b mem (suc i) h =
    let next : b + 8 * suc i ≡ b + 8 + 8 * i = omega arith in
    rw next (bzero_words_inside n (b + 8) (update mem b 0) i (omega arith))

-- `bzero` of a page clears its 512 words and nothing else.
pub bzero_page :
    (b : ℕ) (mem : ℕ → ℕ)
    → ((i : ℕ) → i < 512 → bzero b by2pg mem (b + 8 * i) ≡ 0)
      × ((a : ℕ) → (a < b) ⊎ (b + by2pg ≤ a) → bzero b by2pg mem a ≡ mem a)
unfolding bzero
bzero_page b mem =
    (λ i h. bzero_words_inside 512 b mem i h, λ a h. bzero_words_outside 512 b mem a h)

bzero_words_either :
    (n b a : ℕ)
    → ((mem : ℕ → ℕ) → bzero_words n b mem a ≡ 0) ⊎ ((mem : ℕ → ℕ) → bzero_words n b mem a ≡ mem a)
unfolding bzero_words
bzero_words_either zero b a = inr (λ mem. refl)
bzero_words_either (suc n) b a = elim (bzero_words_either n (b + 8) a) [
  | inl zeros ↦ inl (λ mem. zeros (update mem b 0))
  | inr keeps ↦ elim (Bool-cases (a == b)) [
    | inl e ↦ inl (λ mem. keeps (update mem b 0) ∙ ground (arith, e))
    | inr e ↦ inr (λ mem. keeps (update mem b 0) ∙ ground (arith, e))
  ]
]

-- A page that was cleared stays the same when it is cleared again.
pub bzero-bzero : (b len : ℕ) (mem : ℕ → ℕ) → bzero b len (bzero b len mem) ≡ bzero b len mem
unfolding bzero
bzero-bzero b len mem = fun_ext (λ a. elim (bzero_words_either (len / 8) b a) [
  | inl zeros ↦ zeros (bzero_words (len / 8) b mem) ∙ sym (zeros mem)
  | inr keeps ↦ keeps (bzero_words (len / 8) b mem)
])

-- The list holds each free page once, all of them in range.
pub record IsFree (s : Pmap) (xs : List ℕ) : Type 0 where
  pub queue : IsQueue s.page_free_list xs
  pub bounds : All (λ x. x < npage) xs

-- The list holds each free page once, all of them in range and not referenced.
pub record IsAlloc (s : Pmap) (xs : List ℕ) : Type 0 where
  pub queue : IsQueue s.page_free_list xs
  pub bounds : All (λ x. x < npage) xs
  pub unused : All (λ x. s.pp_ref x ≡ 0) xs

pub All-get : (P : ℕ → Type 0) (xs : List ℕ) (x : ℕ) → All P xs → elem x xs ≡ true → P x
All-get P [] x p h = absurd (cc)
All-get P (y ∷ ys) x p h = elim (Bool-cases (x == y)) [
  | inl e ↦ rw ((==_iff x y).0 e) p.0
  | inr e ↦ All-get P ys x p.1 (ground arith)
]

-- The pages `i`, ..., `i + n - 1` in front of `xs`, the last one first.
unfoldable pub count_down : ℕ → ℕ → List ℕ → List ℕ
count_down zero i xs = xs
count_down (suc n) i xs = count_down n (i + 1) (i ∷ xs)

elem-below : (xs : List ℕ) (i : ℕ) → All (λ x. x < i) xs → elem i xs ≡ false
elem-below [] i h = refl
elem-below (x ∷ xs) i h = ground (arith, elem-below xs i)

All-weaken : (xs : List ℕ) (i : ℕ) → All (λ x. x < i) xs → All (λ x. x < i + 1) xs
All-weaken [] i h = tt
All-weaken (x ∷ xs) i h = (omega (arith, h.0), All-weaken xs i h.1)

insert_pages-IsQueue :
    (n i : ℕ) (q : Queue) (xs : List ℕ)
    → IsQueue q xs
    → All (λ x. x < i) xs
    → IsQueue (insert_pages n i q) (count_down n i xs) × All (λ x. x < i + n) (count_down n i xs)
unfolding insert_pages count_down
insert_pages-IsQueue zero i q xs v h = (v, rw (add-zero i) h)
insert_pages-IsQueue (suc n) i q xs v h =
    let added = list_insert_head-IsQueue q i xs v (elem-below xs i h) in
    let low : i < i + 1 = omega arith in
    let rest =
      insert_pages-IsQueue n (i + 1) (list_insert_head i q) (i ∷ xs) added
        (low, All-weaken xs i h) in
    let same : i + suc n ≡ i + 1 + n = omega arith in (rest.0, rw same rest.1)

All-count_down :
    (P : ℕ → Type 0) (n i : ℕ) (xs : List ℕ)
    → All P xs
    → ((x : ℕ) → i ≤ x → P x)
    → All P (count_down n i xs)
unfolding count_down
All-count_down P zero i xs h p = h
All-count_down P (suc n) i xs h p =
    All-count_down P n (i + 1) (i ∷ xs) (p i (omega arith), h) (λ x g. p x (omega arith))

above_kernel :
    (s : Pmap) (x : ℕ)
    → used_index ≤ x
    → s.pp_ref x ≡ 0
    → (if ltb x used_index then 1 else s.pp_ref x) ≡ 0
above_kernel s x h e = ground arith

pub page_init-mem : (s : Pmap) → (page_init s).mem ≡ s.mem
unfolding page_init
page_init-mem s = refl

-- Every page above the kernel's is free after `page_init`, the highest first.
pub page_init-IsAlloc :
    (s : Pmap)
    → ((x : ℕ) → used_index ≤ x → s.pp_ref x ≡ 0)
    → IsAlloc (page_init s) (count_down (npage - used_index) used_index [])
unfolding page_init
page_init-IsAlloc s zeros =
    let filled =
      insert_pages-IsQueue (npage - used_index) used_index (list_init s.page_free_list) []
        (list_init-IsQueue s.page_free_list) tt in
    record {
      queue = filled.0;
      bounds = filled.1;
      unused =
          All-count_down (λ x. (if ltb x used_index then 1 else s.pp_ref x) ≡ 0)
            (npage - used_index) used_index [] tt (λ x h. above_kernel s x h (zeros x h));
    }

erase-head : (x : ℕ) (xs : List ℕ) → erase x (x ∷ xs) ≡ xs
erase-head x xs = ground arith

pub All-update :
    (f : ℕ → ℕ) (x v : ℕ) (ys : List ℕ)
    → elem x ys ≡ false
    → All (λ y. f y ≡ 0) ys
    → All (λ y. update f x v y ≡ 0) ys
All-update f x v [] out h = tt
All-update f x v (y ∷ ys) out h = (ground arith, All-update f x v ys (ground arith) h.1)

-- The state after the first free page was taken.
abbrev pub taken : ℕ → Pmap → Pmap
taken x s = record s {
  mem = bzero (page2kva x) by2pg s.mem;
  pp_ref = update s.pp_ref x 0;
  page_free_list = list_remove x s.page_free_list;
}

module _ {s : Pmap} {x : ℕ} {xs : List ℕ} (v : IsFree s (x ∷ xs)) where
  pub page_alloc-taken : page_alloc s ≡ some (x, taken x s)
  unfolding page_alloc
  page_alloc-taken = rw (v.queue.chain.0)

  pub taken-IsFree : IsFree (taken x s) xs
  taken-IsFree = record {
    queue =
        subst (IsQueue (list_remove x s.page_free_list)) (erase-head x xs)
          (list_remove-IsQueue s.page_free_list x (x ∷ xs) v.queue (ground arith));
    bounds = v.bounds.1;
  }

pub IsAlloc-IsFree : (s : Pmap) (xs : List ℕ) → IsAlloc s xs → IsFree s xs
IsAlloc-IsFree s xs v = record { queue = v.queue; bounds = v.bounds }

taken-IsAlloc : {s : Pmap} {x : ℕ} {xs : List ℕ} → IsAlloc s (x ∷ xs) → IsAlloc (taken x s) xs
taken-IsAlloc {s} {x} {xs} v =
    let rest = taken-IsFree (IsAlloc-IsFree s (x ∷ xs) v) in
    record {
      queue = rest.queue;
      bounds = rest.bounds;
      unused = All-update s.pp_ref x 0 xs v.queue.distinct.0 v.unused.1;
    }

-- `page_alloc` takes the first free page off the list, clears it and returns it unreferenced.
pub page_alloc_lem :
    (s : Pmap) (x : ℕ) (xs : List ℕ)
    → IsAlloc s (x ∷ xs)
    → (t : Pmap) × (page_alloc s ≡ some (x, t))
      × IsAlloc t xs
      × (t.pp_ref x ≡ 0)
      × ((i : ℕ) → i < 512 → t.mem (page2kva x + 8 * i) ≡ 0)
page_alloc_lem s x xs v = (
  taken x s,
  page_alloc-taken (IsAlloc-IsFree s (x ∷ xs) v),
  taken-IsAlloc v,
  ground arith,
  (bzero_page (page2kva x) s.mem).0,
)

-- With no free page the kernel panics: no caller sees -E_NO_MEM.
pub page_alloc-empty : (s : Pmap) → IsAlloc s [] → page_alloc s ≡ none
unfolding page_alloc
page_alloc-empty s v = rw (v.queue.chain)

pub page_free-IsFree :
    (s : Pmap) (x : ℕ) (xs : List ℕ)
    → IsFree s xs
    → x < npage
    → elem x xs ≡ false
    → s.pp_ref x ≡ 0
    → IsFree (page_free x s) (x ∷ xs) × ((page_free x s).pp_ref ≡ s.pp_ref)
unfolding page_free
page_free-IsFree s x xs v h out e =
    let zero_ref : ltb 0 (s.pp_ref x) ≡ false = ground arith in
    rw zero_ref (
      record {
        queue = list_insert_head-IsQueue s.page_free_list x xs v.queue out;
        bounds = (h, v.bounds);
      },
      refl,
    )

-- `page_free` puts an unreferenced page that is not free in front of the list, and leaves a
-- referenced page alone.
pub page_free-IsAlloc :
    (s : Pmap) (x : ℕ) (xs : List ℕ)
    → IsAlloc s xs
    → x < npage
    → elem x xs ≡ false
    → s.pp_ref x ≡ 0
    → IsAlloc (page_free x s) (x ∷ xs)
page_free-IsAlloc s x xs v h out e =
    let (freed, counts) = page_free-IsFree s x xs (IsAlloc-IsFree s xs v) h out e in
    record {
      queue = freed.queue;
      bounds = freed.bounds;
      unused = subst (λ f. All (λ y. f y ≡ 0) (x ∷ xs)) (sym counts) (e, v.unused);
    }
