-- ===== src/Queue.antt =====
-- The doubly linked lists of OS/include/queue.h, over elements that are indices of an array
-- (`pages` in OS/mm/pmap.c, `envs` in OS/lib/env.c). `le_prev` holds the address of the pointer
-- that points at the element: a `Slot`.
pub mod Chain
pub mod Refine
use raspberry_pi_3_jos.Prelude.{ℕ, Bool, Option, none, some, ◌==◌, if◌then◌else◌}

-- The address of a pointer: `&head->lh_first`, or `&elm->field.le_next`.
pub data Slot : Type 0 where
  first_of_head : Slot
  next_of : ℕ → Slot

pub record Queue : Type 0 where
  pub lh_first : Option ℕ
  pub le_next : ℕ → Option ℕ
  pub le_prev : ℕ → Slot

abbrev pub update {ℓ} : {A : Type ℓ} → (ℕ → A) → ℕ → A → ℕ → A
update f x v y = if y == x then v else f y

-- `*slot = p`
store : Slot → Option ℕ → Queue → Queue
store first_of_head p q = record q { lh_first = p }
store (next_of x) p q = record q { le_next = update q.le_next x p }

-- `if (p != NULL) p->field.le_prev = slot`
set_prev : Option ℕ → Slot → Queue → Queue
set_prev none slot q = q
set_prev (some y) slot q = record q { le_prev = update q.le_prev y slot }

-- LIST_INIT. The links of the elements keep what they held.
unfoldable pub list_init : Queue → Queue
list_init q = record q { lh_first = none }

-- LIST_FIRST
abbrev pub list_first : Queue → Option ℕ
list_first q = q.lh_first

-- LIST_INSERT_HEAD
unfoldable pub list_insert_head : ℕ → Queue → Queue
unfolding set_prev
list_insert_head x q =
    let linked = record q { le_next = update q.le_next x q.lh_first } in
    let behind = set_prev q.lh_first (next_of x) linked in
    record behind { lh_first = some x; le_prev = update behind.le_prev x first_of_head }

-- LIST_REMOVE
unfoldable pub list_remove : ℕ → Queue → Queue
unfolding set_prev store
list_remove x q =
    let q' = set_prev (q.le_next x) (q.le_prev x) q in store (q'.le_prev x) (q'.le_next x) q'
