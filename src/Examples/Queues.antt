-- ===== src/Examples/Queues.antt =====
-- Lists with a few elements.
use raspberry_pi_3_jos.Prelude.{refl, none, [], ◌∷◌}
use raspberry_pi_3_jos.Queue.{Queue, first_of_head, list_init, list_insert_head, list_remove}
use raspberry_pi_3_jos.Queue.Chain.{erase, IsQueue}
use raspberry_pi_3_jos.Queue.Refine.{
  list_init-IsQueue, list_insert_head-IsQueue, list_remove-IsQueue,
}

-- Links of memory that was cleared.
pub blank : Queue
blank = record { lh_first = none; le_next = λ _. none; le_prev = λ _. first_of_head }

abbrev pub three : Queue
three = list_insert_head 10 (list_insert_head 9 (list_insert_head 8 (list_init blank)))

pub three-IsQueue : IsQueue three (10 ∷ 9 ∷ 8 ∷ [])
three-IsQueue =
    list_insert_head-IsQueue (list_insert_head 9 (list_insert_head 8 (list_init blank))) 10
      (9 ∷ 8 ∷ [])
      (list_insert_head-IsQueue (list_insert_head 8 (list_init blank)) 9 (8 ∷ [])
        (list_insert_head-IsQueue (list_init blank) 8 [] (list_init-IsQueue blank) refl) refl)
      refl

list_remove_example : IsQueue (list_remove 9 three) (erase 9 (10 ∷ 9 ∷ 8 ∷ []))
list_remove_example = list_remove-IsQueue three 9 (10 ∷ 9 ∷ 8 ∷ []) three-IsQueue refl
