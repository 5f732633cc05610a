-- ===== src/Queue/Tests.antt =====
-- Runs of myqueue.h on small queues, and its theorems at them.
use public_systems_projects.Base.{◌≡◌, refl, some, List, [], ◌∷◌, arith, pos, negsuc, ret}
use public_systems_projects.Queue.{
  Queue, queue_enqueue, queue_dequeue, queue_empty, queue_full, queue_size, step, run, Op, enqueue,
  dequeue, empty?, full?, size?,
}
use public_systems_projects.Queue.Fifo
use public_systems_projects.Queue.Inv.{IsValid}
use public_systems_projects.Queue.Refine.{view, run_refines}

-- 8, then 9, round the end of an array of three
abbrev wrapped : Queue
wrapped = record { back = 1; front = 2; size = 2; capacity = 3; items = some (9 ∷ 7 ∷ 8 ∷ []) }

abbrev script : List Op
script = enqueue 1 ∷ enqueue 2 ∷ size? ∷ full? ∷ dequeue ∷ dequeue ∷ empty? ∷ []

wrapped-IsValid : IsValid wrapped
wrapped-IsValid = record {
  holds = refl;
  full_array = refl;
  small = omega arith;
  front_in = omega arith;
  size_in = omega arith;
  back_is = refl;
}

run-wrapped :
    run wrapped script
    ≡ ret (
      pos 0 ∷ negsuc 0 ∷ pos 3 ∷ pos 1 ∷ pos 99999 ∷ pos 99999 ∷ pos 0 ∷ [],
      record { back = 2; front = 1; size = 1; capacity = 3; items = some (9 ∷ 1 ∷ 8 ∷ []) },
    )
unfolding run step queue_enqueue queue_dequeue queue_empty queue_full queue_size
run-wrapped = refl

run_refines_example :
    view (run wrapped script) ≡ Fifo.hidden script (Fifo.replies 3 (8 ∷ 9 ∷ []) script)
run_refines_example = run_refines script wrapped-IsValid
