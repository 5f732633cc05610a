-- ===== src/Stack/Tests.antt =====
-- Runs of mystack.h on a small stack, and its theorems at it.
use public_systems_projects.Base.{
  List, ℤ, ℕ, ◌≡◌, ◌≤◌, refl, none, some, [], ◌∷◌, arith, pos, negsuc, ret,
}
use public_systems_projects.Memory.{null, node, Heap, write, load, free_node, new_node}
use public_systems_projects.Memory.Chain.{Cells, payloads, Without}
use public_systems_projects.Stack.{Stack, stack_enqueue, stack_dequeue, stack_size, free_stack}
use public_systems_projects.Stack.Ops.{IsStack, pushed, enqueue-full, free_stack_lem}
use public_systems_projects.Stack.Trace.{
  World, push, pop, size, pushing, popping, asking, Steps, done, more, lifo_run, hide_all,
  Steps-lifo_run,
}

abbrev empty_heap : Heap ℕ
empty_heap p = none

abbrev two_nodes : Heap ℕ
two_nodes = write (write empty_heap 5 (some (node 10 null))) 6 (some (node 20 5))

-- 20 on top of 10, full
abbrev full : Stack
full = record { count = 2; capacity = 2; head = 6 }

-- the same nodes with room for one more
abbrev roomy : Stack
roomy = record { count = 2; capacity = 3; head = 6 }

abbrev cells : Cells ℕ
cells = (6, 20) ∷ (5, 10) ∷ []

two_nodes-IsStack :
    (s : Stack)
    → s.head ≡ 6
    → s.count ≡ 2
    → 2 ≤ s.capacity
    → s.capacity ≤ 32
    → IsStack two_nodes s cells
unfolding write
two_nodes-IsStack s top counted within bounded = record {
  chain = (omega arith, refl, refl, (omega arith, refl, refl, tt));
  top = top;
  counted = counted;
  within = omega arith;
  bounded = bounded;
}

full-IsStack : IsStack two_nodes full cells
full-IsStack = two_nodes-IsStack full refl refl (omega arith) (omega arith)

roomy-IsStack : IsStack two_nodes roomy cells
roomy-IsStack = two_nodes-IsStack roomy refl refl (omega arith) (omega arith)

pushed_out : stack_enqueue 9 two_nodes (some full) 30 ≡ ret (negsuc 0, two_nodes, some full)
unfolding stack_enqueue
pushed_out = refl

null_stack_enqueue : stack_enqueue 9 two_nodes none 30 ≡ ret (negsuc 0, two_nodes, none)
unfolding stack_enqueue
null_stack_enqueue = refl

enqueue-full_example :
    stack_enqueue 9 two_nodes (some full) 30 ≡ ret (negsuc 0, two_nodes, some full)
enqueue-full_example = enqueue-full full-IsStack 9 30 refl

free_stack_lem_example :
    (g : Heap ℕ) × (free_stack two_nodes (some full) ≡ ret g) × Without cells two_nodes g
free_stack_lem_example = free_stack_lem full-IsStack

-- Push 30 at address 9, ask for the size, and pop.
after_push : World
after_push = record { heap = write two_nodes 9 (some (node 30 6)); stack = pushed 9 roomy }

after_pop : World
unfolding after_push
after_pop = record {
  heap = write after_push.heap 9 none;
  stack = record { count = 2; capacity = 3; head = 6 };
}

three_calls :
    Steps
      (record { heap = two_nodes; stack = roomy })
      (push 30 ∷ size ∷ pop ∷ [])
      (pos 0 ∷ pos 3 ∷ pos 9999999 ∷ [])
      after_pop
unfolding after_pop write stack_enqueue stack_dequeue stack_size new_node load free_node
three_calls =
    more (pushing {w' = after_push} 9 30 (omega arith) refl refl)
      (more (asking 3 refl) (more (popping 9999999 refl) done))

Steps-lifo_run_example :
    (zs : Cells ℕ) × (given : List ℤ) × IsStack after_pop.heap after_pop.stack zs
    × (pos 0 ∷ pos 3 ∷ pos 9999999 ∷ [] ≡ hide_all (push 30 ∷ size ∷ pop ∷ []) given)
    × (lifo_run 3 (20 ∷ 10 ∷ []) (push 30 ∷ size ∷ pop ∷ []) ≡ ret (given, payloads zs))
Steps-lifo_run_example = Steps-lifo_run cells three_calls roomy-IsStack
