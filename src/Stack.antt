-- ===== src/Stack.antt =====
-- Assignment2_C_Data_Structures/part2/mystack.h: a bounded stack of `int`s on a linked list. A
-- `stack_t*` is an option, `none` for NULL, its nodes live in a heap, and an operation returns its
-- result, the new heap and the new stack. `count` never leaves the range 0 to 32, so `count` is a
-- plain number.
pub mod Ops
pub mod Trace
mod Tests
use public_systems_projects.Base.{
  ℕ, zero, suc, ◌+◌, ◌-◌, Option, none, some, ◌==◌, ltb, if◌then◌else◌, ℤ, pos, negsuc, Outcome,
  ret, exit, out_of_fuel, ◌>>=◌, deref,
}
use public_systems_projects.Memory.{Ptr, null, Heap, load, free_node, free_nodes, new_node}

-- `head` points to the node on the top.
pub record Stack : Type 0 where
  pub count : ℕ
  pub capacity : ℕ
  pub head : Ptr

abbrev pub max_depth : ℕ
max_depth = 32

-- `struct_memory` is what malloc returns; the code does not check it.
pub create_stack : (struct_memory : Option Stack) → ℕ → Outcome Stack
create_stack struct_memory capacity =
    if ltb max_depth capacity
    then exit 1
    else do s ← deref struct_memory; ret (record s { count = 0; capacity = capacity; head = null })

pub stack_empty : Option Stack → Outcome ℕ
stack_empty none = exit 1
stack_empty (some s) = if s.count == 0 then ret 1 else ret 0

pub stack_full : Option Stack → Outcome ℕ
stack_full none = exit 1
stack_full (some s) = if s.count == s.capacity then ret 1 else ret 0

-- the branches of `stack_enqueue` that add a node, `fresh` being what malloc returns
pub add_node : Ptr → Heap ℕ → Stack → ℕ → (next : Ptr) → Outcome (ℤ × Heap ℕ × Option Stack)
add_node fresh h s item next = do
  g ← new_node h fresh item next
  ret (pos 0, g, some (record s { head = fresh; count = s.count + 1 }))

pub stack_enqueue : Ptr → Heap ℕ → Option Stack → ℕ → Outcome (ℤ × Heap ℕ × Option Stack)
unfolding stack_full stack_empty add_node
stack_enqueue fresh h none item = ret (negsuc 0, h, none)
stack_enqueue fresh h (some s) item = do
  full ← stack_full (some s)
  if full == 1 then ret (negsuc 0, h, some s) else do
    empty ← stack_empty (some s)
    if empty == 1 then add_node fresh h s item null else add_node fresh h s item s.head

pub stack_dequeue : Heap ℕ → Option Stack → Outcome (ℕ × Heap ℕ × Stack)
unfolding stack_empty
stack_dequeue h none = exit 1
stack_dequeue h (some s) = do
  empty ← stack_empty (some s)
  if empty == 1 then exit 1 else do
    top ← load h s.head
    g ← free_node h s.head
    ret (9999999, g, record s { head = top.next; count = s.count - 1 })

pub stack_size : Option Stack → Outcome ℕ
stack_size none = exit 1
stack_size (some s) = ret s.count

-- `count + 1` rounds. The stack itself, freed last, is not on the heap of nodes.
pub free_stack : Heap ℕ → Option Stack → Outcome (Heap ℕ)
unfolding free_nodes
free_stack h none = exit 1
free_stack h (some s) = free_nodes (s.count + 1) h s.head
