-- ===== src/Queue.antt =====
-- Assignment2_C_Data_Structures/part1/myqueue.h: a circular queue of `int`s. A `queue_t*` is an
-- option, `none` for NULL; a function that updates `*q` returns the new queue beside its result.
-- An `int` item is only moved, so it is any number. The results of malloc are arguments.
pub mod Fifo
pub mod Inv
pub mod Slots
pub mod Refine
mod Tests
use public_systems_projects.Base.{
  ℕ, ◌+◌, ◌%◌, Option, none, some, List, [], ◌∷◌, ◌==◌, if◌then◌else◌, get_elem?, set, ℤ, pos,
  negsuc, Outcome, ret, exit, fault, ◌>>=◌, deref, add_uint, sub_uint,
}

-- `items` is the field `data`.
pub record Queue : Type 0 where
  pub back : ℕ
  pub front : ℕ
  pub size : ℕ
  pub capacity : ℕ
  pub items : Option (List ℕ)

-- `struct_memory` and `items_memory` are what the two calls of malloc return, the second with the
-- values that the memory happens to hold. Neither is checked by the code.
pub create_queue :
    (struct_memory : Option Queue) (items_memory : Option (List ℕ)) → ℕ → Outcome Queue
create_queue struct_memory items_memory capacity = do
  q ← deref struct_memory
  ret (record q { back = 0; front = 0; size = 0; capacity = capacity; items = items_memory })

pub queue_empty : Option Queue → Outcome ℕ
queue_empty none = exit 1
queue_empty (some q) = if q.size == 0 then ret 1 else ret 0

pub queue_full : Option Queue → Outcome ℕ
queue_full none = exit 1
queue_full (some q) = if q.size == q.capacity then ret 1 else ret 0

-- `a[i] = v`, undefined where the array is NULL or `i` lies outside it
pub write_at : Option (List ℕ) → ℕ → ℕ → Outcome (List ℕ)
write_at items i v = do a ← deref items; _ ← deref (get_elem? a i); ret (set a i v)

-- `a % b` at type `unsigned int`, undefined at 0
pub mod_uint : ℕ → ℕ → Outcome ℕ
mod_uint a b = if b == 0 then fault else ret (a % b)

-- the rest of `queue_enqueue`, where the queue is not full
pub add_item : Queue → ℕ → Outcome (ℤ × Queue)
unfolding write_at mod_uint
add_item q item = do
  items ← write_at q.items q.back item
  back ← mod_uint (add_uint q.back 1) q.capacity
  ret (pos 0, record q { size = add_uint q.size 1; items = some items; back = back })

pub queue_enqueue : Option Queue → ℕ → Outcome (ℤ × Queue)
unfolding queue_full add_item
queue_enqueue none item = exit 1
queue_enqueue (some q) item = do
  full ← queue_full (some q)
  if full == 1 then ret (negsuc 0, q) else add_item q item

pub queue_dequeue : Option Queue → Outcome (ℕ × Queue)
unfolding mod_uint
queue_dequeue none = exit 1
queue_dequeue (some q) = if q.size == 0 then exit 1 else do
  front ← mod_uint (add_uint q.front 1) q.capacity
  ret (99999, record q { size = sub_uint q.size 1; front = front })

pub queue_size : Option Queue → Outcome ℕ
queue_size none = exit 1
queue_size (some q) = ret q.size

-- the two allocations of a queue
pub data Block : Type 0 where
  items_block queue_block : Block

-- what `free_queue` hands to free, in order
pub free_queue : Option Queue → Outcome (List Block)
free_queue none = exit 1
free_queue (some q) = ret (items_block ∷ queue_block ∷ [])

-- A client's calls on one queue, in order.
pub data Op : Type 0 where
  enqueue : ℕ → Op
  dequeue : Op
  empty? : Op
  full? : Op
  size? : Op

-- One call: the value that the client sees, and the queue that it leaves.
pub step : Queue → Op → Outcome (ℤ × Queue)
step q (enqueue x) = queue_enqueue (some q) x
step q dequeue = do (n, q') ← queue_dequeue (some q); ret (pos n, q')
step q empty? = do n ← queue_empty (some q); ret (pos n, q)
step q full? = do n ← queue_full (some q); ret (pos n, q)
step q size? = do n ← queue_size (some q); ret (pos n, q)

pub run : Queue → List Op → Outcome (List ℤ × Queue)
run q [] = ret ([], q)
run q (op ∷ ops) = do (r, q') ← step q op; (rs, q'') ← run q' ops; ret (r ∷ rs, q'')
