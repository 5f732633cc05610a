-- ===== src/Malloc.antt =====
-- Assignment6_MemoryAllocator1/part1/mymalloc.c: a best-fit allocator over one linked list of block
-- headers. The headers live in a heap; a pointer to the memory of a block is its header's address and
-- `block_size` more. `malloc.h` of the folder makes malloc and free of this file mymalloc and myfree.
-- `sbrk` is a parameter, which answers a request with an address or `none` for -1. Loops over the list
-- get `rounds` rounds.
pub mod Fit
pub mod Blocks
pub mod Client
pub mod Calloc
mod Tests
use public_systems_projects.Base.{
  ℕ, zero, suc, ◌+◌, ◌-◌, ◌*◌, ◌%◌, ◌^◌, Bool, Option, none, some, ◌==◌, ◌&&◌, ◌||◌, ltb, leb,
  if◌then◌else◌, Outcome, ret, fault, out_of_fuel, ◌>>=◌,
}
use public_systems_projects.Memory.{Ptr, null, Node, node, Heap, load, write, set_next, set_payload}

pub record Block : Type 0 where
  pub size : ℕ
  pub free : ℕ

abbrev pub block : ℕ → ℕ → Block
block s f = record { size = s; free = f }

-- sizeof(block_t): a size, a pointer, an int and its padding
abbrev pub block_size : ℕ
block_size = 24

abbrev pub size_mod : ℕ
size_mod = 2 ^ 64

pub record Allocator : Type 0 where
  pub heap : Heap Block
  pub block_head : Ptr

-- the choice that one round of the search makes
pub choose : Heap Block → ℕ → Ptr → Block → Ptr → Outcome Ptr
choose h s block_list b optimal_block =
    if leb s b.size && b.free == 1
    then (if optimal_block == null then ret block_list else do
      o ← load h optimal_block
      ret (if ltb b.size o.payload.size then block_list else optimal_block))
    else ret optimal_block

pub find_loop : ℕ → Heap Block → ℕ → (block_list optimal_block : Ptr) → Outcome Ptr
unfolding choose
find_loop zero h s block_list optimal_block = out_of_fuel
find_loop (suc k) h s block_list optimal_block =
    if block_list == null then ret optimal_block else do
      n ← load h block_list
      optimal ← choose h s block_list n.payload optimal_block
      find_loop k h s n.next optimal

pub find_optimal_free_block : ℕ → Allocator → ℕ → Outcome Ptr
unfolding find_loop
find_optimal_free_block rounds a s = find_loop rounds a.heap s a.block_head null

pub last_loop : ℕ → Heap Block → Ptr → Outcome Ptr
last_loop zero h last_block = out_of_fuel
last_loop (suc k) h last_block = do
  n ← load h last_block
  if n.next == null then ret last_block else last_loop k h n.next

pub get_last_block : ℕ → Allocator → Outcome Ptr
unfolding last_loop
get_last_block rounds a =
    if a.block_head == null then ret null else last_loop rounds a.heap a.block_head

-- the end of `extendMemory`, with the new header written to the heap
pub link_block : (last new_block : Ptr) → Heap Block → Allocator → Outcome (Option Ptr × Allocator)
link_block last new_block h a =
    if last == null
    then ret (some (new_block + block_size), record { heap = h; block_head = new_block })
    else (do
      g ← set_next h last new_block
      ret (some (new_block + block_size), record a { heap = g }))

module _ (sbrk : ℕ → Option Ptr) where
  -- `none` is NULL. A block is its header, without an extent: after `s + BLOCK_SIZE` has wrapped around, the
  -- header goes into fewer bytes than it has, which the model does not see.
  pub extend_memory : ℕ → Allocator → ℕ → Outcome (Option Ptr × Allocator)
  unfolding get_last_block link_block
  extend_memory rounds a s = do
    last ← get_last_block rounds a
    elim (sbrk ((s + block_size) % size_mod)) [
      | none ↦ ret (none, a)
      | some new_block ↦
          link_block last new_block (write a.heap new_block (some (node (block s 0) null))) a
    ]

  pub mymalloc : ℕ → Allocator → ℕ → Outcome (Option Ptr × Allocator)
  unfolding find_optimal_free_block extend_memory
  mymalloc rounds a s = do
    best_block ← find_optimal_free_block rounds a s
    if best_block == null then extend_memory rounds a s else (do
      n ← load a.heap best_block
      h ← set_payload a.heap best_block (record (n.payload) { free = 0 })
      ret (some (best_block + block_size), record a { heap = h }))

  -- `memset` clears the memory of the block, which is not part of the model. It is undefined on NULL, and
  -- for a product that wraps around with its header, since no block has so many bytes.
  pub mycalloc : ℕ → Allocator → ℕ → ℕ → Outcome (Option Ptr × Allocator)
  unfolding mymalloc
  mycalloc rounds a nmemb s = if nmemb == 0 || s == 0 then ret (none, a) else do
    (p, b) ← mymalloc rounds a (nmemb * s % size_mod)
    if leb size_mod (nmemb * s % size_mod + block_size)
        then fault
        else elim p [ none ↦ fault | some q ↦ ret (some q, b) ]

-- `myfree` but for its last line, which calls free, that is `myfree`, once more. That call returns at
-- once, since the block is free by then: one more round of fuel is enough.
pub free_loop : ℕ → Allocator → Option Ptr → Outcome Allocator
free_loop zero a ptr = out_of_fuel
free_loop (suc k) a none = ret a
free_loop (suc k) a (some ptr) = do
  n ← load a.heap (ptr - block_size)
  if n.payload.free == 1 then ret a else do
    h ← set_payload a.heap (ptr - block_size) (record (n.payload) { free = 1 })
    free_loop k (record a { heap = h }) (some ptr)

pub myfree : Allocator → Option Ptr → Outcome Allocator
unfolding free_loop
myfree a ptr = free_loop 2 a ptr
