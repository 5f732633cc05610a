-- ===== src/PerCpu.antt =====
-- Assignment8_AdvancedMemory/part1/starter/mymalloc.c: the allocator of Assignment 6 with a list of
-- blocks and a lock for each cpu, blocks that are split, and mmap for large requests. `i` is the thread
-- that calls, and what sched_getcpu answers is an argument, since the thread may move between two calls.
-- The loops over a list are those of Assignment 6.
pub mod Split
pub mod Free
mod Tests
use public_systems_projects.Base.{
  ℕ, zero, suc, ◌+◌, ◌-◌, ◌*◌, ◌/◌, ◌%◌, Bool, Option, none, some, List, ◌==◌, ◌||◌, ltb, leb,
  if◌then◌else◌, get_elem?, set, Outcome, ret, fault, ◌>>=◌, deref,
}
use public_systems_projects.Memory.{Ptr, null, Node, node, Heap, load, write, set_next, set_payload}
use public_systems_projects.Malloc.{Block, block, block_size, size_mod, find_loop, last_loop}
use public_systems_projects.Threads.{Pthread}

-- `a - b` at type size_t
abbrev pub sub_size : ℕ → ℕ → ℕ
sub_size a b = (a + size_mod - b % size_mod) % size_mod

-- the globals; `block_head` is NULL before the first call
pub record Heaps (M : Type 0) : Type 0 where
  pub heap : Heap Block
  pub block_head : Option (List Ptr)
  pub locks : List M

-- what sched_getcpu answers in the functions that one call of mymalloc goes through
pub record Cpus : Type 0 where
  pub find : ℕ
  pub extend : ℕ
  pub last : ℕ
  pub split : ℕ

module _ (l : Pthread) where
  abbrev pub State : Type 0
  State = Heaps l.Mutex

  pub lock_cpu : (i cpu : ℕ) → State → Outcome State
  lock_cpu i cpu a = do
    m ← deref (get_elem? a.locks cpu)
    n ← l.lock i m
    ret (record a { locks = set a.locks cpu n })

  pub unlock_cpu : (i cpu : ℕ) → State → Outcome State
  unlock_cpu i cpu a = do
    m ← deref (get_elem? a.locks cpu)
    n ← l.unlock i m
    ret (record a { locks = set a.locks cpu n })

  -- `block_head[cpu]`
  pub head_at : ℕ → State → Outcome Ptr
  head_at cpu a = do heads ← deref a.block_head; deref (get_elem? heads cpu)

  pub find_optimal_free_block : ℕ → (i cpu s : ℕ) → State → Outcome (Ptr × State)
  unfolding lock_cpu unlock_cpu head_at
  find_optimal_free_block rounds i cpu s a = do
    b ← lock_cpu i cpu a
    head ← head_at cpu b
    optimal_block ← find_loop rounds b.heap s head null
    d ← unlock_cpu i cpu b
    ret (optimal_block, d)

  pub get_last_block : ℕ → (cpu : ℕ) → State → Outcome Ptr
  unfolding head_at
  get_last_block rounds cpu a = do
    head ← head_at cpu a
    if head == null then ret null else last_loop rounds a.heap head

  -- `p` is the parameter `block`.
  pub split_block : (i cpu : ℕ) → Ptr → ℕ → State → Outcome State
  unfolding lock_cpu unlock_cpu
  split_block i cpu p s a = do
    b ← lock_cpu i cpu a
    n ← load b.heap p
    let additional_block = p + s + block_size
    let additional = block (sub_size (sub_size n.payload.size s) block_size) 1
    let h = write b.heap additional_block (some (node additional n.next))
    h' ← set_payload h p (record (n.payload) { size = s })
    g ← set_next h' p additional_block
    unlock_cpu i cpu (record b { heap = g })

  -- the end of the list gets the block `new_block`
  pub link_block : (cpu : ℕ) → (last new_block : Ptr) → Heap Block → State → Outcome State
  link_block cpu last new_block h a =
      if last == null
      then (do
        heads ← deref a.block_head
        _ ← deref (get_elem? heads cpu)
        ret (record a { heap = h; block_head = some (set heads cpu new_block) }))
      else (do g ← set_next h last new_block; ret (record a { heap = g }))

  -- the test of `size` at the end of `extendMemory`, where the lock is given back for the split
  pub split_new : (i : ℕ) → Cpus → (new_block size s : ℕ) → State → Outcome State
  unfolding split_block lock_cpu unlock_cpu
  split_new i cpus new_block size s a =
      if leb ((s + block_size + 4) % size_mod) size
      then (do
        b ← unlock_cpu i cpus.extend a
        d ← split_block i cpus.split new_block s b
        lock_cpu i cpus.extend d)
      else ret a

  module _ (sbrk mmap : ℕ → Option Ptr) where
    -- the new memory and the size that its header gets
    pub grow : ℕ → Option (Ptr × ℕ)
    grow s =
        if ltb 4095 s
        then elim (mmap s) [
          | none ↦ none
          | some q ↦ some (q, ((s - 1) / 4096 + 1) * 4096 % size_mod)
        ]
        else elim (sbrk ((s + block_size) % size_mod)) [ none ↦ none | some q ↦ some (q, s) ]

    pub extend_memory : ℕ → (i : ℕ) → Cpus → ℕ → State → Outcome (Option Ptr × State)
    unfolding lock_cpu unlock_cpu get_last_block grow link_block split_new
    extend_memory rounds i cpus s a = do
      b ← lock_cpu i cpus.extend a
      last ← get_last_block rounds cpus.last b
      elim (grow s) [
        | none ↦ (do d ← unlock_cpu i cpus.extend b; ret (none, d))
        | some (new_block, size) ↦ (do
          d ←
              link_block cpus.extend last new_block
                (write b.heap new_block (some (node (block size 0) null))) b
          e ← split_new i cpus new_block size s d
          g ← unlock_cpu i cpus.extend e
          ret (some (new_block + block_size), g))
      ]

    -- pthread_mutex_init on the locks `x` to `x + n`
    pub init_locks : ℕ → ℕ → List l.Mutex → Outcome (List l.Mutex)
    init_locks zero x locks = ret locks
    init_locks (suc n) x locks = do
      _ ← deref (get_elem? locks x)
      init_locks n (x + 1) (set locks x l.fresh)

    -- the first call: `heads_memory` is the array that sbrk gives for the heads
    pub init : (heads_memory : List Ptr) → (cpus : ℕ) → State → Outcome State
    unfolding init_locks
    init heads_memory n a = elim a.block_head [
      | some heads ↦ ret a
      | none ↦ (do
        locks ← init_locks n 0 a.locks
        ret (record a { block_head = some heads_memory; locks = locks }))
    ]

    -- the branch of `mymalloc` for a block that fits
    pub reuse_block : (i : ℕ) → Cpus → (best_block : Ptr) → ℕ → State → Outcome (Option Ptr × State)
    unfolding split_block
    reuse_block i cpus best_block s a = do
      n ← load a.heap best_block
      h ← set_payload a.heap best_block (record (n.payload) { free = 0 })
      let b = record a { heap = h }
      d ←
          (if leb ((s + block_size + 4) % size_mod) n.payload.size
            then split_block i cpus.split best_block s b
            else ret b)
      ret (some (best_block + block_size), d)

    pub mymalloc :
        (heads_memory : List Ptr)
        → (cpu_count rounds i : ℕ) → Cpus
        → ℕ
        → State
        → Outcome (Option Ptr × State)
    unfolding init find_optimal_free_block reuse_block extend_memory
    mymalloc heads_memory cpu_count rounds i cpus s a = do
      b ← init heads_memory cpu_count a
      (best_block, d) ← find_optimal_free_block rounds i cpus.find s b
      if best_block == null
          then extend_memory rounds i cpus s d
          else reuse_block i cpus best_block s d

    -- `cpu` is what the call in mycalloc itself gets. The bytes that memset clears are not modelled.
    pub mycalloc :
        (heads_memory : List Ptr)
        → (cpu_count rounds i : ℕ) → (cpu : ℕ) → Cpus
        → (nmemb s : ℕ) → State
        → Outcome (Option Ptr × State)
    unfolding init mymalloc lock_cpu unlock_cpu
    mycalloc heads_memory cpu_count rounds i cpu cpus nmemb s a = do
      b ← init heads_memory cpu_count a
      if nmemb == 0 || s == 0 then ret (none, b) else do
        (p, d) ← mymalloc heads_memory cpu_count rounds i cpus (nmemb * s % size_mod) b
        e ← lock_cpu i cpu d
        q ← deref p
        g ← unlock_cpu i cpu e
        ret (some q, g)

  -- `myfree`, which returns without the unlock where the block is free already
  pub myfree : (i cpu : ℕ) → Option Ptr → State → Outcome State
  unfolding lock_cpu unlock_cpu
  myfree i cpu none a = ret a
  myfree i cpu (some ptr) a = do
    b ← lock_cpu i cpu a
    n ← load b.heap (ptr - block_size)
    if n.payload.free == 1 then ret b else do
      h ← set_payload b.heap (ptr - block_size) (record (n.payload) { free = 1 })
      unlock_cpu i cpu (record b { heap = h })
