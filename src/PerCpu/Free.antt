-- ===== src/PerCpu/Free.antt =====
-- myfree, and what a block that is freed twice does to the callers after it.
use public_systems_projects.Base.{
  ℕ, ◌+◌, ◌-◌, ◌≡◌, ◌≢◌, refl, false, Option, none, some, List, get_elem?, lt_of_get_elem?, set,
  get_elem?-set_self, ret, blocked, ◌==◌, arith,
}
use public_systems_projects.Memory.{Ptr, null, node, set_payload, write}
use public_systems_projects.Memory.Chain.{load_lem}
use public_systems_projects.Malloc.{Block, block_size}
use public_systems_projects.Threads.{Pthread, IsPthread}
use public_systems_projects.PerCpu.{
  Cpus, State, lock_cpu, unlock_cpu, find_optimal_free_block, init, mymalloc, myfree,
}

header_of : (p : ℕ) → p + block_size - block_size ≡ p
header_of p = omega arith

module _ (l : Pthread) where
  -- the lock of a cpu is there, and nobody holds it
  pub record IsFree (cpu : ℕ) (a : State l) : Type 0 where
    pub mutex : l.Mutex
    pub there : get_elem? a.locks cpu ≡ some mutex
    pub free : l.holder mutex ≡ none

  -- the lock of a cpu is held by thread `i`
  pub record IsHeld (cpu i : ℕ) (a : State l) : Type 0 where
    pub mutex : l.Mutex
    pub there : get_elem? a.locks cpu ≡ some mutex
    pub held : l.holder mutex ≡ some i

  module _ (laws : IsPthread l) where
    pub lock_cpu_lem :
        (i cpu : ℕ) (a : State l)
        → IsFree cpu a
        → (locks : List l.Mutex) × (lock_cpu l i cpu a ≡ ret (record a { locks = locks }))
          × IsHeld cpu i (record a { locks = locks })
    unfolding lock_cpu
    lock_cpu_lem i cpu a is =
        let (n, e, held) = laws.lock_free i is.mutex is.free in
        (
          set a.locks cpu n,
          rw (is.there, e) refl,
          record {
            mutex = n;
            there = get_elem?-set_self a.locks cpu n (lt_of_get_elem? a.locks cpu _ is.there);
            held = held;
          },
        )

    pub unlock_cpu_lem :
        (i cpu : ℕ) (a : State l)
        → IsHeld cpu i a
        → (locks : List l.Mutex) × (unlock_cpu l i cpu a ≡ ret (record a { locks = locks }))
          × IsFree cpu (record a { locks = locks })
    unfolding unlock_cpu
    unlock_cpu_lem i cpu a is =
        let (n, e, free) = laws.unlock_held i is.mutex is.held in
        (
          set a.locks cpu n,
          rw (is.there, e) refl,
          record {
            mutex = n;
            there = get_elem?-set_self a.locks cpu n (lt_of_get_elem? a.locks cpu _ is.there);
            free = free;
          },
        )

    pub lock_cpu_held : (i j cpu : ℕ) (a : State l) → IsHeld cpu i a → lock_cpu l j cpu a ≡ blocked
    unfolding lock_cpu
    lock_cpu_held i j cpu a is = rw (is.there, laws.lock_held j i is.mutex is.held) refl

    -- `myfree` of a block in use, on a cpu whose lock is free, marks the block as free and gives the
    -- lock back. Nothing else in the heap changes.
    pub myfree_lem :
        (i cpu : ℕ) (a : State l) (p : Ptr) (b : Block) (q : Ptr)
        → IsFree cpu a
        → p ≢ null
        → a.heap p ≡ some (node b q)
        → b.free ≢ 1
        → (locks : List l.Mutex) × (myfree l i cpu (some (p + block_size)) a
            ≡ ret (record a {
              heap = write a.heap p (some (node (record b { free = 1 }) q));
              locks = locks;
            }))
          × IsFree cpu (record a { locks = locks })
    unfolding myfree set_payload
    myfree_lem i cpu a p b q is ne at_p used =
        let (locks, e, k) = lock_cpu_lem i cpu a is in
        let h = write a.heap p (some (node (record b { free = 1 }) q)) in
        let held : IsHeld cpu i (record a { heap = h; locks = locks }) = record {
          mutex = k.mutex;
          there = k.there;
          held = k.held;
        } in
        let (locks', e', f) = unlock_cpu_lem i cpu (record a { heap = h; locks = locks }) held in
        let in_use : (b.free == 1) ≡ false = ground arith in
        (
          locks',
          rw (e, header_of p, load_lem a.heap p _ ne at_p, in_use, e') refl,
          record { mutex = f.mutex; there = f.there; free = f.free },
        )

    -- A second `myfree` of a block returns with the lock of its cpu held: in the state that it leaves, a call
    -- of `mymalloc`, and one of `myfree` for any address but NULL, on that cpu waits for the lock, whichever
    -- thread makes it.
    pub double_free_blocks :
        (sbrk mmap : ℕ → Option Ptr) (heads_memory : List Ptr) (cpu_count rounds i j s : ℕ)
        (cpus : Cpus)
        → (a : State l) (heads : List Ptr) (p : Ptr) (b : Block) (q r : Ptr)
        → a.block_head ≡ some heads
        → IsFree cpus.find a
        → p ≢ null
        → a.heap p ≡ some (node b q)
        → b.free ≡ 1
        → (d : State l) × (myfree l i cpus.find (some (p + block_size)) a ≡ ret d)
          × (mymalloc l sbrk mmap heads_memory cpu_count rounds j cpus s d ≡ blocked)
          × (myfree l j cpus.find (some r) d ≡ blocked)
    unfolding myfree mymalloc init find_optimal_free_block
    double_free_blocks sbrk mmap heads_memory cpu_count rounds i j s cpus a heads p b q r started is
          ne at_p free =
        let (locks, e, k) = lock_cpu_lem i cpus.find a is in
        let waits = lock_cpu_held i j cpus.find (record a { locks = locks }) k in
        (
          record a { locks = locks },
          rw (e, header_of p, load_lem a.heap p _ ne at_p, free) refl,
          rw (started, waits) refl,
          rw waits refl,
        )
