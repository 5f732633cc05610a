-- ===== src/Malloc/Tests.antt =====
-- Runs of mymalloc.c on a list of two blocks, and its theorems at it.
use public_systems_projects.Base.{
  ℕ, ◌≡◌, refl, Option, none, some, [], ◌∷◌, arith, ret, fault, ◌&&◌, not, ◌==◌,
}
use public_systems_projects.Memory.{Ptr, null, node, Heap, write, load}
use public_systems_projects.Memory.Chain.{Cells, modify}
use public_systems_projects.Malloc.{
  Block, block, Allocator, find_optimal_free_block, mymalloc, mycalloc, myfree,
}
use public_systems_projects.Malloc.Fit.{IsAllocator, BestFit}
use public_systems_projects.Malloc.Blocks.{served, IsFresh, mymalloc_lem, release}
use public_systems_projects.Malloc.Client.{in_use, myfree_lem}

abbrev empty_heap : Heap Block
empty_heap p = none

-- a free block of 8 bytes and a used one of 16
abbrev two_blocks : Allocator
two_blocks = record {
  heap =
      write (write empty_heap 132 (some (node (block 16 0) null))) 100
        (some (node (block 8 1) 132));
  block_head = 100;
}

abbrev cells : Cells Block
cells = (100, block 8 1) ∷ (132, block 16 0) ∷ []

two_blocks-IsAllocator : IsAllocator two_blocks cells
unfolding write
two_blocks-IsAllocator = record {
  chain = (omega arith, refl, refl, (omega arith, refl, refl, tt));
  starts = refl;
}

grows-IsFresh : IsFresh two_blocks (some 172)
unfolding write
grows-IsFresh = (omega arith, refl)

-- sbrk hands out one address
abbrev grows : ℕ → Option Ptr
grows n = some 172

abbrev exhausted : ℕ → Option Ptr
exhausted n = none

abbrev nothing : Allocator
nothing = record { heap = empty_heap; block_head = null }

nothing-IsAllocator : IsAllocator nothing []
nothing-IsAllocator = record { chain = tt; starts = refl }

finds_first : find_optimal_free_block 3 two_blocks 5 ≡ ret 100
unfolding find_optimal_free_block write load
finds_first = refl

out_of_memory : mymalloc exhausted 3 two_blocks 9 ≡ ret (none, two_blocks)
unfolding mymalloc write load
out_of_memory = refl

-- `mycalloc` writes to NULL where memory runs out.
calloc_faults : mycalloc exhausted 3 two_blocks 3 3 ≡ fault
unfolding mycalloc write load
calloc_faults = refl

calloc_nothing : mycalloc grows 3 two_blocks 0 3 ≡ ret (none, two_blocks)
unfolding mycalloc
calloc_nothing = refl

free_null : myfree two_blocks none ≡ ret two_blocks
unfolding myfree
free_null = refl

mymalloc_lem_example :
    (o : Option (Ptr × Block)) × (b : Allocator) × BestFit 20 cells o
    × (mymalloc grows 3 two_blocks 20 ≡ ret ((served (some 172) 20 cells o).0, b))
    × IsAllocator b (served (some 172) 20 cells o).1
mymalloc_lem_example =
    mymalloc_lem grows 3 20 two_blocks cells two_blocks-IsAllocator (omega arith) grows-IsFresh

myfree_lem_example :
    (b : Allocator) × (myfree two_blocks (some 156) ≡ ret b)
    × IsAllocator b (modify 132 release cells)
    × ((t : Ptr) → in_use t (modify 132 release cells) ≡ (in_use t cells && not (t == 132)))
myfree_lem_example = myfree_lem two_blocks cells 132 two_blocks-IsAllocator refl
