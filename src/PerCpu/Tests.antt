-- ===== src/PerCpu/Tests.antt =====
-- Runs of the allocator with a list for each cpu, on one cpu with one block, and its theorems at it.
use public_systems_projects.Base.{ℕ, ◌≡◌, refl, Option, none, some, [], ◌∷◌, ret, blocked, arith}
use public_systems_projects.Memory.{Ptr, null, node, write}
use public_systems_projects.Memory.Chain.{Chain}
use public_systems_projects.Malloc.{block}
use public_systems_projects.Threads.Simple.{threads, threads-IsPthread}
use public_systems_projects.PerCpu.{Cpus, State, mymalloc, myfree, split_block}
use public_systems_projects.PerCpu.Free.{IsFree, double_free_blocks}
use public_systems_projects.PerCpu.Split.{split_cells, bytes, split_block_lem}

-- one free block of 100 bytes at 400
abbrev one_block : State threads
one_block = record {
  heap = write (λ p. none) 400 (some (node (block 100 1) null));
  block_head = some (400 ∷ []);
  locks = none ∷ [];
}

abbrev first_cpu : Cpus
first_cpu = record { find = 0; extend = 0; last = 0; split = 0 }

abbrev nowhere : ℕ → Option Ptr
nowhere n = none

one_block-IsFree : IsFree threads 0 one_block
one_block-IsFree = record { mutex = none; there = refl; free = refl }

split_block_lem_example :
    (d : State threads) × (split_block threads 1 0 400 10 one_block ≡ ret d)
    × Chain d.heap null (split_cells 400 10 434 ((400, block 100 1) ∷ []))
    × (bytes (split_cells 400 10 434 ((400, block 100 1) ∷ [])) ≡ 124)
    × IsFree threads 0 d
unfolding write
split_block_lem_example =
    split_block_lem threads threads-IsPthread 1 0 10 one_block ((400, block 100 1) ∷ []) 400 null
      (block 100 1) (omega arith, refl, refl, tt) one_block-IsFree refl (omega arith) refl
      (omega arith) (omega arith) refl

double_free_blocks_example :
    (d : State threads) × (myfree threads 1 0 (some 424) one_block ≡ ret d)
    × (mymalloc threads nowhere nowhere [] 1 9 2 first_cpu 8 d ≡ blocked)
    × (myfree threads 2 0 (some 500) d ≡ blocked)
unfolding write
double_free_blocks_example =
    double_free_blocks threads threads-IsPthread nowhere nowhere [] 1 9 1 2 8 first_cpu one_block
      (400 ∷ []) 400 (block 100 1) null 500 refl one_block-IsFree (omega arith) refl refl
