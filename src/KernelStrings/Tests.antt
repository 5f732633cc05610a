-- ===== src/KernelStrings/Tests.antt =====
-- A memory with the bytes of a short string, and moves in it.
use public_systems_projects.Base.{ℕ, ◌+◌, ◌≤◌, ◌≡◌, inr, refl, ◌%◌, store, arith}
use public_systems_projects.KernelStrings.{memset, backward, memmove, safestrcpy}
use public_systems_projects.KernelStrings.Moves.{moved, memmove_lem}
use public_systems_projects.KernelStrings.Fills.{filled, copied, memset_lem, safestrcpy_lem}

abbrev ls : ℕ → ℕ
ls = store (store (λ a. 0) 1 108) 2 115

memmove_lem_example : memmove ls 2 1 3 3 ≡ moved ls 2 1 3 3
memmove_lem_example = memmove_lem ls 2 1 3 3

memmove_overlaps : memmove ls 2 1 3 3 ≡ 115
unfolding memmove backward store
memmove_overlaps = refl

memset_lem_example : memset ls 4 257 8 6 ≡ filled ls 4 (257 % 256) 8 6
memset_lem_example = memset_lem ls 4 257 8 6

safestrcpy_lem_example :
    (safestrcpy ls 8 1 2 8 ≡ store (moved ls 8 1 (copied ls 1 1)) (8 + copied ls 1 1) 0 8)
    × (copied ls 1 1 ≤ 1)
safestrcpy_lem_example = safestrcpy_lem ls 8 1 1 (inr (omega arith)) 8
