-- ===== src/LinkedList/Tests.antt =====
-- The program on a file of two numbers, and its theorem at it.
use public_systems_projects.Base.{
  ℕ, ◌≡◌, refl, true, false, none, [], ◌∷◌, pos, negsuc, ret, exit, arith,
}
use public_systems_projects.Memory.{Ptr, Heap}
use public_systems_projects.LinkedList.{worst_of_sox, best, create_list, byte_of, rating, main}
use public_systems_projects.LinkedList.Build.{main_prints_all}

abbrev empty_heap : Heap ℕ
empty_heap p = none

no_file : create_list false (pos 0) (pos 30 ∷ []) 8 [] empty_heap ≡ exit 1
unfolding create_list
no_file = refl

-- A number below 0 is stored modulo 256.
wraps : byte_of (negsuc 0) ≡ 255
unfolding byte_of
wraps = refl

main_prints_all_example :
    (g : Heap ℕ) × (main 3 true (pos 0) (pos 30 ∷ pos 112 ∷ []) 8 (16 ∷ []) empty_heap
      ≡ ret ((30, worst_of_sox) ∷ (112, best) ∷ [], g))
    × ((r : Ptr) → g r ≡ none)
unfolding byte_of rating
main_prints_all_example =
    main_prints_all 3 (pos 0) (pos 30) (pos 112 ∷ []) 8 (16 ∷ []) empty_heap
      (omega arith, refl, refl, refl, (omega arith, refl, refl, refl, tt)) refl (omega arith)
