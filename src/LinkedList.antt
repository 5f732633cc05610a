-- ===== src/LinkedList.antt =====
-- Lab2_LinkedList/linkedlist.c: a list of the numbers of wins in a file, as nodes in a heap. What fopen,
-- fscanf and malloc return are arguments: whether the file opens, the numbers in it, and the addresses
-- in the order of the calls, NULL where malloc fails.
pub mod Build
mod Tests
use public_systems_projects.Base.{
  ℕ, zero, suc, ◌+◌, ◌-◌, ◌%◌, Bool, List, [], ◌∷◌, ◌==◌, ltb, if◌then◌else◌, ℤ, pos, negsuc,
  Outcome, ret, exit, fault, out_of_fuel, ◌>>=◌,
}
use public_systems_projects.Memory.{Ptr, null, Heap, load, new_node, set_next, free_nodes}

-- the conversion of an `int` to `unsigned char`
pub byte_of : ℤ → ℕ
byte_of (pos n) = n % 256
byte_of (negsuc n) = 255 - n % 256

-- the loop of `create_list` up to EOF; there are as many calls of malloc as numbers
pub create_loop : List ℤ → List Ptr → (current : Ptr) → Heap ℕ → Outcome (Heap ℕ)
unfolding byte_of
create_loop [] memory current h = ret h
create_loop (n ∷ numbers) [] current h = fault
create_loop (n ∷ numbers) (tail ∷ memory) current h = do
  g ← new_node h tail (byte_of n) null
  g' ← set_next g current tail
  create_loop numbers memory tail g'

-- `buffer` is what the local variable holds before the first fscanf, which keeps it where the file is
-- empty.
pub create_list :
    (opened : Bool) (buffer : ℤ)
    → List ℤ
    → (first : Ptr) → List Ptr
    → Heap ℕ
    → Outcome (Ptr × Heap ℕ)
unfolding create_loop
create_list opened buffer [] first memory h =
    if opened then (do g ← new_node h first (byte_of buffer) null; ret (first, g)) else exit 1
create_list opened buffer (n ∷ numbers) first memory h =
    if opened
    then (do
      g ← new_node h first (byte_of n) null
      g' ← create_loop numbers memory first g
      ret (first, g'))
    else exit 1

-- the texts of `print_list`, the worst first
pub data Rating : Type 0 where
  worst_of_majors worst_of_sox among_worst below_half meh pretty_good among_best best : Rating

pub rating : ℕ → Rating
rating wins =
    if ltb wins 22
    then worst_of_majors
    else if ltb wins 46
    then worst_of_sox
    else if ltb wins 63
    then among_worst
    else if ltb wins 82
    then below_half
    else if ltb wins 90
    then meh
    else if ltb wins 95
    then pretty_good
    else if ltb wins 108
    then among_best
    else best

-- the lines that `print_list` prints
pub print_list : ℕ → Heap ℕ → Ptr → Outcome (List (ℕ × Rating))
unfolding rating
print_list zero h node = out_of_fuel
print_list (suc k) h node = if node == null then ret [] else do
  n ← load h node
  lines ← print_list k h n.next
  ret ((n.payload, rating n.payload) ∷ lines)

pub free_list : ℕ → Heap ℕ → Ptr → Outcome (Heap ℕ)
unfolding free_nodes
free_list k h node = free_nodes k h node

-- `rounds` for each of the loops over the list
pub main :
    ℕ
    → (opened : Bool) (buffer : ℤ) → List ℤ
    → (first : Ptr) → List Ptr
    → Heap ℕ
    → Outcome (List (ℕ × Rating) × Heap ℕ)
unfolding create_list print_list free_list
main rounds opened buffer numbers first memory h = do
  (node, g) ← create_list opened buffer numbers first memory h
  lines ← print_list rounds g node
  g' ← free_list rounds g node
  ret (lines, g')
