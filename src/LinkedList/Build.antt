-- ===== src/LinkedList/Build.antt =====
-- create_list, and what a run of the program prints and leaves.
use mathlib.Core.Path.{subst}
use mathlib.Core.List.{append_assoc, append-nil}
use native.Mathlib.Decide.{ℕ_discrete}
use public_systems_projects.Base.{
  ℕ, zero, suc, ◌<◌, ◌≡◌, ◌≢◌, refl, sym, ap, ◌∙◌, Bool, true, false, ◌||◌, none, some, List, [],
  ◌∷◌, ◌++◌, ◌==◌, map, length, ℤ, ret, arith, if◌then◌else◌, Bool-cases, inl, inr,
}
use public_systems_projects.Memory.{Ptr, null, node, Heap, write, new_node}
use public_systems_projects.Memory.Chain.{
  Cells, first, has, Chain, payloads, has-append, load_lem, free_nodes_lem, write_self, write_ne,
}
use public_systems_projects.Memory.Extend.{last_ptr, set_next-Chain}
use public_systems_projects.LinkedList.{
  byte_of, create_loop, create_list, rating, print_list, free_list, main,
}

-- the nodes that the loop adds
abbrev pub zip : List Ptr → List ℤ → Cells ℕ
zip (q ∷ memory) (n ∷ numbers) = (q, byte_of n) ∷ zip memory numbers
zip _ _ = []

abbrev pub among : Ptr → List Ptr → Bool
among q [] = false
among q (r ∷ memory) = (q == r) || among q memory

-- What malloc returns: valid addresses, all different, where there is no node and that are not in `xs`.
abbrev pub AreFresh : Heap ℕ → Cells ℕ → List Ptr → Type 0
AreFresh h xs [] = Unit {0}
AreFresh h xs (q ∷ memory) =
    (q ≢ null) × (h q ≡ none) × (has q xs ≡ false) × (among q memory ≡ false) × AreFresh h xs memory

AreFresh-step :
    (h g : Heap ℕ) (xs : Cells ℕ) (q : Ptr) (b : ℕ) (memory : List Ptr)
    → ((r : Ptr) → r ≢ q → has r xs ≡ false → g r ≡ h r)
    → among q memory ≡ false
    → AreFresh h xs memory
    → AreFresh g (xs ++ ((q, b) ∷ [])) memory
AreFresh-step h g xs q b [] same out fresh = tt
AreFresh-step h g xs q b (r ∷ memory) same out (ne, unused, off, single, fresh) = (
  ne,
  same r (ground arith) off ∙ unused,
  has-append r xs ((q, b) ∷ []) ∙ ground arith,
  single,
  AreFresh-step h g xs q b memory same (ground arith) fresh,
)

last_ptr-append : (a q : Ptr) (b : ℕ) (xs : Cells ℕ) → last_ptr a (xs ++ ((q, b) ∷ [])) ≡ q
last_ptr-append a q b [] = refl
last_ptr-append a q b ((c, v) ∷ xs) = last_ptr-append c q b xs

off_parts :
    (r q : Ptr) (b : ℕ) (xs ys : Cells ℕ)
    → has r (xs ++ ((q, b) ∷ ys)) ≡ false
    → (r ≢ q) × (has r xs ≡ false)
off_parts r q b xs ys out = ground (arith, has-append r xs ((q, b) ∷ ys))

-- The loop appends a node for each number to the list, and writes nowhere else.
create_loop_lem :
    (numbers : List ℤ) (memory : List Ptr) (a : Ptr) (v : ℕ) (xs : Cells ℕ) (h : Heap ℕ)
    → Chain h null ((a, v) ∷ xs)
    → AreFresh h ((a, v) ∷ xs) memory
    → length memory ≡ length numbers
    → (g : Heap ℕ) × (create_loop numbers memory (last_ptr a xs) h ≡ ret g)
      × Chain g null (((a, v) ∷ xs) ++ zip memory numbers)
      × ((r : Ptr) → has r (((a, v) ∷ xs) ++ zip memory numbers) ≡ false → g r ≡ h r)
unfolding create_loop new_node
create_loop_lem [] [] a v xs h c fresh e =
    (h, refl, subst (Chain h null) (sym (append-nil ((a, v) ∷ xs))) c, λ r off. refl)
create_loop_lem [] (q ∷ memory) a v xs h c fresh e = absurd (omega arith)
create_loop_lem (n ∷ numbers) [] a v xs h c fresh e = absurd (omega arith)
create_loop_lem (n ∷ numbers) (q ∷ memory) a v xs h c (ne, unused, off, single, fresh) e =
    let (g, _, linked, d, same) = set_next-Chain h q a (byte_of n) v xs c ne unused off in
    let (g', run, done, kept) =
      create_loop_lem numbers memory a v (xs ++ ((q, byte_of n) ∷ [])) g d
        (AreFresh-step h g ((a, v) ∷ xs) q (byte_of n) memory same single fresh)
        (omega (arith, e)) in
    let present : (q == null) ≡ false = ground arith in
    let whole = append_assoc ((a, v) ∷ xs) ((q, byte_of n) ∷ []) (zip memory numbers) in
    (
      g',
      rw (present, linked)
          (ap (λ p. create_loop numbers memory p g) (sym (last_ptr-append a q (byte_of n) xs))
            ∙ run),
      subst (Chain g' null) whole done,
      λ r out.
          let (away, apart) = off_parts r q (byte_of n) ((a, v) ∷ xs) (zip memory numbers) out in
          kept r (ap (has r) whole ∙ out) ∙ same r away apart,
    )

print_list_lem :
    (k : ℕ) (h : Heap ℕ) (xs : Cells ℕ)
    → Chain h null xs
    → length xs < k
    → print_list k h (first null xs) ≡ ret (map (λ b. (b, rating b)) (payloads xs))
unfolding print_list
print_list_lem zero h xs c fuel = absurd (omega arith)
print_list_lem (suc k) h [] c fuel = refl
print_list_lem (suc k) h ((a, v) ∷ xs) (ne, at_a, out, c) fuel =
    let present : (a == null) ≡ false = ground arith in
    rw (present, load_lem h a _ ne at_a, print_list_lem k h xs c (omega arith)) refl

payloads-zip :
    (memory : List Ptr) (numbers : List ℤ)
    → length memory ≡ length numbers
    → payloads (zip memory numbers) ≡ map byte_of numbers
payloads-zip [] [] e = refl
payloads-zip [] (n ∷ numbers) e = absurd (omega arith)
payloads-zip (q ∷ memory) [] e = absurd (omega arith)
payloads-zip (q ∷ memory) (n ∷ numbers) e =
    ap (λ t. byte_of n ∷ t) (payloads-zip memory numbers (omega (arith, e)))

length-zip :
    (memory : List Ptr) (numbers : List ℤ)
    → length memory ≡ length numbers
    → length (zip memory numbers) ≡ length numbers
length-zip [] [] e = refl
length-zip [] (n ∷ numbers) e = absurd (omega arith)
length-zip (q ∷ memory) [] e = absurd (omega arith)
length-zip (q ∷ memory) (n ∷ numbers) e =
    omega (arith, length-zip memory numbers (omega (arith, e)))

unused_zip :
    (h : Heap ℕ) (xs : Cells ℕ) (memory : List Ptr) (numbers : List ℤ) (r : Ptr)
    → AreFresh h xs memory
    → has r (zip memory numbers) ≡ true
    → h r ≡ none
unused_zip h xs [] numbers r fresh m = absurd (cc m)
unused_zip h xs (q ∷ memory) [] r fresh m = absurd (cc m)
unused_zip h xs (q ∷ memory) (n ∷ numbers) r (ne, unused, off, single, fresh) m =
    elim (ℕ_discrete r q) [
      | yes e ↦ ap h e ∙ unused
      | no e ↦ unused_zip h xs memory numbers r fresh (ground arith)
    ]

-- Where the file opens and has a number, and malloc gives a fresh address for each, the program prints
-- a line for each number in order, with its value modulo 256 and the rating of that, and ends with the
-- heap that it began with: every node is freed once.
pub main_prints_all :
    (rounds : ℕ) (buffer n : ℤ) (numbers : List ℤ) (a : Ptr) (memory : List Ptr) (h : Heap ℕ)
    → AreFresh h [] (a ∷ memory)
    → length memory ≡ length numbers
    → length (n ∷ numbers) < rounds
    → (g : Heap ℕ) × (main rounds true buffer (n ∷ numbers) a memory h
        ≡ ret (map (λ b. (b, rating b)) (map byte_of (n ∷ numbers)), g))
      × ((r : Ptr) → g r ≡ h r)
unfolding main create_list new_node free_list
main_prints_all rounds buffer n numbers a memory h (ne, unused, _, single, fresh) e enough =
    let h' = write h a (some (node (byte_of n) null)) in
    let elsewhere : (r : Ptr) → r ≢ a → h' r ≡ h r = λ r away. write_ne h a r _ away in
    let (g, built, c, kept) =
      create_loop_lem numbers memory a (byte_of n) [] h' (ne, write_self h a _, refl, tt)
        (AreFresh-step h h' [] a (byte_of n) memory (λ r away _. elsewhere r away) single fresh)
        e in
    let xs = (a, byte_of n) ∷ zip memory numbers in
    let short : length xs < rounds = omega (arith, length-zip memory numbers e) in
    let (g', freed, gone) = free_nodes_lem rounds g xs c short in
    let present : (a == null) ≡ false = ground arith in
    (
      g',
      rw (present, built, print_list_lem rounds g xs c short, freed, payloads-zip memory numbers e)
          refl,
      λ r. elim (Bool-cases (has r xs)) [
        | inl m ↦ gone r ∙ ap (λ t. if t then none else g r) m ∙ sym (all_unused r m)
        | inr m ↦
            gone r ∙ ap (λ t. if t then none else g r) m ∙ kept r m ∙ elsewhere r (ground arith)
      ],
    )
  where
    all_unused : (r : Ptr) → has r ((a, byte_of n) ∷ zip memory numbers) ≡ true → h r ≡ none
    all_unused r m =
        unused_zip h [] (a ∷ memory) (n ∷ numbers) r (ne, unused, refl, single, fresh) m
