-- ===== src/Stack/Ops.antt =====
-- The operations on a stack whose nodes are `xs`, the top first.
use public_systems_projects.Base.{
  ℕ, ◌+◌, ◌-◌, ◌≤◌, ◌<◌, ◌≡◌, ◌≢◌, refl, ◌∙◌, none, some, [], ◌∷◌, arith, length, pos, negsuc, ret,
  exit,
}
use public_systems_projects.Memory.{Ptr, null, node, Heap, write, new_node}
use public_systems_projects.Memory.Chain.{
  Cells, first, Chain, SameOutside, Without, Chain-write, has_of_none, load_lem, free_node_lem,
  free_nodes_lem,
}
use public_systems_projects.Stack.{
  Stack, max_depth, create_stack, stack_enqueue, stack_dequeue, free_stack,
}

pub record IsStack (h : Heap ℕ) (s : Stack) (xs : Cells ℕ) : Type 0 where
  pub chain : Chain h null xs
  pub top : s.head ≡ first null xs
  pub counted : s.count ≡ length xs
  pub within : s.count ≤ s.capacity
  pub bounded : s.capacity ≤ max_depth

abbrev pub pushed : Ptr → Stack → Stack
pushed fresh s = record s { head = fresh; count = s.count + 1 }

-- A capacity of at most 32 gives an empty stack, a larger one exits with code 1.
pub create_stack_lem :
    (h : Heap ℕ) (raw : Stack) (capacity : ℕ)
    → (max_depth < capacity → create_stack (some raw) capacity ≡ exit 1)
      × (capacity ≤ max_depth
          → (s : Stack) × (create_stack (some raw) capacity ≡ ret s)
            × IsStack h s []
            × (s.capacity ≡ capacity))
unfolding create_stack
create_stack_lem h raw capacity = (
  λ big. ground arith,
  λ fits. (
    record raw { count = 0; capacity = capacity; head = null },
    ground arith,
    record { chain = tt; top = refl; counted = refl; within = omega arith; bounded = fits },
    refl,
  ),
)

first_of_empty : (xs : Cells ℕ) → length xs ≡ 0 → first null xs ≡ null
first_of_empty [] e = refl
first_of_empty (x ∷ xs) e = absurd (omega arith)

module _ {h : Heap ℕ} {s : Stack} {xs : Cells ℕ} (is : IsStack h s xs) where
  -- A full stack turns an item away with -1 and changes nothing.
  pub enqueue-full :
      (fresh : Ptr) (x : ℕ)
      → length xs ≡ s.capacity
      → stack_enqueue fresh h (some s) x ≡ ret (negsuc 0, h, some s)
  unfolding stack_enqueue
  enqueue-full fresh x full = ground (arith, is.counted)

  head_of_empty : s.count ≡ 0 → s.head ≡ null
  head_of_empty e = is.top ∙ first_of_empty xs (omega (arith, is.counted))

  -- With room left and an unused address from malloc, the item becomes the new top, and only the
  -- new address changes.
  pub enqueue-room :
      (fresh : Ptr) (x : ℕ)
      → length xs < s.capacity
      → fresh ≢ null
      → h fresh ≡ none
      → (g : Heap ℕ) × (stack_enqueue fresh h (some s) x ≡ ret (pos 0, g, some (pushed fresh s)))
        × IsStack g (pushed fresh s) ((fresh, x) ∷ xs)
        × SameOutside ((fresh, x) ∷ []) h g
  unfolding stack_enqueue new_node write
  enqueue-room fresh x room ne unused = (
    write h fresh (some (node x (first null xs))),
    ground (arith, head_of_empty, is.top, is.counted),
    record {
      chain = (
        ne,
        ground arith,
        has_of_none h null fresh xs is.chain unused,
        Chain-write h null fresh _ xs is.chain (has_of_none h null fresh xs is.chain unused),
      );
      top = refl;
      counted = omega (arith, is.counted);
      within = omega (arith, is.counted);
      bounded = is.bounded;
    },
    λ a out. ground arith,
  )

-- On an empty stack dequeue exits with code 1.
pub dequeue-nil : {h : Heap ℕ} {s : Stack} → IsStack h s [] → stack_dequeue h (some s) ≡ exit 1
unfolding stack_dequeue
dequeue-nil is = ground (arith, is.counted)

-- Dequeue on a stack that is not empty hands out 9999999, frees the top node and no other, and
-- leaves the rest of the stack.
pub dequeue-cons :
    {h : Heap ℕ} {s : Stack} (a : Ptr) (x : ℕ) (xs : Cells ℕ)
    → IsStack h s ((a, x) ∷ xs)
    → (g : Heap ℕ) × (s' : Stack) × (stack_dequeue h (some s) ≡ ret (9999999, g, s'))
      × IsStack g s' xs
      × (s'.capacity ≡ s.capacity)
      × Without ((a, x) ∷ []) h g
unfolding stack_dequeue write
dequeue-cons {h} {s} a x xs is = (
  write h a none,
  record s { head = first null xs; count = s.count - 1 },
  rw (is.top, load_lem h a _ is.chain.0 is.chain.1, free_node_lem h a _ is.chain.0 is.chain.1)
      (ground (arith, is.counted)),
  record {
    chain = Chain-write h null a none xs is.chain.3 is.chain.2;
    top = refl;
    counted = omega (arith, is.counted);
    within = omega (arith, is.within);
    bounded = is.bounded;
  },
  refl,
  λ b. ground arith,
)

-- `free_stack` frees exactly the nodes of the stack: none is left, none is freed twice, and its
-- loop ends within `count + 1` rounds.
pub free_stack_lem :
    {h : Heap ℕ} {s : Stack} {xs : Cells ℕ}
    → IsStack h s xs
    → (g : Heap ℕ) × (free_stack h (some s) ≡ ret g) × Without xs h g
unfolding free_stack
free_stack_lem {h} {s} {xs} is =
    let (g, e, gone) = free_nodes_lem (s.count + 1) h xs is.chain (omega (arith, is.counted)) in
    (g, rw is.top e, gone)
