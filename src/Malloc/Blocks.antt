-- ===== src/Malloc/Blocks.antt =====
-- What the allocator promises, on the list of its blocks, and that mymalloc, mycalloc and myfree do it.
use public_systems_projects.Base.{
  ℕ, zero, suc, ◌+◌, ◌%◌, ◌<◌, ◌≡◌, ◌≢◌, refl, sym, ap, ◌∙◌, true, false, inl, inr, Option, none,
  some, [], ◌∷◌, ◌++◌, arith, ◌==◌, length, Outcome, ret,
}
use public_systems_projects.Memory.{Ptr, null, node, Heap, write, set_payload}
use public_systems_projects.Memory.Chain.{
  Cells, first, has, Chain, load_lem, modify, Chain-modify, first-modify, has_of_none, write_self,
}
use public_systems_projects.Memory.Extend.{last_ptr, set_next-Chain}
use public_systems_projects.Malloc.{
  Block, block, block_size, size_mod, Allocator, last_loop, get_last_block, link_block,
  extend_memory, mymalloc, find_optimal_free_block,
}
use public_systems_projects.Malloc.Fit.{IsAllocator, ptr_of, BestFit, Among, find_lem}

abbrev pub take_block : Block → Block
take_block b = record b { free = 0 }

abbrev pub release : Block → Block
release b = record b { free = 1 }

-- What a request for `s` bytes answers, and the blocks after it, where `grown` is what sbrk answers.
abbrev pub served : Option Ptr → ℕ → Cells Block → Option (Ptr × Block) → Option Ptr × Cells Block
served grown s xs (some (p, b)) = (some (p + block_size), modify p take_block xs)
served none s xs none = (none, xs)
served (some q) s xs none = (some (q + block_size), xs ++ ((q, block s 0) ∷ []))

-- sbrk extends the memory: its answer is a valid address where no header is.
abbrev pub IsFresh : Allocator → Option Ptr → Type 0
IsFresh a none = Unit {0}
IsFresh a (some q) = (q ≢ null) × (a.heap q ≡ none)

last_loop_lem :
    (k : ℕ) (h : Heap Block) (p : Ptr) (b : Block) (xs : Cells Block)
    → Chain h null ((p, b) ∷ xs)
    → length xs < k
    → last_loop k h p ≡ ret (last_ptr p xs)
unfolding last_loop
last_loop_lem zero h p b xs c fuel = absurd (omega arith)
last_loop_lem (suc k) h p b [] (ne, at_p, out, c) fuel = rw (load_lem h p _ ne at_p) refl
last_loop_lem (suc k) h p b ((q, d) ∷ xs) (ne, at_p, out, c) fuel =
    rw (load_lem h p _ ne at_p, differ c) (last_loop_lem k h q d xs c (omega arith))
  where
    differ : Chain h null ((q, d) ∷ xs) → (q == null) ≡ false
    differ (qe, _, _, _) = ground arith

get_last_block_lem :
    (rounds : ℕ) (a : Allocator) (xs : Cells Block)
    → IsAllocator a xs
    → length xs < rounds
    → get_last_block rounds a ≡ ret (last_ptr null xs)
unfolding get_last_block
get_last_block_lem rounds a [] is enough = rw is.starts refl
get_last_block_lem rounds a ((p, b) ∷ xs) is enough =
    rw (is.starts, differ is.chain) (last_loop_lem rounds a.heap p b xs is.chain (omega arith))
  where
    differ : Chain a.heap null ((p, b) ∷ xs) → (p == null) ≡ false
    differ (ne, _, _, _) = ground arith

-- the part of `extendMemory` after the call of sbrk
abbrev grow_with : Ptr → ℕ → Allocator → Option Ptr → Outcome (Option Ptr × Allocator)
grow_with last s a none = ret (none, a)
grow_with last s a (some q) = link_block last q (write a.heap q (some (node (block s 0) null))) a

grow_with_lem :
    (grown : Option Ptr) (s : ℕ) (a : Allocator) (xs : Cells Block)
    → IsAllocator a xs
    → IsFresh a grown
    → (b : Allocator) × (grow_with (last_ptr null xs) s a grown
        ≡ ret ((served grown s xs none).0, b))
      × IsAllocator b (served grown s xs none).1
unfolding link_block
grow_with_lem none s a xs is fresh = (a, refl, is)
grow_with_lem (some q) s a [] is (ne, unused) =
    (_, refl, record { chain = (ne, write_self a.heap q _, refl, tt); starts = refl })
grow_with_lem (some q) s a ((p, b) ∷ xs) is (ne, unused) =
    let (g, nn, e, c, _) =
      set_next-Chain a.heap q p (block s 0) b xs is.chain ne unused
        (has_of_none a.heap null q ((p, b) ∷ xs) is.chain unused) in
    (record a { heap = g }, rw (present nn, e) refl, record { chain = c; starts = is.starts })
  where
    present : last_ptr p xs ≢ null → (last_ptr p xs == null) ≡ false
    present nn = ground arith

extend_memory_lem :
    (sbrk : ℕ → Option Ptr) (rounds s : ℕ) (a : Allocator) (xs : Cells Block)
    → IsAllocator a xs
    → length xs < rounds
    → IsFresh a (sbrk ((s + block_size) % size_mod))
    → (b : Allocator) × (extend_memory sbrk rounds a s
        ≡ ret ((served (sbrk ((s + block_size) % size_mod)) s xs none).0, b))
      × IsAllocator b (served (sbrk ((s + block_size) % size_mod)) s xs none).1
unfolding extend_memory
extend_memory_lem sbrk rounds s a xs is enough fresh =
    let (b, e, i) = grow_with_lem (sbrk ((s + block_size) % size_mod)) s a xs is fresh in
    (b, rw (get_last_block_lem rounds a xs is enough) e, i)

pub is_block : (p : Ptr) (b : Block) (xs : Cells Block) → Among p b xs → has p xs ≡ true
is_block p b [] m = absurd m
is_block p b ((q, c) ∷ xs) (inl x) = ground (arith, x.0)
is_block p b ((q, c) ∷ xs) (inr m) = ground (arith, is_block p b xs m)

pub set_payload_lem :
    (a : Allocator) (xs : Cells Block) (p q : Ptr) (b : Block) (f : Block → Block)
    → IsAllocator a xs
    → has p xs ≡ true
    → p ≢ null
    → a.heap p ≡ some (node b q)
    → (h : Heap Block) × (set_payload a.heap p (f b) ≡ ret h)
      × (h p ≡ some (node (f b) q))
      × IsAllocator (record a { heap = h }) (modify p f xs)
unfolding set_payload
set_payload_lem a xs p q b f is m ne at_p = (
  write a.heap p (some (node (f b) q)),
  rw (load_lem a.heap p _ ne at_p) refl,
  write_self a.heap p _,
  record {
    chain = Chain-modify a.heap null p q b f xs is.chain m at_p;
    starts = is.starts ∙ sym (first-modify null p f xs);
  },
)

-- The payload of a block of the list.
Among-load :
    (h : Heap Block) (p : Ptr) (b : Block) (xs : Cells Block)
    → Chain h null xs
    → Among p b xs
    → (p ≢ null) × ((q : Ptr) × (h p ≡ some (node b q)))
Among-load h p b [] c m = absurd m
Among-load h p b ((q, d) ∷ xs) (ne, at_q, out, c) (inl x) = (
  ground (arith, x.0),
  (first null xs, ap h x.0 ∙ at_q ∙ ap (λ e. some (node e (first null xs))) (sym x.1)),
)
Among-load h p b ((q, d) ∷ xs) (ne, at_q, out, c) (inr m) = Among-load h p b xs c m

-- the last step of `mymalloc`, for each choice of the search
chosen :
    (sbrk : ℕ → Option Ptr) (rounds s : ℕ) (a : Allocator) (xs : Cells Block)
    (o : Option (Ptr × Block))
    → IsAllocator a xs
    → length xs < rounds
    → IsFresh a (sbrk ((s + block_size) % size_mod))
    → BestFit s xs o
    → find_optimal_free_block rounds a s ≡ ret (ptr_of o)
    → (b : Allocator) × (mymalloc sbrk rounds a s
        ≡ ret ((served (sbrk ((s + block_size) % size_mod)) s xs o).0, b))
      × IsAllocator b (served (sbrk ((s + block_size) % size_mod)) s xs o).1
unfolding mymalloc
chosen sbrk rounds s a xs none is enough fresh f e =
    let (b, eq, i) = extend_memory_lem sbrk rounds s a xs is enough fresh in (b, rw e eq, i)
chosen sbrk rounds s a xs (some (p, c)) is enough fresh f e =
    let (ne, (q, at_p)) = Among-load a.heap p c xs is.chain f.0 in
    let (h, eq, _, i) = set_payload_lem a xs p q c take_block is (is_block p c xs f.0) ne at_p in
    (record a { heap = h }, rw (e, present ne, load_lem a.heap p _ ne at_p, eq) refl, i)
  where
    present : p ≢ null → (p == null) ≡ false
    present ne = ground arith

-- `mymalloc` with enough rounds ends, and keeps the list of blocks. It takes the block that the best
-- fit finds, marks it as used and answers its memory. Where none fits it asks sbrk for the bytes and a
-- header modulo 2 ^ 64, and answers NULL and changes nothing where sbrk fails, or appends a used block
-- of `s` bytes at the fresh address.
pub mymalloc_lem :
    (sbrk : ℕ → Option Ptr) (rounds s : ℕ) (a : Allocator) (xs : Cells Block)
    → IsAllocator a xs
    → length xs < rounds
    → IsFresh a (sbrk ((s + block_size) % size_mod))
    → (o : Option (Ptr × Block)) × (b : Allocator) × BestFit s xs o
      × (mymalloc sbrk rounds a s ≡ ret ((served (sbrk ((s + block_size) % size_mod)) s xs o).0, b))
      × IsAllocator b (served (sbrk ((s + block_size) % size_mod)) s xs o).1
unfolding mymalloc
mymalloc_lem sbrk rounds s a xs is enough fresh =
    let (o, e, f) = find_lem rounds s a xs is enough in
    let (b, eq, i) = chosen sbrk rounds s a xs o is enough fresh f e in (o, b, f, eq, i)
