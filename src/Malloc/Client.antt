-- ===== src/Malloc/Client.antt =====
-- myfree, mycalloc and what a client of the allocator sees.
use mathlib.Core.Bool.{and-true}
use mathlib.Core.Path.{subst}
use native.Mathlib.Decide.{ℕ_discrete}
use public_systems_projects.Base.{
  ℕ, suc, ◌+◌, ◌-◌, ◌%◌, ◌≤◌, ◌<◌, ◌≡◌, ◌≢◌, refl, sym, ap, ◌∙◌, Bool, true, false, not, ◌&&◌, ◌||◌,
  inl, inr, Option, none, some, [], ◌∷◌, ◌++◌, arith, ◌==◌, length, ret,
}
use public_systems_projects.Memory.{Ptr, null, node, Heap, write}
use public_systems_projects.Memory.Chain.{
  Cells, has, Chain, load_lem, modify, node_at, Chain-modify, Chain-frame, first-modify, write_self,
  write_ne,
}
use public_systems_projects.Malloc.{
  Block, block, block_size, size_mod, Allocator, mymalloc, free_loop, myfree,
}
use public_systems_projects.Malloc.Fit.{IsAllocator, fits, BestFit, Among, NoneFits}
use public_systems_projects.Malloc.Blocks.{release, served, IsFresh, mymalloc_lem, set_payload_lem}

header_of : (p : ℕ) → p + block_size - block_size ≡ p
header_of p = omega arith

-- A block that is free already: to free it again changes nothing.
free_again :
    (k : ℕ) (a : Allocator) (p q : Ptr) (b : Block)
    → p ≢ null
    → a.heap p ≡ some (node b q)
    → b.free ≡ 1
    → free_loop (suc k) a (some (p + block_size)) ≡ ret a
unfolding free_loop
free_again k a p q b ne at_p e = rw (header_of p, load_lem a.heap p _ ne at_p, e) refl

release_free : (b : Block) → b.free ≡ 1 → release b ≡ b
release_free b e = ap (block b.size) (sym e)

-- the list after a free of a block that is free
release-IsAllocator :
    (a : Allocator) (xs : Cells Block) (p q : Ptr) (b : Block)
    → IsAllocator a xs
    → has p xs ≡ true
    → a.heap p ≡ some (node b q)
    → b.free ≡ 1
    → IsAllocator a (modify p release xs)
release-IsAllocator a xs p q b is m at_p e = record {
  chain =
      Chain-frame (write a.heap p (some (node (release b) q))) a.heap null _
        (Chain-modify a.heap null p q b release xs is.chain m at_p) same;
  starts = is.starts ∙ sym (first-modify null p release xs);
}
  where
    same :
        (r : Ptr)
        → has r (modify p release xs) ≡ true
        → a.heap r ≡ write a.heap p (some (node (release b) q)) r
    same r _ = elim (ℕ_discrete r p) [
      | yes d ↦
          ap a.heap d
          ∙ at_p
          ∙ ap (λ c. some (node c q)) (sym (release_free b e))
          ∙ sym (write_self a.heap p _)
          ∙ ap (write a.heap p _) (sym d)
      | no d ↦ sym (write_ne a.heap p r _ d)
    ]

-- the address is the header of a block in use
abbrev pub in_use : Ptr → Cells Block → Bool
in_use p [] = false
in_use p ((q, b) ∷ xs) = ((p == q) && not (b.free == 1)) || in_use p xs

in_use_none : (p : Ptr) (xs : Cells Block) → has p xs ≡ false → in_use p xs ≡ false
in_use_none p [] out = refl
in_use_none p ((q, b) ∷ xs) out = ground (arith, in_use_none p xs (ground arith))

-- A released block is not in use; all others are as before.
in_use-release :
    (h : Heap Block) (t p : Ptr) (xs : Cells Block)
    → Chain h null xs
    → in_use t (modify p release xs) ≡ (in_use t xs && not (t == p))
unfolding modify
in_use-release h t p [] c = refl
in_use-release h t p ((q, b) ∷ xs) (ne, at_q, out, c) = elim (ℕ_discrete q p) [
  | yes e ↦
      let same : (q == p) ≡ true = ground arith in
      rw same (elim (ℕ_discrete t p) [
        | yes d ↦ ground (arith, in_use_none t xs (ap (λ r. has r xs) (d ∙ sym e) ∙ out))
        | no d ↦
            let away : (t == q) ≡ false = ground arith in
            let apart : (t == p) ≡ false = ground arith in
            rw (away, apart) (sym (and-true (in_use t xs)))
      ])
  | no e ↦
      let other : (q == p) ≡ false = ground arith in
      rw (other, in_use-release h t p xs c) (ground arith)
]

-- `myfree` of the memory of a block of the list ends, marks that block as free and leaves the sizes and
-- the other blocks, so that exactly the blocks in use before but this one are in use.
pub myfree_lem :
    (a : Allocator) (xs : Cells Block) (p : Ptr)
    → IsAllocator a xs
    → has p xs ≡ true
    → (b : Allocator) × (myfree a (some (p + block_size)) ≡ ret b)
      × IsAllocator b (modify p release xs)
      × ((t : Ptr) → in_use t (modify p release xs) ≡ (in_use t xs && not (t == p)))
unfolding myfree
myfree_lem a xs p is m =
    let (ne, (b, q, at_p)) = node_at a.heap null p xs is.chain m in
    elim (ℕ_discrete b.free 1) [
      | yes e ↦ (
        a,
        free_again 1 a p q b ne at_p e,
        release-IsAllocator a xs p q b is m at_p e,
        λ t. in_use-release a.heap t p xs is.chain,
      )
      | no e ↦
          let (h, eq, at_h, i) = set_payload_lem a xs p q b release is m ne at_p in
          let differ : (b.free == 1) ≡ false = ground arith in
          (
            record a { heap = h },
            rw (header_of p, load_lem a.heap p _ ne at_p, differ, eq, load_lem h p _ ne at_h) refl,
            i,
            λ t. in_use-release a.heap t p xs is.chain,
          )
    ]

in_use-modify :
    (r p : Ptr) (f : Block → Block) (xs : Cells Block)
    → r ≢ p
    → in_use r (modify p f xs) ≡ in_use r xs
unfolding modify
in_use-modify r p f [] ne = refl
in_use-modify r p f ((q, b) ∷ xs) ne = ground (arith, in_use-modify r p f xs ne)

-- What a client sees of a request: nothing changes where it fails. Else the block was not in use, is in
-- use now, and exactly the blocks in use before and this one are.
abbrev pub Granted : Option Ptr → Cells Block → Cells Block → Type 0
Granted none xs ys = xs ≡ ys
Granted (some r) xs ys =
    (block_size ≤ r)
    × (in_use (r - block_size) xs ≡ false)
    × ((t : Ptr) → in_use t ys ≡ (in_use t xs || (t == r - block_size)))

NoneFits-none :
    (s : ℕ) (xs : Cells Block) (p : Ptr) (b : Block)
    → NoneFits s xs
    → Among p b xs
    → fits s b ≡ true
    → ⊥
NoneFits-none s [] p b n m f = m
NoneFits-none s ((q, c) ∷ xs) p b (n, ns) (inl x) f = cc (n, f, ap (fits s) x.1)
NoneFits-none s ((q, c) ∷ xs) p b (n, ns) (inr m) f = NoneFits-none s xs p b ns m f

-- The request of `s` bytes wraps around: where no block fits and `s` and a header are 2 ^ 64 bytes or
-- more, `mymalloc` asks sbrk for fewer than 24 bytes, and answers with a block that claims `s` bytes.
pub mymalloc_wraps :
    (sbrk : ℕ → Option Ptr) (rounds s : ℕ) (q : Ptr) (a : Allocator) (xs : Cells Block)
    → IsAllocator a xs
    → length xs < rounds
    → NoneFits s xs
    → s < size_mod
    → size_mod ≤ s + block_size
    → sbrk (s + block_size - size_mod) ≡ some q
    → q ≢ null
    → a.heap q ≡ none
    → (b : Allocator) × (s + block_size - size_mod < block_size)
      × (mymalloc sbrk rounds a s ≡ ret (some (q + block_size), b))
      × IsAllocator b (xs ++ ((q, block s 0) ∷ []))
mymalloc_wraps sbrk rounds s q a xs is enough none_fits below above grown ne unused =
    let (o, b, f, e, i) =
      mymalloc_lem sbrk rounds s a xs is enough (subst (IsFresh a) (sym asked) (ne, unused)) in
    let (e2, i2) = settle o b f (subst (λ g. Outcomes g o b) asked (e, i)) in
    (b, omega arith, e2, i2)
  where
    asked : sbrk ((s + block_size) % size_mod) ≡ some q
    asked = ap sbrk (omega arith) ∙ grown

    Outcomes : Option Ptr → Option (Ptr × Block) → Allocator → Type 0
    Outcomes g o b =
        (mymalloc sbrk rounds a s ≡ ret ((served g s xs o).0, b))
        × IsAllocator b (served g s xs o).1

    settle :
        (o : Option (Ptr × Block)) (b : Allocator)
        → BestFit s xs o
        → Outcomes (some q) o b
        → Outcomes (some q) none b
    settle none b f r = r
    settle (some (p, c)) b f r = absurd (NoneFits-none s xs p c none_fits f.0 f.1)
