-- ===== src/Malloc/Fit.antt =====
-- The search for the best block, and the walk to the last one.
use public_systems_projects.Base.{
  ℕ, zero, suc, ◌≤◌, ◌<◌, ◌≡◌, ◌≢◌, refl, ap, ◌∙◌, Bool, true, false, ◌&&◌, ◌⊎◌, inl, inr, Option,
  none, some, [], ◌∷◌, arith, ◌==◌, ltb, leb, if◌then◌else◌, length, ret, Bool-cases,
}
use public_systems_projects.Memory.{Ptr, null, node, Heap}
use public_systems_projects.Memory.Chain.{Cells, first, Chain, load_lem}
use public_systems_projects.Malloc.{Block, Allocator, choose, find_loop, find_optimal_free_block}

-- the list of headers
pub record IsAllocator (a : Allocator) (xs : Cells Block) : Type 0 where
  pub chain : Chain a.heap null xs
  pub starts : a.block_head ≡ first null xs

-- a block that can serve a request
abbrev pub fits : ℕ → Block → Bool
fits s b = leb s b.size && b.free == 1

-- The better of two blocks, the earlier one if they have the same size.
abbrev better : Ptr × Block → Option (Ptr × Block) → Option (Ptr × Block)
better c none = some c
better (p, b) (some (q, c)) = if ltb b.size c.size then some (p, b) else some (q, c)

-- what the search has chosen after the blocks `xs`
unfoldable pub best : ℕ → Cells Block → Option (Ptr × Block) → Option (Ptr × Block)
best s [] o = o
best s ((p, b) ∷ xs) o = best s xs (if fits s b then better (p, b) o else o)

abbrev pub ptr_of : Option (Ptr × Block) → Ptr
ptr_of none = null
ptr_of (some (p, b)) = p

-- The choice so far is a header in the heap.
abbrev InHeap : Heap Block → Option (Ptr × Block) → Type 0
InHeap h none = Unit {0}
InHeap h (some (p, b)) = (p ≢ null) × ((q : Ptr) × (h p ≡ some (node b q)))

choose_lem :
    (h : Heap Block) (s p : ℕ) (b : Block) (o : Option (Ptr × Block))
    → InHeap h o
    → choose h s p b (ptr_of o) ≡ ret (ptr_of (if fits s b then better (p, b) o else o))
unfolding choose
choose_lem h s p b none i = elim (Bool-cases (fits s b)) [ inl e ↦ rw e | inr e ↦ rw e ]
choose_lem h s p b (some (q, c)) (ne, (next, at_q)) = elim (Bool-cases (fits s b)) [
  | inr e ↦ rw e
  | inl e ↦ rw (e, differ, load_lem h q _ ne at_q) (ground arith)
]
  where
    differ : (q == null) ≡ false
    differ = ground arith

better-InHeap :
    (h : Heap Block) (p q : Ptr) (b : Block) (o : Option (Ptr × Block))
    → p ≢ null
    → h p ≡ some (node b q)
    → InHeap h o
    → InHeap h (better (p, b) o)
better-InHeap h p q b none ne e i = (ne, (q, e))
better-InHeap h p q b (some (r, c)) ne e i = elim (Bool-cases (ltb b.size c.size)) [
  | inl t ↦ rw t (ne, (q, e))
  | inr t ↦ rw t i
]

find_loop-best :
    (k : ℕ) (h : Heap Block) (s : ℕ) (xs : Cells Block) (o : Option (Ptr × Block))
    → Chain h null xs
    → length xs < k
    → InHeap h o
    → find_loop k h s (first null xs) (ptr_of o) ≡ ret (ptr_of (best s xs o))
unfolding find_loop best
find_loop-best zero h s xs o c fuel i = absurd (omega arith)
find_loop-best (suc k) h s [] o c fuel i = refl
find_loop-best (suc k) h s ((p, b) ∷ xs) o (ne, at_p, out, c) fuel i =
    rw (differ, load_lem h p _ ne at_p, choose_lem h s p b o i)
      (find_loop-best k h s xs (if fits s b then better (p, b) o else o) c (omega arith) kept)
  where
    differ : (p == null) ≡ false
    differ = ground arith

    kept : InHeap h (if fits s b then better (p, b) o else o)
    kept = elim (Bool-cases (fits s b)) [
      | inl e ↦ rw e (better-InHeap h p _ b o ne at_p i)
      | inr e ↦ rw e i
    ]

abbrev pub NoneFits : ℕ → Cells Block → Type 0
NoneFits s [] = Unit {0}
NoneFits s ((_, b) ∷ xs) = (fits s b ≡ false) × NoneFits s xs

-- every block that fits has at least `n` bytes
abbrev pub AtLeast : ℕ → ℕ → Cells Block → Type 0
AtLeast n s [] = Unit {0}
AtLeast n s ((_, b) ∷ xs) = (fits s b ≡ true → n ≤ b.size) × AtLeast n s xs

abbrev pub Among : Ptr → Block → Cells Block → Type 0
Among p b [] = ⊥
Among p b ((q, c) ∷ xs) = ((p ≡ q) × (b ≡ c)) ⊎ Among p b xs

AtLeast-mono : (m n s : ℕ) (xs : Cells Block) → m ≤ n → AtLeast n s xs → AtLeast m s xs
AtLeast-mono m n s [] h a = tt
AtLeast-mono m n s ((p, b) ∷ xs) h (a, rest) =
    (λ f. omega (arith, a f), AtLeast-mono m n s xs h rest)

-- With the choice `(q, c)` before, the search ends with a block of at most that size, no larger than
-- any that fits: `(q, c)` again, or one of the list that fits.
best-some :
    (s : ℕ) (xs : Cells Block) (q : Ptr) (c : Block)
    → (p : Ptr) × (b : Block) × (best s xs (some (q, c)) ≡ some (p, b))
      × (b.size ≤ c.size)
      × AtLeast b.size s xs
      × (((p ≡ q) × (b ≡ c)) ⊎ (Among p b xs × (fits s b ≡ true)))
unfolding best
best-some s [] q c = (q, c, refl, omega arith, tt, inl (refl, refl))
best-some s ((r, d) ∷ xs) q c = elim (Bool-cases (fits s d)) [
  | inr e ↦
      let (p, b, eq, le, least, from) = best-some s xs q c in
      (
        p,
        b,
        rw e eq,
        le,
        (λ f. absurd (ground (arith, e, f)), least),
        elim from [ inl x ↦ inl x | inr x ↦ inr (inr x.0, x.1) ],
      )
  | inl e ↦ elim (Bool-cases (ltb d.size c.size)) [
    | inl t ↦
        let (p, b, eq, le, least, from) = best-some s xs r d in
        (
          p,
          b,
          rw (e, t) eq,
          ground (arith, le, t),
          (λ f. le, least),
          inr (elim from [ inl x ↦ (inl x, ap (fits s) x.1 ∙ e) | inr x ↦ (inr x.0, x.1) ]),
        )
    | inr t ↦
        let (p, b, eq, le, least, from) = best-some s xs q c in
        (
          p,
          b,
          rw (e, t) eq,
          le,
          (λ f. ground (arith, le, t), least),
          elim from [ inl x ↦ inl x | inr x ↦ inr (inr x.0, x.1) ],
        )
  ]
]

-- The choice of a best-fit search: none where no block fits, else a block of the list that fits and
-- is no larger than any other that fits.
abbrev pub BestFit : ℕ → Cells Block → Option (Ptr × Block) → Type 0
BestFit s xs none = NoneFits s xs
BestFit s xs (some (p, b)) = Among p b xs × (fits s b ≡ true) × AtLeast b.size s xs

BestFit-cons :
    (s : ℕ) (q : Ptr) (c : Block) (xs : Cells Block) (o : Option (Ptr × Block))
    → fits s c ≡ false
    → BestFit s xs o
    → BestFit s ((q, c) ∷ xs) o
BestFit-cons s q c xs none e f = (e, f)
BestFit-cons s q c xs (some (p, b)) e (m, f, least) =
    (inr m, f, (λ g. absurd (ground (arith, e, g)), least))

best-BestFit : (s : ℕ) (xs : Cells Block) → BestFit s xs (best s xs none)
unfolding best
best-BestFit s [] = tt
best-BestFit s ((q, c) ∷ xs) = elim (Bool-cases (fits s c)) [
  | inl e ↦
      let (p, b, eq, le, least, from) = best-some s xs q c in
      rw (e, eq)
        (
          elim from [ inl x ↦ inl x | inr x ↦ inr x.0 ],
          elim from [ inl x ↦ ap (fits s) x.1 ∙ e | inr x ↦ x.1 ],
          (λ f. le, least),
        )
  | inr e ↦ rw e (BestFit-cons s q c xs (best s xs none) e (best-BestFit s xs))
]

-- With more rounds than the list has blocks, `findOptimalFreeBlock` ends. It gives NULL where no free
-- block is large enough, and else a free block that is large enough and of the least such size.
pub find_lem :
    (rounds s : ℕ) (a : Allocator) (xs : Cells Block)
    → IsAllocator a xs
    → length xs < rounds
    → (o : Option (Ptr × Block)) × (find_optimal_free_block rounds a s ≡ ret (ptr_of o))
      × BestFit s xs o
unfolding find_optimal_free_block
find_lem rounds s a xs is enough = (
  best s xs none,
  rw is.starts (find_loop-best rounds a.heap s xs none is.chain enough tt),
  best-BestFit s xs,
)
