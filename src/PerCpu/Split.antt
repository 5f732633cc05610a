-- ===== src/PerCpu/Split.antt =====
-- The split of a block in two.
use native.Mathlib.Decide.{ℕ_discrete}
use public_systems_projects.Base.{
  ℕ, ◌+◌, ◌-◌, ◌≤◌, ◌<◌, ◌≡◌, ◌≢◌, refl, sym, ap, ap₂, ◌∙◌, true, false, some, [], ◌∷◌, ret, ◌==◌,
  arith, if◌then◌else◌,
}
use public_systems_projects.Memory.{Ptr, null, node, Heap, set_payload, write}
use public_systems_projects.Memory.Chain.{
  Cells, first, has, Chain, Chain-frame, load_lem, write_self, write_ne, set_next_lem,
  node-next_inj, node-payload_inj,
}
use public_systems_projects.Malloc.{Block, block, block_size, size_mod}
use public_systems_projects.Threads.{Pthread, IsPthread}
use public_systems_projects.PerCpu.{State, sub_size, split_block}
use public_systems_projects.PerCpu.Free.{IsFree, IsHeld, lock_cpu_lem, unlock_cpu_lem}

-- The block at `p` keeps `s` bytes, and a free block at `q` gets the rest, less a header.
unfoldable pub split_cells : Ptr → ℕ → Ptr → Cells Block → Cells Block
split_cells p s q [] = []
split_cells p s q ((a, b) ∷ xs) =
    if a == p
    then (a, block s b.free) ∷ (q, block (b.size - s - block_size) 1) ∷ xs
    else (a, b) ∷ split_cells p s q xs

-- all bytes of the blocks, with their headers
abbrev pub bytes : Cells Block → ℕ
bytes [] = 0
bytes ((_, b) ∷ xs) = b.size + block_size + bytes xs

first-split_cells :
    (stop p : Ptr) (s : ℕ) (q : Ptr) (xs : Cells Block)
    → first stop (split_cells p s q xs) ≡ first stop xs
unfolding split_cells
first-split_cells stop p s q [] = refl
first-split_cells stop p s q ((a, b) ∷ xs) = ground arith

has-split_cells :
    (r p : Ptr) (s : ℕ) (q : Ptr) (xs : Cells Block)
    → has r xs ≡ false
    → r ≢ q
    → has r (split_cells p s q xs) ≡ false
unfolding split_cells
has-split_cells r p s q [] out ne = refl
has-split_cells r p s q ((a, b) ∷ xs) out ne = ground (arith, has-split_cells r p s q xs)

-- What is written at `p` and `q`, and nowhere else.
pub record Splits (h g : Heap Block) (p q r : Ptr) (s : ℕ) (b : Block) : Type 0 where
  pub before : h p ≡ some (node b r)
  pub kept : g p ≡ some (node (block s b.free) q)
  pub rest : g q ≡ some (node (block (b.size - s - block_size) 1) r)
  pub others : (a : Ptr) → a ≢ p → a ≢ q → g a ≡ h a

apart : (x y : Ptr) (xs : Cells Block) → has x xs ≡ true → has y xs ≡ false → x ≢ y
apart x y xs inside outside e = absurd (cc (ap (λ r. has r xs) e, inside, outside))

Splits-Chain :
    (h g : Heap Block) (stop p q r : Ptr) (s : ℕ) (b : Block) (xs : Cells Block)
    → Splits h g p q r s b
    → Chain h stop xs
    → q ≢ null
    → has q xs ≡ false
    → Chain g stop (split_cells p s q xs)
unfolding split_cells
Splits-Chain h g stop p q r s b [] splits c ne out = tt
Splits-Chain h g stop p q r s b ((a, d) ∷ xs) splits (na, at_a, fresh, c) ne out =
    elim (ℕ_discrete a p) [
      | yes e ↦
          let same : (a == p) ≡ true = ground arith in
          let both = sym splits.before ∙ sym (ap h e) ∙ at_a in
          let one = node-payload_inj both in
          rw same (
            na,
            ap g e ∙ splits.kept ∙ ap (λ t. some (node (block s t.free) q)) one,
            ground arith,
            (
              ne,
              splits.rest
                  ∙ ap₂ (λ t u. some (node (block (t.size - s - block_size) 1) u)) one
                      (node-next_inj both),
              ground arith,
              Chain-frame h g stop xs c λ x m.
                  splits.others x (apart x p xs m (ap (λ t. has t xs) (sym e) ∙ fresh))
                    (apart x q xs m (ground arith)),
            ),
          )
      | no e ↦
          let other : (a == p) ≡ false = ground arith in
          rw other (
            na,
            splits.others a e (ground arith)
                ∙ at_a
                ∙ ap (λ t. some (node d t)) (sym (first-split_cells stop p s q xs)),
            has-split_cells a p s q xs fresh (ground arith),
            Splits-Chain h g stop p q r s b xs splits c ne (ground arith),
          )
    ]

bytes-split_cells :
    (h : Heap Block) (stop p q r : Ptr) (s : ℕ) (b : Block) (xs : Cells Block)
    → Chain h stop xs
    → h p ≡ some (node b r)
    → s + block_size ≤ b.size
    → bytes (split_cells p s q xs) ≡ bytes xs
unfolding split_cells
bytes-split_cells h stop p q r s b [] c at_p fits = refl
bytes-split_cells h stop p q r s b ((a, d) ∷ xs) (na, at_a, fresh, c) at_p fits =
    elim (ℕ_discrete a p) [
      | yes e ↦
          let same : (a == p) ≡ true = ground arith in
          let one = node-payload_inj (sym at_p ∙ sym (ap h e) ∙ at_a) in
          rw same (omega (arith, ap (λ t. t.size) one))
      | no e ↦
          let other : (a == p) ≡ false = ground arith in
          rw (other, bytes-split_cells h stop p q r s b xs c at_p fits) refl
    ]

write_both :
    (h : Heap Block) (p q r : Ptr) (s : ℕ) (b : Block)
    → h p ≡ some (node b r)
    → p ≢ q
    → Splits h
        (write
          (write
            (write h q (some (node (block (b.size - s - block_size) 1) r)))
            p
            (some (node (block s b.free) r)))
          p
          (some (node (block s b.free) q)))
        p
        q
        r
        s
        b
unfolding write
write_both h p q r s b at_p ne = record {
  before = at_p;
  kept = ground arith;
  rest = ground arith;
  others = λ a np nq. ground arith;
}

module _ (l : Pthread) (laws : IsPthread l) where
  -- `splitBlock`, for a block of the list with room for `s` bytes and a header, and a lock that is free: the
  -- list has a free block with the rest behind it, the number of bytes of all blocks with their headers
  -- is what it was, and the lock is given back.
  pub split_block_lem :
      (i cpu s : ℕ) (a : State l) (xs : Cells Block) (p r : Ptr) (b : Block)
      → Chain a.heap null xs
      → IsFree l cpu a
      → has p xs ≡ true
      → p ≢ null
      → a.heap p ≡ some (node b r)
      → s + block_size ≤ b.size
      → b.size < size_mod
      → has (p + s + block_size) xs ≡ false
      → (d : State l) × (split_block l i cpu p s a ≡ ret d)
        × Chain d.heap null (split_cells p s (p + s + block_size) xs)
        × (bytes (split_cells p s (p + s + block_size) xs) ≡ bytes xs)
        × IsFree l cpu d
  unfolding split_block set_payload
  split_block_lem i cpu s a xs p r b c is m ne at_p fits small out =
      let q = p + s + block_size in
      let (locks, e, k) = lock_cpu_lem l laws i cpu a is in
      let rest = block (b.size - s - block_size) 1 in
      let h = write a.heap q (some (node rest r)) in
      let h' = write h p (some (node (block s b.free) r)) in
      let g = write h' p (some (node (block s b.free) q)) in
      let held : IsHeld l cpu i (record a { heap = g; locks = locks }) = record {
        mutex = k.mutex;
        there = k.there;
        held = k.held;
      } in
      let (locks', e', f) =
        unlock_cpu_lem l laws i cpu (record a { heap = g; locks = locks }) held in
      (
        record a { heap = g; locks = locks' },
        rw
            (
              e,
              load_lem a.heap p _ ne at_p,
              left,
              load_lem h p (node b r) ne (write_ne a.heap q p _ (omega arith) ∙ at_p),
              set_next_lem h' p q (node (block s b.free) r) ne (write_self h p _),
              e',
            )
            refl,
        Splits-Chain a.heap g null p q r s b xs (write_both a.heap p q r s b at_p (omega arith)) c
            (ground arith) out,
        bytes-split_cells a.heap null p q r s b xs c at_p fits,
        record { mutex = f.mutex; there = f.there; free = f.free },
      )
    where
      left : sub_size (sub_size b.size s) block_size ≡ b.size - s - block_size
      left = omega arith
