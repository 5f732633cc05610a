-- ===== src/PageAllocator/Boot.antt =====
-- kinit1 and kinit2 put every page on the free list once.
use public_systems_projects.Base.{
  ℕ, zero, suc, ◌+◌, ◌-◌, ◌*◌, ◌/◌, ◌%◌, ◌≤◌, ◌<◌, ◌≡◌, refl, ◌∙◌, true, false, leb, List, [], ◌∷◌,
  ret, arith,
}
use public_systems_projects.PageAllocator.{
  pgsize, kernbase, phystop, pgroundup, Kmem, freerange_loop, freerange, kinit1, kinit2,
}
use public_systems_projects.PageAllocator.Pages.{
  AreLinked, AreBelow, IsFree, IsPage, lift, below-other, kfree_lem,
}

-- the pages on the list when `n` more pages, from `p` on, are given to it
unfoldable pub pages_from : (p n : ℕ) → List ℕ → List ℕ
pages_from p zero pages = pages
pages_from p (suc n) pages = pages_from (p + pgsize) n (p ∷ pages)

pgroundup_lem : (a : ℕ) → a ≤ kernbase + phystop → (a ≤ pgroundup a) × (pgroundup a % pgsize ≡ 0)
unfolding pgroundup
pgroundup_lem a small = (omega arith, omega arith)

module _ (end : ℕ) where
  freerange_loop_lem :
      (k : Kmem) (p vend n rounds : ℕ) (pages : List ℕ)
      → IsFree k p pages
      → 0 < p
      → p % pgsize ≡ 0
      → end ≤ p
      → kernbase ≤ p
      → vend ≤ kernbase + phystop
      → p + pgsize * n ≤ vend
      → vend < p + pgsize * (n + 1)
      → n < rounds
      → (l : Kmem) × (freerange_loop end rounds k p vend ≡ ret l)
        × IsFree l vend (pages_from p n pages)
        × (l.use_lock ≡ k.use_lock)
  unfolding freerange_loop pages_from
  freerange_loop_lem k p vend n zero pages is pos al ab ma ph le gt fuel = absurd (omega arith)
  freerange_loop_lem k p vend zero (suc rounds) pages is pos al ab ma ph le gt fuel =
      let stop : leb (p + pgsize) vend ≡ false = ground arith in
      (k, rw stop refl, lift k p vend pages (omega arith) is, refl)
  freerange_loop_lem k p vend (suc n) (suc rounds) pages is pos al ab ma ph le gt fuel =
      let goes : leb (p + pgsize) vend ≡ true = ground arith in
      let page : IsPage end p = record {
        positive = pos;
        aligned = al;
        above = ab;
        mapped = ma;
        physical = omega arith;
      } in
      let (l, freed, lis, same) =
        kfree_lem end k p p (p + pgsize) pages is (below-other p pages is.below) page (omega arith)
          (omega arith) in
      let (r, done, ris, same') =
        freerange_loop_lem l (p + pgsize) vend n rounds (p ∷ pages) lis (omega arith) (omega arith)
          (omega arith) (omega arith) ph (omega arith) (omega arith) (omega arith) in
      (r, rw (goes, freed) done, ris, same' ∙ same)

  -- For a range of memory that kfree takes, freerange ends and puts each whole page of it on the free list
  -- once, in the order of their addresses.
  freerange_lem :
      (k : Kmem) (vstart vend : ℕ) (pages : List ℕ)
      → IsFree k vstart pages
      → 0 < vstart
      → end ≤ vstart
      → kernbase ≤ vstart
      → vend ≤ kernbase + phystop
      → vstart ≤ vend
      → pgroundup vstart ≤ vend
      → (l : Kmem) × (freerange end k vstart vend ≡ ret l)
        × IsFree l vend (pages_from (pgroundup vstart) ((vend - pgroundup vstart) / pgsize) pages)
        × (l.use_lock ≡ k.use_lock)
  unfolding freerange
  freerange_lem k vstart vend pages is pos ab ma ph ordered le =
      let up : vstart ≤ pgroundup vstart = (pgroundup_lem vstart (omega arith)).0 in
      let al : pgroundup vstart % pgsize ≡ 0 = (pgroundup_lem vstart (omega arith)).1 in
      freerange_loop_lem k (pgroundup vstart) vend ((vend - pgroundup vstart) / pgsize)
        (vend / pgsize + 1) pages (lift k vstart (pgroundup vstart) pages up is) (omega arith) al
        (omega arith) (omega arith) ph (omega arith) (omega arith) (omega arith)

  -- kinit1, on an empty list and for a range that kfree takes, puts each whole page of the range on the list
  -- once, with the lock not in use. kinit2, for a range above the pages that are free by then, whichever
  -- they are after the calls of kalloc in between, adds each whole page of its range once in front of them,
  -- and the lock is in use from then on.
  pub kinit_lem :
      (k : Kmem) (a b c d : ℕ)
      → k.freelist ≡ 0
      → 0 < a
      → end ≤ a
      → kernbase ≤ a
      → a ≤ b
      → pgroundup a ≤ b
      → b ≤ c
      → c ≤ d
      → pgroundup c ≤ d
      → d ≤ kernbase + phystop
      → ((m : Kmem) × (kinit1 end k a b ≡ ret m)
          × IsFree m b (pages_from (pgroundup a) ((b - pgroundup a) / pgsize) [])
          × (m.use_lock ≡ 0))
        × ((m : Kmem) (pages : List ℕ)
            → IsFree m c pages
            → (l : Kmem) × (kinit2 end m c d ≡ ret l)
              × IsFree l d (pages_from (pgroundup c) ((d - pgroundup c) / pgsize) pages)
              × (l.use_lock ≡ 1))
  unfolding kinit1 kinit2 AreLinked AreBelow
  kinit_lem k a b c d none pos ab ma ord1 le1 ord2 ord3 le2 ph =
      let first = record k { locked = false; use_lock = 0 } in
      let (m, one, mis, same) =
        freerange_lem first a b [] (record { unlocked = refl; linked = none; below = tt }) pos ab ma
          (omega arith) ord1 le1 in
      (
        (m, rw one refl, mis, same),
        λ m' pages free.
            let (l, two, lis, _) =
              freerange_lem m' c d pages free (omega arith) (omega arith) (omega arith) ph ord3
                le2 in
            (
              record l { use_lock = 1 },
              rw two refl,
              record { unlocked = lis.unlocked; linked = lis.linked; below = lis.below },
              refl,
            ),
      )
