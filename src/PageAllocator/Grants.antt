-- ===== src/PageAllocator/Grants.antt =====
-- kalloc gives the first page of the free list.
use public_systems_projects.Base.{
  ℕ, ◌≤◌, ◌<◌, ◌≡◌, refl, false, ◌==◌, Bool-cases, inl, inr, List, [], ◌∷◌, ret, ◌>>=◌, arith,
}
use public_systems_projects.PageAllocator.{Kmem, lock_kmem, unlock_kmem, kfree, kalloc}
use public_systems_projects.PageAllocator.Pages.{
  AreLinked, AreBelow, AreOther, IsFree, IsPage, kfree_lem,
}

first : List ℕ → ℕ
first [] = 0
first (v ∷ pages) = v

others : List ℕ → List ℕ
others [] = []
others (v ∷ pages) = pages

kalloc_lem :
    (k : Kmem) (bound : ℕ) (pages : List ℕ)
    → IsFree k bound pages
    → (l : Kmem) × (kalloc k ≡ ret (first pages, l)) × IsFree l bound (others pages)
unfolding kalloc lock_kmem unlock_kmem first others AreLinked AreBelow
kalloc_lem k bound [] is = elim (Bool-cases (k.use_lock == 0)) [
  | inl off ↦ (k, rw (off, is.linked, unlock_kmem, off) refl, is)
  | inr on ↦ (
    record k { locked = false },
    rw (on, is.unlocked, is.linked, unlock_kmem, on) refl,
    record { unlocked = refl; linked = is.linked; below = is.below },
  )
]
kalloc_lem k bound (v ∷ pages) is =
    let some_page : (v == 0) ≡ false = ground (arith, is.linked.1) in
    let rest : AreLinked k.next (k.next k.freelist) pages = rw (is.linked.0) (is.linked.2) in
    elim (Bool-cases (k.use_lock == 0)) [
      | inl off ↦ (
        record k { freelist = k.next k.freelist },
        rw (off, is.linked.0, some_page, unlock_kmem, off) refl,
        record { unlocked = is.unlocked; linked = rest; below = is.below.1 },
      )
      | inr on ↦ (
        record k { locked = false; freelist = k.next k.freelist },
        rw (on, is.unlocked, is.linked.0, some_page, unlock_kmem, on) refl,
        record { unlocked = refl; linked = rest; below = is.below.1 },
      )
    ]

-- A page that is freed while it is not on the free list is the one that the next call of kalloc gives, and
-- the free list is then as before.
pub kfree-kalloc :
    (end : ℕ) (k : Kmem) (v a b : ℕ) (pages : List ℕ)
    → IsFree k a pages
    → AreOther v pages
    → IsPage end v
    → a ≤ b
    → v < b
    → (l : Kmem) × ((kfree end k v >>= kalloc) ≡ ret (v, l)) × IsFree l b pages
unfolding first others
kfree-kalloc end k v a b pages is other page le less =
    let (m, freed, mis, _) = kfree_lem end k v a b pages is other page le less in
    let (l, granted, lis) = kalloc_lem m b (v ∷ pages) mis in (l, rw freed granted, lis)
