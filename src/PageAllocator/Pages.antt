-- ===== src/PageAllocator/Pages.antt =====
-- The free list of pages, and what kfree does to it.
use public_systems_projects.Base.{
  ℕ, ◌+◌, ◌%◌, ◌≤◌, ◌<◌, ◌≡◌, ◌≢◌, refl, false, ◌==◌, Bool-cases, inl, inr, List, [], ◌∷◌, store,
  store-same, store_ne, sub_uint, ret, arith,
}
use public_systems_projects.KernelStrings.{memset}
use public_systems_projects.PageAllocator.{
  pgsize, kernbase, phystop, Kmem, lock_kmem, unlock_kmem, is_bad, kfree,
}

-- The pages are those from `p` on, by their links.
unfoldable pub AreLinked : (ℕ → ℕ) → ℕ → List ℕ → Type 0
AreLinked next p [] = p ≡ 0
AreLinked next p (v ∷ pages) = (p ≡ v) × (v ≢ 0) × AreLinked next (next v) pages

unfoldable pub AreBelow : ℕ → List ℕ → Type 0
AreBelow p [] = Unit {0}
AreBelow p (v ∷ pages) = (v < p) × AreBelow p pages

-- The free list of an allocator whose lock nobody holds, all of its pages below `bound`.
pub record IsFree (k : Kmem) (bound : ℕ) (pages : List ℕ) : Type 0 where
  pub unlocked : k.locked ≡ false
  pub linked : AreLinked k.next k.freelist pages
  pub below : AreBelow bound pages

pub below_mono : (p q : ℕ) (pages : List ℕ) → p ≤ q → AreBelow p pages → AreBelow q pages
unfolding AreBelow
below_mono p q [] le b = tt
below_mono p q (v ∷ pages) le (b, bs) = (omega arith, below_mono p q pages le bs)

pub lift : (k : Kmem) (p q : ℕ) (pages : List ℕ) → p ≤ q → IsFree k p pages → IsFree k q pages
lift k p q pages le is = record {
  unlocked = is.unlocked;
  linked = is.linked;
  below = below_mono p q pages le is.below;
}

-- `v` is none of the pages.
unfoldable pub AreOther : ℕ → List ℕ → Type 0
AreOther v [] = Unit {0}
AreOther v (w ∷ pages) = (w ≢ v) × AreOther v pages

pub below-other : (v : ℕ) (pages : List ℕ) → AreBelow v pages → AreOther v pages
unfolding AreBelow AreOther
below-other v [] b = tt
below-other v (w ∷ pages) (b, bs) = ((λ e. absurd (omega (arith, e))), below-other v pages bs)

linked-store :
    (next : ℕ → ℕ) (p c v : ℕ) (pages : List ℕ)
    → AreOther v pages
    → AreLinked next p pages
    → AreLinked (store next v c) p pages
unfolding AreLinked AreOther
linked-store next p c v [] b l = l
linked-store next p c v (w ∷ pages) (b, bs) (l, n, ls) =
    let other : store next v c w ≡ next w = store_ne next v c w b in
    (l, n, rw other (linked-store next (next w) c v pages bs ls))

module _ (end : ℕ) where
  -- A page that kfree takes.
  pub record IsPage (v : ℕ) : Type 0 where
    pub positive : 0 < v
    pub aligned : v % pgsize ≡ 0
    pub above : end ≤ v
    pub mapped : kernbase ≤ v
    pub physical : v < kernbase + phystop

  not_bad : (v : ℕ) → IsPage v → is_bad end v ≡ false
  unfolding is_bad
  not_bad v page =
      let high : sub_uint v kernbase < phystop = omega (arith, page.mapped, page.physical) in
      ground (arith, high, page.aligned, page.above)

  linked_cons :
      (k : Kmem) (v : ℕ) (pages : List ℕ)
      → AreLinked k.next k.freelist pages
      → AreOther v pages
      → IsPage v
      → AreLinked (store k.next v k.freelist) v (v ∷ pages)
  unfolding AreLinked
  linked_cons k v pages linked other page = (
    refl,
    (λ e. absurd (omega (arith, page.positive, e))),
    rw (store-same k.next v k.freelist)
        (linked-store k.next k.freelist k.freelist v pages other linked),
  )

  -- The allocator once the page `v` is on its list.
  abbrev added : Kmem → ℕ → Kmem
  added k v = record k {
    freelist = v;
    next = store k.next v k.freelist;
    memory = memset k.memory v 1 pgsize;
  }

  pub kfree_lem :
      (k : Kmem) (v a b : ℕ) (pages : List ℕ)
      → IsFree k a pages
      → AreOther v pages
      → IsPage v
      → a ≤ b
      → v < b
      → (l : Kmem) × (kfree end k v ≡ ret l) × IsFree l b (v ∷ pages) × (l.use_lock ≡ k.use_lock)
  unfolding kfree lock_kmem unlock_kmem AreBelow
  kfree_lem k v a b pages is other page le less =
      let good : is_bad end v ≡ false = not_bad v page in
      let links = linked_cons k v pages is.linked other page in
      let more : AreBelow b (v ∷ pages) = (less, below_mono a b pages le is.below) in
      elim (Bool-cases (k.use_lock == 0)) [
        | inl off ↦ (
          added k v,
          rw (good, off, unlock_kmem, off) refl,
          record { unlocked = is.unlocked; linked = links; below = more },
          refl,
        )
        | inr on ↦ (
          record (added k v) { locked = false },
          rw (good, on, is.unlocked, unlock_kmem, on) refl,
          record { unlocked = refl; linked = links; below = more },
          refl,
        )
      ]
