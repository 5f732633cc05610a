-- ===== src/PageAllocator.antt =====
-- Assignment9_xv6/part1/xv6-public/kalloc.c: the allocator of pages. The link of a free page is kept in
-- `next`, by the address of the page. `end`, the end of the kernel, is a parameter. panic never returns,
-- nor does `acquire` of a lock that is held.
pub mod Pages
pub mod Boot
pub mod Grants
mod Tests
use public_systems_projects.Base.{
  ℕ, zero, suc, ◌+◌, ◌-◌, ◌*◌, ◌/◌, ◌%◌, Bool, true, false, ◌||◌, not, ltb, leb, ◌==◌,
  if◌then◌else◌, store, sub_uint, uint_mod, Outcome, ret, blocked, out_of_fuel, ◌>>=◌,
}
use public_systems_projects.KernelStrings.{memset}

abbrev pub pgsize : ℕ
pgsize = 4096

abbrev pub kernbase : ℕ
kernbase = 2147483648

abbrev pub phystop : ℕ
phystop = 234881024

-- `(sz + PGSIZE - 1) & ~(PGSIZE - 1)` at type `uint`
unfoldable pub pgroundup : ℕ → ℕ
pgroundup sz = let up = (sz + pgsize - 1) % uint_mod in up - up % pgsize

pub record Kmem : Type 0 where
  pub locked : Bool
  pub use_lock : ℕ
  pub freelist : ℕ
  pub next : ℕ → ℕ
  pub memory : ℕ → ℕ

-- `if(kmem.use_lock) acquire(&kmem.lock);` and the release
unfoldable pub lock_kmem : Kmem → Outcome Kmem
lock_kmem k =
    if k.use_lock == 0
    then ret k
    else if k.locked
    then blocked
    else ret (record k { locked = true })

unfoldable pub unlock_kmem : Kmem → Kmem
unlock_kmem k = if k.use_lock == 0 then k else record k { locked = false }

-- the test of `kfree`
unfoldable pub is_bad : (end v : ℕ) → Bool
is_bad end v = not (v % pgsize == 0) || ltb v end || leb phystop (sub_uint v kernbase)

unfoldable pub kfree : (end : ℕ) → Kmem → ℕ → Outcome Kmem
unfolding lock_kmem unlock_kmem is_bad
kfree end k v = if is_bad end v then blocked else (do
  l ← lock_kmem (record k { memory = memset k.memory v 1 pgsize })
  ret (unlock_kmem (record l { next = store l.next v l.freelist; freelist = v })))

-- the page, or 0
unfoldable pub kalloc : Kmem → Outcome (ℕ × Kmem)
unfolding lock_kmem unlock_kmem
kalloc k = do
  l ← lock_kmem k
  ret (
    l.freelist,
    unlock_kmem (if l.freelist == 0 then l else record l { freelist = l.next l.freelist }),
  )

-- The loop of `freerange`. It adds a page to `p` in each round, so that `vend / pgsize + 1` rounds are enough.
unfoldable pub freerange_loop : (end rounds : ℕ) → Kmem → (p vend : ℕ) → Outcome Kmem
unfolding kfree
freerange_loop end zero k p vend = out_of_fuel
freerange_loop end (suc rounds) k p vend =
    let next = kfree end k p >>= (λ l. freerange_loop end rounds l (p + pgsize) vend) in
    if leb (p + pgsize) vend then next else ret k

unfoldable pub freerange : (end : ℕ) → Kmem → (vstart vend : ℕ) → Outcome Kmem
unfolding pgroundup freerange_loop
freerange end k vstart vend = freerange_loop end (vend / pgsize + 1) k (pgroundup vstart) vend

unfoldable pub kinit1 : (end : ℕ) → Kmem → (vstart vend : ℕ) → Outcome Kmem
unfolding freerange
kinit1 end k vstart vend = freerange end (record k { locked = false; use_lock = 0 }) vstart vend

unfoldable pub kinit2 : (end : ℕ) → Kmem → (vstart vend : ℕ) → Outcome Kmem
unfolding freerange
kinit2 end k vstart vend = do l ← freerange end k vstart vend; ret (record l { use_lock = 1 })
