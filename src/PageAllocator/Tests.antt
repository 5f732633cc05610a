-- ===== src/PageAllocator/Tests.antt =====
-- Three pages behind a kernel of one megabyte.
use public_systems_projects.Base.{List, ℕ, ◌-◌, ◌/◌, ◌≡◌, refl, [], false, ret, ◌>>=◌, arith}
use public_systems_projects.PageAllocator.{pgsize, pgroundup, Kmem, kfree, kalloc, kinit1, kinit2}
use public_systems_projects.PageAllocator.Pages.{AreLinked, AreBelow, AreOther, IsFree, IsPage}
use public_systems_projects.PageAllocator.Boot.{pages_from, kinit_lem}
use public_systems_projects.PageAllocator.Grants.{kfree-kalloc}

abbrev kernel_end : ℕ
kernel_end = 2148532224

abbrev blank : Kmem
blank = record { locked = false; use_lock = 0; freelist = 0; next = λ p. 0; memory = λ a. 0 }

rounds_up : pgroundup 2148532224 ≡ 2148532224
unfolding pgroundup
rounds_up = refl

kinit_lem_example :
    ((m : Kmem) × (kinit1 kernel_end blank 2148532224 2148540416 ≡ ret m)
      × IsFree m 2148540416
          (pages_from (pgroundup 2148532224) ((2148540416 - pgroundup 2148532224) / pgsize) [])
      × (m.use_lock ≡ 0))
    × ((m : Kmem) (pages : List ℕ)
        → IsFree m 2148540416 pages
        → (l : Kmem) × (kinit2 kernel_end m 2148540416 2148544512 ≡ ret l)
          × IsFree l 2148544512 (
              pages_from
                (pgroundup 2148540416)
                ((2148544512 - pgroundup 2148540416) / pgsize)
                pages)
          × (l.use_lock ≡ 1))
unfolding pgroundup
kinit_lem_example =
    kinit_lem kernel_end blank 2148532224 2148540416 2148540416 2148544512 refl (omega arith)
      (omega arith) (omega arith) (omega arith) (omega arith) (omega arith) (omega arith)
      (omega arith) (omega arith)

empty : IsFree blank 2148540416 []
unfolding AreLinked AreBelow
empty = record { unlocked = refl; linked = refl; below = tt }

page : IsPage kernel_end 2148536320
page = record {
  positive = omega arith;
  aligned = refl;
  above = omega arith;
  mapped = omega arith;
  physical = omega arith;
}

none_there : AreOther 2148536320 []
unfolding AreOther
none_there = tt

kfree-kalloc_example :
    (l : Kmem) × ((kfree kernel_end blank 2148536320 >>= kalloc) ≡ ret (2148536320, l))
    × IsFree l 2148540416 []
kfree-kalloc_example =
    kfree-kalloc kernel_end blank 2148536320 2148540416 2148540416 [] empty none_there page
      (omega arith) (omega arith)
