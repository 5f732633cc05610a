-- ===== src/SleepLocks/Tests.antt =====
-- One process takes the lock, and another comes to sleep.
use public_systems_projects.Base.{ℕ, ◌≡◌, ◌≢◌, ◌⊎◌, ◌↔◌, refl, true}
use public_systems_projects.SleepLocks.{
  acquiring, sleeping, inside, initsleeplock, acquiresleep, holdingsleep, System, place, start,
  call, test, Run, begin, next,
}
use public_systems_projects.SleepLocks.Holders.{Run-holdingsleep}

abbrev one_sleeps : System
one_sleeps = record {
  lock = record { locked = 1; pid = 3 };
  phase = place (place (place (place start.phase 3 acquiring) 3 inside) 4 acquiring) 4 sleeping;
}

two_calls : Run start one_sleeps
unfolding start initsleeplock acquiresleep place
two_calls =
    next _ _ (next _ _ (next _ _ (next _ _ begin (call 3 refl)) (test 3 refl)) (call 4 refl))
      (test 4 refl)

Run-holdingsleep_example :
    ((holdingsleep 3 one_sleeps.lock ≡ true) ↔ (one_sleeps.phase 3 ≡ inside))
    × ((◌≡◌ {A = ℕ} 3 4) ⊎ (one_sleeps.phase 3 ≢ inside) ⊎ (one_sleeps.phase 4 ≢ inside))
Run-holdingsleep_example = Run-holdingsleep one_sleeps 3 4 two_calls
