-- ===== src/SleepLocks.antt =====
-- Assignment9_xv6/part1/xv6-public/sleeplock.c: sleep locks. What runs between `acquire` of the inner lock
-- and the next `sleep` or `release` is one step. Processes are known by their pid.
pub mod Holders
mod Tests
use public_systems_projects.Base.{ℕ, ◌≡◌, Bool, true, false, not, ◌&&◌, ◌==◌, if◌then◌else◌}

pub record SleepLock : Type 0 where
  pub locked : ℕ
  pub pid : ℕ

unfoldable pub initsleeplock : SleepLock
initsleeplock = record { locked = 0; pid = 0 }

-- Where a process is: not at the lock, at the test of the loop of `acquiresleep`, asleep in it, or behind
-- it, with the lock.
pub data Phase : Type 0 where
  outside : Phase
  acquiring : Phase
  sleeping : Phase
  inside : Phase

-- `acquiresleep` from the test of its loop on
unfoldable pub acquiresleep : (me : ℕ) → SleepLock → SleepLock × Phase
acquiresleep me lk =
    if not (lk.locked == 0) then (lk, sleeping) else (record { locked = 1; pid = me }, inside)

unfoldable pub releasesleep : SleepLock → SleepLock
releasesleep lk = record { locked = 0; pid = 0 }

unfoldable pub holdingsleep : (me : ℕ) → SleepLock → Bool
holdingsleep me lk = not (lk.locked == 0) && (lk.pid == me)

pub record System : Type 0 where
  pub lock : SleepLock
  pub phase : ℕ → Phase

unfoldable pub place : (ℕ → Phase) → ℕ → Phase → ℕ → Phase
place phase i now j = if j == i then now else phase j

-- `wakeup(lk)`
unfoldable pub wake : Phase → Phase
wake sleeping = acquiring
wake outside = outside
wake acquiring = acquiring
wake inside = inside

unfoldable pub start : System
unfolding initsleeplock
start = record { lock = initsleeplock; phase = λ i. outside }

pub data Step (s : System) : System → Type 0 where
  call : (i : ℕ) → s.phase i ≡ outside → Step s (record s { phase = place s.phase i acquiring })
  test :
      (i : ℕ)
      → s.phase i ≡ acquiring
      → Step s (record {
        lock = (acquiresleep i s.lock).0;
        phase = place s.phase i (acquiresleep i s.lock).1;
      })
  leave :
      (i : ℕ)
      → s.phase i ≡ inside
      → Step s
          (record { lock = releasesleep s.lock; phase = place (λ j. wake (s.phase j)) i outside })

pub data Run (s : System) : System → Type 0 where
  begin : Run s s
  next : (t u : System) → Run s t → Step t u → Run s u
