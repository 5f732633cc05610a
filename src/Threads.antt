-- ===== src/Threads.antt =====
-- What the programs with threads use of pthread, as an interface and its laws.
pub mod Simple
use public_systems_projects.Base.{
  ℕ, ◌≡◌, ◌≢◌, Bool, true, false, Option, none, some, Outcome, ret, fault, blocked,
}

-- The mutexes of pthread for threads that are numbered. `trylock` gives true for its result 0.
pub record Pthread : Type 1 where
  pub Mutex : Type 0
  pub holder : Mutex → Option ℕ
  pub fresh : Mutex
  pub trylock : ℕ → Mutex → Bool × Mutex
  pub lock : ℕ → Mutex → Outcome Mutex
  pub unlock : ℕ → Mutex → Outcome Mutex

-- A fresh mutex is free; lock and trylock take a free mutex; on any other trylock fails and lock waits,
-- for ever in a run of one thread; only the holder may unlock.
pub record IsPthread (l : Pthread) : Type 0 where
  pub fresh_free : l.holder l.fresh ≡ none
  pub trylock_free :
      (i : ℕ) (m : l.Mutex)
      → l.holder m ≡ none
      → ((l.trylock i m).0 ≡ true) × (l.holder ((l.trylock i m).1) ≡ some i)
  pub trylock_held : (i j : ℕ) (m : l.Mutex) → l.holder m ≡ some j → l.trylock i m ≡ (false, m)
  pub lock_free :
      (i : ℕ) (m : l.Mutex)
      → l.holder m ≡ none
      → (n : l.Mutex) × (l.lock i m ≡ ret n) × (l.holder n ≡ some i)
  pub lock_held : (i j : ℕ) (m : l.Mutex) → l.holder m ≡ some j → l.lock i m ≡ blocked
  pub unlock_held :
      (i : ℕ) (m : l.Mutex)
      → l.holder m ≡ some i
      → (n : l.Mutex) × (l.unlock i m ≡ ret n) × (l.holder n ≡ none)
  pub unlock_other : (i : ℕ) (m : l.Mutex) → l.holder m ≢ some i → l.unlock i m ≡ fault
