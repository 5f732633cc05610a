-- ===== src/Threads/Simple.antt =====
-- Mutexes that store the thread which holds them, for tests.
use native.Mathlib.Decide.{ℕ_discrete}
use public_systems_projects.Base.{
  ℕ, ◌≡◌, ◌≢◌, refl, ap, Bool, true, false, Option, none, some, ◌==◌, if◌then◌else◌, Outcome, ret,
  fault, blocked, arith,
}
use public_systems_projects.Threads.{Pthread, IsPthread}

unfoldable pub take : ℕ → Option ℕ → Bool × Option ℕ
take i none = (true, some i)
take i (some j) = (false, some j)

unfoldable pub take_or_wait : ℕ → Option ℕ → Outcome (Option ℕ)
take_or_wait i none = ret (some i)
take_or_wait i (some j) = blocked

unfoldable pub give_back : ℕ → Option ℕ → Outcome (Option ℕ)
give_back i none = fault
give_back i (some j) = if j == i then ret none else fault

abbrev pub threads : Pthread
threads = record {
  Mutex = Option ℕ;
  holder = λ m. m;
  fresh = none;
  trylock = take;
  lock = take_or_wait;
  unlock = give_back;
}

give_back_other : (i : ℕ) (m : Option ℕ) → m ≢ some i → give_back i m ≡ fault
unfolding give_back
give_back_other i none ne = refl
give_back_other i (some j) ne = elim (ℕ_discrete j i) [
  | yes e ↦ absurd (ne (ap some e))
  | no e ↦ ground arith
]

pub threads-IsPthread : IsPthread threads
unfolding take take_or_wait give_back
threads-IsPthread = record {
  fresh_free = refl;
  trylock_free = λ i m e. rw e (refl, refl);
  trylock_held = λ i j m e. rw e refl;
  lock_free = λ i m e. (some i, rw e refl, refl);
  lock_held = λ i j m e. rw e refl;
  unlock_held = λ i m e. (none, rw e (ground arith), refl);
  unlock_other = give_back_other;
}
