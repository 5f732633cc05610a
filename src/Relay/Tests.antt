-- ===== src/Relay/Tests.antt =====
-- Semaphores that are their value, and a run of two actions.
use public_systems_projects.Base.{
  ℕ, zero, suc, ◌+◌, ◌≡◌, ◌<◌, refl, Option, none, some, List, [], ◌∷◌, arith, ◌⊎◌,
}
use public_systems_projects.Relay.{
  Semaphores, AreSemaphores, State, start, Step, print1, run1, Run, begin, next,
}
use public_systems_projects.Relay.Order.{race_ends}

lower : ℕ → Option ℕ
lower zero = none
lower (suc n) = some n

abbrev counters : Semaphores
counters = record { Sem = ℕ; value = λ n. n; init = λ n. n; post = λ n. n + 1; wait = lower }

lower_suc : (s n : ℕ) → s ≡ n + 1 → (t : ℕ) × (lower s ≡ some t) × (t ≡ n)
unfolding lower
lower_suc zero n e = absurd (omega arith)
lower_suc (suc s) n e = (s, refl, omega arith)

counters-AreSemaphores : AreSemaphores counters
unfolding lower
counters-AreSemaphores = record {
  init_value = λ n. refl;
  post_value = λ s. refl;
  wait_zero = λ s e. rw e refl;
  wait_suc = lower_suc;
}

abbrev running : State counters
running = record {
  runner1 = 2;
  runner2 = 0;
  runner3 = 0;
  runner4 = 0;
  sem_global = 0;
  sem_global2 = 0;
  sem_global3 = 0;
  log = 1 ∷ [];
}

two_actions : Run counters 2 running
unfolding start
two_actions = next 1 _ _ (next 0 _ _ begin (print1 refl)) (run1 refl)

race_ends_example :
    ((2 < 14) × ((t : State counters) × Step counters running t))
    ⊎ ((◌≡◌ {A = ℕ} 2 14)
        × (◌≡◌ {A = List ℕ} (1 ∷ []) (1 ∷ 2 ∷ 3 ∷ 4 ∷ []))
        × ((t : State counters) → ¬ (Step counters running t)))
race_ends_example = race_ends counters counters-AreSemaphores 2 running two_actions
