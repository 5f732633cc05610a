-- ===== src/Relay.antt =====
-- Assignment7_ConcurrentArtists/part1/relay.c: four runners, each a thread, and three semaphores that
-- pass the baton. A step is one action of one runner: a call of sem_wait or sem_post, a line that is
-- printed, or the run itself.
pub mod Order
mod Tests
use public_systems_projects.Base.{ℕ, zero, suc, ◌+◌, ◌≡◌, Option, none, some, List, [], ◌∷◌, ◌++◌}

-- What the program uses of semaphores. `wait` gives `none` where the caller has to wait.
pub record Semaphores : Type 1 where
  pub Sem : Type 0
  pub value : Sem → ℕ
  pub init : ℕ → Sem
  pub post : Sem → Sem
  pub wait : Sem → Option Sem

pub record AreSemaphores (k : Semaphores) : Type 0 where
  pub init_value : (n : ℕ) → k.value (k.init n) ≡ n
  pub post_value : (s : k.Sem) → k.value (k.post s) ≡ k.value s + 1
  pub wait_zero : (s : k.Sem) → k.value s ≡ 0 → k.wait s ≡ none
  pub wait_suc :
      (s : k.Sem) (n : ℕ) → k.value s ≡ n + 1 → (t : k.Sem) × (k.wait s ≡ some t) × (k.value t ≡ n)

module _ (k : Semaphores) where
  -- `runner1` to `runner4` count the actions that each runner has done; `log` are the lines, by the number
  -- of the runner, in the order in which they are printed.
  pub record State : Type 0 where
    pub runner1 : ℕ
    pub runner2 : ℕ
    pub runner3 : ℕ
    pub runner4 : ℕ
    pub sem_global : k.Sem
    pub sem_global2 : k.Sem
    pub sem_global3 : k.Sem
    pub log : List ℕ

  -- `main` up to the creation of the threads
  pub start : State
  start = record {
    runner1 = 0;
    runner2 = 0;
    runner3 = 0;
    runner4 = 0;
    sem_global = k.init 0;
    sem_global2 = k.init 0;
    sem_global3 = k.init 0;
    log = [];
  }

  -- `Runner1` prints, runs and posts; the others wait first, and the last one does not post.
  pub data Step (s : State) : State → Type 0 where
    print1 : s.runner1 ≡ 0 → Step s (record s { runner1 = 1; log = s.log ++ (1 ∷ []) })
    run1 : s.runner1 ≡ 1 → Step s (record s { runner1 = 2 })
    post1 : s.runner1 ≡ 2 → Step s (record s { runner1 = 3; sem_global = k.post s.sem_global })
    wait2 :
        (t : k.Sem)
        → s.runner2 ≡ 0
        → k.wait s.sem_global ≡ some t
        → Step s (record s { runner2 = 1; sem_global = t })
    print2 : s.runner2 ≡ 1 → Step s (record s { runner2 = 2; log = s.log ++ (2 ∷ []) })
    run2 : s.runner2 ≡ 2 → Step s (record s { runner2 = 3 })
    post2 : s.runner2 ≡ 3 → Step s (record s { runner2 = 4; sem_global2 = k.post s.sem_global2 })
    wait3 :
        (t : k.Sem)
        → s.runner3 ≡ 0
        → k.wait s.sem_global2 ≡ some t
        → Step s (record s { runner3 = 1; sem_global2 = t })
    print3 : s.runner3 ≡ 1 → Step s (record s { runner3 = 2; log = s.log ++ (3 ∷ []) })
    run3 : s.runner3 ≡ 2 → Step s (record s { runner3 = 3 })
    post3 : s.runner3 ≡ 3 → Step s (record s { runner3 = 4; sem_global3 = k.post s.sem_global3 })
    wait4 :
        (t : k.Sem)
        → s.runner4 ≡ 0
        → k.wait s.sem_global3 ≡ some t
        → Step s (record s { runner4 = 1; sem_global3 = t })
    print4 : s.runner4 ≡ 1 → Step s (record s { runner4 = 2; log = s.log ++ (4 ∷ []) })
    run4 : s.runner4 ≡ 2 → Step s (record s { runner4 = 3 })

  -- a run of `n` steps
  pub data Run : ℕ → State → Type 0 where
    begin : Run zero start
    next : (n : ℕ) (s t : State) → Run n s → Step s t → Run (suc n) t
