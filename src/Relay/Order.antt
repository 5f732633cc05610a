-- ===== src/Relay/Order.antt =====
-- The runners go one after the other, and the race ends.
use mathlib.Core.Path.{subst}
use native.Mathlib.Decide.{ℕ_discrete, dec_lt}
use public_systems_projects.Base.{
  ℕ, zero, suc, ◌+◌, ◌-◌, ◌≤◌, ◌<◌, ◌≡◌, sym, ap, ◌∙◌, some, List, [], ◌∷◌, ◌++◌, ltb, ◌==◌,
  if◌then◌else◌, min, arith, ◌⊎◌, inl, inr, some_inj,
}
use public_systems_projects.Relay.{
  Semaphores, AreSemaphores, State, start, Step, print1, run1, post1, wait2, print2, run2, post2,
  wait3, print3, run3, post3, wait4, print4, run4, Run, begin, next,
}

-- the lines that are printed after `n` actions of all runners
abbrev pub lines : ℕ → List ℕ
lines n =
    if ltb n 1
    then []
    else if ltb n 5
    then 1 ∷ []
    else if ltb n 9
    then 1 ∷ 2 ∷ []
    else if ltb n 13
    then 1 ∷ 2 ∷ 3 ∷ []
    else 1 ∷ 2 ∷ 3 ∷ 4 ∷ []

-- what the runners have done, what the semaphores hold, and what is printed
record Row : Type 0 where
  runner1 : ℕ
  runner2 : ℕ
  runner3 : ℕ
  runner4 : ℕ
  value1 : ℕ
  value2 : ℕ
  value3 : ℕ
  log : List ℕ

-- There is one way only: the row after `n` actions.
abbrev row : ℕ → Row
row n = record {
  runner1 = min n 3;
  runner2 = min (n - 3) 4;
  runner3 = min (n - 7) 4;
  runner4 = min (n - 11) 3;
  value1 = if n == 3 then 1 else 0;
  value2 = if n == 7 then 1 else 0;
  value3 = if n == 11 then 1 else 0;
  log = lines n;
}

module _ (k : Semaphores) where
  abbrev row_of : State k → Row
  row_of s = record {
    runner1 = s.runner1;
    runner2 = s.runner2;
    runner3 = s.runner3;
    runner4 = s.runner4;
    value1 = k.value s.sem_global;
    value2 = k.value s.sem_global2;
    value3 = k.value s.sem_global3;
    log = s.log;
  }

  record IsAt (n : ℕ) (s : State k) : Type 0 where
    within : n ≤ 14
    here : row_of s ≡ row n

  -- a step at the `c`th action
  move :
      (n c : ℕ) (s t : State k)
      → n ≡ c
      → c < 14
      → IsAt n s
      → (row_of s ≡ row c → row_of t ≡ row (suc c))
      → IsAt (suc n) t
  move n c s t e less is f =
      subst (λ m. IsAt (suc m) t) (sym e) (record { within = less; here = f (is.here ∙ ap row e) })

  module _ (laws : AreSemaphores k) where
    start-IsAt : IsAt 0 (start k)
    unfolding start
    start-IsAt = record { within = omega arith; here = cc (laws.init_value 0) }

    -- A wait that goes on found a value and takes one.
    wait_value : (s t : k.Sem) → k.wait s ≡ some t → k.value s ≡ k.value t + 1
    wait_value s t w = elim (ℕ_discrete (k.value s) 0) [
      | yes z ↦ absurd (cc (laws.wait_zero s z, w))
      | no z ↦
          let (u, e, v) = laws.wait_suc s (k.value s - 1) (omega arith) in
          let same : t ≡ u = some_inj (sym w ∙ e) in omega (arith, v, ap k.value same)
    ]

    left : (s t : k.Sem) → k.wait s ≡ some t → k.value t ≡ k.value s - 1
    left s t w = omega (arith, wait_value s t w)

    Step-IsAt : (n : ℕ) (s t : State k) → Step k s t → IsAt n s → IsAt (suc n) t
    Step-IsAt n s _ (print1 e) is =
        move n 0 s _ (omega (arith, ap (λ (r : Row). r.runner1) is.here)) (omega arith) is
          (λ h. ap (λ (r : Row). record r { runner1 = 1; log = r.log ++ (1 ∷ []) }) h)
    Step-IsAt n s _ (run1 e) is =
        move n 1 s _ (omega (arith, ap (λ (r : Row). r.runner1) is.here)) (omega arith) is
          (λ h. ap (λ (r : Row). record r { runner1 = 2 }) h)
    Step-IsAt n s _ (post1 e) is =
        move n 2 s _ (omega (arith, ap (λ (r : Row). r.runner1) is.here)) (omega arith) is (λ h.
          ap (λ v. record (row_of s) { runner1 = 3; value1 = v }) (laws.post_value s.sem_global)
          ∙ ap (λ (r : Row). record r { runner1 = 3; value1 = r.value1 + 1 }) h)
    Step-IsAt n s _ (wait2 t e w) is =
        move n 3 s _
          (ground (
            arith,
            e,
            wait_value s.sem_global t w,
            ap (λ (r : Row). r.runner2) is.here,
            ap (λ (r : Row). r.value1) is.here,
          ))
          (omega arith) is
          (λ h.
            ap (λ v. record (row_of s) { runner2 = 1; value1 = v }) (left s.sem_global t w)
            ∙ ap (λ (r : Row). record r { runner2 = 1; value1 = r.value1 - 1 }) h)
    Step-IsAt n s _ (print2 e) is =
        move n 4 s _ (omega (arith, ap (λ (r : Row). r.runner2) is.here)) (omega arith) is
          (λ h. ap (λ (r : Row). record r { runner2 = 2; log = r.log ++ (2 ∷ []) }) h)
    Step-IsAt n s _ (run2 e) is =
        move n 5 s _ (omega (arith, ap (λ (r : Row). r.runner2) is.here)) (omega arith) is
          (λ h. ap (λ (r : Row). record r { runner2 = 3 }) h)
    Step-IsAt n s _ (post2 e) is =
        move n 6 s _ (omega (arith, ap (λ (r : Row). r.runner2) is.here)) (omega arith) is (λ h.
          ap (λ v. record (row_of s) { runner2 = 4; value2 = v }) (laws.post_value s.sem_global2)
          ∙ ap (λ (r : Row). record r { runner2 = 4; value2 = r.value2 + 1 }) h)
    Step-IsAt n s _ (wait3 t e w) is =
        move n 7 s _
          (ground (
            arith,
            e,
            wait_value s.sem_global2 t w,
            ap (λ (r : Row). r.runner3) is.here,
            ap (λ (r : Row). r.value2) is.here,
          ))
          (omega arith) is
          (λ h.
            ap (λ v. record (row_of s) { runner3 = 1; value2 = v }) (left s.sem_global2 t w)
            ∙ ap (λ (r : Row). record r { runner3 = 1; value2 = r.value2 - 1 }) h)
    Step-IsAt n s _ (print3 e) is =
        move n 8 s _ (omega (arith, ap (λ (r : Row). r.runner3) is.here)) (omega arith) is
          (λ h. ap (λ (r : Row). record r { runner3 = 2; log = r.log ++ (3 ∷ []) }) h)
    Step-IsAt n s _ (run3 e) is =
        move n 9 s _ (omega (arith, ap (λ (r : Row). r.runner3) is.here)) (omega arith) is
          (λ h. ap (λ (r : Row). record r { runner3 = 3 }) h)
    Step-IsAt n s _ (post3 e) is =
        move n 10 s _ (omega (arith, ap (λ (r : Row). r.runner3) is.here)) (omega arith) is (λ h.
          ap (λ v. record (row_of s) { runner3 = 4; value3 = v }) (laws.post_value s.sem_global3)
          ∙ ap (λ (r : Row). record r { runner3 = 4; value3 = r.value3 + 1 }) h)
    Step-IsAt n s _ (wait4 t e w) is =
        move n 11 s _
          (ground (
            arith,
            e,
            wait_value s.sem_global3 t w,
            ap (λ (r : Row). r.runner4) is.here,
            ap (λ (r : Row). r.value3) is.here,
          ))
          (omega arith) is
          (λ h.
            ap (λ v. record (row_of s) { runner4 = 1; value3 = v }) (left s.sem_global3 t w)
            ∙ ap (λ (r : Row). record r { runner4 = 1; value3 = r.value3 - 1 }) h)
    Step-IsAt n s _ (print4 e) is =
        move n 12 s _ (omega (arith, ap (λ (r : Row). r.runner4) is.here)) (omega arith) is
          (λ h. ap (λ (r : Row). record r { runner4 = 2; log = r.log ++ (4 ∷ []) }) h)
    Step-IsAt n s _ (run4 e) is =
        move n 13 s _ (omega (arith, ap (λ (r : Row). r.runner4) is.here)) (omega arith) is
          (λ h. ap (λ (r : Row). record r { runner4 = 3 }) h)

    Run-IsAt : (n : ℕ) (s : State k) → Run k n s → IsAt n s
    Run-IsAt _ _ begin = start-IsAt
    Run-IsAt _ _ (next n s t run step) = Step-IsAt n s t step (Run-IsAt n s run)

    -- Before the last action there is a step.
    onward : (n : ℕ) (s : State k) → n < 14 → row_of s ≡ row n → (t : State k) × Step k s t
    onward zero s less h = (_, print1 (ap (λ (r : Row). r.runner1) h))
    onward (suc zero) s less h = (_, run1 (ap (λ (r : Row). r.runner1) h))
    onward (suc (suc zero)) s less h = (_, post1 (ap (λ (r : Row). r.runner1) h))
    onward (suc (suc (suc zero))) s less h =
        let (t, w, _) = laws.wait_suc s.sem_global 0 (ap (λ (r : Row). r.value1) h) in
        (_, wait2 t (ap (λ (r : Row). r.runner2) h) w)
    onward (suc (suc (suc (suc zero)))) s less h = (_, print2 (ap (λ (r : Row). r.runner2) h))
    onward (suc (suc (suc (suc (suc zero))))) s less h = (_, run2 (ap (λ (r : Row). r.runner2) h))
    onward (suc (suc (suc (suc (suc (suc zero)))))) s less h =
        (_, post2 (ap (λ (r : Row). r.runner2) h))
    onward (suc (suc (suc (suc (suc (suc (suc zero))))))) s less h =
        let (t, w, _) = laws.wait_suc s.sem_global2 0 (ap (λ (r : Row). r.value2) h) in
        (_, wait3 t (ap (λ (r : Row). r.runner3) h) w)
    onward (suc (suc (suc (suc (suc (suc (suc (suc zero)))))))) s less h =
        (_, print3 (ap (λ (r : Row). r.runner3) h))
    onward (suc (suc (suc (suc (suc (suc (suc (suc (suc zero))))))))) s less h =
        (_, run3 (ap (λ (r : Row). r.runner3) h))
    onward (suc (suc (suc (suc (suc (suc (suc (suc (suc (suc zero)))))))))) s less h =
        (_, post3 (ap (λ (r : Row). r.runner3) h))
    onward (suc (suc (suc (suc (suc (suc (suc (suc (suc (suc (suc zero))))))))))) s less h =
        let (t, w, _) = laws.wait_suc s.sem_global3 0 (ap (λ (r : Row). r.value3) h) in
        (_, wait4 t (ap (λ (r : Row). r.runner4) h) w)
    onward (suc (suc (suc (suc (suc (suc (suc (suc (suc (suc (suc (suc zero)))))))))))) s less h =
        (_, print4 (ap (λ (r : Row). r.runner4) h))
    onward (suc (suc (suc (suc (suc (suc (suc (suc (suc (suc (suc (suc (suc zero))))))))))))) s less
          h =
        (_, run4 (ap (λ (r : Row). r.runner4) h))
    onward (suc (suc (suc (suc (suc (suc (suc (suc (suc (suc (suc (suc (suc (suc n)))))))))))))) s
          less h =
        absurd (omega arith)

    -- In every run, after `n` actions of the runners, the lines that are printed are those of the runners
    -- in their order, as far as they have come, and there are at most 14 actions.
    pub Run-lines : (n : ℕ) (s : State k) → Run k n s → (n ≤ 14) × (s.log ≡ lines n)
    Run-lines n s run = ((Run-IsAt n s run).within, ap (λ (r : Row). r.log) (Run-IsAt n s run).here)

    -- The race ends, and never early: every run of fewer than 14 actions has a next step, one of 14 has none
    -- and has printed the four lines in the order 1, 2, 3, 4, and no run is longer.
    pub race_ends :
        (n : ℕ) (s : State k)
        → Run k n s
        → ((n < 14) × ((t : State k) × Step k s t))
          ⊎ ((n ≡ 14) × (s.log ≡ 1 ∷ 2 ∷ 3 ∷ 4 ∷ []) × ((t : State k) → ¬ (Step k s t)))
    race_ends n s run = elim (dec_lt n 14) [
      | yes less ↦ inl (less, onward n s less (Run-IsAt n s run).here)
      | no more ↦
          let (within, printed) = Run-lines n s run in
          let last : n ≡ 14 = omega arith in
          inr (
            last,
            printed ∙ ap lines last,
            λ t step. absurd (omega (arith, (Run-lines (suc n) t (next n s t run step)).0, last)),
          )
    ]
