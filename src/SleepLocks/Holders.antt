-- ===== src/SleepLocks/Holders.antt =====
-- At most one process holds a sleep lock, and nobody sleeps at a free one.
use mathlib.Core.Path.{subst}
use native.Mathlib.Decide.{ℕ_discrete}
use public_systems_projects.Base.{
  ℕ, ◌≡◌, ◌≢◌, ◌⊎◌, ◌↔◌, inl, inr, refl, sym, ap, ◌∙◌, true, false, ◌==◌, Bool-cases, arith,
}
use public_systems_projects.SleepLocks.{
  SleepLock, initsleeplock, Phase, outside, acquiring, sleeping, inside, acquiresleep, releasesleep,
  holdingsleep, System, place, wake, start, Step, call, test, leave, Run, begin, next,
}

-- What the lock says of a process in a phase.
unfoldable pub Fits : SleepLock → ℕ → Phase → Type 0
Fits lk i outside = (lk.locked ≡ 0) ⊎ (lk.pid ≢ i)
Fits lk i acquiring = (lk.locked ≡ 0) ⊎ (lk.pid ≢ i)
Fits lk i sleeping = (lk.locked ≢ 0) × (lk.pid ≢ i)
Fits lk i inside = (lk.locked ≢ 0) × (lk.pid ≡ i)

AllFit : System → Type 0
AllFit s = (i : ℕ) → Fits s.lock i (s.phase i)

place-Fits :
    (lk : SleepLock) (phase : ℕ → Phase) (i j : ℕ) (now : Phase)
    → Fits lk i now
    → (j ≢ i → Fits lk j (phase j))
    → Fits lk j (place phase i now j)
unfolding place
place-Fits lk phase i j now own rest = elim (ℕ_discrete j i) [
  | yes e ↦
      let hit : (j == i) ≡ true = ground arith in rw hit (subst (λ x. Fits lk x now) (sym e) own)
  | no ne ↦ let other : (j == i) ≡ false = ground arith in rw other (rest ne)
]

-- A process that is not the holder, when the holder leaves.
wake-Fits : (lk : SleepLock) (i : ℕ) (p : Phase) → p ≢ inside → Fits (releasesleep lk) i (wake p)
unfolding Fits wake releasesleep
wake-Fits lk i outside ne = inl refl
wake-Fits lk i acquiring ne = inl refl
wake-Fits lk i sleeping ne = inl refl
wake-Fits lk i inside ne = absurd (ne refl)

-- A process other than the one that takes a free lock.
taken-Fits :
    (lk : SleepLock) (i j : ℕ) (p : Phase)
    → lk.locked ≡ 0
    → j ≢ i
    → Fits lk j p
    → Fits (record { locked = 1; pid = i }) j p
unfolding Fits
taken-Fits lk i j outside free ne f = inr (λ e. ne (sym e))
taken-Fits lk i j acquiring free ne f = inr (λ e. ne (sym e))
taken-Fits lk i j sleeping free ne f = absurd (f.0 free)
taken-Fits lk i j inside free ne f = absurd (f.0 free)

not_holder : (lk : SleepLock) (i : ℕ) → lk.locked ≢ 0 → (lk.locked ≡ 0) ⊎ (lk.pid ≢ i) → lk.pid ≢ i
not_holder lk i held (inl free) = absurd (held free)
not_holder lk i held (inr ne) = ne

one_inside :
    (lk : SleepLock) (i j : ℕ) (p q : Phase)
    → p ≡ inside
    → q ≡ inside
    → Fits lk i p
    → Fits lk j q
    → i ≡ j
unfolding Fits
one_inside lk i j p q here there fi fj =
    let f : Fits lk i inside = subst (Fits lk i) here fi in
    let g : Fits lk j inside = subst (Fits lk j) there fj in sym (f.1) ∙ g.1

Step-AllFit : (s t : System) → AllFit s → Step s t → AllFit t
unfolding AllFit Fits acquiresleep releasesleep
Step-AllFit s _ fit (call i at) j =
    place-Fits s.lock s.phase i j acquiring (subst (Fits s.lock i) at (fit i)) (λ ne. fit j)
Step-AllFit s _ fit (test i at) j =
    let here : Fits s.lock i acquiring = subst (Fits s.lock i) at (fit i) in
    elim (Bool-cases (s.lock.locked == 0)) [
      | inl free ↦
          let none : s.lock.locked ≡ 0 = ground arith in
          let mine : SleepLock = record { locked = 1; pid = i } in
          rw free (
            place-Fits mine s.phase i j inside ((λ e. absurd (omega (arith, e))), refl)
              (λ ne. taken-Fits s.lock i j (s.phase j) none ne (fit j)))
      | inr held ↦
          let taken : s.lock.locked ≢ 0 = ground arith in
          rw held (
            place-Fits s.lock s.phase i j sleeping (taken, not_holder s.lock i taken here)
              (λ ne. fit j))
    ]
Step-AllFit s _ fit (leave i at) j =
    place-Fits (releasesleep s.lock) (λ k. wake (s.phase k)) i j outside (inl refl)
      (λ ne.
        wake-Fits s.lock j (s.phase j)
          (λ in_j. ne (one_inside s.lock j i _ _ in_j at (fit j) (fit i))))

start-AllFit : AllFit start
unfolding AllFit Fits start initsleeplock
start-AllFit i = inl refl

Run-AllFit : (t : System) → Run start t → AllFit t
Run-AllFit _ begin = start-AllFit
Run-AllFit _ (next t u run step) = Step-AllFit t u (Run-AllFit t run) step

holding_iff :
    (lk : SleepLock) (i : ℕ) (p : Phase) → Fits lk i p → (holdingsleep i lk ≡ true) ↔ (p ≡ inside)
unfolding Fits holdingsleep
holding_iff lk i outside f = ((λ e. absurd (ground (arith, f, e))), (λ e. cc))
holding_iff lk i acquiring f = ((λ e. absurd (ground (arith, f, e))), (λ e. cc))
holding_iff lk i sleeping f = ((λ e. absurd (ground (arith, f, e))), (λ e. cc))
holding_iff lk i inside f = ((λ e. refl), (λ e. ground (arith, f)))

depth : Phase → ℕ
depth inside = 1
depth outside = 0
depth acquiring = 0
depth sleeping = 0

is_inside : (p : Phase) → (p ≡ inside) ⊎ (p ≢ inside)
unfolding depth
is_inside inside = inl refl
is_inside outside = inr (λ e. absurd (omega (arith, ap depth e)))
is_inside acquiring = inr (λ e. absurd (omega (arith, ap depth e)))
is_inside sleeping = inr (λ e. absurd (omega (arith, ap depth e)))

two : (t : System) (i j : ℕ) → AllFit t → (i ≡ j) ⊎ (t.phase i ≢ inside) ⊎ (t.phase j ≢ inside)
unfolding AllFit
two t i j fit = elim (is_inside (t.phase i)) [
  | inr ne ↦ inr (inl ne)
  | inl a ↦ elim (is_inside (t.phase j)) [
    | inr ne ↦ inr (inr ne)
    | inl b ↦ inl (one_inside t.lock i j _ _ a b (fit i) (fit j))
  ]
]

-- In every run of processes at a new sleep lock, holdingsleep answers true to exactly the process that is
-- between acquiresleep and releasesleep, and no two processes are.
pub Run-holdingsleep :
    (t : System) (i j : ℕ)
    → Run start t
    → ((holdingsleep i t.lock ≡ true) ↔ (t.phase i ≡ inside))
      × ((i ≡ j) ⊎ (t.phase i ≢ inside) ⊎ (t.phase j ≢ inside))
unfolding AllFit
Run-holdingsleep t i j run =
    let fit = Run-AllFit t run in (holding_iff t.lock i (t.phase i) (fit i), two t i j fit)
