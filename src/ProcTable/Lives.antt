-- ===== src/ProcTable/Lives.antt =====
-- Every process that is reached has its family: fork, wait and exit keep it.

use public_systems_projects.Base.{
  ℕ, ◌≡◌, ◌≢◌, inl, inr, sym, ◌==◌, Bool-cases, put, arith, ret, ret-injective,
}
use public_systems_projects.ProcTable.{
  nproc, running, zombie, other, Proc, Table, wakeup_parent, pass_children, exit, dispatch, yield,
  sleep, tidy_up, wakeup,
}
use public_systems_projects.ProcTable.Steps.{
  Step, forks, exits, waits, dispatches, yields, sleeps, tidies, wakes, kills, Reach, begin, next,
}
use public_systems_projects.ProcTable.Families.{
  IsFamily, dispatch-IsFamily, yield-IsFamily, sleep-IsFamily, tidy_up-IsFamily, kill-IsFamily,
  wakeup-IsFamily,
}
use public_systems_projects.ProcTable.Zombies.{ended-IsFamily}
use public_systems_projects.ProcTable.Waits.{wait-IsFamily}
use public_systems_projects.ProcTable.Births.{fork-IsFamily, start-IsFamily}

abbrev exited : Table → ℕ → ℕ → Proc
exited t cur =
    let handed =
      pass_children cur t.initproc nproc 0 (wakeup_parent (t.procs cur).parent t.procs) in
    put handed cur (record (handed cur) { state = zombie })

exit_inv :
    (t u : Table) (cur : ℕ)
    → exit t cur ≡ ret u
    → (t.initproc ≢ cur) × (u ≡ record t { procs = exited t cur })
unfolding exit
exit_inv t u cur e = elim (Bool-cases (cur == t.initproc)) [
  | inl same ↦ absurd (ground (arith, e, same))
  | inr differs ↦
      ((λ e'. absurd (ground (arith, differs, e'))), sym (ret-injective (rw differs at (e))))
]

exit-IsFamily :
    (t u : Table) (cur : ℕ)
    → (t.procs cur).state ≡ running
    → IsFamily t.procs t.initproc
    → exit t cur ≡ ret u
    → IsFamily u.procs u.initproc
exit-IsFamily t u cur at is e =
    let (ne, same) = exit_inv t u cur e in rw same (ended-IsFamily t cur at ne is)

-- Each step of a process, of the scheduler or of a driver keeps families.
pub Step-IsFamily :
    (t u : Table) → Step t u → IsFamily t.procs t.initproc → IsFamily u.procs u.initproc
unfolding dispatch yield sleep tidy_up wakeup
Step-IsFamily t _ (forks cur kstack copied at) is = fork-IsFamily t cur kstack copied at is
Step-IsFamily t _ (exits cur u at e) is = exit-IsFamily t u cur at is e
Step-IsFamily t _ (waits cur at) is = wait-IsFamily t cur at is
Step-IsFamily t _ (dispatches i at) is = dispatch-IsFamily t i at is
Step-IsFamily t _ (yields cur at) is = yield-IsFamily t cur at is
Step-IsFamily t _ (sleeps cur c at) is = sleep-IsFamily t cur c at is
Step-IsFamily t _ (tidies cur at) is = tidy_up-IsFamily t cur at is
Step-IsFamily t _ (wakes c) is = wakeup-IsFamily t (other c) is
Step-IsFamily t _ (kills pid) is = kill-IsFamily t pid is

-- In every table that is reached from the one that userinit makes, by any calls in any order, a process that
-- is live or a zombie has a live parent, unless it is the first process, which is live and has none; no entry
-- is its own parent, one that is not in use has none; and a process that sleeps in wait on its own address has
-- no zombie for a child.
pub Reach-IsFamily : (t : Table) → Reach t → IsFamily t.procs t.initproc
Reach-IsFamily t (begin name _ e) = start-IsFamily name t e
Reach-IsFamily _ (next t u before step) = Step-IsFamily t u step (Reach-IsFamily t before)
