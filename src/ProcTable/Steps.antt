-- ===== src/ProcTable/Steps.antt =====
-- The calls of the processes, of the scheduler and of the drivers as steps on the table.
use public_systems_projects.Base.{ℕ, ◌≡◌, Bool, false, none, List, [], ret}
use public_systems_projects.ProcTable.{
  ProcState, unused, runnable, running, other, Table, userinit, fork, exit, wait, dispatch, yield,
  sleep, tidy_up, wakeup, kill,
}

unfoldable pub is_live : ProcState → Bool
is_live ProcState.unused = Bool.false
is_live ProcState.embryo = Bool.false
is_live ProcState.zombie = Bool.false
is_live ProcState.sleeping = Bool.true
is_live ProcState.runnable = Bool.true
is_live ProcState.running = Bool.true

-- A running process may make any call, and the scheduler may run any process that is runnable. What does not
-- wait for a child sleeps on another channel; interrupts wake such sleepers too. A call of `kill` may come
-- from a process or from the console.
pub data Step (t : Table) : Table → Type 0 where
  forks :
      (cur : ℕ) (kstack copied : Bool)
      → (t.procs cur).state ≡ running
      → Step t (fork t cur kstack copied).0
  exits : (cur : ℕ) (u : Table) → (t.procs cur).state ≡ running → exit t cur ≡ ret u → Step t u
  waits : (cur : ℕ) → (t.procs cur).state ≡ running → Step t (wait t cur).0
  dispatches : (i : ℕ) → (t.procs i).state ≡ runnable → Step t (dispatch t i)
  yields : (cur : ℕ) → (t.procs cur).state ≡ running → Step t (yield t cur)
  sleeps : (cur c : ℕ) → (t.procs cur).state ≡ running → Step t (sleep t cur (other c))
  tidies : (cur : ℕ) → (t.procs cur).state ≡ running → Step t (tidy_up t cur)
  wakes : (c : ℕ) → Step t (wakeup t (other c))
  kills : (pid : ℕ) → Step t (kill t pid).0

-- the table before userinit, all zero
unfoldable pub zeros : Table
zeros = record {
  procs = λ i. record {
    state = unused;
    pid = 0;
    parent = none;
    chan = none;
    killed = 0;
    kstack = false;
    name = [];
    priority = 0;
  };
  nextpid = 1;
  initproc = 0;
}

-- What is reached from the table that userinit makes for a first program of any name.
pub data Reach : Table → Type 0 where
  begin : (name : List ℕ) (t : Table) → userinit zeros Bool.true Bool.true name ≡ ret t → Reach t
  next : (t u : Table) → Reach t → Step t u → Reach u
