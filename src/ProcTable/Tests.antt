-- ===== src/ProcTable/Tests.antt =====
-- Runs of the table of processes.
use public_systems_projects.Base.{
  map, ℕ, ◌+◌, ◌≡◌, ◌≢◌, refl, true, false, some, [], ◌∷◌, put, pos, negsuc, Outcome, ret, blocked,
  exit, fault, out_of_fuel, arith,
}
use public_systems_projects.ProcTable.{
  nproc, runnable, sleeping, Table, find_proc, find_unused, is_unused, is_zombie, same_proc,
  allocproc, userinit, fork, kill, wait, wait_scan, dispatch, cps, cps_loop, cps_row,
}
use public_systems_projects.ProcTable.Steps.{zeros, Reach, begin, next, forks, dispatches, waits}
use public_systems_projects.ProcTable.Families.{IsFamily}
use public_systems_projects.ProcTable.Lives.{Reach-IsFamily}
use public_systems_projects.ProcTable.Kill.{born_killed}
use public_systems_projects.ProcTable.Listing.{entries, live_only, row_of, cps_lem}

-- the table after userinit, for a program of the name "i"
unfoldable table_of : Outcome Table → Table
table_of (ret t) = t
table_of blocked = zeros
table_of (exit n) = zeros
table_of fault = zeros
table_of out_of_fuel = zeros

abbrev first : Table
first = table_of (userinit zeros true true (105 ∷ []))

first-ret : userinit zeros true true (105 ∷ []) ≡ ret first
unfolding userinit allocproc find_unused find_proc is_unused zeros table_of
first-ret = refl

-- The first process runs, forks and waits for its child.
abbrev after_fork : Table
after_fork = (fork (dispatch first 0) 0 true true).0

abbrev after_wait : Table
after_wait = (wait after_fork 0).0

after_fork_reached : Reach after_fork
unfolding userinit allocproc find_unused find_proc is_unused zeros table_of dispatch put
after_fork_reached =
    next (dispatch first 0) after_fork
      (next first (dispatch first 0) (begin (105 ∷ []) first first-ret) (dispatches 0 refl))
      (forks 0 true true refl)

after_wait_reached : Reach after_wait
unfolding userinit allocproc find_unused find_proc is_unused zeros table_of dispatch put fork
after_wait_reached = next after_fork after_wait after_fork_reached (waits 0 refl)

Reach-IsFamily_example : IsFamily after_wait.procs after_wait.initproc
Reach-IsFamily_example = Reach-IsFamily after_wait after_wait_reached

waits_asleep : ((after_wait.procs 0).state ≡ sleeping) × ((after_wait.procs 1).parent ≡ some 0)
unfolding userinit allocproc find_unused find_proc is_unused zeros table_of dispatch put fork wait
    wait_scan same_proc is_zombie
waits_asleep = (refl, refl)

-- The first process runs alone.
abbrev alone : Table
alone = dispatch first 0

alone_fresh : (j : ℕ) → j ≢ 1 → (alone.procs j).pid ≢ alone.nextpid
unfolding userinit allocproc find_unused find_proc is_unused zeros table_of dispatch put
alone_fresh j ne e = absurd (ground (arith, e))

alone_slot : find_unused alone.procs ≡ some 1
unfolding userinit allocproc find_unused find_proc is_unused zeros table_of dispatch put
alone_slot = refl

born_killed_example :
    ((fork alone 0 true false).1 ≡ negsuc 0)
    × ((kill (fork alone 0 true false).0 alone.nextpid).1 ≡ pos 0)
    × ((fork (kill (fork alone 0 true false).0 alone.nextpid).0 0 true true).1
        ≡ pos (alone.nextpid + 1))
    × (((fork (kill (fork alone 0 true false).0 alone.nextpid).0 0 true true).0.procs 1).state
        ≡ runnable)
    × (((fork (kill (fork alone 0 true false).0 alone.nextpid).0 0 true true).0.procs 1).killed ≡ 1)
born_killed_example = born_killed alone 0 1 alone_slot alone_fresh

cps_lem_example :
    cps after_wait ≡ (map row_of (live_only (entries after_wait.procs nproc 0)), pos 22)
cps_lem_example = cps_lem after_wait

-- What cps prints, and what it returns, once the first process waits for its child.
cps_rows :
    cps first ≡ (record { name = 105 ∷ []; pid = 1; state = runnable; priority = 10 } ∷ [], pos 22)
unfolding userinit allocproc find_unused find_proc is_unused zeros table_of put cps cps_loop cps_row
cps_rows = refl
