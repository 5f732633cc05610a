-- ===== src/ProcTable/Kill.antt =====
-- A call of kill on a process identifier that is left in an unused entry.
use native.Mathlib.Decide.{ℕ_discrete}
use public_systems_projects.Base.{
  ℕ, zero, suc, ◌+◌, ◌≤◌, ◌<◌, ◌≡◌, ◌≢◌, refl, sym, ap, ◌∙◌, Bool, true, false, ◌==◌, some, put,
  put-same, put_ne, arith, pos, negsuc,
}
use public_systems_projects.ProcTable.{
  nproc, unused, embryo, runnable, Proc, Table, is_unused, is_sleeping, find_proc, find_unused,
  allocproc, fork, kill, kill_proc,
}
use public_systems_projects.ProcTable.Find.{find_unused_lem}

find_proc_same :
    (test look : Proc → Bool) (procs rs : ℕ → Proc) (n i : ℕ)
    → ((j : ℕ) → test (procs j) ≡ look (rs j))
    → find_proc test procs n i ≡ find_proc look rs n i
unfolding find_proc
find_proc_same test look procs rs zero i same = refl
find_proc_same test look procs rs (suc n) i same =
    rw (same i) (rw (find_proc_same test look procs rs n (i + 1) same) refl)

find_proc_only :
    (test : Proc → Bool) (procs : ℕ → Proc) (n i k : ℕ)
    → i ≤ k
    → k < i + n
    → test (procs k) ≡ true
    → ((j : ℕ) → j ≢ k → test (procs j) ≡ false)
    → find_proc test procs n i ≡ some k
unfolding find_proc
find_proc_only test procs zero i k low high hit only = absurd (omega arith)
find_proc_only test procs (suc n) i k low high hit only = elim (ℕ_discrete i k) [
  | yes e ↦ rw e (rw hit refl)
  | no ne ↦
      rw (only i ne) (find_proc_only test procs n (i + 1) k (omega arith) (omega arith) hit only)
]

-- Two tables that differ in what one unused entry holds give allocproc the same entry.
same_find_unused :
    (procs rs : ℕ → Proc) (i : ℕ)
    → (procs i).state ≡ unused
    → (rs i).state ≡ unused
    → ((j : ℕ) → j ≢ i → rs j ≡ procs j)
    → find_unused rs ≡ find_unused procs
unfolding find_unused
same_find_unused procs rs i free free' same =
    find_proc_same (λ p. is_unused p.state) (λ p. is_unused p.state) rs procs nproc 0
      (λ j. elim (ℕ_discrete j i) [
        | yes e ↦ rw e (ap is_unused (free' ∙ sym free))
        | no ne ↦ ap (λ (p : Proc). is_unused p.state) (same j ne)
      ])

module _ (t : Table) (i : ℕ) (e : find_unused t.procs ≡ some i) where
  abbrev allotted : Proc
  allotted = record (t.procs i) { state = embryo; pid = t.nextpid; priority = 10; kstack = true }

  allots :
      allocproc t true
      ≡ (record t { procs = put t.procs i allotted; nextpid = t.nextpid + 1 }, some i)
  unfolding allocproc
  allots = rw (e, allocproc) refl

  as_allotted : put t.procs i allotted i ≡ allotted
  as_allotted = put-same t.procs i allotted

  -- A fork that finds an unused entry but no memory for the copy leaves the entry unused, with the next
  -- process identifier.
  fork_failed :
      (cur : ℕ)
      → ((fork t cur true false).1 ≡ negsuc 0)
        × (((fork t cur true false).0.procs i).state ≡ unused)
        × (((fork t cur true false).0.procs i).pid ≡ t.nextpid)
        × ((fork t cur true false).0.nextpid ≡ t.nextpid + 1)
        × ((j : ℕ) → j ≢ i → (fork t cur true false).0.procs j ≡ t.procs j)
  unfolding fork
  fork_failed cur =
      rw (allots, fork, allots)
        (
          refl,
          ap (λ (p : Proc). p.state) (put-same (put t.procs i allotted) i _),
          ap (λ (p : Proc). p.pid) (put-same (put t.procs i allotted) i _)
              ∙ ap (λ (p : Proc). p.pid) as_allotted,
          refl,
          (λ j ne. put_ne (put t.procs i allotted) i j _ ne ∙ put_ne t.procs i j allotted ne),
        )

  fork_born :
      (cur : ℕ)
      → ((fork t cur true true).1 ≡ pos t.nextpid)
        × (((fork t cur true true).0.procs i).state ≡ runnable)
        × (((fork t cur true true).0.procs i).killed ≡ (t.procs i).killed)
  unfolding fork
  fork_born cur =
      rw (allots, fork, allots)
        (
          ap (λ (p : Proc). pos p.pid) as_allotted,
          ap (λ (p : Proc). p.state) (put-same (put t.procs i allotted) i _),
          ap (λ (p : Proc). p.killed) (put-same (put t.procs i allotted) i _)
              ∙ ap (λ (p : Proc). p.killed) as_allotted,
        )

kill_found :
    (t : Table) (pid i : ℕ)
    → find_proc (λ p. p.pid == pid) t.procs nproc 0 ≡ some i
    → kill t pid ≡ (record t { procs = put t.procs i (kill_proc (t.procs i)) }, pos 0)
unfolding kill put
kill_found t pid i e = rw (e, kill) refl

-- Where a fork finds an unused entry but no memory for the copy, it fails, and a kill of the process
-- identifier that it leaves there, which no other entry has, succeeds; the next fork then takes the entry,
-- returns its child as usual, and the child is runnable and killed already.
pub born_killed :
    (t : Table) (cur i : ℕ)
    → find_unused t.procs ≡ some i
    → ((j : ℕ) → j ≢ i → (t.procs j).pid ≢ t.nextpid)
    → ((fork t cur true false).1 ≡ negsuc 0)
      × ((kill (fork t cur true false).0 t.nextpid).1 ≡ pos 0)
      × ((fork (kill (fork t cur true false).0 t.nextpid).0 cur true true).1 ≡ pos (t.nextpid + 1))
      × (((fork (kill (fork t cur true false).0 t.nextpid).0 cur true true).0.procs i).state
          ≡ runnable)
      × (((fork (kill (fork t cur true false).0 t.nextpid).0 cur true true).0.procs i).killed ≡ 1)
unfolding kill_proc is_sleeping
born_killed t cur i e fresh =
    let u : Table = (fork t cur true false).0 in
    let (fails, free, has_pid, following, kept) = fork_failed t i e cur in
    let (less, free') = find_unused_lem t.procs i e in
    let killed_now = kill_found u t.nextpid i (
      find_proc_only (λ p. p.pid == t.nextpid) u.procs nproc 0 i (omega arith) (omega arith)
        (ground (arith, has_pid))
        (λ j ne.
          let same = ap (λ (p : Proc). p.pid) (kept j ne) in ground (arith, same, fresh j ne))) in
    let still_free : (kill_proc (u.procs i)).state ≡ unused = rw free refl in
    let slot : find_unused u.procs ≡ some i =
      same_find_unused t.procs u.procs i free' free kept ∙ e in
    let found : find_unused (kill u t.nextpid).0.procs ≡ some i = rw killed_now (
      same_find_unused u.procs (put u.procs i (kill_proc (u.procs i))) i free
        (ap (λ (p : Proc). p.state) (put-same u.procs i (kill_proc (u.procs i))) ∙ still_free)
        (λ j ne. put_ne u.procs i j (kill_proc (u.procs i)) ne)
      ∙ slot) in
    let (child, starts, killed) = fork_born (kill u t.nextpid).0 i found cur in
    (
      fails,
      ap (λ r. r.1) killed_now,
      child ∙ ap pos (ap (λ r. r.0.nextpid) killed_now ∙ following),
      starts,
      killed
          ∙ rw killed_now
              (ap (λ (p : Proc). p.killed) (put-same u.procs i (kill_proc (u.procs i)))),
    )
