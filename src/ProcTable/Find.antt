-- ===== src/ProcTable/Find.antt =====
-- What the scans of the table find.
use native.Mathlib.Decide.{ℕ_discrete}
use public_systems_projects.Base.{
  ℕ, zero, suc, ◌+◌, ◌≤◌, ◌<◌, ◌≡◌, inl, inr, refl, ap, ◌∙◌, Bool, true, false, ◌||◌, Bool-cases,
  Option-cases, Option, none, some, put, arith,
}
use public_systems_projects.ProcTable.{
  nproc, ProcState, unused, embryo, sleeping, runnable, running, zombie, Proc, Table, is_unused,
  is_zombie, same_proc, find_proc, find_unused, allocproc, reaps, nothing, wait_scan,
}

pub find_proc-some :
    (test : Proc → Bool) (procs : ℕ → Proc) (n i j : ℕ)
    → find_proc test procs n i ≡ some j
    → (test (procs j) ≡ true) × (i ≤ j) × (j < i + n)
unfolding find_proc
find_proc-some test procs zero i j e = absurd (cc e)
find_proc-some test procs (suc n) i j e = ground (arith, find_proc-some test procs n (i + 1) j)

-- What allocproc comes to: no entry is unused; or the entry `i` was, and it is taken, or left unused where
-- there is no page for its stack.
pub data Allocated (t : Table) : Table × Option ℕ → Type 0 where
  full : Allocated t (t, none)
  taken :
      (i : ℕ)
      → i < nproc
      → (t.procs i).state ≡ unused
      → Allocated t (
        record t {
          procs = put t.procs i (record (t.procs i) {
            state = embryo;
            pid = t.nextpid;
            priority = 10;
            kstack = true;
          });
          nextpid = t.nextpid + 1;
        },
        some i,
      )
  stackless :
      (i : ℕ)
      → i < nproc
      → (t.procs i).state ≡ unused
      → Allocated t (
        record t {
          procs = put t.procs i (record (t.procs i) {
            state = unused;
            pid = t.nextpid;
            priority = 10;
            kstack = false;
          });
          nextpid = t.nextpid + 1;
        },
        none,
      )

unused_of : (s : ProcState) → is_unused s ≡ true → s ≡ unused
unfolding is_unused
unused_of unused e = refl
unused_of embryo e = cc
unused_of sleeping e = cc
unused_of runnable e = cc
unused_of running e = cc
unused_of zombie e = cc

pub find_unused_lem :
    (procs : ℕ → Proc) (i : ℕ)
    → find_unused procs ≡ some i
    → (i < nproc) × ((procs i).state ≡ unused)
unfolding find_unused
find_unused_lem procs i e =
    let (hit, _, less) = find_proc-some (λ p. is_unused p.state) procs nproc 0 i e in
    (omega arith, unused_of _ hit)

pub allocproc-Allocated : (t : Table) (kstack : Bool) → Allocated t (allocproc t kstack)
unfolding allocproc
allocproc-Allocated t kstack = elim (Option-cases (find_unused t.procs)) [
  | inl e ↦ rw (e, allocproc) full
  | inr (i, e) ↦
      let (less, free) = find_unused_lem t.procs i e in
      elim (Bool-cases kstack) [
        | inl paged ↦ rw (e, allocproc, paged) (taken i less free)
        | inr bare ↦ rw (e, allocproc, bare) (stackless i less free)
      ]
]

-- A scan of `wait` that reaps has found a zombie child, and one that finds nothing has seen none.
pub wait_scan_lem :
    (cur : ℕ) (procs : ℕ → Proc) (n i : ℕ) (havekids : Bool) (j : ℕ)
    → wait_scan cur procs n i havekids ≡ reaps j
    → ((procs j).parent ≡ some cur) × (is_zombie (procs j).state ≡ true) × (j < i + n)
unfolding wait_scan same_proc
wait_scan_lem cur procs zero i havekids j e = absurd (cc e)
wait_scan_lem cur procs (suc n) i havekids j e =
    ground (arith, wait_scan_lem cur procs n (i + 1) (havekids || same_proc (procs i).parent cur) j)

pub wait_scan-nothing :
    (cur : ℕ) (procs : ℕ → Proc) (n i : ℕ) (havekids kids : Bool) (j : ℕ)
    → wait_scan cur procs n i havekids ≡ nothing kids
    → i ≤ j
    → j < i + n
    → (procs j).parent ≡ some cur
    → is_zombie (procs j).state ≡ false
unfolding wait_scan same_proc
wait_scan-nothing cur procs zero i havekids kids j e low high child = absurd (omega arith)
wait_scan-nothing cur procs (suc n) i havekids kids j e low high child = elim (ℕ_discrete i j) [
  | yes here ↦
      let child' : (procs i).parent ≡ some cur = ap (λ k. (procs k).parent) here ∙ child in
      let alike : is_zombie (procs i).state ≡ is_zombie (procs j).state =
        ap (λ k. is_zombie (procs k).state) here in
      ground (arith, e, child', alike)
  | no further ↦
      wait_scan-nothing cur procs n (i + 1) (havekids || same_proc (procs i).parent cur) kids j
        (ground (arith, e)) (omega arith) (omega arith) child
]
