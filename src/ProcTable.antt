-- ===== src/ProcTable.antt =====
-- Assignment9_xv6/part1/xv6-public/proc.c: the table of processes. A process is known by its index in the
-- table, and what runs under `ptable.lock` is one call. The memory, the files and the registers of a process
-- are left out; whether kalloc and copyuvm find memory is an argument.
pub mod Find
pub mod Steps
pub mod Families
mod Exits
mod Zombies
mod Changes
mod Waits
mod Births
pub mod Lives
pub mod Kill
pub mod Listing
mod Tests
use public_systems_projects.Base.{
  ℕ, zero, suc, ◌+◌, ◌≡◌, Bool, true, false, ◌&&◌, ◌||◌, ltb, ◌==◌, if◌then◌else◌, Option, none,
  some, List, [], ◌∷◌, ◌++◌, not, put, ℤ, pos, negsuc, Outcome, ret, blocked,
}

abbrev pub nproc : ℕ
nproc = 64

pub data ProcState : Type 0 where
  unused : ProcState
  embryo : ProcState
  sleeping : ProcState
  runnable : ProcState
  running : ProcState
  zombie : ProcState

-- `of_proc i` is the address of the process `i` itself, on which it sleeps in `wait`.
pub data Channel : Type 0 where
  of_proc : ℕ → Channel
  other : ℕ → Channel

pub record Proc : Type 0 where
  pub state : ProcState
  pub pid : ℕ
  pub parent : Option ℕ
  pub chan : Option Channel
  pub killed : ℕ
  pub kstack : Bool
  pub name : List ℕ
  pub priority : ℕ

-- `ptable`, `nextpid` and `initproc`
pub record Table : Type 0 where
  pub procs : ℕ → Proc
  pub nextpid : ℕ
  pub initproc : ℕ

unfoldable pub is_unused : ProcState → Bool
is_unused unused = true
is_unused embryo = false
is_unused sleeping = false
is_unused runnable = false
is_unused running = false
is_unused zombie = false

unfoldable pub is_zombie : ProcState → Bool
is_zombie zombie = true
is_zombie unused = false
is_zombie embryo = false
is_zombie sleeping = false
is_zombie runnable = false
is_zombie running = false

unfoldable pub is_sleeping : ProcState → Bool
is_sleeping sleeping = true
is_sleeping unused = false
is_sleeping embryo = false
is_sleeping runnable = false
is_sleeping running = false
is_sleeping zombie = false

unfoldable pub same_proc : Option ℕ → ℕ → Bool
same_proc none i = false
same_proc (some j) i = j == i

unfoldable pub same_chan : Option Channel → Channel → Bool
same_chan (some (of_proc i)) (of_proc j) = i == j
same_chan (some (other i)) (other j) = i == j
same_chan (some (of_proc i)) (other j) = false
same_chan (some (other i)) (of_proc j) = false
same_chan none c = false

-- A scan of `n` entries from `i` on for the first one that passes the test.
unfoldable pub find_proc : (Proc → Bool) → (ℕ → Proc) → (n i : ℕ) → Option ℕ
find_proc test procs zero i = none
find_proc test procs (suc n) i =
    let rest = find_proc test procs n (i + 1) in if test (procs i) then some i else rest

-- the scan of `allocproc`
unfoldable pub find_unused : (ℕ → Proc) → Option ℕ
find_unused procs = find_proc (λ p. is_unused p.state) procs nproc 0

-- `kstack` tells whether kalloc finds a page.
unfoldable pub allocproc : Table → (kstack : Bool) → Table × Option ℕ
allocproc t kstack = elim (find_unused t.procs) [
  | none ↦ (t, none)
  | some i ↦
      let p = record (t.procs i) { state = embryo; pid = t.nextpid; priority = 10 } in
      if kstack
      then (
        record t { procs = put t.procs i (record p { kstack = true }); nextpid = t.nextpid + 1 },
        some i,
      )
      else (
        record t {
          procs = put t.procs i (record p { kstack = false; state = unused });
          nextpid = t.nextpid + 1;
        },
        none,
      )
]

-- The first process; `name` is that of its program.
unfoldable pub userinit : Table → (kstack pgdir : Bool) → (name : List ℕ) → Outcome Table
userinit t kstack pgdir name =
    let (u, found) = allocproc t kstack in
    elim found [
      | none ↦ blocked
      | some i ↦
          if pgdir
          then ret (record u {
            procs = put u.procs i (record (u.procs i) { name = name; state = runnable });
            initproc = i;
          })
          else blocked
    ]

-- `fork` by the process `cur`; `copied` tells whether copyuvm finds memory.
unfoldable pub fork : Table → (cur : ℕ) → (kstack copied : Bool) → Table × ℤ
fork t cur kstack copied =
    let (u, found) = allocproc t kstack in
    elim found [
      | none ↦ (u, negsuc 0)
      | some i ↦
          if copied
          then (
            record u {
              procs = put u.procs i (record (u.procs i) {
                parent = some cur;
                name = (u.procs cur).name;
                state = runnable;
              });
            },
            pos (u.procs i).pid,
          )
          else (
            record u {
              procs = put u.procs i (record (u.procs i) { kstack = false; state = unused });
            },
            negsuc 0,
          )
    ]

-- `wakeup1`, for one process and for all
unfoldable pub wake : Channel → Proc → Proc
wake c p = if is_sleeping p.state && same_chan p.chan c then record p { state = runnable } else p

unfoldable pub wakeup1 : Channel → (ℕ → Proc) → ℕ → Proc
wakeup1 c procs i = wake c (procs i)

unfoldable pub wakeup_parent : Option ℕ → (ℕ → Proc) → ℕ → Proc
wakeup_parent none procs = procs
wakeup_parent (some j) procs = wakeup1 (of_proc j) procs

-- The loop of `exit` over the table: the children of `cur` go to `init`, who is woken for a zombie.
unfoldable pub pass_children : (cur init : ℕ) → (n i : ℕ) → (ℕ → Proc) → ℕ → Proc
pass_children cur init zero i procs = procs
pass_children cur init (suc n) i procs =
    let passed = put procs i (record (procs i) { parent = some init }) in
    let woken = if is_zombie (procs i).state then wakeup1 (of_proc init) passed else passed in
    let now = if same_proc (procs i).parent cur then woken else procs in
    pass_children cur init n (i + 1) now

-- `exit` by the process `cur`; panic never returns.
unfoldable pub exit : Table → (cur : ℕ) → Outcome Table
exit t cur =
    let woken = wakeup_parent (t.procs cur).parent t.procs in
    let passed = pass_children cur t.initproc nproc 0 woken in
    if cur == t.initproc
    then blocked
    else ret (record t { procs = put passed cur (record (passed cur) { state = zombie }) })

-- What the scan of `wait` finds of the children of `cur`.
pub data Found : Type 0 where
  reaps : ℕ → Found
  nothing : (havekids : Bool) → Found

unfoldable pub wait_scan : (cur : ℕ) → (ℕ → Proc) → (n i : ℕ) → (havekids : Bool) → Found
wait_scan cur procs zero i havekids = nothing havekids
wait_scan cur procs (suc n) i havekids =
    let mine = same_proc (procs i).parent cur in
    let rest = wait_scan cur procs n (i + 1) (havekids || mine) in
    if mine && is_zombie (procs i).state then reaps i else rest

-- What `wait` by `cur` comes to: it returns, or it sleeps and starts over when it is woken.
pub data Waited : Type 0 where
  returned : ℤ → Waited
  asleep : Waited

unfoldable pub reap : Proc → Proc
reap p = record p { kstack = false; pid = 0; parent = none; name = []; killed = 0; state = unused }

-- `wait` by the process `cur`, from the head of its loop on
unfoldable pub wait : Table → (cur : ℕ) → Table × Waited
wait t cur = elim (wait_scan cur t.procs nproc 0 false) [
  | reaps i ↦
      (record t { procs = put t.procs i (reap (t.procs i)) }, returned (pos (t.procs i).pid))
  | nothing havekids ↦
      if not havekids || ltb 0 (t.procs cur).killed then (t, returned (negsuc 0)) else (
        record t {
          procs =
              put t.procs cur
                (record (t.procs cur) { chan = some (of_proc cur); state = sleeping });
        },
        asleep,
      )
]

-- `scheduler` runs the process `i`.
unfoldable pub dispatch : Table → ℕ → Table
dispatch t i = record t { procs = put t.procs i (record (t.procs i) { state = running }) }

unfoldable pub yield : Table → (cur : ℕ) → Table
yield t cur = record t { procs = put t.procs cur (record (t.procs cur) { state = runnable }) }

-- `sleep` up to the call of `sched`. What it does after that, `p->chan = 0`, is `tidy_up`.
unfoldable pub sleep : Table → (cur : ℕ) → Channel → Table
sleep t cur c = record t {
  procs = put t.procs cur (record (t.procs cur) { chan = some c; state = sleeping });
}

unfoldable pub tidy_up : Table → (cur : ℕ) → Table
tidy_up t cur = record t { procs = put t.procs cur (record (t.procs cur) { chan = none }) }

unfoldable pub wakeup : Table → Channel → Table
wakeup t c = record t { procs = wakeup1 c t.procs }

unfoldable pub kill_proc : Proc → Proc
kill_proc p = record p { killed = 1; state = if is_sleeping p.state then runnable else p.state }

unfoldable pub kill : Table → (pid : ℕ) → Table × ℤ
kill t pid = elim (find_proc (λ p. p.pid == pid) t.procs nproc 0) [
  | none ↦ (t, negsuc 0)
  | some i ↦ (record t { procs = put t.procs i (kill_proc (t.procs i)) }, pos 0)
]

-- A line that `cps` prints.
pub record Row : Type 0 where
  pub name : List ℕ
  pub pid : ℕ
  pub state : ProcState
  pub priority : ℕ

unfoldable pub cps_row : Proc → List Row
cps_row p =
    let row : Row = record { name = p.name; pid = p.pid; state = p.state; priority = p.priority } in
    elim (p.state) [
      | sleeping ↦ row ∷ []
      | running ↦ row ∷ []
      | runnable ↦ row ∷ []
      | unused ↦ []
      | embryo ↦ []
      | zombie ↦ []
    ]

unfoldable pub cps_loop : (ℕ → Proc) → (n i : ℕ) → List Row
cps_loop procs zero i = []
cps_loop procs (suc n) i = cps_row (procs i) ++ cps_loop procs n (i + 1)

-- The lines and the result of `cps`.
unfoldable pub cps : Table → List Row × ℤ
cps t = (cps_loop t.procs nproc 0, pos 22)
