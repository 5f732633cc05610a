-- ===== src/ProcTable/Births.antt =====
-- Families of the first process and of the child of a fork.
use mathlib.Core.Path.{subst}
use native.Mathlib.Decide.{ℕ_discrete}
use public_systems_projects.Base.{
  ℕ, ◌+◌, ◌<◌, ◌≡◌, ◌≢◌, ◌⊎◌, inl, inr, refl, sym, ap, ◌∙◌, Bool, true, false, Bool-cases, Option,
  none, some, put, put-same, put_ne, arith, List, ret, ret-injective,
}
use public_systems_projects.ProcTable.{
  nproc, ProcState, unused, embryo, runnable, running, Proc, Table, is_unused, is_zombie,
  find_unused, allocproc, userinit, fork, find_proc,
}
use public_systems_projects.ProcTable.Find.{Allocated, full, taken, stackless, allocproc-Allocated}
use public_systems_projects.ProcTable.Steps.{is_live, zeros}
use public_systems_projects.ProcTable.Families.{
  IsFamily, IsLike, IsLike-refl, like-IsFamily, put-IsFamily, live_of, awake, asleep_depth,
}
use public_systems_projects.ProcTable.Changes.{unused_idle, idle-IsLike, one-IsFamily}

-- What allocproc comes to, as equations.
unfoldable pub entry : Table → ℕ → ProcState → Bool → Proc
entry t i state kstack = record (t.procs i) {
  state = state;
  pid = t.nextpid;
  priority = 10;
  kstack = kstack;
}

allocated_cases :
    (t : Table) (r : Table × Option ℕ)
    → Allocated t r
    → (r ≡ (t, none))
      ⊎ ((i : ℕ) × (i < nproc)
          × ((t.procs i).state ≡ unused)
          × (r ≡ (
            record t { procs = put t.procs i (entry t i embryo true); nextpid = t.nextpid + 1 },
            some i,
          )))
      ⊎ ((i : ℕ) × (i < nproc)
          × ((t.procs i).state ≡ unused)
          × (r ≡ (
            record t { procs = put t.procs i (entry t i unused false); nextpid = t.nextpid + 1 },
            none,
          )))
unfolding entry
allocated_cases t r full = inl refl
allocated_cases t r (taken i less free) = inr (inl (i, less, free, refl))
allocated_cases t r (stackless i less free) = inr (inr (i, less, free, refl))

put-put :
    (procs : ℕ → Proc) (i : ℕ) (p r : Proc) (k : ℕ) → put procs i r k ≡ put (put procs i p) i r k
put-put procs i p r k = elim (ℕ_discrete k i) [
  | yes e ↦
      ap (put procs i r) e
      ∙ put-same procs i r
      ∙ sym (put-same (put procs i p) i r)
      ∙ sym (ap (put (put procs i p) i r) e)
  | no ne ↦
      put_ne procs i k r ne ∙ sym (put_ne procs i k p ne) ∙ sym (put_ne (put procs i p) i k r ne)
]

same-IsFamily :
    (procs rs : ℕ → Proc) (init : ℕ)
    → ((k : ℕ) → procs k ≡ rs k)
    → IsFamily procs init
    → IsFamily rs init
same-IsFamily procs rs init same is =
    like-IsFamily procs rs init (λ k. subst (IsLike k (procs k)) (same k) (IsLike-refl k (procs k)))
      is

-- The entry that allocproc takes is changed once more, to that of a child or back to an unused one.
again-IsFamily :
    (procs : ℕ → Proc) (init i : ℕ) (p r : Proc)
    → IsFamily (put procs i r) init
    → IsFamily (put (put procs i p) i r) init
again-IsFamily procs init i p r is =
    same-IsFamily (put procs i r) (put (put procs i p) i r) init (put-put procs i p r) is

pub fork-IsFamily :
    (t : Table) (cur : ℕ) (kstack copied : Bool)
    → (t.procs cur).state ≡ running
    → IsFamily t.procs t.initproc
    → IsFamily (fork t cur kstack copied).0.procs (fork t cur kstack copied).0.initproc
unfolding fork entry asleep_depth is_live is_zombie
fork-IsFamily t cur kstack copied at is =
    elim (allocated_cases t (allocproc t kstack) (allocproc-Allocated t kstack)) [
      | inl e ↦ rw (e, fork, e) is
      | inr (inr (i, less, free, e)) ↦
          rw (e, fork, e)
            (put-IsFamily t.procs t.initproc i _
              (idle-IsLike i (t.procs i) (entry t i unused false) free refl refl) is)
      | inr (inl (i, less, free, e)) ↦
          let (idle, _) = unused_idle (t.procs i).state free in
          elim (Bool-cases copied) [
            | inl whole ↦
                rw (e, fork, e, whole)
                  (again-IsFamily t.procs t.initproc i (entry t i embryo true) _ (
                    one-IsFamily t.procs t.initproc i _ is less idle refl (awake runnable refl)
                      (inr (cur, refl, live_of _ (inr (inr at)), refl))))
            | inr broken ↦
                rw (e, fork, e, broken)
                  (again-IsFamily t.procs t.initproc i (entry t i embryo true) _ (
                    put-IsFamily t.procs t.initproc i _
                      (idle-IsLike i (t.procs i) _ free refl
                        (ap (λ (p : Proc). p.parent) (put-same t.procs i (entry t i embryo true))))
                      is))
          ]
    ]

-- The table that userinit makes: one process, which is runnable and has no parent.
module _ (name : List ℕ) where
  abbrev booted : ℕ → Proc
  booted =
      let taken = put zeros.procs 0 (entry zeros 0 embryo true) in
      put taken 0 (record (taken 0) { name = name; state = runnable })

  booted_cases :
      (k : ℕ)
      → ((k ≡ 0) × ((booted k).state ≡ runnable) × ((booted k).parent ≡ none))
        ⊎ ((k ≢ 0) × ((booted k).state ≡ unused) × ((booted k).parent ≡ none))
  unfolding zeros entry put
  booted_cases k = elim (ℕ_discrete k 0) [
    | yes e ↦ inl (e, rw e refl, rw e refl)
    | no ne ↦
        let as_zeros : booted k ≡ zeros.procs k =
          put_ne (put zeros.procs 0 (entry zeros 0 embryo true)) 0 k _ ne
          ∙ put_ne zeros.procs 0 k (entry zeros 0 embryo true) ne in
        inr (ne, ap (λ (p : Proc). p.state) as_zeros, ap (λ (p : Proc). p.parent) as_zeros)
  ]

  idle_beyond :
      (k : ℕ) → k ≢ 0 → (is_live (booted k).state ≡ false) × (is_zombie (booted k).state ≡ false)
  idle_beyond k ne = elim (booted_cases k) [
    | inl (e, _, _) ↦ absurd (ne e)
    | inr (_, e, _) ↦ unused_idle (booted k).state e
  ]

  booted_root : (k : ℕ) → (booted k).parent ≡ none
  booted_root k = elim (booted_cases k) [ inl (_, _, e) ↦ e | inr (_, _, e) ↦ e ]

  booted-IsFamily : IsFamily booted 0
  booted-IsFamily = record {
    bounded = λ k big. idle_beyond k (λ e. absurd (omega (arith, e)));
    init_live = elim (booted_cases 0) [
      | inl (_, e, _) ↦ live_of _ (inr (inl e))
      | inr (ne, _, _) ↦ absurd (ne refl)
    ];
    init_root = booted_root 0;
    free = λ k l d. booted_root k;
    not_self = λ k own. absurd (ground (arith, own, booted_root k));
    parents = λ k used far. absurd (ground (arith, used, idle_beyond k far));
    waiters = λ k j w child. absurd (ground (arith, child, booted_root j));
  }

pub start-IsFamily :
    (name : List ℕ) (t : Table)
    → userinit zeros true true name ≡ ret t
    → IsFamily t.procs t.initproc
unfolding userinit allocproc find_unused find_proc is_unused zeros entry
start-IsFamily name t e =
    subst (λ (u : Table). IsFamily u.procs u.initproc) (ret-injective e) (booted-IsFamily name)
