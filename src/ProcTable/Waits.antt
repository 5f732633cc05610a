-- ===== src/ProcTable/Waits.antt =====
-- A call of wait keeps families: a child is given back, or the parent falls asleep.
use mathlib.Core.Path.{subst}
use native.Mathlib.Decide.{ℕ_discrete, dec_lt}
use public_systems_projects.Base.{
  ℕ, ◌≡◌, ◌⊎◌, inl, inr, refl, sym, ap, ◌∙◌, Bool, true, false, ◌||◌, ltb, Bool-cases, some, put,
  put-same, put_ne, arith, not,
}
use public_systems_projects.ProcTable.{
  nproc, ProcState, unused, sleeping, running, of_proc, Proc, Table, Found, is_zombie, reaps,
  nothing, wait_scan, reap, wait,
}
use public_systems_projects.ProcTable.Find.{wait_scan_lem, wait_scan-nothing}
use public_systems_projects.ProcTable.Steps.{is_live}
use public_systems_projects.ProcTable.Families.{IsWaiting, IsFamily, not_dead, awake, asleep_depth}
use public_systems_projects.ProcTable.Changes.{one-IsFamily}

-- The process `cur` falls asleep in `wait`, which has seen that none of its children is a zombie.
module _ (procs : ℕ → Proc) (init cur : ℕ) (is : IsFamily procs init)
    (at : (procs cur).state ≡ running)
    (none_dead : (j : ℕ) → (procs j).parent ≡ some cur → is_zombie (procs j).state ≡ false) where
  abbrev waiter : Proc
  waiter = record (procs cur) { chan = some (of_proc cur); state = sleeping }

  alike :
      (k : ℕ)
      → ((put procs cur waiter k).parent ≡ (procs k).parent)
        × (is_live (put procs cur waiter k).state ≡ is_live (procs k).state)
        × (is_zombie (put procs cur waiter k).state ≡ is_zombie (procs k).state)
  unfolding is_live is_zombie
  alike k = elim (ℕ_discrete k cur) [
    | yes e ↦ rw e (rw (put-same procs cur waiter) (rw at (refl, refl, refl)))
    | no ne ↦ rw (put_ne procs cur k waiter ne) (refl, refl, refl)
  ]

  waiter-IsFamily : IsFamily (put procs cur waiter) init
  waiter-IsFamily = record {
    bounded = λ k big. ((alike k).1 ∙ (is.bounded k big).0, (alike k).2 ∙ (is.bounded k big).1);
    init_live = (alike init).1 ∙ is.init_live;
    init_root = (alike init).0 ∙ is.init_root;
    free = λ k l d. (alike k).0 ∙ is.free k (sym (alike k).1 ∙ l) (sym (alike k).2 ∙ d);
    not_self = λ k own. is.not_self k (sym (alike k).0 ∙ own);
    parents = λ k used far.
        let used' : (is_live (procs k).state ≡ true) ⊎ (is_zombie (procs k).state ≡ true) =
          elim used [ inl l ↦ inl (sym (alike k).1 ∙ l) | inr d ↦ inr (sym (alike k).2 ∙ d) ] in
        let (j, has_parent, alive) = is.parents k used' far in
        (j, (alike k).0 ∙ has_parent, (alike j).1 ∙ alive);
    waiters = λ k j w child. (alike j).2 ∙ elim (ℕ_discrete k cur) [
      | yes e ↦ none_dead j (sym (alike j).0 ∙ child ∙ ap some e)
      | no ne ↦
          is.waiters k j (subst (IsWaiting k) (put_ne procs cur k waiter ne) w)
            (sym (alike j).0 ∙ child)
    ];
  }

found_cases : (f : Found) → ((i : ℕ) × (f ≡ reaps i)) ⊎ ((kids : Bool) × (f ≡ nothing kids))
found_cases (reaps i) = inl (i, refl)
found_cases (nothing kids) = inr (kids, refl)

dead_not : (s : ProcState) → is_zombie s ≡ true → is_live s ≡ false
dead_not s dead = elim (Bool-cases (is_live s)) [
  | inl alive ↦ absurd (ground (arith, not_dead s alive, dead))
  | inr e ↦ e
]

pub wait-IsFamily :
    (t : Table) (cur : ℕ)
    → (t.procs cur).state ≡ running
    → IsFamily t.procs t.initproc
    → IsFamily (wait t cur).0.procs (wait t cur).0.initproc
unfolding wait reap is_live is_zombie asleep_depth
wait-IsFamily t cur at is = elim (found_cases (wait_scan cur t.procs nproc 0 false)) [
  | inl (i, e) ↦
      let (child, dead, less) = wait_scan_lem cur t.procs nproc 0 false i e in
      rw (e, wait)
        (one-IsFamily t.procs t.initproc i _ is (omega arith) (dead_not (t.procs i).state dead) refl
          (awake unused refl) (inl (refl, refl)))
  | inr (kids, e) ↦ elim (Bool-cases (not kids || ltb 0 (t.procs cur).killed)) [
    | inl over ↦ rw (e, wait, over) is
    | inr waits_on ↦
        rw (e, wait, waits_on)
          (waiter-IsFamily t.procs t.initproc cur is at (λ j child. elim (dec_lt j nproc) [
            | yes less ↦
                wait_scan-nothing cur t.procs nproc 0 false kids j e (omega arith) (omega arith)
                  child
            | no big ↦ (is.bounded j (omega (arith, big))).1
          ]))
  ]
]
