-- ===== src/ProcTable/Zombies.antt =====
-- exit keeps the families: the children go to the first process, and no one who should wake sleeps.
use mathlib.Core.Path.{subst}
use native.Mathlib.Decide.{ℕ_discrete, dec_lt}
use public_systems_projects.Base.{
  ℕ, ◌≤◌, ◌<◌, ◌≡◌, ◌≢◌, ◌⊎◌, inl, inr, refl, sym, ap, ◌∙◌, true, false, Bool-cases, Option, none,
  some, some_inj, put, put-same, put_ne, arith,
}
use public_systems_projects.ProcTable.{
  nproc, running, zombie, of_proc, Proc, Table, is_zombie, same_proc, wakeup1, wakeup_parent,
  pass_children,
}
use public_systems_projects.ProcTable.Steps.{is_live}
use public_systems_projects.ProcTable.Families.{
  IsWaiting, IsFamily, IsLike, IsLike-refl, wake-IsLike, live_of, awake, asleep_depth,
}
use public_systems_projects.ProcTable.Exits.{
  IsSofter, IsSofter-of, IsSofter-trans, wake-IsWaiting, reparent, pass_children_parent,
  pass_children-IsSofter, pass_children_wakes,
}

not_self_reparent :
    (cur init i : ℕ) (parent : Option ℕ)
    → reparent cur init parent ≡ some i
    → ((parent ≡ some cur) × (i ≡ init)) ⊎ ((parent ≢ some cur) × (parent ≡ some i))
unfolding reparent same_proc
not_self_reparent cur init i none e = cc
not_self_reparent cur init i (some j) e = elim (ℕ_discrete j cur) [
  | yes mine ↦ inl (ap some mine, ground (arith, e))
  | no ne ↦ inr ((λ e'. ne (some_inj e')), ground (arith, e))
]

reparent-none : (cur init : ℕ) → reparent cur init none ≡ none
unfolding reparent same_proc
reparent-none cur init = refl

reparent_mine : (cur init : ℕ) → reparent cur init (some cur) ≡ some init
unfolding reparent same_proc
reparent_mine cur init = ground arith

reparent_away : (cur init j : ℕ) → j ≢ cur → reparent cur init (some j) ≡ some j
unfolding reparent same_proc
reparent_away cur init j away = ground arith

apart : {i : ℕ} → none ≢ some i
apart e = absurd (cc e)

wakeup_parent-IsLike :
    (parent : Option ℕ) (procs : ℕ → Proc) (j : ℕ)
    → IsLike j (procs j) (wakeup_parent parent procs j)
unfolding wakeup_parent wakeup1
wakeup_parent-IsLike none procs j = IsLike-refl j (procs j)
wakeup_parent-IsLike (some i) procs j = wake-IsLike j (of_proc i) (procs j)

module _ (t : Table) (cur : ℕ) (at : (t.procs cur).state ≡ running) (ne : t.initproc ≢ cur)
    (is : IsFamily t.procs t.initproc) where
  -- the table after the wakeup of the parent, after the loop, and in the end
  abbrev pub woken : ℕ → Proc
  woken = wakeup_parent (t.procs cur).parent t.procs

  abbrev pub handed : ℕ → Proc
  handed = pass_children cur t.initproc nproc 0 woken

  abbrev pub ended : ℕ → Proc
  ended = put handed cur (record (handed cur) { state = zombie })

  cur_live : is_live (t.procs cur).state ≡ true
  cur_live = live_of _ (inr (inr at))

  cur_small : cur < nproc
  cur_small = elim (dec_lt cur nproc) [
    | yes less ↦ less
    | no big ↦ absurd (ground (arith, cur_live, (is.bounded cur (omega arith)).0))
  ]

  small_zombie : (j : ℕ) → is_zombie (t.procs j).state ≡ true → j < nproc
  small_zombie j dead = elim (dec_lt j nproc) [
    | yes less ↦ less
    | no big ↦ absurd (ground (arith, dead, (is.bounded j (omega arith)).1))
  ]

  handed-IsSofter : (j : ℕ) → IsSofter j (t.procs j) (handed j)
  handed-IsSofter j =
      IsSofter-trans j (t.procs j) (woken j) (handed j)
        (IsSofter-of j _ _ (wakeup_parent-IsLike (t.procs cur).parent t.procs j))
        (pass_children-IsSofter cur t.initproc nproc 0 woken j)

  woken_parent : (j : ℕ) → (woken j).parent ≡ (t.procs j).parent
  woken_parent j = (wakeup_parent-IsLike (t.procs cur).parent t.procs j).parent

  big_parent : (j : ℕ) → nproc ≤ j → (t.procs j).parent ≡ none
  big_parent j big = is.free j (is.bounded j big).0 (is.bounded j big).1

  handed_parent : (j : ℕ) → (handed j).parent ≡ reparent cur t.initproc (t.procs j).parent
  unfolding reparent same_proc
  handed_parent j =
      pass_children_parent cur t.initproc nproc 0 woken j ne
      ∙ rw (woken_parent j) (elim (dec_lt j nproc) [
        | yes less ↦ ground arith
        | no big ↦ rw (big_parent j (omega arith)) (ground arith)
      ])

  ended_cur : ended cur ≡ record (handed cur) { state = zombie }
  ended_cur = put-same handed cur _

  ended_ne : (j : ℕ) → j ≢ cur → ended j ≡ handed j
  ended_ne j away = put_ne handed cur j _ away

  ended_parent : (j : ℕ) → (ended j).parent ≡ reparent cur t.initproc (t.procs j).parent
  ended_parent j = elim (ℕ_discrete j cur) [
    | yes e ↦
        ap (λ k. (ended k).parent) e
        ∙ ap (λ (p : Proc). p.parent) ended_cur
        ∙ ap (λ k. (handed k).parent) (sym e)
        ∙ handed_parent j
    | no away ↦ ap (λ (p : Proc). p.parent) (ended_ne j away) ∙ handed_parent j
  ]

  ended_live : (j : ℕ) → j ≢ cur → is_live (ended j).state ≡ is_live (t.procs j).state
  ended_live j away =
      ap (λ (p : Proc). is_live p.state) (ended_ne j away) ∙ (handed-IsSofter j).live

  ended_dead : (j : ℕ) → j ≢ cur → is_zombie (ended j).state ≡ is_zombie (t.procs j).state
  ended_dead j away =
      ap (λ (p : Proc). is_zombie p.state) (ended_ne j away) ∙ (handed-IsSofter j).dead

  cur_dead : is_zombie (ended cur).state ≡ true
  unfolding is_zombie
  cur_dead = ap (λ (p : Proc). is_zombie p.state) ended_cur

  cur_not_live : is_live (ended cur).state ≡ false
  unfolding is_live
  cur_not_live = ap (λ (p : Proc). is_live p.state) ended_cur

  ended_waits : (i : ℕ) → IsWaiting i (ended i) → (i ≢ cur) × IsWaiting i (handed i)
  unfolding asleep_depth
  ended_waits i w = elim (ℕ_discrete i cur) [
    | yes e ↦
        let here : IsWaiting i (record (handed cur) { state = zombie }) =
          subst (IsWaiting i) (ap ended e ∙ ended_cur) w in
        absurd (awake zombie refl here.sleeps)
    | no away ↦ (away, subst (IsWaiting i) (ended_ne i away) w)
  ]

  -- A process that waits in the end is not the parent of the one that exits.
  not_parent : (i : ℕ) → IsWaiting i (handed i) → (t.procs cur).parent ≢ some i
  unfolding wakeup_parent wakeup1
  not_parent i w e =
      let w' : IsWaiting i (woken i) =
        (pass_children-IsSofter cur t.initproc nproc 0 woken i).waits w in
      wake-IsWaiting i (t.procs i) (subst (λ p. IsWaiting i (wakeup_parent p t.procs i)) e w')

  -- nor does the first process wait when a zombie comes to it
  not_init :
      (j : ℕ)
      → (t.procs j).parent ≡ some cur
      → is_zombie (t.procs j).state ≡ true
      → ¬ IsWaiting t.initproc (handed t.initproc)
  not_init j child dead =
      pass_children_wakes cur t.initproc nproc 0 woken j (omega arith) (small_zombie j dead)
        (woken_parent j ∙ child) ((wakeup_parent-IsLike (t.procs cur).parent t.procs j).dead ∙ dead)

  used_before :
      (i : ℕ)
      → (is_live (ended i).state ≡ true) ⊎ (is_zombie (ended i).state ≡ true)
      → (is_live (t.procs i).state ≡ true) ⊎ (is_zombie (t.procs i).state ≡ true)
  used_before i used = elim (ℕ_discrete i cur) [
    | yes e ↦ inl (ap (λ k. is_live (t.procs k).state) e ∙ cur_live)
    | no away ↦ elim used [
      | inl l ↦ inl (sym (ended_live i away) ∙ l)
      | inr d ↦ inr (sym (ended_dead i away) ∙ d)
    ]
  ]

  ended_parents :
      (i : ℕ)
      → (is_live (ended i).state ≡ true) ⊎ (is_zombie (ended i).state ≡ true)
      → i ≢ t.initproc
      → (j : ℕ) × ((ended i).parent ≡ some j) × (is_live (ended j).state ≡ true)
  ended_parents i used far =
      let (j, has_parent, alive) = is.parents i (used_before i used) far in
      elim (ℕ_discrete j cur) [
        | yes mine ↦ (
          t.initproc,
          ended_parent i
              ∙ ap (reparent cur t.initproc) (has_parent ∙ ap some mine)
              ∙ reparent_mine cur t.initproc,
          ended_live t.initproc ne ∙ is.init_live,
        )
        | no away ↦ (
          j,
          ended_parent i
              ∙ ap (reparent cur t.initproc) has_parent
              ∙ reparent_away cur t.initproc j away,
          ended_live j away ∙ alive,
        )
      ]

  ended_waiters :
      (i j : ℕ)
      → IsWaiting i (ended i)
      → (ended j).parent ≡ some i
      → is_zombie (ended j).state ≡ false
  ended_waiters i j w e =
      let (away, w') = ended_waits i w in
      let from = not_self_reparent cur t.initproc i (t.procs j).parent (sym (ended_parent j) ∙ e) in
      elim (ℕ_discrete j cur) [
        | yes mine ↦ elim from [
          | inl (own, _) ↦ absurd (is.not_self cur (ap (λ k. (t.procs k).parent) (sym mine) ∙ own))
          | inr (_, of_i) ↦
              absurd (not_parent i w' (ap (λ k. (t.procs k).parent) (sym mine) ∙ of_i))
        ]
        | no other_j ↦ elim (Bool-cases (is_zombie (t.procs j).state)) [
          | inr alive ↦ ended_dead j other_j ∙ alive
          | inl dead ↦ elim from [
            | inl (child, at_init) ↦
                absurd (not_init j child dead (subst (λ k. IsWaiting k (handed k)) at_init w'))
            | inr (_, of_i) ↦
                let calm = is.waiters i j ((handed-IsSofter i).waits w') of_i in
                absurd (ground (arith, dead, calm))
          ]
        ]
      ]

  pub ended-IsFamily : IsFamily ended t.initproc
  ended-IsFamily = record {
    bounded = λ i big.
        let away : i ≢ cur = λ e. absurd (omega (arith, cur_small, e)) in
        (ended_live i away ∙ (is.bounded i big).0, ended_dead i away ∙ (is.bounded i big).1);
    init_live = ended_live t.initproc ne ∙ is.init_live;
    init_root =
        ended_parent t.initproc
        ∙ ap (reparent cur t.initproc) is.init_root
        ∙ reparent-none cur t.initproc;
    free = λ i l d.
        let away : i ≢ cur =
          λ e. absurd (ground (arith, cur_dead, ap (λ k. is_zombie (ended k).state) e, d)) in
        ended_parent i
        ∙ ap (reparent cur t.initproc)
            (is.free i (sym (ended_live i away) ∙ l) (sym (ended_dead i away) ∙ d))
        ∙ reparent-none cur t.initproc;
    not_self = λ i e.
        elim (not_self_reparent cur t.initproc i (t.procs i).parent (sym (ended_parent i) ∙ e)) [
          | inl (child, at_init) ↦
              absurd (apart (sym is.init_root ∙ ap (λ k. (t.procs k).parent) (sym at_init) ∙ child))
          | inr (_, own) ↦ is.not_self i own
        ];
    parents = λ i used far. ended_parents i used far;
    waiters = λ i j w e. ended_waiters i j w e;
  }
