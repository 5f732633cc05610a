-- ===== src/ProcTable/Families.antt =====
-- Parents and children: a process that is in use has a live parent, and a parent that sleeps in wait has no
-- zombie child.
use mathlib.Core.Path.{subst}
use native.Mathlib.Decide.{ℕ_discrete}
use public_systems_projects.Base.{
  ℕ, suc, ◌≤◌, ◌≡◌, ◌≢◌, ◌⊎◌, inl, inr, refl, sym, ap, ◌∙◌, true, false, ◌&&◌, ◌==◌, Bool-cases,
  Option-cases, Option, none, some, put, put-same, put_ne, arith,
}
use public_systems_projects.ProcTable.{
  nproc, ProcState, unused, embryo, sleeping, runnable, running, zombie, Channel, of_proc, other,
  Proc, Table, is_zombie, is_sleeping, same_chan, wake, wakeup1, dispatch, yield, sleep, tidy_up,
  wakeup, kill_proc, kill, find_proc,
}
use public_systems_projects.ProcTable.Steps.{is_live}

pub not_dead : (s : ProcState) → is_live s ≡ true → is_zombie s ≡ false
unfolding is_live is_zombie
not_dead sleeping e = refl
not_dead runnable e = refl
not_dead running e = refl
not_dead unused e = cc
not_dead embryo e = cc
not_dead zombie e = cc

pub live_of : (s : ProcState) → (s ≡ sleeping) ⊎ (s ≡ runnable) ⊎ (s ≡ running) → is_live s ≡ true
unfolding is_live
live_of s (inl e) = rw e refl
live_of s (inr (inl e)) = rw e refl
live_of s (inr (inr e)) = rw e refl

-- The process `i`, whose entry is `p`, sleeps in `wait`.
pub record IsWaiting (i : ℕ) (p : Proc) : Type 0 where
  pub sleeps : p.state ≡ sleeping
  pub on_itself : p.chan ≡ some (of_proc i)

pub record IsFamily (procs : ℕ → Proc) (init : ℕ) : Type 0 where
  pub bounded :
      (i : ℕ) → nproc ≤ i → (is_live (procs i).state ≡ false) × (is_zombie (procs i).state ≡ false)
  pub init_live : is_live (procs init).state ≡ true
  pub init_root : (procs init).parent ≡ none
  pub free :
      (i : ℕ)
      → is_live (procs i).state ≡ false
      → is_zombie (procs i).state ≡ false
      → (procs i).parent ≡ none
  pub not_self : (i : ℕ) → (procs i).parent ≢ some i
  pub parents :
      (i : ℕ)
      → (is_live (procs i).state ≡ true) ⊎ (is_zombie (procs i).state ≡ true)
      → i ≢ init
      → (j : ℕ) × ((procs i).parent ≡ some j) × (is_live (procs j).state ≡ true)
  pub waiters :
      (i j : ℕ)
      → IsWaiting i (procs i)
      → (procs j).parent ≡ some i
      → is_zombie (procs j).state ≡ false

-- An entry that a step changes in nothing that families are about.
pub record IsLike (i : ℕ) (p r : Proc) : Type 0 where
  pub parent : r.parent ≡ p.parent
  pub live : is_live r.state ≡ is_live p.state
  pub dead : is_zombie r.state ≡ is_zombie p.state
  pub waits : IsWaiting i r → IsWaiting i p

pub IsLike-refl : (i : ℕ) (p : Proc) → IsLike i p p
IsLike-refl i p = record { parent = refl; live = refl; dead = refl; waits = λ w. w }

pub like-IsFamily :
    (procs rs : ℕ → Proc) (init : ℕ)
    → ((i : ℕ) → IsLike i (procs i) (rs i))
    → IsFamily procs init
    → IsFamily rs init
like-IsFamily procs rs init like is = record {
  bounded = λ i big. ((like i).live ∙ (is.bounded i big).0, (like i).dead ∙ (is.bounded i big).1);
  init_live = (like init).live ∙ is.init_live;
  init_root = (like init).parent ∙ is.init_root;
  free = λ i l d. (like i).parent ∙ is.free i (sym (like i).live ∙ l) (sym (like i).dead ∙ d);
  not_self = λ i e. is.not_self i (sym (like i).parent ∙ e);
  parents = λ i used ne.
      let used' : (is_live (procs i).state ≡ true) ⊎ (is_zombie (procs i).state ≡ true) =
        elim used [ inl l ↦ inl (sym (like i).live ∙ l) | inr d ↦ inr (sym (like i).dead ∙ d) ] in
      let (j, has_parent, alive) = is.parents i used' ne in
      (j, (like i).parent ∙ has_parent, (like j).live ∙ alive);
  waiters = λ i j w e. (like j).dead ∙ is.waiters i j ((like i).waits w) (sym (like j).parent ∙ e);
}

-- One entry is changed, and to one that is like it.
pub put-IsFamily :
    (procs : ℕ → Proc) (init k : ℕ) (r : Proc)
    → IsLike k (procs k) r
    → IsFamily procs init
    → IsFamily (put procs k r) init
put-IsFamily procs init k r like is =
    like-IsFamily procs (put procs k r) init
      (λ i. elim (ℕ_discrete i k) [
        | yes e ↦
            subst (λ x. IsLike x (procs x) (put procs k r x)) (sym e)
              (subst (IsLike k (procs k)) (sym (put-same procs k r)) like)
        | no ne ↦ subst (IsLike i (procs i)) (sym (put_ne procs k i r ne)) (IsLike-refl i (procs i))
      ])
      is

unfoldable pub asleep_depth : ProcState → ℕ
asleep_depth sleeping = 1
asleep_depth unused = 0
asleep_depth embryo = 0
asleep_depth runnable = 0
asleep_depth running = 0
asleep_depth zombie = 0

pub awake : (s : ProcState) → asleep_depth s ≡ 0 → s ≢ sleeping
unfolding asleep_depth
awake s z e = absurd (omega (arith, ap asleep_depth e, z))

-- the process on whose address the sleeper waits, plus one
waited_for : Option Channel → ℕ
waited_for none = 0
waited_for (some (of_proc i)) = suc i
waited_for (some (other c)) = 0

-- A live process that stays live, but does not wait if it did not.
pub live_change :
    (i : ℕ) (p : Proc) (s : ProcState) (c : Option Channel)
    → is_live p.state ≡ true
    → is_live s ≡ true
    → (IsWaiting i (record p { state = s; chan = c }) → IsWaiting i p)
    → IsLike i p (record p { state = s; chan = c })
live_change i p s c before after still = record {
  parent = refl;
  live = after ∙ sym before;
  dead = not_dead s after ∙ sym (not_dead p.state before);
  waits = still;
}

pub sleeping_of : (s : ProcState) → is_sleeping s ≡ true → s ≡ sleeping
unfolding is_sleeping
sleeping_of sleeping e = refl
sleeping_of unused e = cc
sleeping_of embryo e = cc
sleeping_of runnable e = cc
sleeping_of running e = cc
sleeping_of zombie e = cc

pub wake-IsLike : (i : ℕ) (c : Channel) (p : Proc) → IsLike i p (wake c p)
unfolding wake asleep_depth
wake-IsLike i c p = elim (Bool-cases (is_sleeping p.state && same_chan p.chan c)) [
  | inl woken ↦
      let was : p.state ≡ sleeping = sleeping_of p.state (ground (arith, woken)) in
      rw woken (
        live_change i p runnable p.chan (live_of _ (inl was)) (live_of _ (inr (inl refl)))
          (λ w. absurd (awake runnable refl w.sleeps)))
  | inr still ↦ rw still (IsLike-refl i p)
]

pub dispatch-IsFamily :
    (t : Table) (i : ℕ)
    → (t.procs i).state ≡ runnable
    → IsFamily t.procs t.initproc
    → IsFamily (dispatch t i).procs t.initproc
unfolding dispatch asleep_depth
dispatch-IsFamily t i at is =
    put-IsFamily t.procs t.initproc i _
      (live_change i (t.procs i) running (t.procs i).chan (live_of _ (inr (inl at)))
        (live_of _ (inr (inr refl))) (λ w. absurd (awake running refl w.sleeps)))
      is

pub yield-IsFamily :
    (t : Table) (i : ℕ)
    → (t.procs i).state ≡ running
    → IsFamily t.procs t.initproc
    → IsFamily (yield t i).procs t.initproc
unfolding yield asleep_depth
yield-IsFamily t i at is =
    put-IsFamily t.procs t.initproc i _
      (live_change i (t.procs i) runnable (t.procs i).chan (live_of _ (inr (inr at)))
        (live_of _ (inr (inl refl))) (λ w. absurd (awake runnable refl w.sleeps)))
      is

pub sleep-IsFamily :
    (t : Table) (i c : ℕ)
    → (t.procs i).state ≡ running
    → IsFamily t.procs t.initproc
    → IsFamily (sleep t i (other c)).procs t.initproc
unfolding sleep waited_for
sleep-IsFamily t i c at is =
    put-IsFamily t.procs t.initproc i _
      (live_change i (t.procs i) sleeping (some (other c)) (live_of _ (inr (inr at)))
        (live_of _ (inl refl)) (λ w. absurd (omega (arith, ap waited_for w.on_itself))))
      is

pub tidy_up-IsFamily :
    (t : Table) (i : ℕ)
    → (t.procs i).state ≡ running
    → IsFamily t.procs t.initproc
    → IsFamily (tidy_up t i).procs t.initproc
unfolding tidy_up waited_for
tidy_up-IsFamily t i at is =
    put-IsFamily t.procs t.initproc i _
      (live_change i (t.procs i) (t.procs i).state none (live_of _ (inr (inr at)))
        (live_of _ (inr (inr at))) (λ w. absurd (omega (arith, ap waited_for w.on_itself))))
      is

kill_proc-IsLike : (i : ℕ) (p : Proc) → IsLike i p (kill_proc p)
unfolding kill_proc asleep_depth
kill_proc-IsLike i p = elim (Bool-cases (is_sleeping p.state)) [
  | inl woken ↦
      let was : p.state ≡ sleeping = sleeping_of p.state woken in
      let same =
        live_change i p runnable p.chan (live_of _ (inl was)) (live_of _ (inr (inl refl)))
          (λ w. absurd (awake runnable refl w.sleeps)) in
      rw woken (record {
        parent = refl;
        live = same.live;
        dead = same.dead;
        waits = λ w. absurd (awake runnable refl w.sleeps);
      })
  | inr still ↦ rw still (record {
    parent = refl;
    live = refl;
    dead = refl;
    waits = λ w. record { sleeps = w.sleeps; on_itself = w.on_itself };
  })
]

pub kill-IsFamily :
    (t : Table) (pid : ℕ)
    → IsFamily t.procs t.initproc
    → IsFamily (kill t pid).0.procs (kill t pid).0.initproc
unfolding kill
kill-IsFamily t pid is = elim (Option-cases (find_proc (λ p. p.pid == pid) t.procs nproc 0)) [
  | inl e ↦ rw (e, kill) is
  | inr (i, e) ↦
      rw (e, kill) (put-IsFamily t.procs t.initproc i _ (kill_proc-IsLike i (t.procs i)) is)
]

pub wakeup-IsFamily :
    (t : Table) (c : Channel) → IsFamily t.procs t.initproc → IsFamily (wakeup t c).procs t.initproc
unfolding wakeup wakeup1
wakeup-IsFamily t c is = like-IsFamily t.procs _ t.initproc (λ i. wake-IsLike i c (t.procs i)) is
