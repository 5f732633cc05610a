-- ===== src/ProcTable/Exits.antt =====
-- exit passes the children on, and wakes who waits for a zombie.
use mathlib.Core.Path.{subst}
use native.Mathlib.Decide.{ℕ_discrete}
use public_systems_projects.Base.{
  ℕ, zero, suc, ◌+◌, ◌≤◌, ◌<◌, ◌≡◌, ◌≢◌, inl, inr, refl, sym, ap, ◌∙◌, true, ◌&&◌, ◌==◌,
  if◌then◌else◌, ltb, leb, Bool-cases, Option, some, put, put-same, put_ne, arith,
}
use public_systems_projects.ProcTable.{
  runnable, Channel, of_proc, Proc, is_zombie, is_sleeping, same_proc, same_chan, wake, wakeup1,
  pass_children,
}
use public_systems_projects.ProcTable.Steps.{is_live}
use public_systems_projects.ProcTable.Families.{
  IsWaiting, IsLike, IsLike-refl, wake-IsLike, awake, asleep_depth,
}

-- As `IsLike`, but for the parent.
pub record IsSofter (i : ℕ) (p r : Proc) : Type 0 where
  pub live : is_live r.state ≡ is_live p.state
  pub dead : is_zombie r.state ≡ is_zombie p.state
  pub waits : IsWaiting i r → IsWaiting i p

pub IsSofter-trans : (i : ℕ) (p q r : Proc) → IsSofter i p q → IsSofter i q r → IsSofter i p r
IsSofter-trans i p q r a b = record {
  live = b.live ∙ a.live;
  dead = b.dead ∙ a.dead;
  waits = λ w. a.waits (b.waits w);
}

pub IsSofter-of : (i : ℕ) (p r : Proc) → IsLike i p r → IsSofter i p r
IsSofter-of i p r like = record { live = like.live; dead = like.dead; waits = like.waits }

same_chan_refl :
    (i : ℕ) (c : Option Channel) → c ≡ some (of_proc i) → same_chan c (of_proc i) ≡ true
unfolding same_chan
same_chan_refl i c e = rw e (ground arith)

-- A process that is woken on its own address does not wait.
pub wake-IsWaiting : (i : ℕ) (p : Proc) → ¬ IsWaiting i (wake (of_proc i) p)
unfolding wake asleep_depth is_sleeping
wake-IsWaiting i p w = elim (Bool-cases (is_sleeping p.state && same_chan p.chan (of_proc i))) [
  | inl woken ↦ awake runnable refl (rw woken at (w.sleeps))
  | inr still ↦
      let asleep' : is_sleeping p.state ≡ true = ap is_sleeping (rw still at (w.sleeps)) in
      let here = same_chan_refl i p.chan (rw still at (w.on_itself)) in
      ground (arith, still, asleep', here)
]

-- what becomes of a parent
unfoldable pub reparent : (cur init : ℕ) → Option ℕ → Option ℕ
reparent cur init parent = if same_proc parent cur then some init else parent

module _ (cur init : ℕ) where
  -- the entry `i` with its new parent
  abbrev passed : ℕ → (ℕ → Proc) → ℕ → Proc
  passed i procs = put procs i (record (procs i) { parent = some init })

  -- the loop of `exit` at the entry `i`
  abbrev pass : ℕ → (ℕ → Proc) → ℕ → Proc
  pass i procs =
      let woken =
        if is_zombie (procs i).state
        then wakeup1 (of_proc init) (passed i procs)
        else passed i procs in
      if same_proc (procs i).parent cur then woken else procs

  passed-IsSofter : (i : ℕ) (procs : ℕ → Proc) (j : ℕ) → IsSofter j (procs j) (passed i procs j)
  passed-IsSofter i procs j =
      let same : IsSofter i (procs i) (record (procs i) { parent = some init }) = record {
        live = refl;
        dead = refl;
        waits = λ w. record { sleeps = w.sleeps; on_itself = w.on_itself };
      } in
      elim (ℕ_discrete j i) [
        | yes e ↦
            subst (λ x. IsSofter x (procs x) (passed i procs x)) (sym e)
              (subst (IsSofter i (procs i)) (sym (put-same procs i _)) same)
        | no ne ↦
            subst (IsSofter j (procs j)) (sym (put_ne procs i j _ ne))
              (IsSofter-of j _ _ (IsLike-refl j (procs j)))
      ]

  pass-IsSofter : (i : ℕ) (procs : ℕ → Proc) (j : ℕ) → IsSofter j (procs j) (pass i procs j)
  unfolding wakeup1
  pass-IsSofter i procs j = elim (Bool-cases (same_proc (procs i).parent cur)) [
    | inr not_mine ↦ rw not_mine (IsSofter-of j _ _ (IsLike-refl j (procs j)))
    | inl mine ↦ elim (Bool-cases (is_zombie (procs i).state)) [
      | inr alive ↦ rw (mine, alive) (passed-IsSofter i procs j)
      | inl dead ↦
          rw (mine, dead)
            (IsSofter-trans j (procs j) (passed i procs j) _ (passed-IsSofter i procs j)
              (IsSofter-of j _ _ (wake-IsLike j (of_proc init) (passed i procs j))))
    ]
  ]

  passed_parent :
      (i : ℕ) (procs : ℕ → Proc) (j : ℕ)
      → (passed i procs j).parent ≡ (if j == i then some init else (procs j).parent)
  unfolding put
  passed_parent i procs j = ground arith

  pass_parent :
      (i : ℕ) (procs : ℕ → Proc) (j : ℕ)
      → (pass i procs j).parent
        ≡ (if j == i then reparent cur init (procs j).parent else (procs j).parent)
  unfolding reparent wakeup1
  pass_parent i procs j =
      let back : j ≡ i → (procs j).parent ≡ (procs i).parent = λ e. ap (λ k. (procs k).parent) e in
      elim (Bool-cases (same_proc (procs i).parent cur)) [
        | inr not_mine ↦ rw not_mine (ground (arith, back, not_mine))
        | inl mine ↦ elim (Bool-cases (is_zombie (procs i).state)) [
          | inr alive ↦ rw (mine, alive) (passed_parent i procs j ∙ ground (arith, back, mine))
          | inl dead ↦
              rw (mine, dead)
                ((wake-IsLike j (of_proc init) (passed i procs j)).parent
                  ∙ passed_parent i procs j
                  ∙ ground (arith, back, mine))
        ]
      ]

  -- What the loop leaves of the entry `j`.
  pub pass_children_parent :
      (n i : ℕ) (procs : ℕ → Proc) (j : ℕ)
      → init ≢ cur
      → (pass_children cur init n i procs j).parent ≡ (
          if leb i j && ltb j (i + n) then reparent cur init (procs j).parent else (procs j).parent)
  unfolding pass_children
  pass_children_parent zero i procs j ne = ground arith
  pass_children_parent (suc n) i procs j ne =
      pass_children_parent n (i + 1) (pass i procs) j ne ∙ rw (pass_parent i procs j) (ground arith)

  pub pass_children-IsSofter :
      (n i : ℕ) (procs : ℕ → Proc) (j : ℕ)
      → IsSofter j (procs j) (pass_children cur init n i procs j)
  unfolding pass_children
  pass_children-IsSofter zero i procs j = IsSofter-of j _ _ (IsLike-refl j (procs j))
  pass_children-IsSofter (suc n) i procs j =
      IsSofter-trans j (procs j) (pass i procs j) _ (pass-IsSofter i procs j)
        (pass_children-IsSofter n (i + 1) (pass i procs) j)

  pass_dead :
      (i : ℕ) (procs : ℕ → Proc)
      → (procs i).parent ≡ some cur
      → is_zombie (procs i).state ≡ true
      → pass i procs init ≡ wake (of_proc init) (passed i procs init)
  unfolding wakeup1 same_proc
  pass_dead i procs child dead =
      let mine : same_proc (procs i).parent cur ≡ true = rw child (ground arith) in
      rw (mine, dead) refl

  -- Where a zombie is passed on, `init` does not wait.
  pub pass_children_wakes :
      (n i : ℕ) (procs : ℕ → Proc) (k : ℕ)
      → i ≤ k
      → k < i + n
      → (procs k).parent ≡ some cur
      → is_zombie (procs k).state ≡ true
      → ¬ IsWaiting init (pass_children cur init n i procs init)
  unfolding pass_children
  pass_children_wakes zero i procs k low high child dead w = absurd (omega arith)
  pass_children_wakes (suc n) i procs k low high child dead w = elim (ℕ_discrete k i) [
    | yes here ↦
        let child' : (procs i).parent ≡ some cur = ap (λ x. (procs x).parent) (sym here) ∙ child in
        let dead' : is_zombie (procs i).state ≡ true =
          ap (λ x. is_zombie (procs x).state) (sym here) ∙ dead in
        wake-IsWaiting init (passed i procs init) (
          subst (IsWaiting init) (pass_dead i procs child' dead')
            ((pass_children-IsSofter n (i + 1) (pass i procs) init).waits w))
    | no further ↦
        pass_children_wakes n (i + 1) (pass i procs) k (omega arith) (omega arith)
          (pass_parent i procs k ∙ ground (arith, child)) ((pass-IsSofter i procs k).dead ∙ dead) w
  ]
