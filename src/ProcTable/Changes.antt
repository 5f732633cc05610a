-- ===== src/ProcTable/Changes.antt =====
-- The entry of a process that is not live changes: it is taken by a child, or given back.
use mathlib.Core.Path.{subst}
use native.Mathlib.Decide.{ℕ_discrete}
use public_systems_projects.Base.{
  ℕ, ◌<◌, ◌≡◌, ◌≢◌, ◌⊎◌, inl, inr, refl, sym, ap, ◌∙◌, true, false, none, some, some_inj, put,
  put-same, put_ne, arith,
}
use public_systems_projects.ProcTable.{nproc, ProcState, unused, sleeping, Proc, is_zombie}
use public_systems_projects.ProcTable.Steps.{is_live}
use public_systems_projects.ProcTable.Families.{IsWaiting, IsFamily, IsLike, awake, asleep_depth}

pub unused_idle : (s : ProcState) → s ≡ unused → (is_live s ≡ false) × (is_zombie s ≡ false)
unfolding is_live is_zombie
unused_idle s e = rw e (refl, refl)

-- An unused entry may change in what families are not about.
pub idle-IsLike :
    (i : ℕ) (p r : Proc) → p.state ≡ unused → r.state ≡ unused → r.parent ≡ p.parent → IsLike i p r
unfolding asleep_depth
idle-IsLike i p r before after parent = record {
  parent = parent;
  live = ap is_live (after ∙ sym before);
  dead = ap is_zombie (after ∙ sym before);
  waits = λ w. absurd (awake unused refl (sym after ∙ w.sleeps));
}

-- The entry of a process that is not live changes, to one that is no zombie.
module _ (procs : ℕ → Proc) (init i : ℕ) (r : Proc) (is : IsFamily procs init) (less : i < nproc)
    (dead : is_live (procs i).state ≡ false) (no_zombie : is_zombie r.state ≡ false)
    (calm : r.state ≢ sleeping)
    (line : ((is_live r.state ≡ false) × (r.parent ≡ none))
      ⊎ ((j : ℕ) × (r.parent ≡ some j)
          × (is_live (procs j).state ≡ true)
          × (is_live r.state ≡ true))) where
  live_away : (j : ℕ) → is_live (procs j).state ≡ true → j ≢ i
  live_away j alive e = absurd (ground (arith, dead, alive, ap (λ k. is_live (procs k).state) e))

  here : put procs i r i ≡ r
  here = put-same procs i r

  away : (j : ℕ) → j ≢ i → put procs i r j ≡ procs j
  away j ne = put_ne procs i j r ne

  away_live : (j : ℕ) → is_live (procs j).state ≡ true → is_live (put procs i r j).state ≡ true
  away_live j alive = ap (λ (p : Proc). is_live p.state) (away j (live_away j alive)) ∙ alive

  at_or_away : (j : ℕ) → ((j ≡ i) × (put procs i r j ≡ r)) ⊎ ((j ≢ i) × (put procs i r j ≡ procs j))
  at_or_away j = elim (ℕ_discrete j i) [
    | yes e ↦ inl (e, ap (put procs i r) e ∙ here)
    | no ne ↦ inr (ne, away j ne)
  ]

  one_parents :
      (k : ℕ)
      → (is_live (put procs i r k).state ≡ true) ⊎ (is_zombie (put procs i r k).state ≡ true)
      → k ≢ init
      → (j : ℕ) × ((put procs i r k).parent ≡ some j) × (is_live (put procs i r j).state ≡ true)
  one_parents k used far = elim (at_or_away k) [
    | inl (_, e) ↦ elim line [
      | inl (idle, _) ↦ absurd (
          ground (
            arith,
            idle,
            no_zombie,
            used,
            ap (λ (p : Proc). is_live p.state) e,
            ap (λ (p : Proc). is_zombie p.state) e,
          ))
      | inr (j, has_parent, alive, _) ↦
          (j, ap (λ (p : Proc). p.parent) e ∙ has_parent, away_live j alive)
    ]
    | inr (_, e) ↦
        let used' : (is_live (procs k).state ≡ true) ⊎ (is_zombie (procs k).state ≡ true) =
          subst (λ (p : Proc). (is_live p.state ≡ true) ⊎ (is_zombie p.state ≡ true)) e used in
        let (j, has_parent, alive) = is.parents k used' far in
        (j, ap (λ (p : Proc). p.parent) e ∙ has_parent, away_live j alive)
  ]

  one_waiters :
      (k j : ℕ)
      → IsWaiting k (put procs i r k)
      → (put procs i r j).parent ≡ some k
      → is_zombie (put procs i r j).state ≡ false
  one_waiters k j w child = elim (at_or_away j) [
    | inl (_, e) ↦ ap (λ (p : Proc). is_zombie p.state) e ∙ no_zombie
    | inr (_, e) ↦ elim (at_or_away k) [
      | inl (_, e') ↦ absurd (calm (sym (ap (λ (p : Proc). p.state) e') ∙ w.sleeps))
      | inr (_, e') ↦
          ap (λ (p : Proc). is_zombie p.state) e
          ∙ is.waiters k j (subst (IsWaiting k) e' w) (sym (ap (λ (p : Proc). p.parent) e) ∙ child)
    ]
  ]

  one_free :
      (k : ℕ)
      → is_live (put procs i r k).state ≡ false
      → is_zombie (put procs i r k).state ≡ false
      → (put procs i r k).parent ≡ none
  one_free k l d = elim (at_or_away k) [
    | inl (_, e) ↦ elim line [
      | inl (_, orphan) ↦ ap (λ (p : Proc). p.parent) e ∙ orphan
      | inr (_, _, _, lives) ↦
          absurd (ground (arith, l, lives, ap (λ (p : Proc). is_live p.state) e))
    ]
    | inr (_, e) ↦
        ap (λ (p : Proc). p.parent) e
        ∙ is.free k (sym (ap (λ (p : Proc). is_live p.state) e) ∙ l)
            (sym (ap (λ (p : Proc). is_zombie p.state) e) ∙ d)
  ]

  one_not_self : (k : ℕ) → (put procs i r k).parent ≢ some k
  one_not_self k own = elim (at_or_away k) [
    | inl (at, e) ↦
        let own' : r.parent ≡ some k = sym (ap (λ (p : Proc). p.parent) e) ∙ own in
        elim line [
          | inl (_, orphan) ↦ absurd (ground (arith, own', orphan))
          | inr (j, has_parent, alive, _) ↦
              live_away j alive (some_inj (sym has_parent ∙ own') ∙ at)
        ]
    | inr (_, e) ↦ is.not_self k (sym (ap (λ (p : Proc). p.parent) e) ∙ own)
  ]

  pub one-IsFamily : IsFamily (put procs i r) init
  one-IsFamily = record {
    bounded = λ k big.
        let e = away k (λ e. absurd (omega (arith, less, e))) in
        (
          ap (λ (p : Proc). is_live p.state) e ∙ (is.bounded k big).0,
          ap (λ (p : Proc). is_zombie p.state) e ∙ (is.bounded k big).1,
        );
    init_live = away_live init is.init_live;
    init_root =
        ap (λ (p : Proc). p.parent) (away init (live_away init is.init_live)) ∙ is.init_root;
    free = λ k l d. one_free k l d;
    not_self = λ k own. one_not_self k own;
    parents = λ k used far. one_parents k used far;
    waiters = λ k j w child. one_waiters k j w child;
  }
