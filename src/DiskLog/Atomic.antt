-- ===== src/DiskLog/Atomic.antt =====
-- The log implements a store whose groups of writes are atomic: a crash gives back the contents at the end
-- of a group.
use mathlib.Core.Path.{subst}
use public_systems_projects.Base.{
  ℕ, ◌+◌, ◌*◌, ◌-◌, ◌<◌, ◌≡◌, inl, inr, refl, sym, ◌∙◌, List, [], length, ret, arith,
}
use public_systems_projects.DiskLog.{Block, Disk, Machine, bread, boot, initlog, end_op}
use public_systems_projects.DiskLog.Recovery.{
  has, IsHome, AllHome, Holds, restarts, restarts-Holds, restarts_end, home_right,
}
use public_systems_projects.DiskLog.Clean.{IsCleanBut, initlog-clean, commit-clean}
use public_systems_projects.DiskLog.Commit.{IsQuiet, empty-Holds, logged-agree, commit_lem}
use public_systems_projects.DiskLog.Store.{
  Step, begins, writes, ends, crashes, crashes_in_end, Store, StoreStep, commits, loses, keeps,
  Matches, Answers, closed, end_op_inv,
}
use public_systems_projects.DiskLog.Calls.{begins-Matches, writes-Matches}

-- A machine with an empty log whose cache is as the disk stands for the contents that the disk stands for.
settled-Matches :
    (start size : ℕ) (t : Machine) (a : Store)
    → 0 < size
    → t.start ≡ start
    → t.size ≡ size
    → t.outstanding ≡ a.under_way
    → t.committing ≡ 0
    → t.lh ≡ []
    → t.disk.header ≡ []
    → IsCleanBut [] t
    → Holds start size t.disk a.stable
    → ((x : ℕ) → IsHome start size x → a.stable x ≡ a.current x)
    → Matches t a
unfolding AllHome has
settled-Matches start size t a room at_start of_size counted idle no_list empty clean holds same =
    let home : (x : ℕ) → IsHome t.start t.size x → IsHome start size x =
      λ x at. subst (λ s. IsHome s size x) at_start (subst (λ n. IsHome t.start n x) of_size at) in
    record {
      quiet = record {
        empty = empty;
        homes = rw no_list tt;
        fits = rw no_list (omega (arith, room, of_size));
        clean = λ x out. clean x refl;
      };
      counted = counted;
      not_committing = idle;
      stable = λ x at. home_right start size a.stable t.disk x holds empty (home x at);
      current = λ x at.
          clean x refl
          ∙ home_right start size a.stable t.disk x holds empty (home x at)
          ∙ same x (home x at);
    }

closed-IsQuiet :
    (m : Machine) (power : ℕ) → IsQuiet m → IsQuiet (closed (record m { power = power }))
unfolding bread
closed-IsQuiet m power quiet = record {
  empty = quiet.empty;
  homes = quiet.homes;
  fits = quiet.fits;
  clean = quiet.clean;
}

-- What a disk stands for is known up to the addresses of the log.
Holds-agree :
    (start size : ℕ) (d : Disk) (u v : ℕ → Block)
    → ((x : ℕ) → IsHome start size x → u x ≡ v x)
    → Holds start size d u
    → Holds start size d v
Holds-agree start size d u v same holds = record {
  homes = holds.homes;
  fits = holds.fits;
  logged = logged-agree start size d.blocks 0 d.header u v holds.homes same holds.logged;
  rest = λ x at out. holds.rest x at out ∙ same x at;
}

ends-Matches :
    (m m' : Machine) (a : Store)
    → Matches m a
    → end_op (record m { power = 2 * length m.lh + 2 }) ≡ ret m'
    → Answers a m'
unfolding Answers bread
ends-Matches m m' a ok e =
    let m1 = record m { power = 2 * length m.lh + 2 } in
    elim (end_op_inv m1 m' e) [
      | inl (last, is) ↦
          let quiet = closed-IsQuiet m (2 * length m.lh + 2) ok.quiet in
          let (held, empty) = (commit_lem (closed m1) quiet).1 (omega arith) in
          let (clean, same, no_list) = commit-clean (closed m1) (omega arith) quiet.clean in
          let a' : Store = record a { stable = a.current; under_way = 0 } in
          rw is (
            a',
            commits (omega (arith, ok.counted, last)),
            settled-Matches m.start m.size _ a' (omega (arith, ok.quiet.fits)) same.start same.size
                (omega (arith, same.outstanding, last)) refl no_list empty (λ x out. clean x out)
                (Holds-agree m.start m.size _ (bread (closed m1)) a.current ok.current held)
                (λ x at. refl),
          )
      | inr (more, is) ↦ rw is (
        record a { under_way = a.under_way - 1 },
        ends (omega (arith, ok.counted, more)),
        record {
          quiet = record {
            empty = ok.quiet.empty;
            homes = ok.quiet.homes;
            fits = ok.quiet.fits;
            clean = ok.quiet.clean;
          };
          counted = omega (arith, ok.counted);
          not_committing = ok.not_committing;
          stable = ok.stable;
          current = ok.current;
        },
      )
    ]

restart-Matches :
    (start size : ℕ) (powers : List ℕ) (d : Disk) (a : Store)
    → Holds start size d a.stable
    → a.under_way ≡ 0
    → ((x : ℕ) → IsHome start size x → a.stable x ≡ a.current x)
    → Matches (initlog start size size (restarts start size powers d)) a
unfolding boot
restart-Matches start size powers d a holds none_left same =
    let mid = restarts-Holds start size a.stable powers d holds in
    let (held, empty) = restarts_end start size a.stable powers size d holds (omega arith) in
    let (clean, parts, no_list) =
      initlog-clean start size size (restarts start size powers d) (omega (arith, mid.fits)) in
    settled-Matches start size _ a (omega (arith, holds.fits)) parts.start parts.size
      (parts.outstanding ∙ sym none_left) parts.committing no_list empty clean held same

-- The disk between two operations stands for what is stable.
stable-Holds : (m : Machine) (a : Store) → Matches m a → Holds m.start m.size m.disk a.stable
stable-Holds m a ok =
    empty-Holds m.start m.size m.disk a.stable (omega (arith, ok.quiet.fits)) ok.quiet.empty
      ok.stable

loses-Matches :
    (m : Machine) (a : Store) (powers : List ℕ) (d : Disk)
    → Holds m.start m.size d a.stable
    → Answers a (initlog m.start m.size m.size (restarts m.start m.size powers d))
unfolding Answers
loses-Matches m a powers d holds =
    let a' : Store = record a { current = a.stable; under_way = 0 } in
    (a', loses, restart-Matches m.start m.size powers d a' holds refl (λ x at. refl))

crashes_in_end-Matches :
    (m t : Machine) (a : Store) (power : ℕ) (powers : List ℕ)
    → Matches m a
    → end_op (record m { power = power }) ≡ ret t
    → Answers a (initlog m.start m.size m.size (restarts m.start m.size powers t.disk))
unfolding Answers bread
crashes_in_end-Matches m t a power powers ok e =
    let m1 = record m { power = power } in
    elim (end_op_inv m1 t e) [
      | inl (last, is) ↦
          let a' : Store = record a { stable = a.current; under_way = 0 } in
          rw is (elim (commit_lem (closed m1) (closed-IsQuiet m power ok.quiet)).0 [
            | inl old ↦
                loses-Matches m a powers _
                  (Holds-agree m.start m.size _ m.disk.blocks a.stable ok.stable old)
            | inr new ↦ (
              a',
              keeps (omega (arith, ok.counted, last)),
              restart-Matches m.start m.size powers _ a'
                  (Holds-agree m.start m.size _ (bread (closed m1)) a.current ok.current new) refl
                  (λ x at. refl),
            )
          ])
      | inr (more, is) ↦ rw is (loses-Matches m a powers m.disk (stable-Holds m a ok))
    ]

-- Every step of the machine, a crash at any write of a commit or of recovery included, answers to a step of
-- a store in which calls under way see their writes at once and the writes become stable all together, when
-- the last call under way ends; a crash leaves what is stable, or, while the last call ends, what was
-- current.
pub Step-Matches :
    (m m' : Machine) (a : Store)
    → Matches m a
    → Step m m'
    → (a' : Store) × StoreStep a a' × Matches m' a'
unfolding Answers
Step-Matches m m' a ok (begins _ e) = begins-Matches m m' a ok e
Step-Matches m m' a ok (writes b c _ home e) = writes-Matches m m' a b c ok home e
Step-Matches m m' a ok (ends _ e) = ends-Matches m m' a ok e
Step-Matches m _ a ok (crashes powers) = loses-Matches m a powers m.disk (stable-Holds m a ok)
Step-Matches m _ a ok (crashes_in_end power t powers e) =
    crashes_in_end-Matches m t a power powers ok e
