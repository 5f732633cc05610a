-- ===== src/ProcTable/Listing.antt =====
-- What cps lists.
use public_systems_projects.Base.{
  ℕ, zero, suc, ◌+◌, ◌≡◌, refl, ap, Bool, true, false, if◌then◌else◌, List, [], ◌∷◌, ◌++◌, map, pos,
}
use public_systems_projects.ProcTable.{
  nproc, ProcState, unused, embryo, sleeping, runnable, running, zombie, Proc, Table, Row, cps_row,
  cps_loop, cps,
}
use public_systems_projects.ProcTable.Steps.{is_live}

-- the entries of the table from `i` on
unfoldable pub entries : (ℕ → Proc) → (n i : ℕ) → List Proc
entries procs zero i = []
entries procs (suc n) i = procs i ∷ entries procs n (i + 1)

-- those of them that are live
unfoldable pub live_only : List Proc → List Proc
live_only [] = []
live_only (p ∷ ps) = let rest = live_only ps in if is_live p.state then p ∷ rest else rest

unfoldable pub row_of : Proc → Row
row_of p = record { name = p.name; pid = p.pid; state = p.state; priority = p.priority }

cps_row_lem :
    (s : ProcState) (p : Proc) → p.state ≡ s → cps_row p ≡ (if is_live s then row_of p ∷ [] else [])
unfolding cps_row is_live row_of
cps_row_lem unused p e = rw e refl
cps_row_lem embryo p e = rw e refl
cps_row_lem sleeping p e = rw e refl
cps_row_lem runnable p e = rw e refl
cps_row_lem running p e = rw e refl
cps_row_lem zombie p e = rw e refl

cons_row :
    (b : Bool) (p : Proc) (ps : List Proc)
    → (if b then row_of p ∷ [] else []) ++ map row_of ps ≡ map row_of (if b then p ∷ ps else ps)
cons_row true p ps = refl
cons_row false p ps = refl

cps_loop_lem :
    (procs : ℕ → Proc) (n i : ℕ) → cps_loop procs n i ≡ map row_of (live_only (entries procs n i))
unfolding cps_loop live_only entries
cps_loop_lem procs zero i = refl
cps_loop_lem procs (suc n) i = rw (cps_row_lem (procs i).state (procs i) refl) (
    rw (cps_loop_lem procs n (i + 1))
      (cons_row (is_live (procs i).state) (procs i) (live_only (entries procs n (i + 1)))))

-- cps lists the processes that are sleeping, runnable or running, in the order of the table and each with
-- what its entry holds, and returns 22.
pub cps_lem : (t : Table) → cps t ≡ (map row_of (live_only (entries t.procs nproc 0)), pos 22)
unfolding cps
cps_lem t = ap (λ rows. (rows, pos 22)) (cps_loop_lem t.procs nproc 0)
