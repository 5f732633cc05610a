-- ===== src/DiskLog/Clean.antt =====
-- The cache and the disk after the loops of the log.
use mathlib.Core.Path.{subst}
use public_systems_projects.Base.{
  put, ℕ, ◌+◌, ◌-◌, ◌≤◌, ◌<◌, ◌≡◌, refl, ap, ◌∙◌, false, ltb, Bool-cases, inl, inr, List, [], ◌∷◌,
  length, arith,
}
use public_systems_projects.DiskLog.{
  Block, Disk, Machine, bread, bwrite, install_loop, install_trans, read_head, write_head,
  recover_from_log, boot, initlog, write_loop, write_log, commit, commit_rest,
}
use public_systems_projects.DiskLog.Recovery.{has}

-- The cache differs from the disk at no block but those of the list.
abbrev pub IsCleanBut : List ℕ → Machine → Type 0
IsCleanBut dirty m = (x : ℕ) → has x dirty ≡ false → bread m x ≡ m.disk.blocks x

-- The parts of a machine that disk writes leave.
pub record SameParts (m r : Machine) : Type 0 where
  pub start : r.start ≡ m.start
  pub size : r.size ≡ m.size
  pub outstanding : r.outstanding ≡ m.outstanding
  pub committing : r.committing ≡ m.committing

bwrite-IsCleanBut :
    (dirty : List ℕ) (m : Machine) (n : ℕ) (c : Block)
    → 0 < m.power
    → IsCleanBut (n ∷ dirty) m
    → IsCleanBut dirty (bwrite m n c)
unfolding has bwrite bread put
bwrite-IsCleanBut dirty m n c on clean x out = ground (arith, clean x)

weaken : (dirty : List ℕ) (m : Machine) (n : ℕ) → IsCleanBut dirty m → IsCleanBut (n ∷ dirty) m
unfolding has
weaken dirty m n clean x out = clean x (ground (arith, out))

write_loop-IsCleanBut :
    (tail : ℕ) (bs dirty : List ℕ) (m : Machine)
    → length bs ≤ m.power
    → IsCleanBut dirty m
    → IsCleanBut dirty (write_loop tail bs m)
unfolding write_loop bwrite
write_loop-IsCleanBut tail [] dirty m enough clean = clean
write_loop-IsCleanBut tail (b ∷ bs) dirty m enough clean =
    let at = m.start + tail + 1 in
    write_loop-IsCleanBut (tail + 1) bs dirty (bwrite m at (bread m b)) (omega arith)
      (bwrite-IsCleanBut dirty m at (bread m b) (omega arith) (weaken dirty m at clean))

install_loop-IsCleanBut :
    (tail : ℕ) (bs : List ℕ) (m : Machine)
    → length bs ≤ m.power
    → IsCleanBut bs m
    → IsCleanBut [] (install_loop tail bs m)
unfolding install_loop bwrite
install_loop-IsCleanBut tail [] m enough clean = clean
install_loop-IsCleanBut tail (b ∷ bs) m enough clean =
    install_loop-IsCleanBut (tail + 1) bs (bwrite m b (bread m (m.start + tail + 1))) (omega arith)
      (bwrite-IsCleanBut bs m b (bread m (m.start + tail + 1)) (omega arith) clean)

bwrite-SameParts : (m r : Machine) (n : ℕ) (c : Block) → SameParts (bwrite m n c) r → SameParts m r
unfolding bwrite
bwrite-SameParts m r n c same = record {
  start = same.start;
  size = same.size;
  outstanding = same.outstanding;
  committing = same.committing;
}

write_loop-SameParts : (tail : ℕ) (bs : List ℕ) (m : Machine) → SameParts m (write_loop tail bs m)
unfolding write_loop
write_loop-SameParts tail [] m = record {
  start = refl;
  size = refl;
  outstanding = refl;
  committing = refl;
}
write_loop-SameParts tail (b ∷ bs) m =
    bwrite-SameParts m _ (m.start + tail + 1) (bread m b)
      (write_loop-SameParts (tail + 1) bs (bwrite m (m.start + tail + 1) (bread m b)))

install_loop-SameParts :
    (tail : ℕ) (bs : List ℕ) (m : Machine) → SameParts m (install_loop tail bs m)
unfolding install_loop
install_loop-SameParts tail [] m = record {
  start = refl;
  size = refl;
  outstanding = refl;
  committing = refl;
}
install_loop-SameParts tail (b ∷ bs) m =
    bwrite-SameParts m _ b (bread m (m.start + tail + 1))
      (install_loop-SameParts (tail + 1) bs (bwrite m b (bread m (m.start + tail + 1))))

write_loop-lh :
    (tail : ℕ) (bs : List ℕ) (m : Machine)
    → ((write_loop tail bs m).lh ≡ m.lh) × ((write_loop tail bs m).power ≡ m.power - length bs)
unfolding write_loop bwrite
write_loop-lh tail [] m = (refl, omega arith)
write_loop-lh tail (b ∷ bs) m =
    let (same, left) = write_loop-lh (tail + 1) bs (bwrite m (m.start + tail + 1) (bread m b)) in
    (same, omega (arith, left))

-- A start that is granted enough writes leaves the cache as the disk.
pub initlog-clean :
    (start size power : ℕ) (d : Disk)
    → length d.header ≤ power
    → IsCleanBut [] (initlog start size power d)
      × SameParts (boot start size power d) (initlog start size power d)
      × ((initlog start size power d).lh ≡ [])
unfolding initlog recover_from_log read_head install_trans write_head boot bread
initlog-clean start size power d enough =
    let m : Machine = record (boot start size power d) { lh = d.header } in
    let same = install_loop-SameParts 0 d.header m in
    (
      install_loop-IsCleanBut 0 d.header m enough (λ x out. refl),
      record {
        start = same.start;
        size = same.size;
        outstanding = same.outstanding;
        committing = same.committing;
      },
      refl,
    )

commit_rest-lh : (m : Machine) → (commit_rest m).lh ≡ []
unfolding commit_rest write_head
commit_rest-lh m = refl

-- So does `commit`.
commit_rest-clean :
    (m : Machine)
    → length m.lh + 1 + length m.lh ≤ m.power
    → IsCleanBut m.lh m
    → IsCleanBut [] (commit_rest (write_log m)) × SameParts m (commit_rest (write_log m))
unfolding commit_rest write_log install_trans write_head bread
commit_rest-clean m enough clean =
    let w = write_loop 0 m.lh m in
    let h = write_head w in
    let (lh, left) = write_loop-lh 0 m.lh m in
    let before = write_loop-SameParts 0 m.lh m in
    let after = install_loop-SameParts 0 w.lh h in
    let same_length : length w.lh ≡ length m.lh = ap length lh in
    let cleaned : IsCleanBut w.lh w =
      rw lh (write_loop-IsCleanBut 0 m.lh m.lh m (omega arith) clean) in
    (
      install_loop-IsCleanBut 0 w.lh h (omega arith) cleaned,
      record {
        start = after.start ∙ before.start;
        size = after.size ∙ before.size;
        outstanding = after.outstanding ∙ before.outstanding;
        committing = after.committing ∙ before.committing;
      },
    )

empty_lh : (m : Machine) → ltb 0 (length m.lh) ≡ false → m.lh ≡ []
empty_lh m nothing = go m.lh nothing
  where
    go : (bs : List ℕ) → ltb 0 (length bs) ≡ false → bs ≡ []
    go [] e = refl
    go (b ∷ bs) e = absurd (ground (arith, e))

-- `commit` that is granted enough writes leaves an empty list, and the cache as the disk.
pub commit-clean :
    (m : Machine)
    → length m.lh + 1 + length m.lh ≤ m.power
    → IsCleanBut m.lh m
    → IsCleanBut [] (commit m) × SameParts m (commit m) × ((commit m).lh ≡ [])
unfolding commit
commit-clean m enough clean = elim (Bool-cases (ltb 0 (length m.lh))) [
  | inl several ↦
      let (cleaned, same) = commit_rest-clean m enough clean in
      rw several (cleaned, same, commit_rest-lh (write_log m))
  | inr nothing ↦
      let none_left = empty_lh m nothing in
      rw nothing (
        subst (λ bs. IsCleanBut bs m) none_left clean,
        record { start = refl; size = refl; outstanding = refl; committing = refl },
        none_left,
      )
]
