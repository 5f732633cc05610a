-- ===== src/DiskLog/Commit.antt =====
-- A crash during commit leaves a disk that stands for what it held before, or for what the cache held.
use mathlib.Core.Path.{subst}
use native.Mathlib.Decide.{ℕ_discrete}
use public_systems_projects.Base.{
  put, put-same, ℕ, ◌+◌, ◌-◌, ◌≤◌, ◌<◌, ◌≡◌, ◌≢◌, ◌⊎◌, inl, inr, refl, sym, ap, ◌∙◌, true, false,
  ◌==◌, ltb, ◌*◌, Bool-cases, List, [], ◌∷◌, length, arith,
}
use public_systems_projects.DiskLog.{
  Block, Disk, Machine, bread, bwrite, install_loop, install_trans, write_head, write_loop,
  write_log, commit_rest, commit,
}
use public_systems_projects.DiskLog.Recovery.{
  has, IsHome, AllHome, AreLogged, Holds, bread-bwrite, bread_ne, Installs, install_loop-Installs,
  clear_lem,
}

-- Between two operations: an empty log on the disk, and no block in the cache differs from the disk but
-- those that are to be logged.
pub record IsQuiet (m : Machine) : Type 0 where
  pub empty : m.disk.header ≡ []
  pub homes : AllHome m.start m.size m.lh
  pub fits : length m.lh < m.size
  pub clean : (x : ℕ) → has x m.lh ≡ false → bread m x ≡ m.disk.blocks x

-- What `write_log` leaves, from entry `tail` on.
record Logs (m : Machine) (tail : ℕ) (bs : List ℕ) (r : Machine) : Type 0 where
  same_start : r.start ≡ m.start
  same_lh : r.lh ≡ m.lh
  power_left : r.power ≡ m.power - length bs
  same_header : r.disk.header ≡ m.disk.header
  same_reads :
      (x : ℕ) → (x < m.start + tail + 1) ⊎ (m.start + tail + length bs < x) → bread r x ≡ bread m x
  same_blocks :
      (x : ℕ)
      → (x < m.start + tail + 1) ⊎ (m.start + tail + length bs < x)
      → r.disk.blocks x ≡ m.disk.blocks x
  cached : AreLogged m.start (bread r) tail bs (bread m)
  written : length bs ≤ m.power → AreLogged m.start r.disk.blocks tail bs (bread m)

bwrite_off :
    (m : Machine) (n x : ℕ) (c : Block) → x ≢ n → (bwrite m n c).disk.blocks x ≡ m.disk.blocks x
unfolding bwrite put
bwrite_off m n x c ne = ground arith

bwrite_on : (m : Machine) (n : ℕ) (c : Block) → 0 < m.power → (bwrite m n c).disk.blocks n ≡ c
unfolding bwrite put
bwrite_on m n c on = ground arith

-- Values that agree on the blocks are logged alike.
pub logged-agree :
    (start size : ℕ) (f : ℕ → Block) (tail : ℕ) (bs : List ℕ) (u v : ℕ → Block)
    → AllHome start size bs
    → ((x : ℕ) → IsHome start size x → u x ≡ v x)
    → AreLogged start f tail bs u
    → AreLogged start f tail bs v
unfolding AreLogged AllHome
logged-agree start size f tail [] u v homes same l = tt
logged-agree start size f tail (b ∷ bs) u v (home, homes) same (l, ls) =
    (l ∙ same b home, logged-agree start size f (tail + 1) bs u v homes same ls)

write_loop-Logs :
    (tail : ℕ) (bs : List ℕ) (m : Machine)
    → AllHome m.start m.size bs
    → tail + length bs < m.size
    → Logs m tail bs (write_loop tail bs m)
unfolding write_loop AllHome AreLogged bwrite
write_loop-Logs tail [] m homes fits = record {
  same_start = refl;
  same_lh = refl;
  power_left = omega arith;
  same_header = refl;
  same_reads = λ x o. refl;
  same_blocks = λ x o. refl;
  cached = tt;
  written = λ e. tt;
}
write_loop-Logs tail (b ∷ bs) m (home, homes) fits =
    let at = m.start + tail + 1 in
    let one = bwrite m at (bread m b) in
    let later : Logs one (tail + 1) bs (write_loop (tail + 1) bs one) =
      write_loop-Logs (tail + 1) bs one homes (omega arith) in
    let r = write_loop (tail + 1) bs one in
    let agree : (x : ℕ) → IsHome m.start m.size x → bread one x ≡ bread m x =
      λ x home'. bread_ne m at x (bread m b) (λ e. absurd (ground (arith, home', e))) in
    record {
      same_start = later.same_start;
      same_lh = later.same_lh;
      power_left = omega (arith, later.power_left);
      same_header = later.same_header;
      same_reads = λ x o.
          later.same_reads x (ground (arith, o))
          ∙ bread_ne m at x (bread m b) (λ e. absurd (ground (arith, o, e)));
      same_blocks = λ x o.
          later.same_blocks x (ground (arith, o))
          ∙ bwrite_off m at x (bread m b) (λ e. absurd (ground (arith, o, e)));
      cached = (
        later.same_reads at (inl (omega arith))
            ∙ bread-bwrite m at at (bread m b)
            ∙ put-same (bread m) at (bread m b),
        logged-agree m.start m.size (bread r) (tail + 1) bs (bread one) (bread m) homes agree
            later.cached,
      );
      written = λ e. (
        later.same_blocks at (inl (omega arith)) ∙ bwrite_on m at (bread m b) (omega arith),
        logged-agree m.start m.size r.disk.blocks (tail + 1) bs (bread one) (bread m) homes agree
            (later.written (omega arith)),
      );
    }

-- Without power nothing reaches the disk.
install_off :
    (tail : ℕ) (bs : List ℕ) (m : Machine)
    → m.power ≡ 0
    → ((install_loop tail bs m).disk ≡ m.disk) × ((install_loop tail bs m).power ≡ 0)
unfolding install_loop bwrite
install_off tail [] m off = (refl, off)
install_off tail (b ∷ bs) m off =
    let (same, still) =
      install_off (tail + 1) bs (bwrite m b (bread m (m.start + tail + 1))) (omega (arith, off)) in
    let dead : (m.power == 0) ≡ true = ground arith in (same ∙ rw dead refl, still)

pub empty-Holds :
    (start size : ℕ) (d : Disk) (want : ℕ → Block)
    → 0 < size
    → d.header ≡ []
    → ((x : ℕ) → IsHome start size x → d.blocks x ≡ want x)
    → Holds start size d want
unfolding AllHome AreLogged
empty-Holds start size d want room empty right = record {
  homes = rw empty tt;
  fits = rw empty room;
  logged = rw empty tt;
  rest = λ x at _. right x at;
}

empty_of_length : {A : Type 0} (xs : List A) → length xs ≡ 0 → xs ≡ []
empty_of_length [] e = refl
empty_of_length (x ∷ xs) e = cc

module _ (m : Machine) (quiet : IsQuiet m) where
  logs : Logs m 0 m.lh (write_log m)
  unfolding write_log
  logs = write_loop-Logs 0 m.lh m quiet.homes (omega (arith, quiet.fits))

  -- The disk while the log is written.
  written-Holds : Holds m.start m.size (write_log m).disk m.disk.blocks
  written-Holds =
      empty-Holds m.start m.size (write_log m).disk m.disk.blocks (omega (arith, quiet.fits))
        (logs.same_header ∙ quiet.empty)
        (λ x at. logs.same_blocks x (ground (arith, at, quiet.fits)))

  committed-Holds :
      0 < (write_log m).power → Holds m.start m.size (write_head (write_log m)).disk (bread m)
  unfolding write_head
  committed-Holds on =
      let powered : ((write_log m).power == 0) ≡ false = ground arith in
      rw (powered, logs.same_lh)
        (record {
          homes = quiet.homes;
          fits = quiet.fits;
          logged = logs.written (omega (arith, logs.power_left, on));
          rest = λ x at out.
              logs.same_blocks x (ground (arith, at, quiet.fits)) ∙ sym (quiet.clean x out);
        })

  -- The rest of `commit` when the log is written, for the two cases of the write of the header.
  lost :
      (write_log m).power ≡ 0 → Holds m.start m.size (commit_rest (write_log m)).disk m.disk.blocks
  unfolding commit_rest write_head install_trans
  lost off =
      let dead : ((write_log m).power == 0) ≡ true = ground arith in
      let w = write_head (write_log m) in
      let (same, still) = install_off 0 w.lh w (omega (arith, off)) in
      let dead' : ((install_loop 0 w.lh w).power == 0) ≡ true = ground (arith, still) in
      rw dead' (
        subst (λ d. Holds m.start m.size d m.disk.blocks) (sym (same ∙ rw dead refl)) written-Holds)

  installs :
      0 < (write_log m).power
      → let h = write_head (write_log m) in Installs m.size (bread m) h m.lh (install_loop 0 m.lh h)
  unfolding write_head bread
  installs on =
      install_loop-Installs m.size (bread m) 0 m.lh (write_head (write_log m))
        (rw logs.same_start quiet.homes) (omega (arith, quiet.fits))
        (rw logs.same_start logs.cached) (rw logs.same_start (committed-Holds on))

  unlisted :
      (x : ℕ)
      → IsHome (write_log m).start m.size x
      → has x m.lh ≡ false
      → (write_log m).disk.blocks x ≡ bread m x
  unlisted x at out =
      let home : IsHome m.start m.size x = subst (λ s. IsHome s m.size x) logs.same_start at in
      logs.same_blocks x (ground (arith, home, quiet.fits)) ∙ sym (quiet.clean x out)

  kept :
      0 < (write_log m).power
      → Holds m.start m.size (commit_rest (write_log m)).disk (bread m)
        × (length m.lh + 1 < (write_log m).power → (commit_rest (write_log m)).disk.header ≡ [])
  unfolding commit_rest write_head install_trans
  kept on =
      let h = write_head (write_log m) in
      let (held, emptied) =
        clear_lem m.size (bread m) h m.lh (install_loop 0 m.lh h) (omega (arith, quiet.fits))
          (installs on) (λ x at out. unlisted x at out) in
      let same : install_trans h ≡ install_loop 0 m.lh h =
        ap (λ l. install_loop 0 l h) logs.same_lh in
      (
        subst (λ s. Holds s m.size (commit_rest (write_log m)).disk (bread m)) logs.same_start
            (subst (λ r. Holds h.start m.size (write_head (record r { lh = [] })).disk (bread m))
              (sym same) held),
        (λ enough.
            ap (λ r. (write_head (record r { lh = [] })).disk.header) same ∙ emptied (omega arith)),
      )

  either :
      Holds m.start m.size (commit_rest (write_log m)).disk m.disk.blocks
      ⊎ Holds m.start m.size (commit_rest (write_log m)).disk (bread m)
  either = elim (ℕ_discrete (write_log m).power 0) [
    | yes off ↦ inl (lost off)
    | no on ↦ inr (kept (omega arith)).0
  ]

  nothing_listed : (x : ℕ) → length m.lh ≡ 0 → has x m.lh ≡ false
  unfolding has
  nothing_listed x none_left = ap (has x) (empty_of_length m.lh none_left)

  -- A crash during commit leaves the disk with the contents from before or with those of the cache, and
  -- without a crash it has those of the cache and an empty log.
  pub commit_lem :
      (Holds m.start m.size (commit m).disk m.disk.blocks
        ⊎ Holds m.start m.size (commit m).disk (bread m))
      × (2 * length m.lh + 1 < m.power
          → Holds m.start m.size (commit m).disk (bread m) × ((commit m).disk.header ≡ []))
  unfolding commit
  commit_lem =
      let room : 0 < m.size = omega (arith, quiet.fits) in
      elim (Bool-cases (ltb 0 (length m.lh))) [
        | inr nothing ↦
            let none_left : length m.lh ≡ 0 = ground arith in
            rw nothing (
              inl (empty-Holds m.start m.size m.disk m.disk.blocks room quiet.empty (λ x at. refl)),
              (λ enough. (
                empty-Holds m.start m.size m.disk (bread m) room quiet.empty
                    (λ x at. sym (quiet.clean x (nothing_listed x none_left))),
                quiet.empty,
              )),
            )
        | inl several ↦ rw several (
          either,
          (λ enough.
              let on : 0 < (write_log m).power = omega (arith, logs.power_left, enough) in
              ((kept on).0, (kept on).1 (omega (arith, logs.power_left, enough)))),
        )
      ]
