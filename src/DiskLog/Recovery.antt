-- ===== src/DiskLog/Recovery.antt =====
-- What a disk stands for, and that recovery brings it about however often the machine crashes.
use native.Mathlib.Decide.{ℕ_discrete}
use public_systems_projects.Base.{
  put, put-same, put_ne, ℕ, ◌+◌, ◌-◌, ◌≤◌, ◌<◌, ◌≡◌, ◌≢◌, ◌⊎◌, inl, inr, refl, sym, ap, ◌∙◌, Bool,
  true, false, ◌||◌, ◌==◌, Bool-cases, List, [], ◌∷◌, length, arith,
}
use public_systems_projects.DiskLog.{
  Block, Disk, Machine, bread, bwrite, install_loop, install_trans, read_head, write_head,
  recover_from_log, boot, initlog,
}

unfoldable pub has : ℕ → List ℕ → Bool
has x [] = false
has x (b ∷ rest) = (b == x) || has x rest

-- An address outside the `size` blocks of the log, which start at `start`.
abbrev pub IsHome : (start size : ℕ) → ℕ → Type 0
IsHome start size x = (x < start) ⊎ (start + size ≤ x)

unfoldable pub AllHome : (start size : ℕ) → List ℕ → Type 0
AllHome start size [] = Unit {0}
AllHome start size (b ∷ rest) = IsHome start size b × AllHome start size rest

-- From entry `tail` on the blocks of the log hold, in `f`, what `want` gives for the block numbers.
unfoldable pub AreLogged : (start : ℕ) → (ℕ → Block) → ℕ → List ℕ → (ℕ → Block) → Type 0
AreLogged start f tail [] want = Unit {0}
AreLogged start f tail (b ∷ rest) want =
    (f (start + tail + 1) ≡ want b) × AreLogged start f (tail + 1) rest want

-- The disk stands for the contents `want`: recovery would bring them about.
pub record Holds (start size : ℕ) (d : Disk) (want : ℕ → Block) : Type 0 where
  pub homes : AllHome start size d.header
  pub fits : length d.header < size
  pub logged : AreLogged start d.blocks 0 d.header want
  pub rest : (x : ℕ) → IsHome start size x → has x d.header ≡ false → d.blocks x ≡ want x

-- A write to a home address leaves the log.
pub logged-put :
    (start size : ℕ) (f : ℕ → Block) (tail : ℕ) (bs : List ℕ) (want : ℕ → Block) (b : ℕ) (c : Block)
    → IsHome start size b
    → tail + length bs < size
    → AreLogged start f tail bs want
    → AreLogged start (put f b c) tail bs want
unfolding AreLogged
logged-put start size f tail [] want b c home fits l = tt
logged-put start size f tail (x ∷ bs) want b c home fits (l, ls) = (
  put_ne f b (start + tail + 1) c (λ e. absurd (ground (arith, home, e))) ∙ l,
  logged-put start size f (tail + 1) bs want b c home (omega arith) ls,
)

-- Once what is wanted is written at `b`, other addresses decide.
pub put-wanted :
    (f want : ℕ → Block) (b x : ℕ) → (x ≢ b → f x ≡ want x) → put f b (want b) x ≡ want x
put-wanted f want b x other = elim (ℕ_discrete x b) [
  | yes e ↦ ap (put f b (want b)) e ∙ put-same f b (want b) ∙ ap want (sym e)
  | no ne ↦ put_ne f b x (want b) ne ∙ other ne
]

pub bread-bwrite :
    (m : Machine) (n x : ℕ) (b : Block) → bread (bwrite m n b) x ≡ put (bread m) n b x
unfolding bread bwrite put
bread-bwrite m n x b = ground arith

pub bread_ne : (m : Machine) (n x : ℕ) (b : Block) → x ≢ n → bread (bwrite m n b) x ≡ bread m x
bread_ne m n x b ne = bread-bwrite m n x b ∙ put_ne (bread m) n x b ne

-- What is logged is logged still after a write to a home address.
pub logged-bwrite :
    (size tail : ℕ) (bs : List ℕ) (want : ℕ → Block) (m : Machine) (b : ℕ) (c : Block)
    → IsHome m.start size b
    → tail + length bs < size
    → AreLogged m.start (bread m) tail bs want
    → AreLogged m.start (bread (bwrite m b c)) tail bs want
unfolding AreLogged
logged-bwrite size tail [] want m b c home fits l = tt
logged-bwrite size tail (x ∷ bs) want m b c home fits (l, ls) = (
  bread_ne m b (m.start + tail + 1) c (λ e. absurd (ground (arith, home, e))) ∙ l,
  logged-bwrite size (tail + 1) bs want m b c home (omega arith) ls,
)

module _ (size : ℕ) (want : ℕ → Block) where
  Holds-put :
      (start : ℕ) (d : Disk) (b : ℕ)
      → IsHome start size b
      → Holds start size d want
      → Holds start size (record d { blocks = put d.blocks b (want b) }) want
  Holds-put start d b home holds = record {
    homes = holds.homes;
    fits = holds.fits;
    logged =
        logged-put start size d.blocks 0 d.header want b (want b) home (omega (arith, holds.fits))
          holds.logged;
    rest = λ x at out. put-wanted d.blocks want b x (λ ne. holds.rest x at out);
  }

  Holds-bwrite :
      (m : Machine) (b : ℕ)
      → IsHome m.start size b
      → Holds m.start size m.disk want
      → Holds m.start size (bwrite m b (want b)).disk want
  unfolding bwrite
  Holds-bwrite m b home holds = elim (Bool-cases (m.power == 0)) [
    | inl off ↦ rw off holds
    | inr on ↦ rw on (Holds-put m.start m.disk b home holds)
  ]

  -- What `install_trans` leaves, from entry `tail` on: the disk stands for the same contents, and where no
  -- crash comes between, every block that is listed, or was right before, is right.
  pub record Installs (m : Machine) (bs : List ℕ) (r : Machine) : Type 0 where
    pub same_start : r.start ≡ m.start
    pub power_left : r.power ≡ m.power - length bs
    pub same_header : r.disk.header ≡ m.disk.header
    pub holds : Holds m.start size r.disk want
    pub done :
        (x : ℕ)
        → length bs ≤ m.power
        → (has x bs ≡ true) ⊎ (m.disk.blocks x ≡ want x)
        → r.disk.blocks x ≡ want x

  next_done :
      (m : Machine) (b : ℕ) (bs : List ℕ) (x : ℕ)
      → 0 < m.power
      → (has x (b ∷ bs) ≡ true) ⊎ (m.disk.blocks x ≡ want x)
      → (has x bs ≡ true) ⊎ ((bwrite m b (want b)).disk.blocks x ≡ want x)
  unfolding has bwrite
  next_done m b bs x on why =
      let powered : (m.power == 0) ≡ false = ground arith in
      let written : (x ≢ b → m.disk.blocks x ≡ want x)
          → (bwrite m b (want b)).disk.blocks x ≡ want x =
        λ other. rw powered (put-wanted m.disk.blocks want b x other) in
      elim (ℕ_discrete x b) [
        | yes e ↦ inr (written (λ ne. absurd (ne e)))
        | no ne ↦ elim why [
          | inl listed ↦ inl (ground (arith, listed, ne))
          | inr right ↦ inr (written (λ _. right))
        ]
      ]

  pub install_loop-Installs :
      (tail : ℕ) (bs : List ℕ) (m : Machine)
      → AllHome m.start size bs
      → tail + length bs < size
      → AreLogged m.start (bread m) tail bs want
      → Holds m.start size m.disk want
      → Installs m bs (install_loop tail bs m)
  unfolding install_loop AllHome AreLogged has bwrite
  install_loop-Installs tail [] m homes fits logged holds = record {
    same_start = refl;
    power_left = omega arith;
    same_header = refl;
    holds = holds;
    done = λ x enough why. elim why [ inl e ↦ absurd (ground (arith, e)) | inr h ↦ h ];
  }
  install_loop-Installs tail (b ∷ bs) m (home, homes) fits (l, logged) holds =
      let one = bwrite m b (want b) in
      let later : Installs one bs (install_loop (tail + 1) bs one) =
        install_loop-Installs (tail + 1) bs one homes (omega arith)
          (logged-bwrite size (tail + 1) bs want m b (want b) home (omega arith) logged)
          (Holds-bwrite m b home holds) in
      rw l (record {
        same_start = later.same_start;
        power_left = omega (arith, later.power_left);
        same_header = later.same_header;
        holds = later.holds;
        done = λ x enough why. later.done x (omega arith) (next_done m b bs x (omega arith) why);
      })

  -- What the header that is cleared after `install_trans` leaves.
  pub clear_lem :
      (m : Machine) (bs : List ℕ) (r : Machine)
      → 0 < size
      → Installs m bs r
      → ((x : ℕ) → IsHome m.start size x → has x bs ≡ false → m.disk.blocks x ≡ want x)
      → Holds m.start size (write_head (record r { lh = [] })).disk want
        × (length bs < m.power → (write_head (record r { lh = [] })).disk.header ≡ [])
  unfolding write_head AllHome AreLogged has
  clear_lem m bs r room ins others = elim (Bool-cases (r.power == 0)) [
    | inl off ↦ rw off (ins.holds, (λ enough. absurd (ground (arith, ins.power_left, off))))
    | inr on ↦
        let enough : length bs ≤ m.power = ground (arith, ins.power_left, on) in
        rw on (
          record {
            homes = tt;
            fits = room;
            logged = tt;
            rest = λ x at out. ins.done x enough (elim (Bool-cases (has x bs)) [
              | inl listed ↦ inl listed
              | inr unlisted ↦ inr (others x at unlisted)
            ]);
          },
          (λ _. refl),
        )
  ]

  -- Recovery may crash: the disk stands for the same contents, and has an empty log if it does not crash.
  pub initlog-Holds :
      (start power : ℕ) (d : Disk)
      → Holds start size d want
      → Holds start size (initlog start size power d).disk want
        × (length d.header < power → (initlog start size power d).disk.header ≡ [])
  unfolding initlog recover_from_log read_head install_trans boot bread
  initlog-Holds start power d holds =
      let m : Machine = record (boot start size power d) { lh = d.header } in
      clear_lem m d.header (install_loop 0 d.header m) (omega (arith, holds.fits))
        (install_loop-Installs 0 d.header m holds.homes (omega (arith, holds.fits)) holds.logged
          holds)
        holds.rest

-- The disk after a start for each number of writes that it is granted before it crashes.
unfoldable pub restarts : (start size : ℕ) → List ℕ → Disk → Disk
restarts start size [] d = d
restarts start size (power ∷ powers) d =
    restarts start size powers (initlog start size power d).disk

pub restarts-Holds :
    (start size : ℕ) (want : ℕ → Block) (powers : List ℕ) (d : Disk)
    → Holds start size d want
    → Holds start size (restarts start size powers d) want
unfolding restarts
restarts-Holds start size want [] d holds = holds
restarts-Holds start size want (power ∷ powers) d holds =
    restarts-Holds start size want powers _ (initlog-Holds size want start power d holds).0

-- After any number of crashes during recovery, a start that is granted as many writes as the log has
-- blocks ends with an empty log and the wanted contents.
pub restarts_end :
    (start size : ℕ) (want : ℕ → Block) (powers : List ℕ) (power : ℕ) (d : Disk)
    → Holds start size d want
    → size ≤ power
    → let r = (initlog start size power (restarts start size powers d)).disk in
      Holds start size r want × (r.header ≡ [])
restarts_end start size want powers power d holds enough =
    let before = restarts-Holds start size want powers d holds in
    let (after, empty) =
      initlog-Holds size want start power (restarts start size powers d) before in
    (after, empty (omega (arith, before.fits, enough)))

pub home_right :
    (start size : ℕ) (want : ℕ → Block) (d : Disk) (x : ℕ)
    → Holds start size d want
    → d.header ≡ []
    → IsHome start size x
    → d.blocks x ≡ want x
unfolding has
home_right start size want d x holds empty at = holds.rest x at (ap (has x) empty)
