-- ===== src/Pipe/Wakeup.antt =====
-- When the processes that share a pipe sleep, and when a wakeup is lost.
use mathlib.Core.Path.{subst}
use public_systems_projects.Base.{
  ℕ, zero, suc, ◌+◌, ◌<◌, ◌≡◌, ◌≢◌, ◌⊎◌, inl, inr, refl, sym, ◌∙◌, Bool, true, false, not, ◌&&◌,
  ◌==◌, Bool-cases, some, some_inj, List, [], ◌∷◌, map, length, get_elem?, set, negsuc, add_uint,
  arith,
}
use public_systems_projects.Pipe.{
  Pipe, pipesize, new_pipe, put, take_byte, copy_loop, at_nread, at_nwrite, returned, Written,
  pipewrite, Got, piperead, pipeclose, close_end,
}
use public_systems_projects.Pipe.Bytes.{IsPipe, count, full_iff, put-IsPipe, count-put}
use public_systems_projects.Pipe.Processes.{
  Call, idle, writing, waiting_write, reading, waiting_read, wake, wake_all, after_write,
  after_read, System, start, Step, call_write, call_read, write, read, rouses, close, Run, begin,
  next,
}

-- A reader that sleeps has an empty pipe whose write end is open, unless the read end is closed, and a
-- writer that sleeps has a full pipe whose read end is open.
pub Reason : Pipe → Call → Type 0
Reason p idle = Unit {0}
Reason p (writing n rest) = Unit {0}
Reason p (reading n) = Unit {0}
Reason p (waiting_read n) = (p.readopen ≡ 0) ⊎ ((p.nread ≡ p.nwrite) × (p.writeopen ≢ 0))
Reason p (waiting_write n rest) = (p.nwrite ≡ add_uint p.nread pipesize) × (p.readopen ≢ 0)

-- What a step of a writer that is not killed does for the others, and what it does itself.
record Fair (n : ℕ) (p : Pipe) (w : Written) : Type 0 where
  tells : (w.wakeups ≡ at_nread ∷ []) ⊎ ((w.wakeups ≡ []) × (p.readopen ≡ 0))
  same_readopen : w.pipe.readopen ≡ p.readopen
  full_stays : p.nwrite ≡ add_uint p.nread pipesize → w.pipe ≡ p
  own : Reason w.pipe (after_write n w)

pipewrite-Fair : (n : ℕ) (p : Pipe) (rest : List ℕ) → Fair n p (pipewrite false n p rest)
unfolding pipewrite after_write Reason put
pipewrite-Fair n p [] = record {
  tells = inl refl;
  same_readopen = refl;
  full_stays = λ e. refl;
  own = tt;
}
pipewrite-Fair n p (c ∷ rest) = elim (Bool-cases (p.nwrite == add_uint p.nread pipesize)) [
  | inl full ↦ elim (Bool-cases (p.readopen == 0)) [
    | inl shut ↦
        let shut' : p.readopen ≡ 0 = ground arith in
        rw (full, shut)
          (record {
            tells = inr (refl, shut');
            same_readopen = refl;
            full_stays = λ e. refl;
            own = tt;
          })
    | inr opened ↦
        rw (full, opened)
          (record {
            tells = inl refl;
            same_readopen = refl;
            full_stays = λ e. refl;
            own = (ground arith, ground arith);
          })
  ]
  | inr free ↦
      let later = pipewrite-Fair n (put p c) rest in
      rw free (record {
        tells = later.tells;
        same_readopen = later.same_readopen;
        full_stays = λ e. absurd (ground arith);
        own = later.own;
      })
]

-- What a step of a reader does for the others.
record FairRead (n : ℕ) (p : Pipe) (g : Got) : Type 0 where
  tells : (g.wakeups ≡ at_nwrite ∷ []) ⊎ ((g.wakeups ≡ []) × (g.pipe ≡ p))
  same_readopen : g.pipe.readopen ≡ p.readopen
  waits_stays : p.nread ≡ p.nwrite → p.writeopen ≢ 0 → g.pipe ≡ p
  own : Reason g.pipe (after_read n g)

copy_loop-readopen : (k : ℕ) (p : Pipe) → (copy_loop k p).0.readopen ≡ p.readopen
unfolding copy_loop take_byte
copy_loop-readopen zero p = refl
copy_loop-readopen (suc k) p = elim (Bool-cases (p.nread == p.nwrite)) [
  | inl empty ↦ rw empty refl
  | inr more ↦ rw more (copy_loop-readopen k (take_byte p))
]

piperead-Fair : (n : ℕ) (p : Pipe) → FairRead n p (piperead false n p)
unfolding piperead after_read Reason
piperead-Fair n p = elim (Bool-cases ((p.nread == p.nwrite) && not (p.writeopen == 0))) [
  | inl waits ↦ rw waits (record {
    tells = inr (refl, refl);
    same_readopen = refl;
    waits_stays = λ e w. refl;
    own = inr (ground arith, ground arith);
  })
  | inr goes ↦ rw goes (record {
    tells = inl refl;
    same_readopen = copy_loop-readopen n p;
    waits_stays = λ e w. absurd (ground arith);
    own = tt;
  })
]

get_elem?-set-some {ℓ} :
    {A : Type ℓ} (xs : List A) (i j : ℕ) (v b : A)
    → get_elem? (set xs i v) j ≡ some b
    → (b ≡ v) ⊎ (get_elem? xs j ≡ some b)
get_elem?-set-some [] i j v b e = inr e
get_elem?-set-some (x ∷ xs) zero zero v b e = inl (sym (some_inj e))
get_elem?-set-some (x ∷ xs) zero (suc j) v b e = inr e
get_elem?-set-some (x ∷ xs) (suc i) zero v b e = inr e
get_elem?-set-some (x ∷ xs) (suc i) (suc j) v b e = get_elem?-set-some xs i j v b e

get_elem?-map-some {ℓ} :
    {A : Type ℓ} (f : A → A) (xs : List A) (j : ℕ) (b : A)
    → get_elem? (map f xs) j ≡ some b
    → (a : A) × (get_elem? xs j ≡ some a) × (b ≡ f a)
get_elem?-map-some f [] j b e = absurd (cc)
get_elem?-map-some f (x ∷ xs) zero b e = (x, refl, sym (some_inj e))
get_elem?-map-some f (x ∷ xs) (suc j) b e = get_elem?-map-some f xs j b e

-- Every process that sleeps has a reason to.
Reasons : System → Type 0
Reasons s = (j : ℕ) (c : Call) → get_elem? s.calls j ≡ some c → Reason s.pipe c

-- All but the process `i`, which gets a reason of its own, keep theirs over a step.
others :
    (p : Pipe) (calls : List Call) (i : ℕ) (own : Call)
    → Reason p own
    → ((j : ℕ) (c : Call) → get_elem? calls j ≡ some c → Reason p c)
    → Reasons (record { pipe = p; calls = set calls i own })
unfolding Reasons
others p calls i own reason rest j c e = elim (get_elem?-set-some calls i j own c e) [
  | inl same ↦ subst (Reason p) (sym same) reason
  | inr other ↦ rest j c other
]

-- A pipe that is full before stays as it is.
wake_nread-Reason :
    (p q : Pipe)
    → (p.nwrite ≡ add_uint p.nread pipesize → q ≡ p)
    → (a : Call) → Reason p a
    → Reason q (wake at_nread a)
unfolding Reason wake
wake_nread-Reason p q same idle r = tt
wake_nread-Reason p q same (writing n rest) r = tt
wake_nread-Reason p q same (reading n) r = tt
wake_nread-Reason p q same (waiting_read n) r = tt
wake_nread-Reason p q same (waiting_write n rest) r =
    subst (λ x. Reason x (waiting_write n rest)) (sym (same r.0)) r

-- A pipe that is empty before stays as it is.
wake_nwrite-Reason :
    (p q : Pipe)
    → (p.nread ≡ p.nwrite → p.writeopen ≢ 0 → q ≡ p)
    → (p.readopen ≡ 0 → q.readopen ≡ 0)
    → (a : Call) → Reason p a
    → Reason q (wake at_nwrite a)
unfolding Reason wake
wake_nwrite-Reason p q same shut idle r = tt
wake_nwrite-Reason p q same shut (writing n rest) r = tt
wake_nwrite-Reason p q same shut (reading n) r = tt
wake_nwrite-Reason p q same shut (waiting_write n rest) r = tt
wake_nwrite-Reason p q same shut (waiting_read n) (inl z) = inl (shut z)
wake_nwrite-Reason p q same shut (waiting_read n) (inr (e, w)) =
    subst (λ x. Reason x (waiting_read n)) (sym (same e w)) (inr (e, w))

-- A step that wakes nobody when the read end is closed.
shut-Reason :
    (p q : Pipe) → p.readopen ≡ 0 → q.readopen ≡ p.readopen → (a : Call) → Reason p a → Reason q a
unfolding Reason
shut-Reason p q z e idle r = tt
shut-Reason p q z e (writing n rest) r = tt
shut-Reason p q z e (reading n) r = tt
shut-Reason p q z e (waiting_write n rest) r = absurd (r.1 z)
shut-Reason p q z e (waiting_read n) r = inl (e ∙ z)

module _ (s : System) (keeps : Reasons s) where
  after_map :
      (f : Call → Call) (q : Pipe)
      → ((a : Call) → Reason s.pipe a → Reason q (f a))
      → (j : ℕ) (c : Call) → get_elem? (map f s.calls) j ≡ some c
      → Reason q c
  unfolding Reasons
  after_map f q each j c e =
      let (a, at, is) = get_elem?-map-some f s.calls j c e in
      subst (Reason q) (sym is) (each a (keeps j a at))

  after_same :
      (q : Pipe)
      → ((a : Call) → Reason s.pipe a → Reason q a)
      → (j : ℕ) (c : Call) → get_elem? s.calls j ≡ some c
      → Reason q c
  unfolding Reasons
  after_same q each j c at = each c (keeps j c at)

  write-Reasons :
      (n : ℕ) (w : Written)
      → Fair n s.pipe w
      → (j : ℕ) (c : Call) → get_elem? (wake_all w.wakeups s.calls) j ≡ some c
      → Reason w.pipe c
  unfolding wake_all
  write-Reasons n w fair = elim (fair.tells) [
    | inl one ↦
        rw one (after_map (wake at_nread) w.pipe (wake_nread-Reason s.pipe w.pipe fair.full_stays))
    | inr (nobody, shut) ↦
        rw nobody (after_same w.pipe (shut-Reason s.pipe w.pipe shut fair.same_readopen))
  ]

  read-Reasons :
      (n : ℕ) (g : Got)
      → FairRead n s.pipe g
      → (j : ℕ) (c : Call) → get_elem? (wake_all g.wakeups s.calls) j ≡ some c
      → Reason g.pipe c
  unfolding wake_all
  read-Reasons n g fair = elim (fair.tells) [
    | inl one ↦ rw one (
        after_map (wake at_nwrite) g.pipe
          (wake_nwrite-Reason s.pipe g.pipe fair.waits_stays (λ z. fair.same_readopen ∙ z)))
    | inr (nobody, same) ↦
        rw nobody (after_same g.pipe (λ a r. subst (λ x. Reason x a) (sym same) r))
  ]

write_end-Reason : (p : Pipe) (a : Call) → Reason p a → Reason (close_end p true) (wake at_nread a)
unfolding Reason wake close_end
write_end-Reason p idle r = tt
write_end-Reason p (writing n rest) r = tt
write_end-Reason p (reading n) r = tt
write_end-Reason p (waiting_read n) r = tt
write_end-Reason p (waiting_write n rest) r = r

read_end-Reason : (p : Pipe) (a : Call) → Reason p a → Reason (close_end p false) (wake at_nwrite a)
unfolding Reason wake close_end
read_end-Reason p idle r = tt
read_end-Reason p (writing n rest) r = tt
read_end-Reason p (reading n) r = tt
read_end-Reason p (waiting_write n rest) r = tt
read_end-Reason p (waiting_read n) r = inl refl

close-Reasons :
    (s : System) (writable : Bool)
    → Reasons s
    → Reasons (record {
      pipe = (pipeclose s.pipe writable).pipe;
      calls = wake_all (pipeclose s.pipe writable).wakeups s.calls;
    })
unfolding Reasons pipeclose close_end wake_all
close-Reasons s true keeps =
    after_map s keeps (wake at_nread) (close_end s.pipe true) (write_end-Reason s.pipe)
close-Reasons s false keeps =
    after_map s keeps (wake at_nwrite) (close_end s.pipe false) (read_end-Reason s.pipe)

Step-Reasons :
    (s : System) (bytes taken : List ℕ) (t : System)
    → Reasons s
    → Step false s bytes taken t
    → Reasons t
unfolding Reasons Reason
Step-Reasons s _ _ _ keeps (call_write i bytes at) =
    others s.pipe s.calls i (writing (length bytes) bytes) tt keeps
Step-Reasons s _ _ _ keeps (call_read i n at) = others s.pipe s.calls i (reading n) tt keeps
Step-Reasons s _ _ _ keeps (write i n rest true at may) = absurd (ground (arith, may refl))
Step-Reasons s _ _ _ keeps (write i n rest false at may) =
    let fair = pipewrite-Fair n s.pipe rest in
    let w = pipewrite false n s.pipe rest in
    others w.pipe (wake_all w.wakeups s.calls) i (after_write n w) fair.own
      (write-Reasons s keeps n w fair)
Step-Reasons s _ _ _ keeps (read i n true at may) = absurd (ground (arith, may refl))
Step-Reasons s _ _ _ keeps (read i n false at may) =
    let fair = piperead-Fair n s.pipe in
    let g = piperead false n s.pipe in
    others g.pipe (wake_all g.wakeups s.calls) i (after_read n g) fair.own
      (read-Reasons s keeps n g fair)
Step-Reasons s _ _ _ keeps (rouses i call at may) = absurd (cc may)
Step-Reasons s _ _ _ keeps (close writable stays) = close-Reasons s writable keeps

start-Reasons : (m : ℕ) (buffer : ℕ → ℕ) → Reasons (start m buffer)
unfolding Reasons Reason start
start-Reasons zero buffer j c e = absurd (cc)
start-Reasons (suc m) buffer zero c e = subst (Reason (new_pipe buffer)) (some_inj e) tt
start-Reasons (suc m) buffer (suc j) c e = start-Reasons m buffer j c e

-- No wakeup is lost where no process is killed: in every run on a new pipe, a reader sleeps only while the
-- pipe is empty and its write end is open or the read end is closed, and a writer only while the pipe is
-- full and its read end is open.
pub Run-Reason :
    (m : ℕ) (buffer : ℕ → ℕ) (sent received : List ℕ) (t : System) (j : ℕ) (c : Call)
    → Run false (start m buffer) sent received t
    → get_elem? t.calls j ≡ some c
    → Reason t.pipe c
unfolding Reasons
Run-Reason m buffer _ _ _ j c begin e = start-Reasons m buffer j c e
Run-Reason m buffer _ _ u j c (next sent received t bytes taken _ run step) e =
    Step-Reasons t bytes taken u (λ j' c' e'. Run-Reason m buffer sent received t j' c' run e') step
      j c e

-- A killed writer with more bytes than fit fills the pipe, returns -1 and wakes nobody.
pub killed_write_lem :
    (n : ℕ) (p : Pipe) (rest : List ℕ) (calls : List Call)
    → IsPipe p
    → pipesize < count p + length rest
    → ((pipewrite true n p rest).ending ≡ returned (negsuc 0))
      × (count (pipewrite true n p rest).pipe ≡ pipesize)
      × (wake_all (pipewrite true n p rest).wakeups calls ≡ calls)
unfolding pipewrite wake_all
killed_write_lem n p [] calls is long = absurd (omega (arith, is.count_le, long))
killed_write_lem n p (c ∷ rest) calls is long =
    elim (Bool-cases (p.nwrite == add_uint p.nread pipesize)) [
      | inl full ↦
          let is_full : p.nwrite ≡ add_uint p.nread pipesize = ground arith in
          elim (Bool-cases (p.readopen == 0)) [
            | inl shut ↦ rw (full, shut) (refl, (full_iff p is).0 is_full, refl)
            | inr opened ↦ rw (full, opened) (refl, (full_iff p is).0 is_full, refl)
          ]
      | inr free ↦
          let room : count p < pipesize = ground (arith, (full_iff p is).1, is.count_le) in
          let later =
            killed_write_lem n (put p c) rest calls (put-IsPipe p is c room)
              (omega (arith, long, count-put p is c room)) in
          rw free later
    ]
