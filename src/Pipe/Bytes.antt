-- ===== src/Pipe/Bytes.antt =====
-- The bytes that a pipe holds, and what each step of `pipewrite` and `piperead` does to them.

use mathlib.Core.List.{append_assoc, append-nil}
use public_systems_projects.Base.{
  ℕ, zero, suc, ◌+◌, ◌%◌, ◌≤◌, ◌<◌, ◌≡◌, ◌≢◌, refl, sym, ap, ap₂, ◌∙◌, ◌↔◌, inl, inr, Bool, false,
  not, ◌&&◌, ◌||◌, ◌==◌, Bool-cases, List, [], ◌∷◌, ◌++◌, length, store, store-same, add_uint,
  sub_uint, uint_mod, arith,
}
use public_systems_projects.Pipe.{
  Pipe, pipesize, put, take_byte, copy_loop, Channel, Ending, Written, pipewrite, piperead,
}

-- the `k` bytes of the array from index `r` on
unfoldable pub slice : (ℕ → ℕ) → ℕ → ℕ → List ℕ
slice buffer r zero = []
slice buffer r (suc k) = buffer (r % pipesize) ∷ slice buffer (r + 1) k

unfoldable pub count : Pipe → ℕ
count p = sub_uint p.nwrite p.nread

-- what a pipe holds, the oldest byte first
unfoldable pub contents : Pipe → List ℕ
unfolding count
contents p = slice p.buffer p.nread (count p)

pub record IsPipe (p : Pipe) : Type 0 where
  pub nread_lt : p.nread < uint_mod
  pub nwrite_lt : p.nwrite < uint_mod
  pub count_le : count p ≤ pipesize

pub length-slice : (buffer : ℕ → ℕ) (r k : ℕ) → length (slice buffer r k) ≡ k
unfolding slice
length-slice buffer r zero = refl
length-slice buffer r (suc k) = ap suc (length-slice buffer (r + 1) k)

slice-mod :
    (buffer : ℕ → ℕ) (r s k : ℕ) → r % pipesize ≡ s % pipesize → slice buffer r k ≡ slice buffer s k
unfolding slice
slice-mod buffer r s zero e = refl
slice-mod buffer r s (suc k) e =
    ap₂ (λ a b. buffer a ∷ b) e (slice-mod buffer (r + 1) (s + 1) k (omega (arith, e)))

slice-store :
    (buffer : ℕ → ℕ) (r w c k : ℕ)
    → r + k ≤ w
    → w < r + pipesize
    → slice (store buffer (w % pipesize) c) r k ≡ slice buffer r k
unfolding slice store
slice-store buffer r w c zero up low = refl
slice-store buffer r w c (suc k) up low =
    let other : (r % pipesize == w % pipesize) ≡ false = ground arith in
    rw (other, slice-store buffer (r + 1) w c k (omega arith) (omega arith)) refl

slice-last :
    (buffer : ℕ → ℕ) (r w k : ℕ)
    → (r + k) % pipesize ≡ w % pipesize
    → slice buffer r (suc k) ≡ slice buffer r k ++ (buffer (w % pipesize) ∷ [])
unfolding slice
slice-last buffer r w zero e = ap (λ a. buffer a ∷ []) (omega (arith, e))
slice-last buffer r w (suc k) e =
    ap (λ l. buffer (r % pipesize) ∷ l) (slice-last buffer (r + 1) w k (omega (arith, e)))

module _ (p : Pipe) (is : IsPipe p) where
  -- A pipe is empty or full exactly when its counters say so.
  pub empty_iff : (p.nread ≡ p.nwrite) ↔ (count p ≡ 0)
  unfolding count
  empty_iff = (λ e. omega (arith, is.nread_lt, e), λ e. omega (arith, is.nread_lt, is.nwrite_lt, e))

  pub full_iff : (p.nwrite ≡ add_uint p.nread pipesize) ↔ (count p ≡ pipesize)
  unfolding count
  full_iff = (λ e. omega (arith, is.nread_lt, e), λ e. omega (arith, is.nread_lt, is.nwrite_lt, e))

  pub length-contents : length (contents p) ≡ count p
  unfolding contents
  length-contents = length-slice p.buffer p.nread (count p)

  module _ (c : ℕ) (room : count p < pipesize) where
    pub count-put : count (put p c) ≡ suc (count p)
    unfolding count put
    count-put = omega (arith, is.nread_lt, is.nwrite_lt, room)

    pub put-IsPipe : IsPipe (put p c)
    unfolding put
    put-IsPipe = record {
      nread_lt = is.nread_lt;
      nwrite_lt = omega arith;
      count_le = omega (arith, count-put, room);
    }

    place : (p.nread + count p) % pipesize ≡ p.nwrite % pipesize
    unfolding count
    place = omega (arith, is.nread_lt, is.nwrite_lt)

    stored : slice (store p.buffer (p.nwrite % pipesize) c) p.nread (count p) ≡ contents p
    unfolding contents
    stored =
        ap (λ i. slice (store p.buffer i c) p.nread (count p)) (sym place)
        ∙ slice-store p.buffer p.nread (p.nread + count p) c (count p) (omega arith)
            (omega (arith, room))

    pub contents-put : contents (put p c) ≡ contents p ++ (c ∷ [])
    unfolding contents put
    contents-put =
        ap (slice (store p.buffer (p.nwrite % pipesize) c) p.nread) count-put
        ∙ slice-last (store p.buffer (p.nwrite % pipesize) c) p.nread p.nwrite (count p) place
        ∙ ap₂ (λ l b. l ++ (b ∷ [])) stored (store-same p.buffer (p.nwrite % pipesize) c)

  module _ (some_left : p.nread ≢ p.nwrite) where
    count-take : count p ≡ suc (count (take_byte p))
    unfolding count take_byte
    count-take = omega (arith, is.nread_lt, is.nwrite_lt, some_left)

    pub take-IsPipe : IsPipe (take_byte p)
    unfolding take_byte
    take-IsPipe = record {
      nread_lt = omega arith;
      nwrite_lt = is.nwrite_lt;
      count_le = omega (arith, count-take, is.count_le);
    }

    pub contents-take : contents p ≡ p.buffer (p.nread % pipesize) ∷ contents (take_byte p)
    unfolding contents take_byte slice
    contents-take =
        ap (slice p.buffer p.nread) count-take
        ∙ ap (λ l. p.buffer (p.nread % pipesize) ∷ l)
            (slice-mod p.buffer (p.nread + 1) (add_uint p.nread 1) (count (take_byte p))
              (omega arith))

-- A step that sends `rest` writes a first part of it behind the bytes of the pipe.
pub record Sends (p : Pipe) (rest : List ℕ) (w : Written) : Type 0 where
  pub valid : IsPipe w.pipe
  pub behind : contents w.pipe ≡ contents p ++ w.bytes
  pub whole : w.bytes ++ w.rest ≡ rest

no_bytes :
    (p : Pipe) (rest : List ℕ) (channels : List Channel) (e : Ending)
    → IsPipe p
    → Sends p rest (record { pipe = p; wakeups = channels; bytes = []; rest = rest; ending = e })
no_bytes p rest channels e is = record {
  valid = is;
  behind = sym (append-nil (contents p));
  whole = refl;
}

pub pipewrite-Sends :
    (killed : Bool) (n : ℕ) (p : Pipe) (rest : List ℕ)
    → IsPipe p
    → Sends p rest (pipewrite killed n p rest)
unfolding pipewrite
pipewrite-Sends killed n p [] is = no_bytes p [] _ _ is
pipewrite-Sends killed n p (c ∷ rest) is =
    elim (Bool-cases (p.nwrite == add_uint p.nread pipesize)) [
      | inl full ↦ elim (Bool-cases ((p.readopen == 0) || killed)) [
        | inl stops ↦ rw (full, stops) (no_bytes p (c ∷ rest) _ _ is)
        | inr sleeps ↦ rw (full, sleeps) (no_bytes p (c ∷ rest) _ _ is)
      ]
      | inr free ↦
          let room : count p < pipesize = ground (arith, (full_iff p is).1, is.count_le) in
          let later = pipewrite-Sends killed n (put p c) rest (put-IsPipe p is c room) in
          rw free (record {
            valid = later.valid;
            behind =
                later.behind
                ∙ ap (λ l. l ++ (pipewrite killed n (put p c) rest).bytes)
                    (contents-put p is c room)
                ∙ append_assoc (contents p) (c ∷ []) _;
            whole = ap (λ l. c ∷ l) later.whole;
          })
    ]

-- A copy takes the first bytes of the pipe.
pub record Takes (p : Pipe) (q : Pipe) (bytes : List ℕ) : Type 0 where
  pub valid : IsPipe q
  pub front : contents p ≡ bytes ++ contents q

pub copy_loop-Takes : (k : ℕ) (p : Pipe) → IsPipe p → Takes p (copy_loop k p).0 (copy_loop k p).1
unfolding copy_loop
copy_loop-Takes zero p is = record { valid = is; front = refl }
copy_loop-Takes (suc k) p is = elim (Bool-cases (p.nread == p.nwrite)) [
  | inl empty ↦ rw empty (record { valid = is; front = refl })
  | inr more ↦
      let some_left : p.nread ≢ p.nwrite = ground arith in
      let later = copy_loop-Takes k (take_byte p) (take-IsPipe p is some_left) in
      rw more (record {
        valid = later.valid;
        front =
            contents-take p is some_left ∙ ap (λ l. p.buffer (p.nread % pipesize) ∷ l) later.front;
      })
]

pub piperead-Takes :
    (killed : Bool) (n : ℕ) (p : Pipe)
    → IsPipe p
    → Takes p (piperead killed n p).pipe (piperead killed n p).bytes
unfolding piperead
piperead-Takes killed n p is = elim (Bool-cases ((p.nread == p.nwrite) && not (p.writeopen == 0))) [
  | inl waits ↦ elim (Bool-cases killed) [
    | inl dies ↦ rw (waits, dies) (record { valid = is; front = refl })
    | inr lives ↦ rw (waits, lives) (record { valid = is; front = refl })
  ]
  | inr goes ↦ rw goes (copy_loop-Takes n p is)
]
