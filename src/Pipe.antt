-- ===== src/Pipe.antt =====
-- Assignment9_xv6/part1/xv6-public/pipe.c: pipes of xv6. What runs between `acquire` of the pipe's lock and
-- the next `sleep` or `release` is one step. A process that sleeps goes on where it was, at the test of
-- its loop, after a `wakeup` of its channel. Whether a process is killed is asked at most once in a step.
mod Bytes
pub mod Processes
pub mod Fifo
pub mod Wakeup
mod Tests
use public_systems_projects.Base.{
  ℕ, zero, suc, ◌+◌, ◌%◌, ◌≡◌, Bool, true, false, not, ◌&&◌, ◌||◌, ◌==◌, if◌then◌else◌, Option,
  none, some, List, [], ◌∷◌, ◌++◌, map, length, get_elem?, set, replicate, ℤ, pos, negsuc, add_uint,
  store,
}

abbrev pub pipesize : ℕ
pipesize = 512

-- An index of `buffer`, the array `data`, is always taken modulo `pipesize`.
pub record Pipe : Type 0 where
  pub buffer : ℕ → ℕ
  pub nread : ℕ
  pub nwrite : ℕ
  pub readopen : ℕ
  pub writeopen : ℕ

-- where processes sleep: the addresses `&p->nread` and `&p->nwrite`
pub data Channel : Type 0 where
  at_nread : Channel
  at_nwrite : Channel

pub data Ending : Type 0 where
  returned : ℤ → Ending
  asleep : Channel → Ending

-- A step of `pipewrite`: the channels that it wakes, the bytes that it writes and those that are left.
pub record Written : Type 0 where
  pub pipe : Pipe
  pub wakeups : List Channel
  pub bytes : List ℕ
  pub rest : List ℕ
  pub ending : Ending

-- A step of `piperead`: the channels that it wakes and the bytes that it reads.
pub record Got : Type 0 where
  pub pipe : Pipe
  pub wakeups : List Channel
  pub bytes : List ℕ
  pub ending : Ending

unfoldable pub put : Pipe → ℕ → Pipe
put p c = record p { buffer = store p.buffer (p.nwrite % pipesize) c; nwrite = add_uint p.nwrite 1 }

-- `pipewrite` from the test of its loop on, for a call with `n` bytes of which the list is left
unfoldable pub pipewrite : (killed : Bool) → ℕ → Pipe → List ℕ → Written
pipewrite killed n p [] = record {
  pipe = p;
  wakeups = at_nread ∷ [];
  bytes = [];
  rest = [];
  ending = returned (pos n);
}
pipewrite killed n p (c ∷ rest) =
    let later = pipewrite killed n (put p c) rest in
    if p.nwrite == add_uint p.nread pipesize
    then (if (p.readopen == 0) || killed
        then record {
          pipe = p;
          wakeups = [];
          bytes = [];
          rest = c ∷ rest;
          ending = returned (negsuc 0);
        }
        else record {
          pipe = p;
          wakeups = at_nread ∷ [];
          bytes = [];
          rest = c ∷ rest;
          ending = asleep at_nwrite;
        })
    else record later { bytes = c ∷ later.bytes }

unfoldable pub take_byte : Pipe → Pipe
take_byte p = record p { nread = add_uint p.nread 1 }

-- the loop that copies at most as many bytes
unfoldable pub copy_loop : ℕ → Pipe → Pipe × List ℕ
copy_loop zero p = (p, [])
copy_loop (suc k) p =
    let (q, bytes) = copy_loop k (take_byte p) in
    if p.nread == p.nwrite then (p, []) else (q, p.buffer (p.nread % pipesize) ∷ bytes)

-- `piperead` of `n` bytes, from the test whether the pipe is empty on
unfoldable pub piperead : (killed : Bool) → ℕ → Pipe → Got
piperead killed n p =
    let (q, bytes) = copy_loop n p in
    if (p.nread == p.nwrite) && not (p.writeopen == 0)
    then (if killed
        then record { pipe = p; wakeups = []; bytes = []; ending = returned (negsuc 0) }
        else record { pipe = p; wakeups = []; bytes = []; ending = asleep at_nread })
    else record {
      pipe = q;
      wakeups = at_nwrite ∷ [];
      bytes = bytes;
      ending = returned (pos (length bytes));
    }

-- `freed` tells whether the page of the pipe is given back.
pub record Closed : Type 0 where
  pub pipe : Pipe
  pub wakeups : List Channel
  pub freed : Bool

close_end : Pipe → (writable : Bool) → Pipe
close_end p writable = if writable then record p { writeopen = 0 } else record p { readopen = 0 }

unfoldable pub pipeclose : Pipe → (writable : Bool) → Closed
unfolding close_end
pipeclose p writable = record {
  pipe = close_end p writable;
  wakeups = (if writable then at_nread else at_nwrite) ∷ [];
  freed = ((close_end p writable).readopen == 0) && ((close_end p writable).writeopen == 0);
}

-- What `pipealloc` sets of a file.
pub record File : Type 0 where
  pub readable : ℕ
  pub writable : ℕ

pub data Release : Type 0 where
  fileclose : ℕ → Release
  kfree : ℕ → Release

-- The result, the files `*f0` and `*f1`, what is given back, and the pipe with its two files.
pub record Made : Type 0 where
  pub result : ℤ
  pub f0 : Option ℕ
  pub f1 : Option ℕ
  pub releases : List Release
  pub ends : Option (Pipe × File × File)

-- the pipe in a page that holds `buffer`
unfoldable pub new_pipe : (ℕ → ℕ) → Pipe
new_pipe buffer = record { buffer = buffer; nread = 0; nwrite = 0; readopen = 1; writeopen = 1 }

released : (ℕ → Release) → Option ℕ → List Release
released give none = []
released give (some p) = give p ∷ []

-- the label `bad`
bad : (p f0 f1 : Option ℕ) → Made
bad p f0 f1 = record {
  result = negsuc 0;
  f0 = f0;
  f1 = f1;
  releases = released kfree p ++ released fileclose f0 ++ released fileclose f1;
  ends = none;
}

-- What the two calls of `filealloc` give, should they be made, and what `kalloc` gives.
unfoldable pub pipealloc : (file0 file1 page : Option ℕ) → (ℕ → ℕ) → Made
unfolding bad released
pipealloc none file1 page buffer = bad none none none
pipealloc (some f0) none page buffer = bad none (some f0) none
pipealloc (some f0) (some f1) none buffer = bad none (some f0) (some f1)
pipealloc (some f0) (some f1) (some p) buffer = record {
  result = pos 0;
  f0 = some f0;
  f1 = some f1;
  releases = [];
  ends = some (
    new_pipe buffer,
    record { readable = 1; writable = 0 },
    record { readable = 0; writable = 1 },
  );
}
