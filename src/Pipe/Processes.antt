-- ===== src/Pipe/Processes.antt =====
-- The processes that share a pipe (sleep and wakeup1 of Assignment9_xv6/part1/xv6-public/proc.c), as a
-- step relation: any process whose call does not sleep may go on.
use public_systems_projects.Base.{
  ℕ, ◌≡◌, Bool, true, false, some, List, [], ◌∷◌, ◌++◌, map, length, get_elem?, set, replicate,
}
use public_systems_projects.Pipe.{
  Pipe, Channel, at_nread, at_nwrite, returned, asleep, Written, pipewrite, Got, piperead,
  pipeclose, new_pipe,
}

-- The call that a process has made: it writes the bytes that are left of `n`, or reads up to `n` bytes, and
-- may be asleep, a writer on `at_nwrite` and a reader on `at_nread`.
pub data Call : Type 0 where
  idle : Call
  writing : ℕ → List ℕ → Call
  waiting_write : ℕ → List ℕ → Call
  reading : ℕ → Call
  waiting_read : ℕ → Call

unfoldable pub wake : Channel → Call → Call
wake at_nread (waiting_read n) = reading n
wake at_nwrite (waiting_write n rest) = writing n rest
wake at_nread (waiting_write n rest) = waiting_write n rest
wake at_nwrite (waiting_read n) = waiting_read n
wake c idle = idle
wake c (writing n rest) = writing n rest
wake c (reading n) = reading n

-- `wakeup` on one channel after the other
unfoldable pub wake_all : List Channel → List Call → List Call
wake_all [] calls = calls
wake_all (c ∷ channels) calls = wake_all channels (map (wake c) calls)

unfoldable pub after_write : ℕ → Written → Call
after_write n w = elim (w.ending) [ returned r ↦ idle | asleep c ↦ waiting_write n w.rest ]

unfoldable pub after_read : ℕ → Got → Call
after_read n g = elim (g.ending) [ returned r ↦ idle | asleep c ↦ waiting_read n ]

pub record System : Type 0 where
  pub pipe : Pipe
  pub calls : List Call

-- a new pipe and `m` processes
unfoldable pub start : ℕ → (ℕ → ℕ) → System
start m buffer = record { pipe = new_pipe buffer; calls = replicate m idle }

-- a sleeper that `kill` makes runnable
unfoldable pub rouse : Call → Call
rouse (waiting_write n rest) = writing n rest
rouse (waiting_read n) = reading n
rouse idle = idle
rouse (writing n rest) = writing n rest
rouse (reading n) = reading n

-- A step writes some bytes to the pipe and reads some. `kill` tells whether processes can be killed. The end
-- that closes the pipe for good is no step.
pub data Step (kill : Bool) (s : System) : List ℕ → List ℕ → System → Type 0 where
  call_write :
      (i : ℕ) (bytes : List ℕ)
      → get_elem? s.calls i ≡ some idle
      → Step kill s [] [] (record s { calls = set s.calls i (writing (length bytes) bytes) })
  call_read :
      (i n : ℕ)
      → get_elem? s.calls i ≡ some idle
      → Step kill s [] [] (record s { calls = set s.calls i (reading n) })
  write :
      (i n : ℕ) (rest : List ℕ) (killed : Bool)
      → get_elem? s.calls i ≡ some (writing n rest)
      → (killed ≡ true → kill ≡ true)
      → Step kill s (pipewrite killed n s.pipe rest).bytes [] (record {
        pipe = (pipewrite killed n s.pipe rest).pipe;
        calls =
            set
              (wake_all (pipewrite killed n s.pipe rest).wakeups s.calls)
              i
              (after_write n (pipewrite killed n s.pipe rest));
      })
  read :
      (i n : ℕ) (killed : Bool)
      → get_elem? s.calls i ≡ some (reading n)
      → (killed ≡ true → kill ≡ true)
      → Step kill s [] (piperead killed n s.pipe).bytes (record {
        pipe = (piperead killed n s.pipe).pipe;
        calls =
            set
              (wake_all (piperead killed n s.pipe).wakeups s.calls)
              i
              (after_read n (piperead killed n s.pipe));
      })
  rouses :
      (i : ℕ) (call : Call)
      → get_elem? s.calls i ≡ some call
      → kill ≡ true
      → Step kill s [] [] (record s { calls = set s.calls i (rouse call) })
  close :
      (writable : Bool)
      → (pipeclose s.pipe writable).freed ≡ false
      → Step kill s [] [] (record {
        pipe = (pipeclose s.pipe writable).pipe;
        calls = wake_all (pipeclose s.pipe writable).wakeups s.calls;
      })

-- The bytes that were written and those that were read, in their order.
pub data Run (kill : Bool) (s : System) : List ℕ → List ℕ → System → Type 0 where
  begin : Run kill s [] [] s
  next :
      (sent received : List ℕ) (t : System) (bytes taken : List ℕ) (u : System)
      → Run kill s sent received t
      → Step kill t bytes taken u
      → Run kill s (sent ++ bytes) (received ++ taken) u
