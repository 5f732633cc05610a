-- ===== src/Pipe/Fifo.antt =====
-- A pipe gives the bytes that are written to it to its readers in their order.
use mathlib.Core.List.{append_assoc, append-nil}
use public_systems_projects.Base.{
  ℕ, ◌≤◌, ◌≡◌, refl, sym, ap, ◌∙◌, Bool, true, false, List, ◌++◌, length, arith,
}
use public_systems_projects.Pipe.{Pipe, pipesize, new_pipe, pipeclose, close_end}
use public_systems_projects.Pipe.Bytes.{
  contents, count, slice, IsPipe, length-contents, pipewrite-Sends, piperead-Takes,
}
use public_systems_projects.Pipe.Processes.{
  System, start, Step, call_write, call_read, write, read, rouses, close, Run, begin, next,
}

new_pipe-IsPipe : (buffer : ℕ → ℕ) → IsPipe (new_pipe buffer)
unfolding new_pipe count
new_pipe-IsPipe buffer = record {
  nread_lt = omega arith;
  nwrite_lt = omega arith;
  count_le = omega arith;
}

close_end-IsPipe : (p : Pipe) (writable : Bool) → IsPipe p → IsPipe (close_end p writable)
unfolding close_end count
close_end-IsPipe p true is = record {
  nread_lt = is.nread_lt;
  nwrite_lt = is.nwrite_lt;
  count_le = is.count_le;
}
close_end-IsPipe p false is = record {
  nread_lt = is.nread_lt;
  nwrite_lt = is.nwrite_lt;
  count_le = is.count_le;
}

contents-close_end : (p : Pipe) (writable : Bool) → contents (close_end p writable) ≡ contents p
unfolding close_end contents count
contents-close_end p true = refl
contents-close_end p false = refl

module _ (kill : Bool) where
  -- The bytes that a step writes go behind those of the pipe, and those that it takes were in front.
  Moves : (s : System) (bytes taken : List ℕ) (t : System) → Type 0
  Moves s bytes taken t = IsPipe t.pipe × (contents s.pipe ++ bytes ≡ taken ++ contents t.pipe)

  Step-Moves :
      (s : System) (bytes taken : List ℕ) (t : System)
      → IsPipe s.pipe
      → Step kill s bytes taken t
      → Moves s bytes taken t
  unfolding Moves pipeclose
  Step-Moves s _ _ _ is (call_write i bytes at) = (is, append-nil _)
  Step-Moves s _ _ _ is (call_read i n at) = (is, append-nil _)
  Step-Moves s _ _ _ is (write i n rest killed at may) =
      let sends = pipewrite-Sends killed n s.pipe rest is in (sends.valid, sym sends.behind)
  Step-Moves s _ _ _ is (read i n killed at may) =
      let takes = piperead-Takes killed n s.pipe is in (takes.valid, append-nil _ ∙ takes.front)
  Step-Moves s _ _ _ is (rouses i call at may) = (is, append-nil _)
  Step-Moves s _ _ _ is (close writable stays) =
      (close_end-IsPipe s.pipe writable is, append-nil _ ∙ sym (contents-close_end s.pipe writable))

  Run-Moves :
      (s : System) (sent received : List ℕ) (t : System)
      → IsPipe s.pipe
      → Run kill s sent received t
      → Moves s sent received t
  unfolding Moves
  Run-Moves s _ _ _ is begin = (is, append-nil _)
  Run-Moves s _ _ _ is (next sent received t bytes taken u run step) =
      let (mid, before) = Run-Moves s sent received t is run in
      let (valid, after) = Step-Moves t bytes taken u mid step in
      (
        valid,
        sym (append_assoc (contents s.pipe) sent bytes)
            ∙ ap (λ l. l ++ bytes) before
            ∙ append_assoc received (contents t.pipe) bytes
            ∙ ap (λ l. received ++ l) after
            ∙ sym (append_assoc received taken (contents u.pipe)),
      )

  -- In every run of processes on a new pipe, the bytes that were written are those that were read, in the
  -- same order, followed by the at most 512 bytes that the pipe holds.
  pub Run-fifo :
      (m : ℕ) (buffer : ℕ → ℕ) (sent received : List ℕ) (t : System)
      → Run kill (start m buffer) sent received t
      → (sent ≡ received ++ contents t.pipe) × (length (contents t.pipe) ≤ pipesize)
  unfolding Moves start new_pipe contents slice count
  Run-fifo m buffer sent received t run =
      let (valid, moved) =
        Run-Moves (start m buffer) sent received t (new_pipe-IsPipe buffer) run in
      (moved, omega (arith, length-contents t.pipe valid, valid.count_le))
