-- ===== src/Pipe/Tests.antt =====
-- A writer of two bytes and a reader of one, and a killed writer.
use public_systems_projects.Base.{
  ℕ, ◌+◌, ◌≤◌, ◌<◌, ◌≡◌, refl, true, false, List, [], ◌∷◌, ◌++◌, length, replicate, arith, store,
}
use public_systems_projects.Pipe.{
  pipesize, put, take_byte, copy_loop, pipewrite, piperead, new_pipe,
}
use public_systems_projects.Pipe.Bytes.{IsPipe, contents, count}
use public_systems_projects.Pipe.Processes.{
  idle, waiting_read, wake, wake_all, after_write, after_read, System, start, call_write, call_read,
  write, read, Run, begin, next,
}
use public_systems_projects.Pipe.Fifo.{Run-fifo}
use public_systems_projects.Pipe.Wakeup.{Reason, Run-Reason}

abbrev blank : ℕ → ℕ
blank i = 0

abbrev last : System
last = record {
  pipe = record {
    buffer = store (store blank 0 7) 1 8;
    nread = 1;
    nwrite = 2;
    readopen = 1;
    writeopen = 1;
  };
  calls = idle ∷ idle ∷ [];
}

write_then_read : Run true (start 2 blank) (7 ∷ 8 ∷ []) (7 ∷ []) last
unfolding start new_pipe pipewrite put piperead copy_loop take_byte after_write after_read wake_all
    wake store
write_then_read =
    next _ _ _ _ _ _
      (next _ _ _ _ _ _
        (next _ _ _ _ _ _ (next _ _ _ _ _ _ begin (call_write 0 (7 ∷ 8 ∷ []) refl))
          (call_read 1 1 refl))
        (write 0 2 (7 ∷ 8 ∷ []) false refl (λ e. refl)))
      (read 1 1 false refl (λ e. refl))

Run-fifo_example :
    (◌≡◌ {A = List ℕ} (7 ∷ 8 ∷ []) ((7 ∷ []) ++ contents last.pipe))
    × (length (contents last.pipe) ≤ pipesize)
Run-fifo_example = Run-fifo true 2 blank (7 ∷ 8 ∷ []) (7 ∷ []) last write_then_read

abbrev waiting : System
waiting = record { pipe = new_pipe blank; calls = waiting_read 5 ∷ [] }

read_of_nothing : Run false (start 1 blank) [] [] waiting
unfolding start new_pipe piperead copy_loop after_read wake_all
read_of_nothing =
    next _ _ _ _ _ _ (next _ _ _ _ _ _ begin (call_read 0 5 refl)) (read 0 5 false refl (λ e. e))

Run-Reason_example : Reason waiting.pipe (waiting_read 5)
Run-Reason_example = Run-Reason 1 blank [] [] waiting 0 (waiting_read 5) read_of_nothing refl

abbrev many : List ℕ
many = replicate 513 7

new_pipe-IsPipe : IsPipe (new_pipe blank)
unfolding new_pipe count
new_pipe-IsPipe = record { nread_lt = omega arith; nwrite_lt = omega arith; count_le = omega arith }

fits_not : pipesize < count (new_pipe blank) + length many
unfolding new_pipe count
fits_not = omega arith
