-- ===== src/DiskLog/Tests.antt =====
-- A log of 30 blocks from address 2 on, and a machine with one call under way that has written block 50.
use public_systems_projects.Base.{
  blocked, ◌+◌, length, put, ℕ, ◌≡◌, ◌⊎◌, inr, refl, some, none, [], ◌∷◌, ret, arith,
}
use public_systems_projects.DiskLog.{
  logsize, Block, Disk, Machine, bread, bwrite, write_head, write_loop, write_log, install_loop,
  install_trans, commit_rest, commit, initlog, recover_from_log, read_head, boot, begin_op, end_op,
  log_write,
}
use public_systems_projects.DiskLog.Recovery.{
  has, AllHome, AreLogged, Holds, restarts, restarts_end,
}
use public_systems_projects.DiskLog.Commit.{IsQuiet}
use public_systems_projects.DiskLog.Space
use public_systems_projects.DiskLog.Space.{Run, Run-log_write}
use public_systems_projects.DiskLog.Store.{crashes_in_end, Store, StoreStep, Matches, closed}
use public_systems_projects.DiskLog.Atomic.{Step-Matches}

abbrev old : ℕ → Block
old n = []

abbrev empty_disk : Disk
empty_disk = record { header = []; blocks = old }

abbrev busy : Machine
busy = record {
  disk = empty_disk;
  power = 0;
  cache = put (λ n. none) 50 (some (7 ∷ []));
  start = 2;
  size = 30;
  outstanding = 1;
  committing = 0;
  lh = 50 ∷ [];
}

abbrev before : Store
before = record { stable = old; current = bread busy; under_way = 1 }

busy-IsQuiet : IsQuiet busy
unfolding has AllHome bread put
busy-IsQuiet = record {
  empty = refl;
  homes = (inr (omega arith), tt);
  fits = omega arith;
  clean = λ x out. ground (arith, out);
}

busy-Matches : Matches busy before
busy-Matches = record {
  quiet = busy-IsQuiet;
  counted = refl;
  not_committing = refl;
  stable = λ x at. refl;
  current = λ x at. refl;
}

-- power for two writes: the log and the header are written, and the block 50 is not
abbrev ended : Machine
ended = record (commit (closed (record busy { power = 2 }))) { committing = 0 }

ends : end_op (record busy { power = 2 }) ≡ ret ended
unfolding end_op
ends = refl

Step-Matches_example :
    (after : Store) × StoreStep before after
    × Matches (initlog 2 30 30 (restarts 2 30 (1 ∷ []) ended.disk)) after
Step-Matches_example =
    Step-Matches busy (initlog 2 30 30 (restarts 2 30 (1 ∷ []) ended.disk)) before busy-Matches
      (crashes_in_end 2 ended (1 ∷ []) ends)

recovers : (initlog 2 30 30 ended.disk).disk.blocks 50 ≡ 7 ∷ []
unfolding initlog recover_from_log read_head boot commit commit_rest write_log write_loop
    install_trans install_loop write_head bwrite bread
recovers = refl

-- two blocks are logged, and recovery has yet to copy them
abbrev logged : Disk
logged = record { header = 50 ∷ 51 ∷ []; blocks = put (put old 3 (7 ∷ [])) 4 (8 ∷ []) }

abbrev wanted : ℕ → Block
wanted = put (put (put (put old 3 (7 ∷ [])) 4 (8 ∷ [])) 50 (7 ∷ [])) 51 (8 ∷ [])

logged-Holds : Holds 2 30 logged wanted
unfolding has AllHome AreLogged put
logged-Holds = record {
  homes = (inr (omega arith), (inr (omega arith), tt));
  fits = omega arith;
  logged = (refl, (refl, tt));
  rest = λ x at out. ground (arith, out);
}

restarts_end_example :
    let r = (initlog 2 30 30 (restarts 2 30 (1 ∷ 0 ∷ []) logged)).disk in
    Holds 2 30 r wanted × (r.header ≡ [])
restarts_end_example = restarts_end 2 30 wanted (1 ∷ 0 ∷ []) 30 logged logged-Holds (omega arith)

abbrev fresh : Machine
fresh = record {
  disk = empty_disk;
  power = 0;
  cache = λ n. none;
  start = 2;
  size = 30;
  outstanding = 0;
  committing = 0;
  lh = [];
}

abbrev one_call : Machine
one_call = record fresh { outstanding = 1 }

one_opened : Run fresh one_call 10
unfolding begin_op
one_opened = Space.begins fresh one_call 0 (Space.opened refl refl) refl

Run-log_write_example :
    ((t' : Machine) × (log_write one_call 50 [] ≡ ret t'))
    ⊎ ((◌≡◌ {A = ℕ} 9 0)
        × (length one_call.lh + 1 ≡ logsize)
        × (log_write one_call 50 [] ≡ blocked))
Run-log_write_example = Run-log_write fresh one_call 9 50 [] refl one_opened
