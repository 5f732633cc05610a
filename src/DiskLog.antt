-- ===== src/DiskLog.antt =====
-- Assignment9_xv6/part1/xv6-public/log.c: the log that makes groups of writes to the disk atomic. The disk
-- has its header block apart from the others. `power` is the number of writes that still reach the disk:
-- after a crash nothing does. A block that the cache does not hold is read from the disk.
pub mod Recovery
mod Clean
pub mod Commit
pub mod Space
pub mod Store
mod Calls
pub mod Atomic
mod Tests
use public_systems_projects.Base.{
  ℕ, zero, suc, ◌+◌, ◌-◌, ◌*◌, ◌≡◌, Bool, true, false, ◌||◌, ltb, leb, ◌==◌, if◌then◌else◌, Option,
  none, some, List, [], ◌∷◌, put, length, Outcome, ret, fault, blocked, ◌>>=◌,
}

abbrev pub maxopblocks : ℕ
maxopblocks = 10

abbrev pub logsize : ℕ
logsize = maxopblocks * 3

abbrev pub Block : Type 0
Block = List ℕ

-- The header block is the list of the block numbers in `struct logheader`.
pub record Disk : Type 0 where
  pub header : List ℕ
  pub blocks : ℕ → Block

-- The disk, what of it is in the buffer cache, and `struct log`.
pub record Machine : Type 0 where
  pub disk : Disk
  pub power : ℕ
  pub cache : ℕ → Option Block
  pub start : ℕ
  pub size : ℕ
  pub outstanding : ℕ
  pub committing : ℕ
  pub lh : List ℕ

unfoldable pub bread : Machine → ℕ → Block
bread m n = elim (m.cache n) [ none ↦ m.disk.blocks n | some b ↦ b ]

-- A buffer that holds `b` is written to its block.
unfoldable pub bwrite : Machine → ℕ → Block → Machine
unfolding put
bwrite m n b = record m {
  cache = put m.cache n (some b);
  power = m.power - 1;
  disk = record (m.disk) { blocks = if m.power == 0 then m.disk.blocks else put m.disk.blocks n b };
}

-- the loop of `install_trans` from `tail` on, for the block numbers that are left
unfoldable pub install_loop : ℕ → List ℕ → Machine → Machine
install_loop tail [] m = m
install_loop tail (b ∷ rest) m =
    install_loop (tail + 1) rest (bwrite m b (bread m (m.start + tail + 1)))

unfoldable pub install_trans : Machine → Machine
install_trans m = install_loop 0 m.lh m

unfoldable pub read_head : Machine → Machine
read_head m = record m { lh = m.disk.header }

unfoldable pub write_head : Machine → Machine
write_head m = record m {
  power = m.power - 1;
  disk = record (m.disk) { header = if m.power == 0 then m.disk.header else m.lh };
}

unfoldable pub recover_from_log : Machine → Machine
recover_from_log m =
    let installed = install_trans (read_head m) in write_head (record installed { lh = [] })

-- a machine with this disk that has just been started, up to `recover_from_log`, which `initlog` calls
unfoldable pub boot : (start size power : ℕ) → Disk → Machine
boot start size power d = record {
  disk = d;
  power = power;
  cache = λ n. none;
  start = start;
  size = size;
  outstanding = 0;
  committing = 0;
  lh = [];
}

unfoldable pub initlog : (start size power : ℕ) → Disk → Machine
initlog start size power d = recover_from_log (boot start size power d)

-- the loop of `write_log` from `tail` on
unfoldable pub write_loop : ℕ → List ℕ → Machine → Machine
write_loop tail [] m = m
write_loop tail (b ∷ rest) m =
    write_loop (tail + 1) rest (bwrite m (m.start + tail + 1) (bread m b))

unfoldable pub write_log : Machine → Machine
write_log m = write_loop 0 m.lh m

-- `commit` from the write of the header on
unfoldable pub commit_rest : Machine → Machine
commit_rest m =
    let installed = install_trans (write_head m) in write_head (record installed { lh = [] })

unfoldable pub commit : Machine → Machine
commit m = if ltb 0 (length m.lh) then commit_rest (write_log m) else m

-- One test of the loop of `begin_op`: `none` where the caller goes to sleep.
unfoldable pub begin_op : Machine → Option Machine
begin_op m =
    if ltb 0 m.committing || ltb logsize (length m.lh + (m.outstanding + 1) * maxopblocks)
    then none
    else some (record m { outstanding = m.outstanding + 1 })

-- A call with none outstanding, which would make the `int` negative, counts as a fault.
unfoldable pub end_op : Machine → Outcome Machine
end_op m =
    let closed = record m { outstanding = m.outstanding - 1 } in
    let done = record (commit (record closed { committing = 1 })) { committing = 0 } in
    if m.outstanding == 0
    then fault
    else if ltb 0 m.committing
    then blocked
    else if closed.outstanding == 0
    then ret done
    else ret closed

-- the loop of `log_write` and what follows it
unfoldable pub log_add : ℕ → List ℕ → List ℕ
log_add b [] = b ∷ []
log_add b (c ∷ rest) = let more = log_add b rest in if c == b then b ∷ rest else c ∷ more

-- The caller has put `data` in the buffer of the block `b`. panic never returns.
unfoldable pub log_write : Machine → ℕ → Block → Outcome Machine
log_write m b contents =
    if leb logsize (length m.lh) || leb (m.size - 1) (length m.lh)
    then blocked
    else if ltb m.outstanding 1
    then blocked
    else ret (record m { cache = put m.cache b (some contents); lh = log_add b m.lh })
