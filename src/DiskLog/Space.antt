-- ===== src/DiskLog/Space.antt =====
-- The room that begin_op keeps for the calls under way.
use native.Mathlib.Decide.{dec_lt}
use public_systems_projects.Base.{
  put, ℕ, suc, ◌+◌, ◌*◌, ◌-◌, ◌≤◌, ◌<◌, ◌≡◌, ◌⊎◌, inl, inr, refl, ap, some, List, [], ◌∷◌, length,
  ret, blocked, arith,
}
use public_systems_projects.DiskLog.{
  Block, Machine, maxopblocks, logsize, begin_op, log_add, log_write,
}

-- What calls that write at most `maxopblocks` blocks each do. `left` counts the blocks that the calls under
-- way may still write; a call that ends gives up what it has left, and the last one commits.
pub data Run (m : Machine) : Machine → ℕ → Type 0 where
  opened : m.lh ≡ [] → m.outstanding ≡ 0 → Run m m 0
  begins :
      (t t' : Machine) (left : ℕ)
      → Run m t left
      → begin_op t ≡ some t'
      → Run m t' (left + maxopblocks)
  writes :
      (t t' : Machine) (left b : ℕ) (c : Block)
      → Run m t (suc left)
      → log_write t b c ≡ ret t'
      → Run m t' left
  ends :
      (t : Machine) (left fewer : ℕ)
      → Run m t left
      → 1 < t.outstanding
      → fewer ≤ left
      → fewer ≤ (t.outstanding - 1) * maxopblocks
      → Run m (record t { outstanding = t.outstanding - 1 }) fewer

record IsReserved (m t : Machine) (left : ℕ) : Type 0 where
  room : length t.lh + left ≤ logsize
  shared : left ≤ t.outstanding * maxopblocks
  same_size : t.size ≡ m.size

pub length-log_add : (b : ℕ) (bs : List ℕ) → length (log_add b bs) ≤ length bs + 1
unfolding log_add
length-log_add b [] = omega arith
length-log_add b (c ∷ bs) = ground (arith, length-log_add b bs)

begins-IsReserved :
    (m t t' : Machine) (left : ℕ)
    → IsReserved m t left
    → begin_op t ≡ some t'
    → IsReserved m t' (left + maxopblocks)
unfolding begin_op
begins-IsReserved m t t' left is e = ground arith

writes-IsReserved :
    (m t t' : Machine) (left b : ℕ) (c : Block)
    → IsReserved m t (suc left)
    → log_write t b c ≡ ret t'
    → IsReserved m t' left
unfolding log_write
writes-IsReserved m t t' left b c is e = ground (arith, length-log_add b t.lh)

Run-IsReserved : (m t : Machine) (left : ℕ) → Run m t left → IsReserved m t left
Run-IsReserved m _ _ (opened empty idle) = record {
  room = omega (arith, ap length empty);
  shared = omega (arith, idle);
  same_size = refl;
}
Run-IsReserved m _ _ (begins t t' left run e) =
    begins-IsReserved m t t' left (Run-IsReserved m t left run) e
Run-IsReserved m _ _ (writes t t' left b c run e) =
    writes-IsReserved m t t' left b c (Run-IsReserved m t (suc left) run) e
Run-IsReserved m _ _ (ends t left fewer run more le share) =
    let is = Run-IsReserved m t left run in
    record { room = omega (arith, is.room, le); shared = share; same_size = is.same_size }

-- With LOGSIZE blocks, the size that mkfs gives the log, and in every run of calls that write at most ten
-- blocks each, from an empty log on, a write of a call that may still write returns, unless it is the last
-- one that the calls under way may make and the log holds LOGSIZE - 1 blocks: that one panics.
pub Run-log_write :
    (m t : Machine) (left b : ℕ) (c : Block)
    → m.size ≡ logsize
    → Run m t (suc left)
    → ((t' : Machine) × (log_write t b c ≡ ret t'))
      ⊎ ((left ≡ 0) × (length t.lh + 1 ≡ logsize) × (log_write t b c ≡ blocked))
unfolding log_write
Run-log_write m t left b c size run =
    let is = Run-IsReserved m t (suc left) run in
    elim (dec_lt (length t.lh + 1) logsize) [
      | yes room ↦ inl (
        record t { cache = put t.cache b (some c); lh = log_add b t.lh },
        ground (arith, room, size, is.shared, is.same_size),
      )
      | no full ↦ inr (
        omega (arith, full, is.room),
        omega (arith, full, is.room),
        ground (arith, full, size, is.same_size),
      )
    ]
