-- ===== src/DiskLog/Store.antt =====
-- The steps of the machine and of the store that it implements.

use public_systems_projects.Base.{
  put, ℕ, ◌+◌, ◌*◌, ◌-◌, ◌<◌, ◌≡◌, ◌⊎◌, inl, inr, ◌==◌, Bool-cases, some, List, length, ret, arith,
}
use public_systems_projects.DiskLog.{
  Block, Machine, bread, initlog, commit, begin_op, end_op, log_add, log_write,
}
use public_systems_projects.DiskLog.Recovery.{IsHome, restarts}
use public_systems_projects.DiskLog.Commit.{IsQuiet}

-- What happens to the file system's machine. In a step that does not crash the disk takes all writes. After
-- a crash recovery may crash again, after as many writes as the list says each time.
pub data Step (m : Machine) : Machine → Type 0 where
  begins : (m' : Machine) → begin_op m ≡ some m' → Step m m'
  writes :
      (b : ℕ) (c : Block) (m' : Machine)
      → IsHome m.start m.size b
      → log_write m b c ≡ ret m'
      → Step m m'
  ends : (m' : Machine) → end_op (record m { power = 2 * length m.lh + 2 }) ≡ ret m' → Step m m'
  crashes :
      (powers : List ℕ)
      → Step m (initlog m.start m.size m.size (restarts m.start m.size powers m.disk))
  crashes_in_end :
      (power : ℕ) (t : Machine) (powers : List ℕ)
      → end_op (record m { power = power }) ≡ ret t
      → Step m (initlog m.start m.size m.size (restarts m.start m.size powers t.disk))

-- The specification: what the disk has for good, what calls read, and how many calls are under way.
pub record Store : Type 0 where
  pub stable : ℕ → Block
  pub current : ℕ → Block
  pub under_way : ℕ

pub data StoreStep (a : Store) : Store → Type 0 where
  begins : StoreStep a (record a { under_way = a.under_way + 1 })
  writes :
      (b : ℕ) (c : Block) → 0 < a.under_way → StoreStep a (record a { current = put a.current b c })
  ends : 1 < a.under_way → StoreStep a (record a { under_way = a.under_way - 1 })
  commits : a.under_way ≡ 1 → StoreStep a (record a { stable = a.current; under_way = 0 })
  loses : StoreStep a (record a { current = a.stable; under_way = 0 })
  keeps : a.under_way ≡ 1 → StoreStep a (record a { stable = a.current; under_way = 0 })

-- The machine stands for the store, at the addresses outside the log.
pub record Matches (m : Machine) (a : Store) : Type 0 where
  pub quiet : IsQuiet m
  pub counted : m.outstanding ≡ a.under_way
  pub not_committing : m.committing ≡ 0
  pub stable : (x : ℕ) → IsHome m.start m.size x → m.disk.blocks x ≡ a.stable x
  pub current : (x : ℕ) → IsHome m.start m.size x → bread m x ≡ a.current x

-- The steps of the store that answer one of the machine.
unfoldable pub Answers : Store → Machine → Type 0
Answers a m' = (a' : Store) × StoreStep a a' × Matches m' a'

pub begin_op_inv :
    (m m' : Machine) → begin_op m ≡ some m' → m' ≡ record m { outstanding = m.outstanding + 1 }
unfolding begin_op
begin_op_inv m m' e = ground arith

pub log_write_inv :
    (m m' : Machine) (b : ℕ) (c : Block)
    → log_write m b c ≡ ret m'
    → (m' ≡ record m { cache = put m.cache b (some c); lh = log_add b m.lh })
      × (length m.lh + 1 < m.size)
      × (0 < m.outstanding)
unfolding log_write
log_write_inv m m' b c e = ground arith

-- The machine that the last call under way hands to `commit`.
abbrev pub closed : Machine → Machine
closed m = record m { outstanding = m.outstanding - 1; committing = 1 }

pub end_op_inv :
    (m m' : Machine)
    → end_op m ≡ ret m'
    → ((m.outstanding ≡ 1) × (m' ≡ record (commit (closed m)) { committing = 0 }))
      ⊎ ((1 < m.outstanding) × (m' ≡ record m { outstanding = m.outstanding - 1 }))
unfolding end_op
end_op_inv m m' e = elim (Bool-cases (m.outstanding - 1 == 0)) [
  | inl last ↦ inl (ground arith)
  | inr more ↦ inr (ground arith)
]
