-- ===== src/Memory.antt =====
-- A heap of list nodes, each with some payload and a pointer to the next node. It serves every part
-- of the repository that keeps nodes on a linked list.
pub mod Chain
pub mod Extend
use public_systems_projects.Base.{
  ℕ, zero, suc, Option, none, some, ◌==◌, if◌then◌else◌, Outcome, ret, fault, out_of_fuel, ◌>>=◌,
  deref,
}

abbrev pub Ptr : Type 0
Ptr = ℕ

abbrev pub null : Ptr
null = 0

pub record Node (P : Type 0) : Type 0 where
  pub payload : P
  pub next : Ptr

abbrev pub node : {P : Type 0} → P → Ptr → Node P
node a q = record { payload = a; next = q }

-- `none` at addresses where no node is allocated.
abbrev pub Heap : Type 0 → Type 0
Heap P = Ptr → Option (Node P)

module _ {P : Type 0} where
  unfoldable pub write : Heap P → Ptr → Option (Node P) → Heap P
  write h p c a = if a == p then c else h a

  -- `*p`: undefined at NULL and where no node is allocated
  unfoldable pub load : Heap P → Ptr → Outcome (Node P)
  load h p = if p == null then fault else deref (h p)

  -- `p->next = q`
  unfoldable pub set_next : Heap P → Ptr → Ptr → Outcome (Heap P)
  set_next h p q = do n ← load h p; ret (write h p (some (record n { next = q })))

  -- the assignment of a payload
  unfoldable pub set_payload : Heap P → Ptr → P → Outcome (Heap P)
  set_payload h p v = do n ← load h p; ret (write h p (some (record n { payload = v })))

  -- free(p) of a node: undefined for what is not allocated
  unfoldable pub free_node : Heap P → Ptr → Outcome (Heap P)
  free_node h p = do n ← load h p; ret (write h p none)

  -- malloc of a node that is filled in at once. The pointer that malloc returned is an argument, and
  -- the writes are undefined where it is NULL.
  unfoldable pub new_node : Heap P → Ptr → P → Ptr → Outcome (Heap P)
  new_node h fresh v q = if fresh == null then fault else ret (write h fresh (some (node v q)))

  -- the loop that frees a list: the next node is read before a node is freed
  unfoldable pub free_nodes : ℕ → Heap P → Ptr → Outcome (Heap P)
  free_nodes zero h head = out_of_fuel
  free_nodes (suc k) h head =
      if head == null
      then ret h
      else do top ← load h head; g ← free_node h head; free_nodes k g top.next
