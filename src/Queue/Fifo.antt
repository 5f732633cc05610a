-- ===== src/Queue/Fifo.antt =====
-- A first-in first-out list of at most `cap` items, of which dequeue returns the item at the front, as the
-- comments of myqueue.h say; and what the calls of myqueue.h return in place of its replies.
use public_systems_projects.Base.{
  ℕ, List, [], ◌∷◌, ◌++◌, ◌==◌, if◌then◌else◌, length, ℤ, pos, negsuc, Outcome, ret, exit, ◌>>=◌,
  map_ret,
}
use public_systems_projects.Queue.{Op, enqueue, dequeue, empty?, full?, size?}

abbrev pub Fifo : Type 0
Fifo = List ℕ

unfoldable pub pop : Fifo → Outcome (ℤ × Fifo)
pop [] = exit 1
pop (x ∷ xs) = ret (pos x, xs)

module _ (cap : ℕ) where
  unfoldable pub reply : Fifo → Op → Outcome (ℤ × Fifo)
  unfolding pop
  reply xs (enqueue x) =
      if length xs == cap then ret (negsuc 0, xs) else ret (pos 0, xs ++ (x ∷ []))
  reply xs dequeue = pop xs
  reply xs empty? = ret (pos (if length xs == 0 then 1 else 0), xs)
  reply xs full? = ret (pos (if length xs == cap then 1 else 0), xs)
  reply xs size? = ret (pos (length xs), xs)

  unfoldable pub replies : Fifo → List Op → Outcome (List ℤ × Fifo)
  replies xs [] = ret ([], xs)
  replies xs (op ∷ ops) = do (r, ys) ← reply xs op; (rs, zs) ← replies ys ops; ret (r ∷ rs, zs)

-- What the code returns in place of a reply: the constant 99999 for each item that is dequeued.
abbrev pub hide : Op → ℤ → ℤ
hide (enqueue x) r = r
hide dequeue r = pos 99999
hide empty? r = r
hide full? r = r
hide size? r = r

abbrev pub hide_all : List Op → List ℤ → List ℤ
hide_all [] rs = []
hide_all (op ∷ ops) [] = []
hide_all (op ∷ ops) (r ∷ rs) = hide op r ∷ hide_all ops rs

abbrev pub hidden : List Op → Outcome (List ℤ × Fifo) → Outcome (List ℤ × Fifo)
hidden ops = map_ret (λ (rs, xs). (hide_all ops rs, xs))
