-- ===== src/Queue/Refine.antt =====
-- A valid queue behaves as the bounded first-in first-out list of its items.
use public_systems_projects.Base.{
  ℕ, suc, ◌+◌, ◌%◌, ◌≡◌, ◌≢◌, ◌⊎◌, refl, ap, ◌∙◌, sym, some, List, [], ◌∷◌, ◌++◌, arith, length,
  set, ℤ, pos, negsuc, Outcome, ret, exit, ◌>>=◌, map_ret, ◌==◌, inl, inr, if◌then◌else◌,
}
use native.Mathlib.Decide.{ℕ_discrete}
use public_systems_projects.Queue.{
  Queue, queue_enqueue, queue_dequeue, queue_empty, queue_full, queue_size, step, run, Op, enqueue,
  dequeue, empty?, full?, size?,
}
use public_systems_projects.Queue.Fifo
use public_systems_projects.Queue.Fifo.{Fifo}
use public_systems_projects.Queue.Inv.{
  IsValid, array, grown, shrunk, add_item_lem, dequeue_lem, grown-IsValid, shrunk-IsValid,
}
use public_systems_projects.Queue.Slots.{slots, length-slots, slots-grow, slots-shrink}

-- the items of a queue, oldest first
abbrev pub contents : Queue → Fifo
contents q = slots (array q) q.capacity q.front q.size

module _ {q : Queue} (v : IsValid q) where
  enqueue-full : (x : ℕ) → q.size ≡ q.capacity → queue_enqueue (some q) x ≡ ret (negsuc 0, q)
  unfolding queue_enqueue queue_full
  enqueue-full x full = ground arith

  enqueue-room : (x : ℕ) → q.size ≢ q.capacity → queue_enqueue (some q) x ≡ ret (pos 0, grown q x)
  unfolding queue_enqueue queue_full
  enqueue-room x room = ground (arith, add_item_lem v x room)

  contents-grown : (x : ℕ) → q.size ≢ q.capacity → contents (grown q x) ≡ contents q ++ (x ∷ [])
  contents-grown x room =
      ap (λ k. slots (set (array q) k x) q.capacity q.front (q.size + 1)) v.back_is
      ∙ ap (slots (set (array q) ((q.front + q.size) % q.capacity) x) q.capacity q.front) one_more
      ∙ slots-grow (array q) q.capacity q.front q.size x (omega arith) v.full_array
    where
      one_more : q.size + 1 ≡ suc q.size
      one_more = omega arith

  contents-shrunk : q.size ≢ 0 → (y : ℕ) × (contents q ≡ y ∷ contents (shrunk q))
  contents-shrunk some_item = (_, slots-shrink (array q) q.capacity q.front q.size some_item)

  dequeue-empty : q.size ≡ 0 → queue_dequeue (some q) ≡ exit 1
  unfolding queue_dequeue
  dequeue-empty no_item = ground arith

length-contents : (q : Queue) → length (contents q) ≡ q.size
length-contents q = length-slots (array q) q.capacity q.front q.size

-- What a call of the code and a call of the list have in common: both exit with code 1, or the code gives the
-- reply of the list, that of dequeue replaced by 99999, and the queue, valid and of the same capacity, holds
-- the list.
abbrev pub Agree : ℕ → Op → Outcome (ℤ × Queue) → Outcome (ℤ × Fifo) → Type 0
Agree n op call spec =
    ((call ≡ exit 1) × (spec ≡ exit 1))
    ⊎ ((r : ℤ) × (q : Queue) × (call ≡ ret (Fifo.hide op r, q))
        × (spec ≡ ret (r, contents q))
        × IsValid q
        × (q.capacity ≡ n))

module _ {q : Queue} (v : IsValid q) where
  enqueue_refines :
      (x : ℕ)
      → Agree q.capacity
          (enqueue x)
          (step q (enqueue x))
          (Fifo.reply q.capacity (contents q) (enqueue x))
  unfolding step Fifo.reply
  enqueue_refines x = elim (ℕ_discrete q.size q.capacity) [
    | yes e ↦ inr (negsuc 0, q, enqueue-full v x e, ground (arith, length-contents q), v, refl)
    | no ne ↦ inr (
      pos 0,
      grown q x,
      enqueue-room v x ne,
      ground (arith, length-contents q, contents-grown v x ne),
      grown-IsValid v x ne,
      refl,
    )
  ]

  dequeue_refines :
      Agree q.capacity dequeue (step q dequeue) (Fifo.reply q.capacity (contents q) dequeue)
  unfolding step Fifo.reply
  dequeue_refines = elim (ℕ_discrete q.size 0) [
    | yes e ↦
        inl (rw (dequeue-empty v e), ap (λ k. Fifo.pop (slots (array q) q.capacity q.front k)) e)
    | no ne ↦
        let (y, shift) = contents-shrunk v ne in
        inr
          (pos y, shrunk q, rw (dequeue_lem v ne), rw (shift, Fifo.pop), shrunk-IsValid v ne, refl)
  ]

  -- Each call gives the reply of the bounded list of the queue's items, but dequeue 99999, and leaves a valid queue
  -- that holds the list that the abstract call leaves; dequeue on an empty queue exits with code 1.
  pub step_refines :
      (op : Op) → Agree q.capacity op (step q op) (Fifo.reply q.capacity (contents q) op)
  unfolding step Fifo.reply queue_empty queue_full queue_size
  step_refines (enqueue x) = enqueue_refines x
  step_refines dequeue = dequeue_refines
  step_refines empty? = inr (
    pos (if q.size == 0 then 1 else 0),
    q,
    ground arith,
    ground (arith, length-contents q),
    v,
    refl,
  )
  step_refines full? = inr (
    pos (if q.size == q.capacity then 1 else 0),
    q,
    ground arith,
    ground (arith, length-contents q),
    v,
    refl,
  )
  step_refines size? = inr (pos q.size, q, refl, ground (arith, length-contents q), v, refl)

-- A run, with the final queue seen as the list of its items.
abbrev pub view : Outcome (List ℤ × Queue) → Outcome (List ℤ × Fifo)
view = map_ret (λ (rs, q). (rs, contents q))

-- One more reply in front of those of a run.
abbrev reply_first : {S : Type 0} → ℤ → Outcome (List ℤ × S) → Outcome (List ℤ × S)
reply_first r m = m >>= λ (rs, s). ret (r ∷ rs, s)

view-reply_first :
    (r : ℤ) (m : Outcome (List ℤ × Queue)) → view (reply_first r m) ≡ reply_first r (view m)
view-reply_first r (ret _) = refl
view-reply_first r _ = refl

hidden-reply_first :
    (op : Op) (ops : List Op) (r : ℤ) (m : Outcome (List ℤ × Fifo))
    → reply_first (Fifo.hide op r) (Fifo.hidden ops m) ≡ Fifo.hidden (op ∷ ops) (reply_first r m)
hidden-reply_first op ops r (ret _) = refl
hidden-reply_first op ops r _ = refl

-- Any sequence of calls on a valid queue gives the replies of the bounded first-in first-out list of its
-- items, except that each dequeue returns 99999 in place of the item at the front, against the comment of
-- myqueue.h; or it exits where the list does. At the end the queue holds the final list.
pub run_refines :
    (ops : List Op) {q : Queue}
    → IsValid q
    → view (run q ops) ≡ Fifo.hidden ops (Fifo.replies q.capacity (contents q) ops)
unfolding run Fifo.replies
run_refines [] v = refl
run_refines (op ∷ ops) {q} v = elim (step_refines v op) [
  | inl (e, f) ↦ rw (e, f)
  | inr (r, q', e, f, v', same) ↦
      rw (e, f)
        (view-reply_first (Fifo.hide op r) (run q' ops)
          ∙ ap (reply_first (Fifo.hide op r)) (run_refines ops v')
          ∙ ap
              (λ n.
                reply_first (Fifo.hide op r) (Fifo.hidden ops (Fifo.replies n (contents q') ops)))
              same
          ∙ hidden-reply_first op ops r (Fifo.replies q.capacity (contents q') ops))
]

-- On a valid queue whose oldest item is `x`, dequeue removes `x` but hands out 99999: wherever `x`
-- is another number, the caller does not get the item.
pub dequeue_loses_item :
    {q : Queue} (x : ℕ) (xs : List ℕ)
    → IsValid q
    → contents q ≡ x ∷ xs
    → x ≢ 99999
    → (n : ℕ) × (q' : Queue) × (queue_dequeue (some q) ≡ ret (n, q')) × (n ≢ x) × (contents q' ≡ xs)
dequeue_loses_item {q} x xs v held other =
    let some_item : q.size ≢ 0 = omega (arith, length-contents q, ap length held) in
    let (y, shift) = contents-shrunk v some_item in
    (99999, shrunk q, dequeue_lem v some_item, λ e. other (sym e), cc)
