-- ===== src/Stack/Trace.antt =====
-- Sequences of calls on one stack, with the addresses that malloc chose, against a last-in first-out
-- list.
use native.Mathlib.Decide.{ℕ_discrete}
use public_systems_projects.Base.{
  ℕ, ◌≡◌, ◌≢◌, refl, sym, ap, ap₂, ◌∙◌, Option, none, some, List, [], ◌∷◌, arith, length, ℤ, pos,
  negsuc, Outcome, ret, exit, ◌>>=◌, ◌==◌, if◌then◌else◌, ret-injective,
}
use mathlib.Core.Path.{subst₂}
use public_systems_projects.Memory.{Ptr, null, Heap}
use public_systems_projects.Memory.Chain.{Cells, payloads, length-payloads}
use public_systems_projects.Stack.{
  Stack, stack_enqueue, stack_dequeue, stack_size, stack_empty, stack_full,
}
use public_systems_projects.Stack.Ops.{
  IsStack, enqueue-full, enqueue-room, dequeue-nil, dequeue-cons,
}

pub record World : Type 0 where
  pub heap : Heap ℕ
  pub stack : Stack

pub data Op : Type 0 where
  push : ℕ → Op
  pop : Op
  size : Op
  empty : Op
  full : Op

-- A call that returned. For a push, malloc found an unused address.
pub data Step : World → Op → ℤ → World → Type 0 where
  pushing :
      {w w' : World} {r : ℤ} (fresh : Ptr) (x : ℕ)
      → fresh ≢ null
      → w.heap fresh ≡ none
      → stack_enqueue fresh w.heap (some w.stack) x ≡ ret (r, w'.heap, some w'.stack)
      → Step w (push x) r w'
  popping :
      {w w' : World} (n : ℕ)
      → stack_dequeue w.heap (some w.stack) ≡ ret (n, w'.heap, w'.stack)
      → Step w pop (pos n) w'
  asking : {w : World} (n : ℕ) → stack_size (some w.stack) ≡ ret n → Step w size (pos n) w
  asking_empty : {w : World} (n : ℕ) → stack_empty (some w.stack) ≡ ret n → Step w empty (pos n) w
  asking_full : {w : World} (n : ℕ) → stack_full (some w.stack) ≡ ret n → Step w full (pos n) w

pub data Steps : World → List Op → List ℤ → World → Type 0 where
  done : {w : World} → Steps w [] [] w
  more :
      {w w' w'' : World} {op : Op} {r : ℤ} {ops : List Op} {rs : List ℤ}
      → Step w op r w'
      → Steps w' ops rs w''
      → Steps w (op ∷ ops) (r ∷ rs) w''

-- The list of at most `bound` items; pop returns the item at the front, as the comments of mystack.h say.
abbrev pub lifo_pop : List ℕ → Outcome (ℤ × List ℕ)
lifo_pop [] = exit 1
lifo_pop (x ∷ xs) = ret (pos x, xs)

abbrev pub lifo : ℕ → List ℕ → Op → Outcome (ℤ × List ℕ)
lifo bound xs (push x) = if length xs == bound then ret (negsuc 0, xs) else ret (pos 0, x ∷ xs)
lifo bound xs pop = lifo_pop xs
lifo bound xs size = ret (pos (length xs), xs)
lifo bound xs empty = ret (pos (if length xs == 0 then 1 else 0), xs)
lifo bound xs full = ret (pos (if length xs == bound then 1 else 0), xs)

-- What the code returns in place of a reply: the constant 9999999 for each item that is popped.
abbrev pub hide : Op → ℤ → ℤ
hide (push x) r = r
hide pop r = pos 9999999
hide size r = r
hide empty r = r
hide full r = r

abbrev pub hide_all : List Op → List ℤ → List ℤ
hide_all [] rs = []
hide_all (op ∷ ops) [] = []
hide_all (op ∷ ops) (r ∷ rs) = hide op r ∷ hide_all ops rs

abbrev pub lifo_run : ℕ → List ℕ → List Op → Outcome (List ℤ × List ℕ)
lifo_run bound xs [] = ret ([], xs)
lifo_run bound xs (op ∷ ops) = do
  (r, ys) ← lifo bound xs op
  (rs, zs) ← lifo_run bound ys ops
  ret (r ∷ rs, zs)

-- `w'` is a stack of the items `ys`, of capacity `bound`.
abbrev Holds : ℕ → World → List ℕ → Type 0
Holds bound w ys =
    (xs : Cells ℕ) × IsStack w.heap w.stack xs × (payloads xs ≡ ys) × (w.stack.capacity ≡ bound)

-- What a call returned is the world of the stack `xs`, of the same capacity.
Holds-of_eq :
    {h g : Heap ℕ} {s t : Stack} (bound : ℕ) (xs : Cells ℕ)
    → h ≡ g
    → s ≡ t
    → IsStack h s xs
    → s.capacity ≡ bound
    → Holds bound (record { heap = g; stack = t }) (payloads xs)
Holds-of_eq {s} {t} bound xs p q is e =
    (xs, subst₂ (λ h s. IsStack h s xs) p q is, refl, ap (λ (u : Stack). u.capacity) (sym q) ∙ e)

Step-Holds :
    {w w' : World} {op : Op} {r : ℤ} (xs : Cells ℕ)
    → Step w op r w'
    → IsStack w.heap w.stack xs
    → (given : ℤ) × (ys : List ℕ) × (r ≡ hide op given)
      × (lifo w.stack.capacity (payloads xs) op ≡ ret (given, ys))
      × Holds w.stack.capacity w' ys
unfolding stack_size stack_empty stack_full
Step-Holds {w} {w'} xs (pushing {r} fresh x ne unused e) is =
    elim (ℕ_discrete (length xs) w.stack.capacity) [
      | yes at_bound ↦
          let p = ret-injective (sym (enqueue-full is fresh x at_bound) ∙ e) in
          (
            r,
            payloads xs,
            refl,
            ground (arith, length-payloads xs, ap (λ (t : ℤ × Heap ℕ × Option Stack). t.0) p),
            Holds-of_eq w.stack.capacity xs (ap (λ (t : ℤ × Heap ℕ × Option Stack). t.1) p) (cc p)
                is refl,
          )
      | no room ↦
          let (g, f, is', _) =
            enqueue-room is fresh x (omega (arith, is.within, is.counted)) ne unused in
          let p = ret-injective (sym f ∙ e) in
          (
            r,
            x ∷ payloads xs,
            refl,
            ground (arith, length-payloads xs, ap (λ (t : ℤ × Heap ℕ × Option Stack). t.0) p),
            Holds-of_eq w.stack.capacity ((fresh, x) ∷ xs)
                (ap (λ (t : ℤ × Heap ℕ × Option Stack). t.1) p) (cc p) is' refl,
          )
    ]
Step-Holds [] (popping n e) is = absurd (cc (dequeue-nil is))
Step-Holds {w} ((a, x) ∷ xs) (popping n e) is =
    let (g, s, f, is', same, _) = dequeue-cons a x xs is in
    let p = ret-injective (sym f ∙ e) in
    (
      pos x,
      payloads xs,
      ap (λ (t : ℕ × Heap ℕ × Stack). pos t.0) (sym p),
      refl,
      Holds-of_eq w.stack.capacity xs (ap (λ (t : ℕ × Heap ℕ × Stack). t.1) p)
          (ap (λ (t : ℕ × Heap ℕ × Stack). t.2) p) is' same,
    )
Step-Holds {w} xs (asking n e) is =
    let counted : w.stack.count ≡ n = ret-injective e in
    (
      pos n,
      payloads xs,
      refl,
      ap (λ k. ret (pos k, payloads xs)) (length-payloads xs ∙ sym is.counted ∙ counted),
      Holds-of_eq w.stack.capacity xs refl refl is refl,
    )
Step-Holds {w} xs (asking_empty n e) is = (
  pos n,
  payloads xs,
  refl,
  ground (arith, length-payloads xs, is.counted, e),
  Holds-of_eq w.stack.capacity xs refl refl is refl,
)
Step-Holds {w} xs (asking_full n e) is = (
  pos n,
  payloads xs,
  refl,
  ground (arith, length-payloads xs, is.counted, e),
  Holds-of_eq w.stack.capacity xs refl refl is refl,
)

lifo_run_more :
    {bound c : ℕ} {ys ys' zs : List ℕ} (xs : List ℕ) (op : Op) {r : ℤ} (ops : List Op) {rs : List ℤ}
    → lifo bound xs op ≡ ret (r, ys)
    → lifo_run c ys' ops ≡ ret (rs, zs)
    → ys' ≡ ys
    → c ≡ bound
    → lifo_run bound xs (op ∷ ops) ≡ ret (r ∷ rs, zs)
lifo_run_more {bound} {c} {ys} {ys'} {zs} xs op {r} ops {rs} e run held same = rw e (
    ap (λ (m : Outcome (List ℤ × List ℕ)). m >>= λ (qs, us). ret (r ∷ qs, us))
      (ap₂ (λ n l. lifo_run n l ops) (sym same) (sym held) ∙ run))

-- Whatever addresses malloc chooses, a sequence of calls that return, each of a push, a pop or one of the three
-- questions, gives the replies of the bounded last-in first-out list, except that each pop returns 9999999 in
-- place of the item at the front, against the comment of mystack.h. The nodes of the stack at the end hold the
-- final list.
pub Steps-lifo_run :
    {w w' : World} {ops : List Op} {rs : List ℤ} (xs : Cells ℕ)
    → Steps w ops rs w'
    → IsStack w.heap w.stack xs
    → (zs : Cells ℕ) × (given : List ℤ) × IsStack w'.heap w'.stack zs
      × (rs ≡ hide_all ops given)
      × (lifo_run w.stack.capacity (payloads xs) ops ≡ ret (given, payloads zs))
Steps-lifo_run xs done is = (xs, [], is, refl, refl)
Steps-lifo_run {w} xs (more {op} {ops} {rs} st rest) is =
    let (given, ys, told, e, inner) = Step-Holds xs st is in
    let (xs', is', held, same) = inner in
    let (zs, later, last, told', run) = Steps-lifo_run xs' rest is' in
    (
      zs,
      given ∷ later,
      last,
      ap₂ (λ q qs. q ∷ qs) told told',
      lifo_run_more (payloads xs) op ops e run held same,
    )
