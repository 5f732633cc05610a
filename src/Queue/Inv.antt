-- ===== src/Queue/Inv.antt =====
-- The representation invariant of `queue_t`, and that the operations keep it.
use public_systems_projects.Base.{
  ℕ, ◌+◌, ◌-◌, ◌%◌, ◌≤◌, ◌<◌, ◌≡◌, ◌≢◌, refl, ap, sym, ◌∙◌, Option, none, some, List, [], arith,
  length, length-set, get_elem?_of_lt, set, pos, ret, uint_mod, add_uint, sub_uint,
}
use native.Mathlib.Nat.{mod-add-mod}
use public_systems_projects.Queue.{Queue, create_queue, add_item, write_at, mod_uint, queue_dequeue}

-- the values of the array `data`
abbrev pub array : Queue → List ℕ
array q = values q.items
  where
    values : Option (List ℕ) → List ℕ
    values none = []
    values (some xs) = xs

-- The array holds `capacity` values. Items stand at the `size` places from `front` on, going round,
-- and `back` is the place behind them.
pub record IsValid (q : Queue) : Type 0 where
  pub holds : q.items ≡ some (array q)
  pub full_array : length (array q) ≡ q.capacity
  pub small : q.capacity < uint_mod
  pub front_in : q.front ≤ q.capacity - 1
  pub size_in : q.size ≤ q.capacity
  pub back_is : q.back ≡ (q.front + q.size) % q.capacity

-- the state after an enqueue that had room
abbrev pub grown : Queue → ℕ → Queue
grown q x = record q {
  back = (q.back + 1) % q.capacity;
  size = q.size + 1;
  items = some (set (array q) q.back x);
}

-- the state after a dequeue
abbrev pub shrunk : Queue → Queue
shrunk q = record q { front = (q.front + 1) % q.capacity; size = q.size - 1 }

module _ {q : Queue} (v : IsValid q) where
  pub back-lt : q.size ≢ q.capacity → q.back < q.capacity
  back-lt room = omega arith

  -- With room left the write lands inside the array, nothing wraps and the call succeeds.
  pub add_item_lem : (x : ℕ) → q.size ≢ q.capacity → add_item q x ≡ ret (pos 0, grown q x)
  unfolding add_item write_at mod_uint
  add_item_lem x room =
      let (y, e) = get_elem?_of_lt (array q) q.back (omega (arith, back-lt room)) in
      rw (v.holds, e, no_wrap_back, no_wrap_size) (ground arith)
    where
      no_wrap_back : add_uint q.back 1 ≡ q.back + 1
      no_wrap_back = omega (arith, back-lt room)

      no_wrap_size : add_uint q.size 1 ≡ q.size + 1
      no_wrap_size = omega arith

  pub dequeue_lem : q.size ≢ 0 → queue_dequeue (some q) ≡ ret (99999, shrunk q)
  unfolding queue_dequeue mod_uint
  dequeue_lem some_item = ground (arith, no_wrap_front, no_wrap_size)
    where
      no_wrap_front : add_uint q.front 1 ≡ q.front + 1
      no_wrap_front = omega arith

      no_wrap_size : sub_uint q.size 1 ≡ q.size - 1
      no_wrap_size = omega arith

  pub grown-IsValid : (x : ℕ) → q.size ≢ q.capacity → IsValid (grown q x)
  grown-IsValid x room = record {
    holds = refl;
    full_array = omega (arith, length-set (array q) q.back x);
    small = v.small;
    front_in = v.front_in;
    size_in = omega arith;
    back_is =
        ap (λ k. (k + 1) % q.capacity) v.back_is
        ∙ mod-add-mod (q.front + q.size) q.capacity 1
        ∙ ap (λ k. k % q.capacity) (omega arith);
  }

  pub shrunk-IsValid : q.size ≢ 0 → IsValid (shrunk q)
  shrunk-IsValid some_item = record {
    holds = v.holds;
    full_array = v.full_array;
    small = v.small;
    front_in = omega arith;
    size_in = omega arith;
    back_is =
        v.back_is
        ∙ ap (λ k. k % q.capacity) (omega arith)
        ∙ sym (mod-add-mod (q.front + 1) q.capacity (q.size - 1));
  }

-- A queue made by `create_queue` from memory for the structure and for `capacity` items is valid
-- and empty.
pub create_queue-IsValid :
    (raw : Queue) (xs : List ℕ) (capacity : ℕ)
    → capacity < uint_mod
    → length xs ≡ capacity
    → (q : Queue) × (create_queue (some raw) (some xs) capacity ≡ ret q)
      × IsValid q
      × (q.size ≡ 0)
      × (q.capacity ≡ capacity)
unfolding create_queue
create_queue-IsValid raw xs capacity small sized =
    let q : Queue = record raw {
      back = 0;
      front = 0;
      size = 0;
      capacity = capacity;
      items = some xs;
    } in
    (
      q,
      refl,
      record {
        holds = refl;
        full_array = sized;
        small = small;
        front_in = omega arith;
        size_in = omega arith;
        back_is = omega arith;
      },
      refl,
      refl,
    )
