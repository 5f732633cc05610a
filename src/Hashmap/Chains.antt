-- ===== src/Hashmap/Chains.antt =====
-- The loops of my_hashmap.c over one chain, as operations on the association list of its pairs.
use public_systems_projects.Base.{
  ◌≡◌, refl, ap, ap₂, some_inj, ◌&&◌, text_eq_congr, text_eq_congr_right, Bool, true, false, Option,
  none, some, [], ◌∷◌, arith, if◌then◌else◌, ret, Text, text_eq, text_eq→eq, text_eq_comm,
  Bool-cases, inl, inr,
}
use public_systems_projects.Hashmap.{
  Pair, pair, node_blocks, value_block, Bucket, has_key_loop, add_last, insert_node, get_value_loop,
  remove_loop, remove_node, update_loop,
}

abbrev pub is_some : Option Text → Bool
is_some none = false
is_some (some _) = true

abbrev pub or_else : Option Text → Option Text → Option Text
or_else none o = o
or_else (some v) o = some v

pub or_else-none : (o : Option Text) → or_else o none ≡ o
or_else-none none = refl
or_else-none (some v) = refl

-- the value of the first pair with the key
unfoldable pub lookup : Bucket → Text → Option Text
lookup [] k = none
lookup (p ∷ l) k = if text_eq p.key k then some p.value else lookup l k

-- no two pairs of the chain have the same key
abbrev pub Distinct : Bucket → Type 0
Distinct [] = Unit {0}
Distinct (p ∷ l) = (lookup l p.key ≡ none) × Distinct l

-- the chain less the first pair with the key
unfoldable pub erase : Bucket → Text → Bucket
erase [] k = []
erase (p ∷ l) k = if text_eq p.key k then l else p ∷ erase l k

-- the chain with a new value in the first pair with the key
unfoldable pub put : Bucket → Text → Text → Bucket
put [] k v = []
put (p ∷ l) k v = if text_eq p.key k then pair p.key v ∷ l else p ∷ put l k v

-- Equal keys find the same value.
pub lookup_congr : (l : Bucket) (j k : Text) → text_eq j k ≡ true → lookup l j ≡ lookup l k
lookup_congr l j k e = ap (lookup l) (text_eq→eq j k e)

pub has_key_loop-lookup :
    (l : Bucket) (k : Text) → has_key_loop l k ≡ (if is_some (lookup l k) then 1 else 0)
unfolding has_key_loop lookup
has_key_loop-lookup [] k = refl
has_key_loop-lookup (p ∷ l) k = ground (arith, has_key_loop-lookup l k)

pub get_value_loop-lookup :
    (l : Bucket) (k v : Text) → lookup l k ≡ some v → get_value_loop l k ≡ ret v
unfolding get_value_loop lookup
get_value_loop-lookup [] k v h = cc
get_value_loop-lookup (p ∷ l) k v h = ground (arith, get_value_loop-lookup l k v)

-- The pair that is found is that of the key and the value.
found_pair :
    (p : Pair) (l : Bucket) (k v : Text)
    → text_eq p.key k ≡ true
    → lookup (p ∷ l) k ≡ some v
    → p ≡ pair k v
unfolding lookup
found_pair p l k v same h = ap₂ pair (text_eq→eq p.key k same) (some_inj (rw same at (h)))

remove_loop-erase :
    (l : Bucket) (k v : Text)
    → lookup l k ≡ some v
    → remove_loop l k ≡ ret (erase l k, node_blocks (pair k v))
unfolding remove_loop lookup erase
remove_loop-erase [] k v h = cc
remove_loop-erase (p ∷ l) k v h = elim (Bool-cases (text_eq p.key k)) [
  | inl same ↦ rw same (ap (λ q. ret (l, node_blocks q)) (found_pair p l k v same h))
  | inr differs ↦ rw (differs, remove_loop-erase l k v (rw differs at (h))) refl
]

pub remove_node-erase :
    (l : Bucket) (k v : Text)
    → lookup l k ≡ some v
    → remove_node l k ≡ ret (erase l k, node_blocks (pair k v))
unfolding remove_node lookup erase
remove_node-erase [] k v h = cc
remove_node-erase (p ∷ l) k v h = elim (Bool-cases (text_eq p.key k)) [
  | inl same ↦ rw same (ap (λ q. ret (l, node_blocks q)) (found_pair p l k v same h))
  | inr differs ↦ rw (differs, remove_loop-erase l k v (rw differs at (h))) refl
]

pub update_loop-put :
    (l : Bucket) (k w v : Text)
    → lookup l k ≡ some v
    → update_loop l k w ≡ ret (put l k w, value_block (pair k v) ∷ [])
unfolding update_loop lookup put
update_loop-put [] k w v h = cc
update_loop-put (p ∷ l) k w v h = elim (Bool-cases (text_eq p.key k)) [
  | inl same ↦
      rw same (ap (λ q. ret (pair p.key w ∷ l, value_block q ∷ [])) (found_pair p l k v same h))
  | inr differs ↦ rw (differs, update_loop-put l k w v (rw differs at (h))) refl
]

lookup-add_last :
    (p : Pair) (l : Bucket) (k v j : Text)
    → lookup (add_last p l (pair k v)) j
      ≡ or_else (lookup (p ∷ l) j) (if text_eq k j then some v else none)
unfolding add_last lookup
lookup-add_last p [] k v j = ground arith
lookup-add_last p (q ∷ l) k v j = ground (arith, lookup-add_last q l k v j)

pub lookup-insert_node :
    (l : Bucket) (k v j : Text)
    → lookup (insert_node l (pair k v)) j
      ≡ or_else (lookup l j) (if text_eq k j then some v else none)
unfolding insert_node lookup
lookup-insert_node [] k v j = ground arith
lookup-insert_node (p ∷ l) k v j = ground (arith, lookup-add_last p l k v j)

pub lookup-put :
    (l : Bucket) (k w j : Text)
    → lookup (put l k w) j ≡ (if text_eq k j && is_some (lookup l j) then some w else lookup l j)
unfolding put lookup
lookup-put [] k w j = ground arith
lookup-put (p ∷ l) k w j =
    ground (arith, lookup-put l k w j, text_eq_congr p.key k j, text_eq_congr_right k j p.key)

pub lookup-erase :
    (l : Bucket) (k j : Text)
    → Distinct l
    → lookup (erase l k) j ≡ (if text_eq k j then none else lookup l j)
unfolding erase lookup
lookup-erase [] k j d = ground arith
lookup-erase (p ∷ l) k j (fresh, d) = ground (
  arith,
  lookup-erase l k j d,
  fresh,
  lookup_congr l p.key j,
  text_eq_congr p.key k j,
  text_eq_congr_right k j p.key,
)

Distinct-add_last :
    (p : Pair) (l : Bucket) (k v : Text)
    → Distinct (p ∷ l)
    → lookup (p ∷ l) k ≡ none
    → Distinct (add_last p l (pair k v))
unfolding add_last lookup
Distinct-add_last p [] k v d n = (ground (arith, text_eq_comm k p.key), (refl, tt))
Distinct-add_last p (q ∷ l) k v (fresh, d) n = (
  ground (arith, lookup-add_last q l k v p.key, text_eq_comm k p.key),
  Distinct-add_last q l k v d (ground arith),
)

pub Distinct-insert_node :
    (l : Bucket) (k v : Text) → Distinct l → lookup l k ≡ none → Distinct (insert_node l (pair k v))
unfolding insert_node lookup
Distinct-insert_node [] k v d n = (refl, tt)
Distinct-insert_node (p ∷ l) k v d n = Distinct-add_last p l k v d n

pub Distinct-erase : (l : Bucket) (k : Text) → Distinct l → Distinct (erase l k)
unfolding erase
Distinct-erase [] k d = tt
Distinct-erase (p ∷ l) k (fresh, d) = elim (Bool-cases (text_eq p.key k)) [
  | inl e ↦ rw e d
  | inr e ↦
      rw e
        (rw (lookup-erase l k p.key d) (ground (arith, text_eq_comm k p.key)), Distinct-erase l k d)
]

pub Distinct-put : (l : Bucket) (k w : Text) → Distinct l → Distinct (put l k w)
unfolding put
Distinct-put [] k w d = tt
Distinct-put (p ∷ l) k w (fresh, d) = elim (Bool-cases (text_eq p.key k)) [
  | inl e ↦ rw e (fresh, d)
  | inr e ↦ rw e (
    rw (lookup-put l k w p.key, fresh) (ground (arith, text_eq_comm k p.key)),
    Distinct-put l k w d,
  )
]
