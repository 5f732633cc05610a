-- ===== src/Hashmap/View.antt =====
-- The operations of my_hashmap.c on what the table maps each key to.
use public_systems_projects.Base.{
  Bool, false, Option, List, [], ◌∷◌, ℕ, ◌+◌, ◌≤◌, ◌<◌, ◌≡◌, ap, true, none, some, ◌&&◌, arith,
  if◌then◌else◌, length, ret, fault, Text, text_eq, text_eq→eq, inl, inr, Option-cases,
}
use public_systems_projects.Hashmap.{
  Hashmap, pair, has_key, insert, insert_node, get_value, remove_key, update, copy_text, Block,
  node_blocks, value_block,
}
use public_systems_projects.Hashmap.Chains.{
  is_some, or_else, or_else-none, erase, put, has_key_loop-lookup, get_value_loop-lookup,
  remove_node-erase, update_loop-put, lookup-insert_node, lookup-erase, lookup-put,
  Distinct-insert_node, Distinct-erase, Distinct-put,
}
use public_systems_projects.Hashmap.Buckets.{
  IsMap, view, chain_of, with_chain, with_chain_lem, find_bucket_lem, chain_of-Distinct,
}

-- Equal keys are mapped to the same value.
view_congr :
    (m : Hashmap) (place : Text → ℕ) (j k : Text)
    → text_eq j k ≡ true
    → view m place j ≡ view m place k
view_congr m place j k e = ap (view m place) (text_eq→eq j k e)

copy_text_lem :
    (usable : ℕ → ℕ) (n : ℕ) (s : Text) → length s + 1 ≤ usable n → copy_text usable n s ≡ ret s
unfolding copy_text
copy_text_lem usable n s fits = ground arith

copy_text_overflows :
    (usable : ℕ → ℕ) (n : ℕ) (s : Text) → usable n < length s + 1 → copy_text usable n s ≡ fault
unfolding copy_text
copy_text_overflows usable n s short = ground arith

-- the blocks of the node of a key
abbrev pub freed_with : Text → Option Text → List Block
freed_with k none = []
freed_with k (some v) = node_blocks (pair k v)

module _ {m : Hashmap} {place : Text → ℕ} (is : IsMap m place) where
  -- `hashmap_hasKey` answers 1 exactly for the keys that the table maps to something.
  pub has_key_lem :
      (k : Text) → has_key (some m) k ≡ ret (if is_some (view m place k) then 1 else 0)
  unfolding has_key
  has_key_lem k = rw (find_bucket_lem is k, has_key_loop-lookup (chain_of m place k) k)

  -- `hashmap_getValue` gives the value of the key, and NULL for a key that is not there. It never
  -- runs off a chain.
  pub get_value_lem : (k : Text) → get_value (some m) k ≡ ret (view m place k)
  unfolding get_value
  get_value_lem k = elim (Option-cases (view m place k)) [
    | inl no_key ↦ rw (has_key_lem k, no_key)
    | inr (v, found) ↦ rw (
      has_key_lem k,
      found,
      find_bucket_lem is k,
      get_value_loop-lookup (chain_of m place k) k v found,
    )
  ]

  -- `hashmap_removeKey` succeeds, keeps the table well formed and unmaps the key and no other. It frees the four
  -- blocks of the node of the key and its value, each once, and nothing where the key is not there.
  pub remove_key_lem :
      (k : Text)
      → (m' : Hashmap) × (remove_key (some m) k ≡ ret (m', freed_with k (view m place k)))
        × IsMap m' place
        × ((j : Text) → view m' place j ≡ (if text_eq k j then none else view m place j))
  unfolding remove_key
  remove_key_lem k = elim (Option-cases (view m place k)) [
    | inl no_key ↦ (m, rw (has_key_lem k, no_key), is, λ j. ground (arith, view_congr m place k j))
    | inr (v, found) ↦
        let l = chain_of m place k in
        let (valid, seen) =
          with_chain_lem is k (erase l k) (λ j o. if text_eq k j then none else o)
            (λ j. lookup-erase l k j (chain_of-Distinct is k)) (λ j o e. rw e)
            (Distinct-erase l k (chain_of-Distinct is k)) in
        (
          with_chain m (place k) (erase l k),
          rw (has_key_lem k, found, find_bucket_lem is k, remove_node-erase l k v found),
          valid,
          seen,
        )
  ]

  -- `hashmap_insert` succeeds where malloc has memory and gives room for the terminating bytes too. It keeps the
  -- table well formed, maps a new key to the value, and changes nothing for a key that is there and
  -- for all other keys.
  pub insert_lem :
      (usable : ℕ → ℕ) (k v : Text)
      → length k + 1 ≤ usable (length k)
      → length v + 1 ≤ usable (length v)
      → (m' : Hashmap) × (insert usable true true (some m) k v ≡ ret m')
        × IsMap m' place
        × ((j : Text)
            → view m' place j ≡ or_else (view m place j) (if text_eq k j then some v else none))
  unfolding insert
  insert_lem usable k v room_k room_v = elim (Option-cases (view m place k)) [
    | inr (w, found) ↦
        (m, rw (has_key_lem k, found), is, λ j. ground (arith, found, view_congr m place k j))
    | inl no_key ↦
        let l = chain_of m place k in
        let (valid, seen) =
          with_chain_lem is k (insert_node l (pair k v))
            (λ j o. or_else o (if text_eq k j then some v else none))
            (λ j. lookup-insert_node l k v j) (λ j o e. rw e (or_else-none o))
            (Distinct-insert_node l k v (chain_of-Distinct is k) no_key) in
        (
          with_chain m (place k) (insert_node l (pair k v)),
          rw (
            has_key_lem k,
            no_key,
            find_bucket_lem is k,
            copy_text_lem usable (length k) k room_k,
            copy_text_lem usable (length v) v room_v,
          ),
          valid,
          seen,
        )
  ]

  -- `hashmap_update` succeeds where the bytes that malloc gives for 8 hold the new value. It keeps
  -- the table well formed, maps a key that is there to the new value, and changes nothing for a key
  -- that is not there and for all other keys.
  pub update_lem :
      (usable : ℕ → ℕ) (k v : Text)
      → length v + 1 ≤ usable 8
      → (m' : Hashmap) × (freed : List Block) × (update usable (some m) k v ≡ ret (m', freed))
        × IsMap m' place
        × ((j : Text)
            → view m' place j
              ≡ (if text_eq k j && is_some (view m place j) then some v else view m place j))
  unfolding update
  update_lem usable k v room = elim (Option-cases (view m place k)) [
    | inl no_key ↦
        (m, [], rw (has_key_lem k, no_key), is, λ j. ground (arith, no_key, view_congr m place k j))
    | inr (w, found) ↦
        let l = chain_of m place k in
        let (valid, seen) =
          with_chain_lem is k (put l k v) (λ j o. if text_eq k j && is_some o then some v else o)
            (λ j. lookup-put l k v j) (λ j o e. rw e)
            (Distinct-put l k v (chain_of-Distinct is k)) in
        (
          with_chain m (place k) (put l k v),
          value_block (pair k w) ∷ [],
          rw (
            has_key_lem k,
            found,
            find_bucket_lem is k,
            copy_text_lem usable 8 v room,
            update_loop-put l k v w found,
          ),
          valid,
          seen,
        )
  ]

  -- Where malloc gives no byte more than it is asked for, every insert of a new key writes past the
  -- end of the copy of the key, or through a null pointer where there is no memory for the pair.
  pub insert_overflows :
      (usable : ℕ → ℕ) (pair_memory node_memory : Bool) (k v : Text)
      → view m place k ≡ none
      → usable (length k) ≡ length k
      → insert usable pair_memory node_memory (some m) k v ≡ fault
  unfolding insert copy_text
  insert_overflows usable true node_memory k v no_key exact =
      rw (has_key_lem k, no_key, find_bucket_lem is k)
        (rw (copy_text_overflows usable (length k) k (omega arith)))
  insert_overflows usable false node_memory k v no_key exact =
      rw (has_key_lem k, no_key, find_bucket_lem is k)

  -- Where malloc(8) gives 8 bytes, an update of a key that is there with a value of 8 bytes or more
  -- writes past the end of its copy.
  pub update_overflows :
      (usable : ℕ → ℕ) (k v : Text) {w : Text}
      → view m place k ≡ some w
      → usable 8 ≡ 8
      → 8 ≤ length v
      → update usable (some m) k v ≡ fault
  unfolding update copy_text
  update_overflows usable k v found exact long =
      rw (has_key_lem k, found, find_bucket_lem is k)
        (rw (copy_text_overflows usable 8 v (omega arith)))
