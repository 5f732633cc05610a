-- ===== src/Hashmap/Listing.antt =====
-- `hashmap_printKeys` and `hashmap_delete`, which visit every node of the table.
use native.Mathlib.Decide.{ℕ_discrete}
use public_systems_projects.Base.{
  ℕ, zero, suc, ◌+◌, ◌≤◌, ◌<◌, ◌≡◌, ◌≢◌, refl, sym, ap, ap₂, ◌∙◌, none, some, Option, List, [], ◌∷◌,
  ◌++◌, arith, length, get_elem?, get_or, get_elem?-eq-get_or, ret, Text, text_eq, if◌then◌else◌,
  ltb, leb, ◌&&◌, inl, inr, Option-cases,
}
use public_systems_projects.Hashmap.{
  Pair, Bucket, Hashmap, Line, title, entry, print_chain, print_loop, print_keys, Block, key_block,
  value_block, pair_block, node_block, array_block, map_block, delete_chain, delete_loop,
  hashmap_delete,
}
use public_systems_projects.Hashmap.Chains.{is_some, or_else, or_else-none, lookup}
use public_systems_projects.Hashmap.Buckets.{IsMap, view}

-- the value printed behind the first line with the key
unfoldable pub find_line : List Line → Text → Option Text
find_line [] k = none
find_line (title i ∷ ls) k = find_line ls k
find_line (entry p ∷ ls) k = if text_eq p.key k then some p.value else find_line ls k

find_line-append :
    (ls ms : List Line) (k : Text)
    → find_line (ls ++ ms) k ≡ or_else (find_line ls k) (find_line ms k)
unfolding find_line
find_line-append [] ms k = refl
find_line-append (title i ∷ ls) ms k = find_line-append ls ms k
find_line-append (entry p ∷ ls) ms k = ground (arith, find_line-append ls ms k)

find_line-print_chain : (l : Bucket) (k : Text) → find_line (print_chain l) k ≡ lookup l k
unfolding find_line print_chain lookup
find_line-print_chain [] k = refl
find_line-print_chain (p ∷ l) k = ground (arith, find_line-print_chain l k)

-- the value of the key in the first of the buckets `i` to `i + n` that has it
unfoldable pub lookup_from : List Bucket → ℕ → ℕ → Text → Option Text
lookup_from lists i zero k = none
lookup_from lists i (suc n) k =
    or_else (lookup (get_or lists i []) k) (lookup_from lists (i + 1) n k)

print_loop_lem :
    (lists : List Bucket) (i n : ℕ)
    → i + n ≤ length lists
    → (ls : List Line) × (print_loop lists i n ≡ ret ls)
      × ((k : Text) → find_line ls k ≡ lookup_from lists i n k)
unfolding print_loop find_line lookup_from
print_loop_lem lists i zero fits = ([], refl, λ k. refl)
print_loop_lem lists i (suc n) fits =
    let (ls, e, seen) = print_loop_lem lists (i + 1) n (omega arith) in
    let l = get_or lists i [] in
    (
      title i ∷ (print_chain l ++ ls),
      rw (get_elem?-eq-get_or lists i [] (omega arith), e),
      λ k. find_line-append (print_chain l) ls k ∙ ap₂ or_else (find_line-print_chain l k) (seen k),
    )

module _ {m : Hashmap} {place : Text → ℕ} (is : IsMap m place) where
  only_at_place :
      (i : ℕ) (k : Text)
      → i < m.buckets
      → i ≢ place k
      → lookup (get_or m.array_of_lists i []) k ≡ none
  only_at_place i k inside ne = elim (Option-cases (lookup (get_or m.array_of_lists i []) k)) [
    | inl e ↦ e
    | inr (v, e) ↦ absurd (
        ne (
          sym (
            is.placed i (get_or m.array_of_lists i []) k
              (get_elem?-eq-get_or m.array_of_lists i [] (omega (arith, is.sized)))
              (ap is_some e))))
  ]

  lookup_from_lem :
      (i n : ℕ) (k : Text)
      → i + n ≤ m.buckets
      → lookup_from m.array_of_lists i n k
        ≡ (if leb i (place k) && ltb (place k) (i + n) then view m place k else none)
  unfolding lookup_from
  lookup_from_lem i zero k fits = ground arith
  lookup_from_lem i (suc n) k fits = elim (ℕ_discrete i (place k)) [
    | yes p ↦ ground (
      arith,
      lookup_from_lem (i + 1) n k,
      ap (λ b. lookup (get_or m.array_of_lists b []) k) p,
      or_else-none (view m place k),
    )
    | no p ↦
        rw (only_at_place i k (omega arith) p)
          (ground (arith, lookup_from_lem (i + 1) n k (omega arith)))
  ]

  -- `hashmap_printKeys` reads no bucket out of range, and its lines, read back, are the table: each
  -- key is printed with the value that the table maps it to, and no other key is printed.
  pub print_keys_lem :
      (ls : List Line) × (print_keys (some m) ≡ ret ls)
      × ((k : Text) → find_line ls k ≡ view m place k)
  unfolding print_keys
  print_keys_lem =
      let (ls, e, seen) = print_loop_lem m.array_of_lists 0 m.buckets (omega (arith, is.sized)) in
      (
        ls,
        e,
        λ k. seen k ∙ lookup_from_lem 0 m.buckets k (omega arith) ∙ ground (arith, is.in_range k),
      )

-- the pairs of all buckets, in order
unfoldable pub all_pairs : List Bucket → List Pair
all_pairs [] = []
all_pairs (l ∷ ls) = l ++ all_pairs ls

-- the blocks that a table of these pairs owns, in the order in which the code frees them
unfoldable pub owned : List Pair → List Block
owned [] = []
owned (p ∷ ps) = key_block p ∷ value_block p ∷ pair_block p ∷ node_block p ∷ owned ps

owned-append : (ps qs : List Pair) → owned (ps ++ qs) ≡ owned ps ++ owned qs
unfolding owned
owned-append [] qs = refl
owned-append (p ∷ ps) qs =
    ap (λ r. key_block p ∷ value_block p ∷ pair_block p ∷ node_block p ∷ r) (owned-append ps qs)

delete_chain-owned : (l : Bucket) → delete_chain l ≡ owned l
unfolding delete_chain owned
delete_chain-owned [] = refl
delete_chain-owned (p ∷ l) =
    ap (λ r. key_block p ∷ value_block p ∷ pair_block p ∷ node_block p ∷ r) (delete_chain-owned l)

-- the loop over the buckets behind those of `done`
delete_loop_lem :
    (lists : List Bucket) (i n : ℕ) (rest : List Bucket)
    → length rest ≡ n
    → ((j : ℕ) → get_elem? lists (i + j) ≡ get_elem? rest j)
    → delete_loop lists i n ≡ ret (owned (all_pairs rest))
unfolding delete_loop all_pairs owned
delete_loop_lem lists i zero [] e same = refl
delete_loop_lem lists i zero (l ∷ rest) e same = absurd (omega arith)
delete_loop_lem lists i (suc n) [] e same = absurd (omega arith)
delete_loop_lem lists i (suc n) (l ∷ rest) e same =
    rw
      (
        ap (get_elem? lists) zero_more ∙ same 0,
        delete_loop_lem lists (i + 1) n rest (omega arith)
            λ j. ap (get_elem? lists) (omega arith) ∙ same (suc j),
      )
      (ap ret (
        ap (λ b. b ++ owned (all_pairs rest)) (delete_chain-owned l)
        ∙ sym (owned-append l (all_pairs rest))))
  where
    zero_more : i ≡ i + 0
    zero_more = omega arith

-- `hashmap_delete` of a table with as many buckets as its array frees the four blocks of each pair
-- once, bucket by bucket, and then the array and the map.
pub hashmap_delete_lem :
    (m : Hashmap)
    → length m.array_of_lists ≡ m.buckets
    → hashmap_delete (some m)
      ≡ ret (owned (all_pairs m.array_of_lists) ++ (array_block ∷ map_block ∷ []))
unfolding hashmap_delete
hashmap_delete_lem m sized = rw (
    delete_loop_lem m.array_of_lists 0 m.buckets m.array_of_lists sized
      λ j. ap (get_elem? m.array_of_lists) (omega arith))
