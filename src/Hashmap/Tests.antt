-- ===== src/Hashmap/Tests.antt =====
-- Runs of my_hashmap.c on a table of two buckets, and its theorems at it.
use public_systems_projects.Base.{
  ℕ, zero, suc, ◌+◌, ◌%◌, ◌≡◌, refl, sym, ap, ◌∙◌, true, none, some, [], ◌∷◌, ◌++◌, arith,
  if◌then◌else◌, get_elem?, length, replicate, ret, fault, ◌>>=◌, Text, text_eq, text_eq→eq,
  Bool-cases, inl, inr, some_inj,
}
use native.Mathlib.Nat.{mod-lt}
use mathlib.Core.Path.{subst}
use public_systems_projects.Hashmap.{
  node_blocks, pair, Bucket, Hashmap, string_hash, has_key, insert, get_value, remove_key,
  array_block, map_block, hashmap_delete, find_bucket,
}
use public_systems_projects.Hashmap.Chains.{is_some, lookup, Distinct}
use public_systems_projects.Hashmap.Buckets.{IsMap, view}
use public_systems_projects.Hashmap.View.{has_key_lem, remove_key_lem, insert_overflows}
use public_systems_projects.Hashmap.Create.{length_place}
use public_systems_projects.Hashmap.Listing.{all_pairs, owned, hashmap_delete_lem}

-- "ab" is mapped to "x" in the bucket of the even lengths.
abbrev ab : Text
ab = b'a' ∷ b'b' ∷ []

abbrev cd : Text
cd = b'c' ∷ b'd' ∷ []

abbrev x : Text
x = b'x' ∷ []

abbrev long : Text
long = replicate 8 b'z'

abbrev one_key : Hashmap
one_key = record {
  buckets = 2;
  array_of_lists = (pair ab x ∷ []) ∷ [] ∷ [];
  hash_function = string_hash;
}

one_key-IsMap : IsMap one_key (length_place 2)
unfolding string_hash lookup
one_key-IsMap = record {
  hashes = λ k. refl;
  in_range = λ k. mod-lt (length k) (omega arith);
  sized = refl;
  distinct = distinct;
  placed = placed;
}
  where
    distinct : (i : ℕ) (l : Bucket) → get_elem? one_key.array_of_lists i ≡ some l → Distinct l
    distinct zero l e = subst Distinct (some_inj e) (refl, tt)
    distinct (suc zero) l e = subst Distinct (some_inj e) tt
    distinct (suc (suc i)) l e = absurd (cc e)

    placed :
        (i : ℕ) (l : Bucket) (k : Text)
        → get_elem? one_key.array_of_lists i ≡ some l
        → is_some (lookup l k) ≡ true
        → length k % 2 ≡ i
    placed zero l k e found = elim (Bool-cases (text_eq ab k)) [
      | inl same ↦ ap (λ s. length s % 2) (sym (text_eq→eq ab k same))
      | inr differ ↦
          let q : is_some (if text_eq ab k then some x else none) ≡ true =
            ap (λ b. is_some (lookup b k)) (some_inj e) ∙ found in
          absurd (ground (arith, q, differ))
    ]
    placed (suc zero) l k e found = absurd (cc (ap (λ b. is_some (lookup b k)) (some_inj e)))
    placed (suc (suc i)) l k e found = absurd (cc e)

-- the allocator gives 16 bytes at least
abbrev rounded : ℕ → ℕ
rounded n = n + 16

-- the allocator gives what is asked for
abbrev exact : ℕ → ℕ
exact n = n

insert_then_get :
    (do m ← insert rounded true true (some one_key) cd long; get_value (some m) cd)
    ≡ ret (some long)
unfolding insert get_value find_bucket string_hash
insert_then_get = refl

remove_then_get : (do (m, _) ← remove_key (some one_key) ab; get_value (some m) ab) ≡ ret none
unfolding remove_key get_value find_bucket string_hash
remove_then_get = refl

has_key_lem_example : has_key (some one_key) ab ≡ ret 1
unfolding lookup
has_key_lem_example = has_key_lem one_key-IsMap ab

remove_key_lem_example :
    (m' : Hashmap) × (remove_key (some one_key) ab ≡ ret (m', node_blocks (pair ab x)))
    × IsMap m' (length_place 2)
    × ((j : Text)
        → view m' (length_place 2) j
          ≡ (if text_eq ab j then none else view one_key (length_place 2) j))
unfolding lookup
remove_key_lem_example = remove_key_lem one_key-IsMap ab

insert_overflows_example : insert exact true true (some one_key) cd x ≡ fault
unfolding lookup
insert_overflows_example = insert_overflows one_key-IsMap exact true true cd x refl refl

hashmap_delete_lem_example :
    hashmap_delete (some one_key)
    ≡ ret (owned (all_pairs one_key.array_of_lists) ++ (array_block ∷ map_block ∷ []))
hashmap_delete_lem_example = hashmap_delete_lem one_key refl
