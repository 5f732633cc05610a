-- ===== src/Hashmap/Create.antt =====
-- `hashmap_create`, and calls with a NULL map.
use native.Mathlib.Nat.{mod-lt}
use mathlib.Core.Path.{subst}
use public_systems_projects.Base.{
  true, ℕ, zero, suc, ◌%◌, ◌<◌, ◌≡◌, refl, ap, none, some, List, [], arith, length, get_elem?,
  get_or, replicate, length-replicate, ret, exit, ◌>>=◌, Text, get_elem?-eq-get_or, sym,
}
use public_systems_projects.Hashmap.{
  Bucket, Hashmap, string_hash, hashmap_create, has_key, has_key_loop, find_bucket, get_value,
  insert, remove_key, update, hashmap_delete, print_keys,
}
use public_systems_projects.Hashmap.Chains.{lookup, Distinct}
use public_systems_projects.Hashmap.Buckets.{IsMap, view}

get_elem?-replicate : (n i : ℕ) (l b : Bucket) → get_elem? (replicate n l) i ≡ some b → b ≡ l
get_elem?-replicate zero i l b e = cc
get_elem?-replicate (suc n) zero l b e = cc
get_elem?-replicate (suc n) (suc i) l b e = get_elem?-replicate n i l b e

get_or-replicate : (n i : ℕ) (l : Bucket) → i < n → get_or (replicate n l) i [] ≡ l
get_or-replicate zero i l h = absurd (omega arith)
get_or-replicate (suc n) zero l h = refl
get_or-replicate (suc n) (suc i) l h = get_or-replicate n i l (omega arith)

abbrev pub length_place : ℕ → Text → ℕ
length_place n k = length k % n

-- Where the memory of the array happens to be all NULL, a new table with at least one bucket is well
-- formed, with the length of a key modulo the number of buckets as its place, and maps no key.
pub hashmap_create-IsMap :
    (raw : Hashmap) (n : ℕ)
    → 0 < n
    → (m : Hashmap) × (hashmap_create (some raw) (replicate n []) n ≡ ret m)
      × IsMap m (length_place n)
      × ((k : Text) → view m (length_place n) k ≡ none)
unfolding hashmap_create string_hash lookup
hashmap_create-IsMap raw n pos = (
  record raw { buckets = n; array_of_lists = replicate n []; hash_function = string_hash },
  refl,
  record {
    hashes = λ k. ground arith;
    in_range = λ k. mod-lt (length k) pos;
    sized = length-replicate n [];
    distinct = λ i l e. subst Distinct (sym (get_elem?-replicate n i [] l e)) tt;
    placed = λ i l k e found. absurd (cc (ap (λ b. lookup b k) (get_elem?-replicate n i [] l e)));
  },
  λ k. ap (λ b. lookup b k) (get_or-replicate n (length k % n) [] (mod-lt (length k) pos)),
)

-- `hashmap_create` sets no bucket: whatever chains the memory of the array holds are in the new
-- table, and `hashmap_hasKey` finds their keys.
pub create_keeps_memory :
    (raw : Hashmap) (memory : List Bucket) (n : ℕ) (k : Text)
    → 0 < n
    → length memory ≡ n
    → (do m ← hashmap_create (some raw) memory n; has_key (some m) k)
      ≡ ret (has_key_loop (get_or memory (length k % n) []) k)
unfolding hashmap_create has_key find_bucket string_hash
create_keeps_memory raw memory n k pos sized =
    ground (arith, get_elem?-eq-get_or memory (length k % n) [], mod-lt (length k) pos)

-- Every operation but the creation ends the program with code 1 on a NULL map.
pub null_map_exits :
    (usable : ℕ → ℕ) (k v : Text)
    → (has_key none k ≡ exit 1)
      × (get_value none k ≡ exit 1)
      × (insert usable true true none k v ≡ exit 1)
      × (remove_key none k ≡ exit 1)
      × (update usable none k v ≡ exit 1)
      × (hashmap_delete none ≡ exit 1)
      × (print_keys none ≡ exit 1)
unfolding has_key get_value insert remove_key update hashmap_delete print_keys
null_map_exits usable k v = (refl, refl, refl, refl, refl, refl, refl)
