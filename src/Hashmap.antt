-- ===== src/Hashmap.antt =====
-- Assignment4_Library/part2/my_hashmap.c: a chained hash table from strings to strings. A bucket's
-- chain of nodes is the list of its pairs in order, and a `hashmap_t*` is an option, `none` for NULL.
pub mod Chains
pub mod Buckets
pub mod View
pub mod Create
pub mod Listing
mod Tests
use public_systems_projects.Base.{
  ℕ, zero, suc, ◌+◌, ◌%◌, Bool, true, false, Option, none, some, List, [], ◌∷◌, ◌++◌, ◌==◌, leb,
  if◌then◌else◌, length, get_elem?, set, Outcome, ret, exit, fault, ◌>>=◌, deref, Text, text_eq,
}

pub record Pair : Type 0 where
  pub key : Text
  pub value : Text

abbrev pub pair : Text → Text → Pair
pair k v = record { key = k; value = v }

-- The blocks that are freed: of a node the key, the value, the pair and the node itself, and of the map the
-- array and the structure.
pub data Block : Type 0 where
  key_block value_block pair_block node_block : Pair → Block
  array_block map_block : Block

abbrev pub node_blocks : Pair → List Block
node_blocks p = key_block p ∷ value_block p ∷ pair_block p ∷ node_block p ∷ []

abbrev pub Bucket : Type 0
Bucket = List Pair

pub record Hashmap : Type 0 where
  pub buckets : ℕ
  pub array_of_lists : List Bucket
  pub hash_function : Text → ℕ → Outcome ℕ

-- `strlen(myKey) % numberOfBuckets`, undefined for no bucket
pub string_hash : Text → ℕ → Outcome ℕ
string_hash my_key number_of_buckets =
    if number_of_buckets == 0 then fault else ret (length my_key % number_of_buckets)

-- `struct_memory` and `lists_memory` are what malloc returns, with the values that the memory holds.
-- The code sets no entry of the array.
pub hashmap_create :
    (struct_memory : Option Hashmap) → (lists_memory : List Bucket) → ℕ → Outcome Hashmap
hashmap_create struct_memory lists_memory buckets = do
  m ← deref struct_memory
  ret (record m { buckets = buckets; array_of_lists = lists_memory; hash_function = string_hash })

-- `_hashmap->hashFunction(key, ...)`, and the list at that place of the array
pub find_bucket : Hashmap → Text → Outcome (ℕ × Bucket)
find_bucket m key = do
  bucket ← m.hash_function key m.buckets
  list ← deref (get_elem? m.array_of_lists bucket)
  ret (bucket, list)

-- the loop of `hashmap_hasKey`
pub has_key_loop : Bucket → Text → ℕ
has_key_loop [] key = 0
has_key_loop (p ∷ list) key = if text_eq p.key key then 1 else has_key_loop list key

pub has_key : Option Hashmap → Text → Outcome ℕ
unfolding has_key_loop find_bucket
has_key none key = exit 1
has_key (some m) key = do (bucket, list) ← find_bucket m key; ret (has_key_loop list key)

-- `while(list->next != NULL) list = list->next; list->next = newnode;`
pub add_last : Pair → Bucket → Pair → Bucket
add_last p [] new = p ∷ new ∷ []
add_last p (q ∷ list) new = p ∷ add_last q list new

-- the chain with the new node at its end, an empty chain apart
pub insert_node : Bucket → Pair → Bucket
unfolding add_last
insert_node [] new = new ∷ []
insert_node (p ∷ list) new = add_last p list new

-- the loop of `hashmap_getValue`, which runs off the chain where the key is missing
pub get_value_loop : Bucket → Text → Outcome Text
get_value_loop [] key = fault
get_value_loop (p ∷ list) key = if text_eq p.key key then ret p.value else get_value_loop list key

-- the loop of `hashmap_removeKey` over the nodes behind the first, the unlinking, and what is freed
pub remove_loop : Bucket → Text → Outcome (Bucket × List Block)
remove_loop [] key = fault
remove_loop (p ∷ list) key =
    let rest = (do (l, freed) ← remove_loop list key; ret (p ∷ l, freed)) in
    if text_eq p.key key then ret (list, node_blocks p) else rest

pub remove_node : Bucket → Text → Outcome (Bucket × List Block)
unfolding remove_loop
remove_node [] key = fault
remove_node (p ∷ list) key =
    if text_eq p.key key
    then ret (list, node_blocks p)
    else (do (l, freed) ← remove_loop list key; ret (p ∷ l, freed))

-- the loop of `hashmap_update`, the exchange of the value, and what is freed
pub update_loop : Bucket → Text → Text → Outcome (Bucket × List Block)
update_loop [] key new_value = fault
update_loop (p ∷ list) key new_value =
    let rest = (do (l, freed) ← update_loop list key new_value; ret (p ∷ l, freed)) in
    if text_eq p.key key
    then ret (record p { value = new_value } ∷ list, value_block p ∷ [])
    else rest

pub get_value : Option Hashmap → Text → Outcome (Option Text)
unfolding has_key get_value_loop
get_value none key = exit 1
get_value (some m) key = do
  found ← has_key (some m) key
  if found == 0
      then ret none
      else do (bucket, list) ← find_bucket m key; value ← get_value_loop list key; ret (some value)

-- The map after the call and the blocks that it frees.
pub remove_key : Option Hashmap → Text → Outcome (Hashmap × List Block)
unfolding has_key remove_node
remove_key none key = exit 1
remove_key (some m) key = do
  found ← has_key (some m) key
  if found == 0 then ret (m, []) else do
    (bucket, list) ← find_bucket m key
    (l, freed) ← remove_node list key
    ret (record m { array_of_lists = set m.array_of_lists bucket l }, freed)

-- `usable n` is the number of bytes that may be used of what malloc(n) returns.
module _ (usable : ℕ → ℕ) where
  -- a copy by strcpy into `malloc(requested)`, undefined where the bytes and their 0 do not fit
  pub copy_text : ℕ → Text → Outcome Text
  copy_text requested s = if leb (length s + 1) (usable requested) then ret s else fault

  -- `pair_memory` and `node_memory` tell whether malloc has memory for the pair and for the node. The code
  -- does not ask.
  pub insert : (pair_memory node_memory : Bool) → Option Hashmap → Text → Text → Outcome Hashmap
  unfolding has_key copy_text insert_node
  insert pair_memory node_memory none key value = exit 1
  insert pair_memory node_memory (some m) key value = do
    found ← has_key (some m) key
    if found == 1 then ret m else do
      (bucket, list) ← find_bucket m key
      if pair_memory
          then (do
            k ← copy_text (length key) key
            v ← copy_text (length value) value
            if node_memory
                then ret (record m {
                  array_of_lists = set m.array_of_lists bucket (insert_node list (pair k v));
                })
                else fault)
          else fault

  -- `malloc(sizeof(char) * sizeof(newValue))`: the size of a pointer
  pub update : Option Hashmap → Text → Text → Outcome (Hashmap × List Block)
  unfolding has_key copy_text update_loop
  update none key new_value = exit 1
  update (some m) key new_value = do
    found ← has_key (some m) key
    if found == 0 then ret (m, []) else do
      (bucket, list) ← find_bucket m key
      v ← copy_text 8 new_value
      (l, freed) ← update_loop list key v
      ret (record m { array_of_lists = set m.array_of_lists bucket l }, freed)

-- the inner loop of `hashmap_delete`
pub delete_chain : Bucket → List Block
delete_chain [] = []
delete_chain (p ∷ list) =
    key_block p ∷ value_block p ∷ pair_block p ∷ node_block p ∷ delete_chain list

-- rounds `i` to `i + n` of the outer loop
pub delete_loop : List Bucket → ℕ → ℕ → Outcome (List Block)
unfolding delete_chain
delete_loop lists i zero = ret []
delete_loop lists i (suc n) = do
  list ← deref (get_elem? lists i)
  rest ← delete_loop lists (i + 1) n
  ret (delete_chain list ++ rest)

pub hashmap_delete : Option Hashmap → Outcome (List Block)
unfolding delete_loop
hashmap_delete none = exit 1
hashmap_delete (some m) = do
  blocks ← delete_loop m.array_of_lists 0 m.buckets
  ret (blocks ++ (array_block ∷ map_block ∷ []))

-- The lines that `hashmap_printKeys` prints: a title for each bucket, key and value for each pair.
pub data Line : Type 0 where
  title : ℕ → Line
  entry : Pair → Line

pub print_chain : Bucket → List Line
print_chain [] = []
print_chain (p ∷ list) = entry p ∷ print_chain list

pub print_loop : List Bucket → ℕ → ℕ → Outcome (List Line)
unfolding print_chain
print_loop lists i zero = ret []
print_loop lists i (suc n) = do
  list ← deref (get_elem? lists i)
  rest ← print_loop lists (i + 1) n
  ret (title i ∷ (print_chain list ++ rest))

pub print_keys : Option Hashmap → Outcome (List Line)
unfolding print_loop
print_keys none = exit 1
print_keys (some m) = print_loop m.array_of_lists 0 m.buckets
