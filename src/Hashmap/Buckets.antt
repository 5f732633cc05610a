-- ===== src/Hashmap/Buckets.antt =====
-- The invariant of the table, and what an operation that changes one bucket does to it.
use public_systems_projects.Base.{
  ℕ, ◌<◌, ◌≡◌, sym, ap, ◌∙◌, true, false, Option, some, [], arith, length, get_elem?, get_or, set,
  length-set, get_elem?-eq-get_or, get_or-set_self, get_or-set_ne, ret, Text, text_eq, text_eq→eq,
  text_eq_of_ne, get_elem?-set_cases, Bool-cases, inl, inr,
}
use mathlib.Core.Path.{subst}
use native.Mathlib.Decide.{ℕ_discrete}
use public_systems_projects.Hashmap.{Bucket, Hashmap, find_bucket}
use public_systems_projects.Hashmap.Chains.{is_some, lookup, Distinct}

-- `place k` is the bucket of the key `k`. Every bucket exists, each pair stands in the bucket of its
-- key, and no bucket has two pairs with the same key.
pub record IsMap (m : Hashmap) (place : Text → ℕ) : Type 0 where
  pub hashes : (k : Text) → m.hash_function k m.buckets ≡ ret (place k)
  pub in_range : (k : Text) → place k < m.buckets
  pub sized : length m.array_of_lists ≡ m.buckets
  pub distinct : (i : ℕ) (l : Bucket) → get_elem? m.array_of_lists i ≡ some l → Distinct l
  pub placed :
      (i : ℕ) (l : Bucket) (k : Text)
      → get_elem? m.array_of_lists i ≡ some l
      → is_some (lookup l k) ≡ true
      → place k ≡ i

-- the bucket of a key
abbrev pub chain_of : Hashmap → (Text → ℕ) → Text → Bucket
chain_of m place k = get_or m.array_of_lists (place k) []

-- what the table maps a key to
abbrev pub view : Hashmap → (Text → ℕ) → Text → Option Text
view m place k = lookup (chain_of m place k) k

abbrev pub with_chain : Hashmap → ℕ → Bucket → Hashmap
with_chain m i l = record m { array_of_lists = set m.array_of_lists i l }

module _ {m : Hashmap} {place : Text → ℕ} (is : IsMap m place) where
  pub at_place : (k : Text) → get_elem? m.array_of_lists (place k) ≡ some (chain_of m place k)
  at_place k =
      get_elem?-eq-get_or m.array_of_lists (place k) [] (omega (arith, is.sized, is.in_range k))

  pub find_bucket_lem : (k : Text) → find_bucket m k ≡ ret (place k, chain_of m place k)
  unfolding find_bucket
  find_bucket_lem k = rw (is.hashes k, at_place k)

  pub chain_of-Distinct : (k : Text) → Distinct (chain_of m place k)
  chain_of-Distinct k = is.distinct (place k) (chain_of m place k) (at_place k)

  -- A new chain `l` in the bucket of `k` whose keys are found as `after` says, which keeps what is
  -- found for all keys but `k`.
  module _ (k : Text) (l : Bucket) (after : Text → Option Text → Option Text)
      (law : (j : Text) → lookup l j ≡ after j (lookup (chain_of m place k) j))
      (other : (j : Text) (o : Option Text) → text_eq k j ≡ false → after j o ≡ o)
      (distinct : Distinct l) where
    inside : place k < length m.array_of_lists
    inside = omega (arith, is.sized, is.in_range k)

    with_chain-Distinct :
        (i : ℕ) (b : Bucket) → get_elem? (set m.array_of_lists (place k) l) i ≡ some b → Distinct b
    with_chain-Distinct i b e = elim (get_elem?-set_cases m.array_of_lists (place k) i l inside e) [
      | inl (p, q) ↦ subst Distinct (sym q) distinct
      | inr (p, q) ↦ is.distinct i b q
    ]

    with_chain-placed :
        (i : ℕ) (b : Bucket) (j : Text)
        → get_elem? (set m.array_of_lists (place k) l) i ≡ some b
        → is_some (lookup b j) ≡ true
        → place j ≡ i
    with_chain-placed i b j e found =
        elim (get_elem?-set_cases m.array_of_lists (place k) i l inside e) [
          | inr (p, q) ↦ is.placed i b j q found
          | inl (p, q) ↦ elim (Bool-cases (text_eq k j)) [
            | inl same ↦ ap place (sym (text_eq→eq k j same)) ∙ p
            | inr differ ↦
                is.placed (place k) (chain_of m place k) j (at_place k) (
                  ap is_some (sym (other j _ differ) ∙ sym (law j) ∙ ap (λ c. lookup c j) (sym q))
                  ∙ found)
                ∙ p
          ]
        ]

    view-with_chain :
        (j : Text) → view (with_chain m (place k) l) place j ≡ after j (view m place j)
    view-with_chain j = elim (ℕ_discrete (place k) (place j)) [
      | yes p ↦
          ap (λ n. lookup (get_or (set m.array_of_lists (place k) l) n []) j) (sym p)
          ∙ ap (λ c. lookup c j) (get_or-set_self m.array_of_lists (place k) l [] inside)
          ∙ law j
          ∙ ap (λ n. after j (lookup (get_or m.array_of_lists n []) j)) p
      | no p ↦
          ap (λ c. lookup c j) (get_or-set_ne m.array_of_lists (place k) (place j) l [] p)
          ∙ sym (other j _ (text_eq_of_ne k j λ e. p (ap place e)))
    ]

    pub with_chain_lem :
        IsMap (with_chain m (place k) l) place
        × ((j : Text) → view (with_chain m (place k) l) place j ≡ after j (view m place j))
    with_chain_lem = (
      record {
        hashes = is.hashes;
        in_range = is.in_range;
        sized = length-set m.array_of_lists (place k) l ∙ is.sized;
        distinct = with_chain-Distinct;
        placed = with_chain-placed;
      },
      view-with_chain,
    )
