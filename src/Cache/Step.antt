-- ===== src/Cache/Step.antt =====
-- One round of the simulator, against the history of the addresses before it.
use native.Mathlib.Decide.{ℕ_discrete}
use public_systems_projects.Base.{
  ℕ, ◌+◌, ◌<◌, ◌≡◌, ◌≢◌, refl, sym, ap, ◌∙◌, Bool, true, false, Option, none, some, List, [], ◌∷◌,
  arith, ◌==◌, if◌then◌else◌, length, length-set, get_elem?, set, get_elem?-set_self,
  get_elem?-set_ne, ret, text_eq, text_eq_refl, text_eq_of_ne, ==_iff,
}
use public_systems_projects.Binary.Digits.{digits, value, value-digits}
use public_systems_projects.Binary.Range.{bits_of, range_lem}
use public_systems_projects.Cache.{
  Sim, index_start, index_stop, index_of, current, check_cache, replacement_policy, eviction_policy,
  increment_cache_hit, increment_cache_miss,
}

-- the set that an address belongs to
abbrev pub set_of : ℕ → ℕ
set_of a = bits_of a index_start index_stop

-- the last address of a set, in a history with the latest address first
unfoldable pub last_at : ℕ → List ℕ → Option ℕ
last_at i [] = none
last_at i (b ∷ hist) = if set_of b == i then some b else last_at i hist

abbrev pub is_it : ℕ → Option ℕ → Bool
is_it a none = false
is_it a (some b) = b == a

-- A direct-mapped cache hits where the last address of the set was the same.
abbrev pub hits : ℕ → List ℕ → Bool
hits a hist = is_it a (last_at (set_of a) hist)

-- A set that has had no address is not occupied; any other is, and its line is the last address.
abbrev pub Line : Sim → ℕ → Option ℕ → Type 0
Line s i none = get_elem? s.cache_occupied i ≡ some 0
Line s i (some b) =
    (get_elem? s.cache_occupied i ≡ some 1)
    × (get_elem? s.cache_lines i ≡ some (digits 8 b))
    × (b < 256)

pub record Tracks (s : Sim) (hist : List ℕ) : Type 0 where
  pub lines : length s.cache_lines ≡ 4
  pub flags : length s.cache_occupied ≡ 4
  pub line : (i : ℕ) → i < 4 → Line s i (last_at i hist)

-- the counters after a round
pub record Scored (s t : Sim) (hit : Bool) : Type 0 where
  pub hit_count : t.cache_hit ≡ s.cache_hit + (if hit then 1 else 0)
  pub miss_count : t.cache_misses ≡ s.cache_misses + (if hit then 0 else 1)
  pub latency : t.total_latency ≡ s.total_latency + (if hit then 1 else 100)
  pub same_pc : t.pc ≡ s.pc
  pub same_rows : t.instruction_cache ≡ s.instruction_cache

digits_inj : (a b : ℕ) → a < 256 → b < 256 → digits 8 a ≡ digits 8 b → a ≡ b
digits_inj a b ha hb e =
    sym (value-digits 8 a (omega arith)) ∙ ap value e ∙ value-digits 8 b (omega arith)

text_eq-digits : (a b : ℕ) → a < 256 → b < 256 → text_eq (digits 8 b) (digits 8 a) ≡ (b == a)
text_eq-digits a b ha hb = elim (ℕ_discrete b a) [
  | yes p ↦
      ap (λ c. text_eq (digits 8 c) (digits 8 a)) p ∙ text_eq_refl (digits 8 a) ∙ ground (arith, p)
  | no p ↦
      text_eq_of_ne (digits 8 b) (digits 8 a) (λ e. p (digits_inj b a hb ha e)) ∙ ground (arith, p)
]

differ : (a b : ℕ) → a ≢ b → (a == b) ≡ false
differ a b ne = ground arith

-- A set whose flag and line are as before holds what it held.
pub Line-same :
    (s t : Sim) (i : ℕ) (o : Option ℕ)
    → get_elem? t.cache_occupied i ≡ get_elem? s.cache_occupied i
    → get_elem? t.cache_lines i ≡ get_elem? s.cache_lines i
    → Line s i o
    → Line t i o
Line-same s t i none p q l = p ∙ l
Line-same s t i (some b) p q (flag, text, small) = (p ∙ flag, q ∙ text, small)

-- a line is filled with the address
abbrev fill : Sim → ℕ → ℕ → Sim
fill s i a = record s {
  cache_occupied = set s.cache_occupied i 1;
  cache_lines = set s.cache_lines i (digits 8 a);
}

module _ {s : Sim} {hist : List ℕ} (is : Tracks s hist) (a : ℕ) (small : a < 256) where
  set_of-lt : set_of a < 4
  set_of-lt = omega arith

  -- Wherever the flag and the line of the set of `a` are as after a fill, the history goes on.
  Tracks-cons :
      (t : Sim)
      → length t.cache_lines ≡ 4
      → length t.cache_occupied ≡ 4
      → get_elem? t.cache_occupied (set_of a) ≡ some 1
      → get_elem? t.cache_lines (set_of a) ≡ some (digits 8 a)
      → ((i : ℕ) → set_of a ≢ i → get_elem? t.cache_occupied i ≡ get_elem? s.cache_occupied i)
      → ((i : ℕ) → set_of a ≢ i → get_elem? t.cache_lines i ≡ get_elem? s.cache_lines i)
      → Tracks t (a ∷ hist)
  unfolding last_at
  Tracks-cons t l1 l2 flag text same_flags same_lines = record {
    lines = l1;
    flags = l2;
    line = λ i h. elim (ℕ_discrete (set_of a) i) [
      | yes p ↦ rw ((==_iff (set_of a) i).1 p) (
        ap (get_elem? t.cache_occupied) (sym p) ∙ flag,
        ap (get_elem? t.cache_lines) (sym p) ∙ text,
        small,
      )
      | no p ↦
          rw (differ (set_of a) i p)
            (Line-same s t i (last_at i hist) (same_flags i p) (same_lines i p) (is.line i h))
    ];
  }

  module _ (here : get_elem? s.instruction_cache s.pc ≡ some (digits 8 a)) where
    index_of_lem : index_of s ≡ ret (digits 8 a, set_of a)
    unfolding index_of current
    index_of_lem = rw (here, range_lem a index_start index_stop small (omega arith) (omega arith))

    inside_lines : set_of a < length s.cache_lines
    inside_lines = omega (arith, is.lines)

    inside_flags : set_of a < length s.cache_occupied
    inside_flags = omega (arith, is.flags)

    cold_miss :
        get_elem? s.cache_occupied (set_of a) ≡ some 0
        → check_cache s ≡ ret (increment_cache_miss (fill s (set_of a) a))
    unfolding check_cache replacement_policy
    cold_miss flag = rw (index_of_lem, flag)

    warm :
        (b : ℕ)
        → Line s (set_of a) (some b)
        → check_cache s
          ≡ ret (
              if b == a
              then increment_cache_hit s
              else increment_cache_miss
                  (record s { cache_lines = set s.cache_lines (set_of a) (digits 8 a) }))
    unfolding check_cache eviction_policy
    warm b (flag, text, b_small) = rw (index_of_lem, flag, text, text_eq-digits a b small b_small)

    Tracks-fill : Tracks (increment_cache_miss (fill s (set_of a) a)) (a ∷ hist)
    unfolding increment_cache_miss
    Tracks-fill =
        Tracks-cons _ (length-set s.cache_lines (set_of a) (digits 8 a) ∙ is.lines)
          (length-set s.cache_occupied (set_of a) 1 ∙ is.flags)
          (get_elem?-set_self s.cache_occupied (set_of a) 1 inside_flags)
          (get_elem?-set_self s.cache_lines (set_of a) (digits 8 a) inside_lines)
          (λ i p. get_elem?-set_ne s.cache_occupied (set_of a) i 1 p)
          (λ i p. get_elem?-set_ne s.cache_lines (set_of a) i (digits 8 a) p)

    Tracks-hit :
        get_elem? s.cache_occupied (set_of a) ≡ some 1
        → get_elem? s.cache_lines (set_of a) ≡ some (digits 8 a)
        → Tracks (increment_cache_hit s) (a ∷ hist)
    unfolding increment_cache_hit
    Tracks-hit flag text = Tracks-cons _ is.lines is.flags flag text (λ i p. refl) (λ i p. refl)

    Tracks-evict :
        get_elem? s.cache_occupied (set_of a) ≡ some 1
        → Tracks
            (increment_cache_miss
              (record s { cache_lines = set s.cache_lines (set_of a) (digits 8 a) }))
            (a ∷ hist)
    unfolding increment_cache_miss
    Tracks-evict flag =
        Tracks-cons _ (length-set s.cache_lines (set_of a) (digits 8 a) ∙ is.lines) is.flags flag
          (get_elem?-set_self s.cache_lines (set_of a) (digits 8 a) inside_lines) (λ i p. refl)
          (λ i p. get_elem?-set_ne s.cache_lines (set_of a) i (digits 8 a) p)

    Scored-miss :
        (t : Sim)
        → t.cache_hit ≡ s.cache_hit
        → t.pc ≡ s.pc
        → t.instruction_cache ≡ s.instruction_cache
        → t.cache_misses ≡ s.cache_misses
        → t.total_latency ≡ s.total_latency
        → Scored s (increment_cache_miss t) false
    unfolding increment_cache_miss
    Scored-miss t p q r m l = record {
      hit_count = omega arith;
      miss_count = omega arith;
      latency = omega arith;
      same_pc = q;
      same_rows = r;
    }

    Scored-hit : Scored s (increment_cache_hit s) true
    unfolding increment_cache_hit
    Scored-hit = record {
      hit_count = omega arith;
      miss_count = omega arith;
      latency = omega arith;
      same_pc = refl;
      same_rows = refl;
    }

    abbrev Round : Option ℕ → Type 0
    Round o = (t : Sim) × (check_cache s ≡ ret t) × Tracks t (a ∷ hist) × Scored s t (is_it a o)

    Round-of_line : (o : Option ℕ) → Line s (set_of a) o → Round o
    Round-of_line none flag =
        (_, cold_miss flag, Tracks-fill, Scored-miss _ refl refl refl refl refl)
    Round-of_line (some b) (flag, text, b_small) = elim (ℕ_discrete b a) [
      | yes p ↦ (
        increment_cache_hit s,
        warm b (flag, text, b_small) ∙ ap ret (ground (arith, p)),
        Tracks-hit flag (text ∙ ap (λ c. some (digits 8 c)) p),
        rw ((==_iff b a).1 p) Scored-hit,
      )
      | no p ↦ (
        increment_cache_miss (record s { cache_lines = set s.cache_lines (set_of a) (digits 8 a) }),
        warm b (flag, text, b_small) ∙ rw (differ b a p),
        Tracks-evict flag,
        rw (differ b a p) (Scored-miss _ refl refl refl refl refl),
      )
    ]

    -- A round whose address is `a` reads nothing out of range, scores a hit exactly where the last
    -- address of the set was `a`, and leaves the cache of the longer history.
    pub check_cache_lem :
        (t : Sim) × (check_cache s ≡ ret t) × Tracks t (a ∷ hist) × Scored s t (hits a hist)
    check_cache_lem = Round-of_line (last_at (set_of a) hist) (is.line (set_of a) set_of-lt)
