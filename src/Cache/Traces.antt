-- ===== src/Cache/Traces.antt =====
-- The simulator on the traces that trace.c writes: one made for the cache, one against it.
use public_systems_projects.Base.{
  ℕ, zero, suc, ◌+◌, ◌*◌, ◌%◌, ◌≤◌, ◌<◌, ◌≡◌, refl, ap, ◌∙◌, true, false, List, [], ◌∷◌, map, arith,
  length, ret, ◌>>=◌,
}
use public_systems_projects.Binary.Digits.{int_to_binary_string_lem}
use public_systems_projects.Cache.{
  Sim, addresses, bitwidth, trace_from, four_trace, hostile_trace, main,
}
use public_systems_projects.Cache.Step.{last_at, hits}
use public_systems_projects.Cache.History.{
  Small, line_of, hit_total, miss_total, hit_total-add-miss_total, main_lem,
}

-- `n` addresses of a trace from the `i`-th on, and those before the `i`-th, the latest first
unfoldable pub upcoming : (ℕ → ℕ) → ℕ → ℕ → List ℕ
upcoming f i zero = []
upcoming f i (suc n) = f i ∷ upcoming f (suc i) n

unfoldable pub past : (ℕ → ℕ) → ℕ → List ℕ
past f zero = []
past f (suc i) = f i ∷ past f i

length-upcoming : (f : ℕ → ℕ) (i n : ℕ) → length (upcoming f i n) ≡ n
unfolding upcoming
length-upcoming f i zero = refl
length-upcoming f i (suc n) = ap suc (length-upcoming f (suc i) n)

upcoming-Small : (f : ℕ → ℕ) (i n : ℕ) → ((j : ℕ) → f j < 256) → Small (upcoming f i n)
unfolding upcoming
upcoming-Small f i zero h = tt
upcoming-Small f i (suc n) h = (h i, upcoming-Small f (suc i) n h)

trace_from-upcoming :
    (f : ℕ → ℕ) (i n : ℕ)
    → ((j : ℕ) → f j < 256)
    → trace_from f i n ≡ ret (map line_of (upcoming f i n))
unfolding trace_from upcoming
trace_from-upcoming f i zero h = refl
trace_from-upcoming f i (suc n) h = rw (
  (int_to_binary_string_lem (f i) bitwidth (omega (arith, h i))).0 (omega (arith, h i)),
  ap (λ k. trace_from f k n) one_more ∙ trace_from-upcoming f (suc i) n h,
)
  where
    one_more : i + 1 ≡ suc i
    one_more = omega arith

-- A trace every address of which misses.
all_miss :
    (f : ℕ → ℕ) (i n : ℕ)
    → ((j : ℕ) → hits (f j) (past f j) ≡ false)
    → hit_total (past f i) (upcoming f i n) ≡ 0
unfolding hit_total upcoming past
all_miss f i zero h = refl
all_miss f i (suc n) h = rw (h i) (omega (arith, all_miss f (suc i) n h))

-- A trace every address of which hits from place `i` on.
all_hit :
    (f : ℕ → ℕ) (i n : ℕ)
    → ((j : ℕ) → i ≤ j → hits (f j) (past f j) ≡ true)
    → miss_total (past f i) (upcoming f i n) ≡ 0
unfolding miss_total upcoming past
all_hit f i zero h = refl
all_hit f i (suc n) h =
    rw (h i (omega arith)) (omega (arith, all_hit f (suc i) n (λ j k. h j (omega arith))))

abbrev four : ℕ → ℕ
four i = i % 4 * 2

abbrev hostile : ℕ → ℕ
hostile i = i % 4

four_trace_hits : (j : ℕ) → 4 ≤ j → hits (four j) (past four j) ≡ true
unfolding past last_at
four_trace_hits (suc (suc (suc (suc j)))) h = ground arith
four_trace_hits _ h = absurd (omega arith)

hostile_misses : (j : ℕ) → hits (hostile j) (past hostile j) ≡ false
unfolding past last_at
hostile_misses zero = refl
hostile_misses (suc zero) = refl
hostile_misses (suc (suc zero)) = refl
hostile_misses (suc (suc (suc zero))) = refl
hostile_misses (suc (suc (suc (suc j)))) = ground arith

-- The simulator run on the file of a trace of 1024 addresses.
run_trace :
    (f : ℕ → ℕ)
    → ((j : ℕ) → f j < 256)
    → (t : Sim) × ((do lines ← trace_from f 0 addresses; main lines []) ≡ ret t)
      × (t.cache_hit ≡ hit_total [] (upcoming f 0 addresses))
      × (t.cache_misses ≡ miss_total [] (upcoming f 0 addresses))
      × (t.total_latency ≡ t.cache_hit + 100 * t.cache_misses)
run_trace f small =
    let (t, e, _, h, m, l, _, _) =
      main_lem (upcoming f 0 addresses) (length-upcoming f 0 addresses)
        (upcoming-Small f 0 addresses small) in
    (t, rw (trace_from-upcoming f 0 addresses small) e, h, m, l)

four_misses : (n : ℕ) → miss_total [] (upcoming four 0 (suc (suc (suc (suc n))))) ≡ 4
unfolding miss_total upcoming past last_at
four_misses n = omega (arith, all_hit four 4 n four_trace_hits)

-- The trace that trace.c writes as its cache-friendly one misses at its first four addresses and
-- hits at all others: with 1024 addresses there are 1020 hits and 4 misses, at a latency of 1420.
pub four_trace-main :
    (t : Sim) × ((do lines ← four_trace addresses; main lines []) ≡ ret t)
    × (t.cache_hit ≡ 1020)
    × (t.cache_misses ≡ 4)
    × (t.total_latency ≡ 1420)
unfolding four_trace
four_trace-main =
    let (t, e, h, m, l) = run_trace four (λ j. omega arith) in
    let misses : t.cache_misses ≡ 4 = m ∙ four_misses 1020 in
    (
      t,
      e,
      omega (
        arith,
        h,
        hit_total-add-miss_total [] (upcoming four 0 addresses),
        length-upcoming four 0 addresses,
        four_misses 1020,
      ),
      misses,
      omega (
        arith,
        h,
        hit_total-add-miss_total [] (upcoming four 0 addresses),
        length-upcoming four 0 addresses,
        four_misses 1020,
      ),
    )

-- The trace that trace.c writes as its cache-hostile one never hits: with 1024 addresses there are
-- 1024 misses, at a latency of 102400.
pub hostile_trace-main :
    (t : Sim) × ((do lines ← hostile_trace addresses; main lines []) ≡ ret t)
    × (t.cache_hit ≡ 0)
    × (t.cache_misses ≡ 1024)
    × (t.total_latency ≡ 102400)
unfolding hostile_trace past
hostile_trace-main =
    let (t, e, h, m, l) = run_trace hostile (λ j. omega arith) in
    let none_hit = all_miss hostile 0 addresses hostile_misses in
    let sum = hit_total-add-miss_total [] (upcoming hostile 0 addresses) in
    (
      t,
      e,
      h ∙ none_hit,
      omega (arith, length-upcoming hostile 0 addresses),
      omega (arith, length-upcoming hostile 0 addresses),
    )
