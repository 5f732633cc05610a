-- ===== src/Cache/Tests.antt =====
-- The simulator's theorems at its traces, and one round of it.
use public_systems_projects.Base.{
  ℕ, zero, suc, length-replicate, ◌+◌, ◌*◌, ◌≡◌, ◌<◌, List, [], ◌∷◌, map, arith, replicate, ret,
  fault,
}
use public_systems_projects.Cache.{Sim, main}
use public_systems_projects.Cache.History.{Small, line_of, hit_total, miss_total, main_lem}

Small-replicate : (n a : ℕ) → a < 256 → Small (replicate n a)
Small-replicate zero a h = tt
Small-replicate (suc n) a h = (h, Small-replicate n a h)

-- the trace of `singleTrace(1024, 42)`
abbrev single : ℕ → List ℕ
single n = replicate n 42

main_lem_example :
    (t : Sim) × (main (map line_of (single 1024)) [] ≡ ret t)
    × (t.pc ≡ 1024)
    × (t.cache_hit ≡ hit_total [] (single 1024))
    × (t.cache_misses ≡ miss_total [] (single 1024))
    × (t.total_latency ≡ t.cache_hit + 100 * t.cache_misses)
    × (t.cache_hit + t.cache_misses ≡ 1024)
    × ((c : ℕ) (answers : List ℕ) → main (map line_of (single 1024)) (c ∷ answers) ≡ fault)
main_lem_example =
    main_lem (single 1024) (length-replicate {A = ℕ} 1024 42)
      (Small-replicate 1024 42 (omega arith))
