-- ===== src/Binary/Range.antt =====
-- `binaryStringRangeToInt` on the addresses of the simulator, eight digits wide.
use native.Mathlib.Decide.{ℕ_discrete}
use public_systems_projects.Base.{
  Bool-cases, inl, inr, ap, ◌∙◌, if◌then◌else◌, suc, zero, ℕ, ◌+◌, ◌-◌, ◌/◌, ◌%◌, ◌^◌, ◌<◌, ◌≡◌,
  refl, Bool, true, false, arith, ◌==◌, Outcome, ret, exit, fault, out_of_fuel, blocked,
}
use public_systems_projects.Binary.{binary_string_range_to_int}
use public_systems_projects.Binary.Digits.{digits}

-- Whether a test passes at each number under a bound.
passes : (ℕ → Bool) → ℕ → Bool
passes test zero = true
passes test (suc bound) = if test bound then passes test bound else false

passes_at : (test : ℕ → Bool) (bound k : ℕ) → passes test bound ≡ true → k < bound → test k ≡ true
unfolding passes
passes_at test zero k ok small = absurd (omega arith)
passes_at test (suc bound) k ok small = elim (Bool-cases (test bound)) [
  | inr bad ↦ absurd (ground (arith, ok, bad))
  | inl good ↦ elim (ℕ_discrete k bound) [
    | yes p ↦ ap test p ∙ good
    | no p ↦ passes_at test bound k (ground (arith, ok, good)) (omega arith)
  ]
]

abbrev gives : Outcome ℕ → ℕ → Bool
gives (ret m) n = m == n
gives _ n = false

gives→eq : (o : Outcome ℕ) (n : ℕ) → gives o n ≡ true → o ≡ ret n
gives→eq (ret m) n h = ground arith
gives→eq (exit m) n h = cc
gives→eq fault n h = cc
gives→eq out_of_fuel n h = cc
gives→eq blocked n h = cc

-- bits `start` to `stop` of a number
abbrev pub bits_of : ℕ → ℕ → ℕ → ℕ
bits_of n start stop = n / 2 ^ start % 2 ^ (stop + 1 - start)

range_ok : ℕ → ℕ → ℕ → Bool
unfolding binary_string_range_to_int digits
range_ok start stop n =
    gives (binary_string_range_to_int (digits 8 n) start stop) (bits_of n start stop)

range_table : passes (λ start. passes (λ stop. passes (range_ok start stop) 256) 8) 8 ≡ true
unfolding passes range_ok
range_table = refl

-- For an address of eight bits, `binaryStringRangeToInt` gives its bits from `start` to `stop`,
-- counted from the lowest; none where `stop` is below `start`.
pub range_lem :
    (n start stop : ℕ)
    → n < 256
    → start < 8
    → stop < 8
    → binary_string_range_to_int (digits 8 n) start stop ≡ ret (bits_of n start stop)
unfolding range_ok
range_lem n start stop small lo hi =
    gives→eq _ _
      (passes_at _ 256 n (passes_at _ 8 stop (passes_at _ 8 start range_table lo) hi) small)
