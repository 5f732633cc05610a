-- ===== src/KernelStrings/Moves.antt =====
-- memmove copies a range also where the two ranges overlap.
use native.Mathlib.Decide.{ℕ_discrete, dec_lt}
use public_systems_projects.Base.{
  ℕ, zero, suc, ◌+◌, ◌-◌, ◌≤◌, ◌<◌, ◌≡◌, ◌⊎◌, inl, inr, ◌∙◌, ◌&&◌, ltb, leb, if◌then◌else◌,
  Bool-cases, store, arith,
}
use public_systems_projects.KernelStrings.{forward, backward, memmove}

-- the memory `m` with the `n` bytes from `src` on at once copied to `dst`
unfoldable pub moved : (m : ℕ → ℕ) (dst src n : ℕ) → ℕ → ℕ
moved m dst src n x = if leb dst x && ltb x (dst + n) then m (src + (x - dst)) else m x

pub first_moved :
    (m : ℕ → ℕ) (d s n : ℕ)
    → (d ≤ s) ⊎ (s + suc n ≤ d)
    → (x : ℕ) → moved (store m d (m s)) (d + 1) (s + 1) n x ≡ moved m d s (suc n) x
unfolding moved store
first_moved m d s n apart x = elim (dec_lt d x) [
  | yes above ↦ let e : s + 1 + (x - (d + 1)) ≡ s + (x - d) = omega arith in rw e (ground arith)
  | no below ↦ let e : s + (x - d) ≡ s = omega arith in rw e (ground arith)
]

forward_lem :
    (m : ℕ → ℕ) (d s n : ℕ) → (d ≤ s) ⊎ (s + n ≤ d) → (x : ℕ) → forward m d s n x ≡ moved m d s n x
unfolding forward moved
forward_lem m d s zero apart x = ground arith
forward_lem m d s (suc n) apart x =
    forward_lem (store m d (m s)) (d + 1) (s + 1) n (ground arith) x ∙ first_moved m d s n apart x

last_moved :
    (m : ℕ → ℕ) (d s n : ℕ)
    → s < d
    → (x : ℕ) → moved (store m (d + n) (m (s + n))) d s n x ≡ moved m d s (suc n) x
unfolding moved store
last_moved m d s n less x = elim (ℕ_discrete x (d + n)) [
  | yes at ↦ let e : s + (x - d) ≡ s + n = omega arith in rw e (ground arith)
  | no ne ↦ ground arith
]

backward_lem :
    (m : ℕ → ℕ) (d s n : ℕ) → s < d → (x : ℕ) → backward m (d + n) (s + n) n x ≡ moved m d s n x
unfolding backward moved
backward_lem m d s zero less x = ground arith
backward_lem m d s (suc n) less x =
    let d' : d + suc n - 1 ≡ d + n = omega arith in
    let s' : s + suc n - 1 ≡ s + n = omega arith in
    rw (d', s')
      (backward_lem (store m (d + n) (m (s + n))) d s n less x ∙ last_moved m d s n less x)

-- memmove leaves the memory with the `n` bytes that stood at `src` before at `dst`, and every other byte as it
-- was, whether the ranges overlap or not.
pub memmove_lem : (m : ℕ → ℕ) (dst src n x : ℕ) → memmove m dst src n x ≡ moved m dst src n x
unfolding memmove
memmove_lem m dst src n x = elim (Bool-cases (ltb src dst && ltb dst (src + n))) [
  | inl over ↦ rw over (backward_lem m dst src n (ground arith) x)
  | inr apart ↦ rw apart (forward_lem m dst src n (ground arith) x)
]
