-- ===== src/Base/Arrays.antt =====
-- An array, or the memory, as the function from an index or an address to the byte there.
use Prim.Native.Nat.{ℕ}
use mathlib.Core.Path.{◌≡◌}
use mathlib.Core.Logic.{◌≢◌}
use native.Mathlib.Omega.{arith}
use public_systems_projects.Base.Tests.{◌==◌, if◌then◌else◌}

unfoldable pub store : (ℕ → ℕ) → ℕ → ℕ → ℕ → ℕ
store m a c x = if x == a then c else m x

pub store-same : (m : ℕ → ℕ) (a c : ℕ) → store m a c a ≡ c
unfolding store
store-same m a c = ground arith

pub store_ne : (m : ℕ → ℕ) (a c x : ℕ) → x ≢ a → store m a c x ≡ m x
unfolding store
store_ne m a c x ne = ground arith

-- The same for entries of any type.
unfoldable pub put {ℓ} : {A : Type ℓ} → (ℕ → A) → ℕ → A → ℕ → A
put f i a j = if j == i then a else f j

module _ {ℓ} {A : Type ℓ} where
  pub put-same : (f : ℕ → A) (i : ℕ) (a : A) → put f i a i ≡ a
  unfolding put
  put-same f i a = ground arith

  pub put_ne : (f : ℕ → A) (i j : ℕ) (a : A) → j ≢ i → put f i a j ≡ f j
  unfolding put
  put_ne f i j a ne = ground arith
