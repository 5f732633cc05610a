-- ===== src/Base/Calls.antt =====
-- How a C call ends, and the arithmetic of `unsigned int`.
use Prim.Native.Nat.{ℕ, ◌+◌, ◌-◌, ◌%◌, ◌^◌}
use mathlib.Core.Path.{◌≡◌}
use mathlib.Core.Option.{Option, none, some}

-- `ret` returns, `exit` is the library's exit(n), `fault` is undefined behaviour such as a null
-- dereference, `out_of_fuel` is a loop cut off by the bound of the model, `blocked` is a call that waits
-- for ever.
pub data Outcome {ℓ} (A : Type ℓ) : Type ℓ where
  ret : A → Outcome A
  exit : ℕ → Outcome A
  fault : Outcome A
  out_of_fuel : Outcome A
  blocked : Outcome A

infixl 5 ◌>>=◌
abbrev pub ◌>>=◌ {ℓ κ} : {A : Type ℓ} {B : Type κ} → Outcome A → (A → Outcome B) → Outcome B
ret a >>= f = f a
exit n >>= f = exit n
fault >>= f = fault
out_of_fuel >>= f = out_of_fuel
blocked >>= f = blocked

-- A dereference: `none` is NULL, or an address outside the object.
abbrev pub deref {ℓ} : {A : Type ℓ} → Option A → Outcome A
deref none = fault
deref (some a) = ret a

pub ret-injective {ℓ} : {A : Type ℓ} {a b : A} → ret a ≡ ret b → a ≡ b
ret-injective h = cc

-- The results that a C function gives as an `int`: `negsuc n` is -(n + 1).
pub data ℤ : Type 0 where
  pos : ℕ → ℤ
  negsuc : ℕ → ℤ

abbrev pub uint_mod : ℕ
uint_mod = 2 ^ 32

-- `a + b` and `a - b` at type `unsigned int`.
abbrev pub add_uint : ℕ → ℕ → ℕ
add_uint a b = (a + b) % uint_mod

abbrev pub sub_uint : ℕ → ℕ → ℕ
sub_uint a b = (a + uint_mod - b % uint_mod) % uint_mod

abbrev pub map_ret {ℓ κ} : {A : Type ℓ} {B : Type κ} → (A → B) → Outcome A → Outcome B
map_ret f (ret a) = ret (f a)
map_ret f (exit n) = exit n
map_ret f fault = fault
map_ret f out_of_fuel = out_of_fuel
map_ret f blocked = blocked
