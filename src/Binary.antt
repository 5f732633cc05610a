-- ===== src/Binary.antt =====
-- Lab6_Allocators/part1/binary.h: numbers and their binary strings. A `char*` is the list of its bytes
-- up to the terminating 0. An `int` argument is its word of 32 bits, and one of 2 ^ 31 or more is negative; a
-- sum that an `int` does not hold is a fault.
pub mod Digits
pub mod Round
pub mod Range
mod Tests
use public_systems_projects.Base.{
  ℕ, zero, suc, ◌+◌, ◌-◌, ◌*◌, ◌/◌, ◌%◌, ◌^◌, Bool, Option, none, some, List, [], ◌∷◌, ◌==◌, ltb,
  leb, if◌then◌else◌, length, get_elem?, set, replicate, Outcome, ret, fault, out_of_fuel, ◌>>=◌,
  deref, Text,
}

-- `bin[i]`, the terminating 0 included
pub char_at : Text → ℕ → Outcome ℕ
char_at bin i = if i == length bin then ret 0 else deref (get_elem? bin i)

-- `sum + pow(2, size-1-i-1)` as an `int`: at the last place the exponent is -1, and the half is cut
-- off.
pub add_place : ℕ → ℕ → ℕ → ℕ
add_place size i sum = if i + 1 == size then sum else sum + 2 ^ (size - 1 - i - 1)

-- the rounds of `binaryStringToInt` at the places below `i`
pub to_int_loop : Text → ℕ → ℕ → ℕ → Outcome ℕ
unfolding char_at add_place
to_int_loop bin size zero sum = ret sum
to_int_loop bin size (suc i) sum = do
  c ← char_at bin i
  let next = if c == b'1' then add_place size i sum else sum
  let rest = to_int_loop bin size i next
  if ltb next (2 ^ 31) then rest else fault

pub binary_string_to_int : Text → ℕ → Outcome ℕ
unfolding to_int_loop
binary_string_to_int bin size = to_int_loop bin size size 0

-- The rounds of `binaryStringRangeToInt` that are left: the next place is `i - 1`, and at 0 the index
-- is negative.
pub range_loop : Text → (left i counter sum : ℕ) → Outcome ℕ
unfolding char_at
range_loop bin zero i counter sum = ret sum
range_loop bin (suc left) zero counter sum = fault
range_loop bin (suc left) (suc i) counter sum = do
  c ← char_at bin i
  range_loop bin left i (counter + 1) (if c == b'1' then sum + 2 ^ counter else sum)

-- `stop-start+1` rounds, none if that is not positive
pub binary_string_range_to_int : Text → ℕ → ℕ → Outcome ℕ
unfolding range_loop
binary_string_range_to_int bin start stop =
    if leb (length bin) start
    then (if leb (stop + 1) start then ret 0 else fault)
    else range_loop bin (stop + 1 - start) (length bin - start) 0 0

-- The loop of `intToBinaryString`; `place` is `pos + 1`, so that a write at 0 is out of range.
pub digits_loop : ℕ → (value place : ℕ) → Text → Outcome Text
digits_loop zero value place binary = out_of_fuel
digits_loop (suc k) value zero binary = if value == 0 then ret binary else fault
digits_loop (suc k) value (suc pos) binary =
    let rest =
      digits_loop k (value / 2) pos (set binary pos (if value % 2 == 0 then b'0' else b'1')) in
    if value == 0 then ret binary else rest

-- The string of `bits` digits, where malloc gives the memory. The loop does not run for a negative `i`, and
-- halves any other each round, so `i + 1` rounds are enough.
pub int_to_binary_string : ℕ → ℕ → Outcome Text
unfolding digits_loop
int_to_binary_string i bits =
    if ltb i (2 ^ 31)
    then digits_loop (i + 1) i bits (replicate bits b'0')
    else ret (replicate bits b'0')
