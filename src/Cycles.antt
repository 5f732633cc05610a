-- ===== src/Cycles.antt =====
-- Assignment3_Assembly/part3/tool.c: counts the instructions in a file of assembly and their cycles. The
-- lines that fgets returns are the input. The two arrays `four` and `three` are declared with one byte
-- each, and what goes beyond that byte is undefined.
pub mod Tally
mod Tests
use public_systems_projects.Base.{
  ℕ, zero, suc, ◌+◌, ◌-◌, ◌*◌, Bool, true, false, ◌&&◌, ◌||◌, Option, none, some, List, [], ◌∷◌,
  ◌==◌, ltb, leb, min, map, length, if◌then◌else◌, Outcome, ret, fault, out_of_fuel, ◌>>=◌, Text,
  text_eq,
}
use public_systems_projects.Base.Tokens.{strtok}

-- the counters of `main`, `returns` for `ret`
pub record Counts : Type 0 where
  pub add : ℕ
  pub sub : ℕ
  pub mul : ℕ
  pub div : ℕ
  pub mov : ℕ
  pub lea : ℕ
  pub push : ℕ
  pub pop : ℕ
  pub returns : ℕ
  pub total : ℕ

pub no_counts : Counts
no_counts = record {
  add = 0;
  sub = 0;
  mul = 0;
  div = 0;
  mov = 0;
  lea = 0;
  push = 0;
  pop = 0;
  returns = 0;
  total = 0;
}

pub data Kind : Type 0 where
  is_add is_sub is_mul is_div is_mov is_lea is_push is_pop is_ret : Kind

-- the body of an `if(i==0)`
pub tally : Kind → Counts → Counts
tally is_add c = record c { add = c.add + 1; total = c.total + 1 }
tally is_sub c = record c { sub = c.sub + 1; total = c.total + 1 }
tally is_mul c = record c { mul = c.mul + 1; total = c.total + 1 }
tally is_div c = record c { div = c.div + 1; total = c.total + 1 }
tally is_mov c = record c { mov = c.mov + 1; total = c.total + 1 }
tally is_lea c = record c { lea = c.lea + 1; total = c.total + 1 }
tally is_push c = record c { push = c.push + 1; total = c.total + 1 }
tally is_pop c = record c { pop = c.pop + 1; total = c.total + 1 }
tally is_ret c = record c { returns = c.returns + 1; total = c.total + 1 }

-- the names that are compared with `four`, in their order, and what is counted
abbrev pub four_tests : List (Text × Kind)
four_tests =
    (b'p' ∷ b'u' ∷ b's' ∷ b'h' ∷ [], is_push)
    ∷ (b'i' ∷ b'm' ∷ b'u' ∷ b'l' ∷ [], is_mul)
    ∷ (b'l' ∷ b'm' ∷ b'u' ∷ b'l' ∷ [], is_mul)
    ∷ (b'i' ∷ b'd' ∷ b'i' ∷ b'v' ∷ [], is_div)
    ∷ (b'l' ∷ b'd' ∷ b'i' ∷ b'v' ∷ [], is_div)
    ∷ []

-- the names that are compared with `three`
abbrev pub three_tests : List (Text × Kind)
three_tests =
    (b'm' ∷ b'o' ∷ b'v' ∷ [], is_mov)
    ∷ (b'l' ∷ b'e' ∷ b'a' ∷ [], is_lea)
    ∷ (b'a' ∷ b'd' ∷ b'd' ∷ [], is_add)
    ∷ (b's' ∷ b'u' ∷ b'b' ∷ [], is_sub)
    ∷ (b'm' ∷ b'u' ∷ b'l' ∷ [], is_mul)
    ∷ (b'd' ∷ b'i' ∷ b'v' ∷ [], is_div)
    ∷ (b'p' ∷ b'o' ∷ b'p' ∷ [], is_pop)
    ∷ (b'r' ∷ b'e' ∷ b't' ∷ [], is_ret)
    ∷ []

-- the tests one after the other, each of which may count
pub run_tests : List (Text × Kind) → Text → Counts → Counts
unfolding tally
run_tests [] name c = c
run_tests ((test, k) ∷ tests) name c =
    run_tests tests name (if text_eq name test then tally k c else c)

unfoldable pub to_lower : ℕ → ℕ
to_lower c = if leb b'A' c && leb c b'Z' then c + 32 else c

-- the first characters of a text, at most `n`
unfoldable pub prefix : ℕ → Text → Text
prefix zero s = []
prefix (suc n) [] = []
prefix (suc n) (c ∷ s) = c ∷ prefix n s

-- the `#` and what follows it are cut off
unfoldable pub cut_comment : Text → Text
cut_comment [] = []
cut_comment (c ∷ s) = if c == b'#' then [] else c ∷ cut_comment s

abbrev pub is_stop : ℕ → Bool
is_stop c = c == b'\n' || c == b'\t'

-- `strncat(a, s, n)` on an empty array of one byte, and the loop that puts `n` bytes of it in lower case:
-- undefined where the array has no room for the bytes and their 0, or fewer than `n` bytes
pub copy_lower : ℕ → Text → Outcome Text
unfolding prefix to_lower
copy_lower n s =
    if leb (length (prefix n s) + 1) 1 && leb n 1 then ret (map to_lower (prefix n s)) else fault

pub count_token : Text → Counts → Outcome Counts
unfolding copy_lower run_tests
count_token p c = do
  four ← copy_lower 4 p
  three ← copy_lower 3 four
  ret (run_tests three_tests three (run_tests four_tests four c))

pub count_loop : ℕ → Text → Counts → Outcome Counts
unfolding strtok count_token
count_loop zero buff c = out_of_fuel
count_loop (suc k) buff c = elim (strtok is_stop buff) [
  | none ↦ ret c
  | some (p, rest) ↦ (do d ← count_token p c; count_loop k rest d)
]

-- the loop over the lines; the loop over the tokens of a line gets `rounds` rounds
pub count_lines : ℕ → List Text → Counts → Outcome Counts
unfolding cut_comment count_loop
count_lines rounds [] c = ret c
count_lines rounds (buff ∷ lines) c = do
  d ← count_loop rounds (cut_comment buff) c
  count_lines rounds lines d

-- `main`: the counters that are printed
pub main : ℕ → List Text → Outcome Counts
unfolding count_lines no_counts
main rounds lines = count_lines rounds lines no_counts

pub cycles : Counts → ℕ
cycles c =
    c.mov + c.lea + 6 * c.add + 6 * c.sub + 5 * c.mul + 50 * c.div + c.pop + 2 * c.returns + c.push
