-- ===== src/Cache.antt =====
-- Lab6_Allocators/part1/simulator.c: a direct-mapped cache of four lines that runs a trace of 1024
-- addresses, and the traces that trace.c of the same folder writes without random numbers. The
-- global variables are one record. What is printed is left out.
pub mod Step
pub mod History
pub mod Traces
mod Tests
use public_systems_projects.Base.{
  ℕ, zero, suc, ◌+◌, ◌-◌, ◌*◌, ◌%◌, Bool, Option, none, some, List, [], ◌∷◌, ◌++◌, ◌==◌, ◌||◌, ◌&&◌,
  ltb, if◌then◌else◌, length, get_elem?, set, replicate, Outcome, ret, exit, fault, ◌>>=◌, deref,
  Text, text_eq,
}
use public_systems_projects.Binary.{binary_string_range_to_int, int_to_binary_string}

abbrev pub bitwidth : ℕ
bitwidth = 8

abbrev pub addresses : ℕ
addresses = 1024

-- `S`
abbrev pub sets : ℕ
sets = 4

abbrev pub index_start : ℕ
index_start = 1

abbrev pub index_stop : ℕ
index_stop = 2

abbrev pub cost_of_cache_hit : ℕ
cost_of_cache_hit = 1

abbrev pub cost_of_cache_miss : ℕ
cost_of_cache_miss = 100

pub record Sim : Type 0 where
  pub instruction_cache : List Text
  pub pc : ℕ
  pub cache_lines : List Text
  pub cache_occupied : List ℕ
  pub cache_hit : ℕ
  pub cache_misses : ℕ
  pub total_latency : ℕ

-- The globals when the program starts: all zero, which makes every string empty.
pub boot : Sim
boot = record {
  instruction_cache = replicate addresses [];
  pc = 0;
  cache_lines = replicate sets [];
  cache_occupied = replicate sets 0;
  cache_hit = 0;
  cache_misses = 0;
  total_latency = 0;
}

-- all but the last byte of a line
pub drop_last : Text → Text
drop_last [] = []
drop_last (c ∷ []) = []
drop_last (c ∷ d ∷ s) = c ∷ drop_last (d ∷ s)

-- The rounds of `loadTrace` for the lines that fgets returns, the first one at row `pos`.
pub load_trace : List Text → ℕ → Sim → Outcome Sim
unfolding drop_last
load_trace [] pos s = ret s
load_trace (line ∷ lines) pos s = do
  _ ← deref (get_elem? s.instruction_cache pos)
  load_trace lines (pos + 1)
      (record s { instruction_cache = set s.instruction_cache pos (drop_last line) })

pub step_simulator : Sim → Sim
step_simulator s = record s { pc = s.pc + 1 }

pub increment_cache_miss : Sim → Sim
increment_cache_miss s = record s {
  cache_misses = s.cache_misses + 1;
  total_latency = s.total_latency + cost_of_cache_miss;
}

pub increment_cache_hit : Sim → Sim
increment_cache_hit s = record s {
  cache_hit = s.cache_hit + 1;
  total_latency = s.total_latency + cost_of_cache_hit;
}

-- `instructionCache[PC]`
pub current : Sim → Outcome Text
current s = deref (get_elem? s.instruction_cache s.pc)

-- the address at PC and its set
pub index_of : Sim → Outcome (Text × ℕ)
unfolding current
index_of s = do
  address ← current s
  index ← binary_string_range_to_int address index_start index_stop
  ret (address, index)

-- `ReplacementPolicy`
pub replacement_policy : Sim → Outcome Sim
unfolding index_of increment_cache_miss
replacement_policy s = do
  (address, index) ← index_of s
  ret (
      increment_cache_miss (record s {
        cache_occupied = set s.cache_occupied index 1;
        cache_lines = set s.cache_lines index address;
      }))

-- `evictionPolicy`
pub eviction_policy : Sim → Outcome Sim
unfolding index_of increment_cache_hit increment_cache_miss
eviction_policy s = do
  (address, index) ← index_of s
  line ← deref (get_elem? s.cache_lines index)
  ret (
      if text_eq line address
      then increment_cache_hit s
      else increment_cache_miss (record s { cache_lines = set s.cache_lines index address }))

-- `checkCache`
pub check_cache : Sim → Outcome Sim
unfolding index_of replacement_policy eviction_policy
check_cache s = do
  (address, index) ← index_of s
  occupied ← deref (get_elem? s.cache_occupied index)
  if occupied == 0 then replacement_policy s else if occupied == 1 then eviction_policy s else ret s

-- the loop of `main` that empties the sets, from set `i` on
pub clear_occupied : ℕ → List ℕ → List ℕ
clear_occupied zero occupied = occupied
clear_occupied (suc n) occupied = clear_occupied n (set occupied (sets - suc n) 0)

-- The question after a round, with the first letters of the words that the user still has to answer: scanf
-- leaves `run` alone when there are none left. A word and its 0 are two bytes or more, for which the one
-- `char` has no room, so that to read one is undefined.
pub ask : ℕ → List ℕ → Outcome ℕ
ask run [] = ret run
ask run (c ∷ answers) = if run == b'a' then ret run else fault

-- The loop of `main`. PC grows each round, so `1024 - PC` rounds are enough.
pub main_loop : ℕ → (run : ℕ) → List ℕ → Sim → Outcome Sim
unfolding check_cache step_simulator ask
main_loop zero run answers s = ret s
main_loop (suc k) run answers s =
    let round = (do
      s' ← check_cache s
      run' ← ask run answers
      main_loop k run' answers (step_simulator s')) in
    if (run == b'y' || run == b'a') && ltb s.pc addresses then round else ret s

-- `main` on a trace file of these lines
pub main : List Text → List ℕ → Outcome Sim
main lines answers = do
  s ← load_trace lines 0 boot
  main_loop addresses b'y' answers
      (record s { cache_occupied = clear_occupied sets s.cache_occupied })

-- The lines that a function of trace.c writes to its file, the newline included.
pub trace_from : (ℕ → ℕ) → ℕ → ℕ → Outcome (List Text)
trace_from address i zero = ret []
trace_from address i (suc n) = do
  bin ← int_to_binary_string (address i) bitwidth
  lines ← trace_from address (i + 1) n
  ret ((bin ++ (b'\n' ∷ [])) ∷ lines)

pub four_trace : ℕ → Outcome (List Text)
four_trace size = trace_from (λ i. i % 4 * 2) 0 size

pub hostile_trace : ℕ → Outcome (List Text)
hostile_trace size = trace_from (λ i. i % 4) 0 size

pub regular_trace : ℕ → ℕ → Outcome (List Text)
regular_trace size range = trace_from (λ i. i % range) 0 size

pub single_trace : ℕ → ℕ → Outcome (List Text)
single_trace size v = trace_from (λ i. v) 0 size
