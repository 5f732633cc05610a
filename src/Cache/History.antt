-- ===== src/Cache/History.antt =====
-- A whole run of the simulator: the counters against those of a direct-mapped cache.
use public_systems_projects.Base.{
  ℕ, zero, suc, ◌+◌, ◌*◌, ◌≤◌, ◌<◌, ◌≡◌, refl, sym, ap, ◌∙◌, Bool, true, ◌||◌, ◌&&◌, some, List, [],
  ◌∷◌, ◌++◌, map, arith, ◌==◌, ltb, if◌then◌else◌, length, length-set, length-replicate, replicate,
  get_elem?, set, get_elem?-set_self, get_elem?-set_ne, get_elem?_of_lt, ret, fault, Text,
}
use mathlib.Core.Path.{subst, subst₂}
use public_systems_projects.Binary.Digits.{digits}
use public_systems_projects.Cache.{
  Sim, addresses, sets, boot, drop_last, load_trace, step_simulator, ask, main_loop, main,
  clear_occupied,
}
use public_systems_projects.Cache.Step.{Line-same, last_at, hits, Tracks, Scored, check_cache_lem}

-- hits and misses of a direct-mapped cache on a trace, after a history
unfoldable pub hit_total : List ℕ → List ℕ → ℕ
hit_total hist [] = 0
hit_total hist (a ∷ trace) = (if hits a hist then 1 else 0) + hit_total (a ∷ hist) trace

unfoldable pub miss_total : List ℕ → List ℕ → ℕ
miss_total hist [] = 0
miss_total hist (a ∷ trace) = (if hits a hist then 0 else 1) + miss_total (a ∷ hist) trace

pub hit_total-add-miss_total :
    (hist trace : List ℕ) → hit_total hist trace + miss_total hist trace ≡ length trace
unfolding hit_total miss_total
hit_total-add-miss_total hist [] = refl
hit_total-add-miss_total hist (a ∷ trace) =
    ground (arith, hit_total-add-miss_total (a ∷ hist) trace)

-- every address has eight bits
abbrev pub Small : List ℕ → Type 0
Small [] = Unit {0}
Small (a ∷ trace) = (a < 256) × Small trace

-- a value of `run` that lets the simulation go on
abbrev goes_on : ℕ → Bool
goes_on c = c == b'y' || c == b'a'

-- the addresses from row `pos` on
abbrev Rows : List Text → ℕ → List ℕ → Type 0
Rows rows pos [] = Unit {0}
Rows rows pos (a ∷ trace) = (get_elem? rows pos ≡ some (digits 8 a)) × Rows rows (pos + 1) trace

-- what a run of the loop from `s` over the trace does
record Ran (s t : Sim) (hist trace : List ℕ) : Type 0 where
  hit_count : t.cache_hit ≡ s.cache_hit + hit_total hist trace
  miss_count : t.cache_misses ≡ s.cache_misses + miss_total hist trace
  latency : t.total_latency ≡ s.total_latency + hit_total hist trace + 100 * miss_total hist trace
  pc : t.pc ≡ s.pc + length trace

Ran-cons :
    (s s' t : Sim) (hist : List ℕ) (a : ℕ) (trace : List ℕ)
    → Scored s s' (hits a hist)
    → Ran (step_simulator s') t (a ∷ hist) trace
    → Ran s t hist (a ∷ trace)
unfolding hit_total miss_total step_simulator
Ran-cons s s' t hist a trace sc ran = record {
  hit_count = omega (arith, sc.hit_count, ran.hit_count);
  miss_count = omega (arith, sc.miss_count, ran.miss_count);
  latency = ground (arith, sc.latency, ran.latency);
  pc = omega (arith, sc.same_pc, ran.pc);
}

-- The test of the loop at an address of the trace.
loop_test :
    (run pc n : ℕ)
    → goes_on run ≡ true
    → pc + suc n ≤ addresses
    → (goes_on run && ltb pc addresses) ≡ true
loop_test run pc n go fits = ground arith

Tracks-step : (s : Sim) (hist : List ℕ) → Tracks s hist → Tracks (step_simulator s) hist
unfolding step_simulator
Tracks-step s hist is = record {
  lines = is.lines;
  flags = is.flags;
  line = λ i h. Line-same s (step_simulator s) i (last_at i hist) refl refl (is.line i h);
}

-- a run of the loop with no answer left to read
main_loop-Ran :
    (s : Sim) (hist trace : List ℕ)
    → s.pc + length trace ≤ addresses
    → Small trace
    → Rows s.instruction_cache s.pc trace
    → Tracks s hist
    → (t : Sim) × (main_loop (length trace) b'y' [] s ≡ ret t) × Ran s t hist trace
unfolding main_loop ask hit_total miss_total step_simulator
main_loop-Ran s hist [] fits small rows is = (
  s,
  refl,
  record {
    hit_count = omega arith;
    miss_count = omega arith;
    latency = omega arith;
    pc = omega arith;
  },
)
main_loop-Ran s hist (a ∷ trace) fits (a_small, small) (here, rows) is =
    let (s', e, is', sc) = check_cache_lem is a a_small here in
    let (t, f, ran) =
      main_loop-Ran (step_simulator s') (a ∷ hist) trace (omega (arith, sc.same_pc)) small
        (subst₂ (λ r p. Rows r (p + 1) trace) (sym sc.same_rows) (sym sc.same_pc) rows)
        (Tracks-step s' (a ∷ hist) is') in
    (t, rw (loop_test b'y' s.pc (length trace) refl fits, e) f, Ran-cons s s' t hist a trace sc ran)

-- The first answer that is read is undefined.
main_loop_asks :
    (s : Sim) (hist trace : List ℕ) (c : ℕ) (answers : List ℕ)
    → 1 ≤ length trace
    → s.pc + length trace ≤ addresses
    → Small trace
    → Rows s.instruction_cache s.pc trace
    → Tracks s hist
    → main_loop (length trace) b'y' (c ∷ answers) s ≡ fault
unfolding main_loop ask
main_loop_asks s hist [] c answers some_row fits small rows is = absurd (omega arith)
main_loop_asks s hist (a ∷ trace) c answers some_row fits (a_small, small) (here, rows) is =
    let (s', e, is', sc) = check_cache_lem is a a_small here in
    rw (loop_test b'y' s.pc (length trace) refl fits, e) refl

-- the line of a trace file for an address
abbrev pub line_of : ℕ → Text
line_of a = digits 8 a ++ (b'\n' ∷ [])

drop_last-snoc : (s : Text) (c : ℕ) → drop_last (s ++ (c ∷ [])) ≡ s
unfolding drop_last
drop_last-snoc [] c = refl
drop_last-snoc (d ∷ []) c = refl
drop_last-snoc (d ∷ e ∷ s) c = ap (λ t. d ∷ t) (drop_last-snoc (e ∷ s) c)

-- the rows after the addresses are written from row `pos` on
filled : List Text → ℕ → List ℕ → List Text
filled rows pos [] = rows
filled rows pos (a ∷ trace) = filled (set rows pos (digits 8 a)) (pos + 1) trace

load_trace-filled :
    (trace : List ℕ) (pos : ℕ) (s : Sim)
    → pos + length trace ≤ length s.instruction_cache
    → load_trace (map line_of trace) pos s
      ≡ ret (record s { instruction_cache = filled s.instruction_cache pos trace })
unfolding load_trace filled
load_trace-filled [] pos s fits = refl
load_trace-filled (a ∷ trace) pos s fits =
    let (row, e) = get_elem?_of_lt s.instruction_cache pos (omega arith) in
    rw (e, drop_last-snoc (digits 8 a) b'\n')
      (load_trace-filled trace (pos + 1)
        (record s { instruction_cache = set s.instruction_cache pos (digits 8 a) })
        (omega (arith, length-set s.instruction_cache pos (digits 8 a))))

filled-before :
    (rows : List Text) (pos j : ℕ) (trace : List ℕ)
    → j < pos
    → get_elem? (filled rows pos trace) j ≡ get_elem? rows j
unfolding filled
filled-before rows pos j [] h = refl
filled-before rows pos j (a ∷ trace) h =
    filled-before (set rows pos (digits 8 a)) (pos + 1) j trace (omega arith)
    ∙ get_elem?-set_ne rows pos j (digits 8 a) (omega arith)

filled-Rows :
    (rows : List Text) (pos : ℕ) (trace : List ℕ)
    → pos + length trace ≤ length rows
    → Rows (filled rows pos trace) pos trace
unfolding filled
filled-Rows rows pos [] fits = tt
filled-Rows rows pos (a ∷ trace) fits = (
  filled-before (set rows pos (digits 8 a)) (pos + 1) pos trace (omega arith)
      ∙ get_elem?-set_self rows pos (digits 8 a) (omega arith),
  filled-Rows (set rows pos (digits 8 a)) (pos + 1) trace
      (omega (arith, length-set rows pos (digits 8 a))),
)

-- the globals before the first round
abbrev started : List ℕ → Sim
started trace = record boot {
  instruction_cache = filled boot.instruction_cache 0 trace;
  cache_occupied = clear_occupied sets boot.cache_occupied;
}

length-boot : length boot.instruction_cache ≡ addresses
unfolding boot
length-boot = length-replicate {A = Text} addresses []

started-Tracks : (trace : List ℕ) → Tracks (started trace) []
unfolding boot clear_occupied last_at
started-Tracks trace = record { lines = refl; flags = refl; line = λ i h. no_flag i h }
  where
    no_flag : (i : ℕ) → i < 4 → get_elem? {A = ℕ} (replicate sets 0) i ≡ some 0
    no_flag zero h = refl
    no_flag (suc zero) h = refl
    no_flag (suc (suc zero)) h = refl
    no_flag (suc (suc (suc zero))) h = refl
    no_flag (suc (suc (suc (suc i)))) h = absurd (omega arith)

started_zero :
    (trace : List ℕ)
    → ((started trace).pc ≡ 0)
      × ((started trace).cache_hit ≡ 0)
      × ((started trace).cache_misses ≡ 0)
      × ((started trace).total_latency ≡ 0)
unfolding boot
started_zero trace = (refl, refl, refl, refl)

main-started :
    (trace answers : List ℕ)
    → length trace ≤ addresses
    → main (map line_of trace) answers ≡ main_loop addresses b'y' answers (started trace)
unfolding main
main-started trace answers fits = rw (load_trace-filled trace 0 boot (omega (arith, length-boot)))

-- On a trace file of 1024 addresses of eight bits, and with no word to read for its questions, the program
-- runs to the end of the trace without a fault. It counts a hit exactly where the last address of the same set
-- was the same and a miss at every other address, and the latency is 1 for each hit and 100 for each miss. With
-- a word to read, it is undefined: scanf stores the word and its 0 in one `char`.
pub main_lem :
    (trace : List ℕ)
    → length trace ≡ addresses
    → Small trace
    → (t : Sim) × (main (map line_of trace) [] ≡ ret t)
      × (t.pc ≡ addresses)
      × (t.cache_hit ≡ hit_total [] trace)
      × (t.cache_misses ≡ miss_total [] trace)
      × (t.total_latency ≡ t.cache_hit + 100 * t.cache_misses)
      × (t.cache_hit + t.cache_misses ≡ addresses)
      × ((c : ℕ) (answers : List ℕ) → main (map line_of trace) (c ∷ answers) ≡ fault)
main_lem trace sized small =
    let zeros = started_zero trace in
    let rows =
      subst (λ p. Rows (filled boot.instruction_cache 0 trace) p trace) (sym zeros.0)
        (filled-Rows boot.instruction_cache 0 trace (omega (arith, length-boot))) in
    let (t, e, ran) =
      main_loop-Ran (started trace) [] trace (omega arith) small rows (started-Tracks trace) in
    (
      t,
      main-started trace [] (omega arith)
          ∙ ap (λ k. main_loop k b'y' [] (started trace)) (sym sized)
          ∙ e,
      omega (arith, ran.pc, zeros.0),
      omega (arith, ran.hit_count, zeros.1),
      omega (arith, ran.miss_count, zeros.2),
      omega (arith, ran.latency, ran.hit_count, ran.miss_count, zeros.1, zeros.2, zeros.3),
      omega (
        arith,
        ran.hit_count,
        ran.miss_count,
        zeros.1,
        zeros.2,
        hit_total-add-miss_total [] trace,
      ),
      λ c answers.
          main-started trace (c ∷ answers) (omega arith)
          ∙ ap (λ k. main_loop k b'y' (c ∷ answers) (started trace)) (sym sized)
          ∙ main_loop_asks (started trace) [] trace c answers (omega arith) (omega arith) small rows
              (started-Tracks trace),
    )
