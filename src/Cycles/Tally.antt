-- ===== src/Cycles/Tally.antt =====
-- What the tests count, and what a run of the tool comes to.
use mathlib.Core.Path.{subst}
use public_systems_projects.Base.{
  ◌≢◌, ◌⊎◌, ℕ, zero, suc, ◌+◌, ◌<◌, ◌≡◌, refl, sym, ap, ◌∙◌, true, false, ◌&&◌, Option, none, some,
  List, [], ◌∷◌, ◌++◌, leb, map, length, if◌then◌else◌, ret, fault, Text, text_eq, text_eq→eq,
  arith, Bool-cases, inl, inr,
}
use public_systems_projects.Base.Tokens.{all, Item, line, AreItems, strtok-line, strtok-blank}
use public_systems_projects.Cycles.{
  Counts, no_counts, Kind, tally, four_tests, three_tests, run_tests, to_lower, prefix, cut_comment,
  is_stop, copy_lower, count_token, count_loop, count_lines, main,
}

-- the kind of the first test that a name passes
abbrev pub find : Text → List (Text × Kind) → Option Kind
find name [] = none
find name ((test, k) ∷ tests) = if text_eq name test then some k else find name tests

abbrev pub lower_four : Text → Text
lower_four p = map to_lower (prefix 4 p)

abbrev pub lower_three : Text → Text
lower_three p = map to_lower (prefix 3 (lower_four p))

-- What kind of instruction a token is: by its first four characters, or else by its first three.
abbrev pub kind_of : Text → Option Kind
kind_of p = elim (find (lower_four p) four_tests) [
  | some k ↦ some k
  | none ↦ find (lower_three p) three_tests
]

abbrev pub tally_maybe : Option Kind → Counts → Counts
tally_maybe none c = c
tally_maybe (some k) c = tally k c

abbrev Absent : Text → List (Text × Kind) → Type 0
Absent name [] = Unit {0}
Absent name ((test, _) ∷ tests) = (text_eq name test ≡ false) × Absent name tests

abbrev Separate : List (Text × Kind) → Type 0
Separate [] = Unit {0}
Separate ((test, _) ∷ tests) = Absent test tests × Separate tests

run_tests-Absent :
    (tests : List (Text × Kind)) (name : Text) (c : Counts)
    → Absent name tests
    → run_tests tests name c ≡ c
unfolding run_tests
run_tests-Absent [] name c a = refl
run_tests-Absent ((test, k) ∷ tests) name c (e, a) = rw e (run_tests-Absent tests name c a)

-- Tests with different names count at most one kind, the one that is found.
run_tests-find :
    (tests : List (Text × Kind)) (name : Text) (c : Counts)
    → Separate tests
    → run_tests tests name c ≡ tally_maybe (find name tests) c
unfolding run_tests
run_tests-find [] name c s = refl
run_tests-find ((test, k) ∷ tests) name c (a, s) = elim (Bool-cases (text_eq name test)) [
  | inl e ↦ rw e (
      run_tests-Absent tests name (tally k c)
        (subst (λ t. Absent t tests) (sym (text_eq→eq name test e)) a))
  | inr e ↦ rw e (run_tests-find tests name c s)
]

-- No test of three characters is passed by the names of `tests`.
abbrev Clear : List (Text × Kind) → Type 0
Clear [] = Unit {0}
Clear ((test, _) ∷ tests) = (find (map to_lower (prefix 3 test)) three_tests ≡ none) × Clear tests

find-Clear :
    (tests : List (Text × Kind)) (name : Text) (k : Kind)
    → Clear tests
    → find name tests ≡ some k
    → find (map to_lower (prefix 3 name)) three_tests ≡ none
find-Clear [] name k c e = absurd (cc e)
find-Clear ((test, k') ∷ tests) name k (clear, c) e = elim (Bool-cases (text_eq name test)) [
  | inl t ↦ ap (λ n. find (map to_lower (prefix 3 n)) three_tests) (text_eq→eq name test t) ∙ clear
  | inr t ↦ find-Clear tests name k c (ap (λ b. if b then some k' else find name tests) (sym t) ∙ e)
]

four_tests-Clear : Clear four_tests
unfolding to_lower prefix
four_tests-Clear = search tt

four_tests-Separate : Separate four_tests
four_tests-Separate = search tt

three_tests-Separate : Separate three_tests
three_tests-Separate = search tt

-- What the tests add to the counters for a token whose first characters are in the arrays.
tests_lem :
    (p : Text) (c : Counts)
    → run_tests three_tests (lower_three p) (run_tests four_tests (lower_four p) c)
      ≡ tally_maybe (kind_of p) c
tests_lem p c =
    rw
      (
        run_tests-find four_tests (lower_four p) c four_tests-Separate,
        run_tests-find three_tests (lower_three p) (tally_maybe (find (lower_four p) four_tests) c)
            three_tests-Separate,
      )
      (both (find (lower_four p) four_tests) refl)
  where
    third : Option Kind
    third = find (lower_three p) three_tests

    chosen : Option Kind → Option Kind
    chosen o = elim o [ some k ↦ some k | none ↦ third ]

    both :
        (o : Option Kind)
        → find (lower_four p) four_tests ≡ o
        → tally_maybe
            (find (lower_three p) three_tests)
            (tally_maybe (find (lower_four p) four_tests) c)
          ≡ tally_maybe (kind_of p) c
    both none e =
        ap (λ o. tally_maybe third (tally_maybe o c)) e ∙ sym (ap (λ o. tally_maybe (chosen o) c) e)
    both (some k) e =
        ap (λ o. tally_maybe o (tally_maybe (find (lower_four p) four_tests) c))
          (find-Clear four_tests (lower_four p) k four_tests-Clear e)
        ∙ ap (λ o. tally_maybe o c) e
        ∙ sym (ap (λ o. tally_maybe (chosen o) c) e)

-- the tokens of lines
abbrev pub tokens_of : List (Text × List Item) → List Text
tokens_of [] = []
tokens_of ((lead, items) ∷ rest) = map (λ it. it.word) items ++ tokens_of rest

-- Up to its comment each text is a line of fewer than `rounds` tokens, each ended by tabs and newlines.
abbrev pub AreLines : ℕ → List Text → List (Text × List Item) → Type 0
AreLines rounds [] [] = Unit {0}
AreLines rounds (s ∷ texts) ((lead, items) ∷ rest) =
    (cut_comment s ≡ line lead items)
    × (all is_stop lead ≡ true)
    × AreItems is_stop items
    × (length items < rounds)
    × AreLines rounds texts rest
AreLines rounds _ _ = ⊥

count_loop_blank :
    (k : ℕ) (lead : Text) (c : Counts)
    → 0 < k
    → all is_stop lead ≡ true
    → count_loop k (line lead []) c ≡ ret c
unfolding count_loop
count_loop_blank zero lead c fuel stops = absurd (omega arith)
count_loop_blank (suc k) lead c fuel stops = rw (strtok-blank is_stop lead stops, count_loop) refl

-- The first token is undefined: its first four bytes and a 0 go to an array of one byte, of which four bytes are
-- read.
count_loop_token :
    (k : ℕ) (lead : Text) (it : Item) (items : List Item) (c : Counts)
    → 0 < k
    → all is_stop lead ≡ true
    → AreItems is_stop (it ∷ items)
    → count_loop k (line lead (it ∷ items)) c ≡ fault
unfolding count_loop count_token copy_lower
count_loop_token zero lead it items c fuel stops are = absurd (omega arith)
count_loop_token (suc k) lead it items c fuel stops (is, are) =
    rw (strtok-line is_stop lead it (line it.gap items) stops is, too_short, count_loop) refl
  where
    too_short : (leb (length (prefix 4 it.word) + 1) 1 && leb 4 1) ≡ false
    too_short = ground arith

count_lines_lem :
    (rounds : ℕ) (texts : List Text) (rest : List (Text × List Item)) (c : Counts)
    → AreLines rounds texts rest
    → ((tokens_of rest ≡ []) × (count_lines rounds texts c ≡ ret c))
      ⊎ ((tokens_of rest ≢ []) × (count_lines rounds texts c ≡ fault))
unfolding count_lines
count_lines_lem rounds [] [] c are = inl (refl, refl)
count_lines_lem rounds [] (x ∷ rest) c are = absurd are
count_lines_lem rounds (s ∷ texts) [] c are = absurd are
count_lines_lem rounds (s ∷ texts) ((lead, []) ∷ rest) c (e, stops, items_are, fuel, are) =
    let first : count_loop rounds (cut_comment s) c ≡ ret c =
      rw e (count_loop_blank rounds lead c (omega arith) stops) in
    elim (count_lines_lem rounds texts rest c are) [
      | inl (no_token, same) ↦ inl (no_token, rw first same)
      | inr (some_token, faults) ↦ inr (some_token, rw first faults)
    ]
count_lines_lem rounds (s ∷ texts) ((lead, it ∷ items) ∷ rest) c (e, stops, items_are, fuel, are) =
    let first : count_loop rounds (cut_comment s) c ≡ fault =
      rw e (count_loop_token rounds lead it items c (omega arith) stops items_are) in
    inr ((λ none_left. absurd (cc none_left)), rw first refl)

-- On lines that are tabs, newlines and tokens up to their comments, the program counts nothing and ends where
-- there is no token. With a token it is undefined, since the arrays for its first characters have one byte.
pub counts_lem :
    (rounds : ℕ) (texts : List Text) (rest : List (Text × List Item))
    → AreLines rounds texts rest
    → ((tokens_of rest ≡ []) × (main rounds texts ≡ ret no_counts))
      ⊎ ((tokens_of rest ≢ []) × (main rounds texts ≡ fault))
unfolding main
counts_lem rounds texts rest are = count_lines_lem rounds texts rest no_counts are
