-- ===== src/Shell/Round.antt =====
-- One round of the shell on a line without a bar.
use public_systems_projects.Base.{
  ℕ, zero, suc, ◌+◌, ◌%◌, ◌≤◌, ◌<◌, ◌≡◌, ◌≢◌, refl, ap, ◌∙◌, true, not, Option, none, some, List,
  [], ◌∷◌, ◌++◌, map, length, length-set, get_elem?, get_elem?_of_lt, set, if◌then◌else◌, Outcome,
  ret, exit, fault, out_of_fuel, blocked, ◌>>=◌, deref, Text, text_eq, arith, Bool-cases, inl, inr,
}
use public_systems_projects.Shell.{
  is_blank, is_bar, tokenize, buffer_size, command_count, Shell, System, Event, helped, listed, ran,
  not_found, history_loop, history, cd, builtins, call, find_builtin, execute, handle_inputs, note,
  process, round,
}
use public_systems_projects.Base.Tokens.{
  all, Item, line, AreItems, strtok-whole, strtok-blank, strtok,
}
use public_systems_projects.Shell.Words.{tokenize_lem}

pub record IsShell (sh : Shell) : Type 0 where
  pub slots : length sh.commands ≡ command_count
  pub below : sh.size < command_count

-- the history after a command
abbrev pub noted : Text → Shell → Shell
noted name sh = record {
  commands = set sh.commands sh.size name;
  size = (sh.size + 1) % command_count;
}

pub noted-IsShell : (name : Text) (sh : Shell) → IsShell sh → IsShell (noted name sh)
noted-IsShell name sh is = record {
  slots = length-set sh.commands sh.size name ∙ is.slots;
  below = omega arith;
}

note_lem :
    (name : Text) (args : List Text) (sh : Shell)
    → IsShell sh
    → note (name ∷ args) sh ≡ ret (noted name sh)
unfolding note
note_lem name args sh is =
    let (old, e) = get_elem?_of_lt sh.commands sh.size (omega (arith, is.slots, is.below)) in
    rw e refl

-- the first `n` texts
abbrev pub take : ℕ → List Text → List Text
take zero xs = []
take (suc n) [] = []
take (suc n) (x ∷ xs) = x ∷ take n xs

abbrev drop : ℕ → List Text → List Text
drop zero xs = xs
drop (suc n) [] = []
drop (suc n) (x ∷ xs) = drop n xs

get_elem?-drop :
    (xs : List Text) (j : ℕ)
    → j < length xs
    → (x : Text) × (get_elem? xs j ≡ some x) × (drop j xs ≡ x ∷ drop (suc j) xs)
get_elem?-drop [] j h = absurd (omega arith)
get_elem?-drop (x ∷ xs) zero h = (x, refl, refl)
get_elem?-drop (x ∷ xs) (suc j) h = get_elem?-drop xs j (omega arith)

history_loop-take :
    (n j : ℕ) (commands : List Text)
    → j + n ≤ length commands
    → history_loop commands j n ≡ ret (take n (drop j commands))
unfolding history_loop
history_loop-take zero j commands room = refl
history_loop-take (suc n) j commands room =
    let (x, e, f) = get_elem?-drop commands j (omega arith) in
    let here : j + 1 ≡ suc j = omega arith in
    rw (e, here, history_loop-take n (suc j) commands (omega arith), f) refl

-- What the user sees of a command that is no pipe. The history is the commands noted since `size` was last 0:
-- after each 128th command it starts again, and the older ones are not shown.
abbrev pub reply : System → Text → List Text → Shell → Outcome (List Event)
reply sys name args sh =
    if text_eq name (b'e' ∷ b'x' ∷ b'i' ∷ b't' ∷ [])
    then exit 1
    else if text_eq name (b'h' ∷ b'e' ∷ b'l' ∷ b'p' ∷ [])
    then ret (helped ∷ [])
    else if text_eq name (b'c' ∷ b'd' ∷ [])
    then cd sys (name ∷ args)
    else if text_eq name (b'h' ∷ b'i' ∷ b's' ∷ b't' ∷ b'o' ∷ b'r' ∷ b'y' ∷ [])
    then ret (listed (take sh.size sh.commands) ∷ [])
    else if sys.fork
    then ret ((if sys.execvp name then ran (name ∷ args) else not_found name) ∷ [])
    else ret []

abbrev name_of : ℕ → Text
name_of zero = b'e' ∷ b'x' ∷ b'i' ∷ b't' ∷ []
name_of (suc zero) = b'h' ∷ b'e' ∷ b'l' ∷ b'p' ∷ []
name_of (suc (suc zero)) = b'c' ∷ b'd' ∷ []
name_of _ = b'h' ∷ b'i' ∷ b's' ∷ b't' ∷ b'o' ∷ b'r' ∷ b'y' ∷ []

handle_inputs_lem :
    (sys : System) (name : Text) (args : List Text) (sh : Shell)
    → IsShell sh
    → handle_inputs sys (name ∷ args) sh ≡ reply sys name args sh
unfolding handle_inputs
handle_inputs_lem sys name args sh is = elim (Bool-cases (text_eq name (name_of 0))) [
  | inl a ↦ found 0 (rw a refl) ∙ rw a refl
  | inr a ↦ elim (Bool-cases (text_eq name (name_of 1))) [
    | inl b ↦ found 1 (rw (a, b) refl) ∙ rw (a, b) refl
    | inr b ↦ elim (Bool-cases (text_eq name (name_of 2))) [
      | inl c ↦ found 2 (rw (a, b, c) refl) ∙ rw (a, b, c) refl
      | inr c ↦ elim (Bool-cases (text_eq name (name_of 3))) [
        | inl d ↦ found 3 (rw (a, b, c, d) refl) ∙ rw (a, b, c, d) whole
        | inr d ↦ missing (rw (a, b, c, d) refl) ∙ rw (a, b, c, d) executed
      ]
    ]
  ]
]
  where
    settle :
        (o : Outcome (List Event))
        → ◌≡◌ {A = Outcome (List Event)}
            ((do events ← o; ret (some events)) >>= (λ found. elim found [
              | some events ↦ ret events
              | none ↦ execute sys (name ∷ args)
            ]))
            o
    settle (ret events) = refl
    settle (exit n) = refl
    settle fault = refl
    settle out_of_fuel = refl
    settle blocked = refl

    dispatch : Option ℕ → Outcome (List Event)
    dispatch o =
        (elim o [
          | none ↦ ret none
          | some index ↦ (do events ← call sys index (name ∷ args) sh; ret (some events))
        ])
        >>= (λ found. elim found [ some events ↦ ret events | none ↦ execute sys (name ∷ args) ])

    found :
        (k : ℕ)
        → find_builtin name builtins 0 ≡ some k
        → handle_inputs sys (name ∷ args) sh ≡ call sys k (name ∷ args) sh
    found k e = ap dispatch e ∙ settle (call sys k (name ∷ args) sh)

    missing :
        find_builtin name builtins 0 ≡ none
        → handle_inputs sys (name ∷ args) sh ≡ execute sys (name ∷ args)
    missing e = ap dispatch e

    executed : execute sys (name ∷ args) ≡ (
        if sys.fork
        then ret ((if sys.execvp name then ran (name ∷ args) else not_found name) ∷ [])
        else ret [])
    executed = refl

    whole : history sh ≡ ret (listed (take sh.size sh.commands) ∷ [])
    whole = rw (history_loop-take sh.size 0 sh.commands (omega (arith, is.slots, is.below))) refl

word_cons : (w s : Text) → w ≢ [] → w ++ s ≢ []
word_cons [] s ne e = ne refl
word_cons (c ∷ w) s ne e = cc e

line_cons :
    (lead : Text) (it : Item) (items : List Item) → it.word ≢ [] → line lead (it ∷ items) ≢ []
line_cons [] it items ne e = word_cons it.word (it.stop ∷ line it.gap items) ne e
line_cons (c ∷ lead) it items ne e = cc e

-- a round on a line without a bar
round-process :
    (sys : System) (second_memory inputs : Text) (sh : Shell)
    → inputs ≢ []
    → all (λ c. not (is_bar c)) inputs ≡ true
    → round sys second_memory inputs sh ≡ process sys second_memory inputs none sh
unfolding round
round-process sys second_memory inputs sh ne clean =
    ap (λ o. deref o >>= (λ x. process sys second_memory x.0 (strtok is_bar x.1) sh))
      (strtok-whole is_bar inputs ne clean)
    ∙ ap (λ o. process sys second_memory inputs o sh) (strtok-blank is_bar [] refl)

-- A line of blanks and words, the last one ended by a blank too, with no bar and fewer than 80 words: the
-- round notes the first word in the history and replies as its name says, a built-in name before a
-- program, which is run only if fork succeeds. `history` lists the commands noted since the last multiple of
-- 128, so none right after the 128th, although the README promises the past 128. `junk` are the words in the array `second`, which are not used.
pub round_lem :
    (sys : System) (second_memory lead : Text) (it : Item) (items : List Item) (junk : List Text)
    (sh : Shell)
    → IsShell sh
    → all is_blank lead ≡ true
    → AreItems is_blank (it ∷ items)
    → length (it ∷ items) < buffer_size
    → all (λ c. not (is_bar c)) (line lead (it ∷ items)) ≡ true
    → tokenize second_memory ≡ ret junk
    → round sys second_memory (line lead (it ∷ items)) sh ≡ (do
      events ← reply sys it.word (map (λ i. i.word) items) (noted it.word sh)
      ret (events, noted it.word sh))
unfolding process
round_lem sys second_memory lead it items junk sh is blank are room no_bar garbage =
    round-process sys second_memory (line lead (it ∷ items)) sh
      (line_cons lead it items are.0.some_word) no_bar
    ∙ rw
        (
          tokenize_lem lead (it ∷ items) blank are room,
          garbage,
          note_lem it.word (map (λ i. i.word) items) sh is,
          handle_inputs_lem sys it.word (map (λ i. i.word) items) (noted it.word sh)
              (noted-IsShell it.word sh is),
        )
        refl

blank-clean : (s : Text) → all is_blank s ≡ true → all (λ c. not (is_bar c)) s ≡ true
blank-clean [] h = refl
blank-clean (c ∷ s) h = ground (arith, blank-clean s)

-- A line of blanks only, or an empty one, is undefined: the shell copies from a null pointer.
pub blank_line_faults :
    (sys : System) (second_memory lead : Text) (junk : List Text) (sh : Shell)
    → all is_blank lead ≡ true
    → tokenize second_memory ≡ ret junk
    → round sys second_memory lead sh ≡ fault
unfolding round process note
blank_line_faults sys second_memory [] junk sh blank garbage =
    ap (λ o. deref o >>= (λ x. process sys second_memory x.0 (strtok is_bar x.1) sh))
      (strtok-blank is_bar [] refl)
blank_line_faults sys second_memory (c ∷ lead) junk sh blank garbage =
    round-process sys second_memory (c ∷ lead) sh (λ e. cc e) (blank-clean (c ∷ lead) blank)
    ∙ rw (tokenize_lem (c ∷ lead) [] blank tt (omega arith), garbage) refl
