-- ===== src/Shell.antt =====
-- Assignment5_Shell/part1/shell.c and parse.c: a line is cut into words, the first word is noted in the
-- history, and a built-in function or a program is called. A text is what stands before its
-- terminating 0. What the operating system answers is an argument: whether chdir, execvp, pipe and
-- fork succeed. What a call prints or runs is a list of events.
pub mod Words
pub mod Round
mod Tests
use public_systems_projects.Base.{
  ℕ, zero, suc, ◌+◌, ◌%◌, Bool, true, false, ◌||◌, Option, none, some, List, [], ◌∷◌, ◌++◌, ◌==◌,
  ltb, if◌then◌else◌, get_elem?, set, Outcome, ret, exit, fault, out_of_fuel, ◌>>=◌, deref, Text,
  text_eq,
}
use public_systems_projects.Base.Tokens.{strtok}

abbrev pub buffer_size : ℕ
buffer_size = 80

abbrev pub is_blank : ℕ → Bool
is_blank c = c == 32 || c == b'\t' || c == b'\n'

abbrev pub is_bar : ℕ → Bool
is_bar c = c == b'|'

abbrev pub is_space : ℕ → Bool
is_space c = c == 32

-- The loop of `tokenize`: words go to `args[i]` on. The array has `buffer_size` places, and the last one
-- that is written gets NULL.
pub tokenize_loop : ℕ → ℕ → Text → Outcome (List Text)
unfolding strtok
tokenize_loop zero i s = out_of_fuel
tokenize_loop (suc k) i s =
    if ltb i buffer_size
    then elim (strtok is_blank s) [
      | none ↦ ret []
      | some (split, rest) ↦ (do args ← tokenize_loop k (i + 1) rest; ret (split ∷ args))
    ]
    else fault

-- `args` up to its NULL. There are at most `buffer_size` rounds before the array is full.
pub tokenize : Text → Outcome (List Text)
unfolding tokenize_loop
tokenize input = tokenize_loop (buffer_size + 1) 0 input

-- `parseFunction` of parse.c: the lines that it prints
pub parse_loop : ℕ → Text → Outcome (List Text)
unfolding strtok
parse_loop zero s = out_of_fuel
parse_loop (suc k) s = elim (strtok is_space s) [
  | none ↦ ret []
  | some (function, rest) ↦ (do lines ← parse_loop k rest; ret (function ∷ lines))
]

abbrev pub command_count : ℕ
command_count = 128

-- the globals
pub record Shell : Type 0 where
  pub commands : List Text
  pub size : ℕ

pub data Event : Type 0 where
  helped no_directory bad_directory pipe_error fork_error : Event
  moved : Text → Event
  listed : List Text → Event
  ran : List Text → Event
  not_found : Text → Event

-- the answers of the system in one round
pub record System : Type 0 where
  pub chdir : Text → Bool
  pub execvp : Text → Bool
  pub fork : Bool
  pub pipe : Bool
  pub first_fork : Bool
  pub second_fork : Bool

-- the loop of `history`, which prints the entries from `j` on
pub history_loop : List Text → ℕ → ℕ → Outcome (List Text)
history_loop commands j zero = ret []
history_loop commands j (suc n) = do
  line ← deref (get_elem? commands j)
  lines ← history_loop commands (j + 1) n
  ret (line ∷ lines)

pub history : Shell → Outcome (List Event)
unfolding history_loop
history sh = do lines ← history_loop sh.commands 0 sh.size; ret (listed lines ∷ [])

pub cd : System → List Text → Outcome (List Event)
cd sys args = elim (get_elem? args 1) [
  | none ↦ ret (no_directory ∷ [])
  | some dir ↦ ret ((if sys.chdir dir then moved dir else bad_directory) ∷ [])
]

pub builtins : List Text
builtins =
    (b'e' ∷ b'x' ∷ b'i' ∷ b't' ∷ [])
    ∷ (b'h' ∷ b'e' ∷ b'l' ∷ b'p' ∷ [])
    ∷ (b'c' ∷ b'd' ∷ [])
    ∷ (b'h' ∷ b'i' ∷ b's' ∷ b't' ∷ b'o' ∷ b'r' ∷ b'y' ∷ [])
    ∷ []

-- `functions[index](args)`
pub call : System → ℕ → List Text → Shell → Outcome (List Event)
unfolding cd history
call sys zero args sh = exit 1
call sys (suc zero) args sh = ret (helped ∷ [])
call sys (suc (suc zero)) args sh = cd sys args
call sys (suc (suc (suc zero))) args sh = history sh
call sys _ args sh = fault

-- the loop over the names of the built-in functions, which breaks after the last one
pub find_builtin : Text → List Text → ℕ → Option ℕ
find_builtin name [] index = none
find_builtin name (b ∷ rest) index =
    if text_eq name b then some index else find_builtin name rest (index + 1)

-- `none` where `found` stays 0
pub check_builtins : System → List Text → Shell → Outcome (Option (List Event))
unfolding find_builtin call builtins
check_builtins sys args sh = do
  name ← deref (get_elem? args 0)
  elim (find_builtin name builtins 0) [
    | none ↦ ret none
    | some index ↦ (do events ← call sys index args sh; ret (some events))
  ]

-- `otherCommands`: the child of a fork calls execvp, and the parent waits for it. Where fork fails, it waits for
-- nobody and returns. A program that is run ends the child, so that `args[0]` is read there only.
pub execute : System → List Text → Outcome (List Event)
execute sys args =
    if sys.fork
    then (do
      name ← deref (get_elem? args 0)
      ret ((if sys.execvp name then ran args else not_found name) ∷ []))
    else ret []

pub handle_inputs : System → List Text → Shell → Outcome (List Event)
unfolding check_builtins execute
handle_inputs sys args sh = do
  found ← check_builtins sys args sh
  elim found [ some events ↦ ret events | none ↦ execute sys args ]

-- One child of `handleTwoInputs`. A call of exit, also by the built-in exit, ends the child only.
pub child : System → List Text → Shell → Outcome (List Event)
unfolding handle_inputs
child sys args sh = elim (handle_inputs sys args sh) [ exit n ↦ ret [] | o ↦ o ]

-- The events of the first child stand first.
pub handle_two_inputs : System → List Text → List Text → Shell → Outcome (List Event)
unfolding child
handle_two_inputs sys args1 args2 sh =
    if sys.pipe
    then (if sys.first_fork
        then (do
          first ← child sys args1 sh
          if sys.second_fork
              then (do second ← child sys args2 sh; ret (first ++ second))
              else ret (first ++ (fork_error ∷ [])))
        else ret (fork_error ∷ []))
    else ret (pipe_error ∷ [])

-- `strcpy(commands[size++], name); size = size % 128;`
pub note : List Text → Shell → Outcome Shell
note args sh = do
  name ← deref (get_elem? args 0)
  _ ← deref (get_elem? sh.commands sh.size)
  ret (record { commands = set sh.commands sh.size name; size = (sh.size + 1) % command_count })

-- The round of `main` after the line is cut at a bar: `pipe` is what the second call of strtok gives.
pub process :
    System
    → (second_memory first : Text) → (pipe : Option (Text × Text)) → Shell
    → Outcome (List Event × Shell)
unfolding tokenize note handle_inputs handle_two_inputs
process sys second_memory first pipe sh = do
  args1 ← tokenize first
  args2 ← tokenize (elim pipe [ none ↦ second_memory | some (text, _) ↦ text ])
  noted ← note args1 sh
  elim pipe [
    | none ↦ (do events ← handle_inputs sys args1 noted; ret (events, noted))
    | some _ ↦ (do
      both ← note args2 noted
      events ← handle_two_inputs sys args1 args2 both
      ret (events, both))
  ]

-- One round of the loop of `main` on the line that fgets stored. `second_memory` is what the array
-- `second` holds when nothing is copied to it.
pub round : System → (second_memory : Text) → Text → Shell → Outcome (List Event × Shell)
unfolding strtok process
round sys second_memory inputs sh = do
  (first, rest) ← deref (strtok is_bar inputs)
  process sys second_memory first (strtok is_bar rest) sh

-- The loop of `main` on the lines of a session.
pub session : System → (second_memory : Text) → List Text → Shell → Outcome (List Event × Shell)
unfolding round
session sys second_memory [] sh = ret ([], sh)
session sys second_memory (line ∷ lines) sh = do
  (events, sh') ← round sys second_memory line sh
  (more, sh'') ← session sys second_memory lines sh'
  ret (events ++ more, sh'')
