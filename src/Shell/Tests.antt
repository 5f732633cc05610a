-- ===== src/Shell/Tests.antt =====
-- Rounds of the shell on short lines, and its theorems at them.
use public_systems_projects.Base.{
  ◌≡◌, refl, true, List, [], ◌∷◌, replicate, ret, exit, fault, Text, arith,
}
use public_systems_projects.Shell.{
  Shell, System, ran, listed, is_blank, tokenize, parse_loop, round, session,
}
use public_systems_projects.Base.Tokens.{Item, AreItems}
use public_systems_projects.Shell.Words.{tokenize_lem, parse_loop_lem}
use public_systems_projects.Shell.Round.{IsShell, noted, round_lem, blank_line_faults}

abbrev ls : Text
ls = b'l' ∷ b's' ∷ []

abbrev list_all : Text
list_all = b'-' ∷ b'l' ∷ []

abbrev ls_items : List Item
ls_items =
    record { word = ls; stop = 32; gap = [] }
    ∷ record { word = list_all; stop = b'\n'; gap = [] }
    ∷ []

ls_items-AreItems : AreItems is_blank ls_items
ls_items-AreItems = (
  record { some_word = λ e. cc e; no_delimiter = refl; ends = refl; blank = refl },
  (record { some_word = λ e. cc e; no_delimiter = refl; ends = refl; blank = refl }, tt),
)

abbrev spaced : List Item
spaced = record { word = ls; stop = 32; gap = 32 ∷ [] } ∷ []

abbrev new : Shell
new = record { commands = replicate 128 []; size = 0 }

new-IsShell : IsShell new
new-IsShell = record { slots = refl; below = omega arith }

abbrev willing : System
willing = record {
  chdir = λ dir. true;
  execvp = λ name. true;
  fork = true;
  pipe = true;
  first_fork = true;
  second_fork = true;
}

no_words : tokenize [] ≡ ret []
unfolding tokenize
no_words = refl

-- ls | ls
piped :
    session willing [] ((b'l' ∷ b's' ∷ b'|' ∷ b'l' ∷ b's' ∷ b'\n' ∷ []) ∷ []) new
    ≡ ret (ran (ls ∷ []) ∷ ran (ls ∷ []) ∷ [], noted ls (noted ls new))
unfolding session
piped = refl

-- exit
leaves : round willing [] (b'e' ∷ b'x' ∷ b'i' ∷ b't' ∷ b'\n' ∷ []) new ≡ exit 1
unfolding round
leaves = refl

-- The 128th command is written to the last entry and sets the size to 0: the history lists nothing.
abbrev almost_full : Shell
almost_full = record { commands = replicate 128 ls; size = 127 }

forgets :
    round willing [] (b'h' ∷ b'i' ∷ b's' ∷ b't' ∷ b'o' ∷ b'r' ∷ b'y' ∷ b'\n' ∷ []) almost_full
    ≡ ret (listed [] ∷ [], noted (b'h' ∷ b'i' ∷ b's' ∷ b't' ∷ b'o' ∷ b'r' ∷ b'y' ∷ []) almost_full)
unfolding round
forgets = refl

parse_loop_two_blanks : parse_loop 2 (32 ∷ b'l' ∷ b's' ∷ 32 ∷ 32 ∷ []) ≡ ret (ls ∷ [])
parse_loop_two_blanks =
    parse_loop_lem 2 (32 ∷ []) spaced refl
      (record { some_word = λ e. cc e; no_delimiter = refl; ends = refl; blank = refl }, tt)
      (omega arith)

tokenize_lem_example :
    tokenize (b'l' ∷ b's' ∷ 32 ∷ b'-' ∷ b'l' ∷ b'\n' ∷ []) ≡ ret (ls ∷ list_all ∷ [])
tokenize_lem_example = tokenize_lem [] ls_items refl ls_items-AreItems (omega arith)

round_lem_example :
    round willing [] (b'l' ∷ b's' ∷ 32 ∷ b'-' ∷ b'l' ∷ b'\n' ∷ []) new
    ≡ ret (ran (ls ∷ list_all ∷ []) ∷ [], noted ls new)
round_lem_example =
    round_lem willing [] [] (record { word = ls; stop = 32; gap = [] })
      (record { word = list_all; stop = b'\n'; gap = [] } ∷ []) [] new new-IsShell refl
      ls_items-AreItems (omega arith) refl no_words

blank_line_faults_example : round willing [] (32 ∷ b'\n' ∷ []) new ≡ fault
blank_line_faults_example = blank_line_faults willing [] (32 ∷ b'\n' ∷ []) [] new refl no_words
