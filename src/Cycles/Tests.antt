-- ===== src/Cycles/Tests.antt =====
-- The tool on a short file, and its theorems at it.
use public_systems_projects.Base.{◌≢◌, ◌⊎◌, fault, ◌≡◌, refl, List, [], ◌∷◌, ret, Text, arith}
use public_systems_projects.Base.Tokens.{Item}
use public_systems_projects.Cycles.{no_counts, main, cut_comment}
use public_systems_projects.Cycles.Tally.{AreLines, tokens_of, counts_lem}

abbrev pushq : Text
pushq = b'p' ∷ b'u' ∷ b's' ∷ b'h' ∷ b'q' ∷ []

abbrev imulq : Text
imulq = b'I' ∷ b'M' ∷ b'U' ∷ b'L' ∷ b'Q' ∷ []

-- a tab, pushq, a tab, IMULQ, a tab and a comment
abbrev file : List Text
file =
    (b'\t' ∷ b'p' ∷ b'u' ∷ b's' ∷ b'h' ∷ b'q' ∷ b'\t' ∷ b'I' ∷ b'M' ∷ b'U' ∷ b'L' ∷ b'Q' ∷ b'\t'
      ∷ b'#' ∷ b'x' ∷ [])
    ∷ []

abbrev parts : List (Text × List Item)
parts =
    (
      b'\t' ∷ [],
      record { word = pushq; stop = b'\t'; gap = [] }
          ∷ record { word = imulq; stop = b'\t'; gap = [] }
          ∷ [],
    )
    ∷ []

file-AreLines : AreLines 3 file parts
unfolding cut_comment
file-AreLines = (
  refl,
  refl,
  (
    record { some_word = λ e. cc e; no_delimiter = refl; ends = refl; blank = refl },
    (record { some_word = λ e. cc e; no_delimiter = refl; ends = refl; blank = refl }, tt),
  ),
  omega arith,
  tt,
)

counts_lem_example :
    ((tokens_of parts ≡ []) × (main 3 file ≡ ret no_counts))
    ⊎ ((tokens_of parts ≢ []) × (main 3 file ≡ fault))
counts_lem_example = counts_lem 3 file parts file-AreLines
