-- ===== src/Base/Tokens.antt =====
-- strtok of the C library, and the lines of words that it takes apart.
use Prim.Native.Nat.{ℕ}
use mathlib.Core.Path.{◌≡◌, refl, ap, ap₂, ◌∙◌}
use mathlib.Core.Logic.{◌≢◌}
use mathlib.Core.Bool.{Bool, true, not, ◌&&◌}
use mathlib.Core.Option.{Option, none, some}
use mathlib.Core.List.{List, [], ◌∷◌, ◌++◌}
use native.Mathlib.Omega.{arith}
use public_systems_projects.Base.Tests.{if◌then◌else◌}
use public_systems_projects.Base.Strings.{Text}

-- strtok: leading delimiters are skipped, a token ends at a delimiter or at the end of the text.
unfoldable pub skip : (ℕ → Bool) → Text → Text
skip d [] = []
skip d (c ∷ s) = if d c then skip d s else c ∷ s

unfoldable pub token_of : (ℕ → Bool) → Text → Text
token_of d [] = []
token_of d (c ∷ s) = if d c then [] else c ∷ token_of d s

unfoldable pub after : (ℕ → Bool) → Text → Text
after d [] = []
after d (c ∷ s) = if d c then s else after d s

-- the token and the text where the next call goes on
unfoldable pub strtok : (ℕ → Bool) → Text → Option (Text × Text)
unfolding skip token_of after
strtok d s = elim (skip d s) [ [] ↦ none | c ∷ r ↦ some (token_of d (c ∷ r), after d (c ∷ r)) ]

abbrev pub all : (ℕ → Bool) → Text → Bool
all d [] = true
all d (c ∷ s) = d c && all d s

-- a word, the delimiter that ends it, and the delimiters after that
pub record Item : Type 0 where
  pub word : Text
  pub stop : ℕ
  pub gap : Text

-- `lead` is what stands before the first word.
abbrev pub line : Text → List Item → Text
line lead [] = lead
line lead (it ∷ items) = lead ++ (it.word ++ (it.stop ∷ line it.gap items))

pub record IsItem (d : ℕ → Bool) (it : Item) : Type 0 where
  pub some_word : it.word ≢ []
  pub no_delimiter : all (λ c. not (d c)) it.word ≡ true
  pub ends : d it.stop ≡ true
  pub blank : all d it.gap ≡ true

abbrev pub AreItems : (ℕ → Bool) → List Item → Type 0
AreItems d [] = Unit {0}
AreItems d (it ∷ items) = IsItem d it × AreItems d items

module _ (d : ℕ → Bool) where
  skip-append : (lead s : Text) → all d lead ≡ true → skip d (lead ++ s) ≡ skip d s
  unfolding skip
  skip-append [] s h = refl
  skip-append (c ∷ lead) s h = ground (arith, skip-append lead s)

  skip-all : (lead : Text) → all d lead ≡ true → skip d lead ≡ []
  unfolding skip
  skip-all [] h = refl
  skip-all (c ∷ lead) h = ground (arith, skip-all lead)

  token_of-append :
      (w : Text) (c : ℕ) (s : Text)
      → all (λ a. not (d a)) w ≡ true
      → d c ≡ true
      → token_of d (w ++ (c ∷ s)) ≡ w
  unfolding token_of
  token_of-append [] c s h e = rw e
  token_of-append (a ∷ w) c s h e = ground (arith, token_of-append w c s)

  after-append :
      (w : Text) (c : ℕ) (s : Text)
      → all (λ a. not (d a)) w ≡ true
      → d c ≡ true
      → after d (w ++ (c ∷ s)) ≡ s
  unfolding after
  after-append [] c s h e = rw e
  after-append (a ∷ w) c s h e = ground (arith, after-append w c s)

  -- the rest of strtok, from the first character of the token on
  abbrev cut : Text → Option (Text × Text)
  cut [] = none
  cut (c ∷ r) = some (token_of d (c ∷ r), after d (c ∷ r))

  strtok-skip : (s r : Text) → skip d s ≡ r → strtok d s ≡ cut r
  unfolding strtok
  strtok-skip s r e = ap cut e

  skip-word : (w s : Text) → w ≢ [] → all (λ a. not (d a)) w ≡ true → skip d (w ++ s) ≡ w ++ s
  unfolding skip
  skip-word [] s ne clean = absurd (ne refl)
  skip-word (a ∷ w) s ne clean = ground arith

  cut-append :
      (w : Text) (c : ℕ) (s : Text)
      → w ≢ []
      → all (λ a. not (d a)) w ≡ true
      → d c ≡ true
      → cut (w ++ (c ∷ s)) ≡ some (w, s)
  cut-append [] c s ne clean e = absurd (ne refl)
  cut-append (a ∷ w) c s ne clean e =
      ap₂ (λ t r. some (t, r)) (token_of-append (a ∷ w) c s clean e)
        (after-append (a ∷ w) c s clean e)

  pub strtok-line :
      (lead : Text) (it : Item) (s : Text)
      → all d lead ≡ true
      → IsItem d it
      → strtok d (lead ++ (it.word ++ (it.stop ∷ s))) ≡ some (it.word, s)
  strtok-line lead it s blank is =
      strtok-skip _ (it.word ++ (it.stop ∷ s))
        (skip-append lead _ blank ∙ skip-word it.word _ is.some_word is.no_delimiter)
      ∙ cut-append it.word it.stop s is.some_word is.no_delimiter is.ends

  token_of-whole : (s : Text) → all (λ a. not (d a)) s ≡ true → token_of d s ≡ s
  unfolding token_of
  token_of-whole [] h = refl
  token_of-whole (c ∷ s) h = ground (arith, token_of-whole s)

  after-whole : (s : Text) → all (λ a. not (d a)) s ≡ true → after d s ≡ []
  unfolding after
  after-whole [] h = refl
  after-whole (c ∷ s) h = ground (arith, after-whole s)

  skip-whole : (s : Text) → all (λ a. not (d a)) s ≡ true → skip d s ≡ s
  unfolding skip
  skip-whole [] h = refl
  skip-whole (c ∷ s) h = ground arith

  -- A text without a delimiter is one token.
  pub strtok-whole : (s : Text) → s ≢ [] → all (λ a. not (d a)) s ≡ true → strtok d s ≡ some (s, [])
  strtok-whole [] ne h = absurd (ne refl)
  strtok-whole (c ∷ s) ne h =
      strtok-skip (c ∷ s) (c ∷ s) (skip-whole (c ∷ s) h)
      ∙ ap₂ (λ t r. some (t, r)) (token_of-whole (c ∷ s) h) (after-whole (c ∷ s) h)

  pub strtok-blank : (lead : Text) → all d lead ≡ true → strtok d lead ≡ none
  strtok-blank lead h = strtok-skip lead [] (skip-all lead h)
