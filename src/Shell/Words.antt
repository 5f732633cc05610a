-- ===== src/Shell/Words.antt =====
-- The loops over strtok give the words of a line.
use public_systems_projects.Base.{
  ℕ, zero, suc, ◌+◌, ◌<◌, ◌≡◌, refl, true, List, [], ◌∷◌, ltb, map, length, ret, Text, arith,
}
use public_systems_projects.Base.Tokens.{all, Item, line, AreItems, strtok-line, strtok-blank}
use public_systems_projects.Shell.{
  is_blank, is_space, tokenize_loop, tokenize, parse_loop, buffer_size,
}

tokenize_loop-line :
    (k i : ℕ) (lead : Text) (items : List Item)
    → all is_blank lead ≡ true
    → AreItems is_blank items
    → length items < k
    → i + length items < buffer_size
    → tokenize_loop k i (line lead items) ≡ ret (map (λ it. it.word) items)
unfolding tokenize_loop
tokenize_loop-line zero i lead items blank are fuel room = absurd (omega arith)
tokenize_loop-line (suc k) i lead [] blank are fuel room =
    let inside : ltb i buffer_size ≡ true = ground arith in
    rw (inside, strtok-blank is_blank lead blank) refl
tokenize_loop-line (suc k) i lead (it ∷ items) blank (is, are) fuel room =
    let inside : ltb i buffer_size ≡ true = ground arith in
    rw
      (
        inside,
        strtok-line is_blank lead it (line it.gap items) blank is,
        tokenize_loop-line k (i + 1) it.gap items is.blank are (omega arith) (omega arith),
      )
      refl

-- On a line of fewer than 80 words, each ended by blanks, tabs or newlines, `tokenize` fills `args` with
-- the words in their order and a NULL.
pub tokenize_lem :
    (lead : Text) (items : List Item)
    → all is_blank lead ≡ true
    → AreItems is_blank items
    → length items < buffer_size
    → tokenize (line lead items) ≡ ret (map (λ it. it.word) items)
unfolding tokenize
tokenize_lem lead items blank are room =
    tokenize_loop-line (buffer_size + 1) 0 lead items blank are (omega arith) (omega arith)

-- On a line whose words are each ended by spaces, `parseFunction` prints the words in their order.
pub parse_loop_lem :
    (k : ℕ) (lead : Text) (items : List Item)
    → all is_space lead ≡ true
    → AreItems is_space items
    → length items < k
    → parse_loop k (line lead items) ≡ ret (map (λ it. it.word) items)
unfolding parse_loop
parse_loop_lem zero lead items blank are fuel = absurd (omega arith)
parse_loop_lem (suc k) lead [] blank are fuel =
    rw (strtok-blank is_space lead blank, parse_loop) refl
parse_loop_lem (suc k) lead (it ∷ items) blank (is, are) fuel =
    rw
      (
        strtok-line is_space lead it (line it.gap items) blank is,
        parse_loop_lem k it.gap items is.blank are (omega arith),
        parse_loop,
      )
      refl
