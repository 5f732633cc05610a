-- ===== src/UserLib/Formats.antt =====
-- What printf writes for a format and arguments that match it.
use public_systems_projects.Base.{
  ℕ, ◌^◌, ◌%◌, ◌<◌, ◌≡◌, inl, inr, refl, true, false, ◌==◌, Option, none, some, List, [], ◌∷◌, ◌++◌,
  Text, ret,
}
use public_systems_projects.UserLib.{
  Arg, number, string, next_number, next_string, convert, printf_loop, printf, printint,
}
use public_systems_projects.UserLib.Numbers.{printint_fits}

-- The pieces of a format: a byte that stands for itself, or a conversion with its argument.
pub data Piece : Type 0 where
  plain : (c : ℕ) → (c == b'%') ≡ false → Piece
  decimal : (w : ℕ) → w < 2 ^ 32 → Piece
  hexadecimal : (w : ℕ) → w < 2 ^ 32 → Piece
  text : Option Text → Piece
  character : ℕ → Piece
  percent_sign : Piece

unfoldable pub format_of : List Piece → Text
format_of [] = []
format_of (plain c _ ∷ ps) = c ∷ format_of ps
format_of (decimal w _ ∷ ps) = b'%' ∷ b'd' ∷ format_of ps
format_of (hexadecimal w _ ∷ ps) = b'%' ∷ b'x' ∷ format_of ps
format_of (text s ∷ ps) = b'%' ∷ b's' ∷ format_of ps
format_of (character w ∷ ps) = b'%' ∷ b'c' ∷ format_of ps
format_of (percent_sign ∷ ps) = b'%' ∷ b'%' ∷ format_of ps

unfoldable pub args_of : List Piece → List Arg
args_of [] = []
args_of (plain c _ ∷ ps) = args_of ps
args_of (decimal w _ ∷ ps) = number w ∷ args_of ps
args_of (hexadecimal w _ ∷ ps) = number w ∷ args_of ps
args_of (text s ∷ ps) = string s ∷ args_of ps
args_of (character w ∷ ps) = number w ∷ args_of ps
args_of (percent_sign ∷ ps) = args_of ps

-- what one piece comes out as
pub data Shows : Piece → Text → Type 0 where
  shows_plain : (c : ℕ) (ne : (c == b'%') ≡ false) → Shows (plain c ne) (c ∷ [])
  shows_decimal :
      (w : ℕ) (word : w < 2 ^ 32) (t : Text) → printint w 10 true ≡ ret t → Shows (decimal w word) t
  shows_hexadecimal :
      (w : ℕ) (word : w < 2 ^ 32) (t : Text)
      → printint w 16 false ≡ ret t
      → Shows (hexadecimal w word) t
  shows_text : (s : Text) → Shows (text (some s)) s
  shows_null : Shows (text none) (b'(' ∷ b'n' ∷ b'u' ∷ b'l' ∷ b'l' ∷ b')' ∷ [])
  shows_character : (w : ℕ) → Shows (character w) ((w % 256) ∷ [])
  shows_percent : Shows percent_sign (b'%' ∷ [])

pub data ShowsAll : List Piece → Text → Type 0 where
  shows_none : ShowsAll [] []
  shows_more :
      (p : Piece) (ps : List Piece) (t rest : Text)
      → Shows p t
      → ShowsAll ps rest
      → ShowsAll (p ∷ ps) (t ++ rest)

-- For any pieces, printf writes what they come out as, one after the other.
pub printf_lem :
    (ps : List Piece) → (t : Text) × (printf (format_of ps) (args_of ps) ≡ ret t) × ShowsAll ps t
unfolding printf printf_loop format_of args_of convert next_number next_string
printf_lem [] = ([], refl, shows_none)
printf_lem (plain c ne ∷ ps) =
    let (rest, made, all) = printf_lem ps in
    (c ∷ rest, rw (ne, made) refl, shows_more (plain c ne) ps (c ∷ []) rest (shows_plain c ne) all)
printf_lem (decimal w word ∷ ps) =
    let (rest, made, all) = printf_lem ps in
    let (t, shown, _) = printint_fits w 10 true word (inl refl) in
    (
      t ++ rest,
      rw (shown, made) refl,
      shows_more (decimal w word) ps t rest (shows_decimal w word t shown) all,
    )
printf_lem (hexadecimal w word ∷ ps) =
    let (rest, made, all) = printf_lem ps in
    let (t, shown, _) = printint_fits w 16 false word (inr refl) in
    (
      t ++ rest,
      rw (shown, made) refl,
      shows_more (hexadecimal w word) ps t rest (shows_hexadecimal w word t shown) all,
    )
printf_lem (text (some s) ∷ ps) =
    let (rest, made, all) = printf_lem ps in
    (s ++ rest, rw made refl, shows_more (text (some s)) ps s rest (shows_text s) all)
printf_lem (text none ∷ ps) =
    let (rest, made, all) = printf_lem ps in
    (_, rw made refl, shows_more (text none) ps _ rest shows_null all)
printf_lem (character w ∷ ps) =
    let (rest, made, all) = printf_lem ps in
    (_, rw made refl, shows_more (character w) ps _ rest (shows_character w) all)
printf_lem (percent_sign ∷ ps) =
    let (rest, made, all) = printf_lem ps in
    (_, rw made refl, shows_more percent_sign ps _ rest shows_percent all)
