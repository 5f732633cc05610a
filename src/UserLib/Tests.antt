-- ===== src/UserLib/Tests.antt =====
-- Numbers, formats and lines of user programs.
use public_systems_projects.Base.{
  ◌↔◌, pos, ℕ, ◌≤◌, ◌≡◌, ◌⊎◌, refl, true, ◌++◌, none, length, List, [], ◌∷◌, Text, ret, fault,
  arith,
}
use public_systems_projects.UserLib.{
  strcmp, number, printint, printf, printf_loop, convert, next_number, digits_loop, digit_char,
  sign_buf, atoi, atoi_loop, gets, gets_loop,
}
use public_systems_projects.UserLib.Numbers.{printint-atoi}
use public_systems_projects.UserLib.Formats.{
  decimal, plain, text, percent_sign, Piece, format_of, args_of, ShowsAll, printf_lem,
}
use public_systems_projects.UserLib.Lines.{strcmp_lem, IsString, IsLine, IsPart, gets_lem}

printint-atoi_example : (t : Text) × (printint 2026 10 true ≡ ret t) × (atoi t ≡ ret 2026)
printint-atoi_example = printint-atoi 2026 (omega arith)

abbrev pieces : List Piece
pieces = plain b'n' refl ∷ decimal 4294967295 (omega arith) ∷ text none ∷ percent_sign ∷ []

printf_lem_example :
    (t : Text) × (printf (format_of pieces) (args_of pieces) ≡ ret t) × ShowsAll pieces t
printf_lem_example = printf_lem pieces

-- "ab", a newline and "c"
abbrev typed : List ℕ
typed = b'a' ∷ b'b' ∷ b'\n' ∷ b'c' ∷ []

gets_lem_example :
    (line : Text) × ((gets 10 typed).0 ≡ line ++ 0 ∷ [])
    × (line ++ (gets 10 typed).1 ≡ typed)
    × (length (gets 10 typed).0 ≤ 10)
    × (IsLine line ⊎ (IsPart line × ((length (gets 10 typed).0 ≡ 10) ⊎ ((gets 10 typed).1 ≡ []))))
gets_lem_example = gets_lem 10 typed (omega arith)

-- printf("%d%x", -1, 255)
printed :
    printf (b'%' ∷ b'd' ∷ b'%' ∷ b'x' ∷ []) (number 4294967295 ∷ number 255 ∷ [])
    ≡ ret (b'-' ∷ b'1' ∷ b'F' ∷ b'F' ∷ [])
unfolding printf printf_loop convert next_number printint digits_loop digit_char sign_buf
printed = refl

-- The largest `int` overflows in atoi: the sum is formed before 48 is taken off.
largest : atoi (b'2' ∷ b'1' ∷ b'4' ∷ b'7' ∷ b'4' ∷ b'8' ∷ b'3' ∷ b'6' ∷ b'4' ∷ b'7' ∷ []) ≡ fault
unfolding atoi atoi_loop
largest = refl

taken : gets 3 typed ≡ (b'a' ∷ b'b' ∷ 0 ∷ [], b'\n' ∷ b'c' ∷ [])
unfolding gets gets_loop
taken = refl

strcmp_lem_example :
    (strcmp (b'a' ∷ b'b' ∷ []) (b'a' ∷ []) ≡ pos 0)
    ↔ (◌≡◌ {A = Text} (b'a' ∷ b'b' ∷ []) (b'a' ∷ []))
unfolding IsString
strcmp_lem_example =
    strcmp_lem (b'a' ∷ b'b' ∷ []) (b'a' ∷ []) (omega arith, (omega arith, tt)) (omega arith, tt)
