-- ===== src/Binary/Tests.antt =====
-- Strings of binary.h, and its theorems at them.
use public_systems_projects.Base.{◌≡◌, refl, arith, [], ◌∷◌, ret, ◌>>=◌}
use public_systems_projects.Binary.{
  int_to_binary_string, binary_string_to_int, binary_string_range_to_int,
}
use public_systems_projects.Binary.Round.{round_trip}

six : int_to_binary_string 6 4 ≡ ret (b'0' ∷ b'1' ∷ b'1' ∷ b'0' ∷ [])
unfolding int_to_binary_string
six = refl

-- as the comment in binary.h has it: bits 5 to 7 of "10000001"
high_bits :
    binary_string_range_to_int (b'1' ∷ b'0' ∷ b'0' ∷ b'0' ∷ b'0' ∷ b'0' ∷ b'0' ∷ b'1' ∷ []) 5 7
    ≡ ret 4
unfolding binary_string_range_to_int
high_bits = refl

round_trip_example : (do s ← int_to_binary_string 81 8; binary_string_to_int s 9) ≡ ret 81
round_trip_example = round_trip 81 8 (omega arith) (omega arith)
