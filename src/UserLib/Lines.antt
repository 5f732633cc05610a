-- ===== src/UserLib/Lines.antt =====
-- Lines that gets reads, and strings that strcmp compares.
use public_systems_projects.Base.{
  ℕ, zero, suc, ◌-◌, ◌≤◌, ◌≡◌, ◌⊎◌, ◌↔◌, inl, inr, refl, ap, ap₂, true, false, ◌||◌, leb, ◌==◌,
  Bool-cases, length, length-append, List, [], ◌∷◌, ◌++◌, Text, ℤ, pos, negsuc, arith,
}
use public_systems_projects.KernelStrings.{byte_diff}
use public_systems_projects.UserLib.{gets_loop, gets, head_char, strcmp}

-- The line ends behind a newline or a carriage return, and has no other.
unfoldable pub IsLine : Text → Type 0
IsLine [] = ⊥
IsLine (c ∷ []) = (c == b'\n') || (c == b'\r') ≡ true
IsLine (c ∷ d ∷ line) = ((c == b'\n') || (c == b'\r') ≡ false) × IsLine (d ∷ line)

unfoldable pub IsPart : Text → Type 0
IsPart [] = Unit
IsPart (c ∷ line) = ((c == b'\n') || (c == b'\r') ≡ false) × IsPart line

cons-IsLine :
    (c : ℕ) (line : Text) → (c == b'\n') || (c == b'\r') ≡ false → IsLine line → IsLine (c ∷ line)
unfolding IsLine
cons-IsLine c [] goes_on is = absurd is
cons-IsLine c (d ∷ line) goes_on is = (goes_on, is)

gets_loop_lem :
    (room : ℕ) (input : List ℕ)
    → ((gets_loop room input).0 ++ (gets_loop room input).1 ≡ input)
      × (length (gets_loop room input).0 ≤ room)
      × (IsLine (gets_loop room input).0
          ⊎ (IsPart (gets_loop room input).0
              × ((length (gets_loop room input).0 ≡ room) ⊎ ((gets_loop room input).1 ≡ []))))
unfolding gets_loop IsLine IsPart
gets_loop_lem zero input = (refl, omega arith, inr (tt, inl refl))
gets_loop_lem (suc room) [] = (refl, omega arith, inr (tt, inr refl))
gets_loop_lem (suc room) (c ∷ input) = elim (Bool-cases ((c == b'\n') || (c == b'\r'))) [
  | inl ends ↦ rw ends (refl, omega arith, inl ends)
  | inr goes_on ↦
      let (all, short, ended) = gets_loop_lem room input in
      rw goes_on (
        ap (λ l. c ∷ l) all,
        omega (arith, short),
        elim ended [
          | inl line ↦ inl (cons-IsLine c _ goes_on line)
          | inr (part, why) ↦
              inr ((goes_on, part), elim why [ inl full ↦ inl (ap suc full) | inr dry ↦ inr dry ])
        ],
      )
]

-- Where the buffer has room for one byte or more, gets stores at most that many, the last of them the 0: what
-- it takes from the input, and nothing behind the end of the line. It stops before such an end only where the
-- buffer is full or the input is empty.
pub gets_lem :
    (max : ℕ) (input : List ℕ)
    → 1 ≤ max
    → (line : Text) × ((gets max input).0 ≡ line ++ 0 ∷ [])
      × (line ++ (gets max input).1 ≡ input)
      × (length (gets max input).0 ≤ max)
      × (IsLine line
          ⊎ (IsPart line × ((length (gets max input).0 ≡ max) ⊎ ((gets max input).1 ≡ []))))
unfolding gets
gets_lem max input some_room =
    let (all, short, ended) = gets_loop_lem (max - 1) input in
    let stored = length-append (gets_loop (max - 1) input).0 (0 ∷ []) in
    (
      (gets_loop (max - 1) input).0,
      refl,
      all,
      omega (arith, stored, short),
      elim ended [
        | inl line ↦ inl line
        | inr (part, inl full) ↦ inr (part, inl (omega (arith, stored, full)))
        | inr (part, inr dry) ↦ inr (part, inr dry)
      ],
    )

-- A string has no byte 0.
unfoldable pub IsString : Text → Type 0
IsString [] = Unit
IsString (c ∷ s) = (1 ≤ c) × IsString s

size_of : ℤ → ℕ
size_of (pos n) = n
size_of (negsuc n) = suc n

cons_injective : (a b : ℕ) (p q : Text) → a ∷ p ≡ b ∷ q → p ≡ q
cons_injective a b p q e = cc

byte_diff_zero : (a b : ℕ) → byte_diff a b ≡ pos 0 → a ≡ b
unfolding byte_diff size_of
byte_diff_zero a b e = elim (Bool-cases (leb b a)) [
  | inl le ↦ let gap = ap size_of (rw le at (e)) in ground (arith, le, gap)
  | inr gt ↦ let gap = ap size_of (rw gt at (e)) in absurd (omega (arith, gap))
]

zero_diff : byte_diff 0 0 ≡ pos 0
unfolding byte_diff
zero_diff = refl

heads_same : (a b : ℕ) (p q : Text) → a ∷ p ≡ b ∷ q → a ≡ b
heads_same a b p q e = cc

-- strcmp gives 0 for equal strings and for no others.
pub strcmp_lem : (p q : Text) → IsString p → IsString q → (strcmp p q ≡ pos 0) ↔ (p ≡ q)
unfolding strcmp head_char IsString
strcmp_lem [] [] _ _ = ((λ e. refl), (λ e. zero_diff))
strcmp_lem [] (b ∷ q) _ (large, _) =
    ((λ e. absurd (omega (arith, byte_diff_zero 0 b e, large))), (λ e. absurd (cc e)))
strcmp_lem (a ∷ p) [] (large, _) _ =
    ((λ e. absurd (omega (arith, byte_diff_zero a 0 e, large))), (λ e. absurd (cc e)))
strcmp_lem (a ∷ p) (b ∷ q) (_, is) (_, is') =
    let (zero_same, same_zero) = strcmp_lem p q is is' in
    elim (Bool-cases (a == b)) [
      | inl same ↦
          let at_b : a ≡ b = ground (arith, same) in
          rw same (
            (λ e. ap₂ (λ c s. c ∷ s) at_b (zero_same e)),
            (λ e. same_zero (cons_injective a b p q e)),
          )
      | inr differs ↦ rw differs (
        (λ e. absurd (ground (arith, differs, byte_diff_zero a b e))),
        (λ e. absurd (ground (arith, differs, heads_same a b p q e))),
      )
    ]
