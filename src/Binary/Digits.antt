-- ===== src/Binary/Digits.antt =====
-- The digits of a number, the highest first, and the value of a string of digits.
use native.Mathlib.Nat.{pow-suc}
use public_systems_projects.Base.{
  true, ltb, ℕ, zero, suc, ◌+◌, ◌*◌, ◌/◌, ◌%◌, ◌^◌, ◌≤◌, ◌<◌, ◌≡◌, refl, sym, ap, ◌∙◌, [], ◌∷◌,
  ◌++◌, arith, ◌==◌, ==_iff, false, if◌then◌else◌, length, length-append, set, replicate, ret,
  fault, Text,
}
use native.Mathlib.Decide.{ℕ_discrete}
use mathlib.Core.List.{append_assoc, append-nil}
use public_systems_projects.Binary.{digits_loop, int_to_binary_string}

abbrev pub digit : ℕ → ℕ
digit n = if n % 2 == 0 then b'0' else b'1'

-- the `bits` lowest binary digits of a number
unfoldable pub digits : ℕ → ℕ → Text
digits zero n = []
digits (suc bits) n = digits bits (n / 2) ++ (digit n ∷ [])

abbrev pub bit : ℕ → ℕ
bit c = if c == b'1' then 1 else 0

-- the number that a string stands for
unfoldable pub value : Text → ℕ
value [] = 0
value (c ∷ s) = bit c * 2 ^ length s + value s

pub length-digits : (bits n : ℕ) → length (digits bits n) ≡ bits
unfolding digits
length-digits zero n = refl
length-digits (suc bits) n =
    omega (arith, length-append (digits bits (n / 2)) (digit n ∷ []), length-digits bits (n / 2))

replicate_snoc : (n c : ℕ) (s : Text) → replicate n c ++ (c ∷ s) ≡ c ∷ (replicate n c ++ s)
replicate_snoc zero c s = refl
replicate_snoc (suc n) c s = ap (λ t. c ∷ t) (replicate_snoc n c s)

digits-zero : (bits : ℕ) (s : Text) → digits bits 0 ++ s ≡ replicate bits b'0' ++ s
unfolding digits
digits-zero zero s = refl
digits-zero (suc bits) s =
    append_assoc (digits bits 0) (b'0' ∷ []) s
    ∙ digits-zero bits (b'0' ∷ s)
    ∙ replicate_snoc bits b'0' s

set-replicate :
    (n c d : ℕ) (s : Text) → set (replicate (suc n) c ++ s) n d ≡ replicate n c ++ (d ∷ s)
set-replicate zero c d s = refl
set-replicate (suc n) c d s = ap (λ t. c ∷ t) (set-replicate n c d s)

half_fits : (n bits : ℕ) → n < 2 ^ suc bits → n / 2 < 2 ^ bits
half_fits n bits h = omega (arith, pow-suc 2 bits)

digits_loop-digits :
    (k n bits : ℕ) (s : Text)
    → n < k
    → n < 2 ^ bits
    → digits_loop k n bits (replicate bits b'0' ++ s) ≡ ret (digits bits n ++ s)
unfolding digits_loop digits
digits_loop-digits zero n bits s fuel fits = absurd (omega arith)
digits_loop-digits (suc k) n zero s fuel fits = ground arith
digits_loop-digits (suc k) n (suc bits) s fuel fits = elim (ℕ_discrete n 0) [
  | yes p ↦
      rw ((==_iff n 0).1 p)
        (ap ret (sym (digits-zero (suc bits) s) ∙ ap (λ m. digits (suc bits) m ++ s) (sym p)))
  | no p ↦ ground (
    arith,
    set-replicate bits b'0' (digit n) s,
    digits_loop-digits k (n / 2) bits (digit n ∷ s) (omega arith) (half_fits n bits fits),
    append_assoc (digits bits (n / 2)) (digit n ∷ []) s,
  )
]

pow_pos : (n : ℕ) → 0 < 2 ^ n
pow_pos zero = omega arith
pow_pos (suc n) = omega (arith, pow_pos n, pow-suc 2 n)

-- A number that does not fit ends the loop outside the string.
digits_loop-overflow :
    (k n bits : ℕ) (s : Text) → n < k → 2 ^ bits ≤ n → digits_loop k n bits s ≡ fault
unfolding digits_loop
digits_loop-overflow zero n bits s fuel big = absurd (omega arith)
digits_loop-overflow (suc k) n zero s fuel big = ground arith
digits_loop-overflow (suc k) n (suc bits) s fuel big = rw (
  nonzero,
  digits_loop-overflow k (n / 2) bits _ (omega (arith, pos)) (omega (arith, pow-suc 2 bits)),
)
  where
    pos : 0 < n
    pos = omega (arith, pow-suc 2 bits, pow_pos bits)

    nonzero : (n == 0) ≡ false
    nonzero = ground (arith, pos)

-- `intToBinaryString` gives the digits of a number that fits, and writes in front of the string for
-- any other number that is not negative.
pub int_to_binary_string_lem :
    (i bits : ℕ)
    → i < 2 ^ 31
    → (i < 2 ^ bits → int_to_binary_string i bits ≡ ret (digits bits i))
      × (2 ^ bits ≤ i → int_to_binary_string i bits ≡ fault)
unfolding int_to_binary_string
int_to_binary_string_lem i bits small =
    let positive : ltb i (2 ^ 31) ≡ true = ground (arith, small) in
    rw positive (
      λ fits.
          ap (digits_loop (i + 1) i bits) (sym (append-nil (replicate bits b'0')))
          ∙ digits_loop-digits (i + 1) i bits [] (omega arith) fits
          ∙ ap ret (append-nil (digits bits i)),
      λ big. digits_loop-overflow (i + 1) i bits (replicate bits b'0') (omega arith) big,
    )

value-snoc : (s : Text) (d : ℕ) → value (s ++ (d ∷ [])) ≡ 2 * value s + bit d
unfolding value
value-snoc [] d = omega arith
value-snoc (c ∷ s) d =
    ap (λ n. bit c * 2 ^ n + value (s ++ (d ∷ []))) (length-append s (d ∷ []) ∙ one_more)
    ∙ grind (arith, value-snoc s d, pow-suc 2 (length s))
  where
    one_more : length s + 1 ≡ suc (length s)
    one_more = omega arith

bit-digit : (n : ℕ) → bit (digit n) ≡ n % 2
bit-digit n = ground arith

-- The digits of a number that fits stand for it.
pub value-digits : (bits n : ℕ) → n < 2 ^ bits → value (digits bits n) ≡ n
unfolding digits value
value-digits zero n fits = omega arith
value-digits (suc bits) n fits =
    value-snoc (digits bits (n / 2)) (digit n)
    ∙ omega (arith, value-digits bits (n / 2) (half_fits n bits fits), bit-digit n)
