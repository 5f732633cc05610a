-- ===== src/UserLib/Numbers.antt =====
-- Numbers that printint writes and atoi reads.
use native.Mathlib.Nat.{pow-suc}
use public_systems_projects.Base.{
  ℕ, zero, suc, ◌+◌, ◌-◌, ◌*◌, ◌/◌, ◌%◌, ◌^◌, ◌≤◌, ◌<◌, ◌≡◌, ◌⊎◌, inl, inr, refl, sym, ap, ◌∙◌,
  Bool, true, false, ◌&&◌, ltb, leb, ◌==◌, Bool-cases, length, [], ◌∷◌, Text, ret, arith,
}
use public_systems_projects.UserLib.{digit_char, digits_loop, sign_buf, printint, atoi_loop, atoi}

digit_of : (i : ℕ) → i < 10 → digit_char i ≡ 48 + i
unfolding digit_char
digit_of i small = ground (arith, small)

read_digit :
    (n d : ℕ) (more : Text)
    → d < 10
    → n * 10 + (48 + d) < 2 ^ 31
    → atoi_loop n ((48 + d) ∷ more) ≡ atoi_loop (n * 10 + (48 + d) - 48) more
unfolding atoi_loop
read_digit n d more small room = ground (arith, small, room)

-- atoi reads the last digit of `n` when it has read the others.
digit_lem :
    (n : ℕ) (more : Text)
    → n + 48 < 2 ^ 31
    → atoi_loop (n / 10) (digit_char (n % 10) ∷ more) ≡ atoi_loop n more
digit_lem n more small =
    let back : n / 10 * 10 + (48 + n % 10) - 48 ≡ n = omega arith in
    rw (digit_of (n % 10) (omega arith)) (
      read_digit (n / 10) (n % 10) more (omega arith) (omega (arith, small))
      ∙ ap (λ k. atoi_loop k more) back)

room_left : (room : ℕ) {n : ℕ} → n < 10 ^ suc room → 1 ≤ n / 10 → 1 ≤ room
room_left zero {n} less two_digits = absurd (omega (arith, less, two_digits))
room_left (suc room) less two_digits = omega arith

-- Enough room for the digits, and what they are read as in front of any text.
digits_lem :
    (room n : ℕ) (buf : Text)
    → n < 10 ^ room
    → 1 ≤ room
    → n + 48 < 2 ^ 31
    → (t : Text) × (digits_loop room n 10 buf ≡ ret t) × (atoi_loop 0 t ≡ atoi_loop n buf)
unfolding digits_loop
digits_lem zero n buf less some_room small = absurd (omega arith)
digits_lem (suc room) n buf less some_room small = elim (Bool-cases (n / 10 == 0)) [
  | inl last ↦
      let zero_left : n / 10 ≡ 0 = ground (arith, last) in
      (
        digit_char (n % 10) ∷ buf,
        rw last refl,
        ap (λ k. atoi_loop k (digit_char (n % 10) ∷ buf)) (sym zero_left) ∙ digit_lem n buf small,
      )
  | inr further ↦
      let (t, made, read) =
        digits_lem room (n / 10) (digit_char (n % 10) ∷ buf) (omega (arith, less, pow-suc 10 room))
          (room_left room less (ground (arith, further))) (omega (arith, small)) in
      (t, rw further made, read ∙ digit_lem n buf small)
]

-- The digits of a number below 10 ^ k take at most `k` places, in a base of at least 10.
digits_fit :
    (base : ℕ)
    → ((x : ℕ) → x / base * 10 ≤ x)
    → (room k x : ℕ) (buf : Text) → k ≤ room
    → 1 ≤ k
    → x < 10 ^ k
    → (t : Text) × (digits_loop room x base buf ≡ ret t) × (length t ≤ length buf + k)
unfolding digits_loop
digits_fit base shrinks zero k x buf le some_place less = absurd (omega arith)
digits_fit base shrinks (suc room) zero x buf le some_place less = absurd (omega arith)
digits_fit base shrinks (suc room) (suc k) x buf le some_place less =
    elim (Bool-cases (x / base == 0)) [
      | inl last ↦ (digit_char (x % base) ∷ buf, rw last refl, omega arith)
      | inr further ↦
          let more : 1 ≤ x / base = ground (arith, further) in
          let (t, made, short) =
            digits_fit base shrinks room k (x / base) (digit_char (x % base) ∷ buf) (omega arith)
              (room_left k less (omega (arith, more, shrinks x)))
              (omega (arith, less, pow-suc 10 k, shrinks x)) in
          (t, rw further made, omega (arith, short))
    ]

-- In both bases that printf uses, printint writes any word of 32 bits, signed or not, within the 16 bytes of
-- its buffer: at most ten digits and a sign.
pub printint_fits :
    (w base : ℕ) (sgn : Bool)
    → w < 2 ^ 32
    → (base ≡ 10) ⊎ (base ≡ 16)
    → (t : Text) × (printint w base sgn ≡ ret t) × (length t ≤ 11)
unfolding printint sign_buf
printint_fits w base sgn word either =
    let shrinks : (x : ℕ) → x / base * 10 ≤ x =
      λ x. elim either [ inl e ↦ rw e (omega arith) | inr e ↦ rw e (omega arith) ] in
    elim (Bool-cases (sgn && leb (2 ^ 31) w)) [
      | inl neg ↦
          let (t, made, short) =
            digits_fit base shrinks 16 10 ((2 ^ 32 - w) % 2 ^ 32) [] (omega arith) (omega arith)
              (omega arith) in
          let fits : ltb (length t) 16 ≡ true = ground (arith, short) in
          (b'-' ∷ t, rw (neg, made, fits) refl, omega (arith, short))
      | inr plain ↦
          let (t, made, short) =
            digits_fit base shrinks 16 10 w [] (omega arith) (omega arith) (omega (arith, word)) in
          (t, rw (plain, made) refl, omega (arith, short))
    ]

-- atoi reads a number back as printf writes it with %d, if it is at most 2 ^ 31 - 49.
pub printint-atoi :
    (n : ℕ) → n + 48 < 2 ^ 31 → (t : Text) × (printint n 10 true ≡ ret t) × (atoi t ≡ ret n)
unfolding printint atoi atoi_loop
printint-atoi n small =
    let (t, made, read) = digits_lem 16 n [] (omega (arith, small)) (omega arith) small in
    let plain : leb (2 ^ 31) n ≡ false = ground (arith, small) in (t, rw (plain, made) refl, read)
