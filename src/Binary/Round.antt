-- ===== src/Binary/Round.antt =====
-- `binaryStringToInt`, and the round trip from a number through its string.

use public_systems_projects.Base.{
  true, ltb, ℕ, zero, suc, ◌+◌, ◌-◌, ◌*◌, ◌^◌, ◌≤◌, ◌<◌, ◌≡◌, refl, sym, ap, ◌∙◌, [], ◌∷◌, arith,
  ◌==◌, if◌then◌else◌, length, get_or, get_elem?-eq-get_or, ret, ◌>>=◌, Text,
}
use public_systems_projects.Binary.{
  char_at, to_int_loop, add_place, binary_string_to_int, int_to_binary_string,
}
use public_systems_projects.Binary.Digits.{
  bit, value, digits, length-digits, value-digits, int_to_binary_string_lem,
}

-- what the places below `k` of a string with `n` places add up to
partial : Text → ℕ → ℕ → ℕ
partial s n zero = 0
partial s n (suc k) = bit (get_or s k 0) * 2 ^ (n - 1 - k) + partial s n k

partial-cons :
    (c : ℕ) (s : Text) (n k : ℕ)
    → k ≤ n
    → partial (c ∷ s) (suc n) (suc k) ≡ bit c * 2 ^ n + partial s n k
unfolding partial
partial-cons c s n zero h = ap (λ e. bit c * 2 ^ e + 0) places
  where
    places : suc n - 1 - 0 ≡ n
    places = omega arith
partial-cons c s n (suc k) h =
    ap (λ e. bit (get_or s k 0) * 2 ^ e + partial (c ∷ s) (suc n) (suc k)) places
    ∙ omega (arith, partial-cons c s n k (omega arith))
  where
    places : suc n - 1 - suc k ≡ n - 1 - k
    places = omega arith

partial-value : (s : Text) → partial s (length s) (length s) ≡ value s
unfolding partial value
partial-value [] = refl
partial-value (c ∷ s) =
    partial-cons c s (length s) (length s) (omega arith)
    ∙ ap (λ v. bit c * 2 ^ length s + v) (partial-value s)

add_place_lem :
    (s : Text) (k sum : ℕ)
    → k < length s
    → add_place (length s + 1) k sum ≡ sum + 2 ^ (length s - 1 - k)
unfolding add_place
add_place_lem s k sum h = ground (arith, ap (λ (e : ℕ). 2 ^ e) places)
  where
    places : length s + 1 - 1 - k - 1 ≡ length s - 1 - k
    places = omega arith

to_int_loop-partial :
    (s : Text) (k sum : ℕ)
    → k ≤ length s
    → sum + partial s (length s) k < 2 ^ 31
    → to_int_loop s (length s + 1) k sum ≡ ret (sum + partial s (length s) k)
unfolding to_int_loop partial
to_int_loop-partial s zero sum h small = ap ret (omega arith)
to_int_loop-partial s (suc k) sum h small =
    rw (char_here, added, in_range)
      (to_int_loop-partial s k _ (omega arith) (omega (arith, small)) ∙ ap ret (omega arith))
  where
    char_here : char_at s k ≡ ret (get_or s k 0)
    char_here = ground (arith, get_elem?-eq-get_or s k 0)

    added :
        (if get_or s k 0 == b'1' then add_place (length s + 1) k sum else sum)
        ≡ sum + bit (get_or s k 0) * 2 ^ (length s - 1 - k)
    added = ground (arith, add_place_lem s k sum h)

    in_range : ltb (sum + bit (get_or s k 0) * 2 ^ (length s - 1 - k)) (2 ^ 31) ≡ true
    in_range = ground (arith, small)

-- With the place of the terminating 0 counted in, `binaryStringToInt` gives the number that the
-- string stands for, if it is an `int`.
pub binary_string_to_int-value :
    (s : Text) → value s < 2 ^ 31 → binary_string_to_int s (length s + 1) ≡ ret (value s)
unfolding binary_string_to_int to_int_loop
binary_string_to_int-value s small =
    ap (λ k. to_int_loop s (length s + 1) k 0) one_more
    ∙ rw at_end (
        to_int_loop-partial s (length s) 0 (omega arith) (omega (arith, small, partial-value s))
        ∙ ap ret (omega (arith, partial-value s)))
  where
    one_more : length s + 1 ≡ suc (length s)
    one_more = omega arith

    at_end : char_at s (length s) ≡ ret 0
    at_end = ground arith

-- Each number that is an `int` and not negative, and is below 2 ^ bits, comes back from its string of `bits`
-- digits.
pub round_trip :
    (i bits : ℕ)
    → i < 2 ^ 31
    → i < 2 ^ bits
    → (do s ← int_to_binary_string i bits; binary_string_to_int s (bits + 1)) ≡ ret i
round_trip i bits small fits = rw ((int_to_binary_string_lem i bits small).0 fits) (
    ap (λ n. binary_string_to_int (digits bits i) (n + 1)) (sym (length-digits bits i))
    ∙ binary_string_to_int-value (digits bits i) (omega (arith, small, value-digits bits i fits))
    ∙ ap ret (value-digits bits i fits))
