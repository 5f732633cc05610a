-- ===== src/UserLib.antt =====
-- Assignment9_xv6/part1/xv6-public/printf.c, ulib.c: what the user programs of xv6 print and read. A string is
-- the list of its bytes up to the terminating 0, an `int` is a word of 32 bits, and what goes to a file
-- descriptor is the list of the bytes written.
pub mod Numbers
pub mod Formats
pub mod Lines
mod Tests
use public_systems_projects.Base.{
  ℕ, zero, suc, ◌+◌, ◌-◌, ◌*◌, ◌/◌, ◌%◌, ◌^◌, Bool, true, false, ◌&&◌, ◌||◌, ltb, leb, ◌==◌,
  if◌then◌else◌, Option, none, some, List, [], ◌∷◌, ◌++◌, length, Text, ℤ, pos, negsuc, Outcome,
  ret, fault, ◌>>=◌,
}
use public_systems_projects.KernelStrings.{byte_diff, stosb, forward}

-- `digits[i]`
unfoldable pub digit_char : ℕ → ℕ
digit_char i = if ltb i 10 then b'0' + i else b'A' + (i - 10)

-- The do-loop of `printint`, with `room` places of `buf` left; `buf` is listed from the last place back.
unfoldable pub digits_loop : (room x base : ℕ) → List ℕ → Outcome (List ℕ)
digits_loop zero x base buf = fault
digits_loop (suc room) x base buf =
    let now = digit_char (x % base) ∷ buf in
    let more = digits_loop room (x / base) base now in if x / base == 0 then ret now else more

unfoldable pub sign_buf : List ℕ → Outcome (List ℕ)
sign_buf buf = if ltb (length buf) 16 then ret (b'-' ∷ buf) else fault

-- What `printint` writes; `base` is not 0.
unfoldable pub printint : (xx base : ℕ) → (sgn : Bool) → Outcome Text
printint xx base sgn =
    let neg = sgn && leb (2 ^ 31) xx in
    let x = if neg then (2 ^ 32 - xx) % 2 ^ 32 else xx in
    do buf ← digits_loop 16 x base []; if neg then sign_buf buf else ret buf

-- What `*ap` is: a number, or the address of a string, which may be 0.
pub data Arg : Type 0 where
  number : ℕ → Arg
  string : Option Text → Arg

unfoldable pub next_number : List Arg → Outcome (ℕ × List Arg)
next_number (number w ∷ ap) = ret (w, ap)
next_number (string s ∷ ap) = fault
next_number [] = fault

unfoldable pub next_string : List Arg → Outcome (Text × List Arg)
next_string (string (some s) ∷ ap) = ret (s, ap)
next_string (string none ∷ ap) = ret (b'(' ∷ b'n' ∷ b'u' ∷ b'l' ∷ b'l' ∷ b')' ∷ [], ap)
next_string (number w ∷ ap) = fault
next_string [] = fault

-- What `printf` writes for the character behind a `%`, and the arguments that are left. The letters of %d,
-- %x, %p, %s and %c are asked for in this order.
unfoldable pub convert : (c : ℕ) → List Arg → Outcome (Text × List Arg)
convert c ap =
    if c == b'd'
    then (do (w, rest) ← next_number ap; shown ← printint w 10 true; ret (shown, rest))
    else if (c == b'x') || (c == b'p')
    then (do (w, rest) ← next_number ap; shown ← printint w 16 false; ret (shown, rest))
    else if c == b's'
    then next_string ap
    else if c == b'c'
    then (do (w, rest) ← next_number ap; ret ((w % 256) ∷ [], rest))
    else if c == b'%'
    then ret (c ∷ [], ap)
    else ret (b'%' ∷ c ∷ [], ap)

-- The loop of `printf` from `fmt[i]` on; `percent` tells whether `state` is '%'.
unfoldable pub printf_loop : (percent : Bool) → (fmt : Text) → List Arg → Outcome Text
printf_loop percent [] ap = ret []
printf_loop false (c ∷ fmt) ap =
    let opened = printf_loop true fmt ap in
    let rest = printf_loop false fmt ap in
    if c == b'%' then opened else (do out ← rest; ret (c ∷ out))
printf_loop true (c ∷ fmt) ap = do
  (shown, left) ← convert c ap
  out ← printf_loop false fmt left
  ret (shown ++ out)

unfoldable pub printf : (fmt : Text) → List Arg → Outcome Text
printf fmt ap = printf_loop false fmt ap

-- The loop of `atoi`: an `int` that overflows is a fault.
unfoldable pub atoi_loop : ℕ → Text → Outcome ℕ
atoi_loop n [] = ret n
atoi_loop n (c ∷ s) =
    let more = atoi_loop (n * 10 + c - b'0') s in
    if leb b'0' c && leb c b'9' then (if ltb (n * 10 + c) (2 ^ 31) then more else fault) else ret n

unfoldable pub atoi : Text → Outcome ℕ
atoi s = atoi_loop 0 s

-- `*p` for a string that is given by its bytes
unfoldable pub head_char : Text → ℕ
head_char [] = 0
head_char (c ∷ s) = c

unfoldable pub strcmp : (p q : Text) → ℤ
strcmp [] q = byte_diff 0 (head_char q)
strcmp (a ∷ p) [] = byte_diff a 0
strcmp (a ∷ p) (b ∷ q) = let rest = strcmp p q in if a == b then rest else byte_diff a b

-- `strchr` gives the rest of the string from the byte on; it does not find the terminating 0.
unfoldable pub strchr : Text → (c : ℕ) → Option Text
strchr [] c = none
strchr (a ∷ s) c = let rest = strchr s c in if a == c then some (a ∷ s) else rest

-- The loop of `gets`, for the bytes that are still to be read: with `room` rounds left, the bytes stored and
-- what of the input is left.
unfoldable pub gets_loop : (room : ℕ) → List ℕ → List ℕ × List ℕ
gets_loop zero input = ([], input)
gets_loop (suc room) [] = ([], [])
gets_loop (suc room) (c ∷ input) =
    let (line, rest) = gets_loop room input in
    if (c == b'\n') || (c == b'\r') then (c ∷ [], input) else (c ∷ line, rest)

-- The bytes that `gets` stores from `buf` on, the terminating 0 included, and the input that is left.
unfoldable pub gets : (max : ℕ) → List ℕ → List ℕ × List ℕ
gets max input = let (line, rest) = gets_loop (max - 1) input in (line ++ 0 ∷ [], rest)

unfoldable pub memset : (m : ℕ → ℕ) (dst c n : ℕ) → ℕ → ℕ
memset m dst c n = stosb m dst c n

-- Unlike that of the kernel it copies upwards in every case.
unfoldable pub memmove : (m : ℕ → ℕ) (vdst vsrc n : ℕ) → ℕ → ℕ
memmove m dst src n = forward m dst src n
