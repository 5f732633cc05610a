-- ===== src/KernelStrings.antt =====
-- Assignment9_xv6/part1/xv6-public/string.c: the string routines of the kernel of xv6, on a memory that
-- gives each address its byte. Pointers are addresses, and results are the memory after the call.
pub mod Moves
pub mod Fills
mod Tests
use public_systems_projects.Base.{
  ℕ, zero, suc, ◌+◌, ◌-◌, ◌*◌, ◌/◌, ◌%◌, ◌^◌, Bool, true, false, ◌&&◌, ltb, leb, ◌==◌,
  if◌then◌else◌, store, ℤ, pos, negsuc, Outcome, ret, out_of_fuel,
}

-- `stosb` and `stosl` of x86.h: `cnt` times the byte, or the word of four bytes with the lowest first
unfoldable pub stosb : (m : ℕ → ℕ) (addr data_byte cnt : ℕ) → ℕ → ℕ
stosb m addr c zero = m
stosb m addr c (suc cnt) = stosb (store m addr (c % 256)) (addr + 1) c cnt

unfoldable pub store_word : (m : ℕ → ℕ) (addr word : ℕ) → ℕ → ℕ
store_word m addr w =
    store
      (store (store (store m addr (w % 256)) (addr + 1) (w / 256 % 256)) (addr + 2)
        (w / 65536 % 256))
      (addr + 3) (w / 16777216 % 256)

unfoldable pub stosl : (m : ℕ → ℕ) (addr word cnt : ℕ) → ℕ → ℕ
stosl m addr w zero = m
stosl m addr w (suc cnt) = stosl (store_word m addr w) (addr + 4) w cnt

-- The four parts of the word have no bit in common, so that `|` is a sum.
unfoldable pub memset : (m : ℕ → ℕ) (dst c n : ℕ) → ℕ → ℕ
memset m dst c n =
    if (dst % 4 == 0) && (n % 4 == 0)
    then (let b = c % 256 in stosl m dst (b * 16777216 + b * 65536 + b * 256 + b) (n / 4))
    else stosb m dst c n

-- `a - b` at type `int`
unfoldable pub byte_diff : ℕ → ℕ → ℤ
byte_diff a b = if leb b a then pos (a - b) else negsuc (b - a - 1)

unfoldable pub memcmp : (m : ℕ → ℕ) (v1 v2 n : ℕ) → ℤ
memcmp m s1 s2 zero = pos 0
memcmp m s1 s2 (suc n) =
    let rest = memcmp m (s1 + 1) (s2 + 1) n in
    if m s1 == m s2 then rest else byte_diff (m s1) (m s2)

-- `while(n-- > 0) *d++ = *s++;`
unfoldable pub forward : (m : ℕ → ℕ) (d s n : ℕ) → ℕ → ℕ
forward m d s zero = m
forward m d s (suc n) = forward (store m d (m s)) (d + 1) (s + 1) n

-- `while(n-- > 0) *--d = *--s;`
unfoldable pub backward : (m : ℕ → ℕ) (d s n : ℕ) → ℕ → ℕ
backward m d s zero = m
backward m d s (suc n) = backward (store m (d - 1) (m (s - 1))) (d - 1) (s - 1) n

unfoldable pub memmove : (m : ℕ → ℕ) (dst src n : ℕ) → ℕ → ℕ
memmove m dst src n =
    if ltb src dst && ltb dst (src + n)
    then backward m (dst + n) (src + n) n
    else forward m dst src n

unfoldable pub memcpy : (m : ℕ → ℕ) (dst src n : ℕ) → ℕ → ℕ
unfolding memmove
memcpy m dst src n = memmove m dst src n

unfoldable pub strncmp : (m : ℕ → ℕ) (p q n : ℕ) → ℤ
strncmp m p q zero = pos 0
strncmp m p q (suc n) =
    let rest = strncmp m (p + 1) (q + 1) n in
    if m p == 0 then byte_diff (m p) (m q) else if m p == m q then rest else byte_diff (m p) (m q)

-- `while(n-- > 0) *s++ = 0;`
unfoldable pub pad_loop : (m : ℕ → ℕ) (s n : ℕ) → ℕ → ℕ
pad_loop m s zero = m
pad_loop m s (suc n) = pad_loop (store m s 0) (s + 1) n

unfoldable pub strncpy : (m : ℕ → ℕ) (s t n : ℕ) → ℕ → ℕ
unfolding pad_loop
strncpy m s t zero = m
strncpy m s t (suc n) =
    let rest = strncpy (store m s (m t)) (s + 1) (t + 1) n in
    let pads = pad_loop (store m s (m t)) (s + 1) n in if m t == 0 then pads else rest

-- The loop of `safestrcpy` with `n` more bytes before the last one, and the last 0.
unfoldable pub safestrcpy_loop : (m : ℕ → ℕ) (s t n : ℕ) → ℕ → ℕ
safestrcpy_loop m s t zero = store m s 0
safestrcpy_loop m s t (suc n) =
    let rest = safestrcpy_loop (store m s (m t)) (s + 1) (t + 1) n in
    let ends = store (store m s (m t)) (s + 1) 0 in if m t == 0 then ends else rest

-- for `n` that is not negative
unfoldable pub safestrcpy : (m : ℕ → ℕ) (s t n : ℕ) → ℕ → ℕ
unfolding safestrcpy_loop
safestrcpy m s t zero = m
safestrcpy m s t (suc n) = safestrcpy_loop m s t n

-- `strlen` that looks at no more than `fuel` bytes
unfoldable pub strlen : (fuel : ℕ) (m : ℕ → ℕ) (s n : ℕ) → Outcome ℕ
strlen zero m s n = out_of_fuel
strlen (suc fuel) m s n =
    let rest = strlen fuel m s (n + 1) in if m (s + n) == 0 then ret n else rest
